-- ===== src/Cutover/Apply/Applied.antt =====
-- What the application of a decision changes (`apply` of cutover/orchestrator.py).
use salesforce.Common.{
  ℕ, ◌≡◌, ◌⊎◌, refl, Bool, true, false, not, ◌&&◌, Option, none, some, String, [], ◌∷◌, ◌++◌, ◌=ₛ◌,
  arith, inl, inr, Bool-cases,
}
use salesforce.Common.Dict.{get-put_self, get-put_ne}
use salesforce.Cutover.Router.{RoutingConfig}
use salesforce.Cutover.Routing.{get_config, upsert}
use salesforce.Cutover.Saga.{SagaTransaction, CompensationOutcome, compensate}
use salesforce.Cutover.Orchestrator.{
  TransitionDecision, TransitionKind, hold, advance, rollback, immediate_rollback,
}
use salesforce.Cutover.Apply.{
  CutoverState, StageTransition, decided, ApplyResult, held, sign_off_required, incomplete, applied,
  is_hold, is_rollback, seed_of, anchor_stage_transition, commit, run_saga, finish, apply,
}

-- The transition that a decision is recorded as.
abbrev pub transition : TransitionDecision → StageTransition
transition d = record {
  process_id = d.process_id;
  from_percent = d.from_percent;
  to_percent = d.to_percent;
  readiness_score = d.readiness_score;
  kind = decided d.kind d.reason;
}

-- The seed of a process that has a configuration, and of one that has none.
pub data Seeded : Option RoutingConfig → String → Type 0 where
  keeps_seed : (old : RoutingConfig) → Seeded (some old) old.hash_seed
  new_seed : Seeded none "_seed"

seed_of-Seeded : (o : Option RoutingConfig) → Seeded o (seed_of o)
unfolding seed_of
seed_of-Seeded none = new_seed
seed_of-Seeded (some old) = keeps_seed old

-- A decision is executed: its process has the new configuration, at the decision's stage from now on
-- and with the seed that it had (a fixed one where it had none), every other process has the one that it
-- had, and the transition is anchored twice.
abbrev pub Committed : TransitionDecision → ℕ → CutoverState → RoutingConfig → CutoverState → Type 0
Committed d now c cfg c' =
    (get_config c'.table d.process_id ≡ some cfg)
    × (cfg ≡ record {
      process_id = d.process_id;
      stage_percent = d.to_percent;
      hash_seed = cfg.hash_seed;
      entered_stage_at = now;
    })
    × Seeded (get_config c.table d.process_id) cfg.hash_seed
    × ((q : String) → (d.process_id =ₛ q) ≡ false → get_config c'.table q ≡ get_config c.table q)
    × (c'.anchors ≡ c.anchors ++ transition d ∷ transition d ∷ [])

commit-Committed :
    (d : TransitionDecision) (compensation : Option CompensationOutcome) (now : ℕ)
    (c : CutoverState)
    → let cfg : RoutingConfig = record {
      process_id = d.process_id;
      stage_percent = d.to_percent;
      hash_seed = seed_of (get_config c.table d.process_id);
      entered_stage_at = now;
    } in
      ((commit d compensation now c).0 ≡ applied compensation cfg)
      × Committed d now c cfg (commit d compensation now c).1
unfolding commit upsert get_config anchor_stage_transition
commit-Committed d compensation now c = (
  refl,
  (
    get-put_self c.table.configs d.process_id _,
    refl,
    seed_of-Seeded (get_config c.table d.process_id),
    λ q ne. get-put_ne c.table.configs d.process_id q _ ne,
    refl,
  ),
)

-- The kinds of decision that keep a process where it is, and those that send it back.
abbrev pub stays : TransitionKind → Bool
stays hold = true
stays advance = false
stays rollback = false
stays immediate_rollback = false

abbrev pub goes_back : TransitionKind → Bool
goes_back hold = false
goes_back advance = false
goes_back rollback = true
goes_back immediate_rollback = true

is_hold-stays : (k : TransitionKind) → is_hold k ≡ stays k
unfolding is_hold
is_hold-stays hold = refl
is_hold-stays advance = refl
is_hold-stays rollback = refl
is_hold-stays immediate_rollback = refl

is_rollback-goes_back : (k : TransitionKind) → is_rollback k ≡ goes_back k
unfolding is_rollback
is_rollback-goes_back hold = refl
is_rollback-goes_back advance = refl
is_rollback-goes_back rollback = refl
is_rollback-goes_back immediate_rollback = refl

module _ {W : Type 0} where
  -- What a result of `apply` says of the new state and the world.
  abbrev pub Effect :
      TransitionDecision
      → Bool
      → Option (SagaTransaction W)
      → ℕ
      → CutoverState
      → W
      → ApplyResult
      → CutoverState
      → W
      → Type 0
  Effect d confirmed saga now c w held c' w' = (stays d.kind ≡ true) × (c' ≡ c) × (w' ≡ w)
  Effect d confirmed saga now c w sign_off_required c' w' =
      (d.requires_human_signoff ≡ true) × (confirmed ≡ false) × (c' ≡ c) × (w' ≡ w)
  Effect d confirmed saga now c w (incomplete outcome) c' w' =
      (goes_back d.kind ≡ true)
      × (confirmed ≡ false)
      × ((s : SagaTransaction W) × (saga ≡ some s) × (compensate s w ≡ (outcome, w')))
      × (outcome.fully_compensated ≡ false)
      × (c' ≡ c)
  Effect d confirmed saga now c w (applied compensation cfg) c' w' =
      (stays d.kind ≡ false)
      × (d.requires_human_signoff ≡ true → confirmed ≡ true)
      × (((compensation ≡ none) × (w' ≡ w) × ((saga ≡ none) ⊎ (goes_back d.kind ≡ false)))
          ⊎ ((s : SagaTransaction W) × (outcome : CompensationOutcome) × (saga ≡ some s)
              × (compensation ≡ some outcome)
              × (compensate s w ≡ (outcome, w'))
              × (goes_back d.kind ≡ true)
              × (outcome.fully_compensated ≡ false → confirmed ≡ true)))
      × Committed d now c cfg c'

  finish-Effect :
      (d : TransitionDecision) (confirmed : Bool) (saga : Option (SagaTransaction W)) (now : ℕ)
      (c : CutoverState) (w : W)
      → stays d.kind ≡ false
      → (d.requires_human_signoff ≡ true → confirmed ≡ true)
      → let (r, c', w') = finish d confirmed now c (run_saga d saga w) in
        Effect d confirmed saga now c w r c' w'
  unfolding finish run_saga
  finish-Effect d confirmed none now c w h s =
      let (e, committed) = commit-Committed d none now c in
      rw e (h, s, inl (refl, refl, inl refl), committed)
  finish-Effect d confirmed (some saga) now c w h s = elim (Bool-cases (goes_back d.kind)) [
    | inr forward ↦
        let (e, committed) = commit-Committed d none now c in
        rw (is_rollback-goes_back d.kind, forward, e)
          (h, s, inl (refl, refl, inr forward), committed)
    | inl back ↦
        let (outcome, end) = compensate saga w in
        let (e, committed) = commit-Committed d (some outcome) now c in
        rw (is_rollback-goes_back d.kind, back)
          (elim (Bool-cases (not outcome.fully_compensated && not confirmed)) [
            | inl stop ↦ rw stop (back, ground arith, (saga, refl, refl), ground arith, refl)
            | inr on ↦
                rw (on, e)
                  (h, s, inr (saga, outcome, refl, refl, refl, back, λ k. ground arith), committed)
          ])
  ]

  -- What `apply` does on every path: a decision to hold, one that waits for a human and a rollback
  -- whose compensation is incomplete and not confirmed leave the routing and the anchors as they were;
  -- the first two also leave the world, the third leaves what the compensation made of it.
  -- Otherwise the decision is executed: its process, and no other, goes to the decision's stage with
  -- the seed that it had, or a fixed one where it had none, and the transition is anchored twice. A
  -- saga is compensated exactly when it is given and the decision is a rollback, and its outcome is in
  -- the result.
  pub apply-Effect :
      (d : TransitionDecision) (confirmed : Bool) (saga : Option (SagaTransaction W)) (now : ℕ)
      (c : CutoverState) (w : W)
      → let (r, c', w') = apply d confirmed saga now c w in Effect d confirmed saga now c w r c' w'
  unfolding apply
  apply-Effect d confirmed saga now c w = elim (Bool-cases (stays d.kind)) [
    | inl stay ↦ rw (is_hold-stays d.kind, stay) (stay, refl, refl)
    | inr go ↦
        rw (is_hold-stays d.kind, go)
          (elim (Bool-cases (d.requires_human_signoff && not confirmed)) [
            | inl wait ↦ rw wait (ground arith, ground arith, refl, refl)
            | inr on ↦ rw on (finish-Effect d confirmed saga now c w go (λ k. ground arith))
          ])
  ]
