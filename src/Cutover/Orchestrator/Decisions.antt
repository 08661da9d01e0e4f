-- ===== src/Cutover/Orchestrator/Decisions.antt =====
-- When a process is advanced or rolled back (`evaluate` of cutover/orchestrator.py).
use salesforce.Common.{
  ℕ, ◌≤◌, ◌<◌, ◌≡◌, ◌⊎◌, refl, Bool, true, false, ◌&&◌, Option, none, some, String, ltb, leb, arith,
  inl, inr, Bool-cases,
}
use salesforce.Cutover.Router.{RoutingConfig, dwell_complete, next_stage, previous_stage}
use salesforce.Cutover.Router.Stages.{previous_stage-steps_down}
use salesforce.Cutover.Readiness.{ReadinessScore}
use salesforce.Cutover.Orchestrator.{
  TransitionKind, hold, advance, rollback, immediate_rollback, TransitionDecision,
  CutoverOrchestrator, decide, decide_advance, decide_hold,
}

-- What a decision of a kind asks of the configuration and the score, and where it leads.
abbrev pub Justified :
    CutoverOrchestrator
    → RoutingConfig
    → ReadinessScore
    → ℕ
    → TransitionDecision
    → TransitionKind
    → Type 0
Justified o cfg s now d hold =
    (d.to_percent ≡ cfg.stage_percent) × (o.immediate_rollback_threshold ≤ s.score)
Justified o cfg s now d advance =
    (next_stage cfg.stage_percent ≡ some d.to_percent)
    × (o.advance_threshold ≤ s.score)
    × (dwell_complete cfg now ≡ true)
    × (s.cutover_eligible ≡ true)
    × (o.immediate_rollback_threshold ≤ s.score)
    × ((o.rollback_threshold ≤ s.score) ⊎ (cfg.stage_percent ≡ 0))
Justified o cfg s now d rollback =
    (d.to_percent ≡ previous_stage cfg.stage_percent)
    × (d.to_percent < cfg.stage_percent)
    × (s.score < o.rollback_threshold)
    × (o.immediate_rollback_threshold ≤ s.score)
Justified o cfg s now d immediate_rollback =
    (d.to_percent ≡ 0) × (s.score < o.immediate_rollback_threshold)

hold-Justified :
    (o : CutoverOrchestrator) (p : String) (cfg : RoutingConfig) (s : ReadinessScore) (now : ℕ)
    → o.immediate_rollback_threshold ≤ s.score
    → let d = decide_hold o p cfg s now in
      Justified o cfg s now d d.kind
      × (d.from_percent ≡ cfg.stage_percent)
      × (d.requires_human_signoff ≡ false)
unfolding decide_hold
hold-Justified o p cfg s now h = ((refl, h), refl, refl)

-- Whether a decision asks for a human.
abbrev pub asks_human : TransitionKind → Bool
asks_human immediate_rollback = true
asks_human _ = false

advance-Justified :
    (o : CutoverOrchestrator) (p : String) (cfg : RoutingConfig) (s : ReadinessScore) (now : ℕ)
    (n : Option ℕ)
    → next_stage cfg.stage_percent ≡ n
    → o.immediate_rollback_threshold ≤ s.score
    → (o.rollback_threshold ≤ s.score) ⊎ (cfg.stage_percent ≡ 0)
    → let d = decide_advance o p cfg s now n in
      Justified o cfg s now d d.kind
      × (d.from_percent ≡ cfg.stage_percent)
      × (d.requires_human_signoff ≡ asks_human d.kind)
unfolding decide_advance decide_hold
advance-Justified o p cfg s now none e h k = hold-Justified o p cfg s now h
advance-Justified o p cfg s now (some n) e h k =
    elim (Bool-cases
      (leb o.advance_threshold s.score && dwell_complete cfg now && s.cutover_eligible)) [
        | inr no_advance ↦ rw no_advance (hold-Justified o p cfg s now h)
        | inl ready ↦ rw ready ((e, ground arith, ground arith, ground arith, h, k), refl, refl)
      ]

pub decide-process_id :
    (o : CutoverOrchestrator) (p : String) (cfg : RoutingConfig) (s : ReadinessScore) (now : ℕ)
    → (decide o p cfg s now).process_id ≡ p
unfolding decide decide_advance decide_hold
decide-process_id o p cfg s now = ground arith

-- A decision is always justified by its kind: it advances only to the next stage, with the score at
-- the threshold, the dwell time over and the process eligible; it rolls back only downwards, to the
-- previous stage below the rollback threshold and to 0 below the immediate one; otherwise it holds
-- where the process is. It starts at the stage of the process, and it asks for a human exactly when it
-- is an immediate rollback.
pub decide-Justified :
    (o : CutoverOrchestrator) (p : String) (cfg : RoutingConfig) (s : ReadinessScore) (now : ℕ)
    → let d = decide o p cfg s now in
      Justified o cfg s now d d.kind
      × (d.from_percent ≡ cfg.stage_percent)
      × (d.requires_human_signoff ≡ asks_human d.kind)
unfolding decide
decide-Justified o p cfg s now = elim (Bool-cases (ltb s.score o.immediate_rollback_threshold)) [
  | inl low ↦ rw low ((refl, ground arith), refl, refl)
  | inr fair ↦
      rw fair (elim (Bool-cases (ltb s.score o.rollback_threshold && ltb 0 cfg.stage_percent)) [
        | inl back ↦ rw back (
          (
            refl,
            (previous_stage-steps_down cfg.stage_percent).2 (ground arith),
            ground arith,
            ground arith,
          ),
          refl,
          refl,
        )
        | inr stay ↦ rw stay (
            advance-Justified o p cfg s now (next_stage cfg.stage_percent) refl (ground arith)
              (ground arith))
      ])
]
