-- ===== src/Cutover/Apply/Reached.antt =====
-- The stages that the processes can reach (cutover/orchestrator.py, mcp/routing.py and
-- cutover/post_cutover_monitor.py together).
use salesforce.Common.{
  ℕ, ◌≡◌, ◌⊎◌, ◌≤◌, refl, sym, ap, ◌∙◌, Bool, true, false, Option, none, some, String, List, ◌=ₛ◌,
  eq_iff, arith, inl, inr, Bool-cases,
}
use salesforce.Common.Dict.{get, put, get-put}
use salesforce.Cutover.Router.{RoutingConfig, next_stage, previous_stage}
use salesforce.Cutover.Router.Stages.{IsStage, next_stage-steps_up, previous_stage-steps_down}
use salesforce.Cutover.Routing.{RoutingTable, get_config, upsert, instant_rollback, roll_back}
use salesforce.Cutover.Saga.{SagaTransaction}
use salesforce.Cutover.Readiness.{ReadinessEvent, ReadinessScore, score_process}
use salesforce.Cutover.Orchestrator.{
  TransitionKind, hold, advance, rollback, immediate_rollback, TransitionDecision,
  CutoverOrchestrator, decide, decide_for, evaluate,
}
use salesforce.Cutover.Orchestrator.Decisions.{Justified, decide-process_id, decide-Justified}
use salesforce.Cutover.Apply.{
  CutoverState, ApplyResult, held, sign_off_required, incomplete, applied, apply, begin,
  anchor_stage_transition,
}
use salesforce.Cutover.Apply.Applied.{Effect, Committed, stays, apply-Effect}

-- The table after one step of the cutover: a process begins, a decision is taken and applied, or an
-- operator rolls a process back at once.
pub data Move (W : Type 0) (o : CutoverOrchestrator) : CutoverState → CutoverState → Type 0 where
  begins :
      (p : String) (seed : Option String) (now : ℕ) (c : CutoverState)
      → Move W o c (begin p seed now c).1
  cycles :
      (events : List ReadinessEvent) (p : String) (now later : ℕ) (confirmed : Bool)
      (saga : Option (SagaTransaction W)) (w : W) (c : CutoverState)
      → Move W o c (apply (evaluate o c.table events p now) confirmed saga later c w).1
  rolls_back :
      (p : String) (now : ℕ) (c : CutoverState)
      → Move W o c (record c { table = (instant_rollback p now c.table).1 })

-- How the configuration of a process may change in one step.
abbrev pub Steps : Option RoutingConfig → Option RoutingConfig → Type 0
Steps before after =
    (after ≡ before)
    ⊎ ((new : RoutingConfig) × (after ≡ some new)
        × ((new.stage_percent ≤ 1)
            ⊎ ((old : RoutingConfig) × (before ≡ some old)
                × ((next_stage old.stage_percent ≡ some new.stage_percent)
                    ⊎ (new.stage_percent ≡ previous_stage old.stage_percent)))))

put-Steps :
    (t : RoutingTable) (p : String) (cfg : RoutingConfig) (q : String)
    → ((p =ₛ q) ≡ true → Steps (get t.configs q) (some cfg))
    → Steps (get t.configs q) (get (put t.configs p cfg) q)
put-Steps t p cfg q h =
    rw (get-put t.configs p q cfg)
      (elim (Bool-cases (p =ₛ q)) [ inl same ↦ rw same (h same) | inr other ↦ rw other (inl refl) ])

begin-Steps :
    (p : String) (seed : Option String) (now : ℕ) (c : CutoverState) (q : String)
    → Steps (get_config c.table q) (get_config (begin p seed now c).1.table q)
unfolding begin upsert get_config anchor_stage_transition
begin-Steps p seed now c q = put-Steps c.table p _ q (λ e. inr (_, refl, inl (ground arith)))

instant_rollback-Steps :
    (p : String) (now : ℕ) (t : RoutingTable) (q : String)
    → Steps (get_config t q) (get_config (instant_rollback p now t).1 q)
unfolding instant_rollback get_config roll_back upsert
instant_rollback-Steps p now t q = go (get t.configs p)
  where
    go :
        (o : Option RoutingConfig) → Steps (get t.configs q) (get (roll_back p now t o).1.configs q)
    go none = inl refl
    go (some c) = put-Steps t p _ q (λ e. inr (_, refl, inl (ground arith)))

-- A decision that is not to hold leads to a stage that the process may step to.
abbrev Sound : CutoverState → TransitionDecision → Type 0
Sound c d =
    (stays d.kind ≡ true)
    ⊎ ((old : RoutingConfig) × (get_config c.table d.process_id ≡ some old)
        × ((d.to_percent ≤ 1)
            ⊎ ((next_stage old.stage_percent ≡ some d.to_percent)
                ⊎ (d.to_percent ≡ previous_stage old.stage_percent))))

evaluate-Sound :
    (o : CutoverOrchestrator) (c : CutoverState) (events : List ReadinessEvent) (p : String)
    (now : ℕ)
    → Sound c (evaluate o c.table events p now)
unfolding evaluate
evaluate-Sound o c events p now = go (get_config c.table p) refl
  where
    kinds :
        (cfg : RoutingConfig) (s : ReadinessScore) (d : TransitionDecision) (k : TransitionKind)
        → d.kind ≡ k
        → get_config c.table d.process_id ≡ some cfg
        → Justified o cfg s now d k
        → Sound c d
    kinds cfg s d hold e g j = inl (rw e (refl))
    kinds cfg s d advance e g j = inr (cfg, g, inr (inl j.0))
    kinds cfg s d rollback e g j = inr (cfg, g, inr (inr j.0))
    kinds cfg s d immediate_rollback e g j = inr (cfg, g, inl (ground (arith, j.0)))

    go :
        (m : Option RoutingConfig)
        → get_config c.table p ≡ m
        → Sound c (decide_for o events p now m)
    go none e = inl (unfold decide_for in refl)
    go (some cfg) e =
        let s = score_process o.scorer events p now in
        unfold decide_for in
        kinds cfg s (decide o p cfg s now) _ refl (rw (decide-process_id o p cfg s now) e)
          (decide-Justified o p cfg s now).0

apply-Steps :
    {W : Type 0} (d : TransitionDecision) (confirmed : Bool) (saga : Option (SagaTransaction W))
    (now : ℕ) (c : CutoverState) (w : W) (q : String)
    → Sound c d
    → Steps (get_config c.table q) (get_config (apply d confirmed saga now c w).1.table q)
apply-Steps {W} d confirmed saga now c w q sound =
    let (r, c', w') = apply d confirmed saga now c w in
    go r c' w' (apply-Effect d confirmed saga now c w)
  where
    same : (c' : CutoverState) → c' ≡ c → Steps (get_config c.table q) (get_config c'.table q)
    same c' e = inl (ap (λ x. get_config x.table q) e)

    new :
        (c' : CutoverState) (cfg : RoutingConfig)
        → stays d.kind ≡ false
        → Committed d now c cfg c'
        → Sound c d
        → Steps (get_config c.table q) (get_config c'.table q)
    new c' cfg moves (got, is, _, others, _) (inl rests) = ground arith
    new c' cfg moves (got, is, _, others, _) (inr (old, g, to)) =
        elim (Bool-cases (d.process_id =ₛ q)) [
          | inr other ↦ inl (others q other)
          | inl here ↦
              let q_is = (eq_iff d.process_id q).0 here in
              inr (
                cfg,
                ap (get_config c'.table) (sym q_is) ∙ got,
                rw (ap (λ x. x.stage_percent) is) (elim to [
                  | inl low ↦ inl low
                  | inr near ↦ inr (old, ap (get_config c.table) (sym q_is) ∙ g, near)
                ]),
              )
        ]

    go :
        (r : ApplyResult) (c' : CutoverState) (w' : W)
        → Effect d confirmed saga now c w r c' w'
        → Steps (get_config c.table q) (get_config c'.table q)
    go held c' w' (_, e, _) = same c' e
    go sign_off_required c' w' (_, _, e, _) = same c' e
    go (incomplete out) c' w' (_, _, _, _, e) = same c' e
    go (applied comp cfg) c' w' (moves, _, _, committed) = new c' cfg moves committed sound

-- In one step of the cutover a process keeps its configuration, goes to 0 or to 1 percent, or goes one
-- stage up or down from the stage that it was at; this holds of every process.
pub Move-Steps :
    {W : Type 0} (o : CutoverOrchestrator) (c c' : CutoverState) (q : String)
    → Move W o c c'
    → Steps (get_config c.table q) (get_config c'.table q)
Move-Steps o c c' q (begins p seed now _) = begin-Steps p seed now c q
Move-Steps o c c' q (cycles events p now later confirmed saga w _) =
    apply-Steps (evaluate o c.table events p now) confirmed saga later c w q
      (evaluate-Sound o c events p now)
Move-Steps o c c' q (rolls_back p now _) = instant_rollback-Steps p now c.table q

-- The states that a sequence of steps reaches.
pub data Reach (W : Type 0) (o : CutoverOrchestrator) (c : CutoverState)
    : CutoverState → Type 0 where
  start : Reach W o c c
  further : (d e : CutoverState) → Reach W o c d → Move W o d e → Reach W o c e

-- Every configuration is at a stage.
abbrev pub IsStaged : CutoverState → Type 0
IsStaged c =
    (p : String) (cfg : RoutingConfig) → get_config c.table p ≡ some cfg → IsStage cfg.stage_percent

carry-IsStage :
    (a b : RoutingConfig) → some a ≡ some b → IsStage a.stage_percent → IsStage b.stage_percent
carry-IsStage a b e s = ground (arith, e, s)

Steps-IsStage :
    (before after : Option RoutingConfig)
    → Steps before after
    → ((cfg : RoutingConfig) → before ≡ some cfg → IsStage cfg.stage_percent)
    → (cfg : RoutingConfig) → after ≡ some cfg
    → IsStage cfg.stage_percent
Steps-IsStage before after (inl same) h cfg e = h cfg (sym same ∙ e)
Steps-IsStage before after (inr (new, is, inl low)) h cfg e =
    carry-IsStage new cfg (sym is ∙ e) (ground (arith, low))
Steps-IsStage before after (inr (new, is, inr (old, was, inl up))) h cfg e =
    carry-IsStage new cfg (sym is ∙ e)
      (next_stage-steps_up old.stage_percent new.stage_percent up).0
Steps-IsStage before after (inr (new, is, inr (old, was, inr down))) h cfg e =
    carry-IsStage new cfg (sym is ∙ e) (rw down (previous_stage-steps_down old.stage_percent).0)

-- Whatever steps are taken, in whatever order, from a state in which every configuration is at a
-- stage (0, 1, 5, 25, 50 or 100 percent), every configuration is at a stage.
pub reached-IsStaged :
    {W : Type 0} (o : CutoverOrchestrator) (c c' : CutoverState)
    → IsStaged c
    → Reach W o c c'
    → IsStaged c'
reached-IsStaged o c c' h start = h
reached-IsStaged o c c' h (further d _ r m) =
    λ p cfg e. Steps-IsStage _ _ (Move-Steps o d c' p m) (reached-IsStaged o c d h r p) cfg e
