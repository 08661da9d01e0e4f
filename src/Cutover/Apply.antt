-- ===== src/Cutover/Apply.antt =====
-- `apply` and `begin` of cutover/orchestrator.py and cutover/provenance.py: the execution of a decision.
pub mod Applied
pub mod Reached
use salesforce.Common.{
  ℕ, ◌+◌, ◌-◌, Bool, true, false, not, ◌&&◌, ◌||◌, Option, none, some, String, List, [], ◌∷◌, ◌++◌,
  ◌=ₛ◌, is_some, length, ltb, leb, if◌then◌else◌,
}
use salesforce.Cutover.Router.{
  RoutingConfig, dwell_complete, dwell_remaining, next_stage, previous_stage,
}
use salesforce.Cutover.Routing.{RoutingTable, get_config, upsert, instant_rollback}
use salesforce.Cutover.Saga.{SagaTransaction, CompensationOutcome, compensate}
use salesforce.Cutover.Readiness.{
  ReadinessEvent, ReadinessScorer, ReadinessScore, ScoreReason, score_process,
}
use salesforce.Cutover.Orchestrator.{
  TransitionKind, hold, advance, rollback, immediate_rollback, DecisionReason, TransitionDecision,
}

-- The `kind` and `reason` of an anchored transition.
pub data AnchorKind : Type 0 where
  decided : TransitionKind → DecisionReason → AnchorKind
  begun : AnchorKind
  rolled_back : ℕ → ℕ → AnchorKind

-- The payload that `anchor_stage_transition` anchors, once in Engram and once for F44.
pub record StageTransition : Type 0 where
  pub process_id : String
  pub from_percent : ℕ
  pub to_percent : ℕ
  pub readiness_score : ℕ
  pub kind : AnchorKind

pub record CutoverState : Type 0 where
  pub table : RoutingTable
  pub anchors : List StageTransition

unfoldable pub anchor_stage_transition : StageTransition → CutoverState → CutoverState
anchor_stage_transition t c = record c { anchors = c.anchors ++ t ∷ t ∷ [] }

pub data ApplyResult : Type 0 where
  held sign_off_required : ApplyResult
  incomplete : CompensationOutcome → ApplyResult
  applied : Option CompensationOutcome → RoutingConfig → ApplyResult

unfoldable pub is_hold : TransitionKind → Bool
is_hold hold = true
is_hold _ = false

unfoldable pub is_rollback : TransitionKind → Bool
is_rollback rollback = true
is_rollback immediate_rollback = true
is_rollback _ = false

pub seed_of : Option RoutingConfig → String
seed_of none = "_seed"
seed_of (some cfg) = cfg.hash_seed

-- The end of `apply`: the routing row and the anchors.
unfoldable pub commit :
    TransitionDecision → Option CompensationOutcome → ℕ → CutoverState → ApplyResult × CutoverState
unfolding seed_of
commit d compensation now c =
    let (cfg, table) =
      upsert d.process_id d.to_percent (seed_of (get_config c.table d.process_id)) none now
        c.table in
    (
      applied compensation cfg,
      anchor_stage_transition
          (record {
            process_id = d.process_id;
            from_percent = d.from_percent;
            to_percent = d.to_percent;
            readiness_score = d.readiness_score;
            kind = decided d.kind d.reason;
          })
          (record { table = table; anchors = c.anchors }),
    )

module _ {W : Type 0} where
  -- The compensation of a rollback that has a saga.
  run_saga : TransitionDecision → Option (SagaTransaction W) → W → Option CompensationOutcome × W
  run_saga d none w = (none, w)
  run_saga d (some saga) w =
      let (outcome, w') = compensate saga w in
      if is_rollback d.kind then (some outcome, w') else (none, w)

  finish :
      TransitionDecision
      → Bool
      → ℕ
      → CutoverState
      → Option CompensationOutcome × W
      → ApplyResult × CutoverState × W
  finish d confirmed now c (none, w) = let (r, c') = commit d none now c in (r, c', w)
  finish d confirmed now c (some outcome, w) =
      let (r, c') = commit d (some outcome) now c in
      if not outcome.fully_compensated && not confirmed
      then (incomplete outcome, c, w)
      else (r, c', w)

  -- `apply`, at a time `now`.
  unfoldable pub apply :
      TransitionDecision
      → Bool
      → Option (SagaTransaction W)
      → ℕ
      → CutoverState
      → W
      → ApplyResult × CutoverState × W
  unfolding run_saga finish
  apply d confirmed saga now c w =
      if is_hold d.kind
      then (held, c, w)
      else if d.requires_human_signoff && not confirmed
      then (sign_off_required, c, w)
      else finish d confirmed now c (run_saga d saga w)

-- `begin`: the seed is the process's name where none is given.
unfoldable pub begin : String → Option String → ℕ → CutoverState → RoutingConfig × CutoverState
begin process_id hash_seed now c =
    let seed : String = elim hash_seed [
      | none ↦ process_id
      | some s ↦ if s =ₛ "" then process_id else s
    ] in
    let (cfg, table) = upsert process_id 1 seed none now c.table in
    (
      cfg,
      anchor_stage_transition
          (record {
            process_id = process_id;
            from_percent = 0;
            to_percent = 1;
            readiness_score = 0;
            kind = begun;
          })
          (record { table = table; anchors = c.anchors }),
    )
