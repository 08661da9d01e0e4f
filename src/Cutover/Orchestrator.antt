-- ===== src/Cutover/Orchestrator.antt =====
-- `evaluate` of cutover/orchestrator.py: the decision to advance a process or to roll it back. A
-- decision's reason is a text in the program; here it is the case and its numbers.
pub mod Decisions
use salesforce.Common.{
  ℕ, ◌+◌, ◌-◌, Bool, true, false, not, ◌&&◌, ◌||◌, Option, none, some, String, List, [], ◌∷◌, ◌++◌,
  ◌=ₛ◌, is_some, length, ltb, leb, if◌then◌else◌,
}
use salesforce.Cutover.Router.{
  RoutingConfig, dwell_complete, dwell_remaining, next_stage, previous_stage,
}
use salesforce.Cutover.Routing.{RoutingTable, get_config, upsert, instant_rollback}
use salesforce.Cutover.Saga.{SagaTransaction, CompensationOutcome, compensate}
use salesforce.Cutover.Readiness.{
  ReadinessEvent, ReadinessScorer, ReadinessScore, ScoreReason, score_process,
}

pub data TransitionKind : Type 0 where
  hold advance rollback immediate_rollback : TransitionKind

pub data DecisionReason : Type 0 where
  no_routing_config at_hundred not_eligible : DecisionReason
  below_immediate below_rollback reached_advance below_advance : ℕ → ℕ → DecisionReason
  dwell_incomplete : ℕ → DecisionReason

pub record TransitionDecision : Type 0 where
  pub process_id : String
  pub kind : TransitionKind
  pub from_percent : ℕ
  pub to_percent : ℕ
  pub readiness_score : ℕ
  pub reason : DecisionReason
  pub requires_human_signoff : Bool

pub record CutoverOrchestrator : Type 0 where
  pub scorer : ReadinessScorer
  pub advance_threshold : ℕ
  pub rollback_threshold : ℕ
  pub immediate_rollback_threshold : ℕ

decide_hold : CutoverOrchestrator → String → RoutingConfig → ReadinessScore → ℕ → TransitionDecision
decide_hold o process_id cfg s now = record {
  process_id = process_id;
  kind = hold;
  from_percent = cfg.stage_percent;
  to_percent = cfg.stage_percent;
  readiness_score = s.score;
  reason =
      if not (is_some (next_stage cfg.stage_percent))
      then at_hundred
      else if ltb s.score o.advance_threshold
      then below_advance s.score o.advance_threshold
      else if not (dwell_complete cfg now)
      then dwell_incomplete (dwell_remaining cfg now)
      else not_eligible;
  requires_human_signoff = false;
}

-- The last guard of `evaluate`, with the next stage at hand.
decide_advance :
    CutoverOrchestrator
    → String
    → RoutingConfig
    → ReadinessScore
    → ℕ
    → Option ℕ
    → TransitionDecision
decide_advance o process_id cfg s now none = decide_hold o process_id cfg s now
decide_advance o process_id cfg s now (some nxt) =
    if leb o.advance_threshold s.score && dwell_complete cfg now && s.cutover_eligible
    then record {
      process_id = process_id;
      kind = advance;
      from_percent = cfg.stage_percent;
      to_percent = nxt;
      readiness_score = s.score;
      reason = reached_advance s.score o.advance_threshold;
      requires_human_signoff = false;
    }
    else decide_hold o process_id cfg s now

-- `evaluate`, once the configuration and the score are known.
unfoldable pub decide :
    CutoverOrchestrator → String → RoutingConfig → ReadinessScore → ℕ → TransitionDecision
unfolding decide_advance decide_hold
decide o process_id cfg s now =
    if ltb s.score o.immediate_rollback_threshold
    then record {
      process_id = process_id;
      kind = immediate_rollback;
      from_percent = cfg.stage_percent;
      to_percent = 0;
      readiness_score = s.score;
      reason = below_immediate s.score o.immediate_rollback_threshold;
      requires_human_signoff = true;
    }
    else if ltb s.score o.rollback_threshold && ltb 0 cfg.stage_percent
    then record {
      process_id = process_id;
      kind = rollback;
      from_percent = cfg.stage_percent;
      to_percent = previous_stage cfg.stage_percent;
      readiness_score = s.score;
      reason = below_rollback s.score o.rollback_threshold;
      requires_human_signoff = false;
    }
    else decide_advance o process_id cfg s now (next_stage cfg.stage_percent)

unfoldable pub decide_for :
    CutoverOrchestrator
    → List ReadinessEvent
    → String
    → ℕ
    → Option RoutingConfig
    → TransitionDecision
decide_for o events process_id now none = record {
  process_id = process_id;
  kind = hold;
  from_percent = 0;
  to_percent = 0;
  readiness_score = 0;
  reason = no_routing_config;
  requires_human_signoff = false;
}
decide_for o events process_id now (some cfg) =
    decide o process_id cfg (score_process o.scorer events process_id now) now

-- `evaluate`, over the rows of the shadow store.
unfoldable pub evaluate :
    CutoverOrchestrator → RoutingTable → List ReadinessEvent → String → ℕ → TransitionDecision
evaluate o table events process_id now =
    decide_for o events process_id now (get_config table process_id)
