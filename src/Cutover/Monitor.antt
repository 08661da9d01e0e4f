-- ===== src/Cutover/Monitor.antt =====
-- cutover/post_cutover_monitor.py: the watch over a process that is at 100 percent.
pub mod Alerts
use salesforce.Common.{
  ℕ, ◌+◌, ◌-◌, Bool, true, false, not, ◌&&◌, ◌||◌, Option, none, some, String, List, [], ◌∷◌, ◌++◌,
  ◌=ₛ◌, is_some, length, ltb, leb, if◌then◌else◌,
}
use salesforce.Cutover.Router.{
  RoutingConfig, dwell_complete, dwell_remaining, next_stage, previous_stage,
}
use salesforce.Cutover.Routing.{RoutingTable, get_config, upsert, instant_rollback}
use salesforce.Cutover.Saga.{SagaTransaction, CompensationOutcome, compensate}
use salesforce.Cutover.Readiness.{
  ReadinessEvent, ReadinessScorer, ReadinessScore, ScoreReason, score_process,
}
use salesforce.Cutover.Apply.{
  CutoverState, StageTransition, AnchorKind, rolled_back, anchor_stage_transition,
}

pub record PostCutoverMonitor : Type 0 where
  pub scorer : ReadinessScorer
  pub regression_threshold : ℕ
  pub auto_rollback : Bool

pub record RegressionAlert : Type 0 where
  pub process_id : String
  pub score : ℕ
  pub threshold : ℕ
  pub detected_at : ℕ
  pub auto_rollback_triggered : Bool
  pub explanation : ScoreReason

-- `if self.auto_rollback:` of `check`.
roll_back_now : PostCutoverMonitor → String → ReadinessScore → ℕ → CutoverState → CutoverState
roll_back_now m process_id s now c =
    let (_, table) = instant_rollback process_id now c.table in
    if m.auto_rollback
    then anchor_stage_transition
        (record {
          process_id = process_id;
          from_percent = 100;
          to_percent = 0;
          readiness_score = s.score;
          kind = rolled_back s.score m.regression_threshold;
        })
        (record { table = table; anchors = c.anchors })
    else c

check_cfg :
    PostCutoverMonitor
    → List ReadinessEvent
    → String
    → ℕ
    → CutoverState
    → Option RoutingConfig
    → Option RegressionAlert × CutoverState
unfolding roll_back_now
check_cfg m events process_id now c none = (none, c)
check_cfg m events process_id now c (some cfg) =
    let s = score_process m.scorer events process_id now in
    if ltb cfg.stage_percent 100
    then (none, c)
    else if leb m.regression_threshold s.score
    then (none, c)
    else (
      some (record {
        process_id = process_id;
        score = s.score;
        threshold = m.regression_threshold;
        detected_at = now;
        auto_rollback_triggered = m.auto_rollback;
        explanation = s.reason;
      }),
      roll_back_now m process_id s now c,
    )

-- `PostCutoverMonitor.check`.
unfoldable pub check :
    PostCutoverMonitor
    → List ReadinessEvent
    → String
    → ℕ
    → CutoverState
    → Option RegressionAlert × CutoverState
unfolding check_cfg
check m events process_id now c =
    check_cfg m events process_id now c (get_config c.table process_id)
