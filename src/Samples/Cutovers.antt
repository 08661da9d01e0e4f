-- ===== src/Samples/Cutovers.antt =====
-- A process on its way from Salesforce to the runtime.
use salesforce.Common.{
  any, keep, ◌-◌, ◌*◌, ℕ, ◌+◌, ◌≤◌, ◌<◌, ◌≡◌, ◌↔◌, refl, arith, true, false, not, ◌&&◌, none, some,
  is_some, String, List, [], ◌∷◌, ◌++◌, length, all, ◌=ₛ◌, keep, zero, suc,
}
use mathlib.Core.List.{reverse}
use salesforce.Common.Exec.{ok}
use salesforce.Cutover.Router.{
  RoutingConfig, to_salesforce, to_runtime, route_for_record, bucket, next_stage,
}
use salesforce.Cutover.Router.Sticky.{route-sticky}
use salesforce.Cutover.Routing.{RoutingTable, get_config, route, instant_rollback}
use salesforce.Cutover.Routing.Rollback.{instant_rollback-routes}
use salesforce.Cutover.Saga.{ActivitySpec, SagaTransaction, CompensationResult, undo, compensate}
use salesforce.Cutover.Saga.Reversal.{Reverses, human, until_human, pause, compensate-Reverses}
use salesforce.Cutover.Readiness.{
  ReadinessEvent, ReadinessScore, no_events, default_scorer, score_rows, severity_total,
  clamped_score, round_ratio,
}
use salesforce.Cutover.Readiness.Score.{total_severity, score_rows-eligible}
use salesforce.Cutover.Orchestrator.{
  CutoverOrchestrator, TransitionDecision, rollback, at_hundred, decide, evaluate,
}
use salesforce.Cutover.Orchestrator.Decisions.{Justified, asks_human, decide-Justified}
use salesforce.Cutover.Apply.{CutoverState, apply, begin}
use salesforce.Cutover.Apply.Applied.{Effect, apply-Effect}
use salesforce.Cutover.Apply.Reached.{Move, cycles, Steps, Move-Steps}
use salesforce.Cutover.Monitor.{PostCutoverMonitor, check}
use salesforce.Cutover.Monitor.Alerts.{Regressed, AfterAlert, check-alerts}

-- A digest that gives every key the same bucket.
abbrev digest : String → ℕ
digest s = 130

abbrev at_percent : ℕ → RoutingConfig
at_percent n = record {
  process_id = "p";
  stage_percent = n;
  hash_seed = "seed";
  entered_stage_at = 0;
}

abbrev table : RoutingTable
table = record { rows = ("p", at_percent 50) ∷ []; configs = ("p", at_percent 50) ∷ [] }

abbrev state : CutoverState
state = record { table = table; anchors = [] }

abbrev orchestrator : CutoverOrchestrator
orchestrator = record {
  scorer = default_scorer;
  advance_threshold = 98;
  rollback_threshold = 95;
  immediate_rollback_threshold = 90;
}

abbrev score : ReadinessScore
score = record {
  process_id = "p";
  window_days = 30;
  total_events = 200;
  clean_events = 186;
  diverged_events = 14;
  avg_severity = (0, 14);
  score = 93;
  cutover_eligible = false;
  reason = no_events;
}

decide-Justified_example :
    let d = decide orchestrator "p" (at_percent 50) score 5 in
    Justified orchestrator (at_percent 50) score 5 d d.kind
    × (d.from_percent ≡ 50)
    × (d.requires_human_signoff ≡ asks_human d.kind)
decide-Justified_example = decide-Justified orchestrator "p" (at_percent 50) score 5

-- The world of the sagas: the names of what was reversed.
abbrev reverse_step : String → ActivitySpec (List String)
reverse_step name = record {
  name = name;
  compensation_kind = undo;
  description = "";
  compensate = some (λ io w. (ok [], name ∷ w));
}

abbrev saga : SagaTransaction (List String)
saga = record {
  saga_id = "s";
  activities =
      record { activity = reverse_step "a"; inputs = []; outputs = [] }
      ∷ record { activity = reverse_step "b"; inputs = []; outputs = [] }
      ∷ [];
}

compensate-Reverses_example :
    let (out, end) = compensate saga [] in
    let taken = reverse saga.activities in
    (results : List CompensationResult) × Reverses (until_human taken) [] results end
    × (out.results ≡ results ++ pause taken)
    × (out.paused_for_human ≡ any human saga.activities)
    × (out.fully_compensated ≡ (
        all (λ (r : CompensationResult). r.succeeded) results && not (any human saga.activities)))
compensate-Reverses_example = compensate-Reverses saga []

abbrev back : TransitionDecision
back = record {
  process_id = "p";
  kind = rollback;
  from_percent = 50;
  to_percent = 25;
  readiness_score = 93;
  reason = at_hundred;
  requires_human_signoff = false;
}

apply-Effect_example :
    let (r, c', w') = apply back false (some saga) 9 state [] in
    Effect back false (some saga) 9 state [] r c' w'
apply-Effect_example = apply-Effect back false (some saga) 9 state []

abbrev empty : CutoverState
empty = record { table = record { rows = []; configs = [] }; anchors = [] }

abbrev begun : CutoverState
begun = (begin "p" none 0 empty).1

abbrev nothing_reversed : List String
nothing_reversed = []

abbrev cycled : CutoverState
cycled = (apply (evaluate orchestrator begun.table [] "p" 5) true none 6 begun nothing_reversed).1

cycle : Move (List String) orchestrator begun cycled
cycle = cycles [] "p" 5 6 true none nothing_reversed begun

Move-Steps_example : Steps (get_config begun.table "p") (get_config cycled.table "p")
Move-Steps_example = Move-Steps orchestrator begun cycled "p" cycle

abbrev monitor : PostCutoverMonitor
monitor = record { scorer = default_scorer; regression_threshold = 95; auto_rollback = true }

abbrev done : CutoverState
done = record {
  table = record { rows = ("p", at_percent 100) ∷ []; configs = ("p", at_percent 100) ∷ [] };
  anchors = [];
}

check-alerts_example :
    let (alert, c') = check monitor [] "p" 5 done in
    ((is_some alert ≡ true) ↔ Regressed monitor [] "p" 5 done)
    × (is_some alert ≡ false → c' ≡ done)
    × (is_some alert ≡ true → AfterAlert digest monitor "p" done c')
check-alerts_example = check-alerts digest monitor [] "p" 5 done

instant_rollback-routes_example :
    let (answer, u) = instant_rollback "p" 5 table in
    ((record_id : String) → route digest u "p" record_id ≡ to_salesforce)
    × ((q record_id : String)
        → ("p" =ₛ q) ≡ false
        → route digest u q record_id ≡ route digest table q record_id)
    × (answer ≡ get_config u "p")
    × (get_config table "p" ≡ none → u ≡ table)
instant_rollback-routes_example = instant_rollback-routes digest table "p" 5

routed : route_for_record digest (at_percent 50) "r" ≡ to_runtime
unfolding route_for_record bucket
routed = refl

route-sticky_example : route_for_record digest (at_percent 100) "r" ≡ to_runtime
route-sticky_example =
    route-sticky digest (at_percent 50) (at_percent 100) "r" refl refl (omega arith) routed

next_of_five : next_stage 5 ≡ some 25
unfolding next_stage
next_of_five = refl

-- A window of 120 events that agreed.
clean_rows : ℕ → List ReadinessEvent
clean_rows zero = []
clean_rows (suc n) =
    record { process_id = "p"; observed_at = 0; diverged = false; severity = 0 } ∷ clean_rows n

abbrev window : List ReadinessEvent
window = clean_rows 120

window-eligible : (score_rows default_scorer "p" window).cutover_eligible ≡ true
unfolding clean_rows score_rows clamped_score round_ratio severity_total keep
window-eligible = refl

score_rows-eligible_example :
    let s = score_rows default_scorer "p" window in
    let bad = keep (λ (e : ReadinessEvent). e.diverged) window in
    let exact = 200 * (length window - length bad) - total_severity bad in
    (s.total_events ≡ length window)
    × (s.diverged_events ≡ length bad)
    × (s.clean_events + s.diverged_events ≡ s.total_events)
    × (2 * length window * s.score ≤ exact + length window)
    × (exact ≤ 2 * length window * s.score + length window)
    × (s.score ≤ 100)
    × ((s.cutover_eligible ≡ true) ↔ ((0 < length window) × (100 ≤ length window) × (98 ≤ s.score)))
score_rows-eligible_example = score_rows-eligible default_scorer "p" window
