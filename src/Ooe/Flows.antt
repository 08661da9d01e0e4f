-- ===== src/Ooe/Flows.antt =====
-- Flows fire once per record and transaction (`_maybe_fire_flows` of
-- runtime/ooe/state_machine.py).
use salesforce.Common.{
  ◌≡◌, refl, Bool, true, false, String, inl, inr, Bool-cases, member, eq_refl, arith,
}
use salesforce.Common.Exec.{ok}
use salesforce.Value.{Record}
use salesforce.Ooe.Step.{OoeStep, processes_and_flows}
use salesforce.Ooe.Context.{Platform, OoeRuntime, Save}
use salesforce.Ooe.Pipeline.{run_step, maybe_fire_flows, mark_fired, flow_key}
use salesforce.Ooe.Grows.{
  run_step-Adds, maybe_fire_flows-Adds, maybe_refire-Adds, pipeline-Adds, guarded-Adds,
}
use salesforce.Ooe.Execute.{maybe_refire, pipeline, guarded, enter, record_object_class}

-- What may happen to a transaction after a point: another step, a re-fire cycle, the opening of a
-- save of any record in its context, or a whole such save. Each may return or raise.
pub data Later (py : Platform) (rt : OoeRuntime) (s : Save) : Save → Type 0 where
  now : Later py rt s s
  stepped :
      {u : Save} (step : OoeStep) (v : Bool) (sobject : String)
      → Later py rt s u
      → Later py rt s (run_step py rt step v sobject u).1
  fired :
      {u : Save} (sobject : String)
      → Later py rt s u
      → Later py rt s (maybe_fire_flows py rt sobject u).1
  refired :
      {u : Save} (sobject : String)
      → Later py rt s u
      → Later py rt s (maybe_refire py rt sobject u).1
  opened :
      {u : Save} (r : Record)
      → Later py rt s u
      → Later py rt s (record { ctx = u.ctx; record_ = r })
  entered : {u : Save} → Later py rt s u → Later py rt s (enter rt true u).1
  classed :
      {u : Save} (sobject : String)
      → Later py rt s u
      → Later py rt s (record_object_class sobject u).1
  piped :
      {u : Save} (sobject : String)
      → Later py rt s u
      → Later py rt s (guarded (pipeline py rt sobject) u).1

HasFired : String → Save → Type 0
HasFired key s = member key s.ctx.flows_fired_for ≡ true

entered-fired :
    (rt : OoeRuntime) (s : Save) → (enter rt true s).1.ctx.flows_fired_for ≡ s.ctx.flows_fired_for
unfolding enter
entered-fired rt s = ground arith

classed-fired :
    (sobject : String) (s : Save)
    → (record_object_class sobject s).1.ctx.flows_fired_for ≡ s.ctx.flows_fired_for
unfolding record_object_class
classed-fired sobject s = ground arith

Later-HasFired :
    (py : Platform) (rt : OoeRuntime) (key : String) {s t : Save}
    → Later py rt s t
    → HasFired key s
    → HasFired key t
unfolding HasFired
Later-HasFired py rt key now h = h
Later-HasFired py rt key (stepped {u} step v sobject l) h =
    ((run_step-Adds py rt step v sobject).at u).fired key (Later-HasFired py rt key l h)
Later-HasFired py rt key (fired {u} sobject l) h =
    ((maybe_fire_flows-Adds py rt sobject).at u).fired key (Later-HasFired py rt key l h)
Later-HasFired py rt key (refired {u} sobject l) h =
    ((maybe_refire-Adds py rt sobject).at u).fired key (Later-HasFired py rt key l h)
Later-HasFired py rt key (opened r l) h = Later-HasFired py rt key l h
Later-HasFired py rt key (entered {u} l) h = rw (entered-fired rt u) (Later-HasFired py rt key l h)
Later-HasFired py rt key (classed {u} sobject l) h =
    rw (classed-fired sobject u) (Later-HasFired py rt key l h)
Later-HasFired py rt key (piped {u} sobject l) h =
    ((guarded-Adds py rt (pipeline py rt sobject) (pipeline-Adds py rt sobject)).at u).fired key
      (Later-HasFired py rt key l h)

fire-HasFired :
    (py : Platform) (rt : OoeRuntime) (sobject : String) (s : Save)
    → HasFired (flow_key py rt sobject s) (maybe_fire_flows py rt sobject s).1
unfolding maybe_fire_flows HasFired
fire-HasFired py rt sobject s =
    let key = flow_key py rt sobject s in
    elim (Bool-cases (member key s.ctx.flows_fired_for)) [
      | inl old ↦ rw old old
      | inr fresh ↦ rw fresh (
          ((run_step-Adds py rt processes_and_flows false sobject).at
              (mark_fired py rt key s)).fired
            key (marked key s))
    ]
  where
    marked :
        (key : String) (u : Save) → member key (mark_fired py rt key u).ctx.flows_fired_for ≡ true
    marked key u = unfold mark_fired member in rw eq_refl refl

-- Once step 13 has been reached for an object and a record, whether its flows returned or raised,
-- step 13 does nothing for that object and record at any later point of the transaction, whatever
-- steps, re-fire cycles and other saves came between.
pub flows_fire_once :
    (py : Platform) (rt : OoeRuntime) (sobject : String) (s t : Save)
    → Later py rt (maybe_fire_flows py rt sobject s).1 t
    → flow_key py rt sobject t ≡ flow_key py rt sobject s
    → maybe_fire_flows py rt sobject t ≡ (ok tt, t)
unfolding maybe_fire_flows HasFired
flows_fire_once py rt sobject s t l same =
    let there : member (flow_key py rt sobject t) t.ctx.flows_fired_for ≡ true =
      rw same (Later-HasFired py rt (flow_key py rt sobject s) l (fire-HasFired py rt sobject s)) in
    rw there refl
