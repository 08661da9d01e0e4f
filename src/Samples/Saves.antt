-- ===== src/Samples/Saves.antt =====
-- Saves of one record, in an org with a rule of step 12, one of step 5 and one of step 6.
use mathlib.Core.List.{Perm}
use salesforce.Common.{
  ◌||◌, List, true, false, none, some, [], ◌∷◌, ◌++◌, ◌≡◌, refl, map, keep, member, any,
  is_nonempty,
}
use salesforce.Common.Exec.{ok, raise, ◌>>=◌}
use salesforce.Value.{is_null, truthy, text}
use salesforce.Rules.{RuleResult, validation, rules_for, evaluate, targets, is_validation}
use salesforce.Ooe.Context.{
  Save, validation_failed, validation_message, is_setup_object, new_context,
}
use salesforce.Ooe.Step.{includes, same_step, before_triggers, number_of}
use salesforce.Ooe.Pipeline.{
  run_step, run_rules, run_rule, check_failures, maybe_shuffle, maybe_fire_flows, mark_fired,
  flow_key, is_failure,
}
use salesforce.Ooe.Execute.{
  execute_top, save_in, enter, record_object_class, guarded, pipeline, before_save, after_save,
  maybe_refire, refire_cycle,
}
use salesforce.Ooe.Rounds.{result_ids}
use salesforce.Ooe.Preserves.{flag_of, done_of}
use salesforce.Common.Dict.{get, update}
use salesforce.Ooe.Refire.{execute_top-rounds, save_ids}
use salesforce.Ooe.Gate.{validation_gate}
use salesforce.Ooe.Written.{writes, steps_to_eleven, refire_when_written}
use salesforce.Ooe.Step.{workflow_rules}
use salesforce.Ooe.Flows.{now, stepped, flows_fire_once}
use salesforce.Ooe.Order.{run_step-evaluates_each_once}
use salesforce.Samples.{platform, rate, stamp, refuse, account, runtime}

abbrev rated : Save
rated = (execute_top platform (runtime (rate ∷ stamp ∷ [])) "Account" account none "t1").1

rated_ok :
    execute_top platform (runtime (rate ∷ stamp ∷ [])) "Account" account none "t1" ≡ (ok tt, rated)
unfolding execute_top save_in enter record_object_class is_setup_object guarded pipeline before_save
    after_save maybe_refire refire_cycle run_step run_rules check_failures maybe_shuffle
    maybe_fire_flows mark_fired flow_key rules_for evaluate targets keep member any includes
    same_step ◌>>=◌ new_context is_null
rated_ok = refl

-- The re-fire cycle did run.
rated_twice : done_of rated ≡ true
unfolding execute_top save_in enter record_object_class is_setup_object guarded pipeline before_save
    after_save maybe_refire refire_cycle run_step run_rules check_failures maybe_shuffle
    maybe_fire_flows mark_fired flow_key rules_for evaluate targets keep member any includes
    same_step ◌>>=◌ new_context is_null
rated_twice = refl

execute_top-rounds_example :
    (flag_of rated ≡ false)
    × Perm (result_ids rated) (save_ids (runtime (rate ∷ stamp ∷ [])) "Account" (done_of rated))
execute_top-rounds_example =
    execute_top-rounds platform (runtime (rate ∷ stamp ∷ [])) "Account" account none "t1" rated
      rated_ok

-- A save that is about to run its steps.
abbrev opened : Save
opened = record {
  ctx = new_context (runtime (stamp ∷ refuse ∷ [])) "Account" account "t1";
  record_ = account;
}

abbrev refused : RuleResult
refused = record {
  rule_id = "refuse";
  kind = validation;
  passed = false;
  error_message = some "no";
  field_mutations = [];
}

refused_save :
    (guarded (pipeline platform (runtime (stamp ∷ refuse ∷ [])) "Account") opened).0
    ≡ raise (validation_failed (refused ∷ []))
unfolding guarded pipeline before_save after_save run_step run_rules check_failures is_failure
    maybe_shuffle rules_for evaluate targets keep includes same_step ◌>>=◌ new_context is_null
    truthy is_validation
refused_save = refl

abbrev refused_end : Save
refused_end = (guarded (pipeline platform (runtime (stamp ∷ refuse ∷ [])) "Account") opened).1

abbrev refused_at_six : Save
refused_at_six = (before_save platform (runtime (stamp ∷ refuse ∷ [])) "Account" opened).1

validation_gate_example :
    (refused_end.ctx.rule_results ≡ refused_at_six.ctx.rule_results)
    × (refused_end.record_ ≡ refused_at_six.record_)
    × (refused ∷ [] ≡ keep is_failure refused_at_six.ctx.rule_results)
    × (is_nonempty (refused ∷ []) ≡ true)
    × (refused_end.ctx.aborted ≡ true)
    × (refused_end.ctx.abort_reason ≡ some (validation_message (refused ∷ [])))
validation_gate_example =
    validation_gate platform (runtime (stamp ∷ refuse ∷ [])) "Account" opened (refused ∷ [])
      refused_save

-- The record that the failed save left has the field that step 5 wrote.
refused_record : refused_end.record_ ≡ account ++ ("Status", text "seen") ∷ []
unfolding guarded pipeline before_save after_save run_step run_rules check_failures is_failure
    maybe_shuffle rules_for evaluate targets keep includes same_step ◌>>=◌ new_context is_null
    truthy is_validation update
refused_record = refl

abbrev later : Save
later =
    (run_step platform (runtime (stamp ∷ [])) before_triggers false "Account"
      (maybe_fire_flows platform (runtime (stamp ∷ [])) "Account" opened).1).1

later_key :
    flow_key platform (runtime (stamp ∷ [])) "Account" later
    ≡ flow_key platform (runtime (stamp ∷ [])) "Account" opened
unfolding run_step run_rules run_rule check_failures maybe_shuffle maybe_fire_flows mark_fired
    flow_key rules_for evaluate targets keep member any includes same_step new_context is_null
    truthy update get is_validation
later_key = refl

flows_fire_once_example :
    maybe_fire_flows platform (runtime (stamp ∷ [])) "Account" later ≡ (ok tt, later)
flows_fire_once_example =
    flows_fire_once platform (runtime (stamp ∷ [])) "Account" opened later
      (stepped before_triggers false "Account" now) later_key

in_scope : includes opened.ctx.in_scope_steps before_triggers ≡ true
unfolding includes any same_step new_context
in_scope = refl

run_step-evaluates_each_once_example :
    Perm
      (map
        (λ x. x.rule_id)
        (run_step platform
          (runtime (stamp ∷ []))
          before_triggers
          false
          "Account"
          opened).1.ctx.rule_results)
      (map (λ x. x.rule_id) opened.ctx.rule_results
        ++ map (λ x. x.rule_id) (rules_for (stamp ∷ []) "Account" (number_of before_triggers)))
run_step-evaluates_each_once_example =
    run_step-evaluates_each_once platform (runtime (stamp ∷ [])) before_triggers false "Account"
      opened in_scope

abbrev ready : Save
ready = record {
  ctx = new_context (runtime (rate ∷ stamp ∷ [])) "Account" account "t1";
  record_ = account;
}

abbrev written_end : Save
written_end = (pipeline platform (runtime (rate ∷ stamp ∷ [])) "Account" ready).1

written_ok : pipeline platform (runtime (rate ∷ stamp ∷ [])) "Account" ready ≡ (ok tt, written_end)
unfolding pipeline before_save after_save maybe_refire refire_cycle run_step run_rules
    check_failures maybe_shuffle maybe_fire_flows mark_fired flow_key rules_for evaluate targets
    keep member any includes same_step ◌>>=◌ new_context is_null
written_ok = refl

undone : done_of ready ≡ false
unfolding new_context
undone = refl

refire_when_written_example :
    (w : Save) × (u : Save) × (written : List RuleResult) × (steps_to_eleven platform
        (runtime (rate ∷ stamp ∷ []))
        "Account"
        ready
      ≡ (ok tt, w))
    × (run_step platform (runtime (rate ∷ stamp ∷ [])) workflow_rules false "Account" w
        ≡ (ok tt, u))
    × (u.ctx.rule_results ≡ w.ctx.rule_results ++ written)
    × (done_of written_end ≡ (flag_of ready || any writes written))
refire_when_written_example =
    refire_when_written platform (runtime (rate ∷ stamp ∷ [])) "Account" ready written_end undone
      written_ok
