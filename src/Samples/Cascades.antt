-- ===== src/Samples/Cascades.antt =====
-- Saves that share a context, and the audit of an org.
use salesforce.Common.{
  ◌+◌, ◌≤◌, ◌<◌, ◌≡◌, refl, arith, none, String, List, [], ◌∷◌, map, keep, any, member, length,
}
use salesforce.Common.Exec.{ok, ◌>>=◌}
use salesforce.Common.Dict.{get}
use salesforce.Value.{Record, truthy}
use salesforce.Rules.{rules_for}
use salesforce.Models
use salesforce.Models.{Component}
use salesforce.Ooe.Step.{
  includes, same_step, all_steps, before_triggers, custom_validation, after_triggers,
  assignment_rules, auto_response_rules, workflow_rules,
}
use salesforce.Ooe.Context.{TransactionContext, Save, OoeRuntime, is_setup_object, new_context}
use salesforce.Ooe.Pipeline.{run_step, maybe_fire_flows, mark_fired, flow_key}
use salesforce.Ooe.Execute.{
  execute_top, execute_child, save_in, enter, record_object_class, guarded, pipeline, before_save,
  after_save, maybe_refire,
}
use salesforce.Ooe.Cascade.{execute_children, children_depth}
use salesforce.Audit.{
  audit, scope_of, classify_steps, observe, tally, empty_tally, count_steps, count_step,
  is_zero_frequency, is_rare,
}
use salesforce.Audit.Counts.{Each, IsSound, exercising, audit_rows}
use salesforce.Audit.Scope.{audited_save}
use salesforce.Samples.{platform, account, runtime}

abbrev parent : TransactionContext
parent = new_context (runtime []) "Account" account "t1"

abbrev two_saves : List (String × Record)
two_saves = ("Contact", account) ∷ ("Lead", account) ∷ []

abbrev after_two : TransactionContext
after_two = (execute_children platform (runtime []) two_saves parent).1

two_saves_ok : execute_children platform (runtime []) two_saves parent ≡ (ok tt, after_two)
unfolding execute_children execute_child save_in enter record_object_class is_setup_object guarded
    pipeline before_save after_save maybe_refire run_step maybe_fire_flows mark_fired flow_key
    rules_for keep member any includes same_step ◌>>=◌ new_context get truthy
two_saves_ok = refl

shallow : parent.cascade_depth ≤ 2
unfolding new_context
shallow = omega arith

children_depth_example :
    (after_two.cascade_depth ≡ parent.cascade_depth + length two_saves)
    × (after_two.cascade_depth ≤ (runtime []).cascade_depth_limit)
children_depth_example =
    children_depth platform (runtime []) two_saves parent after_two shallow two_saves_ok

-- An org with a trigger, a validation rule, and rules for assignment, responses and workflow.
abbrev component : Models.CategoryName → Component
component c = record { id = "1"; name = "x"; category = c }

abbrev org : List Component
org = map component (
    Models.apex_trigger ∷ Models.validation_rule ∷ Models.assignment_rule
    ∷ Models.auto_response_rule ∷ Models.workflow_rule ∷ Models.process_builder ∷ [])

abbrev audited : OoeRuntime
audited = record (runtime []) {
  in_scope_steps = scope_of (audit org "org" (λ s. none)).observations;
}

abbrev audited_end : Save
audited_end = (execute_top platform audited "Account" account none "t1").1

audited_ok : execute_top platform audited "Account" account none "t1" ≡ (ok tt, audited_end)
unfolding execute_top save_in enter record_object_class is_setup_object guarded pipeline before_save
    after_save maybe_refire run_step maybe_fire_flows mark_fired flow_key rules_for keep member any
    includes same_step ◌>>=◌ new_context audit scope_of classify_steps observe tally empty_tally
    count_steps count_step is_zero_frequency is_rare
audited_ok = refl

audited_save_example :
    (0 < exercising before_triggers org)
    × (0 < exercising custom_validation org)
    × (0 < exercising after_triggers org)
    × (0 < exercising assignment_rules org)
    × (0 < exercising auto_response_rules org)
    × (0 < exercising workflow_rules org)
audited_save_example =
    audited_save org (λ s. none) platform audited "org" "Account" account none "t1" audited_end refl
      audited_ok

audit_rows_example :
    let rows = (audit org "org" (λ s. none)).observations in
    (map (λ o. o.step) rows ≡ all_steps) × Each (IsSound org (λ s. none)) rows
audit_rows_example = audit_rows org "org" (λ s. none)
