-- ===== src/Ooe/Pipeline.antt =====
-- `OoERuntime` of runtime/ooe/state_machine.py: the steps of a save and the save itself.
use Prim.Native.String.{◌++◌ as join}
use salesforce.Common.{
  ◌≡◌, arith, Bool, false, not, ◌&&◌, ◌||◌, Option, none, some, String, List, [], ◌∷◌, ◌++◌,
  le_text, keep, member, is_nonempty, if◌then◌else◌,
}
use salesforce.Common.Exec.{Exec, ok, raise}
use salesforce.Common.Dict.{get, update}
use salesforce.Value.{Value, text, Record, truthy}
use salesforce.Rules.{Rule, RuleResult, evaluate, rules_for, is_validation}
use salesforce.Ooe.Step.{
  OoeStep, workflow_rules, processes_and_flows, number_of, same_step, includes,
}
use salesforce.Ooe.Context.{
  TransactionContext, OoeError, step_not_in_scope, validation_failed, Platform, OoeRuntime, Save,
}

unfoldable pub insert_rule : Rule → List Rule → List Rule
insert_rule r [] = r ∷ []
insert_rule r (q ∷ qs) =
    let rest = insert_rule r qs in if le_text r.rule_id q.rule_id then r ∷ q ∷ qs else q ∷ rest

-- `sorted(rules, key=lambda r: r.rule_id)`, which keeps the order of rules of one name.
unfoldable pub sort_rules : List Rule → List Rule
unfolding insert_rule
sort_rules [] = []
sort_rules (r ∷ rs) = insert_rule r (sort_rules rs)

unfoldable pub is_failure : RuleResult → Bool
unfolding is_validation
is_failure r = is_validation r.kind && not r.passed

abbrev pub OoeM : Type 0
OoeM = Exec OoeError Save (Unit {0})

set_ctx : (TransactionContext → TransactionContext) → Save → Save
set_ctx f s = record s { ctx = f s.ctx }

-- Step 12 sets the flag when a rule changed a field; a failed rule of the validation step does not.
unfoldable pub flagged : OoeStep → Bool → RuleResult → Bool → Bool
unfolding same_step
flagged step validation result flag =
    if validation && not result.passed
    then flag
    else flag || (same_step step workflow_rules && is_nonempty result.field_mutations)

-- One round of the loop of `_step`.
unfoldable pub run_rule : OoeStep → Bool → Save → Rule → Save
unfolding flagged
run_rule step validation s r =
    let result = evaluate r s.record_ (("transaction_id", text s.ctx.transaction_id) ∷ []) in
    record {
      ctx = record s.ctx {
        rule_results = s.ctx.rule_results ++ result ∷ [];
        workflow_refire_flag = flagged step validation result s.ctx.workflow_refire_flag;
      };
      record_ =
          if is_nonempty result.field_mutations
          then update s.record_ result.field_mutations
          else s.record_;
    }

unfoldable pub run_rules : OoeStep → Bool → Save → List Rule → Save
unfolding run_rule
run_rules step validation s [] = s
run_rules step validation s (r ∷ rs) = run_rules step validation (run_rule step validation s r) rs

-- The check after the loop, over the results of the whole transaction.
unfoldable pub check_failures : Bool → OoeM
unfolding is_failure
check_failures validation s =
    let failed = keep is_failure s.ctx.rule_results in
    if validation && is_nonempty failed then (raise (validation_failed failed), s) else (ok tt, s)

pub check_failures-state : (v : Bool) (s : Save) → (check_failures v s).1 ≡ s
unfolding check_failures
check_failures-state v s = ground arith

module _ (py : Platform) (rt : OoeRuntime) where
  -- `_maybe_shuffle`.
  unfoldable pub maybe_shuffle : List Rule → TransactionContext → List Rule
  unfolding sort_rules
  maybe_shuffle rules ctx = elim (sort_rules rules) [
    | [] ↦ []
    | r ∷ [] ↦ r ∷ []
    | r ∷ q ∷ qs ↦ py.shuffle rt.seed ctx.transaction_id (r ∷ q ∷ qs)
  ]

  -- `_step`.
  unfoldable pub run_step : OoeStep → Bool → String → OoeM
  run_step step validation sobject s =
      let rules = rules_for rt.rules sobject (number_of step) in
      if not (includes s.ctx.in_scope_steps step)
      then (raise (step_not_in_scope step), s)
      else if not (is_nonempty rules)
      then (ok tt, s)
      else check_failures validation (run_rules step validation s (maybe_shuffle rules s.ctx))

  true_field : Record → String → Option Value
  true_field fields name = elim (get fields name) [
    | none ↦ none
    | some v ↦ if truthy v then some v else none
  ]

  -- `f"{value}"`.
  format : Value → String
  format (text t) = t
  format v = py.show_value v

  -- `record.get("Id") or record.get("id") or ctx.transaction_id`, after the object's name.
  unfoldable pub flow_key : String → Save → String
  unfolding true_field format
  flow_key sobject s =
      let id : String = elim (true_field s.record_ "Id") [
        | some v ↦ format v
        | none ↦ elim (true_field s.record_ "id") [
          | some v ↦ format v
          | none ↦ s.ctx.transaction_id
        ]
      ] in
      join sobject (join ":" id)

  unfoldable pub mark_fired : String → Save → Save
  unfolding set_ctx
  mark_fired key = set_ctx (λ c. record c { flows_fired_for = key ∷ c.flows_fired_for })

  -- `_maybe_fire_flows`.
  unfoldable pub maybe_fire_flows : String → OoeM
  maybe_fire_flows sobject s =
      let key = flow_key sobject s in
      if member key s.ctx.flows_fired_for
      then (ok tt, s)
      else run_step processes_and_flows false sobject (mark_fired key s)
