-- ===== src/Rules.antt =====
-- runtime/rules/engine.py: rules, their outcomes and the registry. The function of a rule is
-- generated code, so it is an argument of the model; it may raise.
pub mod Outcomes
use Prim.Native.String.{◌++◌ as join}
use salesforce.Common.{
  ℕ, ◌≡◌, Bool, true, false, not, ◌&&◌, Option, none, some, String, List, [], ◌∷◌, ◌++◌, keep, map,
  length, ◌==◌, ◌=ₛ◌, if◌then◌else◌,
}
use salesforce.Common.Exec.{Outcome, ok, raise}
use salesforce.Value.{Value, null, mapping, Record, truthy, is_null, to_record}

-- The type's name and the text of an exception that a rule raised.
pub record Exn : Type 0 where
  pub type_name : String
  pub message : String

pub data Kind : Type 0 where
  validation computation noop : Kind

unfoldable pub is_validation : Kind → Bool
is_validation validation = true
is_validation _ = false

pub record RuleResult : Type 0 where
  pub rule_id : String
  pub kind : Kind
  pub passed : Bool
  pub error_message : Option String
  pub field_mutations : Record

abbrev pub RuleFn : Type 0
RuleFn = Record → Record → Outcome Exn Value

pub record Rule : Type 0 where
  pub rule_id : String
  pub sobject : String
  pub ooe_step : ℕ
  pub fn : RuleFn
  pub kind : Kind
  pub error_message_template : Option String
  pub error_display_field : Option String
  pub fixes_field : Option String

-- The result of a rule whose function raised.
raised : Rule → Exn → RuleResult
raised rule exn = record {
  rule_id = rule.rule_id;
  kind = rule.kind;
  passed = false;
  error_message = some (join "rule raised " (join exn.type_name (join ": " exn.message)));
  field_mutations = [];
}

-- A validation rule answers true when its error condition holds.
validated : Rule → Value → RuleResult
validated rule value =
    let failed = truthy value in
    record {
      rule_id = rule.rule_id;
      kind = validation;
      passed = not failed;
      error_message = if failed then rule.error_message_template else none;
      field_mutations = [];
    }

mutated : Rule → Record → RuleResult
mutated rule changes = record {
  rule_id = rule.rule_id;
  kind = computation;
  passed = true;
  error_message = none;
  field_mutations = changes;
}

did_nothing : Rule → RuleResult
did_nothing rule = record {
  rule_id = rule.rule_id;
  kind = noop;
  passed = true;
  error_message = none;
  field_mutations = [];
}

-- A computation rule: one field, or the mapping that the function returned.
computed : Rule → Option String → Value → RuleResult
unfolding mutated did_nothing
computed rule (some name) value =
    if is_null value then did_nothing rule else mutated rule ((name, value) ∷ [])
computed rule none (mapping fs) =
    if truthy (mapping fs) then mutated rule (to_record fs) else did_nothing rule
computed rule none value = did_nothing rule

settled : Rule → Value → RuleResult
unfolding validated computed
settled rule value =
    if is_validation rule.kind then validated rule value else computed rule rule.fixes_field value

outcome : Rule → Outcome Exn Value → RuleResult
unfolding raised settled
outcome rule (raise exn) = raised rule exn
outcome rule (ok value) = settled rule value

-- `Rule.evaluate`.
unfoldable pub evaluate : Rule → Record → Record → RuleResult
unfolding outcome
evaluate rule record_ context = outcome rule (rule.fn record_ context)

-- The registry is the list of its rules.
unfoldable pub register : List Rule → Rule → List Rule
register rules rule = rules ++ rule ∷ []

unfoldable pub targets : String → ℕ → Rule → Bool
targets sobject step rule = rule.sobject =ₛ sobject && rule.ooe_step == step

unfoldable pub rules_for : List Rule → String → ℕ → List Rule
unfolding targets
rules_for rules sobject step = keep (targets sobject step) rules

pub evaluate_step : List Rule → String → ℕ → Record → Record → List RuleResult
evaluate_step rules sobject step record_ context =
    map (λ r. evaluate r record_ context) (rules_for rules sobject step)
