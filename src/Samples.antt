-- ===== src/Samples.antt =====
-- Concrete inputs, and the theorems at them.
mod Saves
mod Cascades
mod Cutovers
mod Shadows
mod Quotas
mod Fetches
mod Formulas
mod Sources
mod Graphs
mod Pulls
mod Traces
use salesforce.Common.{Bool, true, false, Option, none, some, String, List, [], ◌∷◌, ◌≡◌}
use mathlib.Core.List.{Perm}
use mathlib.Core.List.Perm
use salesforce.Common.Dict.{get}
use salesforce.Common.Exec.{ok, raise}
use salesforce.Value.{Value, null, boolean, text, Record, truthy}
use salesforce.Rules.{Rule, validation, computation}
use salesforce.Ooe.Step.{all_steps}
use salesforce.Ooe.Context.{Platform, OoeRuntime}

-- A platform that leaves rules in their order.
abbrev platform : Platform
platform = record {
  show_value = λ v. "value";
  shuffle = λ seed txn rs. rs;
  shuffle_perm = λ seed txn rs. Perm.refl rs;
}

-- A rule of step 12 that writes a field.
abbrev rate : Rule
rate = record {
  rule_id = "rate";
  sobject = "Account";
  ooe_step = 12;
  fn = λ r c. ok (text "Hot");
  kind = computation;
  error_message_template = none;
  error_display_field = none;
  fixes_field = some "Rating";
}

-- A rule of step 5 that writes a field.
abbrev stamp : Rule
stamp = record {
  rule_id = "stamp";
  sobject = "Account";
  ooe_step = 5;
  fn = λ r c. ok (text "seen");
  kind = computation;
  error_message_template = none;
  error_display_field = none;
  fixes_field = some "Status";
}

-- A validation rule that fails every record.
abbrev refuse : Rule
refuse = record {
  rule_id = "refuse";
  sobject = "Account";
  ooe_step = 6;
  fn = λ r c. ok (boolean true);
  kind = validation;
  error_message_template = some "no";
  error_display_field = none;
  fixes_field = none;
}

abbrev account : Record
account = ("Id", text "001") ∷ ("Name", text "Acme") ∷ []

abbrev runtime : List Rule → OoeRuntime
runtime rules = record {
  rules = rules;
  in_scope_steps = all_steps;
  cascade_depth_limit = 2;
  seed = 42;
}
