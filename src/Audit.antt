-- ===== src/Audit.antt =====
-- extract/ooe_audit/audit.py: which steps of a save an org exercises, and so which the runtime
-- takes into its scope.
pub mod Counts
pub mod Scope
use salesforce.Common.{
  ℕ, zero, suc, ◌+◌, Bool, true, false, ◌&&◌, ◌||◌, Option, none, some, String, List, [], ◌∷◌, map,
  ◌==◌, ◌=ₛ◌, le_text, ltb, leb, length, if◌then◌else◌, keep,
}
use salesforce.Models
use salesforce.Models.{CategoryName, Component, category_value}
use salesforce.Ooe.Step
use salesforce.Ooe.Step.{OoeStep, same_step, all_steps}

-- `_CATEGORY_TO_STEPS`, and no step for a category that the table does not name.
unfoldable pub classify_steps : CategoryName → List OoeStep
classify_steps CategoryName.record_triggered_flow =
    OoeStep.pre_trigger_flow ∷ OoeStep.processes_and_flows ∷ []
classify_steps CategoryName.platform_event_triggered_flow = OoeStep.processes_and_flows ∷ []
classify_steps CategoryName.autolaunched_flow = OoeStep.processes_and_flows ∷ []
classify_steps CategoryName.flow_orchestration = OoeStep.processes_and_flows ∷ []
classify_steps CategoryName.process_builder = OoeStep.processes_and_flows ∷ []
classify_steps CategoryName.apex_trigger = OoeStep.before_triggers ∷ OoeStep.after_triggers ∷ []
classify_steps CategoryName.validation_rule = OoeStep.custom_validation ∷ []
classify_steps CategoryName.workflow_rule = OoeStep.workflow_rules ∷ []
classify_steps CategoryName.approval_process = OoeStep.post_commit_logic ∷ []
classify_steps CategoryName.assignment_rule = OoeStep.assignment_rules ∷ []
classify_steps CategoryName.auto_response_rule =
    OoeStep.auto_response_rules ∷ OoeStep.email_send ∷ []
classify_steps CategoryName.escalation_rule = OoeStep.escalation_rules ∷ []
classify_steps CategoryName.sharing_rule = OoeStep.sharing_rules ∷ []
classify_steps CategoryName.rollup_summary = OoeStep.rollup_summary ∷ OoeStep.parent_rollup ∷ []
classify_steps CategoryName.platform_event = OoeStep.post_commit_logic ∷ []
classify_steps CategoryName.change_data_capture = OoeStep.post_commit_logic ∷ []
classify_steps _ = []

pub data Priority : Type 0 where
  critical standard exclude : Priority

pub record StepObservation : Type 0 where
  pub step : OoeStep
  pub structural_count : ℕ
  pub observed_frequency : Option ℕ
  pub contributing_categories : List CategoryName
  pub in_scope : Bool
  pub priority : Priority

pub record SurfaceAuditReport : Type 0 where
  pub org_alias : String
  pub total_components : ℕ
  pub observations : List StepObservation

-- The two dictionaries of `audit`, as functions of the step.
pub record Tally : Type 0 where
  pub structural : OoeStep → ℕ
  pub contributors : OoeStep → List CategoryName

unfoldable pub empty_tally : Tally
empty_tally = record { structural = λ _. 0; contributors = λ _. [] }

-- A set of categories in the order of their values.
unfoldable pub add_category : CategoryName → List CategoryName → List CategoryName
add_category c [] = c ∷ []
add_category c (d ∷ ds) =
    let rest = add_category c ds in
    if category_value d =ₛ category_value c
    then d ∷ ds
    else if le_text (category_value c) (category_value d)
    then c ∷ d ∷ ds
    else d ∷ rest

unfoldable pub count_step : CategoryName → Tally → OoeStep → Tally
count_step c t step = record {
  structural = λ s. if same_step step s then t.structural s + 1 else t.structural s;
  contributors =
      λ s. if same_step step s then add_category c (t.contributors s) else t.contributors s;
}

unfoldable pub count_steps : CategoryName → Tally → List OoeStep → Tally
count_steps c t [] = t
count_steps c t (step ∷ steps) = count_steps c (count_step c t step) steps

unfoldable pub tally : Tally → List Component → Tally
tally t [] = t
tally t (c ∷ cs) = tally (count_steps c.category t (classify_steps c.category)) cs

unfoldable pub is_zero_frequency : Option ℕ → Bool
is_zero_frequency none = false
is_zero_frequency (some n) = n == 0

unfoldable pub is_rare : Option ℕ → Bool
is_rare none = false
is_rare (some n) = ltb n 5

-- One round of the second loop of `audit`.
unfoldable pub observe : Tally → (OoeStep → Option ℕ) → OoeStep → StepObservation
observe t frequency step =
    let struct = t.structural step in
    let freq = frequency step in
    let excluded = struct == 0 || is_zero_frequency freq in
    record {
      step = step;
      structural_count = struct;
      observed_frequency = freq;
      contributing_categories = t.contributors step;
      in_scope = if excluded then false else true;
      priority =
          if excluded
          then exclude
          else if is_rare freq
          then standard
          else if leb 10 struct
          then critical
          else standard;
    }

-- `audit`. The frequencies are a function of the step: no answer where the log has none, or where
-- there is no log.
unfoldable pub audit : List Component → String → (OoeStep → Option ℕ) → SurfaceAuditReport
audit components org_alias frequency = record {
  org_alias = org_alias;
  total_components = length components;
  observations = map (observe (tally empty_tally components) frequency) all_steps;
}

-- The scope that a runtime takes from a report.
unfoldable pub scope_of : List StepObservation → List OoeStep
scope_of obs = map (λ o. o.step) (keep (λ o. o.in_scope) obs)
