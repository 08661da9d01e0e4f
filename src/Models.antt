-- ===== src/Models.antt =====
-- core/models.py: the categories of components and of divergences, and what the model uses of a
-- component.
use salesforce.Common.{String}

pub data CategoryName : Type 0 where
  record_triggered_flow screen_flow schedule_triggered_flow platform_event_triggered_flow :
      CategoryName
  autolaunched_flow flow_orchestration apex_trigger apex_class validation_rule : CategoryName
  formula_field workflow_rule process_builder approval_process assignment_rule : CategoryName
  auto_response_rule escalation_rule sharing_rule rollup_summary platform_event : CategoryName
  change_data_capture lwc_bundle aura_bundle page_layout flexipage permission_set : CategoryName
  profile report custom_tab custom_application path_assistant : CategoryName

-- `category.value`.
unfoldable pub category_value : CategoryName → String
category_value record_triggered_flow = "record_triggered_flow"
category_value screen_flow = "screen_flow"
category_value schedule_triggered_flow = "schedule_triggered_flow"
category_value platform_event_triggered_flow = "platform_event_triggered_flow"
category_value autolaunched_flow = "autolaunched_flow"
category_value flow_orchestration = "flow_orchestration"
category_value apex_trigger = "apex_trigger"
category_value apex_class = "apex_class"
category_value validation_rule = "validation_rule"
category_value formula_field = "formula_field"
category_value workflow_rule = "workflow_rule"
category_value process_builder = "process_builder"
category_value approval_process = "approval_process"
category_value assignment_rule = "assignment_rule"
category_value auto_response_rule = "auto_response_rule"
category_value escalation_rule = "escalation_rule"
category_value sharing_rule = "sharing_rule"
category_value rollup_summary = "rollup_summary"
category_value platform_event = "platform_event"
category_value change_data_capture = "change_data_capture"
category_value lwc_bundle = "lwc_bundle"
category_value aura_bundle = "aura_bundle"
category_value page_layout = "page_layout"
category_value flexipage = "flexipage"
category_value permission_set = "permission_set"
category_value profile = "profile"
category_value report = "report"
category_value custom_tab = "custom_tab"
category_value custom_application = "custom_application"
category_value path_assistant = "path_assistant"

pub record Component : Type 0 where
  pub id : String
  pub name : String
  pub category : CategoryName

pub data DivergenceCategory : Type 0 where
  translation_error ooe_ordering_mismatch governor_limit_behavior : DivergenceCategory
  non_deterministic_trigger_ordering formula_edge_case : DivergenceCategory
  test_environment_artifact gap_event_full_refetch_required : DivergenceCategory
