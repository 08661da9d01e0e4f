-- ===== src/Ooe/Step.antt =====
-- `OoEStep` of extract/ooe_audit/audit.py: the 21 steps of a save.
use salesforce.Common.{ℕ, Bool, List, [], ◌∷◌, ◌==◌, any}

pub data OoeStep : Type 0 where
  load_initial_records load_old_records system_validation pre_trigger_flow : OoeStep
  before_triggers custom_validation duplicate_rules save_record after_triggers : OoeStep
  assignment_rules auto_response_rules workflow_rules processes_and_flows : OoeStep
  escalation_rules entitlement_rules rollup_summary sharing_rules parent_rollup : OoeStep
  commit_dml post_commit_logic email_send : OoeStep

-- `int(step)`.
unfoldable pub number_of : OoeStep → ℕ
number_of load_initial_records = 1
number_of load_old_records = 2
number_of system_validation = 3
number_of pre_trigger_flow = 4
number_of before_triggers = 5
number_of custom_validation = 6
number_of duplicate_rules = 7
number_of save_record = 8
number_of after_triggers = 9
number_of assignment_rules = 10
number_of auto_response_rules = 11
number_of workflow_rules = 12
number_of processes_and_flows = 13
number_of escalation_rules = 14
number_of entitlement_rules = 15
number_of rollup_summary = 16
number_of sharing_rules = 17
number_of parent_rollup = 18
number_of commit_dml = 19
number_of post_commit_logic = 20
number_of email_send = 21

-- `list(OoEStep)`: the members in the order of the class.
abbrev pub all_steps : List OoeStep
all_steps =
    load_initial_records ∷ load_old_records ∷ system_validation ∷ pre_trigger_flow ∷ before_triggers
    ∷ custom_validation ∷ duplicate_rules ∷ save_record ∷ after_triggers ∷ assignment_rules
    ∷ auto_response_rules ∷ workflow_rules ∷ processes_and_flows ∷ escalation_rules
    ∷ entitlement_rules ∷ rollup_summary ∷ sharing_rules ∷ parent_rollup ∷ commit_dml
    ∷ post_commit_logic ∷ email_send ∷ []

unfoldable pub same_step : OoeStep → OoeStep → Bool
unfolding number_of
same_step s t = number_of s == number_of t

-- `step in steps`, where a set of steps is a list of its members.
unfoldable pub includes : List OoeStep → OoeStep → Bool
unfolding same_step any
includes steps step = any (same_step step) steps
