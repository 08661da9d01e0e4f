-- ===== src/Samples/Traces.antt =====
-- A flow of two steps, and a trace of it.
use salesforce.Common.{true, none, some, [], ◌∷◌}
use salesforce.Verify.Model.{decision, update, Step, Process, Trace}

abbrev route : Step
route = record {
  id = "Route";
  kind = decision;
  object = none;
  branches = record { name = "IsLarge"; next = some "Assign" } ∷ [];
  default_next = none;
  next = none;
  on_fault = none;
  target = none;
  after = none;
}

abbrev assign : Step
assign = record {
  id = "Assign";
  kind = update;
  object = some "Lead";
  branches = [];
  default_next = none;
  next = none;
  on_fault = none;
  target = none;
  after = none;
}

abbrev flow : Process
flow = record { name = "Lead_Routing"; steps = route ∷ assign ∷ []; entry = some "Route" }

abbrev trace : Trace
trace = record {
  elements =
      record { name = "Route"; element_type = "FlowDecision" }
      ∷ record { name = "Assign"; element_type = "FlowRecordUpdate" }
      ∷ [];
  dml = record { op = "Update"; sobject = "Lead"; after_element = some "Assign" } ∷ [];
  errors = [];
  rule_results = ("IsLarge", true) ∷ [];
  action_targets = [];
}
