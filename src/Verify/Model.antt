-- ===== src/Verify/Model.antt =====
-- What verify/compare.py reads: the definition of a process (core/process.py) and a trace of the org
-- (verify/trace.py).
use salesforce.Common.{Bool, String, Option, List, ◌=ₛ◌}
use salesforce.Common.Dict.{Dict}

-- core/process.py: `StepKind`.
pub data StepKind : Type 0 where
  decision assign lookup create update delete call_code call_process call_action notify task wait
        loop screen approval_step escalate raise_error share rollback end :
      StepKind

abbrev pub kind_value : StepKind → String
kind_value decision = "decision"
kind_value assign = "assign"
kind_value lookup = "lookup"
kind_value create = "create"
kind_value update = "update"
kind_value delete = "delete"
kind_value call_code = "call_code"
kind_value call_process = "call_process"
kind_value call_action = "call_action"
kind_value notify = "notify"
kind_value task = "task"
kind_value wait = "wait"
kind_value loop = "loop"
kind_value screen = "screen"
kind_value approval_step = "approval_step"
kind_value escalate = "escalate"
kind_value raise_error = "raise_error"
kind_value share = "share"
kind_value rollback = "rollback"
kind_value end = "end"

abbrev pub is_kind : StepKind → StepKind → Bool
is_kind k j = kind_value k =ₛ kind_value j

pub record Branch : Type 0 where
  pub name : String
  pub next : Option String

-- `Step`, with `extras["after"]` as a field.
pub record Step : Type 0 where
  pub id : String
  pub kind : StepKind
  pub object : Option String
  pub branches : List Branch
  pub default_next : Option String
  pub next : Option String
  pub on_fault : Option String
  pub target : Option String
  pub after : Option String

pub record Process : Type 0 where
  pub name : String
  pub steps : List Step
  pub entry : Option String

-- verify/trace.py: `TraceElement`, `DmlOp` and `ExecutionTrace`.
pub record TraceElement : Type 0 where
  pub name : String
  pub element_type : String

pub record DmlOp : Type 0 where
  pub op : String
  pub sobject : String
  pub after_element : Option String

pub record Trace : Type 0 where
  pub elements : List TraceElement
  pub dml : List DmlOp
  pub errors : List String
  pub rule_results : Dict Bool
  pub action_targets : Dict (String × String)
