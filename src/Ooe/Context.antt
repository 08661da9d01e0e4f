-- ===== src/Ooe/Context.antt =====
-- `TransactionContext`, `OoERuntime` and the exceptions of runtime/ooe/state_machine.py.
use Prim.Native.String.{◌++◌ as join}
use mathlib.Core.List.{Perm}
use salesforce.Common.{
  ℕ, Bool, false, Option, none, some, String, List, [], ◌∷◌, ◌=ₛ◌, codes, lower, eq_codes, any,
  if◌then◌else◌,
}
use salesforce.Value.{Value, Record}
use salesforce.Rules.{Rule, RuleResult}
use salesforce.Ooe.Step.{OoeStep}

-- `SETUP_OBJECTS`.
abbrev pub setup_objects : List String
setup_objects =
    "user" ∷ "group" ∷ "groupmember" ∷ "permissionset" ∷ "permissionsetassignment" ∷ "queuesobject"
    ∷ "userrole" ∷ "profile" ∷ []

-- `sobject.lower() in SETUP_OBJECTS`.
unfoldable pub is_setup_object : String → Bool
unfolding any lower eq_codes
is_setup_object sobject =
    let name = lower sobject in any (λ (s : String). eq_codes name (codes s)) setup_objects

pub data DmlOp : Type 0 where
  create update delete : DmlOp

pub record DmlOperation : Type 0 where
  pub op : DmlOp
  pub sobject : String
  pub record_id : Option String
  pub fields : Record

pub record TransactionContext : Type 0 where
  pub transaction_id : String
  pub triggering_record : Record
  pub sobject : String
  pub cascade_depth : ℕ
  pub workflow_refire_flag : Bool
  pub refire_done : Bool
  pub flows_fired_for : List String
  pub rule_results : List RuleResult
  pub cascaded_dml : List DmlOperation
  pub aborted : Bool
  pub abort_reason : Option String
  pub in_scope_steps : List OoeStep
  pub setup_touched : Bool
  pub nonsetup_touched : Bool

pub data OoeError : Type 0 where
  step_not_in_scope : OoeStep → OoeError
  mixed_dml : String → OoeError
  cascade_depth_exceeded : ℕ → ℕ → OoeError
  validation_failed : List RuleResult → OoeError

-- `r.error_message or r.rule_id`.
reason_of : RuleResult → String
reason_of r = elim r.error_message [ none ↦ r.rule_id | some m ↦ if m =ₛ "" then r.rule_id else m ]

reasons : List RuleResult → String
unfolding reason_of
reasons [] = ""
reasons (r ∷ []) = reason_of r
reasons (r ∷ rs) = join (reason_of r) (join "; " (reasons rs))

-- `str(exc)` of a `ValidationFailedError`.
unfoldable pub validation_message : List RuleResult → String
unfolding reasons
validation_message results = join "validation failed: " (reasons results)

-- What the runtime uses of Python: `str` of a value that is no text, and
-- `random.Random(f"{seed}:{txn}").shuffle`, which is a fixed rearrangement for each seed and
-- transaction.
pub record Platform : Type 0 where
  pub show_value : Value → String
  pub shuffle : ℕ → String → List Rule → List Rule
  pub shuffle_perm : (seed : ℕ) (txn : String) (rs : List Rule) → Perm (shuffle seed txn rs) rs

pub record OoeRuntime : Type 0 where
  pub rules : List Rule
  pub in_scope_steps : List OoeStep
  pub cascade_depth_limit : ℕ
  pub seed : ℕ

-- The objects that a save mutates: its context, and the record of the caller.
pub record Save : Type 0 where
  pub ctx : TransactionContext
  pub record_ : Record

-- The context of a save that has no parent.
unfoldable pub new_context : OoeRuntime → String → Record → String → TransactionContext
new_context rt sobject record_ transaction_id = record {
  transaction_id = transaction_id;
  triggering_record = record_;
  sobject = sobject;
  cascade_depth = 0;
  workflow_refire_flag = false;
  refire_done = false;
  flows_fired_for = [];
  rule_results = [];
  cascaded_dml = [];
  aborted = false;
  abort_reason = none;
  in_scope_steps = rt.in_scope_steps;
  setup_touched = false;
  nonsetup_touched = false;
}
