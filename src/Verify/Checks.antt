-- ===== src/Verify/Checks.antt =====
-- verify/compare.py: what each check of `verify_process` finds wrong. The text of a check's detail is kept as
-- the list of what it would name.
use salesforce.Common.{
  ℕ, Bool, true, false, not, ◌&&◌, ◌||◌, String, Option, none, some, List, [], ◌∷◌, ◌++◌, ◌=ₛ◌,
  member, lower, eq_codes, codes, is_nonempty, is_some, if◌then◌else◌,
}
use salesforce.Common.Dict.{Dict, get, put}
use salesforce.Verify.Model.{
  decision, create, update, delete, call_code, call_process, loop, StepKind, kind_value, is_kind,
  Branch, Step, TraceElement, DmlOp,
}

-- What a check found wrong.
pub data Evidence : Type 0 where
  unknown : String → Evidence
  wrong_kind : String → String → StepKind → Evidence
  wrong_entry : String → String → Evidence
  wrong_transition : String → String → Evidence
  wrong_branch : String → String → String → Evidence
  wrong_target : String → String → String → Evidence
  wrong_dml : DmlOp → Evidence
  runtime : String → Evidence

-- `x or ""`, and the texts of a list that are there and not empty.
abbrev pub or_empty : Option String → String
or_empty none = ""
or_empty (some s) = s

unfoldable pub present : List (Option String) → List String
present [] = []
present (none ∷ xs) = present xs
present (some s ∷ xs) = let rest = present xs in if s =ₛ "" then rest else s ∷ rest

unfoldable pub branch_nexts : List Branch → List (Option String)
branch_nexts [] = []
branch_nexts (b ∷ bs) = b.next ∷ branch_nexts bs

-- `_successors`.
unfoldable pub successors : Step → List String
unfolding present branch_nexts
successors s =
    present (s.next ∷ s.default_next ∷ s.on_fault ∷ branch_nexts s.branches)
    ++ (if is_kind s.kind loop then present (s.after ∷ []) else [])

-- `{s.id: s for s in p.steps}`.
unfoldable pub step_table : List Step → Dict Step → Dict Step
unfolding put
step_table [] d = d
step_table (s ∷ ss) d = step_table ss (put d s.id s)

abbrev pub is_call : Option Step → Bool
is_call none = false
is_call (some s) = is_kind s.kind call_process || is_kind s.kind call_code

-- The elements that belong to the process, and those of a subflow after a step that called it.
unfoldable pub visit : Dict Step → Bool → List TraceElement → List String × List String
unfolding get
visit steps in_call [] = ([], [])
visit steps in_call (e ∷ es) =
    let known = visit steps (is_call (get steps e.name)) es in
    let other = visit steps in_call es in
    if is_some (get steps e.name)
    then (e.name ∷ known.0, known.1)
    else if in_call
    then (other.0, e.name ∷ other.1)
    else (e.name ∷ other.0, other.1)

unfoldable pub unknowns : Dict Step → List String → List Evidence
unfolding get
unknowns steps [] = []
unknowns steps (n ∷ ns) =
    let rest = unknowns steps ns in if is_some (get steps n) then rest else unknown n ∷ rest

-- `ELEMENT_KINDS`.
abbrev pub element_kinds : Dict String
element_kinds =
    ("FlowDecision", "decision")
    ∷ ("FlowAssignment", "assign")
    ∷ ("FlowRecordLookup", "lookup")
    ∷ ("FlowRecordCreate", "create")
    ∷ ("FlowRecordUpdate", "update")
    ∷ ("FlowRecordDelete", "delete")
    ∷ ("FlowActionCall", "call_code")
    ∷ ("FlowApexPluginCall", "call_code")
    ∷ ("FlowSubflow", "call_process")
    ∷ ("FlowScreen", "screen")
    ∷ ("FlowLoop", "loop")
    ∷ ("FlowWait", "wait")
    ∷ ("FlowCustomError", "raise_error")
    ∷ ("FlowRecordRollback", "rollback")
    ∷ ("FlowCollectionProcessor", "assign")
    ∷ ("FlowTransform", "assign")
    ∷ []

-- A call of code in the log covers every action flavour.
unfoldable pub covers : String → StepKind → Bool
unfolding member
covers expected got =
    expected =ₛ kind_value got
    || (expected =ₛ "call_code"
        && member (kind_value got) ("call_code" ∷ "call_process" ∷ "call_action" ∷ "notify" ∷ []))

unfoldable pub kind_of : TraceElement → Option Step → Option String → List Evidence
unfolding covers
kind_of e (some s) (some expected) =
    if covers expected s.kind then [] else wrong_kind e.name e.element_type s.kind ∷ []
kind_of e _ _ = []

unfoldable pub kind_mismatches : Dict Step → List TraceElement → List Evidence
unfolding get kind_of
kind_mismatches steps [] = []
kind_mismatches steps (e ∷ es) =
    kind_of e (get steps e.name) (get element_kinds e.element_type) ++ kind_mismatches steps es

-- `if allowed and b not in allowed and b != a`, where a loop allows anything.
unfoldable pub allows : Step → String → String → Bool
unfolding successors member
allows s a b =
    not (is_nonempty (successors s)) || (is_kind s.kind loop || (member b (successors s) || b =ₛ a))

unfoldable pub transition : Option Step → String → String → List Evidence
unfolding allows
transition none a b = []
transition (some s) a b = if allows s a b then [] else wrong_transition a b ∷ []

unfoldable pub bad_transitions : Dict Step → List String → List Evidence
unfolding get transition
bad_transitions steps [] = []
bad_transitions steps (a ∷ []) = []
bad_transitions steps (a ∷ b ∷ ns) = transition (get steps a) a b ++ bad_transitions steps (b ∷ ns)

unfoldable pub bad_entry : Option String → List String → List Evidence
bad_entry (some entry) (first ∷ ns) =
    if entry =ₛ "" || first =ₛ entry then [] else wrong_entry first entry ∷ []
bad_entry _ _ = []

-- The branch whose rule the org evaluated true, or the default.
unfoldable pub expected_next : Dict Bool → Step → List Branch → Option String
unfolding get
expected_next results s [] = s.default_next
expected_next results s (b ∷ bs) =
    let rest = expected_next results s bs in
    elim (get results b.name) [ some true ↦ b.next | _ ↦ rest ]

unfoldable pub outcome : Dict Bool → Option Step → String → String → List Evidence
unfolding expected_next
outcome results none a b = []
outcome results (some s) a b =
    if is_kind s.kind decision && not (or_empty (expected_next results s s.branches) =ₛ "")
    then if or_empty (expected_next results s s.branches) =ₛ b
      then []
      else wrong_branch a b (or_empty (expected_next results s s.branches)) ∷ []
    else []

unfoldable pub bad_branches : Dict Step → Dict Bool → List String → List Evidence
unfolding get outcome
bad_branches steps results [] = []
bad_branches steps results (a ∷ []) = []
bad_branches steps results (a ∷ b ∷ ns) =
    outcome results (get steps a) a b ++ bad_branches steps results (b ∷ ns)

unfoldable pub ends_with : List ℕ → List ℕ → Bool
unfolding eq_codes
ends_with [] t = eq_codes [] t
ends_with (c ∷ s) t = eq_codes (c ∷ s) t || ends_with s t

unfoldable pub same_target : String → String → Bool
unfolding lower eq_codes ends_with
same_target called model =
    eq_codes (lower called) (lower model) || ends_with (lower called) (codes "." ++ lower model)

unfoldable pub target_of : String → String → String → Option Step → List Evidence
unfolding same_target
target_of el atype called none = []
target_of el atype called (some s) =
    if or_empty s.target =ₛ "" || same_target called (or_empty s.target)
    then []
    else wrong_target el atype called ∷ []

unfoldable pub bad_targets : Dict Step → Dict (String × String) → List Evidence
unfolding get target_of
bad_targets steps [] = []
bad_targets steps ((el, (atype, called)) ∷ rest) =
    target_of el atype called (get steps el) ++ bad_targets steps rest

-- `_DML_KIND`.
unfoldable pub dml_kind : String → Option StepKind
dml_kind op =
    if op =ₛ "Insert"
    then some create
    else if op =ₛ "Update"
    then some update
    else if op =ₛ "Delete"
    then some delete
    else none

unfoldable pub is_step_for : DmlOp → StepKind → Option Step → Bool
unfolding lower eq_codes
is_step_for op kind none = false
is_step_for op kind (some s) =
    is_kind s.kind kind && eq_codes (lower (or_empty s.object)) (lower op.sobject)

unfoldable pub dml_of : DmlOp → Option StepKind → Option Step → List Evidence
unfolding is_step_for
dml_of op none s = []
dml_of op (some kind) s = if is_step_for op kind s then [] else wrong_dml op ∷ []

unfoldable pub is_after : Option String → List String → Bool
unfolding member
is_after none ns = false
is_after (some n) ns = member n ns

unfoldable pub bad_dml : Dict Step → List String → List DmlOp → List Evidence
unfolding get is_after dml_kind dml_of
bad_dml steps nested [] = []
bad_dml steps nested (op ∷ ops) =
    let rest = bad_dml steps nested ops in
    if is_after op.after_element nested
    then rest
    else dml_of op (dml_kind op.op) (get steps (or_empty op.after_element)) ++ rest
