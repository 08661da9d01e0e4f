-- ===== src/Shadow/Categorize.antt =====
-- validate/shadow/categorize.py: what kind of divergence an event showed, and how grave it is. The
-- explanation, a text for the reader, is left out. A trace is the dictionary that the executor makes;
-- its reason is a text or null. Which code points Python takes as digits is an argument.
pub mod Severity
use salesforce.Common.{
  ℕ, Bool, true, false, not, ◌&&◌, ◌||◌, Option, none, some, String, List, [], ◌∷◌, ◌==◌, codes,
  lower_code, map, all, contains, is_nonempty, if◌then◌else◌,
}
use salesforce.Common.Dict.{Dict, get}
use salesforce.Value.{Value, null, boolean, number, text, Record, truthy}
use salesforce.Models.{
  DivergenceCategory, translation_error, ooe_ordering_mismatch, governor_limit_behavior,
  non_deterministic_trigger_ordering, formula_edge_case, test_environment_artifact,
  gap_event_full_refetch_required,
}
use salesforce.Shadow.Event.{CdcEvent, is_gap}

pub record CategorizationResult : Type 0 where
  pub diverged : Bool
  pub category : Option DivergenceCategory
  pub severity : ℕ

-- `s.replace(".", "", 1)`.
drop_dot : List ℕ → List ℕ
drop_dot [] = []
drop_dot (c ∷ s) = let rest = drop_dot s in if c == b'.' then s else c ∷ rest

-- `s.lstrip("-")`.
strip_dashes : List ℕ → List ℕ
strip_dashes [] = []
strip_dashes (c ∷ s) = let rest = strip_dashes s in if c == b'-' then rest else c ∷ s

-- `_looks_numeric`.
unfoldable pub looks_numeric : (ℕ → Bool) → Value → Bool
unfolding drop_dot strip_dashes all
looks_numeric is_digit (number n) = true
looks_numeric is_digit (boolean b) = true
looks_numeric is_digit (text s) =
    let digits = strip_dashes (drop_dot (codes s)) in is_nonempty digits && all is_digit digits
looks_numeric is_digit v = false

-- `trace.get(key)`, as a condition.
unfoldable pub flag : Record → String → Bool
unfolding get truthy
flag trace key = elim (get trace key) [ none ↦ false | some v ↦ truthy v ]

-- `trace.get("abort_reason", "") or ""`.
unfoldable pub abort_reason : Record → List ℕ
unfolding get
abort_reason trace = elim (get trace "abort_reason") [ some (text s) ↦ codes s | _ ↦ [] ]

found : DivergenceCategory → ℕ → CategorizationResult
found category severity = record { diverged = true; category = some category; severity = severity }

numeric_only : (ℕ → Bool) → Dict (Value × Value) → Bool
unfolding looks_numeric all
numeric_only is_digit diffs =
    is_nonempty diffs
    && all
        (λ (d : String × (Value × Value)).
          looks_numeric is_digit d.1.0 || looks_numeric is_digit d.1.1)
        diffs

-- The rules from `numeric_only` on.
by_fields : (ℕ → Bool) → Dict (Value × Value) → Record → CategorizationResult
unfolding numeric_only found
by_fields is_digit diffs trace =
    if numeric_only is_digit diffs
    then found formula_edge_case 40
    else if flag trace "non_deterministic_ordering_observed"
    then found non_deterministic_trigger_ordering 55
    else if flag trace "governor_limit_avoided"
    then found governor_limit_behavior 35
    else if flag trace "test_env_artifact"
    then found test_environment_artifact 10
    else found translation_error 50

-- `if trace.get("aborted"):`, and what follows where no case of it returns.
by_abort : (ℕ → Bool) → Dict (Value × Value) → Record → CategorizationResult
unfolding by_fields found contains lower_code
by_abort is_digit diffs trace =
    let reason = abort_reason trace in
    if not (flag trace "aborted")
    then by_fields is_digit diffs trace
    else if contains reason (codes "MixedDML")
    then found ooe_ordering_mismatch 60
    else if contains reason (codes "Cascade")
    then found ooe_ordering_mismatch 70
    else if contains (map lower_code reason) (codes "validation")
    then found translation_error 50
    else by_fields is_digit diffs trace

unfoldable pub categorize :
    (ℕ → Bool) → CdcEvent → Dict (Value × Value) → Record → CategorizationResult
unfolding by_abort found
categorize is_digit event diffs trace =
    if is_gap event
    then found gap_event_full_refetch_required 80
    else if not (is_nonempty diffs) && not (flag trace "aborted")
    then record { diverged = false; category = none; severity = 0 }
    else by_abort is_digit diffs trace
