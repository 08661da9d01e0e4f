-- ===== src/Verify/Verdict.antt =====
-- verify/compare.py: the checks of a trace and `verify_process`.
use salesforce.Common.{
  Bool, true, false, not, ◌&&◌, String, Option, none, some, List, [], ◌∷◌, ◌++◌, all, is_nonempty,
  if◌then◌else◌,
}
use salesforce.Common.Dict.{Dict}
use salesforce.Verify.Model.{Step, Process, Trace}
use salesforce.Verify.Checks.{
  runtime, Evidence, step_table, visit, unknowns, kind_mismatches, bad_transitions, bad_entry,
  bad_branches, bad_targets, bad_dml,
}

pub record Check : Type 0 where
  pub name : String
  pub ok : Bool
  pub evidence : List Evidence

pub data Status : Type 0 where
  pass mismatch runtime_error not_verifiable : Status

pub record VerificationResult : Type 0 where
  pub process : String
  pub status : Status
  pub checks : List Check
  pub path : List String

-- A check that passes where nothing was found.
abbrev pub check : String → List Evidence → Check
check name found = record { name = name; ok = not (is_nonempty found); evidence = found }

abbrev pub when : Bool → Check → List Check
when true c = c ∷ []
when false c = []

-- The checks of a trace, in their order: first those on its path, then those on what the steps did, and
-- last, in `verify_process`, the one on the org's own errors.
unfoldable pub step_checks : Dict Step → List String → List String → Trace → List Check
unfolding bad_branches bad_targets bad_dml
step_checks steps visited nested t =
    when (is_nonempty t.rule_results)
      (check "branch_outcomes_match" (bad_branches steps t.rule_results visited))
    ++ when (is_nonempty t.action_targets)
        (check "action_targets_match" (bad_targets steps t.action_targets))
    ++ check "dml_matches_steps" (bad_dml steps nested t.dml) ∷ []

unfoldable pub path_checks : Process → Dict Step → List String → List String → Trace → List Check
unfolding unknowns kind_mismatches bad_entry bad_transitions step_checks
path_checks p steps visited nested t =
    check "elements_in_model" (unknowns steps visited)
    ∷ check "step_kinds_match" (kind_mismatches steps t.elements)
    ∷ check "path_follows_model" (bad_entry p.entry visited ++ bad_transitions steps visited)
    ∷ step_checks steps visited nested t

unfoldable pub model_checks : Process → Trace → List Check
unfolding step_table visit path_checks
model_checks p t =
    let steps = step_table p.steps [] in
    let (visited, nested) = visit steps false t.elements in
    check "trace_found" [] ∷ when (is_nonempty nested) (check "nested_elements" [])
    ++ path_checks p steps visited nested t

unfoldable pub runtime_errors : List String → List Evidence
runtime_errors [] = []
runtime_errors (e ∷ es) = runtime e ∷ runtime_errors es

abbrev pub is_ok : Check → Bool
is_ok c = c.ok

unfoldable pub verify_process : Process → Option Trace → VerificationResult
unfolding model_checks all runtime_errors step_table visit
verify_process p none = record {
  process = p.name;
  status = not_verifiable;
  checks = record { name = "trace_found"; ok = false; evidence = [] } ∷ [];
  path = [];
}
verify_process p (some t) =
    let checks = model_checks p t in
    let failed = is_nonempty t.errors in
    let model_ok = all is_ok checks in
    record {
      process = p.name;
      status =
          if model_ok && not failed then pass else if model_ok then runtime_error else mismatch;
      checks = checks ++ when failed (check "no_runtime_errors" (runtime_errors t.errors));
      path = (visit (step_table p.steps []) false t.elements).0;
    }
