-- ===== src/Shadow/Categorize/Severity.antt =====
-- Which results the categories give (validate/shadow/categorize.py).
use salesforce.Common.{
  ℕ, ◌≡◌, ◌≤◌, refl, Bool, true, false, not, ◌&&◌, ◌||◌, none, is_some, arith, inl, inr, Bool-cases,
  is_nonempty,
}
use salesforce.Common.Dict.{Dict}
use salesforce.Value.{Value, Record}
use salesforce.Shadow.Event.{CdcEvent, is_gap}
use salesforce.Shadow.Categorize.{
  CategorizationResult, flag, found, by_fields, by_abort, categorize,
}

-- A divergence that has a category, with a severity that a window can hold.
abbrev pub IsGraded : CategorizationResult → Type 0
IsGraded r =
    (r.diverged ≡ true) × (is_some r.category ≡ true) × (10 ≤ r.severity) × (r.severity ≤ 80)

by_fields-IsGraded :
    (is_digit : ℕ → Bool) (diffs : Dict (Value × Value)) (trace : Record)
    → IsGraded (by_fields is_digit diffs trace)
unfolding by_fields found
by_fields-IsGraded is_digit diffs trace = ground arith

by_abort-IsGraded :
    (is_digit : ℕ → Bool) (diffs : Dict (Value × Value)) (trace : Record)
    → IsGraded (by_abort is_digit diffs trace)
unfolding by_abort found
by_abort-IsGraded is_digit diffs trace = ground (arith, by_fields-IsGraded is_digit diffs trace)

-- An event counts as a divergence exactly when it is a gap, the runtime aborted, or the records
-- differ. A divergence has a category and a severity from 10 to 80, and an event that is none has no
-- category and the severity 0.
pub categorize-diverged :
    (is_digit : ℕ → Bool) (event : CdcEvent) (diffs : Dict (Value × Value)) (trace : Record)
    → let r = categorize is_digit event diffs trace in
      (r.diverged ≡ (is_gap event || flag trace "aborted" || is_nonempty diffs))
      × (r.diverged ≡ true → IsGraded r)
      × (r.diverged ≡ false → (r.category ≡ none) × (r.severity ≡ 0))
unfolding categorize found
categorize-diverged is_digit event diffs trace = elim (Bool-cases (is_gap event)) [
  | inl gap ↦ rw gap (refl, λ h. (refl, refl, ground arith, ground arith), λ h. ground arith)
  | inr change ↦
      rw change (elim (Bool-cases (not (is_nonempty diffs) && not (flag trace "aborted"))) [
        | inl same ↦ rw same (ground arith, λ h. ground arith, λ h. (refl, refl))
        | inr differ ↦
            let graded = by_abort-IsGraded is_digit diffs trace in
            rw differ (ground (arith, graded), λ h. graded, λ h. ground (arith, graded))
      ])
]
