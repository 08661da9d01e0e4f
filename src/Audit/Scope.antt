-- ===== src/Audit/Scope.antt =====
-- A runtime that takes its scope from an audit (extract/ooe_audit/audit.py and
-- runtime/ooe/state_machine.py).
use salesforce.Common.{
  ℕ, ◌<◌, ◌≡◌, refl, ap, ap₂, subst, true, Option, String, List, [], ◌∷◌, keep, inl, inr,
  Bool-cases, ◌==◌, arith, ◌||◌,
}
use salesforce.Common.Exec.{ok}
use salesforce.Value.{Record}
use salesforce.Models.{Component}
use salesforce.Ooe.Step.{
  OoeStep, before_triggers, custom_validation, after_triggers, assignment_rules,
  auto_response_rules, workflow_rules, number_of, same_step, includes,
}
use salesforce.Ooe.Context.{Platform, OoeRuntime, Save}
use salesforce.Ooe.Execute.{execute_top}
use salesforce.Ooe.Scope.{HasScope, execute_top-scope}
use salesforce.Audit.{StepObservation, audit, scope_of, classify_steps}
use salesforce.Audit.Counts.{exercising, Each, IsSound, audit_rows}

includes-number :
    (steps : List OoeStep) (s t : OoeStep)
    → number_of s ≡ number_of t
    → includes steps s ≡ includes steps t
unfolding includes
includes-number [] s t e = refl
includes-number (x ∷ xs) s t e = ap₂ ◌||◌ (ap (λ n. n == number_of x) e) (includes-number xs s t e)

exercising-number :
    (s t : OoeStep) (cs : List Component)
    → number_of s ≡ number_of t
    → exercising s cs ≡ exercising t cs
unfolding exercising
exercising-number s t [] e = refl
exercising-number s t (c ∷ cs) e =
    ground (arith, exercising-number s t cs e, includes-number (classify_steps c.category) s t e)

same-number : (s t : OoeStep) → same_step s t ≡ true → number_of s ≡ number_of t
unfolding same_step
same-number s t h = ground arith

module _ (components : List Component) (frequency : OoeStep → Option ℕ) where
  row-exercised :
      (o : StepObservation) (rows : List StepObservation) (s : OoeStep)
      → Each (IsSound components frequency) (o ∷ rows)
      → o.in_scope ≡ true
      → (includes (scope_of rows) s ≡ true → 0 < exercising s components)
      → (same_step s o.step || includes (scope_of rows) s) ≡ true
      → 0 < exercising s components
  row-exercised o rows s (sound, h) within rest q = elim (Bool-cases (same_step s o.step)) [
    | inl same ↦
        rw (exercising-number s o.step components (same-number s o.step same))
          ((sound.scoped.0 within).0)
    | inr other ↦ rest (rw other at q)
  ]

  scope-exercised :
      (rows : List StepObservation) (s : OoeStep)
      → Each (IsSound components frequency) rows
      → includes (scope_of rows) s ≡ true
      → 0 < exercising s components
  unfolding includes scope_of keep
  scope-exercised [] s h q = cc
  scope-exercised (o ∷ rows) s (sound, h) k = elim (Bool-cases o.in_scope) [
    | inr out ↦ scope-exercised rows s h (rw out at k)
    | inl within ↦
        row-exercised o rows s (sound, h) within (scope-exercised rows s h) (rw within at k)
  ]

  -- A runtime whose scope is that of an audit returns from a save only in an org that has, for each
  -- of the steps 5, 6, 9, 10, 11 and 12, a component that exercises it: it refuses every save where
  -- one of them has none, though no rule targets that step.
  pub audited_save :
      (py : Platform) (rt : OoeRuntime) (org_alias sobject : String) (record_ : Record)
      (transaction_id : Option String) (new_id : String) (t : Save)
      → rt.in_scope_steps ≡ scope_of (audit components org_alias frequency).observations
      → execute_top py rt sobject record_ transaction_id new_id ≡ (ok tt, t)
      → (0 < exercising before_triggers components)
        × (0 < exercising custom_validation components)
        × (0 < exercising after_triggers components)
        × (0 < exercising assignment_rules components)
        × (0 < exercising auto_response_rules components)
        × (0 < exercising workflow_rules components)
  audited_save py rt org_alias sobject record_ transaction_id new_id t scope q =
      let rows = (audit components org_alias frequency).observations in
      let sound = (audit_rows components org_alias frequency).1 in
      let (a, b, c, d, e, f) =
        subst HasScope scope (execute_top-scope py rt sobject record_ transaction_id new_id t q) in
      (
        scope-exercised rows before_triggers sound a,
        scope-exercised rows custom_validation sound b,
        scope-exercised rows after_triggers sound c,
        scope-exercised rows assignment_rules sound d,
        scope-exercised rows auto_response_rules sound e,
        scope-exercised rows workflow_rules sound f,
      )
