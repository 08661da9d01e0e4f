-- ===== src/Audit/Counts.antt =====
-- What the observations of an audit say of the components (extract/ooe_audit/audit.py).
use salesforce.Common.{
  ℕ, suc, ◌+◌, ◌<◌, ◌≡◌, ◌≢◌, ◌↔◌, refl, ap, true, false, Option, some, String, List, [], ◌∷◌, map,
  if◌then◌else◌, arith,
}
use salesforce.Models.{CategoryName, Component}
use salesforce.Ooe.Step.{OoeStep, same_step, all_steps, includes}
use salesforce.Audit.{
  classify_steps, StepObservation, Tally, empty_tally, count_step, count_steps, tally, observe,
  audit, exclude, is_zero_frequency, is_rare,
}

-- How often a step stands in a list of steps.
unfoldable pub times : OoeStep → List OoeStep → ℕ
times s [] = 0
times s (t ∷ ts) = let rest = times s ts in if same_step t s then suc rest else rest

-- The components whose category exercises a step.
unfoldable pub exercising : OoeStep → List Component → ℕ
exercising s [] = 0
exercising s (c ∷ cs) =
    let rest = exercising s cs in if includes (classify_steps c.category) s then suc rest else rest

-- Every set of the table holds a step at most once.
times-classify :
    (s : OoeStep) (c : CategoryName)
    → times s (classify_steps c) ≡ (if includes (classify_steps c) s then 1 else 0)
unfolding times classify_steps includes
times-classify s CategoryName.record_triggered_flow = ground arith
times-classify s CategoryName.platform_event_triggered_flow = ground arith
times-classify s CategoryName.autolaunched_flow = ground arith
times-classify s CategoryName.flow_orchestration = ground arith
times-classify s CategoryName.process_builder = ground arith
times-classify s CategoryName.apex_trigger = ground arith
times-classify s CategoryName.validation_rule = ground arith
times-classify s CategoryName.workflow_rule = ground arith
times-classify s CategoryName.approval_process = ground arith
times-classify s CategoryName.assignment_rule = ground arith
times-classify s CategoryName.auto_response_rule = ground arith
times-classify s CategoryName.escalation_rule = ground arith
times-classify s CategoryName.sharing_rule = ground arith
times-classify s CategoryName.rollup_summary = ground arith
times-classify s CategoryName.platform_event = ground arith
times-classify s CategoryName.change_data_capture = ground arith
times-classify s _ = refl

structural-count_steps :
    (c : CategoryName) (t : Tally) (steps : List OoeStep) (s : OoeStep)
    → (count_steps c t steps).structural s ≡ t.structural s + times s steps
unfolding count_steps count_step times
structural-count_steps c t [] s = omega arith
structural-count_steps c t (step ∷ steps) s =
    ground (arith, structural-count_steps c (count_step c t step) steps s)

structural-tally :
    (t : Tally) (cs : List Component) (s : OoeStep)
    → (tally t cs).structural s ≡ t.structural s + exercising s cs
unfolding tally exercising
structural-tally t [] s = omega arith
structural-tally t (c ∷ cs) s = ground (
  arith,
  structural-tally (count_steps c.category t (classify_steps c.category)) cs s,
  structural-count_steps c.category t (classify_steps c.category) s,
  times-classify s c.category,
)

-- Every item of a list has a property.
abbrev pub Each {ℓ κ} : {A : Type ℓ} → (A → Type κ) → List A → Type κ
Each P [] = Unit
Each P (x ∷ xs) = P x × Each P xs

Each-map {ℓ κ μ} :
    {A : Type ℓ} {B : Type κ} (f : A → B) (P : B → Type μ)
    → ((a : A) → P (f a))
    → (xs : List A) → Each P (map f xs)
Each-map f P h [] = tt
Each-map f P h (x ∷ xs) = (h x, Each-map f P h xs)

-- What a row of the report says.
pub record IsSound (components : List Component) (frequency : OoeStep → Option ℕ)
    (o : StepObservation) : Type 0 where
  pub counted : o.structural_count ≡ exercising o.step components
  pub observed : o.observed_frequency ≡ frequency o.step
  pub scoped :
      (o.in_scope ≡ true) ↔ ((0 < exercising o.step components) × (frequency o.step ≢ some 0))
  pub excluded : (o.priority ≡ exclude) ↔ (o.in_scope ≡ false)

observe-IsSound :
    (components : List Component) (frequency : OoeStep → Option ℕ) (s : OoeStep)
    → IsSound components frequency (observe (tally empty_tally components) frequency s)
unfolding observe empty_tally is_zero_frequency is_rare
observe-IsSound components frequency s =
    let e : (tally empty_tally components).structural s ≡ exercising s components =
      omega (arith, structural-tally empty_tally components s) in
    record {
      counted = e;
      observed = refl;
      scoped = (λ h. (ground arith, λ q. ground arith), λ h. ground arith);
      excluded = (λ h. ground arith, λ h. ground arith);
    }

observed-steps :
    (t : Tally) (frequency : OoeStep → Option ℕ) (steps : List OoeStep)
    → map (λ o. o.step) (map (observe t frequency) steps) ≡ steps
unfolding observe
observed-steps t frequency [] = refl
observed-steps t frequency (s ∷ steps) = ap (λ rest. s ∷ rest) (observed-steps t frequency steps)

-- The report has one row for each of the 21 steps, in their order. A row counts the components whose
-- category exercises its step, once each; its step is in scope exactly when there is such a
-- component and the log does not say that the step was never observed; and it is marked for
-- exclusion exactly when it is out of scope.
pub audit_rows :
    (components : List Component) (org_alias : String) (frequency : OoeStep → Option ℕ)
    → let rows = (audit components org_alias frequency).observations in
      (map (λ o. o.step) rows ≡ all_steps) × Each (IsSound components frequency) rows
unfolding audit
audit_rows components org_alias frequency = (
  observed-steps (tally empty_tally components) frequency all_steps,
  Each-map (observe (tally empty_tally components) frequency) (IsSound components frequency)
      (observe-IsSound components frequency) all_steps,
)
