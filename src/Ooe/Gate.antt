-- ===== src/Ooe/Gate.antt =====
-- The validation step of a save (`_step` with `validation=True`, and the `except` of `execute_save`
-- in runtime/ooe/state_machine.py).
use salesforce.Common.{
  ◌≡◌, ◌≢◌, refl, sym, ap, ◌∙◌, true, false, not, ◌&&◌, some, String, List, inl, inr, Bool-cases,
  member, keep, is_nonempty, arith,
}
use salesforce.Common.Exec.{Outcome, ok, raise, ◌>>=◌, ◌>>◌, continue}
use salesforce.Rules.{RuleResult, rules_for}
use salesforce.Ooe.Step.{
  OoeStep, before_triggers, custom_validation, processes_and_flows, number_of, includes,
}
use salesforce.Ooe.Context.{
  OoeError, validation_failed, validation_message, Platform, OoeRuntime, Save,
}
use salesforce.Ooe.Pipeline.{
  OoeM, is_failure, check_failures, run_step, maybe_fire_flows, mark_fired, flow_key,
}
use salesforce.Ooe.Execute.{
  before_save, after_save, refire_cycle, start_refire, maybe_refire, pipeline, mark_aborted,
  guarded,
}

-- An action that never raises a validation failure.
pub record NeverFails (m : OoeM) : Type 0 where
  pub at : (s : Save) (fs : List RuleResult) → (m s).0 ≢ raise (validation_failed fs)

continue-NeverFails :
    (r : Outcome OoeError Unit) (n : OoeM) (s : Save) (fs : List RuleResult)
    → r ≢ raise (validation_failed fs)
    → ((t : Save) → (n t).0 ≢ raise (validation_failed fs))
    → (continue r (λ _. n) s).0 ≢ raise (validation_failed fs)
continue-NeverFails (ok tt) n s fs hr hn = hn s
continue-NeverFails (raise e) n s fs hr hn = λ q. hr (cc)

pub NeverFails->> : (m n : OoeM) → NeverFails m → NeverFails n → NeverFails (m >> n)
unfolding ◌>>=◌
NeverFails->> m n hm hn = record {
  at = λ s fs. continue-NeverFails (m s).0 n (m s).1 fs (hm.at s fs) (λ t. hn.at t fs);
}

-- A failure in the second action, where the first raises none, passes through.
continue-fails :
    (r : Outcome OoeError Unit) (n : OoeM) (s : Save) (fs : List RuleResult)
    → ((t : Save) → (n t).0 ≢ raise (validation_failed fs))
    → (continue r (λ _. n) s).0 ≡ raise (validation_failed fs)
    → continue r (λ _. n) s ≡ (r, s)
continue-fails (ok tt) n s fs hn q = absurd (hn s q)
continue-fails (raise e) n s fs hn q = refl

module _ (py : Platform) (rt : OoeRuntime) (sobject : String) where
  run_step-NeverFails : (step : OoeStep) → NeverFails (run_step py rt step false sobject)
  unfolding run_step check_failures
  run_step-NeverFails step = record { at = λ s fs q. ground arith }

  maybe_fire_flows-NeverFails : NeverFails (maybe_fire_flows py rt sobject)
  unfolding maybe_fire_flows
  maybe_fire_flows-NeverFails = record {
    at = λ s fs. elim (Bool-cases (member (flow_key py rt sobject s) s.ctx.flows_fired_for)) [
      | inl fired ↦ rw fired (λ q. cc)
      | inr fresh ↦ rw fresh (
          (run_step-NeverFails processes_and_flows).at
            (mark_fired py rt (flow_key py rt sobject s) s) fs)
    ];
  }

  ruleset never_rules = (NeverFails->>, run_step-NeverFails, maybe_fire_flows-NeverFails)

  after_save-NeverFails : NeverFails (after_save py rt sobject)
  unfolding after_save
  after_save-NeverFails = search never_rules depth 7

  refire_cycle-NeverFails : NeverFails (refire_cycle py rt sobject)
  unfolding refire_cycle
  refire_cycle-NeverFails = search never_rules

  maybe_refire-NeverFails : NeverFails (maybe_refire py rt sobject)
  unfolding maybe_refire
  maybe_refire-NeverFails = record {
    at = λ s fs. elim (Bool-cases (s.ctx.workflow_refire_flag && not s.ctx.refire_done)) [
      | inl due ↦ rw due ((refire_cycle-NeverFails).at (start_refire py rt s) fs)
      | inr not_due ↦ rw not_due (λ q. cc)
    ];
  }

  later-NeverFails : NeverFails (after_save py rt sobject >> maybe_refire py rt sobject)
  later-NeverFails = NeverFails->> _ _ after_save-NeverFails maybe_refire-NeverFails

  pipeline-fails :
      (s : Save) (fs : List RuleResult)
      → (pipeline py rt sobject s).0 ≡ raise (validation_failed fs)
      → pipeline py rt sobject s ≡ before_save py rt sobject s
  unfolding pipeline ◌>>=◌
  pipeline-fails s fs q =
      continue-fails (before_save py rt sobject s).0
        (after_save py rt sobject >> maybe_refire py rt sobject) (before_save py rt sobject s).1 fs
        (λ t. (later-NeverFails).at t fs) q

  check-fails :
      (s : Save) (fs : List RuleResult)
      → (check_failures true s).0 ≡ raise (validation_failed fs)
      → (fs ≡ keep is_failure (check_failures true s).1.ctx.rule_results) × (is_nonempty fs ≡ true)
  unfolding check_failures
  check-fails s fs q = ground arith

  validation-fails :
      (s : Save) (fs : List RuleResult)
      → (run_step py rt custom_validation true sobject s).0 ≡ raise (validation_failed fs)
      → (fs ≡ keep is_failure (run_step py rt custom_validation true sobject s).1.ctx.rule_results)
        × (is_nonempty fs ≡ true)
  unfolding run_step
  validation-fails s fs = elim (Bool-cases (includes s.ctx.in_scope_steps custom_validation)) [
    | inr out ↦ rw out (λ q. cc)
    | inl within ↦
        elim (Bool-cases (is_nonempty (rules_for rt.rules sobject (number_of custom_validation)))) [
          | inr empty ↦ rw (within, empty) (λ q. cc)
          | inl some_rules ↦ rw (within, some_rules) (check-fails _ fs)
        ]
  ]

  continue-validation :
      (r : Outcome OoeError Unit) (u : Save) (fs : List RuleResult)
      → r ≢ raise (validation_failed fs)
      → (continue r (λ _. run_step py rt custom_validation true sobject) u).0
        ≡ raise (validation_failed fs)
      → (fs
          ≡ keep is_failure
              (continue r
                (λ _. run_step py rt custom_validation true sobject)
                u).1.ctx.rule_results)
        × (is_nonempty fs ≡ true)
  continue-validation (ok tt) u fs hr q = validation-fails u fs q
  continue-validation (raise e) u fs hr q = absurd (hr q)

  before_save-fails :
      (s : Save) (fs : List RuleResult)
      → (before_save py rt sobject s).0 ≡ raise (validation_failed fs)
      → (fs ≡ keep is_failure (before_save py rt sobject s).1.ctx.rule_results)
        × (is_nonempty fs ≡ true)
  unfolding before_save ◌>>=◌
  before_save-fails s fs q =
      continue-validation (run_step py rt before_triggers false sobject s).0
        (run_step py rt before_triggers false sobject s).1 fs
        ((run_step-NeverFails before_triggers).at s fs) q

  -- A save that raises a validation failure stopped at step 6: the results, the record of the caller
  -- and the exception are those of steps 5 and 6, so no later step ran and what step 5 wrote to the
  -- record stays. The exception holds the failed validations of the transaction, at least one, and
  -- the context is marked as aborted with its message.
  pub validation_gate :
      (s : Save) (fs : List RuleResult)
      → (guarded (pipeline py rt sobject) s).0 ≡ raise (validation_failed fs)
      → let t = (guarded (pipeline py rt sobject) s).1 in
        let u = (before_save py rt sobject s).1 in
        (t.ctx.rule_results ≡ u.ctx.rule_results)
        × (t.record_ ≡ u.record_)
        × (fs ≡ keep is_failure u.ctx.rule_results)
        × (is_nonempty fs ≡ true)
        × (t.ctx.aborted ≡ true)
        × (t.ctx.abort_reason ≡ some (validation_message fs))
  unfolding guarded mark_aborted
  validation_gate s fs q =
      let stopped = pipeline-fails s fs q in
      let (failures, nonempty) = before_save-fails s fs (ap (λ p. p.0) (sym stopped) ∙ q) in
      (
        rw q (ap (λ p. p.1.ctx.rule_results) stopped),
        rw q (ap (λ p. p.1.record_) stopped),
        failures,
        nonempty,
        rw q refl,
        rw q refl,
      )
