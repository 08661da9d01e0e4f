-- ===== src/Ooe/Preserves.antt =====
-- What the steps of a save (runtime/ooe/state_machine.py) leave as it was: a view of the state that
-- one rule does not change is not changed by a step.
use salesforce.Common.{
  ◌≡◌, refl, ◌∙◌, Bool, false, String, List, [], ◌∷◌, inl, inr, Bool-cases, is_nonempty, arith,
}
use salesforce.Common.Exec.{Outcome, ok, raise, ◌>>=◌, ◌>>◌, continue}
use salesforce.Rules.{Rule, rules_for}
use salesforce.Ooe.Step.{
  OoeStep, before_triggers, after_triggers, workflow_rules, number_of, includes, same_step,
}
use salesforce.Ooe.Context.{OoeError, Platform, OoeRuntime, Save}
use salesforce.Ooe.Pipeline.{OoeM, run_rule, run_rules, check_failures-state, run_step, flagged}
use salesforce.Ooe.Execute.{refire_cycle}

pub record Preserves {V : Type 0} (view : Save → V) (m : OoeM) : Type 0 where
  pub at : (s : Save) → view (m s).1 ≡ view s

module _ {V : Type 0} (view : Save → V) where
  continue-Preserves :
      (r : Outcome OoeError Unit) (n : OoeM) (s : Save)
      → ((t : Save) → view (n t).1 ≡ view t)
      → view (continue r (λ _. n) s).1 ≡ view s
  continue-Preserves (ok tt) n s h = h s
  continue-Preserves (raise e) n s h = refl

  pub Preserves->> : (m n : OoeM) → Preserves view m → Preserves view n → Preserves view (m >> n)
  unfolding ◌>>=◌
  Preserves->> m n hm hn = record { at = λ s. continue-Preserves (m s).0 n (m s).1 hn.at ∙ hm.at s }

  module _ (step : OoeStep) (v : Bool)
      (rule : (s : Save) (r : Rule) → view (run_rule step v s r) ≡ view s) where
    run_rules-Preserves : (s : Save) (rs : List Rule) → view (run_rules step v s rs) ≡ view s
    unfolding run_rules
    run_rules-Preserves s [] = refl
    run_rules-Preserves s (r ∷ rs) = run_rules-Preserves (run_rule step v s r) rs ∙ rule s r

    pub run_step-Preserves :
        (py : Platform) (rt : OoeRuntime) (sobject : String)
        → Preserves view (run_step py rt step v sobject)
    unfolding run_step
    run_step-Preserves py rt sobject = record {
      at = λ s. elim (Bool-cases (includes s.ctx.in_scope_steps step)) [
        | inr out ↦ rw out refl
        | inl within ↦
            elim (Bool-cases (is_nonempty (rules_for rt.rules sobject (number_of step)))) [
              | inr empty ↦ rw (within, empty) refl
              | inl some_rules ↦
                  rw (within, some_rules, check_failures-state) (run_rules-Preserves s _)
            ]
      ];
    }

abbrev pub flag_of : Save → Bool
flag_of s = s.ctx.workflow_refire_flag

abbrev pub done_of : Save → Bool
done_of s = s.ctx.refire_done

abbrev pub fired_of : Save → List String
fired_of s = s.ctx.flows_fired_for

module _ (py : Platform) (rt : OoeRuntime) (sobject : String) where
  pub done-run_step :
      (step : OoeStep) (v : Bool) → Preserves done_of (run_step py rt step v sobject)
  unfolding run_rule
  done-run_step step v = run_step-Preserves done_of step v (λ s r. refl) py rt sobject

  pub fired-run_step :
      (step : OoeStep) (v : Bool) → Preserves fired_of (run_step py rt step v sobject)
  unfolding run_rule
  fired-run_step step v = run_step-Preserves fired_of step v (λ s r. refl) py rt sobject

  flag-rule :
      (step : OoeStep) (v : Bool)
      → same_step step workflow_rules ≡ false
      → (s : Save) (r : Rule) → flag_of (run_rule step v s r) ≡ flag_of s
  unfolding run_rule flagged
  flag-rule step v h s r = ground arith

  -- Only step 12 sets the flag.
  pub flag-run_step :
      (step : OoeStep) (v : Bool)
      → same_step step workflow_rules ≡ false
      → Preserves flag_of (run_step py rt step v sobject)
  flag-run_step step v h = run_step-Preserves flag_of step v (flag-rule step v h) py rt sobject

  pub flag-refire_cycle : Preserves flag_of (refire_cycle py rt sobject)
  unfolding refire_cycle same_step
  flag-refire_cycle =
      Preserves->> flag_of _ _ (flag-run_step before_triggers false refl)
        (flag-run_step after_triggers false refl)

  pub done-refire_cycle : Preserves done_of (refire_cycle py rt sobject)
  unfolding refire_cycle
  done-refire_cycle =
      Preserves->> done_of _ _ (done-run_step before_triggers false)
        (done-run_step after_triggers false)
