-- ===== src/Ooe/Rounds.antt =====
-- Which rules a save evaluates, and the re-fire cycle (`execute_save` of
-- runtime/ooe/state_machine.py).
use mathlib.Core.List.{Perm}
use mathlib.Core.List.Perm
use salesforce.Common.{
  ◌≡◌, ap, Bool, true, false, String, List, ◌++◌, map, append_assoc, inl, inr, Bool-cases,
}
use salesforce.Common.Exec.{ok, ◌>>◌, >>=-eq-ok}
use salesforce.Rules.{Rule, RuleResult, rules_for}
use salesforce.Ooe.Step.{
  OoeStep, before_triggers, custom_validation, after_triggers, number_of, includes,
}
use salesforce.Ooe.Context.{Platform, OoeRuntime, Save}
use salesforce.Ooe.Pipeline.{OoeM, run_step}
use salesforce.Ooe.Order.{run_step-evaluates_each_once}
use salesforce.Ooe.Execute.{before_save, refire_cycle}

-- The names of the results so far, in order.
abbrev pub result_ids : Save → List String
result_ids s = map (λ (x : RuleResult). x.rule_id) s.ctx.rule_results

-- The names of the rules that target a step of an object.
abbrev pub step_ids : OoeRuntime → String → OoeStep → List String
step_ids rt sobject step =
    map (λ (x : Rule). x.rule_id) (rules_for rt.rules sobject (number_of step))

-- An action that, when it returns, has evaluated the named rules once each.
pub record Evaluates (m : OoeM) (names : List String) : Type 0 where
  pub at : (s t : Save) → m s ≡ (ok tt, t) → Perm (result_ids t) (result_ids s ++ names)

pub Evaluates->> :
    (m n : OoeM) (xs ys : List String)
    → Evaluates m xs
    → Evaluates n ys
    → Evaluates (m >> n) (xs ++ ys)
Evaluates->> m n xs ys hm hn = record {
  at = λ s t q.
      let (a, u, e, f) = >>=-eq-ok m (λ _. n) s q in
      rw (← append_assoc) (Perm.trans (hn.at u t f) (Perm.append_right ys (hm.at s u e)));
}

module _ (py : Platform) (rt : OoeRuntime) (sobject : String) where
  -- A step that returns was in scope.
  pub run_step-scope :
      (step : OoeStep) (v : Bool) (s t : Save)
      → run_step py rt step v sobject s ≡ (ok tt, t)
      → includes s.ctx.in_scope_steps step ≡ true
  unfolding run_step
  run_step-scope step v s t = elim (Bool-cases (includes s.ctx.in_scope_steps step)) [
    | inl within ↦ λ q. within
    | inr out ↦ rw out (λ q. cc)
  ]

  pub run_step-Evaluates :
      (step : OoeStep) (v : Bool)
      → Evaluates (run_step py rt step v sobject) (step_ids rt sobject step)
  run_step-Evaluates step v = record {
    at = λ s t q.
        rw (ap (λ p. p.1) q) at
          (run_step-evaluates_each_once py rt step v sobject s (run_step-scope step v s t q));
  }

  pub before_save-Evaluates :
      Evaluates
        (before_save py rt sobject)
        (step_ids rt sobject before_triggers ++ step_ids rt sobject custom_validation)
  unfolding before_save
  before_save-Evaluates =
      Evaluates->> _ _ _ _ (run_step-Evaluates before_triggers false)
        (run_step-Evaluates custom_validation true)

  pub refire_cycle-Evaluates :
      Evaluates
        (refire_cycle py rt sobject)
        (step_ids rt sobject before_triggers ++ step_ids rt sobject after_triggers)
  unfolding refire_cycle
  refire_cycle-Evaluates =
      Evaluates->> _ _ _ _ (run_step-Evaluates before_triggers false)
        (run_step-Evaluates after_triggers false)
