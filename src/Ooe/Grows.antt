-- ===== src/Ooe/Grows.antt =====
-- What the steps of a save (runtime/ooe/state_machine.py) only add to: the results, the fired flows
-- and the mark of the re-fire cycle. The rest of the context they leave as it was.
use salesforce.Common.{
  ℕ, ◌≡◌, refl, sym, inl, inr, Bool-cases, ◌∙◌, Bool, true, false, not, ◌&&◌, ◌||◌, Option, none,
  some, String, List, [], ◌∷◌, ◌++◌, arith, member, is_nonempty, if◌then◌else◌, Extends,
  Extends-refl, Extends-append, Extends-trans, eq_iff, length, ◌+◌,
}
use salesforce.Common.Exec.{Exec, Outcome, ok, raise, ◌>>=◌, ◌>>◌}
use salesforce.Rules.{Rule, rules_for}
use salesforce.Ooe.Step.{OoeStep, processes_and_flows, number_of, includes}
use salesforce.Ooe.Context.{OoeError, Platform, OoeRuntime, Save}
use salesforce.Ooe.Pipeline.{
  OoeM, run_rule, run_rules, run_step, check_failures-state, flow_key, mark_fired, maybe_fire_flows,
}
use salesforce.Ooe.Execute.{
  before_save, after_save, refire_cycle, start_refire, maybe_refire, pipeline, mark_aborted,
  guarded,
}

pub record Grows (s t : Save) : Type 0 where
  pub results : Extends s.ctx.rule_results t.ctx.rule_results
  pub fired :
      (k : String) → member k s.ctx.flows_fired_for ≡ true → member k t.ctx.flows_fired_for ≡ true
  pub done : s.ctx.refire_done ≡ true → t.ctx.refire_done ≡ true
  pub txn : t.ctx.transaction_id ≡ s.ctx.transaction_id
  pub scope : t.ctx.in_scope_steps ≡ s.ctx.in_scope_steps
  pub depth : t.ctx.cascade_depth ≡ s.ctx.cascade_depth
  pub setup : t.ctx.setup_touched ≡ s.ctx.setup_touched
  pub nonsetup : t.ctx.nonsetup_touched ≡ s.ctx.nonsetup_touched

pub Grows-refl : (s : Save) → Grows s s
Grows-refl s = record {
  results = Extends-refl s.ctx.rule_results;
  fired = λ k h. h;
  done = λ h. h;
  txn = refl;
  scope = refl;
  depth = refl;
  setup = refl;
  nonsetup = refl;
}

pub Grows-trans : {s t u : Save} → Grows s t → Grows t u → Grows s u
Grows-trans g h = record {
  results = Extends-trans g.results h.results;
  fired = λ k m. h.fired k (g.fired k m);
  done = λ d. h.done (g.done d);
  txn = h.txn ∙ g.txn;
  scope = h.scope ∙ g.scope;
  depth = h.depth ∙ g.depth;
  setup = h.setup ∙ g.setup;
  nonsetup = h.nonsetup ∙ g.nonsetup;
}

run_rule-Grows : (step : OoeStep) (v : Bool) (s : Save) (r : Rule) → Grows s (run_rule step v s r)
unfolding run_rule
run_rule-Grows step v s r = record {
  results = Extends-append s.ctx.rule_results _;
  fired = λ k h. h;
  done = λ h. h;
  txn = refl;
  scope = refl;
  depth = refl;
  setup = refl;
  nonsetup = refl;
}

pub run_rules-Grows :
    (step : OoeStep) (v : Bool) (s : Save) (rs : List Rule) → Grows s (run_rules step v s rs)
unfolding run_rules
run_rules-Grows step v s [] = Grows-refl s
run_rules-Grows step v s (r ∷ rs) =
    Grows-trans (run_rule-Grows step v s r) (run_rules-Grows step v (run_rule step v s r) rs)

mark_fired-Grows :
    (py : Platform) (rt : OoeRuntime) (k : String) (s : Save) → Grows s (mark_fired py rt k s)
unfolding mark_fired member
mark_fired-Grows py rt k s = record {
  results = Extends-refl s.ctx.rule_results;
  fired = λ j h. ground arith;
  done = λ h. h;
  txn = refl;
  scope = refl;
  depth = refl;
  setup = refl;
  nonsetup = refl;
}

pub start_refire-Grows :
    (py : Platform) (rt : OoeRuntime) (s : Save) → Grows s (start_refire py rt s)
unfolding start_refire
start_refire-Grows py rt s = record {
  results = Extends-refl s.ctx.rule_results;
  fired = λ j h. h;
  done = λ h. refl;
  txn = refl;
  scope = refl;
  depth = refl;
  setup = refl;
  nonsetup = refl;
}

mark_aborted-Grows : (o : Outcome OoeError Unit) (s : Save) → Grows s (mark_aborted o s)
unfolding mark_aborted
mark_aborted-Grows (ok tt) s = Grows-refl s
mark_aborted-Grows (raise (OoeError.validation_failed rs)) s = record {
  results = Extends-refl s.ctx.rule_results;
  fired = λ j h. h;
  done = λ h. h;
  txn = refl;
  scope = refl;
  depth = refl;
  setup = refl;
  nonsetup = refl;
}
mark_aborted-Grows (raise _) s = Grows-refl s

-- An action that returns or raises with a state that has grown.
pub record Adds (m : OoeM) : Type 0 where
  pub at : (s : Save) → Grows s (m s).1

continue-Grows :
    (r : Outcome OoeError Unit) (n : OoeM) (s : Save)
    → ((t : Save) → Grows t (n t).1)
    → Grows s (salesforce.Common.Exec.continue r (λ _. n) s).1
continue-Grows (ok tt) n s h = h s
continue-Grows (raise e) n s h = Grows-refl s

pub Adds->> : (m n : OoeM) → Adds m → Adds n → Adds (m >> n)
unfolding ◌>>=◌
Adds->> m n hm hn = record {
  at = λ s. Grows-trans (hm.at s) (continue-Grows (m s).0 n (m s).1 hn.at);
}

module _ (py : Platform) (rt : OoeRuntime) where
  pub run_step-Adds :
      (step : OoeStep) (v : Bool) (sobject : String) → Adds (run_step py rt step v sobject)
  unfolding run_step
  run_step-Adds step v sobject = record {
    at = λ s. elim (Bool-cases (includes s.ctx.in_scope_steps step)) [
      | inr out ↦ rw out (Grows-refl s)
      | inl within ↦ elim (Bool-cases (is_nonempty (rules_for rt.rules sobject (number_of step)))) [
        | inr empty ↦ rw (within, empty) (Grows-refl s)
        | inl some_rules ↦
            rw (within, some_rules, check_failures-state) (run_rules-Grows step v s _)
      ]
    ];
  }

  pub maybe_fire_flows-Adds : (sobject : String) → Adds (maybe_fire_flows py rt sobject)
  unfolding maybe_fire_flows
  maybe_fire_flows-Adds sobject = record {
    at = λ s.
        let key = flow_key py rt sobject s in
        elim (Bool-cases (member key s.ctx.flows_fired_for)) [
          | inl fired ↦ rw fired (Grows-refl s)
          | inr fresh ↦ rw fresh (
              Grows-trans (mark_fired-Grows py rt key s)
                ((run_step-Adds processes_and_flows false sobject).at (mark_fired py rt key s)))
        ];
  }

  ruleset adds_rules = (Adds->>, run_step-Adds, maybe_fire_flows-Adds)

  pub before_save-Adds : (sobject : String) → Adds (before_save py rt sobject)
  unfolding before_save
  before_save-Adds sobject = search adds_rules

  pub after_save-Adds : (sobject : String) → Adds (after_save py rt sobject)
  unfolding after_save
  after_save-Adds sobject = search adds_rules depth 7

  refire_cycle-Adds : (sobject : String) → Adds (refire_cycle py rt sobject)
  unfolding refire_cycle
  refire_cycle-Adds sobject = search adds_rules

  pub maybe_refire-Adds : (sobject : String) → Adds (maybe_refire py rt sobject)
  unfolding maybe_refire
  maybe_refire-Adds sobject = record {
    at = λ s. elim (Bool-cases (s.ctx.workflow_refire_flag && not s.ctx.refire_done)) [
      | inl due ↦ rw due (
          Grows-trans (start_refire-Grows py rt s)
            ((refire_cycle-Adds sobject).at (start_refire py rt s)))
      | inr not_due ↦ rw not_due (Grows-refl s)
    ];
  }

  pub pipeline-Adds : (sobject : String) → Adds (pipeline py rt sobject)
  unfolding pipeline
  pipeline-Adds sobject = Adds->> (before_save py rt sobject) _ (before_save-Adds sobject) (
      Adds->> (after_save py rt sobject) (maybe_refire py rt sobject) (after_save-Adds sobject)
        (maybe_refire-Adds sobject))

  pub guarded-Adds : (m : OoeM) → Adds m → Adds (guarded m)
  unfolding guarded
  guarded-Adds m h = record { at = λ s. Grows-trans (h.at s) (mark_aborted-Grows (m s).0 (m s).1) }
