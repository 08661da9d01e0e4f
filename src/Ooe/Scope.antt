-- ===== src/Ooe/Scope.antt =====
-- The steps that a save needs in its scope (`_step` and `execute_save` of
-- runtime/ooe/state_machine.py).
use salesforce.Common.{
  ◌≡◌, refl, sym, ap, subst, ◌∙◌, Bool, true, false, Option, String, List, inl, inr, Bool-cases,
}
use salesforce.Common.Exec.{ok, ◌>>◌, >>=-eq-ok}
use salesforce.Value.{Record}
use salesforce.Ooe.Step.{
  OoeStep, before_triggers, custom_validation, after_triggers, assignment_rules,
  auto_response_rules, workflow_rules, includes,
}
use salesforce.Ooe.Context.{Platform, OoeRuntime, Save, new_context, is_setup_object}
use salesforce.Ooe.Pipeline.{OoeM, run_step}
use salesforce.Ooe.Entry.{touched, record_object_class-ok}
use salesforce.Ooe.Grows.{run_step-Adds}
use salesforce.Ooe.Rounds.{run_step-scope}
use salesforce.Ooe.Refire.{guarded-ok}
use salesforce.Ooe.Execute.{
  before_save, after_save, maybe_refire, pipeline, guarded, enter, record_object_class, save_in,
  execute_top, touch, txn_id,
}

-- The steps that a save always takes, whether or not a rule targets them.
abbrev pub HasScope : List OoeStep → Type 0
HasScope steps =
    (includes steps before_triggers ≡ true)
    × (includes steps custom_validation ≡ true)
    × (includes steps after_triggers ≡ true)
    × (includes steps assignment_rules ≡ true)
    × (includes steps auto_response_rules ≡ true)
    × (includes steps workflow_rules ≡ true)

-- A step that returns, followed by an action that returns.
record StepThen (py : Platform) (rt : OoeRuntime) (step : OoeStep) (v : Bool) (sobject : String)
    (n : OoeM) (s t : Save) : Type 0 where
  between : Save
  here : includes s.ctx.in_scope_steps step ≡ true
  kept : between.ctx.in_scope_steps ≡ s.ctx.in_scope_steps
  rest : n between ≡ (ok tt, t)

module _ (py : Platform) (rt : OoeRuntime) (sobject : String) where
  step_then :
      (step : OoeStep) (v : Bool) (n : OoeM) (s t : Save)
      → (run_step py rt step v sobject >> n) s ≡ (ok tt, t)
      → StepThen py rt step v sobject n s t
  step_then step v n s t q =
      let (a, u, e, f) = >>=-eq-ok (run_step py rt step v sobject) (λ _. n) s q in
      record {
        between = u;
        here = run_step-scope py rt sobject step v s u e;
        kept =
            ap (λ p. p.1.ctx.in_scope_steps) (sym e)
            ∙ ((run_step-Adds py rt step v sobject).at s).scope;
        rest = f;
      }

  after_save-scope :
      (s t : Save)
      → after_save py rt sobject s ≡ (ok tt, t)
      → (includes s.ctx.in_scope_steps after_triggers ≡ true)
        × (includes s.ctx.in_scope_steps assignment_rules ≡ true)
        × (includes s.ctx.in_scope_steps auto_response_rules ≡ true)
        × (includes s.ctx.in_scope_steps workflow_rules ≡ true)
  unfolding after_save
  after_save-scope s t q =
      let a = step_then after_triggers false _ s t q in
      let b = step_then assignment_rules false _ a.between t a.rest in
      let c = step_then auto_response_rules false _ b.between t b.rest in
      let d = step_then workflow_rules false _ c.between t c.rest in
      let kept_b = b.kept ∙ a.kept in
      let kept_c = c.kept ∙ kept_b in
      (
        a.here,
        ap (λ x. includes x assignment_rules) (sym a.kept) ∙ b.here,
        ap (λ x. includes x auto_response_rules) (sym kept_b) ∙ c.here,
        ap (λ x. includes x workflow_rules) (sym kept_c) ∙ d.here,
      )

  pipeline-scope :
      (s t : Save) → pipeline py rt sobject s ≡ (ok tt, t) → HasScope s.ctx.in_scope_steps
  unfolding pipeline before_save
  pipeline-scope s t q =
      let (_, u, e, f) =
        >>=-eq-ok (before_save py rt sobject)
          (λ _. after_save py rt sobject >> maybe_refire py rt sobject) s q in
      let (_, w, g, h) =
        >>=-eq-ok (after_save py rt sobject) (λ _. maybe_refire py rt sobject) u f in
      let a =
        step_then before_triggers false (run_step py rt custom_validation true sobject) s u e in
      let six = run_step-scope py rt sobject custom_validation true a.between u a.rest in
      let kept =
        ap (λ p. p.1.ctx.in_scope_steps) (sym a.rest)
        ∙ ((run_step-Adds py rt custom_validation true sobject).at a.between).scope
        ∙ a.kept in
      let (nine, ten, eleven, twelve) = after_save-scope u w g in
      (
        a.here,
        ap (λ x. includes x custom_validation) (sym a.kept) ∙ six,
        ap (λ x. includes x after_triggers) (sym kept) ∙ nine,
        ap (λ x. includes x assignment_rules) (sym kept) ∙ ten,
        ap (λ x. includes x auto_response_rules) (sym kept) ∙ eleven,
        ap (λ x. includes x workflow_rules) (sym kept) ∙ twelve,
      )

  touched-scope : (s : Save) → (touched sobject s).ctx.in_scope_steps ≡ s.ctx.in_scope_steps
  unfolding touch
  touched-scope s = elim (Bool-cases (is_setup_object sobject)) [
    | inl setup ↦ rw setup refl
    | inr other ↦ rw other refl
  ]

  -- A top-level save that returns had steps 5, 6, 9, 10, 11 and 12 in the scope of its runtime,
  -- whether or not a rule targets them.
  pub execute_top-scope :
      (record_ : Record) (transaction_id : Option String) (new_id : String) (t : Save)
      → execute_top py rt sobject record_ transaction_id new_id ≡ (ok tt, t)
      → HasScope rt.in_scope_steps
  unfolding execute_top save_in new_context enter
  execute_top-scope record_ transaction_id new_id t q =
      let s : Save = record {
        ctx = new_context rt sobject record_ (txn_id py rt transaction_id new_id);
        record_ = record_;
      } in
      let (a, u, e, f) =
        >>=-eq-ok (enter rt false)
          (λ _. record_object_class sobject >> guarded (pipeline py rt sobject)) s q in
      let (b, w, g, h) =
        >>=-eq-ok (record_object_class sobject) (λ _. guarded (pipeline py rt sobject)) u f in
      let opened : touched sobject s ≡ w =
        ap (touched sobject) (ap (λ p. p.1) e) ∙ (record_object_class-ok sobject u g).0 in
      subst HasScope (ap (λ (x : Save). x.ctx.in_scope_steps) (sym opened) ∙ touched-scope s)
        (pipeline-scope w t (guarded-ok py rt sobject (pipeline py rt sobject) w t h))
