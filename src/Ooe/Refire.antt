-- ===== src/Ooe/Refire.antt =====
-- The rounds of a whole save: every step once, and steps 5 and 9 a second time if step 12 changed
-- a field (`execute_save` of runtime/ooe/state_machine.py).
use mathlib.Core.List.{Perm}
use mathlib.Core.List.Perm
use salesforce.Common.{
  ◌≡◌, ◌≢◌, refl, sym, ap, subst, ◌∙◌, Bool, true, false, not, ◌&&◌, Option, String, List, [], ◌++◌,
  append-nil, inl, inr, Bool-cases, member, if◌then◌else◌, arith,
}
use salesforce.Common.Exec.{Outcome, ok, raise, ◌>>◌, >>=-eq-ok}
use salesforce.Value.{Record}
use salesforce.Ooe.Step.{
  OoeStep, before_triggers, custom_validation, after_triggers, assignment_rules,
  auto_response_rules, workflow_rules, processes_and_flows,
}
use salesforce.Ooe.Context.{OoeError, Platform, OoeRuntime, Save, new_context, is_setup_object}
use salesforce.Ooe.Pipeline.{OoeM, maybe_fire_flows, mark_fired, flow_key}
use salesforce.Ooe.Preserves.{
  Preserves, Preserves->>, flag_of, done_of, fired_of, done-run_step, fired-run_step,
  flag-refire_cycle, done-refire_cycle,
}
use salesforce.Ooe.Rounds.{
  result_ids, step_ids, run_step-Evaluates, before_save-Evaluates, refire_cycle-Evaluates,
}
use salesforce.Ooe.Fresh.{EvaluatesFresh, EvaluatesFresh->>, Perm-chain}
use salesforce.Ooe.Entry.{touched, record_object_class-ok}
use salesforce.Ooe.Execute.{
  before_save, after_save, start_refire, maybe_refire, pipeline, guarded, mark_aborted, enter,
  record_object_class, save_in, execute_top, txn_id, touch,
}

raise-ne-ok : (e : OoeError) → ◌≢◌ {A = Outcome OoeError Unit} (raise e) (ok tt)
raise-ne-ok e q = cc

-- The rules that a save of an object evaluates, with and without the re-fire cycle.
abbrev pub save_ids : OoeRuntime → String → Bool → List String
save_ids rt sobject refired =
    (step_ids rt sobject before_triggers ++ step_ids rt sobject custom_validation)
    ++ (step_ids rt sobject after_triggers
        ++ (step_ids rt sobject assignment_rules
            ++ (step_ids rt sobject auto_response_rules
                ++ (step_ids rt sobject workflow_rules
                    ++ step_ids rt sobject processes_and_flows))))
    ++ (if refired
        then step_ids rt sobject before_triggers ++ step_ids rt sobject after_triggers
        else [])

abbrev second : OoeRuntime → String → Bool → List String
second rt sobject refired =
    if refired
    then step_ids rt sobject before_triggers ++ step_ids rt sobject after_triggers
    else []

touched-views :
    (sobject : String) (s : Save)
    → (fired_of (touched sobject s) ≡ fired_of s)
      × (done_of (touched sobject s) ≡ done_of s)
      × (result_ids (touched sobject s) ≡ result_ids s)
unfolding touch
touched-views sobject s = elim (Bool-cases (is_setup_object sobject)) [
  | inl setup ↦ rw setup (refl, refl, refl)
  | inr other ↦ rw other (refl, refl, refl)
]

module _ (py : Platform) (rt : OoeRuntime) (sobject : String) where
  fire-Fresh :
      EvaluatesFresh (maybe_fire_flows py rt sobject) (step_ids rt sobject processes_and_flows)
  unfolding maybe_fire_flows mark_fired member
  fire-Fresh = record {
    at = λ s t fresh.
        let unfired : member (flow_key py rt sobject s) (fired_of s) ≡ false =
          ap (member (flow_key py rt sobject s)) fresh in
        rw unfired (
          (run_step-Evaluates py rt sobject processes_and_flows false).at
            (mark_fired py rt (flow_key py rt sobject s) s) t);
  }

  done-fire : Preserves done_of (maybe_fire_flows py rt sobject)
  unfolding maybe_fire_flows mark_fired
  done-fire = record {
    at = λ s. elim (Bool-cases (member (flow_key py rt sobject s) s.ctx.flows_fired_for)) [
      | inl fired ↦ rw fired refl
      | inr fresh ↦ rw fresh ((done-run_step py rt sobject processes_and_flows false).at _)
    ];
  }

  after_save-Fresh : EvaluatesFresh (after_save py rt sobject) (
      step_ids rt sobject after_triggers
      ++ (step_ids rt sobject assignment_rules
          ++ (step_ids rt sobject auto_response_rules
              ++ (step_ids rt sobject workflow_rules ++ step_ids rt sobject processes_and_flows))))
  unfolding after_save
  after_save-Fresh =
      let one = λ (step : OoeStep). run_step-Evaluates py rt sobject step false in
      let same = λ (step : OoeStep). fired-run_step py rt sobject step false in
      EvaluatesFresh->> _ _ _ _ (one after_triggers) (same after_triggers) (
        EvaluatesFresh->> _ _ _ _ (one assignment_rules) (same assignment_rules) (
          EvaluatesFresh->> _ _ _ _ (one auto_response_rules) (same auto_response_rules)
            (EvaluatesFresh->> _ _ _ _ (one workflow_rules) (same workflow_rules) fire-Fresh)))

  ruleset done_rules = (Preserves->>, done-run_step, done-fire)

  pub done-before_save : Preserves done_of (before_save py rt sobject)
  unfolding before_save
  done-before_save = search done_rules

  fired-before_save : Preserves fired_of (before_save py rt sobject)
  unfolding before_save
  fired-before_save = search (Preserves->>, fired-run_step)

  pub done-after_save : Preserves done_of (after_save py rt sobject)
  unfolding after_save
  done-after_save = search done_rules depth 7

  -- The re-fire cycle, from a transaction in which it has not run.
  pub maybe_refire-rounds :
      (u t : Save)
      → done_of u ≡ false
      → maybe_refire py rt sobject u ≡ (ok tt, t)
      → (flag_of t ≡ false)
        × (done_of t ≡ flag_of u)
        × Perm (result_ids t) (
            result_ids u
            ++ (if flag_of u
                then step_ids rt sobject before_triggers ++ step_ids rt sobject after_triggers
                else []))
  unfolding maybe_refire start_refire
  maybe_refire-rounds u t fresh = elim (Bool-cases (flag_of u)) [
    | inl flagged ↦
        let due : (flag_of u && not (done_of u)) ≡ true = ground arith in
        rw due (λ q. (
          ap (λ p. flag_of p.1) (sym q)
              ∙ (flag-refire_cycle py rt sobject).at (start_refire py rt u),
          ap (λ p. done_of p.1) (sym q)
              ∙ (done-refire_cycle py rt sobject).at (start_refire py rt u)
              ∙ sym flagged,
          subst (λ b. Perm (result_ids t) (result_ids u ++ second rt sobject b)) (sym flagged)
              ((refire_cycle-Evaluates py rt sobject).at (start_refire py rt u) t q),
        ))
    | inr unflagged ↦
        let not_due : (flag_of u && not (done_of u)) ≡ false = ground arith in
        rw not_due (λ q.
          let same : t ≡ u = ap (λ p. p.1) (sym q) in
          (
            ap flag_of same ∙ unflagged,
            ap done_of same ∙ fresh ∙ sym unflagged,
            subst (λ b. Perm (result_ids t) (result_ids u ++ second rt sobject b)) (sym unflagged)
                (subst (λ x. Perm (result_ids t) (result_ids x ++ [])) same
                  (rw append-nil (Perm.refl _))),
          ))
  ]

  -- A save in a transaction in which no flow has fired and no re-fire cycle has run.
  pipeline-rounds :
      (s t : Save)
      → fired_of s ≡ []
      → done_of s ≡ false
      → pipeline py rt sobject s ≡ (ok tt, t)
      → (flag_of t ≡ false) × Perm (result_ids t) (result_ids s ++ save_ids rt sobject (done_of t))
  unfolding pipeline
  pipeline-rounds s t fresh undone q =
      let (a, u, e, f) = >>=-eq-ok (before_save py rt sobject) _ s q in
      let (b, w, g, h) = >>=-eq-ok (after_save py rt sobject) _ u f in
      let fresh_u : fired_of u ≡ [] =
        ap (λ p. fired_of p.1) (sym e) ∙ (fired-before_save).at s ∙ fresh in
      let undone_w : done_of w ≡ false =
        ap (λ p. done_of p.1) (sym g)
        ∙ (done-after_save).at u
        ∙ ap (λ p. done_of p.1) (sym e)
        ∙ (done-before_save).at s
        ∙ undone in
      let (flag_t, done_t, perm_t) = maybe_refire-rounds w t undone_w h in
      (
        flag_t,
        rw done_t (
            Perm-chain _ _ _ _ perm_t ((after_save-Fresh).at u w fresh_u g)
              ((before_save-Evaluates py rt sobject).at s u e)),
      )

  pub guarded-ok : (m : OoeM) (s t : Save) → guarded m s ≡ (ok tt, t) → m s ≡ (ok tt, t)
  unfolding guarded
  guarded-ok m s t = go (m s).0 (m s).1
    where
      go :
          (o : Outcome OoeError Unit) (u : Save)
          → ◌≡◌ {A = Outcome OoeError Unit × Save} (o, mark_aborted o u) (ok tt, t)
          → ◌≡◌ {A = Outcome OoeError Unit × Save} (o, u) (ok tt, t)
      go (ok tt) u q = q
      go (raise e) u q = absurd (raise-ne-ok e (ap (λ p. p.0) q))

  -- A top-level save that returns has evaluated each rule of the object's steps 5, 6 and 9 to 13
  -- exactly once, and those of steps 5 and 9 once more exactly if it ended with the mark of the
  -- re-fire cycle; it ends with the re-fire flag cleared.
  pub execute_top-rounds :
      (record_ : Record) (transaction_id : Option String) (new_id : String) (t : Save)
      → execute_top py rt sobject record_ transaction_id new_id ≡ (ok tt, t)
      → (flag_of t ≡ false) × Perm (result_ids t) (save_ids rt sobject (done_of t))
  unfolding execute_top save_in new_context enter
  execute_top-rounds record_ transaction_id new_id t q =
      let s : Save = record {
        ctx = new_context rt sobject record_ (txn_id py rt transaction_id new_id);
        record_ = record_;
      } in
      let (a, u, e, f) =
        >>=-eq-ok (enter rt false)
          (λ _. record_object_class sobject >> guarded (pipeline py rt sobject)) s q in
      let (b, w, g, h) =
        >>=-eq-ok (record_object_class sobject) (λ _. guarded (pipeline py rt sobject)) u f in
      let opened : touched sobject s ≡ w =
        ap (touched sobject) (ap (λ p. p.1) e) ∙ (record_object_class-ok sobject u g).0 in
      let (fired, undone, results) = touched-views sobject s in
      let (flag, perm) =
        pipeline-rounds w t (ap fired_of (sym opened) ∙ fired) (ap done_of (sym opened) ∙ undone)
          (guarded-ok _ w t h) in
      (
        flag,
        subst (λ names. Perm (result_ids t) (names ++ save_ids rt sobject (done_of t)))
            (ap result_ids (sym opened) ∙ results) perm,
      )
