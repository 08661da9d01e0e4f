-- ===== src/Ooe/Written.antt =====
-- When the re-fire cycle runs: exactly when a rule of step 12 changed a field (`_step` and
-- `execute_save` of runtime/ooe/state_machine.py).
use salesforce.Common.{
  ◌≡◌, refl, sym, ap, ◌∙◌, Bool, true, false, ◌||◌, List, [], ◌∷◌, ◌++◌, append-nil, append_assoc,
  arith, any, inl, inr, Bool-cases, String, is_nonempty, member,
}
use salesforce.Common.Exec.{ok, ◌>>=◌, ◌>>◌, >>=-eq-ok}
use salesforce.Rules.{Rule, RuleResult, rules_for}
use salesforce.Ooe.Step.{
  OoeStep, before_triggers, custom_validation, after_triggers, assignment_rules,
  auto_response_rules, workflow_rules, processes_and_flows, number_of, same_step, includes,
}
use salesforce.Ooe.Context.{Platform, OoeRuntime, Save}
use salesforce.Ooe.Pipeline.{
  OoeM, run_rule, run_rules, flagged, check_failures-state, run_step, maybe_fire_flows, mark_fired,
  flow_key,
}
use salesforce.Ooe.Execute.{before_save, after_save, maybe_refire, pipeline}
use salesforce.Ooe.Preserves.{Preserves, Preserves->>, flag_of, done_of, flag-run_step}
use salesforce.Ooe.Refire.{maybe_refire-rounds, done-before_save, done-after_save}

-- A result that changes a field.
abbrev pub writes : RuleResult → Bool
writes r = is_nonempty r.field_mutations

-- What a run of rules of step 12 did to the results and the flag.
abbrev pub Wrote : Save → Save → List RuleResult → Type 0
Wrote s u written =
    (u.ctx.rule_results ≡ s.ctx.rule_results ++ written)
    × (flag_of u ≡ (flag_of s || any writes written))

run_rules-Wrote :
    (s : Save) (rs : List Rule)
    → (written : List RuleResult) × Wrote s (run_rules workflow_rules false s rs) written
unfolding run_rules any
run_rules-Wrote s [] = ([], (sym (append-nil s.ctx.rule_results), ground arith))
run_rules-Wrote s (r ∷ rs) =
    let s' = run_rule workflow_rules false s r in
    let (written, (e, f)) = run_rules-Wrote s' rs in
    let (result, g, h) = run_rule-Wrote s r in
    (
      result ∷ written,
      (
        e ∙ ap (λ xs. xs ++ written) g ∙ append_assoc s.ctx.rule_results (result ∷ []) written,
        ground (arith, f, h),
      ),
    )
  where
    run_rule-Wrote :
        (s : Save) (r : Rule)
        → let u = run_rule workflow_rules false s r in
          (result : RuleResult) × (u.ctx.rule_results ≡ s.ctx.rule_results ++ result ∷ [])
          × (flag_of u ≡ (flag_of s || writes result))
    run_rule-Wrote s r = unfold run_rule flagged same_step in (_, refl, refl)

module _ (py : Platform) (rt : OoeRuntime) (sobject : String) where
  run_step-Wrote :
      (s : Save)
      → (written : List RuleResult) × Wrote s
          (run_step py rt workflow_rules false sobject s).1
          written
  unfolding run_step any
  run_step-Wrote s = elim (Bool-cases (includes s.ctx.in_scope_steps workflow_rules)) [
    | inr out ↦ rw out ([], (sym (append-nil s.ctx.rule_results), ground arith))
    | inl within ↦
        elim (Bool-cases (is_nonempty (rules_for rt.rules sobject (number_of workflow_rules)))) [
          | inr empty ↦ rw (within, empty) ([], (sym (append-nil s.ctx.rule_results), ground arith))
          | inl some_rules ↦ rw (within, some_rules, check_failures-state) (run_rules-Wrote s _)
        ]
  ]

  flag-fire : Preserves flag_of (maybe_fire_flows py rt sobject)
  unfolding maybe_fire_flows mark_fired same_step
  flag-fire = record {
    at = λ s. elim (Bool-cases (member (flow_key py rt sobject s) s.ctx.flows_fired_for)) [
      | inl fired ↦ rw fired refl
      | inr fresh ↦ rw fresh ((flag-run_step py rt sobject processes_and_flows false refl).at _)
    ];
  }

  -- Steps 5 to 11.
  unfoldable pub steps_to_eleven : OoeM
  steps_to_eleven =
      before_save py rt sobject
      >> (run_step py rt after_triggers false sobject
          >> (run_step py rt assignment_rules false sobject
              >> run_step py rt auto_response_rules false sobject))

  flag-steps_to_eleven : Preserves flag_of steps_to_eleven
  unfolding steps_to_eleven before_save same_step
  flag-steps_to_eleven =
      let one = λ (step : OoeStep) (e : same_step step workflow_rules ≡ false).
        flag-run_step py rt sobject step false e in
      Preserves->> flag_of _ _
        (Preserves->> flag_of _ _ (one before_triggers refl)
          (flag-run_step py rt sobject custom_validation true refl))
        (Preserves->> flag_of _ _ (one after_triggers refl)
          (Preserves->> flag_of _ _ (one assignment_rules refl) (one auto_response_rules refl)))

  step->> : (m n : OoeM) (s u : Save) → m s ≡ (ok tt, u) → (m >> n) s ≡ n u
  unfolding ◌>>=◌
  step->> m n s u e = rw e refl

  -- A pipeline that returns, in a transaction that has had no re-fire cycle, ends with the mark of the
  -- cycle exactly when the re-fire flag was set before it, or step 12, run from where steps 5 to 11 led,
  -- added a result that changes a field. The flag can be set before it by a child save that raised after
  -- its step 12.
  pub refire_when_written :
      (s t : Save)
      → done_of s ≡ false
      → pipeline py rt sobject s ≡ (ok tt, t)
      → (w : Save) × (u : Save) × (written : List RuleResult) × (steps_to_eleven s ≡ (ok tt, w))
        × (run_step py rt workflow_rules false sobject w ≡ (ok tt, u))
        × (u.ctx.rule_results ≡ w.ctx.rule_results ++ written)
        × (done_of t ≡ (flag_of s || any writes written))
  unfolding pipeline after_save steps_to_eleven
  refire_when_written s t undone q =
      let refire = maybe_refire py rt sobject in
      let fire = maybe_fire_flows py rt sobject in
      let nine = run_step py rt after_triggers false sobject in
      let ten = run_step py rt assignment_rules false sobject in
      let eleven = run_step py rt auto_response_rules false sobject in
      let twelve = run_step py rt workflow_rules false sobject in
      let (_, a, e, f) =
        >>=-eq-ok (before_save py rt sobject) (λ _. after_save py rt sobject >> refire) s q in
      let (_, b, g, h) = >>=-eq-ok (after_save py rt sobject) (λ _. refire) a f in
      let (_, c, e9, k9) = >>=-eq-ok nine (λ _. ten >> (eleven >> (twelve >> fire))) a g in
      let (_, d, e10, k10) = >>=-eq-ok ten (λ _. eleven >> (twelve >> fire)) c k9 in
      let (_, w, e11, k11) = >>=-eq-ok eleven (λ _. twelve >> fire) d k10 in
      let (_, u, e12, k12) = >>=-eq-ok twelve (λ _. fire) w k11 in
      let reached : steps_to_eleven s ≡ (ok tt, w) =
        step->> (before_save py rt sobject) _ s a e
        ∙ step->> nine _ a c e9
        ∙ step->> ten _ c d e10
        ∙ e11 in
      let (written, (results, flag)) = run_step-Wrote w in
      let undone_b : done_of b ≡ false =
        ap (λ p. done_of p.1) (sym g)
        ∙ (done-after_save py rt sobject).at a
        ∙ ap (λ p. done_of p.1) (sym e)
        ∙ (done-before_save py rt sobject).at s
        ∙ undone in
      let (_, done_t, _) = maybe_refire-rounds py rt sobject b t undone_b h in
      let flag_w : flag_of w ≡ flag_of s =
        ap (λ p. flag_of p.1) (sym reached) ∙ flag-steps_to_eleven.at s in
      (
        w,
        u,
        written,
        reached,
        e12,
        ap (λ p. p.1.ctx.rule_results) (sym e12) ∙ results,
        done_t
            ∙ ap (λ p. flag_of p.1) (sym k12)
            ∙ flag-fire.at u
            ∙ ap (λ p. flag_of p.1) (sym e12)
            ∙ flag
            ∙ ap (λ b. b || any writes written) flag_w,
      )
