-- ===== src/Ooe/Order.antt =====
-- The order of the rules of a step: `_maybe_shuffle` and the loop of `_step` in
-- runtime/ooe/state_machine.py.
use mathlib.Core.List.{map-append, Perm}
use mathlib.Core.List.Perm
use salesforce.Common.{
  ◌≡◌, refl, Bool, true, false, String, List, [], ◌∷◌, ◌++◌, map, append-nil, append_assoc, inl,
  inr, Bool-cases, le_text, is_nonempty,
}
use salesforce.Rules.{Rule, rules_for}
use salesforce.Rules.Outcomes.{rule_id-evaluate}
use salesforce.Ooe.Step.{OoeStep, number_of, includes}
use salesforce.Ooe.Context.{TransactionContext, Platform, OoeRuntime, Save}
use salesforce.Ooe.Pipeline.{
  insert_rule, sort_rules, run_rule, run_rules, check_failures-state, maybe_shuffle, run_step,
}

insert_rule-perm : (r : Rule) (rs : List Rule) → Perm (insert_rule r rs) (r ∷ rs)
unfolding insert_rule
insert_rule-perm r [] = Perm.refl (r ∷ [])
insert_rule-perm r (q ∷ qs) = elim (Bool-cases (le_text r.rule_id q.rule_id)) [
  | inl before ↦ rw before (Perm.refl (r ∷ q ∷ qs))
  | inr after ↦ rw after (Perm.trans (Perm.cons q (insert_rule-perm r qs)) (Perm.swap r q qs))
]

sort_rules-perm : (rs : List Rule) → Perm (sort_rules rs) rs
unfolding sort_rules
sort_rules-perm [] = Perm.refl []
sort_rules-perm (r ∷ rs) =
    Perm.trans (insert_rule-perm r (sort_rules rs)) (Perm.cons r (sort_rules-perm rs))

run_rule-ids :
    (step : OoeStep) (v : Bool) (s : Save) (r : Rule)
    → map (λ x. x.rule_id) (run_rule step v s r).ctx.rule_results
      ≡ map (λ x. x.rule_id) s.ctx.rule_results ++ r.rule_id ∷ []
unfolding run_rule
run_rule-ids step v s r = rw (map-append, rule_id-evaluate) refl

run_rules-ids :
    (step : OoeStep) (v : Bool) (s : Save) (rs : List Rule)
    → map (λ x. x.rule_id) (run_rules step v s rs).ctx.rule_results
      ≡ map (λ x. x.rule_id) s.ctx.rule_results ++ map (λ x. x.rule_id) rs
unfolding run_rules
run_rules-ids step v s [] = rw append-nil refl
run_rules-ids step v s (r ∷ rs) =
    rw (run_rules-ids step v (run_rule step v s r) rs, run_rule-ids, append_assoc) refl

module _ (py : Platform) (rt : OoeRuntime) where
  maybe_shuffle-perm :
      (rs : List Rule) (c : TransactionContext) → Perm (maybe_shuffle py rt rs c) rs
  unfolding maybe_shuffle
  maybe_shuffle-perm rs c = go (sort_rules rs) (sort_rules-perm rs)
    where
      go :
          (qs : List Rule)
          → Perm qs rs
          → Perm
              (elim qs [
                | [] ↦ []
                | r ∷ [] ↦ r ∷ []
                | r ∷ q ∷ more ↦ py.shuffle rt.seed c.transaction_id (r ∷ q ∷ more)
              ])
              rs
      go [] p = p
      go (r ∷ []) p = p
      go (r ∷ q ∷ more) p = Perm.trans (py.shuffle_perm rt.seed c.transaction_id _) p

  -- A step in scope evaluates each rule that targets it exactly once, in some order, whether it
  -- returns or raises: the names of its results are, after those that were there, the names of its
  -- rules, rearranged.
  pub run_step-evaluates_each_once :
      (step : OoeStep) (v : Bool) (sobject : String) (s : Save)
      → includes s.ctx.in_scope_steps step ≡ true
      → Perm (map (λ x. x.rule_id) (run_step py rt step v sobject s).1.ctx.rule_results) (
          map (λ x. x.rule_id) s.ctx.rule_results
          ++ map (λ x. x.rule_id) (rules_for rt.rules sobject (number_of step)))
  unfolding run_step
  run_step-evaluates_each_once step v sobject s within =
      elim (Bool-cases (is_nonempty (rules_for rt.rules sobject (number_of step)))) [
        | inr empty ↦ rw (within, empty, empty_of _ empty, append-nil) (Perm.refl _)
        | inl some_rules ↦
            rw (within, some_rules, check_failures-state, run_rules-ids)
              (Perm.append_left (map (λ x. x.rule_id) s.ctx.rule_results)
                (Perm.map (λ x. x.rule_id) (maybe_shuffle-perm _ s.ctx)))
      ]
    where
      empty_of : (rs : List Rule) → is_nonempty rs ≡ false → rs ≡ []
      empty_of [] h = refl
      empty_of (r ∷ rs) h = cc
