-- ===== src/Ooe/Cascade.antt =====
-- Saves that share a context: the depth of cascades and the mix of setup and other objects
-- (`execute_save` with `parent_ctx`, in runtime/ooe/state_machine.py).
use salesforce.Common.{
  suc, ◌+◌, ◌≤◌, ◌≡◌, ◌⊎◌, refl, sym, ap, ap₂, ◌∙◌, Bool, true, false, not, ◌&&◌, String, List, [],
  ◌∷◌, inl, inr, Bool-cases, length, arith,
}
use salesforce.Common.Exec.{Outcome, ok, raise, ◌>>=◌, ◌>>◌, >>=-eq-ok}
use salesforce.Value.{Record}
use salesforce.Ooe.Context.{
  OoeError, cascade_depth_exceeded, Platform, OoeRuntime, Save, TransactionContext, is_setup_object,
}
use salesforce.Ooe.Entry.{touched, deeper, record_object_class-ok, enter_child-ok, enter_child-over}
use salesforce.Ooe.Grows.{Grows, pipeline-Adds, guarded-Adds}
use salesforce.Ooe.Execute.{
  touch, enter, record_object_class, guarded, pipeline, save_in, execute_child,
}

touched-deeper :
    (sobject : String) (s : Save)
    → let u = touch (is_setup_object sobject) s.ctx in
      let w = touched sobject (deeper s) in
      (w.ctx.cascade_depth ≡ suc s.ctx.cascade_depth)
      × (w.ctx.setup_touched ≡ u.setup_touched)
      × (w.ctx.nonsetup_touched ≡ u.nonsetup_touched)
unfolding touch
touched-deeper sobject s = elim (Bool-cases (is_setup_object sobject)) [
  | inl setup ↦ rw setup (refl, refl, refl)
  | inr other ↦ rw other (refl, refl, refl)
]

-- A context touched by setup objects takes no other object, and the other way round.
touch-setup :
    (b : Bool) (c : TransactionContext)
    → c.setup_touched ≡ true
    → ((touch b c).setup_touched && (touch b c).nonsetup_touched) ≡ false
    → (b ≡ true) × ((touch b c).setup_touched ≡ true)
unfolding touch
touch-setup true c h k = (refl, refl)
touch-setup false c h k = ground arith

touch-nonsetup :
    (b : Bool) (c : TransactionContext)
    → c.nonsetup_touched ≡ true
    → ((touch b c).setup_touched && (touch b c).nonsetup_touched) ≡ false
    → (b ≡ false) × ((touch b c).nonsetup_touched ≡ true)
unfolding touch
touch-nonsetup true c h k = ground arith
touch-nonsetup false c h k = (refl, refl)

touch-some :
    (b : Bool) (c : TransactionContext)
    → ((b ≡ true) × ((touch b c).setup_touched ≡ true))
      ⊎ ((b ≡ false) × ((touch b c).nonsetup_touched ≡ true))
unfolding touch
touch-some true c = inl (refl, refl)
touch-some false c = inr (refl, refl)

abbrev pub all_setup : List (String × Record) → Bool
all_setup [] = true
all_setup ((sobject, r) ∷ more) = is_setup_object sobject && all_setup more

abbrev pub none_setup : List (String × Record) → Bool
none_setup [] = true
none_setup ((sobject, r) ∷ more) = not (is_setup_object sobject) && none_setup more

module _ (py : Platform) (rt : OoeRuntime) where
  -- Saves of records one after the other in one context, as the caller makes them: the first that
  -- raises is the last.
  unfoldable pub execute_children :
      List (String × Record) → TransactionContext → Outcome OoeError (Unit {0}) × TransactionContext
  execute_children [] c = (ok tt, c)
  execute_children ((sobject, r) ∷ more) c =
      let (o, s) = execute_child py rt sobject r c in
      elim o [ ok _ ↦ execute_children more s.ctx | raise e ↦ (raise e, s.ctx) ]

  -- What one child save that returned did to the depth and the classes.
  pub execute_child-ok :
      (sobject : String) (r : Record) (c : TransactionContext) {t : Save}
      → execute_child py rt sobject r c ≡ (ok tt, t)
      → let u = touch (is_setup_object sobject) c in
        (t.ctx.cascade_depth ≡ suc c.cascade_depth)
        × (suc c.cascade_depth ≤ rt.cascade_depth_limit)
        × (t.ctx.setup_touched ≡ u.setup_touched)
        × (t.ctx.nonsetup_touched ≡ u.nonsetup_touched)
        × ((u.setup_touched && u.nonsetup_touched) ≡ false)
  unfolding execute_child save_in enter
  execute_child-ok sobject r c {t} q =
      let s : Save = record { ctx = c; record_ = r } in
      let (a, u, e, f) =
        >>=-eq-ok (enter rt true)
          (λ _. record_object_class sobject >> guarded (pipeline py rt sobject)) s q in
      let (b, w, g, h) =
        >>=-eq-ok (record_object_class sobject) (λ _. guarded (pipeline py rt sobject)) u f in
      let (deep, fits) = enter_child-ok rt s e in
      let (class, clear) = record_object_class-ok sobject u g in
      let grown : Grows w t =
        rw (ap (λ p. p.1) h) at
          ((guarded-Adds py rt (pipeline py rt sobject) (pipeline-Adds py rt sobject)).at w) in
      let w_is : touched sobject (deeper s) ≡ w = ap (touched sobject) deep ∙ class in
      let (depth, setup, nonsetup) = touched-deeper sobject s in
      let setup_t = grown.setup ∙ ap (λ (x : Save). x.ctx.setup_touched) (sym w_is) ∙ setup in
      let nonsetup_t =
        grown.nonsetup ∙ ap (λ (x : Save). x.ctx.nonsetup_touched) (sym w_is) ∙ nonsetup in
      (
        grown.depth ∙ ap (λ (x : Save). x.ctx.cascade_depth) (sym w_is) ∙ depth,
        fits,
        setup_t,
        nonsetup_t,
        (ap₂ ◌&&◌ (sym setup) (sym nonsetup)
            ∙ ap (λ (x : Save). x.ctx.setup_touched && x.ctx.nonsetup_touched) w_is
            ∙ clear),
      )

  continue-children :
      (o : Outcome OoeError Unit) (s : Save) (more : List (String × Record))
      {d : TransactionContext}
      → ◌≡◌ {A = Outcome OoeError Unit × TransactionContext}
          (elim o [ ok _ ↦ execute_children more s.ctx | raise e ↦ (raise e, s.ctx) ])
          (ok tt, d)
      → (o ≡ ok tt) × (execute_children more s.ctx ≡ (ok tt, d))
  continue-children (ok tt) s more q = (refl, q)
  continue-children (raise e) s more q = cc

  children-step :
      (sobject : String) (r : Record) (more : List (String × Record)) (c d : TransactionContext)
      → execute_children ((sobject, r) ∷ more) c ≡ (ok tt, d)
      → (t : Save) × (execute_child py rt sobject r c ≡ (ok tt, t))
        × (execute_children more t.ctx ≡ (ok tt, d))
  unfolding execute_children
  children-step sobject r more c d q =
      let p = execute_child py rt sobject r c in
      let (o, rest) = continue-children p.0 p.1 more q in (p.1, ap (λ x. (x, p.1)) o, rest)

  -- Child saves that all return, one after the other in a context whose depth is within the limit,
  -- have raised its depth by their number, and it is still within the limit.
  pub children_depth :
      (saves : List (String × Record)) (c d : TransactionContext)
      → c.cascade_depth ≤ rt.cascade_depth_limit
      → execute_children saves c ≡ (ok tt, d)
      → (d.cascade_depth ≡ c.cascade_depth + length saves)
        × (d.cascade_depth ≤ rt.cascade_depth_limit)
  unfolding execute_children
  children_depth [] c d h q = let same : c ≡ d = ap (λ p. p.1) q in rw (← same) (omega arith, h)
  children_depth ((sobject, r) ∷ more) c d h q =
      let (t, first, rest) = children-step sobject r more c d q in
      let (deep, fits, _, _, _) = execute_child-ok sobject r c first in
      let ih = children_depth more t.ctx d (omega arith) rest in (omega arith, ih.1)

  children-setup :
      (saves : List (String × Record)) (c d : TransactionContext)
      → c.setup_touched ≡ true
      → execute_children saves c ≡ (ok tt, d)
      → all_setup saves ≡ true
  children-setup [] c d h q = refl
  children-setup ((sobject, r) ∷ more) c d h q =
      let (t, first, rest) = children-step sobject r more c d q in
      let (_, _, setup, _, clear) = execute_child-ok sobject r c first in
      let (b, s) = touch-setup (is_setup_object sobject) c h clear in
      rw b (children-setup more t.ctx d (setup ∙ s) rest)

  children-nonsetup :
      (saves : List (String × Record)) (c d : TransactionContext)
      → c.nonsetup_touched ≡ true
      → execute_children saves c ≡ (ok tt, d)
      → none_setup saves ≡ true
  children-nonsetup [] c d h q = refl
  children-nonsetup ((sobject, r) ∷ more) c d h q =
      let (t, first, rest) = children-step sobject r more c d q in
      let (_, _, _, nonsetup, clear) = execute_child-ok sobject r c first in
      let (b, s) = touch-nonsetup (is_setup_object sobject) c h clear in
      rw b (children-nonsetup more t.ctx d (nonsetup ∙ s) rest)

  -- Child saves that all return, one after the other in one context, are of setup objects only, or of
  -- other objects only.
  pub children_one_class :
      (saves : List (String × Record)) (c d : TransactionContext)
      → execute_children saves c ≡ (ok tt, d)
      → (all_setup saves ≡ true) ⊎ (none_setup saves ≡ true)
  children_one_class [] c d q = inl refl
  children_one_class ((sobject, r) ∷ more) c d q =
      let (t, first, rest) = children-step sobject r more c d q in
      let (_, _, setup, nonsetup, _) = execute_child-ok sobject r c first in
      elim (touch-some (is_setup_object sobject) c) [
        | inl (b, s) ↦ inl (rw b (children-setup more t.ctx d (setup ∙ s) rest))
        | inr (b, s) ↦ inr (rw b (children-nonsetup more t.ctx d (nonsetup ∙ s) rest))
      ]

  -- A child past the limit raises before any rule runs: the record and the results are as they
  -- were.
  pub child_over_limit :
      (sobject : String) (r : Record) (c : TransactionContext)
      → rt.cascade_depth_limit ≤ c.cascade_depth
      → let (o, t) = execute_child py rt sobject r c in
        (o ≡ raise (cascade_depth_exceeded (suc c.cascade_depth) rt.cascade_depth_limit))
        × (t.record_ ≡ r)
        × (t.ctx.rule_results ≡ c.rule_results)
  unfolding execute_child save_in enter ◌>>=◌
  child_over_limit sobject r c h =
      rw (enter_child-over rt (record { ctx = c; record_ = r }) (omega arith)) (refl, refl, refl)
