-- ===== src/Ooe/Entry.antt =====
-- The checks at the start of a save: the depth of a child and the mix of setup and other objects
-- (`execute_save` and `_record_object_class` of runtime/ooe/state_machine.py).
use salesforce.Common.{
  suc, ◌≤◌, ◌<◌, ◌≡◌, refl, sym, ap, ◌∙◌, false, ◌&&◌, String, inl, inr, Bool-cases, ltb,
  ltb_false→le, lt→ltb,
}
use salesforce.Common.Exec.{ok, raise}
use salesforce.Ooe.Context.{cascade_depth_exceeded, OoeRuntime, Save, is_setup_object}
use salesforce.Ooe.Execute.{touch, record_object_class, enter_child}

-- The state after a check of the object's class.
abbrev pub touched : String → Save → Save
touched sobject s = record { ctx = touch (is_setup_object sobject) s.ctx; record_ = s.record_ }

-- The state of a child that was counted.
abbrev pub deeper : Save → Save
deeper s = record {
  ctx = record s.ctx { cascade_depth = suc s.ctx.cascade_depth };
  record_ = s.record_;
}

pub record_object_class-ok :
    (sobject : String) (s : Save) {t : Save}
    → record_object_class sobject s ≡ (ok tt, t)
    → (touched sobject s ≡ t) × ((t.ctx.setup_touched && t.ctx.nonsetup_touched) ≡ false)
unfolding record_object_class
record_object_class-ok sobject s {t} =
    let u = touched sobject s in
    elim (Bool-cases (u.ctx.setup_touched && u.ctx.nonsetup_touched)) [
      | inl mixed ↦ rw mixed (λ q. cc)
      | inr clear ↦ rw clear (λ q.
          let same : u ≡ t = ap (λ p. p.1) q in
          (
            same,
            ap (λ (x : Save). x.ctx.setup_touched && x.ctx.nonsetup_touched) (sym same) ∙ clear,
          ))
    ]

pub enter_child-ok :
    (rt : OoeRuntime) (s : Save) {t : Save}
    → enter_child rt s ≡ (ok tt, t)
    → (deeper s ≡ t) × (suc s.ctx.cascade_depth ≤ rt.cascade_depth_limit)
unfolding enter_child
enter_child-ok rt s {t} = elim (Bool-cases (ltb rt.cascade_depth_limit (suc s.ctx.cascade_depth))) [
  | inl over ↦ rw over (λ q. cc)
  | inr fits ↦ rw fits (λ q. (ap (λ p. p.1) q, ltb_false→le _ _ fits))
]

pub enter_child-over :
    (rt : OoeRuntime) (s : Save)
    → rt.cascade_depth_limit < suc s.ctx.cascade_depth
    → enter_child rt s
      ≡ (raise (cascade_depth_exceeded (suc s.ctx.cascade_depth) rt.cascade_depth_limit), deeper s)
unfolding enter_child
enter_child-over rt s h = rw (lt→ltb _ _ h) refl
