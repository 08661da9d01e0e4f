-- ===== src/Verify/Operations.antt =====
-- verify/compare.py, `verify_process`: the operations on records that its checks accept.
use salesforce.Common.{
  ◌≡◌, inl, inr, Bool-cases, eq_iff, ◌=ₛ◌, member, refl, subst, sym, Bool, true, false, String,
  Option, none, some, List, [], ◌∷◌, is_nonempty, if◌then◌else◌, arith,
}
use salesforce.Common.{lower, eq_codes→≡}
use salesforce.Common.Dict.{Dict, get}
use salesforce.Verify.Model.{StepKind, create, update, delete, DmlOp, Step, kind_value}
use salesforce.Verify.Checks.{wrong_dml, or_empty, dml_kind, dml_of, is_step_for, is_after, bad_dml}
use salesforce.Verify.Paths.{append-empty, decided}

-- The kind of step that an operation on records comes from.
pub data Makes : String → String → Type 0 where
  inserts : Makes "Insert" "create"
  updates : Makes "Update" "update"
  deletes : Makes "Delete" "delete"

-- An operation on records that belongs to a subflow, that is no insert, update or delete, or that comes
-- after a step of its kind on its object, whatever the case of its letters.
pub data Explained (steps : Dict Step) (nested : List String) (op : DmlOp) : Type 0 where
  in_subflow :
      (n : String) → op.after_element ≡ some n → member n nested ≡ true → Explained steps nested op
  other_op :
      op.op =ₛ "Insert" ≡ false
      → op.op =ₛ "Update" ≡ false
      → op.op =ₛ "Delete" ≡ false
      → Explained steps nested op
  by_step :
      (s : Step)
      → get steps (or_empty op.after_element) ≡ some s
      → Makes op.op (kind_value s.kind)
      → lower (or_empty s.object) ≡ lower op.sobject
      → Explained steps nested op

pub data AllExplained (steps : Dict Step) (nested : List String) : List DmlOp → Type 0 where
  no_ops : AllExplained steps nested []
  one_more :
      (op : DmlOp) (ops : List DmlOp)
      → Explained steps nested op
      → AllExplained steps nested ops
      → AllExplained steps nested (op ∷ ops)

after-nested :
    (o : Option String) (nested : List String)
    → is_after o nested ≡ true
    → (n : String) × (o ≡ some n) × (member n nested ≡ true)
unfolding is_after
after-nested none nested h = cc
after-nested (some n) nested h = (n, refl, h)

-- An operation is one of the three, or none of them, and has the kind of its step.
made : (op : String) (k : StepKind) → dml_kind op ≡ some k → Makes op (kind_value k)
unfolding dml_kind
made op k h = go (op =ₛ "Insert") (op =ₛ "Update") (op =ₛ "Delete") refl refl refl h
  where
    as_kind :
        (name : String) (j : StepKind)
        → op =ₛ name ≡ true
        → some j ≡ some k
        → Makes name (kind_value j)
        → Makes op (kind_value k)
    as_kind name j e g m =
        let same : j ≡ k = cc in
        subst (λ t. Makes t (kind_value k)) (sym ((eq_iff op name).0 e))
          (subst (λ i. Makes name (kind_value i)) same m)

    go :
        (i u d : Bool)
        → op =ₛ "Insert" ≡ i
        → op =ₛ "Update" ≡ u
        → op =ₛ "Delete" ≡ d
        → (if i then some create else if u then some update else if d then some delete else none)
          ≡ some k
        → Makes op (kind_value k)
    go true u d e f g m = as_kind "Insert" create e m inserts
    go false true d e f g m = as_kind "Update" update f m updates
    go false false true e f g m = as_kind "Delete" delete g m deletes
    go false false false e f g m = cc

dml_of-Explained :
    (steps : Dict Step) (nested : List String) (op : DmlOp) (k : Option StepKind) (o : Option Step)
    → dml_kind op.op ≡ k
    → get steps (or_empty op.after_element) ≡ o
    → is_nonempty (dml_of op k o) ≡ false
    → Explained steps nested op
unfolding dml_of is_step_for dml_kind
dml_of-Explained steps nested op none o e g h =
    other_op (ground (arith, e)) (ground (arith, e)) (ground (arith, e))
dml_of-Explained steps nested op (some k) none e g h = cc
dml_of-Explained steps nested op (some k) (some s) e g h =
    let fits = decided (is_step_for op k (some s)) (wrong_dml op) h in
    by_step s g
      (subst (λ t. Makes op.op t)
        (sym ((eq_iff (kind_value s.kind) (kind_value k)).0 (ground (arith, fits))))
        (made op.op k e))
      (eq_codes→≡ (lower (or_empty s.object)) (lower op.sobject) (ground (arith, fits)))

pub bad_dml-AllExplained :
    (steps : Dict Step) (nested : List String) (ops : List DmlOp)
    → is_nonempty (bad_dml steps nested ops) ≡ false
    → AllExplained steps nested ops
unfolding bad_dml
bad_dml-AllExplained steps nested [] h = no_ops
bad_dml-AllExplained steps nested (op ∷ ops) h =
    let parts =
      append-empty (dml_of op (dml_kind op.op) (get steps (or_empty op.after_element)))
        (bad_dml steps nested ops) in
    elim (Bool-cases (is_after op.after_element nested)) [
      | inl inside ↦
          (let (n, e, m) = after-nested op.after_element nested inside in
            one_more op ops (in_subflow n e m)
              (bad_dml-AllExplained steps nested ops (ground (arith, h, inside))))
      | inr outside ↦
          one_more op ops
            (dml_of-Explained steps nested op _ _ refl refl (ground (arith, h, outside, parts)))
            (bad_dml-AllExplained steps nested ops (ground (arith, h, outside, parts)))
    ]
