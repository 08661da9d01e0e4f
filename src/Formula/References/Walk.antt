-- ===== src/Formula/References/Walk.antt =====
-- generate/formula/references.py: what the walk over a tree collects.
use salesforce.Common.{
  ◌≡◌, refl, sym, ap, ◌∙◌, Bool, true, false, not, ◌&&◌, ◌||◌, List, [], ◌∷◌, ◌++◌, codes, eq_codes,
  arith,
}
use salesforce.Formula.{Text}
use salesforce.Formula.Ast.{
  Node, Nodes, ident_ref, field_ref, unary_op, binary_op, func_call, no_nodes, node,
}
use salesforce.Formula.Emit.{join}
use salesforce.Formula.References.{
  References, is_literal, is_global, add_ident, walk, walk_args, dedupe, tree_references,
}
use salesforce.Formula.References.Sorted.{has, has-append, has-sorted_set}

-- A name that is no literal word, by whether it is a global variable.
pub is_field_name : Text → Bool
unfolding is_literal is_global
is_field_name name = not (is_literal name) && not (is_global name)

pub is_global_name : Text → Bool
unfolding is_literal is_global
is_global_name name = not (is_literal name) && is_global name

mutual
  unfolding join eq_codes

  -- Whether a tree reads the name or the path `x`, of those that pass a test.
  pub reads : (Text → Bool) → Text → Node → Bool
  reads p x (ident_ref name) = p name && eq_codes name x
  reads p x (field_ref parts) = p (join (codes ".") parts) && eq_codes (join (codes ".") parts) x
  reads p x (unary_op op operand) = reads p x operand
  reads p x (binary_op op left right) = reads p x left || reads p x right
  reads p x (func_call name args) = reads_any p x args
  reads p x _ = false

  pub reads_any : (Text → Bool) → Text → Nodes → Bool
  reads_any p x no_nodes = false
  reads_any p x (node n args) = reads p x n || reads_any p x args

mutual
  unfolding eq_codes

  -- Whether a tree calls the function `x`.
  pub calls : Text → Node → Bool
  calls x (unary_op op operand) = calls x operand
  calls x (binary_op op left right) = calls x left || calls x right
  calls x (func_call name args) = eq_codes name x || calls_any x args
  calls x _ = false

  pub calls_any : Text → Nodes → Bool
  calls_any x no_nodes = false
  calls_any x (node n args) = calls x n || calls_any x args

or_assoc : (a b c : Bool) → (a || b) || c ≡ a || (b || c)
or_assoc true b c = refl
or_assoc false b c = refl

or_false : (a : Bool) → a || false ≡ a
or_false true = refl
or_false false = refl

-- A list of the names that a walk collects, and the names that it adds to them.
abbrev Collects : (References → List Text) → (References → References) → (Text → Bool) → Type 0
Collects field step added =
    (x : Text) (refs : References) → has x (field (step refs)) ≡ has x (field refs) || added x

add_ident-fields :
    (name : Text)
    → Collects (λ r. r.fields) (add_ident name) (λ x. is_field_name name && eq_codes name x)
unfolding add_ident is_field_name has
add_ident-fields name x refs = ground (
  arith,
  has-append x refs.fields (name ∷ []),
  or_false (has x refs.fields),
  or_false (eq_codes name x),
)

add_ident-globals :
    (name : Text)
    → Collects (λ r. r.globals) (add_ident name) (λ x. is_global_name name && eq_codes name x)
unfolding add_ident is_global_name has
add_ident-globals name x refs = ground (
  arith,
  has-append x refs.globals (name ∷ []),
  or_false (has x refs.globals),
  or_false (eq_codes name x),
)

add_ident-functions :
    (name : Text) (refs : References) → (add_ident name refs).functions ≡ refs.functions
unfolding add_ident
add_ident-functions name refs = ground arith

mutual
  unfolding walk reads

  walk-fields : (n : Node) → Collects (λ r. r.fields) (walk n) (λ x. reads is_field_name x n)
  walk-fields (ident_ref name) x refs = add_ident-fields name x refs
  walk-fields (field_ref parts) x refs = add_ident-fields (join (codes ".") parts) x refs
  walk-fields (unary_op op n) x refs = walk-fields n x refs
  walk-fields (binary_op op l r) x refs =
      walk-fields r x (walk l refs)
      ∙ rw (walk-fields l x refs)
          (or_assoc (has x refs.fields) (reads is_field_name x l) (reads is_field_name x r))
  walk-fields (func_call name args) x refs = walk_args-fields args x _
  walk-fields _ x refs = sym (or_false (has x refs.fields))

  walk_args-fields :
      (args : Nodes)
      → Collects (λ r. r.fields) (walk_args args) (λ x. reads_any is_field_name x args)
  walk_args-fields no_nodes x refs = sym (or_false (has x refs.fields))
  walk_args-fields (node n args) x refs =
      walk_args-fields args x (walk n refs)
      ∙ rw (walk-fields n x refs)
          (or_assoc (has x refs.fields) (reads is_field_name x n) (reads_any is_field_name x args))

mutual
  unfolding walk reads

  walk-globals : (n : Node) → Collects (λ r. r.globals) (walk n) (λ x. reads is_global_name x n)
  walk-globals (ident_ref name) x refs = add_ident-globals name x refs
  walk-globals (field_ref parts) x refs = add_ident-globals (join (codes ".") parts) x refs
  walk-globals (unary_op op n) x refs = walk-globals n x refs
  walk-globals (binary_op op l r) x refs =
      walk-globals r x (walk l refs)
      ∙ rw (walk-globals l x refs)
          (or_assoc (has x refs.globals) (reads is_global_name x l) (reads is_global_name x r))
  walk-globals (func_call name args) x refs = walk_args-globals args x _
  walk-globals _ x refs = sym (or_false (has x refs.globals))

  walk_args-globals :
      (args : Nodes)
      → Collects (λ r. r.globals) (walk_args args) (λ x. reads_any is_global_name x args)
  walk_args-globals no_nodes x refs = sym (or_false (has x refs.globals))
  walk_args-globals (node n args) x refs =
      walk_args-globals args x (walk n refs)
      ∙ rw (walk-globals n x refs) (
          or_assoc (has x refs.globals) (reads is_global_name x n)
            (reads_any is_global_name x args))

mutual
  unfolding walk calls has

  walk-functions : (n : Node) → Collects (λ r. r.functions) (walk n) (λ x. calls x n)
  walk-functions (ident_ref name) x refs =
      ap (has x) (add_ident-functions name refs) ∙ sym (or_false (has x refs.functions))
  walk-functions (field_ref parts) x refs =
      ap (has x) (add_ident-functions (join (codes ".") parts) refs)
      ∙ sym (or_false (has x refs.functions))
  walk-functions (unary_op op n) x refs = walk-functions n x refs
  walk-functions (binary_op op l r) x refs =
      walk-functions r x (walk l refs)
      ∙ rw (walk-functions l x refs) (or_assoc (has x refs.functions) (calls x l) (calls x r))
  walk-functions (func_call name args) x refs =
      walk_args-functions args x (record refs { functions = refs.functions ++ name ∷ [] })
      ∙ rw (has-append x refs.functions (name ∷ []), or_false (eq_codes name x))
          (or_assoc (has x refs.functions) (eq_codes name x) (calls_any x args))
  walk-functions _ x refs = sym (or_false (has x refs.functions))

  walk_args-functions :
      (args : Nodes) → Collects (λ r. r.functions) (walk_args args) (λ x. calls_any x args)
  walk_args-functions no_nodes x refs = sym (or_false (has x refs.functions))
  walk_args-functions (node n args) x refs =
      walk_args-functions args x (walk n refs)
      ∙ rw (walk-functions n x refs)
          (or_assoc (has x refs.functions) (calls x n) (calls_any x args))

-- Of a formula's tree the references list each name that it reads and each function that it calls, and
-- nothing else: a name or path goes to the globals where it begins with a dollar sign, to the fields
-- otherwise, and to neither where it is TRUE, FALSE or NULL.
pub tree_references-has :
    (n : Node) (x : Text)
    → (has x (tree_references n).fields ≡ reads is_field_name x n)
      × (has x (tree_references n).globals ≡ reads is_global_name x n)
      × (has x (tree_references n).functions ≡ calls x n)
unfolding tree_references dedupe has
tree_references-has n x = (
  has-sorted_set x _ ∙ walk-fields n x no_references,
  has-sorted_set x _ ∙ walk-globals n x no_references,
  has-sorted_set x _ ∙ walk-functions n x no_references,
)
  where
    no_references : References
    no_references = record { fields = []; globals = []; functions = [] }
