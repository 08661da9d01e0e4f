-- ===== src/Formula/References.antt =====
-- generate/formula/references.py: the fields, the global variables and the functions that a parsed formula
-- reads. The tolerant scan of a formula that the parser refuses is left out.
pub mod Sorted
pub mod Walk
use salesforce.Common.{
  ℕ, Bool, true, false, not, ◌&&◌, ◌||◌, String, List, [], ◌∷◌, ◌++◌, ◌==◌, ltb, codes, eq_codes,
  starts_with, map, is_nonempty, if◌then◌else◌,
}
use salesforce.Formula.{Text}
use salesforce.Formula.Ast.{
  Node, Nodes, number_lit, string_lit, bool_lit, null_lit, ident_ref, field_ref, unary_op,
  binary_op, func_call, no_nodes, node,
}
use salesforce.Formula.Parser.{upper, one_of}
use salesforce.Formula.Emit.{join}

-- `FormulaReferences`, without the note of a failed parse.
pub record References : Type 0 where
  pub fields : List Text
  pub globals : List Text
  pub functions : List Text

-- `a < b` on texts.
unfoldable pub lt_codes : Text → Text → Bool
lt_codes s [] = false
lt_codes [] (b ∷ t) = true
lt_codes (a ∷ s) (b ∷ t) = ltb a b || (a == b && lt_codes s t)

-- A text at its place among texts in ascending order, once.
unfoldable pub insert : Text → List Text → List Text
unfolding eq_codes lt_codes
insert t [] = t ∷ []
insert t (s ∷ ss) =
    let rest = insert t ss in
    if eq_codes t s then s ∷ ss else if lt_codes t s then t ∷ s ∷ ss else s ∷ rest

-- `sorted(set(ts))`.
unfoldable pub sorted_set : List Text → List Text
unfolding insert
sorted_set [] = []
sorted_set (t ∷ ts) = insert t (sorted_set ts)

unfoldable pub is_literal : Text → Bool
unfolding one_of upper
is_literal name = one_of (upper name) ("TRUE" ∷ "FALSE" ∷ "NULL" ∷ [])

unfoldable pub is_global : Text → Bool
unfolding starts_with
is_global name = starts_with name (codes "$")

-- `_add_ident`.
unfoldable pub add_ident : Text → References → References
unfolding is_literal is_global
add_ident name refs =
    if is_literal name
    then refs
    else if is_global name
    then record refs { globals = refs.globals ++ name ∷ [] }
    else record refs { fields = refs.fields ++ name ∷ [] }

unfoldable mutual
  unfolding add_ident join

  -- `_walk`.
  pub walk : Node → References → References
  walk (ident_ref name) refs = add_ident name refs
  walk (field_ref parts) refs = add_ident (join (codes ".") parts) refs
  walk (unary_op op operand) refs = walk operand refs
  walk (binary_op op left right) refs = walk right (walk left refs)
  walk (func_call name args) refs =
      walk_args args (record refs { functions = refs.functions ++ name ∷ [] })
  walk _ refs = refs

  pub walk_args : Nodes → References → References
  walk_args no_nodes refs = refs
  walk_args (node n args) refs = walk_args args (walk n refs)

-- `_dedupe`.
unfoldable pub dedupe : References → References
unfolding sorted_set
dedupe refs = record {
  fields = sorted_set refs.fields;
  globals = sorted_set refs.globals;
  functions = sorted_set refs.functions;
}

-- What `extract_references` makes of the tree of a formula.
unfoldable pub tree_references : Node → References
unfolding walk dedupe
tree_references n = dedupe (walk n (record { fields = []; globals = []; functions = [] }))

-- `qualified_fields`: each field after the name of the object, where there is one.
unfoldable pub qualified_fields : Text → References → List Text
qualified_fields object refs =
    if is_nonempty object then map (λ f. object ++ codes "." ++ f) refs.fields else refs.fields
