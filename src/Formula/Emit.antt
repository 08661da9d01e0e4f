-- ===== src/Formula/Emit.antt =====
-- generate/formula/emitter.py: the Python expression for a tree. How the interpreter prints a double and
-- a text is an argument, since a double is kept as its literal.
pub mod Supported
pub mod Rule
use salesforce.Common.{
  ℕ, zero, suc, ◌+◌, ◌-◌, ◌%◌, Bool, true, false, not, ◌&&◌, ◌||◌, String, Option, none, some, List,
  [], ◌∷◌, ◌++◌, ◌==◌, ltb, length, codes, eq_codes, starts_with, if◌then◌else◌,
}
use salesforce.Common.Exec.{Outcome, ok, raise}
use salesforce.Formula.{
  Text, Unicode, global_variable, unsupported_unary, unsupported_binary, unsupported_function,
  wrong_arity,
}
use salesforce.Formula.Ast.{
  Node, Nodes, number_lit, string_lit, bool_lit, null_lit, ident_ref, field_ref, unary_op,
  binary_op, func_call, no_nodes, node,
}
use salesforce.Formula.Parser.{Result, bind, parse}

-- `float.is_integer`, `str(int(x))` and `repr` of a double, by its literal, and `repr` of a text.
pub record Python : Type 0 where
  pub is_integer : Text → Bool
  pub int_text : Text → Text
  pub float_text : Text → Text
  pub repr : Text → Text

-- A table of names and the texts that stand for them, by `dict.get`.
unfoldable pub lookup : Text → List (String × String) → Option Text
unfolding eq_codes
lookup s [] = none
lookup s ((name, value) ∷ table) =
    let rest = lookup s table in if eq_codes s (codes name) then some (codes value) else rest

-- `_DIRECT_FN`.
abbrev pub direct_fn : List (String × String)
direct_fn =
    ("ABS", "abs")
    ∷ ("MAX", "max")
    ∷ ("MIN", "min")
    ∷ ("ROUND", "_round")
    ∷ ("FLOOR", "_floor")
    ∷ ("CEILING", "_ceil")
    ∷ ("MOD", "_mod")
    ∷ ("LEN", "len")
    ∷ ("UPPER", "_upper")
    ∷ ("LOWER", "_lower")
    ∷ ("TRIM", "_trim")
    ∷ ("LEFT", "_left")
    ∷ ("RIGHT", "_right")
    ∷ ("MID", "_mid")
    ∷ ("SUBSTITUTE", "_substitute")
    ∷ ("FIND", "_find")
    ∷ ("BEGINS", "_begins")
    ∷ ("CONTAINS", "_contains")
    ∷ ("TEXT", "_text")
    ∷ ("VALUE", "_value")
    ∷ ("TODAY", "_today")
    ∷ ("NOW", "_now")
    ∷ ("DATE", "_date")
    ∷ ("ADDMONTHS", "_addmonths")
    ∷ ("BLANKVALUE", "_blankvalue")
    ∷ ("NULLVALUE", "_blankvalue")
    ∷ []

-- `_BIN_OPS`.
abbrev pub bin_ops : List (String × String)
bin_ops =
    ("+", "+")
    ∷ ("-", "-")
    ∷ ("*", "*")
    ∷ ("/", "/")
    ∷ ("=", "==")
    ∷ ("<>", "!=")
    ∷ ("!=", "!=")
    ∷ ("<", "<")
    ∷ ("<=", "<=")
    ∷ (">", ">")
    ∷ (">=", ">=")
    ∷ ("AND", "and")
    ∷ ("OR", "or")
    ∷ []

-- `sep.join(parts)`.
unfoldable pub join : Text → List Text → Text
join sep [] = []
join sep (t ∷ []) = t
join sep (t ∷ s ∷ ts) = t ++ sep ++ join sep (s ∷ ts)

unfoldable pub quoted_field : Python → Text → Result Text
unfolding starts_with
quoted_field py name =
    if starts_with name (codes "$")
    then raise (global_variable name)
    else ok (codes "_field(record, " ++ py.repr name ++ codes ")")

unfoldable pub unary_text : Text → Text → Result Text
unfolding eq_codes
unary_text op operand =
    if eq_codes op (codes "-")
    then ok (codes "(-(" ++ operand ++ codes "))")
    else if eq_codes op (codes "NOT")
    then ok (codes "(not (" ++ operand ++ codes "))")
    else raise (unsupported_unary op)

-- The Python operator of `_BIN_OPS` and the two operands.
abbrev pub infix_text : Text → Option Text → Result Text → Result Text → Result Text
infix_text op none left right = raise (unsupported_binary op)
infix_text op (some py_op) left right =
    bind left
      λ l. bind right λ r. ok (codes "(" ++ l ++ codes " " ++ py_op ++ codes " " ++ r ++ codes ")")

abbrev pub concat_text : Result Text → Result Text → Result Text
concat_text left right =
    bind left λ l. bind right λ r. ok (codes "_concat(" ++ l ++ codes ", " ++ r ++ codes ")")

-- `&` joins texts; the other operators are looked up before the operands are rendered.
unfoldable pub binary_text : Text → Result Text → Result Text → Result Text
unfolding eq_codes lookup
binary_text op left right =
    if eq_codes op (codes "&")
    then concat_text left right
    else infix_text op (lookup op bin_ops) left right

one_arg : Text → Text → Text → List Text → Result Text
one_arg name before behind (a ∷ []) = ok (before ++ a ++ behind)
one_arg name before behind args = raise (wrong_arity name (length args))

joined_args : Text → Text → List Text → Result Text
unfolding join
joined_args name sep [] = raise (wrong_arity name 0)
joined_args name sep (a ∷ args) = ok (codes "(" ++ join sep (a ∷ args) ++ codes ")")

if_call : Text → List Text → Result Text
if_call name (test ∷ then_text ∷ otherwise ∷ []) = ok (
    codes "(("
    ++ then_text
    ++ codes ") if ("
    ++ test
    ++ codes ") else ("
    ++ otherwise
    ++ codes "))")
if_call name args = raise (wrong_arity name (length args))

pickval_call : Text → List Text → Result Text
pickval_call name (a ∷ b ∷ []) = ok (codes "_ispickval(" ++ a ++ codes ", " ++ b ++ codes ")")
pickval_call name args = raise (wrong_arity name (length args))

-- The pairs of a CASE, from the first one on, around what the last argument gives.
case_text : Text → List Text → Text
case_text expr [] = []
case_text expr (otherwise ∷ []) = otherwise
case_text expr (value ∷ result ∷ more) =
    codes "(("
    ++ result
    ++ codes ") if ("
    ++ expr
    ++ codes ") == ("
    ++ value
    ++ codes ") else ("
    ++ case_text expr more
    ++ codes "))"

case_call : Text → List Text → Result Text
unfolding case_text
case_call name [] = raise (wrong_arity name 0)
case_call name (expr ∷ more) =
    if ltb (length (expr ∷ more)) 4 || not ((length (expr ∷ more) - 2) % 2 == 0)
    then raise (wrong_arity name (length (expr ∷ more)))
    else ok (case_text expr more)

direct_call : Text → List Text → Option Text → Result Text
unfolding join
direct_call name args none = raise (unsupported_function name)
direct_call name args (some direct) =
    ok (direct ++ codes "(" ++ join (codes ", ") args ++ codes ")")

-- `_emit_call`, after its arguments.
unfoldable pub emit_call : Text → List Text → Result Text
unfolding eq_codes lookup one_arg joined_args if_call pickval_call case_call direct_call
emit_call name args =
    if eq_codes name (codes "ISBLANK") || eq_codes name (codes "ISNULL")
    then one_arg name (codes "_isblank(") (codes ")") args
    else if eq_codes name (codes "NOT")
    then one_arg name (codes "(not (") (codes "))") args
    else if eq_codes name (codes "AND")
    then joined_args name (codes " and ") args
    else if eq_codes name (codes "OR")
    then joined_args name (codes " or ") args
    else if eq_codes name (codes "IF")
    then if_call name args
    else if eq_codes name (codes "ISPICKVAL")
    then pickval_call name args
    else if eq_codes name (codes "CASE")
    then case_call name args
    else direct_call name args (lookup name direct_fn)

module _ (py : Python) where
  unfoldable mutual
    unfolding join quoted_field unary_text binary_text emit_call

    pub emit : Node → Result Text
    emit (number_lit s) = ok (if py.is_integer s then py.int_text s else py.float_text s)
    emit (string_lit v) = ok (py.repr v)
    emit (bool_lit b) = ok (if b then codes "True" else codes "False")
    emit null_lit = ok (codes "None")
    emit (ident_ref name) = quoted_field py name
    emit (field_ref parts) = quoted_field py (join (codes ".") parts)
    emit (unary_op op operand) = bind (emit operand) (unary_text op)
    emit (binary_op op left right) = binary_text op (emit left) (emit right)
    emit (func_call name args) = bind (emit_args args) (emit_call name)

    pub emit_args : Nodes → Result (List Text)
    emit_args no_nodes = ok []
    emit_args (node n args) = bind (emit n) λ t. bind (emit_args args) λ ts. ok (t ∷ ts)

-- The module of a rule, around the expression of its formula.
rule_text : Text → Text → Text
rule_text name expr =
    codes "\"\"\"Auto-generated formula rule. Do not edit by hand.\"\"\"\n"
    ++ codes "from __future__ import annotations\n\n"
    ++ codes "from offramp.runtime.rules.formula_runtime import (\n"
    ++ codes "    _addmonths, _begins, _blankvalue, _ceil, _concat, _contains, _date,\n"
    ++ codes "    _field, _find, _floor, _ispickval, _isblank, _left, _lower,\n"
    ++ codes "    _mid, _mod, _now, _right, _round, _substitute, _text, _today,\n"
    ++ codes "    _trim, _upper, _value,\n"
    ++ codes ")\n\n"
    ++ codes "def "
    ++ name
    ++ codes "(record, context):\n"
    ++ codes "    \"\"\"Auto-generated from a Salesforce formula.\"\"\"\n"
    ++ codes "    return "
    ++ expr
    ++ codes "\n"

unfoldable pub emit_rule_body : Python → Unicode → Text → Text → Result Text
unfolding parse emit rule_text
emit_rule_body py u formula function_name =
    bind (parse u formula) λ tree. bind (emit py tree) λ expr. ok (rule_text function_name expr)
