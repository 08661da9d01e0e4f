-- ===== src/Formula/Parser.antt =====
-- generate/formula/parser.py: `_Parser` and `parse`. The parser's state is the list of the tokens from
-- `self.i` on. A call costs a unit of fuel, since what a call leaves of the tokens is no structural part
-- of them; ten units for each token are enough.
pub mod Leaves
pub mod Total
use salesforce.Common.{
  ℕ, zero, suc, ◌+◌, ◌-◌, ◌*◌, Bool, true, false, ◌&&◌, ◌||◌, String, Option, none, some, List, [],
  ◌∷◌, ◌++◌, ◌==◌, leb, length, map, codes, eq_codes, if◌then◌else◌, is_nonempty,
}
use salesforce.Common.Exec.{Outcome, ok, raise}
use salesforce.Formula.{
  Text, Unicode, TokenKind, Token, Tokens, FormulaError, token, number, string, ident, dot, lparen,
  rparen, comma, plus, minus, star, slash, eq, neq, lt, le, gt, ge, and, or, amp, bang, eof,
  expected, unknown_function, unexpected_token, trailing_input, undecodable, index_error,
  out_of_fuel,
}
use salesforce.Formula.Ast.{
  Node, Nodes, number_lit, string_lit, bool_lit, null_lit, ident_ref, field_ref, unary_op,
  binary_op, func_call, no_nodes, node,
}
use salesforce.Formula.Lexer.{tokenize}
use salesforce.Formula.Literal.{decode_string}

abbrev pub Result : Type 0 → Type 0
Result A = Outcome FormulaError A

abbrev pub Parser : Type 0 → Type 0
Parser A = Tokens → Result (A × Tokens)

abbrev pub bind : {A B : Type 0} → Result A → (A → Result B) → Result B
bind (ok a) f = f a
bind (raise e) f = raise e

abbrev pub done : {A : Type 0} → A → Parser A
done a ts = ok (a, ts)

infixl 1 ◌>>=◌
abbrev pub ◌>>=◌ : {A B : Type 0} → Parser A → (A → Parser B) → Parser B
p >>= f = λ ts. bind (p ts) λ (a, rest). f a rest

abbrev pub run : {A : Type 0} → Tokens → Parser A → Result (A × Tokens)
run ts p = p ts

-- The operators of each level, by the text that the node keeps.
unfoldable pub or_op : Token → Option Text
or_op (token or s p) = some (codes "OR")
or_op _ = none

unfoldable pub and_op : Token → Option Text
and_op (token and s p) = some (codes "AND")
and_op _ = none

unfoldable pub cmp_op : Token → Option Text
cmp_op (token eq s p) = some s
cmp_op (token neq s p) = some s
cmp_op (token lt s p) = some s
cmp_op (token le s p) = some s
cmp_op (token gt s p) = some s
cmp_op (token ge s p) = some s
cmp_op _ = none

unfoldable pub add_op : Token → Option Text
add_op (token plus s p) = some s
add_op (token minus s p) = some s
add_op (token amp s p) = some (codes "&")
add_op _ = none

unfoldable pub mul_op : Token → Option Text
mul_op (token star s p) = some s
mul_op (token slash s p) = some s
mul_op _ = none

-- `while self.peek().kind in ops`: the operands of a level after the first one, `left`.
unfoldable pub operands : (Token → Option Text) → Parser Node → ℕ → Node → Parser Node
operands op operand zero left ts = raise out_of_fuel
operands op operand (suc f) left [] = raise index_error
operands op operand (suc f) left (t ∷ ts) = elim (op t) [
  | none ↦ ok (left, t ∷ ts)
  | some o ↦ run ts do right ← operand; operands op operand f (binary_op o left right)
]

-- `if self.peek().kind in ops`: at most one operand more.
unfoldable pub operand_once : (Token → Option Text) → Parser Node → Node → Parser Node
operand_once op operand left [] = raise index_error
operand_once op operand left (t ∷ ts) = elim (op t) [
  | none ↦ ok (left, t ∷ ts)
  | some o ↦ run ts do right ← operand; done (binary_op o left right)
]

-- `expect` of a parenthesis that closes.
unfoldable pub expect_rparen : Parser (Unit {0})
expect_rparen [] = raise index_error
expect_rparen (token rparen s p ∷ ts) = ok (tt, ts)
expect_rparen (t ∷ ts) = raise (expected rparen t)

-- The parts of a dotted reference after the first one.
unfoldable pub dotted : Parser (List Text)
dotted [] = raise index_error
dotted (token dot s p ∷ []) = raise index_error
dotted (token dot s p ∷ token ident name q ∷ ts) =
    bind (dotted ts) λ (parts, rest). ok (name ∷ parts, rest)
dotted (token dot s p ∷ t ∷ ts) = raise (expected ident t)
dotted ts = ok ([], ts)

-- `str.upper()` on the letters of ASCII, which an identifier has no other letter than.
unfoldable pub upper_code : ℕ → ℕ
upper_code c = if leb b'a' c && leb c b'z' then c - 32 else c

unfoldable pub upper : Text → Text
unfolding upper_code
upper s = map upper_code s

unfoldable pub one_of : Text → List String → Bool
unfolding eq_codes
one_of s [] = false
one_of s (t ∷ ts) = eq_codes s (codes t) || one_of s ts

abbrev pub known_functions : List String
known_functions =
    "ISBLANK" ∷ "ISNULL" ∷ "IF" ∷ "AND" ∷ "OR" ∷ "NOT" ∷ "LEN" ∷ "UPPER" ∷ "LOWER" ∷ "TRIM" ∷ "LEFT"
    ∷ "RIGHT" ∷ "MID" ∷ "SUBSTITUTE" ∷ "FIND" ∷ "BEGINS" ∷ "CONTAINS" ∷ "ISPICKVAL" ∷ "TODAY"
    ∷ "NOW" ∷ "DATE" ∷ "ADDMONTHS" ∷ "MAX" ∷ "MIN" ∷ "ROUND" ∷ "FLOOR" ∷ "CEILING" ∷ "MOD" ∷ "ABS"
    ∷ "TEXT" ∷ "VALUE" ∷ "CASE" ∷ "BLANKVALUE" ∷ "NULLVALUE" ∷ "ISNEW" ∷ "ISCHANGED" ∷ "PRIORVALUE"
    ∷ "INCLUDES" ∷ "REGEX" ∷ "DATEVALUE" ∷ "DATETIMEVALUE" ∷ "TIMEVALUE" ∷ "YEAR" ∷ "MONTH" ∷ "DAY"
    ∷ "WEEKDAY" ∷ "HOUR" ∷ "MINUTE" ∷ "SECOND" ∷ "MILLISECOND" ∷ "ISNUMBER" ∷ "EXP" ∷ "LN" ∷ "LOG"
    ∷ "SQRT" ∷ "MCEILING" ∷ "MFLOOR" ∷ "LPAD" ∷ "RPAD" ∷ "BR" ∷ "HYPERLINK" ∷ "IMAGE" ∷ "CASESAFEID"
    ∷ "GETRECORDIDS" ∷ "GETSESSIONID" ∷ "ISCLONE" ∷ "CURRENCYRATE" ∷ "DISTANCE" ∷ "GEOLOCATION"
    ∷ "VLOOKUP" ∷ "URLENCODE" ∷ "HTMLENCODE" ∷ "JSENCODE" ∷ "JSINHTMLENCODE" ∷ "PICKLISTCOUNT"
    ∷ "FROMUNIXTIME" ∷ "UNIXTIMESTAMP" ∷ "FORMATDURATION" ∷ "ISOWEEK" ∷ "ISOYEAR" ∷ "DAYOFYEAR"
    ∷ "PARENTGROUPVAL" ∷ "PREVGROUPVAL" ∷ "INCLUDE" ∷ "REQUIRESCRIPT" ∷ "URLFOR" ∷ "PREDICT"
    ∷ "ADDERROR" ∷ "REVERSE" ∷ "INITCAP" ∷ "TRUNC" ∷ "NOT_" ∷ []

-- A head and the parts after it: `FieldRef` where there are any.
unfoldable pub reference : Text → List Text → Node
reference name [] = ident_ref name
reference name (part ∷ parts) = field_ref (name ∷ part ∷ parts)

-- What a postfix expression makes of its primary: only an identifier may be the head of a path.
unfoldable pub parse_path : Node → Parser Node
unfolding dotted reference
parse_path (ident_ref name) ts = run ts do parts ← dotted; done (reference name parts)
parse_path n ts = ok (n, ts)

-- TRUE, FALSE and NULL in any case.
unfoldable pub literal_word : Text → Option Node
unfolding upper eq_codes
literal_word name =
    if eq_codes (upper name) (codes "TRUE")
    then some (bool_lit true)
    else if eq_codes (upper name) (codes "FALSE")
    then some (bool_lit false)
    else if eq_codes (upper name) (codes "NULL")
    then some null_lit
    else none

unfoldable pub known_call : Text → Nodes → Parser Node
unfolding one_of upper
known_call name args ts =
    if one_of (upper name) known_functions
    then ok (func_call (upper name) args, ts)
    else raise (unknown_function name)

unfoldable pub string_node : Option Text → Parser Node
string_node none ts = raise undecodable
string_node (some value) ts = ok (string_lit value, ts)

module _ (u : Unicode) where
  unfoldable mutual
    pub parse_expr : ℕ → Parser Node
    parse_expr zero ts = raise out_of_fuel
    parse_expr (suc f) ts = parse_or f ts

    pub parse_or : ℕ → Parser Node
    parse_or zero ts = raise out_of_fuel
    parse_or (suc f) ts = run ts do left ← parse_and f; operands or_op (parse_and f) f left

    pub parse_and : ℕ → Parser Node
    parse_and zero ts = raise out_of_fuel
    parse_and (suc f) ts = run ts do left ← parse_cmp f; operands and_op (parse_cmp f) f left

    pub parse_cmp : ℕ → Parser Node
    parse_cmp zero ts = raise out_of_fuel
    parse_cmp (suc f) ts = run ts do left ← parse_add f; operand_once cmp_op (parse_add f) left

    pub parse_add : ℕ → Parser Node
    parse_add zero ts = raise out_of_fuel
    parse_add (suc f) ts = run ts do left ← parse_mul f; operands add_op (parse_mul f) f left

    pub parse_mul : ℕ → Parser Node
    parse_mul zero ts = raise out_of_fuel
    parse_mul (suc f) ts = run ts do left ← parse_unary f; operands mul_op (parse_unary f) f left

    pub parse_unary : ℕ → Parser Node
    parse_unary zero ts = raise out_of_fuel
    parse_unary (suc f) (token minus s p ∷ ts) =
        run ts do operand ← parse_unary f; done (unary_op (codes "-") operand)
    parse_unary (suc f) (token plus s p ∷ ts) = parse_unary f ts
    parse_unary (suc f) (token bang s p ∷ ts) =
        run ts do operand ← parse_unary f; done (unary_op (codes "NOT") operand)
    parse_unary (suc f) ts = parse_postfix f ts

    pub parse_postfix : ℕ → Parser Node
    parse_postfix zero ts = raise out_of_fuel
    parse_postfix (suc f) ts = run ts do primary ← parse_primary f; parse_path primary

    pub parse_primary : ℕ → Parser Node
    parse_primary zero ts = raise out_of_fuel
    parse_primary (suc f) [] = raise index_error
    parse_primary (suc f) (token number s p ∷ ts) = ok (number_lit s, ts)
    parse_primary (suc f) (token string s p ∷ ts) = string_node (decode_string u s) ts
    parse_primary (suc f) (token lparen s p ∷ ts) =
        run ts do inner ← parse_expr f; _ ← expect_rparen; done inner
    parse_primary (suc f) (token ident name p ∷ ts) = elim (literal_word name) [
      | some literal ↦ ok (literal, ts)
      | none ↦ parse_named f name ts
    ]
    parse_primary (suc f) (t ∷ ts) = raise (unexpected_token t)

    -- What a name stands for: a call where a parenthesis follows.
    pub parse_named : ℕ → Text → Parser Node
    parse_named zero name ts = raise out_of_fuel
    parse_named (suc f) name [] = raise index_error
    parse_named (suc f) name (token lparen s p ∷ ts) =
        run ts do args ← parse_args f; _ ← expect_rparen; known_call name args
    parse_named (suc f) name ts = ok (ident_ref name, ts)

    pub parse_args : ℕ → Parser Nodes
    parse_args zero ts = raise out_of_fuel
    parse_args (suc f) [] = raise index_error
    parse_args (suc f) (token rparen s p ∷ ts) = ok (no_nodes, token rparen s p ∷ ts)
    parse_args (suc f) ts = run ts do arg ← parse_expr f; args ← parse_more f; done (node arg args)

    pub parse_more : ℕ → Parser Nodes
    parse_more zero ts = raise out_of_fuel
    parse_more (suc f) [] = raise index_error
    parse_more (suc f) (token comma s p ∷ ts) =
        run ts do arg ← parse_expr f; args ← parse_more f; done (node arg args)
    parse_more (suc f) ts = ok (no_nodes, ts)

  -- After the whole expression only the end may follow.
  unfoldable pub finish : Node → Tokens → Result Node
  finish n [] = raise index_error
  finish n (token eof s p ∷ ts) = ok n
  finish n (t ∷ ts) = raise (trailing_input t)

  unfoldable pub parse_tokens : Tokens → Result Node
  unfolding parse_expr finish
  parse_tokens ts = bind (parse_expr (10 * length ts + 10) ts) λ (n, rest). finish n rest

  unfoldable pub parse : Text → Result Node
  unfolding tokenize parse_tokens
  parse source = bind (tokenize u source) parse_tokens
