-- ===== src/Formula/Parser/Total.antt =====
-- That the parser ends within its fuel and never reads past the last token.
use salesforce.Common.{
  ℕ, zero, suc, ◌+◌, ◌*◌, ◌<◌, ◌≡◌, refl, true, [], ◌∷◌, length, arith, inl, inr,
}
use salesforce.Common.Exec.{ok, raise}
use salesforce.Formula.{
  Text, Unicode, Tokens, FormulaError, token, number, string, ident, lparen, rparen, comma, plus,
  minus, bang, eof, unexpected_character, expected, unknown_function, unexpected_token,
  trailing_input, global_variable, unsupported_unary, unsupported_binary, unsupported_function,
  wrong_arity, undecodable, index_error, out_of_fuel,
}
use salesforce.Formula.Ast.{Node}
use salesforce.Formula.Parser.{
  Result, bind, or_op, and_op, cmp_op, add_op, mul_op, literal_word, parse_expr, parse_or,
  parse_and, parse_cmp, parse_add, parse_mul, parse_unary, parse_postfix, parse_primary,
  parse_named, parse_args, parse_more, finish, parse_tokens,
}
use salesforce.Formula.Parser.Leaves.{
  Ended, Ended-rest, Option-cases, is_unsupported, is_refusal, Leaves, leaves, refuses, Consumes,
  Leaves-bind, Leaves-le, operand_once-Leaves, level-Leaves, or_op-no_end, and_op-no_end,
  cmp_op-no_end, add_op-no_end, mul_op-no_end, expect_rparen-Leaves, parse_path-Leaves,
  known_call-Leaves, string_node-Leaves,
}
use salesforce.Formula.Lexer.Scan

module _ (u : Unicode) where
  mutual
    unfolding parse_expr

    expr-Leaves : (f : ℕ) (ts : Tokens) → 10 * length ts + 9 < f → Consumes (parse_expr u f) ts
    expr-Leaves zero ts h = absurd (omega arith)
    expr-Leaves (suc f) ts h = or-Leaves f ts (omega arith)

    or-Leaves : (f : ℕ) (ts : Tokens) → 10 * length ts + 8 < f → Consumes (parse_or u f) ts
    or-Leaves zero ts h = absurd (omega arith)
    or-Leaves (suc f) ts h =
        level-Leaves or_op (parse_and u f) or_op-no_end f ts (λ us k. and-Leaves f us (omega arith))
          (omega arith)

    and-Leaves : (f : ℕ) (ts : Tokens) → 10 * length ts + 7 < f → Consumes (parse_and u f) ts
    and-Leaves zero ts h = absurd (omega arith)
    and-Leaves (suc f) ts h =
        level-Leaves and_op (parse_cmp u f) and_op-no_end f ts
          (λ us k. cmp-Leaves f us (omega arith)) (omega arith)

    cmp-Leaves : (f : ℕ) (ts : Tokens) → 10 * length ts + 6 < f → Consumes (parse_cmp u f) ts
    cmp-Leaves zero ts h e = absurd (omega arith)
    cmp-Leaves (suc f) ts h e = Leaves-bind _ (add-Leaves f ts (omega arith) e) λ left rest e' l.
        Leaves-le (omega arith) (
          operand_once-Leaves cmp_op (parse_add u f) cmp_op-no_end left rest
            (λ us k. add-Leaves f us (omega arith)) e')

    add-Leaves : (f : ℕ) (ts : Tokens) → 10 * length ts + 5 < f → Consumes (parse_add u f) ts
    add-Leaves zero ts h = absurd (omega arith)
    add-Leaves (suc f) ts h =
        level-Leaves add_op (parse_mul u f) add_op-no_end f ts
          (λ us k. mul-Leaves f us (omega arith)) (omega arith)

    mul-Leaves : (f : ℕ) (ts : Tokens) → 10 * length ts + 4 < f → Consumes (parse_mul u f) ts
    mul-Leaves zero ts h = absurd (omega arith)
    mul-Leaves (suc f) ts h =
        level-Leaves mul_op (parse_unary u f) mul_op-no_end f ts
          (λ us k. unary-Leaves f us (omega arith)) (omega arith)

    unary-Leaves : (f : ℕ) (ts : Tokens) → 10 * length ts + 3 < f → Consumes (parse_unary u f) ts
    unary-Leaves zero ts h e = absurd (omega arith)
    unary-Leaves (suc f) [] h e = absurd (elim e [ ])
    unary-Leaves (suc f) (token minus s p ∷ ts) h e =
        Leaves-bind _ (unary-Leaves f ts (omega arith) (Ended-rest refl e))
          λ n rest e' l. leaves e' (omega arith)
    unary-Leaves (suc f) (token plus s p ∷ ts) h e =
        Leaves-le (omega arith) (unary-Leaves f ts (omega arith) (Ended-rest refl e))
    unary-Leaves (suc f) (token bang s p ∷ ts) h e =
        Leaves-bind _ (unary-Leaves f ts (omega arith) (Ended-rest refl e))
          λ n rest e' l. leaves e' (omega arith)
    unary-Leaves (suc f) (token k s p ∷ ts) h e =
        postfix-Leaves f (token k s p ∷ ts) (omega arith) e

    postfix-Leaves :
        (f : ℕ) (ts : Tokens) → 10 * length ts + 2 < f → Consumes (parse_postfix u f) ts
    postfix-Leaves zero ts h e = absurd (omega arith)
    postfix-Leaves (suc f) ts h e =
        Leaves-bind _ (primary-Leaves f ts (omega arith) e)
          λ n rest e' l. Leaves-le (omega arith) (parse_path-Leaves n rest e')

    primary-Leaves :
        (f : ℕ) (ts : Tokens) → 10 * length ts + 1 < f → Consumes (parse_primary u f) ts
    primary-Leaves zero ts h e = absurd (omega arith)
    primary-Leaves (suc f) [] h e = absurd (elim e [ ])
    primary-Leaves (suc f) (token number s p ∷ ts) h e = leaves (Ended-rest refl e) (omega arith)
    primary-Leaves (suc f) (token string s p ∷ ts) h e = string_node-Leaves _ ts (Ended-rest refl e)
    primary-Leaves (suc f) (token lparen s p ∷ ts) h e =
        Leaves-bind _ (expr-Leaves f ts (omega arith) (Ended-rest refl e)) λ n rest e' l.
          Leaves-bind _ (expect_rparen-Leaves rest e') λ x rest' e'' l'. leaves e'' (omega arith)
    primary-Leaves (suc f) (token ident name p ∷ ts) h e = elim (Option-cases (literal_word name)) [
      | inl n ↦ rw (n, parse_primary) (named-Leaves f name ts (omega arith) (Ended-rest refl e))
      | inr (o, m) ↦ rw (m, parse_primary) (leaves (Ended-rest refl e) (omega arith))
    ]
    primary-Leaves (suc f) (token k s p ∷ ts) h e = refuses refl

    named-Leaves :
        (f : ℕ) (name : Text) (ts : Tokens)
        → 10 * length ts + 10 < f
        → Ended ts
        → Leaves (suc (length ts)) (parse_named u f name ts)
    named-Leaves zero name ts h e = absurd (omega arith)
    named-Leaves (suc f) name [] h e = absurd (elim e [ ])
    named-Leaves (suc f) name (token lparen s p ∷ ts) h e =
        Leaves-bind _ (args-Leaves f ts (omega arith) (Ended-rest refl e)) λ args rest e' l.
          Leaves-bind _ (expect_rparen-Leaves rest e')
            λ x rest' e'' l'. Leaves-le (omega arith) (known_call-Leaves name args rest' e'')
    named-Leaves (suc f) name (token k s p ∷ ts) h e = leaves e (omega arith)

    args-Leaves :
        (f : ℕ) (ts : Tokens)
        → 10 * length ts + 10 < f
        → Ended ts
        → Leaves (suc (length ts)) (parse_args u f ts)
    args-Leaves zero ts h e = absurd (omega arith)
    args-Leaves (suc f) [] h e = absurd (elim e [ ])
    args-Leaves (suc f) (token rparen s p ∷ ts) h e = leaves e (omega arith)
    args-Leaves (suc f) (token k s p ∷ ts) h e =
        Leaves-bind _ (expr-Leaves f (token k s p ∷ ts) (omega arith) e) λ n rest e' l.
          Leaves-bind _ (more-Leaves f rest (omega arith) e')
            λ args rest' e'' l'. leaves e'' (omega arith)

    more-Leaves :
        (f : ℕ) (ts : Tokens)
        → 10 * length ts + 10 < f
        → Ended ts
        → Leaves (suc (length ts)) (parse_more u f ts)
    more-Leaves zero ts h e = absurd (omega arith)
    more-Leaves (suc f) [] h e = absurd (elim e [ ])
    more-Leaves (suc f) (token comma s p ∷ ts) h e =
        Leaves-bind _ (expr-Leaves f ts (omega arith) (Ended-rest refl e)) λ n rest e' l.
          Leaves-bind _ (more-Leaves f rest (omega arith) e')
            λ args rest' e'' l'. leaves e'' (omega arith)
    more-Leaves (suc f) (token k s p ∷ ts) h e = leaves e (omega arith)

-- The outcome of a whole run: a tree, an unsupported formula, or the escapes of a literal that do not decode.
pub data Settles : Result Node → Type 0 where
  settles : (n : Node) → Settles (ok n)
  declines : {e : FormulaError} → is_unsupported e ≡ true → Settles (raise e)
  undecoded : Settles (raise undecodable)

refusal-Settles : (e : FormulaError) → is_refusal e ≡ true → Settles (raise e)
refusal-Settles undecodable h = undecoded
refusal-Settles (unexpected_character p c) h = declines refl
refusal-Settles (expected k t) h = declines refl
refusal-Settles (unknown_function s) h = declines refl
refusal-Settles (unexpected_token t) h = declines refl
refusal-Settles (trailing_input t) h = declines refl
refusal-Settles (global_variable s) h = declines refl
refusal-Settles (unsupported_unary s) h = declines refl
refusal-Settles (unsupported_binary s) h = declines refl
refusal-Settles (unsupported_function s) h = declines refl
refusal-Settles (wrong_arity s n) h = declines refl
refusal-Settles index_error h = cc
refusal-Settles out_of_fuel h = cc

finish-Settles : (u : Unicode) (n : Node) (ts : Tokens) → Ended ts → Settles (finish u n ts)
unfolding finish
finish-Settles u n [] e = absurd (elim e [ ])
finish-Settles u n (token eof s p ∷ ts) e = settles n
finish-Settles u n (token k s p ∷ ts) e = declines refl

Leaves-finish :
    (u : Unicode) {m : ℕ} {r : Result (Node × Tokens)}
    → Leaves m r
    → Settles (bind r λ (n, rest). finish u n rest)
Leaves-finish u (leaves {a} {rest} e l) = finish-Settles u a rest e
Leaves-finish u (refuses {e} h) = refusal-Settles e h

-- On tokens that end with the end mark the parser returns a tree, raises UnsupportedFormulaError, or
-- raises UnicodeDecodeError, for the escapes of a text literal: it neither reads past the last token nor runs out of its ten units of fuel for each
-- token.
pub parse_tokens-Settles : (u : Unicode) (ts : Tokens) → Ended ts → Settles (parse_tokens u ts)
unfolding parse_tokens
parse_tokens-Settles u ts e =
    Leaves-finish u (expr-Leaves u (10 * length ts + 10) ts (omega arith) e)
