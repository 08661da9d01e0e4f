-- ===== src/Formula/Grammar/Sound.antt =====
-- That the tree which the parser returns is one that the grammar derives from the tokens it read.
use salesforce.Common.{
  ℕ, zero, suc, ◌+◌, ◌*◌, ◌≡◌, refl, ap, none, [], ◌∷◌, ◌++◌, append-nil, append_assoc, length, inl,
  inr,
}
use salesforce.Common.Exec.{ok}
use salesforce.Formula.{
  Text, Unicode, Tokens, token, number, string, ident, lparen, rparen, comma, plus, minus, bang,
  eof,
}
use salesforce.Formula.Ast.{Node}
use salesforce.Formula.Literal.{decode_string}
use salesforce.Formula.Parser.{
  Result, bind, known_call, parse_expr, parse_or, parse_and, parse_cmp, parse_add, parse_mul,
  parse_unary, parse_postfix, parse_primary, parse_named, parse_args, parse_more, finish,
  parse_tokens, literal_word, or_op, and_op, cmp_op, add_op, mul_op,
}
use salesforce.Formula.Parser.Leaves.{Option-cases}
use salesforce.Formula.Grammar.{
  Or, or_one, or_more, And, and_one, and_more, Cmp, cmp_one, cmp_two, Add, add_one, add_more, Mul,
  mul_one, mul_more, Unary, negated, banged, Primary, a_number, grouped, a_word, a_name, a_call,
  Args, no_args, first_arg, More, no_more, next_arg, Sentence, sentence,
}
use salesforce.Formula.Grammar.Derives.{
  Derives, derives, fails, Derives-bind, Derives-shift, level-Derives, operand_once-Derives,
  rparen-Derives, positive_run, parse_path-Derives, string_node-Derives, known_call-Derives,
}

module _ (u : Unicode) where
  mutual
    unfolding parse_expr

    expr-Derives : (f : ℕ) (ts : Tokens) → Derives (Or u) [] ts (parse_expr u f ts)
    expr-Derives zero ts = fails
    expr-Derives (suc f) ts = Or-Derives f ts

    Or-Derives : (f : ℕ) (ts : Tokens) → Derives (Or u) [] ts (parse_or u f ts)
    Or-Derives zero ts = fails
    Or-Derives (suc f) ts =
        level-Derives or_op (parse_and u f) (Or u) (And u) (λ ls rs l r t o. or_more t)
          (And-Derives f) (λ ts n. or_one) f ts

    And-Derives : (f : ℕ) (ts : Tokens) → Derives (And u) [] ts (parse_and u f ts)
    And-Derives zero ts = fails
    And-Derives (suc f) ts =
        level-Derives and_op (parse_cmp u f) (And u) (Cmp u) (λ ls rs l r t o. and_more t)
          (Cmp-Derives f) (λ ts n. and_one) f ts

    Cmp-Derives : (f : ℕ) (ts : Tokens) → Derives (Cmp u) [] ts (parse_cmp u f ts)
    Cmp-Derives zero ts = fails
    Cmp-Derives (suc f) ts = Derives-bind _ (Add-Derives f ts) λ left mine rest d e.
        Derives-shift [] mine e (
          operand_once-Derives cmp_op (parse_add u f) (Cmp u) (Add u) (λ ts n. cmp_one)
            (λ ls rs l r t o. cmp_two t) (Add-Derives f) left mine rest d)

    Add-Derives : (f : ℕ) (ts : Tokens) → Derives (Add u) [] ts (parse_add u f ts)
    Add-Derives zero ts = fails
    Add-Derives (suc f) ts =
        level-Derives add_op (parse_mul u f) (Add u) (Mul u) (λ ls rs l r t o. add_more t)
          (Mul-Derives f) (λ ts n. add_one) f ts

    Mul-Derives : (f : ℕ) (ts : Tokens) → Derives (Mul u) [] ts (parse_mul u f ts)
    Mul-Derives zero ts = fails
    Mul-Derives (suc f) ts =
        level-Derives mul_op (parse_unary u f) (Mul u) (Unary u) (λ ls rs l r t o. mul_more t)
          (Unary-Derives f) (λ ts n. mul_one) f ts

    Unary-Derives : (f : ℕ) (ts : Tokens) → Derives (Unary u) [] ts (parse_unary u f ts)
    Unary-Derives zero ts = fails
    Unary-Derives (suc f) [] = postfix-Derives f []
    Unary-Derives (suc f) (token minus s p ∷ ts) =
        Derives-bind _ (Unary-Derives f ts) λ n mine rest d e.
          derives (token minus s p ∷ mine) (negated d) (ap (λ us. token minus s p ∷ us) e)
    Unary-Derives (suc f) (token plus s p ∷ ts) =
        Derives-shift [] (token plus s p ∷ []) refl (positive_run (Unary-Derives f ts))
    Unary-Derives (suc f) (token bang s p ∷ ts) =
        Derives-bind _ (Unary-Derives f ts) λ n mine rest d e.
          derives (token bang s p ∷ mine) (banged d) (ap (λ us. token bang s p ∷ us) e)
    Unary-Derives (suc f) (token k s p ∷ ts) = postfix-Derives f (token k s p ∷ ts)

    postfix-Derives : (f : ℕ) (ts : Tokens) → Derives (Unary u) [] ts (parse_postfix u f ts)
    postfix-Derives zero ts = fails
    postfix-Derives (suc f) ts =
        Derives-bind _ (Primary-Derives f ts)
          λ n mine rest d e. Derives-shift [] mine e (parse_path-Derives u n mine rest d)

    Primary-Derives : (f : ℕ) (ts : Tokens) → Derives (Primary u) [] ts (parse_primary u f ts)
    Primary-Derives zero ts = fails
    Primary-Derives (suc f) [] = fails
    Primary-Derives (suc f) (token number s p ∷ ts) = derives (token number s p ∷ []) a_number refl
    Primary-Derives (suc f) (token string s p ∷ ts) =
        string_node-Derives u s p (decode_string u s) ts refl
    Primary-Derives (suc f) (token lparen s p ∷ ts) =
        Derives-bind _ (expr-Derives f ts) λ n mine rest d e.
          Derives-shift [] (token lparen s p ∷ mine) (ap (λ us. token lparen s p ∷ us) e) (
            rparen-Derives (token lparen s p ∷ mine) rest (λ us. ok (n, us))
              λ s' p' us. derives [] (rw append-nil (grouped s' p' d)) refl)
    Primary-Derives (suc f) (token ident name p ∷ ts) = elim (Option-cases (literal_word name)) [
      | inl n ↦ rw (n, parse_primary) (named-Derives f name p n ts)
      | inr (o, m) ↦ rw (m, parse_primary) (derives (token ident name p ∷ []) (a_word m) refl)
    ]
    Primary-Derives (suc f) (token k s p ∷ ts) = fails

    named-Derives :
        (f : ℕ) (name : Text) (p : ℕ)
        → literal_word name ≡ none
        → (ts : Tokens) → Derives (Primary u) [] (token ident name p ∷ ts) (parse_named u f name ts)
    named-Derives zero name p h ts = fails
    named-Derives (suc f) name p h [] = fails
    named-Derives (suc f) name p h (token lparen s q ∷ ts) =
        Derives-bind _ (Args-Derives f ts) λ args mine rest d e.
          Derives-shift [] (token ident name p ∷ token lparen s q ∷ mine)
            (ap (λ us. token ident name p ∷ token lparen s q ∷ us) e)
            (rparen-Derives (token ident name p ∷ token lparen s q ∷ mine) rest
              (known_call name args)
              λ s' q' us. known_call-Derives u name args us _ λ known. a_call s' q' h known d)
    named-Derives (suc f) name p h (token k s q ∷ ts) =
        derives (token ident name p ∷ []) (a_name h) refl

    Args-Derives : (f : ℕ) (ts : Tokens) → Derives (Args u) [] ts (parse_args u f ts)
    Args-Derives zero ts = fails
    Args-Derives (suc f) [] = fails
    Args-Derives (suc f) (token rparen s p ∷ ts) = derives [] no_args refl
    Args-Derives (suc f) (token k s p ∷ ts) =
        Derives-bind _ (expr-Derives f (token k s p ∷ ts)) λ n mine rest d e.
          Derives-bind _ (More-Derives f rest) λ args mine' rest' d' e'.
            derives (mine ++ mine') (first_arg d d') (cc (append_assoc mine mine' rest', e, e'))

    More-Derives : (f : ℕ) (ts : Tokens) → Derives (More u) [] ts (parse_more u f ts)
    More-Derives zero ts = fails
    More-Derives (suc f) [] = fails
    More-Derives (suc f) (token comma s p ∷ ts) =
        Derives-bind _ (expr-Derives f ts) λ n mine rest d e.
          Derives-bind _ (More-Derives f rest) λ args mine' rest' d' e'.
            derives (token comma s p ∷ mine ++ mine') (next_arg d d')
              (ap (λ us. token comma s p ∷ us) (cc (append_assoc mine mine' rest', e, e')))
    More-Derives (suc f) (token k s p ∷ ts) = derives [] no_more refl

finish-end :
    (u : Unicode) (n m : Node) (ts : Tokens)
    → finish u n ts ≡ ok m
    → (n ≡ m) × ((s : Text) × (p : ℕ) × (more : Tokens) × (ts ≡ token eof s p ∷ more))
unfolding finish
finish-end u n m [] h = cc
finish-end u n m (token eof s p ∷ ts) h = (cc, (s, p, ts, refl))
finish-end u n m (token _ s p ∷ ts) h = cc

Derives-finish :
    (u : Unicode) {n : Node} {ts : Tokens} {r : Result (Node × Tokens)}
    → Derives (Or u) [] ts r
    → (bind r λ (m, rest). finish u m rest) ≡ ok n
    → Sentence u ts n
Derives-finish u {n} (derives {a} {rest} mine d e) h =
    let (same, (s, p, more, j)) = finish-end u a n rest h in
    sentence {mine = mine} s p more (rw (← same) d) (cc (e, j))
Derives-finish u fails h = cc

-- Whatever tree the parser returns for a list of tokens, the grammar derives it from the tokens before
-- an end mark.
pub parse_tokens_sound :
    (u : Unicode) (ts : Tokens) (n : Node) → parse_tokens u ts ≡ ok n → Sentence u ts n
unfolding parse_tokens
parse_tokens_sound u ts n h = Derives-finish u (expr-Derives u (10 * length ts + 10) ts) h
