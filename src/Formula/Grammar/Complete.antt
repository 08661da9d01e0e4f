-- ===== src/Formula/Grammar/Complete.antt =====
-- That the parser reads every expression of the grammar, from more than ten units of fuel for each of its
-- tokens.
use salesforce.Common.{
  ℕ, zero, suc, ◌+◌, ◌*◌, ◌<◌, ◌≡◌, refl, [], ◌∷◌, ◌++◌, append_assoc, length, length-append, arith,
}
use salesforce.Common.Exec.{ok}
use salesforce.Formula.{Text, Unicode, Tokens, token, rparen}
use salesforce.Formula.Ast.{Node, Nodes}
use salesforce.Formula.Parser.{
  expect_rparen, string_node, parse_expr, parse_or, parse_and, parse_cmp, parse_add, parse_mul,
  parse_unary, parse_primary, parse_args, parse_more, or_op, and_op, cmp_op, add_op, mul_op,
}
use salesforce.Formula.Grammar.{
  Or, or_one, or_more, And, and_one, and_more, Cmp, cmp_one, cmp_two, Add, add_one, add_more, Mul,
  mul_one, mul_more, Unary, negated, positive, banged, plain, path, Primary, a_number, a_string,
  grouped, a_word, a_name, a_call, Args, no_args, first_arg, More, no_more, next_arg,
}
use salesforce.Formula.Grammar.Follow.{
  Stops, stops, Stops-le, or_op-Ranked, and_op-Ranked, cmp_op-Ranked, add_op-Ranked, mul_op-Ranked,
  Runs, runs, Runs-more, Runs-stop,
}
use salesforce.Formula.Grammar.Steps.{
  Or-Opens, operand_once-stop, operand_once-more, parse_path-plain, dotted-Dots, Stops-Dots,
  unary-Primary, named-stop, path_of, known_call-known, Opens-append, args-both, Stops-More,
}

module _ (u : Unicode) where
  mutual
    unfolding parse_expr expect_rparen string_node

    Or-Runs :
        {ts : Tokens} {n : Node}
        → Or u ts n
        → (f : ℕ) (rest : Tokens) → Stops 2 rest
        → 10 * length ts + 8 < f
        → Runs or_op (parse_and u) (parse_or u f (ts ++ rest)) f ts n rest
    Or-Runs d zero rest st b = absurd (omega arith)
    Or-Runs (or_one d) (suc f) rest st b = runs f f refl (omega arith) (
        rw
          ((Runs-stop 2 and_op-Ranked (omega arith) (Stops-le (omega arith) st)
            (And-Runs d f rest (Stops-le (omega arith) st) (omega arith))))
          refl)
    Or-Runs (or_more {ls} {rs} {l} {r} {o} t h d e) (suc f) rest st b =
        let sizes = length-append ls (t ∷ rs) in
        rw (append_assoc ls (t ∷ rs) rest) (
          Runs-more t rs h (omega arith)
            (Or-Runs d (suc f) (t ∷ rs ++ rest) (stops t _ (omega (arith, or_op-Ranked t o h)))
              (omega arith))
            λ g j.
              (Runs-stop 2 and_op-Ranked (omega arith) (Stops-le (omega arith) st)
                (And-Runs e g rest (Stops-le (omega arith) st) (omega arith))))

    And-Runs :
        {ts : Tokens} {n : Node}
        → And u ts n
        → (f : ℕ) (rest : Tokens) → Stops 3 rest
        → 10 * length ts + 7 < f
        → Runs and_op (parse_cmp u) (parse_and u f (ts ++ rest)) f ts n rest
    And-Runs d zero rest st b = absurd (omega arith)
    And-Runs (and_one d) (suc f) rest st b =
        runs f f refl (omega arith) (rw (Cmp-Reads d f rest st (omega arith)) refl)
    And-Runs (and_more {ls} {rs} {l} {r} {o} t h d e) (suc f) rest st b =
        let sizes = length-append ls (t ∷ rs) in
        rw (append_assoc ls (t ∷ rs) rest) (
          Runs-more t rs h (omega arith)
            (And-Runs d (suc f) (t ∷ rs ++ rest) (stops t _ (omega (arith, and_op-Ranked t o h)))
              (omega arith))
            λ g j. Cmp-Reads e g rest st (omega arith))

    Add-Runs :
        {ts : Tokens} {n : Node}
        → Add u ts n
        → (f : ℕ) (rest : Tokens) → Stops 5 rest
        → 10 * length ts + 5 < f
        → Runs add_op (parse_mul u) (parse_add u f (ts ++ rest)) f ts n rest
    Add-Runs d zero rest st b = absurd (omega arith)
    Add-Runs (add_one d) (suc f) rest st b = runs f f refl (omega arith) (
        rw
          ((Runs-stop 5 mul_op-Ranked (omega arith) (Stops-le (omega arith) st)
            (Mul-Runs d f rest (Stops-le (omega arith) st) (omega arith))))
          refl)
    Add-Runs (add_more {ls} {rs} {l} {r} {o} t h d e) (suc f) rest st b =
        let sizes = length-append ls (t ∷ rs) in
        rw (append_assoc ls (t ∷ rs) rest) (
          Runs-more t rs h (omega arith)
            (Add-Runs d (suc f) (t ∷ rs ++ rest) (stops t _ (omega (arith, add_op-Ranked t o h)))
              (omega arith))
            λ g j.
              (Runs-stop 5 mul_op-Ranked (omega arith) (Stops-le (omega arith) st)
                (Mul-Runs e g rest (Stops-le (omega arith) st) (omega arith))))

    Mul-Runs :
        {ts : Tokens} {n : Node}
        → Mul u ts n
        → (f : ℕ) (rest : Tokens) → Stops 6 rest
        → 10 * length ts + 4 < f
        → Runs mul_op (parse_unary u) (parse_mul u f (ts ++ rest)) f ts n rest
    Mul-Runs d zero rest st b = absurd (omega arith)
    Mul-Runs (mul_one d) (suc f) rest st b =
        runs f f refl (omega arith) (rw (Unary-Reads d f rest st (omega arith)) refl)
    Mul-Runs (mul_more {ls} {rs} {l} {r} {o} t h d e) (suc f) rest st b =
        let sizes = length-append ls (t ∷ rs) in
        rw (append_assoc ls (t ∷ rs) rest) (
          Runs-more t rs h (omega arith)
            (Mul-Runs d (suc f) (t ∷ rs ++ rest) (stops t _ (omega (arith, mul_op-Ranked t o h)))
              (omega arith))
            λ g j. Unary-Reads e g rest st (omega arith))

    Cmp-Reads :
        {ts : Tokens} {n : Node}
        → Cmp u ts n
        → (f : ℕ) (rest : Tokens) → Stops 3 rest
        → 10 * length ts + 6 < f
        → parse_cmp u f (ts ++ rest) ≡ ok (n, rest)
    Cmp-Reads d zero rest st b = absurd (omega arith)
    Cmp-Reads (cmp_one {n = n} d) (suc f) rest st b =
        rw
          ((Runs-stop 4 add_op-Ranked (omega arith) (Stops-le (omega arith) st)
            (Add-Runs d f rest (Stops-le (omega arith) st) (omega arith))))
          (operand_once-stop cmp_op (parse_add u f) 3 n rest cmp_op-Ranked st)
    Cmp-Reads (cmp_two {ls} {rs} {l} {r} {o} t h d e) (suc f) rest st b =
        let sizes = length-append ls (t ∷ rs) in
        let next : Stops 4 (t ∷ rs ++ rest) =
          stops t (rs ++ rest) (omega (arith, cmp_op-Ranked t o h)) in
        rw
          (
            append_assoc ls (t ∷ rs) rest,
            Runs-stop 4 add_op-Ranked (omega arith) next
                (Add-Runs d f (t ∷ rs ++ rest) (Stops-le (omega arith) next) (omega arith)),
          )
          (operand_once-more cmp_op (parse_add u f) l r o t (rs ++ rest) rest h (
            Runs-stop 4 add_op-Ranked (omega arith) (Stops-le (omega arith) st)
              (Add-Runs e f rest (Stops-le (omega arith) st) (omega arith))))

    Unary-Reads :
        {ts : Tokens} {n : Node}
        → Unary u ts n
        → (f : ℕ) (rest : Tokens) → Stops 6 rest
        → 10 * length ts + 3 < f
        → parse_unary u f (ts ++ rest) ≡ ok (n, rest)
    Unary-Reads d zero rest st b = absurd (omega arith)
    Unary-Reads d (suc zero) rest st b = absurd (omega arith)
    Unary-Reads (negated d) (suc (suc f)) rest st b =
        rw (Unary-Reads d (suc f) rest st (omega arith)) refl
    Unary-Reads (positive d) (suc (suc f)) rest st b = Unary-Reads d (suc f) rest st (omega arith)
    Unary-Reads (banged d) (suc (suc f)) rest st b =
        rw (Unary-Reads d (suc f) rest st (omega arith)) refl
    Unary-Reads (plain {n = n} h d) (suc (suc f)) rest st b =
        rw
          (
            unary-Primary u (suc f) rest d,
            Primary-Reads d f rest (Stops-le (omega arith) st) (omega arith),
          )
          (parse_path-plain n rest h)
    Unary-Reads (path {ts} {ds} {name} {parts} d ds') (suc (suc f)) rest st b =
        let sizes = length-append ts ds in
        rw
          (
            append_assoc ts ds rest,
            unary-Primary u (suc f) (ds ++ rest) d,
            Primary-Reads d f (ds ++ rest) (Stops-Dots rest ds' st) (omega arith),
          )
          (path_of name (ds ++ rest) (dotted-Dots rest ds' st))

    Primary-Reads :
        {ts : Tokens} {n : Node}
        → Primary u ts n
        → (f : ℕ) (rest : Tokens) → Stops 7 rest
        → 10 * length ts + 1 < f
        → parse_primary u f (ts ++ rest) ≡ ok (n, rest)
    Primary-Reads d zero rest st b = absurd (omega arith)
    Primary-Reads d (suc zero) rest st b = absurd (omega arith)
    Primary-Reads a_number (suc (suc f)) rest st b = refl
    Primary-Reads (a_string h) (suc (suc f)) rest st b = rw h refl
    Primary-Reads (grouped {s} {p} {ts} {n} s' p' d) (suc (suc f)) rest st b =
        let sizes = length-append ts (token rparen s' p' ∷ []) in
        let next : Stops 1 (token rparen s' p' ∷ rest) = stops _ _ (omega arith) in
        rw
          (
            append_assoc ts (token rparen s' p' ∷ []) rest,
            Runs-stop 1 or_op-Ranked (omega arith) next (
                Or-Runs d f (token rparen s' p' ∷ rest) (Stops-le (omega arith) next)
                  (omega arith)),
          )
          refl
    Primary-Reads (a_word h) (suc (suc f)) rest st b = rw (h, parse_primary) refl
    Primary-Reads (a_name {name} h) (suc (suc f)) rest st b =
        rw (h, parse_primary) (named-stop u f name rest st)
    Primary-Reads (a_call {name} {s} {p} {q} {ts} {args} s' q' h k d) (suc (suc f)) rest st b =
        let sizes = length-append ts (token rparen s' q' ∷ []) in
        rw
          (
            h,
            parse_primary,
            append_assoc ts (token rparen s' q' ∷ []) rest,
            Args-Reads d f s' q' rest (omega arith),
          )
          (known_call-known name args rest k)

    Args-Reads :
        {ts : Tokens} {args : Nodes}
        → Args u ts args
        → (f : ℕ) (s : Text) (p : ℕ) (rest : Tokens) → 10 * length ts + 10 < f
        → parse_args u f (ts ++ token rparen s p ∷ rest) ≡ ok (args, token rparen s p ∷ rest)
    Args-Reads d zero s p rest b = absurd (omega arith)
    Args-Reads d (suc zero) s p rest b = absurd (omega arith)
    Args-Reads no_args (suc (suc f)) s p rest b = refl
    Args-Reads (first_arg {ts} {more} d m) (suc (suc f)) s p rest b =
        let sizes = length-append ts more in
        let st = Stops-More u s p rest m in
        rw (append_assoc ts more (token rparen s p ∷ rest)) (
          args-both u (suc f) _ (Opens-append _ (Or-Opens u d))
            (Runs-stop 1 or_op-Ranked (omega arith) st
              (Or-Runs d f _ (Stops-le (omega arith) st) (omega arith)))
            (More-Reads m (suc f) s p rest (omega arith)))

    More-Reads :
        {ts : Tokens} {args : Nodes}
        → More u ts args
        → (f : ℕ) (s : Text) (p : ℕ) (rest : Tokens) → 10 * length ts + 9 < f
        → parse_more u f (ts ++ token rparen s p ∷ rest) ≡ ok (args, token rparen s p ∷ rest)
    More-Reads d zero s p rest b = absurd (omega arith)
    More-Reads d (suc zero) s p rest b = absurd (omega arith)
    More-Reads no_more (suc (suc f)) s p rest b = refl
    More-Reads (next_arg {ts = ts} {more = more} d m) (suc (suc f)) s p rest b =
        let sizes = length-append ts more in
        let st = Stops-More u s p rest m in
        rw
          (
            append_assoc ts more (token rparen s p ∷ rest),
            Runs-stop 1 or_op-Ranked (omega arith) st
                (Or-Runs d f _ (Stops-le (omega arith) st) (omega arith)),
            More-Reads m (suc f) s p rest (omega arith),
          )
          refl

pub expr-Reads :
    (u : Unicode) {ts : Tokens} {n : Node}
    → Or u ts n
    → (f : ℕ) (rest : Tokens) → Stops 1 rest
    → 10 * length ts + 9 < f
    → parse_expr u f (ts ++ rest) ≡ ok (n, rest)
unfolding parse_expr
expr-Reads u d zero rest st b = absurd (omega arith)
expr-Reads u d (suc f) rest st b =
    Runs-stop 1 or_op-Ranked (omega arith) st
      (Or-Runs u d f rest (Stops-le (omega arith) st) (omega arith))
