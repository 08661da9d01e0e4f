-- ===== src/Formula/Parser/Leaves.antt =====
-- What a parser leaves of the tokens, and the loops and checks that take no fuel or a loop's.
use salesforce.Common.{
  ℕ, zero, suc, ◌≤◌, ◌<◌, ◌≡◌, refl, Bool, true, false, Option, none, some, [], ◌∷◌, length, arith,
  Bool-cases, ◌⊎◌, inl, inr,
}
use salesforce.Common.Exec.{ok, raise}
use salesforce.Formula.{
  Text, Token, Tokens, FormulaError, token, ident, dot, rparen, eof, index_error, out_of_fuel,
  undecodable,
}
use salesforce.Formula.Ast.{Node, Nodes, ident_ref, binary_op}
use salesforce.Formula.Parser.{
  Result, Parser, bind, ◌>>=◌, or_op, and_op, cmp_op, add_op, mul_op, operands, operand_once,
  expect_rparen, dotted, parse_path, one_of, upper, known_functions, known_call, string_node,
}

-- A list of tokens whose last one is the end.
pub data Ended : Tokens → Type 0 where
  at_end : {s : Text} {p : ℕ} → Ended (token eof s p ∷ [])
  further : {t : Token} {ts : Tokens} → Ended ts → Ended (t ∷ ts)

pub Option-cases : {A : Type 0} (o : Option A) → (o ≡ none) ⊎ ((a : A) × (o ≡ some a))
Option-cases none = inl refl
Option-cases (some a) = inr (a, refl)

abbrev pub is_end : Token → Bool
is_end (token eof s p) = true
is_end _ = false

pub Ended-rest : {t : Token} {ts : Tokens} → is_end t ≡ false → Ended (t ∷ ts) → Ended ts
Ended-rest h at_end = cc
Ended-rest h (further e) = e

-- `UnsupportedFormulaError`, the error that the parser documents.
abbrev pub is_unsupported : FormulaError → Bool
is_unsupported undecodable = false
is_unsupported index_error = false
is_unsupported out_of_fuel = false
is_unsupported _ = true

-- The errors that leave a run: that one, and what Python raises for the escapes of a literal.
abbrev pub is_refusal : FormulaError → Bool
is_refusal index_error = false
is_refusal out_of_fuel = false
is_refusal _ = true

-- A run that leaves fewer than `n` tokens, the end among them, or refuses its input.
pub data Leaves {A : Type 0} (n : ℕ) : Result (A × Tokens) → Type 0 where
  leaves : {a : A} {rest : Tokens} → Ended rest → length rest < n → Leaves n (ok (a, rest))
  refuses : {e : FormulaError} → is_refusal e ≡ true → Leaves n (raise e)

-- A parser that reads a token at least, on the fuel that `k` and the tokens need.
abbrev pub Consumes : {A : Type 0} → Parser A → Tokens → Type 0
Consumes p ts = Ended ts → Leaves (length ts) (p ts)

module _ {A B : Type 0} where
  pub Leaves-bind :
      {m n : ℕ} {r : Result (A × Tokens)} (g : A × Tokens → Result (B × Tokens))
      → Leaves m r
      → ((a : A) (rest : Tokens) → Ended rest → length rest < m → Leaves n (g (a, rest)))
      → Leaves n (bind r g)
  Leaves-bind g (leaves {a} {rest} e l) k = k a rest e l
  Leaves-bind g (refuses h) k = refuses h

pub Leaves-le : {A : Type 0} {m n : ℕ} {r : Result (A × Tokens)} → m ≤ n → Leaves m r → Leaves n r
Leaves-le h (leaves e l) = leaves e (omega arith)
Leaves-le h (refuses g) = refuses g

pub operands-Leaves :
    (op : Token → Option Text) (operand : Parser Node) (bound : ℕ)
    → ((t : Token) (o : Text) → op t ≡ some o → is_end t ≡ false)
    → ((ts : Tokens) → length ts < bound → Consumes operand ts)
    → (f : ℕ) (left : Node) (ts : Tokens) → Ended ts
    → length ts ≤ bound
    → length ts < f
    → Leaves (suc (length ts)) (operands op operand f left ts)
unfolding operands
operands-Leaves op operand bound no_end reads zero left ts e b h = absurd (omega arith)
operands-Leaves op operand bound no_end reads (suc f) left [] e b h = absurd (elim e [ ])
operands-Leaves op operand bound no_end reads (suc f) left (t ∷ ts) e b h =
    elim (Option-cases (op t)) [
      | inl n ↦ rw (n, operands) (leaves e (omega arith))
      | inr (o, m) ↦
          rw (m, operands)
            (Leaves-bind _ (reads ts (omega arith) (Ended-rest (no_end t o m) e)) λ a rest e' l.
              Leaves-le (omega arith) (
                operands-Leaves op operand bound no_end reads f (binary_op o left a) rest e'
                  (omega arith) (omega arith)))
    ]

pub operand_once-Leaves :
    (op : Token → Option Text) (operand : Parser Node)
    → ((t : Token) (o : Text) → op t ≡ some o → is_end t ≡ false)
    → (left : Node) (ts : Tokens) → ((us : Tokens) → length us < length ts → Consumes operand us)
    → Ended ts
    → Leaves (suc (length ts)) (operand_once op operand left ts)
unfolding operand_once
operand_once-Leaves op operand no_end left [] reads e = absurd (elim e [ ])
operand_once-Leaves op operand no_end left (t ∷ ts) reads e = elim (Option-cases (op t)) [
  | inl n ↦ rw (n, operand_once) (leaves e (omega arith))
  | inr (o, m) ↦
      rw (m, operand_once)
        (Leaves-bind _ (reads ts (omega arith) (Ended-rest (no_end t o m) e))
          λ a rest e' l. leaves e' (omega arith))
]

-- A level of the grammar: an operand, and the loop over the operators after it.
pub level-Leaves :
    (op : Token → Option Text) (operand : Parser Node)
    → ((t : Token) (o : Text) → op t ≡ some o → is_end t ≡ false)
    → (f : ℕ) (ts : Tokens) → ((us : Tokens) → length us ≤ length ts → Consumes operand us)
    → length ts < f
    → Consumes (operand >>= operands op operand f) ts
level-Leaves op operand no_end f ts reads h e =
    Leaves-bind _ (reads ts (omega arith) e) λ a rest e' l. Leaves-le (omega arith) (
      operands-Leaves op operand (length ts) no_end (λ us k. reads us (omega arith)) f a rest e'
        (omega arith) (omega arith))

pub or_op-no_end : (t : Token) (o : Text) → or_op t ≡ some o → is_end t ≡ false
unfolding or_op
or_op-no_end (token eof s p) o h = cc
or_op-no_end (token _ s p) o h = refl

pub and_op-no_end : (t : Token) (o : Text) → and_op t ≡ some o → is_end t ≡ false
unfolding and_op
and_op-no_end (token eof s p) o h = cc
and_op-no_end (token _ s p) o h = refl

pub cmp_op-no_end : (t : Token) (o : Text) → cmp_op t ≡ some o → is_end t ≡ false
unfolding cmp_op
cmp_op-no_end (token eof s p) o h = cc
cmp_op-no_end (token _ s p) o h = refl

pub add_op-no_end : (t : Token) (o : Text) → add_op t ≡ some o → is_end t ≡ false
unfolding add_op
add_op-no_end (token eof s p) o h = cc
add_op-no_end (token _ s p) o h = refl

pub mul_op-no_end : (t : Token) (o : Text) → mul_op t ≡ some o → is_end t ≡ false
unfolding mul_op
mul_op-no_end (token eof s p) o h = cc
mul_op-no_end (token _ s p) o h = refl

pub expect_rparen-Leaves : (ts : Tokens) → Ended ts → Leaves (length ts) (expect_rparen ts)
unfolding expect_rparen
expect_rparen-Leaves [] e = absurd (elim e [ ])
expect_rparen-Leaves (token rparen s p ∷ ts) e = leaves (Ended-rest refl e) (omega arith)
expect_rparen-Leaves (token _ s p ∷ ts) e = refuses refl

pub dotted-Leaves : (ts : Tokens) → Ended ts → Leaves (suc (length ts)) (dotted ts)
unfolding dotted
dotted-Leaves [] e = absurd (elim e [ ])
dotted-Leaves (token dot s p ∷ []) e = absurd (elim (Ended-rest refl e) [ ])
dotted-Leaves (token dot s p ∷ token ident name q ∷ ts) e =
    Leaves-bind _ (dotted-Leaves ts (Ended-rest refl (Ended-rest refl e)))
      λ parts rest e' l. leaves e' (omega arith)
dotted-Leaves (token dot s p ∷ token _ name q ∷ ts) e = refuses refl
dotted-Leaves (token _ s p ∷ ts) e = leaves e (omega arith)

pub parse_path-Leaves :
    (n : Node) (ts : Tokens) → Ended ts → Leaves (suc (length ts)) (parse_path n ts)
unfolding parse_path
parse_path-Leaves (ident_ref name) ts e =
    Leaves-bind _ (dotted-Leaves ts e) λ parts rest e' l. leaves e' l
parse_path-Leaves _ ts e = leaves e (omega arith)

pub known_call-Leaves :
    (name : Text) (args : Nodes) (ts : Tokens)
    → Ended ts
    → Leaves (suc (length ts)) (known_call name args ts)
unfolding known_call
known_call-Leaves name args ts e = elim (Bool-cases (one_of (upper name) known_functions)) [
  | inl h ↦ rw h (leaves e (omega arith))
  | inr h ↦ rw h (refuses refl)
]

pub string_node-Leaves :
    (o : Option Text) (ts : Tokens) → Ended ts → Leaves (suc (length ts)) (string_node o ts)
unfolding string_node
string_node-Leaves none ts e = refuses refl
string_node-Leaves (some v) ts e = leaves e (omega arith)
