-- ===== src/Formula/Grammar/Follow.antt =====
-- The loops over the operators, and what may follow the expressions of a level.
use salesforce.Common.{
  ℕ, zero, suc, ◌+◌, ◌≤◌, ◌<◌, ◌≡◌, refl, ◌∙◌, Option, none, some, ◌∷◌, ◌++◌, length, length-append,
  inl, inr, arith,
}
use salesforce.Common.Exec.{ok}
use salesforce.Formula.{
  Text, Token, Tokens, token, dot, rparen, comma, plus, minus, eof, star, slash, eq, neq, lt, le,
  gt, ge, and, or, amp,
}
use salesforce.Formula.Ast.{Node, binary_op}
use salesforce.Formula.Parser.{Result, Parser, operands, or_op, and_op, cmp_op, add_op, mul_op}
use salesforce.Formula.Parser.Leaves.{Option-cases}

-- How tightly a token that follows an expression binds: the operators by their levels, and what may end
-- an expression below them all.
abbrev pub rank : Token → ℕ
rank (token rparen s p) = 0
rank (token comma s p) = 0
rank (token eof s p) = 0
rank (token or s p) = 1
rank (token and s p) = 2
rank (token eq s p) = 3
rank (token neq s p) = 3
rank (token lt s p) = 3
rank (token le s p) = 3
rank (token gt s p) = 3
rank (token ge s p) = 3
rank (token plus s p) = 4
rank (token minus s p) = 4
rank (token amp s p) = 4
rank (token star s p) = 5
rank (token slash s p) = 5
rank (token dot s p) = 6
rank _ = 7

-- What follows an expression whose operators bind from the level `k` on.
pub data Stops (k : ℕ) : Tokens → Type 0 where
  stops : (t : Token) (ts : Tokens) → rank t < k → Stops k (t ∷ ts)

pub Stops-le : {j k : ℕ} {ts : Tokens} → j ≤ k → Stops j ts → Stops k ts
Stops-le h (stops t ts b) = stops t ts (omega arith)

-- Every operator of a level has the level's rank.
abbrev pub Ranked : (Token → Option Text) → ℕ → Type 0
Ranked op k = (t : Token) (o : Text) → op t ≡ some o → rank t ≡ k

pub or_op-Ranked : Ranked or_op 1
unfolding or_op
or_op-Ranked (token or s p) o h = refl
or_op-Ranked (token _ s p) o h = cc

pub and_op-Ranked : Ranked and_op 2
unfolding and_op
and_op-Ranked (token and s p) o h = refl
and_op-Ranked (token _ s p) o h = cc

pub cmp_op-Ranked : Ranked cmp_op 3
unfolding cmp_op
cmp_op-Ranked (token eq s p) o h = refl
cmp_op-Ranked (token neq s p) o h = refl
cmp_op-Ranked (token lt s p) o h = refl
cmp_op-Ranked (token le s p) o h = refl
cmp_op-Ranked (token gt s p) o h = refl
cmp_op-Ranked (token ge s p) o h = refl
cmp_op-Ranked (token _ s p) o h = cc

pub add_op-Ranked : Ranked add_op 4
unfolding add_op
add_op-Ranked (token plus s p) o h = refl
add_op-Ranked (token minus s p) o h = refl
add_op-Ranked (token amp s p) o h = refl
add_op-Ranked (token _ s p) o h = cc

pub mul_op-Ranked : Ranked mul_op 5
unfolding mul_op
mul_op-Ranked (token star s p) o h = refl
mul_op-Ranked (token slash s p) o h = refl
mul_op-Ranked (token _ s p) o h = cc

pub Ranked-none :
    {op : Token → Option Text} {k : ℕ} → Ranked op k → (t : Token) → rank t < k → op t ≡ none
Ranked-none {op} r t h = elim (Option-cases (op t)) [
  | inl n ↦ n
  | inr (o, m) ↦ absurd (omega (arith, r t o m))
]

-- A run that has come to the loop of its level, with enough fuel left for what follows.
pub data Runs (op : Token → Option Text) (operand : ℕ → Parser Node)
    (start : Result (Node × Tokens)) (f : ℕ) (ts : Tokens) (n : Node) (rest : Tokens) : Type 0 where
  runs :
      (g h : ℕ)
      → f ≡ suc g
      → g ≤ h + length ts
      → start ≡ operands op (operand g) h n rest
      → Runs op operand start f ts n rest

module _ {op : Token → Option Text} {operand : ℕ → Parser Node} {start : Result (Node × Tokens)}
    {f : ℕ} where
  -- One round of the loop.
  pub Runs-more :
      {ls rest : Tokens} {l r : Node} {o : Text} (t : Token) (rs : Tokens)
      → op t ≡ some o
      → length ls + 1 < f
      → Runs op operand start f ls l (t ∷ rs ++ rest)
      → ((g : ℕ) → f ≡ suc g → operand g (rs ++ rest) ≡ ok (r, rest))
      → Runs op operand start f (ls ++ t ∷ rs) (binary_op o l r) rest
  unfolding operands
  Runs-more t rs e b (runs g zero j k s) reads = absurd (omega arith)
  Runs-more {ls} t rs e b (runs g (suc h) j k s) reads =
      runs g h j (omega (arith, length-append ls (t ∷ rs))) (s ∙ rw (e, operands, reads g j) refl)

  -- The end of the loop.
  pub Runs-stop :
      {ts rest : Tokens} {n : Node} (k : ℕ)
      → Ranked op k
      → length ts + 1 < f
      → Stops k rest
      → Runs op operand start f ts n rest
      → start ≡ ok (n, rest)
  unfolding operands
  Runs-stop k r b st (runs g zero j l s) = absurd (omega arith)
  Runs-stop k r b (stops t ts below) (runs g (suc h) j l s) =
      s ∙ rw (Ranked-none r t below, operands) refl
