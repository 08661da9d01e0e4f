-- ===== src/Formula/Grammar/Derives.antt =====
-- The trees that the loops and the checks of the parser return, and their derivations.
use salesforce.Common.{
  ℕ, zero, suc, ◌≡◌, refl, ap, subst, true, Option, none, some, [], ◌∷◌, ◌++◌, append-nil,
  append_assoc, Bool-cases, inl, inr,
}
use salesforce.Common.Exec.{ok, raise}
use salesforce.Formula.{
  Text, Unicode, Token, Tokens, FormulaError, token, string, ident, dot, rparen, plus,
}
use salesforce.Formula.Ast.{Node, Nodes, ident_ref, binary_op, func_call}
use salesforce.Formula.Literal.{decode_string}
use salesforce.Formula.Parser.{
  Result, Parser, bind, ◌>>=◌, operands, operand_once, expect_rparen, dotted, parse_path, one_of,
  upper, known_functions, known_call, string_node,
}
use salesforce.Formula.Parser.Leaves.{Option-cases}
use salesforce.Formula.Grammar.{
  Dots, no_dots, part, Unary, positive, plain, path, Primary, a_string,
}

-- A run on what follows the tokens `before` that were read already: what it returns is derived from
-- those and the tokens that it read.
pub data Derives {A : Type 0} (G : Tokens → A → Type 0) (before ts : Tokens)
    : Result (A × Tokens) → Type 0 where
  derives :
      {a : A} {rest : Tokens} (mine : Tokens)
      → G (before ++ mine) a
      → mine ++ rest ≡ ts
      → Derives G before ts (ok (a, rest))
  fails : {e : FormulaError} → Derives G before ts (raise e)

pub Derives-bind :
    {A B : Type 0} {G : Tokens → A → Type 0} {H : Tokens → B → Type 0} {before ts us : Tokens}
    {r : Result (A × Tokens)} (g : A × Tokens → Result (B × Tokens))
    → Derives G [] us r
    → ((a : A) (mine rest : Tokens)
        → G mine a
        → mine ++ rest ≡ us
        → Derives H before ts (g (a, rest)))
    → Derives H before ts (bind r g)
Derives-bind g (derives {a} {rest} mine d e) k = k a mine rest d e
Derives-bind g fails k = fails

pub Derives-shift :
    {A : Type 0} {G : Tokens → A → Type 0} (before taken : Tokens) {rest ts : Tokens}
    {r : Result (A × Tokens)}
    → taken ++ rest ≡ ts
    → Derives G (before ++ taken) rest r
    → Derives G before ts r
Derives-shift {G = G} before taken j (derives {a} {rest} mine d e) =
    derives (taken ++ mine) (subst (λ us. G us a) (append_assoc before taken mine) d)
      (cc (append_assoc taken mine rest, e, j))
Derives-shift before taken j fails = fails

module _ (op : Token → Option Text) (operand : Parser Node) (G H : Tokens → Node → Type 0)
    (more : (ls rs : Tokens) (l r : Node) (t : Token) (o : Text)
      → op t ≡ some o
      → G ls l
      → H rs r
      → G (ls ++ t ∷ rs) (binary_op o l r))
    (reads : (ts : Tokens) → Derives H [] ts (operand ts)) where
  operands-Derives :
      (f : ℕ) (left : Node) (before ts : Tokens)
      → G before left
      → Derives G before ts (operands op operand f left ts)
  unfolding operands
  operands-Derives zero left before ts d = fails
  operands-Derives (suc f) left before [] d = fails
  operands-Derives (suc f) left before (t ∷ ts) d = elim (Option-cases (op t)) [
    | inl n ↦ rw (n, operands) (derives [] (rw append-nil d) refl)
    | inr (o, m) ↦
        rw (m, operands)
          (Derives-bind _ (reads ts) λ a mine rest h e.
            Derives-shift before (t ∷ mine) (ap (λ us. t ∷ us) e) (
              operands-Derives f (binary_op o left a) (before ++ t ∷ mine) rest
                (more before mine left a t o m d h)))
  ]

  -- A level with a loop over its operators.
  pub level-Derives :
      ((ts : Tokens) (n : Node) → H ts n → G ts n)
      → (f : ℕ) (ts : Tokens) → Derives G [] ts ((operand >>= operands op operand f) ts)
  level-Derives one f ts =
      Derives-bind _ (reads ts)
        λ a mine rest h e. Derives-shift [] mine e (operands-Derives f a mine rest (one mine a h))

pub operand_once-Derives :
    (op : Token → Option Text) (operand : Parser Node) (G H : Tokens → Node → Type 0)
    → ((ts : Tokens) (n : Node) → H ts n → G ts n)
    → ((ls rs : Tokens) (l r : Node) (t : Token) (o : Text)
        → op t ≡ some o
        → H ls l
        → H rs r
        → G (ls ++ t ∷ rs) (binary_op o l r))
    → ((ts : Tokens) → Derives H [] ts (operand ts))
    → (left : Node) (before ts : Tokens) → H before left
    → Derives G before ts (operand_once op operand left ts)
unfolding operand_once
operand_once-Derives op operand G H one two reads left before [] d = fails
operand_once-Derives op operand G H one two reads left before (t ∷ ts) d =
    elim (Option-cases (op t)) [
      | inl n ↦ rw (n, operand_once) (derives [] (rw append-nil (one before left d)) refl)
      | inr (o, m) ↦
          rw (m, operand_once)
            (Derives-bind _ (reads ts) λ a mine rest h e.
              derives (t ∷ mine) (two before mine left a t o m d h) (ap (λ us. t ∷ us) e))
    ]

pub rparen-Derives :
    {A : Type 0} {G : Tokens → A → Type 0} (before ts : Tokens) (k : Tokens → Result (A × Tokens))
    → ((s : Text) (p : ℕ) (rest : Tokens)
        → Derives G (before ++ token rparen s p ∷ []) rest (k rest))
    → Derives G before ts (bind (expect_rparen ts) λ (x, rest). k rest)
unfolding expect_rparen
rparen-Derives before [] k g = fails
rparen-Derives before (token rparen s p ∷ ts) k g =
    Derives-shift before (token rparen s p ∷ []) refl (g s p ts)
rparen-Derives before (token _ s p ∷ ts) k g = fails

pub dotted-Derives : (ts : Tokens) → Derives Dots [] ts (dotted ts)
unfolding dotted
dotted-Derives [] = fails
dotted-Derives (token dot s p ∷ []) = fails
dotted-Derives (token dot s p ∷ token ident name q ∷ ts) =
    Derives-bind _ (dotted-Derives ts) λ parts mine rest d e.
      derives (token dot s p ∷ token ident name q ∷ mine) (part d)
        (ap (λ us. token dot s p ∷ token ident name q ∷ us) e)
dotted-Derives (token dot s p ∷ token _ name q ∷ ts) = fails
dotted-Derives (token _ s p ∷ ts) = derives [] no_dots refl

pub positive_run :
    {u : Unicode} {s : Text} {p : ℕ} {ts : Tokens} {r : Result (Node × Tokens)}
    → Derives (Unary u) [] ts r
    → Derives (Unary u) (token plus s p ∷ []) ts r
positive_run (derives mine d e) = derives mine (positive d) e
positive_run fails = fails

pub parse_path-Derives :
    (u : Unicode) (n : Node) (before ts : Tokens)
    → Primary u before n
    → Derives (Unary u) before ts (parse_path n ts)
unfolding parse_path
parse_path-Derives u (ident_ref name) before ts d =
    Derives-bind _ (dotted-Derives ts) λ parts mine rest h e. derives mine (path d h) e
parse_path-Derives u n before ts d = derives [] (rw append-nil (plain refl d)) refl

pub string_node-Derives :
    (u : Unicode) (s : Text) (p : ℕ) (o : Option Text) (ts : Tokens)
    → decode_string u s ≡ o
    → Derives (Primary u) [] (token string s p ∷ ts) (string_node o ts)
unfolding string_node
string_node-Derives u s p none ts h = fails
string_node-Derives u s p (some v) ts h = derives (token string s p ∷ []) (a_string h) refl

pub known_call-Derives :
    (u : Unicode) (name : Text) (args : Nodes) (ts before : Tokens)
    → (one_of (upper name) known_functions ≡ true → Primary u before (func_call (upper name) args))
    → Derives (Primary u) before ts (known_call name args ts)
unfolding known_call
known_call-Derives u name args ts before d =
    elim (Bool-cases (one_of (upper name) known_functions)) [
      | inl h ↦ rw h (derives [] (rw append-nil (d h)) refl)
      | inr h ↦ rw h fails
    ]
