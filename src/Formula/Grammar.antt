-- ===== src/Formula/Grammar.antt =====
-- The grammar of formulas, as a description of generate/formula/parser.py that knows no order of
-- reading: which tokens derive which tree at each level of precedence.
pub mod Derives
pub mod Sound
pub mod Follow
pub mod Steps
pub mod Complete
pub mod Equivalence
use salesforce.Common.{ℕ, ◌≡◌, Bool, true, false, Option, none, some, List, [], ◌∷◌, ◌++◌, codes}
use salesforce.Formula.{
  Text, Unicode, Token, Tokens, token, number, string, ident, dot, lparen, rparen, comma, plus,
  minus, bang, eof,
}
use salesforce.Formula.Ast.{
  Node, Nodes, number_lit, string_lit, ident_ref, unary_op, binary_op, func_call, no_nodes, node,
}
use salesforce.Formula.Literal.{decode_string}
use salesforce.Formula.Parser.{
  or_op, and_op, cmp_op, add_op, mul_op, literal_word, upper, one_of, known_functions, reference,
}

-- The parts of a dotted path after its head.
pub data Dots : Tokens → List Text → Type 0 where
  no_dots : Dots [] []
  part :
      {s name : Text} {p q : ℕ} {ts : Tokens} {parts : List Text}
      → Dots ts parts
      → Dots (token dot s p ∷ token ident name q ∷ ts) (name ∷ parts)

abbrev pub is_ident : Node → Bool
is_ident (ident_ref name) = true
is_ident _ = false

module _ (u : Unicode) where
  mutual
    -- The operators of the levels from `Or` to `Mul` group to the left, except that `Cmp` has one at
    -- most.
    pub data Or : Tokens → Node → Type 0 where
      or_one : {ts : Tokens} {n : Node} → And ts n → Or ts n
      or_more :
          {ls rs : Tokens} {l r : Node} {o : Text} (t : Token)
          → or_op t ≡ some o
          → Or ls l
          → And rs r
          → Or (ls ++ t ∷ rs) (binary_op o l r)

    pub data And : Tokens → Node → Type 0 where
      and_one : {ts : Tokens} {n : Node} → Cmp ts n → And ts n
      and_more :
          {ls rs : Tokens} {l r : Node} {o : Text} (t : Token)
          → and_op t ≡ some o
          → And ls l
          → Cmp rs r
          → And (ls ++ t ∷ rs) (binary_op o l r)

    pub data Cmp : Tokens → Node → Type 0 where
      cmp_one : {ts : Tokens} {n : Node} → Add ts n → Cmp ts n
      cmp_two :
          {ls rs : Tokens} {l r : Node} {o : Text} (t : Token)
          → cmp_op t ≡ some o
          → Add ls l
          → Add rs r
          → Cmp (ls ++ t ∷ rs) (binary_op o l r)

    pub data Add : Tokens → Node → Type 0 where
      add_one : {ts : Tokens} {n : Node} → Mul ts n → Add ts n
      add_more :
          {ls rs : Tokens} {l r : Node} {o : Text} (t : Token)
          → add_op t ≡ some o
          → Add ls l
          → Mul rs r
          → Add (ls ++ t ∷ rs) (binary_op o l r)

    pub data Mul : Tokens → Node → Type 0 where
      mul_one : {ts : Tokens} {n : Node} → Unary ts n → Mul ts n
      mul_more :
          {ls rs : Tokens} {l r : Node} {o : Text} (t : Token)
          → mul_op t ≡ some o
          → Mul ls l
          → Unary rs r
          → Mul (ls ++ t ∷ rs) (binary_op o l r)

    -- A sign plus leaves no trace in the tree.
    pub data Unary : Tokens → Node → Type 0 where
      negated :
          {s : Text} {p : ℕ} {ts : Tokens} {n : Node}
          → Unary ts n
          → Unary (token minus s p ∷ ts) (unary_op (codes "-") n)
      positive :
          {s : Text} {p : ℕ} {ts : Tokens} {n : Node} → Unary ts n → Unary (token plus s p ∷ ts) n
      banged :
          {s : Text} {p : ℕ} {ts : Tokens} {n : Node}
          → Unary ts n
          → Unary (token bang s p ∷ ts) (unary_op (codes "NOT") n)
      plain : {ts : Tokens} {n : Node} → is_ident n ≡ false → Primary ts n → Unary ts n
      path :
          {ts ds : Tokens} {name : Text} {parts : List Text}
          → Primary ts (ident_ref name)
          → Dots ds parts
          → Unary (ts ++ ds) (reference name parts)

    pub data Primary : Tokens → Node → Type 0 where
      a_number : {s : Text} {p : ℕ} → Primary (token number s p ∷ []) (number_lit s)
      a_string :
          {s v : Text} {p : ℕ}
          → decode_string u s ≡ some v
          → Primary (token string s p ∷ []) (string_lit v)
      grouped :
          {s : Text} {p : ℕ} {ts : Tokens} {n : Node} (s' : Text) (p' : ℕ)
          → Or ts n
          → Primary (token lparen s p ∷ ts ++ token rparen s' p' ∷ []) n
      a_word :
          {name : Text} {p : ℕ} {n : Node}
          → literal_word name ≡ some n
          → Primary (token ident name p ∷ []) n
      a_name :
          {name : Text} {p : ℕ}
          → literal_word name ≡ none
          → Primary (token ident name p ∷ []) (ident_ref name)
      a_call :
          {name s : Text} {p q : ℕ} {ts : Tokens} {args : Nodes} (s' : Text) (q' : ℕ)
          → literal_word name ≡ none
          → one_of (upper name) known_functions ≡ true
          → Args ts args
          → Primary
              (token ident name p ∷ token lparen s q ∷ ts ++ token rparen s' q' ∷ [])
              (func_call (upper name) args)

    pub data Args : Tokens → Nodes → Type 0 where
      no_args : Args [] no_nodes
      first_arg :
          {ts more : Tokens} {n : Node} {args : Nodes}
          → Or ts n
          → More more args
          → Args (ts ++ more) (node n args)

    pub data More : Tokens → Nodes → Type 0 where
      no_more : More [] no_nodes
      next_arg :
          {s : Text} {p : ℕ} {ts more : Tokens} {n : Node} {args : Nodes}
          → Or ts n
          → More more args
          → More (token comma s p ∷ ts ++ more) (node n args)

  -- The tokens of a whole formula: an expression, and the end mark after it.
  pub data Sentence (ts : Tokens) (n : Node) : Type 0 where
    sentence :
        {mine : Tokens} (s : Text) (p : ℕ) (more : Tokens)
        → Or mine n
        → ts ≡ mine ++ token eof s p ∷ more
        → Sentence ts n
