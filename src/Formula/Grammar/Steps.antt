-- ===== src/Formula/Grammar/Steps.antt =====
-- The steps of the parser on the first tokens of an expression that the grammar derives.
use salesforce.Common.{
  ℕ, suc, ◌≡◌, refl, ◌∙◌, Bool, true, false, Option, some, List, ◌∷◌, ◌++◌, arith,
}
use salesforce.Common.Exec.{ok}
use salesforce.Formula.{Text, Unicode, Token, Tokens, token, dot, lparen, rparen}
use salesforce.Formula.Ast.{Node, Nodes, ident_ref, binary_op, func_call, node}
use salesforce.Formula.Parser.{
  Parser, bind, operand_once, dotted, parse_path, one_of, upper, known_functions, known_call,
  reference, parse_expr, parse_unary, parse_postfix, parse_named, parse_args, parse_more,
}
use salesforce.Formula.Grammar.{
  Dots, no_dots, part, is_ident, Or, or_one, or_more, And, and_one, and_more, Cmp, cmp_one, cmp_two,
  Add, add_one, add_more, Mul, mul_one, mul_more, Unary, negated, positive, banged, plain, path,
  Primary, a_number, a_string, grouped, a_word, a_name, a_call, More, no_more, next_arg,
}
use salesforce.Formula.Grammar.Follow.{Stops, stops, Stops-le, Ranked, Ranked-none}

pub operand_once-stop :
    (op : Token → Option Text) (operand : Parser Node) (k : ℕ) (n : Node) (ts : Tokens)
    → Ranked op k
    → Stops k ts
    → operand_once op operand n ts ≡ ok (n, ts)
unfolding operand_once
operand_once-stop op operand k n ts r (stops t us b) = rw (Ranked-none r t b, operand_once) refl

pub operand_once-more :
    (op : Token → Option Text) (operand : Parser Node) (l r : Node) (o : Text) (t : Token)
    (ts rest : Tokens)
    → op t ≡ some o
    → operand ts ≡ ok (r, rest)
    → operand_once op operand l (t ∷ ts) ≡ ok (binary_op o l r, rest)
unfolding operand_once
operand_once-more op operand l r o t ts rest h e = rw (h, operand_once, e) refl

pub parse_path-plain : (n : Node) (ts : Tokens) → is_ident n ≡ false → parse_path n ts ≡ ok (n, ts)
unfolding parse_path
parse_path-plain (ident_ref name) ts h = cc
parse_path-plain _ ts h = refl

pub dotted-Dots :
    {ds : Tokens} {parts : List Text} (rest : Tokens)
    → Dots ds parts
    → Stops 6 rest
    → dotted (ds ++ rest) ≡ ok (parts, rest)
unfolding dotted
dotted-Dots rest no_dots (stops (token dot s p) ts b) = absurd (omega arith)
dotted-Dots rest no_dots (stops (token _ s p) ts b) = refl
dotted-Dots rest (part d) st = rw (dotted-Dots rest d st) refl

-- A path goes on with a dot, or it is over.
pub Stops-Dots :
    {ds : Tokens} {parts : List Text} (rest : Tokens)
    → Dots ds parts
    → Stops 6 rest
    → Stops 7 (ds ++ rest)
Stops-Dots rest no_dots st = Stops-le (omega arith) st
Stops-Dots rest (part {s} {name} {p} {q} d) st = stops _ _ (omega arith)

module _ (u : Unicode) where
  -- Only a sign or `!` stops the parser from reading a primary at once.
  pub unary-Primary :
      {ts : Tokens} {n : Node} (f : ℕ) (rest : Tokens)
      → Primary u ts n
      → parse_unary u (suc f) (ts ++ rest) ≡ parse_postfix u f (ts ++ rest)
  unfolding parse_unary
  unary-Primary f rest a_number = refl
  unary-Primary f rest (a_string h) = refl
  unary-Primary f rest (grouped s' p' d) = refl
  unary-Primary f rest (a_word h) = refl
  unary-Primary f rest (a_name h) = refl
  unary-Primary f rest (a_call s' q' h k d) = refl

  pub named-stop :
      (f : ℕ) (name : Text) (ts : Tokens)
      → Stops 7 ts
      → parse_named u (suc f) name ts ≡ ok (ident_ref name, ts)
  unfolding parse_named
  named-stop f name ts (stops (token lparen s p) us b) = absurd (omega arith)
  named-stop f name ts (stops (token _ s p) us b) = refl

pub path_of :
    (name : Text) {parts : List Text} (ts : Tokens) {rest : Tokens}
    → dotted ts ≡ ok (parts, rest)
    → parse_path (ident_ref name) ts ≡ ok (reference name parts, rest)
unfolding parse_path
path_of name ts e = rw e refl

pub known_call-known :
    (name : Text) (args : Nodes) (ts : Tokens)
    → one_of (upper name) known_functions ≡ true
    → known_call name args ts ≡ ok (func_call (upper name) args, ts)
unfolding known_call
known_call-known name args ts h = rw h refl

abbrev pub is_close : Token → Bool
is_close (token rparen s p) = true
is_close _ = false

-- Tokens that begin with one that closes nothing.
pub data Opens : Tokens → Type 0 where
  opens : (t : Token) (ts : Tokens) → is_close t ≡ false → Opens (t ∷ ts)

pub Opens-append : {ts : Tokens} (rest : Tokens) → Opens ts → Opens (ts ++ rest)
Opens-append rest (opens t ts h) = opens t (ts ++ rest) h

module _ (u : Unicode) where
  mutual
    pub Or-Opens : {ts : Tokens} {n : Node} → Or u ts n → Opens ts
    Or-Opens (or_one d) = And-Opens d
    Or-Opens (or_more t h d e) = Opens-append _ (Or-Opens d)

    And-Opens : {ts : Tokens} {n : Node} → And u ts n → Opens ts
    And-Opens (and_one d) = Cmp-Opens d
    And-Opens (and_more t h d e) = Opens-append _ (And-Opens d)

    Cmp-Opens : {ts : Tokens} {n : Node} → Cmp u ts n → Opens ts
    Cmp-Opens (cmp_one d) = Add-Opens d
    Cmp-Opens (cmp_two t h d e) = Opens-append _ (Add-Opens d)

    Add-Opens : {ts : Tokens} {n : Node} → Add u ts n → Opens ts
    Add-Opens (add_one d) = Mul-Opens d
    Add-Opens (add_more t h d e) = Opens-append _ (Add-Opens d)

    Mul-Opens : {ts : Tokens} {n : Node} → Mul u ts n → Opens ts
    Mul-Opens (mul_one d) = Unary-Opens d
    Mul-Opens (mul_more t h d e) = Opens-append _ (Mul-Opens d)

    Unary-Opens : {ts : Tokens} {n : Node} → Unary u ts n → Opens ts
    Unary-Opens (negated d) = opens _ _ refl
    Unary-Opens (positive d) = opens _ _ refl
    Unary-Opens (banged d) = opens _ _ refl
    Unary-Opens (plain h d) = Primary-Opens d
    Unary-Opens (path d ds) = Opens-append _ (Primary-Opens d)

    Primary-Opens : {ts : Tokens} {n : Node} → Primary u ts n → Opens ts
    Primary-Opens a_number = opens _ _ refl
    Primary-Opens (a_string h) = opens _ _ refl
    Primary-Opens (grouped s' p' d) = opens _ _ refl
    Primary-Opens (a_word h) = opens _ _ refl
    Primary-Opens (a_name h) = opens _ _ refl
    Primary-Opens (a_call s' q' h k d) = opens _ _ refl

  Args-Opens :
      {ts : Tokens} (f : ℕ)
      → Opens ts
      → parse_args u (suc f) ts ≡ (
          bind
            (parse_expr u f ts)
            λ (n, rest). bind (parse_more u f rest) λ (args, left). ok (node n args, left))
  unfolding parse_args
  Args-Opens f (opens (token rparen s p) ts h) = cc
  Args-Opens f (opens (token _ s p) ts h) = refl

  pub args-both :
      {n : Node} {args : Nodes} {rest left : Tokens} (f : ℕ) (ts : Tokens)
      → Opens ts
      → parse_expr u f ts ≡ ok (n, rest)
      → parse_more u f rest ≡ ok (args, left)
      → parse_args u (suc f) ts ≡ ok (node n args, left)
  args-both f ts o e h = Args-Opens f o ∙ rw (e, h) refl

  pub Stops-More :
      {ms : Tokens} {args : Nodes} (s : Text) (p : ℕ) (rest : Tokens)
      → More u ms args
      → Stops 1 (ms ++ token rparen s p ∷ rest)
  Stops-More s p rest no_more = stops _ _ (omega arith)
  Stops-More s p rest (next_arg d m) = stops _ _ (omega arith)
