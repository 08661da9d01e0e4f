-- ===== src/Formula/Grammar/Equivalence.antt =====
-- The parser of generate/formula/parser.py against the grammar.
use salesforce.Common.{◌↔◌, ◌+◌, ◌*◌, ◌≡◌, refl, ◌∷◌, ◌++◌, length, length-append, arith}
use salesforce.Common.Exec.{ok}
use salesforce.Formula.{Unicode, Tokens, token, eof}
use salesforce.Formula.Ast.{Node}
use salesforce.Formula.Parser.{finish, parse_tokens}
use salesforce.Formula.Grammar.{Sentence, sentence}
use salesforce.Formula.Grammar.Follow.{stops}
use salesforce.Formula.Grammar.Complete.{expr-Reads}
use salesforce.Formula.Grammar.Sound.{parse_tokens_sound}

-- The parser reads every sentence of the grammar, and gives the tree that the grammar derives.
pub parse_tokens_complete :
    (u : Unicode) (ts : Tokens) (n : Node) → Sentence u ts n → parse_tokens u ts ≡ ok n
unfolding parse_tokens finish
parse_tokens_complete u ts n (sentence {mine} s p more d e) =
    let sizes = length-append mine (token eof s p ∷ more) in
    rw
      (
        e,
        expr-Reads u d (10 * length (mine ++ token eof s p ∷ more) + 10) (token eof s p ∷ more)
            (stops _ _ (omega arith)) (omega arith),
      )
      refl

-- The parser returns exactly the trees that the grammar derives.
pub parse_tokens-Sentence :
    (u : Unicode) (ts : Tokens) (n : Node) → parse_tokens u ts ≡ ok n ↔ Sentence u ts n
parse_tokens-Sentence u ts n = (parse_tokens_sound u ts n, parse_tokens_complete u ts n)

-- A sentence has one tree: the levels of precedence leave no ambiguity.
pub Sentence-unique :
    (u : Unicode) (ts : Tokens) (n m : Node) → Sentence u ts n → Sentence u ts m → n ≡ m
Sentence-unique u ts n m a b = cc (parse_tokens_complete u ts n a, parse_tokens_complete u ts m b)
