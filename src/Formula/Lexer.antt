-- ===== src/Formula/Lexer.antt =====
-- generate/formula/parser.py: `_TOKEN_RE` and `tokenize`. The alternatives of the pattern are tried in
-- its order; what one matches is a prefix of the text, given with what is left after it.
pub mod Covers
pub mod Looks
pub mod Kinds
pub mod Scan
use salesforce.Common.{
  ℕ, zero, suc, ◌+◌, Bool, true, false, ◌&&◌, ◌||◌, Option, none, some, List, [], ◌∷◌, ◌++◌, ◌==◌,
  leb, length, codes, if◌then◌else◌,
}
use salesforce.Common.Exec.{Outcome, ok, raise}
use salesforce.Soql.{is_letter, is_word}
use salesforce.Formula.{
  Text, Unicode, TokenKind, Token, Tokens, FormulaError, token, number, string, ident, dot, lparen,
  rparen, comma, plus, minus, star, slash, eq, neq, lt, le, gt, ge, and, or, amp, bang, eof,
  unexpected_character, out_of_fuel,
}

-- `\s` on a `str`.
unfoldable pub is_space : ℕ → Bool
is_space c =
    (leb 9 c && leb c 13)
    || (leb 28 c && leb c 32)
    || (c == 133 || c == 160 || c == 5760)
    || (leb 8192 c && leb c 8202)
    || (c == 8232 || c == 8233 || c == 8239 || c == 8287 || c == 12288)

-- The longest prefix of characters that pass a test, and the text after it.
unfoldable pub span : (ℕ → Bool) → Text → Text × Text
span p [] = ([], [])
span p (c ∷ s) = let rest = span p s in if p c then (c ∷ rest.0, rest.1) else ([], c ∷ s)

-- What an alternative matched, and the text after it.
abbrev pub Matched : Type 0
Matched = Text × Text

-- A match after the part of it that was read before.
unfoldable pub prepend : Text → Option Matched → Option Matched
prepend before none = none
prepend before (some (m, rest)) = some (before ++ m, rest)

fraction_digits : ℕ → Text → Matched → Matched
fraction_digits c s ([], rest) = ([], c ∷ s)
fraction_digits c s (d ∷ ds, rest) = (c ∷ d ∷ ds, rest)

-- `(?:\.\d+)?`.
fraction : Unicode → Text → Matched
unfolding span fraction_digits
fraction u [] = ([], [])
fraction u (c ∷ s) = if c == b'.' then fraction_digits c s (span u.decimal s) else ([], c ∷ s)

-- NUMBER, on a text whose first character `c` is a digit.
number_match : Unicode → ℕ → Text → Option Matched
unfolding span prepend fraction
number_match u c s = prepend (c ∷ (span u.decimal s).0) (some (fraction u (span u.decimal s).1))

-- The text of a literal from after its quote `q` to the quote that ends it. A backslash takes the next
-- character with it, which must not be a newline.
string_body : ℕ → Text → Option Matched
unfolding prepend
string_body q [] = none
string_body q (c ∷ []) = if c == q then some (c ∷ [], []) else none
string_body q (c ∷ d ∷ s) =
    let one = string_body q (d ∷ s) in
    let two = string_body q s in
    if c == q
    then some (c ∷ [], d ∷ s)
    else if c == b'\\'
    then if d == b'\n' then none else prepend (c ∷ d ∷ []) two
    else prepend (c ∷ []) one

-- `[A-Za-z_][A-Za-z0-9_]*`.
word_match : Text → Option Matched
unfolding is_letter is_word span prepend
word_match [] = none
word_match (c ∷ s) =
    if is_letter c || c == b'_' then prepend (c ∷ []) (some (span is_word s)) else none

-- IDENT, on a text whose first character is `c`.
ident_match : ℕ → Text → Option Matched
unfolding word_match prepend
ident_match c s = if c == b'$' then prepend (c ∷ []) (word_match s) else word_match (c ∷ s)

-- The operators and the punctuation, in the pattern's order.
abbrev pub operators : List (Text × TokenKind)
operators =
    (codes "<>", neq)
    ∷ (codes "!=", neq)
    ∷ (codes "<=", le)
    ∷ (codes ">=", ge)
    ∷ (codes "=", eq)
    ∷ (codes "<", lt)
    ∷ (codes ">", gt)
    ∷ (codes "&&", and)
    ∷ (codes "||", or)
    ∷ (codes "&", amp)
    ∷ (codes "!", bang)
    ∷ (codes ".", dot)
    ∷ (codes "(", lparen)
    ∷ (codes ")", rparen)
    ∷ (codes ",", comma)
    ∷ (codes "+", plus)
    ∷ (codes "-", minus)
    ∷ (codes "*", star)
    ∷ (codes "/", slash)
    ∷ []

-- What follows a prefix of a text.
unfoldable pub after : Text → Text → Option Text
after [] s = some s
after (a ∷ t) [] = none
after (a ∷ t) (c ∷ s) = let rest = after t s in if a == c then rest else none

-- The kind of a token, or none for white space, and what was matched.
abbrev pub Step : Type 0
Step = Option TokenKind × Matched

operator_at : TokenKind → Text → Option Text → Option Step → Option Step
operator_at k t none others = others
operator_at k t (some rest) others = some (some k, (t, rest))

operator_match : List (Text × TokenKind) → Text → Option Step
unfolding after operator_at
operator_match [] s = none
operator_match ((t, k) ∷ table) s = operator_at k t (after t s) (operator_match table s)

tagged : Option TokenKind → Option Matched → Option Step
tagged k none = none
tagged k (some m) = some (k, m)

-- `_TOKEN_RE.match`, on a text with its first character `c`.
pub match_token : Unicode → ℕ → Text → Option Step
unfolding is_space span number_match string_body ident_match operator_match is_letter prepend tagged
match_token u c s =
    if is_space c
    then tagged none (prepend (c ∷ []) (some (span is_space s)))
    else if u.decimal c
    then tagged (some number) (number_match u c s)
    else if c == b'"' || c == b'\''
    then tagged (some string) (prepend (c ∷ []) (string_body c s))
    else if is_letter c || c == b'_' || c == b'$'
    then tagged (some ident) (ident_match c s)
    else operator_match operators (c ∷ s)

push : Token → Outcome FormulaError Tokens → Outcome FormulaError Tokens
push t (ok ts) = ok (t ∷ ts)
push t (raise e) = raise e

-- The scan from the position `p`. Each round matches a character at least, so that the length of the
-- text is fuel enough.
unfoldable pub scan : Unicode → ℕ → ℕ → Text → Outcome FormulaError Tokens
unfolding match_token push
scan u f p [] = ok (token eof [] p ∷ [])
scan u zero p (c ∷ s) = raise out_of_fuel
scan u (suc f) p (c ∷ s) = elim (match_token u c s) [
  | none ↦ raise (unexpected_character p c)
  | some (none, (m, rest)) ↦ scan u f (p + length m) rest
  | some (some k, (m, rest)) ↦ push (token k m p) (scan u f (p + length m) rest)
]

unfoldable pub tokenize : Unicode → Text → Outcome FormulaError Tokens
unfolding scan
tokenize u source = scan u (length source) 0 source
