-- ===== src/Formula/Lexer/Looks.antt =====
-- generate/formula/parser.py, `_TOKEN_RE`: which characters begin a token, and what the text of each kind
-- of token looks like.
use salesforce.Common.{
  ℕ, Bool, true, false, not, ◌&&◌, ◌||◌, [], ◌∷◌, ◌==◌, if◌then◌else◌, all, any, codes, eq_codes,
  starts_with,
}
use salesforce.Soql.{is_letter, is_word}
use salesforce.Formula.{
  Text, Unicode, TokenKind, number, string, ident, dot, lparen, rparen, comma, plus, minus, star,
  slash, eq, neq, lt, le, gt, ge, and, or, amp, bang, eof,
}
use salesforce.Formula.Lexer.{is_space}

-- A letter of ASCII or an underscore; a name that begins with one.
abbrev pub starts_name : ℕ → Bool
starts_name c = is_letter c || c == b'_'

abbrev pub names_start : Text → Bool
names_start [] = false
names_start (d ∷ t) = starts_name d

unfoldable pub names_word : Text → Bool
unfolding all
names_word [] = false
names_word (c ∷ s) = starts_name c && all is_word s

-- What follows an opening quote `q` up to the end of a text is a literal's body and its closing quote:
-- that is the first quote, but for what stands after a backslash.
unfoldable pub is_literal_end : ℕ → Text → Bool
is_literal_end q [] = false
is_literal_end q (c ∷ []) = c == q
is_literal_end q (c ∷ d ∷ s) =
    let one = is_literal_end q (d ∷ s) in
    let two = is_literal_end q s in
    not (c == q) && (if c == b'\\' then not (d == b'\n') && two else one)

-- A text in which a literal ends.
unfoldable pub has_literal_end : ℕ → Text → Bool
has_literal_end q [] = false
has_literal_end q (c ∷ []) = c == q
has_literal_end q (c ∷ d ∷ s) =
    let one = has_literal_end q (d ∷ s) in
    let two = has_literal_end q s in c == q || (if c == b'\\' then not (d == b'\n') && two else one)

-- Digits, at least one.
unfoldable pub digits : Unicode → Text → Bool
unfolding all
digits u [] = false
digits u (c ∷ s) = all u.decimal (c ∷ s)

-- What follows the first digit of a number: digits, and at their end nothing or a point and digits.
unfoldable pub number_tail : Unicode → Text → Bool
unfolding digits
number_tail u [] = true
number_tail u (c ∷ s) =
    let more = number_tail u s in if u.decimal c then more else c == b'.' && digits u s

-- A text with the look of a kind of token: digits, which may have a point and digits behind them, for a
-- number; quotes around a literal; a name, which may have a dollar sign before it; or an operator.
unfoldable pub fits : Unicode → TokenKind → Text → Bool
unfolding eq_codes is_literal_end names_word number_tail
fits u k [] = false
fits u number (c ∷ s) = u.decimal c && number_tail u s
fits u string (c ∷ s) = (c == b'"' || c == b'\'') && is_literal_end c s
fits u ident (c ∷ s) = names_word (c ∷ s) || (c == b'$' && names_word s)
fits u neq s = eq_codes s (codes "<>") || eq_codes s (codes "!=")
fits u le s = eq_codes s (codes "<=")
fits u ge s = eq_codes s (codes ">=")
fits u eq s = eq_codes s (codes "=")
fits u lt s = eq_codes s (codes "<")
fits u gt s = eq_codes s (codes ">")
fits u and s = eq_codes s (codes "&&")
fits u or s = eq_codes s (codes "||")
fits u amp s = eq_codes s (codes "&")
fits u bang s = eq_codes s (codes "!")
fits u dot s = eq_codes s (codes ".")
fits u lparen s = eq_codes s (codes "(")
fits u rparen s = eq_codes s (codes ")")
fits u comma s = eq_codes s (codes ",")
fits u plus s = eq_codes s (codes "+")
fits u minus s = eq_codes s (codes "-")
fits u star s = eq_codes s (codes "*")
fits u slash s = eq_codes s (codes "/")
fits u eof s = false

-- The characters that are tokens, and a bar before another.
unfoldable pub starts_operator : ℕ → Text → Bool
unfolding any starts_with
starts_operator c s =
    any (λ t. c == t) (codes "=<>&!.(),+-*/") || (c == b'|' && starts_with s (codes "|"))

-- A character with which a token or white space begins, before the text `s`.
unfoldable pub begins : Unicode → ℕ → Text → Bool
begins u c s =
    is_space c
    || (u.decimal c
        || (((c == b'"' || c == b'\'') && has_literal_end c s)
            || (starts_name c || ((c == b'$' && names_start s) || starts_operator c s))))
