-- ===== src/Formula/Literal.antt =====
-- generate/formula/parser.py: `_decode_string`, with the two codecs that it calls.
use salesforce.Common.{
  ℕ, zero, suc, ◌+◌, ◌-◌, ◌*◌, ◌/◌, ◌%◌, Bool, true, false, ◌&&◌, ◌||◌, Option, none, some, [], ◌∷◌,
  ◌++◌, ◌==◌, leb, length, is_nonempty, if◌then◌else◌,
}
use salesforce.Formula.{Text, Unicode}
use salesforce.Formula.Lexer.{span}

-- The bytes of a character in UTF-8. A surrogate has none.
unfoldable pub utf8_char : ℕ → Option Text
utf8_char c =
    if leb c 127
    then some (c ∷ [])
    else if leb c 2047
    then some ((192 + c / 64) ∷ (128 + c % 64) ∷ [])
    else if leb 55296 c && leb c 57343
    then none
    else if leb c 65535
    then some ((224 + c / 4096) ∷ (128 + c / 64 % 64) ∷ (128 + c % 64) ∷ [])
    else some
        ((240 + c / 262144) ∷ (128 + c / 4096 % 64) ∷ (128 + c / 64 % 64) ∷ (128 + c % 64) ∷ [])

-- The parts of a text in a row, where each is there.
abbrev pub joined : Option Text → Option Text → Option Text
joined (some a) (some b) = some (a ++ b)
joined _ _ = none

-- `str.encode("utf-8")`.
unfoldable pub utf8 : Text → Option Text
unfolding utf8_char
utf8 [] = some []
utf8 (c ∷ s) = joined (utf8_char c) (utf8 s)

-- The value of a digit of base 16.
hex_digit : ℕ → Option ℕ
hex_digit c =
    if leb b'0' c && leb c b'9'
    then some (c - b'0')
    else if leb b'a' c && leb c b'f'
    then some (c - b'a' + 10)
    else if leb b'A' c && leb c b'F'
    then some (c - b'A' + 10)
    else none

-- The number of exactly `n` digits of base 16, after `v`, and the text after it.
hex : ℕ → ℕ → Text → Option (ℕ × Text)
unfolding hex_digit
hex zero v s = some (v, s)
hex (suc n) v [] = none
hex (suc n) v (c ∷ s) = elim (hex_digit c) [ none ↦ none | some d ↦ hex n (16 * v + d) s ]

-- At most `n` digits of base 8, after the value `v`.
octal : ℕ → ℕ → Text → ℕ × Text
octal zero v s = (v, s)
octal (suc n) v [] = (v, [])
octal (suc n) v (c ∷ s) =
    let more = octal n (8 * v + (c - b'0')) s in
    if leb b'0' c && leb c b'7' then more else (v, c ∷ s)

-- `\a`, `\b` and the like, by the character after the backslash.
simple_escape : ℕ → Option Text
simple_escape c =
    if c == b'\n'
    then some []
    else if c == b'\\' || c == b'\'' || c == b'"'
    then some (c ∷ [])
    else if c == b'a'
    then some (7 ∷ [])
    else if c == b'b'
    then some (8 ∷ [])
    else if c == b't'
    then some (9 ∷ [])
    else if c == b'n'
    then some (10 ∷ [])
    else if c == b'v'
    then some (11 ∷ [])
    else if c == b'f'
    then some (12 ∷ [])
    else if c == b'r'
    then some (13 ∷ [])
    else none

-- A code point that an escape of `n` digits of base 16 names.
hex_escape : ℕ → Text → Option (Text × Text)
unfolding hex
hex_escape n s = elim (hex n 0 s) [
  | none ↦ none
  | some (v, rest) ↦ if leb v 1114111 then some (v ∷ [], rest) else none
]

-- `{name}` after `\N`.
named_escape : Unicode → Text → Option (Text × Text)
unfolding span
named_escape u [] = none
named_escape u (c ∷ s) = if c == b'{' then closed (span inside s) else none
  where
    inside : ℕ → Bool
    inside d = if d == b'}' then false else true

    found : Option ℕ → Text → Option (Text × Text)
    found none rest = none
    found (some v) rest = some (v ∷ [], rest)

    closed : Text × Text → Option (Text × Text)
    closed (name, []) = none
    closed (name, d ∷ rest) = if is_nonempty name then found (u.name name) rest else none

-- What an escape stands for, from the character after the backslash, and the text after it. An unknown
-- escape keeps its backslash.
escape : Unicode → Text → Option (Text × Text)
unfolding simple_escape hex_escape octal named_escape
escape u [] = none
escape u (c ∷ s) = elim (simple_escape c) [
  | some t ↦ some (t, s)
  | none ↦
      if leb b'0' c && leb c b'7'
      then some ((octal 3 0 (c ∷ s)).0 ∷ [], (octal 3 0 (c ∷ s)).1)
      else if c == b'x'
      then hex_escape 2 s
      else if c == b'u'
      then hex_escape 4 s
      else if c == b'U'
      then hex_escape 8 s
      else if c == b'N'
      then named_escape u s
      else some (b'\\' ∷ c ∷ [], s)
]

-- `bytes.decode("unicode_escape")`: a byte that is no backslash is the character of the same number.
-- Each round takes a byte at least.
unfoldable pub unescape : Unicode → ℕ → Text → Option Text
unfolding escape
unescape u f [] = some []
unescape u zero (c ∷ s) = none
unescape u (suc f) (c ∷ s) =
    if c == b'\\'
    then elim (escape u s) [ none ↦ none | some (t, rest) ↦ joined (some t) (unescape u f rest) ]
    else joined (some (c ∷ [])) (unescape u f s)

-- `xs[:-1]`.
unfoldable pub but_last : Text → Text
but_last [] = []
but_last (c ∷ []) = []
but_last (c ∷ d ∷ s) = c ∷ but_last (d ∷ s)

-- `literal[1:-1]`.
unfoldable pub unquoted : Text → Text
unfolding but_last
unquoted [] = []
unquoted (c ∷ s) = but_last s

unfoldable pub decode_string : Unicode → Text → Option Text
unfolding unquoted utf8 unescape
decode_string u literal = elim (utf8 (unquoted literal)) [
  | none ↦ none
  | some bytes ↦ unescape u (length bytes) bytes
]
