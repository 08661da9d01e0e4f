-- ===== src/Apex.antt =====
-- extract/apex/tokenizer.py: the comments of an Apex source. A text is the list of its code points.
pub mod Comments
use salesforce.Common.{
  ℕ, zero, suc, Bool, true, false, ◌&&◌, ◌||◌, Option, none, some, List, [], ◌∷◌, ◌++◌, ◌==◌,
  length, map, codes, starts_with, if◌then◌else◌,
}

abbrev pub Source : Type 0
Source = List ℕ

-- What a scan took, and what is left.
abbrev pub Cut : Type 0
Cut = Source × Source

abbrev pub push : ℕ → Cut → Cut
push c (taken, rest) = (c ∷ taken, rest)

-- From after the quote of a literal to the quote or the newline that ends it. A backslash takes the next
-- character along; at the end of the text there may be none.
unfoldable pub string_end : Source → Cut
string_end [] = ([], [])
string_end (c ∷ []) = (c ∷ [], [])
string_end (c ∷ d ∷ s) =
    let one = string_end (d ∷ s) in
    let two = string_end s in
    if c == b'\'' || c == b'\n'
    then (c ∷ [], d ∷ s)
    else if c == b'\\'
    then push c (push d two)
    else push c one

-- Up to the next newline, which stays.
unfoldable pub line_end : Source → Cut
line_end [] = ([], [])
line_end (c ∷ s) = let more = line_end s in if c == b'\n' then ([], c ∷ s) else push c more

-- Up to and with the next `*/`.
unfoldable pub block_end : Source → Cut
block_end [] = ([], [])
block_end (c ∷ []) = (c ∷ [], [])
block_end (c ∷ d ∷ s) =
    let more = block_end (d ∷ s) in if c == b'*' && d == b'/' then (c ∷ d ∷ [], s) else push c more

-- What a character of a comment becomes.
abbrev pub blank : ℕ → ℕ
blank c = if c == b'\n' then b'\n' else b' '

-- What goes out before the rest, where the rest could be done.
abbrev pub before : Source → Option Source → Option Source
before out none = none
before out (some more) = some (out ++ more)

-- A block comment, from its `/*` on: the search for `*/` begins after both characters.
unfoldable pub comment_end : Source → Cut
unfolding block_end
comment_end (c ∷ d ∷ s) = push c (push d (block_end s))
comment_end s = (s, [])

-- The pass from left to right. Each round takes a character at least.
unfoldable pub strip : ℕ → Source → Option Source
unfolding string_end line_end comment_end starts_with
strip f [] = some []
strip zero (c ∷ s) = none
strip (suc f) (c ∷ s) =
    let literal = before (c ∷ (string_end s).0) (strip f (string_end s).1) in
    let line = before (map (λ d. b' ') (line_end (c ∷ s)).0) (strip f (line_end (c ∷ s)).1) in
    let block = before (map blank (comment_end (c ∷ s)).0) (strip f (comment_end (c ∷ s)).1) in
    let code = before (c ∷ []) (strip f s) in
    if c == b'\''
    then literal
    else if starts_with (c ∷ s) (codes "//")
    then line
    else if starts_with (c ∷ s) (codes "/*")
    then block
    else code

unfoldable pub strip_comments : Source → Option Source
unfolding strip
strip_comments source = strip (length source) source
