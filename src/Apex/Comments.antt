-- ===== src/Apex/Comments.antt =====
-- extract/apex/tokenizer.py, `strip_comments`, against a machine that reads one character at a time.
use salesforce.Common.{
  ℕ, zero, suc, ◌≤◌, ◌≡◌, refl, ap, Bool, true, false, ◌||◌, some, [], ◌∷◌, ◌++◌, ◌==◌, length, map,
  codes, starts_with, if◌then◌else◌, arith, Bool-cases, inl, inr,
}
use salesforce.Apex.{
  Source, string_end, line_end, block_end, comment_end, blank, strip, strip_comments,
}

-- Where the machine is: in code, in a literal, after a backslash in a literal, in a comment to the end of
-- the line, at the star that opens a block, in a block, and at the slash that closes it.
pub data Mode : Type 0 where
  code literal escaped line opening block closing : Mode

pub machine : Mode → Source → Source
unfolding starts_with
machine m [] = []
machine code (c ∷ s) =
    let in_literal = c ∷ machine literal s in
    let in_line = blank c ∷ machine line s in
    let in_block = blank c ∷ machine opening s in
    let on = c ∷ machine code s in
    if c == b'\''
    then in_literal
    else if starts_with (c ∷ s) (codes "//")
    then in_line
    else if starts_with (c ∷ s) (codes "/*")
    then in_block
    else on
machine literal (c ∷ s) =
    let ended = c ∷ machine code s in
    let taken = c ∷ machine escaped s in
    let on = c ∷ machine literal s in
    if c == b'\'' || c == b'\n' then ended else if c == b'\\' then taken else on
machine escaped (c ∷ s) = c ∷ machine literal s
machine line (c ∷ s) =
    let ended = c ∷ machine code s in
    let on = blank c ∷ machine line s in if c == b'\n' then ended else on
machine opening (c ∷ s) = blank c ∷ machine block s
machine block (c ∷ s) =
    let ended = blank c ∷ machine closing s in
    let on = blank c ∷ machine block s in if starts_with (c ∷ s) (codes "*/") then ended else on
machine closing (c ∷ s) = blank c ∷ machine code s

literal-machine :
    (s : Source) → machine literal s ≡ (string_end s).0 ++ machine code (string_end s).1
unfolding machine string_end
literal-machine [] = refl
literal-machine (c ∷ []) = ground arith
literal-machine (c ∷ d ∷ s) = elim (Bool-cases (c == b'\'' || c == b'\n')) [
  | inl q ↦ rw q refl
  | inr q ↦ elim (Bool-cases (c == b'\\')) [
    | inl e ↦ rw (q, e) (ap (λ t. c ∷ d ∷ t) (literal-machine s))
    | inr e ↦ rw (q, e) (ap (λ t. c ∷ t) (literal-machine (d ∷ s)))
  ]
]

line-machine :
    (s : Source) → machine line s ≡ map (λ d. b' ') (line_end s).0 ++ machine code (line_end s).1
unfolding machine line_end starts_with
line-machine [] = refl
line-machine (c ∷ s) = ground (arith, line-machine s)

block-machine :
    (s : Source) → machine block s ≡ map blank (block_end s).0 ++ machine code (block_end s).1
unfolding machine block_end starts_with
block-machine [] = refl
block-machine (c ∷ []) = ground arith
block-machine (c ∷ d ∷ s) = ground (arith, block-machine (d ∷ s))

-- What is left is no longer than what there was.
string_end-le : (s : Source) → length (string_end s).1 ≤ length s
unfolding string_end
string_end-le [] = omega arith
string_end-le (c ∷ []) = omega arith
string_end-le (c ∷ d ∷ s) = ground (arith, string_end-le s, string_end-le (d ∷ s))

line_end-le : (s : Source) → length (line_end s).1 ≤ length s
unfolding line_end
line_end-le [] = omega arith
line_end-le (c ∷ s) = ground (arith, line_end-le s)

block_end-le : (s : Source) → length (block_end s).1 ≤ length s
unfolding block_end
block_end-le [] = omega arith
block_end-le (c ∷ []) = omega arith
block_end-le (c ∷ d ∷ s) = ground (arith, block_end-le (d ∷ s))

-- One round at what the text begins with, from the rounds after it.
module _ (f : ℕ) (s : Source) where
  literal-round :
      strip f (string_end s).1 ≡ some (machine code (string_end s).1)
      → strip (suc f) (b'\'' ∷ s) ≡ some (machine code (b'\'' ∷ s))
  unfolding strip machine
  literal-round ih = rw (ih, literal-machine s) refl

  line-round :
      strip f (line_end s).1 ≡ some (machine code (line_end s).1)
      → strip (suc f) (b'/' ∷ b'/' ∷ s) ≡ some (machine code (b'/' ∷ b'/' ∷ s))
  unfolding strip machine starts_with line_end
  line-round ih = rw (ih, line-machine s) refl

  block-round :
      strip f (block_end s).1 ≡ some (machine code (block_end s).1)
      → strip (suc f) (b'/' ∷ b'*' ∷ s) ≡ some (machine code (b'/' ∷ b'*' ∷ s))
  unfolding strip machine starts_with comment_end
  block-round ih = rw (ih, block-machine s) refl

  code-round :
      (c : ℕ)
      → c == b'\'' ≡ false
      → starts_with (c ∷ s) (codes "//") ≡ false
      → starts_with (c ∷ s) (codes "/*") ≡ false
      → strip f s ≡ some (machine code s)
      → strip (suc f) (c ∷ s) ≡ some (machine code (c ∷ s))
  unfolding strip machine
  code-round c q l b ih = rw (q, l, b, ih) refl

strip-machine : (f : ℕ) (s : Source) → length s ≤ f → strip f s ≡ some (machine code s)
unfolding starts_with
strip-machine f [] h = unfold strip machine in refl
strip-machine zero (c ∷ s) h = absurd (omega arith)
strip-machine (suc f) (c ∷ []) h = elim (Bool-cases (c == b'\'')) [
  | inl q ↦
      let e : c ≡ b'\'' = ground arith in
      rw e
        (literal-round f [] (strip-machine f (string_end []).1 (omega (arith, string_end-le []))))
  | inr q ↦ code-round f [] c q (ground arith) (ground arith) (strip-machine f [] (omega arith))
]
strip-machine (suc f) (c ∷ d ∷ s) h =
    let here = strip-machine f (d ∷ s) (omega arith) in
    let quoted = strip-machine f (string_end (d ∷ s)).1 (omega (arith, string_end-le (d ∷ s))) in
    let lined = strip-machine f (line_end s).1 (omega (arith, line_end-le s)) in
    let blocked = strip-machine f (block_end s).1 (omega (arith, block_end-le s)) in
    elim (Bool-cases (c == b'\'')) [
      | inl q ↦ let e : c ≡ b'\'' = ground arith in rw e (literal-round f (d ∷ s) quoted)
      | inr q ↦ elim (Bool-cases (starts_with (c ∷ d ∷ s) (codes "//"))) [
        | inl l ↦
            let e : c ≡ b'/' = ground arith in
            let g : d ≡ b'/' = ground arith in rw (e, g) (line-round f s lined)
        | inr l ↦ elim (Bool-cases (starts_with (c ∷ d ∷ s) (codes "/*"))) [
          | inl b ↦
              let e : c ≡ b'/' = ground arith in
              let g : d ≡ b'*' = ground arith in rw (e, g) (block-round f s blocked)
          | inr b ↦ code-round f (d ∷ s) c q l b here
        ]
      ]
    ]

-- Stripping the comments of any source returns, and gives what the machine gives that reads one
-- character at a time.
pub strip_comments-machine : (s : Source) → strip_comments s ≡ some (machine code s)
unfolding strip_comments
strip_comments-machine s = strip-machine (length s) s (omega arith)

-- A text with some of its characters other than newlines blanked.
pub data Blanked : Source → Source → Type 0 where
  end : Blanked [] []
  same : (c : ℕ) {s t : Source} → Blanked s t → Blanked (c ∷ s) (c ∷ t)
  gone : (c : ℕ) {s t : Source} → c == b'\n' ≡ false → Blanked s t → Blanked (c ∷ s) (b' ' ∷ t)

Blanked-blank : (c : ℕ) {s t : Source} → Blanked s t → Blanked (c ∷ s) (blank c ∷ t)
Blanked-blank c h = elim (Bool-cases (c == b'\n')) [
  | inl e ↦ let q : c ≡ b'\n' = ground arith in rw q (same b'\n' h)
  | inr e ↦ rw e (gone c e h)
]

Blanked-if :
    (b : Bool) {s t u : Source} → Blanked s t → Blanked s u → Blanked s (if b then t else u)
Blanked-if true h g = h
Blanked-if false h g = g

machine-Blanked : (m : Mode) (s : Source) → Blanked s (machine m s)
unfolding machine starts_with
machine-Blanked m [] = end
machine-Blanked code (c ∷ s) = Blanked-if (c == b'\'') (same c (machine-Blanked literal s)) (
    Blanked-if (starts_with (c ∷ s) (codes "//")) (Blanked-blank c (machine-Blanked line s)) (
      Blanked-if (starts_with (c ∷ s) (codes "/*")) (Blanked-blank c (machine-Blanked opening s))
        (same c (machine-Blanked code s))))
machine-Blanked literal (c ∷ s) =
    Blanked-if (c == b'\'' || c == b'\n') (same c (machine-Blanked code s)) (
      Blanked-if (c == b'\\') (same c (machine-Blanked escaped s))
        (same c (machine-Blanked literal s)))
machine-Blanked escaped (c ∷ s) = same c (machine-Blanked literal s)
machine-Blanked line (c ∷ s) =
    Blanked-if (c == b'\n') (same c (machine-Blanked code s))
      (Blanked-blank c (machine-Blanked line s))
machine-Blanked opening (c ∷ s) = Blanked-blank c (machine-Blanked block s)
machine-Blanked block (c ∷ s) =
    Blanked-if (starts_with (c ∷ s) (codes "*/")) (Blanked-blank c (machine-Blanked closing s))
      (Blanked-blank c (machine-Blanked block s))
machine-Blanked closing (c ∷ s) = Blanked-blank c (machine-Blanked code s)

-- Stripping the comments of any source gives a text of the same length in which some characters are
-- blanked and all others, every newline among them, stand where they stood.
pub strip_comments-Blanked : (s : Source) → (t : Source) × (strip_comments s ≡ some t) × Blanked s t
strip_comments-Blanked s = (machine code s, strip_comments-machine s, machine-Blanked code s)
