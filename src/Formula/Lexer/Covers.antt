-- ===== src/Formula/Lexer/Covers.antt =====
-- generate/formula/parser.py, `tokenize`: what an alternative of the pattern matches is a prefix of the
-- text that is not empty, and what follows from it for the whole scan.
use salesforce.Common.{
  ℕ, ◌≡◌, refl, ap, Bool, true, false, ◌||◌, Option, none, some, List, [], ◌∷◌, ◌++◌, arith,
  append_assoc, Bool-cases, inl, inr, ◌==◌, if◌then◌else◌, all, is_nonempty,
}
use salesforce.Soql.{is_letter, is_word}
use salesforce.Formula.{Text, Unicode, TokenKind, number, string, ident}
use salesforce.Formula.Lexer.{
  span, is_space, Matched, Step, fraction, number_match, string_body, word_match, ident_match,
  prepend, fraction_digits, operators, after, operator_at, operator_match, tagged, match_token,
}

-- The outcomes that an alternative may have on a text.
data Splits (s : Text) : Option Matched → Type 0 where
  no_match : Splits s none
  splits : {m rest : Text} → m ++ rest ≡ s → Splits s (some (m, rest))

-- The same where a match has the first character at least; a blank is white space throughout.
pub data Cuts (c : ℕ) (s : Text) : Option Step → Type 0 where
  no_cut : Cuts c s none
  blank :
      {m rest : Text}
      → all is_space (c ∷ m) ≡ true
      → m ++ rest ≡ s
      → Cuts c s (some (none, (c ∷ m, rest)))
  cut : {k : TokenKind} {m rest : Text} → m ++ rest ≡ s → Cuts c s (some (some k, (c ∷ m, rest)))

prepend-Splits :
    (before : Text) {s : Text} {o : Option Matched}
    → Splits s o
    → Splits (before ++ s) (prepend before o)
unfolding prepend
prepend-Splits before no_match = no_match
prepend-Splits before (splits {m} {rest} e) = splits (cc (append_assoc before m rest, e))

span-splits : (p : ℕ → Bool) (s : Text) → (span p s).0 ++ (span p s).1 ≡ s
unfolding span
span-splits p [] = refl
span-splits p (c ∷ s) = ground (arith, span-splits p s)

all-span : (p : ℕ → Bool) (s : Text) → all p (span p s).0 ≡ true
unfolding span all
all-span p [] = refl
all-span p (c ∷ s) = ground (arith, all-span p s)

fraction_digits-splits :
    (c : ℕ) (s : Text) (m : Matched)
    → m.0 ++ m.1 ≡ s
    → (fraction_digits c s m).0 ++ (fraction_digits c s m).1 ≡ c ∷ s
unfolding fraction_digits
fraction_digits-splits c s ([], rest) e = refl
fraction_digits-splits c s (d ∷ ds, rest) e = ap (λ t. c ∷ t) e

fraction-splits : (u : Unicode) (s : Text) → (fraction u s).0 ++ (fraction u s).1 ≡ s
unfolding fraction
fraction-splits u [] = refl
fraction-splits u (c ∷ s) =
    ground (arith, fraction_digits-splits c s (span u.decimal s) (span-splits u.decimal s))

number_match-Cuts :
    (u : Unicode) (c : ℕ) (s : Text) → Cuts c s (tagged (some number) (number_match u c s))
unfolding number_match prepend tagged
number_match-Cuts u c s = cut (
    cc (
      append_assoc (span u.decimal s).0 (fraction u (span u.decimal s).1).0
          (fraction u (span u.decimal s).1).1,
      fraction-splits u (span u.decimal s).1,
      span-splits u.decimal s,
    ))

Splits-if :
    {s : Text} (b : Bool) {x y : Option Matched}
    → Splits s x
    → Splits s y
    → Splits s (if b then x else y)
Splits-if true hx hy = hx
Splits-if false hx hy = hy

Cuts-if :
    {c : ℕ} {s : Text} (b : Bool) {x y : Option Step}
    → (b ≡ true → Cuts c s x)
    → Cuts c s y
    → Cuts c s (if b then x else y)
Cuts-if true hx hy = hx refl
Cuts-if false hx hy = hy

string_body-Splits : (q : ℕ) (s : Text) → Splits s (string_body q s)
unfolding string_body
string_body-Splits q [] = no_match
string_body-Splits q (c ∷ []) = Splits-if (c == q) (splits refl) no_match
string_body-Splits q (c ∷ d ∷ s) = Splits-if (c == q) (splits refl) (
    Splits-if (c == b'\\')
      (Splits-if (d == b'\n') no_match (prepend-Splits (c ∷ d ∷ []) (string_body-Splits q s)))
      (prepend-Splits (c ∷ []) (string_body-Splits q (d ∷ s))))

prepend-Cuts :
    (k : TokenKind) (c : ℕ) {s : Text} {o : Option Matched}
    → Splits s o
    → Cuts c s (tagged (some k) (prepend (c ∷ []) o))
unfolding prepend tagged
prepend-Cuts k c no_match = no_cut
prepend-Cuts k c (splits e) = cut e

word_match-Cuts : (c : ℕ) (s : Text) → Cuts c s (tagged (some ident) (word_match (c ∷ s)))
unfolding word_match tagged
word_match-Cuts c s = elim (Bool-cases (is_letter c || c == b'_')) [
  | inl h ↦ rw h (prepend-Cuts ident c (splits (span-splits is_word s)))
  | inr h ↦ rw h no_cut
]

word_match-Splits : (s : Text) → Splits s (word_match s)
unfolding word_match
word_match-Splits [] = no_match
word_match-Splits (c ∷ s) =
    Splits-if (is_letter c || c == b'_') (prepend-Splits (c ∷ []) (splits (span-splits is_word s)))
      no_match

ident_match-Cuts : (c : ℕ) (s : Text) → Cuts c s (tagged (some ident) (ident_match c s))
unfolding ident_match
ident_match-Cuts c s = elim (Bool-cases (c == b'$')) [
  | inl h ↦ rw h (prepend-Cuts ident c (word_match-Splits s))
  | inr h ↦ rw h (word_match-Cuts c s)
]

after-splits : (t s rest : Text) → after t s ≡ some rest → t ++ rest ≡ s
unfolding after
after-splits [] s rest h = cc
after-splits (a ∷ t) [] rest h = cc
after-splits (a ∷ t) (c ∷ s) rest h = ground (arith, after-splits t s rest)

operator_at-Cuts :
    (k : TokenKind) (t : Text) (c : ℕ) (s : Text) (others : Option Step)
    → is_nonempty t ≡ true
    → Cuts c s others
    → Cuts c s (operator_at k t (after t (c ∷ s)) others)
unfolding operator_at after
operator_at-Cuts k [] c s others h rest = cc
operator_at-Cuts k (a ∷ t) c s others h rest = elim (Bool-cases (a == c)) [
  | inl e ↦ rw e (found (ground arith) (after t s) (after-splits t s))
  | inr e ↦ rw e rest
]
  where
    found :
        a ≡ c
        → (o : Option Text) → ((r : Text) → o ≡ some r → t ++ r ≡ s)
        → Cuts c s (operator_at k (a ∷ t) o others)
    found e none g = rest
    found e (some r) g = rw e (cut (g r refl))

operator_match-Cuts :
    (table : List (Text × TokenKind)) (c : ℕ) (s : Text)
    → all (λ (t, k). is_nonempty t) table ≡ true
    → Cuts c s (operator_match table (c ∷ s))
unfolding operator_match all
operator_match-Cuts [] c s h = no_cut
operator_match-Cuts ((t, k) ∷ table) c s h =
    operator_at-Cuts k t c s _ (ground arith) (operator_match-Cuts table c s (ground arith))

all-blank : (c : ℕ) (s : Text) → is_space c ≡ true → all is_space (c ∷ (span is_space s).0) ≡ true
unfolding all
all-blank c s h = rw h (all-span is_space s)

pub match_token-Cuts : (u : Unicode) (c : ℕ) (s : Text) → Cuts c s (match_token u c s)
unfolding match_token tagged prepend
match_token-Cuts u c s =
    Cuts-if (is_space c)
      (λ h. blank {m = (span is_space s).0} (all-blank c s h) (span-splits is_space s))
      (Cuts-if (u.decimal c) (λ h. number_match-Cuts u c s)
        (Cuts-if (c == b'"' || c == b'\'') (λ h. prepend-Cuts string c (string_body-Splits c s))
          (Cuts-if (is_letter c || c == b'_' || c == b'$') (λ h. ident_match-Cuts c s)
            (operator_match-Cuts operators c s (unfold all in refl)))))
