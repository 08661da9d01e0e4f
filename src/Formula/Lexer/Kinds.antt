-- ===== src/Formula/Lexer/Kinds.antt =====
-- generate/formula/parser.py, `_TOKEN_RE`: what each alternative matches.
use salesforce.Common.{
  ℕ, ◌≡◌, refl, Bool, true, false, ◌||◌, Option, none, some, List, [], ◌∷◌, ◌++◌, arith, Bool-cases,
  inl, inr, ◌==◌, all, any, eq_codes, starts_with,
}
use salesforce.Soql.{is_letter, is_word}
use salesforce.Formula.{Text, Unicode, TokenKind, number, string, ident}
use salesforce.Formula.Lexer.{
  span, is_space, Matched, Step, fraction, number_match, string_body, word_match, ident_match,
  prepend, fraction_digits, operators, after, operator_at, operator_match, tagged, match_token,
}
use salesforce.Formula.Lexer.Looks.{
  starts_name, names_start, names_word, is_literal_end, has_literal_end, digits, number_tail, fits,
  starts_operator, begins,
}

all-span : (p : ℕ → Bool) (s : Text) → all p (span p s).0 ≡ true
unfolding span all
all-span p [] = refl
all-span p (c ∷ s) = ground (arith, all-span p s)

number_tail-span :
    (u : Unicode) (s t : Text) → number_tail u ((span u.decimal s).0 ++ t) ≡ number_tail u t
unfolding number_tail span
number_tail-span u [] t = refl
number_tail-span u (c ∷ s) t = elim (Bool-cases (u.decimal c)) [
  | inl d ↦ rw (d, d) (number_tail-span u s t)
  | inr n ↦ rw n refl
]

number_tail-all : (u : Unicode) (s : Text) → all u.decimal s ≡ true → number_tail u s ≡ true
unfolding number_tail all
number_tail-all u [] h = refl
number_tail-all u (c ∷ s) h =
    let d : u.decimal c ≡ true = ground (arith, h) in rw d (number_tail-all u s (ground (arith, h)))

number_tail-fraction_digits :
    (u : Unicode) (c : ℕ) (s : Text) (m : Matched)
    → c == b'.' ≡ true
    → all u.decimal m.0 ≡ true
    → number_tail u (fraction_digits c s m).0 ≡ true
unfolding number_tail fraction_digits digits
number_tail-fraction_digits u c s ([], rest) e h = refl
number_tail-fraction_digits u c s (d ∷ ds, rest) e h = elim (Bool-cases (u.decimal c)) [
  | inl k ↦ rw k (number_tail-all u (d ∷ ds) h)
  | inr n ↦ rw (n, e) h
]

number_tail-fraction : (u : Unicode) (s : Text) → number_tail u (fraction u s).0 ≡ true
unfolding fraction number_tail
number_tail-fraction u [] = refl
number_tail-fraction u (c ∷ s) = elim (Bool-cases (c == b'.')) [
  | inl e ↦ rw e (number_tail-fraction_digits u c s (span u.decimal s) e (all-span u.decimal s))
  | inr n ↦ rw n refl
]

-- What the outcome of an alternative says: a match has a good text, and no match a bad one.
data Outcomes (good : Text → Bool) (bad : Bool) : Option Matched → Type 0 where
  misses : bad ≡ false → Outcomes good bad none
  hits : {m rest : Text} → good m ≡ true → Outcomes good bad (some (m, rest))

escaped-Outcomes :
    (q c d : ℕ) (bad : Bool) {o : Option Matched}
    → c == q ≡ false
    → c == b'\\' ≡ true
    → d == b'\n' ≡ false
    → Outcomes (is_literal_end q) bad o
    → Outcomes (is_literal_end q) bad (prepend (c ∷ d ∷ []) o)
unfolding is_literal_end prepend
escaped-Outcomes q c d bad n b k (misses h) = misses h
escaped-Outcomes q c d bad n b k (hits g) = hits (rw (n, b, k) g)

plain-Outcomes :
    (q c : ℕ) (bad : Bool) {o : Option Matched}
    → c == q ≡ false
    → c == b'\\' ≡ false
    → Outcomes (is_literal_end q) bad o
    → Outcomes (is_literal_end q) bad (prepend (c ∷ []) o)
unfolding is_literal_end prepend
plain-Outcomes q c bad n b (misses h) = misses h
plain-Outcomes q c bad n b (hits {m} g) = hits (longer m g)
  where
    longer : (m : Text) → is_literal_end q m ≡ true → is_literal_end q (c ∷ m) ≡ true
    longer [] h = cc
    longer (d ∷ m) h = rw (n, b) h

string_body-Outcomes :
    (q : ℕ) (s : Text) → Outcomes (is_literal_end q) (has_literal_end q s) (string_body q s)
unfolding string_body is_literal_end has_literal_end
string_body-Outcomes q [] = misses refl
string_body-Outcomes q (c ∷ []) = elim (Bool-cases (c == q)) [
  | inl e ↦ rw e (hits e)
  | inr n ↦ rw n (misses refl)
]
string_body-Outcomes q (c ∷ d ∷ s) = elim (Bool-cases (c == q)) [
  | inl e ↦ rw e (hits e)
  | inr n ↦ elim (Bool-cases (c == b'\\')) [
    | inl b ↦ elim (Bool-cases (d == b'\n')) [
      | inl k ↦ rw (n, b, k) (misses refl)
      | inr k ↦ rw (n, b, k) (escaped-Outcomes q c d _ n b k (string_body-Outcomes q s))
    ]
    | inr b ↦ rw (n, b) (plain-Outcomes q c _ n b (string_body-Outcomes q (d ∷ s)))
  ]
]

word_match-Outcomes : (s : Text) → Outcomes names_word (names_start s) (word_match s)
unfolding word_match names_word prepend
word_match-Outcomes [] = misses refl
word_match-Outcomes (c ∷ s) = elim (Bool-cases (is_letter c || c == b'_')) [
  | inl e ↦ rw e (hits (rw (e, all-span is_word s) refl))
  | inr n ↦ rw n (misses refl)
]

-- What a match of the whole pattern says.
pub data Matches (u : Unicode) (c : ℕ) (s : Text) : Option Step → Type 0 where
  no_token : begins u c s ≡ false → Matches u c s none
  white : {m rest : Text} → Matches u c s (some (none, (m, rest)))
  of_kind :
      {k : TokenKind} {m rest : Text} → fits u k m ≡ true → Matches u c s (some (some k, (m, rest)))

quoted-Matches :
    (u : Unicode) (c : ℕ) (s : Text) {o : Option Matched}
    → c == b'"' || c == b'\'' ≡ true
    → (has_literal_end c s ≡ false → begins u c s ≡ false)
    → Outcomes (is_literal_end c) (has_literal_end c s) o
    → Matches u c s (tagged (some string) (prepend (c ∷ []) o))
unfolding tagged prepend fits
quoted-Matches u c s q b (misses h) = no_token (b h)
quoted-Matches u c s q b (hits g) = of_kind (rw (q, g) refl)

dollar-Matches :
    (u : Unicode) (c : ℕ) (s : Text) {o : Option Matched}
    → c == b'$' ≡ true
    → (names_start s ≡ false → begins u c s ≡ false)
    → Outcomes names_word (names_start s) o
    → Matches u c s (tagged (some ident) (prepend (c ∷ []) o))
unfolding tagged prepend fits
dollar-Matches u c s q b (misses h) = no_token (b h)
dollar-Matches u c s q b (hits g) = of_kind (rw (q, g) (ground arith))

word-Matches :
    (u : Unicode) (c : ℕ) (s : Text) {o : Option Matched}
    → starts_name c ≡ true
    → Outcomes names_word (starts_name c) o
    → Matches u c s (tagged (some ident) o)
unfolding tagged fits names_word
word-Matches u c s q (misses h) = absurd (cc (q, h))
word-Matches u c s q (hits {m} g) = of_kind (fits-word m g)
  where
    fits-word : (m : Text) → names_word m ≡ true → fits u ident m ≡ true
    fits-word [] h = cc
    fits-word (d ∷ t) h = rw h refl

after-none : (t s : Text) → after t s ≡ none → starts_with s t ≡ false
unfolding after starts_with
after-none [] s e = cc
after-none (a ∷ t) [] e = refl
after-none (a ∷ t) (c ∷ s) e = elim (Bool-cases (c == a)) [
  | inl h ↦ rw h (after-none t s (ground (arith, e, h)))
  | inr h ↦ rw h refl
]

-- The operators of a table, each of which has the text of its kind.
operator_match-Matches :
    (u : Unicode) (table : List (Text × TokenKind)) (c : ℕ) (s : Text)
    → all (λ (t, k). fits u k t) table ≡ true
    → (any (λ (t, k). starts_with (c ∷ s) t) table ≡ false → begins u c s ≡ false)
    → Matches u c s (operator_match table (c ∷ s))
unfolding operator_match operator_at all any
operator_match-Matches u [] c s h b = no_token (b refl)
operator_match-Matches u ((t, k) ∷ table) c s h b =
    go (after t (c ∷ s)) refl λ b. operator_match-Matches u table c s (ground (arith, h)) b
  where
    go :
        (o : Option Text)
        → after t (c ∷ s) ≡ o
        → ((any (λ (t, k). starts_with (c ∷ s) t) table ≡ false → begins u c s ≡ false)
            → Matches u c s (operator_match table (c ∷ s)))
        → Matches u c s (operator_at k t o (operator_match table (c ∷ s)))
    go (some rest) e others = of_kind (ground (arith, h))
    go none e others = others λ g. b (ground (arith, g, after-none t (c ∷ s) e))

operators-fit : (u : Unicode) → all (λ (t, k). fits u k t) operators ≡ true
unfolding all fits eq_codes
operators-fit u = refl

operators-start :
    (c : ℕ) (s : Text)
    → any (λ (t, k). starts_with (c ∷ s) t) operators ≡ false
    → starts_operator c s ≡ false
unfolding any starts_with starts_operator
operators-start c s h = ground (arith, h)

ident_match-Matches :
    (u : Unicode) (c : ℕ) (s : Text)
    → starts_name c || c == b'$' ≡ true
    → (c == b'$' ≡ true → names_start s ≡ false → begins u c s ≡ false)
    → Matches u c s (tagged (some ident) (ident_match c s))
unfolding ident_match
ident_match-Matches u c s h b = elim (Bool-cases (c == b'$')) [
  | inl d ↦ rw d (dollar-Matches u c s d (b d) (word_match-Outcomes s))
  | inr n ↦ rw n (word-Matches u c s (ground (arith, h, n)) (word_match-Outcomes (c ∷ s)))
]

number-fits :
    (u : Unicode) (c : ℕ) (s : Text)
    → u.decimal c ≡ true
    → Matches u c s (tagged (some number) (number_match u c s))
unfolding tagged number_match prepend fits
number-fits u c s h = of_kind (
    rw
      (
        h,
        number_tail-span u s (fraction u (span u.decimal s).1).0,
        number_tail-fraction u (span u.decimal s).1,
      )
      refl)

-- A quote and a dollar sign begin nothing else.
quote-alone :
    (c : ℕ) (s : Text)
    → c == b'"' || c == b'\'' ≡ true
    → (starts_name c || c == b'$' ≡ false) × (starts_operator c s ≡ false)
unfolding is_letter starts_operator any
quote-alone c s h = (ground (arith, h), ground (arith, h))

dollar-alone :
    (c : ℕ) (s : Text) → c == b'$' ≡ true → (starts_name c ≡ false) × (starts_operator c s ≡ false)
unfolding is_letter starts_operator any
dollar-alone c s h = (ground (arith, h), ground (arith, h))

pub match_token-Matches : (u : Unicode) (c : ℕ) (s : Text) → Matches u c s (match_token u c s)
unfolding match_token begins tagged prepend
match_token-Matches u c s = elim (Bool-cases (is_space c)) [
  | inl w ↦ rw w white
  | inr w ↦ elim (Bool-cases (u.decimal c)) [
    | inl d ↦ rw (w, d) (number-fits u c s d)
    | inr d ↦ elim (Bool-cases (c == b'"' || c == b'\'')) [
      | inl q ↦
          rw (w, d, q)
            (quoted-Matches u c s q
              (λ h. let (n, o) = quote-alone c s q in rw (w, d, h, o) (ground (arith, q, n)))
              (string_body-Outcomes c s))
      | inr q ↦ elim (Bool-cases (is_letter c || c == b'_' || c == b'$')) [
        | inl i ↦
            rw (w, d, q, i)
              (ident_match-Matches u c s (ground (arith, i))
                λ e h. let (n, o) = dollar-alone c s e in rw (w, d, q, n, h, o) (ground (arith, e)))
        | inr i ↦
            rw (w, d, q, i)
              (operator_match-Matches u operators c s (operators-fit u)
                λ h. rw (w, d, q, operators-start c s h) (ground (arith, i)))
      ]
    ]
  ]
]
