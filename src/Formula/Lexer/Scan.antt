-- ===== src/Formula/Lexer/Scan.antt =====
-- generate/formula/parser.py, `tokenize`: the scan of a whole text.
use salesforce.Common.{
  ℕ, zero, suc, ◌+◌, ◌≤◌, ◌≡◌, refl, ap, true, Option, none, some, [], ◌∷◌, ◌++◌, length, arith,
  length-append, all, is_nonempty, false,
}
use salesforce.Common.Exec.{Outcome, ok, raise}
use salesforce.Formula.{
  Text, Unicode, TokenKind, Tokens, FormulaError, token, unexpected_character, eof,
}
use salesforce.Formula.Lexer.{is_space, Step, match_token, push, scan, tokenize}
use salesforce.Formula.Lexer.Looks.{begins, fits}
use salesforce.Formula.Lexer.Kinds.{Matches, no_token, of_kind, match_token-Matches}
use salesforce.Formula.Lexer.Covers.{Cuts, no_cut, blank, cut, match_token-Cuts}

-- The tokens of a text that begins at the position `p`: their own texts make it up, each with the look of
-- its kind, with white space between them.
pub data Spans (u : Unicode) : ℕ → Text → Tokens → Type 0 where
  at_end : {p : ℕ} → Spans u p [] (token eof [] p ∷ [])
  skip :
      {p : ℕ} {s : Text} {ts : Tokens} (m rest : Text)
      → is_nonempty m ≡ true
      → all is_space m ≡ true
      → m ++ rest ≡ s
      → Spans u (p + length m) rest ts
      → Spans u p s ts
  read :
      {p : ℕ} {k : TokenKind} {s : Text} {ts : Tokens} (m rest : Text)
      → is_nonempty m ≡ true
      → fits u k m ≡ true
      → m ++ rest ≡ s
      → Spans u (p + length m) rest ts
      → Spans u p s (token k m p ∷ ts)

-- A character `c` at the position `q` of a text from `p` on with which neither a token nor white space
-- begins, after tokens and white space that make up the text before it.
pub data Blocked (u : Unicode) (q c : ℕ) : ℕ → Text → Type 0 where
  no_token_at : (rest : Text) → begins u c rest ≡ false → Blocked u q c q (c ∷ rest)
  after_blank :
      {p : ℕ} {s : Text} (m rest : Text)
      → all is_space m ≡ true
      → m ++ rest ≡ s
      → Blocked u q c (p + length m) rest
      → Blocked u q c p s
  after_token :
      {p : ℕ} {s : Text} (k : TokenKind) (m rest : Text)
      → fits u k m ≡ true
      → m ++ rest ≡ s
      → Blocked u q c (p + length m) rest
      → Blocked u q c p s

pub data Lexes (u : Unicode) (p : ℕ) (s : Text) : Outcome FormulaError Tokens → Type 0 where
  lexes : {ts : Tokens} → Spans u p s ts → Lexes u p s (ok ts)
  refuses : {q c : ℕ} → Blocked u q c p s → Lexes u p s (raise (unexpected_character q c))

skip-Lexes :
    {u : Unicode} {p : ℕ} {s : Text} {r : Outcome FormulaError Tokens} (m rest : Text)
    → is_nonempty m ≡ true
    → all is_space m ≡ true
    → m ++ rest ≡ s
    → Lexes u (p + length m) rest r
    → Lexes u p s r
skip-Lexes m rest n b e (lexes h) = lexes (skip m rest n b e h)
skip-Lexes m rest n b e (refuses h) = refuses (after_blank m rest b e h)

push-Lexes :
    {u : Unicode} {p : ℕ} {s : Text} {r : Outcome FormulaError Tokens} (k : TokenKind)
    (m rest : Text)
    → is_nonempty m ≡ true
    → fits u k m ≡ true
    → m ++ rest ≡ s
    → Lexes u (p + length m) rest r
    → Lexes u p s (push (token k m p) r)
unfolding push
push-Lexes k m rest n f e (lexes h) = lexes (read m rest n f e h)
push-Lexes k m rest n f e (refuses h) = refuses (after_token k m rest f e h)

length-suffix-le : (m rest s : Text) → m ++ rest ≡ s → length rest ≤ length s
length-suffix-le m rest s e = omega (arith, length-append m rest, ap (λ t. length t) e)

scan-Lexes : (u : Unicode) (f p : ℕ) (s : Text) → length s ≤ f → Lexes u p s (scan u f p s)
unfolding scan
scan-Lexes u f p [] h = lexes at_end
scan-Lexes u zero p (c ∷ s) h = absurd (omega arith)
scan-Lexes u (suc f) p (c ∷ s) h =
    go (match_token u c s) refl (match_token-Cuts u c s) (match_token-Matches u c s)
      λ q m rest e. scan-Lexes u f q rest (omega (arith, length-suffix-le m rest s e))
  where
    go :
        (o : Option Step)
        → match_token u c s ≡ o
        → Cuts c s o
        → Matches u c s o
        → ((q : ℕ) (m rest : Text) → m ++ rest ≡ s → Lexes u q rest (scan u f q rest))
        → Lexes u p (c ∷ s) (scan u (suc f) p (c ∷ s))
    go none e no_cut (no_token n) ih = rw (e, scan) (refuses (no_token_at s n))
    go (some (none, ([], rest))) e x y ih = elim x [ ]
    go (some (some k, ([], rest))) e x y ih = elim x [ ]
    go (some (none, (d ∷ m, rest))) e (blank b j) y ih =
        rw (e, scan)
          (skip-Lexes (c ∷ m) rest refl b (ap (λ t. c ∷ t) j) (ih (p + suc (length m)) m rest j))
    go (some (some k, (d ∷ m, rest))) e (cut j) (of_kind f) ih =
        rw (e, scan)
          (push-Lexes k (c ∷ m) rest refl f (ap (λ t. c ∷ t) j) (ih (p + suc (length m)) m rest j))

-- Tokenizing a text either refuses a character with which no token and no white space begins, or gives
-- the tokens whose texts make up the whole text in their order, each with the look of its kind and at its
-- position, with nothing but white space between them and the end mark after them.
pub tokenize-Lexes : (u : Unicode) (s : Text) → Lexes u 0 s (tokenize u s)
unfolding tokenize
tokenize-Lexes u s = scan-Lexes u (length s) 0 s (omega arith)
