-- ===== src/Soql/Safe.antt =====
-- What may reach a query (core/soql.py).
use salesforce.Common.{
  ℕ, ◌+◌, ◌*◌, ◌≤◌, ◌≡◌, ◌↔◌, refl, sym, ap, ◌∙◌, Bool, true, false, ◌&&◌, String, List, [], ◌∷◌,
  ◌++◌, ◌==◌, all, codes, length, is_nonempty, arith, inl, inr, Bool-cases, if◌then◌else◌, suc,
}
use salesforce.Common.Exec.{Outcome, ok, raise}
use salesforce.Soql.{
  SoqlError, empty_list, too_many, is_alnum, is_record_id, quoted, first_invalid, check_count,
  refuse_first, quote_record_id_list,
}

-- The quotes in a text.
unfoldable pub quotes : List ℕ → ℕ
quotes [] = 0
quotes (c ∷ s) = let rest = quotes s in if c == b'\'' then suc rest else rest

quotes-append : (s t : List ℕ) → quotes (s ++ t) ≡ quotes s + quotes t
unfolding quotes
quotes-append [] t = omega arith
quotes-append (c ∷ s) t = ground (arith, quotes-append s t)

quotes-alnum : (s : List ℕ) → all is_alnum s ≡ true → quotes s ≡ 0
unfolding quotes all is_alnum
quotes-alnum [] h = refl
quotes-alnum (c ∷ s) h = ground (arith, quotes-alnum s)

quotes-record_id : (r : String) → is_record_id (codes r) ≡ true → quotes (codes r) ≡ 0
unfolding is_record_id
quotes-record_id r h = quotes-alnum (codes r) (ground arith)

-- Every id of a list has the pattern of a record id.
abbrev pub all_ids : List String → Bool
all_ids [] = true
all_ids (r ∷ rs) = is_record_id (codes r) && all_ids rs

quotes-quoted : (ids : List String) → all_ids ids ≡ true → quotes (quoted ids) ≡ 2 * length ids
unfolding quotes quoted
quotes-quoted [] h = refl
quotes-quoted (r ∷ []) h = ground (arith, quotes-append (codes r) (b'\'' ∷ []), quotes-record_id r)
quotes-quoted (r ∷ q ∷ rs) h = ground (
  arith,
  quotes-append (codes r) (b'\'' ∷ b',' ∷ quoted (q ∷ rs)),
  quotes-record_id r,
  quotes-quoted (q ∷ rs),
)

first_invalid-none : (ids : List String) → (first_invalid ids ≡ []) ↔ (all_ids ids ≡ true)
unfolding first_invalid
first_invalid-none [] = (λ h. refl, λ h. refl)
first_invalid-none (r ∷ rs) = elim (Bool-cases (is_record_id (codes r))) [
  | inl good ↦ rw good (first_invalid-none rs)
  | inr bad ↦ rw bad (λ h. cc, λ h. ground arith)
]

abbrev pub accepted : {A : Type 0} → Outcome SoqlError A → Bool
accepted (ok _) = true
accepted (raise _) = false

-- A list of ids is quoted exactly when each of them has the pattern of a record id, there is at least
-- one, and they are not more than a chunk; the text then holds two quotes for each id and no other, so
-- that no id can end its own literal.
pub quote_record_id_list-safe :
    (ids : List String) (max_chunk : ℕ)
    → ((accepted (quote_record_id_list ids max_chunk) ≡ true)
        ↔ ((all_ids ids ≡ true) × (is_nonempty ids ≡ true) × (length ids ≤ max_chunk)))
      × ((body : List ℕ)
          → quote_record_id_list ids max_chunk ≡ ok body
          → quotes body ≡ 2 * length ids)
unfolding quote_record_id_list refuse_first check_count
quote_record_id_list-safe ids max_chunk = go (first_invalid ids) refl
  where
    counted :
        (b c : Bool) (body : List ℕ)
        → ◌≡◌ {A = Outcome SoqlError (List ℕ)}
            (if b
              then raise empty_list
              else if c
              then raise (too_many (length ids) max_chunk)
              else ok (quoted ids))
            (ok body)
        → quoted ids ≡ body
    counted true c body e = cc
    counted false true body e = cc
    counted false false body e = cc

    go :
        (bad : List String)
        → first_invalid ids ≡ bad
        → let r = refuse_first bad ids max_chunk in
          ((accepted r ≡ true)
            ↔ ((all_ids ids ≡ true) × (is_nonempty ids ≡ true) × (length ids ≤ max_chunk)))
          × ((body : List ℕ) → r ≡ ok body → quotes body ≡ 2 * length ids)
    go (x ∷ xs) e = (
      (λ h. ground arith, λ (h, _, _). ground (arith, sym e ∙ (first_invalid-none ids).1 h)),
      λ body h. cc,
    )
    go [] e =
        let valid = (first_invalid-none ids).0 e in
        (
          (λ h. (valid, ground (arith, h), ground (arith, h)), λ h. ground (arith, h)),
          λ body h. ap quotes (sym (counted _ _ body h)) ∙ quotes-quoted ids valid,
        )
