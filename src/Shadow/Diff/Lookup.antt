-- ===== src/Shadow/Diff/Lookup.antt =====
-- Which fields a diff holds (`field_diff` of validate/shadow/diff.py).
use salesforce.Common.{
  ◌≡◌, refl, sym, ap, ◌∙◌, Bool, true, false, not, ◌&&◌, ◌||◌, Option, none, some, is_some, String,
  List, [], ◌∷◌, ◌=ₛ◌, eq_iff, eq_refl, arith, inl, inr, Bool-cases, keep, member, member-append,
  if◌then◌else◌,
}
use salesforce.Common.Dict.{Dict, get, put, has, keys, get-put_self, get-put_ne}
use salesforce.Value.{Value, null, boolean, number, text, mapping, other, Record, py_eq}
use salesforce.Shadow.Diff.{normalize, normalized_at, all_keys, diff_keys, field_diff}

-- A field as the diff compares it: absent, null and empty are one.
unfoldable pub plain : Option Value → Value
plain none = null
plain (some (text s)) = if s =ₛ "" then null else text s
plain (some v) = v

normalized_at-plain : (r : Record) (k : String) → normalized_at r k ≡ plain (get r k)
unfolding normalized_at plain
normalized_at-plain r k = go (get r k)
  where
    go : (o : Option Value) → (elim o [ none ↦ null | some v ↦ normalize v ]) ≡ plain o
    go none = refl
    go (some null) = refl
    go (some (boolean b)) = refl
    go (some (number n)) = refl
    go (some (text s)) = refl
    go (some (mapping fs)) = refl
    go (some (other n b)) = refl

-- What a diff is to hold of a field.
unfoldable pub expected : Record → Record → List String → String → Option (Value × Value)
unfolding plain
expected production runtime ignore k =
    let p = plain (get production k) in
    let r = plain (get runtime k) in
    if member k ignore then none else if not (py_eq p r) then some (p, r) else none

-- The same in the words of the code.
difference : Record → Record → List String → String → Option (Value × Value)
difference production runtime ignore k =
    let p = normalized_at production k in
    let r = normalized_at runtime k in
    if member k ignore then none else if not (py_eq p r) then some (p, r) else none

difference-expected :
    (production runtime : Record) (ignore : List String) (k : String)
    → difference production runtime ignore k ≡ expected production runtime ignore k
unfolding difference expected
difference-expected production runtime ignore k =
    rw (normalized_at-plain production k, normalized_at-plain runtime k) refl

-- The first of two answers.
abbrev or_else : Option (Value × Value) → Option (Value × Value) → Option (Value × Value)
or_else none b = b
or_else (some a) b = some a

step-get :
    (production runtime : Record) (ignore : List String) (k j : String) (out : Dict (Value × Value))
    → let p = normalized_at production k in
      let r = normalized_at runtime k in
      get (if member k ignore then out else if not (py_eq p r) then put out k (p, r) else out) j
      ≡ (if k =ₛ j then or_else (difference production runtime ignore j) (get out j) else get out j)
unfolding difference
step-get production runtime ignore k j out = elim (Bool-cases (k =ₛ j)) [
  | inr apart ↦ rw apart (elim (Bool-cases (member k ignore)) [
    | inl skip ↦ rw skip refl
    | inr on ↦
        rw on (elim (Bool-cases (py_eq (normalized_at production k) (normalized_at runtime k))) [
          | inl same ↦ rw same refl
          | inr differ ↦ rw differ (get-put_ne out k j _ apart)
        ])
  ])
  | inl here ↦
      rw (here, (eq_iff k j).0 here)
        (elim (Bool-cases (member j ignore)) [
          | inl skip ↦ rw skip refl
          | inr on ↦
              rw on
                (elim (Bool-cases (py_eq (normalized_at production j) (normalized_at runtime j))) [
                  | inl same ↦ rw same refl
                  | inr differ ↦ rw differ (get-put_self out j _)
                ])
        ])
]

or_else-twice : (a b : Option (Value × Value)) → or_else a (or_else a b) ≡ or_else a b
or_else-twice none b = refl
or_else-twice (some a) b = refl

or_else-none : (a : Option (Value × Value)) → or_else a none ≡ a
or_else-none none = refl
or_else-none (some a) = refl

diff_keys-get :
    (production runtime : Record) (ignore : List String) (ks : List String) (j : String)
    (out : Dict (Value × Value))
    → get (diff_keys production runtime ignore ks out) j ≡ (
        if member j ks
        then or_else (difference production runtime ignore j) (get out j)
        else get out j)
unfolding diff_keys member
diff_keys-get production runtime ignore [] j out = refl
diff_keys-get production runtime ignore (k ∷ ks) j out =
    let d = difference production runtime ignore j in
    diff_keys-get production runtime ignore ks j _
    ∙ ap (λ o. if member j ks then or_else d o else o) (step-get production runtime ignore k j out)
    ∙ after d (get out j) (k =ₛ j) (member j ks)
  where
    after :
        (d o : Option (Value × Value)) (here later : Bool)
        → (if later
            then or_else d (if here then or_else d o else o)
            else if here
            then or_else d o
            else o)
          ≡ (if here || later then or_else d o else o)
    after d o true true = or_else-twice d o
    after d o true false = refl
    after d o false true = refl
    after d o false false = refl

member-keys : (r : Record) (j : String) → member j (keys r) ≡ is_some (get r j)
unfolding member keys get
member-keys [] j = refl
member-keys ((k, v) ∷ r) j = ground (arith, member-keys r j)

member-keep :
    (j : String) (p : String → Bool) (xs : List String)
    → member j (keep p xs) ≡ (member j xs && p j)
unfolding member keep
member-keep j p [] = refl
member-keep j p (x ∷ xs) = elim (Bool-cases (x =ₛ j)) [
  | inr apart ↦ rw apart (elim (Bool-cases (p x)) [
    | inl kept ↦ rw (kept, apart) (member-keep j p xs)
    | inr left ↦ rw left (member-keep j p xs)
  ])
  | inl here ↦
      rw (here, (eq_iff x j).0 here)
        (elim (Bool-cases (p j)) [
          | inl kept ↦ rw (kept, eq_refl j) refl
          | inr left ↦ rw left (ground (arith, member-keep j p xs))
        ])
]

member-all_keys :
    (production runtime : Record) (j : String)
    → member j (all_keys production runtime)
      ≡ (is_some (get production j) || is_some (get runtime j))
unfolding all_keys has
member-all_keys production runtime j =
    member-append j (keys production) _ ∙ rw (member-keep, member-keys, member-keys) (ground arith)

normalized_at-absent : (r : Record) (k : String) → get r k ≡ none → normalized_at r k ≡ null
unfolding normalized_at
normalized_at-absent r k e = rw (normalized_at, e) refl

difference-absent :
    (production runtime : Record) (ignore : List String) (k : String)
    → get production k ≡ none
    → get runtime k ≡ none
    → difference production runtime ignore k ≡ none
unfolding difference py_eq
difference-absent production runtime ignore k e f =
    rw (normalized_at-absent production k e, normalized_at-absent runtime k f) (ground arith)

-- What a diff holds of any field: nothing where the field is ignored or the two snapshots agree on it,
-- where an absent field, a null and an empty text all count as null, and the two values, so
-- normalized, where they do not agree. The fields that neither snapshot has are among those on which
-- they agree.
pub field_diff-get :
    (production runtime : Record) (ignore : List String) (k : String)
    → get (field_diff production runtime ignore) k ≡ expected production runtime ignore k
unfolding field_diff
field_diff-get production runtime ignore k =
    diff_keys-get production runtime ignore (all_keys production runtime) k []
    ∙ rw (member-all_keys, or_else-none) (absent (get production k) (get runtime k) refl refl)
    ∙ difference-expected production runtime ignore k
  where
    absent :
        (p r : Option Value)
        → get production k ≡ p
        → get runtime k ≡ r
        → (if is_some p || is_some r then difference production runtime ignore k else none)
          ≡ difference production runtime ignore k
    absent (some p) r e f = refl
    absent none (some r) e f = refl
    absent none none e f = sym (difference-absent production runtime ignore k e f)
