-- ===== src/Pull/Precedence.antt =====
-- extract/pull/reconciler.py: which source each field of a reconciled record comes from.
use salesforce.Common.{
  ◌≡◌, refl, sym, ap, subst, ◌∙◌, Bool, true, false, ◌&&◌, ◌||◌, String, Option, none, some, List,
  [], ◌∷◌, ◌=ₛ◌, keep, member, is_some, if◌then◌else◌, arith, eq_iff, eq_refl, Bool-cases, inl, inr,
}
use salesforce.Common.Dict.{get, put, has, get-put}
use salesforce.Value.{Value, py_eq, Record}
use salesforce.Pull.{
  RawMetadataRecord, body_keys, has_body, next_body, skips, Merge, place, merge_fields,
  merge_records, merge_bucket,
}

abbrev or_else : Option Value → Option Value → Option Value
or_else none o = o
or_else (some v) o = some v

-- The field of the first record that carries it.
pub first_of : String → List RawMetadataRecord → Option Value
unfolding get
first_of k [] = none
first_of k (r ∷ rs) = or_else (get r.payload k) (first_of k rs)

-- The records of the first source that carries a body, from its body on.
pub of_body_source : List RawMetadataRecord → List RawMetadataRecord
unfolding has_body keep
of_body_source [] = []
of_body_source (r ∷ rs) =
    let later = of_body_source rs in
    if has_body r then r ∷ keep (λ q. q.source =ₛ r.source) rs else later

abbrev pub is_body_key : String → Bool
is_body_key k = "raw_xml" =ₛ k || "parsed" =ₛ k

or_else-none : (o : Option Value) → or_else o none ≡ o
or_else-none none = refl
or_else-none (some v) = refl

or_else_assoc : (a b c : Option Value) → or_else (or_else a b) c ≡ or_else a (or_else b c)
or_else_assoc none b c = refl
or_else_assoc (some v) b c = refl

-- A field that is written where it is missing.
fresh-get :
    (d : Record) (j k : String) (v : Value)
    → get d j ≡ none
    → get (put d j v) k ≡ or_else (get d k) (if j =ₛ k then some v else none)
fresh-get d j k v e = elim (Bool-cases (j =ₛ k)) [
  | inl h ↦
      let absent : get d k ≡ none = sym (ap (get d) ((eq_iff j k).0 h)) ∙ e in
      rw (get-put, h, absent) refl
  | inr h ↦ rw (get-put, h) (sym (or_else-none (get d k)))
]

-- A field that is there stays.
taken-get :
    (d : Record) (j k : String) (v w : Value)
    → get d j ≡ some w
    → get d k ≡ or_else (get d k) (if j =ₛ k then some v else none)
taken-get d j k v w e = elim (Bool-cases (j =ₛ k)) [
  | inl h ↦ let there : get d k ≡ some w = sym (ap (get d) ((eq_iff j k).0 h)) ∙ e in rw there refl
  | inr h ↦ rw h (sym (or_else-none (get d k)))
]

place-get :
    (bucket : List RawMetadataRecord) (r : RawMetadataRecord) (j k : String) (v : Value)
    (o : Option Value) (m : Merge)
    → get m.canonical j ≡ o
    → get (place bucket r j v o m).canonical k
      ≡ or_else (get m.canonical k) (if j =ₛ k then some v else none)
unfolding place
place-get bucket r j k v none m e = fresh-get m.canonical j k v e
place-get bucket r j k v (some w) m e = elim (Bool-cases (py_eq w v)) [
  | inl h ↦ rw h (taken-get m.canonical j k v w e)
  | inr h ↦ rw h (taken-get m.canonical j k v w e)
]

-- What a record contributes to a field.
abbrev offered : Bool → Option Value → Option Value
offered true o = none
offered false o = o

offered-none : (b : Bool) → offered b none ≡ none
offered-none true = refl
offered-none false = refl

-- One field of a record, and then the others.
offered-field :
    (skipped : String → Bool) (j k : String) (v : Value) (o : Option Value)
    → or_else (offered (skipped j) (if j =ₛ k then some v else none)) (offered (skipped k) o)
      ≡ offered (skipped k) (if j =ₛ k then some v else o)
offered-field skipped j k v o = elim (Bool-cases (j =ₛ k)) [
  | inl h ↦ rw (h, ap skipped ((eq_iff j k).0 h)) (both (skipped k))
  | inr h ↦ rw (h, offered-none (skipped j)) refl
]
  where
    both : (b : Bool) → or_else (offered b (some v)) (offered b o) ≡ offered b (some v)
    both true = refl
    both false = refl

step-get :
    (bucket : List RawMetadataRecord) (r : RawMetadataRecord) (j k : String) (v : Value) (b : Bool)
    (m : Merge)
    → get (if b then m else place bucket r j v (get m.canonical j) m).canonical k
      ≡ or_else (get m.canonical k) (offered b (if j =ₛ k then some v else none))
step-get bucket r j k v true m = sym (or_else-none (get m.canonical k))
step-get bucket r j k v false m = place-get bucket r j k v (get m.canonical j) m refl

merge_fields-get :
    (bucket : List RawMetadataRecord) (body : Option String) (r : RawMetadataRecord) (fs : Record)
    (k : String) (m : Merge)
    → get (merge_fields bucket body r fs m).canonical k
      ≡ or_else (get m.canonical k) (offered (skips body r.source k) (get fs k))
unfolding merge_fields get
merge_fields-get bucket body r [] k m =
    rw (offered-none (skips body r.source k)) (sym (or_else-none (get m.canonical k)))
merge_fields-get bucket body r ((j, v) ∷ fs) k m =
    merge_fields-get bucket body r fs k _
    ∙ rw (step-get bucket r j k v (skips body r.source j) m) (
        or_else_assoc (get m.canonical k) _ _
        ∙ ap (or_else (get m.canonical k)) (offered-field (skips body r.source) j k v (get fs k)))

-- The field of the first record that may contribute it.
winner : Option String → List RawMetadataRecord → String → Option Value
unfolding next_body skips get
winner body [] k = none
winner body (r ∷ rs) k =
    or_else (offered (skips (next_body body r) r.source k) (get r.payload k))
      (winner (next_body body r) rs k)

merge_records-get :
    (bucket : List RawMetadataRecord) (body : Option String) (rs : List RawMetadataRecord)
    (k : String) (m : Merge)
    → get (merge_records bucket body rs m).canonical k
      ≡ or_else (get m.canonical k) (winner body rs k)
unfolding merge_records winner
merge_records-get bucket body [] k m = sym (or_else-none (get m.canonical k))
merge_records-get bucket body (r ∷ rs) k m =
    merge_records-get bucket (next_body body r) rs k _
    ∙ rw (merge_fields-get bucket (next_body body r) r r.payload k m)
        (or_else_assoc (get m.canonical k) _ _)

skips-plain :
    (body : Option String) (s k : String) → member k body_keys ≡ false → skips body s k ≡ false
unfolding skips
skips-plain none s k h = refl
skips-plain (some t) s k h = rw h refl

winner-first_of :
    (body : Option String) (rs : List RawMetadataRecord) (k : String)
    → member k body_keys ≡ false
    → winner body rs k ≡ first_of k rs
unfolding winner first_of
winner-first_of body [] k h = refl
winner-first_of body (r ∷ rs) k h =
    rw (skips-plain (next_body body r) r.source k h, winner-first_of (next_body body r) rs k h) refl

is_body_key-member : (k : String) → is_body_key k ≡ true → member k body_keys ≡ true
unfolding member
is_body_key-member k h = ground (arith, h)

is_none : {A : Type 0} (o : Option A) → is_some o ≡ false → o ≡ none
is_none none h = refl
is_none (some v) h = cc

no_body-get :
    (r : RawMetadataRecord) (k : String)
    → is_body_key k ≡ true
    → has_body r ≡ false
    → get r.payload k ≡ none
unfolding has_body has
no_body-get r k h n = elim (Bool-cases ("raw_xml" =ₛ k)) [
  | inl e ↦
      subst (λ j. get r.payload j ≡ none) ((eq_iff "raw_xml" k).0 e)
        (is_none (get r.payload "raw_xml") (ground (arith, n)))
  | inr e ↦
      subst (λ j. get r.payload j ≡ none) ((eq_iff "parsed" k).0 (ground (arith, h, e)))
        (is_none (get r.payload "parsed") (ground (arith, n)))
]

-- After the first body, only its source.
winner-source :
    (s : String) (rs : List RawMetadataRecord) (k : String)
    → member k body_keys ≡ true
    → winner (some s) rs k ≡ first_of k (keep (λ q. q.source =ₛ s) rs)
unfolding winner first_of keep next_body skips
winner-source s [] k h = refl
winner-source s (r ∷ rs) k h = elim (Bool-cases (r.source =ₛ s)) [
  | inl e ↦ rw (h, e) (ap (or_else (get r.payload k)) (winner-source s rs k h))
  | inr e ↦ rw (h, e) (winner-source s rs k h)
]

winner-body :
    (rs : List RawMetadataRecord) (k : String)
    → is_body_key k ≡ true
    → winner none rs k ≡ first_of k (of_body_source rs)
unfolding winner first_of of_body_source next_body skips
winner-body [] k h = refl
winner-body (r ∷ rs) k h = elim (Bool-cases (has_body r)) [
  | inl b ↦
      rw (b, is_body_key-member k h, eq_refl r.source)
        (ap (or_else (get r.payload k)) (winner-source r.source rs k (is_body_key-member k h)))
  | inr n ↦ rw (n, no_body-get r k h n) (winner-body rs k h)
]

own_source : (r : RawMetadataRecord) (k : String) → skips (next_body none r) r.source k ≡ false
unfolding skips next_body
own_source r k = elim (Bool-cases (has_body r)) [
  | inl b ↦ rw (b, eq_refl r.source) (no_other (member k body_keys))
  | inr n ↦ rw n refl
]
  where
    no_other : (b : Bool) → b && false ≡ false
    no_other true = refl
    no_other false = refl

abbrev no_fields : Merge
no_fields = record { canonical = []; found = [] }

merge_bucket-get :
    (bucket : List RawMetadataRecord) (k : String)
    → get (merge_bucket bucket).canonical k ≡ winner none bucket k
unfolding merge_bucket winner get
merge_bucket-get [] k = merge_records-get [] none [] k no_fields
merge_bucket-get (r ∷ []) k = rw (own_source r k) (sym (or_else-none (get r.payload k)))
merge_bucket-get (r ∷ q ∷ qs) k = merge_records-get (r ∷ q ∷ qs) none (r ∷ q ∷ qs) k no_fields

-- The records that may give a field: for a raw or parsed body those of its source, for others all.
pub carriers : String → List RawMetadataRecord → List RawMetadataRecord
unfolding of_body_source
carriers k rs = if is_body_key k then of_body_source rs else rs

plain-member :
    (k : String) → "partial" =ₛ k ≡ false → is_body_key k ≡ false → member k body_keys ≡ false
unfolding member
plain-member k h b = ground (arith, h, b)

pub merge_bucket-carriers :
    (bucket : List RawMetadataRecord) (k : String)
    → "partial" =ₛ k ≡ false
    → get (merge_bucket bucket).canonical k ≡ first_of k (carriers k bucket)
unfolding carriers
merge_bucket-carriers bucket k h = elim (Bool-cases (is_body_key k)) [
  | inl b ↦ rw b (merge_bucket-get bucket k ∙ winner-body bucket k b)
  | inr n ↦ rw n (merge_bucket-get bucket k ∙ winner-first_of none bucket k (plain-member k h n))
]
