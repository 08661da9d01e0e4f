-- ===== src/Shadow/Store/Records.antt =====
-- What the statements on a table keyed by object and record do to its rows
-- (validate/shadow/store.py).
use salesforce.Common.{
  ◌≡◌, refl, ap, ap₂, true, false, Option, none, some, String, [], ◌∷◌, eq_iff, eq_refl, arith, inl,
  inr, Bool-cases, if◌then◌else◌,
}
use salesforce.Value.{Record}
use salesforce.Shadow.Store.{
  Key, same_key, Table, ShadowStore, find_row, put_row, drop_row, get_record, upsert_record,
  delete_record,
}

pub same_key_refl : (k : Key) → same_key k k ≡ true
unfolding same_key
same_key_refl (a, b) = simp eq_refl

pub same_key-eq : (j k : Key) → same_key j k ≡ true → j ≡ k
unfolding same_key
same_key-eq (a, b) (c, d) h =
    ap₂ (λ x y. (x, y)) (ground (arith, eq_iff a c)) (ground (arith, eq_iff b d))

module _ {V : Type 0} where
  pub find-put_self : (t : Table V) (k : Key) (v : V) → find_row (put_row t k v) k ≡ some v
  unfolding find_row put_row
  find-put_self [] k v = rw (same_key_refl k) refl
  find-put_self ((j, w) ∷ t) k v = ground (arith, find-put_self t k v)

  pub find-put_ne :
      (t : Table V) (k o : Key) (v : V)
      → same_key k o ≡ false
      → find_row (put_row t k v) o ≡ find_row t o
  unfolding find_row put_row
  find-put_ne [] k o v h = rw h refl
  find-put_ne ((j, w) ∷ t) k o v h = elim (Bool-cases (same_key j k)) [
    | inr other ↦ rw other (ap (λ r. if same_key j o then some w else r) (find-put_ne t k o v h))
    | inl here ↦
        let skip : same_key j o ≡ false = rw (same_key-eq j k here) h in rw (here, skip) refl
  ]

  pub find-drop_self : (t : Table V) (k : Key) → find_row (drop_row t k) k ≡ none
  unfolding find_row drop_row
  find-drop_self [] k = refl
  find-drop_self ((j, w) ∷ t) k = ground (arith, find-drop_self t k)

  pub find-drop_ne :
      (t : Table V) (k o : Key) → same_key k o ≡ false → find_row (drop_row t k) o ≡ find_row t o
  unfolding find_row drop_row
  find-drop_ne [] k o h = refl
  find-drop_ne ((j, w) ∷ t) k o h = elim (Bool-cases (same_key j k)) [
    | inr other ↦ rw other (ap (λ r. if same_key j o then some w else r) (find-drop_ne t k o h))
    | inl here ↦
        let skip : same_key j o ≡ false = rw (same_key-eq j k here) h in
        rw (here, skip) (find-drop_ne t k o h)
  ]

pub get_record-upsert_self :
    (s : ShadowStore) (k : Key) (fields : Record) (replay_id : Option String)
    → get_record k (upsert_record k fields replay_id s) ≡ some fields
unfolding upsert_record get_record
get_record-upsert_self s k fields replay_id =
    rw (get_record, find-put_self s.shadow_record k _) refl

pub get_record-upsert_ne :
    (s : ShadowStore) (k o : Key) (fields : Record) (replay_id : Option String)
    → same_key k o ≡ false
    → get_record o (upsert_record k fields replay_id s) ≡ get_record o s
unfolding upsert_record get_record
get_record-upsert_ne s k o fields replay_id ne =
    rw (get_record, find-put_ne s.shadow_record k o _ ne) refl

pub get_record-delete_self : (s : ShadowStore) (k : Key) → get_record k (delete_record k s) ≡ none
unfolding delete_record get_record
get_record-delete_self s k = rw (get_record, find-drop_self s.shadow_record k) refl

pub get_record-delete_ne :
    (s : ShadowStore) (k o : Key)
    → same_key k o ≡ false
    → get_record o (delete_record k s) ≡ get_record o s
unfolding delete_record get_record
get_record-delete_ne s k o ne = rw (get_record, find-drop_ne s.shadow_record k o ne) refl
