-- ===== src/Reconcile/Batch/Chunk.antt =====
-- What the records of one chunk hold after they were fetched again (`resync_batch` of
-- validate/reconcile/resync.py).
use salesforce.Common.{
  ◌≡◌, refl, sym, ap, ◌∙◌, Bool, true, false, not, ◌&&◌, ◌||◌, Option, none, some, is_some, String,
  List, [], ◌∷◌, member, eq_iff, eq_refl, ◌=ₛ◌, arith, inl, inr, Bool-cases, if◌then◌else◌,
}
use salesforce.Common.Exec.{ok}
use salesforce.Value.{Record}
use salesforce.Shadow.Store.{same_key, ShadowStore, upsert_record, delete_record, get_record}
use salesforce.Shadow.Store.Records.{
  get_record-upsert_self, get_record-upsert_ne, get_record-delete_self, get_record-delete_ne,
}
use salesforce.Reconcile.Batch.{id_of, store_records, drop_missing, sync_chunk}

-- A record of an answer that has an id.
abbrev pub has_id : Option String → String → Bool
has_id none rid = false
has_id (some a) rid = a =ₛ rid

abbrev pub pick : Option Record → Bool → Record → Option Record
pick (some later) b r = some later
pick none true r = some r
pick none false r = none

-- The last record of an answer with an id, where there is one.
unfoldable pub last_of : List Record → String → Option Record
last_of [] rid = none
last_of (r ∷ rs) rid = pick (last_of rs rid) (has_id (id_of r) rid) r

pick-false : (l : Option Record) (r : Record) → pick l false r ≡ l
pick-false none r = refl
pick-false (some x) r = refl

pick-is_some : (l : Option Record) (b : Bool) (r : Record) → is_some (pick l b r) ≡ (b || is_some l)
pick-is_some (some x) true r = refl
pick-is_some (some x) false r = refl
pick-is_some none true r = refl
pick-is_some none false r = refl

abbrev or_before : Option Record → Option Record → Option Record
or_before none b = b
or_before (some r) b = some r

or_before-pick :
    (l : Option Record) (b : Bool) (r : Record) (before : Option Record)
    → or_before l (if b then some r else before) ≡ or_before (pick l b r) before
or_before-pick (some x) b r before = refl
or_before-pick none true r before = refl
or_before-pick none false r before = refl

same_object : (sobject a b : String) → same_key (sobject, a) (sobject, b) ≡ (a =ₛ b)
unfolding same_key
same_object sobject a b = rw (eq_refl sobject) refl

get_record-upsert :
    (sobject a rid : String) (r : Record) (s : ShadowStore)
    → get_record (sobject, rid) (upsert_record (sobject, a) r none s)
      ≡ (if a =ₛ rid then some r else get_record (sobject, rid) s)
get_record-upsert sobject a rid r s = elim (Bool-cases (a =ₛ rid)) [
  | inl same ↦ rw (same, (eq_iff a rid).0 same) (get_record-upsert_self s (sobject, rid) r none)
  | inr other ↦ rw other (
      get_record-upsert_ne s (sobject, a) (sobject, rid) r none (same_object sobject a rid ∙ other))
]

-- What the loop over the records did to one id.
abbrev Stored : String → String → List Record → ShadowStore → List String → ShadowStore → Type 0
Stored sobject rid rs s seen t =
    (member rid seen ≡ is_some (last_of rs rid))
    × (get_record (sobject, rid) t ≡ or_before (last_of rs rid) (get_record (sobject, rid) s))

store_records-Stored :
    (sobject rid : String) (rs : List Record) (s : ShadowStore)
    → let (seen, _, t) = store_records sobject rs s in Stored sobject rid rs s seen t
unfolding store_records last_of member
store_records-Stored sobject rid [] s = (refl, refl)
store_records-Stored sobject rid (r ∷ rs) s =
    go (id_of r) refl (λ u. store_records-Stored sobject rid rs u)
  where
    go :
        (m : Option String)
        → id_of r ≡ m
        → ((u : ShadowStore)
            → let (seen, _, t) = store_records sobject rs u in Stored sobject rid rs u seen t)
        → let (seen, _, t) = store_records sobject (r ∷ rs) s in
          Stored sobject rid (r ∷ rs) s seen t
    go none e ih = rw (e, pick-false) (ih s)
    go (some a) e ih =
        let (seen, stored) = ih (upsert_record (sobject, a) r none s) in
        rw e (
          ap (λ b. (a =ₛ rid) || b) seen ∙ sym (pick-is_some (last_of rs rid) (a =ₛ rid) r),
          stored
              ∙ ap (or_before (last_of rs rid)) (get_record-upsert sobject a rid r s)
              ∙ or_before-pick (last_of rs rid) (a =ₛ rid) r (get_record (sobject, rid) s),
        )

get_record-delete :
    (sobject a rid : String) (s : ShadowStore)
    → get_record (sobject, rid) (delete_record (sobject, a) s)
      ≡ (if a =ₛ rid then none else get_record (sobject, rid) s)
get_record-delete sobject a rid s = elim (Bool-cases (a =ₛ rid)) [
  | inl same ↦ rw (same, (eq_iff a rid).0 same) (get_record-delete_self s (sobject, rid))
  | inr other ↦
      rw other
        (get_record-delete_ne s (sobject, a) (sobject, rid) (same_object sobject a rid ∙ other))
]

-- The records of the ids that were seen stay, and of the others those of the chunk go.
drop_missing-get :
    (sobject rid : String) (seen rids : List String) (s : ShadowStore)
    → get_record (sobject, rid) (drop_missing sobject seen rids s).1
      ≡ (if not (member rid seen) && member rid rids then none else get_record (sobject, rid) s)
unfolding drop_missing member
drop_missing-get sobject rid seen [] s = ground arith
drop_missing-get sobject rid seen (a ∷ rids) s = elim (Bool-cases (member a seen)) [
  | inl old ↦ rw old (drop_missing-get sobject rid seen rids s ∙ ground (arith, eq_iff a rid))
  | inr new ↦ rw new (
      drop_missing-get sobject rid (a ∷ seen) rids (delete_record (sobject, a) s)
      ∙ rw (get_record-delete sobject a rid s) (ground (arith, eq_iff a rid)))
]

-- After a chunk whose query was answered, the shadow record of each of its ids is the last record of
-- the answer with that id, and gone where the answer has none.
pub sync_chunk-current :
    (sobject : String) (chunk : List String) (s : ShadowStore) (records : List Record)
    (rid : String)
    → member rid chunk ≡ true
    → get_record (sobject, rid) (sync_chunk sobject chunk s (ok records)).1 ≡ last_of records rid
unfolding sync_chunk
sync_chunk-current sobject chunk s records rid within =
    let (seen, _, t) = store_records sobject records s in
    let (known, stored) = store_records-Stored sobject rid records s in
    drop_missing-get sobject rid seen chunk t
    ∙ rw (known, within, stored) (either (last_of records rid) (get_record (sobject, rid) s))
  where
    either :
        (l before : Option Record)
        → (if not (is_some l) && true then none else or_before l before) ≡ l
    either none before = refl
    either (some r) before = refl
