-- ===== src/Reconcile/Synced.antt =====
-- What one record holds after it was fetched again (validate/reconcile/resync.py, gap_handler.py).
use salesforce.Common.{
  ◌≡◌, ◌⊎◌, refl, ◌∙◌, true, false, Option, none, some, String, List, [], ◌∷◌, map, arith, inl, inr,
  Bool-cases,
}
use salesforce.Common.Exec.{Outcome, ok, raise}
use salesforce.Value.{Record}
use salesforce.Soql.{SoqlError, validate_sobject, validate_record_id}
use salesforce.Shadow.Event.{CdcEvent, is_gap}
use salesforce.Shadow.Store.{Key, same_key, ShadowStore, get_record}
use salesforce.Shadow.Store.Records.{
  get_record-upsert_self, get_record-upsert_ne, get_record-delete_self, get_record-delete_ne,
}
use salesforce.Reconcile.{
  ResyncOutcome, SfQuery, failed, synced, record_query, store_first, with_id, with_sobject,
  resync_record, resync_each, handle_gap,
}

-- The first of the records of an answer.
abbrev pub first_record : List Record → Option Record
first_record [] = none
first_record (r ∷ _) = some r

-- What a fetch of one record comes to: a failure changes nothing, and otherwise the shadow record is
-- the first record of the answer to its query, or gone. No other record changes.
abbrev pub Fetched : SfQuery → String → String → ShadowStore → ResyncOutcome → ShadowStore → Type 0
Fetched query sobject rid s outcome t =
    (outcome.record_id ≡ rid)
    × (((outcome.success ≡ false) × (t ≡ s))
        ⊎ ((outcome.success ≡ true)
            × ((records : List Record) × (query (record_query sobject rid) ≡ ok records)
                × (get_record (sobject, rid) t ≡ first_record records))))
    × ((other : Key)
        → same_key (sobject, rid) other ≡ false
        → get_record other t ≡ get_record other s)

store_first-Fetched :
    (query : SfQuery) (sobject rid : String) (s : ShadowStore)
    (answer : Outcome String (List Record))
    → query (record_query sobject rid) ≡ answer
    → let (outcome, t) = store_first sobject rid s answer in Fetched query sobject rid s outcome t
unfolding store_first failed synced
store_first-Fetched query sobject rid s (raise e) q = (refl, inl (refl, refl), λ o ne. refl)
store_first-Fetched query sobject rid s (ok []) q = (
  refl,
  inr (refl, ([], q, get_record-delete_self s (sobject, rid))),
  λ o ne. get_record-delete_ne s (sobject, rid) o ne,
)
store_first-Fetched query sobject rid s (ok (r ∷ rs)) q = (
  refl,
  inr (refl, (r ∷ rs, q, get_record-upsert_self s (sobject, rid) r none)),
  λ o ne. get_record-upsert_ne s (sobject, rid) o r none ne,
)

-- A fetch of one record, whatever the object, the id and the answer are: a failure, of the validation
-- or of the query, changes nothing, and otherwise the shadow record is the first record that the org
-- answered with, or gone if there was none. No other record changes.
pub resync_record-Fetched :
    (query : SfQuery) (sobject rid : String) (s : ShadowStore)
    → let (outcome, t) = resync_record query sobject rid s in Fetched query sobject rid s outcome t
unfolding resync_record with_sobject with_id failed
resync_record-Fetched query sobject rid s = object (validate_sobject sobject)
  where
    id :
        (v : Outcome SoqlError String)
        → let (outcome, t) = with_id query sobject rid s v in Fetched query sobject rid s outcome t
    id (raise e) = (refl, inl (refl, refl), λ o ne. refl)
    id (ok r) = store_first-Fetched query sobject rid s (query (record_query sobject rid)) refl

    object :
        (v : Outcome SoqlError String)
        → let (outcome, t) = with_sobject query sobject rid s v in
          Fetched query sobject rid s outcome t
    object (raise e) = (refl, inl (refl, refl), λ o ne. refl)
    object (ok r) = id (validate_record_id rid)

-- No id of a list makes a key.
abbrev pub Apart : String → List String → Key → Type 0
Apart sobject [] other = Unit
Apart sobject (rid ∷ rids) other =
    (same_key (sobject, rid) other ≡ false) × Apart sobject rids other

resync_each-ids :
    (query : SfQuery) (sobject : String) (rids : List String) (s : ShadowStore)
    → let (outcomes, t) = resync_each query sobject rids s in
      (map (λ (o : ResyncOutcome). o.record_id) outcomes ≡ rids)
      × ((other : Key) → Apart sobject rids other → get_record other t ≡ get_record other s)
unfolding resync_each
resync_each-ids query sobject [] s = (refl, λ o a. refl)
resync_each-ids query sobject (rid ∷ rids) s =
    let (outcome, t) = resync_record query sobject rid s in
    let (named, _, kept) = resync_record-Fetched query sobject rid s in
    let (ids, rest) = resync_each-ids query sobject rids t in
    (rw (named, ids) refl, λ o (here, later). rest o later ∙ kept o here)

-- A gap event has one outcome for each of its record ids, in their order, and changes no record but
-- theirs; an event that is no gap is not handled and changes nothing.
pub handle_gap-ids :
    (query : SfQuery) (event : CdcEvent) (s : ShadowStore)
    → let (handled, t) = handle_gap query event s in
      (is_gap event ≡ false → (handled ≡ none) × (t ≡ s))
      × (is_gap event ≡ true
          → (outcomes : List ResyncOutcome) × (handled ≡ some outcomes)
            × (map (λ (o : ResyncOutcome). o.record_id) outcomes ≡ event.header.record_ids)
            × ((other : Key)
                → Apart event.header.entity_name event.header.record_ids other
                → get_record other t ≡ get_record other s))
unfolding handle_gap
handle_gap-ids query event s = elim (Bool-cases (is_gap event)) [
  | inr change ↦ rw change (λ h. (refl, refl), λ h. ground arith)
  | inl gap ↦ rw gap (
    λ h. ground arith,
    λ h.
        let (ids, kept) =
          resync_each-ids query event.header.entity_name event.header.record_ids s in
        (_, refl, ids, kept),
  )
]
