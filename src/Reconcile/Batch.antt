-- ===== src/Reconcile/Batch.antt =====
-- `resync_batch` of validate/reconcile/resync.py: many shadow records are fetched again, a chunk of ids
-- with each query.
pub mod Chunk
pub mod Split
use salesforce.Common.{
  ℕ, suc, zero, ◌-◌, Bool, true, false, not, Option, none, some, is_some, String, List, [], ◌∷◌,
  ◌++◌, map, codes, member, length, if◌then◌else◌,
}
use salesforce.Common.Dict.{get}
use salesforce.Common.Exec.{Outcome, ok, raise}
use salesforce.Value.{Value, null, text, Record}
use salesforce.Soql.{SoqlError, validate_sobject, validate_record_id, quote_record_id_list}
use salesforce.Shadow.Event.{CdcEvent, is_gap}
use salesforce.Shadow.Store.{ShadowStore, upsert_record, delete_record}
use salesforce.Reconcile.{ResyncOutcome, refused, fetch_failed, SfQuery, failed, synced}

-- `rec.get("Id")`.
unfoldable pub id_of : Record → Option String
id_of r = elim (get r "Id") [ some (text rid) ↦ some rid | _ ↦ none ]

-- An id, where there is one.
unfoldable pub id_or_empty : Option String → String
id_or_empty none = ""
id_or_empty (some rid) = rid

-- The loop over the records of an answer: the ids seen, the outcomes and the store.
unfoldable pub store_records :
    String → List Record → ShadowStore → List String × List ResyncOutcome × ShadowStore
unfolding synced id_or_empty
store_records sobject [] s = ([], [], s)
store_records sobject (r ∷ rs) s =
    let rid = id_or_empty (id_of r) in
    let skipped = store_records sobject rs s in
    let (seen, outcomes, t) = store_records sobject rs (upsert_record (sobject, rid) r none s) in
    if is_some (id_of r) then (rid ∷ seen, synced sobject false rid ∷ outcomes, t) else skipped

-- The loop over `set(chunk) - seen`.
unfoldable pub drop_missing :
    String → List String → List String → ShadowStore → List ResyncOutcome × ShadowStore
unfolding synced member
drop_missing sobject seen [] s = ([], s)
drop_missing sobject seen (rid ∷ rids) s =
    let skipped = drop_missing sobject seen rids s in
    let (outcomes, t) = drop_missing sobject (rid ∷ seen) rids (delete_record (sobject, rid) s) in
    if member rid seen then skipped else (synced sobject true rid ∷ outcomes, t)

unfoldable pub sync_chunk :
    String
    → List String
    → ShadowStore
    → Outcome String (List Record)
    → List ResyncOutcome × ShadowStore
unfolding failed
sync_chunk sobject chunk s (raise e) = (map (failed sobject (fetch_failed e)) chunk, s)
sync_chunk sobject chunk s (ok records) =
    let (seen, outcomes, t) = store_records sobject records s in
    let (dropped, u) = drop_missing sobject seen chunk t in (outcomes ++ dropped, u)

unfoldable pub batch_query : String → List ℕ → List ℕ
batch_query sobject id_list =
    codes "SELECT FIELDS(STANDARD) FROM "
    ++ codes sobject
    ++ codes " WHERE Id IN ("
    ++ id_list
    ++ codes ")"

quote_chunk :
    SfQuery
    → String
    → List String
    → ShadowStore
    → Outcome SoqlError (List ℕ)
    → List ResyncOutcome × ShadowStore
unfolding failed
quote_chunk query sobject chunk s (raise e) = (map (failed sobject (refused e)) chunk, s)
quote_chunk query sobject chunk s (ok id_list) =
    sync_chunk sobject chunk s (query (batch_query sobject id_list))

-- One round of the loop of `resync_batch`.
unfoldable pub resync_chunk :
    SfQuery → ℕ → String → List String → ShadowStore → List ResyncOutcome × ShadowStore
unfolding quote_chunk
resync_chunk query batch_size sobject chunk s =
    quote_chunk query sobject chunk s (quote_record_id_list chunk batch_size)

take : ℕ → List String → List String
take n [] = []
take zero (x ∷ xs) = []
take (suc n) (x ∷ xs) = x ∷ take n xs

drop : ℕ → List String → List String
drop n [] = []
drop zero (x ∷ xs) = x ∷ xs
drop (suc n) (x ∷ xs) = drop n xs

-- The slices `ids[i : i + batch_size]`; there are at most as many as ids.
pub chunks : ℕ → ℕ → List String → List (List String)
unfolding take drop
chunks zero size ids = []
chunks (suc fuel) size [] = []
chunks (suc fuel) size (x ∷ xs) = take size (x ∷ xs) ∷ chunks fuel size (drop size (x ∷ xs))

unfoldable pub resync_chunks :
    SfQuery → ℕ → String → List (List String) → ShadowStore → List ResyncOutcome × ShadowStore
resync_chunks query batch_size sobject [] s = ([], s)
resync_chunks query batch_size sobject (chunk ∷ more) s =
    let (outcomes, t) = resync_chunk query batch_size sobject chunk s in
    let (rest, u) = resync_chunks query batch_size sobject more t in (outcomes ++ rest, u)

batch_with :
    SfQuery
    → ℕ
    → String
    → List String
    → ShadowStore
    → Outcome SoqlError String
    → List ResyncOutcome × ShadowStore
unfolding failed
batch_with query batch_size sobject ids s (raise e) = (map (failed sobject (refused e)) ids, s)
batch_with query batch_size sobject ids s (ok _) =
    resync_chunks query batch_size sobject (chunks (length ids) batch_size ids) s

-- `resync_batch`, for a batch size of at least 1.
unfoldable pub resync_batch :
    SfQuery → ℕ → String → List String → ShadowStore → List ResyncOutcome × ShadowStore
unfolding batch_with
resync_batch query batch_size sobject ids s =
    batch_with query batch_size sobject ids s (validate_sobject sobject)
