-- ===== src/Samples/Fetches.antt =====
-- Records that are fetched again.
use salesforce.Common.{
  ℕ, ◌*◌, ◌≤◌, ◌≡◌, ◌↔◌, refl, true, String, List, [], ◌∷◌, member, length, is_nonempty,
}
use salesforce.Common.Exec.{ok}
use salesforce.Value.{Record, text}
use salesforce.Soql.{quote_record_id_list}
use salesforce.Soql.Safe.{accepted, all_ids, quotes, quote_record_id_list-safe}
use salesforce.Shadow.Store.{get_record}
use salesforce.Reconcile.{SfQuery}
use salesforce.Reconcile.Batch.{sync_chunk}
use salesforce.Reconcile.Batch.Chunk.{last_of, sync_chunk-current}
use salesforce.Samples.Shadows.{store}

abbrev one_id : String
one_id = "001000000000001"

abbrev other_id : String
other_id = "001000000000002"

abbrev fetched : Record
fetched = ("Id", text one_id) ∷ ("Name", text "Acme") ∷ []

abbrev org : SfQuery
org q = ok (fetched ∷ [])

quote_record_id_list-safe_example :
    ((accepted (quote_record_id_list (one_id ∷ other_id ∷ []) 200) ≡ true) ↔ (
      (all_ids (one_id ∷ other_id ∷ []) ≡ true)
      × (is_nonempty (one_id ∷ other_id ∷ []) ≡ true)
      × (length (one_id ∷ other_id ∷ []) ≤ 200)))
    × ((body : List ℕ)
        → quote_record_id_list (one_id ∷ other_id ∷ []) 200 ≡ ok body
        → quotes body ≡ 2 * length (one_id ∷ other_id ∷ []))
quote_record_id_list-safe_example = quote_record_id_list-safe (one_id ∷ other_id ∷ []) 200

within : member other_id (one_id ∷ other_id ∷ []) ≡ true
unfolding member
within = refl

sync_chunk-current_example :
    get_record
      ("Account", other_id)
      (sync_chunk "Account" (one_id ∷ other_id ∷ []) store (ok (fetched ∷ []))).1
    ≡ last_of (fetched ∷ []) other_id
sync_chunk-current_example =
    sync_chunk-current "Account" (one_id ∷ other_id ∷ []) store (fetched ∷ []) other_id within
