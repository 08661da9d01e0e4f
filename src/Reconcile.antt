-- ===== src/Reconcile.antt =====
-- validate/reconcile/resync.py and gap_handler.py: the shadow records are fetched again from the org.
-- A query is answered by a function of its text: with the records, or with the text of an exception.
-- An Id of a record is a text. A set of ids is gone through in the order of the chunk.
pub mod Synced
pub mod Batch
use salesforce.Common.{
  ℕ, suc, zero, ◌-◌, Bool, true, false, not, Option, none, some, is_some, String, List, [], ◌∷◌,
  ◌++◌, map, codes, member, length, if◌then◌else◌,
}
use salesforce.Common.Dict.{get}
use salesforce.Common.Exec.{Outcome, ok, raise}
use salesforce.Value.{Value, null, text, Record}
use salesforce.Soql.{SoqlError, validate_sobject, validate_record_id, quote_record_id_list}
use salesforce.Shadow.Event.{CdcEvent, is_gap}
use salesforce.Shadow.Store.{ShadowStore, upsert_record, delete_record}

pub data ResyncError : Type 0 where
  refused : SoqlError → ResyncError
  fetch_failed : String → ResyncError

pub record ResyncOutcome : Type 0 where
  pub sobject : String
  pub record_id : String
  pub success : Bool
  pub deleted : Bool
  pub error : Option ResyncError

abbrev pub SfQuery : Type 0
SfQuery = List ℕ → Outcome String (List Record)

failed : String → ResyncError → String → ResyncOutcome
failed sobject e rid = record {
  sobject = sobject;
  record_id = rid;
  success = false;
  deleted = false;
  error = some e;
}

synced : String → Bool → String → ResyncOutcome
synced sobject deleted rid = record {
  sobject = sobject;
  record_id = rid;
  success = true;
  deleted = deleted;
  error = none;
}

unfoldable pub record_query : String → String → List ℕ
record_query sobject rid =
    codes "SELECT FIELDS(STANDARD) FROM "
    ++ codes sobject
    ++ codes " WHERE Id='"
    ++ codes rid
    ++ codes "'"

-- The answer to the query of one record.
store_first :
    String → String → ShadowStore → Outcome String (List Record) → ResyncOutcome × ShadowStore
unfolding failed synced
store_first sobject rid s (raise e) = (failed sobject (fetch_failed e) rid, s)
store_first sobject rid s (ok []) = (synced sobject true rid, delete_record (sobject, rid) s)
store_first sobject rid s (ok (r ∷ _)) =
    (synced sobject false rid, upsert_record (sobject, rid) r none s)

with_id :
    SfQuery → String → String → ShadowStore → Outcome SoqlError String → ResyncOutcome × ShadowStore
unfolding store_first failed
with_id query sobject rid s (raise e) = (failed sobject (refused e) rid, s)
with_id query sobject rid s (ok _) = store_first sobject rid s (query (record_query sobject rid))

with_sobject :
    SfQuery → String → String → ShadowStore → Outcome SoqlError String → ResyncOutcome × ShadowStore
unfolding with_id failed
with_sobject query sobject rid s (raise e) = (failed sobject (refused e) rid, s)
with_sobject query sobject rid s (ok _) = with_id query sobject rid s (validate_record_id rid)

-- `resync_record`.
unfoldable pub resync_record : SfQuery → String → String → ShadowStore → ResyncOutcome × ShadowStore
unfolding with_sobject
resync_record query sobject rid s = with_sobject query sobject rid s (validate_sobject sobject)

-- The loop of `GapHandler.handle`.
unfoldable pub resync_each :
    SfQuery → String → List String → ShadowStore → List ResyncOutcome × ShadowStore
resync_each query sobject [] s = ([], s)
resync_each query sobject (rid ∷ rids) s =
    let (outcome, t) = resync_record query sobject rid s in
    let (outcomes, u) = resync_each query sobject rids t in (outcome ∷ outcomes, u)

-- `GapHandler.handle`: the outcomes, if the event is a gap.
unfoldable pub handle_gap :
    SfQuery → CdcEvent → ShadowStore → Option (List ResyncOutcome) × ShadowStore
handle_gap query event s =
    let (outcomes, t) = resync_each query event.header.entity_name event.header.record_ids s in
    if is_gap event then (some outcomes, t) else (none, s)
