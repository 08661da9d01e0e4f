-- ===== src/Shadow/Event.antt =====
-- validate/shadow/cdc_event.py: the change events of Salesforce.
use salesforce.Common.{ℕ, Bool, true, false, String, List, [], ◌∷◌, codes, starts_with}
use salesforce.Value.{Record}

pub data ChangeType : Type 0 where
  create update delete undelete : ChangeType
  gap_create gap_update gap_delete gap_undelete gap_overflow : ChangeType

-- `change_type.value`.
unfoldable pub change_value : ChangeType → String
change_value create = "CREATE"
change_value update = "UPDATE"
change_value delete = "DELETE"
change_value undelete = "UNDELETE"
change_value gap_create = "GAP_CREATE"
change_value gap_update = "GAP_UPDATE"
change_value gap_delete = "GAP_DELETE"
change_value gap_undelete = "GAP_UNDELETE"
change_value gap_overflow = "GAP_OVERFLOW"

pub record ChangeEventHeader : Type 0 where
  pub entity_name : String
  pub change_type : ChangeType
  pub change_origin : String
  pub transaction_key : String
  pub sequence_number : ℕ
  pub commit_timestamp : ℕ
  pub commit_user : String
  pub commit_number : ℕ
  pub record_ids : List String
  pub changed_fields : List String
  pub diff_fields : List String
  pub nulled_fields : List String

pub record CdcEvent : Type 0 where
  pub replay_id : String
  pub topic : String
  pub schema_id : String
  pub received_at : ℕ
  pub header : ChangeEventHeader
  pub fields : Record

-- `is_gap`.
unfoldable pub is_gap : CdcEvent → Bool
unfolding change_value starts_with
is_gap event = starts_with (codes (change_value event.header.change_type)) (codes "GAP_")

-- `is_overflow`.
unfoldable pub is_overflow : CdcEvent → Bool
is_overflow event = elim event.header.change_type [ gap_overflow ↦ true | _ ↦ false ]

first : List String → String
first [] = ""
first (s ∷ _) = s

-- `event_record_id` of validate/shadow/store.py.
unfoldable pub event_record_id : CdcEvent → String
unfolding first
event_record_id event = first event.header.record_ids
