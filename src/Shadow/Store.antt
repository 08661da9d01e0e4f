-- ===== src/Shadow/Store.antt =====
-- validate/shadow/store.py: the tables of the shadow database. A statement that the store sends is
-- what its SQL does to the tables; times are in microseconds. A value that `json.dumps` refuses is out
-- of the model.
pub mod Records
use salesforce.Common.{
  ℕ, suc, Bool, true, false, ◌&&◌, Option, none, some, String, List, [], ◌∷◌, ◌++◌, ◌=ₛ◌,
  if◌then◌else◌,
}
use salesforce.Common.Dict.{Dict, put}
use salesforce.Value.{Value, Record}
use salesforce.Models.{DivergenceCategory}
use salesforce.Cutover.Readiness.{ReadinessEvent}

-- A row of `shadow_record` after its key.
pub record ShadowRow : Type 0 where
  pub fields : Record
  pub last_seen_replay_id : Option String

-- The primary key (sobject, record_id).
abbrev pub Key : Type 0
Key = String × String

unfoldable pub same_key : Key → Key → Bool
same_key (a, b) (c, d) = (a =ₛ c) && (b =ₛ d)

abbrev pub Table : Type 0 → Type 0
Table V = List (Key × V)

pub record Divergence : Type 0 where
  pub id : ℕ
  pub process_id : String
  pub replay_id : String
  pub observed_at : ℕ
  pub diverged : Bool
  pub category : Option DivergenceCategory
  pub field_diffs : Dict (Value × Value)
  pub trace : Record
  pub anchor_id : String

pub record ShadowStore : Type 0 where
  pub shadow_record : Table ShadowRow
  pub divergence : List Divergence
  pub next_id : ℕ  -- the sequence of divergence.id
  pub readiness_event : List ReadinessEvent
  pub replay_state : Dict (String × ℕ)

module _ {V : Type 0} where
  unfoldable pub find_row : Table V → Key → Option V
  unfolding same_key
  find_row [] k = none
  find_row ((j, r) ∷ rows) k = if same_key j k then some r else find_row rows k

  unfoldable pub put_row : Table V → Key → V → Table V
  unfolding same_key
  put_row [] k r = (k, r) ∷ []
  put_row ((j, q) ∷ rows) k r =
      let rest = put_row rows k r in if same_key j k then (j, r) ∷ rows else (j, q) ∷ rest

  unfoldable pub drop_row : Table V → Key → Table V
  unfolding same_key
  drop_row [] k = []
  drop_row ((j, q) ∷ rows) k =
      let rest = drop_row rows k in if same_key j k then rest else (j, q) ∷ rest

unfoldable pub upsert_record : Key → Record → Option String → ShadowStore → ShadowStore
upsert_record key fields replay_id s = record s {
  shadow_record =
      put_row s.shadow_record key (record { fields = fields; last_seen_replay_id = replay_id });
}

unfoldable pub get_record : Key → ShadowStore → Option Record
get_record key s = elim (find_row s.shadow_record key) [ none ↦ none | some r ↦ some r.fields ]

unfoldable pub delete_record : Key → ShadowStore → ShadowStore
delete_record key s = record s { shadow_record = drop_row s.shadow_record key }

-- `write_divergence`, at a time `now`: a row of each of two tables, and the id of the first.
unfoldable pub write_divergence :
    String
    → String
    → Bool
    → Option DivergenceCategory
    → Dict (Value × Value)
    → Record
    → String
    → ℕ
    → ℕ
    → ShadowStore
    → ℕ × ShadowStore
write_divergence process_id replay_id diverged category field_diffs trace anchor_id severity now s =
    (
      s.next_id,
      record s {
        divergence =
            s.divergence
            ++ record {
              id = s.next_id;
              process_id = process_id;
              replay_id = replay_id;
              observed_at = now;
              diverged = diverged;
              category = category;
              field_diffs = field_diffs;
              trace = trace;
              anchor_id = anchor_id;
            }
              ∷ [];
        next_id = suc s.next_id;
        readiness_event =
            s.readiness_event
            ++ record {
              process_id = process_id;
              observed_at = now;
              diverged = diverged;
              severity = severity;
            }
              ∷ [];
      },
    )

unfoldable pub update_replay_state : String → String → ℕ → ShadowStore → ShadowStore
unfolding put
update_replay_state process_id replay_id now s = record s {
  replay_state = put s.replay_state process_id (replay_id, now);
}
