-- ===== src/Shadow/Env.antt =====
-- validate/shadow/data_env.py: the view that one transaction has of the records: what it wrote, what
-- the shadow store holds, and production. A read of production is a function of the key.
pub mod Chained
use salesforce.Common.{
  Bool, true, false, not, ◌||◌, Option, none, some, String, List, [], ◌∷◌, ◌++◌, ◌=ₛ◌, le_text,
  if◌then◌else◌,
}
use salesforce.Common.Dict.{put, update, keys}
use salesforce.Common.Exec.{Exec, ok, raise}
use salesforce.Value.{Record, text}
use salesforce.Shadow.Store.{
  Key, Table, ShadowStore, find_row, put_row, drop_row, upsert_record, get_record, delete_record,
}

pub record WriteRecord : Type 0 where
  pub op : String
  pub key : Key
  pub field_keys : List String

pub record ForkedDataEnv : Type 0 where
  pub production_read : Key → Option Record
  pub process_id : String
  pub intercepted_writes : List WriteRecord
  pub local_cache : Table Record

pub data EnvError : Type 0 where
  unknown_write_op : String → EnvError

or_production : ForkedDataEnv → Key → Option Record → Option Record
or_production env key none = env.production_read key
or_production env key (some r) = some r

or_shadow : ForkedDataEnv → Key → ShadowStore → Option Record → Option Record
unfolding or_production
or_shadow env key store none = or_production env key (get_record key store)
or_shadow env key store (some r) = some r

-- `read`.
unfoldable pub read : Key → ForkedDataEnv × ShadowStore → Option Record
unfolding or_shadow
read key (env, store) = or_shadow env key store (find_row env.local_cache key)

insert_text : String → List String → List String
insert_text s [] = s ∷ []
insert_text s (t ∷ ts) = let rest = insert_text s ts in if le_text s t then s ∷ t ∷ ts else t ∷ rest

-- `sorted(keys)`.
sort_texts : List String → List String
unfolding insert_text
sort_texts [] = []
sort_texts (s ∷ ts) = insert_text s (sort_texts ts)

pub base_of : Option Record → Option Record → Record
base_of (some cached) _ = cached
base_of none (some stored) = stored
base_of none none = []

-- `{**base, **fields, "Id": record_id}`.
unfoldable pub merged : Record → Record → String → Record
merged base fields record_id = put (update base fields) "Id" (text record_id)

log_write : WriteRecord → ForkedDataEnv → ForkedDataEnv
log_write w env = record env { intercepted_writes = env.intercepted_writes ++ w ∷ [] }

-- `write`.
unfoldable pub write :
    String → Key → Record → Option String → Exec EnvError (ForkedDataEnv × ShadowStore) WriteRecord
unfolding sort_texts base_of log_write keys
write op key fields replay_id (env, store) =
    let entry : WriteRecord = record {
      op = op;
      key = key;
      field_keys = sort_texts (keys fields);
    } in
    let next : Record =
      merged (base_of (find_row env.local_cache key) (get_record key store)) fields key.1 in
    if not (op =ₛ "create" || op =ₛ "update" || op =ₛ "delete")
    then (raise (unknown_write_op op), (env, store))
    else if op =ₛ "delete"
    then (
      ok entry,
      (
        log_write entry (record env { local_cache = drop_row env.local_cache key }),
        delete_record key store,
      ),
    )
    else (
      ok entry,
      (
        log_write entry (record env { local_cache = put_row env.local_cache key next }),
        upsert_record key next replay_id store,
      ),
    )
