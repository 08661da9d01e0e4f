-- ===== src/Shadow/Env/Chained.antt =====
-- What a read finds after a write (validate/shadow/data_env.py).
use salesforce.Common.{
  ◌≡◌, refl, sym, ◌∙◌, Bool, true, false, ◌||◌, Option, none, some, String, ◌=ₛ◌, arith, inl, inr,
  Bool-cases,
}
use salesforce.Common.Exec.{raise}
use salesforce.Common.{[], ◌∷◌, if◌then◌else◌}
use salesforce.Common.Dict.{get, put, update, get-put}
use salesforce.Value.{Value, Record, text}
use salesforce.Shadow.Store.{Key, same_key, ShadowStore, find_row, get_record}
use salesforce.Shadow.Store.Records.{
  get_record-upsert_ne, get_record-delete_self, get_record-delete_ne, find-put_self, find-put_ne,
  find-drop_self, find-drop_ne,
}
use salesforce.Shadow.Env.{
  ForkedDataEnv, unknown_write_op, or_production, or_shadow, read, base_of, merged, log_write,
  write,
}

-- The first of two answers.
abbrev pub or_first : Option Value → Option Value → Option Value
or_first none b = b
or_first (some a) b = some a

-- What the environment itself holds of a field: of what it wrote, and else of what the shadow store has.
abbrev pub held_field : Option Record → Option Record → String → Option Value
held_field (some cached) stored k = get cached k
held_field none (some stored) k = get stored k
held_field none none k = none

-- The last value that some fields give a key.
unfoldable pub written : Record → String → Option Value
written [] k = none
written ((j, v) ∷ fs) k = or_first (written fs k) (if j =ₛ k then some v else none)

or_first_assoc : (a b c : Option Value) → or_first (or_first a b) c ≡ or_first a (or_first b c)
or_first_assoc none b c = refl
or_first_assoc (some a) b c = refl

get-update : (d fs : Record) (k : String) → get (update d fs) k ≡ or_first (written fs k) (get d k)
unfolding update written
get-update d [] k = refl
get-update d ((j, v) ∷ fs) k =
    get-update (put d j v) fs k
    ∙ rw get-put (one (j =ₛ k) ∙ sym (or_first_assoc (written fs k) _ (get d k)))
  where
    one :
        (b : Bool)
        → or_first (written fs k) (if b then some v else get d k)
          ≡ or_first (written fs k) (or_first (if b then some v else none) (get d k))
    one true = refl
    one false = refl

-- A field of a record that was written: its id, what was written, or what the environment held.
abbrev pub merged_field : Key → Record → ForkedDataEnv → ShadowStore → String → Option Value
merged_field key fields env store k =
    if "Id" =ₛ k
    then some (text key.1)
    else or_first (written fields k)
        (held_field (find_row env.local_cache key) (get_record key store) k)

get-base_of :
    (cached stored : Option Record) (k : String)
    → get (base_of cached stored) k ≡ held_field cached stored k
unfolding base_of get
get-base_of (some cached) stored k = refl
get-base_of none (some stored) k = refl
get-base_of none none k = refl

get-merged :
    (key : Key) (fields : Record) (env : ForkedDataEnv) (store : ShadowStore) (k : String)
    → get (merged (base_of (find_row env.local_cache key) (get_record key store)) fields key.1) k
      ≡ merged_field key fields env store k
unfolding merged
get-merged key fields env store k = rw (get-put, get-update, get-base_of) refl

abbrev pub is_write : String → Bool
is_write op = op =ₛ "create" || op =ₛ "update" || op =ₛ "delete"

view : Option Record → Option Record → Option Record → Option Record
view (some cached) _ _ = some cached
view none (some stored) _ = some stored
view none none production = production

read-view :
    (env : ForkedDataEnv) (store : ShadowStore) (key : Key)
    → read key (env, store)
      ≡ view (find_row env.local_cache key) (get_record key store) (env.production_read key)
unfolding read
read-view env store key = cached (find_row env.local_cache key)
  where
    stored : (m : Option Record) → or_production env key m ≡ view none m (env.production_read key)
    stored none = unfold or_production view in refl
    stored (some r) = unfold or_production view in refl

    cached :
        (m : Option Record)
        → or_shadow env key store m ≡ view m (get_record key store) (env.production_read key)
    cached none = unfold or_shadow in stored (get_record key store)
    cached (some r) = unfold or_shadow view in refl

read-none :
    (env : ForkedDataEnv) (store : ShadowStore) (key : Key)
    → find_row env.local_cache key ≡ none
    → get_record key store ≡ none
    → read key (env, store) ≡ env.production_read key
unfolding view
read-none env store key a b = read-view env store key ∙ rw (a, b) refl

read-cached :
    (env : ForkedDataEnv) (store : ShadowStore) (key : Key) (r : Record)
    → find_row env.local_cache key ≡ some r
    → read key (env, store) ≡ some r
unfolding view
read-cached env store key r a = read-view env store key ∙ rw a refl

read-same :
    (e : ForkedDataEnv) (s : ShadowStore) (env : ForkedDataEnv) (store : ShadowStore) (key : Key)
    → find_row e.local_cache key ≡ find_row env.local_cache key
    → get_record key s ≡ get_record key store
    → e.production_read ≡ env.production_read
    → read key (e, s) ≡ read key (env, store)
read-same e s env store key a b c = read-view e s key ∙ rw (a, b, c) (sym (read-view env store key))

-- A write of an operation that there is goes through, any other is refused and changes nothing. After a
-- create or an update, a read finds a record with the id, the fields that were written, and of the other
-- fields what the environment held, and not what production has. After a delete a read finds what
-- production has. Reads of every other record find what they did.
pub write-read :
    (op : String) (key : Key) (fields : Record) (replay_id : Option String) (env : ForkedDataEnv)
    (store : ShadowStore)
    → let (r, after) = write op key fields replay_id (env, store) in
      (is_write op ≡ false → (r ≡ raise (unknown_write_op op)) × (after ≡ (env, store)))
      × (is_write op ≡ true
          → ((op =ₛ "delete") ≡ true → read key after ≡ env.production_read key)
            × ((op =ₛ "delete") ≡ false
                → (r : Record) × (read key after ≡ some r)
                  × ((k : String) → get r k ≡ merged_field key fields env store k))
            × ((other : Key)
                → same_key key other ≡ false
                → read other after ≡ read other (env, store)))
unfolding write log_write
write-read op key fields replay_id env store = elim (Bool-cases (is_write op)) [
  | inr bad ↦ rw bad ((λ h. (refl, refl)), λ h. ground arith)
  | inl good ↦ rw good (
    (λ h. ground arith),
    λ h. elim (Bool-cases (op =ₛ "delete")) [
      | inl del ↦ rw del (
        λ k.
            read-none _ _ key (find-drop_self env.local_cache key)
              (get_record-delete_self store key),
        λ k. ground arith,
        λ o ne.
            read-same _ _ env store o (find-drop_ne env.local_cache key o ne)
              (get_record-delete_ne store key o ne) refl,
      )
      | inr up ↦ rw up (
        λ k. ground arith,
        λ k. (
          _,
          read-cached _ _ key _ (find-put_self env.local_cache key _),
          get-merged key fields env store,
        ),
        λ o ne.
            read-same _ _ env store o (find-put_ne env.local_cache key o _ ne)
              (get_record-upsert_ne store key o _ replay_id ne) refl,
      )
    ],
  )
]
