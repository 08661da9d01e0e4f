-- ===== src/Pull.antt =====
-- extract/pull/reconciler.py: the records of one component from several sources, made one.
pub mod Precedence
pub mod Fields
use salesforce.Common.{
  ℕ, Bool, true, false, not, ◌&&◌, ◌||◌, String, Option, none, some, List, [], ◌∷◌, ◌++◌, ◌=ₛ◌, map,
  member, if◌then◌else◌, leb,
}
use salesforce.Common.Dict.{Dict, get, put, has}
use salesforce.Models.{CategoryName, category_value}
use salesforce.Value.{Value, null, py_eq, Record}

-- extract/pull/base.py: `RawMetadataRecord` and `PullDisagreement`, without the versions and the time.
pub record RawMetadataRecord : Type 0 where
  pub source : String
  pub category : CategoryName
  pub api_name : String
  pub namespace : Option String
  pub payload : Record

pub record PullDisagreement : Type 0 where
  pub api_name : String
  pub category : CategoryName
  pub sources_in_disagreement : List String
  pub field_path : String
  pub values_by_source : Dict Value

pub record ReconciledRecord : Type 0 where
  pub category : CategoryName
  pub api_name : String
  pub namespace : Option String
  pub payload : Record
  pub contributing_sources : List String

pub record ReconciliationResult : Type 0 where
  pub records : List ReconciledRecord
  pub disagreements : List PullDisagreement

abbrev pub default_precedence : Dict ℕ
default_precedence =
    ("sf_cli", 1)
    ∷ ("metadata_api", 1)
    ∷ ("tooling_api", 2)
    ∷ ("sfdx_project", 10)
    ∷ ("fixture", 50)
    ∷ []

-- `precedence or _DEFAULT_PRECEDENCE`.
abbrev pub precedence_or_default : Option (Dict ℕ) → Dict ℕ
precedence_or_default none = default_precedence
precedence_or_default (some []) = default_precedence
precedence_or_default (some (p ∷ ps)) = p ∷ ps

abbrev pub or_last : Option ℕ → ℕ
or_last none = 99
or_last (some n) = n

unfoldable pub priority : Dict ℕ → RawMetadataRecord → ℕ
unfolding get
priority pri r = or_last (get pri r.source)

-- The key of a bucket: category, name and namespace.
abbrev pub BucketKey : Type 0
BucketKey = CategoryName × String × Option String

abbrev pub key_of : RawMetadataRecord → BucketKey
key_of r = (r.category, r.api_name, r.namespace)

abbrev pub same_namespace : Option String → Option String → Bool
same_namespace none none = true
same_namespace (some a) (some b) = a =ₛ b
same_namespace _ _ = false

abbrev pub same_bucket : BucketKey → BucketKey → Bool
same_bucket (c, a, n) (d, b, m) =
    (category_value c =ₛ category_value d) && (a =ₛ b) && same_namespace n m

abbrev pub Buckets : Type 0
Buckets = List (BucketKey × List RawMetadataRecord)

-- `grouped[key].append(r)`, and this for each record.
unfoldable pub file_record : RawMetadataRecord → Buckets → Buckets
file_record r [] = (key_of r, r ∷ []) ∷ []
file_record r ((k, rs) ∷ bs) =
    let rest = file_record r bs in
    if same_bucket k (key_of r) then (k, rs ++ r ∷ []) ∷ bs else (k, rs) ∷ rest

unfoldable pub file_records : List RawMetadataRecord → Buckets → Buckets
unfolding file_record
file_records [] bs = bs
file_records (r ∷ rs) bs = file_records rs (file_record r bs)

-- `bucket.sort(key=…)`, which keeps records of one priority in their order.
unfoldable pub insert_raw :
    Dict ℕ → RawMetadataRecord → List RawMetadataRecord → List RawMetadataRecord
unfolding priority
insert_raw pri r [] = r ∷ []
insert_raw pri r (q ∷ qs) =
    let rest = insert_raw pri r qs in
    if leb (priority pri r) (priority pri q) then r ∷ q ∷ qs else q ∷ rest

unfoldable pub sort_bucket : Dict ℕ → List RawMetadataRecord → List RawMetadataRecord
unfolding insert_raw
sort_bucket pri [] = []
sort_bucket pri (r ∷ rs) = insert_raw pri r (sort_bucket pri rs)

abbrev pub body_keys : List String
body_keys = "raw_xml" ∷ "parsed" ∷ "partial" ∷ []

unfoldable pub has_body : RawMetadataRecord → Bool
unfolding has
has_body r = has r.payload "raw_xml" || has r.payload "parsed"

-- The first source that carried a body, after one record more.
unfoldable pub next_body : Option String → RawMetadataRecord → Option String
unfolding has_body
next_body (some s) r = some s
next_body none r = if has_body r then some r.source else none

-- A body of another source than the first.
unfoldable pub skips : Option String → String → String → Bool
unfolding member
skips none source k = false
skips (some s) source k = member k body_keys && not (source =ₛ s)

abbrev pub or_null : Option Value → Value
or_null none = null
or_null (some v) = v

unfoldable pub values_of : String → List RawMetadataRecord → Dict Value → Dict Value
unfolding get put
values_of k [] d = d
values_of k (b ∷ bs) d = values_of k bs (put d b.source (or_null (get b.payload k)))

-- What the merge of a bucket has so far.
pub record Merge : Type 0 where
  pub canonical : Record
  pub found : List PullDisagreement

unfoldable pub disagree : List RawMetadataRecord → RawMetadataRecord → String → PullDisagreement
unfolding values_of
disagree bucket r k = record {
  api_name = r.api_name;
  category = r.category;
  sources_in_disagreement = map (λ (b : RawMetadataRecord). b.source) bucket;
  field_path = k;
  values_by_source = values_of k bucket [];
}

-- A field that is new, or one that an earlier source has.
unfoldable pub place :
    List RawMetadataRecord → RawMetadataRecord → String → Value → Option Value → Merge → Merge
unfolding put py_eq disagree
place bucket r k v none m = record m { canonical = put m.canonical k v }
place bucket r k v (some w) m =
    if py_eq w v then m else record m { found = m.found ++ disagree bucket r k ∷ [] }

unfoldable pub merge_fields :
    List RawMetadataRecord → Option String → RawMetadataRecord → Record → Merge → Merge
unfolding skips place get
merge_fields bucket body r [] m = m
merge_fields bucket body r ((k, v) ∷ fs) m =
    merge_fields bucket body r fs
      (if skips body r.source k then m else place bucket r k v (get m.canonical k) m)

unfoldable pub merge_records :
    List RawMetadataRecord → Option String → List RawMetadataRecord → Merge → Merge
unfolding next_body merge_fields
merge_records bucket body [] m = m
merge_records bucket body (r ∷ rs) m =
    merge_records bucket (next_body body r) rs
      (merge_fields bucket (next_body body r) r r.payload m)

-- One bucket. A single record passes through as it is.
unfoldable pub merge_bucket : List RawMetadataRecord → Merge
unfolding merge_records
merge_bucket (r ∷ []) = record { canonical = r.payload; found = [] }
merge_bucket rs = merge_records rs none rs (record { canonical = []; found = [] })

unfoldable pub reconcile_bucket : Dict ℕ → BucketKey × List RawMetadataRecord → ReconciledRecord
unfolding sort_bucket merge_bucket
reconcile_bucket pri ((category, api_name, namespace), rs) =
    let bucket = sort_bucket pri rs in
    record {
      category = category;
      api_name = api_name;
      namespace = namespace;
      payload = (merge_bucket bucket).canonical;
      contributing_sources = map (λ (b : RawMetadataRecord). b.source) bucket;
    }

unfoldable pub all_found : Dict ℕ → Buckets → List PullDisagreement
unfolding sort_bucket merge_bucket
all_found pri [] = []
all_found pri ((k, rs) ∷ bs) = (merge_bucket (sort_bucket pri rs)).found ++ all_found pri bs

unfoldable pub reconcile : Option (Dict ℕ) → List RawMetadataRecord → ReconciliationResult
unfolding file_records reconcile_bucket all_found
reconcile precedence raws =
    let pri = precedence_or_default precedence in
    let grouped = file_records raws [] in
    record { records = map (reconcile_bucket pri) grouped; disagreements = all_found pri grouped }
