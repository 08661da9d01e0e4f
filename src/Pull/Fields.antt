-- ===== src/Pull/Fields.antt =====
-- extract/pull/reconciler.py: the fields of a reconciled record, out of all records that were pulled.
use salesforce.Common.{Bool, true, false, String, Option, List, [], ◌∷◌, if◌then◌else◌}
use salesforce.Common.Dict.{Dict}
use salesforce.Models.{category_value}
use salesforce.Value.{Record}
use salesforce.Pull.{RawMetadataRecord, ReconciledRecord, BucketKey, same_bucket, Buckets}

-- What two keys of one bucket share.
abbrev shared : BucketKey → String × String × Option String
shared (c, a, n) = (category_value c, a, n)

-- The records filed under a key.
in_bucket : BucketKey → Buckets → List RawMetadataRecord
in_bucket key [] = []
in_bucket key ((k, rs) ∷ bs) = if same_bucket k key then rs else in_bucket key bs

abbrev one_if : Bool → RawMetadataRecord → List RawMetadataRecord
one_if true r = r ∷ []
one_if false r = []

-- The payload of the record under a key, empty where there is none.
unfoldable pub payload_of : BucketKey → List ReconciledRecord → Record
payload_of key [] = []
payload_of key (x ∷ xs) =
    if same_bucket (x.category, x.api_name, x.namespace) key then x.payload else payload_of key xs
