-- ===== src/Samples/Pulls.antt =====
-- A class that the Tooling API and the Metadata API both have.
use salesforce.Common.{◌≡◌, refl, none, some, [], ◌∷◌, List}
use salesforce.Common.Dict.{get}
use salesforce.Models.{apex_class, category_value}
use salesforce.Value.{text}
use salesforce.Pull.{RawMetadataRecord, BucketKey, reconcile}
use salesforce.Pull.Fields.{payload_of}

abbrev tooling : RawMetadataRecord
tooling = record {
  source = "tooling_api";
  category = apex_class;
  api_name = "Lead_Router";
  namespace = none;
  payload = ("parsed", text "stub") ∷ ("status", text "Active") ∷ [];
}

abbrev metadata : RawMetadataRecord
metadata = record {
  source = "metadata_api";
  category = apex_class;
  api_name = "Lead_Router";
  namespace = none;
  payload = ("raw_xml", text "<ApexClass/>") ∷ ("status", text "Deleted") ∷ [];
}

abbrev other : RawMetadataRecord
other = record tooling { api_name = "Other" }

abbrev pulled : List RawMetadataRecord
pulled = tooling ∷ other ∷ metadata ∷ []

abbrev key : BucketKey
key = (apex_class, "Lead_Router", none)

-- The status of the preferred source, and no body of the other one.
status : get (payload_of key (reconcile none pulled).records) "status" ≡ some (text "Deleted")
unfolding reconcile payload_of get category_value
status = refl

no_stub : get (payload_of key (reconcile none pulled).records) "parsed" ≡ none
unfolding reconcile payload_of get category_value
no_stub = refl
