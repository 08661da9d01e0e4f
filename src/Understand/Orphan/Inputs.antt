-- ===== src/Understand/Orphan/Inputs.antt =====
-- understand/orphan/resolver.py: what the resolver reads and reports. A confidence is in percent.
use salesforce.Common.{ℕ, ◌+◌, Bool, String, Option, none, some, List, ◌=ₛ◌, length, if◌then◌else◌}
use salesforce.Common.Dict.{Dict}
use salesforce.Models.{CategoryName, category_value}
use salesforce.Understand.Graph.{Graph}

-- What the resolver reads of a component: of `raw` the entry points, the imports of a bundle, whether the
-- analysis marks a test and which kind it names, and the classes of the three lists of references.
pub record OrphanComponent : Type 0 where
  pub id : String
  pub name : String
  pub api_name : Option String
  pub category : CategoryName
  pub entry_points : List String
  pub apex_imports : List String
  pub is_test : Bool
  pub analysis_kind : String
  pub references : List String

pub record ResolutionInputs : Type 0 where
  pub components : List OrphanComponent
  pub graph : Option Graph
  pub runtime_log_class_invocations : List String
  pub named_credential_endpoints : Dict String
  pub connected_app_scopes : Dict (List String)
  pub cron_trigger_classes : List String
  pub integration_doc_classes : Dict String

pub record OrphanResolution : Type 0 where
  pub component_id : String
  pub apex_class_name : String
  pub channel : String
  pub confidence : ℕ
  pub evidence : String

pub record ResolutionReport : Type 0 where
  pub resolved : List OrphanResolution
  pub unresolved : List String
  pub referenced : ℕ

unfoldable pub total_orphans : ResolutionReport → ℕ
total_orphans r = length r.resolved + length r.unresolved

unfoldable pub is_category : CategoryName → OrphanComponent → Bool
unfolding category_value
is_category k c = category_value c.category =ₛ category_value k

-- `c.api_name or ""`.
abbrev pub class_name : OrphanComponent → String
class_name c = elim c.api_name [ none ↦ "" | some s ↦ s ]

-- `c.api_name or c.name`.
abbrev pub shown_name : OrphanComponent → String
shown_name c = if class_name c =ₛ "" then c.name else class_name c
