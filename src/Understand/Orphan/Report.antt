-- ===== src/Understand/Orphan/Report.antt =====
-- understand/orphan/resolver.py: what the report says of each class.
use salesforce.Common.{
  ◌≡◌, ap, Bool, true, false, not, ◌||◌, String, Option, none, some, List, [], ◌∷◌, ◌=ₛ◌, keep, any,
  map, member, is_nonempty, is_some, if◌then◌else◌,
}
use salesforce.Common.Dict.{get}
use salesforce.Understand.Orphan.Inputs.{
  OrphanComponent, ResolutionInputs, OrphanResolution, ResolutionReport, class_name,
}
use salesforce.Understand.Orphan.Channels.{lwc_imports_class, cron_in_graph, granting_apps}

-- Whether anything explains a class: a channel that names it, an entry point that it declares, or that
-- it is a test or an interface.
pub explained : ResolutionInputs → OrphanComponent → Bool
unfolding member lwc_imports_class cron_in_graph get granting_apps keep any
explained inputs c =
    any (λ b. b)
      (member (class_name c) inputs.runtime_log_class_invocations
        ∷ (not (lwc_imports_class inputs.components (class_name c) =ₛ ""))
        ∷ (member (class_name c) inputs.cron_trigger_classes || cron_in_graph inputs.graph c)
        ∷ is_some (get inputs.named_credential_endpoints (class_name c))
        ∷ is_nonempty (granting_apps inputs.connected_app_scopes (class_name c))
        ∷ is_some (get inputs.integration_doc_classes (class_name c))
        ∷ is_nonempty (keep (λ e. not (e =ₛ "test")) c.entry_points)
        ∷ (c.is_test || member "test" c.entry_points)
        ∷ (c.analysis_kind =ₛ "interface")
        ∷ [])

-- A resolution that names its class, where a test holds.
data Resolves (c : OrphanComponent) : Bool → Option OrphanResolution → Type 0 where
  resolves : (x : OrphanResolution) → x.apex_class_name ≡ class_name c → Resolves c true (some x)
  leaves : Resolves c false none

abbrev pub resolved_names : ResolutionReport → List String
resolved_names r = map (λ (x : OrphanResolution). x.apex_class_name) r.resolved

kept :
    (c : OrphanComponent) (b : Bool) (names : List String) (cs : List OrphanComponent)
    → names ≡ map class_name cs
    → (if b then class_name c ∷ names else names) ≡ map class_name (if b then c ∷ cs else cs)
kept c true names cs e = ap (λ ns. class_name c ∷ ns) e
kept c false names cs e = e
