-- ===== src/Understand/Orphan/Channels.antt =====
-- understand/orphan/resolver.py: what each channel has on an orphan.
use Prim.Native.String.{◌++◌ as join}
use salesforce.Common.{
  ℕ, Bool, false, not, ◌&&◌, ◌||◌, String, Option, none, some, List, [], ◌∷◌, ◌==◌, ◌=ₛ◌, keep, any,
  member, codes, eq_codes, is_nonempty, is_some, if◌then◌else◌,
}
use salesforce.Common.Dict.{Dict, get}
use salesforce.Models.{lwc_bundle}
use salesforce.Understand.Graph.{Graph, GraphNode, inbound, node_of}
use salesforce.Understand.Orphan.Inputs.{OrphanComponent, ResolutionInputs, is_category, class_name}

-- `_cron_in_graph`.
unfoldable pub cron_in_graph : Option Graph → OrphanComponent → Bool
unfolding any inbound node_of
cron_in_graph none c = false
cron_in_graph (some g) c = any (λ e. is_cron (node_of g e.source_id)) (inbound g c.id)
  where
    is_cron : Option GraphNode → Bool
    is_cron none = false
    is_cron (some n) = n.category =ₛ "CronTrigger"

-- `imp.split(".", 1)[0]`.
unfoldable pub before_dot : List ℕ → List ℕ
before_dot [] = []
before_dot (c ∷ s) = let rest = before_dot s in if c == b'.' then [] else c ∷ rest

-- `_lwc_imports_class`, where none is found or its name is empty: the empty text.
unfoldable pub lwc_imports_class : List OrphanComponent → String → String
unfolding is_category any eq_codes before_dot
lwc_imports_class [] name = ""
lwc_imports_class (c ∷ cs) name =
    let rest = lwc_imports_class cs name in
    if is_category lwc_bundle c
      && any (λ i. eq_codes (before_dot (codes i)) (codes name)) c.apex_imports
    then c.name
    else rest

unfoldable pub granting_apps : Dict (List String) → String → List String
unfolding member
granting_apps [] name = []
granting_apps ((app, classes) ∷ d) name =
    let rest = granting_apps d name in if member name classes then app ∷ rest else rest

unfoldable pub join_names : List String → String
join_names [] = ""
join_names (s ∷ []) = s
join_names (s ∷ t ∷ ts) = join s (join ", " (join_names (t ∷ ts)))

-- `_ENTRY_POINT_LABELS`.
abbrev pub entry_point_labels : Dict String
entry_point_labels =
    ("aura_enabled", "Exposed to Lightning (@AuraEnabled)")
    ∷ ("invocable", "Exposed to Flow (@InvocableMethod)")
    ∷ ("rest_resource", "REST endpoint (@RestResource)")
    ∷ ("soap_webservice", "SOAP web service (global webservice)")
    ∷ ("batchable", "Batch job (Database.Batchable)")
    ∷ ("schedulable", "Scheduled job (Schedulable)")
    ∷ ("queueable", "Queueable job")
    ∷ ("future", "@future method")
    ∷ ("inbound_email", "Inbound email handler")
    ∷ ("trigger_handler", "Trigger handler interface")
    ∷ ("flow_plugin", "Flow plugin (Process.Plugin)")
    ∷ ("auth_handler", "Auth registration handler")
    ∷ ("site_rewriter", "Site URL rewriter")
    ∷ ("test", "Test class")
    ∷ []

unfoldable pub labels : List String → List String
unfolding get
labels [] = []
labels (e ∷ es) = or_self (get entry_point_labels e) ∷ labels es
  where
    or_self : Option String → String
    or_self none = e
    or_self (some l) = l

abbrev pub or_empty : Option String → String
or_empty none = ""
or_empty (some s) = s

-- A channel: whether it has something on the orphan, its name, its confidence and its evidence.
abbrev pub Channel : Type 0
Channel = Bool × String × ℕ × String

-- The channels in the order of the code, which takes the first one that has something.
unfoldable pub channels : ResolutionInputs → OrphanComponent → List Channel
unfolding member keep lwc_imports_class cron_in_graph get granting_apps join_names labels
channels inputs c =
    let name = class_name c in
    let points = keep (λ e. not (e =ₛ "test")) c.entry_points in
    let bundle = lwc_imports_class inputs.components name in
    let apps = granting_apps inputs.connected_app_scopes name in
    (
      member name inputs.runtime_log_class_invocations,
      "runtime_log",
      99,
      "Observed in EventLogFile invocation log.",
    )
    ∷ (not (bundle =ₛ ""), "lwc_import", 90, join "Imported by LWC bundle " bundle)
    ∷ (
      member name inputs.cron_trigger_classes || cron_in_graph inputs.graph c,
      "cron_trigger",
      85,
      "Registered via System.schedule() (CronTrigger row).",
    )
    ∷ (
      is_some (get inputs.named_credential_endpoints name),
      "named_credential",
      80,
      join "Named Credential endpoint: " (or_empty (get inputs.named_credential_endpoints name)),
    )
    ∷ (
      is_nonempty apps,
      "connected_app_scope",
      70,
      join "Connected App(s) granting access: " (join_names apps),
    )
    ∷ (
      is_some (get inputs.integration_doc_classes name),
      "integration_doc",
      75,
      join "Documented in " (or_empty (get inputs.integration_doc_classes name)),
    )
    ∷ (
      is_nonempty points,
      "entry_point",
      60,
      join "Declares an external entry point: "
          (join (join_names (labels points)) ". Invocation not observed."),
    )
    ∷ (c.is_test || member "test" c.entry_points, "test", 50, "Test class.")
    ∷ (c.analysis_kind =ₛ "interface", "interface", 50, "Interface; implemented by other classes.")
    ∷ []
