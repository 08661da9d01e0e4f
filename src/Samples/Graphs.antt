-- ===== src/Samples/Graphs.antt =====
-- Two extracts that agree, a graph with an edge found twice, and a corpus with an orphan.
use salesforce.Common.{ℕ, ◌≡◌, refl, true, false, none, some, String, List, [], ◌∷◌, ◌=ₛ◌, keep}
use salesforce.Models.{apex_class}
use salesforce.Understand.Compare.View.{Key, View, same_key, has, load, GraphNode, GraphEdge}
use salesforce.Understand.Compare.Diff.{clean, compare_views}
use salesforce.Understand.Compare.Clean.{Agree, clean-Agree}
use salesforce.Understand.Graph.{Dependency, calls, empty_graph, outbound, inbound, all_edges}
use salesforce.Understand.Graph.Queries.{add_all, add_all-queries}
use salesforce.Understand.Orphan.Inputs.{OrphanComponent, ResolutionInputs}

-- The org's extract has one edge more, to a field.
abbrev nodes : List GraphNode
nodes =
    record { id = "1"; kind = some "component"; category = some "apex_class"; api_name = "Billing" }
    ∷ record { id = "2"; kind = some "component"; category = some "flow"; api_name = "Invoice" }
    ∷ record { id = "3"; kind = some "field"; category = none; api_name = "Account.Name" }
    ∷ []

abbrev edge : String → String → GraphEdge
edge s t = record { source_id = s; target_id = t; kind = some "calls"; evidence = none }

abbrev repository : View
repository = load "repository" nodes (edge "1" "2" ∷ []) []

abbrev org : View
org = load "org" nodes (edge "1" "3" ∷ edge "1" "2" ∷ []) []

abbrev billing : Key
billing = ("apex_class", "Billing")

compared : clean (compare_views false repository org) ≡ true
unfolding clean compare_views load
compared = refl

clean-Agree_example :
    (has same_key billing repository.components ≡ has same_key billing org.components)
    × (has same_key billing repository.components ≡ true → Agree repository org billing)
clean-Agree_example = clean-Agree repository org billing compared

abbrev call : ℕ → Dependency
call n = record {
  source_id = "1";
  target_id = "2";
  kind = calls;
  confidence = n;
  evidence = "apex_parse";
  notes = none;
}

-- The second channel raises the confidence of the one edge, and both tables show it.
merged : outbound (add_all (call 5000 ∷ call 9000 ∷ []) empty_graph) "1" ≡ call 9000 ∷ []
unfolding add_all outbound empty_graph
merged = refl

add_all-queries_example :
    let g = add_all (call 5000 ∷ call 9000 ∷ []) empty_graph in
    (outbound g "1" ≡ keep (λ d. d.source_id =ₛ "1") (all_edges g))
    × (inbound g "1" ≡ keep (λ d. d.target_id =ₛ "1") (all_edges g))
    × (all_edges g ≡ g.objects)
add_all-queries_example = add_all-queries (call 5000 ∷ call 9000 ∷ []) "1"

abbrev class : String → String → OrphanComponent
class id name = record {
  id = id;
  name = name;
  api_name = some name;
  category = apex_class;
  entry_points = [];
  apex_imports = [];
  is_test = false;
  analysis_kind = "class";
  references = [];
}

abbrev corpus : ResolutionInputs
corpus = record {
  components = class "1" "Billing" ∷ class "2" "Invoice" ∷ class "3" "Legacy" ∷ [];
  graph = none;
  runtime_log_class_invocations = "Billing" ∷ [];
  named_credential_endpoints = [];
  connected_app_scopes = ("Portal", "Invoice" ∷ []) ∷ [];
  cron_trigger_classes = [];
  integration_doc_classes = [];
}
