-- ===== src/Understand/Orphan/Callers.antt =====
-- understand/orphan/resolver.py: the classes that something in the corpus calls.
use salesforce.Common.{
  Bool, false, not, ◌&&◌, ◌||◌, String, Option, none, some, List, [], ◌∷◌, ◌++◌, ◌=ₛ◌, any, member,
  if◌then◌else◌,
}
use salesforce.Models.{apex_class, apex_trigger}
use salesforce.Understand.Graph.{Graph, GraphNode, Dependency, dependency_value, inbound, node_of}
use salesforce.Understand.Orphan.Inputs.{OrphanComponent, is_category, class_name, shown_name}

unfoldable pub add_name : String → List String → List String
unfolding member
add_name s names = if member s names then names else names ++ s ∷ []

-- A node of the graph that is no bundle, no scheduled job and no test.
unfoldable pub calls_from : Option GraphNode → Bool
unfolding member
calls_from none = false
calls_from (some n) = not (member n.category ("lwc_bundle" ∷ "CronTrigger" ∷ [])) && not n.is_test

-- A call, a dispatch or a trigger from such a node.
unfoldable pub is_call : Graph → Dependency → Bool
unfolding member node_of calls_from
is_call g e =
    member (dependency_value e.kind) ("calls" ∷ "dispatches" ∷ "triggers" ∷ [])
    && calls_from (node_of g e.source_id)

unfoldable pub called_in_graph : Graph → List OrphanComponent → List String → List String
unfolding is_category any is_call inbound add_name
called_in_graph g [] names = names
called_in_graph g (c ∷ cs) names = called_in_graph g cs (
    if is_category apex_class c && any (is_call g) (inbound g c.id)
    then add_name (shown_name c) names
    else names)

-- The class names of a list of references that are classes of the corpus.
unfoldable pub add_known : List String → List String → List String → List String
unfolding member add_name
add_known known [] names = names
add_known known (s ∷ ss) names =
    add_known known ss (if member s known then add_name s names else names)

unfoldable pub class_names : List OrphanComponent → List String
unfolding is_category
class_names [] = []
class_names (c ∷ cs) =
    let rest = class_names cs in
    if is_category apex_class c && not (class_name c =ₛ "") then class_name c ∷ rest else rest

unfoldable pub called_in_references : List String → List OrphanComponent → List String → List String
unfolding is_category add_known
called_in_references known [] names = names
called_in_references known (c ∷ cs) names = called_in_references known cs (
    if is_category apex_class c || is_category apex_trigger c
    then add_known known c.references names
    else names)

-- `_called_apex_classes`.
unfoldable pub called_apex_classes : List OrphanComponent → Option Graph → List String
unfolding called_in_graph called_in_references class_names
called_apex_classes cs (some g) = called_in_graph g cs []
called_apex_classes cs none = called_in_references (class_names cs) cs []
