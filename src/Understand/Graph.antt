-- ===== src/Understand/Graph.antt =====
-- understand/dependencies.py: `DependencyGraph`. An edge is one object that the list of edges, both
-- adjacency tables and the index share, so that a change through one of them shows in all: the objects
-- stand in a store, and the tables hold their places in it. A confidence is in ten thousandths, and an id
-- is the text of a UUID.
pub mod Consistent
pub mod Queries
use Prim.Native.String.{◌++◌ as join}
use salesforce.Common.{
  ℕ, zero, suc, ◌+◌, Bool, true, false, not, ◌&&◌, ◌||◌, String, Option, none, some, List, [], ◌∷◌,
  ◌++◌, ◌==◌, ◌=ₛ◌, ltb, length, map, lower, eq_codes, contains, codes, keep, if◌then◌else◌,
}
use salesforce.Common.Dict.{Dict, get, put, has}

-- `GraphNode`, with `meta["is_test"]` of its further data.
pub record GraphNode : Type 0 where
  pub id : String
  pub kind : String
  pub category : String
  pub name : String
  pub api_name : String
  pub is_test : Bool

-- core/models.py: `DependencyKind`.
pub data DependencyKind : Type 0 where
  calls dispatches depends_on references triggers owns participates_in escalates_to compensates :
      DependencyKind

abbrev pub dependency_value : DependencyKind → String
dependency_value calls = "calls"
dependency_value dispatches = "dispatches"
dependency_value depends_on = "depends_on"
dependency_value references = "references"
dependency_value triggers = "triggers"
dependency_value owns = "owns"
dependency_value participates_in = "participates_in"
dependency_value escalates_to = "escalates_to"
dependency_value compensates = "compensates"

-- core/models.py: `Dependency`, with the channel of evidence by its value.
pub record Dependency : Type 0 where
  pub source_id : String
  pub target_id : String
  pub kind : DependencyKind
  pub confidence : ℕ
  pub evidence : String
  pub notes : Option String

abbrev pub EdgeKey : Type 0
EdgeKey = String × String × String

abbrev pub same_key : EdgeKey → EdgeKey → Bool
same_key k j = k.0 =ₛ j.0 && (k.1 =ₛ j.1 && k.2 =ₛ j.2)

abbrev pub edge_key : Dependency → EdgeKey
edge_key d = (d.source_id, d.target_id, dependency_value d.kind)

-- The store of the edges, and the places that the tables hold.
pub record Graph : Type 0 where
  pub nodes : Dict GraphNode
  pub objects : List Dependency
  pub edges : List ℕ
  pub outgoing : Dict (List ℕ)
  pub incoming : Dict (List ℕ)
  pub edge_index : List (EdgeKey × ℕ)

unfoldable pub empty_graph : Graph
empty_graph = record {
  nodes = [];
  objects = [];
  edges = [];
  outgoing = [];
  incoming = [];
  edge_index = [];
}

-- `add_node`: `setdefault`.
unfoldable pub add_node : GraphNode → Graph → Graph
unfolding put has
add_node n g = if has g.nodes n.id then g else record g { nodes = put g.nodes n.id n }

-- A table of lists at a key, where `defaultdict` has an empty one.
unfoldable pub listed : Dict (List ℕ) → String → List ℕ
listed [] k = []
listed ((j, xs) ∷ d) k = let rest = listed d k in if j =ₛ k then xs else rest

-- `table[k].append(x)`.
unfoldable pub append_at : Dict (List ℕ) → String → ℕ → Dict (List ℕ)
append_at [] k x = (k, x ∷ []) ∷ []
append_at ((j, xs) ∷ d) k x =
    let rest = append_at d k x in if j =ₛ k then (j, xs ++ x ∷ []) ∷ d else (j, xs) ∷ rest

-- `_edge_index.get(key)`.
unfoldable pub indexed : List (EdgeKey × ℕ) → EdgeKey → Option ℕ
indexed [] k = none
indexed ((j, i) ∷ table) k = let rest = indexed table k in if same_key j k then some i else rest

-- The object at a place, and a change of it.
unfoldable pub object_at : List Dependency → ℕ → Option Dependency
object_at [] i = none
object_at (d ∷ ds) zero = some d
object_at (d ∷ ds) (suc i) = object_at ds i

unfoldable pub change_at : List Dependency → ℕ → (Dependency → Dependency) → List Dependency
change_at [] i f = []
change_at (d ∷ ds) zero f = f d ∷ ds
change_at (d ∷ ds) (suc i) f = d ∷ change_at ds i f

-- `if notes and (not existing.notes or notes not in existing.notes)`.
unfoldable pub merge_notes : Option String → Option String → Option String
unfolding contains
merge_notes existing none = existing
merge_notes none (some notes) = if notes =ₛ "" then none else some notes
merge_notes (some old) (some notes) =
    if notes =ₛ ""
    then some old
    else if old =ₛ ""
    then some notes
    else if contains (codes old) (codes notes)
    then some old
    else some (join old (join "; " notes))

-- The same edge found by a second channel.
unfoldable pub merge : ℕ → Option String → Dependency → Dependency
unfolding merge_notes
merge confidence notes d = record d {
  confidence = if ltb d.confidence confidence then confidence else d.confidence;
  notes = merge_notes d.notes notes;
}

-- A new object, which each table lists.
unfoldable pub insert_edge : Dependency → Graph → Graph
unfolding append_at
insert_edge d g = record g {
  objects = g.objects ++ d ∷ [];
  edges = g.edges ++ length g.objects ∷ [];
  edge_index = g.edge_index ++ (edge_key d, length g.objects) ∷ [];
  outgoing = append_at g.outgoing d.source_id (length g.objects);
  incoming = append_at g.incoming d.target_id (length g.objects);
}

-- An edge whose key the index has at a place, or has not.
unfoldable pub place_edge : Dependency → Graph → Option ℕ → Graph
unfolding change_at merge insert_edge
place_edge d g none = insert_edge d g
place_edge d g (some i) = record g { objects = change_at g.objects i (merge d.confidence d.notes) }

-- `add_edge`, of the edge `d`. An edge of a node to itself is not stored.
unfoldable pub add_edge : Dependency → Graph → Graph
unfolding indexed place_edge
add_edge d g =
    if d.source_id =ₛ d.target_id then g else place_edge d g (indexed g.edge_index (edge_key d))

-- The objects at the places of a list.
abbrev pub with_object : Option Dependency → List Dependency → List Dependency
with_object none ds = ds
with_object (some d) ds = d ∷ ds

unfoldable pub objects_at : List Dependency → List ℕ → List Dependency
unfolding object_at
objects_at ds [] = []
objects_at ds (i ∷ places) = with_object (object_at ds i) (objects_at ds places)

-- `node`.
unfoldable pub node_of : Graph → String → Option GraphNode
unfolding get
node_of g id = get g.nodes id

unfoldable pub outbound : Graph → String → List Dependency
unfolding listed objects_at
outbound g id = objects_at g.objects (listed g.outgoing id)

unfoldable pub inbound : Graph → String → List Dependency
unfolding listed objects_at
inbound g id = objects_at g.objects (listed g.incoming id)

unfoldable pub all_edges : Graph → List Dependency
unfolding objects_at
all_edges g = objects_at g.objects g.edges

-- `edges_by_kind`: `out[e.kind.value] += 1`.
unfoldable pub count_kinds : List Dependency → Dict ℕ → Dict ℕ
unfolding get put
count_kinds [] counts = counts
count_kinds (d ∷ ds) counts =
    count_kinds ds
      (put counts (dependency_value d.kind) (suc (or_zero (get counts (dependency_value d.kind)))))
  where
    or_zero : Option ℕ → ℕ
    or_zero none = 0
    or_zero (some n) = n

unfoldable pub edges_by_kind : Graph → Dict ℕ
unfolding all_edges count_kinds
edges_by_kind g = count_kinds (all_edges g) []
