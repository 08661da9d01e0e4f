-- ===== src/Understand/Compare/View.antt =====
-- understand/compare.py: an extract as a view. A set is a list without doubles; `sorted` puts it in order.
use Prim.Native.String.{◌++◌ as join}
use salesforce.Common.{
  Bool, false, not, ◌&&◌, ◌||◌, String, Option, none, some, List, [], ◌∷◌, ◌++◌, ◌=ₛ◌, keep,
  le_text, if◌then◌else◌,
}
use salesforce.Common.Dict.{Dict, get, put}

-- A category and a name; a kind of target, its name and the kind of the edge.
abbrev pub Key : Type 0
Key = String × String

abbrev pub Edge : Type 0
Edge = String × String × String

abbrev pub same_key : Key → Key → Bool
same_key k j = k.0 =ₛ j.0 && k.1 =ₛ j.1

abbrev pub same_edge : Edge → Edge → Bool
same_edge e f = e.0 =ₛ f.0 && (e.1 =ₛ f.1 && e.2 =ₛ f.2)

-- The order of tuples.
abbrev pub le_key : Key → Key → Bool
le_key k j = if k.0 =ₛ j.0 then le_text k.1 j.1 else le_text k.0 j.0

abbrev pub le_edge : Edge → Edge → Bool
le_edge e f =
    if e.0 =ₛ f.0 then if e.1 =ₛ f.1 then le_text e.2 f.2 else le_text e.1 f.1 else le_text e.0 f.0

module _ {A : Type 0} where
  unfoldable pub insert : (A → A → Bool) → A → List A → List A
  insert le x [] = x ∷ []
  insert le x (y ∷ ys) = let rest = insert le x ys in if le x y then x ∷ y ∷ ys else y ∷ rest

  -- `sorted(xs)`.
  unfoldable pub sorted : (A → A → Bool) → List A → List A
  unfolding insert
  sorted le [] = []
  sorted le (x ∷ xs) = insert le x (sorted le xs)

  -- `x in xs`, by an equality of the members.
  unfoldable pub has : (A → A → Bool) → A → List A → Bool
  has same x [] = false
  has same x (y ∷ ys) = same y x || has same x ys

  -- `xs - ys` and `xs & ys`.
  unfoldable pub minus : (A → A → Bool) → List A → List A → List A
  unfolding keep has
  minus same xs ys = keep (λ x. not (has same x ys)) xs

  unfoldable pub both : (A → A → Bool) → List A → List A → List A
  unfolding keep has
  both same xs ys = keep (λ x. has same x ys) xs

  -- `xs.add(x)`.
  unfoldable pub add : (A → A → Bool) → A → List A → List A
  unfolding has
  add same x xs = if has same x xs then xs else xs ++ x ∷ []

-- `ExtractView`. A process is read as the texts of its entries.
pub record View : Type 0 where
  pub label : String
  pub components : List Key
  pub edges : List (Key × List Edge)
  pub processes : Dict (Dict String)

-- `edges.get(key, set())`.
unfoldable pub edges_of : Key → List (Key × List Edge) → List Edge
edges_of k [] = []
edges_of k ((j, es) ∷ table) = let rest = edges_of k table in if same_key j k then es else rest

-- A node and an edge of graph.json.
pub record GraphNode : Type 0 where
  pub id : String
  pub kind : Option String
  pub category : Option String
  pub api_name : String

pub record GraphEdge : Type 0 where
  pub source_id : String
  pub target_id : String
  pub kind : Option String
  pub evidence : Option String

-- `str(x)` of a text or of None.
abbrev pub shown : Option String → String
shown none = "None"
shown (some s) = s

-- `x or y` on texts.
abbrev pub or_else : Option String → Option String → Option String
or_else none y = y
or_else (some s) y = if s =ₛ "" then y else some s

abbrev pub is_text : String → Option String → Bool
is_text s none = false
is_text s (some t) = t =ₛ s

abbrev pub key_of : GraphNode → Key
key_of n = (shown n.category, n.api_name)

-- `{n["id"]: n for n in nodes}`.
unfoldable pub by_id : List GraphNode → Dict GraphNode → Dict GraphNode
unfolding put
by_id [] d = d
by_id (n ∷ ns) d = by_id ns (put d n.id n)

unfoldable pub load_nodes : List GraphNode → List Key → List Key
unfolding add
load_nodes [] keys = keys
load_nodes (n ∷ ns) keys =
    load_nodes ns (if is_text "component" n.kind then add same_key (key_of n) keys else keys)

-- `edges.setdefault(key, set()).add(edge)`.
unfoldable pub add_edge : Key → Edge → List (Key × List Edge) → List (Key × List Edge)
unfolding add
add_edge k e [] = (k, e ∷ []) ∷ []
add_edge k e ((j, es) ∷ table) =
    let rest = add_edge k e table in
    if same_key j k then (j, add same_edge e es) ∷ table else (j, es) ∷ rest

-- An edge from a component to a node that is there; a row of the cross-check is left out.
unfoldable pub load_edge :
    Dict GraphNode → GraphEdge → List (Key × List Edge) → List (Key × List Edge)
unfolding get add_edge
load_edge nodes e table =
    if is_text "dependency_api" e.evidence
    then table
    else between (get nodes e.source_id) (get nodes e.target_id)
  where
    between : Option GraphNode → Option GraphNode → List (Key × List Edge)
    between (some s) (some t) =
        if is_text "component" s.kind
        then add_edge (key_of s) (shown (or_else t.category t.kind), t.api_name, shown e.kind) table
        else table
    between _ _ = table

unfoldable pub load_edges :
    Dict GraphNode → List GraphEdge → List (Key × List Edge) → List (Key × List Edge)
unfolding load_edge
load_edges nodes [] table = table
load_edges nodes (e ∷ es) table = load_edges nodes es (load_edge nodes e table)

-- The key of a process: its kind and its name.
unfoldable pub load_processes : List (Dict String) → Dict (Dict String) → Dict (Dict String)
unfolding get put
load_processes [] d = d
load_processes (p ∷ ps) d =
    load_processes ps (put d (join (shown (get p "kind")) (join "." (shown (get p "name")))) p)

-- `ExtractView.load`, of the files' contents.
unfoldable pub load : String → List GraphNode → List GraphEdge → List (Dict String) → View
unfolding by_id load_nodes load_edges load_processes
load label nodes graph_edges processes = record {
  label = label;
  components = load_nodes nodes [];
  edges = load_edges (by_id nodes []) graph_edges [];
  processes = load_processes processes [];
}
