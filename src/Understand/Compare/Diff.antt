-- ===== src/Understand/Compare/Diff.antt =====
-- understand/compare.py: the report of where two views differ.
use Prim.Native.String.{◌++◌ as join}
use salesforce.Common.{
  ℕ, suc, ◌+◌, Bool, false, not, ◌&&◌, ◌||◌, String, Option, none, some, List, [], ◌∷◌, ◌=ₛ◌, any,
  member, map, length, is_nonempty, if◌then◌else◌,
}
use salesforce.Common.Dict.{Dict, get}
use salesforce.Understand.Compare.View.{
  Key, Edge, same_key, same_edge, le_key, le_edge, sorted, minus, both, View, edges_of, shown,
  or_else,
}

-- `ComponentDiff`.
pub record ComponentDiff : Type 0 where
  pub category : String
  pub api_name : String
  pub only_in_a : List Edge
  pub only_in_b : List Edge
  pub schema_only_in_a : ℕ
  pub schema_only_in_b : ℕ
  pub process_differs : Bool
  pub process_fidelity : Option String × Option String

-- `CompareReport`.
pub record CompareReport : Type 0 where
  pub a : String
  pub b : String
  pub missing_in_b : List Key
  pub missing_in_a : List Key
  pub diffs : List ComponentDiff
  pub shared : ℕ
  pub agreeing_edges : ℕ

unfoldable pub significant : ComponentDiff → Bool
significant d = is_nonempty d.only_in_a || (is_nonempty d.only_in_b || d.process_differs)

unfoldable pub clean : CompareReport → Bool
unfolding any significant
clean r =
    not (is_nonempty r.missing_in_a)
    && (not (is_nonempty r.missing_in_b) && not (any significant r.diffs))

-- `_SCHEMA_KINDS`.
unfoldable pub is_schema : Edge → Bool
unfolding member
is_schema e = member e.0 ("field" ∷ "object" ∷ "record_type" ∷ [])

-- The edges to nodes of the schema are counted; the others are listed.
unfoldable pub split_edges : List Edge → ℕ × List Edge
unfolding is_schema
split_edges [] = (0, [])
split_edges (e ∷ es) =
    let (count, listed) = split_edges es in
    if is_schema e then (suc count, listed) else (count, e ∷ listed)

-- `p.get("id") or ""`.
unfoldable pub process_hash : Dict String → String
unfolding get
process_hash p = shown (or_else (get p "id") (some ""))

-- Whether both views have the process and their hashes differ, and the fidelities.
unfoldable pub compare_processes :
    Option (Dict String) → Option (Dict String) → Bool × (Option String × Option String)
unfolding process_hash get
compare_processes (some p) (some q) =
    if is_nonempty p && is_nonempty q
    then (not (process_hash p =ₛ process_hash q), (get p "fidelity", get q "fidelity"))
    else (false, (none, none))
compare_processes _ _ = (false, (none, none))

unfoldable pub process_key : Key → String
process_key k = join k.0 (join "." k.1)

-- One round of the loop over the shared components.
unfoldable pub compare_component : View → View → Key → ComponentDiff
unfolding edges_of sorted minus split_edges get compare_processes process_key
compare_component a b key =
    let ea = edges_of key a.edges in
    let eb = edges_of key b.edges in
    let in_a = split_edges (sorted le_edge (minus same_edge ea eb)) in
    let in_b = split_edges (sorted le_edge (minus same_edge eb ea)) in
    let processes =
      compare_processes (get a.processes (process_key key)) (get b.processes (process_key key)) in
    record {
      category = key.0;
      api_name = key.1;
      only_in_a = in_a.1;
      only_in_b = in_b.1;
      schema_only_in_a = in_a.0;
      schema_only_in_b = in_b.0;
      process_differs = processes.0;
      process_fidelity = processes.1;
    }

-- How many edges both views have of the components of a list.
unfoldable pub count_agreeing : View → View → List Key → ℕ
unfolding edges_of both
count_agreeing a b [] = 0
count_agreeing a b (k ∷ ks) =
    length (both same_edge (edges_of k a.edges) (edges_of k b.edges)) + count_agreeing a b ks

unfoldable pub compare_views : Bool → View → View → CompareReport
unfolding sorted minus both compare_component count_agreeing
compare_views a_is_subset a b =
    let common = sorted le_key (both same_key a.components b.components) in
    record {
      a = a.label;
      b = b.label;
      missing_in_b = sorted le_key (minus same_key a.components b.components);
      missing_in_a =
          if a_is_subset then [] else sorted le_key (minus same_key b.components a.components);
      diffs = map (compare_component a b) common;
      shared = length common;
      agreeing_edges = count_agreeing a b common;
    }
