-- ===== src/Understand/Graph/Queries.antt =====
-- understand/dependencies.py: what the queries of a graph answer that was built by `add_edge`.
use salesforce.Common.{
  ℕ, suc, ◌≡◌, refl, sym, ap, subst, ◌∙◌, Bool, true, String, Option, none, some, List, [], ◌∷◌,
  ◌++◌, ◌=ₛ◌, length, keep, arith, Bool-cases, inl, inr, append_assoc, length-append,
}
use salesforce.Understand.Graph.{
  Dependency, Graph, empty_graph, object_at, place_edge, add_edge, objects_at, outbound, inbound,
  all_edges,
}
use salesforce.Understand.Graph.Consistent.{
  positions, Consistent, insert_edge-Consistent, merge-Consistent, empty_graph-Consistent,
}

place_edge-Consistent :
    (d : Dependency) (g : Graph) (o : Option ℕ) → Consistent g → Consistent (place_edge d g o)
unfolding place_edge
place_edge-Consistent d g none c = insert_edge-Consistent d g c
place_edge-Consistent d g (some i) c = merge-Consistent g i d.confidence d.notes c

add_edge-Consistent : (d : Dependency) (g : Graph) → Consistent g → Consistent (add_edge d g)
unfolding add_edge
add_edge-Consistent d g c = elim (Bool-cases (d.source_id =ₛ d.target_id)) [
  | inl e ↦ rw e c
  | inr e ↦ rw e (place_edge-Consistent d g _ c)
]

object_at-append :
    (before : List Dependency) (d : Dependency) (ds : List Dependency)
    → object_at (before ++ d ∷ ds) (length before) ≡ some d
unfolding object_at
object_at-append [] d ds = refl
object_at-append (c ∷ before) d ds = object_at-append before d ds

objects_at-positions :
    (p : Dependency → Bool) (before ds : List Dependency)
    → objects_at (before ++ ds) (positions p (length before) ds) ≡ keep p ds
unfolding objects_at positions keep
objects_at-positions p before [] = refl
objects_at-positions p before (d ∷ ds) = elim (Bool-cases (p d)) [
  | inl e ↦
      rw (e, object_at-append before d ds)
        (ap (λ es. d ∷ es) (later d ds (objects_at-positions p (before ++ d ∷ []) ds)))
  | inr e ↦ rw e (later d ds (objects_at-positions p (before ++ d ∷ []) ds))
]
  where
    later :
        (d : Dependency) (ds : List Dependency)
        → objects_at ((before ++ d ∷ []) ++ ds) (positions p (length (before ++ d ∷ [])) ds)
          ≡ keep p ds
        → objects_at (before ++ d ∷ ds) (positions p (suc (length before)) ds) ≡ keep p ds
    later d ds h =
        let n : length (before ++ d ∷ []) ≡ suc (length before) =
          omega (arith, length-append before (d ∷ [])) in
        subst (λ es. objects_at es (positions p (suc (length before)) ds) ≡ keep p ds)
          (append_assoc before (d ∷ []) ds)
          (subst (λ k. objects_at ((before ++ d ∷ []) ++ ds) (positions p k ds) ≡ keep p ds) n h)

keep-all : (ds : List Dependency) → keep (λ d. true) ds ≡ ds
unfolding keep
keep-all [] = refl
keep-all (d ∷ ds) = ap (λ es. d ∷ es) (keep-all ds)

-- A graph after a sequence of edges was added.
unfoldable pub add_all : List Dependency → Graph → Graph
unfolding add_edge
add_all [] g = g
add_all (d ∷ ds) g = add_all ds (add_edge d g)

add_all-Consistent : (ds : List Dependency) (g : Graph) → Consistent g → Consistent (add_all ds g)
unfolding add_all
add_all-Consistent [] g c = c
add_all-Consistent (d ∷ ds) g c = add_all-Consistent ds (add_edge d g) (add_edge-Consistent d g c)

-- However edges were added to an empty graph, found again and merged, the adjacency tables answer as a
-- search through the list of all edges would: those that leave a node and those that reach it, in the
-- order in which they were first added and as they are after every merge.
pub add_all-queries :
    (ds : List Dependency) (id : String)
    → let g = add_all ds empty_graph in
      (outbound g id ≡ keep (λ d. d.source_id =ₛ id) (all_edges g))
      × (inbound g id ≡ keep (λ d. d.target_id =ₛ id) (all_edges g))
      × (all_edges g ≡ g.objects)
unfolding outbound inbound all_edges
add_all-queries ds id =
    let g = add_all ds empty_graph in
    let c = add_all-Consistent ds empty_graph empty_graph-Consistent in
    let whole : all_edges g ≡ g.objects =
      unfold all_edges in
      (ap (objects_at g.objects) c.listed_edges
        ∙ objects_at-positions (λ d. true) [] g.objects
        ∙ keep-all g.objects) in
    (
      ap (objects_at g.objects) (c.sources id)
          ∙ objects_at-positions (λ d. d.source_id =ₛ id) [] g.objects
          ∙ ap (keep (λ d. d.source_id =ₛ id)) (sym whole),
      ap (objects_at g.objects) (c.targets id)
          ∙ objects_at-positions (λ d. d.target_id =ₛ id) [] g.objects
          ∙ ap (keep (λ d. d.target_id =ₛ id)) (sym whole),
      whole,
    )
