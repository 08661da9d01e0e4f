-- ===== src/Understand/Graph/Consistent.antt =====
-- understand/dependencies.py: the tables of the graph against its list of edges.
use salesforce.Common.{
  ℕ, zero, suc, ◌+◌, ◌≡◌, refl, sym, ap, subst, ◌∙◌, Bool, true, false, String, Option, none, some,
  List, [], ◌∷◌, ◌++◌, ◌=ₛ◌, length, if◌then◌else◌, arith, Bool-cases, inl, inr, eq_iff, append-nil,
}
use salesforce.Common.Dict.{Dict}
use salesforce.Understand.Graph.{
  Dependency, EdgeKey, same_key, edge_key, Graph, empty_graph, listed, append_at, indexed,
  change_at, merge, insert_edge,
}

-- The places, from `k` on, of the objects that pass a test.
unfoldable pub positions : (Dependency → Bool) → ℕ → List Dependency → List ℕ
positions p k [] = []
positions p k (d ∷ ds) = let rest = positions p (suc k) ds in if p d then k ∷ rest else rest

-- The first place, from `i` on, of an object with a key.
pub first_at : EdgeKey → ℕ → List Dependency → Option ℕ
first_at k i [] = none
first_at k i (d ∷ ds) =
    let rest = first_at k (suc i) ds in if same_key (edge_key d) k then some i else rest

module _ (p : Dependency → Bool) where
  positions-append :
      (k : ℕ) (ds : List Dependency) (d : Dependency)
      → positions p k (ds ++ d ∷ [])
        ≡ positions p k ds ++ (if p d then (k + length ds) ∷ [] else [])
  unfolding positions
  positions-append k [] d = ground arith
  positions-append k (c ∷ ds) d = ground (arith, positions-append (suc k) ds d)

  positions-change_at :
      (f : Dependency → Dependency)
      → ((d : Dependency) → p (f d) ≡ p d)
      → (k : ℕ) (ds : List Dependency) (i : ℕ) → positions p k (change_at ds i f) ≡ positions p k ds
  unfolding positions change_at
  positions-change_at f e k [] i = refl
  positions-change_at f e k (d ∷ ds) zero = rw (e d) refl
  positions-change_at f e k (d ∷ ds) (suc i) = rw (positions-change_at f e (suc k) ds i) refl

abbrev pub or_later : Option ℕ → Option ℕ → Option ℕ
or_later none o = o
or_later (some i) o = some i

-- The place `i` where a test holds.
abbrev pub at : Bool → ℕ → Option ℕ
at true i = some i
at false i = none

first_at-append :
    (k : EdgeKey) (i : ℕ) (ds : List Dependency) (d : Dependency)
    → first_at k i (ds ++ d ∷ [])
      ≡ or_later (first_at k i ds) (at (same_key (edge_key d) k) (i + length ds))
unfolding first_at
first_at-append k i [] d = elim (Bool-cases (same_key (edge_key d) k)) [
  | inl e ↦ rw e (ap some (omega arith))
  | inr e ↦ rw e refl
]
first_at-append k i (c ∷ ds) d = elim (Bool-cases (same_key (edge_key c) k)) [
  | inl e ↦ rw e refl
  | inr e ↦
      let shift : suc i + length ds ≡ i + suc (length ds) = omega arith in
      rw e (
        first_at-append k (suc i) ds d
        ∙ ap (λ j. or_later (first_at k (suc i) ds) (at (same_key (edge_key d) k) j)) shift)
]

first_at-change_at :
    (f : Dependency → Dependency)
    → ((d : Dependency) → edge_key (f d) ≡ edge_key d)
    → (k : EdgeKey) (i : ℕ) (ds : List Dependency) (j : ℕ)
    → first_at k i (change_at ds j f) ≡ first_at k i ds
unfolding first_at change_at
first_at-change_at f e k i [] j = refl
first_at-change_at f e k i (d ∷ ds) zero =
    ap (λ key. if same_key key k then some i else first_at k (suc i) ds) (e d)
first_at-change_at f e k i (d ∷ ds) (suc j) = rw (first_at-change_at f e k (suc i) ds j) refl

length-change_at :
    (f : Dependency → Dependency) (ds : List Dependency) (i : ℕ)
    → length (change_at ds i f) ≡ length ds
unfolding change_at
length-change_at f [] i = refl
length-change_at f (d ∷ ds) zero = refl
length-change_at f (d ∷ ds) (suc i) = ap suc (length-change_at f ds i)

apart : (i j k : String) → i =ₛ k ≡ true → i =ₛ j ≡ false → j =ₛ k ≡ false
apart i j k q e = elim (Bool-cases (j =ₛ k)) [
  | inl r ↦
      let same : i ≡ j = (eq_iff i k).0 q ∙ sym ((eq_iff j k).0 r) in
      absurd (cc ((eq_iff i j).1 same, e))
  | inr r ↦ r
]

listed-append_at :
    (d : Dict (List ℕ)) (j k : String) (x : ℕ)
    → listed (append_at d j x) k ≡ listed d k ++ (if j =ₛ k then x ∷ [] else [])
unfolding listed append_at
listed-append_at [] j k x = elim (Bool-cases (j =ₛ k)) [ inl e ↦ rw e refl | inr e ↦ rw e refl ]
listed-append_at ((i, xs) ∷ d) j k x = elim (Bool-cases (i =ₛ j)) [
  | inl e ↦
      let same : i ≡ j = (eq_iff i j).0 e in
      elim (Bool-cases (i =ₛ k)) [
        | inl q ↦ let r : j =ₛ k ≡ true = subst (λ h. h =ₛ k ≡ true) same q in rw (e, q, r) refl
        | inr q ↦
            let r : j =ₛ k ≡ false = subst (λ h. h =ₛ k ≡ false) same q in
            rw (e, q, r) (sym (append-nil (listed d k)))
      ]
  | inr e ↦ elim (Bool-cases (i =ₛ k)) [
    | inl q ↦ rw (e, q, apart i j k q e) (sym (append-nil xs))
    | inr q ↦ rw (e, q) (listed-append_at d j k x)
  ]
]

indexed-append :
    (table : List (EdgeKey × ℕ)) (j : EdgeKey) (i : ℕ) (k : EdgeKey)
    → indexed (table ++ (j, i) ∷ []) k ≡ or_later (indexed table k) (at (same_key j k) i)
unfolding indexed
indexed-append [] j i k = elim (Bool-cases (same_key j k)) [ inl e ↦ rw e refl | inr e ↦ rw e refl ]
indexed-append ((l, n) ∷ table) j i k = elim (Bool-cases (same_key l k)) [
  | inl e ↦ rw e refl
  | inr e ↦ rw e (indexed-append table j i k)
]

-- The tables of a graph are those of its store: the list of edges and the two adjacency tables hold the
-- places of the edges in their order, and the index finds the place of each key.
pub record Consistent (g : Graph) : Type 0 where
  pub listed_edges : g.edges ≡ positions (λ d. true) 0 g.objects
  pub sources :
      (id : String) → listed g.outgoing id ≡ positions (λ d. d.source_id =ₛ id) 0 g.objects
  pub targets :
      (id : String) → listed g.incoming id ≡ positions (λ d. d.target_id =ₛ id) 0 g.objects
  pub keys : (k : EdgeKey) → indexed g.edge_index k ≡ first_at k 0 g.objects

positions-end :
    (p : Dependency → Bool) (ds : List Dependency) (d : Dependency)
    → positions p 0 (ds ++ d ∷ []) ≡ positions p 0 ds ++ (if p d then length ds ∷ [] else [])
positions-end p ds d =
    let e : 0 + length ds ≡ length ds = omega arith in
    positions-append p 0 ds d ∙ ap (λ n. positions p 0 ds ++ (if p d then n ∷ [] else [])) e

first_at-end :
    (k : EdgeKey) (ds : List Dependency) (d : Dependency)
    → first_at k 0 (ds ++ d ∷ [])
      ≡ or_later (first_at k 0 ds) (at (same_key (edge_key d) k) (length ds))
first_at-end k ds d =
    let e : 0 + length ds ≡ length ds = omega arith in
    first_at-append k 0 ds d
    ∙ ap (λ n. or_later (first_at k 0 ds) (at (same_key (edge_key d) k) n)) e

pub insert_edge-Consistent :
    (d : Dependency) (g : Graph) → Consistent g → Consistent (insert_edge d g)
unfolding insert_edge
insert_edge-Consistent d g c = record {
  listed_edges = rw c.listed_edges (sym (positions-end (λ e. true) g.objects d));
  sources = λ id.
      listed-append_at g.outgoing d.source_id id (length g.objects)
      ∙ rw (c.sources id) (sym (positions-end (λ e. e.source_id =ₛ id) g.objects d));
  targets = λ id.
      listed-append_at g.incoming d.target_id id (length g.objects)
      ∙ rw (c.targets id) (sym (positions-end (λ e. e.target_id =ₛ id) g.objects d));
  keys = λ k.
      indexed-append g.edge_index (edge_key d) (length g.objects) k
      ∙ rw (c.keys k) (sym (first_at-end k g.objects d));
}

pub merge-Consistent :
    (g : Graph) (i confidence : ℕ) (notes : Option String)
    → Consistent g
    → Consistent (record g { objects = change_at g.objects i (merge confidence notes) })
unfolding merge
merge-Consistent g i confidence notes c = record {
  listed_edges = c.listed_edges ∙ sym (positions-change_at (λ d. true) _ (λ d. refl) 0 g.objects i);
  sources = λ id.
      c.sources id ∙ sym (positions-change_at (λ d. d.source_id =ₛ id) _ (λ d. refl) 0 g.objects i);
  targets = λ id.
      c.targets id ∙ sym (positions-change_at (λ d. d.target_id =ₛ id) _ (λ d. refl) 0 g.objects i);
  keys = λ k. c.keys k ∙ sym (first_at-change_at _ (λ d. refl) k 0 g.objects i);
}

pub empty_graph-Consistent : Consistent empty_graph
unfolding empty_graph listed indexed positions first_at
empty_graph-Consistent = record {
  listed_edges = refl;
  sources = λ id. refl;
  targets = λ id. refl;
  keys = λ k. refl;
}
