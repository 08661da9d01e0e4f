-- ===== src/Understand/Orphan/Called.antt =====
-- understand/orphan/resolver.py: which classes have a caller, from the graph or from the references.
use salesforce.Common.{
  ◌≡◌, refl, subst, ◌∙◌, Bool, true, false, not, ◌&&◌, ◌||◌, String, Option, none, some, List, [],
  ◌∷◌, ◌=ₛ◌, any, member, member-append, arith, eq_iff, Bool-cases, inl, inr, if◌then◌else◌,
}
use salesforce.Models.{apex_class, apex_trigger, category_value}
use salesforce.Understand.Graph.{
  Graph, GraphNode, Dependency, DependencyKind, dependency_value, calls, dispatches, depends_on,
  references, triggers, owns, participates_in, escalates_to, compensates, inbound, node_of,
}
use salesforce.Understand.Orphan.Inputs.{
  OrphanComponent, ResolutionInputs, is_category, class_name, shown_name,
}
use salesforce.Understand.Orphan.Callers.{
  add_name, calls_from, is_call, called_in_graph, add_known, class_names, called_in_references,
  called_apex_classes,
}
use salesforce.Understand.Orphan.Resolve.{is_orphan}

-- An edge that calls its target.
pub is_calling : DependencyKind → Bool
is_calling calls = true
is_calling dispatches = true
is_calling triggers = true
is_calling depends_on = false
is_calling references = false
is_calling owns = false
is_calling participates_in = false
is_calling escalates_to = false
is_calling compensates = false

-- A node that is in the graph, and is no bundle, no scheduled job and no test.
pub is_code : Option GraphNode → Bool
is_code none = false
is_code (some n) =
    not n.is_test && (not ("lwc_bundle" =ₛ n.category) && not ("CronTrigger" =ₛ n.category))

abbrev pub calls_it : Graph → Dependency → Bool
calls_it g e = is_calling e.kind && is_code (node_of g e.source_id)

member-is_calling :
    (k : DependencyKind)
    → member (dependency_value k) ("calls" ∷ "dispatches" ∷ "triggers" ∷ []) ≡ is_calling k
unfolding member is_calling
member-is_calling calls = refl
member-is_calling dispatches = refl
member-is_calling triggers = refl
member-is_calling depends_on = refl
member-is_calling references = refl
member-is_calling owns = refl
member-is_calling participates_in = refl
member-is_calling escalates_to = refl
member-is_calling compensates = refl

calls_from-is_code : (o : Option GraphNode) → calls_from o ≡ is_code o
unfolding calls_from is_code member
calls_from-is_code none = refl
calls_from-is_code (some n) = ground arith

is_call-calls_it : (g : Graph) (e : Dependency) → is_call g e ≡ calls_it g e
unfolding is_call
is_call-calls_it g e =
    rw (member-is_calling e.kind, calls_from-is_code (node_of g e.source_id)) refl

-- The texts of a component that count as its name.
abbrev pub api_of : Option String → String
api_of none = ""
api_of (some s) = s

abbrev pub name_of : OrphanComponent → String
name_of c = if api_of c.api_name =ₛ "" then c.name else api_of c.api_name

abbrev pub is_class : OrphanComponent → Bool
is_class c = category_value c.category =ₛ "apex_class"

abbrev pub is_trigger : OrphanComponent → Bool
is_trigger c = category_value c.category =ₛ "apex_trigger"

class_name-api_of : (c : OrphanComponent) → class_name c ≡ api_of c.api_name
class_name-api_of c = go c.api_name
  where
    go : (o : Option String) → (elim o [ none ↦ "" | some s ↦ s ]) ≡ api_of o
    go none = refl
    go (some s) = refl

shown_name-name_of : (c : OrphanComponent) → shown_name c ≡ name_of c
shown_name-name_of c = rw (class_name-api_of c) refl

any-agrees :
    {A : Type 0} (p q : A → Bool) → ((x : A) → p x ≡ q x) → (xs : List A) → any p xs ≡ any q xs
unfolding any
any-agrees p q e [] = refl
any-agrees p q e (x ∷ xs) = rw (e x, any-agrees p q e xs) refl

member-add_name :
    (x s : String) (names : List String) → member x (add_name s names) ≡ member x names || s =ₛ x
unfolding add_name
member-add_name x s names = elim (Bool-cases (member s names)) [
  | inl there ↦ rw there (elim (Bool-cases (s =ₛ x)) [
    | inl same ↦
        let found : member x names ≡ true =
          subst (λ t. member t names ≡ true) ((eq_iff s x).0 same) there in
        rw found refl
    | inr apart ↦ rw apart (ground arith)
  ])
  | inr fresh ↦ rw (fresh, member-append x names (s ∷ [])) (unfold member in ground arith)
]

member-add_if :
    (x s : String) (b : Bool) (names : List String)
    → member x (if b then add_name s names else names) ≡ member x names || (b && s =ₛ x)
member-add_if x s true names = member-add_name x s names
member-add_if x s false names = ground arith

is_category-is_class : (c : OrphanComponent) → is_category apex_class c ≡ is_class c
unfolding is_category category_value
is_category-is_class c = refl

is_category-is_trigger : (c : OrphanComponent) → is_category apex_trigger c ≡ is_trigger c
unfolding is_category category_value
is_category-is_trigger c = refl

-- A class of that name that something in the graph calls.
pub called_in : Graph → List OrphanComponent → String → Bool
unfolding any inbound
called_in g cs x =
    any
      (λ (c : OrphanComponent). is_class c && (any (calls_it g) (inbound g c.id) && name_of c =ₛ x))
      cs

member-called_in_graph :
    (g : Graph) (cs : List OrphanComponent) (names : List String) (x : String)
    → member x (called_in_graph g cs names) ≡ member x names || called_in g cs x
unfolding called_in_graph called_in any is_category
member-called_in_graph g [] names x = ground arith
member-called_in_graph g (c ∷ cs) names x =
    member-called_in_graph g cs _ x
    ∙ rw
        (
          any-agrees (is_call g) (calls_it g) (is_call-calls_it g) (inbound g c.id),
          is_category-is_class c,
          shown_name-name_of c,
          member-add_if,
        )
        (ground arith)

-- A class of that name in the corpus.
pub is_known : List OrphanComponent → String → Bool
unfolding any
is_known cs x =
    any
      (λ (c : OrphanComponent).
        is_class c && (not (api_of c.api_name =ₛ "") && api_of c.api_name =ₛ x))
      cs

member-class_names :
    (cs : List OrphanComponent) (x : String) → member x (class_names cs) ≡ is_known cs x
unfolding member class_names is_known any is_category
member-class_names [] x = refl
member-class_names (c ∷ cs) x =
    rw (is_category-is_class c, class_name-api_of c) (ground (arith, member-class_names cs x))

member-add_known :
    (known ss names : List String) (x : String)
    → member x (add_known known ss names) ≡ member x names || (member x ss && member x known)
unfolding add_known member
member-add_known known [] names x = ground arith
member-add_known known (s ∷ ss) names x =
    member-add_known known ss _ x
    ∙ rw member-add_if (elim (Bool-cases (s =ₛ x)) [
      | inl same ↦ rw (same, (eq_iff s x).0 same) (ground arith)
      | inr apart ↦ rw apart (ground arith)
    ])

member-add_known_if :
    (known ss : List String) (b : Bool) (names : List String) (x : String)
    → member x (if b then add_known known ss names else names)
      ≡ member x names || (b && (member x ss && member x known))
member-add_known_if known ss true names x = member-add_known known ss names x
member-add_known_if known ss false names x = ground arith

-- A class or a trigger that refers to that name.
pub referred_in : List OrphanComponent → String → Bool
unfolding any member
referred_in cs x =
    any (λ (c : OrphanComponent). (is_class c || is_trigger c) && member x c.references) cs

member-called_in_references :
    (known : List String) (cs : List OrphanComponent) (names : List String) (x : String)
    → member x (called_in_references known cs names)
      ≡ member x names || (referred_in cs x && member x known)
unfolding called_in_references referred_in any is_category
member-called_in_references known [] names x = ground arith
member-called_in_references known (c ∷ cs) names x =
    member-called_in_references known cs _ x
    ∙ rw (is_category-is_class c, is_category-is_trigger c, member-add_known_if) (ground arith)

-- Whether a name has a caller: where there is a graph, a class of that name has an edge in it from code
-- that calls, dispatches to or triggers it; otherwise a class or a trigger refers to it, and a class of
-- the corpus has it.
pub has_caller : ResolutionInputs → String → Bool
unfolding called_in referred_in is_known
has_caller inputs x = elim inputs.graph [
  | none ↦ referred_in inputs.components x && is_known inputs.components x
  | some g ↦ called_in g inputs.components x
]

called_apex_classes-has_caller :
    (inputs : ResolutionInputs) (x : String)
    → member x (called_apex_classes inputs.components inputs.graph) ≡ has_caller inputs x
unfolding called_apex_classes has_caller member
called_apex_classes-has_caller inputs x = go inputs.graph
  where
    go :
        (o : Option Graph)
        → member x (called_apex_classes inputs.components o) ≡ (elim o [
          | none ↦ referred_in inputs.components x && is_known inputs.components x
          | some g ↦ called_in g inputs.components x
        ])
    go none =
        member-called_in_references (class_names inputs.components) inputs.components [] x
        ∙ rw (member-class_names inputs.components x) refl
    go (some g) = member-called_in_graph g inputs.components [] x

-- A class with a name that has no caller.
abbrev pub uncalled : ResolutionInputs → OrphanComponent → Bool
uncalled inputs c =
    is_class c && (not (api_of c.api_name =ₛ "") && not (has_caller inputs (api_of c.api_name)))

pub is_orphan-uncalled :
    (inputs : ResolutionInputs) (c : OrphanComponent)
    → is_orphan (called_apex_classes inputs.components inputs.graph) c ≡ uncalled inputs c
unfolding is_orphan
is_orphan-uncalled inputs c =
    rw
      (
        is_category-is_class c,
        class_name-api_of c,
        called_apex_classes-has_caller inputs (api_of c.api_name),
      )
      refl
