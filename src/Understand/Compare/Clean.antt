-- ===== src/Understand/Compare/Clean.antt =====
-- understand/compare.py: what a clean report says of the two views.
use salesforce.Common.{
  String, Option, none, some, ◌=ₛ◌, member, ◌≡◌, refl, sym, subst, ap, ◌∙◌, Bool, true, false, not,
  ◌&&◌, ◌||◌, List, [], ◌∷◌, keep, any, map, is_nonempty, arith, eq_iff, Bool-cases, inl, inr,
}
use Prim.Native.String.{◌++◌ as join}
use salesforce.Common.Dict.{Dict, get}
use salesforce.Understand.Compare.View.{
  shown, or_else, Key, Edge, same_key, same_edge, le_key, le_edge, insert, sorted, has, minus, both,
  View, edges_of,
}
use salesforce.Understand.Compare.Diff.{
  process_hash, significant, clean, is_schema, split_edges, compare_processes, process_key,
  compare_component, compare_views,
}

module _ {A : Type 0} (le : A → A → Bool) (p : A → Bool) where
  any-insert : (x : A) (xs : List A) → any p (insert le x xs) ≡ p x || any p xs
  unfolding any insert
  any-insert x [] = refl
  any-insert x (y ∷ ys) = ground (arith, any-insert x ys)

  any-sorted : (xs : List A) → any p (sorted le xs) ≡ any p xs
  unfolding any sorted
  any-sorted [] = refl
  any-sorted (x ∷ xs) = any-insert x (sorted le xs) ∙ rw (any-sorted xs) refl

module _ {A : Type 0} (p q : A → Bool) where
  any-keep : (xs : List A) → any p (keep q xs) ≡ any (λ x. q x && p x) xs
  unfolding any keep
  any-keep [] = refl
  any-keep (x ∷ xs) = ground (arith, any-keep xs)

-- A test that no member passes, at a member.
any-false :
    {A : Type 0} (same : A → A → Bool) (p : A → Bool) (x : A) (xs : List A)
    → ((y : A) → same y x ≡ true → y ≡ x)
    → any p xs ≡ false
    → has same x xs ≡ true
    → p x ≡ false
unfolding any has
any-false same p x [] e h m = cc
any-false same p x (y ∷ ys) e h m = elim (Bool-cases (same y x)) [
  | inl s ↦ let j : y ≡ x = e y s in ground (arith, ap p j)
  | inr s ↦ any-false same p x ys e (ground arith) (ground arith)
]

is_nonempty-any : {A : Type 0} (xs : List A) → is_nonempty xs ≡ any (λ x. true) xs
unfolding any
is_nonempty-any [] = refl
is_nonempty-any (x ∷ xs) = refl

split_edges-any :
    (es : List Edge) → is_nonempty (split_edges es).1 ≡ any (λ e. not (is_schema e)) es
unfolding split_edges any
split_edges-any [] = refl
split_edges-any (e ∷ es) = ground (arith, split_edges-any es)

same_key→≡ : (k j : Key) → same_key k j ≡ true → k ≡ j
same_key→≡ (a, b) (c, d) h =
    let p : a ≡ c = (eq_iff a c).0 (ground arith) in
    let q : b ≡ d = (eq_iff b d).0 (ground arith) in rw (p, q) refl

same_edge→≡ : (e f : Edge) → same_edge e f ≡ true → e ≡ f
same_edge→≡ (a, b, c) (x, y, z) h =
    let p : a ≡ x = (eq_iff a x).0 (ground arith) in
    let q : b ≡ y = (eq_iff b y).0 (ground arith) in
    let r : c ≡ z = (eq_iff c z).0 (ground arith) in rw (p, q, r) refl

-- A member of the first set that the difference does not list is one of the second.
minus-has :
    {A : Type 0} (same : A → A → Bool) (p : A → Bool) (x : A) (xs ys : List A)
    → ((y : A) → same y x ≡ true → y ≡ x)
    → any p (minus same xs ys) ≡ false
    → p x ≡ true
    → has same x xs ≡ true
    → has same x ys ≡ true
unfolding minus
minus-has same p x xs ys e h g m =
    let off =
      any-false same (λ y. not (has same y ys) && p y) x xs e (sym (any-keep p _ xs) ∙ h) m in
    ground (arith, off)

Bool-both : (a b : Bool) → (a ≡ true → b ≡ true) → (b ≡ true → a ≡ true) → a ≡ b
Bool-both true true f g = refl
Bool-both true false f g = sym (f refl)
Bool-both false true f g = g refl
Bool-both false false f g = refl

any-map :
    {A B : Type 0} (f : A → B) (p : B → Bool) (xs : List A)
    → any p (map f xs) ≡ any (λ x. p (f x)) xs
unfolding any
any-map f p [] = refl
any-map f p (x ∷ xs) = ground (arith, any-map f p xs)

both-has :
    {A : Type 0} (same : A → A → Bool) (p : A → Bool) (x : A) (xs ys : List A)
    → ((y : A) → same y x ≡ true → y ≡ x)
    → any p (both same xs ys) ≡ false
    → has same x xs ≡ true
    → has same x ys ≡ true
    → p x ≡ false
unfolding both
both-has same p x xs ys e h m n =
    let off = any-false same (λ y. has same y ys && p y) x xs e (sym (any-keep p _ xs) ∙ h) m in
    ground (arith, off)

-- No member of a sorted difference.
sorted-empty :
    {A : Type 0} (le : A → A → Bool) (xs : List A)
    → is_nonempty (sorted le xs) ≡ false
    → any (λ x. true) xs ≡ false
sorted-empty le xs h = sym (any-sorted le (λ x. true) xs) ∙ sym (is_nonempty-any (sorted le xs)) ∙ h

-- An insignificant comparison of a component.
insignificant :
    (a b : View) (k : Key)
    → significant (compare_component a b k) ≡ false
    → (any (λ e. not (is_schema e)) (minus same_edge (edges_of k a.edges) (edges_of k b.edges))
        ≡ false)
      × (any (λ e. not (is_schema e)) (minus same_edge (edges_of k b.edges) (edges_of k a.edges))
          ≡ false)
      × ((compare_processes (get a.processes (process_key k)) (get b.processes (process_key k))).0
          ≡ false)
unfolding significant compare_component
insignificant a b k h = (listed _ (ground arith), listed _ (ground arith), ground arith)
  where
    listed :
        (es : List Edge)
        → is_nonempty (split_edges (sorted le_edge es)).1 ≡ false
        → any (λ e. not (is_schema e)) es ≡ false
    listed es g = sym (any-sorted le_edge _ es) ∙ sym (split_edges-any (sorted le_edge es)) ∙ g

-- A node of the schema, and the text of a key that may be missing, as the empty one.
abbrev pub of_schema : Edge → Bool
of_schema e = "object" =ₛ e.0 || ("field" =ₛ e.0 || "record_type" =ₛ e.0)

abbrev pub or_blank : Option String → String
or_blank none = ""
or_blank (some s) = s

is_schema-of_schema : (e : Edge) → is_schema e ≡ of_schema e
unfolding is_schema member
is_schema-of_schema e = ground arith

process_hash-or_blank : (p : Dict String) → process_hash p ≡ or_blank (get p "id")
unfolding process_hash
process_hash-or_blank p = go (get p "id")
  where
    go : (o : Option String) → shown (or_else o (some "")) ≡ or_blank o
    go none = refl
    go (some s) = elim (Bool-cases (s =ₛ "")) [
      | inl blank ↦ rw (blank, (eq_iff s "").0 blank) refl
      | inr there ↦ rw there refl
    ]

-- What two views agree on at a component: its edges to nodes that are no part of the schema, and its
-- process.
pub Agree : View → View → Key → Type 0
Agree a b k =
    ((e : Edge)
      → of_schema e ≡ false
      → has same_edge e (edges_of k a.edges) ≡ has same_edge e (edges_of k b.edges))
    × ((p q : Dict String)
        → get a.processes (join k.0 (join "." k.1)) ≡ some p
        → get b.processes (join k.0 (join "." k.1)) ≡ some q
        → is_nonempty p ≡ true
        → is_nonempty q ≡ true
        → or_blank (get p "id") ≡ or_blank (get q "id"))

compare_processes-agree :
    (p q : Dict String)
    → (compare_processes (some p) (some q)).0 ≡ false
    → is_nonempty p ≡ true
    → is_nonempty q ≡ true
    → or_blank (get p "id") ≡ or_blank (get q "id")
unfolding compare_processes
compare_processes-agree p q h m n =
    sym (process_hash-or_blank p)
    ∙ (eq_iff (process_hash p) (process_hash q)).0 (ground (arith, h, m, n))
    ∙ process_hash-or_blank q

insignificant-Agree :
    (a b : View) (k : Key) → significant (compare_component a b k) ≡ false → Agree a b k
unfolding Agree process_key
insignificant-Agree a b k h =
    let (in_a, in_b, process) = insignificant a b k h in
    (
      (λ e schema.
          Bool-both _ _
            (minus-has same_edge (λ f. not (is_schema f)) e _ _ (λ f. same_edge→≡ f e) in_a
              (rw (is_schema-of_schema e, schema) refl))
            (minus-has same_edge (λ f. not (is_schema f)) e _ _ (λ f. same_edge→≡ f e) in_b
              (rw (is_schema-of_schema e, schema) refl))),
      λ p q in_p in_q m n.
          compare_processes-agree p q
            (subst (λ o. (compare_processes o (some q)).0 ≡ false) in_p
              (subst (λ o. (compare_processes (get a.processes (process_key k)) o).0 ≡ false) in_q
                process))
            m n,
    )

-- A clean report of two whole extracts says that they have the same components, and that they agree at
-- every one of them: the same edges to nodes that are no part of the schema, and the same hash, a missing
-- one being empty, wherever both have a process that is not empty.
pub clean-Agree :
    (a b : View) (k : Key)
    → clean (compare_views false a b) ≡ true
    → (has same_key k a.components ≡ has same_key k b.components)
      × (has same_key k a.components ≡ true → Agree a b k)
unfolding clean compare_views
clean-Agree a b k h = (same, λ m. insignificant-Agree a b k (agreed m))
  where
    in_b : has same_key k a.components ≡ true → has same_key k b.components ≡ true
    in_b =
        minus-has same_key (λ j. true) k _ _ (λ j. same_key→≡ j k)
          (sorted-empty le_key (minus same_key a.components b.components) (ground arith)) refl

    in_a : has same_key k b.components ≡ true → has same_key k a.components ≡ true
    in_a =
        minus-has same_key (λ j. true) k _ _ (λ j. same_key→≡ j k)
          (sorted-empty le_key (minus same_key b.components a.components) (ground arith)) refl

    same : has same_key k a.components ≡ has same_key k b.components
    same = Bool-both _ _ in_b in_a

    agreed : has same_key k a.components ≡ true → significant (compare_component a b k) ≡ false
    agreed m =
        both-has same_key (λ j. significant (compare_component a b j)) k a.components b.components
          (λ j. same_key→≡ j k)
          (sym (any-sorted le_key _ (both same_key a.components b.components))
            ∙ sym (
                any-map (compare_component a b) significant
                  (sorted le_key (both same_key a.components b.components)))
            ∙ ground arith)
          m (in_b m)
