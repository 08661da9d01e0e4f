-- ===== src/Formula/References/Sorted.antt =====
-- generate/formula/references.py: `sorted(set(names))`.
use salesforce.Common.{
  eq_codes→≡, ◌≡◌, refl, ◌∙◌, Bool, false, ◌||◌, List, [], ◌∷◌, ◌++◌, eq_codes, arith,
}
use salesforce.Formula.{Text}
use salesforce.Formula.References.{insert, sorted_set}

unfoldable pub has : Text → List Text → Bool
unfolding eq_codes
has x [] = false
has x (t ∷ ts) = eq_codes t x || has x ts

pub has-append : (x : Text) (ts us : List Text) → has x (ts ++ us) ≡ has x ts || has x us
unfolding has
has-append x [] us = refl
has-append x (t ∷ ts) us = ground (arith, has-append x ts us)

has-insert : (x t : Text) (ts : List Text) → has x (insert t ts) ≡ eq_codes t x || has x ts
unfolding has insert
has-insert x t [] = refl
has-insert x t (s ∷ ss) = ground (arith, has-insert x t ss, eq_codes→≡ t s)

pub has-sorted_set : (x : Text) (ts : List Text) → has x (sorted_set ts) ≡ has x ts
unfolding has sorted_set
has-sorted_set x [] = refl
has-sorted_set x (t ∷ ts) = has-insert x t (sorted_set ts) ∙ rw (has-sorted_set x ts) refl
