-- ===== src/Reconcile/Batch/Split.antt =====
-- How a batch is cut into chunks (`resync_batch` of validate/reconcile/resync.py).
use salesforce.Common.{
  ℕ, zero, suc, ◌≤◌, ◌<◌, ◌≡◌, refl, ap, ◌∙◌, String, List, [], ◌∷◌, ◌++◌, length, arith,
}
use salesforce.Reconcile.Batch.{take, drop, chunks}

unfoldable pub joined : List (List String) → List String
joined [] = []
joined (c ∷ cs) = c ++ joined cs

-- Every chunk has an id, and at most as many as a query takes.
abbrev pub Fits : ℕ → List (List String) → Type 0
Fits size [] = Unit
Fits size (c ∷ cs) = (0 < length c) × (length c ≤ size) × Fits size cs

take-drop : (n : ℕ) (xs : List String) → take n xs ++ drop n xs ≡ xs
unfolding take drop
take-drop n [] = refl
take-drop zero (x ∷ xs) = refl
take-drop (suc n) (x ∷ xs) = ap (λ rest. x ∷ rest) (take-drop n xs)

length-take : (n : ℕ) (xs : List String) → length (take n xs) ≤ n
unfolding take
length-take n [] = omega arith
length-take zero (x ∷ xs) = omega arith
length-take (suc n) (x ∷ xs) = omega (arith, length-take n xs)

length-drop : (n : ℕ) (xs : List String) → length (drop n xs) ≤ length xs
unfolding drop
length-drop n [] = omega arith
length-drop zero (x ∷ xs) = omega arith
length-drop (suc n) (x ∷ xs) = omega (arith, length-drop n xs)

-- With the length of the list as fuel, or more, the chunks of a list joined are the list, each has at
-- least one id, and none has more than the batch size, which is at least 1.
pub chunks-joined :
    (fuel n : ℕ) (ids : List String)
    → length ids ≤ fuel
    → (joined (chunks fuel (suc n) ids) ≡ ids) × Fits (suc n) (chunks fuel (suc n) ids)
unfolding joined chunks
chunks-joined zero n [] h = (refl, tt)
chunks-joined zero n (x ∷ xs) h = ground arith
chunks-joined (suc fuel) n [] h = (refl, tt)
chunks-joined (suc fuel) n (x ∷ xs) h =
    let rest =
      chunks-joined fuel n (drop (suc n) (x ∷ xs))
        (unfold drop in omega (arith, h, length-drop n xs)) in
    (
      ap (λ ys. take (suc n) (x ∷ xs) ++ ys) rest.0 ∙ take-drop (suc n) (x ∷ xs),
      (unfold take in omega arith, length-take (suc n) (x ∷ xs), rest.1),
    )
