-- ===== src/Mcp/Quota/Charges.antt =====
-- What a charge does (`consume` of mcp/quota.py).
use salesforce.Common.{
  ℕ, ◌+◌, ◌-◌, ◌≤◌, ◌≡◌, ◌↔◌, refl, Bool, true, false, Option, none, some, is_some, String, [], ◌∷◌,
  ◌=ₛ◌, arith, inl, inr, Bool-cases, ltb,
}
use salesforce.Common.Dict.{Dict, get, put, get-put_self, get-put_ne}
use salesforce.Common.Exec.{Outcome, ok, raise}
use salesforce.Mcp.Quota.{
  LimitsSnapshot, ProcessAllocation, QuotaAllocator, QuotaError, total_weight, remaining_of,
  remaining_for, charge, consume,
}

abbrev pub succeeded : Outcome QuotaError (Unit {0}) → Bool
succeeded (ok _) = true
succeeded (raise _) = false

-- A charge keeps the weights.
pub total_weight-put :
    (d : Dict ProcessAllocation) (p : String) (a b : ProcessAllocation)
    → get d p ≡ some a
    → b.weight ≡ a.weight
    → total_weight (put d p b) ≡ total_weight d
unfolding total_weight get put
total_weight-put [] p a b h e = ground arith
total_weight-put ((j, c) ∷ d) p a b h e = ground (arith, total_weight-put d p a b)

charged-remaining :
    (s : Option LimitsSnapshot) (d : Dict ProcessAllocation) (p : String) (a : ProcessAllocation)
    (n : ℕ)
    → get d p ≡ some a
    → let b : ProcessAllocation = record a { consumed = a.consumed + n } in
      (remaining_of s (put d p b) (get (put d p b) p) ≡ remaining_of s d (some a) - n)
      × ((other : String)
          → (p =ₛ other) ≡ false
          → remaining_of s (put d p b) (get (put d p b) other) ≡ remaining_of s d (get d other))
unfolding remaining_of
charged-remaining none d p a n e = (ground arith, λ other ne. refl)
charged-remaining (some snap) d p a n e =
    let b : ProcessAllocation = record a { consumed = a.consumed + n } in
    let weights = total_weight-put d p a b e refl in
    (
      rw (get-put_self d p b, weights) (ground arith),
      λ other ne. rw (get-put_ne d p other b ne) (others (get d other) _ weights),
    )
  where
    others :
        (m : Option ProcessAllocation) (d' : Dict ProcessAllocation)
        → total_weight d' ≡ total_weight d
        → remaining_of (some snap) d' m ≡ remaining_of (some snap) d m
    others none d' w = refl
    others (some c) d' w = rw w refl

-- What an attempt to charge a process, with calls left as given, comes to.
abbrev pub Charged :
    String
    → ℕ
    → QuotaAllocator
    → Option ProcessAllocation
    → ℕ
    → Outcome QuotaError (Unit {0})
    → QuotaAllocator
    → Type 0
Charged p n q m remaining r q' =
    ((succeeded r ≡ true) ↔ ((is_some m ≡ true) × (n ≤ remaining)))
    × (succeeded r ≡ false → q' ≡ q)
    × (succeeded r ≡ true
        → (remaining_for p q' ≡ remaining - n)
          × ((other : String)
              → (p =ₛ other) ≡ false
              → remaining_for other q' ≡ remaining_for other q))

charge-Charged :
    (p : String) (n : ℕ) (q : QuotaAllocator) (m : Option ProcessAllocation)
    → get q.allocations p ≡ m
    → n ≤ remaining_of q.snapshot q.allocations m
    → let (r, q') = charge p n q m in Charged p n q m (remaining_of q.snapshot q.allocations m) r q'
unfolding charge remaining_for
charge-Charged p n q none e h =
    ((λ k. ground arith, λ k. ground arith), λ k. refl, λ k. ground arith)
charge-Charged p n q (some a) e h = (
  (λ k. (refl, h), λ k. refl),
  λ k. ground arith,
  λ k. charged-remaining q.snapshot q.allocations p a n e,
)

-- A charge goes through exactly when the process is registered and has at least as many calls left.
-- Then it has that many fewer, and every other process has as many as before. A refused charge
-- changes nothing.
pub consume-Charged :
    (p : String) (n : ℕ) (q : QuotaAllocator)
    → let (r, q') = consume p n q in Charged p n q (get q.allocations p) (remaining_for p q) r q'
unfolding consume remaining_for
consume-Charged p n q = elim (Bool-cases (ltb (remaining_for p q) n)) [
  | inl short ↦ rw short ((λ h. ground arith, λ h. ground arith), λ h. refl, λ h. ground arith)
  | inr enough ↦ rw enough (charge-Charged p n q (get q.allocations p) refl (ground arith))
]
