-- ===== src/Mcp/Quota/Budget.antt =====
-- The budget of the organisation (mcp/quota.py).
use native.Mathlib.Nat.{mul-div-le, mul-le-mul_left, le_of_mul-le-mul_left}
use salesforce.Common.{
  ℕ, ◌+◌, ◌-◌, ◌*◌, ◌≤◌, ◌<◌, ◌≡◌, refl, ap, subst, ◌∙◌, Option, none, some, String, List, [], ◌∷◌,
  ◌=ₛ◌, arith, inl, inr, Bool-cases, ltb,
}
use salesforce.Common.Dict.{Dict, get, put}
use salesforce.Mcp.Quota.{
  LimitsSnapshot, ProcessAllocation, QuotaAllocator, total_weight, share, remaining_of,
  remaining_for, charge, consume,
}
use salesforce.Mcp.Quota.Charges.{total_weight-put}

unfoldable pub total_consumed : Dict ProcessAllocation → ℕ
total_consumed [] = 0
total_consumed ((p, a) ∷ d) = a.consumed + total_consumed d

-- No process has used more than its share.
unfoldable Within : ℕ → ℕ → Dict ProcessAllocation → Type 0
Within remaining total [] = Unit
Within remaining total ((p, a) ∷ d) =
    (a.consumed ≤ share remaining total a) × Within remaining total d

Within-total_consumed :
    (remaining total : ℕ) (d : Dict ProcessAllocation)
    → Within remaining total d
    → total * total_consumed d ≤ remaining * total_weight d
unfolding Within total_consumed total_weight
Within-total_consumed remaining total [] h = ground arith
Within-total_consumed remaining total ((p, a) ∷ d) (h, hs) = omega (
  arith,
  mul-le-mul_left total h,
  mul-div-le (remaining * a.weight) total,
  Within-total_consumed remaining total d hs,
)

Within-put :
    (remaining total : ℕ) (d : Dict ProcessAllocation) (p : String) (a : ProcessAllocation) (n : ℕ)
    → get d p ≡ some a
    → n ≤ share remaining total a - a.consumed
    → Within remaining total d
    → Within remaining total (put d p (record a { consumed = a.consumed + n }))
unfolding Within get put
Within-put remaining total [] p a n e h w = ground arith
Within-put remaining total ((j, c) ∷ d) p a n e h (w, ws) = elim (Bool-cases (j =ₛ p)) [
  | inl same ↦ rw same (ground (arith, e, same, w, h), ws)
  | inr other ↦ rw other (w, Within-put remaining total d p a n (ground (arith, e, other)) h ws)
]

Within-fresh :
    (remaining total : ℕ) (d : Dict ProcessAllocation)
    → total_consumed d ≡ 0
    → Within remaining total d
unfolding Within total_consumed
Within-fresh remaining total [] h = tt
Within-fresh remaining total ((p, a) ∷ d) h =
    (ground (arith, h), Within-fresh remaining total d (ground (arith, h)))

-- The invariant of the charges that follow a reading of the limits.
abbrev IsKept : LimitsSnapshot → ℕ → QuotaAllocator → Type 0
IsKept snap total q =
    (q.snapshot ≡ some snap)
    × (total_weight q.allocations ≡ total)
    × Within snap.daily_api_requests_remaining total q.allocations

charge-IsKept :
    (p : String) (n : ℕ) (snap : LimitsSnapshot) (total : ℕ) (q : QuotaAllocator)
    → IsKept snap total q
    → (m : Option ProcessAllocation) → get q.allocations p ≡ m
    → n ≤ remaining_of q.snapshot q.allocations m
    → IsKept snap total (charge p n q m).1
unfolding charge remaining_of
charge-IsKept p n snap total q k none e h = k
charge-IsKept p n snap total q (s, w, k) (some a) e h = (
  s,
  total_weight-put q.allocations p a _ e refl ∙ w,
  Within-put snap.daily_api_requests_remaining total q.allocations p a n e
      (subst (λ t. n ≤ share snap.daily_api_requests_remaining t a - a.consumed) w
        (subst (λ m. n ≤ remaining_of m q.allocations (some a)) s h))
      k,
)

consume-IsKept :
    (p : String) (n : ℕ) (snap : LimitsSnapshot) (total : ℕ) (q : QuotaAllocator)
    → IsKept snap total q
    → IsKept snap total (consume p n q).1
unfolding consume remaining_for
consume-IsKept p n snap total q k = elim (Bool-cases (ltb (remaining_for p q) n)) [
  | inl short ↦ rw short k
  | inr enough ↦
      rw enough (charge-IsKept p n snap total q k (get q.allocations p) refl (ground arith))
]

-- The allocator after a sequence of attempts to charge.
unfoldable pub consume_all : List (String × ℕ) → QuotaAllocator → QuotaAllocator
consume_all [] q = q
consume_all ((p, n) ∷ calls) q = consume_all calls (consume p n q).1

consume_all-IsKept :
    (calls : List (String × ℕ)) (snap : LimitsSnapshot) (total : ℕ) (q : QuotaAllocator)
    → IsKept snap total q
    → IsKept snap total (consume_all calls q)
unfolding consume_all
consume_all-IsKept [] snap total q k = k
consume_all-IsKept ((p, n) ∷ calls) snap total q k =
    consume_all-IsKept calls snap total (consume p n q).1 (consume-IsKept p n snap total q k)

-- After a reading of the limits, from processes that have used nothing and whose weights are not all
-- zero, no sequence of charges, by any
-- processes and whether they go through or not, makes the processes use together more than what the
-- organisation had left.
pub consumed_within_budget :
    (snap : LimitsSnapshot) (q : QuotaAllocator) (calls : List (String × ℕ))
    → q.snapshot ≡ some snap
    → 0 < total_weight q.allocations
    → total_consumed q.allocations ≡ 0
    → total_consumed (consume_all calls q).allocations ≤ snap.daily_api_requests_remaining
consumed_within_budget snap q calls s positive fresh =
    let total = total_weight q.allocations in
    let end = consume_all calls q in
    let (_, w, within) =
      consume_all-IsKept calls snap total q
        (s, refl, Within-fresh snap.daily_api_requests_remaining total q.allocations fresh) in
    let bound =
      Within-total_consumed snap.daily_api_requests_remaining total end.allocations within in
    le_of_mul-le-mul_left {k = total}
      (omega (arith, bound, ap (λ t. snap.daily_api_requests_remaining * t) w)) positive
