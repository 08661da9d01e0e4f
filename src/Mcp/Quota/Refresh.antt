-- ===== src/Mcp/Quota/Refresh.antt =====
-- What a new reading of the limits does to the calls that were counted (mcp/quota.py).
use native.Mathlib.Nat.{mul-div_cancel}
use salesforce.Common.{
  ℕ, ◌+◌, ◌-◌, ◌*◌, ◌/◌, ◌≤◌, ◌<◌, ◌≡◌, ap, ◌∙◌, false, some, String, [], ◌∷◌, eq_refl, arith, ltb,
}
use salesforce.Common.Dict.{get, put}
use salesforce.Mcp.Quota.{
  LimitsSnapshot, ProcessAllocation, QuotaAllocator, total_weight, remaining_of, remaining_for,
  charge, consume, refresh,
}

-- The allocator of one process.
abbrev pub alone : String → ProcessAllocation → LimitsSnapshot → QuotaAllocator
alone p a snap = record { snapshot = some snap; allocations = (p, a) ∷ [] }

remaining-alone :
    (p : String) (a : ProcessAllocation) (snap : LimitsSnapshot)
    → 0 < a.weight
    → remaining_for p (alone p a snap) ≡ snap.daily_api_requests_remaining - a.consumed
unfolding remaining_for remaining_of total_weight get
remaining-alone p a snap h = rw (eq_refl p) (
    ap (λ t. snap.daily_api_requests_remaining * a.weight / t - a.consumed) (omega arith)
    ∙ ap (λ t. t - a.consumed) (mul-div_cancel snap.daily_api_requests_remaining h))

-- A refresh keeps what the processes have used, though the new reading of the limits has taken it off
-- already: a single process with a positive weight, which makes no more calls than it has left and then
-- reads the limits, finds them taken off its share twice.
pub refresh_counts_twice :
    (p : String) (a : ProcessAllocation) (snap : LimitsSnapshot) (n : ℕ)
    → 0 < a.weight
    → n + a.consumed ≤ snap.daily_api_requests_remaining
    → let q = (consume p n (alone p a snap)).1 in
      let later : LimitsSnapshot = record snap {
        daily_api_requests_remaining = snap.daily_api_requests_remaining - n;
      } in
      remaining_for p (refresh later q).1 ≡ snap.daily_api_requests_remaining - n - (a.consumed + n)
unfolding consume charge refresh
refresh_counts_twice p a snap n h room =
    let later : LimitsSnapshot = record snap {
      daily_api_requests_remaining = snap.daily_api_requests_remaining - n;
    } in
    let fits : ltb (remaining_for p (alone p a snap)) n ≡ false =
      rw (remaining-alone p a snap h) (ground arith) in
    rw fits (
      unfold get put in
      rw (eq_refl p)
        (rw (eq_refl p) (remaining-alone p (record a { consumed = a.consumed + n }) later h)))
