-- ===== src/Samples/Quotas.antt =====
-- Rules, and the quota of two processes.
use salesforce.Common.{
  ℕ, ◌≤◌, ◌<◌, ◌≡◌, refl, arith, true, some, String, List, [], ◌∷◌, is_nonempty,
}
use salesforce.Common.Dict.{get}
use salesforce.Value.{is_null}
use salesforce.Rules.{is_validation, evaluate}
use salesforce.Mcp.Quota.{
  LimitsSnapshot, ProcessAllocation, QuotaAllocator, consume, refresh, remaining_for, total_weight,
}
use salesforce.Mcp.Quota.Charges.{Charged, consume-Charged}
use salesforce.Mcp.Quota.Budget.{total_consumed, consume_all, consumed_within_budget}
use salesforce.Mcp.Quota.Refresh.{alone, refresh_counts_twice}
use salesforce.Samples.{rate, account}

rate_writes : is_nonempty (evaluate rate account []).field_mutations ≡ true
unfolding evaluate is_null is_validation
rate_writes = refl

abbrev limits : LimitsSnapshot
limits = record { daily_api_requests_max = 1000; daily_api_requests_remaining = 100 }

abbrev share_of : String → ℕ → ProcessAllocation
share_of p w = record { process_id = p; weight = w; consumed = 0 }

abbrev two_processes : QuotaAllocator
two_processes = record {
  snapshot = some limits;
  allocations = ("a", share_of "a" 1) ∷ ("b", share_of "b" 2) ∷ [];
}

consume-Charged_example :
    let (r, q') = consume "b" 60 two_processes in
    Charged "b" 60 two_processes
      (get two_processes.allocations "b")
      (remaining_for "b" two_processes)
      r
      q'
consume-Charged_example = consume-Charged "b" 60 two_processes

abbrev calls : List (String × ℕ)
calls = ("a", 30) ∷ ("b", 60) ∷ ("a", 30) ∷ ("c", 1) ∷ []

positive : 0 < total_weight two_processes.allocations
unfolding total_weight
positive = omega arith

unused : total_consumed two_processes.allocations ≡ 0
unfolding total_consumed
unused = refl

consumed_within_budget_example :
    total_consumed (consume_all calls two_processes).allocations
    ≤ limits.daily_api_requests_remaining
consumed_within_budget_example =
    consumed_within_budget limits two_processes calls refl positive unused

refresh_counts_twice_example :
    let q = (consume "a" 30 (alone "a" (share_of "a" 2) limits)).1 in
    let later : LimitsSnapshot = record limits { daily_api_requests_remaining = 70 } in
    remaining_for "a" (refresh later q).1 ≡ 40
refresh_counts_twice_example =
    refresh_counts_twice "a" (share_of "a" 2) limits 30 (omega arith) (omega arith)
