-- ===== src/Mcp/Quota.antt =====
-- mcp/quota.py: the shares that the processes have of the daily API limit. A weight is counted in a
-- unit that makes all of them whole numbers, and shares are computed exactly, not in floats. No method
-- suspends while it holds the lock or between its test and its charge, so each of them is one step.
pub mod Charges
pub mod Budget
pub mod Refresh
use salesforce.Common.{
  ℕ, ◌+◌, ◌-◌, ◌*◌, ◌/◌, Bool, true, false, Option, none, some, String, List, [], ◌∷◌, ◌==◌, ltb,
  if◌then◌else◌,
}
use salesforce.Common.Dict.{Dict, get, put}
use salesforce.Common.Exec.{Exec, Outcome, ok, raise, continue}

pub record LimitsSnapshot : Type 0 where
  pub daily_api_requests_max : ℕ
  pub daily_api_requests_remaining : ℕ

pub record ProcessAllocation : Type 0 where
  pub process_id : String
  pub weight : ℕ
  pub consumed : ℕ

pub record QuotaAllocator : Type 0 where
  pub snapshot : Option LimitsSnapshot
  pub allocations : Dict ProcessAllocation

pub data QuotaError : Type 0 where
  weight_not_positive : QuotaError
  quota_exhausted : String → ℕ → ℕ → QuotaError
  key_error : String → QuotaError
  call_failed : String → QuotaError

-- A weight below 0 is refused as 0 is.
unfoldable pub register : String → ℕ → Exec QuotaError QuotaAllocator (Unit {0})
register process_id weight q = if weight == 0 then (raise weight_not_positive, q) else (
  ok tt,
  record q {
    allocations =
        put q.allocations process_id
          (record { process_id = process_id; weight = weight; consumed = 0 });
  },
)

-- `refresh`, with what the source of the limits answers.
unfoldable pub refresh : LimitsSnapshot → QuotaAllocator → LimitsSnapshot × QuotaAllocator
refresh snap q = (snap, record q { snapshot = some snap })

unfoldable pub total_weight : Dict ProcessAllocation → ℕ
total_weight [] = 0
total_weight ((p, a) ∷ d) = a.weight + total_weight d

-- `int(remaining * (weight / total_weight))`.
abbrev pub share : ℕ → ℕ → ProcessAllocation → ℕ
share remaining total a = remaining * a.weight / total

remaining_of : Option LimitsSnapshot → Dict ProcessAllocation → Option ProcessAllocation → ℕ
remaining_of none d _ = 0
remaining_of (some snap) d none = 0
remaining_of (some snap) d (some a) =
    share snap.daily_api_requests_remaining (total_weight d) a - a.consumed

unfoldable pub remaining_for : String → QuotaAllocator → ℕ
unfolding remaining_of
remaining_for process_id q = remaining_of q.snapshot q.allocations (get q.allocations process_id)

-- `self._allocations[process_id].consumed += n`.
charge :
    String
    → ℕ
    → QuotaAllocator
    → Option ProcessAllocation
    → Outcome QuotaError (Unit {0}) × QuotaAllocator
charge process_id n q none = (raise (key_error process_id), q)
charge process_id n q (some a) = (
  ok tt,
  record q { allocations = put q.allocations process_id (record a { consumed = a.consumed + n }) },
)

unfoldable pub consume : String → ℕ → Exec QuotaError QuotaAllocator (Unit {0})
unfolding charge
consume process_id n q =
    let remaining = remaining_for process_id q in
    if ltb remaining n
    then (raise (quota_exhausted process_id remaining n), q)
    else charge process_id n q (get q.allocations process_id)

-- `fn()` acts on a world of its own, and may use the allocator too.
unfoldable pub with_budget :
    {W A : Type 0}
    → String
    → Exec QuotaError (QuotaAllocator × W) A
    → ℕ
    → Exec QuotaError (QuotaAllocator × W) A
unfolding consume
with_budget process_id fn cost (q, w) =
    let (r, q') = consume process_id cost q in continue r (λ _. fn) (q', w)
