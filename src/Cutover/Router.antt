-- ===== src/Cutover/Router.antt =====
-- cutover/router.py: the bucket of a record, the stages and their dwell times. Times are counted in
-- microseconds since the epoch of `datetime`; the digest of blake2b is an argument.
pub mod Stages
pub mod Sticky
use Prim.Native.String.{◌++◌ as join}
use salesforce.Common.{
  ℕ, ◌+◌, ◌-◌, ◌*◌, ◌%◌, Bool, Option, none, some, String, List, [], ◌∷◌, ◌==◌, ltb, leb,
  if◌then◌else◌,
}

pub data Target : Type 0 where
  to_salesforce to_runtime : Target

-- `STAGE_PERCENTS`.
abbrev pub stage_percents : List ℕ
stage_percents = 0 ∷ 1 ∷ 5 ∷ 25 ∷ 50 ∷ 100 ∷ []

hour : ℕ
hour = 3600000000

-- `_DEFAULT_DWELL.get(stage, timedelta(0))`.
pub default_dwell : ℕ → ℕ
unfolding hour
default_dwell stage =
    if stage == 1
    then 48 * hour
    else if stage == 5
    then 24 * hour
    else if stage == 25
    then 12 * hour
    else if stage == 50
    then 6 * hour
    else 0

pub record RoutingConfig : Type 0 where
  pub process_id : String
  pub stage_percent : ℕ
  pub hash_seed : String
  pub entered_stage_at : ℕ

-- `max(timedelta(0), dwell - (now - entered))`: subtraction on ℕ stops at 0.
unfoldable pub dwell_remaining : RoutingConfig → ℕ → ℕ
unfolding default_dwell
dwell_remaining cfg now = default_dwell cfg.stage_percent + cfg.entered_stage_at - now

unfoldable pub dwell_complete : RoutingConfig → ℕ → Bool
unfolding dwell_remaining
dwell_complete cfg now = dwell_remaining cfg now == 0

-- `_bucket`: the first eight bytes of the digest, as a number.
unfoldable pub bucket : (String → ℕ) → String → String → ℕ
bucket digest seed key = digest (join seed (join ":" key)) % 100

unfoldable pub route_for_record : (String → ℕ) → RoutingConfig → String → Target
route_for_record digest cfg record_id =
    let b = bucket digest cfg.hash_seed (join cfg.process_id (join ":" record_id)) in
    if ltb b cfg.stage_percent then to_runtime else to_salesforce

-- The loop of `next_stage`: the stage after the current one, if it is a stage with a next one.
stage_after : List ℕ → ℕ → Option ℕ
stage_after [] current = none
stage_after (s ∷ []) current = none
stage_after (s ∷ t ∷ rest) current =
    let further = stage_after (t ∷ rest) current in if s == current then some t else further

unfoldable pub next_stage : ℕ → Option ℕ
unfolding stage_after
next_stage current =
    if leb 100 current
    then none
    else elim (stage_after stage_percents current) [ some t ↦ some t | none ↦ some 1 ]

-- The loop of `previous_stage`.
stage_before : List ℕ → ℕ → Option ℕ
stage_before [] current = none
stage_before (s ∷ []) current = none
stage_before (s ∷ t ∷ rest) current =
    let further = stage_before (t ∷ rest) current in if t == current then some s else further

unfoldable pub previous_stage : ℕ → ℕ
unfolding stage_before
previous_stage current =
    if leb current 0
    then 0
    else elim (stage_before stage_percents current) [ some s ↦ s | none ↦ 0 ]
