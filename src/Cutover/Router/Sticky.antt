-- ===== src/Cutover/Router/Sticky.antt =====
-- The route of a record (cutover/router.py).
use Prim.Native.String.{◌++◌ as join}
use salesforce.Common.{ℕ, ◌≤◌, ◌<◌, ◌≡◌, String, arith}
use salesforce.Cutover.Router.{to_salesforce, to_runtime, RoutingConfig, bucket, route_for_record}

pub bucket-lt_100 : (digest : String → ℕ) (seed key : String) → bucket digest seed key < 100
unfolding bucket
bucket-lt_100 digest seed key = omega arith

-- A record that goes to the runtime at one stage of a process goes there at every later stage with
-- the same seed.
pub route-sticky :
    (digest : String → ℕ) (a b : RoutingConfig) (record_id : String)
    → a.process_id ≡ b.process_id
    → a.hash_seed ≡ b.hash_seed
    → a.stage_percent ≤ b.stage_percent
    → route_for_record digest a record_id ≡ to_runtime
    → route_for_record digest b record_id ≡ to_runtime
unfolding route_for_record
route-sticky digest a b record_id p s le h = ground arith

-- At 0 percent every record stays on Salesforce, and at 100 every record goes to the runtime.
pub route-ends :
    (digest : String → ℕ) (cfg : RoutingConfig) (record_id : String)
    → (cfg.stage_percent ≡ 0 → route_for_record digest cfg record_id ≡ to_salesforce)
      × (100 ≤ cfg.stage_percent → route_for_record digest cfg record_id ≡ to_runtime)
unfolding route_for_record
route-ends digest cfg record_id = (
  λ h. ground arith,
  λ h.
      ground (arith, bucket-lt_100 digest cfg.hash_seed (join cfg.process_id (join ":" record_id))),
)
