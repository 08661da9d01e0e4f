-- ===== src/Cutover/Routing.antt =====
-- mcp/routing.py: the routing table, in memory and in its Postgres table. The table is what the SQL
-- of the module makes of it: one row for each process, which an upsert replaces.
pub mod Rollback
use salesforce.Common.{ℕ, ◌≡◌, Bool, Option, none, some, String, List, [], ◌∷◌, length}
use salesforce.Common.Dict.{Dict, get, put}
use salesforce.Cutover.Router.{RoutingConfig, Target, to_salesforce, route_for_record}

pub record RoutingTable : Type 0 where
  pub rows : Dict RoutingConfig  -- routing_config
  pub configs : Dict RoutingConfig  -- self._configs

-- `reload`, with the number of configurations that it returns.
unfoldable pub reload : RoutingTable → RoutingTable × ℕ
reload t = (record t { configs = t.rows }, length t.rows)

unfoldable pub get_config : RoutingTable → String → Option RoutingConfig
get_config t process_id = get t.configs process_id

-- `upsert`; `now` is the time that the clock gives where the caller gives none.
unfoldable pub upsert :
    String → ℕ → String → Option ℕ → ℕ → RoutingTable → RoutingConfig × RoutingTable
upsert process_id stage_percent hash_seed entered_stage_at now t =
    let when : ℕ = elim entered_stage_at [ some e ↦ e | none ↦ now ] in
    let cfg : RoutingConfig = record {
      process_id = process_id;
      stage_percent = stage_percent;
      hash_seed = hash_seed;
      entered_stage_at = when;
    } in
    (cfg, record { rows = put t.rows process_id cfg; configs = put t.configs process_id cfg })

unfoldable pub roll_back :
    String → ℕ → RoutingTable → Option RoutingConfig → Option RoutingConfig × RoutingTable
unfolding upsert
roll_back process_id now t none = (none, t)
roll_back process_id now t (some existing) =
    let (cfg, u) = upsert process_id 0 existing.hash_seed none now t in (some cfg, u)

unfoldable pub instant_rollback : String → ℕ → RoutingTable → Option RoutingConfig × RoutingTable
unfolding get_config roll_back
instant_rollback process_id now t = roll_back process_id now t (get_config t process_id)

-- `route`: no configuration means no migration yet.
unfoldable pub route : (String → ℕ) → RoutingTable → String → String → Target
unfolding get_config
route digest t process_id record_id = elim (get_config t process_id) [
  | none ↦ to_salesforce
  | some cfg ↦ route_for_record digest cfg record_id
]

configs_of : Dict RoutingConfig → List RoutingConfig
configs_of [] = []
configs_of ((p, c) ∷ d) = c ∷ configs_of d

pub list_configs : RoutingTable → List RoutingConfig
unfolding configs_of
list_configs t = configs_of t.configs
