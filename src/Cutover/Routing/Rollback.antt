-- ===== src/Cutover/Routing/Rollback.antt =====
-- What the routing table promises (mcp/routing.py).
use salesforce.Common.{
  ℕ, ◌≡◌, refl, sym, ap, ◌∙◌, false, Option, none, some, String, ◌=ₛ◌, if◌then◌else◌,
}
use salesforce.Common.Dict.{get, put, get-put, get-put_self, get-put_ne}
use salesforce.Cutover.Router.{RoutingConfig, to_salesforce}
use salesforce.Cutover.Router.Sticky.{route-ends}
use salesforce.Cutover.Routing.{
  RoutingTable, reload, get_config, upsert, roll_back, instant_rollback, route,
}

-- What the memory holds of every process is what Postgres holds.
abbrev pub IsCoherent : RoutingTable → Type 0
IsCoherent t = (p : String) → get t.configs p ≡ get t.rows p

-- The memory and Postgres agree after a reload, and an upsert or an instant rollback of a table
-- that agrees leaves one that agrees; after an upsert both hold the new configuration of its process,
-- and every other process has the one that it had.
pub routing-IsCoherent :
    (t : RoutingTable) (p : String) (stage : ℕ) (seed : String) (entered : Option ℕ) (now : ℕ)
    → let (cfg, u) = upsert p stage seed entered now t in
      IsCoherent (reload t).0
      × (IsCoherent t → IsCoherent u × IsCoherent (instant_rollback p now t).1)
      × (get_config u p ≡ some cfg)
      × ((q : String) → (p =ₛ q) ≡ false → get_config u q ≡ get_config t q)
unfolding upsert reload get_config instant_rollback
routing-IsCoherent t p stage seed entered now = (
  λ q. refl,
  λ h. (put-coherent t h p _, rollback-coherent t h p now),
  get-put_self t.configs p _,
  λ q ne. get-put_ne t.configs p q _ ne,
)
  where
    put-coherent :
        (u : RoutingTable)
        → IsCoherent u
        → (k : String) (c : RoutingConfig) → (q : String)
        → get (put u.configs k c) q ≡ get (put u.rows k c) q
    put-coherent u h k c q =
        get-put u.configs k q c
        ∙ ap (λ (o : Option RoutingConfig). if k =ₛ q then some c else o) (h q)
        ∙ sym (get-put u.rows k q c)

    rollback-coherent :
        (u : RoutingTable)
        → IsCoherent u
        → (k : String) (n : ℕ) → IsCoherent (instant_rollback k n u).1
    rollback-coherent u h k n = go (get u.configs k)
      where
        go : (o : Option RoutingConfig) → IsCoherent (roll_back k n u o).1
        go none = h
        go (some c) = put-coherent u h k _

-- After an instant rollback of a process that has a configuration, every record of the process goes
-- to Salesforce, with the seed and the stage of every other process as they were, and the rollback
-- answers with the new configuration, at 0 percent; without a configuration it changes nothing.
pub instant_rollback-routes :
    (digest : String → ℕ) (t : RoutingTable) (p : String) (now : ℕ)
    → let (answer, u) = instant_rollback p now t in
      ((record_id : String) → route digest u p record_id ≡ to_salesforce)
      × ((q record_id : String)
          → (p =ₛ q) ≡ false
          → route digest u q record_id ≡ route digest t q record_id)
      × (answer ≡ get_config u p)
      × (get_config t p ≡ none → u ≡ t)
unfolding instant_rollback route get_config roll_back upsert
instant_rollback-routes digest t p now = go (get t.configs p) refl
  where
    go :
        (o : Option RoutingConfig)
        → get t.configs p ≡ o
        → let (answer, u) = roll_back p now t o in
          ((record_id : String) → route digest u p record_id ≡ to_salesforce)
          × ((q record_id : String)
              → (p =ₛ q) ≡ false
              → route digest u q record_id ≡ route digest t q record_id)
          × (answer ≡ get_config u p)
          × (o ≡ none → u ≡ t)
    go none e = (λ r. rw (e, route) refl, λ q r ne. refl, sym e, λ h. refl)
    go (some c) e = (
      λ r. rw (get-put_self t.configs p _, route) ((route-ends digest _ r).0 refl),
      λ q r ne. rw (get-put_ne t.configs p q _ ne, route) refl,
      sym (get-put_self t.configs p _),
      λ h. cc,
    )
