-- ===== src/Cutover/Monitor/Alerts.antt =====
-- When a process that was cut over is reported and rolled back
-- (`check` of cutover/post_cutover_monitor.py).
use salesforce.Common.{
  ℕ, ◌≡◌, ◌≤◌, ◌<◌, ◌↔◌, refl, sym, ◌∙◌, true, false, Option, none, some, is_some, String, List, [],
  ◌∷◌, ◌++◌, ◌=ₛ◌, arith, inl, inr, Bool-cases, ltb, leb,
}
use salesforce.Cutover.Router.{RoutingConfig, to_salesforce}
use salesforce.Cutover.Routing.{get_config, route}
use salesforce.Cutover.Routing.Rollback.{instant_rollback-routes}
use salesforce.Cutover.Readiness.{ReadinessEvent, score_process}
use salesforce.Cutover.Apply.{CutoverState, StageTransition, anchor_stage_transition}
use salesforce.Cutover.Monitor.{PostCutoverMonitor, roll_back_now, check_cfg, check}

-- A process has regressed: it is at 100 percent, and its score is below the threshold.
abbrev pub Regressed : PostCutoverMonitor → List ReadinessEvent → String → ℕ → CutoverState → Type 0
Regressed m events p now c =
    (cfg : RoutingConfig) × (get_config c.table p ≡ some cfg)
    × (100 ≤ cfg.stage_percent)
    × ((score_process m.scorer events p now).score < m.regression_threshold)

-- The end of a check that raises an alert.
abbrev pub AfterAlert :
    (String → ℕ) → PostCutoverMonitor → String → CutoverState → CutoverState → Type 0
AfterAlert digest m p c c' =
    (m.auto_rollback ≡ false → c' ≡ c)
    × (m.auto_rollback ≡ true
        → ((record_id : String) → route digest c'.table p record_id ≡ to_salesforce)
          × ((q record_id : String)
              → (p =ₛ q) ≡ false
              → route digest c'.table q record_id ≡ route digest c.table q record_id)
          × ((t : StageTransition) × (c'.anchors ≡ c.anchors ++ t ∷ t ∷ [])
              × (t.process_id ≡ p)
              × (t.to_percent ≡ 0)))

roll_back_now-AfterAlert :
    (digest : String → ℕ) (m : PostCutoverMonitor) (events : List ReadinessEvent) (p : String)
    (now : ℕ) (c : CutoverState)
    → AfterAlert digest m p c (roll_back_now m p (score_process m.scorer events p now) now c)
unfolding roll_back_now anchor_stage_transition
roll_back_now-AfterAlert digest m events p now c =
    let (to_sf, others, _, _) = instant_rollback-routes digest c.table p now in
    elim (Bool-cases m.auto_rollback) [
      | inl auto ↦ rw auto (λ no. ground arith, λ yes. (to_sf, others, (_, refl, refl, refl)))
      | inr manual ↦ rw manual (λ no. refl, λ yes. ground arith)
    ]

-- A check raises an alert exactly when the process has regressed. Without an alert nothing changes.
-- With one, a monitor that does not roll back by itself changes nothing either, and one that does
-- sends every record of the process to Salesforce from then on, leaves the routes of the other
-- processes as they were, and anchors the way back to 0 twice.
pub check-alerts :
    (digest : String → ℕ) (m : PostCutoverMonitor) (events : List ReadinessEvent) (p : String)
    (now : ℕ) (c : CutoverState)
    → let (alert, c') = check m events p now c in
      ((is_some alert ≡ true) ↔ Regressed m events p now c)
      × (is_some alert ≡ false → c' ≡ c)
      × (is_some alert ≡ true → AfterAlert digest m p c c')
unfolding check check_cfg
check-alerts digest m events p now c = go (get_config c.table p) refl
  where
    go :
        (o : Option RoutingConfig)
        → get_config c.table p ≡ o
        → let (alert, c') = check_cfg m events p now c o in
          ((is_some alert ≡ true) ↔ Regressed m events p now c)
          × (is_some alert ≡ false → c' ≡ c)
          × (is_some alert ≡ true → AfterAlert digest m p c c')
    go none e = (
      (λ h. ground arith, λ (cfg, e', _, _). ground (arith, sym e' ∙ e)),
      λ h. refl,
      λ h. ground arith,
    )
    go (some cfg) e = elim (Bool-cases (ltb cfg.stage_percent 100)) [
      | inl early ↦ rw early (
        (λ h. ground arith, λ (cfg', e', late, _). ground (arith, sym e ∙ e', late, early)),
        λ h. refl,
        λ h. ground arith,
      )
      | inr full ↦
          rw full
            (elim (Bool-cases
              (leb m.regression_threshold (score_process m.scorer events p now).score)) [
                | inl good ↦ rw good (
                  (λ h. ground arith, λ (_, _, _, low). ground arith),
                  λ h. refl,
                  λ h. ground arith,
                )
                | inr bad ↦ rw bad (
                  (λ h. (cfg, e, ground arith, ground arith), λ r. refl),
                  λ h. ground arith,
                  λ h. roll_back_now-AfterAlert digest m events p now c,
                )
              ])
    ]
