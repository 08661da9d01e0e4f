-- ===== src/Cutover/Router/Stages.antt =====
-- The order of the stages (cutover/router.py).
use salesforce.Common.{ℕ, ◌≤◌, ◌<◌, ◌≡◌, ◌↔◌, ◌⊎◌, none, some, arith}
use salesforce.Cutover.Router.{next_stage, previous_stage}

-- The percentages that are stages.
abbrev pub IsStage : ℕ → Type 0
IsStage p = (p ≡ 0) ⊎ (p ≡ 1) ⊎ (p ≡ 5) ⊎ (p ≡ 25) ⊎ (p ≡ 50) ⊎ (p ≡ 100)

-- An advance goes to a stage, and from a stage it goes up to the one from which a rollback leads
-- back.
pub next_stage-steps_up :
    (current n : ℕ)
    → next_stage current ≡ some n
    → IsStage n × (IsStage current → (current < n) × (previous_stage n ≡ current))
unfolding next_stage previous_stage
next_stage-steps_up current n h = (ground arith, λ s. (ground arith, ground arith))

-- There is no next stage exactly from 100 on.
pub next_stage-none : (current : ℕ) → (next_stage current ≡ none) ↔ (100 ≤ current)
unfolding next_stage
next_stage-none current = (λ h. ground arith, λ h. ground arith)

-- A rollback goes to a stage, and down, unless it stays at 0.
pub previous_stage-steps_down :
    (current : ℕ)
    → IsStage (previous_stage current)
      × (previous_stage current ≤ current)
      × (0 < current → previous_stage current < current)
unfolding previous_stage
previous_stage-steps_down current = (ground arith, ground arith, λ h. ground arith)
