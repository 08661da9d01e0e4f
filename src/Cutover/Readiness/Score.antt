-- ===== src/Cutover/Readiness/Score.antt =====
-- What a readiness score says of its window (validate/shadow/readiness.py).
use native.Mathlib.Nat.{mul-le-mul_right, div-add-mod'}
use salesforce.Common.{
  ℕ, ◌+◌, ◌-◌, ◌*◌, ◌/◌, ◌%◌, ◌≤◌, ◌<◌, ◌≡◌, ◌↔◌, sym, true, String, List, [], ◌∷◌, keep, length,
  length-keep-le, ltb, ltb_false→le, refl, ◌==◌, arith, inl, inr, Bool-cases,
}
use salesforce.Cutover.Readiness.{
  ReadinessEvent, ReadinessScorer, round_ratio, clamped_score, score_rows, severity_total,
  default_scorer,
}

-- The quotient is at least k, or one more is and the remainder is at least a half.
ratio-floor : (n d k q r : ℕ) → n ≡ q * d + r → k ≤ q → 2 * k * d ≤ 2 * n + d
ratio-floor n d k q r e h = omega (arith, mul-le-mul_right d h)

ratio-ceil : (n d k q r : ℕ) → n ≡ q * d + r → k ≤ q + 1 → d ≤ 2 * r → 2 * k * d ≤ 2 * n + d
ratio-ceil n d k q r e h half = omega (arith, mul-le-mul_right d h)

quotient : (n d : ℕ) → n ≡ n / d * d + n % d
quotient n d = sym (div-add-mod' n d)

-- A rounded ratio is at least k only if the ratio is at least k - 1/2.
round_ratio-ge : (n d k : ℕ) → 0 < d → k ≤ round_ratio n d → 2 * k * d ≤ 2 * n + d
unfolding round_ratio
round_ratio-ge n d k pos h =
    let floor = ratio-floor n d k (n / d) (n % d) (quotient n d) in
    let ceil = ratio-ceil n d k (n / d) (n % d) (quotient n d) in
    elim (Bool-cases (ltb (2 * (n % d)) d)) [
      | inl low ↦ floor (ground arith)
      | inr high ↦ elim (Bool-cases (ltb d (2 * (n % d)))) [
        | inl over ↦ ceil (ground arith) (omega (arith, ltb_false→le _ _ high))
        | inr half ↦ ceil (ground arith) (omega (arith, ltb_false→le _ _ high))
      ]
    ]

below-floor : (n d q r : ℕ) → n ≡ q * d + r → 2 * r ≤ d → 2 * n ≤ 2 * q * d + d
below-floor n d q r e h = omega (arith, e, h)

below-ceil : (n d q r : ℕ) → n ≡ q * d + r → r ≤ d → 2 * n ≤ 2 * (q + 1) * d + d
below-ceil n d q r e h = omega (arith, e, h)

-- A ratio is above its rounding by at most a half.
round_ratio-le : (n d : ℕ) → 0 < d → 2 * n ≤ 2 * round_ratio n d * d + d
unfolding round_ratio
round_ratio-le n d pos =
    let floor = below-floor n d (n / d) (n % d) (quotient n d) in
    let ceil = below-ceil n d (n / d) (n % d) (quotient n d) in
    let small : n % d < d = omega arith in
    elim (Bool-cases (ltb (2 * (n % d)) d)) [
      | inl low ↦ rw low (floor (ground arith))
      | inr high ↦ elim (Bool-cases (ltb d (2 * (n % d)))) [
        | inl over ↦ rw (high, over) (ceil (omega arith))
        | inr half ↦
            rw (high, half)
              (elim (Bool-cases (n / d % 2 == 0)) [
                | inl even ↦ rw even (floor (omega (arith, ltb_false→le _ _ half)))
                | inr odd ↦ rw odd (ceil (omega arith))
              ])
      ]
    ]

clamped_score-le : (total clean severity : ℕ) → clamped_score total clean severity ≤ 100
unfolding clamped_score
clamped_score-le total clean severity = ground arith

diverged_in : List ReadinessEvent → ℕ
diverged_in rows = length (keep (λ (e : ReadinessEvent). e.diverged) rows)

pub total_severity : List ReadinessEvent → ℕ
total_severity [] = 0
total_severity (e ∷ es) = e.severity + total_severity es

severity_total-keep :
    (rows : List ReadinessEvent)
    → severity_total rows ≡ total_severity (keep (λ (e : ReadinessEvent). e.diverged) rows)
unfolding severity_total total_severity keep
severity_total-keep [] = refl
severity_total-keep (e ∷ es) = ground (arith, severity_total-keep es)

clamped_score-near :
    (total clean severity : ℕ)
    → clean ≤ total
    → 0 < total
    → let k = clamped_score total clean severity in
      let exact = 200 * clean - severity in
      (2 * total * k ≤ exact + total) × (exact ≤ 2 * total * k + total)
unfolding clamped_score
clamped_score-near total clean severity few some_events =
    let n = 200 * clean - severity in
    let s = round_ratio n (2 * total) in
    let low = round_ratio-le n (2 * total) (omega arith) in
    let high = round_ratio-ge n (2 * total) s (omega arith) (omega arith) in
    elim (Bool-cases (ltb 100 s)) [
      | inl over ↦ rw over (
        omega (arith, round_ratio-ge n (2 * total) 100 (omega arith) (ground arith)),
        omega arith,
      )
      | inr fits ↦ rw fits (omega (arith, high), omega (arith, low))
    ]

-- The counts of a score are those of its window. The score is the nearest whole number to the share of
-- the events that agreed, in percent, less half of the average severity over all events, where a
-- negative one counts as 0; it is at most 100. The process is eligible exactly when the window has the
-- events and the score that the scorer asks for.
pub score_rows-eligible :
    (scorer : ReadinessScorer) (p : String) (rows : List ReadinessEvent)
    → let s = score_rows scorer p rows in
      let bad = keep (λ (e : ReadinessEvent). e.diverged) rows in
      let exact = 200 * (length rows - length bad) - total_severity bad in
      (s.total_events ≡ length rows)
      × (s.diverged_events ≡ length bad)
      × (s.clean_events + s.diverged_events ≡ s.total_events)
      × (2 * length rows * s.score ≤ exact + length rows)
      × (exact ≤ 2 * length rows * s.score + length rows)
      × (s.score ≤ 100)
      × ((s.cutover_eligible ≡ true) ↔ (
          (0 < length rows)
          × (scorer.min_events_for_eligibility ≤ length rows)
          × (scorer.eligibility_threshold ≤ s.score)))
unfolding score_rows diverged_in
score_rows-eligible scorer p rows =
    let bad = keep (λ (e : ReadinessEvent). e.diverged) rows in
    let few = length-keep-le (λ (e : ReadinessEvent). e.diverged) rows in
    let le = clamped_score-le (length rows) (length rows - length bad) (severity_total rows) in
    elim (Bool-cases (length rows == 0)) [
      | inl zero ↦
          let none_there : length rows ≡ 0 = ground (arith, zero) in
          rw zero (
            omega (arith, none_there),
            omega (arith, none_there, few),
            refl,
            omega (arith, none_there),
            omega (arith, none_there, few),
            omega arith,
            (λ h. ground arith, λ h. ground arith),
          )
      | inr more ↦
          let some_there : 0 < length rows = ground (arith, more) in
          let (low, high) =
            clamped_score-near (length rows) (length rows - length bad) (severity_total rows)
              (omega arith) some_there in
          let severity = severity_total-keep rows in
          rw more (
            refl,
            refl,
            omega (arith, few),
            omega (arith, low, severity),
            omega (arith, high, severity),
            le,
            (λ h. ground arith, λ h. ground arith),
          )
    ]

fraction-bound :
    (total diverged severity : ℕ)
    → diverged ≤ total
    → 0 < total
    → 98 ≤ clamped_score total (total - diverged) severity
    → 200 * diverged + severity ≤ 5 * total
unfolding clamped_score
fraction-bound total diverged severity few some_events h =
    let rounded =
      round_ratio-ge (200 * (total - diverged) - severity) (2 * total) 98 (omega arith)
        (ground arith) in
    omega arith

-- A process that the default scorer finds eligible has at least 100 events in its window, and the
-- diverged ones, each counted 200 times, and their severities come to no more than five times the
-- events: at most one event in forty diverged.
pub eligible-bound :
    (p : String) (rows : List ReadinessEvent)
    → (score_rows default_scorer p rows).cutover_eligible ≡ true
    → let s = score_rows default_scorer p rows in
      (100 ≤ s.total_events) × (200 * s.diverged_events + severity_total rows ≤ 5 * s.total_events)
unfolding score_rows
eligible-bound p rows h =
    let few = length-keep-le (λ (e : ReadinessEvent). e.diverged) rows in
    (
      ground arith,
      ground (
        arith,
        fraction-bound (length rows) (length (keep (λ (e : ReadinessEvent). e.diverged) rows))
            (severity_total rows),
      ),
    )
