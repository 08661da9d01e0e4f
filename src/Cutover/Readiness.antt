-- ===== src/Cutover/Readiness.antt =====
-- validate/shadow/readiness.py, with the window of validate/shadow/store.py. The program computes the
-- raw score in floats; here it is the exact fraction, and `round` takes a half to the even number, as
-- Python's does.
pub mod Score
use salesforce.Common.{
  ℕ, suc, ◌+◌, ◌-◌, ◌*◌, ◌/◌, ◌%◌, Bool, true, false, ◌&&◌, String, List, [], ◌∷◌, keep, length,
  ◌==◌, ◌=ₛ◌, ltb, leb, if◌then◌else◌,
}

-- A row of `readiness_event`. Times are in microseconds.
pub record ReadinessEvent : Type 0 where
  pub process_id : String
  pub observed_at : ℕ
  pub diverged : Bool
  pub severity : ℕ

-- `readiness_window`.
unfoldable pub readiness_window : List ReadinessEvent → String → ℕ → List ReadinessEvent
unfolding keep
readiness_window events process_id since =
    keep (λ (e : ReadinessEvent). e.process_id =ₛ process_id && leb since e.observed_at) events

-- Why a score is what it is; the program writes a text with these numbers.
pub data ScoreReason : Type 0 where
  no_events : ScoreReason
  too_few : ℕ → ℕ → ℕ → ScoreReason
  below : ℕ → ℕ → ScoreReason
  reached : ℕ → ℕ → ℕ → ScoreReason

pub record ReadinessScore : Type 0 where
  pub process_id : String
  pub window_days : ℕ
  pub total_events : ℕ
  pub clean_events : ℕ
  pub diverged_events : ℕ
  pub avg_severity : ℕ × ℕ  -- the severity of the diverged events, over their number
  pub score : ℕ
  pub cutover_eligible : Bool
  pub reason : ScoreReason

pub record ReadinessScorer : Type 0 where
  pub window_days : ℕ
  pub min_events_for_eligibility : ℕ
  pub eligibility_threshold : ℕ

-- The defaults of the class.
abbrev pub default_scorer : ReadinessScorer
default_scorer = record {
  window_days = 30;
  min_events_for_eligibility = 100;
  eligibility_threshold = 98;
}

unfoldable pub severity_total : List ReadinessEvent → ℕ
severity_total [] = 0
severity_total (e ∷ es) =
    let rest = severity_total es in if e.diverged then e.severity + rest else rest

-- `round(n / d)`.
unfoldable pub round_ratio : ℕ → ℕ → ℕ
round_ratio n d =
    let q = n / d in
    let r = n % d in
    if ltb (2 * r) d then q else if ltb d (2 * r) then q + 1 else if q % 2 == 0 then q else q + 1

-- `max(0, min(100, round(raw_score)))`, where the raw score is
-- (clean / total) * 100 - (diverged / total) * (severity / diverged) / 2. Subtraction on ℕ stops at 0,
-- as the clamp does.
unfoldable pub clamped_score : ℕ → ℕ → ℕ → ℕ
clamped_score total clean severity =
    let s = round_ratio (200 * clean - severity) (2 * total) in if ltb 100 s then 100 else s

unfoldable pub reason_of : ReadinessScorer → ℕ → ℕ → ScoreReason
reason_of scorer total score =
    if ltb total scorer.min_events_for_eligibility
    then too_few total scorer.window_days scorer.min_events_for_eligibility
    else if ltb score scorer.eligibility_threshold
    then below score scorer.eligibility_threshold
    else reached score scorer.eligibility_threshold total

unfoldable pub score_rows : ReadinessScorer → String → List ReadinessEvent → ReadinessScore
score_rows scorer process_id rows =
    let total = length rows in
    let diverged = length (keep (λ (e : ReadinessEvent). e.diverged) rows) in
    let clean = total - diverged in
    let severity = severity_total rows in
    let score = clamped_score total clean severity in
    if total == 0
    then record {
      process_id = process_id;
      window_days = scorer.window_days;
      total_events = 0;
      clean_events = 0;
      diverged_events = 0;
      avg_severity = (0, 0);
      score = 0;
      cutover_eligible = false;
      reason = no_events;
    }
    else record {
      process_id = process_id;
      window_days = scorer.window_days;
      total_events = total;
      clean_events = clean;
      diverged_events = diverged;
      avg_severity = (severity, diverged);
      score = score;
      cutover_eligible =
          leb scorer.min_events_for_eligibility total && leb scorer.eligibility_threshold score;
      reason = reason_of scorer total score;
    }

-- `score`, at a time `now`.
unfoldable pub score_process : ReadinessScorer → List ReadinessEvent → String → ℕ → ReadinessScore
score_process scorer events process_id now =
    score_rows scorer process_id
      (readiness_window events process_id (now - scorer.window_days * 86400000000))
