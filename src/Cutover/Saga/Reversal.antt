-- ===== src/Cutover/Saga/Reversal.antt =====
-- The rollback of a saga against a description of it (cutover/saga.py).
use mathlib.Core.List.{reverse, reverse-append}
use salesforce.Common.{
  ◌≡◌, ◌≢◌, ◌⊎◌, refl, sym, subst, Option, none, some, ap, ◌∙◌, Bool, true, false, not, ◌&&◌, ◌||◌,
  List, [], ◌∷◌, ◌++◌, append_assoc, append-nil, any, all, arith, inl, inr, Bool-cases,
  if◌then◌else◌,
}
use salesforce.Common.Exec.{Exec, Outcome, ok, raise}
use salesforce.Rules.{Exn}
use salesforce.Value.{Record}
use salesforce.Cutover.Saga.{
  CompensationKind, undo, offset, log_only, requires_human, ActivitySpec, ActivityRecord,
  SagaTransaction, Reason, nothing_to_reverse, no_function, completed, raised, CompensationResult,
  CompensationOutcome, sign_off_required, is_human, is_log_only, settle_call, compensate_one,
  compensate_from, compensate, simple_result,
}

-- Which activities a human has to sign off.
abbrev pub needs_human : CompensationKind → Bool
needs_human requires_human = true
needs_human undo = false
needs_human offset = false
needs_human log_only = false

is_human-needs_human : (k : CompensationKind) → is_human k ≡ needs_human k
unfolding is_human
is_human-needs_human undo = refl
is_human-needs_human offset = refl
is_human-needs_human log_only = refl
is_human-needs_human requires_human = refl

is_log_only-cases :
    (k : CompensationKind)
    → ((is_log_only k ≡ true) × (k ≡ log_only)) ⊎ ((is_log_only k ≡ false) × (k ≢ log_only))
unfolding is_log_only
is_log_only-cases undo = inr (refl, λ e. cc)
is_log_only-cases offset = inr (refl, λ e. cc)
is_log_only-cases log_only = inl (refl, refl)
is_log_only-cases requires_human = inr (refl, λ e. cc)

module _ {W : Type 0} where
  abbrev pub human : ActivityRecord W → Bool
  human a = needs_human a.activity.compensation_kind

  -- What the result of an activity says, with its name and its kind.
  abbrev pub report : ActivitySpec W → Bool → Reason → Record → CompensationResult
  report spec succeeded reason payload = record {
    activity_name = spec.name;
    kind = spec.compensation_kind;
    succeeded = succeeded;
    reason = reason;
    payload = payload;
  }

  -- The compensation of one activity in a world, with its result and the world after it. What is only
  -- logged succeeds; what has no function fails; a function succeeds unless it raises.
  pub data Compensates (a : ActivityRecord W) (w : W) : CompensationResult → W → Type 0 where
    logged :
        a.activity.compensation_kind ≡ log_only
        → Compensates a w (report a.activity true nothing_to_reverse []) w
    missing :
        a.activity.compensation_kind ≢ log_only
        → a.activity.compensate ≡ none
        → Compensates a w (report a.activity false no_function []) w
    returned :
        (f : Record × Record → Exec Exn W Record) (payload : Record) (after : W)
        → a.activity.compensation_kind ≢ log_only
        → a.activity.compensate ≡ some f
        → f (a.inputs, a.outputs) w ≡ (ok payload, after)
        → Compensates a w (report a.activity true completed payload) after
    failed :
        (f : Record × Record → Exec Exn W Record) (e : Exn) (after : W)
        → a.activity.compensation_kind ≢ log_only
        → a.activity.compensate ≡ some f
        → f (a.inputs, a.outputs) w ≡ (raise e, after)
        → Compensates a w (report a.activity false (raised e) []) after

  -- One compensation after the other, each in the world that the last one left.
  pub data Reverses : List (ActivityRecord W) → W → List CompensationResult → W → Type 0 where
    no_more : (w : W) → Reverses [] w [] w
    one_more :
        (a : ActivityRecord W) (xs : List (ActivityRecord W)) (w after end : W)
        (r : CompensationResult) (rs : List CompensationResult)
        → Compensates a w r after
        → Reverses xs after rs end
        → Reverses (a ∷ xs) w (r ∷ rs) end

  compensate_one-Compensates :
      (a : ActivityRecord W) (w : W) → Compensates a w (compensate_one a w).0 (compensate_one a w).1
  unfolding compensate_one simple_result settle_call
  compensate_one-Compensates a w = elim (is_log_only-cases a.activity.compensation_kind) [
    | inl (e, k) ↦ rw e (logged k)
    | inr (e, k) ↦ rw e (by_function k a.activity.compensate refl)
  ]
    where
      settled :
          (f : Record × Record → Exec Exn W Record)
          → a.activity.compensation_kind ≢ log_only
          → a.activity.compensate ≡ some f
          → (o : Outcome Exn Record × W) → f (a.inputs, a.outputs) w ≡ o
          → Compensates a w (settle_call a.activity o).0 (settle_call a.activity o).1
      settled f k e (ok payload, after) h = returned f payload after k e h
      settled f k e (raise x, after) h = failed f x after k e h

      by_function :
          a.activity.compensation_kind ≢ log_only
          → (o : Option (Record × Record → Exec Exn W Record)) → a.activity.compensate ≡ o
          → let p : CompensationResult × W = (elim o [
            | none ↦ (simple_result a.activity false no_function, w)
            | some f ↦ settle_call a.activity (f (a.inputs, a.outputs) w)
          ]) in
            Compensates a w p.0 p.1
      by_function k none e = missing k e
      by_function k (some f) e = settled f k e (f (a.inputs, a.outputs) w) refl

  -- The activities before the first that a human has to sign off.
  unfoldable pub until_human : List (ActivityRecord W) → List (ActivityRecord W)
  until_human [] = []
  until_human (a ∷ rest) = let further = a ∷ until_human rest in if human a then [] else further

  -- The result that marks the first of these, if there is one.
  unfoldable pub pause : List (ActivityRecord W) → List CompensationResult
  pause [] = []
  pause (a ∷ rest) =
      let further = pause rest in
      if human a then report a.activity false sign_off_required [] ∷ [] else further

  reverse_all : List (ActivityRecord W) → W → List CompensationResult × W
  reverse_all [] w = ([], w)
  reverse_all (a ∷ rest) w =
      let (result, w') = compensate_one a w in
      let (results, end) = reverse_all rest w' in (result ∷ results, end)

  reverse_all-Reverses :
      (xs : List (ActivityRecord W)) (w : W)
      → Reverses xs w (reverse_all xs w).0 (reverse_all xs w).1
  unfolding reverse_all
  reverse_all-Reverses [] w = no_more w
  reverse_all-Reverses (a ∷ xs) w =
      one_more a xs w _ _ _ _ (compensate_one-Compensates a w)
        (reverse_all-Reverses xs (compensate_one a w).1)

  expected : List (ActivityRecord W) → CompensationOutcome → W → CompensationOutcome × W
  expected xs out w =
      let (results, end) = reverse_all (until_human xs) w in
      (
        record {
          saga_id = out.saga_id;
          fully_compensated =
              out.fully_compensated
              && (all (λ (r : CompensationResult). r.succeeded) results && not (any human xs));
          paused_for_human = out.paused_for_human || any human xs;
          results = out.results ++ (results ++ pause xs);
        },
        end,
      )

  compensate_from-expected :
      (xs : List (ActivityRecord W)) (out : CompensationOutcome) (w : W)
      → compensate_from xs out w ≡ expected xs out w
  unfolding compensate_from expected until_human pause reverse_all simple_result any all
  compensate_from-expected [] out w = ground (arith, append-nil out.results)
  compensate_from-expected (a ∷ rest) out w =
      let (result, w') = compensate_one a w in
      let out' : CompensationOutcome = record out {
        results = out.results ++ result ∷ [];
        fully_compensated = if result.succeeded then out.fully_compensated else false;
      } in
      let further = (reverse_all (until_human rest) w').0 in
      elim (Bool-cases (human a)) [
        | inl stop ↦
            rw (is_human-needs_human a.activity.compensation_kind, stop)
              (ground (arith, append-nil out.results))
        | inr on ↦
            rw (is_human-needs_human a.activity.compensation_kind, on)
              (ground (
                arith,
                compensate_from-expected rest out' w',
                append_assoc out.results (result ∷ []) (further ++ pause rest),
              ))
      ]

  any-append :
      (p : ActivityRecord W → Bool) (xs ys : List (ActivityRecord W))
      → any p (xs ++ ys) ≡ (any p xs || any p ys)
  unfolding any
  any-append p [] ys = refl
  any-append p (x ∷ xs) ys = ground (arith, any-append p xs ys)

  any-reverse :
      (p : ActivityRecord W → Bool) (xs : List (ActivityRecord W)) → any p (reverse xs) ≡ any p xs
  any-reverse p [] = refl
  any-reverse p (x ∷ xs) =
      ap (any p) (reverse-append (x ∷ []) xs)
      ∙ any-append p (reverse xs) (x ∷ [])
      ∙ ap (λ b. b || any p (x ∷ [])) (any-reverse p xs)
      ∙ unfold any in ground arith

  -- A rollback runs the compensations of the activities in reverse order, each in the world that the
  -- last one left, up to the first that a human has to sign off: there it stops with a result that
  -- says so. It pauses exactly when the saga has such an activity, and it counts as full exactly when
  -- there is none and every compensation that was run succeeded. What is only logged succeeds, what has
  -- no function fails, and a function succeeds unless it raises.
  pub compensate-Reverses :
      (saga : SagaTransaction W) (w : W)
      → let (out, end) = compensate saga w in
        let taken = reverse saga.activities in
        (results : List CompensationResult) × Reverses (until_human taken) w results end
        × (out.results ≡ results ++ pause taken)
        × (out.paused_for_human ≡ any human saga.activities)
        × (out.fully_compensated ≡ (
            all (λ (r : CompensationResult). r.succeeded) results
            && not (any human saga.activities)))
  unfolding compensate expected
  compensate-Reverses saga w =
      let taken = reverse saga.activities in
      let out : CompensationOutcome = record {
        saga_id = saga.saga_id;
        fully_compensated = true;
        paused_for_human = false;
        results = [];
      } in
      let e = compensate_from-expected taken out w in
      let humans = any-reverse human saga.activities in
      let results = (reverse_all (until_human taken) w).0 in
      (
        results,
        subst (λ v. Reverses (until_human taken) w results v) (sym (ap (λ p. p.1) e))
            (reverse_all-Reverses (until_human taken) w),
        ap (λ p. p.0.results) e,
        ap (λ p. p.0.paused_for_human) e ∙ humans,
        ap (λ p. p.0.fully_compensated) e
            ∙ ap (λ b. all (λ (r : CompensationResult). r.succeeded) results && not b) humans,
      )
