-- ===== src/Cutover/Saga.antt =====
-- cutover/saga.py: the activities of a saga and their compensation. The functions that compensate
-- act on a world outside of the program, and may raise.
pub mod Reversal
use salesforce.Common.{
  Bool, true, false, ◌||◌, Option, none, some, String, List, [], ◌∷◌, ◌++◌, any, if◌then◌else◌,
}
use mathlib.Core.List.{reverse}
use salesforce.Common.Exec.{Exec, Outcome, ok, raise}
use salesforce.Rules.{Exn}
use salesforce.Value.{Record}

pub data CompensationKind : Type 0 where
  undo offset log_only requires_human : CompensationKind

-- An activity may have a function that takes its inputs and outputs.
pub record ActivitySpec (W : Type 0) : Type 0 where
  pub name : String
  pub compensation_kind : CompensationKind
  pub description : String
  pub compensate : Option (Record × Record → Exec Exn W Record)

pub record ActivityRecord (W : Type 0) : Type 0 where
  pub activity : ActivitySpec W
  pub inputs : Record
  pub outputs : Record

pub record SagaTransaction (W : Type 0) : Type 0 where
  pub saga_id : String
  pub activities : List (ActivityRecord W)

-- Why a compensation ended as it did; the program writes a text.
pub data Reason : Type 0 where
  sign_off_required nothing_to_reverse no_function completed : Reason
  raised : Exn → Reason

pub record CompensationResult : Type 0 where
  pub activity_name : String
  pub kind : CompensationKind
  pub succeeded : Bool
  pub reason : Reason
  pub payload : Record

pub record CompensationOutcome : Type 0 where
  pub saga_id : String
  pub fully_compensated : Bool
  pub paused_for_human : Bool
  pub results : List CompensationResult

unfoldable pub is_human : CompensationKind → Bool
is_human requires_human = true
is_human _ = false

unfoldable pub is_log_only : CompensationKind → Bool
is_log_only log_only = true
is_log_only _ = false

module _ {W : Type 0} where
  -- `record`.
  unfoldable pub add_activity :
      ActivitySpec W → Record → Record → SagaTransaction W → SagaTransaction W
  add_activity activity inputs outputs saga = record saga {
    activities =
        saga.activities ++ record { activity = activity; inputs = inputs; outputs = outputs } ∷ [];
  }

  unfoldable pub has_irreversible_actions : SagaTransaction W → Bool
  unfolding is_human any
  has_irreversible_actions saga =
      any (λ (a : ActivityRecord W). is_human a.activity.compensation_kind) saga.activities

  -- The result of one activity that is not to be signed off by a human, and the world after it.
  settle_call : ActivitySpec W → Outcome Exn Record × W → CompensationResult × W
  settle_call spec (ok payload, w) = (
    record {
      activity_name = spec.name;
      kind = spec.compensation_kind;
      succeeded = true;
      reason = completed;
      payload = payload;
    },
    w,
  )
  settle_call spec (raise e, w) = (
    record {
      activity_name = spec.name;
      kind = spec.compensation_kind;
      succeeded = false;
      reason = raised e;
      payload = [];
    },
    w,
  )

  pub simple_result : ActivitySpec W → Bool → Reason → CompensationResult
  simple_result spec succeeded reason = record {
    activity_name = spec.name;
    kind = spec.compensation_kind;
    succeeded = succeeded;
    reason = reason;
    payload = [];
  }

  unfoldable pub compensate_one : ActivityRecord W → W → CompensationResult × W
  unfolding is_log_only settle_call simple_result
  compensate_one a w =
      if is_log_only a.activity.compensation_kind
      then (simple_result a.activity true nothing_to_reverse, w)
      else elim a.activity.compensate [
        | none ↦ (simple_result a.activity false no_function, w)
        | some f ↦ settle_call a.activity (f (a.inputs, a.outputs) w)
      ]

  -- The loop of `compensate`, over the activities in the order in which it takes them.
  unfoldable pub compensate_from :
      List (ActivityRecord W) → CompensationOutcome → W → CompensationOutcome × W
  unfolding compensate_one is_human simple_result
  compensate_from [] out w = (out, w)
  compensate_from (a ∷ rest) out w =
      let (result, w') = compensate_one a w in
      let further =
        compensate_from rest
          (record out {
            results = out.results ++ result ∷ [];
            fully_compensated = if result.succeeded then out.fully_compensated else false;
          })
          w' in
      if is_human a.activity.compensation_kind
      then (
        record out {
          results = out.results ++ simple_result a.activity false sign_off_required ∷ [];
          paused_for_human = true;
          fully_compensated = false;
        },
        w,
      )
      else further

  unfoldable pub compensate : SagaTransaction W → W → CompensationOutcome × W
  unfolding compensate_from
  compensate saga w =
      compensate_from (reverse saga.activities)
        (record {
          saga_id = saga.saga_id;
          fully_compensated = true;
          paused_for_human = false;
          results = [];
        })
        w
