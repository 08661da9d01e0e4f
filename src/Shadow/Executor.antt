-- ===== src/Shadow/Executor.antt =====
-- validate/shadow/executor.py: one change event through the runtime, the comparison and the store. The
-- environment is a new one for each event. The lists under `trace` and `rule_results` of a trace, which
-- only people read, are left out of it. What Engram answers, the name of the transaction and the time
-- are arguments.
pub mod Persisted
use salesforce.Common.{
  ℕ, Bool, true, false, Option, none, some, String, List, [], ◌∷◌, ◌++◌, if◌then◌else◌,
}
use salesforce.Common.Dict.{Dict, remove, keys}
use salesforce.Common.Exec.{Outcome, ok, raise}
use salesforce.Value.{Value, null, boolean, text, Record}
use salesforce.Models.{DivergenceCategory}
use salesforce.Ooe.Context.{
  OoeError, step_not_in_scope, mixed_dml, cascade_depth_exceeded, validation_failed,
  validation_message, Platform, OoeRuntime, Save,
}
use salesforce.Ooe.Execute.{execute_top}
use salesforce.Shadow.Event
use salesforce.Shadow.Event.{CdcEvent, ChangeType, event_record_id}
use salesforce.Shadow.Diff.{field_diff}
use salesforce.Shadow.Categorize.{CategorizationResult, categorize}
use salesforce.Shadow.Store.{
  Key, ShadowStore, upsert_record, delete_record, write_divergence, update_replay_state,
}
use salesforce.Shadow.Env.{ForkedDataEnv, read, merged}

pub record ShadowExecutionOutcome : Type 0 where
  pub replay_id : String
  pub diverged : Bool
  pub category : Option DivergenceCategory
  pub severity : ℕ
  pub field_diffs : Dict (Value × Value)
  pub trace : Record
  pub anchor_id : String
  pub divergence_row_id : ℕ

-- The payload of an anchor; the program sorts the keys.
pub record ShadowAnchor : Type 0 where
  pub process_id : String
  pub replay_id : String
  pub diverged : Bool
  pub category : Option DivergenceCategory
  pub field_diff_keys : List String

pub record ShadowState : Type 0 where
  pub store : ShadowStore
  pub anchors : List ShadowAnchor

-- An executor, with what it uses of its surroundings for one event.
pub record ShadowExecutor : Type 0 where
  pub process_id : String
  pub runtime : OoeRuntime
  pub production_read : Key → Option Record
  pub platform : Platform
  pub is_digit : ℕ → Bool

pub record Answers : Type 0 where
  pub new_id : String
  pub anchor_id : String
  pub now : ℕ

-- `pre_state`.
or_empty : Option Record → Record
or_empty none = []
or_empty (some r) = r

unfoldable pub event_key : CdcEvent → Key
event_key event = (event.header.entity_name, event_record_id event)

-- `cdc_post_state`.
unfoldable pub cdc_post_state : ShadowExecutor → CdcEvent → ShadowStore → Record
unfolding or_empty event_key read
cdc_post_state x event store =
    let env : ForkedDataEnv = record {
      production_read = x.production_read;
      process_id = x.process_id;
      intercepted_writes = [];
      local_cache = [];
    } in
    remove
      (merged (or_empty (read (event_key event) (env, store))) event.fields (event_record_id event))
      "ChangeEventHeader"

reason_value : Option String → Value
reason_value none = null
reason_value (some s) = text s

-- The trace of a save, where the executor catches what it raised; otherwise the exception.
unfoldable pub trace_of : Outcome OoeError (Unit {0}) × Save → Outcome OoeError Record
unfolding reason_value
trace_of (ok _, t) =
    ok (("aborted", boolean t.ctx.aborted) ∷ ("abort_reason", reason_value t.ctx.abort_reason) ∷ [])
trace_of (raise (validation_failed rs), t) =
    ok (("aborted", boolean true) ∷ ("abort_reason", text (validation_message rs)) ∷ [])
trace_of (raise e, t) = raise e

-- The end of `execute_event`: the shadow record.
unfoldable pub update_shadow : ChangeType → Key → Record → String → ShadowStore → ShadowStore
update_shadow Event.create key fields replay_id s = upsert_record key fields (some replay_id) s
update_shadow Event.update key fields replay_id s = upsert_record key fields (some replay_id) s
update_shadow Event.undelete key fields replay_id s = upsert_record key fields (some replay_id) s
update_shadow Event.delete key fields replay_id s = delete_record key s
update_shadow _ key fields replay_id s = s

-- Steps 4 to 6, with the record that the runtime left.
unfoldable pub settle_event :
    ShadowExecutor
    → Answers
    → CdcEvent
    → Record
    → Record
    → ShadowState
    → Outcome OoeError Record
    → Outcome OoeError ShadowExecutionOutcome × ShadowState
unfolding update_shadow event_key
settle_event x a event before after s (raise e) = (raise e, s)
settle_event x a event before after s (ok trace) =
    let diffs = field_diff before after ("Id" ∷ []) in
    let result = categorize x.is_digit event diffs trace in
    let (row_id, written) =
      write_divergence x.process_id event.replay_id result.diverged result.category diffs trace
        a.anchor_id result.severity a.now s.store in
    (
      ok (record {
        replay_id = event.replay_id;
        diverged = result.diverged;
        category = result.category;
        severity = result.severity;
        field_diffs = diffs;
        trace = trace;
        anchor_id = a.anchor_id;
        divergence_row_id = row_id;
      }),
      record {
        store =
            update_shadow event.header.change_type (event_key event) after event.replay_id
              (update_replay_state x.process_id event.replay_id a.now written);
        anchors =
            s.anchors
            ++ record {
              process_id = x.process_id;
              replay_id = event.replay_id;
              diverged = result.diverged;
              category = result.category;
              field_diff_keys = keys diffs;
            }
              ∷ [];
      },
    )

-- The save that the runtime makes of the state after the event.
unfoldable pub run_event :
    ShadowExecutor → Answers → CdcEvent → ShadowStore → Outcome OoeError (Unit {0}) × Save
run_event x a event store =
    execute_top x.platform x.runtime event.header.entity_name (cdc_post_state x event store) none
      a.new_id

-- `execute_event`.
unfoldable pub execute_event :
    ShadowExecutor
    → Answers
    → CdcEvent
    → ShadowState
    → Outcome OoeError ShadowExecutionOutcome × ShadowState
unfolding settle_event trace_of
execute_event x a event s =
    let (r, t) = run_event x a event s.store in
    settle_event x a event (cdc_post_state x event s.store) t.record_ s (trace_of (r, t))
