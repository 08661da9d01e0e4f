-- ===== src/Shadow/Executor/Persisted.antt =====
-- What an event leaves in the shadow store (`execute_event` of validate/shadow/executor.py).
use salesforce.Common.{
  ◌≡◌, ◌≤◌, refl, ap, ◌∙◌, Bool, true, false, Option, none, some, String, List, [], ◌∷◌, ◌++◌,
  arith,
}
use salesforce.Common.Dict.{get, get-put_self}
use salesforce.Common.Exec.{Outcome, ok, raise}
use salesforce.Value.{Record, boolean, text, truthy}
use salesforce.Ooe.Context.{
  OoeError, step_not_in_scope, mixed_dml, cascade_depth_exceeded, validation_failed,
  validation_message, Save,
}
use salesforce.Rules.{RuleResult}
use salesforce.Shadow.Event
use salesforce.Shadow.Event.{CdcEvent, ChangeType, is_gap}
use salesforce.Shadow.Diff.{field_diff}
use salesforce.Shadow.Categorize.{categorize, flag}
use salesforce.Shadow.Categorize.Severity.{IsGraded, categorize-diverged}
use salesforce.Shadow.Store.{
  Key, same_key, ShadowStore, upsert_record, get_record, delete_record, write_divergence,
  update_replay_state,
}
use salesforce.Shadow.Store.Records.{
  get_record-upsert_self, get_record-upsert_ne, get_record-delete_self, get_record-delete_ne,
}
use salesforce.Shadow.Executor.{
  ShadowExecutionOutcome, ShadowState, ShadowExecutor, Answers, event_key, cdc_post_state, trace_of,
  update_shadow, settle_event, run_event, execute_event,
}

-- The shadow record after an event of a type, from the runtime's record and the one before.
unfoldable pub kept : ChangeType → Record → Option Record → Option Record
kept Event.create after before = some after
kept Event.update after before = some after
kept Event.undelete after before = some after
kept Event.delete after before = none
kept _ after before = before

update_shadow-tables :
    (ct : ChangeType) (key : Key) (fields : Record) (replay_id : String) (s : ShadowStore)
    → let u = update_shadow ct key fields replay_id s in
      (u.divergence ≡ s.divergence)
      × (u.readiness_event ≡ s.readiness_event)
      × (u.replay_state ≡ s.replay_state)
unfolding update_shadow upsert_record delete_record
update_shadow-tables Event.create key fields replay_id s = (refl, refl, refl)
update_shadow-tables Event.update key fields replay_id s = (refl, refl, refl)
update_shadow-tables Event.undelete key fields replay_id s = (refl, refl, refl)
update_shadow-tables Event.delete key fields replay_id s = (refl, refl, refl)
update_shadow-tables Event.gap_create key fields replay_id s = (refl, refl, refl)
update_shadow-tables Event.gap_update key fields replay_id s = (refl, refl, refl)
update_shadow-tables Event.gap_delete key fields replay_id s = (refl, refl, refl)
update_shadow-tables Event.gap_undelete key fields replay_id s = (refl, refl, refl)
update_shadow-tables Event.gap_overflow key fields replay_id s = (refl, refl, refl)

-- What an update of the shadow record does to the records.
abbrev pub Updated : ChangeType → Key → Record → ShadowStore → ShadowStore → Type 0
Updated ct key fields s u =
    (get_record key u ≡ kept ct fields (get_record key s))
    × ((other : Key) → same_key key other ≡ false → get_record other u ≡ get_record other s)

upserted :
    (key : Key) (fields : Record) (replay_id : String) (s : ShadowStore)
    → let u = upsert_record key fields (some replay_id) s in
      (get_record key u ≡ some fields)
      × ((other : Key) → same_key key other ≡ false → get_record other u ≡ get_record other s)
upserted key fields replay_id s = (
  get_record-upsert_self s key fields (some replay_id),
  λ o ne. get_record-upsert_ne s key o fields (some replay_id) ne,
)

update_shadow-Updated :
    (ct : ChangeType) (key : Key) (fields : Record) (replay_id : String) (s : ShadowStore)
    → Updated ct key fields s (update_shadow ct key fields replay_id s)
unfolding update_shadow kept
update_shadow-Updated Event.create key fields replay_id s = upserted key fields replay_id s
update_shadow-Updated Event.update key fields replay_id s = upserted key fields replay_id s
update_shadow-Updated Event.undelete key fields replay_id s = upserted key fields replay_id s
update_shadow-Updated Event.delete key fields replay_id s =
    (get_record-delete_self s key, λ o ne. get_record-delete_ne s key o ne)
update_shadow-Updated Event.gap_create key fields replay_id s = (refl, λ o ne. refl)
update_shadow-Updated Event.gap_update key fields replay_id s = (refl, λ o ne. refl)
update_shadow-Updated Event.gap_delete key fields replay_id s = (refl, λ o ne. refl)
update_shadow-Updated Event.gap_undelete key fields replay_id s = (refl, λ o ne. refl)
update_shadow-Updated Event.gap_overflow key fields replay_id s = (refl, λ o ne. refl)

-- The exceptions that the executor catches.
abbrev pub is_validation_failed : OoeError → Bool
is_validation_failed (validation_failed _) = true
is_validation_failed _ = false

-- What an event leaves: one row of each table that says the same as the outcome, the position of the
-- process at the event, and the runtime's record as the shadow record.
abbrev pub Left :
    ShadowExecutor
    → Answers
    → CdcEvent
    → ShadowState
    → Outcome OoeError (Unit {0}) × Save
    → Outcome OoeError ShadowExecutionOutcome
    → ShadowState
    → Type 0
Left x a event s save (raise e) s' =
    (save.0 ≡ raise e) × (is_validation_failed e ≡ false) × (s' ≡ s)
Left x a event s save (ok out) s' =
    (s'.store.divergence
      ≡ s.store.divergence
        ++ record {
          id = out.divergence_row_id;
          process_id = x.process_id;
          replay_id = event.replay_id;
          observed_at = a.now;
          diverged = out.diverged;
          category = out.category;
          field_diffs = out.field_diffs;
          trace = out.trace;
          anchor_id = out.anchor_id;
        }
          ∷ [])
    × (s'.store.readiness_event
        ≡ s.store.readiness_event
          ++ record {
            process_id = x.process_id;
            observed_at = a.now;
            diverged = out.diverged;
            severity = out.severity;
          }
            ∷ [])
    × (get s'.store.replay_state x.process_id ≡ some (event.replay_id, a.now))
    × Updated event.header.change_type (event_key event) save.1.record_ s.store s'.store

settle_event-records :
    (x : ShadowExecutor) (a : Answers) (event : CdcEvent) (before : Record) (s : ShadowState)
    (o : Outcome OoeError (Unit {0})) (t : Save) (trace : Record)
    → let (r, s') = settle_event x a event before t.record_ s (ok trace) in
      Left x a event s (o, t) r s'
unfolding settle_event write_divergence update_replay_state get_record
settle_event-records x a event before s o t trace =
    let ct = event.header.change_type in
    let (divergences, readiness, replay) =
      update_shadow-tables ct (event_key event) t.record_ event.replay_id _ in
    (
      divergences,
      readiness,
      ap (λ m. get m x.process_id) replay ∙ get-put_self s.store.replay_state x.process_id _,
      update_shadow-Updated ct (event_key event) t.record_ event.replay_id _,
    )

settle_event-Left :
    (x : ShadowExecutor) (a : Answers) (event : CdcEvent) (s : ShadowState)
    (o : Outcome OoeError (Unit {0})) (t : Save)
    → let (r, s') =
        settle_event x a event (cdc_post_state x event s.store) t.record_ s (trace_of (o, t)) in
      Left x a event s (o, t) r s'
unfolding settle_event trace_of
settle_event-Left x a event s (ok u) t = settle_event-records x a event _ s (ok u) t _
settle_event-Left x a event s (raise (validation_failed rs)) t =
    settle_event-records x a event _ s (raise (validation_failed rs)) t _
settle_event-Left x a event s (raise (step_not_in_scope e)) t = (refl, refl, refl)
settle_event-Left x a event s (raise (mixed_dml e)) t = (refl, refl, refl)
settle_event-Left x a event s (raise (cascade_depth_exceeded m n)) t = (refl, refl, refl)

-- An event that goes through leaves one divergence and one readiness event, which say the same as its
-- outcome, and its own identity as the position of the process. The record that the runtime made of it
-- is the shadow record after a create, an update or an undelete; a delete removes the shadow record, a
-- gap leaves it, and no other record changes. An exception other than a failed validation, which is the
-- runtime's, is raised again, and then nothing is stored, neither a divergence nor a position.
pub execute_event-Left :
    (x : ShadowExecutor) (a : Answers) (event : CdcEvent) (s : ShadowState)
    → let (r, s') = execute_event x a event s in Left x a event s (run_event x a event s.store) r s'
unfolding execute_event
execute_event-Left x a event s =
    let (o, t) = run_event x a event s.store in settle_event-Left x a event s o t

aborted_diverges :
    (x : ShadowExecutor) (event : CdcEvent) (before after : Record) (rs : List RuleResult)
    → let trace : Record =
        ("aborted", boolean true) ∷ ("abort_reason", text (validation_message rs)) ∷ [] in
      IsGraded (categorize x.is_digit event (field_diff before after ("Id" ∷ [])) trace)
unfolding flag get truthy
aborted_diverges x event before after rs =
    let trace : Record =
      ("aborted", boolean true) ∷ ("abort_reason", text (validation_message rs)) ∷ [] in
    let (diverged, graded, _) =
      categorize-diverged x.is_digit event (field_diff before after ("Id" ∷ [])) trace in
    graded (ground (arith, diverged))

-- A save that fails its validation is stored as a divergence: with the record that the steps before
-- the validation left.
pub failed_validation_diverges :
    (x : ShadowExecutor) (a : Answers) (event : CdcEvent) (s : ShadowState) (rs : List RuleResult)
    (t : Save)
    → run_event x a event s.store ≡ (raise (validation_failed rs), t)
    → let (r, s') = execute_event x a event s in
      (out : ShadowExecutionOutcome) × (r ≡ ok out)
      × (out.diverged ≡ true)
      × (10 ≤ out.severity)
      × (out.field_diffs ≡ field_diff (cdc_post_state x event s.store) t.record_ ("Id" ∷ []))
unfolding execute_event
failed_validation_diverges x a event s rs t e =
    let (diverged, _, grave, _) =
      aborted_diverges x event (cdc_post_state x event s.store) t.record_ rs in
    rw e (unfold settle_event trace_of in (_, refl, diverged, grave, refl))
