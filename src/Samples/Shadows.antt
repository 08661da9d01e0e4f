-- ===== src/Samples/Shadows.antt =====
-- A change event, its comparison and the store.
use salesforce.Common.{
  ℕ, ◌≤◌, ◌≡◌, ◌||◌, refl, Bool, true, false, none, some, String, [], ◌∷◌, ◌=ₛ◌, is_nonempty, keep,
  any,
}
use salesforce.Common.Dict.{get}
use salesforce.Common.Exec.{ok, raise, ◌>>=◌}
use salesforce.Value.{Value, Record, text, boolean, truthy, is_null}
use salesforce.Rules.{RuleResult, validation, rules_for, evaluate, targets, is_validation}
use salesforce.Ooe.Context.{Save, validation_failed, is_setup_object, new_context}
use salesforce.Ooe.Step.{includes, same_step}
use salesforce.Ooe.Pipeline.{run_step, run_rules, check_failures, is_failure, maybe_shuffle}
use salesforce.Ooe.Execute.{
  execute_top, save_in, enter, record_object_class, guarded, pipeline, before_save, after_save,
}
use salesforce.Shadow.Event
use salesforce.Shadow.Event.{CdcEvent, is_gap, event_record_id}
use salesforce.Shadow.Diff.{field_diff}
use salesforce.Shadow.Diff.Lookup.{expected, field_diff-get}
use salesforce.Shadow.Categorize.{categorize, flag}
use salesforce.Shadow.Categorize.Severity.{IsGraded, categorize-diverged}
use salesforce.Shadow.Store.{Key, ShadowStore, same_key}
use salesforce.Shadow.Env.{ForkedDataEnv, unknown_write_op, read, write}
use salesforce.Shadow.Env.Chained.{merged_field, is_write, write-read}
use salesforce.Shadow.Executor.{
  ShadowExecutor, ShadowExecutionOutcome, ShadowState, Answers, run_event, execute_event,
  cdc_post_state,
}
use salesforce.Shadow.Executor.Persisted.{Left, execute_event-Left, failed_validation_diverges}
use salesforce.Samples.{platform, stamp, refuse, account, runtime}

abbrev pub event : CdcEvent
event = record {
  replay_id = "7";
  topic = "/data/AccountChangeEvent";
  schema_id = "1";
  received_at = 0;
  header = record {
    entity_name = "Account";
    change_type = Event.update;
    change_origin = "";
    transaction_key = "";
    sequence_number = 1;
    commit_timestamp = 0;
    commit_user = "";
    commit_number = 1;
    record_ids = "001" ∷ [];
    changed_fields = [];
    diff_fields = [];
    nulled_fields = [];
  };
  fields = ("Name", text "Acme") ∷ [];
}

abbrev no_digits : ℕ → Bool
no_digits c = false

abbrev executor : ShadowExecutor
executor = record {
  process_id = "p";
  runtime = runtime (stamp ∷ refuse ∷ []);
  production_read = λ k. none;
  platform = platform;
  is_digit = no_digits;
}

abbrev answers : Answers
answers = record { new_id = "t1"; anchor_id = "a1"; now = 3 }

abbrev pub store : ShadowStore
store = record {
  shadow_record = [];
  divergence = [];
  next_id = 1;
  readiness_event = [];
  replay_state = [];
}

abbrev state : ShadowState
state = record { store = store; anchors = [] }

execute_event-Left_example :
    let (r, s') = execute_event executor answers event state in
    Left executor answers event state (run_event executor answers event store) r s'
execute_event-Left_example = execute_event-Left executor answers event state

abbrev refused : RuleResult
refused = record {
  rule_id = "refuse";
  kind = validation;
  passed = false;
  error_message = some "no";
  field_mutations = [];
}

abbrev refused_end : Save
refused_end = (run_event executor answers event store).1

refused_run :
    run_event executor answers event store ≡ (raise (validation_failed (refused ∷ [])), refused_end)
unfolding run_event execute_top save_in enter record_object_class is_setup_object guarded pipeline
    before_save after_save run_step run_rules check_failures is_failure maybe_shuffle rules_for
    evaluate targets keep any includes same_step ◌>>=◌ new_context is_null truthy is_validation
refused_run = refl

failed_validation_diverges_example :
    let (r, s') = execute_event executor answers event state in
    (out : ShadowExecutionOutcome) × (r ≡ ok out)
    × (out.diverged ≡ true)
    × (10 ≤ out.severity)
    × (out.field_diffs
        ≡ field_diff (cdc_post_state executor event store) refused_end.record_ ("Id" ∷ []))
failed_validation_diverges_example =
    failed_validation_diverges executor answers event state (refused ∷ []) refused_end refused_run

field_diff-get_example :
    get (field_diff account (("Name", text "Other") ∷ []) ("Id" ∷ [])) "Name"
    ≡ expected account (("Name", text "Other") ∷ []) ("Id" ∷ []) "Name"
field_diff-get_example = field_diff-get account (("Name", text "Other") ∷ []) ("Id" ∷ []) "Name"

categorize-diverged_example :
    let r = categorize no_digits event [] (("aborted", boolean true) ∷ []) in
    (r.diverged ≡ (
      is_gap event
      || flag (("aborted", boolean true) ∷ []) "aborted"
      || is_nonempty {A = String × (Value × Value)} []))
    × (r.diverged ≡ true → IsGraded r)
    × (r.diverged ≡ false → (r.category ≡ none) × (r.severity ≡ 0))
categorize-diverged_example =
    categorize-diverged no_digits event [] (("aborted", boolean true) ∷ [])

abbrev env : ForkedDataEnv
env = record {
  production_read = λ k. some account;
  process_id = "p";
  intercepted_writes = [];
  local_cache = [];
}

abbrev key : Key
key = ("Account", "001")

abbrev new_name : Record
new_name = ("Name", text "New") ∷ []

write-read_example :
    let (r, after) = write "update" key new_name none (env, store) in
    (is_write "update" ≡ false → (r ≡ raise (unknown_write_op "update")) × (after ≡ (env, store)))
    × (is_write "update" ≡ true
        → (("update" =ₛ "delete") ≡ true → read key after ≡ env.production_read key)
          × (("update" =ₛ "delete") ≡ false
              → (r : Record) × (read key after ≡ some r)
                × ((k : String) → get r k ≡ merged_field key new_name env store k))
          × ((other : Key)
              → same_key key other ≡ false
              → read other after ≡ read other (env, store)))
write-read_example = write-read "update" key new_name none env store
