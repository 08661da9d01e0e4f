-- ===== src/Ooe/Execute.antt =====
-- `OoERuntime.execute_save` of runtime/ooe/state_machine.py.
use salesforce.Common.{
  suc, Bool, true, false, not, ◌&&◌, Option, none, some, String, ltb, ◌=ₛ◌, if◌then◌else◌,
}
use salesforce.Common.Exec.{Outcome, ok, raise, ◌>>◌}
use salesforce.Value.{Record}
use salesforce.Ooe.Step.{
  before_triggers, custom_validation, after_triggers, assignment_rules, auto_response_rules,
  workflow_rules,
}
use salesforce.Ooe.Context.{
  TransactionContext, OoeError, mixed_dml, cascade_depth_exceeded, validation_failed,
  validation_message, Platform, OoeRuntime, Save, new_context, is_setup_object,
}
use salesforce.Ooe.Pipeline.{OoeM, run_step, maybe_fire_flows}

set_ctx : (TransactionContext → TransactionContext) → Save → Save
set_ctx f s = record s { ctx = f s.ctx }

-- `_record_object_class`.
unfoldable pub touch : Bool → TransactionContext → TransactionContext
touch true c = record c { setup_touched = true }
touch false c = record c { nonsetup_touched = true }

unfoldable pub record_object_class : String → OoeM
unfolding set_ctx touch
record_object_class sobject s =
    let t = set_ctx (touch (is_setup_object sobject)) s in
    if t.ctx.setup_touched && t.ctx.nonsetup_touched
    then (raise (mixed_dml t.ctx.transaction_id), t)
    else (ok tt, t)

-- A child counts itself in the depth of the context that it shares.
unfoldable pub enter_child : OoeRuntime → OoeM
unfolding set_ctx
enter_child rt s =
    let t = set_ctx (λ c. record c { cascade_depth = suc c.cascade_depth }) s in
    if ltb rt.cascade_depth_limit t.ctx.cascade_depth
    then (raise (cascade_depth_exceeded t.ctx.cascade_depth rt.cascade_depth_limit), t)
    else (ok tt, t)

unfoldable pub enter : OoeRuntime → Bool → OoeM
unfolding enter_child
enter rt is_child s = if is_child then enter_child rt s else (ok tt, s)

-- The `except ValidationFailedError` of the save: the context is marked, and the exception goes on.
unfoldable pub mark_aborted : Outcome OoeError (Unit {0}) → Save → Save
unfolding set_ctx
mark_aborted (raise (validation_failed rs)) s =
    set_ctx (λ c. record c { aborted = true; abort_reason = some (validation_message rs) }) s
mark_aborted _ s = s

unfoldable pub guarded : OoeM → OoeM
unfolding mark_aborted
guarded m s = let (r, t) = m s in (r, mark_aborted r t)

module _ (py : Platform) (rt : OoeRuntime) where
  -- Steps 5 and 6.
  unfoldable pub before_save : String → OoeM
  before_save sobject = do
    run_step py rt before_triggers false sobject
    run_step py rt custom_validation true sobject

  -- Steps 9 to 13.
  unfoldable pub after_save : String → OoeM
  after_save sobject = do
    run_step py rt after_triggers false sobject
    run_step py rt assignment_rules false sobject
    run_step py rt auto_response_rules false sobject
    run_step py rt workflow_rules false sobject
    maybe_fire_flows py rt sobject

  -- Steps 5 and 9 once more, if step 12 asked for them and no cycle has run in this transaction.
  unfoldable pub refire_cycle : String → OoeM
  refire_cycle sobject = do
    run_step py rt before_triggers false sobject
    run_step py rt after_triggers false sobject

  unfoldable pub start_refire : Save → Save
  unfolding set_ctx
  start_refire = set_ctx (λ c. record c { refire_done = true; workflow_refire_flag = false })

  unfoldable pub maybe_refire : String → OoeM
  unfolding start_refire
  maybe_refire sobject s =
      if s.ctx.workflow_refire_flag && not s.ctx.refire_done
      then refire_cycle sobject (start_refire s)
      else (ok tt, s)

  unfoldable pub pipeline : String → OoeM
  pipeline sobject = do before_save sobject; after_save sobject; maybe_refire sobject

  -- The save from its context on.
  unfoldable pub save_in : Bool → String → OoeM
  save_in is_child sobject = do
    enter rt is_child
    record_object_class sobject
    guarded (pipeline sobject)

  -- `transaction_id or _new_txn_id()`.
  unfoldable pub txn_id : Option String → String → String
  txn_id none new_id = new_id
  txn_id (some t) new_id = if t =ₛ "" then new_id else t

  -- A save without a parent, in the context that it makes.
  unfoldable pub execute_top :
      String → Record → Option String → String → Outcome OoeError (Unit {0}) × Save
  execute_top sobject record_ transaction_id new_id = save_in false sobject (record {
    ctx = new_context rt sobject record_ (txn_id transaction_id new_id);
    record_ = record_;
  })

  -- A save with a parent, in the parent's context.
  unfoldable pub execute_child :
      String → Record → TransactionContext → Outcome OoeError (Unit {0}) × Save
  execute_child sobject record_ parent_ctx =
      save_in true sobject (record { ctx = parent_ctx; record_ = record_ })

  -- `execute_save`. The state comes back also when the save raises: the caller holds the record and
  -- the parent's context.
  unfoldable pub execute_save :
      String
      → Record
      → Option String
      → String
      → Option TransactionContext
      → Outcome OoeError (Unit {0}) × Save
  unfolding execute_top execute_child
  execute_save sobject record_ transaction_id new_id none =
      execute_top sobject record_ transaction_id new_id
  execute_save sobject record_ transaction_id new_id (some parent_ctx) =
      execute_child sobject record_ parent_ctx
