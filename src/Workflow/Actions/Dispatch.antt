-- ===== src/Workflow/Actions/Dispatch.antt =====
-- `begin_external_action_dispatch` and `retry_external_action_dispatch`. The dispatch token that a
-- claim makes is its argument.
use agent_runtime_platform.Base.{
  ℕ, suc, Bool, true, false, not, ◌||◌, Option, none, some, [], ◌∷◌, holds_number, if◌then◌else◌,
}
use agent_runtime_platform.Contracts.{Fields, bool, num, str, literal, dispatch_evidence}
use agent_runtime_platform.Models.{RunRecord, is_running}
use agent_runtime_platform.RunStore.{
  Clock, Result, ok, ◌>>=◌, ◌>>◌, guard, or_error, action_not_found, stale_dispatch,
}
use agent_runtime_platform.Workflow.{
  Ledger, RunsTable, ExternalActionRecord, dispatching, find_action, find_step, assert_run_lease,
  append_workflow_event,
}
use agent_runtime_platform.Workflow.Actions.{
  is_terminal_action, is_prepared, is_dispatching, is_unsafe, set_action, run_row,
  assert_tool_attempt,
}

pub data ExternalActionDispatchOutcome : Type 0 where
  dispatch_claimed retry_claimed already_dispatching retry_unsafe not_dispatching run_cancelled
        terminal :
      ExternalActionDispatchOutcome

pub record ExternalActionDispatchResult : Type 0 where
  pub outcome : ExternalActionDispatchOutcome
  pub action : ExternalActionRecord
  pub dispatch_token : Option ℕ

abbrev pub dispatch_answer :
    Ledger
    → ExternalActionDispatchOutcome
    → ExternalActionRecord
    → Option ℕ
    → Result (Ledger × ExternalActionDispatchResult)
dispatch_answer db outcome a token =
    ok (db, record { outcome = outcome; action = a; dispatch_token = token })

unfoldable pub dispatch_action : Clock → ℕ → ExternalActionRecord → ExternalActionRecord
dispatch_action clock token a = record a {
  status = dispatching;
  dispatch_count = suc a.dispatch_count;
  dispatch_token = some token;
  updated_at = clock.utc_now;
  dispatched_at = some clock.utc_now;
}

-- `_append_dispatch_event`
abbrev pub dispatch_payload : ExternalActionRecord → Bool → Fields
dispatch_payload a retry =
    ("evidence_id", str (dispatch_evidence a.action_id a.dispatch_count))
    ∷ ("action_id", num a.action_id)
    ∷ ("step_id", num a.step_id)
    ∷ ("tool_name", str (literal a.identity.tool_name))
    ∷ ("provider_name", str (literal a.identity.provider_name))
    ∷ ("status", str (literal "dispatching"))
    ∷ ("dispatch_count", num a.dispatch_count)
    ∷ ("retry", bool retry)
    ∷ []

-- The UPDATE of the row, and the event of the refreshed row.
unfoldable pub write_dispatch :
    Clock
    → ℕ
    → ExternalActionRecord
    → Bool
    → ExternalActionDispatchOutcome
    → Ledger
    → Result (Ledger × ExternalActionDispatchResult)
unfolding dispatch_action
write_dispatch clock token a retry outcome db = do
  let refreshed = dispatch_action clock token a
  logged ←
      append_workflow_event a.run_id "external_action.dispatch_started"
        (dispatch_payload refreshed retry) clock.utc_now (set_action refreshed db)
  dispatch_answer logged outcome refreshed (some token)

unfoldable pub begin_for_run :
    RunRecord
    → Clock
    → ℕ × ℕ
    → ℕ
    → ℕ
    → ExternalActionRecord
    → Ledger
    → Result (Ledger × ExternalActionDispatchResult)
unfolding write_dispatch
begin_for_run run clock key attempt token a db =
    if not (is_running run.status) || run.cancel_requested
    then dispatch_answer db run_cancelled a none
    else (do
      assert_tool_attempt attempt (find_step key db.tool_calls)
      guard (is_prepared a.status) stale_dispatch
      write_dispatch clock token a false dispatch_claimed db)

unfoldable pub begin_on_row :
    Clock
    → RunsTable
    → ℕ × ℕ
    → ℕ
    → ℕ
    → ExternalActionRecord
    → Ledger
    → Result (Ledger × ExternalActionDispatchResult)
unfolding begin_for_run
begin_on_row clock runs key attempt token a db =
    if is_terminal_action a.status
    then dispatch_answer db terminal a none
    else if is_dispatching a.status
    then dispatch_answer db already_dispatching a a.dispatch_token
    else (do run ← run_row runs key.0; begin_for_run run clock key attempt token a db)

unfoldable pub begin_external_action_dispatch :
    Clock
    → RunsTable
    → Option ℕ
    → ℕ × ℕ
    → ℕ
    → ℕ
    → Ledger
    → Result (Ledger × ExternalActionDispatchResult)
unfolding begin_on_row
begin_external_action_dispatch clock runs lease key attempt token db = do
  assert_run_lease clock.now_ms key.0 lease runs
  action ← or_error (find_action key db.external_actions) action_not_found
  begin_on_row clock runs key attempt token action db

unfoldable pub retry_on_row :
    Clock
    → ℕ × ℕ
    → ℕ
    → ℕ
    → ℕ
    → ExternalActionRecord
    → Ledger
    → Result (Ledger × ExternalActionDispatchResult)
unfolding write_dispatch
retry_on_row clock key previous attempt token a db =
    if is_terminal_action a.status
    then dispatch_answer db terminal a none
    else if not (is_dispatching a.status)
    then dispatch_answer db not_dispatching a none
    else if is_unsafe a.identity.retry_mode
    then dispatch_answer db retry_unsafe a a.dispatch_token
    else (do
      guard (holds_number a.dispatch_token previous) stale_dispatch
      assert_tool_attempt attempt (find_step key db.tool_calls)
      write_dispatch clock token a true retry_claimed db)

unfoldable pub retry_external_action_dispatch :
    Clock
    → RunsTable
    → Option ℕ
    → ℕ × ℕ
    → ℕ
    → ℕ
    → ℕ
    → Ledger
    → Result (Ledger × ExternalActionDispatchResult)
unfolding retry_on_row
retry_external_action_dispatch clock runs lease key previous attempt token db = do
  assert_run_lease clock.now_ms key.0 lease runs
  action ← or_error (find_action key db.external_actions) action_not_found
  retry_on_row clock key previous attempt token action db
