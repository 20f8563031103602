-- ===== src/Workflow/Executions.antt =====
-- `create_or_get_execution`, `mark_running` and `_finalize_execution` with its three callers.
use agent_runtime_platform.Base.{
  ℕ, String, Bool, not, Option, none, some, [], ◌∷◌, ◌==◌, if◌then◌else◌, str_eq,
}
use agent_runtime_platform.Base.Table
use agent_runtime_platform.Base.Table.{number_key}
use agent_runtime_platform.Contracts.{Fields, Json, null, str, literal}
use agent_runtime_platform.RunStore.{Clock, Result, ok, err, ◌>>=◌, ◌>>◌, execution_not_found}
use agent_runtime_platform.Workflow.{
  Ledger, RunsTable, WorkflowStatus, pending, running, ready, blocked, failed,
  WorkflowExecutionRecord, ExecutionOutcome, created, existing, execution_input_mismatch,
  workflow_type_mismatch, is_pending_execution, is_running_execution, execution_key, find_execution,
  assert_run_lease, append_workflow_event,
}

unfoldable pub resolve_execution_conflict :
    WorkflowExecutionRecord → String → ℕ → ExecutionOutcome × WorkflowExecutionRecord
resolve_execution_conflict e workflow_type input_hash =
    if not (str_eq e.workflow_type workflow_type)
    then (workflow_type_mismatch, e)
    else if not (e.input_hash == input_hash)
    then (execution_input_mismatch, e)
    else (existing, e)

unfoldable pub new_execution : Clock → ℕ → String → ℕ → WorkflowExecutionRecord
new_execution clock run_id workflow_type input_hash = record {
  run_id = run_id;
  workflow_type = workflow_type;
  input_hash = input_hash;
  status = pending;
  result_json = none;
  error_code = none;
  created_at = clock.utc_now;
  updated_at = clock.utc_now;
  completed_at = none;
}

-- After the SELECT: within the write lock the INSERT meets no row with the id.
unfoldable pub create_on_row :
    Option WorkflowExecutionRecord
    → Clock
    → ℕ
    → String
    → ℕ
    → Ledger
    → Result (Ledger × (ExecutionOutcome × WorkflowExecutionRecord))
unfolding new_execution
create_on_row (some e) clock run_id workflow_type input_hash db =
    ok (db, resolve_execution_conflict e workflow_type input_hash)
create_on_row none clock run_id workflow_type input_hash db =
    let e = new_execution clock run_id workflow_type input_hash in
    ok (record db { workflow_executions = e ∷ db.workflow_executions }, (created, e))

unfoldable pub create_or_get_execution :
    Clock
    → RunsTable
    → Option ℕ
    → ℕ
    → String
    → ℕ
    → Ledger
    → Result (Ledger × (ExecutionOutcome × WorkflowExecutionRecord))
unfolding create_on_row
create_or_get_execution clock runs lease run_id workflow_type input_hash db = do
  assert_run_lease clock.now_ms run_id lease runs
  create_on_row (find_execution run_id db.workflow_executions) clock run_id workflow_type input_hash
      db

-- UPDATE workflow_executions SET ... WHERE run_id = ? AND status = ?, the SELECT of the row, and
-- the event of a row that was changed.
unfoldable pub change_execution :
    Option WorkflowExecutionRecord
    → (WorkflowStatus → Bool)
    → (WorkflowExecutionRecord → WorkflowExecutionRecord)
    → String
    → Fields
    → ℕ
    → Ledger
    → Result (Ledger × WorkflowExecutionRecord)
change_execution none from to event_type payload at db = err execution_not_found
change_execution (some e) from to event_type payload at db =
    if from e.status
    then (do
      logged ← append_workflow_event e.run_id event_type payload at (record db {
        workflow_executions = Table.set execution_key e.run_id (to e) db.workflow_executions;
      })
      ok (logged, to e))
    else ok (db, e)

unfoldable pub start_execution : Clock → WorkflowExecutionRecord → WorkflowExecutionRecord
start_execution clock e = record e { status = running; updated_at = clock.utc_now }

unfoldable pub mark_running :
    Clock → RunsTable → Option ℕ → ℕ → Ledger → Result (Ledger × WorkflowExecutionRecord)
unfolding change_execution
mark_running clock runs lease run_id db = do
  assert_run_lease clock.now_ms run_id lease runs
  change_execution (find_execution run_id db.workflow_executions) is_pending_execution
      (start_execution clock) "workflow.started" [] clock.utc_now db

unfoldable pub finish_execution :
    Clock
    → WorkflowStatus
    → Option String
    → Option String
    → WorkflowExecutionRecord
    → WorkflowExecutionRecord
finish_execution clock status result error e = record e {
  status = status;
  result_json = result;
  error_code = error;
  updated_at = clock.utc_now;
  completed_at = some clock.utc_now;
}

abbrev pub optional_str : Option String → Json
optional_str none = null
optional_str (some s) = str (literal s)

unfoldable pub finalize_execution :
    Clock
    → RunsTable
    → Option ℕ
    → ℕ
    → WorkflowStatus
    → Option String
    → Option String
    → String
    → Ledger
    → Result (Ledger × WorkflowExecutionRecord)
unfolding change_execution
finalize_execution clock runs lease run_id status result error event_type db = do
  assert_run_lease clock.now_ms run_id lease runs
  change_execution (find_execution run_id db.workflow_executions) is_running_execution
      (finish_execution clock status result error) event_type
      (("error_code", optional_str error) ∷ []) clock.utc_now db

unfoldable pub finalize_ready :
    Clock → RunsTable → Option ℕ → ℕ → String → Ledger → Result (Ledger × WorkflowExecutionRecord)
unfolding finalize_execution
finalize_ready clock runs lease run_id result db =
    finalize_execution clock runs lease run_id ready (some result) none "workflow.ready" db

unfoldable pub finalize_blocked :
    Clock
    → RunsTable
    → Option ℕ
    → ℕ
    → String
    → String
    → Ledger
    → Result (Ledger × WorkflowExecutionRecord)
unfolding finalize_execution
finalize_blocked clock runs lease run_id result error db =
    finalize_execution clock runs lease run_id blocked (some result) (some error) "workflow.blocked"
      db

unfoldable pub finalize_failed :
    Clock → RunsTable → Option ℕ → ℕ → String → Ledger → Result (Ledger × WorkflowExecutionRecord)
unfolding finalize_execution
finalize_failed clock runs lease run_id error db =
    finalize_execution clock runs lease run_id failed none (some error) "workflow.failed" db
