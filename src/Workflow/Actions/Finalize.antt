-- ===== src/Workflow/Actions/Finalize.antt =====
-- `_finalize_external_action` with its five callers: the action and its step end together.
use agent_runtime_platform.Base.{
  ℕ, String, true, false, not, ◌&&◌, ◌||◌, Option, none, some, [], ◌∷◌, holds_number, if◌then◌else◌,
}
use agent_runtime_platform.Contracts.{Fields, num, str, literal, action_evidence}
use agent_runtime_platform.RunStore.{
  Clock, Result, ok, err, ◌>>=◌, ◌>>◌, guard, or_error, value_error, runtime_error,
  action_not_found, step_not_found, stale_attempt, stale_dispatch,
}
use agent_runtime_platform.Workflow.{
  Ledger, RunsTable, ToolCallRecord, ExternalActionRecord, ExternalActionStatus, succeeded,
  action_failed, outcome_unknown, find_action, find_step, assert_run_lease, append_workflow_event,
}
use agent_runtime_platform.Workflow.Executions.{optional_str}
use agent_runtime_platform.Workflow.Steps.{holds_attempt, finish_step, set_step, finished_payload}
use agent_runtime_platform.Workflow.Actions.{
  Texts, is_terminal_action, is_dispatching, is_unsafe, set_action,
}
use agent_runtime_platform.Workflow.Actions.Ending.{
  Ending, EndingRule, status_value, ending_event, tool_status, check_ending, is_duplicate,
}

unfoldable pub end_action :
    Clock → Ending → Option String → ExternalActionRecord → ExternalActionRecord
end_action clock e result a = record a {
  status = e.status;
  provider_reference = e.provider_reference;
  result_json = result;
  error_code = e.error_code;
  updated_at = clock.utc_now;
  finalized_at = some clock.utc_now;
}

abbrev pub ending_payload : ExternalActionRecord → Ending → Fields
ending_payload a e =
    ("evidence_id", str (action_evidence a.action_id "outcome"))
    ∷ ("action_id", num a.action_id)
    ∷ ("step_id", num a.step_id)
    ∷ ("tool_name", str (literal a.identity.tool_name))
    ∷ ("provider_name", str (literal a.identity.provider_name))
    ∷ ("status", str (literal (status_value e.status)))
    ∷ ("dispatch_count", num a.dispatch_count)
    ∷ ("provider_reference", optional_str e.provider_reference)
    ∷ ("error_code", optional_str e.error_code)
    ∷ []

abbrev pub step_event : ExternalActionStatus → String
step_event succeeded = "step.completed"
step_event _ = "step.failed"

abbrev pub step_outcome : ExternalActionStatus → String
step_outcome succeeded = "completed"
step_outcome _ = "failed"

-- Both UPDATEs and both events.
unfoldable pub write_ending :
    Clock
    → ℕ
    → Ending
    → Option String
    → ExternalActionRecord
    → ToolCallRecord
    → Ledger
    → Result (Ledger × ExternalActionRecord)
unfolding end_action finish_step
write_ending clock attempt e result a s db = do
  guard (holds_attempt attempt s) stale_attempt
  let ended = end_action clock e result a
  let step = finish_step clock (tool_status e.status) result e.error_code s
  told ←
      append_workflow_event a.run_id (ending_event e.status) (ending_payload a e) clock.utc_now
        (set_step step (set_action ended db))
  logged ←
      append_workflow_event a.run_id (step_event e.status)
        (finished_payload step (step_outcome e.status)) clock.utc_now told
  ok (logged, ended)

-- A terminal action: the same ending again is answered with the stored row.
unfoldable pub finalize_terminal :
    ℕ
    → ℕ
    → Ending
    → Option String
    → ExternalActionRecord
    → Option ToolCallRecord
    → Ledger
    → Result (Ledger × ExternalActionRecord)
unfolding is_duplicate
finalize_terminal token attempt e result a none db = err runtime_error
finalize_terminal token attempt e result a (some s) db = do
  guard (is_duplicate token attempt e result a s) stale_dispatch
  ok (db, a)

unfoldable pub finalize_open :
    Clock
    → ℕ
    → ℕ
    → Ending
    → Option String
    → ExternalActionRecord
    → Option ToolCallRecord
    → Ledger
    → Result (Ledger × ExternalActionRecord)
unfolding write_ending
finalize_open clock token attempt e result a step db = do
  guard (is_dispatching a.status && holds_number a.dispatch_token token) stale_dispatch
  s ← or_error step step_not_found
  write_ending clock attempt e result a s db

unfoldable pub finalize_action_on_row :
    EndingRule
    → Clock
    → ℕ × ℕ
    → ℕ
    → ℕ
    → Ending
    → Option String
    → ExternalActionRecord
    → Ledger
    → Result (Ledger × ExternalActionRecord)
unfolding finalize_terminal finalize_open
finalize_action_on_row rule clock key token attempt e result a db = do
  guard (not rule.requires_unsafe || is_unsafe a.identity.retry_mode) value_error
  let step = find_step key db.tool_calls
  if is_terminal_action a.status
      then finalize_terminal token attempt e result a step db
      else finalize_open clock token attempt e result a step db

unfoldable pub finalize_external_action :
    EndingRule
    → Texts
    → Clock
    → RunsTable
    → Option ℕ
    → ℕ × ℕ
    → ℕ
    → ℕ
    → Ending
    → Ledger
    → Result (Ledger × ExternalActionRecord)
unfolding check_ending finalize_action_on_row
finalize_external_action rule texts clock runs lease key token attempt e db = do
  result ← check_ending texts e
  if rule.requires_lease then assert_run_lease clock.now_ms key.0 lease runs else ok tt
  action ← or_error (find_action key db.external_actions) action_not_found
  finalize_action_on_row rule clock key token attempt e result action db

-- The five callers differ in the ending and the rule: a provider's answer needs no lease, a decision
-- of reconciliation needs one, and a restart may close only an unsafe action.
abbrev pub by_provider : EndingRule
by_provider = record { requires_lease = false; requires_unsafe = false }

abbrev pub by_reconciliation : EndingRule
by_reconciliation = record { requires_lease = true; requires_unsafe = false }

abbrev pub by_restart : EndingRule
by_restart = record { requires_lease = true; requires_unsafe = true }

abbrev pub success : String → String → Option String → Ending
success result reference error = record {
  status = succeeded;
  result_json = some result;
  provider_reference = some reference;
  error_code = error;
}

abbrev pub failure : String → Option String → Ending
failure error reference = record {
  status = action_failed;
  result_json = none;
  provider_reference = reference;
  error_code = some error;
}

abbrev pub unknown_outcome : String → Option String → Ending
unknown_outcome error reference = record {
  status = outcome_unknown;
  result_json = none;
  provider_reference = reference;
  error_code = some error;
}

unfoldable pub finalize_external_action_succeeded :
    Texts
    → Clock
    → RunsTable
    → ℕ × ℕ
    → ℕ
    → ℕ
    → String
    → String
    → Option String
    → Ledger
    → Result (Ledger × ExternalActionRecord)
unfolding finalize_external_action
finalize_external_action_succeeded texts clock runs key token attempt result reference error db =
    finalize_external_action by_provider texts clock runs none key token attempt
      (success result reference error) db

unfoldable pub finalize_external_action_failed :
    Texts
    → Clock
    → RunsTable
    → ℕ × ℕ
    → ℕ
    → ℕ
    → String
    → Option String
    → Ledger
    → Result (Ledger × ExternalActionRecord)
unfolding finalize_external_action
finalize_external_action_failed texts clock runs key token attempt error reference db =
    finalize_external_action by_provider texts clock runs none key token attempt
      (failure error reference) db

unfoldable pub finalize_external_action_outcome_unknown :
    Texts
    → Clock
    → RunsTable
    → ℕ × ℕ
    → ℕ
    → ℕ
    → String
    → Option String
    → Ledger
    → Result (Ledger × ExternalActionRecord)
unfolding finalize_external_action
finalize_external_action_outcome_unknown texts clock runs key token attempt error reference db =
    finalize_external_action by_provider texts clock runs none key token attempt
      (unknown_outcome error reference) db

unfoldable pub finalize_external_action_reconciliation_unknown :
    Texts
    → Clock
    → RunsTable
    → Option ℕ
    → ℕ × ℕ
    → ℕ
    → ℕ
    → String
    → Option String
    → Ledger
    → Result (Ledger × ExternalActionRecord)
unfolding finalize_external_action
finalize_external_action_reconciliation_unknown texts clock runs lease key token attempt error
      reference db =
    finalize_external_action by_reconciliation texts clock runs lease key token attempt
      (unknown_outcome error reference) db

unfoldable pub finalize_unsafe_interrupted_action :
    Texts
    → Clock
    → RunsTable
    → Option ℕ
    → ℕ × ℕ
    → ℕ
    → ℕ
    → String
    → Ledger
    → Result (Ledger × ExternalActionRecord)
unfolding finalize_external_action
finalize_unsafe_interrupted_action texts clock runs lease key token attempt error db =
    finalize_external_action by_restart texts clock runs lease key token attempt
      (unknown_outcome error none) db
