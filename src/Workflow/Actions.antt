-- ===== src/Workflow/Actions.antt =====
-- `prepare_external_action`, and what the methods on external actions share. The JSON library and
-- the character classes of texts are parameters.
pub mod Dispatch
pub mod Ending
pub mod Finalize
use agent_runtime_platform.Base.{
  ℕ, String, Bool, true, false, not, ◌&&◌, ◌||◌, Option, none, some, List, [], ◌∷◌, ◌==◌, is_null,
  holds_number, if◌then◌else◌, any, str_eq,
}
use agent_runtime_platform.Base.Table
use agent_runtime_platform.Base.Table.{number_key, pair_key}
use agent_runtime_platform.Contracts.{
  Fields, num, str, literal, action_evidence, RuntimeExecutionAuthority,
}
use agent_runtime_platform.Models.{RunRecord}
use agent_runtime_platform.RunStore.{
  Clock, Result, ok, err, ◌>>=◌, ◌>>◌, guard, or_error, value_error, integrity_error,
  operational_error, run_not_found, execution_not_found, step_not_found, stale_attempt, find_run,
}
use agent_runtime_platform.Workflow.{
  Ledger, RunsTable, absent, unmigrated, migrated, ToolCallRecord, WorkflowExecutionRecord,
  ExternalActionRecord, ExternalActionStatus, prepared, dispatching, succeeded, action_failed,
  outcome_unknown, ToolRetryMode, safe, provider_idempotent, unsafe, ActionIdentity, action_key,
  find_action, find_step, find_execution, assert_run_lease, append_workflow_event,
}
use agent_runtime_platform.Workflow.Steps.{holds_attempt}

-- `_canonical_json_object`, which raises on a text that is no JSON object, and the test of
-- `_validate_error_code`.
pub record Texts : Type 0 where
  pub canonical : String → Option String
  pub is_machine_code : String → Bool

pub data ExternalActionPrepareOutcome : Type 0 where
  action_created action_existing identity_mismatch tool_attempt_mismatch :
      ExternalActionPrepareOutcome

pub record ExternalActionPrepareResult : Type 0 where
  pub outcome : ExternalActionPrepareOutcome
  pub action : Option ExternalActionRecord

-- `ExternalActionStatus.is_terminal`
abbrev pub is_terminal_action : ExternalActionStatus → Bool
is_terminal_action succeeded = true
is_terminal_action action_failed = true
is_terminal_action outcome_unknown = true
is_terminal_action _ = false

abbrev pub is_prepared : ExternalActionStatus → Bool
is_prepared prepared = true
is_prepared _ = false

abbrev pub is_dispatching : ExternalActionStatus → Bool
is_dispatching dispatching = true
is_dispatching _ = false

abbrev pub is_unsafe : ToolRetryMode → Bool
is_unsafe unsafe = true
is_unsafe _ = false

abbrev pub retry_value : ToolRetryMode → String
retry_value safe = "safe"
retry_value provider_idempotent = "provider_idempotent"
retry_value unsafe = "unsafe"

abbrev pub set_action : ExternalActionRecord → Ledger → Ledger
set_action a db = record db {
  external_actions = Table.set action_key (action_key a) a db.external_actions;
}

-- SELECT ... FROM runs WHERE run_id = ?, which a file without the table refuses.
unfoldable pub run_row : RunsTable → ℕ → Result RunRecord
run_row absent run_id = err operational_error
run_row (unmigrated ids) run_id = err run_not_found
run_row (migrated rows) run_id = or_error (find_run run_id rows) run_not_found

-- `_assert_current_tool_attempt`
unfoldable pub assert_tool_attempt : ℕ → Option ToolCallRecord → Result (Unit {0})
unfolding holds_attempt
assert_tool_attempt token none = err step_not_found
assert_tool_attempt token (some s) = guard (holds_attempt token s) stale_attempt

unfoldable pub is_complete_identity : ℕ × ℕ → ℕ → ActionIdentity → Bool
is_complete_identity key token i =
    not (key.0 == 0)
    && not (key.1 == 0)
    && not (token == 0)
    && not (i.tenant_id == 0)
    && not (i.subject_id == 0)
    && not (str_eq i.workflow_type "")
    && not (str_eq i.tool_name "")
    && not (str_eq i.provider_name "")
    && not (str_eq i.provider_identity "")
    && not (i.input_hash == 0)
    && not (i.idempotency_key == 0)

abbrev pub same_mode : ToolRetryMode → ToolRetryMode → Bool
same_mode safe safe = true
same_mode provider_idempotent provider_idempotent = true
same_mode unsafe unsafe = true
same_mode _ _ = false

-- `_external_action_identity(existing) == identity_values`
unfoldable pub same_action_identity : ActionIdentity → ActionIdentity → Bool
same_action_identity a b =
    a.tenant_id == b.tenant_id
    && a.subject_id == b.subject_id
    && str_eq a.workflow_type b.workflow_type
    && str_eq a.tool_name b.tool_name
    && str_eq a.provider_name b.provider_name
    && str_eq a.provider_identity b.provider_identity
    && a.input_hash == b.input_hash
    && str_eq a.arguments_json b.arguments_json
    && same_mode a.retry_mode b.retry_mode
    && a.idempotency_key == b.idempotency_key

authority_matches : ActionIdentity → Option RuntimeExecutionAuthority → Bool
authority_matches i none = false
authority_matches i (some a) = a.tenant_id == i.tenant_id && a.subject_id == i.subject_id

-- The run was created for the tenant and the subject of the action.
unfoldable pub owns_action : ActionIdentity → RunRecord → Bool
unfolding authority_matches
owns_action i run = run.tenant_id == i.tenant_id && authority_matches i run.execution_authority

unfoldable pub prepared_action : Clock → ℕ → ℕ × ℕ → ActionIdentity → ExternalActionRecord
prepared_action clock action_id key i = record {
  action_id = action_id;
  run_id = key.0;
  step_id = key.1;
  identity = i;
  status = prepared;
  dispatch_count = 0;
  dispatch_token = none;
  provider_reference = none;
  result_json = none;
  error_code = none;
  created_at = clock.utc_now;
  updated_at = clock.utc_now;
  dispatched_at = none;
  finalized_at = none;
}

abbrev pub prepared_payload : ExternalActionRecord → Fields
prepared_payload a =
    ("evidence_id", str (action_evidence a.action_id "prepared"))
    ∷ ("action_id", num a.action_id)
    ∷ ("step_id", num a.step_id)
    ∷ ("tool_name", str (literal a.identity.tool_name))
    ∷ ("provider_name", str (literal a.identity.provider_name))
    ∷ ("retry_mode", str (literal (retry_value a.identity.retry_mode)))
    ∷ ("status", str (literal "prepared"))
    ∷ []

abbrev pub prepare_answer :
    Ledger
    → ExternalActionPrepareOutcome
    → Option ExternalActionRecord
    → Result (Ledger × ExternalActionPrepareResult)
prepare_answer db outcome action = ok (db, record { outcome = outcome; action = action })

-- With the row of the action, if there is one. The identity holds the canonical arguments.
unfoldable pub prepare_on_row :
    Option ExternalActionRecord
    → Clock
    → ℕ
    → ℕ × ℕ
    → ActionIdentity
    → Ledger
    → Result (Ledger × ExternalActionPrepareResult)
unfolding same_action_identity prepared_action
prepare_on_row (some a) clock action_id key i db =
    prepare_answer db
      (if same_action_identity a.identity i then action_existing else identity_mismatch) (some a)
prepare_on_row none clock action_id key i db =
    if any (λ (a : ExternalActionRecord). a.identity.idempotency_key == i.idempotency_key)
      db.external_actions
    then prepare_answer db identity_mismatch none
    else (do
      let action = prepared_action clock action_id key i
      guard (not (any (λ (a : ExternalActionRecord). a.action_id == action_id) db.external_actions))
          integrity_error
      logged ←
          append_workflow_event key.0 "external_action.prepared" (prepared_payload action)
            clock.utc_now (record db { external_actions = action ∷ db.external_actions })
      ok (logged, record { outcome = action_created; action = some action }))

unfoldable pub prepare_for_step :
    WorkflowExecutionRecord
    → ToolCallRecord
    → Clock
    → ℕ
    → ℕ × ℕ
    → ℕ
    → ActionIdentity
    → Ledger
    → Result (Ledger × ExternalActionPrepareResult)
unfolding prepare_on_row
prepare_for_step execution step clock action_id key token i db =
    if not (
      str_eq execution.workflow_type i.workflow_type
      && str_eq step.tool_name i.tool_name
      && step.input_hash == i.input_hash)
    then prepare_answer db identity_mismatch none
    else if not (holds_attempt token step)
    then prepare_answer db tool_attempt_mismatch none
    else prepare_on_row (find_action key db.external_actions) clock action_id key i db

unfoldable pub prepare_for :
    RunRecord
    → Clock
    → ℕ
    → ℕ × ℕ
    → ℕ
    → ActionIdentity
    → Ledger
    → Result (Ledger × ExternalActionPrepareResult)
unfolding owns_action prepare_for_step
prepare_for run clock action_id key token i db =
    if not (owns_action i run) then prepare_answer db identity_mismatch none else (do
      execution ← or_error (find_execution key.0 db.workflow_executions) execution_not_found
      step ← or_error (find_step key db.tool_calls) step_not_found
      prepare_for_step execution step clock action_id key token i db)

unfoldable pub prepare_external_action :
    Texts
    → Clock
    → RunsTable
    → Option ℕ
    → ℕ
    → ℕ × ℕ
    → ℕ
    → ActionIdentity
    → Ledger
    → Result (Ledger × ExternalActionPrepareResult)
unfolding is_complete_identity prepare_for
prepare_external_action texts clock runs lease action_id key token i db = do
  arguments ← or_error (texts.canonical i.arguments_json) value_error
  guard (is_complete_identity key token i) value_error
  assert_run_lease clock.now_ms key.0 lease runs
  run ← run_row runs key.0
  prepare_for run clock action_id key token (record i { arguments_json = arguments }) db
