-- ===== src/Workflow.antt =====
-- runtime_service/workflow_store.py: the tables of `SQLiteWorkflowStore`, the statements that its
-- methods share, and the fence `_assert_current_run_lease`. A method is one transaction, as in the
-- run store: an error or a rollback leaves the tables as they were.
pub mod Executions
pub mod Steps
pub mod Reuse
pub mod Actions
pub mod Calls
pub mod Moves
pub mod WellFormed
pub mod KeepActions
pub mod Keep
pub mod History
pub mod Attempts
pub mod Bound
pub mod Claims
pub mod Evidence
pub mod Replay
pub mod Grants
pub mod Intents
pub mod Stale
pub mod Endings
use agent_runtime_platform.Base.{
  ℕ, suc, String, Bool, true, false, not, ◌&&◌, Option, none, some, List, [], ◌∷◌, ◌==◌, is_null,
  holds_number, if◌then◌else◌, any,
}
use agent_runtime_platform.Base.Table
use agent_runtime_platform.Base.Table.{number_key, pair_key}
use agent_runtime_platform.Contracts.{Fields}
use agent_runtime_platform.Models.{RunRecord, RunEvent}
use agent_runtime_platform.RunStore.{
  Result, ok, err, guard, integrity_error, lease_is_lost, find_run,
}
use agent_runtime_platform.RunStore.Events.{max_sequence}
use agent_runtime_platform.RunStore.Lease.{holds_lease}

pub data WorkflowStatus : Type 0 where
  pending running ready blocked failed : WorkflowStatus

pub data ToolCallStatus : Type 0 where
  call_pending call_running call_completed call_failed : ToolCallStatus

pub data ClaimOutcome : Type 0 where
  claimed cached already_running input_mismatch definition_mismatch attempts_exhausted :
      ClaimOutcome

pub data ExecutionOutcome : Type 0 where
  created existing execution_input_mismatch workflow_type_mismatch : ExecutionOutcome

pub data StepReuseOutcome : Type 0 where
  copied step_existing not_reusable : StepReuseOutcome

-- `WorkflowStatus.is_terminal`
abbrev pub is_final : WorkflowStatus → Bool
is_final ready = true
is_final blocked = true
is_final failed = true
is_final _ = false

abbrev pub is_pending_execution : WorkflowStatus → Bool
is_pending_execution pending = true
is_pending_execution _ = false

abbrev pub is_running_execution : WorkflowStatus → Bool
is_running_execution running = true
is_running_execution _ = false

abbrev pub is_running_call : ToolCallStatus → Bool
is_running_call call_running = true
is_running_call _ = false

abbrev pub is_completed_call : ToolCallStatus → Bool
is_completed_call call_completed = true
is_completed_call _ = false

abbrev pub is_failed_call : ToolCallStatus → Bool
is_failed_call call_failed = true
is_failed_call _ = false

-- A `WorkflowExecutionRecord`, and the row of table `workflow_executions` that holds it.
pub record WorkflowExecutionRecord : Type 0 where
  pub run_id : ℕ
  pub workflow_type : String
  pub input_hash : ℕ
  pub status : WorkflowStatus
  pub result_json : Option String
  pub error_code : Option String
  pub created_at : ℕ
  pub updated_at : ℕ
  pub completed_at : Option ℕ

-- A `ToolCallRecord`, and the row of table `tool_calls` that holds it.
pub record ToolCallRecord : Type 0 where
  pub call_id : ℕ
  pub run_id : ℕ
  pub step_id : ℕ
  pub tool_name : String
  pub input_hash : ℕ
  pub status : ToolCallStatus
  pub attempt_count : ℕ
  pub attempt_token : Option ℕ
  pub result_json : Option String
  pub error_code : Option String
  pub created_at : ℕ
  pub updated_at : ℕ

pub data ExternalActionStatus : Type 0 where
  prepared dispatching succeeded action_failed outcome_unknown : ExternalActionStatus

-- The retry contract of a tool (runtime_service/sandbox.py).
pub data ToolRetryMode : Type 0 where
  safe provider_idempotent unsafe : ToolRetryMode

-- The fields that `_external_action_identity` compares.
pub record ActionIdentity : Type 0 where
  pub tenant_id : ℕ
  pub subject_id : ℕ
  pub workflow_type : String
  pub tool_name : String
  pub provider_name : String
  pub provider_identity : String
  pub input_hash : ℕ
  pub arguments_json : String
  pub retry_mode : ToolRetryMode
  pub idempotency_key : ℕ

-- An `ExternalActionRecord`, and the row of table `external_actions` that holds it.
pub record ExternalActionRecord : Type 0 where
  pub action_id : ℕ
  pub run_id : ℕ
  pub step_id : ℕ
  pub identity : ActionIdentity
  pub status : ExternalActionStatus
  pub dispatch_count : ℕ
  pub dispatch_token : Option ℕ
  pub provider_reference : Option String
  pub result_json : Option String
  pub error_code : Option String
  pub created_at : ℕ
  pub updated_at : ℕ
  pub dispatched_at : Option ℕ
  pub finalized_at : Option ℕ

-- A `WorkflowEvent` has the fields of a `RunEvent`.
pub record Ledger : Type 0 where
  pub workflow_executions : List WorkflowExecutionRecord
  pub tool_calls : List ToolCallRecord
  pub external_actions : List ExternalActionRecord
  pub workflow_events : List RunEvent
  pub last_event_id : ℕ

-- Table `runs` of the same file: there may be none, or one from before the lease columns, of which
-- the ids are given.
pub data RunsTable : Type 0 where
  absent : RunsTable
  unmigrated : List ℕ → RunsTable
  migrated : List RunRecord → RunsTable

abbrev pub execution_key : WorkflowExecutionRecord → ℕ
execution_key e = e.run_id

abbrev pub find_execution : ℕ → List WorkflowExecutionRecord → Option WorkflowExecutionRecord
find_execution = Table.find execution_key

abbrev pub step_key : ToolCallRecord → ℕ × ℕ
step_key s = (s.run_id, s.step_id)

abbrev pub find_step : ℕ × ℕ → List ToolCallRecord → Option ToolCallRecord
find_step = Table.find step_key

abbrev pub action_key : ExternalActionRecord → ℕ × ℕ
action_key a = (a.run_id, a.step_id)

abbrev pub find_action : ℕ × ℕ → List ExternalActionRecord → Option ExternalActionRecord
find_action = Table.find action_key

-- The SELECT of `_assert_current_run_lease`: `lease_token = NULL` holds for no row.
unfoldable pub lease_is_current : ℕ → Option ℕ → RunRecord → Bool
lease_is_current now none r = false
lease_is_current now (some token) r = holds_lease token now r

unfoldable pub managed_run : ℕ → Option ℕ → Option RunRecord → Bool
unfolding lease_is_current
managed_run now token none = is_null token
managed_run now token (some r) = lease_is_current now token r

-- The condition under which `_assert_current_run_lease` does not raise.
unfoldable pub has_authority : ℕ → ℕ → Option ℕ → RunsTable → Bool
unfolding managed_run
has_authority now run_id token absent = is_null token
has_authority now run_id token (unmigrated ids) = not (any (λ i. i == run_id) ids) && is_null token
has_authority now run_id token (migrated rows) = managed_run now token (find_run run_id rows)

unfoldable pub assert_run_lease : ℕ → ℕ → Option ℕ → RunsTable → Result (Unit {0})
unfolding has_authority
assert_run_lease now run_id token runs = guard (has_authority now run_id token runs) lease_is_lost

-- `_append_event_with_connection`, with the foreign key and UNIQUE(run_id, sequence) of the table.
unfoldable pub append_workflow_event : ℕ → String → Fields → ℕ → Ledger → Result Ledger
append_workflow_event run_id event_type payload created_at db =
    let sequence : ℕ = suc (max_sequence run_id db.workflow_events) in
    let event : RunEvent = record {
      event_id = suc db.last_event_id;
      run_id = run_id;
      sequence = sequence;
      event_type = event_type;
      payload = payload;
      created_at = created_at;
    } in
    if is_null (find_execution run_id db.workflow_executions)
    then err integrity_error
    else if any (λ e. e.run_id == run_id && e.sequence == sequence) db.workflow_events
    then err integrity_error
    else ok (record db {
      workflow_events = event ∷ db.workflow_events;
      last_event_id = suc db.last_event_id;
    })
