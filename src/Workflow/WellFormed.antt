-- ===== src/Workflow/WellFormed.antt =====
-- What holds of the tables of the workflow store whatever calls are made.
use agent_runtime_platform.Base.{ℕ, false, some, [], ◌≡◌, is_null}
use agent_runtime_platform.Base.Table
use agent_runtime_platform.Base.Table.{number_key, pair_key}
use agent_runtime_platform.RunStore.Invariant.{Numbered}
use agent_runtime_platform.Workflow.{
  Ledger, ToolCallRecord, execution_key, step_key, find_execution, find_step, ExternalActionRecord,
  action_key, find_action,
}
use agent_runtime_platform.Workflow.Moves.{ActionOk, StepOk}

abbrev pub no_ledger : Ledger
no_ledger = record {
  workflow_executions = [];
  tool_calls = [];
  external_actions = [];
  workflow_events = [];
  last_event_id = 0;
}

-- Keys are unique, idempotency keys too, every step is one of an execution, steps and actions agree
-- with their status, and the events of each execution are numbered without a gap.
pub record LedgerInv (db : Ledger) : Type 0 where
  pub executions : Table.Distinct execution_key db.workflow_executions
  pub distinct : Table.Distinct step_key db.tool_calls
  pub steps : (k : ℕ × ℕ) (s : ToolCallRecord) → find_step k db.tool_calls ≡ some s → StepOk s
  pub owned :
      (k : ℕ × ℕ) (s : ToolCallRecord)
      → find_step k db.tool_calls ≡ some s
      → is_null (find_execution k.0 db.workflow_executions) ≡ false
  pub numbered : Numbered db.workflow_events
  pub intents : Table.Distinct action_key db.external_actions
  pub actions :
      (k : ℕ × ℕ) (a : ExternalActionRecord)
      → find_action k db.external_actions ≡ some a
      → ActionOk a
  pub keyed :
      (j k : ℕ × ℕ) (a b : ExternalActionRecord)
      → find_action j db.external_actions ≡ some a
      → find_action k db.external_actions ≡ some b
      → a.identity.idempotency_key ≡ b.identity.idempotency_key
      → j ≡ k
