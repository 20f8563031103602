-- ===== src/Workflow/Moves.antt =====
-- The abstract machine of the workflow store: a transaction is a sequence of atomic moves, and a
-- move opens an execution, takes one execution or one step along its states, adds a step, or
-- appends the next event of an execution.
pub mod Rows
pub mod Appends
pub mod ActionRows
pub mod Actions
pub mod Claims
pub mod Steps
use agent_runtime_platform.Base.{
  ℕ, suc, ◌≤◌, Bool, true, false, Option, none, some, List, ◌∷◌, ◌≡◌, ◌⊎◌, is_null, any, ◌==◌,
}
use agent_runtime_platform.Base.Table
use agent_runtime_platform.Base.Table.{number_key, pair_key}
use agent_runtime_platform.Models.{RunEvent}
use agent_runtime_platform.RunStore.{Result}
use agent_runtime_platform.RunStore.Events.{max_sequence}
use agent_runtime_platform.RunStore.Moves.{Ensures}
use agent_runtime_platform.Workflow.Actions.{is_terminal_action, is_prepared, is_unsafe}
use agent_runtime_platform.Workflow.{
  Ledger, WorkflowStatus, pending, running, ready, blocked, failed, ToolCallStatus, call_running,
  call_completed, call_failed, WorkflowExecutionRecord, ToolCallRecord, execution_key, step_key,
  find_execution, find_step, ExternalActionRecord, prepared, dispatching, action_key, find_action,
}

-- The states of an execution. A terminal state has no successor.
pub data ExecutionStep : WorkflowStatus → WorkflowStatus → Type 0 where
  starts : ExecutionStep pending running
  readies : ExecutionStep running ready
  blocks : ExecutionStep running blocked
  fails : ExecutionStep running failed

-- One execution changed.
pub record ExecutionMove (e v : WorkflowExecutionRecord) : Type 0 where
  pub same_run : v.run_id ≡ e.run_id
  pub same_type : v.workflow_type ≡ e.workflow_type
  pub same_input : v.input_hash ≡ e.input_hash
  pub status : ExecutionStep e.status v.status

-- The states of a step, with its attempts: a failed step may be tried again, and only a new attempt
-- brings a new token. A completed step has no successor. The budget n bounds the attempts.
pub data StepRule (n : ℕ) (s v : ToolCallRecord) : Type 0 where
  retries :
      s.status ≡ call_failed
      → v.status ≡ call_running
      → v.attempt_count ≡ suc s.attempt_count
      → v.attempt_count ≤ n
      → StepRule n s v
  completes :
      s.status ≡ call_running
      → v.status ≡ call_completed
      → v.attempt_count ≡ s.attempt_count
      → v.attempt_token ≡ s.attempt_token
      → StepRule n s v
  fails :
      s.status ≡ call_running
      → v.status ≡ call_failed
      → v.attempt_count ≡ s.attempt_count
      → v.attempt_token ≡ s.attempt_token
      → StepRule n s v

-- What holds of every step.
pub record StepOk (s : ToolCallRecord) : Type 0 where
  pub tokened : s.status ≡ call_running → is_null s.attempt_token ≡ false
  pub clean : s.status ≡ call_running → is_null s.error_code ≡ true
  pub evident : s.status ≡ call_completed → is_null s.result_json ≡ false
  pub explained : s.status ≡ call_failed → is_null s.error_code ≡ false
  pub empty : is_null s.result_json ≡ false → s.status ≡ call_completed

-- One step changed.
pub record StepMove (n : ℕ) (s v : ToolCallRecord) : Type 0 where
  pub same_run : v.run_id ≡ s.run_id
  pub same_step : v.step_id ≡ s.step_id
  pub same_tool : v.tool_name ≡ s.tool_name
  pub same_input : v.input_hash ≡ s.input_hash
  pub rule : StepRule n s v
  pub keeps : StepOk s → StepOk v

-- The states of an external action. Only a dispatch brings a new token, and an action that is unsafe
-- to repeat is dispatched once.
pub data ActionRule (a v : ExternalActionRecord) : Type 0 where
  dispatches : a.status ≡ prepared → v.status ≡ dispatching → ActionRule a v
  redispatches :
      a.status ≡ dispatching
      → v.status ≡ dispatching
      → is_unsafe a.identity.retry_mode ≡ false
      → ActionRule a v
  ends :
      a.status ≡ dispatching
      → is_terminal_action v.status ≡ true
      → v.dispatch_token ≡ a.dispatch_token
      → ActionRule a v

-- What holds of every external action.
pub record ActionOk (a : ExternalActionRecord) : Type 0 where
  pub unsent : a.status ≡ prepared → a.dispatch_count ≡ 0
  pub once : is_unsafe a.identity.retry_mode ≡ true → a.dispatch_count ≤ 1
  pub sent : is_prepared a.status ≡ false → 1 ≤ a.dispatch_count
  pub tokened : is_prepared a.status ≡ false → is_null a.dispatch_token ≡ false

-- One external action changed.
pub record ActionMove (a v : ExternalActionRecord) : Type 0 where
  pub same_id : v.action_id ≡ a.action_id
  pub same_run : v.run_id ≡ a.run_id
  pub same_step : v.step_id ≡ a.step_id
  pub same_identity : v.identity ≡ a.identity
  pub grows : a.dispatch_count ≤ v.dispatch_count
  pub rule : ActionRule a v
  pub keeps : ActionOk a → ActionOk v

pub data LedgerMove (n : ℕ) (db db' : Ledger) : Type 0 where
  opens :
      (e : WorkflowExecutionRecord)
      → find_execution e.run_id db.workflow_executions ≡ none
      → e.status ≡ pending
      → db' ≡ record db { workflow_executions = e ∷ db.workflow_executions }
      → LedgerMove n db db'
  moves_execution :
      (e v : WorkflowExecutionRecord)
      → find_execution e.run_id db.workflow_executions ≡ some e
      → ExecutionMove e v
      → db' ≡ record db {
        workflow_executions = Table.set execution_key e.run_id v db.workflow_executions;
      }
      → LedgerMove n db db'
  adds_step :
      (s : ToolCallRecord)
      → find_step (step_key s) db.tool_calls ≡ none
      → is_null (find_execution s.run_id db.workflow_executions) ≡ false
      → s.attempt_count ≤ n
      → StepOk s
      → db' ≡ record db { tool_calls = s ∷ db.tool_calls }
      → LedgerMove n db db'
  moves_step :
      (s v : ToolCallRecord)
      → find_step (step_key s) db.tool_calls ≡ some s
      → StepMove n s v
      → db' ≡ record db { tool_calls = Table.set step_key (step_key s) v db.tool_calls }
      → LedgerMove n db db'
  adds_action :
      (a : ExternalActionRecord)
      → find_action (action_key a) db.external_actions ≡ none
      → any
          (λ (x : ExternalActionRecord). x.identity.idempotency_key == a.identity.idempotency_key)
          db.external_actions
        ≡ false
      → ActionOk a
      → db' ≡ record db { external_actions = a ∷ db.external_actions }
      → LedgerMove n db db'
  moves_action :
      (a v : ExternalActionRecord)
      → find_action (action_key a) db.external_actions ≡ some a
      → ActionMove a v
      → db'
        ≡ record db { external_actions = Table.set action_key (action_key a) v db.external_actions }
      → LedgerMove n db db'
  appends :
      (e : RunEvent)
      → is_null (find_execution e.run_id db.workflow_executions) ≡ false
      → e.sequence ≡ suc (max_sequence e.run_id db.workflow_events)
      → db' ≡ record db { workflow_events = e ∷ db.workflow_events; last_event_id = e.event_id }
      → LedgerMove n db db'

pub data LedgerMoves (n : ℕ) (db : Ledger) : Ledger → Type 0 where
  here : LedgerMoves n db db
  next : {d d' : Ledger} → LedgerMoves n db d → LedgerMove n d d' → LedgerMoves n db d'

abbrev pub Arrives {ℓ} : {A : Type ℓ} → ℕ → Ledger → Result (Ledger × A) → Type ℓ
Arrives n db r = Ensures (λ p. LedgerMoves n db p.0) r
