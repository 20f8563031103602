-- ===== src/Workflow/Calls.antt =====
-- The calls of the workflow store as one step function: what a sequence of transactions does to its
-- tables. A call that raises leaves them as they were.
use Prim.Native.Nat.{max}
use agent_runtime_platform.Base.{ℕ, String, Option, List, [], ◌∷◌}
use agent_runtime_platform.RunStore.{Clock, Result, ok, err}
use agent_runtime_platform.Workflow.{Ledger, RunsTable, ActionIdentity}
use agent_runtime_platform.Workflow.Executions.{
  create_or_get_execution, mark_running, finalize_ready, finalize_blocked, finalize_failed,
}
use agent_runtime_platform.Workflow.Steps.{
  StepIdentity, claim_step, complete_step, fail_step, recover_interrupted_step,
}
use agent_runtime_platform.Workflow.Reuse.{reuse_completed_step}
use agent_runtime_platform.Workflow.Actions.{Texts, prepare_external_action}
use agent_runtime_platform.Workflow.Actions.Dispatch.{
  begin_external_action_dispatch, retry_external_action_dispatch,
}
use agent_runtime_platform.Workflow.Actions.Ending.{Ending, EndingRule}
use agent_runtime_platform.Workflow.Actions.Finalize.{finalize_external_action}

-- The clock and the runs that a call reads, and the lease token that it is given.
pub record Context : Type 0 where
  pub clock : Clock
  pub runs : RunsTable
  pub lease_token : Option ℕ

pub data WorkflowCall : Type 0 where
  creates : ℕ → String → ℕ → WorkflowCall
  starts : ℕ → WorkflowCall
  readies : ℕ → String → WorkflowCall
  blocks : ℕ → String → String → WorkflowCall
  fails : ℕ → String → WorkflowCall
  claims : ℕ → ℕ → ℕ → StepIdentity → WorkflowCall
  completes_step : ℕ × ℕ → ℕ → String → WorkflowCall
  fails_step : ℕ × ℕ → ℕ → String → WorkflowCall
  recovers : ℕ × ℕ → WorkflowCall
  reuses : ℕ → ℕ → StepIdentity → WorkflowCall
  prepares : Texts → ℕ → ℕ × ℕ → ℕ → ActionIdentity → WorkflowCall
  dispatches : ℕ × ℕ → ℕ → ℕ → WorkflowCall
  redispatches : ℕ × ℕ → ℕ → ℕ → ℕ → WorkflowCall
  finalizes : EndingRule → Texts → ℕ × ℕ → ℕ → ℕ → Ending → WorkflowCall

abbrev pub settled {ℓ} : {A : Type ℓ} → Ledger → Result (Ledger × A) → Ledger
settled db (ok r) = r.0
settled db (err e) = db

unfoldable pub workflow_step : Ledger → Context × WorkflowCall → Ledger
workflow_step db (c, creates run type hash) =
    settled db (create_or_get_execution c.clock c.runs c.lease_token run type hash db)
workflow_step db (c, starts run) = settled db (mark_running c.clock c.runs c.lease_token run db)
workflow_step db (c, readies run result) =
    settled db (finalize_ready c.clock c.runs c.lease_token run result db)
workflow_step db (c, blocks run result error) =
    settled db (finalize_blocked c.clock c.runs c.lease_token run result error db)
workflow_step db (c, fails run error) =
    settled db (finalize_failed c.clock c.runs c.lease_token run error db)
workflow_step db (c, claims call_id token attempts identity) =
    settled db (claim_step c.clock c.runs c.lease_token call_id token attempts identity db)
workflow_step db (c, completes_step key token result) =
    settled db (complete_step c.clock c.runs c.lease_token key token result db)
workflow_step db (c, fails_step key token error) =
    settled db (fail_step c.clock c.runs c.lease_token key token error db)
workflow_step db (c, recovers key) =
    settled db (recover_interrupted_step c.clock c.runs c.lease_token key db)
workflow_step db (c, reuses call_id source identity) =
    settled db (reuse_completed_step c.clock c.runs c.lease_token call_id source identity db)
workflow_step db (c, prepares texts action_id key token identity) =
    settled db
      (prepare_external_action texts c.clock c.runs c.lease_token action_id key token identity db)
workflow_step db (c, dispatches key attempt token) =
    settled db (begin_external_action_dispatch c.clock c.runs c.lease_token key attempt token db)
workflow_step db (c, redispatches key previous attempt token) =
    settled db
      (retry_external_action_dispatch c.clock c.runs c.lease_token key previous attempt token db)
workflow_step db (c, finalizes rule texts key token attempt ending) =
    settled db
      (finalize_external_action rule texts c.clock c.runs c.lease_token key token attempt ending db)

unfoldable pub workflow_calls : Ledger → List (Context × WorkflowCall) → Ledger
workflow_calls db [] = db
workflow_calls db (c ∷ cs) = workflow_calls (workflow_step db c) cs

-- The most attempts that a call can bring a step to, and that a history can.
abbrev pub budget_of : WorkflowCall → ℕ
budget_of (claims call_id token attempts identity) = attempts
budget_of _ = 0

abbrev pub budget : List (Context × WorkflowCall) → ℕ
budget [] = 0
budget (c ∷ cs) = max (budget_of c.1) (budget cs)
