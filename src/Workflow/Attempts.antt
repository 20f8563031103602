-- ===== src/Workflow/Attempts.antt =====
-- Attempts of a step: who may finish it, how often it is tried, and the fence of its run's lease.
use agent_runtime_platform.Base.{Bool, true, ℕ, false, ◌≡◌, arith}
use agent_runtime_platform.Base.Table.{number_key, pair_key}
use agent_runtime_platform.RunStore.{◌>>=◌}
use agent_runtime_platform.Workflow.{Ledger, has_authority, assert_run_lease}
use agent_runtime_platform.Workflow.Executions.{
  create_or_get_execution, mark_running, finalize_execution, finalize_ready, finalize_blocked,
  finalize_failed,
}
use agent_runtime_platform.Workflow.Steps.{
  claim_step, complete_step, fail_step, recover_interrupted_step,
}
use agent_runtime_platform.Workflow.Reuse.{reuse_completed_step}
use agent_runtime_platform.Workflow.Actions.{prepare_external_action}
use agent_runtime_platform.Workflow.Actions.Dispatch.{
  begin_external_action_dispatch, retry_external_action_dispatch,
}
use agent_runtime_platform.Workflow.Actions.Finalize.{finalize_external_action}
use agent_runtime_platform.Workflow.Calls.{
  Context, WorkflowCall, creates, starts, readies, blocks, fails, claims, completes_step,
  fails_step, recovers, reuses, prepares, dispatches, redispatches, finalizes, workflow_step,
}

-- The execution that a call writes to.
abbrev pub run_of : WorkflowCall → ℕ
run_of (creates run type hash) = run
run_of (starts run) = run
run_of (readies run result) = run
run_of (blocks run result error) = run
run_of (fails run error) = run
run_of (claims call_id token max i) = i.run_id
run_of (completes_step key token result) = key.0
run_of (fails_step key token error) = key.0
run_of (recovers key) = key.0
run_of (reuses call_id source i) = i.run_id
run_of (prepares texts action_id key token i) = key.0
run_of (dispatches key attempt token) = key.0
run_of (redispatches key previous attempt token) = key.0
run_of (finalizes rule texts key token attempt ending) = key.0

-- A provider's answer is recorded whatever became of the lease: its dispatch token is the fence.
abbrev pub needs_lease : WorkflowCall → Bool
needs_lease (finalizes rule texts key token attempt ending) = rule.requires_lease
needs_lease _ = true

-- A call that needs a lease, which is every call but the recording of a provider's answer, changes
-- nothing unless it carries the token of the current lease of its execution's run, or there is no
-- such run in the run store and it carries no token.
pub workflow_step-fenced :
    (db : Ledger) (c : Context) (call : WorkflowCall)
    → has_authority c.clock.now_ms (run_of call) c.lease_token c.runs ≡ false
    → needs_lease call ≡ true
    → workflow_step db (c, call) ≡ db
unfolding workflow_step create_or_get_execution mark_running finalize_ready finalize_blocked
    finalize_failed finalize_execution claim_step complete_step fail_step recover_interrupted_step
    reuse_completed_step prepare_external_action begin_external_action_dispatch
    retry_external_action_dispatch finalize_external_action assert_run_lease ◌>>=◌
workflow_step-fenced db c (creates run type hash) h needs = ground arith
workflow_step-fenced db c (starts run) h needs = ground arith
workflow_step-fenced db c (readies run result) h needs = ground arith
workflow_step-fenced db c (blocks run result error) h needs = ground arith
workflow_step-fenced db c (fails run error) h needs = ground arith
workflow_step-fenced db c (claims call_id token max i) h needs = ground arith
workflow_step-fenced db c (completes_step key token result) h needs = ground arith
workflow_step-fenced db c (fails_step key token error) h needs = ground arith
workflow_step-fenced db c (recovers key) h needs = ground arith
workflow_step-fenced db c (reuses call_id source i) h needs = ground arith
workflow_step-fenced db c (prepares texts action_id key token i) h needs = ground arith
workflow_step-fenced db c (dispatches key attempt token) h needs = ground arith
workflow_step-fenced db c (redispatches key previous attempt token) h needs = ground arith
workflow_step-fenced db c (finalizes rule texts key token attempt ending) h needs = ground arith
