-- ===== src/Examples/Workflow.antt =====
-- The theorems on the workflow store at concrete tables and calls, and tests of its methods.
use agent_runtime_platform.Base.{
  ℕ, suc, ◌≤◌, Option, none, some, List, [], ◌∷◌, ◌≡◌, refl, arith, any,
}
use agent_runtime_platform.Base.Table
use agent_runtime_platform.RunStore.{ok, err, ◌>>=◌, stale_attempt}
use agent_runtime_platform.RunStore.Events.{max_sequence}
use agent_runtime_platform.RunStore.Lease.{holds_lease}
use agent_runtime_platform.Workflow.{
  Ledger, absent, migrated, ToolCallRecord, WorkflowExecutionRecord, call_running, ready, find_step,
  find_execution, has_authority, assert_run_lease, append_workflow_event, cached, claimed,
  already_running, attempts_exhausted, copied,
}
use agent_runtime_platform.Workflow.Executions.{
  create_or_get_execution, mark_running, finalize_ready, change_execution, start_execution,
  finish_execution,
}
use agent_runtime_platform.Workflow.Steps.{
  StepIdentity, ClaimResult, claim_step, claim_on_row, complete_step, fail_step, finalize_on_row,
  finish_step, recover_interrupted_step, claim_fresh, fresh_step,
}
use agent_runtime_platform.Workflow.Reuse.{StepReuseResult, reuse_completed_step, copied_step}
use agent_runtime_platform.Workflow.Calls.{
  Context, WorkflowCall, creates, starts, readies, claims, completes_step, fails_step, reuses,
  workflow_step, workflow_calls,
}
use agent_runtime_platform.Workflow.WellFormed.{no_ledger, LedgerInv}
use agent_runtime_platform.Workflow.Keep.{workflow_calls-LedgerInv}
use agent_runtime_platform.Workflow.Moves.{LedgerMoves}
use agent_runtime_platform.Workflow.Moves.Steps.{workflow_step-Moves}
use agent_runtime_platform.Workflow.History.{StepLater, workflow_calls-StepLater}
use agent_runtime_platform.Workflow.History.Executions.{
  ExecutionLater, workflow_calls-ExecutionLater,
}
use agent_runtime_platform.Workflow.Attempts.{workflow_step-fenced}
use agent_runtime_platform.Workflow.Bound.{workflow_calls-attempts}
use agent_runtime_platform.Workflow.Claims.{Runs, claim_step-exclusive}
use agent_runtime_platform.Workflow.Evidence.{
  complete_step-cached, fail_step-retried, fail_step-exhausted,
}
use agent_runtime_platform.Workflow.Replay.{Copies, reuse_completed_step-Copies}
use agent_runtime_platform.Examples.{at, first_run}

-- Opens every method, so that a test runs.
abbrev opened : Unit {0}
unfolding workflow_calls workflow_step create_or_get_execution mark_running finalize_ready
    change_execution claim_step claim_on_row complete_step fail_step finalize_on_row
    recover_interrupted_step append_workflow_event has_authority assert_run_lease start_execution
    finish_execution max_sequence holds_lease claim_fresh fresh_step finish_step
    reuse_completed_step copied_step Table.find Table.set any ◌>>=◌
opened = tt

-- A standalone ledger at a time.
abbrev alone : ℕ → Context
alone n = record { clock = at n; runs = absent; lease_token = none }

-- A call under a token that is not one of the queued run's.
abbrev managed : Context
managed = record { clock = at 5; runs = migrated (first_run ∷ []); lease_token = some 99 }

abbrev search_step : StepIdentity
search_step = record { run_id = 1; step_id = 10; tool_name = "search"; input_hash = 4 }

abbrev copy_step : StepIdentity
copy_step = record search_step { run_id = 2 }

abbrev under_way : List (Context × WorkflowCall)
under_way = (alone 1, creates 1 "review" 7) ∷ (alone 2, starts 1) ∷ []

abbrev searching : List (Context × WorkflowCall)
searching =
    (alone 1, creates 1 "review" 7)
    ∷ (alone 2, starts 1)
    ∷ (alone 3, claims 50 60 2 search_step)
    ∷ []

abbrev searched : List (Context × WorkflowCall)
searched =
    (alone 1, creates 1 "review" 7)
    ∷ (alone 2, starts 1)
    ∷ (alone 3, claims 50 60 2 search_step)
    ∷ (alone 4, completes_step (1, 10) 60 "{}")
    ∷ (alone 5, readies 1 "{}")
    ∷ []

abbrev replaying : List (Context × WorkflowCall)
replaying =
    (alone 1, creates 1 "review" 7)
    ∷ (alone 2, starts 1)
    ∷ (alone 3, claims 50 60 2 search_step)
    ∷ (alone 4, completes_step (1, 10) 60 "{}")
    ∷ (alone 5, readies 1 "{}")
    ∷ (alone 6, creates 2 "review" 8)
    ∷ (alone 7, starts 2)
    ∷ []

abbrev step_of : Option ToolCallRecord → ToolCallRecord
step_of none = record {
  call_id = 0;
  run_id = 0;
  step_id = 0;
  tool_name = "";
  input_hash = 0;
  status = call_running;
  attempt_count = 0;
  attempt_token = none;
  result_json = none;
  error_code = none;
  created_at = 0;
  updated_at = 0;
}
step_of (some s) = s

abbrev execution_of : Option WorkflowExecutionRecord → WorkflowExecutionRecord
execution_of none = record {
  run_id = 0;
  workflow_type = "";
  input_hash = 0;
  status = ready;
  result_json = none;
  error_code = none;
  created_at = 0;
  updated_at = 0;
  completed_at = none;
}
execution_of (some e) = e

abbrev running_step : ToolCallRecord
running_step = step_of (find_step (1, 10) (workflow_calls no_ledger searching).tool_calls)

abbrev done_step : ToolCallRecord
done_step = step_of (find_step (1, 10) (workflow_calls no_ledger searched).tool_calls)

abbrev ready_execution : WorkflowExecutionRecord
ready_execution =
    execution_of (find_execution 1 (workflow_calls no_ledger searched).workflow_executions)

done_step_result : done_step.result_json ≡ some "{}"
unfolding opened
done_step_result = refl

ready_execution_status : ready_execution.status ≡ ready
unfolding opened
ready_execution_status = refl

workflow_calls-LedgerInv_example : LedgerInv (workflow_calls no_ledger searched)
workflow_calls-LedgerInv_example = workflow_calls-LedgerInv searched

workflow_step-Moves_example :
    LedgerMoves 2
      (workflow_calls no_ledger under_way)
      (workflow_step (workflow_calls no_ledger under_way) (alone 3, claims 50 60 2 search_step))
workflow_step-Moves_example =
    workflow_step-Moves 2 (workflow_calls no_ledger under_way) (alone 3, claims 50 60 2 search_step)
      (omega arith)

workflow_calls-StepLater_example :
    (v : ToolCallRecord) × (find_step
        (1, 10)
        (workflow_calls (workflow_calls no_ledger searched) searching).tool_calls
      ≡ some v)
    × StepLater done_step v
unfolding opened
workflow_calls-StepLater_example =
    workflow_calls-StepLater (workflow_calls no_ledger searched) searching (1, 10) done_step refl

workflow_calls-ExecutionLater_example :
    (v : WorkflowExecutionRecord) × (find_execution 1
        (workflow_calls (workflow_calls no_ledger searched) searching).workflow_executions
      ≡ some v)
    × ExecutionLater ready_execution v
unfolding opened
workflow_calls-ExecutionLater_example =
    workflow_calls-ExecutionLater (workflow_calls no_ledger searched) searching 1 ready_execution
      refl

workflow_step-fenced_example :
    workflow_step (workflow_calls no_ledger searching) (managed, completes_step (1, 10) 60 "{}")
    ≡ workflow_calls no_ledger searching
unfolding opened
workflow_step-fenced_example =
    workflow_step-fenced (workflow_calls no_ledger searching) managed
      (completes_step (1, 10) 60 "{}") refl refl

workflow_calls-attempts_example : running_step.attempt_count ≤ 2
unfolding opened
workflow_calls-attempts_example = workflow_calls-attempts searching (1, 10) running_step refl

claimed_step : ClaimResult
unfolding opened
claimed_step = record { outcome = claimed; step = running_step; attempt_token = some 60 }

held_now : Runs search_step 60 (workflow_calls no_ledger searching) running_step
unfolding opened
held_now = record { found = refl; status = refl; held = refl; tool = refl; input = refl }

claim_step-exclusive_example :
    (complete_step (at 9) absent none (1, 10) 61 "{}" (workflow_calls no_ledger searching)
      ≡ err stale_attempt)
    × (fail_step (at 9) absent none (1, 10) 61 "timeout" (workflow_calls no_ledger searching)
        ≡ err stale_attempt)
    × (claim_step (at 9) absent none 51 62 2 search_step (workflow_calls no_ledger searching)
        ≡ ok (
          workflow_calls no_ledger searching,
          record { outcome = already_running; step = claimed_step.step; attempt_token = none },
        ))
unfolding opened claimed_step
claim_step-exclusive_example =
    claim_step-exclusive (alone 3) (alone 9) search_step 50 60 2
      (workflow_calls no_ledger under_way) (workflow_calls no_ledger searching) claimed_step 61 51
      62 2 "{}" "timeout" refl refl refl (ground arith) (omega arith)

-- Another claim of the step, and a failure that its attempt reports too late.
abbrev afterwards : List (Context × WorkflowCall)
afterwards = (alone 9, claims 51 61 2 search_step) ∷ (alone 10, fails_step (1, 10) 60 "late") ∷ []

complete_step-cached_example :
    (db' : Ledger) × (row : ToolCallRecord) × (complete_step
        (at 8)
        absent
        none
        (1, 10)
        60
        "{}"
        (workflow_calls no_ledger searching)
      ≡ ok (db', row))
    × (row.result_json ≡ some "{}")
    × (claim_step (at 11) absent none 51 62 2 search_step (workflow_calls db' afterwards)
        ≡ ok (
          workflow_calls db' afterwards,
          record { outcome = cached; step = row; attempt_token = none },
        ))
unfolding opened
complete_step-cached_example =
    complete_step-cached (alone 8) (alone 11) search_step 60 (workflow_calls no_ledger searching)
      running_step (workflow_calls-LedgerInv searching) held_now refl refl "{}" afterwards 51 62 2
      (omega arith)

fail_step-retried_example :
    (db' : Ledger) × (row : ToolCallRecord) × (db'' : Ledger) × (again : ToolCallRecord)
    × (fail_step (at 8) absent none (1, 10) 60 "timeout" (workflow_calls no_ledger searching)
        ≡ ok (db', row))
    × (row.error_code ≡ some "timeout")
    × (claim_step (at 9) absent none 51 62 2 search_step db'
        ≡ ok (db'', record { outcome = claimed; step = again; attempt_token = some 62 }))
    × (again.attempt_count ≡ suc running_step.attempt_count)
    × (again.error_code ≡ none)
    × (again.result_json ≡ none)
    × (find_step (1, 10) db''.tool_calls ≡ some again)
unfolding opened
fail_step-retried_example =
    fail_step-retried (alone 8) (alone 9) search_step 60 (workflow_calls no_ledger searching)
      running_step (workflow_calls-LedgerInv searching) held_now refl refl "timeout" 51 62 2
      (omega arith)

fail_step-exhausted_example :
    (db' : Ledger) × (row : ToolCallRecord) × (fail_step
        (at 8)
        absent
        none
        (1, 10)
        60
        "timeout"
        (workflow_calls no_ledger searching)
      ≡ ok (db', row))
    × (claim_step (at 9) absent none 51 62 1 search_step db'
        ≡ ok (db', record { outcome = attempts_exhausted; step = row; attempt_token = none }))
unfolding opened
fail_step-exhausted_example =
    fail_step-exhausted (alone 8) (alone 9) search_step 60 (workflow_calls no_ledger searching)
      running_step (workflow_calls-LedgerInv searching) held_now refl refl "timeout" 51 62 1
      (omega arith) (omega arith)

copied_now : StepReuseResult
unfolding opened
copied_now = record {
  outcome = copied;
  step =
      find_step (2, 10)
        (workflow_step (workflow_calls no_ledger replaying)
          (alone 8, reuses 52 1 copy_step)).tool_calls;
}

reuse_completed_step-Copies_example :
    Copies 1 copy_step
      (workflow_calls no_ledger replaying)
      (workflow_step (workflow_calls no_ledger replaying) (alone 8, reuses 52 1 copy_step))
      copied_now.step
unfolding opened copied_now
reuse_completed_step-Copies_example =
    reuse_completed_step-Copies (alone 8) 52 1 copy_step (workflow_calls no_ledger replaying)
      (workflow_step (workflow_calls no_ledger replaying) (alone 8, reuses 52 1 copy_step))
      copied_now refl refl
