-- ===== src/Workflow/Evidence.antt =====
-- What a finished attempt leaves to the claims behind it: evidence, or another attempt.
use agent_runtime_platform.Base.{
  ℕ, suc, ◌≤◌, ◌<◌, true, false, none, some, List, ◌≡◌, refl, sym, subst, ap, ◌∙◌, inl, inr, arith,
  is_null, String, str_eq, Option-cases,
}
use agent_runtime_platform.Base.Table
use agent_runtime_platform.Base.Table.{number_key, pair_key}
use agent_runtime_platform.RunStore.{ok, ◌>>=◌}
use agent_runtime_platform.Workflow.{
  Ledger, ToolCallRecord, step_key, find_execution, find_step, call_completed, call_failed,
  assert_run_lease, cached, claimed, attempts_exhausted,
}
use agent_runtime_platform.Workflow.Steps.{
  StepIdentity, claim_step, claim_on_row, claim_retry, retry_step, complete_step, fail_step,
  finalize_on_row, finish_step, holds_attempt, set_step, finished_payload, claimed_payload,
}
use agent_runtime_platform.Workflow.Calls.{Context, WorkflowCall, workflow_calls}
use agent_runtime_platform.Workflow.History.{workflow_calls-StepLater}
use agent_runtime_platform.Workflow.History.Executions.{workflow_calls-ExecutionLater}
use agent_runtime_platform.Workflow.WellFormed.{LedgerInv}
use agent_runtime_platform.Workflow.Claims.{
  Allowed, Runs, with_event, append_workflow_event-ok, set_step-found,
}

-- An execution that is there stays.
workflow_calls-known :
    (db : Ledger) (cs : List (Context × WorkflowCall)) (id : ℕ)
    → is_null (find_execution id db.workflow_executions) ≡ false
    → is_null (find_execution id (workflow_calls db cs).workflow_executions) ≡ false
workflow_calls-known db cs id known =
    elim (Option-cases (find_execution id db.workflow_executions)) [
      | inl e ↦ absurd (cc (known, ap is_null e))
      | inr (e, f) ↦ ap is_null (workflow_calls-ExecutionLater db cs id e f).1
    ]

module _ (c d : Context) (i : StepIdentity) (token : ℕ) (db : Ledger) (s : ToolCallRecord)
    (inv : LedgerInv db) (h : Runs i token db s) (allowed : Allowed c i.run_id)
    (allowed' : Allowed d i.run_id) where
  same_run : s.run_id ≡ i.run_id
  same_run =
      ap (λ (k : ℕ × ℕ). k.0) (Table.find-key step_key (i.run_id, i.step_id) db.tool_calls h.found)

  known : is_null (find_execution s.run_id db.workflow_executions) ≡ false
  known =
      subst (λ r. is_null (find_execution r db.workflow_executions) ≡ false) (sym same_run)
        (inv.owned (i.run_id, i.step_id) s h.found)

  completed_row : String → ToolCallRecord
  unfolding finish_step
  completed_row result = finish_step c.clock call_completed (some result) none s

  failed_row : String → ToolCallRecord
  unfolding finish_step
  failed_row error = finish_step c.clock call_failed none (some error) s

  after_complete : String → Ledger
  unfolding completed_row
  after_complete result =
      with_event s.run_id "step.completed" (finished_payload (completed_row result) "completed")
        c.clock.utc_now (set_step (completed_row result) db)

  after_failure : String → Ledger
  unfolding failed_row
  after_failure error =
      with_event s.run_id "step.failed" (finished_payload (failed_row error) "failed")
        c.clock.utc_now (set_step (failed_row error) db)

  holds : holds_attempt token s ≡ true
  unfolding holds_attempt
  holds = ground (arith, h.status, h.held)

  complete_step-ok :
      (result : String)
      → complete_step c.clock c.runs c.lease_token (i.run_id, i.step_id) token result db
        ≡ ok (after_complete result, completed_row result)
  unfolding complete_step finalize_on_row assert_run_lease ◌>>=◌ after_complete completed_row
  complete_step-ok result = ground (
    arith,
    h.found,
    holds,
    append_workflow_event-ok s.run_id "step.completed"
        (finished_payload (completed_row result) "completed") c.clock.utc_now
        (set_step (completed_row result) db) known,
  )

  fail_step-ok :
      (error : String)
      → fail_step c.clock c.runs c.lease_token (i.run_id, i.step_id) token error db
        ≡ ok (after_failure error, failed_row error)
  unfolding fail_step finalize_on_row assert_run_lease ◌>>=◌ after_failure failed_row
  fail_step-ok error = ground (
    arith,
    h.found,
    holds,
    append_workflow_event-ok s.run_id "step.failed" (finished_payload (failed_row error) "failed")
        c.clock.utc_now (set_step (failed_row error) db) known,
  )

  completed_found :
      (result : String)
      → find_step (i.run_id, i.step_id) (after_complete result).tool_calls
        ≡ some (completed_row result)
  unfolding after_complete completed_row
  completed_found result =
      set_step-found db (i.run_id, i.step_id) s (completed_row result) h.found refl

  failed_found :
      (error : String)
      → find_step (i.run_id, i.step_id) (after_failure error).tool_calls ≡ some (failed_row error)
  unfolding after_failure failed_row
  failed_found error = set_step-found db (i.run_id, i.step_id) s (failed_row error) h.found refl

  known_again : is_null (find_execution i.run_id db.workflow_executions) ≡ false
  known_again = inv.owned (i.run_id, i.step_id) s h.found

  -- A claim that finds completed evidence for its tool and input.
  claim_step-evidence :
      (db : Ledger) (row : ToolCallRecord) (call_id fresh max : ℕ)
      → find_step (i.run_id, i.step_id) db.tool_calls ≡ some row
      → is_null (find_execution i.run_id db.workflow_executions) ≡ false
      → row.status ≡ call_completed
      → str_eq row.tool_name i.tool_name ≡ true
      → row.input_hash ≡ i.input_hash
      → 1 ≤ max
      → claim_step d.clock d.runs d.lease_token call_id fresh max i db
        ≡ ok (db, record { outcome = cached; step = row; attempt_token = none })
  unfolding claim_step claim_on_row assert_run_lease ◌>>=◌
  claim_step-evidence db row call_id fresh max f e status tool input one = ground arith

  -- In well-formed tables, the attempt that runs a step completes it with authority, that is with the
  -- token of the lease of its run that is current at the time, or with no token where there is no
  -- such run; and the row has its result. After any calls, made by any processes, a claim of the step
  -- for its tool and input that allows at least one attempt and is made with authority gets this row
  -- and changes nothing.
  pub complete_step-cached :
      (result : String) (cs : List (Context × WorkflowCall)) (call_id fresh max : ℕ)
      → 1 ≤ max
      → (db' : Ledger) × (row : ToolCallRecord) × (complete_step c.clock c.runs c.lease_token
            (i.run_id, i.step_id)
            token
            result
            db
          ≡ ok (db', row))
        × (row.result_json ≡ some result)
        × (claim_step d.clock d.runs d.lease_token call_id fresh max i (workflow_calls db' cs)
            ≡ ok (
              workflow_calls db' cs,
              record { outcome = cached; step = row; attempt_token = none },
            ))
  unfolding after_complete completed_row finish_step
  complete_step-cached result cs call_id fresh max one =
      let (v, found, later) =
        workflow_calls-StepLater (after_complete result) cs (i.run_id, i.step_id)
          (completed_row result) (completed_found result) in
      let same : v ≡ completed_row result = later.kept refl in
      (
        after_complete result,
        completed_row result,
        complete_step-ok result,
        refl,
        claim_step-evidence (workflow_calls (after_complete result) cs) (completed_row result)
            call_id fresh max (found ∙ ap some same)
            (workflow_calls-known (after_complete result) cs i.run_id known_again) refl h.tool
            h.input one,
      )

  -- In well-formed tables, the attempt that runs a step fails it with authority, that is with the
  -- token of the lease of its run that is current at the time, or with no token where there is no
  -- such run; and it was not the last attempt allowed. Then the next call, if it is a claim of the
  -- step for its tool and input that is made with authority, is granted on the new token, with one
  -- attempt more on record, no error and no result.
  pub fail_step-retried :
      (error : String) (call_id fresh max : ℕ)
      → s.attempt_count < max
      → (db' : Ledger) × (row : ToolCallRecord) × (db'' : Ledger) × (again : ToolCallRecord)
        × (fail_step c.clock c.runs c.lease_token (i.run_id, i.step_id) token error db
            ≡ ok (db', row))
        × (row.error_code ≡ some error)
        × (claim_step d.clock d.runs d.lease_token call_id fresh max i db'
            ≡ ok (db'', record { outcome = claimed; step = again; attempt_token = some fresh }))
        × (again.attempt_count ≡ suc s.attempt_count)
        × (again.error_code ≡ none)
        × (again.result_json ≡ none)
        × (find_step (i.run_id, i.step_id) db''.tool_calls ≡ some again)
  unfolding claim_step claim_on_row claim_retry retry_step assert_run_lease ◌>>=◌ after_failure
      failed_row
  fail_step-retried error call_id fresh max few =
      let again : ToolCallRecord = retry_step d.clock fresh i (failed_row error) in
      (
        after_failure error,
        failed_row error,
        with_event i.run_id "step.claimed" (claimed_payload i (suc s.attempt_count)) d.clock.utc_now
            (set_step again (after_failure error)),
        again,
        fail_step-ok error,
        refl,
        ground (
          arith,
          failed_found error,
          known_again,
          h.tool,
          h.input,
          append_workflow_event-ok i.run_id "step.claimed" (claimed_payload i (suc s.attempt_count))
              d.clock.utc_now (set_step again (after_failure error)) known_again,
        ),
        refl,
        refl,
        refl,
        set_step-found (after_failure error) (i.run_id, i.step_id) (failed_row error) again
            (failed_found error) refl,
      )

  -- In well-formed tables, the attempt that runs a step fails it with authority, that is with the
  -- token of the lease of its run that is current at the time, or with no token where there is no
  -- such run. Then the next call, if it is a claim of the step for its tool and input that is made
  -- with authority and allows at least one attempt but no more than were made, is refused as
  -- exhausted and changes nothing.
  pub fail_step-exhausted :
      (error : String) (call_id fresh max : ℕ)
      → 1 ≤ max
      → max ≤ s.attempt_count
      → (db' : Ledger) × (row : ToolCallRecord) × (fail_step c.clock c.runs c.lease_token
            (i.run_id, i.step_id)
            token
            error
            db
          ≡ ok (db', row))
        × (claim_step d.clock d.runs d.lease_token call_id fresh max i db'
            ≡ ok (db', record { outcome = attempts_exhausted; step = row; attempt_token = none }))
  unfolding claim_step claim_on_row assert_run_lease ◌>>=◌ after_failure failed_row
  fail_step-exhausted error call_id fresh max one many = (
    after_failure error,
    failed_row error,
    fail_step-ok error,
    ground (arith, failed_found error, known_again, h.tool, h.input),
  )
