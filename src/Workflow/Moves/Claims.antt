-- ===== src/Workflow/Moves/Claims.antt =====
-- The methods on executions and steps are sequences of moves.
use agent_runtime_platform.Base.{
  ℕ, ◌≤◌, String, Bool, true, false, not, ◌||◌, Option, none, some, ◌≡◌, refl, is_null, arith,
  str_eq, leb, ◌==◌,
}
use agent_runtime_platform.Base.Table
use agent_runtime_platform.Base.Table.{number_key, pair_key, same_pair}
use agent_runtime_platform.Contracts.{Fields}
use agent_runtime_platform.RunStore.{Clock}
use agent_runtime_platform.RunStore.Moves.Rules.{
  Ensures-bind, Ensures-ok, Ensures-err, Ensures-if, Ensures-guard,
}
use agent_runtime_platform.Workflow.{
  Ledger, WorkflowStatus, call_completed, call_failed, WorkflowExecutionRecord, ToolCallRecord,
  execution_key, step_key, find_execution, find_step, find_action, is_completed_call,
  is_running_call, is_failed_call,
}
use agent_runtime_platform.Workflow.Executions.{create_on_row, change_execution}
use agent_runtime_platform.Workflow.Steps.{
  StepIdentity, claim_on_row, claim_fresh, claim_retry, finalize_on_row, recover_on_row,
}
use agent_runtime_platform.Workflow.Reuse.{reuse_from, reuse_into, is_evidence}
use agent_runtime_platform.Workflow.Moves.{
  here, next, opens, moves_execution, adds_step, moves_step, Arrives, ExecutionMove,
}
use agent_runtime_platform.Workflow.Moves.Appends.{append-known, then_appends}
use agent_runtime_platform.Workflow.Moves.Rows.{
  fresh_step-StepOk, copied_step-StepOk, retry_step-StepMove, complete-StepMove, fail-StepMove,
  interrupt_step-StepMove,
}

module _ (n : ℕ) (db : Ledger) where
  pub change_execution-Arrives :
      (run_id : ℕ) (from : WorkflowStatus → Bool)
      (to : WorkflowExecutionRecord → WorkflowExecutionRecord) (type : String) (payload : Fields)
      (at : ℕ)
      → ((e : WorkflowExecutionRecord) → from e.status ≡ true → ExecutionMove e (to e))
      → (o : Option WorkflowExecutionRecord) → find_execution run_id db.workflow_executions ≡ o
      → Arrives n db (change_execution o from to type payload at db)
  unfolding change_execution
  change_execution-Arrives run_id from to type payload at k none f = Ensures-err _
  change_execution-Arrives run_id from to type payload at k (some e) f =
      Ensures-if (from e.status) _ _
        (λ h. Ensures-bind _ _ λ d l. Ensures-ok _ (
          then_appends e.run_id type payload at
            (moves_execution e (to e) (Table.find-own execution_key run_id db.workflow_executions f)
              (k e h) refl)
            l))
        (λ _. Ensures-ok _ here)

  pub create_on_row-Arrives :
      (clock : Clock) (run_id : ℕ) (type : String) (hash : ℕ) (o : Option WorkflowExecutionRecord)
      → find_execution run_id db.workflow_executions ≡ o
      → Arrives n db (create_on_row o clock run_id type hash db)
  unfolding create_on_row
  create_on_row-Arrives clock run_id type hash none f =
      Ensures-ok _ (next here (opens _ f refl refl))
  create_on_row-Arrives clock run_id type hash (some e) f = Ensures-ok _ here

  claim_fresh-Arrives :
      (clock : Clock) (call_id token : ℕ) (i : StepIdentity)
      → 1 ≤ n
      → find_step (i.run_id, i.step_id) db.tool_calls ≡ none
      → Arrives n db (claim_fresh clock call_id token i db)
  unfolding claim_fresh
  claim_fresh-Arrives clock call_id token i one f = Ensures-bind _ _ λ _ _. Ensures-bind _ _ λ d l.
      Ensures-ok _ (
        then_appends i.run_id _ _ clock.utc_now
          (adds_step _ f (append-known i.run_id _ _ clock.utc_now _ l) one
            (fresh_step-StepOk clock call_id token i) refl)
          l)

  claim_retry-Arrives :
      (clock : Clock) (token : ℕ) (i : StepIdentity) (s : ToolCallRecord)
      → find_step (step_key s) db.tool_calls ≡ some s
      → str_eq s.tool_name i.tool_name ≡ true
      → leb n s.attempt_count ≡ false
      → Arrives n db (claim_retry clock token i s db)
  unfolding claim_retry
  claim_retry-Arrives clock token i s f same few =
      Ensures-if (is_failed_call s.status) _ _
        (λ h. Ensures-bind _ _ λ d l. Ensures-ok _ (
          then_appends i.run_id _ _ clock.utc_now
            (moves_step s _ f (retry_step-StepMove n clock token i s same h few) refl) l))
        (λ _. Ensures-ok _ here)

  pub claim_on_row-Arrives :
      (clock : Clock) (call_id token max : ℕ) (i : StepIdentity) (o : Option ToolCallRecord)
      → 1 ≤ max
      → max ≤ n
      → find_step (i.run_id, i.step_id) db.tool_calls ≡ o
      → Arrives n db (claim_on_row o clock call_id token max i db)
  unfolding claim_on_row
  claim_on_row-Arrives clock call_id token max i none one le f =
      claim_fresh-Arrives clock call_id token i (omega (arith, one, le)) f
  claim_on_row-Arrives clock call_id token max i (some s) one le f =
      Ensures-if (not (str_eq s.tool_name i.tool_name)) _ _ (λ _. Ensures-ok _ here)
        λ same.
          Ensures-if (not (s.input_hash == i.input_hash)) _ _ (λ _. Ensures-ok _ here)
            λ _.
              Ensures-if (is_completed_call s.status) _ _ (λ _. Ensures-ok _ here)
                λ _.
                  Ensures-if (is_running_call s.status) _ _ (λ _. Ensures-ok _ here)
                    λ _.
                      Ensures-if (leb max s.attempt_count) _ _ (λ _. Ensures-ok _ here)
                        λ few.
                          claim_retry-Arrives clock token i s
                            (Table.find-own step_key (i.run_id, i.step_id) db.tool_calls f)
                            (ground arith) (ground (arith, le, few))

  module _ (clock : Clock) (key : ℕ × ℕ) (token : ℕ) where
    pub complete-Arrives :
        (result type outcome : String) (o : Option ToolCallRecord)
        → find_step key db.tool_calls ≡ o
        → Arrives n db
            (finalize_on_row o clock token call_completed (some result) none type outcome db)
    unfolding finalize_on_row
    complete-Arrives result type outcome none f = Ensures-err _
    complete-Arrives result type outcome (some s) f = Ensures-guard _ _ _ λ h.
        Ensures-bind _ _ λ d l. Ensures-ok _ (
          then_appends s.run_id _ _ clock.utc_now
            (moves_step s _ (Table.find-own step_key key db.tool_calls f)
              (complete-StepMove n clock token result s h) refl)
            l)

    pub fail-Arrives :
        (error type outcome : String) (o : Option ToolCallRecord)
        → find_step key db.tool_calls ≡ o
        → Arrives n db (finalize_on_row o clock token call_failed none (some error) type outcome db)
    unfolding finalize_on_row
    fail-Arrives error type outcome none f = Ensures-err _
    fail-Arrives error type outcome (some s) f = Ensures-guard _ _ _ λ h. Ensures-bind _ _ λ d l.
        Ensures-ok _ (
          then_appends s.run_id _ _ clock.utc_now
            (moves_step s _ (Table.find-own step_key key db.tool_calls f)
              (fail-StepMove n clock token error s h) refl)
            l)

  pub recover_on_row-Arrives :
      (clock : Clock) (key : ℕ × ℕ) (o : Option ToolCallRecord)
      → find_step key db.tool_calls ≡ o
      → Arrives n db (recover_on_row o clock db)
  unfolding recover_on_row
  recover_on_row-Arrives clock key none f = Ensures-err _
  recover_on_row-Arrives clock key (some s) f =
      Ensures-if (is_running_call s.status) _ _
        (λ h. Ensures-bind _ _ λ d l. Ensures-ok _ (
          then_appends s.run_id _ _ clock.utc_now
            (moves_step s _ (Table.find-own step_key key db.tool_calls f)
              (interrupt_step-StepMove n clock s h) refl)
            l))
        (λ _. Ensures-ok _ here)

  reuse_into-Arrives :
      (s : ToolCallRecord) (clock : Clock) (call_id source : ℕ) (i : StepIdentity)
      (o : Option ToolCallRecord)
      → is_null s.result_json ≡ false
      → find_step (i.run_id, i.step_id) db.tool_calls ≡ o
      → Arrives n db (reuse_into o s clock call_id source i db)
  unfolding reuse_into
  reuse_into-Arrives s clock call_id source i none r f = Ensures-bind _ _ λ _ _.
      Ensures-bind _ _ λ d l. Ensures-ok _ (
        then_appends i.run_id _ _ clock.utc_now
          (adds_step _ f (append-known i.run_id _ _ clock.utc_now _ l) (omega arith)
            (copied_step-StepOk clock call_id i s.result_json r) refl)
          l)
  reuse_into-Arrives s clock call_id source i (some t) r f = Ensures-ok _ here

  pub reuse_from-Arrives :
      (clock : Clock) (call_id source : ℕ) (i : StepIdentity) (o : Option ToolCallRecord)
      → Arrives n db (reuse_from o clock call_id source i db)
  unfolding reuse_from is_evidence
  reuse_from-Arrives clock call_id source i none = Ensures-ok _ here
  reuse_from-Arrives clock call_id source i (some s) =
      Ensures-if
        (not (is_evidence i s)
          || not (is_null (find_action (source, i.step_id) db.external_actions)))
        _ _ (λ _. Ensures-ok _ here)
        (λ h. reuse_into-Arrives s clock call_id source i _ (ground arith) refl)
