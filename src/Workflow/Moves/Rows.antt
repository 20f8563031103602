-- ===== src/Workflow/Moves/Rows.antt =====
-- Each statement's change of one row is a move of that row.
use agent_runtime_platform.Base.{
  ℕ, String, true, false, Option, none, some, ◌≡◌, refl, is_null, arith, leb, str_eq, eq_iff,
}
use agent_runtime_platform.RunStore.{Clock}
use agent_runtime_platform.Workflow.{
  WorkflowStatus, pending, running, ToolCallStatus, call_running, call_completed, call_failed,
  WorkflowExecutionRecord, ToolCallRecord, is_pending_execution, is_running_execution,
  is_running_call, is_failed_call,
}
use agent_runtime_platform.Workflow.Executions.{start_execution, finish_execution}
use agent_runtime_platform.Workflow.Steps.{
  StepIdentity, fresh_step, retry_step, finish_step, interrupt_step, holds_attempt,
}
use agent_runtime_platform.Workflow.Reuse.{copied_step}
use agent_runtime_platform.Workflow.Moves.{
  ExecutionStep, starts, ExecutionMove, retries, completes, fails, StepOk, StepMove,
}

begins_from : (s : WorkflowStatus) → is_pending_execution s ≡ true → ExecutionStep s running
begins_from pending h = starts
begins_from _ h = absurd (cc)

pub is_running_from :
    (s : WorkflowStatus) {t : WorkflowStatus}
    → ExecutionStep running t
    → is_running_execution s ≡ true
    → ExecutionStep s t
is_running_from running m h = m
is_running_from _ m h = absurd (cc)

pub is_running_call_lem : (s : ToolCallStatus) → is_running_call s ≡ true → s ≡ call_running
is_running_call_lem call_running h = refl
is_running_call_lem _ h = absurd (cc)

is_failed_call_lem : (s : ToolCallStatus) → is_failed_call s ≡ true → s ≡ call_failed
is_failed_call_lem call_failed h = refl
is_failed_call_lem _ h = absurd (cc)

module _ (clock : Clock) (e : WorkflowExecutionRecord) where
  pub start_execution-ExecutionMove :
      is_pending_execution e.status ≡ true → ExecutionMove e (start_execution clock e)
  unfolding start_execution
  start_execution-ExecutionMove h = record {
    same_run = refl;
    same_type = refl;
    same_input = refl;
    status = begins_from e.status h;
  }

  pub finish_execution-ExecutionMove :
      (status : WorkflowStatus) (result error : Option String)
      → ExecutionStep running status
      → is_running_execution e.status ≡ true
      → ExecutionMove e (finish_execution clock status result error e)
  unfolding finish_execution
  finish_execution-ExecutionMove status result error m h = record {
    same_run = refl;
    same_type = refl;
    same_input = refl;
    status = is_running_from e.status m h;
  }

module _ (clock : Clock) where
  pub fresh_step-StepOk :
      (call_id token : ℕ) (i : StepIdentity) → StepOk (fresh_step clock call_id token i)
  unfolding fresh_step
  fresh_step-StepOk call_id token i = ground arith

  pub copied_step-StepOk :
      (call_id : ℕ) (i : StepIdentity) (result : Option String)
      → is_null result ≡ false
      → StepOk (copied_step clock call_id i result)
  unfolding copied_step
  copied_step-StepOk call_id i result h = ground arith

module _ (n : ℕ) (clock : Clock) where
  pub retry_step-StepMove :
      (token : ℕ) (i : StepIdentity) (s : ToolCallRecord)
      → str_eq s.tool_name i.tool_name ≡ true
      → is_failed_call s.status ≡ true
      → leb n s.attempt_count ≡ false
      → StepMove n s (retry_step clock token i s)
  unfolding retry_step
  retry_step-StepMove token i s same h few =
      let f : s.status ≡ call_failed = is_failed_call_lem s.status h in
      record {
        same_run = refl;
        same_step = refl;
        same_tool = cc ((eq_iff s.tool_name i.tool_name).0 same);
        same_input = refl;
        rule = retries f refl refl (ground (arith, few));
        keeps = λ k. ground arith;
      }

  pub complete-StepMove :
      (token : ℕ) (result : String) (s : ToolCallRecord)
      → holds_attempt token s ≡ true
      → StepMove n s (finish_step clock call_completed (some result) none s)
  unfolding holds_attempt finish_step
  complete-StepMove token result s h =
      let f : s.status ≡ call_running = is_running_call_lem s.status (ground arith) in
      record {
        same_run = refl;
        same_step = refl;
        same_tool = refl;
        same_input = refl;
        rule = completes f refl refl refl;
        keeps = λ k. ground arith;
      }

  pub fail-StepMove :
      (token : ℕ) (error : String) (s : ToolCallRecord)
      → holds_attempt token s ≡ true
      → StepMove n s (finish_step clock call_failed none (some error) s)
  unfolding holds_attempt finish_step
  fail-StepMove token error s h =
      let f : s.status ≡ call_running = is_running_call_lem s.status (ground arith) in
      record {
        same_run = refl;
        same_step = refl;
        same_tool = refl;
        same_input = refl;
        rule = fails f refl refl refl;
        keeps = λ k. ground arith;
      }

  pub interrupt_step-StepMove :
      (s : ToolCallRecord) → is_running_call s.status ≡ true → StepMove n s (interrupt_step clock s)
  unfolding interrupt_step
  interrupt_step-StepMove s h =
      let f : s.status ≡ call_running = is_running_call_lem s.status h in
      record {
        same_run = refl;
        same_step = refl;
        same_tool = refl;
        same_input = refl;
        rule = fails f refl refl refl;
        keeps = λ k. ground arith;
      }
