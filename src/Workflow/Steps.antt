-- ===== src/Workflow/Steps.antt =====
-- `claim_step`, `complete_step`, `fail_step`, `recover_interrupted_step` and
-- `reuse_completed_step`. The call id and the attempt token that a claim makes are its arguments.
use agent_runtime_platform.Base.{
  ℕ, suc, String, Bool, not, ◌&&◌, Option, none, some, [], ◌∷◌, ◌==◌, leb, is_null, holds_number,
  if◌then◌else◌, any, str_eq,
}
use agent_runtime_platform.Base.Table
use agent_runtime_platform.Base.Table.{number_key, pair_key}
use agent_runtime_platform.Contracts.{Fields, num, str, literal}
use agent_runtime_platform.RunStore.{
  Clock, Result, ok, err, ◌>>=◌, ◌>>◌, guard, value_error, runtime_error, execution_not_found,
  step_not_found, stale_attempt,
}
use agent_runtime_platform.Workflow.{
  Ledger, RunsTable, ToolCallStatus, call_running, call_completed, call_failed, ToolCallRecord,
  ClaimOutcome, claimed, cached, already_running, input_mismatch, definition_mismatch,
  attempts_exhausted, is_running_call, is_completed_call, is_failed_call, step_key, find_step,
  find_execution, assert_run_lease, append_workflow_event,
}
use agent_runtime_platform.Workflow.Executions.{optional_str}

-- What a caller says of a step.
pub record StepIdentity : Type 0 where
  pub run_id : ℕ
  pub step_id : ℕ
  pub tool_name : String
  pub input_hash : ℕ

pub record ClaimResult : Type 0 where
  pub outcome : ClaimOutcome
  pub step : ToolCallRecord
  pub attempt_token : Option ℕ

abbrev pub set_step : ToolCallRecord → Ledger → Ledger
set_step s db = record db { tool_calls = Table.set step_key (step_key s) s db.tool_calls }

abbrev pub insert_step : ToolCallRecord → Ledger → Ledger
insert_step s db = record db { tool_calls = s ∷ db.tool_calls }

abbrev pub claimed_payload : StepIdentity → ℕ → Fields
claimed_payload i attempt =
    ("step_id", num i.step_id)
    ∷ ("tool_name", str (literal i.tool_name))
    ∷ ("attempt_count", num attempt)
    ∷ []

unfoldable pub fresh_step : Clock → ℕ → ℕ → StepIdentity → ToolCallRecord
fresh_step clock call_id token i = record {
  call_id = call_id;
  run_id = i.run_id;
  step_id = i.step_id;
  tool_name = i.tool_name;
  input_hash = i.input_hash;
  status = call_running;
  attempt_count = 1;
  attempt_token = some token;
  result_json = none;
  error_code = none;
  created_at = clock.utc_now;
  updated_at = clock.utc_now;
}

-- An INSERT can fail only on the call id: then no row of the step is found.
unfoldable pub claim_fresh : Clock → ℕ → ℕ → StepIdentity → Ledger → Result (Ledger × ClaimResult)
unfolding fresh_step
claim_fresh clock call_id token i db = do
  let step = fresh_step clock call_id token i
  guard (not (any (λ (s : ToolCallRecord). s.call_id == call_id) db.tool_calls)) runtime_error
  logged ←
      append_workflow_event i.run_id "step.claimed" (claimed_payload i 1) clock.utc_now
        (insert_step step db)
  ok (logged, record { outcome = claimed; step = step; attempt_token = some token })

unfoldable pub retry_step : Clock → ℕ → StepIdentity → ToolCallRecord → ToolCallRecord
retry_step clock token i s = record s {
  status = call_running;
  attempt_count = suc s.attempt_count;
  attempt_token = some token;
  tool_name = i.tool_name;
  error_code = none;
  updated_at = clock.utc_now;
}

abbrev pub answer : Ledger → ClaimOutcome → ToolCallRecord → Result (Ledger × ClaimResult)
answer db outcome s = ok (db, record { outcome = outcome; step = s; attempt_token = none })

-- UPDATE ... WHERE status = 'failed'; a row that is in another state counts as running.
unfoldable pub claim_retry :
    Clock → ℕ → StepIdentity → ToolCallRecord → Ledger → Result (Ledger × ClaimResult)
unfolding retry_step
claim_retry clock token i previous db =
    if is_failed_call previous.status
    then (do
      let step = retry_step clock token i previous
      logged ←
          append_workflow_event i.run_id "step.claimed"
            (claimed_payload i (suc previous.attempt_count)) clock.utc_now (set_step step db)
      ok (logged, record { outcome = claimed; step = step; attempt_token = some token }))
    else answer db already_running previous

unfoldable pub claim_on_row :
    Option ToolCallRecord
    → Clock
    → ℕ
    → ℕ
    → ℕ
    → StepIdentity
    → Ledger
    → Result (Ledger × ClaimResult)
unfolding claim_fresh claim_retry
claim_on_row none clock call_id token max_attempts i db = claim_fresh clock call_id token i db
claim_on_row (some s) clock call_id token max_attempts i db =
    if not (str_eq s.tool_name i.tool_name)
    then answer db definition_mismatch s
    else if not (s.input_hash == i.input_hash)
    then answer db input_mismatch s
    else if is_completed_call s.status
    then answer db cached s
    else if is_running_call s.status
    then answer db already_running s
    else if leb max_attempts s.attempt_count
    then answer db attempts_exhausted s
    else claim_retry clock token i s db

unfoldable pub claim_step :
    Clock → RunsTable → Option ℕ → ℕ → ℕ → ℕ → StepIdentity → Ledger → Result (Ledger × ClaimResult)
unfolding claim_on_row
claim_step clock runs lease call_id token max_attempts i db = do
  guard (leb 1 max_attempts) value_error
  assert_run_lease clock.now_ms i.run_id lease runs
  guard (not (is_null (find_execution i.run_id db.workflow_executions))) execution_not_found
  claim_on_row (find_step (i.run_id, i.step_id) db.tool_calls) clock call_id token max_attempts i db

unfoldable pub finish_step :
    Clock → ToolCallStatus → Option String → Option String → ToolCallRecord → ToolCallRecord
finish_step clock status result error s = record s {
  status = status;
  result_json = result;
  error_code = error;
  updated_at = clock.utc_now;
}

-- status = 'running' AND attempt_token = ?
unfoldable pub holds_attempt : ℕ → ToolCallRecord → Bool
holds_attempt token s = is_running_call s.status && holds_number s.attempt_token token

abbrev pub finished_payload : ToolCallRecord → String → Fields
finished_payload s outcome =
    ("step_id", num s.step_id)
    ∷ ("tool_name", str (literal s.tool_name))
    ∷ ("attempt_count", num s.attempt_count)
    ∷ ("error_code", optional_str s.error_code)
    ∷ ("outcome", str (literal outcome))
    ∷ []

unfoldable pub finalize_on_row :
    Option ToolCallRecord
    → Clock
    → ℕ
    → ToolCallStatus
    → Option String
    → Option String
    → String
    → String
    → Ledger
    → Result (Ledger × ToolCallRecord)
unfolding finish_step holds_attempt
finalize_on_row none clock token status result error event_type outcome db = err stale_attempt
finalize_on_row (some s) clock token status result error event_type outcome db = do
  guard (holds_attempt token s) stale_attempt
  let step = finish_step clock status result error s
  logged ←
      append_workflow_event s.run_id event_type (finished_payload step outcome) clock.utc_now
        (set_step step db)
  ok (logged, step)

unfoldable pub complete_step :
    Clock → RunsTable → Option ℕ → ℕ × ℕ → ℕ → String → Ledger → Result (Ledger × ToolCallRecord)
unfolding finalize_on_row
complete_step clock runs lease key token result db = do
  assert_run_lease clock.now_ms key.0 lease runs
  finalize_on_row (find_step key db.tool_calls) clock token call_completed (some result) none
      "step.completed" "completed" db

unfoldable pub fail_step :
    Clock → RunsTable → Option ℕ → ℕ × ℕ → ℕ → String → Ledger → Result (Ledger × ToolCallRecord)
unfolding finalize_on_row
fail_step clock runs lease key token error db = do
  assert_run_lease clock.now_ms key.0 lease runs
  finalize_on_row (find_step key db.tool_calls) clock token call_failed none (some error)
      "step.failed" "failed" db

unfoldable pub interrupt_step : Clock → ToolCallRecord → ToolCallRecord
interrupt_step clock s = record s {
  status = call_failed;
  error_code = some "interrupted";
  updated_at = clock.utc_now;
}

unfoldable pub recover_on_row :
    Option ToolCallRecord → Clock → Ledger → Result (Ledger × ToolCallRecord)
unfolding interrupt_step
recover_on_row none clock db = err step_not_found
recover_on_row (some s) clock db =
    if is_running_call s.status
    then (do
      logged ←
          append_workflow_event s.run_id "step.interrupted_recovery"
            (("step_id", num s.step_id) ∷ []) clock.utc_now (set_step (interrupt_step clock s) db)
      ok (logged, interrupt_step clock s))
    else ok (db, s)

unfoldable pub recover_interrupted_step :
    Clock → RunsTable → Option ℕ → ℕ × ℕ → Ledger → Result (Ledger × ToolCallRecord)
unfolding recover_on_row
recover_interrupted_step clock runs lease key db = do
  assert_run_lease clock.now_ms key.0 lease runs
  recover_on_row (find_step key db.tool_calls) clock db
