-- ===== src/Workflow/Reuse.antt =====
-- `reuse_completed_step`: the completed evidence of another run is copied.
use agent_runtime_platform.Base.{
  ℕ, String, Bool, true, false, not, ◌&&◌, ◌||◌, Option, none, some, [], ◌∷◌, ◌==◌, is_null,
  if◌then◌else◌, any, str_eq,
}
use agent_runtime_platform.Contracts.{Fields, num, str, literal}
use agent_runtime_platform.RunStore.{
  Clock, Result, ok, ◌>>=◌, ◌>>◌, guard, or_error, value_error, integrity_error,
  execution_not_found,
}
use agent_runtime_platform.Workflow.{
  Ledger, RunsTable, WorkflowStatus, ready, blocked, call_completed, ToolCallRecord,
  is_running_execution, is_completed_call, StepReuseOutcome, copied, step_existing, not_reusable,
  find_step, find_execution, find_action, assert_run_lease, append_workflow_event,
}
use agent_runtime_platform.Workflow.Steps.{StepIdentity, insert_step}

pub record StepReuseResult : Type 0 where
  pub outcome : StepReuseOutcome
  pub step : Option ToolCallRecord

-- READY or BLOCKED
abbrev pub is_replayable : WorkflowStatus → Bool
is_replayable ready = true
is_replayable blocked = true
is_replayable _ = false

-- Completed evidence of the step that the caller names.
unfoldable pub is_evidence : StepIdentity → ToolCallRecord → Bool
is_evidence i s =
    is_completed_call s.status
    && str_eq s.tool_name i.tool_name
    && s.input_hash == i.input_hash
    && not (is_null s.result_json)

unfoldable pub copied_step : Clock → ℕ → StepIdentity → Option String → ToolCallRecord
copied_step clock call_id i result = record {
  call_id = call_id;
  run_id = i.run_id;
  step_id = i.step_id;
  tool_name = i.tool_name;
  input_hash = i.input_hash;
  status = call_completed;
  attempt_count = 0;
  attempt_token = none;
  result_json = result;
  error_code = none;
  created_at = clock.utc_now;
  updated_at = clock.utc_now;
}

abbrev pub reused_payload : ℕ → StepIdentity → Fields
reused_payload source i =
    ("step_id", num i.step_id)
    ∷ ("tool_name", str (literal i.tool_name))
    ∷ ("source_run_id", num source)
    ∷ ("attempt_count", num 0)
    ∷ ("outcome", str (literal "reused"))
    ∷ []

abbrev pub reuse_answer :
    Ledger → StepReuseOutcome → Option ToolCallRecord → Result (Ledger × StepReuseResult)
reuse_answer db outcome step = ok (db, record { outcome = outcome; step = step })

-- With the row of the target, if there is one.
unfoldable pub reuse_into :
    Option ToolCallRecord
    → ToolCallRecord
    → Clock
    → ℕ
    → ℕ
    → StepIdentity
    → Ledger
    → Result (Ledger × StepReuseResult)
unfolding is_evidence copied_step
reuse_into (some t) from clock call_id source i db =
    reuse_answer db (if is_evidence i t then step_existing else not_reusable) (some t)
reuse_into none from clock call_id source i db = do
  let step = copied_step clock call_id i from.result_json
  guard (not (any (λ (s : ToolCallRecord). s.call_id == call_id) db.tool_calls)) integrity_error
  logged ←
      append_workflow_event i.run_id "step.replay_reused" (reused_payload source i) clock.utc_now
        (insert_step step db)
  ok (logged, record { outcome = copied; step = some step })

-- With the row of the source, if there is one.
unfoldable pub reuse_from :
    Option ToolCallRecord
    → Clock
    → ℕ
    → ℕ
    → StepIdentity
    → Ledger
    → Result (Ledger × StepReuseResult)
unfolding is_evidence reuse_into
reuse_from none clock call_id source i db = reuse_answer db not_reusable none
reuse_from (some s) clock call_id source i db =
    if not (is_evidence i s) || not (is_null (find_action (source, i.step_id) db.external_actions))
    then reuse_answer db not_reusable (some s)
    else reuse_into (find_step (i.run_id, i.step_id) db.tool_calls) s clock call_id source i db

-- The run of the identity is the target.
unfoldable pub reuse_completed_step :
    Clock → RunsTable → Option ℕ → ℕ → ℕ → StepIdentity → Ledger → Result (Ledger × StepReuseResult)
unfolding reuse_from
reuse_completed_step clock runs lease call_id source i db = do
  guard (not (source == i.run_id)) value_error
  assert_run_lease clock.now_ms i.run_id lease runs
  from ← or_error (find_execution source db.workflow_executions) execution_not_found
  to ← or_error (find_execution i.run_id db.workflow_executions) execution_not_found
  guard (str_eq from.workflow_type to.workflow_type) value_error
  guard (is_replayable from.status) value_error
  guard (is_running_execution to.status) value_error
  reuse_from (find_step (source, i.step_id) db.tool_calls) clock call_id source i db
