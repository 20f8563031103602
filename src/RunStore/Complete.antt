-- ===== src/RunStore/Complete.antt =====
-- `_commit_completed_run` and `_assert_thread_schema_available`.
pub mod Commit
pub mod Conflicts
use agent_runtime_platform.Base.{
  ℕ, suc, ◌+◌, String, Bool, true, false, not, ◌&&◌, ◌||◌, Option, none, some, List, [], ◌∷◌, ◌==◌,
  holds_number, above, if◌then◌else◌, str_eq, length,
}
use agent_runtime_platform.Base.Table
use agent_runtime_platform.Base.Table.{pair_key}
use agent_runtime_platform.Contracts.{
  Json, Fields, str, num, texts, literal, BaseRuntimeState, project_thread_checkpoint_state,
}
use agent_runtime_platform.Models.{
  RunStatus, completed, RunRecord, is_running, RunCommitOutcome, committed,
}
use agent_runtime_platform.RunStore.{
  Database, Checkpoint, Clock, Result, ok, err, ◌>>=◌, ◌>>◌, guard, run_not_found, runtime_error,
  value_error, update_run, find_run, or_error, thread_revision, find_checkpoint, checkpoint_key,
}
use agent_runtime_platform.RunStore.Events.{append_event}
use agent_runtime_platform.RunStore.Cancel.{without_lease, of_tenant}
use agent_runtime_platform.RunStore.Outcome.{has_current_lease}
use agent_runtime_platform.RunStore.Settle.{refused}
use agent_runtime_platform.RunStore.Conflict.{fail_checkpoint_conflict, may_commit}

-- The triple (thread_id, domain_id, schema_version) is that of the row.
unfoldable pub same_identity : RunRecord → ℕ → String → String → Bool
same_identity r thread domain schema =
    thread == r.thread_id && str_eq domain r.domain_id && str_eq schema r.schema_version

unfoldable pub schema_matches : String → String → Option Checkpoint → Bool
schema_matches domain schema none = true
schema_matches domain schema (some c) = str_eq c.domain_id domain && str_eq c.schema_version schema

unfoldable pub assert_thread_schema_available :
    Database → ℕ → ℕ → String → String → Result (Unit {0})
unfolding schema_matches
assert_thread_schema_available db tenant thread domain schema =
    guard (schema_matches domain schema (find_checkpoint (tenant, thread) db.thread_states))
      value_error

unfoldable pub may_complete : ℕ → ℕ → ℕ → RunRecord → Bool
unfolding may_commit
may_complete tenant token now r = r.tenant_id == tenant && may_commit token now r

unfoldable pub complete_with : Clock → RunRecord → BaseRuntimeState → RunRecord → RunRecord
unfolding without_lease
complete_with clock run state r = without_lease (record r {
  status = completed;
  state = some state;
  output_message = run.output_message;
  validation_errors = run.validation_errors;
  error_code = none;
  error = none;
  completed_at = some clock.utc_now;
  updated_at = clock.utc_now;
})

unfoldable pub upsert_rows :
    Checkpoint → ℕ → Option Checkpoint → List Checkpoint → Option (List Checkpoint)
upsert_rows row observed none rows = some (row ∷ rows)
upsert_rows row observed (some c) rows =
    if c.revision == observed
    then some (
        Table.set checkpoint_key (checkpoint_key row) (record row { revision = suc c.revision })
          rows)
    else none

-- INSERT INTO thread_states ... ON CONFLICT DO UPDATE ... WHERE thread_states.revision = ?
unfoldable pub upsert_checkpoint : Checkpoint → ℕ → List Checkpoint → Option (List Checkpoint)
unfolding upsert_rows
upsert_checkpoint row observed rows =
    upsert_rows row observed (find_checkpoint (checkpoint_key row) rows) rows

unfoldable pub checkpoint_row : Clock → RunRecord → RunRecord → BaseRuntimeState → Checkpoint
unfolding project_thread_checkpoint_state
checkpoint_row clock run persisted state = record {
  tenant_id = run.tenant_id;
  thread_id = persisted.thread_id;
  domain_id = persisted.domain_id;
  schema_version = persisted.schema_version;
  state = project_thread_checkpoint_state state;
  updated_at = clock.utc_now;
  revision = 1;
}

unfoldable pub saved_payload : RunRecord → BaseRuntimeState → ℕ → Fields
saved_payload persisted state observed =
    ("thread_id", num persisted.thread_id)
    ∷ ("trace_events", num (length (project_thread_checkpoint_state state).execution_trace))
    ∷ ("run_trace_events", num (length state.execution_trace))
    ∷ ("projection", str (literal "execution_trace_reset"))
    ∷ ("base_revision", num observed)
    ∷ ("revision", num (observed + 1))
    ∷ []

unfoldable pub log_completed :
    Clock → RunRecord → RunRecord → BaseRuntimeState → ℕ → Database → Result Database
unfolding saved_payload
log_completed clock run persisted state observed db = do
  saved ←
      append_event run.run_id "checkpoint.saved" (saved_payload persisted state observed)
        clock.utc_now db
  done ←
      append_event run.run_id "run.completed"
        (("validation_errors", texts run.validation_errors) ∷ []) clock.utc_now saved.0
  ok done.0

-- The caller's record as the method leaves it.
unfoldable pub finished_record : Clock → RunRecord → RunRecord
unfolding without_lease
finished_record clock run = without_lease (record run {
  status = completed;
  error_code = none;
  error = none;
  completed_at = some clock.utc_now;
  updated_at = clock.utc_now;
})

-- From the UPDATE of the row on.
unfoldable pub finish_completed :
    Clock
    → RunRecord
    → ℕ
    → RunRecord
    → BaseRuntimeState
    → ℕ
    → Option Database
    → Database
    → Result (Database × (RunCommitOutcome × RunRecord))
unfolding refused complete_with checkpoint_row upsert_checkpoint log_completed finished_record
finish_completed clock run token persisted state observed none db = refused clock run token db
finish_completed clock run token persisted state observed (some updated) db = do
  saved ←
      or_error
        (upsert_checkpoint (checkpoint_row clock run persisted state) observed
          updated.thread_states)
        runtime_error
  logged ←
      log_completed clock run persisted state observed (record updated { thread_states = saved })
  ok (logged, (committed, finished_record clock run))

-- The base revision is current: the identities are compared and the row is written.
unfoldable pub complete_at_revision :
    Clock
    → RunRecord
    → ℕ
    → RunRecord
    → BaseRuntimeState
    → ℕ
    → Database
    → Result (Database × (RunCommitOutcome × RunRecord))
unfolding finish_completed same_identity assert_thread_schema_available may_complete
complete_at_revision clock run token persisted state observed db = do
  guard
      (same_identity persisted run.thread_id run.domain_id run.schema_version
        && same_identity persisted state.thread_id state.domain_id state.schema_version)
      value_error
  assert_thread_schema_available db run.tenant_id persisted.thread_id persisted.domain_id
      persisted.schema_version
  updated ←
      update_run run.run_id (may_complete run.tenant_id token clock.now_ms)
        (complete_with clock run state) db
  finish_completed clock run token persisted state observed updated db

unfoldable pub complete_with_state :
    Clock
    → RunRecord
    → ℕ
    → RunRecord
    → Option BaseRuntimeState
    → Database
    → Result (Database × (RunCommitOutcome × RunRecord))
unfolding complete_at_revision fail_checkpoint_conflict
complete_with_state clock run token persisted none db = err value_error
complete_with_state clock run token persisted (some state) db =
    let observed = thread_revision db run.tenant_id persisted.thread_id in
    if holds_number persisted.checkpoint_base_revision observed
    then complete_at_revision clock run token persisted state observed db
    else fail_checkpoint_conflict clock run token "completion" persisted.checkpoint_base_revision
        observed db

unfoldable pub complete_on_row :
    Clock
    → RunRecord
    → ℕ
    → RunRecord
    → Database
    → Result (Database × (RunCommitOutcome × RunRecord))
unfolding complete_with_state may_commit refused
complete_on_row clock run token persisted db =
    if may_commit token clock.now_ms persisted
    then complete_with_state clock run token persisted run.state db
    else refused clock run token db

unfoldable pub commit_completed_run :
    Clock → RunRecord → ℕ → Database → Result (Database × (RunCommitOutcome × RunRecord))
unfolding complete_on_row
commit_completed_run clock run token db = do
  persisted ← or_error (of_tenant run.tenant_id (find_run run.run_id db.runs)) run_not_found
  complete_on_row clock run token persisted db
