-- ===== src/RunStore/Settle.antt =====
-- `commit_failed_run`, `_commit_cancelled_run` and `commit_reconciliation_pending`.
use agent_runtime_platform.Base.{
  ℕ, String, Bool, true, not, ◌&&◌, ◌||◌, Option, none, some, [], ◌∷◌, ◌==◌,
}
use agent_runtime_platform.Contracts.{Fields, Text, str, literal}
use agent_runtime_platform.Models.{
  failed, cancelled, RunRecord, is_queued, is_running, RunCommitOutcome, committed,
}
use agent_runtime_platform.RunStore.{Database, Clock, Result, ok, ◌>>=◌, update_run}
use agent_runtime_platform.RunStore.Events.{append_event}
use agent_runtime_platform.RunStore.Cancel.{without_lease}
use agent_runtime_platform.RunStore.Outcome.{classify_commit_outcome, has_current_lease}

-- A statement that changed no row.
unfoldable pub refused :
    Clock → RunRecord → ℕ → Database → Result (Database × (RunCommitOutcome × RunRecord))
refused clock run token db = do
  outcome ← classify_commit_outcome run.run_id run.tenant_id token clock.now_ms db
  ok (db, (outcome, run))

unfoldable pub may_fail : ℕ → ℕ → ℕ → Bool → RunRecord → Bool
unfolding has_current_lease
may_fail tenant token now allow_cancel_requested r =
    r.tenant_id == tenant
    && is_running r.status
    && (not r.cancel_requested || allow_cancel_requested)
    && has_current_lease token now r

-- The columns that the statement sets, on the row and then on the caller's record.
unfoldable pub fail_with : Clock → String → Text → RunRecord → RunRecord
unfolding without_lease
fail_with clock error_code error r = without_lease (record r {
  status = failed;
  error_code = some error_code;
  error = some error;
  completed_at = some clock.utc_now;
  updated_at = clock.utc_now;
})

abbrev traceback_field : Option String → Fields
traceback_field none = []
traceback_field (some t) = ("traceback", str (literal t)) ∷ []

unfoldable pub finish_failed :
    Clock
    → RunRecord
    → ℕ
    → String
    → Text
    → Option String
    → Option Database
    → Database
    → Result (Database × (RunCommitOutcome × RunRecord))
unfolding refused fail_with
finish_failed clock run token error_code error traceback none db = refused clock run token db
finish_failed clock run token error_code error traceback (some updated) db = do
  logged ←
      append_event run.run_id "run.failed"
        (("error_code", str (literal error_code))
          ∷ ("error", str error)
          ∷ traceback_field traceback)
        clock.utc_now updated
  ok (logged.0, (committed, fail_with clock error_code error run))

unfoldable pub commit_failed_run :
    Clock
    → RunRecord
    → ℕ
    → String
    → Text
    → Option String
    → Bool
    → Database
    → Result (Database × (RunCommitOutcome × RunRecord))
unfolding finish_failed may_fail
commit_failed_run clock run token error_code error traceback allow db = do
  updated ←
      update_run run.run_id (may_fail run.tenant_id token clock.now_ms allow)
        (fail_with clock error_code error) db
  finish_failed clock run token error_code error traceback updated db

unfoldable pub may_commit_cancelled : ℕ → ℕ → ℕ → RunRecord → Bool
unfolding has_current_lease
may_commit_cancelled tenant token now r =
    r.tenant_id == tenant
    && (is_queued r.status || is_running r.status)
    && r.cancel_requested
    && has_current_lease token now r

-- The statement writes the caller's record over the row, except for its identity and its base
-- revision.
unfoldable pub cancel_with : Clock → RunRecord → RunRecord → RunRecord
unfolding without_lease
cancel_with clock run r = without_lease (record r {
  execution_authority = run.execution_authority;
  thread_id = run.thread_id;
  agent_id = run.agent_id;
  agent_version = run.agent_version;
  domain_id = run.domain_id;
  schema_version = run.schema_version;
  status = cancelled;
  input = run.input;
  state = run.state;
  output_message = run.output_message;
  validation_errors = run.validation_errors;
  error_code = none;
  error = none;
  attempt = run.attempt;
  cancel_requested = true;
  client_request_id = run.client_request_id;
  created_at = run.created_at;
  updated_at = clock.utc_now;
  started_at = run.started_at;
  completed_at = some clock.utc_now;
})

unfoldable pub finish_cancelled :
    Clock
    → RunRecord
    → ℕ
    → Text
    → Option Database
    → Database
    → Result (Database × (RunCommitOutcome × RunRecord))
unfolding refused cancel_with
finish_cancelled clock run token reason none db = refused clock run token db
finish_cancelled clock run token reason (some updated) db = do
  logged ←
      append_event run.run_id "run.cancelled" (("reason", str reason) ∷ []) clock.utc_now updated
  ok (logged.0, (committed, cancel_with clock run run))

unfoldable pub commit_cancelled_run :
    Clock → RunRecord → ℕ → Text → Database → Result (Database × (RunCommitOutcome × RunRecord))
unfolding finish_cancelled may_commit_cancelled
commit_cancelled_run clock run token reason db = do
  updated ←
      update_run run.run_id (may_commit_cancelled run.tenant_id token clock.now_ms)
        (cancel_with clock run) db
  finish_cancelled clock run token reason updated db

unfoldable pub may_mark_pending : ℕ → ℕ → ℕ → RunRecord → Bool
unfolding has_current_lease
may_mark_pending tenant token now r =
    r.tenant_id == tenant && is_running r.status && has_current_lease token now r

unfoldable pub mark_pending : Clock → String → Text → RunRecord → RunRecord
mark_pending clock error_code error r = record r {
  error_code = some error_code;
  error = some error;
  completed_at = none;
  updated_at = clock.utc_now;
}

unfoldable pub finish_pending :
    Clock → ℕ → ℕ → ℕ → Option Database → Database → Result (Database × RunCommitOutcome)
finish_pending clock run_id tenant token (some updated) db = ok (updated, committed)
finish_pending clock run_id tenant token none db = do
  outcome ← classify_commit_outcome run_id tenant token clock.now_ms db
  ok (db, outcome)

unfoldable pub commit_reconciliation_pending :
    Clock → ℕ → ℕ → ℕ → String → Text → Database → Result (Database × RunCommitOutcome)
unfolding finish_pending may_mark_pending
commit_reconciliation_pending clock run_id tenant token error_code error db = do
  updated ←
      update_run run_id (may_mark_pending tenant token clock.now_ms)
        (mark_pending clock error_code error) db
  finish_pending clock run_id tenant token updated db
