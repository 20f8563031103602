-- ===== src/RunStore/Cancel.antt =====
-- `finalize_next_queued_cancellation` and `request_cancel_atomically`.
use agent_runtime_platform.Base.{
  ℕ, String, Bool, true, false, not, ◌&&◌, ◌||◌, Option, none, some, [], ◌∷◌, ◌==◌, if◌then◌else◌,
}
use agent_runtime_platform.Contracts.{str, literal}
use agent_runtime_platform.Models.{
  RunStatus, queued, running, completed, failed, cancelled, RunRecord, is_queued, is_running,
}
use agent_runtime_platform.RunStore.{
  Database, Clock, Result, ok, ◌>>=◌, run_not_found, runtime_error, update_run, find_run,
  ParseState, row_to_run, or_error,
}
use agent_runtime_platform.RunStore.Events.{append_event}
use agent_runtime_platform.RunStore.Claim.{first_row}

-- status = 'queued' AND cancel_requested = 1
unfoldable pub awaits_cancellation : RunRecord → Bool
awaits_cancellation r = is_queued r.status && r.cancel_requested

-- The columns that every statement clears which takes a lease away.
unfoldable pub without_lease : RunRecord → RunRecord
without_lease r = record r {
  lease_owner_id = none;
  lease_token = none;
  lease_heartbeat_at = none;
  lease_expires_at = none;
}

unfoldable pub cancel_before_start : Clock → RunRecord → RunRecord
unfolding without_lease
cancel_before_start clock r = without_lease (record r {
  status = cancelled;
  error_code = none;
  error = none;
  completed_at = some clock.utc_now;
  updated_at = clock.utc_now;
})

unfoldable pub finish_cancellation :
    ParseState → Clock → ℕ → Option Database → Database → Result (Database × Option RunRecord)
finish_cancellation parse clock run_id none db = ok (db, none)
finish_cancellation parse clock run_id (some updated) db = do
  logged ←
      append_event run_id "run.cancelled" (("reason", str (literal "cancelled_before_start")) ∷ [])
        clock.utc_now updated
  row ← or_error (find_run run_id logged.0.runs) runtime_error
  run ← row_to_run parse row
  ok (logged.0, some run)

unfoldable pub finalize_row :
    ParseState → Clock → Option RunRecord → Database → Result (Database × Option RunRecord)
unfolding finish_cancellation
finalize_row parse clock none db = ok (db, none)
finalize_row parse clock (some r) db = do
  updated ← update_run r.run_id awaits_cancellation (cancel_before_start clock) db
  finish_cancellation parse clock r.run_id updated db

unfoldable pub finalize_next_queued_cancellation :
    ParseState → Clock → Database → Result (Database × Option RunRecord)
unfolding finalize_row first_row
finalize_next_queued_cancellation parse clock db =
    finalize_row parse clock (first_row awaits_cancellation db.runs) db

-- The allowlist of the conditional UPDATE.
unfoldable pub may_cancel : ℕ → RunRecord → Bool
may_cancel tenant r =
    r.tenant_id == tenant && (is_queued r.status || is_running r.status) && not r.cancel_requested

abbrev pub of_tenant : ℕ → Option RunRecord → Option RunRecord
of_tenant tenant none = none
of_tenant tenant (some r) = if r.tenant_id == tenant then some r else none

abbrev status_text : RunStatus → String
status_text queued = "queued"
status_text running = "running"
status_text completed = "completed"
status_text failed = "failed"
status_text cancelled = "cancelled"

unfoldable pub log_cancel_request : Clock → ℕ → RunRecord → Bool → Database → Result Database
log_cancel_request clock run_id row false db = ok db
log_cancel_request clock run_id row true db = do
  logged ←
      append_event run_id "run.cancel_requested"
        (("status", str (literal (status_text row.status))) ∷ []) clock.utc_now db
  ok logged.0

abbrev pub tables_after : Database → Option Database → Database
tables_after db none = db
tables_after db (some updated) = updated

abbrev pub was_changed : Option Database → Bool
was_changed none = false
was_changed (some updated) = true

-- The flag of the row is set.
unfoldable pub flag_cancelled : Clock → RunRecord → RunRecord
flag_cancelled clock r = record r { cancel_requested = true; updated_at = clock.utc_now }

-- The row is decoded after the transaction: a refusal by the registry undoes nothing, so the
-- result of the decoding stands beside the new tables.
unfoldable pub request_cancel_atomically :
    ParseState → Clock → ℕ → ℕ → Database → Result (Database × Result RunRecord)
unfolding log_cancel_request
request_cancel_atomically parse clock run_id tenant db = do
  updated ← update_run run_id (may_cancel tenant) (flag_cancelled clock) db
  let current = tables_after db updated
  row ← or_error (of_tenant tenant (find_run run_id current.runs)) run_not_found
  logged ← log_cancel_request clock run_id row (was_changed updated) current
  ok (logged, row_to_run parse row)
