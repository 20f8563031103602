-- ===== src/RunStore/Conflict.antt =====
-- `commit_checkpoint_conflict`, `quarantine_checkpoint_conflict_for_reconciliation` and
-- `_fail_checkpoint_conflict_with_connection`.
use agent_runtime_platform.Base.{
  ℕ, String, Bool, false, not, ◌&&◌, Option, none, some, [], ◌∷◌, holds_number, if◌then◌else◌,
}
use agent_runtime_platform.Contracts.{
  str, num, literal, revision_changed, revision_quarantined, optional_num,
}
use agent_runtime_platform.Models.{
  running, RunRecord, is_running, RunCommitOutcome, committed, checkpoint_conflict,
}
use agent_runtime_platform.RunStore.{
  Database, Clock, Result, ok, ◌>>=◌, ◌>>◌, guard, run_not_found, runtime_error, update_run,
  find_run, or_error, thread_revision,
}
use agent_runtime_platform.RunStore.Events.{append_event}
use agent_runtime_platform.RunStore.Claim.{reconciliation_blocked_code}
use agent_runtime_platform.RunStore.Cancel.{without_lease, of_tenant}
use agent_runtime_platform.RunStore.Outcome.{has_current_lease}
use agent_runtime_platform.RunStore.Settle.{refused, fail_with, may_fail, may_mark_pending}

-- THREAD_CHECKPOINT_CONFLICT_CODE
abbrev pub checkpoint_conflict_code : String
checkpoint_conflict_code = "thread_checkpoint_conflict"

unfoldable pub log_conflict : Clock → RunRecord → String → Option ℕ → ℕ → Database → Result Database
log_conflict clock run phase expected observed db = do
  conflict ←
      append_event run.run_id "checkpoint.conflict"
        (("phase", str (literal phase))
          ∷ ("expected_revision", optional_num expected)
          ∷ ("observed_revision", num observed)
          ∷ [])
        clock.utc_now db
  failure ←
      append_event run.run_id "run.failed"
        (("error_code", str (literal checkpoint_conflict_code))
          ∷ ("error", str (revision_changed expected observed))
          ∷ [])
        clock.utc_now conflict.0
  ok failure.0

-- The caller's record is returned as `_apply_checkpoint_conflict_to_run` leaves it.
unfoldable pub fail_checkpoint_conflict :
    Clock
    → RunRecord
    → ℕ
    → String
    → Option ℕ
    → ℕ
    → Database
    → Result (Database × (RunCommitOutcome × RunRecord))
unfolding log_conflict may_fail fail_with
fail_checkpoint_conflict clock run token phase expected observed db = do
  updated ←
      update_run run.run_id (may_fail run.tenant_id token clock.now_ms false)
        (fail_with clock checkpoint_conflict_code (revision_changed expected observed)) db
  current ← or_error updated runtime_error
  logged ← log_conflict clock run phase expected observed current
  ok (
    logged,
    (
      checkpoint_conflict,
      fail_with clock checkpoint_conflict_code (revision_changed expected observed) run,
    ),
  )

-- The attempt still owns the run, and nobody asked to cancel it.
unfoldable pub may_commit : ℕ → ℕ → RunRecord → Bool
unfolding has_current_lease
may_commit token now r =
    is_running r.status && not r.cancel_requested && has_current_lease token now r

unfoldable pub conflict_on_row :
    Clock
    → RunRecord
    → ℕ
    → String
    → RunRecord
    → Database
    → Result (Database × (RunCommitOutcome × RunRecord))
unfolding fail_checkpoint_conflict may_commit refused
conflict_on_row clock run token phase persisted db =
    if may_commit token clock.now_ms persisted
    then fail_checkpoint_conflict clock run token phase persisted.checkpoint_base_revision
        (thread_revision db run.tenant_id persisted.thread_id) db
    else refused clock run token db

unfoldable pub commit_checkpoint_conflict :
    Clock → RunRecord → ℕ → String → Database → Result (Database × (RunCommitOutcome × RunRecord))
unfolding conflict_on_row
commit_checkpoint_conflict clock run token phase db = do
  persisted ← or_error (of_tenant run.tenant_id (find_run run.run_id db.runs)) run_not_found
  conflict_on_row clock run token phase persisted db

-- The columns that quarantine sets on the row.
unfoldable pub quarantine_with : Clock → Option ℕ → ℕ → RunRecord → RunRecord
unfolding without_lease
quarantine_with clock expected observed r = without_lease (record r {
  error_code = some reconciliation_blocked_code;
  error = some (revision_quarantined expected observed);
  completed_at = none;
  updated_at = clock.utc_now;
})

unfoldable pub write_quarantine :
    Clock
    → RunRecord
    → ℕ
    → String
    → Option ℕ
    → ℕ
    → Database
    → Result (Database × (RunCommitOutcome × RunRecord))
unfolding quarantine_with may_mark_pending
write_quarantine clock run token phase expected observed db = do
  updated ←
      update_run run.run_id (may_mark_pending run.tenant_id token clock.now_ms)
        (quarantine_with clock expected observed) db
  current ← or_error updated runtime_error
  logged ←
      append_event run.run_id "checkpoint.conflict"
        (("phase", str (literal phase))
          ∷ ("expected_revision", optional_num expected)
          ∷ ("observed_revision", num observed)
          ∷ ("disposition", str (literal "external_action_reconciliation_quarantined"))
          ∷ [])
        clock.utc_now current
  ok (
    logged.0,
    (committed, quarantine_with clock expected observed (record run { status = running })),
  )

unfoldable pub quarantine_on_row :
    Clock
    → RunRecord
    → ℕ
    → String
    → RunRecord
    → Database
    → Result (Database × (RunCommitOutcome × RunRecord))
unfolding write_quarantine refused has_current_lease
quarantine_on_row clock run token phase persisted db =
    if is_running persisted.status && has_current_lease token clock.now_ms persisted
    then (do
      let observed = thread_revision db run.tenant_id persisted.thread_id
      guard (not (holds_number persisted.checkpoint_base_revision observed)) runtime_error
      write_quarantine clock run token phase persisted.checkpoint_base_revision observed db)
    else refused clock run token db

unfoldable pub quarantine_checkpoint_conflict :
    Clock → RunRecord → ℕ → String → Database → Result (Database × (RunCommitOutcome × RunRecord))
unfolding quarantine_on_row
quarantine_checkpoint_conflict clock run token phase db = do
  persisted ← or_error (of_tenant run.tenant_id (find_run run.run_id db.runs)) run_not_found
  quarantine_on_row clock run token phase persisted db
