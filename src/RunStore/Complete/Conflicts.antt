-- ===== src/RunStore/Complete/Conflicts.antt =====
-- The commit of a completed run whose thread has moved on since the attempt started.
use agent_runtime_platform.Base.{
  ℕ, String, true, false, some, [], ◌∷◌, ◌≡◌, ◌≢◌, refl, arith, holds_number,
}
use agent_runtime_platform.Base.Table
use agent_runtime_platform.Base.Table.{number_key}
use agent_runtime_platform.Contracts.{
  BaseRuntimeState, Fields, str, literal, num, optional_num, revision_changed,
}
use agent_runtime_platform.Models.{RunRecord, RunEvent, checkpoint_conflict}
use agent_runtime_platform.RunStore.{
  Database, Clock, ok, ◌>>=◌, run_key, find_run, thread_revision, update_run,
}
use agent_runtime_platform.RunStore.Settle.{may_fail, fail_with}
use agent_runtime_platform.RunStore.Conflict.{
  may_commit, checkpoint_conflict_code, fail_checkpoint_conflict,
}
use agent_runtime_platform.RunStore.Complete.{commit_completed_run}
use agent_runtime_platform.RunStore.Invariant.{Inv}
use agent_runtime_platform.RunStore.Writes.{
  log_next, next_event, append_event-ok, update_run-ok, Weaker, breaks_index-Weaker,
}

module _ (clock : Clock) (run : RunRecord) (token : ℕ) (db : Database) (r : RunRecord)
    (found : find_run run.run_id db.runs ≡ some r) (same_tenant : r.tenant_id ≡ run.tenant_id)
    (owned : may_commit token clock.now_ms r ≡ true) (v : Inv db) where
  abbrev pub observed : ℕ
  observed = thread_revision db run.tenant_id r.thread_id

  abbrev pub failed_with : RunRecord → RunRecord
  failed_with =
      fail_with clock checkpoint_conflict_code
        (revision_changed r.checkpoint_base_revision observed)

  abbrev failed_tables : Database
  failed_tables = record db { runs = Table.set run_key run.run_id (failed_with r) db.runs }

  failed-Weaker : Weaker r (failed_with r)
  unfolding fail_with
  failed-Weaker = record { run = refl; tenant = refl; request = refl; thread = λ e. absurd (cc) }

  may_fail-owned : may_fail run.tenant_id token clock.now_ms false r ≡ true
  unfolding may_fail may_commit
  may_fail-owned = ground arith

  fails-row :
      update_run run.run_id (may_fail run.tenant_id token clock.now_ms false) failed_with db
      ≡ ok (some failed_tables)
  fails-row =
      update_run-ok run.run_id (may_fail run.tenant_id token clock.now_ms false) failed_with db
        found may_fail-owned
        (breaks_index-Weaker db r (failed_with r) v
          (Table.find-own run_key run.run_id db.runs found) failed-Weaker)

  own_key : (failed_with r).run_id ≡ run.run_id
  unfolding fail_with
  own_key = Table.find-key run_key run.run_id db.runs found

  failed-row : find_run run.run_id failed_tables.runs ≡ some (failed_with r)
  failed-row = Table.find-set_self run_key run.run_id (failed_with r) db.runs own_key found

  abbrev conflict_payload : String → Fields
  conflict_payload phase =
      ("phase", str (literal phase))
      ∷ ("expected_revision", optional_num r.checkpoint_base_revision)
      ∷ ("observed_revision", num observed)
      ∷ []

  abbrev failure_payload : Fields
  failure_payload =
      ("error_code", str (literal checkpoint_conflict_code))
      ∷ ("error", str (revision_changed r.checkpoint_base_revision observed))
      ∷ []

  abbrev conflict_logged : String → Database
  conflict_logged phase =
      log_next run.run_id "checkpoint.conflict" (conflict_payload phase) clock.utc_now failed_tables

  abbrev logged_tables : String → Database
  logged_tables phase =
      log_next run.run_id "run.failed" failure_payload clock.utc_now (conflict_logged phase)

  conflict-tables :
      (phase : String)
      → fail_checkpoint_conflict clock run token phase r.checkpoint_base_revision observed db
        ≡ ok (logged_tables phase, (checkpoint_conflict, failed_with run))
  unfolding fail_checkpoint_conflict ◌>>=◌
  conflict-tables phase = ground (
    arith,
    fails-row,
    failed-row,
    append_event-ok run.run_id "checkpoint.conflict" (conflict_payload phase) clock.utc_now
        failed_tables,
    append_event-ok run.run_id "run.failed" failure_payload clock.utc_now (conflict_logged phase),
  )

  -- In well-formed tables, an attempt that owns its tenant's run under a current lease, with no
  -- cancellation requested, and that brings some state, never overwrites a checkpoint that is not the
  -- one it started from: the commit reports the conflict, fails the run with the conflict's code and
  -- releases its lease, logs two events, and leaves every checkpoint and every other run as it was.
  pub commit_completed_run-conflict :
      (state : BaseRuntimeState)
      → run.state ≡ some state
      → holds_number r.checkpoint_base_revision observed ≡ false
      → (db' : Database) × (commit_completed_run clock run token db
          ≡ ok (db', (checkpoint_conflict, failed_with run)))
        × (db'.thread_states ≡ db.thread_states)
        × (find_run run.run_id db'.runs ≡ some (failed_with r))
        × ((j : ℕ) → j ≢ run.run_id → find_run j db'.runs ≡ find_run j db.runs)
        × ((failure : RunEvent) × (conflict : RunEvent) × (db'.run_events
              ≡ failure ∷ conflict ∷ db.run_events)
            × (conflict.event_type ≡ "checkpoint.conflict")
            × (failure.event_type ≡ "run.failed"))
  unfolding commit_completed_run ◌>>=◌
  commit_completed_run-conflict state produced moved = (
    logged_tables "completion",
    ground (arith, conflict-tables "completion"),
    refl,
    failed-row,
    (λ j ne.
        Table.find-set_ne run_key run.run_id j (failed_with r) db.runs own_key
          (ground (arith, ne))),
    (
      next_event run.run_id "run.failed" failure_payload clock.utc_now
          (conflict_logged "completion"),
      next_event run.run_id "checkpoint.conflict" (conflict_payload "completion") clock.utc_now
          failed_tables,
      refl,
      refl,
      refl,
    ),
  )
