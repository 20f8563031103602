-- ===== src/RunStore/Moves/Commits.antt =====
-- The commits of an attempt are sequences of moves.
use agent_runtime_platform.Base.{
  ℕ, String, Bool, true, false, not, ◌&&◌, ◌||◌, Option, none, some, ◌≡◌, subst, arith,
  holds_number,
}
use agent_runtime_platform.Contracts.{Text}
use agent_runtime_platform.Models.{RunRecord, is_queued, is_running}
use agent_runtime_platform.RunStore.{
  Database, Clock, ok, Error, ◌>>◌, guard, or_error, thread_revision, runtime_error,
}
use agent_runtime_platform.RunStore.Outcome.{has_current_lease}
use agent_runtime_platform.RunStore.Cancel.{tables_after}
use agent_runtime_platform.RunStore.Settle.{
  refused, may_fail, finish_failed, commit_failed_run, may_commit_cancelled, finish_cancelled,
  commit_cancelled_run, may_mark_pending, finish_pending, commit_reconciliation_pending,
}
use agent_runtime_platform.RunStore.Conflict.{
  log_conflict, fail_checkpoint_conflict, may_commit, conflict_on_row, commit_checkpoint_conflict,
  write_quarantine, quarantine_on_row, quarantine_checkpoint_conflict,
}
use agent_runtime_platform.RunStore.Moves.{Moves, here, Ensures, Reaches}
use agent_runtime_platform.RunStore.Moves.Rules.{
  or_error-ok, Ensures-bind, Ensures-ok, Ensures-if, update_run-Moves, then_logs,
}
use agent_runtime_platform.RunStore.Moves.Rows.{
  fail_with-RowMove, cancel_with-RowMove, mark_pending-RowMove, quarantine_with-RowMove,
}

pub refused-Reaches :
    (clock : Clock) (run : RunRecord) (token : ℕ) (db : Database)
    → Reaches db (refused clock run token db)
unfolding refused
refused-Reaches clock run token db = Ensures-bind _ _ λ _ _. Ensures-ok _ here

-- `if cursor.rowcount != 1: raise`
pub committed_tables :
    {db : Database} (u : Option Database) (e : Error) {d : Database}
    → or_error u e ≡ ok d
    → Moves db (tables_after db u)
    → Moves db d
committed_tables {db} u e h m = subst (λ o. Moves db (tables_after db o)) (or_error-ok u e h) m

may_fail-running :
    (tenant token now : ℕ) (b : Bool) (r : RunRecord)
    → may_fail tenant token now b r ≡ true
    → is_running r.status ≡ true
unfolding may_fail
may_fail-running tenant token now b r h = ground arith

may_commit_cancelled-open :
    (tenant token now : ℕ) (r : RunRecord)
    → may_commit_cancelled tenant token now r ≡ true
    → (is_queued r.status || is_running r.status) ≡ true
unfolding may_commit_cancelled
may_commit_cancelled-open tenant token now r h = ground arith

pub may_mark_pending-running :
    (tenant token now : ℕ) (r : RunRecord)
    → may_mark_pending tenant token now r ≡ true
    → is_running r.status ≡ true
unfolding may_mark_pending
may_mark_pending-running tenant token now r h = ground arith

module _ (clock : Clock) (run : RunRecord) (token : ℕ) where
  finish_failed-Reaches :
      (code : String) (error : Text) (trace : Option String) (u : Option Database) (db : Database)
      → Moves db (tables_after db u)
      → Reaches db (finish_failed clock run token code error trace u db)
  unfolding finish_failed
  finish_failed-Reaches code error trace none db m = refused-Reaches clock run token db
  finish_failed-Reaches code error trace (some d) db m =
      Ensures-bind _ _ λ p h. Ensures-ok _ (then_logs run.run_id _ _ _ m h)

  pub commit_failed_run-Reaches :
      (code : String) (error : Text) (trace : Option String) (allow : Bool) (db : Database)
      → Reaches db (commit_failed_run clock run token code error trace allow db)
  unfolding commit_failed_run
  commit_failed_run-Reaches code error trace allow db = Ensures-bind _ _ λ u h.
      finish_failed-Reaches code error trace u db (
        update_run-Moves run.run_id _ _ db
          (λ r _ w.
            fail_with-RowMove db r clock code error
              (may_fail-running run.tenant_id token clock.now_ms allow r w))
          u h)

  finish_cancelled-Reaches :
      (reason : Text) (u : Option Database) (db : Database)
      → Moves db (tables_after db u)
      → Reaches db (finish_cancelled clock run token reason u db)
  unfolding finish_cancelled
  finish_cancelled-Reaches reason none db m = refused-Reaches clock run token db
  finish_cancelled-Reaches reason (some d) db m =
      Ensures-bind _ _ λ p h. Ensures-ok _ (then_logs run.run_id _ _ _ m h)

  pub commit_cancelled_run-Reaches :
      (reason : Text) (db : Database) → Reaches db (commit_cancelled_run clock run token reason db)
  unfolding commit_cancelled_run
  commit_cancelled_run-Reaches reason db = Ensures-bind _ _ λ u h.
      finish_cancelled-Reaches reason u db (
        update_run-Moves run.run_id _ _ db
          (λ r _ w.
            cancel_with-RowMove db r clock run
              (may_commit_cancelled-open run.tenant_id token clock.now_ms r w))
          u h)

  log_conflict-Reaches :
      {db d : Database} (phase : String) (expected : Option ℕ) (observed : ℕ)
      → Moves db d
      → Ensures (Moves db) (log_conflict clock run phase expected observed d)
  unfolding log_conflict
  log_conflict-Reaches phase expected observed m = Ensures-bind _ _ λ p h.
      Ensures-bind _ _
        λ q k. Ensures-ok _ (then_logs run.run_id _ _ _ (then_logs run.run_id _ _ _ m h) k)

  pub fail_checkpoint_conflict-Reaches :
      (phase : String) (expected : Option ℕ) (observed : ℕ) (db : Database)
      → Reaches db (fail_checkpoint_conflict clock run token phase expected observed db)
  unfolding fail_checkpoint_conflict
  fail_checkpoint_conflict-Reaches phase expected observed db = Ensures-bind _ _ λ u h.
      Ensures-bind _ _ λ d e. Ensures-bind _ _ λ l k. Ensures-ok _ (
        (log_conflict-Reaches phase expected observed (
            committed_tables u runtime_error e (
              update_run-Moves run.run_id _ _ db
                (λ r _ w.
                  fail_with-RowMove db r clock _ _
                    (may_fail-running run.tenant_id token clock.now_ms false r w))
                u h))).at
          l k)

  pub conflict_on_row-Reaches :
      (phase : String) (persisted : RunRecord) (db : Database)
      → Reaches db (conflict_on_row clock run token phase persisted db)
  unfolding conflict_on_row
  conflict_on_row-Reaches phase persisted db =
      Ensures-if (may_commit token clock.now_ms persisted)
        (fail_checkpoint_conflict clock run token phase persisted.checkpoint_base_revision
          (thread_revision db run.tenant_id persisted.thread_id) db)
        (refused clock run token db) (λ _. fail_checkpoint_conflict-Reaches phase _ _ db)
        (λ _. refused-Reaches clock run token db)

  pub commit_checkpoint_conflict-Reaches :
      (phase : String) (db : Database)
      → Reaches db (commit_checkpoint_conflict clock run token phase db)
  unfolding commit_checkpoint_conflict
  commit_checkpoint_conflict-Reaches phase db =
      Ensures-bind _ _ λ persisted _. conflict_on_row-Reaches phase persisted db

  write_quarantine-Reaches :
      (phase : String) (expected : Option ℕ) (observed : ℕ) (db : Database)
      → Reaches db (write_quarantine clock run token phase expected observed db)
  unfolding write_quarantine
  write_quarantine-Reaches phase expected observed db = Ensures-bind _ _ λ u h.
      Ensures-bind _ _ λ d e. Ensures-bind _ _ λ p l. Ensures-ok _ (
        then_logs run.run_id _ _ _
          (committed_tables u runtime_error e (
            update_run-Moves run.run_id _ _ db
              (λ r _ w.
                quarantine_with-RowMove db r clock expected observed
                  (may_mark_pending-running run.tenant_id token clock.now_ms r w))
              u h))
          l)

  quarantine_on_row-Reaches :
      (phase : String) (persisted : RunRecord) (db : Database)
      → Reaches db (quarantine_on_row clock run token phase persisted db)
  unfolding quarantine_on_row
  quarantine_on_row-Reaches phase persisted db =
      Ensures-if (is_running persisted.status && has_current_lease token clock.now_ms persisted)
        (guard
            (not (
              holds_number persisted.checkpoint_base_revision
                (thread_revision db run.tenant_id persisted.thread_id)))
            runtime_error
          >> write_quarantine clock run token phase persisted.checkpoint_base_revision
              (thread_revision db run.tenant_id persisted.thread_id) db)
        (refused clock run token db)
        (λ _. Ensures-bind _ _ λ _ _. write_quarantine-Reaches phase _ _ db)
        (λ _. refused-Reaches clock run token db)

  pub quarantine_checkpoint_conflict-Reaches :
      (phase : String) (db : Database)
      → Reaches db (quarantine_checkpoint_conflict clock run token phase db)
  unfolding quarantine_checkpoint_conflict
  quarantine_checkpoint_conflict-Reaches phase db =
      Ensures-bind _ _ λ persisted _. quarantine_on_row-Reaches phase persisted db

finish_pending-Reaches :
    (clock : Clock) (id tenant token : ℕ) (u : Option Database) (db : Database)
    → Moves db (tables_after db u)
    → Reaches db (finish_pending clock id tenant token u db)
unfolding finish_pending
finish_pending-Reaches clock id tenant token none db m = Ensures-bind _ _ λ _ _. Ensures-ok _ here
finish_pending-Reaches clock id tenant token (some d) db m = Ensures-ok _ m

pub commit_reconciliation_pending-Reaches :
    (clock : Clock) (id tenant token : ℕ) (code : String) (error : Text) (db : Database)
    → Reaches db (commit_reconciliation_pending clock id tenant token code error db)
unfolding commit_reconciliation_pending
commit_reconciliation_pending-Reaches clock id tenant token code error db = Ensures-bind _ _ λ u h.
    finish_pending-Reaches clock id tenant token u db (
      update_run-Moves id _ _ db
        (λ r _ w.
          mark_pending-RowMove db r clock code error
            (may_mark_pending-running tenant token clock.now_ms r w))
        u h)
