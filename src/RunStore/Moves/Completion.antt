-- ===== src/RunStore/Moves/Completion.antt =====
-- The commit of a completed run is a sequence of moves.
use agent_runtime_platform.Base.{
  ℕ, suc, true, Option, none, some, List, ◌≡◌, refl, sym, inl, inr, arith, some-inj, holds_number,
}
use agent_runtime_platform.Contracts.{BaseRuntimeState}
use agent_runtime_platform.Models.{RunRecord, is_running}
use agent_runtime_platform.RunStore.{
  Database, Checkpoint, Clock, thread_revision, find_checkpoint, checkpoint_key, runtime_error,
}
use agent_runtime_platform.RunStore.Cancel.{tables_after}
use agent_runtime_platform.RunStore.Settle.{refused}
use agent_runtime_platform.RunStore.Conflict.{fail_checkpoint_conflict, may_commit}
use agent_runtime_platform.RunStore.Complete.{
  may_complete, upsert_rows, checkpoint_row, log_completed, finish_completed, complete_at_revision,
  complete_with_state, complete_on_row, commit_completed_run,
}
use agent_runtime_platform.RunStore.Moves.Commits.{
  refused-Reaches, fail_checkpoint_conflict-Reaches,
}
use agent_runtime_platform.RunStore.Moves.{Move, Moves, next, saves, Ensures, Reaches}
use agent_runtime_platform.RunStore.Moves.Rules.{
  or_error-ok, Ensures-bind, Ensures-ok, Ensures-err, Ensures-if, update_run-Moves, then_logs,
}
use agent_runtime_platform.RunStore.Moves.Rows.{complete_with-RowMove}

may_complete-running :
    (tenant token now : ℕ) (r : RunRecord)
    → may_complete tenant token now r ≡ true
    → is_running r.status ≡ true
unfolding may_complete
may_complete-running tenant token now r h = ground arith

-- The checkpoint that the statement leaves is the next revision of its thread.
upsert_rows-Move :
    (row : Checkpoint) (observed : ℕ) (o : Option Checkpoint) (db : Database)
    {rows : List Checkpoint}
    → find_checkpoint (checkpoint_key row) db.thread_states ≡ o
    → row.revision ≡ 1
    → upsert_rows row observed o db.thread_states ≡ some rows
    → Move db (record db { thread_states = rows })
unfolding upsert_rows
upsert_rows-Move row observed none db {rows} f one h =
    saves row rows (record { found = inl (f, one, sym (some-inj h)) }) refl
upsert_rows-Move row observed (some old) db {rows} f one h =
    saves (record row { revision = suc old.revision }) rows
      (record { found = inr (old, f, refl, ground arith) }) refl

module _ (clock : Clock) (run : RunRecord) (token : ℕ) (persisted : RunRecord)
    (state : BaseRuntimeState) where
  log_completed-Reaches :
      {db d : Database} (observed : ℕ)
      → Moves db d
      → Ensures (Moves db) (log_completed clock run persisted state observed d)
  unfolding log_completed
  log_completed-Reaches observed m = Ensures-bind _ _ λ p h.
      Ensures-bind _ _
        λ q k. Ensures-ok _ (then_logs run.run_id _ _ _ (then_logs run.run_id _ _ _ m h) k)

  finish_completed-Reaches :
      (observed : ℕ) (u : Option Database) (db : Database)
      → Moves db (tables_after db u)
      → Reaches db (finish_completed clock run token persisted state observed u db)
  unfolding finish_completed
  finish_completed-Reaches observed none db m = refused-Reaches clock run token db
  finish_completed-Reaches observed (some d) db m = Ensures-bind _ _ λ rows h.
      Ensures-bind _ _ λ l k. Ensures-ok _ (
        (log_completed-Reaches observed (
            next m (
              upsert_rows-Move (checkpoint_row clock run persisted state) observed _ d refl refl
                (or_error-ok _ runtime_error h)))).at
          l k)

  complete_at_revision-Reaches :
      (observed : ℕ) (db : Database)
      → Reaches db (complete_at_revision clock run token persisted state observed db)
  unfolding complete_at_revision
  complete_at_revision-Reaches observed db = Ensures-bind _ _ λ _ _. Ensures-bind _ _ λ _ _.
      Ensures-bind _ _ λ u h. finish_completed-Reaches observed u db (
        update_run-Moves run.run_id _ _ db
          (λ r _ w.
            complete_with-RowMove db r clock run state
              (may_complete-running run.tenant_id token clock.now_ms r w))
          u h)

module _ (clock : Clock) (run : RunRecord) (token : ℕ) where
  complete_with_state-Reaches :
      (persisted : RunRecord) (state : Option BaseRuntimeState) (db : Database)
      → Reaches db (complete_with_state clock run token persisted state db)
  unfolding complete_with_state
  complete_with_state-Reaches persisted none db = Ensures-err _
  complete_with_state-Reaches persisted (some state) db =
      let observed = thread_revision db run.tenant_id persisted.thread_id in
      Ensures-if (holds_number persisted.checkpoint_base_revision observed)
        (complete_at_revision clock run token persisted state observed db)
        (fail_checkpoint_conflict clock run token "completion" persisted.checkpoint_base_revision
          observed db)
        (λ _. complete_at_revision-Reaches clock run token persisted state observed db)
        (λ _. fail_checkpoint_conflict-Reaches clock run token "completion" _ observed db)

  complete_on_row-Reaches :
      (persisted : RunRecord) (db : Database)
      → Reaches db (complete_on_row clock run token persisted db)
  unfolding complete_on_row
  complete_on_row-Reaches persisted db =
      Ensures-if (may_commit token clock.now_ms persisted)
        (complete_with_state clock run token persisted run.state db) (refused clock run token db)
        (λ _. complete_with_state-Reaches persisted run.state db)
        (λ _. refused-Reaches clock run token db)

  pub commit_completed_run-Reaches :
      (db : Database) → Reaches db (commit_completed_run clock run token db)
  unfolding commit_completed_run
  commit_completed_run-Reaches db =
      Ensures-bind _ _ λ persisted _. complete_on_row-Reaches persisted db
