-- ===== src/RunStore/Complete/Commit.antt =====
-- The commit of a completed run whose base revision is current: what it does to the tables.
use agent_runtime_platform.Base.{
  ℕ, suc, true, false, Option, none, some, List, [], ◌∷◌, ◌≡◌, ◌≢◌, refl, sym, ap, ◌∙◌, inl, inr,
  arith, Bool-cases, if◌then◌else◌, is_null, ◌==◌, holds_number,
}
use agent_runtime_platform.Base.Table
use agent_runtime_platform.Base.Table.{number_key, pair_key, same_pair, same_pair_iff}
use agent_runtime_platform.Contracts.{BaseRuntimeState, texts, project_thread_checkpoint_state}
use agent_runtime_platform.Models.{RunRecord, RunEvent, committed}
use agent_runtime_platform.RunStore.{
  Database, Checkpoint, Clock, ok, ◌>>=◌, run_key, checkpoint_key, find_run, find_checkpoint,
  thread_revision, update_run,
}
use agent_runtime_platform.RunStore.Conflict.{may_commit}
use agent_runtime_platform.RunStore.Complete.{
  same_identity, schema_matches, may_complete, complete_with, upsert_checkpoint, upsert_rows,
  checkpoint_row, saved_payload, log_completed, finished_record, commit_completed_run,
}
use agent_runtime_platform.RunStore.Invariant.{Inv}
use agent_runtime_platform.RunStore.Invariant.Revisions.{find-Advance, revision_of}
use agent_runtime_platform.RunStore.Moves.{Advance}
use agent_runtime_platform.RunStore.Writes.{
  next_event, append_event-ok, update_run-ok, Weaker, breaks_index-Weaker,
}

-- The attempt owns the run, nobody cancelled it, it produced a state of the run's thread, domain
-- and schema, and the thread is still at the revision from which the attempt started.
pub record Ready (clock : Clock) (run : RunRecord) (token : ℕ) (db : Database) (r : RunRecord)
    (state : BaseRuntimeState) : Type 0 where
  pub found : find_run run.run_id db.runs ≡ some r
  pub tenant : r.tenant_id ≡ run.tenant_id
  pub owned : may_commit token clock.now_ms r ≡ true
  pub produced : run.state ≡ some state
  pub current :
      holds_number r.checkpoint_base_revision (thread_revision db run.tenant_id r.thread_id) ≡ true
  pub run_identity : same_identity r run.thread_id run.domain_id run.schema_version ≡ true
  pub state_identity : same_identity r state.thread_id state.domain_id state.schema_version ≡ true
  pub schema :
      schema_matches r.domain_id r.schema_version
        (find_checkpoint (run.tenant_id, r.thread_id) db.thread_states)
      ≡ true

-- What the commit does.
pub record Completed (clock : Clock) (run : RunRecord) (db : Database) (r : RunRecord)
    (state : BaseRuntimeState) (db' : Database) : Type 0 where
  pub row : find_run run.run_id db'.runs ≡ some (complete_with clock run state r)
  pub other_runs : (j : ℕ) → j ≢ run.run_id → find_run j db'.runs ≡ find_run j db.runs
  pub checkpoint : Checkpoint
  pub saved : find_checkpoint (run.tenant_id, r.thread_id) db'.thread_states ≡ some checkpoint
  pub projected : checkpoint.state ≡ project_thread_checkpoint_state state
  pub revision : checkpoint.revision ≡ suc (thread_revision db run.tenant_id r.thread_id)
  pub other_threads :
      (k : ℕ × ℕ)
      → k ≢ (run.tenant_id, r.thread_id)
      → find_checkpoint k db'.thread_states ≡ find_checkpoint k db.thread_states
  pub saved_event : RunEvent
  pub completed_event : RunEvent
  pub events : db'.run_events ≡ completed_event ∷ saved_event ∷ db.run_events
  pub saved_type : saved_event.event_type ≡ "checkpoint.saved"
  pub completed_type : completed_event.event_type ≡ "run.completed"

next_checkpoint-Advance :
    (row : Checkpoint) (observed : ℕ) (o : Option Checkpoint) (states : List Checkpoint)
    → find_checkpoint (checkpoint_key row) states ≡ o
    → row.revision ≡ 1
    → revision_of o ≡ observed
    → (rows : List Checkpoint) × (upsert_rows row observed o states ≡ some rows)
      × Advance states (record row { revision = suc observed }) rows
unfolding upsert_rows
next_checkpoint-Advance row observed none states f one h =
    let same : row ≡ record row { revision = suc observed } = ground arith in
    (row ∷ states, refl, record { found = inl (f, ground arith, ap (λ c. c ∷ states) same) })
next_checkpoint-Advance row observed (some old) states f one h = (
  Table.set checkpoint_key (checkpoint_key row) (record row { revision = suc observed }) states,
  ground arith,
  record { found = inr (old, f, ground arith, refl) },
)

-- The upsert advances the revision of the thread by one.
upsert_checkpoint-Advance :
    (row : Checkpoint) (db : Database) (observed : ℕ)
    → row.revision ≡ 1
    → thread_revision db row.tenant_id row.thread_id ≡ observed
    → (rows : List Checkpoint) × (upsert_checkpoint row observed db.thread_states ≡ some rows)
      × Advance db.thread_states (record row { revision = suc observed }) rows
unfolding upsert_checkpoint thread_revision
upsert_checkpoint-Advance row db observed one h =
    next_checkpoint-Advance row observed (find_checkpoint (checkpoint_key row) db.thread_states)
      db.thread_states refl one (ground arith)

not-same : (i j : ℕ) → i ≢ j → (i == j) ≡ false
not-same i j ne = ground (arith, ne)

module _ (clock : Clock) (run : RunRecord) (token : ℕ) (db : Database) (r : RunRecord)
    (state : BaseRuntimeState) where
  complete_with-Weaker :
      Ready clock run token db r state → Weaker r (complete_with clock run state r)
  unfolding complete_with
  complete_with-Weaker h = record {
    run = refl;
    tenant = refl;
    request = refl;
    thread = λ e. absurd (cc);
  }

  may_complete-Ready :
      Ready clock run token db r state → may_complete run.tenant_id token clock.now_ms r ≡ true
  unfolding may_complete
  may_complete-Ready h = ground arith

  -- The tables before the events are written.
  written : List Checkpoint → Database
  written rows = record db {
    runs = Table.set run_key run.run_id (complete_with clock run state r) db.runs;
    thread_states = rows;
  }

  writes-row :
      Inv db
      → Ready clock run token db r state
      → update_run run.run_id
          (may_complete run.tenant_id token clock.now_ms)
          (complete_with clock run state)
          db
        ≡ ok (
            some (record db {
              runs = Table.set run_key run.run_id (complete_with clock run state r) db.runs;
            }))
  writes-row v h =
      update_run-ok run.run_id (may_complete run.tenant_id token clock.now_ms)
        (complete_with clock run state) db h.found (may_complete-Ready h)
        (breaks_index-Weaker db r (complete_with clock run state r) v
          (Table.find-own run_key run.run_id db.runs h.found) (complete_with-Weaker h))

  abbrev saved_log : Database → RunEvent
  saved_log d =
      next_event run.run_id "checkpoint.saved"
        (saved_payload r state (thread_revision db run.tenant_id r.thread_id)) clock.utc_now d

  abbrev completed_log : Database → RunEvent
  completed_log d =
      next_event run.run_id "run.completed"
        (("validation_errors", texts run.validation_errors) ∷ []) clock.utc_now d

  abbrev with_log : Database → (Database → RunEvent) → Database
  with_log d e = record d { run_events = e d ∷ d.run_events; last_event_id = suc d.last_event_id }

  log_completed-ok :
      (d : Database)
      → is_null (find_run run.run_id d.runs) ≡ false
      → log_completed clock run r state (thread_revision db run.tenant_id r.thread_id) d
        ≡ ok (with_log (with_log d saved_log) completed_log)
  unfolding log_completed ◌>>=◌
  log_completed-ok d h = ground (
    arith,
    append_event-ok run.run_id "checkpoint.saved"
        (saved_payload r state (thread_revision db run.tenant_id r.thread_id)) clock.utc_now d h,
    append_event-ok run.run_id "run.completed"
        (("validation_errors", texts run.validation_errors) ∷ []) clock.utc_now
        (with_log d saved_log) h,
  )

  own_key : Ready clock run token db r state → (complete_with clock run state r).run_id ≡ run.run_id
  unfolding complete_with
  own_key h = Table.find-key run_key run.run_id db.runs h.found

  completed-row :
      Ready clock run token db r state
      → find_run run.run_id (Table.set run_key run.run_id (complete_with clock run state r) db.runs)
        ≡ some (complete_with clock run state r)
  completed-row h =
      Table.find-set_self run_key run.run_id (complete_with clock run state r) db.runs (own_key h)
        h.found

  commits-to :
      (rows : List Checkpoint)
      → Inv db
      → Ready clock run token db r state
      → upsert_checkpoint
          (checkpoint_row clock run r state)
          (thread_revision db run.tenant_id r.thread_id)
          db.thread_states
        ≡ some rows
      → commit_completed_run clock run token db
        ≡ ok (
          with_log (with_log (written rows) saved_log) completed_log,
          (committed, finished_record clock run),
        )
  unfolding commit_completed_run written ◌>>=◌
  commits-to rows v h e =
      ground (arith, h.found, writes-row v h, log_completed-ok (written rows), completed-row h)

  next_row : Checkpoint
  next_row = record (checkpoint_row clock run r state) {
    revision = suc (thread_revision db run.tenant_id r.thread_id);
  }

  other_key :
      (k : ℕ × ℕ)
      → k ≢ (run.tenant_id, r.thread_id)
      → (if same_pair (checkpoint_key next_row) k
          then some next_row
          else find_checkpoint k db.thread_states)
        ≡ find_checkpoint k db.thread_states
  unfolding next_row checkpoint_row
  other_key k ne = elim (Bool-cases (same_pair (run.tenant_id, r.thread_id) k)) [
    | inl y ↦ absurd (ne (sym ((same_pair_iff (run.tenant_id, r.thread_id) k).0 y)))
    | inr n ↦ ground arith
  ]

  -- The tables that `commits-to` writes are those of a completed run.
  written-Completed :
      (rows : List Checkpoint)
      → Ready clock run token db r state
      → Advance db.thread_states next_row rows
      → Completed clock run db r state (with_log (with_log (written rows) saved_log) completed_log)
  unfolding written next_row checkpoint_row
  written-Completed rows h a = record {
    row = completed-row h;
    other_runs = λ j ne.
        Table.find-set_ne run_key run.run_id j (complete_with clock run state r) db.runs (own_key h)
          (not-same run.run_id j (λ e. ne (sym e)));
    checkpoint = next_row;
    saved =
        find-Advance db.thread_states next_row rows (run.tenant_id, r.thread_id) a ∙ ground arith;
    projected = refl;
    revision = refl;
    other_threads = λ k ne. find-Advance db.thread_states next_row rows k a ∙ other_key k ne;
    saved_event = saved_log (written rows);
    completed_event = completed_log (with_log (written rows) saved_log);
    events = refl;
    saved_type = refl;
    completed_type = refl;
  }

  -- In well-formed tables, let an attempt own its run under a current lease, with no cancellation
  -- requested and with the thread still at its base revision; let the run that it brings be of the
  -- row's tenant, thread, domain and schema version, and carry a state of this thread, domain and
  -- schema version; and let the thread's checkpoint, if there is one, be of this domain and schema
  -- version. Then it commits: its row is completed and holds no lease, its thread's checkpoint is the
  -- projected state at the next revision, two events are logged, and no other run or thread changes.
  pub commit_completed_run-ok :
      Inv db
      → Ready clock run token db r state
      → (db' : Database) × (commit_completed_run clock run token db
          ≡ ok (db', (committed, finished_record clock run)))
        × Completed clock run db r state db'
  unfolding checkpoint_row
  commit_completed_run-ok v h =
      let u =
        upsert_checkpoint-Advance (checkpoint_row clock run r state) db
          (thread_revision db run.tenant_id r.thread_id) refl refl in
      (
        with_log (with_log (written u.0) saved_log) completed_log,
        commits-to u.0 v h u.1,
        written-Completed u.0 h (unfold next_row in u.2),
      )
