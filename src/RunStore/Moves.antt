-- ===== src/RunStore/Moves.antt =====
-- The abstract machine that the store refines: a transaction is a sequence of atomic moves, and a
-- move inserts a new queued run, changes one row along the states of a run, appends the next event
-- of a run, or advances the revision of one thread by one.
pub mod Rules
pub mod Rows
pub mod Leases
pub mod Creation
pub mod Claims
pub mod Cancels
pub mod Commits
pub mod Completion
pub mod Steps
use agent_runtime_platform.Base.{
  ℕ, suc, ◌+◌, ◌≤◌, Bool, true, false, not, Option, none, some, List, [], ◌∷◌, ◌≡◌, ◌⊎◌, ◌≢◌,
  is_null, coalesce,
}
use agent_runtime_platform.Base.Table
use agent_runtime_platform.Base.Table.{number_key, pair_key}
use agent_runtime_platform.Models.{
  RunStatus, queued, running, completed, failed, cancelled, is_terminal, is_running, RunRecord,
  RunEvent,
}
use agent_runtime_platform.RunStore.{
  Database, Checkpoint, Result, ok, err, run_key, checkpoint_key, find_run, find_checkpoint,
  breaks_index, thread_revision,
}
use agent_runtime_platform.RunStore.Create.{is_new_queued_run}
use agent_runtime_platform.RunStore.Events.{max_sequence}

-- The states of a run. A terminal state has no successor.
pub data StatusStep : RunStatus → RunStatus → Type 0 where
  waits : StatusStep queued queued
  starts : StatusStep queued running
  cancels_waiting : StatusStep queued cancelled
  goes_on : StatusStep running running
  completes : StatusStep running completed
  fails : StatusStep running failed
  cancels : StatusStep running cancelled

-- What holds of every row.
pub record RowOk (r : RunRecord) : Type 0 where
  pub lease_pair : is_null r.lease_token ≡ is_null r.lease_expires_at
  pub owner_pair : is_null r.lease_token ≡ is_null r.lease_owner_id
  pub unleased : is_running r.status ≡ false → is_null r.lease_token ≡ true
  pub based : is_running r.status ≡ true → is_null r.checkpoint_base_revision ≡ false
  pub attempted : is_running r.status ≡ true → 1 ≤ r.attempt
  pub open_end : is_null r.completed_at ≡ not (is_terminal r.status)

-- The base revision is kept, is that of the thread as it is now, or is that of an empty thread.
abbrev pub BaseStep : Database → RunRecord → RunRecord → Type 0
BaseStep db r v =
    (v.checkpoint_base_revision ≡ r.checkpoint_base_revision)
    ⊎ (v.checkpoint_base_revision
        ≡ some (coalesce r.checkpoint_base_revision (thread_revision db r.tenant_id r.thread_id)))
    ⊎ (v.checkpoint_base_revision ≡ some 0)

-- One row changed.
pub record RowMove (db : Database) (r v : RunRecord) : Type 0 where
  pub same_run : v.run_id ≡ r.run_id
  pub same_tenant : v.tenant_id ≡ r.tenant_id
  pub status : StatusStep r.status v.status
  pub keeps : RowOk r → RowOk v
  pub same_thread : is_terminal v.status ≡ false → v.thread_id ≡ r.thread_id
  pub base : is_terminal v.status ≡ false → BaseStep db r v

-- The next revision of a thread.
pub record Advance (rows : List Checkpoint) (c : Checkpoint) (rows' : List Checkpoint)
    : Type 0 where
  pub found :
      ((find_checkpoint (checkpoint_key c) rows ≡ none) × (c.revision ≡ 1) × (rows' ≡ c ∷ rows))
      ⊎ ((old : Checkpoint) × (find_checkpoint (checkpoint_key c) rows ≡ some old)
          × (c.revision ≡ suc old.revision)
          × (rows' ≡ Table.set checkpoint_key (checkpoint_key c) c rows))

pub data Move (db db' : Database) : Type 0 where
  inserts :
      (run : RunRecord)
      → is_new_queued_run run ≡ true
      → find_run run.run_id db.runs ≡ none
      → breaks_index db.runs run ≡ false
      → db' ≡ record db { runs = run ∷ db.runs }
      → Move db db'
  writes :
      (r v : RunRecord)
      → find_run r.run_id db.runs ≡ some r
      → breaks_index db.runs v ≡ false
      → RowMove db r v
      → db' ≡ record db { runs = Table.set run_key r.run_id v db.runs }
      → Move db db'
  logs :
      (e : RunEvent)
      → is_null (find_run e.run_id db.runs) ≡ false
      → e.sequence ≡ suc (max_sequence e.run_id db.run_events)
      → db' ≡ record db { run_events = e ∷ db.run_events; last_event_id = e.event_id }
      → Move db db'
  saves :
      (c : Checkpoint) (rows : List Checkpoint)
      → Advance db.thread_states c rows
      → db' ≡ record db { thread_states = rows }
      → Move db db'

pub data Moves (db : Database) : Database → Type 0 where
  here : Moves db db
  next : {d d' : Database} → Moves db d → Move d d' → Moves db d'

-- Every value that the call can return satisfies P. A call that raises returns none.
pub record Ensures {ℓ κ} {A : Type ℓ} (P : A → Type κ) (m : Result A) : Type (ℓ ⊔ κ) where
  pub at : (a : A) → m ≡ ok a → P a

-- The tables that a call commits are reached by moves from those that it found.
abbrev pub Reaches {ℓ} : {A : Type ℓ} → Database → Result (Database × A) → Type ℓ
Reaches db r = Ensures (λ p. Moves db p.0) r
