-- ===== src/RunStore/Invariant.antt =====
-- What holds of the tables whatever calls are made.
pub mod Revisions
pub mod Keep
pub mod Serial
use agent_runtime_platform.Base.{
  ℕ, suc, ◌≤◌, Bool, true, false, not, ◌&&◌, ◌||◌, Option, none, some, List, [], ◌∷◌, ◌≡◌, ◌≢◌,
  coalesce,
}
use agent_runtime_platform.Base.Table
use agent_runtime_platform.Base.Table.{number_key, pair_key}
use agent_runtime_platform.Models.{RunRecord, RunEvent, is_terminal, is_running}
use agent_runtime_platform.RunStore.{
  Database, Checkpoint, run_key, checkpoint_key, find_run, find_checkpoint, clash, thread_revision,
}
use agent_runtime_platform.RunStore.Events.{max_sequence}
use agent_runtime_platform.RunStore.Moves.{RowOk}

-- The events of each run are numbered without a gap, in the order in which they were logged.
abbrev pub Numbered : List RunEvent → Type 0
Numbered [] = Unit
Numbered (e ∷ es) = (e.sequence ≡ suc (max_sequence e.run_id es)) × Numbered es

pub record Inv (db : Database) : Type 0 where
  pub distinct : Table.Distinct run_key db.runs
  pub rows : (i : ℕ) (r : RunRecord) → find_run i db.runs ≡ some r → RowOk r
  pub apart :
      (i j : ℕ) (r s : RunRecord)
      → find_run i db.runs ≡ some r
      → find_run j db.runs ≡ some s
      → i ≢ j
      → clash r s ≡ false
  pub bases :
      (i : ℕ) (r : RunRecord)
      → find_run i db.runs ≡ some r
      → is_terminal r.status ≡ false
      → coalesce r.checkpoint_base_revision 0 ≤ thread_revision db r.tenant_id r.thread_id
  pub threads : Table.Distinct checkpoint_key db.thread_states
  pub revisions :
      (k : ℕ × ℕ) (c : Checkpoint) → find_checkpoint k db.thread_states ≡ some c → 1 ≤ c.revision
  pub numbered : Numbered db.run_events
