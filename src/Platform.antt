-- ===== src/Platform.antt =====
-- The tables of the run store and of the workflow store, which stand in one file of SQLite.
pub mod Calls
pub mod Resolves
pub mod Keep
use agent_runtime_platform.RunStore.{Database}
use agent_runtime_platform.Workflow.{Ledger}

pub record Platform : Type 0 where
  pub database : Database
  pub ledger : Ledger
