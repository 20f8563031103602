-- ===== src/RunStore/Threads.antt =====
-- `load_thread_state_snapshot`, `get_run_internal`, `get_run_for_tenant` and
-- `get_run_by_client_request_id`.
use agent_runtime_platform.Base.{
  ℕ, String, Bool, true, not, ◌||◌, Option, none, some, holds_number, str_eq,
}
use agent_runtime_platform.Contracts.{BaseRuntimeState}
use agent_runtime_platform.Models.{RunRecord}
use agent_runtime_platform.RunStore.{
  Database, Checkpoint, Result, ok, ◌>>=◌, ◌>>◌, guard, value_error, state_invalid,
  revision_conflict, find_run, or_error, find_checkpoint, thread_revision, ParseState, row_to_run,
}
use agent_runtime_platform.RunStore.Cancel.{of_tenant}

pub record ThreadStateSnapshot : Type 0 where
  pub state : Option BaseRuntimeState
  pub revision : ℕ

-- No value was asked for, or the row has it.
abbrev agrees : Option String → String → Bool
agrees none s = true
agrees (some wanted) s = str_eq s wanted

snapshot_of :
    ParseState → Option String → Option String → Option Checkpoint → Result ThreadStateSnapshot
snapshot_of parse domain schema none = ok (record { state = none; revision = 0 })
snapshot_of parse domain schema (some c) = do
  guard (agrees domain c.domain_id) value_error
  guard (agrees schema c.schema_version) value_error
  state ← or_error (parse c.domain_id c.schema_version c.state) state_invalid
  ok (record { state = some state; revision = c.revision })

unfoldable pub load_thread_state_snapshot :
    ParseState
    → ℕ
    → ℕ
    → Option String
    → Option String
    → Option ℕ
    → Bool
    → Database
    → Result ThreadStateSnapshot
unfolding snapshot_of thread_revision
load_thread_state_snapshot parse tenant thread domain schema expected required db = do
  let observed = thread_revision db tenant thread
  guard (not required || holds_number expected observed) (revision_conflict expected observed)
  snapshot_of parse domain schema (find_checkpoint (tenant, thread) db.thread_states)

decoded : ParseState → Option RunRecord → Result (Option RunRecord)
decoded parse none = ok none
decoded parse (some row) = do run ← row_to_run parse row; ok (some run)

unfoldable pub get_run_internal : ParseState → ℕ → Database → Result (Option RunRecord)
unfolding decoded
get_run_internal parse run_id db = decoded parse (find_run run_id db.runs)

unfoldable pub get_run_for_tenant : ParseState → ℕ → ℕ → Database → Result (Option RunRecord)
unfolding decoded
get_run_for_tenant parse run_id tenant db =
    decoded parse (of_tenant tenant (find_run run_id db.runs))
