-- ===== src/RunStore/Step.antt =====
-- The calls of the store as one step function: what a sequence of transactions, of any number of
-- managers and clients, does to the tables. A call that raises leaves them as they were.
use agent_runtime_platform.Base.{ℕ, String, Bool, Option, List, [], ◌∷◌}
use agent_runtime_platform.Contracts.{Fields, Text}
use agent_runtime_platform.Models.{RunRecord}
use agent_runtime_platform.RunStore.{Database, Clock, ParseState, after}
use agent_runtime_platform.RunStore.Create.{create_run, create_run_with_event}
use agent_runtime_platform.RunStore.Claim.{claim_next_run}
use agent_runtime_platform.RunStore.Lease.{
  renew_run_lease, expire_run_lease, append_attempt_event, append_control_plane_event,
}
use agent_runtime_platform.RunStore.Cancel.{
  finalize_next_queued_cancellation, request_cancel_atomically,
}
use agent_runtime_platform.RunStore.Settle.{
  commit_failed_run, commit_cancelled_run, commit_reconciliation_pending,
}
use agent_runtime_platform.RunStore.Conflict.{
  commit_checkpoint_conflict, quarantine_checkpoint_conflict,
}
use agent_runtime_platform.RunStore.Complete.{commit_completed_run}

pub data Call : Type 0 where
  creates : RunRecord → Call
  creates_with_event : RunRecord → String → Fields → Call
  claims : ParseState → ℕ → ℕ → ℕ → Option String → Call
  renews : ℕ → ℕ → ℕ → Call
  expires : ℕ → ℕ → Call
  logs : ℕ → Option ℕ → String → Fields → Call
  logs_control : ℕ → ℕ → String → Fields → Call
  finalizes_cancellation : ParseState → Call
  requests_cancel : ParseState → ℕ → ℕ → Call
  completes : RunRecord → ℕ → Call
  fails : RunRecord → ℕ → String → Text → Option String → Bool → Call
  cancels : RunRecord → ℕ → Text → Call
  marks_pending : ℕ → ℕ → ℕ → String → Text → Call
  conflicts : RunRecord → ℕ → String → Call
  quarantines : RunRecord → ℕ → String → Call

unfoldable pub step : Database → Clock × Call → Database
step db (c, creates run) = after db (create_run run db)
step db (c, creates_with_event run type payload) =
    after db (create_run_with_event c run type payload db)
step db (c, claims parse owner token seconds pending) =
    after db (claim_next_run parse c owner token seconds pending db)
step db (c, renews id token seconds) = after db (renew_run_lease c id token seconds db)
step db (c, expires id token) = after db (expire_run_lease c id token db)
step db (c, logs id token type payload) = after db (append_attempt_event c id token type payload db)
step db (c, logs_control id tenant type payload) =
    after db (append_control_plane_event c id tenant type payload db)
step db (c, finalizes_cancellation parse) = after db (finalize_next_queued_cancellation parse c db)
step db (c, requests_cancel parse id tenant) =
    after db (request_cancel_atomically parse c id tenant db)
step db (c, completes run token) = after db (commit_completed_run c run token db)
step db (c, fails run token code error traceback allow) =
    after db (commit_failed_run c run token code error traceback allow db)
step db (c, cancels run token reason) = after db (commit_cancelled_run c run token reason db)
step db (c, marks_pending id tenant token code error) =
    after db (commit_reconciliation_pending c id tenant token code error db)
step db (c, conflicts run token phase) = after db (commit_checkpoint_conflict c run token phase db)
step db (c, quarantines run token phase) =
    after db (quarantine_checkpoint_conflict c run token phase db)

unfoldable pub run_calls : Database → List (Clock × Call) → Database
run_calls db [] = db
run_calls db (c ∷ cs) = run_calls (step db c) cs
