-- ===== src/RunStore/Moves/Steps.antt =====
-- Refinement: every call of the store is a sequence of moves of the abstract machine.
use agent_runtime_platform.Base.{List, [], ◌∷◌}
use agent_runtime_platform.RunStore.{Database, Clock}
use agent_runtime_platform.RunStore.Step.{
  Call, creates, creates_with_event, claims, renews, expires, logs, logs_control,
  finalizes_cancellation, requests_cancel, completes, fails, cancels, marks_pending, conflicts,
  quarantines, step, run_calls,
}
use agent_runtime_platform.RunStore.Moves.{Moves, here}
use agent_runtime_platform.RunStore.Moves.Rules.{after-Moves, Moves-trans}
use agent_runtime_platform.RunStore.Moves.Leases.{
  renew_run_lease-Reaches, expire_run_lease-Reaches, append_attempt_event-Reaches,
  append_control_plane_event-Reaches,
}
use agent_runtime_platform.RunStore.Moves.Creation.{
  create_run-Reaches, create_run_with_event-Reaches,
}
use agent_runtime_platform.RunStore.Moves.Claims.{claim_next_run-Reaches}
use agent_runtime_platform.RunStore.Moves.Cancels.{finalize-Reaches, request_cancel-Reaches}
use agent_runtime_platform.RunStore.Moves.Commits.{
  commit_failed_run-Reaches, commit_cancelled_run-Reaches, commit_checkpoint_conflict-Reaches,
  quarantine_checkpoint_conflict-Reaches, commit_reconciliation_pending-Reaches,
}
use agent_runtime_platform.RunStore.Moves.Completion.{commit_completed_run-Reaches}

-- Whatever call is made at whatever time, the tables that it leaves are reached from those that it
-- found by moves: insertions of new queued runs, changes of one row along the states of a run,
-- next events, and revisions that advance by one.
pub step-Moves : (db : Database) (c : Clock × Call) → Moves db (step db c)
unfolding step
step-Moves db (c, creates run) = after-Moves db _ (create_run-Reaches run db)
step-Moves db (c, creates_with_event run type payload) =
    after-Moves db _ (create_run_with_event-Reaches c run type payload db)
step-Moves db (c, claims parse owner token seconds pending) =
    after-Moves db _ (claim_next_run-Reaches parse c owner token seconds pending db)
step-Moves db (c, renews id token seconds) =
    after-Moves db _ (renew_run_lease-Reaches c id db token seconds)
step-Moves db (c, expires id token) = after-Moves db _ (expire_run_lease-Reaches c id db token)
step-Moves db (c, logs id token type payload) =
    after-Moves db _ (append_attempt_event-Reaches c id db token type payload)
step-Moves db (c, logs_control id tenant type payload) =
    after-Moves db _ (append_control_plane_event-Reaches c id db tenant type payload)
step-Moves db (c, finalizes_cancellation parse) = after-Moves db _ (finalize-Reaches parse c db)
step-Moves db (c, requests_cancel parse id tenant) =
    after-Moves db _ (request_cancel-Reaches parse c id tenant db)
step-Moves db (c, completes run token) =
    after-Moves db _ (commit_completed_run-Reaches c run token db)
step-Moves db (c, fails run token code error traceback allow) =
    after-Moves db _ (commit_failed_run-Reaches c run token code error traceback allow db)
step-Moves db (c, cancels run token reason) =
    after-Moves db _ (commit_cancelled_run-Reaches c run token reason db)
step-Moves db (c, marks_pending id tenant token code error) =
    after-Moves db _ (commit_reconciliation_pending-Reaches c id tenant token code error db)
step-Moves db (c, conflicts run token phase) =
    after-Moves db _ (commit_checkpoint_conflict-Reaches c run token phase db)
step-Moves db (c, quarantines run token phase) =
    after-Moves db _ (quarantine_checkpoint_conflict-Reaches c run token phase db)

pub run_calls-Moves : (db : Database) (cs : List (Clock × Call)) → Moves db (run_calls db cs)
unfolding run_calls
run_calls-Moves db [] = here
run_calls-Moves db (c ∷ cs) = Moves-trans (step-Moves db c) (run_calls-Moves (step db c) cs)
