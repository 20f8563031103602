-- ===== src/RunStore/Outcome.antt =====
-- `_classify_commit_outcome`, and the test of the lease that the commits make on the row they read.
use agent_runtime_platform.Base.{
  ℕ, Bool, ◌&&◌, Option, none, some, holds_number, above, if◌then◌else◌,
}
use agent_runtime_platform.Models.{
  RunRecord, is_terminal, RunCommitOutcome, cancel_requested, lease_lost, already_terminal,
  not_eligible,
}
use agent_runtime_platform.RunStore.{Database, Result, ok, err, run_not_found, find_run}
use agent_runtime_platform.RunStore.Cancel.{of_tenant}

-- `current_lease`
unfoldable pub has_current_lease : ℕ → ℕ → RunRecord → Bool
has_current_lease token now r = holds_number r.lease_token token && above r.lease_expires_at now

unfoldable pub outcome_of : ℕ → ℕ → RunRecord → RunCommitOutcome
unfolding has_current_lease
outcome_of token now r =
    if is_terminal r.status
    then already_terminal
    else if has_current_lease token now r
    then (if r.cancel_requested then cancel_requested else not_eligible)
    else lease_lost

outcome_of_row : ℕ → ℕ → Option RunRecord → Result RunCommitOutcome
unfolding outcome_of
outcome_of_row token now none = err run_not_found
outcome_of_row token now (some r) = ok (outcome_of token now r)

unfoldable pub classify_commit_outcome : ℕ → ℕ → ℕ → ℕ → Database → Result RunCommitOutcome
unfolding outcome_of_row
classify_commit_outcome run_id tenant token now db =
    outcome_of_row token now (of_tenant tenant (find_run run_id db.runs))
