-- ===== src/RunStore/Moves/Rows.antt =====
-- Each statement's change of one row is a move of that row.
use agent_runtime_platform.Base.{
  ℕ, String, true, ◌||◌, Option, some, List, ◌≡◌, refl, inl, inr, arith,
}
use agent_runtime_platform.Contracts.{Text, BaseRuntimeState}
use agent_runtime_platform.Models.{
  RunStatus, queued, running, completed, failed, cancelled, is_queued, is_running, RunRecord,
}
use agent_runtime_platform.RunStore.{Database, Clock}
use agent_runtime_platform.RunStore.Claim.{start_attempt, may_start}
use agent_runtime_platform.RunStore.Lease.{runs_under}
use agent_runtime_platform.RunStore.Cancel.{
  awaits_cancellation, cancel_before_start, may_cancel, flag_cancelled,
}
use agent_runtime_platform.RunStore.Settle.{fail_with, cancel_with, mark_pending}
use agent_runtime_platform.RunStore.Conflict.{quarantine_with}
use agent_runtime_platform.RunStore.Complete.{complete_with}
use agent_runtime_platform.RunStore.Moves.{
  StatusStep, waits, starts, goes_on, completes, fails, cancels, cancels_waiting, RowMove,
}

pub stays_open : (s : RunStatus) → (is_queued s || is_running s) ≡ true → StatusStep s s
stays_open queued h = waits
stays_open running h = goes_on
stays_open _ h = absurd (cc)

begins : (s : RunStatus) → (is_queued s || is_running s) ≡ true → StatusStep s running
begins queued h = starts
begins running h = goes_on
begins _ h = absurd (cc)

is_cancelled_from : (s : RunStatus) → (is_queued s || is_running s) ≡ true → StatusStep s cancelled
is_cancelled_from queued h = cancels_waiting
is_cancelled_from running h = cancels
is_cancelled_from _ h = absurd (cc)

completes_from : (s : RunStatus) → is_running s ≡ true → StatusStep s completed
completes_from running h = completes
completes_from _ h = absurd (cc)

pub fails_from : (s : RunStatus) → is_running s ≡ true → StatusStep s failed
fails_from running h = fails
fails_from _ h = absurd (cc)

module _ (db : Database) (r : RunRecord) where
  -- A new deadline of the lease.
  pub deadline-RowMove :
      (token expires heartbeat at : ℕ)
      → runs_under token r ≡ true
      → RowMove db r (record r {
        lease_heartbeat_at = some heartbeat;
        lease_expires_at = some expires;
        updated_at = at;
      })
  unfolding runs_under
  deadline-RowMove token expires heartbeat at h = record {
    same_run = refl;
    same_tenant = refl;
    status = stays_open r.status (ground arith);
    keeps = λ k. ground arith;
    same_thread = λ _. refl;
    base = λ _. inl refl;
  }

  pub start_attempt-RowMove :
      (clock : Clock) (owner token expires : ℕ) (pending : Option String) (now : ℕ)
      (rows : List RunRecord)
      → may_start now rows r ≡ true
      → RowMove db r (start_attempt clock owner token expires pending db r)
  unfolding may_start start_attempt
  start_attempt-RowMove clock owner token expires pending now rows h = record {
    same_run = refl;
    same_tenant = refl;
    status = begins r.status (ground arith);
    keeps = λ k. ground arith;
    same_thread = λ _. refl;
    base = λ _. inr (inl refl);
  }

  pub cancel_before_start-RowMove :
      (clock : Clock) → awaits_cancellation r ≡ true → RowMove db r (cancel_before_start clock r)
  unfolding awaits_cancellation cancel_before_start
  cancel_before_start-RowMove clock h = record {
    same_run = refl;
    same_tenant = refl;
    status = is_cancelled_from r.status (ground arith);
    keeps = λ k. ground arith;
    same_thread = λ t. ground arith;
    base = λ t. ground arith;
  }

  pub flag_cancelled-RowMove :
      (clock : Clock) (tenant : ℕ)
      → may_cancel tenant r ≡ true
      → RowMove db r (flag_cancelled clock r)
  unfolding may_cancel flag_cancelled
  flag_cancelled-RowMove clock tenant h = record {
    same_run = refl;
    same_tenant = refl;
    status = stays_open r.status (ground arith);
    keeps = λ k. ground arith;
    same_thread = λ _. refl;
    base = λ _. inl refl;
  }

  pub fail_with-RowMove :
      (clock : Clock) (code : String) (error : Text)
      → is_running r.status ≡ true
      → RowMove db r (fail_with clock code error r)
  unfolding fail_with
  fail_with-RowMove clock code error h = record {
    same_run = refl;
    same_tenant = refl;
    status = fails_from r.status h;
    keeps = λ k. ground arith;
    same_thread = λ t. ground arith;
    base = λ t. ground arith;
  }

  pub complete_with-RowMove :
      (clock : Clock) (run : RunRecord) (state : BaseRuntimeState)
      → is_running r.status ≡ true
      → RowMove db r (complete_with clock run state r)
  unfolding complete_with
  complete_with-RowMove clock run state h = record {
    same_run = refl;
    same_tenant = refl;
    status = completes_from r.status h;
    keeps = λ k. ground arith;
    same_thread = λ t. ground arith;
    base = λ t. ground arith;
  }

  pub cancel_with-RowMove :
      (clock : Clock) (run : RunRecord)
      → (is_queued r.status || is_running r.status) ≡ true
      → RowMove db r (cancel_with clock run r)
  unfolding cancel_with
  cancel_with-RowMove clock run h = record {
    same_run = refl;
    same_tenant = refl;
    status = is_cancelled_from r.status h;
    keeps = λ k. ground arith;
    same_thread = λ t. ground arith;
    base = λ t. ground arith;
  }

  pub mark_pending-RowMove :
      (clock : Clock) (code : String) (error : Text)
      → is_running r.status ≡ true
      → RowMove db r (mark_pending clock code error r)
  unfolding mark_pending
  mark_pending-RowMove clock code error h = record {
    same_run = refl;
    same_tenant = refl;
    status = stays_open r.status (ground arith);
    keeps = λ k. ground arith;
    same_thread = λ _. refl;
    base = λ _. inl refl;
  }

  pub quarantine_with-RowMove :
      (clock : Clock) (expected : Option ℕ) (observed : ℕ)
      → is_running r.status ≡ true
      → RowMove db r (quarantine_with clock expected observed r)
  unfolding quarantine_with
  quarantine_with-RowMove clock expected observed h = record {
    same_run = refl;
    same_tenant = refl;
    status = stays_open r.status (ground arith);
    keeps = λ k. ground arith;
    same_thread = λ _. refl;
    base = λ _. inl refl;
  }
