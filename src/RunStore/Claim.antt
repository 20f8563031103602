-- ===== src/RunStore/Claim.antt =====
-- `claim_next_run`.
pub mod Order
pub mod Total
pub mod Serve
use agent_runtime_platform.Base.{
  ℕ, ◌+◌, ◌*◌, suc, String, Bool, true, false, not, ◌&&◌, ◌||◌, Option, none, some, List, [], ◌∷◌,
  ◌==◌, ltb, is_null, holds_text, above, at_most, coalesce, if◌then◌else◌, any, str_eq,
}
use agent_runtime_platform.Contracts.{Json, Fields, bool, num, str, literal, optional_num}
use agent_runtime_platform.Models.{
  RunRecord, RunLeaseClaim, RunLeaseRecoveryReason, lease_expired, legacy_unleased, running,
  is_queued, is_running,
}
use agent_runtime_platform.RunStore.{
  Database, Clock, Result, ok, err, ◌>>=◌, ◌>>◌, guard, value_error, runtime_error, same_thread,
  update_run, ParseState, row_to_run, thread_revision, find_run, or_error, find_checkpoint,
}
use agent_runtime_platform.RunStore.Events.{append_event}

-- THREAD_CHECKPOINT_RECONCILIATION_BLOCKED_CODE
abbrev pub reconciliation_blocked_code : String
reconciliation_blocked_code = "thread_checkpoint_conflict_reconciliation_pending"

-- The lease of the row is missing or has run out.
unfoldable pub lease_is_over : ℕ → RunRecord → Bool
lease_is_over now r =
    is_null r.lease_token || is_null r.lease_expires_at || at_most r.lease_expires_at now

-- Another run of the thread that is running under a lease which has not run out.
unfoldable pub live_thread_run : ℕ → RunRecord → RunRecord → Bool
live_thread_run now r other =
    same_thread other r
    && not (other.run_id == r.run_id)
    && is_running other.status
    && not (is_null other.lease_token)
    && not (is_null other.lease_expires_at)
    && above other.lease_expires_at now

-- A running run that a new attempt may take over.
unfoldable pub is_recoverable : ℕ → List RunRecord → RunRecord → Bool
unfolding lease_is_over live_thread_run
is_recoverable now rows r =
    is_running r.status
    && not (is_null r.checkpoint_base_revision)
    && not (holds_text r.error_code reconciliation_blocked_code)
    && lease_is_over now r
    && not (any (live_thread_run now r) rows)

unfoldable pub occupies_thread : RunRecord → RunRecord → Bool
occupies_thread r other = same_thread other r && is_running other.status

-- The WHERE clause of the SELECT.
unfoldable pub is_claimable : ℕ → List RunRecord → RunRecord → Bool
unfolding is_recoverable occupies_thread
is_claimable now rows r =
    (is_queued r.status && not r.cancel_requested && not (any (occupies_thread r) rows))
    || is_recoverable now rows r

-- The WHERE clause of the UPDATE.
unfoldable pub may_start : ℕ → List RunRecord → RunRecord → Bool
unfolding is_recoverable occupies_thread
may_start now rows r =
    (is_queued r.status
      && not r.cancel_requested
      && not (any (λ other. occupies_thread r other && not (other.run_id == r.run_id)) rows))
    || is_recoverable now rows r

-- ORDER BY created_at, run_id
unfoldable pub is_before : RunRecord → RunRecord → Bool
is_before r s =
    ltb r.created_at s.created_at || (r.created_at == s.created_at && ltb r.run_id s.run_id)

unfoldable pub earlier : RunRecord → Option RunRecord → Option RunRecord
unfolding is_before
earlier r none = some r
earlier r (some s) = if is_before s r then some s else some r

-- ORDER BY ... LIMIT 1
unfoldable pub first_row : (RunRecord → Bool) → List RunRecord → Option RunRecord
unfolding earlier
first_row p [] = none
first_row p (r ∷ rs) = let rest = first_row p rs in if p r then earlier r rest else rest

unfoldable pub recovery_reason_of : RunRecord → Option RunLeaseRecoveryReason
recovery_reason_of r =
    if is_running r.status
    then (if is_null r.lease_token || is_null r.lease_expires_at
        then some legacy_unleased
        else some lease_expired)
    else none

-- `error_code = ?` with a parameter that may be NULL.
abbrev pub holds_code : Option String → Option String → Bool
holds_code code none = false
holds_code code (some pending) = holds_text code pending

unfoldable pub start_attempt : Clock → ℕ → ℕ → ℕ → Option String → Database → RunRecord → RunRecord
start_attempt clock owner token expires_at pending db r = record r {
  status = running;
  started_at = some clock.utc_now;
  attempt = suc r.attempt;
  error = if holds_code r.error_code pending then r.error else none;
  error_code = if holds_code r.error_code pending then r.error_code else none;
  updated_at = clock.utc_now;
  lease_owner_id = some owner;
  lease_token = some token;
  lease_heartbeat_at = some clock.now_ms;
  lease_expires_at = some expires_at;
  checkpoint_base_revision =
      some (coalesce r.checkpoint_base_revision (thread_revision db r.tenant_id r.thread_id));
}

abbrev reason_text : RunLeaseRecoveryReason → String
reason_text lease_expired = "lease_expired"
reason_text legacy_unleased = "legacy_unleased"

unfoldable pub recovered_reason : Option String → Option String → RunLeaseRecoveryReason → String
recovered_reason none code reason = reason_text reason
recovered_reason (some pending) code reason =
    if holds_text code pending then pending else reason_text reason

unfoldable pub log_recovery :
    Clock → Option String → RunRecord → Option RunLeaseRecoveryReason → Database → Result Database
unfolding recovered_reason
log_recovery clock pending candidate none db = ok db
log_recovery clock pending candidate (some reason) db = do
  logged ←
      append_event candidate.run_id "run.recovered"
        (("reason", str (literal (recovered_reason pending candidate.error_code reason))) ∷ [])
        clock.utc_now db
  ok logged.0

unfoldable pub started_payload : RunRecord → Option RunLeaseRecoveryReason → Fields
started_payload run reason =
    ("attempt", num run.attempt)
    ∷ ("recovered", bool (not (is_null reason)))
    ∷ ("checkpoint_base_revision", optional_num run.checkpoint_base_revision)
    ∷ []

-- What follows the UPDATE, inside the transaction.
unfoldable pub finish_claim :
    ParseState
    → Clock
    → ℕ
    → ℕ
    → Option String
    → RunRecord
    → Option Database
    → Database
    → Result (Database × Option RunLeaseClaim)
unfolding log_recovery started_payload
finish_claim parse clock owner token pending candidate none db = ok (db, none)
finish_claim parse clock owner token pending candidate (some updated) db = do
  row ← or_error (find_run candidate.run_id updated.runs) runtime_error
  run ← row_to_run parse row
  let reason = recovery_reason_of candidate
  recovered ← log_recovery clock pending candidate reason updated
  started ←
      append_event run.run_id "run.started" (started_payload run reason) clock.utc_now recovered
  ok (
    started.0,
    some (record { run = run; owner_id = owner; lease_token = token; recovery_reason = reason }),
  )

-- From the SELECT's row on.
unfoldable pub claim_candidate :
    ParseState
    → Clock
    → ℕ
    → ℕ
    → ℕ
    → Option String
    → Option RunRecord
    → Database
    → Result (Database × Option RunLeaseClaim)
unfolding finish_claim
claim_candidate parse clock owner token seconds pending none db = ok (db, none)
claim_candidate parse clock owner token seconds pending (some candidate) db = do
  updated ←
      update_run candidate.run_id (may_start clock.now_ms db.runs)
        (start_attempt clock owner token (clock.now_ms + seconds * 1000) pending db) db
  finish_claim parse clock owner token pending candidate updated db

-- `token` is the new lease token; an owner is empty if its number is 0.
unfoldable pub claim_next_run :
    ParseState
    → Clock
    → ℕ
    → ℕ
    → ℕ
    → Option String
    → Database
    → Result (Database × Option RunLeaseClaim)
unfolding claim_candidate first_row
claim_next_run parse clock owner token seconds pending db = do
  guard (not (owner == 0)) value_error
  guard (ltb 0 seconds) value_error
  claim_candidate parse clock owner token seconds pending
      (first_row (is_claimable clock.now_ms db.runs) db.runs) db
