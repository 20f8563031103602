-- ===== src/RunStore/Fencing.antt =====
-- Fencing: what an attempt does under a lease that is no longer current changes nothing.
use agent_runtime_platform.Base.{
  ℕ, String, Bool, true, false, not, Option, none, some, ◌≡◌, sym, subst, arith, some-inj,
}
use agent_runtime_platform.Contracts.{Fields, Text}
use agent_runtime_platform.Models.{RunRecord}
use agent_runtime_platform.RunStore.{Database, Clock, ◌>>=◌, find_run, update_run, after}
use agent_runtime_platform.RunStore.Lease.{
  renew_run_lease, expire_run_lease, append_attempt_event, assert_current_run_lease, holds_lease,
  runs_under,
}
use agent_runtime_platform.RunStore.Outcome.{has_current_lease, classify_commit_outcome}
use agent_runtime_platform.RunStore.Settle.{
  commit_failed_run, commit_cancelled_run, commit_reconciliation_pending,
}
use agent_runtime_platform.RunStore.Conflict.{
  commit_checkpoint_conflict, quarantine_checkpoint_conflict,
}
use agent_runtime_platform.RunStore.Complete.{commit_completed_run}
use agent_runtime_platform.RunStore.Step.{
  Call, renews, expires, logs, completes, fails, cancels, marks_pending, conflicts, quarantines,
  step,
}

-- The run and the lease token on which an attempt makes the call.
abbrev pub attempt_of : Call → Option (ℕ × ℕ)
attempt_of (renews id token seconds) = some (id, token)
attempt_of (expires id token) = some (id, token)
attempt_of (logs id (some token) type payload) = some (id, token)
attempt_of (completes run token) = some (run.run_id, token)
attempt_of (fails run token code error traceback allow) = some (run.run_id, token)
attempt_of (cancels run token reason) = some (run.run_id, token)
attempt_of (marks_pending id tenant token code error) = some (id, token)
attempt_of (conflicts run token phase) = some (run.run_id, token)
attempt_of (quarantines run token phase) = some (run.run_id, token)
attempt_of _ = none

-- The token is stale for the call: it is not that of a lease of the run that is current. Giving a
-- lease back does not ask for the deadline, so there it is not that of a lease of the run.
abbrev pub is_stale : Call → ℕ → ℕ → RunRecord → Bool
is_stale (expires id t) token now r = not (runs_under token r)
is_stale _ token now r = not (has_current_lease token now r)

stale_expire :
    (clock : Clock) (db : Database) (id token : ℕ) (r : RunRecord)
    → find_run id db.runs ≡ some r
    → runs_under token r ≡ false
    → after db (expire_run_lease clock id token db) ≡ db
unfolding expire_run_lease update_run ◌>>=◌
stale_expire clock db id token r found stale = ground arith

module _ (clock : Clock) (db : Database) (id token : ℕ) (r : RunRecord)
    (found : find_run id db.runs ≡ some r)
    (stale : has_current_lease token clock.now_ms r ≡ false) where
  stale_renew : (seconds : ℕ) → after db (renew_run_lease clock id token seconds db) ≡ db
  unfolding renew_run_lease update_run holds_lease has_current_lease ◌>>=◌
  stale_renew seconds = ground arith

  stale_log :
      (type : String) (payload : Fields)
      → after db (append_attempt_event clock id (some token) type payload db) ≡ db
  unfolding append_attempt_event assert_current_run_lease holds_lease has_current_lease ◌>>=◌
  stale_log type payload = ground arith

  stale_pending :
      (tenant : ℕ) (code : String) (error : Text)
      → after db (commit_reconciliation_pending clock id tenant token code error db) ≡ db
  unfolding commit_reconciliation_pending update_run has_current_lease classify_commit_outcome ◌>>=◌
  stale_pending tenant code error = ground arith

module _ (clock : Clock) (db : Database) (run : RunRecord) (token : ℕ) (r : RunRecord)
    (found : find_run run.run_id db.runs ≡ some r)
    (stale : has_current_lease token clock.now_ms r ≡ false) where
  stale_complete : after db (commit_completed_run clock run token db) ≡ db
  unfolding commit_completed_run has_current_lease classify_commit_outcome ◌>>=◌
  stale_complete = ground arith

  stale_fail :
      (code : String) (error : Text) (trace : Option String) (allow : Bool)
      → after db (commit_failed_run clock run token code error trace allow db) ≡ db
  unfolding commit_failed_run update_run has_current_lease classify_commit_outcome ◌>>=◌
  stale_fail code error trace allow = ground arith

  stale_cancel : (reason : Text) → after db (commit_cancelled_run clock run token reason db) ≡ db
  unfolding commit_cancelled_run update_run has_current_lease classify_commit_outcome ◌>>=◌
  stale_cancel reason = ground arith

  stale_conflict :
      (phase : String) → after db (commit_checkpoint_conflict clock run token phase db) ≡ db
  unfolding commit_checkpoint_conflict has_current_lease classify_commit_outcome ◌>>=◌
  stale_conflict phase = ground arith

  stale_quarantine :
      (phase : String) → after db (quarantine_checkpoint_conflict clock run token phase db) ≡ db
  unfolding quarantine_checkpoint_conflict has_current_lease classify_commit_outcome ◌>>=◌
  stale_quarantine phase = ground arith

-- The hypotheses at the run and token that the call names.
at_attempt :
    (db : Database) (i t id token : ℕ) (r : RunRecord) (current : ℕ → RunRecord → Bool)
    → ◌≡◌ {A = Option (ℕ × ℕ)} (some (i, t)) (some (id, token))
    → find_run id db.runs ≡ some r
    → not (current token r) ≡ true
    → (find_run i db.runs ≡ some r) × (current t r ≡ false)
at_attempt db i t id token r current a f s =
    let e : ◌≡◌ {A = ℕ × ℕ} (i, t) (id, token) = some-inj a in
    (
      subst (λ (k : ℕ × ℕ). find_run k.0 db.runs ≡ some r) (sym e) f,
      subst (λ (k : ℕ × ℕ). current k.1 r ≡ false) (sym e) (ground arith),
    )

-- A call that an attempt makes on a token which is not that of a lease of the run that is current at
-- the time of the call changes nothing: neither a run, nor an event, nor a checkpoint. For the call
-- that gives the lease back, which may come after the deadline, it is any token but that of the
-- lease under which the run is running.
pub step_stale :
    (db : Database) (clock : Clock) (call : Call) (id token : ℕ) (r : RunRecord)
    → attempt_of call ≡ some (id, token)
    → find_run id db.runs ≡ some r
    → is_stale call token clock.now_ms r ≡ true
    → step db (clock, call) ≡ db
unfolding step
step_stale db clock (renews i t seconds) id token r a f s =
    let w = at_attempt db i t id token r (λ t r. has_current_lease t clock.now_ms r) a f s in
    stale_renew clock db i t r w.0 w.1 seconds
step_stale db clock (expires i t) id token r a f s =
    let w = at_attempt db i t id token r runs_under a f s in stale_expire clock db i t r w.0 w.1
step_stale db clock (logs i (some t) type payload) id token r a f s =
    let w = at_attempt db i t id token r (λ t r. has_current_lease t clock.now_ms r) a f s in
    stale_log clock db i t r w.0 w.1 type payload
step_stale db clock (logs i none type payload) id token r a f s = absurd (cc)
step_stale db clock (completes run t) id token r a f s =
    let w =
      at_attempt db run.run_id t id token r (λ t r. has_current_lease t clock.now_ms r) a f s in
    stale_complete clock db run t r w.0 w.1
step_stale db clock (fails run t code error trace allow) id token r a f s =
    let w =
      at_attempt db run.run_id t id token r (λ t r. has_current_lease t clock.now_ms r) a f s in
    stale_fail clock db run t r w.0 w.1 code error trace allow
step_stale db clock (cancels run t reason) id token r a f s =
    let w =
      at_attempt db run.run_id t id token r (λ t r. has_current_lease t clock.now_ms r) a f s in
    stale_cancel clock db run t r w.0 w.1 reason
step_stale db clock (marks_pending i tenant t code error) id token r a f s =
    let w = at_attempt db i t id token r (λ t r. has_current_lease t clock.now_ms r) a f s in
    stale_pending clock db i t r w.0 w.1 tenant code error
step_stale db clock (conflicts run t phase) id token r a f s =
    let w =
      at_attempt db run.run_id t id token r (λ t r. has_current_lease t clock.now_ms r) a f s in
    stale_conflict clock db run t r w.0 w.1 phase
step_stale db clock (quarantines run t phase) id token r a f s =
    let w =
      at_attempt db run.run_id t id token r (λ t r. has_current_lease t clock.now_ms r) a f s in
    stale_quarantine clock db run t r w.0 w.1 phase
step_stale db clock _ id token r a f s = absurd (cc)
