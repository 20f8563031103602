-- ===== src/Quarantine/Verify.antt =====
-- runtime_service/store.py: `verify_quarantine_resolution`.
use agent_runtime_platform.Base.{ℕ, Bool, true, false, ◌&&◌, ◌==◌, holds_text, length}
use agent_runtime_platform.Models.{RunRecord, RunStatus, failed}
use agent_runtime_platform.RunStore.{Result, ◌>>=◌, guard, or_error, evidence_incomplete, find_run}
use agent_runtime_platform.RunStore.Cancel.{of_tenant}
use agent_runtime_platform.RunStore.Conflict.{checkpoint_conflict_code}
use agent_runtime_platform.Platform.{Platform}
use agent_runtime_platform.Quarantine.{identifier, QuarantineResolutionCommit}
use agent_runtime_platform.Quarantine.Evidence.{Digests}
use agent_runtime_platform.Quarantine.Derive.{
  evidence_of, workflow_fingerprint, observed_revision, checkpoint_fingerprint, lease_cleared,
}
use agent_runtime_platform.Quarantine.Apply.{
  matching_resolution_events, matching_resolution_failed_events, checkpoint_progress_is_valid,
}

abbrev pub is_failed : RunStatus → Bool
is_failed failed = true
is_failed _ = false

unfoldable pub is_verified : Digests → QuarantineResolutionCommit → ℕ → RunRecord → Platform → Bool
unfolding lease_cleared checkpoint_progress_is_valid observed_revision checkpoint_fingerprint
    workflow_fingerprint evidence_of matching_resolution_events matching_resolution_failed_events
is_verified digests commit plan_id run p =
    let db = p.database in
    is_failed run.status
    && holds_text run.error_code checkpoint_conflict_code
    && lease_cleared run
    && checkpoint_progress_is_valid commit.plan.observed_checkpoint_revision
        commit.checkpoint_evidence_fingerprint (observed_revision db run.tenant_id run.thread_id)
        (checkpoint_fingerprint digests db run.tenant_id run.thread_id)
    && workflow_fingerprint digests (evidence_of run.run_id p.ledger)
      == commit.workflow_evidence_fingerprint
    && length (matching_resolution_events run.run_id plan_id db.run_events) == 1
    && length (matching_resolution_failed_events run.run_id plan_id db.run_events) == 1

unfoldable pub verify_quarantine_resolution :
    Digests → QuarantineResolutionCommit → Platform → Result (Unit {0})
unfolding is_verified
verify_quarantine_resolution digests commit p = do
  plan_id ← or_error commit.plan.plan_id evidence_incomplete
  run ←
      or_error
        (of_tenant commit.plan.thread.tenant_id
          (find_run (identifier commit.plan.target) p.database.runs))
        evidence_incomplete
  guard (is_verified digests commit plan_id run p) evidence_incomplete
