-- ===== src/Quarantine/Apply.antt =====
-- runtime_service/store.py: `apply_quarantine_resolution`; below it `Stored`, the search for
-- the event of a resolution that was applied before.
mod Stored
unfoldable pub use Stored.*
use agent_runtime_platform.Base.{
  ℕ, String, Bool, true, false, ◌&&◌, Option, none, some, List, [], ◌∷◌, ◌==◌, ltb, holds_number,
  if◌then◌else◌, str_eq, select,
}
use agent_runtime_platform.Contracts.{Json, num, str, plan, literal, Text, Fields, optional_num}
use agent_runtime_platform.Models.{RunRecord, RunEvent, failed}
use agent_runtime_platform.RunStore.{
  Database, Clock, Result, ok, err, ◌>>=◌, ◌>>◌, guard, or_error, evidence_incomplete, stale_plan,
  update_run,
}
use agent_runtime_platform.RunStore.Events.{append_event}
use agent_runtime_platform.RunStore.Cancel.{without_lease}
use agent_runtime_platform.RunStore.Conflict.{checkpoint_conflict_code}
use agent_runtime_platform.Platform.{Platform}
use agent_runtime_platform.Workflow.Executions.{optional_str}
use agent_runtime_platform.Quarantine.{
  QuarantineResolutionTarget, kind_value, same_target, QuarantineResolutionKind, resolution_value,
  same_resolution, QuarantineResolutionPlan, validate_eligibility_shape, QuarantineResolutionCommit,
}
use agent_runtime_platform.Quarantine.Evidence.{Digests, get, is_id, is_text}
use agent_runtime_platform.Quarantine.Derive.{
  events_of, is_quarantined, lease_cleared, PlanSnapshot, derive_plan,
}

-- The arguments of `apply_quarantine_resolution`.
pub record Application : Type 0 where
  pub run_id : ℕ
  pub tenant_id : ℕ
  pub target : QuarantineResolutionTarget
  pub resolution : QuarantineResolutionKind
  pub expected_plan_id : ℕ
  pub operator_subject_id : ℕ
  pub operator_credential_id : ℕ

-- A resolution that was applied before.
unfoldable pub reuse_resolution :
    Application
    → PlanSnapshot
    → PlanSnapshot
    → Platform
    → Result (Platform × QuarantineResolutionCommit)
unfolding checkpoint_progress_is_valid
reuse_resolution a stored current p = do
  guard
      (same_target stored.plan.target a.target
        && same_resolution stored.plan.resolution a.resolution
        && stored.workflow_evidence_fingerprint == current.workflow_evidence_fingerprint
        && checkpoint_progress_is_valid stored.plan.observed_checkpoint_revision
            stored.checkpoint_evidence_fingerprint current.plan.observed_checkpoint_revision
            current.checkpoint_evidence_fingerprint)
      evidence_incomplete
  ok (
    p,
    record {
      plan = stored.plan;
      reused = true;
      workflow_evidence_fingerprint = stored.workflow_evidence_fingerprint;
      checkpoint_evidence_fingerprint = stored.checkpoint_evidence_fingerprint;
    },
  )

abbrev pub resolution_error : Text
resolution_error =
    literal
      "An operator terminalized an eligible quarantined Run while preserving the authoritative checkpoint and external-action evidence."

-- The columns that the UPDATE sets, and its WHERE.
unfoldable pub resolve_with : Clock → RunRecord → RunRecord
unfolding without_lease
resolve_with clock r = without_lease (record r {
  status = failed;
  error_code = some checkpoint_conflict_code;
  error = some resolution_error;
  completed_at = some clock.utc_now;
  updated_at = clock.utc_now;
})

unfoldable pub may_resolve : ℕ → RunRecord → Bool
unfolding is_quarantined lease_cleared
may_resolve tenant r = r.tenant_id == tenant && is_quarantined r && lease_cleared r

abbrev pub audit_payload : Application → PlanSnapshot → Fields
audit_payload a current =
    ("resolution", str (literal (resolution_value a.resolution)))
    ∷ ("plan_id", num a.expected_plan_id)
    ∷ ("target_kind", str (literal (kind_value a.target)))
    ∷ ("source_quarantine_code", optional_str current.plan.current_quarantine_code)
    ∷ ("checkpoint_base_revision", optional_num current.plan.checkpoint_base_revision)
    ∷ ("observed_checkpoint_revision", num current.plan.observed_checkpoint_revision)
    ∷ ("checkpoint_disposition", str (literal "preserved"))
    ∷ ("external_evidence_disposition", str (literal "preserved"))
    ∷ ("provider_calls", num 0)
    ∷ ("operator_subject_id", num a.operator_subject_id)
    ∷ ("operator_credential_id", num a.operator_credential_id)
    ∷ ("workflow_evidence_fingerprint", num current.workflow_evidence_fingerprint)
    ∷ ("checkpoint_evidence_fingerprint", num current.checkpoint_evidence_fingerprint)
    ∷ ("plan", plan current.plan)
    ∷ []

abbrev pub failed_payload : Application → Fields
failed_payload a =
    ("error_code", str (literal checkpoint_conflict_code))
    ∷ ("error", str resolution_error)
    ∷ ("resolution", str (literal (resolution_value a.resolution)))
    ∷ ("plan_id", num a.expected_plan_id)
    ∷ []

-- The UPDATE and both events.
unfoldable pub write_resolution : Clock → Application → PlanSnapshot → Database → Result Database
unfolding resolve_with may_resolve
write_resolution clock a current db = do
  updated ← update_run a.run_id (may_resolve a.tenant_id) (resolve_with clock) db
  resolved ← or_error updated (stale_plan current.plan)
  told ←
      append_event a.run_id "quarantine.resolution_applied" (audit_payload a current) clock.utc_now
        resolved
  logged ← append_event a.run_id "run.failed" (failed_payload a) clock.utc_now told.0
  ok logged.0

unfoldable pub resolve_now :
    Clock → Application → PlanSnapshot → Platform → Result (Platform × QuarantineResolutionCommit)
unfolding write_resolution
resolve_now clock a current p = do
  guard (current.plan.eligible && holds_number current.plan.plan_id a.expected_plan_id)
      (stale_plan current.plan)
  database ← write_resolution clock a current p.database
  ok (
    record p { database = database },
    record {
      plan = current.plan;
      reused = false;
      workflow_evidence_fingerprint = current.workflow_evidence_fingerprint;
      checkpoint_evidence_fingerprint = current.checkpoint_evidence_fingerprint;
    },
  )

unfoldable pub resolve_or_reuse :
    Clock
    → Application
    → Option PlanSnapshot
    → PlanSnapshot
    → Platform
    → Result (Platform × QuarantineResolutionCommit)
unfolding reuse_resolution resolve_now
resolve_or_reuse clock a none current p = resolve_now clock a current p
resolve_or_reuse clock a (some stored) current p = reuse_resolution a stored current p

unfoldable pub apply_quarantine_resolution :
    Digests → Clock → Application → Platform → Result (Platform × QuarantineResolutionCommit)
unfolding find_resolution_event derive_plan resolve_or_reuse
apply_quarantine_resolution digests clock a p = do
  existing ← find_resolution_event a.run_id a.expected_plan_id p.database.run_events
  current ← derive_plan digests a.run_id a.tenant_id a.target a.resolution p
  resolve_or_reuse clock a existing current p
