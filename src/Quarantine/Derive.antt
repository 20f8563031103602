-- ===== src/Quarantine/Derive.antt =====
-- runtime_service/store.py: `_derive_quarantine_plan_with_connection` and
-- `plan_quarantine_resolution`.
mod Reasons
unfoldable pub use Reasons.*
use agent_runtime_platform.Base.{
  ℕ, Bool, true, false, not, ◌&&◌, ◌||◌, Option, none, some, List, [], ◌∷◌, ◌==◌, ltb, is_null,
  holds_number, holds_text, if◌then◌else◌, str_eq, select, sort_by, length,
}
use agent_runtime_platform.Contracts.{BaseRuntimeState}
use agent_runtime_platform.Models.{RunRecord, RunEvent, is_running}
use agent_runtime_platform.RunStore.{
  Database, Result, ok, ◌>>=◌, ◌>>◌, guard, or_error, value_error, run_not_found, find_run,
  find_checkpoint,
}
use agent_runtime_platform.RunStore.Cancel.{of_tenant}
use agent_runtime_platform.RunStore.Claim.{reconciliation_blocked_code}
use agent_runtime_platform.Platform.{Platform}
use agent_runtime_platform.Workflow.{
  Ledger, WorkflowExecutionRecord, ToolCallRecord, ExternalActionRecord, ExternalActionStatus,
  prepared, dispatching, succeeded, action_failed, outcome_unknown, find_execution,
}
use agent_runtime_platform.Quarantine.{
  QuarantineResolutionTarget, run_target, action_target, identifier, QuarantineResolutionKind,
  ExternalActionStatusSummary, QuarantineThreadReference, IneligibilityReason, run_not_quarantined,
  execution_authority_present, checkpoint_conflict_event_missing,
  checkpoint_conflict_event_mismatch, checkpoint_revision_not_drifted, workflow_execution_missing,
  external_action_evidence_missing, external_action_nonterminal,
  external_action_evidence_inconsistent, QuarantineResolutionPlan, is_empty,
}
use agent_runtime_platform.Quarantine.Evidence.{
  Digests, PlanMaterial, SafeConflict, get, is_text, is_optional_number, is_number,
  evidence_is_consistent,
}

unfoldable pub safe_conflict : Option RunEvent → Option SafeConflict
unfolding get
safe_conflict none = none
safe_conflict (some e) = some (record {
  sequence = e.sequence;
  created_at = e.created_at;
  phase = get "phase" e.payload;
  expected_revision = get "expected_revision" e.payload;
  observed_revision = get "observed_revision" e.payload;
  disposition = get "disposition" e.payload;
})

-- A target that is a run shows its thread, and an action shows itself.
unfoldable pub thread_reference :
    ℕ → QuarantineResolutionTarget → RunRecord → QuarantineThreadReference
thread_reference tenant (run_target id) run = record {
  tenant_id = tenant;
  reference_kind = "thread_id";
  reference = run.thread_id;
}
thread_reference tenant (action_target id) run = record {
  tenant_id = tenant;
  reference_kind = "action_id";
  reference = id;
}

-- `_QuarantinePlanSnapshot`
pub record PlanSnapshot : Type 0 where
  pub plan : QuarantineResolutionPlan
  pub workflow_evidence_fingerprint : ℕ
  pub checkpoint_evidence_fingerprint : ℕ

unfoldable pub material_of :
    Digests
    → ℕ
    → QuarantineResolutionTarget
    → QuarantineResolutionKind
    → RunRecord
    → Option RunEvent
    → Database
    → Evidence
    → PlanMaterial
unfolding lease_cleared observed_revision checkpoint_fingerprint safe_conflict workflow_fingerprint
    summary_of
material_of digests tenant target resolution run conflict db e = record {
  tenant_id = tenant;
  target = target;
  resolution = resolution;
  status = run.status;
  error_code = run.error_code;
  attempt = run.attempt;
  cancel_requested = run.cancel_requested;
  checkpoint_base_revision = run.checkpoint_base_revision;
  updated_at = run.updated_at;
  lease_cleared = lease_cleared run;
  revision = observed_revision db tenant run.thread_id;
  checkpoint_evidence = checkpoint_fingerprint digests db tenant run.thread_id;
  conflict = safe_conflict conflict;
  workflow_evidence = workflow_fingerprint digests e;
  summary = summary_of e.actions;
}

unfoldable pub plan_of :
    ℕ
    → QuarantineResolutionTarget
    → QuarantineResolutionKind
    → RunRecord
    → ℕ
    → ExternalActionStatusSummary
    → List IneligibilityReason
    → ℕ
    → QuarantineResolutionPlan
unfolding thread_reference reconciliation_required
plan_of tenant target resolution run observed summary reasons hash =
    let eligible : Bool = is_empty reasons in
    record {
      target = target;
      resolution = resolution;
      eligible = eligible;
      plan_id = if eligible then some hash else none;
      thread = thread_reference tenant target run;
      current_run_status = run.status;
      current_quarantine_code = run.error_code;
      cancel_requested = run.cancel_requested;
      checkpoint_base_revision = run.checkpoint_base_revision;
      observed_checkpoint_revision = observed;
      external_actions = summary;
      workflow_reconciliation_required = reconciliation_required summary;
      planned_run_transition = if eligible then "running -> failed" else "no change";
      new_audit_events =
          if eligible then "quarantine.resolution_applied" ∷ "run.failed" ∷ [] else [];
      thread_disposition = if eligible then "released_after_atomic_commit" else "remains_blocked";
      ineligibility_reasons = reasons;
    }

-- After the reads.
unfoldable pub snapshot_of :
    Digests
    → ℕ
    → QuarantineResolutionTarget
    → QuarantineResolutionKind
    → RunRecord
    → Platform
    → PlanSnapshot
unfolding plan_of reasons_of material_of evidence_of events_of last_conflict summary_of
    observed_revision workflow_fingerprint checkpoint_fingerprint
snapshot_of digests tenant target resolution run p =
    let e = evidence_of run.run_id p.ledger in
    let conflict = last_conflict (events_of run.run_id p.database.run_events) in
    let observed = observed_revision p.database tenant run.thread_id in
    record {
      plan =
          plan_of tenant target resolution run observed (summary_of e.actions)
            (reasons_of digests tenant run conflict observed e)
            (digests.plan_hash
              (material_of digests tenant target resolution run conflict p.database e));
      workflow_evidence_fingerprint = workflow_fingerprint digests e;
      checkpoint_evidence_fingerprint =
          checkpoint_fingerprint digests p.database tenant run.thread_id;
    }

unfoldable pub derive_plan :
    Digests
    → ℕ
    → ℕ
    → QuarantineResolutionTarget
    → QuarantineResolutionKind
    → Platform
    → Result PlanSnapshot
unfolding snapshot_of
derive_plan digests run_id tenant target resolution p = do
  guard (identifier target == run_id) value_error
  run ← or_error (of_tenant tenant (find_run run_id p.database.runs)) run_not_found
  ok (snapshot_of digests tenant target resolution run p)

-- `plan_quarantine_resolution` only reads.
unfoldable pub plan_quarantine_resolution :
    Digests
    → ℕ
    → ℕ
    → QuarantineResolutionTarget
    → QuarantineResolutionKind
    → Platform
    → Result QuarantineResolutionPlan
unfolding derive_plan
plan_quarantine_resolution digests run_id tenant target resolution p = do
  snapshot ← derive_plan digests run_id tenant target resolution p
  ok snapshot.plan
