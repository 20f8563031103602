-- ===== src/Quarantine/Again.antt =====
-- runtime_service/store.py: what the store reads of a run whose resolution was applied.
use agent_runtime_platform.Base.{
  holds_text, ℕ, true, some, [], ◌∷◌, ◌≡◌, refl, sym, ap, subst, ◌∙◌, arith, ==_iff,
}
use agent_runtime_platform.Base.Table
use agent_runtime_platform.Base.Table.{number_key}
use agent_runtime_platform.Models.{RunRecord, RunEvent}
use agent_runtime_platform.RunStore.{Clock, ok, ◌>>=◌, run_key, find_run}
use agent_runtime_platform.RunStore.Cancel.{of_tenant}
use agent_runtime_platform.RunStore.Conflict.{checkpoint_conflict_code}
use agent_runtime_platform.Platform.{Platform}
use agent_runtime_platform.Quarantine.{
  QuarantineResolutionCommit, QuarantineResolutionTarget, run_target, action_target, identifier,
  validate_eligibility_shape,
}
use agent_runtime_platform.Quarantine.Evidence.{Digests}
use agent_runtime_platform.Quarantine.Derive.{
  PlanSnapshot, snapshot_of, plan_of, thread_reference, observed_revision, checkpoint_fingerprint,
  observed_state, workflow_fingerprint, evidence_of, lease_cleared,
}
use agent_runtime_platform.Quarantine.Apply.{
  Application, matching_resolution_events, matching_resolution_failed_events, resolve_with,
  resolve_or_reuse, reuse_resolution, apply_quarantine_resolution, checkpoint_progress_is_valid,
}
use agent_runtime_platform.Quarantine.Verify.{is_failed, is_verified}
use agent_runtime_platform.Quarantine.Eligible.{IsEligible-nil}
use agent_runtime_platform.Quarantine.Fresh.{
  Eligible, current_hash, current_snapshot, current_conflict, current_revision, current_evidence,
  resolved_runs, resolved_database, first_commit, snapshot-plan_id, IsOwn, of_tenant-IsOwn,
  derive_plan-ok,
}
use agent_runtime_platform.Quarantine.Reads.{
  same_target_self, same_resolution_self, IsApplied, told-resolution, told-failed, told-find,
  resolution_event, progress_self,
}

all_verified :
    (digests : Digests) (commit : QuarantineResolutionCommit) (plan_id : ℕ) (run : RunRecord)
    (p : Platform) {e d : RunEvent}
    → is_failed run.status ≡ true
    → holds_text run.error_code checkpoint_conflict_code ≡ true
    → lease_cleared run ≡ true
    → checkpoint_progress_is_valid commit.plan.observed_checkpoint_revision
        commit.checkpoint_evidence_fingerprint
        (observed_revision p.database run.tenant_id run.thread_id)
        (checkpoint_fingerprint digests p.database run.tenant_id run.thread_id)
      ≡ true
    → workflow_fingerprint digests (evidence_of run.run_id p.ledger)
      ≡ commit.workflow_evidence_fingerprint
    → matching_resolution_events run.run_id plan_id p.database.run_events ≡ e ∷ []
    → matching_resolution_failed_events run.run_id plan_id p.database.run_events ≡ d ∷ []
    → is_verified digests commit plan_id run p ≡ true
unfolding is_verified
all_verified digests commit plan_id run p status code lease progress workflow one two = ground (
  arith,
  ==_iff (workflow_fingerprint digests (evidence_of run.run_id p.ledger))
      commit.workflow_evidence_fingerprint,
)

reference_tenant :
    (tenant : ℕ) (target : QuarantineResolutionTarget) (r : RunRecord)
    → (thread_reference tenant target r).tenant_id ≡ tenant
unfolding thread_reference
reference_tenant tenant (run_target id) r = refl
reference_tenant tenant (action_target id) r = refl

module _ (digests : Digests) (clock : Clock) (a : Application) (r : RunRecord) (p : Platform) where
  abbrev pub after_first : Platform
  after_first = record p { database = resolved_database digests a r p clock }

  abbrev pub resolved_run : RunRecord
  resolved_run = resolve_with clock r

  -- The current plan is applied.
  pub snapshot-IsApplied :
      Eligible digests a r p
      → a.expected_plan_id ≡ current_hash digests a r p
      → IsApplied a (current_snapshot digests a r p)
  unfolding snapshot_of plan_of validate_eligibility_shape
  snapshot-IsApplied h id =
      let nil =
        IsEligible-nil digests a.tenant_id r (current_conflict digests a r p)
          (current_revision digests a r p) (current_evidence digests a r p) h in
      record {
        shape = ground (arith, nil);
        resolution = refl;
        target = refl;
        plan_id = snapshot-plan_id digests a r p h ∙ ap some (sym id);
      }

  resolved-find : IsOwn a r p → find_run a.run_id after_first.database.runs ≡ some resolved_run
  unfolding resolve_with
  resolved-find own =
      Table.find-set_self run_key a.run_id resolved_run p.database.runs
        (Table.find-key run_key a.run_id p.database.runs own.found) own.found

  pub resolved-of_tenant :
      IsOwn a r p
      → of_tenant a.tenant_id (find_run a.run_id after_first.database.runs) ≡ some resolved_run
  unfolding resolve_with
  resolved-of_tenant own = ground (arith, resolved-find own, own.tenant)

  -- The plan after the application has the fingerprints and the revision of the one that was applied.
  abbrev later_snapshot : PlanSnapshot
  later_snapshot = current_snapshot digests a resolved_run after_first

  same_workflow :
      later_snapshot.workflow_evidence_fingerprint
      ≡ (current_snapshot digests a r p).workflow_evidence_fingerprint
  unfolding snapshot_of resolve_with
  same_workflow = refl

  same_checkpoint :
      later_snapshot.checkpoint_evidence_fingerprint
      ≡ (current_snapshot digests a r p).checkpoint_evidence_fingerprint
  unfolding snapshot_of resolve_with checkpoint_fingerprint observed_revision observed_state
  same_checkpoint = refl

  same_revision :
      later_snapshot.plan.observed_checkpoint_revision
      ≡ (current_snapshot digests a r p).plan.observed_checkpoint_revision
  unfolding snapshot_of plan_of resolve_with observed_revision
  same_revision = refl

  abbrev pub reused_commit : QuarantineResolutionCommit
  reused_commit = record (first_commit digests a r p) { reused = true }

  pub plan-target : (current_snapshot digests a r p).plan.target ≡ a.target
  unfolding snapshot_of plan_of
  plan-target = refl

  plan-resolution : (current_snapshot digests a r p).plan.resolution ≡ a.resolution
  unfolding snapshot_of plan_of
  plan-resolution = refl

  reuse-ok :
      reuse_resolution a (current_snapshot digests a r p) later_snapshot after_first
      ≡ ok (after_first, reused_commit)
  unfolding reuse_resolution ◌>>=◌
  reuse-ok = ground (
    arith,
    plan-target,
    plan-resolution,
    same_target_self a.target,
    same_resolution_self a.resolution,
    same_workflow,
    same_checkpoint,
    same_revision,
    progress_self (current_snapshot digests a r p).plan.observed_checkpoint_revision
        (current_snapshot digests a r p).checkpoint_evidence_fingerprint,
  )

  pub apply_reused :
      (later : Clock)
      → identifier a.target ≡ a.run_id
      → matching_resolution_events a.run_id a.expected_plan_id p.database.run_events ≡ []
      → of_tenant a.tenant_id (find_run a.run_id p.database.runs) ≡ some r
      → Eligible digests a r p
      → a.expected_plan_id ≡ current_hash digests a r p
      → apply_quarantine_resolution digests later a after_first ≡ ok (after_first, reused_commit)
  unfolding apply_quarantine_resolution resolve_or_reuse ◌>>=◌
  apply_reused later t n f h id = ground (
    arith,
    told-find a (current_snapshot digests a r p) clock (resolved_runs digests a r p clock)
        (snapshot-IsApplied h id) n,
    derive_plan-ok digests a resolved_run after_first t
        (resolved-of_tenant (of_tenant-IsOwn a r p f)),
    reuse-ok,
  )

  pub thread-tenant : (current_snapshot digests a r p).plan.thread.tenant_id ≡ a.tenant_id
  unfolding snapshot_of plan_of
  thread-tenant = reference_tenant a.tenant_id a.target r

  same_progress_own :
      checkpoint_progress_is_valid
        (observed_revision p.database a.tenant_id r.thread_id)
        (checkpoint_fingerprint digests p.database a.tenant_id r.thread_id)
        (observed_revision after_first.database a.tenant_id r.thread_id)
        (checkpoint_fingerprint digests after_first.database a.tenant_id r.thread_id)
      ≡ true
  unfolding observed_revision checkpoint_fingerprint observed_state
  same_progress_own =
      progress_self (observed_revision p.database a.tenant_id r.thread_id)
        (checkpoint_fingerprint digests p.database a.tenant_id r.thread_id)

  same_progress :
      IsOwn a r p
      → checkpoint_progress_is_valid reused_commit.plan.observed_checkpoint_revision
          reused_commit.checkpoint_evidence_fingerprint
          (observed_revision after_first.database resolved_run.tenant_id resolved_run.thread_id)
          (checkpoint_fingerprint digests after_first.database resolved_run.tenant_id
            resolved_run.thread_id)
        ≡ true
  unfolding snapshot_of plan_of resolve_with
  same_progress own =
      subst
        (λ (tenant : ℕ).
          checkpoint_progress_is_valid (observed_revision p.database a.tenant_id r.thread_id)
            (checkpoint_fingerprint digests p.database a.tenant_id r.thread_id)
            (observed_revision after_first.database tenant r.thread_id)
            (checkpoint_fingerprint digests after_first.database tenant r.thread_id)
          ≡ true)
        (sym ((==_iff r.tenant_id a.tenant_id).0 own.tenant)) same_progress_own

  pub resolved-is_verified :
      IsOwn a r p
      → matching_resolution_events a.run_id a.expected_plan_id p.database.run_events ≡ []
      → matching_resolution_failed_events a.run_id a.expected_plan_id p.database.run_events ≡ []
      → is_verified digests reused_commit a.expected_plan_id resolved_run after_first ≡ true
  unfolding resolve_with lease_cleared workflow_fingerprint snapshot_of
  resolved-is_verified own n m =
      let (e, one) =
        told-failed a (current_snapshot digests a r p) clock (resolved_runs digests a r p clock)
          m in
      let key : a.run_id ≡ r.run_id =
        sym (Table.find-key run_key a.run_id p.database.runs own.found) in
      all_verified digests reused_commit a.expected_plan_id resolved_run after_first refl refl refl
        (same_progress own) same_workflow
        (subst
          (λ (i : ℕ).
            matching_resolution_events i a.expected_plan_id after_first.database.run_events
            ≡ resolution_event a (current_snapshot digests a r p) clock
                (resolved_runs digests a r p clock)
              ∷ [])
          key
          (told-resolution a (current_snapshot digests a r p) clock
            (resolved_runs digests a r p clock) n))
        (subst
          (λ (i : ℕ).
            matching_resolution_failed_events i a.expected_plan_id after_first.database.run_events
            ≡ e ∷ [])
          key one)
