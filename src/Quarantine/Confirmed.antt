-- ===== src/Quarantine/Confirmed.antt =====
-- runtime_service/store.py: an applied resolution is verified, and applied again it changes nothing.
use agent_runtime_platform.Base.{ℕ, true, false, some, [], ◌≡◌, sym, subst, ap, ◌∙◌, arith}
use agent_runtime_platform.Base.Table.{number_key}
use agent_runtime_platform.Models.{RunRecord}
use agent_runtime_platform.RunStore.{Clock, ok, ◌>>=◌, find_run}
use agent_runtime_platform.RunStore.Cancel.{of_tenant}
use agent_runtime_platform.Platform.{Platform}
use agent_runtime_platform.Quarantine.{
  QuarantineResolutionCommit, QuarantineResolutionTarget, identifier,
}
use agent_runtime_platform.Quarantine.Evidence.{Digests}
use agent_runtime_platform.Quarantine.Apply.{
  Application, matching_resolution_events, matching_resolution_failed_events,
  apply_quarantine_resolution,
}
use agent_runtime_platform.Quarantine.Verify.{is_verified, verify_quarantine_resolution}
use agent_runtime_platform.Quarantine.Fresh.{
  Eligible, current_hash, first_commit, IsOwn, of_tenant-IsOwn, apply_eligible,
}
use agent_runtime_platform.Quarantine.Needs.{apply-IsWarranted}
use agent_runtime_platform.RunStore.Invariant.{Inv}
use agent_runtime_platform.RunStore.Moves.Rules.{ok-inj}
use agent_runtime_platform.Quarantine.Again.{
  after_first, resolved_run, reused_commit, apply_reused, thread-tenant, snapshot-IsApplied,
  plan-target, resolved-of_tenant, resolved-is_verified,
}

-- On the tables that an application left, it is repeated and verified.
abbrev Repeats : Digests → Clock → Application → Platform → QuarantineResolutionCommit → Type 0
Repeats digests later a p' commit =
    (apply_quarantine_resolution digests later a p' ≡ ok (p', record commit { reused = true }))
    × (verify_quarantine_resolution digests (record commit { reused = true }) p' ≡ ok tt)

verify_at :
    (digests : Digests) (commit : QuarantineResolutionCommit) (p : Platform) (plan_id : ℕ)
    (run : RunRecord)
    → commit.plan.plan_id ≡ some plan_id
    → of_tenant commit.plan.thread.tenant_id
        (find_run (identifier commit.plan.target) p.database.runs)
      ≡ some run
    → is_verified digests commit plan_id run p ≡ true
    → verify_quarantine_resolution digests commit p ≡ ok tt
unfolding verify_quarantine_resolution ◌>>=◌
verify_at digests commit p plan_id run i f h = ground arith

-- The run that the committed plan names.
named_run :
    (digests : Digests) (clock : Clock) (a : Application) (r : RunRecord) (p : Platform)
    → identifier a.target ≡ a.run_id
    → IsOwn a r p
    → of_tenant (reused_commit digests clock a r p).plan.thread.tenant_id (
        find_run
          (identifier (reused_commit digests clock a r p).plan.target)
          (after_first digests clock a r p).database.runs)
      ≡ some (resolved_run digests clock a r p)
named_run digests clock a r p t own =
    let commit = reused_commit digests clock a r p in
    let runs = (after_first digests clock a r p).database.runs in
    ap (λ (tenant : ℕ). of_tenant tenant (find_run (identifier commit.plan.target) runs))
      (thread-tenant digests clock a r p)
    ∙ ap
        (λ (target : QuarantineResolutionTarget).
          of_tenant a.tenant_id (find_run (identifier target) runs))
        (plan-target digests clock a r p)
    ∙ ap (λ (i : ℕ). of_tenant a.tenant_id (find_run i runs)) t
    ∙ resolved-of_tenant digests clock a r p own

-- The tables that `apply_eligible` writes.
again_after :
    (digests : Digests) (clock later : Clock) (a : Application) (r : RunRecord) (p : Platform)
    → identifier a.target ≡ a.run_id
    → matching_resolution_events a.run_id a.expected_plan_id p.database.run_events ≡ []
    → matching_resolution_failed_events a.run_id a.expected_plan_id p.database.run_events ≡ []
    → of_tenant a.tenant_id (find_run a.run_id p.database.runs) ≡ some r
    → Eligible digests a r p
    → a.expected_plan_id ≡ current_hash digests a r p
    → Repeats digests later a (after_first digests clock a r p) (first_commit digests a r p)
again_after digests clock later a r p t n m f h id =
    let own = of_tenant-IsOwn a r p f in
    let verified =
      verify_at digests (reused_commit digests clock a r p) (after_first digests clock a r p)
        a.expected_plan_id (resolved_run digests clock a r p)
        (snapshot-IsApplied digests clock a r p h id).plan_id (named_run digests clock a r p t own)
        (resolved-is_verified digests clock a r p own n m) in
    (apply_reused digests clock a r p later t n f h id, verified)

-- In well-formed tables, where no failure of the run names the plan yet, let an application succeed
-- that is not the repetition of an earlier one. On the tables that it leaves, the same application
-- succeeds at whatever later time, with the same plan and fingerprints, says that it is reused, and
-- changes nothing; and what it returns is verified.
pub apply_again :
    (digests : Digests) (clock later : Clock) (a : Application) (p p' : Platform)
    (commit : QuarantineResolutionCommit)
    → Inv p.database
    → matching_resolution_failed_events a.run_id a.expected_plan_id p.database.run_events ≡ []
    → apply_quarantine_resolution digests clock a p ≡ ok (p', commit)
    → commit.reused ≡ false
    → (apply_quarantine_resolution digests later a p' ≡ ok (p', record commit { reused = true }))
      × (verify_quarantine_resolution digests (record commit { reused = true }) p' ≡ ok tt)
apply_again digests clock later a p p' commit v m e fresh =
    let w = apply-IsWarranted digests clock a p p' commit e fresh in
    let made = apply_eligible digests clock a w.run p v w.target w.first w.own w.eligible w.hash in
    let same = ok-inj (sym made ∙ e) in
    subst (λ (q : Platform × QuarantineResolutionCommit). Repeats digests later a q.0 q.1) same
      (again_after digests clock later a w.run p w.target w.first m w.own w.eligible w.hash)
