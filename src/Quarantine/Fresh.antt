-- ===== src/Quarantine/Fresh.antt =====
-- runtime_service/store.py, `apply_quarantine_resolution`: the first application of a plan.
use agent_runtime_platform.Base.{
  ℕ, true, false, Option, none, some, [], ◌≡◌, refl, ◌==◌, inl, inr, arith, Option-cases, ==_iff,
}
use agent_runtime_platform.Base.Table
use agent_runtime_platform.Base.Table.{number_key}
use agent_runtime_platform.Models.{RunRecord, RunEvent}
use agent_runtime_platform.RunStore.{Database, Clock, ok, ◌>>=◌, run_key, find_run, breaks_index}
use agent_runtime_platform.RunStore.Cancel.{of_tenant}
use agent_runtime_platform.RunStore.Invariant.{Inv}
use agent_runtime_platform.RunStore.Writes.{
  log_next, append_event-ok, update_run-ok, Weaker, breaks_index-Weaker,
}
use agent_runtime_platform.Platform.{Platform}
use agent_runtime_platform.Quarantine.{identifier, QuarantineResolutionCommit}
use agent_runtime_platform.Quarantine.Evidence.{Digests}
use agent_runtime_platform.Quarantine.Derive.{
  Evidence, evidence_of, events_of, last_conflict, is_quarantined, lease_cleared, observed_revision,
  snapshot_of, PlanSnapshot, derive_plan, material_of, plan_of,
}
use agent_runtime_platform.Quarantine.Apply.{
  Application, matching_resolution_events, find_resolution_event, resolution_among, resolve_with,
  may_resolve, audit_payload, failed_payload, write_resolution, resolve_now, resolve_or_reuse,
  apply_quarantine_resolution,
}
use agent_runtime_platform.Quarantine.Eligible.{IsEligible, IsEligible-nil}

module _ (digests : Digests) (a : Application) (r : RunRecord) (p : Platform) where
  -- What the transaction reads of the run.
  abbrev pub current_snapshot : PlanSnapshot
  current_snapshot = snapshot_of digests a.tenant_id a.target a.resolution r p

  abbrev pub current_conflict : Option RunEvent
  current_conflict = last_conflict (events_of r.run_id p.database.run_events)

  abbrev pub current_evidence : Evidence
  current_evidence = evidence_of r.run_id p.ledger

  abbrev pub current_revision : ℕ
  current_revision = observed_revision p.database a.tenant_id r.thread_id

  -- The hash of what the plan stands on.
  abbrev pub current_hash : ℕ
  current_hash = digests.plan_hash (
      material_of digests a.tenant_id a.target a.resolution r current_conflict p.database
        current_evidence)

  abbrev pub Eligible : Type 0
  Eligible = IsEligible digests a.tenant_id r current_conflict current_revision current_evidence

  -- The tables after the application, and what it returns.
  abbrev pub resolved_runs : Clock → Database
  resolved_runs clock = record p.database {
    runs = Table.set run_key a.run_id (resolve_with clock r) p.database.runs;
  }

  abbrev pub resolved_database : Clock → Database
  resolved_database clock = log_next a.run_id "run.failed" (failed_payload a) clock.utc_now (
      log_next a.run_id "quarantine.resolution_applied" (audit_payload a current_snapshot)
        clock.utc_now (resolved_runs clock))

  abbrev pub first_commit : QuarantineResolutionCommit
  first_commit = record {
    plan = current_snapshot.plan;
    reused = false;
    workflow_evidence_fingerprint = current_snapshot.workflow_evidence_fingerprint;
    checkpoint_evidence_fingerprint = current_snapshot.checkpoint_evidence_fingerprint;
  }

  pub snapshot-eligible : Eligible → current_snapshot.plan.eligible ≡ true
  unfolding snapshot_of plan_of
  snapshot-eligible h = ground (
    arith,
    IsEligible-nil digests a.tenant_id r current_conflict current_revision current_evidence h,
  )

  pub snapshot-plan_id : Eligible → current_snapshot.plan.plan_id ≡ some current_hash
  unfolding snapshot_of plan_of
  snapshot-plan_id h = ground (
    arith,
    IsEligible-nil digests a.tenant_id r current_conflict current_revision current_evidence h,
  )

pub derive_plan-ok :
    (digests : Digests) (a : Application) (r : RunRecord) (p : Platform)
    → identifier a.target ≡ a.run_id
    → of_tenant a.tenant_id (find_run a.run_id p.database.runs) ≡ some r
    → derive_plan digests a.run_id a.tenant_id a.target a.resolution p
      ≡ ok (current_snapshot digests a r p)
unfolding derive_plan ◌>>=◌
derive_plan-ok digests a r p t f = ground (arith, ==_iff (identifier a.target) a.run_id)

find_resolution_event-none :
    (a : Application) (p : Platform)
    → matching_resolution_events a.run_id a.expected_plan_id p.database.run_events ≡ []
    → find_resolution_event a.run_id a.expected_plan_id p.database.run_events ≡ ok none
unfolding find_resolution_event resolution_among
find_resolution_event-none a p h = ground arith

pub resolve_with-Weaker : (clock : Clock) (r : RunRecord) → Weaker r (resolve_with clock r)
unfolding resolve_with
resolve_with-Weaker clock r = record {
  run = refl;
  tenant = refl;
  request = refl;
  thread = λ h. ground arith;
}

write_resolution-ok :
    (clock : Clock) (a : Application) (current : PlanSnapshot) (db : Database) (r : RunRecord)
    → Inv db
    → find_run a.run_id db.runs ≡ some r
    → may_resolve a.tenant_id r ≡ true
    → write_resolution clock a current db
      ≡ ok (
          log_next a.run_id "run.failed" (failed_payload a) clock.utc_now (
            log_next a.run_id "quarantine.resolution_applied"
              (audit_payload a current)
              clock.utc_now
              (record db { runs = Table.set run_key a.run_id (resolve_with clock r) db.runs })))
unfolding write_resolution ◌>>=◌
write_resolution-ok clock a current db r v f m =
    let key : r.run_id ≡ a.run_id = Table.find-key run_key a.run_id db.runs f in
    let own : find_run r.run_id db.runs ≡ some r = Table.find-own run_key a.run_id db.runs f in
    let free : breaks_index db.runs (resolve_with clock r) ≡ false =
      breaks_index-Weaker db r (resolve_with clock r) v own (resolve_with-Weaker clock r) in
    let resolved : Database = record db {
      runs = Table.set run_key a.run_id (resolve_with clock r) db.runs;
    } in
    let there : find_run a.run_id resolved.runs ≡ some (resolve_with clock r) =
      Table.find-set_self run_key a.run_id (resolve_with clock r) db.runs key f in
    ground (
      arith,
      update_run-ok a.run_id (may_resolve a.tenant_id) (resolve_with clock) db f m free,
      append_event-ok a.run_id "quarantine.resolution_applied" (audit_payload a current)
          clock.utc_now resolved (ground arith),
      append_event-ok a.run_id "run.failed" (failed_payload a) clock.utc_now
          (log_next a.run_id "quarantine.resolution_applied" (audit_payload a current) clock.utc_now
            resolved)
          (ground arith),
    )

-- The run of the tenant.
pub record IsOwn (a : Application) (r : RunRecord) (p : Platform) : Type 0 where
  pub found : find_run a.run_id p.database.runs ≡ some r
  pub tenant : (r.tenant_id == a.tenant_id) ≡ true

pub of_tenant-IsOwn :
    (a : Application) (r : RunRecord) (p : Platform)
    → of_tenant a.tenant_id (find_run a.run_id p.database.runs) ≡ some r
    → IsOwn a r p
of_tenant-IsOwn a r p f = elim (Option-cases (find_run a.run_id p.database.runs)) [
  | inl e ↦ ground arith
  | inr (s, e) ↦ record { found = ground arith; tenant = ground arith }
]

may_resolve-own :
    (a : Application) (r : RunRecord) (p : Platform)
    → IsOwn a r p
    → is_quarantined r ≡ true
    → lease_cleared r ≡ true
    → may_resolve a.tenant_id r ≡ true
unfolding may_resolve
may_resolve-own a r p own q l = ground (arith, own.tenant)

-- In well-formed tables, where the target names the run, no event of the run applies the plan yet,
-- the run of the tenant is running, quarantined and under no lease, its last quarantine event agrees
-- with its base revision and with the checkpoint, which has drifted, its execution is there, its
-- external actions are at least one and all terminal, and their evidence is consistent, an
-- application that names the hash of all this succeeds: the run fails with its lease cleared, two
-- events are logged, and nothing else changes.
pub apply_eligible :
    (digests : Digests) (clock : Clock) (a : Application) (r : RunRecord) (p : Platform)
    → Inv p.database
    → identifier a.target ≡ a.run_id
    → matching_resolution_events a.run_id a.expected_plan_id p.database.run_events ≡ []
    → of_tenant a.tenant_id (find_run a.run_id p.database.runs) ≡ some r
    → Eligible digests a r p
    → a.expected_plan_id ≡ current_hash digests a r p
    → apply_quarantine_resolution digests clock a p
      ≡ ok (
        record p { database = resolved_database digests a r p clock },
        first_commit digests a r p,
      )
unfolding apply_quarantine_resolution resolve_or_reuse resolve_now ◌>>=◌
apply_eligible digests clock a r p v t n f h id =
    let own = of_tenant-IsOwn a r p f in
    ground (
      arith,
      find_resolution_event-none a p n,
      derive_plan-ok digests a r p t f,
      snapshot-eligible digests a r p h,
      snapshot-plan_id digests a r p h,
      ==_iff (current_hash digests a r p) a.expected_plan_id,
      write_resolution-ok clock a (current_snapshot digests a r p) p.database r v own.found
          (may_resolve-own a r p own h.quarantined h.unleased),
    )
