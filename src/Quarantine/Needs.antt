-- ===== src/Quarantine/Needs.antt =====
-- runtime_service/store.py, `apply_quarantine_resolution`: what an application that changes the
-- tables has found.
use agent_runtime_platform.Base.{
  ℕ, true, false, ◌&&◌, Option, none, some, List, [], ◌∷◌, ◌≡◌, refl, subst, arith, holds_number,
  ==_iff,
}
use agent_runtime_platform.Models.{RunRecord, RunEvent}
use agent_runtime_platform.RunStore.{Clock, ok, find_run}
use agent_runtime_platform.RunStore.Cancel.{of_tenant}
use agent_runtime_platform.RunStore.Moves.{Ensures}
use agent_runtime_platform.RunStore.Moves.Rules.{
  Ensures-bind, Ensures-ok, Ensures-err, Ensures-guard, or_error-ok,
}
use agent_runtime_platform.Platform.{Platform}
use agent_runtime_platform.Quarantine.{identifier, QuarantineResolutionCommit, is_empty}
use agent_runtime_platform.Quarantine.Evidence.{Digests}
use agent_runtime_platform.Quarantine.Derive.{PlanSnapshot, derive_plan, snapshot_of, plan_of}
use agent_runtime_platform.Quarantine.Apply.{
  Application, matching_resolution_events, resolution_among, find_resolution_event, resolve_now,
  resolve_or_reuse, reuse_resolution, apply_quarantine_resolution,
}
use agent_runtime_platform.Quarantine.Eligible.{reasons_of-nil}
use agent_runtime_platform.Quarantine.Fresh.{
  Eligible, current_hash, current_snapshot, current_conflict, current_revision, current_evidence,
}

-- The run, that its events do not apply the plan yet, its eligibility, the plan's hash and what is left as it was.
pub record IsWarranted (digests : Digests) (a : Application) (p : Platform) (p' : Platform)
    : Type 0 where
  pub run : RunRecord
  pub own : of_tenant a.tenant_id (find_run a.run_id p.database.runs) ≡ some run
  pub target : identifier a.target ≡ a.run_id
  pub first : matching_resolution_events a.run_id a.expected_plan_id p.database.run_events ≡ []
  pub eligible : Eligible digests a run p
  pub hash : a.expected_plan_id ≡ current_hash digests a run p
  pub same_ledger : p'.ledger ≡ p.ledger

record IsDerived (digests : Digests) (a : Application) (p : Platform) (s : PlanSnapshot)
    : Type 0 where
  pub run : RunRecord
  pub own : of_tenant a.tenant_id (find_run a.run_id p.database.runs) ≡ some run
  pub target : identifier a.target ≡ a.run_id
  pub same : s ≡ current_snapshot digests a run p

derive_plan-IsDerived :
    (digests : Digests) (a : Application) (p : Platform)
    → Ensures
        (IsDerived digests a p)
        (derive_plan digests a.run_id a.tenant_id a.target a.resolution p)
unfolding derive_plan
derive_plan-IsDerived digests a p = Ensures-guard _ _ _ λ g. Ensures-bind _ _ λ r f.
    Ensures-ok _ (record {
      run = r;
      own = or_error-ok _ _ f;
      target = (==_iff (identifier a.target) a.run_id).0 g;
      same = refl;
    })

is_empty-nil : {A : Type 0} (xs : List A) → is_empty xs ≡ true → xs ≡ []
is_empty-nil [] h = refl
is_empty-nil (x ∷ xs) h = ground arith

module _ (digests : Digests) (a : Application) (r : RunRecord) (p : Platform) where
  plan-Eligible : (current_snapshot digests a r p).plan.eligible ≡ true → Eligible digests a r p
  unfolding snapshot_of plan_of
  plan-Eligible h =
      reasons_of-nil digests a.tenant_id r (current_conflict digests a r p)
        (current_revision digests a r p) (current_evidence digests a r p) (is_empty-nil _ h)

  plan-hash :
      (current_snapshot digests a r p).plan.eligible ≡ true
      → holds_number (current_snapshot digests a r p).plan.plan_id a.expected_plan_id ≡ true
      → a.expected_plan_id ≡ current_hash digests a r p
  unfolding snapshot_of plan_of
  plan-hash h i = ground (arith, ==_iff (current_hash digests a r p) a.expected_plan_id)

-- No stored resolution is found only where no event applies the plan.
resolution_among-none :
    (plan_id : ℕ) (events : List RunEvent)
    → Ensures (λ o. o ≡ none → events ≡ []) (resolution_among plan_id events)
unfolding resolution_among
resolution_among-none plan_id [] = Ensures-ok _ λ h. refl
resolution_among-none plan_id (e ∷ []) = Ensures-bind _ _ λ s f. Ensures-ok _ λ h. absurd (cc)
resolution_among-none plan_id (e ∷ d ∷ es) = Ensures-err _

find_resolution_event-none :
    (a : Application) (p : Platform)
    → Ensures
        (λ o.
          o ≡ none
          → matching_resolution_events a.run_id a.expected_plan_id p.database.run_events ≡ [])
        (find_resolution_event a.run_id a.expected_plan_id p.database.run_events)
unfolding find_resolution_event
find_resolution_event-none a p = resolution_among-none a.expected_plan_id _

-- A result that is new is warranted.
abbrev Warrants : Digests → Application → Platform → Platform × QuarantineResolutionCommit → Type 0
Warrants digests a p result = result.1.reused ≡ false → IsWarranted digests a p result.0

resolve_now-Warrants :
    (digests : Digests) (clock : Clock) (a : Application) (p : Platform) (current : PlanSnapshot)
    → IsDerived digests a p current
    → matching_resolution_events a.run_id a.expected_plan_id p.database.run_events ≡ []
    → Ensures (Warrants digests a p) (resolve_now clock a current p)
unfolding resolve_now
resolve_now-Warrants digests clock a p current d n = Ensures-guard _ _ _ λ g.
    Ensures-bind _ _ λ database w. Ensures-ok _ λ fresh.
      let agreed =
        subst
          (λ (s : PlanSnapshot).
            (s.plan.eligible && holds_number s.plan.plan_id a.expected_plan_id) ≡ true)
          d.same g in
      let eligible : (current_snapshot digests a d.run p).plan.eligible ≡ true = ground arith in
      record {
        run = d.run;
        own = d.own;
        target = d.target;
        first = n;
        eligible = plan-Eligible digests a d.run p eligible;
        hash = plan-hash digests a d.run p eligible (ground arith);
        same_ledger = refl;
      }

reuse_resolution-Warrants :
    (digests : Digests) (a : Application) (p : Platform) (stored current : PlanSnapshot)
    → Ensures (Warrants digests a p) (reuse_resolution a stored current p)
unfolding reuse_resolution
reuse_resolution-Warrants digests a p stored current =
    Ensures-guard _ _ _ λ g. Ensures-ok _ λ fresh. absurd (ground arith)

resolve_or_reuse-Warrants :
    (digests : Digests) (clock : Clock) (a : Application) (p : Platform)
    (existing : Option PlanSnapshot) (current : PlanSnapshot)
    → IsDerived digests a p current
    → (existing ≡ none
        → matching_resolution_events a.run_id a.expected_plan_id p.database.run_events ≡ [])
    → Ensures (Warrants digests a p) (resolve_or_reuse clock a existing current p)
unfolding resolve_or_reuse
resolve_or_reuse-Warrants digests clock a p none current d n =
    resolve_now-Warrants digests clock a p current d (n refl)
resolve_or_reuse-Warrants digests clock a p (some stored) current d n =
    reuse_resolution-Warrants digests a p stored current

-- An application that succeeds and is not the repetition of an earlier one has found no event that
-- applies the plan, and the run of the tenant, running, quarantined and under no lease, with a
-- checkpoint that has drifted from its base revision as its last quarantine event says, with its
-- execution, and with external actions that are all terminal and whose evidence is consistent; the
-- plan that the operator named is the hash of exactly this; and no execution, step, action or
-- workflow event has changed.
pub apply-IsWarranted :
    (digests : Digests) (clock : Clock) (a : Application) (p p' : Platform)
    (commit : QuarantineResolutionCommit)
    → apply_quarantine_resolution digests clock a p ≡ ok (p', commit)
    → commit.reused ≡ false
    → IsWarranted digests a p p'
unfolding apply_quarantine_resolution
apply-IsWarranted digests clock a p p' commit h fresh =
    (Ensures-bind _ _ λ existing e. Ensures-bind _ _ λ current d.
        resolve_or_reuse-Warrants digests clock a p existing current
          ((derive_plan-IsDerived digests a p).at current d)
          ((find_resolution_event-none a p).at existing e)).at
      (p', commit) h fresh
