-- ===== src/Platform/Resolves.antt =====
-- `apply_quarantine_resolution` is a sequence of moves of the run store's tables.
use agent_runtime_platform.Base.{ℕ, true, Option, none, some, ◌≡◌, refl, arith}
use agent_runtime_platform.Models.{RunRecord}
use agent_runtime_platform.RunStore.{Database, Clock, Result, ok, err}
use agent_runtime_platform.RunStore.Moves.{RowMove, Moves, here, Ensures}
use agent_runtime_platform.RunStore.Moves.Rules.{
  Ensures-bind, Ensures-ok, Ensures-guard, update_run-Moves, then_logs,
}
use agent_runtime_platform.RunStore.Moves.Rows.{fails_from}
use agent_runtime_platform.RunStore.Moves.Commits.{committed_tables}
use agent_runtime_platform.Platform.{Platform}
use agent_runtime_platform.Quarantine.{QuarantineResolutionCommit}
use agent_runtime_platform.Quarantine.Evidence.{Digests}
use agent_runtime_platform.Quarantine.Derive.{PlanSnapshot, is_quarantined}
use agent_runtime_platform.Quarantine.Apply.{
  Application, resolve_with, may_resolve, write_resolution, resolve_now, reuse_resolution,
  resolve_or_reuse, apply_quarantine_resolution,
}
use agent_runtime_platform.Platform.Calls.{after_commit}

resolve_with-RowMove :
    (db : Database) (r : RunRecord) (clock : Clock) (tenant : ℕ)
    → may_resolve tenant r ≡ true
    → RowMove db r (resolve_with clock r)
unfolding may_resolve is_quarantined resolve_with
resolve_with-RowMove db r clock tenant h = record {
  same_run = refl;
  same_tenant = refl;
  status = fails_from r.status (ground arith);
  keeps = λ k. ground arith;
  same_thread = λ t. ground arith;
  base = λ t. ground arith;
}

write_resolution-Moves :
    (clock : Clock) (a : Application) (current : PlanSnapshot) (db : Database)
    → Ensures (λ d. Moves db d) (write_resolution clock a current db)
unfolding write_resolution
write_resolution-Moves clock a current db = Ensures-bind _ _ λ u h. Ensures-bind _ _ λ d g.
    Ensures-bind _ _ λ told t. Ensures-bind _ _ λ logged l. Ensures-ok _ (
      then_logs a.run_id _ _ _
        (then_logs a.run_id _ _ _
          (committed_tables u _ g (
            update_run-Moves a.run_id _ _ db
              (λ r f m. resolve_with-RowMove db r clock a.tenant_id m) u h))
          t)
        l)

-- The tables of the run store are reached by moves, and the ledger is the same.
pub record Resolves (p p' : Platform) : Type 0 where
  pub moves : Moves p.database p'.database
  pub same_ledger : p'.ledger ≡ p.ledger

resolve_or_reuse-Resolves :
    (clock : Clock) (a : Application) (existing : Option PlanSnapshot) (current : PlanSnapshot)
    (p : Platform)
    → Ensures
        (λ (x : Platform × QuarantineResolutionCommit). Resolves p x.0)
        (resolve_or_reuse clock a existing current p)
unfolding resolve_or_reuse resolve_now reuse_resolution
resolve_or_reuse-Resolves clock a none current p = Ensures-guard _ _ _ λ g.
    Ensures-bind _ _ λ database w. Ensures-ok _ (record {
      moves = (write_resolution-Moves clock a current p.database).at database w;
      same_ledger = refl;
    })
resolve_or_reuse-Resolves clock a (some stored) current p =
    Ensures-guard _ _ _ λ g. Ensures-ok _ (record { moves = here; same_ledger = refl })

apply-Resolves :
    (digests : Digests) (clock : Clock) (a : Application) (p : Platform)
    → Ensures
        (λ (x : Platform × QuarantineResolutionCommit). Resolves p x.0)
        (apply_quarantine_resolution digests clock a p)
unfolding apply_quarantine_resolution
apply-Resolves digests clock a p =
    Ensures-bind _ _ λ existing e.
      Ensures-bind _ _ λ current d. resolve_or_reuse-Resolves clock a existing current p

after_commit-lem :
    (p : Platform) (m : Result (Platform × QuarantineResolutionCommit))
    → Ensures (λ (x : Platform × QuarantineResolutionCommit). Resolves p x.0) m
    → Resolves p (after_commit p m)
after_commit-lem p (ok r) h = h.at r refl
after_commit-lem p (err e) h = record { moves = here; same_ledger = refl }

pub after_commit-Resolves :
    (digests : Digests) (clock : Clock) (a : Application) (p : Platform)
    → Resolves p (after_commit p (apply_quarantine_resolution digests clock a p))
after_commit-Resolves digests clock a p = after_commit-lem p _ (apply-Resolves digests clock a p)
