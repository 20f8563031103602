-- ===== src/RunStore/Moves/Claims.antt =====
-- Claiming a run is a sequence of moves.
use agent_runtime_platform.Base.{ℕ, String, Option, none, some}
use agent_runtime_platform.Base.Table.{number_key}
use agent_runtime_platform.Models.{RunRecord, RunLeaseRecoveryReason}
use agent_runtime_platform.RunStore.{Database, Clock, ParseState}
use agent_runtime_platform.RunStore.Claim.{
  claim_next_run, claim_candidate, finish_claim, log_recovery,
}
use agent_runtime_platform.RunStore.Cancel.{tables_after}
use agent_runtime_platform.RunStore.Moves.{Moves, here, Ensures, Reaches}
use agent_runtime_platform.RunStore.Moves.Rules.{
  Ensures-bind, Ensures-ok, update_run-Moves, then_logs,
}
use agent_runtime_platform.RunStore.Moves.Rows.{start_attempt-RowMove}

log_recovery-Reaches :
    {db d : Database} (clock : Clock) (pending : Option String) (r : RunRecord)
    (reason : Option RunLeaseRecoveryReason)
    → Moves db d
    → Ensures (Moves db) (log_recovery clock pending r reason d)
unfolding log_recovery
log_recovery-Reaches clock pending r none m = Ensures-ok _ m
log_recovery-Reaches clock pending r (some reason) m =
    Ensures-bind _ _ λ p h. Ensures-ok _ (then_logs r.run_id _ _ _ m h)

finish_claim-Reaches :
    (parse : ParseState) (clock : Clock) (owner token : ℕ) (pending : Option String) (r : RunRecord)
    (u : Option Database) (db : Database)
    → Moves db (tables_after db u)
    → Reaches db (finish_claim parse clock owner token pending r u db)
unfolding finish_claim
finish_claim-Reaches parse clock owner token pending r none db m = Ensures-ok _ here
finish_claim-Reaches parse clock owner token pending r (some d) db m = Ensures-bind _ _ λ row _.
    Ensures-bind _ _ λ run _. Ensures-bind _ _ λ d' h. Ensures-bind _ _ λ p l.
      Ensures-ok _
        (then_logs run.run_id _ _ _ ((log_recovery-Reaches clock pending r _ m).at d' h) l)

claim_candidate-Reaches :
    (parse : ParseState) (clock : Clock) (owner token seconds : ℕ) (pending : Option String)
    (c : Option RunRecord) (db : Database)
    → Reaches db (claim_candidate parse clock owner token seconds pending c db)
unfolding claim_candidate
claim_candidate-Reaches parse clock owner token seconds pending none db = Ensures-ok _ here
claim_candidate-Reaches parse clock owner token seconds pending (some c) db =
    Ensures-bind _ _ λ u h. finish_claim-Reaches parse clock owner token pending c u db (
      update_run-Moves c.run_id _ _ db
        (λ r _ w. start_attempt-RowMove db r clock owner token _ pending _ db.runs w) u h)

pub claim_next_run-Reaches :
    (parse : ParseState) (clock : Clock) (owner token seconds : ℕ) (pending : Option String)
    (db : Database)
    → Reaches db (claim_next_run parse clock owner token seconds pending db)
unfolding claim_next_run
claim_next_run-Reaches parse clock owner token seconds pending db = Ensures-bind _ _ λ _ _.
    Ensures-bind _ _ λ _ _. claim_candidate-Reaches parse clock owner token seconds pending _ db
