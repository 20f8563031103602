-- ===== src/RunStore/Moves/Leases.antt =====
-- Renewing, expiring and logging are sequences of moves.
use agent_runtime_platform.Base.{ℕ, String, true, Option, none, some, ◌≡◌, arith}
use agent_runtime_platform.Base.Table.{number_key}
use agent_runtime_platform.Contracts.{Fields}
use agent_runtime_platform.Models.{RunRecord}
use agent_runtime_platform.RunStore.{Database, Clock}
use agent_runtime_platform.RunStore.Events.{append_event}
use agent_runtime_platform.RunStore.Lease.{
  renew_run_lease, expire_run_lease, append_attempt_event, append_control_plane_event, changed,
  holds_lease, runs_under,
}
use agent_runtime_platform.RunStore.Cancel.{tables_after}
use agent_runtime_platform.RunStore.Moves.{Moves, here, Reaches}
use agent_runtime_platform.RunStore.Moves.Rules.{
  Ensures-bind, Ensures-ok, update_run-Moves, then_logs,
}
use agent_runtime_platform.RunStore.Moves.Rows.{deadline-RowMove}

changed-Reaches :
    (db : Database) (u : Option Database) → Moves db (tables_after db u) → Reaches db (changed db u)
changed-Reaches db none m = Ensures-ok _ m
changed-Reaches db (some d) m = Ensures-ok _ m

holds_lease-runs_under :
    (token now : ℕ) (r : RunRecord) → holds_lease token now r ≡ true → runs_under token r ≡ true
unfolding holds_lease
holds_lease-runs_under token now r h = ground arith

append_event-Reaches :
    {db d : Database} (id : ℕ) (type : String) (payload : Fields) (at : ℕ)
    → Moves db d
    → Reaches db (append_event id type payload at d)
append_event-Reaches id type payload at m = record { at = λ p h. then_logs id type payload at m h }

module _ (clock : Clock) (id : ℕ) (db : Database) where
  pub renew_run_lease-Reaches :
      (token seconds : ℕ) → Reaches db (renew_run_lease clock id token seconds db)
  unfolding renew_run_lease
  renew_run_lease-Reaches token seconds = Ensures-bind _ _ λ _ _. Ensures-bind _ _ λ _ _.
      Ensures-bind _ _ λ u h. changed-Reaches db u (
        update_run-Moves id _ _ db
          (λ r _ w. deadline-RowMove db r token _ _ _ (holds_lease-runs_under token _ r w)) u h)

  pub expire_run_lease-Reaches : (token : ℕ) → Reaches db (expire_run_lease clock id token db)
  unfolding expire_run_lease
  expire_run_lease-Reaches token = Ensures-bind _ _ λ _ _. Ensures-bind _ _ λ u h.
      changed-Reaches db u
        (update_run-Moves id _ _ db (λ r _ w. deadline-RowMove db r token _ _ _ w) u h)

  pub append_attempt_event-Reaches :
      (token : Option ℕ) (type : String) (payload : Fields)
      → Reaches db (append_attempt_event clock id token type payload db)
  unfolding append_attempt_event
  append_attempt_event-Reaches token type payload =
      Ensures-bind _ _ λ _ _. append_event-Reaches id type payload _ here

  pub append_control_plane_event-Reaches :
      (tenant : ℕ) (type : String) (payload : Fields)
      → Reaches db (append_control_plane_event clock id tenant type payload db)
  unfolding append_control_plane_event
  append_control_plane_event-Reaches tenant type payload =
      Ensures-bind _ _ λ _ _. Ensures-bind _ _ λ _ _. append_event-Reaches id type payload _ here
