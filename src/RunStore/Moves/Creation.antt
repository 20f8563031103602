-- ===== src/RunStore/Moves/Creation.antt =====
-- Creating a run is a sequence of moves.
use agent_runtime_platform.Base.{
  String, true, Option, none, some, ◌∷◌, ◌∙◌, ◌≡◌, refl, sym, subst, inr, arith, some-inj,
}
use agent_runtime_platform.Base.Table
use agent_runtime_platform.Base.Table.{number_key}
use agent_runtime_platform.Contracts.{Fields, BaseRuntimeState}
use agent_runtime_platform.Models.{RunRecord}
use agent_runtime_platform.RunStore.{Database, Clock, ok, run_key, find_run}
use agent_runtime_platform.RunStore.Create.{
  create_run, create_run_with_event, insert_run, prepare_client_state_seed, seed_state, seed_base,
  is_new_queued_run,
}
use agent_runtime_platform.RunStore.Cancel.{tables_after}
use agent_runtime_platform.RunStore.Moves.{Move, Moves, here, next, inserts, RowMove, Reaches}
use agent_runtime_platform.RunStore.Moves.Rules.{
  Ensures-bind, Ensures-ok, Ensures-guard, Moves-trans, update_run-Moves, then_logs,
}
use agent_runtime_platform.RunStore.Moves.Rows.{stays_open}

insert_run-Move :
    (run : RunRecord) (db : Database) {d : Database}
    → is_new_queued_run run ≡ true
    → insert_run run db ≡ ok d
    → Move db d
unfolding insert_run
insert_run-Move run db fresh h = inserts run fresh (ground arith) (ground arith) (ground arith)

seed-RowMove :
    (db : Database) (run r : RunRecord)
    → is_new_queued_run run ≡ true
    → r ≡ run
    → RowMove db r (record r { checkpoint_base_revision = some 0 })
unfolding is_new_queued_run
seed-RowMove db run r fresh e = record {
  same_run = refl;
  same_tenant = refl;
  status = stays_open r.status (ground arith);
  keeps = λ k. ground arith;
  same_thread = λ _. refl;
  base = λ _. inr (inr refl);
}

seed_base-Reaches :
    (db : Database) (run : RunRecord) (u : Option Database)
    → (d : Database) → Moves db (tables_after d u)
    → Reaches db (seed_base run u)
unfolding seed_base
seed_base-Reaches db run none d m = record { at = λ b q. absurd (cc) }
seed_base-Reaches db run (some d') d m = Ensures-ok _ m

found_new :
    (run : RunRecord) (db : Database) {d : Database}
    → insert_run run db ≡ ok d
    → find_run run.run_id d.runs ≡ some run
unfolding insert_run
found_new run db {d} h =
    let e : record db { runs = run ∷ db.runs } ≡ d = ground arith in
    subst (λ (t : Database). find_run run.run_id t.runs ≡ some run) e
      (Table.find-head run_key run db.runs)

seed_state-Reaches :
    (db d : Database) (run : RunRecord) (state : Option BaseRuntimeState)
    → is_new_queued_run run ≡ true
    → find_run run.run_id d.runs ≡ some run
    → Moves db d
    → Reaches db (seed_state state run d)
unfolding seed_state
seed_state-Reaches db d run none fresh e m = Ensures-ok _ m
seed_state-Reaches db d run (some s) fresh e m = Ensures-bind _ _ λ _ _. Ensures-bind _ _ λ u h.
    seed_base-Reaches db run u d (
      Moves-trans m (
        update_run-Moves run.run_id (λ r. true) _ d
          (λ r f _. seed-RowMove d run r fresh (some-inj (sym f ∙ e))) u h))

prepare-Reaches :
    (db d : Database) (run : RunRecord)
    → is_new_queued_run run ≡ true
    → insert_run run db ≡ ok d
    → Reaches db (prepare_client_state_seed run d)
unfolding prepare_client_state_seed
prepare-Reaches db d run fresh h =
    seed_state-Reaches db d run run.state fresh (found_new run db h)
      (next here (insert_run-Move run db fresh h))

pub create_run-Reaches : (run : RunRecord) (db : Database) → Reaches db (create_run run db)
unfolding create_run
create_run-Reaches run db =
    Ensures-guard _ _ _ λ fresh. Ensures-bind _ _ λ d h. prepare-Reaches db d run fresh h

pub create_run_with_event-Reaches :
    (clock : Clock) (run : RunRecord) (type : String) (payload : Fields) (db : Database)
    → Reaches db (create_run_with_event clock run type payload db)
unfolding create_run_with_event
create_run_with_event-Reaches clock run type payload db = Ensures-guard _ _ _ λ fresh.
    Ensures-bind _ _ λ _ _. Ensures-bind _ _ λ d h. Ensures-bind _ _ λ p s. Ensures-bind _ _ λ q l.
      Ensures-ok _
        (then_logs run.run_id type payload _ ((prepare-Reaches db d run fresh h).at p s) l)
