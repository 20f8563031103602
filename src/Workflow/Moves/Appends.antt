-- ===== src/Workflow/Moves/Appends.antt =====
-- An event that a method appends is a move.
use agent_runtime_platform.Base.{ℕ, suc, String, false, ◌≡◌, refl, is_null, arith}
use agent_runtime_platform.Contracts.{Fields}
use agent_runtime_platform.RunStore.{ok}
use agent_runtime_platform.RunStore.Events.{max_sequence}
use agent_runtime_platform.Workflow.{Ledger, find_execution, append_workflow_event}
use agent_runtime_platform.Workflow.Moves.{LedgerMove, LedgerMoves, here, next, appends}

pub append-Move :
    (n id : ℕ) (type : String) (payload : Fields) (at : ℕ) (db : Ledger) {d : Ledger}
    → append_workflow_event id type payload at db ≡ ok d
    → LedgerMove n db d
unfolding append_workflow_event
append-Move n id type payload at db {d} h =
    appends
      (record {
        event_id = suc db.last_event_id;
        run_id = id;
        sequence = suc (max_sequence id db.workflow_events);
        event_type = type;
        payload = payload;
        created_at = at;
      })
      (ground arith) refl (ground arith)

pub append-known :
    (id : ℕ) (type : String) (payload : Fields) (at : ℕ) (db : Ledger) {d : Ledger}
    → append_workflow_event id type payload at db ≡ ok d
    → is_null (find_execution id db.workflow_executions) ≡ false
unfolding append_workflow_event
append-known id type payload at db h = ground arith

-- A move and the event that tells of it.
pub then_appends :
    {n : ℕ} {db d : Ledger} (id : ℕ) (type : String) (payload : Fields) (at : ℕ) {d' : Ledger}
    → LedgerMove n db d
    → append_workflow_event id type payload at d ≡ ok d'
    → LedgerMoves n db d'
then_appends {n} {db} {d} id type payload at m h =
    next (next here m) (append-Move n id type payload at d h)

-- A further event behind other moves.
pub also_appends :
    {n : ℕ} {db d : Ledger} (id : ℕ) (type : String) (payload : Fields) (at : ℕ) {d' : Ledger}
    → LedgerMoves n db d
    → append_workflow_event id type payload at d ≡ ok d'
    → LedgerMoves n db d'
also_appends {n} {db} {d} id type payload at m h = next m (append-Move n id type payload at d h)
