-- ===== src/RunStore/Events.antt =====
-- `_append_event_with_connection`, `list_events` and `list_events_for_tenant`.
use Prim.Native.Nat.{max}
use agent_runtime_platform.Base.{
  ℕ, suc, String, ◌&&◌, List, [], ◌∷◌, ◌==◌, ltb, is_null, if◌then◌else◌, any,
}
use agent_runtime_platform.Contracts.{Fields}
use agent_runtime_platform.Models.{RunEvent}
use agent_runtime_platform.RunStore.{Database, Result, ok, err, integrity_error, find_run}

-- SELECT COALESCE(MAX(sequence), 0) FROM run_events WHERE run_id = ?
unfoldable pub max_sequence : ℕ → List RunEvent → ℕ
max_sequence run_id [] = 0
max_sequence run_id (e ∷ es) =
    let rest = max_sequence run_id es in if e.run_id == run_id then max e.sequence rest else rest

-- The foreign key and UNIQUE(run_id, sequence) of table `run_events`.
unfoldable pub insert_event : RunEvent → Database → Result (Database × RunEvent)
insert_event event db =
    if is_null (find_run event.run_id db.runs)
    then err integrity_error
    else if any (λ e. e.run_id == event.run_id && e.sequence == event.sequence) db.run_events
    then err integrity_error
    else ok
        (record db { run_events = event ∷ db.run_events; last_event_id = event.event_id }, event)

unfoldable pub append_event : ℕ → String → Fields → ℕ → Database → Result (Database × RunEvent)
unfolding insert_event max_sequence
append_event run_id event_type payload created_at db =
    insert_event
      (record {
        event_id = suc db.last_event_id;
        run_id = run_id;
        sequence = suc (max_sequence run_id db.run_events);
        event_type = event_type;
        payload = payload;
        created_at = created_at;
      })
      db

-- ORDER BY sequence
unfoldable pub insert_by_sequence : RunEvent → List RunEvent → List RunEvent
insert_by_sequence e [] = e ∷ []
insert_by_sequence e (x ∷ xs) =
    if ltb e.sequence x.sequence then e ∷ x ∷ xs else x ∷ insert_by_sequence e xs

-- SELECT * FROM run_events WHERE run_id = ? AND sequence > ? ORDER BY sequence
unfoldable pub list_events : ℕ → ℕ → List RunEvent → List RunEvent
unfolding insert_by_sequence
list_events run_id after_sequence [] = []
list_events run_id after_sequence (e ∷ es) =
    let rest = list_events run_id after_sequence es in
    if e.run_id == run_id && ltb after_sequence e.sequence then insert_by_sequence e rest else rest
