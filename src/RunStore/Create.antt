-- ===== src/RunStore/Create.antt =====
-- `create_run`, `create_run_with_event`, `_assert_new_queued_run`, `_insert_run_with_connection`
-- and `_prepare_client_state_seed`.
use agent_runtime_platform.Base.{
  String, Bool, true, false, not, ◌&&◌, ◌||◌, Option, none, some, List, [], ◌∷◌, ◌==◌, is_null,
  if◌then◌else◌, any, str_eq,
}
use agent_runtime_platform.Base.Table.{number_key}
use agent_runtime_platform.Contracts.{BaseRuntimeState, Fields}
use agent_runtime_platform.Models.{RunRecord, is_queued, is_running}
use agent_runtime_platform.RunStore.{
  Database, Clock, Result, ok, err, ◌>>=◌, ◌>>◌, guard, value_error, integrity_error,
  thread_state_conflict, runtime_error, find_run, find_checkpoint, breaks_index, update_run,
}
use agent_runtime_platform.RunStore.Events.{append_event}

abbrev no_errors : List String → Bool
no_errors [] = true
no_errors (e ∷ es) = false

-- The condition under which `_assert_new_queued_run` does not raise.
unfoldable pub is_new_queued_run : RunRecord → Bool
is_new_queued_run run =
    is_queued run.status
    && run.attempt == 0
    && not run.cancel_requested
    && is_null run.started_at
    && is_null run.completed_at
    && is_null run.output_message
    && no_errors run.validation_errors
    && is_null run.error_code
    && is_null run.error
    && is_null run.checkpoint_base_revision
    && is_null run.lease_owner_id
    && is_null run.lease_token
    && is_null run.lease_heartbeat_at
    && is_null run.lease_expires_at

-- INSERT INTO runs: the primary key and the unique indexes.
unfoldable pub insert_run : RunRecord → Database → Result Database
insert_run run db =
    if is_null (find_run run.run_id db.runs)
    then (if breaks_index db.runs run
        then err integrity_error
        else ok (record db { runs = run ∷ db.runs }))
    else err integrity_error

-- Another queued or running run of the thread.
unfoldable pub other_nonterminal : RunRecord → RunRecord → Bool
other_nonterminal run r =
    r.tenant_id == run.tenant_id
    && r.thread_id == run.thread_id
    && not (r.run_id == run.run_id)
    && (is_queued r.status || is_running r.status)

unfoldable pub seed_base : RunRecord → Option Database → Result (Database × RunRecord)
seed_base run none = err runtime_error
seed_base run (some db) = ok (db, record run { checkpoint_base_revision = some 0 })

unfoldable pub seed_state :
    Option BaseRuntimeState → RunRecord → Database → Result (Database × RunRecord)
unfolding seed_base
seed_state none run db = ok (db, run)
seed_state (some state) run db = do
  guard
      (is_null (find_checkpoint (run.tenant_id, run.thread_id) db.thread_states)
        && not (any (other_nonterminal run) db.runs))
      thread_state_conflict
  updated ←
      update_run run.run_id (λ r. true) (λ r. record r { checkpoint_base_revision = some 0 }) db
  seed_base run updated

unfoldable pub prepare_client_state_seed : RunRecord → Database → Result (Database × RunRecord)
unfolding seed_state
prepare_client_state_seed run db = seed_state run.state run db

-- The run is returned as the method leaves it.
unfoldable pub create_run : RunRecord → Database → Result (Database × RunRecord)
create_run run db = do
  guard (is_new_queued_run run) value_error
  inserted ← insert_run run db
  prepare_client_state_seed run inserted

unfoldable pub create_run_with_event :
    Clock → RunRecord → String → Fields → Database → Result (Database × RunRecord)
create_run_with_event clock run event_type payload db = do
  guard (is_new_queued_run run) value_error
  guard (str_eq event_type "run.queued") value_error
  inserted ← insert_run run db
  seeded ← prepare_client_state_seed run inserted
  logged ← append_event run.run_id event_type payload clock.utc_now seeded.0
  ok (logged.0, seeded.1)
