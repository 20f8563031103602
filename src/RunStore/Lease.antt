-- ===== src/RunStore/Lease.antt =====
-- `renew_run_lease`, `expire_run_lease`, `assert_current_run_lease`, `append_attempt_event`,
-- `append_event` and `append_control_plane_event`.
use agent_runtime_platform.Base.{
  ℕ, ◌+◌, ◌*◌, String, Bool, true, false, not, ◌&&◌, ◌||◌, Option, none, some, ◌==◌, ltb,
  holds_number, above, str_eq,
}
use agent_runtime_platform.Contracts.{Fields}
use agent_runtime_platform.Models.{RunRecord, RunEvent, is_running}
use agent_runtime_platform.RunStore.{
  Database, Clock, Result, ok, err, ◌>>=◌, ◌>>◌, guard, value_error, run_not_found, lease_is_lost,
  update_run, find_run,
}
use agent_runtime_platform.RunStore.Events.{append_event}

-- `cursor.rowcount == 1`, with the tables that the statement leaves.
abbrev pub changed : Database → Option Database → Result (Database × Bool)
changed db none = ok (db, false)
changed db (some updated) = ok (updated, true)

-- status = 'running' AND lease_token = ?
unfoldable pub runs_under : ℕ → RunRecord → Bool
runs_under token r = is_running r.status && holds_number r.lease_token token

-- ... AND lease_expires_at > ?
unfoldable pub holds_lease : ℕ → ℕ → RunRecord → Bool
unfolding runs_under
holds_lease token now r = runs_under token r && above r.lease_expires_at now

-- An empty token is 0.
unfoldable pub renew_run_lease : Clock → ℕ → ℕ → ℕ → Database → Result (Database × Bool)
renew_run_lease clock run_id token seconds db = do
  guard (not (token == 0)) value_error
  guard (ltb 0 seconds) value_error
  updated ←
      update_run run_id (holds_lease token clock.now_ms)
        (λ r. record r {
          lease_heartbeat_at = some clock.now_ms;
          lease_expires_at = some (clock.now_ms + seconds * 1000);
          updated_at = clock.utc_now;
        })
        db
  changed db updated

unfoldable pub expire_run_lease : Clock → ℕ → ℕ → Database → Result (Database × Bool)
expire_run_lease clock run_id token db = do
  guard (not (token == 0)) value_error
  updated ←
      update_run run_id (runs_under token)
        (λ r. record r {
          lease_heartbeat_at = some clock.now_ms;
          lease_expires_at = some clock.now_ms;
          updated_at = clock.utc_now;
        })
        db
  changed db updated

current_row : ℕ → ℕ → Option RunRecord → Bool
unfolding holds_lease
current_row token now none = false
current_row token now (some r) = holds_lease token now r

unfoldable pub assert_current_run_lease : Clock → ℕ → Option ℕ → Database → Result (Unit {0})
unfolding current_row
assert_current_run_lease clock run_id none db = err lease_is_lost
assert_current_run_lease clock run_id (some token) db =
    guard (current_row token clock.now_ms (find_run run_id db.runs)) lease_is_lost

unfoldable pub append_attempt_event :
    Clock → ℕ → Option ℕ → String → Fields → Database → Result (Database × RunEvent)
append_attempt_event clock run_id token event_type payload db = do
  assert_current_run_lease clock run_id token db
  append_event run_id event_type payload clock.utc_now db

-- `SQLiteRunStore.append_event`
unfoldable pub append_unfenced_event : ℕ → String → Fields → Database → Result (Database × RunEvent)
append_unfenced_event run_id event_type payload db = err lease_is_lost

-- `_CONTROL_PLANE_EVENT_TYPES`
unfoldable pub is_control_plane_event : String → Bool
is_control_plane_event t =
    str_eq t "sandbox.execution_started" || str_eq t "sandbox.execution_finished"

abbrev pub in_tenant : ℕ → Option RunRecord → Bool
in_tenant tenant none = false
in_tenant tenant (some r) = r.tenant_id == tenant

unfoldable pub append_control_plane_event :
    Clock → ℕ → ℕ → String → Fields → Database → Result (Database × RunEvent)
unfolding is_control_plane_event
append_control_plane_event clock run_id tenant event_type payload db = do
  guard (is_control_plane_event event_type) value_error
  guard (in_tenant tenant (find_run run_id db.runs)) run_not_found
  append_event run_id event_type payload clock.utc_now db
