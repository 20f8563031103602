-- ===== src/Examples.antt =====
-- Test data: two runs of one thread, and the calls of two managers on them.
pub mod RunStore
pub mod Workflow
pub mod Actions
pub mod Graphs
pub mod Quarantines
use agent_runtime_platform.Base.{ℕ, true, false, Option, none, some, List, [], ◌∷◌}
use agent_runtime_platform.Contracts.{BaseRuntimeState, Json, null, literal}
use agent_runtime_platform.Models.{RunRecord, queued}
use agent_runtime_platform.RunStore.{Database, Clock, ParseState, empty}
use agent_runtime_platform.RunStore.Step.{
  Call, creates, creates_with_event, claims, completes, run_calls,
}

abbrev pub at : ℕ → Clock
at n = record { now_ms = n; utc_now = n }

abbrev pub travel_state : BaseRuntimeState
travel_state = record {
  domain_id = "travel";
  schema_version = "1";
  thread_id = 30;
  execution_trace = [];
  fields = [];
}

abbrev pub first_run : RunRecord
first_run = record {
  run_id = 1;
  tenant_id = 7;
  thread_id = 30;
  agent_id = "travel-agent";
  agent_version = "0.3.0";
  domain_id = "travel";
  schema_version = "1";
  status = queued;
  input = [];
  state = none;
  output_message = none;
  validation_errors = [];
  error_code = none;
  error = none;
  execution_authority = none;
  attempt = 0;
  cancel_requested = false;
  client_request_id = some 5;
  created_at = 100;
  updated_at = 100;
  started_at = none;
  completed_at = none;
  lease_owner_id = none;
  lease_token = none;
  lease_heartbeat_at = none;
  lease_expires_at = none;
  checkpoint_base_revision = none;
}

abbrev pub second_run : RunRecord
second_run = record first_run { run_id = 2; created_at = 101; client_request_id = none }

abbrev pub parse : ParseState
parse domain schema state = some state

-- The first run as its attempt hands it to the commit.
abbrev pub produced_run : RunRecord
produced_run = record first_run { state = some travel_state; output_message = some "done" }

abbrev pub submitted : List (Clock × Call)
submitted = (at 1, creates_with_event first_run "run.queued" []) ∷ (at 2, creates second_run) ∷ []

abbrev pub started : List (Clock × Call)
started =
    (at 1, creates_with_event first_run "run.queued" [])
    ∷ (at 2, creates second_run)
    ∷ (at 1000, claims parse 9 77 30 none)
    ∷ []

abbrev pub finished : List (Clock × Call)
finished =
    (at 1, creates_with_event first_run "run.queued" [])
    ∷ (at 2, creates second_run)
    ∷ (at 1000, claims parse 9 77 30 none)
    ∷ (at 2000, completes produced_run 77)
    ∷ []

-- A run that brings the first state of its thread, and another run of the thread with an earlier
-- creation time, which is served first.
abbrev pub seed_run : RunRecord
seed_run = record first_run { run_id = 3; state = some travel_state; client_request_id = none }

abbrev pub early_run : RunRecord
early_run = record seed_run { run_id = 4; state = none; created_at = 50 }

abbrev pub produced_seed : RunRecord
produced_seed = record seed_run { checkpoint_base_revision = some 0 }

abbrev pub raced : List (Clock × Call)
raced =
    (at 1, creates seed_run)
    ∷ (at 2, creates early_run)
    ∷ (at 1000, claims parse 9 77 30 none)
    ∷ (at 2000, completes (record early_run { state = some travel_state }) 77)
    ∷ (at 3000, claims parse 9 78 30 none)
    ∷ []
