-- ===== src/Examples/RunStore.antt =====
-- The theorems on the run store at concrete runs and calls, and tests of its methods.
use agent_runtime_platform.Base.{
  ℕ, ◌≤◌, ◌-◌, Option, none, some, List, ◌∷◌, ◌++◌, ◌≡◌, ◌≢◌, refl, any,
}
use agent_runtime_platform.Base.Table
use agent_runtime_platform.Contracts.{revision_changed}
use agent_runtime_platform.Models.{RunRecord, RunEvent, completed, committed, checkpoint_conflict}
use agent_runtime_platform.RunStore.{
  Database, ok, empty, find_run, ◌>>=◌, thread_revision, breaks_index, update_run, clash,
  row_to_run,
}
use agent_runtime_platform.RunStore.Create.{
  other_nonterminal, create_run, create_run_with_event, insert_run, is_new_queued_run,
  prepare_client_state_seed,
}
use agent_runtime_platform.RunStore.Claim.{
  claim_next_run, is_claimable, may_start, start_attempt, recovery_reason_of,
}
use agent_runtime_platform.RunStore.Complete.{
  commit_completed_run, same_identity, schema_matches, finished_record,
}
use agent_runtime_platform.RunStore.Complete.Commit.{Ready, Completed, commit_completed_run-ok}
use agent_runtime_platform.RunStore.Complete.Conflicts.{commit_completed_run-conflict}
use agent_runtime_platform.RunStore.Claim.Serve.{Serves, claim_next_run-Serves}
use agent_runtime_platform.RunStore.Settle.{fail_with}
use agent_runtime_platform.RunStore.Conflict.{may_commit, checkpoint_conflict_code}
use agent_runtime_platform.RunStore.Outcome.{has_current_lease}
use agent_runtime_platform.RunStore.Events.{append_event, list_events, max_sequence}
use agent_runtime_platform.RunStore.Step.{run_calls, step, completes}
use agent_runtime_platform.RunStore.Moves.{Moves}
use agent_runtime_platform.RunStore.Moves.Steps.{step-Moves}
use agent_runtime_platform.RunStore.Invariant.{Inv}
use agent_runtime_platform.RunStore.Invariant.Keep.{run_calls-Inv}
use agent_runtime_platform.RunStore.Invariant.Serial.{run_calls-one_running, run_calls-one_request}
use agent_runtime_platform.RunStore.History.{
  run_calls-frozen, run_calls-Follows, run_calls-revision, Later,
}
use agent_runtime_platform.RunStore.History.Events.{
  list_events-run_calls, run_calls-events, sequences, range_from,
}
use agent_runtime_platform.RunStore.Fencing.{step_stale}
use agent_runtime_platform.Examples.{
  at, parse, travel_state, first_run, second_run, produced_run, produced_seed, submitted, started,
  finished, raced,
}

-- Opens every method, so that a test runs.
abbrev machine : Unit {0}
unfolding run_calls step other_nonterminal create_run create_run_with_event insert_run
    is_new_queued_run prepare_client_state_seed claim_next_run is_claimable may_start start_attempt
    recovery_reason_of commit_completed_run append_event update_run breaks_index clash
    thread_revision row_to_run list_events has_current_lease may_commit Table.find Table.set any
    ◌>>=◌
machine = tt

abbrev row_of : Option RunRecord → RunRecord
row_of none = first_run
row_of (some r) = r

-- The first run while its attempt runs, and when it has completed.
abbrev running_row : RunRecord
running_row = row_of (find_run 1 (run_calls empty started).runs)

abbrev done_row : RunRecord
done_row = row_of (find_run 1 (run_calls empty finished).runs)

running_row_found : find_run 1 (run_calls empty started).runs ≡ some running_row
unfolding machine
running_row_found = refl

done_row_found : find_run 1 (run_calls empty finished).runs ≡ some done_row
unfolding machine
done_row_found = refl

done_row_status : done_row.status ≡ completed
unfolding machine
done_row_status = refl

thread_after_completion : thread_revision (run_calls empty finished) 7 30 ≡ 1
unfolding machine
thread_after_completion = refl

run_calls-Inv_example : Inv (run_calls empty finished)
run_calls-Inv_example = run_calls-Inv finished

run_calls-one_running_example : ◌≡◌ {A = ℕ} 1 1
unfolding machine
run_calls-one_running_example =
    run_calls-one_running started 1 1 running_row running_row refl refl refl refl refl refl

run_calls-one_request_example : ◌≡◌ {A = ℕ} 1 1
unfolding machine
run_calls-one_request_example =
    run_calls-one_request started 1 1 5 running_row running_row refl refl refl refl refl

step-Moves_example :
    Moves
      (run_calls empty started)
      (step (run_calls empty started) (at 2000, completes produced_run 77))
step-Moves_example = step-Moves (run_calls empty started) (at 2000, completes produced_run 77)

run_calls-frozen_example :
    find_run 1 (run_calls (run_calls empty finished) started).runs ≡ some done_row
unfolding machine
run_calls-frozen_example = run_calls-frozen (run_calls empty finished) started 1 done_row refl refl

run_calls-Follows_example :
    (row : RunRecord) × (find_run 1 (run_calls (run_calls empty started) finished).runs ≡ some row)
    × (row.tenant_id ≡ running_row.tenant_id)
    × Later running_row.status row.status
run_calls-Follows_example =
    run_calls-Follows (run_calls empty started) finished 1 running_row running_row_found

run_calls-revision_example :
    thread_revision (run_calls empty started) 7 30
    ≤ thread_revision (run_calls (run_calls empty started) finished) 7 30
run_calls-revision_example = run_calls-revision (run_calls empty started) finished 7 30

list_events-run_calls_example :
    sequences (list_events 1 2 (run_calls empty finished).run_events)
    ≡ range_from 3 (max_sequence 1 (run_calls empty finished).run_events - 2)
list_events-run_calls_example = list_events-run_calls finished 1 2

run_calls-events_example :
    (new : List RunEvent) × ((run_calls (run_calls empty started) finished).run_events
      ≡ new ++ (run_calls empty started).run_events)
run_calls-events_example = run_calls-events (run_calls empty started) finished

-- The lease of 30 seconds has run out.
step_stale_example :
    step (run_calls empty started) (at 40000, completes produced_run 77) ≡ run_calls empty started
unfolding machine
step_stale_example =
    step_stale (run_calls empty started) (at 40000) (completes produced_run 77) 1 77 running_row
      refl refl refl

ready : Ready (at 2000) produced_run 77 (run_calls empty started) running_row travel_state
unfolding machine same_identity schema_matches
ready = record {
  found = refl;
  tenant = refl;
  owned = refl;
  produced = refl;
  current = refl;
  run_identity = refl;
  state_identity = refl;
  schema = refl;
}

commit_completed_run-ok_example :
    (db' : Database) × (commit_completed_run (at 2000) produced_run 77 (run_calls empty started)
      ≡ ok (db', (committed, finished_record (at 2000) produced_run)))
    × Completed (at 2000) produced_run (run_calls empty started) running_row travel_state db'
commit_completed_run-ok_example =
    commit_completed_run-ok (at 2000) produced_run 77 (run_calls empty started) running_row
      travel_state (run_calls-Inv started) ready

claim_next_run-Serves_example :
    Serves
      (at 1000)
      9
      77
      30
      none
      (run_calls empty submitted)
      (claim_next_run parse (at 1000) 9 77 30 none (run_calls empty submitted))
unfolding machine
claim_next_run-Serves_example =
    claim_next_run-Serves parse (at 1000) 9 77 30 none (run_calls empty submitted) (λ d s x. refl)
      (run_calls-Inv submitted) refl refl 2 second_run refl refl

-- The run that seeds its thread, after another run of the thread was served before it.
abbrev raced_row : RunRecord
raced_row = row_of (find_run 3 (run_calls empty raced).runs)

commit_completed_run-conflict_example :
    (db' : Database) × (commit_completed_run (at 4000) produced_seed 78 (run_calls empty raced)
      ≡ ok (
        db',
        (
          checkpoint_conflict,
          fail_with (at 4000) checkpoint_conflict_code (revision_changed (some 0) 1) produced_seed,
        ),
      ))
    × (db'.thread_states ≡ (run_calls empty raced).thread_states)
    × (find_run 3 db'.runs
        ≡ some
            (fail_with (at 4000) checkpoint_conflict_code (revision_changed (some 0) 1) raced_row))
    × ((j : ℕ) → j ≢ 3 → find_run j db'.runs ≡ find_run j (run_calls empty raced).runs)
    × ((failure : RunEvent) × (conflict : RunEvent) × (db'.run_events
          ≡ failure ∷ conflict ∷ (run_calls empty raced).run_events)
        × (conflict.event_type ≡ "checkpoint.conflict")
        × (failure.event_type ≡ "run.failed"))
unfolding machine
commit_completed_run-conflict_example =
    commit_completed_run-conflict (at 4000) produced_seed 78 (run_calls empty raced) raced_row refl
      refl refl (run_calls-Inv raced) travel_state refl refl
