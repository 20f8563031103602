-- ===== src/Examples/Quarantines.antt =====
-- A run whose checkpoint has drifted while its external action was under way: it is quarantined, an
-- operator resolves it.
pub mod Shared
use agent_runtime_platform.Base.{
  true, Option, none, some, List, [], ◌∷◌, ◌≡◌, refl, any, ◌+◌, length, select, all, sort_by,
  insert_by,
}
use agent_runtime_platform.Base.Table
use agent_runtime_platform.Models.{RunRecord}
use agent_runtime_platform.RunStore.{
  Clock, ok, ◌>>=◌, find_run, thread_revision, breaks_index, clash, update_run, row_to_run,
}
use agent_runtime_platform.RunStore.Cancel.{of_tenant}
use agent_runtime_platform.RunStore.Events.{append_event, max_sequence}
use agent_runtime_platform.RunStore.Create.{
  create_run, insert_run, is_new_queued_run, prepare_client_state_seed, other_nonterminal,
}
use agent_runtime_platform.RunStore.Claim.{
  claim_next_run, is_claimable, may_start, start_attempt, recovery_reason_of,
}
use agent_runtime_platform.RunStore.Complete.{commit_completed_run}
use agent_runtime_platform.RunStore.Conflict.{
  may_commit, quarantine_checkpoint_conflict, quarantine_with,
}
use agent_runtime_platform.RunStore.Outcome.{has_current_lease}
use agent_runtime_platform.RunStore.Lease.{holds_lease}
use agent_runtime_platform.RunStore.Step.{creates, claims, completes, quarantines, step}
use agent_runtime_platform.Workflow.{
  has_authority, assert_run_lease, append_workflow_event, lease_is_current, managed_run,
}
use agent_runtime_platform.Workflow.Calls as W
use agent_runtime_platform.Workflow.Executions.{
  create_or_get_execution, mark_running, change_execution, start_execution,
}
use agent_runtime_platform.Workflow.Steps.{
  claim_step, claim_on_row, claim_fresh, fresh_step, holds_attempt, finish_step, StepIdentity,
}
use agent_runtime_platform.Workflow.Actions.{
  prepare_external_action, prepare_for, prepare_for_step, prepare_on_row, prepared_action,
  is_complete_identity, owns_action, run_row, assert_tool_attempt,
}
use agent_runtime_platform.Workflow.Actions.Dispatch.{
  begin_external_action_dispatch, begin_on_row, begin_for_run, write_dispatch, dispatch_action,
}
use agent_runtime_platform.Workflow.Actions.Ending.{check_ending}
use agent_runtime_platform.Workflow.Actions.Finalize.{
  finalize_external_action, finalize_action_on_row, finalize_open, write_ending, end_action,
  by_provider,
}
use agent_runtime_platform.Platform.{Platform}
use agent_runtime_platform.Platform.Calls.{
  PlatformCall, run_call, workflow_call, empty_platform, platform_step, platform_calls,
}
use agent_runtime_platform.Platform.Keep.{platform_calls-Inv}
use agent_runtime_platform.Quarantine.{run_target, terminalize_failed_preserving_checkpoint}
use agent_runtime_platform.Quarantine.Evidence.{
  Digests, evidence_is_consistent, action_is_consistent, identity_is_consistent, row_is_consistent,
  action_event_is_consistent, step_event_is_consistent, ends_action, ends_step, get,
}
use agent_runtime_platform.Quarantine.Derive.{
  is_quarantined, lease_cleared, event_mismatches, reconciliation_required, summary_of,
  count_status, has_status, evidence_of, events_of, last_conflict, is_quarantine_event,
  observed_revision, material_of,
}
use agent_runtime_platform.Quarantine.Apply.{
  Application, apply_quarantine_resolution, matching_resolution_events,
  matching_resolution_failed_events, names_plan,
}
use agent_runtime_platform.Quarantine.Verify.{verify_quarantine_resolution}
use agent_runtime_platform.Quarantine.Fresh.{
  Eligible, apply_eligible, resolved_database, first_commit, current_hash,
}
use agent_runtime_platform.Quarantine.Needs.{apply-IsWarranted, IsWarranted}
use agent_runtime_platform.Quarantine.Again.{after_first, reused_commit}
use agent_runtime_platform.Quarantine.Confirmed.{apply_again}
use agent_runtime_platform.Examples.{at, parse, travel_state, seed_run, early_run}
use agent_runtime_platform.Examples.Actions.{texts, refund, refund_step, paid}

-- Opens every method, so that a test runs.
abbrev pub opened : Unit {0}
unfolding platform_calls platform_step step other_nonterminal create_run insert_run
    is_new_queued_run prepare_client_state_seed claim_next_run is_claimable may_start start_attempt
    recovery_reason_of commit_completed_run append_event update_run breaks_index clash
    thread_revision row_to_run has_current_lease may_commit quarantine_checkpoint_conflict
    quarantine_with W.workflow_step create_or_get_execution mark_running change_execution
    start_execution claim_step claim_on_row claim_fresh fresh_step append_workflow_event
    has_authority assert_run_lease managed_run lease_is_current max_sequence holds_lease
    prepare_external_action prepare_for prepare_for_step prepare_on_row prepared_action
    is_complete_identity owns_action run_row assert_tool_attempt begin_external_action_dispatch
    begin_on_row begin_for_run write_dispatch dispatch_action finalize_external_action
    finalize_action_on_row finalize_open write_ending end_action check_ending holds_attempt
    finish_step Table.find Table.set any ◌>>=◌
opened = tt

-- A run that brings the first state of its thread and is served after another run of the thread.
abbrev paying_run : RunRecord
paying_run = record seed_run {
  execution_authority = some (record { tenant_id = 7; subject_id = 3; permissions = [] });
}

abbrev pay_step : StepIdentity
pay_step = record refund_step { run_id = 3 }

abbrev pub quarantining : List (Clock × PlatformCall)
quarantining =
    (at 1, run_call (creates paying_run))
    ∷ (at 2, run_call (creates early_run))
    ∷ (at 1000, run_call (claims parse 9 77 30 none))
    ∷ (at 2000, run_call (completes (record early_run { state = some travel_state }) 77))
    ∷ (at 3000, run_call (claims parse 9 78 30 none))
    ∷ (at 3001, workflow_call (some 78) (W.creates 3 "review" 7))
    ∷ (at 3002, workflow_call (some 78) (W.starts 3))
    ∷ (at 3003, workflow_call (some 78) (W.claims 50 60 2 pay_step))
    ∷ (at 3004, workflow_call (some 78) (W.prepares texts 70 (3, 10) 60 refund))
    ∷ (at 3005, workflow_call (some 78) (W.dispatches (3, 10) 60 80))
    ∷ (at 3006, workflow_call none (W.finalizes by_provider texts (3, 10) 80 60 paid))
    ∷ (at 3007, run_call (quarantines paying_run 78 "completion"))
    ∷ []

abbrev pub quarantined : Platform
quarantined = platform_calls empty_platform quarantining

abbrev pub row_of : Option RunRecord → RunRecord
row_of none = paying_run
row_of (some r) = r

abbrev quarantined_run : RunRecord
quarantined_run = row_of (find_run 3 quarantined.database.runs)

quarantined_run_found : of_tenant 7 (find_run 3 quarantined.database.runs) ≡ some quarantined_run
unfolding opened
quarantined_run_found = refl

quarantined_run_code :
    quarantined_run.error_code ≡ some "thread_checkpoint_conflict_reconciliation_pending"
unfolding opened
quarantined_run_code = refl

-- Digests that tell a revision and a number of rows.
abbrev pub digests : Digests
digests = record {
  is_json_object = λ t. true;
  workflow_evidence = λ execution steps actions events. length events;
  checkpoint_evidence = λ revision state. revision;
  plan_hash = λ m. m.revision + 90;
}

abbrev pub resolution : Application
resolution = record {
  run_id = 3;
  tenant_id = 7;
  target = run_target 3;
  resolution = terminalize_failed_preserving_checkpoint;
  expected_plan_id = 91;
  operator_subject_id = 5;
  operator_credential_id = 6;
}

is_eligible : Eligible digests resolution quarantined_run quarantined
unfolding opened evidence_is_consistent action_is_consistent identity_is_consistent
    row_is_consistent action_event_is_consistent step_event_is_consistent ends_action ends_step get
    is_quarantined lease_cleared event_mismatches reconciliation_required summary_of count_status
    has_status evidence_of events_of last_conflict is_quarantine_event observed_revision select all
    sort_by insert_by
is_eligible = record {
  quarantined = refl;
  unleased = refl;
  told = refl;
  matches = refl;
  drifted = refl;
  executed = refl;
  acted = refl;
  settled = refl;
  consistent = refl;
}

none_applied : matching_resolution_events 3 91 quarantined.database.run_events ≡ []
unfolding opened matching_resolution_events names_plan get events_of select sort_by insert_by
none_applied = refl

none_failed : matching_resolution_failed_events 3 91 quarantined.database.run_events ≡ []
unfolding opened matching_resolution_failed_events names_plan get events_of select sort_by insert_by
none_failed = refl

named : 91 ≡ current_hash digests resolution quarantined_run quarantined
unfolding opened observed_revision material_of
named = refl

abbrev resolved : Platform
resolved = record quarantined {
  database = resolved_database digests resolution quarantined_run quarantined (at 5000);
}

applied :
    apply_quarantine_resolution digests (at 5000) resolution quarantined
    ≡ ok (
      record quarantined {
        database = resolved_database digests resolution quarantined_run quarantined (at 5000);
      },
      first_commit digests resolution quarantined_run quarantined,
    )
applied =
    apply_eligible digests (at 5000) resolution quarantined_run quarantined
      (platform_calls-Inv quarantining).0 refl none_applied quarantined_run_found is_eligible named

apply_eligible_example :
    apply_quarantine_resolution digests (at 5000) resolution quarantined
    ≡ ok (
      record quarantined {
        database = resolved_database digests resolution quarantined_run quarantined (at 5000);
      },
      first_commit digests resolution quarantined_run quarantined,
    )
apply_eligible_example =
    apply_eligible digests (at 5000) resolution quarantined_run quarantined
      (platform_calls-Inv quarantining).0 refl none_applied quarantined_run_found is_eligible named

apply-IsWarranted_example : IsWarranted digests resolution quarantined (record quarantined {
  database = resolved_database digests resolution quarantined_run quarantined (at 5000);
})
apply-IsWarranted_example =
    apply-IsWarranted digests (at 5000) resolution quarantined
      (record quarantined {
        database = resolved_database digests resolution quarantined_run quarantined (at 5000);
      })
      (first_commit digests resolution quarantined_run quarantined) applied refl

apply_again_example :
    (apply_quarantine_resolution digests (at 6000) resolution resolved
      ≡ ok (
        resolved,
        record (first_commit digests resolution quarantined_run quarantined) { reused = true },
      ))
    × (verify_quarantine_resolution digests
          (record (first_commit digests resolution quarantined_run quarantined) { reused = true })
          resolved
        ≡ ok tt)
apply_again_example =
    apply_again digests (at 5000) (at 6000) resolution quarantined resolved
      (first_commit digests resolution quarantined_run quarantined)
      (platform_calls-Inv quarantining).0 none_failed applied refl
