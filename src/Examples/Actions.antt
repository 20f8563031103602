-- ===== src/Examples/Actions.antt =====
-- The theorems on external actions at concrete tables and calls, and tests of the methods.
use agent_runtime_platform.Base.{
  ℕ, true, false, Option, none, some, List, [], ◌∷◌, ◌≡◌, ◌≢◌, refl, any,
}
use agent_runtime_platform.Base.Table
use agent_runtime_platform.Models.{RunRecord, running}
use agent_runtime_platform.RunStore.{ok, ◌>>=◌}
use agent_runtime_platform.RunStore.Events.{max_sequence}
use agent_runtime_platform.RunStore.Lease.{holds_lease}
use agent_runtime_platform.Workflow.{
  Ledger, migrated, ExternalActionRecord, ActionIdentity, unsafe, succeeded, find_action,
  has_authority, assert_run_lease, append_workflow_event,
}
use agent_runtime_platform.Workflow.Executions.{
  create_or_get_execution, mark_running, change_execution, start_execution,
}
use agent_runtime_platform.Workflow.Steps.{
  StepIdentity, claim_step, claim_on_row, claim_fresh, fresh_step, holds_attempt, finish_step,
}
use agent_runtime_platform.Workflow.Actions.{
  Texts, prepare_external_action, prepare_for, prepare_for_step, prepare_on_row, prepared_action,
  is_complete_identity, owns_action, run_row, assert_tool_attempt,
}
use agent_runtime_platform.Workflow.Actions.Dispatch.{
  begin_external_action_dispatch, begin_on_row, begin_for_run, write_dispatch, dispatch_action,
}
use agent_runtime_platform.Workflow.Actions.Ending.{check_ending, Ending}
use agent_runtime_platform.Workflow.Actions.Finalize.{
  finalize_external_action, finalize_action_on_row, finalize_open, write_ending, end_action,
  by_provider, success,
}
use agent_runtime_platform.Workflow.Calls.{
  Context, WorkflowCall, creates, starts, claims, prepares, dispatches, redispatches, finalizes,
  workflow_step, workflow_calls, settled,
}
use agent_runtime_platform.Workflow.WellFormed.{no_ledger}
use agent_runtime_platform.Workflow.Grants.{workflow_calls-unsafe_once}
use agent_runtime_platform.Workflow.Grants.Counted.{grants}
use agent_runtime_platform.Workflow.Intents.{
  ActionLater, workflow_calls-ActionLater, begin_external_action_dispatch-cancelled,
}
use agent_runtime_platform.Workflow.Stale.{finalize_external_action-stale}
use agent_runtime_platform.Workflow.Endings.{finalize_external_action-again}
use agent_runtime_platform.Examples.{at, first_run}

-- Opens every method, so that a test runs.
abbrev actions_open : Unit {0}
unfolding workflow_calls workflow_step create_or_get_execution mark_running change_execution
    start_execution claim_step claim_on_row claim_fresh fresh_step append_workflow_event
    has_authority assert_run_lease max_sequence holds_lease prepare_external_action prepare_for
    prepare_for_step prepare_on_row prepared_action is_complete_identity owns_action run_row
    assert_tool_attempt begin_external_action_dispatch begin_on_row begin_for_run write_dispatch
    dispatch_action finalize_external_action finalize_action_on_row finalize_open write_ending
    end_action check_ending holds_attempt finish_step Table.find Table.set any ◌>>=◌
actions_open = tt

-- A library that leaves a text as it is, and accepts every code.
abbrev pub texts : Texts
texts = record { canonical = λ t. some t; is_machine_code = λ t. true }

abbrev leased_run : RunRecord
leased_run = record first_run {
  status = running;
  lease_owner_id = some 9;
  lease_token = some 77;
  lease_expires_at = some 90000;
  execution_authority = some (record { tenant_id = 7; subject_id = 3; permissions = [] });
}

abbrev cancelled_run : RunRecord
cancelled_run = record leased_run { cancel_requested = true }

abbrev leased : ℕ → Context
leased n = record { clock = at n; runs = migrated (leased_run ∷ []); lease_token = some 77 }

abbrev pub refund_step : StepIdentity
refund_step = record { run_id = 1; step_id = 10; tool_name = "refund"; input_hash = 4 }

abbrev pub refund : ActionIdentity
refund = record {
  tenant_id = 7;
  subject_id = 3;
  workflow_type = "review";
  tool_name = "refund";
  provider_name = "bank";
  provider_identity = "bank-1";
  input_hash = 4;
  arguments_json = "{}";
  retry_mode = unsafe;
  idempotency_key = 500;
}

abbrev preparing : List (Context × WorkflowCall)
preparing =
    (leased 1, creates 1 "review" 7)
    ∷ (leased 2, starts 1)
    ∷ (leased 3, claims 50 60 2 refund_step)
    ∷ (leased 4, prepares texts 70 (1, 10) 60 refund)
    ∷ []

abbrev sending : List (Context × WorkflowCall)
sending =
    (leased 1, creates 1 "review" 7)
    ∷ (leased 2, starts 1)
    ∷ (leased 3, claims 50 60 2 refund_step)
    ∷ (leased 4, prepares texts 70 (1, 10) 60 refund)
    ∷ (leased 5, dispatches (1, 10) 60 80)
    ∷ []

abbrev pub paid : Ending
paid = success "{}" "payment-1" none

abbrev paying : List (Context × WorkflowCall)
paying =
    (leased 1, creates 1 "review" 7)
    ∷ (leased 2, starts 1)
    ∷ (leased 3, claims 50 60 2 refund_step)
    ∷ (leased 4, prepares texts 70 (1, 10) 60 refund)
    ∷ (leased 5, dispatches (1, 10) 60 80)
    ∷ (leased 6, finalizes by_provider texts (1, 10) 80 60 paid)
    ∷ []

abbrev action_of : Option ExternalActionRecord → ExternalActionRecord
unfolding prepared_action
action_of none = prepared_action (at 0) 0 (0, 0) refund
action_of (some a) = a

abbrev ready_action : ExternalActionRecord
ready_action = action_of (find_action (1, 10) (workflow_calls no_ledger preparing).external_actions)

abbrev sent_action : ExternalActionRecord
sent_action = action_of (find_action (1, 10) (workflow_calls no_ledger sending).external_actions)

abbrev paid_action : ExternalActionRecord
paid_action = action_of (find_action (1, 10) (workflow_calls no_ledger paying).external_actions)

paid_action_status : paid_action.status ≡ succeeded
unfolding actions_open
paid_action_status = refl

workflow_calls-ActionLater_example :
    (v : ExternalActionRecord) × (find_action
        (1, 10)
        (workflow_calls (workflow_calls no_ledger paying) sending).external_actions
      ≡ some v)
    × ActionLater paid_action v
unfolding actions_open
workflow_calls-ActionLater_example =
    workflow_calls-ActionLater (workflow_calls no_ledger paying) sending (1, 10) paid_action refl

-- The process that takes over tries to send the refund again, in both ways.
workflow_calls-unsafe_once_example :
    grants
      (leased 9, redispatches (1, 10) 80 60 82)
      (1, 10)
      (workflow_calls
        (workflow_step (workflow_calls no_ledger preparing) (leased 5, dispatches (1, 10) 60 80))
        ((leased 8, dispatches (1, 10) 60 81) ∷ []))
    ≡ false
unfolding actions_open
workflow_calls-unsafe_once_example =
    workflow_calls-unsafe_once preparing ((leased 8, dispatches (1, 10) 60 81) ∷ [])
      (leased 5, dispatches (1, 10) 60 80) (leased 9, redispatches (1, 10) 80 60 82) (1, 10)
      ready_action refl refl refl

begin_external_action_dispatch-cancelled_example :
    settled (workflow_calls no_ledger preparing) (
      begin_external_action_dispatch
        (at 5)
        (migrated (cancelled_run ∷ []))
        (some 77)
        (1, 10)
        60
        80
        (workflow_calls no_ledger preparing))
    ≡ workflow_calls no_ledger preparing
unfolding actions_open
begin_external_action_dispatch-cancelled_example =
    begin_external_action_dispatch-cancelled (at 5) (cancelled_run ∷ []) (1, 10) 60 80 cancelled_run
      refl refl (workflow_calls no_ledger preparing) (some 77)

finalize_external_action-stale_example :
    ((p : Ledger × ExternalActionRecord)
      → finalize_external_action by_provider texts
          (at 6)
          (migrated (leased_run ∷ []))
          none
          (1, 10)
          81
          60
          paid
          (workflow_calls no_ledger sending)
        ≢ ok p)
    × (settled (workflow_calls no_ledger sending) (
          finalize_external_action by_provider texts
            (at 6)
            (migrated (leased_run ∷ []))
            none
            (1, 10)
            81
            60
            paid
            (workflow_calls no_ledger sending))
        ≡ workflow_calls no_ledger sending)
unfolding actions_open
finalize_external_action-stale_example =
    finalize_external_action-stale (workflow_calls no_ledger sending) (1, 10) 81 60 paid sent_action
      refl refl by_provider texts (at 6) (migrated (leased_run ∷ [])) none

-- The answer is delivered again after another claim of the step, which gets the result.
abbrev later_claim : List (Context × WorkflowCall)
later_claim = (leased 8, claims 51 61 2 refund_step) ∷ []

finalize_external_action-again_example :
    finalize_external_action by_provider texts
      (at 9)
      (migrated (leased_run ∷ []))
      (some 77)
      (1, 10)
      80
      60
      paid
      (workflow_calls (workflow_calls no_ledger paying) later_claim)
    ≡ ok (workflow_calls (workflow_calls no_ledger paying) later_claim, paid_action)
unfolding actions_open
finalize_external_action-again_example =
    finalize_external_action-again by_provider texts (leased 6) (leased 9) (1, 10) 80 60 paid
      (workflow_calls no_ledger sending) (workflow_calls no_ledger paying, paid_action) later_claim
      refl refl refl
