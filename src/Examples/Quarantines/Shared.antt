-- ===== src/Examples/Quarantines/Shared.antt =====
-- A run is resolved, and nothing of it moves any more.
use agent_runtime_platform.Base.{
  some, List, [], ◌∷◌, ◌++◌, ◌≡◌, refl, ap, select, all, sort_by, insert_by,
}
use agent_runtime_platform.Models.{RunRecord, failed, is_terminal}
use agent_runtime_platform.RunStore.{Clock, find_run}
use agent_runtime_platform.RunStore.Invariant.{Inv}
use agent_runtime_platform.Workflow.Calls as W
use agent_runtime_platform.Workflow.WellFormed.{LedgerInv}
use agent_runtime_platform.Platform.Calls.{
  PlatformCall, workflow_call, resolves, empty_platform, platform_step, platform_calls,
}
use agent_runtime_platform.Platform.Keep.{platform_calls-Inv, platform_calls-silenced}
use agent_runtime_platform.Quarantine.Evidence.{
  evidence_is_consistent, action_is_consistent, identity_is_consistent, row_is_consistent,
  action_event_is_consistent, step_event_is_consistent, ends_action, ends_step, get,
}
use agent_runtime_platform.Quarantine.Derive.{
  is_quarantined, lease_cleared, event_mismatches, reconciliation_required, summary_of,
  count_status, has_status, evidence_of, events_of, last_conflict, is_quarantine_event,
  observed_revision, material_of, snapshot_of, plan_of, reasons_of, derive_plan,
}
use agent_runtime_platform.Quarantine.Apply.{
  find_resolution_event, resolution_among, resolve_or_reuse, resolve_now, write_resolution,
  may_resolve, apply_quarantine_resolution, matching_resolution_events, names_plan, resolve_with,
}
use agent_runtime_platform.Examples.{at}
use agent_runtime_platform.Examples.Quarantines.{opened, quarantining, row_of, digests, resolution}

platform_calls-Inv_example :
    Inv (platform_calls empty_platform quarantining).database
    × LedgerInv (platform_calls empty_platform quarantining).ledger
platform_calls-Inv_example = platform_calls-Inv quarantining

-- Opens the resolution too.
abbrev solved : Unit {0}
unfolding opened apply_quarantine_resolution find_resolution_event resolution_among resolve_or_reuse
    resolve_now write_resolution may_resolve resolve_with matching_resolution_events names_plan
    derive_plan snapshot_of plan_of reasons_of material_of evidence_is_consistent
    action_is_consistent identity_is_consistent row_is_consistent action_event_is_consistent
    step_event_is_consistent ends_action ends_step get is_quarantined lease_cleared event_mismatches
    reconciliation_required summary_of count_status has_status evidence_of events_of last_conflict
    is_quarantine_event observed_revision select all sort_by insert_by
solved = tt

abbrev resolving : List (Clock × PlatformCall)
resolving = quarantining ++ (at 5000, resolves digests resolution) ∷ []

abbrev resolved_run : RunRecord
resolved_run = row_of (find_run 3 (platform_calls empty_platform resolving).database.runs)

resolved_run_found :
    find_run 3 (platform_calls empty_platform resolving).database.runs ≡ some resolved_run
unfolding solved
resolved_run_found = refl

resolved_run_status : resolved_run.status ≡ failed
unfolding solved
resolved_run_status = refl

platform_calls-silenced_example :
    platform_step
      (platform_calls (platform_calls empty_platform resolving) quarantining)
      (at 9000, workflow_call (some 78) (W.readies 3 "{}"))
    ≡ platform_calls (platform_calls empty_platform resolving) quarantining
platform_calls-silenced_example =
    platform_calls-silenced resolving quarantining 3 resolved_run (at 9000) (some 78)
      (W.readies 3 "{}") resolved_run_found (ap is_terminal resolved_run_status) refl refl
