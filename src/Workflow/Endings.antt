-- ===== src/Workflow/Endings.antt =====
-- Saying the end of an external action twice.
pub mod Recorded
use agent_runtime_platform.Workflow.Endings.Recorded.{Holds, finalize-Recorded}
use agent_runtime_platform.Base.{
  ℕ, true, not, ◌||◌, Option, none, some, List, ◌≡◌, refl, sym, subst, ap, ◌∙◌, arith, String,
  holds_number, eq_iff,
}
use agent_runtime_platform.Base.Table
use agent_runtime_platform.Base.Table.{number_key, pair_key}
use agent_runtime_platform.Contracts.{Fields}
use agent_runtime_platform.RunStore.{Clock, ok, ◌>>=◌}
use agent_runtime_platform.RunStore.Moves.{Ensures}
use agent_runtime_platform.RunStore.Moves.Rules.{
  Ensures-bind, Ensures-ok, Ensures-err, Ensures-if, Ensures-guard, or_error-ok,
}
use agent_runtime_platform.Workflow.{
  Ledger, RunsTable, ToolCallRecord, find_step, ExternalActionRecord, ExternalActionStatus,
  prepared, dispatching, succeeded, action_failed, outcome_unknown, action_key, find_action,
  append_workflow_event, assert_run_lease, has_authority,
}
use agent_runtime_platform.Workflow.Steps.{holds_attempt, finish_step}
use agent_runtime_platform.Workflow.Actions.{Texts, is_terminal_action, is_unsafe, set_action}
use agent_runtime_platform.Workflow.Actions.Ending.{
  Ending, EndingRule, check_ending, tool_status, is_duplicate, same_optional, same_action_status,
  same_call_status,
}
use agent_runtime_platform.Workflow.Actions.Finalize.{
  end_action, write_ending, finalize_terminal, finalize_open, finalize_action_on_row,
  finalize_external_action,
}
use agent_runtime_platform.Workflow.Calls.{Context, WorkflowCall, workflow_calls}
use agent_runtime_platform.Workflow.Claims.{set_step-found}
use agent_runtime_platform.Workflow.Intents.{workflow_calls-ActionLater}

again :
    (rule : EndingRule) (texts : Texts) (clock : Clock) (runs : RunsTable) (lease : Option ℕ)
    (key : ℕ × ℕ) (token attempt : ℕ) (e : Ending) (p : Ledger × ExternalActionRecord)
    (result : Option String)
    → (not rule.requires_lease || has_authority clock.now_ms key.0 lease runs) ≡ true
    → check_ending texts e ≡ ok result
    → Holds rule key token attempt e result p
    → finalize_external_action rule texts clock runs lease key token attempt e p.0 ≡ ok p
unfolding finalize_external_action finalize_action_on_row finalize_terminal assert_run_lease ◌>>=◌
again rule texts clock runs lease key token attempt e p result allowed checked h =
    ground (arith, checked, h.action_found, h.step_found, h.terminal, h.duplicate, h.permitted)

-- What was recorded is still there after calls that leave the step as it was.
Holds-calls :
    (rule : EndingRule) (key : ℕ × ℕ) (token attempt : ℕ) (e : Ending) (result : Option String)
    (p : Ledger × ExternalActionRecord) (cs : List (Context × WorkflowCall))
    → find_step key (workflow_calls p.0 cs).tool_calls ≡ find_step key p.0.tool_calls
    → Holds rule key token attempt e result p
    → Holds rule key token attempt e result (workflow_calls p.0 cs, p.1)
Holds-calls rule key token attempt e result p cs unmoved h =
    let (v, found, later) = workflow_calls-ActionLater p.0 cs key p.1 h.action_found in
    record {
      step = h.step;
      action_found = found ∙ ap some (later.kept h.terminal);
      step_found = unmoved ∙ h.step_found;
      terminal = h.terminal;
      duplicate = h.duplicate;
      permitted = h.permitted;
    }

-- An ending that was recorded can be said again, at whatever time and after any calls that leave the
-- row of its step as it was, by a caller that may say it: the same record is returned and nothing is
-- written, so a provider's answer may be delivered twice.
pub finalize_external_action-again :
    (rule : EndingRule) (texts : Texts) (c d : Context) (key : ℕ × ℕ) (token attempt : ℕ)
    (e : Ending) (db : Ledger) (p : Ledger × ExternalActionRecord)
    (cs : List (Context × WorkflowCall))
    → finalize_external_action rule texts c.clock c.runs c.lease_token key token attempt e db ≡ ok p
    → (not rule.requires_lease || has_authority d.clock.now_ms key.0 d.lease_token d.runs) ≡ true
    → find_step key (workflow_calls p.0 cs).tool_calls ≡ find_step key p.0.tool_calls
    → finalize_external_action rule texts d.clock d.runs d.lease_token key token attempt e
        (workflow_calls p.0 cs)
      ≡ ok (workflow_calls p.0 cs, p.1)
finalize_external_action-again rule texts c d key token attempt e db p cs h allowed unmoved =
    let w =
      (finalize-Recorded rule texts key token attempt e db c.clock c.runs c.lease_token).at p h in
    again rule texts d.clock d.runs d.lease_token key token attempt e (workflow_calls p.0 cs, p.1)
      w.0 allowed w.1 (Holds-calls rule key token attempt e w.0 p cs unmoved w.2)
