-- ===== src/Workflow/Grants.antt =====
-- How often an external action that is unsafe to repeat is granted to be sent to its provider.
pub mod Counted
use agent_runtime_platform.Workflow.Grants.Counted.{grants, grants-Counted}
use agent_runtime_platform.Base.{
  ℕ, suc, ◌≤◌, Bool, true, false, not, ◌&&◌, ◌||◌, Option, none, some, List, [], ◌∷◌, ◌≡◌, refl,
  sym, subst, ap, ◌∙◌, inl, inr, arith, some-inj, Bool-cases,
}
use agent_runtime_platform.Base.Table.{number_key, pair_key}
use agent_runtime_platform.Models.{is_running}
use agent_runtime_platform.RunStore.{Clock, Result, ok, err}
use agent_runtime_platform.RunStore.Moves.{Ensures}
use agent_runtime_platform.RunStore.Moves.Rules.{
  Ensures-bind, Ensures-ok, Ensures-if, Ensures-guard, or_error-ok,
}
use agent_runtime_platform.Workflow.{Ledger, ExternalActionRecord, find_action}
use agent_runtime_platform.Workflow.Actions.{is_terminal_action, is_dispatching, is_unsafe}
use agent_runtime_platform.Workflow.Actions.Dispatch.{
  ExternalActionDispatchOutcome, dispatch_claimed, retry_claimed, terminal, already_dispatching,
  run_cancelled, not_dispatching, retry_unsafe, dispatch_answer, ExternalActionDispatchResult,
  dispatch_action, write_dispatch, begin_external_action_dispatch, begin_on_row, begin_for_run,
  retry_external_action_dispatch, retry_on_row,
}
use agent_runtime_platform.Workflow.Calls.{
  Context, WorkflowCall, dispatches, redispatches, settled, workflow_step, workflow_calls, budget,
}
use agent_runtime_platform.Workflow.WellFormed.{LedgerInv, no_ledger}
use agent_runtime_platform.Workflow.Keep.{LedgerMoves-Inv, workflow_calls-LedgerInv}
use agent_runtime_platform.Workflow.Moves.Steps.{workflow_calls-Moves}
use agent_runtime_platform.Workflow.Intents.{ActionLater, workflow_calls-ActionLater}

calls-LedgerInv :
    (db : Ledger) (cs : List (Context × WorkflowCall))
    → LedgerInv db
    → LedgerInv (workflow_calls db cs)
calls-LedgerInv db cs h = LedgerMoves-Inv (workflow_calls-Moves (budget cs) db cs (omega arith)) h

step-LedgerInv :
    (db : Ledger) (call : Context × WorkflowCall) → LedgerInv db → LedgerInv (workflow_step db call)
step-LedgerInv db call h = unfold workflow_calls in calls-LedgerInv db (call ∷ []) h

step-ActionLater :
    (db : Ledger) (call : Context × WorkflowCall) (k : ℕ × ℕ) (a : ExternalActionRecord)
    → find_action k db.external_actions ≡ some a
    → (v : ExternalActionRecord) × (find_action k (workflow_step db call).external_actions ≡ some v)
      × ActionLater a v
step-ActionLater db call k a f =
    unfold workflow_calls in workflow_calls-ActionLater db (call ∷ []) k a f

module _ (k : ℕ × ℕ) where
  -- A dispatch of an action that was dispatched before and is unsafe to repeat is not granted.
  second-refused :
      (db : Ledger) (call : Context × WorkflowCall) (a : ExternalActionRecord)
      → LedgerInv db
      → find_action k db.external_actions ≡ some a
      → is_unsafe a.identity.retry_mode ≡ true
      → 1 ≤ a.dispatch_count
      → grants call k db ≡ false
  second-refused db call a h f u one = elim (Bool-cases (grants call k db)) [
    | inl g ↦
        let (v, found, counted) = grants-Counted call k a db f g in
        let (w, found', later) = step-ActionLater db call k a f in
        let same : w ≡ v = some-inj (sym found' ∙ found) in
        let unsafe : is_unsafe v.identity.retry_mode ≡ true =
          ap (λ (x : ExternalActionRecord). is_unsafe x.identity.retry_mode) (sym same)
          ∙ ap is_unsafe (ap (λ i. i.retry_mode) later.identity)
          ∙ u in
        absurd
          (omega (arith, ((step-LedgerInv db call h).actions k v found).once unsafe, counted, one))
    | inr n ↦ n
  ]

-- From empty tables on: where a call is granted the dispatch of an external action that is unsafe to
-- repeat, no call that is made at any later time, whatever calls are between, is granted a dispatch
-- of that action again, neither as a first dispatch nor as a retry.
pub workflow_calls-unsafe_once :
    (cs between : List (Context × WorkflowCall)) (call again : Context × WorkflowCall) (k : ℕ × ℕ)
    (a : ExternalActionRecord)
    → find_action k (workflow_calls no_ledger cs).external_actions ≡ some a
    → is_unsafe a.identity.retry_mode ≡ true
    → grants call k (workflow_calls no_ledger cs) ≡ true
    → grants again k (workflow_calls (workflow_step (workflow_calls no_ledger cs) call) between)
      ≡ false
workflow_calls-unsafe_once cs between call again k a f u g =
    let db = workflow_calls no_ledger cs in
    let sent = workflow_step db call in
    let (v, found, counted) = grants-Counted call k a db f g in
    let (w, found', later) = step-ActionLater db call k a f in
    let same : w ≡ v = some-inj (sym found' ∙ found) in
    let (x, last, after) = workflow_calls-ActionLater sent between k w found' in
    second-refused k (workflow_calls sent between) again x
      (calls-LedgerInv sent between (step-LedgerInv db call (workflow_calls-LedgerInv cs))) last
      (ap is_unsafe (ap (λ i. i.retry_mode) (after.identity ∙ later.identity)) ∙ u)
      (omega
        (arith, after.grows, counted, ap (λ (y : ExternalActionRecord). y.dispatch_count) same))
