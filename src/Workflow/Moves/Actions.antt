-- ===== src/Workflow/Moves/Actions.antt =====
-- The methods on external actions are sequences of moves.
use agent_runtime_platform.Base.{
  ℕ, String, Bool, true, not, ◌&&◌, ◌||◌, Option, none, some, ◌≡◌, refl, arith, any, ◌==◌, str_eq,
}
use agent_runtime_platform.Base.Table
use agent_runtime_platform.Base.Table.{number_key, pair_key}
use agent_runtime_platform.Models.{is_running}
use agent_runtime_platform.RunStore.{Clock}
use agent_runtime_platform.RunStore.Moves.Rules.{
  Ensures-bind, Ensures-ok, Ensures-err, Ensures-if, Ensures-guard, or_error-ok,
}
use agent_runtime_platform.Workflow.{
  Ledger, RunsTable, ToolCallRecord, step_key, find_step, ExternalActionRecord, ActionIdentity,
  action_key, find_action,
}
use agent_runtime_platform.Workflow.Steps.{holds_attempt}
use agent_runtime_platform.Workflow.Actions.{
  Texts, is_terminal_action, is_dispatching, is_unsafe, prepared_action, prepare_on_row,
  prepare_for_step, prepare_for, prepare_external_action, owns_action,
}
use agent_runtime_platform.Workflow.Actions.Dispatch.{
  ExternalActionDispatchOutcome, dispatch_action, write_dispatch, begin_for_run, begin_on_row,
  begin_external_action_dispatch, retry_on_row, retry_external_action_dispatch,
}
use agent_runtime_platform.Workflow.Actions.Ending.{Ending, EndingRule}
use agent_runtime_platform.Workflow.Actions.Finalize.{
  write_ending, finalize_terminal, finalize_open, finalize_action_on_row, finalize_external_action,
}
use agent_runtime_platform.Workflow.Moves.{
  here, next, adds_action, moves_action, moves_step, ActionMove, Arrives,
}
use agent_runtime_platform.Workflow.Moves.Appends.{then_appends, also_appends}
use agent_runtime_platform.Workflow.Moves.ActionRows.{
  prepared_action-ActionOk, begin-ActionMove, retry-ActionMove, end-ActionMove, EndingOk,
  check_ending-EndingOk, end-StepMove,
}

module _ (n : ℕ) (db : Ledger) where
  prepare_on_row-Arrives :
      (clock : Clock) (action_id : ℕ) (key : ℕ × ℕ) (i : ActionIdentity)
      (o : Option ExternalActionRecord)
      → find_action key db.external_actions ≡ o
      → Arrives n db (prepare_on_row o clock action_id key i db)
  unfolding prepare_on_row prepared_action
  prepare_on_row-Arrives clock action_id key i (some a) f = Ensures-ok _ here
  prepare_on_row-Arrives clock action_id key i none f =
      Ensures-if
        (any (λ (a : ExternalActionRecord). a.identity.idempotency_key == i.idempotency_key)
          db.external_actions)
        _ _ (λ _. Ensures-ok _ here)
        (λ free. Ensures-bind _ _ λ _ _. Ensures-bind _ _ λ d l. Ensures-ok _ (
          then_appends key.0 _ _ clock.utc_now
            (adds_action (prepared_action clock action_id key i) f free
              (prepared_action-ActionOk clock (prepared_action clock action_id key i) action_id key
                i)
              refl)
            l))

  pub prepare-Arrives :
      (texts : Texts) (clock : Clock) (runs : RunsTable) (lease : Option ℕ) (action_id : ℕ)
      (key : ℕ × ℕ) (token : ℕ) (i : ActionIdentity)
      → Arrives n db (prepare_external_action texts clock runs lease action_id key token i db)
  unfolding prepare_external_action prepare_for prepare_for_step
  prepare-Arrives texts clock runs lease action_id key token i = Ensures-bind _ _ λ arguments _.
      Ensures-bind _ _ λ _ _. Ensures-bind _ _ λ _ _. Ensures-bind _ _ λ run _.
        let i' : ActionIdentity = record i { arguments_json = arguments } in
        Ensures-if (not (owns_action i' run)) _ _ (λ _. Ensures-ok _ here)
          λ _. Ensures-bind _ _ λ execution _. Ensures-bind _ _ λ step _.
            Ensures-if
              (not (
                str_eq execution.workflow_type i'.workflow_type
                && str_eq step.tool_name i'.tool_name
                && step.input_hash == i'.input_hash))
              _ _ (λ _. Ensures-ok _ here)
              λ _.
                Ensures-if (not (holds_attempt token step)) _ _ (λ _. Ensures-ok _ here)
                  λ _. prepare_on_row-Arrives clock action_id key i' _ refl

  write_dispatch-Arrives :
      (clock : Clock) (token : ℕ) (a : ExternalActionRecord) (retry : Bool)
      (outcome : ExternalActionDispatchOutcome)
      → find_action (action_key a) db.external_actions ≡ some a
      → ActionMove a (dispatch_action clock token a)
      → Arrives n db (write_dispatch clock token a retry outcome db)
  unfolding write_dispatch dispatch_action
  write_dispatch-Arrives clock token a retry outcome f m =
      Ensures-bind _ _
        λ d l. Ensures-ok _ (then_appends a.run_id _ _ clock.utc_now (moves_action a _ f m refl) l)

  pub begin-Arrives :
      (clock : Clock) (runs : RunsTable) (lease : Option ℕ) (key : ℕ × ℕ) (attempt token : ℕ)
      → Arrives n db (begin_external_action_dispatch clock runs lease key attempt token db)
  unfolding begin_external_action_dispatch begin_on_row begin_for_run
  begin-Arrives clock runs lease key attempt token = Ensures-bind _ _ λ _ _.
      Ensures-bind _ _ λ a found.
        Ensures-if (is_terminal_action a.status) _ _ (λ _. Ensures-ok _ here)
          λ _.
            Ensures-if (is_dispatching a.status) _ _ (λ _. Ensures-ok _ here)
              λ _. Ensures-bind _ _ λ run _.
                Ensures-if (not (is_running run.status) || run.cancel_requested) _ _
                  (λ _. Ensures-ok _ here)
                  λ _. Ensures-bind _ _ λ _ _. Ensures-guard _ _ _ λ ready.
                    write_dispatch-Arrives clock token a _ _
                      (Table.find-own action_key key db.external_actions (or_error-ok _ _ found))
                      (begin-ActionMove clock a token ready)

  pub retry-Arrives :
      (clock : Clock) (runs : RunsTable) (lease : Option ℕ) (key : ℕ × ℕ)
      (previous attempt token : ℕ)
      → Arrives n db (retry_external_action_dispatch clock runs lease key previous attempt token db)
  unfolding retry_external_action_dispatch retry_on_row
  retry-Arrives clock runs lease key previous attempt token = Ensures-bind _ _ λ _ _.
      Ensures-bind _ _ λ a found.
        Ensures-if (is_terminal_action a.status) _ _ (λ _. Ensures-ok _ here)
          λ _.
            Ensures-if (not (is_dispatching a.status)) _ _ (λ _. Ensures-ok _ here)
              λ sent.
                Ensures-if (is_unsafe a.identity.retry_mode) _ _ (λ _. Ensures-ok _ here)
                  λ fine. Ensures-bind _ _ λ _ _. Ensures-bind _ _ λ _ _.
                    write_dispatch-Arrives clock token a _ _
                      (Table.find-own action_key key db.external_actions (or_error-ok _ _ found))
                      (retry-ActionMove clock a token (ground (arith, sent)) fine)

  write_ending-Arrives :
      (clock : Clock) (attempt : ℕ) (e : Ending) (result : Option String) (a : ExternalActionRecord)
      (s : ToolCallRecord)
      → find_action (action_key a) db.external_actions ≡ some a
      → find_step (step_key s) db.tool_calls ≡ some s
      → is_dispatching a.status ≡ true
      → EndingOk e result
      → Arrives n db (write_ending clock attempt e result a s db)
  unfolding write_ending
  write_ending-Arrives clock attempt e result a s f g sent k = Ensures-guard _ _ _ λ held.
      Ensures-bind _ _ λ d l. Ensures-bind _ _ λ d' l'. Ensures-ok _ (
        also_appends a.run_id _ _ clock.utc_now
          (also_appends a.run_id _ _ clock.utc_now
            (next
              (next here
                (moves_action a _ f (end-ActionMove clock a e result sent k.terminal) refl))
              (moves_step s _ g (end-StepMove n clock attempt e result s held e.status refl k)
                refl))
            l)
          l')

  finalize_open-Arrives :
      (clock : Clock) (key : ℕ × ℕ) (token attempt : ℕ) (e : Ending) (result : Option String)
      (a : ExternalActionRecord)
      → find_action (action_key a) db.external_actions ≡ some a
      → EndingOk e result
      → Arrives n db (finalize_open clock token attempt e result a (find_step key db.tool_calls) db)
  unfolding finalize_open
  finalize_open-Arrives clock key token attempt e result a f k = Ensures-guard _ _ _ λ holds.
      Ensures-bind _ _ λ s found.
        write_ending-Arrives clock attempt e result a s f
          (Table.find-own step_key key db.tool_calls (or_error-ok _ _ found))
          (ground (arith, holds)) k

  finalize_terminal-Arrives :
      (token attempt : ℕ) (e : Ending) (result : Option String) (a : ExternalActionRecord)
      (o : Option ToolCallRecord)
      → Arrives n db (finalize_terminal token attempt e result a o db)
  unfolding finalize_terminal
  finalize_terminal-Arrives token attempt e result a none = Ensures-err _
  finalize_terminal-Arrives token attempt e result a (some s) =
      Ensures-bind _ _ λ _ _. Ensures-ok _ here

  pub finalize-Arrives :
      (rule : EndingRule) (texts : Texts) (clock : Clock) (runs : RunsTable) (lease : Option ℕ)
      (key : ℕ × ℕ) (token attempt : ℕ) (e : Ending)
      → Arrives n db (finalize_external_action rule texts clock runs lease key token attempt e db)
  unfolding finalize_external_action finalize_action_on_row
  finalize-Arrives rule texts clock runs lease key token attempt e =
      Ensures-bind _ _ λ result checked. Ensures-bind _ _ λ _ _. Ensures-bind _ _ λ a found.
        Ensures-bind _ _ λ _ _.
          Ensures-if (is_terminal_action a.status) _ _
            (λ _. finalize_terminal-Arrives token attempt e result a _)
            (λ _.
              finalize_open-Arrives clock key token attempt e result a
                (Table.find-own action_key key db.external_actions (or_error-ok _ _ found))
                ((check_ending-EndingOk texts e).at result checked))
