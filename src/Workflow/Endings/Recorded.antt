-- ===== src/Workflow/Endings/Recorded.antt =====
-- What the tables hold once the end of an external action is recorded.
use agent_runtime_platform.Base.{
  ℕ, true, not, ◌||◌, Option, none, some, ◌≡◌, refl, sym, subst, ap, ◌∙◌, arith, String,
  holds_number, eq_iff,
}
use agent_runtime_platform.Base.Table
use agent_runtime_platform.Base.Table.{number_key, pair_key}
use agent_runtime_platform.Contracts.{Fields}
use agent_runtime_platform.RunStore.{Clock, ok}
use agent_runtime_platform.RunStore.Moves.{Ensures}
use agent_runtime_platform.RunStore.Moves.Rules.{
  Ensures-bind, Ensures-ok, Ensures-err, Ensures-if, Ensures-guard, or_error-ok,
}
use agent_runtime_platform.Workflow.{
  Ledger, RunsTable, ToolCallRecord, find_step, ExternalActionRecord, ExternalActionStatus,
  prepared, dispatching, succeeded, action_failed, outcome_unknown, action_key, find_action,
  append_workflow_event,
}
use agent_runtime_platform.Workflow.Steps.{holds_attempt, finish_step}
use agent_runtime_platform.Workflow.Actions.{Texts, is_terminal_action, is_unsafe, set_action}
use agent_runtime_platform.Workflow.Actions.Ending.{
  Ending, EndingRule, check_ending, tool_status, is_duplicate, same_optional, same_action_status,
  same_call_status,
}
use agent_runtime_platform.Workflow.Actions.Finalize.{
  end_action, write_ending, finalize_terminal, finalize_open, finalize_action_on_row,
  finalize_external_action,
}
use agent_runtime_platform.Workflow.Claims.{set_step-found}

same_optional_refl : (o : Option String) → same_optional o o ≡ true
same_optional_refl none = refl
same_optional_refl (some t) = (eq_iff t t).1 refl

same_action_status_refl : (s : ExternalActionStatus) → same_action_status s s ≡ true
same_action_status_refl s = (eq_iff _ _).1 refl

same_call_status_refl :
    (s : ExternalActionStatus) → same_call_status (tool_status s) (tool_status s) ≡ true
same_call_status_refl prepared = refl
same_call_status_refl dispatching = refl
same_call_status_refl succeeded = refl
same_call_status_refl action_failed = refl
same_call_status_refl outcome_unknown = refl

-- The tables hold the ending: saying it again would be an exact duplicate.
pub record Holds (rule : EndingRule) (key : ℕ × ℕ) (token attempt : ℕ) (e : Ending)
    (result : Option String) (p : Ledger × ExternalActionRecord) : Type 0 where
  pub step : ToolCallRecord
  pub action_found : find_action key p.0.external_actions ≡ some p.1
  pub step_found : find_step key p.0.tool_calls ≡ some step
  pub terminal : is_terminal_action p.1.status ≡ true
  pub duplicate : is_duplicate token attempt e result p.1 step ≡ true
  pub permitted : (not rule.requires_unsafe || is_unsafe p.1.identity.retry_mode) ≡ true

pub record Kept (d db : Ledger) : Type 0 where
  pub calls : db.tool_calls ≡ d.tool_calls
  pub actions : db.external_actions ≡ d.external_actions

pub append-Kept :
    (id : ℕ) (type : String) (payload : Fields) (at : ℕ) (db : Ledger) {d : Ledger}
    → append_workflow_event id type payload at db ≡ ok d
    → Kept db d
unfolding append_workflow_event
append-Kept id type payload at db h = record { calls = ground arith; actions = ground arith }

pub set_action-found :
    (db : Ledger) (k : ℕ × ℕ) (a v : ExternalActionRecord)
    → find_action k db.external_actions ≡ some a
    → action_key v ≡ action_key a
    → find_action k (set_action v db).external_actions ≡ some v
set_action-found db k a v f same =
    let key : action_key v ≡ k = same ∙ Table.find-key action_key k db.external_actions f in
    subst (λ j. find_action k (Table.set action_key j v db.external_actions) ≡ some v) (sym key)
      (Table.find-set_self action_key k v db.external_actions key f)

module _ (rule : EndingRule) (key : ℕ × ℕ) (token attempt : ℕ) (e : Ending) (result : Option String)
    (ends : is_terminal_action e.status ≡ true) (db : Ledger) (a : ExternalActionRecord)
    (found : find_action key db.external_actions ≡ some a)
    (permitted : (not rule.requires_unsafe || is_unsafe a.identity.retry_mode) ≡ true) where
  open_duplicate :
      (clock : Clock) (s : ToolCallRecord)
      → holds_number a.dispatch_token token ≡ true
      → holds_number s.attempt_token attempt ≡ true
      → is_duplicate token attempt e result
          (end_action clock e result a)
          (finish_step clock (tool_status e.status) result e.error_code s)
        ≡ true
  unfolding is_duplicate end_action finish_step
  open_duplicate clock s h k = ground (
    arith,
    h,
    k,
    same_action_status_refl e.status,
    same_optional_refl e.provider_reference,
    same_optional_refl result,
    same_optional_refl e.error_code,
    same_call_status_refl e.status,
  )

  write_ending-Holds :
      (clock : Clock) (s : ToolCallRecord)
      → find_step key db.tool_calls ≡ some s
      → holds_number a.dispatch_token token ≡ true
      → Ensures (Holds rule key token attempt e result) (write_ending clock attempt e result a s db)
  unfolding write_ending holds_attempt end_action finish_step
  write_ending-Holds clock s f h = Ensures-guard _ _ _ λ held. Ensures-bind _ _ λ d l.
      Ensures-bind _ _ λ d' l'. Ensures-ok _ (
        let k = append-Kept a.run_id _ _ clock.utc_now _ l in
        let k' = append-Kept a.run_id _ _ clock.utc_now _ l' in
        record {
          step = finish_step clock (tool_status e.status) result e.error_code s;
          action_found =
              ap (find_action key) (k'.actions ∙ k.actions)
              ∙ set_action-found db key a (end_action clock e result a) found refl;
          step_found =
              ap (find_step key) (k'.calls ∙ k.calls)
              ∙ set_step-found (set_action (end_action clock e result a) db) key s
                  (finish_step clock (tool_status e.status) result e.error_code s) f refl;
          terminal = ends;
          duplicate = open_duplicate clock s h (ground (arith, held));
          permitted = permitted;
        })

  finalize_open-Holds :
      (clock : Clock)
      → Ensures
          (Holds rule key token attempt e result)
          (finalize_open clock token attempt e result a (find_step key db.tool_calls) db)
  unfolding finalize_open
  finalize_open-Holds clock = Ensures-guard _ _ _ λ h.
      Ensures-bind _ _ λ s f. write_ending-Holds clock s (or_error-ok _ _ f) (ground (arith, h))

  finalize_terminal-Holds :
      (o : Option ToolCallRecord)
      → find_step key db.tool_calls ≡ o
      → is_terminal_action a.status ≡ true
      → Ensures
          (Holds rule key token attempt e result)
          (finalize_terminal token attempt e result a o db)
  unfolding finalize_terminal
  finalize_terminal-Holds none f t = Ensures-err _
  finalize_terminal-Holds (some s) f t = Ensures-guard _ _ _ λ h. Ensures-ok _ (record {
    step = s;
    action_found = found;
    step_found = f;
    terminal = t;
    duplicate = h;
    permitted = permitted;
  })

check_ending-terminal :
    (texts : Texts) (e : Ending)
    → Ensures (λ _. is_terminal_action e.status ≡ true) (check_ending texts e)
unfolding check_ending
check_ending-terminal texts e =
    Ensures-if (not (is_terminal_action e.status)) _ _ (λ _. Ensures-err _)
      (λ t. record { at = λ _ _. ground (arith, t) })

module _ (rule : EndingRule) (texts : Texts) (key : ℕ × ℕ) (token attempt : ℕ) (e : Ending)
    (db : Ledger) where
  -- With the result that the tests before the transaction find.
  abbrev pub Recorded : Ledger × ExternalActionRecord → Type 0
  Recorded p =
      (result : Option String) × (check_ending texts e ≡ ok result)
      × Holds rule key token attempt e result p

  pub finalize-Recorded :
      (clock : Clock) (runs : RunsTable) (lease : Option ℕ)
      → Ensures Recorded
          (finalize_external_action rule texts clock runs lease key token attempt e db)
  unfolding finalize_external_action finalize_action_on_row
  finalize-Recorded clock runs lease = Ensures-bind _ _ λ result checked. Ensures-bind _ _ λ _ _.
      Ensures-bind _ _ λ a f. Ensures-guard _ _ _ λ permitted.
        let found = or_error-ok _ _ f in
        let ends = (check_ending-terminal texts e).at result checked in
        Ensures-if (is_terminal_action a.status) _ _
          (λ t. record {
            at = λ p q. (
              result,
              checked,
              (finalize_terminal-Holds rule key token attempt e result ends db a found permitted _
                    refl t).at
                  p q,
            );
          })
          (λ _. record {
            at = λ p q. (
              result,
              checked,
              (finalize_open-Holds rule key token attempt e result ends db a found permitted
                    clock).at
                  p q,
            );
          })
