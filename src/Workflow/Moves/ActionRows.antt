-- ===== src/Workflow/Moves/ActionRows.antt =====
-- Each statement's change of an external action, and of the step that ends with it, is a move.
use agent_runtime_platform.Base.{
  ℕ, String, true, false, not, Option, none, some, ◌≡◌, refl, is_null, arith,
}
use agent_runtime_platform.Base.Table.{number_key, pair_key}
use agent_runtime_platform.RunStore.{Clock}
use agent_runtime_platform.RunStore.Moves.{Ensures}
use agent_runtime_platform.RunStore.Moves.Rules.{
  Ensures-bind, Ensures-ok, Ensures-err, Ensures-if, Ensures-guard,
}
use agent_runtime_platform.Workflow.{
  call_running, ToolCallRecord, ExternalActionRecord, ExternalActionStatus, prepared, dispatching,
  succeeded, action_failed, outcome_unknown, ActionIdentity,
}
use agent_runtime_platform.Workflow.Steps.{holds_attempt, finish_step}
use agent_runtime_platform.Workflow.Actions.{
  Texts, is_terminal_action, is_prepared, is_dispatching, is_unsafe, prepared_action,
}
use agent_runtime_platform.Workflow.Actions.Dispatch.{dispatch_action}
use agent_runtime_platform.Workflow.Actions.Ending.{
  Ending, check_ending, canonical_of, check_error, is_succeeded, tool_status,
}
use agent_runtime_platform.Workflow.Actions.Finalize.{end_action}
use agent_runtime_platform.Workflow.Moves.{
  ActionMove, ActionOk, dispatches, redispatches, ends, StepMove, completes, fails,
}
use agent_runtime_platform.Workflow.Moves.Rows.{is_running_call_lem}

is_prepared_lem : (s : ExternalActionStatus) → is_prepared s ≡ true → s ≡ prepared
is_prepared_lem prepared h = refl
is_prepared_lem _ h = absurd (cc)

is_dispatching_lem : (s : ExternalActionStatus) → is_dispatching s ≡ true → s ≡ dispatching
is_dispatching_lem dispatching h = refl
is_dispatching_lem _ h = absurd (cc)

module _ (clock : Clock) (a : ExternalActionRecord) where
  pub prepared_action-ActionOk :
      (action_id : ℕ) (key : ℕ × ℕ) (i : ActionIdentity)
      → ActionOk (prepared_action clock action_id key i)
  unfolding prepared_action
  prepared_action-ActionOk action_id key i = ground arith

  pub begin-ActionMove :
      (token : ℕ) → is_prepared a.status ≡ true → ActionMove a (dispatch_action clock token a)
  unfolding dispatch_action
  begin-ActionMove token h =
      let f : a.status ≡ prepared = is_prepared_lem a.status h in
      record {
        same_id = refl;
        same_run = refl;
        same_step = refl;
        same_identity = refl;
        grows = omega arith;
        rule = dispatches f refl;
        keeps = λ k. ground (arith, k.unsent f);
      }

  pub retry-ActionMove :
      (token : ℕ)
      → is_dispatching a.status ≡ true
      → is_unsafe a.identity.retry_mode ≡ false
      → ActionMove a (dispatch_action clock token a)
  unfolding dispatch_action
  retry-ActionMove token h u =
      let f : a.status ≡ dispatching = is_dispatching_lem a.status h in
      record {
        same_id = refl;
        same_run = refl;
        same_step = refl;
        same_identity = refl;
        grows = omega arith;
        rule = redispatches f refl u;
        keeps = λ k. ground arith;
      }

  pub end-ActionMove :
      (e : Ending) (result : Option String)
      → is_dispatching a.status ≡ true
      → is_terminal_action e.status ≡ true
      → ActionMove a (end_action clock e result a)
  unfolding end_action
  end-ActionMove e result h t =
      let f : a.status ≡ dispatching = is_dispatching_lem a.status h in
      record {
        same_id = refl;
        same_run = refl;
        same_step = refl;
        same_identity = refl;
        grows = omega arith;
        rule = ends f t refl;
        keeps = λ k. ground arith;
      }

-- What the tests before the transaction establish.
pub record EndingOk (e : Ending) (result : Option String) : Type 0 where
  pub terminal : is_terminal_action e.status ≡ true
  success : is_succeeded e.status ≡ true → (is_null result ≡ false) × (is_null e.error_code ≡ true)
  failure : is_succeeded e.status ≡ false → (is_null result ≡ true) × (is_null e.error_code ≡ false)

canonical_of-known :
    (texts : Texts) (o : Option String) → Ensures (λ r. is_null r ≡ false) (canonical_of texts o)
unfolding canonical_of
canonical_of-known texts none = Ensures-err _
canonical_of-known texts (some r) = Ensures-bind _ _ λ c _. Ensures-ok _ refl

check_error-blank :
    (texts : Texts) (o : Option String)
    → Ensures (λ r. (is_null r ≡ true) × (is_null o ≡ false)) (check_error texts o)
unfolding check_error
check_error-blank texts none = Ensures-err _
check_error-blank texts (some e) =
    Ensures-bind _ _ λ _ _. Ensures-bind _ _ λ _ _. Ensures-ok _ (refl, refl)

pub check_ending-EndingOk :
    (texts : Texts) (e : Ending) → Ensures (EndingOk e) (check_ending texts e)
unfolding check_ending
check_ending-EndingOk texts e =
    Ensures-if (not (is_terminal_action e.status)) _ _ (λ _. Ensures-err _)
      λ t.
        Ensures-if (is_succeeded e.status) _ _
          (λ s. Ensures-bind _ _ λ _ _. Ensures-guard _ _ _ λ clean. record {
            at = λ r q.
                let known = (canonical_of-known texts e.result_json).at r q in
                record {
                  terminal = ground (arith, t);
                  success = λ _. (known, clean);
                  failure = λ f. absurd (cc);
                };
          })
          (λ s. record {
            at = λ r q.
                let w = (check_error-blank texts e.error_code).at r q in
                record {
                  terminal = ground (arith, t);
                  success = λ f. absurd (cc);
                  failure = λ _. w;
                };
          })

-- The end of an action is the end of its step.
pub end-StepMove :
    (n : ℕ) (clock : Clock) (attempt : ℕ) (e : Ending) (result : Option String) (s : ToolCallRecord)
    → holds_attempt attempt s ≡ true
    → (status : ExternalActionStatus) → e.status ≡ status
    → EndingOk e result
    → StepMove n s (finish_step clock (tool_status status) result e.error_code s)
unfolding holds_attempt finish_step
end-StepMove n clock attempt e result s h succeeded q k =
    let f : s.status ≡ call_running = is_running_call_lem s.status (ground arith) in
    let w = k.success (ground (arith, q)) in
    record {
      same_run = refl;
      same_step = refl;
      same_tool = refl;
      same_input = refl;
      rule = completes f refl refl refl;
      keeps = λ o. ground (arith, w);
    }
end-StepMove n clock attempt e result s h prepared q k = absurd (ground (arith, k.terminal, q))
end-StepMove n clock attempt e result s h dispatching q k = absurd (ground (arith, k.terminal, q))
end-StepMove n clock attempt e result s h action_failed q k =
    let f : s.status ≡ call_running = is_running_call_lem s.status (ground arith) in
    let w = k.failure (ground (arith, q)) in
    record {
      same_run = refl;
      same_step = refl;
      same_tool = refl;
      same_input = refl;
      rule = fails f refl refl refl;
      keeps = λ o. ground (arith, w);
    }
end-StepMove n clock attempt e result s h outcome_unknown q k =
    let f : s.status ≡ call_running = is_running_call_lem s.status (ground arith) in
    let w = k.failure (ground (arith, q)) in
    record {
      same_run = refl;
      same_step = refl;
      same_tool = refl;
      same_input = refl;
      rule = fails f refl refl refl;
      keeps = λ o. ground (arith, w);
    }
