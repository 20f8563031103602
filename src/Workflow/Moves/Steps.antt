-- ===== src/Workflow/Moves/Steps.antt =====
-- Every call of the workflow store is a sequence of moves.
use agent_runtime_platform.Base.{ℕ, ◌≤◌, List, [], ◌∷◌, refl, arith}
use agent_runtime_platform.Base.Table.{number_key, pair_key}
use agent_runtime_platform.RunStore.{Result, ok, err}
use agent_runtime_platform.RunStore.Moves.Rules.{Ensures-bind, Ensures-guard}
use agent_runtime_platform.Workflow.{Ledger}
use agent_runtime_platform.Workflow.Executions.{
  create_or_get_execution, mark_running, finalize_execution, finalize_ready, finalize_blocked,
  finalize_failed,
}
use agent_runtime_platform.Workflow.Steps.{
  claim_step, complete_step, fail_step, recover_interrupted_step,
}
use agent_runtime_platform.Workflow.Reuse.{reuse_completed_step}
use agent_runtime_platform.Workflow.Calls.{
  Context, WorkflowCall, creates, starts, readies, blocks, fails, claims, completes_step,
  fails_step, recovers, reuses, prepares, dispatches, redispatches, finalizes, settled,
  workflow_step, workflow_calls, budget_of, budget,
}
use agent_runtime_platform.Workflow.Moves.{
  LedgerMoves, here, next, Arrives, readies as to_ready, blocks as to_blocked, fails as to_failed,
}
use agent_runtime_platform.Workflow.Moves.Actions.{
  prepare-Arrives, begin-Arrives, retry-Arrives, finalize-Arrives,
}
use agent_runtime_platform.Workflow.Moves.Rows.{
  start_execution-ExecutionMove, finish_execution-ExecutionMove,
}
use agent_runtime_platform.Workflow.Moves.Claims.{
  change_execution-Arrives, create_on_row-Arrives, claim_on_row-Arrives, complete-Arrives,
  fail-Arrives, recover_on_row-Arrives, reuse_from-Arrives,
}

settled-Moves {ℓ} :
    {A : Type ℓ} (n : ℕ) (db : Ledger) (m : Result (Ledger × A))
    → Arrives n db m
    → LedgerMoves n db (settled db m)
settled-Moves n db (ok p) h = h.at p refl
settled-Moves n db (err e) h = here

-- Whatever call is made at whatever time and under whatever lease, the tables that it leaves are
-- reached from those that it found by moves: a new pending execution, step or external action, one
-- of these taken along its states, and the next events of executions. A budget that is no less
-- than the attempts a claim allows bounds the attempts that the moves add.
pub workflow_step-Moves :
    (n : ℕ) (db : Ledger) (c : Context × WorkflowCall)
    → budget_of c.1 ≤ n
    → LedgerMoves n db (workflow_step db c)
unfolding workflow_step create_or_get_execution mark_running finalize_ready finalize_blocked
    finalize_failed finalize_execution claim_step complete_step fail_step recover_interrupted_step
    reuse_completed_step
workflow_step-Moves n db (c, creates run type hash) le =
    settled-Moves n db _
      (Ensures-bind _ _ λ _ _. create_on_row-Arrives n db c.clock run type hash _ refl)
workflow_step-Moves n db (c, starts run) le = settled-Moves n db _ (
    Ensures-bind _ _ λ _ _.
      change_execution-Arrives n db run _ _ _ _ _ (start_execution-ExecutionMove c.clock) _ refl)
workflow_step-Moves n db (c, readies run result) le = settled-Moves n db _ (
    Ensures-bind _ _ λ _ _.
      change_execution-Arrives n db run _ _ _ _ _
        (λ e. finish_execution-ExecutionMove c.clock e _ _ _ to_ready) _ refl)
workflow_step-Moves n db (c, blocks run result error) le = settled-Moves n db _ (
    Ensures-bind _ _ λ _ _.
      change_execution-Arrives n db run _ _ _ _ _
        (λ e. finish_execution-ExecutionMove c.clock e _ _ _ to_blocked) _ refl)
workflow_step-Moves n db (c, fails run error) le = settled-Moves n db _ (
    Ensures-bind _ _ λ _ _.
      change_execution-Arrives n db run _ _ _ _ _
        (λ e. finish_execution-ExecutionMove c.clock e _ _ _ to_failed) _ refl)
workflow_step-Moves n db (c, claims call_id token max i) le = settled-Moves n db _ (
    Ensures-guard _ _ _ λ one. Ensures-bind _ _ λ _ _.
      Ensures-bind _ _ λ _ _.
        claim_on_row-Arrives n db c.clock call_id token max i _ (ground (arith, one)) le refl)
workflow_step-Moves n db (c, completes_step key token result) le =
    settled-Moves n db _
      (Ensures-bind _ _ λ _ _. complete-Arrives n db c.clock key token result _ _ _ refl)
workflow_step-Moves n db (c, fails_step key token error) le =
    settled-Moves n db _
      (Ensures-bind _ _ λ _ _. fail-Arrives n db c.clock key token error _ _ _ refl)
workflow_step-Moves n db (c, recovers key) le =
    settled-Moves n db _ (Ensures-bind _ _ λ _ _. recover_on_row-Arrives n db c.clock key _ refl)
workflow_step-Moves n db (c, reuses call_id source i) le = settled-Moves n db _ (
    Ensures-bind _ _ λ _ _. Ensures-bind _ _ λ _ _. Ensures-bind _ _ λ _ _. Ensures-bind _ _ λ _ _.
      Ensures-bind _ _ λ _ _.
        Ensures-bind _ _
          λ _ _. Ensures-bind _ _ λ _ _. reuse_from-Arrives n db c.clock call_id source i _)
workflow_step-Moves n db (c, prepares texts action_id key token i) le =
    settled-Moves n db _
      (prepare-Arrives n db texts c.clock c.runs c.lease_token action_id key token i)
workflow_step-Moves n db (c, dispatches key attempt token) le =
    settled-Moves n db _ (begin-Arrives n db c.clock c.runs c.lease_token key attempt token)
workflow_step-Moves n db (c, redispatches key previous attempt token) le =
    settled-Moves n db _
      (retry-Arrives n db c.clock c.runs c.lease_token key previous attempt token)
workflow_step-Moves n db (c, finalizes rule texts key token attempt ending) le =
    settled-Moves n db _
      (finalize-Arrives n db rule texts c.clock c.runs c.lease_token key token attempt ending)

LedgerMoves-trans :
    {n : ℕ} {a b c : Ledger} → LedgerMoves n a b → LedgerMoves n b c → LedgerMoves n a c
LedgerMoves-trans m here = m
LedgerMoves-trans m (next k s) = next (LedgerMoves-trans m k) s

pub workflow_calls-Moves :
    (n : ℕ) (db : Ledger) (cs : List (Context × WorkflowCall))
    → budget cs ≤ n
    → LedgerMoves n db (workflow_calls db cs)
unfolding workflow_calls
workflow_calls-Moves n db [] le = here
workflow_calls-Moves n db (c ∷ cs) le =
    LedgerMoves-trans (workflow_step-Moves n db c (omega (arith, le)))
      (workflow_calls-Moves n (workflow_step db c) cs (omega (arith, le)))
