-- ===== src/Workflow/Keep.antt =====
-- The tables of the workflow store stay well formed, whatever calls are made.
use agent_runtime_platform.Base.{
  ℕ, false, none, some, List, ◌∷◌, ◌≡◌, sym, subst, inl, inr, arith, is_null,
}
use agent_runtime_platform.Base.Table
use agent_runtime_platform.Base.Table.{number_key, pair_key}
use agent_runtime_platform.Workflow.{
  Ledger, WorkflowExecutionRecord, ToolCallRecord, execution_key, step_key, find_execution,
  find_step,
}
use agent_runtime_platform.Workflow.Calls.{Context, WorkflowCall, workflow_calls, budget}
use agent_runtime_platform.Workflow.Moves.{
  LedgerMove, LedgerMoves, here, next, opens, moves_execution, adds_step, moves_step, adds_action,
  moves_action, appends, StepOk, StepMove,
}
use agent_runtime_platform.Workflow.Moves.Steps.{workflow_calls-Moves}
use agent_runtime_platform.Workflow.WellFormed.{no_ledger, LedgerInv}
use agent_runtime_platform.Workflow.KeepActions.{adds_action-Inv, moves_action-Inv}

known-cons :
    (e : WorkflowExecutionRecord) (i : ℕ) (es : List WorkflowExecutionRecord)
    → is_null (find_execution i es) ≡ false
    → is_null (find_execution i (e ∷ es)) ≡ false
unfolding Table.find
known-cons e i es h = ground arith

known-set :
    (e v : WorkflowExecutionRecord) (i : ℕ) (es : List WorkflowExecutionRecord)
    → v.run_id ≡ e.run_id
    → is_null (find_execution i es) ≡ false
    → is_null (find_execution i (Table.set execution_key e.run_id v es)) ≡ false
known-set e v i es same h =
    ground
      (arith, Table.find-set execution_key e.run_id i v es same, number_key.same_iff e.run_id i)

module _ (db : Ledger) (h : LedgerInv db) where
  opens-Inv :
      (e : WorkflowExecutionRecord)
      → find_execution e.run_id db.workflow_executions ≡ none
      → LedgerInv (record db { workflow_executions = e ∷ db.workflow_executions })
  opens-Inv e fresh = record {
    executions = (fresh, h.executions);
    distinct = h.distinct;
    steps = h.steps;
    owned = λ k s f. known-cons e k.0 db.workflow_executions (h.owned k s f);
    numbered = h.numbered;
    intents = h.intents;
    actions = h.actions;
    keyed = h.keyed;
  }

  moves_execution-Inv :
      (e v : WorkflowExecutionRecord)
      → v.run_id ≡ e.run_id
      → LedgerInv (record db {
        workflow_executions = Table.set execution_key e.run_id v db.workflow_executions;
      })
  moves_execution-Inv e v same = record {
    executions =
        Table.Distinct-set execution_key e.run_id v db.workflow_executions same h.executions;
    distinct = h.distinct;
    steps = h.steps;
    owned = λ k s f. known-set e v k.0 db.workflow_executions same (h.owned k s f);
    numbered = h.numbered;
    intents = h.intents;
    actions = h.actions;
    keyed = h.keyed;
  }

  adds_step-Inv :
      (s : ToolCallRecord)
      → find_step (step_key s) db.tool_calls ≡ none
      → is_null (find_execution s.run_id db.workflow_executions) ≡ false
      → StepOk s
      → LedgerInv (record db { tool_calls = s ∷ db.tool_calls })
  adds_step-Inv s fresh known w = record {
    executions = h.executions;
    distinct = (fresh, h.distinct);
    steps = λ k t f. elim (Table.find-cons_cases step_key k s db.tool_calls f) [
      | inl (_, e) ↦ subst StepOk (sym e) w
      | inr (_, old) ↦ h.steps k t old
    ];
    owned = λ k t f. elim (Table.find-cons_cases step_key k s db.tool_calls f) [
      | inl (e, _) ↦
          subst (λ (j : ℕ × ℕ). is_null (find_execution j.0 db.workflow_executions) ≡ false) (sym e)
            known
      | inr (_, old) ↦ h.owned k t old
    ];
    numbered = h.numbered;
    intents = h.intents;
    actions = h.actions;
    keyed = h.keyed;
  }

  moves_step-Inv :
      (n : ℕ) (s v : ToolCallRecord)
      → find_step (step_key s) db.tool_calls ≡ some s
      → StepMove n s v
      → LedgerInv (record db { tool_calls = Table.set step_key (step_key s) v db.tool_calls })
  moves_step-Inv n s v f m =
      let same : step_key v ≡ step_key s = cc (m.same_run, m.same_step) in
      record {
        executions = h.executions;
        distinct = Table.Distinct-set step_key (step_key s) v db.tool_calls same h.distinct;
        steps = λ k t g.
            elim (Table.find-set_cases step_key (step_key s) k v db.tool_calls same g) [
              | inl (_, e) ↦ subst StepOk (sym e) (m.keeps (h.steps (step_key s) s f))
              | inr (_, old) ↦ h.steps k t old
            ];
        owned = λ k t g.
            elim (Table.find-set_cases step_key (step_key s) k v db.tool_calls same g) [
              | inl (e, _) ↦
                  subst (λ (j : ℕ × ℕ). is_null (find_execution j.0 db.workflow_executions) ≡ false)
                    (sym e) (h.owned (step_key s) s f)
              | inr (_, old) ↦ h.owned k t old
            ];
        numbered = h.numbered;
        intents = h.intents;
        actions = h.actions;
        keyed = h.keyed;
      }

LedgerMove-Inv : {n : ℕ} {db db' : Ledger} → LedgerMove n db db' → LedgerInv db → LedgerInv db'
LedgerMove-Inv {n} {db} (opens e fresh p q) h = subst LedgerInv (sym q) (opens-Inv db h e fresh)
LedgerMove-Inv {n} {db} (moves_execution e v f m q) h =
    subst LedgerInv (sym q) (moves_execution-Inv db h e v m.same_run)
LedgerMove-Inv {n} {db} (adds_step s fresh known few w q) h =
    subst LedgerInv (sym q) (adds_step-Inv db h s fresh known w)
LedgerMove-Inv {n} {db} (moves_step s v f m q) h =
    subst LedgerInv (sym q) (moves_step-Inv db h n s v f m)
LedgerMove-Inv {n} {db} (adds_action a fresh free w q) h =
    subst LedgerInv (sym q) (adds_action-Inv db h a fresh free w)
LedgerMove-Inv {n} {db} (moves_action a v f m q) h =
    subst LedgerInv (sym q) (moves_action-Inv db h a v f m)
LedgerMove-Inv {n} {db} (appends e known k q) h = subst LedgerInv (sym q) (record {
  executions = h.executions;
  distinct = h.distinct;
  steps = h.steps;
  owned = h.owned;
  numbered = (k, h.numbered);
  intents = h.intents;
  actions = h.actions;
  keyed = h.keyed;
})

pub LedgerMoves-Inv :
    {n : ℕ} {db db' : Ledger} → LedgerMoves n db db' → LedgerInv db → LedgerInv db'
LedgerMoves-Inv here h = h
LedgerMoves-Inv (next m s) h = LedgerMove-Inv s (LedgerMoves-Inv m h)

pub no_ledger-Inv : LedgerInv no_ledger
unfolding Table.find
no_ledger-Inv = record {
  executions = tt;
  distinct = tt;
  steps = λ k s f. absurd (cc);
  owned = λ k s f. absurd (cc);
  numbered = tt;
  intents = tt;
  actions = λ k a f. absurd (cc);
  keyed = λ j k a b f g e. absurd (cc);
}

-- From empty tables on, whatever calls are made in whatever order: keys are unique, every step is
-- one of an execution, a running step has a token and no error, a completed step has a result and
-- only a completed step has one, a failed step has an error code, the events of each execution are
-- numbered without a gap, an external action that is unsafe to repeat was dispatched at most once,
-- and no two external actions share an idempotency key.
pub workflow_calls-LedgerInv :
    (cs : List (Context × WorkflowCall)) → LedgerInv (workflow_calls no_ledger cs)
workflow_calls-LedgerInv cs =
    LedgerMoves-Inv (workflow_calls-Moves (budget cs) no_ledger cs (omega arith)) no_ledger-Inv
