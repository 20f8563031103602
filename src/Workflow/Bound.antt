-- ===== src/Workflow/Bound.antt =====
-- How often a step is tried.
use agent_runtime_platform.Base.{ℕ, ◌≤◌, some, List, ◌≡◌, sym, subst, inl, inr, arith}
use agent_runtime_platform.Base.Table
use agent_runtime_platform.Base.Table.{number_key, pair_key}
use agent_runtime_platform.Workflow.{Ledger, ToolCallRecord, step_key, find_step}
use agent_runtime_platform.Workflow.Calls.{Context, WorkflowCall, workflow_calls, budget}
use agent_runtime_platform.Workflow.WellFormed.{no_ledger}
use agent_runtime_platform.Workflow.Moves.{
  LedgerMove, LedgerMoves, here, next, opens, moves_execution, adds_step, moves_step, adds_action,
  moves_action, appends, StepRule, retries, completes, fails,
}
use agent_runtime_platform.Workflow.Moves.Steps.{workflow_calls-Moves}

abbrev Bounded : ℕ → List ToolCallRecord → Type 0
Bounded n rows = (k : ℕ × ℕ) (s : ToolCallRecord) → find_step k rows ≡ some s → s.attempt_count ≤ n

StepRule-le :
    {n : ℕ} {s v : ToolCallRecord} → StepRule n s v → s.attempt_count ≤ n → v.attempt_count ≤ n
StepRule-le (retries a b c d) h = d
StepRule-le (completes a b c d) h = omega (arith, c, h)
StepRule-le (fails a b c d) h = omega (arith, c, h)

LedgerMove-Bounded :
    {n : ℕ} {db db' : Ledger}
    → LedgerMove n db db'
    → Bounded n db.tool_calls
    → Bounded n db'.tool_calls
LedgerMove-Bounded {n} (opens e fresh p q) h =
    subst (λ (d : Ledger). Bounded n d.tool_calls) (sym q) h
LedgerMove-Bounded {n} (moves_execution e v f m q) h =
    subst (λ (d : Ledger). Bounded n d.tool_calls) (sym q) h
LedgerMove-Bounded {n} {db} (adds_step s fresh known few w q) h =
    subst (λ (d : Ledger). Bounded n d.tool_calls) (sym q)
      λ k t f. elim (Table.find-cons_cases step_key k s db.tool_calls f) [
        | inl (_, e) ↦ subst (λ (x : ToolCallRecord). x.attempt_count ≤ n) (sym e) few
        | inr (_, old) ↦ h k t old
      ]
LedgerMove-Bounded {n} {db} (moves_step s v f m q) h =
    subst (λ (d : Ledger). Bounded n d.tool_calls) (sym q)
      λ k t g.
        let same : step_key v ≡ step_key s = cc (m.same_run, m.same_step) in
        elim (Table.find-set_cases step_key (step_key s) k v db.tool_calls same g) [
          | inl (_, e) ↦
              subst (λ (x : ToolCallRecord). x.attempt_count ≤ n) (sym e)
                (StepRule-le m.rule (h (step_key s) s f))
          | inr (_, old) ↦ h k t old
        ]
LedgerMove-Bounded {n} (adds_action a fresh free w q) h =
    subst (λ (d : Ledger). Bounded n d.tool_calls) (sym q) h
LedgerMove-Bounded {n} (moves_action a v g m q) h =
    subst (λ (d : Ledger). Bounded n d.tool_calls) (sym q) h
LedgerMove-Bounded {n} (appends e known j q) h =
    subst (λ (d : Ledger). Bounded n d.tool_calls) (sym q) h

LedgerMoves-Bounded :
    {n : ℕ} {db d : Ledger} → LedgerMoves n db d → Bounded n db.tool_calls → Bounded n d.tool_calls
LedgerMoves-Bounded here h = h
LedgerMoves-Bounded (next m s) h = LedgerMove-Bounded s (LedgerMoves-Bounded m h)

no_ledger-Bounded : (n : ℕ) → Bounded n no_ledger.tool_calls
unfolding Table.find
no_ledger-Bounded n k s f = absurd (cc)

-- From empty tables on, however claims, failures and recoveries are ordered, no step is tried more
-- often than the claim of the history that allows most attempts.
pub workflow_calls-attempts :
    (cs : List (Context × WorkflowCall)) (k : ℕ × ℕ) (s : ToolCallRecord)
    → find_step k (workflow_calls no_ledger cs).tool_calls ≡ some s
    → s.attempt_count ≤ budget cs
workflow_calls-attempts cs =
    LedgerMoves-Bounded (workflow_calls-Moves (budget cs) no_ledger cs (omega arith))
      (no_ledger-Bounded (budget cs))
