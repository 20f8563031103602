-- ===== src/Workflow/History.antt =====
-- What a history of calls of the workflow store never does to a step: change its identity, or its
-- row once its evidence is complete.
pub mod Executions
use agent_runtime_platform.Base.{
  ℕ, suc, ◌≤◌, Bool, true, false, Option, none, some, List, [], ◌∷◌, ◌≡◌, ◌≢◌, refl, sym, subst, ap,
  ◌∙◌, ◌⊎◌, inl, inr, arith, is_null, String, some-inj, Bool-cases,
}
use agent_runtime_platform.Base.Table
use agent_runtime_platform.Base.Table.{number_key, pair_key}
use agent_runtime_platform.Workflow.{
  Ledger, WorkflowExecutionRecord, ToolCallRecord, execution_key, step_key, find_execution,
  find_step, WorkflowStatus, is_final, call_completed, is_completed_call,
}
use agent_runtime_platform.Workflow.Calls.{
  Context, WorkflowCall, workflow_step, workflow_calls, budget,
}
use agent_runtime_platform.Workflow.Moves.{
  LedgerMove, LedgerMoves, here, next, opens, moves_execution, adds_step, moves_step, adds_action,
  moves_action, appends, StepMove, StepRule, retries, completes, fails, ExecutionMove,
  ExecutionStep, starts, readies, blocks, fails as fails_execution,
}
use agent_runtime_platform.Workflow.Moves.Steps.{workflow_calls-Moves}

-- What a later row of a step is: the same tool on the same input, no fewer attempts, and the row
-- itself if it was complete.
pub record StepLater (s v : ToolCallRecord) : Type 0 where
  pub tool : v.tool_name ≡ s.tool_name
  pub input : v.input_hash ≡ s.input_hash
  pub attempts : s.attempt_count ≤ v.attempt_count
  pub kept : is_completed_call s.status ≡ true → v ≡ s

StepMove-Later : (n : ℕ) (s t v : ToolCallRecord) → StepLater s t → StepMove n t v → StepLater s v
StepMove-Later n s t v l m = record {
  tool = m.same_tool ∙ l.tool;
  input = m.same_input ∙ l.input;
  attempts = attempts_grow m.rule;
  kept = λ c. absurd (no_move m.rule (ap (λ (x : ToolCallRecord). x.status) (l.kept c)) c);
}
  where
    attempts_grow : StepRule n t v → s.attempt_count ≤ v.attempt_count
    attempts_grow (retries a b c d) = omega (arith, c, l.attempts)
    attempts_grow (completes a b c d) = omega (arith, c, l.attempts)
    attempts_grow (fails a b c d) = omega (arith, c, l.attempts)

    no_move : StepRule n t v → t.status ≡ s.status → is_completed_call s.status ≢ true
    no_move (retries a b c d) e h = cc (ap is_completed_call (sym e ∙ a), h)
    no_move (completes a b c d) e h = cc (ap is_completed_call (sym e ∙ a), h)
    no_move (fails a b c d) e h = cc (ap is_completed_call (sym e ∙ a), h)

abbrev StepFollows : Ledger → ℕ × ℕ → ToolCallRecord → Type 0
StepFollows db k s = (v : ToolCallRecord) × (find_step k db.tool_calls ≡ some v) × StepLater s v

same-StepFollows :
    (db db' : Ledger) (k : ℕ × ℕ) (s : ToolCallRecord)
    → db'.tool_calls ≡ db.tool_calls
    → StepFollows db k s
    → StepFollows db' k s
same-StepFollows db db' k s e f = (f.0, ap (find_step k) e ∙ f.1, f.2)

moves-StepFollows :
    (n : ℕ) (db : Ledger) (t v : ToolCallRecord) (k : ℕ × ℕ) (s : ToolCallRecord)
    → find_step (step_key t) db.tool_calls ≡ some t
    → StepMove n t v
    → StepFollows db k s
    → StepFollows (record db { tool_calls = Table.set step_key (step_key t) v db.tool_calls }) k s
moves-StepFollows n db t v k s g m f =
    let key : step_key v ≡ step_key t = cc (m.same_run, m.same_step) in
    elim (Bool-cases (pair_key.same (step_key t) k)) [
      | inl y ↦
          let same : step_key t ≡ k = (pair_key.same_iff (step_key t) k).0 y in
          let old : f.0 ≡ t =
            some-inj (sym f.1 ∙ subst (λ j. find_step j db.tool_calls ≡ some t) same g) in
          (
            v,
            subst (λ j. find_step j (Table.set step_key (step_key t) v db.tool_calls) ≡ some v) same
                (Table.find-set_self step_key (step_key t) v db.tool_calls key g),
            StepMove-Later n s t v (subst (StepLater s) old f.2) m,
          )
      | inr n ↦ (f.0, Table.find-set_ne step_key (step_key t) k v db.tool_calls key n ∙ f.1, f.2)
    ]

LedgerMove-StepFollows :
    {n : ℕ} {db db' : Ledger} (k : ℕ × ℕ) (s : ToolCallRecord)
    → LedgerMove n db db'
    → StepFollows db k s
    → StepFollows db' k s
LedgerMove-StepFollows {n} {db} {db'} k s (opens e fresh p q) f =
    same-StepFollows db db' k s (ap (λ (d : Ledger). d.tool_calls) q) f
LedgerMove-StepFollows {n} {db} {db'} k s (moves_execution e v g m q) f =
    same-StepFollows db db' k s (ap (λ (d : Ledger). d.tool_calls) q) f
LedgerMove-StepFollows {n} {db} {db'} k s (adds_step t fresh known few w q) f =
    subst (λ d. StepFollows d k s) (sym q)
      (f.0, Table.find-cons step_key t k db.tool_calls fresh f.1, f.2)
LedgerMove-StepFollows {n} {db} {db'} k s (moves_step t v g m q) f =
    subst (λ d. StepFollows d k s) (sym q) (moves-StepFollows n db t v k s g m f)
LedgerMove-StepFollows {n} {db} {db'} k s (adds_action a fresh free w q) f =
    same-StepFollows db db' k s (ap (λ (d : Ledger). d.tool_calls) q) f
LedgerMove-StepFollows {n} {db} {db'} k s (moves_action a v g m q) f =
    same-StepFollows db db' k s (ap (λ (d : Ledger). d.tool_calls) q) f
LedgerMove-StepFollows {n} {db} {db'} k s (appends e known j q) f =
    same-StepFollows db db' k s (ap (λ (d : Ledger). d.tool_calls) q) f

LedgerMoves-StepFollows :
    {n : ℕ} {db d : Ledger} (k : ℕ × ℕ) (s : ToolCallRecord)
    → LedgerMoves n db d
    → StepFollows db k s
    → StepFollows d k s
LedgerMoves-StepFollows k s here f = f
LedgerMoves-StepFollows k s (next m x) f =
    LedgerMove-StepFollows k s x (LedgerMoves-StepFollows k s m f)

-- After any calls, a step that was there is there, for the same tool on the same input and with no
-- fewer attempts, and if it was complete, its row is what it was: evidence is never overwritten.
pub workflow_calls-StepLater :
    (db : Ledger) (cs : List (Context × WorkflowCall)) (k : ℕ × ℕ) (s : ToolCallRecord)
    → find_step k db.tool_calls ≡ some s
    → (v : ToolCallRecord) × (find_step k (workflow_calls db cs).tool_calls ≡ some v)
      × StepLater s v
workflow_calls-StepLater db cs k s f =
    LedgerMoves-StepFollows k s (workflow_calls-Moves (budget cs) db cs (omega arith))
      (s, f, record { tool = refl; input = refl; attempts = omega arith; kept = λ _. refl })
