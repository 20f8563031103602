-- ===== src/Workflow/History/Executions.antt =====
-- What a history of calls never does to an execution: change its identity, or its row once it has
-- ended.
use agent_runtime_platform.Base.{
  ℕ, true, false, some, List, ◌≡◌, refl, sym, subst, ap, ◌∙◌, inl, inr, arith, some-inj, Bool-cases,
}
use agent_runtime_platform.Base.Table
use agent_runtime_platform.Base.Table.{number_key, pair_key}
use agent_runtime_platform.Workflow.{
  Ledger, WorkflowExecutionRecord, execution_key, find_execution, WorkflowStatus, is_final,
}
use agent_runtime_platform.Workflow.Calls.{Context, WorkflowCall, workflow_calls, budget}
use agent_runtime_platform.Workflow.Moves.{
  LedgerMove, LedgerMoves, here, next, opens, moves_execution, adds_step, moves_step, adds_action,
  moves_action, appends, ExecutionMove, ExecutionStep, starts, readies, blocks,
  fails as fails_execution,
}
use agent_runtime_platform.Workflow.Moves.Steps.{workflow_calls-Moves}

-- What a later row of an execution is.
pub record ExecutionLater (e v : WorkflowExecutionRecord) : Type 0 where
  pub type : v.workflow_type ≡ e.workflow_type
  pub input : v.input_hash ≡ e.input_hash
  pub kept : is_final e.status ≡ true → v ≡ e

is_final-ExecutionStep : {s t : WorkflowStatus} → ExecutionStep s t → is_final s ≡ false
is_final-ExecutionStep starts = refl
is_final-ExecutionStep readies = refl
is_final-ExecutionStep blocks = refl
is_final-ExecutionStep fails_execution = refl

abbrev ExecutionFollows : Ledger → ℕ → WorkflowExecutionRecord → Type 0
ExecutionFollows db i e =
    (v : WorkflowExecutionRecord) × (find_execution i db.workflow_executions ≡ some v)
    × ExecutionLater e v

same-ExecutionFollows :
    (db db' : Ledger) (i : ℕ) (e : WorkflowExecutionRecord)
    → db'.workflow_executions ≡ db.workflow_executions
    → ExecutionFollows db i e
    → ExecutionFollows db' i e
same-ExecutionFollows db db' i e q f = (f.0, ap (find_execution i) q ∙ f.1, f.2)

ExecutionMove-Later :
    (e t v : WorkflowExecutionRecord) → ExecutionLater e t → ExecutionMove t v → ExecutionLater e v
ExecutionMove-Later e t v l m = record {
  type = m.same_type ∙ l.type;
  input = m.same_input ∙ l.input;
  kept = λ c. absurd (
      cc (
        is_final-ExecutionStep m.status,
        ap (λ (x : WorkflowExecutionRecord). is_final x.status) (l.kept c),
      ));
}

moves-ExecutionFollows :
    (db : Ledger) (t v : WorkflowExecutionRecord) (i : ℕ) (e : WorkflowExecutionRecord)
    → find_execution t.run_id db.workflow_executions ≡ some t
    → ExecutionMove t v
    → ExecutionFollows db i e
    → ExecutionFollows
        (record db {
          workflow_executions = Table.set execution_key t.run_id v db.workflow_executions;
        })
        i
        e
moves-ExecutionFollows db t v i e g m f = elim (Bool-cases (number_key.same t.run_id i)) [
  | inl y ↦
      let same : t.run_id ≡ i = (number_key.same_iff t.run_id i).0 y in
      let old : f.0 ≡ t =
        some-inj (sym f.1 ∙ subst (λ j. find_execution j db.workflow_executions ≡ some t) same g) in
      (
        v,
        subst
            (λ j.
              find_execution j (Table.set execution_key t.run_id v db.workflow_executions) ≡ some v)
            same (Table.find-set_self execution_key t.run_id v db.workflow_executions m.same_run g),
        ExecutionMove-Later e t v (subst (ExecutionLater e) old f.2) m,
      )
  | inr n ↦ (
    f.0,
    Table.find-set_ne execution_key t.run_id i v db.workflow_executions m.same_run n ∙ f.1,
    f.2,
  )
]

LedgerMove-ExecutionFollows :
    {n : ℕ} {db db' : Ledger} (i : ℕ) (e : WorkflowExecutionRecord)
    → LedgerMove n db db'
    → ExecutionFollows db i e
    → ExecutionFollows db' i e
LedgerMove-ExecutionFollows {n} {db} {db'} i e (opens t fresh p q) f =
    subst (λ d. ExecutionFollows d i e) (sym q)
      (f.0, Table.find-cons execution_key t i db.workflow_executions fresh f.1, f.2)
LedgerMove-ExecutionFollows {n} {db} {db'} i e (moves_execution t v g m q) f =
    subst (λ d. ExecutionFollows d i e) (sym q) (moves-ExecutionFollows db t v i e g m f)
LedgerMove-ExecutionFollows {n} {db} {db'} i e (adds_step t fresh known few w q) f =
    same-ExecutionFollows db db' i e (ap (λ (d : Ledger). d.workflow_executions) q) f
LedgerMove-ExecutionFollows {n} {db} {db'} i e (moves_step t v g m q) f =
    same-ExecutionFollows db db' i e (ap (λ (d : Ledger). d.workflow_executions) q) f
LedgerMove-ExecutionFollows {n} {db} {db'} i e (adds_action a fresh free w q) f =
    same-ExecutionFollows db db' i e (ap (λ (d : Ledger). d.workflow_executions) q) f
LedgerMove-ExecutionFollows {n} {db} {db'} i e (moves_action a v g m q) f =
    same-ExecutionFollows db db' i e (ap (λ (d : Ledger). d.workflow_executions) q) f
LedgerMove-ExecutionFollows {n} {db} {db'} i e (appends t known j q) f =
    same-ExecutionFollows db db' i e (ap (λ (d : Ledger). d.workflow_executions) q) f

LedgerMoves-ExecutionFollows :
    {n : ℕ} {db d : Ledger} (i : ℕ) (e : WorkflowExecutionRecord)
    → LedgerMoves n db d
    → ExecutionFollows db i e
    → ExecutionFollows d i e
LedgerMoves-ExecutionFollows i e here f = f
LedgerMoves-ExecutionFollows i e (next m x) f =
    LedgerMove-ExecutionFollows i e x (LedgerMoves-ExecutionFollows i e m f)

-- After any calls, an execution that was there is there, of the same type and for the same input,
-- and if it was ready, blocked or failed, its row is what it was: the first terminal status stays.
pub workflow_calls-ExecutionLater :
    (db : Ledger) (cs : List (Context × WorkflowCall)) (i : ℕ) (e : WorkflowExecutionRecord)
    → find_execution i db.workflow_executions ≡ some e
    → (v : WorkflowExecutionRecord) × (find_execution i (workflow_calls db cs).workflow_executions
        ≡ some v)
      × ExecutionLater e v
workflow_calls-ExecutionLater db cs i e f =
    LedgerMoves-ExecutionFollows i e (workflow_calls-Moves (budget cs) db cs (omega arith))
      (e, f, record { type = refl; input = refl; kept = λ _. refl })
