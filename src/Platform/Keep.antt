-- ===== src/Platform/Keep.antt =====
-- The stores of one file together: both invariants, and what the end of a run means for its workflow.
use agent_runtime_platform.Base.{
  ℕ, true, false, Option, none, some, List, [], ◌∷◌, ◌≡◌, sym, subst, ap, ◌∙◌, arith, is_null,
}
use agent_runtime_platform.Models.{RunStatus, RunRecord, is_terminal, is_running}
use agent_runtime_platform.RunStore.{Clock, find_run}
use agent_runtime_platform.RunStore.Lease.{holds_lease, runs_under}
use agent_runtime_platform.RunStore.Moves.{Moves, here, RowOk}
use agent_runtime_platform.RunStore.Moves.Rules.{Moves-trans}
use agent_runtime_platform.RunStore.Moves.Steps.{step-Moves}
use agent_runtime_platform.RunStore.Invariant.{Inv}
use agent_runtime_platform.RunStore.Invariant.Keep.{Moves-Inv, empty-Inv}
use agent_runtime_platform.RunStore.History.{Follows-Moves, Follows-refl}
use agent_runtime_platform.Workflow.{Ledger, has_authority, managed_run, lease_is_current, migrated}
use agent_runtime_platform.Workflow.Calls.{
  WorkflowCall, Context, workflow_step, workflow_calls, budget,
}
use agent_runtime_platform.Workflow.WellFormed.{LedgerInv}
use agent_runtime_platform.Workflow.Keep.{LedgerMoves-Inv, no_ledger-Inv}
use agent_runtime_platform.Workflow.Moves.Steps.{workflow_calls-Moves}
use agent_runtime_platform.Workflow.Attempts.{run_of, needs_lease, workflow_step-fenced}
use agent_runtime_platform.Platform.{Platform}
use agent_runtime_platform.Platform.Calls.{
  PlatformCall, run_call, workflow_call, resolves, empty_platform, context_of, platform_step,
  platform_calls,
}
use agent_runtime_platform.Platform.Resolves.{after_commit-Resolves}

-- Every call moves the tables of the run store along its machine.
platform_step-Moves :
    (p : Platform) (c : Clock × PlatformCall) → Moves p.database (platform_step p c).database
unfolding platform_step
platform_step-Moves p (clock, run_call call) = step-Moves p.database (clock, call)
platform_step-Moves p (clock, workflow_call lease call) = here
platform_step-Moves p (clock, resolves digests a) = (after_commit-Resolves digests clock a p).moves

platform_calls-Moves :
    (p : Platform) (cs : List (Clock × PlatformCall))
    → Moves p.database (platform_calls p cs).database
unfolding platform_calls
platform_calls-Moves p [] = here
platform_calls-Moves p (c ∷ cs) =
    Moves-trans (platform_step-Moves p c) (platform_calls-Moves (platform_step p c) cs)

workflow_step-LedgerInv :
    (db : Ledger) (c : Context × WorkflowCall) → LedgerInv db → LedgerInv (workflow_step db c)
unfolding workflow_calls
workflow_step-LedgerInv db c h =
    LedgerMoves-Inv (workflow_calls-Moves (budget (c ∷ [])) db (c ∷ []) (omega arith)) h

platform_step-LedgerInv :
    (p : Platform) (c : Clock × PlatformCall)
    → LedgerInv p.ledger
    → LedgerInv (platform_step p c).ledger
unfolding platform_step
platform_step-LedgerInv p (clock, run_call call) h = h
platform_step-LedgerInv p (clock, workflow_call lease call) h =
    workflow_step-LedgerInv p.ledger (context_of p clock lease, call) h
platform_step-LedgerInv p (clock, resolves digests a) h =
    subst LedgerInv (sym (after_commit-Resolves digests clock a p).same_ledger) h

platform_calls-LedgerInv :
    (p : Platform) (cs : List (Clock × PlatformCall))
    → LedgerInv p.ledger
    → LedgerInv (platform_calls p cs).ledger
unfolding platform_calls
platform_calls-LedgerInv p [] h = h
platform_calls-LedgerInv p (c ∷ cs) h =
    platform_calls-LedgerInv (platform_step p c) cs (platform_step-LedgerInv p c h)

-- From an empty file on, whatever calls of the run store, of the workflow store and of the operators
-- are interleaved at whatever times, the tables of both stores are well formed.
pub platform_calls-Inv :
    (cs : List (Clock × PlatformCall))
    → Inv (platform_calls empty_platform cs).database
      × LedgerInv (platform_calls empty_platform cs).ledger
platform_calls-Inv cs = (
  Moves-Inv (platform_calls-Moves empty_platform cs) empty-Inv,
  platform_calls-LedgerInv empty_platform cs no_ledger-Inv,
)

ended : (s : RunStatus) → is_terminal s ≡ true → is_running s ≡ false
ended s h = ground arith

-- A run without a lease gives no authority.
unleased-has_authority :
    (now i : ℕ) (lease : Option ℕ) (rows : List RunRecord) {r : RunRecord}
    → find_run i rows ≡ some r
    → is_null r.lease_token ≡ true
    → has_authority now i lease (migrated rows) ≡ false
unfolding has_authority managed_run lease_is_current holds_lease runs_under
unleased-has_authority now i none rows f n = ground arith
unleased-has_authority now i (some token) rows {r} f n = ground arith

-- Once a run has completed, failed or been cancelled, whether by an attempt, a cancellation or the
-- resolution of its quarantine, no call on its workflow changes anything in either store, at any
-- later time, with any token and after any other calls, except the recording of a provider's answer.
pub platform_calls-silenced :
    (cs ds : List (Clock × PlatformCall)) (i : ℕ) (r : RunRecord) (clock : Clock) (lease : Option ℕ)
    (call : WorkflowCall)
    → find_run i (platform_calls empty_platform cs).database.runs ≡ some r
    → is_terminal r.status ≡ true
    → run_of call ≡ i
    → needs_lease call ≡ true
    → platform_step
        (platform_calls (platform_calls empty_platform cs) ds)
        (clock, workflow_call lease call)
      ≡ platform_calls (platform_calls empty_platform cs) ds
unfolding platform_step
platform_calls-silenced cs ds i r clock lease call f t own needs =
    let p = platform_calls empty_platform cs in
    let q = platform_calls p ds in
    let later = Follows-Moves i r (platform_calls-Moves p ds) (Follows-refl p.database i r f) in
    let ok : RowOk r = (platform_calls-Inv cs).0.rows i r f in
    let found : find_run i q.database.runs ≡ some r = later.found ∙ ap some (later.frozen t) in
    let silent : has_authority clock.now_ms (run_of call) lease (migrated q.database.runs) ≡ false =
      subst (λ (k : ℕ). has_authority clock.now_ms k lease (migrated q.database.runs) ≡ false)
        (sym own)
        (unleased-has_authority clock.now_ms i lease q.database.runs found
          (ok.unleased (ended r.status t))) in
    ap (λ (l : Ledger). record q { ledger = l })
      (workflow_step-fenced q.ledger (context_of q clock lease) call silent needs)
