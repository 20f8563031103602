-- ===== src/Workflow/Intents.antt =====
-- What a history of calls never does to an external action, and when none is dispatched.
use agent_runtime_platform.Base.{
  ℕ, ◌≤◌, true, false, not, ◌||◌, Option, some, List, ◌≡◌, refl, sym, subst, ap, ◌∙◌, inl, inr,
  arith, some-inj, Bool-cases,
}
use agent_runtime_platform.Base.Table
use agent_runtime_platform.Base.Table.{number_key, pair_key}
use agent_runtime_platform.Models.{RunRecord, is_running}
use agent_runtime_platform.RunStore.{Clock, Result, ok, err, find_run}
use agent_runtime_platform.RunStore.Moves.{Ensures}
use agent_runtime_platform.RunStore.Moves.Rules.{Ensures-bind, Ensures-ok, Ensures-if, or_error-ok}
use agent_runtime_platform.Workflow.{
  Ledger, migrated, ExternalActionRecord, action_key, find_action,
}
use agent_runtime_platform.Workflow.Actions.{is_terminal_action, is_dispatching, run_row}
use agent_runtime_platform.Workflow.Actions.Dispatch.{
  begin_external_action_dispatch, begin_on_row, begin_for_run,
}
use agent_runtime_platform.Workflow.Calls.{Context, WorkflowCall, settled, workflow_calls, budget}
use agent_runtime_platform.Workflow.Moves.{
  LedgerMove, LedgerMoves, here, next, opens, moves_execution, adds_step, moves_step, adds_action,
  moves_action, appends, ActionMove, ActionRule, dispatches, redispatches, ends,
}
use agent_runtime_platform.Workflow.Moves.Steps.{workflow_calls-Moves}

-- What a later row of an external action is.
pub record ActionLater (a v : ExternalActionRecord) : Type 0 where
  pub id : v.action_id ≡ a.action_id
  pub identity : v.identity ≡ a.identity
  pub grows : a.dispatch_count ≤ v.dispatch_count
  pub kept : is_terminal_action a.status ≡ true → v ≡ a

is_terminal_action-ActionRule :
    {a v : ExternalActionRecord} → ActionRule a v → is_terminal_action a.status ≡ false
is_terminal_action-ActionRule (dispatches p q) = ap is_terminal_action p
is_terminal_action-ActionRule (redispatches p q u) = ap is_terminal_action p
is_terminal_action-ActionRule (ends p q t) = ap is_terminal_action p

ActionMove-Later :
    (a t v : ExternalActionRecord) → ActionLater a t → ActionMove t v → ActionLater a v
ActionMove-Later a t v l m = record {
  id = m.same_id ∙ l.id;
  identity = m.same_identity ∙ l.identity;
  grows = omega (arith, l.grows, m.grows);
  kept = λ c. absurd (
      cc (
        is_terminal_action-ActionRule m.rule,
        ap (λ (x : ExternalActionRecord). is_terminal_action x.status) (l.kept c),
      ));
}

abbrev ActionFollows : Ledger → ℕ × ℕ → ExternalActionRecord → Type 0
ActionFollows db k a =
    (v : ExternalActionRecord) × (find_action k db.external_actions ≡ some v) × ActionLater a v

same-ActionFollows :
    (db db' : Ledger) (k : ℕ × ℕ) (a : ExternalActionRecord)
    → db'.external_actions ≡ db.external_actions
    → ActionFollows db k a
    → ActionFollows db' k a
same-ActionFollows db db' k a q f = (f.0, ap (find_action k) q ∙ f.1, f.2)

moves-ActionFollows :
    (db : Ledger) (t v : ExternalActionRecord) (k : ℕ × ℕ) (a : ExternalActionRecord)
    → find_action (action_key t) db.external_actions ≡ some t
    → ActionMove t v
    → ActionFollows db k a
    → ActionFollows
        (record db { external_actions = Table.set action_key (action_key t) v db.external_actions })
        k
        a
moves-ActionFollows db t v k a g m f =
    let key : action_key v ≡ action_key t = cc (m.same_run, m.same_step) in
    elim (Bool-cases (pair_key.same (action_key t) k)) [
      | inl y ↦
          let same : action_key t ≡ k = (pair_key.same_iff (action_key t) k).0 y in
          let old : f.0 ≡ t =
            some-inj (sym f.1 ∙ subst (λ j. find_action j db.external_actions ≡ some t) same g) in
          (
            v,
            subst
                (λ j.
                  find_action j (Table.set action_key (action_key t) v db.external_actions)
                  ≡ some v)
                same (Table.find-set_self action_key (action_key t) v db.external_actions key g),
            ActionMove-Later a t v (subst (ActionLater a) old f.2) m,
          )
      | inr n ↦ (
        f.0,
        Table.find-set_ne action_key (action_key t) k v db.external_actions key n ∙ f.1,
        f.2,
      )
    ]

LedgerMove-ActionFollows :
    {n : ℕ} {db db' : Ledger} (k : ℕ × ℕ) (a : ExternalActionRecord)
    → LedgerMove n db db'
    → ActionFollows db k a
    → ActionFollows db' k a
LedgerMove-ActionFollows {n} {db} {db'} k a (opens e fresh p q) f =
    same-ActionFollows db db' k a (ap (λ (d : Ledger). d.external_actions) q) f
LedgerMove-ActionFollows {n} {db} {db'} k a (moves_execution e v g m q) f =
    same-ActionFollows db db' k a (ap (λ (d : Ledger). d.external_actions) q) f
LedgerMove-ActionFollows {n} {db} {db'} k a (adds_step s fresh known few w q) f =
    same-ActionFollows db db' k a (ap (λ (d : Ledger). d.external_actions) q) f
LedgerMove-ActionFollows {n} {db} {db'} k a (moves_step s v g m q) f =
    same-ActionFollows db db' k a (ap (λ (d : Ledger). d.external_actions) q) f
LedgerMove-ActionFollows {n} {db} {db'} k a (adds_action t fresh free w q) f =
    subst (λ d. ActionFollows d k a) (sym q)
      (f.0, Table.find-cons action_key t k db.external_actions fresh f.1, f.2)
LedgerMove-ActionFollows {n} {db} {db'} k a (moves_action t v g m q) f =
    subst (λ d. ActionFollows d k a) (sym q) (moves-ActionFollows db t v k a g m f)
LedgerMove-ActionFollows {n} {db} {db'} k a (appends e known j q) f =
    same-ActionFollows db db' k a (ap (λ (d : Ledger). d.external_actions) q) f

LedgerMoves-ActionFollows :
    {n : ℕ} {db d : Ledger} (k : ℕ × ℕ) (a : ExternalActionRecord)
    → LedgerMoves n db d
    → ActionFollows db k a
    → ActionFollows d k a
LedgerMoves-ActionFollows k a here f = f
LedgerMoves-ActionFollows k a (next m x) f =
    LedgerMove-ActionFollows k a x (LedgerMoves-ActionFollows k a m f)

-- After any calls, an external action that was prepared is there under its id, for the same tenant,
-- tool, provider, arguments, retry mode and idempotency key, with no fewer dispatches, and if it had
-- ended, its row is what it was: the first outcome that is recorded stays.
pub workflow_calls-ActionLater :
    (db : Ledger) (cs : List (Context × WorkflowCall)) (k : ℕ × ℕ) (a : ExternalActionRecord)
    → find_action k db.external_actions ≡ some a
    → (v : ExternalActionRecord) × (find_action k (workflow_calls db cs).external_actions ≡ some v)
      × ActionLater a v
workflow_calls-ActionLater db cs k a f =
    LedgerMoves-ActionFollows k a (workflow_calls-Moves (budget cs) db cs (omega arith))
      (a, f, record { id = refl; identity = refl; grows = omega arith; kept = λ _. refl })

module _ (clock : Clock) (rows : List RunRecord) (key : ℕ × ℕ) (attempt token : ℕ) (run : RunRecord)
    (found : find_run key.0 rows ≡ some run)
    (cancelled : (not (is_running run.status) || run.cancel_requested) ≡ true) (db : Ledger) where
  begin_on_row-kept :
      (a : ExternalActionRecord)
      → Ensures (λ p. p.0 ≡ db) (begin_on_row clock (migrated rows) key attempt token a db)
  unfolding begin_on_row begin_for_run run_row
  begin_on_row-kept a =
      Ensures-if (is_terminal_action a.status) _ _ (λ _. Ensures-ok _ refl)
        λ _.
          Ensures-if (is_dispatching a.status) _ _ (λ _. Ensures-ok _ refl)
            λ _. Ensures-bind _ _ λ r f.
              let same : r ≡ run = some-inj (sym (or_error-ok _ _ f) ∙ found) in
              Ensures-if (not (is_running r.status) || r.cancel_requested) _ _
                (λ _. Ensures-ok _ refl)
                λ no. absurd (
                  cc (
                    no,
                    cancelled,
                    ap (λ (x : RunRecord). not (is_running x.status) || x.cancel_requested) same,
                  ))

  settled-kept {ℓ} :
      {A : Type ℓ} (m : Result (Ledger × A)) → Ensures (λ p. p.0 ≡ db) m → settled db m ≡ db
  settled-kept (ok p) h = h.at p refl
  settled-kept (err e) h = refl

  -- Once the cancellation of a run is recorded, or the run no longer runs, beginning a dispatch
  -- changes nothing: a prepared action is not sent, and no event says that it was.
  pub begin_external_action_dispatch-cancelled :
      (lease : Option ℕ)
      → settled db (begin_external_action_dispatch clock (migrated rows) lease key attempt token db)
        ≡ db
  unfolding begin_external_action_dispatch
  begin_external_action_dispatch-cancelled lease =
      settled-kept _ (Ensures-bind _ _ λ _ _. Ensures-bind _ _ λ a _. begin_on_row-kept a)
