-- ===== src/Workflow/Grants/Counted.antt =====
-- What a call does that is granted the dispatch of an external action.
use agent_runtime_platform.Base.{
  ℕ, suc, Bool, true, false, not, ◌&&◌, ◌||◌, Option, none, some, ◌≡◌, refl, sym, subst, ap, ◌∙◌,
  arith, some-inj,
}
use agent_runtime_platform.Base.Table.{number_key, pair_key}
use agent_runtime_platform.Models.{is_running}
use agent_runtime_platform.RunStore.{Clock, Result, ok, err}
use agent_runtime_platform.RunStore.Moves.{Ensures}
use agent_runtime_platform.RunStore.Moves.Rules.{
  Ensures-bind, Ensures-ok, Ensures-if, Ensures-guard, or_error-ok,
}
use agent_runtime_platform.Workflow.{Ledger, ExternalActionRecord, find_action}
use agent_runtime_platform.Workflow.Actions.{is_terminal_action, is_dispatching, is_unsafe}
use agent_runtime_platform.Workflow.Actions.Dispatch.{
  ExternalActionDispatchOutcome, dispatch_claimed, retry_claimed, terminal, already_dispatching,
  run_cancelled, not_dispatching, retry_unsafe, dispatch_answer, ExternalActionDispatchResult,
  dispatch_action, write_dispatch, begin_external_action_dispatch, begin_on_row, begin_for_run,
  retry_external_action_dispatch, retry_on_row,
}
use agent_runtime_platform.Workflow.Calls.{
  Context, WorkflowCall, dispatches, redispatches, settled, workflow_step,
}
use agent_runtime_platform.Workflow.Endings.Recorded.{append-Kept, set_action-found}

-- The caller may send the request now.
abbrev pub is_grant : ExternalActionDispatchOutcome → Bool
is_grant dispatch_claimed = true
is_grant retry_claimed = true
is_grant _ = false

abbrev pub granted : Result (Ledger × ExternalActionDispatchResult) → Bool
granted (ok p) = is_grant p.1.outcome
granted (err e) = false

-- The call, made on these tables, is granted the dispatch of the action at the key.
abbrev pub grants : Context × WorkflowCall → ℕ × ℕ → Ledger → Bool
grants (c, dispatches key attempt token) k db =
    pair_key.same key k
    && granted (begin_external_action_dispatch c.clock c.runs c.lease_token key attempt token db)
grants (c, redispatches key previous attempt token) k db =
    pair_key.same key k
    && granted
        (retry_external_action_dispatch c.clock c.runs c.lease_token key previous attempt token db)
grants _ k db = false

-- One dispatch more is on record.
abbrev pub Counted : ℕ × ℕ → ExternalActionRecord → Ledger → Type 0
Counted k a db =
    (v : ExternalActionRecord) × (find_action k db.external_actions ≡ some v)
    × (v.dispatch_count ≡ suc a.dispatch_count)

module _ (k : ℕ × ℕ) (a : ExternalActionRecord) (db : Ledger)
    (found : find_action k db.external_actions ≡ some a) where
  abbrev OnGrant : Ledger × ExternalActionDispatchResult → Type 0
  OnGrant p = is_grant p.1.outcome ≡ true → Counted k a p.0

  write_dispatch-OnGrant :
      (clock : Clock) (token : ℕ) (retry : Bool) (o : ExternalActionDispatchOutcome)
      → Ensures OnGrant (write_dispatch clock token a retry o db)
  unfolding write_dispatch dispatch_action
  write_dispatch-OnGrant clock token retry o = Ensures-bind _ _ λ d l. Ensures-ok _ λ _. (
    dispatch_action clock token a,
    ap (find_action k) (append-Kept a.run_id _ _ clock.utc_now _ l).actions
        ∙ set_action-found db k a (dispatch_action clock token a) found refl,
    refl,
  )

  answer-OnGrant :
      (o : ExternalActionDispatchOutcome) (token : Option ℕ)
      → is_grant o ≡ false
      → Ensures OnGrant (dispatch_answer db o a token)
  answer-OnGrant o token not_one = Ensures-ok _ λ h. absurd (cc (h, not_one))

  begin_on_row-OnGrant :
      (c : Context) (attempt token : ℕ)
      → Ensures OnGrant (begin_on_row c.clock c.runs k attempt token a db)
  unfolding begin_on_row begin_for_run
  begin_on_row-OnGrant c attempt token =
      Ensures-if (is_terminal_action a.status) _ _ (λ _. answer-OnGrant terminal none refl)
        λ _.
          Ensures-if (is_dispatching a.status) _ _
            (λ _. answer-OnGrant already_dispatching a.dispatch_token refl)
            λ _. Ensures-bind _ _ λ run _.
              Ensures-if (not (is_running run.status) || run.cancel_requested) _ _
                (λ _. answer-OnGrant run_cancelled none refl)
                λ _. Ensures-bind _ _ λ _ _.
                  Ensures-guard _ _ _
                    λ _. write_dispatch-OnGrant c.clock token false dispatch_claimed

  retry_on_row-OnGrant :
      (c : Context) (previous attempt token : ℕ)
      → Ensures OnGrant (retry_on_row c.clock k previous attempt token a db)
  unfolding retry_on_row
  retry_on_row-OnGrant c previous attempt token =
      Ensures-if (is_terminal_action a.status) _ _ (λ _. answer-OnGrant terminal none refl)
        λ _.
          Ensures-if (not (is_dispatching a.status)) _ _
            (λ _. answer-OnGrant not_dispatching none refl)
            λ _.
              Ensures-if (is_unsafe a.identity.retry_mode) _ _
                (λ _. answer-OnGrant retry_unsafe a.dispatch_token refl)
                λ _. Ensures-guard _ _ _ λ _.
                  Ensures-bind _ _ λ _ _. write_dispatch-OnGrant c.clock token true retry_claimed

  begin-OnGrant :
      (c : Context) (attempt token : ℕ)
      → Ensures OnGrant
          (begin_external_action_dispatch c.clock c.runs c.lease_token k attempt token db)
  unfolding begin_external_action_dispatch
  begin-OnGrant c attempt token = Ensures-bind _ _ λ _ _. Ensures-bind _ _ λ b f.
      let same : a ≡ b = some-inj (sym found ∙ or_error-ok _ _ f) in
      subst (λ x. Ensures OnGrant (begin_on_row c.clock c.runs k attempt token x db)) same
        (begin_on_row-OnGrant c attempt token)

  retry-OnGrant :
      (c : Context) (previous attempt token : ℕ)
      → Ensures OnGrant
          (retry_external_action_dispatch c.clock c.runs c.lease_token k previous attempt token db)
  unfolding retry_external_action_dispatch
  retry-OnGrant c previous attempt token = Ensures-bind _ _ λ _ _. Ensures-bind _ _ λ b f.
      let same : a ≡ b = some-inj (sym found ∙ or_error-ok _ _ f) in
      subst (λ x. Ensures OnGrant (retry_on_row c.clock k previous attempt token x db)) same
        (retry_on_row-OnGrant c previous attempt token)

  granted-Counted :
      (m : Result (Ledger × ExternalActionDispatchResult))
      → Ensures OnGrant m
      → granted m ≡ true
      → Counted k a (settled db m)
  granted-Counted (ok p) h g = h.at p refl g
  granted-Counted (err e) h g = absurd (cc)

pub grants-Counted :
    (call : Context × WorkflowCall) (k : ℕ × ℕ) (a : ExternalActionRecord) (db : Ledger)
    → find_action k db.external_actions ≡ some a
    → grants call k db ≡ true
    → Counted k a (workflow_step db call)
unfolding workflow_step
grants-Counted (c, dispatches key attempt token) k a db found g =
    let same : key ≡ k = (pair_key.same_iff key k).0 (ground arith) in
    granted-Counted k a db found
      (begin_external_action_dispatch c.clock c.runs c.lease_token key attempt token db)
      (subst
        (λ j.
          Ensures (OnGrant k a db found)
            (begin_external_action_dispatch c.clock c.runs c.lease_token j attempt token db))
        (sym same) (begin-OnGrant k a db found c attempt token))
      (ground arith)
grants-Counted (c, redispatches key previous attempt token) k a db found g =
    let same : key ≡ k = (pair_key.same_iff key k).0 (ground arith) in
    granted-Counted k a db found
      (retry_external_action_dispatch c.clock c.runs c.lease_token key previous attempt token db)
      (subst
        (λ j.
          Ensures (OnGrant k a db found) (
            retry_external_action_dispatch c.clock c.runs c.lease_token j previous attempt token
              db))
        (sym same) (retry-OnGrant k a db found c previous attempt token))
      (ground arith)
grants-Counted (c, _) k a db found g = absurd (cc)
