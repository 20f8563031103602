-- ===== src/Workflow/Stale.antt =====
-- An answer on another dispatch token than the action's own.
use agent_runtime_platform.Base.{
  ℕ, false, Option, none, some, ◌≡◌, ◌≢◌, refl, sym, subst, ◌∙◌, arith, String, some-inj,
  holds_number,
}
use agent_runtime_platform.Base.Table.{number_key, pair_key}
use agent_runtime_platform.RunStore.{Clock, Result, ok, err}
use agent_runtime_platform.RunStore.Moves.{Ensures}
use agent_runtime_platform.RunStore.Moves.Rules.{
  Ensures-bind, Ensures-err, Ensures-if, Ensures-guard, or_error-ok,
}
use agent_runtime_platform.Workflow.{
  Ledger, RunsTable, ToolCallRecord, find_step, ExternalActionRecord, find_action,
}
use agent_runtime_platform.Workflow.Actions.{Texts, is_terminal_action}
use agent_runtime_platform.Workflow.Actions.Ending.{Ending, EndingRule, is_duplicate}
use agent_runtime_platform.Workflow.Actions.Finalize.{
  finalize_terminal, finalize_open, finalize_action_on_row, finalize_external_action,
}
use agent_runtime_platform.Workflow.Calls.{settled}

module _ (db : Ledger) (key : ℕ × ℕ) (token attempt : ℕ) (e : Ending) (a : ExternalActionRecord)
    (found : find_action key db.external_actions ≡ some a)
    (other : holds_number a.dispatch_token token ≡ false) where
  finalize_terminal-stale :
      (result : Option String) (o : Option ToolCallRecord)
      → Ensures (λ _. ⊥) (finalize_terminal token attempt e result a o db)
  unfolding finalize_terminal is_duplicate
  finalize_terminal-stale result none = Ensures-err _
  finalize_terminal-stale result (some s) =
      Ensures-guard _ _ _ λ h. absurd (ground (arith, h, other))

  finalize_open-stale :
      (clock : Clock) (result : Option String) (o : Option ToolCallRecord)
      → Ensures (λ _. ⊥) (finalize_open clock token attempt e result a o db)
  unfolding finalize_open
  finalize_open-stale clock result o = Ensures-guard _ _ _ λ h. absurd (ground (arith, h, other))

  finalize-stale :
      (rule : EndingRule) (texts : Texts) (clock : Clock) (runs : RunsTable) (lease : Option ℕ)
      → Ensures
          (λ _. ⊥)
          (finalize_external_action rule texts clock runs lease key token attempt e db)
  unfolding finalize_external_action finalize_action_on_row
  finalize-stale rule texts clock runs lease = Ensures-bind _ _ λ result _. Ensures-bind _ _ λ _ _.
      Ensures-bind _ _ λ b f.
        let same : b ≡ a = some-inj (sym (or_error-ok _ _ f) ∙ found) in
        Ensures-bind _ _ λ _ _.
          Ensures-if (is_terminal_action b.status) _ _
            (λ _.
              subst
                (λ (x : ExternalActionRecord).
                  Ensures (λ _. ⊥)
                    (finalize_terminal token attempt e result x (find_step key db.tool_calls) db))
                (sym same) (finalize_terminal-stale result _))
            (λ _.
              subst
                (λ (x : ExternalActionRecord).
                  Ensures (λ _. ⊥)
                    (finalize_open clock token attempt e result x (find_step key db.tool_calls) db))
                (sym same) (finalize_open-stale clock result _))

  -- An answer on a dispatch token that is not the action's own, one of an earlier dispatch or of
  -- none, never returns a record, whatever it says and under whatever lease: it is refused, and with
  -- the tables as they were.
  pub finalize_external_action-stale :
      (rule : EndingRule) (texts : Texts) (clock : Clock) (runs : RunsTable) (lease : Option ℕ)
      → ((p : Ledger × ExternalActionRecord)
          → finalize_external_action rule texts clock runs lease key token attempt e db ≢ ok p)
        × (settled db (finalize_external_action rule texts clock runs lease key token attempt e db)
            ≡ db)
  finalize_external_action-stale rule texts clock runs lease = (
    (finalize-stale rule texts clock runs lease).at,
    refused-settled _ (finalize-stale rule texts clock runs lease),
  )
    where
      refused-settled :
          (m : Result (Ledger × ExternalActionRecord)) → Ensures (λ _. ⊥) m → settled db m ≡ db
      refused-settled (ok p) h = absurd (h.at p refl)
      refused-settled (err x) h = refl
