-- ===== src/Workflow/KeepActions.antt =====
-- Moves of external actions keep the tables well formed.
use agent_runtime_platform.Base.{
  any, ==_iff, ◌==◌, ◌≢◌, ◌∙◌, ap, ℕ, false, none, some, List, ◌∷◌, ◌≡◌, sym, subst, inl, inr,
}
use agent_runtime_platform.Base.Table
use agent_runtime_platform.Base.Table.{number_key, pair_key}
use agent_runtime_platform.Workflow.{
  Ledger, ExternalActionRecord, ActionIdentity, action_key, find_action,
}
use agent_runtime_platform.Workflow.Moves.{ActionOk, ActionMove}
use agent_runtime_platform.Workflow.WellFormed.{LedgerInv}

-- The new intent shares its idempotency key with no row that is there.
fresh_key :
    (rows : List ExternalActionRecord) (a b : ExternalActionRecord) (k : ℕ × ℕ)
    → any
        (λ (x : ExternalActionRecord). x.identity.idempotency_key == a.identity.idempotency_key)
        rows
      ≡ false
    → find_action k rows ≡ some b
    → b.identity.idempotency_key ≢ a.identity.idempotency_key
fresh_key rows a b k free f e =
    let no =
      Table.any-find action_key
        (λ (x : ExternalActionRecord). x.identity.idempotency_key == a.identity.idempotency_key) k
        rows free f in
    cc (no, (==_iff b.identity.idempotency_key a.identity.idempotency_key).1 e)

module _ (db : Ledger) (h : LedgerInv db) where
  pub adds_action-Inv :
      (a : ExternalActionRecord)
      → find_action (action_key a) db.external_actions ≡ none
      → any
          (λ (x : ExternalActionRecord). x.identity.idempotency_key == a.identity.idempotency_key)
          db.external_actions
        ≡ false
      → ActionOk a
      → LedgerInv (record db { external_actions = a ∷ db.external_actions })
  adds_action-Inv a fresh free w = record {
    executions = h.executions;
    distinct = h.distinct;
    steps = h.steps;
    owned = h.owned;
    numbered = h.numbered;
    intents = (fresh, h.intents);
    actions = λ k b f. elim (Table.find-cons_cases action_key k a db.external_actions f) [
      | inl (_, e) ↦ subst ActionOk (sym e) w
      | inr (_, old) ↦ h.actions k b old
    ];
    keyed = λ j k b c f g e. elim (Table.find-cons_cases action_key j a db.external_actions f) [
      | inl (j_new, b_new) ↦ elim (Table.find-cons_cases action_key k a db.external_actions g) [
        | inl (k_new, _) ↦ j_new ∙ sym k_new
        | inr (_, old) ↦ absurd (
            fresh_key db.external_actions a c k free old
              (sym e ∙ ap (λ (x : ExternalActionRecord). x.identity.idempotency_key) b_new))
      ]
      | inr (_, old) ↦ elim (Table.find-cons_cases action_key k a db.external_actions g) [
        | inl (_, c_new) ↦ absurd (
            fresh_key db.external_actions a b j free old
              (e ∙ ap (λ (x : ExternalActionRecord). x.identity.idempotency_key) c_new))
        | inr (_, old') ↦ h.keyed j k b c old old' e
      ]
    ];
  }

  pub moves_action-Inv :
      (a v : ExternalActionRecord)
      → find_action (action_key a) db.external_actions ≡ some a
      → ActionMove a v
      → LedgerInv (record db {
        external_actions = Table.set action_key (action_key a) v db.external_actions;
      })
  moves_action-Inv a v f m =
      let same : action_key v ≡ action_key a = cc (m.same_run, m.same_step) in
      let key : v.identity.idempotency_key ≡ a.identity.idempotency_key =
        ap (λ (i : ActionIdentity). i.idempotency_key) m.same_identity in
      record {
        executions = h.executions;
        distinct = h.distinct;
        steps = h.steps;
        owned = h.owned;
        numbered = h.numbered;
        intents = Table.Distinct-set action_key (action_key a) v db.external_actions same h.intents;
        actions = λ k b g.
            elim (Table.find-set_cases action_key (action_key a) k v db.external_actions same g) [
              | inl (_, e) ↦ subst ActionOk (sym e) (m.keeps (h.actions (action_key a) a f))
              | inr (_, old) ↦ h.actions k b old
            ];
        keyed = λ j k b c g g' e.
            elim (Table.find-set_cases action_key (action_key a) j v db.external_actions same g) [
              | inl (j_new, b_new) ↦
                  let key_b : b.identity.idempotency_key ≡ a.identity.idempotency_key =
                    ap (λ (x : ExternalActionRecord). x.identity.idempotency_key) b_new ∙ key in
                  elim (Table.find-set_cases action_key (action_key a) k v db.external_actions same
                    g') [
                      | inl (k_new, _) ↦ j_new ∙ sym k_new
                      | inr (_, old) ↦ j_new ∙ h.keyed (action_key a) k a c f old (sym key_b ∙ e)
                    ]
              | inr (_, old) ↦
                  elim (Table.find-set_cases action_key (action_key a) k v db.external_actions same
                    g') [
                      | inl (k_new, c_new) ↦
                          h.keyed j (action_key a) b a old f (
                            e
                            ∙ ap (λ (x : ExternalActionRecord). x.identity.idempotency_key) c_new
                            ∙ key)
                          ∙ sym k_new
                      | inr (_, old') ↦ h.keyed j k b c old old' e
                    ]
            ];
      }
