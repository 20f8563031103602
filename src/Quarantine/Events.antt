-- ===== src/Quarantine/Events.antt =====
-- The selections of a run's events, when events are logged.
use agent_runtime_platform.Base.{
  ℕ, String, Bool, true, false, List, [], ◌∷◌, ◌≡◌, ◌==◌, arith, select, sort_by, insert_by,
}
use agent_runtime_platform.Models.{RunEvent}
use agent_runtime_platform.Quarantine.Derive.{events_of, by_sequence}
use agent_runtime_platform.Quarantine.Apply.{names_plan}

module _ {ℓ} {A : Type ℓ} (p : A → Bool) (before : A → A → Bool) where
  -- A row that is not selected can be left out before the rows are ordered.
  select-insert_by :
      (x : A) (xs : List A) → p x ≡ false → select p (insert_by before x xs) ≡ select p xs
  unfolding select insert_by
  select-insert_by x [] h = ground arith
  select-insert_by x (y ∷ ys) h = ground (arith, select-insert_by x ys h)

  -- Rows of which none is selected.
  insert_by_only :
      (x : A) (xs : List A)
      → p x ≡ true
      → select p xs ≡ []
      → select p (insert_by before x xs) ≡ x ∷ []
  unfolding select insert_by
  insert_by_only x [] h e = ground arith
  insert_by_only x (y ∷ ys) h e = ground (arith, insert_by_only x ys h)

module _ (run_id : ℕ) (type : String) (plan_id : ℕ) where
  abbrev pub matching : List RunEvent → List RunEvent
  matching events = select (names_plan type plan_id) (events_of run_id events)

  -- An event of another kind or for another plan.
  pub matching-other :
      (e : RunEvent) (events : List RunEvent)
      → names_plan type plan_id e ≡ false
      → matching (e ∷ events) ≡ matching events
  unfolding events_of select sort_by
  matching-other e events h = ground (
    arith,
    select-insert_by (names_plan type plan_id) by_sequence e
        (sort_by by_sequence (select (λ e. e.run_id == run_id) events)),
  )

  -- The first event that names the plan.
  pub matching-own :
      (e : RunEvent) (events : List RunEvent)
      → (e.run_id == run_id) ≡ true
      → names_plan type plan_id e ≡ true
      → matching events ≡ []
      → matching (e ∷ events) ≡ e ∷ []
  unfolding events_of select sort_by
  matching-own e events own h none_yet = ground (
    arith,
    insert_by_only (names_plan type plan_id) by_sequence e
        (sort_by by_sequence (select (λ e. e.run_id == run_id) events)),
  )
