-- ===== src/RunStore/Claim/Total.antt =====
-- A claim serves the first claimable run, under a fresh lease, whenever there is one.
use agent_runtime_platform.Base.{
  ℕ, String, Bool, true, false, not, ◌&&◌, Option, some, List, [], ◌∷◌, ◌≡◌, refl, inl, inr, arith,
  Bool-cases, any, ◌==◌, ==_iff,
}
use agent_runtime_platform.Base.Table
use agent_runtime_platform.Base.Table.{number_key}
use agent_runtime_platform.Models.{RunRecord, is_running}
use agent_runtime_platform.RunStore.{Database, Clock, run_key, find_run, breaks_index, clash}
use agent_runtime_platform.RunStore.Claim.{is_claimable, may_start, occupies_thread, start_attempt}
use agent_runtime_platform.RunStore.Invariant.{Inv}
use agent_runtime_platform.RunStore.Writes.{Weaker, breaks_index-Weaker}

any_weaken :
    (p q : RunRecord → Bool) (rows : List RunRecord)
    → ((s : RunRecord) → p s ≡ false → q s ≡ false)
    → any p rows ≡ false
    → any q rows ≡ false
unfolding any
any_weaken p q [] h a = refl
any_weaken p q (x ∷ rows) h a = ground (arith, h x, any_weaken p q rows h)

-- A row that the SELECT returns passes the test of the UPDATE.
pub is_claimable-may_start :
    (now : ℕ) (rows : List RunRecord) (r : RunRecord)
    → is_claimable now rows r ≡ true
    → may_start now rows r ≡ true
unfolding is_claimable may_start
is_claimable-may_start now rows r h = ground (
  arith,
  any_weaken (occupies_thread r) (λ s. occupies_thread r s && not (s.run_id == r.run_id)) rows
      (λ s e. rw e),
)

module _ (clock : Clock) (owner token expires : ℕ) (pending : Option String) (db : Database)
    (r : RunRecord) (v : Inv db) (found : find_run r.run_id db.runs ≡ some r) where
  abbrev started : RunRecord
  started = start_attempt clock owner token expires pending db r

  started-Weaker : is_running r.status ≡ true → Weaker r started
  unfolding start_attempt
  started-Weaker h = record { run = refl; tenant = refl; request = refl; thread = λ _. (h, refl) }

  started-clash :
      (s : RunRecord) → occupies_thread r s ≡ false → clash s r ≡ false → clash s started ≡ false
  unfolding start_attempt clash occupies_thread
  started-clash s free c = ground arith

  started-free-queued :
      any (occupies_thread r) db.runs ≡ false → breaks_index db.runs started ≡ false
  unfolding breaks_index
  started-free-queued h =
      Table.any-none run_key (λ s. not (s.run_id == started.run_id) && clash s started) db.runs
        v.distinct
        λ k s g.
          let key : s.run_id ≡ k = Table.find-key run_key k db.runs g in
          elim (Bool-cases (k == r.run_id)) [
            | inl y ↦ unfold start_attempt in (ground arith)
            | inr n ↦
                let free : clash s started ≡ false =
                  started-clash s (Table.any-find run_key (occupies_thread r) k db.runs h g)
                    (v.apart k r.run_id s r g found (λ e. cc (n, (==_iff k r.run_id).1 e))) in
                ground arith
          ]

  -- The unique indexes never refuse the start of a claimable run.
  pub started-free :
      is_claimable clock.now_ms db.runs r ≡ true → breaks_index db.runs started ≡ false
  unfolding is_claimable
  started-free h = elim (Bool-cases (is_running r.status)) [
    | inl y ↦ breaks_index-Weaker db r started v found (started-Weaker y)
    | inr n ↦ started-free-queued (ground arith)
  ]
