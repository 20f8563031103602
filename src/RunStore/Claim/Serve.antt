-- ===== src/RunStore/Claim/Serve.antt =====
-- A claim serves the first claimable run, under a fresh lease, whenever there is one.
use agent_runtime_platform.Base.{
  ℕ, ◌+◌, ◌*◌, String, true, false, Option, none, some, [], ◌∷◌, ◌≡◌, ◌≢◌, refl, ap, ◌∙◌, arith,
  is_null, ◌==◌, ltb,
}
use agent_runtime_platform.Base.Table
use agent_runtime_platform.Base.Table.{number_key}
use agent_runtime_platform.Contracts.{Fields, str, literal}
use agent_runtime_platform.Models.{RunRecord, RunLeaseClaim, RunLeaseRecoveryReason}
use agent_runtime_platform.RunStore.{
  Database, Clock, Result, ok, ◌>>=◌, run_key, find_run, ParseState, row_to_run, update_run,
}
use agent_runtime_platform.RunStore.Claim.{
  is_claimable, may_start, first_row, is_before, start_attempt, claim_next_run, claim_candidate,
  finish_claim, log_recovery, recovery_reason_of, recovered_reason, started_payload,
}
use agent_runtime_platform.RunStore.Claim.Order.{Picks, first_row-Picks}
use agent_runtime_platform.RunStore.Claim.Total.{is_claimable-may_start, started-free}
use agent_runtime_platform.RunStore.Invariant.{Inv}
use agent_runtime_platform.RunStore.Writes.{
  log_next, append_event-ok, update_run-ok, Accepts, row_to_run-ok,
}

-- Only events were added.
abbrev OnlyLogged : Database → Database → Type 0
OnlyLogged db d = (d.runs ≡ db.runs) × (d.thread_states ≡ db.thread_states)

log_recovery-ok :
    (clock : Clock) (pending : Option String) (r : RunRecord)
    (reason : Option RunLeaseRecoveryReason) (db : Database)
    → is_null (find_run r.run_id db.runs) ≡ false
    → (d : Database) × (log_recovery clock pending r reason db ≡ ok d) × OnlyLogged db d
unfolding log_recovery ◌>>=◌
log_recovery-ok clock pending r none db h = (db, refl, (refl, refl))
log_recovery-ok clock pending r (some reason) db h =
    let payload : Fields =
      ("reason", str (literal (recovered_reason pending r.error_code reason))) ∷ [] in
    (
      log_next r.run_id "run.recovered" payload clock.utc_now db,
      ground (arith, append_event-ok r.run_id "run.recovered" payload clock.utc_now db h),
      (refl, refl),
    )

finish_claim-ok :
    (parse : ParseState) (clock : Clock) (owner token : ℕ) (pending : Option String)
    (r row run : RunRecord) (updated db : Database)
    → find_run r.run_id updated.runs ≡ some row
    → row_to_run parse row ≡ ok run
    → run.run_id ≡ r.run_id
    → (d : Database) × (finish_claim parse clock owner token pending r (some updated) db
        ≡ ok (
          d,
          some (record {
            run = run;
            owner_id = owner;
            lease_token = token;
            recovery_reason = recovery_reason_of r;
          }),
        ))
      × OnlyLogged updated d
unfolding finish_claim ◌>>=◌
finish_claim-ok parse clock owner token pending r row run updated db f p same =
    let l = log_recovery-ok clock pending r (recovery_reason_of r) updated (ground arith) in
    let payload : Fields = started_payload run (recovery_reason_of r) in
    let there : is_null (find_run run.run_id l.0.runs) ≡ false = rw (same, l.2.0) (ground arith) in
    (
      log_next run.run_id "run.started" payload clock.utc_now l.0,
      ground (arith, l.1, append_event-ok run.run_id "run.started" payload clock.utc_now l.0 there),
      l.2,
    )

-- What a claim of run r does.
pub record Claimed (clock : Clock) (owner token seconds : ℕ) (pending : Option String)
    (db : Database) (r : RunRecord) (db' : Database) (claim : RunLeaseClaim) : Type 0 where
  pub was_there : find_run r.run_id db.runs ≡ some r
  pub claimable : is_claimable clock.now_ms db.runs r ≡ true
  pub first :
      (k : ℕ) (s : RunRecord)
      → find_run k db.runs ≡ some s
      → is_claimable clock.now_ms db.runs s ≡ true
      → is_before s r ≡ false
  pub row :
      find_run r.run_id db'.runs
      ≡ some (start_attempt clock owner token (clock.now_ms + seconds * 1000) pending db r)
  pub other_runs : (j : ℕ) → j ≢ r.run_id → find_run j db'.runs ≡ find_run j db.runs
  pub checkpoints : db'.thread_states ≡ db.thread_states
  pub claimed_run : claim.run.run_id ≡ r.run_id
  pub claimed_token : claim.lease_token ≡ token

-- The call claims some run.
abbrev pub Serves :
    Clock → ℕ → ℕ → ℕ → Option String → Database → Result (Database × Option RunLeaseClaim) → Type 0
Serves clock owner token seconds pending db m =
    (r : RunRecord) × (db' : Database) × (claim : RunLeaseClaim) × (m ≡ ok (db', some claim))
    × Claimed clock owner token seconds pending db r db' claim

module _ (parse : ParseState) (clock : Clock) (owner token seconds : ℕ) (pending : Option String)
    (db : Database) (accepts : Accepts parse) (v : Inv db) where
  started : RunRecord → RunRecord
  started r = start_attempt clock owner token (clock.now_ms + seconds * 1000) pending db r

  start-key : (r : RunRecord) → (started r).run_id ≡ r.run_id
  unfolding started start_attempt
  start-key r = refl

  serves :
      (o : Option RunRecord) (k : ℕ) (s : RunRecord)
      → Picks (is_claimable clock.now_ms db.runs) db.runs o
      → find_run k db.runs ≡ some s
      → is_claimable clock.now_ms db.runs s ≡ true
      → Serves clock owner token seconds pending db
          (claim_candidate parse clock owner token seconds pending o db)
  unfolding claim_candidate started ◌>>=◌
  serves none k s c f h = absurd (cc (c k s f))
  serves (some r) k s (y, there, first) f h =
      let after_update : Database = record db {
        runs = Table.set run_key r.run_id (started r) db.runs;
      } in
      let write : update_run r.run_id (may_start clock.now_ms db.runs)
            (start_attempt clock owner token (clock.now_ms + seconds * 1000) pending db) db
          ≡ ok (some after_update) =
        update_run-ok r.run_id (may_start clock.now_ms db.runs)
          (start_attempt clock owner token (clock.now_ms + seconds * 1000) pending db) db there
          (is_claimable-may_start clock.now_ms db.runs r y)
          (started-free clock owner token (clock.now_ms + seconds * 1000) pending db r v there y) in
      let new_row : find_run r.run_id after_update.runs ≡ some (started r) =
        Table.find-set_self run_key r.run_id (started r) db.runs (start-key r) there in
      let p = row_to_run-ok parse (started r) accepts in
      let d =
        finish_claim-ok parse clock owner token pending r (started r) p.0 after_update db new_row
          p.1 (p.2 ∙ start-key r) in
      (
        r,
        d.0,
        record {
          run = p.0;
          owner_id = owner;
          lease_token = token;
          recovery_reason = recovery_reason_of r;
        },
        ground (arith, write, d.1),
        record {
          was_there = there;
          claimable = y;
          first = first;
          row = ap (find_run r.run_id) d.2.0 ∙ new_row;
          other_runs = λ j ne.
              ap (find_run j) d.2.0
              ∙ Table.find-set_ne run_key r.run_id j (started r) db.runs (start-key r)
                  (ground (arith, ne));
          checkpoints = d.2.1;
          claimed_run = p.2 ∙ start-key r;
          claimed_token = refl;
        },
      )

  -- In well-formed tables, with a named owner, a positive duration and a registry that decodes
  -- every state, a claim succeeds whenever some run is claimable. It claims a claimable run that no
  -- claimable run precedes in the order of creation time and id, writes the start of an attempt
  -- under the new token into its row, and changes no other run and no checkpoint.
  pub claim_next_run-Serves :
      (owner == 0) ≡ false
      → ltb 0 seconds ≡ true
      → (k : ℕ) (s : RunRecord) → find_run k db.runs ≡ some s
      → is_claimable clock.now_ms db.runs s ≡ true
      → Serves clock owner token seconds pending db
          (claim_next_run parse clock owner token seconds pending db)
  unfolding claim_next_run ◌>>=◌
  claim_next_run-Serves named positive k s f h =
      rw (named, positive)
        (serves (first_row (is_claimable clock.now_ms db.runs) db.runs) k s
          (first_row-Picks (is_claimable clock.now_ms db.runs) db.runs v.distinct) f h)
