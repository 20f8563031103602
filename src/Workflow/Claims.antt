-- ===== src/Workflow/Claims.antt =====
-- One attempt of a step at a time: what a claim that was granted excludes, and what a completed
-- attempt leaves to the claims behind it.
use agent_runtime_platform.Base.{
  ℕ, suc, ◌≤◌, ◌==◌, true, false, not, Option, none, some, ◌∷◌, ◌≡◌, ◌≢◌, refl, sym, subst, ap, ◌∙◌,
  arith, is_null, String, leb, str_eq, eq_iff, ==_iff,
}
use agent_runtime_platform.Base.Table
use agent_runtime_platform.Base.Table.{number_key, pair_key}
use agent_runtime_platform.Contracts.{Fields}
use agent_runtime_platform.RunStore.{Clock, ok, err, ◌>>=◌, stale_attempt}
use agent_runtime_platform.RunStore.Events.{max_sequence}
use agent_runtime_platform.RunStore.Writes.{max_sequence-above}
use agent_runtime_platform.RunStore.Moves.{Ensures}
use agent_runtime_platform.RunStore.Moves.Rules.{
  Ensures-bind, Ensures-ok, Ensures-if, Ensures-guard,
}
use agent_runtime_platform.Workflow.{
  Ledger, ToolCallRecord, step_key, find_execution, find_step, call_running, is_running_call,
  is_completed_call, is_failed_call, has_authority, append_workflow_event, assert_run_lease,
  ClaimOutcome, claimed, already_running,
}
use agent_runtime_platform.Workflow.Steps.{
  StepIdentity, ClaimResult, claim_step, claim_on_row, claim_fresh, claim_retry, fresh_step,
  retry_step, complete_step, fail_step, finalize_on_row, holds_attempt, set_step,
}
use agent_runtime_platform.Workflow.Calls.{Context}

-- The call's token is that of the run's current lease, or there is neither run nor token.
abbrev pub Allowed : Context → ℕ → Type 0
Allowed c run_id = has_authority c.clock.now_ms run_id c.lease_token c.runs ≡ true

-- The tables with the next event of an execution.
abbrev pub with_event : ℕ → String → Fields → ℕ → Ledger → Ledger
with_event id type payload at db = record db {
  workflow_events =
      record {
        event_id = suc db.last_event_id;
        run_id = id;
        sequence = suc (max_sequence id db.workflow_events);
        event_type = type;
        payload = payload;
        created_at = at;
      }
      ∷ db.workflow_events;
  last_event_id = suc db.last_event_id;
}

pub append_workflow_event-ok :
    (id : ℕ) (type : String) (payload : Fields) (at : ℕ) (db : Ledger)
    → is_null (find_execution id db.workflow_executions) ≡ false
    → append_workflow_event id type payload at db ≡ ok (with_event id type payload at db)
unfolding append_workflow_event
append_workflow_event-ok id type payload at db h =
    ground
      (arith, max_sequence-above id (suc (max_sequence id db.workflow_events)) db.workflow_events)

-- An append keeps the steps and the executions.
record Same (d db : Ledger) : Type 0 where
  calls : db.tool_calls ≡ d.tool_calls
  executions : db.workflow_executions ≡ d.workflow_executions

append_workflow_event-Same :
    (id : ℕ) (type : String) (payload : Fields) (at : ℕ) (db : Ledger) {d : Ledger}
    → append_workflow_event id type payload at db ≡ ok d
    → Same db d
unfolding append_workflow_event
append_workflow_event-Same id type payload at db h = record {
  calls = ground arith;
  executions = ground arith;
}

-- The step of the identity runs under the token.
pub record Runs (i : StepIdentity) (token : ℕ) (db : Ledger) (s : ToolCallRecord) : Type 0 where
  pub found : find_step (i.run_id, i.step_id) db.tool_calls ≡ some s
  pub status : s.status ≡ call_running
  pub held : s.attempt_token ≡ some token
  pub tool : str_eq s.tool_name i.tool_name ≡ true
  pub input : s.input_hash ≡ i.input_hash

abbrev Grants : StepIdentity → ℕ → Ledger → Ledger × ClaimResult → Type 0
Grants i token db p =
    p.1.outcome ≡ claimed
    → Runs i token p.0 p.1.step × (p.0.workflow_executions ≡ db.workflow_executions)

answer-Grants :
    (i : StepIdentity) (token : ℕ) (db : Ledger) (o : ClaimOutcome) (s : ToolCallRecord)
    → o ≢ claimed
    → Grants i token db (db, record { outcome = o; step = s; attempt_token = none })
answer-Grants i token db o s n h = absurd (n h)

-- The row that is set under its own key is found there.
pub set_step-found :
    (db : Ledger) (k : ℕ × ℕ) (s v : ToolCallRecord)
    → find_step k db.tool_calls ≡ some s
    → step_key v ≡ step_key s
    → find_step k (set_step v db).tool_calls ≡ some v
set_step-found db k s v f same =
    let key : step_key v ≡ k = same ∙ Table.find-key step_key k db.tool_calls f in
    subst (λ j. find_step k (Table.set step_key j v db.tool_calls) ≡ some v) (sym key)
      (Table.find-set_self step_key k v db.tool_calls key f)

module _ (clock : Clock) (token : ℕ) (i : StepIdentity) (db : Ledger) where
  claim_fresh-Grants :
      (call_id : ℕ) → Ensures (Grants i token db) (claim_fresh clock call_id token i db)
  unfolding claim_fresh fresh_step
  claim_fresh-Grants call_id = Ensures-bind _ _ λ _ _. Ensures-bind _ _ λ d l. Ensures-ok _ λ _.
      let same = append_workflow_event-Same i.run_id _ _ clock.utc_now _ l in
      (
        record {
          found =
              ap (find_step (i.run_id, i.step_id)) same.calls
              ∙ Table.find-head step_key (fresh_step clock call_id token i) db.tool_calls;
          status = refl;
          held = refl;
          tool = (eq_iff i.tool_name i.tool_name).1 refl;
          input = refl;
        },
        same.executions,
      )

  claim_retry-Grants :
      (s : ToolCallRecord)
      → find_step (i.run_id, i.step_id) db.tool_calls ≡ some s
      → (s.input_hash == i.input_hash) ≡ true
      → Ensures (Grants i token db) (claim_retry clock token i s db)
  unfolding claim_retry retry_step
  claim_retry-Grants s f input =
      Ensures-if (is_failed_call s.status) _ _
        (λ _. Ensures-bind _ _ λ d l. Ensures-ok _ λ _.
          let same = append_workflow_event-Same i.run_id _ _ clock.utc_now _ l in
          (
            record {
              found =
                  ap (find_step (i.run_id, i.step_id)) same.calls
                  ∙ set_step-found db (i.run_id, i.step_id) s (retry_step clock token i s) f refl;
              status = refl;
              held = refl;
              tool = (eq_iff i.tool_name i.tool_name).1 refl;
              input = (==_iff s.input_hash i.input_hash).0 input;
            },
            same.executions,
          ))
        (λ _. Ensures-ok _ λ h. absurd (cc))

  claim_on_row-Grants :
      (call_id max : ℕ) (o : Option ToolCallRecord)
      → find_step (i.run_id, i.step_id) db.tool_calls ≡ o
      → Ensures (Grants i token db) (claim_on_row o clock call_id token max i db)
  unfolding claim_on_row
  claim_on_row-Grants call_id max none f = claim_fresh-Grants call_id
  claim_on_row-Grants call_id max (some s) f =
      Ensures-if (not (str_eq s.tool_name i.tool_name)) _ _ (λ _. Ensures-ok _ λ h. absurd (cc))
        λ _.
          Ensures-if (not (s.input_hash == i.input_hash)) _ _ (λ _. Ensures-ok _ λ h. absurd (cc))
            λ input.
              Ensures-if (is_completed_call s.status) _ _ (λ _. Ensures-ok _ λ h. absurd (cc))
                λ _.
                  Ensures-if (is_running_call s.status) _ _ (λ _. Ensures-ok _ λ h. absurd (cc))
                    λ _.
                      Ensures-if (leb max s.attempt_count) _ _ (λ _. Ensures-ok _ λ h. absurd (cc))
                        λ _. claim_retry-Grants s f (ground arith)

  -- What a claim reads of the tables before it looks at the step.
  abbrev Known : Ledger × ClaimResult → Type 0
  Known p = is_null (find_execution i.run_id db.workflow_executions) ≡ false

  claim_step-Known :
      (c : Context) (call_id max : ℕ)
      → Ensures Known (claim_step clock c.runs c.lease_token call_id token max i db)
  unfolding claim_step
  claim_step-Known c call_id max = Ensures-bind _ _ λ _ _.
      Ensures-bind _ _
        λ _ _. Ensures-guard _ _ _ λ known. record { at = λ _ _. ground (arith, known) }

  claim_step-Grants :
      (c : Context) (call_id max : ℕ)
      → Ensures (Grants i token db) (claim_step clock c.runs c.lease_token call_id token max i db)
  unfolding claim_step
  claim_step-Grants c call_id max =
      Ensures-bind _ _ λ _ _.
        Ensures-bind _ _ λ _ _. Ensures-bind _ _ λ _ _. claim_on_row-Grants call_id max _ refl

module _ (c : Context) (i : StepIdentity) (token : ℕ) (db : Ledger) (s : ToolCallRecord)
    (allowed : Allowed c i.run_id) (h : Runs i token db s) where
  other_attempt : (old : ℕ) → old ≢ token → holds_attempt old s ≡ false
  unfolding holds_attempt
  other_attempt old ne = ground (arith, h.held, h.status, ne)

  complete_step-stale :
      (old : ℕ) (result : String)
      → old ≢ token
      → complete_step c.clock c.runs c.lease_token (i.run_id, i.step_id) old result db
        ≡ err stale_attempt
  unfolding complete_step finalize_on_row assert_run_lease ◌>>=◌
  complete_step-stale old result ne = ground (arith, h.found, other_attempt old ne)

  fail_step-stale :
      (old : ℕ) (error : String)
      → old ≢ token
      → fail_step c.clock c.runs c.lease_token (i.run_id, i.step_id) old error db
        ≡ err stale_attempt
  unfolding fail_step finalize_on_row assert_run_lease ◌>>=◌
  fail_step-stale old error ne = ground (arith, h.found, other_attempt old ne)

  claim_step-running :
      (call_id fresh max : ℕ)
      → 1 ≤ max
      → is_null (find_execution i.run_id db.workflow_executions) ≡ false
      → claim_step c.clock c.runs c.lease_token call_id fresh max i db
        ≡ ok (db, record { outcome = already_running; step = s; attempt_token = none })
  unfolding claim_step claim_on_row assert_run_lease ◌>>=◌
  claim_step-running call_id fresh max one known =
      ground (arith, h.found, h.tool, h.input, h.status)

-- After a claim that was granted, the step belongs to the new attempt alone: completing or failing
-- it on another token under a valid lease is refused as stale, and another claim of the same step is
-- told that it is running and changes nothing.
pub claim_step-exclusive :
    (c d : Context) (i : StepIdentity) (call_id token max : ℕ) (db db' : Ledger) (r : ClaimResult)
    (old call_id' fresh max' : ℕ) (result error : String)
    → claim_step c.clock c.runs c.lease_token call_id token max i db ≡ ok (db', r)
    → r.outcome ≡ claimed
    → Allowed d i.run_id
    → old ≢ token
    → 1 ≤ max'
    → (complete_step d.clock d.runs d.lease_token (i.run_id, i.step_id) old result db'
        ≡ err stale_attempt)
      × (fail_step d.clock d.runs d.lease_token (i.run_id, i.step_id) old error db'
          ≡ err stale_attempt)
      × (claim_step d.clock d.runs d.lease_token call_id' fresh max' i db'
          ≡ ok (db', record { outcome = already_running; step = r.step; attempt_token = none }))
claim_step-exclusive c d i call_id token max db db' r old call_id' fresh max' result error e g a ne
      one =
    let w = (claim_step-Grants c.clock token i db c call_id max).at (db', r) e g in
    let known : is_null (find_execution i.run_id db'.workflow_executions) ≡ false =
      ap (λ es. is_null (find_execution i.run_id es)) w.1
      ∙ (claim_step-Known c.clock token i db c call_id max).at (db', r) e in
    (
      complete_step-stale d i token db' r.step a w.0 old result ne,
      fail_step-stale d i token db' r.step a w.0 old error ne,
      claim_step-running d i token db' r.step a w.0 call_id' fresh max' one known,
    )
