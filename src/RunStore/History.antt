-- ===== src/RunStore/History.antt =====
-- What a history of calls never does: change a run that has ended, lose a run, take a run back to
-- an earlier state, lower a thread's revision, or change an event that was logged.
pub mod Events
use agent_runtime_platform.Base.{
  ℕ, suc, ◌≤◌, Bool, true, false, Option, none, some, List, [], ◌∷◌, ◌++◌, ◌≡◌, ◌≢◌, refl, sym,
  subst, ap, ◌∙◌, inl, inr, ◌⊎◌, arith, Bool-cases, if◌then◌else◌, some-inj,
}
use agent_runtime_platform.Base.Table
use agent_runtime_platform.Base.Table.{number_key}
use agent_runtime_platform.Models.{
  RunStatus, queued, running, completed, failed, cancelled, is_terminal, RunRecord, RunEvent,
}
use agent_runtime_platform.RunStore.{Database, Clock, run_key, find_run, thread_revision}
use agent_runtime_platform.RunStore.Step.{Call, step, run_calls}
use agent_runtime_platform.RunStore.Moves.{
  Move, Moves, here, next, inserts, writes, logs, saves, RowMove, StatusStep, waits, starts,
  cancels_waiting, goes_on, completes, fails, cancels,
}
use agent_runtime_platform.RunStore.Moves.Steps.{step-Moves, run_calls-Moves}
use agent_runtime_platform.RunStore.Invariant.Keep.{StatusStep-open}
use agent_runtime_platform.RunStore.Invariant.Revisions.{revision_of-Advance}

-- The states that a run can be in later.
pub data Later : RunStatus → RunStatus → Type 0 where
  now : (s : RunStatus) → Later s s
  then_step : {s t u : RunStatus} → Later s t → StatusStep t u → Later s u

-- The row of a run at a later time: the run is there, under its tenant, in a later state, and as
-- it was if it had ended.
pub record Follows (db' : Database) (i : ℕ) (r : RunRecord) : Type 0 where
  pub row : RunRecord
  pub found : find_run i db'.runs ≡ some row
  pub tenant : row.tenant_id ≡ r.tenant_id
  pub later : Later r.status row.status
  pub frozen : is_terminal r.status ≡ true → row ≡ r

Follows-same :
    (db db' : Database) (i : ℕ) (r : RunRecord)
    → db'.runs ≡ db.runs
    → Follows db i r
    → Follows db' i r
Follows-same db db' i r e f = record {
  row = f.row;
  found = ap (find_run i) e ∙ f.found;
  tenant = f.tenant;
  later = f.later;
  frozen = f.frozen;
}

inserts-Follows :
    (db : Database) (run : RunRecord) (i : ℕ) (r : RunRecord)
    → find_run run.run_id db.runs ≡ none
    → Follows db i r
    → Follows (record db { runs = run ∷ db.runs }) i r
inserts-Follows db run i r fresh f = record {
  row = f.row;
  found = Table.find-cons run_key run i db.runs fresh f.found;
  tenant = f.tenant;
  later = f.later;
  frozen = f.frozen;
}

writes-Follows :
    (db : Database) (s v : RunRecord) (i : ℕ) (r : RunRecord)
    → find_run s.run_id db.runs ≡ some s
    → RowMove db s v
    → Follows db i r
    → Follows (record db { runs = Table.set run_key s.run_id v db.runs }) i r
writes-Follows db s v i r k m f = elim (Bool-cases (number_key.same s.run_id i)) [
  | inl y ↦
      let same : s.run_id ≡ i = (number_key.same_iff s.run_id i).0 y in
      let old : f.row ≡ s =
        some-inj (sym f.found ∙ subst (λ j. find_run j db.runs ≡ some s) same k) in
      record {
        row = v;
        found =
            subst (λ j. find_run j (Table.set run_key s.run_id v db.runs) ≡ some v) same
              (Table.find-set_self run_key s.run_id v db.runs m.same_run k);
        tenant = m.same_tenant ∙ sym (ap (λ (x : RunRecord). x.tenant_id) old) ∙ f.tenant;
        later =
            then_step f.later
              (subst (λ (x : RunRecord). StatusStep x.status v.status) (sym old) m.status);
        frozen = λ t. absurd (
            cc (
              StatusStep-open m.status,
              ap (λ (x : RunRecord). is_terminal x.status) (sym old ∙ f.frozen t),
            ));
      }
  | inr n ↦ record {
    row = f.row;
    found = Table.find-set_ne run_key s.run_id i v db.runs m.same_run n ∙ f.found;
    tenant = f.tenant;
    later = f.later;
    frozen = f.frozen;
  }
]

Follows-Move :
    {db db' : Database} (i : ℕ) (r : RunRecord) → Move db db' → Follows db i r → Follows db' i r
Follows-Move {db} i r (inserts run new fresh free e) f =
    subst (λ d. Follows d i r) (sym e) (inserts-Follows db run i r fresh f)
Follows-Move {db} i r (writes s v k free m e) f =
    subst (λ d. Follows d i r) (sym e) (writes-Follows db s v i r k m f)
Follows-Move {db} {db'} i r (logs event known nx e) f =
    Follows-same db db' i r (ap (λ (d : Database). d.runs) e) f
Follows-Move {db} {db'} i r (saves c rows a e) f =
    Follows-same db db' i r (ap (λ (d : Database). d.runs) e) f

pub Follows-Moves :
    {d db' : Database} (i : ℕ) (r : RunRecord) → Moves d db' → Follows d i r → Follows db' i r
Follows-Moves i r here f = f
Follows-Moves i r (next m s) f = Follows-Move i r s (Follows-Moves i r m f)

pub Follows-refl :
    (db : Database) (i : ℕ) (r : RunRecord) → find_run i db.runs ≡ some r → Follows db i r
Follows-refl db i r f = record {
  row = r;
  found = f;
  tenant = refl;
  later = now r.status;
  frozen = λ _. refl;
}

-- After any calls at any times, every run that was there is there, under its tenant, in a state
-- that the state machine of a run reaches from the state it had.
pub run_calls-Follows :
    (db : Database) (cs : List (Clock × Call)) (i : ℕ) (r : RunRecord)
    → find_run i db.runs ≡ some r
    → (row : RunRecord) × (find_run i (run_calls db cs).runs ≡ some row)
      × (row.tenant_id ≡ r.tenant_id)
      × Later r.status row.status
run_calls-Follows db cs i r f =
    let w = Follows-Moves i r (run_calls-Moves db cs) (Follows-refl db i r f) in
    (w.row, w.found, w.tenant, w.later)

-- A run that has completed, failed or been cancelled keeps its whole row, whatever is called later
-- and with whatever tokens.
pub run_calls-frozen :
    (db : Database) (cs : List (Clock × Call)) (i : ℕ) (r : RunRecord)
    → find_run i db.runs ≡ some r
    → is_terminal r.status ≡ true
    → find_run i (run_calls db cs).runs ≡ some r
run_calls-frozen db cs i r f t =
    let w = Follows-Moves i r (run_calls-Moves db cs) (Follows-refl db i r f) in
    w.found ∙ ap some (w.frozen t)

Move-revision :
    {db db' : Database} (tenant thread : ℕ)
    → Move db db'
    → thread_revision db tenant thread ≤ thread_revision db' tenant thread
unfolding thread_revision
Move-revision {db} tenant thread (inserts run new fresh free e) = rw e (omega arith)
Move-revision {db} tenant thread (writes s v k free m e) = rw e (omega arith)
Move-revision {db} tenant thread (logs event known nx e) = rw e (omega arith)
Move-revision {db} tenant thread (saves c rows a e) =
    rw e (omega (arith, revision_of-Advance db.thread_states c rows (tenant, thread) a))

Moves-revision :
    {db db' : Database} (tenant thread : ℕ)
    → Moves db db'
    → thread_revision db tenant thread ≤ thread_revision db' tenant thread
Moves-revision tenant thread here = omega arith
Moves-revision tenant thread (next m s) =
    omega (arith, Moves-revision tenant thread m, Move-revision tenant thread s)

-- No history lowers the revision of a thread.
pub run_calls-revision :
    (db : Database) (cs : List (Clock × Call)) (tenant thread : ℕ)
    → thread_revision db tenant thread ≤ thread_revision (run_calls db cs) tenant thread
run_calls-revision db cs tenant thread = Moves-revision tenant thread (run_calls-Moves db cs)
