-- ===== src/RunStore/Invariant/Keep.antt =====
-- Every move keeps the invariant, and so does every call.
use agent_runtime_platform.Base.{
  ℕ, ◌≤◌, true, false, not, ◌&&◌, none, some, List, ◌∷◌, ◌≡◌, ◌≢◌, coalesce, refl, sym, subst, ◌∙◌,
  ◌⊎◌, inl, inr, arith, ◌==◌,
}
use agent_runtime_platform.Base.Table
use agent_runtime_platform.Base.Table.{number_key, pair_key, same_pair, same_pair_iff}
use agent_runtime_platform.Models.{RunStatus, RunRecord, is_terminal}
use agent_runtime_platform.RunStore.{
  Database, Checkpoint, Clock, empty, run_key, find_run, clash, thread_revision, breaks_index,
}
use agent_runtime_platform.RunStore.Create.{is_new_queued_run}
use agent_runtime_platform.RunStore.Step.{Call, step, run_calls}
use agent_runtime_platform.RunStore.Moves.{
  Move, Moves, here, next, inserts, writes, logs, saves, RowOk, RowMove, Advance, StatusStep, waits,
  starts, goes_on, cancels_waiting, completes, fails, cancels,
}
use agent_runtime_platform.RunStore.Moves.Steps.{step-Moves, run_calls-Moves}
use agent_runtime_platform.RunStore.Invariant.Revisions.{
  revision_of-Advance, Distinct-Advance, positive-Advance,
}
use agent_runtime_platform.RunStore.Invariant.{Inv}

pub clash_comm : (r s : RunRecord) → clash r s ≡ clash s r
unfolding clash
clash_comm r s = ground arith

-- A row that no index refuses clashes with no other row.
breaks_index-clash :
    (rows : List RunRecord) (v s : RunRecord) (j : ℕ)
    → breaks_index rows v ≡ false
    → find_run j rows ≡ some s
    → j ≢ v.run_id
    → clash s v ≡ false
unfolding breaks_index
breaks_index-clash rows v s j h f ne =
    let no = Table.any-find run_key (λ r. not (r.run_id == v.run_id) && clash r v) j rows h f in
    let key : s.run_id ≡ j = Table.find-key run_key j rows f in ground arith

-- The table with one row new or changed.
abbrev Extends : List RunRecord → RunRecord → List RunRecord → Type 0
Extends rows v rows' =
    (j : ℕ) (s : RunRecord)
    → find_run j rows' ≡ some s
    → ((j ≡ v.run_id) × (s ≡ v)) ⊎ ((j ≢ v.run_id) × (find_run j rows ≡ some s))

abbrev Apart : List RunRecord → Type 0
Apart rows =
    (i j : ℕ) (r s : RunRecord)
    → find_run i rows ≡ some r
    → find_run j rows ≡ some s
    → i ≢ j
    → clash r s ≡ false

Apart-Extends :
    (rows : List RunRecord) (v : RunRecord) (rows' : List RunRecord)
    → Apart rows
    → breaks_index rows v ≡ false
    → Extends rows v rows'
    → Apart rows'
Apart-Extends rows v rows' a free x i j r s f g ne = elim (x i r f) [
  | inl (i_new, r_new) ↦ elim (x j s g) [
    | inl (j_new, _) ↦ absurd (ne (i_new ∙ sym j_new))
    | inr (j_ne, old) ↦
        subst (λ t. clash t s ≡ false) (sym r_new)
          (clash_comm v s ∙ breaks_index-clash rows v s j free old j_ne)
  ]
  | inr (i_ne, old) ↦ elim (x j s g) [
    | inl (_, s_new) ↦
        subst (λ t. clash r t ≡ false) (sym s_new) (breaks_index-clash rows v r i free old i_ne)
    | inr (_, old') ↦ a i j r s old old' ne
  ]
]

new-RowOk : (run : RunRecord) → is_new_queued_run run ≡ true → RowOk run
unfolding is_new_queued_run
new-RowOk run h = ground arith

new-base :
    (run : RunRecord) → is_new_queued_run run ≡ true → coalesce run.checkpoint_base_revision 0 ≡ 0
unfolding is_new_queued_run
new-base run h = ground arith

inserts-Inv :
    (db : Database) (run : RunRecord)
    → Inv db
    → is_new_queued_run run ≡ true
    → find_run run.run_id db.runs ≡ none
    → breaks_index db.runs run ≡ false
    → Inv (record db { runs = run ∷ db.runs })
unfolding thread_revision
inserts-Inv db run v new fresh free = record {
  distinct = (fresh, v.distinct);
  rows = λ i r f. elim (Table.find-cons_cases run_key i run db.runs f) [
    | inl (_, e) ↦ subst RowOk (sym e) (new-RowOk run new)
    | inr (_, old) ↦ v.rows i r old
  ];
  apart =
      Apart-Extends db.runs run (run ∷ db.runs) v.apart free
        (λ j s f. Table.find-cons_cases run_key j run db.runs f);
  bases = λ i r f t. elim (Table.find-cons_cases run_key i run db.runs f) [
    | inl (_, e) ↦
        subst
          (λ (t : RunRecord).
            coalesce t.checkpoint_base_revision 0 ≤ thread_revision db t.tenant_id t.thread_id)
          (sym e) (omega (arith, new-base run new))
    | inr (_, old) ↦ v.bases i r old t
  ];
  threads = v.threads;
  revisions = v.revisions;
  numbered = v.numbered;
}

-- Only a run that is not terminal moves.
pub StatusStep-open : {s t : RunStatus} → StatusStep s t → is_terminal s ≡ false
StatusStep-open waits = refl
StatusStep-open starts = refl
StatusStep-open cancels_waiting = refl
StatusStep-open goes_on = refl
StatusStep-open completes = refl
StatusStep-open fails = refl
StatusStep-open cancels = refl

base-le :
    (db : Database) (r v : RunRecord)
    → RowMove db r v
    → (is_terminal r.status ≡ false
        → coalesce r.checkpoint_base_revision 0 ≤ thread_revision db r.tenant_id r.thread_id)
    → is_terminal v.status ≡ false
    → coalesce v.checkpoint_base_revision 0 ≤ thread_revision db v.tenant_id v.thread_id
base-le db r v m old t =
    rw (m.same_tenant, m.same_thread t) (ground (arith, m.base t, old (StatusStep-open m.status)))

set-Extends :
    (rows : List RunRecord) (i : ℕ) (v : RunRecord)
    → v.run_id ≡ i
    → Extends rows v (Table.set run_key i v rows)
set-Extends rows i v e =
    subst (λ k. Extends rows v (Table.set run_key k v rows)) e
      (λ j s f. Table.find-set_cases run_key v.run_id j v rows refl f)

writes-Inv :
    (db : Database) (r v : RunRecord)
    → Inv db
    → find_run r.run_id db.runs ≡ some r
    → breaks_index db.runs v ≡ false
    → RowMove db r v
    → Inv (record db { runs = Table.set run_key r.run_id v db.runs })
unfolding thread_revision
writes-Inv db r v h f free m =
    let x : Extends db.runs v (Table.set run_key r.run_id v db.runs) =
      set-Extends db.runs r.run_id v m.same_run in
    record {
      distinct = Table.Distinct-set run_key r.run_id v db.runs m.same_run h.distinct;
      rows = λ i s g. elim (x i s g) [
        | inl (_, e) ↦ subst RowOk (sym e) (m.keeps (h.rows r.run_id r f))
        | inr (_, old) ↦ h.rows i s old
      ];
      apart = Apart-Extends db.runs v _ h.apart free x;
      bases = λ i s g t. elim (x i s g) [
        | inl (_, e) ↦
            subst
              (λ (u : RunRecord).
                is_terminal u.status ≡ false
                → coalesce u.checkpoint_base_revision 0
                  ≤ thread_revision db u.tenant_id u.thread_id)
              (sym e) (base-le db r v m (h.bases r.run_id r f)) t
        | inr (_, old) ↦ h.bases i s old t
      ];
      threads = h.threads;
      revisions = h.revisions;
      numbered = h.numbered;
    }

saves-Inv :
    (db : Database) (c : Checkpoint) (rows : List Checkpoint)
    → Inv db
    → Advance db.thread_states c rows
    → Inv (record db { thread_states = rows })
unfolding thread_revision
saves-Inv db c rows h a = record {
  distinct = h.distinct;
  rows = h.rows;
  apart = h.apart;
  bases = λ i r f t. omega (
    arith,
    h.bases i r f t,
    revision_of-Advance db.thread_states c rows (r.tenant_id, r.thread_id) a,
  );
  threads = Distinct-Advance db.thread_states c rows a h.threads;
  revisions = positive-Advance db.thread_states c rows a h.revisions;
  numbered = h.numbered;
}

Move-Inv : {db db' : Database} → Move db db' → Inv db → Inv db'
unfolding thread_revision
Move-Inv {db} (inserts run new fresh free e) h =
    subst Inv (sym e) (inserts-Inv db run h new fresh free)
Move-Inv {db} (writes r v f free m e) h = subst Inv (sym e) (writes-Inv db r v h f free m)
Move-Inv {db} (logs event known next_number e) h = subst Inv (sym e) (record {
  distinct = h.distinct;
  rows = h.rows;
  apart = h.apart;
  bases = h.bases;
  threads = h.threads;
  revisions = h.revisions;
  numbered = (next_number, h.numbered);
})
Move-Inv {db} (saves c rows a e) h = subst Inv (sym e) (saves-Inv db c rows h a)

pub Moves-Inv : {db db' : Database} → Moves db db' → Inv db → Inv db'
Moves-Inv here h = h
Moves-Inv (next m s) h = Move-Inv s (Moves-Inv m h)

pub empty-Inv : Inv empty
unfolding Table.find
empty-Inv = record {
  distinct = tt;
  rows = λ i r f. absurd (cc);
  apart = λ i j r s f g ne. absurd (cc);
  bases = λ i r f t. absurd (cc);
  threads = tt;
  revisions = λ k c f. absurd (cc);
  numbered = tt;
}

-- Every call, failing or not, keeps the invariant.
pub step-Inv : (db : Database) (c : Clock × Call) → Inv db → Inv (step db c)
step-Inv db c h = Moves-Inv (step-Moves db c) h

-- From the empty store on, every sequence of calls at whatever times keeps the tables well formed.
pub run_calls-Inv : (cs : List (Clock × Call)) → Inv (run_calls empty cs)
run_calls-Inv cs = Moves-Inv (run_calls-Moves empty cs) empty-Inv
