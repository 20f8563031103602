-- ===== src/RunStore/Writes.antt =====
-- When a statement succeeds: what an UPDATE and an INSERT of an event do to well-formed tables.
use agent_runtime_platform.Base.{
  ℕ, suc, ◌<◌, String, Bool, true, false, not, ◌&&◌, Option, none, some, List, [], ◌∷◌, ◌≡◌, refl,
  inl, inr, arith, any, ◌==◌, is_null, Bool-cases, Option-cases, ==_iff,
}
use agent_runtime_platform.Base.Table
use agent_runtime_platform.Base.Table.{number_key}
use agent_runtime_platform.Contracts.{BaseRuntimeState, Fields}
use agent_runtime_platform.Models.{RunRecord, RunEvent, is_running}
use agent_runtime_platform.RunStore.{
  Database, ok, run_key, ParseState, row_to_run, with_state, find_run, clash, breaks_index,
  update_run,
}
use agent_runtime_platform.RunStore.Events.{max_sequence, append_event}
use agent_runtime_platform.RunStore.Invariant.{Inv}

-- The event that the next append for the run writes.
abbrev pub next_event : ℕ → String → Fields → ℕ → Database → RunEvent
next_event id type payload at db = record {
  event_id = suc db.last_event_id;
  run_id = id;
  sequence = suc (max_sequence id db.run_events);
  event_type = type;
  payload = payload;
  created_at = at;
}

abbrev pub log_next : ℕ → String → Fields → ℕ → Database → Database
log_next id type payload at db = record db {
  run_events = next_event id type payload at db ∷ db.run_events;
  last_event_id = suc db.last_event_id;
}

pub max_sequence-above :
    (id n : ℕ) (es : List RunEvent)
    → max_sequence id es < n
    → any (λ e. e.run_id == id && e.sequence == n) es ≡ false
unfolding max_sequence any
max_sequence-above id n [] h = refl
max_sequence-above id n (e ∷ es) h = ground (arith, max_sequence-above id n es)

-- An event of a run that is there is always appended.
pub append_event-ok :
    (id : ℕ) (type : String) (payload : Fields) (at : ℕ) (db : Database)
    → is_null (find_run id db.runs) ≡ false
    → append_event id type payload at db
      ≡ ok (log_next id type payload at db, next_event id type payload at db)
unfolding append_event
append_event-ok id type payload at db h =
    ground (arith, max_sequence-above id (suc (max_sequence id db.run_events)) db.run_events)

pub update_run-ok :
    (id : ℕ) (w : RunRecord → Bool) (to : RunRecord → RunRecord) (db : Database) {r : RunRecord}
    → find_run id db.runs ≡ some r
    → w r ≡ true
    → breaks_index db.runs (to r) ≡ false
    → update_run id w to db ≡ ok (some (record db { runs = Table.set run_key id (to r) db.runs }))
unfolding update_run
update_run-ok id w to db {r} f h free =
    let key : r.run_id ≡ id = Table.find-key run_key id db.runs f in ground arith

pub update_run-none :
    (id : ℕ) (w : RunRecord → Bool) (to : RunRecord → RunRecord) (db : Database) {r : RunRecord}
    → find_run id db.runs ≡ some r
    → w r ≡ false
    → update_run id w to db ≡ ok none
unfolding update_run
update_run-none id w to db f h = ground arith

-- The row holds no more of a unique index than it did.
pub record Weaker (r v : RunRecord) : Type 0 where
  pub run : v.run_id ≡ r.run_id
  pub tenant : v.tenant_id ≡ r.tenant_id
  pub request : v.client_request_id ≡ r.client_request_id
  pub thread :
      is_running v.status ≡ true → (is_running r.status ≡ true) × (v.thread_id ≡ r.thread_id)

clash-Weaker : (r v s : RunRecord) → Weaker r v → clash s r ≡ false → clash s v ≡ false
unfolding clash
clash-Weaker r v s w h = ground arith

pub breaks_index-Weaker :
    (db : Database) (r v : RunRecord)
    → Inv db
    → find_run r.run_id db.runs ≡ some r
    → Weaker r v
    → breaks_index db.runs v ≡ false
unfolding breaks_index
breaks_index-Weaker db r v h f w =
    Table.any-none run_key (λ s. not (s.run_id == v.run_id) && clash s v) db.runs h.distinct
      λ k s g.
        let key : s.run_id ≡ k = Table.find-key run_key k db.runs g in
        elim (Bool-cases (k == r.run_id)) [
          | inl y ↦ ground (arith, w.run)
          | inr n ↦
              let free : clash s v ≡ false =
                clash-Weaker r v s w
                  (h.apart k r.run_id s r g f (λ e. cc (n, (==_iff k r.run_id).1 e))) in
              ground (arith, w.run)
        ]

-- The registry decodes every state.
abbrev pub Accepts : ParseState → Type 0
Accepts parse =
    (domain schema : String) (state : BaseRuntimeState)
    → is_null (parse domain schema state) ≡ false

decoded :
    (row : RunRecord) (o : Option BaseRuntimeState)
    → is_null o ≡ false
    → (run : RunRecord) × (with_state row o ≡ ok run) × (run.run_id ≡ row.run_id)
decoded row none h = absurd (cc)
decoded row (some s) h = (record row { state = some s }, refl, refl)

pub row_to_run-ok :
    (parse : ParseState) (row : RunRecord)
    → Accepts parse
    → (run : RunRecord) × (row_to_run parse row ≡ ok run) × (run.run_id ≡ row.run_id)
unfolding row_to_run
row_to_run-ok parse row a = elim (Option-cases row.state) [
  | inl e ↦ (row, ground arith, refl)
  | inr (s, e) ↦
      let d =
        decoded row (parse row.domain_id row.schema_version s)
          (a row.domain_id row.schema_version s) in
      (d.0, ground (arith, d.1), d.2)
]
