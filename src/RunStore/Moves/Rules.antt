-- ===== src/RunStore/Moves/Rules.antt =====
-- Rules by which a method's body is shown to be a sequence of moves.
use agent_runtime_platform.Base.{
  ℕ, String, Bool, true, false, Option, none, some, ◌≡◌, refl, sym, subst, inl, inr, arith,
  Option-cases, if◌then◌else◌,
}
use agent_runtime_platform.Base.Table
use agent_runtime_platform.Base.Table.{number_key}
use agent_runtime_platform.Contracts.{Fields}
use agent_runtime_platform.Models.{RunRecord, RunEvent}
use agent_runtime_platform.RunStore.{
  Database, Result, ok, err, Error, ◌>>=◌, ◌>>◌, guard, or_error, after, run_key, find_run,
  update_run,
}
use agent_runtime_platform.RunStore.Events.{append_event}
use agent_runtime_platform.RunStore.Cancel.{tables_after}
use agent_runtime_platform.RunStore.Moves.{
  Move, Moves, here, next, writes, logs, RowMove, Ensures, Reaches,
}

pub ok-inj {ℓ} : {A : Type ℓ} {a b : A} → ok a ≡ ok b → a ≡ b
ok-inj q = cc

pub or_error-ok {ℓ} :
    {A : Type ℓ} (o : Option A) (e : Error) {a : A} → or_error o e ≡ ok a → o ≡ some a
or_error-ok none e h = absurd (cc)
or_error-ok (some b) e h = cc

module _ {ℓ κ μ} {A : Type ℓ} {B : Type κ} {P : B → Type μ} where
  pub Ensures-bind :
      (m : Result A) (f : A → Result B)
      → ((a : A) → m ≡ ok a → Ensures P (f a))
      → Ensures P (m >>= f)
  unfolding ◌>>=◌
  Ensures-bind (ok a) f h = h a refl
  Ensures-bind (err e) f h = record { at = λ b q. absurd (cc) }

module _ {κ μ} {B : Type κ} {P : B → Type μ} where
  pub Ensures-ok : (b : B) → P b → Ensures P (ok b)
  Ensures-ok b h = record { at = λ c q. subst P (ok-inj q) h }

  pub Ensures-err : (e : Error) → Ensures P (err e)
  Ensures-err e = record { at = λ b q. absurd (cc) }

  pub Ensures-guard :
      (t : Bool) (e : Error) (m : Result B) → (t ≡ true → Ensures P m) → Ensures P (guard t e >> m)
  unfolding ◌>>=◌
  Ensures-guard true e m h = h refl
  Ensures-guard false e m h = record { at = λ b q. absurd (cc) }

  pub Ensures-if :
      (t : Bool) (m n : Result B)
      → (t ≡ true → Ensures P m)
      → (t ≡ false → Ensures P n)
      → Ensures P (if t then m else n)
  Ensures-if true m n h k = h refl
  Ensures-if false m n h k = k refl

pub append_event-Move :
    (id : ℕ) (type : String) (payload : Fields) (at : ℕ) (db : Database) {p : Database × RunEvent}
    → append_event id type payload at db ≡ ok p
    → Move db p.0
unfolding append_event
append_event-Move id type payload at db {p} h =
    logs p.1 (ground arith) (ground arith) (ground arith)

pub update_run-Move :
    (id : ℕ) (w : RunRecord → Bool) (to : RunRecord → RunRecord) (db : Database) {db' : Database}
    → ((r : RunRecord) → find_run id db.runs ≡ some r → w r ≡ true → RowMove db r (to r))
    → update_run id w to db ≡ ok (some db')
    → Move db db'
unfolding update_run
update_run-Move id w to db {db'} k h = elim (Option-cases (find_run id db.runs)) [
  | inl e ↦ ground arith
  | inr (r, e) ↦
      let same : r.run_id ≡ id = Table.find-key run_key id db.runs e in
      writes r (to r) (subst (λ k. find_run k db.runs ≡ some r) (sym same) e) (ground arith)
        (k r e (ground arith)) (ground arith)
]

pub update_run-Moves :
    (id : ℕ) (w : RunRecord → Bool) (to : RunRecord → RunRecord) (db : Database)
    → ((r : RunRecord) → find_run id db.runs ≡ some r → w r ≡ true → RowMove db r (to r))
    → (u : Option Database) → update_run id w to db ≡ ok u
    → Moves db (tables_after db u)
update_run-Moves id w to db k none h = here
update_run-Moves id w to db k (some d) h = next here (update_run-Move id w to db k h)

-- The next event of a run, behind other moves.
pub then_logs :
    {db d : Database} (id : ℕ) (type : String) (payload : Fields) (at : ℕ) {p : Database × RunEvent}
    → Moves db d
    → append_event id type payload at d ≡ ok p
    → Moves db p.0
then_logs {db} {d} id type payload at m h = next m (append_event-Move id type payload at d h)

pub after-Moves {ℓ} :
    {A : Type ℓ} (db : Database) (m : Result (Database × A)) → Reaches db m → Moves db (after db m)
after-Moves db (ok p) h = h.at p refl
after-Moves db (err e) h = here

pub Moves-trans : {a b c : Database} → Moves a b → Moves b c → Moves a c
Moves-trans m here = m
Moves-trans m (next n s) = next (Moves-trans m n) s
