-- ===== src/RunStore/History/Events.antt =====
-- The event log of a run: it only grows, and a listing after any sequence number has no gap.
use agent_runtime_platform.Base.{
  ℕ, zero, suc, ◌+◌, ◌-◌, List, [], ◌∷◌, ◌++◌, map, ◌≡◌, refl, ap, ◌∙◌, inl, inr, arith, Bool-cases,
  ◌==◌, ltb, ==_iff,
}
use agent_runtime_platform.Models.{RunEvent}
use agent_runtime_platform.RunStore.{Database, Clock, empty}
use agent_runtime_platform.RunStore.Events.{max_sequence, list_events, insert_by_sequence}
use agent_runtime_platform.RunStore.Step.{Call, run_calls}
use agent_runtime_platform.RunStore.Moves.{Move, Moves, here, next, inserts, writes, logs, saves}
use agent_runtime_platform.RunStore.Moves.Steps.{run_calls-Moves}
use agent_runtime_platform.RunStore.Invariant.{Numbered}
use agent_runtime_platform.RunStore.Invariant.Keep.{run_calls-Inv}

-- The numbers a, a + 1, ..., as many as n.
abbrev pub range_from : ℕ → ℕ → List ℕ
range_from a zero = []
range_from a (suc n) = a ∷ range_from (suc a) n

abbrev pub sequences : List RunEvent → List ℕ
sequences = map (λ (e : RunEvent). e.sequence)

range_from-last : (a n : ℕ) → range_from a n ++ (a + n) ∷ [] ≡ range_from a (suc n)
range_from-last a zero = ground arith
range_from-last a (suc n) = ground (arith, range_from-last (suc a) n)

-- An event behind all of a gap-free listing goes to its end.
insert_last :
    (e : RunEvent) (xs : List RunEvent) (a n : ℕ)
    → sequences xs ≡ range_from a n
    → e.sequence ≡ a + n
    → sequences (insert_by_sequence e xs) ≡ range_from a (suc n)
unfolding insert_by_sequence
insert_last e [] a zero h s = ground arith
insert_last e [] a (suc n) h s = absurd (cc)
insert_last e (x ∷ xs) a zero h s = absurd (cc)
insert_last e (x ∷ xs) a (suc n) h s = ground (arith, insert_last e xs (suc a) n)

list_events-range :
    (id k : ℕ) (es : List RunEvent)
    → Numbered es
    → sequences (list_events id k es) ≡ range_from (suc k) (max_sequence id es - k)
unfolding list_events max_sequence
list_events-range id k [] h = ground arith
list_events-range id k (e ∷ es) h = elim (Bool-cases (e.run_id == id)) [
  | inr other ↦ rw other (list_events-range id k es h.1)
  | inl mine ↦
      let last : e.sequence ≡ suc (max_sequence id es) =
        h.0 ∙ ap (λ j. suc (max_sequence j es)) ((==_iff e.run_id id).0 mine) in
      elim (Bool-cases (ltb k e.sequence)) [
        | inl new ↦
            rw (mine, new)
              (insert_last e (list_events id k es) (suc k) (max_sequence id es - k)
                  (list_events-range id k es h.1) (ground arith)
                ∙ ap (range_from (suc k)) {x = suc (max_sequence id es - k)} (ground arith))
        | inr old ↦
            rw (mine, old)
              (list_events-range id k es h.1
                ∙ ap (range_from (suc k)) {x = max_sequence id es - k} (ground arith))
      ]
]

-- After any calls from the empty store on, the events of a run that a listing after sequence k
-- returns are numbered k + 1, k + 2, ... up to the last event of the run, in this order: a client
-- that asks again after the last number it saw misses none and sees none twice.
pub list_events-run_calls :
    (cs : List (Clock × Call)) (id k : ℕ)
    → let events = (run_calls empty cs).run_events in
      sequences (list_events id k events) ≡ range_from (suc k) (max_sequence id events - k)
list_events-run_calls cs id k =
    list_events-range id k (run_calls empty cs).run_events (run_calls-Inv cs).numbered

-- The events of the first database, with others before them (the newest stands first).
abbrev Grows : Database → Database → Type 0
Grows db db' = (new : List RunEvent) × (db'.run_events ≡ new ++ db.run_events)

Grows-Move : (db : Database) {d d' : Database} → Move d d' → Grows db d → Grows db d'
Grows-Move db (inserts run n fresh free e) g = (g.0, ap (λ (x : Database). x.run_events) e ∙ g.1)
Grows-Move db (writes s v k free m e) g = (g.0, ap (λ (x : Database). x.run_events) e ∙ g.1)
Grows-Move db (saves c rows a e) g = (g.0, ap (λ (x : Database). x.run_events) e ∙ g.1)
Grows-Move db (logs event known nx e) g =
    (event ∷ g.0, ap (λ (x : Database). x.run_events) e ∙ ap (λ l. event ∷ l) g.1)

Grows-Moves : {db d : Database} → Moves db d → Grows db d
Grows-Moves here = ([], refl)
Grows-Moves {db} (next m s) = Grows-Move db s (Grows-Moves m)

-- No call removes, changes or reorders an event that was logged.
pub run_calls-events :
    (db : Database) (cs : List (Clock × Call))
    → (new : List RunEvent) × ((run_calls db cs).run_events ≡ new ++ db.run_events)
run_calls-events db cs = Grows-Moves (run_calls-Moves db cs)
