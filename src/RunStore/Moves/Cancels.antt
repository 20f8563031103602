-- ===== src/RunStore/Moves/Cancels.antt =====
-- Requesting and finalizing a cancellation are sequences of moves.
use agent_runtime_platform.Base.{ℕ, Bool, true, false, Option, none, some}
use agent_runtime_platform.Base.Table.{number_key}
use agent_runtime_platform.Models.{RunRecord}
use agent_runtime_platform.RunStore.{Database, Clock, ParseState}
use agent_runtime_platform.RunStore.Claim.{first_row}
use agent_runtime_platform.RunStore.Cancel.{
  finalize_next_queued_cancellation, finalize_row, finish_cancellation, request_cancel_atomically,
  log_cancel_request, awaits_cancellation, tables_after,
}
use agent_runtime_platform.RunStore.Moves.{Moves, here, Ensures, Reaches}
use agent_runtime_platform.RunStore.Moves.Rules.{
  Ensures-bind, Ensures-ok, update_run-Moves, then_logs,
}
use agent_runtime_platform.RunStore.Moves.Rows.{cancel_before_start-RowMove, flag_cancelled-RowMove}

finish_cancellation-Reaches :
    (parse : ParseState) (clock : Clock) (id : ℕ) (u : Option Database) (db : Database)
    → Moves db (tables_after db u)
    → Reaches db (finish_cancellation parse clock id u db)
unfolding finish_cancellation
finish_cancellation-Reaches parse clock id none db m = Ensures-ok _ here
finish_cancellation-Reaches parse clock id (some d) db m =
    Ensures-bind _ _
      λ p h. Ensures-bind _ _ λ _ _. Ensures-bind _ _ λ _ _. Ensures-ok _ (then_logs id _ _ _ m h)

finalize_row-Reaches :
    (parse : ParseState) (clock : Clock) (c : Option RunRecord) (db : Database)
    → Reaches db (finalize_row parse clock c db)
unfolding finalize_row
finalize_row-Reaches parse clock none db = Ensures-ok _ here
finalize_row-Reaches parse clock (some c) db = Ensures-bind _ _ λ u h.
    finish_cancellation-Reaches parse clock c.run_id u db
      (update_run-Moves c.run_id _ _ db (λ r _ w. cancel_before_start-RowMove db r clock w) u h)

pub finalize-Reaches :
    (parse : ParseState) (clock : Clock) (db : Database)
    → Reaches db (finalize_next_queued_cancellation parse clock db)
unfolding finalize_next_queued_cancellation
finalize-Reaches parse clock db =
    finalize_row-Reaches parse clock (first_row awaits_cancellation db.runs) db

log_cancel_request-Reaches :
    {db d : Database} (clock : Clock) (id : ℕ) (row : RunRecord) (b : Bool)
    → Moves db d
    → Ensures (Moves db) (log_cancel_request clock id row b d)
unfolding log_cancel_request
log_cancel_request-Reaches clock id row false m = Ensures-ok _ m
log_cancel_request-Reaches clock id row true m =
    Ensures-bind _ _ λ p h. Ensures-ok _ (then_logs id _ _ _ m h)

pub request_cancel-Reaches :
    (parse : ParseState) (clock : Clock) (id tenant : ℕ) (db : Database)
    → Reaches db (request_cancel_atomically parse clock id tenant db)
unfolding request_cancel_atomically
request_cancel-Reaches parse clock id tenant db = Ensures-bind _ _ λ u h. Ensures-bind _ _ λ row _.
    Ensures-bind _ _ λ d l. Ensures-ok _ (
      (log_cancel_request-Reaches clock id row _
          (update_run-Moves id _ _ db (λ r _ w. flag_cancelled-RowMove db r clock tenant w) u h)).at
        d l)
