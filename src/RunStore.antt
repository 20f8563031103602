-- ===== src/RunStore.antt =====
-- runtime_service/store.py: the three tables of `SQLiteRunStore`, the statements that read and
-- write them, and the errors of its methods. A method is one transaction: it returns the new
-- tables and its result, and an error leaves the tables as they were.
pub mod Events
pub mod Create
pub mod Claim
pub mod Lease
pub mod Cancel
pub mod Outcome
pub mod Complete
pub mod Conflict
pub mod Settle
pub mod Threads
pub mod Step
pub mod Moves
pub mod Invariant
pub mod History
pub mod Writes
pub mod Fencing
use agent_runtime_platform.Base.{
  ℕ, String, Bool, true, false, not, ◌&&◌, ◌||◌, Option, none, some, List, [], ◌∷◌, ◌==◌,
  holds_number, if◌then◌else◌, any,
}
use agent_runtime_platform.Base.Table
use agent_runtime_platform.Base.Table.{number_key, pair_key}
use agent_runtime_platform.Contracts.{BaseRuntimeState}
use agent_runtime_platform.Quarantine.{QuarantineResolutionPlan}
use agent_runtime_platform.Models.{RunRecord, RunEvent, is_running}

-- A row of table `thread_states`.
pub record Checkpoint : Type 0 where
  pub tenant_id : ℕ
  pub thread_id : ℕ
  pub domain_id : String
  pub schema_version : String
  pub state : BaseRuntimeState
  pub updated_at : ℕ
  pub revision : ℕ

pub record Database : Type 0 where
  pub runs : List RunRecord
  pub run_events : List RunEvent
  pub thread_states : List Checkpoint
  pub last_event_id : ℕ

abbrev pub empty : Database
empty = record { runs = []; run_events = []; thread_states = []; last_event_id = 0 }

-- What a method reads of the clocks: the store's lease clock and `utc_now`.
pub record Clock : Type 0 where
  pub now_ms : ℕ
  pub utc_now : ℕ

-- KeyError, RunLeaseLostError, ValueError, RuntimeError, sqlite3.IntegrityError,
-- ThreadStateConflictError, ThreadCheckpointRevisionConflictError, a refusal by the registry, and,
-- of the workflow store, KeyError on an execution, a step or an action, StaleAttemptError,
-- StaleDispatchError and sqlite3.OperationalError. The errors of a resolution are
-- QuarantineResolutionEvidenceIncompleteError, QuarantineTargetNotFoundError and
-- QuarantineResolutionStalePlanError.
pub data Error : Type 0 where
  run_not_found lease_is_lost value_error runtime_error integrity_error : Error
  thread_state_conflict state_invalid : Error
  revision_conflict : Option ℕ → ℕ → Error
  execution_not_found step_not_found action_not_found stale_attempt stale_dispatch : Error
  operational_error : Error
  evidence_incomplete target_not_found : Error
  stale_plan : QuarantineResolutionPlan → Error

-- A transaction that raises is rolled back.
pub data Result {ℓ} (Value : Type ℓ) : Type ℓ where
  err : Error → Result Value
  ok : Value → Result Value

abbrev pub guard : Bool → Error → Result (Unit {0})
guard holds raised = if holds then ok tt else err raised

infixl 5 ◌>>=◌
-- The next statement of a method. It is opened where a proof computes.
unfoldable pub ◌>>=◌ {ℓ κ} :
    {Value : Type ℓ} {Next : Type κ} → Result Value → (Value → Result Next) → Result Next
err raised >>= next = err raised
ok value >>= next = next value

infixl 5 ◌>>◌
abbrev pub ◌>>◌ {ℓ} : {Next : Type ℓ} → Result (Unit {0}) → Result Next → Result Next
statement >> rest = statement >>= λ _. rest

abbrev pub or_error {ℓ} : {A : Type ℓ} → Option A → Error → Result A
or_error none e = err e
or_error (some a) e = ok a

-- An uncommitted transaction leaves the tables as they were.
abbrev pub after {ℓ} : {A : Type ℓ} → Database → Result (Database × A) → Database
after db (ok r) = r.0
after db (err e) = db

abbrev pub run_key : RunRecord → ℕ
run_key r = r.run_id

abbrev pub find_run : ℕ → List RunRecord → Option RunRecord
find_run = Table.find run_key

abbrev pub checkpoint_key : Checkpoint → ℕ × ℕ
checkpoint_key c = (c.tenant_id, c.thread_id)

abbrev pub find_checkpoint : ℕ × ℕ → List Checkpoint → Option Checkpoint
find_checkpoint = Table.find checkpoint_key

abbrev pub same_thread : RunRecord → RunRecord → Bool
same_thread r s = r.tenant_id == s.tenant_id && r.thread_id == s.thread_id

-- `idx_runs_tenant_client_request_id`: NULL differs from every value.
abbrev pub same_request : Option ℕ → Option ℕ → Bool
same_request none s = false
same_request (some a) s = holds_number s a

-- Two rows that one of the unique indexes `idx_runs_one_running_per_thread` and
-- `idx_runs_tenant_client_request_id` keeps apart.
unfoldable pub clash : RunRecord → RunRecord → Bool
clash r s =
    (is_running r.status && is_running s.status && same_thread r s)
    || (r.tenant_id == s.tenant_id && same_request r.client_request_id s.client_request_id)

-- Another row keeps the row from being written.
unfoldable pub breaks_index : List RunRecord → RunRecord → Bool
breaks_index rows v = any (λ r. not (r.run_id == v.run_id) && clash r v) rows

-- UPDATE runs SET ... WHERE run_id = ? AND ...: `none` stands for a row count of 0.
unfoldable pub update_row :
    Option RunRecord
    → (RunRecord → Bool)
    → (RunRecord → RunRecord)
    → Database
    → Result (Option Database)
update_row none where_ to db = ok none
update_row (some r) where_ to db =
    if where_ r
    then (if breaks_index db.runs (to r)
        then err integrity_error
        else ok (some (record db { runs = Table.set run_key r.run_id (to r) db.runs })))
    else ok none

unfoldable pub update_run :
    ℕ → (RunRecord → Bool) → (RunRecord → RunRecord) → Database → Result (Option Database)
unfolding update_row
update_run id where_ to db = update_row (find_run id db.runs) where_ to db

-- `self._state_registry.parse_state` and the JSON decoding before it.
abbrev pub ParseState : Type 0
ParseState = String → String → BaseRuntimeState → Option BaseRuntimeState

abbrev pub with_state : RunRecord → Option BaseRuntimeState → Result RunRecord
with_state row none = err state_invalid
with_state row (some s) = ok (record row { state = some s })

-- `_row_to_run`
unfoldable pub row_to_run : ParseState → RunRecord → Result RunRecord
row_to_run parse row = elim row.state [
  | none ↦ ok row
  | some s ↦ with_state row (parse row.domain_id row.schema_version s)
]

-- `_thread_revision`
unfoldable pub thread_revision : Database → ℕ → ℕ → ℕ
thread_revision db tenant thread = elim (find_checkpoint (tenant, thread) db.thread_states) [
  | none ↦ 0
  | some c ↦ c.revision
]
