-- ===== src/Models.antt =====
-- runtime_service/models.py: runs, their statuses, events and the outcomes of a commit.
pub mod Status
pub use Status.*
use agent_runtime_platform.Base.{ℕ, String, Bool, true, false, Option, List}
use agent_runtime_platform.Contracts.{BaseRuntimeState, RuntimeExecutionAuthority, Fields, Text}

pub data RunLeaseRecoveryReason : Type 0 where
  lease_expired legacy_unleased : RunLeaseRecoveryReason

pub data RunCommitOutcome : Type 0 where
  committed cancel_requested checkpoint_conflict lease_lost already_terminal not_eligible :
      RunCommitOutcome

-- A `RunRecord`, and the row of table `runs` that holds it.
pub record RunRecord : Type 0 where
  pub run_id : ℕ
  pub tenant_id : ℕ
  pub thread_id : ℕ
  pub agent_id : String
  pub agent_version : String
  pub domain_id : String
  pub schema_version : String
  pub status : RunStatus
  pub input : Fields
  pub state : Option BaseRuntimeState
  pub output_message : Option String
  pub validation_errors : List String
  pub error_code : Option String
  pub error : Option Text
  pub execution_authority : Option RuntimeExecutionAuthority
  pub attempt : ℕ
  pub cancel_requested : Bool
  pub client_request_id : Option ℕ
  pub created_at : ℕ
  pub updated_at : ℕ
  pub started_at : Option ℕ
  pub completed_at : Option ℕ
  pub lease_owner_id : Option ℕ
  pub lease_token : Option ℕ
  pub lease_heartbeat_at : Option ℕ
  pub lease_expires_at : Option ℕ
  pub checkpoint_base_revision : Option ℕ

pub record RunLeaseClaim : Type 0 where
  pub run : RunRecord
  pub owner_id : ℕ
  pub lease_token : ℕ
  pub recovery_reason : Option RunLeaseRecoveryReason

pub record RunEvent : Type 0 where
  pub event_id : ℕ
  pub run_id : ℕ
  pub sequence : ℕ
  pub event_type : String
  pub payload : Fields
  pub created_at : ℕ
