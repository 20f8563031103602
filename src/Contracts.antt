-- ===== src/Contracts.antt =====
-- agent/contracts.py: the state that every domain runtime carries, its projection to a checkpoint,
-- and the authority that is captured when a run is created.
use agent_runtime_platform.Base.{ℕ, String, Bool, Option, none, some, List, []}
use agent_runtime_platform.Quarantine.{QuarantineResolutionPlan}

-- A text of the program. A message or an evidence id that the code formats is kept as its parts.
pub data Text : Type 0 where
  literal : String → Text
  revision_changed : Option ℕ → ℕ → Text
  revision_quarantined : Option ℕ → ℕ → Text
  action_evidence : ℕ → String → Text
  dispatch_evidence : ℕ → ℕ → Text

-- A model that is dumped is kept as its value.
pub data Json : Type 0 where
  null : Json
  bool : Bool → Json
  num : ℕ → Json
  str : Text → Json
  texts : List String → Json
  plan : QuarantineResolutionPlan → Json

-- A `dict[str, Any]`.
abbrev pub Fields : Type 0
Fields = List (String × Json)

-- `value or None` as JSON.
abbrev pub optional_num : Option ℕ → Json
optional_num none = null
optional_num (some n) = num n

pub record TraceEvent : Type 0 where
  pub event : String
  pub reason : String
  pub payload : Fields
  pub timestamp : ℕ

-- `domain_id` and `schema_version` are those of the concrete class; `fields` are the fields that
-- the class adds.
pub record BaseRuntimeState : Type 0 where
  pub domain_id : String
  pub schema_version : String
  pub thread_id : ℕ
  pub execution_trace : List TraceEvent
  pub fields : Fields

unfoldable pub project_thread_checkpoint_state : BaseRuntimeState → BaseRuntimeState
project_thread_checkpoint_state state = record state { execution_trace = [] }

pub record RuntimeExecutionAuthority : Type 0 where
  pub tenant_id : ℕ
  pub subject_id : ℕ
  pub permissions : List String
