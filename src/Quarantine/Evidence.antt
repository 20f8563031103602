-- ===== src/Quarantine/Evidence.antt =====
-- runtime_service/store.py: `_terminal_external_action_evidence_is_consistent` and what it reads of
-- payloads. A status outside of the enumeration is in no row, so none is counted as unrecognized.
use agent_runtime_platform.Base.{
  ℕ, String, Bool, true, false, not, ◌&&◌, ◌||◌, Option, none, some, List, [], ◌∷◌, ◌==◌, leb,
  is_null, if◌then◌else◌, str_eq, select, all,
}
use agent_runtime_platform.Contracts.{Json, null, bool, num, str, literal, Fields, BaseRuntimeState}
use agent_runtime_platform.Models.{RunStatus, RunEvent}
use agent_runtime_platform.Quarantine.{
  QuarantineResolutionTarget, QuarantineResolutionKind, ExternalActionStatusSummary,
}
use agent_runtime_platform.Workflow.{
  WorkflowExecutionRecord, ToolCallRecord, ExternalActionRecord, find_step, is_completed_call,
  is_failed_call,
}
use agent_runtime_platform.Workflow.Actions.{is_terminal_action}
use agent_runtime_platform.Workflow.Actions.Ending.{
  is_succeeded, status_value, ending_event, is_blank, same_optional,
}
use agent_runtime_platform.Workflow.Actions.Finalize.{step_event, step_outcome}

-- The `checkpoint.conflict` event as the plan's hash reads it.
pub record SafeConflict : Type 0 where
  pub sequence : ℕ
  pub created_at : ℕ
  pub phase : Json
  pub expected_revision : Json
  pub observed_revision : Json
  pub disposition : Json

-- `plan_material`
pub record PlanMaterial : Type 0 where
  pub tenant_id : ℕ
  pub target : QuarantineResolutionTarget
  pub resolution : QuarantineResolutionKind
  pub status : RunStatus
  pub error_code : Option String
  pub attempt : ℕ
  pub cancel_requested : Bool
  pub checkpoint_base_revision : Option ℕ
  pub updated_at : ℕ
  pub lease_cleared : Bool
  pub revision : ℕ
  pub checkpoint_evidence : ℕ
  pub conflict : Option SafeConflict
  pub workflow_evidence : ℕ
  pub summary : ExternalActionStatusSummary

-- The SHA-256 of canonical JSON, of the three materials that are hashed, and whether
-- `_decode_json_object` decodes a text.
pub record Digests : Type 0 where
  pub is_json_object : String → Bool
  pub workflow_evidence :
      Option WorkflowExecutionRecord
      → List ToolCallRecord
      → List ExternalActionRecord
      → List RunEvent
      → ℕ
  pub checkpoint_evidence : ℕ → Option BaseRuntimeState → ℕ
  pub plan_hash : PlanMaterial → ℕ

-- `payload.get(key)`
unfoldable pub get : String → Fields → Json
get key [] = null
get key (field ∷ fields) = let rest = get key fields in if str_eq field.0 key then field.1 else rest

-- `value == text`. A formatted text is none of the texts that are compared.
abbrev pub is_text : Json → String → Bool
is_text (str (literal s)) t = str_eq s t
is_text _ t = false

-- `value == text`, where the text may be None
abbrev pub is_optional_text : Json → Option String → Bool
is_optional_text null none = true
is_optional_text j none = false
is_optional_text j (some t) = is_text j t

-- `value == number`: in Python True is 1.
abbrev pub is_number : Json → ℕ → Bool
is_number (num n) m = n == m
is_number (bool b) m = (if b then 1 else 0) == m
is_number _ m = false

-- An id is a text of the program.
abbrev pub is_id : Json → ℕ → Bool
is_id (num n) m = n == m
is_id _ m = false

abbrev pub is_optional_number : Json → Option ℕ → Bool
is_optional_number null none = true
is_optional_number j none = false
is_optional_number j (some n) = is_number j n

-- The one item of a list.
abbrev pub only {ℓ} : {A : Type ℓ} → List A → Option A
only [] = none
only (x ∷ []) = some x
only (x ∷ y ∷ ys) = none

unfoldable pub row_is_consistent : Digests → ExternalActionRecord → ToolCallRecord → Bool
row_is_consistent digests a s =
    if is_succeeded a.status
    then not (is_blank a.provider_reference)
      && elim a.result_json [ none ↦ false | some r ↦ digests.is_json_object r ]
      && is_null a.error_code
      && is_completed_call s.status
      && same_optional s.result_json a.result_json
      && is_null s.error_code
    else is_null a.result_json
      && not (is_blank a.error_code)
      && is_failed_call s.status
      && is_null s.result_json
      && same_optional s.error_code a.error_code

-- The terminal events of an action.
unfoldable pub ends_action : ExternalActionRecord → RunEvent → Bool
ends_action a e =
    (str_eq e.event_type "external_action.succeeded"
      || str_eq e.event_type "external_action.failed"
      || str_eq e.event_type "external_action.outcome_unknown")
    && is_id (get "action_id" e.payload) a.action_id

unfoldable pub action_event_is_consistent : ExternalActionRecord → RunEvent → Bool
unfolding get
action_event_is_consistent a e =
    str_eq e.event_type (ending_event a.status)
    && is_id (get "step_id" e.payload) a.step_id
    && is_text (get "tool_name" e.payload) a.identity.tool_name
    && is_text (get "provider_name" e.payload) a.identity.provider_name
    && is_text (get "status" e.payload) (status_value a.status)
    && is_number (get "dispatch_count" e.payload) a.dispatch_count
    && is_optional_text (get "provider_reference" e.payload) a.provider_reference
    && is_optional_text (get "error_code" e.payload) a.error_code

-- The terminal events of a step.
unfoldable pub ends_step : ExternalActionRecord → RunEvent → Bool
unfolding get
ends_step a e =
    (str_eq e.event_type "step.completed" || str_eq e.event_type "step.failed")
    && is_id (get "step_id" e.payload) a.step_id

unfoldable pub step_event_is_consistent : ExternalActionRecord → ToolCallRecord → RunEvent → Bool
unfolding get
step_event_is_consistent a s e =
    str_eq e.event_type (step_event a.status)
    && is_text (get "tool_name" e.payload) s.tool_name
    && is_number (get "attempt_count" e.payload) s.attempt_count
    && is_optional_text (get "error_code" e.payload) s.error_code
    && is_text (get "outcome" e.payload) (step_outcome a.status)

-- The columns of the action alone.
unfoldable pub identity_is_consistent :
    Digests → ℕ → WorkflowExecutionRecord → ExternalActionRecord → Bool
identity_is_consistent digests tenant execution a =
    a.identity.tenant_id == tenant
    && str_eq a.identity.workflow_type execution.workflow_type
    && not (str_eq a.identity.provider_name "")
    && not (str_eq a.identity.provider_identity "")
    && not (a.identity.idempotency_key == 0)
    && digests.is_json_object a.identity.arguments_json

-- A test of what was looked up.
abbrev pub holds_of {ℓ} : {A : Type ℓ} → Option A → (A → Bool) → Bool
holds_of none test = false
holds_of (some a) test = test a

unfoldable pub action_is_consistent :
    Digests
    → ℕ
    → WorkflowExecutionRecord
    → List ToolCallRecord
    → List RunEvent
    → ExternalActionRecord
    → Bool
unfolding identity_is_consistent row_is_consistent action_event_is_consistent
    step_event_is_consistent ends_action ends_step
action_is_consistent digests tenant execution steps events a =
    is_terminal_action a.status
    && identity_is_consistent digests tenant execution a
    && leb 1 a.dispatch_count
    && not (is_null a.dispatch_token)
    && holds_of (find_step (a.run_id, a.step_id) steps) (λ s.
      str_eq s.tool_name a.identity.tool_name
      && s.input_hash == a.identity.input_hash
      && row_is_consistent digests a s
      && holds_of (only (select (ends_action a) events)) (action_event_is_consistent a)
      && holds_of (only (select (ends_step a) events)) (step_event_is_consistent a s))

-- Each payload of the model is a JSON object.
unfoldable pub evidence_is_consistent :
    Digests
    → ℕ
    → Option WorkflowExecutionRecord
    → List ToolCallRecord
    → List ExternalActionRecord
    → List RunEvent
    → Bool
unfolding action_is_consistent
evidence_is_consistent digests tenant none steps actions events = false
evidence_is_consistent digests tenant (some execution) steps actions events =
    all (action_is_consistent digests tenant execution steps events) actions
