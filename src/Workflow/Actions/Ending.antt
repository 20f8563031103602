-- ===== src/Workflow/Actions/Ending.antt =====
-- What a caller says of the end of an external action: the tests of `_finalize_external_action` before
-- its transaction, and its test of an exact duplicate.
use agent_runtime_platform.Base.{
  ℕ, String, Bool, true, false, not, ◌&&◌, Option, none, some, holds_number, holds_text, is_null,
  if◌then◌else◌, str_eq,
}
use agent_runtime_platform.RunStore.{Result, ok, err, ◌>>=◌, ◌>>◌, guard, or_error, value_error}
use agent_runtime_platform.Workflow.{
  ToolCallStatus, call_completed, call_failed, ToolCallRecord, is_completed_call, is_failed_call,
  ExternalActionRecord, ExternalActionStatus, prepared, dispatching, succeeded, action_failed,
  outcome_unknown,
}
use agent_runtime_platform.Workflow.Actions.{Texts, is_terminal_action}

-- What a caller says of the end of an action.
pub record Ending : Type 0 where
  pub status : ExternalActionStatus
  pub result_json : Option String
  pub provider_reference : Option String
  pub error_code : Option String

-- Who may say so: under which lease, and only of an unsafe action.
pub record EndingRule : Type 0 where
  pub requires_lease : Bool
  pub requires_unsafe : Bool

abbrev pub is_succeeded : ExternalActionStatus → Bool
is_succeeded succeeded = true
is_succeeded _ = false

abbrev pub status_value : ExternalActionStatus → String
status_value prepared = "prepared"
status_value dispatching = "dispatching"
status_value succeeded = "succeeded"
status_value action_failed = "failed"
status_value outcome_unknown = "outcome_unknown"

-- `external_action.{status}`
abbrev pub ending_event : ExternalActionStatus → String
ending_event prepared = "external_action.prepared"
ending_event dispatching = "external_action.dispatching"
ending_event succeeded = "external_action.succeeded"
ending_event action_failed = "external_action.failed"
ending_event outcome_unknown = "external_action.outcome_unknown"

abbrev pub tool_status : ExternalActionStatus → ToolCallStatus
tool_status succeeded = call_completed
tool_status _ = call_failed

-- `not value` of an optional text
abbrev pub is_blank : Option String → Bool
is_blank none = true
is_blank (some t) = str_eq t ""

unfoldable pub canonical_of : Texts → Option String → Result (Option String)
canonical_of texts none = err value_error
canonical_of texts (some r) = do result ← or_error (texts.canonical r) value_error; ok (some result)

unfoldable pub check_error : Texts → Option String → Result (Option String)
check_error texts none = err value_error
check_error texts (some e) = do
  guard (not (str_eq e "")) value_error
  guard (texts.is_machine_code e) value_error
  ok none

-- The tests before the transaction, and the canonical result.
unfoldable pub check_ending : Texts → Ending → Result (Option String)
unfolding canonical_of check_error
check_ending texts e =
    if not (is_terminal_action e.status)
    then err value_error
    else if is_succeeded e.status
    then (do
      guard (not (is_blank e.provider_reference)) value_error
      guard (is_null e.error_code) value_error
      canonical_of texts e.result_json)
    else check_error texts e.error_code

abbrev pub same_optional : Option String → Option String → Bool
same_optional none none = true
same_optional none (some b) = false
same_optional (some a) b = holds_text b a

abbrev pub same_action_status : ExternalActionStatus → ExternalActionStatus → Bool
same_action_status a b = str_eq (status_value a) (status_value b)

abbrev pub same_call_status : ToolCallStatus → ToolCallStatus → Bool
same_call_status a call_completed = is_completed_call a
same_call_status a _ = is_failed_call a

-- `exact_duplicate`
unfoldable pub is_duplicate :
    ℕ → ℕ → Ending → Option String → ExternalActionRecord → ToolCallRecord → Bool
is_duplicate token attempt e result a s =
    same_action_status a.status e.status
    && holds_number a.dispatch_token token
    && same_optional a.provider_reference e.provider_reference
    && same_optional a.result_json result
    && same_optional a.error_code e.error_code
    && same_call_status s.status (tool_status e.status)
    && holds_number s.attempt_token attempt
    && same_optional s.result_json result
    && same_optional s.error_code e.error_code
