-- ===== src/Quarantine/Derive/Reasons.antt =====
-- runtime_service/store.py, `_derive_quarantine_plan_with_connection`: the rows that it reads, and
-- the reasons for which a plan is not eligible.
use agent_runtime_platform.Base.{
  ℕ, Bool, true, false, not, ◌&&◌, ◌||◌, Option, none, some, List, [], ◌∷◌, ◌==◌, ltb, is_null,
  holds_number, holds_text, if◌then◌else◌, str_eq, select, sort_by, length,
}
use agent_runtime_platform.Contracts.{BaseRuntimeState}
use agent_runtime_platform.Models.{RunRecord, RunEvent, is_running}
use agent_runtime_platform.RunStore.{Database, find_checkpoint}
use agent_runtime_platform.RunStore.Claim.{reconciliation_blocked_code}
use agent_runtime_platform.Workflow.{
  Ledger, WorkflowExecutionRecord, ToolCallRecord, ExternalActionRecord, ExternalActionStatus,
  prepared, dispatching, succeeded, action_failed, outcome_unknown, find_execution,
}
use agent_runtime_platform.Quarantine.{
  ExternalActionStatusSummary, IneligibilityReason, run_not_quarantined,
  execution_authority_present, checkpoint_conflict_event_missing,
  checkpoint_conflict_event_mismatch, checkpoint_revision_not_drifted, workflow_execution_missing,
  external_action_evidence_missing, external_action_nonterminal,
  external_action_evidence_inconsistent, is_empty,
}
use agent_runtime_platform.Quarantine.Evidence.{
  Digests, get, is_text, is_optional_number, is_number, evidence_is_consistent,
}

-- What the transaction reads.
pub record Evidence : Type 0 where
  pub execution : Option WorkflowExecutionRecord
  pub steps : List ToolCallRecord
  pub actions : List ExternalActionRecord
  pub events : List RunEvent

abbrev pub by_sequence : RunEvent → RunEvent → Bool
by_sequence a b = ltb a.sequence b.sequence

-- SELECT ... WHERE run_id = ? ORDER BY sequence
unfoldable pub events_of : ℕ → List RunEvent → List RunEvent
events_of run_id events = sort_by by_sequence (select (λ e. e.run_id == run_id) events)

-- ORDER BY created_at, call_id and ORDER BY created_at, action_id
abbrev pub step_before : ToolCallRecord → ToolCallRecord → Bool
step_before a b =
    ltb a.created_at b.created_at || (a.created_at == b.created_at && ltb a.call_id b.call_id)

abbrev pub action_before : ExternalActionRecord → ExternalActionRecord → Bool
action_before a b =
    ltb a.created_at b.created_at || (a.created_at == b.created_at && ltb a.action_id b.action_id)

unfoldable pub evidence_of : ℕ → Ledger → Evidence
unfolding events_of
evidence_of run_id ledger = record {
  execution = find_execution run_id ledger.workflow_executions;
  steps = sort_by step_before (select (λ s. s.run_id == run_id) ledger.tool_calls);
  actions = sort_by action_before (select (λ a. a.run_id == run_id) ledger.external_actions);
  events = events_of run_id ledger.workflow_events;
}

-- `_workflow_evidence_fingerprint`
unfoldable pub workflow_fingerprint : Digests → Evidence → ℕ
workflow_fingerprint digests e = digests.workflow_evidence e.execution e.steps e.actions e.events

-- The revision and the state of the thread's checkpoint, and their fingerprint.
unfoldable pub observed_revision : Database → ℕ → ℕ → ℕ
observed_revision db tenant thread = elim (find_checkpoint (tenant, thread) db.thread_states) [
  | none ↦ 0
  | some c ↦ c.revision
]

unfoldable pub observed_state : Database → ℕ → ℕ → Option BaseRuntimeState
observed_state db tenant thread = elim (find_checkpoint (tenant, thread) db.thread_states) [
  | none ↦ none
  | some c ↦ some c.state
]

unfoldable pub checkpoint_fingerprint : Digests → Database → ℕ → ℕ → ℕ
unfolding observed_revision observed_state
checkpoint_fingerprint digests db tenant thread =
    digests.checkpoint_evidence (observed_revision db tenant thread)
      (observed_state db tenant thread)

unfoldable pub is_quarantine_event : RunEvent → Bool
unfolding get
is_quarantine_event e =
    str_eq e.event_type "checkpoint.conflict"
    && is_text (get "disposition" e.payload) "external_action_reconciliation_quarantined"

-- The last such event.
unfoldable pub last_conflict : List RunEvent → Option RunEvent
unfolding is_quarantine_event
last_conflict [] = none
last_conflict (e ∷ es) =
    let later = last_conflict es in if is_null later && is_quarantine_event e then some e else later

unfoldable pub has_status : ExternalActionStatus → ExternalActionRecord → Bool
has_status prepared a = elim a.status [ prepared ↦ true | _ ↦ false ]
has_status dispatching a = elim a.status [ dispatching ↦ true | _ ↦ false ]
has_status succeeded a = elim a.status [ succeeded ↦ true | _ ↦ false ]
has_status action_failed a = elim a.status [ action_failed ↦ true | _ ↦ false ]
has_status outcome_unknown a = elim a.status [ outcome_unknown ↦ true | _ ↦ false ]

unfoldable pub count_status : ExternalActionStatus → List ExternalActionRecord → ℕ
unfolding has_status
count_status status actions = length (select (has_status status) actions)

unfoldable pub summary_of : List ExternalActionRecord → ExternalActionStatusSummary
unfolding count_status
summary_of actions = record {
  total = length actions;
  prepared = count_status prepared actions;
  dispatching = count_status dispatching actions;
  succeeded = count_status succeeded actions;
  failed = count_status action_failed actions;
  outcome_unknown = count_status outcome_unknown actions;
  unrecognized = 0;
}

-- The four columns of a lease are NULL.
unfoldable pub lease_cleared : RunRecord → Bool
lease_cleared r =
    is_null r.lease_owner_id
    && is_null r.lease_token
    && is_null r.lease_heartbeat_at
    && is_null r.lease_expires_at

unfoldable pub is_quarantined : RunRecord → Bool
is_quarantined r = is_running r.status && holds_text r.error_code reconciliation_blocked_code

-- The reasons whose conditions hold. No reason is added twice.
abbrev pub add_reasons : List (Bool × IneligibilityReason) → List IneligibilityReason
add_reasons [] = []
add_reasons ((condition, reason) ∷ rest) =
    if condition then reason ∷ add_reasons rest else add_reasons rest

unfoldable pub event_mismatches : Option RunEvent → Option ℕ → ℕ → Bool
unfolding get
event_mismatches none base observed = false
event_mismatches (some e) base observed =
    not (is_optional_number (get "expected_revision" e.payload) base)
    || not (is_number (get "observed_revision" e.payload) observed)

unfoldable pub reconciliation_required : ExternalActionStatusSummary → Bool
reconciliation_required s = ltb 0 s.prepared || ltb 0 s.dispatching || ltb 0 s.unrecognized

-- Each condition with the reason that it gives, in the order of the code.
unfoldable pub conditions_of :
    Digests → ℕ → RunRecord → Option RunEvent → ℕ → Evidence → List (Bool × IneligibilityReason)
unfolding is_quarantined lease_cleared event_mismatches reconciliation_required summary_of
    evidence_is_consistent
conditions_of digests tenant run conflict observed e =
    (not (is_quarantined run), run_not_quarantined)
    ∷ (not (lease_cleared run), execution_authority_present)
    ∷ (is_null conflict, checkpoint_conflict_event_missing)
    ∷ (
      event_mismatches conflict run.checkpoint_base_revision observed,
      checkpoint_conflict_event_mismatch,
    )
    ∷ (holds_number run.checkpoint_base_revision observed, checkpoint_revision_not_drifted)
    ∷ (is_null e.execution, workflow_execution_missing)
    ∷ (is_empty e.actions, external_action_evidence_missing)
    ∷ (reconciliation_required (summary_of e.actions), external_action_nonterminal)
    ∷ (
      not (is_empty e.actions)
          && not (evidence_is_consistent digests tenant e.execution e.steps e.actions e.events),
      external_action_evidence_inconsistent,
    )
    ∷ []

unfoldable pub reasons_of :
    Digests → ℕ → RunRecord → Option RunEvent → ℕ → Evidence → List IneligibilityReason
unfolding conditions_of
reasons_of digests tenant run conflict observed e =
    add_reasons (conditions_of digests tenant run conflict observed e)
