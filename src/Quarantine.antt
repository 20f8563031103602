-- ===== src/Quarantine.antt =====
-- runtime_service/quarantine.py: what an operator asks for a quarantined run, the plan that answers,
-- and what is committed. `Evidence`, `Derive`, `Apply` and `Verify` are the part of
-- runtime_service/store.py that resolves a quarantined run.
pub mod Evidence
pub mod Derive
pub mod Apply
pub mod Verify
pub mod Service
pub mod Events
pub mod Eligible
pub mod Fresh
pub mod Needs
pub mod Reads
pub mod Again
pub mod Confirmed
use agent_runtime_platform.Base.{
  ℕ, ◌+◌, String, Bool, true, false, not, ◌&&◌, Option, none, some, List, [], ◌∷◌, ◌==◌, is_null,
  if◌then◌else◌,
}
use agent_runtime_platform.Models.Status.{RunStatus}

pub data QuarantineResolutionKind : Type 0 where
  terminalize_failed_preserving_checkpoint : QuarantineResolutionKind

-- A target names a run or an action, and not both.
pub data QuarantineResolutionTarget : Type 0 where
  run_target action_target : ℕ → QuarantineResolutionTarget

-- `require_exactly_one_target`
abbrev pub require_exactly_one_target : Option ℕ → Option ℕ → Option QuarantineResolutionTarget
require_exactly_one_target (some run) none = some (run_target run)
require_exactly_one_target none (some action) = some (action_target action)
require_exactly_one_target _ _ = none

abbrev pub identifier : QuarantineResolutionTarget → ℕ
identifier (run_target run) = run
identifier (action_target action) = action

-- `target.kind.value`
abbrev pub kind_value : QuarantineResolutionTarget → String
kind_value (run_target run) = "run"
kind_value (action_target action) = "action"

abbrev pub same_target : QuarantineResolutionTarget → QuarantineResolutionTarget → Bool
same_target (run_target a) (run_target b) = a == b
same_target (action_target a) (action_target b) = a == b
same_target _ _ = false

-- `resolution.value`: there is one kind of resolution.
abbrev pub resolution_value : QuarantineResolutionKind → String
resolution_value terminalize_failed_preserving_checkpoint =
    "terminalize_failed_preserving_checkpoint"

abbrev pub same_resolution : QuarantineResolutionKind → QuarantineResolutionKind → Bool
same_resolution terminalize_failed_preserving_checkpoint terminalize_failed_preserving_checkpoint =
    true

pub record QuarantineResolutionCommand : Type 0 where
  pub target : QuarantineResolutionTarget
  pub resolution : QuarantineResolutionKind
  pub dry_run : Bool
  pub expected_plan_id : Option ℕ

-- A dry run names no plan, and an application names one.
unfoldable pub validate_plan_reference : QuarantineResolutionCommand → Bool
validate_plan_reference command =
    if command.dry_run
    then is_null command.expected_plan_id
    else not (is_null command.expected_plan_id)

pub record ExternalActionStatusSummary : Type 0 where
  pub total : ℕ
  pub prepared : ℕ
  pub dispatching : ℕ
  pub succeeded : ℕ
  pub failed : ℕ
  pub outcome_unknown : ℕ
  pub unrecognized : ℕ

unfoldable pub validate_total : ExternalActionStatusSummary → Bool
validate_total s =
    s.total
    == s.prepared + s.dispatching + s.succeeded + s.failed + s.outcome_unknown + s.unrecognized

pub record QuarantineThreadReference : Type 0 where
  pub tenant_id : ℕ
  pub reference_kind : String
  pub reference : ℕ

-- The texts of `ineligibility_reasons`.
pub data IneligibilityReason : Type 0 where
  run_not_quarantined execution_authority_present : IneligibilityReason
  checkpoint_conflict_event_missing checkpoint_conflict_event_mismatch : IneligibilityReason
  checkpoint_revision_not_drifted workflow_execution_missing : IneligibilityReason
  external_action_evidence_missing external_action_nonterminal : IneligibilityReason
  external_action_evidence_inconsistent : IneligibilityReason

-- The fields that have one value, `checkpoint_disposition`, `external_evidence_disposition` and
-- `provider_calls`, are left out.
pub record QuarantineResolutionPlan : Type 0 where
  pub target : QuarantineResolutionTarget
  pub resolution : QuarantineResolutionKind
  pub eligible : Bool
  pub plan_id : Option ℕ
  pub thread : QuarantineThreadReference
  pub current_run_status : RunStatus
  pub current_quarantine_code : Option String
  pub cancel_requested : Bool
  pub checkpoint_base_revision : Option ℕ
  pub observed_checkpoint_revision : ℕ
  pub external_actions : ExternalActionStatusSummary
  pub workflow_reconciliation_required : Bool
  pub planned_run_transition : String
  pub new_audit_events : List String
  pub thread_disposition : String
  pub ineligibility_reasons : List IneligibilityReason

abbrev pub is_empty {ℓ} : {A : Type ℓ} → List A → Bool
is_empty [] = true
is_empty (x ∷ xs) = false

unfoldable pub validate_eligibility_shape : QuarantineResolutionPlan → Bool
validate_eligibility_shape p =
    if p.eligible
    then not (is_null p.plan_id) && is_empty p.ineligibility_reasons
    else is_null p.plan_id

pub record QuarantineResolutionCommit : Type 0 where
  pub plan : QuarantineResolutionPlan
  pub reused : Bool
  pub workflow_evidence_fingerprint : ℕ
  pub checkpoint_evidence_fingerprint : ℕ

pub data ResolutionOutcome : Type 0 where
  dry_run applied reused : ResolutionOutcome

pub record QuarantineResolutionResponse : Type 0 where
  pub outcome : ResolutionOutcome
  pub plan : QuarantineResolutionPlan
  pub reused : Bool
  pub verified : Bool
