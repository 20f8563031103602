-- ===== src/Quarantine/Apply/Stored.antt =====
-- runtime_service/store.py: the events of a resolution that was applied, and what they say.
use agent_runtime_platform.Base.{
  ℕ, String, Bool, true, false, ◌&&◌, Option, none, some, List, [], ◌∷◌, ◌==◌, ltb, holds_number,
  if◌then◌else◌, str_eq, select,
}
use agent_runtime_platform.Contracts.{Json, num, plan, Fields}
use agent_runtime_platform.Models.{RunEvent}
use agent_runtime_platform.RunStore.{
  Result, ok, err, ◌>>=◌, ◌>>◌, guard, or_error, evidence_incomplete,
}
use agent_runtime_platform.Quarantine.{
  kind_value, resolution_value, QuarantineResolutionPlan, validate_eligibility_shape,
}
use agent_runtime_platform.Quarantine.Evidence.{get, is_id, is_text}
use agent_runtime_platform.Quarantine.Derive.{events_of, PlanSnapshot}

unfoldable pub names_plan : String → ℕ → RunEvent → Bool
unfolding get
names_plan event_type plan_id e =
    str_eq e.event_type event_type && is_id (get "plan_id" e.payload) plan_id

-- `_matching_resolution_events`
unfoldable pub matching_resolution_events : ℕ → ℕ → List RunEvent → List RunEvent
unfolding events_of names_plan
matching_resolution_events run_id plan_id events =
    select (names_plan "quarantine.resolution_applied" plan_id) (events_of run_id events)

-- `_matching_resolution_failed_events`
unfoldable pub matching_resolution_failed_events : ℕ → ℕ → List RunEvent → List RunEvent
unfolding events_of names_plan
matching_resolution_failed_events run_id plan_id events =
    select (names_plan "run.failed" plan_id) (events_of run_id events)

-- `QuarantineResolutionPlan.model_validate` of a dumped plan
unfoldable pub validate_plan : Json → Option QuarantineResolutionPlan
unfolding validate_eligibility_shape
validate_plan (plan p) = if validate_eligibility_shape p then some p else none
validate_plan _ = none

abbrev pub fingerprint_of : Json → Option ℕ
fingerprint_of (num n) = some n
fingerprint_of _ = none

-- What a resolution event says.
unfoldable pub read_resolution : ℕ → Fields → Result PlanSnapshot
unfolding get validate_plan
read_resolution plan_id payload = do
  stored ← or_error (validate_plan (get "plan" payload)) evidence_incomplete
  workflow ←
      or_error (fingerprint_of (get "workflow_evidence_fingerprint" payload)) evidence_incomplete
  checkpoint ←
      or_error (fingerprint_of (get "checkpoint_evidence_fingerprint" payload)) evidence_incomplete
  guard
      (is_text (get "resolution" payload) (resolution_value stored.resolution)
        && is_text (get "target_kind" payload) (kind_value stored.target)
        && holds_number stored.plan_id plan_id)
      evidence_incomplete
  ok (record {
    plan = stored;
    workflow_evidence_fingerprint = workflow;
    checkpoint_evidence_fingerprint = checkpoint;
  })

unfoldable pub resolution_among : ℕ → List RunEvent → Result (Option PlanSnapshot)
unfolding read_resolution
resolution_among plan_id [] = ok none
resolution_among plan_id (e ∷ []) = do stored ← read_resolution plan_id e.payload; ok (some stored)
resolution_among plan_id (e ∷ d ∷ es) = err evidence_incomplete

-- `_find_resolution_event_with_connection`
unfoldable pub find_resolution_event : ℕ → ℕ → List RunEvent → Result (Option PlanSnapshot)
unfolding matching_resolution_events resolution_among
find_resolution_event run_id plan_id events =
    resolution_among plan_id (matching_resolution_events run_id plan_id events)

-- `_checkpoint_progress_is_valid`
unfoldable pub checkpoint_progress_is_valid : ℕ → ℕ → ℕ → ℕ → Bool
checkpoint_progress_is_valid baseline_revision baseline_fingerprint observed_revision
      observed_fingerprint =
    if ltb observed_revision baseline_revision
    then false
    else if observed_revision == baseline_revision
    then observed_fingerprint == baseline_fingerprint
    else true
