-- ===== src/Quarantine/Reads.antt =====
-- runtime_service/store.py: the event of an application is read back as the plan that was applied.
use agent_runtime_platform.Base.{
  ℕ, String, true, some, [], ◌∷◌, ◌≡◌, refl, ◌∙◌, arith, ==_iff, str_eq, eq_iff,
}
use agent_runtime_platform.Models.{RunEvent}
use agent_runtime_platform.RunStore.{Database, Clock, ok, ◌>>=◌}
use agent_runtime_platform.RunStore.Writes.{log_next, next_event}
use agent_runtime_platform.Quarantine.{
  QuarantineResolutionTarget, run_target, action_target, QuarantineResolutionKind,
  terminalize_failed_preserving_checkpoint, kind_value, resolution_value, same_target,
  same_resolution, validate_eligibility_shape,
}
use agent_runtime_platform.Quarantine.Evidence.{get}
use agent_runtime_platform.Quarantine.Derive.{PlanSnapshot}
use agent_runtime_platform.Quarantine.Apply.{
  Application, names_plan, matching_resolution_events, matching_resolution_failed_events,
  audit_payload, failed_payload, validate_plan, read_resolution, resolution_among,
  find_resolution_event, checkpoint_progress_is_valid,
}
use agent_runtime_platform.Quarantine.Events.{matching-other, matching-own}

pub same_target_self : (t : QuarantineResolutionTarget) → same_target t t ≡ true
same_target_self (run_target id) = ground (arith, ==_iff id id)
same_target_self (action_target id) = ground (arith, ==_iff id id)

pub same_resolution_self : (k : QuarantineResolutionKind) → same_resolution k k ≡ true
same_resolution_self terminalize_failed_preserving_checkpoint = refl

-- A plan that was applied.
pub record IsApplied (a : Application) (s : PlanSnapshot) : Type 0 where
  pub shape : validate_eligibility_shape s.plan ≡ true
  pub resolution : s.plan.resolution ≡ a.resolution
  pub target : s.plan.target ≡ a.target
  pub plan_id : s.plan.plan_id ≡ some a.expected_plan_id

same_text : (t : String) → str_eq t t ≡ true
same_text t = (eq_iff t t).1 refl

pub read_resolution-ok :
    (a : Application) (s : PlanSnapshot)
    → IsApplied a s
    → read_resolution a.expected_plan_id (audit_payload a s) ≡ ok s
unfolding read_resolution get validate_plan ◌>>=◌
read_resolution-ok a s h = ground (
  arith,
  h.shape,
  h.resolution,
  h.target,
  h.plan_id,
  same_text (resolution_value a.resolution),
  same_text (kind_value a.target),
  ==_iff a.expected_plan_id a.expected_plan_id,
)

module _ (a : Application) (s : PlanSnapshot) (clock : Clock) (db : Database) where
  -- The tables with both events.
  abbrev pub told : Database
  told =
      log_next a.run_id "run.failed" (failed_payload a) clock.utc_now
        (log_next a.run_id "quarantine.resolution_applied" (audit_payload a s) clock.utc_now db)

  abbrev pub resolution_event : RunEvent
  resolution_event =
      next_event a.run_id "quarantine.resolution_applied" (audit_payload a s) clock.utc_now db

  pub told-resolution :
      matching_resolution_events a.run_id a.expected_plan_id db.run_events ≡ []
      → matching_resolution_events a.run_id a.expected_plan_id told.run_events
        ≡ resolution_event ∷ []
  unfolding matching_resolution_events names_plan get
  told-resolution h =
      matching-other a.run_id "quarantine.resolution_applied" a.expected_plan_id _ _ refl
      ∙ matching-own a.run_id "quarantine.resolution_applied" a.expected_plan_id _ _
          ((==_iff a.run_id a.run_id).1 refl)
          ((==_iff a.expected_plan_id a.expected_plan_id).1 refl) h

  pub told-failed :
      matching_resolution_failed_events a.run_id a.expected_plan_id db.run_events ≡ []
      → (e : RunEvent) × (matching_resolution_failed_events a.run_id a.expected_plan_id
            told.run_events
          ≡ e ∷ [])
  unfolding matching_resolution_failed_events names_plan get
  told-failed h = (
    _,
    matching-own a.run_id "run.failed" a.expected_plan_id _ _ ((==_iff a.run_id a.run_id).1 refl)
        ((==_iff a.expected_plan_id a.expected_plan_id).1 refl)
        (matching-other a.run_id "run.failed" a.expected_plan_id _ _ refl ∙ h),
  )

  pub told-find :
      IsApplied a s
      → matching_resolution_events a.run_id a.expected_plan_id db.run_events ≡ []
      → find_resolution_event a.run_id a.expected_plan_id told.run_events ≡ ok (some s)
  unfolding find_resolution_event resolution_among ◌>>=◌
  told-find h n = ground (arith, told-resolution n, read_resolution-ok a s h)

pub progress_self :
    (revision fingerprint : ℕ)
    → checkpoint_progress_is_valid revision fingerprint revision fingerprint ≡ true
unfolding checkpoint_progress_is_valid
progress_self revision fingerprint = ground arith
