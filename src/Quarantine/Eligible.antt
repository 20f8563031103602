-- ===== src/Quarantine/Eligible.antt =====
-- runtime_service/store.py, `_derive_quarantine_plan_with_connection`: when a plan is eligible.
use agent_runtime_platform.Base.{
  ℕ, Bool, true, false, not, ◌&&◌, Option, List, [], ◌∷◌, ◌≡◌, refl, arith, is_null, holds_number,
}
use agent_runtime_platform.Models.{RunRecord, RunEvent}
use agent_runtime_platform.Quarantine.{IneligibilityReason, is_empty}
use agent_runtime_platform.Quarantine.Evidence.{Digests, evidence_is_consistent}
use agent_runtime_platform.Quarantine.Derive.{
  Evidence, is_quarantined, lease_cleared, event_mismatches, reconciliation_required, summary_of,
  reasons_of, add_reasons, conditions_of,
}

-- What a run must be for its quarantine to be resolved.
pub record IsEligible (digests : Digests) (tenant : ℕ) (r : RunRecord) (conflict : Option RunEvent)
    (observed : ℕ) (e : Evidence) : Type 0 where
  pub quarantined : is_quarantined r ≡ true
  pub unleased : lease_cleared r ≡ true
  pub told : is_null conflict ≡ false
  pub matches : event_mismatches conflict r.checkpoint_base_revision observed ≡ false
  pub drifted : holds_number r.checkpoint_base_revision observed ≡ false
  pub executed : is_null e.execution ≡ false
  pub acted : is_empty e.actions ≡ false
  pub settled : reconciliation_required (summary_of e.actions) ≡ false
  pub consistent :
      evidence_is_consistent digests tenant e.execution e.steps e.actions e.events ≡ true

-- No condition holds.
abbrev NoneHold : List (Bool × IneligibilityReason) → Type 0
NoneHold [] = Unit
NoneHold ((condition, reason) ∷ rest) = (condition ≡ false) × NoneHold rest

add_reasons-NoneHold :
    (conditions : List (Bool × IneligibilityReason))
    → add_reasons conditions ≡ []
    → NoneHold conditions
add_reasons-NoneHold [] h = tt
add_reasons-NoneHold ((true, reason) ∷ rest) h = ground arith
add_reasons-NoneHold ((false, reason) ∷ rest) h = (refl, add_reasons-NoneHold rest h)

not-false : {b : Bool} → not b ≡ false → b ≡ true
not-false {b} h = ground arith

second_false : {b c : Bool} → b ≡ false → (not b && not c) ≡ false → c ≡ true
second_false {b} {c} h k = ground arith

pub reasons_of-nil :
    (digests : Digests) (tenant : ℕ) (r : RunRecord) (conflict : Option RunEvent) (observed : ℕ)
    (e : Evidence)
    → reasons_of digests tenant r conflict observed e ≡ []
    → IsEligible digests tenant r conflict observed e
unfolding reasons_of conditions_of
reasons_of-nil digests tenant r conflict observed e h =
    let (
      quarantined,
      (unleased, (told, (matches, (drifted, (executed, (acted, (settled, (consistent, _)))))))),
    ) =
      add_reasons-NoneHold (conditions_of digests tenant r conflict observed e) h in
    record {
      quarantined = not-false quarantined;
      unleased = not-false unleased;
      told = told;
      matches = matches;
      drifted = drifted;
      executed = executed;
      acted = acted;
      settled = settled;
      consistent = second_false acted consistent;
    }

pub IsEligible-nil :
    (digests : Digests) (tenant : ℕ) (r : RunRecord) (conflict : Option RunEvent) (observed : ℕ)
    (e : Evidence)
    → IsEligible digests tenant r conflict observed e
    → reasons_of digests tenant r conflict observed e ≡ []
unfolding reasons_of conditions_of
IsEligible-nil digests tenant r conflict observed e h = ground (
  arith, h.quarantined, h.unleased, h.told, h.matches, h.drifted, h.executed, h.acted, h.settled,
  h.consistent,
)
