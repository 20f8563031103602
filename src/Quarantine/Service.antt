-- ===== src/Quarantine/Service.antt =====
-- runtime_service/quarantine_resolution.py: `QuarantineResolutionService`, and `is_action_run` of
-- runtime_service/action_gateway.py. An application is committed before it is verified, so the
-- tables are those after it also where the verification raises.
use agent_runtime_platform.Base.{
  ℕ, String, Bool, true, false, ◌&&◌, Option, none, some, if◌then◌else◌, str_eq,
}
use agent_runtime_platform.Models.{RunRecord}
use agent_runtime_platform.RunStore.{
  Clock, Result, ok, err, Error, ◌>>=◌, ◌>>◌, run_not_found, target_not_found, value_error,
  ParseState,
}
use agent_runtime_platform.RunStore.Threads.{get_run_for_tenant}
use agent_runtime_platform.Platform.{Platform}
use agent_runtime_platform.Quarantine.{
  QuarantineResolutionTarget, run_target, action_target, identifier, QuarantineResolutionCommand,
  QuarantineResolutionCommit, QuarantineResolutionResponse, dry_run, applied, reused,
  QuarantineResolutionPlan,
}
use agent_runtime_platform.Quarantine.Evidence.{Digests}
use agent_runtime_platform.Quarantine.Derive.{plan_quarantine_resolution}
use agent_runtime_platform.Quarantine.Apply.{Application, apply_quarantine_resolution}
use agent_runtime_platform.Quarantine.Verify.{verify_quarantine_resolution}

-- `Principal`, as far as the service reads it.
pub record Principal : Type 0 where
  pub subject_id : ℕ
  pub tenant_id : ℕ
  pub credential_id : ℕ

-- What the service stands on: the decoding of a run, the digests, and `public_runs_api` of the
-- registration of an agent's version, if there is one.
pub record Services : Type 0 where
  pub parse : ParseState
  pub digests : Digests
  pub public_runs_api : String → String → Option Bool

unfoldable pub is_action_run : RunRecord → Bool
is_action_run r =
    str_eq r.agent_id "durable-action-gateway"
    && str_eq r.agent_version "1.0.0"
    && str_eq r.domain_id "durable-action"
    && str_eq r.schema_version "1"

abbrev pub is_public : Option Bool → Bool
is_public none = false
is_public (some b) = b

unfoldable pub run_is_visible : Services → QuarantineResolutionTarget → Option RunRecord → Bool
unfolding is_action_run
run_is_visible services target none = false
run_is_visible services (action_target id) (some r) = is_action_run r
run_is_visible services (run_target id) (some r) =
    is_public (services.public_runs_api r.agent_id r.agent_version)

unfoldable pub target_is_visible :
    Services → QuarantineResolutionCommand → ℕ → Platform → Result Bool
unfolding run_is_visible
target_is_visible services command tenant p = do
  run ← get_run_for_tenant services.parse (identifier command.target) tenant p.database
  ok (run_is_visible services command.target run)

-- except KeyError
abbrev pub hide_missing_run : Error → Error
hide_missing_run run_not_found = target_not_found
hide_missing_run e = e

unfoldable pub answer_plan : Result QuarantineResolutionPlan → Result QuarantineResolutionResponse
answer_plan (err e) = err (hide_missing_run e)
answer_plan (ok plan) =
    ok (record { outcome = dry_run; plan = plan; reused = false; verified = false })

unfoldable pub answer_commit :
    QuarantineResolutionCommit → Result (Unit {0}) → Result QuarantineResolutionResponse
answer_commit commit checked = do
  checked
  ok (record {
    outcome = if commit.reused then reused else applied;
    plan = commit.plan;
    reused = commit.reused;
    verified = true;
  })

-- After the transaction of an application.
unfoldable pub verify_application :
    Services
    → Platform
    → Result (Platform × QuarantineResolutionCommit)
    → Platform × Result QuarantineResolutionResponse
unfolding answer_commit
verify_application services p (err e) = (p, err (hide_missing_run e))
verify_application services p (ok r) =
    (r.0, answer_commit r.1 (verify_quarantine_resolution services.digests r.1 r.0))

abbrev pub application_of : QuarantineResolutionCommand → Principal → ℕ → Application
application_of command principal plan_id = record {
  run_id = identifier command.target;
  tenant_id = principal.tenant_id;
  target = command.target;
  resolution = command.resolution;
  expected_plan_id = plan_id;
  operator_subject_id = principal.subject_id;
  operator_credential_id = principal.credential_id;
}

-- A command that is not a dry run names a plan; without one the assertion fails.
unfoldable pub apply_command :
    Services
    → Clock
    → QuarantineResolutionCommand
    → Principal
    → Option ℕ
    → Platform
    → Platform × Result QuarantineResolutionResponse
unfolding verify_application
apply_command services clock command principal none p = (p, err value_error)
apply_command services clock command principal (some plan_id) p = verify_application services p (
    apply_quarantine_resolution services.digests clock (application_of command principal plan_id) p)

unfoldable pub execute_visible :
    Services
    → Clock
    → QuarantineResolutionCommand
    → Principal
    → Platform
    → Result Bool
    → Platform × Result QuarantineResolutionResponse
unfolding apply_command answer_plan
execute_visible services clock command principal p (err e) = (p, err e)
execute_visible services clock command principal p (ok false) = (p, err target_not_found)
execute_visible services clock command principal p (ok true) =
    if command.dry_run
    then (
      p,
      answer_plan (
          plan_quarantine_resolution services.digests (identifier command.target)
            principal.tenant_id command.target command.resolution p),
    )
    else apply_command services clock command principal command.expected_plan_id p

-- `execute`
unfoldable pub execute :
    Services
    → Clock
    → QuarantineResolutionCommand
    → Principal
    → Platform
    → Platform × Result QuarantineResolutionResponse
unfolding execute_visible target_is_visible
execute services clock command principal p =
    execute_visible services clock command principal p
      (target_is_visible services command principal.tenant_id p)
