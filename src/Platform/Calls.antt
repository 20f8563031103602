-- ===== src/Platform/Calls.antt =====
-- The calls of managers, workers and operators on one file: those of the run store, those of the
-- workflow store, which read the run store's table `runs`, and the resolution of a quarantine.
use agent_runtime_platform.Base.{ℕ, Option, List, [], ◌∷◌}
use agent_runtime_platform.RunStore.{Clock, Result, ok, err, empty}
use agent_runtime_platform.RunStore.Step.{Call, step}
use agent_runtime_platform.Workflow.{migrated}
use agent_runtime_platform.Workflow.Calls.{WorkflowCall, Context, workflow_step}
use agent_runtime_platform.Workflow.WellFormed.{no_ledger}
use agent_runtime_platform.Platform.{Platform}
use agent_runtime_platform.Quarantine.{QuarantineResolutionCommit}
use agent_runtime_platform.Quarantine.Evidence.{Digests}
use agent_runtime_platform.Quarantine.Apply.{Application, apply_quarantine_resolution}

pub data PlatformCall : Type 0 where
  run_call : Call → PlatformCall
  workflow_call : Option ℕ → WorkflowCall → PlatformCall
  resolves : Digests → Application → PlatformCall

abbrev pub empty_platform : Platform
empty_platform = record { database = empty; ledger = no_ledger }

-- An uncommitted transaction leaves the tables as they were.
abbrev pub after_commit : Platform → Result (Platform × QuarantineResolutionCommit) → Platform
after_commit p (ok r) = r.0
after_commit p (err e) = p

-- What a call of the workflow store finds in the file.
abbrev pub context_of : Platform → Clock → Option ℕ → Context
context_of p clock lease = record {
  clock = clock;
  runs = migrated p.database.runs;
  lease_token = lease;
}

unfoldable pub platform_step : Platform → Clock × PlatformCall → Platform
platform_step p (clock, run_call call) = record p { database = step p.database (clock, call) }
platform_step p (clock, workflow_call lease call) = record p {
  ledger = workflow_step p.ledger (context_of p clock lease, call);
}
platform_step p (clock, resolves digests a) =
    after_commit p (apply_quarantine_resolution digests clock a p)

unfoldable pub platform_calls : Platform → List (Clock × PlatformCall) → Platform
platform_calls p [] = p
platform_calls p (c ∷ cs) = platform_calls (platform_step p c) cs
