-- ===== src/Lib.antt =====
-- agent-runtime-platform: the durable run store of the agent runtime and the parts beside it.
--
-- The program executes agent runs for many tenants. A run is created by a client, waits in a queue,
-- is claimed by a manager of some process under a lease, and ends in one transaction that writes
-- its result, the checkpoint of its thread and its last events together. Everything that makes this
-- safe is in the store: leases fence attempts that are over, a unique index lets one run of a
-- thread run at a time, and a revision keeps a checkpoint from being overwritten unseen.
--
-- Files and code (paths of the repository):
--   Base           helpers: tests of numbers and of nullable columns, tables with a primary key.
--   Contracts      agent/contracts.py: states, their projection to a checkpoint, authority.
--   Models         runtime_service/models.py: statuses, runs, claims, events, outcomes.
--   RunStore       runtime_service/store.py, `SQLiteRunStore`: the tables `runs`, `run_events` and
--                  `thread_states`, its unique indexes, and the errors of the methods.
--     Events       _append_event_with_connection, list_events.
--     Create       create_run, create_run_with_event, _prepare_client_state_seed.
--     Claim        claim_next_run.
--     Lease        renew_run_lease, expire_run_lease, assert_current_run_lease,
--                  append_attempt_event, append_control_plane_event.
--     Cancel       request_cancel_atomically, finalize_next_queued_cancellation.
--     Outcome      _classify_commit_outcome.
--     Complete     _commit_completed_run, _assert_thread_schema_available.
--     Conflict     _fail_checkpoint_conflict_with_connection, commit_checkpoint_conflict,
--                  quarantine_checkpoint_conflict_for_reconciliation.
--     Settle       commit_failed_run, _commit_cancelled_run, commit_reconciliation_pending.
--     Threads      load_thread_state_snapshot, get_run_internal, get_run_for_tenant.
--     Step         one constructor of `Call` for each method here that writes, and sequences of
--                  calls; apply_quarantine_resolution reads both stores and is a call of Platform.
--     Moves, Invariant, History, Writes, Fencing: proofs. `Moves` is the abstract machine of the
--                  store: new queued runs, changes of one row along the state machine of a run,
--                  next events, revisions that advance by one.
--   Workflow       runtime_service/workflow_store.py, `SQLiteWorkflowStore`: the tables
--                  `workflow_executions`, `tool_calls`, `external_actions`, `workflow_events`, and
--                  the fence `_assert_current_run_lease` on the run store's table `runs`.
--     Executions   create_or_get_execution, mark_running, finalize_ready, finalize_blocked,
--                  finalize_failed.
--     Steps        claim_step, complete_step, fail_step, recover_interrupted_step.
--     Reuse        reuse_completed_step.
--     Actions      prepare_external_action; below it Dispatch (begin_external_action_dispatch,
--                  retry_external_action_dispatch), Ending and Finalize
--                  (_finalize_external_action and its five callers).
--     Calls        one constructor of `WorkflowCall` for each method here that writes; append_event,
--                  which only adds an event, is not among them.
--     Moves, WellFormed, KeepActions, Keep, History, Attempts, Bound, Claims, Evidence, Replay,
--                  Intents, Grants, Stale, Endings: proofs. `Moves` is the abstract machine of the
--                  store.
--   Dag            runtime_service/dag.py, `WorkflowDag`: its checks and its dicts; below it Schedule
--                  (_build_topological_order, the constructor) and Reach (dependencies_for,
--                  _require_known, descendants).
--     Entries, Release, Kahn, Waiting, Drain, Declared, Final, Order, Greedy, Stuck, Cycles, Closure,
--                  Descendants: proofs. `Greedy` has the rule that the order is compared with.
--   Quarantine     runtime_service/quarantine.py: commands, plans and commits with their validators.
--                  runtime_service/store.py is in Evidence (the evidence of external actions), Derive
--                  (_derive_quarantine_plan_with_connection, plan_quarantine_resolution), Apply
--                  (apply_quarantine_resolution) and Verify (verify_quarantine_resolution), and
--                  runtime_service/quarantine_resolution.py is in Service.
--     Derive/Reasons, Apply/Stored: the reads and the conditions of a plan, and the events of a
--                  resolution that was applied.
--     Events, Eligible, Fresh, Needs, Reads, Again, Confirmed: proofs.
--   Platform       the tables of both stores in one file (runtime_service/storage.py); below it
--                  Calls, the interleaved calls on both stores and the resolution of quarantines,
--                  and the proofs Resolves and Keep.
--   Examples       test data; below it the theorems at concrete inputs, and tests.
--
-- Conventions:
--   * Ids, tokens and times are numbers; 0 stands for an empty text where the code tests for one.
--     The clock is an argument: `now_ms` is what the lease clock reads in a call and `utc_now` what
--     `utc_now` reads, and the readings of one call are equal.
--   * A method is one transaction: it takes the tables and returns new tables and its result, or an
--     error that leaves the tables as they were. `BEGIN IMMEDIATE` serialises the transactions that
--     write, so the calls of any number of processes are a sequence of calls, in any order.
--   * A token that `uuid4` makes is an argument of the call that makes it, and may be any number.
--   * JSON columns hold values. The registry's `parse_state` with the decoding before it is the
--     parameter `ParseState` of the methods that return a run, and may refuse a state.
--   * A message or an evidence id that is formatted is kept as its parts.
--   * The canonical form of JSON texts and the character classes of error codes are the parameter
--     `Texts` of the methods on external actions; they may be any functions.
--   * The hashes of canonical JSON, and whether a text is a JSON object, are the parameter `Digests`
--     of the resolution of a quarantine; they may be any functions. A plan that is dumped into an
--     event is kept as its value.
--   * Of table `runs` the workflow store may find none, or one from before the lease columns.
--   * The two loops of the graph that run until a list is empty have fuel, one round for each node;
--     each round takes a node that no other round takes, so that is enough. Every other function is
--     structural.
--
-- Not modelled: `initialize`, the migrations and the pragmas of SQLite, the locks of Python, the
-- coordinator and the providers of external actions, the agent memory, the registry of agents, the
-- PostgreSQL stores, the manager, the dynamic tool loop, the HTTP layer, the domains and the
-- planners. They call the stores that are modelled, repeat them on another database, or call
-- services from outside.
mod Base
pub mod Contracts
pub mod Models
pub mod RunStore
pub mod Workflow
pub mod Dag
pub mod Quarantine
pub mod Platform
pub mod Examples
