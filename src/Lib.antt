-- ===== src/Lib.antt =====
-- A model of the core of agent_kernel, the kernel that runs an agent's actions, and what is proved
-- of it.
--
-- A turn (agent_kernel/kernel/turn_engine.py) takes one action through six phases: it finds the
-- action, freezes a capability snapshot, asks the admission service, evaluates the dispatch policy,
-- reserves the dispatch key in the dedupe store, and calls the executor. A turn ends at the first
-- phase that leaves a result or raises. The ledger of keys outlives the turns; it is what keeps an
-- action from being executed twice. After a failure the recovery gate decides what comes next: it
-- asks the circuit breaker, the planner and the registry of compensations, and may let the model
-- correct the action. The event log keeps what was committed, a run's projection is replayed from
-- it, and the task registry keeps the attempts of a task across runs. The actor of a run records the
-- signals that it is sent, takes one turn for each commit with an action, and records what became of it.
--
-- Files, and the code that they model (paths below agent_kernel/kernel):
--   Contracts            contracts.py, the records and enumerations that the other parts read; fields that
--                        no modelled function reads are left out
--   Dedupe               dedupe_store.py, InMemoryDedupeStore: one function for each method, of the same
--                        name; a method returns its outcome and the store after it. Dedupe/Transitions: the
--                        life of a key. Dedupe/Reservation: who is granted a key
--   IdempotencyKey       idempotency_key_policy.py, the dispatch key
--   Snapshot             capability_snapshot.py, the snapshot builder
--   Policy               remote_service_policy.py (Policy/Remote), failure_evidence.py (Policy/Evidence),
--                        and _resolve_dispatch_policy with its helpers in turn_engine.py (Policy/Host)
--   Turn                 turn_engine.py. Turn/State: the data and the services. Turn/Identity,
--                        Turn/Envelope, Turn/Results: the helpers below the class. Turn/Prepare: phases one
--                        to four. Turn/Dispatch: phases five and six. Turn/Engine: run_turn;
--                        Turn/Engine/Register: register_phase. Turn/Session: turns one after another.
--                        Turn/Once, Turn/Authority and Turn/Outcome: the proofs about the executor's calls
--   Recovery             recovery: planner.py (Planner), gate.py (Gate, with decide in Gate/Decide),
--                        mode_registry.py (Modes), reflection_builder.py (Reflection),
--                        compensation_registry.py (Compensation), and the circuit breaker of gate.py with
--                        circuit_breaker_probe.py (Circuit). Recovery/Gate/Justified, Recovery/Gate/Cooldown
--                        and the children of Recovery/Compensation: the proofs
--   Retry                retry_executor.py, over any inner executor. Retry/Attempts: the proofs
--   Runtime              minimal_runtime.py: the event log (EventLog), what one event does to a projection
--                        (Transition), and the projection service (Projection). Runtime/Replay and
--                        Runtime/Current: a replay that stops and resumes. Runtime/Histories: appends and
--                        reads in any order. Runtime/Refinement and Runtime/Lifecycle: the theorems.
--                        Runtime/Admission: the static admission, and its agreement with the dispatch policy.
--                        Runtime/Activity: the executors. Runtime/Stores: the static recovery gate, the
--                        deduper of decisions and the store of recovery outcomes
--   SnapshotAdmission    admission/snapshot_driven_admission.py and admission/tenant_policy.py.
--                        SnapshotAdmission/Rate: the limit over a history of calls. SnapshotAdmission/Permits:
--                        what the rules read of an Action. SnapshotAdmission/Quota: when an Action is admitted
--   SnapshotResolver     capability_snapshot_resolver.py. SnapshotResolver/Strict: its strict mode, and what
--                        the snapshot builder makes of its inputs
--   Migration            persistence/event_schema_migration.py. Migration/Walk, Migration/Search and
--                        Migration/Paths: the search for a path is right, and its fuel enough.
--                        Migration/Offsets: what the projection service asks of the migrations
--   Outbox               persistence/consistency.py and persistence/dispatch_outbox_reconciler.py, over the
--                        in-memory store. Outbox/Repairs and Outbox/Reconciled: the store after a
--                        reconciliation
--   Actor                agent_kernel/substrate/temporal/run_actor_workflow.py, the actor of a run.
--                        Actor/State: its services and its state. Actor/Events and Actor/Payloads: what
--                        its events say. Actor/Appends: the commits of a turn and of a recovery, and the question to
--                        the gate. Actor/Turns: process_action_commit. Actor/Signals: signal,
--                        _handle_signal, run and query. Actor/Wiring: the actor over the modelled
--                        engine, resolver and dedupe store. Actor/Steps, Actor/Kept, Actor/Rounds,
--                        Actor/Once, Actor/Failures and Actor/Executions: the proofs
--   Tasks                task_manager/registry.py, task_manager/watchdog.py and task_manager/event_log.py
--                        (EventLog; its children: what a replay restores)
--   Prelude              shared names; Python's exceptions, dict, str and payload values
--   Examples             runs at concrete values
--
-- Correspondence. A function that changes an object takes the object's state and returns an
-- Outcome and the new state, also where it raises (Exec in Prelude/Errors). A phase acts on the
-- context, the store and the list of executor calls (Turn in Turn/State). Code outside the
-- modelled files is a parameter: the snapshot builder, admission service, executor, activity
-- gateway, resolver and reasoning loop (Services), the dedupe store (DedupePort), json.dumps,
-- sha256, repr and str of objects (Codec), str.lower, the clock, the random jitter, the
-- functions of schema migrations, the file of a tenant policy, the turn engine and the stores
-- of the run actor (ActorServices, which Actor/Wiring fills with the modelled engine), the
-- handlers of compensations, and the store of the circuit breaker (CircuitBreakerStore). What
-- the proofs ask of a dedupe store is the record IsLedger, which the in-memory store is proved
-- to fill; the executor may answer anything, also depending on the calls before, and may raise.
-- The gate's own counters are proved to fill the contract of a circuit breaker store
-- (IsCircuitBreakerStore).
--
-- Bounds. Numbers are natural numbers without a width, and offsets are integers, as in Python; times are
-- in milliseconds. The fuel of str on a number n is n + 1, and n has no more digits than that. The
-- search for a path of schema migrations has as much fuel as there are migrations and one more, since it
-- visits every version once, and the walk back as much as there are visited versions; both are proved to
-- be enough. All other loops run over lists, or over the attempts that are left of a compensation or of
-- an execution.
--
-- Not modelled: the phase timeout, the observability hooks and logging, whose exceptions the code
-- suppresses; threads (the registry's lock makes its methods atomic); a set inside a payload; a
-- declared snapshot payload whose bindings are not lists of texts. The other parts of the
-- repository (the workflow host, stores on SQLite and PostgreSQL, adapters, service) are not modelled here.
mod Prelude
pub mod Actor
pub mod Contracts
pub mod Dedupe
pub mod IdempotencyKey
pub mod Migration
pub mod Outbox
pub mod Policy
pub mod Recovery
pub mod Retry
pub mod Runtime
pub mod Snapshot
pub mod SnapshotAdmission
pub mod SnapshotResolver
pub mod Turn
pub mod Tasks
mod Examples
