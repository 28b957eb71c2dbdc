-- ===== src/Examples/Actors.antt =====
-- A run actor over the turn engine, the in-memory stores and the static recovery gate: callbacks that come twice, a
-- commit that is processed twice, and a turn that fails.
use agent_kernel.Prelude.{
  ◌≡◌, refl, subst, ℕ, Option, none, some, Bool, true, false, String, List, [], ◌∷◌, ◌⊎◌, length,
}
use mathlib.Core.Option.{some-injective}
use agent_kernel.Prelude.Errors.{Exec, ok, raised, runtime_error}
use agent_kernel.Prelude.Json.{Value}
use agent_kernel.Contracts.{ActionCommit, RecoveryDecision}
use agent_kernel.Dedupe.{InMemoryDedupeStore, empty_store, mark_unknown_effect}
use agent_kernel.Runtime.EventLog.{EventLog, empty_log, events_of, append_action_commit}
use agent_kernel.Runtime.Projection.{Config}
use agent_kernel.Runtime.Stores.{default_policy, decide_statically, RecoveryOutcome}
use agent_kernel.Runtime.Transition.{default_projection}
use agent_kernel.Turn.State.{Call, Admission}
use agent_kernel.Turn.Engine.{run_turn}
use agent_kernel.Turn.Results.{exn_name}
use agent_kernel.Turn.Once.InMemory.{in_memory, in_memory-IsLedger}
use agent_kernel.Actor.State.{ActorSignal, ActorServices, Actor}
use agent_kernel.Actor.Appends.{fact_event, recovery_commit, recovery_input}
use agent_kernel.Actor.Turns.{process_action_commit, take_turn, decision_round}
use agent_kernel.Actor.Signals.{signal, ActorCall, signalled, committed, run_calls}
use agent_kernel.Actor.Steps.{Quiet}
use agent_kernel.Actor.Once.{signal_once, process_once}
use agent_kernel.Actor.Failures.{Decides, Writes, decision_round_recovers}
use agent_kernel.Examples.Values.{plain_codec, write_action}
use agent_kernel.Actor.Wiring.{EngineDependencies, OtherDependencies, wired}
use agent_kernel.Actor.Executions.{ExecutedOnce, run_calls-ExecutedOnce}
use agent_kernel.Turn.Once.Loop.{count_calls}
use agent_kernel.Prelude.{arith, ◌≤◌}

-- The store of keys and the executor's calls, and the recovery outcomes written.
abbrev ActorWorld : Type 0
ActorWorld = (InMemoryDedupeStore × List Call) × List RecoveryOutcome

abbrev plain_dependencies : EngineDependencies
plain_dependencies = record {
  codec = plain_codec;
  now = "2026-01-01T00:00:00Z";
  lower = λ s. s;
  admit = some (λ a s. ok (Admission.bare true));
  execute = λ calls a. ok (Value.bool true);
  strict_mode = false;
  reason = none;
}

abbrev accepted : RecoveryOutcome → Exec (List RecoveryOutcome) (Unit {0})
accepted o w = (ok tt, o ∷ w)

-- The static gate, which aborts a run after a failure.
abbrev plain_others : OtherDependencies (List RecoveryOutcome)
plain_others = record {
  projection = record {
    lower = λ s. s;
    migrate = λ e. ok e;
    reject_derived_diagnostic_authority_input = true;
  };
  context_value = λ c. Value.other true 0;
  decide = λ i w. (ok (decide_statically (default_policy none) i), w);
  on_action_success = λ effect w. w;
  write_intent = none;
  write_outcome = some accepted;
  continue_as_new = none;
  history_event_threshold = 10000;
}

-- The actor over the engine and the in-memory store, and the same with an engine that always fails.
unfoldable actor_services : ActorServices ActorWorld
unfolding wired
actor_services = wired plain_dependencies in_memory plain_others

unfoldable failing_services : ActorServices ActorWorld
unfolding actor_services
failing_services = record actor_services { run_turn = λ i a w. (raised runtime_error, w) }

abbrev started : Actor ActorWorld
started = record {
  log = empty_log;
  cache = [];
  fingerprints = [];
  world = ((empty_store, []), []);
  run_id = some "run-1";
  session_id = none;
  parent_run_id = none;
  policy_versions = none;
  active_stage_id = none;
  last_projection = none;
  pending_signals = [];
  signal_sequence = 0;
  seen_signal_tokens = [];
  history_event_count = 0;
}

abbrev callback : ActorSignal
callback = record {
  signal_type = "external_callback";
  signal_payload = none;
  caused_by = some "cb-1";
  signal_token = none;
  from_peer_run_id = none;
}

abbrev write_commit : ActionCommit
write_commit = record {
  run_id = "run-1";
  commit_id = "commit-1";
  events = fact_event "run-1" "evt-1" 0 "run.started" none none "2026-01-01T00:00:00Z" ∷ [];
  created_at = "2026-01-01T00:00:00Z";
  action = some write_action;
  caused_by = none;
}

abbrev between : List ActorCall
between = committed write_commit ∷ signalled (record callback { caused_by = some "cb-2" }) ∷ []

signal_once_example :
    let t = (signal actor_services callback started).1 in
    let u = run_calls actor_services between t in
    Quiet started t ⊎ (signal actor_services callback u ≡ (ok tt, u))
unfolding agent_kernel.Actor.Signals.signal_token
signal_once_example =
    signal_once actor_services callback callback "external_callback:cb-1" between started refl refl

process_once_example :
    let t = (process_action_commit actor_services write_commit started).1 in
    let u = run_calls actor_services (signalled callback ∷ []) t in
    Quiet started t ⊎ Quiet u (process_action_commit actor_services write_commit u).1
process_once_example = process_once actor_services write_commit (signalled callback ∷ []) started

gate_decides : Decides failing_services
unfolding failing_services
gate_decides i l w = (decide_statically (default_policy none) i, w, refl)

every_write : Writes failing_services
unfolding failing_services
every_write write o w e =
    subst (λ f. (f o w).0 ≡ ok tt)
      (some-injective (λ o w. ((accepted o w.1).0, (w.0, (accepted o w.1).1))) write e) refl

turn_fails :
    (take_turn failing_services "run-1" write_action (default_projection "run-1") 0 started).0
    ≡ raised runtime_error
unfolding take_turn failing_services
turn_fails = refl

decision_round_recovers_example :
    let p = default_projection "run-1" in
    let t = (take_turn failing_services "run-1" write_action p 0 started).1 in
    let result = decision_round failing_services write_commit p 0 started in
    (result.0 ≡ raised runtime_error)
    × ((d : RecoveryDecision) × ((failing_services.decide
            (recovery_input write_action
              (failing_services.lower (exn_name runtime_error))
              p
              "run-1")
            (t.log, t.world)).0
          ≡ ok d)
        × (result.1.log
            ≡ (append_action_commit
                (recovery_commit "run-1" 1 d (some "a1") "2026-01-01T00:00:00Z")
                t.log).1))
unfolding failing_services
decision_round_recovers_example =
    decision_round_recovers failing_services write_commit write_action (default_projection "run-1")
      0 runtime_error started gate_decides every_write refl turn_fails

-- The callback is recorded once.
one_event :
    length (
      events_of "run-1"
        (run_calls actor_services (signalled callback ∷ signalled callback ∷ []) started).log)
    ≡ 1
unfolding run_calls signal agent_kernel.Actor.Signals.signal_token
    agent_kernel.Runtime.Projection.get agent_kernel.Prelude.Dict.lookup
    agent_kernel.Runtime.Projection.replay agent_kernel.Runtime.EventLog.load append_action_commit
    process_action_commit agent_kernel.Prelude.Dict.insert default_projection
    agent_kernel.Runtime.Projection.validate_projection_authority_input
    agent_kernel.Runtime.Transition.apply_projection_event actor_services
one_event = refl

fresh_actor : ExecutedOnce plain_dependencies in_memory in_memory-IsLedger plain_others started
unfolding count_calls
fresh_actor k = omega arith

run_calls-ExecutedOnce_example :
    ExecutedOnce plain_dependencies in_memory in_memory-IsLedger plain_others (
      run_calls
        (wired plain_dependencies in_memory plain_others)
        (committed write_commit ∷ between)
        started)
run_calls-ExecutedOnce_example =
    run_calls-ExecutedOnce plain_dependencies in_memory in_memory-IsLedger plain_others
      (committed write_commit ∷ between) started fresh_actor

-- The commit is processed twice, and the executor is called once.
one_call :
    length
      (run_calls actor_services
        (committed write_commit ∷ committed write_commit ∷ [])
        started).world.0.1
    ≡ 1
unfolding run_calls run_turn process_action_commit default_projection actor_services
    agent_kernel.Runtime.Projection.replay agent_kernel.Runtime.EventLog.load append_action_commit
    agent_kernel.SnapshotResolver.resolve agent_kernel.Actor.Appends.append_turn_outcome_commit
    agent_kernel.Runtime.Projection.catch_up agent_kernel.Runtime.Projection.readiness
    agent_kernel.Turn.Prepare.phase_noop_or_reasoning agent_kernel.Turn.Prepare.phase_snapshot
    agent_kernel.Turn.Envelope.resolve_snapshot_input agent_kernel.Prelude.Json.get_item
    agent_kernel.Snapshot.build agent_kernel.Snapshot.assert_snapshot_compatible
    agent_kernel.Turn.Prepare.phase_admission agent_kernel.Turn.Results.is_admitted
    agent_kernel.Turn.Prepare.phase_dispatch_policy agent_kernel.Policy.Host.resolve_dispatch_policy
    agent_kernel.Policy.Host.resolve_dispatch_host_kind
    agent_kernel.Policy.Host.resolve_explicit_host_kind agent_kernel.Prelude.Text.strip
    agent_kernel.Policy.Remote.evaluate_remote_service_policy
    agent_kernel.Policy.Host.extract_remote_service_contract agent_kernel.Turn.Dispatch.phase_dedupe
    agent_kernel.Turn.Identity.legacy_dispatch_dedupe_key
    agent_kernel.IdempotencyKey.canonicalize_json agent_kernel.IdempotencyKey.content_hash
    agent_kernel.IdempotencyKey.generate agent_kernel.Prelude.Json.get_or
    agent_kernel.Prelude.Text.str_ℤ agent_kernel.Turn.Dispatch.phase_execute
    agent_kernel.Turn.Engine.run_phases agent_kernel.Turn.Envelope.resolve_idempotency_envelope
    agent_kernel.Turn.Envelope.parse_idempotency_envelope
    agent_kernel.Turn.Envelope.build_execution_context
    agent_kernel.Turn.Identity.build_turn_identity agent_kernel.Dedupe.reserve_and_dispatch
    agent_kernel.Dedupe.mark_acknowledged agent_kernel.Dedupe.get agent_kernel.Prelude.Dict.lookup
    agent_kernel.Prelude.Dict.insert
    agent_kernel.Runtime.Projection.validate_projection_authority_input
    agent_kernel.Runtime.Transition.apply_projection_event
one_call = refl
