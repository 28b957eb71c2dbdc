-- ===== src/Examples/Turns.antt =====
-- Turns of the engine of agent_kernel/kernel/turn_engine.py over the in-memory store.
use agent_kernel.Prelude.{
  if◌then◌else◌, ◌≤◌, ◌+◌, ℕ, ◌≡◌, refl, Option, none, some, Bool, true, false, String, List, [],
  ◌∷◌, All, arith, length,
}
use agent_kernel.Prelude.Errors.{Outcome, ok, raised}
use agent_kernel.Contracts.{Action}
use agent_kernel.Dedupe.{InMemoryDedupeStore, empty_store, HostKind}
use agent_kernel.Turn.State.{TurnInput, Call, TurnResult}
use agent_kernel.Turn.Engine.{run_turn, initial_context}
use agent_kernel.Turn.Results.{anonymous_noop}
use agent_kernel.Turn.Outcome.{executed, run_turn_calls}
use agent_kernel.Turn.Session.{run_turns}
use agent_kernel.Turn.Once.Loop.{Once, run_turns-Once, count_calls}
use agent_kernel.Turn.Once.InMemory.{in_memory, in_memory-IsLedger}
use agent_kernel.Turn.Authority.Loop.{IsAuthorised, run_turns-IsAuthorised}
use agent_kernel.Turn.Engine.Register.{register_phase}
use agent_kernel.Examples.Values.{plain_services, first_input, write_action, bare_action}

abbrev fresh_world : InMemoryDedupeStore × List Call
fresh_world = (empty_store, [])

-- Twice the same turn, a turn that the dispatch policy blocks, and one without an action.
abbrev four_turns : List (TurnInput × Option Action)
four_turns =
    (first_input, some write_action)
    ∷ (first_input, some write_action)
    ∷ (first_input, some bare_action)
    ∷ (first_input, none)
    ∷ []

-- The first turn calls the executor; the second finds the key taken, and the others end before it.
four_turns_run : length (run_turns plain_services in_memory four_turns fresh_world).1 ≡ 1
unfolding run_turns run_turn agent_kernel.Turn.Prepare.phase_noop_or_reasoning
    agent_kernel.Turn.Prepare.phase_snapshot agent_kernel.Turn.Envelope.resolve_snapshot_input
    agent_kernel.Prelude.Json.get_item agent_kernel.Snapshot.build
    agent_kernel.Snapshot.assert_snapshot_compatible agent_kernel.Turn.Prepare.phase_admission
    agent_kernel.Turn.Results.is_admitted agent_kernel.Turn.Prepare.phase_dispatch_policy
    agent_kernel.Policy.Host.resolve_dispatch_policy
    agent_kernel.Policy.Host.resolve_dispatch_host_kind
    agent_kernel.Policy.Host.resolve_explicit_host_kind agent_kernel.Prelude.Text.strip
    agent_kernel.Policy.Remote.evaluate_remote_service_policy
    agent_kernel.Policy.Host.extract_remote_service_contract agent_kernel.Turn.Dispatch.phase_dedupe
    agent_kernel.Turn.Identity.legacy_dispatch_dedupe_key
    agent_kernel.IdempotencyKey.canonicalize_json agent_kernel.IdempotencyKey.content_hash
    agent_kernel.IdempotencyKey.generate agent_kernel.Prelude.Json.get_or
    agent_kernel.Prelude.Text.str_ℤ agent_kernel.Turn.Dispatch.phase_execute
    agent_kernel.Turn.Engine.run_phases agent_kernel.Turn.Envelope.resolve_idempotency_envelope
    agent_kernel.Turn.Envelope.parse_idempotency_envelope
    agent_kernel.Turn.Envelope.build_execution_context
    agent_kernel.Turn.Identity.build_turn_identity agent_kernel.Dedupe.reserve_and_dispatch
    agent_kernel.Dedupe.mark_acknowledged agent_kernel.Dedupe.get agent_kernel.Prelude.Dict.lookup
    agent_kernel.Prelude.Dict.insert
four_turns_run = refl

fresh_world-Once : Once plain_services in_memory in_memory-IsLedger empty_store []
unfolding count_calls
fresh_world-Once k = omega arith

-- The key of the first turn is executed once at most.
run_turns-Once_example :
    let w = run_turns plain_services in_memory four_turns fresh_world in
    count_calls "dispatch:run-1:a1:{}" w.1
    ≤ (if in_memory-IsLedger.has w.0 "dispatch:run-1:a1:{}" then 1 else 0)
run_turns-Once_example =
    run_turns-Once plain_services in_memory in_memory-IsLedger four_turns fresh_world
      fresh_world-Once "dispatch:run-1:a1:{}"

run_turns-IsAuthorised_example :
    All (IsAuthorised plain_services) (run_turns plain_services in_memory four_turns fresh_world).1
run_turns-IsAuthorised_example =
    run_turns-IsAuthorised plain_services in_memory four_turns fresh_world tt

abbrev old_phases : List String
old_phases = "_phase_noop_or_reasoning" ∷ "_phase_snapshot" ∷ "_phase_execute" ∷ []

abbrev new_phases : List String
new_phases = "_phase_noop_or_reasoning" ∷ "_phase_snapshot" ∷ "_phase_audit" ∷ "_phase_execute" ∷ []

registered : register_phase "_phase_audit" (some "_phase_snapshot") none old_phases ≡ ok new_phases
unfolding register_phase
registered = refl

-- The result that a turn returned; the other one where it raised.
abbrev result_or : TurnResult → Outcome TurnResult → TurnResult
result_or other (ok r) = r
result_or other (raised e) = other

abbrev first_turn : Outcome TurnResult × (InMemoryDedupeStore × List Call)
first_turn = run_turn plain_services in_memory first_input (some write_action) fresh_world

abbrev first_result : TurnResult
first_result =
    result_or (anonymous_noop (initial_context plain_services in_memory first_input none))
      first_turn.0

first_turn_returns : first_turn.0 ≡ ok first_result
unfolding run_turn agent_kernel.Turn.Prepare.phase_noop_or_reasoning
    agent_kernel.Turn.Prepare.phase_snapshot agent_kernel.Turn.Envelope.resolve_snapshot_input
    agent_kernel.Prelude.Json.get_item agent_kernel.Snapshot.build
    agent_kernel.Snapshot.assert_snapshot_compatible agent_kernel.Turn.Prepare.phase_admission
    agent_kernel.Turn.Results.is_admitted agent_kernel.Turn.Prepare.phase_dispatch_policy
    agent_kernel.Policy.Host.resolve_dispatch_policy
    agent_kernel.Policy.Host.resolve_dispatch_host_kind
    agent_kernel.Policy.Host.resolve_explicit_host_kind agent_kernel.Prelude.Text.strip
    agent_kernel.Policy.Remote.evaluate_remote_service_policy
    agent_kernel.Policy.Host.extract_remote_service_contract agent_kernel.Turn.Dispatch.phase_dedupe
    agent_kernel.Turn.Identity.legacy_dispatch_dedupe_key
    agent_kernel.IdempotencyKey.canonicalize_json agent_kernel.IdempotencyKey.content_hash
    agent_kernel.IdempotencyKey.generate agent_kernel.Prelude.Json.get_or
    agent_kernel.Prelude.Text.str_ℤ agent_kernel.Turn.Dispatch.phase_execute
    agent_kernel.Turn.Engine.run_phases agent_kernel.Turn.Envelope.resolve_idempotency_envelope
    agent_kernel.Turn.Envelope.parse_idempotency_envelope
    agent_kernel.Turn.Envelope.build_execution_context
    agent_kernel.Turn.Identity.build_turn_identity agent_kernel.Dedupe.reserve_and_dispatch
    agent_kernel.Dedupe.mark_acknowledged agent_kernel.Dedupe.get agent_kernel.Prelude.Dict.lookup
    agent_kernel.Prelude.Dict.insert
first_turn_returns = refl

run_turn_calls_example :
    length first_turn.1.1 ≡ 0 + (if executed first_result.outcome_kind then 1 else 0)
run_turn_calls_example =
    run_turn_calls plain_services in_memory first_input (some write_action) fresh_world
      first_turn_returns
