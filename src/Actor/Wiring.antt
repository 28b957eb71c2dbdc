-- ===== src/Actor/Wiring.antt =====
-- How RunActorWorkflow wires the turn engine to the dedupe store and the executor (`__init__` and
-- _TurnEngineExecutorAdapter of agent_kernel/substrate/temporal/run_actor_workflow.py).
use agent_kernel.Prelude.{ℕ, String, Option, none, some, true, Bool, List}
use agent_kernel.Prelude.Errors.{Outcome, Exec, ok, raised}
use agent_kernel.Prelude.Json.{Value, Fields, end, field, as_dict, truthy}
use agent_kernel.Prelude.Text.{Codec}
use agent_kernel.Contracts.{Action, ExecutionContext, RecoveryInput, RecoveryDecision}
use agent_kernel.Snapshot.{CapabilitySnapshot, build}
use agent_kernel.Runtime.EventLog.{EventLog}
use agent_kernel.Runtime.Projection.{Config}
use agent_kernel.Runtime.Stores.{RecoveryOutcome}
use agent_kernel.Turn.State.{Admission, Call, DedupePort, Services, TurnInput}
use agent_kernel.Turn.Engine.{run_turn}
use agent_kernel.SnapshotResolver.{ActionPayloadCapabilitySnapshotInputResolver, resolve}
use agent_kernel.Actor.State.{ActorServices, RunInput, TurnIntentRecord}

-- The dependencies that end up in the turn engine. The executor's answer may depend on the calls before.
pub record EngineDependencies : Type 0 where
  pub codec : Codec
  pub now : String
  pub lower : String → String
  pub admit : Option (Action → CapabilitySnapshot → Outcome Admission)
  pub execute : List Call → Action → Outcome Value
  pub strict_mode : Bool
  pub reason : Option (TurnInput → CapabilitySnapshot → String → String → Outcome (List Action))

-- The other dependencies, over a state of their own. What the gate reaches is the log and that state.
pub record OtherDependencies (V : Type 0) : Type 0 where
  pub projection : Config
  pub context_value : ExecutionContext → Value
  pub decide : RecoveryInput → Exec (EventLog × V) RecoveryDecision
  pub on_action_success : String → V → V
  pub write_intent : Option (TurnIntentRecord → Exec V (Unit {0}))
  pub write_outcome : Option (RecoveryOutcome → Exec V (Unit {0}))
  pub continue_as_new : Option (RunInput → Exec V (Unit {0}))
  pub history_event_threshold : ℕ

-- A dict is the acknowledgement; of any other value only its truth counts.
abbrev pub acknowledgement : Value → Fields
acknowledgement v = elim (as_dict v) [
  | some m ↦ m
  | none ↦ field "acknowledged" (Value.bool (truthy v)) end
]

-- `_TurnEngineExecutorAdapter.execute`
abbrev pub adapted : Outcome Value → Outcome Fields
adapted (ok v) = ok (acknowledgement v)
adapted (raised x) = raised x

-- `ActionPayloadCapabilitySnapshotInputResolver(...)`
abbrev pub strict_resolver : Bool → ActionPayloadCapabilitySnapshotInputResolver
strict_resolver enabled = record {
  default_tenant_policy_ref = "policy:default";
  default_permission_mode = "strict";
  require_declared_snapshot_input = enabled;
  require_declarative_bundle_digest = enabled;
}

-- `TurnEngine(...)`, with the engine's own defaults.
unfoldable pub engine_services : EngineDependencies → Services
unfolding resolve
engine_services e = record {
  codec = e.codec;
  now = e.now;
  lower = e.lower;
  build = build e.codec e.now;
  admit = e.admit;
  execute = λ calls c. adapted (e.execute calls c.action);
  takes_execution_context = true;
  resolve = some (resolve (strict_resolver e.strict_mode));
  require_declared_snapshot_inputs = e.strict_mode;
  reason = e.reason;
  model_ref = "echo";
  tenant_policy_ref = "policy:default";
  permission_mode = "strict";
}

module _ {W V : Type 0} where
  -- A call on the second part of a state, and on a log beside it.
  abbrev pub on_second : {A : Type 0} → Exec V A → Exec (W × V) A
  on_second m w = let (outcome, v) = m w.1 in (outcome, (w.0, v))

  abbrev pub on_log_and_second : {A : Type 0} → Exec (EventLog × V) A → Exec (EventLog × (W × V)) A
  on_log_and_second m w =
      let (outcome, reached) = m (w.0, w.1.1) in (outcome, (reached.0, (w.1.0, reached.1)))

  abbrev pub on_first : {A : Type 0} → Exec W A → Exec (W × V) A
  on_first m w = let (outcome, first) = m w.0 in (outcome, (first, w.1))

  abbrev pub optional :
      {B : Type 0} → Option (B → Exec V (Unit {0})) → Option (B → Exec (W × V) (Unit {0}))
  optional none = none
  optional (some f) = some (λ b. on_second (f b))

-- The actor's services: the engine over the dedupe store and the calls made, the rest over its own state.
unfoldable pub wired :
    {V : Type 0}
    → EngineDependencies
    → (d : DedupePort) → OtherDependencies V
    → ActorServices ((d.Store × List Call) × V)
unfolding engine_services
wired e d o = record {
  now = e.now;
  lower = e.lower;
  context_value = o.context_value;
  projection = o.projection;
  run_turn = λ i a. on_first (run_turn (engine_services e) d i (some a));
  decide = λ i. on_log_and_second (o.decide i);
  on_action_success = λ effect w. (w.0, o.on_action_success effect w.1);
  mark_unknown_effect = λ key w. (((d.mark_unknown_effect key w.0.0).1, w.0.1), w.1);
  write_intent = optional o.write_intent;
  write_outcome = optional o.write_outcome;
  continue_as_new = optional o.continue_as_new;
  history_event_threshold = o.history_event_threshold;
}
