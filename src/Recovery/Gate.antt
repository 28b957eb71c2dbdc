-- ===== src/Recovery/Gate.antt =====
-- agent_kernel/kernel/recovery/gate.py, PlannedRecoveryGateService: the decision after a failure. The
-- observability hook, whose exceptions the code suppresses, and logging are left out.
pub mod Decide
pub mod Justified
pub mod Cooldown
use Prim.Native.Char.{Char, code}
use agent_kernel.Prelude.{
  ℕ, zero, suc, ◌+◌, ◌-◌, ◌*◌, ◌^◌, min, String, List, [], ◌∷◌, Bool, true, false, Option, none,
  some, if◌then◌else◌, ltb, leb, ◌&&◌,
}
use agent_kernel.Prelude.Errors.{Outcome, Exec, ok, raised, value_error}
use agent_kernel.Prelude.Dict.{Dict, lookup, insert}
use agent_kernel.Prelude.Text.{concat, str, Codec, ℤ}
use agent_kernel.Prelude.Json.{Value}
use agent_kernel.Contracts.{
  Action, RecoveryMode, RecoveryDecision, RecoveryInput, CircuitBreakerPolicy, ReflectionPolicy,
  InferenceConfig, ContextWindow, is_reflectable,
}
use agent_kernel.Snapshot.{CapabilitySnapshot, CapabilitySnapshotInput}
use agent_kernel.Snapshot
use agent_kernel.Recovery.Planner.{RecoveryPlan, PlannerHeuristicPolicy, build_plan_from_input}
use agent_kernel.Recovery.Modes.{RecoveryModeRegistry, action_text}
use agent_kernel.Recovery.Compensation.{CompensationRegistry, Site, has_handler, execute}
use agent_kernel.Recovery.Circuit.{CircuitBreakerStore, is_circuit_open, record_circuit_failure}
use agent_kernel.Recovery.Reflection.{build_evidence_from_input, base_context}
use agent_kernel.Recovery.Reflection

-- One call of the reasoning loop.
pub record ReflectionCall : Type 0 where
  pub run_id : String
  pub snapshot : CapabilitySnapshot
  pub inference_config : InferenceConfig
  pub prebuilt_context : ContextWindow
  pub idempotency_key : String

-- `InferenceConfig(model_ref="gpt-4o-mini")`
abbrev pub fallback_inference_config : InferenceConfig
fallback_inference_config = record {
  model_ref = "gpt-4o-mini";
  token_budget = record { max_input = 32768; max_output = 4096; reasoning_budget = none };
  temperature = Value.float false 0;
  stop_sequences = [];
  turn_kind_overrides = [];
}

-- What the gate is given. `reasoning_loop` answers by the call and those before, the latest first, with
-- the actions of the result; `failing_action` is what `getattr(recovery_input, "failing_action", None)`
-- finds, which on a RecoveryInput itself is nothing.
pub record Gate (C : Type 0) : Type 0 where
  pub lower : String → String
  pub policy : PlannerHeuristicPolicy
  pub modes : RecoveryModeRegistry
  pub compensation_registry : Option CompensationRegistry
  pub has_dedupe_store : Bool
  pub randint : List ℕ → ℕ
  pub failing_action : RecoveryInput → Option Action
  pub reflection_policy : Option ReflectionPolicy
  pub reasoning_loop : Option (ReflectionCall → List ReflectionCall → Outcome (List Action))
  pub has_reflection_builder : Bool
  pub default_inference_config : Option InferenceConfig
  pub circuit_breaker_policy : Option CircuitBreakerPolicy
  pub circuit_breaker_store : CircuitBreakerStore C
  pub codec : Codec

-- What the gate keeps: the failures of each run and of each effect class, the handlers' calls with their
-- ledger, and the reflections.
pub record GateState (C : Type 0) : Type 0 where
  pub failure_counts : Dict ℕ
  pub circuits : C
  pub site : Site
  pub reflections : List ReflectionCall

abbrev pub failure_count_of : {C : Type 0} → String → GateState C → ℕ
failure_count_of run_id s = elim (lookup run_id s.failure_counts) [ none ↦ 0 | some n ↦ n ]

-- `reason.split(":")[0]` where the reason has a colon
unfoldable pub before_colon : String → Option String
before_colon String.[] = none
before_colon (String.◌∷◌ c s) =
    let rest = before_colon s in
    if leb 58 (code c) && leb (code c) 58
    then some ""
    else elim rest [ none ↦ none | some t ↦ some (String.◌∷◌ c t) ]

unfoldable pub extract_effect_class : (String → String) → RecoveryInput → Option String
extract_effect_class lower i = before_colon (lower i.reason_code)

abbrev pub is_retryable : RecoveryMode → Bool
is_retryable RecoveryMode.static_compensation = true
is_retryable RecoveryMode.reflect_and_retry = true
is_retryable _ = false

-- `int(500 * 2 ** exponent)`, where no failure at all gives the exponent -1
abbrev pub backoff : ℕ → ℕ
backoff zero = 250
backoff (suc n) = 500 * 2 ^ min n 16

unfoldable pub compute_retry_after_ms : RecoveryMode → ℕ → Option ℕ
compute_retry_after_ms mode failure_count =
    if is_retryable mode then some (min (backoff failure_count) 30000) else none

unfoldable pub attach_backoff : RecoveryDecision → ℕ → RecoveryDecision
unfolding compute_retry_after_ms
attach_backoff d failure_count = record d {
  retry_after_ms = compute_retry_after_ms d.mode failure_count;
  failure_count = failure_count;
}

-- A decision with the defaults of its optional fields.
abbrev pub bare_decision : String → RecoveryMode → String → RecoveryDecision
bare_decision run_id mode reason = record {
  run_id = run_id;
  mode = mode;
  reason = reason;
  compensation_action_id = none;
  escalation_channel_ref = none;
  corrected_action = none;
  retry_after_ms = none;
  failure_count = 0;
}

-- The decision fields that `decide` tracks beside the plan.
pub record Effective : Type 0 where
  pub mode : RecoveryMode
  pub reason : String
  pub compensation_action_id : Option String
  pub escalation_channel_ref : Option String

abbrev pub is_static : RecoveryMode → Bool
is_static RecoveryMode.static_compensation = true
is_static _ = false

abbrev pub may_reflect : RecoveryMode → Bool
may_reflect RecoveryMode.static_compensation = true
may_reflect RecoveryMode.abort = true
may_reflect _ = false
