-- ===== src/Examples/Gates.antt =====
-- Decisions of a gate with a circuit breaker, a registry and reflection.
use agent_kernel.Prelude.{
  ◌≡◌, refl, arith, ℕ, ◌+◌, String, List, [], ◌∷◌, true, false, none, some, ltb,
}
use agent_kernel.Prelude.Errors.{ok}
use agent_kernel.Prelude.Dict.{lookup, insert}
use agent_kernel.Prelude.Text.{strip}
use agent_kernel.Contracts.{RecoveryMode, RecoveryDecision, RecoveryInput, CircuitBreakerPolicy}
use agent_kernel.Recovery.Planner.{default_policy, build_plan_from_input}
use agent_kernel.Recovery.Modes.{builtin_modes, register_all, register}
use agent_kernel.Recovery.Circuit.{
  Failures, fallback_store, is_circuit_open, record_circuit_failure,
}
use agent_kernel.Recovery.Gate.{Gate, GateState, failure_count_of, compute_retry_after_ms}
use agent_kernel.Recovery.Compensation.Once.{empty_site}
use agent_kernel.Recovery.Gate.Decide.{decide, should_reflect}
use agent_kernel.Recovery.Gate.Justified.{IsJustified, decide-IsJustified}
use agent_kernel.Recovery.Gate.Cooldown.{
  fallback_store-IsCircuitBreakerStore, decide_all, decide_all-open,
}
use agent_kernel.Examples.Values.{plain_codec}
use agent_kernel.Examples.Recovery.{same_text, transient_failure}

abbrev breaker : CircuitBreakerPolicy
breaker = record { threshold = 2; half_open_after_ms = 1000 }

abbrev write_failure : RecoveryInput
write_failure = record transient_failure { failed_effect_class = some "compensatable_write" }

abbrev gate : Gate Failures
gate = record {
  lower = same_text;
  policy = default_policy;
  modes = register_all (("rollback", RecoveryMode.abort) ∷ []) builtin_modes;
  compensation_registry = none;
  has_dedupe_store = true;
  randint = λ delays. 0;
  failing_action = λ i. none;
  reflection_policy = none;
  reasoning_loop = none;
  has_reflection_builder = false;
  default_inference_config = none;
  circuit_breaker_policy = some breaker;
  circuit_breaker_store = fallback_store;
  codec = plain_codec;
}

-- One failure of the class at 500.
abbrev one_failure : GateState Failures
one_failure = record {
  failure_counts = ("run-1", 1) ∷ [];
  circuits = record {
    circuit_failures = ("compensatable_write", 1) ∷ [];
    circuit_last_failure_mono = ("compensatable_write", 500) ∷ [];
  };
  site = empty_site;
  reflections = [];
}

abbrev compensation : RecoveryDecision
compensation = record {
  run_id = "run-1";
  mode = RecoveryMode.static_compensation;
  reason = "recovery: executor_transient:timeout";
  compensation_action_id = some "a1";
  escalation_channel_ref = none;
  corrected_action = none;
  retry_after_ms = some 1000;
  failure_count = 2;
}

write_failure_decision : (decide gate 600 "t" write_failure one_failure).0 ≡ ok compensation
unfolding decide build_plan_from_input strip lookup insert is_circuit_open record_circuit_failure
    should_reflect compute_retry_after_ms register
write_failure_decision = refl

decide-IsJustified_example :
    IsJustified gate write_failure (failure_count_of "run-1" one_failure + 1) compensation
decide-IsJustified_example =
    decide-IsJustified gate write_failure (("rollback", RecoveryMode.abort) ∷ []) 600 "t"
      one_failure compensation refl write_failure_decision

-- Two failures, the last at 600.
abbrev tripped : GateState Failures
tripped = record one_failure {
  circuits = record {
    circuit_failures = ("compensatable_write", 2) ∷ [];
    circuit_last_failure_mono = ("compensatable_write", 600) ∷ [];
  };
}

abbrev storm : List (ℕ × String × RecoveryInput)
storm = (700, "t", write_failure) ∷ (1500, "t", transient_failure) ∷ []

tripped_state :
    gate.circuit_breaker_store.get_state "compensatable_write" tripped.circuits ≡ (2, 600)
unfolding lookup
tripped_state = refl

decide_all-open_example :
    is_circuit_open gate.circuit_breaker_store gate.circuit_breaker_policy 1600
      (some "compensatable_write")
      (decide_all gate storm tripped).circuits
    ≡ ltb 1600 (600 + breaker.half_open_after_ms)
decide_all-open_example =
    decide_all-open gate breaker "compensatable_write" 2 600 storm tripped 1600
      fallback_store-IsCircuitBreakerStore refl refl (omega arith, (omega arith, tt)) tripped_state
