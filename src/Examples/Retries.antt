-- ===== src/Examples/Retries.antt =====
-- An inner executor that times out, is overloaded, and then answers.
use agent_kernel.Prelude.{◌≡◌, refl, arith, ℕ, zero, suc, List, [], ◌∷◌, true, none, some}
use agent_kernel.Contracts.{Action, EffectClass}
use agent_kernel.Retry.{
  TransientClass, TransientExecutionError, Reply, RetryingExecutorService, Retries,
  execute_with_retries, try_retries, compute_delay,
}
use agent_kernel.Retry.Attempts.{settling, execute-settling}

abbrev the_action : Action
the_action = record {
  action_id = "a1";
  run_id = "run-1";
  action_type = "write";
  effect_class = EffectClass.idempotent_write;
  external_idempotency_level = none;
  input_json = none;
  policy_tags = [];
  timeout_ms = none;
}

abbrev timeout_error : TransientExecutionError
timeout_error = record { error_class = TransientClass.timeout; backoff_hint_ms = none }

abbrev overload_error : TransientExecutionError
overload_error = record {
  error_class = TransientClass.service_overload;
  backoff_hint_ms = some 700;
}

abbrev third_answers : Action → ℕ → Reply ℕ × ℕ
third_answers a zero = (Reply.transient timeout_error, 1)
third_answers a (suc zero) = (Reply.transient overload_error, 2)
third_answers a (suc (suc n)) = (Reply.returned n, suc (suc (suc n)))

abbrev three_attempts : RetryingExecutorService
three_attempts = record {
  max_attempts = 3;
  base_delay_ms = 100;
  jitter_ms = 50;
  has_observability_hook = true;
}

abbrev constant_jitter : ℕ → List ℕ → ℕ
constant_jitter limit delays = 7

abbrev at_start : Retries ℕ
at_start = record { world = 0; calls = 0; delays = []; trips = [] }

abbrev the_run : Reply ℕ × Retries ℕ
the_run = execute_with_retries constant_jitter third_answers three_attempts the_action at_start

third_call_answers : the_run.0 ≡ Reply.returned 0
unfolding execute_with_retries try_retries
third_call_answers = refl

both_delays : the_run.1.delays ≡ 707 ∷ 407 ∷ []
unfolding execute_with_retries try_retries compute_delay
both_delays = refl

execute-settling_example :
    the_run.0
    ≡ settling
        (Reply.transient timeout_error)
        (Reply.transient overload_error ∷ Reply.returned 0 ∷ [])
execute-settling_example =
    execute-settling constant_jitter third_answers three_attempts the_action at_start (omega arith)
