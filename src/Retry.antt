-- ===== src/Retry.antt =====
-- RetryingExecutorService (agent_kernel/kernel/retry_executor.py) and the transient errors of
-- agent_kernel/kernel/contracts.py. `may_have_executed` and the message, which the code does not read, are
-- left out. What an inner executor takes besides the action is part of the parameter.
pub mod Attempts
use agent_kernel.Prelude.{
  ℕ, zero, suc, ◌+◌, ◌-◌, ◌*◌, ◌^◌, max, String, List, [], ◌∷◌, Bool, true, false, Option, none,
  some, if◌then◌else◌, ltb,
}
use agent_kernel.Prelude.Errors.{Exn, type_error, value_error, Outcome, ok, raised}
use agent_kernel.Contracts.{Action, EffectClass}

-- The classes below TransientExecutionError, and the class itself.
pub data TransientClass : Type 0 where
  transient_execution connection timeout rate_limit service_overload : TransientClass

pub record TransientExecutionError : Type 0 where
  pub error_class : TransientClass
  pub backoff_hint_ms : Option ℕ

-- What a call of an executor returns or raises.
pub data Reply (R : Type 0) : Type 0 where
  returned : R → Reply R
  transient : TransientExecutionError → Reply R
  failed : Exn → Reply R

-- The arguments of `on_circuit_breaker_trip`; `tripped` is always False.
pub record Trip : Type 0 where
  pub run_id : String
  pub effect_class : EffectClass
  pub failure_count : ℕ

pub record RetryingExecutorService : Type 0 where
  pub max_attempts : ℕ
  pub base_delay_ms : ℕ
  pub jitter_ms : ℕ
  pub has_observability_hook : Bool

-- `__init__`
unfoldable pub new_retrying_executor : RetryingExecutorService → Outcome RetryingExecutorService
new_retrying_executor e = if ltb e.max_attempts 1 then raised value_error else ok e

abbrev pub multiplier : TransientClass → ℕ
multiplier TransientClass.timeout = 4
multiplier TransientClass.service_overload = 2
multiplier _ = 1

-- `_compute_delay`, with what `random.randint` draws.
unfoldable pub compute_delay :
    RetryingExecutorService → TransientExecutionError → ℕ → (drawn : ℕ) → ℕ
compute_delay e x attempt drawn = elim x.backoff_hint_ms [
  | some hint ↦ max hint e.base_delay_ms + drawn
  | none ↦ e.base_delay_ms * multiplier x.error_class * 2 ^ attempt + drawn
]

-- What the inner executor acts on, how often it was called, and the delays and the calls of the hook, the
-- latest first.
pub record Retries (W : Type 0) : Type 0 where
  pub world : W
  pub calls : ℕ
  pub delays : List ℕ
  pub trips : List Trip

abbrev pub is_overload : TransientClass → Bool
is_overload TransientClass.service_overload = true
is_overload _ = false

-- `randint` draws from 0 to its first argument, and knows the delays before.
module _ {W R : Type 0} (randint : ℕ → List ℕ → ℕ) (inner : Action → W → Reply R × W)
    (e : RetryingExecutorService) (a : Action) where
  abbrev pub called : W → Retries W → Retries W
  called w s = record s { world = w; calls = suc s.calls }

  -- The hook is called for an overloaded service.
  abbrev pub hooked : TransientExecutionError → ℕ → List Trip → List Trip
  hooked x attempt trips =
      let trip : Trip = record {
        run_id = a.run_id;
        effect_class = a.effect_class;
        failure_count = attempt + 1;
      } in
      if is_overload x.error_class
      then (if e.has_observability_hook then trip ∷ trips else trips)
      else trips

  -- The sleep before the next attempt, and the call of the hook after it.
  abbrev pub backed_off : TransientExecutionError → ℕ → Retries W → Retries W
  backed_off x attempt s = record s {
    delays = compute_delay e x attempt (randint e.jitter_ms s.delays) ∷ s.delays;
    trips = hooked x attempt s.trips;
  }

  -- A transient error of an attempt: there is a sleep unless the attempt is the last.
  abbrev pub after_error : TransientExecutionError → ℕ → Retries W → Retries W
  after_error x attempt s = if ltb attempt (e.max_attempts - 1) then backed_off x attempt s else s

  -- The loop, with the attempts left, the index of the next, and the last error; `raise None` is a
  -- TypeError.
  unfoldable pub try_retries :
      ℕ → ℕ → Option TransientExecutionError → Retries W → Reply R × Retries W
  try_retries zero attempt none s = (failed type_error, s)
  try_retries zero attempt (some x) s = (transient x, s)
  try_retries (suc left) attempt last_exc s =
      let (reply, w) = inner a s.world in
      elim reply [
        | returned r ↦ (returned r, called w s)
        | failed x ↦ (failed x, called w s)
        | transient x ↦ try_retries left (suc attempt) (some x) (after_error x attempt (called w s))
      ]

  unfoldable pub execute_with_retries : Retries W → Reply R × Retries W
  unfolding try_retries
  execute_with_retries s = try_retries e.max_attempts 0 none s
