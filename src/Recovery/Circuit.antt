-- ===== src/Recovery/Circuit.antt =====
-- The circuit breaker of agent_kernel/kernel/recovery/gate.py, over the store of agent_kernel/kernel/contracts.py
-- (CircuitBreakerStore) or the dicts that the gate falls back to. Times are milliseconds of the clock that
-- is read, which is passed in. And agent_kernel/kernel/recovery/circuit_breaker_probe.py, one sweep of it.
use agent_kernel.Prelude.{
  ℕ, ◌+◌, String, List, [], ◌∷◌, Bool, true, false, Option, none, some, if◌then◌else◌, ltb, not,
  map,
}
use agent_kernel.Prelude.Errors.{Outcome, Exec, ok, raised}
use agent_kernel.Snapshot.{insert_sorted}
use agent_kernel.Prelude.Dict.{Dict, lookup, insert, remove}
use agent_kernel.Contracts.{CircuitBreakerPolicy}

-- The store's calls; the first answers with the number of failures and the time of the last.
pub record CircuitBreakerStore (C : Type 0) : Type 0 where
  pub get_state : String → C → ℕ × ℕ
  pub record_failure : String → ℕ → C → C
  pub reset : String → C → C

-- `_circuit_failures` and `_circuit_last_failure_mono`
pub record Failures : Type 0 where
  pub circuit_failures : Dict ℕ
  pub circuit_last_failure_mono : Dict ℕ

abbrev pub or_zero : Option ℕ → ℕ
or_zero none = 0
or_zero (some n) = n

abbrev pub no_failures : Failures
no_failures = record { circuit_failures = []; circuit_last_failure_mono = [] }

-- The gate without a store.
abbrev pub fallback_store : CircuitBreakerStore Failures
fallback_store = record {
  get_state = λ c f.
      (or_zero (lookup c f.circuit_failures), or_zero (lookup c f.circuit_last_failure_mono));
  record_failure = λ c now f. record {
    circuit_failures = insert c (or_zero (lookup c f.circuit_failures) + 1) f.circuit_failures;
    circuit_last_failure_mono = insert c now f.circuit_last_failure_mono;
  };
  reset = λ c f. record {
    circuit_failures = remove c f.circuit_failures;
    circuit_last_failure_mono = remove c f.circuit_last_failure_mono;
  };
}

-- `sorted(set(classes))`
unfoldable pub sorted_set : List String → List String
unfolding insert_sorted
sorted_set [] = []
sorted_set (c ∷ r) = insert_sorted c (sorted_set r)

module _ {C : Type 0} (store : CircuitBreakerStore C) where
  -- Whether a class with this state is open: the cooldown is not over.
  abbrev pub trips : CircuitBreakerPolicy → ℕ → ℕ × ℕ → Bool
  trips p now (count, last_failure) =
      if ltb count p.threshold then false else ltb now (last_failure + p.half_open_after_ms)

  unfoldable pub is_circuit_open : Option CircuitBreakerPolicy → ℕ → Option String → C → Bool
  is_circuit_open none now effect_class s = false
  is_circuit_open (some p) now none s = false
  is_circuit_open (some p) now (some c) s = trips p now (store.get_state c s)

  unfoldable pub record_circuit_failure : Option CircuitBreakerPolicy → ℕ → Option String → C → C
  record_circuit_failure none now effect_class s = s
  record_circuit_failure (some p) now none s = s
  record_circuit_failure (some p) now (some c) s = store.record_failure c now s

  unfoldable pub on_action_success : String → C → C
  on_action_success effect_class s = store.reset effect_class s

  -- Whether a class has reached the threshold and its cooldown is over.
  abbrev pub is_due : CircuitBreakerPolicy → ℕ → ℕ × ℕ → Bool
  is_due p now (count, last_failure) =
      if ltb count p.threshold then false else not (ltb now (last_failure + p.half_open_after_ms))

  abbrev listed : String → Outcome (List String) × C → Outcome (List String) × C
  listed c (ok closed, s) = (ok (c ∷ closed), s)
  listed c (raised x, s) = (raised x, s)

  -- The sweep of `CircuitBreakerProbeScheduler.probe_once` over effect classes, with what each probe
  -- function answers or raises: the classes that it closed.
  unfoldable pub probe_all :
      CircuitBreakerPolicy → ℕ → Dict (Outcome Bool) → List String → Exec C (List String)
  probe_all p now probe_fns [] s = (ok [], s)
  probe_all p now probe_fns (c ∷ r) s =
      let rest = probe_all p now probe_fns r s in
      let closing = listed c (probe_all p now probe_fns r (store.reset c s)) in
      elim (lookup c probe_fns) [
        | none ↦ rest
        | some answer ↦
            if is_due p now (store.get_state c s)
            then elim answer [ raised x ↦ (raised x, s) | ok true ↦ closing | ok false ↦ rest ]
            else rest
      ]

  -- A class that the store lists and no probe function covers is passed over, so the sweep is over the
  -- sorted keys of the probe functions.
  unfoldable pub probe_once : CircuitBreakerPolicy → ℕ → Dict (Outcome Bool) → Exec C (List String)
  unfolding probe_all sorted_set
  probe_once p now probe_fns s =
      probe_all p now probe_fns (sorted_set (map (λ item. item.0) probe_fns)) s
