-- ===== src/Recovery/Gate/Cooldown.antt =====
-- The cooldown of an open circuit under any failures in the meantime (agent_kernel/kernel/recovery/gate.py,
-- decide, _is_circuit_open and _record_circuit_failure).
use agent_kernel.Prelude.{
  ◌≡◌, sym, subst, arith, ℕ, ◌+◌, ◌<◌, String, List, [], ◌∷◌, Bool, false, some, if◌then◌else◌, ltb,
  Option-cases, Bool-cases, inl, inr, ◌⊎◌, ◌==◌, eq_iff, All,
}
use agent_kernel.Prelude.Errors.{Outcome-cases}
use agent_kernel.Prelude.Dict.{lookup, insert, lookup-insert, lookup-remove}
use agent_kernel.Contracts.{RecoveryMode, RecoveryInput, CircuitBreakerPolicy}
use agent_kernel.Recovery.Planner.{RecoveryPlan, build_plan_from_input}
use agent_kernel.Recovery.Modes.{action_text}
use agent_kernel.Recovery.Circuit.{
  CircuitBreakerStore, fallback_store, or_zero, is_circuit_open, record_circuit_failure,
}
use agent_kernel.Recovery.Gate.{Gate, GateState, Effective, failure_count_of}
use agent_kernel.Recovery.Gate.Decide.{
  compensated, should_reflect, decide_reflect_and_retry, concluded, decide,
}

-- What the gate relies on: the classes are independent, a failure is counted with its time, and a reset
-- forgets both.
pub record IsCircuitBreakerStore {C : Type 0} (store : CircuitBreakerStore C) : Type 0 where
  pub get-record_failure :
      (c d : String) (now : ℕ) (s : C)
      → store.get_state c (store.record_failure d now s)
        ≡ (if d == c then ((store.get_state c s).0 + 1, now) else store.get_state c s)
  pub get-reset :
      (c d : String) (s : C)
      → store.get_state c (store.reset d s) ≡ (if d == c then (0, 0) else store.get_state c s)

-- The dicts of the gate are such a store: the gate's own counters keep the contract of a
-- CircuitBreakerStore.
pub fallback_store-IsCircuitBreakerStore : IsCircuitBreakerStore fallback_store
fallback_store-IsCircuitBreakerStore = record {
  get-record_failure = λ c d now s. ground (
    arith,
    eq_iff d c,
    lookup-insert d c (or_zero (lookup d s.circuit_failures) + 1) s.circuit_failures,
    lookup-insert d c now s.circuit_last_failure_mono,
  );
  get-reset = λ c d s.
      ground (
        arith,
        lookup-remove d c s.circuit_failures,
        lookup-remove d c s.circuit_last_failure_mono,
      );
}

module _ {C : Type 0} (g : Gate C) where
  compensated-circuits :
      (i : RecoveryInput) (plan : RecoveryPlan) (m : RecoveryMode) (s : GateState C)
      → (compensated g i plan m s).1.circuits ≡ s.circuits
  compensated-circuits i plan m s = ground arith

  reflect-circuits :
      (clock base : String) (i : RecoveryInput) (s : GateState C)
      → (decide_reflect_and_retry g clock i base s).1.circuits ≡ s.circuits
  unfolding decide_reflect_and_retry
  reflect-circuits clock base i s = ground arith

  -- The circuits after a decision, or a failure of the input's class recorded in them.
  abbrev Recorded : ℕ → RecoveryInput → C → C → Type 0
  Recorded now i before later =
      (later ≡ before)
      ⊎ (later
          ≡ record_circuit_failure g.circuit_breaker_store g.circuit_breaker_policy now
              i.failed_effect_class before)

  concluded-Recorded :
      (now : ℕ) (clock : String) (i : RecoveryInput) (plan : RecoveryPlan) (n : ℕ) (e : Effective)
      (s : GateState C)
      → Recorded now i s.circuits (concluded g now clock i plan n (e, s)).1.circuits
  concluded-Recorded now clock i plan n e s = elim (Bool-cases (should_reflect g i e.mode)) [
    | inl b ↦ inl (ground (arith, b, reflect-circuits clock e.reason i s))
    | inr b ↦ inr (ground (arith, b))
  ]

  abbrev opens : ℕ → RecoveryInput → GateState C → Bool
  opens now i s =
      is_circuit_open g.circuit_breaker_store g.circuit_breaker_policy now i.failed_effect_class
        s.circuits

  decide-Recorded :
      (now : ℕ) (clock : String) (i : RecoveryInput) (s : GateState C)
      → ((decide g now clock i s).1.circuits ≡ s.circuits)
        ⊎ (opens now i s ≡ false) × Recorded now i s.circuits (decide g now clock i s).1.circuits
  unfolding decide
  decide-Recorded now clock i s =
      let n = failure_count_of i.run_id s + 1 in
      let counted = record s { failure_counts = insert i.run_id n s.failure_counts } in
      elim (Bool-cases (opens now i s)) [
        | inl b ↦ inl (ground (arith, b))
        | inr b ↦ elim (Outcome-cases (build_plan_from_input g.lower g.policy i)) [
          | inl (x, o) ↦ inl (ground (arith, b, o))
          | inr (plan, o) ↦ elim (Option-cases (lookup (action_text plan.action) g.modes)) [
            | inl m ↦ inl (ground (arith, b, o, m))
            | inr (mode, m) ↦
                let (e, s') = compensated g i plan mode counted in
                ground (
                  arith,
                  b,
                  o,
                  m,
                  concluded-Recorded now clock i plan n e s',
                  compensated-circuits i plan mode counted,
                )
          ]
        ]
      ]

  -- Failures, one after another, each with its time and the clock's text.
  abbrev pub decide_all : List (ℕ × String × RecoveryInput) → GateState C → GateState C
  decide_all [] s = s
  decide_all ((now, clock, i) ∷ r) s = decide_all r (decide g now clock i s).1

  abbrev pub Before : ℕ → List (ℕ × String × RecoveryInput) → Type 0
  Before end = All (λ call. call.0 < end)

  module _ (p : CircuitBreakerPolicy) (c : String) (count last_failure : ℕ) where
    abbrev Standing : C → Type 0
    Standing k = g.circuit_breaker_store.get_state c k ≡ (count, last_failure)

    decide-Standing :
        (now : ℕ) (clock : String) (i : RecoveryInput) (s : GateState C)
        → IsCircuitBreakerStore g.circuit_breaker_store
        → g.circuit_breaker_policy ≡ some p
        → ltb count p.threshold ≡ false
        → now < last_failure + p.half_open_after_ms
        → Standing s.circuits
        → Standing (decide g now clock i s).1.circuits
    unfolding is_circuit_open record_circuit_failure
    decide-Standing now clock i s laws has full early h = elim (decide-Recorded now clock i s) [
      | inl same ↦ subst Standing (sym same) h
      | inr (closed, inl same) ↦ subst Standing (sym same) h
      | inr (closed, inr new) ↦ elim (Option-cases i.failed_effect_class) [
        | inl e ↦ ground (arith, has, e, h, new)
        | inr (d, e) ↦ ground (
          arith,
          has,
          e,
          h,
          new,
          closed,
          full,
          early,
          eq_iff d c,
          laws.get-record_failure c d now s.circuits,
        )
      ]
    ]

    decide_all-Standing :
        (calls : List (ℕ × String × RecoveryInput)) (s : GateState C)
        → IsCircuitBreakerStore g.circuit_breaker_store
        → g.circuit_breaker_policy ≡ some p
        → ltb count p.threshold ≡ false
        → Before (last_failure + p.half_open_after_ms) calls
        → Standing s.circuits
        → Standing (decide_all calls s).circuits
    decide_all-Standing [] s laws has full early h = h
    decide_all-Standing ((now, clock, i) ∷ r) s laws has full (first, early) h =
        decide_all-Standing r (decide g now clock i s).1 laws has full early
          (decide-Standing now clock i s laws has full first h)

    -- With a circuit breaker policy and a store that keeps its contract: the circuit of a class that has
    -- reached the threshold is open until `half_open_after_ms` after its last counted failure, and no
    -- longer, whatever failures of any runs and classes the gate is asked to decide before that time.
    pub decide_all-open :
        (calls : List (ℕ × String × RecoveryInput)) (s : GateState C) (t : ℕ)
        → IsCircuitBreakerStore g.circuit_breaker_store
        → g.circuit_breaker_policy ≡ some p
        → ltb count p.threshold ≡ false
        → Before (last_failure + p.half_open_after_ms) calls
        → Standing s.circuits
        → is_circuit_open g.circuit_breaker_store g.circuit_breaker_policy t
            (some c)
            (decide_all calls s).circuits
          ≡ ltb t (last_failure + p.half_open_after_ms)
    unfolding is_circuit_open
    decide_all-open calls s t laws has full early h =
        ground (arith, has, full, decide_all-Standing calls s laws has full early h)
