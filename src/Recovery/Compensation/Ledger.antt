-- ===== src/Recovery/Compensation/Ledger.antt =====
-- What the execution of a compensation (agent_kernel/kernel/recovery/compensation_registry.py) does to the
-- ledger of keys.
use agent_kernel.Prelude.{
  ◌≡◌, refl, ◌∙◌, ap, arith, ℕ, zero, suc, max, String, List, ◌∷◌, Bool, true, false, Option, none,
  some, Option-cases, inl, inr, ◌==◌, eq_refl,
}
use agent_kernel.Prelude.Errors.{Outcome, Outcome-cases, ok, raised}
use agent_kernel.Contracts.{Action}
use agent_kernel.Dedupe.{
  InMemoryDedupeStore, DedupeRecord, DedupeState, get, get_required_record, reserve,
  mark_dispatched, mark_acknowledged, mark_unknown_effect, reserved_record, write,
}
use agent_kernel.Dedupe.Transitions.{
  mark_dispatched_op, mark_acknowledged_op, mark_unknown_effect_op, state_of, get-after, get-write,
}
use agent_kernel.Recovery.Compensation.{
  CompensationEntry, Site, key_of, envelope_of, try_attempts, reserve_key, compensate_with,
  mark_returned, slept, concluded,
}

-- The state of a key in the ledger.
abbrev pub held : String → InMemoryDedupeStore → Option DedupeState
held k l = state_of (get k l)

acknowledged-held :
    (k : String) (l : InMemoryDedupeStore)
    → held k l ≡ some DedupeState.dispatched
    → ((mark_acknowledged k none l).0 ≡ ok tt)
      × (held k (mark_acknowledged k none l).1 ≡ some DedupeState.acknowledged)
unfolding mark_acknowledged get_required_record
acknowledged-held k l h = elim (Option-cases (get k l)) [
  | inl e ↦ ground (arith, e, h)
  | inr (r, e) ↦ ground (arith, e, h, get-after (mark_acknowledged_op k none) k l, eq_refl k)
]

lost-held :
    (k : String) (l : InMemoryDedupeStore)
    → held k l ≡ some DedupeState.dispatched
    → held k (mark_unknown_effect k l).1 ≡ some DedupeState.unknown_effect
lost-held k l h = ground (arith, h, get-after (mark_unknown_effect_op k) k l, eq_refl k)

-- A call of the ledger about one key leaves the others as they are.
pub reserve_key-taken :
    (a : Action) (s : Site) (r : DedupeRecord)
    → get (key_of a) s.ledger ≡ some r
    → reserve_key a s ≡ (ok false, s)
unfolding reserve
reserve_key-taken a s r h = ground (arith, h)

pub reserve_key-free :
    (a : Action) (s : Site)
    → get (key_of a) s.ledger ≡ none
    → ((reserve_key a s).0 ≡ ok true)
      × ((reserve_key a s).1.calls ≡ s.calls)
      × (held (key_of a) (reserve_key a s).1.ledger ≡ some DedupeState.dispatched)
unfolding reserve mark_dispatched get_required_record
reserve_key-free a s h = ground (
  arith,
  h,
  eq_refl (key_of a),
  get-write (key_of a) (key_of a) (reserved_record (envelope_of a)) s.ledger,
  get-after (mark_dispatched_op (key_of a) none) (key_of a)
      (write (key_of a) (reserved_record (envelope_of a)) s.ledger),
)

pub reserve_key-other :
    (a : Action) (s : Site) (j : String)
    → (key_of a == j) ≡ false
    → get j (reserve_key a s).1.ledger ≡ get j s.ledger
unfolding reserve
reserve_key-other a s j ne = elim (Option-cases (get (key_of a) s.ledger)) [
  | inr (r, e) ↦ ap (λ (o : Outcome Bool × Site). get j o.1.ledger) (reserve_key-taken a s r e)
  | inl e ↦ ground (
    arith,
    e,
    ne,
    get-write (key_of a) j (reserved_record (envelope_of a)) s.ledger,
    get-after (mark_dispatched_op (key_of a) none) j
        (write (key_of a) (reserved_record (envelope_of a)) s.ledger),
  )
]

-- The state of the key after the loop: whether the handler returned.
abbrev pub loop_state : Bool → DedupeState
loop_state true = DedupeState.acknowledged
loop_state false = DedupeState.dispatched

-- The state of the key when all is over, by the outcome.
abbrev pub end_state : Outcome Bool → DedupeState
end_state (ok true) = DedupeState.acknowledged
end_state (ok false) = DedupeState.unknown_effect
end_state (raised x) = DedupeState.unknown_effect

module _ (randint : List ℕ → ℕ) (e : CompensationEntry) (a : Action) where
  mark_returned-held :
      (s : Site)
      → held (key_of a) s.ledger ≡ some DedupeState.dispatched
      → ((mark_returned true randint a s).0 ≡ true)
        × (held (key_of a) (mark_returned true randint a s).1.ledger
            ≡ some DedupeState.acknowledged)
        × ((mark_returned true randint a s).1.calls ≡ s.calls)
  mark_returned-held s h =
      let (o, later) = acknowledged-held (key_of a) s.ledger h in ground (arith, o, later)

  pub try-held :
      (left n : ℕ) (s : Site)
      → held (key_of a) s.ledger ≡ some DedupeState.dispatched
      → held (key_of a) (try_attempts true randint e a left n s).1.ledger
        ≡ some (loop_state (try_attempts true randint e a left n s).0)
  unfolding try_attempts
  try-held zero n s h = h
  try-held (suc left) n s h =
      let called = record s { calls = a ∷ s.calls } in
      let (o, later, same) = mark_returned-held called h in
      ground (arith, h, o, later, try-held left (suc n) (slept true randint e (suc n) called) h)

  mark_returned-other :
      (s : Site) (j : String)
      → (key_of a == j) ≡ false
      → get j (mark_returned true randint a s).1.ledger ≡ get j s.ledger
  mark_returned-other s j ne = elim (Outcome-cases (mark_acknowledged (key_of a) none s.ledger).0) [
    | inl (x, o) ↦
        ground (arith, o, ne, get-after (mark_acknowledged_op (key_of a) none) j s.ledger)
    | inr (u, o) ↦
        ground (arith, o, ne, get-after (mark_acknowledged_op (key_of a) none) j s.ledger)
  ]

  pub try-other :
      (left n : ℕ) (s : Site) (j : String)
      → (key_of a == j) ≡ false
      → get j (try_attempts true randint e a left n s).1.ledger ≡ get j s.ledger
  unfolding try_attempts
  try-other zero n s j ne = refl
  try-other (suc left) n s j ne =
      let called = record s { calls = a ∷ s.calls } in
      ground (
        arith,
        mark_returned-other called j ne,
        try-other left (suc n) (slept true randint e (suc n) called) j ne,
      )

  concluded-held :
      (f : Bool) (r : Bool × Site)
      → held (key_of a) r.1.ledger ≡ some (loop_state r.0)
      → held (key_of a) (concluded true randint a f r).1.ledger
        ≡ some (end_state (concluded true randint a f r).0)
  concluded-held f (true, s) h = h
  concluded-held true (false, s) h = lost-held (key_of a) s.ledger h
  concluded-held false (false, s) h = lost-held (key_of a) s.ledger h

  concluded-other :
      (f : Bool) (r : Bool × Site) (j : String)
      → (key_of a == j) ≡ false
      → get j (concluded true randint a f r).1.ledger ≡ get j r.1.ledger
  concluded-other f (true, s) j ne = refl
  concluded-other f (false, s) j ne =
      ground (arith, ne, get-after (mark_unknown_effect_op (key_of a)) j s.ledger)

  pub compensate-held :
      (f : Bool) (s : Site)
      → held (key_of a) s.ledger ≡ some DedupeState.dispatched
      → held (key_of a) (compensate_with true randint e a f s).1.ledger
        ≡ some (end_state (compensate_with true randint e a f s).0)
  compensate-held f s h =
      concluded-held f (try_attempts true randint e a (max e.max_attempts 1) 0 s)
        (try-held (max e.max_attempts 1) 0 s h)

  pub compensate-other :
      (f : Bool) (s : Site) (j : String)
      → (key_of a == j) ≡ false
      → get j (compensate_with true randint e a f s).1.ledger ≡ get j s.ledger
  compensate-other f s j ne =
      concluded-other f (try_attempts true randint e a (max e.max_attempts 1) 0 s) j ne
      ∙ try-other (max e.max_attempts 1) 0 s j ne
