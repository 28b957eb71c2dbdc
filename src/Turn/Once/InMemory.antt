-- ===== src/Turn/Once/InMemory.antt =====
-- InMemoryDedupeStore of agent_kernel/kernel/dedupe_store.py as the engine's store.
use agent_kernel.Prelude.{
  ◌≡◌, Option, Bool, true, false, String, eq_refl, arith, is_some, Option-cases, inl, inr,
}
use agent_kernel.Prelude.Errors.{ok}
use agent_kernel.Dedupe.{
  InMemoryDedupeStore, IdempotencyEnvelope, DedupeReservation, get, reserve_and_dispatch,
  mark_acknowledged, mark_unknown_effect, dispatched_record, taken, rejected,
}
use agent_kernel.Dedupe.Transitions.{
  reserve_and_dispatch_op, mark_acknowledged_op, mark_unknown_effect_op, get-write,
}
use agent_kernel.Dedupe.Reservation.{kept}
use agent_kernel.Turn.State.{DedupePort}
use agent_kernel.Turn.Once.Ledger.{IsLedger}

abbrev pub in_memory : DedupePort
in_memory = record {
  Store = InMemoryDedupeStore;
  get = λ k s. ok (get k s);
  reserve_and_dispatch = reserve_and_dispatch;
  mark_acknowledged = mark_acknowledged;
  mark_unknown_effect = mark_unknown_effect;
}

abbrev pub has : InMemoryDedupeStore → String → Bool
has s k = is_some (get k s)

answers :
    (e : IdempotencyEnvelope) (o : Option String) (s : InMemoryDedupeStore)
    → (r : DedupeReservation) × ((reserve_and_dispatch e o s).0 ≡ ok r)
unfolding reserve_and_dispatch
answers e o s = elim (Option-cases (get e.dispatch_idempotency_key s)) [
  | inl absent ↦ (taken, ground arith)
  | inr (r, there) ↦ (rejected r, ground arith)
]

fresh :
    (e : IdempotencyEnvelope) (o : Option String) (s : InMemoryDedupeStore) (r : DedupeReservation)
    → (reserve_and_dispatch e o s).0 ≡ ok r
    → r.accepted ≡ true
    → (has s e.dispatch_idempotency_key ≡ false)
      × (has (reserve_and_dispatch e o s).1 e.dispatch_idempotency_key ≡ true)
unfolding reserve_and_dispatch
fresh e o s r h a = ground (
  arith,
  eq_refl e.dispatch_idempotency_key,
  get-write e.dispatch_idempotency_key e.dispatch_idempotency_key (dispatched_record e o) s,
)

-- The in-memory store keeps the promises that the engine relies on.
pub in_memory-IsLedger : IsLedger in_memory
in_memory-IsLedger = record {
  has = has;
  answers = answers;
  fresh = fresh;
  reserve_keeps = λ e o s k h. kept k (reserve_and_dispatch_op e o) s h;
  acknowledge_keeps = λ j o s k h. kept k (mark_acknowledged_op j o) s h;
  unknown_keeps = λ j s k h. kept k (mark_unknown_effect_op j) s h;
}
