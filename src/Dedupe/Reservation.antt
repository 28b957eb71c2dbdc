-- ===== src/Dedupe/Reservation.antt =====
-- Who gets a dispatch key: the two ways to reserve one
-- (agent_kernel/kernel/dedupe_store.py, reserve and reserve_and_dispatch).
use agent_kernel.Prelude.{
  ℕ, suc, ◌≤◌, String, ◌≡◌, refl, Option, none, some, List, [], ◌∷◌, Bool, true, false, ◌&&◌, arith,
  eq_iff, eq_refl, ◌==◌, if◌then◌else◌, Option-cases, is_some, inl, inr,
}
use agent_kernel.Prelude.Errors.{◌>>=◌, ◌>>◌, Outcome, Exec, pure, ok, raised}
use agent_kernel.Prelude.Dict.{Dict, insert, lookup-insert}
use agent_kernel.Dedupe.{
  IdempotencyEnvelope, DedupeRecord, InMemoryDedupeStore, DedupeReservation, get, reserve,
  mark_dispatched, reserve_and_dispatch, reserved_record, dispatched_record,
}
use agent_kernel.Dedupe.Transitions.{
  Op, reserve_op, reserve_and_dispatch_op, after, target, slot, get-after, get-write,
}

insert-insert :
    (k : String) (v w : DedupeRecord) (m : Dict DedupeRecord)
    → insert k w (insert k v m) ≡ insert k w m
unfolding insert
insert-insert k v w [] = ground (arith, eq_refl k)
insert-insert k v w ((j, u) ∷ m) = ground (arith, eq_refl k, insert-insert k v w m)

-- The two calls that `reserve_and_dispatch` replaces.
abbrev pub reserve_then_mark :
    IdempotencyEnvelope → Option String → Exec InMemoryDedupeStore DedupeReservation
reserve_then_mark e p = do r ← reserve e; mark_dispatched e.dispatch_idempotency_key p; pure r

-- On a key that is free, `reserve`, then `mark_dispatched`, and the reservation returned have the outcome
-- and the store of the one call of `reserve_and_dispatch`.
pub reserve-mark_dispatched :
    (e : IdempotencyEnvelope) (p : Option String) (s : InMemoryDedupeStore)
    → get e.dispatch_idempotency_key s ≡ none
    → reserve_then_mark e p s ≡ reserve_and_dispatch e p s
unfolding reserve mark_dispatched reserve_and_dispatch
reserve-mark_dispatched e p s free = ground (
  arith,
  lookup-insert e.dispatch_idempotency_key e.dispatch_idempotency_key (reserved_record e)
      s.records_by_key,
  eq_refl e.dispatch_idempotency_key,
  insert-insert e.dispatch_idempotency_key (reserved_record e) (dispatched_record e p)
      s.records_by_key,
)

pub granted : Outcome DedupeReservation → Bool
granted (ok r) = r.accepted
granted (raised x) = false

-- Whether a call is a reservation of the key that the store grants.
unfoldable pub grants : String → Op → InMemoryDedupeStore → Bool
unfolding granted
grants k (reserve_op e) s = (target (reserve_op e) == k) && granted (reserve e s).0
grants k (reserve_and_dispatch_op e p) s =
    (target (reserve_and_dispatch_op e p) == k) && granted (reserve_and_dispatch e p s).0
grants k _ s = false

-- How many calls of a history are granted the key.
unfoldable pub count_grants : String → List Op → InMemoryDedupeStore → ℕ
unfolding grants
count_grants k [] s = 0
count_grants k (op ∷ ops) s =
    let rest = count_grants k ops (after op s) in if grants k op s then suc rest else rest

grants-free :
    (k : String) (op : Op) (s : InMemoryDedupeStore)
    → grants k op s ≡ true
    → (get k s ≡ none) × (is_some (get k (after op s)) ≡ true)
unfolding grants reserve reserve_and_dispatch
grants-free k (reserve_op e) s h = ground (
  arith,
  eq_iff e.dispatch_idempotency_key k,
  get-write e.dispatch_idempotency_key k (reserved_record e) s,
)
grants-free k (reserve_and_dispatch_op e p) s h = ground (
  arith,
  eq_iff e.dispatch_idempotency_key k,
  get-write e.dispatch_idempotency_key k (dispatched_record e p) s,
)
grants-free k _ s h = cc

slot-is_some : (op : Op) (r : DedupeRecord) → is_some (slot op (some r)) ≡ true
slot-is_some (reserve_op e) r = refl
slot-is_some _ r = refl

-- A key that has a record keeps one.
pub kept :
    (k : String) (op : Op) (s : InMemoryDedupeStore)
    → is_some (get k s) ≡ true
    → is_some (get k (after op s)) ≡ true
kept k op s h = elim (Option-cases (get k s)) [
  | inl e ↦ ground arith
  | inr (r, e) ↦ ground (arith, get-after op k s, slot-is_some op r)
]

-- Over any history of calls a key is granted at most once, and not at all once it has a record.
pub count_grants-le :
    (k : String) (ops : List Op) (s : InMemoryDedupeStore)
    → count_grants k ops s ≤ (if is_some (get k s) then 0 else 1)
unfolding count_grants
count_grants-le k [] s = ground arith
count_grants-le k (op ∷ ops) s =
    ground (arith, grants-free k op s, kept k op s, count_grants-le k ops (after op s))
