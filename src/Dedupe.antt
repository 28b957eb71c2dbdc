-- ===== src/Dedupe.antt =====
-- The dispatch ledger, agent_kernel/kernel/dedupe_store.py: one record for each dispatch key, which
-- moves along reserved, dispatched, acknowledged, succeeded, or ends in unknown_effect.
-- A method of the store is an action on the store; a refused transition raises and writes nothing.
pub mod Transitions
pub mod Reservation
use agent_kernel.Prelude.{
  ℕ, suc, ◌+◌, String, Option, none, some, List, [], ◌∷◌, Bool, true, false, ◌||◌, ◌==◌,
  if◌then◌else◌, Exn, dedupe_store_state_error, Outcome, ok, raised, Exec, pure, throw, ◌>>=◌,
}
use agent_kernel.Prelude.Dict.{Dict, lookup, insert}
use agent_kernel.Prelude.Text.{or_text}
use text.Mathlib.Text.{starts_with}

pub data DedupeState : Type 0 where
  reserved dispatched acknowledged succeeded unknown_effect : DedupeState

pub data HostKind : Type 0 where
  local_process local_cli cli_process in_process_python remote_service : HostKind

pub record IdempotencyEnvelope : Type 0 where
  pub dispatch_idempotency_key : String
  pub operation_fingerprint : String
  pub attempt_seq : ℕ
  pub effect_scope : String
  pub capability_snapshot_hash : String
  pub host_kind : HostKind
  pub peer_operation_id : Option String
  pub policy_snapshot_ref : Option String
  pub rule_bundle_hash : Option String

pub record DedupeRecord : Type 0 where
  pub dispatch_idempotency_key : String
  pub operation_fingerprint : String
  pub attempt_seq : ℕ
  pub state : DedupeState
  pub peer_operation_id : Option String
  pub external_ack_ref : Option String

pub data ReservationReason : Type 0 where
  duplicate reserved accepted : ReservationReason

pub record DedupeReservation : Type 0 where
  pub accepted : Bool
  pub reason : ReservationReason
  pub existing_record : Option DedupeRecord

pub record InMemoryDedupeStore : Type 0 where
  pub records_by_key : Dict DedupeRecord

abbrev pub empty_store : InMemoryDedupeStore
empty_store = record { records_by_key = [] }

abbrev pub write : String → DedupeRecord → InMemoryDedupeStore → InMemoryDedupeStore
write key r s = record { records_by_key = insert key r s.records_by_key }

-- `DedupeReservation(accepted=False, reason="duplicate", existing_record=...)`
abbrev pub rejected : DedupeRecord → DedupeReservation
rejected r = record {
  accepted = false;
  reason = ReservationReason.duplicate;
  existing_record = some r;
}

abbrev pub taken : DedupeReservation
taken = record { accepted = true; reason = ReservationReason.accepted; existing_record = none }

abbrev pub reserved_record : IdempotencyEnvelope → DedupeRecord
reserved_record e = record {
  dispatch_idempotency_key = e.dispatch_idempotency_key;
  operation_fingerprint = e.operation_fingerprint;
  attempt_seq = e.attempt_seq;
  state = DedupeState.reserved;
  peer_operation_id = e.peer_operation_id;
  external_ack_ref = none;
}

abbrev pub dispatched_record : IdempotencyEnvelope → Option String → DedupeRecord
dispatched_record e peer = record (reserved_record e) {
  state = DedupeState.dispatched;
  peer_operation_id = or_text peer e.peer_operation_id;
}

unfoldable pub get : String → InMemoryDedupeStore → Option DedupeRecord
get key s = lookup key s.records_by_key

unfoldable pub reserve : IdempotencyEnvelope → Exec InMemoryDedupeStore DedupeReservation
unfolding get
reserve e s = elim (get e.dispatch_idempotency_key s) [
  | some existing_record ↦ (ok (rejected existing_record), s)
  | none ↦ (ok taken, write e.dispatch_idempotency_key (reserved_record e) s)
]

unfoldable pub get_required_record : String → Exec InMemoryDedupeStore DedupeRecord
unfolding get
get_required_record key s = elim (get key s) [
  | none ↦ (raised dedupe_store_state_error, s)
  | some r ↦ (ok r, s)
]

-- The states that each transition accepts.
abbrev pub may_dispatch : DedupeState → Bool
may_dispatch DedupeState.reserved = true
may_dispatch DedupeState.dispatched = true
may_dispatch _ = false

abbrev pub may_acknowledge : DedupeState → Bool
may_acknowledge DedupeState.dispatched = true
may_acknowledge DedupeState.acknowledged = true
may_acknowledge _ = false

abbrev pub may_succeed : DedupeState → Bool
may_succeed DedupeState.acknowledged = true
may_succeed DedupeState.succeeded = true
may_succeed _ = false

abbrev pub may_lose : DedupeState → Bool
may_lose DedupeState.dispatched = true
may_lose DedupeState.unknown_effect = true
may_lose _ = false

-- `if record.state not in ...: raise`, then the record's replacement is stored under the key.
abbrev pub transition : Bool → String → DedupeRecord → Exec InMemoryDedupeStore (Unit {0})
transition allowed key r s =
    if allowed then (ok tt, write key r s) else (raised dedupe_store_state_error, s)

unfoldable pub mark_dispatched : String → Option String → Exec InMemoryDedupeStore (Unit {0})
unfolding get_required_record
mark_dispatched key peer_operation_id = do
  r ← get_required_record key
  transition (may_dispatch r.state) key (record r {
    state = DedupeState.dispatched;
    peer_operation_id = or_text peer_operation_id r.peer_operation_id;
  })

unfoldable pub mark_acknowledged : String → Option String → Exec InMemoryDedupeStore (Unit {0})
unfolding get_required_record
mark_acknowledged key external_ack_ref = do
  r ← get_required_record key
  transition (may_acknowledge r.state) key (record r {
    state = DedupeState.acknowledged;
    external_ack_ref = or_text external_ack_ref r.external_ack_ref;
  })

unfoldable pub mark_succeeded : String → Option String → Exec InMemoryDedupeStore (Unit {0})
unfolding get_required_record
mark_succeeded key external_ack_ref = do
  r ← get_required_record key
  transition (may_succeed r.state) key (record r {
    state = DedupeState.succeeded;
    external_ack_ref = or_text external_ack_ref r.external_ack_ref;
  })

unfoldable pub mark_unknown_effect : String → Exec InMemoryDedupeStore (Unit {0})
unfolding get_required_record
mark_unknown_effect key = do
  r ← get_required_record key
  transition (may_lose r.state) key (record r { state = DedupeState.unknown_effect })

unfoldable pub reserve_and_dispatch :
    IdempotencyEnvelope → Option String → Exec InMemoryDedupeStore DedupeReservation
unfolding get
reserve_and_dispatch e peer_operation_id s = elim (get e.dispatch_idempotency_key s) [
  | some existing_record ↦ (ok (rejected existing_record), s)
  | none ↦ (ok taken, write e.dispatch_idempotency_key (dispatched_record e peer_operation_id) s)
]

-- The keys of the dict that start with a text, counted.
abbrev pub count_prefixed : String → Dict DedupeRecord → ℕ
count_prefixed p [] = 0
count_prefixed p ((k, r) ∷ m) =
    let rest = count_prefixed p m in if starts_with k p then suc rest else rest

unfoldable pub count_by_run : String → InMemoryDedupeStore → ℕ
count_by_run run_id s = count_prefixed run_id s.records_by_key
