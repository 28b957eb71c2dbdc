-- ===== src/Dedupe/Transitions.antt =====
-- The lifecycle of one dispatch key under any calls of the store's methods
-- (agent_kernel/kernel/dedupe_store.py, the transition graph of InMemoryDedupeStore).
use agent_kernel.Prelude.{
  ℕ, String, ◌≡◌, refl, ◌⊎◌, inl, inr, Option, none, some, List, [], ◌∷◌, Bool, true, false, arith,
  eq_iff, ◌==◌, if◌then◌else◌, Option-cases, or_else, ◌<◌, Bool-cases,
}
use agent_kernel.Prelude.Errors.{◌>>=◌}
use agent_kernel.Prelude.Dict.{lookup-insert}
use agent_kernel.Prelude.Text.{or_text}
use agent_kernel.Dedupe.{
  DedupeState, IdempotencyEnvelope, DedupeRecord, InMemoryDedupeStore, get, get_required_record,
  reserve, mark_dispatched, mark_acknowledged, mark_succeeded, mark_unknown_effect,
  reserve_and_dispatch, transition, write, may_dispatch, may_acknowledge, may_succeed, may_lose,
  reserved_record, dispatched_record,
}

-- One call of a method that may change the store.
pub data Op : Type 0 where
  reserve_op : IdempotencyEnvelope → Op
  reserve_and_dispatch_op : IdempotencyEnvelope → Option String → Op
  mark_dispatched_op : String → Option String → Op
  mark_acknowledged_op : String → Option String → Op
  mark_succeeded_op : String → Option String → Op
  mark_unknown_effect_op : String → Op

-- The store after a call, whether it returned or raised.
abbrev pub after : Op → InMemoryDedupeStore → InMemoryDedupeStore
after (reserve_op e) s = (reserve e s).1
after (reserve_and_dispatch_op e p) s = (reserve_and_dispatch e p s).1
after (mark_dispatched_op k p) s = (mark_dispatched k p s).1
after (mark_acknowledged_op k r) s = (mark_acknowledged k r s).1
after (mark_succeeded_op k r) s = (mark_succeeded k r s).1
after (mark_unknown_effect_op k) s = (mark_unknown_effect k s).1

abbrev pub run : List Op → InMemoryDedupeStore → InMemoryDedupeStore
run [] s = s
run (op ∷ ops) s = run ops (after op s)

-- The state of a key; `none` while the store has no record of it.
abbrev pub state_of : Option DedupeRecord → Option DedupeState
state_of none = none
state_of (some r) = some r.state

-- The transition graph.
infix 40 ◌⟶◌
pub data ◌⟶◌ : Option DedupeState → Option DedupeState → Type 0 where
  stay : {x : Option DedupeState} → x ⟶ x
  reserved_first : none ⟶ some DedupeState.reserved
  dispatched_at_once : none ⟶ some DedupeState.dispatched
  dispatched_after : some DedupeState.reserved ⟶ some DedupeState.dispatched
  acked : some DedupeState.dispatched ⟶ some DedupeState.acknowledged
  lost : some DedupeState.dispatched ⟶ some DedupeState.unknown_effect
  confirmed : some DedupeState.acknowledged ⟶ some DedupeState.succeeded

ruleset edges = (stay, reserved_first, dispatched_at_once, dispatched_after, acked, lost, confirmed)

-- The key that a call is about.
abbrev pub target : Op → String
target (reserve_op e) = e.dispatch_idempotency_key
target (reserve_and_dispatch_op e p) = e.dispatch_idempotency_key
target (mark_dispatched_op k p) = k
target (mark_acknowledged_op k r) = k
target (mark_succeeded_op k r) = k
target (mark_unknown_effect_op k) = k

-- A `mark_` call on one key: the record is replaced if its state allows it.
abbrev pub revised :
    (DedupeRecord → Bool)
    → (DedupeRecord → DedupeRecord)
    → Option DedupeRecord
    → Option DedupeRecord
revised allowed change none = none
revised allowed change (some r) = some (if allowed r then change r else r)

-- What a call does to its key's record, apart from the store: the specification of one key.
abbrev pub slot : Op → Option DedupeRecord → Option DedupeRecord
slot (reserve_op e) o = or_else o (some (reserved_record e))
slot (reserve_and_dispatch_op e p) o = or_else o (some (dispatched_record e p))
slot (mark_dispatched_op k p) o =
    revised (λ r. may_dispatch r.state)
      (λ r. record r {
        state = DedupeState.dispatched;
        peer_operation_id = or_text p r.peer_operation_id;
      })
      o
slot (mark_acknowledged_op k a) o =
    revised (λ r. may_acknowledge r.state)
      (λ r. record r {
        state = DedupeState.acknowledged;
        external_ack_ref = or_text a r.external_ack_ref;
      })
      o
slot (mark_succeeded_op k a) o =
    revised (λ r. may_succeed r.state)
      (λ r. record r {
        state = DedupeState.succeeded;
        external_ack_ref = or_text a r.external_ack_ref;
      })
      o
slot (mark_unknown_effect_op k) o =
    revised (λ r. may_lose r.state) (λ r. record r { state = DedupeState.unknown_effect }) o

pub get-write :
    (k j : String) (r : DedupeRecord) (s : InMemoryDedupeStore)
    → get j (write k r s) ≡ (if k == j then some r else get j s)
unfolding get
get-write k j r s = lookup-insert k j r s.records_by_key

-- The four `mark_` methods have one shape.
get-mark :
    (allowed : DedupeRecord → Bool) (change : DedupeRecord → DedupeRecord) (k j : String)
    (s : InMemoryDedupeStore)
    → get j ((get_required_record k >>= λ r. transition (allowed r) k (change r)) s).1
      ≡ (if k == j then revised allowed change (get j s) else get j s)
unfolding get_required_record
get-mark allowed change k j s = elim (Option-cases (get k s)) [
  | inl absent ↦ ground (arith, eq_iff k j)
  | inr (r, found) ↦ ground (arith, eq_iff k j, get-write k j (change r) s)
]

-- The store is a map of independent keys: a call acts on its own key as `slot` says, and leaves
-- what every other key holds as it was.
pub get-after :
    (op : Op) (j : String) (s : InMemoryDedupeStore)
    → get j (after op s) ≡ (if target op == j then slot op (get j s) else get j s)
unfolding reserve reserve_and_dispatch mark_dispatched mark_acknowledged mark_succeeded
    mark_unknown_effect
get-after (reserve_op e) j s = ground (
  arith,
  get-write e.dispatch_idempotency_key j (reserved_record e) s,
  eq_iff e.dispatch_idempotency_key j,
)
get-after (reserve_and_dispatch_op e p) j s = ground (
  arith,
  get-write e.dispatch_idempotency_key j (dispatched_record e p) s,
  eq_iff e.dispatch_idempotency_key j,
)
get-after (mark_dispatched_op k p) j s = get-mark _ _ k j s
get-after (mark_acknowledged_op k a) j s = get-mark _ _ k j s
get-after (mark_succeeded_op k a) j s = get-mark _ _ k j s
get-after (mark_unknown_effect_op k) j s = get-mark _ _ k j s

slot-⟶ : (op : Op) (o : Option DedupeRecord) → state_of o ⟶ state_of (slot op o)
slot-⟶ (reserve_op e) none = reserved_first
slot-⟶ (reserve_and_dispatch_op e p) none = dispatched_at_once
slot-⟶ (mark_dispatched_op k p) (some r) = grind (arith, edges)
slot-⟶ (mark_acknowledged_op k a) (some r) = grind (arith, edges)
slot-⟶ (mark_succeeded_op k a) (some r) = grind (arith, edges)
slot-⟶ (mark_unknown_effect_op k) (some r) = grind (arith, edges)
slot-⟶ _ _ = stay

-- Whatever the call and the key, the key's state stays or follows an edge of the graph.
pub after-⟶ :
    (op : Op) (j : String) (s : InMemoryDedupeStore)
    → state_of (get j s) ⟶ state_of (get j (after op s))
after-⟶ op j s = elim (Bool-cases (target op == j)) [
  | inl hit ↦ rw (get-after op j s, hit) (slot-⟶ op (get j s))
  | inr miss ↦ rw (get-after op j s, miss) stay
]

-- How far along the graph a state is; the states of a key are told apart by it.
abbrev pub rank : Option DedupeState → ℕ
rank none = 0
rank (some DedupeState.reserved) = 1
rank (some DedupeState.dispatched) = 2
rank (some DedupeState.acknowledged) = 3
rank (some DedupeState.succeeded) = 4
rank (some DedupeState.unknown_effect) = 5

rank-⟶ : {x y : Option DedupeState} → x ⟶ y → (x ≡ y) ⊎ (rank x < rank y)
rank-⟶ stay = inl refl
rank-⟶ _ = inr (omega arith)

-- A key's state never goes back: after any calls it is the state it was, or one of a higher rank.
pub run-rank :
    (ops : List Op) (j : String) (s : InMemoryDedupeStore)
    → (state_of (get j s) ≡ state_of (get j (run ops s)))
      ⊎ (rank (state_of (get j s)) < rank (state_of (get j (run ops s))))
run-rank [] j s = inl refl
run-rank (op ∷ ops) j s = ground (arith, rank-⟶ (after-⟶ op j s), run-rank ops j (after op s))

abbrev pub is_terminal : DedupeState → Bool
is_terminal DedupeState.succeeded = true
is_terminal DedupeState.unknown_effect = true
is_terminal _ = false

terminal-⟶ :
    {x y : Option DedupeState} (d : DedupeState)
    → is_terminal d ≡ true
    → x ≡ some d
    → x ⟶ y
    → y ≡ some d
terminal-⟶ d t e stay = e
terminal-⟶ d t e _ = ground arith

-- `succeeded` and `unknown_effect` are final: no later calls, of any methods, change them.
pub run_terminal :
    (ops : List Op) (j : String) (s : InMemoryDedupeStore) (d : DedupeState)
    → is_terminal d ≡ true
    → state_of (get j s) ≡ some d
    → state_of (get j (run ops s)) ≡ some d
run_terminal [] j s d t h = h
run_terminal (op ∷ ops) j s d t h =
    run_terminal ops j (after op s) d t (terminal-⟶ d t h (after-⟶ op j s))
