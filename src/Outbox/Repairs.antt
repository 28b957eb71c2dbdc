-- ===== src/Outbox/Repairs.antt =====
-- What one repair does to the dedupe store
-- (agent_kernel/kernel/persistence/dispatch_outbox_reconciler.py).
use agent_kernel.Prelude.{
  ◌≡◌, refl, arith, String, Option, none, some, true, ◌==◌, if◌then◌else◌, eq_iff, eq_refl,
  Option-cases, Bool-cases, inl, inr,
}
use agent_kernel.Prelude.Errors.{ok, raised, dedupe_store_state_error}
use agent_kernel.Dedupe.{
  DedupeState, DedupeRecord, InMemoryDedupeStore, get, mark_dispatched, mark_unknown_effect, write,
}
use agent_kernel.Dedupe.Transitions.{get-write}
use agent_kernel.Outbox.{ConsistencyViolation, is_repairable, mark_lost, repair_orphaned_key}

-- A record after the repair of its key.
abbrev pub repaired : Option DedupeRecord → Option DedupeRecord
repaired none = none
repaired (some r) =
    some (if is_repairable r.state then record r { state = DedupeState.unknown_effect } else r)

pub repaired_twice : (o : Option DedupeRecord) → repaired (repaired o) ≡ repaired o
repaired_twice none = refl
repaired_twice (some r) = ground arith

module _ (key : String) (s : InMemoryDedupeStore) where
  mark_dispatched-reserved :
      (r : DedupeRecord)
      → get key s ≡ some r
      → r.state ≡ DedupeState.reserved
      → mark_dispatched key none s
        ≡ (ok tt, write key (record r { state = DedupeState.dispatched }) s)
  unfolding mark_dispatched
  mark_dispatched-reserved r h e = ground (arith, h, e)

  mark_unknown_effect-dispatched :
      (r : DedupeRecord)
      → get key s ≡ some r
      → r.state ≡ DedupeState.dispatched
      → mark_unknown_effect key s
        ≡ (ok tt, write key (record r { state = DedupeState.unknown_effect }) s)
  unfolding mark_unknown_effect
  mark_unknown_effect-dispatched r h e = ground (arith, h, e)

  mark_dispatched-absent :
      get key s ≡ none → mark_dispatched key none s ≡ (raised dedupe_store_state_error, s)
  unfolding mark_dispatched
  mark_dispatched-absent h = ground (arith, h)

  mark_unknown_effect-absent :
      get key s ≡ none → mark_unknown_effect key s ≡ (raised dedupe_store_state_error, s)
  unfolding mark_unknown_effect
  mark_unknown_effect-absent h = ground (arith, h)

  mark_lost-absent :
      (state : DedupeState)
      → get key s ≡ none
      → mark_lost state key s ≡ (raised dedupe_store_state_error, s)
  mark_lost-absent state h = ground (arith, mark_dispatched-absent h, mark_unknown_effect-absent h)

module _ (key j : String) (s : InMemoryDedupeStore) where
  -- From a record that can be repaired, the two transitions leave it in unknown_effect.
  mark_lost-get :
      (r : DedupeRecord)
      → get key s ≡ some r
      → is_repairable r.state ≡ true
      → get j (mark_lost r.state key s).1 ≡ (if key == j then repaired (get key s) else get j s)
  mark_lost-get r h ok_state =
      let dispatched = record r { state = DedupeState.dispatched } in
      let unknown = record r { state = DedupeState.unknown_effect } in
      let s' = write key dispatched s in
      ground (
        arith,
        h,
        mark_dispatched-reserved key s r h,
        mark_unknown_effect-dispatched key s r h,
        mark_unknown_effect-dispatched key s' dispatched,
        get-write key key dispatched s,
        get-write key j unknown s,
        get-write key j dispatched s,
        get-write key j unknown s',
        eq_refl key,
        ok_state,
      )

  pub repair_orphaned_key-get :
      (v : ConsistencyViolation)
      → get j (repair_orphaned_key key v s).1 ≡ (if key == j then repaired (get key s) else get j s)
  unfolding repair_orphaned_key
  repair_orphaned_key-get v = elim (Option-cases (get key s)) [
    | inl absent ↦ elim (Option-cases v.dedupe_state) [
      | inl unknown ↦ ground (arith, absent, unknown, eq_iff key j)
      | inr (state, known) ↦
          ground (arith, absent, known, mark_lost-absent key s state absent, eq_iff key j)
    ]
    | inr (r, there) ↦ elim (Bool-cases (is_repairable r.state)) [
      | inl b ↦ ground (arith, there, b, mark_lost-get r there b)
      | inr b ↦ ground (arith, there, b, eq_iff key j)
    ]
  ]
