-- ===== src/Examples/Ledger.antt =====
-- Calls of the store of agent_kernel/kernel/dedupe_store.py.
use agent_kernel.Prelude.{◌≡◌, refl, ◌≤◌, none, some, List, [], ◌∷◌}
use agent_kernel.Prelude.Errors.{raised, dedupe_store_state_error}
use agent_kernel.Dedupe.{
  DedupeState, InMemoryDedupeStore, empty_store, get, mark_unknown_effect, reserve_and_dispatch,
  reserve, mark_dispatched, mark_acknowledged, mark_succeeded,
}
use agent_kernel.Prelude.Dict.{lookup, insert}
use agent_kernel.Dedupe.Transitions.{
  Op, reserve_op, reserve_and_dispatch_op, mark_dispatched_op, mark_acknowledged_op,
  mark_succeeded_op, mark_unknown_effect_op, after, run, state_of, slot, ◌⟶◌, get-after, after-⟶,
}
use agent_kernel.Dedupe.Reservation.{count_grants, count_grants-le}
use agent_kernel.Examples.Values.{first_envelope}

abbrev life : List Op
life =
    reserve_op first_envelope
    ∷ mark_dispatched_op "k1" none
    ∷ reserve_and_dispatch_op first_envelope none
    ∷ mark_acknowledged_op "k1" (some "ack-1")
    ∷ mark_unknown_effect_op "k1"
    ∷ mark_succeeded_op "k1" none
    ∷ []

-- The key after its whole life.
abbrev settled_store : InMemoryDedupeStore
settled_store = run life empty_store

life_runs : state_of (get "k1" settled_store) ≡ some DedupeState.succeeded
unfolding get reserve reserve_and_dispatch mark_dispatched mark_acknowledged mark_succeeded
    mark_unknown_effect lookup insert
life_runs = refl

late_loss_raises : (mark_unknown_effect "k1" settled_store).0 ≡ raised dedupe_store_state_error
unfolding get reserve reserve_and_dispatch mark_dispatched mark_acknowledged mark_succeeded
    mark_unknown_effect lookup insert
late_loss_raises = refl

count_grants-le_example : count_grants "k1" life empty_store ≤ 1
unfolding get lookup
count_grants-le_example = count_grants-le "k1" life empty_store

get-after_example :
    get "k1" (after (mark_unknown_effect_op "k1") settled_store)
    ≡ slot (mark_unknown_effect_op "k1") (get "k1" settled_store)
get-after_example = get-after (mark_unknown_effect_op "k1") "k1" settled_store

after-⟶_example :
    state_of (get "k1" settled_store)
    ⟶ state_of (get "k1" (after (mark_unknown_effect_op "k1") settled_store))
after-⟶_example = after-⟶ (mark_unknown_effect_op "k1") "k1" settled_store

free_key : get "k1" empty_store ≡ none
unfolding get lookup
free_key = refl
