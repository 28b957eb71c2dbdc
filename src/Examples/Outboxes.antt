-- ===== src/Examples/Outboxes.antt =====
-- A reconciliation of a run with one key that no event has, one that an event has, and one of the form that the
-- engine makes.
use agent_kernel.Prelude.{◌≡◌, refl, String, List, [], ◌∷◌, none, some, false, ◌&&◌, if◌then◌else◌}
use agent_kernel.Prelude.Errors.{Outcome, ok}
use agent_kernel.Prelude.Dict.{lookup, insert}
use agent_kernel.Contracts.{RuntimeEvent}
use agent_kernel.Dedupe.{
  DedupeRecord, InMemoryDedupeStore, dispatched_record, get, mark_dispatched, mark_unknown_effect,
  get_required_record,
}
use agent_kernel.Outbox.{
  reconcile, migrated, ActionTaken, ViolationKind, action, violation_of, violations_of, keys_of_run,
  has_event, repair_all, repair_violation, repair_orphaned_key,
}
use agent_kernel.Outbox.Repairs.{repaired}
use agent_kernel.Outbox.Reconciled.{is_lost, is_repairable_record, reconcile-get, reconcile_settles}
use agent_kernel.Examples.Values.{first_envelope}
use agent_kernel.Examples.Migrations.{versions, first_version}

abbrev keyed : String → DedupeRecord
keyed key = dispatched_record (record first_envelope { dispatch_idempotency_key = key }) none

abbrev three_keys : InMemoryDedupeStore
three_keys = record {
  records_by_key =
      ("r1:a1:1", keyed "r1:a1:1")
      ∷ ("r1:a2:2", keyed "r1:a2:2")
      ∷ ("dispatch:r1:a3:h", keyed "dispatch:r1:a3:h")
      ∷ [];
}

abbrev noted : RuntimeEvent
noted = record first_version { idempotency_key = some "r1:a2:2" }

abbrev answer : Outcome (List RuntimeEvent)
answer = ok (noted ∷ first_version ∷ [])

only_orphan_repaired :
    (reconcile none none answer "r1" three_keys).0.actions
    ≡ action "r1:a1:1" ViolationKind.orphaned_dedupe_key ActionTaken.marked_unknown_effect ∷ []
unfolding reconcile violations_of keys_of_run violation_of has_event repair_all repair_violation
    repair_orphaned_key get mark_dispatched mark_unknown_effect get_required_record lookup insert
only_orphan_repaired = refl

reconcile-get_example :
    get "r1:a1:1" (reconcile (some versions) (some "4") answer "r1" three_keys).1 ≡ (
      if is_lost "r1" "r1:a1:1" (migrated (some versions) (some "4") answer)
      then repaired (get "r1:a1:1" three_keys)
      else get "r1:a1:1" three_keys)
reconcile-get_example = reconcile-get (some versions) (some "4") answer "r1" "r1:a1:1" three_keys

reconcile_settles_example :
    let s' = (reconcile none none answer "r1" three_keys).1 in
    ((is_lost "r1" "r1:a1:1" (migrated none none answer) && is_repairable_record (get "r1:a1:1" s'))
      ≡ false)
    × (get "r1:a1:1" (reconcile none none answer "r1" s').1 ≡ get "r1:a1:1" s')
reconcile_settles_example = reconcile_settles none none answer "r1" "r1:a1:1" three_keys
