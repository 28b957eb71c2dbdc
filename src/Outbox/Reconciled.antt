-- ===== src/Outbox/Reconciled.antt =====
-- The dedupe store after a reconciliation, key by key
-- (agent_kernel/kernel/persistence/dispatch_outbox_reconciler.py).
use agent_kernel.Prelude.{
  ◌≡◌, refl, arith, String, Option, none, some, List, [], ◌∷◌, ◌++◌, Bool, false, ◌||◌, ◌&&◌, not,
  ◌==◌, if◌then◌else◌, eq_iff, Option-cases, Bool-cases, inl, inr, is_some,
}
use agent_kernel.Prelude.Errors.{Outcome, ok, raised}
use agent_kernel.Prelude.Dict.{Dict, lookup}
use agent_kernel.Prelude.Text.{concat}
use agent_kernel.Contracts.{RuntimeEvent, among}
use agent_kernel.Migration.{Migrations}
use agent_kernel.Dedupe.{DedupeRecord, InMemoryDedupeStore, get}
use agent_kernel.Outbox.{
  is_repairable, orphaned_dedupe_key, ConsistencyViolation, has_event, violation_of, violations_of,
  keys_of_run, verify_event_dedupe_consistency, key_or_empty, repair_violation, repair_all,
  apply_repairs, migrated, reconcile,
}
use agent_kernel.Outbox.Repairs.{repaired, repaired_twice, repair_orphaned_key-get}
use text.Mathlib.Text.{starts_with}

-- Whether a violation calls the key an orphan.
abbrev names_orphan : String → ConsistencyViolation → Bool
names_orphan j v = elim v.kind [
  | orphaned_dedupe_key ↦ key_or_empty v.idempotency_key == j
  | _ ↦ false
]

abbrev any_orphan : String → List ConsistencyViolation → Bool
any_orphan j [] = false
any_orphan j (v ∷ vs) = names_orphan j v || any_orphan j vs

any_orphan-append :
    (j : String) (us vs : List ConsistencyViolation)
    → any_orphan j (us ++ vs) ≡ (any_orphan j us || any_orphan j vs)
any_orphan-append j [] vs = refl
any_orphan-append j (u ∷ us) vs = ground (arith, any_orphan-append j us vs)

module _ (j : String) where
  repair_violation-get :
      (v : ConsistencyViolation) (s : InMemoryDedupeStore)
      → get j (repair_violation v s).1 ≡ (if names_orphan j v then repaired (get j s) else get j s)
  unfolding repair_violation
  repair_violation-get v s = ground (
    arith,
    repair_orphaned_key-get (key_or_empty v.idempotency_key) j s v,
    eq_iff (key_or_empty v.idempotency_key) j,
  )

  repair_all-get :
      (vs : List ConsistencyViolation) (s : InMemoryDedupeStore)
      → get j (repair_all vs s).1 ≡ (if any_orphan j vs then repaired (get j s) else get j s)
  unfolding repair_all
  repair_all-get [] s = refl
  repair_all-get (v ∷ vs) s = ground (
    arith,
    repair_violation-get v s,
    repair_all-get vs (repair_violation v s).1,
    repaired_twice (get j s),
  )

  module _ (events : List RuntimeEvent) (s : InMemoryDedupeStore) where
    violation_of-orphan :
        (key : String)
        → any_orphan j (violation_of events s key)
          ≡ ((key == j) && is_some (get j s) && not (has_event j events))
    unfolding violation_of
    violation_of-orphan key = elim (Option-cases (get key s)) [
      | inl absent ↦ ground (arith, absent, eq_iff key j)
      | inr (r, there) ↦ elim (Bool-cases (has_event key events)) [
        | inl b ↦ ground (arith, there, b, eq_iff key j)
        | inr b ↦ ground (arith, there, b, eq_iff key j)
      ]
    ]

    violations_of-orphan :
        (keys : List String)
        → any_orphan j (violations_of events s keys)
          ≡ (among j keys && is_some (get j s) && not (has_event j events))
    unfolding violations_of
    violations_of-orphan [] = refl
    violations_of-orphan (key ∷ keys) = ground (
      arith,
      any_orphan-append j (violation_of events s key) (violations_of events s keys),
      violation_of-orphan key,
      violations_of-orphan keys,
    )

abbrev prefix_of : String → String
prefix_of run_id = concat (run_id ∷ ":" ∷ [])

among-keys_of_run :
    (j run_id : String) (records : Dict DedupeRecord)
    → among j (keys_of_run run_id records)
      ≡ (starts_with j (prefix_of run_id) && is_some (lookup j records))
unfolding keys_of_run lookup
among-keys_of_run j run_id [] = ground arith
among-keys_of_run j run_id ((key, r) ∷ records) =
    ground (arith, among-keys_of_run j run_id records, eq_iff key j)

-- Whether a key is a run's, and no event of the log has it.
abbrev pub is_lost : String → String → Outcome (List RuntimeEvent) → Bool
is_lost run_id j (ok events) = starts_with j (prefix_of run_id) && not (has_event j events)
is_lost run_id j (raised x) = false

report-orphan :
    (run_id j : String) (answer : Outcome (List RuntimeEvent)) (s : InMemoryDedupeStore)
    → any_orphan j (verify_event_dedupe_consistency answer s run_id).violations
      ≡ (is_lost run_id j answer && is_some (get j s))
unfolding verify_event_dedupe_consistency get
report-orphan run_id j (raised x) s = refl
report-orphan run_id j (ok events) s = ground (
  arith,
  violations_of-orphan j events s (keys_of_run run_id s.records_by_key),
  among-keys_of_run j run_id s.records_by_key,
)

-- A reconciliation is this function of every key: a key that starts with the run's id and a colon, and that no
-- event has, is moved from reserved or dispatched to unknown_effect; every other record stays as it was, all of
-- them where the log or the migration of its events raises.
pub reconcile-get :
    (migrator : Option Migrations) (target : Option String) (answer : Outcome (List RuntimeEvent))
    (run_id j : String) (s : InMemoryDedupeStore)
    → get j (reconcile migrator target answer run_id s).1
      ≡ (if is_lost run_id j (migrated migrator target answer) then repaired (get j s) else get j s)
unfolding reconcile apply_repairs
reconcile-get migrator target answer run_id j s =
    let events = migrated migrator target answer in
    let vs = (verify_event_dedupe_consistency events s run_id).violations in
    elim (Option-cases (get j s)) [
      | inl absent ↦ ground (arith, absent, repair_all-get j vs s, report-orphan run_id j events s)
      | inr (r, there) ↦
          ground (arith, there, repair_all-get j vs s, report-orphan run_id j events s)
    ]

abbrev pub is_repairable_record : Option DedupeRecord → Bool
is_repairable_record none = false
is_repairable_record (some r) = is_repairable r.state

repaired-settled : (o : Option DedupeRecord) → is_repairable_record (repaired o) ≡ false
repaired-settled none = refl
repaired-settled (some r) = ground arith

-- After a reconciliation no lost key of the run is left reserved or dispatched, and a second reconciliation with
-- the same events changes no key.
pub reconcile_settles :
    (migrator : Option Migrations) (target : Option String) (answer : Outcome (List RuntimeEvent))
    (run_id j : String) (s : InMemoryDedupeStore)
    → let s' = (reconcile migrator target answer run_id s).1 in
      ((is_lost run_id j (migrated migrator target answer) && is_repairable_record (get j s'))
        ≡ false)
      × (get j (reconcile migrator target answer run_id s').1 ≡ get j s')
reconcile_settles migrator target answer run_id j s =
    let s' = (reconcile migrator target answer run_id s).1 in
    let once = reconcile-get migrator target answer run_id j s in
    let twice = reconcile-get migrator target answer run_id j s' in
    elim (Bool-cases (is_lost run_id j (migrated migrator target answer))) [
      | inl b ↦ (
        ground (arith, b, once, repaired-settled (get j s)),
        ground (arith, b, once, twice, repaired_twice (get j s)),
      )
      | inr b ↦ (ground (arith, b), ground (arith, b, twice))
    ]
