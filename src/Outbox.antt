-- ===== src/Outbox.antt =====
-- The check of the event log against the dedupe store (agent_kernel/kernel/persistence/consistency.py), and the
-- reconciler that repairs the store (dispatch_outbox_reconciler.py beside it), over the in-memory store. The
-- texts for people (`detail`) are left out.
pub mod Repairs
pub mod Reconciled
use agent_kernel.Prelude.{
  ℕ, suc, ◌+◌, String, Option, none, some, List, [], ◌∷◌, ◌++◌, Bool, true, false, not, ◌&&◌, ◌||◌,
  ◌==◌, if◌then◌else◌, length, map,
}
use agent_kernel.Prelude.Errors.{Outcome, ok, raised, Exec, ◌>>=◌, ◌>>◌}
use agent_kernel.Prelude.Dict.{Dict}
use agent_kernel.Prelude.Text.{concat}
use agent_kernel.Contracts.{RuntimeEvent, among}
use agent_kernel.Dedupe.{
  DedupeState, DedupeRecord, InMemoryDedupeStore, get, mark_dispatched, mark_unknown_effect,
}
use agent_kernel.Migration.{Migrations, migrate_batch}
use text.Mathlib.Text.{starts_with}

pub data ViolationKind : Type 0 where
  orphaned_dedupe_key unknown_effect_no_log_evidence event_log_unavailable : ViolationKind

pub record ConsistencyViolation : Type 0 where
  pub kind : ViolationKind
  pub idempotency_key : Option String
  pub dedupe_state : Option DedupeState
  pub event_count : Option ℕ

pub record ConsistencyReport : Type 0 where
  pub run_id : String
  pub violations : List ConsistencyViolation
  pub events_checked : ℕ
  pub dedupe_keys_checked : ℕ

abbrev pub is_consistent : ConsistencyReport → Bool
is_consistent r = elim r.violations [ [] ↦ true | v ∷ vs ↦ false ]

-- Whether a text that is there is this key; the empty text counts as absent.
abbrev pub is_key : String → Option String → Bool
is_key key none = false
is_key key (some k) = if k == "" then false else k == key

-- `key in event_idempotency_keys`
unfoldable pub has_event : String → List RuntimeEvent → Bool
has_event key [] = false
has_event key (e ∷ events) = is_key key e.idempotency_key || has_event key events

-- `event_types_by_key.get(key, set())`, as a list without duplicates
unfoldable pub types_of : String → List RuntimeEvent → List String
types_of key [] = []
types_of key (e ∷ events) =
    let rest = types_of key events in
    if is_key key e.idempotency_key && not (e.event_type == "") && not (among e.event_type rest)
    then e.event_type ∷ rest
    else rest

-- The types that show a dispatch.
unfoldable pub has_dispatch_evidence : List String → Bool
has_dispatch_evidence types =
    among "turn.dispatched" types
    || among "turn.effect_unknown" types
    || among "turn.effect_recorded" types

abbrev pub orphan : String → DedupeState → ConsistencyViolation
orphan key state = record {
  kind = ViolationKind.orphaned_dedupe_key;
  idempotency_key = some key;
  dedupe_state = some state;
  event_count = some 0;
}

abbrev pub unseen_effect : String → ℕ → ConsistencyViolation
unseen_effect key count = record {
  kind = ViolationKind.unknown_effect_no_log_evidence;
  idempotency_key = some key;
  dedupe_state = some DedupeState.unknown_effect;
  event_count = some count;
}

abbrev is_unknown : DedupeState → Bool
is_unknown DedupeState.unknown_effect = true
is_unknown _ = false

-- The violation of one key, if any.
unfoldable pub violation_of :
    List RuntimeEvent → InMemoryDedupeStore → String → List ConsistencyViolation
unfolding has_event types_of has_dispatch_evidence
violation_of events s key = elim (get key s) [
  | none ↦ []
  | some r ↦
      if not (has_event key events)
      then orphan key r.state ∷ []
      else if is_unknown r.state && not (has_dispatch_evidence (types_of key events))
      then unseen_effect key (length (types_of key events)) ∷ []
      else []
]

unfoldable pub violations_of :
    List RuntimeEvent → InMemoryDedupeStore → List String → List ConsistencyViolation
unfolding violation_of
violations_of events s [] = []
violations_of events s (key ∷ keys) = violation_of events s key ++ violations_of events s keys

-- `_collect_dedupe_keys`: the keys that start with the run's id and a colon.
unfoldable pub keys_of_run : String → Dict DedupeRecord → List String
keys_of_run run_id [] = []
keys_of_run run_id ((key, r) ∷ records) =
    let rest = keys_of_run run_id records in
    if starts_with key (concat (run_id ∷ ":" ∷ [])) then key ∷ rest else rest

abbrev pub collect_dedupe_keys : InMemoryDedupeStore → String → List String
collect_dedupe_keys s run_id = keys_of_run run_id s.records_by_key

abbrev pub unavailable : ConsistencyViolation
unavailable = record {
  kind = ViolationKind.event_log_unavailable;
  idempotency_key = none;
  dedupe_state = none;
  event_count = none;
}

-- `_detect_violations` after the events are loaded; `verify_event_dedupe_consistency` and its async variant differ
-- in how they load.
unfoldable pub verify_event_dedupe_consistency :
    Outcome (List RuntimeEvent) → InMemoryDedupeStore → String → ConsistencyReport
unfolding violations_of keys_of_run
verify_event_dedupe_consistency (raised x) s run_id = record {
  run_id = run_id;
  violations = unavailable ∷ [];
  events_checked = 0;
  dedupe_keys_checked = 0;
}
verify_event_dedupe_consistency (ok events) s run_id =
    let keys = collect_dedupe_keys s run_id in
    record {
      run_id = run_id;
      violations = violations_of events s keys;
      events_checked = length events;
      dedupe_keys_checked = length keys;
    }

pub data ActionTaken : Type 0 where
  marked_unknown_effect logged_for_review skipped : ActionTaken

pub record ReconciliationAction : Type 0 where
  pub idempotency_key : String
  pub violation_kind : ViolationKind
  pub action_taken : ActionTaken

pub record ReconciliationResult : Type 0 where
  pub run_id : String
  pub actions : List ReconciliationAction
  pub violations_found : ℕ
  pub violations_repaired : ℕ

-- `_REPAIRABLE_STATES`; the states of `_TERMINAL_STATES` and all others are skipped.
abbrev pub is_repairable : DedupeState → Bool
is_repairable DedupeState.reserved = true
is_repairable DedupeState.dispatched = true
is_repairable _ = false

abbrev is_reserved : DedupeState → Bool
is_reserved DedupeState.reserved = true
is_reserved _ = false

abbrev pub action : String → ViolationKind → ActionTaken → ReconciliationAction
action key kind taken = record {
  idempotency_key = key;
  violation_kind = kind;
  action_taken = taken;
}

-- `record.state if record is not None else violation.dedupe_state`
abbrev pub current_state : Option DedupeRecord → ConsistencyViolation → Option DedupeState
current_state none v = v.dedupe_state
current_state (some r) v = some r.state

-- The transitions of the `try` block.
abbrev pub mark_lost : DedupeState → String → Exec InMemoryDedupeStore (Unit {0})
mark_lost state key =
    if is_reserved state
    then mark_dispatched key none >> mark_unknown_effect key
    else mark_unknown_effect key

-- What follows them: an error of the store is skipped.
abbrev lost :
    String → Outcome (Unit {0}) × InMemoryDedupeStore → ReconciliationAction × InMemoryDedupeStore
lost key (ok u, s) =
    (action key ViolationKind.orphaned_dedupe_key ActionTaken.marked_unknown_effect, s)
lost key (raised x, s) = (action key ViolationKind.orphaned_dedupe_key ActionTaken.skipped, s)

abbrev passed_over : String → InMemoryDedupeStore → ReconciliationAction × InMemoryDedupeStore
passed_over key s = (action key ViolationKind.orphaned_dedupe_key ActionTaken.skipped, s)

unfoldable pub repair_orphaned_key :
    String → ConsistencyViolation → InMemoryDedupeStore → ReconciliationAction × InMemoryDedupeStore
repair_orphaned_key key v s = elim (current_state (get key s) v) [
  | none ↦ passed_over key s
  | some state ↦ if is_repairable state then lost key (mark_lost state key s) else passed_over key s
]

abbrev pub key_or_empty : Option String → String
key_or_empty none = ""
key_or_empty (some key) = key

unfoldable pub repair_violation :
    ConsistencyViolation → InMemoryDedupeStore → ReconciliationAction × InMemoryDedupeStore
unfolding repair_orphaned_key
repair_violation v s =
    let key = key_or_empty v.idempotency_key in
    elim v.kind [
      | orphaned_dedupe_key ↦ repair_orphaned_key key v s
      | unknown_effect_no_log_evidence ↦ (action key v.kind ActionTaken.logged_for_review, s)
      | event_log_unavailable ↦ (action key v.kind ActionTaken.skipped, s)
    ]

unfoldable pub repair_all :
    List ConsistencyViolation
    → InMemoryDedupeStore
    → List ReconciliationAction × InMemoryDedupeStore
unfolding repair_violation
repair_all [] s = ([], s)
repair_all (v ∷ vs) s =
    let (taken, s') = repair_violation v s in
    let (actions, s'') = repair_all vs s' in (taken ∷ actions, s'')

-- The actions that are not `"skipped"`, counted.
abbrev pub count_repaired : List ReconciliationAction → ℕ
count_repaired [] = 0
count_repaired (a ∷ actions) =
    let rest = count_repaired actions in
    elim a.action_taken [
      | marked_unknown_effect ↦ suc rest
      | logged_for_review ↦ suc rest
      | skipped ↦ rest
    ]

unfoldable pub apply_repairs :
    ConsistencyReport → InMemoryDedupeStore → ReconciliationResult × InMemoryDedupeStore
unfolding repair_all
apply_repairs report s =
    let (actions, s') = repair_all report.violations s in
    (
      record {
        run_id = report.run_id;
        actions = actions;
        violations_found = length report.violations;
        violations_repaired = count_repaired actions;
      },
      s',
    )

-- `_event_log_with_schema_migration`, on what the log answers.
abbrev pub migrated :
    Option Migrations → Option String → Outcome (List RuntimeEvent) → Outcome (List RuntimeEvent)
migrated (some ms) (some target) (ok events) = migrate_batch ms target events
migrated _ _ answer = answer

-- `reconcile` of a run, with what the log answers to `load` for it.
unfoldable pub reconcile :
    Option Migrations
    → Option String
    → Outcome (List RuntimeEvent)
    → String
    → InMemoryDedupeStore
    → ReconciliationResult × InMemoryDedupeStore
unfolding verify_event_dedupe_consistency apply_repairs
reconcile migrator target answer run_id s =
    apply_repairs (verify_event_dedupe_consistency (migrated migrator target answer) s run_id) s

-- The events of a run among all of a log, as `reconcile_sync` takes them.
unfoldable pub of_run : String → List RuntimeEvent → List RuntimeEvent
of_run run_id [] = []
of_run run_id (e ∷ events) =
    let rest = of_run run_id events in if e.run_id == run_id then e ∷ rest else rest

abbrev pub narrowed : String → Outcome (List RuntimeEvent) → Outcome (List RuntimeEvent)
narrowed run_id (ok events) = ok (of_run run_id events)
narrowed run_id (raised x) = raised x

-- `reconcile_sync` over a log with `list_events`, with what that answers.
unfoldable pub reconcile_sync :
    Option Migrations
    → Option String
    → Outcome (List RuntimeEvent)
    → String
    → InMemoryDedupeStore
    → ReconciliationResult × InMemoryDedupeStore
unfolding verify_event_dedupe_consistency apply_repairs of_run
reconcile_sync migrator target answer run_id s =
    apply_repairs
      (verify_event_dedupe_consistency (narrowed run_id (migrated migrator target answer)) s run_id)
      s

-- One sweep of the scheduler over the runs that it discovered, with what the log answers for each.
unfoldable pub reconcile_runs :
    Option Migrations
    → Option String
    → (String → Outcome (List RuntimeEvent))
    → List String
    → InMemoryDedupeStore
    → (ℕ × ℕ) × InMemoryDedupeStore
unfolding reconcile
reconcile_runs migrator target load [] s = ((0, 0), s)
reconcile_runs migrator target load (run_id ∷ run_ids) s =
    let (result, s') = reconcile migrator target (load run_id) run_id s in
    let ((found, repaired), s'') = reconcile_runs migrator target load run_ids s' in
    ((result.violations_found + found, result.violations_repaired + repaired), s'')

pub record ScheduledReconciliationResult : Type 0 where
  pub scanned_run_ids : List String
  pub violations_found : ℕ
  pub violations_repaired : ℕ
  pub finished_at_ms : ℕ

unfoldable pub reconcile_once :
    Option Migrations
    → Option String
    → (String → Outcome (List RuntimeEvent))
    → List String
    → ℕ
    → InMemoryDedupeStore
    → ScheduledReconciliationResult × InMemoryDedupeStore
unfolding reconcile_runs
reconcile_once migrator target load run_ids now s =
    let ((found, repaired), s') = reconcile_runs migrator target load run_ids s in
    (
      record {
        scanned_run_ids = run_ids;
        violations_found = found;
        violations_repaired = repaired;
        finished_at_ms = now;
      },
      s',
    )
