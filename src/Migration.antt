-- ===== src/Migration.antt =====
-- EventSchemaMigrator (agent_kernel/kernel/persistence/event_schema_migration.py): the registered migrations,
-- the breadth-first search for a path between versions, and the migration of an event along it.
pub mod Walk
pub mod Search
pub mod Paths
pub mod Offsets
use agent_kernel.Prelude.{
  ℕ, zero, suc, ◌+◌, String, Option, none, some, List, [], ◌∷◌, ◌++◌, Bool, true, false, not, ◌||◌,
  ◌&&◌, ◌==◌, if◌then◌else◌, is_some, length,
}
use agent_kernel.Prelude.Errors.{
  Outcome, ok, raised, value_error, key_error, schema_migration_error,
}
use agent_kernel.Prelude.Dict.{Dict, lookup, insert}
use agent_kernel.Prelude.Json.{Value, Fields, end, field, get_or}
use agent_kernel.Contracts.{RuntimeEvent}
use mathlib.Core.List.{reverse}

-- One item of `_migrations`: the pair of versions that is its key, and the function.
pub record Migration : Type 0 where
  pub from_version : String
  pub to_version : String
  pub fn : RuntimeEvent → RuntimeEvent

-- `_migrations`, in the order of insertion.
abbrev pub Migrations : Type 0
Migrations = List Migration

abbrev pub is_edge : String → String → Migration → Bool
is_edge src dst m = m.from_version == src && m.to_version == dst

-- `_migrations[(src, dst)]`
unfoldable pub find_migration : String → String → Migrations → Option (RuntimeEvent → RuntimeEvent)
find_migration src dst [] = none
find_migration src dst (m ∷ ms) = if is_edge src dst m then some m.fn else find_migration src dst ms

-- `_migrations[(src, dst)] = fn`
unfoldable pub put_migration : Migration → Migrations → Migrations
put_migration n [] = n ∷ []
put_migration n (m ∷ ms) =
    let rest = m ∷ put_migration n ms in
    if is_edge n.from_version n.to_version m then n ∷ ms else rest

unfoldable pub register_migration : Migration → Migrations → Outcome Migrations
unfolding put_migration
register_migration n ms =
    if n.from_version == n.to_version then raised value_error else ok (put_migration n ms)

-- The variables of the search.
pub record Frontier : Type 0 where
  pub queue : List String
  pub parent : Dict (Option String)
  pub edge_to : Dict (String × String)

-- One registered edge seen from `current`.
abbrev pub visit : String → Migration → Frontier → Frontier
visit current m f =
    if not (m.from_version == current) || is_some (lookup m.to_version f.parent)
    then f
    else record {
      queue = f.queue ++ (m.to_version ∷ []);
      parent = insert m.to_version (some current) f.parent;
      edge_to = insert m.to_version (m.from_version, m.to_version) f.edge_to;
    }

unfoldable pub visit_all : String → Migrations → Frontier → Frontier
visit_all current [] f = f
visit_all current (m ∷ ms) f = visit_all current ms (visit current m f)

-- The loop `while queue`, on fuel.
unfoldable pub search : Migrations → String → ℕ → Frontier → Frontier
unfolding visit_all
search ms target zero f = f
search ms target (suc fuel) f = elim f.queue [
  | [] ↦ f
  | current ∷ waiting ↦
      let f' = record f { queue = waiting } in
      let rest = search ms target fuel (visit_all current ms f') in
      if current == target then f' else rest
]

abbrev pub extended :
    String × String → Outcome (List (String × String)) → Outcome (List (String × String))
extended edge (ok edges) = ok (edge ∷ edges)
extended edge (raised x) = raised x

-- The loop `while node != from_version`, on fuel: the edges from the target back.
unfoldable pub walk_back : String → Frontier → ℕ → String → Outcome (List (String × String))
walk_back from_version f zero node = raised key_error
walk_back from_version f (suc fuel) node = elim (node == from_version) [
  | true ↦ ok []
  | false ↦ elim (lookup node f.edge_to) [
    | none ↦ raised key_error
    | some edge ↦ elim (lookup node f.parent) [
      | some (some before) ↦ extended edge (walk_back from_version f fuel before)
      | some none ↦ raised key_error
      | none ↦ raised key_error
    ]
  ]
]

abbrev pub start : String → Frontier
start from_version = record {
  queue = from_version ∷ [];
  parent = (from_version, none) ∷ [];
  edge_to = [];
}

-- The search visits every version once, so there are no more rounds than versions.
abbrev pub searched : Migrations → String → String → Frontier
searched ms from_version target = search ms target (length ms + 1) (start from_version)

abbrev reversed : Outcome (List (String × String)) → Outcome (List (String × String))
reversed (ok edges) = ok (reverse edges)
reversed (raised x) = raised x

unfoldable pub resolve_path : Migrations → String → String → Outcome (List (String × String))
unfolding search walk_back
resolve_path ms from_version target =
    let f = searched ms from_version target in
    if is_some (lookup target f.parent)
    then reversed (walk_back from_version f (length f.parent) target)
    else ok []

-- The migrations along a path; a result in another version gets the version of its edge.
unfoldable pub apply_path :
    Migrations → List (String × String) → RuntimeEvent → Outcome RuntimeEvent
unfolding find_migration
apply_path ms [] e = ok e
apply_path ms ((src, dst) ∷ path) e = elim (find_migration src dst ms) [
  | none ↦ raised key_error
  | some fn ↦ apply_path ms path (record (fn e) { schema_version = dst })
]

abbrev payload_of : Option Fields → Fields
payload_of none = end
payload_of (some m) = m

-- `payload.setdefault(key, value)`
unfoldable pub set_default : String → Value → Fields → Fields
set_default k v end = field k v end
set_default k v (field j w m) =
    let rest = field j w (set_default k v m) in if j == k then field j w m else rest

unfoldable pub attach_original_schema_version : RuntimeEvent → RuntimeEvent → RuntimeEvent
unfolding set_default
attach_original_schema_version original migrated =
    if original.schema_version == migrated.schema_version then migrated else record migrated {
      payload_json = some (
          set_default "original_schema_version" (Value.str original.schema_version)
            (payload_of migrated.payload_json));
    }

abbrev pub attached : RuntimeEvent → Outcome RuntimeEvent → Outcome RuntimeEvent
attached e (ok m) = ok (attach_original_schema_version e m)
attached e (raised x) = raised x

abbrev pub along :
    Migrations → RuntimeEvent → Outcome (List (String × String)) → Outcome RuntimeEvent
along ms e (raised x) = raised x
along ms e (ok []) = raised schema_migration_error
along ms e (ok (edge ∷ path)) = attached e (apply_path ms (edge ∷ path) e)

unfoldable pub migrate : Migrations → String → RuntimeEvent → Outcome RuntimeEvent
unfolding resolve_path apply_path attach_original_schema_version
migrate ms target e =
    if e.schema_version == target
    then ok e
    else along ms e (resolve_path ms e.schema_version target)

unfoldable pub migrate_batch : Migrations → String → List RuntimeEvent → Outcome (List RuntimeEvent)
unfolding migrate
migrate_batch ms target [] = ok []
migrate_batch ms target (e ∷ events) = elim (migrate ms target e) [
  | raised x ↦ raised x
  | ok m ↦ elim (migrate_batch ms target events) [ raised x ↦ raised x | ok rest ↦ ok (m ∷ rest) ]
]

-- `_maybe_migrate_event` of the projection service (agent_kernel/kernel/minimal_runtime.py).
unfoldable pub maybe_migrate_event :
    Option Migrations → Option String → RuntimeEvent → Outcome RuntimeEvent
unfolding migrate
maybe_migrate_event (some ms) (some target) e = migrate ms target e
maybe_migrate_event none target e = ok e
maybe_migrate_event (some ms) none e = ok e
