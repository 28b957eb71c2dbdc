-- ===== src/Examples/Migrations.antt =====
-- Two schema migrations one after another, a detour, and a version that nothing leads to.
use agent_kernel.Prelude.{◌≡◌, refl, String, [], ◌∷◌, none, ◌⊎◌, All}
use agent_kernel.Prelude.Errors.{ok, raised, schema_migration_error}
use agent_kernel.Prelude.Dict.{lookup, insert}
use agent_kernel.Contracts.{RuntimeEvent, EventClass, EventAuthority, WakePolicy}
use agent_kernel.Migration.{
  Migration, Migrations, migrate, resolve_path, search, visit_all, walk_back, register_migration,
  put_migration,
}
use agent_kernel.Migration.Walk.{Chain}
use agent_kernel.Migration.Paths.{migrate-Chain}
use agent_kernel.Migration.Offsets.{KeepsOffset}

abbrev rename : String → RuntimeEvent → RuntimeEvent
rename suffix e = record e { ordering_key = suffix }

abbrev edge : String → String → Migration
edge from to = record { from_version = from; to_version = to; fn = rename to }

abbrev pub versions : Migrations
versions = edge "1" "2" ∷ edge "2" "1" ∷ edge "2" "3" ∷ edge "3" "4" ∷ edge "1" "3" ∷ []

abbrev pub first_version : RuntimeEvent
first_version = record {
  run_id = "r1";
  event_id = "e1";
  commit_offset = 4;
  event_type = "run.ready";
  event_class = EventClass.fact;
  event_authority = EventAuthority.authoritative_fact;
  ordering_key = "r1";
  wake_policy = WakePolicy.wake_actor;
  created_at = "t";
  idempotency_key = none;
  payload_ref = none;
  payload_json = none;
  schema_version = "1";
}

shortest_path : resolve_path versions "1" "4" ≡ ok (("1", "3") ∷ ("3", "4") ∷ [])
unfolding resolve_path search visit_all walk_back lookup insert
shortest_path = refl

no_path : migrate versions "5" first_version ≡ raised schema_migration_error
unfolding migrate resolve_path search visit_all walk_back lookup insert
no_path = refl

same_key_replaces : register_migration (edge "1" "2") (edge "1" "2" ∷ []) ≡ ok (edge "1" "2" ∷ [])
unfolding register_migration put_migration
same_key_replaces = refl

migrate-Chain_example :
    ((m : RuntimeEvent) × (migrate versions "4" first_version ≡ ok m)
      × (m.schema_version ≡ "4")
      × Chain versions "1" "4")
    ⊎ ((migrate versions "4" first_version ≡ raised schema_migration_error)
        × ¬ Chain versions "1" "4")
migrate-Chain_example = migrate-Chain versions "4" first_version

pub versions_keep : All KeepsOffset versions
versions_keep = (λ e. refl, (λ e. refl, (λ e. refl, (λ e. refl, (λ e. refl, tt)))))
