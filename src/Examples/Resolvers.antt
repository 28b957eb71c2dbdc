-- ===== src/Examples/Resolvers.antt =====
-- The snapshot resolver on a payload with a policy, bindings and a digest, and on one without.
use agent_kernel.Prelude.{
  ◌≡◌, refl, Option, none, some, true, false, ◌&&◌, ◌||◌, not, is_some, List, [], ◌∷◌,
  if◌then◌else◌,
}
use agent_kernel.Prelude.Errors.{ok, raised, capability_snapshot_build_error}
use agent_kernel.Prelude.Text.{is_empty, is_given, is_negative}
use agent_kernel.Prelude.Json.{Value, Fields, end, field, as_dict, text_items}
use agent_kernel.Contracts.{Action}
use agent_kernel.Snapshot.{CapabilitySnapshotInput, build, snapshot_of}
use agent_kernel.SnapshotResolver.{
  ActionPayloadCapabilitySnapshotInputResolver, raw_payload, input_of, resolve,
}
use agent_kernel.SnapshotResolver.Strict.{with_strict, resolve-build, resolve-strict}
use agent_kernel.Actor.Wiring.{strict_resolver}
use agent_kernel.Examples.Values.{plain_codec, first_input, write_action}

-- A structured policy, flat bindings, one of them empty, and a flat digest.
abbrev declared : Fields
declared = field "policy" (Value.dict (field "tenant_policy_ref" (Value.str "policy:acme") end)) (
    field "tool_bindings" (Value.list (text_items ("read" ∷ "" ∷ "write" ∷ []))) (
      field "declarative_bundle_ref" (Value.str "b1") (
        field "declarative_bundle_semantics_version" (Value.str "v1") (
          field "declarative_bundle_content_hash" (Value.str "c1")
            (field "declarative_bundle_compile_hash" (Value.str "h1") end)))))

abbrev declared_action : Action
declared_action = record write_action {
  input_json = some (field "capability_snapshot_input" (Value.dict declared) end);
}

abbrev resolved : CapabilitySnapshotInput
resolved = input_of (strict_resolver true) first_input declared (
    some (record {
      bundle_ref = "b1";
      semantics_version = "v1";
      content_hash = "c1";
      compile_hash = "h1";
    }))

resolves : resolve (strict_resolver true) first_input declared_action ≡ ok resolved
unfolding resolve
resolves = refl

drops_empty : resolved.tool_bindings ≡ "read" ∷ "write" ∷ []
unfolding agent_kernel.SnapshotResolver.as_str_list agent_kernel.Prelude.Json.get_or
    agent_kernel.Prelude.Json.get_item
drops_empty = refl

-- Without a declared input strict mode refuses.
refuses :
    resolve (strict_resolver true) first_input write_action ≡ raised capability_snapshot_build_error
unfolding resolve
refuses = refl

resolve-build_example :
    (build plain_codec "2026-01-01T00:00:00Z" resolved ≡ (
      if is_empty first_input.run_id
        || is_negative first_input.based_on_offset
        || is_given resolved.context_binding_ref && not (is_given resolved.context_content_hash)
      then raised capability_snapshot_build_error
      else ok (snapshot_of plain_codec "2026-01-01T00:00:00Z" resolved)))
    × (resolved.peer_run_bindings ≡ [])
resolve-build_example =
    resolve-build (strict_resolver true) first_input plain_codec "2026-01-01T00:00:00Z"
      declared_action resolved refl refl resolves

resolve-strict_example :
    resolve (with_strict true (strict_resolver true)) first_input declared_action
    ≡ elim (resolve (with_strict false (strict_resolver true)) first_input declared_action) [
      | raised x ↦ raised capability_snapshot_build_error
      | ok s ↦
          if is_some (as_dict (raw_payload declared_action)) && is_some s.declarative_bundle_digest
          then ok s
          else raised capability_snapshot_build_error
    ]
resolve-strict_example = resolve-strict (strict_resolver true) first_input declared_action
