-- ===== src/Snapshot.antt =====
-- agent_kernel/kernel/capability_snapshot.py: the frozen view of what a run may use, and its hash.
-- A time is the text that the clock gives; it is no part of the hash.
use Prim.Native.Nat.{Ordering}
use Prim.Native.String.{compare, slice}
use agent_kernel.Prelude.{
  Option, none, some, Bool, ◌&&◌, not, String, List, [], ◌∷◌, ◌==◌, if◌then◌else◌,
}
use agent_kernel.Prelude.Errors.{Outcome, ok, raised, capability_snapshot_build_error, value_error}
use agent_kernel.Prelude.Text.{concat, str_ℤ, ℤ, is_negative, is_empty, is_given, Codec}
use agent_kernel.Prelude.Json.{Value, Fields, null, text_items, end, field}

pub record DeclarativeBundleDigest : Type 0 where
  pub bundle_ref : String
  pub semantics_version : String
  pub content_hash : String
  pub compile_hash : String

pub record CapabilitySnapshotInput : Type 0 where
  pub run_id : String
  pub based_on_offset : ℤ
  pub tenant_policy_ref : String
  pub permission_mode : String
  pub tool_bindings : List String
  pub mcp_bindings : List String
  pub skill_bindings : List String
  pub feature_flags : List String
  pub context_binding_ref : Option String
  pub context_content_hash : Option String
  pub budget_ref : Option String
  pub quota_ref : Option String
  pub session_mode : Option String
  pub approval_state : Option String
  pub declarative_bundle_digest : Option DeclarativeBundleDigest
  pub peer_run_bindings : List String

pub record CapabilitySnapshot : Type 0 where
  pub snapshot_ref : String
  pub snapshot_hash : String
  pub input : CapabilitySnapshotInput
  pub open input use *
  pub created_at : String
  pub snapshot_schema_version : String

abbrev pub current_snapshot_schema_version : String
current_snapshot_schema_version = "1"

-- One text into a sorted list without duplicates.
unfoldable pub insert_sorted : String → List String → List String
insert_sorted s [] = s ∷ []
insert_sorted s (t ∷ r) =
    let rest = t ∷ insert_sorted s r in
    elim (compare s t) [ Ordering.lt ↦ s ∷ t ∷ r | Ordering.eq ↦ t ∷ r | Ordering.gt ↦ rest ]

-- `sorted({value for value in values if value})`
unfoldable pub normalize_string_list : List String → List String
unfolding insert_sorted
normalize_string_list [] = []
normalize_string_list (s ∷ r) =
    let rest = normalize_string_list r in if s == "" then rest else insert_sorted s rest

abbrev pub bundle_fields : DeclarativeBundleDigest → Fields
bundle_fields d = field "bundle_ref" (Value.str d.bundle_ref) (
    field "semantics_version" (Value.str d.semantics_version) (
      field "content_hash" (Value.str d.content_hash)
        (field "compile_hash" (Value.str d.compile_hash) end)))

unfoldable pub normalize_bundle_digest : Option DeclarativeBundleDigest → Value
normalize_bundle_digest none = null
normalize_bundle_digest (some d) = Value.dict (bundle_fields d)

abbrev pub text_or_null : Option String → Value
text_or_null none = null
text_or_null (some s) = Value.str s

abbrev pub int_value : ℤ → Value
int_value (ℤ.pos n) = Value.int n
int_value (ℤ.negsuc n) = Value.neg_int n

abbrev sorted_texts : List String → Value
sorted_texts l = Value.list (text_items (normalize_string_list l))

unfoldable pub canonical_payload : CapabilitySnapshotInput → Value
unfolding normalize_bundle_digest
canonical_payload i = Value.dict (
    field "snapshot_schema_version" (Value.str current_snapshot_schema_version) (
      field "run_id" (Value.str i.run_id) (
        field "based_on_offset" (int_value i.based_on_offset) (
          field "tenant_policy_ref" (Value.str i.tenant_policy_ref) (
            field "permission_mode" (Value.str i.permission_mode) (
              field "tool_bindings" (sorted_texts i.tool_bindings) (
                field "mcp_bindings" (sorted_texts i.mcp_bindings) (
                  field "skill_bindings" (sorted_texts i.skill_bindings) (
                    field "feature_flags" (sorted_texts i.feature_flags) (
                      field "context_content_hash" (text_or_null i.context_content_hash) (
                        field "budget_ref" (text_or_null i.budget_ref) (
                          field "quota_ref" (text_or_null i.quota_ref) (
                            field "session_mode" (text_or_null i.session_mode) (
                              field "approval_state" (text_or_null i.approval_state) (
                                field "declarative_bundle_digest"
                                  (normalize_bundle_digest i.declarative_bundle_digest)
                                  (field "peer_run_bindings" (sorted_texts i.peer_run_bindings)
                                    end))))))))))))))))

-- The tests of `_validate_input`, in its order; each raises the same exception.
unfoldable pub is_valid_input : CapabilitySnapshotInput → Bool
is_valid_input i =
    not (is_empty i.run_id)
    && not (is_negative i.based_on_offset)
    && not (is_empty i.tenant_policy_ref)
    && not (is_empty i.permission_mode)
    && not (is_given i.context_binding_ref && not (is_given i.context_content_hash))

module _ (c : Codec) (now : String) where
  unfoldable pub build_stable_sha256 : Value → String
  build_stable_sha256 payload = c.sha256 (c.dumps_unicode payload)

  unfoldable pub snapshot_of : CapabilitySnapshotInput → CapabilitySnapshot
  unfolding canonical_payload build_stable_sha256
  snapshot_of i =
      let snapshot_hash = build_stable_sha256 (canonical_payload i) in
      record {
        snapshot_ref = concat (
            "snapshot:"
            ∷ i.run_id
            ∷ ":"
            ∷ str_ℤ i.based_on_offset
            ∷ ":"
            ∷ slice snapshot_hash 0 12
            ∷ []);
        snapshot_hash = snapshot_hash;
        input = record i {
          tool_bindings = normalize_string_list i.tool_bindings;
          mcp_bindings = normalize_string_list i.mcp_bindings;
          skill_bindings = normalize_string_list i.skill_bindings;
          feature_flags = normalize_string_list i.feature_flags;
          peer_run_bindings = normalize_string_list i.peer_run_bindings;
        };
        created_at = now;
        snapshot_schema_version = current_snapshot_schema_version;
      }

  -- `CapabilitySnapshotBuilder.build`
  unfoldable pub build : CapabilitySnapshotInput → Outcome CapabilitySnapshot
  unfolding is_valid_input snapshot_of
  build i = if is_valid_input i then ok (snapshot_of i) else raised capability_snapshot_build_error

unfoldable pub assert_snapshot_compatible : CapabilitySnapshot → Outcome (Unit {0})
assert_snapshot_compatible s =
    if s.snapshot_schema_version == current_snapshot_schema_version
    then ok tt
    else raised value_error
