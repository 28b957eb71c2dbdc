-- ===== src/SnapshotResolver.antt =====
-- agent_kernel/kernel/capability_snapshot_resolver.py: the snapshot's input from an action's payload.
pub mod Strict
use agent_kernel.Prelude.{
  Option, none, some, Bool, true, false, ◌&&◌, not, String, List, [], ◌∷◌, ◌==◌, if◌then◌else◌,
  is_some,
}
use agent_kernel.Prelude.Errors.{Outcome, ok, raised, capability_snapshot_build_error}
use agent_kernel.Prelude.Json.{
  Value, Items, nil, cons, Fields, end, null, get_item, get_or, as_dict,
}
use agent_kernel.Contracts.{Action}
use agent_kernel.Snapshot.{CapabilitySnapshotInput, DeclarativeBundleDigest}
use agent_kernel.Turn.State.{TurnInput}

pub record ActionPayloadCapabilitySnapshotInputResolver : Type 0 where
  pub default_tenant_policy_ref : String
  pub default_permission_mode : String
  pub require_declared_snapshot_input : Bool
  pub require_declarative_bundle_digest : Bool

abbrev pub as_fields : Value → Fields
as_fields v = elim (as_dict v) [ none ↦ end | some m ↦ m ]

unfoldable pub non_empty_texts : Items → List String
non_empty_texts nil = []
non_empty_texts (cons (Value.str s) vs) =
    let rest = non_empty_texts vs in if s == "" then rest else s ∷ rest
non_empty_texts (cons _ vs) = non_empty_texts vs

unfoldable pub as_str_list : Value → List String
unfolding non_empty_texts
as_str_list (Value.list vs) = non_empty_texts vs
as_str_list _ = []

unfoldable pub first_non_empty_optional_string : List Value → Option String
first_non_empty_optional_string [] = none
first_non_empty_optional_string (Value.str s ∷ vs) =
    let rest = first_non_empty_optional_string vs in if s == "" then rest else some s
first_non_empty_optional_string (_ ∷ vs) = first_non_empty_optional_string vs

unfoldable pub first_non_empty_string : List Value → String
first_non_empty_string [] = ""
first_non_empty_string (Value.str s ∷ vs) =
    let rest = first_non_empty_string vs in if s == "" then rest else s
first_non_empty_string (_ ∷ vs) = first_non_empty_string vs

-- The four texts of a digest: all, none, or an error.
abbrev pub digest_of :
    Option String
    → Option String
    → Option String
    → Option String
    → Outcome (Option DeclarativeBundleDigest)
digest_of none none none none = ok none
digest_of (some b) (some s) (some c) (some h) =
    ok (some (record { bundle_ref = b; semantics_version = s; content_hash = c; compile_hash = h }))
digest_of _ _ _ _ = raised capability_snapshot_build_error

-- `raw is not None and not isinstance(raw, dict)`
abbrev pub is_malformed : Value → Bool
is_malformed Value.null = false
is_malformed (Value.dict m) = false
is_malformed _ = true

unfoldable pub resolve_declarative_bundle_digest : Fields → Outcome (Option DeclarativeBundleDigest)
unfolding first_non_empty_optional_string get_item
resolve_declarative_bundle_digest payload =
    let raw = get_item "declarative_bundle_digest" payload in
    let digest = as_fields raw in
    let first = λ (key : String) (flat : String).
      first_non_empty_optional_string (get_item key digest ∷ get_item flat payload ∷ []) in
    if is_malformed raw
    then raised capability_snapshot_build_error
    else digest_of (first "bundle_ref" "declarative_bundle_ref")
        (first "semantics_version" "declarative_bundle_semantics_version")
        (first "content_hash" "declarative_bundle_content_hash")
        (first "compile_hash" "declarative_bundle_compile_hash")

-- The value under `capability_snapshot_input`.
abbrev pub raw_payload : Action → Value
raw_payload a = elim a.input_json [ none ↦ null | some m ↦ get_item "capability_snapshot_input" m ]

module _ (r : ActionPayloadCapabilitySnapshotInputResolver) where
  abbrev pub input_of :
      TurnInput → Fields → Option DeclarativeBundleDigest → CapabilitySnapshotInput
  input_of i payload digest =
      let part = λ (key : String). as_fields (get_item key payload) in
      let text = λ (group : String) (key : String).
        first_non_empty_optional_string (get_item key (part group) ∷ get_item key payload ∷ []) in
      let texts = λ (key : String).
        as_str_list
          (get_or key (part "capability_bindings") (get_or key payload (Value.list nil))) in
      let policy = part "policy" in
      record {
        run_id = i.run_id;
        based_on_offset = i.based_on_offset;
        tenant_policy_ref = first_non_empty_string (
            get_item "tenant_policy_ref" policy
            ∷ get_item "tenant_policy_ref" payload
            ∷ Value.str r.default_tenant_policy_ref
            ∷ []);
        permission_mode = first_non_empty_string (
            get_item "permission_mode" policy
            ∷ get_item "permission_mode" payload
            ∷ Value.str r.default_permission_mode
            ∷ []);
        tool_bindings = texts "tool_bindings";
        mcp_bindings = texts "mcp_bindings";
        skill_bindings = texts "skill_bindings";
        feature_flags = as_str_list (get_or "feature_flags" payload (Value.list nil));
        context_binding_ref = text "context" "context_binding_ref";
        context_content_hash = text "context" "context_content_hash";
        budget_ref = text "budget" "budget_ref";
        quota_ref = text "budget" "quota_ref";
        session_mode = text "session" "session_mode";
        approval_state = text "approval" "approval_state";
        declarative_bundle_digest = digest;
        peer_run_bindings = [];
      }

  abbrev pub required_digest :
      TurnInput
      → Fields
      → Outcome (Option DeclarativeBundleDigest)
      → Outcome CapabilitySnapshotInput
  required_digest i payload (raised x) = raised x
  required_digest i payload (ok digest) =
      if r.require_declarative_bundle_digest && not (is_some digest)
      then raised capability_snapshot_build_error
      else ok (input_of i payload digest)

  unfoldable pub resolve : TurnInput → Action → Outcome CapabilitySnapshotInput
  unfolding get_item get_or first_non_empty_string first_non_empty_optional_string as_str_list
      resolve_declarative_bundle_digest
  resolve i a =
      let raw = raw_payload a in
      let payload = as_fields raw in
      if r.require_declared_snapshot_input && not (is_some (as_dict raw))
      then raised capability_snapshot_build_error
      else required_digest i payload (resolve_declarative_bundle_digest payload)
