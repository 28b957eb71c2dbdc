-- ===== src/SnapshotAdmission.antt =====
-- SnapshotDrivenAdmissionService and TenantPolicyResolver (agent_kernel/kernel/admission/). The clock's
-- reading is an argument, in milliseconds; a file's policy, read and parsed, is a parameter.
pub mod Rate
pub mod Permits
pub mod Quota
use agent_kernel.Prelude.{
  ℕ, ◌+◌, Option, none, some, Bool, true, false, ◌&&◌, ◌||◌, not, String, List, [], ◌∷◌, ◌++◌, ◌==◌,
  if◌then◌else◌, ltb, leb, length,
}
use agent_kernel.Prelude.Errors.{Exec, Outcome, ok, raised, policy_resolution_error}
use agent_kernel.Prelude.Dict.{Dict, lookup, insert}
use agent_kernel.Prelude.Text.{concat}
use agent_kernel.Contracts.{Action, AdmissionResult, effect_text, among}
use agent_kernel.Snapshot.{CapabilitySnapshot}
use text.Mathlib.Text.{starts_with}

pub record TenantPolicy : Type 0 where
  pub policy_id : String
  pub max_allowed_risk_tier : ℕ
  pub allow_non_idempotent_remote_writes : Bool
  pub max_actions_per_minute : ℕ

-- `_DEFAULT_POLICY`
abbrev pub default_tenant_policy : TenantPolicy
default_tenant_policy = record {
  policy_id = "default";
  max_allowed_risk_tier = 3;
  allow_non_idempotent_remote_writes = false;
  max_actions_per_minute = 120;
}

unfoldable pub resolve_policy : (String → Outcome TenantPolicy) → String → Outcome TenantPolicy
resolve_policy resolve_file policy_ref =
    if policy_ref == "policy:default"
    then ok default_tenant_policy
    else if starts_with policy_ref "file://"
    then resolve_file policy_ref
    else raised policy_resolution_error

-- The attributes that the rules read with `getattr`, `none` where an object has no such attribute.
pub record Subject : Type 0 where
  pub run_id : String
  pub action_type : Option String
  pub effect_class : Option String
  pub tool_name : Option String
  pub mcp_server : Option String
  pub mcp_capability : Option String
  pub peer_run_id : Option String
  pub idempotency_level : Option String
  pub risk_tier : ℕ

-- An Action, which has three of them.
abbrev pub subject_of : Action → Subject
subject_of a = record {
  run_id = a.run_id;
  action_type = some a.action_type;
  effect_class = some (effect_text a.effect_class);
  tool_name = none;
  mcp_server = none;
  mcp_capability = none;
  peer_run_id = none;
  idempotency_level = none;
  risk_tier = 0;
}

abbrev pub result_of : Bool → String → AdmissionResult
result_of admitted reason_code = record {
  admitted = admitted;
  reason_code = reason_code;
  expires_at = none;
  grant_ref = none;
  policy_snapshot_ref = none;
  sandbox_grant = none;
  idempotency_envelope = none;
}

abbrev pub is_text : String → Option String → Bool
is_text s none = false
is_text s (some t) = t == s

abbrev pub refuse_if : Bool → String → Option AdmissionResult
refuse_if b reason_code = if b then some (result_of false reason_code) else none

-- `name is not None and name not in bindings`
abbrev pub unbound : Option String → List String → Bool
unbound none bindings = false
unbound (some name) bindings = not (among name bindings)

-- The composite name of an MCP binding.
abbrev pub mcp_key : Option String → Option String → Option String
mcp_key (some server) (some capability) = some (concat (server ∷ "/" ∷ capability ∷ []))
mcp_key _ _ = none

abbrev pub is_empty : List String → Bool
is_empty [] = true
is_empty (x ∷ r) = false

unfoldable pub check_permission_mode : Subject → CapabilitySnapshot → Option AdmissionResult
check_permission_mode a s =
    refuse_if
      ((s.permission_mode == "readonly" || s.permission_mode == "read_only")
        && not (is_text "noop" a.action_type || is_text "read" a.action_type))
      "permission_denied"

unfoldable pub check_binding_existence : Subject → CapabilitySnapshot → Option AdmissionResult
check_binding_existence a s =
    refuse_if
      (if is_text "tool_call" a.action_type
        then unbound a.tool_name s.tool_bindings
        else if is_text "mcp_call" a.action_type
        then unbound (mcp_key a.mcp_server a.mcp_capability) s.mcp_bindings
        else if is_text "peer_signal" a.action_type
        then not (is_empty s.peer_run_bindings) && unbound a.peer_run_id s.peer_run_bindings
        else false)
      "policy_denied"

unfoldable pub check_idempotency : Subject → TenantPolicy → Option AdmissionResult
check_idempotency a p =
    refuse_if
      (not p.allow_non_idempotent_remote_writes
        && is_text "non_idempotent" a.idempotency_level
        && (is_text "remote_write" a.effect_class || is_text "irreversible_write" a.effect_class))
      "policy_denied"

unfoldable pub check_risk_tier : Subject → TenantPolicy → Option AdmissionResult
check_risk_tier a p = refuse_if (ltb p.max_allowed_risk_tier a.risk_tier) "policy_denied"

-- `_rate_windows`: the times of the admissions of a run, the oldest first.
abbrev pub RateWindows : Type 0
RateWindows = Dict (List ℕ)

abbrev pub window_of : String → RateWindows → List ℕ
window_of run_id ws = elim (lookup run_id ws) [ none ↦ [] | some w ↦ w ]

-- Times that are more than a minute old leave at the front.
unfoldable pub evict_old : ℕ → List ℕ → List ℕ
evict_old now [] = []
evict_old now (t ∷ w) = let rest = evict_old now w in if ltb (t + 60000) now then rest else t ∷ w

unfoldable pub check_rate_limit :
    ℕ → Subject → TenantPolicy → RateWindows → Option AdmissionResult × RateWindows
unfolding evict_old
check_rate_limit now a p ws =
    let window = evict_old now (window_of a.run_id ws) in
    if leb p.max_actions_per_minute (length window)
    then (some (result_of false "quota_exceeded"), insert a.run_id window ws)
    else (none, insert a.run_id (window ++ (now ∷ [])) ws)

-- The rules before the rate limit: the first refusal.
abbrev pub first_refusal : Subject → CapabilitySnapshot → TenantPolicy → Option AdmissionResult
first_refusal a s p = elim (check_permission_mode a s) [
  | some r ↦ some r
  | none ↦ elim (check_binding_existence a s) [
    | some r ↦ some r
    | none ↦ elim (check_idempotency a p) [ some r ↦ some r | none ↦ check_risk_tier a p ]
  ]
]

-- `tenant_policy_ref or "policy:default"`
abbrev pub policy_ref_of : CapabilitySnapshot → String
policy_ref_of s = if s.tenant_policy_ref == "" then "policy:default" else s.tenant_policy_ref

-- What follows the rate limit's answer.
abbrev pub answered : Option AdmissionResult × RateWindows → Outcome AdmissionResult × RateWindows
answered (some r, ws) = (ok r, ws)
answered (none, ws) = (ok (result_of true "ok"), ws)

module _ (resolve_file : String → Outcome TenantPolicy) where
  unfoldable pub admit : ℕ → Subject → CapabilitySnapshot → Exec RateWindows AdmissionResult
  unfolding resolve_policy check_rate_limit
  admit now a s ws = elim (resolve_policy resolve_file (policy_ref_of s)) [
    | raised x ↦ (raised x, ws)
    | ok p ↦ elim (first_refusal a s p) [
      | some r ↦ (ok r, ws)
      | none ↦ answered (check_rate_limit now a p ws)
    ]
  ]
