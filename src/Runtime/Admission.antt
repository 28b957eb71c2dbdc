-- ===== src/Runtime/Admission.antt =====
-- StaticDispatchAdmissionService and its helpers in agent_kernel/kernel/minimal_runtime.py. `lower` is Python's
-- `str.lower`; finite floats, their parser and their order are those of Python.
pub mod Agreement
use agent_kernel.Prelude.{
  ℕ, Option, none, some, Bool, true, false, ◌&&◌, not, String, List, [], ◌∷◌, map, ◌==◌,
  if◌then◌else◌, or_else, is_some, ltb,
}
use agent_kernel.Prelude.Text.{strip, concat}
use agent_kernel.Prelude.Json.{Value, Fields, end, field, get_item, as_dict}
use agent_kernel.Contracts.{
  Action, EffectClass, read_only, effect_text, RunProjection, RunLifecycleState, AdmissionResult,
  SandboxGrant, among,
}
use agent_kernel.Dedupe.{
  HostKind, local_process, local_cli, cli_process, in_process_python, remote_service,
}
use agent_kernel.Policy.Remote.{evaluate_remote_service_policy, asked}
use agent_kernel.Policy.Host.{
  first_some, removeprefix, extract_remote_service_contract, is_remote, is_read_only,
}
use text.Mathlib.Text.{starts_with}

-- `float(raw)` and `float(value)` where they are finite, and `>`.
pub record Floats (F : Type 0) : Type 0 where
  pub parse_finite_float : String → Option F
  pub finite_number : Value → Option F
  pub exceeds : F → F → Bool

-- The three hosts that admission knows.
abbrev pub static_host_kind : String → Option HostKind
static_host_kind s =
    if s == "local_cli"
    then some local_cli
    else if s == "local_process"
    then some local_process
    else if s == "remote_service"
    then some remote_service
    else none

abbrev pub host_text : HostKind → String
host_text local_process = "local_process"
host_text local_cli = "local_cli"
host_text cli_process = "cli_process"
host_text in_process_python = "in_process_python"
host_text remote_service = "remote_service"

module _ (lower : String → String) where
  unfoldable pub normalize_host_kind : Value → Option HostKind
  normalize_host_kind (Value.str s) = static_host_kind (lower (strip s))
  normalize_host_kind _ = none

  -- One prefix of one tag.
  abbrev pub tagged : String → String → Option HostKind
  tagged tag prefix =
      if starts_with tag prefix
      then normalize_host_kind (Value.str (removeprefix tag prefix))
      else none

  unfoldable pub extract_host_kind_from_policy_tags : List String → Option HostKind
  unfolding normalize_host_kind
  extract_host_kind_from_policy_tags = first_some λ tag.
      first_some (tagged (lower (strip tag)))
        ("host:" ∷ "host_kind:" ∷ "dispatch_host:" ∷ "dispatch_host_kind:" ∷ [])

  abbrev pub aliased : Fields → Option HostKind
  aliased m =
      first_some (λ key. normalize_host_kind (get_item key m))
        ("host_kind" ∷ "dispatch_host_kind" ∷ "host" ∷ "dispatch_host" ∷ [])

  abbrev pub aliased_in : Option Fields → Option HostKind
  aliased_in none = none
  aliased_in (some m) = aliased m

  unfoldable pub extract_host_kind_from_payload : Fields → Option HostKind
  unfolding normalize_host_kind
  extract_host_kind_from_payload m =
      or_else (aliased m) (aliased_in (as_dict (get_item "dispatch" m)))

  unfoldable pub resolve_explicit_host_kind : Action → Option HostKind
  unfolding extract_host_kind_from_policy_tags extract_host_kind_from_payload
  resolve_explicit_host_kind a =
      or_else (extract_host_kind_from_policy_tags a.policy_tags) (elim a.input_json [
        | none ↦ extract_host_kind_from_payload end
        | some m ↦ extract_host_kind_from_payload m
      ])

  unfoldable pub resolve_dispatch_host_kind : Action → HostKind
  resolve_dispatch_host_kind a = elim (resolve_explicit_host_kind a) [
    | some kind ↦ kind
    | none ↦
        if not (is_read_only a.effect_class) && is_some a.external_idempotency_level
        then remote_service
        else local_cli
  ]

  unfoldable pub requires_remote_idempotency_contract_block : Action → Bool
  requires_remote_idempotency_contract_block a =
      if is_read_only a.effect_class
      then false
      else if not (asked a.external_idempotency_level)
      then false
      else if not (is_remote (resolve_dispatch_host_kind a))
      then false
      else not
          (evaluate_remote_service_policy a.external_idempotency_level
            (extract_remote_service_contract a.input_json)).can_claim_guaranteed

  -- The host of a tag that names one outright.
  abbrev named_host : List String → String → HostKind → Option HostKind
  named_host tags candidate kind = if among candidate tags then some kind else none

  unfoldable pub resolve_sandbox_host_kind : Action → HostKind
  resolve_sandbox_host_kind a =
      let tags = map (λ tag. lower (strip tag)) a.policy_tags in
      elim (or_else (named_host tags "host:local_process" local_process) (
        or_else (named_host tags "host:local_cli" local_cli) (
          or_else (named_host tags "host:remote_service" remote_service) (
            or_else (named_host tags "host_kind:local_process" local_process) (
              or_else (named_host tags "host_kind:local_cli" local_cli)
                (named_host tags "host_kind:remote_service" remote_service)))))) [
                  | some kind ↦ kind
                  | none ↦
                      if is_some a.external_idempotency_level && not (is_read_only a.effect_class)
                      then remote_service
                      else local_cli
                ]

  abbrev pub denied : String → AdmissionResult
  denied reason_code = record {
    admitted = false;
    reason_code = reason_code;
    expires_at = none;
    grant_ref = none;
    policy_snapshot_ref = none;
    sandbox_grant = none;
    idempotency_envelope = none;
  }

  unfoldable pub build_admitted_result : Action → AdmissionResult
  unfolding resolve_sandbox_host_kind
  build_admitted_result a =
      let host_kind = resolve_sandbox_host_kind a in
      let grant_ref = concat ("grant:" ∷ a.action_id ∷ []) in
      record {
        admitted = true;
        reason_code = "ok";
        expires_at = none;
        grant_ref = some grant_ref;
        policy_snapshot_ref = none;
        sandbox_grant = some (record {
          grant_ref = grant_ref;
          host_kind = host_text host_kind;
          sandbox_profile_ref = some (concat ("sandbox:" ∷ host_text host_kind ∷ ":default" ∷ []));
          allowed_mounts = "workspace:/" ∷ [];
          denied_mounts = [];
          network_policy = if is_remote host_kind then "allow_list" else "deny_all";
          allowed_hosts = [];
        });
        idempotency_envelope = some (
            field "dispatch_idempotency_key"
              (Value.str (concat ("dispatch:" ∷ a.run_id ∷ ":" ∷ a.action_id ∷ [])))
              (field "operation_fingerprint"
                (Value.str (concat (a.run_id ∷ ":" ∷ a.action_id ∷ [])))
                (field "attempt_seq" (Value.int 1) (
                  field "effect_scope" (Value.str (effect_text a.effect_class))
                    (field "host_kind" (Value.str (host_text host_kind)) end)))));
      }

  module _ {F : Type 0} (floats : Floats F) where
    abbrev max_cost_of : String → Option F
    max_cost_of tag =
        if starts_with tag "max_cost:"
        then floats.parse_finite_float (strip (removeprefix tag "max_cost:"))
        else none

    unfoldable pub extract_max_cost_from_policy_tags : List String → Option F
    extract_max_cost_from_policy_tags = first_some max_cost_of

    -- `_coerce_finite_number`: a truth value is no number here.
    unfoldable pub coerce_finite_number : Value → Option F
    coerce_finite_number (Value.int n) = floats.finite_number (Value.int n)
    coerce_finite_number (Value.neg_int n) = floats.finite_number (Value.neg_int n)
    coerce_finite_number (Value.float b n) = floats.finite_number (Value.float b n)
    coerce_finite_number _ = none

    unfoldable pub extract_estimated_cost : Option Fields → Option F
    unfolding coerce_finite_number
    extract_estimated_cost none = none
    extract_estimated_cost (some m) = coerce_finite_number (get_item "estimated_cost" m)

    abbrev costs_more : Option F → Option F → Bool
    costs_more (some estimated) (some allowed) = floats.exceeds estimated allowed
    costs_more _ _ = false

    abbrev too_long : Option ℕ → Bool
    too_long none = false
    too_long (some t) = ltb 0 t && ltb 300000 t

    unfoldable pub evaluate_action_policy_denies : Action → Option AdmissionResult
    unfolding requires_remote_idempotency_contract_block
    evaluate_action_policy_denies a =
        if among "requires_human_review" a.policy_tags
        then some (denied "policy_denied")
        else if too_long a.timeout_ms
        then some (denied "policy_denied")
        else if costs_more (extract_estimated_cost a.input_json)
            (extract_max_cost_from_policy_tags a.policy_tags)
        then some (denied "quota_exceeded")
        else if requires_remote_idempotency_contract_block a
        then some (denied "idempotency_contract_insufficient")
        else none

    -- `admit`; the snapshot is not read.
    unfoldable pub admit : Action → AdmissionResult
    unfolding evaluate_action_policy_denies build_admitted_result
    admit a = elim (evaluate_action_policy_denies a) [
      | some result ↦ result
      | none ↦ build_admitted_result a
    ]

    abbrev is_dispatchable : RunLifecycleState → Bool
    is_dispatchable RunLifecycleState.ready = true
    is_dispatchable RunLifecycleState.dispatching = true
    is_dispatchable _ = false

    unfoldable pub check : Action → RunProjection → AdmissionResult
    unfolding evaluate_action_policy_denies build_admitted_result
    check a p = elim (evaluate_action_policy_denies a) [
      | some result ↦ result
      | none ↦
          if is_dispatchable p.lifecycle_state && p.ready_for_dispatch && not p.waiting_external
          then build_admitted_result a
          else denied "dependency_not_ready"
    ]
