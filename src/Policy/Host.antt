-- ===== src/Policy/Host.antt =====
-- Where an action runs, and whether its dispatch is blocked: _resolve_dispatch_policy and its helpers
-- in agent_kernel/kernel/turn_engine.py. `lower` is Python's `str.lower`.
use agent_kernel.Prelude.{
  ◌≡◌, Option, none, some, Bool, true, false, ◌&&◌, not, String, List, [], ◌∷◌, arith, ◌==◌,
  if◌then◌else◌, or_else, is_some,
}
use agent_kernel.Prelude.Text.{strip}
use agent_kernel.Prelude.Json.{Value, Fields, get_item, as_dict, as_bool}
use agent_kernel.Contracts.{
  Action, EffectClass, read_only, RemoteServiceIdempotencyContract, PeerRetryModel, at_most_once,
  at_least_once, exactly_once_claimed, RetryPolicy, no_auto_retry, bounded_retry,
}
use agent_kernel.Dedupe.{
  HostKind, local_process, local_cli, cli_process, in_process_python, remote_service,
}
use agent_kernel.Policy.Remote.{
  RemoteDispatchPolicyDecision, evaluate_remote_service_policy, evaluate_guaranteed, asked, offered,
}
use text.Mathlib.Text.{starts_with}
use Prim.Native.String.{slice, len}

-- The first answer that a loop over a list returns early with.
abbrev pub first_some {ℓ κ} : {A : Type ℓ} {B : Type κ} → (A → Option B) → List A → Option B
first_some f [] = none
first_some f (x ∷ xs) = or_else (f x) (first_some f xs)

abbrev pub removeprefix : String → String → String
removeprefix s p = if starts_with s p then slice s (len p) (len s) else s

abbrev pub host_kind_of : String → Option HostKind
host_kind_of s =
    if s == "local_cli"
    then some local_cli
    else if s == "local_process"
    then some local_process
    else if s == "remote_service"
    then some remote_service
    else if s == "cli_process"
    then some cli_process
    else if s == "in_process_python"
    then some in_process_python
    else none

abbrev pub is_remote : HostKind → Bool
is_remote remote_service = true
is_remote _ = false

abbrev pub is_read_only : EffectClass → Bool
is_read_only read_only = true
is_read_only _ = false

abbrev peer_retry_model_of : Value → Option PeerRetryModel
peer_retry_model_of (Value.str s) =
    if s == "unknown"
    then some PeerRetryModel.unknown
    else if s == "at_most_once"
    then some at_most_once
    else if s == "at_least_once"
    then some at_least_once
    else if s == "exactly_once_claimed"
    then some exactly_once_claimed
    else none
peer_retry_model_of _ = none

abbrev retry_policy_of : Value → Option RetryPolicy
retry_policy_of (Value.str s) =
    if s == "no_auto_retry"
    then some no_auto_retry
    else if s == "bounded_retry"
    then some bounded_retry
    else none
retry_policy_of _ = none

infixl 5 ◌>>=◌
abbrev ◌>>=◌ : {A B : Type 0} → Option A → (A → Option B) → Option B
none >>= f = none
some a >>= f = f a

unfoldable pub parse_remote_service_contract : Value → Option RemoteServiceIdempotencyContract
parse_remote_service_contract payload = do
  m ← as_dict payload
  accepts ← as_bool (get_item "accepts_dispatch_idempotency_key" m)
  stable ← as_bool (get_item "returns_stable_ack" m)
  model ← peer_retry_model_of (get_item "peer_retry_model" m)
  policy ← retry_policy_of (get_item "default_retry_policy" m)
  some (record {
    accepts_dispatch_idempotency_key = accepts;
    returns_stable_ack = stable;
    peer_retry_model = model;
    default_retry_policy = policy;
  })

abbrev nested_candidates : Option Fields → List Value
nested_candidates none = []
nested_candidates (some m) = get_item "idempotency_contract" m ∷ get_item "contract" m ∷ []

abbrev candidates : Fields → List Value
candidates m =
    get_item "remote_service_idempotency_contract" m
    ∷ get_item "remote_idempotency_contract" m
    ∷ get_item "idempotency_contract" m
    ∷ nested_candidates (as_dict (get_item "remote_service" m))

unfoldable pub extract_remote_service_contract :
    Option Fields → Option RemoteServiceIdempotencyContract
unfolding parse_remote_service_contract
extract_remote_service_contract none = none
extract_remote_service_contract (some m) = first_some parse_remote_service_contract (candidates m)

pub record DispatchPolicy : Type 0 where
  pub host_kind : HostKind
  pub should_block : Bool
  pub block_reason : Option String
  pub remote_policy_decision : Option RemoteDispatchPolicyDecision

module _ (lower : String → String) where
  unfoldable pub normalize_host_kind : Value → Option HostKind
  normalize_host_kind (Value.str s) = host_kind_of (lower (strip s))
  normalize_host_kind _ = none

  -- One prefix of one tag.
  abbrev pub tagged : String → String → Option HostKind
  tagged tag prefix =
      if starts_with tag prefix
      then normalize_host_kind (Value.str (removeprefix tag prefix))
      else none

  unfoldable pub extract_host_kind_from_policy_tags : List String → Option HostKind
  unfolding normalize_host_kind
  extract_host_kind_from_policy_tags = first_some λ tag.
      first_some (tagged (lower (strip tag)))
        ("host:" ∷ "host_kind:" ∷ "dispatch_host:" ∷ "dispatch_host_kind:" ∷ [])

  abbrev pub aliased : Fields → Option HostKind
  aliased m =
      first_some (λ key. normalize_host_kind (get_item key m))
        ("host_kind" ∷ "dispatch_host_kind" ∷ "host" ∷ "dispatch_host" ∷ [])

  abbrev pub aliased_in : Option Fields → Option HostKind
  aliased_in none = none
  aliased_in (some m) = aliased m

  unfoldable pub extract_host_kind_from_payload : Fields → Option HostKind
  unfolding normalize_host_kind
  extract_host_kind_from_payload m =
      or_else (aliased m) (aliased_in (as_dict (get_item "dispatch" m)))

  unfoldable pub resolve_explicit_host_kind : Action → Option HostKind
  unfolding extract_host_kind_from_policy_tags extract_host_kind_from_payload
  resolve_explicit_host_kind a =
      or_else (extract_host_kind_from_policy_tags a.policy_tags) (elim a.input_json [
        | none ↦ extract_host_kind_from_payload Fields.end
        | some m ↦ extract_host_kind_from_payload m
      ])

  unfoldable pub resolve_dispatch_host_kind : Action → HostKind
  resolve_dispatch_host_kind a = elim (resolve_explicit_host_kind a) [
    | some kind ↦ kind
    | none ↦
        if not (is_read_only a.effect_class) && is_some a.external_idempotency_level
        then remote_service
        else local_cli
  ]

  unfoldable pub resolve_dispatch_policy : Action → DispatchPolicy
  resolve_dispatch_policy a =
      let host_kind = resolve_dispatch_host_kind a in
      let contract = extract_remote_service_contract a.input_json in
      let remote_policy = evaluate_remote_service_policy a.external_idempotency_level contract in
      if not (is_remote host_kind && not (is_read_only a.effect_class))
      then record {
        host_kind = host_kind;
        should_block = false;
        block_reason = none;
        remote_policy_decision = none;
      }
      else if asked a.external_idempotency_level && not remote_policy.can_claim_guaranteed
      then record {
        host_kind = host_kind;
        should_block = true;
        block_reason = some "idempotency_contract_insufficient";
        remote_policy_decision = some remote_policy;
      }
      else record {
        host_kind = host_kind;
        should_block = false;
        block_reason = none;
        remote_policy_decision = some remote_policy;
      }

  -- The policy's host is the resolved one. A dispatch is blocked exactly when it has a side effect, goes
  -- to a remote service, asks for the guaranteed level, and the payload offers no contract that proves
  -- it; a reason is given exactly then.
  pub resolve_dispatch_policy_blocks :
      (a : Action)
      → let p = resolve_dispatch_policy a in
        (p.host_kind ≡ resolve_dispatch_host_kind a)
        × (p.should_block ≡ (
            is_remote (resolve_dispatch_host_kind a)
            && not (is_read_only a.effect_class)
            && asked a.external_idempotency_level
            && not (offered (extract_remote_service_contract a.input_json))))
        × (is_some p.block_reason ≡ p.should_block)
  unfolding resolve_dispatch_policy
  resolve_dispatch_policy_blocks a = ground (
    arith,
    evaluate_guaranteed a.external_idempotency_level (extract_remote_service_contract a.input_json),
  )
