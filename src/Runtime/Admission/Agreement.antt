-- ===== src/Runtime/Admission/Agreement.antt =====
-- Admission (agent_kernel/kernel/minimal_runtime.py) and the dispatch policy of a turn
-- (agent_kernel/kernel/turn_engine.py) on the same action.
use agent_kernel.Prelude.{
  ◌≡◌, refl, arith, Option, none, some, Bool, true, false, ◌&&◌, not, String, List, [], ◌∷◌,
  if◌then◌else◌, or_else, is_some,
}
use agent_kernel.Prelude.Text.{strip}
use text.Mathlib.Text.{starts_with}
use agent_kernel.Prelude.Json.{Value, Fields, end, get_item, as_dict}
use agent_kernel.Contracts.{Action}
use agent_kernel.Dedupe.{
  HostKind, local_process, local_cli, cli_process, in_process_python, remote_service,
}
use agent_kernel.Policy.Remote.{evaluate_guaranteed}
use agent_kernel.Policy.Host.{
  first_some, removeprefix, resolve_dispatch_policy, resolve_dispatch_policy_blocks,
  extract_remote_service_contract, is_remote, is_read_only, host_kind_of,
}
use agent_kernel.Policy.Host
use agent_kernel.Runtime.Admission.{
  Floats, static_host_kind, admit, evaluate_action_policy_denies,
  requires_remote_idempotency_contract_block, resolve_dispatch_host_kind,
  resolve_explicit_host_kind, extract_host_kind_from_policy_tags, extract_host_kind_from_payload,
  normalize_host_kind, tagged, aliased, aliased_in,
}

-- Admission finds a remote host wherever the turn finds one, and none where the turn finds none.
abbrev Covers : Option HostKind → Option HostKind → Type 0
Covers o none = o ≡ none
Covers o (some remote_service) = o ≡ some remote_service
Covers o (some _) = Unit

or_else-Covers :
    (o p q r : Option HostKind) → Covers o p → Covers q r → Covers (or_else o q) (or_else p r)
or_else-Covers o none q r h k = rw h k
or_else-Covers o (some remote_service) q r h k = rw h refl
or_else-Covers o (some local_process) q r h k = tt
or_else-Covers o (some local_cli) q r h k = tt
or_else-Covers o (some cli_process) q r h k = tt
or_else-Covers o (some in_process_python) q r h k = tt

first_some-Covers {ℓ} :
    {A : Type ℓ} (f g : A → Option HostKind) (xs : List A)
    → ((x : A) → Covers (f x) (g x))
    → Covers (first_some f xs) (first_some g xs)
first_some-Covers f g [] h = refl
first_some-Covers f g (x ∷ xs) h =
    or_else-Covers (f x) (g x) (first_some f xs) (first_some g xs) (h x)
      (first_some-Covers f g xs h)

when-Covers :
    (b : Bool) (o p : Option HostKind)
    → Covers o p
    → Covers (if b then o else none) (if b then p else none)
when-Covers true o p h = h
when-Covers false o p h = refl

kind-Covers : (s : String) → Covers (static_host_kind s) (host_kind_of s)
kind-Covers s = ground arith

module _ (lower : String → String) where
  normalize-Covers :
      (v : Value) → Covers (normalize_host_kind lower v) (Host.normalize_host_kind lower v)
  unfolding normalize_host_kind Host.normalize_host_kind
  normalize-Covers (Value.str s) = kind-Covers (lower (strip s))
  normalize-Covers Value.null = refl
  normalize-Covers (Value.bool b) = refl
  normalize-Covers (Value.int n) = refl
  normalize-Covers (Value.neg_int n) = refl
  normalize-Covers (Value.float b n) = refl
  normalize-Covers (Value.list vs) = refl
  normalize-Covers (Value.tuple vs) = refl
  normalize-Covers (Value.dict m) = refl
  normalize-Covers (Value.other b n) = refl

  tagged-Covers :
      (tag prefix : String) → Covers (tagged lower tag prefix) (Host.tagged lower tag prefix)
  tagged-Covers tag prefix =
      when-Covers (starts_with tag prefix) _ _
        (normalize-Covers (Value.str (removeprefix tag prefix)))

  tags-Covers :
      (tags : List String)
      → Covers
          (extract_host_kind_from_policy_tags lower tags)
          (Host.extract_host_kind_from_policy_tags lower tags)
  unfolding extract_host_kind_from_policy_tags Host.extract_host_kind_from_policy_tags
  tags-Covers tags = first_some-Covers _ _ tags (λ tag.
      first_some-Covers _ _ ("host:" ∷ "host_kind:" ∷ "dispatch_host:" ∷ "dispatch_host_kind:" ∷ [])
        (λ prefix. tagged-Covers (lower (strip tag)) prefix))

  aliased-Covers : (m : Fields) → Covers (aliased lower m) (Host.aliased lower m)
  aliased-Covers m =
      first_some-Covers _ _ ("host_kind" ∷ "dispatch_host_kind" ∷ "host" ∷ "dispatch_host" ∷ [])
        (λ key. normalize-Covers (get_item key m))

  aliased_in-Covers : (o : Option Fields) → Covers (aliased_in lower o) (Host.aliased_in lower o)
  aliased_in-Covers none = refl
  aliased_in-Covers (some m) = aliased-Covers m

  payload-Covers :
      (m : Fields)
      → Covers
          (extract_host_kind_from_payload lower m)
          (Host.extract_host_kind_from_payload lower m)
  unfolding extract_host_kind_from_payload Host.extract_host_kind_from_payload
  payload-Covers m =
      or_else-Covers _ _ _ _ (aliased-Covers m)
        (aliased_in-Covers (as_dict (get_item "dispatch" m)))

  input-Covers :
      (o : Option Fields)
      → Covers
          (elim o [
            | none ↦ extract_host_kind_from_payload lower end
            | some m ↦ extract_host_kind_from_payload lower m
          ])
          (elim o [
            | none ↦ Host.extract_host_kind_from_payload lower end
            | some m ↦ Host.extract_host_kind_from_payload lower m
          ])
  input-Covers none = payload-Covers end
  input-Covers (some m) = payload-Covers m

  explicit-Covers :
      (a : Action)
      → Covers (resolve_explicit_host_kind lower a) (Host.resolve_explicit_host_kind lower a)
  unfolding resolve_explicit_host_kind Host.resolve_explicit_host_kind
  explicit-Covers a = or_else-Covers _ _ _ _ (tags-Covers a.policy_tags) (input-Covers a.input_json)

  covered :
      (o p : Option HostKind) (d : HostKind)
      → Covers o p
      → is_remote (elim p [ some kind ↦ kind | none ↦ d ]) ≡ true
      → is_remote (elim o [ some kind ↦ kind | none ↦ d ]) ≡ true
  covered o none d h r = rw h r
  covered o (some remote_service) d h r = rw h refl
  covered o (some local_process) d h r = ground arith
  covered o (some local_cli) d h r = ground arith
  covered o (some cli_process) d h r = ground arith
  covered o (some in_process_python) d h r = ground arith

  remote-host :
      (a : Action)
      → is_remote (Host.resolve_dispatch_host_kind lower a) ≡ true
      → is_remote (resolve_dispatch_host_kind lower a) ≡ true
  unfolding resolve_dispatch_host_kind Host.resolve_dispatch_host_kind
  remote-host a h =
      covered (resolve_explicit_host_kind lower a) (Host.resolve_explicit_host_kind lower a)
        (if not (is_read_only a.effect_class) && is_some a.external_idempotency_level
          then remote_service
          else local_cli)
        (explicit-Covers a) h

  -- An action that the static admission admits is never blocked afterwards by the dispatch policy of the
  -- turn, whatever its tags, payload and costs, although the two find its host by rules of their own.
  pub admit-resolve_dispatch_policy :
      {F : Type 0} (floats : Floats F) (a : Action)
      → (admit lower floats a).admitted ≡ true
      → (resolve_dispatch_policy lower a).should_block ≡ false
  unfolding admit evaluate_action_policy_denies requires_remote_idempotency_contract_block
  admit-resolve_dispatch_policy floats a h =
      let (host, blocks, reason) = resolve_dispatch_policy_blocks lower a in
      ground (
        arith,
        h,
        blocks,
        remote-host a,
        evaluate_guaranteed a.external_idempotency_level
            (extract_remote_service_contract a.input_json),
      )
