-- ===== src/Policy/Remote.antt =====
-- agent_kernel/kernel/remote_service_policy.py: what a dispatch to a remote service may claim, from
-- the level the action declares and the contract the service offers.
use agent_kernel.Prelude.{
  ◌≡◌, Option, none, some, Bool, true, false, ◌&&◌, not, arith, if◌then◌else◌,
}
use agent_kernel.Contracts.{
  ExternalIdempotencyLevel, guaranteed, best_effort, RemoteServiceIdempotencyContract, RetryPolicy,
  no_auto_retry, bounded_retry,
}

pub data PolicyReason : Type 0 where
  missing_remote_idempotency_contract validated_remote_contract : PolicyReason
  remote_contract_constrained : PolicyReason

pub record RemoteDispatchPolicyDecision : Type 0 where
  pub effective_idempotency_level : ExternalIdempotencyLevel
  pub default_retry_policy : RetryPolicy
  pub auto_retry_enabled : Bool
  pub can_claim_guaranteed : Bool
  pub reason : PolicyReason

abbrev pub is_guaranteed : ExternalIdempotencyLevel → Bool
is_guaranteed guaranteed = true
is_guaranteed _ = false

abbrev is_bounded : RetryPolicy → Bool
is_bounded bounded_retry = true
is_bounded no_auto_retry = false

-- `external_level or "unknown"`
abbrev pub normalized_level : Option ExternalIdempotencyLevel → ExternalIdempotencyLevel
normalized_level none = ExternalIdempotencyLevel.unknown
normalized_level (some l) = l

abbrev pub proves_guarantee : RemoteServiceIdempotencyContract → Bool
proves_guarantee c = c.accepts_dispatch_idempotency_key && c.returns_stable_ack

unfoldable pub evaluate_remote_service_policy :
    Option ExternalIdempotencyLevel
    → Option RemoteServiceIdempotencyContract
    → RemoteDispatchPolicyDecision
evaluate_remote_service_policy external_level none =
    let level = normalized_level external_level in
    record {
      effective_idempotency_level = if is_guaranteed level then best_effort else level;
      default_retry_policy = no_auto_retry;
      auto_retry_enabled = false;
      can_claim_guaranteed = false;
      reason = missing_remote_idempotency_contract;
    }
evaluate_remote_service_policy external_level (some c) =
    let level = normalized_level external_level in
    let can_claim = is_guaranteed level && proves_guarantee c in
    record {
      effective_idempotency_level =
          if can_claim then guaranteed else if is_guaranteed level then best_effort else level;
      default_retry_policy = c.default_retry_policy;
      auto_retry_enabled = is_bounded c.default_retry_policy;
      can_claim_guaranteed = can_claim;
      reason = if can_claim then validated_remote_contract else remote_contract_constrained;
    }

-- Whether the action asked for the guaranteed level, and whether a contract can prove it.
abbrev pub asked : Option ExternalIdempotencyLevel → Bool
asked (some guaranteed) = true
asked _ = false

abbrev pub offered : Option RemoteServiceIdempotencyContract → Bool
offered none = false
offered (some c) = proves_guarantee c

-- The guaranteed level is claimed exactly when the action asked for it and a contract accepts the
-- dispatch key and returns a stable acknowledgement, and the decision is at that level exactly then.
-- Where it was asked for and cannot be claimed the level is best_effort, and else it is the level that
-- was asked for.
pub evaluate_guaranteed :
    (l : Option ExternalIdempotencyLevel) (c : Option RemoteServiceIdempotencyContract)
    → let d = evaluate_remote_service_policy l c in
      (d.can_claim_guaranteed ≡ (asked l && offered c))
      × (is_guaranteed d.effective_idempotency_level ≡ (asked l && offered c))
      × (d.effective_idempotency_level
          ≡ (if asked l && not (offered c) then best_effort else normalized_level l))
unfolding evaluate_remote_service_policy
evaluate_guaranteed l c = ground arith

-- A retry without being asked happens only where a contract allows a bounded one.
pub evaluate_retry :
    (l : Option ExternalIdempotencyLevel) (c : Option RemoteServiceIdempotencyContract)
    → (evaluate_remote_service_policy l c).auto_retry_enabled ≡ true
    → (k : RemoteServiceIdempotencyContract) × (c ≡ some k)
      × (k.default_retry_policy ≡ bounded_retry)
unfolding evaluate_remote_service_policy
evaluate_retry l none h = cc
evaluate_retry l (some k) h = (k, ground arith, ground arith)
