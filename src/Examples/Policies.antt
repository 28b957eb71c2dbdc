-- ===== src/Examples/Policies.antt =====
-- Decisions of the policies at concrete actions and failures.
use agent_kernel.Prelude.{◌≡◌, refl, none, some, true, false, String, is_some}
use agent_kernel.Prelude.Json.{get_item}
use agent_kernel.Prelude.Text.{strip}
use agent_kernel.Contracts.{
  RemoteServiceIdempotencyContract, PeerRetryModel, RetryPolicy, FailureEnvelope, FailedStage,
  FailureClass, Retryability, FailureEvidenceSource,
}
use agent_kernel.Dedupe.{HostKind}
use agent_kernel.Policy.Remote.{evaluate_remote_service_policy}
use agent_kernel.Policy.Host.{
  resolve_dispatch_policy, resolve_dispatch_host_kind, resolve_explicit_host_kind,
  extract_remote_service_contract, resolve_dispatch_policy_blocks,
}
use agent_kernel.Policy.Evidence.{
  apply_failure_evidence_priority, apply_failure_evidence_priority_first, normalize_optional_ref,
  cited,
}
use agent_kernel.Snapshot.{CapabilitySnapshot, snapshot_of}
use agent_kernel.Turn.State.{Admission, EnvelopePayload, TurnIdentity}
use agent_kernel.Turn.Identity.{build_turn_identity}
use agent_kernel.Turn.Envelope.{
  resolve_idempotency_envelope, resolve_idempotency_envelope_identity, plain_input,
}
use agent_kernel.Examples.Values.{
  plain_codec, plain_services, first_input, write_action, bare_action, first_envelope,
}

abbrev same_text : String → String
same_text s = s

abbrev weak_contract : RemoteServiceIdempotencyContract
weak_contract = record {
  accepts_dispatch_idempotency_key = true;
  returns_stable_ack = false;
  peer_retry_model = PeerRetryModel.at_least_once;
  default_retry_policy = RetryPolicy.bounded_retry;
}

weak_retries : (evaluate_remote_service_policy none (some weak_contract)).auto_retry_enabled ≡ true
unfolding evaluate_remote_service_policy
weak_retries = refl

resolve_dispatch_policy_blocks_example :
    let d = resolve_dispatch_policy same_text bare_action in
    (d.host_kind ≡ resolve_dispatch_host_kind same_text bare_action)
    × (d.should_block ≡ true)
    × (is_some d.block_reason ≡ d.should_block)
unfolding resolve_dispatch_host_kind resolve_explicit_host_kind extract_remote_service_contract
    get_item strip
resolve_dispatch_policy_blocks_example = resolve_dispatch_policy_blocks same_text bare_action

-- A payload that names another key, which the engine replaces.
abbrev foreign_admission : Admission
foreign_admission = Admission.object (record {
  admitted = some true;
  truth = true;
  idempotency_envelope = EnvelopePayload.typed first_envelope;
  policy_snapshot_ref = none;
  grant_ref = some "grant-1";
})

abbrev first_identity : TurnIdentity
first_identity = build_turn_identity plain_codec first_input write_action (some "h1")

abbrev first_snapshot : CapabilitySnapshot
first_snapshot = snapshot_of plain_codec "now" (plain_input first_input "policy:default" "strict")

resolve_idempotency_envelope_identity_example :
    let e =
      resolve_idempotency_envelope plain_services foreign_admission first_identity write_action
        first_snapshot HostKind.local_cli in
    (e.dispatch_idempotency_key ≡ first_identity.dispatch_dedupe_key)
    × (e.operation_fingerprint ≡ first_identity.decision_fingerprint)
resolve_idempotency_envelope_identity_example =
    resolve_idempotency_envelope_identity plain_services foreign_admission first_identity
      write_action first_snapshot HostKind.local_cli

-- A failure with a blank acknowledgement and an artifact with spaces around it.
abbrev failure : FailureEnvelope
failure = record {
  run_id = "run-1";
  action_id = some "a1";
  failed_stage = FailedStage.execution;
  failed_component = "executor";
  failure_code = "effect_unknown";
  failure_class = FailureClass.unknown;
  evidence_ref = some " artifact:7 ";
  external_ack_ref = some "  ";
  local_inference = some "hint";
  evidence_priority_source = FailureEvidenceSource.none_source;
  evidence_priority_ref = none;
  retryability = Retryability.unknown;
  compensation_hint = none;
  human_escalation_hint = none;
}

apply_failure_evidence_priority_first_example :
    let e = apply_failure_evidence_priority failure in
    (e.evidence_priority_ref ≡ some "artifact:7")
    × (normalize_optional_ref (cited e.evidence_priority_source failure) ≡ e.evidence_priority_ref)
unfolding normalize_optional_ref strip
apply_failure_evidence_priority_first_example = apply_failure_evidence_priority_first failure
