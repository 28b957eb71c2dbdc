-- ===== src/Examples/Values.antt =====
-- The concrete services, actions and payloads that the examples share.
use agent_kernel.Prelude.{none, some, true, false, []}
use agent_kernel.Prelude.Errors.{ok}
use agent_kernel.Prelude.Text.{ℤ, Codec}
use agent_kernel.Prelude.Json.{Value, Fields, end, field}
use agent_kernel.Contracts.{Action, EffectClass, ExternalIdempotencyLevel}
use agent_kernel.Dedupe.{HostKind, IdempotencyEnvelope}
use agent_kernel.Snapshot.{build}
use agent_kernel.Turn.State.{TurnInput, TurnTriggerType, Services, Admission}

-- A codec that serialises every payload alike, with the text itself as its digest.
abbrev pub plain_codec : Codec
plain_codec = record {
  dumps = λ v. "{}";
  dumps_unicode = λ v. "0123456789abcdef";
  sha256 = λ s. s;
  repr = λ v. "object";
  to_str = λ v. "value";
}

abbrev pub remote_payload : Fields
remote_payload = field "host_kind" (Value.str "remote_service") (
    field "idempotency_contract"
      (Value.dict (
        field "accepts_dispatch_idempotency_key" (Value.bool true) (
          field "returns_stable_ack" (Value.bool true) (
            field "peer_retry_model" (Value.str "at_most_once")
              (field "default_retry_policy" (Value.str "bounded_retry") end)))))
      end)

abbrev pub write_action : Action
write_action = record {
  action_id = "a1";
  run_id = "run-1";
  action_type = "write_file";
  effect_class = EffectClass.idempotent_write;
  external_idempotency_level = some ExternalIdempotencyLevel.guaranteed;
  input_json = some remote_payload;
  policy_tags = [];
  timeout_ms = none;
}

-- The same action without a contract in its payload.
abbrev pub bare_action : Action
bare_action = record write_action {
  input_json = some (field "host_kind" (Value.str "remote_service") end);
}

abbrev pub first_input : TurnInput
first_input = record {
  run_id = "run-1";
  through_offset = ℤ.pos 3;
  based_on_offset = ℤ.pos 2;
  trigger_type = TurnTriggerType.start;
  history = [];
}

-- An admission service that admits all, an executor that acknowledges all.
abbrev pub plain_services : Services
plain_services = record {
  codec = plain_codec;
  now = "2026-01-01T00:00:00Z";
  lower = λ s. s;
  build = build plain_codec "2026-01-01T00:00:00Z";
  admit = some (λ a s. ok (Admission.bare true));
  execute = λ calls c. ok (field "acknowledged" (Value.bool true) end);
  takes_execution_context = true;
  resolve = none;
  require_declared_snapshot_inputs = false;
  reason = none;
  model_ref = "model";
  tenant_policy_ref = "policy:default";
  permission_mode = "strict";
}

abbrev pub first_envelope : IdempotencyEnvelope
first_envelope = record {
  dispatch_idempotency_key = "k1";
  operation_fingerprint = "f1";
  attempt_seq = 1;
  effect_scope = "idempotent_write";
  capability_snapshot_hash = "h1";
  host_kind = HostKind.local_cli;
  peer_operation_id = some "peer-0";
  policy_snapshot_ref = none;
  rule_bundle_hash = none;
}
