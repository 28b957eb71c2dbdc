-- ===== src/Turn/Results.antt =====
-- How a turn ends: the results and small decisions of agent_kernel/kernel/turn_engine.py.
use agent_kernel.Prelude.{Option, none, some, Bool, true, false, String, [], ◌∷◌}
use agent_kernel.Prelude.Errors.{Outcome, ok, raised, Exn, type_error}
use agent_kernel.Prelude.Text.{concat, str_ℤ}
use agent_kernel.Prelude.Json.{Fields}
use agent_kernel.Contracts.{
  Action, EffectClass, idempotent_write, FailureEnvelope, FailedStage, FailureClass, Retryability,
  FailureEvidenceSource,
}
use agent_kernel.Dedupe.{HostKind, remote_service}
use agent_kernel.Policy.Host.{DispatchPolicy}
use agent_kernel.Policy.Evidence.{apply_failure_evidence_priority}
use agent_kernel.Turn.State.{
  TurnState, TurnOutcomeKind, event, TurnIdentity, TurnResult, Admission, bare, object, awaitable,
  Context, emit,
}
use agent_kernel.Turn.Identity.{decision_ref_of, trigger_text}
use agent_kernel.Turn.Envelope.{read_optional_string}

-- `TurnResult` of a turn that ends before its identity is known.
abbrev pub anonymous_noop : Context → TurnResult
anonymous_noop c = record {
  state = TurnState.completed_noop;
  outcome_kind = TurnOutcomeKind.noop;
  decision_ref = decision_ref_of c.input_value;
  decision_fingerprint = concat (
      c.input_value.run_id
      ∷ ":"
      ∷ trigger_text c.input_value.trigger_type
      ∷ ":noop:"
      ∷ str_ℤ c.input_value.based_on_offset
      ∷ []);
  dispatch_dedupe_key = none;
  intent_commit_ref = none;
  host_kind = none;
  remote_policy_decision = none;
  action_commit = none;
  recovery_input = none;
  emitted_events = c.emitted_events;
}

-- `TurnResult` under an identity, with nothing committed.
abbrev pub result_of : TurnState → TurnOutcomeKind → TurnIdentity → Context → TurnResult
result_of state kind ti c = record {
  state = state;
  outcome_kind = kind;
  decision_ref = ti.decision_ref;
  decision_fingerprint = ti.decision_fingerprint;
  dispatch_dedupe_key = some ti.dispatch_dedupe_key;
  intent_commit_ref = some ti.intent_commit_ref;
  host_kind = none;
  remote_policy_decision = none;
  action_commit = none;
  recovery_input = none;
  emitted_events = c.emitted_events;
}

-- The end of a phase with the result that the context then gives.
abbrev pub finish : (Context → TurnResult) → Context → Context
finish r c = record c { result = some (r c) }

abbrev pub end_noop : Context → Context
end_noop c = finish anonymous_noop (emit (event TurnState.completed_noop) c)

abbrev pub end_blocked : TurnIdentity → Context → Context
end_blocked ti c =
    finish (result_of TurnState.dispatch_blocked TurnOutcomeKind.blocked ti)
      (emit (event TurnState.dispatch_blocked) c)

-- A block by the dispatch policy or later, which tells the host and the policy's decision too.
abbrev pub end_blocked_at : TurnIdentity → DispatchPolicy → Option String → Context → Context
end_blocked_at ti dp reason c =
    finish
      (λ c'. record (result_of TurnState.dispatch_blocked TurnOutcomeKind.blocked ti c') {
        host_kind = some dp.host_kind;
        remote_policy_decision = dp.remote_policy_decision;
      })
      (emit (record (event TurnState.dispatch_blocked) { reason = reason }) c)

abbrev pub is_idempotent_write : EffectClass → Bool
is_idempotent_write idempotent_write = true
is_idempotent_write _ = false

unfoldable pub is_admitted : Admission → Outcome Bool
is_admitted awaitable = raised type_error
is_admitted (bare b) = ok b
is_admitted (object o) = elim o.admitted [ some b ↦ ok b | none ↦ ok o.truth ]

unfoldable pub resolve_dedupe_downgrade_scope : HostKind → String
resolve_dedupe_downgrade_scope remote_service = "irreversible_write"
resolve_dedupe_downgrade_scope _ = "compensatable_write"

-- `type(error).__name__`
abbrev pub exn_name : Exn → String
exn_name Exn.assertion_error = "AssertionError"
exn_name Exn.type_error = "TypeError"
exn_name Exn.value_error = "ValueError"
exn_name Exn.key_error = "KeyError"
exn_name Exn.index_error = "IndexError"
exn_name Exn.runtime_error = "RuntimeError"
exn_name Exn.capability_snapshot_build_error = "CapabilitySnapshotBuildError"
exn_name Exn.policy_resolution_error = "PolicyResolutionError"
exn_name Exn.schema_migration_error = "SchemaMigrationError"
exn_name Exn.dedupe_store_state_error = "DedupeStoreStateError"
exn_name Exn.compensation_exhausted_error = "CompensationExhaustedError"
exn_name Exn.external_error = "Exception"

-- `_build_recovery_pending_turn_result`
unfoldable pub build_recovery_pending_turn_result :
    Action → TurnIdentity → Fields → DispatchPolicy → Context → TurnResult
build_recovery_pending_turn_result a ti m dp c =
    let failure_envelope : FailureEnvelope = record {
      run_id = c.input_value.run_id;
      action_id = some a.action_id;
      failed_stage = FailedStage.execution;
      failed_component = "executor";
      failure_code = "effect_unknown";
      failure_class = FailureClass.unknown;
      evidence_ref = read_optional_string m "evidence_ref";
      external_ack_ref = read_optional_string m "external_ack_ref";
      local_inference = elim (read_optional_string m "local_inference") [
        | some s ↦ some s
        | none ↦ some "turn_engine:effect_unknown_without_ack"
      ];
      evidence_priority_source = FailureEvidenceSource.none_source;
      evidence_priority_ref = none;
      retryability = Retryability.unknown;
      compensation_hint = none;
      human_escalation_hint = some "manual_verification_required";
    } in
    record (result_of TurnState.recovery_pending TurnOutcomeKind.recovery_pending ti c) {
      host_kind = some dp.host_kind;
      remote_policy_decision = dp.remote_policy_decision;
      recovery_input = some (apply_failure_evidence_priority failure_envelope);
    }

-- `ctx.admission_result`; None has none of the attributes that are read of it, as a bool has none.
abbrev pub admission_or_none : Option Admission → Admission
admission_or_none none = bare false
admission_or_none (some r) = r
