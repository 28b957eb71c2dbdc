-- ===== src/Actor/Payloads.antt =====
-- The payloads of a turn's and of a recovery's events, as the run actor builds them
-- (agent_kernel/substrate/temporal/run_actor_workflow.py).
use agent_kernel.Prelude.{String, List, [], ◌∷◌, Option, none, some}
use agent_kernel.Prelude.Json.{Value, Items, nil, cons, Fields, end, field}
use agent_kernel.Contracts.{
  RecoveryMode, RecoveryDecision, FailureEnvelope, FailedStage, FailureClass, FailureEvidenceSource,
  ExternalIdempotencyLevel, RetryPolicy, ExecutionContext,
}
use agent_kernel.Policy.Remote.{RemoteDispatchPolicyDecision, PolicyReason}
use agent_kernel.Runtime.Admission.{host_text}
use agent_kernel.Turn.State.{
  TurnState, TurnOutcomeKind, EventState, fsm, reasoning_failed, dedupe_degraded, TurnStateEvent,
  ActionCommit, TurnResult,
}

abbrev pub mode_text : RecoveryMode → String
mode_text RecoveryMode.static_compensation = "static_compensation"
mode_text RecoveryMode.human_escalation = "human_escalation"
mode_text RecoveryMode.abort = "abort"
mode_text RecoveryMode.reflect_and_retry = "reflect_and_retry"

abbrev pub state_text : TurnState → String
state_text TurnState.collecting = "collecting"
state_text TurnState.intent_committed = "intent_committed"
state_text TurnState.reasoning = "reasoning"
state_text TurnState.snapshot_built = "snapshot_built"
state_text TurnState.admission_checked = "admission_checked"
state_text TurnState.dispatch_blocked = "dispatch_blocked"
state_text TurnState.dispatched = "dispatched"
state_text TurnState.dispatch_acknowledged = "dispatch_acknowledged"
state_text TurnState.effect_unknown = "effect_unknown"
state_text TurnState.effect_recorded = "effect_recorded"
state_text TurnState.recovery_pending = "recovery_pending"
state_text TurnState.completed_noop = "completed_noop"

abbrev pub event_state_text : EventState → String
event_state_text (fsm s) = state_text s
event_state_text reasoning_failed = "reasoning_failed"
event_state_text dedupe_degraded = "dedupe_degraded"

abbrev pub kind_text : TurnOutcomeKind → String
kind_text TurnOutcomeKind.noop = "noop"
kind_text TurnOutcomeKind.blocked = "blocked"
kind_text TurnOutcomeKind.dispatched = "dispatched"
kind_text TurnOutcomeKind.recovery_pending = "recovery_pending"

abbrev pub stage_text : FailedStage → String
stage_text FailedStage.admission = "admission"
stage_text FailedStage.execution = "execution"
stage_text FailedStage.verification = "verification"
stage_text FailedStage.reconciliation = "reconciliation"
stage_text FailedStage.callback = "callback"

abbrev pub failure_class_text : FailureClass → String
failure_class_text FailureClass.deterministic = "deterministic"
failure_class_text FailureClass.transient = "transient"
failure_class_text FailureClass.policy = "policy"
failure_class_text FailureClass.side_effect = "side_effect"
failure_class_text FailureClass.unknown = "unknown"

abbrev pub source_text : FailureEvidenceSource → String
source_text FailureEvidenceSource.external_ack_ref = "external_ack_ref"
source_text FailureEvidenceSource.evidence_ref = "evidence_ref"
source_text FailureEvidenceSource.local_inference = "local_inference"
source_text FailureEvidenceSource.none_source = "none"

abbrev pub level_text : ExternalIdempotencyLevel → String
level_text ExternalIdempotencyLevel.guaranteed = "guaranteed"
level_text ExternalIdempotencyLevel.best_effort = "best_effort"
level_text ExternalIdempotencyLevel.unknown = "unknown"

abbrev pub retry_policy_text : RetryPolicy → String
retry_policy_text RetryPolicy.no_auto_retry = "no_auto_retry"
retry_policy_text RetryPolicy.bounded_retry = "bounded_retry"

abbrev pub reason_text : PolicyReason → String
reason_text PolicyReason.missing_remote_idempotency_contract = "missing_remote_idempotency_contract"
reason_text PolicyReason.validated_remote_contract = "validated_remote_contract"
reason_text PolicyReason.remote_contract_constrained = "remote_contract_constrained"

abbrev pub text_or_none : Option String → Value
text_or_none none = Value.null
text_or_none (some s) = Value.str s

-- `payload[key] = value` where there is a value.
abbrev given {ℓ} : {A : Type ℓ} → String → Option A → (A → Value) → Fields → Fields
given key none f m = m
given key (some a) f m = field key (f a) m

-- `_build_remote_policy_decision_payload`
unfoldable pub build_remote_policy_decision_payload : RemoteDispatchPolicyDecision → Value
build_remote_policy_decision_payload d = Value.dict (
    field "effective_idempotency_level" (Value.str (level_text d.effective_idempotency_level)) (
      field "default_retry_policy" (Value.str (retry_policy_text d.default_retry_policy)) (
        field "auto_retry_enabled" (Value.bool d.auto_retry_enabled) (
          field "can_claim_guaranteed" (Value.bool d.can_claim_guaranteed)
            (field "reason" (Value.str (reason_text d.reason)) end)))))

-- `_extract_turn_emitted_states`; no state's text is empty.
unfoldable pub extract_turn_emitted_states : List TurnStateEvent → Items
extract_turn_emitted_states [] = nil
extract_turn_emitted_states (e ∷ events) =
    cons (Value.str (event_state_text e.state)) (extract_turn_emitted_states events)

abbrev pub states_of : List TurnStateEvent → Option Items
states_of [] = none
states_of (e ∷ events) = some (extract_turn_emitted_states (e ∷ events))

-- `_build_recovery_input_payload`
unfoldable pub build_recovery_input_payload : FailureEnvelope → Value
build_recovery_input_payload f = Value.dict (
    field "failure_code" (Value.str f.failure_code) (
      field "failed_stage" (Value.str (stage_text f.failed_stage)) (
        field "failed_component" (Value.str f.failed_component) (
          field "failure_class" (Value.str (failure_class_text f.failure_class)) (
            field "evidence_priority_source" (Value.str (source_text f.evidence_priority_source))
              (field "evidence_priority_ref" (text_or_none f.evidence_priority_ref) end))))))

module _ (context_value : ExecutionContext → Value) where
  -- The copy of the dict under `action_commit`; `context_value` is the object in it as a value.
  abbrev pub commit_value : ActionCommit → Value
  commit_value c = Value.dict (
      field "action_id" (Value.str c.action_id) (
        field "run_id" (Value.str c.run_id) (
          field "committed_at" (Value.str c.committed_at)
            (field "execution_context" (context_value c.execution_context) end))))

  -- `_build_turn_outcome_payload`
  unfoldable pub build_turn_outcome_payload : TurnResult → Fields
  unfolding build_remote_policy_decision_payload extract_turn_emitted_states
      build_recovery_input_payload
  build_turn_outcome_payload r =
      let recovery = given "recovery_input" r.recovery_input build_recovery_input_payload end in
      let committed = given "action_commit" r.action_commit commit_value recovery in
      let states = given "emitted_states" (states_of r.emitted_events) Value.list committed in
      let policy =
        given "remote_policy_decision" r.remote_policy_decision build_remote_policy_decision_payload
          states in
      let host = given "host_kind" r.host_kind (λ h. Value.str (host_text h)) policy in
      let key = given "dispatch_dedupe_key" r.dispatch_dedupe_key Value.str host in
      let intent = given "intent_commit_ref" r.intent_commit_ref Value.str key in
      field "state" (Value.str (state_text r.state)) (
        field "outcome_kind" (Value.str (kind_text r.outcome_kind)) (
          field "decision_ref" (Value.str r.decision_ref)
            (field "decision_fingerprint" (Value.str r.decision_fingerprint) intent)))

abbrev pub plan_payload : RecoveryDecision → Fields
plan_payload d = field "planned_mode" (Value.str (mode_text d.mode)) (
    field "reason" (Value.str d.reason) (
      field "compensation_action_id" (text_or_none d.compensation_action_id)
        (field "escalation_channel_ref" (text_or_none d.escalation_channel_ref) end)))

abbrev pub recovery_payload : RecoveryDecision → Fields
recovery_payload d =
    field "mode" (Value.str (mode_text d.mode)) (field "reason" (Value.str d.reason) end)
