-- ===== src/Contracts.antt =====
-- The shared data of agent_kernel/kernel/contracts.py.
use agent_kernel.Prelude.{ℕ, String, Option, List, [], ◌∷◌, Bool, false, ◌||◌, ◌==◌, if◌then◌else◌}
use agent_kernel.Prelude.Dict.{Dict}
use agent_kernel.Prelude.Json.{Value, Fields}
use agent_kernel.Snapshot.{CapabilitySnapshot}

pub data RunLifecycleState : Type 0 where
  created ready dispatching waiting_result waiting_external recovering : RunLifecycleState
  completed failed aborted : RunLifecycleState

pub data EffectClass : Type 0 where
  read_only idempotent_write compensatable_write irreversible_write : EffectClass

-- The value of the `StrEnum`.
abbrev pub effect_text : EffectClass → String
effect_text read_only = "read_only"
effect_text idempotent_write = "idempotent_write"
effect_text compensatable_write = "compensatable_write"
effect_text irreversible_write = "irreversible_write"

pub data ExternalIdempotencyLevel : Type 0 where
  guaranteed best_effort unknown : ExternalIdempotencyLevel

pub data RecoveryMode : Type 0 where
  static_compensation human_escalation abort reflect_and_retry : RecoveryMode

pub record Action : Type 0 where
  pub action_id : String
  pub run_id : String
  pub action_type : String
  pub effect_class : EffectClass
  pub external_idempotency_level : Option ExternalIdempotencyLevel
  pub input_json : Option Fields
  pub policy_tags : List String
  pub timeout_ms : Option ℕ

pub data PeerRetryModel : Type 0 where
  unknown at_most_once at_least_once exactly_once_claimed : PeerRetryModel

pub data RetryPolicy : Type 0 where
  no_auto_retry bounded_retry : RetryPolicy

pub record RemoteServiceIdempotencyContract : Type 0 where
  pub accepts_dispatch_idempotency_key : Bool
  pub returns_stable_ack : Bool
  pub peer_retry_model : PeerRetryModel
  pub default_retry_policy : RetryPolicy

pub data FailedStage : Type 0 where
  admission execution verification reconciliation callback : FailedStage

pub data FailureClass : Type 0 where
  deterministic transient policy side_effect unknown : FailureClass

pub data FailureEvidenceSource : Type 0 where
  external_ack_ref evidence_ref local_inference none_source : FailureEvidenceSource

pub data Retryability : Type 0 where
  retryable non_retryable unknown : Retryability

pub record FailureEnvelope : Type 0 where
  pub run_id : String
  pub action_id : Option String
  pub failed_stage : FailedStage
  pub failed_component : String
  pub failure_code : String
  pub failure_class : FailureClass
  pub evidence_ref : Option String
  pub external_ack_ref : Option String
  pub local_inference : Option String
  pub evidence_priority_source : FailureEvidenceSource
  pub evidence_priority_ref : Option String
  pub retryability : Retryability
  pub compensation_hint : Option String
  pub human_escalation_hint : Option String

pub record RunPolicyVersions : Type 0 where
  pub route_policy_version : Option String
  pub acceptance_policy_version : Option String
  pub memory_policy_version : Option String
  pub skill_policy_version : Option String
  pub evaluation_policy_version : Option String
  pub task_view_policy_version : Option String
  pub pinned_at : String

pub record RunProjection : Type 0 where
  pub run_id : String
  pub lifecycle_state : RunLifecycleState
  pub projected_offset : ℕ
  pub waiting_external : Bool
  pub ready_for_dispatch : Bool
  pub current_action_id : Option String
  pub recovery_mode : Option RecoveryMode
  pub recovery_reason : Option String
  pub active_child_runs : List String
  pub policy_versions : Option RunPolicyVersions
  pub task_contract_ref : Option String

pub record RecoveryDecision : Type 0 where
  pub run_id : String
  pub mode : RecoveryMode
  pub reason : String
  pub compensation_action_id : Option String
  pub escalation_channel_ref : Option String
  pub corrected_action : Option Action
  pub retry_after_ms : Option ℕ
  pub failure_count : ℕ

pub record RecoveryInput : Type 0 where
  pub run_id : String
  pub reason_code : String
  pub lifecycle_state : RunLifecycleState
  pub projection : RunProjection
  pub failed_action_id : Option String
  pub reflection_round : ℕ
  pub capability_snapshot : Option CapabilitySnapshot
  pub failed_effect_class : Option String

pub record ExecutionContext : Type 0 where
  pub run_id : String
  pub action_id : String
  pub causation_id : Option String
  pub correlation_id : Option String
  pub lineage_id : Option String
  pub capability_snapshot_ref : Option String
  pub capability_snapshot_hash : Option String
  pub context_binding_ref : Option String
  pub grant_ref : Option String
  pub policy_snapshot_ref : Option String
  pub rule_bundle_hash : Option String
  pub declarative_bundle_digest : Option Fields
  pub timeout_ms : Option ℕ
  pub budget_ref : Option String

pub data EventClass : Type 0 where
  fact derived : EventClass

pub data EventAuthority : Type 0 where
  authoritative_fact derived_replayable derived_diagnostic : EventAuthority

pub data WakePolicy : Type 0 where
  wake_actor projection_only : WakePolicy

pub record RuntimeEvent : Type 0 where
  pub run_id : String
  pub event_id : String
  pub commit_offset : ℕ
  pub event_type : String
  pub event_class : EventClass
  pub event_authority : EventAuthority
  pub ordering_key : String
  pub wake_policy : WakePolicy
  pub created_at : String
  pub idempotency_key : Option String
  pub payload_ref : Option String
  pub payload_json : Option Fields
  pub schema_version : String

pub record ActionCommit : Type 0 where
  pub run_id : String
  pub commit_id : String
  pub events : List RuntimeEvent
  pub created_at : String
  pub action : Option Action
  pub caused_by : Option String

pub record CircuitBreakerPolicy : Type 0 where
  pub threshold : ℕ
  pub half_open_after_ms : ℕ

pub record TokenBudget : Type 0 where
  pub max_input : ℕ
  pub max_output : ℕ
  pub reasoning_budget : Option ℕ

pub record InferenceConfig : Type 0 where
  pub model_ref : String
  pub token_budget : TokenBudget
  pub temperature : Value
  pub stop_sequences : List String
  pub turn_kind_overrides : Dict TokenBudget

-- The tool and skill definitions and the messages are kept as the values that they hold.
pub record ContextWindow : Type 0 where
  pub system_instructions : String
  pub tool_definitions : List Value
  pub skill_definitions : List Value
  pub history : List Fields
  pub current_state : Fields
  pub memory_ref : Option String
  pub recovery_context : Option Fields
  pub inference_config : Option InferenceConfig

pub record ScriptFailureEvidence : Type 0 where
  pub script_id : String
  pub failure_kind : String
  pub budget_consumed_ratio : Value
  pub output_produced : Bool
  pub suspected_cause : Option String
  pub partial_output : Option String
  pub original_script : String
  pub stderr_tail : Option String

pub record ReflectionPolicy : Type 0 where
  pub max_rounds : ℕ
  pub reflection_timeout_ms : ℕ
  pub reflectable_failure_kinds : List String
  pub non_reflectable_failure_kinds : List String
  pub escalate_on_exhaustion : Bool

-- `kind in kinds`
abbrev pub among : String → List String → Bool
among kind [] = false
among kind (k ∷ r) = k == kind || among kind r

-- `ReflectionPolicy.is_reflectable`
unfoldable pub is_reflectable : ReflectionPolicy → String → Bool
is_reflectable p failure_kind =
    if among failure_kind p.non_reflectable_failure_kinds
    then false
    else among failure_kind p.reflectable_failure_kinds

-- The host kind and the network policy of a grant are kept as their texts.
pub record SandboxGrant : Type 0 where
  pub grant_ref : String
  pub host_kind : String
  pub sandbox_profile_ref : Option String
  pub allowed_mounts : List String
  pub denied_mounts : List String
  pub network_policy : String
  pub allowed_hosts : List String

pub record AdmissionResult : Type 0 where
  pub admitted : Bool
  pub reason_code : String
  pub expires_at : Option String
  pub grant_ref : Option String
  pub policy_snapshot_ref : Option String
  pub sandbox_grant : Option SandboxGrant
  pub idempotency_envelope : Option Fields
