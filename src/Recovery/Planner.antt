-- ===== src/Recovery/Planner.antt =====
-- agent_kernel/kernel/recovery/planner.py: the next action after a failure.
-- `lower` is Python's `str.lower`.
pub mod Choice
use agent_kernel.Prelude.{
  Option, none, some, Bool, true, false, not, String, List, [], ◌∷◌, ◌++◌, ◌==◌, if◌then◌else◌,
}
use agent_kernel.Prelude.Errors.{Outcome, ok, raised, value_error}
use agent_kernel.Prelude.Text.{concat, strip, or_text}
use agent_kernel.Contracts.{
  RunLifecycleState, RecoveryMode, RunProjection, RecoveryDecision, RecoveryInput,
}
use text.Mathlib.Text.{starts_with}

pub data RecoveryPlanAction : Type 0 where
  schedule_compensation notify_human_operator abort_run : RecoveryPlanAction

pub data ReasonClassification : Type 0 where
  human fatal transient unknown : ReasonClassification

pub record RecoveryPlan : Type 0 where
  pub run_id : String
  pub action : RecoveryPlanAction
  pub reason : String
  pub compensation_action_id : Option String
  pub escalation_channel_ref : Option String

pub record PlannerHeuristicPolicy : Type 0 where
  pub reason_prefix : String
  pub default_escalation_channel_ref : String
  pub human_reason_prefixes : List String
  pub transient_reason_prefixes : List String
  pub fatal_reason_prefixes : List String
  pub abort_reason_prefixes : List String
  pub transient_action : RecoveryPlanAction
  pub fatal_action : RecoveryPlanAction
  pub human_action : RecoveryPlanAction
  pub unknown_action : RecoveryPlanAction

abbrev pub default_policy : PlannerHeuristicPolicy
default_policy = record {
  reason_prefix = "recovery";
  default_escalation_channel_ref = "human://operator";
  human_reason_prefixes =
      "human_" ∷ "manual_" ∷ "requires_human" ∷ "waiting_external" ∷ "external_" ∷ [];
  transient_reason_prefixes = "transient_" ∷ "executor_transient" ∷ "retryable_" ∷ [];
  fatal_reason_prefixes = "fatal" ∷ "non_recoverable" ∷ "permission_denied" ∷ "policy_denied" ∷ [];
  abort_reason_prefixes = [];
  transient_action = schedule_compensation;
  fatal_action = abort_run;
  human_action = notify_human_operator;
  unknown_action = schedule_compensation;
}

unfoldable pub has_prefix : String → List String → Bool
has_prefix value [] = false
has_prefix value (prefix ∷ r) =
    let rest = has_prefix value r in if starts_with value prefix then true else rest

unfoldable pub action_for_classification :
    PlannerHeuristicPolicy → ReasonClassification → RecoveryPlanAction
action_for_classification p human = p.human_action
action_for_classification p fatal = p.fatal_action
action_for_classification p transient = p.transient_action
action_for_classification p unknown = p.unknown_action

-- The plan of an action, with nothing to compensate and nobody to tell.
abbrev pub bare_plan : String → RecoveryPlanAction → String → RecoveryPlan
bare_plan run_id action reason = record {
  run_id = run_id;
  action = action;
  reason = reason;
  compensation_action_id = none;
  escalation_channel_ref = none;
}

-- The plan of an authoritative decision.
abbrev pub plan_of_decision : RecoveryDecision → RecoveryMode → RecoveryPlan
plan_of_decision d RecoveryMode.static_compensation =
    record (bare_plan d.run_id schedule_compensation d.reason) {
      compensation_action_id = d.compensation_action_id;
    }
plan_of_decision d RecoveryMode.human_escalation =
    record (bare_plan d.run_id notify_human_operator d.reason) {
      escalation_channel_ref = d.escalation_channel_ref;
    }
plan_of_decision d _ = bare_plan d.run_id abort_run d.reason

unfoldable pub build_plan : RecoveryDecision → RunProjection → Outcome RecoveryPlan
build_plan d projection =
    if d.run_id == projection.run_id then ok (plan_of_decision d d.mode) else raised value_error

abbrev is_waiting_external : RunLifecycleState → Bool
is_waiting_external RunLifecycleState.waiting_external = true
is_waiting_external _ = false

module _ (lower : String → String) (p : PlannerHeuristicPolicy) where
  unfoldable pub classify_reason : String → ReasonClassification
  unfolding has_prefix
  classify_reason reason_code =
      let normalized_reason = lower (strip reason_code) in
      if has_prefix normalized_reason p.human_reason_prefixes
      then human
      else if has_prefix normalized_reason (p.fatal_reason_prefixes ++ p.abort_reason_prefixes)
      then fatal
      else if has_prefix normalized_reason p.transient_reason_prefixes
      then transient
      else unknown

  abbrev escalated : RecoveryPlan → RecoveryPlan
  escalated plan = record plan {
    action = notify_human_operator;
    escalation_channel_ref = some p.default_escalation_channel_ref;
  }

  -- What the heuristics' action comes to; there is nothing to compensate without an action id.
  abbrev chosen : RecoveryPlanAction → Option String → RecoveryPlan → RecoveryPlan
  chosen notify_human_operator compensation_action_id plan = escalated plan
  chosen schedule_compensation (some action_id) plan = record plan {
    action = schedule_compensation;
    compensation_action_id = some action_id;
  }
  chosen schedule_compensation none plan = plan
  chosen abort_run compensation_action_id plan = plan

  -- No mode that is explicit: the lifecycle state and the reason decide.
  abbrev heuristic : RecoveryInput → Option String → RecoveryPlan → RecoveryPlan
  heuristic i compensation_action_id plan =
      if is_waiting_external i.lifecycle_state
      then escalated plan
      else chosen (action_for_classification p (classify_reason (lower (strip i.reason_code))))
          compensation_action_id plan

  abbrev pub plan_of_mode :
      Option RecoveryMode → RecoveryInput → Option String → RecoveryPlan → RecoveryPlan
  plan_of_mode (some RecoveryMode.human_escalation) i compensation_action_id plan = escalated plan
  plan_of_mode (some RecoveryMode.static_compensation) i compensation_action_id plan = record plan {
    action = schedule_compensation;
    compensation_action_id = compensation_action_id;
  }
  plan_of_mode (some RecoveryMode.abort) i compensation_action_id plan = plan
  plan_of_mode (some RecoveryMode.reflect_and_retry) i compensation_action_id plan =
      heuristic i compensation_action_id plan
  plan_of_mode none i compensation_action_id plan = heuristic i compensation_action_id plan

  unfoldable pub build_plan_from_input : RecoveryInput → Outcome RecoveryPlan
  unfolding classify_reason action_for_classification
  build_plan_from_input i =
      let reason = concat (p.reason_prefix ∷ ":" ∷ i.reason_code ∷ []) in
      if i.run_id == i.projection.run_id
      then ok (
          plan_of_mode i.projection.recovery_mode i
            (or_text i.failed_action_id i.projection.current_action_id)
            (bare_plan i.run_id abort_run reason))
      else raised value_error
