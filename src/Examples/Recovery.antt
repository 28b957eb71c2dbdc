-- ===== src/Examples/Recovery.antt =====
-- Plans for one failed run.
use agent_kernel.Prelude.{◌≡◌, refl, none, some, false, String, []}
use agent_kernel.Prelude.Errors.{ok}
use agent_kernel.Contracts.{
  RunLifecycleState, RecoveryMode, RunProjection, RecoveryDecision, RecoveryInput,
}
use agent_kernel.Recovery.Planner.{
  RecoveryPlan, RecoveryPlanAction, default_policy, build_plan_from_input,
}
use agent_kernel.Recovery.Planner.Choice.{IsCoherent, build_plan_from_input-IsCoherent}
use agent_kernel.Prelude.Text.{strip}

abbrev pub same_text : String → String
same_text s = s

abbrev failed_projection : RunProjection
failed_projection = record {
  run_id = "run-1";
  lifecycle_state = RunLifecycleState.recovering;
  projected_offset = 4;
  waiting_external = false;
  ready_for_dispatch = false;
  current_action_id = some "a1";
  recovery_mode = none;
  recovery_reason = none;
  active_child_runs = [];
  policy_versions = none;
  task_contract_ref = none;
}

abbrev pub transient_failure : RecoveryInput
transient_failure = record {
  run_id = "run-1";
  reason_code = " executor_transient:timeout";
  lifecycle_state = RunLifecycleState.recovering;
  projection = failed_projection;
  failed_action_id = some "";
  reflection_round = 0;
  capability_snapshot = none;
  failed_effect_class = none;
}

abbrev compensation_plan : RecoveryPlan
compensation_plan = record {
  run_id = "run-1";
  action = RecoveryPlanAction.schedule_compensation;
  reason = "recovery: executor_transient:timeout";
  compensation_action_id = some "a1";
  escalation_channel_ref = none;
}

transient_failure_plan :
    build_plan_from_input same_text default_policy transient_failure ≡ ok compensation_plan
unfolding build_plan_from_input strip
transient_failure_plan = refl

build_plan_from_input-IsCoherent_example : IsCoherent transient_failure compensation_plan
build_plan_from_input-IsCoherent_example =
    build_plan_from_input-IsCoherent same_text default_policy transient_failure compensation_plan
      transient_failure_plan

abbrev told_failure : RecoveryInput
told_failure = record transient_failure {
  projection = record failed_projection { recovery_mode = some RecoveryMode.human_escalation };
}

abbrev human_decision : RecoveryDecision
human_decision = record {
  run_id = "run-1";
  mode = RecoveryMode.human_escalation;
  reason = "asked";
  compensation_action_id = none;
  escalation_channel_ref = some "human://desk";
  corrected_action = none;
  retry_after_ms = none;
  failure_count = 0;
}
