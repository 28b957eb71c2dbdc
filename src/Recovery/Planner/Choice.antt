-- ===== src/Recovery/Planner/Choice.antt =====
-- What a plan of agent_kernel/kernel/recovery/planner.py says, and which input it follows.
use agent_kernel.Prelude.{
  ◌≡◌, some, Bool, true, false, not, String, ◌⊎◌, ◌==◌, arith, eq_iff, is_some,
}
use agent_kernel.Prelude.Errors.{Outcome, ok, raised, is_raised}
use agent_kernel.Contracts.{RecoveryMode, RecoveryDecision, RecoveryInput}
use agent_kernel.Recovery.Planner.{
  RecoveryPlanAction, schedule_compensation, notify_human_operator, RecoveryPlan,
  PlannerHeuristicPolicy, build_plan, build_plan_from_input,
}

abbrev pub is_notify : RecoveryPlanAction → Bool
is_notify notify_human_operator = true
is_notify _ = false

abbrev pub is_schedule : RecoveryPlanAction → Bool
is_schedule schedule_compensation = true
is_schedule _ = false

-- The modes of a projection that decide alone.
abbrev pub is_explicit : RecoveryMode → Bool
is_explicit RecoveryMode.reflect_and_retry = false
is_explicit _ = true

abbrev pub planned_action : Outcome RecoveryPlan → Outcome RecoveryPlanAction
planned_action (ok plan) = ok plan.action
planned_action (raised e) = raised e

-- What a plan and the input that it is for have in common.
pub record IsCoherent (i : RecoveryInput) (plan : RecoveryPlan) : Type 0 where
  pub same_run : plan.run_id ≡ i.projection.run_id
  pub channel : is_some plan.escalation_channel_ref ≡ is_notify plan.action
  pub compensates : (is_some plan.compensation_action_id ≡ false) ⊎ (is_schedule plan.action ≡ true)
  pub has_action :
      (is_schedule plan.action ≡ false)
      ⊎ ((i.projection.recovery_mode ≡ some RecoveryMode.static_compensation)
          ⊎ (is_some plan.compensation_action_id ≡ true))

module _ (lower : String → String) (p : PlannerHeuristicPolicy) where
  -- A plan that is built is for the projection's run. It names a channel exactly if it tells a human.
  -- It names an action to compensate only if it schedules compensation, and it schedules compensation
  -- without one only where the projection's mode says static_compensation.
  pub build_plan_from_input-IsCoherent :
      (i : RecoveryInput) (plan : RecoveryPlan)
      → build_plan_from_input lower p i ≡ ok plan
      → IsCoherent i plan
  unfolding build_plan_from_input
  build_plan_from_input-IsCoherent i plan h = record {
    same_run = ground (arith, eq_iff i.run_id i.projection.run_id);
    channel = ground arith;
    compensates = ground arith;
    has_action = ground arith;
  }

  -- A mode of the projection other than reflect_and_retry wins, whatever the reason code and the
  -- lifecycle state: the planner chooses the action that a decision of that mode for the same run is
  -- mapped to, and raises where that mapping raises.
  pub build_plan_mode :
      (i : RecoveryInput) (d : RecoveryDecision)
      → is_explicit d.mode ≡ true
      → i.projection.recovery_mode ≡ some d.mode
      → i.run_id ≡ d.run_id
      → planned_action (build_plan_from_input lower p i)
        ≡ planned_action (build_plan d i.projection)
  unfolding build_plan_from_input build_plan
  build_plan_mode i d e m r = ground arith

  -- Planning raises exactly if the input's run is not the projection's, whatever the policy.
  pub build_plan_from_input_raises :
      (i : RecoveryInput)
      → is_raised (build_plan_from_input lower p i) ≡ not (i.run_id == i.projection.run_id)
  unfolding build_plan_from_input
  build_plan_from_input_raises i = ground arith
