-- ===== src/Recovery/Gate/Decide.antt =====
-- `decide` of agent_kernel/kernel/recovery/gate.py and the methods below it. Each call is given the time in
-- milliseconds, and the clock's text for a snapshot that it builds.
use agent_kernel.Prelude.{
  ℕ, suc, ◌+◌, String, List, [], ◌∷◌, Bool, true, false, none, some, if◌then◌else◌, ltb, ◌&&◌,
}
use agent_kernel.Prelude.Errors.{Outcome, Exec, ok, raised, value_error, assertion_error}
use agent_kernel.Prelude.Dict.{lookup, insert}
use agent_kernel.Prelude.Text.{concat, str, ℤ}
use agent_kernel.Contracts.{
  Action, RecoveryMode, RecoveryDecision, RecoveryInput, ReflectionPolicy, is_reflectable,
}
use agent_kernel.Snapshot.{CapabilitySnapshot, CapabilitySnapshotInput}
use agent_kernel.Snapshot
use agent_kernel.Recovery.Planner.{RecoveryPlan, build_plan_from_input}
use agent_kernel.Recovery.Modes.{action_text}
use agent_kernel.Recovery.Compensation.{has_handler, execute}
use agent_kernel.Recovery.Circuit.{is_circuit_open, record_circuit_failure}
use agent_kernel.Recovery.Reflection.{build_evidence_from_input, base_context}
use agent_kernel.Recovery.Reflection
use agent_kernel.Recovery.Gate.{
  ReflectionCall, Gate, GateState, Effective, failure_count_of, extract_effect_class,
  compute_retry_after_ms, attach_backoff, bare_decision, is_static, may_reflect,
  fallback_inference_config,
}

abbrev planned : RecoveryPlan → RecoveryMode → Effective
planned plan mode = record {
  mode = mode;
  reason = plan.reason;
  compensation_action_id = plan.compensation_action_id;
  escalation_channel_ref = plan.escalation_channel_ref;
}

-- No handler is registered.
abbrev downgraded : RecoveryPlan → Effective
downgraded plan = record {
  mode = RecoveryMode.abort;
  reason = concat (plan.reason ∷ ":no_compensation_handler" ∷ []);
  compensation_action_id = none;
  escalation_channel_ref = none;
}

-- The handler's attempts are exhausted.
abbrev exhausted : RecoveryPlan → Effective
exhausted plan = record (planned plan RecoveryMode.human_escalation) {
  reason = concat (plan.reason ∷ ":compensation_exhausted" ∷ []);
  compensation_action_id = none;
}

abbrev after_execution : RecoveryPlan → RecoveryMode → Outcome Bool → Effective
after_execution plan mode (ok compensated) = planned plan mode
after_execution plan mode (raised x) = exhausted plan

-- `CapabilitySnapshotInput(run_id=..., based_on_offset=..., ...)`
abbrev pub minimal_snapshot_input : RecoveryInput → CapabilitySnapshotInput
minimal_snapshot_input i = record {
  run_id = i.run_id;
  based_on_offset = ℤ.pos i.projection.projected_offset;
  tenant_policy_ref = "policy:default";
  permission_mode = "strict";
  tool_bindings = [];
  mcp_bindings = [];
  skill_bindings = [];
  feature_flags = [];
  context_binding_ref = none;
  context_content_hash = none;
  budget_ref = none;
  quota_ref = none;
  session_mode = none;
  approval_state = none;
  declarative_bundle_digest = none;
  peer_run_bindings = [];
}

-- `_fallback_decision`
unfoldable pub fallback_decision : ReflectionPolicy → RecoveryInput → String → RecoveryDecision
fallback_decision p i base_reason =
    if p.escalate_on_exhaustion
    then bare_decision i.run_id RecoveryMode.human_escalation
        (concat (base_reason ∷ ":reflect_exhausted:escalated" ∷ []))
    else bare_decision i.run_id RecoveryMode.abort
        (concat (base_reason ∷ ":reflect_exhausted:aborted" ∷ []))

-- The decision on what the reasoning loop returned.
abbrev on_reflection :
    ReflectionPolicy → RecoveryInput → String → Outcome (List Action) → RecoveryDecision
on_reflection p i base_reason (raised x) = fallback_decision p i base_reason
on_reflection p i base_reason (ok []) = fallback_decision p i base_reason
on_reflection p i base_reason (ok (corrected_action ∷ r)) =
    record (bare_decision i.run_id RecoveryMode.reflect_and_retry
      (concat (base_reason ∷ ":reflect_and_retry:round=" ∷ str (suc i.reflection_round) ∷ []))) {
        corrected_action = some corrected_action;
      }

module _ {C : Type 0} (g : Gate C) where
  -- The compensation of a planned action, where there is a registry.
  abbrev pub compensated :
      RecoveryInput → RecoveryPlan → RecoveryMode → GateState C → Effective × GateState C
  compensated i plan mode s =
      if is_static mode
      then elim g.compensation_registry [
        | none ↦ (planned plan mode, s)
        | some entries ↦ elim (extract_effect_class g.lower i) [
          | none ↦ (planned plan mode, s)
          | some effect_class ↦
              if has_handler effect_class entries
              then elim (g.failing_action i) [
                | none ↦ (planned plan mode, s)
                | some action ↦
                    let (o, site) =
                      execute g.has_dedupe_store g.randint entries action true s.site in
                    (after_execution plan mode o, record s { site = site })
              ]
              else (downgraded plan, s)
        ]
      ]
      else (planned plan mode, s)

  -- The reflection policy and the reasoning loop, where reflection is allowed.
  unfoldable pub should_reflect : RecoveryInput → RecoveryMode → Bool
  unfolding is_reflectable
  should_reflect i mode = elim g.reflection_policy [
    | none ↦ false
    | some p ↦ elim g.reasoning_loop [
      | none ↦ false
      | some loop ↦
          g.has_reflection_builder
          && may_reflect mode
          && is_reflectable p i.reason_code
          && ltb i.reflection_round p.max_rounds
    ]
  ]

  abbrev snapshot_for : String → RecoveryInput → Outcome CapabilitySnapshot
  snapshot_for clock i = elim i.capability_snapshot [
    | some snapshot ↦ ok snapshot
    | none ↦ Snapshot.build g.codec clock (minimal_snapshot_input i)
  ]

  abbrev pub reflection_call : RecoveryInput → CapabilitySnapshot → ReflectionCall
  reflection_call i snapshot = record {
    run_id = i.run_id;
    snapshot = snapshot;
    inference_config = elim g.default_inference_config [
      | none ↦ fallback_inference_config
      | some c ↦ c
    ];
    prebuilt_context =
        Reflection.build (build_evidence_from_input i) [] base_context (suc i.reflection_round);
    idempotency_key = concat (
        i.run_id
        ∷ ":"
        ∷ str i.projection.projected_offset
        ∷ ":reflection:"
        ∷ str (suc i.reflection_round)
        ∷ []);
  }

  -- The assertions raise where the policy or the loop is missing.
  unfoldable pub decide_reflect_and_retry :
      String → RecoveryInput → String → Exec (GateState C) RecoveryDecision
  decide_reflect_and_retry clock i base_reason s = elim g.reflection_policy [
    | none ↦ (raised assertion_error, s)
    | some p ↦ elim g.reasoning_loop [
      | none ↦ (raised assertion_error, s)
      | some run_once ↦ elim (snapshot_for clock i) [
        | raised x ↦ (raised x, s)
        | ok snapshot ↦
            let call = reflection_call i snapshot in
            (
              ok (on_reflection p i base_reason (run_once call s.reflections)),
              record s { reflections = call ∷ s.reflections },
            )
      ]
    ]
  ]

  abbrev pub with_backoff : ℕ → Outcome RecoveryDecision → Outcome RecoveryDecision
  with_backoff n (ok d) = ok (attach_backoff d n)
  with_backoff n (raised x) = raised x

  -- The decision on a plan whose mode is known.
  abbrev pub concluded :
      ℕ
      → String
      → RecoveryInput
      → RecoveryPlan
      → ℕ
      → Effective × GateState C
      → Outcome RecoveryDecision × GateState C
  concluded now clock i plan failure_count (e, s) =
      if should_reflect i e.mode
      then (let (o, s') = decide_reflect_and_retry clock i e.reason s in
          (with_backoff failure_count o, s'))
      else (
        ok (record (bare_decision plan.run_id e.mode e.reason) {
          compensation_action_id = e.compensation_action_id;
          escalation_channel_ref = e.escalation_channel_ref;
          retry_after_ms = compute_retry_after_ms e.mode failure_count;
          failure_count = failure_count;
        }),
        record s {
          circuits =
              record_circuit_failure g.circuit_breaker_store g.circuit_breaker_policy now
                i.failed_effect_class s.circuits;
        },
      )

  unfoldable pub decide : ℕ → String → RecoveryInput → Exec (GateState C) RecoveryDecision
  unfolding should_reflect decide_reflect_and_retry
  decide now clock i s =
      let failure_count = failure_count_of i.run_id s + 1 in
      let counted = record s { failure_counts = insert i.run_id failure_count s.failure_counts } in
      if is_circuit_open g.circuit_breaker_store g.circuit_breaker_policy now i.failed_effect_class
        s.circuits
      then (
        ok
            (record (bare_decision i.run_id RecoveryMode.abort
              (concat (i.reason_code ∷ ":circuit_open" ∷ []))) { failure_count = failure_count }),
        counted,
      )
      else elim (build_plan_from_input g.lower g.policy i) [
        | raised x ↦ (raised x, counted)
        | ok plan ↦ elim (lookup (action_text plan.action) g.modes) [
          | none ↦ (raised value_error, counted)
          | some mode ↦ concluded now clock i plan failure_count (compensated i plan mode counted)
        ]
      ]
