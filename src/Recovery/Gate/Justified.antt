-- ===== src/Recovery/Gate/Justified.antt =====
-- When the gate of agent_kernel/kernel/recovery/gate.py may decide what it decides.
use agent_kernel.Prelude.{
  ◌≡◌, refl, ◌∙◌, ap, subst, arith, ℕ, ◌+◌, String, List, Bool, true, false, not, ◌||◌, ◌&&◌, none,
  some, is_some, ltb, Bool-cases, inl, inr,
}
use agent_kernel.Prelude.Errors.{Outcome-cases, ok, ok-injective}
use agent_kernel.Prelude.Dict.{lookup, insert}
use agent_kernel.Contracts.{RecoveryMode, RecoveryDecision, RecoveryInput, is_reflectable}
use agent_kernel.Recovery.Planner.{RecoveryPlan, RecoveryPlanAction, build_plan_from_input}
use agent_kernel.Recovery.Modes.{action_text, builtin_modes, register_all, register_all-keeps}
use agent_kernel.Recovery.Compensation.{has_handler}
use agent_kernel.Recovery.Circuit.{is_circuit_open}
use agent_kernel.Recovery.Gate.{
  Gate, GateState, Effective, failure_count_of, extract_effect_class, compute_retry_after_ms,
  attach_backoff, is_static,
}
use agent_kernel.Recovery.Gate.Decide.{
  compensated, should_reflect, decide_reflect_and_retry, concluded, with_backoff, decide,
  fallback_decision,
}

-- The mode of each of the planner's actions.
abbrev mode_of : RecoveryPlanAction → RecoveryMode
mode_of RecoveryPlanAction.schedule_compensation = RecoveryMode.static_compensation
mode_of RecoveryPlanAction.notify_human_operator = RecoveryMode.human_escalation
mode_of RecoveryPlanAction.abort_run = RecoveryMode.abort

builtin-mode :
    (r : List (String × RecoveryMode)) (a : RecoveryPlanAction)
    → lookup (action_text a) (register_all r builtin_modes) ≡ some (mode_of a)
unfolding lookup
builtin-mode r RecoveryPlanAction.schedule_compensation =
    register_all-keeps r builtin_modes "schedule_compensation" RecoveryMode.static_compensation refl
builtin-mode r RecoveryPlanAction.notify_human_operator =
    register_all-keeps r builtin_modes "notify_human_operator" RecoveryMode.human_escalation refl
builtin-mode r RecoveryPlanAction.abort_run =
    register_all-keeps r builtin_modes "abort_run" RecoveryMode.abort refl

plan-run_id :
    {C : Type 0} (g : Gate C) (i : RecoveryInput) (plan : RecoveryPlan)
    → build_plan_from_input g.lower g.policy i ≡ ok plan
    → plan.run_id ≡ i.run_id
unfolding build_plan_from_input
plan-run_id g i plan h = ground (arith, h)

abbrev is_reflection : RecoveryMode → Bool
is_reflection RecoveryMode.reflect_and_retry = true
is_reflection _ = false

module _ {C : Type 0} (g : Gate C) (i : RecoveryInput) where
  -- Whether a compensation can be carried out, as far as the gate can tell: there is a handler for the
  -- effect class that the reason names, where there is a registry and the reason names one.
  abbrev pub is_executable : Bool
  is_executable = elim g.compensation_registry [
    | none ↦ true
    | some entries ↦ elim (extract_effect_class g.lower i) [
      | none ↦ true
      | some effect_class ↦ has_handler effect_class entries
    ]
  ]

  -- Whether the policy has a round of reflection left for the reason.
  abbrev pub is_reflection_due : Bool
  is_reflection_due = elim g.reflection_policy [
    | none ↦ false
    | some p ↦ is_reflectable p i.reason_code && ltb i.reflection_round p.max_rounds
  ]

  pub record IsJustified (n : ℕ) (d : RecoveryDecision) : Type 0 where
    pub names_run : d.run_id ≡ i.run_id
    pub counts : d.failure_count ≡ n
    pub backs_off : d.retry_after_ms ≡ compute_retry_after_ms d.mode d.failure_count
    pub compensates : not (is_static d.mode) || is_executable ≡ true
    pub reflects :
        not (is_reflection d.mode) || is_some d.corrected_action && is_reflection_due ≡ true

  -- The modes that a plan and its compensation can come to.
  abbrev Sound : RecoveryMode → Type 0
  Sound m = (is_reflection m ≡ false) × (not (is_static m) || is_executable ≡ true)

  compensated-Sound :
      (plan : RecoveryPlan) (a : RecoveryPlanAction) (s : GateState C)
      → Sound (compensated g i plan (mode_of a) s).0.mode
  compensated-Sound plan a s = ground arith

  reflected :
      (clock base : String) (m : RecoveryMode) (n : ℕ) (s : GateState C) (d : RecoveryDecision)
      → should_reflect g i m ≡ true
      → (decide_reflect_and_retry g clock i base s).0 ≡ ok d
      → IsJustified n (attach_backoff d n)
  unfolding should_reflect decide_reflect_and_retry attach_backoff fallback_decision
  reflected clock base m n s d b h = record {
    names_run = ground (arith, h);
    counts = refl;
    backs_off = refl;
    compensates = ground (arith, h);
    reflects = ground (arith, b, h);
  }

  with_backoff-Justified :
      (clock base : String) (m : RecoveryMode) (n : ℕ) (s : GateState C) (d : RecoveryDecision)
      → should_reflect g i m ≡ true
      → with_backoff g n (decide_reflect_and_retry g clock i base s).0 ≡ ok d
      → IsJustified n d
  with_backoff-Justified clock base m n s d b h =
      elim (Outcome-cases (decide_reflect_and_retry g clock i base s).0) [
        | inl (x, o) ↦ ground (arith, o, h)
        | inr (d', o) ↦
            subst (IsJustified n) (ok-injective (attach_backoff d' n) d (ground (arith, o, h)))
              (reflected clock base m n s d' b o)
      ]

  concluded-Justified :
      (now : ℕ) (clock : String) (plan : RecoveryPlan) (n : ℕ) (e : Effective) (s : GateState C)
      (d : RecoveryDecision)
      → plan.run_id ≡ i.run_id
      → Sound e.mode
      → (concluded g now clock i plan n (e, s)).0 ≡ ok d
      → IsJustified n d
  concluded-Justified now clock plan n e s d r sound h =
      elim (Bool-cases (should_reflect g i e.mode)) [
        | inl b ↦ with_backoff-Justified clock e.reason e.mode n s d b (ground (arith, b, h))
        | inr b ↦ subst (IsJustified n) (ok-injective _ d (rw b at h)) (record {
          names_run = r;
          counts = refl;
          backs_off = refl;
          compensates = sound.1;
          reflects = ground (arith, sound);
        })
      ]

  -- Every decision of a gate whose modes are the built-in ones and any registered later is for the run of
  -- the input, counts one failure of the run more than before, has the backoff of its mode and count, is
  -- static_compensation only where a handler is registered for the effect class that the reason names (or
  -- there is no registry, or no such class), and is reflect_and_retry only with a corrected action, for a
  -- reflectable reason and while a round is left.
  pub decide-IsJustified :
      (r : List (String × RecoveryMode)) (now : ℕ) (clock : String) (s : GateState C)
      (d : RecoveryDecision)
      → g.modes ≡ register_all r builtin_modes
      → (decide g now clock i s).0 ≡ ok d
      → IsJustified (failure_count_of i.run_id s + 1) d
  unfolding decide compute_retry_after_ms
  decide-IsJustified r now clock s d m h =
      let n = failure_count_of i.run_id s + 1 in
      let counted = record s { failure_counts = insert i.run_id n s.failure_counts } in
      elim (Bool-cases (
        is_circuit_open g.circuit_breaker_store g.circuit_breaker_policy now i.failed_effect_class
          s.circuits)) [
            | inl b ↦ subst (IsJustified n) (ok-injective _ d (rw b at h)) (record {
              names_run = refl;
              counts = refl;
              backs_off = refl;
              compensates = refl;
              reflects = refl;
            })
            | inr b ↦ elim (Outcome-cases (build_plan_from_input g.lower g.policy i)) [
              | inl (x, o) ↦ ground (arith, b, o, h)
              | inr (plan, o) ↦
                  let mode = ap (lookup (action_text plan.action)) m ∙ builtin-mode r plan.action in
                  let (e, s') = compensated g i plan (mode_of plan.action) counted in
                  concluded-Justified now clock plan n e s' d (plan-run_id g i plan o)
                    (compensated-Sound plan plan.action counted) (ground (arith, b, o, mode, h))
            ]
          ]
