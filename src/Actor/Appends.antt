-- ===== src/Actor/Appends.antt =====
-- What the run actor (agent_kernel/substrate/temporal/run_actor_workflow.py) appends for a turn and for a recovery,
-- and how it asks the recovery gate.
use agent_kernel.Prelude.{
  ℕ, suc, ◌+◌, max, String, Option, none, some, List, [], ◌∷◌, if◌then◌else◌, ltb,
}
use agent_kernel.Prelude.Errors.{Outcome, Exec, ok, raised, runtime_error, ◌>>◌, pure}
use agent_kernel.Prelude.Text.{concat, str}
use agent_kernel.Prelude.Json.{Fields}
use agent_kernel.Contracts.{
  Action, RunProjection, RecoveryInput, RecoveryDecision, RuntimeEvent, ActionCommit, EventClass,
  EventAuthority, WakePolicy, effect_text,
}
use agent_kernel.Runtime.EventLog.{EventLog, append_action_commit, load}
use agent_kernel.Runtime.Stores.{RecoveryOutcome}
use agent_kernel.Turn.State.{TurnResult}
use agent_kernel.Actor.Events.{turn_outcome_event_type, recovery_event_type, recovery_outcome_state}
use agent_kernel.Actor.Payloads.{
  kind_text, build_turn_outcome_payload, plan_payload, recovery_payload,
}
use agent_kernel.Actor.State.{TurnIntentRecord, ActorServices, Actor, on_log, on_world, when_given}

-- An authoritative fact that wakes the actor.
abbrev pub fact_event :
    String → String → ℕ → String → Option String → Option Fields → String → RuntimeEvent
fact_event run_id event_id offset event_type idempotency_key payload now = record {
  run_id = run_id;
  event_id = event_id;
  commit_offset = offset;
  event_type = event_type;
  event_class = EventClass.fact;
  event_authority = EventAuthority.authoritative_fact;
  ordering_key = run_id;
  wake_policy = WakePolicy.wake_actor;
  created_at = now;
  idempotency_key = idempotency_key;
  payload_ref = none;
  payload_json = payload;
  schema_version = "1";
}

abbrev max_offset : List RuntimeEvent → ℕ
max_offset [] = 0
max_offset (e ∷ events) = max e.commit_offset (max_offset events)

unfoldable pub latest_run_offset : String → EventLog → ℕ
unfolding load
latest_run_offset run_id l = max_offset (load run_id 0 l)

abbrev pub assert_recovery_gate_is_read_only : ℕ → ℕ → Outcome (Unit {0})
assert_recovery_gate_is_read_only before after =
    if ltb before after
    then raised runtime_error
    else if ltb after before
    then raised runtime_error
    else ok tt

-- A recovery's event type is one of the three that are allowed, so the assertion on it cannot fail.
abbrev pub recovery_commit : String → ℕ → RecoveryDecision → Option String → String → ActionCommit
recovery_commit run_id offset d caused_by now =
    let event_type = recovery_event_type d.mode in
    let selected =
      fact_event run_id (concat ("evt-recovery-plan-" ∷ str offset ∷ [])) offset
        "recovery.plan_selected" none (some (plan_payload d)) now in
    let decided =
      fact_event run_id (concat ("evt-recovery-" ∷ str offset ∷ [])) (suc offset) event_type none
        (some (recovery_payload d)) now in
    record {
      run_id = run_id;
      commit_id = concat ("recovery:" ∷ event_type ∷ ":" ∷ str offset ∷ []);
      events =
          record selected {
            event_class = EventClass.derived;
            event_authority = EventAuthority.derived_diagnostic;
            wake_policy = WakePolicy.projection_only;
          }
          ∷ decided
          ∷ [];
      created_at = now;
      action = none;
      caused_by = caused_by;
    }

abbrev pub recovery_input : Action → String → RunProjection → String → RecoveryInput
recovery_input a reason_code p run_id = record {
  run_id = run_id;
  reason_code = reason_code;
  lifecycle_state = p.lifecycle_state;
  projection = p;
  failed_action_id = some a.action_id;
  reflection_round = 0;
  capability_snapshot = none;
  failed_effect_class = some (effect_text a.effect_class);
}

abbrev pub checked : Outcome RecoveryDecision → Outcome (Unit {0}) → Outcome RecoveryDecision
checked (raised x) check = raised x
checked (ok d) (ok u) = ok d
checked (ok d) (raised x) = raised x

module _ {W : Type 0} (v : ActorServices W) where
  abbrev pub outcome_record : String → ℕ → RecoveryDecision → Option String → RecoveryOutcome
  outcome_record run_id offset d caused_by = record {
    run_id = run_id;
    action_id = caused_by;
    recovery_mode = d.mode;
    outcome_state = recovery_outcome_state d.mode;
    written_at = v.now;
    operator_escalation_ref = d.escalation_channel_ref;
    emitted_event_ids =
        concat ("evt-recovery-plan-" ∷ str offset ∷ [])
        ∷ concat ("evt-recovery-" ∷ str offset ∷ [])
        ∷ [];
  }

  abbrev pub written_outcome :
      String → ℕ → RecoveryDecision → Option String → Exec (Actor W) (Unit {0})
  written_outcome run_id offset d caused_by =
      when_given v.write_outcome
        (λ write. on_world (write (outcome_record run_id offset d caused_by)))

  unfoldable pub append_recovery_event :
      String → ℕ → RecoveryDecision → Option String → Exec (Actor W) ℕ
  append_recovery_event run_id offset d caused_by =
      on_log (append_action_commit (recovery_commit run_id offset d caused_by v.now))
      >> written_outcome run_id offset d caused_by
      >> pure (offset + 2)

  abbrev pub turn_commit : String → ℕ → TurnResult → Option String → ActionCommit
  turn_commit run_id offset r caused_by =
      let kind = kind_text r.outcome_kind in
      record {
        run_id = run_id;
        commit_id = concat ("turn:" ∷ kind ∷ ":" ∷ str offset ∷ []);
        events =
            fact_event run_id (concat ("evt-turn-" ∷ kind ∷ "-" ∷ str offset ∷ [])) offset
              (turn_outcome_event_type r.outcome_kind) (some r.decision_fingerprint)
              (some (build_turn_outcome_payload v.context_value r)) v.now
            ∷ [];
        created_at = v.now;
        action = none;
        caused_by = caused_by;
      }

  abbrev pub intent_record : String → TurnResult → String → TurnIntentRecord
  intent_record run_id r intent = record {
    run_id = run_id;
    intent_commit_ref = intent;
    decision_ref = r.decision_ref;
    decision_fingerprint = r.decision_fingerprint;
    dispatch_dedupe_key = r.dispatch_dedupe_key;
    host_kind = r.host_kind;
    outcome_kind = r.outcome_kind;
    written_at = v.now;
    reflection_round = 0;
  }

  abbrev pub intent_written :
      String → TurnResult → (TurnIntentRecord → Exec W (Unit {0})) → Exec (Actor W) (Unit {0})
  intent_written run_id r write =
      when_given r.intent_commit_ref (λ intent. on_world (write (intent_record run_id r intent)))

  abbrev pub written_intent : String → TurnResult → Exec (Actor W) (Unit {0})
  written_intent run_id r = when_given v.write_intent (intent_written run_id r)

  unfoldable pub append_turn_outcome_commit :
      String → ℕ → TurnResult → Option String → Exec (Actor W) ℕ
  append_turn_outcome_commit run_id offset r caused_by =
      written_intent run_id r
      >> on_log (append_action_commit (turn_commit run_id offset r caused_by))
      >> pure (suc offset)

  -- The gate's decision, and the assertion that it appended nothing.
  unfoldable pub consult :
      Action → String → RunProjection → String → Exec (Actor W) RecoveryDecision
  unfolding latest_run_offset
  consult a reason_code p run_id s =
      let (outcome, reached) = v.decide (recovery_input a reason_code p run_id) (s.log, s.world) in
      let check =
        assert_recovery_gate_is_read_only (latest_run_offset run_id s.log)
          (latest_run_offset run_id reached.0) in
      let later = record s { log = reached.0; world = reached.1 } in (checked outcome check, later)
