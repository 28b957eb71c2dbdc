-- ===== src/Actor/Events.antt =====
-- The types of the events that the run actor appends, and the payload of a signal
-- (agent_kernel/substrate/temporal/run_actor_workflow.py).
use agent_kernel.Prelude.{String, [], ◌∷◌, Option, none, some, if◌then◌else◌, ◌==◌}
use agent_kernel.Prelude.Dict.{Dict, lookup}
use agent_kernel.Prelude.Json.{Value, Fields, end, field}
use agent_kernel.Prelude.Text.{concat}
use agent_kernel.Contracts.{RecoveryMode}
use agent_kernel.Migration.{set_default}
use agent_kernel.Runtime.Stores.{OutcomeState}
use agent_kernel.Turn.State.{TurnOutcomeKind}

-- `_SIGNAL_EVENT_TYPE_MAP`
abbrev pub signal_event_type_map : Dict String
signal_event_type_map =
    ("resume_from_snapshot", "run.resume_requested")
    ∷ ("cancel_requested", "run.cancel_requested")
    ∷ ("hard_failure", "run.recovery_aborted")
    ∷ ("timeout", "run.waiting_external")
    ∷ ("recovery_succeeded", "run.recovery_succeeded")
    ∷ ("recovery_aborted", "run.recovery_aborted")
    ∷ ("plan_submitted", "run.plan_submitted")
    ∷ ("approval_submitted", "run.approval_submitted")
    ∷ ("speculation_committed", "run.speculation_committed")
    ∷ ("child_run_completed", "run.child_run_completed")
    ∷ []

unfoldable pub signal_event_type : String → String
unfolding lookup
signal_event_type signal_type = elim (lookup signal_type signal_event_type_map) [
  | some event_type ↦ event_type
  | none ↦ concat ("signal." ∷ signal_type ∷ [])
]

abbrev with_default : String → String → Fields → Fields
with_default key text m = set_default key (Value.str text) m

abbrev defaults_of : String → Fields → Fields
defaults_of signal_type m =
    if signal_type == "cancel_requested"
    then with_default "reason" "cancel_requested" m
    else if signal_type == "hard_failure"
    then with_default "reason" "hard_failure" (with_default "mode" "abort" m)
    else if signal_type == "timeout"
    then with_default "reason" "timeout" (with_default "mode" "human_escalation" m)
    else m

abbrev none_if_empty : Fields → Option Fields
none_if_empty end = none
none_if_empty (field k v m) = some (field k v m)

abbrev fields_of : Option Fields → Fields
fields_of none = end
fields_of (some m) = m

unfoldable pub normalize_signal_payload : String → Option Fields → Option Fields
unfolding set_default
normalize_signal_payload signal_type payload =
    none_if_empty (defaults_of signal_type (fields_of payload))

-- An outcome kind is one of four here, so the ValueError for any other cannot arise.
abbrev pub turn_outcome_event_type : TurnOutcomeKind → String
turn_outcome_event_type TurnOutcomeKind.dispatched = "run.dispatching"
turn_outcome_event_type TurnOutcomeKind.recovery_pending = "run.recovering"
turn_outcome_event_type TurnOutcomeKind.blocked = "run.ready"
turn_outcome_event_type TurnOutcomeKind.noop = "run.ready"

abbrev pub recovery_event_type : RecoveryMode → String
recovery_event_type RecoveryMode.abort = "run.recovery_aborted"
recovery_event_type RecoveryMode.human_escalation = "run.waiting_external"
recovery_event_type RecoveryMode.static_compensation = "run.recovering"
recovery_event_type RecoveryMode.reflect_and_retry = "run.recovering"

abbrev pub recovery_outcome_state : RecoveryMode → OutcomeState
recovery_outcome_state RecoveryMode.abort = OutcomeState.aborted
recovery_outcome_state RecoveryMode.human_escalation = OutcomeState.escalated
recovery_outcome_state RecoveryMode.static_compensation = OutcomeState.executed
recovery_outcome_state RecoveryMode.reflect_and_retry = OutcomeState.executed
