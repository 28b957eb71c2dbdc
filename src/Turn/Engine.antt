-- ===== src/Turn/Engine.antt =====
-- TurnEngine of agent_kernel/kernel/turn_engine.py: the loop that runs the six phases.
-- The phase timeout and the observability hook, whose exceptions are suppressed, are left out.
pub mod Register
use agent_kernel.Prelude.{
  Option, none, some, Bool, true, false, ◌&&◌, not, String, List, [], ◌∷◌, ◌==◌, ◌++◌,
  if◌then◌else◌,
}
use agent_kernel.Prelude.Errors.{
  Outcome, Exec, ok, raised, Exn, type_error, runtime_error, external_error, is_value_error, pure,
  throw, ◌>>=◌, ◌>>◌,
}
use agent_kernel.Prelude.Text.{concat, str_ℤ}
use agent_kernel.Prelude.Json.{Value, Fields, get_or, truthy}
use agent_kernel.Contracts.{
  Action, EffectClass, idempotent_write, ExecutionContext, FailureEnvelope, FailedStage,
  FailureClass, Retryability, FailureEvidenceSource,
}
use agent_kernel.Dedupe.{
  HostKind, remote_service, IdempotencyEnvelope, DedupeRecord, DedupeReservation, taken,
}
use agent_kernel.Policy.Remote.{RemoteDispatchPolicyDecision}
use agent_kernel.Policy.Host.{DispatchPolicy, resolve_dispatch_policy}
use agent_kernel.Policy.Evidence.{apply_failure_evidence_priority}
use agent_kernel.Snapshot.{CapabilitySnapshot, assert_snapshot_compatible}
use agent_kernel.Turn.State.{
  TurnState, TurnOutcomeKind, EventState, fsm, reasoning_failed, dedupe_degraded, TurnStateEvent,
  event, TurnInput, TurnIdentity, ActionCommit, TurnResult, Admission, bare, object, awaitable,
  Call, DedupePort, Services, Context, Turn, emit, required, read, modify, on_store, suppressed,
}
use agent_kernel.Turn.Identity.{
  build_turn_identity, legacy_dispatch_dedupe_key, decision_ref_of, trigger_text,
}
use agent_kernel.Turn.Envelope.{
  plain_input, resolve_snapshot_input, read_optional_string, resolve_idempotency_envelope,
  build_execution_context,
}
use agent_kernel.Turn.Results.{
  anonymous_noop, result_of, finish, end_noop, end_blocked, end_blocked_at, is_idempotent_write,
  is_admitted, resolve_dedupe_downgrade_scope, exn_name, build_recovery_pending_turn_result,
  admission_or_none,
}
use agent_kernel.Turn.Prepare.{
  phase_noop_or_reasoning, phase_snapshot, phase_admission, phase_dispatch_policy,
}
use agent_kernel.Turn.Dispatch.{phase_dedupe, phase_execute}

-- The names in `_TURN_PHASES`.
pub data Phase : Type 0 where
  noop_or_reasoning snapshot admission dispatch_policy dedupe execute : Phase

abbrev pub turn_phases : List Phase
turn_phases = noop_or_reasoning ∷ snapshot ∷ admission ∷ dispatch_policy ∷ dedupe ∷ execute ∷ []

module _ (p : Services) (d : DedupePort) where
  -- `getattr(self, phase_name)`
  abbrev pub phase_fn : Phase → Exec (Turn d.Store) (Unit {0})
  phase_fn noop_or_reasoning = phase_noop_or_reasoning p d
  phase_fn snapshot = phase_snapshot p d
  phase_fn admission = phase_admission p d
  phase_fn dispatch_policy = phase_dispatch_policy p d
  phase_fn dedupe = phase_dedupe p d
  phase_fn execute = phase_execute p d

  -- The loop of `run_turn`: it stops at the first phase that leaves a result.
  unfoldable pub run_phases : List Phase → Exec (Turn d.Store) TurnResult
  run_phases [] = throw runtime_error
  run_phases (f ∷ fs) = do
    phase_fn f
    λ t. elim t.ctx.result [ some r ↦ (ok r, t) | none ↦ run_phases fs t ]

  abbrev pub initial_context : TurnInput → Option Action → Context
  initial_context i a = record {
    input_value = i;
    action = a;
    emitted_events = event TurnState.collecting ∷ event TurnState.intent_committed ∷ [];
    result = none;
    turn_identity = none;
    snapshot = none;
    admission_result = none;
    dispatch_policy = none;
    envelope = none;
    execute_result = none;
    dedupe_available = true;
    legacy_alias_key = none;
  }

  -- One turn, from the store and the calls that the turns before it left.
  unfoldable pub run_turn : TurnInput → Option Action → Exec (d.Store × List Call) TurnResult
  unfolding run_phases
  run_turn i a (store, calls) =
      let (r, t) =
        run_phases turn_phases
          (record { ctx = initial_context i a; store = store; calls = calls }) in
      (r, (t.store, t.calls))
