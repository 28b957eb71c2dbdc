-- ===== src/Turn/State.antt =====
-- What a turn is given, carries from phase to phase, and returns
-- (agent_kernel/kernel/turn_engine.py), with the services that it calls.
use agent_kernel.Prelude.{Option, none, some, Bool, String, List, [], ◌∷◌, ◌++◌}
use agent_kernel.Prelude.Errors.{Outcome, Exec, ok, raised, assertion_error, continue}
use agent_kernel.Prelude.Text.{ℤ, Codec}
use agent_kernel.Prelude.Json.{Value, Fields}
use agent_kernel.Contracts.{Action, ExecutionContext, FailureEnvelope}
use agent_kernel.Dedupe.{HostKind, IdempotencyEnvelope, DedupeRecord, DedupeReservation}
use agent_kernel.Policy.Remote.{RemoteDispatchPolicyDecision}
use agent_kernel.Policy.Host.{DispatchPolicy}
use agent_kernel.Snapshot.{CapabilitySnapshot, CapabilitySnapshotInput}

pub data TurnTriggerType : Type 0 where
  start signal child_join recovery_resume : TurnTriggerType

pub data TurnState : Type 0 where
  collecting intent_committed reasoning snapshot_built admission_checked : TurnState
  dispatch_blocked dispatched dispatch_acknowledged effect_unknown : TurnState
  effect_recorded recovery_pending completed_noop : TurnState

pub data TurnOutcomeKind : Type 0 where
  noop blocked dispatched recovery_pending : TurnOutcomeKind

-- A state of the machine, or the name of a diagnostic event.
pub data EventState : Type 0 where
  fsm : TurnState → EventState
  reasoning_failed dedupe_degraded : EventState

pub record TurnStateEvent : Type 0 where
  pub state : EventState
  pub reason : Option String
  pub metadata : List (String × String)

abbrev pub event : TurnState → TurnStateEvent
event s = record { state = fsm s; reason = none; metadata = [] }

pub record TurnInput : Type 0 where
  pub run_id : String
  pub through_offset : ℤ
  pub based_on_offset : ℤ
  pub trigger_type : TurnTriggerType
  pub history : List Value

pub record TurnIdentity : Type 0 where
  pub decision_ref : String
  pub decision_fingerprint : String
  pub intent_commit_ref : String
  pub dispatch_dedupe_key : String

-- The dict under `action_commit`.
pub record ActionCommit : Type 0 where
  pub action_id : String
  pub run_id : String
  pub committed_at : String
  pub execution_context : ExecutionContext

pub record TurnResult : Type 0 where
  pub state : TurnState
  pub outcome_kind : TurnOutcomeKind
  pub decision_ref : String
  pub decision_fingerprint : String
  pub dispatch_dedupe_key : Option String
  pub intent_commit_ref : Option String
  pub host_kind : Option HostKind
  pub remote_policy_decision : Option RemoteDispatchPolicyDecision
  pub action_commit : Option ActionCommit
  pub recovery_input : Option FailureEnvelope
  pub emitted_events : List TurnStateEvent

-- What an admission service may put under `idempotency_envelope`.
pub data EnvelopePayload : Type 0 where
  typed : IdempotencyEnvelope → EnvelopePayload
  raw : Value → EnvelopePayload

-- An admission result: a bool, an awaitable, or an object, of which the engine reads `admitted` (here
-- where it is a bool), the truth value, and three attributes (the two texts where they are texts).
pub record AdmissionObject : Type 0 where
  pub admitted : Option Bool
  pub truth : Bool
  pub idempotency_envelope : EnvelopePayload
  pub policy_snapshot_ref : Option String
  pub grant_ref : Option String

pub data Admission : Type 0 where
  bare : Bool → Admission
  object : AdmissionObject → Admission
  awaitable : Admission

-- One call of the executor, with the context if the executor takes one.
pub record Call : Type 0 where
  pub action : Action
  pub snapshot : CapabilitySnapshot
  pub envelope : IdempotencyEnvelope
  pub execution_context : Option ExecutionContext

-- `DedupeStorePort`, the part that the engine calls.
pub record DedupePort : Type 1 where
  pub Store : Type 0
  pub get : String → Store → Outcome (Option DedupeRecord)
  pub reserve_and_dispatch : IdempotencyEnvelope → Option String → Exec Store DedupeReservation
  pub mark_acknowledged : String → Option String → Exec Store (Unit {0})
  pub mark_unknown_effect : String → Exec Store (Unit {0})

-- The engine's other services and settings. The executor's answer may depend on the calls before;
-- `admit` is absent where the service does not implement it, and `resolve` and `reason` where no
-- resolver and no reasoning loop is configured.
pub record Services : Type 0 where
  pub codec : Codec
  pub now : String
  pub lower : String → String
  pub build : CapabilitySnapshotInput → Outcome CapabilitySnapshot
  pub admit : Option (Action → CapabilitySnapshot → Outcome Admission)
  pub execute : List Call → Call → Outcome Fields
  pub takes_execution_context : Bool
  pub resolve : Option (TurnInput → Action → Outcome CapabilitySnapshotInput)
  pub require_declared_snapshot_inputs : Bool
  pub reason : Option (TurnInput → CapabilitySnapshot → String → String → Outcome (List Action))
  pub model_ref : String
  pub tenant_policy_ref : String
  pub permission_mode : String

-- `TurnPhaseContext`
pub record Context : Type 0 where
  pub input_value : TurnInput
  pub action : Option Action
  pub emitted_events : List TurnStateEvent
  pub result : Option TurnResult
  pub turn_identity : Option TurnIdentity
  pub snapshot : Option CapabilitySnapshot
  pub admission_result : Option Admission
  pub dispatch_policy : Option DispatchPolicy
  pub envelope : Option IdempotencyEnvelope
  pub execute_result : Option Fields
  pub dedupe_available : Bool
  pub legacy_alias_key : Option String

-- The context, the dedupe store, and the executor calls made so far, latest first.
pub record Turn (Store : Type 0) : Type 0 where
  pub ctx : Context
  pub store : Store
  pub calls : List Call

-- `ctx.emitted_events.append(...)`
abbrev pub emit : TurnStateEvent → Context → Context
emit e c = record c { emitted_events = c.emitted_events ++ e ∷ [] }

abbrev pub required {ℓ} : {A : Type ℓ} → Option A → Outcome A
required none = raised assertion_error
required (some a) = ok a

module _ {S : Type 0} where
  abbrev pub read : {A : Type 0} → (Context → Outcome A) → Exec (Turn S) A
  read f t = (f t.ctx, t)

  -- `assert field is not None`, and what follows with the field.
  abbrev pub asserting : {A B : Type 0} → Option A → (A → Exec (Turn S) B) → Exec (Turn S) B
  asserting o g = continue (required o) g

  abbrev pub modify : (Context → Context) → Exec (Turn S) (Unit {0})
  modify f t = (ok tt, record t { ctx = f t.ctx })

  -- A call on the store alone.
  abbrev pub on_store : {A : Type 0} → Exec S A → Exec (Turn S) A
  on_store m t = let (r, s) = m t.store in (r, record t { store = s })

  -- `with contextlib.suppress(Exception)`
  abbrev pub suppressed : {A : Type 0} → Exec (Turn S) A → Exec (Turn S) (Option A)
  suppressed m t = let (r, t') = m t in (elim r [ ok a ↦ ok (some a) | raised e ↦ ok none ], t')
