-- ===== src/Actor/State.antt =====
-- The services and the state of RunActorWorkflow (agent_kernel/substrate/temporal/run_actor_workflow.py), with
-- TurnIntentRecord of agent_kernel/kernel/contracts.py.
use agent_kernel.Prelude.{ℕ, String, Option, none, some, List}
use agent_kernel.Prelude.Errors.{Outcome, Exec, ok}
use agent_kernel.Prelude.Json.{Value, Fields}
use agent_kernel.Contracts.{
  Action, ExecutionContext, RunProjection, RecoveryInput, RecoveryDecision, RunPolicyVersions,
}
use agent_kernel.Dedupe.{HostKind}
use agent_kernel.Runtime.EventLog.{EventLog}
use agent_kernel.Runtime.Projection.{Config, Cache}
use agent_kernel.Runtime.Stores.{RecoveryOutcome}
use agent_kernel.Turn.State.{TurnInput, TurnResult, TurnOutcomeKind}

pub record ActorSignal : Type 0 where
  pub signal_type : String
  pub signal_payload : Option Fields
  pub caused_by : Option String
  pub signal_token : Option String
  pub from_peer_run_id : Option String

-- The fields that the modelled functions read or set; the pending signals are kept as signals.
pub record RunInput : Type 0 where
  pub run_id : String
  pub session_id : Option String
  pub parent_run_id : Option String
  pub pending_signals : Option (List ActorSignal)
  pub policy_versions : Option RunPolicyVersions
  pub initial_stage_id : Option String

pub record TurnIntentRecord : Type 0 where
  pub run_id : String
  pub intent_commit_ref : String
  pub decision_ref : String
  pub decision_fingerprint : String
  pub dispatch_dedupe_key : Option String
  pub host_kind : Option HostKind
  pub outcome_kind : TurnOutcomeKind
  pub written_at : String
  pub reflection_round : ℕ

-- What the actor calls. `W` is the state of those services; the event log and the projection service
-- are the in-memory ones, with `projection` as the latter's configuration. `decide` may reach the log, which the
-- actor checks that it does not. The two calls whose exceptions are suppressed are functions on the
-- state. `continue_as_new` is absent outside a live workflow.
pub record ActorServices (W : Type 0) : Type 0 where
  pub now : String
  pub lower : String → String
  pub context_value : ExecutionContext → Value
  pub projection : Config
  pub run_turn : TurnInput → Action → Exec W TurnResult
  pub decide : RecoveryInput → Exec (EventLog × W) RecoveryDecision
  pub on_action_success : String → W → W
  pub mark_unknown_effect : String → W → W
  pub write_intent : Option (TurnIntentRecord → Exec W (Unit {0}))
  pub write_outcome : Option (RecoveryOutcome → Exec W (Unit {0}))
  pub continue_as_new : Option (RunInput → Exec W (Unit {0}))
  pub history_event_threshold : ℕ

pub record Actor (W : Type 0) : Type 0 where
  pub log : EventLog
  pub cache : Cache
  pub fingerprints : List String
  pub world : W
  pub run_id : Option String
  pub session_id : Option String
  pub parent_run_id : Option String
  pub policy_versions : Option RunPolicyVersions
  pub active_stage_id : Option String
  pub last_projection : Option RunProjection
  pub pending_signals : List ActorSignal
  pub signal_sequence : ℕ
  pub seen_signal_tokens : List String
  pub history_event_count : ℕ

module _ {W A : Type 0} where
  -- A call that reads and changes the log alone, the cache alone, and the other services alone.
  abbrev pub on_log : Exec EventLog A → Exec (Actor W) A
  on_log m a = let (outcome, log) = m a.log in (outcome, record a { log = log })

  abbrev pub on_cache : (EventLog → Exec Cache A) → Exec (Actor W) A
  on_cache m a = let (outcome, cache) = m a.log a.cache in (outcome, record a { cache = cache })

  abbrev pub on_world : Exec W A → Exec (Actor W) A
  on_world m a = let (outcome, world) = m a.world in (outcome, record a { world = world })

module _ {W : Type 0} where
  abbrev pub update : (Actor W → Actor W) → Exec (Actor W) (Unit {0})
  update f a = (ok tt, f a)

  -- A value or an exception, without an effect.
  abbrev pub lift : {A : Type 0} → Outcome A → Exec (Actor W) A
  lift o a = (o, a)

  -- What an absent part leaves out.
  abbrev pub when_given {ℓ} :
      {B : Type ℓ} → Option B → (B → Exec (Actor W) (Unit {0})) → Exec (Actor W) (Unit {0})
  when_given none f a = (ok tt, a)
  when_given (some b) f a = f b a
