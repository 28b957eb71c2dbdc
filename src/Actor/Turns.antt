-- ===== src/Actor/Turns.antt =====
-- `process_action_commit` of RunActorWorkflow (agent_kernel/substrate/temporal/run_actor_workflow.py), with its
-- assertions.
use agent_kernel.Prelude.{
  ℕ, suc, String, none, some, Bool, true, false, List, [], ◌∷◌, if◌then◌else◌, ltb, get_last?,
}
use agent_kernel.Prelude.Errors.{
  Outcome, Exec, Exn, ok, raised, value_error, runtime_error, index_error, ◌>>=◌, ◌>>◌, pure, throw,
}
use agent_kernel.Prelude.Text.{concat, str, pos}
use agent_kernel.Contracts.{
  Action, RunProjection, RecoveryDecision, RuntimeEvent, ActionCommit, EventAuthority, effect_text,
}
use agent_kernel.Runtime.Projection.{catch_up, readiness}
use agent_kernel.Runtime.Stores.{seen, mark}
use agent_kernel.Turn.State.{
  TurnInput, TurnResult, TurnTriggerType, TurnOutcomeKind, TurnState, EventState, TurnStateEvent,
}
use agent_kernel.Turn.Results.{exn_name}
use agent_kernel.Actor.State.{ActorServices, Actor, on_cache, on_world, update, lift, when_given}
use agent_kernel.Actor.Appends.{append_recovery_event, append_turn_outcome_commit, consult}

abbrev is_diagnostic : EventAuthority → Bool
is_diagnostic EventAuthority.derived_diagnostic = true
is_diagnostic _ = false

unfoldable pub assert_no_derived_diagnostic_authority_input : List RuntimeEvent → Outcome (Unit {0})
assert_no_derived_diagnostic_authority_input [] = ok tt
assert_no_derived_diagnostic_authority_input (e ∷ events) =
    let rest = assert_no_derived_diagnostic_authority_input events in
    if is_diagnostic e.event_authority then raised value_error else rest

abbrev is_dispatched : EventState → Bool
is_dispatched (EventState.fsm TurnState.dispatched) = true
is_dispatched _ = false

unfoldable pub dispatch_count : List TurnStateEvent → ℕ
dispatch_count [] = 0
dispatch_count (e ∷ events) =
    let rest = dispatch_count events in if is_dispatched e.state then suc rest else rest

unfoldable pub assert_single_dispatch_attempt_in_turn : TurnResult → Outcome (Unit {0})
unfolding dispatch_count
assert_single_dispatch_attempt_in_turn r =
    if ltb 1 (dispatch_count r.emitted_events) then raised runtime_error else ok tt

-- What runs when the body raised, in the state that the body left.
abbrev pub catching {ℓ} : {S A : Type ℓ} → Exec S A → (Exn → Exec S A) → Exec S A
catching body handler s =
    let (outcome, later) = body s in
    elim outcome [ ok a ↦ (ok a, later) | raised x ↦ handler x later ]

-- `commit.events[-1]`
abbrev pub last_event : ActionCommit → Outcome RuntimeEvent
last_event c = elim (get_last? c.events) [ none ↦ raised index_error | some e ↦ ok e ]

abbrev pub reason_of : TurnResult → String
reason_of r = elim r.recovery_input [ none ↦ "effect_unknown" | some f ↦ f.failure_code ]

abbrev pub turn_input : String → ℕ → TurnInput
turn_input run_id offset = record {
  run_id = run_id;
  through_offset = pos offset;
  based_on_offset = pos offset;
  trigger_type = TurnTriggerType.signal;
  history = [];
}

module _ {W : Type 0} (v : ActorServices W) where
  -- `mark_unknown_effect`, its exceptions suppressed, where there is a dispatch key.
  abbrev pub lose_key : TurnResult → Exec (Actor W) (Unit {0})
  lose_key r =
      when_given r.dispatch_dedupe_key
        (λ key. update (λ s. record s { world = v.mark_unknown_effect key s.world }))

  -- `except Exception` around the append.
  abbrev pub give_up : TurnResult → Exn → Exec (Actor W) ℕ
  give_up r x = lose_key r >> throw x

  -- What follows the turn's own commit.
  abbrev pub recover_by : String → Action → ℕ → RecoveryDecision → Exec (Actor W) (Unit {0})
  recover_by run_id a next d = append_recovery_event v run_id next d (some a.action_id) >> pure tt

  abbrev pub after_outcome :
      String → Action → RunProjection → TurnResult → ℕ → TurnOutcomeKind → Exec (Actor W) (Unit {0})
  after_outcome run_id a p r next TurnOutcomeKind.dispatched =
      update (λ s. record s { world = v.on_action_success (effect_text a.effect_class) s.world })
  after_outcome run_id a p r next TurnOutcomeKind.recovery_pending =
      consult v a (reason_of r) p run_id >>= recover_by run_id a next
  after_outcome run_id a p r next TurnOutcomeKind.blocked = pure tt
  after_outcome run_id a p r next TurnOutcomeKind.noop = pure tt

  abbrev pub outcome_kept : String → Action → ℕ → TurnResult → Exec (Actor W) ℕ
  outcome_kept run_id a offset r =
      catching (append_turn_outcome_commit v run_id (suc offset) r (some a.action_id)) (give_up r)

  abbrev pub settle_turn :
      String → Action → RunProjection → TurnResult → ℕ → Exec (Actor W) (Unit {0})
  settle_turn run_id a p r next =
      lift (assert_single_dispatch_attempt_in_turn r)
      >> after_outcome run_id a p r next r.outcome_kind

  -- The body of the `try`.
  abbrev pub follow_turn :
      String → Action → RunProjection → ℕ → TurnResult → Exec (Actor W) (Unit {0})
  follow_turn run_id a p offset r = outcome_kept run_id a offset r >>= settle_turn run_id a p r

  unfoldable pub take_turn : String → Action → RunProjection → ℕ → Exec (Actor W) (Unit {0})
  unfolding consult append_recovery_event append_turn_outcome_commit
      assert_single_dispatch_attempt_in_turn
  take_turn run_id a p offset =
      on_world (v.run_turn (turn_input run_id offset) a) >>= follow_turn run_id a p offset

  abbrev pub recover_and_raise :
      String → Action → ℕ → Exn → RecoveryDecision → Exec (Actor W) (Unit {0})
  recover_and_raise run_id a offset x d =
      append_recovery_event v run_id (suc offset) d (some a.action_id) >> throw x

  -- The `except`: the failure goes through the gate, and is raised again.
  unfoldable pub recover : String → Action → RunProjection → ℕ → Exn → Exec (Actor W) (Unit {0})
  unfolding consult append_recovery_event
  recover run_id a p offset x =
      consult v a (v.lower (exn_name x)) p run_id >>= recover_and_raise run_id a offset x

  -- The projection caught up to the commit, and whether it reached it.
  abbrev pub look_at : String → ℕ → RunProjection → Exec (Actor W) (RunProjection × Bool)
  look_at run_id offset p =
      update (λ s. record s { last_projection = some p })
      >> (on_cache (readiness v.projection run_id offset) >>= λ ready. pure (p, ready))

  unfoldable pub observe : String → ℕ → Exec (Actor W) (RunProjection × Bool)
  unfolding catch_up readiness
  observe run_id offset = on_cache (catch_up v.projection run_id offset) >>= look_at run_id offset

  abbrev pub fingerprint_of : ActionCommit → ℕ → String
  fingerprint_of c offset = concat (c.run_id ∷ ":" ∷ c.commit_id ∷ ":" ∷ str offset ∷ [])

  -- The decision round of a commit that was not seen before.
  abbrev pub decision_round : ActionCommit → RunProjection → ℕ → Exec (Actor W) (Unit {0})
  decision_round c p offset =
      when_given c.action
        (λ a. catching (take_turn c.run_id a p offset) (recover c.run_id a p offset))

  -- `seen` and `mark` of the deduper around the round.
  abbrev pub once : String → Exec (Actor W) (Unit {0}) → Exec (Actor W) (Unit {0})
  once fingerprint body s =
      if seen fingerprint s.fingerprints
      then (ok tt, s)
      else body (record s { fingerprints = mark fingerprint s.fingerprints })

  abbrev pub decide_round : ActionCommit → ℕ → RunProjection × Bool → Exec (Actor W) (Unit {0})
  decide_round c offset (p, ready) =
      if ready then once (fingerprint_of c offset) (decision_round c p offset) else pure tt

  abbrev pub process_at : ActionCommit → RuntimeEvent → Exec (Actor W) (Unit {0})
  process_at c e = observe c.run_id e.commit_offset >>= decide_round c e.commit_offset

  unfoldable pub process_action_commit : ActionCommit → Exec (Actor W) (Unit {0})
  unfolding assert_no_derived_diagnostic_authority_input observe take_turn recover seen mark
  process_action_commit c =
      lift (assert_no_derived_diagnostic_authority_input c.events)
      >> (lift (last_event c) >>= process_at c)
