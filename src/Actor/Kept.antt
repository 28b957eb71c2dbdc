-- ===== src/Actor/Kept.antt =====
-- What the parts of a decision round keep of what was seen
-- (agent_kernel/substrate/temporal/run_actor_workflow.py).
use agent_kernel.Prelude.{◌≡◌, ℕ, suc, ◌+◌, String, Option, some}
use agent_kernel.Prelude.Errors.{Exec, Exn, ◌>>=◌, ◌>>◌, pure, throw}
use agent_kernel.Contracts.{effect_text, Action, ActionCommit, RunProjection, RecoveryDecision}
use agent_kernel.Runtime.Stores.{RecoveryOutcome}
use agent_kernel.Turn.State.{TurnResult, TurnOutcomeKind}
use agent_kernel.Turn.Results.{exn_name}
use agent_kernel.Runtime.EventLog.{append_action_commit}
use agent_kernel.Actor.State.{
  TurnIntentRecord, ActorServices, Actor, on_log, on_world, update, lift, when_given,
}
use agent_kernel.Actor.Appends.{
  recovery_input, append_recovery_event, append_turn_outcome_commit, written_intent, consult,
  outcome_record, written_outcome, recovery_commit, turn_commit, intent_record, intent_written,
}
use agent_kernel.Actor.Turns.{
  give_up, after_outcome, lose_key, reason_of, recover_by, turn_input, follow_turn, outcome_kept,
  settle_turn, recover_and_raise, take_turn, recover, decision_round, catching,
  assert_single_dispatch_attempt_in_turn,
}
use agent_kernel.Actor.Steps.{
  Respects, Allows, bind-Respects, catching-Respects, when_given-Respects,
}

module _ {W : Type 0} (v : ActorServices W) (R : Actor W → Actor W → Type 0)
    (allowed : Allows v R) where
  open allowed use {stays, follows, logs, turns, decides, succeeds, gives_up, intents, outcomes}

  sequence :
      {A B : Type 0} (m : Exec (Actor W) A) (f : A → Exec (Actor W) B)
      → Respects R m
      → ((a : A) → Respects R (f a))
      → Respects R (m >>= f)
  sequence m f = bind-Respects R follows m f

  given :
      {B : Type 0} (o : Option B) (f : B → Exec (Actor W) (Unit {0}))
      → ((b : B) → o ≡ some b → Respects R (f b))
      → Respects R (when_given o f)
  given o f = when_given-Respects R stays o f

  append_recovery_event-Respects :
      (r : String) (n : ℕ) (d : RecoveryDecision) (c : Option String)
      → Respects R (append_recovery_event v r n d c)
  unfolding append_recovery_event
  append_recovery_event-Respects r n d c =
      let appended = on_log (append_action_commit (recovery_commit r n d c v.now)) in
      let written : (RecoveryOutcome → Exec W (Unit {0})) → Exec (Actor W) (Unit {0}) =
        λ write. on_world (write (outcome_record v r n d c)) in
      sequence (appended >> written_outcome v r n d c) (λ u. pure (n + 2))
        (sequence appended (λ u. written_outcome v r n d c)
          (λ s. logs (append_action_commit (recovery_commit r n d c v.now) s.log).1 s)
          λ u. given v.write_outcome written (λ w e s. outcomes w e (outcome_record v r n d c) s))
        λ u s. stays s

  consult-Respects :
      (a : Action) (x : String) (p : RunProjection) (r : String) → Respects R (consult v a x p r)
  unfolding consult
  consult-Respects a x p r s = decides (recovery_input a x p r) s

  append_turn_outcome_commit-Respects :
      (r : String) (n : ℕ) (t : TurnResult) (c : Option String)
      → Respects R (append_turn_outcome_commit v r n t c)
  unfolding append_turn_outcome_commit
  append_turn_outcome_commit-Respects r n t c =
      let appended = on_log (append_action_commit (turn_commit v r n t c)) in
      let written : (TurnIntentRecord → Exec W (Unit {0})) → String → Exec (Actor W) (Unit {0}) =
        λ write i. on_world (write (intent_record v r t i)) in
      sequence (written_intent v r t >> appended) (λ u. pure (suc n))
        (sequence (written_intent v r t) (λ u. appended)
          (given v.write_intent (intent_written v r t) (λ w e.
            given t.intent_commit_ref (written w)
              (λ i e' s. intents w e (intent_record v r t i) s)))
          λ u s. logs (append_action_commit (turn_commit v r n t c) s.log).1 s)
        λ u s. stays s

  after_outcome-Respects :
      (r : String) (a : Action) (p : RunProjection) (t : TurnResult) (n : ℕ) (k : TurnOutcomeKind)
      → Respects R (after_outcome v r a p t n k)
  after_outcome-Respects r a p t n TurnOutcomeKind.dispatched =
      λ s. succeeds (effect_text a.effect_class) s
  after_outcome-Respects r a p t n TurnOutcomeKind.recovery_pending =
      sequence (consult v a (reason_of t) p r) (recover_by v r a n)
        (consult-Respects a (reason_of t) p r)
        λ d.
          sequence (append_recovery_event v r n d (some a.action_id)) (λ m. pure tt)
            (append_recovery_event-Respects r n d (some a.action_id)) λ m s. stays s
  after_outcome-Respects r a p t n TurnOutcomeKind.blocked = λ s. stays s
  after_outcome-Respects r a p t n TurnOutcomeKind.noop = λ s. stays s

  give_up-Respects : (t : TurnResult) (x : Exn) → Respects R (give_up v t x)
  give_up-Respects t x =
      let lost : String → Exec (Actor W) (Unit {0}) =
        λ key. update (λ s. record s { world = v.mark_unknown_effect key s.world }) in
      sequence (lose_key v t) (λ u. throw x)
        (given t.dispatch_dedupe_key lost (λ k e s. gives_up k s)) λ u s. stays s

  take_turn-Respects :
      (r : String) (a : Action) (p : RunProjection) (n : ℕ) → Respects R (take_turn v r a p n)
  unfolding take_turn
  take_turn-Respects r a p n =
      let append : TurnResult → Exec (Actor W) ℕ =
        λ t. append_turn_outcome_commit v r (suc n) t (some a.action_id) in
      sequence (on_world (v.run_turn (turn_input r n) a)) (follow_turn v r a p n)
        (λ s. turns (turn_input r n) a s)
        λ t.
          sequence (outcome_kept v r a n t) (settle_turn v r a p t)
            (catching-Respects R follows (append t) (give_up v t)
              (append_turn_outcome_commit-Respects r (suc n) t (some a.action_id))
              (give_up-Respects t))
            λ m.
              sequence (lift (assert_single_dispatch_attempt_in_turn t))
                (λ u. after_outcome v r a p t m t.outcome_kind) (λ s. stays s)
                λ u. after_outcome-Respects r a p t m t.outcome_kind

  recover-Respects :
      (r : String) (a : Action) (p : RunProjection) (n : ℕ) (x : Exn)
      → Respects R (recover v r a p n x)
  unfolding recover
  recover-Respects r a p n x =
      let code = v.lower (exn_name x) in
      sequence (consult v a code p r) (recover_and_raise v r a n x) (consult-Respects a code p r)
        λ d.
          sequence (append_recovery_event v r (suc n) d (some a.action_id)) (λ m. throw x)
            (append_recovery_event-Respects r (suc n) d (some a.action_id)) λ m s. stays s

  pub decision_round-Respects :
      (c : ActionCommit) (p : RunProjection) (n : ℕ) → Respects R (decision_round v c p n)
  decision_round-Respects c p n =
      let body : Action → Exec (Actor W) (Unit {0}) = λ a. take_turn v c.run_id a p n in
      let handler : Action → Exn → Exec (Actor W) (Unit {0}) = λ a. recover v c.run_id a p n in
      given c.action (λ a. catching (body a) (handler a))
        λ a e.
          catching-Respects R follows (body a) (handler a) (take_turn-Respects c.run_id a p n)
            (recover-Respects c.run_id a p n)
