-- ===== src/Actor/Failures.antt =====
-- What happens to a failed decision round of the run actor (process_action_commit of
-- agent_kernel/substrate/temporal/run_actor_workflow.py).
use agent_kernel.Prelude.{◌≡◌, refl, sym, ap, subst, arith, ℕ, suc, ◌+◌, String, Option, none, some}
use agent_kernel.Prelude.Errors.{Outcome, Exec, Exn, ok, raised, continue}
use agent_kernel.Contracts.{Action, ActionCommit, RunProjection, RecoveryDecision, RecoveryInput}
use agent_kernel.Runtime.EventLog.{EventLog, append_action_commit}
use agent_kernel.Runtime.Stores.{RecoveryOutcome}
use agent_kernel.Turn.Results.{exn_name}
use agent_kernel.Actor.State.{ActorServices, Actor, on_log, on_world, when_given}
use agent_kernel.Actor.Appends.{
  append_recovery_event, recovery_commit, outcome_record, written_outcome, consult, checked,
  recovery_input, latest_run_offset, assert_recovery_gate_is_read_only,
}
use agent_kernel.Actor.Turns.{take_turn, recover, recover_and_raise, catching, decision_round}
use agent_kernel.Actor.Steps.{when_given-Respects}

read_only : (n : ℕ) → assert_recovery_gate_is_read_only n n ≡ ok tt
read_only n = ground arith

module _ {W : Type 0} (v : ActorServices W) where
  -- The gate decides, and leaves the log alone.
  abbrev pub Decides : Type 0
  Decides =
      (i : RecoveryInput) (l : EventLog) (w : W)
      → (d : RecoveryDecision) × (w' : W) × (v.decide i (l, w) ≡ (ok d, (l, w')))

  -- The store of outcomes, where there is one, takes every record.
  abbrev pub Writes : Type 0
  Writes =
      (write : RecoveryOutcome → Exec W (Unit {0})) (o : RecoveryOutcome) (w : W)
      → v.write_outcome ≡ some write
      → (write o w).0 ≡ ok tt

  -- What the gate says of a failed action, asked with the log and the services of a state.
  abbrev answered : Action → String → RunProjection → String → Actor W → Outcome RecoveryDecision
  answered a code p r s = (v.decide (recovery_input a code p r) (s.log, s.world)).0

  consult-decides :
      (a : Action) (code : String) (p : RunProjection) (r : String) (s : Actor W)
      → Decides
      → (d : RecoveryDecision) × (w : W) × (answered a code p r s ≡ ok d)
        × (consult v a code p r s ≡ (ok d, record s { world = w }))
  unfolding consult
  consult-decides a code p r s decides =
      let (d, w, e) = decides (recovery_input a code p r) s.log s.world in
      let n = latest_run_offset r s.log in
      let now : Outcome RecoveryDecision × Actor W = (ok d, record s { world = w }) in
      (
        d,
        w,
        ap (λ (z : Outcome RecoveryDecision × (EventLog × W)). z.0) e,
        subst
            (λ z.
              (
                checked z.0 (assert_recovery_gate_is_read_only n (latest_run_offset r z.1.0)),
                record s { log = z.1.0; world = z.1.1 },
              )
              ≡ now)
            (sym e) (ap (λ o. (checked (ok d) o, record s { world = w })) (read_only n)),
      )

  given-ok :
      {B : Type 0} (o : Option B) (f : B → Exec (Actor W) (Unit {0})) (s : Actor W)
      → ((b : B) → o ≡ some b → (f b s).0 ≡ ok tt)
      → (when_given o f s).0 ≡ ok tt
  given-ok none f s h = refl
  given-ok (some b) f s h = h b refl

  -- A recovery as it must end: raised again, with the commit of the gate's decision appended to a log.
  Recovered :
      String
      → Action
      → ℕ
      → Exn
      → Outcome RecoveryDecision
      → EventLog
      → Outcome (Unit {0}) × Actor W
      → Type 0
  Recovered r a n x said l result =
      (result.0 ≡ raised x)
      × ((d : RecoveryDecision) × (said ≡ ok d)
          × (result.1.log
              ≡ (append_action_commit (recovery_commit r (suc n) d (some a.action_id) v.now) l).1))

  written-Recovered :
      (r : String) (a : Action) (n : ℕ) (x : Exn) (d : RecoveryDecision) (l : EventLog)
      (o : Outcome (Unit {0})) (t : Actor W)
      → o ≡ ok tt
      → t.log ≡ (append_action_commit (recovery_commit r (suc n) d (some a.action_id) v.now) l).1
      → Recovered r a n x (ok d) l (
          continue
            (continue o (λ u s. (ok (suc n + 2), s)) t).0
            (λ m s. (raised x, s))
            (continue o (λ u s. (ok (suc n + 2), s)) t).1)
  unfolding Recovered
  written-Recovered r a n x d l (ok u) t e h = (refl, (d, refl, h))
  written-Recovered r a n x d l (raised y) t e h = ground (arith, e)

  recover_and_raise-Recovered :
      (r : String) (a : Action) (n : ℕ) (x : Exn) (d : RecoveryDecision) (s : Actor W)
      → Writes
      → Recovered r a n x (ok d) s.log (recover_and_raise v r a n x d s)
  unfolding append_recovery_event append_action_commit
  recover_and_raise-Recovered r a n x d s writes =
      let c = some a.action_id in
      let t : Actor W = (on_log (append_action_commit (recovery_commit r (suc n) d c v.now)) s).1 in
      let written : (RecoveryOutcome → Exec W (Unit {0})) → Exec (Actor W) (Unit {0}) =
        λ write. on_world (write (outcome_record v r (suc n) d c)) in
      let fine =
        given-ok v.write_outcome written t
          (λ write e. writes write (outcome_record v r (suc n) d c) t.world e) in
      let same =
        when_given-Respects (λ s t. t.log ≡ s.log) (λ s. refl) v.write_outcome written
          (λ write e s. refl) t in
      let (o, u) = written_outcome v r (suc n) d c t in
      written-Recovered r a n x d s.log o u fine same

  recover-Recovered :
      (r : String) (a : Action) (p : RunProjection) (n : ℕ) (x : Exn) (s : Actor W)
      → Decides
      → Writes
      → Recovered r a n x (answered a (v.lower (exn_name x)) p r s) s.log (recover v r a p n x s)
  unfolding recover
  recover-Recovered r a p n x s decides writes =
      let (d, w, said, e) = consult-decides a (v.lower (exn_name x)) p r s decides in
      let raises = recover_and_raise-Recovered r a n x d (record s { world = w }) writes in
      subst (λ o. Recovered r a n x o s.log (recover v r a p n x s)) (sym said)
        (subst
          (λ z. Recovered r a n x (ok d) s.log (continue z.0 (recover_and_raise v r a n x) z.1))
          (sym e) raises)

  -- Where the gate always decides without touching the log, and the outcome store takes every record: a round
  -- whose turn raises an exception raises the same exception, and appends one commit to the log that
  -- the turn left, behind the offset of the action's own commit: the recovery commit of what the gate decides, in the
  -- state that the turn left, about this action, this projection and the lower-cased name of this exception.
  pub decision_round_recovers :
      (c : ActionCommit) (a : Action) (p : RunProjection) (n : ℕ) (x : Exn) (s : Actor W)
      → Decides
      → Writes
      → c.action ≡ some a
      → (take_turn v c.run_id a p n s).0 ≡ raised x
      → let t = (take_turn v c.run_id a p n s).1 in
        let result = decision_round v c p n s in
        (result.0 ≡ raised x)
        × ((d : RecoveryDecision) × ((v.decide
                (recovery_input a (v.lower (exn_name x)) p c.run_id)
                (t.log, t.world)).0
              ≡ ok d)
            × (result.1.log
                ≡ (append_action_commit
                    (recovery_commit c.run_id (suc n) d (some a.action_id) v.now)
                    t.log).1))
  unfolding Recovered
  decision_round_recovers c a p n x s decides writes e fails =
      let (o, t) = take_turn v c.run_id a p n s in
      let recovery = recover v c.run_id a p n in
      let done = recover-Recovered c.run_id a p n x t decides writes in
      let said = answered a (v.lower (exn_name x)) p c.run_id t in
      let recovered = Recovered c.run_id a n x said t.log in
      let caught : recovered (catching (take_turn v c.run_id a p n) recovery s) =
        subst
          (λ o. recovered (elim o as (λ u. Outcome (Unit {0}) × Actor W) [
            | ok u ↦ (ok u, t)
            | raised y ↦ recovery y t
          ]))
          (sym fails) done in
      subst
        (λ o.
          recovered (
            when_given o (λ b. catching (take_turn v c.run_id b p n) (recover v c.run_id b p n)) s))
        (sym e) caught
