-- ===== src/Actor/Executions.antt =====
-- The executions that a run actor makes, over any history of its calls: RunActorWorkflow, the turn engine and the
-- dedupe store together.
use agent_kernel.Prelude.{
  ◌≡◌, refl, sym, subst, arith, ℕ, suc, ◌+◌, String, Option, none, some, Bool, true, false, not,
  List, [], ◌∷◌, ◌++◌, if◌then◌else◌,
}
use mathlib.Core.Option.{some-injective}
use agent_kernel.Prelude.Errors.{Exec, ok, ◌>>=◌, ◌>>◌}
use agent_kernel.Contracts.{ActionCommit, RunProjection}
use agent_kernel.Runtime.EventLog.{append_action_commit}
use agent_kernel.Runtime.Projection
use agent_kernel.Runtime.Stores.{seen, mark}
use agent_kernel.Turn.State.{Call, DedupePort}
use agent_kernel.Turn.Once.Ledger.{IsLedger}
use agent_kernel.Turn.Once.Loop.{Once, turn-Once}
use agent_kernel.Actor.State.{ActorSignal, Actor, on_log, on_cache, on_world, lift}
use agent_kernel.Actor.Turns.{
  process_action_commit, process_at, last_event, observe, decision_round, decide_round,
  fingerprint_of, assert_no_derived_diagnostic_authority_input,
}
use agent_kernel.Actor.Signals.{
  record_signal, signal_commit, remember, count_round, continued, should_continue_as_new,
  trigger_continue_as_new, carried_over, deliver_signal, handle_for, signal_for, handle_signal,
  signal, is_seen, is_peer_signal_authorized, ActorCall, signalled, committed, call, run_calls,
}
use agent_kernel.Actor.Steps.{Respects, Allows, bind-Respects, when_given-Respects}
use agent_kernel.Actor.Kept.{decision_round-Respects}
use agent_kernel.Actor.Rounds.{either, observe-Respects}
use agent_kernel.Actor.Wiring.{
  EngineDependencies, OtherDependencies, engine_services, wired, optional, on_second,
}

module _ {W V B : Type 0} where
  -- A service on the second part of the state leaves the first alone.
  first-kept :
      (f : Option (B → Exec V (Unit {0}))) (g : B → Exec (W × V) (Unit {0}))
      → optional {W = W} f ≡ some g
      → (b : B) (w : W × V) → (g b w).1.0 ≡ w.0
  first-kept none g eq b w = ground (arith, eq)
  first-kept (some f) g eq b w =
      subst (λ h. (h b w).1.0 ≡ w.0) (some-injective (λ b. on_second (f b)) g eq) refl

module _ {V : Type 0} (e : EngineDependencies) (d : DedupePort) (l : IsLedger d)
    (o : OtherDependencies V) where
  open l use {has, unknown_keeps}

  abbrev World : Type 0
  World = (d.Store × List Call) × V

  -- No key of the store was executed twice, and none that it has no record of.
  abbrev pub ExecutedOnce : Actor World → Type 0
  ExecutedOnce s = Once (engine_services e) d l s.world.0.0 s.world.0.1

  unfoldable Still : Actor World → Actor World → Type 0
  Still s t = ExecutedOnce s → ExecutedOnce t

  Still-trans : (s t u : Actor World) → Still s t → Still t u → Still s u
  unfolding Still
  Still-trans s t u f g h = g (f h)

  -- Only the engine and the loss of a key touch the store.
  Still-Allows : Allows (wired e d o) Still
  unfolding wired Still
  Still-Allows = record {
    stays = λ s h. h;
    follows = Still-trans;
    logs = λ log s h. h;
    turns = λ i a s h. turn-Once (engine_services e) d l i (some a) s.world.0 h;
    decides = λ i s h. h;
    succeeds = λ x s h. h;
    gives_up = λ key s h k. ground (arith, h k, unknown_keeps key s.world.0.0 k);
    intents = λ write eq i s h.
        subst (λ w. Once (engine_services e) d l w.0 w.1)
          (sym (first-kept o.write_intent write eq i s.world)) h;
    outcomes = λ write eq r s h.
        subst (λ w. Once (engine_services e) d l w.0 w.1)
          (sym (first-kept o.write_outcome write eq r s.world)) h;
  }

  sequence :
      {A B : Type 0} (m : Exec (Actor World) A) (f : A → Exec (Actor World) B)
      → Respects Still m
      → ((a : A) → Respects Still (f a))
      → Respects Still (m >>= f)
  sequence m f = bind-Respects Still Still-trans m f

  -- What is no part of the services' state does not count.
  same_world : (s t : Actor World) → t.world ≡ s.world → Still s t
  unfolding Still
  same_world s t eq h = subst (λ w. Once (engine_services e) d l w.0.0 w.0.1) (sym eq) h

  first_kept_world : (s t : Actor World) → t.world.0 ≡ s.world.0 → Still s t
  unfolding Still
  first_kept_world s t eq h = subst (λ w. Once (engine_services e) d l w.0 w.1) (sym eq) h

  decide_round-Still :
      (c : ActionCommit) (n : ℕ) (seen_to : RunProjection × Bool)
      → Respects Still (decide_round (wired e d o) c n seen_to)
  unfolding seen
  decide_round-Still c n (p, false) s = same_world s s refl
  decide_round-Still c n (p, true) s =
      let v = wired e d o in
      let f = fingerprint_of v c n in
      let t : Actor World = record s { fingerprints = mark f s.fingerprints } in
      either (λ z. Still s z.1) (seen f s.fingerprints) (ok tt, s) (decision_round v c p n t)
        (same_world s s refl)
        (Still-trans s t (decision_round v c p n t).1 (same_world s t refl)
          (decision_round-Respects v Still Still-Allows c p n t))

  process-Still : (c : ActionCommit) → Respects Still (process_action_commit (wired e d o) c)
  unfolding process_action_commit
  process-Still c =
      let v = wired e d o in
      let reads = λ (s : Actor World) (cache : Projection.Cache) (p : Option RunProjection).
        same_world s (record s { cache = cache; last_projection = p }) refl in
      sequence (lift (assert_no_derived_diagnostic_authority_input c.events))
        (λ u. lift (last_event c) >>= process_at v c) (λ s. same_world s s refl)
        λ u.
          sequence (lift (last_event c)) (process_at v c) (λ s. same_world s s refl)
            λ ev.
              sequence (observe v c.run_id ev.commit_offset) (decide_round v c ev.commit_offset)
                (observe-Respects v Still Still-trans reads c.run_id ev.commit_offset)
                (decide_round-Still c ev.commit_offset)

  continued-Still : (r : String) → Respects Still (continued (wired e d o) r)
  unfolding trigger_continue_as_new wired
  continued-Still r s =
      let v = wired e d o in
      either (λ z. Still s z.1) (should_continue_as_new v s) (trigger_continue_as_new v r s)
        (ok tt, s)
        (when_given-Respects Still (λ s. same_world s s refl) v.continue_as_new
          (λ start. on_world (start (carried_over v r s)))
          (λ start eq t.
            first_kept_world t (on_world (start (carried_over v r s)) t).1
              (first-kept o.continue_as_new start eq (carried_over v r s) t.world))
          s)
        (same_world s s refl)

  record_signal-Still :
      (r : String) (i : ActorSignal) (n : ℕ) (p : RunProjection)
      → Respects Still (record_signal (wired e d o) r i n p)
  record_signal-Still r i n p =
      let v = wired e d o in
      let c = signal_commit r i n (p.projected_offset + 1) v.now in
      let rest = process_action_commit v c >> (count_round v >> continued v r) in
      sequence (on_log (append_action_commit c)) (λ u. remember v i >> rest)
        (λ s. same_world s (on_log (append_action_commit c) s).1 refl)
        λ u.
          sequence (remember v i) (λ u. rest) (λ s. same_world s (remember v i s).1 refl)
            λ u.
              sequence (process_action_commit v c) (λ u. count_round v >> continued v r)
                (process-Still c)
                λ u.
                  sequence (count_round v) (λ u. continued v r)
                    (λ s. same_world s (count_round v s).1 refl) λ u. continued-Still r

  deliver_signal-Still :
      (r : String) (i : ActorSignal) → Respects Still (deliver_signal (wired e d o) r i)
  unfolding deliver_signal
  deliver_signal-Still r i s =
      let v = wired e d o in
      let n = suc s.signal_sequence in
      let t : Actor World = record s { signal_sequence = n } in
      let got : Exec (Actor World) RunProjection = on_cache (Projection.get v.projection r) in
      Still-trans s t ((got >>= record_signal v r i n) t).1 (same_world s t refl) (
        sequence got (record_signal v r i n) (λ s. same_world s (got s).1 refl)
          (record_signal-Still r i n) t)

  handle_for-Still :
      (r : Option String) (i : ActorSignal) → Respects Still (handle_for (wired e d o) r i)
  handle_for-Still none i s = same_world s s refl
  handle_for-Still (some r) i s =
      let delivered = deliver_signal (wired e d o) r i s in
      let unchanged = same_world s s refl in
      either (λ z. Still s z.1) (not (is_peer_signal_authorized i s.last_projection)) (ok tt, s)
        (if is_seen i s.seen_signal_tokens then (ok tt, s) else delivered) unchanged
        (either (λ z. Still s z.1) (is_seen i s.seen_signal_tokens) (ok tt, s) delivered unchanged
          (deliver_signal-Still r i s))

  signal_for-Still :
      (r : Option String) (i : ActorSignal) → Respects Still (signal_for (wired e d o) r i)
  unfolding handle_signal
  signal_for-Still none i s =
      same_world s (record s { pending_signals = s.pending_signals ++ (i ∷ []) }) refl
  signal_for-Still (some r) i s = handle_for-Still s.run_id i s

  call-Still : (c : ActorCall) (s : Actor World) → Still s (call (wired e d o) c s)
  unfolding signal
  call-Still (signalled i) s = signal_for-Still s.run_id i s
  call-Still (committed c) s = process-Still c s

  -- A run actor that is wired to the turn engine and to a dedupe store that is a ledger, with any executor
  -- and admission service, and with any gate and other services that do not share the dedupe store: from a state
  -- in which every dispatch key was executed at most once, and only if the store has a record of it, over any
  -- sequence of signals and action commits, still no dispatch key has been executed twice, and none that the
  -- store has no record of.
  pub run_calls-ExecutedOnce :
      (calls : List ActorCall) (s : Actor World)
      → ExecutedOnce s
      → ExecutedOnce (run_calls (wired e d o) calls s)
  unfolding run_calls Still
  run_calls-ExecutedOnce [] s h = h
  run_calls-ExecutedOnce (c ∷ calls) s h =
      run_calls-ExecutedOnce calls (call (wired e d o) c s) (call-Still c s h)
