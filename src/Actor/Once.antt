-- ===== src/Actor/Once.antt =====
-- Signals and commits that reach RunActorWorkflow more than once
-- (agent_kernel/substrate/temporal/run_actor_workflow.py).
use agent_kernel.Prelude.{
  ◌≡◌, refl, sym, ◌∙◌, subst, arith, ℕ, suc, ◌+◌, String, Option, none, some, true, not, List, [],
  ◌∷◌, ◌++◌, ◌⊎◌, inl, inr, if◌then◌else◌, eq_refl,
}
use agent_kernel.Prelude.Errors.{Outcome, ok, raised, continue, ◌>>◌}
use agent_kernel.Contracts.{ActionCommit, RunProjection, among}
use agent_kernel.Runtime.EventLog.{EventLog, append_action_commit}
use agent_kernel.Runtime.Projection
use agent_kernel.Actor.State.{ActorSignal, ActorServices, Actor, on_log, on_world}
use agent_kernel.Actor.Turns.{process_action_commit, fingerprint_of}
use agent_kernel.Actor.Signals.{
  add_token, carried_over, signal_token, is_seen, is_peer_signal_authorized, signal_commit,
  should_continue_as_new, trigger_continue_as_new, continued, count_round, remember, record_signal,
  deliver_signal, handle_signal, handle_for, signal_for, seen_token, signal, ActorCall, signalled,
  committed, call, run_calls,
}
use agent_kernel.Actor.Steps.{
  Respects, when_given-Respects, Quiet, Later, Later-refl, Later-trans, bind-Respects, Later-tokens,
  Later-marks, Later-run,
}
use agent_kernel.Actor.Rounds.{process-Marked, process-Later, process-seen, either}

add-Later :
    {W : Type 0} (k : String) (s : Actor W)
    → Later s (record s { seen_signal_tokens = k ∷ s.seen_signal_tokens })
unfolding Later
add-Later k s = (refl, (λ f h. h), λ x h. ground (arith, h))

among-head : (k : String) (ks : List String) → among k (k ∷ ks) ≡ true
among-head k ks = ground (arith, eq_refl k)

module _ {W : Type 0} (v : ActorServices W) where
  remember-Later : (i : ActorSignal) → Respects Later (remember v i)
  remember-Later i s =
      elim (signal_token i)
        as (λ o. Later s (record s { seen_signal_tokens = add_token o s.seen_signal_tokens })) [
          | none ↦ Later-refl s
          | some k ↦ add-Later k s
        ]

  remembered :
      (i : ActorSignal) (k : String) (s : Actor W)
      → signal_token i ≡ some k
      → among k (remember v i s).1.seen_signal_tokens ≡ true
  remembered i k s e =
      subst (λ o. among k (add_token o s.seen_signal_tokens) ≡ true) (sym e)
        (among-head k s.seen_signal_tokens)

  continued-Later : (r : String) → Respects Later (continued v r)
  unfolding trigger_continue_as_new Later
  continued-Later r s =
      either (λ z. Later s z.1) (should_continue_as_new v s) (trigger_continue_as_new v r s)
        (ok tt, s)
        (when_given-Respects Later Later-refl v.continue_as_new
          (λ start. on_world (start (carried_over v r s))) (λ b e t. Later-refl t) s)
        (Later-refl s)

  -- What follows once a signal is remembered.
  processed-Later :
      (r : String) (c : ActionCommit)
      → Respects Later (process_action_commit v c >> (count_round v >> continued v r))
  unfolding Later
  processed-Later r c =
      bind-Respects Later Later-trans (process_action_commit v c)
        (λ u. count_round v >> continued v r) (process-Later v c)
        λ u.
          bind-Respects Later Later-trans (count_round v) (λ u. continued v r) (λ s. Later-refl s)
            λ u. continued-Later r

  -- A signal changes nothing in the log and the services, or it is remembered.
  log-Later : (s : Actor W) (l : EventLog) → Later s (record s { log = l })
  unfolding Later
  log-Later s l = Later-refl s

  counted-Later :
      (s : Actor W) (n : ℕ) (c : Projection.Cache)
      → Later s (record s { signal_sequence = n; cache = c })
  unfolding Later
  counted-Later s n c = Later-refl s

  pending-Later :
      (s : Actor W) (signals : List ActorSignal) → Later s (record s { pending_signals = signals })
  unfolding Later
  pending-Later s signals = Later-refl s

  abbrev Told : ActorSignal → Actor W → Actor W → Type 0
  Told i s t =
      (Quiet s t ⊎ ((k : String) → signal_token i ≡ some k → among k t.seen_signal_tokens ≡ true))
      × Later s t

  recorded-Told :
      (r : String) (i : ActorSignal) (n : ℕ) (o : Outcome RunProjection) (s t : Actor W)
      → Quiet s t × Later s t
      → Told i s (continue o (record_signal v r i n) t).1
  unfolding append_action_commit
  recorded-Told r i n (raised x) s t (q, l) = (inl q, l)
  recorded-Told r i n (ok p) s t (q, l) =
      let c = signal_commit r i n (p.projected_offset + 1) v.now in
      let t1 : Actor W = (on_log (append_action_commit c) t).1 in
      let t2 : Actor W = (remember v i t1).1 in
      let rest = processed-Later r c t2 in
      let last : Actor W = ((process_action_commit v c >> (count_round v >> continued v r)) t2).1 in
      (
        inr (λ k e. Later-tokens t2 last k rest (remembered i k t1 e)),
        Later-trans s t last l (
            Later-trans t t2 last (Later-trans t t1 t2 (log-Later t t1.log) (remember-Later i t1))
              rest),
      )

  deliver-Told : (r : String) (i : ActorSignal) (s : Actor W) → Told i s (deliver_signal v r i s).1
  unfolding deliver_signal
  deliver-Told r i s =
      let n = suc s.signal_sequence in
      let (o, c) = Projection.get v.projection r s.log s.cache in
      let t : Actor W = record s { signal_sequence = n; cache = c } in
      recorded-Told r i n o s t ((refl, refl), counted-Later s n c)

  handle_for-Told :
      (i : ActorSignal) (s : Actor W) (r : Option String) → Told i s (handle_for v r i s).1
  handle_for-Told i s none = (inl (refl, refl), Later-refl s)
  handle_for-Told i s (some r) =
      let delivered = deliver_signal v r i s in
      either (λ z. Told i s z.1) (not (is_peer_signal_authorized i s.last_projection)) (ok tt, s)
        (if is_seen i s.seen_signal_tokens then (ok tt, s) else delivered)
        (inl (refl, refl), Later-refl s)
        (either (λ z. Told i s z.1) (is_seen i s.seen_signal_tokens) (ok tt, s) delivered
          (inl (refl, refl), Later-refl s) (deliver-Told r i s))

  signal_for-Told :
      (i : ActorSignal) (s : Actor W) (r : Option String) → Told i s (signal_for v r i s).1
  unfolding handle_signal
  signal_for-Told i s none = (inl (refl, refl), pending-Later s (s.pending_signals ++ (i ∷ [])))
  signal_for-Told i s (some r) = handle_for-Told i s s.run_id

  call-Later : (c : ActorCall) (s : Actor W) → Later s (call v c s)
  unfolding signal
  call-Later (signalled i) s = (signal_for-Told i s s.run_id).1
  call-Later (committed c) s = process-Later v c s

  run-Later : (calls : List ActorCall) (s : Actor W) → Later s (run_calls v calls s)
  unfolding run_calls
  run-Later [] s = Later-refl s
  run-Later (c ∷ calls) s =
      let t = call v c s in
      Later-trans s t (run_calls v calls t) (call-Later c s) (run-Later calls t)

  signal-seen :
      (i : ActorSignal) (k r : String) (s : Actor W)
      → s.run_id ≡ some r
      → signal_token i ≡ some k
      → among k s.seen_signal_tokens ≡ true
      → signal v i s ≡ (ok tt, s)
  unfolding signal handle_signal is_seen
  signal-seen i k r s e token h =
      let seen_before : is_seen i s.seen_signal_tokens ≡ true =
        subst (λ o. seen_token o s.seen_signal_tokens ≡ true) (sym token) h in
      let delivered = deliver_signal v r i s in
      let checked = if is_seen i s.seen_signal_tokens then (ok tt, s) else delivered in
      let kept : checked ≡ (ok tt, s) =
        subst (λ b. (if b then (ok tt, s) else delivered) ≡ (ok tt, s)) (sym seen_before) refl in
      let handled : handle_for v (some r) i s ≡ (ok tt, s) =
        either (λ z. z ≡ (ok tt, s)) (not (is_peer_signal_authorized i s.last_projection))
          (ok tt, s) checked refl kept in
      subst (λ o. signal_for v o i s ≡ (ok tt, s)) (sym e)
        (subst (λ o. handle_for v o i s ≡ (ok tt, s)) (sym e) handled)

  -- Of two signals with the same token k, whatever signals and commits come between, at most one does anything:
  -- either the first leaves the log and the services as they were, or the second changes nothing.
  pub signal_once :
      (i j : ActorSignal) (k : String) (calls : List ActorCall) (s : Actor W)
      → signal_token i ≡ some k
      → signal_token j ≡ some k
      → let t = (signal v i s).1 in
        let u = run_calls v calls t in Quiet s t ⊎ (signal v j u ≡ (ok tt, u))
  unfolding signal
  signal_once i j k calls s first second = go s.run_id refl
    where
      go :
          (r : Option String)
          → s.run_id ≡ r
          → let t = (signal v i s).1 in
            let u = run_calls v calls t in Quiet s t ⊎ (signal v j u ≡ (ok tt, u))
      go none e = inl (subst (λ o. Quiet s (signal_for v o i s).1) (sym e) (refl, refl))
      go (some r) e =
          let t = (signal v i s).1 in
          let u = run_calls v calls t in
          let (told, later) = signal_for-Told i s s.run_id in
          let after = run-Later calls t in
          elim told [
            | inl q ↦ inl q
            | inr h ↦ inr (
                signal-seen j k r u (Later-run t u after ∙ (Later-run s t later ∙ e)) second
                  (Later-tokens t u k after (h k first)))
          ]

  -- Of two times that a commit is processed, whatever signals and commits come between, at most one has an effect
  -- on the log or the services.
  pub process_once :
      (c : ActionCommit) (calls : List ActorCall) (s : Actor W)
      → let t = (process_action_commit v c s).1 in
        let u = run_calls v calls t in Quiet s t ⊎ Quiet u (process_action_commit v c u).1
  process_once c calls s =
      let t = (process_action_commit v c s).1 in
      let u = run_calls v calls t in
      elim (process-Marked v c s).0 [
        | inl q ↦ inl q
        | inr (e, last, h) ↦ inr (
            process-seen v c e u last
              (Later-marks t u (fingerprint_of v c e.commit_offset) (run-Later calls t) h))
      ]
