-- ===== src/Runtime/Refinement.antt =====
-- What the event log and the projection service of agent_kernel/kernel/minimal_runtime.py promise together,
-- over any history of appends and reads.
use agent_kernel.Prelude.{
  ◌≡◌, refl, sym, ◌∙◌, ap, subst, arith, String, List, [], ◌∷◌, ◌++◌, true, append-nil,
  append_assoc,
}
use agent_kernel.Prelude.Errors.{Outcome, ok, raised}
use agent_kernel.Prelude.Dict.{lookup}
use agent_kernel.Contracts.{RuntimeEvent, RunProjection}
use agent_kernel.Runtime.EventLog.{stamp, behind, load}
use agent_kernel.Runtime.Transition.{default_projection}
use agent_kernel.Runtime.Projection.{Config, Cache, cached, replay, through, kept}
use agent_kernel.Runtime.Projection
use agent_kernel.Runtime.Replay.{stamp-Ascends, behind-all}
use agent_kernel.Runtime.Current.{through-rest}
use agent_kernel.Runtime.Histories.{
  Op, append, catch_up, get, readiness, World, empty_world, after, run, submitted, recorded, fits,
  all_fit, Logged, append-Logged, Synced, append-Synced, kept-Synced,
}

outcome-kept :
    (g : Config) (r : String) (o : Outcome RunProjection) (s : Cache) → (kept g r o s).0 ≡ o
outcome-kept g r (ok p) s = refl
outcome-kept g r (raised x) s = refl

-- The log alone: a read leaves it as it is, whatever the migration does to the events that are read.
module _ (g : Config) (r : String) where
  op-Logged :
      (op : Op) (events : List RuntimeEvent) (w : World)
      → fits op w ≡ true
      → Logged r events w.0
      → Logged r (events ++ submitted r op) (after g op w).0
  op-Logged (append c) events (l, s) f h = append-Logged r c events l f h
  op-Logged (catch_up k t) events (l, s) f h = subst (λ d. Logged r d l) (sym (append-nil events)) h
  op-Logged (get k) events (l, s) f h = subst (λ d. Logged r d l) (sym (append-nil events)) h
  op-Logged (readiness k n) events (l, s) f h =
      subst (λ d. Logged r d l) (sym (append-nil events)) h

  run-Logged :
      (ops : List Op) (events : List RuntimeEvent) (w : World)
      → all_fit g ops w ≡ true
      → Logged r events w.0
      → Logged r (events ++ recorded r ops) (run g ops w).0
  run-Logged [] events w f h = subst (λ d. Logged r d w.0) (sym (append-nil events)) h
  run-Logged (op ∷ ops) events w f h =
      subst (λ d. Logged r d (run g ops (after g op w)).0)
        (append_assoc events (submitted r op) (recorded r ops))
        (run-Logged ops (events ++ submitted r op) (after g op w) (ground arith)
          (op-Logged op events w (ground arith) h))

  empty-Logged : Logged r [] empty_world.0
  unfolding stamp lookup
  empty-Logged = (refl, refl)

  -- Over any history of appends and reads in which the log forgets no run, the log has for a run all
  -- events that the commits handed in for it, in that order, under the offsets 1, 2, 3 and so on.
  pub load-run :
      (ops : List Op)
      → all_fit g ops empty_world ≡ true
      → load r 0 (run g ops empty_world).0 ≡ stamp 1 (recorded r ops)
  unfolding load
  load-run ops f =
      let events = recorded r ops in
      ap (behind 0) (run-Logged ops [] empty_world f empty-Logged).0
      ∙ behind-all 0 (stamp 1 events) (stamp-Ascends 0 events)

module _ (g : Config)
    (kept_offset : (e f : RuntimeEvent) → g.migrate e ≡ ok f → f.commit_offset ≡ e.commit_offset)
    (r : String) where
  reads-Synced :
      (k : String) (events : List RuntimeEvent) (w : World)
      → Synced g r events w
      → Synced g r (events ++ []) (w.0, (Projection.get g k w.0 w.1).1)
  unfolding Projection.get load
  reads-Synced k events (l, s) h =
      let unseen = load k (cached k s).projected_offset l in
      subst (λ d. Synced g r d (l, (Projection.get g k l s).1)) (sym (append-nil events))
        (kept-Synced g kept_offset r k events unseen [] l s (append-nil unseen) h)

  op-Synced :
      (op : Op) (events : List RuntimeEvent) (w : World)
      → fits op w ≡ true
      → Synced g r events w
      → Synced g r (events ++ submitted r op) (after g op w)
  unfolding Projection.catch_up Projection.get Projection.readiness load
  op-Synced (append c) events (l, s) f h = append-Synced g kept_offset r c events l s f h
  op-Synced (catch_up k t) events (l, s) f h =
      let unseen = load k (cached k s).projected_offset l in
      let (rest, split) = through-rest t unseen in
      subst (λ d. Synced g r d (after g (catch_up k t) (l, s))) (sym (append-nil events))
        (kept-Synced g kept_offset r k events (through t unseen) rest l s split h)
  op-Synced (get k) events (l, s) f h = reads-Synced k events (l, s) h
  op-Synced (readiness k n) events (l, s) f h = reads-Synced k events (l, s) h

  run-Synced :
      (ops : List Op) (events : List RuntimeEvent) (w : World)
      → all_fit g ops w ≡ true
      → Synced g r events w
      → Synced g r (events ++ recorded r ops) (run g ops w)
  run-Synced [] events w f h = subst (λ d. Synced g r d w) (sym (append-nil events)) h
  run-Synced (op ∷ ops) events w f h =
      subst (λ d. Synced g r d (run g ops (after g op w)))
        (append_assoc events (submitted r op) (recorded r ops))
        (run-Synced ops (events ++ submitted r op) (after g op w) (ground arith)
          (op-Synced op events w (ground arith) h))

  empty-Synced : Synced g r [] empty_world
  unfolding default_projection replay stamp behind lookup
  empty-Synced = (refl, refl, (omega arith, refl))

  -- Over any history of appends and reads in which the log forgets no run, with a migration that keeps an
  -- event's offset, `get` answers what one replay of all the run's committed events from the default
  -- projection answers: neither the cache, nor where the reads fell, nor a failed one, has a part in it.
  pub get-run :
      (ops : List Op)
      → all_fit g ops empty_world ≡ true
      → (Projection.get g r (run g ops empty_world).0 (run g ops empty_world).1).0
        ≡ replay g (default_projection r) (stamp 1 (recorded r ops))
  unfolding Projection.get load
  get-run ops f =
      let (l, s) = run g ops empty_world in
      let (es, n, (le, eq)) = run-Synced ops [] empty_world f empty-Synced in
      outcome-kept g r (replay g (cached r s) (load r (cached r s).projected_offset l)) s
      ∙ ap (λ events. replay g (cached r s) (behind (cached r s).projected_offset events)) es
      ∙ eq
