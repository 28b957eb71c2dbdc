-- ===== src/Actor/Rounds.antt =====
-- The checks around a decision round: seen, marked, or neither
-- (agent_kernel/substrate/temporal/run_actor_workflow.py).
use agent_kernel.Prelude.{
  ◌≡◌, refl, sym, subst, arith, ℕ, String, Option, some, Bool, true, false, List, ◌⊎◌, inl, inr,
  if◌then◌else◌, eq_refl,
}
use agent_kernel.Prelude.Errors.{Outcome, Exec, ok, raised, continue, ◌>>=◌, pure}
use agent_kernel.Contracts.{ActionCommit, RuntimeEvent, RunProjection, among}
use agent_kernel.Runtime.Stores.{seen, mark}
use agent_kernel.Runtime.Projection.{Cache, catch_up, readiness}
use agent_kernel.Actor.State.{ActorServices, Actor, on_cache, update, lift}
use agent_kernel.Actor.Turns.{
  look_at, process_at, last_event, observe, fingerprint_of, decision_round, once, decide_round,
  process_action_commit, assert_no_derived_diagnostic_authority_input,
}
use agent_kernel.Actor.Steps.{
  Respects, Quiet, Quiet-trans, Later, Later-refl, Later-trans, bind-Respects, Later-marks,
  Later-Allows,
}
use agent_kernel.Actor.Kept.{decision_round-Respects}

among-mark : (f g : String) (fs : List String) → among g fs ≡ true → among g (mark f fs) ≡ true
unfolding mark
among-mark f g fs h = ground (arith, h)

mark-among : (f : String) (fs : List String) → among f (mark f fs) ≡ true
unfolding mark
mark-among f fs = ground (arith, eq_refl f)

pub either : {A : Type 0} (P : A → Type 0) (b : Bool) (x y : A) → P x → P y → P (if b then x else y)
either P true x y p q = p
either P false x y p q = q

module _ {W : Type 0} (v : ActorServices W) where
  module _ (R : Actor W → Actor W → Type 0) (R-trans : (s t u : Actor W) → R s t → R t u → R s u)
      (reads : (s : Actor W) (c : Cache) (o : Option RunProjection)
        → R s (record s { cache = c; last_projection = o })) where
    pub observe-Respects : (r : String) (n : ℕ) → Respects R (observe v r n)
    unfolding observe
    observe-Respects r n =
        let refreshed : RunProjection → Exec (Actor W) (Unit {0}) =
          λ p. update (λ s. record s { last_projection = some p }) in
        let asked : Exec (Actor W) Bool = on_cache (readiness v.projection r n) in
        bind-Respects R R-trans (on_cache (catch_up v.projection r n)) (look_at v r n)
          (λ s. reads s (catch_up v.projection r n s.log s.cache).1 s.last_projection)
          λ p.
            bind-Respects R R-trans (refreshed p) (λ u. asked >>= λ ready. pure (p, ready))
              (λ s. reads s s.cache (some p))
              λ u.
                bind-Respects R R-trans asked (λ ready. pure (p, ready))
                  (λ s. reads s (readiness v.projection r n s.log s.cache).1 s.last_projection)
                  λ b s. reads s s.cache s.last_projection

  observe-Later : (r : String) (n : ℕ) → Respects Later (observe v r n)
  unfolding Later
  observe-Later = observe-Respects Later Later-trans (λ s c o. Later-refl s)

  observe-Quiet : (r : String) (n : ℕ) → Respects Quiet (observe v r n)
  observe-Quiet = observe-Respects Quiet Quiet-trans (λ s c o. (refl, refl))

  -- Of a body under a fingerprint: either nothing happens, or the fingerprint is marked.
  abbrev Marked : String → Actor W → Actor W → Type 0
  Marked f s t = Quiet s t ⊎ (among f t.fingerprints ≡ true)

  mark-Later :
      (f : String) (s : Actor W) → Later s (record s { fingerprints = mark f s.fingerprints })
  unfolding Later
  mark-Later f s = (refl, (λ g h. among-mark f g s.fingerprints h), λ k h. h)

  once-Marked :
      (f : String) (body : Exec (Actor W) (Unit {0})) (s : Actor W)
      → Respects Later body
      → Marked f s (once v f body s).1 × Later s (once v f body s).1
  unfolding seen
  once-Marked f body s h =
      let t : Actor W = record s { fingerprints = mark f s.fingerprints } in
      either (λ z. Marked f s z.1 × Later s z.1) (among f s.fingerprints) (ok tt, s) (body t)
        (inl (refl, refl), Later-refl s)
        (
          inr (Later-marks t (body t).1 f (h t) (mark-among f s.fingerprints)),
          Later-trans s t (body t).1 (mark-Later f s) (h t),
        )

  once-seen :
      (f : String) (body : Exec (Actor W) (Unit {0})) (s : Actor W)
      → among f s.fingerprints ≡ true
      → once v f body s ≡ (ok tt, s)
  unfolding seen
  once-seen f body s h = rw h refl

  round-Marked :
      (c : ActionCommit) (n : ℕ) (o : Outcome (RunProjection × Bool)) (s t : Actor W)
      → Quiet s t × Later s t
      → Marked (fingerprint_of v c n) s (continue o (decide_round v c n) t).1
        × Later s (continue o (decide_round v c n) t).1
  round-Marked c n (raised x) s t (q, l) = (inl q, l)
  round-Marked c n (ok (p, false)) s t (q, l) = (inl q, l)
  round-Marked c n (ok (p, true)) s t (q, l) =
      let f = fingerprint_of v c n in
      let body = decision_round v c p n in
      let (m, l') = once-Marked f body t (decision_round-Respects v Later (Later-Allows v) c p n) in
      (
        elim m [ inl q' ↦ inl (Quiet-trans s t (once v f body t).1 q q') | inr h ↦ inr h ],
        Later-trans s t (once v f body t).1 l l',
      )

  process_at-Marked :
      (c : ActionCommit) (e : RuntimeEvent) (s : Actor W)
      → Marked (fingerprint_of v c e.commit_offset) s (process_at v c e s).1
        × Later s (process_at v c e s).1
  process_at-Marked c e s =
      let n = e.commit_offset in
      let (o, t) = observe v c.run_id n s in
      round-Marked c n o s t (observe-Quiet c.run_id n s, observe-Later c.run_id n s)

  round-seen :
      (c : ActionCommit) (n : ℕ) (o : Outcome (RunProjection × Bool)) (s t : Actor W)
      → Quiet s t
      → among (fingerprint_of v c n) t.fingerprints ≡ true
      → Quiet s (continue o (decide_round v c n) t).1
  round-seen c n (raised x) s t q h = q
  round-seen c n (ok (p, false)) s t q h = q
  round-seen c n (ok (p, true)) s t q h =
      let e = once-seen (fingerprint_of v c n) (decision_round v c p n) t h in
      subst (λ z. Quiet s z.1) (sym e) q

  process_at-seen :
      (c : ActionCommit) (e : RuntimeEvent) (s : Actor W)
      → among (fingerprint_of v c e.commit_offset) s.fingerprints ≡ true
      → Quiet s (process_at v c e s).1
  process_at-seen c e s h =
      let n = e.commit_offset in
      let (o, t) = observe v c.run_id n s in
      round-seen c n o s t (observe-Quiet c.run_id n s)
        (Later-marks s t (fingerprint_of v c n) (observe-Later c.run_id n s) h)

  -- The two checks before the round leave the state alone.
  checks-Marked :
      (c : ActionCommit) (u : Outcome (Unit {0})) (o : Outcome RuntimeEvent) (s : Actor W)
      → let t = (continue u (λ z. lift o >>= process_at v c) s).1 in
        (Quiet s t
          ⊎ ((e : RuntimeEvent) × (o ≡ ok e)
              × (among (fingerprint_of v c e.commit_offset) t.fingerprints ≡ true)))
        × Later s t
  checks-Marked c (raised x) o s = (inl (refl, refl), Later-refl s)
  checks-Marked c (ok z) (raised x) s = (inl (refl, refl), Later-refl s)
  checks-Marked c (ok z) (ok e) s =
      let (m, l) = process_at-Marked c e s in
      (elim m [ inl q ↦ inl q | inr h ↦ inr (e, refl, h) ], l)

  checks-seen :
      (c : ActionCommit) (u : Outcome (Unit {0})) (o : Outcome RuntimeEvent) (e : RuntimeEvent)
      (s : Actor W)
      → o ≡ ok e
      → among (fingerprint_of v c e.commit_offset) s.fingerprints ≡ true
      → Quiet s (continue u (λ z. lift o >>= process_at v c) s).1
  checks-seen c (raised x) o e s eq h = (refl, refl)
  checks-seen c (ok z) o e s eq h =
      subst (λ o. Quiet s (continue o (process_at v c) s).1) (sym eq) (process_at-seen c e s h)

  -- A commit's processing does nothing to the log and the services, or marks the commit.
  pub process-Marked :
      (c : ActionCommit) (s : Actor W)
      → let t = (process_action_commit v c s).1 in
        (Quiet s t
          ⊎ ((e : RuntimeEvent) × (last_event c ≡ ok e)
              × (among (fingerprint_of v c e.commit_offset) t.fingerprints ≡ true)))
        × Later s t
  unfolding process_action_commit
  process-Marked c s =
      checks-Marked c (assert_no_derived_diagnostic_authority_input c.events) (last_event c) s

  pub process-Later : (c : ActionCommit) → Respects Later (process_action_commit v c)
  process-Later c s = (process-Marked c s).1

  pub process-seen :
      (c : ActionCommit) (e : RuntimeEvent) (s : Actor W)
      → last_event c ≡ ok e
      → among (fingerprint_of v c e.commit_offset) s.fingerprints ≡ true
      → Quiet s (process_action_commit v c s).1
  unfolding process_action_commit
  process-seen c e s eq h =
      checks-seen c (assert_no_derived_diagnostic_authority_input c.events) (last_event c) e s eq h
