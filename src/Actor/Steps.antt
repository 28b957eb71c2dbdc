-- ===== src/Actor/Steps.antt =====
-- Relations between the actor's state before and after a call (run_actor_workflow.py), and which calls respect them.
use agent_kernel.Prelude.{◌≡◌, refl, ◌∙◌, String, Option, none, some, true}
use agent_kernel.Prelude.Errors.{Outcome, Exec, Exn, ok, raised, continue, ◌>>=◌}
use agent_kernel.Contracts.{among}
use agent_kernel.Contracts.{Action, RecoveryInput}
use agent_kernel.Runtime.EventLog.{EventLog}
use agent_kernel.Runtime.Stores.{RecoveryOutcome}
use agent_kernel.Turn.State.{TurnInput}
use agent_kernel.Actor.State.{Actor, ActorServices, TurnIntentRecord, when_given}
use agent_kernel.Actor.Turns.{catching}

module _ {W : Type 0} where
  abbrev pub Respects : {A : Type 0} → (Actor W → Actor W → Type 0) → Exec (Actor W) A → Type 0
  Respects R m = (s : Actor W) → R s (m s).1

  -- The log and the services are as they were.
  abbrev pub Quiet : Actor W → Actor W → Type 0
  Quiet s s' = (s'.log ≡ s.log) × (s'.world ≡ s.world)

  pub Quiet-trans : (s t u : Actor W) → Quiet s t → Quiet t u → Quiet s u
  Quiet-trans s t u (a, b) (c, d) = (c ∙ a, d ∙ b)

  -- Nothing is forgotten of what was seen.
  unfoldable pub Later : Actor W → Actor W → Type 0
  Later s s' =
      (s'.run_id ≡ s.run_id)
      × ((f : String) → among f s.fingerprints ≡ true → among f s'.fingerprints ≡ true)
      × ((k : String) → among k s.seen_signal_tokens ≡ true → among k s'.seen_signal_tokens ≡ true)

  pub Later-refl : (s : Actor W) → Later s s
  unfolding Later
  Later-refl s = (refl, (λ f h. h), λ k h. h)

  pub Later-trans : (s t u : Actor W) → Later s t → Later t u → Later s u
  unfolding Later
  Later-trans s t u (a, f, k) (b, g, l) = (b ∙ a, (λ x h. g x (f x h)), λ x h. l x (k x h))

  pub Later-marks :
      (s t : Actor W) (f : String)
      → Later s t
      → among f s.fingerprints ≡ true
      → among f t.fingerprints ≡ true
  unfolding Later
  Later-marks s t f (a, g, k) h = g f h

  pub Later-tokens :
      (s t : Actor W) (k : String)
      → Later s t
      → among k s.seen_signal_tokens ≡ true
      → among k t.seen_signal_tokens ≡ true
  unfolding Later
  Later-tokens s t k (a, g, l) h = l k h

  pub Later-run : (s t : Actor W) → Later s t → t.run_id ≡ s.run_id
  unfolding Later
  Later-run s t (a, g, l) = a

  module _ (R : Actor W → Actor W → Type 0) (R-trans : (s t u : Actor W) → R s t → R t u → R s u)
      {A B : Type 0} where
    pub bind-Respects :
        (m : Exec (Actor W) A) (f : A → Exec (Actor W) B)
        → Respects R m
        → ((a : A) → Respects R (f a))
        → Respects R (m >>= f)
    bind-Respects m f h k s = continued (m s).0 (m s).1 (h s)
      where
        continued : (o : Outcome A) (t : Actor W) → R s t → R s (continue o f t).1
        continued (ok a) t r = R-trans s t (f a t).1 r (k a t)
        continued (raised x) t r = r

  module _ (R : Actor W → Actor W → Type 0) (R-trans : (s t u : Actor W) → R s t → R t u → R s u)
      {A : Type 0} where
    pub catching-Respects :
        (m : Exec (Actor W) A) (handler : Exn → Exec (Actor W) A)
        → Respects R m
        → ((x : Exn) → Respects R (handler x))
        → Respects R (catching m handler)
    catching-Respects m handler h k s = caught (m s).0 (m s).1 (h s)
      where
        caught :
            (o : Outcome A) (t : Actor W)
            → R s t
            → R s
                (elim o as (λ _. Outcome A × Actor W) [
                  | ok a ↦ (ok a, t)
                  | raised x ↦ handler x t
                ]).1
        caught (ok a) t r = r
        caught (raised x) t r = R-trans s t (handler x t).1 r (k x t)

  pub when_given-Respects {ℓ} :
      (R : Actor W → Actor W → Type 0) (R-refl : (s : Actor W) → R s s) {B : Type ℓ} (o : Option B)
      (f : B → Exec (Actor W) (Unit {0}))
      → ((b : B) → o ≡ some b → Respects R (f b))
      → Respects R (when_given o f)
  when_given-Respects R R-refl none f h s = R-refl s
  when_given-Respects R R-refl (some b) f h s = h b refl s

-- A relation that every single step of a decision round respects.
pub record Allows {W : Type 0} (v : ActorServices W) (R : Actor W → Actor W → Type 0) : Type 0 where
  pub stays : (s : Actor W) → R s s
  pub follows : (s t u : Actor W) → R s t → R t u → R s u
  pub logs : (l : EventLog) (s : Actor W) → R s (record s { log = l })
  pub turns :
      (i : TurnInput) (a : Action) (s : Actor W)
      → R s (record s { world = (v.run_turn i a s.world).1 })
  pub decides :
      (i : RecoveryInput) (s : Actor W)
      → let reached = (v.decide i (s.log, s.world)).1 in
        R s (record s { log = reached.0; world = reached.1 })
  pub succeeds :
      (effect : String) (s : Actor W)
      → R s (record s { world = v.on_action_success effect s.world })
  pub gives_up :
      (key : String) (s : Actor W) → R s (record s { world = v.mark_unknown_effect key s.world })
  pub intents :
      (write : TurnIntentRecord → Exec W (Unit {0}))
      → v.write_intent ≡ some write
      → (i : TurnIntentRecord) (s : Actor W) → R s (record s { world = (write i s.world).1 })
  pub outcomes :
      (write : RecoveryOutcome → Exec W (Unit {0}))
      → v.write_outcome ≡ some write
      → (o : RecoveryOutcome) (s : Actor W) → R s (record s { world = (write o s.world).1 })

pub Later-Allows : {W : Type 0} (v : ActorServices W) → Allows v Later
unfolding Later
Later-Allows v = record {
  stays = Later-refl;
  follows = Later-trans;
  logs = λ l s. Later-refl s;
  turns = λ i a s. Later-refl s;
  decides = λ i s. Later-refl s;
  succeeds = λ x s. Later-refl s;
  gives_up = λ k s. Later-refl s;
  intents = λ w e i s. Later-refl s;
  outcomes = λ w e o s. Later-refl s;
}
