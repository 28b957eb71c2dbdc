-- ===== src/Recovery/Compensation/Once.antt =====
-- Compensation at most once (agent_kernel/kernel/recovery/compensation_registry.py): any history of
-- executions under one dedupe store.
use agent_kernel.Prelude.{
  ◌≡◌, refl, sym, subst, arith, ℕ, ◌+◌, ◌≤◌, max, String, List, [], ◌∷◌, Bool, true, false, none,
  some, is_some, Option-cases, Bool-cases, inl, inr, ◌⊎◌, ◌==◌, eq_iff, eq_refl,
}
use agent_kernel.Prelude.Errors.{Outcome}
use agent_kernel.Prelude.Dict.{lookup}
use agent_kernel.Contracts.{Action, effect_text}
use agent_kernel.Dedupe.{get, empty_store}
use agent_kernel.Recovery.Compensation.{
  CompensationEntry, CompensationRegistry, Site, key_of, execute, reserve_key,
}
use agent_kernel.Recovery.Compensation.Ledger.{
  reserve_key-free, reserve_key-other, compensate-other,
}
use agent_kernel.Recovery.Compensation.Attempts.{
  calls_of, execute-absent, execute-taken, execute-free, compensate-calls, compensate-calls_other,
  execute-held,
}

abbrev pub empty_site : Site
empty_site = record { ledger = empty_store; calls = []; delays = [] }

-- The key is taken, and so many calls were made under it.
abbrev Settled : String → ℕ → Site → Type 0
Settled k n s = (is_some (get k s.ledger) ≡ true) × (calls_of k s.calls ≡ n)

-- The key is taken, or no call was made under it.
abbrev Fresh : String → Site → Type 0
Fresh k s = (is_some (get k s.ledger) ≡ true) ⊎ (calls_of k s.calls ≡ 0)

-- The two sites agree about a key.
abbrev Same : String → Site → Site → Type 0
Same k s t = (get k t.ledger ≡ get k s.ledger) × (calls_of k t.calls ≡ calls_of k s.calls)

-- What an execution may do to the calls under a key, `n` of them before and `m` after: none are added, or they are
-- the first, and no more than the limit.
abbrev pub AddsOnce : ℕ → ℕ → ℕ → Type 0
AddsOnce limit n m = (m ≡ n) ⊎ (n ≡ 0) × (m ≤ limit)

module _ (randint : List ℕ → ℕ) (entries : CompensationRegistry) where
  abbrev pub executed : Action → Bool → Site → Site
  executed a f s = (execute true randint entries a f s).1

  -- Executions one after another, each with its flag `raise_on_failure`.
  abbrev pub run : List (Action × Bool) → Site → Site
  run [] s = s
  run ((a, f) ∷ r) s = run r (executed a f s)

  module _ (a : Action) (f : Bool) (s : Site) (e : CompensationEntry)
      (h : lookup (effect_text a.effect_class) entries ≡ some e) where
    free-Same :
        (k : String)
        → get (key_of a) s.ledger ≡ none
        → (key_of a == k) ≡ false
        → Same k s (executed a f s)
    free-Same k t ne =
        let (o, same, rest) = reserve_key-free a s t in
        ground (
          arith,
          execute-free randint entries a f s e h t,
          reserve_key-other a s k ne,
          compensate-other randint e a f (reserve_key a s).1 k ne,
          compensate-calls_other true randint e a k f (reserve_key a s).1 ne,
          same,
        )

    free-own :
        get (key_of a) s.ledger ≡ none
        → (is_some (get (key_of a) (executed a f s).ledger) ≡ true)
          × (calls_of (key_of a) (executed a f s).calls
              ≤ calls_of (key_of a) s.calls + max e.max_attempts 1)
    free-own t =
        let (o, same, rest) = reserve_key-free a s t in
        let there = execute-held randint entries a f s e h t in
        (
          ground (arith, there),
          ground (
            arith,
            eq_refl (key_of a),
            execute-free randint entries a f s e h t,
            compensate-calls true randint e a (key_of a) f (reserve_key a s).1,
            same,
          ),
        )

    taken-Same : (k : String) → is_some (get (key_of a) s.ledger) ≡ true → Same k s (executed a f s)
    taken-Same k t = elim (Option-cases (get (key_of a) s.ledger)) [
      | inl u ↦ ground (arith, t, u)
      | inr (r, u) ↦
          subst (λ (o : Outcome Bool × Site). Same k s o.1)
            (sym (execute-taken randint entries a f s e r h u)) (refl, refl)
    ]

  -- An execution leaves a key as it is, or it has found the key free, and takes it.
  execute-cases :
      (a : Action) (f : Bool) (s : Site) (k : String)
      → Same k s (executed a f s)
        ⊎ (get k s.ledger ≡ none) × (is_some (get k (executed a f s).ledger) ≡ true)
  execute-cases a f s k = elim (Option-cases (lookup (effect_text a.effect_class) entries)) [
    | inl h ↦ inl (
        subst (λ (o : Outcome Bool × Site). Same k s o.1)
          (sym (execute-absent randint entries a f s h)) (refl, refl))
    | inr (e, h) ↦ elim (Option-cases (get (key_of a) s.ledger)) [
      | inr (r, t) ↦ inl (taken-Same a f s e h k (ground (arith, t)))
      | inl t ↦ elim (Bool-cases (key_of a == k)) [
        | inr b ↦ inl (free-Same a f s e h k t b)
        | inl b ↦
            let same = (eq_iff (key_of a) k).0 b in
            inr (
              subst
                (λ j. (get j s.ledger ≡ none) × (is_some (get j (executed a f s).ledger) ≡ true))
                same (t, (free-own a f s e h t).0))
      ]
    ]
  ]

  run-Settled :
      (ops : List (Action × Bool)) (k : String) (n : ℕ) (s : Site)
      → Settled k n s
      → Settled k n (run ops s)
  run-Settled [] k n s h = h
  run-Settled ((a, f) ∷ r) k n s h =
      run-Settled r k n (executed a f s) (ground (arith, h, execute-cases a f s k))

  run-Fresh : (ops : List (Action × Bool)) (k : String) (s : Site) → Fresh k s → Fresh k (run ops s)
  run-Fresh [] k s h = h
  run-Fresh ((a, f) ∷ r) k s h =
      run-Fresh r k (executed a f s) (ground (arith, h, execute-cases a f s k))

  -- An execution of a registered handler: the key is taken after it, and its calls are the first ones.
  execute-AddsOnce :
      (a : Action) (f : Bool) (s : Site) (e : CompensationEntry)
      → lookup (effect_text a.effect_class) entries ≡ some e
      → Fresh (key_of a) s
      → (is_some (get (key_of a) (executed a f s).ledger) ≡ true)
        × AddsOnce
            (max e.max_attempts 1)
            (calls_of (key_of a) s.calls)
            (calls_of (key_of a) (executed a f s).calls)
  execute-AddsOnce a f s e h fresh = elim (Option-cases (get (key_of a) s.ledger)) [
    | inr (r, t) ↦
        let (there, same) = taken-Same a f s e h (key_of a) (ground (arith, t)) in
        (ground (arith, there, t), inl same)
    | inl t ↦ let (there, few) = free-own a f s e h t in (there, ground (arith, t, fresh, few))
  ]

  -- Under one dedupe store that starts empty, whatever the handlers answer, take any execution of any history
  -- whose handler is registered. It calls no handler under its compensation key, or no handler was
  -- called under that key before and it makes at most `max(max_attempts, 1)` calls, with its own handler's
  -- `max_attempts`; and no later execution calls a handler under that key again.
  pub run-calls :
      (before later : List (Action × Bool)) (a : Action) (f : Bool) (e : CompensationEntry)
      → lookup (effect_text a.effect_class) entries ≡ some e
      → let s = run before empty_site in
        let t = executed a f s in
        AddsOnce (max e.max_attempts 1) (calls_of (key_of a) s.calls) (calls_of (key_of a) t.calls)
        × (calls_of (key_of a) (run later t).calls ≡ calls_of (key_of a) t.calls)
  run-calls before later a f e h =
      let s = run before empty_site in
      let t = executed a f s in
      let (there, once) =
        execute-AddsOnce a f s e h (run-Fresh before (key_of a) empty_site (inr refl)) in
      (once, (run-Settled later (key_of a) (calls_of (key_of a) t.calls) t (there, refl)).1)
