-- ===== src/Recovery/Compensation/Attempts.antt =====
-- How often the execution of a compensation (agent_kernel/kernel/recovery/compensation_registry.py) calls a
-- handler, and how it leaves the key.
use agent_kernel.Prelude.{
  ◌≡◌, refl, sym, subst, arith, ℕ, zero, suc, ◌+◌, ◌≤◌, max, String, List, [], ◌∷◌, Bool, true,
  false, none, some, if◌then◌else◌, Option-cases, inl, inr, ◌==◌, length,
}
use agent_kernel.Prelude.Errors.{Outcome, ok}
use agent_kernel.Prelude.Dict.{lookup}
use agent_kernel.Contracts.{Action, effect_text}
use agent_kernel.Dedupe.{DedupeRecord, get}
use agent_kernel.Recovery.Compensation.{
  CompensationEntry, CompensationRegistry, Site, key_of, try_attempts, execute, reserve_key,
  compensate_with, mark_returned, slept, concluded,
}
use agent_kernel.Recovery.Compensation.Ledger.{
  held, reserve_key-taken, reserve_key-free, end_state, compensate-held,
}

-- The calls of handlers under a key.
abbrev pub calls_of : String → List Action → ℕ
calls_of k [] = 0
calls_of k (a ∷ r) = let rest = calls_of k r in if key_of a == k then suc rest else rest

module _ (guarded : Bool) (randint : List ℕ → ℕ) (e : CompensationEntry) (a : Action) where
  mark_returned-calls : (s : Site) → (mark_returned guarded randint a s).1.calls ≡ s.calls
  mark_returned-calls s = ground arith

  try-length :
      (left n : ℕ) (s : Site)
      → length (try_attempts guarded randint e a left n s).1.calls ≤ length s.calls + left
  unfolding try_attempts
  try-length zero n s = omega arith
  try-length (suc left) n s =
      let called = record s { calls = a ∷ s.calls } in
      ground (
        arith,
        mark_returned-calls called,
        try-length left (suc n) (slept guarded randint e (suc n) called),
      )

  try-calls :
      (k : String) (left n : ℕ) (s : Site)
      → calls_of k (try_attempts guarded randint e a left n s).1.calls
        ≤ calls_of k s.calls + (if key_of a == k then left else 0)
  unfolding try_attempts
  try-calls k zero n s = ground arith
  try-calls k (suc left) n s =
      let called = record s { calls = a ∷ s.calls } in
      ground (
        arith,
        mark_returned-calls called,
        try-calls k left (suc n) (slept guarded randint e (suc n) called),
      )

  try-calls_other :
      (k : String) (left n : ℕ) (s : Site)
      → (key_of a == k) ≡ false
      → calls_of k (try_attempts guarded randint e a left n s).1.calls ≡ calls_of k s.calls
  unfolding try_attempts
  try-calls_other k zero n s ne = refl
  try-calls_other k (suc left) n s ne =
      let called = record s { calls = a ∷ s.calls } in
      ground (
        arith,
        ne,
        mark_returned-calls called,
        try-calls_other k left (suc n) (slept guarded randint e (suc n) called) ne,
      )

  concluded-calls :
      (f : Bool) (r : Bool × Site) → (concluded guarded randint a f r).1.calls ≡ r.1.calls
  concluded-calls f (true, s) = refl
  concluded-calls f (false, s) = ground arith

  compensate-length :
      (f : Bool) (s : Site)
      → length (compensate_with guarded randint e a f s).1.calls
        ≤ length s.calls + max e.max_attempts 1
  compensate-length f s = ground (
    arith,
    concluded-calls f (try_attempts guarded randint e a (max e.max_attempts 1) 0 s),
    try-length (max e.max_attempts 1) 0 s,
  )

  pub compensate-calls :
      (k : String) (f : Bool) (s : Site)
      → calls_of k (compensate_with guarded randint e a f s).1.calls
        ≤ calls_of k s.calls + (if key_of a == k then max e.max_attempts 1 else 0)
  compensate-calls k f s = ground (
    arith,
    concluded-calls f (try_attempts guarded randint e a (max e.max_attempts 1) 0 s),
    try-calls k (max e.max_attempts 1) 0 s,
  )

  -- A compensation calls no handler under another key.
  pub compensate-calls_other :
      (k : String) (f : Bool) (s : Site)
      → (key_of a == k) ≡ false
      → calls_of k (compensate_with guarded randint e a f s).1.calls ≡ calls_of k s.calls
  compensate-calls_other k f s ne = ground (
    arith,
    concluded-calls f (try_attempts guarded randint e a (max e.max_attempts 1) 0 s),
    try-calls_other k (max e.max_attempts 1) 0 s ne,
  )

module _ (randint : List ℕ → ℕ) (entries : CompensationRegistry) (a : Action) (f : Bool)
    (s : Site) where
  abbrev pub done : Outcome Bool × Site
  done = execute true randint entries a f s

  pub execute-absent : lookup (effect_text a.effect_class) entries ≡ none → done ≡ (ok false, s)
  unfolding execute
  execute-absent h = ground (arith, h)

  pub execute-taken :
      (e : CompensationEntry) (r : DedupeRecord)
      → lookup (effect_text a.effect_class) entries ≡ some e
      → get (key_of a) s.ledger ≡ some r
      → done ≡ (ok true, s)
  unfolding execute
  execute-taken e r h t = ground (arith, h, reserve_key-taken a s r t)

  pub execute-free :
      (e : CompensationEntry)
      → lookup (effect_text a.effect_class) entries ≡ some e
      → get (key_of a) s.ledger ≡ none
      → done ≡ compensate_with true randint e a f (reserve_key a s).1
  unfolding execute
  execute-free e h t = let (o, same, rest) = reserve_key-free a s t in ground (arith, h, o)

  -- The execution of a registered handler ends, after at most `max(max_attempts, 1)` calls of it, with or
  -- without a dedupe store.
  pub execute-length :
      (guarded : Bool) (e : CompensationEntry)
      → lookup (effect_text a.effect_class) entries ≡ some e
      → length (execute guarded randint entries a f s).1.calls
        ≤ length s.calls + max e.max_attempts 1
  unfolding execute
  execute-length true e h = elim (Option-cases (get (key_of a) s.ledger)) [
    | inr (r, t) ↦ ground (arith, execute-taken e r h t)
    | inl t ↦
        let (o, same, rest) = reserve_key-free a s t in
        ground (
          arith,
          execute-free e h t,
          compensate-length true randint e a f (reserve_key a s).1,
          same,
        )
  ]
  execute-length false e h = ground (arith, h, compensate-length false randint e a f s)

  -- Under a dedupe store, an execution of a registered handler whose key is free leaves the key acknowledged
  -- if it returns `True`, and unknown_effect if it returns `False` or raises.
  pub execute-held :
      (e : CompensationEntry)
      → lookup (effect_text a.effect_class) entries ≡ some e
      → get (key_of a) s.ledger ≡ none
      → held (key_of a) (execute true randint entries a f s).1.ledger
        ≡ some (end_state (execute true randint entries a f s).0)
  execute-held e h t =
      let (o, same, rest) = reserve_key-free a s t in
      subst (λ (r : Outcome Bool × Site). held (key_of a) r.1.ledger ≡ some (end_state r.0))
        (sym (execute-free e h t)) (compensate-held randint e a f (reserve_key a s).1 rest)
