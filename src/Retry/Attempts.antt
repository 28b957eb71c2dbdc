-- ===== src/Retry/Attempts.antt =====
-- How often the retrying executor (agent_kernel/kernel/retry_executor.py) calls the inner one, what it
-- returns, and how long it waits.
use agent_kernel.Prelude.{
  ◌≡◌, refl, subst, arith, ℕ, zero, suc, ◌+◌, ◌-◌, ◌≤◌, ◌<◌, List, [], ◌∷◌, Bool, true, false,
  Option, none, some, length, ◌⊎◌, inl, inr,
}
use agent_kernel.Prelude.Errors.{Exn}
use agent_kernel.Contracts.{Action}
use agent_kernel.Retry.{
  TransientExecutionError, Reply, returned, transient, failed, Retries, RetryingExecutorService,
  called, after_error, try_retries, execute_with_retries,
}

-- The reply that settles a row of replies: the first that is not a transient error, or the last.
abbrev pub settling : {R : Type 0} → Reply R → List (Reply R) → Reply R
settling a [] = a
settling (transient x) (b ∷ r) = settling b r
settling (returned v) (b ∷ r) = returned v
settling (failed x) (b ∷ r) = failed x

abbrev pub is_transient : {R : Type 0} → Reply R → Bool
is_transient (transient x) = true
is_transient _ = false

Reply-cases :
    {R : Type 0} (o : Reply R)
    → (((v : R) × (o ≡ returned v)) ⊎ ((v : Exn) × (o ≡ failed v)))
      ⊎ ((x : TransientExecutionError) × (o ≡ transient x))
Reply-cases (returned v) = inl (inl (v, refl))
Reply-cases (failed v) = inl (inr (v, refl))
Reply-cases (transient x) = inr (x, refl)

module _ {W R : Type 0} (randint : ℕ → List ℕ → ℕ) (inner : Action → W → Reply R × W)
    (e : RetryingExecutorService) (a : Action) where
  -- The first `n` replies of the inner executor, each call in the world that the one before left.
  abbrev pub replies : ℕ → W → List (Reply R)
  replies zero w = []
  replies (suc n) w = let (reply, w') = inner a w in reply ∷ replies n w'

  abbrev pub LongDelay : ℕ → Type 0
  LongDelay d = e.base_delay_ms ≤ d

  -- After a call and at most `left` calls in all: one delay between two calls, and a transient error only
  -- where no attempt was left.
  abbrev pub IsRetried : ℕ → Retries W → Reply R × Retries W → Type 0
  IsRetried left s (reply, s') =
      (s.calls < s'.calls)
      × (s'.calls ≤ s.calls + left)
      × (length s'.delays + suc s.calls ≡ length s.delays + s'.calls)
      × ((is_transient reply ≡ false) ⊎ (s'.calls ≡ s.calls + left))

  some_attempts : 1 ≤ e.max_attempts → suc (e.max_attempts - 1) ≡ e.max_attempts
  some_attempts h = omega (arith, h)

  try-settling :
      (left n : ℕ) (last_exc : Option TransientExecutionError) (s : Retries W)
      → (try_retries randint inner e a (suc left) n last_exc s).0
        ≡ settling (inner a s.world).0 (replies left (inner a s.world).1)
  unfolding try_retries
  try-settling zero n last_exc s = elim (Reply-cases (inner a s.world).0) [
    | inl h ↦ ground (arith, h)
    | inr (x, h) ↦ ground (arith, h)
  ]
  try-settling (suc left) n last_exc s = elim (Reply-cases (inner a s.world).0) [
    | inl (inl (v, h)) ↦ ground (arith, h)
    | inl (inr (v, h)) ↦ ground (arith, h)
    | inr (x, h) ↦
        let s' =
          after_error randint inner e a x n (called randint inner e a (inner a s.world).1 s) in
        ground (arith, h, try-settling left (suc n) (some x) s')
  ]

  -- With `max_attempts` at least 1: the retrying executor's reply is the first of the inner executor's next
  -- `max_attempts` replies that is not a transient error, or the last of them if all are.
  pub execute-settling :
      (s : Retries W)
      → 1 ≤ e.max_attempts
      → (execute_with_retries randint inner e a s).0
        ≡ settling (inner a s.world).0 (replies (e.max_attempts - 1) (inner a s.world).1)
  unfolding execute_with_retries
  execute-settling s h =
      subst
        (λ k.
          (try_retries randint inner e a k 0 none s).0
          ≡ settling (inner a s.world).0 (replies (e.max_attempts - 1) (inner a s.world).1))
        (some_attempts h) (try-settling (e.max_attempts - 1) 0 none s)
