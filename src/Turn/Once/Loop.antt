-- ===== src/Turn/Once/Loop.antt =====
-- The loop of run_turn, and turn after turn: no key is executed twice.
use agent_kernel.Prelude.{
  ℕ, suc, ◌≤◌, ◌≡◌, ap, sym, Option, false, String, List, [], ◌∷◌, ◌==◌, if◌then◌else◌, arith,
  eq_iff, inl, inr,
}
use agent_kernel.Contracts.{Action}
use agent_kernel.Turn.State.{DedupePort, Services, Turn, Call, TurnInput}
use agent_kernel.Turn.Dispatch.{phase_dedupe, phase_execute}
use agent_kernel.Turn.Engine.{
  Phase, noop_or_reasoning, snapshot, admission, dispatch_policy, dedupe, execute, turn_phases,
  phase_fn, run_phases, initial_context, run_turn,
}
use mathlib.Core.Path.{subst₂}
use agent_kernel.Turn.Session.{run_turns, run_cases, last-world}
use agent_kernel.Turn.Once.Ledger.{IsLedger, Apart, Quiet}
use agent_kernel.Turn.Once.Prepare.{
  noop_or_reasoning-Apart, snapshot-Apart, admission-Apart, dispatch_policy-Apart,
}
use agent_kernel.Turn.Once.Claim.{Holds, dedupe-Settled}
use agent_kernel.Turn.Once.Execute.{Calls, execute-Calls}

-- How many calls of the executor were made under a key.
unfoldable pub count_calls : String → List Call → ℕ
count_calls k [] = 0
count_calls k (c ∷ cs) =
    let rest = count_calls k cs in
    if c.envelope.dispatch_idempotency_key == k then suc rest else rest

module _ (p : Services) (d : DedupePort) (l : IsLedger d) where
  open l use {has, answers, fresh, reserve_keeps, acknowledge_keeps, unknown_keeps}

  -- A key is called at most once, and not at all while the store has no record of it.
  abbrev pub Once : d.Store → List Call → Type 0
  Once s calls = (k : String) → count_calls k calls ≤ (if has s k then 1 else 0)

  Once-Quiet :
      (t t' : Turn d.Store) → Quiet d l t t' → Once t.store t.calls → Once t'.store t'.calls
  Once-Quiet t t' q h k = ground (arith, h k, q.1 k, ap (count_calls k) q.0)

  -- From a store without the key, over a turn that then holds it, to the call under it.
  Once-call :
      (t₀ t t' : Turn d.Store) (k : String)
      → Once t₀.store t₀.calls
      → has t₀.store k ≡ false
      → Quiet d l t₀ t
      → Holds p d l t k
      → Calls p d l t.ctx.envelope t t'
      → Once t'.store t'.calls
  unfolding count_calls
  Once-call t₀ t t' k h free quiet holds (inl q) j = Once-Quiet t t' q (Once-Quiet t₀ t quiet h) j
  Once-call t₀ t t' k h free quiet (e, carried, same, has_it) (inr (c, under, called, keeps)) j =
      let one : e.dispatch_idempotency_key ≡ c.envelope.dispatch_idempotency_key = cc in
      ground (
        arith,
        h j,
        h k,
        quiet.1 j,
        keeps j,
        keeps k,
        ap (count_calls j) quiet.0,
        ap (count_calls j) called,
        eq_iff c.envelope.dispatch_idempotency_key j,
      )

  abbrev IsOnce : Turn d.Store → Type 0
  IsOnce t = Once t.store t.calls

  Apart-IsOnce : (t t' : Turn d.Store) → Apart d t t' → IsOnce t → IsOnce t'
  Apart-IsOnce t t' same h = subst₂ Once (sym same.0) (sym same.1) h

  -- A phase that leaves store and calls alone.
  run-Apart :
      (f : Phase) (fs : List Phase)
      → ((t : Turn d.Store) → Apart d t (phase_fn p d f t).1)
      → ((t : Turn d.Store) → IsOnce t → IsOnce (run_phases p d fs t).1)
      → (t : Turn d.Store) → IsOnce t
      → IsOnce (run_phases p d (f ∷ fs) t).1
  run-Apart f fs apart rest t h =
      let h' = Apart-IsOnce t (phase_fn p d f t).1 (apart t) h in
      elim (run_cases p d f fs t) [
        | inl e ↦ rw e h'
        | inr (_, _, e) ↦ rw e (rest (phase_fn p d f t).1 h')
      ]

  run_dispatch : (t : Turn d.Store) → IsOnce t → IsOnce (run_phases p d (dedupe ∷ execute ∷ []) t).1
  run_dispatch t h =
      let (quiet, cases) = dedupe-Settled p d l t in
      let t' = (phase_dedupe p d t).1 in
      elim (run_cases p d dedupe (execute ∷ []) t) [
        | inl e ↦ rw e (Once-Quiet t t' quiet h)
        | inr (no_raise, no_result, e) ↦ elim cases [
          | inl r ↦ absurd (ground arith)
          | inr (inl r) ↦ absurd (ground arith)
          | inr (inr (k, holds, was_free)) ↦
              rw (e, last-world p d t')
                (Once-call t t' (phase_execute p d t').1 k h was_free quiet holds
                  (execute-Calls p d l t'))
        ]
      ]

  run-Once : (t : Turn d.Store) → IsOnce t → IsOnce (run_phases p d turn_phases t).1
  run-Once = run-Apart noop_or_reasoning _ (noop_or_reasoning-Apart p d) (
      run-Apart snapshot _ (snapshot-Apart p d) (
        run-Apart admission _ (admission-Apart p d)
          (run-Apart dispatch_policy _ (dispatch_policy-Apart p d) run_dispatch)))

  pub turn-Once :
      (i : TurnInput) (a : Option Action) (w : d.Store × List Call)
      → Once w.0 w.1
      → let w' = (run_turn p d i a w).1 in Once w'.0 w'.1
  unfolding run_turn
  turn-Once i a (s, calls) h =
      run-Once (record { ctx = initial_context p d i a; store = s; calls = calls }) h

  -- From a world in which every dispatch key was executed at most once, and only if the store has a
  -- record of it, over any sequence of turns, with any snapshot builder, admission service, reasoning
  -- loop and executor, and a dedupe store that is a ledger: still no dispatch key has been executed
  -- twice, and none that the store has no record of.
  pub run_turns-Once :
      (turns : List (TurnInput × Option Action)) (w : d.Store × List Call)
      → Once w.0 w.1
      → let w' = run_turns p d turns w in Once w'.0 w'.1
  unfolding run_turns
  run_turns-Once [] w h = h
  run_turns-Once ((i, a) ∷ rest) w h =
      run_turns-Once rest (run_turn p d i a w).1 (turn-Once i a w h)
