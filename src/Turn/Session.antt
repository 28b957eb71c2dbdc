-- ===== src/Turn/Session.antt =====
-- How the phases of a turn follow one another, and turns of one engine, one after another, over one dedupe store and one executor
-- (run_turn of agent_kernel/kernel/turn_engine.py).
use agent_kernel.Prelude.{◌≡◌, ◌⊎◌, none, arith, false, Option, List, [], ◌∷◌}
use agent_kernel.Contracts.{Action}
use agent_kernel.Turn.State.{Call, DedupePort, Services, Turn, TurnInput}
use agent_kernel.Turn.Engine.{Phase, execute, phase_fn, run_phases, run_turn}
use agent_kernel.Turn.Dispatch.{phase_execute}
use agent_kernel.Prelude.Errors.{is_raised}

module _ (p : Services) (d : DedupePort) where
  -- What a turn returns or raises does not stop the next.
  unfoldable pub run_turns :
      List (TurnInput × Option Action) → d.Store × List Call → d.Store × List Call
  run_turns [] w = w
  run_turns ((i, a) ∷ rest) w = run_turns rest (run_turn p d i a w).1

  -- One phase of the loop: it ends the turn, or the rest goes on from what it left.
  pub run_cases :
      (f : Phase) (fs : List Phase) (t : Turn d.Store)
      → let (r, t') = phase_fn p d f t in
        ((run_phases p d (f ∷ fs) t).1 ≡ t')
        ⊎ ((is_raised r ≡ false)
            × (t'.ctx.result ≡ none)
            × ((run_phases p d (f ∷ fs) t).1 ≡ (run_phases p d fs t').1))
  unfolding run_phases
  run_cases f fs t = ground arith

  pub last-world :
      (t : Turn d.Store) → (run_phases p d (execute ∷ []) t).1 ≡ (phase_execute p d t).1
  unfolding run_phases
  last-world t = ground arith
