-- ===== src/Turn/Once/Prepare.antt =====
-- The first four phases leave the store and the executor alone.
use agent_kernel.Prelude.{arith}
use agent_kernel.Turn.State.{DedupePort, Services, Turn}
use agent_kernel.Turn.Prepare.{
  phase_noop_or_reasoning, phase_snapshot, phase_admission, phase_dispatch_policy,
}
use agent_kernel.Turn.Once.Ledger.{Apart}

module _ (p : Services) (d : DedupePort) where
  pub noop_or_reasoning-Apart : (t : Turn d.Store) → Apart d t (phase_noop_or_reasoning p d t).1
  unfolding phase_noop_or_reasoning
  noop_or_reasoning-Apart t = ground arith

  pub snapshot-Apart : (t : Turn d.Store) → Apart d t (phase_snapshot p d t).1
  unfolding phase_snapshot
  snapshot-Apart t = ground arith

  pub admission-Apart : (t : Turn d.Store) → Apart d t (phase_admission p d t).1
  unfolding phase_admission
  admission-Apart t = ground arith

  pub dispatch_policy-Apart : (t : Turn d.Store) → Apart d t (phase_dispatch_policy p d t).1
  unfolding phase_dispatch_policy
  dispatch_policy-Apart t = ground arith
