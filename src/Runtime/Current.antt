-- ===== src/Runtime/Current.antt =====
-- When a cached projection of agent_kernel/kernel/minimal_runtime.py stands for the events that its run
-- has in the log: reading on from it gives what reading all of them from the start gives.
use agent_kernel.Prelude.{
  ◌≡◌, refl, sym, ◌∙◌, ap, subst, arith, ℕ, suc, ◌+◌, String, ◌≤◌, List, [], ◌∷◌, ◌++◌, length, All,
  Bool-cases, inl, inr, ltb, leb, length-append,
}
use agent_kernel.Prelude.Errors.{ok}
use agent_kernel.Contracts.{RuntimeEvent, RunProjection}
use agent_kernel.Runtime.EventLog.{stamp, behind}
use agent_kernel.Runtime.Transition.{default_projection}
use agent_kernel.Runtime.Projection.{Config, step, replay, through}
use agent_kernel.Runtime.Replay.{
  Ascends, Ascends-weaken, stamp-Ascends, stamp-append, behind-append, behind-all, behind-Ascends,
  behind-behind, replay-append, replay-advances, replay-resumes, replay-first, offset-step,
}

pub stamp-next :
    (es fs : List RuntimeEvent) → stamp 1 (es ++ fs) ≡ stamp 1 es ++ stamp (suc (length es)) fs
stamp-next es fs = stamp-append 1 es fs ∙ ap (λ k. stamp 1 es ++ stamp k fs) (omega arith)

abbrev pub Within : ℕ → List RuntimeEvent → Type 0
Within n = All (λ e. e.commit_offset ≤ n)

stamp-Within : (n m : ℕ) (es : List RuntimeEvent) → n + length es ≤ m → Within m (stamp (suc n) es)
unfolding stamp
stamp-Within n m [] h = tt
stamp-Within n m (e ∷ es) h = (omega arith, stamp-Within (suc n) m es (omega arith))

behind-Within : (n m : ℕ) (es : List RuntimeEvent) → Within m es → Within m (behind n es)
unfolding behind
behind-Within n m [] h = tt
behind-Within n m (e ∷ es) (w, h) = elim (Bool-cases (ltb n e.commit_offset)) [
  | inl b ↦ rw b (w, behind-Within n m es h)
  | inr b ↦ rw b (behind-Within n m es h)
]

-- `through` takes a first part of the events.
pub through-rest :
    (n : ℕ) (es : List RuntimeEvent) → (rest : List RuntimeEvent) × (through n es ++ rest ≡ es)
unfolding through
through-rest n [] = ([], refl)
through-rest n (e ∷ es) = elim (Bool-cases (leb e.commit_offset n)) [
  | inl b ↦ let (rest, eq) = through-rest n es in (rest, rw b (ap (λ r. e ∷ r) eq))
  | inr b ↦ (e ∷ es, rw b refl)
]

-- The projection stands for the events under the offsets 1, 2, and so on.
abbrev pub Current : Config → String → List RuntimeEvent → RunProjection → Type 0
Current g run_id events p =
    (p.projected_offset ≤ length events)
    × (replay g p (behind p.projected_offset (stamp 1 events))
        ≡ replay g (default_projection run_id) (stamp 1 events))

module _ (g : Config)
    (kept_offset : (e f : RuntimeEvent)
      → g.migrate e ≡ ok f
      → f.commit_offset ≡ e.commit_offset) where
  replay-Within :
      (n : ℕ) (p q : RunProjection) (es fs : List RuntimeEvent)
      → Within n (es ++ fs)
      → p.projected_offset ≤ n
      → replay g p es ≡ ok q
      → q.projected_offset ≤ n
  unfolding replay
  replay-Within n p q [] fs w le h = ground (arith, h)
  replay-Within n p q (e ∷ es) fs (w, ws) le h =
      let (f, m, r) = replay-first g kept_offset p q e es h in
      replay-Within n (step g p f) q es fs ws (ground (arith, offset-step g kept_offset p e f m)) r

  module _ (run_id : String) where
    pub Current-replay :
        (events es fs : List RuntimeEvent) (p q : RunProjection)
        → es ++ fs ≡ behind p.projected_offset (stamp 1 events)
        → replay g p es ≡ ok q
        → Current g run_id events p
        → Current g run_id events q
    Current-replay events es fs p q split h (le, eq) =
        let m = p.projected_offset in
        let asc =
          subst (Ascends m) (sym split)
            (behind-Ascends m 0 (stamp 1 events) (stamp-Ascends 0 events)) in
        let within = subst (Within (length events)) (sym split) (
          behind-Within m (length events) (stamp 1 events)
            (stamp-Within 0 (length events) events (omega arith))) in
        (
          replay-Within (length events) p q es fs within le h,
          ap (replay g q) (
                sym (
                  behind-behind m q.projected_offset (stamp 1 events)
                    (replay-advances g kept_offset p q es fs asc h))
                ∙ ap (behind q.projected_offset) (sym split))
              ∙ replay-resumes g kept_offset p q es fs asc h
              ∙ ap (replay g p) split
              ∙ eq,
        )

    pub Current-append :
        (events more : List RuntimeEvent) (p : RunProjection)
        → Current g run_id events p
        → Current g run_id (events ++ more) p
    Current-append events more p (le, eq) =
        let m = p.projected_offset in
        let late =
          Ascends-weaken m (length events) (stamp (suc (length events)) more) le
            (stamp-Ascends (length events) more) in
        (
          omega (arith, length-append events more),
          rw
              (
                stamp-next events more,
                behind-append m (stamp 1 events) (stamp (suc (length events)) more),
                behind-all m (stamp (suc (length events)) more) late,
                replay-append g kept_offset p (behind m (stamp 1 events))
                    (stamp (suc (length events)) more),
                replay-append g kept_offset (default_projection run_id) (stamp 1 events)
                    (stamp (suc (length events)) more),
                eq,
              )
              refl,
        )
