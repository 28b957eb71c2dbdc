-- ===== src/Runtime/Replay.antt =====
-- A replay that stops and resumes: the loops over unseen events of `catch_up` and `get` in
-- agent_kernel/kernel/minimal_runtime.py, on events with ascending offsets.
use agent_kernel.Prelude.{
  ◌≡◌, refl, subst, ap, arith, false, Bool-cases, inl, inr, ℕ, suc, ◌+◌, ◌≤◌, ◌<◌, List, [], ◌∷◌,
  ◌++◌, length, ltb, if◌then◌else◌,
}
use agent_kernel.Prelude.Errors.{Outcome-cases, ok, raised}
use agent_kernel.Contracts.{RuntimeEvent, RunProjection}
use agent_kernel.Runtime.EventLog.{stamp, behind}
use agent_kernel.Runtime.Transition.{apply_projection_event}
use agent_kernel.Runtime.Projection.{Config, step, replay, validate_projection_authority_input}

-- Offsets that ascend from above n.
abbrev pub Ascends : ℕ → List RuntimeEvent → Type 0
Ascends n [] = Unit
Ascends n (e ∷ es) = (n < e.commit_offset) × Ascends e.commit_offset es

pub Ascends-weaken : (m n : ℕ) (es : List RuntimeEvent) → m ≤ n → Ascends n es → Ascends m es
Ascends-weaken m n [] h a = tt
Ascends-weaken m n (e ∷ es) h (lt, a) = (omega arith, a)

pub stamp-Ascends : (n : ℕ) (es : List RuntimeEvent) → Ascends n (stamp (suc n) es)
unfolding stamp
stamp-Ascends n [] = tt
stamp-Ascends n (e ∷ es) = (omega arith, stamp-Ascends (suc n) es)

pub stamp-append :
    (n : ℕ) (es fs : List RuntimeEvent)
    → stamp n (es ++ fs) ≡ stamp n es ++ stamp (n + length es) fs
unfolding stamp
stamp-append n [] fs = ap (λ k. stamp k fs) (omega arith)
stamp-append n (e ∷ es) fs = ground (arith, stamp-append (suc n) es fs)

pub behind-append :
    (n : ℕ) (es fs : List RuntimeEvent) → behind n (es ++ fs) ≡ behind n es ++ behind n fs
unfolding behind
behind-append n [] fs = refl
behind-append n (e ∷ es) fs = ground (arith, behind-append n es fs)

pub behind-all : (n : ℕ) (es : List RuntimeEvent) → Ascends n es → behind n es ≡ es
unfolding behind
behind-all n [] a = refl
behind-all n (e ∷ es) (lt, a) =
    ground (arith, behind-all n es (Ascends-weaken n e.commit_offset es (omega arith) a))

pub behind-Ascends : (n m : ℕ) (es : List RuntimeEvent) → Ascends m es → Ascends n (behind n es)
unfolding behind
behind-Ascends n m [] a = tt
behind-Ascends n m (e ∷ es) (lt, a) = elim (Bool-cases (ltb n e.commit_offset)) [
  | inl b ↦
      let more = Ascends-weaken n e.commit_offset es (ground arith) a in
      rw (b, behind-all n es more) (ground arith, a)
  | inr b ↦ rw b (behind-Ascends n e.commit_offset es a)
]

pub behind-behind :
    (m n : ℕ) (es : List RuntimeEvent) → m ≤ n → behind n (behind m es) ≡ behind n es
unfolding behind
behind-behind m n [] h = refl
behind-behind m n (e ∷ es) h = ground (arith, behind-behind m n es h)

module _ (g : Config)
    (kept_offset : (e f : RuntimeEvent)
      → g.migrate e ≡ ok f
      → f.commit_offset ≡ e.commit_offset) where
  -- An event is applied or passed over.
  pub offset-step :
      (p : RunProjection) (e f : RuntimeEvent)
      → g.migrate e ≡ ok f
      → (step g p f).projected_offset
        ≡ (if validate_projection_authority_input g f then e.commit_offset else p.projected_offset)
  unfolding apply_projection_event
  offset-step p e f m = elim (Bool-cases (validate_projection_authority_input g f)) [
    | inl b ↦ rw b (kept_offset e f m)
    | inr b ↦ rw b refl
  ]

  pub replay-append :
      (p : RunProjection) (es fs : List RuntimeEvent)
      → replay g p (es ++ fs)
        ≡ (elim (replay g p es) [ ok q ↦ replay g q fs | raised x ↦ raised x ])
  unfolding replay
  replay-append p [] fs = refl
  replay-append p (e ∷ es) fs = elim (Outcome-cases (g.migrate e)) [
    | inl (x, m) ↦ rw m refl
    | inr (f, m) ↦ rw m (replay-append (step g p f) es fs)
  ]

  -- A replay that returns has migrated its first event.
  pub replay-first :
      (p q : RunProjection) (e : RuntimeEvent) (es : List RuntimeEvent)
      → replay g p (e ∷ es) ≡ ok q
      → (f : RuntimeEvent) × (g.migrate e ≡ ok f) × (replay g (step g p f) es ≡ ok q)
  unfolding replay
  replay-first p q e es h = elim (Outcome-cases (g.migrate e)) [
    | inl (x, m) ↦ ground (arith, m, h)
    | inr (f, m) ↦ (f, m, ground (arith, m, h))
  ]

  -- The rest of the events is ahead of where the first one left the projection.
  pub step-Ascends :
      (p : RunProjection) (e f : RuntimeEvent) (es : List RuntimeEvent)
      → Ascends p.projected_offset (e ∷ es)
      → g.migrate e ≡ ok f
      → Ascends (step g p f).projected_offset es
  step-Ascends p e f es (lt, a) m =
      Ascends-weaken (step g p f).projected_offset e.commit_offset es
        (ground (arith, offset-step p e f m)) a

  -- A replay never moves a projection back.
  pub replay-advances :
      (p q : RunProjection) (es fs : List RuntimeEvent)
      → Ascends p.projected_offset (es ++ fs)
      → replay g p es ≡ ok q
      → p.projected_offset ≤ q.projected_offset
  unfolding replay
  replay-advances p q [] fs a h = ground arith
  replay-advances p q (e ∷ es) fs (lt, a) h =
      let (f, m, r) = replay-first p q e es h in
      ground (
        arith,
        replay-advances (step g p f) q es fs (step-Ascends p e f (es ++ fs) (lt, a) m) r,
        offset-step p e f m,
      )

  step-skips :
      (p : RunProjection) (f : RuntimeEvent)
      → validate_projection_authority_input g f ≡ false
      → step g p f ≡ p
  step-skips p f v = rw v refl

  abbrev Resumed : RunProjection → List RuntimeEvent → List RuntimeEvent → RunProjection → Type 0
  Resumed q es fs p = replay g q (behind q.projected_offset (es ++ fs)) ≡ replay g p (es ++ fs)

  -- A replay that went through `es` goes on where it stopped: it reads the events behind the offset it
  -- reached, which may pass over some diagnostic events again.
  pub replay-resumes :
      (p q : RunProjection) (es fs : List RuntimeEvent)
      → Ascends p.projected_offset (es ++ fs)
      → replay g p es ≡ ok q
      → replay g q (behind q.projected_offset (es ++ fs)) ≡ replay g p (es ++ fs)
  unfolding replay behind
  replay-resumes p q [] fs a h = ground (arith, h, behind-all p.projected_offset fs a)
  replay-resumes p q (e ∷ es) fs (lt, a) h =
      let (f, m, r) = replay-first p q e es h in
      let ih = replay-resumes (step g p f) q es fs (step-Ascends p e f (es ++ fs) (lt, a) m) r in
      elim (Bool-cases (ltb q.projected_offset e.commit_offset)) [
        | inl b ↦
            let later =
              replay-advances (step g p f) q es fs (step-Ascends p e f (es ++ fs) (lt, a) m) r in
            elim (Bool-cases (validate_projection_authority_input g f)) [
              | inl v ↦ ground (arith, later, offset-step p e f m)
              | inr v ↦ rw (b, m, v) (subst (Resumed q es fs) (step-skips p f v) ih)
            ]
        | inr b ↦ rw (b, m) ih
      ]
