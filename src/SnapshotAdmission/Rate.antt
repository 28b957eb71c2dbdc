-- ===== src/SnapshotAdmission/Rate.antt =====
-- How many actions of a run the snapshot-driven admission admits in a minute
-- (agent_kernel/kernel/admission/snapshot_driven_admission.py).
use agent_kernel.Prelude.{
  ◌≡◌, refl, arith, ℕ, suc, ◌+◌, ◌≤◌, ◌<◌, ◌⊎◌, String, List, [], ◌∷◌, ◌++◌, Bool, true, false,
  Option, none, some, ◌&&◌, ◌==◌, if◌then◌else◌, leb, length, eq_iff, Bool-cases, inl, inr,
}
use agent_kernel.Prelude.Errors.{Outcome, ok, raised, Outcome-cases}
use agent_kernel.Prelude.Dict.{lookup, insert, lookup-insert}
use agent_kernel.Contracts.{AdmissionResult}
use agent_kernel.Snapshot.{CapabilitySnapshot}
use agent_kernel.SnapshotAdmission.{
  TenantPolicy, Subject, RateWindows, window_of, evict_old, check_rate_limit, first_refusal,
  policy_ref_of, resolve_policy, admit, result_of, refuse_if, check_permission_mode,
  check_binding_existence, check_idempotency, check_risk_tier,
}

-- How many times of a list lie from `t` on, and how many in the minute from `t` on.
abbrev pub since : ℕ → List ℕ → ℕ
since t [] = 0
since t (x ∷ r) = let rest = since t r in if leb t x then suc rest else rest

abbrev pub within_minute : ℕ → List ℕ → ℕ
within_minute t [] = 0
within_minute t (x ∷ r) =
    let rest = within_minute t r in if leb t x && leb x (t + 60000) then suc rest else rest

within-le-since : (t : ℕ) (xs : List ℕ) → within_minute t xs ≤ since t xs
within-le-since t [] = omega arith
within-le-since t (x ∷ r) = ground (arith, within-le-since t r)

since-le-length : (t : ℕ) (xs : List ℕ) → since t xs ≤ length xs
since-le-length t [] = omega arith
since-le-length t (x ∷ r) = ground (arith, since-le-length t r)

since-append : (t now : ℕ) (xs : List ℕ) → since t (xs ++ (now ∷ [])) ≡ since t (now ∷ xs)
since-append t now [] = refl
since-append t now (x ∷ r) = ground (arith, since-append t now r)

-- The eviction loses no time of the last minute.
since-evict_old :
    (t now : ℕ) (xs : List ℕ) → now ≤ t + 60000 → since t (evict_old now xs) ≡ since t xs
unfolding evict_old
since-evict_old t now [] h = refl
since-evict_old t now (x ∷ r) h = ground (arith, since-evict_old t now r h)

-- One call: its time, and what it is about.
pub record Call : Type 0 where
  pub now : ℕ
  pub subject : Subject
  pub snapshot : CapabilitySnapshot

abbrev pub is_admitted : Outcome AdmissionResult → Bool
is_admitted (ok r) = r.admitted
is_admitted (raised x) = false

-- The times at which calls for a run were admitted, the latest first.
abbrev pub noted : String → Call → Outcome AdmissionResult → List ℕ → List ℕ
noted run_id c o times =
    if is_admitted o && (c.subject.run_id == run_id) then c.now ∷ times else times

abbrev pub InOrder : ℕ → List Call → Type 0
InOrder last [] = Unit
InOrder last (c ∷ calls) = (last ≤ c.now) × InOrder c.now calls

module _ (resolve_file : String → Outcome TenantPolicy) where
  -- Calls one after another from a state and the times so far.
  abbrev pub admitted_from : String → List Call → RateWindows → List ℕ → List ℕ
  admitted_from run_id [] ws times = times
  admitted_from run_id (c ∷ calls) ws times =
      let (o, ws') = admit resolve_file c.now c.subject c.snapshot ws in
      admitted_from run_id calls ws' (noted run_id c o times)

abbrev pub Refuses : Option AdmissionResult → Type 0
Refuses o = (o ≡ none) ⊎ ((code : String) × (o ≡ some (result_of false code)))

refuse_if-Refuses : (b : Bool) (code : String) → Refuses (refuse_if b code)
refuse_if-Refuses true code = inr (code, refl)
refuse_if-Refuses false code = inl refl

pub permission-Refuses :
    (a : Subject) (s : CapabilitySnapshot) → Refuses (check_permission_mode a s)
unfolding check_permission_mode
permission-Refuses a s = refuse_if-Refuses _ _

pub binding-Refuses : (a : Subject) (s : CapabilitySnapshot) → Refuses (check_binding_existence a s)
unfolding check_binding_existence
binding-Refuses a s = refuse_if-Refuses _ _

pub idempotency-Refuses : (a : Subject) (p : TenantPolicy) → Refuses (check_idempotency a p)
unfolding check_idempotency
idempotency-Refuses a p = refuse_if-Refuses _ _

pub risk-Refuses : (a : Subject) (p : TenantPolicy) → Refuses (check_risk_tier a p)
unfolding check_risk_tier
risk-Refuses a p = refuse_if-Refuses _ _

first_refusal-Refuses :
    (a : Subject) (s : CapabilitySnapshot) (p : TenantPolicy) → Refuses (first_refusal a s p)
first_refusal-Refuses a s p = elim (permission-Refuses a s) [
  | inr (c, h) ↦ inr (c, ground (arith, h))
  | inl h ↦ elim (binding-Refuses a s) [
    | inr (c, k) ↦ inr (c, ground (arith, h, k))
    | inl k ↦ elim (idempotency-Refuses a p) [
      | inr (c, l) ↦ inr (c, ground (arith, h, k, l))
      | inl l ↦ elim (risk-Refuses a p) [
        | inr (c, m) ↦ inr (c, ground (arith, h, k, l, m))
        | inl m ↦ inl (ground (arith, h, k, l, m))
      ]
    ]
  ]
]

pub window-insert :
    (k j : String) (w : List ℕ) (ws : RateWindows)
    → window_of j (insert k w ws) ≡ (if k == j then w else window_of j ws)
window-insert k j w ws = ground (arith, lookup-insert k j w ws)

-- What the two new windows of a call have of the last minute.
module _ (run_id : String) where
  pub evict-window :
      (t now : ℕ) (k : String) (ws : RateWindows)
      → now ≤ t + 60000
      → since t (window_of run_id (insert k (evict_old now (window_of k ws)) ws))
        ≡ since t (window_of run_id ws)
  evict-window t now k ws h = ground (
    arith,
    window-insert k run_id (evict_old now (window_of k ws)) ws,
    since-evict_old t now (window_of k ws) h,
    eq_iff k run_id,
  )

  pub append-window :
      (t now : ℕ) (k : String) (ws : RateWindows)
      → now ≤ t + 60000
      → since t (window_of run_id (insert k (evict_old now (window_of k ws) ++ (now ∷ [])) ws))
        ≡ since t (if k == run_id then now ∷ window_of run_id ws else window_of run_id ws)
  append-window t now k ws h = ground (
    arith,
    window-insert k run_id (evict_old now (window_of k ws) ++ (now ∷ [])) ws,
    since-append t now (evict_old now (window_of k ws)),
    since-evict_old t now (window_of k ws) h,
    eq_iff k run_id,
  )

module _ (resolve_file : String → Outcome TenantPolicy) where
  -- What a call does: it is refused, and at most old times leave the run's window, or it is admitted below
  -- the limit and its time enters.
  pub admit-cases :
      (c : Call) (ws : RateWindows)
      → let k = c.subject.run_id in
        let w = evict_old c.now (window_of k ws) in
        let r = admit resolve_file c.now c.subject c.snapshot ws in
        ((is_admitted r.0 ≡ false) × ((r.1 ≡ ws) ⊎ (r.1 ≡ insert k w ws)))
        ⊎ ((p : TenantPolicy) × (resolve_policy resolve_file (policy_ref_of c.snapshot) ≡ ok p)
            × (first_refusal c.subject c.snapshot p ≡ none)
            × (length w < p.max_actions_per_minute)
            × (is_admitted r.0 ≡ true)
            × (r.1 ≡ insert k (w ++ (c.now ∷ [])) ws))
  unfolding admit check_rate_limit
  admit-cases c ws = elim (Outcome-cases (resolve_policy resolve_file (policy_ref_of c.snapshot))) [
    | inl (x, h) ↦ inl (ground (arith, h), inl (ground (arith, h)))
    | inr (p, h) ↦ elim (first_refusal-Refuses c.subject c.snapshot p) [
      | inr (code, f) ↦ inl (ground (arith, h, f), inl (ground (arith, h, f)))
      | inl f ↦
          let w = evict_old c.now (window_of c.subject.run_id ws) in
          elim (Bool-cases (leb p.max_actions_per_minute (length w))) [
            | inl full ↦ inl (ground (arith, h, f, full), inr (ground (arith, h, f, full)))
            | inr free ↦ inr (
              p,
              h,
              f,
              ground (arith, free),
              ground (arith, h, f, free),
              ground (arith, h, f, free),
            )
          ]
    ]
  ]

  module _ (limit : ℕ)
      (limits : (ref : String) (p : TenantPolicy)
        → resolve_policy resolve_file ref ≡ ok p
        → p.max_actions_per_minute ≤ limit)
      (run_id : String) where
    -- The window has every time of the last minute, and no minute has too many times.
    record IsRecorded (last : ℕ) (times : List ℕ) (ws : RateWindows) : Type 0 where
      kept : (t : ℕ) → last ≤ t + 60000 → since t times ≡ since t (window_of run_id ws)
      few : (t : ℕ) → within_minute t times ≤ limit

    admit-IsRecorded :
        (c : Call) (last : ℕ) (times : List ℕ) (ws : RateWindows)
        → last ≤ c.now
        → IsRecorded last times ws
        → let r = admit resolve_file c.now c.subject c.snapshot ws in
          IsRecorded c.now (noted run_id c r.0 times) r.1
    admit-IsRecorded c last times ws h i =
        let k = c.subject.run_id in
        let w = evict_old c.now (window_of k ws) in
        elim (admit-cases c ws) [
          | inl (refused, same) ↦ record {
            kept = λ t u. elim same [
              | inl e ↦ ground (arith, refused, e, i.kept t)
              | inr e ↦ ground (arith, refused, e, i.kept t, evict-window run_id t c.now k ws u)
            ];
            few = λ t. ground (arith, refused, i.few t);
          }
          | inr (p, resolves, passed, free, granted, changed) ↦ record {
            kept = λ t u.
                ground (arith, granted, changed, i.kept t, append-window run_id t c.now k ws u);
            few = λ t. ground (
              arith,
              granted,
              i.few t,
              i.kept t,
              within-le-since t times,
              since-evict_old t c.now (window_of k ws),
              since-le-length t w,
              limits (policy_ref_of c.snapshot) p resolves,
              eq_iff k run_id,
            );
          }
        ]

    admitted-IsRecorded :
        (calls : List Call) (last t : ℕ) (times : List ℕ) (ws : RateWindows)
        → InOrder last calls
        → IsRecorded last times ws
        → within_minute t (admitted_from resolve_file run_id calls ws times) ≤ limit
    admitted-IsRecorded [] last t times ws o i = i.few t
    admitted-IsRecorded (c ∷ calls) last t times ws (h, o) i =
        let r = admit resolve_file c.now c.subject c.snapshot ws in
        admitted-IsRecorded calls c.now t (noted run_id c r.0 times) r.1 o
          (admit-IsRecorded c last times ws h i)

    -- Over any calls of `admit` in the order of the clock, from a service without windows, in no minute
    -- are more actions of one run admitted than `limit`, where no policy that resolves allows more.
    pub admitted-within_minute :
        (calls : List Call) (t : ℕ)
        → InOrder 0 calls
        → within_minute t (admitted_from resolve_file run_id calls [] []) ≤ limit
    unfolding lookup
    admitted-within_minute calls t o =
        admitted-IsRecorded calls 0 t [] [] o
          (record { kept = λ u h. refl; few = λ u. omega arith })
