-- ===== src/SnapshotAdmission/Quota.antt =====
-- When the snapshot-driven admission admits an Action
-- (agent_kernel/kernel/admission/snapshot_driven_admission.py): its rate windows are exact.
use agent_kernel.Prelude.{
  ◌≡◌, refl, arith, ℕ, ◌+◌, ◌-◌, ◌≤◌, String, List, [], ◌∷◌, ◌++◌, Bool, ◌&&◌, ◌||◌, not, ◌==◌, ltb,
  length, Bool-cases, inl, inr, ◌∙◌, ap, eq_iff,
}
use agent_kernel.Prelude.Errors.{Outcome, ok}
use agent_kernel.Prelude.Dict.{lookup, insert}
use agent_kernel.Contracts.{Action}
use agent_kernel.Snapshot.{CapabilitySnapshot}
use agent_kernel.SnapshotAdmission.{
  TenantPolicy, RateWindows, subject_of, window_of, evict_old, check_rate_limit, policy_ref_of,
  resolve_policy, admit, check_permission_mode, check_idempotency, check_risk_tier,
}
use agent_kernel.SnapshotAdmission.Rate.{
  since, Call, is_admitted, noted, InOrder, admitted_from, admit-cases, evict-window, append-window,
  window-insert,
}
use agent_kernel.SnapshotAdmission.Permits.{unread_bindings}

-- Times in ascending order, between two bounds.
abbrev Between : ℕ → ℕ → List ℕ → Type 0
Between low high [] = Unit
Between low high (x ∷ r) = (low ≤ x) × (x ≤ high) × Between x high r

Between-wider :
    (low low' high high' : ℕ) (w : List ℕ)
    → low' ≤ low
    → high ≤ high'
    → Between low high w
    → Between low' high' w
Between-wider low low' high high' [] l h b = tt
Between-wider low low' high high' (x ∷ r) l h (a, c, b) =
    (omega arith, omega arith, Between-wider x x high high' r (omega arith) h b)

Between-evict_old :
    (now low high : ℕ) (w : List ℕ) → Between low high w → Between low high (evict_old now w)
unfolding evict_old
Between-evict_old now low high [] b = tt
Between-evict_old now low high (x ∷ r) (a, c, b) = elim (Bool-cases (ltb (x + 60000) now)) [
  | inr recent ↦ ground (arith, recent, a, c, b)
  | inl old ↦
      let rest =
        Between-wider x low high high (evict_old now r) a (omega arith)
          (Between-evict_old now x high r b) in
      ground (arith, old, rest)
]

Between-append :
    (low now : ℕ) (w : List ℕ) → low ≤ now → Between low now w → Between low now (w ++ (now ∷ []))
Between-append low now [] l b = (l, omega arith, tt)
Between-append low now (x ∷ r) l (a, c, b) = (a, c, Between-append x now r c b)

since-all : (t low high : ℕ) (w : List ℕ) → t ≤ low → Between low high w → since t w ≡ length w
since-all t low high [] l b = refl
since-all t low high (x ∷ r) l (a, c, b) = ground (arith, since-all t x high r (omega arith) b)

-- In an ascending window the eviction leaves the times of the last minute and no other.
length-evict_old :
    (now low high : ℕ) (w : List ℕ)
    → Between low high w
    → length (evict_old now w) ≡ since (now - 60000) w
unfolding evict_old
length-evict_old now low high [] b = refl
length-evict_old now low high (x ∷ r) (a, c, b) = elim (Bool-cases (ltb (x + 60000) now)) [
  | inl old ↦ ground (arith, old, length-evict_old now x high r b)
  | inr recent ↦ ground (arith, recent, since-all (now - 60000) x high r (ground arith) b)
]

module _ (resolve_file : String → Outcome TenantPolicy) where
  -- The windows after calls one after another.
  abbrev pub windows_after : List Call → RateWindows → RateWindows
  windows_after [] ws = ws
  windows_after (c ∷ calls) ws =
      windows_after calls (admit resolve_file c.now c.subject c.snapshot ws).1

  module _ (run_id : String) where
    -- The run's window is in order and has every time of the last minute.
    record IsExact (last : ℕ) (times : List ℕ) (ws : RateWindows) : Type 0 where
      kept : (t : ℕ) → last ≤ t + 60000 → since t times ≡ since t (window_of run_id ws)
      ordered : Between 0 last (window_of run_id ws)

    evicted-ordered :
        (now last : ℕ) (k : String) (ws : RateWindows)
        → last ≤ now
        → Between 0 last (window_of run_id ws)
        → Between 0 now (window_of run_id (insert k (evict_old now (window_of k ws)) ws))
    evicted-ordered now last k ws h b =
        let later = Between-wider 0 0 last now (window_of run_id ws) (omega arith) h b in
        ground (
          arith,
          window-insert k run_id (evict_old now (window_of k ws)) ws,
          Between-evict_old now 0 now (window_of run_id ws) later,
          later,
          eq_iff k run_id,
        )

    appended-ordered :
        (now last : ℕ) (k : String) (ws : RateWindows)
        → last ≤ now
        → Between 0 last (window_of run_id ws)
        → Between 0 now
            (window_of run_id (insert k (evict_old now (window_of k ws) ++ (now ∷ [])) ws))
    appended-ordered now last k ws h b =
        let later = Between-wider 0 0 last now (window_of run_id ws) (omega arith) h b in
        let left = evict_old now (window_of run_id ws) in
        ground (
          arith,
          window-insert k run_id (evict_old now (window_of k ws) ++ (now ∷ [])) ws,
          Between-append 0 now left (omega arith)
              (Between-evict_old now 0 now (window_of run_id ws) later),
          later,
          eq_iff k run_id,
        )

    admit-IsExact :
        (c : Call) (last : ℕ) (times : List ℕ) (ws : RateWindows)
        → last ≤ c.now
        → IsExact last times ws
        → let r = admit resolve_file c.now c.subject c.snapshot ws in
          IsExact c.now (noted run_id c r.0 times) r.1
    admit-IsExact c last times ws h i =
        let k = c.subject.run_id in
        let later = Between-wider 0 0 last c.now (window_of run_id ws) (omega arith) h i.ordered in
        elim (admit-cases resolve_file c ws) [
          | inl (refused, same) ↦ record {
            kept = λ t u. elim same [
              | inl e ↦ ground (arith, refused, e, i.kept t)
              | inr e ↦ ground (arith, refused, e, i.kept t, evict-window run_id t c.now k ws u)
            ];
            ordered = elim same [
              | inl e ↦ ground (arith, e, later)
              | inr e ↦ ground (arith, e, evicted-ordered c.now last k ws h i.ordered)
            ];
          }
          | inr (p, resolves, passed, free, granted, changed) ↦ record {
            kept = λ t u.
                ground (arith, granted, changed, i.kept t, append-window run_id t c.now k ws u);
            ordered = ground (arith, changed, appended-ordered c.now last k ws h i.ordered);
          }
        ]

    after-length :
        (calls : List Call) (c : Call) (last : ℕ) (times : List ℕ) (ws : RateWindows)
        → InOrder last (calls ++ (c ∷ []))
        → IsExact last times ws
        → length (evict_old c.now (window_of run_id (windows_after calls ws)))
          ≡ since (c.now - 60000) (admitted_from resolve_file run_id calls ws times)
    after-length [] c last times ws (h, u) i = ground (
      arith,
      length-evict_old c.now 0 last (window_of run_id ws) i.ordered,
      i.kept (c.now - 60000),
    )
    after-length (d ∷ calls) c last times ws (h, o) i =
        let r = admit resolve_file d.now d.subject d.snapshot ws in
        after-length calls c d.now (noted run_id d r.0 times) r.1 o
          (admit-IsExact d last times ws h i)

  -- Whether the permission mode of a snapshot lets an action of this type pass.
  abbrev pub mode_permits : String → String → Bool
  mode_permits mode action_type =
      not (mode == "readonly" || mode == "read_only")
      || action_type == "noop"
      || action_type == "read"

  action-admitted :
      (now : ℕ) (a : Action) (s : CapabilitySnapshot) (p : TenantPolicy) (ws : RateWindows)
      → resolve_policy resolve_file (policy_ref_of s) ≡ ok p
      → is_admitted (admit resolve_file now (subject_of a) s ws).0 ≡ (
          mode_permits s.permission_mode a.action_type
          && ltb (length (evict_old now (window_of a.run_id ws))) p.max_actions_per_minute)
  unfolding admit check_permission_mode check_idempotency check_risk_tier check_rate_limit
  action-admitted now a s p ws h = ground (arith, h, unread_bindings a s)

  -- After any calls of `admit`, in the order of the clock up to this one, from a service without windows, an
  -- Action whose snapshot names a policy that resolves is admitted exactly if the permission mode is not
  -- read-only or the action's type is noop or read, and fewer of its run's calls than the policy allows were
  -- admitted in the minute before. Neither the bindings of the snapshot, nor the action's effect class, nor
  -- what the policy says of writes and of risk (a highest tier that is not negative) has a part in it.
  pub admit-exact :
      (calls : List Call) (now : ℕ) (a : Action) (s : CapabilitySnapshot) (p : TenantPolicy)
      → InOrder 0 (calls ++ (record { now = now; subject = subject_of a; snapshot = s } ∷ []))
      → resolve_policy resolve_file (policy_ref_of s) ≡ ok p
      → is_admitted (admit resolve_file now (subject_of a) s (windows_after calls [])).0 ≡ (
          mode_permits s.permission_mode a.action_type
          && ltb
              (since (now - 60000) (admitted_from resolve_file a.run_id calls [] []))
              p.max_actions_per_minute)
  unfolding lookup
  admit-exact calls now a s p o h =
      let c : Call = record { now = now; subject = subject_of a; snapshot = s } in
      action-admitted now a s p (windows_after calls []) h
      ∙ ap (λ n. mode_permits s.permission_mode a.action_type && ltb n p.max_actions_per_minute)
          (after-length a.run_id calls c 0 [] [] o (record { kept = λ t u. refl; ordered = tt }))
