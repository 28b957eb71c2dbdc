-- ===== src/Turn/Once/Claim.antt =====
-- The dedupe phase: a turn goes on only with a key that was free and that the store now has.
use agent_kernel.Prelude.{
  ◌≡◌, refl, subst, Option, none, some, Bool, true, false, ◌&&◌, not, String, ◌==◌, arith,
  Bool-cases, Option-cases, inl, inr, ◌⊎◌, is_some,
}
use agent_kernel.Prelude.Errors.{is_raised, Outcome, ok}
use agent_kernel.Contracts.{Action}
use agent_kernel.Dedupe.{IdempotencyEnvelope, DedupeReservation, HostKind}
use agent_kernel.Turn.State.{DedupePort, Services, Turn, TurnInput, TurnIdentity, Admission}
use agent_kernel.Turn.Results.{admission_or_none}
use agent_kernel.Turn.Dispatch.{
  mirror, reserve_with_degradation, settle, claim, check_and_claim, dedupe_from, phase_dedupe,
  found,
}
use agent_kernel.Snapshot.{CapabilitySnapshot}
use agent_kernel.Policy.Host.{DispatchPolicy}
use agent_kernel.Turn.Envelope.{resolve_idempotency_envelope, resolve_idempotency_envelope_identity}
use agent_kernel.Turn.Identity.{legacy_dispatch_dedupe_key}
use agent_kernel.Turn.Once.Ledger.{IsLedger, Quiet}

module _ (p : Services) (d : DedupePort) (l : IsLedger d) where
  open l use {has, answers, fresh, reserve_keeps, acknowledge_keeps, unknown_keeps}

  pub mirror-Quiet :
      (legacy_key : String) (e : IdempotencyEnvelope) (t : Turn d.Store)
      → Quiet d l t (mirror p d legacy_key e t).1
  unfolding mirror
  mirror-Quiet legacy_key e t = (
    ground arith,
    λ k h. ground (
      arith,
      reserve_keeps (record e { dispatch_idempotency_key = legacy_key }) e.peer_operation_id t.store
          k,
    ),
  )

  pub mirror_ctx :
      (legacy_key : String) (e : IdempotencyEnvelope) (t : Turn d.Store)
      → let c = (mirror p d legacy_key e t).1.ctx in
        (c.turn_identity ≡ t.ctx.turn_identity)
        × (c.envelope ≡ t.ctx.envelope)
        × (c.result ≡ t.ctx.result)
  unfolding mirror
  mirror_ctx legacy_key e t = ground arith

  pub reserve_lem :
      (a : Action) (h : HostKind) (e : IdempotencyEnvelope) (t : Turn d.Store)
      → let s = (d.reserve_and_dispatch e none t.store).1 in
        (r : DedupeReservation) × (reserve_with_degradation p d a h e t
          ≡ (ok (r, e, true), record t { store = s }))
        × ((d.reserve_and_dispatch e none t.store).0 ≡ ok r)
  unfolding reserve_with_degradation
  reserve_lem a h e t =
      let (r, q) = answers e none t.store in (r, rw (q, reserve_with_degradation), q)

  abbrev pub enveloped : IdempotencyEnvelope → Bool → Turn d.Store → Turn d.Store
  enveloped e b t = record t { ctx = record t.ctx { envelope = some e; dedupe_available = b } }

  pub settle-Quiet :
      (ti : TurnIdentity) (dp : DispatchPolicy) (legacy_key : String) (r : DedupeReservation)
      (e : IdempotencyEnvelope) (b : Bool) (t : Turn d.Store)
      → Quiet d l t (settle p d ti dp legacy_key r e b t).1
  unfolding settle
  settle-Quiet ti dp legacy_key r e b t =
      let q = mirror-Quiet legacy_key e (enveloped e b t) in
      (ground (arith, q), λ k h. ground (arith, q.1 k))

  -- Where the key was granted, the turn goes on with the envelope under its identity.
  pub settle_ctx :
      (ti : TurnIdentity) (dp : DispatchPolicy) (legacy_key : String) (r : DedupeReservation)
      (e : IdempotencyEnvelope) (b : Bool) (t : Turn d.Store)
      → let c = (settle p d ti dp legacy_key r e b t).1.ctx in
        (c.turn_identity ≡ t.ctx.turn_identity)
        × (c.envelope ≡ some e)
        × ((r.accepted ≡ true) ⊎ (is_some c.result ≡ true))
  unfolding settle
  settle_ctx ti dp legacy_key r e b t = ground (arith, mirror_ctx legacy_key e (enveloped e b t))

  -- The turn after a reservation of the key of `e`.
  abbrev pub reserved : IdempotencyEnvelope → Turn d.Store → Turn d.Store
  reserved e t = record t {
    ctx = record t.ctx { envelope = some e };
    store = (d.reserve_and_dispatch e none t.store).1;
  }

  -- A claim is a reservation that the store answers, and what follows it.
  pub claim-settle :
      (a : Action) (s : CapabilitySnapshot) (ti : TurnIdentity) (dp : DispatchPolicy)
      (r : Admission) (legacy_key : String) (t : Turn d.Store)
      → let e = resolve_idempotency_envelope p r ti a s dp.host_kind in
        (g : DedupeReservation) × ((d.reserve_and_dispatch e none t.store).0 ≡ ok g)
        × (claim p d a s ti dp r legacy_key t ≡ settle p d ti dp legacy_key g e true (reserved e t))
  unfolding claim
  claim-settle a s ti dp r legacy_key t =
      let e = resolve_idempotency_envelope p r ti a s dp.host_kind in
      let (g, same, q) =
        reserve_lem a dp.host_kind e (record t { ctx = record t.ctx { envelope = some e } }) in
      (g, q, rw same)

  pub claim-Quiet :
      (a : Action) (s : CapabilitySnapshot) (ti : TurnIdentity) (dp : DispatchPolicy)
      (r : Admission) (legacy_key : String) (t : Turn d.Store)
      → Quiet d l t (claim p d a s ti dp r legacy_key t).1
  claim-Quiet a s ti dp r legacy_key t =
      let e = resolve_idempotency_envelope p r ti a s dp.host_kind in
      let (g, q, same) = claim-settle a s ti dp r legacy_key t in
      let quiet = settle-Quiet ti dp legacy_key g e true (reserved e t) in
      rw same (quiet.0, λ k h. quiet.1 k (reserve_keeps e none t.store k h))

  -- A turn that holds its key: the store has it, and the envelope is under it.
  abbrev pub Holds : Turn d.Store → String → Type 0
  Holds t k =
      (e : IdempotencyEnvelope) × (t.ctx.envelope ≡ some e)
      × (e.dispatch_idempotency_key ≡ k)
      × (has t.store k ≡ true)

  pub claim-Holds :
      (a : Action) (s : CapabilitySnapshot) (ti : TurnIdentity) (dp : DispatchPolicy)
      (r : Admission) (legacy_key : String) (t : Turn d.Store)
      → let t' = (claim p d a s ti dp r legacy_key t).1 in
        t'.ctx.result ≡ none
        → Holds t' ti.dispatch_dedupe_key × (has t.store ti.dispatch_dedupe_key ≡ false)
  claim-Holds a s ti dp r legacy_key t none_left =
      let e = resolve_idempotency_envelope p r ti a s dp.host_kind in
      let same_key = (resolve_idempotency_envelope_identity p r ti a s dp.host_kind).0 in
      let (g, q, same) = claim-settle a s ti dp r legacy_key t in
      let after = settle_ctx ti dp legacy_key g e true (reserved e t) in
      let granted : g.accepted ≡ true = ground (arith, rw same at none_left) in
      let (was, is) = fresh e none t.store g q granted in
      let quiet = settle-Quiet ti dp legacy_key g e true (reserved e t) in
      rw same (
        (
          e,
          after.1,
          same_key,
          quiet.1 ti.dispatch_dedupe_key
              (subst (λ k. has (reserved e t).store k ≡ true) same_key is),
        ),
        subst (λ k. has t.store k ≡ false) same_key was,
      )

  -- After the dedupe phase: the turn raised, or has its result, or holds a key that was free.
  abbrev pub Settled : Turn d.Store → Outcome (Unit {0}) × Turn d.Store → Type 0
  Settled t (r, t') =
      Quiet d l t t'
      × ((is_raised r ≡ true)
          ⊎ ((is_some t'.ctx.result ≡ true)
              ⊎ ((k : String) × Holds t' k × (has t.store k ≡ false))))

  pub check-Settled :
      (a : Action) (s : CapabilitySnapshot) (ti : TurnIdentity) (dp : DispatchPolicy)
      (r : Admission) (i : TurnInput) (t : Turn d.Store)
      → Settled t (check_and_claim p d a s ti dp r i t)
  unfolding check_and_claim
  check-Settled a s ti dp r i t =
      let key = legacy_dispatch_dedupe_key i.run_id a.action_id i.based_on_offset in
      elim (Bool-cases (not (key == ti.dispatch_dedupe_key) && found p d (d.get key t.store))) [
        | inl hit ↦ rw hit ((refl, λ k h. h), inr (inl refl))
        | inr miss ↦ rw miss (
          claim-Quiet a s ti dp r key t,
          elim (Option-cases (claim p d a s ti dp r key t).1.ctx.result) [
            | inl e ↦
                let (holds, was_free) = claim-Holds a s ti dp r key t e in
                inr (inr (ti.dispatch_dedupe_key, holds, was_free))
            | inr (v, e) ↦ inr (inl (rw e))
          ],
        )
      ]

  pub dedupe_from-Settled :
      (oa : Option Action) (os : Option CapabilitySnapshot) (oti : Option TurnIdentity)
      (odp : Option DispatchPolicy) (r : Admission) (i : TurnInput) (t : Turn d.Store)
      → Settled t (dedupe_from p d oa os oti odp r i t)
  dedupe_from-Settled (some a) (some s) (some ti) (some dp) r i t = check-Settled a s ti dp r i t
  dedupe_from-Settled _ _ _ _ r i t = ((refl, λ k h. h), inl refl)

  pub dedupe-Settled : (t : Turn d.Store) → Settled t (phase_dedupe p d t)
  unfolding phase_dedupe
  dedupe-Settled t =
      dedupe_from-Settled t.ctx.action t.ctx.snapshot t.ctx.turn_identity t.ctx.dispatch_policy
        (admission_or_none t.ctx.admission_result) t.ctx.input_value t
