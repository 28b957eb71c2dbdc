-- ===== src/Turn/Authority.antt =====
-- No execution without authority: what the executor is called with was admitted, and its dispatch is
-- not blocked (agent_kernel/kernel/turn_engine.py). Any dedupe store, also one that fails.
pub mod Loop
use agent_kernel.Prelude.{
  ◌≡◌, refl, sym, ◌∙◌, Option, none, some, Bool, true, false, ◌&&◌, not, String, ◌⊎◌, inl, inr,
  Bool-cases, ◌==◌, arith, List, ◌∷◌, is_some, if◌then◌else◌,
}
use agent_kernel.Prelude.Errors.{Outcome, ok, raised, is_raised, Exec, continue}
use agent_kernel.Contracts.{Action, ExecutionContext}
use agent_kernel.Dedupe.{IdempotencyEnvelope, DedupeReservation, HostKind}
use agent_kernel.Snapshot.{CapabilitySnapshot}
use agent_kernel.Policy.Host.{DispatchPolicy, resolve_dispatch_policy}
use agent_kernel.Turn.State.{Admission, Call, DedupePort, Services, Turn, TurnInput, TurnIdentity}
use mathlib.Core.Path.{subst₂}
use agent_kernel.Turn.Identity.{legacy_dispatch_dedupe_key}
use agent_kernel.Turn.Envelope.{resolve_idempotency_envelope}
use agent_kernel.Turn.Results.{is_admitted, admission_or_none}
use agent_kernel.Turn.Prepare.{
  verdict, judged, admission_from, evaluate_admission, phase_admission, phase_dispatch_policy,
}
use agent_kernel.Turn.Dispatch.{
  mirror, reserve_with_degradation, settle, claim, check_and_claim, dedupe_from, phase_dedupe,
  on_alias, lose, acknowledge, leave_unknown, answered, execute_call, execute_from, phase_execute,
}

-- The admission service admitted the action under the snapshot.
pub record IsAdmitted (p : Services) (a : Action) (s : CapabilitySnapshot) : Type 0 where
  pub result : Admission
  pub evaluated : evaluate_admission p a s ≡ ok result
  pub admitted : is_admitted result ≡ ok true

module _ (p : Services) (d : DedupePort) where
  -- The action and the snapshot that a turn carries have been admitted.
  abbrev pub Admitted : Turn d.Store → Type 0
  Admitted t =
      (a : Action) (s : CapabilitySnapshot)
      → t.ctx.action ≡ some a
      → t.ctx.snapshot ≡ some s
      → IsAdmitted p a s

  -- The action that a turn carries is not blocked by the dispatch policy.
  abbrev pub Unblocked : Turn d.Store → Type 0
  Unblocked t =
      (a : Action)
      → t.ctx.action ≡ some a
      → (resolve_dispatch_policy p.lower a).should_block ≡ false

  -- A phase leaves the turn's action and snapshot as they are.
  abbrev pub Same : Turn d.Store → Turn d.Store → Type 0
  Same t t' = (t'.ctx.action ≡ t.ctx.action) × (t'.ctx.snapshot ≡ t.ctx.snapshot)

  pub admission-Same : (t : Turn d.Store) → Same t (phase_admission p d t).1
  unfolding phase_admission
  admission-Same t = ground arith

  pub dispatch_policy-Same : (t : Turn d.Store) → Same t (phase_dispatch_policy p d t).1
  unfolding phase_dispatch_policy
  dispatch_policy-Same t = ground arith

  verdict_passed :
      (ti : TurnIdentity) (b : Outcome Bool) (t : Turn d.Store)
      → is_raised (verdict p d ti b t).0 ≡ false
      → (verdict p d ti b t).1.ctx.result ≡ none
      → b ≡ ok true
  unfolding verdict
  verdict_passed ti (ok true) t no_raise no_result = refl
  verdict_passed ti (ok false) t no_raise no_result = cc
  verdict_passed ti (raised e) t no_raise no_result = cc

  judged_passed :
      (a : Action) (s : CapabilitySnapshot) (ti : TurnIdentity) (o : Outcome Admission)
      (t : Turn d.Store)
      → evaluate_admission p a s ≡ o
      → is_raised (judged p d ti o t).0 ≡ false
      → (judged p d ti o t).1.ctx.result ≡ none
      → IsAdmitted p a s
  unfolding judged
  judged_passed a s ti (raised e) t same no_raise no_result = cc
  judged_passed a s ti (ok r) t same no_raise no_result = record {
    result = r;
    evaluated = same;
    admitted =
        verdict_passed ti (is_admitted r)
          (record t { ctx = record t.ctx { admission_result = some r } }) no_raise no_result;
  }

  admission_from_passed :
      (oa : Option Action) (os : Option CapabilitySnapshot) (oti : Option TurnIdentity)
      (t : Turn d.Store)
      → is_raised (admission_from p d oa os oti t).0 ≡ false
      → (admission_from p d oa os oti t).1.ctx.result ≡ none
      → (a : Action) (s : CapabilitySnapshot) → oa ≡ some a
      → os ≡ some s
      → IsAdmitted p a s
  admission_from_passed (some a) (some s) (some ti) t no_raise no_result a' s' ea es =
      subst₂ (IsAdmitted p) (cc) (cc)
        (judged_passed a s ti (evaluate_admission p a s) t refl no_raise no_result)
  admission_from_passed _ _ _ t no_raise no_result a' s' ea es = cc

  -- After an admission phase that left no result, the turn's action has been admitted.
  pub admission-Admitted :
      (t : Turn d.Store)
      → is_raised (phase_admission p d t).0 ≡ false
      → (phase_admission p d t).1.ctx.result ≡ none
      → Admitted (phase_admission p d t).1
  admission-Admitted t no_raise no_result a s ea es =
      let same = admission-Same t in
      admission_from_passed t.ctx.action t.ctx.snapshot t.ctx.turn_identity t
        (unfold phase_admission in no_raise) (unfold phase_admission in no_result) a s
        (sym same.0 ∙ ea) (sym same.1 ∙ es)

  -- The dispatch phase over a turn without a result leaves one if the policy blocks.
  pub policy-Unblocked :
      (t : Turn d.Store)
      → is_raised (phase_dispatch_policy p d t).0 ≡ false
      → (phase_dispatch_policy p d t).1.ctx.result ≡ none
      → Unblocked (phase_dispatch_policy p d t).1
  unfolding phase_dispatch_policy
  policy-Unblocked t no_raise no_result a e = ground arith

  mirror-Same :
      (k : String) (e : IdempotencyEnvelope) (t : Turn d.Store) → Same t (mirror p d k e t).1
  unfolding mirror
  mirror-Same k e t = ground arith

  settle-Same :
      (ti : TurnIdentity) (dp : DispatchPolicy) (k : String) (r : DedupeReservation)
      (e : IdempotencyEnvelope) (b : Bool) (t : Turn d.Store)
      → Same t (settle p d ti dp k r e b t).1
  unfolding settle
  settle-Same ti dp k r e b t = ground (
    arith,
    mirror-Same k e (record t { ctx = record t.ctx { envelope = some e; dedupe_available = b } }),
  )

  reserve-Same :
      (a : Action) (h : HostKind) (e : IdempotencyEnvelope) (t : Turn d.Store)
      → Same t (reserve_with_degradation p d a h e t).1
  unfolding reserve_with_degradation
  reserve-Same a h e t = ground arith

  -- What goes on after a reservation that keeps the turn's action and snapshot keeps them.
  continue-Same :
      {A : Type 0} (x : Outcome A × Turn d.Store) (g : A → Exec (Turn d.Store) (Unit {0}))
      (t : Turn d.Store)
      → Same t x.1
      → ((a : A) (t' : Turn d.Store) → Same t' (g a t').1)
      → Same t (continue x.0 g x.1).1
  continue-Same (ok a, t') g t h k = let h' = k a t' in (h'.0 ∙ h.0, h'.1 ∙ h.1)
  continue-Same (raised e, t') g t h k = h

  claim-Same :
      (a : Action) (s : CapabilitySnapshot) (ti : TurnIdentity) (dp : DispatchPolicy)
      (r : Admission) (k : String) (t : Turn d.Store)
      → Same t (claim p d a s ti dp r k t).1
  unfolding claim
  claim-Same a s ti dp r k t =
      let e = resolve_idempotency_envelope p r ti a s dp.host_kind in
      let t' : Turn d.Store = record t { ctx = record t.ctx { envelope = some e } } in
      continue-Same (reserve_with_degradation p d a dp.host_kind e t') _ t
        (reserve-Same a dp.host_kind e t') λ x t''. settle-Same ti dp k x.0 x.1 x.2 t''

  dedupe_from-Same :
      (oa : Option Action) (os : Option CapabilitySnapshot) (oti : Option TurnIdentity)
      (odp : Option DispatchPolicy) (r : Admission) (i : TurnInput) (t : Turn d.Store)
      → Same t (dedupe_from p d oa os oti odp r i t).1
  unfolding check_and_claim
  dedupe_from-Same (some a) (some s) (some ti) (some dp) r i t = ground (
    arith,
    claim-Same a s ti dp r (legacy_dispatch_dedupe_key i.run_id a.action_id i.based_on_offset) t,
  )
  dedupe_from-Same _ _ _ _ r i t = (refl, refl)

  pub dedupe-Same : (t : Turn d.Store) → Same t (phase_dedupe p d t).1
  unfolding phase_dedupe
  dedupe-Same t =
      dedupe_from-Same t.ctx.action t.ctx.snapshot t.ctx.turn_identity t.ctx.dispatch_policy
        (admission_or_none t.ctx.admission_result) t.ctx.input_value t
