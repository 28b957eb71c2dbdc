-- ===== src/Turn/Authority/Loop.antt =====
-- Every call that the executor gets, over any turns, is authorised.
use agent_kernel.Prelude.{
  ◌≡◌, refl, sym, ◌∙◌, subst, Option, none, some, false, ◌⊎◌, inl, inr, arith, List, [], ◌∷◌, All,
}
use agent_kernel.Prelude.Errors.{Outcome, ok, raised, is_raised}
use agent_kernel.Prelude.Json.{Fields}
use agent_kernel.Contracts.{Action, ExecutionContext}
use agent_kernel.Dedupe.{IdempotencyEnvelope}
use agent_kernel.Snapshot.{CapabilitySnapshot}
use agent_kernel.Policy.Host.{DispatchPolicy, resolve_dispatch_policy}
use agent_kernel.Turn.State.{Admission, Call, DedupePort, Services, Turn, TurnInput, TurnIdentity}
use agent_kernel.Turn.Results.{admission_or_none}
use agent_kernel.Turn.Prepare.{
  phase_noop_or_reasoning, phase_snapshot, phase_admission, phase_dispatch_policy,
}
use agent_kernel.Turn.Dispatch.{
  phase_dedupe, answered, call_of, execute_call, execute_from, phase_execute,
}
use agent_kernel.Turn.Engine.{
  Phase, noop_or_reasoning, snapshot, admission, dispatch_policy, dedupe, execute, turn_phases,
  phase_fn, run_phases, initial_context, run_turn,
}
use agent_kernel.Turn.Session.{run_turns, run_cases, last-world}
use agent_kernel.Turn.Authority.{
  IsAdmitted, Admitted, Unblocked, Same, admission-Admitted, dispatch_policy-Same, policy-Unblocked,
  dedupe-Same,
}

-- The executor may do what this call says.
pub record IsAuthorised (p : Services) (c : Call) : Type 0 where
  pub admitted : IsAdmitted p c.action c.snapshot
  pub unblocked : (resolve_dispatch_policy p.lower c.action).should_block ≡ false

module _ (p : Services) (d : DedupePort) where
  abbrev pub NoCall : Turn d.Store → Turn d.Store → Type 0
  NoCall t t' = t'.calls ≡ t.calls

  pub noop_or_reasoning_calls : (t : Turn d.Store) → NoCall t (phase_noop_or_reasoning p d t).1
  unfolding phase_noop_or_reasoning
  noop_or_reasoning_calls t = ground arith

  pub answered_calls :
      (a : Action) (ti : TurnIdentity) (dp : DispatchPolicy) (x : ExecutionContext)
      (o : Outcome Fields) (t : Turn d.Store)
      → NoCall t (answered p d a ti dp x o t).1
  unfolding answered
  answered_calls a ti dp x (raised e) t = ground arith
  answered_calls a ti dp x (ok m) t = ground arith

  pub dedupe_calls : (t : Turn d.Store) → NoCall t (phase_dedupe p d t).1
  unfolding phase_dedupe
  dedupe_calls t = ground arith

  pub snapshot_calls : (t : Turn d.Store) → NoCall t (phase_snapshot p d t).1
  unfolding phase_snapshot
  snapshot_calls t = ground arith

  pub admission_calls : (t : Turn d.Store) → NoCall t (phase_admission p d t).1
  unfolding phase_admission
  admission_calls t = ground arith

  pub dispatch_policy_calls : (t : Turn d.Store) → NoCall t (phase_dispatch_policy p d t).1
  unfolding phase_dispatch_policy
  dispatch_policy_calls t = ground arith

  -- No call, or one call more, of the given action under the given snapshot.
  abbrev Extends : Option Action → Option CapabilitySnapshot → Turn d.Store → Turn d.Store → Type 0
  Extends oa os t t' =
      NoCall t t'
      ⊎ ((c : Call) × (oa ≡ some c.action) × (os ≡ some c.snapshot) × (t'.calls ≡ c ∷ t.calls))

  execute_call-Extends :
      (a : Action) (s : CapabilitySnapshot) (ti : TurnIdentity) (dp : DispatchPolicy)
      (e : IdempotencyEnvelope) (x : ExecutionContext) (t : Turn d.Store)
      → Extends (some a) (some s) t (execute_call p d a s ti dp e x t).1
  unfolding execute_call
  execute_call-Extends a s ti dp e x t =
      let c = call_of p d a s e x in
      inr (
        c,
        refl,
        refl,
        answered_calls a ti dp x (p.execute t.calls c) (record t { calls = c ∷ t.calls }),
      )

  execute_from-Extends :
      (oa : Option Action) (os : Option CapabilitySnapshot) (oti : Option TurnIdentity)
      (odp : Option DispatchPolicy) (oe : Option IdempotencyEnvelope) (r : Admission)
      (i : TurnInput) (t : Turn d.Store)
      → Extends oa os t (execute_from p d oa os oti odp oe r i t).1
  execute_from-Extends (some a) (some s) (some ti) (some dp) (some e) r i t =
      execute_call-Extends a s ti dp e _ t
  execute_from-Extends _ _ _ _ _ r i t = inl refl

  execute-Extends :
      (t : Turn d.Store) → Extends t.ctx.action t.ctx.snapshot t (phase_execute p d t).1
  unfolding phase_execute
  execute-Extends t =
      execute_from-Extends t.ctx.action t.ctx.snapshot t.ctx.turn_identity t.ctx.dispatch_policy
        t.ctx.envelope (admission_or_none t.ctx.admission_result) t.ctx.input_value t

  abbrev AllAuthorised : Turn d.Store → Type 0
  AllAuthorised t = All (IsAuthorised p) t.calls

  AllAuthorised-NoCall : (t t' : Turn d.Store) → NoCall t t' → AllAuthorised t → AllAuthorised t'
  AllAuthorised-NoCall t t' same h = subst (All (IsAuthorised p)) (sym same) h

  -- What a phase that keeps action and snapshot leaves admitted and unblocked.
  Same-Admitted : (t t' : Turn d.Store) → Same p d t t' → Admitted p d t → Admitted p d t'
  Same-Admitted t t' same h a s ea es = h a s (sym same.0 ∙ ea) (sym same.1 ∙ es)

  Same-Unblocked : (t t' : Turn d.Store) → Same p d t t' → Unblocked p d t → Unblocked p d t'
  Same-Unblocked t t' same h a ea = h a (sym same.0 ∙ ea)

  run_execute :
      (t : Turn d.Store)
      → AllAuthorised t
      → Admitted p d t
      → Unblocked p d t
      → AllAuthorised (run_phases p d (execute ∷ []) t).1
  run_execute t h admitted unblocked = rw (last-world p d t) (elim (execute-Extends t) [
    | inl same ↦ AllAuthorised-NoCall t (phase_execute p d t).1 same h
    | inr (c, ea, es, more) ↦ subst (All (IsAuthorised p)) (sym more) (
      record { admitted = admitted c.action c.snapshot ea es; unblocked = unblocked c.action ea },
      h,
    )
  ])

  -- A phase that calls nothing, and the phases after it from where it neither raised nor ended.
  run_quiet :
      (f : Phase) (fs : List Phase) (t : Turn d.Store)
      → NoCall t (phase_fn p d f t).1
      → AllAuthorised t
      → (is_raised (phase_fn p d f t).0 ≡ false
          → (phase_fn p d f t).1.ctx.result ≡ none
          → AllAuthorised (phase_fn p d f t).1
          → AllAuthorised (run_phases p d fs (phase_fn p d f t).1).1)
      → AllAuthorised (run_phases p d (f ∷ fs) t).1
  run_quiet f fs t same h rest =
      let h' = AllAuthorised-NoCall t (phase_fn p d f t).1 same h in
      elim (run_cases p d f fs t) [
        | inl e ↦ rw e h'
        | inr (no_raise, no_result, e) ↦ rw e (rest no_raise no_result h')
      ]

  run_dedupe :
      (t : Turn d.Store)
      → AllAuthorised t
      → Admitted p d t
      → Unblocked p d t
      → AllAuthorised (run_phases p d (dedupe ∷ execute ∷ []) t).1
  run_dedupe t h admitted unblocked =
      let t' = (phase_dedupe p d t).1 in
      let same = dedupe-Same p d t in
      run_quiet dedupe (execute ∷ []) t (dedupe_calls t) h λ _ _ h'.
        run_execute t' h' (Same-Admitted t t' same admitted) (Same-Unblocked t t' same unblocked)

  run_dispatch_policy :
      (t : Turn d.Store)
      → AllAuthorised t
      → Admitted p d t
      → AllAuthorised (run_phases p d (dispatch_policy ∷ dedupe ∷ execute ∷ []) t).1
  run_dispatch_policy t h admitted =
      let t' = (phase_dispatch_policy p d t).1 in
      run_quiet dispatch_policy _ t (dispatch_policy_calls t) h λ no_raise no_result h'.
        run_dedupe t' h' (Same-Admitted t t' (dispatch_policy-Same p d t) admitted)
          (policy-Unblocked p d t no_raise no_result)

  run-IsAuthorised :
      (t : Turn d.Store) → AllAuthorised t → AllAuthorised (run_phases p d turn_phases t).1
  run-IsAuthorised t h = run_quiet noop_or_reasoning _ t (noop_or_reasoning_calls t) h λ _ _ h₁.
      let t₁ = (phase_noop_or_reasoning p d t).1 in
      run_quiet snapshot _ t₁ (snapshot_calls t₁) h₁ λ _ _ h₂.
        let t₂ = (phase_snapshot p d t₁).1 in
        run_quiet admission _ t₂ (admission_calls t₂) h₂ λ no_raise no_result h₃.
          run_dispatch_policy (phase_admission p d t₂).1 h₃
            (admission-Admitted p d t₂ no_raise no_result)

  turn-IsAuthorised :
      (i : TurnInput) (a : Option Action) (w : d.Store × List Call)
      → All (IsAuthorised p) w.1
      → All (IsAuthorised p) (run_turn p d i a w).1.1
  unfolding run_turn
  turn-IsAuthorised i a (s, calls) h =
      run-IsAuthorised (record { ctx = initial_context p d i a; store = s; calls = calls }) h

  -- Over any sequence of turns, from any world whose executor calls are authorised, with any services
  -- and any dedupe store, one that fails included: every executor call is authorised. The admission
  -- service was asked about the call's action and snapshot and answered with a result that counts as
  -- admitted, and the dispatch policy of the call's action does not block.
  pub run_turns-IsAuthorised :
      (turns : List (TurnInput × Option Action)) (w : d.Store × List Call)
      → All (IsAuthorised p) w.1
      → All (IsAuthorised p) (run_turns p d turns w).1
  unfolding run_turns
  run_turns-IsAuthorised [] w h = h
  run_turns-IsAuthorised ((i, a) ∷ rest) w h =
      run_turns-IsAuthorised rest (run_turn p d i a w).1 (turn-IsAuthorised i a w h)
