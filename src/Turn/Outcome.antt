-- ===== src/Turn/Outcome.antt =====
-- The outcome kind of a turn and the executor (agent_kernel/kernel/turn_engine.py).
use agent_kernel.Prelude.{
  ℕ, ◌+◌, ◌≡◌, refl, ◌∙◌, ap, Option, none, some, Bool, true, false, String, ◌⊎◌, inl, inr, arith,
  List, [], ◌∷◌, length, if◌then◌else◌, Bool-cases,
}
use agent_kernel.Prelude.Errors.{Outcome, ok, raised, is_raised}
use agent_kernel.Prelude.Json.{Fields, Value, get_or, truthy}
use agent_kernel.Contracts.{Action, ExecutionContext}
use agent_kernel.Dedupe.{IdempotencyEnvelope}
use agent_kernel.Snapshot.{CapabilitySnapshot}
use agent_kernel.Policy.Host.{DispatchPolicy}
use agent_kernel.Turn.State.{
  Admission, Call, DedupePort, Services, Turn, TurnInput, TurnIdentity, TurnResult, TurnOutcomeKind,
}
use agent_kernel.Turn.Envelope.{build_execution_context}
use agent_kernel.Turn.Engine.{
  Phase, noop_or_reasoning, snapshot, admission, dispatch_policy, dedupe, execute, turn_phases,
  phase_fn, run_phases, initial_context, run_turn,
}
use agent_kernel.Turn.Authority.Loop.{
  NoCall, noop_or_reasoning_calls, snapshot_calls, admission_calls, dispatch_policy_calls,
  dedupe_calls, answered_calls,
}
use agent_kernel.Turn.Results.{admission_or_none, build_recovery_pending_turn_result}
use agent_kernel.Turn.Prepare.{
  phase_noop_or_reasoning, phase_snapshot, phase_admission, phase_dispatch_policy,
}
use agent_kernel.Turn.Dispatch.{
  phase_dedupe, acknowledge, leave_unknown, answered, call_of, execute_call, execute_from,
  phase_execute,
}

-- The kinds of a turn that called the executor.
abbrev pub executed : TurnOutcomeKind → Bool
executed TurnOutcomeKind.dispatched = true
executed TurnOutcomeKind.recovery_pending = true
executed _ = false

-- No result, or one of a turn that called nothing.
abbrev idle : Option TurnResult → Bool
idle none = true
idle (some r) = if executed r.outcome_kind then false else true

module _ (p : Services) (d : DedupePort) where
  abbrev Idle : Turn d.Store → Type 0
  Idle t = idle t.ctx.result ≡ true

  noop_or_reasoning-Idle : (t : Turn d.Store) → Idle t → Idle (phase_noop_or_reasoning p d t).1
  unfolding phase_noop_or_reasoning
  noop_or_reasoning-Idle t h = ground arith

  snapshot-Idle : (t : Turn d.Store) → Idle t → Idle (phase_snapshot p d t).1
  unfolding phase_snapshot
  snapshot-Idle t h = ground arith

  admission-Idle : (t : Turn d.Store) → Idle t → Idle (phase_admission p d t).1
  unfolding phase_admission
  admission-Idle t h = ground arith

  dispatch_policy-Idle : (t : Turn d.Store) → Idle t → Idle (phase_dispatch_policy p d t).1
  unfolding phase_dispatch_policy
  dispatch_policy-Idle t h = ground arith

  dedupe-Idle : (t : Turn d.Store) → Idle t → Idle (phase_dedupe p d t).1
  unfolding phase_dedupe
  dedupe-Idle t h = ground arith

  abbrev done : Option TurnResult → Bool
  done none = false
  done (some r) = executed r.outcome_kind

  -- It raised, or left a result of a kind that tells of an execution.
  abbrev Executed : Outcome (Unit {0}) × Turn d.Store → Type 0
  Executed (o, t) = (is_raised o ≡ true) ⊎ (done t.ctx.result ≡ true)

  acknowledge-Executed :
      (b : Bool) (a : Action) (ti : TurnIdentity) (dp : DispatchPolicy) (alias : Option String)
      (x : ExecutionContext) (t : Turn d.Store)
      → Executed (acknowledge p d b a ti dp alias x t)
  unfolding acknowledge
  acknowledge-Executed true a ti dp (some k) x t = ground arith
  acknowledge-Executed true a ti dp none x t = ground arith
  acknowledge-Executed false a ti dp alias x t = inr refl

  leave_unknown-Executed :
      (b : Bool) (a : Action) (ti : TurnIdentity) (dp : DispatchPolicy) (alias : Option String)
      (m : Fields) (t : Turn d.Store)
      → Executed (leave_unknown p d b a ti dp alias m t)
  unfolding leave_unknown build_recovery_pending_turn_result
  leave_unknown-Executed true a ti dp (some k) m t = ground arith
  leave_unknown-Executed true a ti dp none m t = ground arith
  leave_unknown-Executed false a ti dp alias m t = inr refl

  answered-Executed :
      (a : Action) (ti : TurnIdentity) (dp : DispatchPolicy) (x : ExecutionContext)
      (o : Outcome Fields) (t : Turn d.Store)
      → Executed (answered p d a ti dp x o t)
  unfolding answered
  answered-Executed a ti dp x (raised e) t = inl (ground arith)
  answered-Executed a ti dp x (ok m) t =
      let t' : Turn d.Store = record t { ctx = record t.ctx { execute_result = some m } } in
      elim (Bool-cases (truthy (get_or "acknowledged" m (Value.bool false)))) [
        | inl yes_ ↦
            rw yes_
              (acknowledge-Executed t.ctx.dedupe_available a ti dp t.ctx.legacy_alias_key x t')
        | inr no_ ↦
            rw no_
              (leave_unknown-Executed t.ctx.dedupe_available a ti dp t.ctx.legacy_alias_key m t')
      ]

  -- One call was made, if the phase did not raise.
  abbrev Called : Turn d.Store → Outcome (Unit {0}) × Turn d.Store → Type 0
  Called t (o, t') = (is_raised o ≡ true) ⊎ (length t'.calls ≡ length t.calls + 1)

  execute_from-Called :
      (oa : Option Action) (os : Option CapabilitySnapshot) (oti : Option TurnIdentity)
      (odp : Option DispatchPolicy) (oe : Option IdempotencyEnvelope) (r : Admission)
      (i : TurnInput) (t : Turn d.Store)
      → Executed (execute_from p d oa os oti odp oe r i t)
        × Called t (execute_from p d oa os oti odp oe r i t)
  unfolding execute_call
  execute_from-Called (some a) (some s) (some ti) (some dp) (some e) r i t =
      let x = build_execution_context i a s ti r e in
      let c = call_of p d a s e x in
      let t' : Turn d.Store = record t { calls = c ∷ t.calls } in
      let same = answered_calls p d a ti dp x (p.execute t.calls c) t' in
      (answered-Executed a ti dp x (p.execute t.calls c) t', inr (ap length same ∙ omega arith))
  execute_from-Called _ _ _ _ _ r i t = (inl refl, inl refl)

  execute-Called :
      (t : Turn d.Store) → Executed (phase_execute p d t) × Called t (phase_execute p d t)
  unfolding phase_execute
  execute-Called t =
      execute_from-Called t.ctx.action t.ctx.snapshot t.ctx.turn_identity t.ctx.dispatch_policy
        t.ctx.envelope (admission_or_none t.ctx.admission_result) t.ctx.input_value t

  -- The calls that a turn's outcome tells of.
  abbrev pub told : Outcome TurnResult → ℕ
  told (raised e) = 0
  told (ok r) = if executed r.outcome_kind then 1 else 0

  abbrev Counts : ℕ → Outcome TurnResult × Turn d.Store → Type 0
  Counts n (o, t) = (is_raised o ≡ true) ⊎ (length t.calls ≡ n + told o)

  run_execute-Counts :
      (t : Turn d.Store) → Counts (length t.calls) (run_phases p d (execute ∷ []) t)
  unfolding run_phases
  run_execute-Counts t = ground (arith, execute-Called t)

  -- A phase that calls nothing, and the phases after it.
  run-Idle-Counts :
      (f : Phase) (fs : List Phase) (t : Turn d.Store)
      → NoCall p d t (phase_fn p d f t).1
      → Idle (phase_fn p d f t).1
      → ((phase_fn p d f t).1.ctx.result ≡ none
          → Counts (length (phase_fn p d f t).1.calls) (run_phases p d fs (phase_fn p d f t).1))
      → Counts (length t.calls) (run_phases p d (f ∷ fs) t)
  unfolding run_phases
  run-Idle-Counts f fs t same quiet rest = ground (arith, ap length same)

  fresh-Idle : (t : Turn d.Store) → t.ctx.result ≡ none → Idle t
  fresh-Idle t h = rw h refl

  run-Counts :
      (t : Turn d.Store)
      → t.ctx.result ≡ none
      → Counts (length t.calls) (run_phases p d turn_phases t)
  run-Counts t h =
      run-Idle-Counts noop_or_reasoning _ t (noop_or_reasoning_calls p d t)
        (noop_or_reasoning-Idle t (fresh-Idle t h))
        λ h₁.
          let t₁ = (phase_noop_or_reasoning p d t).1 in
          run-Idle-Counts snapshot _ t₁ (snapshot_calls p d t₁)
            (snapshot-Idle t₁ (fresh-Idle t₁ h₁))
            λ h₂.
              let t₂ = (phase_snapshot p d t₁).1 in
              run-Idle-Counts admission _ t₂ (admission_calls p d t₂)
                (admission-Idle t₂ (fresh-Idle t₂ h₂))
                λ h₃.
                  let t₃ = (phase_admission p d t₂).1 in
                  run-Idle-Counts dispatch_policy _ t₃ (dispatch_policy_calls p d t₃)
                    (dispatch_policy-Idle t₃ (fresh-Idle t₃ h₃))
                    λ h₄.
                      let t₄ = (phase_dispatch_policy p d t₃).1 in
                      run-Idle-Counts dedupe _ t₄ (dedupe_calls p d t₄)
                        (dedupe-Idle t₄ (fresh-Idle t₄ h₄))
                        λ h₅. run_execute-Counts (phase_dedupe p d t₄).1

  -- A turn that returns a result called the executor once if the outcome is dispatched or
  -- recovery_pending, and not at all if it is noop or blocked, whatever the services and the store.
  pub run_turn_calls :
      (i : TurnInput) (a : Option Action) (w : d.Store × List Call) {r : TurnResult}
      → (run_turn p d i a w).0 ≡ ok r
      → length (run_turn p d i a w).1.1 ≡ length w.1 + (if executed r.outcome_kind then 1 else 0)
  unfolding run_turn
  run_turn_calls i a (s, calls) h =
      let t : Turn d.Store = record { ctx = initial_context p d i a; store = s; calls = calls } in
      ground (arith, run-Counts t refl)
