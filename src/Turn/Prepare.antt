-- ===== src/Turn/Prepare.antt =====
-- The first four phases of TurnEngine in agent_kernel/kernel/turn_engine.py: the action, the
-- snapshot, admission and the dispatch policy. None of them touches the dedupe store.
use agent_kernel.Prelude.{
  Option, none, some, Bool, true, false, String, List, [], ◌∷◌, if◌then◌else◌,
}
use agent_kernel.Prelude.Errors.{
  Outcome, Exec, ok, raised, Exn, type_error, is_value_error, pure, throw, ◌>>=◌, ◌>>◌,
}
use agent_kernel.Prelude.Text.{concat, str_ℤ}
use agent_kernel.Contracts.{Action}
use agent_kernel.Policy.Host.{resolve_dispatch_policy}
use agent_kernel.Snapshot.{CapabilitySnapshot, assert_snapshot_compatible}
use agent_kernel.Turn.State.{
  TurnState, TurnOutcomeKind, reasoning_failed, event, TurnInput, TurnIdentity, Admission,
  DedupePort, Services, Context, Turn, emit, required, read, asserting, modify,
}
use agent_kernel.Turn.Identity.{build_turn_identity}
use agent_kernel.Turn.Envelope.{plain_input, resolve_snapshot_input}
use agent_kernel.Turn.Results.{
  result_of, finish, end_noop, end_blocked, end_blocked_at, is_admitted,
}

-- `_evaluate_admission`
abbrev pub evaluate_admission : Services → Action → CapabilitySnapshot → Outcome Admission
evaluate_admission p a s = elim p.admit [ none ↦ raised type_error | some admit ↦ admit a s ]

module _ (p : Services) (d : DedupePort) where
  -- What the reasoning loop answers; whatever it or the snapshot builder raises is caught.
  abbrev reasoned : Outcome (List Action) → Context → Context
  reasoned (raised e) c =
      end_noop (emit (record { state = reasoning_failed; reason = none; metadata = [] }) c)
  reasoned (ok []) c = end_noop c
  reasoned (ok (a ∷ rest)) c = record c { action = some a }

  abbrev run_reasoning :
      (TurnInput → CapabilitySnapshot → String → String → Outcome (List Action))
      → TurnInput
      → Outcome (List Action)
  run_reasoning reason i = elim (p.build (plain_input i p.tenant_policy_ref p.permission_mode)) [
    | raised e ↦ raised e
    | ok s ↦
        reason i s p.model_ref
          (concat (i.run_id ∷ ":" ∷ str_ℤ i.based_on_offset ∷ ":reasoning" ∷ []))
  ]

  unfoldable pub phase_noop_or_reasoning : Exec (Turn d.Store) (Unit {0})
  phase_noop_or_reasoning = modify λ c. elim c.action [
    | some a ↦ c
    | none ↦ elim p.reason [
      | none ↦ end_noop c
      | some reason ↦
          reasoned (run_reasoning reason c.input_value) (emit (event TurnState.reasoning) c)
    ]
  ]

  -- The `except` branch; an exception of another class goes through.
  abbrev snapshot_failed : TurnIdentity → Exn → Exec (Turn d.Store) (Unit {0})
  snapshot_failed ti e =
      if is_value_error e
      then modify (λ c.
        finish (result_of TurnState.completed_noop TurnOutcomeKind.noop ti)
          (emit (event TurnState.completed_noop) c))
      else throw e

  abbrev built : TurnInput → Action → Outcome CapabilitySnapshot
  built i a = elim (resolve_snapshot_input p i a) [ raised e ↦ raised e | ok input ↦ p.build input ]

  unfoldable pub phase_snapshot : Exec (Turn d.Store) (Unit {0})
  phase_snapshot = do
    a ← read (λ c. required c.action)
    i ← read (λ c. ok c.input_value)
    let ti = build_turn_identity p.codec i a none
    modify (λ c. record c { turn_identity = some ti })
    elim (built i a) [
      | raised e ↦ snapshot_failed ti e
      | ok s ↦ modify (λ c. record c { snapshot = some s }) >> elim (assert_snapshot_compatible s) [
        | raised e ↦ snapshot_failed ti e
        | ok u ↦ modify λ c. emit (event TurnState.snapshot_built) (record c {
          turn_identity = some (build_turn_identity p.codec i a (some s.snapshot_hash));
        })
      ]
    ]

  -- `_is_admitted`'s answer: the turn goes on, or is blocked.
  unfoldable pub verdict : TurnIdentity → Outcome Bool → Exec (Turn d.Store) (Unit {0})
  verdict ti (raised e) = throw e
  verdict ti (ok true) = modify (emit (event TurnState.admission_checked))
  verdict ti (ok false) = modify (λ c. end_blocked ti (emit (event TurnState.admission_checked) c))

  -- The admission service's answer.
  unfoldable pub judged : TurnIdentity → Outcome Admission → Exec (Turn d.Store) (Unit {0})
  unfolding verdict
  judged ti (raised e) = throw e
  judged ti (ok r) =
      modify (λ c. record c { admission_result = some r }) >> verdict ti (is_admitted r)

  abbrev pub admission_from :
      Option Action
      → Option CapabilitySnapshot
      → Option TurnIdentity
      → Exec (Turn d.Store) (Unit {0})
  admission_from oa os oti =
      asserting oa λ a. asserting os λ s. asserting oti λ ti. judged ti (evaluate_admission p a s)

  unfoldable pub phase_admission : Exec (Turn d.Store) (Unit {0})
  unfolding judged
  phase_admission t = admission_from t.ctx.action t.ctx.snapshot t.ctx.turn_identity t

  unfoldable pub phase_dispatch_policy : Exec (Turn d.Store) (Unit {0})
  phase_dispatch_policy = do
    a ← read (λ c. required c.action)
    ti ← read (λ c. required c.turn_identity)
    let dp = resolve_dispatch_policy p.lower a
    modify (λ c. record c { dispatch_policy = some dp })
    if dp.should_block then modify (end_blocked_at ti dp dp.block_reason) else pure tt
