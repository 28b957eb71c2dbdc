-- ===== src/Turn/Dispatch.antt =====
-- The last two phases of TurnEngine in agent_kernel/kernel/turn_engine.py: the key is reserved, then
-- the executor is called.
use agent_kernel.Prelude.{
  Option, none, some, Bool, true, false, ◌&&◌, not, String, [], ◌∷◌, ◌==◌, if◌then◌else◌,
}
use agent_kernel.Prelude.Errors.{Outcome, Exec, ok, raised, Exn, pure, throw, ◌>>=◌, ◌>>◌}
use agent_kernel.Prelude.Json.{Value, Fields, get_or, truthy}
use agent_kernel.Contracts.{Action, ExecutionContext}
use agent_kernel.Dedupe.{HostKind, IdempotencyEnvelope, DedupeRecord, DedupeReservation, taken}
use agent_kernel.Policy.Host.{DispatchPolicy}
use agent_kernel.Snapshot.{CapabilitySnapshot}
use agent_kernel.Turn.State.{
  TurnState, TurnOutcomeKind, dedupe_degraded, TurnStateEvent, event, TurnInput, TurnIdentity,
  Admission, Call, DedupePort, Services, Turn, emit, asserting, modify, on_store, suppressed,
}
use agent_kernel.Turn.Identity.{legacy_dispatch_dedupe_key}
use agent_kernel.Turn.Envelope.{resolve_idempotency_envelope, build_execution_context}
use agent_kernel.Turn.Results.{
  result_of, finish, end_blocked_at, is_idempotent_write, resolve_dedupe_downgrade_scope, exn_name,
  build_recovery_pending_turn_result, admission_or_none,
}

module _ (p : Services) (d : DedupePort) where
  -- The event that tells of a store that did not answer.
  abbrev pub degraded_event : Exn → String → TurnStateEvent
  degraded_event error scope = record {
    state = dedupe_degraded;
    reason = some (exn_name error);
    metadata = ("from_effect_scope", "idempotent_write") ∷ ("to_effect_scope", scope) ∷ [];
  }

  -- `_reserve_with_degradation`: the reservation, the envelope, and whether the store answered.
  unfoldable pub reserve_with_degradation :
      Action
      → HostKind
      → IdempotencyEnvelope
      → Exec (Turn d.Store) (DedupeReservation × IdempotencyEnvelope × Bool)
  reserve_with_degradation a host_kind e t =
      let (r, t') = on_store (d.reserve_and_dispatch e none) t in
      let scope = resolve_dedupe_downgrade_scope host_kind in
      elim r [
        | ok reservation ↦ (ok (reservation, e, true), t')
        | raised error ↦
            if is_idempotent_write a.effect_class
            then (
              ok (taken, record e { effect_scope = scope }, false),
              record t' { ctx = emit (degraded_event error scope) t'.ctx },
            )
            else (raised error, t')
      ]

  abbrev pub granted : Option DedupeReservation → Bool
  granted none = false
  granted (some r) = r.accepted

  abbrev pub found : Outcome (Option DedupeRecord) → Bool
  found (ok (some r)) = true
  found _ = false

  -- The slot's mirror under the historical key; what it raises is suppressed.
  unfoldable pub mirror : String → IdempotencyEnvelope → Exec (Turn d.Store) (Unit {0})
  mirror legacy_key e = do
    r ← suppressed (
        on_store (
          d.reserve_and_dispatch (record e { dispatch_idempotency_key = legacy_key })
            e.peer_operation_id))
    if granted r then modify (λ c. record c { legacy_alias_key = some legacy_key }) else pure tt

  -- What follows the reservation.
  unfoldable pub settle :
      TurnIdentity
      → DispatchPolicy
      → String
      → DedupeReservation
      → IdempotencyEnvelope
      → Bool
      → Exec (Turn d.Store) (Unit {0})
  unfolding mirror
  settle ti dp legacy_key reservation e available = do
    modify (λ c. record c { envelope = some e; dedupe_available = available })
    if reservation.accepted
        then (if available && not (legacy_key == ti.dispatch_dedupe_key)
            then mirror legacy_key e
            else pure tt)
          >> modify (emit (event TurnState.dispatched))
        else modify (end_blocked_at ti dp none)

  -- What follows once no record stands under the historical key.
  unfoldable pub claim :
      Action
      → CapabilitySnapshot
      → TurnIdentity
      → DispatchPolicy
      → Admission
      → String
      → Exec (Turn d.Store) (Unit {0})
  unfolding reserve_with_degradation settle
  claim a s ti dp r legacy_key = do
    let e = resolve_idempotency_envelope p r ti a s dp.host_kind
    modify (λ c. record c { envelope = some e })
    (reservation, e', available) ← reserve_with_degradation a dp.host_kind e
    settle ti dp legacy_key reservation e' available

  -- The check of the historical key, and the claim.
  unfoldable pub check_and_claim :
      Action
      → CapabilitySnapshot
      → TurnIdentity
      → DispatchPolicy
      → Admission
      → TurnInput
      → Exec (Turn d.Store) (Unit {0})
  unfolding claim
  check_and_claim a s ti dp r i t =
      let legacy_key = legacy_dispatch_dedupe_key i.run_id a.action_id i.based_on_offset in
      if not (legacy_key == ti.dispatch_dedupe_key) && found (d.get legacy_key t.store)
      then modify (end_blocked_at ti dp none) t
      else claim a s ti dp r legacy_key t

  abbrev pub dedupe_from :
      Option Action
      → Option CapabilitySnapshot
      → Option TurnIdentity
      → Option DispatchPolicy
      → Admission
      → TurnInput
      → Exec (Turn d.Store) (Unit {0})
  dedupe_from oa os oti odp r i =
      asserting oa
        λ a. asserting os λ s. asserting oti λ ti. asserting odp λ dp. check_and_claim a s ti dp r i

  unfoldable pub phase_dedupe : Exec (Turn d.Store) (Unit {0})
  unfolding check_and_claim
  phase_dedupe t =
      dedupe_from t.ctx.action t.ctx.snapshot t.ctx.turn_identity t.ctx.dispatch_policy
        (admission_or_none t.ctx.admission_result) t.ctx.input_value t

  abbrev pub call_of : Action → CapabilitySnapshot → IdempotencyEnvelope → ExecutionContext → Call
  call_of a s e x = record {
    action = a;
    snapshot = s;
    envelope = e;
    execution_context = if p.takes_execution_context then some x else none;
  }

  -- A mark on the alias, if there is one; what it raises is suppressed.
  unfoldable pub on_alias :
      (String → Exec d.Store (Unit {0})) → Option String → Exec (Turn d.Store) (Unit {0})
  on_alias mark none = pure tt
  on_alias mark (some key) = suppressed (on_store (mark key)) >> pure tt

  -- The `except` branch, without its `raise`.
  unfoldable pub lose : Bool → TurnIdentity → Option String → Exec (Turn d.Store) (Unit {0})
  unfolding on_alias
  lose available ti alias =
      if available
      then suppressed (on_store (d.mark_unknown_effect ti.dispatch_dedupe_key))
        >> on_alias d.mark_unknown_effect alias
      else pure tt

  unfoldable pub acknowledge :
      Bool
      → Action
      → TurnIdentity
      → DispatchPolicy
      → Option String
      → ExecutionContext
      → Exec (Turn d.Store) (Unit {0})
  unfolding on_alias
  acknowledge available a ti dp alias x = do
    if available
        then on_store (d.mark_acknowledged ti.dispatch_dedupe_key none)
          >> on_alias (λ k. d.mark_acknowledged k none) alias
        else pure tt
    modify (emit (event TurnState.dispatch_acknowledged))
    modify (
        finish λ c.
          record (result_of TurnState.dispatch_acknowledged TurnOutcomeKind.dispatched ti c) {
            host_kind = some dp.host_kind;
            remote_policy_decision = dp.remote_policy_decision;
            action_commit = some (record {
              action_id = a.action_id;
              run_id = c.input_value.run_id;
              committed_at = p.now;
              execution_context = x;
            });
          })

  unfoldable pub leave_unknown :
      Bool
      → Action
      → TurnIdentity
      → DispatchPolicy
      → Option String
      → Fields
      → Exec (Turn d.Store) (Unit {0})
  unfolding on_alias
  leave_unknown available a ti dp alias m = do
    if available
        then on_store (d.mark_unknown_effect ti.dispatch_dedupe_key)
          >> on_alias d.mark_unknown_effect alias
        else pure tt
    modify (emit (event TurnState.effect_unknown))
    modify (emit (event TurnState.recovery_pending))
    modify (finish (build_recovery_pending_turn_result a ti m dp))

  -- What the executor's answer leads to.
  unfoldable pub answered :
      Action
      → TurnIdentity
      → DispatchPolicy
      → ExecutionContext
      → Outcome Fields
      → Exec (Turn d.Store) (Unit {0})
  unfolding lose acknowledge leave_unknown
  answered a ti dp x (raised error) t =
      (lose t.ctx.dedupe_available ti t.ctx.legacy_alias_key >> throw error) t
  answered a ti dp x (ok m) t =
      (if truthy (get_or "acknowledged" m (Value.bool false))
          then acknowledge t.ctx.dedupe_available a ti dp t.ctx.legacy_alias_key x
          else leave_unknown t.ctx.dedupe_available a ti dp t.ctx.legacy_alias_key m)
        (record t { ctx = record t.ctx { execute_result = some m } })

  -- `_execute_with_context`; the call is on record whether it returns or raises.
  unfoldable pub execute_call :
      Action
      → CapabilitySnapshot
      → TurnIdentity
      → DispatchPolicy
      → IdempotencyEnvelope
      → ExecutionContext
      → Exec (Turn d.Store) (Unit {0})
  unfolding answered
  execute_call a s ti dp e x t =
      let call = call_of a s e x in
      answered a ti dp x (p.execute t.calls call) (record t { calls = call ∷ t.calls })

  abbrev pub execute_from :
      Option Action
      → Option CapabilitySnapshot
      → Option TurnIdentity
      → Option DispatchPolicy
      → Option IdempotencyEnvelope
      → Admission
      → TurnInput
      → Exec (Turn d.Store) (Unit {0})
  execute_from oa os oti odp oe r i = asserting oa λ a. asserting os λ s. asserting oti λ ti.
      asserting odp
        λ dp. asserting oe λ e. execute_call a s ti dp e (build_execution_context i a s ti r e)

  unfoldable pub phase_execute : Exec (Turn d.Store) (Unit {0})
  unfolding execute_call
  phase_execute t =
      execute_from t.ctx.action t.ctx.snapshot t.ctx.turn_identity t.ctx.dispatch_policy
        t.ctx.envelope (admission_or_none t.ctx.admission_result) t.ctx.input_value t
