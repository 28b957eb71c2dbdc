-- ===== src/Turn/Once/Execute.antt =====
-- The execute phase: at most one call, under the envelope of the turn.
use agent_kernel.Prelude.{
  ◌≡◌, refl, Option, none, some, Bool, true, false, String, ◌∷◌, arith, Bool-cases, inl, inr, ◌⊎◌,
}
use agent_kernel.Prelude.Errors.{Outcome, Exec, ok, raised}
use agent_kernel.Contracts.{Action}
use agent_kernel.Dedupe.{IdempotencyEnvelope}
use agent_kernel.Turn.State.{DedupePort, Services, Turn, Call, TurnInput, TurnIdentity, Admission}
use agent_kernel.Turn.Results.{admission_or_none}
use agent_kernel.Turn.Dispatch.{
  on_alias, lose, acknowledge, leave_unknown, answered, call_of, execute_call, execute_from,
  phase_execute,
}
use agent_kernel.Snapshot.{CapabilitySnapshot}
use agent_kernel.Policy.Host.{DispatchPolicy}
use agent_kernel.Contracts.{ExecutionContext}
use agent_kernel.Prelude.Json.{Fields, Value, get_or, truthy}
use agent_kernel.Turn.Once.Ledger.{IsLedger, Quiet}

module _ (p : Services) (d : DedupePort) (l : IsLedger d) where
  open l use {has, answers, fresh, reserve_keeps, acknowledge_keeps, unknown_keeps}

  pub on_alias-Quiet :
      (mark : String → Exec d.Store (Unit {0}))
      → ((j : String) (s : d.Store) (k : String) → has s k ≡ true → has (mark j s).1 k ≡ true)
      → (alias : Option String) (t : Turn d.Store) → Quiet d l t (on_alias p d mark alias t).1
  unfolding on_alias
  on_alias-Quiet mark keeps none t = (refl, λ k h. h)
  on_alias-Quiet mark keeps (some j) t = (ground arith, λ k h. ground (arith, keeps j t.store k))

  pub lose-Quiet :
      (b : Bool) (ti : TurnIdentity) (alias : Option String) (t : Turn d.Store)
      → Quiet d l t (lose p d b ti alias t).1
  unfolding lose
  lose-Quiet true ti alias t =
      let t' : Turn d.Store = record t {
        store = (d.mark_unknown_effect ti.dispatch_dedupe_key t.store).1;
      } in
      let q = on_alias-Quiet d.mark_unknown_effect unknown_keeps alias t' in
      (
        ground (arith, q),
        λ k h. ground (arith, q.1 k, unknown_keeps ti.dispatch_dedupe_key t.store k),
      )
  lose-Quiet false ti alias t = (refl, λ k h. h)

  pub acknowledge-Quiet :
      (b : Bool) (a : Action) (ti : TurnIdentity) (dp : DispatchPolicy) (alias : Option String)
      (x : ExecutionContext) (t : Turn d.Store)
      → Quiet d l t (acknowledge p d b a ti dp alias x t).1
  unfolding acknowledge
  acknowledge-Quiet true a ti dp alias x t =
      let t' : Turn d.Store = record t {
        store = (d.mark_acknowledged ti.dispatch_dedupe_key none t.store).1;
      } in
      let q =
        on_alias-Quiet (λ k. d.mark_acknowledged k none) (λ j s k h. acknowledge_keeps j none s k h)
          alias t' in
      (
        ground (arith, q),
        λ k h. ground (arith, q.1 k, acknowledge_keeps ti.dispatch_dedupe_key none t.store k),
      )
  acknowledge-Quiet false a ti dp alias x t = (refl, λ k h. h)

  pub leave_unknown-Quiet :
      (b : Bool) (a : Action) (ti : TurnIdentity) (dp : DispatchPolicy) (alias : Option String)
      (m : Fields) (t : Turn d.Store)
      → Quiet d l t (leave_unknown p d b a ti dp alias m t).1
  unfolding leave_unknown
  leave_unknown-Quiet true a ti dp alias m t =
      let t' : Turn d.Store = record t {
        store = (d.mark_unknown_effect ti.dispatch_dedupe_key t.store).1;
      } in
      let q = on_alias-Quiet d.mark_unknown_effect unknown_keeps alias t' in
      (
        ground (arith, q),
        λ k h. ground (arith, q.1 k, unknown_keeps ti.dispatch_dedupe_key t.store k),
      )
  leave_unknown-Quiet false a ti dp alias m t = (refl, λ k h. h)

  pub answered-Quiet :
      (a : Action) (ti : TurnIdentity) (dp : DispatchPolicy) (x : ExecutionContext)
      (o : Outcome Fields) (t : Turn d.Store)
      → Quiet d l t (answered p d a ti dp x o t).1
  unfolding answered
  answered-Quiet a ti dp x (raised error) t =
      let q = lose-Quiet t.ctx.dedupe_available ti t.ctx.legacy_alias_key t in
      (ground (arith, q), λ k h. ground (arith, q.1 k))
  answered-Quiet a ti dp x (ok m) t =
      let t' : Turn d.Store = record t { ctx = record t.ctx { execute_result = some m } } in
      elim (Bool-cases (truthy (get_or "acknowledged" m (Value.bool false)))) [
        | inl yes_ ↦
            rw yes_ (acknowledge-Quiet t.ctx.dedupe_available a ti dp t.ctx.legacy_alias_key x t')
        | inr no_ ↦
            rw no_ (leave_unknown-Quiet t.ctx.dedupe_available a ti dp t.ctx.legacy_alias_key m t')
      ]

  -- No call, or one call more, under the envelope that the turn carries; what the store has it keeps.
  abbrev pub Calls : Option IdempotencyEnvelope → Turn d.Store → Turn d.Store → Type 0
  Calls oe t t' =
      Quiet d l t t'
      ⊎ ((c : Call) × (oe ≡ some c.envelope)
          × (t'.calls ≡ c ∷ t.calls)
          × ((k : String) → has t.store k ≡ true → has t'.store k ≡ true))

  pub execute_call-Calls :
      (a : Action) (s : CapabilitySnapshot) (ti : TurnIdentity) (dp : DispatchPolicy)
      (e : IdempotencyEnvelope) (x : ExecutionContext) (t : Turn d.Store)
      → Calls (some e) t (execute_call p d a s ti dp e x t).1
  unfolding execute_call
  execute_call-Calls a s ti dp e x t =
      let c = call_of p d a s e x in
      let t' : Turn d.Store = record t { calls = c ∷ t.calls } in
      let q = answered-Quiet a ti dp x (p.execute t.calls c) t' in inr (c, refl, q.0, q.1)

  pub execute_from-Calls :
      (oa : Option Action) (os : Option CapabilitySnapshot) (oti : Option TurnIdentity)
      (odp : Option DispatchPolicy) (oe : Option IdempotencyEnvelope) (r : Admission)
      (i : TurnInput) (t : Turn d.Store)
      → Calls oe t (execute_from p d oa os oti odp oe r i t).1
  execute_from-Calls (some a) (some s) (some ti) (some dp) (some e) r i t =
      execute_call-Calls a s ti dp e _ t
  execute_from-Calls _ _ _ _ _ r i t = inl (refl, λ k h. h)

  pub execute-Calls : (t : Turn d.Store) → Calls t.ctx.envelope t (phase_execute p d t).1
  unfolding phase_execute
  execute-Calls t =
      execute_from-Calls t.ctx.action t.ctx.snapshot t.ctx.turn_identity t.ctx.dispatch_policy
        t.ctx.envelope (admission_or_none t.ctx.admission_result) t.ctx.input_value t
