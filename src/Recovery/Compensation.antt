-- ===== src/Recovery/Compensation.antt =====
-- agent_kernel/kernel/recovery/compensation_registry.py: handlers that undo an action's effect, and how one
-- is executed. `guarded` tells whether a dedupe store is given, which is then the in-memory one; a handler
-- does not touch it. `randint` is the random jitter, from the delays before. An entry's numbers are
-- natural: a negative one acts as 0 everywhere.
pub mod Ledger
pub mod Attempts
pub mod Once
use agent_kernel.Prelude.{
  ℕ, zero, suc, ◌+◌, ◌-◌, ◌*◌, ◌^◌, max, String, List, [], ◌∷◌, Bool, true, false, Option, none,
  some, if◌then◌else◌, leb, is_some,
}
use agent_kernel.Prelude.Errors.{
  Outcome, Exec, ok, raised, pure, throw, ◌>>=◌, ◌>>◌, compensation_exhausted_error,
}
use agent_kernel.Prelude.Dict.{Dict, lookup, insert}
use agent_kernel.Contracts.{Action, effect_text}
use agent_kernel.Dedupe.{
  InMemoryDedupeStore, IdempotencyEnvelope, HostKind, reserve, mark_dispatched, mark_acknowledged,
  mark_unknown_effect,
}
use agent_kernel.IdempotencyKey.{generate_compensation_key}

-- How a call of a handler ends: a `TimeoutError` is the handler's own or that of `asyncio.wait_for`.
pub data Reply : Type 0 where
  returned timed_out transient failed : Reply

-- A handler answers by the action and the calls before, the latest first.
pub record CompensationEntry : Type 0 where
  pub effect_class : String
  pub compensate : Action → List Action → Reply
  pub description : String
  pub timeout_ms : ℕ
  pub max_attempts : ℕ
  pub backoff_base_ms : ℕ

abbrev pub CompensationRegistry : Type 0
CompensationRegistry = Dict CompensationEntry

unfoldable pub register : CompensationEntry → CompensationRegistry → CompensationRegistry
register e entries = insert e.effect_class e entries

unfoldable pub has_handler : String → CompensationRegistry → Bool
has_handler effect_class entries = is_some (lookup effect_class entries)

-- The ledger, the calls of handlers and the delays between them, each the latest first.
pub record Site : Type 0 where
  pub ledger : InMemoryDedupeStore
  pub calls : List Action
  pub delays : List ℕ

-- A call of the ledger.
abbrev pub on_ledger : {A : Type 0} → Exec InMemoryDedupeStore A → Exec Site A
on_ledger f s = let (o, l) = f s.ledger in (o, record s { ledger = l })

-- `_retry_delay_seconds`, in milliseconds
unfoldable pub retry_delay_ms : ℕ → ℕ → ℕ → ℕ
retry_delay_ms base_ms attempt jitter = max base_ms 1 * 2 ^ (attempt - 1) + jitter

abbrev pub key_of : Action → String
key_of a = generate_compensation_key (effect_text a.effect_class) a.action_id

abbrev pub envelope_of : Action → IdempotencyEnvelope
envelope_of a = record {
  dispatch_idempotency_key = key_of a;
  operation_fingerprint = key_of a;
  attempt_seq = 1;
  effect_scope = effect_text a.effect_class;
  capability_snapshot_hash = "compensation";
  host_kind = HostKind.local_process;
  peer_operation_id = none;
  policy_snapshot_ref = none;
  rule_bundle_hash = none;
}

-- Reserve the key, and mark it as dispatched: whether the key was free.
abbrev pub reserve_key : Action → Exec Site Bool
reserve_key a = do
  reservation ← on_ledger (reserve (envelope_of a))
  if reservation.accepted
      then (on_ledger (mark_dispatched (key_of a) none) >> pure true)
      else pure false

module _ (guarded : Bool) (randint : List ℕ → ℕ) where
  -- `asyncio.sleep` before the next attempt
  abbrev slept : CompensationEntry → ℕ → Site → Site
  slept e attempt s = record s {
    delays = retry_delay_ms e.backoff_base_ms attempt (randint s.delays) ∷ s.delays;
  }

  -- `mark_acknowledged` after a handler returned; the `try` catches what it raises.
  abbrev settled : Outcome (Unit {0}) → Site → Bool × Site
  settled (ok u) s = (true, s)
  settled (raised x) s = (false, s)

  abbrev mark_returned : Action → Site → Bool × Site
  mark_returned a s =
      if guarded
      then (let (o, s') = on_ledger (mark_acknowledged (key_of a) none) s in settled o s')
      else (true, s)

  -- The `while` loop, with the attempts that are left of `max(entry.max_attempts, 1)` and those made:
  -- whether it returned, and the site after it.
  unfoldable pub try_attempts : CompensationEntry → Action → ℕ → ℕ → Site → Bool × Site
  try_attempts e a zero attempt s = (false, s)
  try_attempts e a (suc left) attempt s =
      let called = record s { calls = a ∷ s.calls } in
      let rest = try_attempts e a left (suc attempt) (slept e (suc attempt) called) in
      elim (e.compensate a s.calls) [
        | returned ↦ mark_returned a called
        | timed_out ↦ if leb e.max_attempts (suc attempt) then (false, called) else rest
        | transient ↦ if leb e.max_attempts (suc attempt) then (false, called) else rest
        | failed ↦ (false, called)
      ]

  -- What follows the loop: an error of `mark_unknown_effect` is suppressed.
  abbrev concluded : Action → Bool → Bool × Site → Outcome Bool × Site
  concluded a raise_on_failure (true, s) = (ok true, s)
  concluded a raise_on_failure (false, s) =
      let s' = if guarded then (on_ledger (mark_unknown_effect (key_of a)) s).1 else s in
      (if raise_on_failure then raised compensation_exhausted_error else ok false, s')

  abbrev pub compensate_with : CompensationEntry → Action → Bool → Exec Site Bool
  compensate_with e a raise_on_failure s =
      concluded a raise_on_failure (try_attempts e a (max e.max_attempts 1) 0 s)

  unfoldable pub execute : CompensationRegistry → Action → Bool → Exec Site Bool
  unfolding try_attempts
  execute entries a raise_on_failure s = elim (lookup (effect_text a.effect_class) entries) [
    | none ↦ (ok false, s)
    | some e ↦
        (do
          free ← if guarded then reserve_key a else pure true
          if free then compensate_with e a raise_on_failure else pure true)
          s
  ]
