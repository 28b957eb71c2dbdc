-- ===== src/Examples/Compensations.antt =====
-- Compensations with a handler that fails twice.
use agent_kernel.Prelude.{
  ◌≡◌, refl, ◌≤◌, ℕ, max, List, [], ◌∷◌, true, false, none, some, length, ◌+◌,
}
use agent_kernel.Prelude.Errors.{ok}
use agent_kernel.Prelude.Dict.{lookup, insert}
use agent_kernel.Contracts.{Action, EffectClass}
use agent_kernel.Dedupe.{DedupeState, get}
use agent_kernel.Dedupe
use agent_kernel.Recovery.Compensation.{
  CompensationEntry, CompensationRegistry, Reply, key_of, execute, register, try_attempts,
}
use agent_kernel.Recovery.Compensation
use agent_kernel.Recovery.Compensation.Ledger.{held, end_state}
use agent_kernel.Recovery.Compensation.Attempts.{calls_of, execute-length, execute-held}
use agent_kernel.Recovery.Compensation.Once.{empty_site, executed, run, AddsOnce, run-calls}
use agent_kernel.IdempotencyKey.{generate_compensation_key}

abbrev undo_write : Action → List Action → Reply
undo_write a [] = Reply.transient
undo_write a (b ∷ []) = Reply.timed_out
undo_write a _ = Reply.returned

abbrev undo_entry : CompensationEntry
undo_entry = record {
  effect_class = "compensatable_write";
  compensate = undo_write;
  description = "undo";
  timeout_ms = 30000;
  max_attempts = 3;
  backoff_base_ms = 1000;
}

abbrev pub entries : CompensationRegistry
entries = ("compensatable_write", undo_entry) ∷ []

abbrev write_action : Action
write_action = record {
  action_id = "a1";
  run_id = "run-1";
  action_type = "write";
  effect_class = EffectClass.compensatable_write;
  external_idempotency_level = none;
  input_json = none;
  policy_tags = [];
  timeout_ms = none;
}

abbrev no_jitter : List ℕ → ℕ
no_jitter delays = 7

third_attempt_returns : (execute true no_jitter entries write_action true empty_site).0 ≡ ok true
unfolding execute try_attempts lookup insert generate_compensation_key Compensation.retry_delay_ms
    Dedupe.reserve Dedupe.mark_dispatched Dedupe.mark_acknowledged Dedupe.get
    Dedupe.get_required_record
third_attempt_returns = refl

the_entry : lookup "compensatable_write" entries ≡ some undo_entry
unfolding lookup
the_entry = refl

free_key : get (key_of write_action) empty_site.ledger ≡ none
unfolding get lookup
free_key = refl

execute-length_example :
    length (execute false no_jitter entries write_action true empty_site).1.calls
    ≤ length empty_site.calls + max undo_entry.max_attempts 1
execute-length_example =
    execute-length no_jitter entries write_action true empty_site false undo_entry the_entry

execute-held_example :
    held
      (key_of write_action)
      (execute true no_jitter entries write_action true empty_site).1.ledger
    ≡ some (end_state (execute true no_jitter entries write_action true empty_site).0)
execute-held_example =
    execute-held no_jitter entries write_action true empty_site undo_entry the_entry free_key

run-calls_example :
    let s = run no_jitter entries ((write_action, true) ∷ []) empty_site in
    let t = executed no_jitter entries write_action false s in
    AddsOnce
      (max undo_entry.max_attempts 1)
      (calls_of (key_of write_action) s.calls)
      (calls_of (key_of write_action) t.calls)
    × (calls_of (key_of write_action) (run no_jitter entries ((write_action, true) ∷ []) t).calls
        ≡ calls_of (key_of write_action) t.calls)
run-calls_example =
    run-calls no_jitter entries ((write_action, true) ∷ []) ((write_action, true) ∷ []) write_action
      false undo_entry the_entry
