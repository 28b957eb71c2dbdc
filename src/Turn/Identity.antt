-- ===== src/Turn/Identity.antt =====
-- The names of a turn: _build_turn_identity and _legacy_dispatch_dedupe_key
-- in agent_kernel/kernel/turn_engine.py.
use agent_kernel.Prelude.{Option, none, some, String, [], ◌∷◌}
use agent_kernel.Prelude.Text.{concat, ℤ, str_ℤ, Codec}
use agent_kernel.Contracts.{Action}
use agent_kernel.IdempotencyKey.{generate}
use agent_kernel.Turn.State.{
  TurnTriggerType, start, signal, child_join, recovery_resume, TurnInput, TurnIdentity,
}

abbrev pub trigger_text : TurnTriggerType → String
trigger_text start = "start"
trigger_text signal = "signal"
trigger_text child_join = "child_join"
trigger_text recovery_resume = "recovery_resume"

unfoldable pub legacy_dispatch_dedupe_key : String → String → ℤ → String
legacy_dispatch_dedupe_key run_id action_id based_on_offset =
    concat (run_id ∷ ":" ∷ action_id ∷ ":" ∷ str_ℤ based_on_offset ∷ [])

abbrev pub decision_ref_of : TurnInput → String
decision_ref_of i = concat ("decision:" ∷ i.run_id ∷ ":" ∷ str_ℤ i.based_on_offset ∷ [])

module _ (c : Codec) where
  unfoldable pub build_turn_identity : TurnInput → Action → Option String → TurnIdentity
  build_turn_identity i a snapshot_hash = record {
    decision_ref = decision_ref_of i;
    decision_fingerprint = concat (
        i.run_id
        ∷ ":"
        ∷ trigger_text i.trigger_type
        ∷ ":"
        ∷ a.action_id
        ∷ ":"
        ∷ str_ℤ i.based_on_offset
        ∷ []);
    intent_commit_ref = concat ("intent:" ∷ a.action_id ∷ ":" ∷ str_ℤ i.through_offset ∷ []);
    dispatch_dedupe_key = elim snapshot_hash [
      | some hash ↦ generate c i.run_id a hash
      | none ↦ legacy_dispatch_dedupe_key i.run_id a.action_id i.based_on_offset
    ];
  }
