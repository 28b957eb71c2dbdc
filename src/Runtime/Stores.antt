-- ===== src/Runtime/Stores.antt =====
-- The small services of agent_kernel/kernel/minimal_runtime.py: StaticRecoveryGateService,
-- InMemoryDecisionDeduper and InMemoryRecoveryOutcomeStore, with RecoveryOutcome of
-- agent_kernel/kernel/contracts.py.
use agent_kernel.Prelude.{
  ◌≡◌, refl, arith, String, List, [], ◌∷◌, ◌++◌, Bool, Option, none, some, if◌then◌else◌, ◌==◌,
  get_last?,
}
use agent_kernel.Prelude.Dict.{Dict, lookup, insert, lookup-insert}
use agent_kernel.Prelude.Text.{concat}
use agent_kernel.Contracts.{RecoveryMode, RecoveryDecision, RecoveryInput, among}

pub record StaticRecoveryPolicy : Type 0 where
  pub mode : RecoveryMode
  pub reason_prefix : String

-- `policy or StaticRecoveryPolicy()`
abbrev pub default_policy : Option StaticRecoveryPolicy → StaticRecoveryPolicy
default_policy none = record { mode = RecoveryMode.abort; reason_prefix = "recovery" }
default_policy (some p) = p

unfoldable pub decide_statically : StaticRecoveryPolicy → RecoveryInput → RecoveryDecision
decide_statically p i = record {
  run_id = i.run_id;
  mode = p.mode;
  reason = concat (p.reason_prefix ∷ ":" ∷ i.reason_code ∷ []);
  compensation_action_id = none;
  escalation_channel_ref = none;
  corrected_action = none;
  retry_after_ms = none;
  failure_count = 0;
}

-- A set of fingerprints as a list without order.
unfoldable pub seen : String → List String → Bool
seen fingerprint fingerprints = among fingerprint fingerprints

unfoldable pub mark : String → List String → List String
mark fingerprint fingerprints =
    if among fingerprint fingerprints then fingerprints else fingerprint ∷ fingerprints

pub data OutcomeState : Type 0 where
  executed scheduled escalated aborted reflected : OutcomeState

pub record RecoveryOutcome : Type 0 where
  pub run_id : String
  pub action_id : Option String
  pub recovery_mode : RecoveryMode
  pub outcome_state : OutcomeState
  pub written_at : String
  pub operator_escalation_ref : Option String
  pub emitted_event_ids : List String

abbrev pub OutcomeStore : Type 0
OutcomeStore = Dict (List RecoveryOutcome)

-- `_outcomes_by_run.get(run_id, [])`
abbrev pub outcomes_of : String → OutcomeStore → List RecoveryOutcome
outcomes_of run_id s = elim (lookup run_id s) [ none ↦ [] | some outcomes ↦ outcomes ]

unfoldable pub write_outcome : RecoveryOutcome → OutcomeStore → OutcomeStore
write_outcome o s = insert o.run_id (outcomes_of o.run_id s ++ (o ∷ [])) s

unfoldable pub latest_for_run : String → OutcomeStore → Option RecoveryOutcome
latest_for_run run_id s = get_last? (outcomes_of run_id s)

module _ {ℓ} {A : Type ℓ} where
  last-append : (xs : List A) (x : A) → get_last? (xs ++ (x ∷ [])) ≡ some x
  last-append [] x = refl
  last-append (y ∷ []) x = refl
  last-append (y ∷ z ∷ xs) x = last-append (z ∷ xs) x

-- The latest outcome of a run is the one written last, whatever was written for other runs.
latest-write :
    (run_id : String) (o : RecoveryOutcome) (s : OutcomeStore)
    → latest_for_run run_id (write_outcome o s)
      ≡ (if o.run_id == run_id then some o else latest_for_run run_id s)
unfolding latest_for_run write_outcome
latest-write run_id o s =
    let there = lookup-insert o.run_id run_id (outcomes_of o.run_id s ++ (o ∷ [])) s in
    let last = last-append (outcomes_of o.run_id s) o in ground (arith, there, last)
