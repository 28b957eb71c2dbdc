-- ===== src/Examples/Admissions.antt =====
-- An action that admission and the dispatch policy agree on.
use agent_kernel.Prelude.{◌≡◌, refl, true, false, none, some, [], ◌∷◌, ℕ}
use agent_kernel.Contracts.{Action, EffectClass, ExternalIdempotencyLevel}
use agent_kernel.Policy.Host.{resolve_dispatch_policy}
use agent_kernel.Runtime.Admission.{Floats, admit}
use agent_kernel.Runtime.Admission
use agent_kernel.Runtime.Admission.Agreement.{admit-resolve_dispatch_policy}
use agent_kernel.Examples.Recovery.{same_text}

-- A process of the command line, which admission takes for a remote service; no guarantee is asked.
abbrev remote_action : Action
remote_action = record {
  action_id = "a1";
  run_id = "run-1";
  action_type = "call";
  effect_class = EffectClass.idempotent_write;
  external_idempotency_level = some ExternalIdempotencyLevel.best_effort;
  input_json = none;
  policy_tags = "host:cli_process" ∷ [];
  timeout_ms = some 1000;
}

abbrev whole_numbers : Floats ℕ
whole_numbers = record {
  parse_finite_float = λ s. none;
  finite_number = λ v. none;
  exceeds = λ a b. false;
}

remote_action_admitted : (admit same_text whole_numbers remote_action).admitted ≡ true
unfolding admit Admission.evaluate_action_policy_denies
    Admission.requires_remote_idempotency_contract_block Admission.extract_max_cost_from_policy_tags
    Admission.extract_estimated_cost Admission.build_admitted_result
remote_action_admitted = refl

admit-resolve_dispatch_policy_example :
    (resolve_dispatch_policy same_text remote_action).should_block ≡ false
admit-resolve_dispatch_policy_example =
    admit-resolve_dispatch_policy same_text whole_numbers remote_action remote_action_admitted
