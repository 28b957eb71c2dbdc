-- ===== src/Recovery/Reflection.antt =====
-- What the model sees in a reflection: agent_kernel/kernel/recovery/reflection_builder.py, and
-- _build_evidence_from_input in agent_kernel/kernel/recovery/gate.py.
use agent_kernel.Prelude.{ℕ, String, List, [], ◌∷◌, false, Option, none, some, if◌then◌else◌}
use agent_kernel.Prelude.Text.{or_text}
use agent_kernel.Prelude.Json.{Value, null, end, field, text_items}
use agent_kernel.Contracts.{RecoveryInput, ContextWindow, ScriptFailureEvidence, among}

abbrev text_or_null : Option String → Value
text_or_null none = null
text_or_null (some s) = Value.str s

-- `ReflectionContextBuilder.build`, given the action ids of the successful branches.
unfoldable pub build : ScriptFailureEvidence → List String → ContextWindow → ℕ → ContextWindow
build e branch_ids base_context reflection_round = record base_context {
  recovery_context = some (
      field "failure_kind" (Value.str e.failure_kind) (
        field "suspected_cause" (text_or_null e.suspected_cause) (
          field "budget_consumed_ratio" e.budget_consumed_ratio (
            field "original_script" (Value.str e.original_script) (
              field "partial_output" (text_or_null e.partial_output) (
                field "stderr_tail" (text_or_null e.stderr_tail) (
                  field "successful_branch_ids" (Value.list (text_items branch_ids)) (
                    field "reflection_round" (Value.int reflection_round) (
                      field "instruction"
                        (Value.str "Analyse the failure and produce a corrected script")
                        end)))))))));
}

abbrev known_kinds : List String
known_kinds =
    "heartbeat_timeout" ∷ "runtime_error" ∷ "permission_denied" ∷ "resource_exhausted"
    ∷ "output_validation_failed" ∷ []

abbrev text_of : Option String → String
text_of none = "unknown"
text_of (some s) = s

unfoldable pub build_evidence_from_input : RecoveryInput → ScriptFailureEvidence
build_evidence_from_input i = record {
  script_id = text_of (or_text i.failed_action_id (some "unknown"));
  failure_kind = if among i.reason_code known_kinds then i.reason_code else "runtime_error";
  budget_consumed_ratio = Value.float false 0;
  output_produced = false;
  suspected_cause = some i.reason_code;
  partial_output = none;
  original_script = "";
  stderr_tail = none;
}

-- `ContextWindow(system_instructions="")`
abbrev pub base_context : ContextWindow
base_context = record {
  system_instructions = "";
  tool_definitions = [];
  skill_definitions = [];
  history = [];
  current_state = end;
  memory_ref = none;
  recovery_context = none;
  inference_config = none;
}
