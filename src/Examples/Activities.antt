-- ===== src/Examples/Activities.antt =====
-- An action for an MCP server, with its operation beside the nested dict, and one for a tool.
use agent_kernel.Prelude.{◌≡◌, refl, String, [], none, some}
use agent_kernel.Prelude.Json.{Value, Fields, end, field, get_item}
use agent_kernel.Prelude.Dict.{lookup, insert}
use agent_kernel.Contracts.{Action, EffectClass, RecoveryMode}
use agent_kernel.Runtime.Activity.{
  ActivityExecutionRoute, resolve_activity_execution_route, build_mcp_activity_input,
  build_tool_activity_input, first_non_empty_string,
}
use agent_kernel.Runtime.Stores.{
  RecoveryOutcome, OutcomeState, OutcomeStore, write_outcome, latest_for_run,
}

abbrev arguments : Fields
arguments = field "arguments" (Value.dict (field "path" (Value.str "/tmp") end)) end

abbrev with_payload : Fields → Action
with_payload m = record {
  action_id = "a1";
  run_id = "run-1";
  action_type = "list";
  effect_class = EffectClass.read_only;
  external_idempotency_level = none;
  input_json = some m;
  policy_tags = [];
  timeout_ms = none;
}

abbrev mcp_action : Action
mcp_action = with_payload (
    field "mcp"
      (Value.dict (field "server_name" (Value.str "") (field "server_id" (Value.str "files") end)))
      (field "operation" (Value.str "read") arguments))

mcp_route : resolve_activity_execution_route mcp_action ≡ ActivityExecutionRoute.mcp
unfolding resolve_activity_execution_route get_item
mcp_route = refl

mcp_input : build_mcp_activity_input mcp_action ≡ record {
  run_id = "run-1";
  action_id = "a1";
  server_name = "files";
  operation = "read";
  arguments = field "path" (Value.str "/tmp") end;
}
unfolding build_mcp_activity_input first_non_empty_string get_item
mcp_input = refl

tool_route : resolve_activity_execution_route (with_payload arguments) ≡ ActivityExecutionRoute.tool
unfolding resolve_activity_execution_route get_item
tool_route = refl

tool_name : (build_tool_activity_input (with_payload arguments)).tool_name ≡ "list"
unfolding build_tool_activity_input first_non_empty_string get_item
tool_name = refl

abbrev outcome : String → OutcomeState → RecoveryOutcome
outcome run_id state = record {
  run_id = run_id;
  action_id = none;
  recovery_mode = RecoveryMode.abort;
  outcome_state = state;
  written_at = "2024-01-01T00:00:00Z";
  operator_escalation_ref = none;
  emitted_event_ids = [];
}

abbrev two_runs : OutcomeStore
two_runs =
    write_outcome (outcome "run-2" OutcomeState.escalated)
      (write_outcome (outcome "run-1" OutcomeState.aborted) [])

latest_of_first : latest_for_run "run-1" two_runs ≡ some (outcome "run-1" OutcomeState.aborted)
unfolding latest_for_run write_outcome lookup insert
latest_of_first = refl
