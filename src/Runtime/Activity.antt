-- ===== src/Runtime/Activity.antt =====
-- The executors of agent_kernel/kernel/minimal_runtime.py: AsyncExecutorService, and
-- ActivityBackedExecutorService with the inputs of its activities (agent_kernel/kernel/contracts.py).
use agent_kernel.Prelude.{
  String, List, [], ◌∷◌, true, Option, none, some, if◌then◌else◌, ◌==◌, ◌||◌, or_else, is_some,
}
use agent_kernel.Prelude.Errors.{Exec, ok}
use agent_kernel.Prelude.Json.{Value, Fields, end, field, get_item, as_dict, as_str}
use agent_kernel.Contracts.{Action}
use text.Mathlib.Text.{starts_with}

pub record ToolActivityInput : Type 0 where
  pub run_id : String
  pub action_id : String
  pub tool_name : String
  pub arguments : Fields

pub record McpActivityInput : Type 0 where
  pub run_id : String
  pub action_id : String
  pub server_name : String
  pub operation : String
  pub arguments : Fields

pub data ActivityExecutionRoute : Type 0 where
  tool mcp : ActivityExecutionRoute

-- `action.input_json or {}`
abbrev pub payload_of : Action → Fields
payload_of a = elim a.input_json [ none ↦ end | some m ↦ m ]

abbrev non_empty : Option String → Option String
non_empty none = none
non_empty (some s) = if s == "" then none else some s

unfoldable pub first_non_empty_string : List Value → Option String
first_non_empty_string [] = none
first_non_empty_string (v ∷ values) = or_else (non_empty (as_str v)) (first_non_empty_string values)

abbrev string_or : String → Option String → String
string_or default none = default
string_or default (some s) = s

abbrev dict_or : Fields → Option Fields → Fields
dict_or default none = default
dict_or default (some m) = m

unfoldable pub resolve_activity_execution_route : Action → ActivityExecutionRoute
unfolding get_item
resolve_activity_execution_route a =
    if is_some (as_dict (get_item "mcp" (payload_of a)))
    then mcp
    else if (a.action_type == "mcp") || starts_with a.action_type "mcp."
    then mcp
    else tool

unfoldable pub build_tool_activity_input : Action → ToolActivityInput
unfolding first_non_empty_string
build_tool_activity_input a =
    let payload = payload_of a in
    record {
      run_id = a.run_id;
      action_id = a.action_id;
      tool_name =
          string_or a.action_type
            (first_non_empty_string (get_item "tool_name" payload ∷ get_item "name" payload ∷ []));
      arguments = dict_or payload (as_dict (get_item "arguments" payload));
    }

-- The dict under the key `mcp`, empty where there is none.
abbrev mcp_dict : Action → Fields
mcp_dict a = dict_or end (as_dict (get_item "mcp" (payload_of a)))

unfoldable pub build_mcp_activity_input : Action → McpActivityInput
unfolding first_non_empty_string
build_mcp_activity_input a =
    let payload = payload_of a in
    let inner = mcp_dict a in
    record {
      run_id = a.run_id;
      action_id = a.action_id;
      server_name = string_or "default_mcp_server" (
          first_non_empty_string (
            get_item "server_name" inner
            ∷ get_item "server_id" inner
            ∷ get_item "server_name" payload
            ∷ get_item "server_id" payload
            ∷ []));
      operation = string_or a.action_type (
          first_non_empty_string (
            get_item "operation" inner
            ∷ get_item "capability_id" inner
            ∷ get_item "name" inner
            ∷ get_item "operation" payload
            ∷ get_item "capability_id" payload
            ∷ []));
      arguments =
          dict_or (dict_or end (as_dict (get_item "arguments" payload)))
            (as_dict (get_item "arguments" inner));
    }

-- The gateway to the activities, which acts on a state of its own.
pub record ActivityGateway (W R : Type 0) : Type 0 where
  pub execute_tool : ToolActivityInput → Exec W R
  pub execute_mcp : McpActivityInput → Exec W R

module _ {W R : Type 0} (gateway : ActivityGateway W R) where
  unfoldable pub execute_activity : Action → Option String → Exec W R
  execute_activity a grant_ref = elim (resolve_activity_execution_route a) [
    | tool ↦ gateway.execute_tool (build_tool_activity_input a)
    | mcp ↦ gateway.execute_mcp (build_mcp_activity_input a)
  ]

abbrev ref_value : Option String → Value
ref_value none = Value.null
ref_value (some s) = Value.str s

-- The handler of AsyncExecutorService, where there is one, or the default result.
unfoldable pub execute_async :
    {W : Type 0}
    → Option (Action → Option String → Exec W Value)
    → Action
    → Option String
    → Exec W Value
execute_async (some handler) a grant_ref w = handler a grant_ref w
execute_async none a grant_ref w = (
  ok (
      Value.dict (
        field "action_id" (Value.str a.action_id) (
          field "grant_ref" (ref_value grant_ref) (
            field "effect_observed" (Value.bool true)
              (field "acknowledged" (Value.bool true) end))))),
  w,
)
