-- ===== src/Security/Tests/Calls.antt =====
-- The theorem about MCP calls at a concrete call.
use agent_factor.Base.{String, ◌≡◌, refl, none, some, [], ◌∷◌, ok}
use agent_factor.Base.{
  string_eq, option_eq, nat_eq, any, all, find?, str_length, every_char, has_nul, map_result,
  sorted_set, update_where, count_if, ℕ_discrete, starts_with_any,
}
use agent_factor.Json.{str, object, field, end, Fields, get_field}
use agent_factor.Store.{add, has_key, get}
use agent_factor.Security.Model.{session_scope, record_only}
use agent_factor.Security.Gateway.Ids.{digest, canonical, is_safe_id}
use agent_factor.Security.Gateway.Config.{normalize_rule, normalize_server}
use agent_factor.Security.Gateway.Config.{id_text}
use agent_factor.Security.Gateway.Config.Values.{short_str_of}
use agent_factor.Base.{◌≢◌}
use agent_factor.Security.Gateway.Config.{ServerConfig, GatewayConfig}
use agent_factor.Security.Gateway.Loading.{load_config, normalize_config, config_json}
use agent_factor.Security.Gateway.Loading.Republished.{normalize_config-rejects_normalized}
use agent_factor.Security.Gateway.Action.{native, normalize_action, fingerprint, resolve_resource}
use agent_factor.Security.Gateway.Decisions.{
  Decision, consume, record_decision, record_execution_result, add_grant, decision_rows,
  consume_rows, is_usable,
}
use agent_factor.Security.Gateway.Tools.{
  discover_server, store_server, store_tool, tool_status, is_current, retire, put_version, sweep,
  tool_parts, tool_policy, lookup_tool,
}
use agent_factor.Security.Gateway.Mcp.{
  CallRequest, Upstream, conforms, call_mcp, call_listed, authorize_call, perform, mcp_action,
  server_of, truthy, call_succeeded,
}
use agent_factor.Security.Gateway.Mcp.Guards.{IsGuarded, call_mcp-IsGuarded}
use agent_factor.Security.Samples.{tools_machine, start}

abbrev read_call : CallRequest
read_call = record {
  principal = record { id = "alice"; authn = "local" };
  endpoint_id = "laptop";
  agent = record { name = "agent"; version = none };
  integration_mode = native;
  project_id = "p";
  session_id = "s";
  cwd = "/work";
  tool_call_id = none;
  arguments = end;
}

abbrev upstream : Upstream
upstream = record {
  listed = some (object (field "name" (str "read") (field "inputSchema" (object end) end)) ∷ []);
  called = some (field "content" (str "text") end);
  validate = λ arguments schema. conforms;
  now = 5;
  duration_ms = 1;
}

abbrev answer : Decision × Fields
answer = (
  record {
    id = "decision_0";
    effect = record_only;
    reason_code = "mcp_tool_record";
    rule_id = some (str "mcp:srv:read");
    action_fingerprint = "sha256:json";
    policy_digest = "sha256:json";
    policy_version = "p1";
    execution_grant = none;
  },
  field "content" (str "text") end,
)

call_read : (call_mcp tools_machine upstream "srv" "read" read_call start).0 ≡ ok answer
unfolding call_mcp load_config normalize_config normalize_server get_field is_safe_id digest
    server_of tool_policy discover_server store_server session_scope get add tool_parts store_tool
    put_version retire sweep mcp_action normalize_action nat_eq option_eq string_eq map_result all
    any count_if find? update_where sorted_set every_char has_nul starts_with_any str_length
    fingerprint resolve_resource id_text short_str_of normalize_rule add_grant consume consume_rows
    decision_rows is_usable record_decision record_execution_result canonical authorize_call
    call_listed call_succeeded perform truthy is_current lookup_tool tool_status has_key ℕ_discrete
call_read = refl

call_mcp-IsGuarded_example :
    IsGuarded tools_machine upstream "srv" "read" read_call start (field "content" (str "text") end)
call_mcp-IsGuarded_example =
    call_mcp-IsGuarded tools_machine upstream "srv" "read" read_call start answer call_read

abbrev read_server : String × ServerConfig
read_server = (
  "srv",
  record { display_name = "srv"; transport = "stdio"; transport_config = object end; tools = [] },
)

abbrev any_config : GatewayConfig
any_config = record {
  policy_digest = "d";
  policy_version = "p1";
  default_effect = record_only;
  rules = [];
  mcp_servers = read_server ∷ [];
}

normalize_config-rejects_normalized_example :
    normalize_config tools_machine (config_json "p1" record_only [] (read_server ∷ []))
    ≢ ok any_config
normalize_config-rejects_normalized_example =
    normalize_config-rejects_normalized tools_machine "p1" record_only [] read_server [] any_config
