-- ===== src/Security/Gateway/Mcp.antt =====
-- `call_mcp` and `list_mcp_for_agent` of gateway.py: the guards in front of an upstream call, and
-- the record of its result.
pub mod Guards
use agent_factor.Base.{ℕ, ◌+◌, String, ◌<>◌, Bool, true, false, not, ◌&&◌, ◌||◌, ◌==◌, string_eq}
use agent_factor.Base.{Option, none, some, List, [], ◌∷◌, if◌then◌else◌, find?}
use agent_factor.Base.{Result, ok, err, Exec, pure, raise, lift, continue, ◌>>=◌, ◌>>◌}
use agent_factor.Json.{
  Json, null, boolean, number, str, array, object, nil, end, Fields, get_field_or, Items, cons,
  field,
}
use agent_factor.Security.Model.{
  Effect, block, remind, record_only, State, Machine, allowed, ToolStatus,
}
use agent_factor.Security.Gateway.Config.{ServerConfig, GatewayConfig, ToolPolicy, effect_name}
use agent_factor.Security.Gateway.Loading.{load_config}
use agent_factor.Security.Gateway.Action.{
  SecurityAction, Principal, Agent, IntegrationMode, mcp, normalize_action,
}
use agent_factor.Security.Gateway.Policy.{Match, match_policy}
use agent_factor.Security.Gateway.Decisions.{
  Decision, Grant, Consumed, record_decision, consume, record_execution_result,
}
use agent_factor.Security.Gateway.Tools.{Discovered, discover_server, lookup_tool, tool_policy}

-- `MCPCallRequest`
pub record CallRequest : Type 0 where
  pub principal : Principal
  pub endpoint_id : String
  pub agent : Agent
  pub integration_mode : IntegrationMode
  pub project_id : String
  pub session_id : String
  pub cwd : String
  pub tool_call_id : Option String
  pub arguments : Fields

-- What `jsonschema.validate` does with the arguments: the last case is a schema that is not valid.
pub data Validation : Type 0 where
  conforms violates bad_schema : Validation

-- What the MCP client and the validator answer during one call: the tools that the server lists, the
-- result of the call (`none` where either raises), and the clock.
pub record Upstream : Type 0 where
  pub listed : Option (List Json)
  pub called : Option Fields
  pub validate : Fields → Fields → Validation
  pub now : ℕ
  pub duration_ms : ℕ

-- `bool(value)`
unfoldable pub truthy : Json → Bool
unfolding string_eq
truthy null = false
truthy (boolean b) = b
truthy (number n) = not (n == "0" || n == "0.0" || n == "-0.0")
truthy (str s) = not (s == "")
truthy (array nil) = false
truthy (array (cons j js)) = true
truthy (object end) = false
truthy (object (field k v fs)) = true

-- `not bool(result.get("isError", result.get("is_error", False)))`
unfoldable pub call_succeeded : Fields → Bool
unfolding truthy
call_succeeded result =
    not (truthy (get_field_or "isError" (get_field_or "is_error" (boolean false) result) result))

unfoldable pub server_of : String → List (String × ServerConfig) → Option ServerConfig
server_of k [] = none
server_of k ((j, c) ∷ servers) = if j == k then some c else server_of k servers

abbrev pub refusal : String → Match
refusal code = record { effect = block; reason_code = code; rule_id = none }

abbrev pub mcp_match : String → String → Effect → Match
mcp_match server_id tool_name effect = record {
  effect = effect;
  reason_code = "mcp_tool_" <> effect_name effect;
  rule_id = some (str ("mcp:" <> server_id <> ":" <> tool_name));
}

module _ (machine : Machine) where
  -- `_mcp_action`
  unfoldable pub mcp_action : String → String → CallRequest → Result SecurityAction
  mcp_action server_id tool_name r = normalize_action machine (record {
    principal = r.principal;
    endpoint_id = r.endpoint_id;
    agent = r.agent;
    integration_mode = r.integration_mode;
    context = record {
      project_id = r.project_id;
      session_id = r.session_id;
      cwd = r.cwd;
      tool_call_id = r.tool_call_id;
    };
    action = record {
      surface = mcp;
      operation = "call";
      resource = "mcp://" <> server_id <> "/" <> tool_name;
      params = r.arguments;
    };
  })

  -- A refusal is recorded as a blocking decision, and raised.
  refuse : {A : Type 0} → Upstream → SecurityAction → GatewayConfig → String → ℕ → Exec State A
  refuse up action config code status = do
    record_decision machine up.now action config (refusal code)
    raise code status

  -- The call itself: the `finally` records a result whether the upstream answered or not, and its own
  -- exception would take the place of the other.
  unfoldable pub perform : Upstream → Decision → Consumed → Exec State (Decision × Fields)
  perform up decision consumed = elim up.called [
    | none ↦ (do
      record_execution_result machine decision.id consumed.grant_id false (object end)
          up.duration_ms
      raise "mcp_upstream_call_failed" 502)
    | some result ↦ (do
      record_execution_result machine decision.id consumed.grant_id (call_succeeded result)
          (object result) up.duration_ms
      pure (record decision { execution_grant = none }, result))
  ]

  -- The part behind the checks of the tool: decision, consumption, call. A blocked call has no token.
  unfoldable pub authorize_call :
      Upstream → SecurityAction → GatewayConfig → Match → Exec State (Decision × Fields)
  authorize_call up action config m = do
    decision ← record_decision machine up.now action config m
    elim decision.execution_grant [
      | none ↦ raise "mcp_tool_blocked" 403
      | some g ↦ (do consumed ← consume machine up.now g.token action; perform up decision consumed)
    ]

  abbrev is_allowed : ToolStatus → Bool
  is_allowed allowed = true
  is_allowed _ = false

  -- The checks of a tool that the configuration names, against what the server lists.
  unfoldable pub call_listed :
      Upstream
      → SecurityAction
      → GatewayConfig
      → String
      → String
      → CallRequest
      → ToolPolicy
      → Option Discovered
      → Exec State (Decision × Fields)
  unfolding refuse
  call_listed up action config server_id tool_name r policy none =
      refuse up action config "mcp_tool_not_advertised" 403
  call_listed up action config server_id tool_name r policy (some tool) =
      if is_allowed tool.status
      then elim (up.validate r.arguments tool.input_schema) [
        | conforms ↦ authorize_call up action config (mcp_match server_id tool_name policy.effect)
        | violates ↦ refuse up action config "mcp_arguments_invalid" 400
        | bad_schema ↦ raise "SchemaError" 500
      ]
      else refuse up action config "mcp_schema_changed" 409

  -- `call_mcp`
  call_configured :
      Upstream
      → GatewayConfig
      → String
      → String
      → CallRequest
      → Option ServerConfig
      → Exec State (Decision × Fields)
  unfolding refuse
  call_configured up config server_id tool_name r none = do
    action ← lift (mcp_action server_id tool_name r)
    refuse up action config "mcp_server_unknown" 403
  call_configured up config server_id tool_name r (some server) =
      elim (tool_policy tool_name server.tools) [
        | none ↦ (do
          action ← lift (mcp_action server_id tool_name r)
          refuse up action config "mcp_tool_unknown" 403)
        | some policy ↦ (do
          found ← discover_server machine up.now up.listed server_id server
          action ← lift (mcp_action server_id tool_name r)
          call_listed up action config server_id tool_name r policy (lookup_tool tool_name found))
      ]

  unfoldable pub call_mcp :
      Upstream → String → String → CallRequest → Exec State (Decision × Fields)
  unfolding call_configured
  call_mcp up server_id tool_name r = do
    config ← load_config machine
    call_configured up config server_id tool_name r (server_of server_id config.mcp_servers)
