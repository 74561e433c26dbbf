-- ===== src/Security/Gateway/Mcp/Guards.antt =====
-- An MCP call reaches the upstream server only behind every guard.
use agent_factor.Base.{String, ◌≡◌, ◌≢◌, refl, arith, Option, none, some, List}
use agent_factor.Base.{ok, Result-cases, Option-cases, inl, inr}
use agent_factor.Json.{Fields}
use agent_factor.Security.Model.{block, State, Machine, allowed}
use agent_factor.Security.Gateway.Config.{ServerConfig, GatewayConfig, ToolPolicy}
use agent_factor.Security.Gateway.Loading.{load_config}
use agent_factor.Security.Gateway.Action.{SecurityAction}
use agent_factor.Security.Gateway.Policy.{Match}
use agent_factor.Security.Gateway.Decisions.{Decision, Consumed, record_decision}
use agent_factor.Security.Gateway.Decisions.Issue.{issue}
use agent_factor.Security.Gateway.Tools.{Discovered, discover_server, lookup_tool, tool_policy}
use agent_factor.Security.Gateway.Mcp.{
  CallRequest, Upstream, conforms, server_of, mcp_match, perform, authorize_call, call_listed,
  call_mcp, mcp_action,
}

module _ (machine : Machine) (up : Upstream) where
  perform-ok :
      (d : Decision) (c : Consumed) (s : State) (x : Decision × Fields)
      → (perform machine up d c s).0 ≡ ok x
      → up.called ≡ some x.1
  unfolding perform
  perform-ok d c s x h = ground arith

  module _ (action : SecurityAction) (config : GatewayConfig) (m : Match) (s : State) where
    -- Only a decision that does not block has a token to consume.
    authorize_call-decision :
        (x : Decision × Fields)
        → (authorize_call machine up action config m s).0 ≡ ok x
        → (d : Decision) × ((record_decision machine up.now action config m s).0 ≡ ok d)
          × (d.execution_grant ≢ none)
    unfolding authorize_call
    authorize_call-decision x h =
        elim (Result-cases (record_decision machine up.now action config m s).0) [
          | inl (d, e) ↦ (d, e, λ n. ground arith)
          | inr (code, k, e) ↦ absurd (ground arith)
        ]

    authorize_call-called :
        (x : Decision × Fields)
        → (authorize_call machine up action config m s).0 ≡ ok x
        → up.called ≡ some x.1
    unfolding authorize_call perform
    authorize_call-called x h = ground arith

    authorize_call-ne-block :
        (x : Decision × Fields)
        → (authorize_call machine up action config m s).0 ≡ ok x
        → m.effect ≢ block
    authorize_call-ne-block x h blocks =
        let (d, e, granted) = authorize_call-decision x h in
        let i = issue machine up.now action config m s d e in granted (ground (arith, i.reply))

  -- What a call that returns has passed: the configuration names the server and the tool, its effect
  -- is not `block`, the server lists the tool with an allowed schema, and the arguments conform to it.
  pub record IsGuarded (server_id tool_name : String) (r : CallRequest) (s : State)
      (result : Fields) : Type 0 where
    pub config : GatewayConfig
    pub server : ServerConfig
    pub policy : ToolPolicy
    pub found : List Discovered
    pub tool : Discovered
    pub loaded : (load_config machine s).0 ≡ ok config
    pub server_named : server_of server_id config.mcp_servers ≡ some server
    pub tool_named : tool_policy tool_name server.tools ≡ some policy
    pub not_blocked : policy.effect ≢ block
    pub discovered : (discover_server machine up.now up.listed server_id server s).0 ≡ ok found
    pub advertised : lookup_tool tool_name found ≡ some tool
    pub schema_allowed : tool.status ≡ allowed
    pub arguments_conform : up.validate r.arguments tool.input_schema ≡ conforms
    pub answered : up.called ≡ some result

  call_listed-ok :
      (action : SecurityAction) (config : GatewayConfig) (server_id tool_name : String)
      (r : CallRequest) (policy : ToolPolicy) (o : Option Discovered) (s : State)
      (x : Decision × Fields)
      → (call_listed machine up action config server_id tool_name r policy o s).0 ≡ ok x
      → (tool : Discovered) × (o ≡ some tool)
        × (tool.status ≡ allowed)
        × (up.validate r.arguments tool.input_schema ≡ conforms)
        × ((authorize_call machine up action config
              (mcp_match server_id tool_name policy.effect)
              s).0
            ≡ ok x)
  unfolding call_listed
  call_listed-ok action config server_id tool_name r policy none s x h = absurd (ground arith)
  call_listed-ok action config server_id tool_name r policy (some tool) s x h =
      (tool, refl, ground arith, ground arith, ground arith)

  -- The part behind the lookups of the configuration.
  call_listed-IsGuarded :
      (server_id tool_name : String) (r : CallRequest) (s : State) (x : Decision × Fields)
      (config : GatewayConfig) (server : ServerConfig) (policy : ToolPolicy)
      (found : List Discovered) (action : SecurityAction) (t : State)
      → ((load_config machine s).0 ≡ ok config)
      → (server_of server_id config.mcp_servers ≡ some server)
      → (tool_policy tool_name server.tools ≡ some policy)
      → ((discover_server machine up.now up.listed server_id server s).0 ≡ ok found)
      → (call_listed machine up action config server_id tool_name r policy
          (lookup_tool tool_name found)
          t).0
        ≡ ok x
      → IsGuarded server_id tool_name r s x.1
  call_listed-IsGuarded server_id tool_name r s x config server policy found action t e e₁ e₂ e₃ h =
      let (tool, advertised, status, arguments, answer) =
        call_listed-ok action config server_id tool_name r policy (lookup_tool tool_name found) t x
          h in
      record {
        config = config;
        server = server;
        policy = policy;
        found = found;
        tool = tool;
        loaded = e;
        server_named = e₁;
        tool_named = e₂;
        not_blocked =
            authorize_call-ne-block action config (mcp_match server_id tool_name policy.effect) t x
              answer;
        discovered = e₃;
        advertised = advertised;
        schema_allowed = status;
        arguments_conform = arguments;
        answered =
            authorize_call-called action config (mcp_match server_id tool_name policy.effect) t x
              answer;
      }

  -- Every call that returns a result has passed all the guards.
  pub call_mcp-IsGuarded :
      (server_id tool_name : String) (r : CallRequest) (s : State) (x : Decision × Fields)
      → (call_mcp machine up server_id tool_name r s).0 ≡ ok x
      → IsGuarded server_id tool_name r s x.1
  unfolding call_mcp load_config
  call_mcp-IsGuarded server_id tool_name r s x h = elim (Result-cases (load_config machine s).0) [
    | inr (code, k, e) ↦ absurd (ground arith)
    | inl (config, e) ↦ elim (Option-cases (server_of server_id config.mcp_servers)) [
      | inl missing ↦ absurd (ground arith)
      | inr (server, e₁) ↦ elim (Option-cases (tool_policy tool_name server.tools)) [
        | inl missing ↦ absurd (ground arith)
        | inr (policy, e₂) ↦
            elim (Result-cases (discover_server machine up.now up.listed server_id server s).0) [
              | inr (code, k, e₃) ↦ absurd (ground arith)
              | inl (found, e₃) ↦ elim (Result-cases (mcp_action machine server_id tool_name r)) [
                | inr (code, k, e₄) ↦ absurd (ground arith)
                | inl (action, e₄) ↦
                    let t = (discover_server machine up.now up.listed server_id server s).1 in
                    call_listed-IsGuarded server_id tool_name r s x config server policy found
                      action t e e₁ e₂ e₃ (ground arith)
              ]
            ]
      ]
    ]
  ]
