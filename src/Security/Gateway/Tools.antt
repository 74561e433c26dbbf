-- ===== src/Security/Gateway/Tools.antt =====
-- The catalogue of MCP servers and tools: `_store_server`, `_store_tool`, `_discover_server` and the
-- table writes of `mcp_inventory` of gateway.py.
pub mod Status
pub mod Versions
use agent_factor.Base.{
  ℕ, String, ◌<>◌, Bool, true, false, not, ◌&&◌, ◌||◌, ◌==◌, string_eq, option_eq,
}
use agent_factor.Base.{
  map, Option, none, some, List, [], ◌∷◌, if◌then◌else◌, contains, find?, update_where,
}
use agent_factor.Base.{Result, ok, err, and_then, Exec, pure, raise, lift, continue, ◌>>=◌, ◌>>◌}
use agent_factor.Json.{Json, null, str, object, end, field, Fields, get_field_or, as_str?, as_dict?}
use agent_factor.Store.{get, add}
use agent_factor.Security.Model.{
  McpServer, ServerStatus, undiscovered, healthy, offline, unconfigured, McpToolVersion, ToolStatus,
  allowed, schema_changed, blocked, blocked_unknown, missing, Db, State, Machine, session_scope,
}
use agent_factor.Security.Gateway.Ids.{is_safe_id, canonical, digest}
use agent_factor.Security.Gateway.Config.{ToolPolicy, ServerConfig}

-- `_store_server`
put_server :
    String → ServerConfig → String → ServerStatus → Option String → Option ℕ → McpServer → McpServer
put_server server_id config config_digest status error discovered_at r = record r {
  display_name = config.display_name;
  transport = config.transport;
  config_digest = config_digest;
  status = status;
  last_error = error;
  last_discovered_at = elim discovered_at [ none ↦ r.last_discovered_at | some t ↦ some t ];
}

new_server : String → ServerConfig → String → ServerStatus → McpServer
new_server server_id config config_digest status = record {
  id = server_id;
  display_name = config.display_name;
  transport = config.transport;
  config_digest = config_digest;
  status = status;
  last_error = none;
  last_discovered_at = none;
}

unfoldable pub store_server :
    String → ServerConfig → String → ServerStatus → Option String → Option ℕ → Exec State (Unit {0})
unfolding put_server new_server
store_server server_id config config_digest status error discovered_at = session_scope (λ db.
    let put = put_server server_id config config_digest status error discovered_at in
    elim (get (λ r. r.id) server_id db.servers) [
      | none ↦
          and_then
            (add (λ r. r.id) (put (new_server server_id config config_digest status)) db.servers)
            (λ servers. ok (tt, record db { servers = servers }))
      | some r ↦
          ok (tt, record db { servers = update_where (λ x. x.id == server_id) put db.servers })
    ])

-- The version of the tool that was listed last.
unfoldable pub is_current : String → String → McpToolVersion → Bool
is_current server_id tool_name v = v.server_id == server_id && v.tool_name == tool_name && v.current

-- `policy["schema_digest"] == schema_digest` of a policy that is there
abbrev pub pins : Option ToolPolicy → String → Bool
pins none schema_digest = false
pins (some p) schema_digest = p.schema_digest == some schema_digest

-- The policy is there and pins no schema.
abbrev pub unpinned : Option ToolPolicy → Bool
unpinned none = false
unpinned (some p) = p.schema_digest == none

abbrev pub accepts : Option ToolPolicy → String → Bool
accepts policy schema_digest = unpinned policy || pins policy schema_digest

abbrev is_schema_changed : ToolStatus → Bool
is_schema_changed schema_changed = true
is_schema_changed _ = false

-- The status that the listed schema gets, from the current version if there is one.
unfoldable pub tool_status : Option McpToolVersion → Option ToolPolicy → String → ToolStatus
tool_status none policy schema_digest =
    if accepts policy schema_digest then allowed else blocked_unknown
tool_status (some v) policy schema_digest =
    if not (v.schema_digest == schema_digest)
    then (if pins policy schema_digest then allowed else schema_changed)
    else if is_schema_changed v.status && unpinned policy
    then schema_changed
    else if accepts policy schema_digest
    then allowed
    else blocked

-- `current.current = False` of the version with another schema
unfoldable pub retire : Option McpToolVersion → String → List McpToolVersion → List McpToolVersion
retire none schema_digest tools = tools
retire (some v) schema_digest tools =
    if v.schema_digest == schema_digest
    then tools
    else update_where (λ x. x.id == v.id) (λ x. record x { current = false }) tools

tool_id : String → String → String → String
tool_id server_id tool_name schema_digest = server_id <> ":" <> tool_name <> ":" <> schema_digest

-- The row of the listed schema becomes current: a new one, or the old one with a new status.
unfoldable pub put_version : McpToolVersion → ℕ → List McpToolVersion → Result (List McpToolVersion)
put_version row now tools = elim (get (λ r. r.id) row.id tools) [
  | none ↦ add (λ r. r.id) row tools
  | some r ↦ ok (
      update_where (λ x. x.id == row.id)
        (λ x. record x { status = row.status; current = true; last_seen_at = some now }) tools)
]

-- `payload.get("inputSchema", payload.get("input_schema"))`
schema_of : Fields → Json
schema_of payload = get_field_or "inputSchema" (get_field_or "input_schema" null payload) payload

-- `description` if it is a text, and else the empty text
text_or_empty : Json → String
text_or_empty j = elim (as_str? j) [ none ↦ "" | some s ↦ s ]

safe_name : Option String → Option String
safe_name none = none
safe_name (some s) = if is_safe_id s then some s else none

-- The name, the schema and the description of a listed tool that is not skipped.
unfoldable pub tool_parts : Json → Option (String × Fields × String)
unfolding schema_of text_or_empty safe_name
tool_parts payload = elim (as_dict? payload) [
  | none ↦ none
  | some fields ↦ elim (safe_name (as_str? (get_field_or "name" null fields))) [
    | none ↦ none
    | some name ↦ elim (as_dict? (schema_of fields)) [
      | none ↦ none
      | some schema ↦
          some (name, schema, text_or_empty (get_field_or "description" (str "") fields))
    ]
  ]
]

-- `server_config["tools"].get(name)`
unfoldable pub tool_policy : String → List (String × ToolPolicy) → Option ToolPolicy
tool_policy name [] = none
tool_policy name ((k, p) ∷ tools) = if k == name then some p else tool_policy name tools

-- An entry of the dict that `_discover_server` returns
pub record Discovered : Type 0 where
  pub name : String
  pub input_schema : Fields
  pub status : ToolStatus

-- The dict that the loop fills: a later entry of a name stands in front of an earlier one.
unfoldable pub lookup_tool : String → List Discovered → Option Discovered
unfolding find?
lookup_tool name found = find? (λ t. t.name == name) found

-- What was current and is not listed any more goes missing.
unfoldable pub sweep : String → List String → Exec State (Unit {0})
sweep server_id seen = session_scope (λ db. ok (
  tt,
  record db {
    tools =
        update_where (λ v. v.server_id == server_id && v.current && not (contains seen v.tool_name))
          (λ v. record v { current = false; status = missing }) db.tools;
  },
))

module _ (machine : Machine) where
  -- `_store_tool`
  unfoldable pub store_tool :
      String → String → Json → String → Option ToolPolicy → ℕ → Exec State ToolStatus
  unfolding tool_id
  store_tool server_id tool_name schema schema_digest policy now = session_scope (λ db.
      let current = find? (is_current server_id tool_name) db.tools in
      let status = tool_status current policy schema_digest in
      and_then (canonical machine schema) (λ input_schema.
        and_then
          (put_version
            (record {
              id = tool_id server_id tool_name schema_digest;
              server_id = server_id;
              tool_name = tool_name;
              schema_digest = schema_digest;
              input_schema = input_schema;
              status = status;
              current = true;
              last_seen_at = none;
            })
            now (retire current schema_digest db.tools))
          (λ tools. ok (status, record db { tools = tools }))))

  -- One tool of the upstream's list; what has no safe name or no schema is skipped.
  list_tool : String → ServerConfig → ℕ → List Discovered → Json → Exec State (List Discovered)
  list_tool server_id config now found payload = elim (tool_parts payload) [
    | none ↦ pure found
    | some (name, schema, description) ↦ (do
      schema_digest ← lift (
          digest machine (
            object
              (field "input_schema" (object schema) (field "description" (str description) end))))
      status ←
          store_tool server_id name (object schema) schema_digest (tool_policy name config.tools)
            now
      pure (record { name = name; input_schema = schema; status = status } ∷ found))
  ]

  list_all : String → ServerConfig → ℕ → List Discovered → List Json → Exec State (List Discovered)
  list_all server_id config now found [] = pure found
  list_all server_id config now found (payload ∷ rest) = do
    found' ← list_tool server_id config now found payload
    list_all server_id config now found' rest

  -- `_discover_server`, given what the upstream server lists, or `none` where it cannot be reached.
  unfoldable pub discover_server :
      ℕ → Option (List Json) → String → ServerConfig → Exec State (List Discovered)
  unfolding list_all list_tool
  discover_server now none server_id config = do
    config_digest ← lift (digest machine config.transport_config)
    store_server server_id config config_digest offline (some "mcp_upstream_unavailable") none
    raise "mcp_upstream_unavailable" 502
  discover_server now (some payloads) server_id config = do
    config_digest ← lift (digest machine config.transport_config)
    store_server server_id config config_digest healthy none (some now)
    found ← list_all server_id config now [] payloads
    sweep server_id (map (λ t. t.name) found)
    pure found
