-- ===== src/Security/Gateway/Loading.antt =====
-- `normalize_config` and `_load_config` of gateway.py: from the file to the configuration in force.
pub mod Republished
use agent_factor.Base.{String, Bool, Option, none, some, List, [], ◌∷◌, map, guard}
use agent_factor.Base.{Result, ok, err, map_result, Exec}
use agent_factor.Base.{and_then as ◌>>=◌, then_do as ◌>>◌}
use agent_factor.Json.{Json, null, str, array, object, nil, end, field, Fields, get_field_or, Items}
use agent_factor.Json.{fields_list, from_items, from_fields, strings, optional_str}
use agent_factor.Security.Model.{Effect, block, Machine, State, ConfigFile}
use agent_factor.Security.Model.{absent, unreadable, contents}
use agent_factor.Security.Gateway.Ids.{is_safe_id, digest}
use agent_factor.Security.Gateway.Config.{
  Rule, ToolPolicy, ServerConfig, GatewayConfig, effect_name, normalize_rule, normalize_server,
}
use agent_factor.Security.Gateway.Config.Values.{
  require, invalid, effect_of, only_keys, dict_of, list_of, str_of,
}

unfoldable pub rule_json : Rule → Json
rule_json r = object (
    field "id" r.id (
      field "effect" (str (effect_name r.effect)) (
        field "principals" (strings r.principals) (
          field "surfaces" (strings r.surfaces) (
            field "operations" (strings r.operations)
              (field "resource_prefixes" (strings r.resource_prefixes) end))))))

unfoldable pub tool_json : String × ToolPolicy → String × Json
tool_json (name, t) = (
  name,
  object (
      field "effect" (str (effect_name t.effect))
        (field "schema_digest" (optional_str t.schema_digest) end)),
)

unfoldable pub server_json : String × ServerConfig → String × Json
unfolding tool_json
server_json (server_id, c) = (
  server_id,
  object (
      field "display_name" (str c.display_name) (
        field "transport" (str c.transport) (
          field "transport_config" c.transport_config
            (field "tools" (object (from_fields (map tool_json c.tools))) end)))),
)

-- The dict `normalized` before its digest is added.
unfoldable pub config_json : String → Effect → List Rule → List (String × ServerConfig) → Json
unfolding rule_json server_json
config_json version effect rules servers = object (
    field "policy_version" (str version) (
      field "default_effect" (str (effect_name effect)) (
        field "rules" (array (from_items (map rule_json rules)))
          (field "mcp_servers" (object (from_fields (map server_json servers))) end))))

abbrev config_keys : List String
config_keys = "policy_version" ∷ "default_effect" ∷ "rules" ∷ "mcp_servers" ∷ []

module _ (machine : Machine) where
  unfoldable pub normalize_config : Json → Result GatewayConfig
  unfolding only_keys dict_of str_of list_of effect_of map_result config_json
  normalize_config raw = do
    fields ← dict_of raw
    require (only_keys config_keys fields)
    version ← str_of (get_field_or "policy_version" (str "") fields)
    require (is_safe_id version)
    default_effect ← effect_of (get_field_or "default_effect" (str "block") fields)
    rules ← list_of (get_field_or "rules" (array nil) fields)
    servers ← dict_of (get_field_or "mcp_servers" (object end) fields)
    normalized_rules ← map_result (normalize_rule machine) rules
    normalized_servers ← map_result normalize_server (fields_list servers)
    policy_digest ←
        digest machine (config_json version default_effect normalized_rules normalized_servers)
    ok (record {
      policy_version = version;
      default_effect = default_effect;
      rules = normalized_rules;
      mcp_servers = normalized_servers;
      policy_digest = policy_digest;
    })

  -- Without a file the policy is `default-deny`.
  default_document : Json
  default_document = object (
      field "policy_version" (str "default-deny") (
        field "default_effect" (str "block")
          (field "rules" (array nil) (field "mcp_servers" (object end) end))))

  document_of : ConfigFile → Result Json
  unfolding default_document
  document_of absent = ok default_document
  document_of unreadable = invalid
  document_of (contents text) = elim (machine.loads text) [ none ↦ invalid | some raw ↦ ok raw ]

  -- `_load_config`
  unfoldable pub load_config : Exec State GatewayConfig
  unfolding document_of
  load_config s = (do raw ← document_of s.config_file; normalize_config raw, s)
