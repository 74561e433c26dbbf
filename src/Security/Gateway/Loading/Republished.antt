-- ===== src/Security/Gateway/Loading/Republished.antt =====
-- What the gateway makes of a configuration that it has normalized itself.
use agent_factor.Base.{String, ◌≢◌, arith, List, ◌∷◌, map}
use agent_factor.Base.{ok, map_result, all, Result-cases, inl, inr, string_eq}
use agent_factor.Json.{Json, fields_list, from_fields, get_field}
use agent_factor.Security.Model.{Effect, Machine}
use agent_factor.Security.Gateway.Config.{Rule, ServerConfig, GatewayConfig, normalize_server}
use agent_factor.Security.Gateway.Config.Values.{only_keys, dict_of, list_of}
use agent_factor.Security.Gateway.Loading.{server_json, config_json, normalize_config}

-- The keys `transport` and `transport_config` of a normalized server are refused.
server_json-rejected :
    (entry : String × ServerConfig) (r : String × ServerConfig)
    → normalize_server (server_json entry) ≢ ok r
unfolding normalize_server server_json dict_of only_keys string_eq all
server_json-rejected (server_id, c) r h = ground arith

abbrev entries : String × ServerConfig → List (String × ServerConfig) → List (String × Json)
entries server servers = fields_list (from_fields (map server_json (server ∷ servers)))

entries-rejected :
    (server : String × ServerConfig) (servers r : List (String × ServerConfig))
    → map_result normalize_server (entries server servers) ≢ ok r
unfolding map_result
entries-rejected server servers r h = elim (Result-cases (normalize_server (server_json server))) [
  | inl (x, e) ↦ server_json-rejected server x e
  | inr (code, n, e) ↦ ground arith
]

-- A configuration with at least one MCP server, written out in its normalized form, is not accepted
-- again.
pub normalize_config-rejects_normalized :
    (machine : Machine) (version : String) (effect : Effect) (rules : List Rule)
    (server : String × ServerConfig) (servers : List (String × ServerConfig))
    (config : GatewayConfig)
    → normalize_config machine (config_json version effect rules (server ∷ servers)) ≢ ok config
unfolding normalize_config config_json dict_of list_of get_field string_eq
normalize_config-rejects_normalized machine version effect rules server servers config h =
    elim (Result-cases (map_result normalize_server (entries server servers))) [
      | inl (r, e) ↦ entries-rejected server servers r e
      | inr (code, n, e) ↦ ground arith
    ]
