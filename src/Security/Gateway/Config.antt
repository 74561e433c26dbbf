-- ===== src/Security/Gateway/Config.antt =====
-- `normalize_config`, `_normalize_rule` and `_normalize_server` of gateway.py: the validation of a
-- gateway configuration.
pub mod Values
use Values.{invalid, require, effect_of, only_keys, dict_of, list_of, str_of}
use Values.{string_items}
unfoldable pub use Values.{effect_name, id_text}
use agent_factor.Base.{ℕ, String, ◌<>◌, Bool, true, false, not, ◌&&◌, ◌||◌}
use agent_factor.Base.{Option, none, some, List, [], ◌∷◌, map, starts_with, starts_with_any}
use agent_factor.Base.{◌==◌, contains, string_eq, if◌then◌else◌, ltb, leb, any, all, str_length}
use agent_factor.Base.{sorted_set, Result, ok, err, guard, map_result, Exec}
use agent_factor.Base.{and_then as ◌>>=◌, then_do as ◌>>◌}
use agent_factor.Json.{nil, end, field}
use agent_factor.Json.{
  Json, null, boolean, number, str, array, object, Fields, get_field, get_field_or,
}
use agent_factor.Json.{items_list, fields_list, from_items, from_fields, strings, optional_str}
use agent_factor.Json.{as_str?, as_list?, as_dict?}
use agent_factor.Security.Model.{Effect, record_only, remind, block, Machine, State, ConfigFile}
use agent_factor.Security.Model.{absent, unreadable, contents}
use agent_factor.Security.Gateway.Ids.{is_safe_id, is_sha256, digest}

-- A rule of the policy. `id` is kept as it stands in the document, where it need not be a text.
pub record Rule : Type 0 where
  pub id : Json
  pub effect : Effect
  pub principals : List String
  pub surfaces : List String
  pub operations : List String
  pub resource_prefixes : List String

pub record ToolPolicy : Type 0 where
  pub effect : Effect
  pub schema_digest : Option String

pub record ServerConfig : Type 0 where
  pub display_name : String
  pub transport : String
  pub transport_config : Json
  pub tools : List (String × ToolPolicy)

pub record GatewayConfig : Type 0 where
  pub policy_version : String
  pub default_effect : Effect
  pub rules : List Rule
  pub mcp_servers : List (String × ServerConfig)
  pub policy_digest : String

-- `prefixes` made absolute where the rule is about files.
abbrev resolve_prefixes : Machine → List String → List String → List String
resolve_prefixes machine surfaces items =
    if contains surfaces "filesystem"
    then map (λ item. if starts_with item "/" then machine.realpath item else item) items
    else items

abbrev rule_keys : List String
rule_keys = "id" ∷ "effect" ∷ "principals" ∷ "surfaces" ∷ "operations" ∷ "resource_prefixes" ∷ []

-- `_normalize_rule`
unfoldable pub normalize_rule : Machine → Json → Result Rule
unfolding only_keys dict_of effect_of string_items
normalize_rule machine rule = do
  fields ← dict_of rule
  require (only_keys rule_keys fields)
  let id = get_field_or "id" (str "") fields
  require (is_safe_id (id_text id))
  effect ← effect_of (get_field_or "effect" null fields)
  principals ← string_items "principals" fields
  surfaces ← string_items "surfaces" fields
  operations ← string_items "operations" fields
  prefixes ← string_items "resource_prefixes" fields
  ok (record {
    id = id;
    effect = effect;
    principals = sorted_set principals;
    surfaces = sorted_set surfaces;
    operations = sorted_set operations;
    resource_prefixes = sorted_set (resolve_prefixes machine (sorted_set surfaces) prefixes);
  })

-- `schema_digest is not None and not SHA256.fullmatch(schema_digest)`: the pattern raises
-- `TypeError` for what is no text.
schema_digest_of : Json → Result (Option String)
unfolding is_sha256
schema_digest_of null = ok none
schema_digest_of (str s) = do require (is_sha256 s); ok (some s)
schema_digest_of _ = err "TypeError" 500

normalize_tool : String × Json → Result (String × ToolPolicy)
unfolding only_keys dict_of effect_of schema_digest_of
normalize_tool (name, tool) = do
  require (is_safe_id name)
  fields ← dict_of tool
  require (only_keys ("effect" ∷ "schema_digest" ∷ []) fields)
  effect ← effect_of (get_field_or "effect" null fields)
  schema_digest ← schema_digest_of (get_field_or "schema_digest" null fields)
  ok (name, record { effect = effect; schema_digest = schema_digest })

has_field : String → Fields → Bool
has_field k fs = elim (get_field k fs) [ none ↦ false | some v ↦ true ]

-- The transport and its configuration: an address, or a command with its arguments.
normalize_transport : Fields → Option Json → Result (String × Json)
unfolding str_of list_of map_result has_field
normalize_transport fields (some url_value) = do
  require (not (has_field "command" fields || has_field "args" fields))
  url ← str_of url_value
  require (starts_with_any url ("http://127.0.0.1" ∷ "http://localhost" ∷ "https://" ∷ []))
  ok ("http", object (field "url" (str url) end))
normalize_transport fields none = do
  command ← str_of (get_field_or "command" null fields)
  require (not (command == ""))
  items ← list_of (get_field_or "args" (array nil) fields)
  args ← map_result str_of items
  ok ("stdio", object (field "command" (str command) (field "args" (strings args) end)))

-- `_normalize_server`
unfoldable pub normalize_server : String × Json → Result (String × ServerConfig)
unfolding only_keys dict_of str_of map_result normalize_tool normalize_transport
normalize_server (server_id, value) = do
  require (is_safe_id server_id)
  fields ← dict_of value
  require (only_keys ("display_name" ∷ "command" ∷ "args" ∷ "url" ∷ "tools" ∷ []) fields)
  display_name ← str_of (get_field_or "display_name" (str server_id) fields)
  require (ltb 0 (str_length display_name) && leb (str_length display_name) 128)
  tools ← dict_of (get_field_or "tools" (object end) fields)
  (transport, transport_config) ← normalize_transport fields (get_field "url" fields)
  policies ← map_result normalize_tool (fields_list tools)
  ok (
    server_id,
    record {
      display_name = display_name;
      transport = transport;
      transport_config = transport_config;
      tools = policies;
    },
  )
