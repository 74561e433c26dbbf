-- ===== src/Security/Tests/Relisted.antt =====
-- A tool whose schema changed, listed directly and after a discovery that omits it.
use agent_factor.Base.{
  true, ◌≡◌, refl, ap, sym, ◌∙◌, err, ne_of_test, none, some, List, [], ◌∷◌, ok, Result,
}
use agent_factor.Base.{
  string_eq, option_eq, find?, update_where, contains, every_char, map_result, any, nat_eq,
  str_length, ℕ_discrete,
}
use agent_factor.Json.{Json, get_field, str, object, field, end}
use agent_factor.Store.{add, has_key, get}
use agent_factor.Security.Model.{
  McpToolVersion, ToolStatus, allowed, schema_changed, State, session_scope, record_only,
}
use agent_factor.Security.Gateway.Ids.{digest, canonical, is_safe_id}
use agent_factor.Security.Gateway.Config.{ServerConfig}
use agent_factor.Security.Gateway.Tools.{
  discover_server, store_server, store_tool, tool_status, is_current, retire, put_version, sweep,
  tool_parts, tool_policy, Discovered,
}
use agent_factor.Security.Gateway.Tools.Versions.{names, relisted_tool_allowed}
use agent_factor.Security.Samples.{tools_machine, start}

abbrev version : McpToolVersion
version = record {
  id = "srv:read:d1";
  server_id = "srv";
  tool_name = "read";
  schema_digest = "d1";
  input_schema = "{}";
  status = allowed;
  current = true;
  last_seen_at = none;
}

abbrev known : State
known = record start { db = record start.db { tools = version ∷ [] } }

abbrev config : ServerConfig
config = record {
  display_name = "srv";
  transport = "stdio";
  transport_config = object end;
  tools = ("read", record { effect = record_only; schema_digest = none }) ∷ [];
}

abbrev read : Json
read = object (field "name" (str "read") (field "inputSchema" (object end) end))

abbrev listing : List Json → State → Result (List Discovered) × State
listing payloads s = discover_server tools_machine 5 (some payloads) "srv" config s

abbrev between : State
between = (listing [] known).1

abbrev listed_as : ToolStatus → List Discovered
listed_as status = record { name = "read"; input_schema = end; status = status } ∷ []

listed_directly : (listing (read ∷ []) known).0 ≡ ok (listed_as schema_changed)
unfolding discover_server store_server session_scope get add tool_parts store_tool put_version
    retire sweep option_eq string_eq any find? update_where every_char digest canonical is_safe_id
    is_current tool_status has_key tool_policy str_length nat_eq ℕ_discrete get_field map_result
listed_directly = refl

omitted : (listing [] known).0 ≡ ok []
unfolding discover_server store_server session_scope get add tool_parts store_tool put_version
    retire sweep option_eq string_eq any find? update_where every_char digest canonical is_safe_id
    is_current tool_status has_key tool_policy str_length nat_eq ℕ_discrete get_field map_result
omitted = refl

listed_again : (listing (read ∷ []) between).0 ≡ ok (listed_as allowed)
unfolding discover_server store_server session_scope get add tool_parts store_tool put_version
    retire sweep option_eq string_eq any find? update_where every_char digest canonical is_safe_id
    is_current tool_status has_key tool_policy str_length nat_eq ℕ_discrete get_field map_result
listed_again = refl

abbrev replied : Result (List Discovered) → List Discovered
replied (ok found) = found
replied (err e n) = []

-- A listing that returns, with its reply.
returned :
    (payloads : List Json) (s : State) (found : List Discovered)
    → (listing payloads s).0 ≡ ok found
    → listing payloads s ≡ (ok (replied (listing payloads s).0), (listing payloads s).1)
returned payloads s found h =
    ap (λ r. (r, (listing payloads s).1)) (h ∙ ap (λ r. ok (replied r)) (sym h))

relisted_tool_allowed_example :
    (replied (listing (read ∷ []) known).0 ≡ listed_as schema_changed)
    × (replied (listing (read ∷ []) between).0 ≡ listed_as allowed)
unfolding tool_parts get_field is_safe_id digest canonical is_current find? string_eq tool_policy
    option_eq
relisted_tool_allowed_example =
    relisted_tool_allowed tools_machine "srv" config read "read" end "" "sha256:json" refl refl
      version known between (listing (read ∷ []) known).1 (listing (read ∷ []) between).1 5 5 5 []
      (replied (listing (read ∷ []) known).0) (replied (listing [] known).0)
      (replied (listing (read ∷ []) between).0) refl refl (ne_of_test "d1" "sha256:json" refl)
      (returned (read ∷ []) known (listed_as schema_changed) listed_directly)
      (returned [] known [] omitted) (ap (λ r. contains (names (replied r)) "read") omitted)
      (returned (read ∷ []) between (listed_as allowed) listed_again)
