-- ===== src/Security/Gateway/Tools/Status.antt =====
-- Which listed tools may be called: the status that `_store_tool` decides on.
use agent_factor.Base.{String, Bool, true, ◌&&◌, ◌||◌, ◌==◌, ◌≡◌, ◌≢◌, arith}
use agent_factor.Base.{string_eq, option_eq, Option, none, some}
use agent_factor.Security.Model.{McpToolVersion, allowed, schema_changed}
use agent_factor.Security.Gateway.Config.{ToolPolicy}
use agent_factor.Security.Gateway.Tools.{pins, unpinned, accepts, tool_status}

-- The current version has the schema, or the configuration pins the schema.
abbrev pub is_known : Option McpToolVersion → Option ToolPolicy → String → Bool
is_known none policy schema_digest = true
is_known (some v) policy schema_digest =
    v.schema_digest == schema_digest || pins policy schema_digest

-- A tool is allowed only if the configuration names it, and names no schema or the listed one.
-- Where a current version has another schema, the configuration pins the listed one.
pub tool_status-allowed :
    (current : Option McpToolVersion) (policy : Option ToolPolicy) (schema_digest : String)
    → tool_status current policy schema_digest ≡ allowed
    → (accepts policy schema_digest && is_known current policy schema_digest) ≡ true
unfolding tool_status
tool_status-allowed none policy d h = ground arith
tool_status-allowed (some w) policy d h = ground arith

-- A tool whose schema changed stays flagged while the same schema is listed and the configuration
-- pins none.
pub tool_status-schema_changed :
    (v : McpToolVersion) (policy : Option ToolPolicy) (schema_digest : String) (w : McpToolVersion)
    → unpinned policy ≡ true
    → v.schema_digest ≢ schema_digest
    → w.schema_digest ≡ schema_digest
    → w.status ≡ tool_status (some v) policy schema_digest
    → (tool_status (some v) policy schema_digest ≡ schema_changed)
      × (tool_status (some w) policy schema_digest ≡ schema_changed)
unfolding tool_status
tool_status-schema_changed v policy d w u changed same st = (ground arith, ground arith)
