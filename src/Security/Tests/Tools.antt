-- ===== src/Security/Tests/Tools.antt =====
-- The theorems about rules and about the tools of MCP servers at concrete inputs.
use agent_factor.Base.{
  String, ◌<>◌, true, false, ◌≡◌, ◌↔◌, ◌⊎◌, refl, none, [], any, string_eq, option_eq, ne_of_test,
  rstrip_sep, nat_eq, ℕ_discrete,
}
use agent_factor.Security.Model.{record_only, McpToolVersion, ToolStatus}
use agent_factor.Security.Gateway.Config.{Rule, GatewayConfig}
use agent_factor.Security.Gateway.Action.{filesystem}
use agent_factor.Security.Gateway.Policy.{
  applies, match_policy, rule_match, default_match, resource_matches, directory,
}
use agent_factor.Security.Gateway.Policy.Matching.{
  IsFirstApplying, IsBelow, match_policy-first, resource_matches-within,
}
use agent_factor.Security.Samples.{shell_action}

abbrev version : String → ToolStatus → McpToolVersion
version schema_digest status = record {
  id = "srv:read:" <> schema_digest;
  server_id = "srv";
  tool_name = "read";
  schema_digest = schema_digest;
  input_schema = "{}";
  status = status;
  current = true;
  last_seen_at = none;
}

resource_matches-within_example :
    (resource_matches filesystem "/etcx" "/etc/" ≡ true)
    ↔ (("/etcx" ≡ directory "/etc/") ⊎ IsBelow "/etcx" (directory "/etc/"))
unfolding directory rstrip_sep nat_eq string_eq ℕ_discrete
resource_matches-within_example =
    resource_matches-within "/etcx" "/etc/" refl (ne_of_test "/etc" "/" refl)

abbrev rules : GatewayConfig
rules = record {
  policy_digest = "d";
  policy_version = "p1";
  default_effect = record_only;
  rules = [];
  mcp_servers = [];
}

match_policy-first_example :
    ((rule : Rule) × IsFirstApplying (shell_action "make") [] rule
      × (match_policy rules (shell_action "make") ≡ rule_match rule))
    ⊎ ((any (λ r. applies r (shell_action "make")) [] ≡ false)
        × (match_policy rules (shell_action "make") ≡ default_match rules))
match_policy-first_example = match_policy-first rules (shell_action "make")
