-- ===== src/Security/Gateway/Policy.antt =====
-- `_match_policy` and `_resource_matches` of gateway.py.
pub mod Matching
use agent_factor.Base.{String, ◌<>◌, Bool, true, false, not, ◌&&◌, ◌||◌, starts_with}
use agent_factor.Base.{Option, none, some, List, [], ◌∷◌, ◌==◌, contains, string_eq, if◌then◌else◌}
use agent_factor.Base.{any, rstrip_sep}
use agent_factor.Json.{Json}
use agent_factor.Security.Model.{Effect}
use agent_factor.Security.Gateway.Config.{Rule, GatewayConfig, effect_name}
use agent_factor.Security.Gateway.Action.{
  Surface, filesystem, surface_name, SecurityAction, ActionTarget, is_abs,
}

abbrev is_filesystem : Surface → Bool
is_filesystem filesystem = true
is_filesystem _ = false

-- The directory that a prefix names: `prefix.rstrip("/") or "/"`.
unfoldable pub directory : String → String
unfolding string_eq
directory prefix = let stripped = rstrip_sep prefix in if stripped == "" then "/" else stripped

-- A path lies in a directory.
unfoldable pub within : String → String → Bool
within resource dir =
    if dir == "/"
    then starts_with resource "/"
    else resource == dir || starts_with resource (dir <> "/")

unfoldable pub resource_matches : Surface → String → String → Bool
unfolding directory within
resource_matches surface resource prefix =
    if is_filesystem surface && is_abs prefix
    then within resource (directory prefix)
    else starts_with resource prefix

-- An empty list of a rule selects everything.
abbrev selects : List String → (List String → Bool) → Bool
selects [] test = true
selects (x ∷ xs) test = test (x ∷ xs)

-- None of the four `continue`s of the loop is reached.
unfoldable pub applies : Rule → SecurityAction → Bool
applies rule action =
    let target = action.action in
    selects rule.principals (λ l. contains l action.principal.id)
    && selects rule.surfaces (λ l. contains l (surface_name target.surface))
    && selects rule.operations (λ l. contains l target.operation)
    && selects rule.resource_prefixes (any (resource_matches target.surface target.resource))

-- The effect, the code of the reason and the rule's identifier.
pub record Match : Type 0 where
  pub effect : Effect
  pub reason_code : String
  pub rule_id : Option Json

abbrev pub rule_match : Rule → Match
rule_match r = record {
  effect = r.effect;
  reason_code = "policy_" <> effect_name r.effect;
  rule_id = some r.id;
}

abbrev pub default_match : GatewayConfig → Match
default_match config = record {
  effect = config.default_effect;
  reason_code = "policy_default_" <> effect_name config.default_effect;
  rule_id = none;
}

-- The loop over the rules
match_rules : GatewayConfig → SecurityAction → List Rule → Match
match_rules config action [] = default_match config
match_rules config action (r ∷ rules) =
    if applies r action then rule_match r else match_rules config action rules

unfoldable pub match_policy : GatewayConfig → SecurityAction → Match
unfolding match_rules
match_policy config action = match_rules config action config.rules
