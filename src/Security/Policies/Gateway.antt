-- ===== src/Security/Policies/Gateway.antt =====
-- `verify_active_gateway` of policy.py: does the file of the gateway hold the published policy?
use agent_factor.Base.{String, Bool, ◌&&◌, none, some}
use agent_factor.Base.{◌==◌, string_eq, find?}
use agent_factor.Base.{Result, ok, err, and_then, Exec, gets, lift, ◌>>=◌}
use agent_factor.Json.{str}
use agent_factor.Store.{get}
use agent_factor.Security.Model.{
  Db, State, Machine, ConfigFile, absent, unreadable, contents, session_scope,
}
use agent_factor.Security.Access.{compare_digest}
use agent_factor.Security.Gateway.Config.{GatewayConfig}
use agent_factor.Security.Gateway.Loading.{normalize_config, config_json}
use agent_factor.Security.Policies.{canonical, digest}
use agent_factor.Security.Policies.Publication.{bundle_published}

-- The dict that is returned; `healthy` stands for the status `healthy`, otherwise `drifted`.
pub record GatewayCheck : Type 0 where
  pub policy_id : String
  pub healthy : Bool
  pub expected_digest : String
  pub actual_digest : String

-- The configuration that the published bundle of the active revision holds.
unfoldable pub expected_rows : String → Db → Result (String × Db)
expected_rows policy_id db = elim (get (λ p. p.id) policy_id db.policies) [
  | none ↦ err "active_policy_not_found" 404
  | some policy ↦ elim policy.active_revision_id [
    | none ↦ err "active_policy_not_found" 404
    | some revision_id ↦
        elim (find? (λ b. b.revision_id == revision_id && bundle_published b) db.bundles) [
          | none ↦ err "published_policy_bundle_not_found" 404
          | some bundle ↦ ok (bundle.gateway_config, db)
        ]
  ]
]

module _ (machine : Machine) where
  -- The canonical text of what was read; where the normalization raises, it is empty.
  canonical_config : Result GatewayConfig → Result String
  canonical_config (err _ _) = ok ""
  canonical_config (ok config) =
      canonical machine
        (config_json config.policy_version config.default_effect config.rules config.mcp_servers)

  unfoldable pub actual_config : ConfigFile → Result String
  unfolding canonical_config
  actual_config absent = ok ""
  actual_config unreadable = ok ""
  actual_config (contents text) = elim (machine.loads text) [
    | none ↦ ok ""
    | some raw ↦ canonical_config (normalize_config machine raw)
  ]

  check_config : String → String → String → Result GatewayCheck
  check_config policy_id expected actual = and_then (compare_digest expected actual) (λ same.
      and_then (digest machine (str expected)) (λ expected_digest.
        and_then (digest machine (str actual)) (λ actual_digest. ok (record {
          policy_id = policy_id;
          healthy = same;
          expected_digest = expected_digest;
          actual_digest = actual_digest;
        }))))

  -- `verify_active_gateway`
  unfoldable pub verify_active_gateway : String → Exec State GatewayCheck
  unfolding check_config
  verify_active_gateway policy_id = do
    expected ← session_scope (expected_rows policy_id)
    file ← gets (λ s. s.config_file)
    lift (and_then (actual_config file) (check_config policy_id expected))
