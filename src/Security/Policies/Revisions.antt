-- ===== src/Security/Policies/Revisions.antt =====
-- `create_policy`, `policies`, `revisions` and `create_revision` of policy.py.
pub mod Versions
use agent_factor.Base.{
  ℕ, ◌+◌, String, ◌<>◌, Bool, true, false, not, ◌||◌, ◌&&◌, Option, none, some, List, [], ◌∷◌, ◌++◌,
  map, max,
}
use agent_factor.Base.{
  ◌==◌, string_eq, nat_eq, if◌then◌else◌, filter, ltb, str_length, strip, decimal, any,
}
use agent_factor.Base.{Result, ok, err, Exec, ◌>>=◌}
use agent_factor.Base.{and_then, then_do}
use agent_factor.Json.{Json, Fields, str, array, object, end, field, from_items, from_fields}
use agent_factor.Store.{get, add, integrity_error}
use agent_factor.Security.Model.{
  Db, State, Machine, SecurityPolicy, PolicyStatus, PolicyRevision, RevisionStatus, session_scope,
  draw,
}
use agent_factor.Security.Gateway.Ids.{is_safe_id}
use agent_factor.Security.Gateway.Config.{GatewayConfig, effect_name}
use agent_factor.Security.Gateway.Loading.{normalize_config, rule_json, server_json}
use agent_factor.Security.Policies.{canonical, digest}

-- `SecurityPolicyRevisionCreateRequest`: the rules of the six lists as `model_dump` gives them.
pub record RevisionRequest : Type 0 where
  pub default_effect : String
  pub rules : List Json
  pub mcp_servers : Fields
  pub data_rules : List Json
  pub egress_rules : List Json
  pub declassification_rules : List Json
  pub network_routes : List Json
  pub credentials : List Json
  pub model_providers : List Json

-- `create_policy`
unfoldable pub create_policy : String → String → Exec State SecurityPolicy
create_policy id display_name =
    let row : SecurityPolicy = record {
      id = id;
      display_name = strip display_name;
      status = PolicyStatus.draft;
      active_revision_id = none;
    } in
    session_scope (λ db.
      if not (is_safe_id id) || strip display_name == "" || ltb 128 (str_length display_name)
      then err "policy_identity_invalid" 400
      else elim (get (λ p. p.id) id db.policies) [
        | some _ ↦ err "policy_already_exists" 409
        | none ↦
            and_then (add (λ p. p.id) row db.policies)
              (λ policies. ok (row, record db { policies = policies }))
      ])

abbrev pub of_policy : String → PolicyRevision → Bool
of_policy policy_id r = r.policy_id == policy_id

-- `revisions`: by falling version
unfoldable pub insert_version : PolicyRevision → List PolicyRevision → List PolicyRevision
insert_version r [] = r ∷ []
insert_version r (q ∷ rows) =
    let rest = q ∷ insert_version r rows in if ltb r.version q.version then rest else r ∷ q ∷ rows

unfoldable pub by_version : List PolicyRevision → List PolicyRevision
unfolding insert_version
by_version [] = []
by_version (r ∷ rows) = insert_version r (by_version rows)

unfoldable pub revisions : String → Db → Result (List PolicyRevision)
unfolding by_version
revisions policy_id db = elim (get (λ p. p.id) policy_id db.policies) [
  | none ↦ err "policy_not_found" 404
  | some _ ↦ ok (by_version (filter (of_policy policy_id) db.revisions))
]

-- The version after the latest one of the policy.
unfoldable pub next_version : List PolicyRevision → ℕ
next_version [] = 1
next_version (latest ∷ _) = latest.version + 1

-- The flush of a revision: its identifier is new, and so is its version of the policy.
unfoldable pub add_revision : PolicyRevision → List PolicyRevision → Result (List PolicyRevision)
add_revision row rows =
    if any (λ r. r.policy_id == row.policy_id && r.version == row.version) rows
    then err integrity_error 500
    else add (λ r. r.id) row rows

module _ (machine : Machine) where
  open machine use {uuid_hex}

  abbrev raw_document : String → ℕ → RevisionRequest → Json
  raw_document policy_id version request = object (
      field "policy_version" (str (policy_id <> ".v" <> decimal version)) (
        field "default_effect" (str request.default_effect) (
          field "rules" (array (from_items request.rules))
            (field "mcp_servers" (object request.mcp_servers) end))))

  -- The normalized configuration with the rules of the other services.
  unfoldable pub document_json : GatewayConfig → RevisionRequest → Json
  document_json config request = object (
      field "policy_version" (str config.policy_version) (
        field "default_effect" (str (effect_name config.default_effect)) (
          field "rules" (array (from_items (map rule_json config.rules))) (
            field "mcp_servers" (object (from_fields (map server_json config.mcp_servers))) (
              field "data_rules" (array (from_items request.data_rules)) (
                field "egress_rules" (array (from_items request.egress_rules)) (
                  field "declassification_rules" (array (from_items request.declassification_rules))
                    (field "network_routes" (array (from_items request.network_routes)) (
                      field "credentials" (array (from_items request.credentials)) (
                        field "model_providers" (array (from_items request.model_providers))
                          end))))))))))

  -- The row of a new revision.
  unfoldable pub revision_row : ℕ → String → ℕ → RevisionRequest → Result PolicyRevision
  unfolding document_json
  revision_row n policy_id version request =
      and_then (normalize_config machine (raw_document policy_id version request)) (λ config.
        let document_value = document_json config request in
        and_then (canonical machine document_value) (λ document.
          and_then (digest machine document_value) (λ document_digest. ok (record {
            id = "policy_revision_" <> uuid_hex n;
            policy_id = policy_id;
            version = version;
            document = document;
            document_digest = document_digest;
            status = RevisionStatus.draft;
            published_at = none;
          }))))

  unfoldable pub revision_rows : ℕ → String → RevisionRequest → Db → Result (PolicyRevision × Db)
  unfolding revisions
  revision_rows n policy_id request db = and_then (revisions policy_id db) (λ rows.
      and_then (revision_row n policy_id (next_version rows) request) (λ row.
        and_then (add_revision row db.revisions)
          (λ stored. ok (row, record db { revisions = stored }))))

  -- `create_revision`
  unfoldable pub create_revision : String → RevisionRequest → Exec State PolicyRevision
  create_revision policy_id request = do
    n ← draw 1
    session_scope (revision_rows n policy_id request)
