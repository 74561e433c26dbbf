-- ===== src/Security/Policies/Publication.antt =====
-- `publish` and `_write_gateway_config` of policy.py: one transaction stages a bundle, the file of
-- the gateway is replaced, and a second transaction makes the bundle the published one.
pub mod Active
pub mod Staged
pub mod Refinement
use agent_factor.Base.{
  ℕ, String, ◌<>◌, Bool, true, false, not, ◌&&◌, Option, none, some, List, [], ◌∷◌,
}
use agent_factor.Base.{◌==◌, string_eq, option_eq, if◌then◌else◌, find?, update_where}
use agent_factor.Base.{Result, ok, err, Exec, pure, raise, lift, continue, ◌>>=◌, ◌>>◌, and_then}
use agent_factor.Json.{Json, Fields, null, str, object, end, field, get_field, as_dict?}
use agent_factor.Store.{get, add}
use agent_factor.Security.Model.{
  Db, State, Machine, SecurityPolicy, PolicyStatus, PolicyRevision, RevisionStatus, PolicyBundle,
  BundleStatus, contents, session_scope, draw,
}
use agent_factor.Security.Access.{Identity, setting}
use agent_factor.Security.Documents.{is_active}
use agent_factor.Security.Policies.{canonical, digest, compiler_version}

abbrev pub bundle_published : PolicyBundle → Bool
bundle_published b = elim b.status [ BundleStatus.published ↦ true | _ ↦ false ]

-- What the first transaction finds: the bundle that is in force already, or a staged one with the
-- document that the gateway is to load.
pub data Staging : Type 0 where
  current : PolicyBundle → Staging
  staged : Json → PolicyBundle → Staging

-- `document[key]`
item : String → Fields → Result Json
item key fields = elim (get_field key fields) [ none ↦ err "KeyError" 500 | some v ↦ ok v ]

-- The part of a revision's document that is the gateway's configuration.
unfoldable pub gateway_document : Json → Result Json
unfolding item
gateway_document document = elim (as_dict? document) [
  | none ↦ err "TypeError" 500
  | some fields ↦ and_then (item "policy_version" fields) (λ version.
      and_then (item "default_effect" fields) (λ effect. and_then (item "rules" fields) (λ rules.
        and_then (item "mcp_servers" fields) (λ servers. ok (
          object (
            field "policy_version" version (
              field "default_effect" effect
                (field "rules" rules (field "mcp_servers" servers end)))))))))
]

-- The update of the row of a key.
abbrev pub set_published : PolicyBundle → PolicyBundle
set_published b = record b { status = BundleStatus.published }

abbrev pub set_superseded : PolicyBundle → PolicyBundle
set_superseded b = record b { status = BundleStatus.superseded }

abbrev pub set_inactive : SecurityPolicy → SecurityPolicy
set_inactive p = record p { status = PolicyStatus.inactive }

abbrev pub set_active : String → SecurityPolicy → SecurityPolicy
set_active revision_id p = record p {
  status = PolicyStatus.active;
  active_revision_id = some revision_id;
}

abbrev pub set_revision : ℕ → PolicyRevision → PolicyRevision
set_revision published_at r = record r {
  status = RevisionStatus.published;
  published_at = some published_at;
}

-- Every other published bundle is superseded, and this one published.
unfoldable pub publish_bundle : String → List PolicyBundle → List PolicyBundle
publish_bundle bundle_id rows =
    update_where (λ b. b.id == bundle_id) set_published
      (update_where (λ b. not (b.id == bundle_id) && bundle_published b) set_superseded rows)

-- Every other active policy is made inactive, and this one active.
unfoldable pub activate_policy : String → String → List SecurityPolicy → List SecurityPolicy
activate_policy policy_id revision_id rows =
    update_where (λ p. p.id == policy_id) (set_active revision_id)
      (update_where (λ p. not (p.id == policy_id) && is_active p.status) set_inactive rows)

abbrev pub activated : String → String → PolicyBundle → Db → Db
activated policy_id revision_id bundle db = record db {
  bundles = publish_bundle bundle.id db.bundles;
  revisions =
      update_where (λ r. r.id == revision_id) (set_revision bundle.published_at) db.revisions;
  policies = activate_policy policy_id revision_id db.policies;
}

-- The second transaction.
unfoldable pub activate : String → String → String → Db → Result (PolicyBundle × Db)
activate policy_id revision_id bundle_id db = elim (get (λ p. p.id) policy_id db.policies) [
  | none ↦ err "policy_publish_state_lost" 500
  | some _ ↦ elim (get (λ r. r.id) revision_id db.revisions) [
    | none ↦ err "policy_publish_state_lost" 500
    | some _ ↦ elim (get (λ b. b.id) bundle_id db.bundles) [
      | none ↦ err "policy_publish_state_lost" 500
      | some bundle ↦ ok (set_published bundle, activated policy_id revision_id bundle db)
    ]
  ]
]

-- `hmac_sha256 key text` is `hmac.new(key, text, sha256).hexdigest()`, and `replaces text` whether
-- the operating system replaces the file of the gateway by one with this text: it does so at once
-- or not at all.
module _ (machine : Machine) (identity : Identity) (hmac_sha256 : String → String → String)
    (replaces : String → Bool) where
  open machine use {uuid_hex, loads}

  unfoldable pub bundle_row : ℕ → ℕ → String → String → String → PolicyBundle
  bundle_row now n revision_id bundle_digest gateway_config =
      let signing_key = setting identity "AGENTFACTOR_POLICY_SIGNING_KEY" in
      record {
        id = "policy_bundle_" <> uuid_hex n;
        revision_id = revision_id;
        compiler_version = compiler_version;
        bundle_digest = bundle_digest;
        gateway_config = gateway_config;
        signature = elim signing_key [
          | none ↦ none
          | some key ↦ some ("hmac-sha256:" <> hmac_sha256 key bundle_digest)
        ];
        signing_key_id = elim signing_key [
          | none ↦ none
          | some _ ↦ elim (identity.getenv "AGENTFACTOR_POLICY_SIGNING_KEY_ID") [
            | none ↦ some "environment"
            | some key_id ↦ some key_id
          ]
        ];
        status = BundleStatus.staged;
        published_at = now;
      }

  -- The bundle of a document that is to be published.
  unfoldable pub stage_document : ℕ → ℕ → String → Json → Db → Result (Staging × Db)
  unfolding bundle_row
  stage_document now n revision_id document db = and_then (gateway_document document) (λ gateway.
      and_then
        (digest machine (
          object (
            field "compiler_version" (str compiler_version) (
              field "policy_document" document (field "acr_delivery" (str "NOT_CONFIGURED") end)))))
        (λ bundle_digest. and_then (canonical machine gateway) (λ gateway_config.
          let row = bundle_row now n revision_id bundle_digest gateway_config in
          and_then (add (λ b. b.id) row db.bundles)
            (λ bundles. ok (staged gateway row, record db { bundles = bundles })))))

  unfoldable pub stage_revision : ℕ → ℕ → PolicyRevision → Db → Result (Staging × Db)
  stage_revision now n revision db = elim (loads revision.document) [
    | none ↦ err "JSONDecodeError" 500
    | some document ↦ stage_document now n revision.id document db
  ]

  -- The first transaction.
  unfoldable pub stage : ℕ → ℕ → String → String → Db → Result (Staging × Db)
  stage now n policy_id revision_id db = elim (get (λ p. p.id) policy_id db.policies) [
    | none ↦ err "policy_revision_not_found" 404
    | some policy ↦ elim (get (λ r. r.id) revision_id db.revisions) [
      | none ↦ err "policy_revision_not_found" 404
      | some revision ↦
          if not (revision.policy_id == policy_id)
          then err "policy_revision_not_found" 404
          else elim (find? (λ b. b.revision_id == revision_id && bundle_published b) db.bundles) [
            | none ↦ stage_revision now n revision db
            | some existing ↦
                if policy.active_revision_id == some revision_id
                then ok (current existing, db)
                else stage_revision now n revision db
          ]
    ]
  ]

  -- `_write_gateway_config`
  unfoldable pub write_gateway_config : Json → Exec State (Unit {0})
  write_gateway_config document s = elim (canonical machine document) [
    | err e n ↦ (err e n, s)
    | ok text ↦
        if replaces (text <> "\n")
        then (ok tt, record s { config_file = contents (text <> "\n") })
        else (err "policy_publish_failed" 503, s)
  ]

  unfoldable pub finish : String → String → Staging → Exec State PolicyBundle
  finish policy_id revision_id (current existing) = pure existing
  finish policy_id revision_id (staged document bundle) =
      write_gateway_config document >> session_scope (activate policy_id revision_id bundle.id)

  -- `publish`
  unfoldable pub publish : ℕ → String → String → Exec State PolicyBundle
  publish now policy_id revision_id = do
    n ← draw 1
    staging ← session_scope (stage now n policy_id revision_id)
    finish policy_id revision_id staging
