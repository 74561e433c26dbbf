-- ===== src/Security/Tests/Policies.antt =====
-- Policies, their publication and rollouts at concrete inputs.
use agent_factor.Base.{◌≤◌, String, true, ◌≡◌, refl, arith, none, some, [], ◌∷◌, Result, ok}
use agent_factor.Base.{
  string_eq, option_eq, nat_eq, ℕ_discrete, any, all, filter, find?, count_if, update_where,
  str_length, every_char, map_result, decimal, sort_by,
}
use agent_factor.Json.{Json, str, array, object, nil, end, field, get_field}
use agent_factor.Store.{get, add, has_key}
use agent_factor.Security.Model.{
  State, Machine, PolicyStatus, RevisionStatus, BundleStatus, SecurityPolicy, PolicyRevision,
  PolicyBundle, Endpoint, session_scope,
}
use agent_factor.Security.Access.{Identity, setting}
use agent_factor.Security.Samples.{machine, start, empty}
use agent_factor.Security.Policies.{canonical, digest}
use agent_factor.Security.Policies.Revisions.{
  RevisionRequest, create_revision, revision_rows, revisions, by_version, next_version,
  revision_row, document_json, add_revision,
}
use agent_factor.Security.Gateway.Ids
use agent_factor.Security.Gateway.Ids.{is_safe_id}
use agent_factor.Security.Gateway.Config.{normalize_rule, normalize_server}
use agent_factor.Security.Gateway.Loading.{normalize_config}
use agent_factor.Security.Policies.Revisions.Versions.{AddsRevision, create_revision-AddsRevision}
use agent_factor.Security.Policies.Publication.{
  publish, stage, stage_revision, stage_document, gateway_document, bundle_row, finish,
  write_gateway_config, activate, publish_bundle, activate_policy,
}
use agent_factor.Security.Policies.Publication.Active.{InForce, published_revision, active_revision}
use agent_factor.Security.Policies.Publication.Refinement.{Publishes, publish-Publishes}
use agent_factor.Security.Policies.Rollouts.{
  RolloutPlan, create_rollout, rollout_rows, plan_rollout, cohort, select, add_target, add_targets,
}
use agent_factor.Security.Policies.Rollouts.Cohorts.{
  Takes, IsRolledOut, takes, create_rollout-Takes,
}

-- A document that names the four keys of the gateway.
abbrev published_document : Json
published_document = object (
    field "policy_version" (str "p1.v1") (
      field "default_effect" (str "block")
        (field "rules" (array nil) (field "mcp_servers" (object end) end))))

abbrev publishing_machine : Machine
publishing_machine = record machine { loads = λ text. some published_document }

-- The signing key is set.
abbrev signing : Identity
signing = record {
  getenv = λ name. some "key";
  verified_subject = λ jwks_url audience issuer token. none;
}

abbrev policy_row : SecurityPolicy
policy_row = record {
  id = "p1";
  display_name = "Policy";
  status = PolicyStatus.draft;
  active_revision_id = none;
}

abbrev revision : PolicyRevision
revision = record {
  id = "r1";
  policy_id = "p1";
  version = 1;
  document = "document";
  document_digest = "sha256:document";
  status = RevisionStatus.draft;
  published_at = none;
}

abbrev drafted : State
drafted = record start {
  db = record empty { policies = policy_row ∷ []; revisions = revision ∷ [] };
}

drafted-InForce : InForce none drafted.db
unfolding published_revision active_revision find? count_if has_key any
drafted-InForce = record {
  of_bundle = refl;
  of_policy = refl;
  one_bundle = omega arith;
  one_policy = omega arith;
  bundle_ids = tt;
  policy_ids = (refl, tt);
}

abbrev publish_draft : State → Result PolicyBundle × State
publish_draft = publish publishing_machine signing (λ key text. text) (λ text. true) 5 "p1" "r1"

publish-Publishes_example : Publishes none "r1" drafted (publish_draft drafted)
publish-Publishes_example =
    publish-Publishes publishing_machine signing (λ key text. text) (λ text. true) 5 none "p1" "r1"
      drafted drafted-InForce

-- The publication succeeds, and the revision is in force.
publish_draft-published : published_revision (publish_draft drafted).1.db ≡ some "r1"
unfolding publish stage stage_revision stage_document gateway_document bundle_row finish
    write_gateway_config activate publish_bundle activate_policy published_revision session_scope
    get add has_key find? any update_where get_field canonical digest setting string_eq option_eq
publish_draft-published = refl

abbrev endpoint : Endpoint
endpoint = record {
  id = "acr-local";
  kind = "acr";
  display_name = "Local ACR";
  socket_path = "/run/acr";
  runtime_version = none;
  protocol_version = none;
  status = "healthy";
  last_error = none;
  last_seen_at = none;
}

abbrev bundle : PolicyBundle
bundle = record {
  id = "b1";
  revision_id = "r1";
  compiler_version = "v1";
  bundle_digest = "sha256:b1";
  gateway_config = "config";
  signature = some "hmac";
  signing_key_id = some "environment";
  status = BundleStatus.published;
  published_at = 5;
}

abbrev published_state : State
published_state = record drafted {
  db = record drafted.db { bundles = bundle ∷ []; endpoints = endpoint ∷ [] };
}

abbrev rollout : Result RolloutPlan × State
rollout = create_rollout machine "p1" "r1" 100 "admin" published_state

abbrev plan : RolloutPlan
plan = record {
  rollout = record {
    id = "policy_rollout_0";
    bundle_id = "b1";
    percentage = 100;
    status = "planned";
    created_by = "admin";
  };
  targets = ("acr-local", cohort machine "sha256:b1" "acr-local") ∷ [];
}

rollout-planned : rollout ≡ (ok plan, rollout.1)
unfolding create_rollout rollout_rows plan_rollout cohort select add_target add_targets
    session_scope get add has_key find? any sort_by string_eq
rollout-planned = refl

create_rollout-Takes_example :
    (b : PolicyBundle) × IsRolledOut "p1" "r1" published_state.db b
    × Takes machine b 100 "admin" published_state.db plan rollout.1.db
    × (100 ≤ 100
        → (endpoint_id : String)
        → takes plan endpoint_id ≡ has_key (λ e. e.id) endpoint_id published_state.db.endpoints)
create_rollout-Takes_example =
    create_rollout-Takes machine "p1" "r1" 100 "admin" published_state rollout.1 plan
      rollout-planned

abbrev request : RevisionRequest
request = record {
  default_effect = "block";
  rules = [];
  mcp_servers = end;
  data_rules = [];
  egress_rules = [];
  declassification_rules = [];
  network_routes = [];
  credentials = [];
  model_providers = [];
}

abbrev second_revision : Result PolicyRevision × State
second_revision = create_revision machine "p1" request drafted

abbrev second_row : PolicyRevision
second_row = record {
  id = "policy_revision_0";
  policy_id = "p1";
  version = 2;
  document = "json";
  document_digest = "sha256:json";
  status = RevisionStatus.draft;
  published_at = none;
}

second_revision-created : second_revision ≡ (ok second_row, second_revision.1)
unfolding create_revision revision_rows revisions by_version filter next_version revision_row
    normalize_config normalize_rule normalize_server is_safe_id map_result document_json decimal
    add_revision session_scope get add has_key find? any all get_field canonical digest str_length
    every_char string_eq nat_eq option_eq ℕ_discrete Ids.digest
second_revision-created = refl

create_revision-AddsRevision_example :
    AddsRevision machine "p1" drafted.db second_row second_revision.1.db
create_revision-AddsRevision_example =
    create_revision-AddsRevision machine "p1" request drafted second_revision.1 second_row
      second_revision-created
