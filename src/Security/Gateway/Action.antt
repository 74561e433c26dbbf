-- ===== src/Security/Gateway/Action.antt =====
-- `CanonicalSecurityAction` of schemas.py, and `_normalize_action` and `_fingerprint` of gateway.py.
use agent_factor.Base.{String, ◌<>◌, Bool, not, ◌&&◌}
use agent_factor.Base.{Option, starts_with, guard}
use agent_factor.Base.{
  ◌==◌, string_eq, if◌then◌else◌, leb, str_length, has_nul, Result, ok, ends_with_sep,
}
use agent_factor.Base.{then_do as ◌>>◌}
use agent_factor.Json.{Json, str, object, end, field, Fields, optional_str}
use agent_factor.Security.Model.{Machine}
use agent_factor.Security.Gateway.Ids.{is_safe_id, canonical, digest}

pub data Surface : Type 0 where
  shell filesystem mcp network model credential : Surface

abbrev pub surface_name : Surface → String
surface_name shell = "shell"
surface_name filesystem = "filesystem"
surface_name mcp = "mcp"
surface_name network = "network"
surface_name model = "model"
surface_name credential = "credential"

pub data IntegrationMode : Type 0 where
  adapter native gateway : IntegrationMode

abbrev mode_name : IntegrationMode → String
mode_name adapter = "adapter"
mode_name native = "native"
mode_name gateway = "gateway"

pub record Principal : Type 0 where
  pub id : String
  pub authn : String

pub record Agent : Type 0 where
  pub name : String
  pub version : Option String

pub record ActionContext : Type 0 where
  pub project_id : String
  pub session_id : String
  pub cwd : String
  pub tool_call_id : Option String

pub record ActionTarget : Type 0 where
  pub surface : Surface
  pub operation : String
  pub resource : String
  pub params : Fields

pub record SecurityAction : Type 0 where
  pub principal : Principal
  pub endpoint_id : String
  pub agent : Agent
  pub integration_mode : IntegrationMode
  pub context : ActionContext
  pub action : ActionTarget

-- `action.model_dump(mode="json")`
unfoldable pub action_json : SecurityAction → Json
action_json a = object (
    field "schema_version" (str "agentfactor.action/v1alpha1") (
      field "principal"
        (object (field "id" (str a.principal.id) (field "authn" (str a.principal.authn) end)))
        (field "endpoint_id" (str a.endpoint_id) (
          field "agent"
            (object (
              field "name" (str a.agent.name) (field "version" (optional_str a.agent.version) end)))
            (field "integration_mode" (str (mode_name a.integration_mode)) (
              field "context"
                (object (
                  field "project_id" (str a.context.project_id) (
                    field "session_id" (str a.context.session_id) (
                      field "cwd" (str a.context.cwd)
                        (field "tool_call_id" (optional_str a.context.tool_call_id) end)))))
                (field "action"
                  (object (
                    field "surface" (str (surface_name a.action.surface)) (
                      field "operation" (str a.action.operation) (
                        field "resource" (str a.action.resource)
                          (field "params" (object a.action.params) end)))))
                  end)))))))

-- `os.path.join(base, path)` of a path that is not absolute
unfoldable pub join_path : String → String → String
unfolding string_eq
join_path base path =
    if base == "" then path else if ends_with_sep base then base <> path else base <> "/" <> path

-- The path is absolute, and so is the working directory.
abbrev pub is_abs : String → Bool
is_abs path = starts_with path "/"

module _ (machine : Machine) where
  open machine use {realpath}

  -- The resource of a file action is resolved against the working directory.
  unfoldable pub resolve_resource : Surface → String → String → String
  unfolding join_path
  resolve_resource filesystem cwd resource =
      realpath (if is_abs resource then resource else join_path cwd resource)
  resolve_resource _ cwd resource = resource

  -- `_normalize_action`
  unfoldable pub normalize_action : SecurityAction → Result SecurityAction
  normalize_action a = do
    guard (is_safe_id a.principal.id && is_safe_id a.context.session_id && is_safe_id a.endpoint_id)
        "action_identity_invalid" 400
    guard (is_abs a.context.cwd) "action_cwd_not_absolute" 400
    let cwd = realpath a.context.cwd
    let target = a.action
    guard
        (leb (str_length target.operation) 128
          && leb (str_length target.resource) 4096
          && not (has_nul target.operation)
          && not (has_nul target.resource))
        "action_target_invalid" 400
    let value = record a {
      context = record a.context { cwd = cwd };
      action = record target { resource = resolve_resource target.surface cwd target.resource };
    }
    canonical machine (action_json value)
    ok value

  -- `_fingerprint`
  unfoldable pub fingerprint : SecurityAction → String → Result String
  unfolding action_json digest
  fingerprint a policy_digest =
      digest machine
        (object (field "action" (action_json a) (field "policy_digest" (str policy_digest) end)))
