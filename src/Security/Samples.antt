-- ===== src/Security/Samples.antt =====
-- A machine and empty tables, at which the theorems about the security services are applied.
use agent_factor.Base.{ℕ, zero, suc, String, ◌<>◌, true, Option, none, some, List, []}
use agent_factor.Json.{Json, str, array, object, nil, cons, end, field}
use agent_factor.Security.Model.{
  Machine, Db, State, contents, NativeSession, SessionStatus, PolicyStatus, RevisionStatus,
}
use agent_factor.Security.Documents.{Document}
use agent_factor.Security.Access.{Identity}
use agent_factor.Security.Executor.{FileSystem, CreateRequest}
use agent_factor.Base.{◌∷◌}
use agent_factor.Security.Gateway.Action.{SecurityAction, native, shell}

-- The texts of the documents are not told apart here, only those of the texts.
abbrev pub show : Json → String
show (str s) = s
show _ = "json"

abbrev pub tally : ℕ → String
tally zero = "0"
tally (suc n) = tally n <> "1"

-- A policy under which builds are recorded, pushes are reminded of, and all else is blocked.
abbrev pub document : Json
document = object (
    field "policy_version" (str "p1") (
      field "rules"
        (array (
          cons
            (object (
              field "id" (str "build") (
                field "effect" (str "record")
                  (field "operations" (array (cons (str "make") nil)) end))))
            (cons
              (object (
                field "id" (str "push") (
                  field "effect" (str "remind")
                    (field "operations" (array (cons (str "push") nil)) end))))
              nil)))
        end))

-- Every path is its own real path, and a text is its own hash.
abbrev pub machine : Machine
machine = record {
  realpath = λ path. path;
  sha256_hex = λ text. text;
  dumps = λ j. some (show j);
  loads = λ text. some document;
  uuid_hex = tally;
  token_urlsafe = λ n. "token" <> tally n;
}

abbrev pub empty : Db
empty = record {
  decisions = [];
  grants = [];
  alerts = [];
  servers = [];
  tools = [];
  results = [];
  sessions = [];
  policies = [];
  revisions = [];
  bundles = [];
  declassifications = [];
  leases = [];
  bindings = [];
  responses = [];
  endpoints = [];
  rollouts = [];
  rollout_targets = [];
  integrations = [];
  events = [];
  event_links = [];
  cursors = [];
  proofs = [];
}

abbrev pub start : State
start = record { db = empty; config_file = contents "policy"; drawn = 0 }

abbrev pub shell_action : String → SecurityAction
shell_action operation = record {
  principal = record { id = "alice"; authn = "local" };
  endpoint_id = "laptop";
  agent = record { name = "agent"; version = none };
  integration_mode = native;
  context = record { project_id = "p"; session_id = "s"; cwd = "/work"; tool_call_id = none };
  action = record { surface = shell; operation = operation; resource = "make"; params = end };
}

-- A document under which personal data may go to one model, and may be declassified.
abbrev pub flows : Document
flows = record {
  data_rules =
      record { id = "people"; resource_prefixes = "/work/people" ∷ []; labels = "pii" ∷ [] } ∷ [];
  egress_rules =
      record {
        id = "inside";
        surfaces = "model" ∷ [];
        destination_prefixes = "https://inside/" ∷ [];
        allowed_labels = "pii" ∷ [];
      }
      ∷ [];
  declassification_rules =
      record { id = "redact"; purpose = "redacted"; remove_labels = "pii" ∷ [] } ∷ [];
  credentials =
      record {
        id = "key";
        source_env = "MODEL_KEY";
        allowed_surfaces = "model" ∷ [];
        resource_prefixes = "https://inside/" ∷ [];
        ttl_seconds = 60;
      }
      ∷ [];
  network_routes = [];
}

abbrev pub parse_flows : String → Option Document
parse_flows text = some flows

abbrev pub session_of : String → String → List String → NativeSession
session_of id token labels = record {
  id = id;
  token_hash = "sha256:" <> token;
  principal_id = "alice";
  project_id = "p";
  workspace_path = "/work";
  workspace_digest = "sha256:/work";
  agent_name = "agent";
  agent_version = none;
  status = SessionStatus.active;
  taint_labels = labels;
  expires_at = 100;
  ended_at = none;
}

-- Two sessions, the first of them with personal data, under that document.
abbrev pub flowing : State
flowing = record start {
  db = record empty {
    sessions = session_of "n1" "t1" ("pii" ∷ []) ∷ session_of "n2" "t2" [] ∷ [];
    policies =
        record {
          id = "main";
          display_name = "Main";
          status = PolicyStatus.active;
          active_revision_id = some "r1";
        }
        ∷ [];
    revisions =
        record {
          id = "r1";
          policy_id = "main";
          version = 1;
          document = "flows";
          document_digest = "sha256:flows";
          status = RevisionStatus.published;
          published_at = some 1;
        }
        ∷ [];
    bindings =
        record { id = "b1"; principal_id = "alice"; role = "admin"; created_by = "root" } ∷ [];
  };
}

-- A machine with an identity provider that vouches for one subject.
abbrev pub vouches : String → Identity
vouches subject = record {
  getenv = λ name. some name;
  verified_subject = λ jwks audience issuer token. some (str subject);
}

abbrev pub files : FileSystem
files = record {
  resolve_strict = λ path. some path;
  is_dir = λ path. true;
  control_root = "/home/control";
}

abbrev pub workspace_request : CreateRequest
workspace_request = record {
  principal = record { id = "alice"; authn = "local" };
  project_id = "p";
  workspace_path = "/work";
  agent = record { name = "agent"; version = none };
  ttl_seconds = 60;
}

-- A policy that names one server with one tool.
abbrev pub servers_document : Json
servers_document = object (
    field "policy_version" (str "p1") (
      field "mcp_servers"
        (object (
          field "srv"
            (object (
              field "command" (str "serve") (
                field "tools"
                  (object (field "read" (object (field "effect" (str "record") end)) end)) end)))
            end))
        end))

abbrev pub tools_machine : Machine
tools_machine = record machine { loads = λ text. some servers_document }
