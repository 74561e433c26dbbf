-- ===== src/Security/Sync/Posture.antt =====
-- `sync` of service.py: the posture of the daemon, its workspaces, and the record of a failure.
pub mod Failed
pub mod Whole
pub mod Ending
use agent_factor.Base.{
  ℕ, zero, suc, ◌+◌, String, Bool, true, false, not, ◌&&◌, ◌||◌, Option, none, some, List, [], ◌∷◌,
}
use agent_factor.Base.{
  ◌==◌, contains, string_eq, nat_eq, if◌then◌else◌, all, ltb, update_where, length, difference,
}
use agent_factor.Base.{Result, ok, err, guard, and_then, then_do}
use agent_factor.Base.{Exec, pure, lift, gets, continue, ◌>>=◌, ◌>>◌}
use agent_factor.Store.Upsert.{upsert}
use agent_factor.Security.Model.{Db, State, Endpoint, Integration, Assurance, session_scope}
use agent_factor.Security.Sync.Daemon.{
  Capabilities, Workspace, Posture, Daemon, answer, sync_error, control_protocol_version,
  action_schema_version, decision_schema_version, event_schema_version,
}
use agent_factor.Security.Sync.Ingest.{is_event_hash}
use agent_factor.Security.Sync.Pages.{sync_workspace}

abbrev pub endpoint_id : String
endpoint_id = "acr-local"

abbrev pub required_operations : List String
required_operations = "capabilities" ∷ "posture" ∷ "events" ∷ []

abbrev pub required_decisions : List String
required_decisions = "pass" ∷ "rewrite" ∷ "repair" ∷ "ask" ∷ "deny" ∷ []

-- `required.issubset(values)`
unfoldable pub is_subset : List String → List String → Bool
is_subset required values = all (contains values) required

-- `_validate_capabilities`
unfoldable pub validate_capabilities : Capabilities → Result (Unit {0})
validate_capabilities c =
    guard
      (c.protocol_version == control_protocol_version
        && c.action_schema == action_schema_version
        && c.decision_schema == decision_schema_version
        && c.event_schema == event_schema_version
        && c.transport == "unix"
        && is_subset required_operations c.operations
        && is_subset required_decisions c.decisions
        && ltb 0 c.maximum_page_size)
      sync_error 500

-- `capabilities`
unfoldable pub capabilities : Daemon → Result Capabilities
capabilities daemon =
    and_then (answer daemon.capabilities) (λ c. then_do (validate_capabilities c) (ok c))

-- What `sync` asks for before it writes anything.
unfoldable pub read_posture : Daemon → Result (Capabilities × Posture)
read_posture daemon = and_then (capabilities daemon) (λ c.
    and_then (answer daemon.posture) (λ posture.
      then_do
        (guard
          (posture.protocol_version == control_protocol_version
            && posture.runtime_version == c.runtime_version)
          sync_error 500)
        (ok (c, posture))))

-- `_assurance`
unfoldable pub assurance_of : Workspace → Assurance
assurance_of w =
    if w.status == "healthy"
    then elim w.last_hook_at [
      | none ↦ Assurance.unknown
      | some at ↦ if at == "" then Assurance.unknown else Assurance.observed
    ]
    else if w.status == "degraded" || w.status == "conflict"
    then Assurance.degraded
    else Assurance.unknown

abbrev pub integration_row : Workspace → Integration
integration_row w = record {
  id = w.workspace_id;
  endpoint_id = endpoint_id;
  project_id = w.project_id;
  workspace_id = w.workspace_id;
  name = w.name;
  status = w.status;
  assurance = assurance_of w;
  last_sequence = w.last_sequence;
  head_hash = w.head_hash;
  unresolved_gaps = w.unresolved_gaps;
  last_hook_at = w.last_hook_at;
  last_seen_at = w.last_seen_at;
}

-- The row of the integration keeps its `workspace_id`.
unfoldable pub upsert_integration : Workspace → Db → Db
upsert_integration w db = record db {
  integrations =
      upsert (λ i. i.id) w.workspace_id (integration_row w)
        (λ i. record (integration_row w) { id = i.id; workspace_id = i.workspace_id })
        db.integrations;
}

-- `_upsert_endpoint`, with the capabilities that were read or `None`
unfoldable pub set_endpoint_row :
    ℕ → String → Option Capabilities → String → Option String → Endpoint → Endpoint
set_endpoint_row now socket_path none status error e = record e {
  socket_path = socket_path;
  status = status;
  last_error = error;
}
set_endpoint_row now socket_path (some c) status error e = record e {
  socket_path = socket_path;
  status = status;
  last_error = error;
  runtime_version = some c.runtime_version;
  protocol_version = some c.protocol_version;
  last_seen_at = some now;
}

abbrev pub new_endpoint : String → Endpoint
new_endpoint socket_path = record {
  id = endpoint_id;
  kind = "acr";
  display_name = "Local ACR";
  socket_path = socket_path;
  runtime_version = none;
  protocol_version = none;
  status = "unknown";
  last_error = none;
  last_seen_at = none;
}

unfoldable pub upsert_endpoint : ℕ → Daemon → Option Capabilities → String → Option String → Db → Db
unfolding set_endpoint_row
upsert_endpoint now daemon c status error db = record db {
  endpoints =
      upsert (λ e. e.id) endpoint_id
        (set_endpoint_row now daemon.socket_path c status error (new_endpoint daemon.socket_path))
        (set_endpoint_row now daemon.socket_path c status error) db.endpoints;
}

-- The status and the code for a daemon that is not there, and for evidence that was rejected.
unfoldable pub code_of : (is_unavailable is_rejected : Bool) → String × String
code_of true _ = ("offline", "acr_unavailable")
code_of false true = ("incompatible", "acr_security_evidence_rejected")
code_of false false = ("offline", "acr_request_failed")

-- The status and the code that an exception is recorded under.
unfoldable pub failure_code : String → String × String
unfolding code_of
failure_code e =
    code_of (e == "ACRUnavailableError") (e == "ACRIncompatibleError" || e == sync_error)

abbrev pub at_endpoint : Integration → Bool
at_endpoint i = i.endpoint_id == endpoint_id

abbrev pub set_degraded : Integration → Integration
set_degraded i = record i { status = "degraded"; assurance = Assurance.degraded }

-- `_record_endpoint_failure`
unfoldable pub record_endpoint_failure : ℕ → Daemon → String → Db → Db
unfolding failure_code
record_endpoint_failure now daemon e db =
    let after = upsert_endpoint now daemon none (failure_code e).0 (some (failure_code e).1) db in
    record after { integrations = update_where at_endpoint set_degraded after.integrations }

-- The exceptions that `sync` and `verify` catch; others, such as an `IntegrityError`, pass.
unfoldable pub is_caught : String → Bool
is_caught e =
    e == sync_error
    || e == "ACRUnavailableError"
    || e == "ACRIncompatibleError"
    || e == "ACRClientError"

-- `except (ACRClientError, SecuritySyncError)`: the failure is recorded, and its code raised.
unfoldable pub handle_failure : {A : Type 0} → ℕ → Daemon → Result A × State → Result A × State
handle_failure now daemon (ok a, s) = (ok a, s)
handle_failure now daemon (err e n, s) =
    if is_caught e
    then (err sync_error 500, record s { db = record_endpoint_failure now daemon e s.db })
    else (err e n, s)

abbrev pub set_missing : Integration → Integration
set_missing i = record i { status = "offline"; assurance = Assurance.unknown }

-- `_mark_missing_integrations`
unfoldable pub mark_missing_integrations : List String → Db → Db
mark_missing_integrations seen db = record db {
  integrations =
      update_where (λ i. at_endpoint i && not (contains seen i.workspace_id)) set_missing
        db.integrations;
}

-- A head that the daemon names is a hash.
unfoldable pub check_head : Workspace → Bool
check_head w = elim w.head_hash [ none ↦ true | some hash ↦ is_event_hash hash ]

-- What follows the pages of one workspace.
unfoldable pub next_workspace :
    ℕ
    → Option (Result ℕ × State)
    → (ℕ → State → Option (Result ℕ × State))
    → Option (Result ℕ × State)
next_workspace ingested none loop = none
next_workspace ingested (some (ok n, s)) loop = loop (ingested + n) s
next_workspace ingested (some (err e n, s)) loop = some (err e n, s)

-- The loop of `sync` over the workspaces, with `fuel` rounds for the pages of each.
unfoldable pub sync_workspaces :
    Daemon → ℕ → ℕ → List Workspace → ℕ → State → Option (Result ℕ × State)
unfolding next_workspace
sync_workspaces daemon fuel maximum_page_size [] ingested s = some (ok ingested, s)
sync_workspaces daemon fuel maximum_page_size (w ∷ ws) ingested s =
    if not (check_head w)
    then some (err sync_error 500, s)
    else next_workspace ingested
        (sync_workspace daemon fuel w maximum_page_size
          (record s { db = upsert_integration w s.db }))
        (sync_workspaces daemon fuel maximum_page_size ws)

abbrev ids : List Workspace → List String
ids [] = []
ids (w ∷ ws) = w.workspace_id ∷ ids ws

-- The dict that is returned.
pub record SyncReport : Type 0 where
  pub workspaces : ℕ
  pub events_ingested : ℕ

finish_sync : Posture → Result ℕ × State → Result SyncReport × State
finish_sync posture (err e n, s) = (err e n, s)
finish_sync posture (ok ingested, s) = (
  ok (record { workspaces = length posture.workspaces; events_ingested = ingested }),
  record s { db = mark_missing_integrations (ids posture.workspaces) s.db },
)

handle_loop : ℕ → Daemon → Posture → Option (Result ℕ × State) → Option (Result SyncReport × State)
unfolding finish_sync
handle_loop now daemon posture none = none
handle_loop now daemon posture (some out) =
    some (handle_failure now daemon (finish_sync posture out))

-- `sync`; `none` means that the fuel was not enough for the pages of a workspace.
unfoldable pub sync : ℕ → Daemon → ℕ → State → Option (Result SyncReport × State)
unfolding handle_loop
sync now daemon fuel s = elim (read_posture daemon) [
  | err e n ↦ some (handle_failure now daemon (err e n, s))
  | ok (c, posture) ↦ handle_loop now daemon posture (
      sync_workspaces daemon fuel c.maximum_page_size posture.workspaces 0
        (record s { db = upsert_endpoint now daemon (some c) "healthy" none s.db }))
]
