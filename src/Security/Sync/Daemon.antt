-- ===== src/Security/Sync/Daemon.antt =====
-- The messages of the ACR daemon (schemas.py), and the daemon behind the client of acr_client.py.
-- The aliases of the fields are those of pydantic; a number of the protocol is a natural number.
use agent_factor.Base.{ℕ, String, Bool, Option, List, Result}
use agent_factor.Base.{ok, err}
use agent_factor.Json.{Fields}

abbrev pub control_protocol_version : String
control_protocol_version = "acr.control/v1alpha1"

abbrev pub action_schema_version : String
action_schema_version = "acr.action/v1alpha1"

abbrev pub decision_schema_version : String
decision_schema_version = "acr.decision/v1alpha1"

abbrev pub event_schema_version : String
event_schema_version = "acr.event/v1alpha1"

pub record Capabilities : Type 0 where
  pub protocol_version : String
  pub runtime_version : String
  pub action_schema : String
  pub decision_schema : String
  pub event_schema : String
  pub transport : String
  pub operations : List String
  pub agents : List String
  pub decisions : List String
  pub maximum_page_size : ℕ

pub record Workspace : Type 0 where
  pub workspace_id : String
  pub project_id : String
  pub name : String
  pub path : String
  pub canonical_path : String
  pub enabled : Bool
  pub status : String
  pub registered_at : String
  pub last_seen_at : Option String
  pub last_hook_at : Option String
  pub last_sequence : ℕ
  pub head_hash : Option String
  pub unresolved_gaps : ℕ
  pub detail : String

pub record Posture : Type 0 where
  pub protocol_version : String
  pub runtime_version : String
  pub workspaces : List Workspace

pub record Actor : Type 0 where
  pub kind : String
  pub agent_kind : Option String
  pub native_session_id : Option String
  pub acr_session_id : Option String

pub record Causality : Type 0 where
  pub correlation_id : Option String
  pub causation_event_id : Option String
  pub native_turn_id : Option String
  pub native_tool_use_id : Option String

-- `ACREvent`
pub record DaemonEvent : Type 0 where
  pub schema_version : String
  pub event_id : String
  pub project_id : String
  pub workspace_id : String
  pub sequence : ℕ
  pub occurred_at : String
  pub recorded_at : String
  pub type : String
  pub actor : Actor
  pub causality : Causality
  pub payload : Fields
  pub evidence_refs : List String
  pub previous_hash : String
  pub payload_hash : String
  pub event_hash : String

pub record EventPage : Type 0 where
  pub protocol_version : String
  pub workspace_id : String
  pub project_id : String
  pub events : List DaemonEvent
  pub next_sequence : ℕ
  pub has_more : Bool

pub record CapabilityCheck : Type 0 where
  pub capability : String
  pub status : String
  pub code : String
  pub required : Bool
  pub observed_at : Option String
  pub evidence_refs : List String
  pub metrics : List (String × ℕ)

pub record CanaryReceipt : Type 0 where
  pub protocol_version : String
  pub workspace_id : String
  pub project_id : String
  pub receipt_id : String
  pub attestation : String
  pub checked_at : String
  pub expires_at : String
  pub status : String
  pub checks : List CapabilityCheck

-- The three classes of exceptions that the client raises.
pub data Failure : Type 0 where
  unavailable incompatible refused : Failure

pub data Reply (A : Type 0) : Type 0 where
  reply : A → Reply A
  fault : Failure → Reply A

-- The daemon, as the client shows it: one answer to each call.
pub record Daemon : Type 0 where
  pub socket_path : String
  pub capabilities : Reply Capabilities
  pub posture : Reply Posture
  pub events : (workspace_id : String) (after limit : ℕ) → Reply EventPage
  pub canary : (workspace_id : String) → Reply CanaryReceipt

-- `SecuritySyncError`: its texts are not told apart.
abbrev pub sync_error : String
sync_error = "SecuritySyncError"

abbrev pub failure_name : Failure → String
failure_name unavailable = "ACRUnavailableError"
failure_name incompatible = "ACRIncompatibleError"
failure_name refused = "ACRClientError"

-- A call of the client returns or raises.
abbrev pub answer : {A : Type 0} → Reply A → Result A
answer (reply a) = ok a
answer (fault f) = err (failure_name f) 500
