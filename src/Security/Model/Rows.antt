-- ===== src/Security/Model/Rows.antt =====
-- The rows of the tables, as clients/database.py declares their columns.
use agent_factor.Base.{ℕ, String, Bool, Option, List}
use agent_factor.Json.{Json}

-- The three effects of a policy rule: `EFFECTS` of gateway.py.
pub data Effect : Type 0 where
  record_only remind block : Effect

pub record ActionDecision : Type 0 where
  pub id : String
  pub action_fingerprint : String
  pub policy_digest : String
  pub policy_version : String
  pub effect : Effect
  pub reason_code : String
  pub rule_id : Option Json
  pub principal_id : String
  pub session_id : String
  pub surface : String
  pub operation : String
  pub resource_digest : String
  pub params_digest : String
  pub enforced : Bool

-- Times are microseconds, as `datetime` counts them.
pub record ExecutionGrant : Type 0 where
  pub id : String
  pub decision_id : String
  pub token_hash : String
  pub action_fingerprint : String
  pub policy_digest : String
  pub expires_at : ℕ
  pub consumed_at : Option ℕ

pub record RiskAlert : Type 0 where
  pub id : String
  pub decision_id : Option String
  pub integration_id : Option String
  pub source_event_id : Option String
  pub action_fingerprint : String
  pub effect : Effect
  pub reason_code : String

pub data ServerStatus : Type 0 where
  undiscovered healthy offline unconfigured : ServerStatus

pub record McpServer : Type 0 where
  pub id : String
  pub display_name : String
  pub transport : String
  pub config_digest : String
  pub status : ServerStatus
  pub last_error : Option String
  pub last_discovered_at : Option ℕ

pub data ToolStatus : Type 0 where
  allowed schema_changed blocked blocked_unknown missing : ToolStatus

pub record McpToolVersion : Type 0 where
  pub id : String
  pub server_id : String
  pub tool_name : String
  pub schema_digest : String
  pub input_schema : String
  pub status : ToolStatus
  pub current : Bool
  pub last_seen_at : Option ℕ

pub record ExecutionResult : Type 0 where
  pub id : String
  pub decision_id : String
  pub grant_id : String
  pub succeeded : Bool
  pub result_digest : String
  pub duration_ms : ℕ

pub data SessionStatus : Type 0 where
  active blocked_session closed : SessionStatus

-- `taint_labels` is the list that the column holds as JSON.
pub record NativeSession : Type 0 where
  pub id : String
  pub token_hash : String
  pub principal_id : String
  pub project_id : String
  pub workspace_path : String
  pub workspace_digest : String
  pub agent_name : String
  pub agent_version : Option String
  pub status : SessionStatus
  pub taint_labels : List String
  pub expires_at : ℕ
  pub ended_at : Option ℕ

pub data PolicyStatus : Type 0 where
  draft active inactive : PolicyStatus

pub record SecurityPolicy : Type 0 where
  pub id : String
  pub display_name : String
  pub status : PolicyStatus
  pub active_revision_id : Option String

pub data RevisionStatus : Type 0 where
  draft published : RevisionStatus

pub record PolicyRevision : Type 0 where
  pub id : String
  pub policy_id : String
  pub version : ℕ
  pub document : String
  pub document_digest : String
  pub status : RevisionStatus
  pub published_at : Option ℕ

pub data BundleStatus : Type 0 where
  staged published superseded : BundleStatus

pub record PolicyBundle : Type 0 where
  pub id : String
  pub revision_id : String
  pub compiler_version : String
  pub bundle_digest : String
  pub gateway_config : String
  pub signature : Option String
  pub signing_key_id : Option String
  pub status : BundleStatus
  pub published_at : ℕ

pub record Declassification : Type 0 where
  pub id : String
  pub session_id : String
  pub rule_id : String
  pub purpose_digest : String
  pub removed_labels : List String
  pub policy_digest : String

pub record CredentialLease : Type 0 where
  pub id : String
  pub credential_id : String
  pub session_id : String
  pub surface : String
  pub resource_digest : String
  pub secret_digest : String
  pub expires_at : ℕ
  pub consumed_at : ℕ

pub record RoleBinding : Type 0 where
  pub id : String
  pub principal_id : String
  pub role : String
  pub created_by : String

pub record ResponseAction : Type 0 where
  pub id : String
  pub action : String
  pub target_type : String
  pub target_id : String
  pub actor_id : String
  pub reason_digest : String
  pub previous_status : String
  pub resulting_status : String

pub record Endpoint : Type 0 where
  pub id : String
  pub kind : String
  pub display_name : String
  pub socket_path : String
  pub runtime_version : Option String
  pub protocol_version : Option String
  pub status : String
  pub last_error : Option String
  pub last_seen_at : Option ℕ

pub record PolicyRollout : Type 0 where
  pub id : String
  pub bundle_id : String
  pub percentage : ℕ
  pub status : String
  pub created_by : String

pub record RolloutTarget : Type 0 where
  pub id : String
  pub rollout_id : String
  pub endpoint_id : String
  pub cohort : ℕ
  pub status : String

-- What an integration is known to protect.
pub data Assurance : Type 0 where
  unknown observed verified degraded : Assurance

-- `last_hook_at` and the other times that the daemon reports are texts.
pub record Integration : Type 0 where
  pub id : String
  pub endpoint_id : String
  pub project_id : String
  pub workspace_id : String
  pub name : String
  pub status : String
  pub assurance : Assurance
  pub last_sequence : ℕ
  pub head_hash : Option String
  pub unresolved_gaps : ℕ
  pub last_hook_at : Option String
  pub last_seen_at : Option String

-- `contract_ids` and `evidence_refs` are the lists that the columns hold as JSON; `id` is the place
-- of the row in its table.
pub record SecurityEvent : Type 0 where
  pub source_id : String
  pub upstream_event_id : String
  pub integration_id : String
  pub project_id : String
  pub sequence : ℕ
  pub event_type : String
  pub actor_kind : String
  pub agent_kind : Option String
  pub native_session_id : Option String
  pub acr_session_id : Option String
  pub decision_kind : Option String
  pub contract_ids : List String
  pub evidence_refs : List String
  pub previous_hash : String
  pub payload_hash : String
  pub event_hash : String
  pub occurred_at : String
  pub recorded_at : String

pub record EventLink : Type 0 where
  pub source_id : String
  pub upstream_event_id : String
  pub integration_id : String
  pub correlation_id : Option String
  pub causation_event_id : Option String
  pub native_turn_id : Option String
  pub native_tool_use_id : Option String

pub record SyncCursor : Type 0 where
  pub integration_id : String
  pub last_sequence : ℕ

pub data CheckStatus : Type 0 where
  pass warn fail : CheckStatus

-- `expires_at` is the time that the text in the column stands for; the references and the metrics
-- are kept as JSON.
pub record CapabilityProof : Type 0 where
  pub id : String
  pub integration_id : String
  pub receipt_id : String
  pub capability : String
  pub status : CheckStatus
  pub code : String
  pub required : Bool
  pub observed_at : Option String
  pub evidence_refs : List String
  pub metrics : List (String × ℕ)
  pub attestation : String
  pub checked_at : ℕ
  pub expires_at : ℕ
