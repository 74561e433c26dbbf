-- ===== src/Security/Tests/Daemon.antt =====
-- The synchronization with a daemon at concrete inputs.
use mathlib.Core.Path.{subst}
use agent_factor.Base.{
  ℕ, ◌<◌, String, ◌<>◌, Bool, true, false, ◌≡◌, refl, arith, Option, none, some, List, [], ◌∷◌,
  Result, err, ◌↔◌, if◌then◌else◌, ◌==◌,
}
use agent_factor.Base.{
  string_eq, option_eq, nat_eq, ℕ_discrete, any, all, filter, find?, update_where, str_length,
  every_char, length, is_alphanumeric,
}
use agent_factor.Json.{end}
use agent_factor.Security.Model.{
  State, Integration, Assurance, CapabilityProof, CheckStatus, pass, warn, session_scope,
}
use agent_factor.Security.Samples.{start}
use agent_factor.Security.Sync.Daemon.{
  Capabilities, Workspace, DaemonEvent, EventPage, Daemon, reply, fault, refused, unavailable,
  sync_error,
}
use agent_factor.Security.Sync.Posture.{
  SyncReport, sync, read_posture, sync_workspaces, capabilities, validate_capabilities, is_subset,
  check_head, upsert_integration, upsert_endpoint, assurance_of, handle_failure, is_caught,
  mark_missing_integrations, next_workspace, record_endpoint_failure, set_endpoint_row,
  failure_code, code_of,
}
use agent_factor.Security.Sync.Posture.Failed.{IsDegraded, Raises, sync-IsDegraded}
use agent_factor.Security.Sync.Posture.Ending.{Ends, sync-ends}
use agent_factor.Security.Sync.Pages.{
  cursor_of, sync_workspace, sync_pages, resume, sync_page, check_page, validate_event_chain,
  expected_hash, check_chain, ingest_events, next_round, store_page, write_cursor,
}
use agent_factor.Security.Sync.Ingest.{
  check_event, decision_of, event_row, ingest_event, is_event_hash, is_metadata_id, new_decision,
  safe_identifier, safe_identifiers, safe_text, upsert_event_link,
}
use agent_factor.Security.Gateway.Ids.{is_safe_char, is_hex_char}
use agent_factor.Store.{get}
use agent_factor.Store.Upsert.{upsert}
use agent_factor.Security.Sync.Proofs.{effective_assurance}
use agent_factor.Security.Sync.Proofs.Effective.{CountsVerified, effective_assurance-CountsVerified}

reply-injective : {A : Type 0} (a b : A) → reply a ≡ reply b → a ≡ b
reply-injective a b h = ground arith

abbrev spoken : Capabilities
spoken = record {
  protocol_version = "acr.control/v1alpha1";
  runtime_version = "1";
  action_schema = "acr.action/v1alpha1";
  decision_schema = "acr.decision/v1alpha1";
  event_schema = "acr.event/v1alpha1";
  transport = "unix";
  operations = "capabilities" ∷ "posture" ∷ "events" ∷ [];
  agents = [];
  decisions = "pass" ∷ "rewrite" ∷ "repair" ∷ "ask" ∷ "deny" ∷ [];
  maximum_page_size = 1;
}

abbrev workspace : Workspace
workspace = record {
  workspace_id = "w1";
  project_id = "p";
  name = "work";
  path = "/work";
  canonical_path = "/work";
  enabled = true;
  status = "healthy";
  registered_at = "t0";
  last_seen_at = none;
  last_hook_at = some "t1";
  last_sequence = 2;
  head_hash = none;
  unresolved_gaps = 0;
  detail = "";
}

-- Sixteen zeros, ones or twos, four times.
abbrev hash_of : String → String
hash_of s =
    let four = s <> s <> s <> s in
    let sixteen = four <> four <> four <> four in sixteen <> sixteen <> sixteen <> sixteen

abbrev event : String → ℕ → String → String → DaemonEvent
event event_id sequence previous own = record {
  schema_version = "acr.event/v1alpha1";
  event_id = event_id;
  project_id = "p";
  workspace_id = "w1";
  sequence = sequence;
  occurred_at = "t1";
  recorded_at = "t1";
  type = "hook.started";
  actor = record {
    kind = "agent";
    agent_kind = none;
    native_session_id = none;
    acr_session_id = none;
  };
  causality = record {
    correlation_id = none;
    causation_event_id = none;
    native_turn_id = none;
    native_tool_use_id = none;
  };
  payload = end;
  evidence_refs = [];
  previous_hash = previous;
  payload_hash = hash_of "0";
  event_hash = own;
}

abbrev page : List DaemonEvent → ℕ → Bool → EventPage
page events next_sequence has_more = record {
  protocol_version = "acr.control/v1alpha1";
  workspace_id = "w1";
  project_id = "p";
  events = events;
  next_sequence = next_sequence;
  has_more = has_more;
}

-- Two events, a page each.
abbrev pages : ℕ → EventPage
pages after =
    if after == 0
    then page (event "e1" 1 "" (hash_of "1") ∷ []) 1 true
    else if after == 1
    then page (event "e2" 2 (hash_of "1") (hash_of "2") ∷ []) 2 false
    else page [] after false

abbrev daemon : Daemon
daemon = record {
  socket_path = "/run/acr";
  capabilities = reply spoken;
  posture = reply (record {
    protocol_version = "acr.control/v1alpha1";
    runtime_version = "1";
    workspaces = workspace ∷ [];
  });
  events = λ workspace_id after limit. reply (pages after);
  canary = λ workspace_id. fault refused;
}

-- Unfolding this definition unfolds all that a run of `sync` computes with.
run_sync : Daemon → State → Option (Result SyncReport × State)
unfolding sync read_posture sync_workspaces sync_workspace sync_pages cursor_of capabilities
    validate_capabilities is_subset check_head resume sync_page check_page upsert_integration
    upsert_endpoint validate_event_chain expected_hash check_chain ingest_events next_round
    store_page write_cursor assurance_of handle_failure is_caught mark_missing_integrations
    next_workspace record_endpoint_failure set_endpoint_row failure_code code_of check_event
    decision_of event_row ingest_event is_event_hash is_metadata_id new_decision safe_identifier
    safe_identifiers safe_text upsert_event_link is_safe_char is_hex_char is_alphanumeric upsert get
    session_scope all any find? filter update_where every_char str_length string_eq nat_eq
    ℕ_discrete
run_sync daemon s = sync 5 daemon 3 s

abbrev synchronized : Option (Result SyncReport × State)
synchronized = sync 5 daemon 3 start

pages-end : (after : ℕ) → (pages after).has_more ≡ true → (pages after).next_sequence < 2
pages-end after h = ground arith

sync-ends_example : Ends synchronized
sync-ends_example = sync-ends daemon 3 2 (omega arith) 5 start (λ w limit after p e more.
    subst (λ (x : EventPage). x.has_more ≡ true → x.next_sequence < 2) (reply-injective _ _ e)
      (pages-end after) more)

-- How many rows a synchronization has stored.
abbrev stored : Option (Result SyncReport × State) → ℕ
stored none = 0
stored (some (r, s)) = length s.db.events

abbrev reported : Option (Result SyncReport × State) → Result SyncReport
reported none = err "fuel" 0
reported (some (r, s)) = r

-- Both events are stored.
synchronized-stored : stored (run_sync daemon start) ≡ 2
unfolding run_sync
synchronized-stored = refl

-- A daemon that is not there.
abbrev absent_daemon : Daemon
absent_daemon = record daemon { capabilities = fault unavailable }

abbrev failed : Option (Result SyncReport × State)
failed = sync 5 absent_daemon 3 start

failed-raises : reported (run_sync absent_daemon start) ≡ err sync_error 500
unfolding run_sync
failed-raises = refl

abbrev after_failure : State
after_failure = record start {
  db = record_endpoint_failure 5 absent_daemon "ACRUnavailableError" start.db;
}

failed-eq : failed ≡ some (err sync_error 500, after_failure)
unfolding sync read_posture capabilities handle_failure is_caught string_eq
failed-eq = refl

sync-IsDegraded_example :
    (cause : String) × Raises 5 absent_daemon 3 start cause × IsDegraded cause after_failure.db
sync-IsDegraded_example = sync-IsDegraded 5 absent_daemon 3 500 start after_failure failed-eq

abbrev integration : Integration
integration = record {
  id = "w1";
  endpoint_id = "acr-local";
  project_id = "p";
  workspace_id = "w1";
  name = "work";
  status = "healthy";
  assurance = Assurance.observed;
  last_sequence = 2;
  head_hash = none;
  unresolved_gaps = 0;
  last_hook_at = some "t1";
  last_seen_at = none;
}

abbrev proof_of : Bool → CheckStatus → CapabilityProof
proof_of required status = record {
  id = "w1:event_chain";
  integration_id = "w1";
  receipt_id = "receipt";
  capability = "event_chain";
  status = status;
  code = "event_chain_verified";
  required = required;
  observed_at = none;
  evidence_refs = [];
  metrics = [];
  attestation = "local-unsigned";
  checked_at = 1;
  expires_at = 10;
}

effective_assurance-CountsVerified_example :
    (effective_assurance 5 integration (proof_of true pass ∷ proof_of false warn ∷ [])
      ≡ Assurance.verified)
    ↔ CountsVerified 5 integration (proof_of true pass ∷ proof_of false warn ∷ [])
effective_assurance-CountsVerified_example =
    effective_assurance-CountsVerified 5 integration (proof_of true pass ∷ proof_of false warn ∷ [])
