-- ===== src/Security/Sync/Ingest.antt =====
-- `_validate_event_chain`, `_ingest_event` and `_upsert_event_link` of service.py.
use agent_factor.Base.{
  ℕ, String, ◌<>◌, Bool, false, not, ◌&&◌, ◌||◌, Option, none, some, List, [], ◌∷◌, ◌++◌,
}
use agent_factor.Base.{
  ◌==◌, string_eq, nat_eq, if◌then◌else◌, any, ltb, leb, str_length, every_char,
}
use agent_factor.Base.{Result, ok, err, guard, and_then, then_do}
use agent_factor.Base.{and_then as ◌>>=◌, then_do as ◌>>◌}
use agent_factor.Json.{Json, str, null, Fields, get_field, as_str?, as_list?, as_dict?}
use agent_factor.Store.{add, integrity_error}
use agent_factor.Security.Model.{Db, RiskAlert, block, SecurityEvent, EventLink}
use agent_factor.Security.Gateway.Ids.{is_safe_char, is_hex_char, is_sha256}
use agent_factor.Security.Sync.Daemon.{DaemonEvent, Workspace, sync_error, event_schema_version}

-- `SAFE_METADATA_IDENTIFIER.fullmatch(s)`
unfoldable pub is_metadata_id : String → Bool
is_metadata_id s = ltb 0 (str_length s) && leb (str_length s) 256 && every_char is_safe_char s

-- `EVENT_HASH.fullmatch(s)`
unfoldable pub is_event_hash : String → Bool
is_event_hash s = str_length s == 64 && every_char is_hex_char s

-- `_safe_identifier` of a text, and of a text or `None`
unfoldable pub safe_text : String → Option String
unfolding is_metadata_id
safe_text s = if is_metadata_id s then some s else none

unfoldable pub safe_identifier : Option String → Option String
unfolding safe_text
safe_identifier none = none
safe_identifier (some s) = safe_text s

unfoldable pub safe_identifiers : List String → List String
safe_identifiers [] = []
safe_identifiers (s ∷ ss) =
    let rest = safe_identifiers ss in if is_metadata_id s then s ∷ rest else rest

-- `DECISION_EVENTS.get(type)`
unfoldable pub decision_of : String → Option String
decision_of type =
    if type == "action.passed"
    then some "pass"
    else if type == "action.rewritten"
    then some "rewrite"
    else if type == "repair.planned"
    then some "repair"
    else if type == "action.asked"
    then some "ask"
    else if type == "action.denied"
    then some "deny"
    else none

fail : {A : Type 0} → Result A
fail = err sync_error 500

-- The contracts that the matches of a decision name.
match_contract : Json → Option String
match_contract match = elim (as_dict? match) [
  | none ↦ none
  | some fields ↦ elim (get_field "contract_id" fields) [
    | none ↦ none
    | some value ↦ safe_identifier (as_str? value)
  ]
]

unfoldable pub contracts : List Json → List String
unfolding match_contract
contracts [] = []
contracts (match ∷ matches) =
    let rest = contracts matches in
    elim (match_contract match) [ none ↦ rest | some id ↦ id ∷ rest ]

-- The fingerprint of the payload: `None`, or a text of the right form.
fingerprint_of : Option Json → Result (Option String)
unfolding fail
fingerprint_of none = ok none
fingerprint_of (some null) = ok none
fingerprint_of (some (str s)) = if is_sha256 s then ok (some s) else fail
fingerprint_of (some _) = fail

-- `payload.get("matches", [])`, which has to be a list.
matches_of : Option Json → Result (List Json)
unfolding fail
matches_of none = ok []
matches_of (some value) = elim (as_list? value) [ none ↦ fail | some matches ↦ ok matches ]

-- What a decision event says: the contracts, and the fingerprint of its action.
unfoldable pub decision_payload : String → Fields → Result (List String × Option String)
unfolding fail matches_of fingerprint_of
decision_payload kind payload =
    if not (elim (get_field "kind" payload) [
      | none ↦ false
      | some value ↦ elim (as_str? value) [ none ↦ false | some k ↦ k == kind ]
    ])
    then fail
    else do
      matches ← matches_of (get_field "matches" payload)
      fingerprint ← fingerprint_of (get_field "action_fingerprint" payload)
      ok (contracts matches, fingerprint)

abbrev pub source : String → String
source workspace_id = "acr:" <> workspace_id

abbrev pub is_known : String → String → SecurityEvent → Bool
is_known source_id event_id e = e.source_id == source_id && e.upstream_event_id == event_id

-- The flush of an alert: its identifier is new, and so is the event that it is about.
add_alert : RiskAlert → List RiskAlert → Result (List RiskAlert)
add_alert row rows =
    if any
      (λ a. elim a.source_event_id [
        | none ↦ false
        | some id ↦ elim row.source_event_id [ none ↦ false | some new ↦ id == new ]
      ])
      rows
    then err integrity_error 500
    else add (λ a. a.id) row rows

-- A question that the daemon asked is an alert.
unfoldable pub ask_alert :
    Workspace → DaemonEvent → Option String → List RiskAlert → Result (List RiskAlert)
unfolding add_alert
ask_alert workspace event fingerprint rows =
    add_alert
      (record {
        id = "alert_acr_" <> event.event_id;
        decision_id = none;
        integration_id = some workspace.workspace_id;
        source_event_id = some event.event_id;
        action_fingerprint = elim fingerprint [
          | none ↦ "sha256:" <> event.event_hash
          | some text ↦ if text == "" then "sha256:" <> event.event_hash else text
        ];
        effect = block;
        reason_code = "acr_ask_blocked";
      })
      rows

unfoldable pub event_row : Workspace → DaemonEvent → Option String → List String → SecurityEvent
event_row workspace event decision_kind contract_ids = record {
  source_id = source workspace.workspace_id;
  upstream_event_id = event.event_id;
  integration_id = workspace.workspace_id;
  project_id = workspace.project_id;
  sequence = event.sequence;
  event_type = event.type;
  actor_kind = event.actor.kind;
  agent_kind = safe_identifier event.actor.agent_kind;
  native_session_id = safe_identifier event.actor.native_session_id;
  acr_session_id = safe_identifier event.actor.acr_session_id;
  decision_kind = decision_kind;
  contract_ids = contract_ids;
  evidence_refs = safe_identifiers event.evidence_refs;
  previous_hash = event.previous_hash;
  payload_hash = event.payload_hash;
  event_hash = event.event_hash;
  occurred_at = event.occurred_at;
  recorded_at = event.recorded_at;
}

-- `_upsert_event_link`
unfoldable pub upsert_event_link : Workspace → DaemonEvent → List EventLink → List EventLink
upsert_event_link workspace event rows =
    if any
      (λ l. l.source_id == source workspace.workspace_id && l.upstream_event_id == event.event_id)
      rows
    then rows
    else rows
      ++ record {
        source_id = source workspace.workspace_id;
        upstream_event_id = event.event_id;
        integration_id = workspace.workspace_id;
        correlation_id = safe_identifier event.causality.correlation_id;
        causation_event_id = safe_identifier event.causality.causation_event_id;
        native_turn_id = safe_identifier event.causality.native_turn_id;
        native_tool_use_id = safe_identifier event.causality.native_tool_use_id;
      }
        ∷ []

-- The checks that `_ingest_event` begins with.
unfoldable pub check_event : Workspace → DaemonEvent → Result (Unit {0})
check_event workspace event = do
  guard
      (event.schema_version == event_schema_version
        && event.workspace_id == workspace.workspace_id
        && event.project_id == workspace.project_id)
      sync_error 500
  guard
      (is_metadata_id event.event_id
        && is_metadata_id event.type
        && is_metadata_id event.actor.kind)
      sync_error 500
  guard
      (is_event_hash event.payload_hash
        && is_event_hash event.event_hash
        && (event.previous_hash == "" || is_event_hash event.previous_hash))
      sync_error 500

-- The decision, the contracts and the alert of an event that is new.
unfoldable pub new_decision :
    Workspace → DaemonEvent → List RiskAlert → Result (Option String × List String × List RiskAlert)
new_decision workspace event alerts = elim (decision_of event.type) [
  | none ↦ ok (none, [], alerts)
  | some kind ↦ and_then (decision_payload kind event.payload) (λ payload.
      and_then (if kind == "ask" then ask_alert workspace event payload.1 alerts else ok alerts)
        (λ alerts'. ok (some kind, payload.0, alerts')))
]

-- `_ingest_event`: 1 for an event that was stored, 0 for one that was known.
unfoldable pub ingest_event : Workspace → DaemonEvent → Db → Result (ℕ × Db)
ingest_event workspace event db =
    let linked = record db { event_links = upsert_event_link workspace event db.event_links } in
    then_do (check_event workspace event) (
      if any (is_known (source workspace.workspace_id) event.event_id) db.events
      then ok (0, linked)
      else and_then (new_decision workspace event db.alerts) (λ decision. ok (
        1,
        record linked {
          alerts = decision.2;
          events = db.events ++ event_row workspace event decision.0 decision.1 ∷ [];
        },
      )))
