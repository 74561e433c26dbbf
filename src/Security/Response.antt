-- ===== src/Security/Response.antt =====
-- security/response.py: blocking sessions and quarantining endpoints, with the evidence of it.
use agent_factor.Base.{ℕ, String, ◌<>◌, Bool, none, some}
use agent_factor.Base.{◌==◌, string_eq, if◌then◌else◌, update_where, leb}
use agent_factor.Base.{Result, ok, err, Exec, and_then, ◌>>=◌}
use agent_factor.Store.{get, add}
use agent_factor.Security.Model.{
  Db, State, Machine, NativeSession, SessionStatus, Endpoint, session_scope, draw,
}

pub record Response : Type 0 where
  pub id : String
  pub action : String
  pub target_type : String
  pub target_id : String
  pub previous_status : String
  pub resulting_status : String

abbrev pub status_name : SessionStatus → String
status_name SessionStatus.active = "active"
status_name SessionStatus.blocked_session = "blocked"
status_name SessionStatus.closed = "closed"

-- What a response is told and who gives it.
pub record Order : Type 0 where
  pub id : String
  pub actor_id : String
  pub reason_digest : String

-- `_record`
unfoldable pub record_response :
    Order → String → String → String → String → String → Db → Result (Response × Db)
record_response order action target_type target_id previous resulting db =
    and_then
      (add (λ r. r.id)
        (record {
          id = order.id;
          action = action;
          target_type = target_type;
          target_id = target_id;
          actor_id = order.actor_id;
          reason_digest = order.reason_digest;
          previous_status = previous;
          resulting_status = resulting;
        })
        db.responses)
      (λ responses. ok (
        record {
          id = order.id;
          action = action;
          target_type = target_type;
          target_id = target_id;
          previous_status = previous;
          resulting_status = resulting;
        },
        record db { responses = responses },
      ))

abbrev pub set_status : SessionStatus → NativeSession → NativeSession
set_status status s = record s { status = status }

abbrev pub write_status : String → SessionStatus → Db → Db
write_status session_id status db = record db {
  sessions = update_where (λ s. s.id == session_id) (set_status status) db.sessions;
}

-- The block of `session_status`
unfoldable pub session_rows : ℕ → Order → String → Bool → Db → Result (Response × Db)
unfolding record_response
session_rows now order session_id blocked db = elim (get (λ s. s.id) session_id db.sessions) [
  | none ↦ err "native_session_not_found" 404
  | some session ↦
      if blocked
      then record_response order "session_block" "native_session" session_id
          (status_name session.status) "blocked"
          (write_status session_id SessionStatus.blocked_session db)
      else if leb session.expires_at now
      then err "native_session_expired" 409
      else record_response order "session_unblock" "native_session" session_id
          (status_name session.status) "active" (write_status session_id SessionStatus.active db)
]

abbrev pub set_endpoint : String → Endpoint → Endpoint
set_endpoint status e = record e { status = status }

-- The block of `endpoint_status`
unfoldable pub endpoint_rows : Order → String → Bool → Db → Result (Response × Db)
unfolding record_response
endpoint_rows order endpoint_id quarantined db = elim (get (λ e. e.id) endpoint_id db.endpoints) [
  | none ↦ err "security_endpoint_not_found" 404
  | some endpoint ↦
      let resulting = if quarantined then "quarantined" else "unknown" in
      let action = if quarantined then "endpoint_quarantine" else "endpoint_release" in
      record_response order action "endpoint" endpoint_id endpoint.status resulting (record db {
        endpoints = update_where (λ e. e.id == endpoint_id) (set_endpoint resulting) db.endpoints;
      })
]

module _ (machine : Machine) where
  open machine use {uuid_hex, sha256_hex}

  abbrev pub order_of : ℕ → String → String → Order
  order_of n actor_id reason = record {
    id = "response_action_" <> uuid_hex n;
    actor_id = actor_id;
    reason_digest = "sha256:" <> sha256_hex reason;
  }

  -- `session_status`
  unfoldable pub session_status : ℕ → String → Bool → String → String → Exec State Response
  session_status now session_id blocked actor_id reason = do
    n ← draw 1
    session_scope (session_rows now (order_of n actor_id reason) session_id blocked)

  -- `endpoint_status`
  unfoldable pub endpoint_status : String → Bool → String → String → Exec State Response
  endpoint_status endpoint_id quarantined actor_id reason = do
    n ← draw 1
    session_scope (endpoint_rows (order_of n actor_id reason) endpoint_id quarantined)
