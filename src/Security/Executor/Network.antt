-- ===== src/Security/Executor/Network.antt =====
-- `network_request` of executor.py: a request of a native session, each hop of it authorized by the
-- gateway and recorded.
pub mod Policy
pub mod Contained
use agent_factor.Base.{ℕ, String, Bool, false, not, ◌||◌, Option, none, some, List, [], ◌∷◌}
use agent_factor.Base.{any, ltb, str_length, guard, length}
use agent_factor.Base.{Result, ok, err, Exec, pure, lift, continue, ◌>>=◌, ◌>>◌}
use agent_factor.Json.{Json, Fields}
use agent_factor.Security.Model.{State, Machine, NativeSession}
use agent_factor.Security.Documents.{Document}
use agent_factor.Security.DataFlow.{taint_session}
use agent_factor.Security.Gateway.Action.{network}
use agent_factor.Security.Gateway.Decisions.{Decision, Consumed, record_execution_result}
use agent_factor.Security.Network.{Headers, Web, Wire, NetworkReply, inside}
use agent_factor.Security.Network.Requests.{RequestArguments, request}
use agent_factor.Security.Executor.{native_session, native_action, authorize_native}

-- `NativeNetworkRequest`
pub record NetworkRequest : Type 0 where
  pub session_id : String
  pub token : String
  pub method : String
  pub url : String
  pub headers : Headers
  pub body : Option String
  pub timeout_seconds : ℕ

pub record NetworkResponse : Type 0 where
  pub result : NetworkReply
  pub session_taint : List String

abbrev pub maximum_native_io_bytes : ℕ
maximum_native_io_bytes = 1048576

-- The size of a body: `len(request.body.encode("utf-8"))` is `byte_length`.
unfoldable pub is_too_large : (String → ℕ) → Option String → Bool
is_too_large byte_length none = false
is_too_large byte_length (some body) = ltb maximum_native_io_bytes (byte_length body)

unfoldable pub has_long_header : Headers → Bool
has_long_header headers =
    ltb 64 (length headers)
    || any (λ h. ltb 256 (str_length h.0) || ltb 8192 (str_length h.1)) headers

-- What the request of a session is made with.
abbrev pub network_arguments : NativeSession → NetworkRequest → RequestArguments
network_arguments session q = record {
  session_id = session.id;
  headers = q.headers;
  timeout_seconds = q.timeout_seconds;
  surface = "network";
  allow_authorization = false;
  egress_destination = none;
}

-- The clock is read when the session is looked up, and twice in each round.
module _ (web : Web) (machine : Machine) (parse : String → Option Document)
    (byte_length : String → ℕ) (now : ℕ) (clock : ℕ → ℕ × ℕ) where
  -- The two callbacks.
  unfoldable pub authorize_hop :
      NativeSession → ℕ → String → Fields → Exec State (Decision × Consumed)
  authorize_hop session count resource params =
      authorize_native machine (clock count).0 (clock count).1
        (native_action machine session network "request" resource params)

  unfoldable pub record_hop : Decision → Consumed → Bool → Json → ℕ → Exec State String
  record_hop decision grant succeeded summary duration =
      record_execution_result machine decision.id grant.grant_id succeeded summary duration

  -- `network_request`
  unfoldable pub network_request : NetworkRequest → Exec Wire NetworkResponse
  network_request q = do
    session ← inside (native_session machine now q.session_id q.token)
    lift (guard (not (is_too_large byte_length q.body)) "native_io_too_large" 413)
    lift (guard (not (has_long_header q.headers)) "network_headers_invalid" 400)
    value ←
        request web (network_arguments session q) machine parse (authorize_hop session) record_hop
          q.method q.url q.body
    inside (do
      session_taint ← taint_session session.id ("untrusted-content" ∷ [])
      pure (record { result = value; session_taint = session_taint }))
