-- ===== src/Security/Network/Requests.antt =====
-- `request` of network.py, with the callbacks that authorize a hop and record what came of it.
use agent_factor.Base.{
  ℕ, zero, suc, ◌+◌, String, ◌<>◌, Bool, true, false, not, ◌||◌, ◌&&◌, Option, none, some, [], ◌∷◌,
  ◌++◌,
}
use agent_factor.Base.{◌==◌, string_eq, nat_eq, if◌then◌else◌, leb, ltb, decimal}
use agent_factor.Base.{Result, ok, err, Exec, pure, raise, lift, ◌>>=◌, ◌>>◌}
use agent_factor.Json.{Json, Fields, str, number, boolean, object, field, end}
use agent_factor.Store.{get}
use agent_factor.Store.Upsert.{upsert}
use agent_factor.Security.Model.{State, Machine}
use agent_factor.Security.Documents.{Document}
use agent_factor.Security.DataFlow.{EgressReply, authorize_egress}
use agent_factor.Security.Gateway.Decisions.{Decision, Consumed}
use agent_factor.Security.Network.{
  Headers, Url, Upstream, Answer, Web, Wire, Target, NetworkReply, Pending, Progress, finished,
  redirected, inside, is_redirect, or_text, some_text, maximum_redirects, validate_headers, deliver,
  check_host, resolve,
}

-- What a request is made with. `egress_destination` stands for the URL in the rules of egress.
pub record RequestArguments : Type 0 where
  pub session_id : String
  pub headers : Headers
  pub timeout_seconds : ℕ
  pub surface : String
  pub allow_authorization : Bool
  pub egress_destination : Option String

unfoldable pub request_target : Url → String
request_target parts =
    or_text (some parts.path) "/" <> (if parts.query == "" then "" else "?" <> parts.query)

-- `{**headers, "Host": …}`
unfoldable pub with_host : String → ℕ → Headers → Headers
with_host host port headers =
    let value = if port == 80 || port == 443 then host else host <> ":" <> decimal port in
    upsert (λ h. h.0) "Host" ("Host", value) (λ _. ("Host", value)) headers

-- The parameters that an action is authorized with.
unfoldable pub hop_params : Pending → Target → Fields
hop_params p t = field "method" (str p.method) (
    field "body_digest_present" (boolean (elim p.body [ none ↦ false | some _ ↦ true ]))
      (field "resolved_ip" (str t.address) (field "route_id" (str t.route_id) end)))

-- The summary that is recorded: the status stands in it only if the answer was read.
unfoldable pub summary : Target → Result Answer → Fields
summary t (err e n) = field "resolved_ip" (str t.address) (field "route_id" (str t.route_id) end)
summary t (ok a) = field "resolved_ip" (str t.address) (
    field "route_id" (str t.route_id)
      (field "status" (number (decimal a.status)) (field "bytes" (number (decimal a.size)) end)))

unfoldable pub succeeded : Result Answer → Bool
succeeded (err e n) = false
succeeded (ok a) = leb 200 a.status && ltb a.status 400

module _ (web : Web) (r : RequestArguments) where
  -- The connection of a hop, to the address that was checked.
  unfoldable pub upstream_of : Pending → Target → Url → Upstream
  upstream_of p t parts = record {
    method = p.method;
    scheme = parts.scheme;
    host = t.host;
    port = t.port;
    address = t.address;
    target = request_target parts;
    headers = with_host t.host t.port r.headers;
    body = p.body;
    timeout_seconds = r.timeout_seconds;
  }

  -- `_request_once`
  unfoldable pub request_once : Pending → Target → Exec Wire Answer
  request_once p t = elim (web.urlsplit t.normalized) [
    | none ↦ raise "ValueError" 500
    | some parts ↦ deliver web (upstream_of p t parts)
  ]

  -- What follows an answer: a reply, or the next round.
  unfoldable pub conclude :
      ℕ → Pending → Target → Option String → EgressReply → Answer → Result Progress
  conclude count p t known egress a =
      let hops =
        p.hops
        ++ (record {
          url = t.normalized;
          resolved_ip = t.address;
          status = a.status;
          route_id = t.route_id;
        })
          ∷ [] in
      let reply : NetworkReply = record {
        status = a.status;
        headers = a.headers;
        body = a.text;
        hops = hops;
        data_flow = egress;
      } in
      if not (is_redirect a.status)
      then ok (finished reply)
      else elim (some_text
          (elim (get (λ h. h.0) "location" a.headers) [ none ↦ none | some h ↦ some h.1 ])) [
            | none ↦ ok (finished reply)
            | some location ↦
                if count == maximum_redirects
                then err "network_redirect_limit" 502
                else elim (web.urljoin t.normalized location) [
                  | none ↦ err "ValueError" 500
                  | some url ↦ ok (
                      redirected (record {
                        url = url;
                        method = if a.status == 303 then "GET" else p.method;
                        body = if a.status == 303 then none else p.body;
                        authorization_host = known;
                        hops = hops;
                      }))
                ]
          ]

  module _ (machine : Machine) (parse : String → Option Document)
      (authorize : ℕ → String → Fields → Exec State (Decision × Consumed))
      (record_result : Decision → Consumed → Bool → Json → ℕ → Exec State String) where
    -- The `finally` records a result whether there was an answer or not, and its own exception takes
    -- the place of the other.
    unfoldable pub recorded : ℕ → Target → Decision × Consumed → Exec Wire Answer → Exec Wire Answer
    recorded count t (decision, grant) m w =
        let (answer, w') = m w in
        (inside (
              record_result decision grant (succeeded answer) (object (summary t answer))
                (web.elapsed_ms count))
            >> lift answer)
          w'

    -- One round of the loop. The round is passed on for the clock that the authorization reads.
    unfoldable pub hop : ℕ → Pending → Exec Wire Progress
    hop count p = do
      t ← inside (resolve web parse count p.url)
      known ← lift (check_host web r.headers p.authorization_host t.host)
      egress ← inside (
          authorize_egress machine parse r.session_id r.surface
            (or_text r.egress_destination t.normalized))
      allowed ← inside (authorize count t.normalized (hop_params p t))
      answer ← recorded count t allowed (request_once p t)
      lift (conclude count p t known egress answer)

    -- What a round leads to.
    unfoldable pub next_hop : (Pending → Exec Wire NetworkReply) → Progress → Exec Wire NetworkReply
    next_hop loop (finished reply) = pure reply
    next_hop loop (redirected p) = loop p

    -- The loop, with the rounds that are left.
    unfoldable pub follow : ℕ → ℕ → Pending → Exec Wire NetworkReply
    follow zero count p = raise "network_redirect_limit" 502
    follow (suc rounds) count p = hop count p >>= next_hop (follow rounds (count + 1))

    -- `request`
    unfoldable pub request : String → String → Option String → Exec Wire NetworkReply
    request method url body = do
      lift (validate_headers web r.allow_authorization r.headers)
      follow (maximum_redirects + 1) 0
          (record { url = url; method = method; body = body; authorization_host = none; hops = [] })
