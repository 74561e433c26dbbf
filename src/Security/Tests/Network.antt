-- ===== src/Security/Tests/Network.antt =====
-- Requests over the network at concrete inputs.
use agent_factor.Base.{
  ℕ, String, Bool, true, false, ◌≡◌, refl, Option, none, some, List, [], ◌∷◌, Exec, pure, map,
}
use agent_factor.Base.{◌==◌, string_eq, if◌then◌else◌, any}
use agent_factor.Base.{
  has_char, find?, decimal, nat_eq, map_result, filter, update_where, difference, sorted_set,
  sort_by, ends_with, rstrip_dots, ℕ_discrete,
}
use agent_factor.Security.Documents.{active_document, revision_document}
use agent_factor.Security.Model.{session_scope}
use agent_factor.Store.{get}
use agent_factor.Store.Upsert.{upsert}
use agent_factor.Security.Network.{
  validate_headers, resolve, check_url, find_target, serves, host_matches, check_host,
  lower_headers, parse_address, pick_address, port_or_default, read_answer, resolve_address,
}
use agent_factor.Security.Network.Requests.{
  follow, hop, conclude, hop_params, next_hop, recorded, request_once, request_target, succeeded,
  summary, upstream_of, with_host,
}
use agent_factor.Security.DataFlow.{
  authorize_egress, covers, decide_egress, egress_allowed, egress_rule_ids, find_session, is_public,
  session_labels,
}
use agent_factor.Security.Gateway.Ids.{drop_prefix}
use agent_factor.Json.{Json, Fields, object, field, str, array, cons, nil, end}
use agent_factor.Security.Model.{State, Machine, block}
use agent_factor.Security.Model.Keeps.{Keeps-pure}
use agent_factor.Security.Documents.{Document, active_rows, no_document}
use agent_factor.Security.Gateway.Decisions.{Decision, Consumed}
use agent_factor.Security.Network.{Web, Wire, Url, Answer, Upstream, Headers, is_header_blocked}
use agent_factor.Security.Network.Requests.{RequestArguments, request}
use agent_factor.Security.Network.Contained.Sent.{Sends}
use agent_factor.Security.Network.Contained.Whole.{request-Sends}
use agent_factor.Security.Executor.Network.{NetworkRequest, network_request}
use agent_factor.Security.Executor.Network.Contained.{network_request-Sends}
use agent_factor.Security.Samples.{machine, flowing}

-- Two hosts: the first one redirects to the second.
abbrev url_of : String → Url
url_of host = record {
  scheme = "https";
  hostname = some host;
  has_userinfo = false;
  port = some none;
  path = "/";
  query = "";
}

abbrev answers : List Upstream → Answer
answers [] = record { status = 302; headers = ("location", "b") ∷ []; size = 0; text = "" }
answers (_ ∷ _) = record { status = 200; headers = []; size = 2; text = "ok" }

abbrev web : Web
web = record {
  lower = λ s. s;
  urlsplit = λ url. some (url_of url);
  urlunsplit = λ scheme netloc path query. if netloc == "a:443" then "a" else "b";
  urljoin = λ base location. some location;
  getaddrinfo = λ count host port. some ("1.1.1.1" ∷ []);
  ip_address = λ name. some (record { text = name; is_global = true });
  exchange = λ before u. some (answers before);
  elapsed_ms = λ count. 1;
}

-- A policy with a route to the two hosts.
abbrev routed : Document
routed = record no_document {
  network_routes =
      record {
        id = "route";
        schemes = "https" ∷ [];
        host_patterns = "a" ∷ "b" ∷ [];
        ports = 443 ∷ [];
        allow_private_ips = false;
      }
      ∷ [];
}

abbrev parse_routed : String → Option Document
parse_routed text = some routed

abbrev wire : Wire
wire = record { state = flowing; sent = [] }

abbrev arguments : Headers → RequestArguments
arguments headers = record {
  session_id = "n2";
  headers = headers;
  timeout_seconds = 30;
  surface = "network";
  allow_authorization = true;
  egress_destination = none;
}

abbrev decision : Decision
decision = record {
  id = "d";
  effect = block;
  reason_code = "";
  rule_id = none;
  action_fingerprint = "";
  policy_digest = "";
  policy_version = "";
  execution_grant = none;
}

abbrev allow : ℕ → String → Fields → Exec State (Decision × Consumed)
allow count resource params =
    pure (decision, record { grant_id = "g"; decision_id = "d"; action_fingerprint = "" })

abbrev note : Decision → Consumed → Bool → Json → ℕ → Exec State String
note d c b j n = pure "result"

abbrev secret : Headers
secret = ("authorization", "Bearer key") ∷ []

request-Sends_example :
    Sends web secret
      (active_rows parse_routed flowing.db)
      parse_routed
      6
      none
      []
      (request web (arguments secret) machine parse_routed allow note "GET" "a" none wire)
request-Sends_example =
    request-Sends web (arguments secret) (active_rows parse_routed flowing.db) parse_routed note
      (λ d c b j n. Keeps-pure "result") machine allow (λ count resource params. Keeps-pure _) "GET"
      "a" none wire refl

abbrev hosts : List Upstream → List String
hosts us = map (λ u. u.host) us

-- The redirect is followed, and refused where it would take the credentials along.
plain_hosts :
    hosts (request web (arguments []) machine parse_routed allow note "GET" "a" none wire).1.sent
    ≡ "b" ∷ "a" ∷ []
unfolding has_char find? decimal nat_eq map_result filter update_where difference sorted_set sort_by
    ends_with rstrip_dots ℕ_discrete string_eq any active_document active_rows revision_document
    session_scope get upsert validate_headers is_header_blocked resolve check_url find_target serves
    host_matches check_host lower_headers parse_address pick_address port_or_default read_answer
    resolve_address request follow hop conclude hop_params next_hop recorded request_once
    request_target succeeded summary upstream_of with_host authorize_egress covers decide_egress
    egress_allowed egress_rule_ids find_session is_public session_labels drop_prefix
plain_hosts = refl

secret_hosts :
    hosts
      (request web (arguments secret) machine parse_routed allow note "GET" "a" none wire).1.sent
    ≡ "a" ∷ []
unfolding has_char find? decimal nat_eq map_result filter update_where difference sorted_set sort_by
    ends_with rstrip_dots ℕ_discrete string_eq any active_document active_rows revision_document
    session_scope get upsert validate_headers is_header_blocked resolve check_url find_target serves
    host_matches check_host lower_headers parse_address pick_address port_or_default read_answer
    resolve_address request follow hop conclude hop_params next_hop recorded request_once
    request_target succeeded summary upstream_of with_host authorize_egress covers decide_egress
    egress_allowed egress_rule_ids find_session is_public session_labels drop_prefix
secret_hosts = refl

-- A policy of the gateway under which requests are recorded.
abbrev recording : Machine
recording = record machine {
  loads = λ text. some (
      object (
        field "policy_version" (str "p1") (
          field "rules"
            (array (
              cons
                (object (
                  field "id" (str "ask") (
                    field "effect" (str "record")
                      (field "operations" (array (cons (str "request") nil)) end))))
                nil))
            end)));
}

abbrev asked : Headers → NetworkRequest
asked headers = record {
  session_id = "n2";
  token = "t2";
  method = "GET";
  url = "a";
  headers = headers;
  body = none;
  timeout_seconds = 30;
}

network_request-Sends_example :
    Sends web []
      (active_rows parse_routed flowing.db)
      parse_routed
      6
      none
      []
      (network_request web recording parse_routed (λ s. 0) 7 (λ count. (7, 8)) (asked []) wire)
network_request-Sends_example =
    network_request-Sends web recording parse_routed (λ s. 0) 7 (λ count. (7, 8)) (asked []) wire
