-- ===== src/Security/Network.antt =====
-- security/network.py: the requests that leave over the network, each hop of a redirect with its own
-- route, address and authorization.
mod Types
pub mod Requests
pub mod Kept
pub mod Contained
unfoldable pub use Types.*
use agent_factor.Base.{ℕ, String, ◌<>◌, Bool, not, ◌||◌, ◌&&◌, Option, none, some, List, [], ◌∷◌}
use agent_factor.Base.{
  ◌==◌, contains, string_eq, nat_eq, if◌then◌else◌, any, find?, ltb, ends_with, rstrip_dots,
  has_char, decimal, sorted_set,
}
use agent_factor.Base.{
  Result, ok, err, Exec, raise, lift, continue, and_then, map_result, guard, ◌>>=◌, ◌>>◌,
}
use agent_factor.Security.Gateway.Ids.{drop_prefix}
use agent_factor.Json.{str, number}
use agent_factor.Store.Upsert.{upsert}
use agent_factor.Security.Model.{State}
use agent_factor.Security.Documents.{Document, NetworkRoute, active_document}

abbrev pub maximum_network_bytes : ℕ
maximum_network_bytes = 1048576

abbrev pub maximum_redirects : ℕ
maximum_redirects = 5

abbrev pub blocked_request_headers : List String
blocked_request_headers =
    "authorization" ∷ "cookie" ∷ "host" ∷ "proxy-authorization" ∷ "proxy-connection" ∷ []

abbrev pub is_redirect : ℕ → Bool
is_redirect status = contains (301 ∷ 302 ∷ 303 ∷ 307 ∷ 308 ∷ []) status

-- The truth of a text that may be `None`
abbrev pub some_text : Option String → Option String
some_text none = none
some_text (some s) = if s == "" then none else some s

abbrev pub or_text : Option String → String → String
or_text o d = elim (some_text o) [ none ↦ d | some s ↦ s ]

-- `parts.port or (443 if parts.scheme == "https" else 80)`
unfoldable pub port_or_default : String → Option ℕ → ℕ
port_or_default scheme given =
    let default : ℕ = if scheme == "https" then 443 else 80 in
    elim given [ none ↦ default | some p ↦ if p == 0 then default else p ]

module _ (web : Web) where
  open web use {lower, urlsplit, urlunsplit, urljoin, getaddrinfo, ip_address, exchange}

  -- `_host_matches`
  unfoldable pub host_matches : String → String → Bool
  host_matches host pattern =
      let value = lower (rstrip_dots pattern) in
      elim (drop_prefix "*." value) [
        | none ↦ host == value
        | some domain ↦ ends_with host ("." <> domain) && not (host == domain)
      ]

  -- The test of a header by `_validate_headers`.
  unfoldable pub is_header_blocked : Bool → String × String → Bool
  is_header_blocked allow_authorization (name, value) =
      name == ""
      || (contains blocked_request_headers (lower name)
          && not (allow_authorization && lower name == "authorization"))
      || has_char 13 name
      || has_char 10 name
      || has_char 13 value
      || has_char 10 value

  -- `_validate_headers`
  unfoldable pub validate_headers : Bool → Headers → Result (Unit {0})
  validate_headers allow_authorization headers =
      guard (not (any (is_header_blocked allow_authorization) headers)) "network_header_blocked" 400

  -- The test of a route in `_resolve`.
  unfoldable pub serves : String → String → ℕ → NetworkRoute → Bool
  serves scheme host port route =
      contains route.schemes scheme
      && contains route.ports port
      && any (host_matches host) route.host_patterns

  unfoldable pub parse_address : String → Result Address
  parse_address name = elim (ip_address name) [ none ↦ err "ValueError" 500 | some ip ↦ ok ip ]

  abbrev pub has_private : List Address → Bool
  has_private ips = any (λ ip. not ip.is_global) ips

  -- The first of the addresses, where all of them may be used.
  unfoldable pub pick_address : NetworkRoute → List Address → Result String
  pick_address route [] = err "IndexError" 500
  pick_address route (ip ∷ ips) =
      if not route.allow_private_ips && has_private (ip ∷ ips)
      then err "network_private_ip_blocked" 403
      else ok ip.text

  -- The addresses of a host, in the order of their texts.
  unfoldable pub resolve_address : ℕ → NetworkRoute → String → ℕ → Result String
  resolve_address count route host port = elim (getaddrinfo count host port) [
    | none ↦ err "network_dns_failed" 502
    | some names ↦ elim (sorted_set names) [
      | [] ↦ err "network_dns_failed" 502
      | name ∷ rest ↦ and_then (map_result parse_address (name ∷ rest)) (pick_address route)
    ]
  ]

  -- `_resolve`, behind the document.
  unfoldable pub find_target : ℕ → Url → String → ℕ → Document → Result Target
  find_target count parts host port document =
      elim (find? (serves parts.scheme host port) document.network_routes) [
        | none ↦ err "network_route_blocked" 403
        | some route ↦ and_then (resolve_address count route host port) (λ address. ok (record {
          normalized =
              urlunsplit parts.scheme (host <> ":" <> decimal port) (or_text (some parts.path) "/")
                parts.query;
          host = host;
          port = port;
          address = address;
          route_id = route.id;
        }))
      ]

  -- The host and the port of a URL.
  unfoldable pub check_url : Url → Result (String × ℕ)
  check_url parts = elim (some_text parts.hostname) [
    | none ↦ err "network_url_invalid" 400
    | some hostname ↦
        if not (contains ("http" ∷ "https" ∷ []) parts.scheme) || parts.has_userinfo
        then err "network_url_invalid" 400
        else elim parts.port [
          | none ↦ err "ValueError" 500
          | some given ↦ ok (lower (rstrip_dots hostname), port_or_default parts.scheme given)
        ]
  ]

  -- `{name.lower(): value for …}`
  unfoldable pub lower_headers : Headers → Headers → Headers
  lower_headers acc [] = acc
  lower_headers acc ((name, value) ∷ rest) =
      let key = lower name in
      lower_headers (upsert (λ h. h.0) key (key, value) (λ _. (key, value)) acc) rest

  -- What the response is checked for, by `_request_once`.
  unfoldable pub read_answer : Option Answer → Result Answer
  read_answer none = err "network_upstream_failed" 502
  read_answer (some a) =
      if ltb maximum_network_bytes a.size
      then err "network_response_too_large" 413
      else ok (record a { headers = lower_headers [] a.headers })

  abbrev pub deliver : Upstream → Exec Wire Answer
  deliver u w = (read_answer (exchange w.sent u), record w { sent = u ∷ w.sent })

  -- The host that has the credentials.
  unfoldable pub check_host : Headers → Option String → String → Result (Option String)
  check_host headers known host =
      if any (λ h. lower h.0 == "authorization") headers
      then elim known [
        | none ↦ ok (some host)
        | some first ↦
            if first == host then ok (some first) else err "credential_redirect_blocked" 403
      ]
      else ok known

  module _ (parse : String → Option Document) where
    -- `_resolve`
    unfoldable pub resolve : ℕ → String → Exec State Target
    resolve count url = elim (urlsplit url) [
      | none ↦ raise "ValueError" 500
      | some parts ↦ (do
        (host, port) ← lift (check_url parts)
        (document, _) ← active_document parse
        lift (find_target count parts host port document))
    ]
