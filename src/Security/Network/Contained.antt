-- ===== src/Security/Network/Contained.antt =====
-- The hosts and addresses that a hop may reach.
pub mod Sent
pub mod Rules
pub mod Hops
pub mod Whole
use mathlib.Core.Path.{subst}
use agent_factor.Base.{
  ℕ, String, true, ◌||◌, ◌≡◌, refl, arith, Option, some, List, [], ◌∷◌, inl, inr, ◌∙◌, ap,
}
use agent_factor.Base.{◌==◌, string_eq, if◌then◌else◌, any, find?, sorted_set, Option-cases}
use agent_factor.Base.{
  Result, ok, err, Exec, continue, and_then, and_then-eq-ok, map_result, ◌>>=◌, Result-cases,
}
use agent_factor.Security.Model.{State}
use agent_factor.Security.Documents.{Document, NetworkRoute, active_rows, active_document-eq}
use agent_factor.Security.Network.{
  Url, Address, Web, Target, serves, parse_address, pick_address, resolve_address, find_target,
  check_url, resolve,
}

module _ (web : Web) where
  -- The address is the first one that the resolver gave for the host in some round, and it is public
  -- unless the route allows private ones.
  pub record Reaches (route : NetworkRoute) (host : String) (port : ℕ) (address : String)
      : Type 0 where
    pub count : ℕ
    pub names : List String
    pub name : String
    pub rest : List String
    pub ip : Address
    pub resolved : web.getaddrinfo count host port ≡ some names
    pub first : sorted_set names ≡ name ∷ rest
    pub parsed : web.ip_address name ≡ some ip
    pub same : ip.text ≡ address
    pub reachable : (route.allow_private_ips || ip.is_global) ≡ true

  -- A route of the document serves the host at the port, and reaches it at the address.
  pub record Admits (document : Document) (host : String) (port : ℕ) (address : String)
      : Type 0 where
    pub scheme : String
    pub route : NetworkRoute
    pub serving : find? (serves web scheme host port) document.network_routes ≡ some route
    pub reaches : Reaches route host port address

  parse_address-some :
      (name : String) (ip : Address)
      → parse_address web name ≡ ok ip
      → web.ip_address name ≡ some ip
  unfolding parse_address
  parse_address-some name ip h = ground arith

  pick_address-eq-ok :
      (route : NetworkRoute) (ip : Address) (ips : List Address) (address : String)
      → pick_address web route (ip ∷ ips) ≡ ok address
      → (ip.text ≡ address) × ((route.allow_private_ips || ip.is_global) ≡ true)
  unfolding pick_address any
  pick_address-eq-ok route ip ips address h = ground arith

  -- The address that is picked is the first one.
  first_address :
      (route : NetworkRoute) (name : String) (rest : List String) (address : String)
      → and_then (map_result (parse_address web) (name ∷ rest)) (pick_address web route)
        ≡ ok address
      → (ip : Address) × (web.ip_address name ≡ some ip)
        × (ip.text ≡ address)
        × ((route.allow_private_ips || ip.is_global) ≡ true)
  unfolding map_result
  first_address route name rest address h =
      let (ips, e, k) =
        and_then-eq-ok (map_result (parse_address web) (name ∷ rest)) (pick_address web route) h in
      let (ip, e₁, k₁) =
        and_then-eq-ok (parse_address web name)
          (λ y. and_then (map_result (parse_address web) rest) (λ ys. ok (y ∷ ys))) e in
      let (ips', _, k₂) =
        and_then-eq-ok (map_result (parse_address web) rest) (λ ys. ok (ip ∷ ys)) k₁ in
      let picked : pick_address web route (ip ∷ ips') ≡ ok address =
        ap (λ r. and_then r (pick_address web route)) k₂ ∙ k in
      let (same, reachable) = pick_address-eq-ok route ip ips' address picked in
      (ip, parse_address-some name ip e₁, same, reachable)

  resolve_address-Reaches :
      (count : ℕ) (route : NetworkRoute) (host : String) (port : ℕ) (address : String)
      → resolve_address web count route host port ≡ ok address
      → Reaches route host port address
  unfolding resolve_address
  resolve_address-Reaches count route host port address h =
      elim (Option-cases (web.getaddrinfo count host port)) [
        | inl e ↦ absurd (ground arith)
        | inr (names, e) ↦
            (elim (sorted_set names)
                as (λ l. sorted_set names ≡ l → Reaches route host port address) [
                  | [] ↦ λ e₁. absurd (ground arith)
                  | name ∷ rest ↦ λ e₁.
                      let (ip, parsed, same, reachable) =
                        first_address route name rest address (ground arith) in
                      record {
                        count = count;
                        names = names;
                        name = name;
                        rest = rest;
                        ip = ip;
                        resolved = e;
                        first = e₁;
                        parsed = parsed;
                        same = same;
                        reachable = reachable;
                      }
                ])
              refl
      ]

  find_target-Admits :
      (count : ℕ) (parts : Url) (host : String) (port : ℕ) (document : Document) (t : Target)
      → find_target web count parts host port document ≡ ok t
      → Admits document t.host t.port t.address
  unfolding find_target
  find_target-Admits count parts host port document t h =
      elim (Option-cases (find? (serves web parts.scheme host port) document.network_routes)) [
        | inl e ↦ absurd (ground arith)
        | inr (route, e) ↦ elim (Result-cases (resolve_address web count route host port)) [
          | inr (_, _, e₁) ↦ absurd (ground arith)
          | inl (address, e₁) ↦
              let admits : Admits document host port address = record {
                scheme = parts.scheme;
                route = route;
                serving = e;
                reaches = resolve_address-Reaches count route host port address e₁;
              } in
              let (p, q, r) : (host ≡ t.host) × (port ≡ t.port) × (address ≡ t.address) =
                ground arith in
              subst (λ a. Admits document t.host t.port a) r
                (subst (λ n. Admits document t.host n address) q
                  (subst (λ x. Admits document x port address) p admits))
        ]
      ]

  pub resolve-Admits :
      (parse : String → Option Document) (count : ℕ) (url : String) (s s' : State) (t : Target)
      → resolve web parse count url s ≡ (ok t, s')
      → (document : Document) × (digest : String) × (active_rows parse s.db ≡ ok (document, digest))
        × Admits document t.host t.port t.address
  unfolding resolve
  resolve-Admits parse count url s s' t h = elim (Option-cases (web.urlsplit url)) [
    | inl e ↦ absurd (ground arith)
    | inr (parts, e) ↦ elim (Result-cases (check_url web parts)) [
      | inr (_, _, e₁) ↦ absurd (ground arith)
      | inl ((host, port), e₁) ↦ elim (Result-cases (active_rows parse s.db)) [
        | inr (_, _, e₂) ↦ absurd (ground (arith, active_document-eq parse s))
        | inl ((document, digest), e₂) ↦
            let found : find_target web count parts host port document ≡ ok t =
              ground (arith, active_document-eq parse s) in
            (document, digest, e₂, find_target-Admits count parts host port document t found)
      ]
    ]
  ]
