-- ===== src/Security/Network/Contained/Whole.antt =====
-- What a request sends, over all the hops of its redirects.
use agent_factor.Base.{
  ℕ, zero, suc, ◌+◌, String, Bool, true, ◌≡◌, refl, arith, Option, none, List, inl, inr, string_eq,
  any,
}
use agent_factor.Base.{Result, ok, err, Exec, continue, Result-cases}
use agent_factor.Json.{Json, Fields}
use agent_factor.Security.Model.{State, Machine}
use agent_factor.Security.Model.Keeps.{Keeps}
use agent_factor.Security.Documents.{Document}
use agent_factor.Security.Gateway.Decisions.{Decision, Consumed}
use agent_factor.Security.Network.{
  Upstream, Web, Wire, NetworkReply, Pending, Progress, finished, redirected, is_header_blocked,
  validate_headers,
}
use agent_factor.Security.Network.Requests.{RequestArguments, hop, next_hop, follow, request}
use agent_factor.Security.Network.Contained.Sent.{
  InForce, Round, Sends, nothing_sent, single, silence, joined,
}
use agent_factor.Security.Network.Contained.Hops.{hop-Round}

module _ (web : Web) (r : RequestArguments) (policy : Result (Document × String))
    (parse : String → Option Document)
    (record_result : Decision → Consumed → Bool → Json → ℕ → Exec State String)
    (kr : (d : Decision) (c : Consumed) (b : Bool) (j : Json) (n : ℕ)
      → Keeps (InForce web r.headers policy parse) (record_result d c b j n))
    (machine : Machine) (authorize : ℕ → String → Fields → Exec State (Decision × Consumed))
    (ka : (count : ℕ) (resource : String) (params : Fields)
      → Keeps (InForce web r.headers policy parse) (authorize count resource params)) where
  -- A round, and what it leads to.
  round-Sends :
      (rounds : ℕ) (before : List Upstream) (p : Pending) (loop : Pending → Exec Wire NetworkReply)
      (res : Result Progress) (w : Wire)
      → Round web r.headers policy parse before p (res, w)
      → ((q : Pending)
          → InForce web r.headers policy parse w.state.db
          → Sends web r.headers policy parse rounds q.authorization_host w.sent (loop q w))
      → Sends web r.headers policy parse
          (suc rounds)
          p.authorization_host
          before
          (continue res (next_hop web r machine parse authorize record_result loop) w)
  unfolding Round next_hop
  round-Sends rounds before p loop (err e n) w (inl q) go =
      silence web r.headers policy parse (suc rounds) before p.authorization_host w e n q.kept
        q.silent
  round-Sends rounds before p loop (err e n) w (inr o) go =
      single web r.headers policy parse rounds before p w _ _ o
  round-Sends rounds before p loop (ok (finished reply)) w (inl q) go =
      let (e, n, absurd_return) = q.raised in absurd (ground arith)
  round-Sends rounds before p loop (ok (finished reply)) w (inr o) go =
      single web r.headers policy parse rounds before p w _ _ o
  round-Sends rounds before p loop (ok (redirected q)) w (inl quiet) go =
      let (e, n, absurd_return) = quiet.raised in absurd (ground arith)
  round-Sends rounds before p loop (ok (redirected q)) w (inr o) go =
      joined web r.headers policy parse rounds before p q w _ o (go q o.kept)

  follow-Sends :
      (rounds count : ℕ) (p : Pending) (w : Wire)
      → InForce web r.headers policy parse w.state.db
      → Sends web r.headers policy parse rounds p.authorization_host w.sent
          (follow web r machine parse authorize record_result rounds count p w)
  unfolding follow
  follow-Sends zero count p w k =
      nothing_sent web r.headers policy parse 0 p.authorization_host w _ _ k
  follow-Sends (suc rounds) count p w k =
      let (res, w₁) = hop web r machine parse authorize record_result count p w in
      round-Sends rounds w.sent p _ res w₁
        (hop-Round web r policy parse record_result kr machine authorize ka count p w k)
        (λ q kept. follow-Sends rounds (count + 1) q w₁ kept)

  -- If the two callbacks and the start have the policy in force: whether a request returns or raises,
  -- it opens at most six connections, each with the headers of the request and its Host, for a host
  -- and a port that a route of the policy serves, to the first address that the resolver gave, which
  -- is public unless the route allows private ones; if the request carries credentials, all of them
  -- go to one host. The policy stays in force.
  pub request-Sends :
      (method url : String) (body : Option String) (w : Wire)
      → InForce web r.headers policy parse w.state.db
      → Sends web r.headers policy parse 6 none w.sent
          (request web r machine parse authorize record_result method url body w)
  unfolding request
  request-Sends method url body w k =
      elim (Result-cases (validate_headers web r.allow_authorization r.headers)) [
        | inl (u, e) ↦ rw e (follow-Sends 6 0 _ w k)
        | inr (e, n, e₁) ↦ rw e₁ (nothing_sent web r.headers policy parse 6 none w e n k)
      ]

  -- Where a header is blocked, nothing is done.
  pub request-blocked :
      (method url : String) (body : Option String) (w : Wire)
      → any (is_header_blocked web r.allow_authorization) r.headers ≡ true
      → request web r machine parse authorize record_result method url body w
        ≡ (err "network_header_blocked" 400, w)
  unfolding request validate_headers
  request-blocked method url body w h = rw h refl
