-- ===== src/Security/Network/Contained/Hops.antt =====
-- What a request sends, in one hop.
use agent_factor.Base.{
  ℕ, String, Bool, true, ◌≡◌, refl, arith, Option, none, some, ◌∷◌, inl, inr, sym, ◌∙◌, ap,
  string_eq,
}
use agent_factor.Base.{Result, ok, err, Exec, continue, Option-cases}
use agent_factor.Json.{Json, Fields, object}
use agent_factor.Security.Model.{State, Machine}
use agent_factor.Security.Model.Keeps.{Keeps}
use agent_factor.Security.Documents.{Document}
use agent_factor.Security.DataFlow.{EgressReply, authorize_egress}
use agent_factor.Security.Gateway.Decisions.{Decision, Consumed}
use agent_factor.Security.Network.{
  Url, Answer, Web, Wire, Target, Pending, Progress, redirected, or_text, check_host, resolve,
}
use agent_factor.Security.Network.Requests.{
  RequestArguments, upstream_of, request_once, conclude, recorded, hop, hop_params, summary,
  succeeded,
}
use agent_factor.Security.Network.Kept.{resolve-Keeps, authorize_egress-Keeps}
use agent_factor.Security.Network.Contained.{Admits, resolve-Admits}
use agent_factor.Security.Network.Contained.Sent.{
  InForce, carries, Agrees, check_host-Agrees, Round, Round-inside, Round-lift,
}

module _ (web : Web) (r : RequestArguments) (policy : Result (Document × String))
    (parse : String → Option Document)
    (record_result : Decision → Consumed → Bool → Json → ℕ → Exec State String)
    (kr : (d : Decision) (c : Consumed) (b : Bool) (j : Json) (n : ℕ)
      → Keeps (InForce web r.headers policy parse) (record_result d c b j n))
    (machine : Machine) (authorize : ℕ → String → Fields → Exec State (Decision × Consumed))
    (ka : (count : ℕ) (resource : String) (params : Fields)
      → Keeps (InForce web r.headers policy parse) (authorize count resource params)) where
  conclude-known :
      (count : ℕ) (p q : Pending) (t : Target) (known : Option String) (egress : EgressReply)
      (a : Answer)
      → conclude web r count p t known egress a ≡ ok (redirected q)
      → q.authorization_host ≡ known
  unfolding conclude
  conclude-known count p q t known egress a h = ground arith

  module _ (count : ℕ) (p : Pending) (t : Target) (known : Option String)
      (egress : EgressReply) where
    -- What follows a call: the record of its result, which leaves the network alone and does not turn
    -- a raise into a return, and the conclusion.
    after : Result String → Result Answer → Wire → Result Progress × Wire
    after res answer w1 =
        let (x, w2) = continue res (λ _ s. (answer, s)) w1 in
        continue x (λ a s. (conclude web r count p t known egress a, s)) w2

    after-wire :
        (res : Result String) (answer : Result Answer) (w1 : Wire) → (after res answer w1).1 ≡ w1
    unfolding after
    after-wire (ok _) (ok a) w1 = refl
    after-wire (ok _) (err e n) w1 = refl
    after-wire (err _ _) answer w1 = refl

    after-err :
        (res : Result String) (answer : Result Answer) (w1 : Wire) (code : String) (status : ℕ)
        → answer ≡ err code status
        → (e : String) × (n : ℕ) × ((after res answer w1).0 ≡ err e n)
    unfolding after
    after-err (ok _) answer w1 code status h = (code, status, rw h refl)
    after-err (err e n) answer w1 code status h = (e, n, refl)

    after-leads :
        (res : Result String) (answer : Result Answer) (w1 : Wire) (q : Pending)
        → (after res answer w1).0 ≡ ok (redirected q)
        → q.authorization_host ≡ known
    unfolding after
    after-leads (ok _) (ok a) w1 q h = conclude-known count p q t known egress a h
    after-leads (ok _) (err e n) w1 q h = ground arith
    after-leads (err e n) answer w1 q h = ground arith

    module _ (allowed : Decision × Consumed) (w : Wire) where
      abbrev called : Result Answer × Wire
      called = request_once web r p t w

      abbrev noted : Result String × State
      noted =
          record_result allowed.0 allowed.1 (succeeded called.0) (object (summary t called.0))
            (web.elapsed_ms count) called.1.state

      ending : Result Progress × Wire
      ending = after noted.0 called.0 (record called.1 { state = noted.1 })

      called-state : called.1.state ≡ w.state
      unfolding request_once
      called-state = elim (Option-cases (web.urlsplit t.normalized)) [
        | inl e ↦ rw (e, request_once) refl
        | inr (parts, e) ↦ rw (e, request_once) refl
      ]

      called-none : web.urlsplit t.normalized ≡ none → called ≡ (err "ValueError" 500, w)
      unfolding request_once
      called-none e = rw (e, request_once) refl

      called-some :
          (parts : Url)
          → web.urlsplit t.normalized ≡ some parts
          → called.1.sent ≡ upstream_of web r p t parts ∷ w.sent
      unfolding request_once
      called-some parts e = rw (e, request_once) refl

      ending-InForce :
          InForce web r.headers policy parse w.state.db
          → InForce web r.headers policy parse ending.1.state.db
      unfolding ending
      ending-InForce k = rw (after-wire noted.0 called.0 (record called.1 { state = noted.1 })) (
          (kr allowed.0 allowed.1 (succeeded called.0) (object (summary t called.0))
              (web.elapsed_ms count)).at
            called.1.state (rw called-state k))

      ending-sent : ending.1.sent ≡ called.1.sent
      unfolding ending
      ending-sent =
          ap (λ x. x.sent) (after-wire noted.0 called.0 (record called.1 { state = noted.1 }))

      ending-raises :
          called ≡ (err "ValueError" 500, w) → (e : String) × (n : ℕ) × (ending.0 ≡ err e n)
      unfolding ending
      ending-raises h =
          after-err noted.0 called.0 (record called.1 { state = noted.1 }) "ValueError" 500
            (ap (λ x. x.0) h)

      ending-leads : (q : Pending) → ending.0 ≡ ok (redirected q) → q.authorization_host ≡ known
      unfolding ending
      ending-leads q h = after-leads noted.0 called.0 (record called.1 { state = noted.1 }) q h

      ending-Round :
          InForce web r.headers policy parse w.state.db
          → (document : Document) (digest : String) → policy ≡ ok (document, digest)
          → Admits web document t.host t.port t.address
          → Agrees web r.headers policy p.authorization_host t.host
          → (carries web r.headers policy ≡ true → known ≡ some t.host)
          → Round web r.headers policy parse w.sent p ending
      unfolding upstream_of Round
      ending-Round k document digest e admits agrees next =
          elim (Option-cases (web.urlsplit t.normalized)) [
            | inl no_url ↦ inl (record {
              kept = ending-InForce k;
              silent = ending-sent ∙ ap (λ x. x.1.sent) (called-none no_url);
              raised = ending-raises (called-none no_url);
            })
            | inr (parts, url) ↦ inr (record {
              kept = ending-InForce k;
              opened = upstream_of web r p t parts;
              grows = ending-sent ∙ called-some parts url;
              permitted = (document, digest, e, admits, refl);
              agrees = agrees;
              leads = λ q h c. ending-leads q h ∙ next c;
            })
          ]

  pub hop-Round :
      (count : ℕ) (p : Pending) (w : Wire)
      → InForce web r.headers policy parse w.state.db
      → Round web r.headers policy parse w.sent p
          (hop web r machine parse authorize record_result count p w)
  unfolding hop recorded ending after
  hop-Round count p w k =
      Round-inside web r.headers policy parse w p _ (resolve web parse count p.url)
        (resolve-Keeps _ web parse count p.url) k
        (λ t found kept.
          let s₁ = (resolve web parse count p.url w.state).1 in
          let (document, digest, e, admits) =
            resolve-Admits web parse count p.url w.state s₁ t (ap (λ x. (x, s₁)) found) in
          let w₁ = record w { state = s₁ } in
          Round-lift web r.headers policy parse w₁ p _
            (check_host web r.headers p.authorization_host t.host) kept
            (λ known agreed.
              let (agrees, next) =
                check_host-Agrees web r.headers policy p.authorization_host known t.host agreed in
              Round-inside web r.headers policy parse w₁ p _
                (authorize_egress machine parse r.session_id r.surface
                  (or_text r.egress_destination t.normalized))
                (authorize_egress-Keeps _ machine parse r.session_id r.surface _) kept
                (λ egress _ kept₂.
                  Round-inside web r.headers policy parse _ p _
                    (authorize count t.normalized (hop_params p t))
                    (ka count t.normalized (hop_params p t)) kept₂
                    (λ allowed _ kept₃.
                      ending-Round count p t known egress allowed _ kept₃ document digest
                        (sym k ∙ e) admits agrees next))))
