-- ===== src/Security/Executor/Network/Contained.antt =====
-- What a network request of a native session may send.
use agent_factor.Base.{
  Bool, false, ℕ, String, true, ◌≡◌, refl, arith, Option, none, List, [], ◌∷◌, any, not, guard,
  Result, ok, err, Exec, continue,
}
use agent_factor.Json.{Json, Fields}
use agent_factor.Security.Gateway.Decisions.{Decision, Consumed}
use agent_factor.Security.Model.{Machine, NativeSession}
use agent_factor.Security.Model.Keeps.{
  Keeps, Keeps-raise, Keeps-bind, Keeps-pure, Keeps-if, Keeps-session_scope,
}
use agent_factor.Security.Documents.{Document, active_rows}
use agent_factor.Security.DataFlow.{taint_session, write_labels}
use agent_factor.Security.Gateway.Action.{network}
use agent_factor.Security.Network.{Web, Wire, is_header_blocked}
use agent_factor.Security.Network.Contained.Sent.{Sends}
use agent_factor.Security.Network.Contained.Rules.{Sends-inside, Sends-lift, Sends-then}
use agent_factor.Security.Network.Contained.Whole.{request-Sends, request-blocked}
use agent_factor.Security.Executor.{native_session, native_action, session_query}
use agent_factor.Security.Executor.Network.{
  NetworkRequest, network_arguments, is_too_large, has_long_header, authorize_hop, record_hop,
  network_request,
}
use agent_factor.Security.Executor.Network.Policy.{
  InForce, InForce-same, authorize_native-Keeps, record_execution_result-Keeps,
}

module _ (web : Web) (machine : Machine) (parse : String → Option Document)
    (byte_length : String → ℕ) (now : ℕ) (clock : ℕ → ℕ × ℕ) (q : NetworkRequest) (w : Wire) where
  abbrev policy : Result (Document × String)
  policy = active_rows parse w.state.db

  native_session-Keeps :
      (session_id token : String)
      → Keeps (InForce parse policy) (native_session machine now session_id token)
  unfolding native_session session_query
  native_session-Keeps session_id token = Keeps-if _ _ _ (Keeps-raise _ _) (
      Keeps-session_scope _
        (λ db db' a e. InForce-same parse policy db db' (ground arith) (ground arith)))

  taint_session-Keeps :
      (session_id : String) (labels : List String)
      → Keeps (InForce parse policy) (taint_session session_id labels)
  unfolding taint_session write_labels
  taint_session-Keeps session_id labels =
      Keeps-session_scope _
        (λ db db' a e. InForce-same parse policy db db' (ground arith) (ground arith))

  record_hop-Keeps :
      (d : Decision) (c : Consumed) (b : Bool) (j : Json) (n : ℕ)
      → Keeps (InForce parse policy) (record_hop web machine parse byte_length now clock d c b j n)
  unfolding record_hop
  record_hop-Keeps d c b j n =
      record_execution_result-Keeps parse policy machine d.id c.grant_id b j n

  authorize_hop-Keeps :
      (session : NativeSession) (count : ℕ) (resource : String) (params : Fields)
      → Keeps
          (InForce parse policy)
          (authorize_hop web machine parse byte_length now clock session count resource params)
  unfolding authorize_hop
  authorize_hop-Keeps session count resource params =
      authorize_native-Keeps parse policy machine (clock count).0 (clock count).1
        (native_action machine session network "request" resource params)

  -- Whether it returns or raises, a network request of a session opens at most six connections. Each
  -- carries the headers of the request with its Host and is for a host and a port that a route of the
  -- active policy serves, to the first address that the resolver gave, which is public unless the
  -- route allows private ones. The active policy stays what it was.
  pub network_request-Sends :
      Sends web q.headers policy parse 6 none w.sent
        (network_request web machine parse byte_length now clock q w)
  unfolding network_request
  network_request-Sends =
      Sends-inside web q.headers policy parse 6 none w _ _
        (native_session-Keeps q.session_id q.token) refl
        (λ session w₁ k₁.
          Sends-lift web q.headers policy parse 6 none w₁
            (guard (not (is_too_large byte_length q.body)) "native_io_too_large" 413) _ k₁
            (λ _.
              Sends-lift web q.headers policy parse 6 none w₁
                (guard (not (has_long_header q.headers)) "network_headers_invalid" 400) _ k₁
                (λ _.
                  Sends-then web q.headers policy parse 6 none w₁.sent _ _ _
                    (λ value.
                      Keeps-bind _ _ (taint_session-Keeps session.id ("untrusted-content" ∷ []))
                        (λ _. Keeps-pure _))
                    (request-Sends web (network_arguments session q) policy parse
                      (record_hop web machine parse byte_length now clock) record_hop-Keeps machine
                      (authorize_hop web machine parse byte_length now clock session)
                      (authorize_hop-Keeps session) q.method q.url q.body w₁ k₁))))

  unsent :
      {A B : Type 0} (res : Result A) (f : A → Exec Wire B) (w₁ : Wire)
      → ((a : A) → (f a w₁).1.sent ≡ w₁.sent)
      → (continue res f w₁).1.sent ≡ w₁.sent
  unsent (ok a) f w₁ h = h a
  unsent (err e n) f w₁ h = refl

  -- A request with a header that is blocked opens no connection.
  pub network_request-blocked :
      any (is_header_blocked web false) q.headers ≡ true
      → (network_request web machine parse byte_length now clock q w).1.sent ≡ w.sent
  unfolding network_request
  network_request-blocked h =
      let (res, s₁) = native_session machine now q.session_id q.token w.state in
      let w₁ = record w { state = s₁ } in
      unsent res _ w₁ (λ session.
        unsent (guard (not (is_too_large byte_length q.body)) "native_io_too_large" 413) _ w₁ (λ _.
          unsent (guard (not (has_long_header q.headers)) "network_headers_invalid" 400) _ w₁ (λ _.
            rw
              (request-blocked web (network_arguments session q) policy parse
                (record_hop web machine parse byte_length now clock) record_hop-Keeps machine
                (authorize_hop web machine parse byte_length now clock session)
                (authorize_hop-Keeps session) q.method q.url q.body w₁ h)
              refl)))
