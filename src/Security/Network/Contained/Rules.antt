-- ===== src/Security/Network/Contained/Rules.antt =====
-- How what is sent adds up, where parts that leave the network alone stand round a request.
use agent_factor.Base.{ℕ, String, Option, List}
use agent_factor.Base.{Result, ok, err, Exec, lift, continue, ◌>>=◌}
use agent_factor.Security.Model.{State}
use agent_factor.Security.Model.Keeps.{Keeps}
use agent_factor.Security.Documents.{Document}
use agent_factor.Security.Network.{Headers, Upstream, Web, Wire, inside}
use agent_factor.Security.Network.Contained.Sent.{InForce, Sends, nothing_sent}

module _ (web : Web) (headers : Headers) (policy : Result (Document × String))
    (parse : String → Option Document) where
  module _ {A B : Type 0} (rounds : ℕ) (known : Option String) where
    -- A part that leaves the network alone goes before a request.
    pub Sends-inside :
        (w : Wire) (m : Exec State A) (f : A → Exec Wire B)
        → Keeps (InForce web headers policy parse) m
        → InForce web headers policy parse w.state.db
        → ((a : A) (w' : Wire)
            → InForce web headers policy parse w'.state.db
            → Sends web headers policy parse rounds known w'.sent (f a w'))
        → Sends web headers policy parse rounds known w.sent ((inside m >>= f) w)
    Sends-inside w m f km k go = entered (m w.state).0 (m w.state).1 (km.at w.state k)
      where
        entered :
            (res : Result A) (s : State)
            → InForce web headers policy parse s.db
            → Sends web headers policy parse rounds known w.sent
                (continue res f (record w { state = s }))
        entered (ok a) s k = go a (record w { state = s }) k
        entered (err e n) s k =
            nothing_sent web headers policy parse rounds known (record w { state = s }) e n k

    pub Sends-lift :
        (w : Wire) (res : Result A) (f : A → Exec Wire B)
        → InForce web headers policy parse w.state.db
        → ((a : A) → Sends web headers policy parse rounds known w.sent (f a w))
        → Sends web headers policy parse rounds known w.sent ((lift res >>= f) w)
    Sends-lift w (ok a) f k go = go a
    Sends-lift w (err e n) f k go = nothing_sent web headers policy parse rounds known w e n k

    -- What follows a request leaves the network alone.
    pub Sends-then :
        (before : List Upstream) (res : Result A) (w : Wire) (f : A → Exec State B)
        → ((a : A) → Keeps (InForce web headers policy parse) (f a))
        → Sends web headers policy parse rounds known before (res, w)
        → Sends web headers policy parse rounds known before (continue res (λ a. inside (f a)) w)
    Sends-then before (ok a) w f kf t = record {
      kept = (kf a).at w.state t.kept;
      new = t.new;
      grows = t.grows;
      permitted = t.permitted;
      few = t.few;
      one_host = t.one_host;
    }
    Sends-then before (err e n) w f kf t = record {
      kept = t.kept;
      new = t.new;
      grows = t.grows;
      permitted = t.permitted;
      few = t.few;
      one_host = t.one_host;
    }
