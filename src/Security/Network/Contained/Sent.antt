-- ===== src/Security/Network/Contained/Sent.antt =====
-- What a round and a loop of them may send.
use mathlib.Core.Path.{subst}
use mathlib.Core.List.{append_assoc}
use agent_factor.Base.{
  ℕ, suc, ◌≤◌, String, Bool, true, ◌≡◌, refl, arith, Option, none, some, List, [], ◌∷◌, ◌++◌, inl,
  inr, sym, ◌∙◌, ap, ◌⊎◌, ◌==◌, string_eq, any, length, All, All-append, length-append,
}
use agent_factor.Base.{Result, ok, err, Exec, lift, continue, ◌>>=◌}
use agent_factor.Security.Model.{Db, State}
use agent_factor.Security.Model.Keeps.{Keeps}
use agent_factor.Security.Documents.{Document, active_rows}
use agent_factor.Security.Network.{
  Headers, Upstream, Web, Wire, NetworkReply, Pending, Progress, redirected, inside, check_host,
}
use agent_factor.Security.Network.Requests.{with_host}
use agent_factor.Security.Network.Contained.{Admits}

module _ (web : Web) (headers : Headers) (policy : Result (Document × String)) where
  -- The policy is in force.
  abbrev pub InForce : (String → Option Document) → Db → Type 0
  InForce parse db = active_rows parse db ≡ policy

  abbrev pub IsPermitted : Upstream → Type 0
  IsPermitted u =
      (document : Document) × (digest : String) × (policy ≡ ok (document, digest))
      × Admits web document u.host u.port u.address
      × (u.headers ≡ with_host u.host u.port headers)

  -- The request carries credentials.
  abbrev pub carries : Bool
  carries = any (λ h. web.lower h.0 == "authorization") headers

  -- No other host than `known`, if it is one, may have the credentials.
  abbrev pub Agrees : Option String → String → Type 0
  Agrees known host = carries ≡ true → (known ≡ none) ⊎ (known ≡ some host)

  pub check_host-Agrees :
      (known next : Option String) (host : String)
      → check_host web headers known host ≡ ok next
      → Agrees known host × (carries ≡ true → next ≡ some host)
  unfolding check_host
  check_host-Agrees none next host h = (λ c. inl refl, λ c. ground arith)
  check_host-Agrees (some first) next host h = (λ c. inr (ground arith), λ c. ground arith)

  module _ (parse : String → Option Document) where
    -- What a round does to the wire: nothing is sent and it raises, or one connection is opened.
    pub record Quiet {A : Type 0} (before : List Upstream) (out : Result A × Wire) : Type 0 where
      pub kept : InForce parse out.1.state.db
      pub silent : out.1.sent ≡ before
      pub raised : (e : String) × (n : ℕ) × (out.0 ≡ err e n)

    pub record Opens (before : List Upstream) (p : Pending) (out : Result Progress × Wire)
        : Type 0 where
      pub kept : InForce parse out.1.state.db
      pub opened : Upstream
      pub grows : out.1.sent ≡ opened ∷ before
      pub permitted : IsPermitted opened
      pub agrees : Agrees p.authorization_host opened.host
      pub leads :
          (q : Pending)
          → out.0 ≡ ok (redirected q)
          → carries ≡ true
          → q.authorization_host ≡ some opened.host

    unfoldable pub Round : List Upstream → Pending → Result Progress × Wire → Type 0
    Round before p out = Quiet before out ⊎ Opens before p out

    -- A part that leaves the network alone goes first.
    module _ {A : Type 0} (w : Wire) (p : Pending) (f : A → Exec Wire Progress) where
      entered :
          (res : Result A) (s : State)
          → InForce parse s.db
          → ((a : A)
              → res ≡ ok a
              → InForce parse s.db
              → Round w.sent p (f a (record w { state = s })))
          → Round w.sent p (continue res f (record w { state = s }))
      unfolding Round
      entered (ok a) s k go = go a refl k
      entered (err e n) s k go = inl (record { kept = k; silent = refl; raised = (e, n, refl) })

      pub Round-inside :
          (m : Exec State A)
          → Keeps (InForce parse) m
          → InForce parse w.state.db
          → ((a : A)
              → (m w.state).0 ≡ ok a
              → InForce parse (m w.state).1.db
              → Round w.sent p (f a (record w { state = (m w.state).1 })))
          → Round w.sent p ((inside m >>= f) w)
      Round-inside m km k go = entered (m w.state).0 (m w.state).1 (km.at w.state k) go

    -- A test goes first.
    pub Round-lift :
        {A : Type 0} (w : Wire) (p : Pending) (f : A → Exec Wire Progress) (res : Result A)
        → InForce parse w.state.db
        → ((a : A) → res ≡ ok a → Round w.sent p (f a w))
        → Round w.sent p ((lift res >>= f) w)
    unfolding Round
    Round-lift w p f (ok a) k go = go a refl
    Round-lift w p f (err e n) k go =
        inl (record { kept = k; silent = refl; raised = (e, n, refl) })

    -- What the loop sends, and what it leaves.
    pub record Sends {A : Type 0} (rounds : ℕ) (known : Option String) (before : List Upstream)
        (out : Result A × Wire) : Type 0 where
      pub kept : InForce parse out.1.state.db
      pub new : List Upstream
      pub grows : out.1.sent ≡ new ++ before
      pub permitted : All IsPermitted new
      pub few : length new ≤ rounds
      pub one_host :
          carries ≡ true
          → (host : String) × ((known ≡ none) ⊎ (known ≡ some host)) × All (λ u. u.host ≡ host) new

    pub nothing_sent :
        {A : Type 0} (rounds : ℕ) (known : Option String) (w : Wire) (e : String) (n : ℕ)
        → InForce parse w.state.db
        → Sends {A = A} rounds known w.sent (err e n, w)
    nothing_sent rounds none w e n k = record {
      kept = k;
      new = [];
      grows = refl;
      permitted = tt;
      few = omega arith;
      one_host = λ c. ("", inl refl, tt);
    }
    nothing_sent rounds (some host) w e n k = record {
      kept = k;
      new = [];
      grows = refl;
      permitted = tt;
      few = omega arith;
      one_host = λ c. (host, inr refl, tt);
    }

    pub single :
        (rounds : ℕ) (before : List Upstream) (p : Pending) (w : Wire) (res : Result Progress)
        (reply : Result NetworkReply)
        → Opens before p (res, w)
        → Sends (suc rounds) p.authorization_host before (reply, w)
    single rounds before p w res reply o = record {
      kept = o.kept;
      new = o.opened ∷ [];
      grows = o.grows;
      permitted = (o.permitted, tt);
      few = omega arith;
      one_host = λ c. (o.opened.host, o.agrees c, (refl, tt));
    }

    pub silence :
        {A : Type 0} (rounds : ℕ) (before : List Upstream) (known : Option String) (w : Wire)
        (e : String) (n : ℕ)
        → InForce parse w.state.db
        → w.sent ≡ before
        → Sends {A = A} rounds known before (err e n, w)
    silence rounds before known w e n k same = rw (← same) (nothing_sent rounds known w e n k)

    -- The hosts of the tail are the host of the round before it.
    joined_host :
        (q_host : Option String) (known : Option String) (u : Upstream) (new : List Upstream)
        (host : String)
        → (q_host ≡ none) ⊎ (q_host ≡ some host)
        → q_host ≡ some u.host
        → All (λ x. x.host ≡ host) new
        → All (λ x. x.host ≡ u.host) (new ++ u ∷ [])
    joined_host q_host known u new host (inl e) l all = absurd (ground arith)
    joined_host q_host known u new host (inr e) l all =
        let same : host ≡ u.host = ground arith in
        All-append (λ x. x.host ≡ u.host) new (u ∷ [])
          (subst (λ h. All (λ x. x.host ≡ h) new) same all) (refl, tt)

    pub joined :
        (rounds : ℕ) (before : List Upstream) (p q : Pending) (w : Wire)
        (out : Result NetworkReply × Wire)
        → Opens before p (ok (redirected q), w)
        → Sends rounds q.authorization_host w.sent out
        → Sends (suc rounds) p.authorization_host before out
    joined rounds before p q w out o t = record {
      kept = t.kept;
      new = t.new ++ o.opened ∷ [];
      grows =
          t.grows ∙ ap (λ l. t.new ++ l) o.grows ∙ sym (append_assoc t.new (o.opened ∷ []) before);
      permitted = All-append IsPermitted t.new (o.opened ∷ []) t.permitted (o.permitted, tt);
      few = omega (arith, length-append t.new (o.opened ∷ []), t.few);
      one_host = λ c.
          let (host, from, all) = t.one_host c in
          (
            o.opened.host,
            o.agrees c,
            joined_host q.authorization_host p.authorization_host o.opened t.new host from
                (o.leads q refl c) all,
          );
    }
