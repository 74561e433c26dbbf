-- ===== src/Security/Gateway/Decisions/Consumption.antt =====
-- `consume` as one equation, and what a successful call says of the tables.
use agent_factor.Base.{ℕ, String, false, ◌||◌, ◌≡◌, arith}
use agent_factor.Base.{some, ◌==◌, string_eq, if◌then◌else◌, ltb}
use agent_factor.Base.{
  update_where, Result-cases, Result, ok, err, and_then, str_length, find?, inl, inr,
}
use agent_factor.Json.{str}
use agent_factor.Security.Model.{Db, State, Machine, ExecutionGrant, commit, session_scope}
use agent_factor.Security.Gateway.Ids.{digest}
use agent_factor.Security.Gateway.Config.{GatewayConfig}
use agent_factor.Security.Gateway.Loading.{load_config}
use agent_factor.Security.Gateway.Action.{SecurityAction, normalize_action, fingerprint}
use agent_factor.Security.Gateway.Decisions.{
  Consumed, is_usable, is_open, spend, consume_rows, consume,
}
use agent_factor.Security.Gateway.Decisions.Grants.{consume_rows-ok, consume_rows-usable}
use agent_factor.Store.{UniqueKeys}

-- What a grant must be bound to: the hash of the token, the fingerprint of the action, the digest of
-- the policy in force.
pub record Binding : Type 0 where
  pub token_hash : String
  pub print : String
  pub policy_digest : String

module _ (machine : Machine) where
  abbrev pub binding : String → SecurityAction → State → Result Binding
  binding token action s = and_then (load_config machine s).0 (λ config.
      and_then (normalize_action machine action) (λ normalized.
        and_then (fingerprint machine normalized config.policy_digest) (λ print.
          and_then (digest machine (str token)) (λ token_hash. ok (record {
            token_hash = token_hash;
            print = print;
            policy_digest = config.policy_digest;
          })))))

  unfoldable pub consume_in : ℕ → Binding → Db → Result (Consumed × Db)
  consume_in now b db = consume_rows b.token_hash b.print b.policy_digest now db

  pub consume_lem :
      (now : ℕ) (token : String) (a : SecurityAction) (s : State)
      → consume machine now token a s
        ≡ commit s (
            if token == "" || ltb 256 (str_length token)
            then err "grant_invalid" 403
            else and_then (binding token a s) (λ b. consume_in now b s.db))
  unfolding consume load_config session_scope consume_in
  consume_lem now token a s = ground arith

  -- The grant that a successful call took, and what it did to the tables.
  pub record IsConsumption (now : ℕ) (token : String) (a : SecurityAction) (s : State)
      (c : Consumed) : Type 0 where
    pub bound : Binding
    pub grant : ExecutionGrant
    pub of_request : binding token a s ≡ ok bound
    pub found :
        find? (is_usable bound.token_hash bound.print bound.policy_digest now) s.db.grants
        ≡ some grant
    pub reply : c ≡ record {
      grant_id = grant.id;
      decision_id = grant.decision_id;
      action_fingerprint = bound.print;
    }
    pub spent :
        (consume machine now token a s).1.db
        ≡ record s.db { grants = update_where (is_open grant.id) (spend now) s.db.grants }

  -- The state after a successful call, and the rows that it changed.
  pub consume-eq-ok :
      (now : ℕ) (token : String) (a : SecurityAction) (s : State) (c : Consumed) (b : Binding)
      → (consume machine now token a s).0 ≡ ok c
      → binding token a s ≡ ok b
      → consume_in now b s.db ≡ ok (c, (consume machine now token a s).1.db)
  consume-eq-ok now token a s c b h e = ground (arith, consume_lem now token a s)

  binding-err :
      (now : ℕ) (token : String) (a : SecurityAction) (s : State) (c : Consumed) {code : String}
      {n : ℕ}
      → (consume machine now token a s).0 ≡ ok c
      → binding token a s ≡ err code n
      → ⊥
  binding-err now token a s c h e = ground (arith, consume_lem now token a s)

  -- A consumption that succeeds found a grant that is usable for the hash of the token, the fingerprint
  -- of the action and the policy in force, answers that grant, and changes nothing in the tables but
  -- that the open rows of its identifier are consumed now.
  pub consumption :
      (now : ℕ) (token : String) (a : SecurityAction) (s : State) (c : Consumed)
      → (consume machine now token a s).0 ≡ ok c
      → IsConsumption now token a s c
  unfolding consume_in
  consumption now token a s c h = elim (Result-cases (binding token a s)) [
    | inl (b, e) ↦
        let (g, found, reply, spent) =
          consume_rows-ok b.token_hash b.print b.policy_digest now s.db _ c
            (consume-eq-ok now token a s c b h e) in
        record { bound = b; grant = g; of_request = e; found = found; reply = reply; spent = spent }
    | inr (code, n, e) ↦ absurd (binding-err now token a s c h e)
  ]

  pub binding-token_hash :
      (token : String) (a : SecurityAction) (s : State) (b : Binding)
      → binding token a s ≡ ok b
      → digest machine (str token) ≡ ok b.token_hash
  binding-token_hash token a s b e = ground arith

  pub binding-eq-ok :
      (token : String) (a n : SecurityAction) (s : State) (config : GatewayConfig) (f t : String)
      → (load_config machine s).0 ≡ ok config
      → normalize_action machine a ≡ ok n
      → fingerprint machine n config.policy_digest ≡ ok f
      → digest machine (str token) ≡ ok t
      → binding token a s
        ≡ ok (record { token_hash = t; print = f; policy_digest = config.policy_digest })
  binding-eq-ok token a n s config f t e₁ e₂ e₃ e₄ = ground arith

  -- A token of an admissible length is accepted wherever a usable grant is found for its hash, the
  -- action and the policy in force.
  pub consume-of_usable :
      (now : ℕ) (token : String) (a : SecurityAction) (s : State) (b : Binding) (g : ExecutionGrant)
      → UniqueKeys (λ x. x.id) s.db.grants
      → (token == "" || ltb 256 (str_length token)) ≡ false
      → binding token a s ≡ ok b
      → find? (is_usable b.token_hash b.print b.policy_digest now) s.db.grants ≡ some g
      → (consume machine now token a s).0
        ≡ ok (record { grant_id = g.id; decision_id = g.decision_id; action_fingerprint = b.print })
  unfolding consume_in
  consume-of_usable now token a s b g u fits e found = ground (
    arith,
    consume_lem now token a s,
    consume_rows-usable b.token_hash b.print b.policy_digest now s.db g u found,
  )
