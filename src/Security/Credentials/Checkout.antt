-- ===== src/Security/Credentials/Checkout.antt =====
-- What a checkout needs, and the lease that it leaves.
use agent_factor.Base.{ℕ, ◌+◌, String, ◌<>◌, true, ◌≡◌, refl, arith, Option, none, some, inl, inr}
use agent_factor.Base.{[], ◌∷◌, ◌++◌, ◌==◌, string_eq, find?, ok, Result-cases}
use agent_factor.Store.{add}
use agent_factor.Security.Model.{State, Machine, CredentialLease, session_scope, seconds}
use agent_factor.Security.Documents.{Document, CredentialRule, active_rows, active_document-eq}
use agent_factor.Security.Access.{Identity, setting}
use agent_factor.Security.Credentials.{is_env_name, in_scope, rule_secret, lease_row, checkout}

module _ (machine : Machine) (identity : Identity) (parse : String → Option Document) where
  -- The secret is the value of the variable that a rule of the active document names, for a surface
  -- and a resource that the rule covers; one lease row is left, with digests in place of the secret
  -- and the resource, and nothing else changes.
  pub record IsCheckout (now : ℕ) (credential_id session_id surface resource : String)
      (secret lease_id : String) (s t : State) : Type 0 where
    pub document : Document
    pub policy_digest : String
    pub rule : CredentialRule
    pub is_active : active_rows parse s.db ≡ ok (document, policy_digest)
    pub of_rule : find? (λ r. r.id == credential_id) document.credentials ≡ some rule
    pub scope : in_scope surface resource rule ≡ true
    pub source : is_env_name rule.source_env ≡ true
    pub value : setting identity rule.source_env ≡ some secret
    pub lease : CredentialLease
    pub leases : t.db.leases ≡ s.db.leases ++ lease ∷ []
    pub of_lease : lease.id ≡ lease_id
    pub of_session : lease.session_id ≡ session_id
    pub of_secret : lease.secret_digest ≡ "sha256:" <> machine.sha256_hex secret
    pub of_credential : lease.credential_id ≡ credential_id
    pub of_surface : lease.surface ≡ surface
    pub of_resource : lease.resource_digest ≡ "sha256:" <> machine.sha256_hex resource
    pub expiry : lease.expires_at ≡ now + seconds rule.ttl_seconds
    pub use_time : lease.consumed_at ≡ now
    pub only : t.db ≡ record s.db { leases = t.db.leases }

  rule_secret-ok :
      (surface resource : String) (o : Option CredentialRule) (rule : CredentialRule)
      (secret : String)
      → rule_secret identity surface resource o ≡ ok (rule, secret)
      → (o ≡ some rule)
        × (in_scope surface resource rule ≡ true)
        × (is_env_name rule.source_env ≡ true)
        × (setting identity rule.source_env ≡ some secret)
  unfolding rule_secret
  rule_secret-ok surface resource none rule secret h = absurd (ground arith)
  rule_secret-ok surface resource (some r) rule secret h =
      (ground arith, ground arith, ground arith, ground arith)

  module _ (now : ℕ) (credential_id session_id surface resource : String) (s : State) where
    -- A checkout that succeeds hands out the value of the variable that a rule of the active document
    -- names, for a surface and a resource that the rule covers, and changes the tables by one lease row
    -- of this credential, session and surface, with digests of the secret and the resource.
    pub checkout-IsCheckout :
        (secret lease_id : String)
        → (checkout machine identity parse now credential_id session_id surface resource s).0
          ≡ ok (secret, lease_id)
        → IsCheckout now credential_id session_id surface resource secret lease_id s
            (checkout machine identity parse now credential_id session_id surface resource s).1
    unfolding checkout session_scope add
    checkout-IsCheckout secret lease_id h =
        let same = active_document-eq parse s in
        elim (Result-cases (active_rows parse s.db)) [
          | inr (e, n, e₁) ↦ absurd (ground arith)
          | inl ((document, policy_digest), e) ↦
              let o = find? (λ r. r.id == credential_id) document.credentials in
              elim (Result-cases (rule_secret identity surface resource o)) [
                | inr (e₁, n, e₂) ↦ absurd (ground arith)
                | inl ((rule, value), e₁) ↦
                    let (of_rule, scope, source, of_value) =
                      rule_secret-ok surface resource o rule value e₁ in
                    record {
                      document = document;
                      policy_digest = policy_digest;
                      rule = rule;
                      is_active = e;
                      of_rule = of_rule;
                      scope = scope;
                      source = source;
                      value = ground arith;
                      lease =
                          lease_row machine identity parse now s.drawn rule secret credential_id
                            session_id surface resource;
                      leases = ground arith;
                      of_lease = ground arith;
                      of_session = refl;
                      of_secret = refl;
                      of_credential = refl;
                      of_surface = refl;
                      of_resource = refl;
                      expiry = refl;
                      use_time = refl;
                      only = ground arith;
                    }
              ]
        ]
