-- ===== src/Security/Access/Callers.antt =====
-- Where the identity of a caller comes from.
use agent_factor.Base.{String, ◌<>◌, true, false, ◌≡◌, refl, arith, none, some, ◌⊎◌, inl, inr}
use agent_factor.Base.{ok, Result-cases, Option-cases, string_eq, nat_eq}
use text.Mathlib.TextPositions.{starts_with-append}
use text.Mathlib.TextLemmas.{nil-append, cons-append}
use agent_factor.Json.{Json, str, as_str?}
use agent_factor.Security.Model.{State}
use agent_factor.Security.Gateway.Ids.{drop_prefix}
use agent_factor.Security.Access.{
  Identity, setting, oidc_principal, bootstrap_principal, token_principal, authenticate, authorize,
  is_principal, compare_digest, or_else,
}

-- A token that the identity provider signed for this subject.
pub record IsVerified (identity : Identity) (token principal : String) : Type 0 where
  pub issuer : String
  pub audience : String
  pub jwks_url : String
  pub settings :
      (setting identity "AGENTFACTOR_OIDC_ISSUER" ≡ some issuer)
      × (setting identity "AGENTFACTOR_OIDC_AUDIENCE" ≡ some audience)
      × (setting identity "AGENTFACTOR_OIDC_JWKS_URL" ≡ some jwks_url)
  pub subject : identity.verified_subject jwks_url audience issuer token ≡ some (str principal)
  pub valid : is_principal principal ≡ true

-- The administrator's own token
pub record IsAdministrator (identity : Identity) (token principal : String) : Type 0 where
  pub secret : setting identity "AGENTFACTOR_SECURITY_ADMIN_TOKEN" ≡ some token
  pub name : String
  pub named : principal ≡ "bootstrap:" <> name
  pub valid : is_principal name ≡ true

module _ (identity : Identity) (token principal : String) where
  as_str?-some : (j : Json) → as_str? j ≡ some principal → j ≡ str principal
  as_str?-some j h = ground arith

  oidc-IsVerified :
      oidc_principal identity token ≡ ok principal → IsVerified identity token principal
  unfolding oidc_principal
  oidc-IsVerified h = elim (Option-cases (setting identity "AGENTFACTOR_OIDC_ISSUER")) [
    | inl e ↦ absurd (ground arith)
    | inr (issuer, e) ↦ elim (Option-cases (setting identity "AGENTFACTOR_OIDC_AUDIENCE")) [
      | inl e₁ ↦ absurd (ground arith)
      | inr (audience, e₁) ↦ elim (Option-cases (setting identity "AGENTFACTOR_OIDC_JWKS_URL")) [
        | inl e₂ ↦ absurd (ground arith)
        | inr (jwks_url, e₂) ↦ record {
          issuer = issuer;
          audience = audience;
          jwks_url = jwks_url;
          settings = (e, e₁, e₂);
          subject = ground arith;
          valid = ground arith;
        }
      ]
    ]
  ]

  bootstrap-name :
      bootstrap_principal identity ≡ ok principal
      → (name : String) × (principal ≡ "bootstrap:" <> name) × (is_principal name ≡ true)
  unfolding bootstrap_principal
  bootstrap-name h = (
    or_else "local-admin" (identity.getenv "AGENTFACTOR_SECURITY_ADMIN_PRINCIPAL"),
    ground arith,
    ground arith,
  )

  compare_digest-same : (a b : String) → compare_digest a b ≡ ok true → a ≡ b
  unfolding compare_digest
  compare_digest-same a b h = ground arith

  token_principal-cases :
      token_principal identity token ≡ ok principal
      → IsAdministrator identity token principal ⊎ IsVerified identity token principal
  unfolding token_principal
  token_principal-cases h =
      elim (Option-cases (setting identity "AGENTFACTOR_SECURITY_ADMIN_TOKEN")) [
        | inl e ↦ inr (oidc-IsVerified (ground arith))
        | inr (secret, e) ↦ elim (Result-cases (compare_digest token secret)) [
          | inr (code, n, e₁) ↦ absurd (ground arith)
          | inl (true, e₁) ↦
              let (name, named, valid) = bootstrap-name (ground arith) in
              inl (record {
                secret = ground (arith, compare_digest-same token secret);
                name = name;
                named = named;
                valid = valid;
              })
          | inl (false, e₁) ↦ inr (oidc-IsVerified (ground arith))
        ]
      ]

module _ (identity : Identity) (header principal : String) where
  -- A caller who is identified presented a bearer token, and it is either the administrator's own
  -- token, which gives a `bootstrap:` principal, or a token that the configured provider verified
  -- for exactly this subject.
  pub authenticate-cases :
      authenticate identity (some header) ≡ ok principal
      → (token : String) × (drop_prefix "Bearer " header ≡ some token)
        × (IsAdministrator identity token principal ⊎ IsVerified identity token principal)
  unfolding authenticate
  authenticate-cases h = elim (Option-cases (drop_prefix "Bearer " header)) [
    | inl e ↦ absurd (ground arith)
    | inr (token, e) ↦ (token, e, token_principal-cases identity token principal (ground arith))
  ]

drop_prefix-append : (p t : String) → drop_prefix p (p <> t) ≡ some t
unfolding drop_prefix nat_eq
drop_prefix-append String.[] t = rw (nil-append t) refl
drop_prefix-append (String.◌∷◌ c p) t = ground (arith, cons-append c p t, drop_prefix-append p t)

-- A verified subject that begins with `bootstrap:` is a valid principal, and is authorized for
-- everything, whatever the bindings of roles say.
pub oidc_subject-bootstrap :
    (identity : Identity) (token name permission : String) (s : State)
    → IsVerified identity token ("bootstrap:" <> name)
    → setting identity "AGENTFACTOR_SECURITY_ADMIN_TOKEN" ≡ none
    → (authenticate identity (some ("Bearer " <> token)) ≡ ok ("bootstrap:" <> name))
      × (authorize ("bootstrap:" <> name) permission s ≡ (ok tt, s))
unfolding authenticate token_principal oidc_principal authorize
oidc_subject-bootstrap identity token name permission s v unset =
    let (issuer, audience, jwks_url) = v.settings in
    (
      ground (
        arith,
        drop_prefix-append "Bearer " token,
        issuer,
        audience,
        jwks_url,
        v.subject,
        v.valid,
        unset,
      ),
      ground (arith, starts_with-append "bootstrap:" name),
    )
