-- ===== src/Security/Tests/Callers.antt =====
-- The theorems about callers and roles at concrete inputs.
use agent_factor.Base.{String, ◌<>◌, true, false, ◌≡◌, refl, none, some, ◌⊎◌, [], ◌∷◌, ok}
use agent_factor.Base.{
  string_eq, nat_eq, contains, find?, any, str_length, every_char, is_alphanumeric,
}
use agent_factor.Base.{ℕ_discrete}
use agent_factor.Store.{add, has_key}
use agent_factor.Json.{str}
use agent_factor.Security.Model.{State, session_scope}
use agent_factor.Security.Gateway.Ids.{drop_prefix}
use agent_factor.Security.Access.{
  Bound, Identity, authenticate, authorize, bind, bind_rows, is_permitted, is_principal, is_role,
  role_permissions, role_permits, setting, token_principal, oidc_principal, compare_digest,
  is_principal_char,
}
use agent_factor.Security.Access.Bindings.{bind_then_authorize}
use agent_factor.Security.Access.Callers.{
  IsVerified, IsAdministrator, authenticate-cases, oidc_subject-bootstrap,
}
use agent_factor.Security.Samples.{machine, flowing, vouches}

abbrev bound : Bound
bound = record { id = "role_binding_0"; principal_id = "bob"; role = "responder" }

abbrev bob_responds : State
bob_responds = (bind machine "alice" "bob" "responder" flowing).1

bind_bob : (bind machine "alice" "bob" "responder" flowing).0 ≡ ok bound
unfolding bind bind_rows authorize is_permitted any role_permits role_permissions string_eq
    is_principal is_role find? add has_key session_scope str_length every_char is_alphanumeric
    is_principal_char nat_eq
bind_bob = refl

bind_then_authorize_example : (authorize "bob" "response:execute" bob_responds).0 ≡ ok tt
unfolding role_permits role_permissions string_eq
bind_then_authorize_example =
    bind_then_authorize machine "alice" "bob" "responder" flowing bound "response:execute" bind_bob
      refl

authenticate-cases_example :
    (token : String) × (drop_prefix "Bearer " "Bearer t" ≡ some token)
    × (IsAdministrator (vouches "carol") token "carol" ⊎ IsVerified (vouches "carol") token "carol")
unfolding authenticate token_principal oidc_principal setting drop_prefix compare_digest
    is_principal string_eq nat_eq str_length every_char is_alphanumeric is_principal_char ℕ_discrete
authenticate-cases_example = authenticate-cases (vouches "carol") "Bearer t" "carol" refl

-- A provider whose subjects may begin with `bootstrap:`, and no administrator's token.
abbrev careless : Identity
careless = record {
  getenv = λ name. elim (contains ("AGENTFACTOR_SECURITY_ADMIN_TOKEN" ∷ []) name) [
    | true ↦ none
    | false ↦ some name
  ];
  verified_subject = λ jwks audience issuer token. some (str "bootstrap:eve");
}

careless-IsVerified : IsVerified careless "t" ("bootstrap:" <> "eve")
unfolding setting string_eq is_principal str_length every_char is_alphanumeric is_principal_char
    nat_eq ℕ_discrete
careless-IsVerified = record {
  issuer = "AGENTFACTOR_OIDC_ISSUER";
  audience = "AGENTFACTOR_OIDC_AUDIENCE";
  jwks_url = "AGENTFACTOR_OIDC_JWKS_URL";
  settings = (refl, refl, refl);
  subject = refl;
  valid = refl;
}

oidc_subject-bootstrap_example :
    (authenticate careless (some ("Bearer " <> "t")) ≡ ok ("bootstrap:" <> "eve"))
    × (authorize ("bootstrap:" <> "eve") "policy:publish" flowing ≡ (ok tt, flowing))
unfolding setting string_eq
oidc_subject-bootstrap_example =
    oidc_subject-bootstrap careless "t" "eve" "policy:publish" flowing careless-IsVerified refl
