-- ===== src/Security/Access.antt =====
-- security/access.py: who a caller is, and what the roles of a principal permit.
pub mod Roles
pub mod Callers
pub mod Bindings
use agent_factor.Base.{
  ℕ, ◌+◌, String, ◌<>◌, Bool, true, false, not, ◌||◌, ◌&&◌, Option, none, some, List, [], ◌∷◌,
}
use agent_factor.Base.{
  ◌==◌, contains, string_eq, nat_eq, if◌then◌else◌, any, find?, ltb, leb, starts_with, every_char,
}
use agent_factor.Base.{str_length, is_alphanumeric}
use agent_factor.Base.{Result, ok, err, Exec, pure, raise, lift, continue, and_then, ◌>>=◌, ◌>>◌}
use Prim.Native.Char.{code}
use agent_factor.Json.{Json, str, as_str?}
use agent_factor.Store.{add}
use agent_factor.Security.Model.{Db, State, Machine, RoleBinding, session_scope, draw}
use agent_factor.Security.Gateway.Ids.{drop_prefix}

-- `[A-Za-z0-9._:@/-]`
unfoldable pub is_principal_char : ℕ → Bool
unfolding is_alphanumeric nat_eq
is_principal_char c = is_alphanumeric c || contains (b'.' ∷ b'_' ∷ b':' ∷ b'@' ∷ b'/' ∷ b'-' ∷ []) c

-- `PRINCIPAL.fullmatch(s)`: the first character is a letter or a digit.
unfoldable pub is_principal : String → Bool
unfolding is_principal_char str_length every_char
is_principal String.[] = false
is_principal (String.◌∷◌ c s) =
    is_alphanumeric (code c) && leb (str_length s) 255 && every_char is_principal_char s

-- `ROLE_PERMISSIONS.get(role, set())`
unfoldable pub role_permissions : String → List String
role_permissions role =
    if role == "viewer"
    then "security:read" ∷ []
    else if role == "policy_author"
    then "security:read" ∷ "policy:author" ∷ []
    else if role == "policy_publisher"
    then "security:read" ∷ "policy:publish" ∷ []
    else if role == "responder"
    then "security:read" ∷ "response:execute" ∷ []
    else if role == "admin"
    then "*" ∷ []
    else []

-- `role in ROLE_PERMISSIONS`
unfoldable pub is_role : String → Bool
is_role role =
    contains ("viewer" ∷ "policy_author" ∷ "policy_publisher" ∷ "responder" ∷ "admin" ∷ []) role

unfoldable pub role_permits : String → String → Bool
role_permits permission role =
    contains (role_permissions role) "*" || contains (role_permissions role) permission

-- What `authenticate` takes from the machine: `os.getenv`, and the claim `sub` of a token that
-- `jwt.decode` verifies with a key of the JWKS (`none` where either raises, `""` without the claim).
pub record Identity : Type 0 where
  pub getenv : String → Option String
  pub verified_subject : (jwks_url audience issuer token : String) → Option Json

-- The value of a variable that is set and is not empty.
unfoldable pub setting : Identity → String → Option String
setting identity name = elim (identity.getenv name) [
  | none ↦ none
  | some value ↦ if value == "" then none else some value
]

-- `hmac.compare_digest` of texts raises TypeError when one of them is not ASCII.
unfoldable pub compare_digest : String → String → Result Bool
compare_digest a b =
    if every_char (λ c. ltb c 128) a && every_char (λ c. ltb c 128) b
    then ok (a == b)
    else err "TypeError" 500

-- The subject of a verified token.
unfoldable pub oidc_principal : Identity → String → Result String
oidc_principal identity token = elim (setting identity "AGENTFACTOR_OIDC_ISSUER") [
  | none ↦ err "oidc_not_configured" 503
  | some issuer ↦ elim (setting identity "AGENTFACTOR_OIDC_AUDIENCE") [
    | none ↦ err "oidc_not_configured" 503
    | some audience ↦ elim (setting identity "AGENTFACTOR_OIDC_JWKS_URL") [
      | none ↦ err "oidc_not_configured" 503
      | some jwks_url ↦ elim (identity.verified_subject jwks_url audience issuer token) [
        | none ↦ err "oidc_token_invalid" 401
        | some subject ↦ elim (as_str? subject) [
          | none ↦ err "oidc_subject_invalid" 401
          | some principal ↦
              if is_principal principal then ok principal else err "oidc_subject_invalid" 401
        ]
      ]
    ]
  ]
]

-- `os.getenv(name, default)`
abbrev or_else : String → Option String → String
or_else default none = default
or_else default (some value) = value

-- The principal of the administrator's token.
unfoldable pub bootstrap_principal : Identity → Result String
bootstrap_principal identity =
    let principal =
      or_else "local-admin" (identity.getenv "AGENTFACTOR_SECURITY_ADMIN_PRINCIPAL") in
    if is_principal principal
    then ok ("bootstrap:" <> principal)
    else err "bootstrap_principal_invalid" 503

unfoldable pub token_principal : Identity → String → Result String
token_principal identity token = elim (setting identity "AGENTFACTOR_SECURITY_ADMIN_TOKEN") [
  | none ↦ oidc_principal identity token
  | some bootstrap ↦
      and_then (compare_digest token bootstrap)
        (λ same. if same then bootstrap_principal identity else oidc_principal identity token)
]

-- `authenticate` of the header `Authorization`
unfoldable pub authenticate : Identity → Option String → Result String
authenticate identity none = err "authentication_required" 401
authenticate identity (some authorization) = elim (drop_prefix "Bearer " authorization) [
  | none ↦ err "authentication_required" 401
  | some token ↦ token_principal identity token
]

abbrev pub is_bootstrap : String → Bool
is_bootstrap principal_id = starts_with principal_id "bootstrap:"

-- The roles of a principal permit something: the list of the roles, and the test of each.
unfoldable pub is_permitted : String → String → Db → Bool
is_permitted principal_id permission db =
    any (λ b. b.principal_id == principal_id && role_permits permission b.role) db.bindings

-- `authorize`
unfoldable pub authorize : String → String → Exec State (Unit {0})
authorize principal_id permission s =
    if is_bootstrap principal_id
    then (ok tt, s)
    else if is_permitted principal_id permission s.db
    then (ok tt, s)
    else (err "permission_denied" 403, s)

pub record Bound : Type 0 where
  pub id : String
  pub principal_id : String
  pub role : String

-- The block of `bind`, with the identifier for a new row.
unfoldable pub bind_rows : String → String → String → String → Db → Result (Bound × Db)
bind_rows id actor_id principal_id role db =
    elim (find? (λ b. b.principal_id == principal_id && b.role == role) db.bindings) [
      | some existing ↦
          ok (record { id = existing.id; principal_id = principal_id; role = role }, db)
      | none ↦
          and_then
            (add (λ b. b.id)
              (record { id = id; principal_id = principal_id; role = role; created_by = actor_id })
              db.bindings)
            (λ bindings. ok (
              record { id = id; principal_id = principal_id; role = role },
              record db { bindings = bindings },
            ))
    ]

-- `bind`
unfoldable pub bind : Machine → String → String → String → Exec State Bound
bind machine actor_id principal_id role = do
  authorize actor_id "*"
  n ← draw 1
  if not (is_principal principal_id) || not (is_role role)
      then raise "role_binding_invalid" 400
      else session_scope
          (bind_rows ("role_binding_" <> machine.uuid_hex n) actor_id principal_id role)
