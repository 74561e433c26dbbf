-- ===== src/Security/Credentials.antt =====
-- security/credentials.py: the checkout of a secret that an agent never sees.
pub mod Checkout
use agent_factor.Base.{
  ℕ, ◌+◌, String, ◌<>◌, Bool, true, false, not, ◌||◌, ◌&&◌, Option, none, some, List, [], ◌∷◌,
}
use agent_factor.Base.{
  ◌==◌, contains, string_eq, nat_eq, if◌then◌else◌, find?, starts_with_any, leb, str_length,
  every_char,
}
use agent_factor.Base.{Result, ok, err, Exec, pure, raise, lift, continue, and_then, ◌>>=◌, ◌>>◌}
use Prim.Native.Char.{code}
use agent_factor.Store.{add}
use agent_factor.Security.Model.{Db, State, Machine, CredentialLease, session_scope, draw, seconds}
use agent_factor.Security.Documents.{Document, CredentialRule, active_document}
use agent_factor.Security.Access.{Identity, setting}

abbrev is_upper : ℕ → Bool
is_upper c = leb b'A' c && leb c b'Z'

-- `ENV_NAME.fullmatch(s)`: an upper case letter, and 2 to 127 of `[A-Z0-9_]`
unfoldable pub is_env_name : String → Bool
unfolding str_length every_char nat_eq
is_env_name String.[] = false
is_env_name (String.◌∷◌ c s) =
    is_upper (code c)
    && leb 2 (str_length s)
    && leb (str_length s) 127
    && every_char (λ d. is_upper d || leb b'0' d && leb d b'9' || d == b'_') s

-- The rule lets the credential be used on the surface, for the resource.
unfoldable pub in_scope : String → String → CredentialRule → Bool
in_scope surface resource rule =
    contains rule.allowed_surfaces surface && starts_with_any resource rule.resource_prefixes

-- The secret that a rule names, behind the checks.
unfoldable pub rule_secret :
    Identity → String → String → Option CredentialRule → Result (CredentialRule × String)
rule_secret identity surface resource none = err "credential_scope_blocked" 403
rule_secret identity surface resource (some rule) =
    if not (in_scope surface resource rule)
    then err "credential_scope_blocked" 403
    else if not (is_env_name rule.source_env)
    then err "credential_source_invalid" 503
    else elim (setting identity rule.source_env) [
      | none ↦ err "credential_unavailable" 503
      | some secret ↦ ok (rule, secret)
    ]

module _ (machine : Machine) (identity : Identity) (parse : String → Option Document) where
  open machine use {uuid_hex, sha256_hex}

  abbrev pub lease_row :
      ℕ → ℕ → CredentialRule → String → String → String → String → String → CredentialLease
  lease_row now n rule secret credential_id session_id surface resource = record {
    id = "credential_lease_" <> uuid_hex n;
    credential_id = credential_id;
    session_id = session_id;
    surface = surface;
    resource_digest = "sha256:" <> sha256_hex resource;
    secret_digest = "sha256:" <> sha256_hex secret;
    expires_at = now + seconds rule.ttl_seconds;
    consumed_at = now;
  }

  -- `checkout`: the secret and the identifier of the lease
  unfoldable pub checkout : ℕ → String → String → String → String → Exec State (String × String)
  checkout now credential_id session_id surface resource = do
    (document, _) ← active_document parse
    (rule, secret) ← lift (
        rule_secret identity surface resource
          (find? (λ r. r.id == credential_id) document.credentials))
    n ← draw 1
    let row = lease_row now n rule secret credential_id session_id surface resource
    session_scope (λ db.
        and_then (add (λ l. l.id) row db.leases)
          (λ leases. ok ((secret, row.id), record db { leases = leases })))
