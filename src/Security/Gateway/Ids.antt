-- ===== src/Security/Gateway/Ids.antt =====
-- The patterns and digests of gateway.py.
use agent_factor.Base.{ℕ, String, ◌<>◌, Bool, ◌&&◌, ◌||◌, Option, none, some, [], ◌∷◌}
use agent_factor.Base.{◌==◌, contains, nat_eq, ltb, leb, str_length, every_char, is_alphanumeric}
use agent_factor.Base.{Result, ok, err, and_then, false, if◌then◌else◌}
use Prim.Native.Char.{code}
use agent_factor.Json.{Json}
use agent_factor.Security.Model.{Machine}

-- `[A-Za-z0-9_.:@+-]`
unfoldable pub is_safe_char : ℕ → Bool
unfolding is_alphanumeric nat_eq
is_safe_char c = is_alphanumeric c || contains (b'_' ∷ b'.' ∷ b':' ∷ b'@' ∷ b'+' ∷ b'-' ∷ []) c

-- `SAFE_ID.fullmatch(s)`
unfoldable pub is_safe_id : String → Bool
unfolding is_safe_char str_length every_char
is_safe_id s = ltb 0 (str_length s) && leb (str_length s) 128 && every_char is_safe_char s

-- `[0-9a-f]`
unfoldable pub is_hex_char : ℕ → Bool
is_hex_char c = leb b'0' c && leb c b'9' || leb b'a' c && leb c b'f'

unfoldable pub drop_prefix : String → String → Option String
unfolding nat_eq
drop_prefix String.[] s = some s
drop_prefix (String.◌∷◌ c p) String.[] = none
drop_prefix (String.◌∷◌ c p) (String.◌∷◌ d s) = if code c == code d then drop_prefix p s else none

-- `SHA256.fullmatch(s)`
unfoldable pub is_sha256 : String → Bool
is_sha256 s = elim (drop_prefix "sha256:" s) [
  | none ↦ false
  | some hex ↦ str_length hex == 64 && every_char is_hex_char hex
]

module _ (machine : Machine) where
  open machine use {sha256_hex, dumps}

  -- `_canonical`
  unfoldable pub canonical : Json → Result String
  canonical value = elim (dumps value) [ none ↦ err "action_not_canonical" 400 | some t ↦ ok t ]

  -- `_digest`
  unfoldable pub digest : Json → Result String
  unfolding canonical
  digest value = and_then (canonical value) (λ text. ok ("sha256:" <> sha256_hex text))
