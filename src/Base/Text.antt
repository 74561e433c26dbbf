-- ===== src/Base/Text.antt =====
-- Python's `str` operations that the code calls, and the two character classes of its patterns.
use Prim.Native.Nat.{ℕ, suc}
use Prim.Native.Char.{code}
use Prim.Native.String.{String}
use mathlib.Core.Bool.{Bool, true, false, ◌&&◌, ◌||◌}
use mathlib.Core.List.{List, [], ◌∷◌}
use text.Mathlib.Text
use agent_factor.Base.Tests.{leb, if◌then◌else◌}
use agent_factor.Base.Equality.{◌==◌, nat_eq}

-- `len(s)`, in characters
unfoldable pub str_length : String → ℕ
str_length String.[] = 0
str_length (String.◌∷◌ c s) = suc (str_length s)

unfoldable pub every_char : (ℕ → Bool) → String → Bool
every_char p String.[] = true
every_char p (String.◌∷◌ c s) = p (code c) && every_char p s

unfoldable pub is_alphanumeric : ℕ → Bool
is_alphanumeric c = leb b'0' c && leb c b'9' || leb b'A' c && leb c b'Z' || leb b'a' c && leb c b'z'

-- `s.rstrip("/")`
unfoldable pub rstrip_sep : String → String
unfolding nat_eq
rstrip_sep String.[] = ""
rstrip_sep (String.◌∷◌ c s) =
    let rest = rstrip_sep s in if code c == b'/' && Text.◌==◌ rest "" then "" else String.◌∷◌ c rest

-- `"\x00" in s`
unfoldable pub has_nul : String → Bool
unfolding nat_eq
has_nul String.[] = false
has_nul (String.◌∷◌ c s) = code c == 0 || has_nul s

-- `any(s.startswith(prefix) for prefix in prefixes)`
unfoldable pub starts_with_any : String → List String → Bool
starts_with_any s [] = false
starts_with_any s (p ∷ ps) = Text.starts_with s p || starts_with_any s ps

-- `s.endswith("/")`
unfoldable pub ends_with_sep : String → Bool
unfolding nat_eq
ends_with_sep String.[] = false
ends_with_sep (String.◌∷◌ c s) = (code c == b'/' && Text.◌==◌ s "") || ends_with_sep s

-- `chr(c) in s`
unfoldable pub has_char : ℕ → String → Bool
unfolding nat_eq
has_char c String.[] = false
has_char c (String.◌∷◌ d s) = code d == c || has_char c s

-- `s.rstrip(".")`
unfoldable pub rstrip_dots : String → String
unfolding nat_eq
rstrip_dots String.[] = ""
rstrip_dots (String.◌∷◌ c s) =
    let rest = rstrip_dots s in
    if code c == b'.' && Text.◌==◌ rest "" then "" else String.◌∷◌ c rest

-- `s.endswith(t)`
unfoldable pub ends_with : String → String → Bool
ends_with String.[] t = Text.◌==◌ t ""
ends_with (String.◌∷◌ c s) t = Text.◌==◌ (String.◌∷◌ c s) t || ends_with s t
