-- ===== src/Prelude/HeaderNames.antt =====
-- `http.CanonicalHeaderKey`, and `strings.Split` at a comma.
use Prim.Native.Nat.{ℕ, ◌-◌}
use Prim.Native.Char.{Char, code}
use Prim.Native.String.{String, char_at}
use mathlib.Core.Bool.{Bool, true, ◌&&◌, ◌||◌}
use mathlib.Core.List.{List, [], ◌∷◌}
use droid_proxy.Prelude.Tests.{leb, ◌==◌, if◌then◌else◌}

is_upper : ℕ → Bool
is_upper c = leb b'A' c && leb c b'Z'

is_lower : ℕ → Bool
is_lower c = leb b'a' c && leb c b'z'

-- The bytes of a token of RFC 7230.
is_token_byte : ℕ → Bool
unfolding is_upper is_lower
is_token_byte c =
    is_upper c
    || is_lower c
    || (leb b'0' c && leb c b'9')
    || c == b'!'
    || (leb b'#' c && leb c b'\'')
    || c == b'*'
    || c == b'+'
    || c == b'-'
    || c == b'.'
    || (leb b'^' c && leb c b'`')
    || c == b'|'
    || c == b'~'

all_token_bytes : String → Bool
all_token_bytes String.[] = true
all_token_bytes (String.◌∷◌ c s) = is_token_byte (code c) && all_token_bytes s

to_upper_byte : Char → Char
to_upper_byte c =
    if is_lower (code c) then char_at "ABCDEFGHIJKLMNOPQRSTUVWXYZ" (code c - b'a') else c

to_lower_byte : Char → Char
to_lower_byte c =
    if is_upper (code c) then char_at "abcdefghijklmnopqrstuvwxyz" (code c - b'A') else c

-- The first letter and those after a dash are capitals, the others are small.
capitalised : Bool → String → String
capitalised up String.[] = ""
capitalised up (String.◌∷◌ c s) =
    String.◌∷◌ (if up then to_upper_byte c else to_lower_byte c) (capitalised (code c == b'-') s)

unfoldable pub canonical_header_key : String → String
unfolding is_upper is_lower is_token_byte all_token_bytes to_upper_byte to_lower_byte capitalised
canonical_header_key s = if all_token_bytes s then capitalised true s else s

prepend_char : Char → List String → List String
prepend_char c [] = String.◌∷◌ c "" ∷ []
prepend_char c (t ∷ ts) = String.◌∷◌ c t ∷ ts

-- `strings.Split(s, ",")`.
unfoldable pub split_comma : String → List String
unfolding prepend_char
split_comma String.[] = "" ∷ []
split_comma (String.◌∷◌ c s) =
    let rest = split_comma s in if code c == b',' then "" ∷ rest else prepend_char c rest
