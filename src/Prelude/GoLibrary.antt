-- ===== src/Prelude/GoLibrary.antt =====
-- What the program takes from tables and codecs of Go's library that are data rather than logic:
-- Unicode case tables, the readers of numbers and dates, and SHA-256. They are parameters of the
-- model.
use Prim.Native.Nat.{ℕ}
use Prim.Native.Char.{Char}
use Prim.Native.String.{String, [], ◌∷◌}
use mathlib.Core.Option.{Option}
use droid_proxy.Prelude.Numbers.{ℤ, Time}

pub record GoLibrary : Type 0 where
  -- the simple case-folding class of a rune
  pub fold : ℕ → ℕ
  -- `unicode.ToLower`
  pub lower : Char → Char
  -- `time.Parse(time.RFC3339Nano, s)`, `none` for an error
  pub parse_rfc3339_nano : String → Option Time
  -- `time.Parse(time.RFC3339, s)`
  pub parse_rfc3339 : String → Option Time
  -- `http.ParseTime(s)`
  pub parse_http_time : String → Option Time
  -- `strconv.Atoi(s)`
  pub atoi : String → Option ℤ
  -- `fmt.Sprintf("%x", sha256.Sum256([]byte(s)))`
  pub sha256_hex : String → String

-- `strings.ToLower`.
unfoldable pub to_lower : (Char → Char) → String → String
to_lower lower [] = []
to_lower lower (c ∷ s) = lower c ∷ to_lower lower s
