-- ===== src/Prelude/Numbers.antt =====
-- Signed integers, float64 values that are only compared, and instants.
use Prim.Native.Nat.{ℕ, ◌+◌, ◌-◌, ◌*◌, min}
use mathlib.Core.Bool.{Bool, true, false}
use droid_proxy.Prelude.Tests.{ltb, ◌==◌, if◌then◌else◌}

-- `negsuc n` is -(n + 1).
pub data ℤ : Type 0 where
  pos : ℕ → ℤ
  negsuc : ℕ → ℤ

abbrev pub is_zero : ℤ → Bool
is_zero (pos a) = a == 0
is_zero (negsuc a) = false

abbrev pub ltb_ℤ : ℤ → ℤ → Bool
ltb_ℤ (pos a) (pos b) = ltb a b
ltb_ℤ (pos a) (negsuc b) = false
ltb_ℤ (negsuc a) (pos b) = true
ltb_ℤ (negsuc a) (negsuc b) = ltb b a

-- A float64 that the program only compares. Every finite value is a whole number of units of
-- 2^-1074, both zeros are 0 units, and the infinities are the values of 2^2098 units, which no
-- finite value reaches; so `<` on the units is `<` on the values, and a NaN is below nothing.
pub data Float : Type 0 where
  nan : Float
  units : ℤ → Float

abbrev pub ltb_float : Float → Float → Bool
ltb_float (units a) (units b) = ltb_ℤ a b
ltb_float _ _ = false

-- An instant is the number of nanoseconds since the zero time.Time (0001-01-01 UTC), so the zero
-- value is 0. Instants before it are not represented.
abbrev pub Time : Type 0
Time = ℕ

-- `t.After(u)`.
abbrev pub is_after : Time → Time → Bool
is_after t u = ltb u t

-- `t.Before(u)`.
abbrev pub is_before : Time → Time → Bool
is_before t u = ltb t u

-- `t.Sub(u)` where only its being above a positive bound matters: a negative duration is 0 here,
-- and a duration saturates at the largest int64.
abbrev pub elapsed : Time → Time → ℕ
elapsed t u = min (t - u) 9_223_372_036_854_775_807

-- `time.Unix(s, 0)` of a positive int64. Where the seconds since year 1 leave int64 the instant
-- lies before the zero time, which stands as 0 here.
unfoldable pub unix : ℕ → Time
unix s =
    if ltb (s + 62_135_596_800) 9_223_372_036_854_775_808
    then (s + 62_135_596_800) * 1_000_000_000
    else 0
