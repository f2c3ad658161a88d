-- ===== src/Config/Defaults/Twice.antt =====
-- The defaults settle: internal/config/defaults.go.
use droid_proxy.Prelude.{◌≡◌, refl, Bool, true, false, String, zero, suc, arith}
use droid_proxy.Prelude.Numbers.{ℤ, pos, negsuc, Float, units, nan}
use droid_proxy.Config.{Config}
use droid_proxy.Config.Defaults.{
  apply_defaults, pool_defaults, was_present, or_number, or_text, or_percent, or_true,
}

or_number_twice : (was : Bool) (z d : ℤ) → or_number was (or_number was z d) d ≡ or_number was z d
unfolding or_number
or_number_twice true z d = refl
or_number_twice false (pos zero) (pos zero) = refl
or_number_twice false (pos zero) (pos (suc n)) = refl
or_number_twice false (pos zero) (negsuc n) = refl
or_number_twice false (pos (suc n)) d = refl
or_number_twice false (negsuc n) d = refl

or_percent_twice :
    (was : Bool) (x d : Float) → or_percent was (or_percent was x d) d ≡ or_percent was x d
unfolding or_percent
or_percent_twice true x d = refl
or_percent_twice false (units (pos zero)) nan = refl
or_percent_twice false (units (pos zero)) (units (pos zero)) = refl
or_percent_twice false (units (pos zero)) (units (pos (suc n))) = refl
or_percent_twice false (units (pos zero)) (units (negsuc n)) = refl
or_percent_twice false (units (pos (suc n))) d = refl
or_percent_twice false (units (negsuc n)) d = refl
or_percent_twice false nan d = refl

or_text_twice : (was : Bool) (s d : String) → or_text was (or_text was s d) d ≡ or_text was s d
unfolding or_text
or_text_twice was s d = ground arith

or_true_twice : (was b : Bool) → or_true was (or_true was b) ≡ or_true was b
unfolding or_true
or_true_twice true true = refl
or_true_twice true false = refl
or_true_twice false b = refl

-- The defaults of a configuration with its defaults are its own: a key that was present keeps its
-- value, and one that was given its default is not given another.
apply_defaults_twice : (c : Config) → apply_defaults (apply_defaults c) ≡ apply_defaults c
unfolding apply_defaults pool_defaults was_present
apply_defaults_twice c = simp (or_number_twice, or_text_twice, or_true_twice, or_percent_twice)
