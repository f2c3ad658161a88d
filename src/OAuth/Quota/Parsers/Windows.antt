-- ===== src/OAuth/Quota/Parsers/Windows.antt =====
-- The windows that the parsers of internal/oauth/quota.go make of headers and of decoded JSON.
use Prim.Native.String.{◌++◌}
use droid_proxy.Prelude.{
  ◌≡◌, refl, true, Option, none, some, List, [], ◌∷◌, String, arith, str_eq, if_branches,
}
use droid_proxy.Prelude.Numbers.{ℤ, Float}
use droid_proxy.Prelude.Texts.{trim_space}
use droid_proxy.Reasoning.Json.{Json, null, boolean, number, text, array, object, Fields, get}
use droid_proxy.Handlers.Cooldown.{Headers, get_header}
use droid_proxy.OAuth.Quota.Parsers.{
  NumberLibrary, hundred, is_finite, finite, clamp, quota_of, new_codex_quota_window, header_window,
  parse_codex_window_header, first_codex_window, numeric_value, object_window,
  parse_codex_window_object, window_in, review_in,
}
use droid_proxy.OAuth.Quota.Parsers.Percent.{
  IsExactWindow, IsNumberLibrary, OfQuota, OfWindow, clamp_percent, hundred_percent, is_percent,
  or_window-Of, quota_of-Of, zero_float, zero_percent,
}

module _ (lib : NumberLibrary) (laws : IsNumberLibrary lib) where
  minus_percent : (u : Float) → is_percent u ≡ true → is_percent (lib.minus hundred u) ≡ true
  minus_percent u h =
      let low = laws.minus_monotone u hundred h hundred_percent (ground arith) in
      let high = laws.minus_monotone zero_float u zero_percent h (ground arith) in
      rw (rw laws.minus_hundred at low, rw laws.minus_zero at high) refl

  new_window :
      (used : Float) (m : Option Float) (r : Option ℤ)
      → is_finite used ≡ true
      → IsExactWindow
          (record (new_codex_quota_window lib used) { window_minutes = m; reset_at = r })
  unfolding new_codex_quota_window
  new_window used m r h =
      let p = clamp_percent used h in
      record {
        is_window = record {
          used = p;
          remaining = (lib.minus hundred (clamp used), refl, minus_percent (clamp used) p);
          reached = λ e. e;
        };
        exact = refl;
      }

  finite_lem : (o : Option Float) (f : Float) → finite o ≡ some f → is_finite f ≡ true
  finite_lem none f e = absurd (cc e)
  finite_lem (some g) f e = ground arith

  header_window-IsExactWindow :
      (h : Headers) (prefix : String) (o : Option Float)
      → OfWindow IsExactWindow (header_window lib h prefix (finite o))
  header_window-IsExactWindow h prefix none = tt
  header_window-IsExactWindow h prefix (some f) =
      if_branches (λ o. OfWindow IsExactWindow (header_window lib h prefix o)) (is_finite f)
        (some f) none (λ e. new_window f _ _ e) (λ e. tt)

  object_window-IsExactWindow :
      (obj : Fields) (o : Option Float) → OfWindow IsExactWindow (object_window lib obj (finite o))
  object_window-IsExactWindow obj none = tt
  object_window-IsExactWindow obj (some f) =
      if_branches (λ o. OfWindow IsExactWindow (object_window lib obj o)) (is_finite f) (some f)
        none (λ e. new_window f _ _ e) (λ e. tt)

  pub parse_codex_window_header-IsExactWindow :
      (h : Headers) (prefix : String)
      → OfWindow IsExactWindow (parse_codex_window_header lib h prefix)
  unfolding parse_codex_window_header
  parse_codex_window_header-IsExactWindow h prefix =
      let raw = trim_space (get_header (prefix ++ "-Used-Percent") h) in
      if_branches (OfWindow IsExactWindow) (str_eq raw "") none
        (header_window lib h prefix (finite (lib.parse_float raw))) (λ e. tt)
        (λ e. header_window-IsExactWindow h prefix (lib.parse_float raw))

  pub first_codex_window-IsExactWindow :
      (h : Headers) (prefixes : List String)
      → OfWindow IsExactWindow (first_codex_window lib h prefixes)
  unfolding first_codex_window
  first_codex_window-IsExactWindow h [] = tt
  first_codex_window-IsExactWindow h (prefix ∷ prefixes) =
      or_window-Of IsExactWindow (parse_codex_window_header lib h prefix)
        (first_codex_window lib h prefixes) (parse_codex_window_header-IsExactWindow h prefix)
        (first_codex_window-IsExactWindow h prefixes)

  number_window :
      (obj : Fields) (o : Option Json)
      → OfWindow IsExactWindow (object_window lib obj (numeric_value lib o))
  number_window obj (some (number s)) = object_window-IsExactWindow obj (some (lib.float_of s))
  number_window obj none = tt
  number_window obj (some null) = tt
  number_window obj (some (boolean b)) = tt
  number_window obj (some (text s)) = tt
  number_window obj (some (array vs)) = tt
  number_window obj (some (object m)) = tt

  pub parse_codex_window_object-IsExactWindow :
      (o : Option Json) → OfWindow IsExactWindow (parse_codex_window_object lib o)
  unfolding parse_codex_window_object
  parse_codex_window_object-IsExactWindow (some (object obj)) =
      number_window obj (get "used_percent" obj)
  parse_codex_window_object-IsExactWindow none = tt
  parse_codex_window_object-IsExactWindow (some null) = tt
  parse_codex_window_object-IsExactWindow (some (boolean b)) = tt
  parse_codex_window_object-IsExactWindow (some (text s)) = tt
  parse_codex_window_object-IsExactWindow (some (array vs)) = tt
  parse_codex_window_object-IsExactWindow (some (number n)) = tt

  window_in-IsExactWindow :
      (key : String) (o : Option Fields) → OfWindow IsExactWindow (window_in lib key o)
  window_in-IsExactWindow key none = tt
  window_in-IsExactWindow key (some m) = parse_codex_window_object-IsExactWindow (get key m)

  -- The quota of two windows of one map and of the first window of another.
  pub windows_of-IsExactWindow :
      (m r : Option Fields)
      → OfQuota IsExactWindow
          (quota_of (window_in lib "primary" m) (window_in lib "secondary" m) (review_in lib r))
  windows_of-IsExactWindow m r =
      let w = window_in lib in
      quota_of-Of IsExactWindow (w "primary" m) (w "secondary" m) (review_in lib r)
        (window_in-IsExactWindow "primary" m) (window_in-IsExactWindow "secondary" m)
        (or_window-Of IsExactWindow (w "primary" r) (w "secondary" r)
          (window_in-IsExactWindow "primary" r) (window_in-IsExactWindow "secondary" r))
