-- ===== src/OAuth/Quota/Parsers.antt =====
-- What the Codex backend says of its quota windows: ParseCodexRateLimitHeaders and
-- ParseCodexRateLimitsEvent in internal/oauth/quota.go, and ParseCodexUsageLimitFromBody in
-- internal/oauth/usage_limit.go. How numbers and JSON are read is a parameter. A nil map of headers
-- or of JSON reads as an empty one.
pub mod Percent
pub mod Windows
pub mod Parsed
use Prim.Native.String.{◌++◌}
use droid_proxy.Prelude.{
  ℕ, suc, ◌*◌, ◌-◌, ◌^◌, Bool, true, false, not, ◌&&◌, ◌||◌, Option, none, some, List, [], ◌∷◌,
  String, str_eq, if◌then◌else◌,
}
use droid_proxy.Prelude.Numbers.{ℤ, pos, negsuc, ltb_ℤ, Float, nan, units, ltb_float, Time}
use droid_proxy.Prelude.GoLibrary.{GoLibrary}
use droid_proxy.Prelude.Texts.{trim_space, is_blank}
use droid_proxy.Reasoning.Json.{Json, null, number, object, Fields, get, text_of, fields_of}
use droid_proxy.OAuth.Quota.{
  CodexQuotaWindow, CodexQuota, latest_quota_reset, exhausted_window_reset_at, merge_codex_quota,
}
use droid_proxy.Handlers.Cooldown.{Headers, get_header, add_seconds}

-- strconv, float64 and encoding/json, as far as the parsers use them. `none` is an error.
pub record NumberLibrary : Type 0 where
  -- `strconv.ParseFloat(s, 64)` and `strconv.ParseInt(s, 10, 64)`
  pub parse_float : String → Option Float
  pub parse_int : String → Option ℤ
  -- the float64 of a number in decoded JSON
  pub float_of : String → Float
  -- `int64(f)`
  pub to_int64 : Float → ℤ
  -- `a - b`
  pub minus : Float → Float → Float
  -- `json.Unmarshal` into a map
  pub unmarshal : String → Option Fields
  -- `Raw`, `Value()` and `Bool()` of the value at a path of a body, as gjson reads it
  pub raw_at : String → String → Option String
  pub value_at : String → String → Option Json
  pub bool_at : String → String → Bool

unfoldable pub infinite_units : ℕ
infinite_units = 2 ^ 2098

unfoldable pub hundred_units : ℕ
hundred_units = 100 * 2 ^ 1074

abbrev pub hundred : Float
hundred = units (pos hundred_units)

-- `a >= b` is `leb_float b a`.
abbrev pub leb_float : Float → Float → Bool
leb_float (units a) (units b) = not (ltb_ℤ b a)
leb_float _ _ = false

-- `!math.IsNaN(f) && !math.IsInf(f, 0)`.
unfoldable pub is_finite : Float → Bool
is_finite nan = false
is_finite (units n) = ltb_ℤ n (pos infinite_units) && ltb_ℤ (negsuc (infinite_units - 1)) n

abbrev pub finite : Option Float → Option Float
finite none = none
finite (some f) = if is_finite f then some f else none

-- The two tests of newCodexQuotaWindow.
unfoldable pub clamp : Float → Float
clamp used =
    let u = if ltb_float used (units (pos 0)) then units (pos 0) else used in
    if ltb_float hundred u then hundred else u

abbrev pub or_window : Option CodexQuotaWindow → Option CodexQuotaWindow → Option CodexQuotaWindow
or_window none next = next
or_window (some win) next = some win

-- A quota without any window is nil.
abbrev pub quota_of :
    Option CodexQuotaWindow → Option CodexQuotaWindow → Option CodexQuotaWindow → Option CodexQuota
quota_of none none none = none
quota_of primary secondary code_review =
    some (record { primary = primary; secondary = secondary; code_review = code_review })

abbrev or_quota : Option CodexQuota → Option CodexQuota → Option CodexQuota
or_quota none next = next
or_quota (some q) next = some q

-- `if w.UsedPercent >= 100 { w.LimitReached = true }`.
abbrev pub mark_reached : Option CodexQuotaWindow → Option CodexQuotaWindow
mark_reached none = none
mark_reached (some win) =
    some (record win { limit_reached = leb_float hundred win.used_percent || win.limit_reached })

abbrev pub mark_all : Option CodexQuota → Option CodexQuota
mark_all none = none
mark_all (some q) = some (record {
  primary = mark_reached q.primary;
  secondary = mark_reached q.secondary;
  code_review = mark_reached q.code_review;
})

-- `w.LimitReached = true`.
abbrev pub flagged : Option CodexQuotaWindow → Option CodexQuotaWindow
flagged none = none
flagged (some win) = some (record win { limit_reached = true })

-- `payload[key] == nil`.
abbrev is_nil : Option Json → Bool
is_nil none = true
is_nil (some null) = true
is_nil (some _) = false

abbrev pub usage_paths : List String
usage_paths =
    "rate_limits" ∷ "error.rate_limits" ∷ "detail.rate_limits" ∷ "usage_limit" ∷ "error.usage_limit"
    ∷ []

module _ (lib : NumberLibrary) where
  -- newCodexQuotaWindow.
  unfoldable pub new_codex_quota_window : Float → CodexQuotaWindow
  new_codex_quota_window used =
      let u = clamp used in
      record {
        used_percent = u;
        remaining_percent = some (lib.minus hundred u);
        window_minutes = none;
        reset_at = none;
        limit_reached = leb_float hundred u;
      }

  -- parseOptionalFloat.
  unfoldable pub parse_optional_float : String → Option Float
  parse_optional_float raw = finite (lib.parse_float (trim_space raw))

  abbrev if_positive : Option ℤ → Option ℤ
  if_positive (some (pos (suc n))) = some (pos (suc n))
  if_positive _ = none

  -- parseOptionalUnix.
  unfoldable pub parse_optional_unix : String → Option ℤ
  parse_optional_unix raw = if_positive (lib.parse_int (trim_space raw))

  abbrev pub header_window : Headers → String → Option Float → Option CodexQuotaWindow
  header_window h prefix none = none
  header_window h prefix (some used) = some (record (new_codex_quota_window used) {
    window_minutes = parse_optional_float (get_header (prefix ++ "-Window-Minutes") h);
    reset_at = parse_optional_unix (get_header (prefix ++ "-Reset-At") h);
  })

  -- parseCodexWindowHeader, of a prefix in canonical form.
  unfoldable pub parse_codex_window_header : Headers → String → Option CodexQuotaWindow
  parse_codex_window_header h prefix =
      let raw = trim_space (get_header (prefix ++ "-Used-Percent") h) in
      if str_eq raw "" then none else header_window h prefix (finite (lib.parse_float raw))

  -- firstCodexWindow.
  unfoldable pub first_codex_window : Headers → List String → Option CodexQuotaWindow
  first_codex_window h [] = none
  first_codex_window h (prefix ∷ prefixes) =
      or_window (parse_codex_window_header h prefix) (first_codex_window h prefixes)

  -- numericValue, of decoded JSON.
  abbrev pub numeric_value : Option Json → Option Float
  numeric_value (some (number s)) = finite (some (lib.float_of s))
  numeric_value _ = none

  abbrev truncated : Option Float → Option ℤ
  truncated none = none
  truncated (some f) = some (lib.to_int64 f)

  abbrev pub object_window : Fields → Option Float → Option CodexQuotaWindow
  object_window obj none = none
  object_window obj (some used) = some (record (new_codex_quota_window used) {
    window_minutes = numeric_value (get "window_minutes" obj);
    reset_at = truncated (numeric_value (get "reset_at" obj));
  })

  -- parseCodexWindowObject.
  unfoldable pub parse_codex_window_object : Option Json → Option CodexQuotaWindow
  parse_codex_window_object (some (object obj)) =
      object_window obj (numeric_value (get "used_percent" obj))
  parse_codex_window_object _ = none

  abbrev pub window_in : String → Option Fields → Option CodexQuotaWindow
  window_in key none = none
  window_in key (some m) = parse_codex_window_object (get key m)

  abbrev pub review_in : Option Fields → Option CodexQuotaWindow
  review_in m = or_window (window_in "primary" m) (window_in "secondary" m)

  -- retryAfterReset.
  abbrev reset_from : Option ℤ → Option Time → Time → Option Time
  reset_from (some (pos (suc n))) date now = some (add_seconds now (suc n))
  reset_from _ date now = date

  unfoldable pub retry_after_reset : GoLibrary → Headers → Time → Option Time
  retry_after_reset go h now =
      let raw = trim_space (get_header "Retry-After" h) in
      if str_eq raw "" then none else reset_from (go.atoi raw) (go.parse_http_time raw) now

  abbrev pub with_reset :
      GoLibrary → Headers → Time → Option CodexQuota → Option CodexQuota × Option Time
  with_reset go h now none = (none, retry_after_reset go h now)
  with_reset go h now (some q) = (some q, latest_quota_reset (some q))

  abbrev pub quota_of_headers : Headers → Option CodexQuota
  quota_of_headers h =
      quota_of (parse_codex_window_header h "X-Codex-Primary")
        (parse_codex_window_header h "X-Codex-Secondary")
        (first_codex_window h ("X-Codex-Code-Review" ∷ "X-Codex-Review" ∷ "X-Code-Review" ∷ []))

  -- ParseCodexRateLimitHeaders.
  unfoldable pub parse_codex_rate_limit_headers :
      GoLibrary → Headers → Time → Option CodexQuota × Option Time
  parse_codex_rate_limit_headers go h now = with_reset go h now (quota_of_headers h)

  abbrev pub is_other_event : Fields → Bool
  is_other_event payload =
      let typ = text_of (get "type" payload) in
      not (str_eq typ "")
      && not (str_eq typ "codex.rate_limits")
      && is_nil (get "rate_limits" payload)

  abbrev pub quota_of_event : Option Fields → Option CodexQuota
  quota_of_event none = none
  quota_of_event (some payload) =
      let limits = fields_of (get "rate_limits" payload) in
      if is_other_event payload
      then none
      else quota_of (window_in "primary" limits) (window_in "secondary" limits)
          (review_in (fields_of (get "code_review_rate_limits" payload)))

  -- ParseCodexRateLimitsEvent.
  unfoldable pub parse_codex_rate_limits_event : String → Option CodexQuota
  parse_codex_rate_limits_event body = quota_of_event (lib.unmarshal body)

  -- ParseCodexRateLimitsFromMap.
  unfoldable pub parse_codex_rate_limits_from_map : Fields → Option CodexQuota
  parse_codex_rate_limits_from_map limits = mark_all (
      quota_of (window_in "primary" (some limits)) (window_in "secondary" (some limits))
        (review_in (fields_of (get "code_review" limits))))

  abbrev pub quota_of_map : Option Fields → Option CodexQuota
  quota_of_map none = none
  quota_of_map (some limits) = parse_codex_rate_limits_from_map limits

  abbrev pub unmarshalled : Option String → Option Fields
  unmarshalled none = none
  unmarshalled (some raw) = lib.unmarshal raw

  -- parseRateLimitsAt.
  unfoldable pub parse_rate_limits_at : String → String → Option CodexQuota
  parse_rate_limits_at body path = quota_of_map (unmarshalled (lib.raw_at body path))

  unfoldable pub first_rate_limits : String → List String → Option CodexQuota
  first_rate_limits body [] = none
  first_rate_limits body (path ∷ paths) =
      or_quota (parse_rate_limits_at body path) (first_rate_limits body paths)

  abbrev pub is_flagged : String → Bool
  is_flagged body =
      lib.bool_at body "usage_limit_reached"
      || lib.bool_at body "error.usage_limit_reached"
      || lib.bool_at body "limit_reached"

  -- The branch of a body that says that a limit is reached.
  unfoldable pub flagged_quota : String → Option CodexQuota
  flagged_quota body =
      if is_flagged body
      then or_quota (parse_rate_limits_at body "rate_limits") (
          quota_of (flagged (parse_codex_window_object (lib.value_at body "primary")))
            (flagged (parse_codex_window_object (lib.value_at body "secondary"))) none)
      else none

  abbrev limits_of : Option Fields → Option Fields
  limits_of none = none
  limits_of (some m) = fields_of (get "rate_limits" m)

  abbrev or_fields : Option Fields → Option Fields → Option Fields
  or_fields none next = next
  or_fields (some m) next = some m

  abbrev pub fallback_limits : Fields → Option Fields
  fallback_limits payload =
      or_fields (limits_of (some payload)) (limits_of (fields_of (get "error" payload)))

  -- The fallback to the whole body as a map.
  unfoldable pub fallback_quota : Option Fields → Option CodexQuota
  fallback_quota none = none
  fallback_quota (some payload) = quota_of_map (fallback_limits payload)

  -- ParseCodexUsageLimitFromBody.
  unfoldable pub parse_codex_usage_limit_from_body : String → Option CodexQuota
  parse_codex_usage_limit_from_body body =
      if is_blank body
      then none
      else or_quota (first_rate_limits body usage_paths)
          (or_quota (flagged_quota body) (fallback_quota (lib.unmarshal body)))
