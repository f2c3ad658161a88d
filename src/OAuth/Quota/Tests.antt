-- ===== src/OAuth/Quota/Tests.antt =====
-- The quota windows at concrete telemetry.
use droid_proxy.Prelude.{
  ℕ, ◌*◌, ◌-◌, ◌^◌, ◌≡◌, refl, sym, Bool, true, false, Option, none, some, List, [], ◌∷◌, String,
  str_eq, arith, if◌then◌else◌,
}
use droid_proxy.Prelude.Numbers.{pos, negsuc, Float, nan, units, unix}
use droid_proxy.Samples.{plain_go, token_of, path_a, noon}
use droid_proxy.Reasoning.Json.{Fields, no_fields, field, text, number, object}
use droid_proxy.OAuth.Quota.{CodexQuota, CodexQuotaWindow, exhausted_window_reset_at}
use droid_proxy.OAuth.Account.{Token}
use droid_proxy.Handlers.Cooldown.{Headers}
use droid_proxy.OAuth.Quota.Parsers.{
  NumberLibrary, hundred, hundred_units, leb_float, parse_codex_rate_limit_headers,
  parse_codex_rate_limits_event, parse_codex_usage_limit_from_body,
}
use droid_proxy.OAuth.Quota.Parsers.Percent.{
  is_percent, IsNumberLibrary, IsWindow, IsExactWindow, OfQuota,
}
use droid_proxy.OAuth.Quota.Parsers.Parsed.{parsers-IsWindow}

abbrev used_up : ℕ → CodexQuotaWindow
used_up at = record {
  used_percent = units (pos 100);
  remaining_percent = none;
  window_minutes = none;
  reset_at = some (pos at);
  limit_reached = true;
}

abbrev two_windows : CodexQuota
two_windows = record {
  primary = some (used_up 60);
  secondary = some (used_up 50);
  code_review = none;
}

test_latest : exhausted_window_reset_at (some two_windows) ≡ some (unix 60)
unfolding exhausted_window_reset_at unix
test_latest = refl

abbrev minus : Float → Float → Float
minus (units (pos a)) (units (pos b)) = units (pos (a - b))
minus _ _ = nan

abbrev numbers : NumberLibrary
numbers = record {
  parse_float = λ s. if str_eq s "150" then some (units (pos (150 * 2 ^ 1074))) else none;
  parse_int = λ s. if str_eq s "60" then some (pos 60) else none;
  float_of = λ s. hundred;
  to_int64 = λ f. pos 60;
  minus = minus;
  unmarshal = λ s. none;
  raw_at = λ body path. none;
  value_at = λ body path.
      if str_eq path "primary"
      then some (object (field "used_percent" (number "100") no_fields))
      else none;
  bool_at = λ body path. str_eq path "limit_reached";
}

minus_monotone :
    (a b : Float)
    → is_percent a ≡ true
    → is_percent b ≡ true
    → leb_float a b ≡ true
    → leb_float (minus hundred b) (minus hundred a) ≡ true
minus_monotone (units (pos a)) (units (pos b)) h k e = ground arith
minus_monotone nan b h k e = absurd (cc h)
minus_monotone (units (negsuc a)) b h k e = absurd (cc h)
minus_monotone (units (pos a)) nan h k e = absurd (cc k)
minus_monotone (units (pos a)) (units (negsuc b)) h k e = absurd (cc k)

minus_hundred : minus hundred hundred ≡ units (pos 0)
unfolding hundred_units
minus_hundred = refl

numbers-IsNumberLibrary : IsNumberLibrary numbers
unfolding hundred_units
numbers-IsNumberLibrary = record {
  minus_hundred = minus_hundred;
  minus_zero = refl;
  minus_monotone = minus_monotone;
}

-- Too large a percentage is 100.
abbrev headers : Headers
headers = ("X-Codex-Primary-Used-Percent", " 150 ") ∷ ("X-Codex-Primary-Reset-At", "60") ∷ []

abbrev full : Bool → CodexQuota
full at = record {
  primary = some (record {
    used_percent = hundred;
    remaining_percent = some (units (pos 0));
    window_minutes = none;
    reset_at = if at then some (pos 60) else none;
    limit_reached = true;
  });
  secondary = none;
  code_review = none;
}

test_headers :
    parse_codex_rate_limit_headers numbers plain_go headers noon
    ≡ (some (full true), some (unix 60))
unfolding parse_codex_rate_limit_headers droid_proxy.OAuth.Quota.Parsers.parse_codex_window_header
    droid_proxy.Prelude.Texts.trim_space droid_proxy.Handlers.Cooldown.get_header
    droid_proxy.Prelude.Maps.lookup droid_proxy.OAuth.Quota.Parsers.is_finite
    droid_proxy.OAuth.Quota.Parsers.infinite_units
    droid_proxy.OAuth.Quota.Parsers.new_codex_quota_window
    droid_proxy.OAuth.Quota.Parsers.parse_optional_float
    droid_proxy.OAuth.Quota.Parsers.parse_optional_unix
    droid_proxy.OAuth.Quota.Parsers.first_codex_window droid_proxy.OAuth.Quota.latest_quota_reset
    droid_proxy.OAuth.Quota.Parsers.clamp hundred_units
test_headers = refl

test_body : parse_codex_usage_limit_from_body numbers "{}" ≡ some (full false)
unfolding parse_codex_usage_limit_from_body droid_proxy.Prelude.Texts.is_blank
    droid_proxy.Prelude.Texts.trim_space droid_proxy.OAuth.Quota.Parsers.first_rate_limits
    droid_proxy.OAuth.Quota.Parsers.parse_rate_limits_at
    droid_proxy.OAuth.Quota.Parsers.flagged_quota
    droid_proxy.OAuth.Quota.Parsers.parse_codex_window_object droid_proxy.Reasoning.Json.get
    droid_proxy.OAuth.Quota.Parsers.is_finite hundred_units
    droid_proxy.OAuth.Quota.Parsers.infinite_units
    droid_proxy.OAuth.Quota.Parsers.new_codex_quota_window droid_proxy.OAuth.Quota.Parsers.clamp
test_body = refl

parsers-IsWindow_example :
    OfQuota IsExactWindow (parse_codex_rate_limit_headers numbers plain_go headers noon).0
    × OfQuota IsExactWindow (parse_codex_rate_limits_event numbers "{}")
    × OfQuota IsWindow (parse_codex_usage_limit_from_body numbers "{}")
parsers-IsWindow_example =
    parsers-IsWindow numbers numbers-IsNumberLibrary plain_go headers noon "{}"

abbrev reported : Option CodexQuota
reported = (parse_codex_rate_limit_headers numbers plain_go headers noon).0

abbrev stored : Token
stored = record (token_of path_a "a@x") {
  codex_quota = parse_codex_usage_limit_from_body numbers "{}";
}

abbrev facts :
    OfQuota IsExactWindow (parse_codex_rate_limit_headers numbers plain_go headers noon).0
    × OfQuota IsExactWindow (parse_codex_rate_limits_event numbers "{}")
    × OfQuota IsWindow (parse_codex_usage_limit_from_body numbers "{}")
facts = parsers-IsWindow numbers numbers-IsNumberLibrary plain_go headers noon "{}"
