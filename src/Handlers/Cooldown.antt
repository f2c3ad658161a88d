-- ===== src/Handlers/Cooldown.antt =====
-- How long a rate-limited account is left alone: codexRateLimitCooldown in
-- internal/handlers/oauth_responses.go, RetryAfterTime in internal/oauth/quota.go and
-- ParseCodexUsageLimitReset in internal/oauth/usage_limit.go.
pub mod Future
use droid_proxy.Prelude.{
  ℕ, zero, suc, ◌+◌, ◌-◌, ◌*◌, ◌%◌, ◌^◌, ◌≤◌, ◌<◌, ◌≡◌, refl, Bool, true, false, not, ◌&&◌, ◌||◌,
  Option, none, some, List, String, ltb, leb, ◌==◌, if◌then◌else◌, arith, str_eq, Bool-cases,
  Option-cases,
}
use droid_proxy.Prelude.Numbers.{ℤ, pos, negsuc, Time, is_after, unix}
use droid_proxy.Prelude.GoLibrary.{GoLibrary}
use droid_proxy.Prelude.Texts.{trim_space}
use droid_proxy.Prelude.Maps.{string_eq, lookup}
use droid_proxy.OAuth.Quota.{CodexQuota, exhausted_window_reset_at}

-- The headers of a response, by canonical name.
abbrev pub Headers : Type 0
Headers = List (String × String)

abbrev or_blank : Option String → String
or_blank none = ""
or_blank (some v) = v

-- `headers.Get(name)`.
unfoldable pub get_header : String → Headers → String
get_header name headers = or_blank (lookup name headers)

-- `now.Add(time.Duration(seconds) * time.Second)` of a positive `seconds`: the product wraps at
-- 64 bits and is signed. An instant before the zero time is 0.
unfoldable pub add_seconds : Time → ℕ → Time
add_seconds now seconds =
    let d = (seconds * 1_000_000_000) % 2 ^ 64 in
    if ltb d (2 ^ 63) then now + d else now - (2 ^ 64 - d)

abbrev after_seconds : Time → ℤ → Option Time
after_seconds now (pos zero) = none
after_seconds now (pos (suc n)) = some (add_seconds now (suc n))
after_seconds now (negsuc n) = none

-- A date, if it is after `now`.
abbrev pub if_future : Time → Option Time → Option Time
if_future now none = none
if_future now (some t) = if is_after t now then some t else none

-- What gjson reads from the body of an error: whether it is JSON at all, the text at a path, and the
-- number at a path, if a number stands there.
pub record Gjson : Type 0 where
  pub is_valid : String → Bool
  pub text_at : String → String → String
  pub int_at : String → String → Option ℤ

abbrev reset_at : Time → Option ℤ → Option Time
reset_at now (some (pos n)) = if_future now (some (unix n))
reset_at now _ = none

-- `seconds > 0 && seconds <= int64((365*24*time.Hour)/time.Second)`.
abbrev reset_in : Time → Option ℤ → Option Time
reset_in now (some (pos n)) = if ltb 0 n && leb n 31_536_000 then some (add_seconds now n) else none
reset_in now _ = none

abbrev first_time : Option Time → Option Time → Option Time
first_time (some t) o = some t
first_time none o = o

-- ParseCodexUsageLimitReset.
unfoldable pub parse_codex_usage_limit_reset : Gjson → String → Time → Option Time
parse_codex_usage_limit_reset json body now =
    if not (json.is_valid body)
      || not (str_eq (json.text_at body "error.type") "usage_limit_reached")
    then none
    else first_time (reset_at now (json.int_at body "error.resets_at"))
        (reset_in now (json.int_at body "error.resets_in_seconds"))

module _ (go : GoLibrary) where
  -- RetryAfterTime.
  unfoldable pub retry_after_time : Headers → Time → Option Time
  retry_after_time headers now =
      let raw = trim_space (get_header "Retry-After" headers) in
      if str_eq raw "" then none else elim (go.atoi raw) [
        | some seconds ↦ after_seconds now seconds
        | none ↦ if_future now (go.parse_http_time raw)
      ]

  -- codexRateLimitCooldown.
  unfoldable pub codex_rate_limit_cooldown : Headers → Option CodexQuota → ℕ → Time → Time
  codex_rate_limit_cooldown headers quota fallback now = elim (retry_after_time headers now) [
    | some at ↦ at
    | none ↦ elim (if_future now (exhausted_window_reset_at quota)) [
      | some reset ↦ reset
      | none ↦ now + fallback
    ]
  ]
