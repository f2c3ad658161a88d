-- ===== src/Handlers/Cooldown/Future.antt =====
-- The instants at which cooldowns end: internal/handlers/oauth_responses.go and internal/oauth.
use droid_proxy.Prelude.{
  ℕ, zero, suc, ◌+◌, ◌*◌, ◌≤◌, ◌<◌, ◌≡◌, subst, not, ◌||◌, inl, inr, Option, none, some, String,
  arith, str_eq, Bool-cases, Option-cases,
}
use droid_proxy.Prelude.Numbers.{ℤ, pos, negsuc, Time, unix}
use droid_proxy.Prelude.GoLibrary.{GoLibrary}
use droid_proxy.Prelude.Texts.{trim_space}
use droid_proxy.OAuth.Quota.{CodexQuota, exhausted_window_reset_at}
use droid_proxy.Handlers.Cooldown.{
  Headers, get_header, Gjson, add_seconds, if_future, parse_codex_usage_limit_reset,
  retry_after_time, codex_rate_limit_cooldown, after_seconds, reset_at, reset_in, first_time,
}

-- Below 2^63 nanoseconds nothing wraps.
add_seconds_small : (now n : ℕ) → n ≤ 9_223_372_036 → add_seconds now n ≡ now + n * 1_000_000_000
unfolding add_seconds
add_seconds_small now n h = ground arith

if_future_lem : (now : Time) (o : Option Time) (t : Time) → if_future now o ≡ some t → now < t
if_future_lem now none t e = cc
if_future_lem now (some u) t e = ground arith

reset_at_future : (now : Time) (o : Option ℤ) (t : Time) → reset_at now o ≡ some t → now < t
reset_at_future now (some (pos n)) t e = if_future_lem now (some (unix n)) t e
reset_at_future now (some (negsuc n)) t e = cc
reset_at_future now none t e = cc

reset_in_future : (now : Time) (o : Option ℤ) (t : Time) → reset_in now o ≡ some t → now < t
reset_in_future now (some (pos n)) t e = ground (arith, add_seconds_small now n)
reset_in_future now (some (negsuc n)) t e = cc
reset_in_future now none t e = cc

first_time_future :
    (now : Time) (a b : Option Time) (t : Time)
    → (a ≡ some t → now < t)
    → (b ≡ some t → now < t)
    → first_time a b ≡ some t
    → now < t
first_time_future now none b t f g e = g e
first_time_future now (some u) b t f g e = f e

-- The reset that is read from the body of a usage-limit error lies in the future, whatever numbers
-- the body holds.
parse_codex_usage_limit_reset_future :
    (json : Gjson) (body : String) (now t : Time)
    → parse_codex_usage_limit_reset json body now ≡ some t
    → now < t
unfolding parse_codex_usage_limit_reset
parse_codex_usage_limit_reset_future json body now t e =
    let at = json.int_at body "error.resets_at" in
    let in_seconds = json.int_at body "error.resets_in_seconds" in
    elim (Bool-cases (
      not (json.is_valid body)
      || not (str_eq (json.text_at body "error.type") "usage_limit_reached"))) [
        | inl c ↦ absurd (ground arith)
        | inr c ↦
            first_time_future now (reset_at now at) (reset_in now in_seconds) t
              (reset_at_future now at t) (reset_in_future now in_seconds t) (ground arith)
      ]

abbrev pub some_seconds : Option ℤ → ℕ
some_seconds (some (pos n)) = n
some_seconds _ = 0

after_seconds_future :
    (now : Time) (seconds : ℤ) (t : Time)
    → some_seconds (some seconds) ≤ 9_223_372_036
    → after_seconds now seconds ≡ some t
    → now < t
after_seconds_future now (pos zero) t h e = cc
after_seconds_future now (pos (suc n)) t h e = ground (arith, add_seconds_small now (suc n))
after_seconds_future now (negsuc n) t h e = cc

-- A delay wraps: of 9223372037 seconds or a few more the instant is in the past.
add_seconds_wraps : (now : ℕ) → add_seconds now 9_223_372_037 ≤ now
unfolding add_seconds
add_seconds_wraps now = ground arith

module _ (go : GoLibrary) where
  -- The time that RetryAfterTime reads from the header lies in the future, if a number of seconds
  -- in the header is at most 9223372036: beyond that its nanoseconds leave int64.
  retry_after_time_future :
      (headers : Headers) (now t : Time)
      → some_seconds (go.atoi (trim_space (get_header "Retry-After" headers))) ≤ 9_223_372_036
      → retry_after_time go headers now ≡ some t
      → now < t
  unfolding retry_after_time
  retry_after_time_future headers now t h e =
      let raw = trim_space (get_header "Retry-After" headers) in
      elim (Bool-cases (str_eq raw "")) [
        | inl c ↦ absurd (ground arith)
        | inr c ↦ elim (Option-cases (go.atoi raw)) [
          | inl n ↦ if_future_lem now (go.parse_http_time raw) t (ground arith)
          | inr (seconds, n) ↦
              after_seconds_future now seconds t (subst (λ o. some_seconds o ≤ 9_223_372_036) n h)
                (ground arith)
        ]
      ]

  -- A rate-limited account is left alone until an instant in the future, whichever of the header,
  -- the exhausted windows and the configured fallback sets it, if the fallback is positive and a
  -- number of seconds in the Retry-After header is at most 9223372036.
  pub codex_rate_limit_cooldown_future :
      (headers : Headers) (quota : Option CodexQuota) (fallback : ℕ) (now : Time)
      → 0 < fallback
      → some_seconds (go.atoi (trim_space (get_header "Retry-After" headers))) ≤ 9_223_372_036
      → now < codex_rate_limit_cooldown go headers quota fallback now
  unfolding codex_rate_limit_cooldown
  codex_rate_limit_cooldown_future headers quota fallback now f h =
      elim (Option-cases (retry_after_time go headers now)) [
        | inr (t, e) ↦ ground (arith, retry_after_time_future headers now t h e)
        | inl n ↦ elim (Option-cases (if_future now (exhausted_window_reset_at quota))) [
          | inr (t, e) ↦ ground (arith, if_future_lem now (exhausted_window_reset_at quota) t e)
          | inl m ↦ ground arith
        ]
      ]
