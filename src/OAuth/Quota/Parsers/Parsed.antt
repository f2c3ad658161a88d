-- ===== src/OAuth/Quota/Parsers/Parsed.antt =====
-- The quotas that are parsed from headers, events and error bodies: internal/oauth/quota.go and
-- usage_limit.go.
use droid_proxy.Prelude.{Option, none, some, List, [], ◌∷◌, String, if_branches}
use droid_proxy.Prelude.Numbers.{Time}
use droid_proxy.Prelude.GoLibrary.{GoLibrary}
use droid_proxy.Prelude.Texts.{is_blank}
use droid_proxy.Reasoning.Json.{Fields, get, fields_of}
use droid_proxy.OAuth.Quota.{CodexQuotaWindow, CodexQuota}
use droid_proxy.Handlers.Cooldown.{Headers}
use droid_proxy.OAuth.Quota.Parsers.{
  NumberLibrary, quota_of, or_quota, flagged, parse_codex_window_header, first_codex_window,
  parse_codex_window_object, window_in, review_in, with_reset, is_other_event, unmarshalled,
  is_flagged, fallback_limits, usage_paths, quota_of_headers, parse_codex_rate_limit_headers,
  quota_of_event, parse_codex_rate_limits_event, parse_codex_rate_limits_from_map, quota_of_map,
  parse_rate_limits_at, first_rate_limits, flagged_quota, fallback_quota,
  parse_codex_usage_limit_from_body,
}
use droid_proxy.OAuth.Quota.Parsers.Percent.{
  IsExactWindow, IsExactWindow-OfQuota, OfWindow, IsNumberLibrary, IsWindow, OfQuota,
  flagged-IsWindow, mark_all-IsExactWindow, or_quota-Of, quota_of-Of,
}
use droid_proxy.OAuth.Quota.Parsers.Windows.{
  first_codex_window-IsExactWindow, parse_codex_window_header-IsExactWindow,
  parse_codex_window_object-IsExactWindow, windows_of-IsExactWindow,
}

module _ (lib : NumberLibrary) (laws : IsNumberLibrary lib) where
  quota_of_headers-IsExactWindow : (h : Headers) → OfQuota IsExactWindow (quota_of_headers lib h)
  quota_of_headers-IsExactWindow h =
      let p = parse_codex_window_header lib h in
      let reviews = "X-Codex-Code-Review" ∷ "X-Codex-Review" ∷ "X-Code-Review" ∷ [] in
      quota_of-Of IsExactWindow (p "X-Codex-Primary") (p "X-Codex-Secondary")
        (first_codex_window lib h reviews)
        (parse_codex_window_header-IsExactWindow lib laws h "X-Codex-Primary")
        (parse_codex_window_header-IsExactWindow lib laws h "X-Codex-Secondary")
        (first_codex_window-IsExactWindow lib laws h reviews)

  with_reset-quota :
      (go : GoLibrary) (h : Headers) (now : Time) (o : Option CodexQuota)
      → OfQuota IsExactWindow o
      → OfQuota IsExactWindow (with_reset lib go h now o).0
  with_reset-quota go h now none k = k
  with_reset-quota go h now (some q) k = k

  quota_of_event-IsExactWindow : (o : Option Fields) → OfQuota IsExactWindow (quota_of_event lib o)
  quota_of_event-IsExactWindow none = tt
  quota_of_event-IsExactWindow (some m) =
      let limits = fields_of (get "rate_limits" m) in
      let reviews = fields_of (get "code_review_rate_limits" m) in
      if_branches (OfQuota IsExactWindow) (is_other_event lib m) none
        (quota_of (window_in lib "primary" limits) (window_in lib "secondary" limits)
          (review_in lib reviews))
        (λ e. tt) (λ e. windows_of-IsExactWindow lib laws limits reviews)

  quota_of_map-IsExactWindow : (o : Option Fields) → OfQuota IsExactWindow (quota_of_map lib o)
  unfolding parse_codex_rate_limits_from_map
  quota_of_map-IsExactWindow none = tt
  quota_of_map-IsExactWindow (some m) =
      let review = fields_of (get "code_review" m) in
      mark_all-IsExactWindow
        (quota_of (window_in lib "primary" (some m)) (window_in lib "secondary" (some m))
          (review_in lib review))
        (windows_of-IsExactWindow lib laws (some m) review)

  parse_rate_limits_at-IsWindow :
      (body path : String) → OfQuota IsWindow (parse_rate_limits_at lib body path)
  unfolding parse_rate_limits_at
  parse_rate_limits_at-IsWindow body path =
      IsExactWindow-OfQuota (parse_rate_limits_at lib body path)
        (quota_of_map-IsExactWindow (unmarshalled lib (lib.raw_at body path)))

  first_rate_limits-IsWindow :
      (body : String) (paths : List String) → OfQuota IsWindow (first_rate_limits lib body paths)
  unfolding first_rate_limits
  first_rate_limits-IsWindow body [] = tt
  first_rate_limits-IsWindow body (path ∷ paths) =
      or_quota-Of IsWindow (parse_rate_limits_at lib body path) (first_rate_limits lib body paths)
        (parse_rate_limits_at-IsWindow body path) (first_rate_limits-IsWindow body paths)

  abbrev flagged_at : String → String → Option CodexQuotaWindow
  flagged_at body key = flagged (parse_codex_window_object lib (lib.value_at body key))

  flagged_at-IsWindow : (body key : String) → OfWindow IsWindow (flagged_at body key)
  flagged_at-IsWindow body key =
      let o = lib.value_at body key in
      flagged-IsWindow (parse_codex_window_object lib o)
        (parse_codex_window_object-IsExactWindow lib laws o)

  flagged_quota-IsWindow : (body : String) → OfQuota IsWindow (flagged_quota lib body)
  unfolding flagged_quota
  flagged_quota-IsWindow body =
      let limits = parse_rate_limits_at lib body "rate_limits" in
      let primary = flagged_at body "primary" in
      let secondary = flagged_at body "secondary" in
      let windows = quota_of primary secondary none in
      if_branches (OfQuota IsWindow) (is_flagged lib body) (or_quota limits windows) none
        (λ e.
          or_quota-Of IsWindow limits windows (parse_rate_limits_at-IsWindow body "rate_limits") (
            quota_of-Of IsWindow primary secondary none (flagged_at-IsWindow body "primary")
              (flagged_at-IsWindow body "secondary") tt))
        (λ e. tt)

  fallback_quota-IsWindow : (o : Option Fields) → OfQuota IsWindow (fallback_quota lib o)
  unfolding fallback_quota
  fallback_quota-IsWindow none = tt
  fallback_quota-IsWindow (some m) =
      IsExactWindow-OfQuota (fallback_quota lib (some m))
        (quota_of_map-IsExactWindow (fallback_limits lib m))

  body_quota-IsWindow :
      (body : String) → OfQuota IsWindow (parse_codex_usage_limit_from_body lib body)
  unfolding parse_codex_usage_limit_from_body
  body_quota-IsWindow body =
      let limits = first_rate_limits lib body usage_paths in
      let rest = or_quota (flagged_quota lib body) (fallback_quota lib (lib.unmarshal body)) in
      if_branches (OfQuota IsWindow) (is_blank body) none (or_quota limits rest) (λ e. tt)
        (λ e. or_quota-Of IsWindow limits rest (first_rate_limits-IsWindow body usage_paths) (
          or_quota-Of IsWindow (flagged_quota lib body) (fallback_quota lib (lib.unmarshal body))
            (flagged_quota-IsWindow body) (fallback_quota-IsWindow (lib.unmarshal body))))

  -- Whatever headers, events and error bodies an upstream sends, a quota that is read from them has a
  -- window, and the used and the remaining percent of each window lie between 0 and 100. A window of
  -- headers or of an event says that its limit is reached exactly if all of it is used; one of an
  -- error body says so at least then. Subtraction from 100 is taken to be exact at 0 and 100 and
  -- monotone.
  pub parsers-IsWindow :
      (go : GoLibrary) (h : Headers) (now : Time) (body : String)
      → OfQuota IsExactWindow (parse_codex_rate_limit_headers lib go h now).0
        × OfQuota IsExactWindow (parse_codex_rate_limits_event lib body)
        × OfQuota IsWindow (parse_codex_usage_limit_from_body lib body)
  unfolding parse_codex_rate_limit_headers parse_codex_rate_limits_event
  parsers-IsWindow go h now body = (
    with_reset-quota go h now (quota_of_headers lib h) (quota_of_headers-IsExactWindow h),
    quota_of_event-IsExactWindow (lib.unmarshal body),
    body_quota-IsWindow body,
  )
