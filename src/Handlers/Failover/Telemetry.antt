-- ===== src/Handlers/Failover/Telemetry.antt =====
-- The quota telemetry of a stream: forwardOAuthResponsesStream in
-- internal/handlers/oauth_responses.go against RecordCodexUsage in internal/oauth/quota.go.
use droid_proxy.Prelude.{◌≡◌, refl, sym, subst, ap, ◌∙◌, Option, none, some, List, [], ◌∷◌, String}
use droid_proxy.Prelude.Numbers.{Time}
use droid_proxy.OAuth.Account.{Token}
use droid_proxy.OAuth.Quota.{CodexQuota, exhausted_window_reset_at, merge_codex_quota}
use droid_proxy.OAuth.Quota.Windows.{merge_codex_quota_assoc}
use droid_proxy.OAuth.Quota.Usage.{with_usage, merged, stored_reset}
use droid_proxy.Handlers.Exchange.{coalesce}

-- The token on disk after RecordCodexUsage for each event, as the handler calls it at the end of a
-- stream: with no reset of the caller.
abbrev pub record_each : (Time → String) → Time → Token → CodexQuota → List CodexQuota → Token
record_each format now latest q [] = with_usage format latest latest.path (some q) none now
record_each format now latest q (r ∷ rs) =
    record_each format now (with_usage format latest latest.path (some q) none now) r rs

-- Two tokens that differ in RateLimitResetAt at most, and not in it if the windows are exhausted.
pub record IsSameUsage (each once : Token) : Type 0 where
  quota : each.codex_quota ≡ once.codex_quota
  reset :
      (r : Time)
      → exhausted_window_reset_at once.codex_quota ≡ some r
      → each.rate_limit_reset_at ≡ once.rate_limit_reset_at
  rest : record each { rate_limit_reset_at = once.rate_limit_reset_at } ≡ once

-- To coalesce onto merged telemetry is to merge what is coalesced.
coalesce-merge :
    (a b : Option CodexQuota) (qs : List CodexQuota)
    → coalesce (merge_codex_quota a b) qs ≡ merge_codex_quota a (coalesce b qs)
unfolding coalesce
coalesce-merge a b [] = refl
coalesce-merge a b (q ∷ qs) =
    ap (λ o. coalesce o qs) (merge_codex_quota_assoc a b (some q))
    ∙ coalesce-merge a (merge_codex_quota b (some q)) qs

coalesce-some :
    (q : CodexQuota) (qs : List CodexQuota) → (r : CodexQuota) × (coalesce (some q) qs ≡ some r)
unfolding coalesce merge_codex_quota
coalesce-some q [] = (q, refl)
coalesce-some q (r ∷ rs) = coalesce-some _ rs

merge_some : (q a : CodexQuota) → (b : CodexQuota) × (merge_codex_quota (some q) (some a) ≡ some b)
unfolding merge_codex_quota
merge_some q a = (_, refl)

module _ (format : Time → String) (now : Time) where
  -- One call for the telemetry `o`.
  abbrev once : Token → Option CodexQuota → Token
  once latest o = with_usage format latest latest.path o none now

  once-reset :
      (latest : Token) (q : CodexQuota) (r : Time)
      → exhausted_window_reset_at (once latest (some q)).codex_quota ≡ some r
      → (once latest (some q)).rate_limit_reset_at ≡ format r
  unfolding with_usage stored_reset
  once-reset latest q r e = rw e refl

  -- Two calls against one with what they merge to.
  twice-IsSameUsage :
      (latest : Token) (q a b : CodexQuota)
      → merge_codex_quota (some q) (some a) ≡ some b
      → IsSameUsage (once (once latest (some q)) (some a)) (once latest (some b))
  unfolding with_usage merged
  twice-IsSameUsage latest q a b e =
      let same : (once (once latest (some q)) (some a)).codex_quota
          ≡ (once latest (some b)).codex_quota =
        merge_codex_quota_assoc latest.codex_quota (some q) (some a)
        ∙ ap (merge_codex_quota latest.codex_quota) e in
      record {
        quota = same;
        reset = λ r h.
            once-reset (once latest (some q)) a r (ap exhausted_window_reset_at same ∙ h)
            ∙ sym (once-reset latest b r h);
        rest = ap (λ o. record (once latest (some b)) { codex_quota = o }) same;
      }

  IsSameUsage-trans : (a b c : Token) → IsSameUsage a b → IsSameUsage b c → IsSameUsage a c
  IsSameUsage-trans a b c h k = record {
    quota = h.quota ∙ k.quota;
    reset = λ r e. h.reset r (ap exhausted_window_reset_at k.quota ∙ e) ∙ k.reset r e;
    rest =
        ap (λ (t : Token). record t { rate_limit_reset_at = c.rate_limit_reset_at }) h.rest
        ∙ k.rest;
  }

  IsSameUsage-refl : (t : Token) → IsSameUsage t t
  IsSameUsage-refl t = record { quota = refl; reset = λ r e. refl; rest = refl }

  -- The quota that is merged event by event while a stream is forwarded, and recorded by one call of
  -- RecordCodexUsage at its end, leaves in the token what one call for each event in order and at
  -- the same time would have left there, RateLimitResetAt excepted; and that too, if the windows
  -- that are left have an exhausted one with a reset.
  pub record_each-coalesce :
      (latest : Token) (q : CodexQuota) (qs : List CodexQuota)
      → IsSameUsage
          (record_each format now latest q qs)
          (with_usage format latest latest.path (coalesce none (q ∷ qs)) none now)
  unfolding coalesce merge_codex_quota
  record_each-coalesce latest q [] = IsSameUsage-refl (once latest (some q))
  record_each-coalesce latest q (r ∷ rs) =
      let middle = once latest (some q) in
      let each = record_each format now middle r rs in
      let (b, e) = coalesce-some r rs in
      let (d, f) = merge_some q b in
      let g : coalesce (merge_codex_quota (some q) (some r)) rs ≡ some d =
        coalesce-merge (some q) (some r) rs ∙ ap (merge_codex_quota (some q)) e ∙ f in
      subst (λ (o : Option CodexQuota). IsSameUsage each (once latest o)) (sym g)
        (IsSameUsage-trans each (once middle (some b)) (once latest (some d))
          (subst (λ (o : Option CodexQuota). IsSameUsage each (once middle o)) e
            (record_each-coalesce middle r rs))
          (twice-IsSameUsage latest q b d f))
