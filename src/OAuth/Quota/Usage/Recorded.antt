-- ===== src/OAuth/Quota/Usage/Recorded.antt =====
-- What is in a token file after telemetry is recorded: RecordCodexUsage in internal/oauth/quota.go.
use droid_proxy.Prelude.{◌≡◌, ◌⊎◌, Bool, true, false, Option, none, some, String}
use droid_proxy.Prelude.Numbers.{Time}
use droid_proxy.Prelude.GoLibrary.{GoLibrary}
use droid_proxy.Prelude.Texts.{is_blank}
use droid_proxy.OAuth.Quota.{CodexQuota, exhausted_window_reset_at}
use droid_proxy.OAuth.Account.{Token}
use droid_proxy.OAuth.Quota.Parsers.Percent.{IsWindow, OfQuota}
use droid_proxy.OAuth.Quota.Usage.{Usage, ignored, refused, saved, of_codex}

module _ (go : GoLibrary) (format : Time → String) where
  -- The token that is saved in place of the one that was read.
  pub record IsSaved (tok latest : Token) (q : Option CodexQuota) (reset : Option Time) (now : Time)
      (t : Token) : Type 0 where
    at_path : t.path ≡ tok.path
    windows : OfQuota IsWindow t.codex_quota
    -- an exhausted window decides over the reset that the caller gives
    by_windows :
        (r : Time)
        → ¬ (q ≡ none)
        → exhausted_window_reset_at t.codex_quota ≡ some r
        → t.rate_limit_reset_at ≡ format r
    given :
        (r : Time)
        → (q ≡ none) ⊎ (exhausted_window_reset_at t.codex_quota ≡ none)
        → reset ≡ some r
        → t.rate_limit_reset_at ≡ format r
    kept_reset :
        (q ≡ none) ⊎ (exhausted_window_reset_at t.codex_quota ≡ none)
        → reset ≡ none
        → t.rate_limit_reset_at ≡ latest.rate_limit_reset_at
    seen : t.last_seen_at ≡ format now
    -- all else is what was read
    rest :
        record t {
          path = latest.path;
          codex_quota = latest.codex_quota;
          rate_limit_reset_at = latest.rate_limit_reset_at;
          last_seen_at = latest.last_seen_at;
        }
        ≡ latest

  abbrev pub IsRecorded :
      Token → Option CodexQuota → Option Time → Bool → Option Token → Time → Usage → Type 0
  IsRecorded tok q reset locked loaded now ignored =
      (of_codex go tok ≡ false) ⊎ (is_blank tok.path ≡ true)
  IsRecorded tok q reset locked loaded now refused =
      (latest : Token) → loaded ≡ some latest → locked ≡ true → of_codex go latest ≡ false
  IsRecorded tok q reset locked loaded now (saved t) =
      (locked ≡ true)
      × (of_codex go tok ≡ true)
      × (is_blank tok.path ≡ false)
      × ((latest : Token) × (loaded ≡ some latest)
          × (of_codex go latest ≡ true)
          × IsSaved tok latest q reset now t)
