-- ===== src/OAuth/Quota/Usage.antt =====
-- The record of quota telemetry in a token file: RecordCodexUsage in internal/oauth/quota.go.
pub mod Recorded
use droid_proxy.Prelude.{Bool, not, ◌||◌, Option, none, some, String, str_eq, if◌then◌else◌}
use droid_proxy.Prelude.Numbers.{Time}
use droid_proxy.Prelude.GoLibrary.{GoLibrary}
use droid_proxy.Prelude.Texts.{is_blank}
use droid_proxy.OAuth.Quota.{CodexQuota, exhausted_window_reset_at, merge_codex_quota}
use droid_proxy.OAuth.Account.{Token, token_provider, provider_codex, or_else}

-- What is done: nothing, nothing but to return an error, or to save a token.
pub data Usage : Type 0 where
  ignored : Usage
  refused : Usage
  saved : Token → Usage

-- The quota of the token on disk, merged.
unfoldable pub merged : Token → Option CodexQuota → Option CodexQuota
merged latest none = latest.codex_quota
merged latest (some q) = merge_codex_quota latest.codex_quota (some q)

-- The reset to be stored: that of the exhausted windows, if there is new telemetry and they have one.
unfoldable pub stored_reset : Token → Option CodexQuota → Option Time → Option Time
stored_reset latest none reset = reset
stored_reset latest (some q) reset =
    or_else (exhausted_window_reset_at (merged latest (some q))) reset

abbrev pub reset_text : (Time → String) → String → Option Time → String
reset_text format old none = old
reset_text format old (some t) = format t

-- `format` is `t.UTC().Format(time.RFC3339)`.
unfoldable pub with_usage :
    (Time → String) → Token → String → Option CodexQuota → Option Time → Time → Token
with_usage format latest path q reset now = record latest {
  path = path;
  codex_quota = merged latest q;
  rate_limit_reset_at = reset_text format latest.rate_limit_reset_at (stored_reset latest q reset);
  last_seen_at = format now;
}

module _ (go : GoLibrary) where
  -- `tok.Provider() == ProviderCodex`.
  abbrev pub of_codex : Token → Bool
  of_codex tok = str_eq (token_provider go tok) provider_codex

  module _ (format : Time → String) where
    abbrev pub loaded_usage : Option Token → String → Option CodexQuota → Option Time → Time → Usage
    loaded_usage none path q reset now = refused
    loaded_usage (some latest) path q reset now =
        if of_codex latest then saved (with_usage format latest path q reset now) else refused

    -- RecordCodexUsage, of a token. `locked` is whether the token's lock is got, `loaded` the token
    -- that is read from its file then, if it is.
    unfoldable pub record_codex_usage :
        Token → Option CodexQuota → Option Time → Bool → Option Token → Time → Usage
    record_codex_usage token q reset locked loaded now =
        if not (of_codex token) || is_blank token.path
        then ignored
        else if locked
        then loaded_usage loaded token.path q reset now
        else refused
