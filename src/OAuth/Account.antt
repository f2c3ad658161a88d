-- ===== src/OAuth/Account.antt =====
-- Tokens and pool entries: internal/oauth/types.go and the entry functions of pool.go.
pub mod Runtime
use droid_proxy.Prelude.{
  ℕ, ◌<◌, ◌≡◌, Bool, true, false, not, ◌&&◌, ◌||◌, Option, none, some, List, [], ◌∷◌, ◌++◌, String,
  if◌then◌else◌, str_eq, ◌==◌,
}
use droid_proxy.Prelude.Numbers.{ℤ, Time, is_after, is_before}
use droid_proxy.Prelude.GoLibrary.{GoLibrary, to_lower}
use droid_proxy.Prelude.Texts.{trim_space, is_blank, base, ext, trim_suffix, equal_fold, str_ltb}
use droid_proxy.OAuth.Quota.{CodexQuota, exhausted_window_reset_at, has_exhausted_window}

-- Token. Its `Type` is `kind` here, and a nil quota is none.
pub record Token : Type 0 where
  pub kind : String
  pub access_token : String
  pub refresh_token : String
  pub id_token : String
  pub token_type : String
  pub expires_in : ℤ
  pub expired : String
  pub last_refresh : String
  pub email : String
  pub subject : String
  pub account_id : String
  pub base_url : String
  pub redirect_uri : String
  pub token_endpoint : String
  pub auth_kind : String
  pub disabled : Bool
  pub codex_quota : Option CodexQuota
  pub rate_limit_reset_at : String
  pub last_seen_at : String
  pub path : String

pub record AccountEntry : Type 0 where
  pub path : String
  pub selector : String
  pub provider : String
  pub disabled : Bool
  pub token_file_present : Bool
  pub healthy : Bool
  pub unhealthy_until : Time
  pub cooldown_until : Time
  pub rate_limited_until : Time
  pub last_used : Time
  pub in_flight : ℕ
  pub quota : Option CodexQuota
  pub rate_limit_reset_at : Option Time
  pub has_refresh_token : Bool
  pub token_expired : Bool
  pub refreshable : Bool
  pub email : String
  pub subject : String
  pub account_id : String

abbrev pub provider_codex : String
provider_codex = "codex"

abbrev pub or_else : Option Time → Option Time → Option Time
or_else none o = o
or_else (some t) o = some t

-- The first of the values that is not blank, trimmed.
abbrev first_label : List String → String → String
first_label [] default = default
first_label (v ∷ vs) default = if is_blank v then first_label vs default else trim_space v

unfoldable pub safe_selector_label : Token → String
safe_selector_label tok =
    first_label (tok.email ∷ tok.subject ∷ tok.account_id ∷ [])
      (if is_blank tok.path then "unknown" else trim_suffix (base tok.path) (ext tok.path))

unfoldable pub persisted_rate_limit_until : AccountEntry → Option Time
persisted_rate_limit_until entry = elim (exhausted_window_reset_at entry.quota) [
  | some reset ↦ some reset
  | none ↦ if has_exhausted_window entry.quota then entry.rate_limit_reset_at else none
]

abbrev limit_if_after : AccountEntry → Time → Option Time → AccountEntry
limit_if_after entry now none = entry
limit_if_after entry now (some reset) =
    if is_after reset now then record entry { rate_limited_until = reset } else entry

unfoldable pub apply_persisted_rate_limit : AccountEntry → Time → AccountEntry
apply_persisted_rate_limit entry now = limit_if_after entry now (persisted_rate_limit_until entry)

abbrev shorten : AccountEntry → Option Time → AccountEntry
shorten entry none = entry
shorten entry (some reset) =
    if is_before reset entry.rate_limited_until
    then record entry { rate_limited_until = reset }
    else entry

unfoldable pub update_rate_limit : Time → AccountEntry → AccountEntry
update_rate_limit now entry =
    if entry.rate_limited_until == 0 || not (is_after entry.rate_limited_until now)
    then apply_persisted_rate_limit (record entry { rate_limited_until = 0 }) now
    else shorten entry (persisted_rate_limit_until entry)

module _ (go : GoLibrary) where
  unfoldable pub token_provider : Token → String
  token_provider tok = to_lower go.lower (trim_space tok.kind)

  -- The layouts are tried in turn.
  abbrev parse_time : String → Option Time
  parse_time raw =
      if str_eq raw "" then none else or_else (go.parse_rfc3339_nano raw) (go.parse_rfc3339 raw)

  unfoldable pub expiry : Token → Option Time
  expiry tok = parse_time (trim_space tok.expired)

  unfoldable pub parse_rate_limit_reset_at : String → Option Time
  parse_rate_limit_reset_at raw = parse_time (trim_space raw)

  -- `hasExpiry && !exp.IsZero() && !exp.After(now)`.
  abbrev pub is_expired : Option Time → Time → Bool
  is_expired none now = false
  is_expired (some exp) now = not (exp == 0) && not (is_after exp now)

  unfoldable pub entry_from_token : Time → Token → AccountEntry
  entry_from_token now tok =
      let has_refresh = not (is_blank tok.refresh_token) in
      let is_old = is_expired (expiry tok) now in
      apply_persisted_rate_limit
        (record {
          path = tok.path;
          selector = safe_selector_label tok;
          provider = token_provider tok;
          disabled = tok.disabled;
          token_file_present = true;
          healthy = true;
          unhealthy_until = 0;
          cooldown_until = 0;
          rate_limited_until = 0;
          last_used = 0;
          in_flight = 0;
          quota = tok.codex_quota;
          rate_limit_reset_at = parse_rate_limit_reset_at tok.rate_limit_reset_at;
          has_refresh_token = has_refresh;
          token_expired = is_old;
          refreshable = is_old && has_refresh;
          email = tok.email;
          subject = tok.subject;
          account_id = tok.account_id;
        })
        now

  -- The identity and metadata of the token, over the runtime state of the entry.
  unfoldable pub refresh_metadata : Time → AccountEntry → Token → AccountEntry
  refresh_metadata now entry tok =
      let has_refresh = not (is_blank tok.refresh_token) in
      let is_old = is_expired (expiry tok) now in
      record entry {
        selector = safe_selector_label tok;
        provider = token_provider tok;
        disabled = tok.disabled;
        token_file_present = true;
        quota = tok.codex_quota;
        rate_limit_reset_at = parse_rate_limit_reset_at tok.rate_limit_reset_at;
        has_refresh_token = has_refresh;
        token_expired = is_old;
        refreshable = is_old && has_refresh;
        email = tok.email;
        subject = tok.subject;
        account_id = tok.account_id;
      }

  unfoldable pub update_entry : Time → AccountEntry → Token → AccountEntry
  update_entry now entry tok = update_rate_limit now (refresh_metadata now entry tok)

  abbrev matches_any : String → List String → Bool
  matches_any account [] = false
  matches_any account (v ∷ vs) =
      if equal_fold go.fold (trim_space v) account then true else matches_any account vs

  unfoldable pub matches_account : AccountEntry → String → Bool
  matches_account e account =
      let wanted = trim_space account in
      if str_eq wanted ""
      then true
      else matches_any wanted (
          e.email
          ∷ e.subject
          ∷ e.account_id
          ∷ trim_suffix (base e.path) (ext e.path)
          ∷ base e.path
          ∷ [])

-- The reasons of accountIneligibleReasons, in the order in which it appends them. The source's
-- "missing" stands for a nil entry, which a map never holds.
pub data Reason : Type 0 where
  wrong_provider removed disabled excluded cooldown rate_limited unhealthy : Reason
  expired_no_refresh : Reason

abbrev when : Bool → Reason → List Reason → List Reason
when true r rest = r ∷ rest
when false r rest = rest

-- `exclude[path]`: the paths that an `exclude` map of the source holds as true.
unfoldable pub is_excluded : List String → String → Bool
is_excluded [] path = false
is_excluded (x ∷ xs) path = if str_eq x path then true else is_excluded xs path

unfoldable pub account_ineligible_reasons : AccountEntry → List String → Time → List Reason
account_ineligible_reasons entry exclude now =
    when (not (str_eq entry.provider provider_codex)) wrong_provider (
      when (not entry.token_file_present) removed (
        when entry.disabled disabled (
          when (is_excluded exclude entry.path) excluded (
            when (is_after entry.cooldown_until now) cooldown (
              when (is_after entry.rate_limited_until now) rate_limited (
                when (not entry.healthy && is_after entry.unhealthy_until now) unhealthy
                  (when (entry.token_expired && not entry.refreshable) expired_no_refresh [])))))))

abbrev pub is_empty : List Reason → Bool
is_empty [] = true
is_empty (r ∷ rs) = false

unfoldable pub is_eligible : AccountEntry → List String → Time → Bool
is_eligible entry exclude now = is_empty (account_ineligible_reasons entry exclude now)

-- By selector label, then by path.
unfoldable pub by_label : AccountEntry → AccountEntry → Bool
by_label a b =
    if not (str_eq a.selector b.selector)
    then str_ltb a.selector b.selector
    else str_ltb a.path b.path
