-- ===== src/OAuth/Quota.antt =====
-- Codex quota windows: internal/oauth/types.go, quota.go and quota_select.go.
pub mod Windows
pub mod Parsers
pub mod Usage
mod Tests
use droid_proxy.Prelude.{ℕ, zero, suc, Bool, false, ◌||◌, Option, none, some, if◌then◌else◌}
use droid_proxy.Prelude.Numbers.{
  ℤ, pos, negsuc, ltb_ℤ, Float, units, ltb_float, Time, is_after, unix,
}

pub record CodexQuotaWindow : Type 0 where
  pub used_percent : Float
  pub remaining_percent : Option Float
  pub window_minutes : Option Float
  pub reset_at : Option ℤ
  pub limit_reached : Bool

pub record CodexQuota : Type 0 where
  pub primary : Option CodexQuotaWindow
  pub secondary : Option CodexQuotaWindow
  pub code_review : Option CodexQuotaWindow

-- `win.ResetAt == nil || *win.ResetAt <= 0` is the test that skips a window.
abbrev pub positive_reset : Option ℤ → Option ℕ
positive_reset none = none
positive_reset (some (pos zero)) = none
positive_reset (some (pos (suc n))) = some (suc n)
positive_reset (some (negsuc n)) = none

-- `if latest == nil || tm.After(*latest) { latest = &tm }`.
abbrev pub later : Option Time → Time → Option Time
later none t = some t
later (some l) t = if is_after t l then some t else some l

abbrev pub later_reset : Option Time → Option ℕ → Option Time
later_reset latest none = latest
later_reset latest (some n) = later latest (unix n)

-- One round of the loop in ExhaustedWindowResetAt.
abbrev pub later_exhausted : Option Time → Option CodexQuotaWindow → Option Time
later_exhausted latest none = latest
later_exhausted latest (some win) =
    if win.limit_reached then later_reset latest (positive_reset win.reset_at) else latest

unfoldable pub exhausted_window_reset_at : Option CodexQuota → Option Time
exhausted_window_reset_at none = none
exhausted_window_reset_at (some q) =
    later_exhausted (later_exhausted (later_exhausted none q.primary) q.secondary) q.code_review

-- One round of the loop in latestQuotaReset.
abbrev pub later_window : Option Time → Option CodexQuotaWindow → Option Time
later_window latest none = latest
later_window latest (some win) = later_reset latest (positive_reset win.reset_at)

unfoldable pub latest_quota_reset : Option CodexQuota → Option Time
latest_quota_reset none = none
latest_quota_reset (some q) =
    later_window (later_window (later_window none q.primary) q.secondary) q.code_review

abbrev pub is_exhausted : Option CodexQuotaWindow → Bool
is_exhausted none = false
is_exhausted (some win) = win.limit_reached

unfoldable pub has_exhausted_window : Option CodexQuota → Bool
has_exhausted_window none = false
has_exhausted_window (some q) =
    is_exhausted q.primary || is_exhausted q.secondary || is_exhausted q.code_review

abbrev pub newer : Option CodexQuotaWindow → Option CodexQuotaWindow → Option CodexQuotaWindow
newer old none = old
newer old (some win) = some win

unfoldable pub merge_codex_quota : Option CodexQuota → Option CodexQuota → Option CodexQuota
merge_codex_quota none next = next
merge_codex_quota (some old) none = some old
merge_codex_quota (some old) (some next) = some (record {
  primary = newer old.primary next.primary;
  secondary = newer old.secondary next.secondary;
  code_review = newer old.code_review next.code_review;
})

-- `if w.UsedPercent > max { max = w.UsedPercent }`. The maximum starts at 0 and only a true
-- comparison replaces it, so it is a number of units that is not negative.
abbrev pub raise : ℕ → Float → ℕ
raise max (units (pos n)) = if ltb_float (units (pos max)) (units (pos n)) then n else max
raise max _ = max

abbrev pub raise_by : ℕ → Option CodexQuotaWindow → ℕ
raise_by max none = max
raise_by max (some w) = raise max w.used_percent

unfoldable pub max_agent_used_percent : Option CodexQuota → ℕ
max_agent_used_percent none = 0
max_agent_used_percent (some q) = raise_by (raise_by 0 q.primary) q.secondary

abbrev earlier : Option ℤ → ℤ → Option ℤ
earlier none r = some r
earlier (some best) r = if ltb_ℤ r best then some r else some best

abbrev earlier_reset : ℤ → Option ℤ → Option ℤ → Option ℤ
earlier_reset now best none = best
earlier_reset now best (some r) = if ltb_ℤ now r then earlier best r else best

abbrev earlier_window : ℤ → Option ℤ → Option CodexQuotaWindow → Option ℤ
earlier_window now best none = best
earlier_window now best (some w) = earlier_reset now best w.reset_at

unfoldable pub next_agent_reset_at : Option CodexQuota → ℤ → Option ℤ
next_agent_reset_at none now = none
next_agent_reset_at (some q) now =
    earlier_window now (earlier_window now none q.primary) q.secondary
