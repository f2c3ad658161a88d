-- ===== src/OAuth/Quota/Parsers/Percent.antt =====
-- Percents and the windows that hold them: newCodexQuotaWindow in internal/oauth/quota.go.
use droid_proxy.Prelude.{◌≡◌, refl, Bool, true, ◌&&◌, Option, none, some, arith}
use droid_proxy.Prelude.Numbers.{pos, negsuc, Float, nan, units}
use droid_proxy.OAuth.Quota.{CodexQuotaWindow, CodexQuota}
use droid_proxy.OAuth.Quota.Parsers.{
  NumberLibrary, hundred, leb_float, is_finite, clamp, or_window, quota_of, or_quota, mark_reached,
  mark_all, flagged,
}

abbrev pub zero_float : Float
zero_float = units (pos 0)

abbrev pub is_percent : Float → Bool
is_percent f = leb_float zero_float f && leb_float f hundred

-- Subtraction of percents from 100: it is exact at the ends and rounds monotonically between them.
pub record IsNumberLibrary (lib : NumberLibrary) : Type 0 where
  pub minus_hundred : lib.minus hundred hundred ≡ units (pos 0)
  pub minus_zero : lib.minus hundred (units (pos 0)) ≡ hundred
  pub minus_monotone :
      (a b : Float)
      → is_percent a ≡ true
      → is_percent b ≡ true
      → leb_float a b ≡ true
      → leb_float (lib.minus hundred b) (lib.minus hundred a) ≡ true

-- Percents, and a window that is used up says that its limit is reached.
pub record IsWindow (w : CodexQuotaWindow) : Type 0 where
  pub used : is_percent w.used_percent ≡ true
  pub remaining : (r : Float) × (w.remaining_percent ≡ some r) × (is_percent r ≡ true)
  pub reached : leb_float hundred w.used_percent ≡ true → w.limit_reached ≡ true

-- A window of which only being used up reaches the limit.
pub record IsExactWindow (w : CodexQuotaWindow) : Type 0 where
  pub is_window : IsWindow w
  pub exact : w.limit_reached ≡ leb_float hundred w.used_percent

abbrev pub OfWindow : (CodexQuotaWindow → Type 0) → Option CodexQuotaWindow → Type 0
OfWindow P none = Unit
OfWindow P (some w) = P w

-- A quota with a window, of which each window satisfies the predicate.
pub record OfWindows (P : CodexQuotaWindow → Type 0) (q : CodexQuota) : Type 0 where
  pub primary : OfWindow P q.primary
  pub secondary : OfWindow P q.secondary
  pub code_review : OfWindow P q.code_review
  pub some_window : ¬ ((q.primary ≡ none) × (q.secondary ≡ none) × (q.code_review ≡ none))

abbrev pub OfQuota : (CodexQuotaWindow → Type 0) → Option CodexQuota → Type 0
OfQuota P none = Unit
OfQuota P (some q) = OfWindows P q

pub hundred_percent : is_percent hundred ≡ true
hundred_percent = ground arith

pub zero_percent : is_percent zero_float ≡ true
zero_percent = ground arith

pub clamp_percent : (f : Float) → is_finite f ≡ true → is_percent (clamp f) ≡ true
unfolding clamp is_finite
clamp_percent nan h = absurd (cc)
clamp_percent (units (pos n)) h = ground arith
clamp_percent (units (negsuc n)) h = ground arith

module _ (P : CodexQuotaWindow → Type 0) where
  pub or_window-Of :
      (a b : Option CodexQuotaWindow) → OfWindow P a → OfWindow P b → OfWindow P (or_window a b)
  or_window-Of none b h k = k
  or_window-Of (some w) b h k = h

  pub or_quota-Of : (a b : Option CodexQuota) → OfQuota P a → OfQuota P b → OfQuota P (or_quota a b)
  or_quota-Of none b h k = k
  or_quota-Of (some q) b h k = h

  pub quota_of-Of :
      (a b c : Option CodexQuotaWindow)
      → OfWindow P a
      → OfWindow P b
      → OfWindow P c
      → OfQuota P (quota_of a b c)
  quota_of-Of none none none h k l = tt
  quota_of-Of (some w) b c h k l = record {
    primary = h;
    secondary = k;
    code_review = l;
    some_window = λ e. let (x, y, z) = e in absurd (cc x);
  }
  quota_of-Of none (some w) c h k l = record {
    primary = h;
    secondary = k;
    code_review = l;
    some_window = λ e. let (x, y, z) = e in absurd (cc y);
  }
  quota_of-Of none none (some w) h k l = record {
    primary = h;
    secondary = k;
    code_review = l;
    some_window = λ e. let (x, y, z) = e in absurd (cc z);
  }

IsExactWindow-is_window :
    (o : Option CodexQuotaWindow) → OfWindow IsExactWindow o → OfWindow IsWindow o
IsExactWindow-is_window none h = tt
IsExactWindow-is_window (some w) h = h.is_window

pub IsExactWindow-OfQuota : (o : Option CodexQuota) → OfQuota IsExactWindow o → OfQuota IsWindow o
IsExactWindow-OfQuota none h = tt
IsExactWindow-OfQuota (some q) h = record {
  primary = IsExactWindow-is_window q.primary h.primary;
  secondary = IsExactWindow-is_window q.secondary h.secondary;
  code_review = IsExactWindow-is_window q.code_review h.code_review;
  some_window = h.some_window;
}

pub flagged-IsWindow :
    (o : Option CodexQuotaWindow) → OfWindow IsExactWindow o → OfWindow IsWindow (flagged o)
flagged-IsWindow none h = tt
flagged-IsWindow (some w) h = record {
  used = h.is_window.used;
  remaining = h.is_window.remaining;
  reached = λ e. refl;
}

mark_reached-IsExactWindow :
    (o : Option CodexQuotaWindow)
    → OfWindow IsExactWindow o
    → OfWindow IsExactWindow (mark_reached o)
mark_reached-IsExactWindow none h = tt
mark_reached-IsExactWindow (some w) h = record {
  is_window = record {
    used = h.is_window.used;
    remaining = h.is_window.remaining;
    reached = λ e. ground arith;
  };
  exact = ground (arith, h.exact);
}

mark_reached-none : (o : Option CodexQuotaWindow) → mark_reached o ≡ none → o ≡ none
mark_reached-none none e = refl
mark_reached-none (some w) e = absurd (cc e)

pub mark_all-IsExactWindow :
    (o : Option CodexQuota) → OfQuota IsExactWindow o → OfQuota IsExactWindow (mark_all o)
mark_all-IsExactWindow none h = tt
mark_all-IsExactWindow (some q) h = record {
  primary = mark_reached-IsExactWindow q.primary h.primary;
  secondary = mark_reached-IsExactWindow q.secondary h.secondary;
  code_review = mark_reached-IsExactWindow q.code_review h.code_review;
  some_window = λ e.
      let (x, y, z) = e in
      h.some_window (
        mark_reached-none q.primary x,
        mark_reached-none q.secondary y,
        mark_reached-none q.code_review z,
      );
}
