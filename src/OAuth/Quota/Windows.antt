-- ===== src/OAuth/Quota/Windows.antt =====
-- The merge of quota windows and their resets: internal/oauth/quota.go.
use droid_proxy.Prelude.{
  ℕ, ◌≤◌, ◌≡◌, refl, ◌∙◌, ◌⊎◌, inl, inr, true, false, Option, none, some, if◌then◌else◌, arith,
}
use droid_proxy.Prelude.Numbers.{Time}
use droid_proxy.OAuth.Quota.{
  CodexQuota, CodexQuotaWindow, positive_reset, later_reset, later_exhausted,
  exhausted_window_reset_at, merge_codex_quota, newer,
}

newer_assoc : (a b c : Option CodexQuotaWindow) → newer (newer a b) c ≡ newer a (newer b c)
newer_assoc a b none = refl
newer_assoc a b (some w) = refl

-- Merging quota telemetry is associative: of windows of one kind the newest that was reported
-- stays, however the reports are grouped.
pub merge_codex_quota_assoc :
    (a b c : Option CodexQuota)
    → merge_codex_quota (merge_codex_quota a b) c ≡ merge_codex_quota a (merge_codex_quota b c)
unfolding merge_codex_quota
merge_codex_quota_assoc none b c = refl
merge_codex_quota_assoc (some a) none c = refl
merge_codex_quota_assoc (some a) (some b) none = refl
merge_codex_quota_assoc (some a) (some b) (some c) = cc (
  newer_assoc a.primary b.primary c.primary,
  newer_assoc a.secondary b.secondary c.secondary,
  newer_assoc a.code_review b.code_review c.code_review,
)

-- A window that is used up, with the instant of its reset.
abbrev pub reset_of : Option CodexQuotaWindow → Option Time
reset_of none = none
reset_of (some w) = if w.limit_reached then later_reset none (positive_reset w.reset_at) else none

abbrev pub AtMost : Option Time → Option Time → Type 0
AtMost none t = Unit
AtMost (some r) none = true ≡ false
AtMost (some r) (some t) = r ≤ t

AtMost-refl : (t : Option Time) → AtMost t t
AtMost-refl none = tt
AtMost-refl (some t) = omega arith

AtMost-trans : (r s t : Option Time) → AtMost r s → AtMost s t → AtMost r t
AtMost-trans none s t h k = tt
AtMost-trans (some r) none t h k = absurd (cc)
AtMost-trans (some r) (some s) none h k = k
AtMost-trans (some r) (some s) (some t) h k = omega (arith, h, k)

later_reset-AtMost :
    (latest : Option Time) (n : Option ℕ)
    → AtMost latest (later_reset latest n) × AtMost (later_reset none n) (later_reset latest n)
later_reset-AtMost latest none = (AtMost-refl latest, tt)
later_reset-AtMost none (some n) = (tt, omega arith)
later_reset-AtMost (some l) (some n) = ground arith

later_exhausted-AtMost :
    (latest : Option Time) (o : Option CodexQuotaWindow)
    → AtMost latest (later_exhausted latest o) × AtMost (reset_of o) (later_exhausted latest o)
later_exhausted-AtMost latest none = (AtMost-refl latest, tt)
later_exhausted-AtMost latest (some w) =
    ground (arith, later_reset-AtMost latest (positive_reset w.reset_at), AtMost-refl latest)

later_reset-one :
    (latest : Option Time) (n : Option ℕ)
    → (later_reset latest n ≡ latest) ⊎ (later_reset latest n ≡ later_reset none n)
later_reset-one latest none = inl refl
later_reset-one none (some n) = inr refl
later_reset-one (some l) (some n) = ground arith

later_exhausted-one :
    (latest : Option Time) (o : Option CodexQuotaWindow)
    → (later_exhausted latest o ≡ latest) ⊎ (later_exhausted latest o ≡ reset_of o)
later_exhausted-one latest none = inl refl
later_exhausted-one latest (some w) =
    ground (arith, later_reset-one latest (positive_reset w.reset_at))

-- The reset of the exhausted windows is the latest of theirs: no window that is used up resets
-- later, and if there is a reset at all, it is that of one of them.
exhausted_window_reset_at_latest :
    (q : CodexQuota)
    → let t = exhausted_window_reset_at (some q) in
      AtMost (reset_of q.primary) t
      × AtMost (reset_of q.secondary) t
      × AtMost (reset_of q.code_review) t
      × ((t ≡ none)
          ⊎ (t ≡ reset_of q.primary)
          ⊎ (t ≡ reset_of q.secondary)
          ⊎ (t ≡ reset_of q.code_review))
unfolding exhausted_window_reset_at
exhausted_window_reset_at_latest q =
    let a = later_exhausted none q.primary in
    let b = later_exhausted a q.secondary in
    let c = later_exhausted b q.code_review in
    let (p1, p2) = later_exhausted-AtMost none q.primary in
    let (s1, s2) = later_exhausted-AtMost a q.secondary in
    let (r1, r2) = later_exhausted-AtMost b q.code_review in
    (AtMost-trans _ a c p2 (AtMost-trans a b c s1 r1), AtMost-trans _ b c s2 r1, r2, one)
  where
    one :
        (exhausted_window_reset_at (some q) ≡ none)
        ⊎ (exhausted_window_reset_at (some q) ≡ reset_of q.primary)
        ⊎ (exhausted_window_reset_at (some q) ≡ reset_of q.secondary)
        ⊎ (exhausted_window_reset_at (some q) ≡ reset_of q.code_review)
    one =
        let a = later_exhausted none q.primary in
        let b = later_exhausted a q.secondary in
        elim (later_exhausted-one b q.code_review) [
          | inr h ↦ inr (inr (inr h))
          | inl h ↦ elim (later_exhausted-one a q.secondary) [
            | inr k ↦ inr (inr (inl (h ∙ k)))
            | inl k ↦ elim (later_exhausted-one none q.primary) [
              | inr l ↦ inr (inl (h ∙ k ∙ l))
              | inl l ↦ inl (h ∙ k ∙ l)
            ]
          ]
        ]
