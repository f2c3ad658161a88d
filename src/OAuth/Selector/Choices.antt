-- ===== src/OAuth/Selector/Choices.antt =====
-- What each strategy picks: internal/oauth/selector.go and quota_select.go.
use droid_proxy.Prelude.{
  ℕ, ◌≤◌, ◌<◌, ◌≡◌, refl, sym, ap, subst, ◌⊎◌, inl, inr, true, false, Option, none, some, List, [],
  ◌∷◌, ltb, if◌then◌else◌, arith, eq_iff, get_elem?-lt, All-get_elem?, filter, All, All-filter,
  All-of_filter, filter-eq-nil_iff, filter-All_of, All-map_prop, Bool-cases,
}
use droid_proxy.Prelude.Numbers.{Float}
use droid_proxy.Prelude.Texts.{str_ltb_asym, str_ltb_compare, str_ltb_trichotomy}
use droid_proxy.Prelude.Sort.{sort, IsStrictOrder, All-sort, All-of_sort, sort-cons}
use droid_proxy.OAuth.Account.{AccountEntry}
use droid_proxy.OAuth.Selector.{
  Selector, round_robin, fill_first, least_connections, random, fewest, choose, by_quota, head_of,
  caps, is_under, filter_eligible_by_soft_cap,
}

-- The generator keeps to its contract: `Intn(n)` is below n.
abbrev pub DrawsBelow : Selector → Type 0
DrawsBelow (random draw calls) = (i n : ℕ) → 0 < n → draw i n < n
DrawsBelow _ = Unit

fewest-All :
    (P : AccountEntry → Type 0) (best : AccountEntry) (es : List AccountEntry)
    → P best
    → All P es
    → P (fewest best es)
unfolding fewest
fewest-All P best [] p h = p
fewest-All P best (e ∷ es) p (q, h) = elim (Bool-cases (ltb e.in_flight best.in_flight)) [
  | inl t ↦ rw t (fewest-All P e es q h)
  | inr t ↦ rw t (fewest-All P best es p h)
]

-- What holds of every candidate holds of the choice.
pub choose-All :
    (P : AccountEntry → Type 0) (sel : Selector) (es : List AccountEntry) (e : AccountEntry)
    → All P es
    → (choose sel es).0 ≡ some e
    → P e
unfolding choose
choose-All P sel [] e h c = cc
choose-All P (round_robin cursor) (x ∷ xs) e h c = All-get_elem? P (x ∷ xs) _ e h c
choose-All P fill_first (x ∷ xs) e h c = ground (arith, h.0)
choose-All P least_connections (x ∷ xs) e h c = ground (arith, fewest-All P x xs h.0 h.1)
choose-All P (random draw calls) (x ∷ xs) e h c = All-get_elem? P (x ∷ xs) _ e h c

-- Of at least one candidate one is chosen.
pub choose-some :
    (sel : Selector) (x : AccountEntry) (xs : List AccountEntry)
    → DrawsBelow sel
    → (e : AccountEntry) × ((choose sel (x ∷ xs)).0 ≡ some e)
unfolding choose
choose-some (round_robin cursor) x xs d = get_elem?-lt (x ∷ xs) _ (omega arith)
choose-some fill_first x xs d = (x, refl)
choose-some least_connections x xs d = (fewest x xs, refl)
choose-some (random draw calls) x xs d = get_elem?-lt (x ∷ xs) _ (d calls _ (omega arith))

fewest-le :
    (best : AccountEntry) (es : List AccountEntry)
    → ((fewest best es).in_flight ≤ best.in_flight)
      × All (λ e. (fewest best es).in_flight ≤ e.in_flight) es
unfolding fewest
fewest-le best [] = (omega arith, tt)
fewest-le best (e ∷ es) =
    let (l, h) = fewest-le (if ltb e.in_flight best.in_flight then e else best) es in
    (ground (arith, l), (ground (arith, l), h))

abbrev unwrap_or : AccountEntry → Option AccountEntry → AccountEntry
unwrap_or d none = d
unwrap_or d (some e) = e

-- The least-connections strategy picks an account that no candidate undercuts in leases held.
least_connections_least :
    (es : List AccountEntry) (e : AccountEntry)
    → (choose least_connections es).0 ≡ some e
    → All (λ x. e.in_flight ≤ x.in_flight) es
unfolding choose
least_connections_least [] e c = cc
least_connections_least (x ∷ xs) e c =
    subst (λ y. All (λ z. y.in_flight ≤ z.in_flight) (x ∷ xs)) (ap (unwrap_or x) c) (fewest-le x xs)

pub by_quota-IsStrictOrder : IsStrictOrder by_quota
unfolding by_quota
by_quota-IsStrictOrder = record {
  asym = λ a b h. ground (
    arith,
    eq_iff a.selector b.selector,
    eq_iff b.selector a.selector,
    str_ltb_asym a.selector b.selector,
    str_ltb_asym a.path b.path,
  );
  compare = λ a b c h. ground (
    arith,
    eq_iff a.selector b.selector,
    eq_iff b.selector c.selector,
    eq_iff a.selector c.selector,
    str_ltb_compare a.selector b.selector c.selector,
    str_ltb_trichotomy a.selector b.selector,
    str_ltb_asym a.selector b.selector,
    str_ltb_asym b.selector c.selector,
    str_ltb_compare a.path b.path c.path,
  );
}

pub head_of-All :
    (P : AccountEntry → Type 0) (es : List AccountEntry) (e : AccountEntry)
    → All P es
    → head_of es ≡ some e
    → P e
head_of-All P [] e h c = cc
head_of-All P (x ∷ xs) e h c = ground (arith, h.0)

pub filter_eligible_by_soft_cap-All :
    (P : AccountEntry → Type 0) (es : List AccountEntry) (cap : Float)
    → All P es
    → All P (filter_eligible_by_soft_cap es cap)
unfolding filter_eligible_by_soft_cap
filter_eligible_by_soft_cap-All P es cap h = ground (
  arith,
  h,
  All-sort by_quota P es h,
  All-sort by_quota P (filter (is_under cap) es) (All-filter P (is_under cap) es h),
)

-- The cap never empties the list.
pub filter_eligible_by_soft_cap-cons :
    (x : AccountEntry) (xs : List AccountEntry) (cap : Float)
    → (y : AccountEntry) × (ys : List AccountEntry) × (filter_eligible_by_soft_cap (x ∷ xs) cap
        ≡ y ∷ ys)
unfolding filter_eligible_by_soft_cap
filter_eligible_by_soft_cap-cons x xs cap = go (filter (is_under cap) (x ∷ xs)) refl
  where
    go :
        (under : List AccountEntry)
        → filter (is_under cap) (x ∷ xs) ≡ under
        → (y : AccountEntry) × (ys : List AccountEntry) × (filter_eligible_by_soft_cap (x ∷ xs) cap
            ≡ y ∷ ys)
    go [] t =
        let (y, ys, s) = sort-cons by_quota x xs in
        elim (Bool-cases (caps cap)) [
          | inl c ↦ (y, ys, ground (arith, s))
          | inr c ↦ (x, xs, ground arith)
        ]
    go (u ∷ us) t =
        let (y, ys, s) = sort-cons by_quota u us in
        elim (Bool-cases (caps cap)) [
          | inl c ↦ (y, ys, ground (arith, s))
          | inr c ↦ (x, xs, ground arith)
        ]

capped_off :
    (es : List AccountEntry) (cap : Float)
    → caps cap ≡ false
    → filter_eligible_by_soft_cap es cap ≡ es
unfolding filter_eligible_by_soft_cap
capped_off es cap c = ground arith

capped_none :
    (x : AccountEntry) (xs : List AccountEntry) (cap : Float)
    → caps cap ≡ true
    → filter (is_under cap) (x ∷ xs) ≡ []
    → filter_eligible_by_soft_cap (x ∷ xs) cap ≡ sort by_quota (x ∷ xs)
unfolding filter_eligible_by_soft_cap
capped_none x xs cap c n = ground arith

capped_under :
    (x : AccountEntry) (xs : List AccountEntry) (cap : Float) {u : AccountEntry}
    {us : List AccountEntry}
    → caps cap ≡ true
    → filter (is_under cap) (x ∷ xs) ≡ u ∷ us
    → filter_eligible_by_soft_cap (x ∷ xs) cap ≡ sort by_quota (filter (is_under cap) (x ∷ xs))
unfolding filter_eligible_by_soft_cap
capped_under x xs cap c n = ground arith

pub List-cases {ℓ} : {A : Type ℓ} (l : List A) → (l ≡ []) ⊎ ((x : A) × (xs : List A) × (l ≡ x ∷ xs))
List-cases [] = inl refl
List-cases (x ∷ xs) = inr (x, xs, refl)

-- Of the candidates below a cap, if there are any, only such are kept.
pub filter_eligible_by_soft_cap_under :
    (P : AccountEntry → Type 0) (es : List AccountEntry) (cap : Float)
    → caps cap ≡ true
    → All (λ e. is_under cap e ≡ true → P e) es
    → All (λ e. is_under cap e ≡ false) es ⊎ All P (filter_eligible_by_soft_cap es cap)
filter_eligible_by_soft_cap_under P [] cap c h = inl tt
filter_eligible_by_soft_cap_under P (x ∷ xs) cap c h =
    elim (List-cases (filter (is_under cap) (x ∷ xs))) [
      | inl n ↦ inl ((filter-eq-nil_iff (is_under cap) (x ∷ xs)).0 n)
      | inr (u, us, n) ↦ inr (
          subst (All P) (sym (capped_under x xs cap c n))
            (All-sort by_quota P _ (All-of_filter P (is_under cap) (x ∷ xs) h)))
    ]

-- What holds of every kept candidate holds of every candidate, if the cap is off, and else of every
-- candidate below the cap.
pub filter_eligible_by_soft_cap-All_of :
    (P : AccountEntry → Type 0) (es : List AccountEntry) (cap : Float)
    → All P (filter_eligible_by_soft_cap es cap)
    → All (λ e. (caps cap ≡ false) ⊎ (is_under cap e ≡ true) → P e) es
filter_eligible_by_soft_cap-All_of P [] cap h = tt
filter_eligible_by_soft_cap-All_of P (x ∷ xs) cap h = elim (Bool-cases (caps cap)) [
  | inr c ↦ All-map_prop P _ (x ∷ xs) (λ e p s. p) (subst (All P) (capped_off (x ∷ xs) cap c) h)
  | inl c ↦ elim (List-cases (filter (is_under cap) (x ∷ xs))) [
    | inl n ↦
        All-map_prop P _ (x ∷ xs) (λ e p s. p)
          (All-of_sort by_quota P (x ∷ xs) (subst (All P) (capped_none x xs cap c n) h))
    | inr (u, us, n) ↦
        All-map_prop _ _ (x ∷ xs)
          (λ e p s. p (elim s [ inl off ↦ absurd (cc (off, c)) | inr under ↦ under ]))
          (filter-All_of P (is_under cap) (x ∷ xs)
            (All-of_sort by_quota P _ (subst (All P) (capped_under x xs cap c n) h)))
  ]
]
