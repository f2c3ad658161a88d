-- ===== src/OAuth/Pool/Selection.antt =====
-- What Select returns.
use droid_proxy.Prelude.{
  ◌≡◌, refl, sym, ap, ◌↔◌, inl, inr, true, false, not, ◌&&◌, Option, none, some, List, [], ◌∷◌,
  String, arith, str_eq, Bool-cases, Option-cases, filter, filter_every, filter-All_of,
  filter-eq-nil_iff, All, All-of_filter, All-map_prop, All-intro,
}
use droid_proxy.Prelude.Numbers.{Time}
use droid_proxy.Prelude.GoLibrary.{GoLibrary}
use droid_proxy.Prelude.Texts.{is_blank}
use droid_proxy.Prelude.Maps.{string_eq, lookup}
use droid_proxy.Prelude.Sort.{sort, All-sort, All-of_sort}
use droid_proxy.OAuth.Account.{AccountEntry, matches_account, is_excluded, is_eligible, by_label}
use droid_proxy.OAuth.Selector.{
  by_quota, pick_by_quota, caps, is_under, filter_eligible_by_soft_cap,
}
use droid_proxy.OAuth.Selector.Choices.{
  DrawsBelow, choose-All, choose-some, head_of-All, filter_eligible_by_soft_cap-cons,
  filter_eligible_by_soft_cap-All, filter_eligible_by_soft_cap_under,
}
use droid_proxy.OAuth.Affinity.{AffinityStore, bound_path}
use droid_proxy.OAuth.Pool.{
  AccountPool, sticky, entries_of, eligible, with_path, bound_or_best, select_sticky, pinned,
  sticky_choice, chosen_from, select_from, select,
}
use droid_proxy.OAuth.Pool.Leases.{IsAccounted}
use droid_proxy.OAuth.Pool.Eligibility.{MayServe, is_eligible_iff, entries_of-lookup, eligible-All}

pub with_path-All :
    (P : AccountEntry → Type 0) (path : String) (es : List AccountEntry) (e : AccountEntry)
    → All P es
    → with_path path es ≡ some e
    → P e
with_path-All P path [] e h c = cc
with_path-All P path (x ∷ xs) e (h, hs) c = elim (Bool-cases (str_eq x.path path)) [
  | inl t ↦ ground (arith, h)
  | inr t ↦ with_path-All P path xs e hs (ground arith)
]

pick_by_quota-All :
    (P : AccountEntry → Type 0) (es : List AccountEntry) (e : AccountEntry)
    → All P es
    → pick_by_quota es ≡ some e
    → P e
unfolding pick_by_quota
pick_by_quota-All P es e h c = head_of-All P (sort by_quota es) e (All-sort by_quota P es h) c

bound_or_best-All :
    (P : AccountEntry → Type 0) (bound : String) (exclude : List String) (es : List AccountEntry)
    (e : AccountEntry)
    → All P es
    → bound_or_best bound exclude es ≡ some e
    → P e
bound_or_best-All P bound exclude es e h c = elim (Option-cases (with_path bound es)) [
  | inl t ↦ pick_by_quota-All P es e h (ground arith)
  | inr (x, t) ↦ elim (Bool-cases (not (str_eq bound "") && not (is_excluded exclude bound))) [
    | inl s ↦ with_path-All P bound es e h (ground arith)
    | inr s ↦ pick_by_quota-All P es e h (ground arith)
  ]
]

module _ (go : GoLibrary) where
  select_sticky-All :
      (P : AccountEntry → Type 0) (affinity : Option AffinityStore) (conversation : String)
      (es : List AccountEntry) (exclude : List String) (e : AccountEntry)
      → All P es
      → select_sticky go affinity conversation es exclude ≡ some e
      → P e
  unfolding select_sticky
  select_sticky-All P none conversation es exclude e h c = cc
  select_sticky-All P (some s) conversation es exclude e h c =
      bound_or_best-All P (bound_path go s conversation) exclude es e h c

  chosen_from-All :
      (P : AccountEntry → Type 0) (p : AccountPool) (o : Option AccountEntry)
      (es : List AccountEntry) (e : AccountEntry)
      → All P es
      → ((x : AccountEntry) → o ≡ some x → P x)
      → (chosen_from go p o es).0 ≡ some e
      → P e
  chosen_from-All P p (some x) es e h f c = f e c
  chosen_from-All P p none es e h f c = choose-All P p.selector es e h c

  select_from-All :
      (P : AccountEntry → Type 0) (p : AccountPool) (conversation : String) (exclude : List String)
      (es : List AccountEntry) (e : AccountEntry)
      → All P (filter_eligible_by_soft_cap es p.quota_soft_cap)
      → (select_from go p conversation exclude es).0 ≡ some e
      → P e
  unfolding select_from
  select_from-All P p conversation exclude [] e h c = cc
  select_from-All P p conversation exclude (x ∷ xs) e h c =
      let capped = filter_eligible_by_soft_cap (x ∷ xs) p.quota_soft_cap in
      chosen_from-All P p (sticky_choice go p conversation capped exclude) capped e h
        (λ y t. elim (Bool-cases (str_eq p.strategy sticky && not (is_blank conversation))) [
          | inl s ↦ select_sticky-All P p.affinity conversation capped exclude y h (ground arith)
          | inr s ↦ cc (rw s at t)
        ])
        c

  matches_blank :
      (account : String) (e : AccountEntry)
      → is_blank account ≡ true
      → matches_account go e account ≡ true
  unfolding matches_account is_blank
  matches_blank account e t = rw (t, matches_account)

  -- A blank account pins nothing, and matches every entry.
  pinned-eq-filter :
      (account : String) (es : List AccountEntry)
      → pinned go account es ≡ filter (λ e. matches_account go e account) es
  unfolding pinned
  pinned-eq-filter account es = elim (Bool-cases (is_blank account)) [
    | inl t ↦
        rw (t, pinned)
          (sym
            (filter_every (λ e. matches_account go e account) es (λ e. matches_blank account e t)))
    | inr t ↦ rw (t, pinned)
  ]

  -- The candidates of a selection.
  abbrev pub candidates : Time → String → List String → AccountPool → List AccountEntry
  candidates now account exclude p =
      filter (λ e. matches_account go e account) (eligible now exclude p)

  pub select-eq :
      (now : Time) (account : String) (exclude : List String) (conversation : String)
      (p : AccountPool)
      → select go now account exclude conversation p
        ≡ select_from go p conversation exclude (candidates now account exclude p)
  unfolding select
  select-eq now account exclude conversation p =
      ap (select_from go p conversation exclude) (pinned-eq-filter account (eligible now exclude p))

  -- Whatever the strategy, an account that Select returns is in the pool under its own path, meets
  -- every criterion of eligibility at the time of the call, was not excluded by the caller, and is
  -- one that a pinned account names.
  pub select_sound :
      {held : List String} (now : Time) (account : String) (exclude : List String)
      (conversation : String) (p : AccountPool) (e : AccountEntry)
      → IsAccounted p held
      → (select go now account exclude conversation p).0 ≡ some e
      → (lookup e.path p.entries ≡ some e)
        × MayServe e exclude now
        × (matches_account go e account ≡ true)
  select_sound now account exclude conversation p e a c =
      select_from-All
        (λ x.
          (lookup x.path p.entries ≡ some x)
          × MayServe x exclude now
          × (matches_account go x account ≡ true))
        p conversation exclude (candidates now account exclude p) e
        (filter_eligible_by_soft_cap-All _ _ p.quota_soft_cap (
          All-of_filter _ _ (eligible now exclude p) (
            eligible-All _ now exclude p (
              All-map_prop _ _ (entries_of p.entries)
                (λ x h el m. (h, (is_eligible_iff x exclude now).0 el, m))
                (entries_of-lookup p a)))))
        (rw (← select-eq now account exclude conversation p) c)

  chosen_from-some :
      (p : AccountPool) (o : Option AccountEntry) (x : AccountEntry) (xs : List AccountEntry)
      → DrawsBelow p.selector
      → (e : AccountEntry) × ((chosen_from go p o (x ∷ xs)).0 ≡ some e)
  chosen_from-some p (some e) x xs d = (e, refl)
  chosen_from-some p none x xs d = choose-some p.selector x xs d

  select_from-some :
      (p : AccountPool) (conversation : String) (exclude : List String) (x : AccountEntry)
      (xs : List AccountEntry)
      → DrawsBelow p.selector
      → (e : AccountEntry) × ((select_from go p conversation exclude (x ∷ xs)).0 ≡ some e)
  unfolding select_from
  select_from-some p conversation exclude x xs d =
      let (y, ys, t) = filter_eligible_by_soft_cap-cons x xs p.quota_soft_cap in
      rw t (chosen_from-some p _ y ys d)

  select_from-none_iff :
      (p : AccountPool) (conversation : String) (exclude : List String) (es : List AccountEntry)
      → DrawsBelow p.selector
      → ((select_from go p conversation exclude es).0 ≡ none) ↔ (es ≡ [])
  unfolding select_from
  select_from-none_iff p conversation exclude [] d = (λ e. refl, λ e. refl)
  select_from-none_iff p conversation exclude (x ∷ xs) d =
      let (e, t) = select_from-some p conversation exclude x xs d in
      (λ h. cc (h, t), λ h. absurd (cc))

  candidates-nil_iff :
      (now : Time) (account : String) (exclude : List String) (p : AccountPool)
      → (candidates now account exclude p ≡ [])
        ↔ All
            (λ e. (is_eligible e exclude now && matches_account go e account) ≡ false)
            (entries_of p.entries)
  unfolding eligible
  candidates-nil_iff now account exclude p =
      let el = λ (e : AccountEntry). is_eligible e exclude now in
      let all = entries_of p.entries in
      let (to, from) =
        filter-eq-nil_iff (λ e. matches_account go e account) (eligible now exclude p) in
      (
        λ h.
            All-map_prop _ _ all (λ e k. ground (arith, k))
              (filter-All_of _ el all (All-of_sort by_label _ (filter el all) (to h))),
        λ h. from (
            All-sort by_label _ (filter el all)
              (All-of_filter _ el all (All-map_prop _ _ all (λ e k t. ground (arith, k, t)) h))),
      )

  -- Select fails exactly when no entry of the pool is both eligible and matched by the account
  -- asked for, if the random generator keeps its draws below their bound.
  pub select-none_iff :
      (now : Time) (account : String) (exclude : List String) (conversation : String)
      (p : AccountPool)
      → DrawsBelow p.selector
      → ((select go now account exclude conversation p).0 ≡ none)
        ↔ All
            (λ e. (is_eligible e exclude now && matches_account go e account) ≡ false)
            (entries_of p.entries)
  select-none_iff now account exclude conversation p d =
      let (to, from) = candidates-nil_iff now account exclude p in
      let (fails, empty) =
        select_from-none_iff p conversation exclude (candidates now account exclude p) d in
      rw (select-eq now account exclude conversation p) (λ h. to (fails h), λ h. empty (from h))

  -- With a soft cap set, an account at or above the cap is returned only if every entry of the pool
  -- that is eligible and matched by the account asked for is at or above it.
  pub select_soft_cap :
      (now : Time) (account : String) (exclude : List String) (conversation : String)
      (p : AccountPool) (e : AccountEntry)
      → caps p.quota_soft_cap ≡ true
      → (select go now account exclude conversation p).0 ≡ some e
      → is_under p.quota_soft_cap e ≡ false
      → All
          (λ x.
            is_eligible x exclude now ≡ true
            → matches_account go x account ≡ true
            → is_under p.quota_soft_cap x ≡ false)
          (entries_of p.entries)
  unfolding eligible
  select_soft_cap now account exclude conversation p e c chosen over =
      let cap = p.quota_soft_cap in
      let all = entries_of p.entries in
      let offered = candidates now account exclude p in
      elim (filter_eligible_by_soft_cap_under (λ x. is_under cap x ≡ true) offered cap c
        (All-intro _ offered (λ x t. t))) [
          | inl none_under ↦
              filter-All_of _ (λ x. is_eligible x exclude now) all
                (All-of_sort by_label _ _ (
                  filter-All_of _ (λ x. matches_account go x account) (eligible now exclude p)
                    none_under))
          | inr under ↦ absurd (
              cc (
                select_from-All (λ x. is_under cap x ≡ true) p conversation exclude offered e under
                    (rw (← select-eq now account exclude conversation p) chosen),
                over,
              ))
        ]
