-- ===== src/OAuth/Pool/Sticky.antt =====
-- Sticky selection: selectStickyLocked in internal/oauth/pool.go.
use droid_proxy.Prelude.{
  ◌≡◌, ap, ◌∙◌, ◌⊎◌, inl, inr, ◌≢◌, true, false, none, some, List, [], ◌∷◌, String, arith, str_eq,
  eq_iff, eq_refl, Bool-cases, Option-cases, filter-All_of, All, All-filter, All-map_prop,
}
use droid_proxy.Prelude.Numbers.{Time}
use droid_proxy.Prelude.GoLibrary.{GoLibrary}
use droid_proxy.Prelude.Texts.{is_blank}
use droid_proxy.Prelude.Maps.{string_eq, lookup}
use droid_proxy.Prelude.Sort.{sort, All-of_sort}
use droid_proxy.OAuth.Account.{AccountEntry, matches_account, is_eligible, by_label}
use droid_proxy.OAuth.Selector.{pick_by_quota, caps, is_under, filter_eligible_by_soft_cap}
use droid_proxy.OAuth.Selector.Choices.{
  filter_eligible_by_soft_cap-All, filter_eligible_by_soft_cap-All_of,
}
use droid_proxy.OAuth.Affinity.{AffinityStore, bound_path}
use droid_proxy.OAuth.Pool.{
  Entries, AccountPool, sticky, entries_of, eligible, with_path, bound_or_best, select_sticky,
  sticky_choice, chosen_from, select_from, select,
}
use droid_proxy.OAuth.Pool.Leases.{IsAccounted}
use droid_proxy.OAuth.Pool.Eligibility.{MayServe, is_eligible_iff, entries_of-lookup, eligible-All}
use droid_proxy.OAuth.Pool.Selection.{candidates, select-eq, with_path-All}

entries_of-All :
    (P : AccountEntry → Type 0) (m : Entries) (path : String) (e : AccountEntry)
    → All P (entries_of m)
    → lookup path m ≡ some e
    → P e
unfolding lookup
entries_of-All P [] path e h t = cc
entries_of-All P ((k, x) ∷ m) path e (h, hs) t = elim (Bool-cases (str_eq k path)) [
  | inl s ↦ ground (arith, h)
  | inr s ↦ entries_of-All P m path e hs (ground arith)
]

with_path-none :
    (path : String) (es : List AccountEntry)
    → with_path path es ≡ none
    → All (λ x. str_eq x.path path ≡ false) es
with_path-none path [] t = tt
with_path-none path (x ∷ xs) t = elim (Bool-cases (str_eq x.path path)) [
  | inl s ↦ absurd (ground arith)
  | inr s ↦ (s, with_path-none path xs (ground arith))
]

with_path-path :
    (path : String) (es : List AccountEntry) (e : AccountEntry)
    → with_path path es ≡ some e
    → e.path ≡ path
with_path-path path [] e t = cc
with_path-path path (x ∷ xs) e t = elim (Bool-cases (str_eq x.path path)) [
  | inl s ↦ ground (arith, eq_iff x.path path)
  | inr s ↦ with_path-path path xs e (ground arith)
]

module _ (go : GoLibrary) where
  -- An entry of the pool that is eligible, is matched and is not capped is found by its path.
  with_path-capped :
      {held : List String} (now : Time) (account : String) (exclude : List String) (p : AccountPool)
      (e : AccountEntry)
      → IsAccounted p held
      → lookup e.path p.entries ≡ some e
      → is_eligible e exclude now ≡ true
      → matches_account go e account ≡ true
      → (caps p.quota_soft_cap ≡ false) ⊎ (is_under p.quota_soft_cap e ≡ true)
      → with_path e.path
          (filter_eligible_by_soft_cap (candidates go now account exclude p) p.quota_soft_cap)
        ≡ some e
  unfolding eligible
  with_path-capped now account exclude p e a stored el m u =
      let cap = p.quota_soft_cap in
      let all = entries_of p.entries in
      let offered = candidates go now account exclude p in
      let capped = filter_eligible_by_soft_cap offered cap in
      elim (Option-cases (with_path e.path capped)) [
        | inl t ↦
            let apart =
              entries_of-All _ p.entries e.path e
                (filter-All_of _ (λ x. is_eligible x exclude now) all
                  (All-of_sort by_label _ _ (
                    filter-All_of _ (λ x. matches_account go x account) (eligible now exclude p)
                      (filter_eligible_by_soft_cap-All_of _ offered cap
                        (with_path-none e.path capped t)))))
                stored in
            absurd (cc (apart el m u, eq_refl e.path))
        | inr (x, t) ↦
            let listed =
              with_path-All _ e.path capped x
                (filter_eligible_by_soft_cap-All _ offered cap (
                  All-filter _ (λ y. matches_account go y account) (eligible now exclude p)
                    (eligible-All _ now exclude p
                      (All-map_prop _ _ all (λ y h el. h) (entries_of-lookup p a)))))
                t in
            cc (t, listed, stored, with_path-path e.path capped x t)
      ]

  sticky_choice_bound :
      (p : AccountPool) (s : AffinityStore) (conversation : String) (exclude : List String)
      (es : List AccountEntry) (e : AccountEntry)
      → p.strategy ≡ sticky
      → p.affinity ≡ some s
      → is_blank conversation ≡ false
      → bound_or_best (bound_path go s conversation) exclude es ≡ some e
      → sticky_choice go p conversation es exclude ≡ some e
  unfolding select_sticky
  sticky_choice_bound p s conversation exclude es e k f b t =
      ground (arith, eq_iff p.strategy sticky)

  select_from-sticky :
      (p : AccountPool) (s : AffinityStore) (conversation : String) (exclude : List String)
      (es : List AccountEntry) (e : AccountEntry)
      → p.strategy ≡ sticky
      → p.affinity ≡ some s
      → is_blank conversation ≡ false
      → bound_or_best
          (bound_path go s conversation)
          exclude
          (filter_eligible_by_soft_cap es p.quota_soft_cap)
        ≡ some e
      → select_from go p conversation exclude es ≡ (some e, p)
  unfolding select_from filter_eligible_by_soft_cap pick_by_quota sort
  select_from-sticky p s conversation exclude [] e k f b t = absurd (ground arith)
  select_from-sticky p s conversation exclude (x ∷ xs) e k f b t =
      let capped = filter_eligible_by_soft_cap (x ∷ xs) p.quota_soft_cap in
      ap (λ o. chosen_from go p o capped)
        (sticky_choice_bound p s conversation exclude capped e k f b t)

  -- Under the sticky strategy a conversation that is bound to an account keeps it, and no selector
  -- is asked: if the bound account is in the pool, eligible, not excluded, matched by the account
  -- asked for, and below the soft cap where one is set, Select returns it.
  pub select_bound :
      {held : List String} (now : Time) (account : String) (exclude : List String)
      (conversation : String) (p : AccountPool) (s : AffinityStore) (e : AccountEntry)
      → IsAccounted p held
      → p.strategy ≡ sticky
      → p.affinity ≡ some s
      → is_blank conversation ≡ false
      → bound_path go s conversation ≡ e.path
      → e.path ≢ ""
      → lookup e.path p.entries ≡ some e
      → MayServe e exclude now
      → matches_account go e account ≡ true
      → (caps p.quota_soft_cap ≡ false) ⊎ (is_under p.quota_soft_cap e ≡ true)
      → select go now account exclude conversation p ≡ (some e, p)
  select_bound now account exclude conversation p s e a k f b bound named stored may m u =
      let found =
        with_path-capped now account exclude p e a stored ((is_eligible_iff e exclude now).1 may) m
          u in
      select-eq go now account exclude conversation p
      ∙ select_from-sticky p s conversation exclude _ e k f b
          (rw bound (ground (arith, found, may.untried, eq_iff e.path "")))
