-- ===== src/OAuth/Pool/Eligibility.antt =====
-- Which entries may be selected, and in which order they are offered.
use mathlib.Core.List.{Permᴰ}
use droid_proxy.Prelude.{
  ◌≤◌, ◌≡◌, sym, ◌∙◌, ap, ◌↔◌, ◌⊎◌, ◌≢◌, true, false, some, List, [], ◌∷◌, String, arith, eq_iff,
  All, All-of_filter, All-map_prop,
}
use droid_proxy.Prelude.Numbers.{Time}
use droid_proxy.Prelude.Texts.{str_ltb_asym, str_ltb_compare, str_ltb_trichotomy}
use droid_proxy.Prelude.Maps.{string_eq, lookup, IsMap, Lacks, All-lookup}
use droid_proxy.Prelude.Sort.{IsStrictOrder, Differ, AllDiffer, All-sort, sort-filter-eq_of_permᴰ}
use droid_proxy.OAuth.Account.{
  AccountEntry, provider_codex, is_excluded, account_ineligible_reasons, is_eligible, by_label,
}
use droid_proxy.OAuth.Pool.{Entries, AccountPool, entries_of, eligible}
use droid_proxy.OAuth.Pool.Leases.{IsAccounted}

-- The criteria that the comment of Eligible lists.
pub record MayServe (e : AccountEntry) (exclude : List String) (now : Time) : Type 0 where
  pub is_codex : e.provider ≡ provider_codex
  pub present : e.token_file_present ≡ true
  pub enabled : e.disabled ≡ false
  pub untried : is_excluded exclude e.path ≡ false
  pub cooled : e.cooldown_until ≤ now
  pub unlimited : e.rate_limited_until ≤ now
  pub well : (e.healthy ≡ true) ⊎ (e.unhealthy_until ≤ now)
  pub usable : (e.token_expired ≡ false) ⊎ (e.refreshable ≡ true)

-- The pool's test of eligibility, which collects the reasons against an entry, holds exactly of the
-- entries that meet every criterion that the comment of Eligible lists.
pub is_eligible_iff :
    (e : AccountEntry) (exclude : List String) (now : Time)
    → (is_eligible e exclude now ≡ true) ↔ MayServe e exclude now
unfolding is_eligible account_ineligible_reasons
is_eligible_iff e exclude now = (
  λ h. record {
    is_codex = ground (arith, eq_iff e.provider provider_codex);
    present = ground arith;
    enabled = ground arith;
    untried = ground arith;
    cooled = ground arith;
    unlimited = ground arith;
    well = ground arith;
    usable = ground arith;
  },
  λ m. ground (arith, eq_iff e.provider provider_codex),
)

pub by_label-IsStrictOrder : IsStrictOrder by_label
unfolding by_label
by_label-IsStrictOrder = record {
  asym = λ a b h. ground (
    arith,
    eq_iff a.selector b.selector,
    eq_iff b.selector a.selector,
    str_ltb_asym a.selector b.selector,
    str_ltb_asym a.path b.path,
  );
  compare = λ a b c h. ground (
    arith,
    eq_iff a.selector b.selector,
    eq_iff b.selector c.selector,
    eq_iff a.selector c.selector,
    str_ltb_compare a.selector b.selector c.selector,
    str_ltb_trichotomy a.selector b.selector,
    str_ltb_asym a.selector b.selector,
    str_ltb_asym b.selector c.selector,
    str_ltb_compare a.path b.path c.path,
  );
}

by_label-Differ :
    (a b : AccountEntry) → a.path ≢ b.path → Differ by_label by_label-IsStrictOrder a b
unfolding by_label
by_label-Differ a b h = ground (
  arith,
  eq_iff a.selector b.selector,
  eq_iff b.selector a.selector,
  str_ltb_trichotomy a.selector b.selector,
  str_ltb_trichotomy a.path b.path,
)

-- Every offered entry is the one that its path looks up.
pub entries_of-lookup :
    (p : AccountPool) {held : List String}
    → IsAccounted p held
    → All (λ e. lookup e.path p.entries ≡ some e) (entries_of p.entries)
entries_of-lookup p a = go p.entries (All-lookup p.entries a.is_map)
  where
    go :
        (m : Entries)
        → All (λ x. lookup x.0 p.entries ≡ some x.1) m
        → All (λ e. lookup e.path p.entries ≡ some e) (entries_of m)
    go [] h = tt
    go ((k, e) ∷ m) (h, hs) = (ground (arith, h, a.keyed k), go m hs)

pub eligible-All :
    (P : AccountEntry → Type 0) (now : Time) (exclude : List String) (p : AccountPool)
    → All (λ e. is_eligible e exclude now ≡ true → P e) (entries_of p.entries)
    → All P (eligible now exclude p)
unfolding eligible
eligible-All P now exclude p h =
    All-sort by_label P _
      (All-of_filter P (λ e. is_eligible e exclude now) (entries_of p.entries) h)

Permᴰ-entries_of : (m n : Entries) → Permᴰ m n → Permᴰ (entries_of m) (entries_of n)
Permᴰ-entries_of _ _ Permᴰ.nil = Permᴰ.nil
Permᴰ-entries_of _ _ (Permᴰ.cons {a = (j, a)} {b = (k, b)} e p) =
    Permᴰ.cons (ap (λ x. x.1) e) (Permᴰ-entries_of _ _ p)
Permᴰ-entries_of _ _ (Permᴰ.swap {a = (h, a)} {b = (i, b)} {a' = (j, c)} {b' = (k, d)} e f) =
    Permᴰ.swap (ap (λ x. x.1) e) (ap (λ x. x.1) f)
Permᴰ-entries_of _ _ (Permᴰ.trans p q) =
    Permᴰ.trans (Permᴰ-entries_of _ _ p) (Permᴰ-entries_of _ _ q)

entries_of-Differ :
    (k : String) (e : AccountEntry) (m : Entries)
    → e.path ≡ k
    → Lacks k m
    → All (λ x. x.1.path ≡ x.0) m
    → All (Differ by_label by_label-IsStrictOrder e) (entries_of m)
entries_of-Differ k e [] s l h = tt
entries_of-Differ k e ((j, f) ∷ m) s (l, ls) (h, hs) =
    (by_label-Differ e f (λ same. l (sym h ∙ sym same ∙ s)), entries_of-Differ k e m s ls hs)

entries_of-AllDiffer :
    (m : Entries)
    → IsMap m
    → All (λ x. x.1.path ≡ x.0) m
    → AllDiffer by_label by_label-IsStrictOrder (entries_of m)
entries_of-AllDiffer [] i h = tt
entries_of-AllDiffer ((k, e) ∷ m) (l, i) (h, hs) =
    (entries_of-Differ k e m h l hs, entries_of-AllDiffer m i hs)

keyed_All :
    (p : AccountPool) {held : List String}
    → IsAccounted p held
    → All (λ x. x.1.path ≡ x.0) p.entries
keyed_All p a =
    All-map_prop _ _ p.entries (λ x h. ground (arith, h, a.keyed x.0))
      (All-lookup p.entries a.is_map)

-- The list that Eligible returns does not depend on the order in which the map of entries is
-- visited: pools with the same entries offer the same list.
pub eligible-eq_of_permᴰ :
    (p q : AccountPool) {held : List String} (now : Time) (exclude : List String)
    → IsAccounted p held
    → Permᴰ p.entries q.entries
    → eligible now exclude p ≡ eligible now exclude q
unfolding eligible
eligible-eq_of_permᴰ p q now exclude a same =
    sort-filter-eq_of_permᴰ by_label by_label-IsStrictOrder _ _ _ (Permᴰ-entries_of _ _ same)
      (entries_of-AllDiffer p.entries a.is_map (keyed_All p a))
