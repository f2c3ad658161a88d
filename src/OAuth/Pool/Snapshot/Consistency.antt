-- ===== src/OAuth/Pool/Snapshot/Consistency.antt =====
-- The counts and the accounts of a snapshot: Snapshot in internal/oauth/pool.go.
use droid_proxy.Prelude.{
  ◌+◌, ◌≡◌, refl, sym, ◌∙◌, Bool, List, [], ◌∷◌, if◌then◌else◌, arith, length, filter, count, map,
}
use droid_proxy.Prelude.Numbers.{Time}
use droid_proxy.Prelude.Sort.{sort, place, length-sort}
use droid_proxy.OAuth.Account.{AccountEntry, account_ineligible_reasons, is_eligible, by_label}
use droid_proxy.OAuth.Pool.{AccountPool, entries_of, eligible}
use droid_proxy.OAuth.Pool.Snapshot.{snapshot_from_entry, is_codex_entry, snapshot}

module _ {A : Type 0} (p : A → Bool) where
  count-place :
      (lt : A → A → Bool) (x : A) (ys : List A)
      → count p (place lt x ys) ≡ (if p x then 1 else 0) + count p ys
  unfolding place
  count-place lt x [] = ground arith
  count-place lt x (y ∷ ys) = ground (arith, count-place lt x ys)

  count-sort : (lt : A → A → Bool) (xs : List A) → count p (sort lt xs) ≡ count p xs
  unfolding sort
  count-sort lt [] = refl
  count-sort lt (x ∷ xs) = ground (arith, count-place lt x (sort lt xs), count-sort lt xs)

  count-filter : (xs : List A) → length (filter p xs) ≡ count p xs
  count-filter [] = refl
  count-filter (x ∷ xs) = ground (arith, count-filter xs)

  count-map : {B : Type 0} (f : B → A) (xs : List B) → count p (map f xs) ≡ count (λ x. p (f x)) xs
  count-map f [] = refl
  count-map f (x ∷ xs) = ground (arith, count-map f xs)

length-map : {A B : Type 0} (f : A → B) (xs : List A) → length (map f xs) ≡ length xs
length-map f [] = refl
length-map f (x ∷ xs) = omega (arith, length-map f xs)

-- Only Codex accounts are eligible.
count-codex :
    (now : Time) (es : List AccountEntry)
    → count (λ e. is_eligible e [] now) (filter is_codex_entry es)
      ≡ count (λ e. is_eligible e [] now) es
unfolding is_eligible account_ineligible_reasons
count-codex now [] = refl
count-codex now (e ∷ es) = ground (arith, count-codex now es)

-- A snapshot agrees with itself and with the selection: it lists as many accounts as it counts, it
-- counts as eligible as many as it lists as eligible, and these are as many as Select may choose
-- from when no account is excluded.
pub snapshot_consistent :
    (now : Time) (p : AccountPool)
    → let s = snapshot now p in
      (s.codex_accounts ≡ length s.accounts)
      × (s.eligible_count ≡ count (λ a. a.eligible) s.accounts)
      × (s.eligible_count ≡ length (eligible now [] p))
unfolding snapshot snapshot_from_entry eligible is_eligible
snapshot_consistent now p =
    let all = entries_of p.entries in
    let entries = sort by_label (filter is_codex_entry all) in
    let test = λ (e : AccountEntry). is_eligible e [] now in
    (
      sym (length-map (λ e. snapshot_from_entry e p.affinity now) entries),
      length-sort by_label (filter test all)
          ∙ count-filter test all
          ∙ sym (count-codex now all)
          ∙ sym (count-sort test by_label (filter is_codex_entry all))
          ∙ sym (count-map (λ a. a.eligible) (λ e. snapshot_from_entry e p.affinity now) entries),
      refl,
    )
