-- ===== src/OAuth/Affinity/Limits.antt =====
-- The limits of the bindings: enforceMaxLocked and its callers in internal/oauth/affinity.go.
use droid_proxy.Prelude.{
  ℕ, zero, suc, ◌-◌, ◌≤◌, ◌<◌, ◌≡◌, refl, sym, subst, Bool, true, false, [], ◌∷◌, String, arith,
  eq_iff, length, is_none, filter, All, All-of_filter,
}
use droid_proxy.Prelude.Numbers.{Time}
use droid_proxy.Prelude.GoLibrary.{GoLibrary}
use droid_proxy.Prelude.Texts.{trim_space}
use droid_proxy.Prelude.Maps.{
  string_eq, lookup, insert, erase, lookup-erase, Lacks, IsMap, insert-IsMap, erase-IsMap,
  length-erase, length-erase-le, All-erase, All-found, sort-IsMap,
}
use droid_proxy.Prelude.Sort.{sort, All-sort, length-sort}
use droid_proxy.OAuth.Affinity.{
  AffinityRecord, Bindings, AffinityStore, empty_store, is_stale, by_age, erase_first, enforce_max,
  save, normalize_affinity_id, load_entries, new_affinity_store, unbind, bind, is_kept, prune,
}

-- Deleting one key leaves the others.
found_after_erase :
    (k : String) (m xs : Bindings)
    → IsMap m
    → Lacks k xs
    → All (λ x. is_none (lookup x.0 m) ≡ false) xs
    → All (λ x. is_none (lookup x.0 (erase k m)) ≡ false) xs
found_after_erase k m [] i l h = tt
found_after_erase k m ((j, r) ∷ xs) i (l, ls) (h, hs) =
    (ground (arith, lookup-erase k j m i, eq_iff k j), found_after_erase k m xs i ls hs)

length-erase_first :
    (n : ℕ) (xs m : Bindings)
    → IsMap m
    → IsMap xs
    → All (λ x. is_none (lookup x.0 m) ≡ false) xs
    → n ≤ length xs
    → length (erase_first n xs m) ≡ length m - n
unfolding erase_first
length-erase_first n [] m i j h l = omega arith
length-erase_first zero ((k, r) ∷ xs) m i j h l = omega arith
length-erase_first (suc n) ((k, r) ∷ xs) m i (j, js) (h, hs) l =
    let rest =
      length-erase_first n xs (erase k m) (erase-IsMap k m i) js (found_after_erase k m xs i j hs)
        (omega arith) in
    ground (arith, rest, length-erase k m h)

erase_first-All :
    (P : (String × AffinityRecord) → Type 0) (n : ℕ) (xs m : Bindings)
    → All P m
    → All P (erase_first n xs m)
unfolding erase_first
erase_first-All P n [] m h = h
erase_first-All P n (x ∷ xs) m h =
    ground (arith, h, erase_first-All P (n - 1) xs (erase x.0 m) (All-erase P x.0 m h))

erase_first-IsMap : (n : ℕ) (xs m : Bindings) → IsMap m → IsMap (erase_first n xs m)
unfolding erase_first
erase_first-IsMap n [] m h = h
erase_first-IsMap n (x ∷ xs) m h =
    ground (arith, h, erase_first-IsMap (n - 1) xs (erase x.0 m) (erase-IsMap x.0 m h))

-- Bindings with one record for each conversation, and no more of them than the limit.
pub record IsBounded (s : AffinityStore) : Type 0 where
  pub is_map : IsMap s.entries
  pub bounded : length s.entries ≤ s.max
  pub limited : 0 < s.max

enforce_max-IsBounded :
    (s : AffinityStore) → IsMap s.entries → 0 < s.max → IsBounded (enforce_max s)
unfolding enforce_max
enforce_max-IsBounded s i l =
    let xs = sort by_age s.entries in
    let shrunk =
      length-erase_first (length s.entries - s.max) xs s.entries i (sort-IsMap by_age s.entries i)
        (All-sort by_age _ s.entries (All-found s.entries i))
        (omega (arith, length-sort by_age s.entries)) in
    record {
      is_map = ground (arith, i, erase_first-IsMap (length s.entries - s.max) xs s.entries i);
      bounded = ground (arith, shrunk);
      limited = ground (arith, l);
    }

save-IsBounded : (written : Bool) (s : AffinityStore) → IsBounded s → IsBounded (save written s)
unfolding save
save-IsBounded true s b = record { is_map = b.is_map; bounded = b.bounded; limited = b.limited }
save-IsBounded false s b = b

filter-IsMap : (p : (String × AffinityRecord) → Bool) (m : Bindings) → IsMap m → IsMap (filter p m)
filter-IsMap p [] i = tt
filter-IsMap p ((k, r) ∷ m) (l, i) = ground (arith, filter-IsMap p m i, filter-Lacks p k m l)
  where
    filter-Lacks :
        (p : (String × AffinityRecord) → Bool) (k : String) (m : Bindings)
        → Lacks k m
        → Lacks k (filter p m)
    filter-Lacks p k [] l = tt
    filter-Lacks p k ((j, r) ∷ m) (l, ls) = ground (arith, l, filter-Lacks p k m ls)

pub save-entries : (written : Bool) (s : AffinityStore) → (save written s).entries ≡ s.entries
unfolding save
save-entries true s = refl
save-entries false s = refl

enforce_max-All :
    (P : (String × AffinityRecord) → Type 0) (s : AffinityStore)
    → All P s.entries
    → All P (enforce_max s).entries
unfolding enforce_max
enforce_max-All P s h =
    ground
      (arith, h, erase_first-All P (length s.entries - s.max) (sort by_age s.entries) s.entries h)

is_kept_lem :
    (valid : String → Bool) (ttl : ℕ) (now : Time) (x : String × AffinityRecord)
    → is_kept valid ttl now x ≡ true
    → (valid x.1.account_path ≡ true) × (is_stale ttl now x.1 ≡ false)
unfolding is_kept
is_kept_lem valid ttl now (k, r) h = ground arith

-- Pruning keeps only bindings to valid paths that have not expired, and no more than the limit.
prune-kept :
    (written : Bool) (now : Time) (s : AffinityStore) (valid : String → Bool)
    → IsBounded s
    → IsBounded (prune written now s valid)
      × All
          (λ x. (valid x.1.account_path ≡ true) × (is_stale s.ttl now x.1 ≡ false))
          (prune written now s valid).entries
unfolding prune
prune-kept written now s valid b =
    let kept = filter (is_kept valid s.ttl now) s.entries in
    let t : AffinityStore = record s { entries = kept } in
    (
      save-IsBounded written (enforce_max t)
          (enforce_max-IsBounded t (filter-IsMap _ s.entries b.is_map) b.limited),
      subst (All _) (sym (save-entries written (enforce_max t))) (
          enforce_max-All _ t
            (All-of_filter _ (is_kept valid s.ttl now) s.entries (kept_All s.entries))),
    )
  where
    kept_All :
        (m : Bindings)
        → All
            (λ x.
              is_kept valid s.ttl now x ≡ true
              → (valid x.1.account_path ≡ true) × (is_stale s.ttl now x.1 ≡ false))
            m
    kept_All [] = tt
    kept_All ((k, r) ∷ m) = (λ h. is_kept_lem valid s.ttl now (k, r) h, kept_All m)

module _ (go : GoLibrary) where
  load_entries-IsMap :
      (now : Time) (ttl : ℕ) (file m : Bindings) → IsMap m → IsMap (load_entries go now ttl file m)
  unfolding load_entries
  load_entries-IsMap now ttl [] m i = i
  load_entries-IsMap now ttl ((raw, r) ∷ file) m i =
      load_entries-IsMap now ttl file _
        (ground (arith, i, insert-IsMap (normalize_affinity_id go raw) r m i))

  -- The stores that come of a new one under the methods.
  pub data Reached : AffinityStore → Type 0 where
    opened :
        (now : Time) (ttl max : ℕ) (file : Bindings)
        → Reached (new_affinity_store go now ttl max file)
    bound :
        (written : Bool) (now : Time) (conversation account : String) {s : AffinityStore}
        → Reached s
        → Reached (bind go written now s conversation account)
    unbound :
        (written : Bool) (conversation : String) {s : AffinityStore}
        → Reached s
        → Reached (unbind go written s conversation)
    pruned :
        (written : Bool) (now : Time) (valid : String → Bool) {s : AffinityStore}
        → Reached s
        → Reached (prune written now s valid)

  -- The store never holds more bindings than its limit, nor two for one conversation: after it is
  -- loaded from whatever file, and under every sequence of Bind, Unbind and Prune, whether or not
  -- the file can be written.
  pub Reached-IsBounded : {s : AffinityStore} → Reached s → IsBounded s
  unfolding new_affinity_store empty_store bind unbind
  Reached-IsBounded (opened now ttl max file) =
      let e = empty_store ttl max file in
      let t : AffinityStore = record e { entries = load_entries go now e.ttl file [] } in
      enforce_max-IsBounded t (load_entries-IsMap now e.ttl file [] tt) (ground arith)
  Reached-IsBounded (bound written now conversation account {s} r) =
      let b = Reached-IsBounded r in
      let id = normalize_affinity_id go conversation in
      let x : AffinityRecord = record { account_path = trim_space account; updated_at = now } in
      let t : AffinityStore = record s { entries = insert id x s.entries } in
      ground (
        arith,
        b,
        save-IsBounded written (enforce_max t)
            (enforce_max-IsBounded t (insert-IsMap id x s.entries b.is_map) b.limited),
      )
  Reached-IsBounded (unbound written conversation {s} r) =
      let b = Reached-IsBounded r in
      let id = normalize_affinity_id go conversation in
      let t : AffinityStore = record s { entries = erase id s.entries } in
      let c : IsBounded t = record {
        is_map = erase-IsMap id s.entries b.is_map;
        bounded = omega (arith, length-erase-le id s.entries, b.bounded);
        limited = b.limited;
      } in
      ground (arith, b, save-IsBounded written t c)
  Reached-IsBounded (pruned written now valid {s} r) =
      (prune-kept written now s valid (Reached-IsBounded r)).0
