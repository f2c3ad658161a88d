-- ===== src/Reasoning/Cache/Eviction.antt =====
-- The limits of the cache: evictLocked and Store in internal/reasoning/cache.go.
use Prim.Native.String.{len}
use droid_proxy.Prelude.{
  ℕ, zero, suc, ◌+◌, ◌≤◌, ◌<◌, ◌≡◌, refl, ◌∙◌, inl, inr, true, false, not, ◌||◌, some, [], ◌∷◌,
  String, ltb, arith, length, is_none, All, All-map_prop, Bool-cases,
}
use droid_proxy.Prelude.Numbers.{Time}
use droid_proxy.Prelude.Texts.{is_blank}
use droid_proxy.Prelude.Maps.{
  lookup, insert, erase, IsMap, insert-IsMap, erase-IsMap, All-lookup, length-erase,
}
use droid_proxy.Reasoning.Cache.{
  Key, Entry, Entries, Cache, key_eq, is_valid, size_of, remove, drop_expired, oldest, is_over,
  oldest_key, evict_oldest, evict, put, store,
}

abbrev pub weight : Entries → ℕ
weight [] = 0
weight ((k, e) ∷ m) = len e.reasoning + weight m

weight-erase : (k : Key) (m : Entries) → weight (erase k m) + size_of (lookup k m) ≡ weight m
unfolding erase lookup
weight-erase k [] = omega arith
weight-erase k ((j, e) ∷ m) = ground (arith, weight-erase k m)

weight-insert :
    (k : Key) (e : Entry) (m : Entries)
    → weight (insert k e m) + size_of (lookup k m) ≡ weight m + len e.reasoning
unfolding insert lookup
weight-insert k e [] = omega arith
weight-insert k e ((j, f) ∷ m) = ground (arith, weight-insert k e m)

-- A cache whose count of bytes is the text that it holds.
pub record IsSound (c : Cache) : Type 0 where
  pub is_map : IsMap c.entries
  pub weighed : c.bytes ≡ weight c.entries

pub remove-IsSound : (k : Key) (c : Cache) → IsSound c → IsSound (remove k c)
unfolding remove
remove-IsSound k c s = record {
  is_map = erase-IsMap k c.entries s.is_map;
  weighed = omega (arith, s.weighed, weight-erase k c.entries);
}

pub put-IsSound :
    (now : Time) (k : Key) (reasoning : String) (c : Cache)
    → IsSound c
    → IsSound (put now k reasoning c)
unfolding put
put-IsSound now k reasoning c s =
    let e : Entry = record { reasoning = reasoning; created_at = now } in
    record {
      is_map = insert-IsMap k e c.entries s.is_map;
      weighed = omega (arith, s.weighed, weight-insert k e c.entries, weight-erase k c.entries);
    }

pub drop_expired-IsSound :
    (now : Time) (m : Entries) (c : Cache) → IsSound c → IsSound (drop_expired now m c)
unfolding drop_expired
drop_expired-IsSound now [] c s = s
drop_expired-IsSound now ((k, e) ∷ m) c s =
    drop_expired-IsSound now m _ (ground (arith, s, remove-IsSound k c s))

-- The limits stay what they are.
abbrev pub Limits : Cache → Cache → Type 0
Limits c d = (d.ttl ≡ c.ttl) × (d.max_entries ≡ c.max_entries) × (d.max_bytes ≡ c.max_bytes)

pub drop_expired-Limits : (now : Time) (m : Entries) (c : Cache) → Limits c (drop_expired now m c)
unfolding drop_expired remove
drop_expired-Limits now [] c = (refl, refl, refl)
drop_expired-Limits now ((k, e) ∷ m) c =
    ground (arith, drop_expired-Limits now m c, drop_expired-Limits now m (remove k c))

pub oldest-All :
    (P : Key → Type 0) (k : Key) (at : Time) (m : Entries)
    → P k
    → All (λ x. P x.0) m
    → P (oldest k at m)
unfolding oldest
oldest-All P k at [] p h = p
oldest-All P k at ((j, e) ∷ m) p (q, h) =
    ground (arith, oldest-All P j e.created_at m q h, oldest-All P k at m p h)

oldest_key-lookup :
    (m : Entries) → IsMap m → 0 < length m → is_none (lookup (oldest_key m) m) ≡ false
oldest_key-lookup [] i h = absurd (omega arith)
oldest_key-lookup ((k, e) ∷ m) i h =
    let (p, ps) = All-lookup ((k, e) ∷ m) i in
    oldest-All (λ x. is_none (lookup x ((k, e) ∷ m)) ≡ false) k e.created_at m (rw p refl)
      (All-map_prop _ _ m (λ x q. rw q refl) ps)

empty-weight : (m : Entries) → length m ≡ 0 → weight m ≡ 0
empty-weight [] h = refl
empty-weight (x ∷ m) h = absurd (omega arith)

-- What is over its limits holds an entry.
over_length : (c : Cache) → IsSound c → is_over c ≡ true → 0 < length c.entries
over_length c s h = ground (arith, s.weighed, empty-weight c.entries)

length-remove :
    (k : Key) (c : Cache) {fuel : ℕ}
    → suc (length (erase k c.entries)) ≡ length c.entries
    → length c.entries ≤ suc fuel
    → length (remove k c).entries ≤ fuel
unfolding remove
length-remove k c e h = omega arith

Limits-trans : (a b c : Cache) → Limits a b → Limits b c → Limits a c
Limits-trans a b c (p, q, r) (x, y, z) = (x ∙ p, y ∙ q, z ∙ r)

pub evict_oldest_total :
    (fuel : ℕ) (c : Cache)
    → IsSound c
    → length c.entries ≤ fuel
    → (d : Cache) × (evict_oldest fuel c ≡ some d) × IsSound d × (is_over d ≡ false) × Limits c d
unfolding evict_oldest remove
evict_oldest_total zero c s h =
    let fits : is_over c ≡ false = elim (Bool-cases (is_over c)) [
      | inl o ↦ absurd (omega (arith, over_length c s o))
      | inr o ↦ o
    ] in
    (c, ground arith, s, fits, (refl, refl, refl))
evict_oldest_total (suc fuel) c s h = elim (Bool-cases (is_over c)) [
  | inr o ↦ (c, ground arith, s, o, (refl, refl, refl))
  | inl o ↦
      let k = oldest_key c.entries in
      let shorter =
        length-erase k c.entries (oldest_key-lookup c.entries s.is_map (over_length c s o)) in
      let (d, e, t, f, l) =
        evict_oldest_total fuel (remove k c) (remove-IsSound k c s) (length-remove k c shorter h) in
      (d, ground arith, t, f, l)
]

-- What the first loop of an eviction leaves.
abbrev fresh : Time → Cache → Cache
fresh now c = drop_expired now c.entries c

pub evict_total :
    (now : Time) (c : Cache)
    → IsSound c
    → (d : Cache) × (evict now c ≡ some d) × IsSound d × (is_over d ≡ false) × Limits c d
unfolding evict
evict_total now c s =
    let (d, e, t, f, l) =
      evict_oldest_total (length (fresh now c).entries) (fresh now c)
        (drop_expired-IsSound now c.entries c s) (omega arith) in
    (d, e, t, f, Limits-trans c (fresh now c) d (drop_expired-Limits now c.entries c) l)

-- Store always comes to an end and leaves a cache whose byte count is the length of the texts that
-- it holds, and that is within its limits on entries and on bytes, if it was given such a cache.
pub store-IsSound :
    (now : Time) (key : Key) (reasoning : String) (c : Cache)
    → IsSound c
    → is_over c ≡ false
    → (d : Cache) × (store now key reasoning c ≡ some d) × IsSound d × (is_over d ≡ false)
unfolding store
store-IsSound now key reasoning c s f =
    let (d, e, t, g, l) =
      evict_total now (put now key reasoning c) (put-IsSound now key reasoning c s) in
    elim (Bool-cases (is_blank reasoning || not (is_valid key))) [
      | inl b ↦ (c, ground arith, s, f)
      | inr b ↦ elim (Bool-cases (ltb c.max_bytes (len reasoning))) [
        | inl w ↦ (c, ground arith, s, f)
        | inr w ↦ (d, ground arith, t, g)
      ]
    ]
