-- ===== src/Reasoning/Cache/Retention.antt =====
-- Store and then Lookup: internal/reasoning/cache.go.
use Prim.Native.String.{len}
use droid_proxy.Prelude.{
  ℕ, zero, suc, ◌≤◌, ◌<◌, ◌≡◌, ◌≢◌, refl, sym, ap, subst, ◌∙◌, ◌⊎◌, inl, inr, true, false, Option,
  none, some, [], ◌∷◌, String, ltb, arith, length, All, Bool-cases, Option-cases,
}
use droid_proxy.Prelude.Numbers.{Time, elapsed}
use droid_proxy.Prelude.Texts.{is_blank}
use droid_proxy.Prelude.Maps.{lookup, insert, lookup-insert, lookup-erase, Lacks, IsMap, All-erase}
use droid_proxy.Reasoning.Cache.{
  Key, Entry, Entries, Cache, key_eq, is_valid, remove, drop_expired, oldest, is_over, oldest_key,
  evict_oldest, evict, put, store, look_up,
}
use droid_proxy.Reasoning.Cache.Eviction.{IsSound, weight, evict_total, remove-IsSound, put-IsSound}

-- The entry of `key` is of `now`, and every other is older.
abbrev Older : Key → Time → Entries → Type 0
Older key now m =
    All (λ x. ((x.0 ≢ key) × (x.1.created_at < now)) ⊎ ((x.0 ≡ key) × (x.1.created_at ≡ now))) m

-- The text of `key` is in the cache since `now`, and is its newest.
record IsNewest (now : Time) (key : Key) (reasoning : String) (c : Cache) : Type 0 where
  sound : IsSound c
  stored : lookup key c.entries ≡ some (record { reasoning = reasoning; created_at = now })
  older : Older key now c.entries
  fits : len reasoning ≤ c.max_bytes
  has_room : 0 < c.max_entries

Lacks-Older :
    (now : Time) (key j : Key) (m : Entries)
    → j ≡ key
    → Lacks j m
    → All (λ x. x.1.created_at < now) m
    → Older key now m
Lacks-Older now key j [] e l h = tt
Lacks-Older now key j ((i, f) ∷ m) e (l, ls) (h, hs) =
    (inl (λ same. l (same ∙ sym e), h), Lacks-Older now key j m e ls hs)

insert-Older :
    (now : Time) (key : Key) (e : Entry) (m : Entries)
    → e.created_at ≡ now
    → IsMap m
    → All (λ x. x.1.created_at < now) m
    → Older key now (insert key e m)
unfolding insert
insert-Older now key e [] t i h = (inr (refl, t), tt)
insert-Older now key e ((j, f) ∷ m) t (l, i) (p, h) = elim (Bool-cases (key_eq.beq j key)) [
  | inl b ↦ ground (arith, t, Lacks-Older now key j m ((key_eq.beq_iff j key).0 b) l h)
  | inr b ↦ ground (arith, p, key_eq.beq_iff j key, insert-Older now key e m t i h)
]

remove-IsNewest :
    (now : Time) (key : Key) (reasoning : String) (k : Key) (c : Cache)
    → k ≢ key
    → IsNewest now key reasoning c
    → IsNewest now key reasoning (remove k c)
unfolding remove
remove-IsNewest now key reasoning k c apart n = record {
  sound = remove-IsSound k c n.sound;
  stored =
      ground (arith, lookup-erase k key c.entries n.sound.is_map, key_eq.beq_iff k key, n.stored);
  older = All-erase _ k c.entries n.older;
  fits = n.fits;
  has_room = n.has_room;
}

-- Past an entry older than `now`, the key of `now` is not the oldest.
oldest-apart :
    (now : Time) (key k : Key) (at : Time) (m : Entries)
    → k ≢ key
    → at < now
    → Older key now m
    → oldest k at m ≢ key
unfolding oldest
oldest-apart now key k at [] a l o = a
oldest-apart now key k at ((j, e) ∷ m) a l (inr (same, t), os) =
    ground (arith, oldest-apart now key k at m a l os)
oldest-apart now key k at ((j, e) ∷ m) a l (inl (b, t), os) =
    ground (arith, oldest-apart now key k at m a l os, oldest-apart now key j e.created_at m b t os)

abbrev reasoning_of : String → Option Entry → String
reasoning_of default none = default
reasoning_of default (some e) = e.reasoning

single-reasoning :
    (key k : Key) (e x : Entry) → lookup key ((k, e) ∷ []) ≡ some x → e.reasoning ≡ x.reasoning
unfolding lookup
single-reasoning key k e x h = elim (Bool-cases (key_eq.beq k key)) [
  | inl b ↦ let g : some e ≡ some x = ground arith in ap (reasoning_of "") g
  | inr b ↦ absurd (ground arith)
]

-- A cache of the newest text alone is within its limits.
single-is_over :
    (now : Time) (key : Key) (reasoning : String) (c : Cache) (k : Key) (e : Entry)
    → IsNewest now key reasoning c
    → c.entries ≡ (k, e) ∷ []
    → is_over c ≡ false
single-is_over now key reasoning c k e n same =
    let x : Entry = record { reasoning = reasoning; created_at = now } in
    let same_text = single-reasoning key k e x (subst (λ m. lookup key m ≡ some x) same n.stored) in
    let weighed : c.bytes ≡ weight ((k, e) ∷ []) = n.sound.weighed ∙ ap weight same in
    let one : length c.entries ≡ 1 = ap length same in
    let size : len e.reasoning ≡ len reasoning = ap len same_text in
    ground (arith, n.fits, n.has_room)

empty-stored :
    (now : Time) (key : Key) (reasoning : String) (c : Cache)
    → IsNewest now key reasoning c
    → c.entries ≢ []
unfolding lookup
empty-stored now key reasoning c n e =
    let x : Entry = record { reasoning = reasoning; created_at = now } in
    let h : none ≡ some x = subst (λ m. lookup key m ≡ some x) e n.stored in cc

-- While the cache is over its limits, the oldest entry is not the newest one.
oldest_key-apart :
    (now : Time) (key : Key) (reasoning : String) (c : Cache) (m : Entries)
    → IsNewest now key reasoning c
    → c.entries ≡ m
    → is_over c ≡ true
    → oldest_key m ≢ key
unfolding oldest
oldest_key-apart now key reasoning c m n same o =
    by_entries m same (subst (Older key now) same n.older) (subst IsMap same n.sound.is_map)
  where
    by_entries : (m : Entries) → c.entries ≡ m → Older key now m → IsMap m → oldest_key m ≢ key
    by_entries [] s h i = absurd (empty-stored now key reasoning c n s)
    by_entries ((k, e) ∷ m) s (inl (a, l), hs) i = oldest-apart now key k e.created_at m a l hs
    by_entries ((k, e) ∷ []) s (inr (a, t), hs) i =
        absurd (cc (single-is_over now key reasoning c k e n s, o))
    by_entries ((k, e) ∷ (j, f) ∷ m) s (inr (a, t), (inr (b, u), hs)) ((l, ls), i) =
        absurd (l (b ∙ sym a))
    by_entries ((k, e) ∷ (j, f) ∷ m) s (inr (a, t), (inl (b, u), hs)) ((l, ls), i) =
        ground (arith, oldest-apart now key j f.created_at m b u hs)

evict_oldest-stored :
    (fuel : ℕ) (now : Time) (key : Key) (reasoning : String) (c d : Cache)
    → IsNewest now key reasoning c
    → evict_oldest fuel c ≡ some d
    → lookup key d.entries ≡ some (record { reasoning = reasoning; created_at = now })
unfolding evict_oldest
evict_oldest-stored zero now key reasoning c d n e = ground (arith, n.stored)
evict_oldest-stored (suc fuel) now key reasoning c d n e = elim (Bool-cases (is_over c)) [
  | inr o ↦ ground (arith, n.stored)
  | inl o ↦
      let k = oldest_key c.entries in
      evict_oldest-stored fuel now key reasoning (remove k c) d
        (remove-IsNewest now key reasoning k c
          (oldest_key-apart now key reasoning c c.entries n refl o) n)
        (ground arith)
]

-- An entry of `now` has not expired.
drop_expired-IsNewest :
    (now : Time) (key : Key) (reasoning : String) (m : Entries) (c : Cache)
    → Older key now m
    → IsNewest now key reasoning c
    → IsNewest now key reasoning (drop_expired now m c)
unfolding drop_expired
drop_expired-IsNewest now key reasoning [] c o n = n
drop_expired-IsNewest now key reasoning ((k, e) ∷ m) c (inr (same, t), os) n =
    drop_expired-IsNewest now key reasoning m _ os (ground (arith, n))
drop_expired-IsNewest now key reasoning ((k, e) ∷ m) c (inl (apart, t), os) n =
    drop_expired-IsNewest now key reasoning m _ os
      (ground (arith, n, remove-IsNewest now key reasoning k c apart n))

put-IsNewest :
    (now : Time) (key : Key) (reasoning : String) (c : Cache)
    → IsSound c
    → All (λ x. x.1.created_at < now) c.entries
    → len reasoning ≤ c.max_bytes
    → 0 < c.max_entries
    → IsNewest now key reasoning (put now key reasoning c)
unfolding put
put-IsNewest now key reasoning c s o f r =
    let x : Entry = record { reasoning = reasoning; created_at = now } in
    record {
      sound = put-IsSound now key reasoning c s;
      stored = ground (arith, lookup-insert key key x c.entries, key_eq.beq_iff key key);
      older = insert-Older now key x c.entries refl s.is_map o;
      fits = f;
      has_room = r;
    }

put-ttl :
    (now : Time) (key : Key) (reasoning : String) (c : Cache)
    → (put now key reasoning c).ttl ≡ c.ttl
unfolding put
put-ttl now key reasoning c = refl

abbrev cache_or : Cache → Option Cache → Cache
cache_or d none = d
cache_or d (some c) = c

evict-ttl : (now : Time) (c d : Cache) → IsSound c → evict now c ≡ some d → d.ttl ≡ c.ttl
evict-ttl now c d s e =
    let (x, f, t, o, l) = evict_total now c s in
    let same : some x ≡ some d = sym f ∙ e in ap (λ y. y.ttl) (sym (ap (cache_or c) same)) ∙ l.0

-- A text just stored is found until its time to live is over, if nothing else is done meanwhile,
-- however full the cache was: eviction makes room for it by older entries, if every entry is older,
-- the key is valid, the text is not blank and fits, and the cache has room for an entry at all.
pub look_up-store :
    (now later : Time) (key : Key) (reasoning : String) (c d : Cache)
    → IsSound c
    → All (λ x. x.1.created_at < now) c.entries
    → len reasoning ≤ c.max_bytes
    → 0 < c.max_entries
    → is_valid key ≡ true
    → is_blank reasoning ≡ false
    → elapsed later now ≤ c.ttl
    → store now key reasoning c ≡ some d
    → look_up later key d ≡ (some reasoning, d)
unfolding store evict look_up
look_up-store now later key reasoning c d s o f r v b l e =
    let p = put now key reasoning c in
    let n = put-IsNewest now key reasoning c s o f r in
    let w : ltb c.max_bytes (len reasoning) ≡ false = ground arith in
    let evicted : evict now p ≡ some d = ground arith in
    let ttl : d.ttl ≡ c.ttl = evict-ttl now p d n.sound evicted ∙ put-ttl now key reasoning c in
    let stored =
      evict_oldest-stored (length (drop_expired now p.entries p).entries) now key reasoning
        (drop_expired now p.entries p) d
        (drop_expired-IsNewest now key reasoning p.entries p n.older n) (ground arith) in
    ground (arith, stored, ttl, l)

-- A lookup finds a text only if it stands in the cache under the very key, and for no longer than
-- the time to live.
look_up_fresh :
    (now : Time) (key : Key) (c : Cache) (reasoning : String)
    → (look_up now key c).0 ≡ some reasoning
    → (e : Entry) × (lookup key c.entries ≡ some e)
      × (e.reasoning ≡ reasoning)
      × (elapsed now e.created_at ≤ c.ttl)
unfolding look_up
look_up_fresh now key c reasoning h = elim (Option-cases (lookup key c.entries)) [
  | inl n ↦ absurd (ground arith)
  | inr (e, n) ↦ (e, n, ground arith, ground arith)
]
