-- ===== src/Reasoning/Cache/Isolation.antt =====
-- Store and the entries of other keys: internal/reasoning/cache.go.
use Prim.Native.String.{len}
use droid_proxy.Prelude.{
  ℕ, zero, suc, ◌≡◌, ◌≢◌, refl, ◌⊎◌, inl, inr, not, ◌||◌, Option, none, some, [], ◌∷◌, String, ltb,
  arith, Bool-cases,
}
use droid_proxy.Prelude.Numbers.{Time}
use droid_proxy.Prelude.Texts.{is_blank}
use droid_proxy.Prelude.Maps.{lookup, lookup-insert, lookup-erase}
use droid_proxy.Reasoning.Cache.{
  Key, Entry, Entries, Cache, key_eq, is_valid, remove, drop_expired, is_over, oldest_key,
  evict_oldest, evict, put, store,
}
use droid_proxy.Reasoning.Cache.Eviction.{
  IsSound, remove-IsSound, put-IsSound, drop_expired-IsSound,
}

-- Nothing new under a key.
abbrev pub NothingNew : Option Entry → Option Entry → Type 0
NothingNew old new = (new ≡ none) ⊎ (new ≡ old)

remove-NothingNew :
    (k j : Key) (c : Cache)
    → IsSound c
    → NothingNew (lookup j c.entries) (lookup j (remove k c).entries)
unfolding remove
remove-NothingNew k j c s = ground (arith, lookup-erase k j c.entries s.is_map)

drop_expired-NothingNew :
    (now : Time) (j : Key) (m : Entries) (c : Cache)
    → IsSound c
    → NothingNew (lookup j c.entries) (lookup j (drop_expired now m c).entries)
unfolding drop_expired
drop_expired-NothingNew now j [] c s = inr refl
drop_expired-NothingNew now j ((k, e) ∷ m) c s = ground (
  arith,
  drop_expired-NothingNew now j m c s,
  drop_expired-NothingNew now j m (remove k c) (remove-IsSound k c s),
  remove-NothingNew k j c s,
)

evict_oldest-NothingNew :
    (fuel : ℕ) (j : Key) (c d : Cache)
    → IsSound c
    → evict_oldest fuel c ≡ some d
    → NothingNew (lookup j c.entries) (lookup j d.entries)
unfolding evict_oldest
evict_oldest-NothingNew zero j c d s e = ground arith
evict_oldest-NothingNew (suc fuel) j c d s e =
    let k = oldest_key c.entries in
    elim (Bool-cases (is_over c)) [
      | inr o ↦ ground arith
      | inl o ↦
          let h =
            evict_oldest-NothingNew fuel j (remove k c) d (remove-IsSound k c s) (ground arith) in
          ground (arith, h, remove-NothingNew k j c s)
    ]

evict-NothingNew :
    (now : Time) (j : Key) (c d : Cache)
    → IsSound c
    → evict now c ≡ some d
    → NothingNew (lookup j c.entries) (lookup j d.entries)
unfolding evict
evict-NothingNew now j c d s e = ground (
  arith,
  drop_expired-NothingNew now j c.entries c s,
  evict_oldest-NothingNew _ j (drop_expired now c.entries c) d
      (drop_expired-IsSound now c.entries c s) e,
)

-- A store under one key puts nothing under another: for every other key, be it of another session,
-- another credential or another turn, the cache then holds what it held, or nothing.
pub store-NothingNew :
    (now : Time) (key j : Key) (reasoning : String) (c d : Cache)
    → IsSound c
    → key ≢ j
    → store now key reasoning c ≡ some d
    → NothingNew (lookup j c.entries) (lookup j d.entries)
unfolding store put
store-NothingNew now key j reasoning c d s apart e =
    let entry : Entry = record { reasoning = reasoning; created_at = now } in
    elim (Bool-cases (is_blank reasoning || not (is_valid key))) [
      | inl b ↦ ground arith
      | inr b ↦ elim (Bool-cases (ltb c.max_bytes (len reasoning))) [
        | inl w ↦ ground arith
        | inr w ↦ ground (
          arith,
          evict-NothingNew now j (put now key reasoning c) d (put-IsSound now key reasoning c s)
              (ground arith),
          lookup-insert key j entry c.entries,
          key_eq.beq_iff key j,
        )
      ]
    ]
