-- ===== src/OAuth/Affinity.antt =====
-- The conversation-to-account bindings: internal/oauth/affinity.go. The file is modelled by the map
-- that it holds; each write to it is told whether it succeeds.
pub mod Limits
pub mod Binding
mod Tests
use Prim.Native.String.{len}
use droid_proxy.Prelude.{
  ℕ, ◌-◌, Bool, not, ◌&&◌, ◌||◌, Option, none, some, List, [], ◌∷◌, String, ltb, leb, ◌==◌,
  if◌then◌else◌, str_eq, length, filter, count, is_none,
}
use Prim.Native.String.{◌++◌}
use droid_proxy.Prelude.Numbers.{Time, is_before, elapsed}
use droid_proxy.Prelude.GoLibrary.{GoLibrary}
use droid_proxy.Prelude.Texts.{trim_space, is_blank}
use droid_proxy.Prelude.Maps.{string_eq, lookup, insert, erase}
use droid_proxy.Prelude.Sort.{sort}

pub record AffinityRecord : Type 0 where
  pub account_path : String
  pub updated_at : Time

abbrev pub Bindings : Type 0
Bindings = List (String × AffinityRecord)

pub record AffinityStore : Type 0 where
  pub entries : Bindings
  pub ttl : ℕ
  pub max : ℕ
  pub disk : Bindings

-- The options are durations and counts, where what is not positive means the default.
unfoldable pub empty_store : ℕ → ℕ → Bindings → AffinityStore
empty_store ttl max disk = record {
  entries = [];
  ttl = if ttl == 0 then 2_592_000_000_000_000 else ttl;
  max = if max == 0 then 10_000 else max;
  disk = disk;
}

-- `s.ttl > 0 && !rec.UpdatedAt.IsZero() && now.Sub(rec.UpdatedAt) > s.ttl`.
unfoldable pub is_stale : ℕ → Time → AffinityRecord → Bool
is_stale ttl now r = ltb 0 ttl && not (r.updated_at == 0) && ltb ttl (elapsed now r.updated_at)

abbrev by_age : (String × AffinityRecord) → (String × AffinityRecord) → Bool
by_age (i, a) (j, b) = is_before a.updated_at b.updated_at

-- Delete the keys of the first `n` of a list.
unfoldable pub erase_first : ℕ → Bindings → Bindings → Bindings
erase_first n [] m = m
erase_first n (x ∷ xs) m = if n == 0 then m else erase_first (n - 1) xs (erase x.0 m)

unfoldable pub enforce_max : AffinityStore → AffinityStore
enforce_max s = if s.max == 0 || leb (length s.entries) s.max then s else record s {
  entries = erase_first (length s.entries - s.max) (sort by_age s.entries) s.entries;
}

unfoldable pub save : Bool → AffinityStore → AffinityStore
save written s = if written then record s { disk = s.entries } else s

module _ (go : GoLibrary) where
  unfoldable pub normalize_affinity_id : String → String
  normalize_affinity_id id =
      let t = trim_space id in if leb (len t) 256 then t else "sha256:" ++ go.sha256_hex t

  -- The loop of load, over the entries that the file holds.
  unfoldable pub load_entries : Time → ℕ → Bindings → Bindings → Bindings
  load_entries now ttl [] m = m
  load_entries now ttl ((raw, r) ∷ file) m =
      let id = normalize_affinity_id raw in
      load_entries now ttl file
        (if str_eq id "" || is_blank r.account_path || is_stale ttl now r then m else insert id r m)

  unfoldable pub new_affinity_store : Time → ℕ → ℕ → Bindings → AffinityStore
  new_affinity_store now ttl max disk =
      let s = empty_store ttl max disk in
      enforce_max (record s { entries = load_entries now s.ttl disk [] })

  -- `""` stands for no binding.
  abbrev path_of : Option AffinityRecord → String
  path_of none = ""
  path_of (some r) = r.account_path

  unfoldable pub bound_path : AffinityStore → String → String
  bound_path s conversation =
      let id = normalize_affinity_id conversation in
      if str_eq id "" then "" else path_of (lookup id s.entries)

  unfoldable pub unbind : Bool → AffinityStore → String → AffinityStore
  unbind written s conversation =
      let id = normalize_affinity_id conversation in
      if str_eq id "" || is_none (lookup id s.entries)
      then s
      else save written (record s { entries = erase id s.entries })

  unfoldable pub bind : Bool → Time → AffinityStore → String → String → AffinityStore
  bind written now s conversation account =
      let id = normalize_affinity_id conversation in
      let path = trim_space account in
      if str_eq id "" || str_eq path ""
      then s
      else save written (
          enforce_max (record s {
            entries = insert id (record { account_path = path; updated_at = now }) s.entries;
          }))

-- The loop of Prune: what stays is bound to a valid path and is not stale. A nil set of valid paths
-- makes every path valid.
unfoldable pub is_kept : (String → Bool) → ℕ → Time → (String × AffinityRecord) → Bool
is_kept valid ttl now (id, r) = valid r.account_path && not (is_stale ttl now r)

unfoldable pub prune : Bool → Time → AffinityStore → (String → Bool) → AffinityStore
prune written now s valid =
    save written (enforce_max (record s { entries = filter (is_kept valid s.ttl now) s.entries }))

unfoldable pub bound_count_for_path : AffinityStore → String → ℕ
bound_count_for_path s path = count (λ x. str_eq x.1.account_path path) s.entries
