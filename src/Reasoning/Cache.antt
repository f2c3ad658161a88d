-- ===== src/Reasoning/Cache.antt =====
-- The cache of reasoning texts: internal/reasoning/cache.go. Each method is one step; `Lookup` drops
-- its read lock before it takes the write lock for an expired entry, and is one step here too.
pub mod Eviction
pub mod Isolation
pub mod Retention
mod Tests
use Prim.Native.String.{len}
use droid_proxy.Prelude.{
  ℕ, zero, suc, ◌+◌, ◌-◌, ◌≤◌, ◌<◌, ◌≡◌, subst, eq_refl, ◌↔◌, Bool, true, false, not, ◌&&◌, ◌||◌,
  Option, none, some, List, [], ◌∷◌, String, ltb, ◌==◌, if◌then◌else◌, arith, str_eq, eq_iff,
  length,
}
use droid_proxy.Prelude.Numbers.{Time, is_before, elapsed}
use droid_proxy.Prelude.Texts.{is_blank}
use droid_proxy.Prelude.Maps.{Eq, lookup, insert, erase}

pub record Scope : Type 0 where
  pub provider : String
  pub auth_hash : String
  pub model : String
  pub base_url : String
  pub session : String
  pub thinking_mode : String

pub record Key : Type 0 where
  pub scope : Scope
  pub tool_call_ids : String
  pub turn_hash : String

abbrev scope_eq : Scope → Scope → Bool
scope_eq a b =
    str_eq a.provider b.provider
    && str_eq a.auth_hash b.auth_hash
    && str_eq a.model b.model
    && str_eq a.base_url b.base_url
    && str_eq a.session b.session
    && str_eq a.thinking_mode b.thinking_mode

abbrev same_key : Key → Key → Bool
same_key a b =
    scope_eq a.scope b.scope
    && str_eq a.tool_call_ids b.tool_call_ids
    && str_eq a.turn_hash b.turn_hash

same_key_self : (a : Key) → same_key a a ≡ true
same_key_self a = ground (
  eq_refl a.scope.provider,
  eq_refl a.scope.auth_hash,
  eq_refl a.scope.model,
  eq_refl a.scope.base_url,
  eq_refl a.scope.session,
  eq_refl a.scope.thinking_mode,
  eq_refl a.tool_call_ids,
  eq_refl a.turn_hash,
  arith,
)

pub same_key_iff : (a b : Key) → (same_key a b ≡ true) ↔ (a ≡ b)
same_key_iff a b = (
  λ h. ground (
    arith,
    eq_iff a.scope.provider b.scope.provider,
    eq_iff a.scope.auth_hash b.scope.auth_hash,
    eq_iff a.scope.model b.scope.model,
    eq_iff a.scope.base_url b.scope.base_url,
    eq_iff a.scope.session b.scope.session,
    eq_iff a.scope.thinking_mode b.scope.thinking_mode,
    eq_iff a.tool_call_ids b.tool_call_ids,
    eq_iff a.turn_hash b.turn_hash,
  ),
  λ e. subst (λ k. same_key a k ≡ true) e (same_key_self a),
)

instance abbrev pub key_eq : Eq Key
key_eq = record { beq = same_key; beq_iff = same_key_iff }

-- Key.valid.
unfoldable pub is_valid : Key → Bool
is_valid k =
    not (str_eq k.scope.provider "")
    && not (str_eq k.scope.auth_hash "")
    && not (str_eq k.scope.model "")
    && not (str_eq k.scope.base_url "")
    && not (str_eq k.scope.session "")
    && (not (str_eq k.tool_call_ids "") || not (str_eq k.turn_hash ""))

pub record Entry : Type 0 where
  pub reasoning : String
  pub created_at : Time

abbrev pub Entries : Type 0
Entries = List (Key × Entry)

-- The bytes are counted by an int in the source; here a subtraction stops at 0.
pub record Cache : Type 0 where
  pub ttl : ℕ
  pub max_entries : ℕ
  pub max_bytes : ℕ
  pub bytes : ℕ
  pub entries : Entries

-- NewCache; 0 stands for every value that is not positive.
unfoldable pub new_cache : ℕ → ℕ → Cache
new_cache max_entries ttl = record {
  ttl = if ttl == 0 then 1_800_000_000_000 else ttl;
  max_entries = if max_entries == 0 then 1024 else max_entries;
  max_bytes = 67_108_864;
  bytes = 0;
  entries = [];
}

abbrev pub size_of : Option Entry → ℕ
size_of none = 0
size_of (some e) = len e.reasoning

-- `now.Sub(e.createdAt) > c.ttl`.
abbrev pub is_expired : ℕ → Time → Entry → Bool
is_expired ttl now e = ltb ttl (elapsed now e.created_at)

-- `c.bytes -= len(e.reasoning)` and `delete(c.entries, key)`.
unfoldable pub remove : Key → Cache → Cache
remove key c = record c {
  bytes = c.bytes - size_of (lookup key c.entries);
  entries = erase key c.entries;
}

-- The first loop of evictLocked, over the entries in the order of its range.
unfoldable pub drop_expired : Time → Entries → Cache → Cache
drop_expired now [] c = c
drop_expired now ((k, e) ∷ m) c =
    drop_expired now m (if is_expired c.ttl now e then remove k c else c)

-- The inner loop of evictLocked: the key of the first of the oldest entries.
unfoldable pub oldest : Key → Time → Entries → Key
oldest key at [] = key
oldest key at ((k, e) ∷ m) =
    if is_before e.created_at at then oldest k e.created_at m else oldest key at m

abbrev pub is_over : Cache → Bool
is_over c = ltb c.max_entries (length c.entries) || ltb c.max_bytes c.bytes

abbrev no_key : Key
no_key = record {
  scope = record {
    provider = "";
    auth_hash = "";
    model = "";
    base_url = "";
    session = "";
    thinking_mode = "";
  };
  tool_call_ids = "";
  turn_hash = "";
}

abbrev oldest_key : Entries → Key
oldest_key [] = no_key
oldest_key ((k, e) ∷ m) = oldest k e.created_at m

-- The second loop of evictLocked. `none` is out of fuel: on an empty cache that is over its limits
-- the loop does not end.
unfoldable pub evict_oldest : ℕ → Cache → Option Cache
evict_oldest zero c = if is_over c then none else some c
evict_oldest (suc fuel) c =
    let rest = evict_oldest fuel (remove (oldest_key c.entries) c) in
    if is_over c then rest else some c

-- evictLocked, with a round for each entry.
unfoldable pub evict : Time → Cache → Option Cache
evict now c = let d = drop_expired now c.entries c in evict_oldest (length d.entries) d

-- The entry put in its place, before the eviction.
unfoldable pub put : Time → Key → String → Cache → Cache
put now key reasoning c = record c {
  bytes = c.bytes - size_of (lookup key c.entries) + len reasoning;
  entries = insert key (record { reasoning = reasoning; created_at = now }) c.entries;
}

-- Store.
unfoldable pub store : Time → Key → String → Cache → Option Cache
store now key reasoning c =
    if is_blank reasoning || not (is_valid key)
    then some c
    else if ltb c.max_bytes (len reasoning)
    then some c
    else evict now (put now key reasoning c)

abbrev found : Time → Key → Cache → Option Entry → Option String × Cache
found now key c none = (none, c)
found now key c (some e) =
    if is_expired c.ttl now e then (none, remove key c) else (some e.reasoning, c)

-- Lookup.
unfoldable pub look_up : Time → Key → Cache → Option String × Cache
look_up now key c = if not (is_valid key) then (none, c) else found now key c (lookup key c.entries)
