-- ===== src/Reasoning/Cache/Tests.antt =====
-- The cache of reasoning texts at concrete caches.
use droid_proxy.Prelude.{
  ℕ, ◌≤◌, ◌<◌, ◌≡◌, ◌≢◌, refl, true, false, Option, none, some, List, [], ◌∷◌, String, arith, All,
}
use droid_proxy.Prelude.Maps.{beq-apart, lookup, IsMap}
use droid_proxy.Reasoning.Cache.{
  Scope, Key, Entry, Cache, key_eq, new_cache, store, look_up, is_over,
}
use droid_proxy.Reasoning.Cache.Eviction.{IsSound, store-IsSound}
use droid_proxy.Reasoning.Cache.Isolation.{NothingNew, store-NothingNew}
use droid_proxy.Reasoning.Cache.Retention.{look_up-store}

abbrev scope : Scope
scope = record {
  provider = "deepseek";
  auth_hash = "h";
  model = "m";
  base_url = "http://x";
  session = "s";
  thinking_mode = "";
}

abbrev key_of : String → Key
key_of id = record { scope = scope; tool_call_ids = id; turn_hash = "" }

-- Room for one text of at most ten bytes, and one text in it.
abbrev full : Cache
full = record {
  ttl = 100;
  max_entries = 1;
  max_bytes = 10;
  bytes = 5;
  entries = (key_of "call_1", record { reasoning = "first"; created_at = 50 }) ∷ [];
}

full-IsSound : IsSound full
full-IsSound = record { is_map = (tt, tt); weighed = refl }

abbrev after_store : Cache
after_store = record full {
  bytes = 6;
  entries = (key_of "call_2", record { reasoning = "second"; created_at = 60 }) ∷ [];
}

store_lem : store 60 (key_of "call_2") "second" full ≡ some after_store
unfolding store droid_proxy.Prelude.Texts.is_blank droid_proxy.Prelude.Texts.trim_space
    droid_proxy.Reasoning.Cache.is_valid droid_proxy.Reasoning.Cache.evict
    droid_proxy.Reasoning.Cache.evict_oldest droid_proxy.Reasoning.Cache.drop_expired
    droid_proxy.Reasoning.Cache.put droid_proxy.Prelude.Maps.insert
    droid_proxy.Reasoning.Cache.remove droid_proxy.Prelude.Maps.erase
    droid_proxy.Reasoning.Cache.oldest lookup
store_lem = refl

store-IsSound_example :
    (d : Cache) × (store 60 (key_of "call_2") "second" full ≡ some d)
    × IsSound d
    × (is_over d ≡ false)
store-IsSound_example = store-IsSound 60 (key_of "call_2") "second" full full-IsSound refl

store-NothingNew_example :
    NothingNew
      (lookup (key_of "call_1") full.entries)
      (lookup (key_of "call_1") after_store.entries)
store-NothingNew_example =
    store-NothingNew 60 (key_of "call_2") (key_of "call_1") "second" full after_store full-IsSound
      (beq-apart (key_of "call_2") (key_of "call_1") refl) store_lem

look_up-store_example : look_up 90 (key_of "call_2") after_store ≡ (some "second", after_store)
unfolding droid_proxy.Reasoning.Cache.is_valid droid_proxy.Prelude.Texts.is_blank
    droid_proxy.Prelude.Texts.trim_space
look_up-store_example =
    look_up-store 60 90 (key_of "call_2") "second" full after_store full-IsSound (omega arith, tt)
      (omega arith) (omega arith) refl refl (omega arith) store_lem
