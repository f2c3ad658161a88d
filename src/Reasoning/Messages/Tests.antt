-- ===== src/Reasoning/Messages/Tests.antt =====
-- A turn with a tool call that is captured and replayed.
use droid_proxy.Prelude.{
  ℕ, ◌≤◌, ◌<◌, ◌≡◌, refl, true, false, Option, none, some, List, [], ◌∷◌, String, arith, All,
}
use droid_proxy.Samples.{plain_go}
use droid_proxy.Reasoning.Json.{
  Json, Fields, Items, text, array, object, item, no_items, field, no_fields, set,
}
use droid_proxy.Reasoning.Cache.{Scope, Key, Cache}
use droid_proxy.Reasoning.Cache.Eviction.{IsSound}
use droid_proxy.Reasoning.Messages.{JsonCodec, patch_message, capture_message}
use droid_proxy.Reasoning.Messages.Replay.{IsScoped, patch_message-capture_message}

abbrev codec : JsonCodec
codec = record { decode = λ s. none; encode = λ m. none }

abbrev scope : Scope
scope = record {
  provider = "deepseek";
  auth_hash = "h";
  model = "m";
  base_url = "http://x";
  session = "s";
  thinking_mode = "";
}

scope-IsScoped : IsScoped scope
scope-IsScoped = record {
  provider = refl;
  auth_hash = refl;
  model = refl;
  base_url = refl;
  session = refl;
}

abbrev calls : Json
calls = array (
    item
      (object (
        field "id" (text "call_1") (
          field "function"
            (object (field "name" (text "ls") (field "arguments" (text "{}") no_fields)))
            no_fields)))
      no_items)

abbrev sent_turn : Fields
sent_turn = field "role" (text "assistant") (field "tool_calls" calls no_fields)

abbrev received_turn : Fields
received_turn =
    field "role" (text "assistant")
      (field "reasoning_content" (text "think") (field "tool_calls" calls no_fields))

abbrev empty_cache : Cache
empty_cache = record { ttl = 100; max_entries = 2; max_bytes = 10; bytes = 0; entries = [] }

abbrev key : Key
key = record { scope = scope; tool_call_ids = "call_1"; turn_hash = "" }

abbrev captured : Cache
captured = record empty_cache {
  bytes = 5;
  entries = (key, record { reasoning = "think"; created_at = 50 }) ∷ [];
}

empty_cache-IsSound : IsSound empty_cache
empty_cache-IsSound = record { is_map = tt; weighed = refl }

captured_lem : capture_message plain_go codec 50 scope received_turn empty_cache ≡ some captured
unfolding capture_message droid_proxy.Prelude.Texts.trim_space droid_proxy.Reasoning.Json.get
    droid_proxy.Prelude.Texts.is_blank droid_proxy.Reasoning.Messages.valid_tool_calls
    droid_proxy.Reasoning.Messages.all_calls droid_proxy.Reasoning.Cache.store
    droid_proxy.Reasoning.Cache.is_valid droid_proxy.Reasoning.Messages.key_for_message
    droid_proxy.Reasoning.Messages.tool_call_ids droid_proxy.Reasoning.Messages.join
    droid_proxy.Prelude.Sort.sort droid_proxy.Reasoning.Messages.call_ids
    droid_proxy.Reasoning.Cache.evict droid_proxy.Reasoning.Cache.evict_oldest
    droid_proxy.Reasoning.Cache.drop_expired droid_proxy.Reasoning.Cache.put
    droid_proxy.Prelude.Maps.erase droid_proxy.Prelude.Maps.insert droid_proxy.Prelude.Maps.lookup
    droid_proxy.Prelude.Sort.place droid_proxy.Prelude.Texts.str_ltb
    droid_proxy.Reasoning.Cache.oldest droid_proxy.Reasoning.Cache.remove
    droid_proxy.Reasoning.Json.without droid_proxy.Reasoning.Messages.assistant_turn_hash
captured_lem = refl

patch_message-capture_message_example :
    patch_message plain_go codec 90 scope sent_turn captured
    ≡ (set "reasoning_content" (text "think") sent_turn, true, captured)
unfolding droid_proxy.Reasoning.Json.get droid_proxy.Prelude.Texts.trim_space
    droid_proxy.Prelude.Texts.is_blank droid_proxy.Reasoning.Messages.valid_tool_calls
    droid_proxy.Reasoning.Messages.all_calls
patch_message-capture_message_example =
    patch_message-capture_message plain_go codec 50 90 scope received_turn sent_turn empty_cache
      captured empty_cache-IsSound tt (omega arith) (omega arith) (omega arith) scope-IsScoped refl
      refl refl captured_lem refl refl refl
