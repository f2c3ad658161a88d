-- ===== src/Reasoning/Messages.antt =====
-- The reasoning of chat messages: KeyForMessage, validToolCalls, PatchRequest and CaptureNonStream in
-- internal/reasoning/cache.go. The decoder and the encoder of JSON are parameters.
pub mod Replay
mod Tests
use droid_proxy.Prelude.{
  ◌≡◌, Bool, true, false, not, ◌&&◌, ◌||◌, Option, none, some, List, [], ◌∷◌, String, if◌then◌else◌,
  str_eq, is_none,
}
use Prim.Native.String.{◌++◌}
use droid_proxy.Prelude.Numbers.{Time}
use droid_proxy.Prelude.GoLibrary.{GoLibrary}
use droid_proxy.Prelude.Texts.{trim_space, is_blank, str_ltb}
use droid_proxy.Prelude.Sort.{sort}
use droid_proxy.Reasoning.Json.{
  Json, Items, Fields, text, array, object, no_items, item, no_fields, field, get, set, without,
  text_of, items_of, fields_of, is_text,
}
use droid_proxy.Reasoning.Cache.{Scope, Key, Cache, store, look_up}

-- `json.Decoder.Decode` into a map, and `json.Marshal`; `none` for an error. Decode takes an object
-- and also null, which leaves the map nil: it reads as one without fields.
pub record JsonCodec : Type 0 where
  pub decode : String → Option Fields
  pub encode : Fields → Option String

abbrev add_id : String → List String → List String
add_id id ids = if str_eq id "" then ids else id ∷ ids

-- The loop of toolCallIDs, over the calls that are objects.
unfoldable pub call_ids : Items → List String
call_ids no_items = []
call_ids (item (object t) xs) = add_id (trim_space (text_of (get "id" t))) (call_ids xs)
call_ids (item _ xs) = call_ids xs

-- `strings.Join(ids, "\x00")`.
unfoldable pub join : List String → String
join [] = ""
join (s ∷ []) = s
join (s ∷ t ∷ ss) = s ++ "\0" ++ join (t ∷ ss)

-- toolCallIDs. The join of no ids is "", as is the result without an array.
unfoldable pub tool_call_ids : Option Json → String
tool_call_ids raw = elim (items_of raw) [
  | none ↦ ""
  | some calls ↦ join (sort str_ltb (call_ids calls))
]

abbrev is_empty_object : Fields → Bool
is_empty_object no_fields = true
is_empty_object (field k v m) = false

abbrev pub is_call : Json → Bool
is_call (object t) = not (is_blank (text_of (get "id" t))) && elim (fields_of (get "function" t)) [
  | none ↦ false
  | some fn ↦ not (is_blank (text_of (get "name" fn))) && is_text (get "arguments" fn)
]
is_call _ = false

unfoldable pub all_calls : Items → Bool
all_calls no_items = true
all_calls (item c xs) = is_call c && all_calls xs

abbrev is_no_items : Items → Bool
is_no_items no_items = true
is_no_items (item x xs) = false

-- validToolCalls.
unfoldable pub valid_tool_calls : Option Json → Bool
valid_tool_calls raw = elim (items_of raw) [
  | none ↦ false
  | some xs ↦ not (is_no_items xs) && all_calls xs
]

abbrev is_assistant : Fields → Bool
is_assistant m = str_eq (trim_space (text_of (get "role" m))) "assistant"

module _ (go : GoLibrary) (json : JsonCodec) where
  -- assistantTurnHash.
  unfoldable pub assistant_turn_hash : Fields → String
  assistant_turn_hash message =
      if is_empty_object message
      then ""
      else elim (json.encode (without "reasoning_content" message)) [
        | none ↦ ""
        | some canonical ↦ go.sha256_hex canonical
      ]

  -- KeyForMessage.
  unfoldable pub key_for_message : Scope → Fields → Key
  key_for_message scope message =
      let tool = tool_call_ids (get "tool_calls" message) in
      record {
        scope = scope;
        tool_call_ids = tool;
        turn_hash = if str_eq tool "" then assistant_turn_hash message else "";
      }

  abbrev has_calls : Option Items → Bool
  has_calls none = false
  has_calls (some xs) = not (is_no_items xs)

  abbrev inject : Fields → Option String × Cache → Fields × Bool × Cache
  inject m (none, c) = (m, false, c)
  inject m (some reasoning, c) = (set "reasoning_content" (text reasoning) m, true, c)

  -- One round of the loop in PatchRequest: the message, whether it changed, and the cache.
  unfoldable pub patch_message : Time → Scope → Fields → Cache → Fields × Bool × Cache
  patch_message now scope m c =
      if not (is_assistant m)
        || not (is_none (get "reasoning_content" m))
        || not (has_calls (items_of (get "tool_calls" m)))
      then (m, false, c)
      else inject m (look_up now (key_for_message scope m) c)

  unfoldable pub patch_messages : Time → Scope → Items → Cache → Items × Bool × Cache
  patch_messages now scope no_items c = (no_items, false, c)
  patch_messages now scope (item (object m) xs) c =
      let (n, changed, d) = patch_message now scope m c in
      let (ys, others, e) = patch_messages now scope xs d in
      (item (object n) ys, changed || others, e)
  patch_messages now scope (item x xs) c =
      let (ys, changed, d) = patch_messages now scope xs c in (item x ys, changed, d)

  abbrev written : String → Fields → Items × Bool × Cache → String × Cache
  written payload root (messages, changed, c) =
      if changed
      then elim (json.encode (set "messages" (array messages) root)) [
        | none ↦ (payload, c)
        | some out ↦ (out, c)
      ]
      else (payload, c)

  -- PatchRequest.
  unfoldable pub patch_request : Time → Scope → String → Cache → String × Cache
  patch_request now scope payload c = elim (json.decode payload) [
    | none ↦ (payload, c)
    | some root ↦ elim (items_of (get "messages" root)) [
      | none ↦ (payload, c)
      | some messages ↦ written payload root (patch_messages now scope messages c)
    ]
  ]

  -- One round of the loop in CaptureNonStream, on a choice with a message. `none` is a store that
  -- does not come to an end.
  unfoldable pub capture_message : Time → Scope → Fields → Cache → Option Cache
  capture_message now scope msg c =
      if not (is_assistant msg)
        || is_blank (text_of (get "reasoning_content" msg))
        || not (valid_tool_calls (get "tool_calls" msg))
      then some c
      else store now (key_for_message scope msg) (text_of (get "reasoning_content" msg)) c

  abbrev message_of : Json → Option Fields
  message_of (object choice) = fields_of (get "message" choice)
  message_of _ = none

  abbrev capture_choice : Time → Scope → Option Fields → Cache → Option Cache
  capture_choice now scope none c = some c
  capture_choice now scope (some msg) c = capture_message now scope msg c

  unfoldable pub capture_choices : Time → Scope → Items → Cache → Option Cache
  capture_choices now scope no_items c = some c
  capture_choices now scope (item choice xs) c =
      elim (capture_choice now scope (message_of choice) c) [
        | none ↦ none
        | some d ↦ capture_choices now scope xs d
      ]

  -- CaptureNonStream.
  unfoldable pub capture_non_stream : Time → Scope → String → Cache → Option Cache
  capture_non_stream now scope body c = elim (json.decode body) [
    | none ↦ some c
    | some root ↦ elim (items_of (get "choices" root)) [
      | none ↦ some c
      | some choices ↦ capture_choices now scope choices c
    ]
  ]
