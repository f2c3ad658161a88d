-- ===== src/Reasoning/Stream.antt =====
-- The reasoning of a streamed answer: StreamCapture in internal/reasoning/stream.go.
pub mod Capture
pub mod Failed
mod Tests
use Prim.Native.String.{◌++◌}
use droid_proxy.Prelude.{
  ℕ, ◌≡◌, Bool, true, false, not, ◌&&◌, ◌||◌, Option, none, some, List, [], ◌∷◌, String, ltb, ◌==◌,
  ==_iff, if◌then◌else◌, str_eq, is_none,
}
use droid_proxy.Prelude.Numbers.{ℤ, pos, negsuc, Time}
use droid_proxy.Prelude.GoLibrary.{GoLibrary}
use droid_proxy.Prelude.Texts.{trim_space, is_blank, cut_prefix}
use droid_proxy.Prelude.Sort.{sort}
use droid_proxy.Prelude.Maps.{Eq, lookup, insert}
use droid_proxy.Reasoning.Json.{
  Json, Items, Fields, null, boolean, number, text, array, object, no_items, item, no_fields, field,
  get, items_of, fields_of,
}
use droid_proxy.Reasoning.Cache.{Scope, Cache, store}
use droid_proxy.Reasoning.Messages.{JsonCodec, key_for_message}

instance abbrev pub index_eq : Eq ℕ
index_eq = record { beq = ◌==◌; beq_iff = ==_iff }

pub record StreamToolCall : Type 0 where
  pub id : String
  pub kind : String
  pub name : String
  pub arguments : String
  pub id_seen : Bool
  pub name_seen : Bool
  pub args_seen : Bool

pub record StreamChoice : Type 0 where
  pub reasoning : String
  pub content : String
  pub tools : List (ℕ × StreamToolCall)
  pub failed : Bool

pub record StreamCapture : Type 0 where
  pub scope : Scope
  pub choices : List (ℕ × StreamChoice)
  pub failed : Bool
  pub committed : Bool

-- NewStreamCapture, with a cache.
unfoldable pub new_stream_capture : Scope → StreamCapture
new_stream_capture scope = record { scope = scope; choices = []; failed = false; committed = false }

abbrev non_negative : Option ℤ → Option ℕ
non_negative (some (pos n)) = some n
non_negative _ = none

-- numberIndex with its test for a negative number. Numbers keep their text, and Int64 of it is the
-- reader of integers.
unfoldable pub number_index : GoLibrary → Option Json → Option ℕ
number_index go (some (number s)) = non_negative (go.atoi s)
number_index go _ = none

abbrev or_new_choice : Option StreamChoice → StreamChoice
or_new_choice (some c) = c
or_new_choice none = record { reasoning = ""; content = ""; tools = []; failed = false }

abbrev or_new_tool : Option StreamToolCall → StreamToolCall
or_new_tool (some t) = t
or_new_tool none = record {
  id = "";
  kind = "";
  name = "";
  arguments = "";
  id_seen = false;
  name_seen = false;
  args_seen = false;
}

-- What a string adds to a builder, and whether it was one.
abbrev add_text : String → Option Json → String
add_text s (some (text t)) = s ++ t
add_text s _ = s

abbrev saw_text : Bool → Option Json → Bool
saw_text seen (some (text t)) = true
saw_text seen _ = seen

abbrev with_function : Option Fields → StreamToolCall → StreamToolCall
with_function none t = t
with_function (some fn) t = record t {
  name = add_text t.name (get "name" fn);
  name_seen = saw_text t.name_seen (get "name" fn);
  arguments = add_text t.arguments (get "arguments" fn);
  args_seen = saw_text t.args_seen (get "arguments" fn);
}

unfoldable pub add_tool : Fields → StreamToolCall → StreamToolCall
add_tool tool t = with_function (fields_of (get "function" tool)) (record t {
  id = add_text t.id (get "id" tool);
  id_seen = saw_text t.id_seen (get "id" tool);
  kind = add_text t.kind (get "type" tool);
})

abbrev indexed_tool : Option ℕ → Fields → StreamChoice → StreamChoice
indexed_tool none tool s = record s { failed = true }
indexed_tool (some i) tool s = record s {
  tools = insert i (add_tool tool (or_new_tool (lookup i s.tools))) s.tools;
}

-- The loop over the tool calls of a delta.
unfoldable pub observe_tools : GoLibrary → Items → StreamChoice → StreamChoice
observe_tools go no_items s = s
observe_tools go (item (object tool) xs) s =
    observe_tools go xs (indexed_tool (number_index go (get "index" tool)) tool s)
observe_tools go (item x xs) s = observe_tools go xs (record s { failed = true })

abbrev add_reasoning : Option Json → StreamChoice → StreamChoice
add_reasoning none s = s
add_reasoning (some (text r)) s = record s { reasoning = s.reasoning ++ r }
add_reasoning (some _) s = record s { failed = true }

abbrev listed_tools : GoLibrary → Option Items → StreamChoice → StreamChoice
listed_tools go none s = s
listed_tools go (some tools) s = observe_tools go tools s

unfoldable pub observe_delta : GoLibrary → Fields → StreamChoice → StreamChoice
observe_delta go delta s =
    let t = add_reasoning (get "reasoning_content" delta) s in
    listed_tools go (items_of (get "tool_calls" delta))
      (record t { content = add_text t.content (get "content" delta) })

abbrev choice_delta : GoLibrary → ℕ → Option Fields → StreamCapture → StreamCapture
choice_delta go i none c = c
choice_delta go i (some delta) c = record c {
  choices = insert i (observe_delta go delta (or_new_choice (lookup i c.choices))) c.choices;
}

abbrev pub fail : StreamCapture → StreamCapture
fail c = record c { failed = true }

-- The loop over the choices of an event: it ends at the first that is no object or has no index.
unfoldable pub observe_choices : GoLibrary → Items → StreamCapture → StreamCapture
observe_choices go no_items c = c
observe_choices go (item (object choice) xs) c = elim (number_index go (get "index" choice)) [
  | none ↦ fail c
  | some i ↦ observe_choices go xs (choice_delta go i (fields_of (get "delta" choice)) c)
]
observe_choices go (item x xs) c = fail c

abbrev with_choices : GoLibrary → Option Items → StreamCapture → StreamCapture
with_choices go none c = c
with_choices go (some choices) c = observe_choices go choices c

abbrev observe_root : GoLibrary → Option Fields → StreamCapture → StreamCapture
observe_root go none c = fail c
observe_root go (some root) c =
    if is_none (get "error" root) then with_choices go (items_of (get "choices" root)) c else fail c

abbrev observe_data : GoLibrary → JsonCodec → Option String → StreamCapture → StreamCapture
observe_data go json none c = c
observe_data go json (some rest) c =
    let event = trim_space rest in
    if str_eq event "" || str_eq event "[DONE]" then c else observe_root go (json.decode event) c

-- ObserveLine.
unfoldable pub observe_line : GoLibrary → JsonCodec → String → StreamCapture → StreamCapture
observe_line go json line c =
    if c.failed || c.committed
    then c
    else observe_data go json (cut_prefix "data:" (trim_space line)) c

unfoldable pub observe_lines : GoLibrary → JsonCodec → List String → StreamCapture → StreamCapture
observe_lines go json [] c = c
observe_lines go json (line ∷ lines) c = observe_lines go json lines (observe_line go json line c)

abbrev pub is_complete : StreamToolCall → Bool
is_complete t =
    t.id_seen && t.name_seen && t.args_seen && not (is_blank t.id) && not (is_blank t.name)

-- A captured call as the JSON of a message.
abbrev pub call_of : StreamToolCall → Json
call_of t = object (
    field "id" (text t.id) (
      field "type" (text (if str_eq t.kind "" then "function" else t.kind)) (
        field "function"
          (object (field "name" (text t.name) (field "arguments" (text t.arguments) no_fields)))
          no_fields)))

abbrev add_call : StreamToolCall → Option Items → Option Items
add_call t none = none
add_call t (some calls) = some (item (call_of t) calls)

-- The calls in the order of their indices; `none` when one of them is incomplete.
unfoldable pub tool_calls_of : List (ℕ × StreamToolCall) → Option Items
tool_calls_of [] = some no_items
tool_calls_of ((i, t) ∷ ts) =
    let rest = tool_calls_of ts in if is_complete t then add_call t rest else none

abbrev pub by_index : ℕ × StreamToolCall → ℕ × StreamToolCall → Bool
by_index a b = ltb a.0 b.0

unfoldable pub assembled_calls : StreamChoice → Option Items
assembled_calls s = tool_calls_of (sort by_index s.tools)

-- The message that Commit makes of a choice.
abbrev pub message_of_choice : StreamChoice → Items → Fields
message_of_choice s calls =
    field "role" (text "assistant")
      (field "content" (text s.content) (field "tool_calls" (array calls) no_fields))

module _ (go : GoLibrary) (json : JsonCodec) where
  abbrev pub commit_calls : Time → Scope → StreamChoice → Option Items → Cache → Option Cache
  commit_calls now scope s none c = some c
  commit_calls now scope s (some no_items) c = some c
  commit_calls now scope s (some (item x xs)) c =
      store now (key_for_message go json scope (message_of_choice s (item x xs))) s.reasoning c

  -- One round of the loop in Commit. `none` is a store that does not come to an end.
  unfoldable pub commit_choice : Time → Scope → StreamChoice → Cache → Option Cache
  commit_choice now scope s c =
      if s.failed || is_blank s.reasoning
      then some c
      else commit_calls now scope s (assembled_calls s) c

  unfoldable pub commit_choices : Time → Scope → List (ℕ × StreamChoice) → Cache → Option Cache
  commit_choices now scope [] c = some c
  commit_choices now scope ((i, s) ∷ rest) c = elim (commit_choice now scope s c) [
    | none ↦ none
    | some d ↦ commit_choices now scope rest d
  ]

  -- Commit.
  unfoldable pub commit : Time → StreamCapture → Cache → StreamCapture × Option Cache
  commit now x c =
      if x.failed || x.committed
      then (x, some c)
      else (record x { committed = true }, commit_choices now x.scope x.choices c)
