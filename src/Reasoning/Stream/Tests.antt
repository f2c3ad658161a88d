-- ===== src/Reasoning/Stream/Tests.antt =====
-- A streamed tool call in two pieces, its commit, a stream that breaks off with an error, and the
-- session of a request.
use droid_proxy.Prelude.{
  ◌≡◌, ◌≢◌, refl, Bool, true, false, Option, none, some, List, [], ◌∷◌, ◌++◌, String, str_eq, inl,
  inr, if◌then◌else◌,
}
use droid_proxy.Prelude.Numbers.{pos}
use droid_proxy.Prelude.GoLibrary.{GoLibrary}
use droid_proxy.Samples.{plain_go}
use droid_proxy.Reasoning.Json.{
  Json, Fields, Items, text, number, array, object, item, no_items, field, no_fields,
}
use droid_proxy.Reasoning.Cache.{Scope, Cache}
use droid_proxy.Reasoning.Messages.{JsonCodec, capture_message}
use droid_proxy.Reasoning.Session.{session_id}
use droid_proxy.Reasoning.Stream.{
  StreamChoice, StreamCapture, new_stream_capture, observe_lines, commit, commit_choice, call_of,
}
use droid_proxy.Reasoning.Stream.Capture.{whole_message, commit_choice-capture_message}
use droid_proxy.Reasoning.Stream.Failed.{IsBad, commit_bad_stream}

abbrev go : GoLibrary
go = record plain_go { atoi = λ s. if str_eq s "0" then some (pos 0) else none }

abbrev event_of : Fields → Fields
event_of delta =
    field "choices"
      (array (
        item (object (field "index" (number "0") (field "delta" (object delta) no_fields)))
          no_items))
      no_fields

abbrev tool_of : Fields → Fields
tool_of m =
    field "tool_calls" (array (item (object (field "index" (number "0") m)) no_items)) no_fields

abbrev first_piece : Fields
first_piece = field "reasoning_content" (text "thi") (
    tool_of (
      field "id" (text "call_1") (
        field "function"
          (object (field "name" (text "ls") (field "arguments" (text "{") no_fields))) no_fields)))

abbrev second_piece : Fields
second_piece =
    field "reasoning_content" (text "nk")
      (tool_of (field "function" (object (field "arguments" (text "}") no_fields)) no_fields))

abbrev codec : JsonCodec
codec = record {
  decode = λ s.
      if str_eq s "1"
      then some (event_of first_piece)
      else if str_eq s "2"
      then some (event_of second_piece)
      else if str_eq s "e"
      then some (field "error" (text "overloaded") no_fields)
      else none;
  encode = λ m. none;
}

abbrev scope : Scope
scope = record {
  provider = "deepseek";
  auth_hash = "h";
  model = "m";
  base_url = "http://x";
  session = "s";
  thinking_mode = "";
}

abbrev empty_cache : Cache
empty_cache = record { ttl = 100; max_entries = 2; max_bytes = 10; bytes = 0; entries = [] }

abbrev choice : StreamChoice
choice = record {
  reasoning = "think";
  content = "";
  tools =
      (
        0,
        record {
          id = "call_1";
          kind = "";
          name = "ls";
          arguments = "{}";
          id_seen = true;
          name_seen = true;
          args_seen = true;
        },
      )
      ∷ [];
  failed = false;
}

test_observed :
    (observe_lines go codec
      ("data: 1" ∷ "" ∷ "data: 2" ∷ "" ∷ "data: [DONE]" ∷ [])
      (new_stream_capture scope)).choices
    ≡ (0, choice) ∷ []
unfolding observe_lines droid_proxy.Reasoning.Stream.observe_line new_stream_capture
    droid_proxy.Prelude.Texts.cut_prefix droid_proxy.Prelude.Texts.trim_space
    droid_proxy.Reasoning.Json.get droid_proxy.Reasoning.Stream.observe_choices
    droid_proxy.Reasoning.Stream.number_index droid_proxy.Prelude.Maps.insert
    droid_proxy.Reasoning.Stream.observe_delta droid_proxy.Reasoning.Stream.observe_tools
    droid_proxy.Prelude.Maps.lookup droid_proxy.Reasoning.Stream.add_tool
test_observed = refl

commit_choice-capture_message_example :
    commit_choice go codec 50 scope choice empty_cache
    ≡ capture_message go codec 50 scope
        (whole_message choice (
          item
            (call_of (record {
              id = "call_1";
              kind = "";
              name = "ls";
              arguments = "{}";
              id_seen = true;
              name_seen = true;
              args_seen = true;
            }))
            no_items))
        empty_cache
unfolding droid_proxy.Reasoning.Stream.assembled_calls droid_proxy.Reasoning.Stream.tool_calls_of
    droid_proxy.Prelude.Sort.sort droid_proxy.Prelude.Texts.is_blank
    droid_proxy.Prelude.Texts.trim_space
commit_choice-capture_message_example =
    commit_choice-capture_message go codec 50 scope choice
      (call_of (record {
        id = "call_1";
        kind = "";
        name = "ls";
        arguments = "{}";
        id_seen = true;
        name_seen = true;
        args_seen = true;
      }))
      no_items empty_cache refl refl

overloaded : IsBad codec "data: e"
unfolding droid_proxy.Prelude.Texts.cut_prefix droid_proxy.Prelude.Texts.trim_space
    droid_proxy.Reasoning.Json.get
overloaded = (" e", refl, refl, refl, inr (field "error" (text "overloaded") no_fields, refl, refl))

commit_bad_stream_example :
    (commit go codec 50
      (observe_lines go codec
        (("data: 1" ∷ []) ++ "data: e" ∷ "data: 2" ∷ [])
        (new_stream_capture scope))
      empty_cache).1
    ≡ some empty_cache
commit_bad_stream_example =
    commit_bad_stream go codec 50 scope ("data: 1" ∷ []) ("data: 2" ∷ []) "data: e" empty_cache
      overloaded

test_session : session_id codec (("X-Thread-Id", " t1 " ∷ []) ∷ []) "" ≡ "t1"
unfolding session_id droid_proxy.Reasoning.Session.from_headers droid_proxy.Prelude.Texts.trim_space
    droid_proxy.Upstream.Headers.get droid_proxy.Prelude.Maps.lookup
    droid_proxy.Prelude.HeaderNames.canonical_header_key
test_session = refl
