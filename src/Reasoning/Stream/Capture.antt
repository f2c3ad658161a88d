-- ===== src/Reasoning/Stream/Capture.antt =====
-- Commit of internal/reasoning/stream.go beside CaptureNonStream of internal/reasoning/cache.go.
use droid_proxy.Prelude.{
  ◌≡◌, refl, true, false, some, List, [], ◌∷◌, str_eq, arith, Bool-cases, Option-cases, ℕ, inl, inr,
}
use droid_proxy.Prelude.Numbers.{Time}
use droid_proxy.Prelude.GoLibrary.{GoLibrary}
use droid_proxy.Prelude.Texts.{trim_space}
use droid_proxy.Prelude.Sort.{sort}
use droid_proxy.Reasoning.Json.{Json, Items, Fields, text, item, get, set, without}
use droid_proxy.Reasoning.Cache.{Scope, Cache}
use droid_proxy.Reasoning.Messages.{
  JsonCodec, key_for_message, assistant_turn_hash, all_calls, is_call, valid_tool_calls,
  capture_message,
}
use droid_proxy.Reasoning.Stream.{
  StreamToolCall, StreamChoice, by_index, is_complete, call_of, tool_calls_of, assembled_calls,
  message_of_choice, commit_choice,
}

call_of-is_call : (t : StreamToolCall) → is_complete t ≡ true → is_call (call_of t) ≡ true
unfolding get
call_of-is_call t h = ground arith

tool_calls_of-all_calls :
    (ts : List (ℕ × StreamToolCall)) (calls : Items)
    → tool_calls_of ts ≡ some calls
    → all_calls calls ≡ true
unfolding tool_calls_of all_calls
tool_calls_of-all_calls [] calls e = ground arith
tool_calls_of-all_calls ((i, t) ∷ ts) calls e = elim (Bool-cases (is_complete t)) [
  | inr f ↦ absurd (ground arith)
  | inl f ↦ elim (Option-cases (tool_calls_of ts)) [
    | inl n ↦ absurd (ground arith)
    | inr (rest, k) ↦
        let same : item (call_of t) rest ≡ calls = ground (arith, k) in
        rw (← same) (rw (call_of-is_call t f) (tool_calls_of-all_calls ts rest k))
  ]
]

assembled-all_calls :
    (s : StreamChoice) (calls : Items) → assembled_calls s ≡ some calls → all_calls calls ≡ true
unfolding assembled_calls
assembled-all_calls s calls e = tool_calls_of-all_calls (sort by_index s.tools) calls e

assistant_role : str_eq (trim_space "assistant") "assistant" ≡ true
unfolding trim_space
assistant_role = refl

-- The message of a choice with its reasoning, as a response without a stream would hold it.
abbrev pub whole_message : StreamChoice → Items → Fields
whole_message s calls = set "reasoning_content" (text s.reasoning) (message_of_choice s calls)

module _ (go : GoLibrary) (json : JsonCodec) where
  whole_message-key :
      (scope : Scope) (s : StreamChoice) (calls : Items)
      → key_for_message go json scope (whole_message s calls)
        ≡ key_for_message go json scope (message_of_choice s calls)
  unfolding key_for_message assistant_turn_hash set get without
  whole_message-key scope s calls = refl

-- Take a choice of a stream that has not failed, whose captured calls are complete and at least one.
-- Commit does with it what CaptureNonStream does with the message that has its content, its calls in
-- the order of their indices and its reasoning: the same reasoning goes under the same key into the
-- same cache, or nothing is stored, if the reasoning is blank.
pub commit_choice-capture_message :
    (go : GoLibrary) (json : JsonCodec) (now : Time) (scope : Scope) (s : StreamChoice)
    (call : Json) (calls : Items) (c : Cache)
    → s.failed ≡ false
    → assembled_calls s ≡ some (item call calls)
    → commit_choice go json now scope s c
      ≡ capture_message go json now scope (whole_message s (item call calls)) c
unfolding commit_choice capture_message valid_tool_calls get set
commit_choice-capture_message go json now scope s call calls c f e =
    let valid = assembled-all_calls s (item call calls) e in
    ground (arith, e, valid, assistant_role, whole_message-key go json scope s (item call calls))
