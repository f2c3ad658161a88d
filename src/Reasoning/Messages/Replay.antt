-- ===== src/Reasoning/Messages/Replay.antt =====
-- CaptureNonStream and then PatchRequest: internal/reasoning/cache.go.
use package.text.Mathlib.TextLemmas.{append-eq-nil_iff}
use Prim.Native.String.{◌++◌, len}
use droid_proxy.Prelude.{
  ◌≤◌, ◌<◌, ◌≡◌, ap, subst, ◌∙◌, inl, inr, true, false, not, ◌||◌, Option, none, some, List, [],
  ◌∷◌, String, str_eq, eq_iff, is_none, arith, All, Bool-cases, Option-cases,
}
use droid_proxy.Prelude.Numbers.{Time, elapsed}
use droid_proxy.Prelude.GoLibrary.{GoLibrary}
use droid_proxy.Prelude.Texts.{trim_space, is_blank, str_ltb}
use droid_proxy.Prelude.Sort.{sort, All-sort, sort-cons}
use droid_proxy.Reasoning.Json.{
  Json, Items, Fields, text, array, object, no_items, item, get, set, text_of, items_of,
}
use droid_proxy.Reasoning.Cache.{Scope, Cache, look_up, is_valid}
use droid_proxy.Reasoning.Cache.Eviction.{IsSound}
use droid_proxy.Reasoning.Cache.Retention.{look_up-store}
use droid_proxy.Reasoning.Messages.{
  JsonCodec, call_ids, join, tool_call_ids, is_call, all_calls, valid_tool_calls, is_assistant,
  key_for_message, has_calls, inject, patch_message, capture_message,
}

append-apart : (s t : String) → str_eq s "" ≡ false → str_eq (s ++ t) "" ≡ false
append-apart s t h = elim (Bool-cases (str_eq (s ++ t) "")) [
  | inr e ↦ e
  | inl e ↦
      let nothing : s ≡ "" = (append-eq-nil_iff.0 ((eq_iff (s ++ t) "").0 e)).0 in
      absurd (cc ((eq_iff s "").1 nothing, h))
]

join-apart :
    (s : String) (ss : List String) → str_eq s "" ≡ false → str_eq (join (s ∷ ss)) "" ≡ false
unfolding join
join-apart s [] h = h
join-apart s (t ∷ ss) h = append-apart s _ h

call_ids-All : (xs : Items) → All (λ s. str_eq s "" ≡ false) (call_ids xs)
unfolding call_ids
call_ids-All no_items = tt
call_ids-All (item (object t) xs) = ground (arith, call_ids-All xs)
call_ids-All (item (text t) xs) = call_ids-All xs
call_ids-All (item (array t) xs) = call_ids-All xs
call_ids-All (item _ xs) = call_ids-All xs

call_ids-cons :
    (c : Json) (xs : Items)
    → is_call c ≡ true
    → (s : String) × (call_ids (item c xs) ≡ s ∷ call_ids xs)
unfolding call_ids is_blank
call_ids-cons (object t) xs h = (trim_space (text_of (get "id" t)), ground arith)
call_ids-cons (array t) xs h = absurd (cc)
call_ids-cons (text t) xs h = absurd (cc)
call_ids-cons _ xs h = absurd (cc)

sorted_join-apart :
    (ids : List String) (s : String) (ss : List String)
    → ids ≡ s ∷ ss
    → All (λ x. str_eq x "" ≡ false) ids
    → str_eq (join (sort str_ltb ids)) "" ≡ false
sorted_join-apart ids s ss e h =
    let (y, ys, f) = sort-cons str_ltb s ss in
    let g : sort str_ltb ids ≡ y ∷ ys = ap (sort str_ltb) e ∙ f in
    let k : All (λ x. str_eq x "" ≡ false) (y ∷ ys) =
      subst (All (λ x. str_eq x "" ≡ false)) g (All-sort str_ltb _ ids h) in
    ap (λ l. str_eq (join l) "") g ∙ join-apart y ys k.0

-- Valid tool calls have ids.
tool_call_ids-apart :
    (raw : Option Json) → valid_tool_calls raw ≡ true → str_eq (tool_call_ids raw) "" ≡ false
unfolding valid_tool_calls tool_call_ids all_calls
tool_call_ids-apart raw h = elim (Option-cases (items_of raw)) [
  | inl n ↦ absurd (ground arith)
  | inr (xs, e) ↦ by_items xs e
]
  where
    by_items : (xs : Items) → items_of raw ≡ some xs → str_eq (tool_call_ids raw) "" ≡ false
    by_items no_items e = absurd (ground arith)
    by_items (item c xs) e =
        let (s, f) = call_ids-cons c xs (ground arith) in
        let k =
          sorted_join-apart (call_ids (item c xs)) s (call_ids xs) f (call_ids-All (item c xs)) in
        ground (arith, k)

-- The fields without which nothing is kept in the cache.
pub record IsScoped (s : Scope) : Type 0 where
  pub provider : str_eq s.provider "" ≡ false
  pub auth_hash : str_eq s.auth_hash "" ≡ false
  pub model : str_eq s.model "" ≡ false
  pub base_url : str_eq s.base_url "" ≡ false
  pub session : str_eq s.session "" ≡ false

module _ (go : GoLibrary) (json : JsonCodec) where
  valid_has_calls :
      (raw : Option Json) → valid_tool_calls raw ≡ true → has_calls go json (items_of raw) ≡ true
  unfolding valid_tool_calls
  valid_has_calls raw h = elim (Option-cases (items_of raw)) [
    | inl n ↦ absurd (ground arith)
    | inr (xs, e) ↦ ground arith
  ]

  key_for_message-is_valid :
      (scope : Scope) (m : Fields)
      → IsScoped scope
      → valid_tool_calls (get "tool_calls" m) ≡ true
      → is_valid (key_for_message go json scope m) ≡ true
  unfolding key_for_message is_valid
  key_for_message-is_valid scope m s v = ground (
    arith,
    s.provider,
    s.auth_hash,
    s.model,
    s.base_url,
    s.session,
    tool_call_ids-apart (get "tool_calls" m) v,
  )

  same_calls-key :
      (scope : Scope) (msg m : Fields)
      → valid_tool_calls (get "tool_calls" msg) ≡ true
      → get "tool_calls" m ≡ get "tool_calls" msg
      → key_for_message go json scope m ≡ key_for_message go json scope msg
  unfolding key_for_message
  same_calls-key scope msg m v e =
      let k = tool_call_ids-apart (get "tool_calls" msg) v in
      let f = ap tool_call_ids e in ground (arith, k, f)

  -- A reasoning text that is captured from a response is replayed: a later message of the assistant
  -- with the same tool calls and without a reasoning text is sent with the very text, if its time to
  -- live is not over, the text fits the cache, the scope is complete, and what the cache held before
  -- is older.
  pub patch_message-capture_message :
      (now later : Time) (scope : Scope) (msg m : Fields) (c d : Cache)
      → IsSound c
      → All (λ x. x.1.created_at < now) c.entries
      → len (text_of (get "reasoning_content" msg)) ≤ c.max_bytes
      → 0 < c.max_entries
      → elapsed later now ≤ c.ttl
      → IsScoped scope
      → is_assistant msg ≡ true
      → is_blank (text_of (get "reasoning_content" msg)) ≡ false
      → valid_tool_calls (get "tool_calls" msg) ≡ true
      → capture_message go json now scope msg c ≡ some d
      → is_assistant m ≡ true
      → get "reasoning_content" m ≡ none
      → get "tool_calls" m ≡ get "tool_calls" msg
      → patch_message go json later scope m d
        ≡ (set "reasoning_content" (text (text_of (get "reasoning_content" msg))) m, true, d)
  unfolding capture_message patch_message
  patch_message-capture_message now later scope msg m c d s o f r l i a b v e p n t =
      let reasoning = text_of (get "reasoning_content" msg) in
      let key = key_for_message go json scope msg in
      let found =
        look_up-store now later key reasoning c d s o f r (key_for_message-is_valid scope msg i v) b
          l (ground arith) in
      let same = same_calls-key scope msg m v t in
      let calls : has_calls go json (items_of (get "tool_calls" m)) ≡ true =
        ap (λ x. has_calls go json (items_of x)) t ∙ valid_has_calls (get "tool_calls" msg) v in
      let injected =
        ap (λ k. inject go json m (look_up later k d)) same ∙ ap (inject go json m) found in
      let guard : (not (is_assistant m)
            || not (is_none (get "reasoning_content" m))
            || not (has_calls go json (items_of (get "tool_calls" m))))
          ≡ false =
        ground (arith, p, n, calls) in
      ground (arith, guard, injected)
