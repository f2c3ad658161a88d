-- ===== src/Reasoning/Stream/Failed.antt =====
-- A stream that goes wrong, in internal/reasoning/stream.go: ObserveLine and Commit.
use droid_proxy.Prelude.{
  ◌≡◌, refl, true, false, ◌||◌, Option, none, some, List, [], ◌∷◌, ◌++◌, String, str_eq, arith,
  Bool-cases, ◌⊎◌, inl, inr, is_none, ◌∙◌, ℕ, Option-cases,
}
use droid_proxy.Prelude.Numbers.{Time}
use droid_proxy.Prelude.GoLibrary.{GoLibrary}
use droid_proxy.Prelude.Texts.{trim_space, cut_prefix}
use droid_proxy.Reasoning.Json.{
  Items, Fields, null, boolean, number, text, array, object, no_items, item, get, items_of,
  fields_of,
}
use droid_proxy.Reasoning.Cache.{Scope, Cache}
use droid_proxy.Reasoning.Messages.{JsonCodec}
use droid_proxy.Reasoning.Stream.{
  StreamCapture, new_stream_capture, observe_line, observe_lines, commit, observe_choices,
  observe_data, choice_delta, number_index, observe_root, with_choices,
}

-- The line is an event that Decode refuses, being neither a JSON object nor null, or that has an
-- `error` field.
abbrev pub IsBad : JsonCodec → String → Type 0
IsBad json line =
    (rest : String) × (cut_prefix "data:" (trim_space line) ≡ some rest)
    × (str_eq (trim_space rest) "" ≡ false)
    × (str_eq (trim_space rest) "[DONE]" ≡ false)
    × ((json.decode (trim_space rest) ≡ none)
        ⊎ ((root : Fields) × (json.decode (trim_space rest) ≡ some root)
            × (is_none (get "error" root) ≡ false)))

bad_fails :
    (go : GoLibrary) (json : JsonCodec) (line : String) (c : StreamCapture)
    → IsBad json line
    → c.committed ≡ false
    → (observe_line go json line c).failed ≡ true
unfolding observe_line
bad_fails go json line c (rest, e, p, q, inl d) open_capture = ground (arith, e, p, q, d)
bad_fails go json line c (rest, e, p, q, inr (root, d, h)) open_capture =
    ground (arith, e, p, q, d, h)

failed_line :
    (go : GoLibrary) (json : JsonCodec) (line : String) (c : StreamCapture)
    → c.failed ≡ true
    → observe_line go json line c ≡ c
unfolding observe_line
failed_line go json line c h = ground arith

failed_stays :
    (go : GoLibrary) (json : JsonCodec) (lines : List String) (c : StreamCapture)
    → c.failed ≡ true
    → (observe_lines go json lines c).failed ≡ true
unfolding observe_lines
failed_stays go json [] c h = h
failed_stays go json (line ∷ lines) c h =
    rw (observe_lines, failed_line go json line c h) (failed_stays go json lines c h)

delta-committed :
    (go : GoLibrary) (i : ℕ) (delta : Option Fields) (c : StreamCapture)
    → (choice_delta go i delta c).committed ≡ c.committed
delta-committed go i none c = refl
delta-committed go i (some delta) c = refl

-- To observe is not to commit.
choices-committed :
    (go : GoLibrary) (xs : Items) (c : StreamCapture)
    → (observe_choices go xs c).committed ≡ c.committed
unfolding observe_choices
choices-committed go no_items c = refl
choices-committed go (item null xs) c = refl
choices-committed go (item (boolean b) xs) c = refl
choices-committed go (item (number n) xs) c = refl
choices-committed go (item (text s) xs) c = refl
choices-committed go (item (array ys) xs) c = refl
choices-committed go (item (object m) xs) c =
    let delta = fields_of (get "delta" m) in
    elim (Option-cases (number_index go (get "index" m))) [
      | inl n ↦ rw (observe_choices, n) refl
      | inr (i, e) ↦
          rw (observe_choices, e)
            (choices-committed go xs (choice_delta go i delta c) ∙ delta-committed go i delta c)
    ]

root-committed :
    (go : GoLibrary) (root : Option Fields) (c : StreamCapture)
    → (observe_root go root c).committed ≡ c.committed
root-committed go none c = refl
root-committed go (some root) c = elim (Bool-cases (is_none (get "error" root))) [
  | inr e ↦ rw e refl
  | inl e ↦ rw e (listed (items_of (get "choices" root)))
]
  where
    listed : (xs : Option Items) → (with_choices go xs c).committed ≡ c.committed
    listed none = refl
    listed (some xs) = choices-committed go xs c

data-committed :
    (go : GoLibrary) (json : JsonCodec) (rest : Option String) (c : StreamCapture)
    → (observe_data go json rest c).committed ≡ c.committed
data-committed go json none c = refl
data-committed go json (some rest) c =
    elim (Bool-cases (str_eq (trim_space rest) "" || str_eq (trim_space rest) "[DONE]")) [
      | inl e ↦ rw e refl
      | inr e ↦ rw e (root-committed go (json.decode (trim_space rest)) c)
    ]

line-committed :
    (go : GoLibrary) (json : JsonCodec) (line : String) (c : StreamCapture)
    → (observe_line go json line c).committed ≡ c.committed
unfolding observe_line
line-committed go json line c =
    ground (arith, data-committed go json (cut_prefix "data:" (trim_space line)) c)

-- A bad line among others makes the capture fail.
bad_among :
    (go : GoLibrary) (json : JsonCodec) (before after : List String) (bad : String)
    (c : StreamCapture)
    → IsBad json bad
    → c.committed ≡ false
    → (observe_lines go json (before ++ bad ∷ after) c).failed ≡ true
unfolding observe_lines
bad_among go json [] after bad c h o =
    failed_stays go json after (observe_line go json bad c) (bad_fails go json bad c h o)
bad_among go json (line ∷ before) after bad c h o =
    bad_among go json before after bad (observe_line go json line c) h
      (line-committed go json line c ∙ o)

-- When one of the lines of a stream is an event whose data json.Decoder refuses to decode into a map
-- or that has an `error` field, then Commit stores nothing, whatever came before it and comes after
-- it: the cache is as it was. Data that is null is not such an event, since Decode takes it.
pub commit_bad_stream :
    (go : GoLibrary) (json : JsonCodec) (now : Time) (scope : Scope) (before after : List String)
    (bad : String) (c : Cache)
    → IsBad json bad
    → (commit go json now
        (observe_lines go json (before ++ bad ∷ after) (new_stream_capture scope))
        c).1
      ≡ some c
unfolding commit new_stream_capture
commit_bad_stream go json now scope before after bad c h =
    ground (arith, bad_among go json before after bad (new_stream_capture scope) h refl)
