-- ===== src/Handlers/Payload/Prepare/Codex.antt =====
-- The payload that leaves for Codex: prepareCodexResponsesPayload in
-- internal/handlers/oauth_payload.go.
use droid_proxy.Prelude.{
  ◌≡◌, ◌≢◌, refl, ap, ◌∙◌, Bool, true, false, ◌&&◌, Option, none, some, List, [], ◌∷◌, All, String,
  arith, if_branches, if◌then◌else◌,
}
use droid_proxy.Prelude.GoLibrary.{GoLibrary}
use droid_proxy.Prelude.Texts.{is_blank, trim_space, equal_fold}
use droid_proxy.Reasoning.Json.{
  Json, null, boolean, number, text, array, object, no_items, item, no_fields, field,
}
use droid_proxy.Handlers.Payload.Prepare.{
  JsonBody, put, cut_each, dropped_fields, string_at, with_service_tier, with_instructions,
  with_input, message_of_text, prepare_codex_responses_payload, codex_default_instructions,
}
use droid_proxy.Handlers.Payload.Prepare.Steps.{
  IsJsonBody, is_plain, are_apart, all_apart, get-put, put_other, cut_each_other, get-cut_each,
  service_tier_other, instructions_other, input_other, if_ap,
}

abbrev pub codex_fields : List String
codex_fields =
    "service_tier" ∷ "instructions" ∷ "store" ∷ "max_output_tokens" ∷ "prompt_cache_options"
    ∷ "input" ∷ []

module _ (go : GoLibrary) {Body : Type 0} (lib : JsonBody Body) (laws : IsJsonBody lib) where
  get-instructions :
      (b : Body) → is_blank (string_at go lib "instructions" (with_instructions go lib b)) ≡ false
  unfolding with_instructions is_plain is_blank trim_space
  get-instructions b =
      if_branches (λ c. is_blank (string_at go lib "instructions" c) ≡ false)
        (is_blank (string_at go lib "instructions" b)) _ _
        (λ e.
          rw
            (
              get-put go lib laws "instructions" (text codex_default_instructions) b refl,
              laws.to_string_text codex_default_instructions,
            )
            refl)
        (λ e. e)

  get-input : (b : Body) (s : String) → lib.get "input" (with_input go lib b) ≢ some (text s)
  unfolding with_input is_plain
  get-input b s = by_value (lib.get "input" b) refl
    where
      by_value :
          (o : Option Json)
          → lib.get "input" b ≡ o
          → lib.get "input" (message_of_text go lib o b) ≢ some (text s)
      by_value none e h = cc
      by_value (some (text t)) e h = cc (h, get-put go lib laws "input" _ b refl)
      by_value (some (array vs)) e h = cc
      by_value (some (object m)) e h = cc
      by_value (some null) e h = cc
      by_value (some (boolean v)) e h = cc
      by_value (some (number n)) e h = cc

  -- What stands at the fields that the preparation rewrites, from what stood there.
  abbrev pub codex_tier : Body → Option Json
  codex_tier o =
      if equal_fold go.fold (trim_space (string_at go lib "service_tier" o)) "fast"
      then some (text "priority")
      else lib.get "service_tier" o

  abbrev pub codex_instructions : Body → Option Json
  codex_instructions o =
      if is_blank (string_at go lib "instructions" o)
      then some (text codex_default_instructions)
      else lib.get "instructions" o

  abbrev pub user_message : String → Json
  user_message s =
      array
        (item (object (field "role" (text "user") (field "content" (text s) no_fields))) no_items)

  abbrev pub codex_input : Option Json → Option Json
  codex_input (some (text s)) = some (user_message s)
  codex_input o = o

  tier_value : (b : Body) → lib.get "service_tier" (with_service_tier go lib b) ≡ codex_tier b
  unfolding with_service_tier is_plain
  tier_value b =
      let (c, e) = laws.sets "service_tier" (text "priority") b refl in
      let priority = laws.get_set "service_tier" (text "priority") b c refl e in
      rw e (if_ap (lib.get "service_tier") _ c b priority)

  instructions_value :
      (b : Body) → lib.get "instructions" (with_instructions go lib b) ≡ codex_instructions b
  unfolding with_instructions is_plain
  instructions_value b =
      if_ap (lib.get "instructions") _ _ b
        (get-put go lib laws "instructions" (text codex_default_instructions) b refl)

  input_value : (b : Body) → lib.get "input" (with_input go lib b) ≡ codex_input (lib.get "input" b)
  unfolding with_input is_plain
  input_value b = by_value (lib.get "input" b) refl
    where
      by_value :
          (o : Option Json)
          → lib.get "input" b ≡ o
          → lib.get "input" (message_of_text go lib o b) ≡ codex_input o
      by_value none e = e
      by_value (some (text t)) e = get-put go lib laws "input" _ b refl
      by_value (some (array vs)) e = e
      by_value (some (object m)) e = e
      by_value (some null) e = e
      by_value (some (boolean v)) e = e
      by_value (some (number n)) e = e

  tier_same :
      (a b : Body)
      → lib.get "service_tier" a ≡ lib.get "service_tier" b
      → codex_tier a ≡ codex_tier b
  tier_same a b e = rw e refl

  instructions_same :
      (a b : Body)
      → lib.get "instructions" a ≡ lib.get "instructions" b
      → codex_instructions a ≡ codex_instructions b
  instructions_same a b e = rw e refl

  codex_other :
      (j : String) (b : Body)
      → all_apart codex_fields j ≡ true
      → lib.get j (prepare_codex_responses_payload go lib b) ≡ lib.get j b
  unfolding prepare_codex_responses_payload
  codex_other j b a =
      input_other go lib laws j _ (ground arith)
      ∙ cut_each_other go lib laws ("max_output_tokens" ∷ "prompt_cache_options" ∷ []) j _
          (ground arith)
      ∙ put_other go lib laws "store" j _ _ (ground arith)
      ∙ instructions_other go lib laws j _ (ground arith)
      ∙ service_tier_other go lib laws j b (ground arith)

  -- What Codex is sent of a body, when its reads are `get` and its strings `str`.
  abbrev pub IsForCodex : Body → Bool → Body → Type 0
  IsForCodex o stream p =
      (lib.get "stream" p ≡ some (boolean stream))
      × All (λ k. lib.get k p ≡ none)
          ("max_output_tokens" ∷ "prompt_cache_options" ∷ dropped_fields)
      × (lib.get "store" p ≡ some (boolean false))
      × (is_blank (string_at go lib "instructions" p) ≡ false)
      × ((s : String) → lib.get "input" p ≢ some (text s))
      × (lib.get "service_tier" p ≡ codex_tier o)
      × (lib.get "instructions" p ≡ codex_instructions o)
      × (lib.get "input" p ≡ codex_input (lib.get "input" o))
      × ((j : String)
          → all_apart ("stream" ∷ codex_fields) j && all_apart dropped_fields j ≡ true
          → lib.get j p ≡ lib.get j o)

  pub codex_prepared :
      (o : Body) (stream : Bool)
      → IsForCodex o stream (
          cut_each go lib dropped_fields
            (prepare_codex_responses_payload go lib (put go lib "stream" (boolean stream) o)))
  unfolding prepare_codex_responses_payload is_plain are_apart
  codex_prepared o stream =
      let sent = put go lib "stream" (boolean stream) o in
      let instructed = with_instructions go lib (with_service_tier go lib sent) in
      let stored = put go lib "store" (boolean false) instructed in
      let cut_off = cut_each go lib ("max_output_tokens" ∷ "prompt_cache_options" ∷ []) stored in
      let done = with_input go lib cut_off in
      let other = cut_each_other go lib laws dropped_fields in
      let gone =
        get-cut_each go lib laws ("max_output_tokens" ∷ "prompt_cache_options" ∷ []) stored refl in
      (
        other "stream" done refl
            ∙ codex_other "stream" sent refl
            ∙ get-put go lib laws "stream" _ o refl,
        (
          other "max_output_tokens" done refl
              ∙ input_other go lib laws "max_output_tokens" cut_off refl
              ∙ gone.0,
          (
            other "prompt_cache_options" done refl
                ∙ input_other go lib laws "prompt_cache_options" cut_off refl
                ∙ gone.1.0,
            get-cut_each go lib laws dropped_fields done refl,
          ),
        ),
        other "store" done refl
            ∙ input_other go lib laws "store" cut_off refl
            ∙ cut_each_other go lib laws _ "store" stored refl
            ∙ get-put go lib laws "store" _ instructed refl,
        rw
            (other "instructions" done refl
              ∙ input_other go lib laws "instructions" cut_off refl
              ∙ cut_each_other go lib laws _ "instructions" stored refl
              ∙ put_other go lib laws "store" "instructions" _ instructed refl)
            (get-instructions (with_service_tier go lib sent)),
        (λ s. rw (other "input" done refl) (get-input cut_off s)),
        other "service_tier" done refl
            ∙ input_other go lib laws "service_tier" cut_off refl
            ∙ cut_each_other go lib laws _ "service_tier" stored refl
            ∙ put_other go lib laws "store" "service_tier" _ instructed refl
            ∙ instructions_other go lib laws "service_tier" (with_service_tier go lib sent) refl
            ∙ tier_value sent
            ∙ tier_same sent o (put_other go lib laws "stream" "service_tier" _ o refl),
        other "instructions" done refl
            ∙ input_other go lib laws "instructions" cut_off refl
            ∙ cut_each_other go lib laws _ "instructions" stored refl
            ∙ put_other go lib laws "store" "instructions" _ instructed refl
            ∙ instructions_value (with_service_tier go lib sent)
            ∙ instructions_same (with_service_tier go lib sent) o (
                service_tier_other go lib laws "instructions" sent refl
                ∙ put_other go lib laws "stream" "instructions" _ o refl),
        other "input" done refl
            ∙ input_value cut_off
            ∙ ap codex_input (
                cut_each_other go lib laws _ "input" stored refl
                ∙ put_other go lib laws "store" "input" _ instructed refl
                ∙ instructions_other go lib laws "input" (with_service_tier go lib sent) refl
                ∙ service_tier_other go lib laws "input" sent refl
                ∙ put_other go lib laws "stream" "input" _ o refl),
        (λ j a.
            other j done (ground arith)
            ∙ codex_other j sent (ground arith)
            ∙ put_other go lib laws "stream" j _ o (ground arith)),
      )
