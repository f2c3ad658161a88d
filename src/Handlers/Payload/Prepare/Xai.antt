-- ===== src/Handlers/Payload/Prepare/Xai.antt =====
-- The payload that leaves for xAI: prepareXAIResponsesPayload in internal/handlers/oauth_payload.go.
use droid_proxy.Prelude.{
  ◌≡◌, ◌≢◌, refl, sym, subst, ap, ◌∙◌, Bool, true, false, ◌&&◌, Option, none, some, List, [], ◌∷◌,
  All, String, str_eq, not, eq_iff, arith, if◌then◌else◌, if_branches,
}
use droid_proxy.Prelude.GoLibrary.{GoLibrary, to_lower}
use droid_proxy.Prelude.Texts.{is_blank}
use droid_proxy.Config.{ModelConfig}
use droid_proxy.Config.Models.{resolved_capabilities}
use droid_proxy.Reasoning.Json.{
  Json, null, boolean, number, text, array, object, Items, no_items, item,
}
use droid_proxy.Handlers.Cooldown.{Headers}
use droid_proxy.Handlers.Payload.Tools.{join_items, normalize_xai_tools}
use droid_proxy.Handlers.Payload.Tools.Accepted.{AllAccepted, normalize_xai_tools-AllAccepted}
use droid_proxy.Handlers.Payload.Prepare.{
  JsonBody, put, cut, cut_each, dropped_fields, with_reasoning, with_cache_key, with_tools,
  set_xai_include, set_xai_tools, prepare_xai_responses_payload, xai_reasoning_present,
  include_xai_encrypted_reasoning, has_marker, append_if_missing, marker, string_at, xai_session_id,
}
use droid_proxy.Handlers.Payload.Prepare.Steps.{
  IsJsonBody, is_plain, are_apart, all_apart, get-put, get-cut, put_other, cut_other,
  cut_each_other, get-cut_each, tools_other, if_other, if_ap,
}

abbrev pub xai_fields : List String
xai_fields = "service_tier" ∷ "reasoning" ∷ "prompt_cache_key" ∷ "tools" ∷ "include" ∷ []

has_marker-join : (vs : Items) → has_marker (join_items vs (item (text marker) no_items)) ≡ true
unfolding has_marker join_items
has_marker-join no_items = refl
has_marker-join (item v vs) = ground (arith, has_marker-join vs)

has_marker-append : (vs : Items) → has_marker (append_if_missing vs) ≡ true
unfolding append_if_missing
has_marker-append vs =
    if_branches (λ ws. has_marker ws ≡ true) (has_marker vs) _ _ (λ e. e) (λ e. has_marker-join vs)

has_marker-include : (o : Option Json) → has_marker (include_xai_encrypted_reasoning o) ≡ true
unfolding include_xai_encrypted_reasoning has_marker
has_marker-include (some (array vs)) = has_marker-append vs
has_marker-include (some (text s)) = has_marker-append (item (text s) no_items)
has_marker-include none = refl
has_marker-include (some null) = refl
has_marker-include (some (object m)) = refl
has_marker-include (some (boolean b)) = refl
has_marker-include (some (number n)) = refl

abbrev items_or : Items → Option Json → Items
items_or d (some (array vs)) = vs
items_or d _ = d

module _ (go : GoLibrary) {Body : Type 0} (lib : JsonBody Body) (laws : IsJsonBody lib) where
  reasoning_other :
      (m : ModelConfig) (j : String) (b : Body)
      → are_apart "reasoning" j ≡ true
      → lib.get j (with_reasoning go lib m b) ≡ lib.get j b
  unfolding with_reasoning
  reasoning_other m j b a =
      if_branches (λ c. lib.get j c ≡ lib.get j b) _ b (cut go lib "reasoning" b) (λ e. refl)
        (λ e. cut_other go lib laws "reasoning" j b a)

  cache_key_other :
      (h : Headers) (j : String) (b : Body)
      → are_apart "prompt_cache_key" j ≡ true
      → lib.get j (with_cache_key go lib h b) ≡ lib.get j b
  unfolding with_cache_key
  cache_key_other h j b a =
      if_other go lib laws j _ b _ (put_other go lib laws "prompt_cache_key" j _ b a)

  -- What stands at the fields that the preparation rewrites, from what stood there.
  abbrev pub xai_cache_key : Headers → Body → Option Json
  xai_cache_key h o =
      if is_blank (string_at go lib "prompt_cache_key" o) && not (str_eq (xai_session_id h) "")
      then some (text (xai_session_id h))
      else lib.get "prompt_cache_key" o

  abbrev pub xai_reasoning : ModelConfig → Body → Option Json
  xai_reasoning m o =
      if str_eq (resolved_capabilities m).factory_reasoning "passthrough"
      then lib.get "reasoning" o
      else none

  abbrev pub xai_tools : Option Json → Option Json
  xai_tools (some (array vs)) = some (array (normalize_xai_tools go vs))
  xai_tools o = o

  abbrev pub xai_include : Body → Option Json
  xai_include o =
      if xai_reasoning_present go lib o
      then some (array (include_xai_encrypted_reasoning (lib.get "include" o)))
      else lib.get "include" o

  cache_key_value :
      (h : Headers) (b : Body)
      → lib.get "prompt_cache_key" (with_cache_key go lib h b) ≡ xai_cache_key h b
  unfolding with_cache_key is_plain
  cache_key_value h b =
      if_ap (lib.get "prompt_cache_key") _ _ b
        (get-put go lib laws "prompt_cache_key" (text (xai_session_id h)) b refl)

  cache_key_same :
      (h : Headers) (a b : Body)
      → lib.get "prompt_cache_key" a ≡ lib.get "prompt_cache_key" b
      → xai_cache_key h a ≡ xai_cache_key h b
  cache_key_same h a b e = rw e refl

  reasoning_value :
      (m : ModelConfig) (b : Body)
      → lib.get "reasoning" (with_reasoning go lib m b) ≡ xai_reasoning m b
  unfolding with_reasoning is_plain
  reasoning_value m b =
      if_then (str_eq (resolved_capabilities m).factory_reasoning "passthrough") b
        (cut go lib "reasoning" b) (get-cut go lib laws "reasoning" b refl)
    where
      if_then :
          (t : Bool) (a c : Body)
          → lib.get "reasoning" c ≡ none
          → lib.get "reasoning" (if t then a else c) ≡ (if t then lib.get "reasoning" a else none)
      if_then true a c e = refl
      if_then false a c e = e

  reasoning_same :
      (m : ModelConfig) (a b : Body)
      → lib.get "reasoning" a ≡ lib.get "reasoning" b
      → xai_reasoning m a ≡ xai_reasoning m b
  reasoning_same m a b e = rw e refl

  tools_value : (b : Body) → lib.get "tools" (with_tools go lib b) ≡ xai_tools (lib.get "tools" b)
  unfolding with_tools is_plain
  tools_value b = by_value (lib.get "tools" b) refl
    where
      by_value :
          (o : Option Json)
          → lib.get "tools" b ≡ o
          → lib.get "tools" (set_xai_tools go lib o b) ≡ xai_tools o
      by_value none e = e
      by_value (some (array vs)) e = get-put go lib laws "tools" _ b refl
      by_value (some (text s)) e = e
      by_value (some (object m)) e = e
      by_value (some null) e = e
      by_value (some (boolean v)) e = e
      by_value (some (number n)) e = e

  include_value :
      (t : Bool) (b : Body)
      → lib.get "include" (if t then set_xai_include go lib b else b) ≡ (
          if t
          then some (array (include_xai_encrypted_reasoning (lib.get "include" b)))
          else lib.get "include" b)
  unfolding set_xai_include is_plain
  include_value t b = if_ap (lib.get "include") t _ b (get-put go lib laws "include" _ b refl)

  include_same :
      (t : Bool) (a b : Body)
      → t ≡ xai_reasoning_present go lib b
      → lib.get "include" a ≡ lib.get "include" b
      → (if t
          then some (array (include_xai_encrypted_reasoning (lib.get "include" a)))
          else lib.get "include" a)
        ≡ xai_include b
  include_same t a b e f = rw (e, f) refl

  -- The tools, if they are an array, are accepted ones.
  tools_accepted :
      (lowers : to_lower go.lower "function" ≡ "function") (b : Body) (vs : Items)
      → lib.get "tools" (with_tools go lib b) ≡ some (array vs)
      → AllAccepted go lowers vs
  unfolding with_tools is_plain
  tools_accepted lowers b vs e = by_value (lib.get "tools" b) refl e
    where
      by_value :
          (o : Option Json)
          → lib.get "tools" b ≡ o
          → lib.get "tools" (set_xai_tools go lib o b) ≡ some (array vs)
          → AllAccepted go lowers vs
      by_value none f h = cc
      by_value (some (array us)) f h =
          subst (AllAccepted go lowers)
            (ap (items_or no_items) (sym (get-put go lib laws "tools" _ b refl) ∙ h))
            (normalize_xai_tools-AllAccepted go lowers us)
      by_value (some (text s)) f h = cc
      by_value (some (object m)) f h = cc
      by_value (some null) f h = cc
      by_value (some (boolean v)) f h = cc
      by_value (some (number n)) f h = cc

  -- The steps before the include marker.
  abbrev worked : ModelConfig → Headers → Body → Body
  worked m h b =
      with_tools go lib
        (with_cache_key go lib h (with_reasoning go lib m (cut go lib "service_tier" b)))

  worked_other :
      (m : ModelConfig) (h : Headers) (j : String) (b : Body)
      → all_apart xai_fields j ≡ true
      → lib.get j (worked m h b) ≡ lib.get j b
  worked_other m h j b a =
      tools_other go lib laws j _ (ground arith)
      ∙ cache_key_other h j _ (ground arith)
      ∙ reasoning_other m j _ (ground arith)
      ∙ cut_other go lib laws "service_tier" j b (ground arith)

  include_other :
      (j : String) (t : Bool) (b : Body)
      → are_apart "include" j ≡ true
      → lib.get j (if t then set_xai_include go lib b else b) ≡ lib.get j b
  unfolding set_xai_include
  include_other j t b a = if_other go lib laws j t b _ (put_other go lib laws "include" j _ b a)

  -- What xAI is sent of a body, when the body with its overrides is `o`.
  abbrev pub IsForXai :
      to_lower go.lower "function" ≡ "function"
      → ModelConfig
      → Headers
      → Body
      → Bool
      → Body
      → Type 0
  IsForXai lowers m h o stream p =
      (lib.get "stream" p ≡ some (boolean stream))
      × All (λ k. lib.get k p ≡ none) ("service_tier" ∷ dropped_fields)
      × ((resolved_capabilities m).factory_reasoning ≢ "passthrough" → lib.get "reasoning" p ≡ none)
      × ((vs : Items) → lib.get "tools" p ≡ some (array vs) → AllAccepted go lowers vs)
      × (xai_reasoning_present go lib o ≡ true
          → (vs : Items) × (lib.get "include" p ≡ some (array vs)) × (has_marker vs ≡ true))
      × (lib.get "prompt_cache_key" p ≡ xai_cache_key h o)
      × (lib.get "reasoning" p ≡ xai_reasoning m o)
      × (lib.get "tools" p ≡ xai_tools (lib.get "tools" o))
      × (lib.get "include" p ≡ xai_include o)
      × ((j : String)
          → all_apart ("stream" ∷ xai_fields) j && all_apart dropped_fields j ≡ true
          → lib.get j p ≡ lib.get j o)

  reasoning_cut :
      (m : ModelConfig) (b : Body)
      → (resolved_capabilities m).factory_reasoning ≢ "passthrough"
      → lib.get "reasoning" (with_reasoning go lib m b) ≡ none
  unfolding with_reasoning is_plain
  reasoning_cut m b n =
      if_branches (λ c. lib.get "reasoning" c ≡ none)
        (str_eq (resolved_capabilities m).factory_reasoning "passthrough") b _
        (λ e. absurd (n ((eq_iff (resolved_capabilities m).factory_reasoning "passthrough").0 e)))
        (λ e. get-cut go lib laws "reasoning" b refl)

  present_same :
      (o b : Body)
      → lib.get "reasoning" b ≡ lib.get "reasoning" o
      → lib.get "input" b ≡ lib.get "input" o
      → xai_reasoning_present go lib b ≡ xai_reasoning_present go lib o
  unfolding xai_reasoning_present
  present_same o b e f = rw (e, f) refl

  pub xai_prepared :
      (lowers : to_lower go.lower "function" ≡ "function") (m : ModelConfig) (h : Headers)
      (o : Body) (stream : Bool)
      → IsForXai lowers m h o stream (
          prepare_xai_responses_payload go lib m h
            (cut_each go lib dropped_fields (put go lib "stream" (boolean stream) o)))
  unfolding prepare_xai_responses_payload is_plain are_apart with_reasoning set_xai_include
  xai_prepared lowers m h o stream =
      let sent = put go lib "stream" (boolean stream) o in
      let b = cut_each go lib dropped_fields sent in
      let bare = cut go lib "service_tier" b in
      let reasoned = with_reasoning go lib m bare in
      let keyed = with_cache_key go lib h reasoned in
      let w = worked m h b in
      let t = xai_reasoning_present go lib b in
      let other = λ (j : String) (a : are_apart "include" j ≡ true). include_other j t w a in
      let dropped =
        λ (k : String) (a : are_apart "include" k ≡ true) (c : all_apart xai_fields k ≡ true)
            (e : lib.get k b ≡ none).
          other k a ∙ worked_other m h k b c ∙ e in
      let gone = get-cut_each go lib laws dropped_fields sent refl in
      let from =
        λ (j : String) (a : all_apart dropped_fields j ≡ true) (c : are_apart "stream" j ≡ true).
          cut_each_other go lib laws dropped_fields j sent a
          ∙ put_other go lib laws "stream" j (boolean stream) o c in
      let present : t ≡ xai_reasoning_present go lib o =
        present_same o b (from "reasoning" refl refl) (from "input" refl refl) in
      (
        other "stream" refl
            ∙ worked_other m h "stream" b refl
            ∙ cut_each_other go lib laws dropped_fields "stream" sent refl
            ∙ get-put go lib laws "stream" _ o refl,
        (
          other "service_tier" refl
              ∙ tools_other go lib laws "service_tier" keyed refl
              ∙ cache_key_other h "service_tier" reasoned refl
              ∙ reasoning_other m "service_tier" bare refl
              ∙ get-cut go lib laws "service_tier" b refl,
          (
            dropped "previous_response_id" refl refl gone.0,
            (
              dropped "prompt_cache_retention" refl refl gone.1.0,
              (
                dropped "safety_identifier" refl refl gone.1.1.0,
                (dropped "stream_options" refl refl gone.1.1.1.0, tt),
              ),
            ),
          ),
        ),
        (λ n.
            other "reasoning" refl
            ∙ tools_other go lib laws "reasoning" keyed refl
            ∙ cache_key_other h "reasoning" reasoned refl
            ∙ reasoning_cut m bare n),
        (λ vs e. tools_accepted lowers keyed vs (sym (other "tools" refl) ∙ e)),
        (λ r.
            let q : t ≡ true = present ∙ r in
            (
              include_xai_encrypted_reasoning (lib.get "include" w),
              rw q (get-put go lib laws "include" _ w refl),
              has_marker-include (lib.get "include" w),
            )),
        other "prompt_cache_key" refl
            ∙ tools_other go lib laws "prompt_cache_key" keyed refl
            ∙ cache_key_value h reasoned
            ∙ cache_key_same h reasoned o (
                reasoning_other m "prompt_cache_key" bare refl
                ∙ cut_other go lib laws "service_tier" "prompt_cache_key" b refl
                ∙ from "prompt_cache_key" refl refl),
        other "reasoning" refl
            ∙ tools_other go lib laws "reasoning" keyed refl
            ∙ cache_key_other h "reasoning" reasoned refl
            ∙ reasoning_value m bare
            ∙ reasoning_same m bare o (
                cut_other go lib laws "service_tier" "reasoning" b refl
                ∙ from "reasoning" refl refl),
        other "tools" refl
            ∙ tools_value keyed
            ∙ ap xai_tools (
                cache_key_other h "tools" reasoned refl
                ∙ reasoning_other m "tools" bare refl
                ∙ cut_other go lib laws "service_tier" "tools" b refl
                ∙ from "tools" refl refl),
        include_value t w
            ∙ include_same t w o present (
                tools_other go lib laws "include" keyed refl
                ∙ cache_key_other h "include" reasoned refl
                ∙ reasoning_other m "include" bare refl
                ∙ cut_other go lib laws "service_tier" "include" b refl
                ∙ from "include" refl refl),
        (λ j a.
            other j (ground arith)
            ∙ worked_other m h j b (ground arith)
            ∙ cut_each_other go lib laws dropped_fields j sent (ground arith)
            ∙ put_other go lib laws "stream" j _ o (ground arith)),
      )
