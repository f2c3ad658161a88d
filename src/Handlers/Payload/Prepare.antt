-- ===== src/Handlers/Payload/Prepare.antt =====
-- The request that goes to an OAuth upstream: prepareOAuthResponsesPayload and
-- dropEncryptedReasoningInclude in internal/handlers/oauth_payload.go, xaiUsesCLIChatProxy in
-- oauth_headers.go and applyUpstreamPayloadOverrides in base.go. gjson and sjson are a parameter.
pub mod Steps
pub mod Codex
pub mod Xai
pub mod Prepared
use droid_proxy.Prelude.{
  Bool, true, false, not, ◌&&◌, ◌||◌, Option, none, some, List, [], ◌∷◌, String, str_eq, is_none,
  if◌then◌else◌,
}
use droid_proxy.Prelude.GoLibrary.{GoLibrary}
use droid_proxy.Prelude.Texts.{trim_space, is_blank, equal_fold, str_ltb}
use droid_proxy.Prelude.Sort.{sort}
use droid_proxy.Config.{ModelConfig}
use droid_proxy.Config.Models.{NetLibrary, Url, resolved_capabilities}
use droid_proxy.Reasoning.Json as J
use droid_proxy.Reasoning.Json.{
  Json, null, boolean, number, text, array, object, Items, no_items, item, Fields, no_fields, field,
  text_of,
}
use droid_proxy.Handlers.Cooldown.{Headers, get_header}
use droid_proxy.Handlers.Payload.Tools.{join_items, normalize_xai_tools}

-- What the code takes of gjson and sjson. Paths that are names are read and written at the top of
-- the body. `none` of a write is an error, and of a read a value that does not exist.
pub record JsonBody (Body : Type 0) : Type 0 where
  pub get : String → Body → Option Json
  pub set : String → Json → Body → Option Body
  pub delete : String → Body → Option Body
  -- `String()` of a value
  pub to_string : Json → String

abbrev codex_default_instructions : String
codex_default_instructions = "You are Codex, a concise coding assistant."

abbrev pub marker : String
marker = "reasoning.encrypted_content"

abbrev pub dropped_fields : List String
dropped_fields =
    "previous_response_id" ∷ "prompt_cache_retention" ∷ "safety_identifier" ∷ "stream_options" ∷ []

abbrev or_body : {Body : Type 0} → Body → Option Body → Body
or_body b none = b
or_body b (some c) = c

-- The first of the values that is not blank, trimmed.
unfoldable pub first_set : List String → String
first_set [] = ""
first_set (v ∷ vs) = if is_blank v then first_set vs else trim_space v

-- xaiSessionID.
unfoldable pub xai_session_id : Headers → String
xai_session_id h = first_set (
    get_header "X-Session-Id" h
    ∷ get_header "Session_id" h
    ∷ get_header "X-Client-Request-Id" h
    ∷ [])

unfoldable pub has_marker : Items → Bool
has_marker no_items = false
has_marker (item v vs) = str_eq (text_of (some v)) marker || has_marker vs

-- `appendIfMissing` in includeXAIEncryptedReasoning.
unfoldable pub append_if_missing : Items → Items
append_if_missing vs = if has_marker vs then vs else join_items vs (item (text marker) no_items)

-- includeXAIEncryptedReasoning.
unfoldable pub include_xai_encrypted_reasoning : Option Json → Items
include_xai_encrypted_reasoning (some (array vs)) = append_if_missing vs
include_xai_encrypted_reasoning (some (text s)) = append_if_missing (item (text s) no_items)
include_xai_encrypted_reasoning _ = item (text marker) no_items

module _ (go : GoLibrary) where
  unfoldable mutual
    -- xaiValueContainsReasoning.
    pub contains_reasoning : Json → Bool
    contains_reasoning (object m) =
        equal_fold go.fold (text_of (J.get "type" m)) "reasoning"
        || not (is_blank (text_of (J.get "encrypted_content" m)))
        || fields_contain_reasoning m
    contains_reasoning (array vs) = items_contain_reasoning vs
    contains_reasoning null = false
    contains_reasoning (boolean b) = false
    contains_reasoning (number n) = false
    contains_reasoning (text s) = false

    pub items_contain_reasoning : Items → Bool
    items_contain_reasoning no_items = false
    items_contain_reasoning (item v vs) = contains_reasoning v || items_contain_reasoning vs

    pub fields_contain_reasoning : Fields → Bool
    fields_contain_reasoning no_fields = false
    fields_contain_reasoning (field k v m) = contains_reasoning v || fields_contain_reasoning m

  abbrev is_cli_chat_proxy : Option Url → Bool
  is_cli_chat_proxy none = false
  is_cli_chat_proxy (some u) = equal_fold go.fold u.hostname "cli-chat-proxy.grok.com"

  -- xaiUsesCLIChatProxy, of no token.
  unfoldable pub xai_uses_cli_chat_proxy : NetLibrary → ModelConfig → Bool
  xai_uses_cli_chat_proxy net m = is_cli_chat_proxy (net.parse_url (trim_space m.base_url))

  module _ {Body : Type 0} (lib : JsonBody Body) where
    unfoldable pub put : String → Json → Body → Body
    put k v b = or_body b (lib.set k v b)

    unfoldable pub cut : String → Body → Body
    cut k b = or_body b (lib.delete k b)

    abbrev string_of : Option Json → String
    string_of none = ""
    string_of (some v) = lib.to_string v

    -- `gjson.GetBytes(body, k).String()`.
    abbrev pub string_at : String → Body → String
    string_at k b = string_of (lib.get k b)

    unfoldable pub put_each : List (String × Json) → Body → Body
    put_each [] b = b
    put_each ((k, v) ∷ args) b = put_each args (put k v b)

    unfoldable pub cut_each : List String → Body → Body
    cut_each [] b = b
    cut_each (k ∷ ks) b = cut_each ks (cut k b)

    -- applyUpstreamPayloadOverrides.
    unfoldable pub apply_upstream_payload_overrides : ModelConfig → Body → Body
    apply_upstream_payload_overrides m b =
        put_each (sort (λ x y. str_ltb x.0 y.0) m.extra_args)
          (if is_blank m.upstream_model then b else put "model" (text m.upstream_model) b)

    abbrev or_cut : Body → Option Body → Body
    or_cut b none = cut "service_tier" b
    or_cut b (some c) = c

    -- The steps of prepareCodexResponsesPayload.
    unfoldable pub with_service_tier : Body → Body
    with_service_tier b =
        if equal_fold go.fold (trim_space (string_at "service_tier" b)) "fast"
        then or_cut b (lib.set "service_tier" (text "priority") b)
        else b

    unfoldable pub with_instructions : Body → Body
    with_instructions b =
        if is_blank (string_at "instructions" b)
        then put "instructions" (text codex_default_instructions) b
        else b

    abbrev message_of_text : Option Json → Body → Body
    message_of_text (some (text s)) b =
        put "input"
          (array (
            item (object (field "role" (text "user") (field "content" (text s) no_fields)))
              no_items))
          b
    message_of_text _ b = b

    unfoldable pub with_input : Body → Body
    with_input b = message_of_text (lib.get "input" b) b

    -- prepareCodexResponsesPayload.
    unfoldable pub prepare_codex_responses_payload : Body → Body
    prepare_codex_responses_payload b = with_input (
        cut_each ("max_output_tokens" ∷ "prompt_cache_options" ∷ [])
          (put "store" (boolean false) (with_instructions (with_service_tier b))))

    -- xaiReasoningPresentBytes.
    abbrev input_contains_reasoning : Option Json → Bool
    input_contains_reasoning none = false
    input_contains_reasoning (some v) = contains_reasoning v

    unfoldable pub xai_reasoning_present : Body → Bool
    xai_reasoning_present b =
        not (is_none (lib.get "reasoning" b)) || input_contains_reasoning (lib.get "input" b)

    -- The steps of prepareXAIResponsesPayload.
    unfoldable pub with_reasoning : ModelConfig → Body → Body
    with_reasoning m b =
        if str_eq (resolved_capabilities m).factory_reasoning "passthrough"
        then b
        else cut "reasoning" b

    unfoldable pub with_cache_key : Headers → Body → Body
    with_cache_key h b =
        if is_blank (string_at "prompt_cache_key" b) && not (str_eq (xai_session_id h) "")
        then put "prompt_cache_key" (text (xai_session_id h)) b
        else b

    abbrev set_xai_tools : Option Json → Body → Body
    set_xai_tools (some (array vs)) b = put "tools" (array (normalize_xai_tools go vs)) b
    set_xai_tools _ b = b

    unfoldable pub with_tools : Body → Body
    with_tools b = set_xai_tools (lib.get "tools" b) b

    -- setXAIInclude.
    unfoldable pub set_xai_include : Body → Body
    set_xai_include b =
        put "include" (array (include_xai_encrypted_reasoning (lib.get "include" b))) b

    -- prepareXAIResponsesPayload.
    unfoldable pub prepare_xai_responses_payload : ModelConfig → Headers → Body → Body
    prepare_xai_responses_payload m h b =
        let c = with_tools (with_cache_key h (with_reasoning m (cut "service_tier" b))) in
        if xai_reasoning_present b then set_xai_include c else c

    -- prepareOAuthResponsesPayload.
    unfoldable pub prepare_oauth_responses_payload :
        NetLibrary → ModelConfig → Bool → Headers → Body → Body
    prepare_oauth_responses_payload net m stream h b =
        let xai = str_eq m.oauth_provider "xai" in
        let sent =
          put "stream" (boolean (stream || xai && xai_uses_cli_chat_proxy net m))
            (apply_upstream_payload_overrides m b) in
        let c = cut_each dropped_fields (
          if str_eq m.oauth_provider "codex" then prepare_codex_responses_payload sent else sent) in
        if xai then prepare_xai_responses_payload m h c else c

    abbrev is_marker : Json → Bool
    is_marker v = str_eq (lib.to_string v) marker

    -- The values that are kept, as texts.
    unfoldable pub without_marker : Items → Items
    without_marker no_items = no_items
    without_marker (item v vs) =
        if is_marker v then without_marker vs else item (text (lib.to_string v)) (without_marker vs)

    unfoldable pub names_marker : Items → Bool
    names_marker no_items = false
    names_marker (item v vs) = is_marker v || names_marker vs

    abbrev put_include : Items → Body → Body
    put_include no_items b = cut "include" b
    put_include (item v vs) b = put "include" (array (item v vs)) b

    abbrev drop_from : Option Json → Body → Body
    drop_from (some (text s)) b = if is_marker (text s) then cut "include" b else b
    drop_from (some (array vs)) b = if names_marker vs then put_include (without_marker vs) b else b
    drop_from _ b = b

    -- dropEncryptedReasoningInclude.
    unfoldable pub drop_encrypted_reasoning_include : Body → Body
    drop_encrypted_reasoning_include b = drop_from (lib.get "include" b) b
