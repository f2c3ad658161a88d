-- ===== src/Handlers/Payload/Tests.antt =====
-- Payloads as decoded objects.
use droid_proxy.Prelude.{
  ℕ, ◌≡◌, refl, sym, ap, ◌∙◌, Bool, true, false, not, ◌&&◌, Option, none, some, List, [], ◌∷◌,
  String, str_eq, eq_iff, eq_refl, arith, if◌then◌else◌,
}
use droid_proxy.Prelude.GoLibrary.{to_lower}
use droid_proxy.Prelude.Numbers.{pos}
use droid_proxy.Samples.{plain_go}
use droid_proxy.Config.{ModelConfig}
use droid_proxy.Config.Models.{Url, NetLibrary}
use droid_proxy.Reasoning.Json.{
  Json, null, boolean, number, text, array, object, Items, no_items, item, Fields, no_fields, field,
  get, set,
}
use droid_proxy.Reasoning.Json.Lookups.{get-set}
use droid_proxy.Handlers.Payload.Schema.{sanitize_schema}
use droid_proxy.Handlers.Payload.Tools.{normalize_xai_tools}
use droid_proxy.Handlers.Payload.Tools.Accepted.{AllAccepted, normalize_xai_tools-AllAccepted}
use droid_proxy.Handlers.Payload.Prepare.{
  JsonBody, apply_upstream_payload_overrides, prepare_oauth_responses_payload,
  drop_encrypted_reasoning_include, xai_uses_cli_chat_proxy,
}
use droid_proxy.Handlers.Payload.Prepare.Steps.{IsJsonBody, are_apart}
use droid_proxy.Handlers.Payload.Prepare.Codex.{IsForCodex}
use droid_proxy.Handlers.Payload.Prepare.Xai.{IsForXai}
use droid_proxy.Handlers.Payload.Prepare.Prepared.{prepare_oauth_responses_payload_lem}

without_all : String → Fields → Fields
without_all k no_fields = no_fields
without_all k (field j v m) = if str_eq j k then without_all k m else field j v (without_all k m)

get-without_all :
    (k j : String) (m : Fields) → get j (without_all k m) ≡ (if str_eq k j then none else get j m)
unfolding get without_all
get-without_all k j no_fields = ground arith
get-without_all k j (field i v m) =
    ground (arith, eq_iff k j, eq_iff i k, eq_iff i j, get-without_all k j m)

abbrev string_of : Json → String
string_of (text s) = s
string_of _ = ""

abbrev decoded : JsonBody Fields
decoded = record {
  get = get;
  set = λ k v m. some (set k v m);
  delete = λ k m. some (without_all k m);
  to_string = string_of;
}

abbrev fields_or : Fields → Option Fields → Fields
fields_or d none = d
fields_or d (some m) = m

apart_lem : (k j : String) → are_apart k j ≡ true → str_eq k j ≡ false
unfolding are_apart
apart_lem k j h = ground arith

decoded-IsJsonBody : IsJsonBody decoded
decoded-IsJsonBody = record {
  sets = λ k v b p. (set k v b, refl);
  deletes = λ k b p. (without_all k b, refl);
  get_set = λ k v b c p e.
      ap (get k) (sym (ap (fields_or b) e)) ∙ get-set k k v b ∙ (rw (eq_refl k) refl);
  get_delete = λ k b c p e.
      ap (get k) (sym (ap (fields_or b) e)) ∙ get-without_all k k b ∙ (rw (eq_refl k) refl);
  get_set_other = λ k j v b c p e.
      ap (get j) (sym (ap (fields_or b) e)) ∙ get-set k j v b ∙ (rw (apart_lem k j p) refl);
  get_delete_other = λ k j b c p e.
      ap (get j) (sym (ap (fields_or b) e)) ∙ get-without_all k j b ∙ (rw (apart_lem k j p) refl);
  to_string_text = λ s. refl;
}

lowers : to_lower plain_go.lower "function" ≡ "function"
unfolding to_lower
lowers = refl

-- A parameter named "format" is no keyword.
abbrev schema : Json
schema = object (
    field "format" (text "uri") (
      field "properties"
        (object (field "format" (object (field "pattern" (text "x") no_fields)) no_fields))
        (field "enum" (array (item (text "a/b") (item (text "c") no_items))) no_fields)))

test_schema :
    sanitize_schema schema
    ≡ object (
        field "properties"
          (object (field "format" (object no_fields) no_fields))
          (field "enum" (array (item (text "c") no_items)) no_fields))
unfolding sanitize_schema droid_proxy.Handlers.Payload.Schema.without_slashes
    droid_proxy.Prelude.Texts.contains
test_schema = refl

abbrev tool : String → String → Json
tool kind name = object (field "type" (text kind) (field "name" (text name) no_fields))

abbrev tools : Items
tools = item (tool "custom" "edit") (
    item (tool "function" "apply_patch") (
      item
        (object (
          field "type" (text "namespace")
            (field "tools" (array (item (tool "web_search" "find") no_items)) no_fields)))
        (item null no_items)))

test_tools :
    normalize_xai_tools plain_go tools
    ≡ item
        (object (
          field "type"
            (text "function")
            (field "name" (text "edit") (field "parameters" (object no_fields) no_fields))))
        (item (tool "web_search" "find") no_items)
unfolding normalize_xai_tools droid_proxy.Handlers.Payload.Tools.tool_type to_lower
    droid_proxy.Prelude.Texts.trim_space get droid_proxy.Handlers.Payload.Tools.normalize_xai_tool
    droid_proxy.Handlers.Payload.Tools.unsupported_xai_tool
    droid_proxy.Handlers.Payload.Tools.xai_tool_name droid_proxy.Prelude.Texts.has_suffix
    droid_proxy.Handlers.Payload.Tools.sanitize_xai_tool_fields
    droid_proxy.Handlers.Payload.Tools.join_items droid_proxy.Prelude.Texts.is_prefix
    droid_proxy.Handlers.Payload.Tools.normalize_function
    droid_proxy.Handlers.Payload.Tools.strip_xai_web_search_fields
    droid_proxy.Handlers.Payload.Tools.ensure_xai_function_parameters
    droid_proxy.Handlers.Payload.Tools.without_each droid_proxy.Handlers.Payload.Tools.as_function
    droid_proxy.Reasoning.Json.without set droid_proxy.Handlers.Payload.Tools.with_parameters
    sanitize_schema droid_proxy.Handlers.Payload.Schema.without_slashes
    droid_proxy.Handlers.Payload.Tools.sanitize_function_fields droid_proxy.Prelude.Texts.contains
test_tools = refl

normalize_xai_tools-AllAccepted_example :
    AllAccepted plain_go lowers (normalize_xai_tools plain_go tools)
normalize_xai_tools-AllAccepted_example = normalize_xai_tools-AllAccepted plain_go lowers tools

abbrev grok : ModelConfig
grok = record {
  alias = "grok";
  display_name = "";
  factory_provider = "openai";
  upstream_protocol = "xai-responses";
  oauth_provider = "xai";
  oauth_account = "";
  upstream_model = "grok-4";
  base_url = "";
  api_key_env = "";
  known_auth = "";
  max_output_tokens = pos 0;
  max_context_tokens = pos 0;
  extra_headers = [];
  extra_args = ("user", text "u") ∷ [];
  capabilities = record {
    streaming = none;
    tools = none;
    tool_result_safe = none;
    images = none;
    json_mode = none;
    structured_output = none;
    reasoning = "";
    factory_reasoning = "";
    factory_reasoning_effort = "";
    prompt_caching = none;
  };
}

abbrev net : NetLibrary
net = record { parse_url = λ s. none; parse_ip = λ s. none }

abbrev request : Fields
request = field "reasoning" (object no_fields) (
    field "service_tier" (text "fast")
      (field "tools" (array tools) (field "input" (text "hello") no_fields)))

abbrev sent : ModelConfig → Fields
sent m = prepare_oauth_responses_payload plain_go decoded net m true [] request

test_include :
    get "include" (sent grok) ≡ some (array (item (text "reasoning.encrypted_content") no_items))
unfolding get prepare_oauth_responses_payload
    droid_proxy.Handlers.Payload.Prepare.prepare_xai_responses_payload
    droid_proxy.Handlers.Payload.Prepare.xai_reasoning_present
    droid_proxy.Handlers.Payload.Prepare.cut_each droid_proxy.Handlers.Payload.Prepare.cut
    without_all droid_proxy.Handlers.Payload.Prepare.put set apply_upstream_payload_overrides
    droid_proxy.Handlers.Payload.Prepare.put_each droid_proxy.Prelude.Sort.sort
    droid_proxy.Prelude.Texts.is_blank droid_proxy.Prelude.Texts.trim_space
    droid_proxy.Handlers.Payload.Prepare.set_xai_include
    droid_proxy.Handlers.Payload.Prepare.with_tools
    droid_proxy.Handlers.Payload.Prepare.with_cache_key
    droid_proxy.Config.Models.default_factory_reasoning
    droid_proxy.Config.Models.resolved_capabilities droid_proxy.Handlers.Cooldown.get_header
    droid_proxy.Handlers.Payload.Prepare.append_if_missing
    droid_proxy.Handlers.Payload.Prepare.contains_reasoning
    droid_proxy.Handlers.Payload.Prepare.first_set droid_proxy.Handlers.Payload.Prepare.has_marker
    droid_proxy.Handlers.Payload.Prepare.include_xai_encrypted_reasoning
    droid_proxy.Handlers.Payload.Prepare.prepare_codex_responses_payload
    droid_proxy.Handlers.Payload.Prepare.with_input
    droid_proxy.Handlers.Payload.Prepare.with_instructions
    droid_proxy.Handlers.Payload.Prepare.with_reasoning
    droid_proxy.Handlers.Payload.Prepare.with_service_tier
    droid_proxy.Handlers.Payload.Prepare.xai_session_id xai_uses_cli_chat_proxy sanitize_schema
    droid_proxy.Handlers.Payload.Schema.without_slashes
    droid_proxy.Handlers.Payload.Tools.as_function
    droid_proxy.Handlers.Payload.Tools.ensure_xai_function_parameters
    droid_proxy.Handlers.Payload.Tools.join_items
    droid_proxy.Handlers.Payload.Tools.normalize_function
    droid_proxy.Handlers.Payload.Tools.normalize_xai_tool normalize_xai_tools
    droid_proxy.Handlers.Payload.Tools.sanitize_function_fields
    droid_proxy.Handlers.Payload.Tools.sanitize_xai_tool_fields
    droid_proxy.Handlers.Payload.Tools.strip_xai_web_search_fields
    droid_proxy.Handlers.Payload.Tools.tool_type
    droid_proxy.Handlers.Payload.Tools.unsupported_xai_tool
    droid_proxy.Handlers.Payload.Tools.with_parameters
    droid_proxy.Handlers.Payload.Tools.without_each droid_proxy.Handlers.Payload.Tools.xai_tool_name
    to_lower droid_proxy.Prelude.Maps.lookup droid_proxy.Prelude.Sort.place
    droid_proxy.Prelude.Texts.contains droid_proxy.Prelude.Texts.equal_fold
    droid_proxy.Prelude.Texts.has_suffix droid_proxy.Prelude.Texts.is_prefix
    droid_proxy.Prelude.Texts.str_ltb droid_proxy.Reasoning.Json.without
test_include = refl

abbrev codex : ModelConfig
codex = record grok { oauth_provider = "codex" }

test_tier : get "service_tier" (sent codex) ≡ some (text "priority")
unfolding get prepare_oauth_responses_payload droid_proxy.Handlers.Payload.Prepare.cut_each
    droid_proxy.Handlers.Payload.Prepare.cut without_all
    droid_proxy.Handlers.Payload.Prepare.prepare_codex_responses_payload
    droid_proxy.Handlers.Payload.Prepare.with_input droid_proxy.Handlers.Payload.Prepare.put set
    droid_proxy.Handlers.Payload.Prepare.with_instructions droid_proxy.Prelude.Texts.is_blank
    droid_proxy.Prelude.Texts.trim_space droid_proxy.Handlers.Payload.Prepare.with_service_tier
    droid_proxy.Prelude.Texts.equal_fold apply_upstream_payload_overrides
    droid_proxy.Handlers.Payload.Prepare.put_each droid_proxy.Prelude.Sort.sort
    droid_proxy.Config.Models.default_factory_reasoning
    droid_proxy.Config.Models.resolved_capabilities droid_proxy.Handlers.Cooldown.get_header
    droid_proxy.Handlers.Payload.Prepare.append_if_missing
    droid_proxy.Handlers.Payload.Prepare.contains_reasoning
    droid_proxy.Handlers.Payload.Prepare.first_set droid_proxy.Handlers.Payload.Prepare.has_marker
    droid_proxy.Handlers.Payload.Prepare.include_xai_encrypted_reasoning
    droid_proxy.Handlers.Payload.Prepare.prepare_xai_responses_payload
    droid_proxy.Handlers.Payload.Prepare.set_xai_include
    droid_proxy.Handlers.Payload.Prepare.with_cache_key
    droid_proxy.Handlers.Payload.Prepare.with_reasoning
    droid_proxy.Handlers.Payload.Prepare.with_tools
    droid_proxy.Handlers.Payload.Prepare.xai_reasoning_present
    droid_proxy.Handlers.Payload.Prepare.xai_session_id xai_uses_cli_chat_proxy sanitize_schema
    droid_proxy.Handlers.Payload.Schema.without_slashes
    droid_proxy.Handlers.Payload.Tools.as_function
    droid_proxy.Handlers.Payload.Tools.ensure_xai_function_parameters
    droid_proxy.Handlers.Payload.Tools.join_items
    droid_proxy.Handlers.Payload.Tools.normalize_function
    droid_proxy.Handlers.Payload.Tools.normalize_xai_tool normalize_xai_tools
    droid_proxy.Handlers.Payload.Tools.sanitize_function_fields
    droid_proxy.Handlers.Payload.Tools.sanitize_xai_tool_fields
    droid_proxy.Handlers.Payload.Tools.strip_xai_web_search_fields
    droid_proxy.Handlers.Payload.Tools.tool_type
    droid_proxy.Handlers.Payload.Tools.unsupported_xai_tool
    droid_proxy.Handlers.Payload.Tools.with_parameters
    droid_proxy.Handlers.Payload.Tools.without_each droid_proxy.Handlers.Payload.Tools.xai_tool_name
    to_lower droid_proxy.Prelude.Maps.lookup droid_proxy.Prelude.Sort.place
    droid_proxy.Prelude.Texts.contains droid_proxy.Prelude.Texts.has_suffix
    droid_proxy.Prelude.Texts.is_prefix droid_proxy.Prelude.Texts.str_ltb
    droid_proxy.Reasoning.Json.without
test_tier = refl

test_dropped :
    drop_encrypted_reasoning_include plain_go decoded (
      field "include"
        (array (item (text "reasoning.encrypted_content") (item (text "x") no_items)))
        no_fields)
    ≡ field "include" (array (item (text "x") no_items)) no_fields
unfolding drop_encrypted_reasoning_include get droid_proxy.Handlers.Payload.Prepare.names_marker
    droid_proxy.Handlers.Payload.Prepare.without_marker droid_proxy.Handlers.Payload.Prepare.put set
test_dropped = refl

prepare_oauth_responses_payload_lem_example :
    (codex.oauth_provider ≡ "codex"
      → IsForCodex plain_go decoded decoded-IsJsonBody
          (apply_upstream_payload_overrides plain_go decoded codex request)
          true
          (sent codex))
    × (codex.oauth_provider ≡ "xai"
        → IsForXai plain_go decoded decoded-IsJsonBody lowers codex []
            (apply_upstream_payload_overrides plain_go decoded codex request)
            true
            (sent codex))
prepare_oauth_responses_payload_lem_example =
    prepare_oauth_responses_payload_lem plain_go decoded decoded-IsJsonBody lowers net codex true []
      request
