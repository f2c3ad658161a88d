-- ===== src/Handlers/Payload/Tools.antt =====
-- The tools of a request to xAI: normalizeXAITools in internal/handlers/oauth_payload.go, over
-- decoded JSON.
pub mod Reads
pub mod Parameters
pub mod Single
pub mod Accepted
use droid_proxy.Prelude.{
  Bool, true, false, not, ◌&&◌, ◌||◌, Option, none, some, List, [], ◌∷◌, String, str_eq, is_none,
  if◌then◌else◌,
}
use droid_proxy.Prelude.GoLibrary.{GoLibrary, to_lower}
use droid_proxy.Prelude.Texts.{trim_space, is_prefix, has_suffix}
use droid_proxy.Reasoning.Json.{
  Json, null, boolean, number, text, array, object, Items, no_items, item, Fields, no_fields, field,
  get, set, without, text_of, fields_of,
}
use droid_proxy.Handlers.Payload.Schema.{sanitize_schema}

-- `append`.
unfoldable pub join_items : Items → Items → Items
join_items no_items ws = ws
join_items (item v vs) ws = item v (join_items vs ws)

-- `delete` of each of the keys.
unfoldable pub without_each : List String → Fields → Fields
without_each [] m = m
without_each (k ∷ ks) m = without_each ks (without k m)

abbrev pub is_rejected : String → Bool
is_rejected s = str_eq s "tool_search" || str_eq s "image_generation" || str_eq s "apply_patch"

unfoldable pub unsupported_xai_tool : String → String → Bool
unsupported_xai_tool tool_type name =
    is_rejected tool_type
    || is_rejected name
    || has_suffix name ".apply_patch"
    || has_suffix name "/apply_patch"

abbrev web_search_fields : List String
web_search_fields =
    "allowed_domains" ∷ "blocked_domains" ∷ "filters" ∷ "ranking_options" ∷ "search_context_size"
    ∷ "site_search" ∷ "user_location" ∷ []

-- stripXAIWebSearchFields.
unfoldable pub strip_xai_web_search_fields : Fields → Fields
strip_xai_web_search_fields tool = without_each web_search_fields tool

-- The loop over the fields of `function` in sanitizeXAIToolFields.
unfoldable pub sanitize_function_fields : Fields → Fields
sanitize_function_fields no_fields = no_fields
sanitize_function_fields (field k v m) =
    field k (if str_eq k "parameters" then sanitize_schema v else v) (sanitize_function_fields m)

abbrev sanitize_function : Json → Json
sanitize_function (object m) = object (sanitize_function_fields m)
sanitize_function v = v

-- sanitizeXAIToolFields.
unfoldable pub sanitize_xai_tool_fields : Fields → Fields
sanitize_xai_tool_fields no_fields = no_fields
sanitize_xai_tool_fields (field k v m) =
    field k
      (if str_eq k "parameters" || str_eq k "input_schema"
        then sanitize_schema v
        else if str_eq k "function"
        then sanitize_function v
        else v)
      (sanitize_xai_tool_fields m)

-- `m["parameters"]`, or an empty object if that is no object, sanitized and put back.
abbrev with_object_parameters : Fields → Option Fields → Fields
with_object_parameters m none = set "parameters" (sanitize_schema (object no_fields)) m
with_object_parameters m (some p) = set "parameters" (sanitize_schema (object p)) m

unfoldable pub with_parameters : Fields → Fields
with_parameters m = with_object_parameters m (fields_of (get "parameters" m))

abbrev ensured : Fields → Option Fields → Fields
ensured tool none = with_parameters tool
ensured tool (some function) = set "function" (object (with_parameters function)) tool

-- ensureXAIFunctionParameters.
unfoldable pub ensure_xai_function_parameters : Fields → Fields
ensure_xai_function_parameters tool = ensured tool (fields_of (get "function" tool))

abbrev schema_as_parameters : Fields → Option Json → Option Json → Fields
schema_as_parameters tool none (some schema) = set "parameters" schema tool
schema_as_parameters tool parameters schema = tool

-- The branch of a custom tool in normalizeXAITool.
unfoldable pub as_function : Fields → Fields
as_function tool =
    let t = set "type" (text "function") tool in
    without "input_schema" (schema_as_parameters t (get "parameters" t) (get "input_schema" t))

module _ (go : GoLibrary) where
  abbrev lowered : String → String
  lowered s = to_lower go.lower (trim_space s)

  -- `strings.ToLower(strings.TrimSpace(stringValue(tool["type"])))`.
  unfoldable pub tool_type : Fields → String
  tool_type tool = lowered (text_of (get "type" tool))

  abbrev function_name : Option Fields → String
  function_name none = ""
  function_name (some function) = lowered (text_of (get "name" function))

  -- xaiToolName.
  unfoldable pub xai_tool_name : Fields → String
  xai_tool_name tool =
      let name = trim_space (text_of (get "name" tool)) in
      if str_eq name ""
      then function_name (fields_of (get "function" tool))
      else to_lower go.lower name

  -- From the test of a custom tool on.
  unfoldable pub normalize_function : String → Fields → Fields
  normalize_function kind tool =
      if str_eq kind "custom"
      then ensure_xai_function_parameters (as_function tool)
      else if str_eq kind "function"
      then ensure_xai_function_parameters tool
      else tool

  -- normalizeXAITool. `none` is a tool that is not kept.
  unfoldable pub normalize_xai_tool : Fields → Option Fields
  normalize_xai_tool tool =
      let kind = tool_type tool in
      if unsupported_xai_tool kind (xai_tool_name tool)
      then none
      else some (
          sanitize_xai_tool_fields (
            if is_prefix "web_search" kind
            then strip_xai_web_search_fields tool
            else normalize_function kind tool))

  abbrev is_namespace : Fields → Bool
  is_namespace tool =
      str_eq (tool_type tool) "namespace" || str_eq (tool_type tool) "namespace_tool"

  abbrev kept : Option Fields → Items → Items
  kept none rest = rest
  kept (some tool) rest = item (object tool) rest

  unfoldable mutual
    -- normalizeXAITools.
    pub normalize_xai_tools : Items → Items
    normalize_xai_tools no_items = no_items
    normalize_xai_tools (item v vs) = normalize_one v (normalize_xai_tools vs)

    -- One round of its loop, before the tools that follow.
    pub normalize_one : Json → Items → Items
    normalize_one (object tool) rest =
        if is_namespace tool
        then join_items (nested_tools tool) rest
        else kept (normalize_xai_tool tool) rest
    normalize_one (array vs) rest = rest
    normalize_one null rest = rest
    normalize_one (boolean b) rest = rest
    normalize_one (number n) rest = rest
    normalize_one (text s) rest = rest

    -- The tools of a namespace, normalized: those of `tool["tools"]`, if it is an array.
    pub nested_tools : Fields → Items
    nested_tools no_fields = no_items
    nested_tools (field k v m) = if str_eq k "tools" then tools_of v else nested_tools m

    pub tools_of : Json → Items
    tools_of (array vs) = normalize_xai_tools vs
    tools_of (object m) = no_items
    tools_of null = no_items
    tools_of (boolean b) = no_items
    tools_of (number n) = no_items
    tools_of (text s) = no_items
