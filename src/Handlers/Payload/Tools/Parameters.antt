-- ===== src/Handlers/Payload/Tools/Parameters.antt =====
-- The parameters of a function: ensureXAIFunctionParameters in internal/handlers/oauth_payload.go.
use droid_proxy.Prelude.{◌≡◌, refl, true, Option, none, some}
use droid_proxy.Reasoning.Json.{
  Json, null, boolean, number, text, array, object, Fields, no_fields, get, fields_of,
}
use droid_proxy.Reasoning.Json.Lookups.{get-set}
use droid_proxy.Handlers.Payload.Schema.{sanitize_schema, sanitize_fields}
use droid_proxy.Handlers.Payload.Schema.Clean.{is_clean, is_clean-sanitize}
use droid_proxy.Handlers.Payload.Tools.{
  sanitize_function_fields, sanitize_function, sanitize_xai_tool_fields, with_parameters,
  with_object_parameters, ensured,
}
use droid_proxy.Handlers.Payload.Tools.Reads.{
  get-sanitize_function_fields, get-sanitize_tool_fields, get-with_parameters, map_json,
}

-- The parameters are an object in which no schema has a keyword that xAI rejects.
pub HasParameters : Fields → Type 0
HasParameters m =
    (p : Fields) × (get "parameters" m ≡ some (object p)) × (is_clean (object p) ≡ true)

abbrev pub TakesParameters : Fields → Option Fields → Type 0
TakesParameters tool none = HasParameters tool
TakesParameters tool (some m) = HasParameters m

pub with_parameters-HasParameters : (m : Fields) → HasParameters (with_parameters m)
unfolding with_parameters HasParameters sanitize_schema
with_parameters-HasParameters m = go (fields_of (get "parameters" m))
  where
    go : (o : Option Fields) → HasParameters (with_object_parameters m o)
    go none = (
      sanitize_fields no_fields,
      get-set "parameters" "parameters" _ m,
      is_clean-sanitize (object no_fields),
    )
    go (some p) =
        (sanitize_fields p, get-set "parameters" "parameters" _ m, is_clean-sanitize (object p))

pub ensured-TakesParameters :
    (tool : Fields) (o : Option Fields)
    → fields_of (get "function" tool) ≡ o
    → TakesParameters (ensured tool o) (fields_of (get "function" (ensured tool o)))
ensured-TakesParameters tool none e =
    rw (get-with_parameters "function" tool refl, e) (with_parameters-HasParameters tool)
ensured-TakesParameters tool (some m) e =
    rw (get-set "function" "function" (object (with_parameters m)) tool)
      (with_parameters-HasParameters m)

pub sanitize_function-HasParameters :
    (m : Fields) → HasParameters m → HasParameters (sanitize_function_fields m)
unfolding HasParameters sanitize_schema
sanitize_function-HasParameters m (p, e, c) = (
  sanitize_fields p,
  rw (get-sanitize_function_fields "parameters" m, e) refl,
  is_clean-sanitize (object p),
)

pub sanitize_tool-HasParameters :
    (m : Fields) → HasParameters m → HasParameters (sanitize_xai_tool_fields m)
unfolding HasParameters sanitize_schema
sanitize_tool-HasParameters m (p, e, c) = (
  sanitize_fields p,
  rw (get-sanitize_tool_fields "parameters" m, e) refl,
  is_clean-sanitize (object p),
)

pub sanitize-TakesParameters :
    (tool : Fields)
    → TakesParameters tool (fields_of (get "function" tool))
    → TakesParameters
        (sanitize_xai_tool_fields tool)
        (fields_of (get "function" (sanitize_xai_tool_fields tool)))
sanitize-TakesParameters tool h =
    rw (get-sanitize_tool_fields "function" tool) (go (get "function" tool) h)
  where
    go :
        (o : Option Json)
        → TakesParameters tool (fields_of o)
        → TakesParameters (sanitize_xai_tool_fields tool) (fields_of (map_json sanitize_function o))
    go none k = sanitize_tool-HasParameters tool k
    go (some (object m)) k = sanitize_function-HasParameters m k
    go (some (array vs)) k = sanitize_tool-HasParameters tool k
    go (some null) k = sanitize_tool-HasParameters tool k
    go (some (boolean b)) k = sanitize_tool-HasParameters tool k
    go (some (number n)) k = sanitize_tool-HasParameters tool k
    go (some (text s)) k = sanitize_tool-HasParameters tool k
