-- ===== src/Handlers/Payload/Schema.antt =====
-- The JSON Schema keywords that xAI rejects: sanitizeXAIToolSchema in
-- internal/handlers/oauth_payload.go, over decoded JSON. A range over a map that changes the entry it
-- is at is a walk over the fields.
pub mod Clean
use droid_proxy.Prelude.{Bool, true, false, ◌||◌, String, str_eq, if◌then◌else◌}
use droid_proxy.Prelude.Texts.{contains}
use droid_proxy.Reasoning.Json.{
  Json, null, boolean, number, text, array, object, Items, no_items, item, Fields, no_fields, field,
}

abbrev pub is_dropped : String → Bool
is_dropped key = str_eq key "pattern" || str_eq key "format"

-- The keys whose value maps names that the user chose to schemas.
abbrev pub names_schemas : String → Bool
names_schemas key =
    str_eq key "properties"
    || str_eq key "patternProperties"
    || str_eq key "$defs"
    || str_eq key "definitions"

abbrev pub has_slash : Json → Bool
has_slash (text s) = contains s "/"
has_slash _ = false

-- The loop of sanitizeXAIEnum.
unfoldable pub without_slashes : Items → Items
without_slashes no_items = no_items
without_slashes (item v vs) =
    if has_slash v then without_slashes vs else item v (without_slashes vs)

-- sanitizeXAIEnum. The nil slice is that of no items.
abbrev pub sanitize_enum : Json → Items
sanitize_enum (array vs) = without_slashes vs
sanitize_enum _ = no_items

-- `if len(filtered) == 0 { delete(v, key) } else { v[key] = filtered }`.
abbrev pub with_enum : String → Items → Fields → Fields
with_enum key no_items rest = rest
with_enum key (item v vs) rest = field key (array (item v vs)) rest

-- One round of the loop over a schema's fields: the value as an enumeration, as a map of schemas and
-- as a schema.
abbrev pub keep_field : String → Items → Json → Json → Fields → Fields
keep_field key enum schemas schema rest =
    if is_dropped key
    then rest
    else if str_eq key "enum"
    then with_enum key enum rest
    else if names_schemas key
    then field key schemas rest
    else field key schema rest

unfoldable mutual
  -- sanitizeXAIToolSchema.
  pub sanitize_schema : Json → Json
  sanitize_schema null = null
  sanitize_schema (boolean b) = boolean b
  sanitize_schema (number n) = number n
  sanitize_schema (text s) = text s
  sanitize_schema (array vs) = array (sanitize_items vs)
  sanitize_schema (object m) = object (sanitize_fields m)

  pub sanitize_items : Items → Items
  sanitize_items no_items = no_items
  sanitize_items (item v vs) = item (sanitize_schema v) (sanitize_items vs)

  pub sanitize_fields : Fields → Fields
  sanitize_fields no_fields = no_fields
  sanitize_fields (field k v m) =
      keep_field k (sanitize_enum v) (sanitize_schema_map v) (sanitize_schema v) (sanitize_fields m)

  -- sanitizeXAISchemaMap.
  pub sanitize_schema_map : Json → Json
  sanitize_schema_map null = null
  sanitize_schema_map (boolean b) = boolean b
  sanitize_schema_map (number n) = number n
  sanitize_schema_map (text s) = text s
  sanitize_schema_map (array vs) = array (sanitize_items vs)
  sanitize_schema_map (object m) = object (sanitize_each m)

  pub sanitize_each : Fields → Fields
  sanitize_each no_fields = no_fields
  sanitize_each (field k v m) = field k (sanitize_schema v) (sanitize_each m)
