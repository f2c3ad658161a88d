-- ===== src/Handlers/Payload/Schema/Clean.antt =====
-- What is left of a schema: sanitizeXAIToolSchema in internal/handlers/oauth_payload.go.
use droid_proxy.Prelude.{
  ◌≡◌, refl, ap, Option, none, some, List, [], ◌∷◌, Bool, true, false, not, ◌&&◌, String, str_eq,
  if◌then◌else◌, arith, Bool-cases, inl, inr,
}
use droid_proxy.Reasoning.Json.{
  Json, null, boolean, number, text, array, object, Items, no_items, item, Fields, no_fields, field,
  get,
}
use droid_proxy.Handlers.Payload.Schema.{
  is_dropped, names_schemas, has_slash, without_slashes, sanitize_enum, with_enum, keep_field,
  sanitize_schema, sanitize_items, sanitize_fields, sanitize_schema_map, sanitize_each,
}

no_slashes : Items → Bool
no_slashes no_items = true
no_slashes (item v vs) = not (has_slash v) && no_slashes vs

-- An array with an element, and with no text in it that has a slash.
abbrev is_plain_enum : Json → Bool
is_plain_enum (array (item v vs)) = not (has_slash v) && no_slashes vs
is_plain_enum _ = false

mutual
  -- No object that the walk of the code takes for a schema, at any depth of the value, has a
  -- pattern, a format or an enum that xAI rejects. The walk takes every value of such an object
  -- for a schema too, those of default, const, examples and dependentSchemas among them; only the
  -- maps under properties, patternProperties, $defs and definitions have names of the user for
  -- keys.
  pub is_clean : Json → Bool
  is_clean (array vs) = are_clean vs
  is_clean (object m) = has_clean_fields m
  is_clean null = true
  is_clean (boolean b) = true
  is_clean (number n) = true
  is_clean (text s) = true

  are_clean : Items → Bool
  are_clean no_items = true
  are_clean (item v vs) = is_clean v && are_clean vs

  has_clean_fields : Fields → Bool
  has_clean_fields no_fields = true
  has_clean_fields (field k v m) =
      not (is_dropped k)
      && (if str_eq k "enum"
          then is_plain_enum v
          else if names_schemas k
          then is_clean_map v
          else is_clean v)
      && has_clean_fields m

  is_clean_map : Json → Bool
  is_clean_map (array vs) = are_clean vs
  is_clean_map (object m) = has_clean_schemas m
  is_clean_map null = true
  is_clean_map (boolean b) = true
  is_clean_map (number n) = true
  is_clean_map (text s) = true

  has_clean_schemas : Fields → Bool
  has_clean_schemas no_fields = true
  has_clean_schemas (field k v m) = is_clean v && has_clean_schemas m

no_slashes-without_slashes : (vs : Items) → no_slashes (without_slashes vs) ≡ true
unfolding no_slashes without_slashes
no_slashes-without_slashes no_items = refl
no_slashes-without_slashes (item v vs) = ground (arith, no_slashes-without_slashes vs)

no_slashes-sanitize_enum : (v : Json) → no_slashes (sanitize_enum v) ≡ true
unfolding no_slashes
no_slashes-sanitize_enum (array vs) = no_slashes-without_slashes vs
no_slashes-sanitize_enum (object m) = refl
no_slashes-sanitize_enum null = refl
no_slashes-sanitize_enum (boolean b) = refl
no_slashes-sanitize_enum (number n) = refl
no_slashes-sanitize_enum (text s) = refl

keep_field-clean :
    (k : String) (enum : Items) (schemas schema : Json) (rest : Fields)
    → no_slashes enum ≡ true
    → is_clean_map schemas ≡ true
    → is_clean schema ≡ true
    → has_clean_fields rest ≡ true
    → has_clean_fields (keep_field k enum schemas schema rest) ≡ true
unfolding is_clean no_slashes
keep_field-clean k no_items schemas schema rest e f g h = ground arith
keep_field-clean k (item v vs) schemas schema rest e f g h = ground arith

mutual
  unfolding is_clean sanitize_schema

  pub is_clean-sanitize : (v : Json) → is_clean (sanitize_schema v) ≡ true
  is_clean-sanitize (array vs) = are_clean-sanitize vs
  is_clean-sanitize (object m) = fields-sanitize m
  is_clean-sanitize null = refl
  is_clean-sanitize (boolean b) = refl
  is_clean-sanitize (number n) = refl
  is_clean-sanitize (text s) = refl

  are_clean-sanitize : (vs : Items) → are_clean (sanitize_items vs) ≡ true
  are_clean-sanitize no_items = refl
  are_clean-sanitize (item v vs) = ground (arith, is_clean-sanitize v, are_clean-sanitize vs)

  fields-sanitize : (m : Fields) → has_clean_fields (sanitize_fields m) ≡ true
  fields-sanitize no_fields = refl
  fields-sanitize (field k v m) =
      keep_field-clean k (sanitize_enum v) (sanitize_schema_map v) (sanitize_schema v)
        (sanitize_fields m) (no_slashes-sanitize_enum v) (map-sanitize v) (is_clean-sanitize v)
        (fields-sanitize m)

  map-sanitize : (v : Json) → is_clean_map (sanitize_schema_map v) ≡ true
  map-sanitize (array vs) = are_clean-sanitize vs
  map-sanitize (object m) = each-sanitize m
  map-sanitize null = refl
  map-sanitize (boolean b) = refl
  map-sanitize (number n) = refl
  map-sanitize (text s) = refl

  each-sanitize : (m : Fields) → has_clean_schemas (sanitize_each m) ≡ true
  each-sanitize no_fields = refl
  each-sanitize (field k v m) = ground (arith, is_clean-sanitize v, each-sanitize m)

without_slashes-kept : (vs : Items) → no_slashes vs ≡ true → without_slashes vs ≡ vs
unfolding no_slashes without_slashes
without_slashes-kept no_items h = refl
without_slashes-kept (item v vs) h = elim (Bool-cases (has_slash v)) [
  | inl e ↦ absurd (ground arith)
  | inr e ↦ rw e (ap (item v) (without_slashes-kept vs (ground arith)))
]

-- A plain enumeration is put back as it was.
enum_kept :
    (k : String) (v : Json) (rest : Fields)
    → is_plain_enum v ≡ true
    → with_enum k (sanitize_enum v) rest ≡ field k v rest
unfolding no_slashes
enum_kept k (array (item v vs)) rest h = rw (without_slashes-kept (item v vs) h) refl
enum_kept k (array no_items) rest h = cc
enum_kept k (object m) rest h = cc
enum_kept k null rest h = cc
enum_kept k (boolean b) rest h = cc
enum_kept k (number n) rest h = cc
enum_kept k (text s) rest h = cc

keep_field-kept :
    (k : String) (v : Json) (m : Fields)
    → has_clean_fields (field k v m) ≡ true
    → (is_clean_map v ≡ true → sanitize_schema_map v ≡ v)
    → (is_clean v ≡ true → sanitize_schema v ≡ v)
    → (has_clean_fields m ≡ true → sanitize_fields m ≡ m)
    → sanitize_fields (field k v m) ≡ field k v m
unfolding is_clean sanitize_schema
keep_field-kept k v m h e f g = ground (arith, enum_kept k v (sanitize_fields m))

mutual
  unfolding is_clean sanitize_schema

  sanitize_clean : (v : Json) → is_clean v ≡ true → sanitize_schema v ≡ v
  sanitize_clean (array vs) h = ap array (sanitize_are_clean vs h)
  sanitize_clean (object m) h = ap object (sanitize_clean_fields m h)
  sanitize_clean null h = refl
  sanitize_clean (boolean b) h = refl
  sanitize_clean (number n) h = refl
  sanitize_clean (text s) h = refl

  sanitize_are_clean : (vs : Items) → are_clean vs ≡ true → sanitize_items vs ≡ vs
  sanitize_are_clean no_items h = refl
  sanitize_are_clean (item v vs) h = ground (arith, sanitize_clean v, sanitize_are_clean vs)

  sanitize_clean_fields : (m : Fields) → has_clean_fields m ≡ true → sanitize_fields m ≡ m
  sanitize_clean_fields no_fields h = refl
  sanitize_clean_fields (field k v m) h =
      keep_field-kept k v m h (sanitize_clean_map v) (sanitize_clean v) (sanitize_clean_fields m)

  sanitize_clean_map : (v : Json) → is_clean_map v ≡ true → sanitize_schema_map v ≡ v
  sanitize_clean_map (array vs) h = ap array (sanitize_are_clean vs h)
  sanitize_clean_map (object m) h = ap object (sanitize_clean_each m h)
  sanitize_clean_map null h = refl
  sanitize_clean_map (boolean b) h = refl
  sanitize_clean_map (number n) h = refl
  sanitize_clean_map (text s) h = refl

  sanitize_clean_each : (m : Fields) → has_clean_schemas m ≡ true → sanitize_each m ≡ m
  sanitize_clean_each no_fields h = refl
  sanitize_clean_each (field k v m) h = ground (arith, sanitize_clean v, sanitize_clean_each m)

pub keys : Fields → List String
keys no_fields = []
keys (field k v m) = k ∷ keys m

-- The names in a map of schemas.
abbrev pub names_of : Option Json → List String
names_of (some (object m)) = keys m
names_of _ = []

abbrev pub field_at : String → Json → Option Json
field_at k (object m) = get k m
field_at k _ = none
