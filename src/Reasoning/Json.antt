-- ===== src/Reasoning/Json.antt =====
-- Decoded JSON, as encoding/json leaves it in `any`. An object is the list of its fields; numbers
-- keep their text (`UseNumber`).
pub mod Lookups
use droid_proxy.Prelude.{Bool, true, false, Option, none, some, String, if◌then◌else◌, str_eq}

mutual
  pub data Json : Type 0 where
    null : Json
    boolean : Bool → Json
    number : String → Json
    text : String → Json
    array : Items → Json
    object : Fields → Json

  pub data Items : Type 0 where
    no_items : Items
    item : Json → Items → Items

  pub data Fields : Type 0 where
    no_fields : Fields
    field : String → Json → Fields → Fields

-- `m[key]`.
unfoldable pub get : String → Fields → Option Json
get key no_fields = none
get key (field k v m) = if str_eq k key then some v else get key m

-- `m[key] = value`.
unfoldable pub set : String → Json → Fields → Fields
set key value no_fields = field key value no_fields
set key value (field k v m) =
    if str_eq k key then field key value m else field k v (set key value m)

-- `delete(m, key)`.
unfoldable pub without : String → Fields → Fields
without key no_fields = no_fields
without key (field k v m) = if str_eq k key then m else field k v (without key m)

-- stringFromAny: "" for what is no string.
abbrev pub text_of : Option Json → String
text_of (some (text s)) = s
text_of _ = ""

-- The type assertions `v.([]any)`, `v.(map[string]any)` and `v.(string)`.
abbrev pub items_of : Option Json → Option Items
items_of (some (array xs)) = some xs
items_of _ = none

abbrev pub fields_of : Option Json → Option Fields
fields_of (some (object m)) = some m
fields_of _ = none

abbrev pub is_text : Option Json → Bool
is_text (some (text s)) = true
is_text _ = false
