-- ===== src/Handlers/Payload/Tools/Reads.antt =====
-- The type, the name and the function of a tool after each step of normalizeXAITool in
-- internal/handlers/oauth_payload.go.
use droid_proxy.Prelude.{
  ◌≡◌, refl, sym, ap, ◌∙◌, inl, inr, false, ◌||◌, Option, none, some, List, [], ◌∷◌, String, str_eq,
  eq_iff, eq_refl, arith, any, Bool-cases, if◌then◌else◌,
}
use droid_proxy.Reasoning.Json.{
  Json, null, boolean, number, text, array, object, Fields, no_fields, field, get, set, without,
  text_of, fields_of,
}
use droid_proxy.Reasoning.Json.Lookups.{get-set, get-without}
use droid_proxy.Handlers.Payload.Schema.{sanitize_schema}
use droid_proxy.Handlers.Payload.Tools.{
  without_each, strip_xai_web_search_fields, sanitize_function_fields, sanitize_function,
  sanitize_xai_tool_fields, with_parameters, ensure_xai_function_parameters, as_function,
  web_search_fields, schema_as_parameters, with_object_parameters, ensured,
}

-- What the name of a tool is read from: its own and that of its function.
abbrev pub own_name : Fields → String
own_name tool = text_of (get "name" tool)

abbrev pub inner : Option Fields → Option Json
inner none = none
inner (some m) = get "name" m

abbrev pub inner_name : Fields → String
inner_name tool = text_of (inner (fields_of (get "function" tool)))

-- Two tools of the same name.
pub record IsAlike (tool other : Fields) : Type 0 where
  pub own : own_name other ≡ own_name tool
  pub inner : inner_name other ≡ inner_name tool

abbrev pub map_json : (Json → Json) → Option Json → Option Json
map_json f none = none
map_json f (some v) = some (f v)

abbrev pub function_at : String → Json → Json
function_at k v = if str_eq k "parameters" then sanitize_schema v else v

abbrev pub tool_at : String → Json → Json
tool_at k v =
    if str_eq k "parameters" || str_eq k "input_schema"
    then sanitize_schema v
    else if str_eq k "function"
    then sanitize_function v
    else v

pub get-sanitize_function_fields :
    (j : String) (m : Fields)
    → get j (sanitize_function_fields m) ≡ map_json (function_at j) (get j m)
unfolding get sanitize_function_fields
get-sanitize_function_fields j no_fields = refl
get-sanitize_function_fields j (field k v m) = elim (Bool-cases (str_eq k j)) [
  | inl e ↦ rw ((eq_iff k j).0 e, eq_refl j) refl
  | inr e ↦ rw e (get-sanitize_function_fields j m)
]

pub get-sanitize_tool_fields :
    (j : String) (m : Fields) → get j (sanitize_xai_tool_fields m) ≡ map_json (tool_at j) (get j m)
unfolding get sanitize_xai_tool_fields
get-sanitize_tool_fields j no_fields = refl
get-sanitize_tool_fields j (field k v m) = elim (Bool-cases (str_eq k j)) [
  | inl e ↦ rw ((eq_iff k j).0 e, eq_refl j) refl
  | inr e ↦ rw e (get-sanitize_tool_fields j m)
]

pub map_same : (f : Json → Json) (o : Option Json) → ((v : Json) → f v ≡ v) → map_json f o ≡ o
map_same f none h = refl
map_same f (some v) h = ap some (h v)

pub inner-sanitize :
    (o : Option Json) → inner (fields_of (map_json sanitize_function o)) ≡ inner (fields_of o)
inner-sanitize none = refl
inner-sanitize (some (object m)) =
    get-sanitize_function_fields "name" m ∙ map_same _ (get "name" m) (λ v. refl)
inner-sanitize (some (array vs)) = refl
inner-sanitize (some null) = refl
inner-sanitize (some (boolean b)) = refl
inner-sanitize (some (number n)) = refl
inner-sanitize (some (text s)) = refl

pub sanitize-IsAlike : (tool : Fields) → IsAlike tool (sanitize_xai_tool_fields tool)
sanitize-IsAlike tool = record {
  own =
      ap text_of (get-sanitize_tool_fields "name" tool ∙ map_same _ (get "name" tool) (λ v. refl));
  inner =
      ap (λ o. text_of (inner (fields_of o))) (get-sanitize_tool_fields "function" tool)
      ∙ ap text_of (inner-sanitize (get "function" tool));
}

pub IsAlike-gets :
    (tool other : Fields)
    → get "name" other ≡ get "name" tool
    → get "function" other ≡ get "function" tool
    → IsAlike tool other
IsAlike-gets tool other e f = record {
  own = ap text_of e;
  inner = ap (λ o. text_of (inner (fields_of o))) f;
}

pub IsAlike-trans : (a b c : Fields) → IsAlike a b → IsAlike b c → IsAlike a c
IsAlike-trans a b c h k = record { own = k.own ∙ h.own; inner = k.inner ∙ h.inner }

pub get-without_each :
    (ks : List String) (j : String) (m : Fields)
    → any (λ k. str_eq k j) ks ≡ false
    → get j (without_each ks m) ≡ get j m
unfolding without_each
get-without_each [] j m h = refl
get-without_each (k ∷ ks) j m h =
    get-without_each ks j (without k m) (ground arith) ∙ get-without k j m (ground arith)

pub web_search-IsAlike : (tool : Fields) → IsAlike tool (strip_xai_web_search_fields tool)
unfolding strip_xai_web_search_fields
web_search-IsAlike tool =
    IsAlike-gets tool _ (get-without_each web_search_fields "name" tool refl)
      (get-without_each web_search_fields "function" tool refl)

pub get-schema_as_parameters :
    (j : String) (tool : Fields) (o schema : Option Json)
    → str_eq "parameters" j ≡ false
    → get j (schema_as_parameters tool o schema) ≡ get j tool
get-schema_as_parameters j tool none (some schema) h =
    rw (get-set "parameters" j schema tool, h) refl
get-schema_as_parameters j tool none none h = refl
get-schema_as_parameters j tool (some p) schema h = refl

pub get-as_function :
    (j : String) (tool : Fields)
    → str_eq "type" j ≡ false
    → str_eq "parameters" j ≡ false
    → str_eq "input_schema" j ≡ false
    → get j (as_function tool) ≡ get j tool
unfolding as_function
get-as_function j tool e f g =
    let t = set "type" (text "function") tool in
    get-without "input_schema" j _ g
    ∙ get-schema_as_parameters j t (get "parameters" t) (get "input_schema" t) f
    ∙ (rw (get-set "type" j (text "function") tool, e) refl)

pub get-with_parameters :
    (j : String) (m : Fields) → str_eq "parameters" j ≡ false → get j (with_parameters m) ≡ get j m
unfolding with_parameters
get-with_parameters j m h = go (fields_of (get "parameters" m))
  where
    go : (o : Option Fields) → get j (with_object_parameters m o) ≡ get j m
    go none = rw (get-set "parameters" j (sanitize_schema (object no_fields)) m, h) refl
    go (some p) = rw (get-set "parameters" j (sanitize_schema (object p)) m, h) refl

pub ensured-IsAlike :
    (tool : Fields) (o : Option Fields)
    → fields_of (get "function" tool) ≡ o
    → IsAlike tool (ensured tool o)
ensured-IsAlike tool none e =
    IsAlike-gets tool _ (get-with_parameters "name" tool refl)
      (get-with_parameters "function" tool refl)
ensured-IsAlike tool (some m) e =
    let v = object (with_parameters m) in
    record {
      own = ap text_of (get-set "function" "name" v tool);
      inner =
          ap (λ o. text_of (inner (fields_of o))) (get-set "function" "function" v tool)
          ∙ ap text_of (get-with_parameters "name" m refl)
          ∙ ap (λ o. text_of (inner o)) (sym e);
    }

pub ensure-IsAlike : (tool : Fields) → IsAlike tool (ensure_xai_function_parameters tool)
unfolding ensure_xai_function_parameters
ensure-IsAlike tool = ensured-IsAlike tool (fields_of (get "function" tool)) refl

pub ensured_type :
    (tool : Fields) (o : Option Fields) → get "type" (ensured tool o) ≡ get "type" tool
ensured_type tool none = get-with_parameters "type" tool refl
ensured_type tool (some m) = get-set "function" "type" (object (with_parameters m)) tool

pub as_function_type : (tool : Fields) → get "type" (as_function tool) ≡ some (text "function")
unfolding as_function
as_function_type tool =
    let t = set "type" (text "function") tool in
    get-without "input_schema" "type" _ refl
    ∙ get-schema_as_parameters "type" t (get "parameters" t) (get "input_schema" t) refl
    ∙ get-set "type" "type" (text "function") tool
