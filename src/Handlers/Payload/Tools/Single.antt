-- ===== src/Handlers/Payload/Tools/Single.antt =====
-- A tool that is left for xAI: normalizeXAITool in internal/handlers/oauth_payload.go.
use droid_proxy.Prelude.{
  ◌≡◌, refl, sym, subst, ap, ◌∙◌, inl, inr, false, Option, none, some, String, str_eq, eq_iff,
  arith, Bool-cases, if_branches, if◌then◌else◌,
}
use droid_proxy.Prelude.GoLibrary.{GoLibrary, to_lower}
use droid_proxy.Prelude.Texts.{trim_space, is_prefix, has_suffix}
use droid_proxy.Reasoning.Json.{Fields, get, text_of, fields_of}
use droid_proxy.Handlers.Payload.Tools.{
  is_rejected, unsupported_xai_tool, strip_xai_web_search_fields, sanitize_xai_tool_fields,
  ensure_xai_function_parameters, as_function, tool_type, xai_tool_name, normalize_function,
  normalize_xai_tool, is_namespace, web_search_fields, lowered, function_name,
}
use droid_proxy.Handlers.Payload.Tools.Reads.{
  IsAlike, get-sanitize_tool_fields, map_same, sanitize-IsAlike, IsAlike-gets, IsAlike-trans,
  get-without_each, web_search-IsAlike, get-as_function, ensure-IsAlike, ensured_type,
  as_function_type, inner,
}
use droid_proxy.Handlers.Payload.Tools.Parameters.{
  ensured-TakesParameters, sanitize-TakesParameters, TakesParameters,
}

abbrev fields_or : Fields → Option Fields → Fields
fields_or d none = d
fields_or d (some m) = m

-- A word that is none of the tools that xAI does not know.
record IsKnown (s : String) : Type 0 where
  no_search : ¬ (s ≡ "tool_search")
  no_images : ¬ (s ≡ "image_generation")
  no_patch : ¬ (s ≡ "apply_patch")

-- A known word that names no patch tool of another tool either.
record IsKnownName (s : String) : Type 0 where
  known : IsKnown s
  no_member : has_suffix s ".apply_patch" ≡ false
  no_path : has_suffix s "/apply_patch" ≡ false

is_rejected-IsKnown : (s : String) → is_rejected s ≡ false → IsKnown s
is_rejected-IsKnown s h = record {
  no_search = λ e. ground (arith, eq_iff s "tool_search");
  no_images = λ e. ground (arith, eq_iff s "image_generation");
  no_patch = λ e. ground (arith, eq_iff s "apply_patch");
}

supported-IsKnown :
    (kind name : String) → unsupported_xai_tool kind name ≡ false → IsKnown kind × IsKnownName name
unfolding unsupported_xai_tool
supported-IsKnown kind name u = (
  is_rejected-IsKnown kind (ground arith),
  record {
    known = is_rejected-IsKnown name (ground arith);
    no_member = ground arith;
    no_path = ground arith;
  },
)

-- `lowers` is what unicode.ToLower does to the letters of one word.
module _ (go : GoLibrary) (lowers : to_lower go.lower "function" ≡ "function") where
  -- A tool that is no namespace, that xAI knows, and whose parameters, if it is a function, are an
  -- object with no keyword that xAI rejects.
  pub record IsAccepted (tool : Fields) : Type 0 where
    kind : IsKnown (tool_type go tool)
    name : IsKnownName (xai_tool_name go tool)
    flat : is_namespace go tool ≡ false
    parameters :
        tool_type go tool ≡ "function" → TakesParameters tool (fields_of (get "function" tool))

  function_name_lem : (o : Option Fields) → function_name go o ≡ lowered go (text_of (inner o))
  unfolding to_lower trim_space
  function_name_lem none = refl
  function_name_lem (some m) = refl

  alike_name : (a b : Fields) → IsAlike a b → xai_tool_name go b ≡ xai_tool_name go a
  unfolding xai_tool_name
  alike_name a b h =
      rw
        (
          function_name_lem (fields_of (get "function" a)),
          function_name_lem (fields_of (get "function" b)),
          h.own,
          h.inner,
        )
        refl

  keeps_type :
      (tool r : Fields) → get "type" r ≡ get "type" tool → tool_type go r ≡ tool_type go tool
  unfolding tool_type
  keeps_type tool r e = rw e refl

  kept_type-IsAccepted :
      (tool r : Fields)
      → is_namespace go tool ≡ false
      → unsupported_xai_tool (tool_type go tool) (xai_tool_name go tool) ≡ false
      → IsAlike tool r
      → get "type" r ≡ get "type" tool
      → (tool_type go tool ≡ "function" → TakesParameters r (fields_of (get "function" r)))
      → IsAccepted r
  kept_type-IsAccepted tool r n u a e p =
      let k = supported-IsKnown (tool_type go tool) (xai_tool_name go tool) u in
      record {
        kind = rw (keeps_type tool r e) k.0;
        name = rw (alike_name tool r a) k.1;
        flat = rw (keeps_type tool r e) n;
        parameters = λ f. p (sym (keeps_type tool r e) ∙ f);
      }

  get-type : (tool : Fields) → get "type" (sanitize_xai_tool_fields tool) ≡ get "type" tool
  get-type tool = get-sanitize_tool_fields "type" tool ∙ map_same _ (get "type" tool) (λ v. refl)

  ensured-IsAccepted :
      (tool : Fields)
      → is_namespace go tool ≡ false
      → unsupported_xai_tool (tool_type go tool) (xai_tool_name go tool) ≡ false
      → IsAccepted (sanitize_xai_tool_fields (ensure_xai_function_parameters tool))
  unfolding ensure_xai_function_parameters
  ensured-IsAccepted tool n u =
      let t = ensure_xai_function_parameters tool in
      kept_type-IsAccepted tool (sanitize_xai_tool_fields t) n u
        (IsAlike-trans tool t _ (ensure-IsAlike tool) (sanitize-IsAlike t))
        (get-type t ∙ ensured_type tool (fields_of (get "function" tool)))
        (λ f.
          sanitize-TakesParameters t
            (ensured-TakesParameters tool (fields_of (get "function" tool)) refl))

  as_function-IsAccepted :
      (tool : Fields)
      → unsupported_xai_tool (tool_type go tool) (xai_tool_name go tool) ≡ false
      → IsAccepted (sanitize_xai_tool_fields (ensure_xai_function_parameters (as_function tool)))
  unfolding unsupported_xai_tool trim_space tool_type
  as_function-IsAccepted tool u =
      let f = as_function tool in
      let a =
        IsAlike-gets tool f (get-as_function "name" tool refl refl refl)
          (get-as_function "function" tool refl refl refl) in
      let t : tool_type go f ≡ "function" = rw (as_function_type tool) lowers in
      ensured-IsAccepted f (rw t refl) (rw (t, alike_name tool f a) (ground arith))

  normalized-IsAccepted :
      (tool : Fields)
      → is_namespace go tool ≡ false
      → unsupported_xai_tool (tool_type go tool) (xai_tool_name go tool) ≡ false
      → IsAccepted (
          sanitize_xai_tool_fields (
            if is_prefix "web_search" (tool_type go tool)
            then strip_xai_web_search_fields tool
            else normalize_function go (tool_type go tool) tool))
  unfolding normalize_function is_prefix strip_xai_web_search_fields
  normalized-IsAccepted tool n u =
      let kind = tool_type go tool in
      let s = strip_xai_web_search_fields tool in
      if_branches (λ x. IsAccepted (sanitize_xai_tool_fields x)) (is_prefix "web_search" kind) s _
        (λ w.
          kept_type-IsAccepted tool (sanitize_xai_tool_fields s) n u
            (IsAlike-trans tool s _ (web_search-IsAlike tool) (sanitize-IsAlike s))
            (get-type s ∙ get-without_each web_search_fields "type" tool refl)
            (λ f.
              let k : is_prefix "web_search" kind ≡ false = ap (is_prefix "web_search") f in
              absurd (cc (w, k))))
        (λ w.
          if_branches (λ x. IsAccepted (sanitize_xai_tool_fields x)) (str_eq kind "custom") _ _
            (λ c. as_function-IsAccepted tool u)
            (λ c.
              if_branches (λ x. IsAccepted (sanitize_xai_tool_fields x)) (str_eq kind "function") _
                _ (λ f. ensured-IsAccepted tool n u)
                (λ f.
                  kept_type-IsAccepted tool (sanitize_xai_tool_fields tool) n u
                    (sanitize-IsAlike tool) (get-type tool)
                    (λ k. absurd (cc (f, (eq_iff kind "function").1 k))))))

  pub normalize_xai_tool-IsAccepted :
      (tool r : Fields)
      → is_namespace go tool ≡ false
      → normalize_xai_tool go tool ≡ some r
      → IsAccepted r
  unfolding normalize_xai_tool
  normalize_xai_tool-IsAccepted tool r n e =
      elim (Bool-cases (unsupported_xai_tool (tool_type go tool) (xai_tool_name go tool))) [
        | inl u ↦ absurd (ground arith)
        | inr u ↦
            subst IsAccepted (ap (fields_or tool) (rw u at e)) (normalized-IsAccepted tool n u)
      ]
