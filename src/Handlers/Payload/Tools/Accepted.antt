-- ===== src/Handlers/Payload/Tools/Accepted.antt =====
-- The tools that are left for xAI: normalizeXAITools in internal/handlers/oauth_payload.go.
use droid_proxy.Prelude.{◌≡◌, refl, Option, none, some, str_eq, if_branches}
use droid_proxy.Prelude.GoLibrary.{GoLibrary, to_lower}
use droid_proxy.Reasoning.Json.{
  Json, null, boolean, number, text, array, object, Items, no_items, item, Fields, no_fields, field,
}
use droid_proxy.Handlers.Payload.Tools.{
  join_items, normalize_xai_tool, is_namespace, normalize_xai_tools, normalize_one, nested_tools,
  tools_of, kept,
}
use droid_proxy.Handlers.Payload.Tools.Single.{IsAccepted, normalize_xai_tool-IsAccepted}

-- `lowers` is what unicode.ToLower does to the letters of one word.
module _ (go : GoLibrary) (lowers : to_lower go.lower "function" ≡ "function") where
  -- Every item is an accepted tool.
  abbrev pub AllAccepted : Items → Type 0
  AllAccepted no_items = Unit
  AllAccepted (item (object tool) vs) = IsAccepted go lowers tool × AllAccepted vs
  AllAccepted (item _ vs) = ⊥

  join-AllAccepted :
      (vs ws : Items) → AllAccepted vs → AllAccepted ws → AllAccepted (join_items vs ws)
  unfolding join_items
  join-AllAccepted no_items ws h k = k
  join-AllAccepted (item (object tool) vs) ws h k = (h.0, join-AllAccepted vs ws h.1 k)
  join-AllAccepted (item (array us) vs) ws h k = elim h [ ]
  join-AllAccepted (item null vs) ws h k = elim h [ ]
  join-AllAccepted (item (boolean b) vs) ws h k = elim h [ ]
  join-AllAccepted (item (number n) vs) ws h k = elim h [ ]
  join-AllAccepted (item (text s) vs) ws h k = elim h [ ]

  kept-AllAccepted :
      (o : Option Fields) (rest : Items)
      → ((r : Fields) → o ≡ some r → IsAccepted go lowers r)
      → AllAccepted rest
      → AllAccepted (kept go o rest)
  kept-AllAccepted none rest f h = h
  kept-AllAccepted (some r) rest f h = (f r refl, h)

  tool-AllAccepted :
      (tool : Fields) (rest : Items)
      → AllAccepted (nested_tools go tool)
      → AllAccepted rest
      → AllAccepted (normalize_one go (object tool) rest)
  unfolding normalize_xai_tools
  tool-AllAccepted tool rest nested h =
      if_branches AllAccepted (is_namespace go tool) _ _
        (λ n. join-AllAccepted (nested_tools go tool) rest nested h)
        (λ n.
          kept-AllAccepted (normalize_xai_tool go tool) rest
            (λ r e. normalize_xai_tool-IsAccepted go lowers tool r n e) h)

  mutual
    unfolding normalize_xai_tools

    normalized-AllAccepted : (vs : Items) → AllAccepted (normalize_xai_tools go vs)
    normalized-AllAccepted no_items = tt
    normalized-AllAccepted (item v vs) =
        one-AllAccepted v (normalize_xai_tools go vs) (normalized-AllAccepted vs)

    one-AllAccepted :
        (v : Json) (rest : Items) → AllAccepted rest → AllAccepted (normalize_one go v rest)
    one-AllAccepted (object tool) rest h = tool-AllAccepted tool rest (nested-AllAccepted tool) h
    one-AllAccepted (array vs) rest h = h
    one-AllAccepted null rest h = h
    one-AllAccepted (boolean b) rest h = h
    one-AllAccepted (number n) rest h = h
    one-AllAccepted (text s) rest h = h

    nested-AllAccepted : (m : Fields) → AllAccepted (nested_tools go m)
    nested-AllAccepted no_fields = tt
    nested-AllAccepted (field k v m) =
        if_branches AllAccepted (str_eq k "tools") _ _ (λ e. tools_of-AllAccepted v)
          (λ e. nested-AllAccepted m)

    tools_of-AllAccepted : (v : Json) → AllAccepted (tools_of go v)
    tools_of-AllAccepted (array vs) = normalized-AllAccepted vs
    tools_of-AllAccepted (object m) = tt
    tools_of-AllAccepted null = tt
    tools_of-AllAccepted (boolean b) = tt
    tools_of-AllAccepted (number n) = tt
    tools_of-AllAccepted (text s) = tt

  -- Whatever tools a request lists, xAI is sent accepted tools only: none that it does not know by
  -- type or name, none that is no object, and none in a namespace; the parameters of a function are
  -- an object in which no schema has a pattern, a format or an enum that xAI rejects.
  pub normalize_xai_tools-AllAccepted : (vs : Items) → AllAccepted (normalize_xai_tools go vs)
  normalize_xai_tools-AllAccepted = normalized-AllAccepted
