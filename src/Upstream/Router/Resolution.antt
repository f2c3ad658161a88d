-- ===== src/Upstream/Router/Resolution.antt =====
-- NewRouter and then Resolve: internal/upstream/route.go.
use mathlib.Core.List.{append_assoc, append-nil}
use droid_proxy.Prelude.{
  ◌≡◌, sym, ap, subst, ◌∙◌, inl, inr, Option, none, some, List, [], ◌∷◌, ◌++◌, String, arith,
  str_eq, eq_iff, eq_refl, All, All-map_prop, Bool-cases, Option-cases,
}
use droid_proxy.Prelude.GoLibrary.{GoLibrary}
use droid_proxy.Prelude.Maps.{string_eq, lookup, lookup-insert}
use droid_proxy.Upstream.Router.{
  Model, Router, NewRouter, built, duplicate_alias, Resolved, resolved, not_found, alias_key,
  add_model, add_models, new_router, resolve,
}

-- The models that are not nil.
abbrev pub present : List (Option Model) → List Model
present [] = []
present (none ∷ models) = present models
present (some m ∷ models) = m ∷ present models

abbrev model_or : Model → Option Model → Model
model_or d none = d
model_or d (some m) = m

abbrev router_or : Router → NewRouter → Router
router_or d (built r) = r
router_or d (duplicate_alias alias) = d

abbrev resolved_or : Model → Resolved → Model
resolved_or d (resolved m) = m
resolved_or d (not_found alias known) = d

module _ (go : GoLibrary) where
  -- Every listed model is found under its key, and a model stands under its own key.
  record IsIndexed (r : Router) : Type 0 where
    listed : All (λ m. lookup (alias_key go m.alias) r.models ≡ some m) r.ordered
    keyed : (k : String) (m : Model) → lookup k r.models ≡ some m → alias_key go m.alias ≡ k

  All-append :
      (P : Model → Type 0) (xs : List Model) (y : Model) → All P xs → P y → All P (xs ++ (y ∷ []))
  All-append P [] y h p = (p, tt)
  All-append P (x ∷ xs) y (h, hs) p = (h, All-append P xs y hs p)

  add_model-IsIndexed :
      (m : Model) (r : Router)
      → IsIndexed r
      → lookup (alias_key go m.alias) r.models ≡ none
      → IsIndexed (add_model go m r)
  add_model-IsIndexed m r i h =
      let k = alias_key go m.alias in
      record {
        listed =
            All-append _ r.ordered m
              (All-map_prop _ _ r.ordered
                (λ x e. ground (
                  arith,
                  e,
                  h,
                  lookup-insert k (alias_key go x.alias) m r.models,
                  eq_iff k (alias_key go x.alias),
                ))
                i.listed)
              (ground (arith, lookup-insert k k m r.models, eq_refl k));
        keyed = λ j x e. elim (Bool-cases (str_eq k j)) [
          | inl b ↦
              let same : some m ≡ some x = ground (arith, lookup-insert k j m r.models) in
              ground (arith, eq_iff k j, ap (model_or m) same)
          | inr b ↦ i.keyed j x (ground (arith, lookup-insert k j m r.models))
        ];
      }

  add_models-IsIndexed :
      (models : List (Option Model)) (r s : Router)
      → IsIndexed r
      → add_models go models r ≡ built s
      → IsIndexed s × (s.ordered ≡ r.ordered ++ present models)
  unfolding add_models
  add_models-IsIndexed [] r s i e =
      let same : r ≡ s = ap (router_or r) e in
      (subst IsIndexed same i, ap (λ t. t.ordered) (sym same) ∙ sym (append-nil r.ordered))
  add_models-IsIndexed (none ∷ models) r s i e = add_models-IsIndexed models r s i e
  add_models-IsIndexed (some m ∷ models) r s i e =
      elim (Option-cases (lookup (alias_key go m.alias) r.models)) [
        | inr (x, f) ↦ absurd (ground arith)
        | inl f ↦
            let (j, o) =
              add_models-IsIndexed models (add_model go m r) s (add_model-IsIndexed m r i f)
                (ground arith) in
            (j, o ∙ append_assoc r.ordered (m ∷ []) (present models))
      ]

  new_router-IsIndexed :
      (models : List (Option Model)) (r : Router)
      → new_router go models ≡ built r
      → IsIndexed r × (r.ordered ≡ present models)
  unfolding new_router lookup
  new_router-IsIndexed models r e =
      add_models-IsIndexed models _ r (record { listed = tt; keyed = λ k m f. cc }) e

  -- A router that is built resolves each of its models by every spelling of its alias that trims
  -- and lowers alike, and lists the models that are not nil in their configured order.
  pub resolve-new_router :
      (models : List (Option Model)) (r : Router)
      → new_router go models ≡ built r
      → (r.ordered ≡ present models)
        × All
            (λ m.
              (alias : String)
              → alias_key go alias ≡ alias_key go m.alias
              → resolve go r alias ≡ resolved m)
            (present models)
  unfolding resolve
  resolve-new_router models r e =
      let (i, o) = new_router-IsIndexed models r e in
      (
        o,
        subst (All _) o (All-map_prop _ _ r.ordered (λ m f alias k. ground (arith, f, k)) i.listed),
      )

  -- A model that is resolved has the alias that was asked for, up to blanks at its ends and case.
  resolve_sound :
      (models : List (Option Model)) (r : Router) (alias : String) (m : Model)
      → new_router go models ≡ built r
      → resolve go r alias ≡ resolved m
      → alias_key go m.alias ≡ alias_key go alias
  unfolding resolve
  resolve_sound models r alias m e f =
      let i = (new_router-IsIndexed models r e).0 in
      elim (Option-cases (lookup (alias_key go alias) r.models)) [
        | inl n ↦ absurd (ground arith)
        | inr (x, n) ↦
            let same : resolved x ≡ resolved m = ground arith in
            ground (arith, i.keyed (alias_key go alias) x n, ap (resolved_or m) same)
      ]
