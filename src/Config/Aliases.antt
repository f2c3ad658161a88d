-- ===== src/Config/Aliases.antt =====
-- The models of a valid configuration have different aliases, so that their router is built:
-- Config.Validate in internal/config/load.go and NewRouter in internal/upstream/route.go.
use droid_proxy.Prelude.{
  ℕ, suc, ◌≡◌, refl, ap, inl, inr, Bool, true, false, Option, none, some, List, [], ◌∷◌, String,
  str_eq, eq_iff, arith, Bool-cases,
}
use Prim.Native.Char.{Char}
use Prim.Native.String.{[], ◌∷◌}
use droid_proxy.Prelude.GoLibrary.{GoLibrary, to_lower}
use droid_proxy.Prelude.Texts.{trim_space, is_blank}
use droid_proxy.Prelude.Maps.{string_eq, lookup, lookup-insert}
use droid_proxy.Upstream.Router.{Model, Router, built, alias_key, add_model, add_models, new_router}
use droid_proxy.Config.{Config, ModelConfig, listed}
use droid_proxy.Config.Models.{NetLibrary}
use droid_proxy.Config.Validation.{models_errors, seen_key, validate}
use droid_proxy.Config.Safety.{models_errors-step, validate_models}

abbrev pub entry : (ModelConfig → String) → ModelConfig → Model
entry settings m = record { alias = m.alias; settings = settings m }

abbrev pub entries : (ModelConfig → String) → List (Option ModelConfig) → List (Option Model)
entries settings [] = []
entries settings (none ∷ models) = none ∷ entries settings models
entries settings (some m ∷ models) = some (entry settings m) ∷ entries settings models

abbrev is_empty : String → Bool
is_empty [] = true
is_empty (c ∷ s) = false

-- An alias that is not blank has a key that is not empty.
to_lower-set :
    (lower : Char → Char) (s : String) → str_eq s "" ≡ false → str_eq (to_lower lower s) "" ≡ false
unfolding to_lower
to_lower-set lower [] h = cc
to_lower-set lower (c ∷ s) h = elim (Bool-cases (str_eq (lower c ∷ to_lower lower s) "")) [
  | inl e ↦ absurd (cc (ap is_empty ((eq_iff (lower c ∷ to_lower lower s) "").0 e)))
  | inr e ↦ e
]

module _ (go : GoLibrary) (net : NetLibrary) (getenv : String → String)
    (settings : ModelConfig → String) where
  -- Every key of the router was seen.
  IsSeen : List String → Router → Type 0
  IsSeen seen r = (k : String) → listed k seen ≡ false → lookup k r.models ≡ none

  add_model-IsSeen :
      (m : ModelConfig) (seen : List String) (r : Router)
      → IsSeen seen r
      → IsSeen (seen_key go m ∷ seen) (add_model go (entry settings m) r)
  unfolding IsSeen seen_key alias_key
  add_model-IsSeen m seen r h k e =
      let key = seen_key go m in
      ground
        (arith, lookup-insert key k (entry settings m) r.models, h k, eq_iff key k, eq_iff k key)

  models_errors-built :
      (i : ℕ) (seen : List String) (models : List (Option ModelConfig)) (r : Router)
      → IsSeen seen r
      → models_errors go net getenv i seen models ≡ []
      → (s : Router) × (add_models go (entries settings models) r ≡ built s)
  unfolding models_errors add_models is_blank seen_key alias_key IsSeen
  models_errors-built i seen [] r h e = (r, refl)
  models_errors-built i seen (none ∷ models) r h e = cc
  models_errors-built i seen (some m ∷ models) r h e =
      let key = seen_key go m in
      let (fresh, safe, others) = models_errors-step go net getenv i seen m models e in
      let set = to_lower-set go.lower (trim_space m.alias) safe.named in
      let (s, b) =
        models_errors-built (suc i) (key ∷ seen) models (add_model go (entry settings m) r)
          (add_model-IsSeen m seen r h) others in
      (s, ground (arith, b, fresh, set, h key))

  -- The router of the models of a configuration that passed its validation is built: no two of
  -- their aliases are alike up to blanks at the ends and case.
  pub validate-built :
      (c : Config)
      → validate go net getenv c ≡ []
      → (r : Router) × (new_router go (entries settings c.models) ≡ built r)
  unfolding validate new_router IsSeen lookup
  validate-built c h =
      models_errors-built 0 [] c.models _ (λ k e. refl) (validate_models go net getenv c h)
