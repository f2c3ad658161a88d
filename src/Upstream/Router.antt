-- ===== src/Upstream/Router.antt =====
-- The resolution of model aliases: internal/upstream/route.go. `caseFold` is always true in the
-- source. A configured model is its alias and the rest of its settings; nil stands as `none`.
pub mod Resolution
mod Tests
use droid_proxy.Prelude.{
  ℕ, ◌≡◌, Bool, true, false, not, Option, none, some, List, [], ◌∷◌, ◌++◌, String, if◌then◌else◌,
  is_none,
}
use droid_proxy.Prelude.GoLibrary.{GoLibrary, to_lower}
use droid_proxy.Prelude.Texts.{trim_space}
use droid_proxy.Prelude.Maps.{string_eq, lookup, insert}

pub record Model : Type 0 where
  pub alias : String
  pub settings : String

pub record Router : Type 0 where
  pub models : List (String × Model)
  pub ordered : List Model
  pub alias_keys : List String

pub data NewRouter : Type 0 where
  built : Router → NewRouter
  duplicate_alias : (alias : String) → NewRouter

-- Resolve's result: a model, or the alias that is not known with those that are.
pub data Resolved : Type 0 where
  resolved : Model → Resolved
  not_found : (alias : String) → (known : List String) → Resolved

module _ (go : GoLibrary) where
  unfoldable pub alias_key : String → String
  alias_key alias = to_lower go.lower (trim_space alias)

  abbrev pub add_model : Model → Router → Router
  add_model m r = record {
    models = insert (alias_key m.alias) m r.models;
    ordered = r.ordered ++ (m ∷ []);
    alias_keys = r.alias_keys ++ (m.alias ∷ []);
  }

  -- The loop of NewRouter.
  unfoldable pub add_models : List (Option Model) → Router → NewRouter
  add_models [] r = built r
  add_models (none ∷ models) r = add_models models r
  add_models (some m ∷ models) r =
      let rest = add_models models (add_model m r) in
      if not (is_none (lookup (alias_key m.alias) r.models)) then duplicate_alias m.alias else rest

  -- NewRouter.
  unfoldable pub new_router : List (Option Model) → NewRouter
  new_router models = add_models models (record { models = []; ordered = []; alias_keys = [] })

  abbrev found_in : Router → String → Option Model → Resolved
  found_in r alias none = not_found alias r.alias_keys
  found_in r alias (some m) = resolved m

  -- Resolve.
  unfoldable pub resolve : Router → String → Resolved
  resolve r alias = found_in r alias (lookup (alias_key alias) r.models)
