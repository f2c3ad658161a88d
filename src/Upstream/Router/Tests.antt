-- ===== src/Upstream/Router/Tests.antt =====
-- A router of two models, and one that is refused.
use droid_proxy.Prelude.{◌≡◌, refl, Option, none, some, List, [], ◌∷◌, String, All}
use droid_proxy.Samples.{plain_go}
use droid_proxy.Upstream.Router.{
  Model, Router, built, duplicate_alias, resolved, alias_key, new_router, resolve,
}
use droid_proxy.Upstream.Router.Resolution.{present, resolve-new_router}

abbrev model_of : String → Model
model_of alias = record { alias = alias; settings = "" }

abbrev two_models : List (Option Model)
two_models = some (model_of "gpt") ∷ none ∷ some (model_of " grok ") ∷ []

abbrev router : Router
router = record {
  models = ("gpt", model_of "gpt") ∷ ("grok", model_of " grok ") ∷ [];
  ordered = model_of "gpt" ∷ model_of " grok " ∷ [];
  alias_keys = "gpt" ∷ " grok " ∷ [];
}

router_lem : new_router plain_go two_models ≡ built router
unfolding new_router droid_proxy.Upstream.Router.add_models droid_proxy.Prelude.Maps.lookup
    droid_proxy.Prelude.Maps.insert alias_key droid_proxy.Prelude.GoLibrary.to_lower
    droid_proxy.Prelude.Texts.trim_space
router_lem = refl

test_refused :
    new_router plain_go (some (model_of "gpt") ∷ some (model_of "gpt ") ∷ [])
    ≡ duplicate_alias "gpt "
unfolding new_router droid_proxy.Upstream.Router.add_models droid_proxy.Prelude.Maps.lookup
    droid_proxy.Prelude.Maps.insert alias_key droid_proxy.Prelude.GoLibrary.to_lower
    droid_proxy.Prelude.Texts.trim_space
test_refused = refl

resolve-new_router_example :
    (router.ordered ≡ present two_models)
    × All
        (λ m.
          (alias : String)
          → alias_key plain_go alias ≡ alias_key plain_go m.alias
          → resolve plain_go router alias ≡ resolved m)
        (present two_models)
resolve-new_router_example = resolve-new_router plain_go two_models router router_lem
