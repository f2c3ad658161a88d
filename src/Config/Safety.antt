-- ===== src/Config/Safety.antt =====
-- What a configuration that was loaded promises to the rest of the program: Config.Validate and
-- Model.Validate in internal/config.
use droid_proxy.Prelude.{
  ℕ, suc, ◌≡◌, ◌≢◌, refl, subst, ap, inl, inr, Bool, true, false, ◌&&◌, Option, none, some, List,
  [], ◌∷◌, ◌++◌, String, arith, All, Bool-cases, if◌then◌else◌,
}
use droid_proxy.Prelude.GoLibrary.{GoLibrary}
use droid_proxy.Prelude.Texts.{is_blank}
use droid_proxy.Config.{Config, ModelConfig, listed}
use droid_proxy.Config.Models.{NetLibrary, ModelError, is_loopback_host, is_set, validate_model}
use droid_proxy.Config.Validation.{
  ConfigError, failing, key_errors, key_checks, model_errors, models_errors, seen_key, validate,
  duplicate_alias, listen_checks, limit_checks, oauth_checks, has_none, Parsed, parsed, parse,
  parse_config, with_models, judged,
}
use droid_proxy.Config.Defaults.{apply_defaults}
use droid_proxy.Config.KnownAuth.{hydrate_models}
use droid_proxy.Config.SafeModels.{append-none, failing-none, IsSafeModel, validate_model-IsSafe}

module _ (go : GoLibrary) (net : NetLibrary) (getenv : String → String) where
  model_passed :
      (m : ModelConfig) (o : Option ModelError)
      → model_errors go net getenv m o ≡ []
      → (o ≡ none) × (failing (key_checks go net getenv m true) ≡ [])
  unfolding model_errors
  model_passed m none h = (refl, h)
  model_passed m (some e) h = cc

  first_passed :
      (duplicate : Bool) (e : ConfigError) (errors : List ConfigError)
      (rest : Bool → List ConfigError)
      → (if duplicate then e ∷ rest duplicate else errors ++ rest duplicate) ≡ []
      → (duplicate ≡ false) × (errors ≡ []) × (rest false ≡ [])
  first_passed true e errors rest h = cc
  first_passed false e errors rest h =
      let (own, others) = append-none errors (rest false) h in (refl, own, others)

  -- A list of models without errors: its first is no duplicate and safe, and the others have none.
  pub models_errors-step :
      (i : ℕ) (seen : List String) (m : ModelConfig) (models : List (Option ModelConfig))
      → models_errors go net getenv i seen (some m ∷ models) ≡ []
      → (listed (seen_key go m) seen && is_set (seen_key go m) ≡ false)
        × IsSafeModel go net getenv m
        × (models_errors go net getenv (suc i) (seen_key go m ∷ seen) models ≡ [])
  unfolding models_errors
  models_errors-step i seen m models h =
      let key = seen_key go m in
      let (fresh, own, others) =
        first_passed (listed key seen && is_set key) (duplicate_alias m.alias)
          (model_errors go net getenv m (validate_model go net m))
          (λ d. models_errors go net getenv (suc i) (if d then seen else key ∷ seen) models) h in
      let (valid, keys) = model_passed m (validate_model go net m) own in
      (fresh, validate_model-IsSafe go net getenv m valid keys, others)

  -- An entry that is not nil, of a safe model.
  abbrev pub IsSafeEntry : Option ModelConfig → Type 0
  IsSafeEntry none = ⊥
  IsSafeEntry (some m) = IsSafeModel go net getenv m

  models_errors-IsSafe :
      (i : ℕ) (seen : List String) (models : List (Option ModelConfig))
      → models_errors go net getenv i seen models ≡ []
      → All IsSafeEntry models
  unfolding models_errors
  models_errors-IsSafe i seen [] h = tt
  models_errors-IsSafe i seen (none ∷ models) h = cc
  models_errors-IsSafe i seen (some m ∷ models) h =
      let (fresh, safe, others) = models_errors-step i seen m models h in
      (safe, models_errors-IsSafe (suc i) (seen_key go m ∷ seen) models others)

  pub record IsSafeConfig (c : Config) : Type 0 where
    -- without client authentication only this machine is listened to
    guarded : c.client_auth.enabled ≡ false → is_loopback_host go net c.listen.host ≡ true
    -- and with it there are keys, none of them blank
    authenticated :
        c.client_auth.enabled ≡ true
        → (c.client_auth.api_keys ≢ []) × All (λ k. is_blank k ≡ false) c.client_auth.api_keys
    has_models : c.models ≢ []
    models : All IsSafeEntry c.models

  key_errors-none :
      (i : ℕ) (keys : List String) → key_errors i keys ≡ [] → All (λ k. is_blank k ≡ false) keys
  unfolding key_errors
  key_errors-none i [] h = tt
  key_errors-none i (k ∷ keys) h = elim (Bool-cases (is_blank k)) [
    | inl e ↦ absurd (ground arith)
    | inr e ↦ (e, key_errors-none (suc i) keys (ground arith))
  ]

  not_nil : {A : Type 0} (xs : List A) → has_none xs ≡ false → xs ≢ []
  not_nil xs h e = cc (h, ap has_none e)

  -- The models of a valid configuration have no errors.
  pub validate_models :
      (c : Config) → validate go net getenv c ≡ [] → models_errors go net getenv 0 [] c.models ≡ []
  unfolding validate
  validate_models c h =
      let (listen, h1) = append-none (failing (listen_checks go net getenv c)) _ h in
      let (keys, h2) =
        append-none (if c.client_auth.enabled then key_errors 0 c.client_auth.api_keys else []) _
          h1 in
      let (limits, h3) = append-none (failing (limit_checks c)) _ h2 in
      (append-none (failing (oauth_checks go net getenv c)) _ h3).1

  validate-IsSafe : (c : Config) → validate go net getenv c ≡ [] → IsSafeConfig c
  unfolding validate
  validate-IsSafe c h =
      let (listen, h1) = append-none (failing (listen_checks go net getenv c)) _ h in
      let (keys, h2) =
        append-none (if c.client_auth.enabled then key_errors 0 c.client_auth.api_keys else []) _
          h1 in
      let (limits, h3) = append-none (failing (limit_checks c)) _ h2 in
      let (oauth, h4) = append-none (failing (oauth_checks go net getenv c)) _ h3 in
      let listening = failing-none (listen_checks go net getenv c) listen in
      let host = listening.1.0 in
      let no_keys = listening.1.1.1.1.0 in
      let pool = failing-none (oauth_checks go net getenv c) oauth in
      record {
        guarded = λ e. ground arith;
        authenticated = λ e. (
          not_nil c.client_auth.api_keys (ground arith),
          key_errors-none 0 c.client_auth.api_keys (ground arith),
        );
        has_models = not_nil c.models pool.1.1.1.1.1.1.1.1.1.1.1.1.0;
        models = models_errors-IsSafe 0 [] c.models h4;
      }

  parsed_config : Config → Parsed → Config
  parsed_config d (parsed c) = c
  parsed_config d _ = d

  judged_parsed :
      (d c : Config) (errors : List ConfigError)
      → judged d errors ≡ parsed c
      → (errors ≡ []) × (d ≡ c)
  unfolding parsed_config
  judged_parsed d c [] e = (refl, ap (parsed_config d) e)
  judged_parsed d c (x ∷ errors) e = cc

  with_models-IsSafe :
      (d c : Config) (o : Option (List (Option ModelConfig)))
      → with_models go net getenv d o ≡ parsed c
      → IsSafeConfig c
  unfolding with_models
  with_models-IsSafe d c none e = cc
  with_models-IsSafe d c (some models) e =
      let f = record d { models = models } in
      let (none_failed, same) = judged_parsed f c (validate go net getenv f) e in
      subst IsSafeConfig same (validate-IsSafe f none_failed)

  parse_config-IsSafe :
      (c : Config) (o : Option Config) → parse_config go net getenv o ≡ parsed c → IsSafeConfig c
  unfolding parse_config
  parse_config-IsSafe c none e = cc
  parse_config-IsSafe c (some raw) e =
      with_models-IsSafe (apply_defaults raw) c (hydrate_models go (apply_defaults raw).models) e

  -- A configuration that parse returns exposes no secret: without client authentication it listens
  -- to this machine only, with it there are keys and none is blank; no model is nil, and each has
  -- an alias that is not blank, a protocol that its provider's agents can use, the OAuth provider
  -- that an OAuth protocol wants, a base URL without user and over https, or over http to this machine,
  -- if it has one that is not blank, and a key that is set in the environment where the upstream
  -- requires one.
  pub parse-IsSafe :
      (decode : String → Option Config) (raw : String) (c : Config)
      → parse go net getenv decode raw ≡ parsed c
      → IsSafeConfig c
  unfolding parse
  parse-IsSafe decode raw c e = parse_config-IsSafe c (decode raw) e
