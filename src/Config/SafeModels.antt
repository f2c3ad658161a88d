-- ===== src/Config/SafeModels.antt =====
-- A model that passed its checks: Model.Validate in internal/config/config.go and the checks of API
-- keys in internal/config/load.go.
use droid_proxy.Prelude.{
  ◌≡◌, refl, inl, inr, ◌⊎◌, Bool, true, false, Option, none, some, List, [], ◌∷◌, ◌++◌, String,
  str_eq, eq_iff, arith, All, Bool-cases,
}
use droid_proxy.Prelude.GoLibrary.{GoLibrary}
use droid_proxy.Prelude.Texts.{trim_space, is_blank}
use droid_proxy.Config.{ModelConfig, listed}
use droid_proxy.Config.Models.{
  Url, NetLibrary, ModelError, is_loopback_host, is_oauth_upstream, allowed_upstream_for,
  supports_agent_workflow, oauth_provider_for_upstream, first_failing, url_checks, model_checks,
  validate_url, validate_base_url, validate_model,
}
use droid_proxy.Config.Validation.{ConfigError, failing, requires_api_key, key_checks}

pub append-none : (xs ys : List ConfigError) → xs ++ ys ≡ [] → (xs ≡ []) × (ys ≡ [])
append-none [] ys e = (refl, e)
append-none (x ∷ xs) ys e = cc

pub first_failing-none :
    (checks : List (Bool × ModelError)) (rest : Option ModelError)
    → first_failing checks rest ≡ none
    → All (λ p. p.0 ≡ false) checks × (rest ≡ none)
unfolding first_failing
first_failing-none [] rest h = (tt, h)
first_failing-none ((true, e) ∷ checks) rest h = cc
first_failing-none ((false, e) ∷ checks) rest h =
    let (passed, k) = first_failing-none checks rest h in ((refl, passed), k)

pub failing-none :
    (checks : List (Bool × ConfigError)) → failing checks ≡ [] → All (λ p. p.0 ≡ false) checks
unfolding failing
failing-none [] h = tt
failing-none ((true, e) ∷ checks) h = cc
failing-none ((false, e) ∷ checks) h = (refl, failing-none checks h)

-- The table of allowed protocols is that of the protocols with which an agent can work.
allowed_supported :
    (fp up : String)
    → listed up (allowed_upstream_for fp) ≡ true
    → supports_agent_workflow fp up ≡ true
unfolding allowed_upstream_for supports_agent_workflow
allowed_supported fp up h = ground arith

module _ (go : GoLibrary) (net : NetLibrary) (getenv : String → String) where
  -- Requests for the model go over https, or over http to this machine.
  abbrev pub IsPrivateUrl : Url → Type 0
  IsPrivateUrl u =
      (u.scheme ≡ "https") ⊎ ((u.scheme ≡ "http") × (is_loopback_host go net u.hostname ≡ true))

  pub record IsSafeModel (m : ModelConfig) : Type 0 where
    pub named : is_blank m.alias ≡ false
    pub supported : supports_agent_workflow m.factory_provider m.upstream_protocol ≡ true
    pub logged_in :
        is_oauth_upstream m.upstream_protocol ≡ true
        → (m.factory_provider ≡ "openai")
          × (m.oauth_provider ≡ oauth_provider_for_upstream m.upstream_protocol)
    pub private_url :
        is_blank m.base_url ≡ false
        → (u : Url) × (net.parse_url (trim_space m.base_url) ≡ some u)
          × (u.has_user ≡ false)
          × IsPrivateUrl u
    pub keyed :
        requires_api_key go net getenv m ≡ true
        → (is_blank m.api_key_env ≡ false) × (is_blank (getenv (trim_space m.api_key_env)) ≡ false)

  url_private :
      (o : Option Url)
      → validate_url go net o ≡ none
      → (u : Url) × (o ≡ some u) × (u.has_user ≡ false) × IsPrivateUrl u
  unfolding validate_url
  url_private none h = cc
  url_private (some u) h =
      let passed = (first_failing-none (url_checks go net u) none h).0 in
      let scheme = passed.1.0 in
      let loopback = passed.1.1.1.1.0 in
      (
        u,
        refl,
        passed.1.1.0,
        elim (Bool-cases (str_eq u.scheme "http")) [
          | inl e ↦ inr ((eq_iff u.scheme "http").0 e, ground arith)
          | inr e ↦ inl ((eq_iff u.scheme "https").0 (ground arith))
        ],
      )

  pub validate_model-IsSafe :
      (m : ModelConfig)
      → validate_model go net m ≡ none
      → failing (key_checks go net getenv m true) ≡ []
      → IsSafeModel m
  unfolding validate_model key_checks validate_base_url is_blank
  validate_model-IsSafe m h k =
      let (checks, url) =
        first_failing-none (model_checks go net m) (validate_base_url go net m) h in
      let allowed = checks.1.1.1.0 in
      let openai = checks.1.1.1.1.0 in
      let provider = checks.1.1.1.1.1.1.0 in
      let keys = failing-none (key_checks go net getenv m true) k in
      let missing = keys.0 in
      let empty = keys.1.0 in
      record {
        named = checks.0;
        supported = allowed_supported m.factory_provider m.upstream_protocol (ground arith);
        logged_in = λ o. (
          (eq_iff m.factory_provider "openai").0 (ground arith),
          (eq_iff m.oauth_provider (oauth_provider_for_upstream m.upstream_protocol)).0
              (ground arith),
        );
        private_url = λ w. url_private (net.parse_url (trim_space m.base_url)) (ground arith);
        keyed = λ r. (ground arith, ground arith);
      }
