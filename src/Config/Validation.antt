-- ===== src/Config/Validation.antt =====
-- The loading of a configuration: Validate, requiresAPIKey and parse in internal/config/load.go. The
-- YAML decoder, with the expansion of environment variables, is a parameter of parse.
use droid_proxy.Prelude.{
  ℕ, suc, ◌*◌, ◌^◌, Bool, true, false, not, ◌&&◌, ◌||◌, Option, none, some, List, [], ◌∷◌, ◌++◌,
  String, str_eq, if◌then◌else◌,
}
use droid_proxy.Prelude.GoLibrary.{GoLibrary, to_lower}
use droid_proxy.Prelude.Texts.{trim_space, is_blank, is_prefix}
use droid_proxy.Prelude.Numbers.{ℤ, pos, ltb_ℤ, Float, units, ltb_float}
use droid_proxy.Config.{Config, ModelConfig, listed, is_valid_strategy}
use droid_proxy.Config.KnownAuth.{KnownAuth, lookup_known_auth, hydrate_models}
use droid_proxy.Config.Models.{
  Url, NetLibrary, ModelError, is_loopback_host, is_oauth_upstream, validate_model, is_set,
}
use droid_proxy.Config.Defaults.{apply_defaults}

-- The entries of `errs`.
pub data ConfigError : Type 0 where
  listen_port : ConfigError
  listen_host : ConfigError
  logging_level : ConfigError
  logging_format : ConfigError
  api_keys_required : ConfigError
  blank_api_key : ℕ → ConfigError
  cache_max_entries : ConfigError
  cache_ttl : ConfigError
  negative : String → ConfigError
  http_timeout : ConfigError
  blank_auth_dir : ConfigError
  callback_port : String → ConfigError
  callback_host : String → ConfigError
  load_balancing_strategy : ConfigError
  quota_soft_cap : ConfigError
  no_models : ConfigError
  null_model : ℕ → ConfigError
  duplicate_alias : String → ConfigError
  invalid_model : ModelError → ConfigError
  api_key_env_required : (alias : String) → ConfigError
  empty_env : (alias : String) → ConfigError

-- `if failed { errs = append(errs, error) }`, one after the other.
unfoldable pub failing : List (Bool × ConfigError) → List ConfigError
failing [] = []
failing ((failed, e) ∷ checks) = if failed then e ∷ failing checks else failing checks

abbrev pub is_negative : ℤ → Bool
is_negative z = ltb_ℤ z (pos 0)

abbrev pub is_positive : ℤ → Bool
is_positive z = ltb_ℤ (pos 0) z

abbrev pub no_port : ℤ → Bool
no_port z = is_negative z || ltb_ℤ (pos 65535) z

-- `len(xs) == 0`.
abbrev pub has_none : {A : Type 0} → List A → Bool
has_none [] = true
has_none (x ∷ xs) = false

abbrev hundred : Float
hundred = units (pos (100 * 2 ^ 1074))

unfoldable pub is_valid_log_level : String → Bool
is_valid_log_level level = listed level ("trace" ∷ "debug" ∷ "info" ∷ "warn" ∷ "error" ∷ [])

unfoldable pub key_errors : ℕ → List String → List ConfigError
key_errors i [] = []
key_errors i (key ∷ keys) =
    let rest = key_errors (suc i) keys in if is_blank key then blank_api_key i ∷ rest else rest

-- The key by which aliases are compared.
unfoldable pub seen_key : GoLibrary → ModelConfig → String
seen_key go m = to_lower go.lower (trim_space m.alias)

abbrev pub limit_checks : Config → List (Bool × ConfigError)
limit_checks c =
    (not (is_positive c.reasoning_cache.max_entries), cache_max_entries)
    ∷ (not (is_positive c.reasoning_cache.ttl), cache_ttl)
    ∷ (is_negative c.server.request_body_max_bytes, negative "server.request_body_max_bytes")
    ∷ (is_negative c.server.read_header_timeout, negative "server.read_header_timeout")
    ∷ (is_negative c.server.read_timeout, negative "server.read_timeout")
    ∷ (is_negative c.server.write_timeout, negative "server.write_timeout")
    ∷ (is_negative c.server.idle_timeout, negative "server.idle_timeout")
    ∷ (is_negative c.server.shutdown_timeout, negative "server.shutdown_timeout")
    ∷ (not (is_positive c.upstream.http_timeout), http_timeout)
    ∷ (is_negative c.upstream.stream_keep_alive, negative "upstream.stream_keep_alive")
    ∷ (is_negative c.upstream.response_body_max_bytes, negative "upstream.response_body_max_bytes")
    ∷ (is_negative c.upstream.error_body_max_bytes, negative "upstream.error_body_max_bytes")
    ∷ []

pub data Parsed : Type 0 where
  bad_yaml : Parsed
  unknown_known_auth : Parsed
  invalid : List ConfigError → Parsed
  parsed : Config → Parsed

abbrev pub judged : Config → List ConfigError → Parsed
judged c [] = parsed c
judged c (e ∷ errors) = invalid (e ∷ errors)

module _ (go : GoLibrary) (net : NetLibrary) (getenv : String → String) where
  abbrev hostname_loopback : Option Url → Bool
  hostname_loopback none = false
  hostname_loopback (some u) = is_loopback_host go net u.hostname

  unfoldable pub is_loopback_url : String → Bool
  is_loopback_url raw = hostname_loopback (net.parse_url raw)

  abbrev needs_no_auth : Option KnownAuth → Bool
  needs_no_auth none = false
  needs_no_auth (some ka) = ka.no_auth

  -- requiresAPIKey, of a model that is not nil.
  unfoldable pub requires_api_key : ModelConfig → Bool
  requires_api_key m =
      if is_blank m.base_url
      then false
      else if is_oauth_upstream m.upstream_protocol
      then false
      else if needs_no_auth (lookup_known_auth go m.known_auth)
      then (if is_loopback_url m.base_url then not (is_blank m.api_key_env) else true)
      else if is_prefix "http://" (trim_space m.base_url)
      then not (is_loopback_url m.base_url)
      else true

  -- The checks of a model that is no duplicate, after its Validate.
  unfoldable pub key_checks : ModelConfig → Bool → List (Bool × ConfigError)
  key_checks m model_valid =
      (requires_api_key m && is_blank m.api_key_env, api_key_env_required m.alias)
      ∷ (
        model_valid
            && requires_api_key m
            && not (is_blank m.api_key_env)
            && is_blank (getenv (trim_space m.api_key_env)),
        empty_env m.alias,
      )
      ∷ []

  unfoldable pub model_errors : ModelConfig → Option ModelError → List ConfigError
  model_errors m none = failing (key_checks m true)
  model_errors m (some e) = invalid_model e ∷ failing (key_checks m false)

  -- The loop over the models: from the index and the keys seen.
  unfoldable pub models_errors : ℕ → List String → List (Option ModelConfig) → List ConfigError
  models_errors i seen [] = []
  models_errors i seen (none ∷ models) = null_model i ∷ models_errors (suc i) seen models
  models_errors i seen (some m ∷ models) =
      let key = seen_key go m in
      let duplicate = listed key seen && is_set key in
      let rest = models_errors (suc i) (if duplicate then seen else key ∷ seen) models in
      if duplicate
      then duplicate_alias m.alias ∷ rest
      else model_errors m (validate_model go net m) ++ rest

  abbrev pub listen_checks : Config → List (Bool × ConfigError)
  listen_checks c =
      (no_port c.listen.port, listen_port)
      ∷ (not c.client_auth.enabled && not (is_loopback_host go net c.listen.host), listen_host)
      ∷ (not (is_valid_log_level c.logging.level), logging_level)
      ∷ (
        not (str_eq c.logging.format "text") && not (str_eq c.logging.format "json"),
        logging_format,
      )
      ∷ (c.client_auth.enabled && has_none c.client_auth.api_keys, api_keys_required)
      ∷ []

  abbrev pub oauth_checks : Config → List (Bool × ConfigError)
  oauth_checks c =
      let l = c.oauth.load_balancing in
      (is_blank c.oauth.auth_dir, blank_auth_dir)
      ∷ (no_port c.oauth.codex_callback_port, callback_port "codex")
      ∷ (no_port c.oauth.xai_callback_port, callback_port "xai")
      ∷ (not (is_loopback_host go net c.oauth.codex_callback_host), callback_host "codex")
      ∷ (not (is_loopback_host go net c.oauth.xai_callback_host), callback_host "xai")
      ∷ (is_set l.strategy && not (is_valid_strategy l.strategy), load_balancing_strategy)
      ∷ (is_negative l.max_failovers, negative "oauth.load_balancing.max_failovers")
      ∷ (is_negative l.rate_limit_cooldown, negative "oauth.load_balancing.rate_limit_cooldown")
      ∷ (is_negative l.error_cooldown, negative "oauth.load_balancing.error_cooldown")
      ∷ (
        ltb_float l.quota_soft_cap_percent (units (pos 0))
            || ltb_float hundred l.quota_soft_cap_percent,
        quota_soft_cap,
      )
      ∷ (is_negative l.affinity_max_entries, negative "oauth.load_balancing.affinity_max_entries")
      ∷ (is_negative l.affinity_ttl, negative "oauth.load_balancing.affinity_ttl")
      ∷ (has_none c.models, no_models)
      ∷ []

  -- Config.Validate: its list of errors.
  unfoldable pub validate : Config → List ConfigError
  validate c =
      failing (listen_checks c)
      ++ ((if c.client_auth.enabled then key_errors 0 c.client_auth.api_keys else [])
          ++ (failing (limit_checks c)
              ++ (failing (oauth_checks c) ++ models_errors 0 [] c.models)))

  unfoldable pub with_models : Config → Option (List (Option ModelConfig)) → Parsed
  with_models c none = unknown_known_auth
  with_models c (some models) = let d = record c { models = models } in judged d (validate d)

  unfoldable pub parse_config : Option Config → Parsed
  parse_config none = bad_yaml
  parse_config (some raw) = let c = apply_defaults raw in with_models c (hydrate_models go c.models)

  -- parse.
  unfoldable pub parse : (String → Option Config) → String → Parsed
  parse decode raw = parse_config (decode raw)
