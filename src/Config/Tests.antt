-- ===== src/Config/Tests.antt =====
-- A configuration of one model with a known provider.
use droid_proxy.Prelude.{
  ℕ, ◌≡◌, refl, Bool, true, false, Option, none, some, List, [], ◌∷◌, String, str_eq, map, zero,
  if◌then◌else◌,
}
use droid_proxy.Prelude.Numbers.{pos, units}
use droid_proxy.Samples.{plain_go}
use droid_proxy.Upstream.Router.{Router, built, new_router}
use droid_proxy.Config.{Config, ModelConfig}
use droid_proxy.Config.KnownAuth.{hydrate_models}
use droid_proxy.Config.Models.{Url, NetLibrary}
use droid_proxy.Config.Defaults.{apply_defaults}
use droid_proxy.Config.Validation.{
  ConfigError, listen_host, duplicate_alias, empty_env, Parsed, parsed, invalid, parse, validate,
}
use droid_proxy.Config.Safety.{IsSafeConfig, parse-IsSafe}
use droid_proxy.Config.Aliases.{entries, validate-built}

abbrev https : Url
https = record {
  scheme = "https";
  host = "api.deepseek.com";
  hostname = "api.deepseek.com";
  has_user = false;
  raw_query = "";
  fragment = "";
}

abbrev net : NetLibrary
net = record {
  parse_url = λ s. if str_eq s "https://api.deepseek.com/v1" then some https else none;
  parse_ip = λ s. if str_eq s "127.0.0.1" then some true else none;
}

abbrev getenv : String → String
getenv name = if str_eq name "DEEPSEEK_API_KEY" then "secret" else ""

abbrev model : String → ModelConfig
model alias = record {
  alias = alias;
  display_name = "";
  factory_provider = "generic-chat-completion-api";
  upstream_protocol = "";
  oauth_provider = "";
  oauth_account = "";
  upstream_model = "deepseek-chat";
  base_url = "";
  api_key_env = "";
  known_auth = " deepseek ";
  max_output_tokens = pos 0;
  max_context_tokens = pos 0;
  extra_headers = [];
  extra_args = [];
  capabilities = record {
    streaming = none;
    tools = none;
    tool_result_safe = none;
    images = none;
    json_mode = none;
    structured_output = none;
    reasoning = "";
    factory_reasoning = "";
    factory_reasoning_effort = "";
    prompt_caching = none;
  };
}

abbrev file_with : String → List (Option ModelConfig) → Config
file_with host models = record {
  listen = record { host = host; port = pos 0 };
  server = record {
    request_body_max_bytes = pos 0;
    read_header_timeout = pos 0;
    read_timeout = pos 0;
    write_timeout = pos 0;
    idle_timeout = pos 0;
    shutdown_timeout = pos 0;
  };
  client_auth = record { enabled = false; api_keys = []; header = ""; scheme = "" };
  logging = record { level = ""; format = ""; redact = false; trace_requests = false };
  reasoning_cache = record { enabled = false; max_entries = pos 0; ttl = pos 0 };
  upstream = record {
    http_timeout = pos 0;
    stream_keep_alive = pos 0;
    response_body_max_bytes = pos 0;
    error_body_max_bytes = pos 0;
  };
  oauth = record {
    auth_dir = "";
    codex_callback_host = "";
    codex_callback_port = pos 0;
    xai_callback_host = "";
    xai_callback_port = pos 0;
    load_balancing = record {
      strategy = "";
      max_failovers = pos 0;
      rate_limit_cooldown = pos 0;
      error_cooldown = pos 0;
      quota_soft_cap_percent = units (pos 0);
      affinity_path = "";
      affinity_max_entries = pos 0;
      affinity_ttl = pos 0;
    };
  };
  models = models;
  present = "listen.port" ∷ [];
}

abbrev file : Config
file = file_with "" (some (model "chat") ∷ some (model "Chat ") ∷ [])

abbrev models_or :
    List (Option ModelConfig) → Option (List (Option ModelConfig)) → List (Option ModelConfig)
models_or d none = d
models_or d (some models) = models

abbrev loaded : Config
loaded = record (apply_defaults file) {
  models = models_or [] (hydrate_models plain_go file.models);
}

test_loaded : parse plain_go net getenv (λ raw. some file) "" ≡ parsed loaded
unfolding parse droid_proxy.Config.Validation.parse_config droid_proxy.Config.Validation.with_models
    hydrate_models apply_defaults droid_proxy.Config.KnownAuth.hydrate_model
    droid_proxy.Prelude.Texts.trim_space droid_proxy.Config.KnownAuth.hydrate_known
    droid_proxy.Config.KnownAuth.lookup_known_auth droid_proxy.Prelude.Maps.lookup
    droid_proxy.Config.KnownAuth.known_auth_registry droid_proxy.Prelude.GoLibrary.to_lower validate
    droid_proxy.Config.Validation.failing droid_proxy.Config.Defaults.or_number
    droid_proxy.Config.Defaults.was_present droid_proxy.Config.Models.is_loopback_host
    droid_proxy.Config.Defaults.or_percent droid_proxy.Config.Defaults.or_text
    droid_proxy.Config.Defaults.or_true droid_proxy.Config.Defaults.pool_defaults
    droid_proxy.Config.KnownAuth.fill_missing droid_proxy.Config.KnownAuth.hydrate_from
    droid_proxy.Config.Models.allowed_upstream_for droid_proxy.Config.Models.are_key_bytes
    droid_proxy.Config.Models.default_factory_reasoning droid_proxy.Config.Models.first_failing
    droid_proxy.Config.Models.is_oauth_upstream droid_proxy.Config.Models.is_valid_env_key
    droid_proxy.Config.Models.oauth_provider_for_upstream
    droid_proxy.Config.Models.resolved_capabilities droid_proxy.Config.Models.validate_base_url
    droid_proxy.Config.Models.validate_model droid_proxy.Config.Models.validate_url
    droid_proxy.Config.Validation.is_loopback_url droid_proxy.Config.Validation.is_valid_log_level
    droid_proxy.Config.Validation.key_checks droid_proxy.Config.Validation.key_errors
    droid_proxy.Config.Validation.model_errors droid_proxy.Config.Validation.models_errors
    droid_proxy.Config.Validation.requires_api_key droid_proxy.Config.Validation.seen_key
    droid_proxy.Config.is_valid_factory_provider
    droid_proxy.Config.is_valid_factory_reasoning_effort
    droid_proxy.Config.is_valid_factory_reasoning_mode droid_proxy.Config.is_valid_oauth_provider
    droid_proxy.Config.is_valid_reasoning_mode droid_proxy.Config.is_valid_strategy
    droid_proxy.Config.is_valid_upstream_protocol droid_proxy.Prelude.Maps.insert
    droid_proxy.Prelude.Texts.is_blank droid_proxy.Prelude.Texts.is_prefix
test_loaded = refl

test_alike :
    parse plain_go net
      (λ name. "")
      (λ raw. some (file_with "0.0.0.0" (some (model "chat") ∷ some (model " chat") ∷ [])))
      ""
    ≡ invalid (listen_host ∷ empty_env "chat" ∷ duplicate_alias " chat" ∷ [])
unfolding parse droid_proxy.Config.Validation.parse_config droid_proxy.Config.Validation.with_models
    hydrate_models apply_defaults droid_proxy.Config.KnownAuth.hydrate_model
    droid_proxy.Prelude.Texts.trim_space droid_proxy.Config.KnownAuth.hydrate_known
    droid_proxy.Config.KnownAuth.lookup_known_auth droid_proxy.Prelude.Maps.lookup
    droid_proxy.Config.KnownAuth.known_auth_registry droid_proxy.Prelude.GoLibrary.to_lower validate
    droid_proxy.Config.Validation.failing droid_proxy.Config.Defaults.or_number
    droid_proxy.Config.Defaults.was_present droid_proxy.Config.Models.is_loopback_host
    droid_proxy.Config.Defaults.or_percent droid_proxy.Config.Defaults.or_text
    droid_proxy.Config.Defaults.or_true droid_proxy.Config.Defaults.pool_defaults
    droid_proxy.Config.KnownAuth.fill_missing droid_proxy.Config.KnownAuth.hydrate_from
    droid_proxy.Config.Models.allowed_upstream_for droid_proxy.Config.Models.are_key_bytes
    droid_proxy.Config.Models.default_factory_reasoning droid_proxy.Config.Models.first_failing
    droid_proxy.Config.Models.is_oauth_upstream droid_proxy.Config.Models.is_valid_env_key
    droid_proxy.Config.Models.oauth_provider_for_upstream
    droid_proxy.Config.Models.resolved_capabilities droid_proxy.Config.Models.validate_base_url
    droid_proxy.Config.Models.validate_model droid_proxy.Config.Models.validate_url
    droid_proxy.Config.Validation.is_loopback_url droid_proxy.Config.Validation.is_valid_log_level
    droid_proxy.Config.Validation.key_checks droid_proxy.Config.Validation.key_errors
    droid_proxy.Config.Validation.model_errors droid_proxy.Config.Validation.models_errors
    droid_proxy.Config.Validation.requires_api_key droid_proxy.Config.Validation.seen_key
    droid_proxy.Config.is_valid_factory_provider
    droid_proxy.Config.is_valid_factory_reasoning_effort
    droid_proxy.Config.is_valid_factory_reasoning_mode droid_proxy.Config.is_valid_oauth_provider
    droid_proxy.Config.is_valid_reasoning_mode droid_proxy.Config.is_valid_strategy
    droid_proxy.Config.is_valid_upstream_protocol droid_proxy.Prelude.Maps.insert
    droid_proxy.Prelude.Texts.is_blank droid_proxy.Prelude.Texts.is_prefix
test_alike = refl

test_valid : validate plain_go net getenv loaded ≡ []
unfolding parse droid_proxy.Config.Validation.parse_config droid_proxy.Config.Validation.with_models
    hydrate_models apply_defaults droid_proxy.Config.KnownAuth.hydrate_model
    droid_proxy.Prelude.Texts.trim_space droid_proxy.Config.KnownAuth.hydrate_known
    droid_proxy.Config.KnownAuth.lookup_known_auth droid_proxy.Prelude.Maps.lookup
    droid_proxy.Config.KnownAuth.known_auth_registry droid_proxy.Prelude.GoLibrary.to_lower validate
    droid_proxy.Config.Validation.failing droid_proxy.Config.Defaults.or_number
    droid_proxy.Config.Defaults.was_present droid_proxy.Config.Models.is_loopback_host
    droid_proxy.Config.Defaults.or_percent droid_proxy.Config.Defaults.or_text
    droid_proxy.Config.Defaults.or_true droid_proxy.Config.Defaults.pool_defaults
    droid_proxy.Config.KnownAuth.fill_missing droid_proxy.Config.KnownAuth.hydrate_from
    droid_proxy.Config.Models.allowed_upstream_for droid_proxy.Config.Models.are_key_bytes
    droid_proxy.Config.Models.default_factory_reasoning droid_proxy.Config.Models.first_failing
    droid_proxy.Config.Models.is_oauth_upstream droid_proxy.Config.Models.is_valid_env_key
    droid_proxy.Config.Models.oauth_provider_for_upstream
    droid_proxy.Config.Models.resolved_capabilities droid_proxy.Config.Models.validate_base_url
    droid_proxy.Config.Models.validate_model droid_proxy.Config.Models.validate_url
    droid_proxy.Config.Validation.is_loopback_url droid_proxy.Config.Validation.is_valid_log_level
    droid_proxy.Config.Validation.key_checks droid_proxy.Config.Validation.key_errors
    droid_proxy.Config.Validation.model_errors droid_proxy.Config.Validation.models_errors
    droid_proxy.Config.Validation.requires_api_key droid_proxy.Config.Validation.seen_key
    droid_proxy.Config.is_valid_factory_provider
    droid_proxy.Config.is_valid_factory_reasoning_effort
    droid_proxy.Config.is_valid_factory_reasoning_mode droid_proxy.Config.is_valid_oauth_provider
    droid_proxy.Config.is_valid_reasoning_mode droid_proxy.Config.is_valid_strategy
    droid_proxy.Config.is_valid_upstream_protocol droid_proxy.Prelude.Maps.insert
    droid_proxy.Prelude.Texts.is_blank droid_proxy.Prelude.Texts.is_prefix
test_valid = refl

parse-IsSafe_example : IsSafeConfig plain_go net getenv loaded
parse-IsSafe_example = parse-IsSafe plain_go net getenv (λ raw. some file) "" loaded test_loaded

validate-built_example :
    (r : Router) × (new_router plain_go (entries (λ m. m.base_url) loaded.models) ≡ built r)
validate-built_example = validate-built plain_go net getenv (λ m. m.base_url) loaded test_valid
