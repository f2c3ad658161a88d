-- ===== src/Config.antt =====
-- The configuration: internal/config. The enumerations are strings in the source, so that a file may
-- hold any text there. An int or a duration may be negative.
pub mod KnownAuth
pub mod Models
pub mod Defaults
pub mod Validation
pub mod Aliases
pub mod SafeModels
pub mod Safety
mod Tests
use droid_proxy.Prelude.{
  ℕ, Bool, true, false, not, ◌&&◌, ◌||◌, Option, none, some, List, [], ◌∷◌, String, str_eq,
  if◌then◌else◌,
}
use droid_proxy.Prelude.Numbers.{ℤ, Float}
use droid_proxy.Reasoning.Json.{Json}

abbrev pub listed : String → List String → Bool
listed s [] = false
listed s (t ∷ ts) = str_eq s t || listed s ts

unfoldable pub is_valid_factory_provider : String → Bool
is_valid_factory_provider p = listed p ("anthropic" ∷ "openai" ∷ "generic-chat-completion-api" ∷ [])

unfoldable pub is_valid_upstream_protocol : String → Bool
is_valid_upstream_protocol p = listed p (
    "openai-chat" ∷ "openai-responses" ∷ "anthropic-messages" ∷ "codex-responses" ∷ "xai-responses"
    ∷ [])

unfoldable pub is_valid_oauth_provider : String → Bool
is_valid_oauth_provider p = listed p ("codex" ∷ "xai" ∷ [])

unfoldable pub is_valid_reasoning_mode : String → Bool
is_valid_reasoning_mode m = listed m ("none" ∷ "deepseek" ∷ "anthropic-thinking" ∷ [])

unfoldable pub is_valid_factory_reasoning_mode : String → Bool
is_valid_factory_reasoning_mode m = listed m ("drop" ∷ "passthrough" ∷ [])

unfoldable pub is_valid_factory_reasoning_effort : String → Bool
is_valid_factory_reasoning_effort e =
    listed e
      ("none" ∷ "dynamic" ∷ "off" ∷ "minimal" ∷ "low" ∷ "medium" ∷ "high" ∷ "xhigh" ∷ "max" ∷ [])

unfoldable pub is_valid_strategy : String → Bool
is_valid_strategy s =
    listed s ("round-robin" ∷ "fill-first" ∷ "least-connections" ∷ "random" ∷ "sticky" ∷ [])

pub record Capabilities : Type 0 where
  pub streaming : Option Bool
  pub tools : Option Bool
  pub tool_result_safe : Option Bool
  pub images : Option Bool
  pub json_mode : Option Bool
  pub structured_output : Option Bool
  pub reasoning : String
  pub factory_reasoning : String
  pub factory_reasoning_effort : String
  pub prompt_caching : Option Bool

-- An entry of `models`. A nil map of headers or arguments is the empty map.
pub record ModelConfig : Type 0 where
  pub alias : String
  pub display_name : String
  pub factory_provider : String
  pub upstream_protocol : String
  pub oauth_provider : String
  pub oauth_account : String
  pub upstream_model : String
  pub base_url : String
  pub api_key_env : String
  pub known_auth : String
  pub max_output_tokens : ℤ
  pub max_context_tokens : ℤ
  pub extra_headers : List (String × String)
  pub extra_args : List (String × Json)
  pub capabilities : Capabilities

pub record Listen : Type 0 where
  pub host : String
  pub port : ℤ

pub record Server : Type 0 where
  pub request_body_max_bytes : ℤ
  pub read_header_timeout : ℤ
  pub read_timeout : ℤ
  pub write_timeout : ℤ
  pub idle_timeout : ℤ
  pub shutdown_timeout : ℤ

pub record ClientAuth : Type 0 where
  pub enabled : Bool
  pub api_keys : List String
  pub header : String
  pub scheme : String

pub record Logging : Type 0 where
  pub level : String
  pub format : String
  pub redact : Bool
  pub trace_requests : Bool

pub record CacheSettings : Type 0 where
  pub enabled : Bool
  pub max_entries : ℤ
  pub ttl : ℤ

pub record UpstreamSettings : Type 0 where
  pub http_timeout : ℤ
  pub stream_keep_alive : ℤ
  pub response_body_max_bytes : ℤ
  pub error_body_max_bytes : ℤ

pub record PoolSettings : Type 0 where
  pub strategy : String
  pub max_failovers : ℤ
  pub rate_limit_cooldown : ℤ
  pub error_cooldown : ℤ
  pub quota_soft_cap_percent : Float
  pub affinity_path : String
  pub affinity_max_entries : ℤ
  pub affinity_ttl : ℤ

pub record OAuthSettings : Type 0 where
  pub auth_dir : String
  pub codex_callback_host : String
  pub codex_callback_port : ℤ
  pub xai_callback_host : String
  pub xai_callback_port : ℤ
  pub load_balancing : PoolSettings

-- A nil model is `none`. The keys that the file had are `present`; the path and the time of the file
-- are left out.
pub record Config : Type 0 where
  pub listen : Listen
  pub server : Server
  pub client_auth : ClientAuth
  pub logging : Logging
  pub reasoning_cache : CacheSettings
  pub upstream : UpstreamSettings
  pub oauth : OAuthSettings
  pub models : List (Option ModelConfig)
  pub present : List String
