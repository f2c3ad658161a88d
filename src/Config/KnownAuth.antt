-- ===== src/Config/KnownAuth.antt =====
-- The registry of providers: internal/config/known_auth.go. What only the terminal interface reads
-- of an entry, its discovery settings and label, is left out.
use droid_proxy.Prelude.{
  Bool, true, false, not, ◌&&◌, Option, none, some, List, [], ◌∷◌, String, str_eq, if◌then◌else◌,
  is_none,
}
use droid_proxy.Prelude.GoLibrary.{GoLibrary, to_lower}
use droid_proxy.Prelude.Texts.{trim_space}
use droid_proxy.Prelude.Maps.{string_eq, lookup, insert}
use droid_proxy.Reasoning.Json.{Json, text, object, no_fields, field}
use droid_proxy.Config.{ModelConfig}

pub record KnownAuth : Type 0 where
  pub name : String
  pub base_url : String
  pub api_key_env : String
  pub upstream_protocol : String
  pub no_auth : Bool
  pub default_reasoning : String
  pub extra_args : List (String × Json)
  pub extra_headers : List (String × String)
  pub auth_header : String

abbrev provider : String → String → String → String → KnownAuth
provider name base_url api_key_env upstream_protocol = record {
  name = name;
  base_url = base_url;
  api_key_env = api_key_env;
  upstream_protocol = upstream_protocol;
  no_auth = false;
  default_reasoning = "";
  extra_args = [];
  extra_headers = [];
  auth_header = "";
}

abbrev chat_provider : String → String → String → KnownAuth
chat_provider name base_url api_key_env = provider name base_url api_key_env "openai-chat"

abbrev thinking : Json
thinking = object (field "type" (text "enabled") no_fields)

-- thinkingEnabledExtraArgs.
abbrev thinking_enabled_extra_args : List (String × Json)
thinking_enabled_extra_args = ("thinking", thinking) ∷ []

unfoldable pub known_auth_registry : List (String × KnownAuth)
known_auth_registry =
    (
      "deepseek",
      record (chat_provider "deepseek" "https://api.deepseek.com/v1" "DEEPSEEK_API_KEY") {
        default_reasoning = "deepseek";
        extra_args = ("thinking", thinking) ∷ ("reasoning_effort", text "high") ∷ [];
      },
    )
    ∷ ("openai", provider "openai" "https://api.openai.com/v1" "OPENAI_API_KEY" "openai-responses")
    ∷ (
      "anthropic",
      record (provider "anthropic" "https://api.anthropic.com" "ANTHROPIC_API_KEY"
          "anthropic-messages") {
            auth_header = "x-api-key";
            extra_headers = ("anthropic-version", "2023-06-01") ∷ [];
          },
    )
    ∷ ("xai", chat_provider "xai" "https://api.x.ai/v1" "XAI_API_KEY")
    ∷ ("kimi", chat_provider "kimi" "https://api.moonshot.cn/v1" "MOONSHOT_API_KEY")
    ∷ ("groq", chat_provider "groq" "https://api.groq.com/openai/v1" "GROQ_API_KEY")
    ∷ (
      "fireworks",
      chat_provider "fireworks" "https://api.fireworks.ai/inference/v1" "FIREWORKS_API_KEY",
    )
    ∷ (
      "fireworks-fire-pass",
      chat_provider "fireworks-fire-pass" "https://api.fireworks.ai/inference/v1"
          "FIREWORKS_FIRE_PASS_API_KEY",
    )
    ∷ ("baseten", chat_provider "baseten" "https://inference.baseten.co/v1" "BASETEN_API_KEY")
    ∷ (
      "deepinfra",
      chat_provider "deepinfra" "https://api.deepinfra.com/v1/openai" "DEEPINFRA_TOKEN",
    )
    ∷ ("zai", chat_provider "zai" "https://api.z.ai/api/paas/v4" "ZAI_API_KEY")
    ∷ (
      "zai-main-api",
      chat_provider "zai-main-api" "https://api.z.ai/api/paas/v4" "ZAI_MAIN_API_KEY",
    )
    ∷ (
      "zai-coding-api",
      chat_provider "zai-coding-api" "https://api.z.ai/api/coding/paas/v4" "ZAI_CODING_API_KEY",
    )
    ∷ (
      "mimo",
      record (chat_provider "mimo" "https://api.xiaomimimo.com/v1" "MIMO_API_KEY") {
        default_reasoning = "deepseek";
        extra_args = thinking_enabled_extra_args;
        auth_header = "api-key";
      },
    )
    ∷ (
      "mimo-token-plan-cn",
      record (chat_provider "mimo-token-plan-cn" "https://token-plan-cn.xiaomimimo.com/v1"
          "MIMO_TOKEN_PLAN_CN_API_KEY") {
            default_reasoning = "deepseek";
            extra_args = thinking_enabled_extra_args;
            auth_header = "api-key";
          },
    )
    ∷ (
      "mimo-token-plan-sgp",
      record (chat_provider "mimo-token-plan-sgp" "https://token-plan-sgp.xiaomimimo.com/v1"
          "MIMO_TOKEN_PLAN_SGP_API_KEY") {
            default_reasoning = "deepseek";
            extra_args = thinking_enabled_extra_args;
            auth_header = "api-key";
          },
    )
    ∷ (
      "mimo-token-plan-ams",
      record (chat_provider "mimo-token-plan-ams" "https://token-plan-ams.xiaomimimo.com/v1"
          "MIMO_TOKEN_PLAN_AMS_API_KEY") {
            default_reasoning = "deepseek";
            extra_args = thinking_enabled_extra_args;
            auth_header = "api-key";
          },
    )
    ∷ ("ollama", record (chat_provider "ollama" "http://127.0.0.1:11434/v1" "") { no_auth = true })
    ∷ ("vllm", record (chat_provider "vllm" "http://127.0.0.1:8000/v1" "") { no_auth = true })
    ∷ []

-- LookupKnownAuth.
unfoldable pub lookup_known_auth : GoLibrary → String → Option KnownAuth
lookup_known_auth go name = lookup (to_lower go.lower (trim_space name)) known_auth_registry

-- The entries whose key is not set are added.
unfoldable pub fill_missing :
    {V : Type 0} → List (String × V) → List (String × V) → List (String × V)
fill_missing [] m = m
fill_missing ((k, v) ∷ entries) m =
    fill_missing entries (if is_none (lookup k m) then insert k v m else m)

abbrev pub or_else : String → String → String
or_else s d = if str_eq s "" then d else s

-- HydrateModel after the lookup.
unfoldable pub hydrate_from : KnownAuth → ModelConfig → ModelConfig
hydrate_from ka m = record m {
  base_url = or_else m.base_url ka.base_url;
  api_key_env = if str_eq m.api_key_env "" && not ka.no_auth then ka.api_key_env else m.api_key_env;
  upstream_protocol = or_else m.upstream_protocol ka.upstream_protocol;
  capabilities = record m.capabilities {
    reasoning =
        if not (str_eq ka.default_reasoning "") && str_eq m.capabilities.reasoning ""
        then ka.default_reasoning
        else m.capabilities.reasoning;
  };
  extra_args = fill_missing ka.extra_args m.extra_args;
  extra_headers = fill_missing ka.extra_headers m.extra_headers;
}

-- `none` is the error of an unknown name.
unfoldable pub hydrate_known : Option KnownAuth → ModelConfig → Option ModelConfig
hydrate_known none m = none
hydrate_known (some ka) m = some (hydrate_from ka m)

-- HydrateModel.
unfoldable pub hydrate_model : GoLibrary → ModelConfig → Option ModelConfig
hydrate_model go m =
    if str_eq (trim_space m.known_auth) ""
    then some m
    else hydrate_known (lookup_known_auth go m.known_auth) m

abbrev hydrate_next :
    GoLibrary
    → Option ModelConfig
    → Option (List (Option ModelConfig))
    → Option (List (Option ModelConfig))
hydrate_next go (some m) (some rest) = some (some m ∷ rest)
hydrate_next go _ _ = none

-- The loop over the models in parse; a nil model is left as it is.
unfoldable pub hydrate_models :
    GoLibrary → List (Option ModelConfig) → Option (List (Option ModelConfig))
hydrate_models go [] = some []
hydrate_models go (none ∷ models) = with_nil (hydrate_models go models)
  where
    with_nil : Option (List (Option ModelConfig)) → Option (List (Option ModelConfig))
    with_nil none = none
    with_nil (some rest) = some (none ∷ rest)
hydrate_models go (some m ∷ models) =
    hydrate_next go (hydrate_model go m) (hydrate_models go models)
