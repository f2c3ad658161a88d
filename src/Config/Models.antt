-- ===== src/Config/Models.antt =====
-- What a model of the configuration may be: Model in internal/config/config.go. url.Parse and
-- net.ParseIP are parameters.
use droid_proxy.Prelude.{
  ℕ, Bool, true, false, not, ◌&&◌, ◌||◌, Option, none, some, List, [], ◌∷◌, String, str_eq,
  if◌then◌else◌, leb, ◌==◌,
}
use droid_proxy.Prelude.GoLibrary.{GoLibrary, to_lower}
use droid_proxy.Prelude.Texts.{trim_space, is_blank}
use droid_proxy.Config.{
  ModelConfig, listed, is_valid_factory_provider, is_valid_upstream_protocol,
  is_valid_oauth_provider, is_valid_reasoning_mode, is_valid_factory_reasoning_mode,
  is_valid_factory_reasoning_effort,
}
use Prim.Native.Char.{code}
use Prim.Native.String.{[], ◌∷◌}

pub record Url : Type 0 where
  pub scheme : String
  pub host : String
  -- `Hostname()`
  pub hostname : String
  pub has_user : Bool
  pub raw_query : String
  pub fragment : String

pub record NetLibrary : Type 0 where
  -- `url.Parse`, `none` for an error
  pub parse_url : String → Option Url
  -- `net.ParseIP`, and `IsLoopback` of what it gives
  pub parse_ip : String → Option Bool

abbrev pub is_true : Option Bool → Bool
is_true none = false
is_true (some b) = b

unfoldable pub is_loopback_host : GoLibrary → NetLibrary → String → Bool
is_loopback_host go net host =
    let h = trim_space (to_lower go.lower host) in str_eq h "localhost" || is_true (net.parse_ip h)

unfoldable pub is_oauth_upstream : String → Bool
is_oauth_upstream up = str_eq up "codex-responses" || str_eq up "xai-responses"

unfoldable pub oauth_provider_for_upstream : String → String
oauth_provider_for_upstream up =
    if str_eq up "codex-responses" then "codex" else if str_eq up "xai-responses" then "xai" else ""

unfoldable pub allowed_upstream_for : String → List String
allowed_upstream_for fp =
    if str_eq fp "generic-chat-completion-api"
    then "openai-chat" ∷ []
    else if str_eq fp "openai"
    then "openai-responses" ∷ "openai-chat" ∷ "codex-responses" ∷ "xai-responses" ∷ []
    else if str_eq fp "anthropic"
    then "anthropic-messages" ∷ "openai-chat" ∷ []
    else []

unfoldable pub supports_agent_workflow : String → String → Bool
supports_agent_workflow fp up =
    if str_eq fp "generic-chat-completion-api"
    then str_eq up "openai-chat"
    else if str_eq fp "openai"
    then str_eq up "openai-responses"
      || str_eq up "openai-chat"
      || str_eq up "codex-responses"
      || str_eq up "xai-responses"
    else if str_eq fp "anthropic"
    then str_eq up "anthropic-messages" || str_eq up "openai-chat"
    else false

unfoldable pub default_factory_reasoning : String → String
default_factory_reasoning up = if str_eq up "xai-responses" then "drop" else "passthrough"

pub record ResolvedCapabilities : Type 0 where
  pub streaming : Bool
  pub tools : Bool
  pub tool_result_safe : Bool
  pub images : Bool
  pub json_mode : Bool
  pub structured_output : Bool
  pub reasoning : String
  pub factory_reasoning : String
  pub factory_reasoning_effort : String
  pub prompt_caching : Bool

abbrev or_flag : Option Bool → Bool → Bool
or_flag none d = d
or_flag (some b) d = b

abbrev or_mode : String → String → String
or_mode s d = if str_eq s "" then d else s

unfoldable pub resolved_capabilities : ModelConfig → ResolvedCapabilities
resolved_capabilities m =
    let c = m.capabilities in
    record {
      streaming = or_flag c.streaming true;
      tools = or_flag c.tools true;
      tool_result_safe = or_flag c.tool_result_safe true;
      images = or_flag c.images false;
      json_mode = or_flag c.json_mode true;
      structured_output = or_flag c.structured_output false;
      reasoning = or_mode c.reasoning "none";
      factory_reasoning =
          or_mode c.factory_reasoning (default_factory_reasoning m.upstream_protocol);
      factory_reasoning_effort = c.factory_reasoning_effort;
      prompt_caching = or_flag c.prompt_caching false;
    }

unfoldable pub agent_ready : ModelConfig → Bool
agent_ready m =
    let r = resolved_capabilities m in
    supports_agent_workflow m.factory_provider m.upstream_protocol
    && (r.streaming && r.tools && r.tool_result_safe)

abbrev is_letter_or_underscore : ℕ → Bool
is_letter_or_underscore c = (c == 95) || leb 65 c && leb c 90 || leb 97 c && leb c 122

abbrev is_digit : ℕ → Bool
is_digit c = leb 48 c && leb c 57

unfoldable pub are_key_bytes : String → Bool
are_key_bytes [] = true
are_key_bytes (c ∷ s) = (is_letter_or_underscore (code c) || is_digit (code c)) && are_key_bytes s

-- validEnvKey.
unfoldable pub is_valid_env_key : String → Bool
is_valid_env_key [] = false
is_valid_env_key (c ∷ s) = is_letter_or_underscore (code c) && are_key_bytes s

-- The errors of Model.Validate, in the order of its checks.
pub data ModelError : Type 0 where
  alias_required : ModelError
  invalid_factory_provider : ModelError
  invalid_upstream_protocol : ModelError
  unsupported_upstream_protocol : ModelError
  oauth_requires_openai : ModelError
  oauth_provider_required : ModelError
  wrong_oauth_provider : ModelError
  oauth_provider_not_allowed : ModelError
  base_url_required : ModelError
  invalid_api_key_env : ModelError
  invalid_reasoning : ModelError
  invalid_factory_reasoning : ModelError
  invalid_factory_reasoning_effort : ModelError
  effort_without_passthrough : ModelError
  unparsable_base_url : ModelError
  relative_base_url : ModelError
  base_url_scheme : ModelError
  base_url_userinfo : ModelError
  base_url_query : ModelError
  non_loopback_http : ModelError

-- `if failed { return error }`, one after the other, and then the rest.
unfoldable pub first_failing : List (Bool × ModelError) → Option ModelError → Option ModelError
first_failing [] rest = rest
first_failing ((true, e) ∷ checks) rest = some e
first_failing ((false, e) ∷ checks) rest = first_failing checks rest

abbrev pub is_set : String → Bool
is_set s = not (str_eq s "")

module _ (go : GoLibrary) (net : NetLibrary) where
  abbrev pub url_checks : Url → List (Bool × ModelError)
  url_checks u =
      (not (is_set u.scheme) || not (is_set u.host), relative_base_url)
      ∷ (not (str_eq u.scheme "http") && not (str_eq u.scheme "https"), base_url_scheme)
      ∷ (u.has_user, base_url_userinfo)
      ∷ (is_set u.raw_query || is_set u.fragment, base_url_query)
      ∷ (str_eq u.scheme "http" && not (is_loopback_host go net u.hostname), non_loopback_http)
      ∷ []

  unfoldable pub validate_url : Option Url → Option ModelError
  validate_url none = some unparsable_base_url
  validate_url (some u) = first_failing (url_checks u) none

  -- validateBaseURL.
  unfoldable pub validate_base_url : ModelConfig → Option ModelError
  validate_base_url m =
      let raw = trim_space m.base_url in
      if str_eq raw "" then none else validate_url (net.parse_url raw)

  -- The checks of Model.Validate before the one of the base URL.
  abbrev pub model_checks : ModelConfig → List (Bool × ModelError)
  model_checks m =
      let c = m.capabilities in
      let up = m.upstream_protocol in
      let oauth = is_oauth_upstream up in
      (is_blank m.alias, alias_required)
      ∷ (not (is_valid_factory_provider m.factory_provider), invalid_factory_provider)
      ∷ (not (is_valid_upstream_protocol up), invalid_upstream_protocol)
      ∷ (not (listed up (allowed_upstream_for m.factory_provider)), unsupported_upstream_protocol)
      ∷ (oauth && not (str_eq m.factory_provider "openai"), oauth_requires_openai)
      ∷ (oauth && not (is_valid_oauth_provider m.oauth_provider), oauth_provider_required)
      ∷ (
        oauth && not (str_eq m.oauth_provider (oauth_provider_for_upstream up)),
        wrong_oauth_provider,
      )
      ∷ (not oauth && is_set m.oauth_provider, oauth_provider_not_allowed)
      ∷ (is_blank m.base_url && is_blank m.known_auth && not oauth, base_url_required)
      ∷ (
        not (is_blank m.api_key_env) && not (is_valid_env_key (trim_space m.api_key_env)),
        invalid_api_key_env,
      )
      ∷ (is_set c.reasoning && not (is_valid_reasoning_mode c.reasoning), invalid_reasoning)
      ∷ (
        is_set c.factory_reasoning && not (is_valid_factory_reasoning_mode c.factory_reasoning),
        invalid_factory_reasoning,
      )
      ∷ (
        is_set c.factory_reasoning_effort
            && not (is_valid_factory_reasoning_effort c.factory_reasoning_effort),
        invalid_factory_reasoning_effort,
      )
      ∷ (
        is_set c.factory_reasoning_effort
            && not (str_eq (resolved_capabilities m).factory_reasoning "passthrough"),
        effort_without_passthrough,
      )
      ∷ []

  -- Model.Validate. `none` is nil.
  unfoldable pub validate_model : ModelConfig → Option ModelError
  validate_model m = first_failing (model_checks m) (validate_base_url m)
