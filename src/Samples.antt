-- ===== src/Samples.antt =====
-- Test data shared by the modules of tests: library tables for ASCII texts, Codex accounts and their
-- bindings, and the answers of an upstream.
use droid_proxy.Handlers.Cooldown.{Gjson}
use droid_proxy.Handlers.Payload.{Payload}
use droid_proxy.Handlers.Exchange.{Response, Round, Request}
use droid_proxy.Prelude.{
  zero, suc, ℕ, true, str_eq, if◌then◌else◌, false, none, some, List, [], ◌∷◌, String,
}
use droid_proxy.Prelude.Numbers.{pos, units, Time}
use droid_proxy.Prelude.GoLibrary.{GoLibrary}
use droid_proxy.OAuth.Quota.{CodexQuota}
use droid_proxy.OAuth.Account.{Token}
use droid_proxy.OAuth.Affinity.{Bindings, AffinityStore}
use droid_proxy.OAuth.Pool.{LoadBalancing}

abbrev pub plain_go : GoLibrary
plain_go = record {
  fold = λ c. c;
  lower = λ c. c;
  parse_rfc3339_nano = λ s. none;
  parse_rfc3339 = λ s. none;
  parse_http_time = λ s. none;
  atoi = λ s. if str_eq s "120" then some (pos 120) else none;
  sha256_hex = λ s. s;
}

abbrev pub token_of : String → String → Token
token_of path email = record {
  kind = "codex";
  access_token = "a";
  refresh_token = "r";
  id_token = "";
  token_type = "Bearer";
  expires_in = pos 3600;
  last_refresh = "";
  base_url = "";
  redirect_uri = "";
  token_endpoint = "";
  auth_kind = "oauth";
  last_seen_at = "";
  expired = "";
  email = email;
  subject = "";
  account_id = "";
  disabled = false;
  codex_quota = none;
  rate_limit_reset_at = "";
  path = path;
}

abbrev pub path_a : String
path_a = "/auth/codex-a.json"

abbrev pub path_b : String
path_b = "/auth/codex-b.json"

abbrev pub two_tokens : List Token
two_tokens = token_of path_b "b@x" ∷ token_of path_a "a@x" ∷ []

abbrev pub round_robin_config : LoadBalancing
round_robin_config = record {
  strategy = "round-robin";
  error_cooldown = 30;
  quota_soft_cap_percent = units (pos 0);
}

abbrev pub noon : Time
noon = 1000

-- Two accounts whose windows are both used by 50 units.
abbrev pub half_used : CodexQuota
half_used = record {
  primary = some (record {
    used_percent = units (pos 50);
    remaining_percent = none;
    window_minutes = none;
    reset_at = none;
    limit_reached = false;
  });
  secondary = none;
  code_review = none;
}

abbrev pub used_tokens : List Token
used_tokens =
    record (token_of path_b "b@x") { codex_quota = some half_used }
    ∷ record (token_of path_a "a@x") { codex_quota = some half_used }
    ∷ []

abbrev pub capped_config : LoadBalancing
capped_config = record {
  strategy = "sticky";
  error_cooldown = 30;
  quota_soft_cap_percent = units (pos 20);
}

abbrev pub sticky_config : LoadBalancing
sticky_config = record {
  strategy = "sticky";
  error_cooldown = 30;
  quota_soft_cap_percent = units (pos 0);
}

-- Two conversations, bound to the two accounts.
abbrev pub two_bindings : Bindings
two_bindings =
    ("one", record { account_path = path_a; updated_at = 900 })
    ∷ ("two", record { account_path = path_b; updated_at = 950 })
    ∷ []

abbrev pub small_store : AffinityStore
small_store = record { entries = two_bindings; ttl = 500; max = 2; disk = two_bindings }

abbrev pub plain_json : Gjson
plain_json = record {
  is_valid = λ body. true;
  text_at = λ body path. "usage_limit_reached";
  int_at = λ body path. some (pos 60);
}

-- A response with a status and a body, and one of a stream that is translated.
abbrev pub response_of : ℕ → String → Response
response_of status body = record {
  status = status;
  headers = [];
  body = some body;
  header_quota = none;
  header_reset = none;
  body_quota = none;
  stream_quotas = [];
  translated = some body;
}

-- A round in which the upstream answers, and a forced refresh and a replay succeed.
abbrev pub round_of : ℕ → String → Round
round_of status body = record {
  now = noon;
  later = 1005;
  others = λ m p. p;
  token_loads = true;
  token_refreshes = true;
  gone_at_refresh = false;
  url_builds = true;
  request_builds = true;
  response = some (response_of status body);
  gone = false;
  force_refreshes = true;
  gone_at_force = false;
  replay_builds = true;
  replay_response = some (response_of 200 "replayed");
  gone_at_replay = false;
  affinity_written = true;
  payload_written = true;
}

-- The first account is rate-limited, the next answers.
abbrev pub limited_then_fine : ℕ → Round
limited_then_fine zero = round_of 429 "slow down"
limited_then_fine (suc i) = round_of 200 "done"

abbrev pub plain_request : Request
plain_request = record {
  account = "";
  conversation = "one";
  is_stream = false;
  max_failovers = 2;
  rate_limit_cooldown = 60;
  error_cooldown = 30;
}

abbrev pub mixed_payload : Payload
mixed_payload = record {
  input =
      some (record { kind = "reasoning"; raw = "r" } ∷ record { kind = "message"; raw = "m" } ∷ []);
  rest = "";
}
