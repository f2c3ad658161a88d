-- ===== src/Config/Defaults.antt =====
-- The defaults of the configuration: internal/config/defaults.go. Durations are in nanoseconds.
pub mod Twice
use droid_proxy.Prelude.{
  ℕ, ◌≡◌, refl, Bool, true, false, not, ◌&&◌, ◌||◌, String, str_eq, if◌then◌else◌, ltb, inl, inr,
  Bool-cases, arith, ◌*◌, ◌^◌, zero, suc, sym, List,
}
use droid_proxy.Prelude.Numbers.{ℤ, pos, negsuc, Float, units, nan}
use droid_proxy.Config.{
  Config, Listen, Server, ClientAuth, Logging, CacheSettings, UpstreamSettings, OAuthSettings,
  PoolSettings, listed,
}

unfoldable pub was_present : Config → String → Bool
was_present c path = listed path c.present

abbrev second : ℕ
second = 1_000_000_000

unfoldable pub or_number : Bool → ℤ → ℤ → ℤ
or_number false (pos zero) d = d
or_number false (pos (suc n)) d = pos (suc n)
or_number false (negsuc n) d = negsuc n
or_number true z d = z

unfoldable pub or_text : Bool → String → String → String
or_text was s d = if not was && str_eq s "" then d else s

unfoldable pub or_percent : Bool → Float → Float → Float
or_percent false (units (pos zero)) d = d
or_percent false (units (pos (suc n))) d = units (pos (suc n))
or_percent false (units (negsuc n)) d = units (negsuc n)
or_percent false nan d = nan
or_percent true x d = x

unfoldable pub or_true : Bool → Bool → Bool
or_true was b = was && b || not was

abbrev eighty : Float
eighty = units (pos (80 * 2 ^ 1074))

unfoldable pub pool_defaults : (String → Bool) → PoolSettings → PoolSettings
pool_defaults was l = record l {
  strategy = or_text (was "oauth.load_balancing.strategy") l.strategy "sticky";
  max_failovers = or_number (was "oauth.load_balancing.max_failovers") l.max_failovers (pos 2);
  rate_limit_cooldown =
      or_number (was "oauth.load_balancing.rate_limit_cooldown") l.rate_limit_cooldown
        (pos (60 * second));
  error_cooldown =
      or_number (was "oauth.load_balancing.error_cooldown") l.error_cooldown (pos (30 * second));
  quota_soft_cap_percent =
      or_percent (was "oauth.load_balancing.quota_soft_cap_percent") l.quota_soft_cap_percent
        eighty;
  affinity_max_entries =
      or_number (was "oauth.load_balancing.affinity_max_entries") l.affinity_max_entries
        (pos 10_000);
  affinity_ttl =
      or_number (was "oauth.load_balancing.affinity_ttl") l.affinity_ttl
        (pos (720 * 3600 * second));
}

-- applyDefaults.
unfoldable pub apply_defaults : Config → Config
apply_defaults c =
    let was = was_present c in
    record c {
      listen = record {
        host = or_text false c.listen.host "127.0.0.1";
        port = or_number (was "listen.port") c.listen.port (pos 9787);
      };
      server = record {
        request_body_max_bytes =
            or_number (was "server.request_body_max_bytes") c.server.request_body_max_bytes
              (pos 10_485_760);
        read_header_timeout =
            or_number (was "server.read_header_timeout") c.server.read_header_timeout
              (pos (30 * second));
        read_timeout =
            or_number (was "server.read_timeout") c.server.read_timeout (pos (60 * second));
        write_timeout =
            or_number (was "server.write_timeout") c.server.write_timeout (pos (600 * second));
        idle_timeout =
            or_number (was "server.idle_timeout") c.server.idle_timeout (pos (120 * second));
        shutdown_timeout =
            or_number (was "server.shutdown_timeout") c.server.shutdown_timeout (pos (5 * second));
      };
      client_auth = record c.client_auth {
        header = or_text false c.client_auth.header "Authorization";
        scheme = or_text (was "client_auth.scheme") c.client_auth.scheme "Bearer";
      };
      logging = record c.logging {
        level = or_text false c.logging.level "info";
        format = or_text false c.logging.format "text";
        redact = or_true (was "logging.redact") c.logging.redact;
      };
      reasoning_cache = record {
        enabled = or_true (was "reasoning_cache.enabled") c.reasoning_cache.enabled;
        max_entries =
            or_number (was "reasoning_cache.max_entries") c.reasoning_cache.max_entries (pos 1024);
        ttl = or_number (was "reasoning_cache.ttl") c.reasoning_cache.ttl (pos (1800 * second));
      };
      upstream = record {
        http_timeout =
            or_number (was "upstream.http_timeout") c.upstream.http_timeout (pos (600 * second));
        stream_keep_alive =
            or_number (was "upstream.stream_keep_alive") c.upstream.stream_keep_alive
              (pos (15 * second));
        response_body_max_bytes =
            or_number (was "upstream.response_body_max_bytes") c.upstream.response_body_max_bytes
              (pos 104_857_600);
        error_body_max_bytes =
            or_number (was "upstream.error_body_max_bytes") c.upstream.error_body_max_bytes
              (pos 1_048_576);
      };
      oauth = record {
        auth_dir = or_text (was "oauth.auth_dir") c.oauth.auth_dir "~/.droid-proxy/auth";
        codex_callback_host = or_text false c.oauth.codex_callback_host "localhost";
        codex_callback_port = or_number false c.oauth.codex_callback_port (pos 1455);
        xai_callback_host = or_text false c.oauth.xai_callback_host "127.0.0.1";
        xai_callback_port = or_number false c.oauth.xai_callback_port (pos 56121);
        load_balancing = pool_defaults was c.oauth.load_balancing;
      };
    }
