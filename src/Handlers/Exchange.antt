-- ===== src/Handlers/Exchange.antt =====
-- The state of the Codex failover loop, in internal/handlers/oauth_responses.go: what it asks of the
-- world in one round (clocks, token files, the HTTP client, the request's context) as a record of
-- answers, its variables, and what it does to the world besides the pool as a list of calls.
use droid_proxy.Prelude.{
  ℕ, Bool, ◌&&◌, ◌||◌, Option, none, some, List, [], ◌∷◌, String, ltb, leb, ◌==◌,
}
use droid_proxy.Prelude.Numbers.{Time}
use droid_proxy.OAuth.Quota.{CodexQuota, merge_codex_quota}
use droid_proxy.OAuth.Pool.{AccountPool, end}
use droid_proxy.Handlers.Cooldown.{Headers}
use droid_proxy.Handlers.Payload.{Payload}

-- A response of the upstream, and what the readers of quota telemetry find in it: in the headers
-- (ParseCodexRateLimitHeaders), in the body, and in the events of a stream, in order.
pub record Response : Type 0 where
  pub status : ℕ
  pub headers : Headers
  -- `none` if the body cannot be read
  pub body : Option String
  pub header_quota : Option CodexQuota
  pub header_reset : Option Time
  pub body_quota : Option CodexQuota
  pub stream_quotas : List CodexQuota
  -- the result of responseFromResponsesSSE
  pub translated : Option String

-- When others act in a round: before Select, between Select and Begin, and while the request holds
-- its lease.
pub data Moment : Type 0 where
  before_select before_begin under_lease : Moment

-- The answers of the world in one round of the loop.
pub record Round : Type 0 where
  -- the clock at Select and Begin, and once the token or the upstream has answered
  pub now : Time
  pub later : Time
  -- what other requests and the watcher do to the pool, any number of calls at a time
  pub others : Moment → AccountPool → AccountPool
  pub token_loads : Bool
  pub token_refreshes : Bool
  pub gone_at_refresh : Bool
  pub url_builds : Bool
  pub request_builds : Bool
  -- `none` is a transport error
  pub response : Option Response
  pub gone : Bool
  pub force_refreshes : Bool
  pub gone_at_force : Bool
  pub replay_builds : Bool
  pub replay_response : Option Response
  pub gone_at_replay : Bool
  -- whether the affinity file and the payload are written
  pub affinity_written : Bool
  pub payload_written : Bool

pub data Reply : Type 0 where
  -- the client went away: nothing is written
  silent : Reply
  configuration_error : Reply
  streams : String → Reply
  answers : String → Reply
  upstream_error : Reply
  relays : (in_stream : Bool) → (status : ℕ) → (body : String) → (content_type : String) → Reply
  no_eligible_accounts : Reply

pub data Call : Type 0 where
  sent : (path : String) → Payload → Call
  force_refreshed : (path : String) → Call
  recorded : (path : String) → Option CodexQuota → Option Time → Call

-- The variables of the loop.
pub record Failover : Type 0 where
  pub pool : AccountPool
  pub is_multi_account : Bool
  pub tried : List String
  pub auth_replayed : List String
  pub stripped_reasoning : Bool
  pub payload : Payload
  pub last_status : ℕ
  pub last_body : String
  pub last_content_type : String
  pub had_upstream_attempt : Bool
  pub calls : List Call

-- How a round ends: the handler returns, leaves the loop, goes on, or goes on without spending an
-- attempt.
pub data Outcome : Type 0 where
  replies : Reply → Failover → Outcome
  breaks : Failover → Outcome
  spends : Failover → Outcome
  replays : Failover → Outcome

pub data Replayed : Type 0 where
  replied : Reply → Failover → Replayed
  cancelled : Failover → Replayed
  -- without a status, the status before the replay stays
  failed :
      (status : Option ℕ) → (body : Option String) → (content_type : String) → Failover → Replayed

pub record Request : Type 0 where
  pub account : String
  pub conversation : String
  pub is_stream : Bool
  pub max_failovers : ℕ
  pub rate_limit_cooldown : ℕ
  pub error_cooldown : ℕ

abbrev pub is_success : ℕ → Bool
is_success status = leb 200 status && ltb status 300

-- isRetryableCodexStatus.
unfoldable pub is_retryable_codex_status : ℕ → Bool
is_retryable_codex_status status = status == 429 || leb 500 status

abbrev pub log : Call → Failover → Failover
log c s = record s { calls = c ∷ s.calls }

unfoldable pub release : String → Failover → Failover
release path s = record s { pool = end path s.pool }

-- Mark an account and try it no more.
abbrev pub set_aside : (AccountPool → AccountPool) → String → Failover → Failover
set_aside mark path s = record s { pool = mark s.pool; tried = path ∷ s.tried }

abbrev pub text_or : String → Option String → String
text_or d none = d
text_or d (some b) = b

abbrev pub keep_body : Option String → String → Failover → Failover
keep_body none content_type s = s
keep_body (some b) content_type s = record s { last_body = b; last_content_type = content_type }

abbrev pub keep_status : Option ℕ → Failover → Failover
keep_status none s = s
keep_status (some status) s = record s { last_status = status }

-- The quota events of a stream, the newest window of each kind last.
unfoldable pub coalesce : Option CodexQuota → List CodexQuota → Option CodexQuota
coalesce latest [] = latest
coalesce latest (q ∷ qs) = coalesce (merge_codex_quota latest (some q)) qs

abbrev pub record_if : String → Option CodexQuota → Failover → Failover
record_if path none s = s
record_if path (some q) s = log (recorded path (some q) none) s

abbrev pub record_reset : String → Option Time → Failover → Failover
record_reset path none s = s
record_reset path (some t) s = log (recorded path none (some t)) s
