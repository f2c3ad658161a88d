-- ===== src/Handlers/Failover.antt =====
-- The failover loop of Codex requests: responsesViaCodexFailover and codexAuthReplay in
-- internal/handlers/oauth_responses.go. What token files and the HTTP client answer is in a Round.
pub mod Loop
pub mod Leases
pub mod Budget
pub mod Bounds
pub mod Telemetry
pub mod Refreshes
use droid_proxy.Prelude.{
  ℕ, zero, suc, ◌+◌, ◌≡◌, Bool, true, false, not, ◌&&◌, ◌||◌, Option, none, some, List, [], ◌∷◌,
  String, ltb, leb, ◌==◌, if◌then◌else◌,
}
use droid_proxy.Prelude.Numbers.{Time, is_after}
use droid_proxy.Prelude.GoLibrary.{GoLibrary}
use droid_proxy.OAuth.Quota.{CodexQuota, exhausted_window_reset_at, merge_codex_quota}
use droid_proxy.OAuth.Account.{AccountEntry, is_excluded}
use droid_proxy.OAuth.Pool.{
  AccountPool, Begun, begun, refused, begin, end, mark_rate_limited, mark_cooldown, mark_unhealthy,
  select, enabled_codex_count, bind_conversation, clear_conversation,
}
use droid_proxy.Handlers.Cooldown.{
  Headers, get_header, Gjson, if_future, parse_codex_usage_limit_reset, codex_rate_limit_cooldown,
}
use droid_proxy.Handlers.Payload.{
  Payload, reasoning_strip_retry_eligible, strip_reasoning_input_items,
}
use droid_proxy.Handlers.Exchange.{
  Response, Round, before_select, before_begin, under_lease, Reply, silent, configuration_error,
  streams, answers, upstream_error, relays, no_eligible_accounts, Call, sent, force_refreshed,
  recorded, Failover, Outcome, replies, breaks, spends, replays, Replayed, replied, cancelled,
  failed, Request, is_success, is_retryable_codex_status, log, release, set_aside, text_or,
  keep_body, keep_status, coalesce, record_if, record_reset,
}

module _ (go : GoLibrary) (json : Gjson) (req : Request) where
  abbrev relay : ℕ → Failover → Outcome
  relay status s = replies (relays req.is_stream status s.last_body s.last_content_type) s

  -- A 2xx response, in the loop and in codexAuthReplay.
  unfoldable pub succeed : Round → Response → String → Failover → Reply × Failover
  succeed r resp path s =
      let s = record s {
        pool = bind_conversation go r.affinity_written r.later req.conversation path s.pool;
      } in
      if req.is_stream
      then (streams path, release path (record_if path (coalesce none resp.stream_quotas) s))
      else let s = release path s in
        elim resp.body [
          | none ↦ (upstream_error, s)
          | some raw ↦
              let s = record_if path resp.body_quota s in
              elim resp.translated [ none ↦ (upstream_error, s) | some t ↦ (answers t, s) ]
        ]

  abbrev replayed_by : Reply × Failover → Replayed
  replayed_by (reply, s) = replied reply s

  -- codexAuthReplay.
  unfoldable pub codex_auth_replay : Round → String → Failover → Replayed
  codex_auth_replay r path s =
      if not r.replay_builds
      then failed none none "" (release path s)
      else let s = log (sent path s.payload) s in
        elim r.replay_response [
          | none ↦
              let s = release path s in
              if r.gone_at_replay then cancelled s else failed none none "" s
          | some resp ↦
              let s = log (recorded path resp.header_quota resp.header_reset) s in
              if is_success resp.status
              then replayed_by (succeed r resp path s)
              else failed (some resp.status) resp.body (get_header "Content-Type" resp.headers)
                  (release path s)
        ]

  abbrev after_replay : Round → String → Replayed → Outcome
  after_replay r path (replied reply s) = replies reply s
  after_replay r path (cancelled s) = replies silent s
  after_replay r path (failed status body content_type s) =
      let s = set_aside (mark_unhealthy r.later path) path s in
      let s = keep_status status (record s { had_upstream_attempt = true }) in
      spends (keep_body body content_type s)

  abbrev forced : Round → String → Failover → Outcome
  forced r path s =
      if r.force_refreshes
      then after_replay r path (codex_auth_replay r path s)
      else let s = release path s in
        if r.gone_at_force
        then replies silent s
        else spends (set_aside (mark_unhealthy r.later path) path s)

  -- A 401 or 403.
  unfoldable pub unauthorized : Round → Response → String → Failover → Outcome
  unauthorized r resp path s =
      let s = keep_body resp.body (get_header "Content-Type" resp.headers) s in
      if s.is_multi_account && not (is_excluded s.auth_replayed path)
      then forced r path
          (log (force_refreshed path) (record s { auth_replayed = path ∷ s.auth_replayed }))
      else let s = release path s in
        if s.is_multi_account
        then spends (set_aside (mark_unhealthy r.later path) path s)
        else relay s.last_status s

  abbrev reset_or : Time → Option Time → Time
  reset_or until none = until
  reset_or until (some t) = t

  -- The end of the cooldown after a 429: the exhausted windows and the scalar reset of the body
  -- override the headers.
  unfoldable pub limited_until : Round → Response → Time
  limited_until r resp =
      let until =
        codex_rate_limit_cooldown go resp.headers resp.header_quota req.rate_limit_cooldown
          r.later in
      let until = reset_or until (if_future r.later (exhausted_window_reset_at resp.body_quota)) in
      reset_or until (parse_codex_usage_limit_reset json (text_or "" resp.body) r.later)

  unfoldable pub rate_limited : Round → Response → String → Failover → Outcome
  rate_limited r resp path s =
      let s = record_if path resp.body_quota s in
      let s =
        record_reset path (parse_codex_usage_limit_reset json (text_or "" resp.body) r.later) s in
      spends (set_aside (mark_rate_limited path (limited_until r resp)) path s)

  abbrev reject : ℕ → Failover → Payload × Bool → Round → Outcome
  reject status s (stripped, changed) r =
      if not s.stripped_reasoning && reasoning_strip_retry_eligible go status s.last_body && changed
      then replays (record s { stripped_reasoning = true; payload = stripped })
      else relay status
          (record s { pool = clear_conversation go r.affinity_written req.conversation s.pool })

  -- Any other error response.
  unfoldable pub rejected : Round → Response → String → Failover → Outcome
  rejected r resp path s =
      let s = keep_body resp.body (get_header "Content-Type" resp.headers) (release path s) in
      if is_retryable_codex_status resp.status
      then if resp.status == 429
        then rate_limited r resp path s
        else spends (set_aside (mark_cooldown path (r.later + req.error_cooldown)) path s)
      else reject resp.status s (strip_reasoning_input_items go r.payload_written s.payload) r

  abbrev returns : Reply × Failover → Outcome
  returns (reply, s) = replies reply s

  unfoldable pub answered : Round → Response → String → Failover → Outcome
  answered r resp path s =
      let s = record (log (recorded path resp.header_quota resp.header_reset) s) {
        had_upstream_attempt = true;
        last_status = resp.status;
      } in
      if is_success resp.status
      then returns (succeed r resp path s)
      else if resp.status == 401 || resp.status == 403
      then unauthorized r resp path s
      else rejected r resp path s

  abbrev transport_error : Failover → Failover
  transport_error s = record s {
    had_upstream_attempt = true;
    last_status = 502;
    last_body = "{\"error\":{\"message\":\"upstream_error\",\"type\":\"upstream_error\"}}";
    last_content_type = "application/json";
  }

  -- The lease is held: from the token to the response.
  unfoldable pub attempt_on : Round → String → Failover → Outcome
  attempt_on r path s =
      let unhealthy = set_aside (λ p. mark_unhealthy r.later path (end path p)) path s in
      if not r.token_loads
      then spends unhealthy
      else if not r.token_refreshes
      then if r.gone_at_refresh then replies silent (release path s) else spends unhealthy
      else if not r.url_builds || not r.request_builds
      then replies configuration_error (release path s)
      else let s = log (sent path s.payload) s in
        elim r.response [
          | some resp ↦ answered r resp path s
          | none ↦
              if r.gone
              then replies silent (release path s)
              else spends (
                  transport_error (
                    set_aside (λ p. mark_cooldown path (r.later + req.error_cooldown) (end path p))
                      path s))
        ]

  abbrev leased : Round → String → Failover → Begun → Outcome
  leased r path s (refused e) = spends (record s { tried = path ∷ s.tried })
  leased r path s (begun pool) = attempt_on r path (record s { pool = r.others under_lease pool })

  abbrev selected : Round → Failover → Option AccountEntry × AccountPool → Outcome
  selected r s (none, pool) = breaks (record s { pool = pool })
  selected r s (some entry, pool) =
      let s = record s { pool = r.others before_begin pool } in
      leased r entry.path s (begin r.now entry.path s.pool)

  -- One round of the loop.
  unfoldable pub round : Round → Failover → Outcome
  round r s =
      selected r s
        (select go r.now req.account s.tried req.conversation (r.others before_select s.pool))

  -- Behind the loop.
  unfoldable pub exhausted : Failover → Reply × Failover
  exhausted s =
      if s.had_upstream_attempt
      then (relays req.is_stream s.last_status s.last_body s.last_content_type, s)
      else (no_eligible_accounts, s)

  -- `none` is out of fuel. `left` attempts are left, and the world answers the rounds from the i-th.
  unfoldable pub loop : ℕ → ℕ → (ℕ → Round) → ℕ → Failover → Option (Reply × Failover)
  loop fuel zero world i s = some (exhausted s)
  loop zero (suc left) world i s = none
  loop (suc fuel) (suc left) world i s = elim (round (world i) s) [
    | replies reply t ↦ some (reply, t)
    | breaks t ↦ some (exhausted t)
    | spends t ↦ loop fuel left world (i + 1) t
    | replays t ↦ loop fuel (suc left) world (i + 1) t
  ]

  abbrev pub entering : Payload → AccountPool → Failover
  entering payload pool = record {
    pool = pool;
    is_multi_account = ltb 1 (enabled_codex_count pool);
    tried = [];
    auth_replayed = [];
    stripped_reasoning = false;
    payload = payload;
    last_status = 0;
    last_body = "";
    last_content_type = "";
    had_upstream_attempt = false;
    calls = [];
  }

  -- responsesViaCodexFailover. A payload is replayed at most once without an attempt spent, so the
  -- fuel is one more than the attempts.
  unfoldable pub responses_via_codex_failover :
      (ℕ → Round) → Payload → AccountPool → Option (Reply × Failover)
  responses_via_codex_failover world payload pool =
      loop (2 + req.max_failovers) (1 + req.max_failovers) world 0 (entering payload pool)
