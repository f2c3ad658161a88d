-- ===== src/Handlers/Failover/Refreshes.antt =====
-- The forced refreshes of the failover loop: the 401 and 403 branch in
-- internal/handlers/oauth_responses.go.
use droid_proxy.Prelude.{
  ℕ, ◌≤◌, ◌≡◌, refl, inl, inr, Bool, true, false, Option, none, some, ◌∷◌, String, if◌then◌else◌,
  arith, count, str_eq, eq_iff, Option-cases,
}
use droid_proxy.Prelude.GoLibrary.{GoLibrary}
use droid_proxy.Prelude.Numbers.{Time}
use droid_proxy.OAuth.Quota.{CodexQuota}
use droid_proxy.OAuth.Account.{AccountEntry, is_excluded}
use droid_proxy.OAuth.Pool.{
  AccountPool, Begun, begun, refused, end, mark_unhealthy, bind_conversation,
}
use droid_proxy.Handlers.Cooldown.{Gjson, get_header, parse_codex_usage_limit_reset}
use droid_proxy.Handlers.Payload.{Payload}
use droid_proxy.Handlers.Exchange.{
  Response, Round, before_begin, under_lease, Reply, Failover, Outcome, replies, breaks, spends,
  replays, Replayed, replied, cancelled, failed, Request, release, set_aside, keep_body,
  keep_status, coalesce, record_if, log, record_reset, recorded, sent, force_refreshed, Call,
  text_or,
}
use droid_proxy.Handlers.Failover.{
  succeed, codex_auth_replay, after_replay, forced, unauthorized, rate_limited, rejected, answered,
  attempt_on, leased, selected, round, exhausted, entering, responses_via_codex_failover,
}
use droid_proxy.Handlers.Failover.Loop.{Leads, loop-induct}
use droid_proxy.Handlers.Failover.Leases.{state_of, replay_state_of}

abbrev is_refresh_of : String → Call → Bool
is_refresh_of x (force_refreshed path) = str_eq path x
is_refresh_of x _ = false

-- How often the token of an account was refreshed by force.
abbrev pub refreshes : String → Failover → ℕ
refreshes x s = count (is_refresh_of x) s.calls

module _ (x : String) where
  abbrev Alike : Failover → Failover → Type 0
  Alike s t = (refreshes x t ≡ refreshes x s) × (t.auth_replayed ≡ s.auth_replayed)

  -- At most once, and only if the account stands among those replayed.
  abbrev Once : Failover → Type 0
  Once s = refreshes x s ≤ (if is_excluded s.auth_replayed x then 1 else 0)

  keep_body-Alike :
      (body : Option String) (c : String) (s : Failover) → Alike s (keep_body body c s)
  keep_body-Alike none c s = (refl, refl)
  keep_body-Alike (some b) c s = (refl, refl)

  keep_status-Alike : (status : Option ℕ) (s : Failover) → Alike s (keep_status status s)
  keep_status-Alike none s = (refl, refl)
  keep_status-Alike (some n) s = (refl, refl)

  record_if-Alike :
      (path : String) (o : Option CodexQuota) (s : Failover) → Alike s (record_if path o s)
  record_if-Alike path none s = (refl, refl)
  record_if-Alike path (some q) s = (refl, refl)

  record_reset-Alike :
      (path : String) (o : Option Time) (s : Failover) → Alike s (record_reset path o s)
  record_reset-Alike path none s = (refl, refl)
  record_reset-Alike path (some q) s = (refl, refl)

  module _ (go : GoLibrary) (json : Gjson) (req : Request) where
    succeed-Alike :
        (r : Round) (resp : Response) (path : String) (s : Failover)
        → Alike s (succeed go json req r resp path s).1
    unfolding succeed release
    succeed-Alike r resp path s =
        let bound = bind_conversation go r.affinity_written r.later req.conversation path s.pool in
        ground (
          arith,
          record_if-Alike path (coalesce none resp.stream_quotas) (record s { pool = bound }),
          record_if-Alike path resp.body_quota (record s { pool = end path bound }),
        )

    replay-Alike :
        (r : Round) (path : String) (s : Failover)
        → Alike s (replay_state_of (codex_auth_replay go json req r path s))
    unfolding codex_auth_replay release
    replay-Alike r path s = elim (Option-cases r.replay_response) [
      | inl n ↦ ground arith
      | inr (resp, e) ↦
          let t =
            log (recorded path resp.header_quota resp.header_reset) (log (sent path s.payload) s) in
          rw e (ground (arith, succeed-Alike r resp path t))
    ]

    after_replay-Alike :
        (r : Round) (path : String) (s : Failover) (y : Replayed)
        → Alike s (replay_state_of y)
        → Alike s (state_of (after_replay go json req r path y))
    after_replay-Alike r path s (replied reply t) h = h
    after_replay-Alike r path s (cancelled t) h = h
    after_replay-Alike r path s (failed status body c t) h =
        let u = record (set_aside (mark_unhealthy r.later path) path t) {
          had_upstream_attempt = true;
        } in
        ground (arith, h, keep_status-Alike status u, keep_body-Alike body c (keep_status status u))

    forced-Alike :
        (r : Round) (path : String) (s : Failover)
        → Alike s (state_of (forced go json req r path s))
    unfolding release
    forced-Alike r path s = ground (
      arith,
      after_replay-Alike r path s (codex_auth_replay go json req r path s) (replay-Alike r path s),
    )

    unauthorized-Once :
        (r : Round) (resp : Response) (path : String) (s : Failover)
        → Once s
        → Once (state_of (unauthorized go json req r resp path s))
    unfolding unauthorized release is_excluded
    unauthorized-Once r resp path s o =
        let c = get_header "Content-Type" resp.headers in
        let t = keep_body resp.body c s in
        let u = log (force_refreshed path) (record t { auth_replayed = path ∷ t.auth_replayed }) in
        ground (arith, o, keep_body-Alike resp.body c s, forced-Alike r path u, eq_iff path x)

    rate_limited-Alike :
        (r : Round) (resp : Response) (path : String) (s : Failover)
        → Alike s (state_of (rate_limited go json req r resp path s))
    unfolding rate_limited
    rate_limited-Alike r resp path s =
        let t = record_if path resp.body_quota s in
        let reset = parse_codex_usage_limit_reset json (text_or "" resp.body) r.later in
        ground (arith, record_if-Alike path resp.body_quota s, record_reset-Alike path reset t)

    rejected-Alike :
        (r : Round) (resp : Response) (path : String) (s : Failover)
        → Alike s (state_of (rejected go json req r resp path s))
    unfolding rejected release
    rejected-Alike r resp path s =
        let c = get_header "Content-Type" resp.headers in
        let t = keep_body resp.body c (release path s) in
        ground
          (arith, keep_body-Alike resp.body c (release path s), rate_limited-Alike r resp path t)

    Alike-Once : (s t : Failover) → Alike s t → Once s → Once t
    Alike-Once s t (e, f) o = ground (arith, e, f, o)

    answered-Once :
        (r : Round) (resp : Response) (path : String) (s : Failover)
        → Once s
        → Once (state_of (answered go json req r resp path s))
    unfolding answered
    answered-Once r resp path s o =
        let t = record (log (recorded path resp.header_quota resp.header_reset) s) {
          had_upstream_attempt = true;
          last_status = resp.status;
        } in
        ground (
          arith,
          Alike-Once t (succeed go json req r resp path t).1 (succeed-Alike r resp path t) o,
          unauthorized-Once r resp path t o,
          Alike-Once t (state_of (rejected go json req r resp path t))
              (rejected-Alike r resp path t) o,
        )

    attempt_on-Once :
        (r : Round) (path : String) (s : Failover)
        → Once s
        → Once (state_of (attempt_on go json req r path s))
    unfolding attempt_on release
    attempt_on-Once r path s o = elim (Option-cases r.response) [
      | inl n ↦ rw n (ground (arith, o))
      | inr (resp, e) ↦
          rw e (ground (arith, o, answered-Once r resp path (log (sent path s.payload) s) o))
    ]

    leased-Once :
        (r : Round) (path : String) (s : Failover) (b : Begun)
        → Once s
        → Once (state_of (leased go json req r path s b))
    leased-Once r path s (refused e) o = o
    leased-Once r path s (begun q) o =
        attempt_on-Once r path (record s { pool = r.others under_lease q }) o

    selected-Once :
        (r : Round) (s : Failover) (y : Option AccountEntry × AccountPool)
        → Once s
        → Once (state_of (selected go json req r s y))
    selected-Once r s (none, p) o = o
    selected-Once r s (some entry, p) o =
        leased-Once r entry.path (record s { pool = r.others before_begin p }) _ o

    round-Once : (r : Round) (s : Failover) → Once s → Once (state_of (round go json req r s))
    unfolding round
    round-Once r s o = selected-Once r s _ o

    exhausted-Once : (s : Failover) → Once s → Once (exhausted go json req s).1
    unfolding exhausted
    exhausted-Once s o = ground (arith, o)

    outcome-Leads :
        (world : ℕ → Round) (left : ℕ) (y : Outcome)
        → Once (state_of y)
        → Leads go json req world (λ n t. Once t) (λ z. Once z.1) left y
    outcome-Leads world left (replies reply t) o = o
    outcome-Leads world left (breaks t) o = exhausted-Once t o
    outcome-Leads world left (spends t) o = o
    outcome-Leads world left (replays t) o = o

    failover-Once :
        (world : ℕ → Round) (payload : Payload) (pool : AccountPool) (y : Reply × Failover)
        → responses_via_codex_failover go json req world payload pool ≡ some y
        → Once y.1
    unfolding responses_via_codex_failover
    failover-Once world payload pool y e =
        loop-induct go json req world (λ n t. Once t) (λ z. Once z.1)
          (λ left i s o. outcome-Leads world left _ (round-Once (world i) s o))
          (λ s o. exhausted-Once s o) _ _ 0 (entering go json req payload pool) y (omega arith) e

module _ (go : GoLibrary) (json : Gjson) (req : Request) where
  -- A request through the failover loop forces the refresh of the token of any one account at most
  -- once, however often the upstream answers 401 or 403.
  pub refreshes_le :
      (world : ℕ → Round) (payload : Payload) (pool : AccountPool) {reply : Reply} {t : Failover}
      → responses_via_codex_failover go json req world payload pool ≡ some (reply, t)
      → (x : String) → refreshes x t ≤ 1
  refreshes_le world payload pool {reply} {t} e x =
      ground (arith, failover-Once x go json req world payload pool (reply, t) e)
