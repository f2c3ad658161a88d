-- ===== src/Handlers/Failover/Budget.antt =====
-- What one round of the failover loop spends: the requests that it sends and the attempts, in
-- internal/handlers/oauth_responses.go.
use droid_proxy.Prelude.{
  ℕ, ◌+◌, ◌≤◌, ◌≡◌, refl, ◌⊎◌, inl, inr, Bool, true, false, Option, none, some, ◌∷◌, String, arith,
  count, Option-cases,
}
use droid_proxy.Prelude.GoLibrary.{GoLibrary}
use droid_proxy.Prelude.Numbers.{Time}
use droid_proxy.OAuth.Quota.{CodexQuota}
use droid_proxy.OAuth.Account.{AccountEntry}
use droid_proxy.OAuth.Pool.{
  AccountPool, Begun, begun, refused, end, mark_unhealthy, bind_conversation,
}
use droid_proxy.Handlers.Cooldown.{Gjson, get_header}
use droid_proxy.Handlers.Exchange.{
  Response, Round, before_begin, under_lease, Reply, no_eligible_accounts, Failover, Outcome,
  replies, breaks, spends, replays, Replayed, replied, cancelled, failed, Request, release,
  set_aside, keep_body, keep_status, coalesce, record_if, log, record_reset, recorded, sent,
  force_refreshed, Call,
}
use droid_proxy.Handlers.Failover.{
  succeed, codex_auth_replay, after_replay, forced, unauthorized, rate_limited, rejected, answered,
  attempt_on, leased, selected, round,
}

abbrev pub is_sent : Call → Bool
is_sent (sent path payload) = true
is_sent _ = false

-- The requests sent to the upstream so far.
abbrev pub sends : Failover → ℕ
sends s = count is_sent s.calls

abbrev pub finds_no_account : Reply → Bool
finds_no_account no_eligible_accounts = true
finds_no_account _ = false

-- A state that differs in none of what the budget is about.
abbrev pub Alike : Failover → Failover → Type 0
Alike s t =
    (sends t ≡ sends s)
    × (t.had_upstream_attempt ≡ s.had_upstream_attempt)
    × (t.stripped_reasoning ≡ s.stripped_reasoning)

-- At most `n` requests more are sent, and the loop is not left.
abbrev Moves : ℕ → Failover → Outcome → Type 0
Moves n s (replies reply t) = (sends t ≤ sends s + n) × (finds_no_account reply ≡ false)
Moves n s (breaks t) = true ≡ false
Moves n s (spends t) =
    (sends t ≤ sends s + n)
    × (s.had_upstream_attempt ≡ true → t.had_upstream_attempt ≡ true)
    × (t.stripped_reasoning ≡ s.stripped_reasoning)
Moves n s (replays t) =
    (sends t ≤ sends s + n)
    × (s.had_upstream_attempt ≡ true → t.had_upstream_attempt ≡ true)
    × (s.stripped_reasoning ≡ false)
    × (t.stripped_reasoning ≡ true)

keep_body-Alike : (body : Option String) (c : String) (s : Failover) → Alike s (keep_body body c s)
keep_body-Alike none c s = (refl, refl, refl)
keep_body-Alike (some b) c s = (refl, refl, refl)

keep_status-Alike : (status : Option ℕ) (s : Failover) → Alike s (keep_status status s)
keep_status-Alike none s = (refl, refl, refl)
keep_status-Alike (some n) s = (refl, refl, refl)

record_if-Alike :
    (path : String) (o : Option CodexQuota) (s : Failover) → Alike s (record_if path o s)
record_if-Alike path none s = (refl, refl, refl)
record_if-Alike path (some q) s = (refl, refl, refl)

record_reset-Alike :
    (path : String) (o : Option Time) (s : Failover) → Alike s (record_reset path o s)
record_reset-Alike path none s = (refl, refl, refl)
record_reset-Alike path (some q) s = (refl, refl, refl)

module _ (go : GoLibrary) (json : Gjson) (req : Request) where
  succeed-sends :
      (r : Round) (resp : Response) (path : String) (s : Failover)
      → (sends (succeed go json req r resp path s).1 ≡ sends s)
        × (finds_no_account (succeed go json req r resp path s).0 ≡ false)
  unfolding succeed release
  succeed-sends r resp path s =
      let bound = bind_conversation go r.affinity_written r.later req.conversation path s.pool in
      ground (
        arith,
        record_if-Alike path (coalesce none resp.stream_quotas) (record s { pool = bound }),
        record_if-Alike path resp.body_quota (record s { pool = end path bound }),
      )

  abbrev Replays : Failover → Replayed → Type 0
  Replays s (replied reply t) = (sends t ≤ sends s + 1) × (finds_no_account reply ≡ false)
  Replays s (cancelled t) = sends t ≤ sends s + 1
  Replays s (failed status body c t) =
      (sends t ≤ sends s + 1)
      × (t.had_upstream_attempt ≡ s.had_upstream_attempt)
      × (t.stripped_reasoning ≡ s.stripped_reasoning)

  replay-Replays :
      (r : Round) (path : String) (s : Failover)
      → Replays s (codex_auth_replay go json req r path s)
  unfolding codex_auth_replay release
  replay-Replays r path s = elim (Option-cases r.replay_response) [
    | inl n ↦ ground arith
    | inr (resp, e) ↦
        let t =
          log (recorded path resp.header_quota resp.header_reset) (log (sent path s.payload) s) in
        rw e (ground (arith, succeed-sends r resp path t))
  ]

  after_replay-Moves :
      (r : Round) (path : String) (s : Failover) (x : Replayed)
      → Replays s x
      → Moves 1 s (after_replay go json req r path x)
  after_replay-Moves r path s (replied reply t) h = h
  after_replay-Moves r path s (cancelled t) h = (h, refl)
  after_replay-Moves r path s (failed status body c t) h =
      let u = record (set_aside (mark_unhealthy r.later path) path t) {
        had_upstream_attempt = true;
      } in
      ground (arith, h, keep_status-Alike status u, keep_body-Alike body c (keep_status status u))

  forced-Moves :
      (r : Round) (path : String) (s : Failover) → Moves 1 s (forced go json req r path s)
  unfolding release
  forced-Moves r path s = ground (
    arith,
    after_replay-Moves r path s (codex_auth_replay go json req r path s) (replay-Replays r path s),
  )

  unauthorized-Moves :
      (r : Round) (resp : Response) (path : String) (s : Failover)
      → Moves 1 s (unauthorized go json req r resp path s)
  unfolding unauthorized release
  unauthorized-Moves r resp path s =
      let c = get_header "Content-Type" resp.headers in
      let t = keep_body resp.body c s in
      let u = log (force_refreshed path) (record t { auth_replayed = path ∷ t.auth_replayed }) in
      ground (arith, keep_body-Alike resp.body c s, forced-Moves r path u)

  rate_limited-Moves :
      (r : Round) (resp : Response) (path : String) (s : Failover)
      → Moves 0 s (rate_limited go json req r resp path s)
  unfolding rate_limited
  rate_limited-Moves r resp path s =
      let t = record_if path resp.body_quota s in
      ground (arith, record_if-Alike path resp.body_quota s, record_reset-Alike path _ t)

  rejected-Moves :
      (r : Round) (resp : Response) (path : String) (s : Failover)
      → Moves 0 s (rejected go json req r resp path s)
  unfolding rejected release
  rejected-Moves r resp path s =
      let c = get_header "Content-Type" resp.headers in
      let t = keep_body resp.body c (release path s) in
      ground (arith, keep_body-Alike resp.body c (release path s), rate_limited-Moves r resp path t)

  answered-Moves :
      (r : Round) (resp : Response) (path : String) (s : Failover)
      → Moves 1 (record s { had_upstream_attempt = true }) (answered go json req r resp path s)
  unfolding answered
  answered-Moves r resp path s =
      let t = record (log (recorded path resp.header_quota resp.header_reset) s) {
        had_upstream_attempt = true;
        last_status = resp.status;
      } in
      ground (
        arith,
        succeed-sends r resp path t,
        unauthorized-Moves r resp path t,
        rejected-Moves r resp path t,
      )

  -- The first request of a round: a state that goes on either has seen the upstream, or has sent
  -- nothing.
  abbrev pub Attempts : Failover → Outcome → Type 0
  Attempts s (replies reply t) = (sends t ≤ sends s + 2) × (finds_no_account reply ≡ false)
  Attempts s (breaks t) = Alike s t
  Attempts s (spends t) =
      (sends t ≤ sends s + 2)
      × (t.stripped_reasoning ≡ s.stripped_reasoning)
      × ((t.had_upstream_attempt ≡ true) ⊎ Alike s t)
  Attempts s (replays t) =
      (sends t ≤ sends s + 2)
      × (t.had_upstream_attempt ≡ true)
      × (s.stripped_reasoning ≡ false)
      × (t.stripped_reasoning ≡ true)

  answered-Attempts :
      (s : Failover) (path : String) (o : Outcome)
      → Moves 1 (record (log (sent path s.payload) s) { had_upstream_attempt = true }) o
      → Attempts s o
  answered-Attempts s path (replies reply t) h = ground (arith, h)
  answered-Attempts s path (breaks t) h = cc
  answered-Attempts s path (spends t) h = (omega (arith, h.0), h.2, inl (h.1 refl))
  answered-Attempts s path (replays t) h = (omega (arith, h.0), h.1 refl, h.2, h.3)

  attempt_on-Attempts :
      (r : Round) (path : String) (s : Failover) → Attempts s (attempt_on go json req r path s)
  unfolding attempt_on release
  attempt_on-Attempts r path s = elim (Option-cases r.response) [
    | inl n ↦ rw n (ground arith)
    | inr (resp, e) ↦ rw e (
        ground (
          arith,
          answered-Attempts s path _ (answered-Moves r resp path (log (sent path s.payload) s)),
        ))
  ]

  leased-Attempts :
      (r : Round) (path : String) (s : Failover) (b : Begun)
      → Attempts s (leased go json req r path s b)
  leased-Attempts r path s (refused e) = (omega arith, refl, inr (refl, refl, refl))
  leased-Attempts r path s (begun q) =
      attempt_on-Attempts r path (record s { pool = r.others under_lease q })

  selected-Attempts :
      (r : Round) (s : Failover) (x : Option AccountEntry × AccountPool)
      → Attempts s (selected go json req r s x)
  selected-Attempts r s (none, p) = (refl, refl, refl)
  selected-Attempts r s (some entry, p) =
      leased-Attempts r entry.path (record s { pool = r.others before_begin p }) _

  pub round-Attempts : (r : Round) (s : Failover) → Attempts s (round go json req r s)
  unfolding round
  round-Attempts r s = selected-Attempts r s _
