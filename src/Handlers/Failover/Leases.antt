-- ===== src/Handlers/Failover/Leases.antt =====
-- The leases of the failover loop: responsesViaCodexFailover in
-- internal/handlers/oauth_responses.go against the methods of the pool.
use droid_proxy.Prelude.{
  ℕ, ◌+◌, ◌<◌, ◌≡◌, refl, sym, subst, ◌∙◌, inl, inr, true, Option, none, some, List, ◌∷◌, String,
  arith, eq_refl, Option-cases,
}
use droid_proxy.Prelude.GoLibrary.{GoLibrary}
use droid_proxy.Prelude.Maps.{string_eq, lookup}
use droid_proxy.Prelude.Numbers.{Time}
use droid_proxy.OAuth.Quota.{CodexQuota}
use droid_proxy.OAuth.Account.{AccountEntry}
use droid_proxy.OAuth.Pool.{
  AccountPool, Begun, begun, refused, begin, end, mark_unhealthy, bind_conversation,
}
use droid_proxy.OAuth.Pool.Leases.{IsAccounted, in_flight_of, held_of, give_back}
use droid_proxy.OAuth.Pool.Traces.{
  Run, Run-IsAccounted, here, next, ends, begins, binds, clears, selects, rate_limits, cools_down,
  sickens,
}
use droid_proxy.Handlers.Cooldown.{Gjson, get_header}
use droid_proxy.Handlers.Payload.{Payload}
use droid_proxy.Handlers.Exchange.{
  Response, Round, Moment, before_select, before_begin, under_lease, Reply, Failover, Outcome,
  replies, breaks, spends, replays, Replayed, replied, cancelled, failed, Request, release,
  set_aside, keep_body, keep_status, coalesce, record_if, log, record_reset, recorded, sent,
  force_refreshed,
}
use droid_proxy.Handlers.Failover.Loop.{Leads, loop-induct}
use droid_proxy.Handlers.Failover.{
  succeed, codex_auth_replay, after_replay, forced, unauthorized, rate_limited, rejected, answered,
  attempt_on, limited_until, leased, selected, round, exhausted, entering,
  responses_via_codex_failover,
}

abbrev pub state_of : Outcome → Failover
state_of (replies reply s) = s
state_of (breaks s) = s
state_of (spends s) = s
state_of (replays s) = s

abbrev pub replay_state_of : Replayed → Failover
replay_state_of (replied reply s) = s
replay_state_of (cancelled s) = s
replay_state_of (failed status body content_type s) = s

keep_body-pool :
    (body : Option String) (c : String) (s : Failover) → (keep_body body c s).pool ≡ s.pool
keep_body-pool none c s = refl
keep_body-pool (some b) c s = refl

keep_status-pool : (status : Option ℕ) (s : Failover) → (keep_status status s).pool ≡ s.pool
keep_status-pool none s = refl
keep_status-pool (some n) s = refl

record_if-pool :
    (path : String) (o : Option CodexQuota) (s : Failover) → (record_if path o s).pool ≡ s.pool
record_if-pool path none s = refl
record_if-pool path (some q) s = refl

record_reset-pool :
    (path : String) (o : Option Time) (s : Failover) → (record_reset path o s).pool ≡ s.pool
record_reset-pool path none s = refl
record_reset-pool path (some t) s = refl

held_first : (path : String) (held : List String) → 0 < held_of path (path ∷ held)
held_first path held = ground (arith, eq_refl path)

give_back_first : (path : String) (held : List String) → give_back path (path ∷ held) ≡ held
give_back_first path held = ground (arith, eq_refl path)

module _ (go : GoLibrary) (json : Gjson) (req : Request) (p0 : AccountPool) (h0 : List String) where
  -- The pool's methods lead to the pool of a loop state, with the leases `held` then held.
  abbrev Reaches : List String → AccountPool → Type 0
  Reaches held p = Run go p0 h0 p held

  end-Reaches :
      {held : List String} (path : String) (p : AccountPool)
      → Reaches (path ∷ held) p
      → Reaches held (end path p)
  end-Reaches {held} path p a =
      subst (λ h. Reaches h (end path p)) (give_back_first path held)
        (next a (ends path (held_first path held) refl refl))

  unhealthy-Reaches :
      {held : List String} (now : Time) (path : String) (p : AccountPool)
      → Reaches held p
      → Reaches held (mark_unhealthy now path p)
  unhealthy-Reaches now path p a = next a (sickens now path refl)

  succeed-Reaches :
      {held : List String} (r : Round) (resp : Response) (path : String) (s : Failover)
      → Reaches (path ∷ held) s.pool
      → Reaches held (succeed go json req r resp path s).1.pool
  unfolding succeed release
  succeed-Reaches {held} r resp path s a =
      let bound = bind_conversation go r.affinity_written r.later req.conversation path s.pool in
      let done =
        end-Reaches path bound
          (next a (binds r.affinity_written r.later req.conversation path refl)) in
      ground (
        arith,
        done,
        record_if-pool path (coalesce none resp.stream_quotas) (record s { pool = bound }),
        record_if-pool path resp.body_quota (record s { pool = end path bound }),
      )

  replay-Reaches :
      {held : List String} (r : Round) (path : String) (s : Failover)
      → Reaches (path ∷ held) s.pool
      → Reaches held (replay_state_of (codex_auth_replay go json req r path s)).pool
  unfolding codex_auth_replay release
  replay-Reaches {held} r path s a =
      let done = end-Reaches path s.pool a in
      elim (Option-cases r.replay_response) [
        | inl n ↦ ground (arith, done)
        | inr (resp, e) ↦
            let t =
              log (recorded path resp.header_quota resp.header_reset)
                (log (sent path s.payload) s) in
            rw e (ground (arith, done, succeed-Reaches r resp path t a))
      ]

  after_replay-Reaches :
      {held : List String} (r : Round) (path : String) (x : Replayed)
      → Reaches held (replay_state_of x).pool
      → Reaches held (state_of (after_replay go json req r path x)).pool
  after_replay-Reaches r path (replied reply s) a = a
  after_replay-Reaches r path (cancelled s) a = a
  after_replay-Reaches {held} r path (failed status body c s) a =
      let u = set_aside (mark_unhealthy r.later path) path s in
      let v = record u { had_upstream_attempt = true } in
      subst (λ q. Reaches held q)
        (sym (keep_body-pool body c (keep_status status v) ∙ keep_status-pool status v))
        (unhealthy-Reaches r.later path s.pool a)

  forced-Reaches :
      {held : List String} (r : Round) (path : String) (s : Failover)
      → Reaches (path ∷ held) s.pool
      → Reaches held (state_of (forced go json req r path s)).pool
  unfolding release
  forced-Reaches r path s a =
      let done = end-Reaches path s.pool a in
      ground (
        arith,
        done,
        unhealthy-Reaches r.later path (end path s.pool) done,
        after_replay-Reaches r path (codex_auth_replay go json req r path s)
            (replay-Reaches r path s a),
      )

  unauthorized-Reaches :
      {held : List String} (r : Round) (resp : Response) (path : String) (s : Failover)
      → Reaches (path ∷ held) s.pool
      → Reaches held (state_of (unauthorized go json req r resp path s)).pool
  unfolding unauthorized release
  unauthorized-Reaches {held} r resp path s a =
      let t = keep_body resp.body (get_header "Content-Type" resp.headers) s in
      let b : Reaches (path ∷ held) t.pool =
        subst (Reaches (path ∷ held)) (sym (keep_body-pool _ _ s)) a in
      let done = end-Reaches path t.pool b in
      ground (
        arith,
        done,
        unhealthy-Reaches r.later path (end path t.pool) done,
        forced-Reaches r path
            (log (force_refreshed path) (record t { auth_replayed = path ∷ t.auth_replayed })) b,
      )

  rate_limited-Reaches :
      {held : List String} (r : Round) (resp : Response) (path : String) (s : Failover)
      → Reaches held s.pool
      → Reaches held (state_of (rate_limited go json req r resp path s)).pool
  unfolding rate_limited
  rate_limited-Reaches {held} r resp path s a =
      let t = record_if path resp.body_quota s in
      next
        (subst (Reaches held)
          (sym (record_reset-pool path _ t ∙ record_if-pool path resp.body_quota s)) a)
        (rate_limits path (limited_until go json req r resp) refl)

  rejected-Reaches :
      {held : List String} (r : Round) (resp : Response) (path : String) (s : Failover)
      → Reaches (path ∷ held) s.pool
      → Reaches held (state_of (rejected go json req r resp path s)).pool
  unfolding rejected release
  rejected-Reaches {held} r resp path s a =
      let t = keep_body resp.body (get_header "Content-Type" resp.headers) (release path s) in
      let done : Reaches held t.pool =
        subst (Reaches held) (sym (keep_body-pool _ _ (release path s)))
          (end-Reaches path s.pool a) in
      ground (
        arith,
        done,
        rate_limited-Reaches r resp path t done,
        next done (cools_down path (r.later + req.error_cooldown) refl),
        next done (clears r.affinity_written req.conversation refl),
      )

  answered-Reaches :
      {held : List String} (r : Round) (resp : Response) (path : String) (s : Failover)
      → Reaches (path ∷ held) s.pool
      → Reaches held (state_of (answered go json req r resp path s)).pool
  unfolding answered
  answered-Reaches {held} r resp path s a =
      let t = record (log (recorded path resp.header_quota resp.header_reset) s) {
        had_upstream_attempt = true;
        last_status = resp.status;
      } in
      ground (
        arith,
        succeed-Reaches r resp path t a,
        unauthorized-Reaches r resp path t a,
        rejected-Reaches r resp path t a,
      )

  attempt_on-Reaches :
      {held : List String} (r : Round) (path : String) (s : Failover)
      → Reaches (path ∷ held) s.pool
      → Reaches held (state_of (attempt_on go json req r path s)).pool
  unfolding attempt_on release
  attempt_on-Reaches {held} r path s a =
      let done = end-Reaches path s.pool a in
      let sick = unhealthy-Reaches r.later path (end path s.pool) done in
      elim (Option-cases r.response) [
        | inl n ↦ rw n (
            ground
              (arith, done, sick, next done (cools_down path (r.later + req.error_cooldown) refl)))
        | inr (resp, e) ↦ rw e (
            ground
              (arith, done, sick, answered-Reaches r resp path (log (sent path s.payload) s) a))
      ]

  -- The world's own calls of the pool, on leases of its own, leave those of this request alone.
  abbrev pub Lets : Round → Type 0
  Lets r =
      (m : Moment) (p : AccountPool) (held : List String)
      → Reaches held p
      → Reaches held (r.others m p)

  leased-Reaches :
      {held : List String} (r : Round) (path : String) (s : Failover) (b : Begun)
      → Lets r
      → begin r.now path s.pool ≡ b
      → Reaches held s.pool
      → Reaches held (state_of (leased go json req r path s b)).pool
  leased-Reaches r path s (refused e) l t a = a
  leased-Reaches r path s (begun q) l t a =
      attempt_on-Reaches r path (record s { pool = r.others under_lease q })
        (l under_lease q _ (next a (begins r.now path t)))

  selected-Reaches :
      {held : List String} (r : Round) (s : Failover) (x : Option AccountEntry × AccountPool)
      → Lets r
      → Reaches held x.1
      → Reaches held (state_of (selected go json req r s x)).pool
  selected-Reaches r s (none, p) l a = a
  selected-Reaches r s (some entry, p) l a =
      leased-Reaches r entry.path (record s { pool = r.others before_begin p }) _ l refl
        (l before_begin p _ a)

  round-Reaches :
      {held : List String} (r : Round) (s : Failover)
      → Lets r
      → Reaches held s.pool
      → Reaches held (state_of (round go json req r s)).pool
  unfolding round
  round-Reaches r s l a =
      selected-Reaches r s _ l (
        next (l before_select s.pool _ a) (selects r.now req.account s.tried req.conversation refl))

  exhausted-Reaches :
      {held : List String} (s : Failover)
      → Reaches held s.pool
      → Reaches held (exhausted go json req s).1.pool
  unfolding exhausted
  exhausted-Reaches s a = ground (arith, a)

  round-Leads :
      {held : List String} (world : ℕ → Round) (left : ℕ) (o : Outcome)
      → Reaches held (state_of o).pool
      → Leads go json req world (λ n t. Reaches held t.pool) (λ x. Reaches held x.1.pool) left o
  round-Leads world left (replies reply t) h = h
  round-Leads world left (breaks t) h = exhausted-Reaches t h
  round-Leads world left (spends t) h = h
  round-Leads world left (replays t) h = h

module _ (go : GoLibrary) (json : Gjson) (req : Request) where
  -- Whatever the upstream, the token files and the client do, the failover loop drives the pool
  -- through its methods only, and gives back every lease that it takes: the run of pool methods that
  -- it makes ends with the leases held that were held when it began, if what other requests do to
  -- the pool before each Select, between Select and Begin, and under each lease does.
  pub failover-Run :
      (world : ℕ → Round) (payload : Payload) (pool : AccountPool) (held : List String)
      {reply : Reply} {t : Failover}
      → ((j : ℕ) (m : Moment) (p : AccountPool) (h : List String)
          → Run go pool held p h
          → Run go pool held ((world j).others m p) h)
      → responses_via_codex_failover go json req world payload pool ≡ some (reply, t)
      → Run go pool held t.pool held
  unfolding responses_via_codex_failover
  failover-Run world payload pool held {reply} {t} l e =
      loop-induct go json req world (λ n s. Run go pool held s.pool held)
        (λ x. Run go pool held x.1.pool held)
        (λ left i s a.
          round-Leads go json req pool held world left _
            (round-Reaches go json req pool held (world i) s (l i) a))
        (λ s a. exhausted-Reaches go json req pool held s a) _ _ 0
        (entering go json req payload pool) (reply, t) here e

  -- A request that goes through the failover loop leaves the in-flight count of every account
  -- as it found it, on every path through the loop, if other requests, which act on the pool before
  -- each Select, between Select and Begin, and under each lease, give back what they take.
  pub failover-in_flight :
      (world : ℕ → Round) (payload : Payload) (pool : AccountPool) (held : List String)
      {reply : Reply} {t : Failover}
      → IsAccounted pool held
      → ((j : ℕ) (m : Moment) (p : AccountPool) (h : List String)
          → Run go pool held p h
          → Run go pool held ((world j).others m p) h)
      → responses_via_codex_failover go json req world payload pool ≡ some (reply, t)
      → (x : String) → in_flight_of (lookup x t.pool.entries) ≡ in_flight_of (lookup x pool.entries)
  failover-in_flight world payload pool held a l e x =
      (Run-IsAccounted go a (failover-Run world payload pool held l e)).leased x ∙ sym (a.leased x)
