-- ===== src/Handlers/Failover/Bounds.antt =====
-- The attempts and the requests of the failover loop: responsesViaCodexFailover in
-- internal/handlers/oauth_responses.go.
use droid_proxy.Prelude.{
  ℕ, zero, suc, ◌+◌, ◌*◌, ◌≤◌, ◌≡◌, refl, ◌⊎◌, inr, true, some, if◌then◌else◌, arith,
}
use droid_proxy.Prelude.GoLibrary.{GoLibrary}
use droid_proxy.OAuth.Pool.{AccountPool}
use droid_proxy.Handlers.Cooldown.{Gjson}
use droid_proxy.Handlers.Payload.{Payload}
use droid_proxy.Handlers.Exchange.{
  Round, Reply, no_eligible_accounts, Failover, Outcome, replies, breaks, spends, replays, Request,
}
use droid_proxy.Handlers.Failover.Loop.{Leads, loop-induct, continued}
use droid_proxy.Handlers.Failover.{round, exhausted, loop, entering, responses_via_codex_failover}
use droid_proxy.Handlers.Failover.Budget.{sends, finds_no_account, Attempts, round-Attempts}

module _ (go : GoLibrary) (json : Gjson) (req : Request) where
  -- What is left to send, counting the one replay that spends no attempt.
  abbrev rounds_left : ℕ → Failover → ℕ
  rounds_left left s = left + (if s.stripped_reasoning then 0 else 1)

  -- The loop ends: the fuel is enough for every attempt and the one replay.
  loop_total :
      (fuel left i : ℕ) (world : ℕ → Round) (s : Failover)
      → rounds_left left s ≤ fuel
      → (x : Reply × Failover) × (loop go json req fuel left world i s ≡ some x)
  unfolding loop
  loop_total fuel zero i world s h = (exhausted go json req s, refl)
  loop_total zero (suc left) i world s h = absurd (ground arith)
  loop_total (suc fuel) (suc left) i world s h =
      go_on (round go json req (world i) s) (round-Attempts go json req (world i) s)
        (λ t k. loop_total fuel left (i + 1) world t k)
        (λ t k. loop_total fuel (suc left) (i + 1) world t k)
    where
      go_on :
          (o : Outcome)
          → Attempts go json req s o
          → ((t : Failover)
              → rounds_left left t ≤ fuel
              → (x : Reply × Failover) × (loop go json req fuel left world (i + 1) t ≡ some x))
          → ((t : Failover)
              → rounds_left (suc left) t ≤ fuel
              → (x : Reply × Failover) × (loop go json req fuel (suc left) world (i + 1) t
                  ≡ some x))
          → (x : Reply × Failover) × (continued go json req world fuel left i o ≡ some x)
      go_on (replies reply t) a f g = ((reply, t), refl)
      go_on (breaks t) a f g = (exhausted go json req t, refl)
      go_on (spends t) a f g = f t (ground (arith, a))
      go_on (replays t) a f g = g t (ground (arith, a))

  -- The failover loop always comes to a reply: an attempt is spent in every round but the one in
  -- which the payload is replayed without its reasoning items.
  pub responses_via_codex_failover_total :
      (world : ℕ → Round) (payload : Payload) (pool : AccountPool)
      → (x : Reply × Failover) × (responses_via_codex_failover go json req world payload pool
          ≡ some x)
  unfolding responses_via_codex_failover
  responses_via_codex_failover_total world payload pool =
      loop_total _ _ 0 world (entering go json req payload pool) (omega arith)

  -- What the rounds keep: the requests that may still follow are counted, and a state that has seen
  -- no upstream has sent nothing.
  abbrev Within : ℕ → Failover → Type 0
  Within left s =
      (sends s + 2 * rounds_left left s ≤ 2 * (req.max_failovers + 2))
      × ((s.had_upstream_attempt ≡ true) ⊎ (sends s ≡ 0))

  abbrev Ends : Reply × Failover → Type 0
  Ends (reply, t) =
      (sends t ≤ 2 * (req.max_failovers + 2)) × (finds_no_account reply ≡ true → sends t ≡ 0)

  exhausted-Ends : (left : ℕ) (s : Failover) → Within left s → Ends (exhausted go json req s)
  unfolding exhausted
  exhausted-Ends left s h = ground (arith, h)

  outcome-Leads :
      (world : ℕ → Round) (left : ℕ) (s : Failover) (o : Outcome)
      → Within (suc left) s
      → Attempts go json req s o
      → Leads go json req world Within Ends left o
  outcome-Leads world left s (replies reply t) h a = ground (arith, h, a)
  outcome-Leads world left s (breaks t) h a = exhausted-Ends (suc left) t (ground (arith, h, a))
  outcome-Leads world left s (spends t) h a = ground (arith, h, a)
  outcome-Leads world left s (replays t) h a = ground (arith, h, a)

  failover-Ends :
      (world : ℕ → Round) (payload : Payload) (pool : AccountPool) (x : Reply × Failover)
      → responses_via_codex_failover go json req world payload pool ≡ some x
      → Ends x
  unfolding responses_via_codex_failover
  failover-Ends world payload pool x e =
      loop-induct go json req world Within Ends
        (λ left i s h. outcome-Leads world left s _ h (round-Attempts go json req (world i) s))
        (λ s h. exhausted-Ends 0 s h) _ _ 0 (entering go json req payload pool) x
        (omega arith, inr refl) e

  -- The client is told that there is no eligible account only if no request was sent to the
  -- upstream at all.
  pub no_eligible_accounts-sends :
      (world : ℕ → Round) (payload : Payload) (pool : AccountPool) {t : Failover}
      → responses_via_codex_failover go json req world payload pool ≡ some (no_eligible_accounts, t)
      → sends t ≡ 0
  no_eligible_accounts-sends world payload pool {t} e =
      (failover-Ends world payload pool (no_eligible_accounts, t) e).1 refl
