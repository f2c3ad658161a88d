-- ===== src/Handlers/SingleToken/Retries.antt =====
-- The retries of the single-token path in internal/handlers/oauth_responses.go, and the waits
-- between them.
use droid_proxy.Prelude.{
  ℕ, zero, suc, ◌+◌, ◌-◌, ◌<◌, ◌≤◌, ◌≡◌, refl, sym, subst, inl, inr, Bool, false, Option, none,
  some, [], String, if◌then◌else◌, arith, count, All, Option-cases,
}
use droid_proxy.Prelude.Numbers.{Time}
use droid_proxy.Prelude.GoLibrary.{GoLibrary}
use droid_proxy.OAuth.Quota.{CodexQuota}
use droid_proxy.Handlers.Cooldown.{Headers, retry_after_time}
use droid_proxy.Handlers.Payload.{Payload, strip_reasoning_input_items}
use droid_proxy.Handlers.Exchange.{coalesce, Response, Reply, sent}
use droid_proxy.Handlers.Failover.Budget.{is_sent}
use droid_proxy.Handlers.SingleToken.{
  Turn, Single, Turned, stops, passes, again, capacity_retry_max_delay, capacity_retry_delay,
  refuse, judge, record_headers, turn, deliver, note_if, turns, request_single_token, note,
}

module _ (go : GoLibrary) where
  -- The wait before a retry is at most ten seconds, whatever Retry-After says.
  capacity_retry_delay_le :
      (headers : Headers) (attempt : ℕ) (now : Time)
      → attempt < 2
      → capacity_retry_delay go headers attempt now ≤ capacity_retry_max_delay
  unfolding capacity_retry_delay
  capacity_retry_delay_le headers zero now h =
      elim (Option-cases (retry_after_time go headers now)) [
        | inl n ↦ ground arith
        | inr (at, n) ↦ ground arith
      ]
  capacity_retry_delay_le headers (suc zero) now h =
      elim (Option-cases (retry_after_time go headers now)) [
        | inl n ↦ ground arith
        | inr (at, n) ↦ ground arith
      ]
  capacity_retry_delay_le headers (suc (suc n)) now h = absurd (omega arith)

  module _ (is_stream is_codex : Bool) (path : String) where
    abbrev pub requests : Single → ℕ
    requests s = count is_sent s.calls

    -- The rounds that may still come.
    abbrev rounds_left : Single → ℕ
    rounds_left s = (2 - s.capacity_retries) + (if s.stripped_reasoning then 0 else 1)

    abbrev Waited : Single → Type 0
    Waited s = All (λ w. w ≤ capacity_retry_max_delay) s.waits

    -- At most `n` requests are sent; a round waits at most ten seconds, and goes on only by spending
    -- one of the rounds left.
    abbrev Spends : ℕ → Single → Turned → Type 0
    Spends n s (stops reply t) = (requests t ≤ requests s + n) × Waited t
    Spends n s (passes resp t) = (requests t ≤ requests s + n) × Waited t
    Spends n s (again t) =
        (requests t ≤ requests s + n) × (rounds_left t < rounds_left s) × Waited t

    refuse-Spends :
        (t : Turn) (resp : Response) (raw : String) (s : Single) (p : Payload × Bool)
        → Waited s
        → Spends 0 s (refuse go is_stream is_codex path t resp raw s p)
    refuse-Spends t resp raw s (stripped, changed) w =
        ground (arith, w, capacity_retry_delay_le resp.headers s.capacity_retries t.now)

    judge-Spends :
        (t : Turn) (resp : Response) (s : Single)
        → Waited s
        → Spends 0 s (judge go is_stream is_codex path t resp s)
    judge-Spends t resp s w = elim (Option-cases resp.body) [
      | inl n ↦ ground (arith, w)
      | inr (raw, e) ↦ ground (
        arith,
        w,
        refuse-Spends t resp raw s (strip_reasoning_input_items go t.payload_written s.payload) w,
      )
    ]

    -- Of a state that differs in its calls alone.
    Spends-more :
        (s u : Single) (o : Turned)
        → requests u ≡ requests s + 1
        → rounds_left u ≡ rounds_left s
        → Spends 0 u o
        → Spends 1 s o
    Spends-more s u (stops reply t) e f h = (omega (arith, e, h.0), h.1)
    Spends-more s u (passes resp t) e f h = (omega (arith, e, h.0), h.1)
    Spends-more s u (again t) e f h = (omega (arith, e, h.0), omega (arith, f, h.1), h.2)

    record_headers-requests :
        (resp : Response) (s : Single)
        → requests (record_headers go is_stream is_codex path resp s) ≡ requests s
    record_headers-requests resp s = ground arith

    turn-Spends :
        (t : Turn) (s : Single) → Waited s → Spends 1 s (turn go is_stream is_codex path t s)
    unfolding turn
    turn-Spends t s w = elim (Option-cases t.response) [
      | inl n ↦ ground (arith, w)
      | inr (resp, e) ↦
          let u = record_headers go is_stream is_codex path resp (note (sent path s.payload) s) in
          let v : Waited u = ground (arith, w) in
          let h = Spends-more s u _ (ground arith) (ground arith) (judge-Spends t resp u v) in
          ground (arith, w, h)
    ]

    note_if-alike :
        (q : Option CodexQuota) (s : Single)
        → (requests (note_if path q s) ≡ requests s) × ((note_if path q s).waits ≡ s.waits)
    note_if-alike none s = (refl, refl)
    note_if-alike (some q) s = (refl, refl)

    deliver-alike :
        (resp : Response) (s : Single)
        → (requests (deliver go is_stream is_codex path resp s).1 ≡ requests s)
          × ((deliver go is_stream is_codex path resp s).1.waits ≡ s.waits)
    unfolding deliver
    deliver-alike resp s =
        ground (
          arith,
          note_if-alike (coalesce none resp.stream_quotas) s,
          note_if-alike resp.body_quota s,
        )

    abbrev Bounded : ℕ → Reply × Single → Type 0
    Bounded n x = (requests x.1 ≤ n) × Waited x.1

    turns-Bounded :
        (fuel i : ℕ) (world : ℕ → Turn) (s : Single)
        → Waited s
        → rounds_left s < fuel
        → (x : Reply × Single) × (turns go is_stream is_codex path fuel world i s ≡ some x)
          × Bounded (requests s + fuel) x
    unfolding turns
    turns-Bounded zero i world s w l = absurd (omega arith)
    turns-Bounded (suc fuel) i world s w l =
        go_on (turn go is_stream is_codex path (world i) s) (turn-Spends (world i) s w)
          (λ u v k. turns-Bounded fuel (i + 1) world u v k)
      where
        go_on :
            (o : Turned)
            → Spends 1 s o
            → ((u : Single)
                → Waited u
                → rounds_left u < fuel
                → (x : Reply × Single) × (turns go is_stream is_codex path fuel world (i + 1) u
                    ≡ some x)
                  × Bounded (requests u + fuel) x)
            → (x : Reply × Single) × ((elim o [
              | stops reply t ↦ some (reply, t)
              | passes resp t ↦ some (deliver go is_stream is_codex path resp t)
              | again t ↦ turns go is_stream is_codex path fuel world (i + 1) t
            ])
                ≡ some x)
              × Bounded (requests s + suc fuel) x
        go_on (stops reply t) h f = ((reply, t), refl, (omega (arith, h.0), h.1))
        go_on (passes resp t) h f =
            let (p, q) = deliver-alike resp t in
            (
              deliver go is_stream is_codex path resp t,
              refl,
              (omega (arith, p, h.0), subst (All (λ w. w ≤ capacity_retry_max_delay)) (sym q) h.1),
            )
        go_on (again t) h f =
            let (x, e, (b, w)) = f t h.2 (omega (arith, h.1)) in (x, e, (omega (arith, b, h.0), w))

    -- A request on the single-token path always comes to a reply, after at most four requests to
    -- the upstream (one, two retries for capacity, and one without reasoning items), and no wait
    -- between them is longer than ten seconds, whatever the upstream asks for.
    pub request_single_token_bounded :
        (world : ℕ → Turn) (payload : Payload)
        → (x : Reply × Single) × (request_single_token go is_stream is_codex path world payload
            ≡ some x)
          × (requests x.1 ≤ 4)
          × All (λ w. w ≤ capacity_retry_max_delay) x.1.waits
    unfolding request_single_token
    request_single_token_bounded world payload =
        let (x, e, (b, w)) =
          turns-Bounded 4 0 world
            (record {
              payload = payload;
              stripped_reasoning = false;
              capacity_retries = 0;
              calls = [];
              waits = [];
            })
            tt (omega arith) in
        (x, e, b, w)
