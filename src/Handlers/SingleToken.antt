-- ===== src/Handlers/SingleToken.antt =====
-- The request loop of the single-token path in internal/handlers/oauth_responses.go, and its
-- backoff in internal/handlers/capacity_retry.go. A Turn holds what the world answers in one round.
pub mod Retries
use droid_proxy.Prelude.{
  ℕ, zero, suc, ◌+◌, ◌-◌, ◌*◌, ◌^◌, ◌≡◌, Bool, true, false, not, ◌&&◌, ◌||◌, Option, none, some,
  List, [], ◌∷◌, String, ltb, leb, ◌==◌, if◌then◌else◌,
}
use droid_proxy.Prelude.Numbers.{Time}
use droid_proxy.Prelude.GoLibrary.{GoLibrary, to_lower}
use droid_proxy.Prelude.Texts.{contains}
use droid_proxy.OAuth.Quota.{CodexQuota}
use droid_proxy.Handlers.Cooldown.{Headers, get_header, retry_after_time}
use droid_proxy.Handlers.Payload.{
  Payload, reasoning_strip_retry_eligible, strip_reasoning_input_items,
}
use droid_proxy.Handlers.Exchange.{
  Response, Reply, silent, configuration_error, streams, answers, upstream_error, relays, Call,
  sent, recorded, is_success, coalesce,
}

pub record Turn : Type 0 where
  pub now : Time
  pub request_builds : Bool
  -- `none` is a transport error
  pub response : Option Response
  -- whether the wait before a retry ends without the client going away
  pub woke : Bool
  pub payload_written : Bool

-- The variables of the loop, what it did to the world, and how long it waited.
pub record Single : Type 0 where
  pub payload : Payload
  pub stripped_reasoning : Bool
  pub capacity_retries : ℕ
  pub calls : List Call
  pub waits : List ℕ

pub data Turned : Type 0 where
  stops : Reply → Single → Turned
  passes : Response → Single → Turned
  again : Single → Turned

abbrev pub capacity_retry_max_attempts : ℕ
capacity_retry_max_attempts = 2

abbrev pub capacity_retry_max_delay : ℕ
capacity_retry_max_delay = 10_000_000_000

abbrev pub capacity_retry_base_delay : ℕ
capacity_retry_base_delay = 2_000_000_000

abbrev note_if : String → Option CodexQuota → Single → Single
note_if path none s = s
note_if path (some q) s = record s { calls = recorded path (some q) none ∷ s.calls }

abbrev note : Call → Single → Single
note c s = record s { calls = c ∷ s.calls }

module _ (go : GoLibrary) where
  -- upstreamCapacityRejection.
  unfoldable pub upstream_capacity_rejection : ℕ → String → Bool
  upstream_capacity_rejection status body =
      let lower = to_lower go.lower body in
      if status == 429 || status == 503
      then true
      else if ltb status 400 || leb 600 status
      then false
      else contains lower "resource has been exhausted"
        || contains lower "at capacity"
        || contains lower "overloaded"

  -- capacityRetryDelay.
  unfoldable pub capacity_retry_delay : Headers → ℕ → Time → ℕ
  capacity_retry_delay headers attempt now =
      let backoff = capacity_retry_base_delay * 2 ^ attempt in
      elim (retry_after_time go headers now) [
        | none ↦ backoff
        | some at ↦
            let d = at - now in
            if ltb 0 d
            then if ltb capacity_retry_max_delay d then capacity_retry_max_delay else d
            else backoff
      ]

  module _ (is_stream is_codex : Bool) (path : String) where
    abbrev wait : Turn → ℕ → Single → Turned
    wait t delay s =
        let s = record s { capacity_retries = s.capacity_retries + 1; waits = delay ∷ s.waits } in
        if t.woke then again s else stops silent s

    abbrev refuse : Turn → Response → String → Single → Payload × Bool → Turned
    refuse t resp raw s (stripped, changed) =
        if not s.stripped_reasoning && reasoning_strip_retry_eligible go resp.status raw && changed
        then again (record s { stripped_reasoning = true; payload = stripped })
        else if ltb s.capacity_retries capacity_retry_max_attempts
            && upstream_capacity_rejection resp.status raw
        then wait t (capacity_retry_delay resp.headers s.capacity_retries t.now) s
        else stops (relays is_stream resp.status raw (get_header "Content-Type" resp.headers)) s

    abbrev judge : Turn → Response → Single → Turned
    judge t resp s = if is_success resp.status then passes resp s else elim resp.body [
      | none ↦ stops upstream_error s
      | some raw ↦ refuse t resp raw s (strip_reasoning_input_items go t.payload_written s.payload)
    ]

    abbrev record_headers : Response → Single → Single
    record_headers resp s =
        if is_codex then note (recorded path resp.header_quota resp.header_reset) s else s

    -- One round of the loop.
    unfoldable pub turn : Turn → Single → Turned
    turn t s =
        if not t.request_builds
        then stops configuration_error s
        else let s = note (sent path s.payload) s in
          elim t.response [
            | none ↦ stops upstream_error s
            | some resp ↦ judge t resp (record_headers resp s)
          ]

    abbrev record_quota : Option CodexQuota → Single → Single
    record_quota quota s = if is_codex then note_if path quota s else s

    -- Behind the loop: the response is streamed, or read and translated.
    unfoldable pub deliver : Response → Single → Reply × Single
    deliver resp s =
        if is_stream
        then (streams path, record_quota (coalesce none resp.stream_quotas) s)
        else elim resp.body [
          | none ↦ (upstream_error, s)
          | some raw ↦
              let s = record_quota resp.body_quota s in
              elim resp.translated [ none ↦ (upstream_error, s) | some t ↦ (answers t, s) ]
        ]

    -- `none` is out of fuel.
    unfoldable pub turns : ℕ → (ℕ → Turn) → ℕ → Single → Option (Reply × Single)
    turns zero world i s = none
    turns (suc fuel) world i s = elim (turn (world i) s) [
      | stops reply t ↦ some (reply, t)
      | passes resp t ↦ some (deliver resp t)
      | again t ↦ turns fuel world (i + 1) t
    ]

    -- Two retries for capacity and one replay, after the first request.
    unfoldable pub request_single_token : (ℕ → Turn) → Payload → Option (Reply × Single)
    request_single_token world payload = turns 4 world 0 (record {
      payload = payload;
      stripped_reasoning = false;
      capacity_retries = 0;
      calls = [];
      waits = [];
    })
