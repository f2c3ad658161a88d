-- ===== src/Handlers/Tests.antt =====
-- The failover loop and its parts at concrete inputs.
use droid_proxy.Prelude.{
  All, ℕ, zero, suc, ◌≤◌, ◌<◌, ◌≡◌, refl, Bool, true, false, Option, none, some, List, [], ◌∷◌,
  String, arith,
}
use droid_proxy.Prelude.Numbers.{unix}
use droid_proxy.Prelude.Maps.{string_eq, lookup}
use droid_proxy.Prelude.Texts.{trim_space}
use droid_proxy.Samples.{
  token_of, round_of, response_of, plain_go, plain_json, two_tokens, round_robin_config, noon,
  path_a, limited_then_fine, plain_request, mixed_payload, half_used,
}
use droid_proxy.OAuth.Quota.{CodexQuota, merge_codex_quota, exhausted_window_reset_at}
use droid_proxy.OAuth.Pool.{AccountPool, new_account_pool}
use droid_proxy.OAuth.Pool.Leases.{in_flight_of, IsAccounted}
use droid_proxy.OAuth.Pool.Traces.{Run, new_account_pool-IsAccounted}
use droid_proxy.Handlers.Cooldown.{
  get_header, Gjson, parse_codex_usage_limit_reset, codex_rate_limit_cooldown, retry_after_time,
}
use droid_proxy.Handlers.Cooldown.Future.{some_seconds, codex_rate_limit_cooldown_future}
use droid_proxy.Handlers.Payload.{Payload, strip_reasoning_input_items}
use droid_proxy.Handlers.Exchange.{
  Round, Moment, Reply, answers, no_eligible_accounts, Failover, Request, coalesce,
}
use droid_proxy.Handlers.SingleToken.{Turn, Single, capacity_retry_max_delay, request_single_token}
use droid_proxy.Handlers.SingleToken.Retries.{requests, request_single_token_bounded}
use droid_proxy.Handlers.Failover.{responses_via_codex_failover, entering}
use droid_proxy.Handlers.Failover.Leases.{failover-Run, failover-in_flight}
use droid_proxy.Handlers.Failover.Budget.{sends}
use droid_proxy.Handlers.Failover.Bounds.{
  responses_via_codex_failover_total, no_eligible_accounts-sends,
}
use droid_proxy.Handlers.Failover.Refreshes.{refreshes, refreshes_le}
use droid_proxy.Handlers.Failover.Telemetry.{record_each, IsSameUsage, record_each-coalesce}
use droid_proxy.OAuth.Quota.Usage.{with_usage}

abbrev pool : AccountPool
pool =
    new_account_pool plain_go true noon (λ path. noon) two_tokens round_robin_config none (λ i n. 0)

abbrev empty_pool : AccountPool
empty_pool =
    new_account_pool plain_go true noon (λ path. noon) [] round_robin_config none (λ i n. 0)

pool-IsAccounted : IsAccounted pool []
pool-IsAccounted = new_account_pool-IsAccounted plain_go true noon _ two_tokens _ none _

abbrev reply_of : Option (Reply × Failover) → Option Reply
reply_of none = none
reply_of (some (reply, t)) = some reply

-- The first account is rate-limited, and the second answers.
test_failover :
    reply_of (
      responses_via_codex_failover plain_go plain_json plain_request limited_then_fine mixed_payload
        pool)
    ≡ some (answers "done")
unfolding responses_via_codex_failover droid_proxy.Handlers.Failover.loop
    droid_proxy.Handlers.Failover.round droid_proxy.OAuth.Pool.select
    droid_proxy.OAuth.Pool.select_from droid_proxy.OAuth.Pool.pinned
    droid_proxy.Prelude.Texts.is_blank droid_proxy.Prelude.Texts.trim_space
    droid_proxy.OAuth.Pool.eligible droid_proxy.Prelude.Sort.sort new_account_pool
    droid_proxy.OAuth.Pool.prune_affinity droid_proxy.OAuth.Pool.seed
    droid_proxy.OAuth.Account.token_provider droid_proxy.Prelude.GoLibrary.to_lower
    droid_proxy.Prelude.Maps.insert droid_proxy.OAuth.Account.is_eligible
    droid_proxy.OAuth.Account.account_ineligible_reasons droid_proxy.OAuth.Account.entry_from_token
    droid_proxy.OAuth.Account.apply_persisted_rate_limit
    droid_proxy.OAuth.Account.persisted_rate_limit_until exhausted_window_reset_at
    droid_proxy.OAuth.Quota.has_exhausted_window droid_proxy.OAuth.Account.is_excluded
    droid_proxy.OAuth.Account.expiry droid_proxy.OAuth.Account.by_label
    droid_proxy.OAuth.Account.safe_selector_label droid_proxy.Prelude.Texts.str_ltb
    droid_proxy.OAuth.Selector.choose droid_proxy.OAuth.Selector.filter_eligible_by_soft_cap
    droid_proxy.OAuth.Selector.new_selector droid_proxy.OAuth.Selector.normalize_strategy
    droid_proxy.OAuth.Pool.begin lookup droid_proxy.Handlers.Cooldown.add_seconds
    codex_rate_limit_cooldown droid_proxy.Handlers.Cooldown.get_header parse_codex_usage_limit_reset
    retry_after_time coalesce droid_proxy.Handlers.Exchange.is_retryable_codex_status
    droid_proxy.Handlers.Exchange.release droid_proxy.Handlers.Failover.answered
    droid_proxy.Handlers.Failover.attempt_on droid_proxy.Handlers.Failover.codex_auth_replay
    droid_proxy.Handlers.Failover.exhausted droid_proxy.Handlers.Failover.limited_until
    droid_proxy.Handlers.Failover.rate_limited droid_proxy.Handlers.Failover.rejected
    droid_proxy.Handlers.Failover.succeed droid_proxy.Handlers.Failover.unauthorized
    droid_proxy.Handlers.Payload.reasoning_strip_retry_eligible strip_reasoning_input_items
    droid_proxy.OAuth.Account.matches_account droid_proxy.OAuth.Account.parse_rate_limit_reset_at
    droid_proxy.OAuth.Affinity.bind droid_proxy.OAuth.Affinity.bound_path
    droid_proxy.OAuth.Affinity.enforce_max droid_proxy.OAuth.Affinity.erase_first
    droid_proxy.OAuth.Affinity.is_kept droid_proxy.OAuth.Affinity.is_stale
    droid_proxy.OAuth.Affinity.normalize_affinity_id droid_proxy.OAuth.Affinity.prune
    droid_proxy.OAuth.Affinity.save droid_proxy.OAuth.Affinity.unbind
    droid_proxy.OAuth.Pool.bind_conversation droid_proxy.OAuth.Pool.clear_conversation
    droid_proxy.OAuth.Pool.enabled_codex_count droid_proxy.OAuth.Pool.end
    droid_proxy.OAuth.Pool.mark_cooldown droid_proxy.OAuth.Pool.mark_rate_limited
    droid_proxy.OAuth.Pool.mark_unhealthy droid_proxy.OAuth.Pool.modify
    droid_proxy.OAuth.Pool.select_sticky droid_proxy.OAuth.Quota.max_agent_used_percent
    merge_codex_quota droid_proxy.OAuth.Selector.by_quota droid_proxy.OAuth.Selector.fewest
    droid_proxy.OAuth.Selector.is_under droid_proxy.OAuth.Selector.pick_by_quota
    droid_proxy.Prelude.Maps.erase unix droid_proxy.Prelude.Sort.place
    droid_proxy.Prelude.Texts.base droid_proxy.Prelude.Texts.contains
    droid_proxy.Prelude.Texts.equal_fold droid_proxy.Prelude.Texts.ext
    droid_proxy.Prelude.Texts.trim_suffix
test_failover = refl

-- An account that is not authorized is refreshed by force, and the replay answers.
test_replay :
    reply_of (
      responses_via_codex_failover plain_go plain_json plain_request
        (λ i. round_of 401 "no")
        mixed_payload
        pool)
    ≡ some (answers "replayed")
unfolding responses_via_codex_failover droid_proxy.Handlers.Failover.loop
    droid_proxy.Handlers.Failover.round droid_proxy.OAuth.Pool.select
    droid_proxy.OAuth.Pool.select_from droid_proxy.OAuth.Pool.pinned
    droid_proxy.Prelude.Texts.is_blank droid_proxy.Prelude.Texts.trim_space
    droid_proxy.OAuth.Pool.eligible droid_proxy.Prelude.Sort.sort new_account_pool
    droid_proxy.OAuth.Pool.prune_affinity droid_proxy.OAuth.Pool.seed
    droid_proxy.OAuth.Account.token_provider droid_proxy.Prelude.GoLibrary.to_lower
    droid_proxy.Prelude.Maps.insert droid_proxy.OAuth.Account.is_eligible
    droid_proxy.OAuth.Account.account_ineligible_reasons droid_proxy.OAuth.Account.entry_from_token
    droid_proxy.OAuth.Account.apply_persisted_rate_limit
    droid_proxy.OAuth.Account.persisted_rate_limit_until exhausted_window_reset_at
    droid_proxy.OAuth.Quota.has_exhausted_window droid_proxy.OAuth.Account.is_excluded
    droid_proxy.OAuth.Account.expiry droid_proxy.OAuth.Account.by_label
    droid_proxy.OAuth.Account.safe_selector_label droid_proxy.Prelude.Texts.str_ltb
    droid_proxy.OAuth.Selector.choose droid_proxy.OAuth.Selector.filter_eligible_by_soft_cap
    droid_proxy.OAuth.Selector.new_selector droid_proxy.OAuth.Selector.normalize_strategy
    droid_proxy.OAuth.Pool.begin lookup droid_proxy.Handlers.Cooldown.add_seconds
    codex_rate_limit_cooldown droid_proxy.Handlers.Cooldown.get_header parse_codex_usage_limit_reset
    retry_after_time coalesce droid_proxy.Handlers.Exchange.is_retryable_codex_status
    droid_proxy.Handlers.Exchange.release droid_proxy.Handlers.Failover.answered
    droid_proxy.Handlers.Failover.attempt_on droid_proxy.Handlers.Failover.codex_auth_replay
    droid_proxy.Handlers.Failover.exhausted droid_proxy.Handlers.Failover.limited_until
    droid_proxy.Handlers.Failover.rate_limited droid_proxy.Handlers.Failover.rejected
    droid_proxy.Handlers.Failover.succeed droid_proxy.Handlers.Failover.unauthorized
    droid_proxy.Handlers.Payload.reasoning_strip_retry_eligible strip_reasoning_input_items
    droid_proxy.OAuth.Account.matches_account droid_proxy.OAuth.Account.parse_rate_limit_reset_at
    droid_proxy.OAuth.Affinity.bind droid_proxy.OAuth.Affinity.bound_path
    droid_proxy.OAuth.Affinity.enforce_max droid_proxy.OAuth.Affinity.erase_first
    droid_proxy.OAuth.Affinity.is_kept droid_proxy.OAuth.Affinity.is_stale
    droid_proxy.OAuth.Affinity.normalize_affinity_id droid_proxy.OAuth.Affinity.prune
    droid_proxy.OAuth.Affinity.save droid_proxy.OAuth.Affinity.unbind
    droid_proxy.OAuth.Pool.bind_conversation droid_proxy.OAuth.Pool.clear_conversation
    droid_proxy.OAuth.Pool.enabled_codex_count droid_proxy.OAuth.Pool.end
    droid_proxy.OAuth.Pool.mark_cooldown droid_proxy.OAuth.Pool.mark_rate_limited
    droid_proxy.OAuth.Pool.mark_unhealthy droid_proxy.OAuth.Pool.modify
    droid_proxy.OAuth.Pool.select_sticky droid_proxy.OAuth.Quota.max_agent_used_percent
    merge_codex_quota droid_proxy.OAuth.Selector.by_quota droid_proxy.OAuth.Selector.fewest
    droid_proxy.OAuth.Selector.is_under droid_proxy.OAuth.Selector.pick_by_quota
    droid_proxy.Prelude.Maps.erase unix droid_proxy.Prelude.Sort.place
    droid_proxy.Prelude.Texts.base droid_proxy.Prelude.Texts.contains
    droid_proxy.Prelude.Texts.equal_fold droid_proxy.Prelude.Texts.ext
    droid_proxy.Prelude.Texts.trim_suffix
test_replay = refl

-- The result of that request.
finished : Reply × Failover
finished =
    (responses_via_codex_failover_total plain_go plain_json plain_request limited_then_fine
      mixed_payload pool).0

finished_lem :
    responses_via_codex_failover plain_go plain_json plain_request limited_then_fine mixed_payload
      pool
    ≡ some (finished.0, finished.1)
unfolding finished
finished_lem =
    (responses_via_codex_failover_total plain_go plain_json plain_request limited_then_fine
      mixed_payload pool).1

responses_via_codex_failover_total_example :
    (x : Reply × Failover) × (responses_via_codex_failover plain_go plain_json plain_request
        limited_then_fine mixed_payload pool
      ≡ some x)
responses_via_codex_failover_total_example =
    responses_via_codex_failover_total plain_go plain_json plain_request limited_then_fine
      mixed_payload pool

others_keep :
    (j : ℕ) (m : Moment) (p : AccountPool) (h : List String)
    → Run plain_go pool [] p h
    → Run plain_go pool [] ((limited_then_fine j).others m p) h
others_keep zero m p h r = r
others_keep (suc j) m p h r = r

failover-Run_example : Run plain_go pool [] finished.1.pool []
failover-Run_example =
    failover-Run plain_go plain_json plain_request limited_then_fine mixed_payload pool []
      others_keep finished_lem

failover-in_flight_example :
    in_flight_of (lookup path_a finished.1.pool.entries) ≡ in_flight_of (lookup path_a pool.entries)
failover-in_flight_example =
    failover-in_flight plain_go plain_json plain_request limited_then_fine mixed_payload pool []
      pool-IsAccounted others_keep finished_lem path_a

header_small :
    some_seconds
      (plain_go.atoi (trim_space (get_header "Retry-After" (("Retry-After", "120") ∷ []))))
    ≤ 9_223_372_036
unfolding get_header trim_space lookup
header_small = omega arith

codex_rate_limit_cooldown_future_example :
    1000 < codex_rate_limit_cooldown plain_go (("Retry-After", "120") ∷ []) none 60 1000
codex_rate_limit_cooldown_future_example =
    codex_rate_limit_cooldown_future plain_go (("Retry-After", "120") ∷ []) none 60 1000
      (omega arith) header_small

no_eligible_accounts-sends_example :
    sends (entering plain_go plain_json plain_request mixed_payload empty_pool) ≡ 0
unfolding responses_via_codex_failover droid_proxy.Handlers.Failover.loop
    droid_proxy.Handlers.Failover.round droid_proxy.OAuth.Pool.select
    droid_proxy.OAuth.Pool.select_from droid_proxy.OAuth.Pool.pinned
    droid_proxy.Prelude.Texts.is_blank droid_proxy.Prelude.Texts.trim_space
    droid_proxy.OAuth.Pool.eligible droid_proxy.Prelude.Sort.sort new_account_pool
    droid_proxy.OAuth.Pool.prune_affinity droid_proxy.OAuth.Pool.seed
    droid_proxy.Handlers.Failover.exhausted
no_eligible_accounts-sends_example =
    no_eligible_accounts-sends plain_go plain_json plain_request limited_then_fine mixed_payload
      empty_pool refl

record_each-coalesce_example :
    IsSameUsage
      (record_each (λ t. "later") noon (token_of path_a "a@x") half_used (half_used ∷ []))
      (with_usage
        (λ t. "later")
        (token_of path_a "a@x")
        path_a
        (coalesce none (half_used ∷ half_used ∷ []))
        none
        noon)
record_each-coalesce_example =
    record_each-coalesce (λ t. "later") noon (token_of path_a "a@x") half_used (half_used ∷ [])

-- An upstream that stays at capacity, and asks for two minutes.
abbrev busy_turn : Turn
busy_turn = record {
  now = noon;
  request_builds = true;
  response =
      some (record (response_of 503 "at capacity") { headers = ("Retry-After", "120") ∷ [] });
  woke = true;
  payload_written = true;
}

request_single_token_bounded_example :
    (x : Reply × Single) × (request_single_token plain_go false true path_a
        (λ i. busy_turn)
        mixed_payload
      ≡ some x)
    × (requests plain_go false true path_a x.1 ≤ 4)
    × All (λ w. w ≤ capacity_retry_max_delay) x.1.waits
request_single_token_bounded_example =
    request_single_token_bounded plain_go false true path_a (λ i. busy_turn) mixed_payload

-- The result of a request that is never authorized.
unauthorized_end : Reply × Failover
unauthorized_end =
    (responses_via_codex_failover_total plain_go plain_json plain_request (λ i. round_of 401 "no")
      mixed_payload pool).0

refreshes_le_example : refreshes path_a unauthorized_end.1 ≤ 1
unfolding unauthorized_end
refreshes_le_example =
    refreshes_le plain_go plain_json plain_request (λ i. round_of 401 "no") mixed_payload pool
      (responses_via_codex_failover_total plain_go plain_json plain_request (λ i. round_of 401 "no")
        mixed_payload pool).1
      path_a
