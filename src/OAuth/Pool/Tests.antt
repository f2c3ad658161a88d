-- ===== src/OAuth/Pool/Tests.antt =====
-- Tests of the pool and the theorems about it at concrete pools.
use mathlib.Core.List.{Permᴰ}
use droid_proxy.Prelude.{
  length, count, ℕ, ◌≡◌, refl, Bool, true, false, Option, none, some, List, [], ◌∷◌, String, arith,
  ◌↔◌, inl, inr, ◌&&◌, ◌≢◌, All, str_eq,
}
use droid_proxy.Prelude.Maps.{string_eq, lookup, insert}
use droid_proxy.Prelude.Numbers.{pos}
use droid_proxy.Prelude.Sort.{sort, place}
use droid_proxy.Samples.{
  plain_go, token_of, two_tokens, used_tokens, path_a, path_b, round_robin_config, sticky_config,
  capped_config, small_store, noon,
}
use droid_proxy.OAuth.Account.{
  Token, AccountEntry, entry_from_token, is_eligible, matches_account, is_excluded,
  account_ineligible_reasons, by_label, refresh_metadata, apply_persisted_rate_limit, update_entry,
}
use droid_proxy.OAuth.Selector.{
  is_under, choose, filter_eligible_by_soft_cap, new_selector, by_quota, pick_by_quota,
}
use droid_proxy.OAuth.Affinity.{bound_path, prune, is_kept, enforce_max}
use droid_proxy.OAuth.Pool.{
  AccountPool, begun, begin, reload, select, new_account_pool, Begun, eligible, entries_of, Entries,
  prune_affinity, seed, pinned, select_from,
}
use droid_proxy.OAuth.Pool.Leases.{in_flight_of, held_of, Tidy, IsAccounted, begin-IsAccounted}
use droid_proxy.OAuth.Pool.Reloading.{IsLast, IsReloaded, reload-IsReloaded}
use droid_proxy.OAuth.Pool.Traces.{
  here, next, begins, reloads, Run-leases, new_account_pool-IsAccounted,
}
use droid_proxy.OAuth.Pool.Eligibility.{MayServe, is_eligible_iff, eligible-eq_of_permᴰ}
use droid_proxy.OAuth.Pool.Selection.{select_sound, select-none_iff, select_soft_cap}
use droid_proxy.OAuth.Pool.Snapshot.{snapshot}
use droid_proxy.OAuth.Pool.Snapshot.Consistency.{snapshot_consistent}
use droid_proxy.OAuth.Pool.Sticky.{select_bound}

abbrev start : AccountPool
start =
    new_account_pool plain_go true noon (λ path. noon) two_tokens round_robin_config none (λ i n. 0)

abbrev sticky_start : AccountPool
sticky_start =
    new_account_pool plain_go true noon (λ path. noon) two_tokens sticky_config (some small_store)
      (λ i n. 0)

abbrev capped_start : AccountPool
capped_start =
    new_account_pool plain_go true noon (λ path. noon) used_tokens capped_config none (λ i n. 0)

start-IsAccounted : IsAccounted start []
start-IsAccounted = new_account_pool-IsAccounted plain_go true noon _ two_tokens _ none _

sticky_start-IsAccounted : IsAccounted sticky_start []
sticky_start-IsAccounted = new_account_pool-IsAccounted plain_go true noon _ two_tokens _ _ _

abbrev pool_of : AccountPool → Begun → AccountPool
pool_of p (begun q) = q
pool_of p _ = p

abbrev leased : AccountPool
leased = pool_of start (begin noon path_a start)

abbrev unwrap : Option AccountEntry → AccountEntry
unwrap (some e) = e
unwrap none = entry_from_token plain_go noon (record {
  kind = "";
  access_token = "a";
  refresh_token = "";
  id_token = "";
  token_type = "Bearer";
  expires_in = pos 3600;
  last_refresh = "";
  base_url = "";
  redirect_uri = "";
  token_endpoint = "";
  auth_kind = "oauth";
  last_seen_at = "";
  expired = "";
  email = "";
  subject = "";
  account_id = "";
  disabled = false;
  codex_quota = none;
  rate_limit_reset_at = "";
  path = "";
})

abbrev entry_a : AccountEntry
entry_a = unwrap (lookup path_a start.entries)

abbrev entry_b : AccountEntry
entry_b = unwrap (lookup path_b sticky_start.entries)

abbrev capped_a : AccountEntry
capped_a = unwrap (lookup path_a capped_start.entries)

start-select : (select plain_go noon "" [] "" start).0 ≡ some entry_a
unfolding new_account_pool prune_affinity seed entry_from_token select select_from pinned eligible
    sort place by_label is_eligible account_ineligible_reasons choose lookup insert new_selector
    filter_eligible_by_soft_cap droid_proxy.Prelude.Texts.is_blank
    droid_proxy.Prelude.Texts.trim_space droid_proxy.OAuth.Account.token_provider
    droid_proxy.Prelude.GoLibrary.to_lower apply_persisted_rate_limit
    droid_proxy.OAuth.Account.persisted_rate_limit_until
    droid_proxy.OAuth.Quota.exhausted_window_reset_at droid_proxy.OAuth.Quota.has_exhausted_window
    is_excluded droid_proxy.OAuth.Account.expiry droid_proxy.OAuth.Account.safe_selector_label
    droid_proxy.Prelude.Texts.str_ltb droid_proxy.OAuth.Selector.normalize_strategy
start-select = refl

capped_select : (select plain_go noon "" [] "" capped_start).0 ≡ some capped_a
unfolding new_account_pool prune_affinity seed entry_from_token select select_from pinned eligible
    sort place by_label is_eligible account_ineligible_reasons choose lookup insert new_selector
    filter_eligible_by_soft_cap by_quota is_under droid_proxy.Prelude.Texts.is_blank
    droid_proxy.Prelude.Texts.trim_space droid_proxy.OAuth.Account.token_provider
    droid_proxy.Prelude.GoLibrary.to_lower apply_persisted_rate_limit
    droid_proxy.OAuth.Account.persisted_rate_limit_until
    droid_proxy.OAuth.Quota.exhausted_window_reset_at droid_proxy.OAuth.Quota.has_exhausted_window
    is_excluded droid_proxy.OAuth.Account.expiry droid_proxy.OAuth.Account.safe_selector_label
    droid_proxy.Prelude.Texts.str_ltb droid_proxy.OAuth.Quota.max_agent_used_percent
    droid_proxy.OAuth.Selector.normalize_strategy
capped_select = refl

entry_b_eligible : is_eligible entry_b [] noon ≡ true
unfolding is_eligible account_ineligible_reasons is_excluded droid_proxy.OAuth.Account.expiry
    new_account_pool prune_affinity seed droid_proxy.OAuth.Account.token_provider
    droid_proxy.Prelude.GoLibrary.to_lower droid_proxy.Prelude.Texts.trim_space insert lookup
    entry_from_token apply_persisted_rate_limit droid_proxy.OAuth.Account.persisted_rate_limit_until
    droid_proxy.OAuth.Quota.exhausted_window_reset_at droid_proxy.OAuth.Quota.has_exhausted_window
entry_b_eligible = refl

entry_b-MayServe : MayServe entry_b [] noon
entry_b-MayServe = (is_eligible_iff entry_b [] noon).0 entry_b_eligible

Run-leases_example :
    (in_flight_of (lookup path_a (reload plain_go true noon (λ path. noon) [] leased).entries)
      ≡ held_of path_a (path_a ∷ []))
    × Tidy (lookup path_a (reload plain_go true noon (λ path. noon) [] leased).entries)
unfolding new_account_pool prune_affinity seed entry_from_token begin lookup insert
    droid_proxy.OAuth.Account.token_provider droid_proxy.Prelude.GoLibrary.to_lower
    droid_proxy.Prelude.Texts.trim_space apply_persisted_rate_limit
    droid_proxy.OAuth.Account.persisted_rate_limit_until
    droid_proxy.OAuth.Quota.exhausted_window_reset_at droid_proxy.OAuth.Quota.has_exhausted_window
Run-leases_example =
    Run-leases plain_go true noon (λ path. noon) two_tokens round_robin_config none (λ i n. 0)
      (next (next here (begins noon path_a refl)) (reloads true noon (λ path. noon) [] refl)) path_a

select_sound_example :
    (lookup entry_a.path start.entries ≡ some entry_a)
    × MayServe entry_a [] noon
    × (matches_account plain_go entry_a "" ≡ true)
select_sound_example =
    select_sound plain_go noon "" [] "" start entry_a start-IsAccounted start-select

select-none_iff_example :
    ((select plain_go noon "c@x" [] "" start).0 ≡ none)
    ↔ All
        (λ e. (is_eligible e [] noon && matches_account plain_go e "c@x") ≡ false)
        (entries_of start.entries)
unfolding new_account_pool prune_affinity new_selector droid_proxy.OAuth.Selector.normalize_strategy
    droid_proxy.Prelude.Texts.trim_space
select-none_iff_example = select-none_iff plain_go noon "c@x" [] "" start tt

select_soft_cap_example :
    All
      (λ x.
        is_eligible x [] noon ≡ true
        → matches_account plain_go x "" ≡ true
        → is_under (capped_start.quota_soft_cap) x ≡ false)
      (entries_of capped_start.entries)
unfolding new_account_pool prune_affinity seed entry_from_token lookup insert is_under
    droid_proxy.OAuth.Quota.max_agent_used_percent droid_proxy.OAuth.Account.token_provider
    droid_proxy.Prelude.GoLibrary.to_lower droid_proxy.Prelude.Texts.trim_space
    apply_persisted_rate_limit droid_proxy.OAuth.Account.persisted_rate_limit_until
    droid_proxy.OAuth.Quota.exhausted_window_reset_at droid_proxy.OAuth.Quota.has_exhausted_window
select_soft_cap_example =
    select_soft_cap plain_go noon "" [] "" capped_start capped_a refl capped_select refl

select_bound_example : select plain_go noon "" [] "two" sticky_start ≡ (some entry_b, sticky_start)
unfolding new_account_pool prune_affinity seed droid_proxy.OAuth.Account.token_provider
    droid_proxy.Prelude.GoLibrary.to_lower droid_proxy.Prelude.Texts.trim_space insert lookup
    entry_from_token apply_persisted_rate_limit droid_proxy.OAuth.Account.persisted_rate_limit_until
    droid_proxy.OAuth.Quota.exhausted_window_reset_at droid_proxy.OAuth.Quota.has_exhausted_window
    prune droid_proxy.OAuth.Affinity.save enforce_max is_kept droid_proxy.OAuth.Affinity.is_stale
    bound_path droid_proxy.OAuth.Affinity.normalize_affinity_id droid_proxy.Prelude.Texts.is_blank
    matches_account
select_bound_example =
    select_bound plain_go noon "" [] "two" sticky_start small_store entry_b sticky_start-IsAccounted
      refl refl refl refl (λ e. cc e) refl entry_b-MayServe refl (inl refl)

leased-IsAccounted : IsAccounted leased (path_a ∷ [])
unfolding begin lookup new_account_pool prune_affinity seed droid_proxy.OAuth.Account.token_provider
    droid_proxy.Prelude.GoLibrary.to_lower droid_proxy.Prelude.Texts.trim_space insert
    entry_from_token apply_persisted_rate_limit droid_proxy.OAuth.Account.persisted_rate_limit_until
    droid_proxy.OAuth.Quota.exhausted_window_reset_at droid_proxy.OAuth.Quota.has_exhausted_window
leased-IsAccounted = begin-IsAccounted start-IsAccounted noon path_a refl

-- The file of the leased account is gone, and a file of another provider is at its path.
abbrev files : List Token
files = record (token_of path_a "a@x") { kind = "xai" } ∷ token_of path_b "c@x" ∷ []

reload-IsReloaded_example :
    (tok : Option Token) × IsLast plain_go path_a files tok
    × IsReloaded path_a
        (lookup path_a leased.entries)
        tok
        (lookup path_a (reload plain_go true noon (λ path. noon) files leased).entries)
unfolding new_account_pool prune_affinity
reload-IsReloaded_example =
    reload-IsReloaded plain_go noon (λ path. noon) true files leased path_a
      leased-IsAccounted.is_map

abbrev swapped : Entries
swapped = (path_a, entry_a) ∷ (path_b, unwrap (lookup path_b start.entries)) ∷ []

eligible-eq_of_permᴰ_example :
    eligible noon [] start ≡ eligible noon [] (record start { entries = swapped })
unfolding new_account_pool prune_affinity seed droid_proxy.OAuth.Account.token_provider
    droid_proxy.Prelude.GoLibrary.to_lower droid_proxy.Prelude.Texts.trim_space insert lookup
    entry_from_token apply_persisted_rate_limit droid_proxy.OAuth.Account.persisted_rate_limit_until
    droid_proxy.OAuth.Quota.exhausted_window_reset_at droid_proxy.OAuth.Quota.has_exhausted_window
eligible-eq_of_permᴰ_example =
    eligible-eq_of_permᴰ start (record start { entries = swapped }) noon [] start-IsAccounted
      (Permᴰ.swap refl refl)

snapshot_consistent_example :
    let s = snapshot noon sticky_start in
    (s.codex_accounts ≡ length s.accounts)
    × (s.eligible_count ≡ count (λ a. a.eligible) s.accounts)
    × (s.eligible_count ≡ length (eligible noon [] sticky_start))
snapshot_consistent_example = snapshot_consistent noon sticky_start
