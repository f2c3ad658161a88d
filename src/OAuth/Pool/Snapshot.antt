-- ===== src/OAuth/Pool/Snapshot.antt =====
-- The reports of the pool: Snapshot and snapshotFromEntry in internal/oauth/pool.go.
pub mod Consistency
use droid_proxy.Prelude.{
  ℕ, ◌≡◌, Bool, true, false, not, ◌&&◌, ◌||◌, Option, none, some, List, [], ◌∷◌, String,
  if◌then◌else◌, ◌==◌, str_eq, length, filter, map,
}
use droid_proxy.Prelude.Numbers.{Time, is_after}
use droid_proxy.Prelude.Sort.{sort}
use droid_proxy.OAuth.Quota.{CodexQuota, max_agent_used_percent}
use droid_proxy.OAuth.Account.{
  AccountEntry, Reason, provider_codex, account_ineligible_reasons, by_label, is_empty,
}
use droid_proxy.OAuth.Affinity.{AffinityStore, bound_count_for_path}
use droid_proxy.OAuth.Pool.{AccountPool, entries_of, eligible}

pub record AccountSnapshot : Type 0 where
  pub selector : String
  pub provider : String
  pub eligible : Bool
  -- `none` is the status "eligible"
  pub eligibility_status : Option Reason
  pub eligibility_reasons : List Reason
  pub disabled : Bool
  pub token_file_present : Bool
  pub healthy : Bool
  pub in_flight : ℕ
  pub cooldown_until : Option Time
  pub unhealthy_until : Option Time
  pub rate_limited_until : Option Time
  pub last_used : Option Time
  pub quota : Option CodexQuota
  pub max_used_percent : Option ℕ
  pub rate_limit_reset_at : Option Time
  pub bound_conversation_count : ℕ

pub record PoolSnapshot : Type 0 where
  pub strategy : String
  pub codex_accounts : ℕ
  pub eligible_count : ℕ
  pub bound_conversations : Option ℕ
  pub accounts : List AccountSnapshot

abbrev if_set : Time → Option Time
if_set t = if t == 0 then none else some t

abbrev first_reason : List Reason → Option Reason
first_reason [] = none
first_reason (r ∷ rs) = some r

abbrev used_percent : Option CodexQuota → Option ℕ
used_percent none = none
used_percent (some q) = some (max_agent_used_percent (some q))

abbrev bound_to : Option AffinityStore → String → ℕ
bound_to none path = 0
bound_to (some s) path = bound_count_for_path s path

-- snapshotFromEntry.
unfoldable pub snapshot_from_entry : AccountEntry → Option AffinityStore → Time → AccountSnapshot
snapshot_from_entry entry affinity now =
    let healthy = entry.healthy || not (is_after entry.unhealthy_until now) in
    let reasons = account_ineligible_reasons entry [] now in
    record {
      selector = entry.selector;
      provider = entry.provider;
      eligible = is_empty reasons;
      eligibility_status = first_reason reasons;
      eligibility_reasons = reasons;
      disabled = entry.disabled;
      token_file_present = entry.token_file_present;
      healthy = healthy;
      in_flight = entry.in_flight;
      cooldown_until = if_set entry.cooldown_until;
      unhealthy_until = if healthy then none else if_set entry.unhealthy_until;
      rate_limited_until = if_set entry.rate_limited_until;
      last_used = if_set entry.last_used;
      quota = entry.quota;
      max_used_percent = used_percent entry.quota;
      rate_limit_reset_at = entry.rate_limit_reset_at;
      bound_conversation_count = bound_to affinity entry.path;
    }

abbrev is_codex_entry : AccountEntry → Bool
is_codex_entry e = str_eq e.provider provider_codex

abbrev bindings_of : Option AffinityStore → Option ℕ
bindings_of none = none
bindings_of (some s) = some (length s.entries)

-- Snapshot.
unfoldable pub snapshot : Time → AccountPool → PoolSnapshot
snapshot now p =
    let entries = sort by_label (filter is_codex_entry (entries_of p.entries)) in
    record {
      strategy = p.strategy;
      codex_accounts = length entries;
      eligible_count = length (eligible now [] p);
      bound_conversations = bindings_of p.affinity;
      accounts = map (λ e. snapshot_from_entry e p.affinity now) entries;
    }
