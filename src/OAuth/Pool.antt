-- ===== src/OAuth/Pool.antt =====
-- The account pool: internal/oauth/pool.go. The map of entries is keyed by token path; its mutex is
-- held through every method, so a method is one step. The clock is an argument: where a method
-- reads it once, an instant, and where it reads it for each new entry, a function of the path.
-- Entries are values here, so the detached copy that Select returns is the entry itself.
pub mod Lookups
pub mod Leases
pub mod Traces
pub mod Eligibility
pub mod Selection
pub mod Sticky
pub mod Snapshot
pub mod Reloading
mod Tests
use droid_proxy.Prelude.{
  ℕ, ◌+◌, ◌-◌, ◌<◌, ◌≡◌, Bool, true, false, not, ◌&&◌, ◌||◌, Option, none, some, List, [], ◌∷◌,
  String, ltb, ◌==◌, if◌then◌else◌, str_eq, length, filter, count, is_none,
}
use droid_proxy.Prelude.Numbers.{Float, Time}
use droid_proxy.Prelude.GoLibrary.{GoLibrary}
use droid_proxy.Prelude.Texts.{is_blank}
use droid_proxy.Prelude.Maps.{string_eq, lookup, insert, erase}
use droid_proxy.Prelude.Sort.{sort}
use droid_proxy.OAuth.Account.{
  Token, AccountEntry, provider_codex, token_provider, entry_from_token, update_entry,
  matches_account, is_excluded, is_eligible, by_label,
}
use droid_proxy.OAuth.Selector.{
  Selector, new_selector, choose, pick_by_quota, filter_eligible_by_soft_cap,
}
use droid_proxy.OAuth.Affinity.{AffinityStore, bound_path, bind, unbind, prune}

abbrev pub Entries : Type 0
Entries = List (String × AccountEntry)

pub record AccountPool : Type 0 where
  pub entries : Entries
  pub selector : Selector
  pub strategy : String
  pub quota_soft_cap : Float
  pub affinity : Option AffinityStore
  pub error_cooldown : ℕ

pub record LoadBalancing : Type 0 where
  pub strategy : String
  pub error_cooldown : ℕ
  pub quota_soft_cap_percent : Float

abbrev pub sticky : String
sticky = "sticky"

-- `if entry, ok := p.entries[path]; ok { … }` with a body that changes the entry in place.
abbrev replace : String → (AccountEntry → AccountEntry) → Option AccountEntry → Entries → Entries
replace path f none m = m
replace path f (some entry) m = insert path (f entry) m

unfoldable pub modify : String → (AccountEntry → AccountEntry) → Entries → Entries
modify path f m = replace path f (lookup path m) m

pub data BeginError : Type 0 where
  account_not_found token_file_removed : BeginError

pub data Begun : Type 0 where
  begun : AccountPool → Begun
  refused : BeginError → Begun

abbrev begin_entry : Time → String → AccountPool → Option AccountEntry → Begun
begin_entry now path p none = refused account_not_found
begin_entry now path p (some entry) =
    if not entry.token_file_present
    then refused token_file_removed
    else begun (record p {
      entries =
          insert path (record entry { in_flight = entry.in_flight + 1; last_used = now }) p.entries;
    })

-- Begin.
unfoldable pub begin : Time → String → AccountPool → Begun
begin now path p = begin_entry now path p (lookup path p.entries)

-- `entry.InFlight--`, clamped to 0.
abbrev end_entry : String → Entries → Option AccountEntry → Entries
end_entry path m none = m
end_entry path m (some entry) =
    let left = entry.in_flight - 1 in
    if left == 0 && not entry.token_file_present
    then erase path m
    else insert path (record entry { in_flight = left }) m

-- End.
unfoldable pub end : String → AccountPool → AccountPool
end path p = record p { entries = end_entry path p.entries (lookup path p.entries) }

unfoldable pub mark_rate_limited : String → Time → AccountPool → AccountPool
mark_rate_limited path until p = record p {
  entries = modify path (λ e. record e { rate_limited_until = until }) p.entries;
}

unfoldable pub mark_cooldown : String → Time → AccountPool → AccountPool
mark_cooldown path until p = record p {
  entries = modify path (λ e. record e { cooldown_until = until }) p.entries;
}

unfoldable pub mark_unhealthy : Time → String → AccountPool → AccountPool
mark_unhealthy now path p = record p {
  entries =
      modify path (λ e. record e { healthy = false; unhealthy_until = now + p.error_cooldown })
        p.entries;
}

unfoldable pub mark_healthy : String → AccountPool → AccountPool
mark_healthy path p = record p {
  entries = modify path (λ e. record e { healthy = true; unhealthy_until = 0 }) p.entries;
}

unfoldable pub clear_rate_limit : String → AccountPool → AccountPool
clear_rate_limit path p = record p {
  entries = modify path (λ e. record e { rate_limited_until = 0 }) p.entries;
}

unfoldable pub clear_cooldown : String → AccountPool → AccountPool
clear_cooldown path p = record p {
  entries = modify path (λ e. record e { cooldown_until = 0 }) p.entries;
}

abbrev is_enabled_codex : String × AccountEntry → Bool
is_enabled_codex (path, e) =
    str_eq e.provider provider_codex && e.token_file_present && not e.disabled

-- EnabledCodexCount.
unfoldable pub enabled_codex_count : AccountPool → ℕ
enabled_codex_count p = count is_enabled_codex p.entries

abbrev entries_of : Entries → List AccountEntry
entries_of [] = []
entries_of ((path, e) ∷ m) = e ∷ entries_of m

-- Eligible, and eligibleLockedAt.
unfoldable pub eligible : Time → List String → AccountPool → List AccountEntry
eligible now exclude p =
    sort by_label (filter (λ e. is_eligible e exclude now) (entries_of p.entries))

abbrev with_path : String → List AccountEntry → Option AccountEntry
with_path path [] = none
with_path path (e ∷ es) = if str_eq e.path path then some e else with_path path es

abbrev bound_or_best : String → List String → List AccountEntry → Option AccountEntry
bound_or_best bound exclude es =
    if not (str_eq bound "") && not (is_excluded exclude bound)
    then elim (with_path bound es) [ some e ↦ some e | none ↦ pick_by_quota es ]
    else pick_by_quota es

-- An entry whose path has no token: a tombstone while a lease is held, and else deleted.
unfoldable pub retire : List (String × Token) → Entries → Entries
retire toks [] = []
retire toks ((path, e) ∷ m) =
    let rest = retire toks m in
    if not (is_none (lookup path toks))
    then (path, e) ∷ rest
    else if ltb 0 e.in_flight
    then (path, record e { token_file_present = false }) ∷ rest
    else rest

abbrev is_valid_entry : Option AccountEntry → Bool
is_valid_entry none = false
is_valid_entry (some e) = str_eq e.provider provider_codex && e.token_file_present

abbrev pruned : Bool → Time → Entries → Option AffinityStore → Option AffinityStore
pruned written now m none = none
pruned written now m (some s) = some (prune written now s (λ path. is_valid_entry (lookup path m)))

unfoldable pub prune_affinity : Bool → Time → AccountPool → AccountPool
prune_affinity written now p = record p { affinity = pruned written now p.entries p.affinity }

module _ (go : GoLibrary) where
  -- selectStickyLocked.
  unfoldable pub select_sticky :
      Option AffinityStore → String → List AccountEntry → List String → Option AccountEntry
  select_sticky none conversation es exclude = none
  select_sticky (some affinity) conversation es exclude =
      bound_or_best (bound_path go affinity conversation) exclude es

  -- The filter of a pinned account; a blank account pins nothing.
  unfoldable pub pinned : String → List AccountEntry → List AccountEntry
  pinned account es = if is_blank account then es else filter (λ e. matches_account go e account) es

  abbrev sticky_choice :
      AccountPool → String → List AccountEntry → List String → Option AccountEntry
  sticky_choice p conversation es exclude =
      if str_eq p.strategy sticky && not (is_blank conversation)
      then select_sticky p.affinity conversation es exclude
      else none

  abbrev chosen_from :
      AccountPool → Option AccountEntry → List AccountEntry → Option AccountEntry × AccountPool
  chosen_from p (some e) es = (some e, p)
  chosen_from p none es =
      let (picked, sel) = choose p.selector es in (picked, record p { selector = sel })

  -- Select, once the list of candidates stands. On the empty list nothing is asked.
  unfoldable pub select_from :
      AccountPool → String → List String → List AccountEntry → Option AccountEntry × AccountPool
  select_from p conversation exclude [] = (none, p)
  select_from p conversation exclude (e ∷ es) =
      let capped = filter_eligible_by_soft_cap (e ∷ es) p.quota_soft_cap in
      chosen_from p (sticky_choice p conversation capped exclude) capped

  -- Select: `none` is ErrNoEligibleAccounts.
  unfoldable pub select :
      Time → String → List String → String → AccountPool → Option AccountEntry × AccountPool
  select now account exclude conversation p =
      select_from p conversation exclude (pinned account (eligible now exclude p))

  abbrev is_codex_token : Token → Bool
  is_codex_token tok = str_eq (token_provider go tok) provider_codex

  -- The map of the new tokens by path: of two tokens with one path the later stays.
  unfoldable pub new_tokens : List Token → List (String × Token) → List (String × Token)
  new_tokens [] m = m
  new_tokens (tok ∷ toks) m =
      new_tokens toks (if is_codex_token tok then insert tok.path tok m else m)

  abbrev updated : Time → (String → Time) → String → Token → Option AccountEntry → AccountEntry
  updated now clock path tok none = entry_from_token go (clock path) tok
  updated now clock path tok (some existing) = update_entry go now existing tok

  -- Add or update the entry of each token.
  unfoldable pub add_or_update : Time → (String → Time) → List (String × Token) → Entries → Entries
  add_or_update now clock [] m = m
  add_or_update now clock ((path, tok) ∷ toks) m =
      add_or_update now clock toks (insert path (updated now clock path tok (lookup path m)) m)

  -- Reload.
  unfoldable pub reload : Bool → Time → (String → Time) → List Token → AccountPool → AccountPool
  reload written now clock tokens p =
      let toks = new_tokens tokens [] in
      prune_affinity written now
        (record p { entries = add_or_update now clock toks (retire toks p.entries) })

  -- seed.
  unfoldable pub seed : (String → Time) → List Token → Entries → Entries
  seed clock [] m = m
  seed clock (tok ∷ toks) m = seed clock toks (
      if is_codex_token tok
      then insert tok.path (entry_from_token go (clock tok.path) tok) m
      else m)

  -- NewAccountPool, with the default selector.
  unfoldable pub new_account_pool :
      Bool
      → Time
      → (String → Time)
      → List Token
      → LoadBalancing
      → Option AffinityStore
      → (ℕ → ℕ → ℕ)
      → AccountPool
  new_account_pool written now clock tokens lb affinity draw =
      let strategy = if str_eq lb.strategy "" then "round-robin" else lb.strategy in
      prune_affinity written now (record {
        entries = seed clock tokens [];
        selector = new_selector strategy draw;
        strategy = strategy;
        quota_soft_cap = lb.quota_soft_cap_percent;
        affinity = affinity;
        error_cooldown = if lb.error_cooldown == 0 then 30_000_000_000 else lb.error_cooldown;
      })

  abbrev bind_if_valid :
      Bool → Time → String → String → AccountPool → Option AffinityStore → AccountPool
  bind_if_valid written now conversation path p none = p
  bind_if_valid written now conversation path p (some s) =
      if str_eq p.strategy sticky && is_valid_entry (lookup path p.entries)
      then record p { affinity = some (bind go written now s conversation path) }
      else p

  -- BindConversation.
  unfoldable pub bind_conversation : Bool → Time → String → String → AccountPool → AccountPool
  bind_conversation written now conversation path p =
      bind_if_valid written now conversation path p p.affinity

  abbrev unbind_if_sticky : Bool → String → AccountPool → Option AffinityStore → AccountPool
  unbind_if_sticky written conversation p none = p
  unbind_if_sticky written conversation p (some s) =
      if str_eq p.strategy sticky
      then record p { affinity = some (unbind go written s conversation) }
      else p

  -- ClearConversation.
  unfoldable pub clear_conversation : Bool → String → AccountPool → AccountPool
  clear_conversation written conversation p = unbind_if_sticky written conversation p p.affinity
