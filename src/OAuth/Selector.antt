-- ===== src/OAuth/Selector.antt =====
-- Selection strategies and the order by quota: internal/oauth/selector.go and quota_select.go.
-- A selector that keeps a cursor or a source of randomness is returned with its result. `none`
-- stands for ErrNoEligibleAccounts, and also where an index would be out of range, which panics in
-- the source.
pub mod Choices
mod Tests
use droid_proxy.Prelude.{
  ℕ, ◌+◌, ◌%◌, ◌^◌, Bool, true, false, not, ◌&&◌, ◌||◌, Option, none, some, List, [], ◌∷◌, String,
  ltb, ◌==◌, if◌then◌else◌, str_eq, length, get_elem?, filter,
}
use droid_proxy.Prelude.Numbers.{pos, Float, units, ltb_float}
use droid_proxy.Prelude.Texts.{trim_space, str_ltb}
use droid_proxy.Prelude.Sort.{sort}
use droid_proxy.OAuth.Quota.{max_agent_used_percent}
use droid_proxy.OAuth.Account.{AccountEntry}

-- `random` holds the draws of its generator: `draw i n` is the result of the i-th call, `Intn(n)`.
pub data Selector : Type 0 where
  round_robin : (cursor : ℕ) → Selector
  fill_first : Selector
  least_connections : Selector
  random : (draw : ℕ → ℕ → ℕ) → (calls : ℕ) → Selector

unfoldable pub normalize_strategy : String → String
normalize_strategy s = let t = trim_space s in if str_eq t "" then "round-robin" else t

unfoldable pub new_selector : String → (ℕ → ℕ → ℕ) → Selector
new_selector strategy draw =
    let s = normalize_strategy strategy in
    if str_eq s "fill-first"
    then fill_first
    else if str_eq s "least-connections"
    then least_connections
    else if str_eq s "random"
    then random draw 0
    else round_robin 0

-- The loop of LeastConnectionsSelector.Select.
unfoldable pub fewest : AccountEntry → List AccountEntry → AccountEntry
fewest best [] = best
fewest best (e ∷ es) = fewest (if ltb e.in_flight best.in_flight then e else best) es

unfoldable pub choose : Selector → List AccountEntry → Option AccountEntry × Selector
choose sel [] = (none, sel)
choose (round_robin cursor) (e ∷ es) =
    (get_elem? (e ∷ es) (cursor % length (e ∷ es)), round_robin ((cursor + 1) % 2 ^ 64))
choose fill_first (e ∷ es) = (some e, fill_first)
choose least_connections (e ∷ es) = (some (fewest e es), least_connections)
choose (random draw calls) (e ∷ es) =
    (get_elem? (e ∷ es) (draw calls (length (e ∷ es))), random draw (calls + 1))

-- By used percentage, then by selector label, then by path.
unfoldable pub by_quota : AccountEntry → AccountEntry → Bool
by_quota a b =
    let pa = max_agent_used_percent a.quota in
    let pb = max_agent_used_percent b.quota in
    if not (pa == pb)
    then ltb pa pb
    else if not (str_eq a.selector b.selector)
    then str_ltb a.selector b.selector
    else str_ltb a.path b.path

abbrev head_of : List AccountEntry → Option AccountEntry
head_of [] = none
head_of (e ∷ es) = some e

unfoldable pub pick_by_quota : List AccountEntry → Option AccountEntry
pick_by_quota eligible = head_of (sort by_quota eligible)

unfoldable pub is_under : Float → AccountEntry → Bool
is_under soft_cap e = ltb_float (units (pos (max_agent_used_percent e.quota))) soft_cap

abbrev pub is_nil : List AccountEntry → Bool
is_nil [] = true
is_nil (e ∷ es) = false

abbrev is_zero_float : Float → Bool
is_zero_float (units (pos n)) = n == 0
is_zero_float _ = false

-- `softCap <= 0` is false for a NaN.
abbrev pub caps : Float → Bool
caps soft_cap = not (ltb_float soft_cap (units (pos 0)) || is_zero_float soft_cap)

unfoldable pub filter_eligible_by_soft_cap : List AccountEntry → Float → List AccountEntry
filter_eligible_by_soft_cap eligible soft_cap =
    if not (caps soft_cap) || is_nil eligible
    then eligible
    else let under = filter (is_under soft_cap) eligible in
      if is_nil under then sort by_quota eligible else sort by_quota under
