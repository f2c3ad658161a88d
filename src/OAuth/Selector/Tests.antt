-- ===== src/OAuth/Selector/Tests.antt =====
-- The strategies at concrete lists of accounts.
use droid_proxy.Prelude.{◌≡◌, refl, [], ◌∷◌}
use droid_proxy.Samples.{plain_go, token_of, path_a, path_b, noon}
use droid_proxy.OAuth.Account.{AccountEntry, entry_from_token}
use droid_proxy.OAuth.Selector.{fewest}

abbrev busy : AccountEntry
busy = record (entry_from_token plain_go noon (token_of path_a "a@x")) { in_flight = 2 }

abbrev idle : AccountEntry
idle = record (entry_from_token plain_go noon (token_of path_b "b@x")) { in_flight = 1 }

test_fewest : fewest busy (idle ∷ []) ≡ idle
unfolding fewest
test_fewest = refl
