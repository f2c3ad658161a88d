-- ===== src/OAuth/Account/Runtime.antt =====
-- What a reload of the token file leaves alone in an entry: internal/oauth/pool.go.
use droid_proxy.Prelude.{◌≡◌, true, arith}
use droid_proxy.Prelude.Numbers.{Time}
use droid_proxy.Prelude.GoLibrary.{GoLibrary}
use droid_proxy.OAuth.Account.{
  Token, AccountEntry, apply_persisted_rate_limit, entry_from_token, refresh_metadata,
  update_rate_limit, update_entry,
}

-- The fields that no reload changes: the lease count, the health marks and the key.
pub record SameRuntime (a b : AccountEntry) : Type 0 where
  pub path : a.path ≡ b.path
  pub healthy : a.healthy ≡ b.healthy
  pub unhealthy_until : a.unhealthy_until ≡ b.unhealthy_until
  pub cooldown_until : a.cooldown_until ≡ b.cooldown_until
  pub last_used : a.last_used ≡ b.last_used
  pub in_flight : a.in_flight ≡ b.in_flight

pub apply_persisted_rate_limit-SameRuntime :
    (e : AccountEntry) (now : Time) → SameRuntime (apply_persisted_rate_limit e now) e
unfolding apply_persisted_rate_limit
apply_persisted_rate_limit-SameRuntime e now = ground arith

pub apply_persisted_rate_limit-present :
    (e : AccountEntry) (now : Time)
    → (apply_persisted_rate_limit e now).token_file_present ≡ e.token_file_present
unfolding apply_persisted_rate_limit
apply_persisted_rate_limit-present e now = ground arith

update_rate_limit-SameRuntime :
    (e : AccountEntry) (now : Time) → SameRuntime (update_rate_limit now e) e
unfolding update_rate_limit
update_rate_limit-SameRuntime e now =
    ground (arith, apply_persisted_rate_limit-SameRuntime (record e { rate_limited_until = 0 }) now)

update_rate_limit-present :
    (e : AccountEntry) (now : Time)
    → (update_rate_limit now e).token_file_present ≡ e.token_file_present
unfolding update_rate_limit
update_rate_limit-present e now =
    ground (arith, apply_persisted_rate_limit-present (record e { rate_limited_until = 0 }) now)

module _ (go : GoLibrary) where
  pub update_entry-SameRuntime :
      (e : AccountEntry) (now : Time) (tok : Token) → SameRuntime (update_entry go now e tok) e
  unfolding update_entry refresh_metadata
  update_entry-SameRuntime e now tok =
      ground (arith, update_rate_limit-SameRuntime (refresh_metadata go now e tok) now)

  pub update_entry-present :
      (e : AccountEntry) (now : Time) (tok : Token)
      → (update_entry go now e tok).token_file_present ≡ true
  unfolding update_entry refresh_metadata
  update_entry-present e now tok = update_rate_limit-present (refresh_metadata go now e tok) now

  pub entry_from_token-in_flight :
      (now : Time) (tok : Token) → (entry_from_token go now tok).in_flight ≡ 0
  unfolding entry_from_token
  entry_from_token-in_flight now tok = (apply_persisted_rate_limit-SameRuntime _ now).in_flight

  pub entry_from_token-present :
      (now : Time) (tok : Token) → (entry_from_token go now tok).token_file_present ≡ true
  unfolding entry_from_token
  entry_from_token-present now tok = apply_persisted_rate_limit-present _ now

  pub entry_from_token-path :
      (now : Time) (tok : Token) → (entry_from_token go now tok).path ≡ tok.path
  unfolding entry_from_token
  entry_from_token-path now tok = (apply_persisted_rate_limit-SameRuntime _ now).path
