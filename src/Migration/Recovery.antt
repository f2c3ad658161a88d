-- ===== src/Migration/Recovery.antt =====
-- The recovery of an interrupted migration: recoverIncompleteLocked, recoverOne and
-- recoverSplitForward in internal/migration/transaction.go.
pub mod States
pub mod Coherence
pub mod Settled
use droid_proxy.Prelude.{
  Bool, true, false, not, ◌&&◌, ◌||◌, Option, none, some, List, [], ◌∷◌, String, if◌then◌else◌,
}
use droid_proxy.Prelude.GoLibrary.{GoLibrary}
use droid_proxy.Prelude.Maps.{string_eq, lookup}
use droid_proxy.Migration.World.{
  Target, completed, aborted, Record, World, third_hash, target_missing, not_trusted, ok, M, ◌>>=◌,
  ◌>>◌, pure, fail, require, write_journal,
}
use droid_proxy.Migration.Targets.{
  commit_target, Assessment, target_old, target_new, target_third, target_unreadable, assess,
  cleanup_staged_files,
}
use droid_proxy.Migration.Targets
use droid_proxy.Migration.Journal.{is_in_progress, is_trusted_journal, list_journals}

pub data Action : Type 0 where
  migrated : Action
  recovered : Action
  no_op : Action

pub record TransactionResult : Type 0 where
  pub id : String
  pub action : Action

-- `&TransactionResult{Action: "no-op"}`.
abbrev pub nothing_done : TransactionResult
nothing_done = record { id = ""; action = no_op }

abbrev pub is_no_op : TransactionResult → Bool
is_no_op r = elim r.action [ no_op ↦ true | _ ↦ false ]

abbrev pub is_old : Assessment → Bool
is_old target_old = true
is_old _ = false

abbrev pub is_new : Assessment → Bool
is_new target_new = true
is_new _ = false

abbrev pub is_third : Assessment → Bool
is_third target_third = true
is_third _ = false

abbrev pub is_missing : Assessment → Bool
is_missing Assessment.target_missing = true
is_missing _ = false

abbrev pub now_iso : M String
now_iso w = (ok w.clock, w)

abbrev pub as_committed : Option Target → Option Target
as_committed none = none
as_committed (some t) = some (record t { committed = true })

-- Nothing was committed: the transaction is aborted.
unfoldable pub abort : Record → M TransactionResult
abort r = do
  now ← now_iso
  write_journal (record r { status = aborted; aborted_at = now })
  cleanup_staged_files r
  pure nothing_done

-- The end of every recovery that has changed or found changed targets.
unfoldable pub finish : Record → M TransactionResult
finish r = do
  now ← now_iso
  write_journal (record r { status = completed; completed_at = now })
  cleanup_staged_files r
  pure record { id = r.id; action = recovered }

-- Commit a target that is still old and not marked as committed.
unfoldable pub roll_forward : GoLibrary → Assessment → Option Target → M (Option Target)
roll_forward go a none = pure none
roll_forward go a (some t) =
    if not t.committed && is_old a
    then (commit_target go t >> pure (some (record t { committed = true })))
    else pure (some t)

unfoldable pub recover_split_forward :
    GoLibrary → Record → Assessment → Assessment → M TransactionResult
recover_split_forward go r a b =
    if is_third a || is_third b
    then fail third_hash
    else if is_missing a || is_missing b
    then fail target_missing
    else do
      c ← roll_forward go a r.config
      f ← roll_forward go b r.factory
      finish (record r { config = c; factory = f })

unfoldable pub recover_from : GoLibrary → Record → Assessment → Assessment → M TransactionResult
recover_from go r a b =
    if is_old a && is_old b
    then abort r
    else if is_new a && is_new b
    then finish (record r { config = as_committed r.config; factory = as_committed r.factory })
    else recover_split_forward go r a b

unfoldable pub recover_one : GoLibrary → Record → M TransactionResult
recover_one go r w = recover_from go r (assess go w r.config) (assess go w r.factory) w

abbrev pub check_journal : Record → M (Unit {0})
check_journal r w = require (is_trusted_journal (lookup r.id w.journals)) not_trusted w

unfoldable pub recover_each : GoLibrary → List Record → M TransactionResult
recover_each go [] = pure nothing_done
recover_each go (r ∷ rs) =
    let rest = recover_each go rs in
    if is_in_progress r.status
    then (do
      check_journal r
      result ← recover_one go r
      if is_no_op result then rest else pure result)
    else rest

unfoldable pub recover_incomplete : GoLibrary → M TransactionResult
recover_incomplete go = list_journals >>= recover_each go
