-- ===== src/Migration/Transaction.antt =====
-- The commit of a migration: CommitTransaction in internal/migration/transaction.go, and HasChanges
-- in internal/migration/plan.go.
pub mod Planned
pub mod Crash
pub mod Survival
pub mod Quiet
pub mod Filed
use droid_proxy.Prelude.{
  ℕ, zero, suc, ◌<◌, Bool, true, false, not, ◌&&◌, ◌||◌, Option, none, some, List, [], ◌∷◌, String,
  if◌then◌else◌, ltb,
}
use droid_proxy.Prelude.Numbers.{ℤ}
use droid_proxy.Prelude.GoLibrary.{GoLibrary}
use droid_proxy.Migration.World.{
  Target, in_progress, completed, aborted, Record, World, unsafe_factory, not_eligible,
  destination_unavailable, M, ◌>>=◌, ◌>>◌, pure, fail, or_fail, boundary, ignore,
  write_private_file, write_journal, check_target_trust,
}
use droid_proxy.Migration.Targets.{prepare_target, commit_target, cleanup_staged_files}
use droid_proxy.Migration.Recovery.{
  migrated, TransactionResult, nothing_done, is_no_op, now_iso, recover_incomplete,
}

-- A plan, with the texts that generateStagedConfig and generateStagedFactory make of it; `none` for
-- an error of theirs.
pub record Plan : Type 0 where
  pub config_path : String
  pub config_eligible : Bool
  pub config_raw : String
  pub staged_config : Option String
  pub host : String
  pub old_port : ℤ
  pub new_port : ℤ
  pub factory_path : String
  pub factory_present : Bool
  -- `len(plan.FactoryChanges)`
  pub factory_changes : ℕ
  pub factory_unsafe : Bool
  pub factory_raw : Option String
  pub staged_factory : Option String

-- What the environment gives to a commit: the state root, the id that generateTxID makes, and the
-- answer of the destination checker (`true` also when there is none).
pub record Setting : Type 0 where
  pub root : String
  pub tx_id : String
  pub destination_free : Bool

unfoldable pub has_changes : Plan → Bool
has_changes plan = plan.config_eligible || ltb 0 plan.factory_changes

-- `factoryAbs != ""`.
abbrev pub has_factory : Plan → Bool
has_factory plan = plan.factory_present && ltb 0 plan.factory_changes

abbrev pub check_factory : Plan → M (Unit {0})
check_factory plan = if has_factory plan then check_target_trust plan.factory_path else pure tt

unfoldable pub prepare_raw : GoLibrary → Setting → Plan → Option String → M (Option Target)
prepare_raw go x plan none = pure none
prepare_raw go x plan (some raw) =
    prepare_target go plan.factory_path x.root x.tx_id "factory" raw >>= λ t. pure (some t)

unfoldable pub prepare_factory : GoLibrary → Setting → Plan → M (Option Target)
prepare_factory go x plan =
    if has_factory plan then prepare_raw go x plan plan.factory_raw else pure none

-- Generate the new content of a target and write it beside its backup.
unfoldable pub stage : GoLibrary → Option String → Target → M Target
stage go generated t = do
  content ← or_fail not_eligible generated
  write_private_file t.staged_path content
  pure (record t { new_hash = go.sha256_hex content })

unfoldable pub stage_factory : GoLibrary → Option String → Option Target → M (Option Target)
stage_factory go generated none = pure none
stage_factory go generated (some t) = stage go generated t >>= λ u. pure (some u)

-- Backups and staged files, and the record of the transaction.
unfoldable pub prepare : GoLibrary → Setting → Plan → M Record
prepare go x plan = do
  now ← now_iso
  c ← prepare_target go plan.config_path x.root x.tx_id "config" plan.config_raw
  f ← prepare_factory go x plan
  staged_c ← stage go plan.staged_config c
  staged_f ← stage_factory go plan.staged_factory f
  pure record {
    id = x.tx_id;
    status = in_progress;
    created_at = now;
    completed_at = "";
    aborted_at = "";
    rolled_back_at = "";
    old_port = plan.old_port;
    new_port = plan.new_port;
    host = plan.host;
    config = some staged_c;
    factory = staged_f;
  }

-- A destination that is taken: the journal is kept as aborted.
unfoldable pub refuse_destination : Record → M (Unit {0})
refuse_destination r = do
  now ← now_iso
  ignore (write_journal (record r { status = aborted; aborted_at = now }))
  cleanup_staged_files r
  fail destination_unavailable

-- The destination check.
unfoldable pub check_destination : Setting → Record → M (Unit {0})
check_destination x r = do boundary; if x.destination_free then pure tt else refuse_destination r

-- A boundary, the commit of a target, and the journal with the target marked as committed. The
-- target is put back into the record by `mark`.
unfoldable pub commit_step : GoLibrary → (Option Target → Record) → Option Target → M Record
commit_step go mark none = pure (mark none)
commit_step go mark (some t) = do
  boundary
  commit_target go t
  ignore (write_journal (mark (some (record t { committed = true }))))
  pure (mark (some (record t { committed = true })))

unfoldable pub commit_targets : GoLibrary → Record → M Record
commit_targets go r = do
  s ← commit_step go (λ t. record r { config = t }) r.config
  commit_step go (λ t. record s { factory = t }) s.factory

unfoldable pub mark_complete : Record → M TransactionResult
mark_complete r = do
  boundary
  now ← now_iso
  write_journal (record r { status = completed; completed_at = now })
  cleanup_staged_files r
  pure record { id = r.id; action = migrated }

-- From the record on: the journal, the commits and the end.
unfoldable pub run : GoLibrary → Setting → Record → M TransactionResult
run go x r = do write_journal r; check_destination x r; s ← commit_targets go r; mark_complete s

unfoldable pub begin_transaction : GoLibrary → Setting → Plan → M TransactionResult
begin_transaction go x plan = do
  check_target_trust plan.config_path
  check_factory plan
  r ← prepare go x plan
  run go x r

unfoldable pub commit_plan : GoLibrary → Setting → Plan → M TransactionResult
commit_plan go x plan =
    if not (has_changes plan) || plan.factory_unsafe
    then (if plan.factory_unsafe then fail unsafe_factory else pure nothing_done)
    else begin_transaction go x plan

-- The lock is held throughout; the first call is ensureStateRoot.
unfoldable pub commit_transaction : GoLibrary → Setting → Plan → M TransactionResult
commit_transaction go x plan = do
  boundary
  result ← recover_incomplete go
  if is_no_op result then commit_plan go x plan else pure result
