-- ===== src/Migration/Rollback.antt =====
-- Rollback of a completed migration: RollbackTransactionImpl and SelectRollbackCandidates in
-- internal/migration/transaction.go.
pub mod Refusal
pub mod Restore
pub mod Candidates
pub mod Undone
use droid_proxy.Prelude.{
  Bool, true, false, Option, none, some, List, [], ◌∷◌, String, if◌then◌else◌, str_eq, filter, map,
}
use droid_proxy.Prelude.GoLibrary.{GoLibrary}
use droid_proxy.Prelude.Texts.{str_ltb}
use droid_proxy.Prelude.Sort.{sort}
use droid_proxy.Prelude.Maps.{string_eq, lookup}
use droid_proxy.Migration.World.{
  Target, rolled_back, Record, Journal, untrusted, malformed, written, World, io, bad_journal,
  not_completed, third_hash, target_missing, backup_mismatch, Outcome, ok, err, crashed, M, ◌>>=◌,
  ◌>>◌, pure, fail, require, boundary, read_private, write_journal, check_target_trust,
  write_file_preserving_mode,
}
use droid_proxy.Migration.Targets.{targets, Assessment, assess_target, cleanup_staged_files}
use droid_proxy.Migration.Journal.{is_completed, config_path, find_journals_by_config}
use droid_proxy.Migration.Recovery.{is_new, is_third, is_missing, now_iso}

abbrev pub read_answer : Option Journal → M Record
read_answer none = fail io
read_answer (some (untrusted r)) = pure r
read_answer (some malformed) = fail bad_journal
read_answer (some (written r)) = pure r

-- readJournal.
unfoldable pub read_journal : String → M Record
read_journal id w = read_answer (lookup id w.journals) w

-- The first loop: no target may be missing or hold something else.
unfoldable pub verify_targets : GoLibrary → List Target → M (Unit {0})
verify_targets go [] w = (ok tt, w)
verify_targets go (t ∷ ts) w =
    let a = assess_target go w t in
    let rest = verify_targets go ts w in
    if is_third a
    then (err third_hash, w)
    else if is_missing a
    then (err target_missing, w)
    else rest

unfoldable pub restore_target : GoLibrary → Target → M (Unit {0})
restore_target go t w =
    if is_new (assess_target go w t)
    then (do
      backup ← read_private t.backup_path
      require (str_eq (go.sha256_hex backup) t.old_hash) backup_mismatch
      check_target_trust t.path
      write_file_preserving_mode t.path backup)
        w
    else (ok tt, w)

-- The second loop.
unfoldable pub restore_targets : GoLibrary → List Target → M (Unit {0})
restore_targets go [] = pure tt
restore_targets go (t ∷ ts) = restore_target go t >> restore_targets go ts

unfoldable pub rollback_record : GoLibrary → Record → M (Unit {0})
rollback_record go r = do
  require (is_completed r.status) not_completed
  verify_targets go (targets r)
  restore_targets go (targets r)
  now ← now_iso
  write_journal (record r { status = rolled_back; rolled_back_at = now })
  cleanup_staged_files r

-- The lock is held throughout; the first call is ensureStateRoot.
unfoldable pub rollback_transaction : GoLibrary → String → M (Unit {0})
rollback_transaction go id = do boundary; r ← read_journal id; rollback_record go r

pub record Candidate : Type 0 where
  pub config_path : String
  pub id : String

abbrev pub candidate : Record → Candidate
candidate r = record { config_path = config_path r; id = r.id }

abbrev pub newer : Candidate → Candidate → Bool
newer a b = str_ltb b.id a.id

abbrev pub then_candidates : Outcome (List Record) → Outcome (List Candidate)
then_candidates (ok rs) = ok (sort newer (map candidate (filter (λ r. is_completed r.status) rs)))
then_candidates (err e) = err e
then_candidates crashed = crashed

unfoldable pub select_rollback_candidates : String → World → Outcome (List Candidate)
select_rollback_candidates path w = then_candidates (find_journals_by_config path w)
