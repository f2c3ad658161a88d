-- ===== src/Migration/Targets.antt =====
-- One target of a migration: prepareTarget, commitTarget, assessTarget and cleanupStagedFiles in
-- internal/migration/transaction.go, and the targets of a record in internal/migration/journal.go.
use Prim.Native.String.{◌++◌}
use droid_proxy.Prelude.{false, Option, none, some, List, [], ◌∷◌, String, if◌then◌else◌, str_eq}
use droid_proxy.Prelude.GoLibrary.{GoLibrary}
use droid_proxy.Prelude.Maps.{string_eq, lookup}
use droid_proxy.Migration.World.{
  File, Target, Record, World, io, hash_changed, staged_mismatch, M, ◌>>=◌, ◌>>◌, pure, require,
  or_fail, boundary, write_private_file, remove, read_private, hash_file, check_target_trust,
  write_file_preserving_mode,
}

-- `rec.targets()`, in the order of the commits.
abbrev pub present : Option Target → List Target → List Target
present none ts = ts
present (some t) ts = t ∷ ts

unfoldable pub targets : Record → List Target
targets r = present r.config (present r.factory [])

-- `filepath.Join(stateRoot, "backups", txID)`.
abbrev pub backup_dir : String → String → String
backup_dir root id = root ++ "/backups/" ++ id

unfoldable pub prepare_target : GoLibrary → String → String → String → String → String → M Target
prepare_target go path root id name original w =
    (do
      info ← or_fail io (lookup path w.files)
      boundary
      write_private_file (backup_dir root id ++ "/" ++ name) original
      pure record {
        path = path;
        old_hash = go.sha256_hex original;
        new_hash = "";
        backup_path = backup_dir root id ++ "/" ++ name;
        staged_path = backup_dir root id ++ "/" ++ name ++ ".staged";
        mode = info.mode;
        committed = false;
      })
      w

unfoldable pub commit_target : GoLibrary → Target → M (Unit {0})
commit_target go t = do
  check_target_trust t.path
  current ← hash_file go t.path
  require (str_eq current t.old_hash) hash_changed
  staged ← read_private t.staged_path
  require (str_eq (go.sha256_hex staged) t.new_hash) staged_mismatch
  write_file_preserving_mode t.path staged

pub data Assessment : Type 0 where
  target_old : Assessment
  target_new : Assessment
  target_third : Assessment
  target_missing : Assessment
  target_unreadable : Assessment

abbrev pub assess_hash : GoLibrary → Target → Option String → Assessment
assess_hash go t none = target_unreadable
assess_hash go t (some content) =
    if str_eq (go.sha256_hex content) t.old_hash
    then target_old
    else if str_eq (go.sha256_hex content) t.new_hash
    then target_new
    else target_third

abbrev pub assess_file : GoLibrary → Target → Option File → Assessment
assess_file go t none = target_missing
assess_file go t (some f) =
    if f.is_regular
    then assess_hash go t (if f.is_readable then some f.content else none)
    else target_third

-- assessTarget.
unfoldable pub assess_target : GoLibrary → World → Target → Assessment
assess_target go w t = assess_file go t (lookup t.path w.files)

-- The state of a target that a record may not have.
abbrev pub assess : GoLibrary → World → Option Target → Assessment
assess go w none = target_old
assess go w (some t) = assess_target go w t

abbrev pub remove_staged : List Target → M (Unit {0})
remove_staged [] = pure tt
remove_staged (t ∷ ts) =
    let rest = remove_staged ts in
    if str_eq t.staged_path "" then rest else (remove t.staged_path >> rest)

unfoldable pub cleanup_staged_files : Record → M (Unit {0})
cleanup_staged_files r = remove_staged (targets r)
