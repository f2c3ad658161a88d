-- ===== src/Migration/Rollback/Restore.antt =====
-- What the rollback of a completed migration gives back: RollbackTransactionImpl in
-- internal/migration/transaction.go.
use droid_proxy.Prelude.{
  ◌≡◌, ◌≢◌, refl, sym, All, true, some, List, [], ◌∷◌, String, arith, eq_iff, str_eq, if◌then◌else◌,
}
use droid_proxy.Prelude.GoLibrary.{GoLibrary}
use droid_proxy.Prelude.Maps.{string_eq, lookup, insert, lookup-insert}
use droid_proxy.Migration.World.{
  File, Target, Record, completed, rolled_back, written, World, ok, effect, read_private,
  check_target_trust, write_file_preserving_mode, write_journal,
}
use droid_proxy.Migration.Targets.{targets, assess_target, target_new}
use droid_proxy.Migration.Journal.{is_completed}
use droid_proxy.Migration.Rollback.{
  verify_targets, restore_target, restore_targets, rollback_record,
}
use droid_proxy.Migration.Rules.{quiet, cleanup_quiet}
use droid_proxy.Migration.Recovery.States.{Usable, assess_new}

-- A migrated target, with its backup at hand.
pub record CanRestore (go : GoLibrary) (files : List (String × File))
    (kept : List (String × String)) (t : Target) : Type 0 where
  pub file : File
  pub usable : Usable files t.path file
  pub holds : go.sha256_hex file.content ≡ t.new_hash
  pub backup : String
  pub found_backup : lookup t.backup_path kept ≡ some backup
  pub backup_hash : go.sha256_hex backup ≡ t.old_hash
  pub changes : t.old_hash ≢ t.new_hash

abbrev pub Restorable : GoLibrary → World → Target → Type 0
Restorable go w t = CanRestore go w.files w.private_files t

-- The files with the backup in place of the content.
abbrev restored : (go : GoLibrary) (w : World) (t : Target) → Restorable go w t → World
restored go w t h = record w {
  files = insert t.path (record h.file { content = h.backup }) w.files;
}

assess-Restorable :
    (go : GoLibrary) (w : World) (t : Target)
    → Restorable go w t
    → assess_target go w t ≡ target_new
assess-Restorable go w t h =
    assess_new go w t h.changes record { file = h.file; usable = h.usable; holds = h.holds }

restore_target-quiet :
    (go : GoLibrary) (w : World) (t : Target) (h : Restorable go w t)
    → restore_target go t (quiet w) ≡ (ok tt, quiet (restored go w t h))
unfolding restore_target read_private check_target_trust write_file_preserving_mode effect
restore_target-quiet go w t h =
    ground (arith, assess-Restorable go (quiet w) t h, eq_iff (go.sha256_hex h.backup) t.old_hash)

lookup-restored :
    (go : GoLibrary) (w : World) (t : Target) (h : Restorable go w t) (p : String)
    → lookup p (restored go w t h).files
      ≡ (if str_eq t.path p then some (record h.file { content = h.backup }) else lookup p w.files)
lookup-restored go w t h p = lookup-insert t.path p (record h.file { content = h.backup }) w.files

restored_other :
    (go : GoLibrary) (w : World) (t u : Target) (h : Restorable go w t)
    → t.path ≢ u.path
    → Restorable go w u
    → Restorable go (restored go w t h) u
restored_other go w t u h apart k = record {
  file = k.file;
  usable = ground (arith, apart, eq_iff t.path u.path, lookup-restored go w t h u.path, k.usable);
  holds = k.holds;
  backup = k.backup;
  found_backup = k.found_backup;
  backup_hash = k.backup_hash;
  changes = k.changes;
}

-- The file of the target is as in `w` but for its content, which is the backup.
abbrev pub IsRestored : World → World → Target → Type 0
IsRestored w y t =
    (file : File) × (backup : String) × (lookup t.path w.files ≡ some file)
    × (lookup t.backup_path w.private_files ≡ some backup)
    × (lookup t.path y.files ≡ some (record file { content = backup }))

abbrev pub OtherPath : String → Target → Type 0
OtherPath p t = t.path ≢ p

-- No two targets are one file.
abbrev pub AllApart : List Target → Type 0
AllApart [] = Unit
AllApart (t ∷ ts) = All (λ u. t.path ≢ u.path) ts × AllApart ts

-- What the two loops over the targets leave.
record Loops (go : GoLibrary) (w : World) (ts : List Target) : Type 0 where
  after : World
  looped : restore_targets go ts (quiet w) ≡ (ok tt, quiet after)
  same_journals : after.journals ≡ w.journals
  all_restored : All (IsRestored w after) ts
  others : (p : String) → All (OtherPath p) ts → lookup p after.files ≡ lookup p w.files

verified :
    (go : GoLibrary) (w : World) (ts : List Target)
    → All (Restorable go w) ts
    → verify_targets go ts (quiet w) ≡ (ok tt, quiet w)
unfolding verify_targets
verified go w [] h = refl
verified go w (t ∷ ts) (h, hs) =
    ground (arith, assess-Restorable go (quiet w) t h, verified go w ts hs)

-- The restoration of one target does not touch those that are apart.
module _ (go : GoLibrary) (w : World) (t : Target) (h : Restorable go w t) where
  still-Restorable :
      (ts : List Target)
      → All (λ u. t.path ≢ u.path) ts
      → All (Restorable go w) ts
      → All (Restorable go (restored go w t h)) ts
  still-Restorable [] a k = tt
  still-Restorable (u ∷ ts) (a, as') (k, ks) =
      (restored_other go w t u h a k, still-Restorable ts as' ks)

  still_restored :
      (y : World) (ts : List Target)
      → All (λ u. t.path ≢ u.path) ts
      → All (IsRestored (restored go w t h) y) ts
      → All (IsRestored w y) ts
  still_restored y [] a k = tt
  still_restored y (u ∷ ts) (a, as') ((file, backup, e, b, k), ks) = (
    (
      file,
      backup,
      ground (arith, a, e, eq_iff t.path u.path, lookup-restored go w t h u.path),
      b,
      k,
    ),
    still_restored y ts as' ks,
  )

  paths_apart : (ts : List Target) → All (λ u. t.path ≢ u.path) ts → All (OtherPath t.path) ts
  paths_apart [] a = tt
  paths_apart (u ∷ ts) (a, as') = (λ e. a (sym e), paths_apart ts as')

  restored_self :
      (y : World)
      → lookup t.path y.files ≡ lookup t.path (restored go w t h).files
      → IsRestored w y t
  restored_self y e = (
    h.file,
    h.backup,
    h.usable.found,
    h.found_backup,
    ground (arith, e, eq_iff t.path t.path, lookup-restored go w t h t.path),
  )

loops :
    (go : GoLibrary) (w : World) (ts : List Target)
    → AllApart ts
    → All (Restorable go w) ts
    → Loops go w ts
unfolding restore_targets
loops go w [] a h = record {
  after = w;
  looped = refl;
  same_journals = refl;
  all_restored = tt;
  others = λ p o. refl;
}
loops go w (t ∷ ts) (a, as') (h, hs) =
    let v = restored go w t h in
    let ih = loops go v ts as' (still-Restorable go w t h ts a hs) in
    record {
      after = ih.after;
      looped = rw (restore_target-quiet go w t h) ih.looped;
      same_journals = ih.same_journals;
      all_restored = (
        restored_self go w t h ih.after (ih.others t.path (paths_apart go w t h ts a)),
        still_restored go w t h ih.after ts a ih.all_restored,
      );
      others =
          λ p o. ground (arith, ih.others p o.1, o.0, eq_iff t.path p, lookup-restored go w t h p);
    }

-- Take a completed record whose targets have their new content, are different files, and have the
-- backups of their old content at hand. When the writes are done, its rollback returns without an
-- error; each target's file is as it was but for its content, which is the backup; every other file
-- of the user is as it was; and the journal holds the record as rolled back.
pub rollback_record_restores :
    (go : GoLibrary) (w : World) (r : Record)
    → r.status ≡ completed
    → AllApart (targets r)
    → All (Restorable go w) (targets r)
    → (y : World) × (rollback_record go r (quiet w) ≡ (ok tt, y))
      × All (IsRestored w y) (targets r)
      × ((p : String) → All (OtherPath p) (targets r) → lookup p y.files ≡ lookup p w.files)
      × ((j : Record) × (lookup r.id y.journals ≡ some (written j))
          × (j.status ≡ rolled_back)
          × (targets j ≡ targets r))
unfolding rollback_record write_journal effect targets
rollback_record_restores go w r done apart h =
    let p : is_completed r.status ≡ true = rw done refl in
    let k = loops go w (targets r) apart h in
    let j = record r { status = rolled_back; rolled_back_at = k.after.clock } in
    let v = record k.after { journals = insert r.id (written j) k.after.journals } in
    let (m, e, kept) = cleanup_quiet r v in
    (
      quiet (record v { private_files = m }),
      rw p (rw (verified go w (targets r) h) (rw (k.looped) (rw e refl))),
      k.all_restored,
      k.others,
      (
        j,
        ground (arith, eq_iff r.id r.id, lookup-insert r.id r.id (written j) k.after.journals),
        refl,
        refl,
      ),
    )
