-- ===== src/Migration/Recovery/States.antt =====
-- The states that an interrupted migration leaves a target in, and how assessTarget and commitTarget
-- of internal/migration/transaction.go meet them.
use droid_proxy.Prelude.{◌≡◌, ◌≢◌, true, false, some, List, String, eq_iff, arith}
use droid_proxy.Prelude.GoLibrary.{GoLibrary}
use droid_proxy.Prelude.Maps.{string_eq, lookup, insert, lookup-insert}
use droid_proxy.Migration.World.{
  File, Target, World, ok, effect, hash_file, read_private, check_target_trust,
  write_file_preserving_mode,
}
use droid_proxy.Migration.Targets.{commit_target, assess_target, target_old, target_new}
use droid_proxy.Migration.Rules.{quiet}

-- A file that a migration may replace.
pub record Usable (files : List (String × File)) (path : String) (f : File) : Type 0 where
  pub found : lookup path files ≡ some f
  pub not_symlink : f.is_symlink ≡ false
  pub regular : f.is_regular ≡ true
  pub not_linked : f.has_link_above ≡ false
  pub owned : f.is_owned ≡ true
  pub readable : f.is_readable ≡ true

-- The target has its old content.
pub record HasOld (go : GoLibrary) (files : List (String × File)) (t : Target) : Type 0 where
  pub file : File
  pub usable : Usable files t.path file
  pub holds : go.sha256_hex file.content ≡ t.old_hash

-- The target has its old content, with its staged content at hand, and is not marked as committed.
pub record IsWaiting (go : GoLibrary) (files : List (String × File)) (kept : List (String × String))
    (t : Target) : Type 0 where
  pub file : File
  pub usable : Usable files t.path file
  pub holds : go.sha256_hex file.content ≡ t.old_hash
  pub staged : String
  pub found_staged : lookup t.staged_path kept ≡ some staged
  pub staged_hash : go.sha256_hex staged ≡ t.new_hash
  pub unmarked : t.committed ≡ false

-- The target has its new content.
pub record HasNew (go : GoLibrary) (files : List (String × File)) (t : Target) : Type 0 where
  pub file : File
  pub usable : Usable files t.path file
  pub holds : go.sha256_hex file.content ≡ t.new_hash

abbrev pub IsIntact : GoLibrary → World → Target → Type 0
IsIntact go w t = HasOld go w.files t

abbrev pub IsOld : GoLibrary → World → Target → Type 0
IsOld go w t = IsWaiting go w.files w.private_files t

abbrev pub IsNew : GoLibrary → World → Target → Type 0
IsNew go w t = HasNew go w.files t

pub intact : (go : GoLibrary) (w : World) (t : Target) → IsOld go w t → IsIntact go w t
intact go w t h = record { file = h.file; usable = h.usable; holds = h.holds }

-- The content of the target's file has this hash.
abbrev pub Holds : GoLibrary → World → Target → String → Type 0
Holds go w t hash = (f : File) × (lookup t.path w.files ≡ some f) × (go.sha256_hex f.content ≡ hash)

pub assess_old :
    (go : GoLibrary) (w : World) (t : Target) → IsIntact go w t → assess_target go w t ≡ target_old
unfolding assess_target
assess_old go w t h = ground (arith, eq_iff (go.sha256_hex h.file.content) t.old_hash)

pub assess_new :
    (go : GoLibrary) (w : World) (t : Target)
    → t.old_hash ≢ t.new_hash
    → IsNew go w t
    → assess_target go w t ≡ target_new
unfolding assess_target
assess_new go w t d h = ground (
  arith,
  d,
  eq_iff (go.sha256_hex h.file.content) t.old_hash,
  eq_iff (go.sha256_hex h.file.content) t.new_hash,
)

-- The world after the commit of an old target.
abbrev pub put : (go : GoLibrary) (w : World) (t : Target) → IsOld go w t → World
put go w t h = record w { files = insert t.path (record h.file { content = h.staged }) w.files }

-- The commit of an old target is one write.
pub commit_target-effect :
    (go : GoLibrary) (w : World) (t : Target) (h : IsOld go w t)
    → commit_target go t w
      ≡ effect
          (λ u. record u { files = insert t.path (record h.file { content = h.staged }) u.files })
          w
unfolding commit_target check_target_trust hash_file read_private write_file_preserving_mode
commit_target-effect go w t h = ground (
  arith,
  eq_iff (go.sha256_hex h.file.content) t.old_hash,
  eq_iff (go.sha256_hex h.staged) t.new_hash,
)

pub commit_target-quiet :
    (go : GoLibrary) (w : World) (t : Target) (h : IsOld go w t)
    → commit_target go t (quiet w) ≡ (ok tt, quiet (put go w t h))
unfolding effect
commit_target-quiet go w t h = rw (commit_target-effect go (quiet w) t h)

pub put-IsNew :
    (go : GoLibrary) (w : World) (t : Target) (h : IsOld go w t) → IsNew go (put go w t h) t
put-IsNew go w t h = record {
  file = record h.file { content = h.staged };
  usable = ground (
    arith,
    eq_iff t.path t.path,
    lookup-insert t.path t.path (record h.file { content = h.staged }) w.files,
  );
  holds = h.staged_hash;
}

-- A commit leaves the other target alone.
module _ (go : GoLibrary) (w : World) (t u : Target) (h : IsOld go w t)
    (apart : t.path ≢ u.path) where
  put_other : lookup u.path (put go w t h).files ≡ lookup u.path w.files
  put_other = ground (
    arith,
    apart,
    eq_iff t.path u.path,
    lookup-insert t.path u.path (record h.file { content = h.staged }) w.files,
  )

  pub put-IsOld_other : IsOld go w u → IsOld go (put go w t h) u
  put-IsOld_other k = record {
    file = k.file;
    usable = ground (arith, put_other, k.usable);
    holds = k.holds;
    staged = k.staged;
    found_staged = k.found_staged;
    staged_hash = k.staged_hash;
    unmarked = k.unmarked;
  }

  pub put-IsNew_other : IsNew go w u → IsNew go (put go w t h) u
  put-IsNew_other k = record {
    file = k.file;
    usable = ground (arith, put_other, k.usable);
    holds = k.holds;
  }
