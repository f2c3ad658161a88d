-- ===== src/Migration/Transaction/Quiet.antt =====
-- A commit whose writes are all done: the run of CommitTransaction in
-- internal/migration/transaction.go from its record on.
use droid_proxy.Prelude.{
  ◌≡◌, ◌≢◌, refl, ◌∙◌, All, true, false, Option, none, some, List, String, eq_iff, arith,
}
use droid_proxy.Prelude.GoLibrary.{GoLibrary}
use droid_proxy.Prelude.Maps.{string_eq, lookup, insert, lookup-insert}
use droid_proxy.Migration.World.{
  File, Target, Record, Journal, completed, written, World, ok, effect, ignore, write_journal,
}
use droid_proxy.Migration.Targets.{targets}
use droid_proxy.Migration.Recovery.{as_committed, migrated}
use droid_proxy.Migration.Recovery.States.{Usable, IsOld, put, commit_target-quiet}
use droid_proxy.Migration.Rules.{quiet, cleanup_quiet}
use droid_proxy.Migration.Transaction.{
  Setting, run, check_destination, commit_step, commit_targets, mark_complete,
}

-- A target whose file is as it was planned, with its backup and its staged content at hand.
pub record IsFiled (go : GoLibrary) (w : World) (kept : List (String × String)) (t : Target)
    : Type 0 where
  pub original : File
  pub usable : Usable w.files t.path original
  pub holds : go.sha256_hex original.content ≡ t.old_hash
  pub content : String
  pub found_staged : lookup t.staged_path kept ≡ some content
  pub staged_hash : go.sha256_hex content ≡ t.new_hash
  pub found_backup : lookup t.backup_path kept ≡ some original.content
  pub unmarked : t.committed ≡ false
  pub changes : t.old_hash ≢ t.new_hash

-- The file of the target with the staged content.
abbrev pub new_file :
    (go : GoLibrary) (w : World) (kept : List (String × String)) (t : Target)
    → IsFiled go w kept t
    → File
new_file go w kept t h = record h.original { content = h.content }

waiting :
    (go : GoLibrary) (w v : World) (t : Target) (h : IsFiled go w v.private_files t)
    → lookup t.path v.files ≡ lookup t.path w.files
    → IsOld go v t
waiting go w v t h same = record {
  file = h.original;
  usable = record {
    found = same ∙ h.usable.found;
    not_symlink = h.usable.not_symlink;
    regular = h.usable.regular;
    not_linked = h.usable.not_linked;
    owned = h.usable.owned;
    readable = h.usable.readable;
  };
  holds = h.holds;
  staged = h.content;
  found_staged = h.found_staged;
  staged_hash = h.staged_hash;
  unmarked = h.unmarked;
}

-- The completed record.
abbrev pub of_targets : Record → Option Target → Option Target → Record
of_targets r c f = record r { config = c; factory = f }

abbrev pub marked : Record → Option Target → Option Target → Record
marked r c f = of_targets r (as_committed c) (as_committed f)

abbrev pub done : Record → String → Option Target → Option Target → Record
done r now c f = record (marked r c f) { status = completed; completed_at = now }

abbrev pub Unstaged : String → Target → Type 0
Unstaged p t = t.staged_path ≢ p

lookup_same :
    (id : String) (j : Journal) (m : List (String × Journal)) → lookup id (insert id j m) ≡ some j
lookup_same id j m = ground (arith, eq_iff id id, lookup-insert id id j m)

commit_step-quiet :
    (go : GoLibrary) (mark : Option Target → Record) (t : Target) (v : World) (old : IsOld go v t)
    → let r = mark (as_committed (some t)) in
      commit_step go mark (some t) (quiet v)
      ≡ (ok r, quiet (record (put go v t old) { journals = insert r.id (written r) v.journals }))
unfolding commit_step effect ignore write_journal
commit_step-quiet go mark t v old = rw (commit_target-quiet go v t old) refl

-- What the end of a run leaves.
abbrev Completed : Record → World → Type 0
Completed r v =
    let d = record r { status = completed; completed_at = v.clock } in
    (m : List (String × String)) × (mark_complete r (quiet v) ≡ (
      ok record { id = r.id; action = migrated },
      quiet (record v { private_files = m; journals = insert r.id (written d) v.journals }),
    ))
    × ((p : String)
        → All (λ t. t.staged_path ≢ p) (targets r)
        → lookup p m ≡ lookup p v.private_files)

mark_complete-quiet : (r : Record) (v : World) → Completed r v
unfolding mark_complete effect write_journal
mark_complete-quiet r v =
    let d = record r { status = completed; completed_at = v.clock } in
    let (m, e, k) = cleanup_quiet r (record v { journals = insert r.id (written d) v.journals }) in
    (m, rw e refl, k)

-- What a run leaves: the journal, the files and the private files that are no staged ones.
pub record Ran (go : GoLibrary) (x : Setting) (w : World) (kept : List (String × String))
    (r : Record) (c f : Option Target) (files : List (String × File)) : Type 0 where
  pub after : World
  pub ran :
      run go x (of_targets r c f) (quiet (record w { private_files = kept }))
      ≡ (ok record { id = r.id; action = migrated }, quiet after)
  pub journal : lookup r.id after.journals ≡ some (written (done r w.clock c f))
  pub same_files : after.files ≡ files
  pub private :
      (p : String)
      → All (Unstaged p) (targets (marked r c f))
      → lookup p after.private_files ≡ lookup p kept

module _ (go : GoLibrary) (x : Setting) (w : World) (kept : List (String × String)) (r : Record)
    (free : x.destination_free ≡ true) (c : Target) (h : IsFiled go w kept c) where
  abbrev pub first_files : List (String × File)
  first_files = insert c.path (new_file go w kept c h) w.files

  abbrev j1 : Option Target → Journal
  j1 f = written (of_targets r (some c) f)

  abbrev j2 : Option Target → Journal
  j2 f = written (of_targets r (as_committed (some c)) f)

  config_committed :
      (v : World) (old : IsOld go v c)
      → commit_targets go (of_targets r (some c) none) (quiet v) ≡ (
        ok (marked r (some c) none),
        quiet (record (put go v c old) { journals = insert r.id (j2 none) v.journals }),
      )
  unfolding commit_targets commit_step
  config_committed v old = rw (commit_step-quiet go (λ t. of_targets r t none) c v old) refl

  pub run-config : Ran go x w kept r (some c) none first_files
  unfolding run write_journal effect check_destination waiting
  run-config =
      let v = record w { private_files = kept; journals = insert r.id (j1 none) w.journals } in
      let old = waiting go w v c h refl in
      let u = record (put go v c old) { journals = insert r.id (j2 none) v.journals } in
      let s = marked r (some c) none in
      let committed : commit_targets go (of_targets r (some c) none) (quiet v) ≡ (ok s, quiet u) =
        config_committed v old in
      let (m, e, k) = mark_complete-quiet s u in
      record {
        after = record u {
          private_files = m;
          journals = insert r.id (written (done r w.clock (some c) none)) u.journals;
        };
        ran = rw free (rw committed e);
        journal = lookup_same r.id (written (done r w.clock (some c) none)) _;
        same_files = refl;
        private = k;
      }

  module _ (t : Target) (k : IsFiled go w kept t) (apart : c.path ≢ t.path) where
    abbrev pub both_files : List (String × File)
    both_files = insert t.path (new_file go w kept t k) first_files

    first_other : lookup t.path first_files ≡ lookup t.path w.files
    first_other = ground (
      arith,
      apart,
      eq_iff c.path t.path,
      lookup-insert c.path t.path (new_file go w kept c h) w.files,
    )

    both_committed :
        (v : World) (old : IsOld go v c)
        → let u = record (put go v c old) { journals = insert r.id (j2 (some t)) v.journals } in
          (old2 : IsOld go u t)
          → let s = marked r (some c) (some t) in
            commit_targets go (of_targets r (some c) (some t)) (quiet v) ≡ (
              ok s,
              quiet (record (put go u t old2) { journals = insert r.id (written s) u.journals }),
            )
    unfolding commit_targets
    both_committed v old old2 =
        let u = record (put go v c old) { journals = insert r.id (j2 (some t)) v.journals } in
        let s = of_targets r (as_committed (some c)) (some t) in
        rw (commit_step-quiet go (λ o. of_targets r o (some t)) c v old)
          (commit_step-quiet go (λ o. record s { factory = o }) t u old2)

    pub run-both : Ran go x w kept r (some c) (some t) both_files
    unfolding run write_journal effect check_destination waiting
    run-both =
        let f : Option Target = some t in
        let v = record w { private_files = kept; journals = insert r.id (j1 f) w.journals } in
        let old = waiting go w v c h refl in
        let u = record (put go v c old) { journals = insert r.id (j2 f) v.journals } in
        let old2 = waiting go w u t k first_other in
        let s = marked r (some c) f in
        let y = record (put go u t old2) { journals = insert r.id (written s) u.journals } in
        let committed = both_committed v old old2 in
        let (m, e, l) = mark_complete-quiet s y in
        let d = written (done r w.clock (some c) f) in
        record {
          after = record y { private_files = m; journals = insert r.id d y.journals };
          ran = rw free (rw committed e);
          journal = lookup_same r.id d _;
          same_files = refl;
          private = l;
        }
