-- ===== src/Migration/Transaction/Crash.antt =====
-- What CommitTransaction of internal/migration/transaction.go leaves behind when its writes fail or
-- the process ends at any of them: from the journal on.
pub mod Commits
use droid_proxy.Prelude.{
  ◌≡◌, ◌≢◌, refl, sym, ap, Bool, true, false, ◌&&◌, not, Option, none, some, List, [], ◌∷◌, String,
  if◌then◌else◌, str_eq, eq_iff, arith, ◌⊎◌, inl, inr, Bool-cases,
}
use droid_proxy.Prelude.GoLibrary.{GoLibrary}
use droid_proxy.Prelude.Maps.{string_eq, lookup, insert, lookup-insert}
use droid_proxy.Migration.World.{
  File, Target, Record, Status, Answer, Journal, written, World, Outcome, ok, effect, remove,
  write_journal, M, boundary, hash_file, read_private, check_target_trust,
  write_file_preserving_mode, ignore,
}
use droid_proxy.Migration.Targets.{commit_target, remove_staged, cleanup_staged_files, targets}
use droid_proxy.Migration.Journal.{is_in_progress}
use droid_proxy.Migration.Recovery.{TransactionResult, recover_one}
use droid_proxy.Migration.Transaction.{
  Setting, refuse_destination, check_destination, commit_step, commit_targets, mark_complete, run,
}
use droid_proxy.Migration.Rules.{
  quiet, Post, bind-Post, effect-Post, ignore-Post, Post-mono, remove_staged-Post,
}
use droid_proxy.Migration.Recovery.States.{
  IsWaiting, HasNew, intact, IsIntact, IsOld, IsNew, Holds, put, commit_target-effect, put-IsNew,
  put-IsNew_other, put-IsOld_other,
}
use droid_proxy.Migration.Recovery.Coherence.{
  Each, Apart, Changes, CanRecover, IsRecoverable, IsCoherent, Settles, recover_one-Settles,
  recover_one-Settles_intact,
}

-- The journal of `id`, and what becomes of its targets: by the recovery, or as they are.
abbrev pub Safe : GoLibrary → String → World → Type 0
Safe go id w =
    (j : Record) × (lookup id w.journals ≡ some (written j))
    × (((is_in_progress j.status ≡ true) × Settles go j (recover_one go j (quiet w)))
        ⊎ ((is_in_progress j.status ≡ false) × IsCoherent go w j))

-- The same by what the files hold, whatever the private files.
abbrev Sheltered : GoLibrary → String → World → Type 0
Sheltered go id w =
    (j : Record) × (lookup id w.journals ≡ some (written j))
    × (((is_in_progress j.status ≡ true)
          × Each (IsIntact go w) j.config
          × Each (IsIntact go w) j.factory)
        ⊎ ((is_in_progress j.status ≡ false) × IsCoherent go w j))

Sheltered-Safe : (go : GoLibrary) (id : String) (w : World) → Sheltered go id w → Safe go id w
Sheltered-Safe go id w (j, e, inl h) = (j, e, inl (h.0, recover_one-Settles_intact go w j h.1 h.2))
Sheltered-Safe go id w (j, e, inr h) = (j, e, inr h)

-- An open journal that the recovery can work from.
abbrev Open : GoLibrary → String → World → Type 0
Open go id w =
    (j : Record) × (lookup id w.journals ≡ some (written j))
    × (is_in_progress j.status ≡ true)
    × IsRecoverable go w j

Open-Safe : (go : GoLibrary) (id : String) (w : World) → Open go id w → Safe go id w
Open-Safe go id w (j, e, p, h) = (j, e, inl (p, recover_one-Settles go w j h))

abbrev marked : Target → Target
marked t = record t { committed = true }

marked-IsNew : (go : GoLibrary) (w : World) (t : Target) → IsNew go w t → IsNew go w (marked t)
marked-IsNew go w t h = record { file = h.file; usable = h.usable; holds = h.holds }

all-IsIntact :
    (go : GoLibrary) (w : World) (o : Option Target) → Each (IsOld go w) o → Each (IsIntact go w) o
all-IsIntact go w none h = tt
all-IsIntact go w (some t) h = intact go w t h

all-IsOld :
    (go : GoLibrary) (w : World) (o : Option Target)
    → Each (IsOld go w) o
    → Each (λ t. IsOld go w t ⊎ IsNew go w t) o
all-IsOld go w none h = tt
all-IsOld go w (some t) h = inl h

new-Holds :
    (go : GoLibrary) (w : World) (o : Option Target)
    → Each (IsNew go w) o
    → Each (λ t. Holds go w t t.new_hash) o
new-Holds go w none h = tt
new-Holds go w (some t) h = (h.file, h.usable.found, h.holds)

old-Holds :
    (go : GoLibrary) (w : World) (o : Option Target)
    → Each (IsOld go w) o
    → Each (λ t. Holds go w t t.old_hash) o
old-Holds go w none h = tt
old-Holds go w (some t) h = (h.file, h.usable.found, h.holds)

found_written :
    (j : Record) (m : List (String × Journal))
    → lookup j.id (insert j.id (written j) m) ≡ some (written j)
found_written j m = ground (arith, eq_iff j.id j.id, lookup-insert j.id j.id (written j) m)

-- A record whose targets are the two given.
abbrev pub with_targets : Record → Target → Option Target → Record
with_targets r c f = record r { config = some c; factory = f }

-- The journal is written, and the targets are as planned.
abbrev Begun : GoLibrary → Record → Target → Option Target → World → Type 0
Begun go r c f w =
    (lookup r.id w.journals ≡ some (written (with_targets r c f)))
    × IsOld go w c
    × Each (IsOld go w) f

module _ (go : GoLibrary) (x : Setting) (r : Record) (c : Target) (f : Option Target)
    (open_record : is_in_progress r.status ≡ true) (config_changes : Changes c)
    (factory_changes : Each Changes f) (apart : Apart (some c) f) where
  Begun-Open : (w : World) → Begun go r c f w → Open go r.id w
  Begun-Open w (e, h, k) = (
    with_targets r c f,
    e,
    open_record,
    record {
      config_found = inl h;
      factory_found = all-IsOld go w f k;
      config_changes = config_changes;
      factory_changes = factory_changes;
      apart = apart;
    },
  )

  Begun-Sheltered : (w : World) → Begun go r c f w → Sheltered go r.id w
  Begun-Sheltered w (e, h, k) =
      (with_targets r c f, e, inl (open_record, intact go w c h, all-IsIntact go w f k))

  refuse-Post :
      (w : World)
      → Begun go r c f w
      → Post (λ u. Begun go r c f) (Sheltered go r.id) (refuse_destination (with_targets r c f) w)
  unfolding refuse_destination write_journal cleanup_staged_files
  refuse-Post w b =
      let P = Sheltered go r.id in
      let j = record (with_targets r c f) { status = Status.aborted; aborted_at = w.clock } in
      bind-Post (λ u. P) (λ u. Begun go r c f) P _ _
        (ignore-Post P P _ w (λ v k. k)
          (effect-Post (λ u. P) P _ w
            (λ rest. (
              j,
              found_written j w.journals,
              inr (refl, inl (old-Holds go w (some c) b.1, old-Holds go w f b.2)),
            ))
            (λ rest. Begun-Sheltered w b)))
        (λ u v k.
          bind-Post (λ u. P) (λ u. Begun go r c f) P _ _
            (remove_staged-Post P (λ v m rest k. k) (targets (with_targets r c f)) v k)
            (λ u v k. k))

  check_destination-Post :
      (w : World)
      → Begun go r c f w
      → Post (λ u. Begun go r c f) (Safe go r.id) (check_destination x (with_targets r c f) w)
  unfolding check_destination
  check_destination-Post w b =
      bind-Post (λ u. Begun go r c f) (λ u. Begun go r c f) (Safe go r.id) _ _
        (effect-Post (λ u. Begun go r c f) (Safe go r.id) _ w (λ rest. b)
          (λ rest. Open-Safe go r.id w (Begun-Open w b)))
        (λ u v k. elim (Bool-cases x.destination_free) [
          | inl e ↦ rw e k
          | inr e ↦ rw e (
              Post-mono (λ u. Begun go r c f) (λ u. Begun go r c f) (Sheltered go r.id)
                (Safe go r.id) _ (λ u v k. k) (Sheltered-Safe go r.id) (refuse-Post v k))
        ])
