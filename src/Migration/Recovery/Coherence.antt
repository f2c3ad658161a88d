-- ===== src/Migration/Recovery/Coherence.antt =====
-- Where recoverOne of internal/migration/transaction.go takes an interrupted migration when every
-- write is done.
use droid_proxy.Prelude.{
  ◌≡◌, ◌≢◌, refl, sym, true, false, Option, none, some, List, String, eq_iff, arith, ◌⊎◌, inl, inr,
}
use droid_proxy.Prelude.GoLibrary.{GoLibrary}
use droid_proxy.Prelude.Maps.{string_eq, lookup, insert, lookup-insert}
use droid_proxy.Migration.World.{
  File, Target, Record, Status, written, World, Outcome, ok, effect, write_journal,
}
use droid_proxy.Migration.Targets.{target_old, target_new, assess, assess_target}
use droid_proxy.Migration.Journal.{is_in_progress}
use droid_proxy.Migration.Recovery.{
  TransactionResult, nothing_done, abort, finish, roll_forward, recover_split_forward, recover_from,
  recover_one, as_committed,
}
use droid_proxy.Migration.Rules.{quiet, cleanup_quiet}
use droid_proxy.Migration.Recovery.States.{
  IsWaiting, HasNew, intact, IsIntact, IsOld, IsNew, Holds, assess_old, assess_new, put, put-IsNew,
  put-IsNew_other, commit_target-quiet,
}

-- Of a target that a record may not have.
abbrev pub Each : (Target → Type 0) → Option Target → Type 0
Each P none = Unit
Each P (some t) = P t

abbrev pub Apart : Option Target → Option Target → Type 0
Apart (some t) (some u) = t.path ≢ u.path
Apart _ _ = Unit

abbrev pub Found : GoLibrary → World → Target → Type 0
Found go w t = IsOld go w t ⊎ IsNew go w t

abbrev pub Changes : Target → Type 0
Changes t = t.old_hash ≢ t.new_hash

-- Every target of the record is as planned or has its new content, and the targets are two files.
pub record CanRecover (go : GoLibrary) (files : List (String × File))
    (kept : List (String × String)) (r : Record) : Type 0 where
  pub config_found : Each (λ t. IsWaiting go files kept t ⊎ HasNew go files t) r.config
  pub factory_found : Each (λ t. IsWaiting go files kept t ⊎ HasNew go files t) r.factory
  pub config_changes : Each Changes r.config
  pub factory_changes : Each Changes r.factory
  pub apart : Apart r.config r.factory

abbrev pub IsRecoverable : GoLibrary → World → Record → Type 0
IsRecoverable go w r = CanRecover go w.files w.private_files r

-- All targets have their old content, or all have their new content.
abbrev pub IsCoherent : GoLibrary → World → Record → Type 0
IsCoherent go w r =
    (Each (λ t. Holds go w t t.old_hash) r.config × Each (λ t. Holds go w t t.old_hash) r.factory)
    ⊎ (Each (λ t. Holds go w t t.new_hash) r.config × Each (λ t. Holds go w t t.new_hash) r.factory)

-- A run that has returned a result, with the targets coherent and the journal out of progress.
pub record Settles (go : GoLibrary) (r : Record) (x : Outcome TransactionResult × World)
    : Type 0 where
  pub result : TransactionResult
  pub returned : x.0 ≡ ok result
  pub coherent : IsCoherent go x.1 r
  pub journal : Record
  pub found_journal : lookup r.id x.1.journals ≡ some (written journal)
  pub settled : is_in_progress journal.status ≡ false

put-Each :
    (go : GoLibrary) (w : World) (t : Target) (h : IsOld go w t) (o : Option Target)
    → Apart (some t) o
    → Each (IsNew go w) o
    → Each (IsNew go (put go w t h)) o
put-Each go w t h none a k = tt
put-Each go w t h (some u) a k = put-IsNew_other go w t u h a k

module _ (go : GoLibrary) (w : World) where
  abort-Settles : (r : Record) → IsCoherent go w r → Settles go r (abort r (quiet w))
  unfolding abort write_journal effect
  abort-Settles r h =
      let j = record r { status = Status.aborted; aborted_at = w.clock } in
      let v = record w { journals = insert r.id (written j) w.journals } in
      let (m, e, kept) = cleanup_quiet r v in
      rw e record {
        result = nothing_done;
        returned = refl;
        coherent = h;
        journal = j;
        found_journal =
            ground (arith, eq_iff r.id r.id, lookup-insert r.id r.id (written j) w.journals);
        settled = refl;
      }

  finish-Settles :
      (r s : Record) → s.id ≡ r.id → IsCoherent go w r → Settles go r (finish s (quiet w))
  unfolding finish write_journal effect
  finish-Settles r s same h =
      let j = record s { status = Status.completed; completed_at = w.clock } in
      let v = record w { journals = insert s.id (written j) w.journals } in
      let (m, e, kept) = cleanup_quiet s v in
      rw e record {
        result = record { id = s.id; action = _ };
        returned = refl;
        coherent = h;
        journal = j;
        found_journal =
            ground (arith, same, eq_iff s.id r.id, lookup-insert s.id r.id (written j) w.journals);
        settled = refl;
      }

  -- What rolling one old target forward gives.
  record Rolled (o : Option Target) : Type 0 where
    after : World
    target : Option Target
    rolled : roll_forward go target_old o (quiet w) ≡ (ok target, quiet after)
    renewed : Each (IsNew go after) o
    others : (p : Option Target) → Apart o p → Each (IsNew go w) p → Each (IsNew go after) p

  roll_old : (o : Option Target) → Each (IsOld go w) o → Rolled o
  unfolding roll_forward
  roll_old none h = record {
    after = w;
    target = none;
    rolled = refl;
    renewed = tt;
    others = λ p a k. k;
  }
  roll_old (some t) h = record {
    after = put go w t h;
    target = some (record t { committed = true });
    rolled = ground (arith, commit_target-quiet go w t h);
    renewed = put-IsNew go w t h;
    others = put-Each go w t h;
  }

  roll_new : (o : Option Target) → roll_forward go target_new o (quiet w) ≡ (ok o, quiet w)
  unfolding roll_forward
  roll_new none = refl
  roll_new (some t) = ground arith

  old-Holds : (o : Option Target) → Each (IsOld go w) o → Each (λ t. Holds go w t t.old_hash) o
  old-Holds none h = tt
  old-Holds (some t) h = (h.file, h.usable.found, h.holds)

  new-Holds : (o : Option Target) → Each (IsNew go w) o → Each (λ t. Holds go w t t.new_hash) o
  new-Holds none h = tt
  new-Holds (some t) h = (h.file, h.usable.found, h.holds)

  abbrev Assessed : Option Target → Type 0
  Assessed o =
      ((assess go w o ≡ target_old) × Each (IsOld go w) o)
      ⊎ ((assess go w o ≡ target_new) × Each (IsNew go w) o)

  assessed : (o : Option Target) → Each Changes o → Each (Found go w) o → Assessed o
  assessed none d h = inl (refl, tt)
  assessed (some t) d (inl h) = inl (assess_old go w t (intact go w t h), h)
  assessed (some t) d (inr h) = inr (assess_new go w t d h, h)

Apart-sym : (o p : Option Target) → Apart o p → Apart p o
Apart-sym none none a = tt
Apart-sym none (some u) a = tt
Apart-sym (some t) none a = tt
Apart-sym (some t) (some u) a = λ e. a (sym e)

module _ (go : GoLibrary) (w : World) (r : Record) (apart : Apart r.config r.factory) where
  split_old_new :
      Each (IsOld go w) r.config
      → Each (IsNew go w) r.factory
      → Settles go r (recover_split_forward go r target_old target_new (quiet w))
  unfolding recover_split_forward
  split_old_new h k =
      let x = roll_old go w r.config h in
      rw (x.rolled) (
        rw (roll_new go x.after r.factory) (
          finish-Settles go x.after r (record r { config = x.target; factory = r.factory }) refl
            (inr (
              new-Holds go x.after r.config x.renewed,
              new-Holds go x.after r.factory (x.others r.factory apart k),
            ))))

  split_new_old :
      Each (IsNew go w) r.config
      → Each (IsOld go w) r.factory
      → Settles go r (recover_split_forward go r target_new target_old (quiet w))
  unfolding recover_split_forward
  split_new_old h k =
      let x = roll_old go w r.factory k in
      rw (roll_new go w r.config) (
        rw (x.rolled) (
          finish-Settles go x.after r (record r { config = r.config; factory = x.target }) refl
            (inr (
              new-Holds go x.after r.config
                  (x.others r.config (Apart-sym r.config r.factory apart) h),
              new-Holds go x.after r.factory x.renewed,
            ))))

  recovered_from :
      Assessed go w r.config
      → Assessed go w r.factory
      → Settles go r (recover_from go r (assess go w r.config) (assess go w r.factory) (quiet w))
  unfolding recover_from
  recovered_from (inl (p, h)) (inl (q, k)) =
      rw (p, q) (abort-Settles go w r (inl (old-Holds go w r.config h, old-Holds go w r.factory k)))
  recovered_from (inl (p, h)) (inr (q, k)) = rw (p, q) (split_old_new h k)
  recovered_from (inr (p, h)) (inl (q, k)) = rw (p, q) (split_new_old h k)
  recovered_from (inr (p, h)) (inr (q, k)) =
      rw (p, q)
        (finish-Settles go w r
          (record r { config = as_committed r.config; factory = as_committed r.factory }) refl
          (inr (new-Holds go w r.config h, new-Holds go w r.factory k)))

pub assess-quiet :
    (go : GoLibrary) (w : World) (o : Option Target) → assess go (quiet w) o ≡ assess go w o
unfolding assess_target
assess-quiet go w none = refl
assess-quiet go w (some t) = refl

assess_intact :
    (go : GoLibrary) (w : World) (o : Option Target)
    → Each (IsIntact go w) o
    → assess go w o ≡ target_old
assess_intact go w none h = refl
assess_intact go w (some t) h = assess_old go w t h

intact-Holds :
    (go : GoLibrary) (w : World) (o : Option Target)
    → Each (IsIntact go w) o
    → Each (λ t. Holds go w t t.old_hash) o
intact-Holds go w none h = tt
intact-Holds go w (some t) h = (h.file, h.usable.found, h.holds)

-- Old targets need no staged content.
pub recover_one-Settles_intact :
    (go : GoLibrary) (w : World) (r : Record)
    → Each (IsIntact go w) r.config
    → Each (IsIntact go w) r.factory
    → Settles go r (recover_one go r (quiet w))
unfolding recover_one recover_from
recover_one-Settles_intact go w r h k =
    rw
      (
        assess-quiet go w r.config,
        assess-quiet go w r.factory,
        assess_intact go w r.config h,
        assess_intact go w r.factory k,
      )
      (abort-Settles go w r (inl (intact-Holds go w r.config h, intact-Holds go w r.factory k)))

pub recover_one-Settles :
    (go : GoLibrary) (w : World) (r : Record)
    → IsRecoverable go w r
    → Settles go r (recover_one go r (quiet w))
unfolding recover_one
recover_one-Settles go w r h =
    rw (assess-quiet go w r.config, assess-quiet go w r.factory)
      (recovered_from go w r h.apart (assessed go w r.config h.config_changes h.config_found)
        (assessed go w r.factory h.factory_changes h.factory_found))
