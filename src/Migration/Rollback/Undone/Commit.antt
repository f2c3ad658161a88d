-- ===== src/Migration/Rollback/Undone/Commit.antt =====
-- A migration and its rollback: CommitTransaction and RollbackTransactionImpl in
-- internal/migration/transaction.go.
use droid_proxy.Prelude.{
  ◌≡◌, refl, ap, ◌∙◌, true, false, Option, none, some, List, String, eq_iff, arith, str_eq, inl,
  inr, Bool-cases, if◌then◌else◌,
}
use droid_proxy.Prelude.GoLibrary.{GoLibrary}
use droid_proxy.Prelude.Maps.{string_eq, lookup, insert, lookup-insert}
use droid_proxy.Migration.World.{File, Target, Record, World, ok, effect}
use droid_proxy.Migration.Targets.{targets}
use droid_proxy.Migration.Recovery.{TransactionResult, migrated}
use droid_proxy.Migration.Recovery.Settled.{AllSettled, recover_incomplete_settled}
use droid_proxy.Migration.Rules.{quiet}
use droid_proxy.Migration.Transaction.{
  Plan, Setting, has_factory, check_factory, run, begin_transaction, commit_plan,
  commit_transaction, prepare,
}
use droid_proxy.Migration.Transaction.Planned.{IsPlanned}
use droid_proxy.Migration.Transaction.Quiet.{
  IsFiled, done, of_targets, new_file, run-config, run-both,
}
use droid_proxy.Migration.Transaction.Filed.{
  IsWanted, trusted, base, config, factory, after_config, after_both, prepare-config, prepare-both,
  config_alone, config_filed, factory_filed, config_alone_file, config_file, factory_file,
  at_name-apart,
}
use droid_proxy.Migration.Rollback.{rollback_transaction}
use droid_proxy.Migration.Rollback.Undone.{IsMigrated, AreMigrated, Committed, undone}

-- A filed target after a run.
filed-IsMigrated :
    (go : GoLibrary) (w y : World) (kept : List (String × String)) (t : Target)
    (h : IsFiled go w kept t)
    → lookup t.path y.files ≡ some (new_file go w kept t h)
    → lookup t.backup_path y.private_files ≡ lookup t.backup_path kept
    → IsMigrated go w y (record t { committed = true })
filed-IsMigrated go w y kept t h e k = record {
  original = h.original;
  usable = h.usable;
  content = h.content;
  now = e;
  holds = h.staged_hash;
  backup = k ∙ h.found_backup;
  backup_hash = h.holds;
  changes = h.changes;
}

found_file :
    (path p : String) (f : File) (m : List (String × File))
    → lookup p (insert path f m) ≡ (if str_eq path p then some f else lookup p m)
found_file path p f m = lookup-insert path p f m

module _ (go : GoLibrary) (x : Setting) (plan : Plan) (w : World) (settled : AllSettled w.journals)
    (h : IsPlanned go w plan) (wanted : IsWanted plan) where
  begins : (v : World) → commit_plan go x plan v ≡ begin_transaction go x plan v
  unfolding commit_plan
  begins v = simp (wanted.changes, wanted.safe) refl

  committed_run :
      (r : Record) (v y : World) (result : TransactionResult)
      → check_factory plan (quiet w) ≡ (ok tt, quiet w)
      → prepare go x plan (quiet w) ≡ (ok r, quiet v)
      → run go x r (quiet v) ≡ (ok result, quiet y)
      → commit_transaction go x plan (quiet w) ≡ (ok result, quiet y)
  unfolding commit_transaction effect begin_transaction
  committed_run r v y result e f g = rw (recover_incomplete_settled go (quiet w) settled) (
      rw (begins (quiet w))
        (rw (trusted plan.config_path (quiet w) h.config_file h.config_usable) (rw e (rw f g))))

  commits-config :
      x.destination_free ≡ true → has_factory plan ≡ false → Committed go x plan w h wanted
  unfolding targets
  commits-config free absent =
      let kept = (after_config go x plan w h wanted).private_files in
      let c = config go x plan w h wanted in
      let filed = config_alone go x plan w h wanted in
      let r = base go x plan w h wanted in
      let ran = run-config go x w kept r free c filed in
      let y = ran.after in
      let looked : (p : String)
          → lookup p y.files
            ≡ (if str_eq c.path p then some (new_file go w kept c filed) else lookup p w.files) =
        λ p.
          ap (lookup p) ran.same_files ∙ found_file c.path p (new_file go w kept c filed) w.files in
      let j = done r w.clock (some c) none in
      record {
        after = y;
        committed =
            committed_run (of_targets r (some c) none) (after_config go x plan w h wanted) y _
              (rw absent refl) (prepare-config go x plan w h wanted absent) ran.ran;
        journal = j;
        found = ran.journal;
        finished = refl;
        all_migrated = (
          filed-IsMigrated go w y kept c filed
              (looked c.path ∙ ground (arith, eq_iff c.path c.path))
              (ran.private c.backup_path (at_name-apart go x "/config.staged" "/config" refl, tt)),
          tt,
        );
        apart = (tt, tt);
        others = λ p o. looked p ∙ ground (arith, eq_iff c.path p, o.0);
        files = record {
          new_config =
              looked c.path
              ∙ ground (arith, eq_iff c.path c.path, config_alone_file go x plan w h wanted);
          new_factory = λ e. absurd (cc (e, absent));
          others = λ p d e. looked p ∙ ground (arith, eq_iff c.path p, d);
        };
      }

  commits-both :
      x.destination_free ≡ true → has_factory plan ≡ true → Committed go x plan w h wanted
  unfolding targets
  commits-both free present =
      let kept = (after_both go x plan w h wanted).private_files in
      let c = config go x plan w h wanted in
      let t = factory go x plan w h wanted in
      let c_filed = config_filed go x plan w h wanted in
      let t_filed = factory_filed go x plan w h wanted present in
      let r = base go x plan w h wanted in
      let ran = run-both go x w kept r free c c_filed t t_filed h.apart in
      let y = ran.after in
      let c_new = new_file go w kept c c_filed in
      let t_new = new_file go w kept t t_filed in
      let looked : (p : String)
          → lookup p y.files ≡ (
              if str_eq t.path p
              then some t_new
              else if str_eq c.path p
              then some c_new
              else lookup p w.files) =
        λ p.
          ap (lookup p) ran.same_files
          ∙ found_file t.path p t_new (insert c.path c_new w.files)
          ∙ ap (λ (o : Option File). if str_eq t.path p then some t_new else o)
              (found_file c.path p c_new w.files) in
      let j = done r w.clock (some c) (some t) in
      record {
        after = y;
        committed =
            committed_run (of_targets r (some c) (some t)) (after_both go x plan w h wanted) y _
              (rw present
                (trusted plan.factory_path (quiet w) h.factory_file (h.factory_usable present)))
              (prepare-both go x plan w h wanted present) ran.ran;
        journal = j;
        found = ran.journal;
        finished = refl;
        all_migrated = (
          filed-IsMigrated go w y kept c c_filed
              (looked c.path ∙ ground (arith, h.apart, eq_iff c.path c.path, eq_iff t.path c.path))
              (ran.private c.backup_path (
                at_name-apart go x "/config.staged" "/config" refl,
                (at_name-apart go x "/factory.staged" "/config" refl, tt),
              )),
          (
            filed-IsMigrated go w y kept t t_filed
                (looked t.path ∙ ground (arith, eq_iff t.path t.path))
                (ran.private t.backup_path (
                  at_name-apart go x "/config.staged" "/factory" refl,
                  (at_name-apart go x "/factory.staged" "/factory" refl, tt),
                )),
            tt,
          ),
        );
        apart = ((h.apart, tt), (tt, tt));
        others = λ p o.
            let (d, (e, u)) = o in
            looked p ∙ ground (arith, eq_iff c.path p, eq_iff t.path p, d, e);
        files = record {
          new_config =
              looked c.path
              ∙ ground (
                arith,
                h.apart,
                eq_iff c.path c.path,
                eq_iff t.path c.path,
                config_file go x plan w h wanted,
              );
          new_factory = λ e.
              looked t.path
              ∙ ground (arith, eq_iff t.path t.path, factory_file go x plan w h wanted present);
          others =
              λ p d e. looked p ∙ ground (arith, eq_iff c.path p, eq_iff t.path p, d, e present);
        };
      }

  commits : x.destination_free ≡ true → Committed go x plan w h wanted
  commits free = elim (Bool-cases (has_factory plan)) [
    | inl e ↦ commits-both free e
    | inr e ↦ commits-config free e
  ]

  -- Take a world whose journals can all be read and are none of them in progress; a plan that
  -- matches its files, which are two, has something to migrate, and whose new contents have other
  -- hashes than the old ones; a free destination; and a system that does every write. Then
  -- CommitTransaction returns that it migrated, under the id of the transaction; the config has
  -- its generated content, the factory settings theirs if they are migrated, and all else of the
  -- files is as it was. And RollbackTransaction of that id after it returns without an error and
  -- leaves every file of the user as it was before the migration.
  pub rollback-commit :
      x.destination_free ≡ true
      → (y : World) × (commit_transaction go x plan (quiet w)
          ≡ (ok record { id = x.tx_id; action = migrated }, y))
        × AreMigrated go plan w h wanted y.files
        × ((z : World) × (rollback_transaction go x.tx_id y ≡ (ok tt, z))
            × ((p : String) → lookup p z.files ≡ lookup p w.files))
  rollback-commit free =
      let c = commits free in (quiet c.after, c.committed, c.files, undone go x plan w h wanted c)
