-- ===== src/Migration/Rollback/Undone.antt =====
-- What the rollback of a migration undoes: RollbackTransactionImpl in
-- internal/migration/transaction.go.
pub mod Commit
use mathlib.Core.Option.{some-injective}
use droid_proxy.Prelude.{
  ◌≡◌, ◌≢◌, refl, sym, subst, ap, ◌∙◌, All, true, false, not, ◌||◌, Option, none, some, List, [],
  ◌∷◌, String, eq_iff, arith, str_eq, inl, inr, Bool-cases, if◌then◌else◌,
}
use droid_proxy.Prelude.GoLibrary.{GoLibrary}
use droid_proxy.Prelude.Maps.{string_eq, lookup, insert, lookup-insert}
use droid_proxy.Migration.World.{
  File, Target, Record, completed, written, World, Outcome, ok, effect, M, check_target_trust,
}
use droid_proxy.Migration.Targets.{targets}
use droid_proxy.Migration.Recovery.{TransactionResult, migrated, as_committed, recover_incomplete}
use droid_proxy.Migration.Recovery.States.{Usable}
use droid_proxy.Migration.Recovery.Settled.{AllSettled, recover_incomplete_settled}
use droid_proxy.Migration.Rules.{quiet}
use droid_proxy.Migration.Transaction.{
  Plan, Setting, has_changes, has_factory, check_factory, run, begin_transaction, commit_plan,
  commit_transaction, prepare,
}
use droid_proxy.Migration.Transaction.Planned.{IsPlanned}
use droid_proxy.Migration.Transaction.Quiet.{
  IsFiled, Ran, done, marked, of_targets, new_file, run-config, run-both, first_files, both_files,
}
use droid_proxy.Migration.Transaction.Filed.{
  IsWanted, trusted, base, config, factory, after_config, after_both, prepare-config, prepare-both,
  config_alone, config_filed, factory_filed, config_alone_file, config_file, factory_file,
  at_name-apart,
}
use droid_proxy.Migration.Rollback.{rollback_transaction, rollback_record, read_journal}
use droid_proxy.Migration.Rollback.Restore.{
  Restorable, IsRestored, OtherPath, AllApart, rollback_record_restores,
}

-- The file of the target has its new content, and the backup is what it had before.
pub record IsMigrated (go : GoLibrary) (w y : World) (t : Target) : Type 0 where
  pub original : File
  pub usable : Usable w.files t.path original
  pub content : String
  pub now : lookup t.path y.files ≡ some (record original { content = content })
  pub holds : go.sha256_hex content ≡ t.new_hash
  pub backup : lookup t.backup_path y.private_files ≡ some original.content
  pub backup_hash : go.sha256_hex original.content ≡ t.old_hash
  pub changes : t.old_hash ≢ t.new_hash

migrated-Restorable :
    (go : GoLibrary) (w y : World) (t : Target) → IsMigrated go w y t → Restorable go y t
migrated-Restorable go w y t h = record {
  file = record h.original { content = h.content };
  usable = record {
    found = h.now;
    not_symlink = h.usable.not_symlink;
    regular = h.usable.regular;
    not_linked = h.usable.not_linked;
    owned = h.usable.owned;
    readable = h.usable.readable;
  };
  holds = h.holds;
  backup = h.original.content;
  found_backup = h.backup;
  backup_hash = h.backup_hash;
  changes = h.changes;
}

all-Restorable :
    (go : GoLibrary) (w y : World) (ts : List Target)
    → All (IsMigrated go w y) ts
    → All (Restorable go y) ts
all-Restorable go w y [] h = tt
all-Restorable go w y (t ∷ ts) (h, hs) =
    (migrated-Restorable go w y t h, all-Restorable go w y ts hs)

-- A restored file is the file that there was.
restored_as_before :
    (go : GoLibrary) (w y z : World) (t : Target)
    → IsMigrated go w y t
    → IsRestored y z t
    → lookup t.path z.files ≡ lookup t.path w.files
restored_as_before go w y z t h (file, backup, e, k, r) =
    let f = some-injective (record h.original { content = h.content }) file (sym h.now ∙ e) in
    let b = some-injective h.original.content backup (sym h.backup ∙ k) in
    r
    ∙ sym (ap (λ (g : File). some (record g { content = backup })) f)
    ∙ sym (ap (λ (c : String). some (record h.original { content = c })) b)
    ∙ sym h.usable.found

same_file :
    (go : GoLibrary) (w y z : World) (p : String) (ts : List Target)
    → All (IsMigrated go w y) ts
    → All (IsRestored y z) ts
    → (All (OtherPath p) ts → lookup p z.files ≡ lookup p w.files)
    → lookup p z.files ≡ lookup p w.files
same_file go w y z p [] h r k = k tt
same_file go w y z p (t ∷ ts) (h, hs) (r, rs) k = elim (Bool-cases (str_eq t.path p)) [
  | inl e ↦
      subst (λ (q : String). lookup q z.files ≡ lookup q w.files) ((eq_iff t.path p).0 e)
        (restored_as_before go w y z t h r)
  | inr e ↦ same_file go w y z p ts hs rs (λ o. k (λ q. absurd (cc (e, (eq_iff t.path p).1 q)), o))
]

-- The files after a migration: the config has its generated content, the factory settings theirs if
-- they are migrated, and all else is as it was.
pub record AreMigrated (go : GoLibrary) (plan : Plan) (w : World) (h : IsPlanned go w plan)
    (wanted : IsWanted plan) (files : List (String × File)) : Type 0 where
  pub new_config :
      lookup plan.config_path files
      ≡ some (record h.config_file { content = wanted.config_content })
  pub new_factory :
      has_factory plan ≡ true
      → lookup plan.factory_path files
        ≡ some (record h.factory_file { content = wanted.factory_content })
  pub others :
      (p : String)
      → plan.config_path ≢ p
      → (has_factory plan ≡ true → plan.factory_path ≢ p)
      → lookup p files ≡ lookup p w.files

-- What a commit leaves whose writes are all done.
pub record Committed (go : GoLibrary) (x : Setting) (plan : Plan) (w : World)
    (h : IsPlanned go w plan) (wanted : IsWanted plan) : Type 0 where
  pub after : World
  pub committed :
      commit_transaction go x plan (quiet w)
      ≡ (ok record { id = x.tx_id; action = migrated }, quiet after)
  pub journal : Record
  pub found : lookup x.tx_id after.journals ≡ some (written journal)
  pub finished : journal.status ≡ completed
  pub all_migrated : All (IsMigrated go w after) (targets journal)
  pub apart : AllApart (targets journal)
  pub others :
      (p : String) → All (OtherPath p) (targets journal) → lookup p after.files ≡ lookup p w.files
  pub files : AreMigrated go plan w h wanted after.files

pub undone :
    (go : GoLibrary) (x : Setting) (plan : Plan) (w : World) (h : IsPlanned go w plan)
    (wanted : IsWanted plan) (c : Committed go x plan w h wanted)
    → (z : World) × (rollback_transaction go x.tx_id (quiet c.after) ≡ (ok tt, z))
      × ((p : String) → lookup p z.files ≡ lookup p w.files)
unfolding rollback_transaction effect read_journal
undone go x plan w h wanted c =
    let ts = targets c.journal in
    let (z, e, r, o, j) =
      rollback_record_restores go c.after c.journal c.finished c.apart
        (all-Restorable go w c.after ts c.all_migrated) in
    (
      z,
      rw (c.found) e,
      λ p. same_file go w c.after z p ts c.all_migrated r (λ a. o p a ∙ c.others p a),
    )
