-- ===== src/Migration/Transaction/Filed.antt =====
-- The preparation of a transaction whose writes are all done: prepareTarget and the staging of
-- CommitTransaction in internal/migration/transaction.go.
use Prim.Native.String.{◌++◌}
use droid_proxy.Prelude.{
  ◌≡◌, ◌≢◌, refl, sym, ap, ◌∙◌, true, false, Option, none, some, List, String, eq_iff, arith,
  str_eq, ℕ,
}
use package.text.Mathlib.TextLemmas.{append_cancel_left}
use droid_proxy.Prelude.GoLibrary.{GoLibrary}
use droid_proxy.Prelude.Maps.{string_eq, lookup, insert, lookup-insert, beq-apart}
use droid_proxy.Migration.World.{
  File, Target, Record, in_progress, World, ok, effect, write_private_file, check_target_trust,
}
use droid_proxy.Migration.Targets.{prepare_target, backup_dir}
use droid_proxy.Migration.Rules.{quiet}
use droid_proxy.Migration.Recovery.States.{Usable}
use droid_proxy.Migration.Transaction.{
  Plan, Setting, has_changes, has_factory, prepare_raw, prepare_factory, stage, stage_factory,
  prepare,
}
use droid_proxy.Migration.Transaction.Planned.{IsPlanned}
use droid_proxy.Migration.Transaction.Quiet.{IsFiled, new_file, of_targets}

-- There is something to migrate, nothing speaks against it, and the new contents are generated.
pub record IsWanted (plan : Plan) : Type 0 where
  pub changes : has_changes plan ≡ true
  pub safe : plan.factory_unsafe ≡ false
  pub config_content : String
  pub config_staged : plan.staged_config ≡ some config_content
  pub raw : String
  pub factory_content : String
  pub factory_raw : has_factory plan ≡ true → plan.factory_raw ≡ some raw
  pub factory_staged : has_factory plan ≡ true → plan.staged_factory ≡ some factory_content

lookup_new : (k v : String) (m : List (String × String)) → lookup k (insert k v m) ≡ some v
lookup_new k v m = ground (arith, eq_iff k k, lookup-insert k k v m)

lookup_old :
    (k j v : String) (m : List (String × String)) → k ≢ j → lookup j (insert k v m) ≡ lookup j m
lookup_old k j v m d = ground (arith, d, eq_iff k j, lookup-insert k j v m)

pub trusted :
    (path : String) (w : World) (f : File)
    → Usable w.files path f
    → check_target_trust path w ≡ (ok tt, w)
unfolding check_target_trust
trusted path w f h = rw (h.found, h.not_symlink, h.regular, h.not_linked, h.owned) refl

module _ (go : GoLibrary) (x : Setting) where
  abbrev pub at_name : String → String
  at_name name = backup_dir x.root x.tx_id ++ name

  pub at_name-apart : (s t : String) → str_eq s t ≡ false → at_name s ≢ at_name t
  at_name-apart s t e = λ q. beq-apart s t e (append_cancel_left _ _ _ q)

  -- A target as prepareTarget and the staging make it, of the names `/name` and `/name.staged`.
  abbrev pub filed : String → String → String → String → String → ℕ → Target
  filed backup staged path raw content mode = record {
    path = path;
    old_hash = go.sha256_hex raw;
    new_hash = go.sha256_hex content;
    backup_path = at_name backup;
    staged_path = at_name staged;
    mode = mode;
    committed = false;
  }

  abbrev unstaged : Target → Target
  unstaged t = record t { new_hash = "" }

  abbrev keep : String → String → World → World
  keep path content v = record v { private_files = insert path content v.private_files }

  prepare_target-quiet :
      (name path raw : String) (v : World) (f : File)
      → lookup path v.files ≡ some f
      → prepare_target go path x.root x.tx_id name raw (quiet v) ≡ (
        ok record {
          path = path;
          old_hash = go.sha256_hex raw;
          new_hash = "";
          backup_path = backup_dir x.root x.tx_id ++ "/" ++ name;
          staged_path = backup_dir x.root x.tx_id ++ "/" ++ name ++ ".staged";
          mode = f.mode;
          committed = false;
        },
        quiet (keep (backup_dir x.root x.tx_id ++ "/" ++ name) raw v),
      )
  unfolding prepare_target write_private_file effect
  prepare_target-quiet name path raw v f e = rw e refl

  stage-quiet :
      (generated : Option String) (content : String) (t : Target) (v : World)
      → generated ≡ some content
      → stage go generated t (quiet v)
        ≡ (ok record t { new_hash = go.sha256_hex content }, quiet (keep t.staged_path content v))
  unfolding stage write_private_file effect
  stage-quiet generated content t v e = rw e refl

  module _ (plan : Plan) (w : World) (h : IsPlanned go w plan) (wanted : IsWanted plan) where
    abbrev pub base : Record
    base = record {
      id = x.tx_id;
      status = in_progress;
      created_at = w.clock;
      completed_at = "";
      aborted_at = "";
      rolled_back_at = "";
      old_port = plan.old_port;
      new_port = plan.new_port;
      host = plan.host;
      config = none;
      factory = none;
    }

    abbrev pub config : Target
    config =
        filed "/config" "/config.staged" plan.config_path plan.config_raw wanted.config_content
          h.config_file.mode

    abbrev pub factory : Target
    factory =
        filed "/factory" "/factory.staged" plan.factory_path wanted.raw wanted.factory_content
          h.factory_file.mode

    abbrev with_config : World
    with_config = keep config.backup_path plan.config_raw w

    abbrev pub after_config : World
    after_config = keep config.staged_path wanted.config_content with_config

    abbrev with_both : World
    with_both = keep factory.backup_path wanted.raw with_config

    abbrev pub after_both : World
    after_both =
        keep factory.staged_path wanted.factory_content
          (keep config.staged_path wanted.config_content with_both)

    pub prepare-config :
        has_factory plan ≡ false
        → prepare go x plan (quiet w)
          ≡ (ok (of_targets base (some config) none), quiet after_config)
    unfolding prepare prepare_factory stage_factory
    prepare-config absent =
        rw
          (prepare_target-quiet "config" plan.config_path plan.config_raw w h.config_file
            h.config_usable.found)
          (rw absent (
            rw
              (stage-quiet plan.staged_config wanted.config_content (unstaged config) with_config
                wanted.config_staged)
              refl))

    pub prepare-both :
        has_factory plan ≡ true
        → prepare go x plan (quiet w)
          ≡ (ok (of_targets base (some config) (some factory)), quiet after_both)
    unfolding prepare prepare_factory prepare_raw stage_factory
    prepare-both present =
        let v = keep config.staged_path wanted.config_content with_both in
        rw
          (prepare_target-quiet "config" plan.config_path plan.config_raw w h.config_file
            h.config_usable.found)
          (rw present (
            rw (wanted.factory_raw present) (
              rw
                (prepare_target-quiet "factory" plan.factory_path wanted.raw with_config
                  h.factory_file (h.factory_usable present).found)
                (rw
                  (stage-quiet plan.staged_config wanted.config_content (unstaged config) with_both
                    wanted.config_staged)
                  (rw
                    (stage-quiet plan.staged_factory wanted.factory_content (unstaged factory) v
                      (wanted.factory_staged present))
                    refl)))))

    config-IsFiled :
        (kept : List (String × String))
        → lookup config.staged_path kept ≡ some wanted.config_content
        → lookup config.backup_path kept ≡ some plan.config_raw
        → IsFiled go w kept config
    config-IsFiled kept s b = record {
      original = h.config_file;
      usable = h.config_usable;
      holds = ap go.sha256_hex h.config_holds;
      content = wanted.config_content;
      found_staged = s;
      staged_hash = refl;
      found_backup = b ∙ ap some (sym h.config_holds);
      unmarked = refl;
      changes = h.config_changes wanted.config_content wanted.config_staged;
    }

    pub config_alone : IsFiled go w after_config.private_files config
    config_alone =
        let before = with_config.private_files in
        config-IsFiled after_config.private_files
          (lookup_new config.staged_path wanted.config_content before)
          (lookup_old config.staged_path config.backup_path wanted.config_content before
              (at_name-apart "/config.staged" "/config" refl)
            ∙ lookup_new config.backup_path plan.config_raw w.private_files)

    -- The private files but for the staged factory settings.
    abbrev most : List (String × String)
    most = (keep config.staged_path wanted.config_content with_both).private_files

    pub config_filed : IsFiled go w after_both.private_files config
    config_filed =
        let before = with_both.private_files in
        let over = λ (j : String). lookup_old factory.staged_path j wanted.factory_content most in
        config-IsFiled after_both.private_files
          (over config.staged_path (at_name-apart "/factory.staged" "/config.staged" refl)
            ∙ lookup_new config.staged_path wanted.config_content before)
          (over config.backup_path (at_name-apart "/factory.staged" "/config" refl)
            ∙ lookup_old config.staged_path config.backup_path wanted.config_content before
                (at_name-apart "/config.staged" "/config" refl)
            ∙ lookup_old factory.backup_path config.backup_path wanted.raw with_config.private_files
                (at_name-apart "/factory" "/config" refl)
            ∙ lookup_new config.backup_path plan.config_raw w.private_files)

    pub factory_filed : has_factory plan ≡ true → IsFiled go w after_both.private_files factory
    factory_filed present =
        let held = h.factory_holds wanted.raw (wanted.factory_raw present) in
        record {
          original = h.factory_file;
          usable = h.factory_usable present;
          holds = ap go.sha256_hex held;
          content = wanted.factory_content;
          found_staged = lookup_new factory.staged_path wanted.factory_content most;
          staged_hash = refl;
          found_backup =
              lookup_old factory.staged_path factory.backup_path wanted.factory_content most
                (at_name-apart "/factory.staged" "/factory" refl)
              ∙ lookup_old config.staged_path factory.backup_path wanted.config_content
                  with_both.private_files (at_name-apart "/config.staged" "/factory" refl)
              ∙ lookup_new factory.backup_path wanted.raw with_config.private_files
              ∙ ap some (sym held);
          unmarked = refl;
          changes =
              h.factory_changes wanted.raw wanted.factory_content (wanted.factory_raw present)
                (wanted.factory_staged present);
        }

    abbrev pub new_config : File
    new_config = record h.config_file { content = wanted.config_content }

    abbrev pub new_factory : File
    new_factory = record h.factory_file { content = wanted.factory_content }

    pub config_alone_file :
        new_file go w after_config.private_files config config_alone ≡ new_config
    unfolding config_alone config-IsFiled
    config_alone_file = refl

    pub config_file : new_file go w after_both.private_files config config_filed ≡ new_config
    unfolding config_filed config-IsFiled
    config_file = refl

    pub factory_file :
        (present : has_factory plan ≡ true)
        → new_file go w after_both.private_files factory (factory_filed present) ≡ new_factory
    unfolding factory_filed
    factory_file present = refl
