-- ===== src/Migration/Deferred/Tests.antt =====
-- An upgrade whose restart was put off, and the restart that migrates its config.
use droid_proxy.Prelude.{
  ◌≡◌, refl, Bool, true, false, ◌&&◌, Option, none, some, List, [], ◌∷◌, String, map, str_eq,
}
use droid_proxy.Samples.{plain_go}
use droid_proxy.Prelude.Maps.{lookup}
use droid_proxy.Prelude.Numbers.{pos}
use droid_proxy.Migration.World.{World, Answer, succeeds, fails, File, Outcome, ok}
use droid_proxy.Migration.Transaction.{Plan, Setting}
use droid_proxy.Migration.Deferred.{
  Deferred, Provenance, ProvenanceFile, absent, stored, RestartOptions, Managed, skipped,
  attempt_deferred_migration, record_deferred_provenance, read_hash_for_provenance,
  resolve_service_kind,
}
use droid_proxy.Migration.Deferred.Consumption.{IsGuarded, attempt_deferred_migration-IsGuarded}

abbrev file_of : String → File
file_of content = record {
  content = content;
  mode = 384;
  is_symlink = false;
  is_regular = true;
  is_owned = true;
  has_link_above = false;
  is_readable = true;
}

abbrev upgraded : List Answer → World
upgraded answers = record {
  files =
      ("/home/config.yaml", file_of "port: 8787")
      ∷ ("/usr/bin/proxy", file_of "binary 2")
      ∷ ("/etc/proxy.service", file_of "unit")
      ∷ [];
  private_files = [];
  journals = [];
  answers = answers;
  clock = "2026-01-01T00:00:00Z";
}

abbrev upgrade : Provenance
upgrade = record {
  old_binary_path = "/usr/bin/proxy";
  old_binary_hash = "binary 1";
  old_binary_version = "1";
  installed_binary_path = "/usr/bin/proxy";
  installed_binary_hash = read_hash_for_provenance plain_go (upgraded []) "/usr/bin/proxy";
  installed_binary_version = "2";
  service_kind = resolve_service_kind false true true;
  service_def_path = "/etc/proxy.service";
  service_def_hash = "unit";
  background_daemon_pid = pos 0;
  background_daemon_exe = "";
  config_path = "/home/config.yaml";
  config_hash = "port: 8787";
  created_at = "";
}

-- The restart is put off: the record of the upgrade is written.
abbrev put_off : List Answer → Deferred
put_off answers =
    (record_deferred_provenance upgrade
      (record { world = upgraded answers; provenance = absent })).1

abbrev plan : Plan
plan = record {
  config_path = "/home/config.yaml";
  config_eligible = true;
  config_raw = "port: 8787";
  staged_config = some "port: 9787";
  host = "127.0.0.1";
  old_port = pos 8787;
  new_port = pos 9787;
  factory_path = "/home/settings.json";
  factory_present = false;
  factory_changes = 0;
  factory_unsafe = false;
  factory_raw = none;
  staged_factory = none;
}

abbrev setting : Setting
setting = record {
  root = "/state";
  tx_id = "20260101-000000-abcdef-0000000001";
  destination_free = true;
}

abbrev options : RestartOptions
options = record {
  config_path = "/home/config.yaml";
  installed_binary_path = "/usr/bin/proxy";
  no_migrate_port = false;
}

abbrev attempted : Deferred → Outcome Managed × Deferred
attempted = attempt_deferred_migration plain_go setting options (λ w. some plan)

abbrev contents : Outcome Managed × Deferred → List String
contents r = map (λ e. e.1.content) r.1.world.files

test_migrated : contents (attempted (put_off [])) ≡ "port: 9787" ∷ "binary 2" ∷ "unit" ∷ []
unfolding attempt_deferred_migration droid_proxy.Migration.Deferred.lift
    droid_proxy.Migration.World.effect record_deferred_provenance resolve_service_kind
    droid_proxy.Migration.Deferred.write_provenance droid_proxy.Migration.Deferred.read_provenance
    droid_proxy.Migration.Deferred.migrate_recorded
    droid_proxy.Migration.Deferred.validate_provenance read_hash_for_provenance lookup
    droid_proxy.Migration.Deferred.is_service_valid droid_proxy.Migration.Deferred.migrate_planned
    droid_proxy.Migration.Transaction.commit_transaction
    droid_proxy.Migration.Recovery.recover_incomplete droid_proxy.Migration.Journal.list_journals
    droid_proxy.Migration.Journal.read_journals droid_proxy.Migration.Deferred.consume_provenance
    droid_proxy.Migration.Recovery.abort droid_proxy.Migration.Recovery.finish
    droid_proxy.Migration.Recovery.recover_each droid_proxy.Migration.Recovery.recover_from
    droid_proxy.Migration.Recovery.recover_one droid_proxy.Migration.Recovery.recover_split_forward
    droid_proxy.Migration.Recovery.roll_forward droid_proxy.Migration.Targets.assess_target
    droid_proxy.Migration.Targets.cleanup_staged_files droid_proxy.Migration.Targets.commit_target
    droid_proxy.Migration.Targets.prepare_target droid_proxy.Migration.Targets.targets
    droid_proxy.Migration.Transaction.begin_transaction
    droid_proxy.Migration.Transaction.check_destination
    droid_proxy.Migration.Transaction.commit_plan droid_proxy.Migration.Transaction.commit_step
    droid_proxy.Migration.Transaction.commit_targets droid_proxy.Migration.Transaction.has_changes
    droid_proxy.Migration.Transaction.mark_complete droid_proxy.Migration.Transaction.prepare
    droid_proxy.Migration.Transaction.prepare_factory droid_proxy.Migration.Transaction.prepare_raw
    droid_proxy.Migration.Transaction.refuse_destination droid_proxy.Migration.Transaction.run
    droid_proxy.Migration.Transaction.stage droid_proxy.Migration.Transaction.stage_factory
    droid_proxy.Migration.World.check_target_trust droid_proxy.Migration.World.hash_file
    droid_proxy.Migration.World.ignore droid_proxy.Migration.World.read_private
    droid_proxy.Migration.World.remove droid_proxy.Migration.World.write_file_preserving_mode
    droid_proxy.Migration.World.write_journal droid_proxy.Migration.World.write_private_file
    droid_proxy.Prelude.Maps.erase droid_proxy.Prelude.Maps.insert droid_proxy.Prelude.Sort.place
    droid_proxy.Prelude.Sort.sort droid_proxy.Prelude.Texts.str_ltb
test_migrated = refl

test_consumed : (attempted (put_off [])).1.provenance ≡ absent
unfolding attempt_deferred_migration droid_proxy.Migration.Deferred.lift
    droid_proxy.Migration.World.effect record_deferred_provenance resolve_service_kind
    droid_proxy.Migration.Deferred.write_provenance droid_proxy.Migration.Deferred.read_provenance
    droid_proxy.Migration.Deferred.migrate_recorded
    droid_proxy.Migration.Deferred.validate_provenance read_hash_for_provenance lookup
    droid_proxy.Migration.Deferred.is_service_valid droid_proxy.Migration.Deferred.migrate_planned
    droid_proxy.Migration.Transaction.commit_transaction
    droid_proxy.Migration.Recovery.recover_incomplete droid_proxy.Migration.Journal.list_journals
    droid_proxy.Migration.Journal.read_journals droid_proxy.Migration.Deferred.consume_provenance
    droid_proxy.Migration.Recovery.abort droid_proxy.Migration.Recovery.finish
    droid_proxy.Migration.Recovery.recover_each droid_proxy.Migration.Recovery.recover_from
    droid_proxy.Migration.Recovery.recover_one droid_proxy.Migration.Recovery.recover_split_forward
    droid_proxy.Migration.Recovery.roll_forward droid_proxy.Migration.Targets.assess_target
    droid_proxy.Migration.Targets.cleanup_staged_files droid_proxy.Migration.Targets.commit_target
    droid_proxy.Migration.Targets.prepare_target droid_proxy.Migration.Targets.targets
    droid_proxy.Migration.Transaction.begin_transaction
    droid_proxy.Migration.Transaction.check_destination
    droid_proxy.Migration.Transaction.commit_plan droid_proxy.Migration.Transaction.commit_step
    droid_proxy.Migration.Transaction.commit_targets droid_proxy.Migration.Transaction.has_changes
    droid_proxy.Migration.Transaction.mark_complete droid_proxy.Migration.Transaction.prepare
    droid_proxy.Migration.Transaction.prepare_factory droid_proxy.Migration.Transaction.prepare_raw
    droid_proxy.Migration.Transaction.refuse_destination droid_proxy.Migration.Transaction.run
    droid_proxy.Migration.Transaction.stage droid_proxy.Migration.Transaction.stage_factory
    droid_proxy.Migration.World.check_target_trust droid_proxy.Migration.World.hash_file
    droid_proxy.Migration.World.ignore droid_proxy.Migration.World.read_private
    droid_proxy.Migration.World.remove droid_proxy.Migration.World.write_file_preserving_mode
    droid_proxy.Migration.World.write_journal droid_proxy.Migration.World.write_private_file
    droid_proxy.Prelude.Maps.erase droid_proxy.Prelude.Maps.insert droid_proxy.Prelude.Sort.place
    droid_proxy.Prelude.Sort.sort droid_proxy.Prelude.Texts.str_ltb
test_consumed = refl

-- The config is edited after the upgrade.
abbrev edited : Deferred
edited = record (put_off []) {
  world = record (put_off []).world {
    files = ("/home/config.yaml", file_of "port: 8888") ∷ (upgraded []).files;
  };
}

test_edited : attempted edited ≡ (ok skipped, edited)
unfolding attempt_deferred_migration droid_proxy.Migration.Deferred.lift
    droid_proxy.Migration.World.effect record_deferred_provenance resolve_service_kind
    droid_proxy.Migration.Deferred.write_provenance droid_proxy.Migration.Deferred.read_provenance
    droid_proxy.Migration.Deferred.migrate_recorded
    droid_proxy.Migration.Deferred.validate_provenance read_hash_for_provenance lookup
    droid_proxy.Migration.Deferred.is_service_valid
test_edited = refl

attempt_deferred_migration-IsGuarded_example :
    IsGuarded plain_go options (λ w. some plan) (put_off []) (attempted (put_off []))
attempt_deferred_migration-IsGuarded_example =
    attempt_deferred_migration-IsGuarded plain_go setting options (λ w. some plan) (put_off [])
