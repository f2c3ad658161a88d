-- ===== src/Migration/Tests.antt =====
-- A migration of a config and of factory settings, interrupted after its first commit, and its
-- rollback.
use mathlib.Core.List.{Perm}
use droid_proxy.Prelude.{
  ◌≡◌, ◌≢◌, refl, Bool, true, false, Option, none, some, List, [], ◌∷◌, String, All, filter, map,
  inl, inr, ◌&&◌,
}
use droid_proxy.Prelude.Maps.{beq-apart, string_eq, lookup}
use droid_proxy.Prelude.Numbers.{pos}
use droid_proxy.Samples.{plain_go}
use droid_proxy.Prelude.Sort.{IsSorted}
use droid_proxy.Migration.World.{
  File, Target, Record, Status, written, World, Answer, succeeds, fails, dies, ok, err, third_hash,
  Failure,
}
use droid_proxy.Migration.Targets.{commit_target, targets}
use droid_proxy.Migration.Journal.{is_completed, is_of_config, read_journals}
use droid_proxy.Migration.Recovery.{recover_one, recover_incomplete, recovered, migrated}
use droid_proxy.Migration.Transaction.{Plan, Setting, commit_transaction}
use droid_proxy.Migration.Rollback.{
  rollback_record, rollback_transaction, Candidate, candidate, newer, select_rollback_candidates,
}
use droid_proxy.Migration.Rules.{quiet}
use droid_proxy.Migration.Transaction.Survival.{Survives, commit_transaction-Survives}
use droid_proxy.Migration.Transaction.Planned.{IsPlanned}
use droid_proxy.Migration.Rollback.Refusal.{foreign_content_kept}
use droid_proxy.Migration.Transaction.Filed.{IsWanted}
use droid_proxy.Migration.Rollback.Undone.{AreMigrated}
use droid_proxy.Migration.Rollback.Undone.Commit.{rollback-commit}
use droid_proxy.Migration.Rollback.Candidates.{select_rollback_candidates_lem}

abbrev file_of : String → File
file_of content = record {
  content = content;
  mode = 384;
  is_symlink = false;
  is_regular = true;
  is_owned = true;
  has_link_above = false;
  is_readable = true;
}

abbrev setting : Setting
setting = record {
  root = "/state";
  tx_id = "20260101-000000-abcdef-0000000001";
  destination_free = true;
}

abbrev plan : Plan
plan = record {
  config_path = "/home/config.yaml";
  config_eligible = true;
  config_raw = "port: 8787";
  staged_config = some "port: 9787";
  host = "127.0.0.1";
  old_port = pos 8787;
  new_port = pos 9787;
  factory_path = "/home/settings.json";
  factory_present = true;
  factory_changes = 1;
  factory_unsafe = false;
  factory_raw = some "{8787}";
  staged_factory = some "{9787}";
}

abbrev world_with : List Answer → World
world_with answers = record {
  files =
      ("/home/config.yaml", file_of "port: 8787")
      ∷ ("/home/settings.json", file_of "{8787}")
      ∷ ("/home/notes", file_of "8787")
      ∷ [];
  private_files = [];
  journals = [];
  answers = answers;
  clock = "2026-01-01T00:00:00Z";
}

-- The process dies before the second commit.
abbrev interrupted_world : World
interrupted_world = world_with (
    succeeds ∷ succeeds ∷ succeeds ∷ succeeds ∷ succeeds ∷ succeeds ∷ succeeds ∷ succeeds ∷ succeeds
    ∷ succeeds ∷ succeeds ∷ succeeds ∷ dies ∷ [])

abbrev after_crash : World
after_crash = (commit_transaction plain_go setting plan interrupted_world).1

test_split : map (λ e. e.1.content) after_crash.files ≡ "port: 9787" ∷ "{8787}" ∷ "8787" ∷ []
unfolding commit_transaction droid_proxy.Migration.World.effect recover_incomplete
    droid_proxy.Migration.Journal.list_journals read_journals
    droid_proxy.Migration.Recovery.recover_each droid_proxy.Prelude.Sort.sort
    droid_proxy.Migration.Transaction.commit_plan droid_proxy.Migration.Transaction.has_changes
    droid_proxy.Migration.Transaction.begin_transaction
    droid_proxy.Migration.World.check_target_trust lookup droid_proxy.Migration.Transaction.prepare
    droid_proxy.Migration.Targets.prepare_target droid_proxy.Migration.World.write_private_file
    droid_proxy.Migration.Transaction.prepare_factory droid_proxy.Migration.Transaction.prepare_raw
    droid_proxy.Migration.Recovery.abort droid_proxy.Migration.Recovery.finish
    droid_proxy.Migration.Recovery.recover_from recover_one
    droid_proxy.Migration.Recovery.recover_split_forward droid_proxy.Migration.Recovery.roll_forward
    droid_proxy.Migration.Targets.assess_target droid_proxy.Migration.Targets.cleanup_staged_files
    commit_target targets droid_proxy.Migration.Transaction.check_destination
    droid_proxy.Migration.Transaction.commit_step droid_proxy.Migration.Transaction.commit_targets
    droid_proxy.Migration.Transaction.mark_complete
    droid_proxy.Migration.Transaction.refuse_destination droid_proxy.Migration.Transaction.run
    droid_proxy.Migration.Transaction.stage droid_proxy.Migration.Transaction.stage_factory
    droid_proxy.Migration.World.hash_file droid_proxy.Migration.World.ignore
    droid_proxy.Migration.World.read_private droid_proxy.Migration.World.remove
    droid_proxy.Migration.World.write_file_preserving_mode droid_proxy.Migration.World.write_journal
    droid_proxy.Prelude.Maps.erase droid_proxy.Prelude.Maps.insert droid_proxy.Prelude.Sort.place
    droid_proxy.Prelude.Texts.str_ltb
test_split = refl

test_recovered :
    map (λ e. e.1.content) (recover_incomplete plain_go (quiet after_crash)).1.files
    ≡ "port: 9787" ∷ "{9787}" ∷ "8787" ∷ []
unfolding recover_incomplete droid_proxy.Migration.Journal.list_journals read_journals
    commit_transaction droid_proxy.Migration.World.effect
    droid_proxy.Migration.Recovery.recover_each droid_proxy.Prelude.Sort.sort
    droid_proxy.Migration.Transaction.commit_plan droid_proxy.Migration.Transaction.has_changes
    droid_proxy.Migration.Transaction.begin_transaction
    droid_proxy.Migration.World.check_target_trust lookup droid_proxy.Migration.Transaction.prepare
    droid_proxy.Migration.Targets.prepare_target droid_proxy.Migration.World.write_private_file
    droid_proxy.Migration.Transaction.prepare_factory droid_proxy.Migration.Transaction.prepare_raw
    droid_proxy.Migration.Recovery.abort droid_proxy.Migration.Recovery.finish
    droid_proxy.Migration.Recovery.recover_from recover_one
    droid_proxy.Migration.Recovery.recover_split_forward droid_proxy.Migration.Recovery.roll_forward
    droid_proxy.Migration.Targets.assess_target droid_proxy.Migration.Targets.cleanup_staged_files
    commit_target targets droid_proxy.Migration.Transaction.check_destination
    droid_proxy.Migration.Transaction.commit_step droid_proxy.Migration.Transaction.commit_targets
    droid_proxy.Migration.Transaction.mark_complete droid_proxy.Migration.Transaction.run
    droid_proxy.Migration.Transaction.stage droid_proxy.Migration.Transaction.stage_factory
    droid_proxy.Migration.World.hash_file droid_proxy.Migration.World.ignore
    droid_proxy.Migration.World.read_private droid_proxy.Migration.World.remove
    droid_proxy.Migration.World.write_file_preserving_mode droid_proxy.Migration.World.write_journal
    droid_proxy.Prelude.Maps.erase droid_proxy.Prelude.Maps.insert droid_proxy.Prelude.Sort.place
    droid_proxy.Prelude.Texts.str_ltb
test_recovered = refl

test_rolled_back :
    map
      (λ e. e.1.content)
      (rollback_transaction plain_go setting.tx_id
        (commit_transaction plain_go setting plan (world_with [])).1).1.files
    ≡ "port: 8787" ∷ "{8787}" ∷ "8787" ∷ []
unfolding rollback_transaction droid_proxy.Migration.World.effect commit_transaction
    recover_incomplete droid_proxy.Migration.Journal.list_journals read_journals
    droid_proxy.Migration.Recovery.recover_each droid_proxy.Prelude.Sort.sort
    droid_proxy.Migration.Transaction.commit_plan droid_proxy.Migration.Transaction.has_changes
    droid_proxy.Migration.Transaction.begin_transaction
    droid_proxy.Migration.World.check_target_trust lookup droid_proxy.Migration.Transaction.prepare
    droid_proxy.Migration.Targets.prepare_target droid_proxy.Migration.World.write_private_file
    droid_proxy.Migration.Transaction.prepare_factory droid_proxy.Migration.Recovery.abort
    droid_proxy.Migration.Recovery.finish droid_proxy.Migration.Recovery.recover_from recover_one
    droid_proxy.Migration.Recovery.recover_split_forward droid_proxy.Migration.Recovery.roll_forward
    droid_proxy.Migration.Rollback.read_journal droid_proxy.Migration.Rollback.restore_target
    droid_proxy.Migration.Rollback.restore_targets rollback_record
    droid_proxy.Migration.Rollback.verify_targets droid_proxy.Migration.Targets.assess_target
    droid_proxy.Migration.Targets.cleanup_staged_files commit_target targets
    droid_proxy.Migration.Transaction.check_destination
    droid_proxy.Migration.Transaction.commit_step droid_proxy.Migration.Transaction.commit_targets
    droid_proxy.Migration.Transaction.mark_complete droid_proxy.Migration.Transaction.prepare_raw
    droid_proxy.Migration.Transaction.refuse_destination droid_proxy.Migration.Transaction.run
    droid_proxy.Migration.Transaction.stage droid_proxy.Migration.Transaction.stage_factory
    droid_proxy.Migration.World.hash_file droid_proxy.Migration.World.ignore
    droid_proxy.Migration.World.read_private droid_proxy.Migration.World.remove
    droid_proxy.Migration.World.write_file_preserving_mode droid_proxy.Migration.World.write_journal
    droid_proxy.Prelude.Maps.erase droid_proxy.Prelude.Maps.insert droid_proxy.Prelude.Sort.place
    droid_proxy.Prelude.Texts.str_ltb
test_rolled_back = refl

planned : IsPlanned plain_go interrupted_world plan
unfolding lookup
planned = record {
  config_file = file_of "port: 8787";
  config_usable = record {
    found = refl;
    not_symlink = refl;
    regular = refl;
    not_linked = refl;
    owned = refl;
    readable = refl;
  };
  config_holds = refl;
  config_changes = λ s e same. beq-apart {K = String} "port: 8787" "port: 9787" refl (cc (e, same));
  factory_file = file_of "{8787}";
  factory_usable = λ e. record {
    found = refl;
    not_symlink = refl;
    regular = refl;
    not_linked = refl;
    owned = refl;
    readable = refl;
  };
  factory_holds = λ raw e. cc (e);
  factory_changes =
      λ raw s e k same. beq-apart {K = String} "{8787}" "{9787}" refl (cc (e, k, same));
  apart = beq-apart {K = String} "/home/config.yaml" "/home/settings.json" refl;
}

commit_transaction-Survives_example : Survives plain_go setting interrupted_world after_crash
commit_transaction-Survives_example =
    commit_transaction-Survives plain_go setting plan interrupted_world tt planned

abbrev migrated_target : String → String → String → String → Target
migrated_target path old new name = record {
  path = path;
  old_hash = old;
  new_hash = new;
  backup_path = name;
  staged_path = "";
  mode = 384;
  committed = true;
}

abbrev migrated_record : Record
migrated_record = record {
  id = "20260101";
  status = Status.completed;
  created_at = "";
  completed_at = "";
  aborted_at = "";
  rolled_back_at = "";
  old_port = pos 8787;
  new_port = pos 9787;
  host = "127.0.0.1";
  config = some (migrated_target "/home/config.yaml" "port: 8787" "port: 9787" "/state/config");
  factory = none;
}

abbrev migrated_world : String → World
migrated_world content = record {
  files = ("/home/config.yaml", file_of content) ∷ ("/home/notes", file_of "8787") ∷ [];
  private_files = ("/state/config", "port: 8787") ∷ [];
  journals = ("20260101", written migrated_record) ∷ [];
  answers = [];
  clock = "now";
}

abbrev config_target : Target
config_target = migrated_target "/home/config.yaml" "port: 8787" "port: 9787" "/state/config"

foreign_content_kept_example :
    ((e : Failure) × (commit_target plain_go config_target (migrated_world "edited")
        ≡ (err e, migrated_world "edited")))
    × ((e : Failure) × (recover_one plain_go migrated_record (migrated_world "edited")
          ≡ (err e, migrated_world "edited")))
    × ((e : Failure) × (rollback_record plain_go migrated_record (migrated_world "edited")
          ≡ (err e, migrated_world "edited")))
unfolding lookup
foreign_content_kept_example =
    foreign_content_kept plain_go (migrated_world "edited") config_target migrated_record (inl refl)
      (inr (
        file_of "edited",
        refl,
        inr (
          refl,
          beq-apart {K = String} "edited" "port: 8787" refl,
          beq-apart {K = String} "edited" "port: 9787" refl,
        ),
      ))

wanted : IsWanted plan
unfolding droid_proxy.Migration.Transaction.has_changes
wanted = record {
  changes = refl;
  safe = refl;
  config_content = "port: 9787";
  config_staged = refl;
  raw = "{8787}";
  factory_content = "{9787}";
  factory_raw = λ e. refl;
  factory_staged = λ e. refl;
}

rollback-commit_example :
    (y : World) × (commit_transaction plain_go setting plan (quiet interrupted_world)
      ≡ (ok record { id = setting.tx_id; action = migrated }, y))
    × AreMigrated plain_go plan interrupted_world planned wanted y.files
    × ((z : World) × (rollback_transaction plain_go setting.tx_id y ≡ (ok tt, z))
        × ((p : String) → lookup p z.files ≡ lookup p interrupted_world.files))
rollback-commit_example =
    rollback-commit plain_go setting plan interrupted_world tt planned wanted refl

select_rollback_candidates_lem_example :
    (cs : List Candidate) × (select_rollback_candidates "" (migrated_world "") ≡ ok cs)
    × IsSorted newer cs
    × Perm cs (
        map candidate
          (filter (λ r. is_of_config "" r && is_completed r.status) (migrated_record ∷ [])))
unfolding read_journals
select_rollback_candidates_lem_example =
    select_rollback_candidates_lem (migrated_world "") "" (migrated_record ∷ []) refl
