-- ===== src/Migration/Deferred.antt =====
-- The migration that a restart does for an upgrade before it: internal/migration/provenance.go and
-- AttemptDeferredMigration in internal/migration/managed_restart.go.
use droid_proxy.Prelude.{
  ℕ, ◌≡◌, Bool, true, false, not, ◌&&◌, ◌||◌, Option, none, some, List, [], ◌∷◌, String,
  if◌then◌else◌, str_eq, is_none, ◌==◌,
}
use droid_proxy.Prelude.Numbers.{ℤ, is_zero}
use droid_proxy.Prelude.GoLibrary.{GoLibrary}
use droid_proxy.Prelude.Maps.{string_eq, lookup}
use droid_proxy.Migration.World.{
  World, Failure, not_trusted, bad_journal, Outcome, ok, err, crashed, M, boundary, effect, bytes,
}
use droid_proxy.Migration.Recovery.{TransactionResult}
use droid_proxy.Migration.Transaction.{Plan, Setting, commit_transaction}
pub mod Consumption
mod Tests

pub record Provenance : Type 0 where
  pub old_binary_path : String
  pub old_binary_hash : String
  pub old_binary_version : String
  pub installed_binary_path : String
  pub installed_binary_hash : String
  pub installed_binary_version : String
  pub service_kind : String
  pub service_def_path : String
  pub service_def_hash : String
  pub background_daemon_pid : ℤ
  pub background_daemon_exe : String
  pub config_path : String
  pub config_hash : String
  pub created_at : String

-- The file of the record under the state root.
pub data ProvenanceFile : Type 0 where
  absent : ProvenanceFile
  linked : ProvenanceFile
  unparsable : ProvenanceFile
  stored : Provenance → ProvenanceFile

-- The world of the transactions, and the provenance file beside them.
pub record Deferred : Type 0 where
  pub world : World
  pub provenance : ProvenanceFile

abbrev pub D : Type 0 → Type 0
D A = Deferred → Outcome A × Deferred

abbrev pub then_do : {A B : Type 0} → (A → D B) → Outcome A × Deferred → Outcome B × Deferred
then_do f (ok a, s) = f a s
then_do f (err e, s) = (err e, s)
then_do f (crashed, s) = (crashed, s)

infixl 5 ◌>>=◌ ◌>>◌
abbrev ◌>>=◌ : {A B : Type 0} → D A → (A → D B) → D B
◌>>=◌ m f s = then_do f (m s)

abbrev ◌>>◌ : {B : Type 0} → D (Unit {0}) → D B → D B
m >> k = m >>= λ _. k

abbrev pub lifted : {A : Type 0} → ProvenanceFile → Outcome A × World → Outcome A × Deferred
lifted p (o, w) = (o, record { world = w; provenance = p })

-- What does not touch the provenance file.
unfoldable pub lift : {A : Type 0} → M A → D A
lift m s = lifted s.provenance (m s.world)

abbrev read_file : ProvenanceFile → Deferred → Outcome (Option Provenance) × Deferred
read_file absent s = (ok none, s)
read_file linked s = (err not_trusted, s)
read_file unparsable s = (err bad_journal, s)
read_file (stored p) s = (ok (some p), s)

-- ReadProvenance. The check of the state root is a call that may fail.
unfoldable pub read_provenance : D (Option Provenance)
read_provenance = do lift boundary; λ s. read_file s.provenance s

abbrev if_done : ProvenanceFile → Outcome (Unit {0}) × Deferred → Outcome (Unit {0}) × Deferred
if_done p (ok a, s) = (ok a, record s { provenance = p })
if_done p (err e, s) = (err e, s)
if_done p (crashed, s) = (crashed, s)

-- ConsumeProvenance.
unfoldable pub consume_provenance : D (Unit {0})
consume_provenance s = if_done absent (lift boundary s)

-- WriteProvenance.
unfoldable pub write_provenance : Provenance → D (Unit {0})
write_provenance p = do
  lift boundary
  lift boundary
  λ s.
      if_done
        (stored (record p {
          created_at = if str_eq p.created_at "" then s.world.clock else p.created_at;
        }))
        (lift boundary s)

-- RecordDeferredProvenance, of a record without its time.
unfoldable pub record_deferred_provenance : Provenance → D (Unit {0})
record_deferred_provenance p =
    if str_eq p.service_kind "background-daemon"
      && (is_zero p.background_daemon_pid || str_eq p.background_daemon_exe "")
    then (λ s. (err Failure.not_eligible, s))
    else write_provenance (record p { created_at = "" })

-- ResolveServiceKind.
unfoldable pub resolve_service_kind : Bool → Bool → Bool → String
resolve_service_kind true systemd_installed background_running = "launchd"
resolve_service_kind false true background_running = "systemd"
resolve_service_kind false false true = "background-daemon"
resolve_service_kind false false false = ""

abbrev pub hash_is : GoLibrary → Option String → String → Bool
hash_is go none hash = false
hash_is go (some content) hash = str_eq (go.sha256_hex content) hash

abbrev hash_or_empty : GoLibrary → Option String → String
hash_or_empty go none = ""
hash_or_empty go (some content) = go.sha256_hex content

-- ReadConfigHashForProvenance and ReadBinaryHashForProvenance.
unfoldable pub read_hash_for_provenance : GoLibrary → World → String → String
read_hash_for_provenance go w path = hash_or_empty go (bytes (lookup path w.files))

-- The file at the path can be read and has the hash.
abbrev pub has_hash : GoLibrary → World → String → String → Bool
has_hash go w path hash = hash_is go (bytes (lookup path w.files)) hash

unfoldable pub is_service_valid : GoLibrary → World → Provenance → Bool
is_service_valid go w p =
    if str_eq p.service_kind "launchd" || str_eq p.service_kind "systemd"
    then not (str_eq p.service_def_path "")
      && not (str_eq p.service_def_hash "")
      && has_hash go w p.service_def_path p.service_def_hash
    else str_eq p.service_kind "background-daemon"
      && not (is_zero p.background_daemon_pid)
      && not (str_eq p.background_daemon_exe "")
      && not (is_none (lookup p.background_daemon_exe w.files))

abbrev is_identified : Provenance → Bool
is_identified p =
    not (str_eq p.installed_binary_path "")
    && not (str_eq p.installed_binary_hash "")
    && not (str_eq p.old_binary_path "")
    && not (str_eq p.old_binary_hash "")
    && not (str_eq p.config_path "")
    && not (str_eq p.config_hash "")
    && not (str_eq p.created_at "")
    && not (str_eq p.service_kind "")

abbrev is_same_path : String → String → Bool
is_same_path recorded wanted = str_eq wanted "" || str_eq recorded wanted

-- ValidateProvenance: whether it returns nil. Paths are absolute.
unfoldable pub validate_provenance : GoLibrary → String → String → World → Provenance → Bool
validate_provenance go installed_binary_path config_path w p =
    is_identified p
    && is_service_valid go w p
    && is_same_path p.installed_binary_path installed_binary_path
    && has_hash go w p.installed_binary_path p.installed_binary_hash
    && is_same_path p.config_path config_path
    && has_hash go w p.config_path p.config_hash

pub record RestartOptions : Type 0 where
  pub config_path : String
  pub installed_binary_path : String
  pub no_migrate_port : Bool

pub data Managed : Type 0 where
  -- with the provenance consumed, or its consumption failed
  migrated_port : TransactionResult → (consumed : Bool) → Managed
  skipped : Managed
  no_provenance : Managed
  ineligible : Managed

-- `_ = ConsumeProvenance(stateRoot)` and the result that follows, and the consumption at the end.
abbrev after_consumption :
    Managed → Managed → Outcome (Unit {0}) × Deferred → Outcome Managed × Deferred
after_consumption done failed (ok a, s) = (ok done, s)
after_consumption done failed (err e, s) = (ok failed, s)
after_consumption done failed (crashed, s) = (crashed, s)

-- From the plan on. `none` is an error of PlanMigration.
unfoldable pub migrate_planned : GoLibrary → Setting → Option Plan → D Managed
migrate_planned go x none s = (err bad_journal, s)
migrate_planned go x (some plan) s =
    if not plan.config_eligible
    then after_consumption ineligible ineligible (consume_provenance s)
    else if plan.factory_unsafe
    then (ok skipped, s)
    else (do
      result ← lift (commit_transaction go x plan)
      λ t.
          after_consumption (migrated_port result true) (migrated_port result false)
            (consume_provenance t))
        s

unfoldable pub migrate_recorded :
    GoLibrary → Setting → RestartOptions → (World → Option Plan) → Option Provenance → D Managed
migrate_recorded go x opts plan_migration none s = (ok no_provenance, s)
migrate_recorded go x opts plan_migration (some p) s =
    if validate_provenance go opts.installed_binary_path opts.config_path s.world p
      && str_eq p.config_path opts.config_path
    then migrate_planned go x (plan_migration s.world) s
    else (ok skipped, s)

-- AttemptDeferredMigration. PlanMigration is an argument.
unfoldable pub attempt_deferred_migration :
    GoLibrary → Setting → RestartOptions → (World → Option Plan) → D Managed
attempt_deferred_migration go x opts plan_migration s =
    if opts.no_migrate_port
    then (ok skipped, s)
    else (do lift boundary; p ← read_provenance; migrate_recorded go x opts plan_migration p) s
