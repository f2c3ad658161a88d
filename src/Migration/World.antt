-- ===== src/Migration/World.antt =====
-- What the migration of internal/migration works on: the user's files, the private files and the
-- journals under the state root, and the answers of the system to each write. trust.go, state.go,
-- hash.go and journal.go.
use droid_proxy.Prelude.{
  ℕ, Bool, true, false, not, ◌&&◌, Option, none, some, List, [], ◌∷◌, String, if◌then◌else◌,
}
use droid_proxy.Prelude.Numbers.{ℤ}
use droid_proxy.Prelude.GoLibrary.{GoLibrary}
use droid_proxy.Prelude.Maps.{string_eq, lookup, insert, erase}

-- A file of the user: its bytes and what `os.Lstat` and `os.Stat` say of it and of the directories
-- above it.
pub record File : Type 0 where
  pub content : String
  pub mode : ℕ
  pub is_symlink : Bool
  pub is_regular : Bool
  pub is_owned : Bool
  pub has_link_above : Bool
  pub is_readable : Bool

pub record Target : Type 0 where
  pub path : String
  pub old_hash : String
  pub new_hash : String
  pub backup_path : String
  pub staged_path : String
  pub mode : ℕ
  pub committed : Bool

pub data Status : Type 0 where
  in_progress : Status
  completed : Status
  rolled_back : Status
  aborted : Status

pub record Record : Type 0 where
  pub id : String
  pub status : Status
  pub created_at : String
  pub completed_at : String
  pub aborted_at : String
  pub rolled_back_at : String
  pub old_port : ℤ
  pub new_port : ℤ
  pub host : String
  pub config : Option Target
  pub factory : Option Target

-- A file of the directory of transactions: one that checkTargetTrust refuses, one that does not
-- parse, or a record.
pub data Journal : Type 0 where
  untrusted : Record → Journal
  malformed : Journal
  written : Record → Journal

-- How the system answers a write: it is done, it fails, or the process ends before it.
pub data Answer : Type 0 where
  succeeds : Answer
  fails : Answer
  dies : Answer

pub record World : Type 0 where
  pub files : List (String × File)
  pub private_files : List (String × String)
  pub journals : List (String × Journal)
  -- the answers to the writes to come; when they end, every write is done
  pub answers : List Answer
  -- `nowISO()`
  pub clock : String

pub data Failure : Type 0 where
  io : Failure
  interrupted : Failure
  not_trusted : Failure
  hash_changed : Failure
  staged_mismatch : Failure
  backup_mismatch : Failure
  third_hash : Failure
  target_missing : Failure
  bad_journal : Failure
  not_completed : Failure
  destination_unavailable : Failure
  unsafe_factory : Failure
  not_eligible : Failure

pub data Outcome (A : Type 0) : Type 0 where
  ok : A → Outcome A
  err : Failure → Outcome A
  crashed : Outcome A

abbrev pub M : Type 0 → Type 0
M A = World → Outcome A × World

abbrev pub then_run : {A B : Type 0} → (A → M B) → Outcome A × World → Outcome B × World
then_run f (ok a, w) = f a w
then_run f (err e, w) = (err e, w)
then_run f (crashed, w) = (crashed, w)

infixl 5 ◌>>=◌ ◌>>◌
abbrev pub ◌>>=◌ : {A B : Type 0} → M A → (A → M B) → M B
◌>>=◌ m f w = then_run f (m w)

abbrev pub ◌>>◌ : {B : Type 0} → M (Unit {0}) → M B → M B
m >> k = m >>= λ _. k

abbrev pub pure : {A : Type 0} → A → M A
pure a w = (ok a, w)

abbrev pub fail : {A : Type 0} → Failure → M A
fail e w = (err e, w)

abbrev pub require : Bool → Failure → M (Unit {0})
require true e w = (ok tt, w)
require false e w = (err e, w)

abbrev pub answered : (World → World) → World → List Answer → Outcome (Unit {0}) × World
answered change w [] = (ok tt, change w)
answered change w (succeeds ∷ rest) = (ok tt, change (record w { answers = rest }))
answered change w (fails ∷ rest) = (err io, record w { answers = rest })
answered change w (dies ∷ rest) = (crashed, record w { answers = rest })

-- A write that is done as a whole or not at all: to a temporary file that is renamed.
unfoldable pub effect : (World → World) → M (Unit {0})
effect change w = answered change w w.answers

-- A call that may fail or end the process, and changes nothing here.
abbrev pub boundary : M (Unit {0})
boundary = effect (λ w. w)

abbrev pub forgive : Outcome (Unit {0}) × World → Outcome (Unit {0}) × World
forgive (ok a, w) = (ok tt, w)
forgive (err e, w) = (ok tt, w)
forgive (crashed, w) = (crashed, w)

-- `_ = m`.
unfoldable pub ignore : M (Unit {0}) → M (Unit {0})
ignore m w = forgive (m w)

-- writePrivateFile.
unfoldable pub write_private_file : String → String → M (Unit {0})
write_private_file path content =
    effect (λ w. record w { private_files = insert path content w.private_files })

-- `os.Remove` of a private file, its error ignored.
unfoldable pub remove : String → M (Unit {0})
remove path = ignore (effect (λ w. record w { private_files = erase path w.private_files }))

abbrev pub or_fail : {A : Type 0} → Failure → Option A → M A
or_fail e none w = (err e, w)
or_fail e (some a) w = (ok a, w)

-- `os.ReadFile` of a private file.
unfoldable pub read_private : String → M String
read_private path w = or_fail io (lookup path w.private_files) w

-- The bytes that `os.ReadFile` gives of a file of the user.
abbrev pub bytes : Option File → Option String
bytes none = none
bytes (some f) = if f.is_readable then some f.content else none

-- hashFile.
unfoldable pub hash_file : GoLibrary → String → M String
hash_file go path w = (or_fail io (bytes (lookup path w.files)) >>= λ b. pure (go.sha256_hex b)) w

-- writeJournal.
unfoldable pub write_journal : Record → M (Unit {0})
write_journal r = effect (λ w. record w { journals = insert r.id (written r) w.journals })

-- CheckFileTrust.
abbrev pub is_trusted : Option File → Bool
is_trusted none = false
is_trusted (some f) = not f.is_symlink && f.is_regular && not f.has_link_above && f.is_owned

-- checkTargetTrust.
unfoldable pub check_target_trust : String → M (Unit {0})
check_target_trust path w = require (is_trusted (lookup path w.files)) not_trusted w

-- writeFilePreservingMode.
unfoldable pub write_file_preserving_mode : String → String → M (Unit {0})
write_file_preserving_mode path content w = elim (lookup path w.files) [
  | none ↦ (err io, w)
  | some f ↦
      effect (λ v. record v { files = insert path (record f { content = content }) v.files }) w
]
