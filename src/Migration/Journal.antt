-- ===== src/Migration/Journal.antt =====
-- The journals of the transactions: listJournals and findJournalsByConfig in
-- internal/migration/journal.go.
use droid_proxy.Prelude.{
  Bool, true, false, Option, none, some, List, [], ◌∷◌, String, if◌then◌else◌, str_eq, filter,
}
use droid_proxy.Prelude.Texts.{str_ltb}
use droid_proxy.Prelude.Sort.{sort}
use droid_proxy.Prelude.Maps.{string_eq}
use droid_proxy.Migration.World.{
  Target, Status, in_progress, completed, Record, Journal, untrusted, malformed, written, World,
  not_trusted, bad_journal, Outcome, ok, err, crashed, M,
}

abbrev pub is_in_progress : Status → Bool
is_in_progress in_progress = true
is_in_progress _ = false

abbrev pub is_completed : Status → Bool
is_completed completed = true
is_completed _ = false

abbrev pub path_of : Option Target → String
path_of none = ""
path_of (some t) = t.path

-- `rec.ConfigPath()`.
abbrev pub config_path : Record → String
config_path r = path_of r.config

-- checkTargetTrust of the file of a journal.
abbrev pub is_trusted_journal : Option Journal → Bool
is_trusted_journal none = false
is_trusted_journal (some (untrusted r)) = false
is_trusted_journal (some _) = true

abbrev pub prepend : Record → Outcome (List Record) → Outcome (List Record)
prepend r (ok rs) = ok (r ∷ rs)
prepend r (err e) = err e
prepend r crashed = crashed

-- The loop over the entries of the directory: a journal that is malformed or not trusted is an
-- error.
unfoldable pub read_journals : List (String × Journal) → Outcome (List Record)
read_journals [] = ok []
read_journals ((id, untrusted r) ∷ m) = err not_trusted
read_journals ((id, malformed) ∷ m) = err bad_journal
read_journals ((id, written r) ∷ m) = prepend r (read_journals m)

abbrev pub older : Record → Record → Bool
older r s = str_ltb r.id s.id

abbrev pub then_sort : Outcome (List Record) → Outcome (List Record)
then_sort (ok rs) = ok (sort older rs)
then_sort (err e) = err e
then_sort crashed = crashed

unfoldable pub list_journals : M (List Record)
list_journals w = (then_sort (read_journals w.journals), w)

abbrev pub is_of_config : String → Record → Bool
is_of_config path r = if str_eq path "" then true else str_eq (config_path r) path

abbrev pub then_select : (Record → Bool) → Outcome (List Record) → Outcome (List Record)
then_select p (ok rs) = ok (filter p rs)
then_select p (err e) = err e
then_select p crashed = crashed

unfoldable pub find_journals_by_config : String → World → Outcome (List Record)
find_journals_by_config path w = then_select (is_of_config path) (list_journals w).0
