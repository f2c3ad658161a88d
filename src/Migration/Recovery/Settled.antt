-- ===== src/Migration/Recovery/Settled.antt =====
-- Recovery where no transaction is in progress: recoverIncompleteLocked of
-- internal/migration/transaction.go and listJournals of internal/migration/journal.go.
use droid_proxy.Prelude.{◌≡◌, refl, true, false, List, [], ◌∷◌, String, All}
use droid_proxy.Prelude.Sort.{sort, All-sort}
use droid_proxy.Prelude.GoLibrary.{GoLibrary}
use droid_proxy.Migration.World.{Record, Journal, untrusted, malformed, written, World, ok}
use droid_proxy.Migration.Journal.{is_in_progress, read_journals, list_journals, older}
use droid_proxy.Migration.Recovery.{nothing_done, recover_each, recover_incomplete}

abbrev pub IsClosed : Record → Type 0
IsClosed r = is_in_progress r.status ≡ false

abbrev pub IsSettled : Journal → Type 0
IsSettled (untrusted r) = true ≡ false
IsSettled malformed = true ≡ false
IsSettled (written r) = IsClosed r

-- Every journal can be read, and none is in progress.
abbrev pub AllSettled : List (String × Journal) → Type 0
AllSettled m = All (λ e. IsSettled e.1) m

read_settled :
    (m : List (String × Journal))
    → AllSettled m
    → (rs : List Record) × (read_journals m ≡ ok rs) × All IsClosed rs
unfolding read_journals
read_settled [] h = ([], refl, tt)
read_settled ((id, untrusted r) ∷ m) h = absurd (cc (h.0))
read_settled ((id, malformed) ∷ m) h = absurd (cc (h.0))
read_settled ((id, written r) ∷ m) h =
    let (rs, e, k) = read_settled m h.1 in (r ∷ rs, rw e, (h.0, k))

recover_each_closed :
    (go : GoLibrary) (rs : List Record) (w : World)
    → All IsClosed rs
    → recover_each go rs w ≡ (ok nothing_done, w)
unfolding recover_each
recover_each_closed go [] w h = refl
recover_each_closed go (r ∷ rs) w h = rw (h.0) (recover_each_closed go rs w h.1)

pub recover_incomplete_settled :
    (go : GoLibrary) (w : World)
    → AllSettled w.journals
    → recover_incomplete go w ≡ (ok nothing_done, w)
unfolding recover_incomplete list_journals
recover_incomplete_settled go w h =
    let (rs, e, k) = read_settled w.journals h in
    rw e (recover_each_closed go (sort older rs) w (All-sort older IsClosed rs k))
