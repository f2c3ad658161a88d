-- ===== src/Migration/Rollback/Candidates.antt =====
-- The choice of the transactions that can be rolled back: SelectRollbackCandidates in
-- internal/migration/transaction.go.
use mathlib.Core.List.Perm
use mathlib.Core.List.{Perm}
use droid_proxy.Prelude.{
  ◌≡◌, refl, sym, subst, Bool, ◌&&◌, List, String, map, filter, filter-filter, inl, inr,
}
use droid_proxy.Prelude.Texts.{str_ltb_asym, str_ltb_compare}
use droid_proxy.Prelude.Sort.{sort, sort-perm, filter-perm, IsSorted, IsStrictOrder, sort-IsSorted}
use droid_proxy.Migration.World.{Record, World, ok}
use droid_proxy.Migration.Journal.{
  is_completed, older, is_of_config, read_journals, list_journals, find_journals_by_config,
}
use droid_proxy.Migration.Rollback.{Candidate, candidate, newer, select_rollback_candidates}

newer-IsStrictOrder : IsStrictOrder newer
newer-IsStrictOrder = record {
  asym = λ a b. str_ltb_asym b.id a.id;
  compare = λ a b c h. elim (str_ltb_compare c.id b.id a.id h) [ inl p ↦ inr p | inr p ↦ inl p ];
}

-- When every journal can be read, the candidates are, newest first by their ids, the completed
-- transactions of the config path, or of any path when it is empty: each as often as it is on disk,
-- and no other.
pub select_rollback_candidates_lem :
    (w : World) (path : String) (rs : List Record)
    → read_journals w.journals ≡ ok rs
    → (cs : List Candidate) × (select_rollback_candidates path w ≡ ok cs)
      × IsSorted newer cs
      × Perm cs (map candidate (filter (λ r. is_of_config path r && is_completed r.status) rs))
unfolding select_rollback_candidates find_journals_by_config list_journals
select_rollback_candidates_lem w path rs e =
    let p : Record → Bool = λ r. is_of_config path r && is_completed r.status in
    let wanted = filter (λ r. is_completed r.status) (filter (is_of_config path) (sort older rs)) in
    let listed = map candidate wanted in
    (
      sort newer listed,
      rw e refl,
      sort-IsSorted newer newer-IsStrictOrder listed,
      Perm.trans (sort-perm newer listed) (
          Perm.map candidate (
            subst (λ xs. Perm xs (filter p rs))
              (sym (filter-filter (λ r. is_completed r.status) (is_of_config path) (sort older rs)))
              (filter-perm p (sort older rs) rs (sort-perm older rs)))),
    )
