-- ===== src/OAuth/Affinity/Binding.antt =====
-- Bind and then Lookup: internal/oauth/affinity.go.
use droid_proxy.Prelude.{
  suc, ◌-◌, ◌≤◌, ◌<◌, ◌≡◌, ◌≢◌, refl, sym, ◌∙◌, ◌⊎◌, inl, inr, Bool, false, some, [], ◌∷◌, String,
  leb, arith, str_eq, eq_iff, length, All, Bool-cases,
}
use droid_proxy.Prelude.Numbers.{Time}
use droid_proxy.Prelude.GoLibrary.{GoLibrary}
use droid_proxy.Prelude.Texts.{trim_space, is_blank}
use droid_proxy.Prelude.Maps.{
  string_eq, lookup, insert, erase, lookup-insert, lookup-erase, Lacks, IsMap, insert-IsMap,
  sort-IsMap,
}
use droid_proxy.Prelude.Sort.{sort, All-sort, length-sort, IsSorted, IsStrictOrder, sort-IsSorted}
use droid_proxy.OAuth.Affinity.{
  AffinityRecord, Bindings, AffinityStore, by_age, erase_first, enforce_max, normalize_affinity_id,
  bound_path, bind,
}
use droid_proxy.OAuth.Affinity.Limits.{IsBounded, save-entries}

by_age-IsStrictOrder : IsStrictOrder by_age
by_age-IsStrictOrder = record { asym = λ a b h. ground arith; compare = λ a b c h. ground arith }

-- The record of `id` is of `now`, and every other is older.
abbrev Older : String → Time → Bindings → Type 0
Older id now m =
    All (λ x. ((x.0 ≢ id) × (x.1.updated_at < now)) ⊎ ((x.0 ≡ id) × (x.1.updated_at ≡ now))) m

Lacks-Older :
    (now : Time) (id j : String) (m : Bindings)
    → j ≡ id
    → Lacks j m
    → All (λ x. x.1.updated_at < now) m
    → Older id now m
Lacks-Older now id j [] e l h = tt
Lacks-Older now id j ((i, f) ∷ m) e (l, ls) (h, hs) =
    (inl (λ same. l (same ∙ sym e), h), Lacks-Older now id j m e ls hs)

insert-Older :
    (now : Time) (id : String) (r : AffinityRecord) (m : Bindings)
    → r.updated_at ≡ now
    → IsMap m
    → All (λ x. x.1.updated_at < now) m
    → Older id now (insert id r m)
unfolding insert
insert-Older now id r [] t i h = (inr (refl, t), tt)
insert-Older now id r ((j, f) ∷ m) t (l, i) (p, h) = elim (Bool-cases (str_eq j id)) [
  | inl b ↦ ground (arith, t, Lacks-Older now id j m ((eq_iff j id).0 b) l h)
  | inr b ↦ ground (arith, p, eq_iff j id, insert-Older now id r m t i h)
]

length-insert-le :
    (id : String) (r : AffinityRecord) (m : Bindings) → length (insert id r m) ≤ suc (length m)
unfolding insert
length-insert-le id r [] = omega arith
length-insert-le id r ((j, f) ∷ m) = ground (arith, length-insert-le id r m)

-- Of two bindings or more the newest is not the first by age.
head-apart :
    (now : Time) (id : String) (xs : Bindings)
    → IsSorted by_age xs
    → Older id now xs
    → IsMap xs
    → 2 ≤ length xs
    → (x : String × AffinityRecord) × (ys : Bindings) × (xs ≡ x ∷ ys) × (x.0 ≢ id)
head-apart now id [] s o i l = absurd (omega arith)
head-apart now id (x ∷ []) s o i l = absurd (omega arith)
head-apart now id (x ∷ y ∷ ys) s (inl (a, t), os) i l = (x, y ∷ ys, refl, a)
head-apart now id (x ∷ y ∷ ys) ((p, ps), s) (inr (a, t), (inl (b, u), os)) i l =
    absurd (ground (arith, p))
head-apart now id (x ∷ y ∷ ys) s (inr (a, t), (inr (b, u), os)) ((l, ls), i) n =
    absurd (l (b ∙ sym a))

enforce_max-lookup :
    (now : Time) (id : String) (r : AffinityRecord) (s : AffinityStore)
    → IsMap s.entries
    → Older id now s.entries
    → length s.entries ≤ suc s.max
    → 0 < s.max
    → lookup id s.entries ≡ some r
    → lookup id (enforce_max s).entries ≡ some r
unfolding enforce_max erase_first
enforce_max-lookup now id r s i o n l h =
    let xs = sort by_age s.entries in
    elim (Bool-cases (leb (length s.entries) s.max)) [
      | inl f ↦ ground arith
      | inr f ↦
          let (x, ys, e, apart) =
            head-apart now id xs (sort-IsSorted by_age by_age-IsStrictOrder s.entries)
              (All-sort by_age _ s.entries o) (sort-IsMap by_age s.entries i)
              (ground (arith, length-sort by_age s.entries)) in
          let one : length s.entries - s.max ≡ 1 = ground arith in
          ground (
            arith,
            one,
            e,
            lookup-erase x.0 id s.entries i,
            eq_iff x.0 id,
            first_erased x ys s.entries,
          )
    ]
  where
    first_erased :
        (x : String × AffinityRecord) (ys m : Bindings) → erase_first 1 (x ∷ ys) m ≡ erase x.0 m
    first_erased x [] m = refl
    first_erased x (y ∷ ys) m = refl

module _ (go : GoLibrary) where
  -- A conversation just bound is found bound to that account, though the limit on bindings may give
  -- up another: if every binding is older, and neither the conversation's id nor the path is blank.
  pub bound_path-bind :
      (written : Bool) (now : Time) (s : AffinityStore) (conversation account : String)
      → IsBounded s
      → All (λ x. x.1.updated_at < now) s.entries
      → normalize_affinity_id go conversation ≢ ""
      → is_blank account ≡ false
      → bound_path go (bind go written now s conversation account) conversation ≡ trim_space account
  unfolding bind bound_path is_blank
  bound_path-bind written now s conversation account b o named blank =
      let id = normalize_affinity_id go conversation in
      let path = trim_space account in
      let r : AffinityRecord = record { account_path = path; updated_at = now } in
      let t : AffinityStore = record s { entries = insert id r s.entries } in
      let kept =
        enforce_max-lookup now id r t (insert-IsMap id r s.entries b.is_map)
          (insert-Older now id r s.entries refl b.is_map o)
          (omega (arith, length-insert-le id r s.entries, b.bounded)) b.limited
          (ground (arith, lookup-insert id id r s.entries, eq_iff id id)) in
      ground (arith, kept, save-entries written (enforce_max t), eq_iff id "")
