-- ===== src/Prelude/Sort.antt =====
-- `sort.Slice` and `sort.SliceStable` by a strict order, as a stable insertion sort.
use Prim.Native.Nat.{suc}
use mathlib.Core.Path.{◌≡◌, refl, ◌∙◌, subst}
use mathlib.Core.Logic.{◌⊎◌, inl, inr, ∥∥₁_map}
use mathlib.Core.Bool.{Bool, true, false}
use mathlib.Core.List.{List, [], ◌∷◌, Permᴰ, Perm}
use mathlib.Core.List.Perm
use mathlib.Core.List.Permᴰ as PermD
use native.Mathlib.Omega.{arith}
use droid_proxy.Prelude.Tests.{if◌then◌else◌, Bool-cases}
use droid_proxy.Prelude.Lists.{All, All-filter, filter, length}

module _ {ℓ} {A : Type ℓ} (lt : A → A → Bool) where
  unfoldable pub place : A → List A → List A
  place x [] = x ∷ []
  place x (y ∷ ys) = if lt y x then y ∷ place x ys else x ∷ y ∷ ys

  unfoldable pub sort : List A → List A
  unfolding place
  sort [] = []
  sort (x ∷ xs) = place x (sort xs)

  -- Every element is followed by none that is less than it.
  abbrev pub IsSorted : List A → Type 0
  IsSorted [] = Unit
  IsSorted (x ∷ xs) = All (λ y. lt y x ≡ false) xs × IsSorted xs

  pub All-place {κ} : (P : A → Type κ) (x : A) (ys : List A) → P x → All P ys → All P (place x ys)
  unfolding place
  All-place P x [] p h = (p, tt)
  All-place P x (y ∷ ys) p (q, h) = ground (arith, All-place P x ys p h)

  pub All-sort {κ} : (P : A → Type κ) (xs : List A) → All P xs → All P (sort xs)
  unfolding sort
  All-sort P [] h = tt
  All-sort P (x ∷ xs) (p, h) = All-place P x (sort xs) p (All-sort P xs h)

  All-of_place {κ} : (P : A → Type κ) (x : A) (ys : List A) → All P (place x ys) → P x × All P ys
  unfolding place
  All-of_place P x [] h = h
  All-of_place P x (y ∷ ys) h = ground (arith, h, All-of_place P x ys)

  pub All-of_sort {κ} : (P : A → Type κ) (xs : List A) → All P (sort xs) → All P xs
  unfolding sort
  All-of_sort P [] h = tt
  All-of_sort P (x ∷ xs) h = let (p, r) = All-of_place P x (sort xs) h in (p, All-of_sort P xs r)

  length-place : (x : A) (ys : List A) → length (place x ys) ≡ suc (length ys)
  unfolding place
  length-place x [] = refl
  length-place x (y ∷ ys) = ground (arith, length-place x ys)

  pub length-sort : (xs : List A) → length (sort xs) ≡ length xs
  unfolding sort
  length-sort [] = refl
  length-sort (x ∷ xs) = omega (arith, length-place x (sort xs), length-sort xs)

  -- A sort of at least one element has at least one.
  pub sort-cons : (x : A) (xs : List A) → (y : A) × (ys : List A) × (sort (x ∷ xs) ≡ y ∷ ys)
  unfolding sort place
  sort-cons x xs = go (sort xs)
    where
      go : (ys : List A) → (z : A) × (zs : List A) × (place x ys ≡ z ∷ zs)
      go [] = (x, [], refl)
      go (y ∷ ys) = elim (Bool-cases (lt y x)) [
        | inl e ↦ (y, place x ys, ground arith)
        | inr e ↦ (x, y ∷ ys, ground arith)
      ]

  place-perm : (x : A) (ys : List A) → Perm (place x ys) (x ∷ ys)
  unfolding place
  place-perm x [] = Perm.refl _
  place-perm x (y ∷ ys) =
      ground (
        arith,
        Perm.trans (Perm.cons y (place-perm x ys)) (Perm.swap x y ys),
        Perm.refl (x ∷ y ∷ ys),
      )

  pub sort-perm : (xs : List A) → Perm (sort xs) xs
  unfolding sort
  sort-perm [] = Perm.refl _
  sort-perm (x ∷ xs) = Perm.trans (place-perm x (sort xs)) (Perm.cons x (sort-perm xs))

filter-permᴰ {ℓ} :
    {A : Type ℓ} (p : A → Bool) (ys zs : List A) → Permᴰ ys zs → Permᴰ (filter p ys) (filter p zs)
filter-permᴰ p _ _ Permᴰ.nil = Permᴰ.nil
filter-permᴰ p _ _ (Permᴰ.cons {a = a} {b = b} {l₁ = ys} {l₂ = zs} e r) =
    let ih = filter-permᴰ p ys zs r in ground (arith, e, ih, Permᴰ.cons e ih)
filter-permᴰ p _ _ (Permᴰ.swap {a = a} {b = b} {a' = a'} {b' = b'} {l = l} e f) = ground (
  arith,
  Permᴰ.swap {a = a} {b = b} {a' = a'} {b' = b'} {l = filter p l} e f,
  Permᴰ.cons e (PermD.refl (filter p l)),
  Permᴰ.cons f (PermD.refl (filter p l)),
  PermD.refl (filter p l),
  e,
  f,
)
filter-permᴰ p _ _ (Permᴰ.trans r s) = Permᴰ.trans (filter-permᴰ p _ _ r) (filter-permᴰ p _ _ s)

-- A strict order in which two elements that neither precedes the other rank alike.
pub record IsStrictOrder {ℓ} {A : Type ℓ} (lt : A → A → Bool) : Type ℓ where
  pub asym : (a b : A) → lt a b ≡ true → lt b a ≡ false
  pub compare : (a b c : A) → lt a c ≡ true → (lt a b ≡ true) ⊎ (lt b c ≡ true)

module _ {ℓ} {A : Type ℓ} (lt : A → A → Bool) (o : IsStrictOrder lt) where
  below-All :
      (x y : A) (zs : List A)
      → lt y x ≡ false
      → All (λ z. lt z y ≡ false) zs
      → All (λ z. lt z x ≡ false) zs
  below-All x y [] h a = tt
  below-All x y (z ∷ zs) h (p, a) = (ground (arith, o.compare z y x), below-All x y zs h a)

  place-IsSorted : (x : A) (ys : List A) → IsSorted lt ys → IsSorted lt (place lt x ys)
  unfolding place
  place-IsSorted x [] h = (tt, tt)
  place-IsSorted x (y ∷ ys) (a, h) = ground (
    arith,
    o.asym y x,
    below-All x y ys,
    All-place lt (λ z. lt z y ≡ false) x ys,
    place-IsSorted x ys h,
  )

  pub sort-IsSorted : (xs : List A) → IsSorted lt (sort lt xs)
  unfolding sort
  sort-IsSorted [] = tt
  sort-IsSorted (x ∷ xs) = place-IsSorted x (sort lt xs) (sort-IsSorted xs)

  -- One of the two precedes the other.
  abbrev pub Differ : A → A → Type 0
  Differ a b = (lt a b ≡ true) ⊎ (lt b a ≡ true)

  abbrev pub AllDiffer : List A → Type 0
  AllDiffer [] = Unit
  AllDiffer (x ∷ xs) = All (Differ x) xs × AllDiffer xs

  place_comm :
      (x y : A) (zs : List A) → Differ x y → place lt x (place lt y zs) ≡ place lt y (place lt x zs)
  unfolding place
  place_comm x y [] d = ground (arith, o.asym x y, o.asym y x)
  place_comm x y (z ∷ zs) d =
      ground (arith, o.asym x y, o.asym y x, o.compare z x y, o.compare z y x, place_comm x y zs d)

  Differ-All : (x : A) (ys zs : List A) → Permᴰ ys zs → All (Differ x) ys → All (Differ x) zs
  Differ-All x _ _ Permᴰ.nil h = h
  Differ-All x _ _ (Permᴰ.cons e p) (d, h) = (subst (Differ x) e d, Differ-All x _ _ p h)
  Differ-All x _ _ (Permᴰ.swap e f) (d, (d', h)) =
      (subst (Differ x) f d', (subst (Differ x) e d, h))
  Differ-All x _ _ (Permᴰ.trans p q) h = Differ-All x _ _ q (Differ-All x _ _ p h)

  Differ-sym : {x y : A} → Differ x y → Differ y x
  Differ-sym (inl h) = inr h
  Differ-sym (inr h) = inl h

  AllDiffer-perm : (ys zs : List A) → Permᴰ ys zs → AllDiffer ys → AllDiffer zs
  AllDiffer-perm _ _ Permᴰ.nil h = h
  AllDiffer-perm _ _ (Permᴰ.cons {l₁ = ys} {l₂ = zs} e p) (d, h) =
      (subst (λ a. All (Differ a) zs) e (Differ-All _ ys zs p d), AllDiffer-perm ys zs p h)
  AllDiffer-perm _ _ (Permᴰ.swap {a = a} {b = b} {a' = a'} {b' = b'} {l = l} e f)
        ((d, ds), (ds', h)) =
      (
        (
          subst (λ c. Differ c b') f (subst (Differ b) e (Differ-sym {x = a} {y = b} d)),
          subst (λ c. All (Differ c) l) f ds',
        ),
        (subst (λ c. All (Differ c) l) e ds, h),
      )
  AllDiffer-perm _ _ (Permᴰ.trans p q) h = AllDiffer-perm _ _ q (AllDiffer-perm _ _ p h)

  -- A sort of elements that all differ does not depend on the order in which they come.
  pub sort-eq_of_permᴰ : (ys zs : List A) → Permᴰ ys zs → AllDiffer ys → sort lt ys ≡ sort lt zs
  unfolding sort
  sort-eq_of_permᴰ _ _ Permᴰ.nil h = refl
  sort-eq_of_permᴰ _ _ (Permᴰ.cons {l₁ = ys} {l₂ = zs} e p) (d, h) =
      cc (e, sort-eq_of_permᴰ ys zs p h)
  sort-eq_of_permᴰ _ _ (Permᴰ.swap {a = a} {b = b} {l = l} e f) ((d, ds), (ds', h)) =
      cc (e, f, place_comm a b (sort lt l) d)
  sort-eq_of_permᴰ _ _ (Permᴰ.trans {l₁ = xs} {l₂ = ys} p q) h =
      sort-eq_of_permᴰ _ _ p h ∙ sort-eq_of_permᴰ _ _ q (AllDiffer-perm xs ys p h)

  AllDiffer-filter : (p : A → Bool) (xs : List A) → AllDiffer xs → AllDiffer (filter p xs)
  AllDiffer-filter p [] h = tt
  AllDiffer-filter p (x ∷ xs) (d, h) =
      ground (arith, AllDiffer-filter p xs h, All-filter (Differ x) p xs d)

  -- So for the elements that pass a test.
  pub sort-filter-eq_of_permᴰ :
      (p : A → Bool) (ys zs : List A)
      → Permᴰ ys zs
      → AllDiffer ys
      → sort lt (filter p ys) ≡ sort lt (filter p zs)
  sort-filter-eq_of_permᴰ p ys zs r d =
      sort-eq_of_permᴰ _ _ (filter-permᴰ p ys zs r) (AllDiffer-filter p ys d)

pub filter-perm {ℓ} :
    {A : Type ℓ} (p : A → Bool) (ys zs : List A) → Perm ys zs → Perm (filter p ys) (filter p zs)
filter-perm {A} p ys zs r = ∥∥₁_map {B = Permᴰ (filter p ys) (filter p zs)} r (filter-permᴰ p ys zs)
