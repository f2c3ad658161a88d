-- ===== src/Prelude/Maps.antt =====
-- Go maps as association lists: a write replaces the entry of its key or adds one, `delete` of a
-- missing key does nothing, and a `range` goes through the list. The order of the list stands for
-- the order in which one `range` happens to visit the map.
use Prim.Native.Nat.{◌≤◌, suc}
use mathlib.Core.Path.{◌≡◌, refl, sym}
use mathlib.Core.Logic.{◌↔◌, ◌≢◌}
use mathlib.Core.Bool.{Bool, true, false}
use mathlib.Core.Option.{Option, none, some}
use mathlib.Core.List.{List, [], ◌∷◌}
use native.Mathlib.Omega.{arith}
use Prim.Native.String.{String}
use text.Mathlib.Text.{◌==◌ as str_eq}
use text.Mathlib.TextEquality.{eq_iff}
use droid_proxy.Prelude.Tests.{if◌then◌else◌, is_none}
use droid_proxy.Prelude.Lists.{length, All, All-map_prop}
use droid_proxy.Prelude.Sort.{place, sort}

-- Comparable keys.
pub record Eq {ℓ} (A : Type ℓ) : Type ℓ where
  pub beq : A → A → Bool
  pub beq_iff : (a b : A) → (beq a b ≡ true) ↔ (a ≡ b)

instance abbrev pub string_eq : Eq String
string_eq = record { beq = str_eq; beq_iff = eq_iff }

pub beq-apart {ℓ} : {K : Type ℓ} ⦃e : Eq K⦄ (k j : K) → e.beq k j ≡ false → k ≢ j
beq-apart ⦃e⦄ k j h same = cc ((e.beq_iff k j).1 same, h)

module _ {ℓ κ} {K : Type ℓ} {V : Type κ} ⦃e : Eq K⦄ where
  unfoldable pub lookup : K → List (K × V) → Option V
  lookup k [] = none
  lookup k ((j, v) ∷ m) = if e.beq j k then some v else lookup k m

  unfoldable pub insert : K → V → List (K × V) → List (K × V)
  insert k v [] = (k, v) ∷ []
  insert k v ((j, w) ∷ m) = if e.beq j k then (k, v) ∷ m else (j, w) ∷ insert k v m

  unfoldable pub erase : K → List (K × V) → List (K × V)
  erase k [] = []
  erase k ((j, w) ∷ m) = if e.beq j k then m else (j, w) ∷ erase k m

  pub lookup-insert :
      (k j : K) (v : V) (m : List (K × V))
      → lookup j (insert k v m) ≡ (if e.beq k j then some v else lookup j m)
  unfolding lookup insert
  lookup-insert k j v [] = refl
  lookup-insert k j v ((i, w) ∷ m) =
      ground (arith, e.beq_iff k j, e.beq_iff i k, e.beq_iff i j, lookup-insert k j v m)

  -- No key of the map is `k`.
  abbrev pub Lacks : K → List (K × V) → Type ℓ
  Lacks k [] = Unit
  Lacks k ((j, w) ∷ m) = (j ≢ k) × Lacks k m

  -- A map has one entry for each key.
  abbrev pub IsMap : List (K × V) → Type ℓ
  IsMap [] = Unit
  IsMap ((j, w) ∷ m) = Lacks j m × IsMap m

  pub lookup_of_Lacks : (k : K) (m : List (K × V)) → Lacks k m → lookup k m ≡ none
  unfolding lookup
  lookup_of_Lacks k [] h = refl
  lookup_of_Lacks k ((j, w) ∷ m) (h, hs) = ground (arith, e.beq_iff j k, lookup_of_Lacks k m hs)

  pub insert-Lacks :
      (k j : K) (v : V) (m : List (K × V)) → k ≢ j → Lacks j m → Lacks j (insert k v m)
  unfolding insert
  insert-Lacks k j v [] h l = (h, tt)
  insert-Lacks k j v ((i, w) ∷ m) h (l, ls) = ground (arith, insert-Lacks k j v m h ls)

  pub insert-IsMap : (k : K) (v : V) (m : List (K × V)) → IsMap m → IsMap (insert k v m)
  unfolding insert
  insert-IsMap k v [] h = (tt, tt)
  insert-IsMap k v ((i, w) ∷ m) (l, h) =
      ground (arith, e.beq_iff i k, insert-IsMap k v m h, insert-Lacks k i v m)

  pub erase-Lacks : (k j : K) (m : List (K × V)) → Lacks j m → Lacks j (erase k m)
  unfolding erase
  erase-Lacks k j [] l = tt
  erase-Lacks k j ((i, w) ∷ m) (l, ls) = ground (arith, erase-Lacks k j m ls)

  pub erase-IsMap : (k : K) (m : List (K × V)) → IsMap m → IsMap (erase k m)
  unfolding erase
  erase-IsMap k [] h = tt
  erase-IsMap k ((i, w) ∷ m) (l, h) = ground (arith, erase-IsMap k m h, erase-Lacks k i m l)

  pub lookup-erase :
      (k j : K) (m : List (K × V))
      → IsMap m
      → lookup j (erase k m) ≡ (if e.beq k j then none else lookup j m)
  unfolding lookup erase
  lookup-erase k j [] h = ground arith
  lookup-erase k j ((i, w) ∷ m) (l, h) = ground (
    arith,
    e.beq_iff k j,
    e.beq_iff i k,
    e.beq_iff i j,
    lookup-erase k j m h,
    lookup_of_Lacks i m l,
  )

  pub length-erase-le : (k : K) (m : List (K × V)) → length (erase k m) ≤ length m
  unfolding erase
  length-erase-le k [] = omega arith
  length-erase-le k ((i, w) ∷ m) = ground (arith, length-erase-le k m)

  lookup-tail :
      (k : K) (v : V) (m rest : List (K × V))
      → Lacks k rest
      → All (λ x. lookup x.0 m ≡ some x.1) rest
      → All (λ x. lookup x.0 ((k, v) ∷ m) ≡ some x.1) rest
  unfolding lookup
  lookup-tail k v m [] l h = tt
  lookup-tail k v m ((j, w) ∷ rest) (l, ls) (h, hs) =
      (ground (arith, e.beq_iff k j), lookup-tail k v m rest ls hs)

  -- Each entry of a map is what its key looks up.
  pub All-lookup : (m : List (K × V)) → IsMap m → All (λ x. lookup x.0 m ≡ some x.1) m
  unfolding lookup
  All-lookup [] h = tt
  All-lookup ((k, v) ∷ m) (l, h) =
      (ground (arith, e.beq_iff k k), lookup-tail k v m m l (All-lookup m h))

  pub length-erase :
      (k : K) (m : List (K × V))
      → is_none (lookup k m) ≡ false
      → suc (length (erase k m)) ≡ length m
  unfolding erase lookup
  length-erase k [] h = cc
  length-erase k ((j, w) ∷ m) h = ground (arith, length-erase k m)

  pub All-erase {ν} : (P : K × V → Type ν) (k : K) (m : List (K × V)) → All P m → All P (erase k m)
  unfolding erase
  All-erase P k [] h = tt
  All-erase P k ((j, w) ∷ m) (p, h) = ground (arith, p, h, All-erase P k m h)

  -- Every key of a map is found in it.
  pub All-found : (m : List (K × V)) → IsMap m → All (λ x. is_none (lookup x.0 m) ≡ false) m
  All-found m h = All-map_prop _ _ m (λ x e. rw e refl) (All-lookup m h)

  place-Lacks :
      (lt : (K × V) → (K × V) → Bool) (k : K) (x : K × V) (m : List (K × V))
      → x.0 ≢ k
      → Lacks k m
      → Lacks k (place lt x m)
  unfolding place
  place-Lacks lt k x [] h l = (h, tt)
  place-Lacks lt k x (y ∷ m) h (l, ls) = ground (arith, h, l, ls, place-Lacks lt k x m h ls)

  place-IsMap :
      (lt : (K × V) → (K × V) → Bool) (x : K × V) (m : List (K × V))
      → Lacks x.0 m
      → IsMap m
      → IsMap (place lt x m)
  unfolding place
  place-IsMap lt x [] h i = (tt, tt)
  place-IsMap lt x (y ∷ m) (h, hs) (l, i) =
      ground
        (arith, h, hs, l, i, place-IsMap lt x m hs i, place-Lacks lt y.0 x m (λ e. h (sym e)) l)

  sort-Lacks :
      (lt : (K × V) → (K × V) → Bool) (k : K) (m : List (K × V)) → Lacks k m → Lacks k (sort lt m)
  unfolding sort
  sort-Lacks lt k [] l = tt
  sort-Lacks lt k (x ∷ m) (l, ls) = place-Lacks lt k x (sort lt m) l (sort-Lacks lt k m ls)

  pub sort-IsMap : (lt : (K × V) → (K × V) → Bool) (m : List (K × V)) → IsMap m → IsMap (sort lt m)
  unfolding sort
  sort-IsMap lt [] i = tt
  sort-IsMap lt (x ∷ m) (l, i) =
      place-IsMap lt x (sort lt m) (sort-Lacks lt x.0 m l) (sort-IsMap lt m i)
