-- ===== src/Migration/Rules.antt =====
-- Reasoning about the writes of a migration: what holds after a run under any answers of the system,
-- and what a run does when every write is done. internal/migration/transaction.go.
use droid_proxy.Prelude.{
  ◌≡◌, ◌≢◌, refl, ◌∙◌, All, List, [], ◌∷◌, String, str_eq, eq_iff, arith, inl, inr, Bool-cases,
}
use droid_proxy.Prelude.Maps.{string_eq, lookup, erase}
use droid_proxy.Migration.World.{
  Target, Answer, succeeds, fails, dies, Record, World, Outcome, ok, err, crashed, M, answered,
  forgive, then_run, effect, ignore, remove,
}
use droid_proxy.Migration.Targets.{targets, remove_staged, cleanup_staged_files}

-- `Q` of the result, or `E` after an error or the end of the process.
abbrev pub Post :
    {A : Type 0} → (A → World → Type 0) → (World → Type 0) → Outcome A × World → Type 0
Post Q E (ok a, w) = Q a w
Post Q E (err e, w) = E w
Post Q E (crashed, w) = E w

pub bind-Post :
    {A B : Type 0} (Q : A → World → Type 0) (R : B → World → Type 0) (E : World → Type 0)
    (f : A → M B) (x : Outcome A × World)
    → Post Q E x
    → ((a : A) (v : World) → Q a v → Post R E (f a v))
    → Post R E (then_run f x)
bind-Post Q R E f (ok a, w) h k = k a w h
bind-Post Q R E f (err e, w) h k = h
bind-Post Q R E f (crashed, w) h k = h

pub effect-Post :
    (Q : Unit {0} → World → Type 0) (E : World → Type 0) (change : World → World) (w : World)
    → ((rest : List Answer) → Q tt (change (record w { answers = rest })))
    → ((rest : List Answer) → E (record w { answers = rest }))
    → Post Q E (effect change w)
unfolding effect
effect-Post Q E change w done stays = go w.answers (done w.answers)
  where
    go : (rest : List Answer) → Q tt (change w) → Post Q E (answered change w rest)
    go [] h = h
    go (succeeds ∷ rest) h = done rest
    go (fails ∷ rest) h = stays rest
    go (dies ∷ rest) h = stays rest

pub ignore-Post :
    (P E : World → Type 0) (m : M (Unit {0})) (w : World)
    → ((v : World) → P v → E v)
    → Post (λ u. P) P (m w)
    → Post (λ u. P) E (ignore m w)
unfolding ignore
ignore-Post P E m w weaken h = go (m w) h
  where
    go : (x : Outcome (Unit {0}) × World) → Post (λ u. P) P x → Post (λ u. P) E (forgive x)
    go (ok a, v) k = k
    go (err e, v) k = k
    go (crashed, v) k = weaken v k

pub Post-mono :
    {A : Type 0} (Q R : A → World → Type 0) (E F : World → Type 0) (x : Outcome A × World)
    → ((a : A) (v : World) → Q a v → R a v)
    → ((v : World) → E v → F v)
    → Post Q E x
    → Post R F x
Post-mono Q R E F (ok a, v) k l h = k a v h
Post-mono Q R E F (err e, v) k l h = l v h
Post-mono Q R E F (crashed, v) k l h = l v h

pub post_both :
    {A : Type 0} (P : World → Type 0) (x : Outcome A × World) → Post (λ u. P) P x → P x.1
post_both P (ok a, v) h = h
post_both P (err e, v) h = h
post_both P (crashed, v) h = h

-- What does not depend on the private files and the answers outlives the removal of staged files.
pub remove_staged-Post :
    (P : World → Type 0)
    → ((v : World) (m : List (String × String)) (rest : List Answer)
        → P v
        → P (record v { private_files = m; answers = rest }))
    → (ts : List Target) (w : World) → P w
    → Post (λ u. P) P (remove_staged ts w)
unfolding remove
remove_staged-Post P keep [] w h = h
remove_staged-Post P keep (t ∷ ts) w h = elim (Bool-cases (str_eq t.staged_path "")) [
  | inl e ↦ rw e (remove_staged-Post P keep ts w h)
  | inr e ↦ rw e (
      bind-Post (λ u. P) (λ u. P) P (λ u. remove_staged ts) _
        (ignore-Post P P _ w (λ v k. k)
          (effect-Post (λ u. P) P _ w (λ rest. keep w (erase t.staged_path w.private_files) rest h)
            (λ rest. keep w w.private_files rest h)))
        (λ u v k. remove_staged-Post P keep ts v k))
]

-- A world in which every write to come is done.
abbrev pub quiet : World → World
quiet w = record w { answers = [] }

erase_other :
    (k j : String) (m : List (String × String)) → k ≢ j → lookup j (erase k m) ≡ lookup j m
unfolding lookup erase
erase_other k j [] d = refl
erase_other k j ((i, v) ∷ m) d =
    ground (arith, d, eq_iff i k, eq_iff i j, eq_iff k j, erase_other k j m d)

-- What a removal of staged files leaves: the private files that are none of them are kept.
abbrev pub Removed : List Target → M (Unit {0}) → World → Type 0
Removed ts m w =
    (after : List (String × String)) × (m (quiet w)
      ≡ (ok tt, quiet (record w { private_files = after })))
    × ((p : String) → All (λ t. t.staged_path ≢ p) ts → lookup p after ≡ lookup p w.private_files)

remove_staged-quiet : (ts : List Target) (w : World) → Removed ts (remove_staged ts) w
unfolding remove effect ignore
remove_staged-quiet [] w = (w.private_files, refl, λ p h. refl)
remove_staged-quiet (t ∷ ts) w = elim (Bool-cases (str_eq t.staged_path "")) [
  | inl e ↦ let (m, h, k) = remove_staged-quiet ts w in (m, rw e h, λ p o. k p o.1)
  | inr e ↦
      let (m, h, k) =
        remove_staged-quiet ts (record w { private_files = erase t.staged_path w.private_files }) in
      (m, rw e h, λ p o. k p o.1 ∙ erase_other t.staged_path p w.private_files o.0)
]

pub cleanup_quiet : (r : Record) (w : World) → Removed (targets r) (cleanup_staged_files r) w
unfolding cleanup_staged_files
cleanup_quiet r w = remove_staged-quiet (targets r) w
