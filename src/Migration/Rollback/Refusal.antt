-- ===== src/Migration/Rollback/Refusal.antt =====
-- A target that somebody else has changed or removed, before commitTarget, recoverOne and
-- RollbackTransactionImpl of internal/migration/transaction.go.
use droid_proxy.Prelude.{
  ◌≡◌, ◌≢◌, refl, Bool, true, false, ◌||◌, Option, none, some, List, [], ◌∷◌, if◌then◌else◌, eq_iff,
  arith, ◌⊎◌, inl, inr, Bool-cases,
}
use mathlib.Core.Option.{some_inj}
use droid_proxy.Prelude.GoLibrary.{GoLibrary}
use droid_proxy.Prelude.Maps.{string_eq, lookup}
use droid_proxy.Migration.World.{
  File, Target, Record, World, Failure, third_hash, not_completed, not_trusted, hash_changed, err,
  check_target_trust, hash_file, is_trusted,
}
use droid_proxy.Migration.Targets.{
  commit_target, targets, Assessment, target_third, target_missing, assess, assess_target,
}
use droid_proxy.Migration.Targets
use droid_proxy.Migration.Journal.{is_completed}
use droid_proxy.Migration.Recovery.{
  recover_one, recover_from, recover_split_forward, is_third, is_missing,
}
use droid_proxy.Migration.Rollback.{verify_targets, rollback_record}

-- The target's file is gone, is no regular file, or holds neither the old nor the new content.
abbrev pub IsForeign : GoLibrary → World → Target → Type 0
IsForeign go w t =
    (lookup t.path w.files ≡ none)
    ⊎ ((f : File) × (lookup t.path w.files ≡ some f)
        × ((f.is_regular ≡ false)
            ⊎ ((f.is_readable ≡ true)
                × (go.sha256_hex f.content ≢ t.old_hash)
                × (go.sha256_hex f.content ≢ t.new_hash))))

abbrev blocks : Assessment → Bool
blocks a = is_third a || is_missing a

assess_foreign :
    (go : GoLibrary) (w : World) (t : Target)
    → IsForeign go w t
    → blocks (assess_target go w t) ≡ true
unfolding assess_target
assess_foreign go w t (inl n) = rw n refl
assess_foreign go w t (inr (f, e, inl h)) = rw (e, h) refl
assess_foreign go w t (inr (f, e, inr (k, p, q))) = ground (
  arith,
  e,
  k,
  p,
  q,
  eq_iff (go.sha256_hex f.content) t.old_hash,
  eq_iff (go.sha256_hex f.content) t.new_hash,
)

abbrev refusal : Assessment → Assessment → Failure
refusal a b = if is_third a || is_third b then third_hash else Failure.target_missing

refuses_from :
    (go : GoLibrary) (r : Record) (a b : Assessment) (w : World)
    → (blocks a || blocks b) ≡ true
    → recover_from go r a b w ≡ (err (refusal a b), w)
unfolding recover_from recover_split_forward
refuses_from go r a b w h = ground arith

-- A target of the record.
abbrev pub IsTarget : Target → Record → Type 0
IsTarget t r = (r.config ≡ some t) ⊎ (r.factory ≡ some t)

assess_target_of :
    (go : GoLibrary) (w : World) (t : Target) (r : Record)
    → IsTarget t r
    → IsForeign go w t
    → (blocks (assess go w r.config) || blocks (assess go w r.factory)) ≡ true
assess_target_of go w t r (inl e) h = rw (e, assess_foreign go w t h) refl
assess_target_of go w t r (inr e) h =
    let b : blocks (assess go w r.factory) ≡ true = rw e (assess_foreign go w t h) in ground arith

-- The list of targets has one that blocks.
abbrev Blocked : GoLibrary → World → List Target → Type 0
Blocked go w [] = true ≡ false
Blocked go w (t ∷ ts) = (blocks (assess_target go w t) ≡ true) ⊎ Blocked go w ts

verify_targets-Blocked :
    (go : GoLibrary) (w : World) (ts : List Target)
    → Blocked go w ts
    → (e : Failure) × (verify_targets go ts w ≡ (err e, w))
unfolding verify_targets
verify_targets-Blocked go w [] h = cc
verify_targets-Blocked go w (t ∷ ts) (inl h) =
    (refusal (assess_target go w t) (assess_target go w t), ground arith)
verify_targets-Blocked go w (t ∷ ts) (inr h) =
    let (e, k) = verify_targets-Blocked go w ts h in
    let a = assess_target go w t in (if blocks a then refusal a a else e, ground (arith, k))

targets-Blocked :
    (go : GoLibrary) (w : World) (t : Target) (c f : Option Target)
    → (c ≡ some t) ⊎ (f ≡ some t)
    → blocks (assess_target go w t) ≡ true
    → Blocked go w (Targets.present c (Targets.present f []))
targets-Blocked go w t none none (inl e) h = cc
targets-Blocked go w t none none (inr e) h = cc
targets-Blocked go w t none (some v) (inl e) h = cc
targets-Blocked go w t none (some v) (inr e) h = inl (rw (some_inj.0 e) h)
targets-Blocked go w t (some u) f (inl e) h = inl (rw (some_inj.0 e) h)
targets-Blocked go w t (some u) none (inr e) h = cc
targets-Blocked go w t (some u) (some v) (inr e) h = inr (inl (rw (some_inj.0 e) h))

rollback_record_refuses :
    (go : GoLibrary) (w : World) (t : Target) (r : Record)
    → IsTarget t r
    → IsForeign go w t
    → (e : Failure) × (rollback_record go r w ≡ (err e, w))
unfolding rollback_record targets
rollback_record_refuses go w t r m h =
    let (e, k) =
      verify_targets-Blocked go w (targets r)
        (targets-Blocked go w t r.config r.factory m (assess_foreign go w t h)) in
    elim (Bool-cases (is_completed r.status)) [
      | inl p ↦ (e, ground (arith, k))
      | inr p ↦ (not_completed, ground arith)
    ]

commit_target_refuses :
    (go : GoLibrary) (w : World) (t : Target)
    → IsForeign go w t
    → (e : Failure) × (commit_target go t w ≡ (err e, w))
unfolding commit_target check_target_trust hash_file
commit_target_refuses go w t h = elim (Bool-cases (is_trusted (lookup t.path w.files))) [
  | inr p ↦ (not_trusted, ground arith)
  | inl p ↦ (hash_changed, trusted h p)
]
  where
    trusted :
        IsForeign go w t
        → is_trusted (lookup t.path w.files) ≡ true
        → commit_target go t w ≡ (err hash_changed, w)
    trusted (inl n) q = absurd (ground arith)
    trusted (inr (f, e, inl k)) q = absurd (ground arith)
    trusted (inr (f, e, inr (k, a, b))) q =
        ground (arith, a, eq_iff (go.sha256_hex f.content) t.old_hash)

-- Take a target of a record whose file is gone, is no regular file, or is readable and holds neither
-- the old nor the new content, by the hashes. Then commitTarget of it, recoverOne of the record and
-- the rollback of the record each return an error and change nothing: no file, no journal, no private
-- file.
pub foreign_content_kept :
    (go : GoLibrary) (w : World) (t : Target) (r : Record)
    → IsTarget t r
    → IsForeign go w t
    → ((e : Failure) × (commit_target go t w ≡ (err e, w)))
      × ((e : Failure) × (recover_one go r w ≡ (err e, w)))
      × ((e : Failure) × (rollback_record go r w ≡ (err e, w)))
unfolding recover_one
foreign_content_kept go w t r m h =
    let a = assess go w r.config in
    let b = assess go w r.factory in
    (
      commit_target_refuses go w t h,
      (refusal a b, refuses_from go r a b w (assess_target_of go w t r m h)),
      rollback_record_refuses go w t r m h,
    )
