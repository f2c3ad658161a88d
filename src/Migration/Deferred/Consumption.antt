-- ===== src/Migration/Deferred/Consumption.antt =====
-- When the recorded upgrade is consumed and when the user's files are changed:
-- AttemptDeferredMigration in internal/migration/managed_restart.go.
use droid_proxy.Prelude.{
  ◌≡◌, refl, sym, Bool, true, false, Option, none, some, List, [], ◌∷◌, String, str_eq, inl, inr,
  ◌⊎◌, ◌∙◌, ap, Bool-cases, if_branches, not,
}
use droid_proxy.Prelude.GoLibrary.{GoLibrary}
use droid_proxy.Prelude.Maps.{string_eq}
use droid_proxy.Migration.World.{
  World, Answer, succeeds, fails, dies, Failure, Outcome, ok, err, crashed, io, answered, boundary,
  effect,
}
use droid_proxy.Migration.Recovery.{TransactionResult}
use droid_proxy.Migration.Transaction.{Plan, Setting, commit_transaction}
use droid_proxy.Migration.Deferred.{
  Deferred, Provenance, ProvenanceFile, absent, linked, unparsable, stored, then_do, lifted, lift,
  read_provenance, consume_provenance, if_done, read_file, after_consumption, validate_provenance,
  is_service_valid, RestartOptions, Managed, migrated_port, skipped, no_provenance, ineligible,
  migrate_planned, migrate_recorded, attempt_deferred_migration,
}

-- No file and no journal has changed.
pub record IsUntouched (v w : World) : Type 0 where
  files : w.files ≡ v.files
  private_files : w.private_files ≡ v.private_files
  journals : w.journals ≡ v.journals

pub record IsStill (s t : Deferred) : Type 0 where
  untouched : IsUntouched s.world t.world
  kept : t.provenance ≡ s.provenance

-- What a migration needs: the record of an upgrade that is valid before the run and of this config,
-- and an eligible plan.
pub record IsJustified (go : GoLibrary) (opts : RestartOptions)
    (plan_migration : World → Option Plan) (s : Deferred) : Type 0 where
  wanted : opts.no_migrate_port ≡ false
  recorded : Provenance
  found : s.provenance ≡ stored recorded
  valid : validate_provenance go opts.installed_binary_path opts.config_path s.world recorded ≡ true
  of_config : str_eq recorded.config_path opts.config_path ≡ true
  planned_in : World
  as_before : IsUntouched s.world planned_in
  plan : Plan
  planned : plan_migration planned_in ≡ some plan
  eligible : plan.config_eligible ≡ true
  safe : plan.factory_unsafe ≡ false

abbrev pub IsGuarded :
    GoLibrary
    → RestartOptions
    → (World → Option Plan)
    → Deferred
    → Outcome Managed × Deferred
    → Type 0
IsGuarded go opts f s (ok (migrated_port r true), t) =
    IsJustified go opts f s × (t.provenance ≡ absent)
IsGuarded go opts f s (ok (migrated_port r false), t) =
    IsJustified go opts f s × (t.provenance ≡ s.provenance)
IsGuarded go opts f s (ok skipped, t) = IsStill s t
IsGuarded go opts f s (ok no_provenance, t) = IsStill s t × (s.provenance ≡ absent)
IsGuarded go opts f s (ok ineligible, t) = IsUntouched s.world t.world
IsGuarded go opts f s (err e, t) =
    (t.provenance ≡ s.provenance) × (IsUntouched s.world t.world ⊎ IsJustified go opts f s)
IsGuarded go opts f s (crashed, t) =
    (t.provenance ≡ s.provenance) × (IsUntouched s.world t.world ⊎ IsJustified go opts f s)

IsStill-refl : (s : Deferred) → IsStill s s
IsStill-refl s = record {
  untouched = record { files = refl; private_files = refl; journals = refl };
  kept = refl;
}

IsStill-trans : (r s t : Deferred) → IsStill r s → IsStill s t → IsStill r t
IsStill-trans r s t h k = record {
  untouched = record {
    files = k.untouched.files ∙ h.untouched.files;
    private_files = k.untouched.private_files ∙ h.untouched.private_files;
    journals = k.untouched.journals ∙ h.untouched.journals;
  };
  kept = k.kept ∙ h.kept;
}

-- A call of the system that changes nothing here.
boundary-elim :
    (R : Outcome (Unit {0}) × Deferred → Type 0) (s : Deferred)
    → ((t : Deferred) → IsStill s t → R (ok tt, t))
    → ((t : Deferred) → IsStill s t → (e : Failure) → R (err e, t))
    → ((t : Deferred) → IsStill s t → R (crashed, t))
    → R (lift boundary s)
unfolding lift effect
boundary-elim R s on_ok on_err on_crash = go s.world.answers (on_ok s (IsStill-refl s))
  where
    at : List Answer → Deferred
    at rest = record s { world = record s.world { answers = rest } }

    still : (rest : List Answer) → IsStill s (at rest)
    still rest = record {
      untouched = record { files = refl; private_files = refl; journals = refl };
      kept = refl;
    }

    go :
        (rest : List Answer)
        → R (ok tt, s)
        → R (lifted s.provenance (answered (λ w. w) s.world rest))
    go [] h = h
    go (succeeds ∷ rest) h = on_ok (at rest) (still rest)
    go (fails ∷ rest) h = on_err (at rest) (still rest) io
    go (dies ∷ rest) h = on_crash (at rest) (still rest)

validate_untouched :
    (go : GoLibrary) (binary config : String) (p : Provenance) (v w : World)
    → IsUntouched v w
    → validate_provenance go binary config w p ≡ true
    → validate_provenance go binary config v p ≡ true
unfolding validate_provenance is_service_valid
validate_untouched go binary config p v w h e =
    ap (λ fs. validate_provenance go binary config (record v { files = fs }) p) (sym h.files) ∙ e

not-false : (b : Bool) → not b ≡ false → b ≡ true
not-false true e = refl
not-false false e = sym e

module _ (go : GoLibrary) (x : Setting) (opts : RestartOptions)
    (plan_migration : World → Option Plan) (s : Deferred)
    (wanted : opts.no_migrate_port ≡ false) where
  abbrev Guard : Outcome Managed × Deferred → Type 0
  Guard = IsGuarded go opts plan_migration s

  -- The end of a run whose plan was committed.
  migrated-Guarded :
      IsJustified go opts plan_migration s
      → (t : Deferred) → t.provenance ≡ s.provenance
      → (r : TransactionResult)
      → Guard
          (after_consumption (migrated_port r true) (migrated_port r false) (consume_provenance t))
  unfolding consume_provenance
  migrated-Guarded j t k r =
      boundary-elim
        (λ y.
          Guard
            (after_consumption (migrated_port r true) (migrated_port r false) (if_done absent y)))
        t (λ u h. (j, refl)) (λ u h e. (j, h.kept ∙ k)) (λ u h. (h.kept ∙ k, inr j))

  committed-Guarded :
      IsJustified go opts plan_migration s
      → (q : ProvenanceFile) → q ≡ s.provenance
      → (y : Outcome TransactionResult × World)
      → Guard (
          then_do
            (λ r t.
              after_consumption
                (migrated_port r true)
                (migrated_port r false)
                (consume_provenance t))
            (lifted q y))
  committed-Guarded j q k (ok r, w) = migrated-Guarded j (record { world = w; provenance = q }) k r
  committed-Guarded j q k (err e, w) = (k, inr j)
  committed-Guarded j q k (crashed, w) = (k, inr j)

  ineligible-Guarded :
      (t : Deferred)
      → IsStill s t
      → Guard (after_consumption ineligible ineligible (consume_provenance t))
  unfolding consume_provenance
  ineligible-Guarded t k =
      boundary-elim (λ y. Guard (after_consumption ineligible ineligible (if_done absent y))) t
        (λ u h. (IsStill-trans s t u k h).untouched) (λ u h e. (IsStill-trans s t u k h).untouched)
        (λ u h. (h.kept ∙ k.kept, inl (IsStill-trans s t u k h).untouched))

  planned-Guarded :
      (t : Deferred)
      → IsStill s t
      → (p : Provenance) → s.provenance ≡ stored p
      → validate_provenance go opts.installed_binary_path opts.config_path s.world p ≡ true
      → str_eq p.config_path opts.config_path ≡ true
      → (planned : Option Plan) → plan_migration t.world ≡ planned
      → Guard (migrate_planned go x planned t)
  unfolding migrate_planned lift
  planned-Guarded t k p found valid same none e = (k.kept, inl k.untouched)
  planned-Guarded t k p found valid same (some plan) e =
      if_branches Guard (not plan.config_eligible) _ _ (λ f. ineligible-Guarded t k)
        (λ f.
          if_branches Guard plan.factory_unsafe _ _ (λ g. k)
            (λ g.
              committed-Guarded
                (record {
                  wanted = wanted;
                  recorded = p;
                  found = found;
                  valid = valid;
                  of_config = same;
                  planned_in = t.world;
                  as_before = k.untouched;
                  plan = plan;
                  planned = e;
                  eligible = not-false plan.config_eligible f;
                  safe = g;
                })
                t.provenance k.kept (commit_transaction go x plan t.world)))

  recorded-Guarded :
      (t : Deferred)
      → IsStill s t
      → (q : ProvenanceFile) → t.provenance ≡ q
      → Guard (then_do (migrate_recorded go x opts plan_migration) (read_file q t))
  unfolding migrate_recorded
  recorded-Guarded t k absent e = (k, sym k.kept ∙ e)
  recorded-Guarded t k linked e = (k.kept, inl k.untouched)
  recorded-Guarded t k unparsable e = (k.kept, inl k.untouched)
  recorded-Guarded t k (stored p) e =
      elim (Bool-cases
        (validate_provenance go opts.installed_binary_path opts.config_path t.world p)) [
          | inr f ↦ rw f k
          | inl f ↦ elim (Bool-cases (str_eq p.config_path opts.config_path)) [
            | inr g ↦ rw (f, g) k
            | inl g ↦
                rw (f, g)
                  (planned-Guarded t k p (sym k.kept ∙ e)
                    (validate_untouched go opts.installed_binary_path opts.config_path p s.world
                      t.world k.untouched f)
                    g (plan_migration t.world) refl)
          ]
        ]

  read-Guarded :
      (t : Deferred)
      → IsStill s t
      → Guard (then_do (migrate_recorded go x opts plan_migration) (read_provenance t))
  unfolding read_provenance
  read-Guarded t k =
      boundary-elim
        (λ y. Guard (
          then_do (migrate_recorded go x opts plan_migration)
            (then_do (λ u v. read_file v.provenance v) y)))
        t (λ u h. recorded-Guarded u (IsStill-trans s t u k h) u.provenance refl)
        (λ u h e. (h.kept ∙ k.kept, inl (IsStill-trans s t u k h).untouched))
        (λ u h. (h.kept ∙ k.kept, inl (IsStill-trans s t u k h).untouched))

-- Whatever the system answers, an attempt changes a file or a journal only if migration is not
-- turned off, the record found is that of an upgrade, valid against the files of before and of this
-- config, and the plan made then is eligible with safe factory settings. The record is gone after a
-- migration whose result says that it was consumed; it is as before after an error, the end of the
-- process, a skip, and a migration whose result says that its consumption failed. A run that ends in
-- a skip or in no record found leaves everything as it was, and one that is ineligible leaves the
-- files and journals.
pub attempt_deferred_migration-IsGuarded :
    (go : GoLibrary) (x : Setting) (opts : RestartOptions) (plan_migration : World → Option Plan)
    (s : Deferred)
    → IsGuarded go opts plan_migration s (attempt_deferred_migration go x opts plan_migration s)
unfolding attempt_deferred_migration
attempt_deferred_migration-IsGuarded go x opts plan_migration s =
    if_branches (IsGuarded go opts plan_migration s) opts.no_migrate_port _ _ (λ e. IsStill-refl s)
      (λ e.
        boundary-elim
          (λ y. IsGuarded go opts plan_migration s (
            then_do (λ u v. then_do (migrate_recorded go x opts plan_migration) (read_provenance v))
              y))
          s (read-Guarded go x opts plan_migration s e) (λ u h e. (h.kept, inl h.untouched))
          (λ u h. (h.kept, inl h.untouched)))
