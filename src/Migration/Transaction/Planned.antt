-- ===== src/Migration/Transaction/Planned.antt =====
-- The preparation of a transaction under any answers of the system: prepareTarget and the staging of
-- CommitTransaction in internal/migration/transaction.go.
use Prim.Native.String.{◌++◌}
use droid_proxy.Prelude.{
  ◌≡◌, ◌≢◌, refl, ◌∙◌, true, false, Option, none, some, List, String, inl, inr, eq_iff, arith,
  Option-cases, Bool-cases,
}
use package.text.Mathlib.TextLemmas.{append_cancel_left}
use droid_proxy.Prelude.GoLibrary.{GoLibrary}
use droid_proxy.Prelude.Maps.{string_eq, lookup, insert, lookup-insert, beq-apart}
use droid_proxy.Migration.World.{File, Target, Record, Status, World, write_private_file}
use droid_proxy.Migration.Targets.{prepare_target, backup_dir}
use droid_proxy.Migration.Transaction.{
  Plan, Setting, has_factory, prepare_raw, prepare_factory, stage, stage_factory, prepare,
}
use droid_proxy.Migration.Rules.{Post, bind-Post, effect-Post}
use droid_proxy.Migration.Recovery.States.{Usable, IsOld}
use droid_proxy.Migration.Recovery.Coherence.{Each, Apart, Changes}

-- The user's files and the journals are those of `w`.
abbrev pub Same : World → World → Type 0
Same w v = (v.files ≡ w.files) × (v.journals ≡ w.journals)

abbrev staged_at : Setting → String → String
staged_at x name = backup_dir x.root x.tx_id ++ "/" ++ name ++ ".staged"

-- What prepareTarget makes of a file.
record IsPrepared (go : GoLibrary) (x : Setting) (name path raw : String) (t : Target)
    : Type 0 where
  of_path : t.path ≡ path
  of_raw : t.old_hash ≡ go.sha256_hex raw
  of_staged : t.staged_path ≡ staged_at x name
  unmarked : t.committed ≡ false

prepare_target-Post :
    (go : GoLibrary) (x : Setting) (name path raw : String) (w v : World)
    → Same w v
    → Post
        (λ t y. Same w y × IsPrepared go x name path raw t)
        (Same w)
        (prepare_target go path x.root x.tx_id name raw v)
unfolding prepare_target write_private_file
prepare_target-Post go x name path raw w v same = elim (Option-cases (lookup path v.files)) [
  | inl n ↦ rw n same
  | inr (file, e) ↦ rw e (
      let Q : Target → World → Type 0 = λ t y. Same w y × IsPrepared go x name path raw t in
      bind-Post (λ u. Same w) Q (Same w) _ _
        (effect-Post (λ u. Same w) (Same w) _ v (λ rest. same) (λ rest. same))
        (λ u y k.
          bind-Post (λ u. Same w) Q (Same w) _ _
            (effect-Post (λ u. Same w) (Same w) _ y (λ rest. k) (λ rest. k))
            (λ u z q.
              (q, record { of_path = refl; of_raw = refl; of_staged = refl; unmarked = refl }))))
]

-- What staging makes of a prepared target.
record IsStaged (go : GoLibrary) (generated : Option String) (t u : Target) : Type 0 where
  content : String
  made : generated ≡ some content
  target : u ≡ record t { new_hash = go.sha256_hex content }

abbrev Staged : GoLibrary → Option String → Target → World → World → Target → World → Type 0
Staged go generated t w v u y =
    Same w y
    × (s : IsStaged go generated t u) × (y.private_files
        ≡ insert t.staged_path s.content v.private_files)

stage-Post :
    (go : GoLibrary) (generated : Option String) (t : Target) (w v : World)
    → Same w v
    → Post (Staged go generated t w v) (Same w) (stage go generated t v)
unfolding stage write_private_file
stage-Post go none t w v same = same
stage-Post go (some content) t w v same =
    let Q = Staged go (some content) t w v in
    let after = insert t.staged_path content v.private_files in
    bind-Post (λ u y. Same w y × (y.private_files ≡ after)) Q (Same w) _ _
      (effect-Post (λ u y. Same w y × (y.private_files ≡ after)) (Same w) _ v (λ rest. (same, refl))
        (λ rest. same))
      (λ u y k. (k.0, record { content = content; made = refl; target = refl }, k.1))

-- The plan matches the files: they are usable and hold what was planned from, the new contents have
-- other hashes than the old ones, and the config and the factory settings are two files.
pub record IsPlanned (go : GoLibrary) (w : World) (plan : Plan) : Type 0 where
  pub config_file : File
  pub config_usable : Usable w.files plan.config_path config_file
  pub config_holds : config_file.content ≡ plan.config_raw
  pub config_changes :
      (s : String) → plan.staged_config ≡ some s → go.sha256_hex plan.config_raw ≢ go.sha256_hex s
  pub factory_file : File
  pub factory_usable : has_factory plan ≡ true → Usable w.files plan.factory_path factory_file
  pub factory_holds : (raw : String) → plan.factory_raw ≡ some raw → factory_file.content ≡ raw
  pub factory_changes :
      (raw s : String)
      → plan.factory_raw ≡ some raw
      → plan.staged_factory ≡ some s
      → go.sha256_hex raw ≢ go.sha256_hex s
  pub apart : plan.config_path ≢ plan.factory_path

staged_apart :
    (x : Setting) (m : List (String × String)) (s : String)
    → lookup (staged_at x "config") (insert (staged_at x "factory") s m)
      ≡ lookup (staged_at x "config") m
staged_apart x m s =
    let apart : staged_at x "factory" ≢ staged_at x "config" =
      λ e. beq-apart "/factory.staged" "/config.staged" refl (append_cancel_left _ _ _ e) in
    ground (
      arith,
      apart,
      eq_iff (staged_at x "factory") (staged_at x "config"),
      lookup-insert (staged_at x "factory") (staged_at x "config") s m,
    )

-- A staged target is ready to be committed.
module _ (go : GoLibrary) (x : Setting) (name path raw : String) (generated : Option String)
    (t u : Target) (p : IsPrepared go x name path raw t) (s : IsStaged go generated t u) where
  staged-IsOld :
      (file : File) (w v : World)
      → Usable w.files path file
      → file.content ≡ raw
      → lookup t.staged_path v.private_files ≡ some s.content
      → Same w v
      → IsOld go v u
  staged-IsOld file w v h content found same = rw (s.target) record {
    file = file;
    usable = rw (p.of_path, same.0) h;
    holds = rw (content, p.of_raw);
    staged = s.content;
    found_staged = found;
    staged_hash = refl;
    unmarked = p.unmarked;
  }

  staged-Changes :
      ((s : String) → generated ≡ some s → go.sha256_hex raw ≢ go.sha256_hex s) → Changes u
  staged-Changes d = λ e. d s.content s.made (ground (arith, p.of_raw, s.target, e))

  staged_path : u.path ≡ path
  staged_path = ground (arith, p.of_path, s.target)

abbrev FactoryPrepared : GoLibrary → Setting → Plan → Option Target → Type 0
FactoryPrepared go x plan none = Unit
FactoryPrepared go x plan (some t) =
    (raw : String) × (plan.factory_raw ≡ some raw)
    × (has_factory plan ≡ true)
    × IsPrepared go x "factory" plan.factory_path raw t

prepare_raw-Post :
    (go : GoLibrary) (x : Setting) (plan : Plan) (w v : World) (o : Option String)
    → plan.factory_raw ≡ o
    → has_factory plan ≡ true
    → Same w v
    → Post (λ f y. Same w y × FactoryPrepared go x plan f) (Same w) (prepare_raw go x plan o v)
unfolding prepare_raw
prepare_raw-Post go x plan w v none q e same = (same, tt)
prepare_raw-Post go x plan w v (some raw) q e same =
    bind-Post (λ t y. Same w y × IsPrepared go x "factory" plan.factory_path raw t)
      (λ f y. Same w y × FactoryPrepared go x plan f) (Same w) _ _
      (prepare_target-Post go x "factory" plan.factory_path raw w v same)
      (λ t y k. (k.0, (raw, q, e, k.1)))

prepare_factory-Post :
    (go : GoLibrary) (x : Setting) (plan : Plan) (w v : World)
    → Same w v
    → Post (λ f y. Same w y × FactoryPrepared go x plan f) (Same w) (prepare_factory go x plan v)
unfolding prepare_factory
prepare_factory-Post go x plan w v same = elim (Bool-cases (has_factory plan)) [
  | inl e ↦ simp e (prepare_raw-Post go x plan w v plan.factory_raw refl e same)
  | inr e ↦ simp e (same, tt)
]

-- A record that is ready for its journal.
pub record IsReady (go : GoLibrary) (x : Setting) (w : World) (r : Record) (v : World)
    : Type 0 where
  pub same : Same w v
  pub base : Record
  pub config : Target
  pub factory : Option Target
  pub made : r ≡ record base { config = some config; factory = factory }
  pub of_id : base.id ≡ x.tx_id
  pub open_record : base.status ≡ Status.in_progress
  pub config_old : IsOld go v config
  pub factory_old : Each (IsOld go v) factory
  pub config_changes : Changes config
  pub factory_changes : Each Changes factory
  pub apart : Apart (some config) factory

-- The factory target after its staging, which leaves the staged config alone.
record FactoryReady (go : GoLibrary) (plan : Plan) (x : Setting) (w : World)
    (config_content : String) (f : Option Target) (v : World) : Type 0 where
  same : Same w v
  config_staged : lookup (staged_at x "config") v.private_files ≡ some config_content
  old : Each (IsOld go v) f
  changes : Each Changes f
  in_place : Each (λ t. t.path ≡ plan.factory_path) f

module _ (go : GoLibrary) (x : Setting) (plan : Plan) (w : World) (h : IsPlanned go w plan) where
  stage_factory-Post :
      (content : String) (f : Option Target) (v : World)
      → Same w v
      → lookup (staged_at x "config") v.private_files ≡ some content
      → FactoryPrepared go x plan f
      → Post (FactoryReady go plan x w content) (Same w) (stage_factory go plan.staged_factory f v)
  unfolding stage_factory
  stage_factory-Post content none v same found p = record {
    same = same;
    config_staged = found;
    old = tt;
    changes = tt;
    in_place = tt;
  }
  stage_factory-Post content (some t) v same found (raw, of_raw, wanted, p) =
      bind-Post (Staged go plan.staged_factory t w v) (FactoryReady go plan x w content) (Same w) _
        _ (stage-Post go plan.staged_factory t w v same)
        (λ u y k. record {
          same = k.0;
          config_staged =
              rw (k.2, p.of_staged) (staged_apart x v.private_files k.1.content ∙ found);
          old =
              staged-IsOld go x "factory" plan.factory_path raw plan.staged_factory t u p k.1
                h.factory_file w y (h.factory_usable wanted) (h.factory_holds raw of_raw)
                (rw (k.2) (
                  ground (
                    arith,
                    eq_iff t.staged_path t.staged_path,
                    lookup-insert t.staged_path t.staged_path k.1.content v.private_files,
                  )))
                k.0;
          changes =
              staged-Changes go x "factory" plan.factory_path raw plan.staged_factory t u p k.1
                (λ s. h.factory_changes raw s of_raw);
          in_place = staged_path go x "factory" plan.factory_path raw plan.staged_factory t u p k.1;
        })

  config-Apart :
      (c : Target) (f : Option Target)
      → c.path ≡ plan.config_path
      → Each (λ t. t.path ≡ plan.factory_path) f
      → Apart (some c) f
  config-Apart c none e k = tt
  config-Apart c (some t) e k = λ q. h.apart (ground (arith, e, k, q))

  config_found :
      (t : Target)
      → IsPrepared go x "config" plan.config_path plan.config_raw t
      → (content : String) (before after : List (String × String))
      → after ≡ insert t.staged_path content before
      → lookup (staged_at x "config") after ≡ some content
  config_found t p content before after e = ground (
    arith,
    e,
    p.of_staged,
    eq_iff t.staged_path (staged_at x "config"),
    lookup-insert t.staged_path (staged_at x "config") content before,
  )

  pub prepare-Post : (v : World) → Same w v → Post (IsReady go x w) (Same w) (prepare go x plan v)
  unfolding prepare
  prepare-Post v same =
      let R = IsReady go x w in
      bind-Post (λ t y. Same w y × IsPrepared go x "config" plan.config_path plan.config_raw t) R
        (Same w) _ _ (prepare_target-Post go x "config" plan.config_path plan.config_raw w v same)
        (λ t y k.
          bind-Post (λ f y. Same w y × FactoryPrepared go x plan f) R (Same w) _ _
            (prepare_factory-Post go x plan w y k.0)
            (λ f z p.
              bind-Post (Staged go plan.staged_config t w z) R (Same w) _ _
                (stage-Post go plan.staged_config t w z p.0)
                (λ c a s.
                  bind-Post (FactoryReady go plan x w s.1.content) R (Same w) _ _
                    (stage_factory-Post s.1.content f a s.0
                      (config_found t k.1 s.1.content z.private_files a.private_files s.2) p.1)
                    (λ g b q. record {
                      same = q.same;
                      base = record {
                        id = x.tx_id;
                        status = Status.in_progress;
                        created_at = v.clock;
                        completed_at = "";
                        aborted_at = "";
                        rolled_back_at = "";
                        old_port = plan.old_port;
                        new_port = plan.new_port;
                        host = plan.host;
                        config = none;
                        factory = none;
                      };
                      config = c;
                      factory = g;
                      made = refl;
                      of_id = refl;
                      open_record = refl;
                      config_old =
                          staged-IsOld go x "config" plan.config_path plan.config_raw
                            plan.staged_config t c k.1 s.1 h.config_file w b h.config_usable
                            h.config_holds (rw (k.1.of_staged) q.config_staged) q.same;
                      factory_old = q.old;
                      config_changes =
                          staged-Changes go x "config" plan.config_path plan.config_raw
                            plan.staged_config t c k.1 s.1 h.config_changes;
                      factory_changes = q.changes;
                      apart =
                          config-Apart c g
                            (staged_path go x "config" plan.config_path plan.config_raw
                              plan.staged_config t c k.1 s.1)
                            q.in_place;
                    }))))
