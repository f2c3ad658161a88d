-- ===== src/Migration/Transaction/Survival.antt =====
-- A migration as a whole, under any answers of the system: CommitTransaction and its recovery in
-- internal/migration/transaction.go.
use droid_proxy.Prelude.{refl, subst, ◌⊎◌, inl, inr, String, Bool-cases, not, ◌||◌}
use droid_proxy.Prelude.GoLibrary.{GoLibrary}
use droid_proxy.Prelude.Maps.{string_eq, lookup}
use droid_proxy.Migration.World.{World, Record, check_target_trust, is_trusted}
use droid_proxy.Migration.Transaction.{
  Plan, Setting, has_changes, has_factory, check_factory, run, begin_transaction, commit_plan,
  commit_transaction,
}
use droid_proxy.Migration.Rules.{Post, bind-Post, effect-Post, Post-mono, post_both}
use droid_proxy.Migration.Recovery.Settled.{AllSettled, recover_incomplete_settled}
use droid_proxy.Migration.Transaction.Planned.{Same, IsPlanned, IsReady, prepare-Post}
use droid_proxy.Migration.Transaction.Crash.{Safe}
use droid_proxy.Migration.Transaction.Crash.Commits.{run-Post}

-- Nothing but private files is touched, or the journal of the transaction tells what to do.
abbrev pub Survives : GoLibrary → Setting → World → World → Type 0
Survives go x w y = Safe go x.tx_id y ⊎ Same w y

check_trust-Post :
    (w v : World) (path : String)
    → Same w v
    → Post (λ u. Same w) (Same w) (check_target_trust path v)
unfolding check_target_trust
check_trust-Post w v path same = elim (Bool-cases (is_trusted (lookup path v.files))) [
  | inl e ↦ rw e same
  | inr e ↦ rw e same
]

check_factory-Post :
    (w v : World) (plan : Plan) → Same w v → Post (λ u. Same w) (Same w) (check_factory plan v)
check_factory-Post w v plan same = elim (Bool-cases (has_factory plan)) [
  | inl e ↦ simp e (check_trust-Post w v plan.factory_path same)
  | inr e ↦ simp e same
]

module _ (go : GoLibrary) (x : Setting) (plan : Plan) (w : World) (h : IsPlanned go w plan) where
  abbrev S : World → Type 0
  S y = Survives go x w y

  ready-Post : (r : Record) (v : World) → IsReady go x w r v → Post (λ u. S) S (run go x r v)
  ready-Post r v k =
      let f : World → Type 0 = λ y. Safe go k.base.id y in
      rw (k.made) (
        Post-mono (λ u. f) (λ u. S) (λ y. f y ⊎ Same w y) S _
          (λ u y q. inl (subst (λ i. Safe go i y) k.of_id q))
          (λ y q. elim q [ inl s ↦ inl (subst (λ i. Safe go i y) k.of_id s) | inr s ↦ inr s ])
          (run-Post go x k.base k.config (rw (k.open_record) refl) k.config_changes k.factory
            k.factory_changes k.apart w v k.config_old k.factory_old k.same))

  begin-Post : (v : World) → Same w v → Post (λ u. S) S (begin_transaction go x plan v)
  unfolding begin_transaction
  begin-Post v same =
      bind-Post (λ u. Same w) (λ u. S) S _ _
        (Post-mono (λ u. Same w) (λ u. Same w) (Same w) S _ (λ u y k. k) (λ y k. inr k)
          (check_trust-Post w v plan.config_path same))
        (λ u y k.
          bind-Post (λ u. Same w) (λ u. S) S _ _
            (Post-mono (λ u. Same w) (λ u. Same w) (Same w) S _ (λ u y k. k) (λ y k. inr k)
              (check_factory-Post w y plan k))
            (λ u z q.
              bind-Post (IsReady go x w) (λ u. S) S _ _
                (Post-mono (IsReady go x w) (IsReady go x w) (Same w) S _ (λ r y k. k)
                  (λ y k. inr k) (prepare-Post go x plan w h z q))
                (λ r a k. ready-Post r a k)))

  commit_plan-Post : (v : World) → Same w v → Post (λ u. S) S (commit_plan go x plan v)
  unfolding commit_plan
  commit_plan-Post v same = elim (Bool-cases (not (has_changes plan) || plan.factory_unsafe)) [
    | inr e ↦ simp e (begin-Post v same)
    | inl e ↦ simp e (elim (Bool-cases plan.factory_unsafe) [
      | inl f ↦ simp f (inr same)
      | inr f ↦ simp f (inr same)
    ])
  ]

-- Take a world whose journals can all be read and are none of them in progress, and a plan that
-- matches its files. Whatever the system answers to the writes of CommitTransaction, a failure or the
-- end of the process at any of them included, either the user's files and the journals are as they
-- were, or the journal of the transaction is there and one of two holds. It is in progress, and
-- recoverOne of it, when its writes are done, returns a result, leaves all its targets with their old
-- content or all with their new content, by their hashes, and the journal out of progress. Or it is
-- out of progress, and its targets are so already.
pub commit_transaction-Survives :
    (go : GoLibrary) (x : Setting) (plan : Plan) (w : World)
    → AllSettled w.journals
    → IsPlanned go w plan
    → Survives go x w (commit_transaction go x plan w).1
unfolding commit_transaction
commit_transaction-Survives go x plan w settled h =
    let S = Survives go x w in
    let P : World → Type 0 = λ y. Same w y × AllSettled y.journals in
    post_both S (commit_transaction go x plan w) (
      bind-Post (λ u. P) (λ u. S) S _ _
        (effect-Post (λ u. P) S _ w (λ rest. ((refl, refl), settled)) (λ rest. inr (refl, refl)))
        (λ u y k. rw (recover_incomplete_settled go y k.1) (commit_plan-Post go x plan w h y k.0)))
