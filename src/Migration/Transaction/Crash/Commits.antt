-- ===== src/Migration/Transaction/Crash/Commits.antt =====
-- The two commits of CommitTransaction and its end, in internal/migration/transaction.go, under any
-- answers of the system.
use droid_proxy.Prelude.{◌≡◌, ◌≢◌, refl, sym, true, Option, none, some, List, ◌⊎◌, inl, inr}
use droid_proxy.Prelude.GoLibrary.{GoLibrary}
use droid_proxy.Prelude.Maps.{string_eq, lookup, insert}
use droid_proxy.Migration.World.{Target, Record, Status, Answer, written, World, write_journal}
use droid_proxy.Migration.Targets.{commit_target, targets, cleanup_staged_files}
use droid_proxy.Migration.Journal.{is_in_progress}
use droid_proxy.Migration.Recovery.{as_committed}
use droid_proxy.Migration.Transaction.{Setting, commit_step, commit_targets, mark_complete, run}
use droid_proxy.Migration.Rules.{
  Post, bind-Post, effect-Post, ignore-Post, Post-mono, remove_staged-Post,
}
use droid_proxy.Migration.Recovery.States.{
  IsOld, IsNew, Holds, put, commit_target-effect, put-IsNew, put-IsNew_other, put-IsOld_other,
}
use droid_proxy.Migration.Recovery.Coherence.{Each, Apart, Changes}
use droid_proxy.Migration.Transaction.Crash.{
  Safe, Sheltered, Sheltered-Safe, Open, Open-Safe, marked, marked-IsNew, all-IsOld, new-Holds,
  found_written, with_targets, Begun, Begun-Open, check_destination-Post,
}

commit_target-Post :
    (go : GoLibrary) (t : Target) (Q : Unit {0} → World → Type 0) (E : World → Type 0) (w : World)
    (h : IsOld go w t)
    → ((rest : List Answer) → Q tt (record (put go w t h) { answers = rest }))
    → ((rest : List Answer) → E (record w { answers = rest }))
    → Post Q E (commit_target go t w)
commit_target-Post go t Q E w h done stays =
    rw (commit_target-effect go w t h) (effect-Post Q E _ w done stays)

-- A boundary, the commit of an old target and the note in its journal: from `B` to `P`, with `E` all
-- along.
module _ (go : GoLibrary) (mark : Option Target → Record) (t : Target) (B P E : World → Type 0)
    (keep_B : (v : World) (rest : List Answer) → B v → B (record v { answers = rest }))
    (weaken_B : (v : World) → B v → E v) (weaken_P : (v : World) → P v → E v)
    (ready : (v : World) → B v → IsOld go v t)
    (after : (v : World) (b : B v) (rest : List Answer)
      → P (record (put go v t (ready v b)) { answers = rest }))
    (noted : (v : World) → P v → Post (λ u. P) P (write_journal (mark (some (marked t))) v)) where
  step-Post :
      (w : World)
      → B w
      → Post (λ s v. (s ≡ mark (some (marked t))) × P v) E (commit_step go mark (some t) w)
  unfolding commit_step
  step-Post w b =
      let R : Record → World → Type 0 = λ s v. (s ≡ mark (some (marked t))) × P v in
      bind-Post (λ u. B) R E _ _
        (effect-Post (λ u. B) E _ w (λ rest. keep_B w rest b)
          (λ rest. weaken_B _ (keep_B w rest b)))
        (λ u v k.
          bind-Post (λ u. P) R E _ _
            (commit_target-Post go t (λ u. P) E v (ready v k) (after v k)
              (λ rest. weaken_B _ (keep_B v rest k)))
            (λ u y p.
              bind-Post (λ u. P) R E _ _ (ignore-Post P E _ y weaken_P (noted y p))
                (λ u z q. (refl, q))))

-- The config is committed, and the journal may say so.
abbrev Half : GoLibrary → Record → Target → Option Target → World → Type 0
Half go r c f w =
    ((lookup r.id w.journals ≡ some (written (with_targets r c f)))
      ⊎ (lookup r.id w.journals ≡ some (written (with_targets r (marked c) f))))
    × IsNew go w c
    × Each (IsOld go w) f

-- Both are committed.
abbrev Full : GoLibrary → Record → Target → Option Target → World → Type 0
Full go r c f w = Open go r.id w × IsNew go w c × Each (IsNew go w) f

others-IsOld :
    (go : GoLibrary) (w : World) (c : Target) (f : Option Target) (h : IsOld go w c)
    → Apart (some c) f
    → Each (IsOld go w) f
    → Each (IsOld go (put go w c h)) f
others-IsOld go w c none h a k = tt
others-IsOld go w c (some u) h a k = put-IsOld_other go w c u h a k

marked-Holds :
    (go : GoLibrary) (w : World) (f : Option Target)
    → Each (IsNew go w) f
    → Each (λ t. Holds go w t t.new_hash) (as_committed f)
marked-Holds go w none h = tt
marked-Holds go w (some t) h = (h.file, h.usable.found, h.holds)

module _ (go : GoLibrary) (x : Setting) (r : Record) (c : Target)
    (open_record : is_in_progress r.status ≡ true) (config_changes : Changes c) where
  -- A record whose config is committed, beside a factory target that is old or new.
  opened :
      (w : World) (f : Option Target)
      → (lookup r.id w.journals ≡ some (written (with_targets r c f)))
        ⊎ (lookup r.id w.journals ≡ some (written (with_targets r (marked c) f)))
      → IsNew go w c
      → Each (λ t. IsOld go w t ⊎ IsNew go w t) f
      → Each Changes f
      → Apart (some c) f
      → Open go r.id w
  opened w f (inl e) h k changes apart = (
    with_targets r c f,
    e,
    open_record,
    record {
      config_found = inr h;
      factory_found = k;
      config_changes = config_changes;
      factory_changes = changes;
      apart = apart;
    },
  )
  opened w f (inr e) h k changes apart = (
    with_targets r (marked c) f,
    e,
    open_record,
    record {
      config_found = inr (marked-IsNew go w c h);
      factory_found = k;
      config_changes = config_changes;
      factory_changes = changes;
      apart = apart;
    },
  )

  module _ (f : Option Target) (factory_changes : Each Changes f) (apart : Apart (some c) f) where
    half :
        (w : World) (b : Begun go r c f w) (rest : List Answer)
        → Half go r c f (record (put go w c b.1) { answers = rest })
    half w b rest =
        let h = put-IsNew go w c b.1 in
        let k = others-IsOld go w c f b.1 apart b.2 in (inl b.0, h, k)

    Half-Safe : (w : World) → Half go r c f w → Safe go r.id w
    Half-Safe w h =
        Open-Safe go r.id w (opened w f h.0 h.1 (all-IsOld go w f h.2) factory_changes apart)

    config_noted :
        (w : World)
        → Half go r c f w
        → Post (λ u. Half go r c f) (Half go r c f) (write_journal (with_targets r (marked c) f) w)
    unfolding write_journal
    config_noted w h =
        let s = with_targets r (marked c) f in
        let P = Half go r c f in
        effect-Post (λ u. P) P _ w (λ rest. (inr (found_written s w.journals), h.1, h.2))
          (λ rest. h)

    config-Post :
        (w : World)
        → Begun go r c f w
        → Post
            (λ s v. (s ≡ with_targets r (marked c) f) × Half go r c f v)
            (Safe go r.id)
            (commit_step go (λ t. record (with_targets r c f) { config = t }) (some c) w)
    config-Post =
        step-Post go (λ t. record (with_targets r c f) { config = t }) c (Begun go r c f)
          (Half go r c f) (Safe go r.id) (λ v rest b. b)
          (λ v b.
            Open-Safe go r.id v
              (Begun-Open go x r c f open_record config_changes factory_changes apart v b))
          (λ v h. Half-Safe v h) (λ v b. b.1) half config_noted

  module _ (t : Target) (changes : Changes t) (apart : c.path ≢ t.path) where
    full :
        (w : World) (b : Half go r c (some t) w) (rest : List Answer)
        → Full go r c (some t) (record (put go w t b.2) { answers = rest })
    full w b rest =
        let v = put go w t b.2 in
        let h = put-IsNew_other go w t c b.2 (λ e. apart (sym e)) b.1 in
        let k = put-IsNew go w t b.2 in (opened v (some t) b.0 h (inr k) changes apart, h, k)

    factory_noted :
        (w : World)
        → Full go r c (some t) w
        → Post
            (λ u. Full go r c (some t))
            (Full go r c (some t))
            (write_journal (with_targets r (marked c) (some (marked t))) w)
    unfolding write_journal
    factory_noted w h =
        let s = with_targets r (marked c) (some (marked t)) in
        let P = Full go r c (some t) in
        let v = record w { journals = insert r.id (written s) w.journals } in
        effect-Post (λ u. P) P _ w
          (λ rest. (
            opened v (some (marked t)) (inr (found_written s w.journals)) h.1
                (inr (marked-IsNew go w t h.2)) changes apart,
            h.1,
            h.2,
          ))
          (λ rest. h)

  -- The second commit, with a factory target or with none.
  factory-Post :
      (f : Option Target) (changes : Each Changes f) (apart : Apart (some c) f) (w : World)
      → Half go r c f w
      → Post
          (λ s v. (s ≡ with_targets r (marked c) (as_committed f)) × Full go r c f v)
          (Safe go r.id)
          (commit_step go (λ t. record (with_targets r (marked c) f) { factory = t }) f w)
  unfolding commit_step
  factory-Post none changes apart w h = (refl, (opened w none h.0 h.1 tt tt tt, h.1, tt))
  factory-Post (some t) changes apart w h =
      step-Post go (λ u. record (with_targets r (marked c) (some t)) { factory = u }) t
        (Half go r c (some t)) (Full go r c (some t)) (Safe go r.id) (λ v rest b. b)
        (Half-Safe (some t) changes apart) (λ v b. Open-Safe go r.id v b.0) (λ v b. b.2)
        (full t changes apart) (factory_noted t changes apart) w h

  complete-Post :
      (f : Option Target) (w : World)
      → Full go r c f w
      → Post
          (λ u. Safe go r.id)
          (Safe go r.id)
          (mark_complete (with_targets r (marked c) (as_committed f)) w)
  unfolding mark_complete write_journal cleanup_staged_files
  complete-Post f w h =
      let S = Safe go r.id in
      let D = Sheltered go r.id in
      let s = with_targets r (marked c) (as_committed f) in
      bind-Post (λ u. Full go r c f) (λ u. S) S _ _
        (effect-Post (λ u. Full go r c f) S _ w (λ rest. h) (λ rest. Open-Safe go r.id w h.0))
        (λ u v k.
          let j = record s { status = Status.completed; completed_at = v.clock } in
          bind-Post (λ u. D) (λ u. S) S _ _
            (effect-Post (λ u. D) S _ v
              (λ rest. (
                j,
                found_written j v.journals,
                inr (refl, inr (new-Holds go v (some c) k.1, marked-Holds go v f k.2)),
              ))
              (λ rest. Open-Safe go r.id v k.0))
            (λ u y d.
              bind-Post (λ u. D) (λ u. S) S _ _
                (Post-mono (λ u. D) (λ u. D) D S _ (λ u z q. q) (Sheltered-Safe go r.id)
                  (remove_staged-Post D (λ z m rest q. q) (targets s) y d))
                (λ u z q. Sheltered-Safe go r.id z q)))

  -- From the journal on.
  pub run-Post :
      (f : Option Target) (changes : Each Changes f) (apart : Apart (some c) f) (v w : World)
      → IsOld go w c
      → Each (IsOld go w) f
      → (w.files ≡ v.files) × (w.journals ≡ v.journals)
      → Post
          (λ u. Safe go r.id)
          (λ y. Safe go r.id y ⊎ ((y.files ≡ v.files) × (y.journals ≡ v.journals)))
          (run go x (with_targets r c f) w)
  unfolding run write_journal commit_targets
  run-Post f changes apart v w h k same =
      let S = Safe go r.id in
      let E : World → Type 0 =
        λ y. Safe go r.id y ⊎ ((y.files ≡ v.files) × (y.journals ≡ v.journals)) in
      bind-Post (λ u. Begun go r c f) (λ u. S) E _ _
        (effect-Post (λ u. Begun go r c f) E _ w
          (λ rest. (found_written (with_targets r c f) w.journals, h, k)) (λ rest. inr same))
        (λ u y b.
          Post-mono (λ u. S) (λ u. S) S E _ (λ u z q. q) (λ z q. inl q)
            (bind-Post (λ u. Begun go r c f) (λ u. S) S _ _
              (check_destination-Post go x r c f open_record config_changes changes apart y b)
              (λ u z b.
                bind-Post
                  (λ s z. (s ≡ with_targets r (marked c) (as_committed f)) × Full go r c f z)
                  (λ u. S) S mark_complete _
                  (bind-Post (λ s z. (s ≡ with_targets r (marked c) f) × Half go r c f z)
                    (λ s z. (s ≡ with_targets r (marked c) (as_committed f)) × Full go r c f z) S _
                    _ (config-Post f changes apart z b)
                    (λ s z q. rw (q.0) (factory-Post f changes apart z q.1)))
                  (λ s z q. rw (q.0) (complete-Post f z q.1)))))
