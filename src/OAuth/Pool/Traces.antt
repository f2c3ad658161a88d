-- ===== src/OAuth/Pool/Traces.antt =====
-- Every interleaving of the pool's methods, as a step relation: a request releases only a lease that
-- it holds, and the watcher reloads at any time.
use droid_proxy.Prelude.{
  ℕ, ◌<◌, ◌≡◌, refl, sym, ap, subst, ◌∙◌, inl, true, Bool, Option, none, some, List, [], ◌∷◌,
  String, arith, eq_iff,
}
use mathlib.Core.Path.{subst₂}
use droid_proxy.Prelude.Numbers.{Time}
use droid_proxy.Prelude.GoLibrary.{GoLibrary}
use droid_proxy.Prelude.Maps.{string_eq, lookup, IsMap, insert-IsMap, lookup-insert}
use droid_proxy.OAuth.Account.{Token, AccountEntry, entry_from_token}
use droid_proxy.OAuth.Account.Runtime.{
  entry_from_token-in_flight, entry_from_token-present, entry_from_token-path,
}
use droid_proxy.OAuth.Affinity.{AffinityStore}
use droid_proxy.OAuth.Pool.{
  AccountPool, LoadBalancing, begun, refused, BeginError, begin, end, reload, mark_rate_limited,
  mark_cooldown, mark_unhealthy, mark_healthy, clear_rate_limit, clear_cooldown, select,
  select_from, chosen_from, bind_conversation, clear_conversation, new_account_pool, prune_affinity,
  seed, Entries,
}
use droid_proxy.OAuth.Pool.Leases.{
  in_flight_of, held_of, give_back, Tidy, KeyedAs, IsAccounted, begin-IsAccounted, end-IsAccounted,
  modify-IsAccounted, same_entries-IsAccounted, reload-IsAccounted,
}

module _ (go : GoLibrary) where
  chosen_from-entries :
      (p : AccountPool) (o : Option AccountEntry) (es : List AccountEntry)
      → (chosen_from go p o es).1.entries ≡ p.entries
  chosen_from-entries p (some e) es = refl
  chosen_from-entries p none es = refl

  select_from-entries :
      (p : AccountPool) (conversation : String) (exclude : List String) (es : List AccountEntry)
      → (select_from go p conversation exclude es).1.entries ≡ p.entries
  unfolding select_from
  select_from-entries p conversation exclude [] = refl
  select_from-entries p conversation exclude (e ∷ es) = chosen_from-entries p _ _

  pub select-entries :
      (now : Time) (account : String) (exclude : List String) (conversation : String)
      (p : AccountPool)
      → (select go now account exclude conversation p).1.entries ≡ p.entries
  unfolding select
  select-entries now account exclude conversation p = select_from-entries p _ _ _

  bind_conversation-entries :
      (written : Bool) (now : Time) (conversation path : String) (p : AccountPool)
      → (bind_conversation go written now conversation path p).entries ≡ p.entries
  unfolding bind_conversation
  bind_conversation-entries written now conversation path p = ground arith

  clear_conversation-entries :
      (written : Bool) (conversation : String) (p : AccountPool)
      → (clear_conversation go written conversation p).entries ≡ p.entries
  unfolding clear_conversation
  clear_conversation-entries written conversation p = ground arith

  -- One method of the pool, with the leases that requests hold before and after it.
  pub data Step (p : AccountPool) (held : List String) (q : AccountPool)
      : List String → Type 0 where
    begins : (now : Time) (path : String) → begin now path p ≡ begun q → Step p held q (path ∷ held)
    refuses :
        (now : Time) (path : String) (e : BeginError)
        → begin now path p ≡ refused e
        → q ≡ p
        → Step p held q held
    ends :
        (path : String) {rest : List String}
        → 0 < held_of path held
        → q ≡ end path p
        → rest ≡ give_back path held
        → Step p held q rest
    reloads :
        (written : Bool) (now : Time) (clock : String → Time) (tokens : List Token)
        → q ≡ reload go written now clock tokens p
        → Step p held q held
    selects :
        (now : Time) (account : String) (exclude : List String) (conversation : String)
        → q ≡ (select go now account exclude conversation p).1
        → Step p held q held
    rate_limits :
        (path : String) (until : Time) → q ≡ mark_rate_limited path until p → Step p held q held
    cools_down :
        (path : String) (until : Time) → q ≡ mark_cooldown path until p → Step p held q held
    sickens : (now : Time) (path : String) → q ≡ mark_unhealthy now path p → Step p held q held
    heals : (path : String) → q ≡ mark_healthy path p → Step p held q held
    unlimits : (path : String) → q ≡ clear_rate_limit path p → Step p held q held
    uncools : (path : String) → q ≡ clear_cooldown path p → Step p held q held
    binds :
        (written : Bool) (now : Time) (conversation path : String)
        → q ≡ bind_conversation go written now conversation path p
        → Step p held q held
    clears :
        (written : Bool) (conversation : String)
        → q ≡ clear_conversation go written conversation p
        → Step p held q held

  pub data Run (p : AccountPool) (held : List String) : AccountPool → List String → Type 0 where
    here : Run p held p held
    next :
        {q r : AccountPool} {taken left : List String}
        → Run p held q taken
        → Step q taken r left
        → Run p held r left

  pub Step-IsAccounted :
      {p q : AccountPool} {held left : List String}
      → Step p held q left
      → IsAccounted p held
      → IsAccounted q left
  unfolding mark_rate_limited mark_cooldown mark_unhealthy mark_healthy clear_rate_limit
      clear_cooldown
  Step-IsAccounted (begins now path b) a = begin-IsAccounted a now path b
  Step-IsAccounted {held} (refuses now path e b same) a =
      subst (λ r. IsAccounted r held) (sym same) a
  Step-IsAccounted {held} (ends path h same left) a =
      subst₂ IsAccounted (sym same) (sym left) (end-IsAccounted a path h)
  Step-IsAccounted {held} (reloads written now clock tokens same) a =
      subst (λ r. IsAccounted r held) (sym same) (reload-IsAccounted a go written now clock tokens)
  Step-IsAccounted {q} (selects now account exclude conversation same) a =
      same_entries-IsAccounted a q
        (ap (λ r. r.entries) same ∙ select-entries now account exclude conversation _)
  Step-IsAccounted {held} (rate_limits path until same) a =
      subst (λ r. IsAccounted r held) (sym same)
        (modify-IsAccounted a path _ (λ e. (refl, refl, refl)))
  Step-IsAccounted {held} (cools_down path until same) a =
      subst (λ r. IsAccounted r held) (sym same)
        (modify-IsAccounted a path _ (λ e. (refl, refl, refl)))
  Step-IsAccounted {held} (sickens now path same) a =
      subst (λ r. IsAccounted r held) (sym same)
        (modify-IsAccounted a path _ (λ e. (refl, refl, refl)))
  Step-IsAccounted {held} (heals path same) a =
      subst (λ r. IsAccounted r held) (sym same)
        (modify-IsAccounted a path _ (λ e. (refl, refl, refl)))
  Step-IsAccounted {held} (unlimits path same) a =
      subst (λ r. IsAccounted r held) (sym same)
        (modify-IsAccounted a path _ (λ e. (refl, refl, refl)))
  Step-IsAccounted {held} (uncools path same) a =
      subst (λ r. IsAccounted r held) (sym same)
        (modify-IsAccounted a path _ (λ e. (refl, refl, refl)))
  Step-IsAccounted {q} (binds written now conversation path same) a =
      same_entries-IsAccounted a q
        (ap (λ r. r.entries) same ∙ bind_conversation-entries written now conversation path _)
  Step-IsAccounted {q} (clears written conversation same) a =
      same_entries-IsAccounted a q
        (ap (λ r. r.entries) same ∙ clear_conversation-entries written conversation _)

  pub Run-IsAccounted :
      {p : AccountPool} {held : List String} {q : AccountPool} {left : List String}
      → IsAccounted p held
      → Run p held q left
      → IsAccounted q left
  Run-IsAccounted a here = a
  Run-IsAccounted a (next r s) = Step-IsAccounted s (Run-IsAccounted a r)

  -- A fresh entry has no lease and a token file.
  abbrev IsFresh : String → Option AccountEntry → Type 0
  IsFresh x none = Unit
  IsFresh x (some e) = (e.in_flight ≡ 0) × (e.token_file_present ≡ true) × (e.path ≡ x)

  seed-IsFresh :
      (clock : String → Time) (tokens : List Token) (m : Entries) (x : String)
      → IsFresh x (lookup x m)
      → IsFresh x (lookup x (seed go clock tokens m))
  unfolding seed
  seed-IsFresh clock [] m x h = h
  seed-IsFresh clock (tok ∷ toks) m x h =
      let fresh = entry_from_token go (clock tok.path) tok in
      seed-IsFresh clock toks _ x (
        ground (
          arith,
          h,
          lookup-insert tok.path x fresh m,
          entry_from_token-in_flight go (clock tok.path) tok,
          entry_from_token-present go (clock tok.path) tok,
          entry_from_token-path go (clock tok.path) tok,
          eq_iff tok.path x,
        ))

  fresh-in_flight : (x : String) (o : Option AccountEntry) → IsFresh x o → in_flight_of o ≡ 0
  fresh-in_flight x none h = refl
  fresh-in_flight x (some e) h = h.0

  fresh-Tidy : (x : String) (o : Option AccountEntry) → IsFresh x o → Tidy o
  fresh-Tidy x none h = tt
  fresh-Tidy x (some e) h = inl h.1

  fresh-KeyedAs : (x : String) (o : Option AccountEntry) → IsFresh x o → KeyedAs x o
  fresh-KeyedAs x none h = tt
  fresh-KeyedAs x (some e) h = h.2

  seed-IsMap :
      (clock : String → Time) (tokens : List Token) (m : Entries)
      → IsMap m
      → IsMap (seed go clock tokens m)
  unfolding seed
  seed-IsMap clock [] m h = h
  seed-IsMap clock (tok ∷ toks) m h =
      seed-IsMap clock toks _
        (ground (arith, insert-IsMap tok.path (entry_from_token go (clock tok.path) tok) m h))

  pub new_account_pool-IsAccounted :
      (written : Bool) (now : Time) (clock : String → Time) (tokens : List Token)
      (lb : LoadBalancing) (affinity : Option AffinityStore) (draw : ℕ → ℕ → ℕ)
      → IsAccounted (new_account_pool go written now clock tokens lb affinity draw) []
  unfolding new_account_pool prune_affinity lookup
  new_account_pool-IsAccounted written now clock tokens lb affinity draw = record {
    is_map = seed-IsMap clock tokens [] tt;
    leased = λ x. fresh-in_flight x _ (seed-IsFresh clock tokens [] x tt);
    tidy = λ x. fresh-Tidy x _ (seed-IsFresh clock tokens [] x tt);
    keyed = λ x. fresh-KeyedAs x _ (seed-IsFresh clock tokens [] x tt);
  }

  -- From a new pool, under any sequence of Begin, End (of a lease that is held), Reload, selection,
  -- marks and bindings, the in-flight count of every path is the number of leases held on it, and
  -- an entry without a token file is in the pool only while a lease on it is held.
  pub Run-leases :
      (written : Bool) (now : Time) (clock : String → Time) (tokens : List Token)
      (lb : LoadBalancing) (affinity : Option AffinityStore) (draw : ℕ → ℕ → ℕ) {q : AccountPool}
      {held : List String}
      → Run (new_account_pool go written now clock tokens lb affinity draw) [] q held
      → (x : String)
      → (in_flight_of (lookup x q.entries) ≡ held_of x held) × Tidy (lookup x q.entries)
  Run-leases written now clock tokens lb affinity draw r x =
      let a =
        Run-IsAccounted (new_account_pool-IsAccounted written now clock tokens lb affinity draw)
          r in
      (a.leased x, a.tidy x)
