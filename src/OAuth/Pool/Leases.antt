-- ===== src/OAuth/Pool/Leases.antt =====
-- Lease accounting: the in-flight count of an entry against the leases that requests hold.
use droid_proxy.Prelude.{
  ℕ, ◌+◌, ◌-◌, ◌<◌, ◌≡◌, refl, sym, ◌∙◌, subst, ◌⊎◌, inl, Bool, true, Option, none, some, List, [],
  ◌∷◌, String, if◌then◌else◌, arith, str_eq, eq_iff, count,
}
use droid_proxy.Prelude.Numbers.{Time}
use droid_proxy.Prelude.GoLibrary.{GoLibrary}
use droid_proxy.Prelude.Maps.{
  string_eq, lookup, insert, lookup-insert, lookup-erase, IsMap, insert-IsMap, erase-IsMap,
}
use droid_proxy.OAuth.Account.{Token, AccountEntry}
use droid_proxy.OAuth.Account.Runtime.{
  update_entry-SameRuntime, update_entry-present, entry_from_token-in_flight,
  entry_from_token-present, entry_from_token-path,
}
use droid_proxy.OAuth.Pool.{
  AccountPool, begun, begin, begin_entry, end, end_entry, modify, new_tokens, reload,
}
use droid_proxy.OAuth.Pool.Lookups.{
  lookup-modify, modify-IsMap, map_entry, new_tokens-IsKeyed, IsKeyed, reloaded, reload-IsMap,
  lookup-reload,
}

abbrev pub in_flight_of : Option AccountEntry → ℕ
in_flight_of none = 0
in_flight_of (some e) = e.in_flight

-- An entry whose token file is gone is kept only while a lease is held on it.
abbrev pub Tidy : Option AccountEntry → Type 0
Tidy none = Unit
Tidy (some e) = (e.token_file_present ≡ true) ⊎ (0 < e.in_flight)

-- An entry carries the path that it is stored under.
abbrev pub KeyedAs : String → Option AccountEntry → Type 0
KeyedAs path none = Unit
KeyedAs path (some e) = e.path ≡ path

-- How often a path is among the leases held.
abbrev pub held_of : String → List String → ℕ
held_of path = count (λ x. str_eq x path)

-- Give one lease back.
abbrev pub give_back : String → List String → List String
give_back path [] = []
give_back path (x ∷ xs) = if str_eq x path then xs else x ∷ give_back path xs

held_of-give_back :
    (path x : String) (held : List String)
    → 0 < held_of path held
    → held_of x (give_back path held) ≡ held_of x held - (if str_eq path x then 1 else 0)
held_of-give_back path x [] h = absurd (omega arith)
held_of-give_back path x (y ∷ ys) h =
    ground (arith, eq_iff y path, eq_iff y x, eq_iff path x, held_of-give_back path x ys)

pub record IsAccounted (p : AccountPool) (held : List String) : Type 0 where
  pub is_map : IsMap p.entries
  pub leased : (x : String) → in_flight_of (lookup x p.entries) ≡ held_of x held
  pub tidy : (x : String) → Tidy (lookup x p.entries)
  pub keyed : (x : String) → KeyedAs x (lookup x p.entries)

module _ {p : AccountPool} {held : List String} (a : IsAccounted p held) where
  begin_entry-IsAccounted :
      (now : Time) (path : String) (old : Option AccountEntry) {q : AccountPool}
      → lookup path p.entries ≡ old
      → begin_entry now path p old ≡ begun q
      → IsAccounted q (path ∷ held)
  begin_entry-IsAccounted now path none e b = cc
  begin_entry-IsAccounted now path (some entry) {q} e b =
      let bumped = record entry { in_flight = entry.in_flight + 1; last_used = now } in
      let same : record p { entries = insert path bumped p.entries } ≡ q = ground arith in
      let present : entry.token_file_present ≡ true = ground arith in
      subst (λ r. IsAccounted r (path ∷ held)) same
        (record {
          is_map = insert-IsMap path bumped p.entries a.is_map;
          leased =
              λ x. ground (arith, eq_iff path x, lookup-insert path x bumped p.entries, a.leased x);
          tidy =
              λ x. ground (arith, eq_iff path x, lookup-insert path x bumped p.entries, a.tidy x);
          keyed =
              λ x. ground (arith, eq_iff path x, lookup-insert path x bumped p.entries, a.keyed x);
        })

  pub begin-IsAccounted :
      (now : Time) (path : String) {q : AccountPool}
      → begin now path p ≡ begun q
      → IsAccounted q (path ∷ held)
  unfolding begin
  begin-IsAccounted now path b = begin_entry-IsAccounted now path _ refl b

  end_entry-IsAccounted :
      (path : String) (old : Option AccountEntry)
      → lookup path p.entries ≡ old
      → 0 < held_of path held
      → IsAccounted (record p { entries = end_entry path p.entries old }) (give_back path held)
  end_entry-IsAccounted path none e h = absurd (ground (arith, a.leased path))
  end_entry-IsAccounted path (some entry) e h =
      let lowered = record entry { in_flight = entry.in_flight - 1 } in
      record {
        is_map = ground (
          arith,
          insert-IsMap path lowered p.entries a.is_map,
          erase-IsMap path p.entries a.is_map,
        );
        leased = λ x. ground (
          arith,
          eq_iff path x,
          lookup-insert path x lowered p.entries,
          lookup-erase path x p.entries a.is_map,
          held_of-give_back path x held,
          a.leased x,
        );
        tidy = λ x. ground (
          arith,
          eq_iff path x,
          lookup-insert path x lowered p.entries,
          lookup-erase path x p.entries a.is_map,
          a.tidy x,
        );
        keyed = λ x. ground (
          arith,
          eq_iff path x,
          lookup-insert path x lowered p.entries,
          lookup-erase path x p.entries a.is_map,
          a.keyed x,
        );
      }

  pub end-IsAccounted :
      (path : String) → 0 < held_of path held → IsAccounted (end path p) (give_back path held)
  unfolding end
  end-IsAccounted path h = end_entry-IsAccounted path _ refl h

  -- A change of the entry at one path that leaves its lease and its token file alone.
  pub modify-IsAccounted :
      (path : String) (f : AccountEntry → AccountEntry)
      → ((e : AccountEntry)
          → ((f e).in_flight ≡ e.in_flight)
            × ((f e).token_file_present ≡ e.token_file_present)
            × ((f e).path ≡ e.path))
      → IsAccounted (record p { entries = modify path f p.entries }) held
  modify-IsAccounted path f same = record {
    is_map = modify-IsMap path f p.entries a.is_map;
    leased =
        λ x. rw (lookup-modify path f p.entries x) (leased_at x (lookup x p.entries) (a.leased x));
    tidy = λ x. rw (lookup-modify path f p.entries x) (tidy_at x (lookup x p.entries) (a.tidy x));
    keyed =
        λ x. rw (lookup-modify path f p.entries x) (keyed_at x (lookup x p.entries) (a.keyed x));
  }
    where
      leased_at :
          (x : String) (o : Option AccountEntry)
          → in_flight_of o ≡ held_of x held
          → in_flight_of (if str_eq path x then map_entry f o else o) ≡ held_of x held
      leased_at x none h = ground arith
      leased_at x (some e) h = ground (arith, (same e).0)

      tidy_at :
          (x : String) (o : Option AccountEntry)
          → Tidy o
          → Tidy (if str_eq path x then map_entry f o else o)
      tidy_at x none h = ground arith
      tidy_at x (some e) h = ground (arith, (same e).0, (same e).1)

      keyed_at :
          (x : String) (o : Option AccountEntry)
          → KeyedAs x o
          → KeyedAs x (if str_eq path x then map_entry f o else o)
      keyed_at x none h = ground arith
      keyed_at x (some e) h = ground (arith, (same e).2)

  -- Nothing but the entries counts.
  pub same_entries-IsAccounted : (q : AccountPool) → q.entries ≡ p.entries → IsAccounted q held
  same_entries-IsAccounted q e = record {
    is_map = subst (λ m. IsMap m) (sym e) a.is_map;
    leased = λ x. rw e (a.leased x);
    tidy = λ x. rw e (a.tidy x);
    keyed = λ x. rw e (a.keyed x);
  }

  module _ (go : GoLibrary) where
    pub reload-IsAccounted :
        (written : Bool) (now : Time) (clock : String → Time) (tokens : List Token)
        → IsAccounted (reload go written now clock tokens p) held
    unfolding lookup
    reload-IsAccounted written now clock tokens = record {
      is_map = reload-IsMap go now clock written tokens p a.is_map;
      leased = λ x.
          rw (lookup-reload go now clock written tokens p x a.is_map)
            (leased_at x (lookup x p.entries) (lookup x (new_tokens go tokens [])) (a.leased x));
      tidy = λ x.
          rw (lookup-reload go now clock written tokens p x a.is_map)
            (tidy_at x (lookup x p.entries) (lookup x (new_tokens go tokens [])));
      keyed = λ x. rw (lookup-reload go now clock written tokens p x a.is_map) (
          keyed_at x (lookup x p.entries) (lookup x (new_tokens go tokens [])) (a.keyed x)
            (new_tokens-IsKeyed go tokens [] x tt));
    }
      where
        leased_at :
            (x : String) (o : Option AccountEntry) (tok : Option Token)
            → in_flight_of o ≡ held_of x held
            → in_flight_of (reloaded go now clock x o tok) ≡ held_of x held
        leased_at x none none h = h
        leased_at x none (some tok) h = entry_from_token-in_flight go (clock x) tok ∙ h
        leased_at x (some e) none h = ground arith
        leased_at x (some e) (some tok) h = (update_entry-SameRuntime go e now tok).in_flight ∙ h

        tidy_at :
            (x : String) (o : Option AccountEntry) (tok : Option Token)
            → Tidy (reloaded go now clock x o tok)
        tidy_at x none none = tt
        tidy_at x none (some tok) = inl (entry_from_token-present go (clock x) tok)
        tidy_at x (some e) none = ground arith
        tidy_at x (some e) (some tok) = inl (update_entry-present go e now tok)

        keyed_at :
            (x : String) (o : Option AccountEntry) (tok : Option Token)
            → KeyedAs x o
            → IsKeyed x tok
            → KeyedAs x (reloaded go now clock x o tok)
        keyed_at x none none h k = tt
        keyed_at x none (some tok) h k = entry_from_token-path go (clock x) tok ∙ k
        keyed_at x (some e) none h k = ground arith
        keyed_at x (some e) (some tok) h k = (update_entry-SameRuntime go e now tok).path ∙ h
