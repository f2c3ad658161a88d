-- ===== src/OAuth/Pool/Lookups.antt =====
-- What each method of the pool does to the entry of each path.
use droid_proxy.Prelude.{
  ◌≡◌, refl, ap, ◌∙◌, inl, inr, Bool, false, not, Option, none, some, List, [], ◌∷◌, String, ltb,
  if◌then◌else◌, arith, str_eq, eq_iff, is_none, Option-cases,
}
use droid_proxy.Prelude.Numbers.{Time}
use droid_proxy.Prelude.GoLibrary.{GoLibrary}
use droid_proxy.Prelude.Maps.{
  string_eq, lookup, insert, lookup-insert, IsMap, Lacks, insert-IsMap, lookup_of_Lacks,
}
use droid_proxy.OAuth.Account.{Token, AccountEntry, entry_from_token, update_entry}
use droid_proxy.OAuth.Pool.{
  Entries, AccountPool, modify, reload, prune_affinity, new_tokens, retire, add_or_update, updated,
}

abbrev pub map_entry : (AccountEntry → AccountEntry) → Option AccountEntry → Option AccountEntry
map_entry f none = none
map_entry f (some e) = some (f e)

pub lookup-modify :
    (path : String) (f : AccountEntry → AccountEntry) (m : Entries) (x : String)
    → lookup x (modify path f m) ≡ (if str_eq path x then map_entry f (lookup x m) else lookup x m)
unfolding modify
lookup-modify path f m x = elim (Option-cases (lookup path m)) [
  | inl e ↦ rw (e, modify) (ground (arith, eq_iff path x))
  | inr (a, e) ↦ rw (e, modify) (ground (arith, lookup-insert path x (f a) m, eq_iff path x))
]

pub modify-IsMap :
    (path : String) (f : AccountEntry → AccountEntry) (m : Entries)
    → IsMap m
    → IsMap (modify path f m)
unfolding modify
modify-IsMap path f m h = elim (Option-cases (lookup path m)) [
  | inl e ↦ rw (e, modify) h
  | inr (a, e) ↦ rw (e, modify) (insert-IsMap path (f a) m h)
]

abbrev kept : List (String × Token) → String → AccountEntry → Option AccountEntry
kept toks path e =
    if not (is_none (lookup path toks))
    then some e
    else if ltb 0 e.in_flight
    then some (record e { token_file_present = false })
    else none

abbrev kept_at : List (String × Token) → String → Option AccountEntry → Option AccountEntry
kept_at toks path none = none
kept_at toks path (some e) = kept toks path e

retire-Lacks :
    (toks : List (String × Token)) (k : String) (m : Entries) → Lacks k m → Lacks k (retire toks m)
unfolding retire
retire-Lacks toks k [] h = tt
retire-Lacks toks k ((path, e) ∷ m) (h, hs) = ground (arith, retire-Lacks toks k m hs)

pub retire-IsMap : (toks : List (String × Token)) (m : Entries) → IsMap m → IsMap (retire toks m)
unfolding retire
retire-IsMap toks [] h = tt
retire-IsMap toks ((path, e) ∷ m) (l, h) =
    ground (arith, retire-IsMap toks m h, retire-Lacks toks path m l)

pub lookup-retire :
    (toks : List (String × Token)) (m : Entries) (x : String)
    → IsMap m
    → lookup x (retire toks m) ≡ kept_at toks x (lookup x m)
unfolding retire lookup
lookup-retire toks [] x h = refl
lookup-retire toks ((path, e) ∷ m) x (l, h) =
    ground (arith, eq_iff path x, lookup-retire toks m x h, lookup_of_Lacks path m l)

abbrev pub has_key : List (String × Token) → String → Bool
has_key toks path = not (is_none (lookup path toks))

-- A token carries the path that it is stored under.
abbrev pub IsKeyed : String → Option Token → Type 0
IsKeyed path none = Unit
IsKeyed path (some tok) = tok.path ≡ path

module _ (go : GoLibrary) where
  pub new_tokens-IsMap :
      (tokens : List Token) (m : List (String × Token)) → IsMap m → IsMap (new_tokens go tokens m)
  unfolding new_tokens
  new_tokens-IsMap [] m h = h
  new_tokens-IsMap (tok ∷ tokens) m h =
      new_tokens-IsMap tokens _ (ground (arith, insert-IsMap tok.path tok m h))

  pub new_tokens-IsKeyed :
      (tokens : List Token) (m : List (String × Token)) (x : String)
      → IsKeyed x (lookup x m)
      → IsKeyed x (lookup x (new_tokens go tokens m))
  unfolding new_tokens
  new_tokens-IsKeyed [] m x h = h
  new_tokens-IsKeyed (tok ∷ tokens) m x h =
      new_tokens-IsKeyed tokens _ x
        (ground (arith, h, eq_iff tok.path x, lookup-insert tok.path x tok m))

  module _ (now : Time) (clock : String → Time) where
    abbrev pub updated_at : String → Option AccountEntry → Option Token → Option AccountEntry
    updated_at path old none = old
    updated_at path old (some tok) = some (updated go now clock path tok old)

    pub add_or_update-IsMap :
        (toks : List (String × Token)) (m : Entries)
        → IsMap m
        → IsMap (add_or_update go now clock toks m)
    unfolding add_or_update
    add_or_update-IsMap [] m h = h
    add_or_update-IsMap ((path, tok) ∷ toks) m h =
        add_or_update-IsMap toks _ (insert-IsMap path _ m h)

    pub lookup-add_or_update :
        (toks : List (String × Token)) (m : Entries) (x : String)
        → IsMap toks
        → lookup x (add_or_update go now clock toks m) ≡ updated_at x (lookup x m) (lookup x toks)
    unfolding add_or_update lookup
    lookup-add_or_update [] m x h = refl
    lookup-add_or_update ((path, tok) ∷ toks) m x (l, h) =
        let new = updated go now clock path tok (lookup path m) in
        ground (
          arith,
          eq_iff path x,
          lookup-insert path x new m,
          lookup_of_Lacks path toks l,
          lookup-add_or_update toks (insert path new m) x h,
        )

    -- What a reload makes of the entry of one path, from the entry and the token that it has.
    abbrev pub reloaded : String → Option AccountEntry → Option Token → Option AccountEntry
    reloaded path none none = none
    reloaded path none (some tok) = some (entry_from_token go (clock path) tok)
    reloaded path (some e) (some tok) = some (update_entry go now e tok)
    reloaded path (some e) none =
        if ltb 0 e.in_flight then some (record e { token_file_present = false }) else none

    reloaded_lem :
        (toks : List (String × Token)) (x : String) (old : Option AccountEntry) (tok : Option Token)
        → lookup x toks ≡ tok
        → updated_at x (kept_at toks x old) tok ≡ reloaded x old tok
    reloaded_lem toks x none none h = refl
    reloaded_lem toks x none (some tok) h = refl
    reloaded_lem toks x (some e) none h = rw h refl
    reloaded_lem toks x (some e) (some tok) h = rw h refl

    pub reload-IsMap :
        (written : Bool) (tokens : List Token) (p : AccountPool)
        → IsMap p.entries
        → IsMap (reload go written now clock tokens p).entries
    unfolding reload prune_affinity
    reload-IsMap written tokens p h =
        let toks = new_tokens go tokens [] in
        add_or_update-IsMap toks (retire toks p.entries) (retire-IsMap toks p.entries h)

    -- A reload makes of the entry of each path what its old entry and its last new Codex token
    -- call for: no token and no lease delete it, no token but a lease held leave a tombstone, a token
    -- updates the old entry in place, and a token without an old entry makes a new one.
    pub lookup-reload :
        (written : Bool) (tokens : List Token) (p : AccountPool) (x : String)
        → IsMap p.entries
        → lookup x (reload go written now clock tokens p).entries
          ≡ reloaded x (lookup x p.entries) (lookup x (new_tokens go tokens []))
    unfolding reload prune_affinity
    lookup-reload written tokens p x h =
        let toks = new_tokens go tokens [] in
        lookup-add_or_update toks (retire toks p.entries) x (new_tokens-IsMap tokens [] tt)
        ∙ ap (λ o. updated_at x o (lookup x toks)) (lookup-retire toks p.entries x h)
        ∙ reloaded_lem toks x (lookup x p.entries) (lookup x toks) refl
