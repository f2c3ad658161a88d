-- ===== src/OAuth/Pool/Reloading.antt =====
-- What Reload of internal/oauth/pool.go makes of an account, from the token files that it is given.
use droid_proxy.Prelude.{
  ◌<◌, ◌≡◌, refl, ap, subst, sym, ◌∙◌, inl, inr, ◌⊎◌, Bool, true, false, not, Option, none, some,
  List, [], ◌∷◌, ◌++◌, All, String, if◌then◌else◌, arith, str_eq, eq_iff, Bool-cases,
}
use droid_proxy.Prelude.Numbers.{Time}
use droid_proxy.Prelude.GoLibrary.{GoLibrary, to_lower}
use droid_proxy.Prelude.Texts.{trim_space, is_blank}
use droid_proxy.Prelude.Maps.{string_eq, lookup, insert, lookup-insert, IsMap}
use droid_proxy.OAuth.Account.{
  Token, AccountEntry, token_provider, entry_from_token, update_entry, refresh_metadata,
  update_rate_limit, apply_persisted_rate_limit,
}
use droid_proxy.OAuth.Account.Runtime.{
  SameRuntime, update_entry-SameRuntime, apply_persisted_rate_limit-SameRuntime,
}
use droid_proxy.OAuth.Pool.{AccountPool, reload, new_tokens}
use droid_proxy.OAuth.Pool.Lookups.{reloaded, lookup-reload}

-- The entry has the identity and the quota of the token, whose file is there.
pub record HasToken (tok : Token) (e : AccountEntry) : Type 0 where
  pub present : e.token_file_present ≡ true
  pub provider : e.provider ≡ "codex"
  pub disabled : e.disabled ≡ tok.disabled
  pub quota : e.quota ≡ tok.codex_quota
  pub has_refresh_token : e.has_refresh_token ≡ not (is_blank tok.refresh_token)
  pub email : e.email ≡ tok.email
  pub subject : e.subject ≡ tok.subject
  pub account_id : e.account_id ≡ tok.account_id

-- The account of a file that is new: no lease, no mark, never used.
pub record IsFresh (path : String) (e : AccountEntry) : Type 0 where
  pub at_path : e.path ≡ path
  pub healthy : e.healthy ≡ true
  pub unhealthy_until : e.unhealthy_until ≡ 0
  pub cooldown_until : e.cooldown_until ≡ 0
  pub last_used : e.last_used ≡ 0
  pub in_flight : e.in_flight ≡ 0

-- What becomes of the entry of a path, by the entry that there was and the token that there is.
abbrev pub IsReloaded : String → Option AccountEntry → Option Token → Option AccountEntry → Type 0
IsReloaded path none none new = new ≡ none
IsReloaded path (some e) none new =
    (e.in_flight ≡ 0 → new ≡ none)
    × (0 < e.in_flight → new ≡ some (record e { token_file_present = false }))
IsReloaded path none (some tok) new =
    (n : AccountEntry) × (new ≡ some n) × IsFresh path n × HasToken tok n
IsReloaded path (some e) (some tok) new =
    (n : AccountEntry) × (new ≡ some n) × SameRuntime n e × HasToken tok n

limit-HasToken :
    (tok : Token) (e : AccountEntry) (now : Time)
    → HasToken tok e
    → HasToken tok (apply_persisted_rate_limit e now)
unfolding apply_persisted_rate_limit
limit-HasToken tok e now h = ground arith

update_limit-HasToken :
    (tok : Token) (e : AccountEntry) (now : Time)
    → HasToken tok e
    → HasToken tok (update_rate_limit now e)
unfolding update_rate_limit
update_limit-HasToken tok e now h =
    ground (arith, limit-HasToken tok (record e { rate_limited_until = 0 }) now)

module _ (go : GoLibrary) where
  -- The file of a Codex account at the path.
  abbrev pub IsOf : String → Token → Type 0
  IsOf path tok = (tok.path ≡ path) × (to_lower go.lower (trim_space tok.kind) ≡ "codex")

  -- The last of the tokens that is one of a Codex account at the path, if there is any.
  abbrev pub IsLast : String → List Token → Option Token → Type 0
  IsLast path tokens none = All (λ t. ¬ IsOf path t) tokens
  IsLast path tokens (some tok) =
      IsOf path tok
      × ((before : List Token) × (after : List Token) × (tokens ≡ before ++ tok ∷ after)
          × All (λ t. ¬ IsOf path t) after)

  update_entry-HasToken :
      (now : Time) (e : AccountEntry) (tok : Token) (path : String)
      → IsOf path tok
      → HasToken tok (update_entry go now e tok)
  unfolding update_entry refresh_metadata token_provider
  update_entry-HasToken now e tok path h =
      update_limit-HasToken tok (refresh_metadata go now e tok) now record {
        present = refl;
        provider = h.1;
        disabled = refl;
        quota = refl;
        has_refresh_token = refl;
        email = refl;
        subject = refl;
        account_id = refl;
      }

  entry_from_token-HasToken :
      (now : Time) (tok : Token) (path : String)
      → IsOf path tok
      → HasToken tok (entry_from_token go now tok)
  unfolding entry_from_token token_provider
  entry_from_token-HasToken now tok path h = limit-HasToken tok _ now record {
    present = refl;
    provider = h.1;
    disabled = refl;
    quota = refl;
    has_refresh_token = refl;
    email = refl;
    subject = refl;
    account_id = refl;
  }

  entry_from_token-IsFresh :
      (now : Time) (tok : Token) (path : String)
      → tok.path ≡ path
      → IsFresh path (entry_from_token go now tok)
  unfolding entry_from_token
  entry_from_token-IsFresh now tok path h =
      let s = apply_persisted_rate_limit-SameRuntime _ now in
      record {
        at_path = s.path ∙ h;
        healthy = s.healthy;
        unhealthy_until = s.unhealthy_until;
        cooldown_until = s.cooldown_until;
        last_used = s.last_used;
        in_flight = s.in_flight;
      }

  -- The token that is found, from one that was there before.
  abbrev Found : String → List Token → List (String × Token) → Type 0
  Found x tokens m =
      (All (λ t. ¬ IsOf x t) tokens × (lookup x (new_tokens go tokens m) ≡ lookup x m))
      ⊎ ((tok : Token) × (lookup x (new_tokens go tokens m) ≡ some tok)
          × IsLast x tokens (some tok))

  abbrev with_token : Token → List (String × Token) → List (String × Token)
  with_token tok m = if str_eq (token_provider go tok) "codex" then insert tok.path tok m else m

  -- One token either is the account's, and found then, or changes nothing of it.
  with_token-found :
      (x : String) (tok : Token) (m : List (String × Token))
      → (IsOf x tok × (lookup x (with_token tok m) ≡ some tok))
        ⊎ ((¬ IsOf x tok) × (lookup x (with_token tok m) ≡ lookup x m))
  unfolding token_provider
  with_token-found x tok m =
      let codex = eq_iff (token_provider go tok) "codex" in
      let at = eq_iff tok.path x in
      elim (Bool-cases (str_eq (token_provider go tok) "codex")) [
        | inr e ↦ inr (λ q. absurd (cc (e, codex.1 q.1)), rw e refl)
        | inl e ↦ elim (Bool-cases (str_eq tok.path x)) [
          | inl p ↦ inl ((at.0 p, codex.0 e), rw e (lookup-insert tok.path x tok m ∙ (rw p refl)))
          | inr p ↦
              inr (
                λ q. absurd (cc (p, at.1 q.0)),
                rw e (lookup-insert tok.path x tok m ∙ (rw p refl)),
              )
        ]
      ]

  found : (x : String) (tokens : List Token) (m : List (String × Token)) → Found x tokens m
  unfolding new_tokens
  found x [] m = inl (tt, refl)
  found x (tok ∷ toks) m = elim (found x toks (with_token tok m)) [
    | inr (t, e, (is, (before, after, q, a))) ↦
        inr (t, e, (is, (tok ∷ before, after, ap (λ ts. tok ∷ ts) q, a)))
    | inl (a, e) ↦ elim (with_token-found x tok m) [
      | inl (is, h) ↦ inr (tok, e ∙ h, (is, ([], toks, refl, a)))
      | inr (n, h) ↦ inl ((n, a), e ∙ h)
    ]
  ]

  new_tokens-IsLast :
      (x : String) (tokens : List Token)
      → (o : Option Token) × (lookup x (new_tokens go tokens []) ≡ o) × IsLast x tokens o
  unfolding lookup
  new_tokens-IsLast x tokens = elim (found x tokens []) [
    | inl (a, e) ↦ (none, e, a)
    | inr (tok, e, h) ↦ (some tok, e, h)
  ]

  module _ (now : Time) (clock : String → Time) where
    reloaded-IsReloaded :
        (x : String) (tokens : List Token) (old : Option AccountEntry) (o : Option Token)
        → IsLast x tokens o
        → IsReloaded x old o (reloaded go now clock x old o)
    reloaded-IsReloaded x tokens none none h = refl
    reloaded-IsReloaded x tokens (some e) none h = (λ z. ground arith, λ z. ground arith)
    reloaded-IsReloaded x tokens none (some tok) h = (
      entry_from_token go (clock x) tok,
      refl,
      entry_from_token-IsFresh (clock x) tok x h.0.0,
      entry_from_token-HasToken (clock x) tok x h.0,
    )
    reloaded-IsReloaded x tokens (some e) (some tok) h = (
      update_entry go now e tok,
      refl,
      update_entry-SameRuntime go e now tok,
      update_entry-HasToken now e tok x h.0,
    )

    -- A reload makes of the entry of each path what its old entry and the last of the given tokens
    -- that is of a Codex account at that path call for. Without such a token, the entry is deleted
    -- if no lease on it is held, and else is as it was but for the mark that its file is gone. With
    -- one, the entry has the token's identity, quota and switches, and the runtime state (path,
    -- health, cooldown, last use and lease count) that it had, or that of a fresh account if there
    -- was none.
    pub reload-IsReloaded :
        (written : Bool) (tokens : List Token) (p : AccountPool) (x : String)
        → IsMap p.entries
        → (tok : Option Token) × IsLast x tokens tok
          × IsReloaded x
              (lookup x p.entries)
              tok
              (lookup x (reload go written now clock tokens p).entries)
    reload-IsReloaded written tokens p x h =
        let (o, e, l) = new_tokens-IsLast x tokens in
        (
          o,
          l,
          subst (IsReloaded x (lookup x p.entries) o)
              (sym (
                lookup-reload go now clock written tokens p x h
                ∙ ap (reloaded go now clock x (lookup x p.entries)) e))
              (reloaded-IsReloaded x tokens (lookup x p.entries) o l),
        )
