-- ===== src/Upstream/Headers/Relay.antt =====
-- What CopyHeaders of internal/upstream/headers.go does to each header of a response.
use droid_proxy.Prelude.{
  ◌≡◌, Bool, not, ◌⊎◌, inl, inr, Option, none, some, List, [], ◌∷◌, ◌++◌, String, if◌then◌else◌,
  str_eq, eq_iff, filter, arith, All, All-filter, Bool-cases,
}
use mathlib.Core.List.{append_assoc}
use droid_proxy.Prelude.GoLibrary.{GoLibrary}
use droid_proxy.Prelude.HeaderNames.{canonical_header_key}
use droid_proxy.Prelude.Maps.{string_eq, lookup, lookup-insert, Lacks, IsMap, lookup_of_Lacks}
use droid_proxy.Upstream.Headers.{
  Header, values_of, connection_scoped_headers, is_withheld, filter_headers, get, add, add_all,
  relay_each, copy_headers,
}
use droid_proxy.Upstream.Headers.Names.{Withheld, is_withheld-Withheld}

-- The values of a key after others were added.
abbrev pub extend : Option (List String) → List String → Option (List String)
extend old [] = old
extend old (v ∷ vs) = some (values_of old ++ v ∷ vs)

abbrev pub IsCanonical : String → Type 0
IsCanonical key = canonical_header_key key ≡ key

abbrev pub AllCanonical : Header → Type 0
AllCanonical src = All (λ e. IsCanonical e.0) src

lookup-add :
    (key j v : String) (dst : Header)
    → IsCanonical key
    → lookup j (add key v dst)
      ≡ (if str_eq key j then some (values_of (lookup key dst) ++ v ∷ []) else lookup j dst)
unfolding add
lookup-add key j v dst c = rw c (lookup-insert key j (values_of (lookup key dst) ++ v ∷ []) dst)

lookup-add_all :
    (key j : String) (vs : List String) (dst : Header)
    → IsCanonical key
    → lookup j (add_all key vs dst)
      ≡ (if str_eq key j then extend (lookup key dst) vs else lookup j dst)
unfolding add_all
lookup-add_all key j [] dst c = ground (arith, eq_iff key j)
lookup-add_all key j (v ∷ []) dst c = lookup-add key j v dst c
lookup-add_all key j (v ∷ u ∷ vs) dst c = ground (
  arith,
  lookup-add_all key j (u ∷ vs) (add key v dst) c,
  lookup-add key j v dst c,
  lookup-add key key v dst c,
  eq_iff key key,
  append_assoc (values_of (lookup key dst)) (v ∷ []) (u ∷ vs),
)

-- What becomes of a key, from the two sides.
abbrev pub relayed : Header → String → Option (List String) → Option (List String)
relayed dst k from =
    if str_eq (get k dst) "" then extend (lookup k dst) (values_of from) else lookup k dst

relay_each_lem :
    (src dst : Header) (k : String)
    → AllCanonical src
    → IsMap src
    → IsCanonical k
    → lookup k (relay_each src dst) ≡ relayed dst k (lookup k src)
unfolding relay_each lookup get
relay_each_lem [] dst k a m c = ground arith
relay_each_lem ((key, values) ∷ rest) dst k (p, a) (l, m) c = ground (
  arith,
  relay_each_lem rest (add_all key values dst) k a m c,
  relay_each_lem rest dst k a m c,
  lookup-add_all key k values dst p,
  lookup_of_Lacks key rest l,
  eq_iff key k,
  c,
  p,
)

lookup-filter :
    (keep : String → Bool) (k : String) (src : Header)
    → lookup k (filter (λ e. keep e.0) src) ≡ (if keep k then lookup k src else none)
unfolding lookup
lookup-filter keep k [] = ground arith
lookup-filter keep k ((j, v) ∷ src) = ground (arith, eq_iff j k, lookup-filter keep k src)

filter-Lacks :
    (keep : String → Bool) (k : String) (src : Header)
    → Lacks k src
    → Lacks k (filter (λ e. keep e.0) src)
filter-Lacks keep k [] l = tt
filter-Lacks keep k ((j, v) ∷ src) (l, ls) = ground (arith, l, filter-Lacks keep k src ls)

filter-IsMap :
    (keep : String → Bool) (src : Header) → IsMap src → IsMap (filter (λ e. keep e.0) src)
filter-IsMap keep [] m = tt
filter-IsMap keep ((j, v) ∷ src) (l, m) =
    ground (arith, filter-IsMap keep src m, filter-Lacks keep j src l)

-- Take a response's headers with canonical keys, each once, and any headers `dst`. Exactly one of two
-- holds of a canonical key after CopyHeaders. The key is withheld: it is hop-by-hop or Via, a token of
-- a Connection value of the response names it, or it begins, in lower case, with the prefix of a
-- gateway; then `dst` has for it what it had. Or it is not withheld; then `dst` has what it had and
-- after it the values of the response, unless a first value that is not "" stood there already, in
-- which case it has what it had.
pub copy_headers_lem :
    (go : GoLibrary) (dst src : Header) (k : String)
    → AllCanonical src
    → IsMap src
    → IsCanonical k
    → (Withheld go src k × (lookup k (copy_headers go dst src) ≡ lookup k dst))
      ⊎ ((¬ Withheld go src k)
          × (lookup k (copy_headers go dst src) ≡ (
              if str_eq (get k dst) ""
              then extend (lookup k dst) (values_of (lookup k src))
              else lookup k dst)))
unfolding copy_headers filter_headers
copy_headers_lem go dst src k a m c =
    let keep : String → Bool = λ key. not (is_withheld go (connection_scoped_headers src) key) in
    let e =
      relay_each_lem (filter (λ x. keep x.0) src) dst k
        (All-filter (λ x. IsCanonical x.0) (λ x. keep x.0) src a) (filter-IsMap keep src m) c in
    let f = lookup-filter keep k src in
    elim (Bool-cases (is_withheld go (connection_scoped_headers src) k)) [
      | inl h ↦ inl ((is_withheld-Withheld go src k).0 h, ground (arith, e, f))
      | inr h ↦ inr ((λ w. cc (h, (is_withheld-Withheld go src k).1 w)), ground (arith, e, f))
    ]
