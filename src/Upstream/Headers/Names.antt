-- ===== src/Upstream/Headers/Names.antt =====
-- Which header names FilterHeaders of internal/upstream/headers.go holds back, without its tests.
use droid_proxy.Prelude.{
  ◌≡◌, ◌≢◌, refl, sym, ◌↔◌, Bool, true, false, ◌||◌, ◌⊎◌, inl, inr, List, [], ◌∷◌, ◌++◌, String,
  str_eq, eq_iff, any, arith, Bool-cases,
}
use droid_proxy.Prelude.GoLibrary.{GoLibrary, to_lower}
use droid_proxy.Prelude.HeaderNames.{canonical_header_key, split_comma}
use droid_proxy.Prelude.Texts.{trim_space, is_prefix}
use droid_proxy.Prelude.Maps.{string_eq, lookup}
use droid_proxy.Upstream.Headers.{
  Header, gateway_header_prefixes, hop_by_hop_headers, privacy_sensitive_intermediary_headers,
  is_in, values_of, scoped_names, scoped_by, connection_scoped_headers, is_withheld,
}

abbrev pub Has : String → List String → Type 0
Has name [] = true ≡ false
Has name (x ∷ names) = (name ≡ x) ⊎ Has name names

-- The names that the tokens of one value of Connection stand for.
abbrev pub Names : String → List String → Type 0
Names name tokens =
    (token : String) × Has token tokens
    × (trim_space token ≢ "")
    × (canonical_header_key (trim_space token) ≡ name)

-- A token of a value of Connection is the name.
abbrev pub IsScoped : String → List String → Type 0
IsScoped name values = (raw : String) × Has raw values × Names name (split_comma raw)

-- The text begins with one of the prefixes.
abbrev pub Begins : String → List String → Type 0
Begins s prefixes = (p : String) × Has p prefixes × (is_prefix p s ≡ true)

abbrev pub Withheld : GoLibrary → Header → String → Type 0
Withheld go src key =
    Has (canonical_header_key key) (hop_by_hop_headers ++ privacy_sensitive_intermediary_headers)
    ⊎ (IsScoped (canonical_header_key key) (values_of (lookup "Connection" src))
        ⊎ Begins (to_lower go.lower key) gateway_header_prefixes)

is_in-Has : (name : String) (names : List String) → (is_in name names ≡ true) ↔ Has name names
is_in-Has name [] = (λ e. cc, λ h. cc)
is_in-Has name (x ∷ names) =
    let ih = is_in-Has name names in
    elim (Bool-cases (str_eq name x)) [
      | inl e ↦ rw e (λ h. inl ((eq_iff name x).0 e), λ h. refl)
      | inr e ↦ rw e (
        λ h. inr (ih.0 h),
        λ h. elim h [ inl same ↦ absurd (cc (e, (eq_iff name x).1 same)) | inr k ↦ ih.1 k ],
      )
    ]

Begins-Has :
    (s : String) (prefixes : List String)
    → (any (λ p. is_prefix p s) prefixes ≡ true) ↔ Begins s prefixes
Begins-Has s [] = (λ e. absurd (cc), λ h. absurd (cc (h.1)))
Begins-Has s (p ∷ prefixes) =
    let ih = Begins-Has s prefixes in
    elim (Bool-cases (is_prefix p s)) [
      | inl e ↦ rw e (λ h. (p, inl refl, e), λ h. refl)
      | inr e ↦ rw e (
        λ h. let (q, k, b) = ih.0 h in (q, inr k, b),
        λ h. elim (h.1) [ inl same ↦ absurd (cc (e, h.2, same)) | inr k ↦ ih.1 (h.0, k, h.2) ],
      )
    ]

Has-append :
    (name : String) (xs ys : List String) → Has name (xs ++ ys) ↔ (Has name xs ⊎ Has name ys)
Has-append name [] ys = (λ h. inr h, λ h. elim h [ inl k ↦ cc | inr k ↦ k ])
Has-append name (x ∷ xs) ys =
    let ih = Has-append name xs ys in
    (
      λ h. elim h [
        | inl e ↦ inl (inl e)
        | inr k ↦ elim (ih.0 k) [ inl a ↦ inl (inr a) | inr b ↦ inr b ]
      ],
      λ h. elim h [
        | inl k ↦ elim k [ inl e ↦ inl e | inr a ↦ inr (ih.1 (inl a)) ]
        | inr b ↦ inr (ih.1 (inr b))
      ],
    )

scoped_names-Has :
    (name : String) (tokens : List String) → Has name (scoped_names tokens) ↔ Names name tokens
unfolding scoped_names
scoped_names-Has name [] = (λ h. absurd (cc), λ h. absurd (cc (h.1)))
scoped_names-Has name (t ∷ tokens) =
    let ih = scoped_names-Has name tokens in
    elim (Bool-cases (str_eq (trim_space t) "")) [
      | inl e ↦ rw e (
        λ h. let (u, k, n, c) = ih.0 h in (u, inr k, n, c),
        λ h. elim (h.1) [
          | inl same ↦ absurd (h.2 (ground (arith, same, (eq_iff (trim_space t) "").0 e)))
          | inr k ↦ ih.1 (h.0, k, h.2, h.3)
        ],
      )
      | inr e ↦ rw e (
        λ h. elim h [
          | inl same ↦ (t, inl refl, (λ z. cc (e, (eq_iff (trim_space t) "").1 z)), sym same)
          | inr k ↦ let (u, a, n, c) = ih.0 k in (u, inr a, n, c)
        ],
        λ h. elim (h.1) [
          | inl same ↦ inl (ground (arith, same, h.3))
          | inr k ↦ inr (ih.1 (h.0, k, h.2, h.3))
        ],
      )
    ]

scoped_by-Has :
    (name : String) (values : List String) → Has name (scoped_by values) ↔ IsScoped name values
unfolding scoped_by
scoped_by-Has name [] = (λ h. absurd (cc), λ h. absurd (cc (h.1)))
scoped_by-Has name (raw ∷ values) =
    let ih = scoped_by-Has name values in
    let here = scoped_names-Has name (split_comma raw) in
    let both = Has-append name (scoped_names (split_comma raw)) (scoped_by values) in
    (
      λ h. elim (both.0 h) [
        | inl k ↦ (raw, inl refl, here.0 k)
        | inr k ↦ let (r, a, b) = ih.0 k in (r, inr a, b)
      ],
      λ h. elim (h.1) [
        | inl same ↦ both.1 (inl (here.1 (rw (← same) (h.2))))
        | inr k ↦ both.1 (inr (ih.1 (h.0, k, h.2)))
      ],
    )

or_last :
    (a b c d : Bool) → (a || b || c || d) ≡ true → a ≡ false → b ≡ false → c ≡ false → d ≡ true
or_last a b c d h x y z = ground arith

or_1 : (a b c d : Bool) → a ≡ true → (a || b || c || d) ≡ true
or_1 a b c d x = ground arith

or_2 : (a b c d : Bool) → b ≡ true → (a || b || c || d) ≡ true
or_2 a b c d x = ground arith

or_3 : (a b c d : Bool) → c ≡ true → (a || b || c || d) ≡ true
or_3 a b c d x = ground arith

or_4 : (a b c d : Bool) → d ≡ true → (a || b || c || d) ≡ true
or_4 a b c d x = ground arith

pub is_withheld-Withheld :
    (go : GoLibrary) (src : Header) (key : String)
    → (is_withheld go (connection_scoped_headers src) key ≡ true) ↔ Withheld go src key
unfolding is_withheld connection_scoped_headers
is_withheld-Withheld go src key = (sound, complete)
  where
    name : String
    name = canonical_header_key key

    values : List String
    values = values_of (lookup "Connection" src)

    hop : (is_in name hop_by_hop_headers ≡ true) ↔ Has name hop_by_hop_headers
    hop = is_in-Has name hop_by_hop_headers

    sensitive :
        (is_in name privacy_sensitive_intermediary_headers ≡ true)
        ↔ Has name privacy_sensitive_intermediary_headers
    sensitive = is_in-Has name privacy_sensitive_intermediary_headers

    listed :
        Has name (hop_by_hop_headers ++ privacy_sensitive_intermediary_headers)
        ↔ (Has name hop_by_hop_headers ⊎ Has name privacy_sensitive_intermediary_headers)
    listed = Has-append name hop_by_hop_headers privacy_sensitive_intermediary_headers

    scoped : (is_in name (scoped_by values) ≡ true) ↔ Has name (scoped_by values)
    scoped = is_in-Has name (scoped_by values)

    named : Has name (scoped_by values) ↔ IsScoped name values
    named = scoped_by-Has name values

    gateway :
        (any (λ p. is_prefix p (to_lower go.lower key)) gateway_header_prefixes ≡ true)
        ↔ Begins (to_lower go.lower key) gateway_header_prefixes
    gateway = Begins-Has (to_lower go.lower key) gateway_header_prefixes

    sound : is_withheld go (connection_scoped_headers src) key ≡ true → Withheld go src key
    sound h = elim (Bool-cases (is_in name hop_by_hop_headers)) [
      | inl a ↦ inl (listed.1 (inl (hop.0 a)))
      | inr a ↦ elim (Bool-cases (is_in name (scoped_by values))) [
        | inl b ↦ inr (inl (named.0 (scoped.0 b)))
        | inr b ↦ elim (Bool-cases (is_in name privacy_sensitive_intermediary_headers)) [
          | inl c ↦ inl (listed.1 (inr (sensitive.0 c)))
          | inr c ↦ inr (
              inr (
                gateway.0 (
                  or_last (is_in name hop_by_hop_headers) (is_in name (scoped_by values))
                    (is_in name privacy_sensitive_intermediary_headers)
                    (any (λ p. is_prefix p (to_lower go.lower key)) gateway_header_prefixes) h a b
                    c)))
        ]
      ]
    ]

    complete : Withheld go src key → is_withheld go (connection_scoped_headers src) key ≡ true
    complete (inl h) = elim (listed.0 h) [
      | inl a ↦
          or_1 (is_in name hop_by_hop_headers) (is_in name (scoped_by values))
            (is_in name privacy_sensitive_intermediary_headers)
            (any (λ p. is_prefix p (to_lower go.lower key)) gateway_header_prefixes) (hop.1 a)
      | inr c ↦
          or_3 (is_in name hop_by_hop_headers) (is_in name (scoped_by values))
            (is_in name privacy_sensitive_intermediary_headers)
            (any (λ p. is_prefix p (to_lower go.lower key)) gateway_header_prefixes) (sensitive.1 c)
    ]
    complete (inr (inl s)) =
        or_2 (is_in name hop_by_hop_headers) (is_in name (scoped_by values))
          (is_in name privacy_sensitive_intermediary_headers)
          (any (λ p. is_prefix p (to_lower go.lower key)) gateway_header_prefixes)
          (scoped.1 (named.1 s))
    complete (inr (inr g)) =
        or_4 (is_in name hop_by_hop_headers) (is_in name (scoped_by values))
          (is_in name privacy_sensitive_intermediary_headers)
          (any (λ p. is_prefix p (to_lower go.lower key)) gateway_header_prefixes) (gateway.1 g)
