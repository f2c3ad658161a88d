-- ===== src/Prelude/Texts.antt =====
-- Go's `strings` and `path/filepath` on native texts. A native text is a sequence of code points,
-- so byte order is code-point order, and texts that are not valid UTF-8 are not represented.
use Prim.Native.Nat.{ℕ}
use Prim.Native.Char.{code}
use Prim.Native.String.{String, [], ◌∷◌}
use mathlib.Core.Path.{◌≡◌, refl}
use mathlib.Core.Logic.{◌⊎◌, inl, inr}
use mathlib.Core.Bool.{Bool, true, false, not, ◌&&◌, ◌||◌}
use mathlib.Core.Option.{Option, none, some}
use native.Mathlib.Omega.{arith}
use text.Mathlib.Text.{◌==◌ as str_eq}
use text.Mathlib.TextEquality.{Char-path}
use droid_proxy.Prelude.Tests.{ltb, leb, ◌==◌, if◌then◌else◌}

-- `unicode.IsSpace`.
abbrev pub is_space : ℕ → Bool
is_space c =
    (leb 9 c && leb c 13)
    || c == 32
    || c == 0x85
    || c == 0xa0
    || c == 0x1680
    || (leb 0x2000 c && leb c 0x200a)
    || c == 0x2028
    || c == 0x2029
    || c == 0x202f
    || c == 0x205f
    || c == 0x3000

trim_left : String → String
trim_left [] = []
trim_left (c ∷ s) = if is_space (code c) then trim_left s else c ∷ s

trim_right_where : (ℕ → Bool) → String → String
trim_right_where p [] = []
trim_right_where p (c ∷ s) =
    let rest = trim_right_where p s in if p (code c) && str_eq rest "" then [] else c ∷ rest

-- `strings.TrimSpace`.
unfoldable pub trim_space : String → String
unfolding trim_left trim_right_where
trim_space s = trim_right_where is_space (trim_left s)

-- `strings.TrimSpace(s) == ""`.
unfoldable pub is_blank : String → Bool
is_blank s = str_eq (trim_space s) ""

unfoldable pub is_prefix : String → String → Bool
is_prefix [] s = true
is_prefix (c ∷ t) [] = false
is_prefix (c ∷ t) (d ∷ s) = let rest = is_prefix t s in if code c == code d then rest else false

-- `strings.Contains(s, t)`.
unfoldable pub contains : String → String → Bool
unfolding is_prefix
contains [] t = str_eq t ""
contains (c ∷ s) t = let rest = contains s t in if is_prefix t (c ∷ s) then true else rest

-- `s < t` on strings.
unfoldable pub str_ltb : String → String → Bool
str_ltb [] [] = false
str_ltb [] (d ∷ t) = true
str_ltb (c ∷ s) [] = false
str_ltb (c ∷ s) (d ∷ t) =
    let rest = str_ltb s t in
    if ltb (code c) (code d) then true else if code c == code d then rest else false

pub str_ltb_trichotomy : (s t : String) → str_ltb s t ≡ false → str_ltb t s ≡ false → s ≡ t
unfolding str_ltb
str_ltb_trichotomy [] [] p q = refl
str_ltb_trichotomy [] (d ∷ t) p q = cc
str_ltb_trichotomy (c ∷ s) [] p q = cc
str_ltb_trichotomy (c ∷ s) (d ∷ t) p q =
    let same : code c ≡ code d = ground arith in
    let tails = str_ltb_trichotomy s t (ground arith) (ground arith) in
    cc (Char-path c d same, tails)

pub str_ltb_asym : (s t : String) → str_ltb s t ≡ true → str_ltb t s ≡ false
unfolding str_ltb
str_ltb_asym [] [] p = cc
str_ltb_asym [] (d ∷ t) p = refl
str_ltb_asym (c ∷ s) [] p = cc
str_ltb_asym (c ∷ s) (d ∷ t) p = ground (arith, str_ltb_asym s t)

pub str_ltb_compare :
    (s u t : String) → str_ltb s t ≡ true → (str_ltb s u ≡ true) ⊎ (str_ltb u t ≡ true)
unfolding str_ltb
str_ltb_compare [] u [] p = cc
str_ltb_compare [] [] (d ∷ t) p = inr refl
str_ltb_compare [] (e ∷ u) (d ∷ t) p = inl refl
str_ltb_compare (c ∷ s) u [] p = cc
str_ltb_compare (c ∷ s) [] (d ∷ t) p = inr refl
str_ltb_compare (c ∷ s) (e ∷ u) (d ∷ t) p = ground (arith, str_ltb_compare s u t)

is_slash : ℕ → Bool
is_slash c = c == b'/'

-- What follows the last character that passes the test.
after_last : (ℕ → Bool) → String → Option String
after_last p [] = none
after_last p (c ∷ s) = elim (after_last p s) [
  | some r ↦ some r
  | none ↦ if p (code c) then some s else none
]

or_self : Option String → String → String
or_self none s = s
or_self (some r) s = r

-- `filepath.Base` on a path with `/` for its separator.
unfoldable pub base : String → String
unfolding trim_right_where is_slash after_last or_self
base path =
    if str_eq path ""
    then "."
    else let kept = trim_right_where is_slash path in
      let last = or_self (after_last is_slash kept) kept in if str_eq last "" then "/" else last

has_slash : String → Bool
has_slash [] = false
has_slash (c ∷ s) = if code c == b'/' then true else has_slash s

last_dot : String → Option String
last_dot [] = none
last_dot (c ∷ s) = elim (last_dot s) [
  | some r ↦ some r
  | none ↦ if code c == b'.' && not (has_slash s) then some (c ∷ s) else none
]

-- `filepath.Ext`: the last dot of the last element and what follows it.
unfoldable pub ext : String → String
unfolding last_dot has_slash or_self
ext path = or_self (last_dot path) ""

-- `strings.TrimSuffix`.
unfoldable pub trim_suffix : String → String → String
trim_suffix [] suffix = []
trim_suffix (c ∷ s) suffix =
    let rest = trim_suffix s suffix in if str_eq (c ∷ s) suffix then [] else c ∷ rest

-- `strings.HasSuffix`.
unfoldable pub has_suffix : String → String → Bool
has_suffix [] suffix = str_eq [] suffix
has_suffix (c ∷ s) suffix = str_eq (c ∷ s) suffix || has_suffix s suffix

-- `strings.EqualFold`, over a table that gives each rune its simple case-folding class.
unfoldable pub equal_fold : (ℕ → ℕ) → String → String → Bool
equal_fold fold [] [] = true
equal_fold fold [] (d ∷ t) = false
equal_fold fold (c ∷ s) [] = false
equal_fold fold (c ∷ s) (d ∷ t) =
    let rest = equal_fold fold s t in if fold (code c) == fold (code d) then rest else false

text_tests :
    (trim_space " a b \n" ≡ "a b")
    × (base "/x/auth/a.b.json" ≡ "a.b.json")
    × (base "//" ≡ "/")
    × (ext "/x.d/auth/a.json" ≡ ".json")
    × (ext "/x.d/auth" ≡ "")
    × (str_ltb "ab" "b" ≡ true)
    × (trim_suffix "a.json" ".json" ≡ "a")
unfolding trim_space base ext str_ltb trim_suffix
text_tests = (refl, refl, refl, refl, refl, refl, refl)

-- `strings.TrimPrefix(s, t)` where `s` begins with `t`, and `none` where it does not.
unfoldable pub cut_prefix : String → String → Option String
cut_prefix [] s = some s
cut_prefix (c ∷ t) [] = none
cut_prefix (c ∷ t) (d ∷ s) = let rest = cut_prefix t s in if code c == code d then rest else none

-- A text without its last character, if that is the one given.
unfoldable pub trim_last : ℕ → String → String
trim_last n [] = []
trim_last n (c ∷ s) =
    let rest = trim_last n s in
    if str_eq s "" then (if code c == n then [] else c ∷ []) else c ∷ rest
