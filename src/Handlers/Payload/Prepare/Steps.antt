-- ===== src/Handlers/Payload/Prepare/Steps.antt =====
-- What one step of a payload's preparation writes: internal/handlers/oauth_payload.go. The laws are
-- the documented behaviour of gjson and sjson on a valid body and names without path characters.
use Prim.Native.Char.{code}
use Prim.Native.String.{[], ◌∷◌}
use droid_proxy.Prelude.{
  ◌≡◌, refl, ◌∙◌, Bool, true, false, not, ◌&&◌, ◌||◌, Option, none, some, List, [], ◌∷◌, All,
  String, str_eq, leb, ◌==◌, arith, if◌then◌else◌,
}
use droid_proxy.Prelude.GoLibrary.{GoLibrary}
use droid_proxy.Reasoning.Json.{Json, null, boolean, number, text, array, object}
use droid_proxy.Handlers.Payload.Prepare.{
  JsonBody, put, cut, or_body, or_cut, cut_each, with_service_tier, with_instructions, with_input,
  with_tools, message_of_text, set_xai_tools,
}

-- A name of letters and underscores.
unfoldable pub is_plain : String → Bool
is_plain [] = true
is_plain (c ∷ s) = (leb 97 (code c) && leb (code c) 122 || code c == 95) && is_plain s

-- Two such names that differ.
unfoldable pub are_apart : String → String → Bool
unfolding is_plain
are_apart k j = is_plain k && is_plain j && not (str_eq k j)

abbrev pub all_apart : List String → String → Bool
all_apart [] j = true
all_apart (k ∷ ks) j = are_apart k j && all_apart ks j

abbrev pub are_distinct : List String → Bool
are_distinct [] = true
are_distinct (k ∷ ks) = is_plain k && all_apart ks k && are_distinct ks

pub record IsJsonBody {Body : Type 0} (lib : JsonBody Body) : Type 0 where
  pub sets :
      (k : String) (v : Json) (b : Body) → is_plain k ≡ true → (c : Body) × (lib.set k v b ≡ some c)
  pub deletes : (k : String) (b : Body) → is_plain k ≡ true → (c : Body) × (lib.delete k b ≡ some c)
  pub get_set :
      (k : String) (v : Json) (b c : Body)
      → is_plain k ≡ true
      → lib.set k v b ≡ some c
      → lib.get k c ≡ some v
  pub get_delete :
      (k : String) (b c : Body) → is_plain k ≡ true → lib.delete k b ≡ some c → lib.get k c ≡ none
  pub get_set_other :
      (k j : String) (v : Json) (b c : Body)
      → are_apart k j ≡ true
      → lib.set k v b ≡ some c
      → lib.get j c ≡ lib.get j b
  pub get_delete_other :
      (k j : String) (b c : Body)
      → are_apart k j ≡ true
      → lib.delete k b ≡ some c
      → lib.get j c ≡ lib.get j b
  pub to_string_text : (s : String) → lib.to_string (text s) ≡ s

-- What is read of a step that may write.
pub if_ap :
    {A B : Type 0} (f : A → B) (t : Bool) (a b : A) {c : B}
    → f a ≡ c
    → f (if t then a else b) ≡ (if t then c else f b)
if_ap f true a b e = e
if_ap f false a b e = refl

module _ (go : GoLibrary) {Body : Type 0} (lib : JsonBody Body) (laws : IsJsonBody lib) where
  pub get-put :
      (k : String) (v : Json) (b : Body) → is_plain k ≡ true → lib.get k (put go lib k v b) ≡ some v
  unfolding put
  get-put k v b p = let (c, e) = laws.sets k v b p in rw e (laws.get_set k v b c p e)

  pub get-cut : (k : String) (b : Body) → is_plain k ≡ true → lib.get k (cut go lib k b) ≡ none
  unfolding cut
  get-cut k b p = let (c, e) = laws.deletes k b p in rw e (laws.get_delete k b c p e)

  or_body_other :
      (j : String) (b : Body) (o : Option Body)
      → ((c : Body) → o ≡ some c → lib.get j c ≡ lib.get j b)
      → lib.get j (or_body b o) ≡ lib.get j b
  or_body_other j b none h = refl
  or_body_other j b (some c) h = h c refl

  pub put_other :
      (k j : String) (v : Json) (b : Body)
      → are_apart k j ≡ true
      → lib.get j (put go lib k v b) ≡ lib.get j b
  unfolding put
  put_other k j v b a = or_body_other j b (lib.set k v b) (λ c. laws.get_set_other k j v b c a)

  pub cut_other :
      (k j : String) (b : Body) → are_apart k j ≡ true → lib.get j (cut go lib k b) ≡ lib.get j b
  unfolding cut
  cut_other k j b a = or_body_other j b (lib.delete k b) (λ c. laws.get_delete_other k j b c a)

  -- A step that may write one field keeps each other one.
  pub if_other :
      (j : String) (t : Bool) (b c : Body)
      → lib.get j c ≡ lib.get j b
      → lib.get j (if t then c else b) ≡ lib.get j b
  if_other j true b c h = h
  if_other j false b c h = refl

  pub service_tier_other :
      (j : String) (b : Body)
      → are_apart "service_tier" j ≡ true
      → lib.get j (with_service_tier go lib b) ≡ lib.get j b
  unfolding with_service_tier
  service_tier_other j b a = if_other j _ b _ (
      or_cut_other (lib.set "service_tier" (text "priority") b)
        (λ c. laws.get_set_other "service_tier" j (text "priority") b c a))
    where
      or_cut_other :
          (o : Option Body)
          → ((c : Body) → o ≡ some c → lib.get j c ≡ lib.get j b)
          → lib.get j (or_cut go lib b o) ≡ lib.get j b
      or_cut_other none h = cut_other "service_tier" j b a
      or_cut_other (some c) h = h c refl

  pub instructions_other :
      (j : String) (b : Body)
      → are_apart "instructions" j ≡ true
      → lib.get j (with_instructions go lib b) ≡ lib.get j b
  unfolding with_instructions
  instructions_other j b a = if_other j _ b _ (put_other "instructions" j _ b a)

  pub input_other :
      (j : String) (b : Body)
      → are_apart "input" j ≡ true
      → lib.get j (with_input go lib b) ≡ lib.get j b
  unfolding with_input
  input_other j b a = by_value (lib.get "input" b)
    where
      by_value : (o : Option Json) → lib.get j (message_of_text go lib o b) ≡ lib.get j b
      by_value none = refl
      by_value (some (text s)) = put_other "input" j _ b a
      by_value (some (array vs)) = refl
      by_value (some (object m)) = refl
      by_value (some null) = refl
      by_value (some (boolean v)) = refl
      by_value (some (number n)) = refl

  pub tools_other :
      (j : String) (b : Body)
      → are_apart "tools" j ≡ true
      → lib.get j (with_tools go lib b) ≡ lib.get j b
  unfolding with_tools
  tools_other j b a = by_value (lib.get "tools" b)
    where
      by_value : (o : Option Json) → lib.get j (set_xai_tools go lib o b) ≡ lib.get j b
      by_value none = refl
      by_value (some (array vs)) = put_other "tools" j _ b a
      by_value (some (text s)) = refl
      by_value (some (object m)) = refl
      by_value (some null) = refl
      by_value (some (boolean v)) = refl
      by_value (some (number n)) = refl

  pub cut_each_other :
      (ks : List String) (j : String) (b : Body)
      → all_apart ks j ≡ true
      → lib.get j (cut_each go lib ks b) ≡ lib.get j b
  unfolding cut_each
  cut_each_other [] j b a = refl
  cut_each_other (k ∷ ks) j b a =
      cut_each_other ks j (cut go lib k b) (ground arith) ∙ cut_other k j b (ground arith)

  -- What is cut is gone, when the names differ from each other.
  pub get-cut_each :
      (ks : List String) (b : Body)
      → are_distinct ks ≡ true
      → All (λ j. lib.get j (cut_each go lib ks b) ≡ none) ks
  unfolding cut_each
  get-cut_each [] b d = tt
  get-cut_each (k ∷ ks) b d = (
    cut_each_other ks k (cut go lib k b) (ground arith) ∙ get-cut k b (ground arith),
    get-cut_each ks (cut go lib k b) (ground arith),
  )
