-- ===== src/Reasoning/Json/Lookups.antt =====
-- Reads of an object after a write or a deletion.
use droid_proxy.Prelude.{◌≡◌, refl, false, some, String, str_eq, eq_iff, arith, if◌then◌else◌}
use droid_proxy.Reasoning.Json.{Json, Fields, no_fields, field, get, set, without}

pub get-set :
    (k j : String) (v : Json) (m : Fields)
    → get j (set k v m) ≡ (if str_eq k j then some v else get j m)
unfolding get set
get-set k j v no_fields = refl
get-set k j v (field i w m) = ground (arith, eq_iff k j, eq_iff i k, eq_iff i j, get-set k j v m)

pub get-without : (k j : String) (m : Fields) → str_eq k j ≡ false → get j (without k m) ≡ get j m
unfolding get without
get-without k j no_fields h = refl
get-without k j (field i w m) h =
    ground (arith, eq_iff k j, eq_iff i k, eq_iff i j, get-without k j m)
