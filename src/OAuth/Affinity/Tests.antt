-- ===== src/OAuth/Affinity/Tests.antt =====
-- The bindings at concrete stores.
use droid_proxy.Prelude.{
  ℕ, zero, suc, ◌≤◌, ◌<◌, ◌≡◌, ◌≢◌, refl, Bool, true, false, Option, none, some, List, [], ◌∷◌,
  String, arith, All,
}
use droid_proxy.Prelude.Texts.{trim_space}
use droid_proxy.Prelude.Maps.{string_eq, beq-apart}
use droid_proxy.Samples.{plain_go, two_bindings, small_store, path_a, noon}
use droid_proxy.OAuth.Affinity.{
  AffinityStore, Bindings, new_affinity_store, bind, bound_path, prune, is_stale,
  normalize_affinity_id,
}
use droid_proxy.OAuth.Affinity.Limits.{IsBounded, opened, bound, Reached-IsBounded}
use droid_proxy.OAuth.Affinity.Binding.{bound_path-bind}

abbrev opened_store : AffinityStore
opened_store = new_affinity_store plain_go noon 500 1 two_bindings

small_store-IsBounded : IsBounded small_store
small_store-IsBounded = record {
  is_map = ((beq-apart "two" "one" refl, tt), (tt, tt));
  bounded = omega arith;
  limited = omega arith;
}

Reached-IsBounded_example : IsBounded (bind plain_go true noon opened_store "three" path_a)
Reached-IsBounded_example =
    Reached-IsBounded plain_go (bound true noon "three" path_a (opened noon 500 1 two_bindings))

three_named : normalize_affinity_id plain_go "three" ≢ ""
unfolding normalize_affinity_id trim_space
three_named = beq-apart (normalize_affinity_id plain_go "three") "" refl

bound_path-bind_example :
    bound_path plain_go (bind plain_go true noon small_store "three" path_a) "three"
    ≡ trim_space path_a
unfolding droid_proxy.Prelude.Texts.is_blank trim_space
bound_path-bind_example =
    bound_path-bind plain_go true noon small_store "three" path_a small_store-IsBounded
      (omega arith, (omega arith, tt)) three_named refl

-- The eldest of three bindings makes room.
test_evicted : bound_path plain_go (bind plain_go true noon small_store "three" path_a) "one" ≡ ""
unfolding bound_path normalize_affinity_id trim_space droid_proxy.Prelude.Maps.lookup bind
    droid_proxy.OAuth.Affinity.save droid_proxy.OAuth.Affinity.enforce_max
    droid_proxy.Prelude.Maps.insert droid_proxy.OAuth.Affinity.erase_first
    droid_proxy.Prelude.Sort.sort droid_proxy.Prelude.Maps.erase
test_evicted = refl
