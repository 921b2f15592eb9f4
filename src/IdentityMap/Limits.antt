-- ===== src/IdentityMap/Limits.antt =====
-- The bound on the cache.
use ascetic_ddd_python.Prelude.{
  Bool, ℕ, ◌-◌, ◌≤◌, ◌≡◌, Option, none, some, List, [], ◌∷◌, ◌++◌, length, length-append, arith,
}
use ascetic_ddd_python.IdentityMap.{
  Object, nonexistent, IdentityMap, drop_first, cache_add, collect, do_add, add,
}

length-drop_first : (l : List Object) → length (drop_first l) ≡ length l - 1
length-drop_first [] = omega arith
length-drop_first (v ∷ l) = omega arith

cache_add-le-size :
    (size : ℕ) (v : Object) (order : List Object)
    → length order ≤ size
    → length (cache_add size v order) ≤ size
unfolding cache_add
cache_add-le-size size v order h =
    ground (arith, length-append order (v ∷ []), length-drop_first (order ++ v ∷ []))

-- Adding keeps a cache within its size, at every isolation level.
pub add-le-size :
    (held : Object → Bool) (key : ℕ) (value : Option Object) (m : IdentityMap)
    → length m.order ≤ m.size
    → length (add held key value m).order ≤ (add held key value m).size
unfolding add do_add collect
add-le-size held key none m h =
    ground (arith, cache_add-le-size m.size (nonexistent m.fresh) m.order h)
add-le-size held key (some v) m h = ground (arith, cache_add-le-size m.size v m.order h)
