-- ===== src/IdentityMap/Tests.antt =====
-- A map with room for two objects, and the theorems on it.
use ascetic_ddd_python.Prelude.{
  ◌≡◌, ◌≤◌, ◌<◌, refl, ◌==◌, if◌then◌else◌, Bool, false, none, some, List, [], ◌∷◌, length, arith,
}
use ascetic_ddd_python.Prelude.Result.{Result, ok, raise}
use ascetic_ddd_python.Prelude.Dict
use ascetic_ddd_python.IdentityMap.{
  Object, entity, nonexistent, same, Error, key_error, value_error, assertion_error, serializable,
  IdentityMap, without, is_cached, do_get, add, get, remove, touch,
}
use ascetic_ddd_python.IdentityMap.Lookup.{object_of, recalled, stored, forgets, get-add}
use ascetic_ddd_python.IdentityMap.Eviction.{
  Event, added, collected, run, additions, Spares, get_again,
}
use ascetic_ddd_python.IdentityMap.Limits.{add-le-size}

-- The entity 7 is held by the application, and no longer by the cache.
abbrev crowded : IdentityMap
crowded = record {
  order = entity 8 ∷ entity 9 ∷ [];
  size = 2;
  alive = (1, entity 7) ∷ (2, entity 8) ∷ (3, entity 9) ∷ [];
  strategy = serializable;
  fresh = 0;
}

abbrev held : Object → Bool
held v = same v (entity 7)

-- The `==` of Python's `object`.
abbrev eq : Object → Object → Result Error Bool
eq w v = ok (same w v)

get-add_example : (get eq 2 (add held 4 (object_of none) crowded)).0 ≡ (
    if 4 == 2
    then recalled serializable none (get eq 2 crowded).0
    else if forgets held (stored serializable none 0) (Dict.get 2 crowded.alive) crowded
    then raise key_error
    else (get eq 2 crowded).0)
get-add_example = get-add eq held 4 2 none crowded (λ v w. refl) (omega arith)

-- The object that the cache drops is gone at once, unless the application holds it.
evicted_8 : (get eq 2 (add held 4 (object_of none) crowded)).0 ≡ raise key_error
unfolding get do_get add Dict.get Dict.set Dict.keep Dict.delete touch is_cached
evicted_8 = refl

kept_7 : (get eq 1 (add held 4 (object_of none) crowded)).0 ≡ ok (entity 7)
unfolding get do_get add Dict.get Dict.set Dict.keep Dict.delete touch is_cached
kept_7 = refl

-- Reading an object that the cache dropped makes the cache exceed its size.
exceeded : length (do_get eq 1 crowded).1.order ≡ 3
unfolding do_get Dict.get touch
exceeded = refl

-- Removing it raises.
not_removed : remove eq held 1 crowded ≡ (raise value_error, crowded)
unfolding remove Dict.get without
not_removed = refl

-- A class like `HashableEntity`, whose `==` asserts that the other is an entity too.
abbrev asserting : Object → Object → Result Error Bool
asserting (entity i) (entity j) = ok (i == j)
asserting (nonexistent i) (nonexistent j) = ok (i == j)
asserting _ _ = raise assertion_error

abbrev mixed : IdentityMap
mixed = record {
  order = nonexistent 0 ∷ entity 8 ∷ [];
  size = 2;
  alive = (1, nonexistent 0) ∷ (2, entity 8) ∷ [];
  strategy = serializable;
  fresh = 1;
}

not_read : (get asserting 2 mixed).0 ≡ raise assertion_error
unfolding get do_get Dict.get touch
not_read = refl

reads_8 : (get eq 2 crowded).0 ≡ ok (entity 8)
unfolding get do_get Dict.get touch
reads_8 = refl

abbrev later : List Event
later = collected (λ v. false) ∷ added held 5 (some (entity 1)) ∷ collected (λ v. false) ∷ []

few_later : additions later < 2
unfolding additions
few_later = omega arith

others_later : Spares 2 later
others_later = omega arith

get_again_example : (get eq 2 (run later (get eq 2 crowded).1)).0 ≡ ok (entity 8)
get_again_example = get_again eq 2 8 crowded later (λ w. refl) reads_8 others_later few_later

add-le-size_example :
    length (add held 6 (some (entity 6)) crowded).order
    ≤ (add held 6 (some (entity 6)) crowded).size
add-le-size_example = add-le-size held 6 (some (entity 6)) crowded (omega arith)
