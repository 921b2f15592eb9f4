-- ===== src/IdentityMap.antt =====
-- session/identity_map.py: the identity map, its cache of strong references and its strategies.
-- Objects are references. `eq` is their `==`, which their classes may define, and which may raise;
-- `held` says which objects the application refers to when a call has returned. Keys are numbers: the
-- map only compares them.
pub mod Lookup
pub mod Eviction
pub mod Limits
mod Tests
use ascetic_ddd_python.Prelude.{
  ℕ, zero, suc, ◌+◌, ltb, ◌==◌, if◌then◌else◌, Bool, true, false, not, ◌||◌, Option, none, some,
  List, [], ◌∷◌, ◌++◌, length,
}
use ascetic_ddd_python.Prelude.Result.{Result, ok, raise, ◌>>=◌}
use ascetic_ddd_python.Prelude.Dict
use ascetic_ddd_python.Prelude.Dict.{Dict}

-- An object of the application, or a `NonexistentObject`.
pub data Object : Type 0 where
  entity : ℕ → Object
  nonexistent : ℕ → Object

abbrev pub same : Object → Object → Bool
same (entity a) (entity b) = a == b
same (nonexistent a) (nonexistent b) = a == b
same _ _ = false

pub data Error : Type 0 where
  key_error value_error index_error assertion_error object_not_found : Error

pub data Level : Type 0 where
  read_uncommitted read_committed repeatable_reads serializable : Level

-- `order` is the list of the cache, and `alive` the dictionary of weak references. `fresh` numbers the
-- NonexistentObject that is made next.
pub record IdentityMap : Type 0 where
  pub order : List Object
  pub size : ℕ
  pub alive : Dict Object
  pub strategy : Level
  pub fresh : ℕ

-- `STRATEGY_MAP[level]`
unfoldable pub strategy_of : ℕ → Result Error Level
strategy_of level =
    if level == 0
    then ok read_uncommitted
    else if level == 1
    then ok read_committed
    else if level == 2
    then ok repeatable_reads
    else if level == 3
    then ok serializable
    else raise key_error

unfoldable pub set_isolation_level : ℕ → IdentityMap → Result Error Unit × IdentityMap
unfolding strategy_of
set_isolation_level level m = elim (strategy_of level) [
  | ok s ↦ (ok tt, record m { strategy = s })
  | raise e ↦ (raise e, m)
]

unfoldable pub init : ℕ → Level → IdentityMap
init cache_size level = record {
  order = [];
  size = cache_size;
  alive = [];
  strategy = level;
  fresh = 0;
}

-- What Python's lists compare by: an item is found if it is the value or equals it.
abbrev matches : (Object → Object → Result Error Bool) → Object → Object → Result Error Bool
matches eq w v = if same w v then ok true else eq w v

-- `order.index(value)` and `order.remove(value)`: the first item that matches, and the list without
-- it; or what `==` raises, or ValueError.
unfoldable pub without :
    (Object → Object → Result Error Bool)
    → Object
    → List Object
    → Result Error (Object × List Object)
without eq v [] = raise value_error
without eq v (w ∷ ws) =
    let rest = without eq v ws in
    elim (matches eq w v) [
      | ok true ↦ ok (w, ws)
      | ok false ↦ rest >>= λ found. ok (found.0, w ∷ found.1)
      | raise e ↦ raise e
    ]

-- `order.pop(0)`
abbrev pub drop_first : List Object → List Object
drop_first [] = []
drop_first (w ∷ ws) = ws

-- `CacheLru.add`
unfoldable pub cache_add : ℕ → Object → List Object → List Object
cache_add size v order =
    let longer = order ++ v ∷ [] in if ltb size (length longer) then drop_first longer else longer

-- What `touch` appends: the item that it popped, or the value where ValueError or IndexError was
-- suppressed.
abbrev moved :
    Object → List Object → Result Error (Object × List Object) → Result Error (List Object)
moved v order (ok (w, rest)) = ok (rest ++ w ∷ [])
moved v order (raise value_error) = ok (order ++ v ∷ [])
moved v order (raise index_error) = ok (order ++ v ∷ [])
moved v order (raise e) = raise e

-- `CacheLru.touch`
unfoldable pub touch :
    (Object → Object → Result Error Bool) → Object → List Object → Result Error (List Object)
unfolding without
touch eq v order = moved v order (without eq v order)

-- Whether the cache holds a strong reference.
unfoldable pub is_cached : Object → List Object → Bool
is_cached v [] = false
is_cached v (w ∷ ws) = same w v || is_cached v ws

-- What becomes of the weak references: those go that neither the cache nor the application keeps
-- alive, as soon as the last reference to the object does.
unfoldable pub collect : (Object → Bool) → IdentityMap → IdentityMap
collect held m = record m { alive = Dict.keep (λ v. held v || is_cached v m.order) m.alive }

unfoldable pub do_add : (Object → Bool) → ℕ → Object → IdentityMap → IdentityMap
unfolding cache_add collect
do_add held key v m =
    collect held (record m { order = cache_add m.size v m.order; alive = Dict.set key v m.alive })

unfoldable pub do_get :
    (Object → Object → Result Error Bool) → ℕ → IdentityMap → Result Error Object × IdentityMap
do_get eq key m = elim (Dict.get key m.alive) [
  | none ↦ (raise key_error, m)
  | some v ↦ elim (touch eq v m.order) [
    | ok order ↦ (ok v, record m { order = order })
    | raise e ↦ (raise e, m)
  ]
]

-- `add` of the strategies; None stands for an object that does not exist.
unfoldable pub add : (Object → Bool) → ℕ → Option Object → IdentityMap → IdentityMap
unfolding do_add
add held key value m = elim m.strategy [
  | read_uncommitted ↦ m
  | read_committed ↦ m
  | repeatable_reads ↦ elim value [ none ↦ m | some v ↦ do_add held key v m ]
  | serializable ↦ elim value [
    | none ↦ do_add held key (nonexistent m.fresh) (record m { fresh = m.fresh + 1 })
    | some v ↦ do_add held key v m
  ]
]

-- What a strategy that hides the objects that do not exist raises for them.
abbrev hide : Error → Result Error Object × IdentityMap → Result Error Object × IdentityMap
hide e (ok (nonexistent i), m) = (raise e, m)
hide e (ok (entity i), m) = (ok (entity i), m)
hide e (raise x, m) = (raise x, m)

unfoldable pub get :
    (Object → Object → Result Error Bool) → ℕ → IdentityMap → Result Error Object × IdentityMap
unfolding do_get
get eq key m = elim m.strategy [
  | read_uncommitted ↦ (raise key_error, m)
  | read_committed ↦ (raise key_error, m)
  | repeatable_reads ↦ hide key_error (do_get eq key m)
  | serializable ↦ hide object_not_found (do_get eq key m)
]

-- `has` catches KeyError and no other exception.
abbrev found : (Object → Bool) → Result Error Object × IdentityMap → Result Error Bool × IdentityMap
found test (ok v, m) = (ok (test v), m)
found test (raise key_error, m) = (ok false, m)
found test (raise e, m) = (raise e, m)

abbrev is_entity : Object → Bool
is_entity (entity i) = true
is_entity (nonexistent i) = false

unfoldable pub has :
    (Object → Object → Result Error Bool) → ℕ → IdentityMap → Result Error Bool × IdentityMap
unfolding do_get
has eq key m = elim m.strategy [
  | read_uncommitted ↦ (ok false, m)
  | read_committed ↦ (ok false, m)
  | repeatable_reads ↦ found is_entity (do_get eq key m)
  | serializable ↦ found (λ v. true) (do_get eq key m)
]

-- How `IdentityMap.remove` goes on when `CacheLru.remove`, which suppresses IndexError, is done.
-- It catches KeyError; neither is the ValueError that `list.remove` raises.
abbrev removed :
    (Object → Bool)
    → ℕ
    → IdentityMap
    → Result Error (Object × List Object)
    → Result Error Unit × IdentityMap
removed held key m (ok (w, rest)) =
    (ok tt, collect held (record m { order = rest; alive = Dict.delete key m.alive }))
removed held key m (raise index_error) =
    (ok tt, collect held (record m { alive = Dict.delete key m.alive }))
removed held key m (raise key_error) = (ok tt, m)
removed held key m (raise e) = (raise e, m)

unfoldable pub remove :
    (Object → Object → Result Error Bool)
    → (Object → Bool)
    → ℕ
    → IdentityMap
    → Result Error Unit × IdentityMap
unfolding without collect
remove eq held key m = elim (Dict.get key m.alive) [
  | none ↦ (ok tt, m)
  | some v ↦ removed held key m (without eq v m.order)
]

unfoldable pub clear : IdentityMap → IdentityMap
clear m = record m { order = []; alive = [] }

-- `CacheLru.set_size`; the cache is not cut to a smaller size.
unfoldable pub set_size : ℕ → IdentityMap → IdentityMap
set_size size m = record m { size = size }

unfoldable pub do_has : ℕ → IdentityMap → Bool
do_has key m = elim (Dict.get key m.alive) [ none ↦ false | some v ↦ true ]
