-- ===== src/IdentityMap/Lookup.antt =====
-- What the identity map answers, strategy by strategy.
use ascetic_ddd_python.Prelude.{
  ℕ, ◌+◌, ◌<◌, ◌≡◌, refl, sym, ap, ◌∙◌, ◌⊎◌, ◌≢◌, ◌==◌, ltb, ◌||◌, not, if◌then◌else◌, Bool, true,
  false, Option, none, some, Option-cases, Bool-cases, inl, inr, List, [], ◌∷◌, ◌++◌, length,
  length-append, arith,
}
use mathlib.Core.Path.{ap₂}
use ascetic_ddd_python.Prelude.Result.{Result, ok, raise}
use ascetic_ddd_python.Prelude.Dict
use ascetic_ddd_python.Prelude.Dict.{get-set, get-keep}
use ascetic_ddd_python.IdentityMap.{
  Object, entity, nonexistent, same, Error, key_error, value_error, object_not_found, Level,
  read_uncommitted, read_committed, repeatable_reads, serializable, IdentityMap, without, touch,
  drop_first, cache_add, is_cached, collect, do_add, do_get, add, get,
}

-- In comparisons with the value, `==` is the equality of Python's `object`, which the classes of the
-- application did not replace.
abbrev pub IsByIdentity : (Object → Object → Result Error Bool) → Object → Type 0
IsByIdentity eq v = (w : Object) → eq w v ≡ ok (same w v)

same-≡ : (w v : Object) → same w v ≡ true → w ≡ v
same-≡ (entity i) (entity j) h = ground arith
same-≡ (nonexistent i) (nonexistent j) h = ground arith
same-≡ _ _ h = cc

without-cases :
    (eq : Object → Object → Result Error Bool) (v : Object) (order : List Object)
    → IsByIdentity eq v
    → (without eq v order ≡ raise value_error)
      ⊎ ((rest : List Object) × (without eq v order ≡ ok (v, rest)))
unfolding without
without-cases eq v [] h = inl refl
without-cases eq v (w ∷ ws) h = elim (Bool-cases (same w v)) [
  | inl e ↦ inr (ws, ground (arith, e, same-≡ w v e))
  | inr e ↦ elim (without-cases eq v ws h) [
    | inl none_there ↦ inl (ground (arith, e, h w, none_there))
    | inr (rest, there) ↦ inr (w ∷ rest, ground (arith, e, h w, there))
  ]
]

-- Reading a value that is compared by identity makes it the last of the cache.
pub touch-last :
    (eq : Object → Object → Result Error Bool) (v : Object) (order : List Object)
    → IsByIdentity eq v
    → (front : List Object) × (touch eq v order ≡ ok (front ++ v ∷ []))
unfolding touch
touch-last eq v order h = elim (without-cases eq v order h) [
  | inl e ↦ (order, ground (arith, e))
  | inr (rest, e) ↦ (rest, ground (arith, e))
]

-- What a strategy answers for what the map holds.
abbrev pub answer : Level → Option Object → Result Error Object
answer repeatable_reads (some (entity i)) = ok (entity i)
answer serializable (some (entity i)) = ok (entity i)
answer serializable (some (nonexistent i)) = raise object_not_found
answer _ _ = raise key_error

pub get-answer :
    (eq : Object → Object → Result Error Bool) (key : ℕ) (m : IdentityMap)
    → ((v : Object) → Dict.get key m.alive ≡ some v → IsByIdentity eq v)
    → (get eq key m).0 ≡ answer m.strategy (Dict.get key m.alive)
unfolding get do_get
get-answer eq key m h = elim (Option-cases (Dict.get key m.alive)) [
  | inl e ↦ ground (arith, e)
  | inr (v, e) ↦ let (front, t) = touch-last eq v m.order (h v e) in ground (arith, e, t)
]

same_refl : (v : Object) → same v v ≡ true
same_refl (entity i) = ground arith
same_refl (nonexistent i) = ground arith

pub is_cached-append :
    (v : Object) (front back : List Object) → is_cached v (front ++ v ∷ back) ≡ true
unfolding is_cached
is_cached-append v [] back = ground (arith, same_refl v)
is_cached-append v (w ∷ front) back = ground (arith, is_cached-append v front back)

-- What the cache keeps when another object is added.
abbrev pub remaining : IdentityMap → List Object
remaining m = if ltb (length m.order) m.size then m.order else drop_first m.order

cache_add-remaining :
    (v : Object) (m : IdentityMap) → 0 < m.size → cache_add m.size v m.order ≡ remaining m ++ v ∷ []
unfolding cache_add
cache_add-remaining v m h = go m.order
  where
    go :
        (order : List Object)
        → cache_add m.size v order
          ≡ (if ltb (length order) m.size then order else drop_first order) ++ v ∷ []
    go [] = ground arith
    go (w ∷ ws) = ground (arith, length-append ws (v ∷ []))

do_add-alive :
    (held : Object → Bool) (key j : ℕ) (u : Object) (m : IdentityMap)
    → 0 < m.size
    → Dict.get j (do_add held key u m).alive
      ≡ Dict.passing
          (λ v. held v || is_cached v (remaining m ++ u ∷ []))
          (if key == j then some u else Dict.get j m.alive)
unfolding do_add collect
do_add-alive held key j u m h =
    let p : Object → Bool = λ v. held v || is_cached v (cache_add m.size u m.order) in
    rw (sym (cache_add-remaining u m h))
      (get-keep j p (Dict.set key u m.alive) ∙ ap (Dict.passing p) (get-set key j u m.alive))

abbrev pub object_of : Option ℕ → Option Object
object_of none = none
object_of (some i) = some (entity i)

-- What `get` answers for a key to which `value` was just added, if it answered `before`.
pub recalled : Level → Option ℕ → Result Error Object → Result Error Object
recalled read_uncommitted value before = raise key_error
recalled read_committed value before = raise key_error
recalled repeatable_reads none before = before
recalled repeatable_reads (some i) before = ok (entity i)
recalled serializable none before = raise object_not_found
recalled serializable (some i) before = ok (entity i)

-- The object that `add` puts into the map, if any.
abbrev pub stored : Level → Option ℕ → ℕ → Option Object
stored repeatable_reads (some i) fresh = some (entity i)
stored serializable none fresh = some (nonexistent fresh)
stored serializable (some i) fresh = some (entity i)
stored _ _ _ = none

-- Whether a map forgets an object when another is put into it: the application does not refer to it,
-- and the cache does not keep it.
abbrev pub forgets : (Object → Bool) → Option Object → Option Object → IdentityMap → Bool
forgets held (some u) (some v) m = not (held v || is_cached v (remaining m ++ u ∷ []))
forgets held _ _ m = false

do_add-key :
    (held : Object → Bool) (key : ℕ) (u : Object) (m : IdentityMap)
    → 0 < m.size
    → Dict.get key (do_add held key u m).alive ≡ some u
do_add-key held key u m h =
    do_add-alive held key key u m h ∙ ground (arith, is_cached-append u (remaining m) [])

do_add-other :
    (held : Object → Bool) (key j : ℕ) (u : Object) (m : IdentityMap)
    → 0 < m.size
    → key ≢ j
    → Dict.get j (do_add held key u m).alive
      ≡ (if forgets held (some u) (Dict.get j m.alive) m then none else Dict.get j m.alive)
do_add-other held key j u m h ne =
    do_add-alive held key j u m h ∙ (elim (Option-cases (Dict.get j m.alive)) [
      | inl e ↦ ground (arith, e, ne)
      | inr (v, e) ↦ ground (arith, e, ne)
    ])

do_add-get :
    (eq : Object → Object → Result Error Bool) (held : Object → Bool) (key j : ℕ) (u : Object)
    (m : IdentityMap)
    → ((v : Object) → IsByIdentity eq v)
    → 0 < m.size
    → (get eq j (do_add held key u m)).0
      ≡ answer m.strategy (
          if key == j
          then some u
          else if forgets held (some u) (Dict.get j m.alive) m
          then none
          else Dict.get j m.alive)
do_add-get eq held key j u m plain h =
    get-answer eq j (do_add held key u m) (λ v e. plain v)
    ∙ ap₂ answer (unfold do_add collect in refl) (elim (Bool-cases (key == j)) [
      | inl e ↦ ground (arith, e, do_add-key held key u m h)
      | inr e ↦ ground (arith, e, do_add-other held key j u m h)
    ])

-- Let the application's classes keep the `==` of Python's `object`, and let the cache have room for
-- an object. After `add`, the map answers for the key as its isolation level asks: nothing below
-- repeatable reads; at repeatable reads the object, and an object that does not exist is not
-- remembered; at serializable also that the object does not exist. For another key it answers as
-- before, except that an object is gone that the application does not refer to and that the cache
-- drops for what was added: then `get` raises KeyError.
pub get-add :
    (eq : Object → Object → Result Error Bool) (held : Object → Bool) (key j : ℕ) (value : Option ℕ)
    (m : IdentityMap)
    → ((v : Object) → IsByIdentity eq v)
    → 0 < m.size
    → (get eq j (add held key (object_of value) m)).0 ≡ (
        if key == j
        then recalled m.strategy value (get eq j m).0
        else if forgets held (stored m.strategy value m.fresh) (Dict.get j m.alive) m
        then raise key_error
        else (get eq j m).0)
unfolding add recalled
get-add eq held key j none m plain h =
    let after =
      do_add-get eq held key j (nonexistent m.fresh) (record m { fresh = m.fresh + 1 }) plain h in
    ground (arith, after, get-answer eq j m (λ v e. plain v))
get-add eq held key j (some i) m plain h =
    ground
      (arith, do_add-get eq held key j (entity i) m plain h, get-answer eq j m (λ v e. plain v))
