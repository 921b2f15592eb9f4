-- ===== src/IdentityMap/Eviction.antt =====
-- How long the map remembers: the cache of strong references and the garbage collector.
use ascetic_ddd_python.Prelude.{
  ℕ, suc, ◌+◌, ◌<◌, ◌≡◌, ◌≢◌, refl, ap, ◌∙◌, ltb, Bool, ◌||◌, Option, none, some, List, [], ◌∷◌,
  ◌++◌, length, length-append, append_assoc, Bool-cases, inl, inr, arith,
}
use ascetic_ddd_python.Prelude.Result.{Result, ok}
use ascetic_ddd_python.Prelude.Dict
use ascetic_ddd_python.Prelude.Dict.{Dict, get-set, get-keep}
use ascetic_ddd_python.IdentityMap.Lookup.{IsByIdentity, touch-last, is_cached-append}
use ascetic_ddd_python.IdentityMap.{
  Object, entity, nonexistent, Error, Level, read_uncommitted, read_committed, repeatable_reads,
  serializable, IdentityMap, cache_add, do_add, do_get, add, get, is_cached, collect,
}

-- What happens to the map after an object was read: other keys are added, and garbage is collected,
-- whatever objects the application refers to at each of these times.
pub data Event : Type 0 where
  added : (Object → Bool) → ℕ → Option Object → Event
  collected : (Object → Bool) → Event

pub run : List Event → IdentityMap → IdentityMap
run [] m = m
run (added held j value ∷ events) m = run events (add held j value m)
run (collected held ∷ events) m = run events (collect held m)

unfoldable pub additions : List Event → ℕ
additions [] = 0
additions (added held j value ∷ events) = suc (additions events)
additions (collected held ∷ events) = additions events

-- No event adds the key.
abbrev pub Spares : ℕ → List Event → Type 0
Spares key [] = Unit
Spares key (added held j value ∷ events) = (j ≢ key) × Spares key events
Spares key (collected held ∷ events) = Spares key events

-- The object stands under its key, and fewer than `size` objects came after it in the cache, with
-- `n` more to come.
record Remembers (key : ℕ) (v : Object) (n : ℕ) (m : IdentityMap) : Type 0 where
  front : List Object
  back : List Object
  split : m.order ≡ front ++ v ∷ back
  room : length back + n < m.size
  alive : Dict.get key m.alive ≡ some v

cache_add-front :
    (size : ℕ) (w f v : Object) (front back : List Object)
    → (front' : List Object) × (cache_add size w ((f ∷ front) ++ v ∷ back)
        ≡ front' ++ v ∷ (back ++ w ∷ []))
unfolding cache_add
cache_add-front size w f v front back =
    elim (Bool-cases (ltb size (length ((f ∷ (front ++ v ∷ back)) ++ w ∷ [])))) [
      | inl over ↦ (front, ground (arith, over, append_assoc front (v ∷ back) (w ∷ [])))
      | inr fits ↦ (f ∷ front, ground (arith, fits, append_assoc front (v ∷ back) (w ∷ [])))
    ]

cache_add-split :
    (size : ℕ) (w v : Object) (front back : List Object)
    → suc (length back) < size
    → (front' : List Object) × (cache_add size w (front ++ v ∷ back)
        ≡ front' ++ v ∷ (back ++ w ∷ []))
unfolding cache_add
cache_add-split size w v [] back h = ([], ground (arith, length-append back (w ∷ [])))
cache_add-split size w v (f ∷ front) back h = cache_add-front size w f v front back

collect-Remembers :
    (key n : ℕ) (v : Object) (held : Object → Bool) (m : IdentityMap)
    → Remembers key v n m
    → Remembers key v n (collect held m)
unfolding collect
collect-Remembers key n v held m r = record {
  front = r.front;
  back = r.back;
  split = r.split;
  room = r.room;
  alive =
      get-keep key (λ w. held w || is_cached w m.order) m.alive
      ∙ rw r.split (ground (arith, r.alive, is_cached-append v r.front r.back));
}

do_add-Remembers :
    (held : Object → Bool) (key j n : ℕ) (v w : Object) (m : IdentityMap)
    → j ≢ key
    → Remembers key v (suc n) m
    → Remembers key v n (do_add held j w m)
unfolding do_add
do_add-Remembers held key j n v w m other r =
    let (front', e) = cache_add-split m.size w v r.front r.back (omega (arith, r.room)) in
    collect-Remembers key n v held _ (record {
      front = front';
      back = r.back ++ w ∷ [];
      split = rw r.split e;
      room = omega (arith, r.room, length-append r.back (w ∷ []));
      alive = ground (arith, get-set j key w m.alive, r.alive);
    })

spend : (key n : ℕ) (v : Object) (m : IdentityMap) → Remembers key v (suc n) m → Remembers key v n m
spend key n v m r = record {
  front = r.front;
  back = r.back;
  split = r.split;
  room = omega (arith, r.room);
  alive = r.alive;
}

add-Remembers :
    (held : Object → Bool) (key j n : ℕ) (v : Object) (value : Option Object) (m : IdentityMap)
    → j ≢ key
    → Remembers key v (suc n) m
    → Remembers key v n (add held j value m)
unfolding add
add-Remembers held key j n v value m other r = go value m.strategy refl
  where
    go : (x : Option Object) (l : Level) → m.strategy ≡ l → Remembers key v n (add held j x m)
    go x read_uncommitted e = rw (e, add) (spend key n v m r)
    go x read_committed e = rw (e, add) (spend key n v m r)
    go none repeatable_reads e = rw (e, add) (spend key n v m r)
    go (some w) repeatable_reads e = rw (e, add) (do_add-Remembers held key j n v w m other r)
    go none serializable e =
        rw (e, add)
          (do_add-Remembers held key j n v (nonexistent m.fresh) (record m { fresh = m.fresh + 1 })
            other
            (record {
              front = r.front;
              back = r.back;
              split = r.split;
              room = r.room;
              alive = r.alive;
            }))
    go (some w) serializable e = rw (e, add) (do_add-Remembers held key j n v w m other r)

run-Remembers :
    (key : ℕ) (v : Object) (events : List Event) (m : IdentityMap)
    → Spares key events
    → Remembers key v (additions events) m
    → Remembers key v 0 (run events m)
unfolding run additions
run-Remembers key v [] m s r = r
run-Remembers key v (added held j value ∷ events) m s r =
    run-Remembers key v events (add held j value m) s.1
      (add-Remembers held key j (additions events) v value m s.0 r)
run-Remembers key v (collected held ∷ events) m s r =
    run-Remembers key v events (collect held m) s
      (collect-Remembers key (additions events) v held m r)

strategy-add :
    (held : Object → Bool) (j : ℕ) (value : Option Object) (m : IdentityMap)
    → (add held j value m).strategy ≡ m.strategy
unfolding add do_add collect
strategy-add held j value m = ground arith

strategy-run : (events : List Event) (m : IdentityMap) → (run events m).strategy ≡ m.strategy
unfolding run collect
strategy-run [] m = refl
strategy-run (added held j value ∷ events) m =
    strategy-run events (add held j value m) ∙ strategy-add held j value m
strategy-run (collected held ∷ events) m = strategy-run events (collect held m)

got_there :
    (eq : Object → Object → Result Error Bool) (key i : ℕ) (m : IdentityMap)
    → (get eq key m).0 ≡ ok (entity i)
    → Dict.get key m.alive ≡ some (entity i)
unfolding get do_get
got_there eq key i m h = ground arith

-- What a successful `get` says about the map.
got :
    (eq : Object → Object → Result Error Bool) (key i : ℕ) (m : IdentityMap)
    → IsByIdentity eq (entity i)
    → (get eq key m).0 ≡ ok (entity i)
    → (front : List Object) × ((get eq key m).1 ≡ record m { order = front ++ entity i ∷ [] })
unfolding get do_get
got eq key i m same_only h =
    let (front, t) = touch-last eq (entity i) m.order same_only in
    (front, ground (arith, h, t, got_there eq key i m h))

still_got :
    (eq : Object → Object → Result Error Bool) (key i : ℕ) (m m' : IdentityMap)
    → IsByIdentity eq (entity i)
    → (get eq key m).0 ≡ ok (entity i)
    → m'.strategy ≡ m.strategy
    → Dict.get key m'.alive ≡ some (entity i)
    → (get eq key m').0 ≡ ok (entity i)
unfolding get do_get
still_got eq key i m m' same_only h s a =
    let (front, t) = touch-last eq (entity i) m'.order same_only in ground (arith, h, s, a, t)

-- Let an object be compared by identity: `==` between it and any object is that of Python's `object`.
-- If `get` has just returned it, then it stays in the map while fewer than `size` objects are added
-- under other keys, at any isolation level, however often garbage is collected, and though the
-- application keeps no reference to it: `get` returns the same object again.
pub get_again :
    (eq : Object → Object → Result Error Bool) (key i : ℕ) (m : IdentityMap) (events : List Event)
    → IsByIdentity eq (entity i)
    → (get eq key m).0 ≡ ok (entity i)
    → Spares key events
    → additions events < m.size
    → (get eq key (run events (get eq key m).1)).0 ≡ ok (entity i)
get_again eq key i m events same_only h s few =
    let there = got_there eq key i m h in
    let (front, after) = got eq key i m same_only h in
    let r : Remembers key (entity i) (additions events)
        (record m { order = front ++ entity i ∷ [] }) =
      record { front = front; back = []; split = refl; room = omega arith; alive = there } in
    still_got eq key i m (run events (get eq key m).1) same_only h
      (strategy-run events (get eq key m).1 ∙ ap (λ (x : IdentityMap). x.strategy) after)
      (run-Remembers key (entity i) events (get eq key m).1 s (rw after r)).alive
