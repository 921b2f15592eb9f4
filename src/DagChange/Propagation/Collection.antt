-- ===== src/DagChange/Propagation/Collection.antt =====
-- The search for affected observers ends, on any graph.
use ascetic_ddd_python.Prelude.{
  ℕ-cases, ℕ, zero, suc, ◌+◌, ◌≤◌, ◌<◌, ◌≡◌, ◌∙◌, refl, if◌then◌else◌, inl, inr, Bool, Bool-cases,
  Option, some, List, [], ◌∷◌, ◌++◌, arith,
}
use ascetic_ddd_python.Prelude.Multisets.{count, count-snoc}
use ascetic_ddd_python.DagChange.{ChangeManager, observers_of}
use ascetic_ddd_python.DagChange.Propagation.{is_in, collect_each, collect_affected}

-- How many of the observers are not visited.
unfoldable pub unvisited : List ℕ → List ℕ → ℕ
unvisited [] visited = 0
unvisited (o ∷ os) visited = (if is_in o visited then 0 else 1) + unvisited os visited

-- What a search that starts with `visited` and has to find `wanted` comes to.
pub data Collected (visited wanted : List ℕ) (r : Option (List ℕ)) : Type 0 where
  collected :
      (visited' : List ℕ)
      → r ≡ some visited'
      → ((x : ℕ) → count x visited ≤ count x visited')
      → ((x : ℕ) → count x visited ≤ 1 → count x visited' ≤ 1)
      → ((x : ℕ) → 0 < count x wanted → 0 < count x visited')
      → Collected visited wanted r

unvisited-le :
    (os v v' : List ℕ) → ((x : ℕ) → count x v ≤ count x v') → unvisited os v' ≤ unvisited os v
unfolding unvisited is_in
unvisited-le [] v v' h = omega arith
unvisited-le (o ∷ os) v v' h = ground (arith, h o, unvisited-le os v v' h)

unvisited-snoc :
    (os v : List ℕ) (o : ℕ)
    → 0 < count o os
    → count o v ≡ 0
    → unvisited os (v ++ o ∷ []) < unvisited os v
unfolding unvisited is_in count
unvisited-snoc [] v o h e = absurd (omega arith)
unvisited-snoc (x ∷ os) v o h e = ground (
  arith,
  count-snoc x o v,
  unvisited-snoc os v o,
  unvisited-le os v (v ++ o ∷ []) (λ y. omega (arith, count-snoc y o v)),
)

-- A search that starts with more, the next observer among it, finds what one with less has to find.
extend :
    {o : ℕ} {os visited v : List ℕ} {r r' : Option (List ℕ)}
    → r' ≡ r
    → Collected v os r
    → ((x : ℕ) → count x visited ≤ count x v)
    → ((x : ℕ) → count x visited ≤ 1 → count x v ≤ 1)
    → 0 < count o v
    → Collected visited (o ∷ os) r'
unfolding count
extend {o} {os} {visited} {v} same (collected v' e grows once found) grown once_more there =
    collected v' (same ∙ e) (λ x. omega (arith, grows x, grown x)) (λ x h. once x (once_more x h))
      (λ x wanted. ground (arith, found x, grows x))

module _ (is_subject is_observer : ℕ → Bool) where
  collect_each-Collected :
      (collect : ℕ → List ℕ → Option (List ℕ)) (k : ℕ) (all os visited : List ℕ)
      → ((x : ℕ) → 0 < count x os → 0 < count x all)
      → ((o : ℕ) (v : List ℕ) → unvisited all v < k → Collected v [] (collect o v))
      → unvisited all visited ≤ k
      → Collected visited os (collect_each is_subject is_observer collect os visited)
  unfolding collect_each count
  collect_each-Collected collect k all [] visited known ok_below h =
      collected visited refl (λ x. omega arith) (λ x once. once) (λ x found. absurd (omega arith))
  collect_each-Collected collect k all (o ∷ os) visited known ok_below h =
      let known' : (x : ℕ) → 0 < count x os → 0 < count x all = λ x found. known x (ground arith) in
      let here : 0 < count o all = known o (ground arith) in
      elim (ℕ-cases (count o visited)) [
        | inr (n, seen) ↦
            extend (ground (arith, seen))
              (collect_each-Collected collect k all os visited known' ok_below h) (λ x. omega arith)
              (λ x once. once) (omega (arith, seen))
        | inl new ↦
            let next = visited ++ o ∷ [] in
            let less : unvisited all next < unvisited all visited =
              unvisited-snoc all visited o here new in
            elim (Bool-cases (is_subject o)) [
              | inl subject ↦ elim (ok_below o next (omega arith)) [
                | collected v e grows once found ↦
                    extend (ground (arith, new, subject, e))
                      (collect_each-Collected collect k all os v known' ok_below
                        (omega (arith, unvisited-le all next v grows)))
                      (λ x. omega (arith, grows x, count-snoc x o visited))
                      (λ x h. once x (ground (arith, count-snoc x o visited, new)))
                      (ground (arith, grows o, count-snoc o o visited))
              ]
              | inr plain ↦
                  extend (ground (arith, new, plain))
                    (collect_each-Collected collect k all os next known' ok_below (omega arith))
                    (λ x. omega (arith, count-snoc x o visited))
                    (λ x h. ground (arith, count-snoc x o visited, new))
                    (ground (arith, count-snoc o o visited))
            ]
      ]

forget :
    {visited wanted : List ℕ} {r : Option (List ℕ)}
    → Collected visited wanted r
    → Collected visited [] r
unfolding count
forget (collected v e grows once found) =
    collected v e grows once (λ x absent. absurd (omega (arith, absent)))

-- If `all` lists every registered observer, then the search ends on any graph, cycles included, with
-- fuel beyond the number of observers in `all` that are not visited yet; it keeps what was visited,
-- adds no observer twice, and finds every observer of the subject.
pub collect_affected-Collected :
    (is_subject is_observer : ℕ → Bool) (all : List ℕ) (m : ChangeManager)
    → ((s x : ℕ) → 0 < count x (observers_of s m) → 0 < count x all)
    → (fuel subject : ℕ) (visited : List ℕ) → unvisited all visited < fuel
    → Collected visited
        (observers_of subject m)
        (collect_affected is_subject is_observer fuel m subject visited)
unfolding collect_affected
collect_affected-Collected is_subject is_observer all m known zero subject visited h =
    absurd (omega (arith, h))
collect_affected-Collected is_subject is_observer all m known (suc fuel) subject visited h =
    collect_each-Collected is_subject is_observer (collect_affected is_subject is_observer fuel m)
      fuel all (observers_of subject m) visited (known subject)
      (λ o v below.
        forget (collect_affected-Collected is_subject is_observer all m known fuel o v below))
      (omega (arith, h))
