-- ===== src/DagChange/Histories.antt =====
-- What any history of registrations leaves in the change manager.
use ascetic_ddd_python.Prelude.{ℕ, ◌+◌, ◌-◌, ◌≡◌, refl, ◌==◌, if◌then◌else◌, List, [], ◌∷◌, arith}
use ascetic_ddd_python.Prelude.Dict
use ascetic_ddd_python.Prelude.Dict.{Dict, get-delete}
use ascetic_ddd_python.Prelude.Multisets.{count}
use ascetic_ddd_python.DagChange.{
  ChangeManager, init, members, register, unregister, unregister_all, observers_of, subjects_of,
}
use ascetic_ddd_python.DagChange.Registry.{
  edges, reverse_edges, IsTransposed, unit_edge, edges-register, edges-unregister,
  count-forget_subject,
}

members-delete :
    (d : Dict (List ℕ)) (key j : ℕ)
    → members j (Dict.delete key d) ≡ (if key == j then [] else members j d)
unfolding members
members-delete d key j = ground (arith, get-delete key j d)

edges-unregister_all :
    (subject : ℕ) (m : ChangeManager) (s o : ℕ)
    → edges (unregister_all subject m) s o ≡ (if subject == s then 0 else edges m s o)
unfolding unregister_all observers_of count
edges-unregister_all subject m s o = ground (arith, members-delete m.deps subject s)

reverse_edges-unregister_all :
    (subject : ℕ) (m : ChangeManager) (s o : ℕ)
    → edges m s o ≡ reverse_edges m s o
    → reverse_edges (unregister_all subject m) s o ≡ (if subject == s then 0 else edges m s o)
unfolding unregister_all observers_of subjects_of
reverse_edges-unregister_all subject m s o t =
    ground (arith, count-forget_subject subject (members subject m.deps) m.reverse_deps s o)

-- On the edges of a transposed manager, in both directions alike, `register` adds one edge,
-- `unregister` takes one away if there is one, and `unregister_all` takes all edges of its subject;
-- no other edge changes.
pub edges_laws :
    (subject observer : ℕ) (m : ChangeManager) (s o : ℕ)
    → IsTransposed m
    → (edges (register subject observer m) s o ≡ edges m s o + unit_edge subject observer s o)
      × (reverse_edges (register subject observer m) s o
          ≡ edges m s o + unit_edge subject observer s o)
      × (edges (unregister subject observer m) s o ≡ edges m s o - unit_edge subject observer s o)
      × (reverse_edges (unregister subject observer m) s o
          ≡ edges m s o - unit_edge subject observer s o)
      × (edges (unregister_all subject m) s o ≡ (if subject == s then 0 else edges m s o))
      × (reverse_edges (unregister_all subject m) s o ≡ (if subject == s then 0 else edges m s o))
edges_laws subject observer m s o t =
    let (a, b) = edges-register subject observer m s o in
    let (c, d) = edges-unregister subject observer m s o in
    (
      a,
      ground (arith, b, t.transposed s o),
      c,
      ground (arith, d, t.transposed s o),
      edges-unregister_all subject m s o,
      reverse_edges-unregister_all subject m s o (t.transposed s o),
    )

pub data Operation : Type 0 where
  registered unregistered : (subject observer : ℕ) → Operation
  unregistered_all : (subject : ℕ) → Operation

unfoldable pub run : List Operation → ChangeManager → ChangeManager
run [] m = m
run (registered s o ∷ ops) m = run ops (register s o m)
run (unregistered s o ∷ ops) m = run ops (unregister s o m)
run (unregistered_all s ∷ ops) m = run ops (unregister_all s m)

run-IsTransposed :
    (ops : List Operation) (m : ChangeManager) → IsTransposed m → IsTransposed (run ops m)
unfolding run
run-IsTransposed [] m t = t
run-IsTransposed (registered x y ∷ ops) m t =
    run-IsTransposed ops (register x y m)
      (record { transposed = λ s o. let l = edges_laws x y m s o t in omega (arith, l.0, l.1) })
run-IsTransposed (unregistered x y ∷ ops) m t =
    run-IsTransposed ops (unregister x y m)
      (record { transposed = λ s o. let l = edges_laws x y m s o t in omega (arith, l.2, l.3) })
run-IsTransposed (unregistered_all x ∷ ops) m t =
    run-IsTransposed ops (unregister_all x m)
      (record { transposed = λ s o. let l = edges_laws x x m s o t in omega (arith, l.4, l.5) })

-- After any history of operations on a new manager, an observer is listed for a subject exactly as
-- often as the subject is listed for the observer.
pub history-IsTransposed : (ops : List Operation) → IsTransposed (run ops init)
history-IsTransposed ops = run-IsTransposed ops init (record {
  transposed = λ s o. unfold init observers_of subjects_of members Dict.get count in refl;
})
