-- ===== src/DagChange/Tests.antt =====
-- A diamond: subject 1 with observers 2 and 3, which are subjects of observer 4.
use ascetic_ddd_python.Prelude.{
  ℕ, arith, ◌<◌, true, some, ◌+◌, ◌-◌, ◌≡◌, refl, if◌then◌else◌, ◌==◌, [], ◌∷◌,
}
use ascetic_ddd_python.Prelude.Dict
use ascetic_ddd_python.Prelude.Multisets.{count}
use ascetic_ddd_python.Prelude.Result.{ok}
use ascetic_ddd_python.DagChange.{
  ChangeManager, init, members, append_member, register, unregister, unregister_all, observers_of,
  subjects_of,
}
use ascetic_ddd_python.DagChange.Propagation
use ascetic_ddd_python.DagChange.Propagation.Collection.{
  unvisited, Collected, collect_affected-Collected,
}
use ascetic_ddd_python.DagChange.Registry.{edges, reverse_edges, IsTransposed, unit_edge}
use ascetic_ddd_python.DagChange.Histories.{
  registered, unregistered, unregistered_all, run, edges_laws, history-IsTransposed,
}
use ascetic_ddd_python.DagChange.Simple.{
  simple_notify, simple_register, simple_unregister, simple_unregister_all, simple-equivalent,
}

abbrev diamond : ChangeManager
diamond = run (registered 1 2 ∷ registered 1 3 ∷ registered 2 4 ∷ registered 3 4 ∷ []) init

history-IsTransposed_example :
    IsTransposed
      (run (registered 1 2 ∷ registered 1 3 ∷ unregistered 1 2 ∷ unregistered_all 1 ∷ []) init)
history-IsTransposed_example =
    history-IsTransposed
      (registered 1 2 ∷ registered 1 3 ∷ unregistered 1 2 ∷ unregistered_all 1 ∷ [])

edges_laws_example :
    (edges (register 1 2 diamond) 1 2 ≡ edges diamond 1 2 + unit_edge 1 2 1 2)
    × (reverse_edges (register 1 2 diamond) 1 2 ≡ edges diamond 1 2 + unit_edge 1 2 1 2)
    × (edges (unregister 1 2 diamond) 1 2 ≡ edges diamond 1 2 - unit_edge 1 2 1 2)
    × (reverse_edges (unregister 1 2 diamond) 1 2 ≡ edges diamond 1 2 - unit_edge 1 2 1 2)
    × (edges (unregister_all 1 diamond) 1 2 ≡ (if 1 == 1 then 0 else edges diamond 1 2))
    × (reverse_edges (unregister_all 1 diamond) 1 2 ≡ (if 1 == 1 then 0 else edges diamond 1 2))
edges_laws_example =
    edges_laws 1 2 diamond 1 2 (
      history-IsTransposed (registered 1 2 ∷ registered 1 3 ∷ registered 2 4 ∷ registered 3 4 ∷ []))

simple-equivalent_example :
    (simple_register 1 2 diamond ≡ register 1 2 diamond)
    × (simple_unregister 1 2 diamond ≡ unregister 1 2 diamond)
    × (simple_unregister_all 1 diamond ≡ unregister_all 1 diamond)
simple-equivalent_example = simple-equivalent 1 2 diamond

notified :
    simple_notify {E = Unit} (λ o s w. (ok tt, o ∷ w)) 1 (observers_of 1 (register 1 2 diamond)) []
    ≡ (ok tt, 2 ∷ 3 ∷ 2 ∷ [])
unfolding simple_notify observers_of register run init members append_member Dict.get Dict.set
notified = refl

-- The observer at the end of the diamond is updated once, after both of its subjects.
diamond_order : Propagation.notified (λ o. true) (λ o. true) 6 diamond 1 ≡ some (2 ∷ 3 ∷ 4 ∷ [])
unfolding Propagation.notified Propagation.collect_affected Propagation.topo_sort
    Propagation.collect_each Propagation.is_in Propagation.in_degrees Propagation.degree
    Propagation.sources Propagation.sort_queue Propagation.release observers_of subjects_of members
    append_member register run init Dict.get Dict.set count
diamond_order = refl

diamond_observers : (s x : ℕ) → 0 < count x (observers_of s diamond) → 0 < count x (2 ∷ 3 ∷ 4 ∷ [])
unfolding observers_of members append_member register run init Dict.get Dict.set count
diamond_observers s x h = ground arith

diamond_unvisited : unvisited (2 ∷ 3 ∷ 4 ∷ []) [] < 4
unfolding unvisited Propagation.is_in count
diamond_unvisited = ground arith

collect_affected-Collected_example :
    Collected []
      (observers_of 1 diamond)
      (Propagation.collect_affected (λ o. true) (λ o. true) 4 diamond 1 [])
collect_affected-Collected_example =
    collect_affected-Collected (λ o. true) (λ o. true) (2 ∷ 3 ∷ 4 ∷ []) diamond diamond_observers 4
      1 [] diamond_unvisited
