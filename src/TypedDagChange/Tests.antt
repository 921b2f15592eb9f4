-- ===== src/TypedDagChange/Tests.antt =====
-- Sensors 1 and 2 are of type 7, and observer 5 aggregates them.
use ascetic_ddd_python.Prelude.{◌≡◌, refl, [], ◌∷◌}
use ascetic_ddd_python.Prelude.Dict
use ascetic_ddd_python.Prelude.Multisets.{count, remove_first}
use ascetic_ddd_python.DagChange
use ascetic_ddd_python.DagChange.{members, append_member, remove_member, drop_empty, forget_subject}
use ascetic_ddd_python.DagChange.Registry.{edges, IsTransposed}
use ascetic_ddd_python.DagChange.Histories.{registered, run, history-IsTransposed}
use ascetic_ddd_python.TypedDagChange
use ascetic_ddd_python.TypedDagChange.{TypedManager}
use ascetic_ddd_python.TypedDagChange.AutoWiring.{
  at_least_one, is_bound, edges-register_by_type, edges-add_subject,
}

abbrev sensors : TypedManager
sensors = record {
  graph = run (registered 3 5 ∷ []) DagChange.init;
  type_bindings = (7, 5) ∷ [];
  subjects = (7, 1 ∷ []) ∷ [];
  auto_edges = [];
}

edges-register_by_type_example :
    (edges (TypedDagChange.register_by_type 7 6 sensors).graph 1 6
      ≡ at_least_one (edges sensors.graph 1 6))
    × IsTransposed (TypedDagChange.register_by_type 7 6 sensors).graph
unfolding TypedDagChange.contains members Dict.get
edges-register_by_type_example =
    edges-register_by_type 7 6 sensors 1 6 (history-IsTransposed (registered 3 5 ∷ []))

edges-add_subject_example :
    (edges (TypedDagChange.add_subject (λ s. 7) 2 sensors).graph 2 5
      ≡ at_least_one (edges sensors.graph 2 5))
    × IsTransposed (TypedDagChange.add_subject (λ s. 7) 2 sensors).graph
unfolding is_bound
edges-add_subject_example =
    edges-add_subject (λ s. 7) 2 sensors 2 5 (history-IsTransposed (registered 3 5 ∷ []))

added : edges (TypedDagChange.add_subject (λ s. 7) 2 sensors).graph 2 5 ≡ 1
unfolding TypedDagChange.add_subject TypedDagChange.wire_bindings TypedDagChange.wire
    TypedDagChange.has_edge TypedDagChange.contains DagChange.register DagChange.observers_of
    members append_member run DagChange.init Dict.get Dict.set count
added = refl

removed :
    edges
      (TypedDagChange.unregister_by_type 7 5 (TypedDagChange.add_subject (λ s. 7) 2 sensors)).graph
      2
      5
    ≡ 0
unfolding TypedDagChange.unregister_by_type TypedDagChange.unwire_subjects
    TypedDagChange.remove_binding TypedDagChange.is_auto_edge TypedDagChange.mark_auto_edge
    TypedDagChange.unmark_auto_edge TypedDagChange.add_subject TypedDagChange.wire_bindings
    TypedDagChange.wire TypedDagChange.has_edge TypedDagChange.contains DagChange.register
    DagChange.unregister DagChange.observers_of members append_member remove_member drop_empty
    remove_first run DagChange.init Dict.get Dict.set Dict.delete count
removed = refl
