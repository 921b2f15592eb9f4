-- ===== src/TypedDagChange.antt =====
-- dag_change_typed/dag_change_manager.py: registrations of instances, which have the same text as in
-- dag_change, and subscriptions to a type of subjects, which make edges as subjects appear. A type is
-- a number; `subject_type` is a property of the application's class.
pub mod AutoWiring
mod Tests
use ascetic_ddd_python.Prelude.{
  ℕ, ◌==◌, if◌then◌else◌, Bool, true, false, ◌&&◌, Option, none, some, List, [], ◌∷◌, ◌++◌,
}
use ascetic_ddd_python.Prelude.Dict
use ascetic_ddd_python.Prelude.Dict.{Dict}
use ascetic_ddd_python.Prelude.Multisets.{remove_first}
use ascetic_ddd_python.DagChange
use ascetic_ddd_python.DagChange.{
  ChangeManager, members, append_member, remove_member, forget_subject, observers_of,
}

pub record TypedManager : Type 0 where
  pub graph : ChangeManager
  pub type_bindings : List (ℕ × ℕ)
  pub subjects : Dict (List ℕ)
  pub auto_edges : Dict (Dict Bool)

unfoldable pub init : TypedManager
init = record { graph = DagChange.init; type_bindings = []; subjects = []; auto_edges = [] }

unfoldable pub contains : ℕ → List ℕ → Bool
contains x [] = false
contains x (y ∷ ys) = let rest = contains x ys in if y == x then true else rest

unfoldable pub has_edge : ℕ → ℕ → TypedManager → Bool
unfolding contains
has_edge subject observer m = contains observer (observers_of subject m.graph)

unfoldable pub mark_auto_edge : ℕ → ℕ → Dict (Dict Bool) → Dict (Dict Bool)
mark_auto_edge subject observer auto_edges = elim (Dict.get subject auto_edges) [
  | none ↦ Dict.set subject ((observer, true) ∷ []) (Dict.set subject [] auto_edges)
  | some edges ↦ Dict.set subject (Dict.set observer true edges) auto_edges
]

unfoldable pub is_auto_edge : ℕ → ℕ → TypedManager → Bool
is_auto_edge subject observer m = elim (Dict.get subject m.auto_edges) [
  | none ↦ false
  | some edges ↦ elim (Dict.get observer edges) [ none ↦ false | some _ ↦ true ]
]

-- The body that the loops of `register_by_type` and `add_subject` share.
unfoldable pub wire : ℕ → ℕ → TypedManager → TypedManager
unfolding has_edge mark_auto_edge
wire subject observer m = if has_edge subject observer m then m else record m {
  graph = DagChange.register subject observer m.graph;
  auto_edges = mark_auto_edge subject observer m.auto_edges;
}

unfoldable pub wire_subjects : List ℕ → ℕ → TypedManager → TypedManager
unfolding wire
wire_subjects [] observer m = m
wire_subjects (subject ∷ subjects) observer m =
    wire_subjects subjects observer (wire subject observer m)

unfoldable pub register_by_type : ℕ → ℕ → TypedManager → TypedManager
unfolding wire_subjects
register_by_type subject_type observer m =
    wire_subjects (members subject_type m.subjects) observer
      (record m { type_bindings = m.type_bindings ++ (subject_type, observer) ∷ [] })

unfoldable pub remove_binding : ℕ → ℕ → List (ℕ × ℕ) → List (ℕ × ℕ)
remove_binding subject_type observer [] = []
remove_binding subject_type observer ((t, o) ∷ bindings) =
    let rest = remove_binding subject_type observer bindings in
    if (t == subject_type) && (o == observer) then bindings else (t, o) ∷ rest

-- `del self._auto_edges[subject][observer]`
unfoldable pub unmark_auto_edge : ℕ → ℕ → Dict (Dict Bool) → Dict (Dict Bool)
unmark_auto_edge subject observer auto_edges = elim (Dict.get subject auto_edges) [
  | none ↦ auto_edges
  | some edges ↦ Dict.set subject (Dict.delete observer edges) auto_edges
]

unfoldable pub unwire_subjects : List ℕ → ℕ → TypedManager → TypedManager
unfolding is_auto_edge unmark_auto_edge
unwire_subjects [] observer m = m
unwire_subjects (subject ∷ subjects) observer m = unwire_subjects subjects observer (
    if is_auto_edge subject observer m
    then record m {
      graph = DagChange.unregister subject observer m.graph;
      auto_edges = unmark_auto_edge subject observer m.auto_edges;
    }
    else m)

unfoldable pub unregister_by_type : ℕ → ℕ → TypedManager → TypedManager
unfolding remove_binding unwire_subjects
unregister_by_type subject_type observer m =
    unwire_subjects (members subject_type m.subjects) observer
      (record m { type_bindings = remove_binding subject_type observer m.type_bindings })

-- The loop of `add_subject`.
unfoldable pub wire_bindings : ℕ → ℕ → List (ℕ × ℕ) → TypedManager → TypedManager
unfolding wire
wire_bindings subject_type subject [] m = m
wire_bindings subject_type subject ((binding_type, observer) ∷ bindings) m =
    wire_bindings subject_type subject bindings (
      if binding_type == subject_type
      then (if subject == observer then m else wire subject observer m)
      else m)

module _ (subject_type : ℕ → ℕ) where
  unfoldable pub add_subject : ℕ → TypedManager → TypedManager
  unfolding wire_bindings
  add_subject subject m =
      wire_bindings (subject_type subject) subject m.type_bindings
        (record m { subjects = append_member m.subjects (subject_type subject) subject })

  unfoldable pub remove_subject : ℕ → TypedManager → TypedManager
  remove_subject subject m = record m {
    graph = DagChange.unregister_all subject m.graph;
    subjects = remove_member m.subjects (subject_type subject) subject;
    auto_edges = Dict.delete subject m.auto_edges;
  }
