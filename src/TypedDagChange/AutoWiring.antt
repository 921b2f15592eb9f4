-- ===== src/TypedDagChange/AutoWiring.antt =====
-- The edges that subscriptions to a type make.
use ascetic_ddd_python.Prelude.{
  ℕ, zero, suc, ◌≡◌, refl, ◌==◌, if◌then◌else◌, ltb, Bool, Bool-cases, inl, inr, true, false, ◌&&◌,
  List, [], ◌∷◌, ◌++◌, arith,
}
use ascetic_ddd_python.Prelude.Multisets.{count}
use ascetic_ddd_python.DagChange
use ascetic_ddd_python.DagChange.{members, append_member}
use ascetic_ddd_python.DagChange.Registry.{edges, IsTransposed}
use ascetic_ddd_python.DagChange.Histories.{edges_laws}
use ascetic_ddd_python.TypedDagChange.{
  TypedManager, contains, has_edge, wire, wire_subjects, register_by_type, wire_bindings,
  add_subject,
}

-- A number that is at least 1.
abbrev pub at_least_one : ℕ → ℕ
at_least_one zero = 1
at_least_one (suc n) = suc n

contains-count : (x : ℕ) (l : List ℕ) → contains x l ≡ ltb 0 (count x l)
unfolding contains count
contains-count x [] = refl
contains-count x (y ∷ l) = ground (arith, contains-count x l)

edges-wire :
    (subject observer : ℕ) (m : TypedManager) (s o : ℕ)
    → IsTransposed m.graph
    → edges (wire subject observer m).graph s o ≡ (
        if subject == s
        then (if observer == o then at_least_one (edges m.graph s o) else edges m.graph s o)
        else edges m.graph s o)
unfolding wire has_edge
edges-wire subject observer m s o t = elim (Bool-cases (has_edge subject observer m)) [
  | inl there ↦
      ground (arith, there, contains-count observer (DagChange.observers_of subject m.graph))
  | inr missing ↦
      let laws = edges_laws subject observer m.graph s o t in
      ground
        (arith, missing, contains-count observer (DagChange.observers_of subject m.graph), laws.0)
]

wire-IsTransposed :
    (subject observer : ℕ) (m : TypedManager)
    → IsTransposed m.graph
    → IsTransposed (wire subject observer m).graph
unfolding wire
wire-IsTransposed subject observer m t = elim (Bool-cases (has_edge subject observer m)) [
  | inl there ↦ ground (arith, there, t)
  | inr missing ↦ record {
    transposed = λ s o.
        let laws = edges_laws subject observer m.graph s o t in
        ground (arith, missing, laws.0, laws.1);
  }
]

wire_subjects-IsTransposed :
    (subjects : List ℕ) (observer : ℕ) (m : TypedManager)
    → IsTransposed m.graph
    → IsTransposed (wire_subjects subjects observer m).graph
unfolding wire_subjects
wire_subjects-IsTransposed [] observer m t = t
wire_subjects-IsTransposed (x ∷ xs) observer m t =
    wire_subjects-IsTransposed xs observer (wire x observer m) (wire-IsTransposed x observer m t)

edges-wire_subjects :
    (subjects : List ℕ) (observer : ℕ) (m : TypedManager) (s o : ℕ)
    → IsTransposed m.graph
    → edges (wire_subjects subjects observer m).graph s o ≡ (
        if contains s subjects
        then (if observer == o then at_least_one (edges m.graph s o) else edges m.graph s o)
        else edges m.graph s o)
unfolding wire_subjects contains
edges-wire_subjects [] observer m s o t = refl
edges-wire_subjects (x ∷ xs) observer m s o t = ground (
  arith,
  edges-wire_subjects xs observer (wire x observer m) s o (wire-IsTransposed x observer m t),
  edges-wire x observer m s o t,
)

-- Whether an observer is bound to the type.
unfoldable pub is_bound : ℕ → ℕ → List (ℕ × ℕ) → Bool
is_bound subject_type observer [] = false
is_bound subject_type observer ((t, o) ∷ bindings) =
    let rest = is_bound subject_type observer bindings in
    if (t == subject_type) && (o == observer) then true else rest

-- One turn of the loop of `add_subject`.
abbrev step : ℕ → ℕ → ℕ × ℕ → TypedManager → TypedManager
step subject_type subject (t, o) m =
    if t == subject_type then (if subject == o then m else wire subject o m) else m

step-IsTransposed :
    (subject_type subject t o : ℕ) (m : TypedManager)
    → IsTransposed m.graph
    → IsTransposed (step subject_type subject (t, o) m).graph
step-IsTransposed subject_type subject t o m wired = elim (Bool-cases (t == subject_type)) [
  | inl e ↦ elim (Bool-cases (subject == o)) [
    | inl same ↦ ground (arith, e, same, wired)
    | inr other ↦ ground (arith, e, other, wire-IsTransposed subject o m wired)
  ]
  | inr ne ↦ ground (arith, ne, wired)
]

edges-step :
    (subject_type subject b c : ℕ) (m : TypedManager) (s o : ℕ)
    → IsTransposed m.graph
    → edges (step subject_type subject (b, c) m).graph s o ≡ (
        if (b == subject_type) && (c == o)
        then (if subject == s
            then (if subject == o then edges m.graph s o else at_least_one (edges m.graph s o))
            else edges m.graph s o)
        else edges m.graph s o)
edges-step subject_type subject b c m s o t = ground (arith, edges-wire subject c m s o t)

wire_bindings-IsTransposed :
    (subject_type subject : ℕ) (bindings : List (ℕ × ℕ)) (m : TypedManager)
    → IsTransposed m.graph
    → IsTransposed (wire_bindings subject_type subject bindings m).graph
unfolding wire_bindings
wire_bindings-IsTransposed subject_type subject [] m t = t
wire_bindings-IsTransposed subject_type subject ((b, c) ∷ bindings) m t =
    wire_bindings-IsTransposed subject_type subject bindings (step subject_type subject (b, c) m)
      (step-IsTransposed subject_type subject b c m t)

edges-wire_bindings :
    (subject_type subject : ℕ) (bindings : List (ℕ × ℕ)) (m : TypedManager) (s o : ℕ)
    → IsTransposed m.graph
    → edges (wire_bindings subject_type subject bindings m).graph s o ≡ (
        if is_bound subject_type o bindings
        then (if subject == s
            then (if subject == o then edges m.graph s o else at_least_one (edges m.graph s o))
            else edges m.graph s o)
        else edges m.graph s o)
unfolding wire_bindings is_bound
edges-wire_bindings subject_type subject [] m s o t = refl
edges-wire_bindings subject_type subject ((b, c) ∷ bindings) m s o t = ground (
  arith,
  edges-wire_bindings subject_type subject bindings (step subject_type subject (b, c) m) s o
      (step-IsTransposed subject_type subject b c m t),
  edges-step subject_type subject b c m s o t,
)

-- If the two dictionaries are each other's transpose, then a subscription to a type gives the
-- observer an edge from every known subject of that type, once if there was none and as it was
-- otherwise, and no other edge changes; the dictionaries are each other's transpose still.
pub edges-register_by_type :
    (subject_type observer : ℕ) (m : TypedManager) (s o : ℕ)
    → IsTransposed m.graph
    → (edges (register_by_type subject_type observer m).graph s o ≡ (
        if contains s (members subject_type m.subjects)
        then (if observer == o then at_least_one (edges m.graph s o) else edges m.graph s o)
        else edges m.graph s o))
      × IsTransposed (register_by_type subject_type observer m).graph
unfolding register_by_type
edges-register_by_type subject_type observer m s o t =
    let l = members subject_type m.subjects in
    let m' = record m { type_bindings = m.type_bindings ++ (subject_type, observer) ∷ [] } in
    (edges-wire_subjects l observer m' s o t, wire_subjects-IsTransposed l observer m' t)

-- If the two dictionaries are each other's transpose, then a new subject gets an edge to every
-- observer that is bound to its type, but for itself, once if there was none and as it was otherwise,
-- and no other edge changes; the dictionaries are each other's transpose still.
pub edges-add_subject :
    (type_of : ℕ → ℕ) (subject : ℕ) (m : TypedManager) (s o : ℕ)
    → IsTransposed m.graph
    → (edges (add_subject type_of subject m).graph s o ≡ (
        if is_bound (type_of subject) o m.type_bindings
        then (if subject == s
            then (if subject == o then edges m.graph s o else at_least_one (edges m.graph s o))
            else edges m.graph s o)
        else edges m.graph s o))
      × IsTransposed (add_subject type_of subject m).graph
unfolding add_subject
edges-add_subject type_of subject m s o t =
    let m' = record m { subjects = append_member m.subjects (type_of subject) subject } in
    (
      edges-wire_bindings (type_of subject) subject m.type_bindings m' s o t,
      wire_bindings-IsTransposed (type_of subject) subject m.type_bindings m' t,
    )
