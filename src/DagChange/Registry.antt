-- ===== src/DagChange/Registry.antt =====
-- The two dictionaries of the change manager are each other's transpose, and hold no empty lists.
use ascetic_ddd_python.Prelude.{
  ℕ, ◌+◌, ◌-◌, ◌≡◌, ◌==◌, if◌then◌else◌, Option-cases, inl, inr, List, [], ◌∷◌, ◌++◌, arith,
}
use ascetic_ddd_python.Prelude.Dict
use ascetic_ddd_python.Prelude.Dict.{Dict, get-set, get-delete}
use ascetic_ddd_python.Prelude.Multisets.{count, remove_first, count-snoc, count-remove_first}
use ascetic_ddd_python.DagChange.{
  ChangeManager, members, remove_member, append_member, drop_empty, register, unregister,
  forget_subject, observers_of, subjects_of,
}

members-append_member :
    (d : Dict (List ℕ)) (key member j : ℕ)
    → members j (append_member d key member)
      ≡ (if key == j then members j d ++ member ∷ [] else members j d)
unfolding members append_member
members-append_member d key member j = elim (Option-cases (Dict.get key d)) [
  | inl missing ↦
      ground (arith, missing, get-set key j (member ∷ []) (Dict.set key [] d), get-set key j [] d)
  | inr (l, there) ↦ ground (arith, there, get-set key j (l ++ member ∷ []) d)
]

members-remove_member :
    (d : Dict (List ℕ)) (key member j : ℕ)
    → members j (remove_member d key member)
      ≡ (if key == j then remove_first member (members j d) else members j d)
unfolding members remove_member remove_first
members-remove_member d key member j = elim (Option-cases (Dict.get key d)) [
  | inl missing ↦ ground (arith, missing)
  | inr (l, there) ↦ ground (arith, there, get-set key j (remove_first member l) d)
]

members-drop_empty : (d : Dict (List ℕ)) (key j : ℕ) → members j (drop_empty key d) ≡ members j d
unfolding members drop_empty
members-drop_empty d key j = elim (Option-cases (Dict.get key d)) [
  | inl missing ↦ ground (arith, missing)
  | inr (l, there) ↦ ground (arith, there, get-delete key j d)
]

-- How often an observer stands for a subject in `deps`, and a subject for an observer in `reverse_deps`.
abbrev pub edges : ChangeManager → ℕ → ℕ → ℕ
edges m subject observer = count observer (observers_of subject m)

abbrev pub reverse_edges : ChangeManager → ℕ → ℕ → ℕ
reverse_edges m subject observer = count subject (subjects_of observer m)

-- Every registration stands in both dictionaries, equally often.
pub record IsTransposed (m : ChangeManager) : Type 0 where
  pub transposed : (s o : ℕ) → edges m s o ≡ reverse_edges m s o

-- 1 at one edge, and 0 at every other.
abbrev pub unit_edge : ℕ → ℕ → ℕ → ℕ → ℕ
unit_edge subject observer s o = if subject == s then (if observer == o then 1 else 0) else 0

pub edges-register :
    (subject observer : ℕ) (m : ChangeManager) (s o : ℕ)
    → (edges (register subject observer m) s o ≡ edges m s o + unit_edge subject observer s o)
      × (reverse_edges (register subject observer m) s o
          ≡ reverse_edges m s o + unit_edge subject observer s o)
unfolding register observers_of subjects_of
edges-register subject observer m s o = (
  ground (
    arith,
    members-append_member m.deps subject observer s,
    count-snoc o observer (members s m.deps),
  ),
  ground (
    arith,
    members-append_member m.reverse_deps observer subject o,
    count-snoc s subject (members o m.reverse_deps),
  ),
)

pub edges-unregister :
    (subject observer : ℕ) (m : ChangeManager) (s o : ℕ)
    → (edges (unregister subject observer m) s o ≡ edges m s o - unit_edge subject observer s o)
      × (reverse_edges (unregister subject observer m) s o
          ≡ reverse_edges m s o - unit_edge subject observer s o)
unfolding unregister observers_of subjects_of
edges-unregister subject observer m s o = (
  ground (
    arith,
    members-drop_empty (remove_member m.deps subject observer) subject s,
    members-remove_member m.deps subject observer s,
    count-remove_first o observer (members s m.deps),
  ),
  ground (
    arith,
    members-drop_empty (remove_member m.reverse_deps observer subject) observer o,
    members-remove_member m.reverse_deps observer subject o,
    count-remove_first s subject (members o m.reverse_deps),
  ),
)

-- The loop takes the subject from each observer as often as the observer is met.
pub count-forget_subject :
    (subject : ℕ) (observers : List ℕ) (d : Dict (List ℕ)) (s o : ℕ)
    → count s (members o (forget_subject subject observers d))
      ≡ (if subject == s then count s (members o d) - count o observers else count s (members o d))
unfolding forget_subject count
count-forget_subject subject [] d s o = ground arith
count-forget_subject subject (x ∷ xs) d s o = ground (
  arith,
  count-forget_subject subject xs (drop_empty x (remove_member d x subject)) s o,
  members-drop_empty (remove_member d x subject) x o,
  members-remove_member d x subject o,
  count-remove_first s subject (members o d),
)
