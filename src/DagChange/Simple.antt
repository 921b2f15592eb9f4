-- ===== src/DagChange/Simple.antt =====
-- dag_change/simple_change_manager.py, which writes the same two dictionaries in its own words.
use ascetic_ddd_python.Prelude.{
  ℕ, ◌≡◌, refl, none, some, Option-cases, inl, inr, ◌⊎◌, List, [], ◌∷◌, arith,
}
use ascetic_ddd_python.Prelude.Dict
use ascetic_ddd_python.Prelude.Dict.{Dict, get-set}
use ascetic_ddd_python.Prelude.Result.{Result, ok, raise}
use ascetic_ddd_python.Prelude.Multisets.{remove_first}
use ascetic_ddd_python.DagChange.{
  ChangeManager, members, remove_member, append_member, drop_empty, register, unregister,
  forget_subject, unregister_all,
}

-- The block that stands three times in the file: the first occurrence of the member goes, and the
-- list too if it is empty then.
unfoldable pub take_member : Dict (List ℕ) → ℕ → ℕ → Dict (List ℕ)
take_member d key member = elim (Dict.get key d) [
  | none ↦ d
  | some l ↦ elim (remove_first member l) [
    | [] ↦ Dict.delete key (Dict.set key [] d)
    | x ∷ xs ↦ Dict.set key (x ∷ xs) d
  ]
]

unfoldable pub simple_register : ℕ → ℕ → ChangeManager → ChangeManager
simple_register subject observer m = record {
  deps = append_member m.deps subject observer;
  reverse_deps = append_member m.reverse_deps observer subject;
}

unfoldable pub simple_unregister : ℕ → ℕ → ChangeManager → ChangeManager
unfolding take_member
simple_unregister subject observer m = record {
  deps = take_member m.deps subject observer;
  reverse_deps = take_member m.reverse_deps observer subject;
}

-- The loop of `unregister_all`.
unfoldable pub simple_forget : ℕ → List ℕ → Dict (List ℕ) → Dict (List ℕ)
unfolding take_member
simple_forget subject [] reverse_deps = reverse_deps
simple_forget subject (observer ∷ observers) reverse_deps =
    simple_forget subject observers (take_member reverse_deps observer subject)

unfoldable pub simple_unregister_all : ℕ → ChangeManager → ChangeManager
unfolding simple_forget
simple_unregister_all subject m = record {
  deps = elim (Dict.get subject m.deps) [ none ↦ m.deps | some _ ↦ Dict.delete subject m.deps ];
  reverse_deps = simple_forget subject (members subject m.deps) m.reverse_deps;
}

-- `notify`: every registration counts, in the order of registration.
unfoldable pub simple_notify :
    {E W : Type 0} → (ℕ → ℕ → W → Result E Unit × W) → ℕ → List ℕ → W → Result E Unit × W
simple_notify update subject [] w = (ok tt, w)
simple_notify update subject (observer ∷ observers) w =
    let (r, w') = update observer subject w in
    elim r [ ok _ ↦ simple_notify update subject observers w' | raise e ↦ (raise e, w') ]

delete-absent : (key : ℕ) (d : Dict (List ℕ)) → Dict.get key d ≡ none → Dict.delete key d ≡ d
unfolding Dict.get Dict.delete
delete-absent key [] h = refl
delete-absent key ((j, l) ∷ d) h = ground (arith, delete-absent key d)

List-cases : (l : List ℕ) → (l ≡ []) ⊎ ((x : ℕ) × (xs : List ℕ) × (l ≡ x ∷ xs))
List-cases [] = inl refl
List-cases (x ∷ xs) = inr (x, xs, refl)

take_member-eq :
    (d : Dict (List ℕ)) (key member : ℕ)
    → take_member d key member ≡ drop_empty key (remove_member d key member)
unfolding take_member drop_empty remove_member
take_member-eq d key member = elim (Option-cases (Dict.get key d)) [
  | inl missing ↦ ground (arith, missing)
  | inr (l, there) ↦ elim (List-cases (remove_first member l)) [
    | inl e ↦ ground (arith, there, e, get-set key key [] d)
    | inr (x, xs, e) ↦ ground (arith, there, e, get-set key key (x ∷ xs) d)
  ]
]

simple_forget-eq :
    (subject : ℕ) (observers : List ℕ) (d : Dict (List ℕ))
    → simple_forget subject observers d ≡ forget_subject subject observers d
unfolding simple_forget forget_subject
simple_forget-eq subject [] d = refl
simple_forget-eq subject (x ∷ xs) d =
    rw (take_member-eq d x subject)
      (simple_forget-eq subject xs (drop_empty x (remove_member d x subject)))

-- On every state, `register`, `unregister` and `unregister_all` of the naive manager leave the same
-- two dictionaries, entry by entry and in the same order, as those of the manager that sorts.
pub simple-equivalent :
    (subject observer : ℕ) (m : ChangeManager)
    → (simple_register subject observer m ≡ register subject observer m)
      × (simple_unregister subject observer m ≡ unregister subject observer m)
      × (simple_unregister_all subject m ≡ unregister_all subject m)
unfolding simple_register simple_unregister simple_unregister_all register unregister unregister_all
simple-equivalent subject observer m = (
  refl,
  rw (take_member-eq m.deps subject observer, take_member-eq m.reverse_deps observer subject) refl,
  elim (Option-cases (Dict.get subject m.deps)) [
    | inl missing ↦ ground (
      arith,
      missing,
      delete-absent subject m.deps missing,
      simple_forget-eq subject (members subject m.deps) m.reverse_deps,
    )
    | inr (l, there) ↦
        ground (arith, there, simple_forget-eq subject (members subject m.deps) m.reverse_deps)
  ],
)
