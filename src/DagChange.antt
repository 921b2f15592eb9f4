-- ===== src/DagChange.antt =====
-- dag_change/dag_change_manager.py. Subjects and observers are numbered objects; an object may be both,
-- which `isinstance` tells: `is_subject` and `is_observer` are parameters of what asks.
pub mod Registry
pub mod Histories
pub mod Simple
pub mod Propagation
mod Tests
use ascetic_ddd_python.Prelude.{
  ℕ, zero, suc, ◌+◌, ◌==◌, if◌then◌else◌, Bool, true, false, ◌&&◌, Option, none, some, List, [],
  ◌∷◌, ◌++◌,
}
use ascetic_ddd_python.Prelude.Dict
use ascetic_ddd_python.Prelude.Dict.{Dict}
use ascetic_ddd_python.Prelude.Multisets.{remove_first}

pub record ChangeManager : Type 0 where
  pub deps : Dict (List ℕ)
  pub reverse_deps : Dict (List ℕ)

unfoldable pub init : ChangeManager
init = record { deps = []; reverse_deps = [] }

-- `d.get(key, [])`
unfoldable pub members : ℕ → Dict (List ℕ) → List ℕ
members key d = elim (Dict.get key d) [ none ↦ [] | some l ↦ l ]

-- `_remove_observer`, and `_remove_subject`, which has the same text.
unfoldable pub remove_member : Dict (List ℕ) → ℕ → ℕ → Dict (List ℕ)
remove_member d key member = elim (Dict.get key d) [
  | none ↦ d
  | some l ↦ Dict.set key (remove_first member l) d
]

-- `if key not in d: d[key] = []`, and then `d[key].append(member)`.
unfoldable pub append_member : Dict (List ℕ) → ℕ → ℕ → Dict (List ℕ)
append_member d key member = elim (Dict.get key d) [
  | none ↦ Dict.set key (member ∷ []) (Dict.set key [] d)
  | some l ↦ Dict.set key (l ++ member ∷ []) d
]

-- `if key in d and len(d[key]) == 0: del d[key]`
unfoldable pub drop_empty : ℕ → Dict (List ℕ) → Dict (List ℕ)
drop_empty key d = elim (Dict.get key d) [
  | none ↦ d
  | some l ↦ elim l [ [] ↦ Dict.delete key d | _ ∷ _ ↦ d ]
]

unfoldable pub register : ℕ → ℕ → ChangeManager → ChangeManager
register subject observer m = record {
  deps = append_member m.deps subject observer;
  reverse_deps = append_member m.reverse_deps observer subject;
}

unfoldable pub unregister : ℕ → ℕ → ChangeManager → ChangeManager
unregister subject observer m = record {
  deps = drop_empty subject (remove_member m.deps subject observer);
  reverse_deps = drop_empty observer (remove_member m.reverse_deps observer subject);
}

-- The loop of `unregister_all` over the observers of the subject.
unfoldable pub forget_subject : ℕ → List ℕ → Dict (List ℕ) → Dict (List ℕ)
forget_subject subject [] reverse_deps = reverse_deps
forget_subject subject (observer ∷ observers) reverse_deps =
    forget_subject subject observers
      (drop_empty observer (remove_member reverse_deps observer subject))

unfoldable pub unregister_all : ℕ → ChangeManager → ChangeManager
unregister_all subject m = record {
  deps = Dict.delete subject m.deps;
  reverse_deps = forget_subject subject (members subject m.deps) m.reverse_deps;
}

unfoldable pub observers_of : ℕ → ChangeManager → List ℕ
observers_of subject m = members subject m.deps

unfoldable pub subjects_of : ℕ → ChangeManager → List ℕ
subjects_of observer m = members observer m.reverse_deps
