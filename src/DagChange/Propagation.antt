-- ===== src/DagChange/Propagation.antt =====
-- dag_change/dag_change_manager.py, `notify`: the observers that a change affects, and the order in
-- which they are updated. In degrees are Python's integers, since a decrement may take one below 0.
pub mod Collection
use ascetic_ddd_python.Prelude.{
  ℕ, zero, suc, ◌==◌, if◌then◌else◌, Bool, true, false, ◌&&◌, Option, none, some, List, [], ◌∷◌,
  ◌++◌,
}
use ascetic_ddd_python.Prelude.Result.{Result, ok, raise}
use ascetic_ddd_python.Prelude.Dict
use ascetic_ddd_python.Prelude.Dict.{Dict}
use ascetic_ddd_python.Prelude.Integers.{ℤ, pos, negsuc, ◌+ℤ◌, eqℤ}
use ascetic_ddd_python.Prelude.Multisets.{count}
use ascetic_ddd_python.DagChange.{ChangeManager, observers_of, subjects_of}

-- `observer in affected`
unfoldable pub is_in : ℕ → List ℕ → Bool
is_in x visited = elim (count x visited) [ zero ↦ false | suc _ ↦ true ]

module _ (is_subject is_observer : ℕ → Bool) where
  -- The loop of `_collect_affected`, with the recursive call as a parameter. The keys of `visited`
  -- stand in the order in which they were added.
  unfoldable pub collect_each : (ℕ → List ℕ → Option (List ℕ)) → List ℕ → List ℕ → Option (List ℕ)
  collect_each collect [] visited = some visited
  collect_each collect (observer ∷ observers) visited = elim (count observer visited) [
    | suc _ ↦ collect_each collect observers visited
    | zero ↦ elim (is_subject observer) [
      | false ↦ collect_each collect observers (visited ++ observer ∷ [])
      | true ↦ elim (collect observer (visited ++ observer ∷ [])) [
        | none ↦ none
        | some visited' ↦ collect_each collect observers visited'
      ]
    ]
  ]

  -- The fuel bounds the depth of the recursion; `none` means that it ran out.
  unfoldable pub collect_affected : ℕ → ChangeManager → ℕ → List ℕ → Option (List ℕ)
  unfolding collect_each
  collect_affected zero m subject visited = none
  collect_affected (suc fuel) m subject visited =
      collect_each (collect_affected fuel m) (observers_of subject m) visited

  -- How many of the subjects are affected observers themselves.
  unfoldable pub degree : List ℕ → List ℕ → ℤ
  unfolding is_in
  degree affected [] = pos 0
  degree affected (dep ∷ deps) =
      (if is_observer dep && is_in dep affected then pos 1 else pos 0) +ℤ degree affected deps

  -- The dictionary is only looked up: the queue takes its order from `affected`, which is that of the
  -- keys in the source.
  unfoldable pub in_degrees : ChangeManager → List ℕ → List ℕ → Dict ℤ
  unfolding degree
  in_degrees m affected [] = []
  in_degrees m affected (observer ∷ observers) =
      Dict.set observer (degree affected (subjects_of observer m)) (in_degrees m affected observers)

  -- The first queue: the affected observers without an affected subject.
  unfoldable pub sources : Dict ℤ → List ℕ → List ℕ
  sources in_degree [] = []
  sources in_degree (observer ∷ observers) =
      let rest = sources in_degree observers in
      elim (Dict.get observer in_degree) [
        | none ↦ rest
        | some d ↦ if eqℤ d (pos 0) then observer ∷ rest else rest
      ]

  -- The loop over the observers of a sorted node.
  unfoldable pub release : List ℕ → List ℕ → Dict ℤ → List ℕ → Dict ℤ × List ℕ
  unfolding is_in
  release affected [] in_degree queue = (in_degree, queue)
  release affected (observer ∷ observers) in_degree queue = elim (is_in observer affected) [
    | false ↦ release affected observers in_degree queue
    | true ↦ elim (Dict.get observer in_degree) [
      | none ↦ release affected observers in_degree queue
      | some d ↦
          release affected observers (Dict.set observer (d +ℤ negsuc 0) in_degree)
            (if eqℤ (d +ℤ negsuc 0) (pos 0) then queue ++ observer ∷ [] else queue)
    ]
  ]

  -- `while queue`, on fuel.
  unfoldable pub sort_queue : ℕ → ChangeManager → List ℕ → Dict ℤ → List ℕ → Option (List ℕ)
  unfolding release
  sort_queue zero m affected in_degree queue = none
  sort_queue (suc fuel) m affected in_degree [] = some []
  sort_queue (suc fuel) m affected in_degree (node ∷ queue) =
      let (in_degree', queue') =
        if is_subject node
        then release affected (observers_of node m) in_degree queue
        else (in_degree, queue) in
      elim (sort_queue fuel m affected in_degree' queue') [
        | none ↦ none
        | some sorted ↦ some (node ∷ sorted)
      ]

  unfoldable pub topo_sort : ℕ → ChangeManager → List ℕ → Option (List ℕ)
  unfolding in_degrees sources sort_queue
  topo_sort fuel m affected =
      let in_degree = in_degrees m affected affected in
      sort_queue fuel m affected in_degree (sources in_degree affected)

  -- The observers that `notify` updates, in their order.
  unfoldable pub notified : ℕ → ChangeManager → ℕ → Option (List ℕ)
  unfolding collect_affected topo_sort
  notified fuel m changed = elim (collect_affected fuel m changed []) [
    | none ↦ none
    | some affected ↦ topo_sort fuel m affected
  ]
