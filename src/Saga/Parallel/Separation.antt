-- ===== src/Saga/Parallel/Separation.antt =====
-- Branches whose activities have a share of the world each: a turn of a branch is a turn on its share,
-- and leaves the other shares alone.
use ascetic_ddd_python.Prelude.{
  ℕ, ◌≡◌, ◌≢◌, refl, sym, ap, ◌∙◌, subst, Bool, false, Option, none, some, List, [], ◌∷◌, ◌++◌, pop,
  snoc-pop, pop-eq-none, inl, inr, Option-cases,
}
use ascetic_ddd_python.Prelude.Result.{Result, ok, raise}
use ascetic_ddd_python.Saga.{
  WorkItem, WorkLog, RoutingSlip, Activity, Exception, is_completed, is_in_progress, record_work,
  undo_last,
}
use ascetic_ddd_python.Saga.Parallel.{
  Branch, working, undoing, finished, slip_of_branch, after_work, after_undo, step,
}

-- All items and logs of the slip belong to the branch `i`.
abbrev pub HaveOwner : {T A : Type 0} → (T → ℕ) → ℕ → List (WorkItem T A) → Type 0
HaveOwner owner i [] = Unit
HaveOwner owner i (item ∷ items) = (owner item.activity_type ≡ i) × HaveOwner owner i items

abbrev pub HadOwner : {T R : Type 0} → (T → ℕ) → ℕ → List (WorkLog T R) → Type 0
HadOwner owner i [] = Unit
HadOwner owner i (log ∷ logs) = (owner log.activity_type ≡ i) × HadOwner owner i logs

pub record IsOwned {T A R : Type 0} (owner : T → ℕ) (i : ℕ) (slip : RoutingSlip T A R)
    : Type 0 where
  pub items : HaveOwner owner i slip.next_work_items
  pub logs : HadOwner owner i slip.completed_work_logs

-- The activities of branch `i` read and change the share `i` of the world only, as `local` says, and
-- what they put on a slip is of their branch.
pub record IsSeparate {T A R World L : Type 0} (activity : Activity T A R World)
    (local : Activity T A R L) (owner : T → ℕ) (share : ℕ → World → L) : Type 0 where
  pub works :
      (t : T) (item : WorkItem T A) (w : World)
      → ((activity.do_work t item w).0 ≡ (local.do_work t item (share (owner t) w)).0)
        × (share (owner t) (activity.do_work t item w).1
            ≡ (local.do_work t item (share (owner t) w)).1)
  pub works_apart :
      (t : T) (item : WorkItem T A) (w : World) (i : ℕ)
      → i ≢ owner t
      → share i (activity.do_work t item w).1 ≡ share i w
  pub compensates :
      (t : T) (log : WorkLog T R) (slip : RoutingSlip T A R) (w : World)
      → ((activity.compensate t log slip w).0 ≡ (local.compensate t log slip (share (owner t) w)).0)
        × ((activity.compensate t log slip w).1
            ≡ (local.compensate t log slip (share (owner t) w)).1)
        × (share (owner t) (activity.compensate t log slip w).2
            ≡ (local.compensate t log slip (share (owner t) w)).2)
  pub compensates_apart :
      (t : T) (log : WorkLog T R) (slip : RoutingSlip T A R) (w : World) (i : ℕ)
      → i ≢ owner t
      → share i (activity.compensate t log slip w).2 ≡ share i w
  pub log_owner :
      (t : T) (item : WorkItem T A) (s : L) (log : WorkLog T R)
      → (local.do_work t item s).0 ≡ ok (some log)
      → owner log.activity_type ≡ owner t
  pub slip_owner :
      (t : T) (log : WorkLog T R) (slip : RoutingSlip T A R) (s : L)
      → IsOwned owner (owner t) slip
      → IsOwned owner (owner t) (local.compensate t log slip s).1

-- The same outcome on the world and on the share `i` of it, and no other share changed.
pub record Local {X World L : Type 0} (share : ℕ → World → L) (i : ℕ) (w : World) (p : X × World)
    (q : X × L) : Type 0 where
  pub same : p.0 ≡ q.0
  pub own : share i p.1 ≡ q.1
  pub others : (j : ℕ) → j ≢ i → share j p.1 ≡ share j w

cons-ne-nil : {A : Type 0} {x : A} {xs : List A} → x ∷ xs ≡ [] → ⊥
cons-ne-nil e = cc

HadOwner-snoc :
    {T R : Type 0} (owner : T → ℕ) (i : ℕ) (logs : List (WorkLog T R)) (log : WorkLog T R)
    → HadOwner owner i logs
    → owner log.activity_type ≡ i
    → HadOwner owner i (logs ++ log ∷ [])
HadOwner-snoc owner i [] log h e = (e, tt)
HadOwner-snoc owner i (l ∷ logs) log h e = (h.0, HadOwner-snoc owner i logs log h.1 e)

HadOwner-of_snoc :
    {T R : Type 0} (owner : T → ℕ) (i : ℕ) (logs : List (WorkLog T R)) (log : WorkLog T R)
    → HadOwner owner i (logs ++ log ∷ [])
    → HadOwner owner i logs × (owner log.activity_type ≡ i)
HadOwner-of_snoc owner i [] log h = (tt, h.0)
HadOwner-of_snoc owner i (l ∷ logs) log h =
    let (rest, last) = HadOwner-of_snoc owner i logs log h.1 in ((h.0, rest), last)

HadOwner-pop :
    {T R : Type 0} (owner : T → ℕ) (i : ℕ) (logs rest : List (WorkLog T R)) (log : WorkLog T R)
    → HadOwner owner i logs
    → pop logs ≡ some (rest, log)
    → HadOwner owner i rest × (owner log.activity_type ≡ i)
HadOwner-pop owner i logs rest log h e =
    HadOwner-of_snoc owner i rest log (subst (HadOwner owner i) (snoc-pop logs rest log e) h)

module _ {T A R World : Type 0} (activity : Activity T A R World) where
  pub step-undone :
      (logs : List (WorkLog T R)) (items : List (WorkItem T A)) (w : World)
      → pop logs ≡ none
      → step activity (undoing (record { completed_work_logs = logs; next_work_items = items })) w
        ≡ (finished (ok false) (record { completed_work_logs = logs; next_work_items = items }), w)
  unfolding step is_in_progress
  step-undone [] items w e = refl
  step-undone (l ∷ logs) items w e = absurd (cons-ne-nil (pop-eq-none (l ∷ logs) e))

  undo_last-some :
      (logs : List (WorkLog T R)) (items : List (WorkItem T A)) (w : World)
      (rest : List (WorkLog T R)) (log : WorkLog T R)
      → pop logs ≡ some (rest, log)
      → undo_last activity (record { completed_work_logs = logs; next_work_items = items }) w
        ≡ activity.compensate log.activity_type log
            (record { completed_work_logs = rest; next_work_items = items })
            w
  unfolding undo_last
  undo_last-some logs items w rest log e = rw (undo_last, e) refl

  pub step-undoing :
      (logs : List (WorkLog T R)) (items : List (WorkItem T A)) (w : World)
      (rest : List (WorkLog T R)) (log : WorkLog T R)
      → pop logs ≡ some (rest, log)
      → step activity (undoing (record { completed_work_logs = logs; next_work_items = items })) w
        ≡ after_undo activity (
            activity.compensate log.activity_type log
              (record { completed_work_logs = rest; next_work_items = items })
              w)
  unfolding step is_in_progress
  step-undoing [] items w rest log e = unfold pop in cc
  step-undoing (l ∷ logs) items w rest log e =
      ap (after_undo activity) (undo_last-some (l ∷ logs) items w rest log e)

module _ {T A R World L : Type 0} (activity : Activity T A R World) (local : Activity T A R L)
    (share : ℕ → World → L) where
  after_work-Local :
      (i : ℕ) (w : World) (slip : RoutingSlip T A R)
      (x : Result Exception (Option (WorkLog T R)) × World)
      (y : Result Exception (Option (WorkLog T R)) × L)
      → x.0 ≡ y.0
      → share i x.1 ≡ y.1
      → ((j : ℕ) → j ≢ i → share j x.1 ≡ share j w)
      → Local share i w
          (after_work activity (record_work activity slip x))
          (after_work local (record_work local slip y))
  unfolding after_work record_work
  after_work-Local i w slip (ok (some log), w') (r, s) e own others =
      subst
        (λ r.
          Local share i w (after_work activity (record_work activity slip (ok (some log), w')))
            (after_work local (record_work local slip (r, s))))
        e (record { same = refl; own = own; others = others })
  after_work-Local i w slip (ok none, w') (r, s) e own others =
      subst
        (λ r.
          Local share i w (after_work activity (record_work activity slip (ok none, w')))
            (after_work local (record_work local slip (r, s))))
        e (record { same = refl; own = own; others = others })
  after_work-Local i w slip (raise x, w') (r, s) e own others =
      subst
        (λ r.
          Local share i w (after_work activity (record_work activity slip (raise x, w')))
            (after_work local (record_work local slip (r, s))))
        e (record { same = refl; own = own; others = others })

  after_undo-Local :
      (i : ℕ) (w : World) (x : Result Exception Bool × RoutingSlip T A R × World)
      (y : Result Exception Bool × RoutingSlip T A R × L)
      → x.0 ≡ y.0
      → x.1 ≡ y.1
      → share i x.2 ≡ y.2
      → ((j : ℕ) → j ≢ i → share j x.2 ≡ share j w)
      → Local share i w (after_undo activity x) (after_undo local y)
  unfolding after_undo
  after_undo-Local i w (ok b, slip, w') (r, slip', s) e e' own others =
      subst
        (λ r.
          Local share i w (after_undo activity (ok b, slip, w')) (after_undo local (r, slip', s)))
        e (record { same = ap undoing e'; own = own; others = others })
  after_undo-Local i w (raise x, slip, w') (r, slip', s) e e' own others =
      subst
        (λ r.
          Local share i w (after_undo activity (raise x, slip, w'))
            (after_undo local (r, slip', s)))
        e (record { same = ap (finished (raise x)) e'; own = own; others = others })

  module _ (owner : T → ℕ) (separate : IsSeparate activity local owner share) where
    working-Local :
        (i : ℕ) (logs : List (WorkLog T R)) (items : List (WorkItem T A)) (w : World)
        → HaveOwner owner i items
        → Local share i w
            (step activity
              (working (record { completed_work_logs = logs; next_work_items = items }))
              w)
            (step local
              (working (record { completed_work_logs = logs; next_work_items = items }))
              (share i w))
    unfolding step is_completed
    working-Local i logs [] w h = record { same = refl; own = refl; others = λ j n. refl }
    working-Local i logs (item ∷ items) w h =
        let t = item.activity_type in
        let slip : RoutingSlip T A R = record {
          completed_work_logs = logs;
          next_work_items = items;
        } in
        subst
          (λ k.
            Local share k w
              (after_work activity (record_work activity slip (activity.do_work t item w)))
              (after_work local (record_work local slip (local.do_work t item (share k w)))))
          h.0
          (after_work-Local (owner t) w slip (activity.do_work t item w)
            (local.do_work t item (share (owner t) w)) (separate.works t item w).0
            (separate.works t item w).1 (separate.works_apart t item w))

    undoing-Local :
        (i : ℕ) (logs : List (WorkLog T R)) (items : List (WorkItem T A)) (w : World)
        → HadOwner owner i logs
        → Local share i w
            (step activity
              (undoing (record { completed_work_logs = logs; next_work_items = items }))
              w)
            (step local
              (undoing (record { completed_work_logs = logs; next_work_items = items }))
              (share i w))
    undoing-Local i logs items w h = elim (Option-cases (pop logs)) [
      | inl e ↦
          rw (step-undone activity logs items w e, step-undone local logs items (share i w) e)
            (record { same = refl; own = refl; others = λ j n. refl })
      | inr ((rest, log), e) ↦
          let t = log.activity_type in
          let slip : RoutingSlip T A R = record {
            completed_work_logs = rest;
            next_work_items = items;
          } in
          let law = separate.compensates t log slip w in
          rw
            (
              step-undoing activity logs items w rest log e,
              step-undoing local logs items (share i w) rest log e,
            )
            (subst
              (λ k.
                Local share k w (after_undo activity (activity.compensate t log slip w))
                  (after_undo local (local.compensate t log slip (share k w))))
              (HadOwner-pop owner i logs rest log h e).1
              (after_undo-Local (owner t) w (activity.compensate t log slip w)
                (local.compensate t log slip (share (owner t) w)) law.0 law.1 law.2
                (separate.compensates_apart t log slip w)))
    ]

    -- A turn of the branch `i` is a turn on its share, and leaves the other shares alone.
    pub step-Local :
        (i : ℕ) (b : Branch T A R) (w : World)
        → IsOwned owner i (slip_of_branch b)
        → Local share i w (step activity b w) (step local b (share i w))
    step-Local i (working slip) w h =
        working-Local i slip.completed_work_logs slip.next_work_items w h.items
    step-Local i (undoing slip) w h =
        undoing-Local i slip.completed_work_logs slip.next_work_items w h.logs
    step-Local i (finished r slip) w h =
        unfold step in (record { same = refl; own = refl; others = λ j n. refl })

    IsOwned-after_work :
        (i : ℕ) (slip : RoutingSlip T A R) (x : Result Exception (Option (WorkLog T R)) × L)
        → IsOwned owner i slip
        → ((log : WorkLog T R) → x.0 ≡ ok (some log) → owner log.activity_type ≡ i)
        → IsOwned owner i (slip_of_branch (after_work local (record_work local slip x)).0)
    unfolding after_work record_work
    IsOwned-after_work i slip (ok (some log), s) h e = record {
      items = h.items;
      logs = HadOwner-snoc owner i slip.completed_work_logs log h.logs (e log refl);
    }
    IsOwned-after_work i slip (ok none, s) h e = h
    IsOwned-after_work i slip (raise x, s) h e = h

    IsOwned-after_undo :
        (i : ℕ) (x : Result Exception Bool × RoutingSlip T A R × L)
        → IsOwned owner i x.1
        → IsOwned owner i (slip_of_branch (after_undo local x).0)
    unfolding after_undo
    IsOwned-after_undo i (ok b, slip, s) h = h
    IsOwned-after_undo i (raise x, slip, s) h = h

    IsOwned-working :
        (i : ℕ) (logs : List (WorkLog T R)) (items : List (WorkItem T A)) (s : L)
        → HadOwner owner i logs
        → HaveOwner owner i items
        → IsOwned owner i (
            slip_of_branch
              (step local
                (working (record { completed_work_logs = logs; next_work_items = items }))
                s).0)
    unfolding step is_completed
    IsOwned-working i logs [] s h k = record { items = k; logs = h }
    IsOwned-working i logs (item ∷ items) s h k =
        IsOwned-after_work i (record { completed_work_logs = logs; next_work_items = items })
          (local.do_work item.activity_type item s) (record { items = k.1; logs = h })
          (λ log e. separate.log_owner item.activity_type item s log e ∙ k.0)

    IsOwned-undoing :
        (i : ℕ) (logs : List (WorkLog T R)) (items : List (WorkItem T A)) (s : L)
        → HadOwner owner i logs
        → HaveOwner owner i items
        → IsOwned owner i (
            slip_of_branch
              (step local
                (undoing (record { completed_work_logs = logs; next_work_items = items }))
                s).0)
    IsOwned-undoing i logs items s h k = elim (Option-cases (pop logs)) [
      | inl e ↦ rw (step-undone local logs items s e) (record { items = k; logs = h })
      | inr ((rest, log), e) ↦
          let slip : RoutingSlip T A R = record {
            completed_work_logs = rest;
            next_work_items = items;
          } in
          let (kept, own) = HadOwner-pop owner i logs rest log h e in
          rw (step-undoing local logs items s rest log e) (
            IsOwned-after_undo i (local.compensate log.activity_type log slip s) (
              subst (λ k. IsOwned owner k (local.compensate log.activity_type log slip s).1) own
                (separate.slip_owner log.activity_type log slip s (
                  subst (λ k. IsOwned owner k slip) (sym own)
                    (record { items = k; logs = kept })))))
    ]

    pub step-IsOwned :
        (i : ℕ) (b : Branch T A R) (s : L)
        → IsOwned owner i (slip_of_branch b)
        → IsOwned owner i (slip_of_branch (step local b s).0)
    step-IsOwned i (working slip) s h =
        IsOwned-working i slip.completed_work_logs slip.next_work_items s h.logs h.items
    step-IsOwned i (undoing slip) s h =
        IsOwned-undoing i slip.completed_work_logs slip.next_work_items s h.logs h.items
    step-IsOwned i (finished r slip) s h = unfold step in h
