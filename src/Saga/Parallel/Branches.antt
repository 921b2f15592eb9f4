-- ===== src/Saga/Parallel/Branches.antt =====
-- One branch on its share of the world: where it is after some of its turns.
use ascetic_ddd_python.Prelude.{
  ℕ, zero, suc, ◌+◌, ◌*◌, ◌<◌, ◌≤◌, ◌≡◌, ◌≢◌, refl, sym, ap, ◌∙◌, subst, Bool, true, false, inl,
  inr, ◌⊎◌, some, List, [], ◌∷◌, ◌++◌, length, length-append, pop, pop-snoc, Option, none, arith,
}
use ascetic_ddd_python.Prelude.Result.{Result, ok, raise}
use ascetic_ddd_python.Saga.{
  WorkItem, WorkLog, RoutingSlip, Activity, Exception, init, is_completed, record_work, execute,
}
use ascetic_ddd_python.Saga.Rollback.{
  IsUndoable, Trail, start, append, slip_of, work-cases, succeeded, failed, raised, execute_fails,
  execute_works,
}
use ascetic_ddd_python.Saga.Parallel.{
  Branch, working, undoing, finished, slip_of_branch, is_finished, has_failed, after_work,
  after_undo, step,
}
use ascetic_ddd_python.Saga.Parallel.Separation.{step-undone, step-undoing}

module _ {T A R L : Type 0} (local : Activity T A R L) where
  -- The branch run alone, with enough fuel.
  abbrev pub alone :
      List (WorkItem T A) → L → Option (Result Exception Bool × RoutingSlip T A R × L)
  alone items l = execute local (suc (length items)) (suc (length items)) (init items) l

  -- Where a branch with the items `plan` is after `m` turns, if its share was `l` at first.
  pub data Reached (plan : List (WorkItem T A)) (l : L) (m : ℕ) : Branch T A R → L → Type 0 where
    forward :
        (logs : List (WorkLog T R)) (items : List (WorkItem T A)) (s : L) (fuel : ℕ)
        → Trail local l logs s
        → m ≡ length logs
        → length logs + length items ≡ length plan
        → length items < fuel
        → alone plan l ≡ execute local (suc (length plan)) fuel (slip_of local logs items) s
        → Reached plan l m (working (slip_of local logs items)) s
    backward :
        (logs : List (WorkLog T R)) (items : List (WorkItem T A)) (s : L)
        → Trail local l logs s
        → m + length logs ≤ 2 * length plan
        → alone plan l ≡ some (ok false, slip_of local [] items, l)
        → Reached plan l m (undoing (slip_of local logs items)) s
    returned :
        (logs : List (WorkLog T R)) (s : L)
        → Trail local l logs s
        → length logs ≡ length plan
        → alone plan l ≡ some (ok true, slip_of local logs [], s)
        → Reached plan l m (finished (ok true) (slip_of local logs [])) s
    gave_up :
        (items : List (WorkItem T A))
        → alone plan l ≡ some (ok false, slip_of local [] items, l)
        → Reached plan l m (finished (ok false) (slip_of local [] items)) l

  -- Where a branch that is compensated is after `m` turns.
  pub data Undone (n : ℕ) (l : L) (m : ℕ) : Branch T A R → L → Type 0 where
    compensating :
        (logs : List (WorkLog T R)) (items : List (WorkItem T A)) (s : L)
        → Trail local l logs s
        → m + length logs ≤ n
        → Undone n l m (undoing (slip_of local logs items)) s
    compensated :
        (items : List (WorkItem T A))
        → Undone n l m (finished (ok false) (slip_of local [] items)) l

  data UndoCases (l : L) (logs : List (WorkLog T R)) (items : List (WorkItem T A)) (s : L)
      : Type 0 where
    nothing_left :
        step local (undoing (slip_of local logs items)) s
          ≡ (finished (ok false) (slip_of local [] items), l)
        → UndoCases l logs items s
    one_less :
        (logs' : List (WorkLog T R)) (s' : L)
        → Trail local l logs' s'
        → length logs ≡ suc (length logs')
        → step local (undoing (slip_of local logs items)) s
          ≡ (undoing (slip_of local logs' items), s')
        → UndoCases l logs items s

  undo-cases :
      (l : L) (logs : List (WorkLog T R)) (items : List (WorkItem T A)) (s : L)
      → Trail local l logs s
      → UndoCases l logs items s
  undo-cases l logs items s start = nothing_left (step-undone local [] items l (unfold pop in refl))
  undo-cases l logs items s (append {logs = before} {w = s'} log t e back) =
      one_less before s' t (ap length e ∙ length-append before (log ∷ []) ∙ omega arith) (
        step-undoing local logs items s before log (ap pop e ∙ pop-snoc before log)
        ∙ ap (after_undo local) (back (slip_of local before items))
        ∙ unfold after_undo in refl)

  pub step-Undone :
      (n : ℕ) (l : L) (m : ℕ) (b : Branch T A R) (s : L)
      → Undone n l m b s
      → Undone n l (suc m) (step local b s).0 (step local b s).1
  step-Undone n l m b s₀ (compensating logs items s t h) = elim (undo-cases l logs items s t) [
    | nothing_left e ↦ subst (λ x. Undone n l (suc m) x.0 x.1) (sym e) (compensated items)
    | one_less logs' s' t' shorter e ↦
        subst (λ x. Undone n l (suc m) x.0 x.1) (sym e)
          (compensating logs' items s' t' (omega arith))
  ]
  step-Undone n l m b s₀ (compensated items) = unfold step in compensated items

  step-worked :
      (logs : List (WorkLog T R)) (item : WorkItem T A) (items : List (WorkItem T A)) (s : L)
      (r : Result Exception (Option (WorkLog T R))) (s' : L)
      → local.do_work item.activity_type item s ≡ (r, s')
      → step local (working (slip_of local logs (item ∷ items))) s
        ≡ after_work local (record_work local (slip_of local logs items) (r, s'))
  unfolding step is_completed
  step-worked logs item items s r s' e =
      ap (λ x. after_work local (record_work local (slip_of local logs items) x)) e

  failed_work :
      (logs : List (WorkLog T R)) (items : List (WorkItem T A))
      (r : Result Exception (Option (WorkLog T R))) (s : L)
      → ((log : WorkLog T R) → r ≢ ok (some log))
      → after_work local (record_work local (slip_of local logs items) (r, s))
        ≡ (undoing (slip_of local logs items), s)
  unfolding after_work record_work
  failed_work logs items (ok (some log)) s unfinished = absurd (unfinished log refl)
  failed_work logs items (ok none) s unfinished = refl
  failed_work logs items (raise x) s unfinished = refl

  pub finished_in_time :
      (plan : List (WorkItem T A)) (l : L) (m : ℕ) (b : Branch T A R) (s : L)
      → Reached plan l m b s
      → 2 * length plan < m
      → is_finished b ≡ true
  finished_in_time plan l m b s₀ (forward logs items s fuel t e n h same) k = absurd (omega arith)
  finished_in_time plan l m b s₀ (backward logs items s t h same) k = absurd (omega arith)
  finished_in_time plan l m b s₀ (returned logs s t n same) k = refl
  finished_in_time plan l m b s₀ (gave_up items same) k = refl

  pub back_in_time :
      (n : ℕ) (l : L) (m : ℕ) (b : Branch T A R) (s : L)
      → Undone n l m b s
      → n < m
      → (is_finished b ≡ true) × (s ≡ l)
  back_in_time n l m b s₀ (compensating logs items s t h) k = absurd (omega arith)
  back_in_time n l m b s₀ (compensated items) k = (refl, refl)

  -- A branch that is finished can be compensated.
  pub Reached-Undone :
      (plan : List (WorkItem T A)) (l : L) (m : ℕ) (b : Branch T A R) (s : L)
      → Reached plan l m b s
      → is_finished b ≡ true
      → Undone (length plan) l 0 (undoing (slip_of_branch b)) s
  Reached-Undone plan l m b s₀ (forward logs items s fuel t e n h same) f = cc
  Reached-Undone plan l m b s₀ (backward logs items s t h same) f = cc
  Reached-Undone plan l m b s₀ (returned logs s t n same) f = compensating logs [] s t (omega arith)
  Reached-Undone plan l m b s₀ (gave_up items same) f = compensating [] items l start (omega arith)

  -- What a finished branch returned is what it returns alone.
  pub result_alone :
      (plan : List (WorkItem T A)) (l : L) (m : ℕ) (b : Branch T A R) (s : L)
      → Reached plan l m b s
      → is_finished b ≡ true
      → ((has_failed b ≡ false) × (alone plan l ≡ some (ok true, slip_of_branch b, s)))
        ⊎ ((has_failed b ≡ true) × (alone plan l ≡ some (ok false, slip_of_branch b, l)))
  result_alone plan l m b s₀ (forward logs items s fuel t e n h same) f = cc
  result_alone plan l m b s₀ (backward logs items s t h same) f = cc
  result_alone plan l m b s₀ (returned logs s t n same) f = inl (refl, same)
  result_alone plan l m b s₀ (gave_up items same) f = inr (refl, same)

  module _ (undoable : IsUndoable local) where
    step-failed :
        (plan : List (WorkItem T A)) (l : L) (m : ℕ) (logs : List (WorkLog T R))
        (item : WorkItem T A) (items : List (WorkItem T A)) (s : L) (fuel : ℕ)
        (r : Result Exception (Option (WorkLog T R))) (s' : L)
        → Trail local l logs s
        → suc m + length logs ≤ 2 * length plan
        → length logs < suc (length plan)
        → local.do_work item.activity_type item s ≡ (r, s')
        → s' ≡ s
        → ((log : WorkLog T R) → r ≢ ok (some log))
        → alone plan l
          ≡ execute local (suc (length plan)) (suc fuel) (slip_of local logs (item ∷ items)) s
        → Reached plan l
            (suc m)
            (step local (working (slip_of local logs (item ∷ items))) s).0
            (step local (working (slip_of local logs (item ∷ items))) s).1
    step-failed plan l m logs item items s fuel r s' t h k p clean unfinished same =
        subst (λ x. Reached plan l (suc m) x.0 x.1)
          (sym (step-worked logs item items s r s' p ∙ failed_work logs items r s' unfinished))
          (backward logs items s' (subst (λ x. Trail local l logs x) (sym clean) t) h (
            same
            ∙ execute_fails local undoable (suc (length plan)) fuel item items r s' t k p clean
                unfinished))

    step-forward :
        (plan : List (WorkItem T A)) (l : L) (m : ℕ) (logs : List (WorkLog T R))
        (items : List (WorkItem T A)) (s : L) (fuel : ℕ)
        → Trail local l logs s
        → m ≡ length logs
        → length logs + length items ≡ length plan
        → length items < fuel
        → alone plan l ≡ execute local (suc (length plan)) fuel (slip_of local logs items) s
        → Reached plan l
            (suc m)
            (step local (working (slip_of local logs items)) s).0
            (step local (working (slip_of local logs items)) s).1
    unfolding after_work record_work
    step-forward plan l m logs items s zero t e n h same = absurd (omega arith)
    step-forward plan l m logs [] s (suc fuel) t e n h same =
        unfold step is_completed in
        (returned logs s t (omega arith) (same ∙ unfold execute in refl))
    step-forward plan l m logs (item ∷ items) s (suc fuel) t e n h same =
        elim (work-cases (local.do_work item.activity_type item s)) [
          | succeeded log s' p ↦
              subst (λ x. Reached plan l (suc m) x.0 x.1)
                (sym (step-worked logs item items s (ok (some log)) s' p))
                (forward (logs ++ log ∷ []) items s' fuel
                  (append log t refl (λ slip. undoable.undoes item s s' log slip p))
                  (omega (arith, length-append logs (log ∷ [])))
                  (omega (arith, length-append logs (log ∷ []))) (omega arith)
                  (same
                    ∙ execute_works local undoable (suc (length plan)) fuel logs s item items log s'
                        p))
          | failed s' p ↦
              step-failed plan l m logs item items s fuel (ok none) s' t (omega arith) (omega arith)
                p (undoable.failure_is_clean item s s' p) (λ log. cc) same
          | raised x s' p ↦
              step-failed plan l m logs item items s fuel (raise x) s' t (omega arith) (omega arith)
                p (undoable.raise_is_clean item s s' x p) (λ log. cc) same
        ]

    pub step-Reached :
        (plan : List (WorkItem T A)) (l : L) (m : ℕ) (b : Branch T A R) (s : L)
        → Reached plan l m b s
        → Reached plan l (suc m) (step local b s).0 (step local b s).1
    step-Reached plan l m b s₀ (forward logs items s fuel t e n h same) =
        step-forward plan l m logs items s fuel t e n h same
    step-Reached plan l m b s₀ (backward logs items s t h same) =
        elim (undo-cases l logs items s t) [
          | nothing_left e ↦
              subst (λ x. Reached plan l (suc m) x.0 x.1) (sym e) (gave_up items same)
          | one_less logs' s' t' shorter e ↦
              subst (λ x. Reached plan l (suc m) x.0 x.1) (sym e)
                (backward logs' items s' t' (omega arith) same)
        ]
    step-Reached plan l m b s₀ (returned logs s t n same) = unfold step in returned logs s t n same
    step-Reached plan l m b s₀ (gave_up items same) = unfold step in gave_up items same
