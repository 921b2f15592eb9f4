-- ===== src/Saga/Parallel/Tests.antt =====
-- Two branches that book rooms, each in its own hotel.
use ascetic_ddd_python.Prelude.{
  ℕ, zero, suc, ◌==◌, ◌<◌, ◌≡◌, ◌≢◌, refl, Option, some, none, List, [], ◌∷◌, map, if◌then◌else◌,
  true, arith,
}
use ascetic_ddd_python.Prelude.Result.{Result, ok, raise}
use ascetic_ddd_python.Saga.{
  WorkItem, WorkLog, RoutingSlip, Activity, Exception, activity_error, init, is_completed,
}
use ascetic_ddd_python.Saga.Rollback.{IsUndoable}
use ascetic_ddd_python.Saga.Parallel.{do_work, compensate}
use ascetic_ddd_python.Saga.Parallel.Separation.{IsSeparate}
use ascetic_ddd_python.Saga.Parallel.Endings.{Joined}
use ascetic_ddd_python.Saga.Parallel.Outcome.{do_work_joins, compensate_joined}

abbrev Rooms : Type 0
Rooms = List ℕ

abbrev World : Type 0
World = ℕ → Rooms

-- There is no room 0, and the first floor raises for it.
abbrev book : ℕ → ℕ → Rooms → Result Exception (Option (WorkLog ℕ ℕ)) × Rooms
book t zero s = (if t == 1 then raise activity_error else ok none, s)
book t (suc n) s = (ok (some (record { activity_type = t; result = suc n })), suc n ∷ s)

abbrev cancel : Rooms → Rooms
cancel [] = []
cancel (n ∷ s) = s

abbrev put : ℕ → Rooms → World → World
put t s w i = if i == t then s else w i

abbrev in_hotel : Activity ℕ ℕ ℕ Rooms
in_hotel = record {
  do_work = λ t item s. book t item.arguments s;
  compensate = λ t log slip s. (ok true, slip, cancel s);
  work_item_queue_address = λ t. "sb://./hotel";
  compensation_queue_address = λ t. "sb://./hotelCompensation";
}

abbrev in_city : Activity ℕ ℕ ℕ World
in_city = record {
  do_work = λ t item w. ((book t item.arguments (w t)).0, put t (book t item.arguments (w t)).1 w);
  compensate = λ t log slip w. (ok true, slip, put t (cancel (w t)) w);
  work_item_queue_address = λ t. "sb://./hotel";
  compensation_queue_address = λ t. "sb://./hotelCompensation";
}

put-same : (t : ℕ) (s : Rooms) (w : World) → put t s w t ≡ s
put-same t s w = ground arith

put-other : (t : ℕ) (s : Rooms) (w : World) (i : ℕ) → i ≢ t → put t s w i ≡ w i
put-other t s w i n = ground (arith, n)

book-owner :
    (t n : ℕ) (s : Rooms) (log : WorkLog ℕ ℕ)
    → (book t n s).0 ≡ ok (some log)
    → log.activity_type ≡ t
book-owner t zero s log e = ground (arith, e)
book-owner t (suc n) s log e = ground (arith, e)

in_city-IsSeparate : IsSeparate in_city in_hotel (λ t. t) (λ i w. w i)
in_city-IsSeparate = record {
  works = λ t item w. (refl, put-same t (book t item.arguments (w t)).1 w);
  works_apart = λ t item w i n. put-other t (book t item.arguments (w t)).1 w i n;
  compensates = λ t log slip w. (refl, refl, put-same t (cancel (w t)) w);
  compensates_apart = λ t log slip w i n. put-other t (cancel (w t)) w i n;
  log_owner = λ t item s log e. book-owner t item.arguments s log e;
  slip_owner = λ t log slip s h. h;
}

book-undoes :
    (t n : ℕ) (s s' : Rooms) (log : WorkLog ℕ ℕ) → book t n s ≡ (ok (some log), s') → cancel s' ≡ s
book-undoes t zero s s' log e = ground (arith, e)
book-undoes t (suc n) s s' log e = ground (arith, e)

book-clean :
    (t n : ℕ) (s s' : Rooms) (r : Result Exception (Option (WorkLog ℕ ℕ)))
    → book t n s ≡ (r, s')
    → ((log : WorkLog ℕ ℕ) → r ≢ ok (some log))
    → s' ≡ s
book-clean t zero s s' r e h = ground (arith, e)
book-clean t (suc n) s s' r e h =
    absurd (h (record { activity_type = t; result = suc n }) (ground (arith, e)))

in_hotel-IsUndoable : IsUndoable in_hotel
in_hotel-IsUndoable = record {
  undoes = λ i w w' log slip e. ground (arith, book-undoes i.activity_type i.arguments w w' log e);
  failure_is_clean =
      λ i w w' e. book-clean i.activity_type i.arguments w w' (ok none) e (λ log. cc);
  raise_is_clean =
      λ i w w' x e. book-clean i.activity_type i.arguments w w' (raise x) e (λ log. cc);
}

abbrev item : ℕ → ℕ → WorkItem ℕ ℕ
item t n = record { activity_type = t; arguments = n }

abbrev empty : World
empty i = []

abbrev two_stays : List (List (WorkItem ℕ ℕ))
two_stays = (item 0 3 ∷ item 0 4 ∷ []) ∷ (item 1 7 ∷ []) ∷ []

abbrev bad_stay : List (List (WorkItem ℕ ℕ))
bad_stay = (item 0 3 ∷ item 0 4 ∷ []) ∷ (item 1 7 ∷ item 1 0 ∷ []) ∷ []

abbrev turns : List ℕ
turns = 0 ∷ 1 ∷ 1 ∷ 0 ∷ 0 ∷ 1 ∷ 0 ∷ 1 ∷ 1 ∷ 0 ∷ []

abbrev stays : List (RoutingSlip ℕ ℕ ℕ)
stays =
    record {
      completed_work_logs =
          record { activity_type = 0; result = 3 } ∷ record { activity_type = 0; result = 4 } ∷ [];
      next_work_items = [];
    }
    ∷ record {
      completed_work_logs = record { activity_type = 1; result = 7 } ∷ [];
      next_work_items = [];
    }
    ∷ []

abbrev full : World
full = put 0 (4 ∷ 3 ∷ []) (put 1 (7 ∷ []) (put 0 (3 ∷ []) empty))

booked : do_work in_city turns turns (map init two_stays) empty ≡ some (some stays, full)
unfolding do_work is_completed init
booked = refl

do_work_joins_example :
    Joined in_hotel
      (λ i w. w i)
      bad_stay
      empty
      (do_work in_city turns turns (map init bad_stay) empty)
do_work_joins_example =
    do_work_joins in_city in_hotel (λ t. t) (λ i w. w i) in_city-IsSeparate in_hotel-IsUndoable
      bad_stay turns turns empty ((refl, (refl, tt)), ((refl, (refl, tt)), tt))
      (omega arith, omega arith, (omega arith, omega arith, tt))

compensate_joined_example :
    (slips : List (RoutingSlip ℕ ℕ ℕ)) × (w : World) × (compensate in_city turns stays full
      ≡ some (slips, w))
    × ((i : ℕ) → i < 2 → w i ≡ [])
compensate_joined_example =
    compensate_joined in_city in_hotel (λ t. t) (λ i w. w i) in_city-IsSeparate in_hotel-IsUndoable
      two_stays turns turns empty ((refl, (refl, tt)), ((refl, tt), tt))
      (omega arith, omega arith, (omega arith, omega arith, tt)) stays full booked
