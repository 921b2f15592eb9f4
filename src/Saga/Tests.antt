-- ===== src/Saga/Tests.antt =====
-- Two activities over a world that is a stack of bookings, and the theorems at concrete sagas.
use ascetic_ddd_python.Prelude.{
  ℕ, zero, suc, ◌≡◌, ◌≢◌, refl, true, Option, none, some, List, [], ◌∷◌, map, pop, ne_of_str_eq,
  arith,
}
use ascetic_ddd_python.Prelude.Result.{Result, ok, raise}
use ascetic_ddd_python.Saga.{
  WorkItem, WorkLog, Activity, Exception, activity_error, init, is_completed, is_in_progress,
  progress_uri, undo_last, undo_all, execute,
}
use ascetic_ddd_python.Saga.Rollback.{IsUndoable, Ends, execute_all_or_nothing, undo_all-execute}
use ascetic_ddd_python.Saga.Fallback
use ascetic_ddd_python.Saga.Fallback.Choice.{
  first_success, outcome, do_work-first_success, compensate-do_work,
}
use ascetic_ddd_python.Saga.Host.{sendable}
use ascetic_ddd_python.Saga.Host.Broker.{run, settled, Listed, IsAddressed}
use ascetic_ddd_python.Saga.Host.Refinement.{run-execute}

data Booking : Type 0 where
  hotel car : Booking

abbrev World : Type 0
World = List ℕ

-- A car cannot be booked for 0 days, and a hotel raises for 0.
abbrev book : Booking → ℕ → World → Result Exception (Option (WorkLog Booking ℕ)) × World
book hotel zero w = (raise activity_error, w)
book car zero w = (ok none, w)
book t (suc n) w = (ok (some (record { activity_type = t; result = suc n })), suc n ∷ w)

abbrev cancel : World → World
cancel [] = []
cancel (n ∷ w) = w

abbrev booking : Activity Booking ℕ ℕ World
booking = record {
  do_work = λ t item w. book t item.arguments w;
  compensate = λ t log slip w. (ok true, slip, cancel w);
  work_item_queue_address = elim [ hotel ↦ "sb://./hotel" | car ↦ "sb://./car" ];
  compensation_queue_address = elim [
    | hotel ↦ "sb://./hotelCompensation"
    | car ↦ "sb://./carCompensation"
  ];
}

abbrev item : Booking → ℕ → WorkItem Booking ℕ
item t n = record { activity_type = t; arguments = n }

book-undoes :
    (t : Booking) (n : ℕ) (w w' : World) (log : WorkLog Booking ℕ)
    → book t n w ≡ (ok (some log), w')
    → cancel w' ≡ w
book-undoes hotel zero w w' log e = ground (arith, e)
book-undoes car zero w w' log e = ground (arith, e)
book-undoes hotel (suc n) w w' log e = ground (arith, e)
book-undoes car (suc n) w w' log e = ground (arith, e)

book-clean :
    (t : Booking) (n : ℕ) (w w' : World) (r : Result Exception (Option (WorkLog Booking ℕ)))
    → book t n w ≡ (r, w')
    → ((log : WorkLog Booking ℕ) → r ≢ ok (some log))
    → w' ≡ w
book-clean hotel zero w w' r e h = ground (arith, e)
book-clean car zero w w' r e h = ground (arith, e)
book-clean hotel (suc n) w w' r e h =
    absurd (h (record { activity_type = hotel; result = suc n }) (ground (arith, e)))
book-clean car (suc n) w w' r e h =
    absurd (h (record { activity_type = car; result = suc n }) (ground (arith, e)))

booking-IsUndoable : IsUndoable booking
booking-IsUndoable = record {
  undoes = λ i w w' log slip e. ground (arith, book-undoes i.activity_type i.arguments w w' log e);
  failure_is_clean =
      λ i w w' e. book-clean i.activity_type i.arguments w w' (ok none) e (λ log. cc);
  raise_is_clean =
      λ i w w' x e. book-clean i.activity_type i.arguments w w' (raise x) e (λ log. cc);
}

abbrev both : List Booking
both = hotel ∷ car ∷ []

booking-hosted : (t : Booking) → Listed booking t both
booking-hosted hotel = Listed.here
booking-hosted car = Listed.there Listed.here

abbrev good_trip : List (WorkItem Booking ℕ)
good_trip = item hotel 3 ∷ item car 2 ∷ []

abbrev bad_trip : List (WorkItem Booking ℕ)
bad_trip = item hotel 3 ∷ item car 2 ∷ item hotel 0 ∷ []

good_trip_logs : List (WorkLog Booking ℕ)
good_trip_logs =
    record { activity_type = hotel; result = 3 } ∷ record { activity_type = car; result = 2 } ∷ []

good_trip_runs :
    execute booking 5 5 (init good_trip) (9 ∷ [])
    ≡ some (
      ok true,
      record { completed_work_logs = good_trip_logs; next_work_items = [] },
      2 ∷ 3 ∷ 9 ∷ [],
    )
unfolding execute init good_trip_logs is_completed
good_trip_runs = refl

execute_all_or_nothing_example :
    Ends booking (9 ∷ []) 3 (execute booking 4 4 (init bad_trip) (9 ∷ []))
execute_all_or_nothing_example =
    execute_all_or_nothing booking booking-IsUndoable 4 4 bad_trip (9 ∷ []) (omega arith)
      (omega arith)

undo_all-execute_example :
    undo_all booking 5
      (record { completed_work_logs = good_trip_logs; next_work_items = [] })
      (2 ∷ 3 ∷ 9 ∷ [])
    ≡ some (ok tt, init [], 9 ∷ [])
undo_all-execute_example =
    undo_all-execute booking booking-IsUndoable 5 5 good_trip (9 ∷ []) (2 ∷ 3 ∷ 9 ∷ [])
      (record { completed_work_logs = good_trip_logs; next_work_items = [] }) (omega arith)
      (omega arith) good_trip_runs

abbrev trips : List (List (WorkItem Booking ℕ))
trips = bad_trip ∷ good_trip ∷ []

do_work-first_success_example :
    Fallback.do_work booking 5 5 (map init trips) (9 ∷ [])
    ≡ some (outcome booking 5 5 (first_success booking 5 5 trips (9 ∷ [])) (9 ∷ []))
do_work-first_success_example =
    do_work-first_success booking booking-IsUndoable 5 5 trips (9 ∷ []) (omega arith)

trips_fall_back :
    Fallback.do_work booking 5 5 (map init trips) (9 ∷ [])
    ≡ some (
      ok (some (record { completed_work_logs = good_trip_logs; next_work_items = [] })),
      2 ∷ 3 ∷ 9 ∷ [],
    )
unfolding Fallback.do_work execute init good_trip_logs is_completed is_in_progress undo_last pop
trips_fall_back = refl

compensate-do_work_example :
    Fallback.compensate booking 5
      (record { completed_work_logs = good_trip_logs; next_work_items = [] })
      (2 ∷ 3 ∷ 9 ∷ [])
    ≡ some (ok true, 9 ∷ [])
compensate-do_work_example =
    compensate-do_work booking booking-IsUndoable 5 5 trips (9 ∷ []) (2 ∷ 3 ∷ 9 ∷ [])
      (record { completed_work_logs = good_trip_logs; next_work_items = [] }) (omega arith)
      trips_fall_back

kinds_differ :
    (t u : Booking) → booking.compensation_queue_address t ≢ booking.work_item_queue_address u
kinds_differ hotel hotel = ne_of_str_eq _ _ refl
kinds_differ hotel car = ne_of_str_eq _ _ refl
kinds_differ car hotel = ne_of_str_eq _ _ refl
kinds_differ car car = ne_of_str_eq _ _ refl

work_addresses : (t : Booking) → booking.work_item_queue_address t ≢ ""
work_addresses hotel = ne_of_str_eq _ _ refl
work_addresses car = ne_of_str_eq _ _ refl

compensation_addresses : (t : Booking) → booking.compensation_queue_address t ≢ ""
compensation_addresses hotel = ne_of_str_eq _ _ refl
compensation_addresses car = ne_of_str_eq _ _ refl

booking-IsAddressed : IsAddressed booking both
booking-IsAddressed = record {
  hosted = booking-hosted;
  apart = kinds_differ;
  work_address = work_addresses;
  compensation_address = compensation_addresses;
}

run-execute_example :
    run booking 7 both (sendable (progress_uri booking (init bad_trip))) (init bad_trip) (9 ∷ [])
    ≡ settled booking (execute booking 4 4 (init bad_trip) (9 ∷ []))
run-execute_example =
    run-execute booking booking-IsAddressed booking-IsUndoable 4 7 4 bad_trip (9 ∷ []) (omega arith)
      (omega arith) (omega arith)
