-- ===== src/Clinic/Tests.antt =====
-- Runs of the waiting room, and its theorems applied to them (lab9/src/queue.c).
mod Threads
mod Locked
use cs_os.Prelude.{
  ℕ, ◌≡◌, ◌≤◌, refl, Option, none, some, List, [], ◌∷◌, arith, pos, length, replicate, minus_one,
  inl,
}
use cs_os.Clinic.Queue.{PatientQueue, queue_init, queue_add, queue_pop, queue_count, drain, Comers}
use cs_os.Clinic.Queue.Inv.{IsValid}
use cs_os.Clinic.Queue.Refine.{
  Holds, Op, add, pop, count, status, patient, number, run, run_waiting, run_refines,
}
use cs_os.Clinic.Queue.Fresh.{arrivals, drain_bounded, arrivals_lost}

-- Patient 5 waits in slot 2, after a round.
abbrev one_waits : PatientQueue
one_waits = record { head = 2; tail = 1; queue_array = none ∷ none ∷ some 5 ∷ none ∷ [] }

one_waits-Holds : Holds one_waits (5 ∷ [])
one_waits-Holds = record { steady = omega arith; slots = (omega arith, refl, refl) }

abbrev script : List Op
script = count ∷ add 6 ∷ count ∷ add 7 ∷ pop ∷ pop ∷ pop ∷ count ∷ []

script_replies :
    run one_waits script
    ≡ number 1
      ∷ status (pos 0)
      ∷ number 3
      ∷ status (minus_one)
      ∷ patient (some 5)
      ∷ patient (some 6)
      ∷ patient none
      ∷ number 2
      ∷ []
unfolding run queue_add queue_pop queue_count
script_replies = refl

run_refines_example : run one_waits script ≡ run_waiting (5 ∷ []) script
run_refines_example = run_refines script (5 ∷ []) one_waits-Holds

-- One who is refused in the second round, and one who comes in before the third.
abbrev two_come : Comers
two_come = ([], []) ∷ ([], 8 ∷ []) ∷ (9 ∷ [], []) ∷ []

abbrev full_room : PatientQueue
full_room = (arrivals queue_init (1 ∷ 2 ∷ 3 ∷ [])).1

full_room-IsValid : IsValid full_room
unfolding queue_init queue_add arrivals
full_room-IsValid = record {
  slots = refl;
  head_in = omega arith;
  tail_in = omega arith;
  left_start = inl refl;
}

-- In the three places of `patients_to_treat` the fourth pop has no place.
array_overrun : drain 3 two_come full_room ≡ none
unfolding drain arrivals queue_init queue_add
array_overrun = refl

drain_bounded_example :
    (got : List (Option ℕ)) × (last : PatientQueue) × (drain 5 two_come full_room
      ≡ some (got, last))
    × (length got ≤ 5)
    × (last.head ≡ last.tail)
drain_bounded_example = drain_bounded full_room two_come 5 full_room-IsValid (omega arith)

-- Five patients arrive at the start, all are let in, and two of them come out again.
two_of_five :
    drain 3 [] (arrivals queue_init (1 ∷ 2 ∷ 3 ∷ 4 ∷ 5 ∷ [])).1
    ≡ some (
      some 1 ∷ some 5 ∷ [],
      record { head = 1; tail = 1; queue_array = none ∷ some 3 ∷ none ∷ some 4 ∷ [] },
    )
unfolding arrivals queue_init queue_add drain
two_of_five = refl

arrivals_lost_example :
    let (statuses, q) = arrivals queue_init (1 ∷ 2 ∷ 3 ∷ 4 ∷ 5 ∷ []) in
    (statuses ≡ replicate 5 (pos 0))
    × ((got : List (Option ℕ)) × (last : PatientQueue) × (drain 3 [] q ≡ some (got, last))
        × (length got ≤ 3)
        × (last.head ≡ last.tail))
arrivals_lost_example = arrivals_lost (1 ∷ 2 ∷ 3 ∷ 4 ∷ 5 ∷ [])
