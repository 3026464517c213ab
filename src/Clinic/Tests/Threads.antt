-- ===== src/Clinic/Tests/Threads.antt =====
-- Runs of the clinic's threads (lab9/src), and the theorems applied to them.
use cs_os.Prelude.{ℕ, ◌≡◌, refl, false, ℤ, Option, none, some, [], ◌∷◌, arith, pos}
use cs_os.Clinic.Queue.{
  PatientQueue, queue_init, queue_is_full, queue_is_empty, queue_add, queue_pop, queue_count,
}
use cs_os.Clinic.System.{
  PatientStatus, arriving, queue, treatment, gone, sleeping, clinic_init, PatientPhase, coming,
  looping, adding, admitted, counting, Patient, DoctorPhase, beginning, asleep, watching, comparing,
  popping, locking, using, treating, visiting, System, holds_queue, cabinet_free, present, decide,
  AllEnded, own_step,
}
use cs_os.Clinic.Steps.{
  alone, try_to_enter, begin, wake_up, read_cabinet, compare_counts, take_out, close_room,
  lock_room, use_medicine, treat, dismiss, Reach, start, then_step, initial, start_threads,
}
use cs_os.Clinic.Lost.{IsLost, Reach-IsLost}
use cs_os.Clinic.Cabinet.{IsHolding}

abbrev both : System
both = initial 2 0

-- Two pointers take less than one patient.
memory_of_main : start_threads 0 0 2 0 ≡ none
unfolding start_threads
memory_of_main = refl

-- Two patients and no pharmacist.
abbrev scene : DoctorPhase → PatientQueue → ℤ → ℕ → Patient → Patient → System
scene doctor room count seen first second = record {
  clinic = record {
    doctor_status = sleeping;
    patient_queue = room;
    all_patients_done = false;
    waiting_pharmacists = 0;
    patients_treated = seen;
    medicine_count = count;
    medicine_status = none;
  };
  doctor = doctor;
  patients = first ∷ second ∷ [];
  pharmacists = [];
}

abbrev pub person : PatientStatus → PatientPhase → Patient
person status phase = record { status = status; visit_attempts = 0; phase = phase }

abbrev ring : ℕ → ℕ → Option ℕ → Option ℕ → PatientQueue
ring head tail a c = record { head = head; tail = tail; queue_array = a ∷ none ∷ c ∷ none ∷ [] }

abbrev morning : System
morning =
    scene beginning (ring 0 0 none none) (pos 6) 0 (person arriving coming) (person arriving coming)

abbrev first_up : System
first_up =
    scene beginning (ring 0 0 none none) (pos 6) 0 (person arriving looping)
      (person arriving coming)

abbrev first_in : System
first_in =
    scene beginning (ring 0 0 none none) (pos 6) 0 (person arriving adding) (person arriving coming)

abbrev first_admitted : System
first_admitted =
    scene beginning (ring 0 2 (some 0) none) (pos 6) 0 (person arriving admitted)
      (person arriving coming)

abbrev second_up : System
second_up =
    scene beginning (ring 0 2 (some 0) none) (pos 6) 0 (person arriving admitted)
      (person arriving looping)

abbrev second_in : System
second_in =
    scene beginning (ring 0 2 (some 0) none) (pos 6) 0 (person arriving admitted)
      (person arriving adding)

abbrev second_admitted : System
second_admitted =
    scene beginning (ring 0 1 (some 0) (some 1)) (pos 6) 0 (person arriving admitted)
      (person arriving admitted)

abbrev doctor_asleep : System
doctor_asleep =
    scene asleep (ring 0 1 (some 0) (some 1)) (pos 6) 0 (person arriving admitted)
      (person arriving admitted)

abbrev doctor_awake : System
doctor_awake =
    scene watching (ring 0 1 (some 0) (some 1)) (pos 6) 0 (person arriving admitted)
      (person arriving admitted)

abbrev doctor_compares : System
doctor_compares =
    scene (comparing (pos 6) 0) (ring 0 1 (some 0) (some 1)) (pos 6) 0 (person arriving admitted)
      (person arriving admitted)

abbrev doctor_opens : System
doctor_opens =
    scene (popping []) (ring 0 1 (some 0) (some 1)) (pos 6) 0 (person arriving admitted)
      (person arriving admitted)

abbrev one_out : System
one_out =
    scene (popping (some 0 ∷ [])) (ring 2 1 none (some 1)) (pos 6) 0 (person arriving admitted)
      (person arriving admitted)

abbrev two_out : System
two_out =
    scene (popping (some 0 ∷ some 1 ∷ [])) (ring 1 1 none none) (pos 6) 0 (person arriving admitted)
      (person arriving admitted)

abbrev doctor_closes : System
doctor_closes =
    scene (locking (some 0 ∷ some 1 ∷ [])) (ring 1 1 none none) (pos 6) 0 (person arriving admitted)
      (person arriving admitted)

abbrev doctor_locks : System
doctor_locks =
    scene (using (some 0 ∷ some 1 ∷ [])) (ring 1 1 none none) (pos 6) 0 (person arriving admitted)
      (person arriving admitted)

abbrev medicine_used : System
medicine_used =
    scene (treating (some 0 ∷ some 1 ∷ [])) (ring 1 1 none none) (pos 3) 0
      (person arriving admitted) (person arriving admitted)

abbrev first_treated : System
first_treated =
    scene (visiting 0 (some 1 ∷ [])) (ring 1 1 none none) (pos 3) 0 (person treatment admitted)
      (person arriving admitted)

abbrev first_seen_off : System
first_seen_off =
    scene (treating (some 1 ∷ [])) (ring 1 1 none none) (pos 3) 1 (person gone admitted)
      (person arriving admitted)

abbrev first_lost : System
first_lost =
    scene (treating (some 1 ∷ [])) (ring 1 1 none none) (pos 3) 1 (person queue counting)
      (person arriving admitted)

-- Both patients are let in; neither has written yet that he is in the queue.
both_admitted : Reach (initial 2 0) second_admitted
unfolding own_step queue_add queue_is_full queue_is_empty queue_pop queue_count holds_queue
    cabinet_free decide present clinic_init queue_init
both_admitted =
    then_step second_in second_admitted
      (then_step second_up second_in
        (then_step first_admitted second_up
          (then_step first_in first_admitted
            (then_step first_up first_in
              (then_step morning first_up (start)
                (alone morning 0 (person arriving coming) (person arriving looping) refl refl))
              (alone first_up 0 (person arriving looping) (person arriving adding) refl refl))
            (try_to_enter first_in 0 (person arriving adding) refl refl refl))
          (alone first_admitted 1 (person arriving coming) (person arriving looping) refl refl))
        (alone second_up 1 (person arriving looping) (person arriving adding) refl refl))
      (try_to_enter second_in 1 (person arriving adding) refl refl refl)

-- The doctor sees that the room is full, and takes both out.
both_out : Reach (initial 2 0) two_out
unfolding own_step queue_add queue_is_full queue_is_empty queue_pop queue_count holds_queue
    cabinet_free decide present
both_out =
    then_step one_out two_out
      (then_step doctor_opens one_out
        (then_step doctor_compares doctor_opens
          (then_step doctor_awake doctor_compares
            (then_step doctor_asleep doctor_awake
              (then_step second_admitted doctor_asleep (both_admitted) (begin second_admitted refl))
              (wake_up doctor_asleep refl))
            (read_cabinet doctor_awake refl refl refl))
          (compare_counts doctor_compares (pos 6) 0 refl))
        (take_out doctor_opens [] refl refl refl))
      (take_out one_out (some 0 ∷ []) refl refl refl)

-- The doctor sees the first patient off, who only then writes that he is in the queue.
lost_after_all : Reach (initial 2 0) first_lost
unfolding own_step queue_add queue_is_full queue_is_empty queue_pop queue_count holds_queue
    cabinet_free decide present
lost_after_all =
    then_step first_seen_off first_lost
      (then_step first_treated first_seen_off
        (then_step medicine_used first_treated
          (then_step doctor_locks medicine_used
            (then_step doctor_closes doctor_locks
              (then_step two_out doctor_closes (both_out)
                (close_room two_out (some 0 ∷ some 1 ∷ []) refl refl))
              (lock_room doctor_closes (some 0 ∷ some 1 ∷ []) refl))
            (use_medicine doctor_locks (some 0 ∷ some 1 ∷ []) refl refl))
          (treat medicine_used 0 (some 1 ∷ []) refl))
        (dismiss first_treated 0 (some 1 ∷ []) refl))
      (alone first_seen_off 0 (person gone admitted) (person queue counting) refl refl)

first_lost-IsLost : IsLost 0 first_lost
first_lost-IsLost = record {
  waits = (person queue counting, refl, (refl, tt));
  not_in_room = (λ e. cc, (λ e. cc, (λ e. cc, (λ e. cc, tt))));
  not_held = (λ e. cc, tt);
}

Reach-IsLost_example : IsLost 0 first_lost × (AllEnded first_lost.patients → ⊥)
Reach-IsLost_example = Reach-IsLost 0 first_lost first_lost first_lost-IsLost start

morning_holds : IsHolding morning.clinic 6
morning_holds = (refl, omega arith)
