-- ===== src/Clinic/Tests/Locked.antt =====
-- A run of the clinic's threads (lab9/src) that ends with the doctor and a pharmacist at each
-- other's mutex: four patients use the medicine up, and the doctor is awake when the pharmacist
-- comes.
use cs_os.Prelude.{ℕ, ◌≡◌, refl, false, ℤ, Option, none, some, [], ◌∷◌, pos, get_elem?}
use cs_os.Clinic.Queue.{
  PatientQueue, queue_init, queue_is_full, queue_is_empty, queue_add, queue_pop, queue_count,
}
use cs_os.Clinic.System.{
  arriving, treatment, gone, sleeping, clinic_init, coming, looping, adding, admitted, Patient,
  DoctorPhase, beginning, asleep, watching, comparing, popping, locking, using, treating, visiting,
  PharmacistPhase, travelling, arrived, knocking, System, holds_queue, holds_cabinet, cabinet_free,
  present, decide, inspect, is_full, own_step,
}
use cs_os.Clinic.Steps.{
  alone, try_to_enter, begin, wake_up, read_cabinet, compare_counts, take_out, close_room,
  lock_room, use_medicine, treat, dismiss, finish_round, travel, enter, Reach, start, then_step,
  initial,
}
use cs_os.Clinic.Deadlock.{IsLocked, Reach-IsLocked}
use cs_os.Clinic.Tests.Threads.{person}

abbrev slots : ℕ → ℕ → Option ℕ → Option ℕ → Option ℕ → Option ℕ → PatientQueue
slots head tail a b c d = record { head = head; tail = tail; queue_array = a ∷ b ∷ c ∷ d ∷ [] }

-- Four patients and one pharmacist.
abbrev stage :
    DoctorPhase
    → PatientQueue
    → ℕ
    → ℕ
    → ℤ
    → Patient
    → Patient
    → Patient
    → Patient
    → PharmacistPhase
    → System
stage doctor room wait seen count p q r s ph = record {
  clinic = record {
    doctor_status = sleeping;
    patient_queue = room;
    all_patients_done = false;
    waiting_pharmacists = wait;
    patients_treated = seen;
    medicine_count = count;
    medicine_status = none;
  };
  doctor = doctor;
  patients = p ∷ q ∷ r ∷ s ∷ [];
  pharmacists = ph ∷ [];
}

abbrev scene_0 : System
scene_0 =
    stage beginning (slots 0 0 none none none none) 0 0 (pos 6) (person arriving coming)
      (person arriving coming) (person arriving coming) (person arriving coming) travelling

abbrev scene_1 : System
scene_1 =
    stage beginning (slots 0 0 none none none none) 0 0 (pos 6) (person arriving looping)
      (person arriving coming) (person arriving coming) (person arriving coming) travelling

abbrev scene_2 : System
scene_2 =
    stage beginning (slots 0 0 none none none none) 0 0 (pos 6) (person arriving adding)
      (person arriving coming) (person arriving coming) (person arriving coming) travelling

abbrev scene_3 : System
scene_3 =
    stage beginning (slots 0 2 (some 0) none none none) 0 0 (pos 6) (person arriving admitted)
      (person arriving coming) (person arriving coming) (person arriving coming) travelling

abbrev scene_4 : System
scene_4 =
    stage beginning (slots 0 2 (some 0) none none none) 0 0 (pos 6) (person arriving admitted)
      (person arriving looping) (person arriving coming) (person arriving coming) travelling

abbrev scene_5 : System
scene_5 =
    stage beginning (slots 0 2 (some 0) none none none) 0 0 (pos 6) (person arriving admitted)
      (person arriving adding) (person arriving coming) (person arriving coming) travelling

abbrev scene_6 : System
scene_6 =
    stage beginning (slots 0 1 (some 0) none (some 1) none) 0 0 (pos 6) (person arriving admitted)
      (person arriving admitted) (person arriving coming) (person arriving coming) travelling

abbrev scene_7 : System
scene_7 =
    stage asleep (slots 0 1 (some 0) none (some 1) none) 0 0 (pos 6) (person arriving admitted)
      (person arriving admitted) (person arriving coming) (person arriving coming) travelling

abbrev scene_8 : System
scene_8 =
    stage watching (slots 0 1 (some 0) none (some 1) none) 0 0 (pos 6) (person arriving admitted)
      (person arriving admitted) (person arriving coming) (person arriving coming) travelling

abbrev scene_9 : System
scene_9 =
    stage (comparing (pos 6) 0) (slots 0 1 (some 0) none (some 1) none) 0 0 (pos 6)
      (person arriving admitted) (person arriving admitted) (person arriving coming)
      (person arriving coming) travelling

abbrev scene_10 : System
scene_10 =
    stage (popping []) (slots 0 1 (some 0) none (some 1) none) 0 0 (pos 6)
      (person arriving admitted) (person arriving admitted) (person arriving coming)
      (person arriving coming) travelling

abbrev scene_11 : System
scene_11 =
    stage (popping (some 0 ∷ [])) (slots 2 1 none none (some 1) none) 0 0 (pos 6)
      (person arriving admitted) (person arriving admitted) (person arriving coming)
      (person arriving coming) travelling

abbrev scene_12 : System
scene_12 =
    stage (popping (some 0 ∷ some 1 ∷ [])) (slots 1 1 none none none none) 0 0 (pos 6)
      (person arriving admitted) (person arriving admitted) (person arriving coming)
      (person arriving coming) travelling

abbrev scene_13 : System
scene_13 =
    stage (locking (some 0 ∷ some 1 ∷ [])) (slots 1 1 none none none none) 0 0 (pos 6)
      (person arriving admitted) (person arriving admitted) (person arriving coming)
      (person arriving coming) travelling

abbrev scene_14 : System
scene_14 =
    stage (using (some 0 ∷ some 1 ∷ [])) (slots 1 1 none none none none) 0 0 (pos 6)
      (person arriving admitted) (person arriving admitted) (person arriving coming)
      (person arriving coming) travelling

abbrev scene_15 : System
scene_15 =
    stage (treating (some 0 ∷ some 1 ∷ [])) (slots 1 1 none none none none) 0 0 (pos 3)
      (person arriving admitted) (person arriving admitted) (person arriving coming)
      (person arriving coming) travelling

abbrev scene_16 : System
scene_16 =
    stage (visiting 0 (some 1 ∷ [])) (slots 1 1 none none none none) 0 0 (pos 3)
      (person treatment admitted) (person arriving admitted) (person arriving coming)
      (person arriving coming) travelling

abbrev scene_17 : System
scene_17 =
    stage (treating (some 1 ∷ [])) (slots 1 1 none none none none) 0 1 (pos 3)
      (person gone admitted) (person arriving admitted) (person arriving coming)
      (person arriving coming) travelling

abbrev scene_18 : System
scene_18 =
    stage (visiting 1 ([])) (slots 1 1 none none none none) 0 1 (pos 3) (person gone admitted)
      (person treatment admitted) (person arriving coming) (person arriving coming) travelling

abbrev scene_19 : System
scene_19 =
    stage (treating ([])) (slots 1 1 none none none none) 0 2 (pos 3) (person gone admitted)
      (person gone admitted) (person arriving coming) (person arriving coming) travelling

abbrev scene_20 : System
scene_20 =
    stage beginning (slots 1 1 none none none none) 0 2 (pos 3) (person gone admitted)
      (person gone admitted) (person arriving coming) (person arriving coming) travelling

abbrev scene_21 : System
scene_21 =
    stage beginning (slots 1 1 none none none none) 0 2 (pos 3) (person gone admitted)
      (person gone admitted) (person arriving looping) (person arriving coming) travelling

abbrev scene_22 : System
scene_22 =
    stage beginning (slots 1 1 none none none none) 0 2 (pos 3) (person gone admitted)
      (person gone admitted) (person arriving adding) (person arriving coming) travelling

abbrev scene_23 : System
scene_23 =
    stage beginning (slots 1 3 none (some 2) none none) 0 2 (pos 3) (person gone admitted)
      (person gone admitted) (person arriving admitted) (person arriving coming) travelling

abbrev scene_24 : System
scene_24 =
    stage beginning (slots 1 3 none (some 2) none none) 0 2 (pos 3) (person gone admitted)
      (person gone admitted) (person arriving admitted) (person arriving looping) travelling

abbrev scene_25 : System
scene_25 =
    stage beginning (slots 1 3 none (some 2) none none) 0 2 (pos 3) (person gone admitted)
      (person gone admitted) (person arriving admitted) (person arriving adding) travelling

abbrev scene_26 : System
scene_26 =
    stage beginning (slots 1 2 none (some 2) none (some 3)) 0 2 (pos 3) (person gone admitted)
      (person gone admitted) (person arriving admitted) (person arriving admitted) travelling

abbrev scene_27 : System
scene_27 =
    stage asleep (slots 1 2 none (some 2) none (some 3)) 0 2 (pos 3) (person gone admitted)
      (person gone admitted) (person arriving admitted) (person arriving admitted) travelling

abbrev scene_28 : System
scene_28 =
    stage watching (slots 1 2 none (some 2) none (some 3)) 0 2 (pos 3) (person gone admitted)
      (person gone admitted) (person arriving admitted) (person arriving admitted) travelling

abbrev scene_29 : System
scene_29 =
    stage (comparing (pos 3) 0) (slots 1 2 none (some 2) none (some 3)) 0 2 (pos 3)
      (person gone admitted) (person gone admitted) (person arriving admitted)
      (person arriving admitted) travelling

abbrev scene_30 : System
scene_30 =
    stage (popping []) (slots 1 2 none (some 2) none (some 3)) 0 2 (pos 3) (person gone admitted)
      (person gone admitted) (person arriving admitted) (person arriving admitted) travelling

abbrev scene_31 : System
scene_31 =
    stage (popping (some 2 ∷ [])) (slots 3 2 none none none (some 3)) 0 2 (pos 3)
      (person gone admitted) (person gone admitted) (person arriving admitted)
      (person arriving admitted) travelling

abbrev scene_32 : System
scene_32 =
    stage (popping (some 2 ∷ some 3 ∷ [])) (slots 2 2 none none none none) 0 2 (pos 3)
      (person gone admitted) (person gone admitted) (person arriving admitted)
      (person arriving admitted) travelling

abbrev scene_33 : System
scene_33 =
    stage (locking (some 2 ∷ some 3 ∷ [])) (slots 2 2 none none none none) 0 2 (pos 3)
      (person gone admitted) (person gone admitted) (person arriving admitted)
      (person arriving admitted) travelling

abbrev scene_34 : System
scene_34 =
    stage (using (some 2 ∷ some 3 ∷ [])) (slots 2 2 none none none none) 0 2 (pos 3)
      (person gone admitted) (person gone admitted) (person arriving admitted)
      (person arriving admitted) travelling

abbrev scene_35 : System
scene_35 =
    stage (treating (some 2 ∷ some 3 ∷ [])) (slots 2 2 none none none none) 0 2 (pos 0)
      (person gone admitted) (person gone admitted) (person arriving admitted)
      (person arriving admitted) travelling

abbrev scene_36 : System
scene_36 =
    stage (visiting 2 (some 3 ∷ [])) (slots 2 2 none none none none) 0 2 (pos 0)
      (person gone admitted) (person gone admitted) (person treatment admitted)
      (person arriving admitted) travelling

abbrev scene_37 : System
scene_37 =
    stage (treating (some 3 ∷ [])) (slots 2 2 none none none none) 0 3 (pos 0)
      (person gone admitted) (person gone admitted) (person gone admitted)
      (person arriving admitted) travelling

abbrev scene_38 : System
scene_38 =
    stage (visiting 3 ([])) (slots 2 2 none none none none) 0 3 (pos 0) (person gone admitted)
      (person gone admitted) (person gone admitted) (person treatment admitted) travelling

abbrev scene_39 : System
scene_39 =
    stage (treating ([])) (slots 2 2 none none none none) 0 4 (pos 0) (person gone admitted)
      (person gone admitted) (person gone admitted) (person gone admitted) travelling

abbrev scene_40 : System
scene_40 =
    stage beginning (slots 2 2 none none none none) 0 4 (pos 0) (person gone admitted)
      (person gone admitted) (person gone admitted) (person gone admitted) travelling

abbrev scene_41 : System
scene_41 =
    stage asleep (slots 2 2 none none none none) 0 4 (pos 0) (person gone admitted)
      (person gone admitted) (person gone admitted) (person gone admitted) travelling

abbrev scene_42 : System
scene_42 =
    stage asleep (slots 2 2 none none none none) 0 4 (pos 0) (person gone admitted)
      (person gone admitted) (person gone admitted) (person gone admitted) arrived

abbrev scene_43 : System
scene_43 =
    stage watching (slots 2 2 none none none none) 0 4 (pos 0) (person gone admitted)
      (person gone admitted) (person gone admitted) (person gone admitted) arrived

abbrev scene_44 : System
scene_44 =
    stage watching (slots 2 2 none none none none) 1 4 (pos 0) (person gone admitted)
      (person gone admitted) (person gone admitted) (person gone admitted) knocking

-- The first two patients are let in.
first_pair_in : Reach (initial 4 1) scene_6
unfolding own_step queue_add queue_is_full queue_is_empty queue_pop queue_count holds_queue
    cabinet_free holds_cabinet decide present inspect is_full clinic_init queue_init
first_pair_in =
    then_step scene_5 scene_6
      (then_step scene_4 scene_5
        (then_step scene_3 scene_4
          (then_step scene_2 scene_3
            (then_step scene_1 scene_2
              (then_step scene_0 scene_1 (start)
                (alone scene_0 0 (person arriving coming) (person arriving looping) refl refl))
              (alone scene_1 0 (person arriving looping) (person arriving adding) refl refl))
            (try_to_enter scene_2 0 (person arriving adding) refl refl refl))
          (alone scene_3 1 (person arriving coming) (person arriving looping) refl refl))
        (alone scene_4 1 (person arriving looping) (person arriving adding) refl refl))
      (try_to_enter scene_5 1 (person arriving adding) refl refl refl)

-- The doctor takes them out.
first_pair_out : Reach (initial 4 1) scene_13
unfolding own_step queue_add queue_is_full queue_is_empty queue_pop queue_count holds_queue
    cabinet_free holds_cabinet decide present inspect is_full clinic_init queue_init
first_pair_out =
    then_step scene_12 scene_13
      (then_step scene_11 scene_12
        (then_step scene_10 scene_11
          (then_step scene_9 scene_10
            (then_step scene_8 scene_9
              (then_step scene_7 scene_8
                (then_step scene_6 scene_7 (first_pair_in) (begin scene_6 refl))
                (wake_up scene_7 refl))
              (read_cabinet scene_8 refl refl refl))
            (compare_counts scene_9 (pos 6) 0 refl))
          (take_out scene_10 ([]) refl refl refl))
        (take_out scene_11 (some 0 ∷ []) refl refl refl))
      (close_room scene_12 (some 0 ∷ some 1 ∷ []) refl refl)

-- The doctor sees them off.
first_round : Reach (initial 4 1) scene_20
unfolding own_step queue_add queue_is_full queue_is_empty queue_pop queue_count holds_queue
    cabinet_free holds_cabinet decide present inspect is_full clinic_init queue_init
first_round =
    then_step scene_19 scene_20
      (then_step scene_18 scene_19
        (then_step scene_17 scene_18
          (then_step scene_16 scene_17
            (then_step scene_15 scene_16
              (then_step scene_14 scene_15
                (then_step scene_13 scene_14 (first_pair_out)
                  (lock_room scene_13 (some 0 ∷ some 1 ∷ []) refl))
                (use_medicine scene_14 (some 0 ∷ some 1 ∷ []) refl refl))
              (treat scene_15 0 (some 1 ∷ []) refl))
            (dismiss scene_16 0 (some 1 ∷ []) refl))
          (treat scene_17 1 ([]) refl))
        (dismiss scene_18 1 ([]) refl))
      (finish_round scene_19 refl)

-- The next two are let in.
second_pair_in : Reach (initial 4 1) scene_26
unfolding own_step queue_add queue_is_full queue_is_empty queue_pop queue_count holds_queue
    cabinet_free holds_cabinet decide present inspect is_full clinic_init queue_init
second_pair_in =
    then_step scene_25 scene_26
      (then_step scene_24 scene_25
        (then_step scene_23 scene_24
          (then_step scene_22 scene_23
            (then_step scene_21 scene_22
              (then_step scene_20 scene_21 (first_round)
                (alone scene_20 2 (person arriving coming) (person arriving looping) refl refl))
              (alone scene_21 2 (person arriving looping) (person arriving adding) refl refl))
            (try_to_enter scene_22 2 (person arriving adding) refl refl refl))
          (alone scene_23 3 (person arriving coming) (person arriving looping) refl refl))
        (alone scene_24 3 (person arriving looping) (person arriving adding) refl refl))
      (try_to_enter scene_25 3 (person arriving adding) refl refl refl)

-- The doctor takes them out.
second_pair_out : Reach (initial 4 1) scene_33
unfolding own_step queue_add queue_is_full queue_is_empty queue_pop queue_count holds_queue
    cabinet_free holds_cabinet decide present inspect is_full clinic_init queue_init
second_pair_out =
    then_step scene_32 scene_33
      (then_step scene_31 scene_32
        (then_step scene_30 scene_31
          (then_step scene_29 scene_30
            (then_step scene_28 scene_29
              (then_step scene_27 scene_28
                (then_step scene_26 scene_27 (second_pair_in) (begin scene_26 refl))
                (wake_up scene_27 refl))
              (read_cabinet scene_28 refl refl refl))
            (compare_counts scene_29 (pos 3) 0 refl))
          (take_out scene_30 ([]) refl refl refl))
        (take_out scene_31 (some 2 ∷ []) refl refl refl))
      (close_room scene_32 (some 2 ∷ some 3 ∷ []) refl refl)

-- The doctor sees them off; nothing is left in the cabinet.
second_round : Reach (initial 4 1) scene_40
unfolding own_step queue_add queue_is_full queue_is_empty queue_pop queue_count holds_queue
    cabinet_free holds_cabinet decide present inspect is_full clinic_init queue_init
second_round =
    then_step scene_39 scene_40
      (then_step scene_38 scene_39
        (then_step scene_37 scene_38
          (then_step scene_36 scene_37
            (then_step scene_35 scene_36
              (then_step scene_34 scene_35
                (then_step scene_33 scene_34 (second_pair_out)
                  (lock_room scene_33 (some 2 ∷ some 3 ∷ []) refl))
                (use_medicine scene_34 (some 2 ∷ some 3 ∷ []) refl refl))
              (treat scene_35 2 (some 3 ∷ []) refl))
            (dismiss scene_36 2 (some 3 ∷ []) refl))
          (treat scene_37 3 ([]) refl))
        (dismiss scene_38 3 ([]) refl))
      (finish_round scene_39 refl)

-- The doctor is awake again when the pharmacist finds the cabinet empty.
both_wait : Reach (initial 4 1) scene_44
unfolding own_step queue_add queue_is_full queue_is_empty queue_pop queue_count holds_queue
    cabinet_free holds_cabinet decide present inspect is_full clinic_init queue_init
both_wait =
    then_step scene_43 scene_44
      (then_step scene_42 scene_43
        (then_step scene_41 scene_42
          (then_step scene_40 scene_41 (second_round) (begin scene_40 refl))
          (travel scene_41 0 refl))
        (wake_up scene_42 refl))
      (enter scene_43 0 refl refl)

-- The state in which both wait for ever, reached from the start.
scene_44-IsLocked : IsLocked 0 4 scene_44
scene_44-IsLocked = record {
  doctor_waits = refl;
  day_on = refl;
  pharmacist_waits = refl;
  so_far = refl;
}

Reach-IsLocked_example :
    (scene_44.doctor ≡ watching)
    × (get_elem? scene_44.pharmacists 0 ≡ some knocking)
    × (scene_44.clinic.patients_treated ≡ 4)
Reach-IsLocked_example = Reach-IsLocked 0 4 scene_44 scene_44 scene_44-IsLocked start
