-- ===== src/Clinic/Steps.antt =====
-- The steps of the clinic's threads: doctor_thread_routine, patient_thread_routine and
-- pharmacist_thread_routine of lab9/src, and the end of main.c.
use cs_os.Prelude.{
  ℕ, ◌+◌, true, false, Option, none, some, List, [], ◌∷◌, ◌++◌, ◌==◌, if◌then◌else◌, take,
  get_elem?, modify, replicate, ℤ, pos, ltb, leb, length, ◌&&◌, ◌≡◌, Bool-cases, inl, inr,
}
use cs_os.Clinic.Queue.{queue_is_empty, queue_pop, queue_count, clinic_queue_size}
use cs_os.Clinic.System.{
  medicine_cabinet_capacity, min_medicine_required, treatment, gone, sleeping, accepting_pharmacy,
  in_delivery, received, clinic_init, minus, adding, counting, deciding, staying, Patient,
  patient_init, beginning, asleep, watching, comparing, popping, locking, using, treating, visiting,
  accepting, stocking, resting, travelling, arrived, pausing, knocking, delivering, awaiting, home,
  System, holds_doctor, holds_queue, cabinet_free, present, decide, set_status, set_phase,
  is_in_delivery, try_room, enter_cabinet, look_again, AllEnded, own_step,
}

-- One step of one thread: of the patient `n`, the doctor, the pharmacist `n`, or of main.
pub data Step : System → System → Type 0 where
  alone :
      (s : System) (n : ℕ) (p q : Patient)
      → get_elem? s.patients n ≡ some p
      → own_step p ≡ some q
      → Step s (record s { patients = modify s.patients n (λ _. q) })
  try_to_enter :
      (s : System) (n : ℕ) (p : Patient)
      → get_elem? s.patients n ≡ some p
      → p.phase ≡ adding
      → holds_queue s.doctor ≡ false
      → Step s (record s {
        clinic = (try_room s.clinic n).1;
        patients = modify s.patients n (set_phase (try_room s.clinic n).0);
      })
  count_room :
      (s : System) (n : ℕ) (p : Patient)
      → get_elem? s.patients n ≡ some p
      → p.phase ≡ counting
      → holds_queue s.doctor ≡ false
      → Step s (record s {
        patients = modify s.patients n (set_phase (deciding (queue_count s.clinic.patient_queue)));
      })
  -- The doctor's mutex is taken where the room is full and the doctor sleeps.
  wake_doctor :
      (s : System) (n k : ℕ) (p : Patient)
      → get_elem? s.patients n ≡ some p
      → p.phase ≡ deciding k
      → (k ≡ clinic_queue_size → s.clinic.doctor_status ≡ sleeping → holds_doctor s.doctor ≡ false)
      → Step s (record s { patients = modify s.patients n (set_phase staying) })
  begin :
      (s : System)
      → s.doctor ≡ beginning
      → Step s (
          if s.clinic.all_patients_done
          then record s { doctor = resting }
          else record s { clinic = record s.clinic { doctor_status = sleeping }; doctor = asleep })
  wake_up : (s : System) → s.doctor ≡ asleep → Step s (record s { doctor = watching })
  give_over :
      (s : System)
      → s.doctor ≡ watching
      → s.clinic.all_patients_done ≡ true
      → Step s (record s { doctor = beginning })
  read_cabinet :
      (s : System)
      → s.doctor ≡ watching
      → s.clinic.all_patients_done ≡ false
      → cabinet_free s.pharmacists ≡ true
      → Step s
          (record s { doctor = comparing s.clinic.medicine_count s.clinic.waiting_pharmacists })
  compare_counts :
      (s : System) (med : ℤ) (pharm : ℕ)
      → s.doctor ≡ comparing med pharm
      → Step s (record s { doctor = decide (queue_count s.clinic.patient_queue) med pharm })
  -- `patients_to_treat` has three places. A fourth pop of one round, which patients who arrive
  -- between the pops make possible, would be written behind it: there the run ends.
  take_out :
      (s : System) (ps : List (Option ℕ))
      → s.doctor ≡ popping ps
      → queue_is_empty s.clinic.patient_queue ≡ false
      → ltb (length ps) clinic_queue_size ≡ true
      → Step s (record s {
        clinic = record s.clinic { patient_queue = (queue_pop s.clinic.patient_queue).1 };
        doctor = popping (ps ++ (queue_pop s.clinic.patient_queue).0 ∷ []);
      })
  close_room :
      (s : System) (ps : List (Option ℕ))
      → s.doctor ≡ popping ps
      → queue_is_empty s.clinic.patient_queue ≡ true
      → Step s (record s { doctor = locking ps })
  lock_room :
      (s : System) (ps : List (Option ℕ))
      → s.doctor ≡ locking ps
      → Step s (record s { doctor = if present ps == 0 then beginning else using ps })
  use_medicine :
      (s : System) (ps : List (Option ℕ))
      → s.doctor ≡ using ps
      → cabinet_free s.pharmacists ≡ true
      → Step s (record s {
        clinic = record s.clinic {
          medicine_count = minus s.clinic.medicine_count min_medicine_required;
        };
        doctor = treating (take (present ps) ps);
      })
  pass_over :
      (s : System) (ps : List (Option ℕ))
      → s.doctor ≡ treating (none ∷ ps)
      → Step s (record s { doctor = treating ps })
  treat :
      (s : System) (n : ℕ) (ps : List (Option ℕ))
      → s.doctor ≡ treating (some n ∷ ps)
      → Step s (record s {
        doctor = visiting n ps;
        patients = modify s.patients n (set_status treatment);
      })
  dismiss :
      (s : System) (n : ℕ) (ps : List (Option ℕ))
      → s.doctor ≡ visiting n ps
      → Step s (record s {
        clinic = record s.clinic { patients_treated = s.clinic.patients_treated + 1 };
        doctor = treating ps;
        patients = modify s.patients n (set_status gone);
      })
  finish_round : (s : System) → s.doctor ≡ treating [] → Step s (record s { doctor = beginning })
  accept :
      (s : System)
      → s.doctor ≡ accepting
      → Step s (record s {
        clinic = record s.clinic { doctor_status = accepting_pharmacy };
        doctor = stocking;
      })
  stock :
      (s : System)
      → s.doctor ≡ stocking
      → cabinet_free s.pharmacists ≡ true
      → Step s (record s {
        clinic = record s.clinic {
          medicine_count = pos medicine_cabinet_capacity;
          medicine_status = some received;
        };
        doctor = beginning;
      })
  travel :
      (s : System) (n : ℕ)
      → get_elem? s.pharmacists n ≡ some travelling
      → Step s (record s {
        pharmacists =
            modify s.pharmacists n (λ _. if s.clinic.all_patients_done then home else arrived);
      })
  enter :
      (s : System) (n : ℕ)
      → get_elem? s.pharmacists n ≡ some arrived
      → cabinet_free s.pharmacists ≡ true
      → Step s (record s {
        clinic = (enter_cabinet s.clinic).1;
        pharmacists = modify s.pharmacists n (λ _. (enter_cabinet s.clinic).0);
      })
  look :
      (s : System) (n : ℕ)
      → get_elem? s.pharmacists n ≡ some pausing
      → cabinet_free s.pharmacists ≡ true
      → Step s (record s {
        clinic = (look_again s.clinic).1;
        pharmacists = modify s.pharmacists n (λ _. (look_again s.clinic).0);
      })
  knock :
      (s : System) (n : ℕ)
      → get_elem? s.pharmacists n ≡ some knocking
      → holds_doctor s.doctor ≡ false
      → Step s (record s { pharmacists = modify s.pharmacists n (λ _. delivering) })
  deliver :
      (s : System) (n : ℕ)
      → get_elem? s.pharmacists n ≡ some delivering
      → cabinet_free s.pharmacists ≡ true
      → Step s (record s {
        clinic = record s.clinic { medicine_status = some in_delivery };
        pharmacists = modify s.pharmacists n (λ _. awaiting);
      })
  hand_over :
      (s : System) (n : ℕ)
      → get_elem? s.pharmacists n ≡ some awaiting
      → cabinet_free s.pharmacists ≡ true
      → is_in_delivery s.clinic.medicine_status ≡ false
      → Step s (record s { pharmacists = modify s.pharmacists n (λ _. travelling) })
  -- `clinic_signal_patients_done`, after the patients' threads have been joined.
  announce :
      (s : System)
      → AllEnded s.patients
      → cabinet_free s.pharmacists ≡ true
      → Step s (record s { clinic = record s.clinic { all_patients_done = true } })
  release :
      (s : System)
      → s.clinic.all_patients_done ≡ true
      → cabinet_free s.pharmacists ≡ true
      → Step s (record s { clinic = record s.clinic { medicine_status = some received } })

-- Any number of steps.
pub data Reach (s : System) : System → Type 0 where
  start : Reach s s
  then_step : (s' s'' : System) → Reach s s' → Step s' s'' → Reach s s''

-- What the two loops of main that create threads leave, in arrays with room for everybody.
abbrev pub initial : ℕ → ℕ → System
initial patients_count pharmacists_count = record {
  clinic = clinic_init;
  doctor = beginning;
  patients = replicate patients_count patient_init;
  pharmacists = replicate pharmacists_count travelling;
}

-- Those loops in memory that holds this many patients and this many pharmacists: none where one of
-- them writes behind its array. The `malloc`s of main ask for a pointer's size each.
unfoldable pub start_threads :
    (room_for_patients room_for_pharmacists patients_count pharmacists_count : ℕ) → Option System
start_threads room_for_patients room_for_pharmacists patients_count pharmacists_count =
    if leb patients_count room_for_patients && leb pharmacists_count room_for_pharmacists
    then some (initial patients_count pharmacists_count)
    else none

pub start_threads-initial :
    (a b m n : ℕ) (s : System) → start_threads a b m n ≡ some s → initial m n ≡ s
unfolding start_threads
start_threads-initial a b m n s e = elim (Bool-cases (leb m a && leb n b)) [
  | inl fits ↦ cc (e, fits)
  | inr off ↦ absurd (cc (e, off))
]
