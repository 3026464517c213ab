-- ===== src/Clinic/System.antt =====
-- The threads of the clinic: lab9/src/doctor.c, patient.c, pharmacist.c, clinic.c and the end of
-- main.c: what they share, and where each can stand. A step is an access to what the threads share,
-- or a section under a mutex that takes no other mutex. `pthread_cond_wait` may return at any time,
-- as POSIX allows; a signal adds nothing to that. Sleeps, random times and output are left out. The
-- doctor's mutex and the cabinet's are held in the phases that `holds_doctor` and `holds_cabinet`
-- name, the queue's in those that `holds_queue` names.
use cs_os.Prelude.{
  ℕ, ◌+◌, ◌≡◌, Bool, true, false, ◌&&◌, not, Option, none, some, List, [], ◌∷◌, ◌==◌, ltb,
  if◌then◌else◌, ℤ, pos, minus_one, sub_ℕ, ltb_ℤ, eq_ℤ, pos_part, neg_part,
}
use cs_os.Clinic.Queue.{PatientQueue, queue_init, queue_add, clinic_queue_size}

abbrev pub medicine_cabinet_capacity : ℕ
medicine_cabinet_capacity = 6

abbrev pub min_medicine_required : ℕ
min_medicine_required = 3

abbrev pub max_visit_retries : ℕ
max_visit_retries = 16

pub data PatientStatus : Type 0 where
  arriving walking queue treatment gone : PatientStatus

pub data DoctorStatus : Type 0 where
  sleeping treating_patients accepting_pharmacy : DoctorStatus

pub data MedicineStatus : Type 0 where
  in_delivery received : MedicineStatus

-- What the threads share but for the patients. `medicine_status` is not set before the first
-- delivery.
pub record Clinic : Type 0 where
  pub doctor_status : DoctorStatus
  pub patient_queue : PatientQueue
  pub all_patients_done : Bool
  pub waiting_pharmacists : ℕ
  pub patients_treated : ℕ
  pub medicine_count : ℤ
  pub medicine_status : Option MedicineStatus

unfoldable pub clinic_init : Clinic
clinic_init = record {
  doctor_status = sleeping;
  patient_queue = queue_init;
  all_patients_done = false;
  waiting_pharmacists = 0;
  patients_treated = 0;
  medicine_count = pos medicine_cabinet_capacity;
  medicine_status = none;
}

-- `a - n` on an `int`.
abbrev pub minus : ℤ → ℕ → ℤ
minus a n = sub_ℕ (pos_part a) (neg_part a + n)

-- Where `patient_thread_routine` is: before the hospital, at the loop's condition, at `queue_add`,
-- after a refusal, after the walk, after an admission, at `queue_count`, at the test of the count,
-- at the inner loop's condition, in its sleep, in the loop on the treatment, behind the inner loop,
-- or at its end.
pub data PatientPhase : Type 0 where
  coming looping adding refused walked admitted counting : PatientPhase
  deciding : ℕ → PatientPhase
  staying dozing treated leaving ended : PatientPhase

pub record Patient : Type 0 where
  pub status : PatientStatus
  pub visit_attempts : ℕ
  pub phase : PatientPhase

-- `patient_init`
abbrev pub patient_init : Patient
patient_init = record { status = arriving; visit_attempts = 0; phase = coming }

-- Where `doctor_thread_routine` is: at the outer loop, in `pthread_cond_wait`, at the inner loop,
-- after it has read the cabinet, in the loop that empties the queue, before and after it has taken
-- the queue's mutex, at the next patient, with a patient, before and after the status of an
-- acceptance, or at its end.
pub data DoctorPhase : Type 0 where
  beginning asleep watching : DoctorPhase
  comparing : ℤ → ℕ → DoctorPhase
  popping : List (Option ℕ) → DoctorPhase
  locking using : List (Option ℕ) → DoctorPhase
  treating : List (Option ℕ) → DoctorPhase
  visiting : ℕ → List (Option ℕ) → DoctorPhase
  accepting stocking resting : DoctorPhase

-- Where `pharmacist_thread_routine` is: at its loop, on its way to the cabinet, waiting for it to
-- be emptied, at the doctor's mutex, before and in the wait for the delivery, or at its end.
pub data PharmacistPhase : Type 0 where
  travelling arrived pausing knocking delivering awaiting home : PharmacistPhase

pub record System : Type 0 where
  pub clinic : Clinic
  pub doctor : DoctorPhase
  pub patients : List Patient
  pub pharmacists : List PharmacistPhase

unfoldable pub holds_doctor : DoctorPhase → Bool
holds_doctor watching = true
holds_doctor (comparing med pharm) = true
holds_doctor _ = false

unfoldable pub holds_queue : DoctorPhase → Bool
holds_queue (using ps) = true
holds_queue (treating ps) = true
holds_queue (visiting p ps) = true
holds_queue _ = false

unfoldable pub holds_cabinet : PharmacistPhase → Bool
holds_cabinet knocking = true
holds_cabinet _ = false

-- Nobody has the cabinet's mutex.
unfoldable pub cabinet_free : List PharmacistPhase → Bool
unfolding holds_cabinet
cabinet_free [] = true
cabinet_free (p ∷ ps) = not (holds_cabinet p) && cabinet_free ps

-- The number of patients that were taken out, NULLs not counted.
unfoldable pub present : List (Option ℕ) → ℕ
present [] = 0
present (none ∷ ps) = present ps
present (some p ∷ ps) = present ps + 1

-- The inner loop's choice of `waking_mode`, from its three readings.
unfoldable pub decide : ℕ → ℤ → ℕ → DoctorPhase
decide patient_count med_count pharm_waiting =
    if (patient_count == clinic_queue_size) && not (ltb_ℤ med_count (pos min_medicine_required))
    then popping []
    else if ltb 0 pharm_waiting && ltb_ℤ med_count (pos min_medicine_required)
    then accepting
    else watching

abbrev pub set_status : PatientStatus → Patient → Patient
set_status status p = record p { status = status }

abbrev pub set_phase : PatientPhase → Patient → Patient
set_phase phase p = record p { phase = phase }

-- `patient_waiting_walk`
abbrev pub walk : Patient → Patient
walk p = record { status = walking; visit_attempts = p.visit_attempts + 1; phase = walked }

abbrev pub go_home : Patient → Patient
go_home p = record p { status = gone; phase = ended }

-- After a walk: another attempt, or `patient_leave_without_visit`.
abbrev pub retry : Patient → Patient
retry p = if ltb max_visit_retries p.visit_attempts then go_home p else set_phase looping p

abbrev pub is_queue : PatientStatus → Bool
is_queue queue = true
is_queue _ = false

abbrev pub is_treatment : PatientStatus → Bool
is_treatment treatment = true
is_treatment _ = false

abbrev pub is_gone : PatientStatus → Bool
is_gone gone = true
is_gone _ = false

-- The pharmacist with the cabinet's mutex, at the test of the count against the least that is
-- required.
unfoldable pub inspect : Clinic → PharmacistPhase × Clinic
inspect c =
    if ltb_ℤ c.medicine_count (pos min_medicine_required)
    then (knocking, record c { waiting_pharmacists = c.waiting_pharmacists + 1 })
    else (travelling, c)

unfoldable pub is_full : Clinic → Bool
is_full c = not (ltb_ℤ c.medicine_count (pos medicine_cabinet_capacity))

abbrev pub is_in_delivery : Option MedicineStatus → Bool
is_in_delivery (some in_delivery) = true
is_in_delivery _ = false

-- The queue after `queue_add` of a patient, and where the patient goes on.
abbrev pub try_room : Clinic → ℕ → PatientPhase × Clinic
try_room c n =
    let (result, room) = queue_add c.patient_queue (some n) in
    (if eq_ℤ result minus_one then refused else admitted, record c { patient_queue = room })

-- The pharmacist who has got the cabinet's mutex, first and again.
abbrev pub enter_cabinet : Clinic → PharmacistPhase × Clinic
enter_cabinet c = if is_full c then (pausing, c) else inspect c

abbrev pub look_again : Clinic → PharmacistPhase × Clinic
look_again c =
    if c.all_patients_done then (home, c) else if is_full c then (pausing, c) else inspect c

-- Every patient's thread is at its end.
abbrev pub AllEnded : List Patient → Type 0
AllEnded [] = Unit
AllEnded (p ∷ ps) = (p.phase ≡ ended) × AllEnded ps

-- What one patient does to itself.
unfoldable pub own_step : Patient → Option Patient
own_step p = elim p.phase [
  | coming ↦ some (record p { status = arriving; phase = looping })
  | looping ↦ some (if is_gone p.status then go_home p else set_phase adding p)
  | refused ↦ some (walk p)
  | walked ↦ some (retry p)
  | admitted ↦ some (record p { status = queue; phase = counting })
  | staying ↦ some (set_phase (if is_queue p.status then dozing else leaving) p)
  | dozing ↦ some (set_phase (if is_treatment p.status then treated else staying) p)
  | treated ↦ some (if is_treatment p.status then p else go_home p)
  | leaving ↦ some (if is_gone p.status then go_home p else set_phase looping p)
  | _ ↦ none
]
