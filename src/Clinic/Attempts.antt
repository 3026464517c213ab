-- ===== src/Clinic/Attempts.antt =====
-- How often a patient of lab9/src/patient.c comes, and when main lets the doctor go.
use cs_os.Prelude.{ℕ, ◌≤◌, ◌≡◌, some, List, get_elem?}
use cs_os.Clinic.System.{Clinic, PatientPhase, walked, ended, Patient, System}

-- A patient who comes in has not come too often; one who walks, or has gone, may have done so once
-- more.
abbrev pub most : PatientPhase → ℕ
most walked = 17
most ended = 17
most _ = 16

abbrev pub IsPatient : Patient → Type 0
IsPatient p = p.visit_attempts ≤ most p.phase

abbrev pub Everyone : List Patient → Type 0
Everyone ps = (n : ℕ) (p : Patient) → get_elem? ps n ≡ some p → IsPatient p
