-- ===== src/Clinic/Medicine.antt =====
-- What the medicine cabinet of lab9/src holds while the threads run.
use cs_os.Prelude.{◌≡◌, ◌⊎◌, ℤ, pos}
use cs_os.Clinic.System.{Clinic, DoctorPhase, comparing, popping, locking, using, System}

-- Full, used once, or used twice.
abbrev pub IsLevel : ℤ → Type 0
IsLevel count = (count ≡ pos 6) ⊎ (count ≡ pos 3) ⊎ (count ≡ pos 0)

-- What the doctor knows of the cabinet: what was read is still true, and it is enough from the
-- moment on at which the doctor turns to the patients to the use.
abbrev pub Knows : DoctorPhase → ℤ → Type 0
Knows (comparing med pharm) count = med ≡ count
Knows (popping ps) count = (count ≡ pos 6) ⊎ (count ≡ pos 3)
Knows (locking ps) count = (count ≡ pos 6) ⊎ (count ≡ pos 3)
Knows (using ps) count = (count ≡ pos 6) ⊎ (count ≡ pos 3)
Knows _ count = Unit

record IsStocked (s : System) : Type 0 where
  level : IsLevel s.clinic.medicine_count
  knows : Knows s.doctor s.clinic.medicine_count
