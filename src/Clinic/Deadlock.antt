-- ===== src/Clinic/Deadlock.antt =====
-- The two mutexes of lab9/src that are taken in both orders: the doctor locks its own and then the
-- cabinet's (doctor.c), a pharmacist the cabinet's and then the doctor's (pharmacist.c).
use cs_os.Prelude.{
  ℕ, zero, suc, ◌≡◌, ◌≢◌, sym, ap, subst, ◌∙◌, true, false, none, some, List, [], ◌∷◌, arith,
  get_elem?, get_elem?-modify_ne,
}
use native.Mathlib.Decide.{ℕ_discrete}
use cs_os.Clinic.Queue.{PatientQueue}
use cs_os.Clinic.System.{
  Patient, DoctorPhase, beginning, asleep, watching, comparing, popping, locking, treating,
  visiting, accepting, PharmacistPhase, travelling, knocking, System, holds_doctor, holds_cabinet,
  cabinet_free,
}
use cs_os.Clinic.Steps.{
  Step, alone, try_to_enter, count_room, wake_doctor, begin, wake_up, give_over, read_cabinet,
  compare_counts, take_out, close_room, lock_room, use_medicine, pass_over, treat, dismiss,
  finish_round, accept, stock, travel, enter, look, knock, deliver, hand_over, announce, release,
  Reach, start, then_step,
}

-- The doctor, with its own mutex, is about to take the cabinet's; the pharmacist `n`, with the
-- cabinet's, is about to take the doctor's.
pub record IsLocked (n treated : ℕ) (s : System) : Type 0 where
  pub doctor_waits : s.doctor ≡ watching
  pub day_on : s.clinic.all_patients_done ≡ false
  pub pharmacist_waits : get_elem? s.pharmacists n ≡ some knocking
  pub so_far : s.clinic.patients_treated ≡ treated

cabinet_free-knocking :
    (ps : List PharmacistPhase) (n : ℕ) → get_elem? ps n ≡ some knocking → cabinet_free ps ≢ true
unfolding cabinet_free holds_cabinet
cabinet_free-knocking [] n e f = cc
cabinet_free-knocking (p ∷ ps) zero e f = ground arith
cabinet_free-knocking (p ∷ ps) (suc n) e f = cabinet_free-knocking ps n e (ground arith)

watching-held : (d : DoctorPhase) → d ≡ watching → holds_doctor d ≢ false
watching-held d e f = unfold holds_doctor in cc (ap holds_doctor e, f)

module _ (n k : ℕ) where
  -- The doctor is nowhere else.
  doctor_elsewhere : (s : System) (d : DoctorPhase) → IsLocked n k s → watching ≢ d → s.doctor ≢ d
  doctor_elsewhere s d l ne e = ne (sym l.doctor_waits ∙ e)

  taken : (s : System) → IsLocked n k s → cabinet_free s.pharmacists ≢ true
  taken s l f = cabinet_free-knocking s.pharmacists n l.pharmacist_waits f

  -- What the patients do changes nothing here.
  patients_only :
      (s : System) (room : PatientQueue) (ps : List Patient)
      → IsLocked n k s
      → IsLocked n k (record s { clinic = record s.clinic { patient_queue = room }; patients = ps })
  patients_only s room ps l = record {
    doctor_waits = l.doctor_waits;
    day_on = l.day_on;
    pharmacist_waits = l.pharmacist_waits;
    so_far = l.so_far;
  }

  Step-IsLocked : (s s' : System) → Step s s' → IsLocked n k s → IsLocked n k s'
  Step-IsLocked _ _ (alone s m p q e o) l = patients_only s _ _ l
  Step-IsLocked _ _ (try_to_enter s m p e o f) l = patients_only s _ _ l
  Step-IsLocked _ _ (count_room s m p e o f) l = patients_only s _ _ l
  Step-IsLocked _ _ (wake_doctor s m c p e o f) l = patients_only s _ _ l
  Step-IsLocked _ _ (begin s e) l = absurd (doctor_elsewhere s beginning l (λ q. cc) e)
  Step-IsLocked _ _ (wake_up s e) l = absurd (doctor_elsewhere s asleep l (λ q. cc) e)
  Step-IsLocked _ _ (give_over s e o) l = absurd (cc (l.day_on, o))
  Step-IsLocked _ _ (read_cabinet s e o f) l = absurd (taken s l f)
  Step-IsLocked _ _ (compare_counts s med pharm e) l =
      absurd (doctor_elsewhere s (comparing med pharm) l (λ q. cc) e)
  Step-IsLocked _ _ (take_out s ps e o r) l = absurd (doctor_elsewhere s (popping ps) l (λ q. cc) e)
  Step-IsLocked _ _ (close_room s ps e o) l = absurd (doctor_elsewhere s (popping ps) l (λ q. cc) e)
  Step-IsLocked _ _ (lock_room s ps e) l = absurd (doctor_elsewhere s (locking ps) l (λ q. cc) e)
  Step-IsLocked _ _ (use_medicine s ps e f) l = absurd (taken s l f)
  Step-IsLocked _ _ (pass_over s ps e) l =
      absurd (doctor_elsewhere s (treating (none ∷ ps)) l (λ q. cc) e)
  Step-IsLocked _ _ (treat s m ps e) l =
      absurd (doctor_elsewhere s (treating (some m ∷ ps)) l (λ q. cc) e)
  Step-IsLocked _ _ (dismiss s m ps e) l = absurd (doctor_elsewhere s (visiting m ps) l (λ q. cc) e)
  Step-IsLocked _ _ (finish_round s e) l = absurd (doctor_elsewhere s (treating []) l (λ q. cc) e)
  Step-IsLocked _ _ (accept s e) l = absurd (doctor_elsewhere s accepting l (λ q. cc) e)
  Step-IsLocked _ _ (stock s e f) l = absurd (taken s l f)
  Step-IsLocked _ _ (travel s m e) l = elim (ℕ_discrete m n) [
    | yes q ↦
        absurd
          (cc (subst (λ i. get_elem? s.pharmacists i ≡ some travelling) q e, l.pharmacist_waits))
    | no ne ↦ record {
      doctor_waits = l.doctor_waits;
      day_on = l.day_on;
      pharmacist_waits = get_elem?-modify_ne s.pharmacists m n _ ne ∙ l.pharmacist_waits;
      so_far = l.so_far;
    }
  ]
  Step-IsLocked _ _ (enter s m e f) l = absurd (taken s l f)
  Step-IsLocked _ _ (look s m e f) l = absurd (taken s l f)
  Step-IsLocked _ _ (knock s m e f) l = absurd (watching-held s.doctor l.doctor_waits f)
  Step-IsLocked _ _ (deliver s m e f) l = absurd (taken s l f)
  Step-IsLocked _ _ (hand_over s m e f d) l = absurd (taken s l f)
  Step-IsLocked _ _ (announce s e f) l = absurd (taken s l f)
  Step-IsLocked _ _ (release s e f) l = absurd (taken s l f)

  -- Once the doctor waits for the cabinet's mutex with its own in hand, and a pharmacist for the
  -- doctor's with the cabinet's in hand, both wait in every state that is reached from there, and
  -- nobody is treated any more.
  pub Reach-IsLocked :
      (s s' : System)
      → IsLocked n k s
      → Reach s s'
      → (s'.doctor ≡ watching)
        × (get_elem? s'.pharmacists n ≡ some knocking)
        × (s'.clinic.patients_treated ≡ k)
  Reach-IsLocked s s' l r = let h = locked s' r in (h.doctor_waits, h.pharmacist_waits, h.so_far)
    where
      locked : (s' : System) → Reach s s' → IsLocked n k s'
      locked _ start = l
      locked _ (then_step t u r st) = Step-IsLocked t u st (locked t r)
