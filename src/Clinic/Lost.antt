-- ===== src/Clinic/Lost.antt =====
-- A patient of lab9/src/patient.c who writes `status = QUEUE` after the doctor has already dealt
-- with him.
use cs_os.Prelude.{
  ℕ, zero, suc, ◌≡◌, ◌≢◌, refl, sym, ap, subst, ◌∙◌, Option, none, some, List, [], ◌∷◌, ◌++◌,
  if-keeps, ℤ, pos, ◌&&◌, ◌==◌, ltb, ltb_ℤ, not, get_elem?, get_or, set, take, modify,
  get_elem?-modify_ne, get_elem?-modify_self,
}
use native.Mathlib.Decide.{ℕ_discrete}
use cs_os.Clinic.Queue.{
  PatientQueue, queue_add, queue_pop, queue_is_full, queue_is_empty, queue_count, clinic_queue_size,
}
use cs_os.Clinic.System.{
  min_medicine_required, queue, treatment, gone, Clinic, PatientPhase, coming, looping, adding,
  refused, walked, admitted, counting, deciding, staying, dozing, treated, leaving, ended, Patient,
  DoctorPhase, beginning, watching, popping, locking, using, treating, visiting, accepting,
  PharmacistPhase, pausing, home, System, present, decide, set_status, set_phase, inspect, is_full,
  enter_cabinet, look_again, AllEnded, own_step,
}
use cs_os.Clinic.Steps.{
  Step, alone, try_to_enter, count_room, wake_doctor, begin, wake_up, give_over, read_cabinet,
  compare_counts, take_out, close_room, lock_room, use_medicine, pass_over, treat, dismiss,
  finish_round, accept, stock, travel, enter, look, knock, deliver, hand_over, announce, release,
  Reach, start, then_step,
}

-- The patient is not among these.
abbrev pub NotIn : ℕ → List (Option ℕ) → Type 0
NotIn n [] = Unit
NotIn n (p ∷ ps) = (p ≢ some n) × NotIn n ps

-- The doctor has not taken the patient out, or has dealt with him.
abbrev pub NotHeld : ℕ → DoctorPhase → Type 0
NotHeld n (popping ps) = NotIn n ps
NotHeld n (locking ps) = NotIn n ps
NotHeld n (using ps) = NotIn n ps
NotHeld n (treating ps) = NotIn n ps
NotHeld n (visiting m ps) = (m ≢ n) × NotIn n ps
NotHeld n _ = Unit

-- Behind the write of the status, and before anything else is written.
abbrev pub Stays : PatientPhase → Type 0
Stays counting = Unit
Stays (deciding k) = Unit
Stays staying = Unit
Stays dozing = Unit
Stays _ = ⊥

-- The patient `n` waits for the doctor, and is neither in the room nor with the doctor.
pub record IsLost (n : ℕ) (s : System) : Type 0 where
  pub waits :
      (p : Patient) × (get_elem? s.patients n ≡ some p) × ((p.status ≡ queue) × Stays p.phase)
  pub not_in_room : NotIn n s.clinic.patient_queue.queue_array
  pub not_held : NotHeld n s.doctor

NotIn-append : (n : ℕ) (ps qs : List (Option ℕ)) → NotIn n ps → NotIn n qs → NotIn n (ps ++ qs)
NotIn-append n [] qs a b = b
NotIn-append n (p ∷ ps) qs a b = (a.0, NotIn-append n ps qs a.1 b)

NotIn-set :
    (n : ℕ) (ps : List (Option ℕ)) (i : ℕ) (q : Option ℕ)
    → NotIn n ps
    → q ≢ some n
    → NotIn n (set ps i q)
NotIn-set n [] i q a b = tt
NotIn-set n (p ∷ ps) zero q a b = (b, a.1)
NotIn-set n (p ∷ ps) (suc i) q a b = (a.0, NotIn-set n ps i q a.1 b)

NotIn-get_or : (n : ℕ) (ps : List (Option ℕ)) (i : ℕ) → NotIn n ps → get_or ps i none ≢ some n
NotIn-get_or n [] i a e = cc
NotIn-get_or n (p ∷ ps) zero a e = a.0 e
NotIn-get_or n (p ∷ ps) (suc i) a e = NotIn-get_or n ps i a.1 e

NotIn-take : (n k : ℕ) (ps : List (Option ℕ)) → NotIn n ps → NotIn n (take k ps)
NotIn-take n zero ps a = tt
NotIn-take n (suc k) [] a = tt
NotIn-take n (suc k) (p ∷ ps) a = (a.0, NotIn-take n k ps a.1)

NotIn-queue_add :
    (n m : ℕ) (q : PatientQueue)
    → m ≢ n
    → NotIn n q.queue_array
    → NotIn n (queue_add q (some m)).1.queue_array
unfolding queue_add
NotIn-queue_add n m q ne a =
    if-keeps (λ (r : ℤ × PatientQueue). NotIn n r.1.queue_array) (queue_is_full q) _ _ a
      (NotIn-set n q.queue_array q.tail (some m) a (λ e. ne (cc e)))

NotIn-queue_pop :
    (n : ℕ) (q : PatientQueue)
    → NotIn n q.queue_array
    → NotIn n (queue_pop q).1.queue_array × ((queue_pop q).0 ≢ some n)
unfolding queue_pop
NotIn-queue_pop n q a =
    if-keeps (λ (r : Option ℕ × PatientQueue). NotIn n r.1.queue_array × (r.0 ≢ some n))
      (queue_is_empty q) _ _ (a, λ e. cc)
      (NotIn-set n q.queue_array q.head none a (λ e. cc), NotIn-get_or n q.queue_array q.head a)

decide-NotHeld : (n k : ℕ) (med : ℤ) (pharm : ℕ) → NotHeld n (decide k med pharm)
unfolding decide
decide-NotHeld n k med pharm =
    if-keeps (NotHeld n) ((k == clinic_queue_size) && not (ltb_ℤ med (pos min_medicine_required)))
      (popping []) _ tt
      (if-keeps (NotHeld n) (ltb 0 pharm && ltb_ℤ med (pos min_medicine_required)) accepting
        watching tt tt)

-- A lost patient goes on waiting.
abbrev IsStaying : Patient → Type 0
IsStaying p = (p.status ≡ queue) × Stays p.phase

stays :
    (v : ℕ) (phase : PatientPhase) (q : Patient)
    → own_step (record { status = queue; visit_attempts = v; phase = phase }) ≡ some q
    → Stays phase
    → IsStaying q
unfolding own_step
stays v counting q o st = absurd (cc o)
stays v (deciding k) q o st = absurd (cc o)
stays v staying q o st =
    let same : record { status = queue; visit_attempts = v; phase = dozing } ≡ q = cc o in
    subst IsStaying same (refl, tt)
stays v dozing q o st =
    let same : record { status = queue; visit_attempts = v; phase = staying } ≡ q = cc o in
    subst IsStaying same (refl, tt)
stays v coming q o st = absurd st
stays v looping q o st = absurd st
stays v adding q o st = absurd st
stays v refused q o st = absurd st
stays v walked q o st = absurd st
stays v admitted q o st = absurd st
stays v treated q o st = absurd st
stays v leaving q o st = absurd st
stays v ended q o st = absurd st

own_step-IsStaying : (p q : Patient) → own_step p ≡ some q → IsStaying p → IsStaying q
own_step-IsStaying p q o (e, st) =
    stays p.visit_attempts p.phase q
      (subst
        (λ status.
          own_step (record { status = status; visit_attempts = p.visit_attempts; phase = p.phase })
          ≡ some q)
        e o)
      st

inspect-room : (c : Clinic) → (inspect c).1.patient_queue ≡ c.patient_queue
unfolding inspect
inspect-room c =
    if-keeps (λ (r : PharmacistPhase × Clinic). r.1.patient_queue ≡ c.patient_queue)
      (ltb_ℤ c.medicine_count (pos min_medicine_required)) _ _ refl refl

enter-room : (c : Clinic) → (enter_cabinet c).1.patient_queue ≡ c.patient_queue
enter-room c =
    if-keeps (λ (r : PharmacistPhase × Clinic). r.1.patient_queue ≡ c.patient_queue) (is_full c)
      (pausing, c) (inspect c) refl (inspect-room c)

look-room : (c : Clinic) → (look_again c).1.patient_queue ≡ c.patient_queue
look-room c =
    if-keeps (λ (r : PharmacistPhase × Clinic). r.1.patient_queue ≡ c.patient_queue)
      c.all_patients_done (home, c) (enter_cabinet c) refl (enter-room c)

module _ (n : ℕ) where
  -- The patient, in the list.
  abbrev Waits : List Patient → Type 0
  Waits ps = (p : Patient) × (get_elem? ps n ≡ some p) × IsStaying p

  -- Another patient changes.
  Waits-other :
      (ps : List Patient) (m : ℕ) (f : Patient → Patient) → m ≢ n → Waits ps → Waits (modify ps m f)
  Waits-other ps m f ne (p, at, st) = (p, get_elem?-modify_ne ps m n f ne ∙ at, st)

  -- Any patient takes a step after which one who stayed stays.
  Waits-any :
      (ps : List Patient) (m : ℕ) (f : Patient → Patient) (q : Patient)
      → get_elem? ps m ≡ some q
      → (IsStaying q → IsStaying (f q))
      → Waits ps
      → Waits (modify ps m f)
  Waits-any ps m f q e keep (p, at, st) = elim (ℕ_discrete m n) [
    | no ne ↦ Waits-other ps m f ne (p, at, st)
    | yes same ↦
        let here = subst (λ i. get_elem? ps i ≡ some q) same e in
        let pq : p ≡ q = cc (at, here) in
        subst (λ i. Waits (modify ps i f)) (sym same)
          (f q, get_elem?-modify_self ps n f q here, keep (subst IsStaying pq st))
  ]

  -- Who is about to enter the room is another patient.
  adding-other :
      (ps : List Patient) (m : ℕ) (q : Patient)
      → get_elem? ps m ≡ some q
      → q.phase ≡ adding
      → Waits ps
      → m ≢ n
  adding-other ps m q e o (p, at, st) same =
      let pq : p ≡ q = cc (at, subst (λ i. get_elem? ps i ≡ some q) same e) in
      subst Stays (ap (λ (x : Patient). x.phase) pq ∙ o) st.1

  held : (s : System) {d : DoctorPhase} → s.doctor ≡ d → IsLost n s → NotHeld n d
  held s e l = subst (NotHeld n) e l.not_held

  -- The pharmacists and main leave the room alone.
  pharmacists_only :
      (s : System) (c : Clinic) (ps : List PharmacistPhase)
      → c.patient_queue ≡ s.clinic.patient_queue
      → IsLost n s
      → IsLost n (record s { clinic = c; pharmacists = ps })
  pharmacists_only s c ps e l = record {
    waits = l.waits;
    not_in_room = subst (λ (q : PatientQueue). NotIn n q.queue_array) (sym e) l.not_in_room;
    not_held = l.not_held;
  }

  unended : (ps : List Patient) → Waits ps → AllEnded ps → ⊥
  unended ps (p, at, st) all = ends ps n all at st.1
    where
      ends : (ps : List Patient) (i : ℕ) → AllEnded ps → get_elem? ps i ≡ some p → Stays p.phase → ⊥
      ends [] i all at st = absurd (cc at)
      ends (r ∷ ps) zero all at st =
          let same : r ≡ p = cc at in
          subst Stays (ap (λ (x : Patient). x.phase) (sym same) ∙ all.0) st
      ends (r ∷ ps) (suc i) all at st = ends ps i all.1 at st

  Step-IsLost : (s s' : System) → Step s s' → IsLost n s → IsLost n s'
  Step-IsLost _ _ (alone s m p q e o) l = record {
    waits = Waits-any s.patients m (λ _. q) p e (own_step-IsStaying p q o) l.waits;
    not_in_room = l.not_in_room;
    not_held = l.not_held;
  }
  Step-IsLost _ _ (try_to_enter s m p e o f) l =
      let ne = adding-other s.patients m p e o l.waits in
      record {
        waits = Waits-other s.patients m _ ne l.waits;
        not_in_room = NotIn-queue_add n m s.clinic.patient_queue ne l.not_in_room;
        not_held = l.not_held;
      }
  Step-IsLost _ _ (count_room s m p e o f) l = record {
    waits = Waits-any s.patients m (set_phase (deciding _)) p e (λ st. (st.0, tt)) l.waits;
    not_in_room = l.not_in_room;
    not_held = l.not_held;
  }
  Step-IsLost _ _ (wake_doctor s m k p e o f) l = record {
    waits = Waits-any s.patients m (set_phase staying) p e (λ st. (st.0, tt)) l.waits;
    not_in_room = l.not_in_room;
    not_held = l.not_held;
  }
  Step-IsLost _ _ (begin s e) l =
      if-keeps (IsLost n) s.clinic.all_patients_done _ _
        (record { waits = l.waits; not_in_room = l.not_in_room; not_held = tt })
        (record { waits = l.waits; not_in_room = l.not_in_room; not_held = tt })
  Step-IsLost _ _ (wake_up s e) l = record {
    waits = l.waits;
    not_in_room = l.not_in_room;
    not_held = tt;
  }
  Step-IsLost _ _ (give_over s e o) l = record {
    waits = l.waits;
    not_in_room = l.not_in_room;
    not_held = tt;
  }
  Step-IsLost _ _ (read_cabinet s e o f) l = record {
    waits = l.waits;
    not_in_room = l.not_in_room;
    not_held = tt;
  }
  Step-IsLost _ _ (compare_counts s med pharm e) l = record {
    waits = l.waits;
    not_in_room = l.not_in_room;
    not_held = decide-NotHeld n (queue_count s.clinic.patient_queue) med pharm;
  }
  Step-IsLost _ _ (take_out s ps e o r) l =
      let (room, out) = NotIn-queue_pop n s.clinic.patient_queue l.not_in_room in
      record {
        waits = l.waits;
        not_in_room = room;
        not_held = NotIn-append n ps _ (held s e l) (out, tt);
      }
  Step-IsLost _ _ (close_room s ps e o) l = record {
    waits = l.waits;
    not_in_room = l.not_in_room;
    not_held = held s e l;
  }
  Step-IsLost _ _ (lock_room s ps e) l = record {
    waits = l.waits;
    not_in_room = l.not_in_room;
    not_held = if-keeps (NotHeld n) (present ps == 0) beginning (using ps) tt (held s e l);
  }
  Step-IsLost _ _ (use_medicine s ps e f) l = record {
    waits = l.waits;
    not_in_room = l.not_in_room;
    not_held = NotIn-take n (present ps) ps (held s e l);
  }
  Step-IsLost _ _ (pass_over s ps e) l = record {
    waits = l.waits;
    not_in_room = l.not_in_room;
    not_held = (held s e l).1;
  }
  Step-IsLost _ _ (treat s m ps e) l =
      let (other, rest) = held s e l in
      record {
        waits = Waits-other s.patients m (set_status treatment) (λ q. other (ap some q)) l.waits;
        not_in_room = l.not_in_room;
        not_held = (λ q. other (ap some q), rest);
      }
  Step-IsLost _ _ (dismiss s m ps e) l =
      let (other, rest) = held s e l in
      record {
        waits = Waits-other s.patients m (set_status gone) other l.waits;
        not_in_room = l.not_in_room;
        not_held = rest;
      }
  Step-IsLost _ _ (finish_round s e) l = record {
    waits = l.waits;
    not_in_room = l.not_in_room;
    not_held = tt;
  }
  Step-IsLost _ _ (accept s e) l = record {
    waits = l.waits;
    not_in_room = l.not_in_room;
    not_held = tt;
  }
  Step-IsLost _ _ (stock s e f) l = record {
    waits = l.waits;
    not_in_room = l.not_in_room;
    not_held = tt;
  }
  Step-IsLost _ _ (travel s m e) l = pharmacists_only s s.clinic _ refl l
  Step-IsLost _ _ (enter s m e f) l =
      pharmacists_only s (enter_cabinet s.clinic).1 _ (enter-room s.clinic) l
  Step-IsLost _ _ (look s m e f) l =
      pharmacists_only s (look_again s.clinic).1 _ (look-room s.clinic) l
  Step-IsLost _ _ (knock s m e f) l = pharmacists_only s s.clinic _ refl l
  Step-IsLost _ _ (deliver s m e f) l = pharmacists_only s _ _ refl l
  Step-IsLost _ _ (hand_over s m e f d) l = pharmacists_only s s.clinic _ refl l
  Step-IsLost _ _ (announce s e f) l = pharmacists_only s _ s.pharmacists refl l
  Step-IsLost _ _ (release s e f) l = pharmacists_only s _ s.pharmacists refl l

  -- A patient who waits for the doctor while he is neither in the room nor with the doctor does so
  -- in every state that is reached from there: the thread never ends, so main never comes past the
  -- loop that joins it.
  -- A run ends where the doctor would write behind `patients_to_treat`.
  pub Reach-IsLost :
      (s s' : System) → IsLost n s → Reach s s' → IsLost n s' × (AllEnded s'.patients → ⊥)
  Reach-IsLost s s' l r = (lost s' r, unended s'.patients (lost s' r).waits)
    where
      lost : (s' : System) → Reach s s' → IsLost n s'
      lost _ start = l
      lost _ (then_step t u r st) = Step-IsLost t u st (lost t r)
