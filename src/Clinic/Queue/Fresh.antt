-- ===== src/Clinic/Queue/Fresh.antt =====
-- The waiting room of lab9/src/queue.c before anybody has been called in, and the doctor's loop
-- that empties it.
use cs_os.Prelude.{
  ℕ, zero, suc, ◌+◌, ◌==◌, if◌then◌else◌, ◌≤◌, ◌≡◌, ◌≢◌, refl, Option, false, some, List, [], ◌∷◌,
  arith, ℤ, pos, length, replicate, ap₂,
}
use native.Mathlib.Decide.{ℕ_discrete}
use cs_os.Clinic.Queue.{
  PatientQueue, next_index, queue_init, queue_add, queue_pop, queue_is_full, clinic_queue_size,
  drain, arrive, Comers, before_test, before_pop, in_later_rounds, queue_is_empty,
}
use cs_os.Clinic.Queue.Inv.{IsValid, queue_add-IsValid, queue_pop-IsValid, queue_init-IsValid}

-- Patients who arrive one after the other: the statuses that they get, and the queue after them.
unfoldable pub arrivals : PatientQueue → List ℕ → List ℤ × PatientQueue
arrivals q [] = ([], q)
arrivals q (p ∷ ps) =
    let (s, q') = queue_add q (some p) in let (ss, q'') = arrivals q' ps in (s ∷ ss, q'')

-- The pops after which a room is empty, where nobody comes.
abbrev pops_left : PatientQueue → ℕ
pops_left q =
    if q.head == q.tail
    then 0
    else if next_index q.head == q.tail
    then 1
    else if next_index (next_index q.head) == q.tail
    then 2
    else 3

abbrev pub comers : Comers → ℕ
comers [] = 0
comers ((ps, rs) ∷ more) = length ps + length rs + comers more

pops_left-queue_add :
    (q : PatientQueue) (p : ℕ) → IsValid q → pops_left (queue_add q (some p)).1 ≤ pops_left q + 1
unfolding queue_add
pops_left-queue_add q p v = ground (arith, v.head_in, v.tail_in, v.left_start)

pops_left-queue_pop :
    (q : PatientQueue) → IsValid q → q.head ≢ q.tail → pops_left (queue_pop q).1 + 1 ≡ pops_left q
unfolding queue_pop
pops_left-queue_pop q v ne = ground (arith, v.head_in, v.tail_in, v.left_start)

arrive-IsValid : (q : PatientQueue) (ps : List ℕ) → IsValid q → IsValid (arrive q ps)
unfolding arrive
arrive-IsValid q [] v = v
arrive-IsValid q (p ∷ ps) v =
    arrive-IsValid (queue_add q (some p)).1 ps (queue_add-IsValid (some p) v)

pops_left-arrive :
    (q : PatientQueue) (ps : List ℕ) → IsValid q → pops_left (arrive q ps) ≤ pops_left q + length ps
unfolding arrive
pops_left-arrive q [] v = omega arith
pops_left-arrive q (p ∷ ps) v = omega (
  arith,
  pops_left-queue_add q p v,
  pops_left-arrive (queue_add q (some p)).1 ps (queue_add-IsValid (some p) v),
)

-- A room with somebody in it stays so.
queue_add-waiting :
    (q : PatientQueue) (p : ℕ)
    → q.head ≢ q.tail
    → (queue_add q (some p)).1.head ≢ (queue_add q (some p)).1.tail
unfolding queue_add queue_is_full
queue_add-waiting q p ne = ground arith

arrive-waiting :
    (q : PatientQueue) (ps : List ℕ) → q.head ≢ q.tail → (arrive q ps).head ≢ (arrive q ps).tail
unfolding arrive
arrive-waiting q [] ne = ne
arrive-waiting q (p ∷ ps) ne = arrive-waiting (queue_add q (some p)).1 ps (queue_add-waiting q p ne)

comers-rounds :
    (cs : Comers)
    → comers cs ≡ length (before_test cs) + length (before_pop cs) + comers (in_later_rounds cs)
comers-rounds [] = refl
comers-rounds ((ps, rs) ∷ more) = refl

-- The loop with this many places ends within `n` pops at an empty room.
record Empties (places : ℕ) (cs : Comers) (q : PatientQueue) (n : ℕ) : Type 0 where
  got : List (Option ℕ)
  last : PatientQueue
  runs : drain places cs q ≡ some (got, last)
  few : length got ≤ n
  ends : last.head ≡ last.tail

Empties-done :
    (places : ℕ) (cs : Comers) (q : PatientQueue) (n : ℕ)
    → (arrive q (before_test cs)).head ≡ (arrive q (before_test cs)).tail
    → Empties places cs q n
unfolding drain queue_is_empty
Empties-done zero cs q n e = record {
  got = [];
  last = arrive q (before_test cs);
  runs = ground (arith, e);
  few = omega arith;
  ends = e;
}
Empties-done (suc places) cs q n e = record {
  got = [];
  last = arrive q (before_test cs);
  runs = ground (arith, e);
  few = omega arith;
  ends = e;
}

abbrev after_round : Comers → PatientQueue → Option ℕ × PatientQueue
after_round cs q = queue_pop (arrive (arrive q (before_test cs)) (before_pop cs))

Empties-next :
    (places : ℕ) (cs : Comers) (q : PatientQueue) (n : ℕ)
    → (arrive q (before_test cs)).head ≢ (arrive q (before_test cs)).tail
    → Empties places (in_later_rounds cs) (after_round cs q).1 n
    → Empties (suc places) cs q (suc n)
unfolding drain queue_is_empty
Empties-next places cs q n ne e = record {
  got = (after_round cs q).0 ∷ e.got;
  last = e.last;
  runs = rw (waits, drain, e.runs) refl;
  few = omega (arith, e.few);
  ends = e.ends;
}
  where
    waits : queue_is_empty (arrive q (before_test cs)) ≡ false
    waits = ground (arith, ne)

module _ (cs : Comers) (q : PatientQueue) (v : IsValid q) where
  first-IsValid : IsValid (arrive q (before_test cs))
  first-IsValid = arrive-IsValid q (before_test cs) v

  second-IsValid : IsValid (arrive (arrive q (before_test cs)) (before_pop cs))
  second-IsValid = arrive-IsValid (arrive q (before_test cs)) (before_pop cs) first-IsValid

  -- A round takes one off what is left.
  pops_left-round :
      (arrive q (before_test cs)).head ≢ (arrive q (before_test cs)).tail
      → pops_left (after_round cs q).1 + comers (in_later_rounds cs) + 1 ≤ pops_left q + comers cs
  pops_left-round ne = omega (
    arith,
    comers-rounds cs,
    pops_left-arrive q (before_test cs) v,
    pops_left-arrive (arrive q (before_test cs)) (before_pop cs) first-IsValid,
    pops_left-queue_pop (arrive (arrive q (before_test cs)) (before_pop cs)) second-IsValid
        (arrive-waiting (arrive q (before_test cs)) (before_pop cs) ne),
  )

drain-Empties :
    (places : ℕ) (cs : Comers) (q : PatientQueue) (n : ℕ)
    → IsValid q
    → pops_left q + comers cs ≤ n
    → n ≤ places
    → Empties places cs q n
drain-Empties places cs q zero v l m =
    elim (ℕ_discrete (arrive q (before_test cs)).head (arrive q (before_test cs)).tail) [
      | yes e ↦ Empties-done places cs q zero e
      | no ne ↦ absurd (omega (arith, l, pops_left-round cs q v ne))
    ]
drain-Empties zero cs q (suc n) v l m = absurd (omega (arith, m))
drain-Empties (suc places) cs q (suc n) v l m =
    elim (ℕ_discrete (arrive q (before_test cs)).head (arrive q (before_test cs)).tail) [
      | yes e ↦ Empties-done (suc places) cs q (suc n) e
      | no ne ↦ Empties-next places cs q n ne (
          drain-Empties places (in_later_rounds cs) (after_round cs q).1 n
            (queue_pop-IsValid (second-IsValid cs q v))
            (omega (arith, l, pops_left-round cs q v ne)) (omega (arith, m)))
    ]

-- Wherever the indices of a waiting room can stand, and whoever tries to enter it while the doctor
-- takes the patients out: the doctor's loop ends within as many pops as three and the number of
-- those who try, in an array of at least that many places it writes nothing behind the array, and
-- it leaves the room empty.
pub drain_bounded :
    (q : PatientQueue) (cs : Comers) (places : ℕ)
    → IsValid q
    → 3 + comers cs ≤ places
    → (got : List (Option ℕ)) × (last : PatientQueue) × (drain places cs q ≡ some (got, last))
      × (length got ≤ 3 + comers cs)
      × (last.head ≡ last.tail)
drain_bounded q cs places v l = (e.got, e.last, e.runs, e.few, e.ends)
  where
    e : Empties places cs q (3 + comers cs)
    e = drain-Empties places cs q (3 + comers cs) v (ground arith) l

-- A room whose head is still in slot 0 takes every patient.
queue_add-fresh :
    (q : PatientQueue) (p : ℕ)
    → q.head ≡ 0
    → ((queue_add q (some p)).0 ≡ pos 0) × ((queue_add q (some p)).1.head ≡ 0)
unfolding queue_add
queue_add-fresh q p h = ground arith

arrivals-fresh :
    (q : PatientQueue) (ps : List ℕ)
    → q.head ≡ 0
    → IsValid q
    → ((arrivals q ps).0 ≡ replicate (length ps) (pos 0)) × IsValid (arrivals q ps).1
unfolding arrivals
arrivals-fresh q [] h v = (refl, v)
arrivals-fresh q (p ∷ ps) h v =
    let (e, h') = queue_add-fresh q p h in
    let (es, w) = arrivals-fresh (queue_add q (some p)).1 ps h' (queue_add-IsValid (some p) v) in
    (ap₂ ◌∷◌ e es, w)

-- Until the first patient is called in, the room refuses nobody, however many arrive; and the
-- doctor's loop, where nobody comes during it, then takes out three at most, within the places of
-- `patients_to_treat`. All the others are told 0, and are lost.
pub arrivals_lost :
    (ps : List ℕ)
    → let (statuses, q) = arrivals queue_init ps in
      (statuses ≡ replicate (length ps) (pos 0))
      × ((got : List (Option ℕ)) × (last : PatientQueue) × (drain clinic_queue_size [] q
            ≡ some (got, last))
          × (length got ≤ 3)
          × (last.head ≡ last.tail))
unfolding queue_init
arrivals_lost ps =
    let (e, v) = arrivals-fresh queue_init ps refl queue_init-IsValid in
    (e, drain_bounded _ [] clinic_queue_size v (omega arith))
