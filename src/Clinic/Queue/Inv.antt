-- ===== src/Clinic/Queue/Inv.antt =====
-- Where the two indices of the waiting room can stand (lab9/src/queue.c).
use cs_os.Prelude.{ℕ, ◌≤◌, ◌≡◌, refl, ◌⊎◌, inl, Option, none, some, arith, length, length-set}
use cs_os.Clinic.Queue.{PatientQueue, queue_init, queue_add, queue_pop}

-- Either nobody has been taken out since the start, or both indices go round the slots 1, 2 and 3.
pub record IsValid (q : PatientQueue) : Type 0 where
  pub slots : length q.queue_array ≡ 4
  pub head_in : q.head ≤ 3
  pub tail_in : q.tail ≤ 3
  pub left_start : (q.head ≡ 0) ⊎ (1 ≤ q.tail)

-- Both indices have left slot 0.
pub record IsSteady (q : PatientQueue) : Type 0 where
  pub slots : length q.queue_array ≡ 4
  pub head_from : 1 ≤ q.head
  pub head_to : q.head ≤ 3
  pub tail_from : 1 ≤ q.tail
  pub tail_to : q.tail ≤ 3

pub queue_init-IsValid : IsValid queue_init
unfolding queue_init
queue_init-IsValid = record {
  slots = refl;
  head_in = omega arith;
  tail_in = omega arith;
  left_start = inl refl;
}

pub queue_add-IsValid : {q : PatientQueue} (p : Option ℕ) → IsValid q → IsValid (queue_add q p).1
unfolding queue_add
queue_add-IsValid none v = v
queue_add-IsValid {q} (some p) v = ground (arith, length-set q.queue_array q.tail (some p))

pub queue_pop-IsValid : {q : PatientQueue} → IsValid q → IsValid (queue_pop q).1
unfolding queue_pop
queue_pop-IsValid {q} v = ground (arith, length-set q.queue_array q.head none)

pub queue_add-IsSteady : {q : PatientQueue} (p : Option ℕ) → IsSteady q → IsSteady (queue_add q p).1
unfolding queue_add
queue_add-IsSteady none v = v
queue_add-IsSteady {q} (some p) v = ground (arith, length-set q.queue_array q.tail (some p))

pub queue_pop-IsSteady : {q : PatientQueue} → IsSteady q → IsSteady (queue_pop q).1
unfolding queue_pop
queue_pop-IsSteady {q} v = ground (arith, length-set q.queue_array q.head none)
