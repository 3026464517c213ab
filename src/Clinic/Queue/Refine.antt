-- ===== src/Clinic/Queue/Refine.antt =====
-- From the second round on the waiting room (lab9/src/queue.c) is a first-in first-out queue of two
-- patients.
use cs_os.Prelude.{
  ℕ, ◌+◌, ◌-◌, ◌%◌, ◌≤◌, ◌≡◌, ◌≢◌, refl, Option, none, some, List, [], ◌∷◌, ◌++◌, arith, ◌==◌,
  if◌then◌else◌, ℤ, pos, minus_one, length, get_or, get_or-set_self, get_or-set_ne, ap, ap₂,
}
use cs_os.Clinic.Queue.{PatientQueue, next_index, queue_add, queue_pop, queue_count}
use cs_os.Clinic.Queue.Inv.{IsSteady, queue_add-IsSteady, queue_pop-IsSteady}

-- The specification: at most two patients, oldest first.
abbrev pub Waiting : Type 0
Waiting = List ℕ

unfoldable pub arrive : Waiting → ℕ → ℤ × Waiting
arrive w p = if length w == 2 then (minus_one, w) else (pos 0, w ++ p ∷ [])

unfoldable pub call_next : Waiting → Option ℕ × Waiting
call_next [] = (none, [])
call_next (p ∷ w) = (some p, w)

-- What `queue_count` says when that many wait.
unfoldable pub reported : ℕ → ℕ
reported n = (4 - n) % 3 + 1

-- The slots from index `h` to the tail hold these patients.
abbrev pub Slots : List (Option ℕ) → ℕ → ℕ → Waiting → Type 0
Slots a tail h [] = h ≡ tail
Slots a tail h (p ∷ w) = (h ≢ tail) × (get_or a h none ≡ some p) × Slots a tail (next_index h) w

pub record Holds (q : PatientQueue) (w : Waiting) : Type 0 where
  pub steady : IsSteady q
  pub slots : Slots q.queue_array q.tail q.head w

-- Three indices apart are one.
Slots-length :
    (a : List (Option ℕ)) (t h : ℕ) (w : Waiting)
    → 1 ≤ h
    → h ≤ 3
    → 1 ≤ t
    → t ≤ 3
    → Slots a t h w
    → length w ≤ 2
Slots-length a t h [] h1 h3 t1 t3 s = omega arith
Slots-length a t h (x ∷ []) h1 h3 t1 t3 s = omega arith
Slots-length a t h (x ∷ y ∷ []) h1 h3 t1 t3 s = omega arith
Slots-length a t h (x ∷ y ∷ z ∷ w) h1 h3 t1 t3 s = absurd (omega arith)

module _ {q : PatientQueue} where
  open q use {head, tail, queue_array}

  -- `queue_add` answers as the two-place queue does, and afterwards holds what that holds.
  pub queue_add-Holds :
      (w : Waiting) (p : ℕ)
      → Holds q w
      → ((queue_add q (some p)).0 ≡ (arrive w p).0) × Holds (queue_add q (some p)).1 (arrive w p).1
  unfolding queue_add arrive
  queue_add-Holds [] p h =
      ground (
        arith,
        queue_add-IsSteady (some p) h.steady,
        get_or-set_self queue_array tail (some p) none,
      )
  queue_add-Holds (x ∷ []) p h = ground (
    arith,
    queue_add-IsSteady (some p) h.steady,
    get_or-set_self queue_array tail (some p) none,
    get_or-set_ne queue_array tail head (some p) none,
  )
  queue_add-Holds (x ∷ y ∷ []) p h = ground arith
  queue_add-Holds (x ∷ y ∷ z ∷ w) p h = absurd (omega arith)

  -- `queue_pop` takes out the patient who has waited longest, or nobody.
  pub queue_pop-Holds :
      (w : Waiting)
      → Holds q w
      → ((queue_pop q).0 ≡ (call_next w).0) × Holds (queue_pop q).1 (call_next w).1
  unfolding queue_pop call_next
  queue_pop-Holds [] h = ground arith
  queue_pop-Holds (x ∷ []) h = ground (arith, queue_pop-IsSteady h.steady)
  queue_pop-Holds (x ∷ y ∷ []) h = ground (
    arith,
    queue_pop-IsSteady h.steady,
    get_or-set_ne queue_array head (next_index head) none none,
  )
  queue_pop-Holds (x ∷ y ∷ z ∷ w) h = absurd (omega arith)

  -- `queue_count` is off: it says 2 of nobody and 3 of two patients.
  pub queue_count-Holds : (w : Waiting) → Holds q w → queue_count q ≡ reported (length w)
  unfolding queue_count reported
  queue_count-Holds [] h = ground arith
  queue_count-Holds (x ∷ []) h = ground arith
  queue_count-Holds (x ∷ y ∷ []) h = ground arith
  queue_count-Holds (x ∷ y ∷ z ∷ w) h = absurd (omega arith)

-- What the threads ask of the waiting room.
pub data Op : Type 0 where
  add : ℕ → Op
  pop : Op
  count : Op

pub data Reply : Type 0 where
  status : ℤ → Reply
  patient : Option ℕ → Reply
  number : ℕ → Reply

unfoldable pub run : PatientQueue → List Op → List Reply
run q [] = []
run q (add p ∷ ops) = let (s, q') = queue_add q (some p) in status s ∷ run q' ops
run q (pop ∷ ops) = let (p, q') = queue_pop q in patient p ∷ run q' ops
run q (count ∷ ops) = number (queue_count q) ∷ run q ops

unfoldable pub run_waiting : Waiting → List Op → List Reply
run_waiting w [] = []
run_waiting w (add p ∷ ops) = let (s, w') = arrive w p in status s ∷ run_waiting w' ops
run_waiting w (pop ∷ ops) = let (p, w') = call_next w in patient p ∷ run_waiting w' ops
run_waiting w (count ∷ ops) = number (reported (length w)) ∷ run_waiting w ops

-- No sequence of calls tells a waiting room that holds `w`, with both indices off slot 0, from the
-- two-place queue `w`.
pub run_refines :
    (ops : List Op) {q : PatientQueue} (w : Waiting) → Holds q w → run q ops ≡ run_waiting w ops
unfolding run run_waiting
run_refines [] w h = refl
run_refines (add p ∷ ops) w h =
    let (e, h') = queue_add-Holds w p h in ap₂ ◌∷◌ (ap status e) (run_refines ops (arrive w p).1 h')
run_refines (pop ∷ ops) w h =
    let (e, h') = queue_pop-Holds w h in ap₂ ◌∷◌ (ap patient e) (run_refines ops (call_next w).1 h')
run_refines (count ∷ ops) w h = ap₂ ◌∷◌ (ap number (queue_count-Holds w h)) (run_refines ops w h)
