-- ===== src/Clinic/Queue.antt =====
-- lab9/src/queue.c: the waiting room, a ring of patients in an array of four slots.
-- A patient is a pointer: its number, or `none` for NULL. The `queue` pointer itself is never NULL.
-- Each function takes the queue's mutex for its whole body, so it is one step.
pub mod Inv
pub mod Refine
pub mod Fresh
use cs_os.Prelude.{
  ℕ, zero, suc, ◌+◌, ◌-◌, ◌%◌, Bool, true, false, Option, none, some, List, [], ◌∷◌, ◌==◌,
  if◌then◌else◌, ℤ, pos, minus_one, get_or, set, replicate,
}

-- `CLINIC_QUEUE_SIZE`
abbrev pub clinic_queue_size : ℕ
clinic_queue_size = 3

pub record PatientQueue : Type 0 where
  pub head : ℕ
  pub tail : ℕ
  pub queue_array : List (Option ℕ)

-- `(i + 1) % QUEUE_SIZE`. The macro is `CLINIC_QUEUE_SIZE + 1` with no parentheses, so the
-- remainder is taken by 3 and 1 is added to it.
abbrev pub next_index : ℕ → ℕ
next_index i = (i + 1) % clinic_queue_size + 1

unfoldable pub queue_init : PatientQueue
queue_init = record { head = 0; tail = 0; queue_array = replicate (clinic_queue_size + 1) none }

unfoldable pub queue_is_full : PatientQueue → Bool
queue_is_full q = next_index q.tail == q.head

unfoldable pub queue_is_empty : PatientQueue → Bool
queue_is_empty q = q.head == q.tail

-- The status that the call returns, and the queue after it.
unfoldable pub queue_add : PatientQueue → Option ℕ → ℤ × PatientQueue
unfolding queue_is_full
queue_add q none = (minus_one, q)
queue_add q (some patient) = if queue_is_full q then (minus_one, q) else (
  pos 0,
  record q { queue_array = set q.queue_array q.tail (some patient); tail = next_index q.tail },
)

-- The head stays below the four slots of the array (`Inv`).
unfoldable pub queue_pop : PatientQueue → Option ℕ × PatientQueue
unfolding queue_is_empty
queue_pop q = if queue_is_empty q then (none, q) else (
  get_or q.queue_array q.head none,
  record q { queue_array = set q.queue_array q.head none; head = next_index q.head },
)

-- `(tail - head + QUEUE_SIZE) % QUEUE_SIZE`, with the macro written out as above. The difference
-- does not go below 0 at a head of at most 3.
unfoldable pub queue_count : PatientQueue → ℕ
queue_count q = (q.tail + (clinic_queue_size + 1) - q.head) % clinic_queue_size + 1

unfoldable pub clear_queue : PatientQueue → PatientQueue
clear_queue q = record { head = 0; tail = 0; queue_array = replicate (clinic_queue_size + 1) none }

-- Patients who call `queue_add` one after the other.
unfoldable pub arrive : PatientQueue → List ℕ → PatientQueue
arrive q [] = q
arrive q (p ∷ ps) = arrive (queue_add q (some p)).1 ps

-- Who comes in each round of the doctor's loop, before the test and between the test and the pop;
-- behind the end of the list nobody comes.
abbrev pub Comers : Type 0
Comers = List (List ℕ × List ℕ)

abbrev pub before_test : Comers → List ℕ
before_test [] = []
before_test ((ps, _) ∷ more) = ps

abbrev pub before_pop : Comers → List ℕ
before_pop [] = []
before_pop ((_, ps) ∷ more) = ps

abbrev pub in_later_rounds : Comers → Comers
in_later_rounds [] = []
in_later_rounds (_ ∷ more) = more

-- The doctor's `while (!queue_is_empty(queue))` with its pops, and those who come meanwhile, for no
-- mutex is held between the calls. `patients_to_treat` has this many places left; `none` is a write
-- behind it. The list is what was written, NULLs included.
unfoldable pub drain :
    (places : ℕ) → Comers → PatientQueue → Option (List (Option ℕ) × PatientQueue)
unfolding queue_is_empty queue_pop arrive
drain zero cs q =
    let q = arrive q (before_test cs) in if queue_is_empty q then some ([], q) else none
drain (suc places) cs q =
    let q = arrive q (before_test cs) in
    elim (queue_is_empty q) [
      | true ↦ some ([], q)
      | false ↦
          let (patient, q) = queue_pop (arrive q (before_pop cs)) in
          elim (drain places (in_later_rounds cs) q) [
            | none ↦ none
            | some (rest, last) ↦ some (patient ∷ rest, last)
          ]
    ]
