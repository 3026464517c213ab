-- ===== src/Printers/Systemv.antt =====
-- lab7/src/clients_systemv.c and printers_systemv.c. Two semaphores count the free and the filled
-- places of the ring. A step is one call on a semaphore, one copy of a document, one access to an
-- index, or what a process does alone. Sleeps, and output but for the documents that are printed,
-- are left out.
pub mod Balance
pub mod Ring
pub mod Fifo
pub mod Order
pub mod Progress
use cs_os.Prelude.{
  ℕ, zero, suc, ◌+◌, ◌-◌, ◌%◌, ◌≡◌, Option, none, some, List, [], ◌∷◌, ◌++◌, ltb, if◌then◌else◌,
  length, get_or, get_elem?, modify, replicate, ℤ, pos, negsuc, minus_one,
}
use cs_os.Chat.CString.{zeros}
use cs_os.Printers.{msg_size, set_doc, strcpy}

abbrev pub max_msg : ℕ
max_msg = 10

-- The shared memory, the two semaphores, and what the processes have done: the documents that
-- clients made, and those that printers printed, in order.
pub record Shared : Type 0 where
  pub jobs : List (List ℕ)
  pub next_in : ℕ
  pub next_out : ℕ
  pub empty : ℕ
  pub full : ℕ
  pub made : List (List ℕ)
  pub printed : List (List ℕ)

-- The new value of a semaphore; `none` while the caller has to wait.
unfoldable pub sem_op : ℕ → ℤ → Option ℕ
sem_op value (pos n) = some (value + n)
sem_op value (negsuc n) = if ltb value (suc n) then none else some (value - suc n)

-- Where a client is: at `set_doc`, at `sem_op(semaphore, 0, -1)`, at `strcpy`, at the read and at
-- the write of `in`, or at `sem_op(semaphore, 1, 1)`.
pub data ClientPhase : Type 0 where
  composing : ClientPhase
  waiting storing reading : List ℕ → ClientPhase
  writing : List ℕ → ℕ → ClientPhase
  posting : List ℕ → ClientPhase

-- Where a printer is: at `sem_op(semaphore, 1, -1)`, at `strcpy`, at the read and at the write of
-- `out`, at `sem_op(semaphore, 0, 1)`, or at `print_msg`.
pub data PrinterPhase : Type 0 where
  waiting taking : PrinterPhase
  reading : List ℕ → PrinterPhase
  writing : List ℕ → ℕ → PrinterPhase
  posting printing : List ℕ → PrinterPhase

-- The next step of a client, unless it waits.
unfoldable pub client_step : (ℕ → ℕ) → Shared → ClientPhase → Option (Shared × ClientPhase)
unfolding sem_op set_doc strcpy
client_step rand m composing =
    some (record m { made = m.made ++ set_doc rand ∷ [] }, waiting (set_doc rand))
client_step rand m (ClientPhase.waiting doc) = elim (sem_op m.empty minus_one) [
  | none ↦ none
  | some value ↦ some (record m { empty = value }, storing doc)
]
client_step rand m (storing doc) =
    some (
      record m { jobs = modify m.jobs m.next_in (λ slot. strcpy slot doc) },
      ClientPhase.reading doc,
    )
client_step rand m (ClientPhase.reading doc) = some (m, ClientPhase.writing doc m.next_in)
client_step rand m (ClientPhase.writing doc value) =
    some (record m { next_in = (value + 1) % max_msg }, ClientPhase.posting doc)
client_step rand m (ClientPhase.posting doc) = elim (sem_op m.full (pos 1)) [
  | none ↦ none
  | some value ↦ some (record m { full = value }, composing)
]

-- The next step of a printer. `doc` is what stands in its variable before `strcpy`.
unfoldable pub printer_step : List ℕ → Shared → PrinterPhase → Option (Shared × PrinterPhase)
unfolding sem_op strcpy
printer_step doc m PrinterPhase.waiting = elim (sem_op m.full minus_one) [
  | none ↦ none
  | some value ↦ some (record m { full = value }, taking)
]
printer_step doc m taking =
    some (m, PrinterPhase.reading (strcpy doc (get_or m.jobs m.next_out [])))
printer_step doc m (PrinterPhase.reading job) = some (m, PrinterPhase.writing job m.next_out)
printer_step doc m (PrinterPhase.writing job value) =
    some (record m { next_out = (value + 1) % max_msg }, PrinterPhase.posting job)
printer_step doc m (PrinterPhase.posting job) = elim (sem_op m.empty (pos 1)) [
  | none ↦ none
  | some value ↦ some (record m { empty = value }, printing job)
]
printer_step doc m (printing job) =
    some (record m { printed = m.printed ++ job ∷ [] }, PrinterPhase.waiting)

pub record System : Type 0 where
  pub shared : Shared
  pub clients : List ClientPhase
  pub printers : List PrinterPhase

-- One step of one process.
pub data Step : System → System → Type 0 where
  client_moves :
      (s : System) (n : ℕ) (rand : ℕ → ℕ) (c c' : ClientPhase) (m : Shared)
      → get_elem? s.clients n ≡ some c
      → client_step rand s.shared c ≡ some (m, c')
      → Step s (record s { shared = m; clients = modify s.clients n (λ _. c') })
  printer_moves :
      (s : System) (n : ℕ) (doc : List ℕ) (p p' : PrinterPhase) (m : Shared)
      → length doc ≡ msg_size
      → get_elem? s.printers n ≡ some p
      → printer_step doc s.shared p ≡ some (m, p')
      → Step s (record s { shared = m; printers = modify s.printers n (λ _. p') })

pub data Reach (s : System) : System → Type 0 where
  start : Reach s s
  then_step : (t u : System) → Reach s t → Step t u → Reach s u

-- The indices and the semaphores as the clients' `main` sets them, with the memory as it is made.
unfoldable pub fresh : Shared
fresh = record {
  jobs = replicate max_msg (zeros msg_size);
  next_in = 0;
  next_out = 0;
  empty = max_msg;
  full = 0;
  made = [];
  printed = [];
}

-- All processes at the start of their loops.
unfoldable pub initial : (clients printers : ℕ) → System
unfolding fresh
initial clients printers = record {
  shared = fresh;
  clients = replicate clients composing;
  printers = replicate printers PrinterPhase.waiting;
}
