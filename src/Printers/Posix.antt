-- ===== src/Printers/Posix.antt =====
-- lab7/src/clients_posix.c and printers_posix.c. One semaphore counts the free places of the ring;
-- a printer asks again and again whether `out` and `in` differ. A step is one call on the
-- semaphore, one copy of a document, one access to an index, or what a process does alone; the two
-- reads of the printer's question come in either order. Sleeps, and output but for the documents
-- that are printed, are left out.
pub mod Stall
pub mod Full
use cs_os.Prelude.{
  ℕ, ◌+◌, ◌-◌, ◌%◌, ◌≡◌, Bool, Option, none, some, List, [], ◌∷◌, ◌++◌, ◌==◌, if◌then◌else◌, length,
  get_or, get_elem?, modify, replicate,
}
use cs_os.Chat.CString.{zeros, strncpy}
use cs_os.Printers.{msg_size, set_doc, strcpy}

abbrev pub max_messages : ℕ
max_messages = 20

-- The shared memory, the semaphore, and what the processes have done.
pub record Shared : Type 0 where
  pub jobs : List (List ℕ)
  pub next_in : ℕ
  pub next_out : ℕ
  pub sem : ℕ
  pub made : List (List ℕ)
  pub printed : List (List ℕ)

-- `sem_wait`; `none` while the caller has to wait.
unfoldable pub sem_wait : ℕ → Option ℕ
sem_wait value = if value == 0 then none else some (value - 1)

unfoldable pub sem_post : ℕ → ℕ
sem_post value = value + 1

-- Where a client is: at `set_doc`, at `sem_wait`, at `strcpy`, at the read or at the write of `in`.
pub data ClientPhase : Type 0 where
  composing : ClientPhase
  waiting storing reading : List ℕ → ClientPhase
  writing : List ℕ → ℕ → ClientPhase

-- Where a printer is: at its question, with one of the two indices read, at `strncpy`, at the read
-- or at the write of `out`, at `print_msg`, or at `sem_post`.
pub data PrinterPhase : Type 0 where
  looking : PrinterPhase
  saw_out saw_in : ℕ → PrinterPhase
  taking : PrinterPhase
  reading : List ℕ → PrinterPhase
  writing : List ℕ → ℕ → PrinterPhase
  printing : List ℕ → PrinterPhase
  posting : PrinterPhase

-- The next step of a client, unless it waits.
unfoldable pub client_step : (ℕ → ℕ) → Shared → ClientPhase → Option (Shared × ClientPhase)
unfolding sem_wait set_doc strcpy
client_step rand m composing =
    some (record m { made = m.made ++ set_doc rand ∷ [] }, waiting (set_doc rand))
client_step rand m (waiting doc) = elim (sem_wait m.sem) [
  | none ↦ none
  | some value ↦ some (record m { sem = value }, storing doc)
]
client_step rand m (storing doc) =
    some (
      record m { jobs = modify m.jobs m.next_in (λ slot. strcpy slot doc) },
      ClientPhase.reading doc,
    )
client_step rand m (ClientPhase.reading doc) = some (m, ClientPhase.writing doc m.next_in)
client_step rand m (ClientPhase.writing doc value) =
    some (record m { next_in = (value + 1) % max_messages }, composing)

-- The next step of a printer. `doc` is what stands in its variable before `strncpy`, and
-- `out_first` says which index it reads first.
unfoldable pub printer_step : List ℕ → Bool → Shared → PrinterPhase → Shared × PrinterPhase
unfolding sem_post strncpy
printer_step doc out_first m looking =
    (m, if out_first then saw_out m.next_out else saw_in m.next_in)
printer_step doc out_first m (saw_out value) = (m, if value == m.next_in then looking else taking)
printer_step doc out_first m (saw_in value) = (m, if m.next_out == value then looking else taking)
printer_step doc out_first m taking =
    (m, PrinterPhase.reading (strncpy doc (get_or m.jobs m.next_out []) msg_size))
printer_step doc out_first m (PrinterPhase.reading job) = (m, PrinterPhase.writing job m.next_out)
printer_step doc out_first m (PrinterPhase.writing job value) =
    (record m { next_out = (value + 1) % max_messages }, printing job)
printer_step doc out_first m (printing job) =
    (record m { printed = m.printed ++ job ∷ [] }, posting)
printer_step doc out_first m posting = (record m { sem = sem_post m.sem }, looking)

pub record System : Type 0 where
  pub shared : Shared
  pub clients : List ClientPhase
  pub printers : List PrinterPhase

-- One step of one process.
pub data Step : System → System → Type 0 where
  client_moves :
      (s : System) (n : ℕ) (rand : ℕ → ℕ) (c c' : ClientPhase) (m : Shared)
      → get_elem? s.clients n ≡ some c
      → client_step rand s.shared c ≡ some (m, c')
      → Step s (record s { shared = m; clients = modify s.clients n (λ _. c') })
  printer_moves :
      (s : System) (n : ℕ) (doc : List ℕ) (out_first : Bool) (p : PrinterPhase)
      → length doc ≡ msg_size
      → get_elem? s.printers n ≡ some p
      → Step s (record s {
        shared = (printer_step doc out_first s.shared p).0;
        printers = modify s.printers n (λ _. (printer_step doc out_first s.shared p).1);
      })

pub data Reach (s : System) : System → Type 0 where
  start : Reach s s
  then_step : (t u : System) → Reach s t → Step t u → Reach s u

-- The memory and the semaphore as the printers' `main` makes them.
unfoldable pub fresh : Shared
fresh = record {
  jobs = replicate max_messages (zeros msg_size);
  next_in = 0;
  next_out = 0;
  sem = max_messages;
  made = [];
  printed = [];
}

-- All processes at the start of their loops.
unfoldable pub initial : (clients printers : ℕ) → System
unfolding fresh
initial clients printers = record {
  shared = fresh;
  clients = replicate clients composing;
  printers = replicate printers looking;
}
