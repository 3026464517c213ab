-- ===== src/Printers/Systemv/Fifo.antt =====
-- What one client and one printer of lab7/src on System V keep: the documents in the printer's
-- hand, in the ring and in the client's hand are those made and not printed.
pub mod Client
pub mod Printer
use cs_os.Prelude.{
  ℕ, zero, suc, ◌+◌, ◌-◌, ◌%◌, ◌≤◌, ◌<◌, ◌≡◌, ◌≢◌, refl, sym, ap, ap₂, ◌∙◌, subst, Option, none,
  some, List, [], ◌∷◌, ◌++◌, arith, length, get_elem?, get_or, modify, append_assoc, append-nil,
  length-modify, length-append, minus_one, pos, Option-cases, inl, inr, ltb, ℤ,
}
use cs_os.Printers.{strcpy, set_doc, msg_size}
use cs_os.Printers.Documents.{
  IsDoc, All, All-append, All-append_right, All-get_or, All-modify, strcpy-IsDoc, set_doc-IsDoc,
  length-strcpy,
}
use cs_os.Printers.Systemv.{
  max_msg, Shared, ClientPhase, PrinterPhase, composing, storing, taking, printing, client_step,
  printer_step, System, Step, client_moves, printer_moves, Reach, start, then_step, initial, sem_op,
}
use cs_os.Printers.Systemv.Balance.{filling, emptying}
use cs_os.Printers.Systemv.Ring.{window, window-store}

-- The document that the client has made and not stored.
abbrev pub unsent : ClientPhase → List (List ℕ)
unsent (ClientPhase.waiting doc) = doc ∷ []
unsent (storing doc) = doc ∷ []
unsent _ = []

-- The document that the printer has taken and not printed.
abbrev pub in_hand : PrinterPhase → List (List ℕ)
in_hand (PrinterPhase.reading job) = job ∷ []
in_hand (PrinterPhase.writing job value) = job ∷ []
in_hand (PrinterPhase.posting job) = job ∷ []
in_hand (printing job) = job ∷ []
in_hand _ = []

-- 1 where the client has stored a document that `full` does not count.
abbrev pub stored : ClientPhase → ℕ
stored (ClientPhase.reading doc) = 1
stored (ClientPhase.writing doc value) = 1
stored (ClientPhase.posting doc) = 1
stored _ = 0

-- 1 where the printer is to take a document that `full` counts no more.
abbrev pub claimed : PrinterPhase → ℕ
claimed taking = 1
claimed _ = 0

-- The place behind the last document, where `in` does not say so yet.
abbrev pub back : ℕ → ClientPhase → ℕ
back next_in (ClientPhase.reading doc) = (next_in + 1) % max_msg
back next_in (ClientPhase.writing doc value) = (next_in + 1) % max_msg
back next_in _ = next_in

abbrev pub front : ℕ → PrinterPhase → ℕ
front next_out (PrinterPhase.reading job) = (next_out + 1) % max_msg
front next_out (PrinterPhase.writing job value) = (next_out + 1) % max_msg
front next_out _ = next_out

-- What the client has read of `in`, and the printer of `out`, is so still.
abbrev pub Knows : ℕ → ClientPhase → Type 0
Knows next_in (ClientPhase.writing doc value) = value ≡ next_in
Knows next_in _ = Unit

abbrev pub KnowsOut : ℕ → PrinterPhase → Type 0
KnowsOut next_out (PrinterPhase.writing job value) = value ≡ next_out
KnowsOut next_out _ = Unit

-- All documents, from the first printed to the last made.
pub record Fifo (m : Shared) (c : ClientPhase) (p : PrinterPhase) : Type 0 where
  pub n : ℕ
  pub h : ℕ
  pub order : m.made ≡ m.printed ++ (in_hand p ++ (window m.jobs h n ++ unsent c))
  pub count : n ≡ m.full + stored c + claimed p
  pub first : h ≡ front m.next_out p
  pub last : back m.next_in c ≡ (h + n) % max_msg
  pub units : m.empty + m.full + filling c + emptying p ≡ max_msg
  pub docs : All IsDoc m.made
  pub sized : All (λ slot. length slot ≡ msg_size) m.jobs
  pub places : length m.jobs ≡ max_msg
  pub in_range : m.next_in < max_msg
  pub out_range : m.next_out < max_msg
  pub knows : Knows m.next_in c
  pub knows_out : KnowsOut m.next_out p

-- What holds after the step that a process takes.
pub moved {ℓ κ} : {A : Type ℓ} (P : A → Type κ) {a b : A} → some a ≡ some b → P a → P b
moved P {a} {b} e h = subst P (cc e) h

-- A semaphore lets pass where it is not 0.
pub sem_op-wait : (value left : ℕ) → sem_op value minus_one ≡ some left → value ≡ suc left
unfolding sem_op
sem_op-wait value left e = ground arith

-- One more document at the end of four pieces.
pub append-last :
    (printed hand ring : List (List ℕ)) (doc : List ℕ)
    → (printed ++ (hand ++ (ring ++ []))) ++ doc ∷ [] ≡ printed ++ (hand ++ (ring ++ doc ∷ []))
append-last printed hand ring doc = simp (append_assoc, append-nil)

pub last-IsDoc :
    (printed hand ring : List (List ℕ)) (doc : List ℕ)
    → All IsDoc (printed ++ (hand ++ (ring ++ doc ∷ [])))
    → IsDoc doc
last-IsDoc printed hand ring doc a =
    (All-append_right IsDoc ring _
      (All-append_right IsDoc hand _ (All-append_right IsDoc printed _ a))).0

pub front-lt : (next_out : ℕ) (p : PrinterPhase) → next_out < max_msg → front next_out p < max_msg
front-lt next_out PrinterPhase.waiting h = h
front-lt next_out taking h = h
front-lt next_out (PrinterPhase.reading job) h = omega arith
front-lt next_out (PrinterPhase.writing job value) h = omega arith
front-lt next_out (PrinterPhase.posting job) h = h
front-lt next_out (printing job) h = h

pub claimed-le-emptying : (p : PrinterPhase) → claimed p ≤ emptying p
claimed-le-emptying PrinterPhase.waiting = omega arith
claimed-le-emptying taking = omega arith
claimed-le-emptying (PrinterPhase.reading job) = omega arith
claimed-le-emptying (PrinterPhase.writing job value) = omega arith
claimed-le-emptying (PrinterPhase.posting job) = omega arith
claimed-le-emptying (printing job) = omega arith

pub length-window : (jobs : List (List ℕ)) (h n : ℕ) → length (window jobs h n) ≡ n
length-window jobs h zero = refl
length-window jobs h (suc n) = ap suc (length-window jobs ((h + 1) % max_msg) n)

pub length-unsent : (c : ClientPhase) → length (unsent c) ≤ 1
length-unsent composing = omega arith
length-unsent (ClientPhase.waiting doc) = omega arith
length-unsent (storing doc) = omega arith
length-unsent (ClientPhase.reading doc) = omega arith
length-unsent (ClientPhase.writing doc value) = omega arith
length-unsent (ClientPhase.posting doc) = omega arith

pub length-in_hand : (p : PrinterPhase) → length (in_hand p) ≤ 1
length-in_hand PrinterPhase.waiting = omega arith
length-in_hand taking = omega arith
length-in_hand (PrinterPhase.reading job) = omega arith
length-in_hand (PrinterPhase.writing job value) = omega arith
length-in_hand (PrinterPhase.posting job) = omega arith
length-in_hand (printing job) = omega arith

pub stored-le-filling : (c : ClientPhase) → stored c ≤ filling c
stored-le-filling composing = omega arith
stored-le-filling (ClientPhase.waiting doc) = omega arith
stored-le-filling (storing doc) = omega arith
stored-le-filling (ClientPhase.reading doc) = omega arith
stored-le-filling (ClientPhase.writing doc value) = omega arith
stored-le-filling (ClientPhase.posting doc) = omega arith
