-- ===== src/Printers/Systemv/Balance.antt =====
-- The semaphores of lab7/src/clients_systemv.c and printers_systemv.c.
use cs_os.Prelude.{
  ℕ, ◌+◌, ◌<◌, ◌≡◌, refl, some, List, arith, length, length-modify, total, total-modify,
  total-replicate,
}
use cs_os.Printers.{strcpy}
use cs_os.Printers.Systemv.{
  max_msg, Shared, ClientPhase, PrinterPhase, composing, storing, taking, printing, client_step,
  printer_step, System, Step, client_moves, printer_moves, Reach, start, then_step, initial,
}

-- 1 for a client between its two calls on the semaphores.
abbrev pub filling : ClientPhase → ℕ
filling composing = 0
filling (ClientPhase.waiting doc) = 0
filling (storing doc) = 1
filling (ClientPhase.reading doc) = 1
filling (ClientPhase.writing doc value) = 1
filling (ClientPhase.posting doc) = 1

-- 1 for a printer between its two.
abbrev pub emptying : PrinterPhase → ℕ
emptying PrinterPhase.waiting = 0
emptying taking = 1
emptying (PrinterPhase.reading job) = 1
emptying (PrinterPhase.writing job value) = 1
emptying (PrinterPhase.posting job) = 1
emptying (printing job) = 0

-- What a step of one process keeps, where `before` and `after` say whether it is between its calls.
record Keeps (m m' : Shared) (before after : ℕ) : Type 0 where
  units : m'.empty + m'.full + after ≡ m.empty + m.full + before
  places : length m'.jobs ≡ length m.jobs
  in_range : m.next_in < max_msg → m'.next_in < max_msg
  out_range : m.next_out < max_msg → m'.next_out < max_msg

client_step-Keeps :
    (rand : ℕ → ℕ) (m m' : Shared) (c c' : ClientPhase)
    → client_step rand m c ≡ some (m', c')
    → Keeps m m' (filling c) (filling c')
unfolding client_step
client_step-Keeps rand m m' composing c' e = ground arith
client_step-Keeps rand m m' (ClientPhase.waiting doc) c' e = ground arith
client_step-Keeps rand m m' (storing doc) c' e =
    ground (arith, length-modify m.jobs m.next_in (λ (slot : List ℕ). strcpy slot doc))
client_step-Keeps rand m m' (ClientPhase.reading doc) c' e = ground arith
client_step-Keeps rand m m' (ClientPhase.writing doc value) c' e = ground arith
client_step-Keeps rand m m' (ClientPhase.posting doc) c' e = ground arith

printer_step-Keeps :
    (doc : List ℕ) (m m' : Shared) (p p' : PrinterPhase)
    → printer_step doc m p ≡ some (m', p')
    → Keeps m m' (emptying p) (emptying p')
unfolding printer_step
printer_step-Keeps doc m m' PrinterPhase.waiting p' e = ground arith
printer_step-Keeps doc m m' taking p' e = ground arith
printer_step-Keeps doc m m' (PrinterPhase.reading job) p' e = ground arith
printer_step-Keeps doc m m' (PrinterPhase.writing job value) p' e = ground arith
printer_step-Keeps doc m m' (PrinterPhase.posting job) p' e = ground arith
printer_step-Keeps doc m m' (printing job) p' e = ground arith

-- Every place of the ring is counted once: as free, as filled, or for a process that works on it;
-- and both indices stay inside.
pub record IsBalanced (s : System) : Type 0 where
  pub counted :
      s.shared.empty + s.shared.full + total filling s.clients + total emptying s.printers ≡ max_msg
  pub places : length s.shared.jobs ≡ max_msg
  pub in_range : s.shared.next_in < max_msg
  pub out_range : s.shared.next_out < max_msg

Step-IsBalanced : (s t : System) → Step s t → IsBalanced s → IsBalanced t
Step-IsBalanced _ _ (client_moves s n rand c c' m at e) b =
    let k = client_step-Keeps rand s.shared m c c' e in
    record {
      counted = omega (arith, k.units, total-modify filling s.clients n (λ _. c') c at, b.counted);
      places = omega (arith, k.places, b.places);
      in_range = k.in_range b.in_range;
      out_range = k.out_range b.out_range;
    }
Step-IsBalanced _ _ (printer_moves s n doc p p' m l at e) b =
    let k = printer_step-Keeps doc s.shared m p p' e in
    record {
      counted =
          omega (arith, k.units, total-modify emptying s.printers n (λ _. p') p at, b.counted);
      places = omega (arith, k.places, b.places);
      in_range = k.in_range b.in_range;
      out_range = k.out_range b.out_range;
    }

-- In every state that the processes reach, whatever their numbers, the free places, the filled ones
-- and the processes that work on one add up to the size of the ring, and the indices are inside it.
pub Reach-IsBalanced :
    (clients printers : ℕ) (s : System) → Reach (initial clients printers) s → IsBalanced s
unfolding initial
Reach-IsBalanced clients printers s r = reached s r
  where
    reached : (s : System) → Reach (initial clients printers) s → IsBalanced s
    reached _ start = record {
      counted = omega (
        arith,
        total-replicate filling clients composing refl,
        total-replicate emptying printers PrinterPhase.waiting refl,
      );
      places = refl;
      in_range = omega arith;
      out_range = omega arith;
    }
    reached _ (then_step t u r st) = Step-IsBalanced t u st (reached t r)
