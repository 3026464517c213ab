-- ===== src/Printers/Systemv/Order.antt =====
-- One client and one printer of lab7/src on System V: the ring is a queue between them.
use cs_os.Prelude.{
  ℕ, zero, suc, ◌≤◌, ◌≡◌, refl, sym, ap, subst, some, List, [], ◌∷◌, ◌++◌, arith, length, get_elem?,
  modify, length-append,
}
use cs_os.Printers.Systemv.{
  ClientPhase, PrinterPhase, composing, System, Step, client_moves, printer_moves, Reach, start,
  then_step, initial,
}
use cs_os.Printers.Systemv.Ring.{window}
use cs_os.Printers.Systemv.Fifo.{
  Fifo, claimed-le-emptying, in_hand, unsent, length-window, length-unsent, length-in_hand,
  stored-le-filling,
}
use cs_os.Printers.Systemv.Fifo.Client.{client_step-Fifo}
use cs_os.Printers.Systemv.Fifo.Printer.{printer_step-Fifo}

-- One client, one printer, and the invariant.
pub record IsPair (s : System) : Type 0 where
  pub client : ClientPhase
  pub printer : PrinterPhase
  pub clients : s.clients ≡ client ∷ []
  pub printers : s.printers ≡ printer ∷ []
  pub fifo : Fifo s.shared client printer

-- The one element of a list is replaced.
one-modify {ℓ} :
    {A : Type ℓ} (xs : List A) (n : ℕ) (x y z : A)
    → xs ≡ x ∷ []
    → get_elem? xs n ≡ some y
    → (y ≡ x) × (modify xs n (λ _. z) ≡ z ∷ [])
one-modify xs n x y z e at = at_one n (subst (λ ys. get_elem? ys n ≡ some y) e at)
  where
    at_one : (n : ℕ) → get_elem? (x ∷ []) n ≡ some y → (y ≡ x) × (modify xs n (λ _. z) ≡ z ∷ [])
    at_one zero at = (cc at, ap (λ ys. modify ys zero (λ _. z)) e)
    at_one (suc n) at = absurd (cc at)

pub Step-IsPair : (s t : System) → Step s t → IsPair s → IsPair t
Step-IsPair _ _ (client_moves s n rand c c' m at e) i =
    let (same, now) = one-modify s.clients n i.client c c' i.clients at in
    record {
      client = c';
      printer = i.printer;
      clients = now;
      printers = i.printers;
      fifo =
          client_step-Fifo rand s.shared m c c' i.printer e
            (subst (λ x. Fifo s.shared x i.printer) (sym same) i.fifo);
    }
Step-IsPair _ _ (printer_moves s n doc p p' m l at e) i =
    let (same, now) = one-modify s.printers n i.printer p p' i.printers at in
    record {
      client = i.client;
      printer = p';
      clients = i.clients;
      printers = now;
      fifo =
          printer_step-Fifo doc s.shared m i.client p p' l e
            (subst (Fifo s.shared i.client) (sym same) i.fifo);
    }

pub Reach-IsPair : (s : System) → Reach (initial 1 1) s → IsPair s
unfolding initial
Reach-IsPair _ start = record {
  client = composing;
  printer = PrinterPhase.waiting;
  clients = refl;
  printers = refl;
  fifo = record {
    n = 0;
    h = 0;
    order = refl;
    count = omega arith;
    first = refl;
    last = omega arith;
    units = omega arith;
    docs = tt;
    sized = omega arith;
    places = refl;
    in_range = omega arith;
    out_range = omega arith;
    knows = tt;
    knows_out = tt;
  };
}
Reach-IsPair _ (then_step t u r st) = Step-IsPair t u st (Reach-IsPair t r)

-- With one client and one printer, in any interleaving, the documents printed are the first of
-- those made, whole and in order, and at most twelve more were made: ten in the ring, and one in
-- the hands of each.
pub Reach-printed :
    (s : System)
    → Reach (initial 1 1) s
    → (rest : List (List ℕ)) × (s.shared.made ≡ s.shared.printed ++ rest) × (length rest ≤ 12)
Reach-printed s r = (
  in_hand i.printer ++ (window s.shared.jobs f.h f.n ++ unsent i.client),
  f.order,
  omega (
    arith,
    length-append {0} (in_hand i.printer) (window s.shared.jobs f.h f.n ++ unsent i.client),
    length-append {0} (window s.shared.jobs f.h f.n) (unsent i.client),
    length-window s.shared.jobs f.h f.n,
    length-unsent i.client,
    length-in_hand i.printer,
    stored-le-filling i.client,
    claimed-le-emptying i.printer,
    f.count,
    f.units,
  ),
)
  where
    i : IsPair s
    i = Reach-IsPair s r

    f : Fifo s.shared i.client i.printer
    f = i.fifo
