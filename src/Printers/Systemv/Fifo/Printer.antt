-- ===== src/Printers/Systemv/Fifo/Printer.antt =====
-- A step of the printer of lab7/src/printers_systemv.c.
use cs_os.Prelude.{
  ℕ, suc, ◌+◌, ◌%◌, ◌≡◌, refl, sym, ap, ap₂, ◌∙◌, subst, some, List, [], ◌∷◌, ◌++◌, arith, length,
  get_or, append_assoc, minus_one, Option-cases, inl, inr,
}
use cs_os.Printers.{strcpy, msg_size}
use cs_os.Printers.Documents.{IsDoc, All, All-append_right, strcpy-IsDoc}
use cs_os.Printers.Systemv.{
  max_msg, Shared, ClientPhase, PrinterPhase, taking, printing, printer_step, sem_op,
}
use cs_os.Printers.Systemv.Ring.{window}
use cs_os.Printers.Systemv.Fifo.{Fifo, moved, sem_op-wait, stored, unsent}

abbrev OfPrinter : ClientPhase → Shared × PrinterPhase → Type 0
OfPrinter c (m, p) = Fifo m c p

pub printer_step-Fifo :
    (doc : List ℕ) (m m' : Shared) (c : ClientPhase) (p p' : PrinterPhase)
    → length doc ≡ msg_size
    → printer_step doc m p ≡ some (m', p')
    → Fifo m c p
    → Fifo m' c p'
unfolding printer_step
printer_step-Fifo doc m m' c PrinterPhase.waiting p' l e f =
    elim (Option-cases (sem_op m.full minus_one)) [
      | inl q ↦ absurd (cc (q, e))
      | inr (left, q) ↦ moved (OfPrinter c) (rw (q, printer_step) at e) (record {
        n = f.n;
        h = f.h;
        order = f.order;
        count = omega (arith, f.count, sem_op-wait m.full left q);
        first = f.first;
        last = f.last;
        units = omega (arith, f.units, sem_op-wait m.full left q);
        docs = f.docs;
        sized = f.sized;
        places = f.places;
        in_range = f.in_range;
        out_range = f.out_range;
        knows = f.knows;
        knows_out = tt;
      })
    ]
printer_step-Fifo doc m m' c taking p' l e f = moved (OfPrinter c) e (record {
  n = m.full + stored c;
  h = (m.next_out + 1) % max_msg;
  order = f.order ∙ ap (λ xs. m.printed ++ xs) takes;
  count = omega arith;
  first = refl;
  last = omega (arith, f.last, f.first, f.count);
  units = f.units;
  docs = f.docs;
  sized = f.sized;
  places = f.places;
  in_range = f.in_range;
  out_range = f.out_range;
  knows = f.knows;
  knows_out = tt;
})
  where
    ring :
        window m.jobs f.h f.n
        ≡ get_or m.jobs m.next_out []
          ∷ window m.jobs ((m.next_out + 1) % max_msg) (m.full + stored c)
    ring =
        let e : f.n ≡ suc (m.full + stored c) = omega (arith, f.count) in
        ap₂ (window m.jobs) f.first e

    is_doc : IsDoc (get_or m.jobs m.next_out [])
    is_doc =
        let all : All IsDoc (window m.jobs f.h f.n ++ unsent c) =
          All-append_right IsDoc m.printed _ (subst (All IsDoc) f.order f.docs) in
        (subst (λ xs. All IsDoc (xs ++ unsent c)) ring all).0

    takes :
        window m.jobs f.h f.n ++ unsent c
        ≡ strcpy doc (get_or m.jobs m.next_out [])
          ∷ (window m.jobs ((m.next_out + 1) % max_msg) (m.full + stored c) ++ unsent c)
    takes =
        ap (λ xs. xs ++ unsent c) ring
        ∙ ap (λ x. x ∷ (window m.jobs ((m.next_out + 1) % max_msg) (m.full + stored c) ++ unsent c))
            (sym (strcpy-IsDoc doc _ l is_doc))
printer_step-Fifo doc m m' c (PrinterPhase.reading job) p' l e f = moved (OfPrinter c) e (record {
  n = f.n;
  h = f.h;
  order = f.order;
  count = f.count;
  first = f.first;
  last = f.last;
  units = f.units;
  docs = f.docs;
  sized = f.sized;
  places = f.places;
  in_range = f.in_range;
  out_range = f.out_range;
  knows = f.knows;
  knows_out = refl;
})
printer_step-Fifo doc m m' c (PrinterPhase.writing job value) p' l e f =
    moved (OfPrinter c) e (record {
      n = f.n;
      h = f.h;
      order = f.order;
      count = f.count;
      first = omega (arith, f.first, f.knows_out);
      last = f.last;
      units = f.units;
      docs = f.docs;
      sized = f.sized;
      places = f.places;
      in_range = f.in_range;
      out_range = omega arith;
      knows = f.knows;
      knows_out = tt;
    })
printer_step-Fifo doc m m' c (PrinterPhase.posting job) p' l e f = moved (OfPrinter c) e (record {
  n = f.n;
  h = f.h;
  order = f.order;
  count = f.count;
  first = f.first;
  last = f.last;
  units = omega (arith, f.units);
  docs = f.docs;
  sized = f.sized;
  places = f.places;
  in_range = f.in_range;
  out_range = f.out_range;
  knows = f.knows;
  knows_out = tt;
})
printer_step-Fifo doc m m' c (printing job) p' l e f = moved (OfPrinter c) e (record {
  n = f.n;
  h = f.h;
  order = f.order ∙ sym (append_assoc m.printed (job ∷ []) _);
  count = f.count;
  first = f.first;
  last = f.last;
  units = f.units;
  docs = f.docs;
  sized = f.sized;
  places = f.places;
  in_range = f.in_range;
  out_range = f.out_range;
  knows = f.knows;
  knows_out = tt;
})
