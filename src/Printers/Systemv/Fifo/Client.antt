-- ===== src/Printers/Systemv/Fifo/Client.antt =====
-- A step of the client of lab7/src/clients_systemv.c.
use cs_os.Prelude.{
  ℕ, suc, ◌≡◌, refl, sym, ap, ◌∙◌, subst, some, [], ◌∷◌, ◌++◌, arith, length, modify, append-nil,
  length-modify, minus_one, Option-cases, inl, inr,
}
use cs_os.Printers.{strcpy, set_doc, msg_size}
use cs_os.Printers.Documents.{
  IsDoc, All, All-append, All-get_or, All-modify, strcpy-IsDoc, set_doc-IsDoc, length-strcpy,
}
use cs_os.Printers.Systemv.{
  Shared, ClientPhase, PrinterPhase, composing, storing, client_step, sem_op,
}
use cs_os.Printers.Systemv.Ring.{window, window-store}
use cs_os.Printers.Systemv.Fifo.{
  Fifo, append-last, claimed-le-emptying, front-lt, in_hand, last-IsDoc, moved, sem_op-wait,
}

abbrev OfClient : PrinterPhase → Shared × ClientPhase → Type 0
OfClient p (m, c) = Fifo m c p

pub client_step-Fifo :
    (rand : ℕ → ℕ) (m m' : Shared) (c c' : ClientPhase) (p : PrinterPhase)
    → client_step rand m c ≡ some (m', c')
    → Fifo m c p
    → Fifo m' c' p
unfolding client_step
client_step-Fifo rand m m' composing c' p e f = moved (OfClient p) e (record {
  n = f.n;
  h = f.h;
  order =
      ap (λ l. l ++ set_doc rand ∷ []) f.order
      ∙ append-last m.printed (in_hand p) (window m.jobs f.h f.n) (set_doc rand);
  count = f.count;
  first = f.first;
  last = f.last;
  units = f.units;
  docs = All-append IsDoc m.made _ f.docs (set_doc-IsDoc rand, tt);
  sized = f.sized;
  places = f.places;
  in_range = f.in_range;
  out_range = f.out_range;
  knows = tt;
  knows_out = f.knows_out;
})
client_step-Fifo rand m m' (ClientPhase.waiting doc) c' p e f =
    elim (Option-cases (sem_op m.empty minus_one)) [
      | inl q ↦ absurd (cc (q, e))
      | inr (left, q) ↦ moved (OfClient p) (rw (q, client_step) at e) (record {
        n = f.n;
        h = f.h;
        order = f.order;
        count = f.count;
        first = f.first;
        last = f.last;
        units = omega (arith, f.units, sem_op-wait m.empty left q);
        docs = f.docs;
        sized = f.sized;
        places = f.places;
        in_range = f.in_range;
        out_range = f.out_range;
        knows = tt;
        knows_out = f.knows_out;
      })
    ]
client_step-Fifo rand m m' (storing doc) c' p e f = moved (OfClient p) e (record {
  n = suc f.n;
  h = f.h;
  order = f.order ∙ ap (λ l. m.printed ++ (in_hand p ++ l)) (sym (append-nil _ ∙ stores));
  count = omega (arith, f.count);
  first = f.first;
  last = omega (arith, f.last);
  units = f.units;
  docs = f.docs;
  sized =
      All-modify (λ slot. length slot ≡ msg_size) m.jobs m.next_in _
        (λ slot l. length-strcpy slot doc ∙ l) f.sized;
  places = length-modify m.jobs m.next_in _ ∙ f.places;
  in_range = f.in_range;
  out_range = f.out_range;
  knows = tt;
  knows_out = f.knows_out;
})
  where
    is_doc : IsDoc doc
    is_doc =
        last-IsDoc m.printed (in_hand p) (window m.jobs f.h f.n) doc
          (subst (All IsDoc) f.order f.docs)

    stores :
        window (modify m.jobs m.next_in (λ slot. strcpy slot doc)) f.h (suc f.n)
        ≡ window m.jobs f.h f.n ++ doc ∷ []
    stores =
        window-store m.jobs f.h f.n m.next_in _ doc
          (omega (arith, f.first, front-lt m.next_out p f.out_range))
          (omega (arith, f.count, f.units, claimed-le-emptying p)) f.places f.last
          (strcpy-IsDoc _ doc
            (All-get_or (λ slot. length slot ≡ msg_size) m.jobs m.next_in []
              (omega (arith, f.places)) f.sized)
            is_doc)
client_step-Fifo rand m m' (ClientPhase.reading doc) c' p e f = moved (OfClient p) e (record {
  n = f.n;
  h = f.h;
  order = f.order;
  count = f.count;
  first = f.first;
  last = f.last;
  units = f.units;
  docs = f.docs;
  sized = f.sized;
  places = f.places;
  in_range = f.in_range;
  out_range = f.out_range;
  knows = refl;
  knows_out = f.knows_out;
})
client_step-Fifo rand m m' (ClientPhase.writing doc value) c' p e f = moved (OfClient p) e (record {
  n = f.n;
  h = f.h;
  order = f.order;
  count = f.count;
  first = f.first;
  last = omega (arith, f.last, f.knows);
  units = f.units;
  docs = f.docs;
  sized = f.sized;
  places = f.places;
  in_range = omega arith;
  out_range = f.out_range;
  knows = tt;
  knows_out = f.knows_out;
})
client_step-Fifo rand m m' (ClientPhase.posting doc) c' p e f = moved (OfClient p) e (record {
  n = f.n;
  h = f.h;
  order = f.order;
  count = omega (arith, f.count);
  first = f.first;
  last = f.last;
  units = omega (arith, f.units);
  docs = f.docs;
  sized = f.sized;
  places = f.places;
  in_range = f.in_range;
  out_range = f.out_range;
  knows = tt;
  knows_out = f.knows_out;
})
