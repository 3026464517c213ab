-- ===== src/Printers/Systemv/Progress.antt =====
-- One client and one printer of lab7/src on System V never block each other: every document can
-- still be printed.
use cs_os.Prelude.{
  ℕ, zero, suc, ◌≡◌, refl, sym, ap, ap₂, ◌∙◌, subst, some, List, [], ◌∷◌, ◌++◌, arith, append-nil,
}
use cs_os.Chat.CString.{zeros}
use cs_os.Printers.{msg_size}
use cs_os.Printers.Systemv.{
  Shared, ClientPhase, PrinterPhase, composing, storing, taking, printing, client_step,
  printer_step, System, client_moves, printer_moves, Reach, start, then_step, initial,
}
use cs_os.Printers.Systemv.Ring.{window}
use cs_os.Printers.Systemv.Fifo.{Fifo}
use cs_os.Printers.Systemv.Order.{IsPair, Step-IsPair, Reach-IsPair}

abbrev pair : Shared → ClientPhase → PrinterPhase → System
pair m c p = record { shared = m; clients = c ∷ []; printers = p ∷ [] }

-- From one state to another, while the client makes no document.
record Leads (s t : System) : Type 0 where
  reached : Reach s t
  kept : t.shared.made ≡ s.shared.made

Leads-refl : (s : System) → Leads s s
Leads-refl s = record { reached = start; kept = refl }

Reach-trans : (s t u : System) → Reach s t → Reach t u → Reach s u
Reach-trans s t _ r start = r
Reach-trans s t u r (then_step v _ q st) = then_step v u (Reach-trans s t v r q) st

Leads-trans : (s t u : System) → Leads s t → Leads t u → Leads s u
Leads-trans s t u a b = record {
  reached = Reach-trans s t u a.reached b.reached;
  kept = b.kept ∙ a.kept;
}

client_goes :
    {m m' : Shared} {c c' : ClientPhase} (p : PrinterPhase)
    → client_step (λ i. i) m c ≡ some (m', c')
    → m'.made ≡ m.made
    → {t : System} → Leads (pair m' c' p) t
    → Leads (pair m c p) t
client_goes {m} {m'} {c} {c'} p e k {t} l =
    Leads-trans (pair m c p) (pair m' c' p) t
      (record {
        reached =
            then_step (pair m c p) _ start (client_moves (pair m c p) 0 (λ i. i) c c' m' refl e);
        kept = k;
      })
      l

printer_goes :
    {m m' : Shared} (c : ClientPhase) {p p' : PrinterPhase}
    → printer_step (zeros msg_size) m p ≡ some (m', p')
    → m'.made ≡ m.made
    → {t : System} → Leads (pair m' c p') t
    → Leads (pair m c p) t
printer_goes {m} {m'} c {p} {p'} e k {t} l =
    Leads-trans (pair m c p) (pair m' c p') t
      (record {
        reached =
            then_step (pair m c p) _ start
              (printer_moves (pair m c p) 0 (zeros msg_size) p p' m' refl refl e);
        kept = k;
      })
      l

abbrev IsHome : ClientPhase → Type 0
IsHome composing = Unit
IsHome (ClientPhase.waiting doc) = Unit
IsHome _ = ⊥

-- The client comes to `set_doc` or to the first semaphore.
record ClientHome (m : Shared) (c : ClientPhase) (p : PrinterPhase) : Type 0 where
  shared : Shared
  client : ClientPhase
  leads : Leads (pair m c p) (pair shared client p)
  home : IsHome client

settled : (m : Shared) (c : ClientPhase) (p : PrinterPhase) → IsHome c → ClientHome m c p
settled m c p h = record { shared = m; client = c; leads = Leads-refl (pair m c p); home = h }

client_then :
    {m m' : Shared} {c c' : ClientPhase} (p : PrinterPhase)
    → client_step (λ i. i) m c ≡ some (m', c')
    → m'.made ≡ m.made
    → ClientHome m' c' p
    → ClientHome m c p
client_then p e k h = record {
  shared = h.shared;
  client = h.client;
  leads = client_goes p e k h.leads;
  home = h.home;
}

client_home : (m : Shared) (c : ClientPhase) (p : PrinterPhase) → ClientHome m c p
unfolding client_step
client_home m composing p = settled m composing p tt
client_home m (ClientPhase.waiting doc) p = settled m (ClientPhase.waiting doc) p tt
client_home m (ClientPhase.posting doc) p = client_then p refl refl (settled _ composing p tt)
client_home m (ClientPhase.writing doc value) p =
    client_then p refl refl (client_then p refl refl (settled _ composing p tt))
client_home m (ClientPhase.reading doc) p =
    client_then p refl refl
      (client_then p refl refl (client_then p refl refl (settled _ composing p tt)))
client_home m (storing doc) p = client_then p refl refl (
    client_then p refl refl
      (client_then p refl refl (client_then p refl refl (settled _ composing p tt))))

-- The printer comes to its first semaphore, and has left `full` as it was.
record PrinterHome (m : Shared) (c : ClientPhase) (p : PrinterPhase) : Type 0 where
  shared : Shared
  leads : Leads (pair m c p) (pair shared c PrinterPhase.waiting)
  same : shared.full ≡ m.full

at_home : (m : Shared) (c : ClientPhase) → PrinterHome m c PrinterPhase.waiting
at_home m c = record { shared = m; leads = Leads-refl (pair m c PrinterPhase.waiting); same = refl }

printer_then :
    {m m' : Shared} (c : ClientPhase) {p p' : PrinterPhase}
    → printer_step (zeros msg_size) m p ≡ some (m', p')
    → m'.made ≡ m.made
    → m'.full ≡ m.full
    → PrinterHome m' c p'
    → PrinterHome m c p
printer_then c e k f h = record {
  shared = h.shared;
  leads = printer_goes c e k h.leads;
  same = h.same ∙ f;
}

printer_home : (m : Shared) (c : ClientPhase) (p : PrinterPhase) → PrinterHome m c p
unfolding printer_step
printer_home m c PrinterPhase.waiting = at_home m c
printer_home m c (printing job) = printer_then c refl refl refl (at_home _ c)
printer_home m c (PrinterPhase.posting job) =
    printer_then c refl refl refl (printer_then c refl refl refl (at_home _ c))
printer_home m c (PrinterPhase.writing job value) =
    printer_then c refl refl refl
      (printer_then c refl refl refl (printer_then c refl refl refl (at_home _ c)))
printer_home m c (PrinterPhase.reading job) = printer_then c refl refl refl (
    printer_then c refl refl refl
      (printer_then c refl refl refl (printer_then c refl refl refl (at_home _ c))))
printer_home m c taking = printer_then c refl refl refl (
    printer_then c refl refl refl (
      printer_then c refl refl refl
        (printer_then c refl refl refl (printer_then c refl refl refl (at_home _ c)))))

-- The printer takes out all that `full` counts.
record Drained (m : Shared) (c : ClientPhase) : Type 0 where
  shared : Shared
  leads : Leads (pair m c PrinterPhase.waiting) (pair shared c PrinterPhase.waiting)
  bare : shared.full ≡ 0

drain : (k : ℕ) (m : Shared) (c : ClientPhase) → m.full ≡ k → Drained m c
unfolding printer_step
drain zero m c e = record {
  shared = m;
  leads = Leads-refl (pair m c PrinterPhase.waiting);
  bare = e;
}
drain (suc k) m c e =
    let claim : printer_step (zeros msg_size) m PrinterPhase.waiting
        ≡ some (record m { full = k }, taking) =
      ground arith in
    let h = printer_home (record m { full = k }) c taking in
    let d = drain k h.shared c h.same in
    record {
      shared = d.shared;
      leads = Leads-trans _ _ _ (printer_goes c claim refl h.leads) d.leads;
      bare = d.bare;
    }

-- A document in the client's hand is stored while a place is free.
store :
    (m : Shared) (doc : List ℕ) (k : ℕ)
    → m.empty ≡ suc k
    → (t : Shared) × Leads
        (pair m (ClientPhase.waiting doc) PrinterPhase.waiting)
        (pair t composing PrinterPhase.waiting)
unfolding client_step
store m doc k e =
    let claim : client_step (λ i. i) m (ClientPhase.waiting doc)
        ≡ some (record m { empty = k }, storing doc) =
      ground arith in
    (
      _,
      client_goes PrinterPhase.waiting claim refl (
          client_goes PrinterPhase.waiting refl refl (
            client_goes PrinterPhase.waiting refl refl (
              client_goes PrinterPhase.waiting refl refl
                (client_goes PrinterPhase.waiting refl refl (Leads-refl _))))),
    )

Reach-IsPair_from : (s t : System) → IsPair s → Reach s t → IsPair t
Reach-IsPair_from s _ i start = i
Reach-IsPair_from s _ i (then_step t u r st) = Step-IsPair t u st (Reach-IsPair_from s t i r)

pair-Fifo : (m : Shared) (c : ClientPhase) (p : PrinterPhase) → IsPair (pair m c p) → Fifo m c p
pair-Fifo m c p i =
    let same : i.client ≡ c = cc i.clients in
    let same' : i.printer ≡ p = cc i.printers in
    subst (λ x. Fifo m x p) same (subst (λ y. Fifo m i.client y) same' i.fifo)

-- With nothing in the ring or in a hand, all is printed.
empty_ring : (m : Shared) → Fifo m composing PrinterPhase.waiting → m.full ≡ 0 → m.printed ≡ m.made
empty_ring m f e =
    let none_left : f.n ≡ 0 = omega (arith, f.count) in
    sym (
      f.order ∙ ap (λ n. m.printed ++ (window m.jobs f.h n ++ [])) none_left ∙ append-nil m.printed)

-- Everything made is printed in the end, and nothing more is made.
record Finished (s : System) : Type 0 where
  last : System
  leads : Leads s last
  all_printed : last.shared.printed ≡ last.shared.made

close :
    (m : Shared) (c : ClientPhase)
    → IsHome c
    → IsPair (pair m c PrinterPhase.waiting)
    → m.full ≡ 0
    → Finished (pair m c PrinterPhase.waiting)
close m composing h i e = record {
  last = pair m composing PrinterPhase.waiting;
  leads = Leads-refl _;
  all_printed = empty_ring m (pair-Fifo m composing PrinterPhase.waiting i) e;
}
close m (ClientPhase.waiting doc) h i e =
    let f = pair-Fifo m (ClientPhase.waiting doc) PrinterPhase.waiting i in
    let (t, l) = store m doc 9 (omega (arith, f.units, e)) in
    let d = drain t.full t composing refl in
    let done = Leads-trans _ _ _ l d.leads in
    record {
      last = pair d.shared composing PrinterPhase.waiting;
      leads = done;
      all_printed =
          empty_ring d.shared
            (pair-Fifo d.shared composing PrinterPhase.waiting
              (Reach-IsPair_from _ _ i done.reached))
            d.bare;
    }
close m (storing doc) h i e = absurd h
close m (ClientPhase.reading doc) h i e = absurd h
close m (ClientPhase.writing doc value) h i e = absurd h
close m (ClientPhase.posting doc) h i e = absurd h

finish :
    (m : Shared) (c : ClientPhase) (p : PrinterPhase) → IsPair (pair m c p) → Finished (pair m c p)
finish m c p i =
    let h = client_home m c p in
    let g = printer_home h.shared h.client p in
    let d = drain g.shared.full g.shared h.client refl in
    let before = Leads-trans _ _ _ h.leads (Leads-trans _ _ _ g.leads d.leads) in
    let f = close d.shared h.client h.home (Reach-IsPair_from _ _ i before.reached) d.bare in
    record { last = f.last; leads = Leads-trans _ _ _ before f.leads; all_printed = f.all_printed }

-- With one client and one printer, from every state that they reach there is a way on to one where
-- all the documents made so far are printed, and no other.
pub Reach-finishes :
    (s : System)
    → Reach (initial 1 1) s
    → (t : System) × Reach s t × (t.shared.printed ≡ s.shared.made)
Reach-finishes s r =
    subst (λ (u : System). (t : System) × Reach u t × (t.shared.printed ≡ u.shared.made)) (sym same)
      (f.last, f.leads.reached, f.all_printed ∙ f.leads.kept)
  where
    i : IsPair s
    i = Reach-IsPair s r

    same : s ≡ pair s.shared i.client i.printer
    same =
        ap₂ (λ cs ps. record { shared = s.shared; clients = cs; printers = ps }) i.clients
          i.printers

    f : Finished (pair s.shared i.client i.printer)
    f = finish s.shared i.client i.printer (subst IsPair same i)
