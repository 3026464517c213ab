-- ===== src/Printers/Posix/Full.antt =====
-- How the clients of lab7/src/clients_posix.c fill the ring before a printer looks.
use cs_os.Prelude.{
  ℕ, zero, suc, ◌+◌, ◌-◌, ◌%◌, ◌≡◌, refl, ap, ◌∙◌, subst, some, List, [], ◌∷◌, ◌++◌, arith, length,
  get_elem?, modify, replicate, length-append,
}
use cs_os.Printers.{set_doc, strcpy}
use cs_os.Printers.Documents.{All, All-append}
use cs_os.Printers.Posix.{
  max_messages, Shared, ClientPhase, PrinterPhase, composing, waiting, storing, looking,
  client_step, System, client_moves, Reach, start, then_step, initial, fresh,
}
use cs_os.Printers.Posix.Stall.{IsStalled, IsQueuing, IsAsking, Reach-IsStalled, All-replicate}

Reach-trans : (s t u : System) → Reach s t → Reach t u → Reach s u
Reach-trans s t _ r start = r
Reach-trans s t u r (then_step v _ q st) = then_step v u (Reach-trans s t v r q) st

-- The first client stores a document while a place is free.
one_more : (ℕ → ℕ) → Shared → Shared
one_more rand m = record m {
  jobs = modify m.jobs m.next_in (λ slot. strcpy slot (set_doc rand));
  next_in = (m.next_in + 1) % max_messages;
  sem = m.sem - 1;
  made = m.made ++ set_doc rand ∷ [];
}

module _ (rand : ℕ → ℕ) (others : List ClientPhase) (printers : List PrinterPhase) where
  abbrev at : Shared → ClientPhase → System
  at m c = record { shared = m; clients = c ∷ others; printers = printers }

  moves :
      (s : System) (m m' : Shared) (c c' : ClientPhase)
      → client_step rand m c ≡ some (m', c')
      → Reach s (at m c)
      → Reach s (at m' c')
  moves s m m' c c' e r = then_step (at m c) _ r (client_moves (at m c) 0 rand c c' m' refl e)

  send_one :
      (m : Shared) (n : ℕ) → m.sem ≡ suc n → Reach (at m composing) (at (one_more rand m) composing)
  unfolding client_step one_more
  send_one m n e = moves _ m₃ _ (ClientPhase.writing doc m.next_in) composing refl (
      moves _ m₃ m₃ (ClientPhase.reading doc) (ClientPhase.writing doc m.next_in) refl (
        moves _ m₂ m₃ (storing doc) (ClientPhase.reading doc) refl (
          moves _ m₁ m₂ (waiting doc) (storing doc) (ground arith)
            (moves _ m m₁ composing (waiting doc) refl start))))
    where
      doc : List ℕ
      doc = set_doc rand

      m₁ : Shared
      m₁ = record m { made = m.made ++ doc ∷ [] }

      m₂ : Shared
      m₂ = record m₁ { sem = m.sem - 1 }

      m₃ : Shared
      m₃ = record m₂ { jobs = modify m.jobs m.next_in (λ slot. strcpy slot doc) }

  -- `n` documents in a row.
  record Filled (m : Shared) (n : ℕ) : Type 0 where
    after : Shared
    reached : Reach (at m composing) (at after composing)
    none_free : after.sem ≡ 0
    next : after.next_in ≡ (m.next_in + n) % max_messages
    out : after.next_out ≡ m.next_out
    grown : length after.made ≡ length m.made + n
    silent : after.printed ≡ m.printed

  send : (n : ℕ) (m : Shared) → m.sem ≡ n → m.next_in ≡ m.next_in % max_messages → Filled m n
  unfolding one_more
  send zero m e r = record {
    after = m;
    reached = start;
    none_free = e;
    next = omega arith;
    out = refl;
    grown = omega arith;
    silent = refl;
  }
  send (suc n) m e r =
      let f = send n (one_more rand m) (omega arith) (omega arith) in
      record {
        after = f.after;
        reached = Reach-trans _ _ _ (send_one m n e) f.reached;
        none_free = f.none_free;
        next = omega (arith, f.next);
        out = f.out;
        grown = omega (arith, f.grown, length-append {0} m.made (set_doc rand ∷ []));
        silent = f.silent;
      }

get_elem?-middle {ℓ} :
    {A : Type ℓ} (xs : List A) (x : A) (ys : List A) → get_elem? (xs ++ x ∷ ys) (length xs) ≡ some x
get_elem?-middle [] x ys = refl
get_elem?-middle (z ∷ xs) x ys = get_elem?-middle xs x ys

modify-middle {ℓ} :
    {A : Type ℓ} (xs : List A) (x y : A) (ys : List A)
    → modify (xs ++ x ∷ ys) (length xs) (λ _. y) ≡ (xs ++ y ∷ []) ++ ys
modify-middle [] x y ys = refl
modify-middle (z ∷ xs) x y ys = ap (◌∷◌ z) (modify-middle xs x y ys)

-- `n` clients of those behind make a document each, and find no free place.
record Queued (m : Shared) (front : List ClientPhase) (n : ℕ) (printers : List PrinterPhase)
    : Type 0 where
  shared : Shared
  clients : List ClientPhase
  reached :
      Reach
        (record { shared = m; clients = front ++ replicate n composing; printers = printers })
        (record { shared = shared; clients = clients; printers = printers })
  queuing : All IsQueuing clients
  sem : shared.sem ≡ m.sem
  next : shared.next_in ≡ m.next_in
  out : shared.next_out ≡ m.next_out
  grown : length shared.made ≡ length m.made + n
  silent : shared.printed ≡ m.printed

-- A client makes a document.
compose : (ℕ → ℕ) → Shared → Shared
compose rand m = record m { made = m.made ++ set_doc rand ∷ [] }

queue_one :
    (rand : ℕ → ℕ) (printers : List PrinterPhase) (n : ℕ) (m : Shared) (front : List ClientPhase)
    → Reach
        (record { shared = m; clients = front ++ replicate (suc n) composing; printers = printers })
        (record {
          shared = compose rand m;
          clients = (front ++ waiting (set_doc rand) ∷ []) ++ replicate n composing;
          printers = printers;
        })
unfolding client_step compose
queue_one rand printers n m front =
    subst
      (λ cs. Reach before (record { shared = compose rand m; clients = cs; printers = printers }))
      (modify-middle front composing (waiting (set_doc rand)) (replicate n composing))
      (then_step before _ start (
        client_moves before (length front) rand composing (waiting (set_doc rand)) (compose rand m)
          (get_elem?-middle front composing (replicate n composing)) refl))
  where
    before : System
    before = record {
      shared = m;
      clients = front ++ replicate (suc n) composing;
      printers = printers;
    }

queue_up :
    (rand : ℕ → ℕ) (printers : List PrinterPhase) (n : ℕ) (m : Shared) (front : List ClientPhase)
    → All IsQueuing front
    → Queued m front n printers
unfolding compose
queue_up rand printers zero m front a = record {
  shared = m;
  clients = front ++ [];
  reached = start;
  queuing = All-append IsQueuing front [] a tt;
  sem = refl;
  next = refl;
  out = refl;
  grown = omega arith;
  silent = refl;
}
queue_up rand printers (suc n) m front a =
    let q =
      queue_up rand printers n (compose rand m) (front ++ waiting (set_doc rand) ∷ [])
        (All-append IsQueuing front _ a (tt, tt)) in
    record {
      shared = q.shared;
      clients = q.clients;
      reached = Reach-trans _ _ _ (queue_one rand printers n m front) q.reached;
      queuing = q.queuing;
      sem = q.sem;
      next = q.next;
      out = q.out;
      grown = omega (arith, q.grown, length-append {0} m.made (set_doc rand ∷ []));
      silent = q.silent;
    }

-- With any number of clients, one at least, and of printers, the processes can come to a state in
-- which the clients have made twenty documents and one more each, and after which no printer ever
-- prints one.
pub initial-stalls :
    (clients printers : ℕ)
    → (s : System) × Reach (initial (suc clients) printers) s
      × (length s.shared.made ≡ 20 + suc clients)
      × ((t : System) → Reach s t → t.shared.printed ≡ [])
unfolding initial fresh
initial-stalls clients printers = (
  stalled,
  Reach-trans _ _ _ f.reached q.reached,
  omega (arith, q.grown, f.grown),
  λ t r. (Reach-IsStalled stalled t is_stalled r).1 ∙ (q.silent ∙ f.silent),
)
  where
    f : Filled (λ i. i) (replicate clients composing) (replicate printers looking) fresh 20
    f =
        send (λ i. i) (replicate clients composing) (replicate printers looking) 20 fresh refl
          (omega arith)

    q : Queued f.after [] (suc clients) (replicate printers looking)
    q = queue_up (λ i. i) (replicate printers looking) (suc clients) f.after [] tt

    stalled : System
    stalled = record {
      shared = q.shared;
      clients = q.clients;
      printers = replicate printers looking;
    }

    is_stalled : IsStalled stalled
    is_stalled = record {
      none_free = q.sem ∙ f.none_free;
      meet = omega (arith, q.next, q.out, f.next, f.out);
      queuing = q.queuing;
      asking = All-replicate (IsAsking q.shared) printers looking tt;
    }
