-- ===== src/Printers/Posix/Stall.antt =====
-- A full ring of lab7/src/printers_posix.c looks empty: `in` has come round to `out`.
use cs_os.Prelude.{
  ℕ, zero, suc, ◌≡◌, refl, sym, ap, ◌∙◌, subst, Bool, true, false, none, some, List, [], ◌∷◌, ◌==◌,
  arith, get_elem?, modify, replicate, if-cases,
}
use cs_os.Printers.Documents.{All}
use cs_os.Printers.Posix.{
  Shared, ClientPhase, PrinterPhase, composing, waiting, storing, looking, saw_out, saw_in, taking,
  printing, posting, client_step, printer_step, System, Step, client_moves, printer_moves, Reach,
  start, then_step,
}

abbrev pub IsQueuing : ClientPhase → Type 0
IsQueuing (waiting doc) = Unit
IsQueuing _ = ⊥

-- At the question, or with an index read that is as it was.
abbrev pub IsAsking : Shared → PrinterPhase → Type 0
IsAsking m looking = Unit
IsAsking m (saw_out value) = value ≡ m.next_out
IsAsking m (saw_in value) = value ≡ m.next_in
IsAsking m _ = ⊥

-- No place is free, the indices are equal, and nobody is in the middle of anything.
pub record IsStalled (s : System) : Type 0 where
  pub none_free : s.shared.sem ≡ 0
  pub meet : s.shared.next_in ≡ s.shared.next_out
  pub queuing : All IsQueuing s.clients
  pub asking : All (IsAsking s.shared) s.printers

module _ {ℓ κ} {A : Type ℓ} (P : A → Type κ) where
  pub All-get_elem? : (xs : List A) (n : ℕ) (x : A) → All P xs → get_elem? xs n ≡ some x → P x
  All-get_elem? [] n x a e = absurd (cc e)
  All-get_elem? (y ∷ xs) zero x a e = let same : y ≡ x = cc e in subst P same a.0
  All-get_elem? (y ∷ xs) (suc n) x a e = All-get_elem? xs n x a.1 e

  pub All-put : (xs : List A) (n : ℕ) (x : A) → P x → All P xs → All P (modify xs n (λ _. x))
  All-put [] n x p a = tt
  All-put (y ∷ xs) zero x p a = (p, a.1)
  All-put (y ∷ xs) (suc n) x p a = (a.0, All-put xs n x p a.1)

  pub All-replicate : (n : ℕ) (x : A) → P x → All P (replicate n x)
  All-replicate zero x p = tt
  All-replicate (suc n) x p = (p, All-replicate n x p)

-- A client that waits goes on waiting.
client_step-IsQueuing :
    (rand : ℕ → ℕ) (m : Shared) (c : ClientPhase)
    → m.sem ≡ 0
    → IsQueuing c
    → client_step rand m c ≡ none
unfolding client_step
client_step-IsQueuing rand m composing z q = absurd q
client_step-IsQueuing rand m (waiting doc) z q = ground arith
client_step-IsQueuing rand m (storing doc) z q = absurd q
client_step-IsQueuing rand m (ClientPhase.reading doc) z q = absurd q
client_step-IsQueuing rand m (ClientPhase.writing doc value) z q = absurd q

-- A printer that asks goes on asking.
printer_step-IsAsking :
    (doc : List ℕ) (out_first : Bool) (m : Shared) (p : PrinterPhase)
    → m.next_in ≡ m.next_out
    → IsAsking m p
    → ((printer_step doc out_first m p).0 ≡ m) × IsAsking m (printer_step doc out_first m p).1
unfolding printer_step
printer_step-IsAsking doc true m looking e a = (refl, refl)
printer_step-IsAsking doc false m looking e a = (refl, refl)
printer_step-IsAsking doc out_first m (saw_out value) e a =
    (refl, if-cases (IsAsking m) (value == m.next_in) looking taking (λ h. tt) (λ h. ground arith))
printer_step-IsAsking doc out_first m (saw_in value) e a =
    (refl, if-cases (IsAsking m) (m.next_out == value) looking taking (λ h. tt) (λ h. ground arith))
printer_step-IsAsking doc out_first m taking e a = absurd a
printer_step-IsAsking doc out_first m (PrinterPhase.reading job) e a = absurd a
printer_step-IsAsking doc out_first m (PrinterPhase.writing job value) e a = absurd a
printer_step-IsAsking doc out_first m (printing job) e a = absurd a
printer_step-IsAsking doc out_first m posting e a = absurd a

Step-IsStalled :
    (s t : System) → Step s t → IsStalled s → IsStalled t × (t.shared.printed ≡ s.shared.printed)
Step-IsStalled _ _ (client_moves s n rand c c' m at e) i =
    let waits =
      client_step-IsQueuing rand s.shared c i.none_free
        (All-get_elem? IsQueuing s.clients n c i.queuing at) in
    absurd (cc (waits, e))
Step-IsStalled _ _ (printer_moves s n doc out_first p l at) i =
    let (same, asks) =
      printer_step-IsAsking doc out_first s.shared p i.meet
        (All-get_elem? (IsAsking s.shared) s.printers n p i.asking at) in
    (
      subst
          (λ m. IsStalled (record {
            shared = m;
            clients = s.clients;
            printers = modify s.printers n (λ _. (printer_step doc out_first s.shared p).1);
          }))
          (sym same)
          (record {
            none_free = i.none_free;
            meet = i.meet;
            queuing = i.queuing;
            asking = All-put (IsAsking s.shared) s.printers n _ asks i.asking;
          }),
      ap (λ (m : Shared). m.printed) same,
    )

pub Reach-IsStalled :
    (s t : System) → IsStalled s → Reach s t → IsStalled t × (t.shared.printed ≡ s.shared.printed)
Reach-IsStalled s _ i start = (i, refl)
Reach-IsStalled s _ i (then_step t u r st) =
    let (j, e) = Reach-IsStalled s t i r in let (k, f) = Step-IsStalled t u st j in (k, f ∙ e)
