-- ===== src/Printers/Tests.antt =====
-- Runs of the printers of lab7/src on small inputs.
use cs_os.Prelude.{
  ℕ, ◌+◌, ◌≤◌, ◌≡◌, refl, subst, Option, none, some, List, [], ◌∷◌, ◌++◌, length, modify, get_elem?,
  replicate, Option-cases, inl, inr,
}
use cs_os.Chat.CString.{codes, zeros}
use cs_os.Printers.{set_doc, strcpy, msg_size}
use cs_os.Printers.Posix
use cs_os.Printers.Posix.Full.{initial-stalls}
use cs_os.Printers.Systemv.{
  System, ClientPhase, PrinterPhase, composing, client_step, printer_step, Step, client_moves,
  printer_moves, Reach, start, then_step, initial, fresh,
}
use cs_os.Printers.Systemv.Balance.{IsBalanced, Reach-IsBalanced}
use cs_os.Printers.Systemv.Order.{Reach-printed}
use cs_os.Printers.Systemv.Progress.{Reach-finishes}

-- 'a', 'd', 'g', and so on, round the alphabet.
abbrev thirds : ℕ → ℕ
thirds i = i + i + i

a_to_b : set_doc thirds ≡ codes "adgjmpsvyb" ++ 0 ∷ []
unfolding set_doc
a_to_b = refl

-- What stands behind the 0 stays.
shorter : strcpy (codes "abcdef") (codes "xy") ≡ codes "xy" ++ 0 ∷ codes "def"
unfolding strcpy
shorter = refl

abbrev doc : List ℕ
doc = codes "adgjmpsvyb" ++ 0 ∷ []

-- Whose turn it is.
data Turn : Type 0 where
  client printer : ℕ → Turn

turn : Turn → System → Option System
unfolding client_step printer_step
turn (client n) s = elim (get_elem? s.clients n) [
  | none ↦ none
  | some c ↦ elim (client_step thirds s.shared c) [
    | none ↦ none
    | some (m, c') ↦ some (record s { shared = m; clients = modify s.clients n (λ _. c') })
  ]
]
turn (printer n) s = elim (get_elem? s.printers n) [
  | none ↦ none
  | some p ↦ elim (printer_step (zeros msg_size) s.shared p) [
    | none ↦ none
    | some (m, p') ↦ some (record s { shared = m; printers = modify s.printers n (λ _. p') })
  ]
]

turn-Step : (w : Turn) (s t : System) → turn w s ≡ some t → Step s t
unfolding turn
turn-Step (client n) s t e = elim (Option-cases (get_elem? s.clients n)) [
  | inl q ↦ let h = rw (q, turn) at e in absurd (cc h)
  | inr (c, q) ↦ elim (Option-cases (client_step thirds s.shared c)) [
    | inl r ↦ let h = rw (q, r, turn) at e in absurd (cc h)
    | inr ((m, c'), r) ↦
        let h = rw (q, r, turn) at e in
        let same : record s { shared = m; clients = modify s.clients n (λ _. c') } ≡ t = cc h in
        subst (Step s) same (client_moves s n thirds c c' m q r)
  ]
]
turn-Step (printer n) s t e = elim (Option-cases (get_elem? s.printers n)) [
  | inl q ↦ let h = rw (q, turn) at e in absurd (cc h)
  | inr (p, q) ↦ elim (Option-cases (printer_step (zeros msg_size) s.shared p)) [
    | inl r ↦ let h = rw (q, r, turn) at e in absurd (cc h)
    | inr ((m, p'), r) ↦
        let h = rw (q, r, turn) at e in
        let same : record s { shared = m; printers = modify s.printers n (λ _. p') } ≡ t = cc h in
        subst (Step s) same (printer_moves s n (zeros msg_size) p p' m refl q r)
  ]
]

turns : List Turn → System → Option System
turns [] s = some s
turns (w ∷ ws) s = elim (turn w s) [ none ↦ none | some t ↦ turns ws t ]

turns-Reach : (ws : List Turn) (s t u : System) → Reach s t → turns ws t ≡ some u → Reach s u
unfolding turns
turns-Reach [] s t u r e = let same : t ≡ u = cc e in subst (Reach s) same r
turns-Reach (w ∷ ws) s t u r e = elim (Option-cases (turn w t)) [
  | inl q ↦ let h = rw (q, turns) at e in absurd (cc h)
  | inr (v, q) ↦ turns-Reach ws s v u (then_step t v r (turn-Step w t v q)) (rw (q, turns) at e)
]

-- Two clients send, the second overtakes the first at the index, and the printer prints one.
abbrev both_send : List Turn
both_send =
    client 0
    ∷ client 1
    ∷ client 1
    ∷ client 1
    ∷ client 1
    ∷ client 0
    ∷ client 1
    ∷ client 1
    ∷ client 0
    ∷ printer 0
    ∷ printer 0
    ∷ []

abbrev both_sent : System
both_sent = record {
  shared = record {
    jobs = doc ∷ doc ∷ replicate 8 (zeros 11);
    next_in = 1;
    next_out = 0;
    empty = 8;
    full = 0;
    made = doc ∷ doc ∷ [];
    printed = [];
  };
  clients = ClientPhase.reading doc ∷ composing ∷ [];
  printers = PrinterPhase.reading doc ∷ [];
}

both_sent_lem : turns both_send (initial 2 1) ≡ some both_sent
unfolding turns turn client_step printer_step initial fresh
both_sent_lem = refl

-- The client sends one document and makes another; the printer prints the first.
abbrev one_printed : List Turn
one_printed =
    client 0
    ∷ client 0
    ∷ client 0
    ∷ client 0
    ∷ client 0
    ∷ client 0
    ∷ printer 0
    ∷ client 0
    ∷ printer 0
    ∷ printer 0
    ∷ printer 0
    ∷ client 0
    ∷ printer 0
    ∷ printer 0
    ∷ client 0
    ∷ []

abbrev second_stored : System
second_stored = record {
  shared = record {
    jobs = doc ∷ doc ∷ replicate 8 (zeros 11);
    next_in = 1;
    next_out = 1;
    empty = 9;
    full = 0;
    made = doc ∷ doc ∷ [];
    printed = doc ∷ [];
  };
  clients = ClientPhase.reading doc ∷ [];
  printers = PrinterPhase.waiting ∷ [];
}

one_printed_lem : turns one_printed (initial 1 1) ≡ some second_stored
unfolding turns turn client_step printer_step initial fresh
one_printed_lem = refl

reached_two : Reach (initial 2 1) both_sent
reached_two = turns-Reach both_send (initial 2 1) (initial 2 1) both_sent start both_sent_lem

reached_one : Reach (initial 1 1) second_stored
reached_one =
    turns-Reach one_printed (initial 1 1) (initial 1 1) second_stored start one_printed_lem

Reach-IsBalanced_example : IsBalanced both_sent
Reach-IsBalanced_example = Reach-IsBalanced 2 1 both_sent reached_two

Reach-printed_example :
    (rest : List (List ℕ)) × (second_stored.shared.made ≡ second_stored.shared.printed ++ rest)
    × (length rest ≤ 12)
Reach-printed_example = Reach-printed second_stored reached_one

Reach-finishes_example :
    (t : System) × Reach second_stored t × (t.shared.printed ≡ second_stored.shared.made)
Reach-finishes_example = Reach-finishes second_stored reached_one

initial-stalls_example :
    (s : Posix.System) × Posix.Reach (Posix.initial 3 2) s
    × (length s.shared.made ≡ 23)
    × ((t : Posix.System) → Posix.Reach s t → t.shared.printed ≡ [])
initial-stalls_example = initial-stalls 2 2
