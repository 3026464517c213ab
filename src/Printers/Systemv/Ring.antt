-- ===== src/Printers/Systemv/Ring.antt =====
-- The ring of lab7/src/clients_systemv.c as a queue of documents.
use cs_os.Prelude.{
  ℕ, zero, suc, ◌+◌, ◌%◌, ◌<◌, ◌≡◌, refl, sym, ap, ap₂, ◌∙◌, List, [], ◌∷◌, ◌++◌, arith, length,
  get_or, get_or-modify_self, get_or-modify_ne, modify,
}
use cs_os.Printers.Systemv.{max_msg}

-- `n` documents from the index `h` on, round the ring.
abbrev pub window : List (List ℕ) → ℕ → ℕ → List (List ℕ)
window jobs h zero = []
window jobs h (suc n) = get_or jobs h [] ∷ window jobs ((h + 1) % max_msg) n

window-modify_ne :
    (jobs : List (List ℕ)) (h n i : ℕ) (f : List ℕ → List ℕ)
    → h < max_msg
    → n < max_msg
    → i ≡ (h + n) % max_msg
    → window (modify jobs i f) h n ≡ window jobs h n
window-modify_ne jobs h zero i f hh hn e = refl
window-modify_ne jobs h (suc n) i f hh hn e =
    ap₂ ◌∷◌ (get_or-modify_ne jobs i h f [] (omega (arith, e))) (
      window-modify_ne jobs ((h + 1) % max_msg) n i f (omega arith) (omega arith)
        (omega (arith, e)))

window-last :
    (jobs : List (List ℕ)) (h n : ℕ)
    → h < max_msg
    → window jobs h (suc n) ≡ window jobs h n ++ get_or jobs ((h + n) % max_msg) [] ∷ []
window-last jobs h zero hh = ap (λ i. get_or jobs i [] ∷ []) (omega arith)
window-last jobs h (suc n) hh = ap (◌∷◌ (get_or jobs h [])) (
    window-last jobs ((h + 1) % max_msg) n (omega arith)
    ∙ ap (λ i. window jobs ((h + 1) % max_msg) n ++ get_or jobs i [] ∷ []) (omega arith))

-- A document stored behind the window extends it.
pub window-store :
    (jobs : List (List ℕ)) (h n i : ℕ) (f : List ℕ → List ℕ) (doc : List ℕ)
    → h < max_msg
    → n < max_msg
    → length jobs ≡ max_msg
    → i ≡ (h + n) % max_msg
    → f (get_or jobs i []) ≡ doc
    → window (modify jobs i f) h (suc n) ≡ window jobs h n ++ doc ∷ []
window-store jobs h n i f doc hh hn l e d =
    window-last (modify jobs i f) h n hh
    ∙ ap₂ (λ xs x. xs ++ x ∷ []) (window-modify_ne jobs h n i f hh hn e)
        (ap (λ k. get_or (modify jobs i f) k []) (sym e)
          ∙ get_or-modify_self jobs i f [] (omega (arith, l, e))
          ∙ d)
