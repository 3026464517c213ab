-- ===== src/MessageQueues/Laws.antt =====
-- What sscanf finds in the text that snprintf made, for lab6/src.
use cs_os.Prelude.{ℕ, ◌+◌, ◌<◌, ◌≡◌, ◌≢◌, refl, false, some, List, [], ◌∷◌, ◌++◌, arith, pos}
use cs_os.Chat.CString.{cstr}
use cs_os.MessageQueues.{print_int, is_space, skip_space, scan_int, until_newline, scan_message}

-- No character ends the text or the line.
abbrev pub IsLine : List ℕ → Type 0
IsLine [] = Unit
IsLine (c ∷ cs) = (c ≢ 0) × (c ≢ 10) × IsLine cs

-- A line that begins with no white space.
abbrev pub IsText : List ℕ → Type 0
IsText [] = ⊥
IsText (c ∷ cs) = (is_space c ≡ false) × IsLine (c ∷ cs)

pub cstr-IsLine : (t : List ℕ) → IsLine t → cstr (t ++ 0 ∷ []) ≡ t
unfolding cstr
cstr-IsLine [] h = refl
cstr-IsLine (c ∷ cs) h = ground (arith, cstr-IsLine cs h.2)

until_newline-IsLine : (t : List ℕ) → IsLine t → until_newline t ≡ t
unfolding until_newline
until_newline-IsLine [] h = refl
until_newline-IsLine (c ∷ cs) h = ground (arith, until_newline-IsLine cs h.2)

pub print_int-digit : (id : ℕ) → id < 10 → print_int (pos id) ≡ (48 + id) ∷ []
unfolding print_int
print_int-digit id h = ground arith

-- `%d` reads a digit before a blank.
scan_int-digit :
    (id : ℕ) (t : List ℕ) → id < 10 → scan_int ((48 + id) ∷ 32 ∷ t) ≡ some (pos id, 32 ∷ t)
unfolding scan_int
scan_int-digit id t h = ground arith

skip_space-IsText : (t : List ℕ) → IsText t → skip_space (32 ∷ t) ≡ t
unfolding skip_space
skip_space-IsText [] h = absurd h
skip_space-IsText (c ∷ cs) h = ground arith

-- A digit, a blank and a text are read as they are.
pub scan_message-text :
    (id : ℕ) (t : List ℕ)
    → id < 10
    → IsText t
    → scan_message ((48 + id) ∷ 32 ∷ t) ≡ some (pos id, t)
unfolding scan_message
scan_message-text id [] h x = absurd x
scan_message-text id (c ∷ cs) h x =
    rw
      (
        scan_int-digit id (c ∷ cs) h,
        skip_space-IsText (c ∷ cs) x,
        until_newline-IsLine (c ∷ cs) x.1,
        scan_message,
      )
      refl
