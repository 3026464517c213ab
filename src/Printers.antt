-- ===== src/Printers.antt =====
-- The printers of lab7/src: clients put documents into a ring in shared memory, and printers take
-- them out. What the System V and the POSIX programs share, word for word.
pub mod Systemv
pub mod Posix
pub mod Documents
mod Tests
use cs_os.Prelude.{ℕ, zero, suc, ◌+◌, ◌%◌, ◌≡◌, List, [], ◌∷◌, ◌++◌, length}
use cs_os.Chat.CString.{cstr, overwrite}

abbrev pub msg_size : ℕ
msg_size = 11

-- `n` rounds of the loop of `set_doc` from `i` on, and the 0 behind them. `rand i` is what the call
-- of `rand` in round `i` gives.
unfoldable pub letters : (ℕ → ℕ) → (i n : ℕ) → List ℕ
letters rand i zero = 0 ∷ []
letters rand i (suc n) = (97 + rand i % 26) ∷ letters rand (i + 1) n

unfoldable pub set_doc : (ℕ → ℕ) → List ℕ
unfolding letters
set_doc rand = letters rand 0 10

-- `strcpy`, where the text and its 0 fit.
unfoldable pub strcpy : List ℕ → List ℕ → List ℕ
unfolding cstr overwrite
strcpy dest src = overwrite dest (cstr src ++ 0 ∷ [])
