-- ===== src/Collatz/Tests.antt =====
-- Runs of the search of lab1/src/collatz.c.
use cs_os.Prelude.{◌≡◌, refl, none, some, List, [], ◌∷◌, ℤ, pos, negsuc}
use cs_os.Collatz.{collatz_conjecture, client, managed, did_not_converge, undefined}
use cs_os.Collatz.Orbit.{Orbit, one, next, client-report_of}

negative_odd : collatz_conjecture (negsuc 2) ≡ some (negsuc 7)
unfolding collatz_conjecture
negative_odd = refl

too_large : collatz_conjecture (pos 715827883) ≡ none
unfolding collatz_conjecture
too_large = refl

abbrev from_three : List ℤ
from_three = pos 3 ∷ pos 10 ∷ pos 5 ∷ pos 16 ∷ pos 8 ∷ pos 4 ∷ pos 2 ∷ pos 1 ∷ []

enough_room : client (pos 3) (pos 8) ≡ managed from_three
unfolding client
enough_room = refl

cut_off : client (pos 3) (pos 2) ≡ did_not_converge (pos 3 ∷ pos 10 ∷ [])
unfolding client
cut_off = refl

-- Without an end.
from_zero : client (pos 0) (pos 3) ≡ did_not_converge (pos 0 ∷ pos 0 ∷ pos 0 ∷ [])
unfolding client
from_zero = refl

from_three-Orbit : Orbit (pos 3) from_three
unfolding collatz_conjecture
from_three-Orbit = next _ _ _ refl refl (
    next _ _ _ refl refl (
      next _ _ _ refl refl (
        next _ _ _ refl refl
          (next _ _ _ refl refl (next _ _ _ refl refl (next _ _ _ refl refl one))))))

client-report_of_example : client (pos 3) (pos 7) ≡ undefined
client-report_of_example = client-report_of (pos 3) from_three 6 from_three-Orbit
