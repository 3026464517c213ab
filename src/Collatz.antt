-- ===== src/Collatz.antt =====
-- lab1/src/collatz.c, the search for 1, and the program around it, lab1/src/client_static.c, with
-- the numbers already read.
pub mod Orbit
pub mod Tests
use cs_os.Prelude.{
  ℕ, zero, suc, ◌+◌, ◌-◌, ◌*◌, ◌/◌, ◌%◌, ◌==◌, leb, ltb, if◌then◌else◌, Option, none, some, List,
  [], ◌∷◌, ◌++◌, ℤ, pos, negsuc, pos_part, eq_ℤ, length, take,
}

abbrev pub int_max : ℕ
int_max = 2147483647

-- `int`s; none where a computation leaves their range. A negative odd number has the remainder -1.
unfoldable pub collatz_conjecture : ℤ → Option ℤ
collatz_conjecture (pos n) =
    if n % 2 == 0
    then some (pos (n / 2))
    else if leb (3 * n + 1) int_max
    then some (pos (3 * n + 1))
    else none
collatz_conjecture (negsuc n) =
    if (n + 1) % 2 == 0
    then some (negsuc ((n + 1) / 2 - 1))
    else if leb (3 * (n + 1)) (int_max + 1)
    then some (negsuc (3 * (n + 1) - 2))
    else none

-- The loop with this many iterations left: what it writes, and `current` behind it.
unfoldable pub iterate : ℕ → ℤ → Option (List ℤ × ℤ)
unfolding collatz_conjecture
iterate zero current = some ([], current)
iterate (suc n) current =
    if eq_ℤ current (pos 1) then some ([], current) else elim (collatz_conjecture current) [
      | none ↦ none
      | some following ↦ elim (iterate n following) [
        | none ↦ none
        | some (steps, last) ↦ some (current ∷ steps, last)
      ]
    ]

unfoldable pub last_of : ℤ → List ℤ → ℤ
last_of x [] = x
last_of x (y ∷ ys) = last_of y ys

-- The test of the last entry; where there is none, `steps[-1]` is read.
unfoldable pub result_of : List ℤ → Option (ℕ × List ℤ)
unfolding last_of
result_of [] = none
result_of (x ∷ xs) = some (if eq_ℤ (last_of x xs) (pos 1) then length (x ∷ xs) else 0, x ∷ xs)

-- The result and the entries written, from the first on. The array is taken to have room.
unfoldable pub test_collatz_convergence : ℤ → ℤ → Option (ℕ × List ℤ)
unfolding iterate result_of
test_collatz_convergence input max_iter = elim (iterate (pos_part max_iter) input) [
  | none ↦ none
  | some (visited, current) ↦
      result_of (if eq_ℤ current (pos 1) then visited ++ (pos 1 ∷ []) else visited)
]

-- What the program prints: the numbers on the way to 1, or those of a way that was too long.
pub data Report : Type 0 where
  managed : List ℤ → Report
  did_not_converge : List ℤ → Report
  undefined : Report

-- The array has `available_steps` entries, and must have one.
unfoldable pub client : ℤ → ℤ → Report
unfolding test_collatz_convergence
client tested_number available_steps =
    let available = pos_part available_steps in
    if available == 0
    then undefined
    else elim (test_collatz_convergence tested_number available_steps) [
      | none ↦ undefined
      | some (amount_of_steps, steps) ↦
          if ltb available (length steps)
          then undefined
          else if ltb 0 amount_of_steps
          then managed (take amount_of_steps steps)
          else did_not_converge (take available steps)
    ]
