-- ===== src/Collatz/Orbit.antt =====
-- What the program of lab1/src/client_static.c prints, by the way from a number to 1.
use cs_os.Prelude.{
  ℕ, zero, suc, ◌+◌, ◌<◌, ◌≤◌, ◌≡◌, refl, ap, false, arith, leb, ◌==◌, if◌then◌else◌, some, List,
  [], ◌∷◌, ◌++◌, ℤ, pos, eq_ℤ, length, take, Bool-cases, inl, inr, subst, length-take,
}
use cs_os.Collatz.{
  collatz_conjecture, iterate, last_of, result_of, test_collatz_convergence, Report, managed,
  did_not_converge, undefined, client,
}

-- The numbers from this one to the first 1.
pub data Orbit : ℤ → List ℤ → Type 0 where
  one : Orbit (pos 1) (pos 1 ∷ [])
  next :
      (x y : ℤ) (s : List ℤ)
      → eq_ℤ x (pos 1) ≡ false
      → collatz_conjecture x ≡ some y
      → Orbit y s
      → Orbit x (x ∷ s)

-- The array of that many entries must hold the whole way; with one entry less the code still
-- writes the 1.
abbrev pub report_of : ℕ → List ℤ → Report
report_of available s =
    if leb (length s) available
    then managed s
    else if length s == available + 1
    then undefined
    else did_not_converge (take available s)

length-Orbit : (x : ℤ) (s : List ℤ) → Orbit x s → 1 ≤ length s
length-Orbit _ _ one = omega arith
length-Orbit _ _ (next x y t off e o) = omega arith

iterate-reached :
    (x : ℤ) (s : List ℤ) (m : ℕ)
    → Orbit x s
    → length s ≤ m + 1
    → (v : List ℤ) × (iterate m x ≡ some (v, pos 1)) × (v ++ (pos 1 ∷ []) ≡ s)
unfolding iterate
iterate-reached _ _ zero one l = ([], refl, refl)
iterate-reached _ _ (suc m) one l = ([], refl, refl)
iterate-reached _ _ zero (next x y t off e o) l = absurd (omega (arith, l, length-Orbit y t o))
iterate-reached _ _ (suc m) (next x y t off e o) l =
    let (v, q, r) = iterate-reached y t m o (omega (arith, l)) in
    (x ∷ v, rw (off, e, q) refl, ap (λ w. x ∷ w) r)

iterate-cut :
    (x : ℤ) (s : List ℤ) (m : ℕ)
    → Orbit x s
    → m + 1 < length s
    → (y : ℤ) × (iterate m x ≡ some (take m s, y)) × (eq_ℤ y (pos 1) ≡ false)
unfolding iterate
iterate-cut _ _ m one l = absurd (omega (arith, l))
iterate-cut _ _ zero (next x y t off e o) l = (x, refl, off)
iterate-cut _ _ (suc m) (next x y t off e o) l =
    let (z, q, r) = iterate-cut y t m o (omega (arith, l)) in (z, rw (off, e, q) refl, r)

last_of-append : (x z : ℤ) (s : List ℤ) → last_of x (s ++ (z ∷ [])) ≡ z
unfolding last_of
last_of-append x z [] = refl
last_of-append x z (y ∷ s) = last_of-append y z s

take-all : (s : List ℤ) → take (length s) s ≡ s
take-all [] = refl
take-all (x ∷ s) = ap (λ t. x ∷ t) (take-all s)

take-take : (n : ℕ) (s : List ℤ) → take n (take n s) ≡ take n s
take-take zero s = refl
take-take (suc n) [] = refl
take-take (suc n) (x ∷ s) = ap (λ t. x ∷ t) (take-take n s)

-- Before the end of the way there is no 1.
last_of-take :
    (x y : ℤ) (s : List ℤ) (m : ℕ)
    → eq_ℤ x (pos 1) ≡ false
    → Orbit y s
    → m < length s
    → eq_ℤ (last_of x (take m s)) (pos 1) ≡ false
unfolding last_of
last_of-take x _ _ zero off o l = off
last_of-take x _ _ (suc m) off one l = absurd (omega (arith, l))
last_of-take x _ _ (suc m) off (next y z t away e o) l =
    last_of-take y z t m away o (omega (arith, l))

result_of-append :
    (v : List ℤ)
    → result_of (v ++ (pos 1 ∷ [])) ≡ some (length (v ++ (pos 1 ∷ [])), v ++ (pos 1 ∷ []))
unfolding result_of last_of
result_of-append [] = refl
result_of-append (x ∷ v) = rw (last_of-append x (pos 1) v) refl

-- The way is found where it is at most one entry longer than the number of iterations.
test_collatz_convergence-reached :
    (x : ℤ) (s : List ℤ) (m : ℕ)
    → Orbit x s
    → length s ≤ m + 1
    → test_collatz_convergence x (pos m) ≡ some (length s, s)
unfolding test_collatz_convergence
test_collatz_convergence-reached x s m o l =
    let (v, q, r) = iterate-reached x s m o l in
    subst (λ w. test_collatz_convergence x (pos m) ≡ some (length w, w)) r
      (rw (q, test_collatz_convergence) (result_of-append v))

-- A longer one is cut, and the result is 0.
test_collatz_convergence-cut :
    (x : ℤ) (s : List ℤ) (m : ℕ)
    → Orbit x s
    → suc m + 1 < length s
    → test_collatz_convergence x (pos (suc m)) ≡ some (0, take (suc m) s)
unfolding test_collatz_convergence result_of
test_collatz_convergence-cut _ _ m one l = absurd (omega (arith, l))
test_collatz_convergence-cut _ _ m (next x y t off e o) l =
    let (z, q, r) = iterate-cut x (x ∷ t) (suc m) (next x y t off e o) l in
    rw (q, r, last_of-take x y t m off o (omega (arith, l)), test_collatz_convergence) refl

-- For a number that comes to 1 and an array of at least one entry: the program prints the whole
-- way where the array holds it, it writes outside of the array where exactly one entry is missing,
-- and else it prints the beginning of the way and that it did not converge.
pub client-report_of :
    (x : ℤ) (s : List ℤ) (m : ℕ) → Orbit x s → client x (pos (suc m)) ≡ report_of (suc m) s
unfolding client
client-report_of x s m o = elim (Bool-cases (leb (length s) (suc m + 1))) [
  | inl e ↦
      rw (test_collatz_convergence-reached x s (suc m) o (ground (arith, e)), client, take-all s)
        (ground (arith, e, length-Orbit x s o))
  | inr e ↦
      rw (test_collatz_convergence-cut x s m o (ground (arith, e)), client, take-take (suc m) s)
        (ground (arith, e, length-take (suc m) s))
]
