-- ===== src/Prelude/Search.antt =====
-- Loops over an array: the first index that passes a test, an update at an index, a counted loop.
use Prim.Native.Nat.{ℕ, zero, suc, ◌+◌, ◌≤◌, ◌<◌}
use mathlib.Core.Path.{◌≡◌, refl, sym, ap, subst}
use mathlib.Core.Logic.{◌≢◌, ◌⊎◌, inl, inr}
use mathlib.Core.Bool.{Bool, true, false}
use mathlib.Core.List.{List, [], ◌∷◌}
use mathlib.Core.Option.{Option, none, some}
use native.Mathlib.Decide.{ℕ_discrete}
use native.Mathlib.Omega.{arith}
use cs_os.Prelude.Tests.{if◌then◌else◌, Bool-cases}
use cs_os.Prelude.Lists.{length, get_elem?, get_or, replicate}

-- `for (i = first; i < first + rounds; i++) state = round(i, state);`
unfoldable pub for_range {ℓ} : {S : Type ℓ} → (ℕ → S → S) → (first rounds : ℕ) → S → S
for_range round first zero state = state
for_range round first (suc left) state = for_range round (first + 1) left (round first state)

module _ {ℓ κ} {S : Type ℓ} (Good : S → Type κ) (round : ℕ → S → S) where
  -- What every round keeps, the loop keeps.
  pub for_range-keeps :
      ((k : ℕ) (state : S) → Good state → Good (round k state))
      → (first rounds : ℕ) (state : S) → Good state
      → Good (for_range round first rounds state)
  unfolding for_range
  for_range-keeps kept first zero state good = good
  for_range-keeps kept first (suc left) state good =
      for_range-keeps kept (first + 1) left (round first state) (kept first state good)

-- What one round brings about, and the others keep, holds at the end.
pub for_range-once {ℓ κ μ} :
    {S : Type ℓ} (Before : S → Type κ) (After : S → Type μ) (round : ℕ → S → S) (k : ℕ)
    → ((i : ℕ) (s : S) → i ≢ k → Before s → Before (round i s))
    → ((s : S) → Before s → After (round k s))
    → ((i : ℕ) (s : S) → i ≢ k → After s → After (round i s))
    → (first rounds : ℕ) (s : S) → first ≤ k
    → k < first + rounds
    → Before s
    → After (for_range round first rounds s)
unfolding for_range
for_range-once Before After round k keep turn stay first zero s l u b = absurd (omega arith)
for_range-once {S = S} Before After round k keep turn stay first (suc n) s l u b =
    elim (ℕ_discrete first k) [
      | yes e ↦
          past (first + 1) n (round first s) (omega arith)
            (subst (λ i. After (round i s)) (sym e) (turn s b))
      | no ne ↦
          for_range-once Before After round k keep turn stay (first + 1) n (round first s)
            (omega (arith, ne, l)) (omega (arith, u)) (keep first s ne b)
    ]
  where
    past : (first n : ℕ) (s : S) → k < first → After s → After (for_range round first n s)
    past first zero s l a = a
    past first (suc n) s l a =
        past (first + 1) n (round first s) (omega arith) (stay first s (λ e. omega (arith, l, e)) a)

module _ {ℓ} {A : Type ℓ} where
  -- `for (; i < n; i++) if (test(a[i])) return i;`
  unfoldable pub find_index : (A → Bool) → List A → ℕ → Option ℕ
  find_index test [] i = none
  find_index test (x ∷ xs) i = if test x then some i else find_index test xs (i + 1)

  -- The element at an index, changed; out of range nothing happens.
  abbrev pub modify : List A → ℕ → (A → A) → List A
  modify [] i f = []
  modify (x ∷ xs) zero f = f x ∷ xs
  modify (x ∷ xs) (suc i) f = x ∷ modify xs i f

  -- No element passes the test.
  abbrev pub NoneOf : (A → Bool) → List A → Type 0
  NoneOf test [] = Unit
  NoneOf test (x ∷ xs) = (test x ≡ false) × NoneOf test xs

  -- The element at this index passes the test, and none before it does.
  abbrev pub First : (A → Bool) → List A → ℕ → Type 0
  First test [] k = ⊥
  First test (x ∷ xs) zero = test x ≡ true
  First test (x ∷ xs) (suc k) = (test x ≡ false) × First test xs k

  find_index-from :
      (test : A → Bool) (xs : List A) (i : ℕ)
      → (NoneOf test xs × (find_index test xs i ≡ none))
        ⊎ ((k : ℕ) × First test xs k × (find_index test xs i ≡ some (i + k)))
  unfolding find_index
  find_index-from test [] i = inl (tt, refl)
  find_index-from test (x ∷ xs) i = elim (Bool-cases (test x)) [
    | inl e ↦ inr (0, e, ground arith)
    | inr e ↦ elim (find_index-from test xs (i + 1)) [
      | inl (n, q) ↦ inl ((e, n), rw e q)
      | inr (k, f, q) ↦ inr (suc k, (e, f), ground arith)
    ]
  ]

  -- The loop finds the first element that passes, and gives up only where none does.
  pub find_index-cases :
      (test : A → Bool) (xs : List A)
      → (NoneOf test xs × (find_index test xs 0 ≡ none))
        ⊎ ((k : ℕ) × First test xs k × (find_index test xs 0 ≡ some k))
  find_index-cases test xs = elim (find_index-from test xs 0) [
    | inl h ↦ inl h
    | inr (k, f, q) ↦ inr (k, f, ground arith)
  ]

  pub First-lt : (test : A → Bool) (xs : List A) (k : ℕ) → First test xs k → k < length xs
  First-lt test [] k f = absurd f
  First-lt test (x ∷ xs) zero f = omega arith
  First-lt test (x ∷ xs) (suc k) f = omega (arith, First-lt test xs k f.1)

  pub First-get_elem? :
      (test : A → Bool) (xs : List A) (k : ℕ)
      → First test xs k
      → (x : A) × (get_elem? xs k ≡ some x) × (test x ≡ true)
  First-get_elem? test [] k f = absurd f
  First-get_elem? test (x ∷ xs) zero f = (x, refl, f)
  First-get_elem? test (x ∷ xs) (suc k) f = First-get_elem? test xs k f.1

  pub length-modify : (xs : List A) (i : ℕ) (f : A → A) → length (modify xs i f) ≡ length xs
  length-modify [] i f = refl
  length-modify (x ∷ xs) zero f = refl
  length-modify (x ∷ xs) (suc i) f = ap suc (length-modify xs i f)

  pub get_elem?-modify_self :
      (xs : List A) (i : ℕ) (f : A → A) (x : A)
      → get_elem? xs i ≡ some x
      → get_elem? (modify xs i f) i ≡ some (f x)
  get_elem?-modify_self [] i f x h = cc
  get_elem?-modify_self (y ∷ xs) zero f x h = ground arith
  get_elem?-modify_self (y ∷ xs) (suc i) f x h = get_elem?-modify_self xs i f x h

  pub get_elem?-modify_ne :
      (xs : List A) (i j : ℕ) (f : A → A) → i ≢ j → get_elem? (modify xs i f) j ≡ get_elem? xs j
  get_elem?-modify_ne [] i j f h = refl
  get_elem?-modify_ne (x ∷ xs) zero zero f h = absurd (h refl)
  get_elem?-modify_ne (x ∷ xs) zero (suc j) f h = refl
  get_elem?-modify_ne (x ∷ xs) (suc i) zero f h = refl
  get_elem?-modify_ne (x ∷ xs) (suc i) (suc j) f h =
      get_elem?-modify_ne xs i j f (λ e. h (ap suc e))

  pub get_or-modify_self :
      (xs : List A) (i : ℕ) (f : A → A) (d : A)
      → i < length xs
      → get_or (modify xs i f) i d ≡ f (get_or xs i d)
  get_or-modify_self [] i f d h = absurd (omega arith)
  get_or-modify_self (x ∷ xs) zero f d h = refl
  get_or-modify_self (x ∷ xs) (suc i) f d h = get_or-modify_self xs i f d (omega arith)

  pub get_or-modify_ne :
      (xs : List A) (i j : ℕ) (f : A → A) (d : A)
      → i ≢ j
      → get_or (modify xs i f) j d ≡ get_or xs j d
  get_or-modify_ne [] i j f d h = refl
  get_or-modify_ne (x ∷ xs) zero zero f d h = absurd (h refl)
  get_or-modify_ne (x ∷ xs) zero (suc j) f d h = refl
  get_or-modify_ne (x ∷ xs) (suc i) zero f d h = refl
  get_or-modify_ne (x ∷ xs) (suc i) (suc j) f d h = get_or-modify_ne xs i j f d (λ e. h (ap suc e))

  abbrev pub total : (A → ℕ) → List A → ℕ
  total f [] = 0
  total f (x ∷ xs) = f x + total f xs

  -- What a change of one element does to the sum.
  pub total-modify :
      (g : A → ℕ) (xs : List A) (n : ℕ) (f : A → A) (x : A)
      → get_elem? xs n ≡ some x
      → total g (modify xs n f) + g x ≡ total g xs + g (f x)
  total-modify g [] n f x e = absurd (ground arith)
  total-modify g (z ∷ xs) zero f x e = let same : z ≡ x = cc e in rw same (omega arith)
  total-modify g (z ∷ xs) (suc n) f x e = omega (arith, total-modify g xs n f x e)

  pub total-replicate : (f : A → ℕ) (n : ℕ) (x : A) → f x ≡ 0 → total f (replicate n x) ≡ 0
  total-replicate f zero x e = refl
  total-replicate f (suc n) x e = omega (arith, e, total-replicate f n x e)

  First-find_index :
      (test : A → Bool) (xs : List A) (k i : ℕ)
      → First test xs k
      → find_index test xs i ≡ some (i + k)
  unfolding find_index
  First-find_index test [] k i f = absurd f
  First-find_index test (x ∷ xs) zero i f = ground arith
  First-find_index test (x ∷ xs) (suc k) i f =
      ground (arith, First-find_index test xs k (i + 1) f.1)

  pub find_index-First :
      (test : A → Bool) (xs : List A) (k : ℕ) → First test xs k → find_index test xs 0 ≡ some k
  find_index-First test xs k f = ground (arith, First-find_index test xs k 0 f)

  pub NoneOf-get_elem? :
      (test : A → Bool) (xs : List A) (k : ℕ) (x : A)
      → NoneOf test xs
      → get_elem? xs k ≡ some x
      → test x ≡ false
  NoneOf-get_elem? test [] k x n e = cc
  NoneOf-get_elem? test (y ∷ xs) zero x n e = ground (arith, n.0)
  NoneOf-get_elem? test (y ∷ xs) (suc k) x n e = NoneOf-get_elem? test xs k x n.1 e

  pub First-not-NoneOf :
      (test : A → Bool) (xs : List A) (k : ℕ) → First test xs k → NoneOf test xs → ⊥
  First-not-NoneOf test [] k f n = f
  First-not-NoneOf test (x ∷ xs) zero f n = cc (n.0)
  First-not-NoneOf test (x ∷ xs) (suc k) f n = First-not-NoneOf test xs k f.1 n.1
