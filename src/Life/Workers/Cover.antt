-- ===== src/Life/Workers/Cover.antt =====
-- The rows that the threads of lab8/src/simulation.c are given cover the grid.
use cs_os.Prelude.{
  ℕ, zero, suc, ◌+◌, ◌-◌, ◌*◌, ◌/◌, ◌≤◌, ◌<◌, ◌≡◌, refl, ◌⊎◌, inl, inr, List, [], ◌∷◌, ◌++◌, arith,
  ◌==◌, if◌then◌else◌, Bool-cases, ==_iff, ltb, ltb→lt,
}
use cs_os.Life.Grid.{grid_width, grid_height}
use cs_os.Life.Workers.{ThreadData, thread_data, row_cells, rows_cells, worker_cells}

-- This cell is among those.
abbrev pub Has : (y x : ℕ) → List (ℕ × ℕ) → Type 0
Has y x [] = ⊥
Has y x ((a, b) ∷ cells) = ((a ≡ y) × (b ≡ x)) ⊎ Has y x cells

-- All these cells lie in the columns of the grid.
abbrev pub InColumns : List (ℕ × ℕ) → Type 0
InColumns [] = Unit
InColumns ((a, b) ∷ cells) = (b < grid_width) × InColumns cells

Has-append : (y x : ℕ) (cs ds : List (ℕ × ℕ)) → Has y x cs ⊎ Has y x ds → Has y x (cs ++ ds)
Has-append y x [] ds (inl h) = absurd h
Has-append y x [] ds (inr h) = h
Has-append y x ((a, b) ∷ cs) ds (inl (inl e)) = inl e
Has-append y x ((a, b) ∷ cs) ds (inl (inr h)) = inr (Has-append y x cs ds (inl h))
Has-append y x ((a, b) ∷ cs) ds (inr h) = inr (Has-append y x cs ds (inr h))

InColumns-append : (cs ds : List (ℕ × ℕ)) → InColumns cs → InColumns ds → InColumns (cs ++ ds)
InColumns-append [] ds h k = k
InColumns-append ((a, b) ∷ cs) ds h k = (h.0, InColumns-append cs ds h.1 k)

Has-row_cells :
    (y x from rounds : ℕ) → from ≤ x → x < from + rounds → Has y x (row_cells y from rounds)
unfolding row_cells
Has-row_cells y x from zero l h = absurd (omega arith)
Has-row_cells y x from (suc rounds) l h = elim (Bool-cases (from == x)) [
  | inl e ↦ inl (refl, (==_iff from x).0 e)
  | inr ne ↦ inr (Has-row_cells y x (from + 1) rounds (ground arith) (omega arith))
]

InColumns-row_cells :
    (y from rounds : ℕ) → from + rounds ≤ grid_width → InColumns (row_cells y from rounds)
unfolding row_cells
InColumns-row_cells y from zero h = tt
InColumns-row_cells y from (suc rounds) h =
    (omega arith, InColumns-row_cells y (from + 1) rounds (omega arith))

pub Has-rows_cells :
    (y x from rounds : ℕ)
    → from ≤ y
    → y < from + rounds
    → x < grid_width
    → Has y x (rows_cells from rounds)
unfolding rows_cells
Has-rows_cells y x from zero l h w = absurd (omega arith)
Has-rows_cells y x from (suc rounds) l h w = elim (Bool-cases (from == y)) [
  | inl e ↦
      Has-append y x (row_cells from 0 grid_width) _
        (inl (rw ((==_iff from y).0 e) (Has-row_cells y x 0 grid_width (omega arith) w)))
  | inr ne ↦
      Has-append y x (row_cells from 0 grid_width) _
        (inr (Has-rows_cells y x (from + 1) rounds (ground arith) (omega arith) w))
]

pub InColumns-rows_cells : (from rounds : ℕ) → InColumns (rows_cells from rounds)
unfolding rows_cells
InColumns-rows_cells from zero = tt
InColumns-rows_cells from (suc rounds) =
    InColumns-append (row_cells from 0 grid_width) _
      (InColumns-row_cells from 0 grid_width (omega arith)) (InColumns-rows_cells (from + 1) rounds)

pub InColumns-worker_cells : (d : ThreadData) → InColumns (worker_cells d)
unfolding worker_cells
InColumns-worker_cells d = InColumns-rows_cells d.start_row (d.end_row - d.start_row)

pub Has-worker_cells :
    (y x : ℕ) (d : ThreadData)
    → d.start_row ≤ y
    → y < d.end_row
    → x < grid_width
    → Has y x (worker_cells d)
unfolding worker_cells
Has-worker_cells y x d l h w =
    Has-rows_cells y x d.start_row (d.end_row - d.start_row) l (omega arith) w

-- A row below `k` blocks of `q` rows lies in one of them.
block : (y q k : ℕ) → y < k * q → (i : ℕ) × (i < k) × (i * q ≤ y) × (y < (i + 1) * q)
block y q zero h = absurd (omega arith)
block y q (suc k) h = elim (Bool-cases (ltb y (k * q))) [
  | inl l ↦ let (i, lt, low, high) = block y q k (ltb→lt y (k * q) l) in (i, omega arith, low, high)
  | inr g ↦ (k, omega arith, ground arith, omega arith)
]

-- Every row of the grid is some thread's, for any number of threads but 0.
pub row_owner :
    (n y : ℕ)
    → 1 ≤ n
    → y < grid_height
    → (i : ℕ) × (i < n) × ((thread_data n i).start_row ≤ y) × (y < (thread_data n i).end_row)
unfolding thread_data
row_owner zero y h l = absurd (omega arith)
row_owner (suc k) y h l = elim (Bool-cases (ltb y (k * (grid_height / suc k)))) [
  | inl s ↦
      let (i, lt, low, high) = block y (grid_height / suc k) k (ltb→lt _ _ s) in
      (i, omega arith, low, inner i lt high)
  | inr g ↦ (k, omega arith, ground arith, last)
]
  where
    inner :
        (i : ℕ)
        → i < k
        → y < (i + 1) * (grid_height / suc k)
        → y < (if i + 1 == suc k then grid_height else (i + 1) * (grid_height / suc k))
    inner i lt high = ground arith

    last : y < (if k + 1 == suc k then grid_height else (k + 1) * (grid_height / suc k))
    last = ground arith
