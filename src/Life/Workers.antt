-- ===== src/Life/Workers.antt =====
-- lab8/src/simulation.c: the worker threads of one generation, in any interleaving.
pub mod Cover
pub mod Generation
pub mod Finish
use cs_os.Prelude.{
  ℕ, zero, suc, ◌+◌, ◌-◌, ◌*◌, ◌/◌, ◌≡◌, Bool, List, [], ◌∷◌, ◌++◌, ◌==◌, ltb, if◌then◌else◌,
}
use cs_os.Life.Grid.{grid_width, grid_height, update_cell}

-- `ThreadDataTypeDef`; the width is that of the grid, and the grids are those of the round.
pub record ThreadData : Type 0 where
  pub start_row : ℕ
  pub end_row : ℕ

-- The rows that `main` gives thread `i` of `n_threads`.
unfoldable pub thread_data : (n_threads i : ℕ) → ThreadData
thread_data n_threads i = record {
  start_row = i * (grid_height / n_threads);
  end_row = if i + 1 == n_threads then grid_height else (i + 1) * (grid_height / n_threads);
}

-- The cells of row `y` from column `x`.
unfoldable pub row_cells : (y x rounds : ℕ) → List (ℕ × ℕ)
row_cells y x zero = []
row_cells y x (suc rounds) = (y, x) ∷ row_cells y (x + 1) rounds

unfoldable pub rows_cells : (y rounds : ℕ) → List (ℕ × ℕ)
unfolding row_cells
rows_cells y zero = []
rows_cells y (suc rounds) = row_cells y 0 grid_width ++ rows_cells (y + 1) rounds

-- The cells that a worker assigns in one round of `worker_function`, in order.
unfoldable pub worker_cells : ThreadData → List (ℕ × ℕ)
unfolding rows_cells
worker_cells data_ = rows_cells data_.start_row (data_.end_row - data_.start_row)

-- The new grid, and what each thread still has to assign.
pub record Round : Type 0 where
  pub background : List Bool
  pub remaining : ℕ → List (ℕ × ℕ)

unfoldable pub round_start : (n_threads : ℕ) → List Bool → Round
unfolding worker_cells thread_data
round_start n_threads background = record {
  background = background;
  remaining = λ i. if ltb i n_threads then worker_cells (thread_data n_threads i) else [];
}

-- Some thread does its next assignment.
pub data Step (foreground : List Bool) (s t : Round) : Type 0 where
  assign :
      (i y x : ℕ) (rest : List (ℕ × ℕ))
      → s.remaining i ≡ (y, x) ∷ rest
      → t ≡ record {
        background = update_cell foreground y x s.background;
        remaining = λ j. if j == i then rest else s.remaining j;
      }
      → Step foreground s t

pub data Steps (foreground : List Bool) (s : Round) : Round → Type 0 where
  none_yet : Steps foreground s s
  more : {t u : Round} → Steps foreground s t → Step foreground t u → Steps foreground s u
