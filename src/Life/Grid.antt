-- ===== src/Life/Grid.antt =====
-- lab8/src/grid.c: the rule of the game and the update of the whole grid. A cell is a `char` that is
-- 0 or 1.
use cs_os.Prelude.{
  ℕ, ◌+◌, ◌-◌, ◌*◌, ◌<◌, ◌≡◌, ◌∙◌, Bool, false, ◌&&◌, ◌||◌, List, arith, ◌==◌, leb, if◌then◌else◌,
  length, get_or, set, for_range, length-set, get_or-set_self, get_or-set_ne,
}
use native.Mathlib.Decide.{ℕ_discrete}

abbrev pub grid_width : ℕ
grid_width = 35

abbrev pub grid_height : ℕ
grid_height = 35

-- What the neighbour in direction `(i, j)` adds to the count, for `di = i + 1` and `dj = j + 1`.
-- `r < 0` is `row + di == 0`, and `r >= GRID_HEIGHT` is `row + di >= GRID_HEIGHT + 1`.
unfoldable pub neighbour : List Bool → (row col di dj : ℕ) → ℕ
neighbour grid row col di dj =
    if (di == 1) && (dj == 1)
    then 0
    else if (row + di == 0)
        || leb (grid_height + 1) (row + di)
        || (col + dj == 0)
        || leb (grid_width + 1) (col + dj)
    then 0
    else if get_or grid (grid_width * (row + di - 1) + (col + dj - 1)) false
    then 1
    else 0

unfoldable pub count_alive : List Bool → (row col : ℕ) → ℕ
unfolding neighbour for_range
count_alive grid row col =
    for_range (λ di count. for_range (λ dj c. c + neighbour grid row col di dj) 0 3 count) 0 3 0

unfoldable pub is_alive : (row col : ℕ) → List Bool → Bool
unfolding count_alive
is_alive row col grid =
    let count = count_alive grid row col in
    if get_or grid (row * grid_width + col) false then (count == 2) || (count == 3) else count == 3

-- One assignment to the new grid.
unfoldable pub update_cell : List Bool → (row col : ℕ) → List Bool → List Bool
unfolding is_alive
update_cell src row col dst = set dst (row * grid_width + col) (is_alive row col src)

unfoldable pub update_row : List Bool → (row : ℕ) → List Bool → List Bool
unfolding update_cell for_range
update_row src row dst = for_range (update_cell src row) 0 grid_width dst

unfoldable pub update_grid : List Bool → List Bool → List Bool
unfolding update_row for_range
update_grid src dst = for_range (update_row src) 0 grid_height dst

module _ (src : List Bool) where
  -- This cell of the new grid is that of the next generation.
  abbrev pub IsNext : List Bool → ℕ → ℕ → Type 0
  IsNext dst y x = get_or dst (y * grid_width + x) false ≡ is_alive y x src

  pub length-update_cell :
      (y x : ℕ) (dst : List Bool) → length (update_cell src y x dst) ≡ length dst
  unfolding update_cell
  length-update_cell y x dst = length-set dst (y * grid_width + x) (is_alive y x src)

  pub update_cell-writes :
      (y x : ℕ) (dst : List Bool)
      → y * grid_width + x < length dst
      → IsNext (update_cell src y x dst) y x
  unfolding update_cell
  update_cell-writes y x dst h = get_or-set_self dst (y * grid_width + x) (is_alive y x src) false h

  -- A write keeps what is already written.
  pub update_cell-keeps :
      (y x a b : ℕ) (dst : List Bool)
      → x < grid_width
      → b < grid_width
      → y * grid_width + x < length dst
      → IsNext dst y x
      → IsNext (update_cell src a b dst) y x
  unfolding update_cell
  update_cell-keeps y x a b dst hx hb room n =
      elim (ℕ_discrete (a * grid_width + b) (y * grid_width + x)) [
        | yes e ↦
            let ey : a ≡ y = omega arith in
            let ex : b ≡ x = omega arith in
            rw⁻¹ ey (
              rw⁻¹ ex
                (get_or-set_self dst (a * grid_width + b) (is_alive a b src) false (omega arith)))
        | no ne ↦
            get_or-set_ne dst (a * grid_width + b) (y * grid_width + x) (is_alive a b src) false ne
            ∙ n
      ]
