-- ===== src/Life/Workers/Generation.antt =====
-- Whatever the interleaving of the workers of lab8/src/simulation.c, a finished round is the update
-- of lab8/src/grid.c.
use cs_os.Prelude.{
  ℕ, zero, suc, ◌+◌, ◌*◌, ◌≤◌, ◌<◌, ◌≡◌, refl, sym, ◌∙◌, ap, ◌⊎◌, inl, inr, Bool, false, List, [],
  ◌∷◌, arith, ◌==◌, ltb, lt→ltb, if◌then◌else◌, Bool-cases, ==_iff, length, get_or, for_range,
  subst, if-keeps, ◌++◌,
}
use cs_os.Life.Grid.{
  grid_width, grid_height, IsNext, is_alive, update_cell, update_row, update_grid,
  length-update_cell, update_cell-writes, update_cell-keeps,
}
use cs_os.Life.Workers.{
  thread_data, row_cells, rows_cells, Round, round_start, assign, Steps, none_yet, more,
}
use cs_os.Life.Workers.Cover.{
  Has, InColumns, InColumns-rows_cells, Has-rows_cells, InColumns-worker_cells, Has-worker_cells,
  row_owner,
}

-- The grid has its size, and each of its cells is done or some thread still has to do it.
record Covered (src : List Bool) (s : Round) : Type 0 where
  size : length s.background ≡ grid_width * grid_height
  columns : (i : ℕ) → InColumns (s.remaining i)
  cells :
      (y x : ℕ)
      → y < grid_height
      → x < grid_width
      → IsNext src s.background y x ⊎ ((i : ℕ) × Has y x (s.remaining i))

module _ (src : List Bool) where
  -- One assignment, by thread `i`.
  module _ (s : Round) (i a b : ℕ) (rest : List (ℕ × ℕ)) (e : s.remaining i ≡ (a, b) ∷ rest) where
    after : Round
    after = record {
      background = update_cell src a b s.background;
      remaining = λ j. if j == i then rest else s.remaining j;
    }

    columns-after : Covered src s → (j : ℕ) → InColumns (after.remaining j)
    unfolding after
    columns-after c j = elim (Bool-cases (j == i)) [
      | inl same ↦ rw same (head.1)
      | inr other ↦ rw other (c.columns j)
    ]
      where
        head : InColumns ((a, b) ∷ rest)
        head = subst InColumns e (c.columns i)

    waits-after :
        Covered src s
        → (y x j : ℕ) → y < grid_height
        → x < grid_width
        → Has y x (s.remaining j)
        → IsNext src after.background y x ⊎ ((k : ℕ) × Has y x (after.remaining k))
    unfolding after
    waits-after c y x j hy hx h = elim (Bool-cases (j == i)) [
      | inr other ↦ inr (j, rw other h)
      | inl same ↦ head (subst (Has y x) (ap s.remaining ((==_iff j i).0 same) ∙ e) h)
    ]
      where
        head :
            Has y x ((a, b) ∷ rest)
            → IsNext src after.background y x ⊎ ((k : ℕ) × Has y x (after.remaining k))
        head (inl (ey, ex)) = inl (
            rw⁻¹ ey
              (rw⁻¹ ex (update_cell-writes src a b s.background (omega (arith, c.size, ey, ex)))))
        head (inr h') = inr (i, rw ((==_iff i i).1 refl) h')

    after-Covered : Covered src s → Covered src after
    unfolding after
    after-Covered c = record {
      size = length-update_cell src a b s.background ∙ c.size;
      columns = columns-after c;
      cells = λ y x hy hx. cell y x hy hx (c.cells y x hy hx);
    }
      where
        in_columns : InColumns ((a, b) ∷ rest)
        in_columns = subst InColumns e (c.columns i)

        cell :
            (y x : ℕ)
            → y < grid_height
            → x < grid_width
            → IsNext src s.background y x ⊎ ((j : ℕ) × Has y x (s.remaining j))
            → IsNext src after.background y x ⊎ ((k : ℕ) × Has y x (after.remaining k))
        cell y x hy hx (inl done) = inl (
            update_cell-keeps src y x a b s.background hx in_columns.0 (omega (arith, c.size)) done)
        cell y x hy hx (inr (j, h)) = waits-after c y x j hy hx h

  Steps-Covered : {s t : Round} → Steps src s t → Covered src s → Covered src t
  unfolding after
  Steps-Covered none_yet c = c
  Steps-Covered (more {t} r (assign i y x rest e new)) c =
      subst (Covered src) (sym new) (after-Covered t i y x rest e (Steps-Covered r c))

  start-Covered :
      (n : ℕ) (background : List Bool)
      → 1 ≤ n
      → length background ≡ grid_width * grid_height
      → Covered src (round_start n background)
  unfolding round_start
  start-Covered n background h len = record {
    size = len;
    columns = λ i. if-keeps InColumns (ltb i n) _ [] (InColumns-worker_cells (thread_data n i)) tt;
    cells = λ y x hy hx.
        let (i, lt, low, high) = row_owner n y h hy in
        inr (i, rw (lt→ltb i n lt) (Has-worker_cells y x (thread_data n i) low high hx));
  }

  -- The assignments of a list of cells, in order.
  apply_cells : List (ℕ × ℕ) → List Bool → List Bool
  apply_cells [] dst = dst
  apply_cells ((a, b) ∷ cells) dst = apply_cells cells (update_cell src a b dst)

  apply_cells-append :
      (cs ds : List (ℕ × ℕ)) (dst : List Bool)
      → apply_cells (cs ++ ds) dst ≡ apply_cells ds (apply_cells cs dst)
  unfolding apply_cells
  apply_cells-append [] ds dst = refl
  apply_cells-append ((a, b) ∷ cs) ds dst = apply_cells-append cs ds (update_cell src a b dst)

  row-apply_cells :
      (y from rounds : ℕ) (dst : List Bool)
      → for_range (update_cell src y) from rounds dst ≡ apply_cells (row_cells y from rounds) dst
  unfolding apply_cells row_cells for_range
  row-apply_cells y from zero dst = refl
  row-apply_cells y from (suc rounds) dst =
      row-apply_cells y (from + 1) rounds (update_cell src y from dst)

  rows-apply_cells :
      (from rounds : ℕ) (dst : List Bool)
      → for_range (update_row src) from rounds dst ≡ apply_cells (rows_cells from rounds) dst
  unfolding apply_cells rows_cells for_range update_row
  rows-apply_cells from zero dst = refl
  rows-apply_cells from (suc rounds) dst =
      rows-apply_cells (from + 1) rounds (update_row src from dst)
      ∙ ap (apply_cells (rows_cells (from + 1) rounds)) (row-apply_cells from 0 grid_width dst)
      ∙ sym (apply_cells-append (row_cells from 0 grid_width) (rows_cells (from + 1) rounds) dst)

  length-apply_cells :
      (cells : List (ℕ × ℕ)) (dst : List Bool) → length (apply_cells cells dst) ≡ length dst
  unfolding apply_cells
  length-apply_cells [] dst = refl
  length-apply_cells ((a, b) ∷ cells) dst =
      length-apply_cells cells (update_cell src a b dst) ∙ length-update_cell src a b dst

  apply_cells-IsNext :
      (cells : List (ℕ × ℕ)) (dst : List Bool) (y x : ℕ)
      → InColumns cells
      → x < grid_width
      → y * grid_width + x < length dst
      → IsNext src dst y x ⊎ Has y x cells
      → IsNext src (apply_cells cells dst) y x
  unfolding apply_cells
  apply_cells-IsNext [] dst y x c hx room (inl done) = done
  apply_cells-IsNext [] dst y x c hx room (inr h) = absurd h
  apply_cells-IsNext ((a, b) ∷ cells) dst y x c hx room (inl done) =
      apply_cells-IsNext cells (update_cell src a b dst) y x c.1 hx
        (omega (arith, length-update_cell src a b dst))
        (inl (update_cell-keeps src y x a b dst hx c.0 room done))
  apply_cells-IsNext ((a, b) ∷ cells) dst y x c hx room (inr (inl (ey, ex))) =
      apply_cells-IsNext cells (update_cell src a b dst) y x c.1 hx
        (omega (arith, length-update_cell src a b dst))
        (inl (rw⁻¹ ey (rw⁻¹ ex (update_cell-writes src a b dst (omega (arith, ey, ex))))))
  apply_cells-IsNext ((a, b) ∷ cells) dst y x c hx room (inr (inr h)) =
      apply_cells-IsNext cells (update_cell src a b dst) y x c.1 hx
        (omega (arith, length-update_cell src a b dst)) (inr h)

  pub length-update_grid : (dst : List Bool) → length (update_grid src dst) ≡ length dst
  unfolding update_grid
  length-update_grid dst =
      rw (rows-apply_cells 0 grid_height dst) (length-apply_cells (rows_cells 0 grid_height) dst)

  pub update_grid-IsNext :
      (dst : List Bool) (y x : ℕ)
      → length dst ≡ grid_width * grid_height
      → y < grid_height
      → x < grid_width
      → IsNext src (update_grid src dst) y x
  unfolding update_grid
  update_grid-IsNext dst y x len hy hx = rw (rows-apply_cells 0 grid_height dst) (
      apply_cells-IsNext (rows_cells 0 grid_height) dst y x (InColumns-rows_cells 0 grid_height) hx
        (omega (arith, len)) (inr (Has-rows_cells y x 0 grid_height (omega arith) hy hx)))

  -- Whatever the interleaving of any number of threads but 0, when all have finished their rows of
  -- the new grid, each cell of it is as the update by one thread has it, whatever the two new grids
  -- held before.
  pub Steps-update_grid :
      (n : ℕ) (background dst : List Bool) {t : Round} (y x : ℕ)
      → 1 ≤ n
      → length background ≡ grid_width * grid_height
      → length dst ≡ grid_width * grid_height
      → Steps src (round_start n background) t
      → ((i : ℕ) → t.remaining i ≡ [])
      → y < grid_height
      → x < grid_width
      → (get_or t.background (y * grid_width + x) false ≡ is_alive y x src)
        × (get_or (update_grid src dst) (y * grid_width + x) false ≡ is_alive y x src)
  Steps-update_grid n background dst {t} y x h len len' r over hy hx =
      (finished (c.cells y x hy hx), update_grid-IsNext dst y x len' hy hx)
    where
      c : Covered src t
      c = Steps-Covered r (start-Covered n background h len)

      finished :
          IsNext src t.background y x ⊎ ((i : ℕ) × Has y x (t.remaining i))
          → IsNext src t.background y x
      finished (inl done) = done
      finished (inr (i, left)) = absurd (subst (Has y x) (over i) left)
