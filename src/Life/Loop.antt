-- ===== src/Life/Loop.antt =====
-- lab8/src/life.c: generation after generation in one thread, with two grids that change places.
use cs_os.Prelude.{
  ℕ, zero, suc, ◌+◌, ◌*◌, ◌/◌, ◌%◌, ◌<◌, ◌≡◌, refl, sym, ◌∙◌, ap, ap₂, Bool, false, List, [], ◌∷◌,
  arith, length, get_or, subst,
}
use cs_os.Life.Grid.{grid_width, grid_height, update_grid}
use cs_os.Life.Workers.Generation.{length-update_grid, update_grid-IsNext}

pub record Grids : Type 0 where
  pub foreground : List Bool
  pub background : List Bool

-- One round of `while (true)`: the step, and the exchange.
unfoldable pub life_round : Grids → Grids
unfolding update_grid
life_round g = record {
  foreground = update_grid g.foreground g.background;
  background = g.foreground;
}

-- The grids after that many rounds.
unfoldable pub life_rounds : ℕ → Grids → Grids
unfolding life_round
life_rounds zero g = g
life_rounds (suc n) g = life_rounds n (life_round g)

-- The specification: generations made on a sheet of paper that is blank each time.
unfoldable pub generations : ℕ → List Bool → List Bool → List Bool
generations zero blank grid = grid
generations (suc n) blank grid = generations n blank (update_grid grid blank)

-- Two lists of one length with the same elements are one.
list-same :
    (xs ys : List Bool)
    → length xs ≡ length ys
    → ((k : ℕ) → k < length xs → get_or xs k false ≡ get_or ys k false)
    → xs ≡ ys
list-same [] [] e h = refl
list-same [] (y ∷ ys) e h = absurd (omega arith)
list-same (x ∷ xs) [] e h = absurd (omega arith)
list-same (x ∷ xs) (y ∷ ys) e h =
    ap₂ ◌∷◌ (h 0 (omega arith)) (list-same xs ys (omega arith) (λ k l. h (suc k) (omega arith)))

IsGrid : List Bool → Type 0
IsGrid grid = length grid ≡ grid_width * grid_height

-- The update does not look at what it writes over.
update_grid-blank :
    (src a b : List Bool) → IsGrid a → IsGrid b → update_grid src a ≡ update_grid src b
unfolding IsGrid
update_grid-blank src a b ha hb =
    list-same _ _ (length-update_grid src a ∙ ha ∙ sym (length-update_grid src b ∙ hb)) same
  where
    same :
        (k : ℕ)
        → k < length (update_grid src a)
        → get_or (update_grid src a) k false ≡ get_or (update_grid src b) k false
    same k l =
        subst (λ i. get_or (update_grid src a) i false ≡ get_or (update_grid src b) i false)
          (index k)
          (update_grid-IsNext src a (k / 35) (k % 35) ha (row k l) (column k)
            ∙ sym (update_grid-IsNext src b (k / 35) (k % 35) hb (row k l) (column k)))
      where
        index : (k : ℕ) → (k / 35) * grid_width + k % 35 ≡ k
        index k = omega arith

        row : (k : ℕ) → k < length (update_grid src a) → k / 35 < grid_height
        row k l = omega (arith, length-update_grid src a, ha)

        column : (k : ℕ) → k % 35 < grid_width
        column k = omega arith

-- What `life.c` draws after `n` rounds is the `n`-th generation of its first grid: nothing of the
-- older generations, nor of the memory that the second grid was given, shows through.
pub life_rounds-generations :
    (n : ℕ) (g : Grids) (blank : List Bool)
    → length g.foreground ≡ grid_width * grid_height
    → length g.background ≡ grid_width * grid_height
    → length blank ≡ grid_width * grid_height
    → (life_rounds n g).foreground ≡ generations n blank g.foreground
unfolding life_rounds generations life_round IsGrid
life_rounds-generations zero g blank hf hb h = refl
life_rounds-generations (suc n) g blank hf hb h =
    life_rounds-generations n (life_round g) blank
      (length-update_grid g.foreground g.background ∙ hb) hf h
    ∙ ap (generations n blank) (update_grid-blank g.foreground g.background blank hb h)
