-- ===== src/Life/Tests.antt =====
-- A small pattern, and the theorems on the rounds of lab8 applied to it.
use cs_os.Prelude.{
  ◌+◌, ◌*◌, ◌≡◌, refl, Bool, true, false, List, arith, get_or, set, replicate, length-replicate,
}
use cs_os.Life.Grid.{grid_width, is_alive, update_grid}
use cs_os.Life.Loop.{life_rounds, generations, life_rounds-generations}
use cs_os.Life.Workers.{Round, round_start}
use cs_os.Life.Workers.Generation.{Steps-update_grid}
use cs_os.Life.Workers.Finish.{round-finishes, round_start-idle}

abbrev dead : List Bool
dead = replicate 1225 false

-- Three cells in a row.
abbrev blinker : List Bool
blinker = set (set (set dead 36 true) 37 true) 38 true

-- The middle one stays, its neighbours above and below are born, those at the sides die.
blinks :
    (is_alive 1 2 blinker ≡ true)
    × (is_alive 0 2 blinker ≡ true)
    × (is_alive 2 2 blinker ≡ true)
    × (is_alive 1 1 blinker ≡ false)
unfolding is_alive
blinks = (refl, refl, refl, refl)

abbrev three_threads : Round
three_threads = round_start 3 dead

Steps-update_grid_example :
    let t = (round-finishes blinker 3 three_threads (round_start-idle blinker 3 dead)).0 in
    (get_or t.background (0 * grid_width + 2) false ≡ is_alive 0 2 blinker)
    × (get_or (update_grid blinker dead) (0 * grid_width + 2) false ≡ is_alive 0 2 blinker)
Steps-update_grid_example =
    let (t, r, over) = round-finishes blinker 3 three_threads (round_start-idle blinker 3 dead) in
    Steps-update_grid blinker 3 dead dead 0 2 (omega arith) (length-replicate 1225 false)
      (length-replicate 1225 false) r over (omega arith) (omega arith)

life_rounds-generations_example :
    (life_rounds 2 (record { foreground = blinker; background = dead })).foreground
    ≡ generations 2 dead blinker
life_rounds-generations_example =
    life_rounds-generations 2 (record { foreground = blinker; background = dead }) dead refl
      (length-replicate 1225 false) (length-replicate 1225 false)
