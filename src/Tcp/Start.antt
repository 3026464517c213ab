-- ===== src/Tcp/Start.antt =====
-- `main` of lab10/src/server.c: the checks before the server runs.
use cs_os.Prelude.{
  ℕ, ◌≡◌, refl, Bool, true, false, ◌||◌, Option, none, some, List, [], ◌∷◌, ltb, if◌then◌else◌, ℤ,
  eq_ℤ, minus_one, if-cases, arith, ==_iff,
}
use cs_os.Chat.Server.Lifecycle.{port_min, port_max}
use cs_os.Chat.Server.{Server}
use cs_os.Tcp.Server.{World, Network, closed, opened}
use cs_os.Tcp.Server.Lifecycle.{server_init, create_server_socket}
use cs_os.Tcp.System.{System, server_start, is_open}
use cs_os.Tcp.Sound.{IsClean}
use cs_os.Tcp.Sound.Steps.{IsSound, server_start-IsSound}

-- `main` returns 1, or the threads run.
pub data Start : Type 0 where
  refused : World → Start
  serving : System → Start

module _ (net : Network) (now : ℕ) (thread : Option ℕ) where
  -- Behind `server_init`.
  unfoldable pub start_made : ℤ × World → Start
  start_made (made, w) =
      if eq_ℤ made minus_one then refused w else serving (server_start net now thread w)

  module _ (mutex_ok : Bool) (socket : Option ℕ) (configured bind_ok listen_ok : Bool) where
    -- The port as `atoi` of the C library reads it; a negative one counts as 0, which is refused as
    -- it is.
    unfoldable pub start_at : World → (port : ℕ) → Start
    unfolding server_init start_made
    start_at memory port =
        if ltb port port_min || ltb port_max port
        then refused memory
        else start_made (server_init memory port mutex_ok socket configured bind_ok listen_ok)

    -- `argv`, the program's name in front.
    unfoldable pub server_main : (atoi : List ℕ → ℕ) → World → List (List ℕ) → Start
    unfolding start_at
    server_main atoi memory (program ∷ argument ∷ []) = start_at memory (atoi argument)
    server_main atoi memory _ = refused memory

-- Nothing stays open after a refusal; else the threads start in a sound state.
abbrev pub StartsSound : Start → Type 0
StartsSound (refused w) = IsClean w.log × ((fd : ℕ) → is_open fd w.log ≡ false)
StartsSound (serving s) = IsSound s

abbrev before : Server → World
before server = record { server = server; log = [] }

shut :
    (fd : ℕ)
    → IsClean (closed fd ∷ opened fd ∷ [])
      × ((a : ℕ) → is_open a (closed fd ∷ opened fd ∷ []) ≡ false)
unfolding is_open
shut fd = ((ground (arith, ==_iff fd fd), tt), λ a. ground arith)

module _ (net : Network) (now : ℕ) (thread : Option ℕ) (port : ℕ) where
  start_made-StartsSound :
      (memory : Server) (mutex_ok : Bool) (socket : Option ℕ) (configured bind_ok listen_ok : Bool)
      → (ltb port port_min || ltb port_max port) ≡ false
      → StartsSound (
          start_made net now thread
            (server_init (before memory) port mutex_ok socket configured bind_ok listen_ok))
  unfolding start_made server_init create_server_socket is_open
  start_made-StartsSound memory false socket configured bind_ok listen_ok ok =
      rw (ok, server_init) (tt, λ fd. refl)
  start_made-StartsSound memory true none configured bind_ok listen_ok ok =
      rw (ok, server_init) (tt, λ fd. refl)
  start_made-StartsSound memory true (some fd) false bind_ok listen_ok ok =
      rw (ok, server_init) (shut fd)
  start_made-StartsSound memory true (some fd) true false listen_ok ok =
      rw (ok, server_init) (shut fd)
  start_made-StartsSound memory true (some fd) true true false ok = rw (ok, server_init) (shut fd)
  start_made-StartsSound memory true (some fd) true true true ok =
      rw (ok, server_init) (server_start-IsSound net port fd now thread)

  start_at-StartsSound :
      (memory : Server) (mutex_ok : Bool) (socket : Option ℕ) (configured bind_ok listen_ok : Bool)
      → StartsSound (
          start_at net now thread mutex_ok socket configured bind_ok listen_ok (before memory) port)
  unfolding start_at is_open
  start_at-StartsSound memory mutex_ok socket configured bind_ok listen_ok =
      if-cases StartsSound (ltb port port_min || ltb port_max port) _ _ (λ bad. (tt, λ fd. refl))
        (start_made-StartsSound memory mutex_ok socket configured bind_ok listen_ok)

-- Whatever the arguments are and wherever a call before the loop fails: where `main` returns 1,
-- every descriptor that it opened has been closed, and none that was not open; else the threads
-- start in a state where the table is valid and each open descriptor has one owner.
pub server_main-StartsSound :
    (net : Network) (now : ℕ) (thread : Option ℕ) (mutex_ok : Bool) (socket : Option ℕ)
    (configured bind_ok listen_ok : Bool) (atoi : List ℕ → ℕ) (memory : Server)
    (argv : List (List ℕ))
    → StartsSound (
        server_main net now thread mutex_ok socket configured bind_ok listen_ok atoi
          (record { server = memory; log = [] })
          argv)
unfolding server_main is_open
server_main-StartsSound net now thread mutex_ok socket configured bind_ok listen_ok atoi memory [] =
    (tt, λ fd. refl)
server_main-StartsSound net now thread mutex_ok socket configured bind_ok listen_ok atoi memory
      (program ∷ []) =
    (tt, λ fd. refl)
server_main-StartsSound net now thread mutex_ok socket configured bind_ok listen_ok atoi memory
      (program ∷ argument ∷ []) =
    start_at-StartsSound net now thread (atoi argument) memory mutex_ok socket configured bind_ok
      listen_ok
server_main-StartsSound net now thread mutex_ok socket configured bind_ok listen_ok atoi memory
      (program ∷ argument ∷ another ∷ more) =
    (tt, λ fd. refl)
