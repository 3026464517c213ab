-- ===== src/Chat/Server/Main.antt =====
-- `main` of lab11/src/server.c.
use cs_os.Prelude.{
  ℕ, zero, suc, subst, ◌≡◌, refl, Bool, false, ◌||◌, Option, none, some, List, ltb, if◌then◌else◌,
  ℤ, eq_ℤ, minus_one, for_range, for_range-keeps, if-keeps, if-cases,
}
use cs_os.Chat.Protocol.{Log, Sendto}
use cs_os.Chat.Server.{World, max_clients, safe_close_socket}
use cs_os.Chat.Server.Lifecycle.{
  port_min, port_max, server_init, Input, server_start, server_stop, server_cleanup, join_client,
}

module _ (sendto : Sendto) where
  -- `main` with one argument, read as a number; a negative one counts as 0, which is refused as it is.
  -- `none`: the server still runs when all that arrives has been answered. `later` is the time of the
  -- cleanup.
  unfoldable pub server_main :
      World
      → (port : ℕ) → (mutex_ok : Bool) → (socket : Option ℕ) → (reuse_ok bind_ok : Bool) → (now : ℕ)
      → (thread : Option ℕ) → List (ℕ × Input)
      → (later : ℕ) → Option (ℕ × World)
  unfolding server_init server_start server_cleanup
  server_main memory port mutex_ok socket reuse_ok bind_ok now thread inputs later =
      if ltb port port_min || ltb port_max port
      then some (1, memory)
      else let (made, w) = server_init memory port mutex_ok socket reuse_ok bind_ok in
        if eq_ℤ made minus_one
        then some (1, w)
        else let w' = server_start sendto now thread w inputs in
          if w'.is_running then none else some (0, server_cleanup sendto later w')

  -- Of a status and a world: status 0 comes with a server that is down.
  Down : Option (ℕ × World) → Type 0
  Down none = Unit
  Down (some (zero, w)) = (w.is_running ≡ false) × (w.server_socket ≡ none)
  Down (some (suc status, w)) = Unit

  Off : World → Type 0
  Off w = w.is_running ≡ false

  -- A cleaned-up server does not run, and has no socket.
  server_cleanup-down :
      (now : ℕ) (w : World)
      → w.is_running ≡ false
      → ((server_cleanup sendto now w).is_running ≡ false)
        × ((server_cleanup sendto now w).server_socket ≡ none)
  unfolding server_cleanup server_stop join_client Off
  server_cleanup-down now w off = (joined-Off, no_socket joined.server_socket joined.log)
    where
      joined : World
      joined = for_range (join_client sendto) 0 max_clients (server_stop sendto now w)

      joined-Off : Off joined
      joined-Off =
          for_range-keeps Off (join_client sendto) (λ i v h. h) 0 max_clients
            (server_stop sendto now w) (rw (off, server_stop) refl)

      no_socket : (socket : Option ℕ) (log : Log) → (safe_close_socket socket log).0 ≡ none
      no_socket none log = unfold safe_close_socket in refl
      no_socket (some fd) log = unfold safe_close_socket in refl

  -- When `main` returns 0, the server does not run and has no socket.
  pub server_main-down :
      (memory : World) (port : ℕ) (mutex_ok : Bool) (socket : Option ℕ) (reuse_ok bind_ok : Bool)
      (now : ℕ) (thread : Option ℕ) (inputs : List (ℕ × Input)) (later : ℕ) (w : World)
      → server_main memory port mutex_ok socket reuse_ok bind_ok now thread inputs later
        ≡ some (0, w)
      → (w.is_running ≡ false) × (w.server_socket ≡ none)
  unfolding server_main Down
  server_main-down memory port mutex_ok socket reuse_ok bind_ok now thread inputs later w e =
      subst Down e (
        if-keeps Down (ltb port port_min || ltb port_max port) (some (1, memory)) (rest made) tt (
          if-keeps Down (eq_ℤ made.0 minus_one) (some (1, made.1)) (go (served made.1)) tt
            (last (served made.1))))
    where
      made : ℤ × World
      made = server_init memory port mutex_ok socket reuse_ok bind_ok

      served : World → World
      served v = server_start sendto now thread v inputs

      go : World → Option (ℕ × World)
      go v = if v.is_running then none else some (0, server_cleanup sendto later v)

      rest : ℤ × World → Option (ℕ × World)
      rest r = if eq_ℤ r.0 minus_one then some (1, r.1) else go (served r.1)

      last : (v : World) → Down (go v)
      last v =
          if-cases Down v.is_running none (some (0, server_cleanup sendto later v)) (λ on. tt)
            (server_cleanup-down later v)
