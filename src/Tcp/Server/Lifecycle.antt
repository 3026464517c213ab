-- ===== src/Tcp/Server/Lifecycle.antt =====
-- Starting the server, letting a client in, and stopping: lab10/src/server.c, and
-- `configure_socket` and `create_server_socket` of lab10/src/common.c. Results of system calls are
-- arguments.
use cs_os.Prelude.{
  ℕ, Bool, true, false, ◌||◌, not, Option, none, some, List, [], ◌∷◌, ltb, if◌then◌else◌, ℤ, pos,
  minus_one, modify, for_range,
}
use cs_os.Chat.CString.{codes}
use cs_os.Chat.Message.{
  Message, msg_stop, msg_error, msg_broadcast, create_message, validate_client_id,
}
use cs_os.Chat.Protocol.{SockAddr}
use cs_os.Chat.Server.{ServerClient, Server, max_clients, client_at, find_client_by_id}
use cs_os.Chat.Server.Handlers.{server_name}
use cs_os.Chat.Server.Lifecycle.{port_min, port_max, fresh_server, dismiss}
use cs_os.Tcp.Server.{
  World, Network, Log, opened, closed, send_to, close_fd, add_client, remove_client,
}

-- `SO_REUSEADDR`, `SO_KEEPALIVE` and `TCP_NODELAY` in turn; false is -1.
unfoldable pub configure_socket : (reuse_ok keepalive_ok nodelay_ok : Bool) → Bool
configure_socket reuse_ok keepalive_ok nodelay_ok =
    if not reuse_ok then false else if not keepalive_ok then false else nodelay_ok

-- The socket is closed where a call after `socket` fails.
unfoldable pub create_server_socket :
    Option ℕ → (configured bind_ok listen_ok : Bool) → Log → Option ℕ × Log
create_server_socket none configured bind_ok listen_ok log = (none, log)
create_server_socket (some fd) configured bind_ok listen_ok log =
    if not configured
    then (none, closed fd ∷ opened fd ∷ log)
    else if not bind_ok
    then (none, closed fd ∷ opened fd ∷ log)
    else if not listen_ok
    then (none, closed fd ∷ opened fd ∷ log)
    else (some fd, opened fd ∷ log)

-- The status, and the world; a port out of range leaves the memory as it was.
unfoldable pub server_init :
    World → ℕ → (mutex_ok : Bool) → Option ℕ → (configured bind_ok listen_ok : Bool) → ℤ × World
unfolding create_server_socket
server_init w port mutex_ok socket configured bind_ok listen_ok =
    if ltb port port_min || ltb port_max port
    then (minus_one, w)
    else if not mutex_ok
    then (minus_one, record w { server = fresh_server port })
    else let (fd, log) = create_server_socket socket configured bind_ok listen_ok w.log in
      elim fd [
        | none ↦ (minus_one, record { server = fresh_server port; log = log })
        | some fd ↦ (
          pos 0,
          record { server = record (fresh_server port) { server_socket = some fd }; log = log },
        )
      ]

-- The monitor's thread runs.
unfoldable pub started : ℕ → World → World
started thread w = record w {
  server = record w.server { is_running = true; keepalive_thread = thread };
}

-- The write of `pthread_create` into the slot.
unfoldable pub set_thread : ℕ → ServerClient → ServerClient
set_thread thread c = record c { thread_id = thread }

module _ (net : Network) where
  -- An error message, and the end of the connection.
  unfoldable pub turn_away : ℕ → World → ℕ → Message → List ℕ → World
  unfolding send_to
  turn_away now w fd id_msg reason = record w {
    log =
        closed fd
        ∷ (send_to net (some fd)
            (create_message msg_error (some server_name) (some id_msg.sender_id) (some reason) now)
            w.log).1;
  }

  -- What follows `add_client` and its result: the slot that the client has, if any. `thread` is the
  -- thread that `pthread_create` makes, or `none` where it fails.
  unfoldable pub give_thread :
      ℕ → Option ℕ → World → ℕ → Message → Option ℕ × Server → Option ℕ × World
  unfolding turn_away remove_client set_thread
  give_thread now thread w fd id_msg (none, s) = (
    none,
    turn_away now (record w { server = s }) fd id_msg (codes "Server full or internal error"),
  )
  give_thread now (some t) w fd id_msg (some i, s) =
      (some i, record w { server = record s { clients = modify s.clients i (set_thread t) } })
  give_thread now none w fd id_msg (some i, s) =
      let w' = remove_client (record w { server = s }) i in
      (none, record w' { log = closed fd ∷ w'.log })

  -- What the loop of `server_start` does with the message by which a client introduces itself, up
  -- to the release of the mutex.
  unfoldable pub admit : ℕ → Option ℕ → World → ℕ → SockAddr → Message → Option ℕ × World
  unfolding turn_away give_thread
  admit now thread w fd addr id_msg =
      if not (validate_client_id (some id_msg.sender_id))
      then (none, turn_away now w fd id_msg (codes "Invalid client ID format"))
      else elim (find_client_by_id w.server id_msg.sender_id) [
        | some i ↦ (none, turn_away now w fd id_msg (codes "Client ID already in use"))
        | none ↦
            give_thread now thread w fd id_msg
              (add_client now w.server (some fd) addr id_msg.sender_id)
      ]

  unfoldable pub welcome : ℕ → World → ℕ → World
  unfolding send_to
  welcome now w fd = record w {
    log =
        (send_to net (some fd)
          (create_message msg_broadcast (some server_name) (some [])
            (some (codes "Welcome to the chat server!")) now)
          w.log).1;
  }

  -- One round of the loop of `server_stop`.
  unfoldable pub dismiss_client : ℕ → ℕ → World → World
  unfolding send_to close_fd dismiss
  dismiss_client now i w =
      if (client_at w.server i).is_active
      then record {
        server = record w.server { clients = modify w.clients i dismiss };
        log =
            close_fd (client_at w.server i).socket_fd
              (send_to net (client_at w.server i).socket_fd
                (create_message msg_stop (some server_name) (some (client_at w.server i).client_id)
                  (some (codes "Server shutting down")) now)
                w.log).1;
      }
      else w

  unfoldable pub server_stop : ℕ → World → World
  unfolding dismiss_client close_fd
  server_stop now w =
      if not w.is_running
      then w
      else for_range (dismiss_client now) 0 max_clients (record {
        server = record w.server { is_running = false; server_socket = none };
        log = close_fd w.server_socket w.log;
      })
