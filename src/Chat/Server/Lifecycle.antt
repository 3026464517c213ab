-- ===== src/Chat/Server/Lifecycle.antt =====
-- Starting, running and stopping the server: lab11/src/server.c, and `create_server_socket` of
-- lab11/src/common.c. Results of system calls are arguments.
use cs_os.Prelude.{
  ℕ, Bool, true, false, ◌||◌, not, Option, none, some, List, [], ◌∷◌, ◌==◌, ltb, if◌then◌else◌, ℤ,
  pos, minus_one, modify, for_range, replicate,
}
use cs_os.Chat.CString.{codes, zeros}
use cs_os.Chat.Message.{
  Message, msg_stop, max_client_name, sizeof_message, create_message, validate_message,
}
use cs_os.Chat.Protocol.{SockAddr, sizeof_sockaddr, closed, Log, Sendto, send_message_protocol}
use cs_os.Chat.Server.{ServerClient, Server, World, max_clients, client_at, safe_close_socket}
use cs_os.Chat.Server.Handlers.{server_name, handle_message_directly}

abbrev pub port_min : ℕ
port_min = 1024

abbrev pub port_max : ℕ
port_max = 65535

abbrev pub empty_slot : ServerClient
empty_slot = record {
  socket_fd = none;
  client_id = zeros max_client_name;
  addr = record { ip = 0; port = 0 };
  last_seen = 0;
  inactive_count = 0;
  is_active = false;
  thread_id = 0;
}

-- `socket`, `setsockopt` and `bind` in turn; the socket is closed where a later call fails.
unfoldable pub create_server_socket : Option ℕ → Bool → Bool → Log → Option ℕ × Log
create_server_socket none reuse_ok bind_ok log = (none, log)
create_server_socket (some fd) reuse_ok bind_ok log =
    if not reuse_ok
    then (none, closed fd ∷ log)
    else if not bind_ok
    then (none, closed fd ∷ log)
    else (some fd, log)

unfoldable pub fresh_server : ℕ → Server
fresh_server port = record {
  server_socket = none;
  port = port;
  clients = replicate max_clients empty_slot;
  client_count = pos 0;
  is_running = false;
  keepalive_thread = 0;
}

-- The status, and the world; a port out of range leaves the memory as it was.
unfoldable pub server_init :
    World → ℕ → (mutex_ok : Bool) → (socket : Option ℕ) → (reuse_ok bind_ok : Bool) → ℤ × World
unfolding fresh_server create_server_socket
server_init w port mutex_ok socket reuse_ok bind_ok =
    if ltb port port_min || ltb port_max port
    then (minus_one, w)
    else if not mutex_ok
    then (minus_one, record w { server = fresh_server port })
    else let (fd, log) = create_server_socket socket reuse_ok bind_ok w.log in
      elim fd [
        | none ↦ (minus_one, record { server = fresh_server port; log = log })
        | some fd ↦ (
          pos 0,
          record { server = record (fresh_server port) { server_socket = some fd }; log = log },
        )
      ]

-- `close` of a descriptor; that of -1 does nothing.
unfoldable pub close_fd : Option ℕ → Log → Log
close_fd none log = log
close_fd (some fd) log = closed fd ∷ log

unfoldable pub dismiss : ServerClient → ServerClient
dismiss c = record c { socket_fd = none; is_active = false }

-- What `recvfrom` brings. A signal runs the handler, and interrupts the call.
pub data Input : Type 0 where
  interrupted : Input
  failed : Input
  signalled : Input
  datagram : (bytes : ℕ) → Message → SockAddr → (addr_len : ℕ) → Input

module _ (sendto : Sendto) where
  -- One round of the loop of `server_stop`.
  unfoldable pub dismiss_client : ℕ → ℕ → World → World
  unfolding send_message_protocol close_fd dismiss
  dismiss_client now i w =
      if (client_at w.server i).is_active
      then record {
        server = record w.server { clients = modify w.clients i dismiss };
        log =
            close_fd (client_at w.server i).socket_fd
              (send_message_protocol sendto (client_at w.server i).socket_fd
                (create_message msg_stop (some server_name) (some (client_at w.server i).client_id)
                  (some (codes "Server shutting down")) now)
                (some (client_at w.server i).addr) sizeof_sockaddr w.log).1;
      }
      else w

  unfoldable pub server_stop : ℕ → World → World
  unfolding dismiss_client close_fd
  server_stop now w =
      if not w.is_running
      then w
      else for_range (dismiss_client now) 0 max_clients (record {
        server = record w.server { is_running = false; server_socket = none };
        log = close_fd w.server_socket w.log;
      })

  -- One round of the loop of `server_start`.
  unfoldable pub receive : ℕ → World → Input → World
  unfolding server_stop handle_message_directly
  receive now w interrupted = w
  receive now w failed = w
  receive now w signalled = server_stop now w
  receive now w (datagram bytes msg addr addr_len) =
      if not (bytes == sizeof_message)
      then w
      else if not (validate_message now msg)
      then w
      else handle_message_directly sendto now w msg addr addr_len

  -- The loop, for what arrives and when.
  unfoldable pub server_loop : World → List (ℕ × Input) → World
  unfolding receive
  server_loop w [] = w
  server_loop w ((now, input) ∷ rest) =
      server_loop (if w.is_running then receive now w input else w) rest

  -- `thread` is the monitor's thread, or `none` where it cannot be created.
  unfoldable pub server_start : ℕ → Option ℕ → World → List (ℕ × Input) → World
  unfolding server_loop
  server_start now none w inputs =
      server_stop now (record w { server = record w.server { is_running = true } })
  server_start now (some thread) w inputs =
      server_loop
        (record w { server = record w.server { is_running = true; keepalive_thread = thread } })
        inputs

  unfoldable pub join_client : ℕ → World → World
  join_client i w = record w { server = record w.server { clients = modify w.clients i join } }
    where
      join : ServerClient → ServerClient
      join c = record c { thread_id = 0 }

  unfoldable pub server_cleanup : ℕ → World → World
  unfolding server_stop join_client safe_close_socket
  server_cleanup now w =
      let w' = for_range join_client 0 max_clients (server_stop now w) in
      record w' {
        server = record w'.server { server_socket = (safe_close_socket w'.server_socket w'.log).0 };
        log = (safe_close_socket w'.server_socket w'.log).1;
      }
