-- ===== src/Chat/Server.antt =====
-- lab11/src/server.h and the client table of lab11/src/server.c.
-- An index or a descriptor that the C code returns as -1 is `none`. `Server` pointers are never
-- NULL. The functions of this file run under `clients_mutex`.
pub mod Handlers
pub mod Keepalive
pub mod Lifecycle
pub mod Delivery
pub mod Listing
pub mod Shutdown
pub mod Spare
pub mod Main
pub mod Timeout
mod Tests
pub mod Table
pub mod Invariant
use cs_os.Prelude.{
  ℕ, zero, suc, ◌+◌, ◌≡◌, Bool, true, false, ◌&&◌, not, Option, none, some, List, [], ◌∷◌, ◌==◌,
  leb, ltb, if◌then◌else◌, ℤ, inc, dec, minus_one, get_or, find_index, modify, length,
}
use cs_os.Chat.CString.{str_eq, safe_strcpy, zeros}
use cs_os.Chat.Message.{max_client_name}
use cs_os.Chat.Protocol.{SockAddr, Event, closed, Log}

abbrev pub max_clients : ℕ
max_clients = 255

abbrev pub max_inactive_count : ℕ
max_inactive_count = 3

-- Seconds.
abbrev pub keepalive_interval : ℕ
keepalive_interval = 30

-- A thread id of 0 is no thread.
pub record ServerClient : Type 0 where
  pub socket_fd : Option ℕ
  pub client_id : List ℕ
  pub addr : SockAddr
  pub last_seen : ℕ
  pub inactive_count : ℕ
  pub is_active : Bool
  pub thread_id : ℕ

pub record Server : Type 0 where
  pub server_socket : Option ℕ
  pub port : ℕ
  pub clients : List ServerClient
  pub client_count : ℤ
  pub is_running : Bool
  pub keepalive_thread : ℕ

-- The server, and the calls that it has made so far.
pub record World : Type 0 where
  pub server : Server
  pub open server use *
  pub log : Log

abbrev pub no_client : ServerClient
no_client = record {
  socket_fd = none;
  client_id = [];
  addr = record { ip = 0; port = 0 };
  last_seen = 0;
  inactive_count = 0;
  is_active = false;
  thread_id = 0;
}

-- The slot at an index of the table.
abbrev pub client_at : Server → ℕ → ServerClient
client_at s i = get_or s.clients i no_client

-- `is_active && strcmp(client_id, id) == 0`
abbrev pub is_called : List ℕ → ServerClient → Bool
is_called id c = c.is_active && str_eq c.client_id id

abbrev pub is_free : ServerClient → Bool
is_free c = not c.is_active

unfoldable pub find_client_by_id : Server → List ℕ → Option ℕ
unfolding find_index
find_client_by_id s client_id = find_index (is_called client_id) s.clients 0

same_descriptor : Option ℕ → ℕ → Bool
same_descriptor none fd = false
same_descriptor (some a) fd = a == fd

-- `none` is a negative descriptor.
unfoldable pub find_client_by_socket : Server → Option ℕ → Option ℕ
unfolding find_index same_descriptor
find_client_by_socket s none = none
find_client_by_socket s (some socket) =
    find_index (λ c. c.is_active && same_descriptor c.socket_fd socket) s.clients 0

-- The slot of a new client; the array of the id keeps no byte of the client before.
unfoldable pub enter : Option ℕ → SockAddr → List ℕ → ℕ → ServerClient → ServerClient
unfolding safe_strcpy
enter socket addr id now c = record {
  socket_fd = socket;
  client_id = safe_strcpy c.client_id id max_client_name;
  addr = addr;
  last_seen = now;
  inactive_count = 0;
  is_active = true;
  thread_id = 0;
}

unfoldable pub add_client_udp : ℕ → Server → SockAddr → List ℕ → Option ℕ × Server
unfolding enter find_index
add_client_udp now s client_addr client_id = elim (find_index is_free s.clients 0) [
  | none ↦ (none, s)
  | some i ↦ (
    some i,
    record s {
      clients = modify s.clients i (enter s.server_socket client_addr client_id now);
      client_count = inc s.client_count;
    },
  )
]

-- `safe_close_socket`: the descriptor that is left in the variable, and the log.
unfoldable pub safe_close_socket : Option ℕ → Log → Option ℕ × Log
safe_close_socket none log = (none, log)
safe_close_socket (some fd) log = (none, closed fd ∷ log)

-- The slot of a client that is removed, but for the descriptor.
unfoldable pub vacate : ServerClient → ServerClient
vacate c = record c {
  socket_fd = none;
  is_active = false;
  inactive_count = 0;
  thread_id = 0;
  client_id = zeros max_client_name;
}

unfoldable pub remove_client : World → ℕ → World
unfolding vacate safe_close_socket
remove_client w client_index =
    if leb max_clients client_index
    then w
    else if (client_at w.server client_index).is_active
    then record {
      server = record w.server {
        clients = modify w.clients client_index vacate;
        client_count = dec w.client_count;
      };
      log = (safe_close_socket (client_at w.server client_index).socket_fd w.log).1;
    }
    else w
