-- ===== src/Tcp/Server.antt =====
-- The client table of lab10/src/server.c. The types of server.h and common.h, and the functions of
-- common.c and server.c that build texts and messages and search the table, are those of lab11,
-- word for word, and so are their definitions: ServerClient, Server, create_message,
-- validate_message, validate_client_id, find_client_by_id, find_client_by_socket, safe_strcpy,
-- safe_strcat and safe_close_socket. The network is a parameter: what it answers to the calls of
-- `send` may depend on all that has happened before.
pub mod Handlers
pub mod Keepalive
pub mod Lifecycle
use cs_os.Prelude.{
  ℕ, ◌≤◌, ◌≡◌, refl, ◌≢◌, Bool, true, false, ◌&&◌, not, Option, none, some, List, [], ◌∷◌, ◌==◌,
  leb, if◌then◌else◌, ℤ, inc, dec, minus_one, find_index, modify,
}
use cs_os.Chat.Message.{Message, sizeof_message}
use cs_os.Chat.Protocol.{SockAddr}
use cs_os.Chat.Server.{ServerClient, Server, max_clients, client_at, is_free, enter, vacate}
use cs_os.Tcp.Stream.{SendAnswer, send_message_protocol}
use cs_os.Tcp.Stream.Laws.{progress, send_message_protocol-returns}

-- What the server does to its descriptors: `socket` or `accept`, `send_message_protocol` with its
-- result, and `close`.
pub data Event : Type 0 where
  opened : ℕ → Event
  sent : ℕ → Message → ℤ → Event
  closed : ℕ → Event

-- Latest first.
abbrev pub Log : Type 0
Log = List Event

-- The server, and the calls that it has made so far.
pub record World : Type 0 where
  pub server : Server
  pub open server use *
  pub log : Log

-- The layout of a message, and the answers to the calls of `send` for one message. No message waits
-- for ever: there are as many answers that are not interruptions as a message has bytes.
pub record Network : Type 0 where
  pub to_bytes : Message → List ℕ
  pub answers : Log → ℕ → Message → List SendAnswer
  pub enough : (log : Log) (fd : ℕ) (m : Message) → sizeof_message ≤ progress (answers log fd m)

abbrev value {ℓ} : {A : Type ℓ} (o : Option A) → o ≢ none → A
value none h = absurd (h refl)
value (some a) h = a

-- `send_message_protocol` on a descriptor, with what it returns.
unfoldable pub send_result : Network → Log → ℕ → Message → ℤ
unfolding send_message_protocol
send_result net log fd m =
    value (send_message_protocol net.to_bytes (some fd) m (net.answers log fd m)).result
      (send_message_protocol-returns net.to_bytes fd m (net.answers log fd m) (net.enough log fd m))

-- A descriptor of -1 is refused before any call.
unfoldable pub send_to : Network → Option ℕ → Message → Log → ℤ × Log
unfolding send_result
send_to net none m log = (minus_one, log)
send_to net (some fd) m log =
    let result = send_result net log fd m in (result, sent fd m result ∷ log)

-- `close` of a descriptor; that of -1 does nothing.
unfoldable pub close_fd : Option ℕ → Log → Log
close_fd none log = log
close_fd (some fd) log = closed fd ∷ log

-- The index of the new client, or `none`.
unfoldable pub add_client : ℕ → Server → Option ℕ → SockAddr → List ℕ → Option ℕ × Server
unfolding enter find_index
add_client now s none client_addr client_id = (none, s)
add_client now s (some fd) client_addr client_id = elim (find_index is_free s.clients 0) [
  | none ↦ (none, s)
  | some i ↦ (
    some i,
    record s {
      clients = modify s.clients i (enter (some fd) client_addr client_id now);
      client_count = inc s.client_count;
    },
  )
]

unfoldable pub remove_client : World → ℕ → World
unfolding vacate close_fd
remove_client w client_index =
    if leb max_clients client_index
    then w
    else if (client_at w.server client_index).is_active
    then record {
      server = record w.server {
        clients = modify w.clients client_index vacate;
        client_count = dec w.client_count;
      };
      log = close_fd (client_at w.server client_index).socket_fd w.log;
    }
    else w
