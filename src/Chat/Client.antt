-- ===== src/Chat/Client.antt =====
-- lab11/src/client.h, and the part of lab11/src/client.c that connects, asks and leaves. Output to
-- the terminal, the mutexes and the pipe of the signal handler are left out.
pub mod Input
pub mod Main
pub mod Requests
pub mod Typed
pub mod Sent
pub mod Open
pub mod Closing
mod Tests
use cs_os.Prelude.{
  ℕ, ◌-◌, ◌%◌, ◌^◌, Bool, true, false, ◌&&◌, ◌||◌, not, Option, none, some, List, ◌∷◌, ◌==◌, leb,
  if◌then◌else◌, ℤ, pos, minus_one, eq_ℤ,
}
use cs_os.Chat.CString.{zeros, strlen, strncpy}
use cs_os.Chat.Message.{
  MessageType, msg_list, msg_2all, msg_2one, msg_stop, msg_alive_response, Message, empty_message,
  max_client_name, max_message_size, validate_client_id,
}
use cs_os.Chat.Protocol.{SockAddr, sizeof_sockaddr, closed, Log, Sendto, send_message_protocol}

pub record Client : Type 0 where
  pub server_socket : Option ℕ
  pub client_id : List ℕ
  pub server_ip : List ℕ
  pub server_port : ℕ
  pub is_connected : Bool
  pub is_running : Bool
  pub server_addr : SockAddr
  pub receive_thread : ℕ

-- The client, whether its receiving thread is in its loop, and what has been done so far.
pub record Session : Type 0 where
  pub client : Client
  pub open client use *
  pub receiving : Bool
  pub log : Log

-- The client after `client_init` has found the id valid. A negative port stands as its bit pattern.
unfoldable pub fresh_client : List ℕ → List ℕ → ℕ → Client
unfolding strncpy
fresh_client client_id server_ip server_port = record {
  server_socket = none;
  client_id = strncpy (zeros max_client_name) client_id (max_client_name - 1);
  server_ip = strncpy (zeros 16) server_ip 15;
  server_port = server_port;
  is_connected = false;
  is_running = false;
  server_addr = record { ip = 0; port = 0 };
  receive_thread = 0;
}

-- The status and the client. `locks_ok` says that the mutexes and the condition could be made.
unfoldable pub client_init : Client → List ℕ → List ℕ → ℕ → (locks_ok : Bool) → ℤ × Client
unfolding fresh_client
client_init c client_id server_ip server_port locks_ok =
    if leb max_client_name (strlen client_id) || not (validate_client_id (some client_id))
    then (minus_one, c)
    else if not locks_ok
    then (minus_one, fresh_client client_id server_ip server_port)
    else (pos 0, fresh_client client_id server_ip server_port)

-- `Message msg = {0}`, with its type, sender and time filled in.
unfoldable pub request : Client → MessageType → ℕ → Message
unfolding empty_message strncpy
request c type now = record empty_message {
  type = type;
  sender_id = strncpy (zeros max_client_name) c.client_id (max_client_name - 1);
  timestamp = pos now;
}

-- The text goes in as far as it fits; its length is that of the whole text.
unfoldable pub with_content : List ℕ → Message → Message
unfolding strncpy strlen
with_content message m = record m {
  content = strncpy (zeros max_message_size) message (max_message_size - 1);
  content_length = pos (strlen message);
}

unfoldable pub with_recipient : List ℕ → Message → Message
unfolding strncpy
with_recipient recipient_id m = record m {
  recipient_id = strncpy (zeros max_client_name) recipient_id (max_client_name - 1);
}

unfoldable pub client_stop : Session → Session
client_stop s = record s { client = record s.client { is_running = false } }

-- `client_disconnect` up to the close, and the join behind it, after which the receiving thread is
-- over.
unfoldable pub client_close : Session → Session
unfolding client_stop
client_close s = elim s.server_socket [
  | none ↦ client_stop s
  | some fd ↦
      if s.is_connected
      then record s {
        client = record s.client { is_running = false; server_socket = none; is_connected = false };
        log = closed fd ∷ s.log;
      }
      else client_stop s
]

unfoldable pub client_join : Session → Session
client_join s = record s { client = record s.client { receive_thread = 0 }; receiving = false }

-- `beside` is what the receiving thread still does between the two. The join is taken to return.
unfoldable pub client_disconnect : (beside : Session → Session) → Session → Session
unfolding client_close client_join
client_disconnect beside s = client_join (beside (client_close s))

unfoldable pub client_cleanup : (beside : Session → Session) → Session → Session
unfolding client_disconnect
client_cleanup beside s = client_disconnect beside s

module _ (sendto : Sendto) where
  -- A message to the server: the result, and the session.
  unfoldable pub send_to_server : Session → Message → ℤ × Session
  unfolding send_message_protocol
  send_to_server s msg =
      let (result, log) =
        send_message_protocol sendto s.server_socket msg (some s.server_addr) sizeof_sockaddr
          s.log in
      (result, record s { log = log })

  unfoldable pub client_send_list_request : ℕ → Session → ℤ × Session
  unfolding send_to_server request
  client_send_list_request now s = send_to_server s (request s.client msg_list now)

  unfoldable pub client_send_2all : ℕ → Session → List ℕ → ℤ × Session
  unfolding send_to_server request with_content strlen
  client_send_2all now s message =
      if strlen message == 0
      then (minus_one, s)
      else send_to_server s (with_content message (request s.client msg_2all now))

  unfoldable pub client_send_2one : ℕ → Session → List ℕ → List ℕ → ℤ × Session
  unfolding send_to_server request with_content with_recipient strlen
  client_send_2one now s recipient_id message =
      if strlen message == 0
      then (minus_one, s)
      else send_to_server s
          (with_content message (with_recipient recipient_id (request s.client msg_2one now)))

  unfoldable pub client_send_stop : ℕ → Session → ℤ × Session
  unfolding send_to_server request
  client_send_stop now s = send_to_server s (request s.client msg_stop now)

  unfoldable pub client_send_alive_response : ℕ → Session → ℤ × Session
  unfolding send_to_server request
  client_send_alive_response now s = send_to_server s (request s.client msg_alive_response now)

  -- `inet_pton` gives the number of an address, or fails; `socket` is the result of that call.
  unfoldable pub client_connect :
      (List ℕ → Option ℕ) → (socket : Option ℕ) → ℕ → Session → ℤ × Session
  unfolding send_to_server request
  client_connect inet_pton none now s =
      (minus_one, record s { client = record s.client { server_socket = none } })
  client_connect inet_pton (some fd) now s = elim (inet_pton s.server_ip) [
    | none ↦ (
      minus_one,
      record s { client = record s.client { server_socket = some fd }; log = closed fd ∷ s.log },
    )
    | some address ↦
        let addr : SockAddr = record { ip = address; port = s.server_port % 2 ^ 16 } in
        let c = record s.client { server_socket = some fd; server_addr = addr } in
        let (result, s') = send_to_server (record s { client = c }) (request c msg_list now) in
        if eq_ℤ result minus_one then (minus_one, record s' { log = closed fd ∷ s'.log }) else (
          pos 0,
          record s' { client = record s'.client { is_connected = true; is_running = true } },
        )
  ]
