-- ===== src/Tcp/Server/Handlers.antt =====
-- The request handlers of lab10/src/server.c: what the server does with one message of a client.
-- All reads of the clock in one handler are one number, `now`. Output to the terminal is left out.
-- Each function takes `clients_mutex` around what it does to the table, and runs as one step.
use cs_os.Prelude.{ℕ, ◌&&◌, not, Option, none, some, List, [], ◌∷◌, if◌then◌else◌, modify}
use cs_os.Chat.CString.{codes}
use cs_os.Chat.Message.{
  MessageType, msg_list, msg_2all, msg_2one, msg_stop, msg_alive_response, msg_client_list,
  msg_broadcast, msg_private, Message, create_message,
}
use cs_os.Chat.Server.{ServerClient, client_at, find_client_by_id, find_client_by_socket}
use cs_os.Chat.Server.Handlers.{client_list, server_name}
use cs_os.Chat.Server.Spare.{same_socket}
use cs_os.Tcp.Server.{World, Network, Log, send_to}

-- A sign of life.
unfoldable pub heard : ℕ → ServerClient → ServerClient
heard now c = record c { last_seen = now; inactive_count = 0 }

unfoldable pub heard_at : ℕ → World → ℕ → World
unfolding heard
heard_at now w i = record w {
  server = record w.server { clients = modify w.clients i (heard now) };
}

unfoldable pub handle_alive_response : ℕ → World → Option ℕ → World
unfolding find_client_by_socket heard_at
handle_alive_response now w client_socket = elim (find_client_by_socket w.server client_socket) [
  | none ↦ w
  | some i ↦ heard_at now w i
]

module _ (net : Network) where
  unfoldable pub send_client_list : ℕ → World → Option ℕ → World
  unfolding send_to client_list
  send_client_list now w client_socket = record w {
    log =
        (send_to net client_socket
          (create_message msg_client_list (some server_name) (some [])
            (some (client_list w.clients)) now)
          w.log).1;
  }

  unfoldable pub handle_list_request : ℕ → World → Option ℕ → World
  unfolding send_client_list
  handle_list_request now w client_socket = send_client_list now w client_socket

  -- The loop of `broadcast_message`.
  unfoldable pub send_other_clients : Message → Option ℕ → List ServerClient → Log → Log
  unfolding send_to
  send_other_clients msg sender_socket [] log = log
  send_other_clients msg sender_socket (c ∷ cs) log = send_other_clients msg sender_socket cs (
      if c.is_active && not (same_socket c.socket_fd sender_socket)
      then (send_to net c.socket_fd msg log).1
      else log)

  unfoldable pub broadcast_message : World → Message → Option ℕ → World
  unfolding send_other_clients
  broadcast_message w msg sender_socket = record w {
    log = send_other_clients msg sender_socket w.clients w.log;
  }

  unfoldable pub handle_2all_request : ℕ → World → Message → Option ℕ → World
  unfolding broadcast_message
  handle_2all_request now w msg sender_socket =
      broadcast_message w
        (create_message msg_broadcast (some msg.sender_id) (some []) (some msg.content) now)
        sender_socket

  unfoldable pub send_private_message : World → Message → List ℕ → World
  unfolding send_to
  send_private_message w msg recipient_id = elim (find_client_by_id w.server recipient_id) [
    | none ↦ w
    | some i ↦ record w { log = (send_to net (client_at w.server i).socket_fd msg w.log).1 }
  ]

  unfoldable pub handle_2one_request : ℕ → World → Message → World
  unfolding send_private_message
  handle_2one_request now w msg =
      send_private_message w
        (create_message msg_private (some msg.sender_id) (some msg.recipient_id) (some msg.content)
          now)
        msg.recipient_id

  unfoldable pub handle_stop_request : ℕ → World → Option ℕ → World
  unfolding send_to
  handle_stop_request now w client_socket = record w {
    log =
        (send_to net client_socket
          (create_message msg_stop (some server_name) (some []) (some (codes "Goodbye!")) now)
          w.log).1;
  }

  -- The `switch` of `handle_client`.
  unfoldable pub answer : ℕ → MessageType → World → Message → Option ℕ → World
  unfolding handle_list_request handle_2all_request handle_2one_request handle_stop_request
      handle_alive_response
  answer now msg_list w msg client_socket = handle_list_request now w client_socket
  answer now msg_2all w msg client_socket = handle_2all_request now w msg client_socket
  answer now msg_2one w msg client_socket = handle_2one_request now w msg
  answer now msg_stop w msg client_socket = handle_stop_request now w client_socket
  answer now msg_alive_response w msg client_socket = handle_alive_response now w client_socket
  answer now _ w msg client_socket = w
