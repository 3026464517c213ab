-- ===== src/Chat/Server/Handlers.antt =====
-- The request handlers of lab11/src/server.c: what the server does with one valid message.
-- All reads of the clock in one handler are one number, `now`. Output to the terminal is left out.
use cs_os.Prelude.{
  ℕ, Bool, true, false, ◌&&◌, not, Option, none, some, List, [], ◌∷◌, if◌then◌else◌, modify,
}
use cs_os.Chat.CString.{codes, str_eq, zeros, safe_strcpy, safe_strcat}
use cs_os.Chat.Message.{
  MessageType, msg_list, msg_2all, msg_2one, msg_stop, msg_error, msg_client_list, msg_broadcast,
  msg_private, Message, max_message_size, create_message, validate_client_id,
}
use cs_os.Chat.Protocol.{SockAddr, sizeof_sockaddr, Log, Sendto, send_message_protocol}
use cs_os.Chat.Server.{
  ServerClient, World, client_at, find_client_by_id, add_client_udp, remove_client,
}

abbrev pub server_name : List ℕ
server_name = codes "SERVER"

-- The update of a known client's slot.
unfoldable pub touch : SockAddr → ℕ → ServerClient → ServerClient
touch addr now c = record c { addr = addr; last_seen = now; inactive_count = 0 }

touch_at : World → ℕ → SockAddr → ℕ → World
unfolding touch
touch_at w i addr now = record w {
  server = record w.server { clients = modify w.clients i (touch addr now) };
}

-- The loop that writes the list of names: whether no client has been met, and the text so far.
unfoldable pub list_clients : List ServerClient → Bool → List ℕ → Bool × List ℕ
list_clients [] first text = (first, text)
list_clients (c ∷ cs) first text = list_clients cs (first && not c.is_active) (
    if c.is_active
    then safe_strcat (if first then text else safe_strcat text (codes ", ") max_message_size)
        c.client_id max_message_size
    else text)

-- The array `client_list` when it is sent.
unfoldable pub client_list : List ServerClient → List ℕ
unfolding list_clients
client_list cs =
    let (first, text) =
      list_clients cs true
        (safe_strcpy (zeros max_message_size) (codes "Connected clients: ") max_message_size) in
    if first then safe_strcpy text (codes "No clients connected") max_message_size else text

-- `type == MSG_STOP`
abbrev pub is_stop : MessageType → Bool
is_stop msg_stop = true
is_stop _ = false

module _ (sendto : Sendto) where
  -- A message from "SERVER", through the server's socket.
  send_from_server : World → Message → SockAddr → ℕ → World
  unfolding send_message_protocol
  send_from_server w msg addr addr_len = record w {
    log = (send_message_protocol sendto w.server_socket msg (some addr) addr_len w.log).1;
  }

  unfoldable pub handle_list_request_udp : ℕ → World → SockAddr → ℕ → World
  unfolding send_from_server client_list
  handle_list_request_udp now w client_addr addr_len =
      send_from_server w
        (create_message msg_client_list (some server_name) (some []) (some (client_list w.clients))
          now)
        client_addr addr_len

  -- The loop over the table that sends a message to every active client but one.
  unfoldable pub send_others : Option ℕ → List ℕ → Message → List ServerClient → Log → Log
  unfolding send_message_protocol
  send_others socket sender msg [] log = log
  send_others socket sender msg (c ∷ cs) log = send_others socket sender msg cs (
      if c.is_active && not (str_eq c.client_id sender)
      then (send_message_protocol sendto socket msg (some c.addr) sizeof_sockaddr log).1
      else log)

  unfoldable pub handle_2all_request_udp : ℕ → World → Message → World
  unfolding send_others
  handle_2all_request_udp now w msg = record w {
    log =
        send_others w.server_socket msg.sender_id
          (create_message msg_broadcast (some msg.sender_id) (some []) (some msg.content) now)
          w.clients w.log;
  }

  unfoldable pub handle_2one_request_udp : ℕ → World → Message → World
  unfolding send_from_server
  handle_2one_request_udp now w msg = elim (find_client_by_id w.server msg.recipient_id) [
    | none ↦ w
    | some i ↦
        send_from_server w
          (create_message msg_private (some msg.sender_id) (some msg.recipient_id)
            (some msg.content) now)
          (client_at w.server i).addr sizeof_sockaddr
  ]

  unfoldable pub handle_stop_request_udp : ℕ → World → SockAddr → ℕ → List ℕ → World
  unfolding send_from_server
  handle_stop_request_udp now w client_addr addr_len client_id =
      let w' =
        send_from_server w
          (create_message msg_stop (some server_name) (some []) (some (codes "Goodbye!")) now)
          client_addr addr_len in
      elim (find_client_by_id w'.server client_id) [ none ↦ w' | some i ↦ remove_client w' i ]

  refuse : ℕ → World → Message → List ℕ → SockAddr → ℕ → World
  unfolding send_from_server
  refuse now w msg reason client_addr addr_len =
      send_from_server w
        (create_message msg_error (some server_name) (some msg.sender_id) (some reason) now)
        client_addr addr_len

  -- `handle_message_directly` up to the release of the mutex: the sender is looked up or entered,
  -- and its slot refreshed. `false` is an early return.
  unfoldable pub register : ℕ → World → Message → SockAddr → ℕ → Bool × World
  unfolding touch_at refuse
  register now w msg client_addr addr_len = elim (find_client_by_id w.server msg.sender_id) [
    | some i ↦ (true, touch_at w i client_addr now)
    | none ↦
        if is_stop msg.type
        then (true, w)
        else if not (validate_client_id (some msg.sender_id))
        then (false, refuse now w msg (codes "Invalid client ID format") client_addr addr_len)
        else let (found, s) = add_client_udp now w.server client_addr msg.sender_id in
          elim found [
            | none ↦ (
              false,
              refuse now w msg (codes "Server full or internal error") client_addr addr_len,
            )
            | some i ↦ (true, touch_at (record w { server = s }) i client_addr now)
          ]
  ]

  -- The `switch` after it.
  unfoldable pub dispatch : ℕ → MessageType → World → Message → SockAddr → ℕ → World
  unfolding handle_list_request_udp handle_2all_request_udp handle_2one_request_udp
      handle_stop_request_udp
  dispatch now msg_list w msg client_addr addr_len =
      handle_list_request_udp now w client_addr addr_len
  dispatch now msg_2all w msg client_addr addr_len = handle_2all_request_udp now w msg
  dispatch now msg_2one w msg client_addr addr_len = handle_2one_request_udp now w msg
  dispatch now msg_stop w msg client_addr addr_len =
      handle_stop_request_udp now w client_addr addr_len msg.sender_id
  dispatch now _ w msg client_addr addr_len = w

  unfoldable pub handle_message_directly : ℕ → World → Message → SockAddr → ℕ → World
  unfolding register dispatch
  handle_message_directly now w msg client_addr addr_len =
      let (go_on, w') = register now w msg client_addr addr_len in
      if go_on then dispatch now msg.type w' msg client_addr addr_len else w'
