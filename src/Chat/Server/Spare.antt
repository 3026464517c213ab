-- ===== src/Chat/Server/Spare.antt =====
-- Functions of lab11/src/server.c that the UDP server no longer calls: what they would send.
use cs_os.Prelude.{
  ℕ, ◌≡◌, refl, Bool, true, false, ◌&&◌, not, Option, none, some, List, [], ◌∷◌, ◌==◌,
  if◌then◌else◌, Option-cases, inl, inr, Bool-cases, ==_iff, ap,
}
use cs_os.Chat.CString.{codes}
use cs_os.Chat.Message.{Message, msg_stop, msg_client_list, msg_private, create_message}
use cs_os.Chat.Protocol.{sizeof_sockaddr, Log, Sendto, send_message_protocol}
use cs_os.Chat.Server.{ServerClient, World, client_at, find_client_by_id}
use cs_os.Chat.Server.Handlers.{server_name, client_list, handle_2one_request_udp}

-- `a == b` for two descriptors.
unfoldable pub same_socket : Option ℕ → Option ℕ → Bool
same_socket none none = true
same_socket (some a) (some b) = a == b
same_socket _ _ = false

-- Every active client is on this socket.
abbrev pub AllOn : Option ℕ → List ServerClient → Type 0
AllOn socket [] = Unit
AllOn socket (c ∷ cs) = (c.is_active ≡ true → c.socket_fd ≡ socket) × AllOn socket cs

module _ (sendto : Sendto) where
  unfoldable pub handle_stop_request : ℕ → World → Option ℕ → World
  unfolding send_message_protocol
  handle_stop_request now w client_socket = record w {
    log =
        (send_message_protocol sendto client_socket
          (create_message msg_stop (some server_name) (some []) (some (codes "Goodbye!")) now) none
          0 w.log).1;
  }

  unfoldable pub send_client_list : ℕ → World → Option ℕ → World
  unfolding send_message_protocol client_list
  send_client_list now w client_socket = record w {
    log =
        (send_message_protocol sendto client_socket
          (create_message msg_client_list (some server_name) (some [])
            (some (client_list w.clients)) now)
          none 0 w.log).1;
  }

  -- The loop of `broadcast_message`, which leaves out the clients on the sender's socket.
  unfoldable pub send_other_sockets : Option ℕ → Message → Option ℕ → List ServerClient → Log → Log
  unfolding send_message_protocol same_socket
  send_other_sockets socket msg sender_socket [] log = log
  send_other_sockets socket msg sender_socket (c ∷ cs) log =
      send_other_sockets socket msg sender_socket cs (
        if c.is_active && not (same_socket c.socket_fd sender_socket)
        then (send_message_protocol sendto socket msg (some c.addr) sizeof_sockaddr log).1
        else log)

  unfoldable pub broadcast_message : World → Message → Option ℕ → World
  unfolding send_other_sockets
  broadcast_message w msg sender_socket = record w {
    log = send_other_sockets w.server_socket msg sender_socket w.clients w.log;
  }

  unfoldable pub send_private_message : World → Message → List ℕ → World
  unfolding send_message_protocol
  send_private_message w msg recipient_id = elim (find_client_by_id w.server recipient_id) [
    | none ↦ w
    | some i ↦ record w {
      log =
          (send_message_protocol sendto w.server_socket msg (some (client_at w.server i).addr)
            sizeof_sockaddr w.log).1;
    }
  ]

  -- The handler of MSG_2ONE is the building of a private message and `send_private_message`.
  pub handle_2one_request_udp-send_private_message :
      (now : ℕ) (w : World) (msg : Message)
      → handle_2one_request_udp sendto now w msg
        ≡ send_private_message w
            (create_message msg_private
              (some msg.sender_id)
              (some msg.recipient_id)
              (some msg.content)
              now)
            msg.recipient_id
  unfolding handle_2one_request_udp send_private_message
  handle_2one_request_udp-send_private_message now w msg =
      elim (Option-cases (find_client_by_id w.server msg.recipient_id)) [
        | inl e ↦ rw (e, handle_2one_request_udp, send_private_message) refl
        | inr (i, e) ↦ rw (e, handle_2one_request_udp, send_private_message) refl
      ]

  send_other_sockets-none :
      (socket : Option ℕ) (msg : Message) (fd : ℕ) (cs : List ServerClient) (log : Log)
      → AllOn (some fd) cs
      → send_other_sockets socket msg (some fd) cs log ≡ log
  unfolding send_other_sockets same_socket
  send_other_sockets-none socket msg fd [] log a = refl
  send_other_sockets-none socket msg fd (c ∷ cs) log a = elim (Bool-cases c.is_active) [
    | inl on ↦
        rw (on, a.0 on, (==_iff fd fd).1 refl, send_other_sockets)
          (send_other_sockets-none socket msg fd cs log a.1)
    | inr off ↦ rw (off, send_other_sockets) (send_other_sockets-none socket msg fd cs log a.1)
  ]

  unaddressed :
      (socket : Option ℕ) (msg : Message) (log : Log)
      → (send_message_protocol sendto socket msg none 0 log).1 ≡ log
  unfolding send_message_protocol
  unaddressed none msg log = refl
  unaddressed (some fd) msg log = refl

  -- What is left of the connection-based server reaches nobody over UDP: the two answers have no
  -- address, and a broadcast leaves out everybody on the sender's socket, which is the one socket
  -- of all active clients. The state is left as it was.
  pub spare-silent :
      (now : ℕ) (w : World) (msg : Message) (client_socket : Option ℕ) (fd : ℕ)
      → AllOn (some fd) w.clients
      → (handle_stop_request now w client_socket ≡ w)
        × (send_client_list now w client_socket ≡ w)
        × (broadcast_message w msg (some fd) ≡ w)
  unfolding handle_stop_request send_client_list broadcast_message
  spare-silent now w msg client_socket fd a = (
    ap (λ log. record w { log = log }) (unaddressed client_socket _ w.log),
    ap (λ log. record w { log = log }) (unaddressed client_socket _ w.log),
    ap (λ log. record w { log = log })
        (send_other_sockets-none w.server_socket msg fd w.clients w.log a),
  )
