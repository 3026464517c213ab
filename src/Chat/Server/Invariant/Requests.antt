-- ===== src/Chat/Server/Invariant/Requests.antt =====
-- What the server does with one message, and one sweep of the monitor, keep the invariant
-- (lab11/src/server.c).
use cs_os.Prelude.{
  ℕ, ◌≡◌, true, false, Option, List, [], ℤ, leb, none, some, inl, inr, Option-cases, Bool-cases,
  NoneOf, if-keeps, find_index-cases, for_range-keeps,
}
use cs_os.Chat.Message.{
  MessageType, msg_alive, create_message, msg_list, msg_2all, msg_2one, msg_stop, Message,
  validate_client_id,
}
use cs_os.Chat.Message.ClientId.{validate_client_id_iff}
use cs_os.Chat.Protocol.{SockAddr, sizeof_sockaddr, Log, Sendto, send_message_protocol}
use cs_os.Chat.Server.{
  Server, World, max_clients, max_inactive_count, client_at, is_called, find_client_by_id,
  add_client_udp, remove_client,
}
use cs_os.Chat.Server.Handlers.{
  server_name, is_stop, register, dispatch, handle_message_directly, handle_stop_request_udp,
  handle_2one_request_udp,
}
use cs_os.Chat.Server.Keepalive.{ask, has_failed, check_client, sweep}
use cs_os.Chat.Server.Invariant.Updates.{
  IsValid, touch-IsValid, miss-IsValid, add_client_udp-IsValid, remove_client-IsValid,
}

-- An id that is not found is in no active slot.
find_client_by_id-none :
    (s : Server) (id : List ℕ) → find_client_by_id s id ≡ none → NoneOf (is_called id) s.clients
unfolding find_client_by_id
find_client_by_id-none s id h = elim (find_index-cases (is_called id) s.clients) [
  | inl (n, _) ↦ n
  | inr (k, _, e) ↦ cc
]

pub record Sound (w : World) : Type 0 where
  pub valid : IsValid w.server

remove_client-Sound : (w : World) (i : ℕ) → Sound w → Sound (remove_client w i)
remove_client-Sound w i s = record { valid = remove_client-IsValid w i s.valid }

module _ (sendto : Sendto) (now : ℕ) where
  newcomer :
      (w : World) (msg : Message) (addr : SockAddr) (addr_len : ℕ)
      → IsValid w.server
      → find_client_by_id w.server msg.sender_id ≡ none
      → is_stop msg.type ≡ false
      → validate_client_id (some msg.sender_id) ≡ true
      → IsValid (register sendto now w msg addr addr_len).1.server
  unfolding register
  newcomer w msg addr addr_len v e go good = elim (Option-cases entered.0) [
    | inl full ↦ rw (e, go, good, full, register) v
    | inr (i, got) ↦
        rw (e, go, good, got, register)
          (touch-IsValid addr now entered.1 i (
            add_client_udp-IsValid now w.server addr msg.sender_id
              ((validate_client_id_iff msg.sender_id).0 good)
              (find_client_by_id-none w.server msg.sender_id e) v))
  ]
    where
      entered : Option ℕ × Server
      entered = add_client_udp now w.server addr msg.sender_id

  -- The part of `handle_message_directly` under the mutex keeps the invariant.
  pub register-IsValid :
      (w : World) (msg : Message) (addr : SockAddr) (addr_len : ℕ)
      → IsValid w.server
      → IsValid (register sendto now w msg addr addr_len).1.server
  unfolding register
  register-IsValid w msg addr addr_len v =
      elim (Option-cases (find_client_by_id w.server msg.sender_id)) [
        | inr (i, e) ↦ rw (e, register) (touch-IsValid addr now w.server i v)
        | inl e ↦ elim (Bool-cases (is_stop msg.type)) [
          | inl stop ↦ rw (e, stop, register) v
          | inr go ↦ elim (Bool-cases (validate_client_id (some msg.sender_id))) [
            | inr bad ↦ rw (e, go, bad, register) v
            | inl good ↦ newcomer w msg addr addr_len v e go good
          ]
        ]
      ]

  -- So does the handler that the type of the message chooses.
  pub dispatch-IsValid :
      (type : MessageType) (w : World) (msg : Message) (addr : SockAddr) (addr_len : ℕ)
      → IsValid w.server
      → IsValid (dispatch sendto now type w msg addr addr_len).server
  unfolding dispatch
  dispatch-IsValid msg_list w msg addr addr_len v = v
  dispatch-IsValid msg_2all w msg addr addr_len v = v
  dispatch-IsValid msg_2one w msg addr addr_len v =
      elim (Option-cases (find_client_by_id w.server msg.recipient_id)) [
        | inl e ↦ rw (e, handle_2one_request_udp) v
        | inr (i, e) ↦ rw (e, handle_2one_request_udp) v
      ]
  dispatch-IsValid msg_stop w msg addr addr_len v =
      elim (Option-cases (find_client_by_id w.server msg.sender_id)) [
        | inl e ↦ rw (e, handle_stop_request_udp) v
        | inr (i, e) ↦ rw (e, handle_stop_request_udp) (remove_client-IsValid _ i v)
      ]
  dispatch-IsValid _ w msg addr addr_len v = v

  -- Whatever arrives, `handle_message_directly` keeps the table a set of well-formed names, and
  -- `client_count` its size.
  pub handle_message_directly-IsValid :
      (w : World) (msg : Message) (addr : SockAddr) (addr_len : ℕ)
      → IsValid w.server
      → IsValid (handle_message_directly sendto now w msg addr addr_len).server
  unfolding handle_message_directly
  handle_message_directly-IsValid w msg addr addr_len v =
      let v' = register-IsValid w msg addr addr_len v in
      elim (Bool-cases (register sendto now w msg addr addr_len).0) [
        | inl go ↦
            rw (go, handle_message_directly) (dispatch-IsValid msg.type _ msg addr addr_len v')
        | inr stop ↦ rw (stop, handle_message_directly) v'
      ]

  ask-Sound : (i : ℕ) (w : World) → Sound w → Sound (ask sendto now w i)
  unfolding ask
  ask-Sound i w s =
      if-keeps Sound (leb max_inactive_count (client_at w.server i).inactive_count) _ _
        (remove_client-Sound w i s)
        (if-keeps Sound (has_failed result.0) _ _ (remove_client-Sound asked i asked-Sound)
          asked-Sound)
    where
      result : ℤ × Log
      result =
          send_message_protocol sendto w.server_socket
            (create_message msg_alive (some server_name) (some (client_at w.server i).client_id)
              (some []) now)
            (some (client_at w.server i).addr) sizeof_sockaddr w.log

      asked : World
      asked = record w { log = result.1 }

      asked-Sound : Sound asked
      asked-Sound = record { valid = s.valid }

  check_client-Sound : (i : ℕ) (w : World) → Sound w → Sound (check_client sendto now i w)
  unfolding check_client
  check_client-Sound i w s =
      if-keeps Sound _ _ _ s (
        if-keeps Sound _ _ _ (ask-Sound i _ (record { valid = miss-IsValid w.server i s.valid })) s)

  -- A sweep of the monitor, which may remove any number of clients, keeps the invariant.
  pub sweep-IsValid : (w : World) → IsValid w.server → IsValid (sweep sendto now w).server
  unfolding sweep
  sweep-IsValid w v =
      (for_range-keeps Sound _ check_client-Sound 0 max_clients w (record { valid = v })).valid
