-- ===== src/Chat/Server/Shutdown/Silence.antt =====
-- Nothing that the server does (lab11/src/server.c) delivers a datagram on a closed descriptor.
use cs_os.Prelude.{
  ℕ, zero, suc, refl, ◌∙◌, inl, inr, ◌&&◌, not, Option, none, some, List, [], ◌∷◌, leb, get_or, dec,
  modify, if-keeps, Bool-cases, Option-cases, find_index-cases,
}
use cs_os.Chat.CString.{str_eq}
use cs_os.Chat.Message.{
  Message, MessageType, msg_list, msg_2all, msg_2one, msg_stop, validate_client_id,
}
use cs_os.Chat.Protocol.{SockAddr, sizeof_sockaddr, Log, Sendto, send_message_protocol}
use cs_os.Chat.Server.{
  ServerClient, World, max_clients, client_at, no_client, is_free, find_client_by_id, vacate, enter,
  add_client_udp, remove_client, safe_close_socket,
}
use cs_os.Chat.Server.Delivery.{Attempt}
use cs_os.Chat.Server.Handlers.{
  is_stop, touch, register, dispatch, handle_2one_request_udp, handle_stop_request_udp, send_others,
}
use cs_os.Chat.Server.Lifecycle.{close_fd}
use cs_os.Chat.Server.Shutdown.{Ebadf, Only, Share, IsSilent, Quiet, Quiet-closed, Quiet-send}

pub Share-modify :
    (fd : ℕ) (f : ServerClient → ServerClient) (cs : List ServerClient) (k : ℕ)
    → ((c : ServerClient) → Only fd c.socket_fd → Only fd (f c).socket_fd)
    → Share fd cs
    → Share fd (modify cs k f)
Share-modify fd f [] k keep s = tt
Share-modify fd f (c ∷ cs) zero keep s = (keep c s.0, s.1)
Share-modify fd f (c ∷ cs) (suc k) keep s = (s.0, Share-modify fd f cs k keep s.1)

pub Share-at :
    (fd : ℕ) (cs : List ServerClient) (k : ℕ)
    → Share fd cs
    → Only fd (get_or cs k no_client).socket_fd
Share-at fd [] k s = inl refl
Share-at fd (c ∷ cs) zero s = s.0
Share-at fd (c ∷ cs) (suc k) s = Share-at fd cs k s.1

Quiet-close :
    (fd : ℕ) (socket : Option ℕ) (log : Log) → Quiet fd log (safe_close_socket socket log).1
unfolding safe_close_socket
Quiet-close fd none log = record { still = λ h. h; nothing = refl }
Quiet-close fd (some a) log = Quiet-closed fd a log

pub Quiet-close_fd : (fd : ℕ) (socket : Option ℕ) (log : Log) → Quiet fd log (close_fd socket log)
unfolding close_fd
Quiet-close_fd fd none log = record { still = λ h. h; nothing = refl }
Quiet-close_fd fd (some a) log = Quiet-closed fd a log

module _ {fd : ℕ} {ds : List Attempt} where
  Silent-log :
      (w : World) (log : Log)
      → IsSilent fd ds w
      → Quiet fd w.log log
      → IsSilent fd ds (record w { log = log })
  Silent-log w log s q = record {
    socket = s.socket;
    slots = s.slots;
    shut = q.still s.shut;
    same = q.nothing ∙ s.same;
  }

  pub Silent-modify :
      (w : World) (k : ℕ) (f : ServerClient → ServerClient)
      → ((c : ServerClient) → Only fd c.socket_fd → Only fd (f c).socket_fd)
      → IsSilent fd ds w
      → IsSilent fd ds (record w { server = record w.server { clients = modify w.clients k f } })
  Silent-modify w k f keep s = record {
    socket = s.socket;
    slots = Share-modify fd f w.clients k keep s.slots;
    shut = s.shut;
    same = s.same;
  }

  pub Silent-remove : (w : World) (i : ℕ) → IsSilent fd ds w → IsSilent fd ds (remove_client w i)
  unfolding remove_client
  Silent-remove w i s =
      if-keeps (IsSilent fd ds) (leb max_clients i) _ _ s
        (if-keeps (IsSilent fd ds) (client_at w.server i).is_active _ _ removed s)
    where
      q : Quiet fd w.log (safe_close_socket (client_at w.server i).socket_fd w.log).1
      q = Quiet-close fd (client_at w.server i).socket_fd w.log

      removed : IsSilent fd ds (record {
        server = record w.server {
          clients = modify w.clients i vacate;
          client_count = dec w.client_count;
        };
        log = (safe_close_socket (client_at w.server i).socket_fd w.log).1;
      })
      removed = record {
        socket = s.socket;
        slots = Share-modify fd vacate w.clients i (λ c o. unfold vacate in inl refl) s.slots;
        shut = q.still s.shut;
        same = q.nothing ∙ s.same;
      }

  Silent-touch :
      (w : World) (i : ℕ) (addr : SockAddr) (now : ℕ)
      → IsSilent fd ds w
      → IsSilent fd ds
          (record w { server = record w.server { clients = modify w.clients i (touch addr now) } })
  Silent-touch w i addr now s = Silent-modify w i (touch addr now) (λ c o. unfold touch in o) s

  Silent-add :
      (now : ℕ) (w : World) (addr : SockAddr) (id : List ℕ)
      → IsSilent fd ds w
      → IsSilent fd ds (record w { server = (add_client_udp now w.server addr id).1 })
  unfolding add_client_udp
  Silent-add now w addr id s = elim (find_index-cases is_free w.clients) [
    | inl (_, e) ↦ rw (e, add_client_udp) s
    | inr (k, f, e) ↦
        rw (e, add_client_udp)
          (record {
            socket = s.socket;
            slots =
                Share-modify fd (enter w.server_socket addr id now) w.clients k
                  (λ c o. unfold enter in s.socket) s.slots;
            shut = s.shut;
            same = s.same;
          })
  ]

module _ {sendto : Sendto} (ebadf : Ebadf sendto) {fd : ℕ} {ds : List Attempt} where
  pub Silent-send :
      (w : World) (socket : Option ℕ) (msg : Message) (addr : Option SockAddr) (addr_len : ℕ)
      → Only fd socket
      → IsSilent fd ds w
      → IsSilent fd ds
          (record w { log = (send_message_protocol sendto socket msg addr addr_len w.log).1 })
  Silent-send w socket msg addr addr_len o s =
      Silent-log w _ s (Quiet-send ebadf socket msg addr addr_len w.log o s.shut)

  Silent-others :
      (sender : List ℕ) (msg : Message) (cs : List ServerClient) (w : World)
      → IsSilent fd ds w
      → IsSilent fd ds (record w { log = send_others sendto w.server_socket sender msg cs w.log })
  unfolding send_others
  Silent-others sender msg [] w s = s
  Silent-others sender msg (c ∷ cs) w s =
      elim (Bool-cases (c.is_active && not (str_eq c.client_id sender))) [
        | inr skip ↦ rw (skip, send_others) (Silent-others sender msg cs w s)
        | inl on ↦
            rw (on, send_others)
              (Silent-others sender msg cs _
                (Silent-send w w.server_socket msg (some c.addr) sizeof_sockaddr s.socket s))
      ]

  pub register-Silent :
      (now : ℕ) (w : World) (msg : Message) (addr : SockAddr) (addr_len : ℕ)
      → IsSilent fd ds w
      → IsSilent fd ds (register sendto now w msg addr addr_len).1
  unfolding register
  register-Silent now w msg addr addr_len s =
      elim (Option-cases (find_client_by_id w.server msg.sender_id)) [
        | inr (i, e) ↦ rw (e, register) (Silent-touch w i addr now s)
        | inl e ↦ elim (Bool-cases (is_stop msg.type)) [
          | inl stop ↦ rw (e, stop, register) s
          | inr go ↦ elim (Bool-cases (validate_client_id (some msg.sender_id))) [
            | inr bad ↦
                rw (e, go, bad, register)
                  (Silent-send w w.server_socket _ (some addr) addr_len s.socket s)
            | inl good ↦ elim (Option-cases (add_client_udp now w.server addr msg.sender_id).0) [
              | inl full ↦
                  rw (e, go, good, full, register)
                    (Silent-send w w.server_socket _ (some addr) addr_len s.socket s)
              | inr (i, got) ↦
                  rw (e, go, good, got, register)
                    (Silent-touch _ i addr now (Silent-add now w addr msg.sender_id s))
            ]
          ]
        ]
      ]

  pub dispatch-Silent :
      (now : ℕ) (type : MessageType) (w : World) (msg : Message) (addr : SockAddr) (addr_len : ℕ)
      → IsSilent fd ds w
      → IsSilent fd ds (dispatch sendto now type w msg addr addr_len)
  unfolding dispatch
  dispatch-Silent now msg_list w msg addr addr_len s =
      Silent-send w w.server_socket _ (some addr) addr_len s.socket s
  dispatch-Silent now msg_2all w msg addr addr_len s = Silent-others msg.sender_id _ w.clients w s
  dispatch-Silent now msg_2one w msg addr addr_len s =
      elim (Option-cases (find_client_by_id w.server msg.recipient_id)) [
        | inl e ↦ rw (e, handle_2one_request_udp) s
        | inr (i, e) ↦
            rw (e, handle_2one_request_udp)
              (Silent-send w w.server_socket _ (some _) sizeof_sockaddr s.socket s)
      ]
  dispatch-Silent now msg_stop w msg addr addr_len s =
      let s' = Silent-send w w.server_socket _ (some addr) addr_len s.socket s in
      elim (Option-cases (find_client_by_id w.server msg.sender_id)) [
        | inl e ↦ rw (e, handle_stop_request_udp) s'
        | inr (i, e) ↦ rw (e, handle_stop_request_udp) (Silent-remove _ i s')
      ]
  dispatch-Silent now _ w msg addr addr_len s = s
