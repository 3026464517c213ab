-- ===== src/Chat/Server/Shutdown/Last.antt =====
-- The last datagram of the server (lab11/src/server.c): none goes out after the first client has
-- left, nor once `server_stop` has begun.
use cs_os.Prelude.{
  ℕ, ◌≡◌, refl, ◌∙◌, inl, inr, true, not, none, some, List, arith, ℤ, leb, get_elem?, modify,
  for_range-keeps, for_range, if-keeps, Bool-cases, [], ◌∷◌, ◌<◌, get_elem?-lt,
}
use cs_os.Chat.CString.{codes, cstr}
use cs_os.Chat.Message.{Message, msg_stop, msg_alive, create_message}
use cs_os.Chat.Protocol.{SockAddr, sizeof_sockaddr, closed, Log, Sendto, send_message_protocol}
use cs_os.Chat.Server.{
  ServerClient, World, max_clients, max_inactive_count, client_at, remove_client,
}
use cs_os.Chat.Server.Delivery.{Attempt}
use cs_os.Chat.Server.Handlers.{server_name, handle_stop_request_udp}
use cs_os.Chat.Server.Keepalive.{ask, has_failed, miss, check_client, sweep}
use cs_os.Chat.Server.Lifecycle.{close_fd, dismiss, dismiss_client, server_stop}
use cs_os.Chat.Server.Table.{find_client_by_id-called}
use cs_os.Chat.Server.Invariant.{IsValid}
use cs_os.Chat.Server.Invariant.Runs.{
  System, registered, Step, take_request, answer, monitor, signal, Reach, here, later,
}
use cs_os.Chat.Server.Shutdown.{is_closed, deliveries, Ebadf, Share, IsSilent}
use cs_os.Chat.Server.Shutdown.Silence.{
  Share-at, Share-modify, Quiet-close_fd, Silent-modify, Silent-remove, Silent-send,
  register-Silent, dispatch-Silent,
}
use cs_os.Chat.Server.Shutdown.Removal.{
  remove_client-closes, remove_client-socket, remove_client-running, remove_client-Share,
}

module _ {sendto : Sendto} (ebadf : Ebadf sendto) {fd : ℕ} {ds : List Attempt} (now : ℕ) where
  ask-Silent : (w : World) (i : ℕ) → IsSilent fd ds w → IsSilent fd ds (ask sendto now w i)
  unfolding ask
  ask-Silent w i s =
      if-keeps (IsSilent fd ds) (leb max_inactive_count (client_at w.server i).inactive_count) _ _
        (Silent-remove w i s)
        (if-keeps (IsSilent fd ds) (has_failed result.0) _ _ (Silent-remove asked i asked-Silent)
          asked-Silent)
    where
      message : Message
      message =
          create_message msg_alive (some server_name) (some (client_at w.server i).client_id)
            (some []) now

      result : ℤ × Log
      result =
          send_message_protocol sendto w.server_socket message (some (client_at w.server i).addr)
            sizeof_sockaddr w.log

      asked : World
      asked = record w { log = result.1 }

      asked-Silent : IsSilent fd ds asked
      asked-Silent =
          Silent-send ebadf w w.server_socket message (some (client_at w.server i).addr)
            sizeof_sockaddr s.socket s

  check_client-Silent :
      (i : ℕ) (w : World) → IsSilent fd ds w → IsSilent fd ds (check_client sendto now i w)
  unfolding check_client
  check_client-Silent i w s = if-keeps (IsSilent fd ds) _ _ _ s (
      if-keeps (IsSilent fd ds) _ _ _
        (ask-Silent _ i (Silent-modify w i miss (λ c o. unfold miss in o) s)) s)

  sweep-Silent : (w : World) → IsSilent fd ds w → IsSilent fd ds (sweep sendto now w)
  unfolding sweep
  sweep-Silent w s = for_range-keeps (IsSilent fd ds) _ check_client-Silent 0 max_clients w s

  dismiss_client-Silent :
      (i : ℕ) (w : World) → IsSilent fd ds w → IsSilent fd ds (dismiss_client sendto now i w)
  unfolding dismiss_client
  dismiss_client-Silent i w s =
      if-keeps (IsSilent fd ds) (client_at w.server i).is_active _ _ gone s
    where
      message : Message
      message =
          create_message msg_stop (some server_name) (some (client_at w.server i).client_id)
            (some (codes "Server shutting down")) now

      told : IsSilent fd ds (record w {
        log =
            (send_message_protocol sendto
              (client_at w.server i).socket_fd
              message
              (some (client_at w.server i).addr)
              sizeof_sockaddr
              w.log).1;
      })
      told =
          Silent-send ebadf w (client_at w.server i).socket_fd message
            (some (client_at w.server i).addr) sizeof_sockaddr (Share-at fd w.clients i s.slots) s

      gone : IsSilent fd ds (record {
        server = record w.server { clients = modify w.clients i dismiss };
        log =
            close_fd
              (client_at w.server i).socket_fd
              (send_message_protocol sendto
                (client_at w.server i).socket_fd
                message
                (some (client_at w.server i).addr)
                sizeof_sockaddr
                w.log).1;
      })
      gone =
          let q = Quiet-close_fd fd (client_at w.server i).socket_fd _ in
          record {
            socket = s.socket;
            slots = Share-modify fd dismiss w.clients i (λ c o. unfold dismiss in inl refl) s.slots;
            shut = q.still told.shut;
            same = q.nothing ∙ told.same;
          }

  dismiss_all-Silent :
      (w : World)
      → IsSilent fd ds w
      → IsSilent fd ds (for_range (dismiss_client sendto now) 0 max_clients w)
  dismiss_all-Silent w s =
      for_range-keeps (IsSilent fd ds) _ dismiss_client-Silent 0 max_clients w s

module _ {sendto : Sendto} (ebadf : Ebadf sendto) {fd : ℕ} where
  Step-Silent :
      {ds : List Attempt} {s t : System}
      → Step sendto s t
      → IsSilent fd ds s.world
      → IsSilent fd ds t.world
  unfolding registered server_stop
  Step-Silent {s} (take_request now msg addr addr_len run idle ok e) q =
      rw e (register-Silent ebadf now s.world msg addr addr_len q)
  Step-Silent {s} (answer now msg addr addr_len p e) q =
      rw e (dispatch-Silent ebadf now msg.type s.world msg addr addr_len q)
  Step-Silent {s} (monitor now e) q = rw e (sweep-Silent ebadf now s.world q)
  Step-Silent {ds} {s} (signal now e) q = rw e (
      if-keeps (IsSilent fd ds) (not s.world.is_running) _ _ q (
        dismiss_all-Silent ebadf now _ (
          let c = Quiet-close_fd fd s.world.server_socket s.world.log in
          record {
            socket = inl refl;
            slots = q.slots;
            shut = c.still q.shut;
            same = c.nothing ∙ q.same;
          })))

  Reach-Silent :
      {ds : List Attempt} {s t : System}
      → Reach sendto s t
      → IsSilent fd ds s.world
      → IsSilent fd ds t.world
  Reach-Silent here q = q
  Reach-Silent (later r st) q = Step-Silent st (Reach-Silent r q)

  -- When an active client takes its leave by MSG_STOP, the server goes on running with the number of
  -- its socket, but the descriptor is closed: no state that the running server reaches afterwards,
  -- however its threads are interleaved and whatever arrives, has delivered one more datagram.
  -- The table is valid, and all slots hold the server's descriptor or none.
  pub stop_silences :
      (now : ℕ) (w : World) (addr : SockAddr) (addr_len : ℕ) (id : List ℕ) (k : ℕ)
      (c : ServerClient) {t : System}
      → IsValid w.server
      → Share fd w.clients
      → w.server_socket ≡ some fd
      → get_elem? w.clients k ≡ some c
      → c.is_active ≡ true
      → c.socket_fd ≡ some fd
      → cstr c.client_id ≡ cstr id
      → Reach sendto
          (record { world = handle_stop_request_udp sendto now w addr addr_len id; pending = none })
          t
      → let w' = handle_stop_request_udp sendto now w addr addr_len id in
        (w'.server_socket ≡ some fd)
        × (w'.is_running ≡ w.is_running)
        × (deliveries t.world.log ≡ deliveries w'.log)
  stop_silences now w addr addr_len id k c {t} v share s e on own name r =
      let (sock, run, closed_now, slots) = left in
      (
        sock,
        run,
        (Reach-Silent r
            (record { socket = inr sock; slots = slots; shut = closed_now; same = refl })).same,
      )
    where
      message : Message
      message = create_message msg_stop (some server_name) (some []) (some (codes "Goodbye!")) now

      told : World
      told = record w {
        log = (send_message_protocol sendto w.server_socket message (some addr) addr_len w.log).1;
      }

      in_table : k < max_clients
      in_table = omega (arith, v.slots, get_elem?-lt w.clients k c e)

      is_gone : handle_stop_request_udp sendto now w addr addr_len id ≡ remove_client told k
      is_gone =
          unfold handle_stop_request_udp in
          rw (find_client_by_id-called w.server id k c v.table e on name, handle_stop_request_udp)

      left :
          let w' = handle_stop_request_udp sendto now w addr addr_len id in
          (w'.server_socket ≡ some fd)
          × (w'.is_running ≡ w.is_running)
          × (is_closed fd w'.log ≡ true)
          × Share fd w'.clients
      left = rw is_gone (
        remove_client-socket told k ∙ s,
        remove_client-running told k,
        (remove_client-closes fd told k c in_table e on own).0,
        remove_client-Share fd told k share,
      )

  -- `server_stop` closes the socket before it says goodbye: of the MSG_STOP messages to the clients
  -- that it then sends, none is delivered. All slots hold the server's descriptor or none.
  pub server_stop-delivers_none :
      (now : ℕ) (w : World)
      → Share fd w.clients
      → w.server_socket ≡ some fd
      → deliveries (server_stop sendto now w).log ≡ deliveries w.log
  unfolding server_stop
  server_stop-delivers_none now w share s = elim (Bool-cases w.is_running) [
    | inr off ↦ rw (off, server_stop)
    | inl on ↦
        rw (on, server_stop)
          (dismiss_all-Silent ebadf now _ (record {
            socket = inl refl;
            slots = share;
            shut = ground (arith, s, closes);
            same = ground (arith, s, closes);
          })).same
  ]
    where
      closes :
          (is_closed fd (closed fd ∷ w.log) ≡ true)
          × (deliveries (closed fd ∷ w.log) ≡ deliveries w.log)
      closes = unfold is_closed deliveries in (ground arith, refl)
