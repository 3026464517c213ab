-- ===== src/Chat/Client/Open.antt =====
-- The client's socket stays open and unclosed through all that the threads of the client do while
-- it runs (lab11/src/client.c).
use cs_os.Prelude.{
  ℕ, leb, Bool, ◌≡◌, refl, ◌∙◌, inl, inr, true, ◌||◌, Option, none, some, List, [], subst, ◌∷◌,
  ◌==◌, if◌then◌else◌, if-keeps, arith, Option-cases, ℤ,
}
use cs_os.Chat.CString.{cstr, strlen, codes, str_eq}
use cs_os.Chat.Message.{
  Message, MessageType, max_message_size, msg_alive, msg_list, msg_2all, msg_2one, msg_stop,
  msg_alive_response, msg_error, msg_client_list, msg_broadcast, msg_private, out_of_range,
}
use cs_os.Chat.Protocol.{
  SockAddr, sizeof_sockaddr, sent, closed, Log, Sendto, send_message_protocol,
}
use cs_os.Chat.Client.{
  Session, send_to_server, client_stop, client_send_2one, client_send_2all,
  client_send_list_request, client_send_stop, client_send_alive_response, request,
}
use cs_os.Chat.Client.Input.{
  strtok, space, type_2all, send_typed, type_2one, run_command, handle_user_input,
}
use cs_os.Chat.Client.Main.{
  Happening, typed, input_over, signalled, interrupted, receive_interrupted, receive_failed,
  arrived, Outcome, waiting, ended, overflowed, react, next_round, receive_datagram, receive_stop,
  handle_received_message, client_run_interactive, Datagram, receive_all, receive_late,
}

-- The descriptors that were closed, latest first.
unfoldable pub closings : Log → List ℕ
closings [] = []
closings (sent _ _ _ _ ∷ log) = closings log
closings (closed fd ∷ log) = fd ∷ closings log

pub record IsOpen (fd : ℕ) (s : Session) : Type 0 where
  pub socket : s.server_socket ≡ some fd
  pub connected : s.is_connected ≡ true
  pub quiet : closings s.log ≡ []

abbrev Kept : ℕ → Option Session → Type 0
Kept fd none = Unit
Kept fd (some s) = IsOpen fd s

-- Where the loop has come to, the socket is open.
abbrev pub Running : ℕ → Outcome → Type 0
Running fd (waiting s) = IsOpen fd s
Running fd (ended status s) = IsOpen fd s
Running fd overflowed = Unit

module _ (sendto : Sendto) where
  pub closings-send_message_protocol :
      (socket : Option ℕ) (msg : Message) (addr : Option SockAddr) (addr_len : ℕ) (log : Log)
      → closings (send_message_protocol sendto socket msg addr addr_len log).1 ≡ closings log
  unfolding send_message_protocol closings
  closings-send_message_protocol none msg addr addr_len log = refl
  closings-send_message_protocol (some fd) msg none addr_len log = refl
  closings-send_message_protocol (some fd) msg (some addr) addr_len log = ground arith

  -- A message is answered, or changes nothing.
  react-keeps :
      (P : Session → Type 0) (now : ℕ) (s : Session) (type : MessageType)
      → P s
      → P (client_send_alive_response sendto now s).1
      → P (react sendto now s type)
  unfolding react
  react-keeps P now s msg_alive p q = q
  react-keeps P now s msg_list p q = p
  react-keeps P now s msg_2all p q = p
  react-keeps P now s msg_2one p q = p
  react-keeps P now s msg_stop p q = p
  react-keeps P now s msg_alive_response p q = p
  react-keeps P now s msg_error p q = p
  react-keeps P now s msg_client_list p q = p
  react-keeps P now s msg_broadcast p q = p
  react-keeps P now s msg_private p q = p
  react-keeps P now s (out_of_range n) p q = p

  -- The receiving thread closes nothing.
  record HasClosed (fds : List ℕ) (s : Session) : Type 0 where
    same : closings s.log ≡ fds

  next_round-HasClosed :
      {fds : List ℕ} (s : Session) → HasClosed fds s → HasClosed fds (next_round s)
  unfolding next_round
  next_round-HasClosed s h = record { same = h.same }

  receive_datagram-HasClosed :
      {fds : List ℕ} (now bytes : ℕ) (msg : Message) (s : Session)
      → HasClosed fds s
      → HasClosed fds (receive_datagram sendto now bytes msg s)
  unfolding receive_datagram handle_received_message client_send_alive_response send_to_server
  receive_datagram-HasClosed {fds} now bytes msg s h = if-keeps (HasClosed fds) _ _ _ h (
      if-keeps (HasClosed fds) _ _ _ (next_round-HasClosed s h) (
        if-keeps (HasClosed fds) _ _ _ (next_round-HasClosed s h)
          (next_round-HasClosed _ (react-keeps (HasClosed fds) now s msg.type h answered))))
    where
      answered : HasClosed fds (client_send_alive_response sendto now s).1
      answered = record {
        same =
            closings-send_message_protocol s.server_socket _ (some s.server_addr) sizeof_sockaddr
              s.log
            ∙ h.same;
      }

  pub closings-receive_late :
      (held : Option ℕ) (late : List (Bool × Datagram)) (s : Session)
      → closings (receive_late sendto held late s).log ≡ closings s.log
  unfolding receive_late
  closings-receive_late held [] s = refl
  closings-receive_late held ((read_before, (now, bytes, msg)) ∷ rest) s =
      closings-receive_late held rest _
      ∙ (receive_datagram-HasClosed now bytes msg _ (record { same = refl })).same

  module _ {fd : ℕ} where
    send-IsOpen :
        (s : Session) (msg : Message) → IsOpen fd s → IsOpen fd (send_to_server sendto s msg).1
    unfolding send_to_server
    send-IsOpen s msg o = record {
      socket = o.socket;
      connected = o.connected;
      quiet =
          closings-send_message_protocol s.server_socket msg (some s.server_addr) sizeof_sockaddr
            s.log
          ∙ o.quiet;
    }

    stop-IsOpen : (s : Session) → IsOpen fd s → IsOpen fd (client_stop s)
    unfolding client_stop
    stop-IsOpen s o = record { socket = o.socket; connected = o.connected; quiet = o.quiet }

    type_2all-IsOpen :
        (now : ℕ) (s : Session) (rest : List ℕ)
        → IsOpen fd s
        → IsOpen fd (type_2all sendto now s rest)
    unfolding type_2all client_send_2all
    type_2all-IsOpen now s rest o = elim (Option-cases (strtok none rest).0) [
      | inl e ↦ rw (e, type_2all) o
      | inr (m, e) ↦
          rw (e, type_2all)
            (if-keeps (IsOpen fd) _ _ _ o
              (if-keeps (λ (r : ℤ × Session). IsOpen fd r.1) _ _ _ o (send-IsOpen s _ o)))
    ]

    send_typed-IsOpen :
        (now : ℕ) (s : Session) (recipient message : Option (List ℕ))
        → IsOpen fd s
        → IsOpen fd (send_typed sendto now s recipient message)
    unfolding send_typed client_send_2one
    send_typed-IsOpen now s none message o = o
    send_typed-IsOpen now s (some r) none o = o
    send_typed-IsOpen now s (some r) (some m) o =
        if-keeps (IsOpen fd) _ _ _ o
          (if-keeps (λ (r : ℤ × Session). IsOpen fd r.1) _ _ _ o (send-IsOpen s _ o))

    run_command-IsOpen :
        (now : ℕ) (s : Session) (command rest : List ℕ)
        → IsOpen fd s
        → IsOpen fd (run_command sendto now s command rest)
    unfolding run_command type_2one client_send_list_request client_send_stop
    run_command-IsOpen now s command rest o =
        if-keeps (IsOpen fd) (str_eq command (codes "help")) _ _ o (
          if-keeps (IsOpen fd) (str_eq command (codes "list")) _ _
            (send-IsOpen s (request s.client msg_list now) o)
            (if-keeps (IsOpen fd) (str_eq command (codes "2all")) _ _
              (type_2all-IsOpen now s rest o)
              (if-keeps (IsOpen fd) (str_eq command (codes "2one")) _ _
                (send_typed-IsOpen now s (strtok space rest).0 (strtok none (strtok space rest).1).0
                  o)
                (if-keeps (IsOpen fd)
                  (str_eq command (codes "quit")
                    || str_eq command (codes "exit")
                    || str_eq command (codes "stop"))
                  _ _ (stop-IsOpen _ (send-IsOpen s (request s.client msg_stop now) o)) o))))

    handle_user_input-Kept :
        (now : ℕ) (s : Session) (input : List ℕ)
        → IsOpen fd s
        → Kept fd (handle_user_input sendto now s input)
    unfolding handle_user_input
    handle_user_input-Kept now s input o =
        if-keeps (Kept fd) (leb max_message_size (strlen input)) none
          (if strlen (cstr input) == 0 then some s else result) tt
          (if-keeps (Kept fd) (strlen (cstr input) == 0) (some s) result o result-Kept)
      where
        result : Option Session
        result = elim (strtok space (cstr input)).0 [
          | none ↦ some s
          | some command ↦ some (run_command sendto now s command (strtok space (cstr input)).1)
        ]

        result-Kept : Kept fd result
        result-Kept = elim (Option-cases (strtok space (cstr input)).0) [
          | inl e ↦ rw (e, Kept) o
          | inr (c, e) ↦ rw (e, Kept) (run_command-IsOpen now s c (strtok space (cstr input)).1 o)
        ]

    react-IsOpen :
        (now : ℕ) (s : Session) (type : MessageType)
        → IsOpen fd s
        → IsOpen fd (react sendto now s type)
    unfolding client_send_alive_response
    react-IsOpen now s type o = react-keeps (IsOpen fd) now s type o (send-IsOpen s _ o)

    next_round-IsOpen : (s : Session) → IsOpen fd s → IsOpen fd (next_round s)
    unfolding next_round
    next_round-IsOpen s o = record { socket = o.socket; connected = o.connected; quiet = o.quiet }

    receive_datagram-IsOpen :
        (now bytes : ℕ) (msg : Message) (s : Session)
        → IsOpen fd s
        → IsOpen fd (receive_datagram sendto now bytes msg s)
    unfolding receive_datagram handle_received_message
    receive_datagram-IsOpen now bytes msg s o = if-keeps (IsOpen fd) _ _ _ o (
        if-keeps (IsOpen fd) _ _ _ (next_round-IsOpen s o) (
          if-keeps (IsOpen fd) _ _ _ (next_round-IsOpen s o)
            (next_round-IsOpen _ (react-IsOpen now s msg.type o))))

    receive_stop-IsOpen : (s : Session) → IsOpen fd s → IsOpen fd (receive_stop s)
    unfolding receive_stop client_stop
    receive_stop-IsOpen s o =
        if-keeps (IsOpen fd) _ _ _ o
          (record { socket = o.socket; connected = o.connected; quiet = o.quiet })

    pub client_run_interactive-Running :
        (happenings : List Happening) (s : Session)
        → IsOpen fd s
        → Running fd (client_run_interactive sendto happenings s)
    unfolding client_run_interactive
    client_run_interactive-Running [] s o = o
    client_run_interactive-Running (typed now input ∷ rest) s o =
        elim (Option-cases (handle_user_input sendto now s input)) [
          | inl e ↦ rw (e, client_run_interactive) tt
          | inr (s', e) ↦
              let o' : IsOpen fd s' = subst (Kept fd) e (handle_user_input-Kept now s input o) in
              rw (e, client_run_interactive)
                (if-keeps (Running fd) s'.is_running _ (ended 0 s')
                  (client_run_interactive-Running rest s' o') o')
        ]
    client_run_interactive-Running (input_over ∷ rest) s o = o
    client_run_interactive-Running (signalled ∷ rest) s o =
        client_run_interactive-Running rest _ (stop-IsOpen s o)
    client_run_interactive-Running (interrupted ∷ rest) s o = stop-IsOpen s o
    client_run_interactive-Running (receive_interrupted ∷ rest) s o =
        client_run_interactive-Running rest _ (if-keeps (IsOpen fd) _ _ _ (next_round-IsOpen s o) o)
    client_run_interactive-Running (receive_failed ∷ rest) s o =
        client_run_interactive-Running rest _ (receive_stop-IsOpen s o)
    client_run_interactive-Running (arrived now bytes msg ∷ rest) s o =
        client_run_interactive-Running rest _ (receive_datagram-IsOpen now bytes msg s o)

    pub receive_all-IsOpen :
        (datagrams : List Datagram) (s : Session)
        → IsOpen fd s
        → IsOpen fd (receive_all sendto datagrams s)
    unfolding receive_all
    receive_all-IsOpen [] s o = o
    receive_all-IsOpen ((now, bytes, msg) ∷ rest) s o =
        receive_all-IsOpen rest _ (receive_datagram-IsOpen now bytes msg s o)
