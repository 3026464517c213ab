-- ===== src/Chat/Client/Closing.antt =====
-- The client's socket from `client_connect` to the end of `main` (lab11/src/client.c): it is closed
-- once.
use cs_os.Prelude.{
  ℕ, ◌%◌, ◌^◌, leb, ap, ◌≡◌, refl, ◌∙◌, ◌⊎◌, inl, inr, Bool, true, false, ◌||◌, not, Option, none,
  some, List, [], ◌∷◌, if-keeps, eq_ℤ, minus_one, pos, Bool-cases, Option-cases, ℤ,
}
use cs_os.Chat.CString.{strlen}
use cs_os.Chat.Message.{max_client_name, validate_client_id, msg_list}
use cs_os.Chat.Protocol.{sizeof_sockaddr, Log, Sendto}
use cs_os.Chat.Client.{
  Client, Session, send_to_server, client_cleanup, fresh_client, client_init, client_connect,
  client_disconnect, client_close, client_join, client_stop, request,
}
use cs_os.Chat.Client.Main.{
  Happening, Outcome, waiting, ended, overflowed, client_run_interactive, client_start, finish,
  client_session, client_main, Leaving, receive_all, receive_late,
}
use cs_os.Chat.Client.Open.{
  closings, IsOpen, Running, closings-send_message_protocol, closings-receive_late,
  receive_all-IsOpen, client_run_interactive-Running,
}

-- Closed once, and nothing else was closed; the pipe is not in the log.
abbrev pub IsShut : ℕ → Log → Type 0
IsShut fd log = closings log ≡ fd ∷ []

-- Status 2 is that of a client which never had a socket.
abbrev pub LeavesShut : ℕ → Outcome → Type 0
LeavesShut fd (waiting s) = IsOpen fd s
LeavesShut fd (ended status s) = ((status ≡ 2) × (s.log ≡ [])) ⊎ IsShut fd s.log
LeavesShut fd overflowed = Unit

-- What the close and the join do to an open socket.
cleanup-IsShut :
    (fd : ℕ) (beside : Session → Session) (s : Session)
    → ((t : Session) → closings (beside t).log ≡ closings t.log)
    → IsOpen fd s
    → IsShut fd (client_cleanup beside s).log
unfolding client_cleanup client_disconnect client_join client_close closings
cleanup-IsShut fd beside s keeps o =
    keeps (client_close s) ∙ rw (o.socket) (rw (o.connected) (ap (λ l. fd ∷ l) o.quiet))

-- What `client_connect` leaves: an open socket, or a closed one and no connection.
abbrev Connected : ℕ → ℤ × Session → Type 0
Connected fd (result, s) =
    ((result ≡ pos 0) × IsOpen fd s)
    ⊎ ((result ≡ minus_one) × (s.is_connected ≡ false) × IsShut fd s.log)

-- `client_init` refuses its arguments, or leaves a client without a connection.
client_init-cases :
    (c : Client) (client_id server_ip : List ℕ) (server_port : ℕ) (locks_ok : Bool)
    → let (made, c') = client_init c client_id server_ip server_port locks_ok in
      (made ≡ minus_one) ⊎ ((made ≡ pos 0) × (c'.is_connected ≡ false))
unfolding client_init fresh_client
client_init-cases c client_id server_ip server_port locks_ok =
    elim (Bool-cases
      (leb max_client_name (strlen client_id) || not (validate_client_id (some client_id)))) [
        | inl bad ↦ rw (bad, client_init) (inl refl)
        | inr good ↦ elim (Bool-cases locks_ok) [
          | inl on ↦ rw (good, on, client_init) (inr (refl, refl))
          | inr off ↦ rw (good, off, client_init) (inl refl)
        ]
      ]

module _ (sendto : Sendto) (inet_pton : List ℕ → Option ℕ) where
  client_connect-Connected :
      (fd now : ℕ) (s : Session)
      → s.is_connected ≡ false
      → s.log ≡ []
      → Connected fd (client_connect sendto inet_pton (some fd) now s)
  unfolding client_connect closings
  client_connect-Connected fd now s c l = elim (Option-cases (inet_pton s.server_ip)) [
    | inl e ↦ rw (e, client_connect) (inr (refl, c, ap (λ log. fd ∷ closings log) l))
    | inr (address, e) ↦ elim (Bool-cases (eq_ℤ (registered address).0 minus_one)) [
      | inl fails ↦ rw (e, fails, client_connect) (inr (refl, c, ap (λ l. fd ∷ l) (quiet address)))
      | inr works ↦
          rw (e, works, client_connect)
            (inl (refl, record { socket = refl; connected = refl; quiet = quiet address }))
    ]
  ]
    where
      opened : ℕ → Client
      opened address = record s.client {
        server_socket = some fd;
        server_addr = record { ip = address; port = s.server_port % 2 ^ 16 };
      }

      registered : ℕ → ℤ × Session
      registered address =
          send_to_server sendto (record s { client = opened address })
            (request (opened address) msg_list now)

      quiet : (address : ℕ) → closings (registered address).1.log ≡ []
      quiet address =
          closings-send_message_protocol sendto (some fd) (request (opened address) msg_list now)
            (some (opened address).server_addr) sizeof_sockaddr s.log
          ∙ ap closings l

  -- A client without a connection that is cleaned up closes nothing more.
  cleanup-log : (s : Session) → s.is_connected ≡ false → (client_cleanup (λ t. t) s).log ≡ s.log
  unfolding client_cleanup client_disconnect client_join client_close client_stop
  cleanup-log s c = elim (Option-cases s.server_socket) [
    | inl e ↦ rw (e, client_close) refl
    | inr (fd, e) ↦ rw (e, c, client_close) refl
  ]

  finish-LeavesShut :
      (fd : ℕ) (leaving : Leaving) (r : Outcome)
      → Running fd r
      → LeavesShut fd (finish sendto leaving r)
  unfolding finish
  finish-LeavesShut fd leaving (waiting s) o = o
  finish-LeavesShut fd leaving (ended status s) o = inr (
      cleanup-IsShut fd (receive_late sendto s.server_socket leaving.after_close)
        (receive_all sendto leaving.before_close s)
        (closings-receive_late sendto s.server_socket leaving.after_close)
        (receive_all-IsOpen sendto leaving.before_close s o))
  finish-LeavesShut fd leaving overflowed o = tt

  started-LeavesShut :
      (fd : ℕ) (thread : Option ℕ) (happenings : List Happening) (leaving : Leaving) (s : Session)
      → IsOpen fd s
      → LeavesShut fd (finish sendto leaving (client_start sendto thread happenings s))
  unfolding client_start
  started-LeavesShut fd none happenings leaving s o =
      finish-LeavesShut fd leaving _ (simp (o.connected) o)
  started-LeavesShut fd (some t) happenings leaving s o = finish-LeavesShut fd leaving _ (
      if-keeps (Running fd) (not s.is_connected) (ended 0 s)
        (client_run_interactive sendto happenings beside) o
        (client_run_interactive-Running sendto happenings beside
          (record { socket = o.socket; connected = o.connected; quiet = o.quiet })))
    where
      beside : Session
      beside = record s { client = record s.client { receive_thread = t }; receiving = true }

  client_session-LeavesShut :
      (fd now : ℕ) (thread : Option ℕ) (happenings : List Happening) (leaving : Leaving)
      → (s : Session) → s.is_connected ≡ false
      → s.log ≡ []
      → LeavesShut fd (client_session sendto inet_pton (some fd) now thread happenings leaving s)
  unfolding client_session
  client_session-LeavesShut fd now thread happenings leaving s c l =
      elim (client_connect-Connected fd now s c l) [
        | inl (works, o) ↦
            rw (works, client_session) (started-LeavesShut fd thread happenings leaving _ o)
        | inr (fails, idle, e) ↦
            rw (fails, client_session)
              (inr (
                ap closings (cleanup-log (client_connect sendto inet_pton (some fd) now s).1 idle)
                ∙ e))
      ]

  -- Whatever its arguments, whatever the system calls answer, and whatever is typed, arrives or
  -- interrupts, where no line is too long for the command's block: a client that has ended has
  -- closed its socket once and, the pipe of its signal handler aside, nothing else, whatever its
  -- receiving thread does beside the close; one that refuses its arguments has done nothing, and
  -- one that still runs has its socket open and unclosed. The join of the receiving thread is taken
  -- to return.
  pub client_main-LeavesShut :
      (memory : Client) (client_id server_ip : List ℕ) (server_port : ℕ) (locks_ok : Bool)
      (fd now : ℕ) (thread : Option ℕ) (happenings : List Happening) (leaving : Leaving)
      → LeavesShut fd (
          client_main sendto inet_pton memory client_id server_ip server_port locks_ok
            (some fd)
            now
            thread
            happenings
            leaving)
  unfolding client_main
  client_main-LeavesShut memory client_id server_ip server_port locks_ok fd now thread happenings
        leaving =
      elim (client_init-cases memory client_id server_ip server_port locks_ok) [
        | inl bad ↦ rw (bad, client_main) (inl (refl, refl))
        | inr (good, idle) ↦
            rw (good, client_main)
              (client_session-LeavesShut fd now thread happenings leaving
                (record {
                  client = (client_init memory client_id server_ip server_port locks_ok).1;
                  receiving = false;
                  log = [];
                })
                idle refl)
      ]
