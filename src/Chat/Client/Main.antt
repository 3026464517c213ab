-- ===== src/Chat/Client/Main.antt =====
-- The threads of the client and its `main` (lab11/src/client.c).
-- The interactive thread and the receiving thread each do one thing at a time; what reaches them is
-- one sequence of happenings. Joining the receiving thread is taken to succeed.
use cs_os.Prelude.{
  ℕ, Bool, true, false, not, Option, none, some, List, [], ◌∷◌, ◌==◌, if◌then◌else◌, minus_one,
  eq_ℤ,
}
use cs_os.Chat.Message.{Message, msg_alive, MessageType, sizeof_message, validate_message}
use cs_os.Chat.Protocol.{Sendto}
use cs_os.Chat.Client.{
  Client, Session, client_stop, client_cleanup, client_init, client_connect,
  client_send_alive_response,
}
use cs_os.Chat.Client.Input.{handle_user_input}

-- What happens to a running client, each with the time where the code reads the clock: a line is
-- typed; the input ends or fails; a signal arrives, and `fgets` goes on or is interrupted;
-- `recvfrom` is interrupted, fails, or brings a datagram.
pub data Happening : Type 0 where
  typed : ℕ → List ℕ → Happening
  input_over : Happening
  signalled : Happening
  interrupted : Happening
  receive_interrupted : Happening
  receive_failed : Happening
  arrived : ℕ → (bytes : ℕ) → Message → Happening

-- Where a run stands: still waiting, ended, or in undefined behaviour.
pub data Outcome : Type 0 where
  waiting : Session → Outcome
  ended : (status : ℕ) → Session → Outcome
  overflowed : Outcome

-- The test of the receiving thread's loop, when a round is over.
unfoldable pub next_round : Session → Session
next_round s = record s { receiving = s.is_running }

-- `recvfrom` has failed for good.
unfoldable pub receive_stop : Session → Session
unfolding client_stop
receive_stop s = if not s.receiving then s else record (client_stop s) { receiving = false }

-- A datagram, with the time and the number of its bytes.
abbrev pub Datagram : Type 0
Datagram = ℕ × ℕ × Message

-- What the receiving thread gets while `client_cleanup` runs: before the close of the socket, and
-- between the close and the join, each with whether the thread had read the descriptor for its
-- answer before the close.
pub record Leaving : Type 0 where
  pub before_close : List Datagram
  pub after_close : List (Bool × Datagram)

abbrev with_socket : Option ℕ → Session → Session
with_socket socket s = record s { client = record s.client { server_socket = socket } }

module _ (sendto : Sendto) where
  -- Only MSG_ALIVE is answered; all others are shown to the user.
  unfoldable pub react : ℕ → Session → MessageType → Session
  unfolding client_send_alive_response
  react now s msg_alive = (client_send_alive_response sendto now s).1
  react now s _ = s

  unfoldable pub handle_received_message : ℕ → Session → Message → Session
  unfolding react
  handle_received_message now s msg = react now s msg.type

  -- One round of `client_receive_messages`.
  unfoldable pub receive_datagram : ℕ → ℕ → Message → Session → Session
  unfolding handle_received_message next_round
  receive_datagram now bytes msg s =
      if not s.receiving
      then s
      else if not (bytes == sizeof_message)
      then next_round s
      else if not (validate_message now msg)
      then next_round s
      else next_round (handle_received_message now s msg)

  unfoldable pub receive_all : List Datagram → Session → Session
  unfolding receive_datagram
  receive_all [] s = s
  receive_all ((now, bytes, msg) ∷ rest) s = receive_all rest (receive_datagram now bytes msg s)

  -- `held` is the descriptor before the close.
  unfoldable pub receive_late : (held : Option ℕ) → List (Bool × Datagram) → Session → Session
  unfolding receive_datagram
  receive_late held [] s = s
  receive_late held ((read_before, (now, bytes, msg)) ∷ rest) s =
      let socket = if read_before then held else s.server_socket in
      receive_late held rest
        (with_socket s.server_socket (receive_datagram now bytes msg (with_socket socket s)))

  -- What `main` does once `client_start` has returned.
  unfoldable pub finish : Leaving → Outcome → Outcome
  unfolding client_cleanup receive_all receive_late
  finish leaving (waiting s) = waiting s
  finish leaving (ended status s) = ended status (
      client_cleanup (receive_late s.server_socket leaving.after_close)
        (receive_all leaving.before_close s))
  finish leaving overflowed = overflowed

  -- The loop of `client_run_interactive`, waiting in `fgets`, with the receiving thread beside it.
  -- The status is that of `main`, which returns 0 after the loop.
  unfoldable pub client_run_interactive : List Happening → Session → Outcome
  unfolding handle_user_input receive_datagram receive_stop next_round client_stop
  client_run_interactive [] s = waiting s
  client_run_interactive (typed now input ∷ rest) s = elim (handle_user_input sendto now s input) [
    | none ↦ overflowed
    | some s' ↦
        let go_on = client_run_interactive rest s' in if s'.is_running then go_on else ended 0 s'
  ]
  client_run_interactive (input_over ∷ rest) s = ended 0 s
  client_run_interactive (signalled ∷ rest) s = client_run_interactive rest (client_stop s)
  client_run_interactive (interrupted ∷ rest) s = ended 0 (client_stop s)
  client_run_interactive (receive_interrupted ∷ rest) s =
      client_run_interactive rest (if s.receiving then next_round s else s)
  client_run_interactive (receive_failed ∷ rest) s = client_run_interactive rest (receive_stop s)
  client_run_interactive (arrived now bytes msg ∷ rest) s =
      client_run_interactive rest (receive_datagram now bytes msg s)

  -- `thread` is the new thread, or `none` where it or the pipe cannot be made. `main` does not look
  -- at the result.
  unfoldable pub client_start : Option ℕ → List Happening → Session → Outcome
  unfolding client_run_interactive
  client_start thread happenings s = if not s.is_connected then ended 0 s else elim thread [
    | none ↦ ended 0 s
    | some t ↦
        client_run_interactive happenings
          (record s { client = record s.client { receive_thread = t }; receiving = true })
  ]

  -- `main` once `client_init` has succeeded.
  unfoldable pub client_session :
      (List ℕ → Option ℕ)
      → (socket : Option ℕ) → ℕ
      → (thread : Option ℕ) → List Happening
      → Leaving
      → Session
      → Outcome
  unfolding client_connect client_start client_cleanup finish
  client_session inet_pton socket now thread happenings leaving s =
      let (connected, s') = client_connect sendto inet_pton socket now s in
      if eq_ℤ connected minus_one
      then ended 3 (client_cleanup (λ t. t) s')
      else finish leaving (client_start thread happenings s')

  -- `main` with three arguments, the third read as a number. `memory` is what stands in the
  -- variable `client`; the results of system calls are arguments.
  unfoldable pub client_main :
      (List ℕ → Option ℕ)
      → Client
      → (client_id server_ip : List ℕ) → (server_port : ℕ) → (locks_ok : Bool) → (socket : Option ℕ)
      → ℕ
      → (thread : Option ℕ) → List Happening
      → Leaving
      → Outcome
  unfolding client_init client_session
  client_main inet_pton memory client_id server_ip server_port locks_ok socket now thread happenings
        leaving =
      let (made, c) = client_init memory client_id server_ip server_port locks_ok in
      let s : Session = record { client = c; receiving = false; log = [] } in
      if eq_ℤ made minus_one
      then ended 2 s
      else client_session inet_pton socket now thread happenings leaving s
