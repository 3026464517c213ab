-- ===== src/Tcp/Client/Main.antt =====
-- The threads of the client and its `main` (lab10/src/client.c).
-- The interactive thread and the receiving thread each do one thing at a time; what reaches them is
-- one sequence of happenings. Joining the receiving thread is taken to succeed.
use cs_os.Prelude.{
  ℕ, zero, suc, Bool, true, false, not, Option, none, some, List, [], ◌∷◌, if◌then◌else◌, ℤ, pos,
  negsuc, minus_one, eq_ℤ,
}
use cs_os.Chat.Message.{Message}
use cs_os.Tcp.Server.{Network, Log, opened}
use cs_os.Tcp.Client.{
  Client, Session, client_stop, client_cleanup, client_init, client_connect,
  handle_received_message,
}
use cs_os.Tcp.Client.Input.{handle_user_input}

-- What happens to a running client, each with the time where the code reads the clock: a line is
-- typed; the input ends or fails; a signal arrives, and `fgets` goes on or is interrupted;
-- `receive_message_protocol` returns.
pub data Happening : Type 0 where
  typed : ℕ → List ℕ → Happening
  input_over : Happening
  signalled : Happening
  interrupted : Happening
  received : ℕ → ℤ → Message → Happening

-- A session, and whether the receiving thread is in its loop.
pub record Run : Type 0 where
  pub session : Session
  pub receiving : Bool

-- Where a run stands: still waiting, ended, or in undefined behaviour.
pub data Outcome : Type 0 where
  waiting : Session → Outcome
  ended : (status : ℕ) → Session → Outcome
  overflowed : Outcome

-- What `receive_message_protocol` returns, with the time.
abbrev pub Received : Type 0
Received = ℕ × ℤ × Message

-- What the receiving thread gets while `client_cleanup` runs, where it is not over yet: before the
-- close of the socket, and between the close and the join, each with whether the thread had read
-- the descriptor for its answer before the close.
pub record Leaving : Type 0 where
  pub before_close : List Received
  pub after_close : List (Bool × Received)

abbrev pub with_socket : Option ℕ → Session → Session
with_socket socket s = record s { client = record s.client { server_socket = socket } }

module _ (net : Network) where
  -- One pass of the loop of `client_receive_messages`, and the test of the next one.
  unfoldable pub receive_round : ℕ → ℤ → Message → Session → Run
  unfolding client_stop handle_received_message
  receive_round now (negsuc n) msg s = record { session = client_stop s; receiving = false }
  receive_round now (pos zero) msg s = record { session = client_stop s; receiving = false }
  receive_round now (pos (suc n)) msg s =
      let s' = handle_received_message net now s msg in
      record { session = s'; receiving = s'.is_running }

  unfoldable pub receive_all : List Received → Session → Session
  unfolding receive_round
  receive_all [] s = s
  receive_all ((now, result, msg) ∷ rest) s =
      receive_all rest (receive_round now result msg s).session

  -- `held` is the descriptor before the close.
  unfoldable pub receive_late : (held : Option ℕ) → List (Bool × Received) → Session → Session
  unfolding receive_round
  receive_late held [] s = s
  receive_late held ((read_before, (now, result, msg)) ∷ rest) s =
      let socket = if read_before then held else s.server_socket in
      receive_late held rest
        (with_socket s.server_socket (receive_round now result msg (with_socket socket s)).session)

  -- What `main` does once `client_start` has returned.
  unfoldable pub finish : Leaving → Option (ℕ × ℕ) × Outcome → Outcome
  unfolding client_cleanup receive_all receive_late
  finish leaving (signal_pipe, waiting s) = waiting s
  finish leaving (signal_pipe, ended status s) = ended status (
      client_cleanup signal_pipe (receive_late s.server_socket leaving.after_close)
        (receive_all leaving.before_close s))
  finish leaving (signal_pipe, overflowed) = overflowed

  -- The loop of `client_run_interactive`, waiting in `fgets`, with the receiving thread beside it.
  -- The status is that of `main`, which returns 0 after the loop.
  unfoldable pub client_run_interactive : List Happening → Run → Outcome
  unfolding handle_user_input receive_round client_stop
  client_run_interactive [] r = waiting r.session
  client_run_interactive (typed now input ∷ rest) r =
      elim (handle_user_input net now r.session input) [
        | none ↦ overflowed
        | some s ↦
            let go_on = client_run_interactive rest (record r { session = s }) in
            if s.is_running then go_on else ended 0 s
      ]
  client_run_interactive (input_over ∷ rest) r = ended 0 r.session
  client_run_interactive (signalled ∷ rest) r =
      client_run_interactive rest (record r { session = client_stop r.session })
  client_run_interactive (interrupted ∷ rest) r = ended 0 (client_stop r.session)
  client_run_interactive (received now result msg ∷ rest) r =
      client_run_interactive rest
        (if r.receiving then receive_round now result msg r.session else r)

  -- `pipe` makes two descriptors, or fails; `thread` is the new thread, or `none` where it cannot
  -- be made or `fcntl` fails. `main` does not look at the result; what is returned here is what
  -- stands in `signal_pipe`.
  unfoldable pub client_start :
      (pipe : Log → Option (ℕ × ℕ)) → Option ℕ → List Happening → Session → Option (ℕ × ℕ) × Outcome
  unfolding client_run_interactive
  client_start pipe thread happenings s =
      if not s.is_connected then (none, ended 0 s) else elim (pipe s.log) [
        | none ↦ (none, ended 0 s)
        | some (a, b) ↦
            let s' = record s { log = opened b ∷ opened a ∷ s.log } in
            (
              some (a, b),
              elim thread [
                | none ↦ ended 0 s'
                | some t ↦
                    let s'' = record s' { client = record s'.client { receive_thread = t } } in
                    let run =
                      client_run_interactive happenings
                        (record { session = s''; receiving = true }) in
                    if s.is_running then run else ended 0 s''
              ],
            )
      ]

  -- `main` once `client_init` has succeeded.
  unfoldable pub client_session :
      (List ℕ → Option ℕ)
      → (socket : Option ℕ) → (connected : Bool) → ℕ
      → (pipe : Log → Option (ℕ × ℕ)) → (thread : Option ℕ) → List Happening
      → Leaving
      → Session
      → Outcome
  unfolding client_connect client_start client_cleanup finish
  client_session inet_pton socket connected now pipe thread happenings leaving s =
      let (result, s') = client_connect net inet_pton socket connected now s in
      if eq_ℤ result minus_one
      then ended 3 (client_cleanup none (λ t. t) s')
      else finish leaving (client_start pipe thread happenings s')

  -- `main` with three arguments, the third read as a number. `memory` is what stands in the
  -- variable `client`; the results of system calls are arguments.
  unfoldable pub client_main :
      (List ℕ → Option ℕ)
      → Client
      → (client_id server_ip : List ℕ) → (server_port : ℕ) → (locks_ok : Bool) → (socket : Option ℕ)
      → (connected : Bool) → ℕ
      → (pipe : Log → Option (ℕ × ℕ)) → (thread : Option ℕ) → List Happening
      → Leaving
      → Outcome
  unfolding client_init client_session
  client_main inet_pton memory client_id server_ip server_port locks_ok socket connected now pipe
        thread happenings leaving =
      let (made, c) = client_init memory client_id server_ip server_port locks_ok in
      let s : Session = record { client = c; log = [] } in
      if eq_ℤ made minus_one
      then ended 2 s
      else client_session inet_pton socket connected now pipe thread happenings leaving s
