-- ===== src/MessageQueues/Posix.antt =====
-- lab6/src/server_posix.c: the server's table of clients and its answer to one message, over the
-- system's queues as a parameter. Output is left out.
pub mod Owners
pub mod Rounds
use cs_os.Prelude.{
  ℕ, ◌+◌, ◌≡◌, Bool, true, false, ◌&&◌, not, Option, none, some, List, [], ◌∷◌, ◌++◌, ◌==◌,
  if◌then◌else◌, take, replicate, ℤ, pos, eq_ℤ, find_index, modify,
}
use cs_os.Chat.CString.{codes, cstr, str_eq}
use cs_os.MessageQueues.{msg_size, max_clients, print_int, scan_message, scan_path, after_prefix}

-- A queue is opened, is sent a text with this result, or is closed.
pub data Event : Type 0 where
  opened : ℕ → Event
  sent : ℕ → List ℕ → Bool → Event
  closed : ℕ → Event

-- Latest first.
abbrev pub Log : Type 0
Log = List Event

unfoldable pub is_open : ℕ → Log → Bool
is_open q [] = false
is_open q (opened a ∷ log) = let rest = is_open q log in if q == a then true else rest
is_open q (closed a ∷ log) = let rest = is_open q log in if q == a then false else rest
is_open q (sent a text ok ∷ log) = is_open q log

-- The system. What its calls answer may depend on all that was done before; a descriptor that it
-- gives is not open.
pub record Queues : Type 0 where
  pub mq_open : Log → List ℕ → Option ℕ
  pub mq_send : Log → ℕ → List ℕ → Bool
  pub fresh :
      (log : Log) (name : List ℕ) (q : ℕ) → mq_open log name ≡ some q → is_open q log ≡ false

-- `struct client`; the name as its text.
pub record Client : Type 0 where
  pub active : Bool
  pub mqd : ℕ
  pub name : List ℕ

pub record Server : Type 0 where
  pub server_q : ℕ
  pub clients : List Client
  pub log : Log

-- After the server's own queue was opened.
unfoldable pub fresh_server : ℕ → Server
fresh_server q = record {
  server_q = q;
  clients = replicate max_clients (record { active = false; mqd = 0; name = [] });
  log = opened q ∷ [];
}

-- How the round for a message ends: with the next round, with the end of `main`, or in undefined
-- behaviour.
pub data Round : Type 0 where
  going : Server → Round
  stopped : Server → Round
  undefined : Round

is_inactive : Client → Bool
is_inactive c = not c.active

unfoldable pub leave : Client → Client
leave c = record c { active = false }

-- The calls of `mq_close` behind the loop.
unfoldable pub close_clients : List Client → Log → Log
close_clients [] log = log
close_clients (c ∷ cs) log = close_clients cs (if c.active then closed c.mqd ∷ log else log)

unfoldable pub cleanup : Server → Server
unfolding close_clients
cleanup s = record s { log = closed s.server_q ∷ close_clients s.clients s.log }

module _ (os : Queues) where
  -- A client whose queue is open is entered and told its number; where it cannot be told it goes.
  unfoldable pub enter : Server → ℕ → ℕ → List ℕ → Server
  unfolding print_int leave
  enter s slot cq name =
      let clients = modify s.clients slot (λ _. record { active = true; mqd = cq; name = name }) in
      let reply = codes "ID " ++ print_int (pos slot) in
      let log : Log = opened cq ∷ s.log in
      if os.mq_send log cq reply
      then record s { clients = clients; log = sent cq reply true ∷ log }
      else record s {
        clients = modify clients slot leave;
        log = closed cq ∷ sent cq reply false ∷ log;
      }

  -- An INIT message, behind its first word. Without a name the code uses an array that was never
  -- written.
  unfoldable pub init : Server → List ℕ → Round
  unfolding scan_path find_index is_inactive enter
  init s text = elim (find_index is_inactive s.clients 0) [
    | none ↦ going s
    | some slot ↦ elim (scan_path text) [
      | none ↦ undefined
      | some name ↦ elim (os.mq_open s.log name) [
        | none ↦ going s
        | some cq ↦ going (enter s slot cq name)
      ]
    ]
  ]

  -- The loop over the clients from the index `i` on.
  unfoldable pub send_others : ℕ → ℤ → List ℕ → List Client → Log → Log
  send_others i sender out [] log = log
  send_others i sender out (c ∷ cs) log = send_others (i + 1) sender out cs (
      if c.active && not (eq_ℤ (pos i) sender)
      then sent c.mqd out (os.mq_send log c.mqd out) ∷ log
      else log)

  -- A MSG message, behind its first word. `snprintf` cuts to the array; `sscanf` has more room for
  -- the text than a message can fill.
  unfoldable pub message : Server → List ℕ → Server
  unfolding scan_message send_others print_int
  message s text = elim (scan_message text) [
    | none ↦ s
    | some (sender, text) ↦ record s {
      log =
          send_others 0 sender
            (take (msg_size + 17) (codes "From " ++ print_int sender ++ codes ": " ++ text))
            s.clients s.log;
    }
  ]

  -- One round of the loop for a message of these bytes, at most as many as `mq_receive` is asked
  -- for, and the cleanup after the last one.
  unfoldable pub serve : Server → List ℕ → Round
  unfolding after_prefix init message str_eq cleanup cstr
  serve s bytes = elim (after_prefix (codes "INIT ") (cstr bytes)) [
    | some rest ↦ init s rest
    | none ↦ elim (after_prefix (codes "MSG ") (cstr bytes)) [
      | some rest ↦ going (message s rest)
      | none ↦ if str_eq (cstr bytes) (codes "EXIT") then stopped (cleanup s) else going s
    ]
  ]

  -- The rounds for these messages, until `mq_receive` fails.
  unfoldable pub serve_all : Server → List (Option (List ℕ)) → Round
  unfolding serve cleanup
  serve_all s [] = going s
  serve_all s (none ∷ more) = stopped (cleanup s)
  serve_all s (some bytes ∷ more) = elim (serve s bytes) [
    | going t ↦ serve_all t more
    | stopped t ↦ stopped t
    | undefined ↦ undefined
  ]
