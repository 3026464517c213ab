-- ===== src/MessageQueues/Systemv.antt =====
-- lab6/src/server_systemv.c and client_systemv.c: the server's table of clients and its answer to
-- one message, and what a client sends for a line. Where a write leaves its array the result is
-- `overflowed`. The queue that a path leads to is a parameter. Output is left out.
pub mod Delivery
pub mod Table
use cs_os.Prelude.{
  ℕ, ◌+◌, Bool, true, false, ◌&&◌, not, Option, none, some, List, [], ◌∷◌, ◌++◌, ltb, leb,
  if◌then◌else◌, length, replicate, ℤ, pos, eq_ℤ, find_index, modify,
}
use cs_os.Chat.CString.{codes, cstr, strlen, str_eq}
use cs_os.MessageQueues.{msg_size, max_clients, print_int, scan_message, scan_path, after_prefix}

-- `struct client`
pub record Client : Type 0 where
  pub active : Bool
  pub qid : ℕ

-- A call of `msgsnd`: the queue, the type and the text, whose 0 is sent as well.
pub record Sent : Type 0 where
  pub queue : ℕ
  pub msg_type : ℕ
  pub message : List ℕ

-- The table, and the calls of `msgsnd`, latest first. A failure of one is only printed.
pub record Server : Type 0 where
  pub clients : List Client
  pub log : List Sent

-- `struct client clients[MAX_CLIENTS] = {0};`
unfoldable pub fresh_server : Server
fresh_server = record {
  clients = replicate max_clients (record { active = false; qid = 0 });
  log = [];
}

-- How the round for a message ends: with the next round, by `break`, or in undefined behaviour.
pub data Round : Type 0 where
  going : Server → Round
  stopped : Server → Round
  overflowed : Round

is_inactive : Client → Bool
is_inactive c = not c.active

-- An INIT message, behind its first word.
unfoldable pub init : (List ℕ → Option ℕ) → Server → List ℕ → Server
unfolding scan_path find_index is_inactive print_int
init queue_of s text = elim (scan_path text) [
  | none ↦ s
  | some path ↦ elim (find_index is_inactive s.clients 0) [
    | none ↦ s
    | some slot ↦ elim (queue_of path) [
      | none ↦ s
      | some cqid ↦ record {
        clients = modify s.clients slot (λ _. record { active = true; qid = cqid });
        log =
            record { queue = cqid; msg_type = 2; message = codes "ID " ++ print_int (pos slot) }
            ∷ s.log;
      }
    ]
  ]
]

-- The loop over the clients from the index `i` on.
unfoldable pub send_others : ℕ → ℤ → List ℕ → List Client → List Sent → List Sent
send_others i from broadcast [] log = log
send_others i from broadcast (c ∷ cs) log = send_others (i + 1) from broadcast cs (
    if c.active && not (eq_ℤ (pos i) from)
    then record { queue = c.qid; msg_type = 1; message = broadcast } ∷ log
    else log)

-- `snprintf(broadcast, …, "From %d: %s", from, text)`
unfoldable pub broadcast_of : ℤ → List ℕ → List ℕ
unfolding print_int
broadcast_of from text = codes "From " ++ print_int from ++ codes ": " ++ text

-- The text that `snprintf` makes goes to the others. It may write 18 bytes more than `broadcast`
-- has.
unfoldable pub post : Server → ℤ → List ℕ → Round
unfolding send_others
post s from broadcast =
    if ltb (length broadcast) msg_size
    then going (record s { log = send_others 0 from broadcast s.clients s.log })
    else overflowed

-- A MSG message, behind its first word.
unfoldable pub message : Server → List ℕ → Round
unfolding scan_message post broadcast_of
message s text = elim (scan_message text) [
  | none ↦ going s
  | some (from, text) ↦ post s from (broadcast_of from text)
]

unfoldable pub other : Server → List ℕ → Round
unfolding str_eq
other s text = if str_eq text (codes "EXIT") then stopped s else going s

-- The text of a message, by its first word.
unfoldable pub dispatch : (List ℕ → Option ℕ) → Server → List ℕ → Round
unfolding after_prefix init message other
dispatch queue_of s text = elim (after_prefix (codes "INIT ") text) [
  | some rest ↦ going (init queue_of s rest)
  | none ↦ elim (after_prefix (codes "MSG ") text) [
    | some rest ↦ message s rest
    | none ↦ other s text
  ]
]

-- One round of the loop for a message of these bytes, at most as many as `msgrcv` is asked for. The
-- 0 is put behind them, and misses the array where they fill it.
unfoldable pub serve : (List ℕ → Option ℕ) → Server → List ℕ → Round
unfolding dispatch cstr
serve queue_of s bytes =
    if leb msg_size (length bytes) then overflowed else dispatch queue_of s (cstr bytes)

-- The rounds for these messages.
unfoldable pub serve_all : (List ℕ → Option ℕ) → Server → List (List ℕ) → Round
unfolding serve
serve_all queue_of s [] = going s
serve_all queue_of s (bytes ∷ more) = elim (serve queue_of s bytes) [
  | going t ↦ serve_all queue_of t more
  | stopped t ↦ stopped t
  | overflowed ↦ overflowed
]

-- The bytes that a client sends for a line without its newline; `none` where they leave the array.
unfoldable pub send_line : ℤ → List ℕ → Option (List ℕ)
unfolding str_eq print_int
send_line id buf =
    if str_eq buf (codes "exit")
    then some (codes "EXIT" ++ 0 ∷ [])
    else if ltb (length (codes "MSG " ++ print_int id ++ codes " " ++ buf)) msg_size
    then some (codes "MSG " ++ print_int id ++ codes " " ++ buf ++ 0 ∷ [])
    else none
