-- ===== src/MessageQueues/Tests.antt =====
-- Runs of the chat over message queues of lab6/src on small inputs.
use cs_os.Prelude.{
  ℕ, zero, suc, ◌+◌, ◌≡◌, refl, true, false, Option, none, some, List, [], ◌∷◌, ◌++◌, take, drop,
  replicate, length-replicate, length, arith, pos, negsuc, if◌then◌else◌, ◌==◌,
}
use cs_os.Chat.CString.{codes, str_eq}
use cs_os.MessageQueues.{is_space, print_int, scan_message}
use cs_os.MessageQueues.Laws.{IsText, IsLine}
use cs_os.MessageQueues.Systemv.{
  Server, fresh_server, going, overflowed, serve, serve_all, send_line,
}
use cs_os.MessageQueues.Systemv.Delivery.{
  copies, active_only, send_line-text, send_line-serve, send_line-overflows,
}
use cs_os.MessageQueues.Systemv.Table.{StillHas, serve_all-StillHas}
use cs_os.MessageQueues.Posix
use cs_os.MessageQueues.Posix.{is_open, Queues}
use cs_os.MessageQueues.Posix.Owners.{EndsClosed}
use cs_os.MessageQueues.Posix.Rounds.{serve_all-EndsClosed}

printed : print_int (negsuc 122) ≡ codes "-123"
unfolding print_int
printed = refl

scanned : scan_message (codes " -12  a b") ≡ some (negsuc 11, codes "a b")
unfolding scan_message
scanned = refl

no_text : scan_message (codes "3 ") ≡ none
unfolding scan_message
no_text = refl

-- The queue of a path is told by its length.
abbrev queue_of : List ℕ → Option ℕ
queue_of path = some (length path)

-- Two clients have registered.
abbrev two_clients : Server
two_clients = record {
  clients =
      record { active = true; qid = 6 }
      ∷ record { active = true; qid = 7 }
      ∷ replicate 8 (record { active = false; qid = 0 });
  log =
      record { queue = 7; msg_type = 2; message = codes "ID 1" }
      ∷ record { queue = 6; msg_type = 2; message = codes "ID 0" }
      ∷ [];
}

two_clients_lem :
    serve_all queue_of fresh_server
      ((codes "INIT /tmp/a" ++ 0 ∷ []) ∷ (codes "INIT /tmp/bc" ++ 0 ∷ []) ∷ [])
    ≡ going two_clients
unfolding serve_all fresh_server
two_clients_lem = refl

serve_all-StillHas_example :
    StillHas 1
      (record { active = true; qid = 7 })
      (serve_all queue_of two_clients
        ((codes "INIT /tmp/def" ++ 0 ∷ []) ∷ (codes "MSG 1 bye" ++ 0 ∷ []) ∷ []))
serve_all-StillHas_example =
    serve_all-StillHas 1 (record { active = true; qid = 7 }) refl queue_of
      ((codes "INIT /tmp/def" ++ 0 ∷ []) ∷ (codes "MSG 1 bye" ++ 0 ∷ []) ∷ []) two_clients refl

hi-IsText : IsText (codes "hi all")
unfolding is_space
hi-IsText = (refl, omega arith)

hi_not_exit : str_eq (codes "hi all") (codes "exit") ≡ false
unfolding str_eq
hi_not_exit = refl

send_line-serve_example :
    (bytes : List ℕ) × (send_line (pos 1) (codes "hi all") ≡ some bytes)
    × (serve queue_of two_clients bytes
        ≡ going (record two_clients {
          log =
              copies
                (codes "From 1: hi all")
                (active_only (take 1 two_clients.clients ++ drop 2 two_clients.clients))
                two_clients.log;
        }))
send_line-serve_example =
    send_line-serve queue_of two_clients 1 (codes "hi all") (omega arith) hi-IsText hi_not_exit
      (omega arith)

-- "From 1: hi all" to the other client.
heard_by_one :
    copies
      (codes "From 1: hi all")
      (active_only (take 1 two_clients.clients ++ drop 2 two_clients.clients))
      []
    ≡ record { queue = 6; msg_type = 1; message = codes "From 1: hi all" } ∷ []
heard_by_one = refl

many_IsLine : (n : ℕ) → IsLine (replicate n 97)
many_IsLine zero = tt
many_IsLine (suc n) = (λ e. omega (arith, e), λ e. omega (arith, e), many_IsLine n)

many_IsText : (n : ℕ) → IsText (replicate (suc n) 97)
unfolding is_space
many_IsText n = (refl, many_IsLine (suc n))

many_not_exit : (n : ℕ) → str_eq (replicate (suc n) 97) (codes "exit") ≡ false
unfolding str_eq
many_not_exit n = ground arith

many_sent :
    send_line (pos 0) (replicate 1016 97)
    ≡ some (codes "MSG " ++ ((48 + 0) ∷ 32 ∷ replicate 1016 97 ++ 0 ∷ []))
many_sent =
    send_line-text 0 (replicate 1016 97) (omega arith)
      (omega (arith, length-replicate {0} {A = ℕ} 1016 97)) (many_not_exit 1015)

send_line-overflows_example :
    serve queue_of two_clients (codes "MSG " ++ ((48 + 0) ∷ 32 ∷ replicate 1016 97 ++ 0 ∷ []))
    ≡ overflowed
send_line-overflows_example =
    send_line-overflows queue_of two_clients 0 (replicate 1016 97) (omega arith) (many_IsText 1015)
      (many_not_exit 1015) _ (omega (arith, length-replicate {0} {A = ℕ} 1016 97)) many_sent

-- Two clients can be opened, and only the first can be told its number.
abbrev second : Posix.Log → Option ℕ
second log = if is_open 6 log then none else some 6

abbrev opened_next : Posix.Log → Option ℕ
opened_next log = if is_open 5 log then second log else some 5

opened_next-fresh : (log : Posix.Log) (q : ℕ) → opened_next log ≡ some q → is_open q log ≡ false
opened_next-fresh log q e = ground arith

abbrev os : Queues
os = record {
  mq_open = λ log name. opened_next log;
  mq_send = λ log q text. q == 5;
  fresh = λ log name q e. opened_next-fresh log q e;
}

abbrev whole_day : List (Option (List ℕ))
whole_day =
    some (codes "INIT /a")
    ∷ some (codes "INIT /b")
    ∷ some (codes "MSG 1 hi")
    ∷ some (codes "EXIT")
    ∷ []

whole_day_lem :
    Posix.serve_all os (Posix.fresh_server 3) whole_day
    ≡ Posix.stopped (record {
      server_q = 3;
      clients =
          record { active = true; mqd = 5; name = codes "/a" }
          ∷ record { active = false; mqd = 6; name = codes "/b" }
          ∷ replicate 8 (record { active = false; mqd = 0; name = [] });
      log =
          Posix.closed 3
          ∷ Posix.closed 5
          ∷ Posix.sent 5 (codes "From 1: hi") true
          ∷ Posix.closed 6
          ∷ Posix.sent 6 (codes "ID 1") false
          ∷ Posix.opened 6
          ∷ Posix.sent 5 (codes "ID 0") true
          ∷ Posix.opened 5
          ∷ Posix.opened 3
          ∷ [];
    })
unfolding Posix.serve_all Posix.fresh_server is_open
whole_day_lem = refl

serve_all-EndsClosed_example : EndsClosed (Posix.serve_all os (Posix.fresh_server 3) whole_day)
serve_all-EndsClosed_example = serve_all-EndsClosed os 3 whole_day
