-- ===== src/Chat/Client/Tests.antt =====
-- Runs of the client at small inputs (lab11/src/client.c), and its theorems applied to them.
use cs_os.Prelude.{
  ℕ, Bool, List, take, ◌≡◌, refl, true, false, none, some, [], ◌∷◌, ◌++◌, arith, ltb, pos,
}
use cs_os.Chat.CString.{codes, cstr, zeros, strlen}
use cs_os.Chat.Message.{
  Message, type_code, msg_2one, msg_alive, create_message, sizeof_message, max_message_size,
  validate_message,
}
use cs_os.Chat.Protocol.{Sendto, Log, sent, closed}
use cs_os.Chat.Client.{
  Client, Session, fresh_client, request, with_content, with_recipient, client_cleanup,
}
use cs_os.Chat.Client.Input.{handle_user_input}
use cs_os.Chat.Client.Main.{
  typed, arrived, client_main, Happening, Datagram, Leaving, Outcome, ended, finish, receive_all,
  receive_late, receive_datagram,
}
use cs_os.Chat.Client.Requests.{validate_message-with_content}
use cs_os.Chat.Client.Sent.{attempts-handle_user_input}
use cs_os.Chat.Server.Delivery.{attempts}
use cs_os.Chat.Client.Closing.{LeavesShut, client_main-LeavesShut}

-- A system on which every datagram goes out.
abbrev os : Sendto
os log fd msg addr = pos sizeof_message

abbrev ann : Client
ann = fresh_client (codes "ann") (codes "127.0.0.1") 2000

abbrev idle : Session
idle = record { client = ann; receiving = false; log = [] }

validate_message-with_content_example :
    validate_message 4100
      (with_content (codes "hi") (with_recipient (codes "bob") (request ann msg_2one 4000)))
    ≡ ltb (strlen (codes "hi")) max_message_size
validate_message-with_content_example =
    validate_message-with_content ann (codes "bob") (codes "hi") 4000 4100 (omega arith)
      (omega arith)

abbrev ready : Session
ready = record idle { client = record ann { server_socket = some 5 } }

attempts-handle_user_input_example :
    (s' : Session) × (msg : Message) × (handle_user_input os 4000 ready
        (codes "2one bob  see you" ++ zeros 10)
      ≡ some s')
    × (attempts s'.log ≡ (5, msg, ready.server_addr) ∷ [])
    × (s'.client ≡ ready.client)
    × (msg.type ≡ msg_2one)
    × (cstr msg.sender_id ≡ take 99 (cstr ready.client_id))
    × (cstr msg.recipient_id ≡ take 99 (codes "bob"))
    × (cstr msg.content ≡ codes " see you")
    × (msg.content_length ≡ pos 8)
    × (msg.timestamp ≡ pos 4000)
unfolding cstr attempts
attempts-handle_user_input_example =
    attempts-handle_user_input os 5 4000 ready (codes "2one bob  see you" ++ zeros 10) (codes "bob")
      (codes " see you") refl refl (omega arith) (λ h. cc) (ground arith) (λ h. cc) (ground arith)

-- The server asks for a sign of life, and then the user leaves; the server asks once more, and the
-- receiving thread has just read the descriptor for its answer when the socket is closed.
abbrev asked : ℕ → Datagram
asked now = (now, sizeof_message, create_message msg_alive (some (codes "SERVER")) none none now)

abbrev quits : List Happening
quits =
    arrived 4001 sizeof_message (create_message msg_alive (some (codes "SERVER")) none none 4001)
    ∷ typed 4002 (codes "quit")
    ∷ []

abbrev asked_late : Leaving
asked_late = record { before_close = []; after_close = (true, asked 4003) ∷ [] }

client_main-LeavesShut_example : LeavesShut 5 (
    client_main os
      (λ _. some 1)
      ann
      (codes "ann")
      (codes "127.0.0.1")
      2000
      true
      (some 5)
      4000
      (some 9)
      quits
      asked_late)
client_main-LeavesShut_example =
    client_main-LeavesShut os (λ _. some 1) ann (codes "ann") (codes "127.0.0.1") 2000 true 5 4000
      (some 9) quits asked_late

-- The descriptors of the calls, latest first, and whether the call was a close.
abbrev calls : Log → List (ℕ × Bool)
calls [] = []
calls (sent fd _ _ _ ∷ log) = (fd, false) ∷ calls log
calls (closed fd ∷ log) = (fd, true) ∷ calls log

abbrev calls_of : Outcome → List (ℕ × Bool)
calls_of (ended status s) = calls s.log
calls_of _ = []

-- The answer goes to the closed descriptor.
sent_after_close :
    calls_of (
      finish os asked_late (
        ended 0 (record ready {
          client = record ready.client { is_connected = true };
          receiving = true;
        })))
    ≡ (5, false) ∷ (5, true) ∷ []
unfolding finish receive_all receive_late receive_datagram client_cleanup validate_message type_code
    create_message strlen
sent_after_close = refl
