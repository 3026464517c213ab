-- ===== src/Tcp/Tests.antt =====
-- Runs of the TCP chat (lab10/src) on small inputs.
mod Server
mod Client
use cs_os.Prelude.{
  ℕ, zero, suc, ◌+◌, ◌≤◌, ◌≡◌, ◌≢◌, refl, ap, ◌⊎◌, Bool, true, false, Option, none, some, List, [],
  ◌∷◌, ◌++◌, arith, length, take, drop, replicate, length-replicate, get_or, get_elem?, pos,
  pos_part, if◌then◌else◌, minus_one, ◌==◌,
}
use cs_os.Chat.CString.{codes, zeros}
use cs_os.Chat.Protocol.{SockAddr}
use cs_os.Chat.Message.{
  Message, MessageType, msg_list, msg_2all, msg_private, type_code, create_message, fill,
  sizeof_message, validate_message, max_client_name, validate_client_id,
}
use cs_os.Tcp.Stream.{
  SendAnswer, RecvAnswer, send_loop, send_message_protocol, receive_message_protocol,
}
use cs_os.Tcp.Stream.Laws.{
  IsWhole, IsPart, progress, send_message_protocol-outcome, send_message_protocol-returns,
}
use cs_os.Tcp.Stream.Receive.{
  received, received_message, arrived, ending, receive_message_protocol-received,
}
use cs_os.Tcp.Stream.RoundTrip.{receive_message_protocol-send_message_protocol}

abbrev pub hello : Message
hello = record {
  type = msg_2all;
  sender_id = codes "ann" ++ zeros 97;
  recipient_id = zeros 100;
  content = codes "good day" ++ zeros 1016;
  timestamp = pos 4000;
  content_length = pos 8;
}

-- A layout: the fields after one another, a number in one byte, and padding.
abbrev pub flat : Message → List ℕ
flat m =
    type_code m.type
    ∷ pos_part m.timestamp
    ∷ pos_part m.content_length
    ∷ (m.sender_id ++ m.recipient_id ++ m.content ++ zeros 21)

abbrev type_of : ℕ → MessageType
type_of zero = msg_list
type_of (suc _) = msg_2all

abbrev unflat : List ℕ → Message
unflat bytes = record {
  type = type_of (get_or bytes 0 0);
  sender_id = take 100 (drop 3 bytes);
  recipient_id = take 100 (drop 103 bytes);
  content = take 1024 (drop 203 bytes);
  timestamp = pos (get_or bytes 1 0);
  content_length = pos (get_or bytes 2 0);
}

flat_size : length (flat hello) ≡ sizeof_message
unfolding type_code
flat_size = refl

flat_back : unflat (flat hello) ≡ hello
unfolding type_code
flat_back = refl

-- Two pieces with an interruption between them.
abbrev sends : List SendAnswer
sends = SendAnswer.took 1000 ∷ SendAnswer.interrupted ∷ SendAnswer.took 248 ∷ []

abbrev pieces : List RecvAnswer
pieces =
    RecvAnswer.got (take 700 (flat hello))
    ∷ RecvAnswer.interrupted
    ∷ RecvAnswer.got (drop 700 (flat hello))
    ∷ []

send_message_protocol-outcome_example :
    IsWhole (flat hello) (send_message_protocol flat (some 5) hello sends)
    ⊎ IsPart (flat hello) (send_message_protocol flat (some 5) hello sends)
send_message_protocol-outcome_example =
    send_message_protocol-outcome flat 5 hello sends flat_size
      (λ l. omega arith, (λ l. omega arith, tt))

pub progress-replicate : (n : ℕ) → progress (replicate n (SendAnswer.took 1)) ≡ n
progress-replicate zero = refl
progress-replicate (suc n) = omega (arith, progress-replicate n)

pub byte_by_byte : sizeof_message ≤ progress (replicate 1248 (SendAnswer.took 1))
byte_by_byte = omega (arith, progress-replicate 1248)

send_message_protocol-returns_example :
    (send_message_protocol flat (some 5) hello (replicate 1248 (SendAnswer.took 1))).result ≢ none
send_message_protocol-returns_example =
    send_message_protocol-returns flat 5 hello (replicate 1248 (SendAnswer.took 1)) byte_by_byte

receive_message_protocol-received_example :
    receive_message_protocol unflat 4000 (some 6) hello pieces
    ≡ received_message unflat 4000 (received (arrived pieces) (ending pieces))
receive_message_protocol-received_example =
    receive_message_protocol-received unflat 4000 6 hello pieces
      (λ l. omega arith, (λ l. omega arith, tt))

all_sent : (send_message_protocol flat (some 5) hello sends).result ≡ some (pos sizeof_message)
unfolding send_message_protocol
all_sent = refl

on_the_wire : arrived pieces ≡ (send_message_protocol flat (some 5) hello sends).wire ++ []
unfolding send_message_protocol type_code
on_the_wire = refl

receive_message_protocol-send_message_protocol_example :
    receive_message_protocol unflat 4000 (some 6) hello pieces
    ≡ some (if validate_message 4000 hello then pos sizeof_message else minus_one, hello)
receive_message_protocol-send_message_protocol_example =
    receive_message_protocol-send_message_protocol flat unflat 4000 5 6 hello hello sends pieces []
      flat_size flat_back (λ l. omega arith, (λ l. omega arith, tt))
      (λ l. omega arith, (λ l. omega arith, tt)) all_sent on_the_wire
