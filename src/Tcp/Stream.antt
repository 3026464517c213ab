-- ===== src/Tcp/Stream.antt =====
-- lab10/src/common.c: `send_message_protocol` and `receive_message_protocol`, which move one
-- message over a byte stream. What the calls `send` and `recv` answer is an argument: the list of
-- the answers, one for each call. How a `Message` lies in memory is a parameter. `message` is never
-- NULL.
pub mod Laws
pub mod Receive
pub mod RoundTrip
use cs_os.Prelude.{
  ℕ, zero, suc, ◌+◌, Bool, Option, none, some, List, [], ◌∷◌, ◌++◌, ◌==◌, ltb, if◌then◌else◌,
  length, take, drop, ℤ, pos, minus_one,
}
use cs_os.Chat.Message.{Message, sizeof_message, empty_message, validate_message}

-- `interrupted` is -1 with `EINTR`, `EAGAIN` or `EWOULDBLOCK`; `failed` is -1 with another error.
pub data SendAnswer : Type 0 where
  took : ℕ → SendAnswer
  interrupted : SendAnswer
  failed : SendAnswer

-- No bytes mean that the connection was closed.
pub data RecvAnswer : Type 0 where
  got : List ℕ → RecvAnswer
  interrupted : RecvAnswer
  failed : RecvAnswer

-- What a call of the loop returns, where it does before the answers end, and the bytes that it has
-- put into the stream.
pub record Sending : Type 0 where
  pub result : Option ℤ
  pub wire : List ℕ

-- The loop, from `bytes_sent` on.
unfoldable pub send_loop : List ℕ → ℕ → List SendAnswer → Sending
send_loop buffer bytes_sent [] =
    if ltb bytes_sent sizeof_message
    then record { result = none; wire = [] }
    else record { result = some (pos bytes_sent); wire = [] }
send_loop buffer bytes_sent (failed ∷ answers) =
    if ltb bytes_sent sizeof_message
    then record { result = some minus_one; wire = [] }
    else record { result = some (pos bytes_sent); wire = [] }
send_loop buffer bytes_sent (interrupted ∷ answers) =
    let rest = send_loop buffer bytes_sent answers in
    if ltb bytes_sent sizeof_message
    then rest
    else record { result = some (pos bytes_sent); wire = [] }
send_loop buffer bytes_sent (took zero ∷ answers) =
    if ltb bytes_sent sizeof_message
    then record { result = some (pos 0); wire = [] }
    else record { result = some (pos bytes_sent); wire = [] }
send_loop buffer bytes_sent (took (suc n) ∷ answers) =
    let rest = send_loop buffer (bytes_sent + suc n) answers in
    if ltb bytes_sent sizeof_message
    then record { result = rest.result; wire = take (suc n) (drop bytes_sent buffer) ++ rest.wire }
    else record { result = some (pos bytes_sent); wire = [] }

-- How the loop of `receive_message_protocol` is left: with the whole buffer, or by a `return`.
pub data Receiving : Type 0 where
  blocked : Receiving
  returned : ℤ → Receiving
  complete : List ℕ → Receiving

-- `read` is the front of the buffer, up to `read_bytes`.
unfoldable pub receive_loop : List ℕ → List RecvAnswer → Receiving
receive_loop read [] = if ltb (length read) sizeof_message then blocked else complete read
receive_loop read (failed ∷ answers) =
    if ltb (length read) sizeof_message then returned minus_one else complete read
receive_loop read (interrupted ∷ answers) =
    let rest = receive_loop read answers in
    if ltb (length read) sizeof_message then rest else complete read
receive_loop read (got [] ∷ answers) =
    if ltb (length read) sizeof_message
    then returned (if length read == 0 then pos 0 else minus_one)
    else complete read
receive_loop read (got (b ∷ bytes) ∷ answers) =
    let rest = receive_loop (read ++ b ∷ bytes) answers in
    if ltb (length read) sizeof_message then rest else complete read

-- The end of `receive_message_protocol`: the result with what `*message` holds then, unless the
-- call still waits.
unfoldable pub accept_buffer : (List ℕ → Message) → ℕ → Receiving → Option (ℤ × Message)
accept_buffer to_message now blocked = none
accept_buffer to_message now (returned result) = some (result, empty_message)
accept_buffer to_message now (complete buffer) = some (
  if validate_message now (to_message buffer) then pos (length buffer) else minus_one,
  to_message buffer,
)

-- A descriptor of -1 is `none`.
unfoldable pub send_message_protocol :
    (Message → List ℕ) → Option ℕ → Message → List SendAnswer → Sending
unfolding send_loop
send_message_protocol to_bytes none message answers = record { result = some minus_one; wire = [] }
send_message_protocol to_bytes (some socketfd) message answers =
    send_loop (to_bytes message) 0 answers

unfoldable pub receive_message_protocol :
    (List ℕ → Message) → ℕ → Option ℕ → Message → List RecvAnswer → Option (ℤ × Message)
unfolding receive_loop accept_buffer
receive_message_protocol to_message now none message answers = some (minus_one, message)
receive_message_protocol to_message now (some socketfd) message answers =
    accept_buffer to_message now (receive_loop [] answers)
