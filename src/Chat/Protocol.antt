-- ===== src/Chat/Protocol.antt =====
-- lab11/src/common.c: `send_message_protocol`. The system call `sendto` is a parameter: what it
-- returns may depend on all that has happened before.
use cs_os.Prelude.{
  ℕ, Option, none, some, List, ◌∷◌, ltb, not, if◌then◌else◌, ℤ, pos, minus_one, eq_ℤ,
}
use cs_os.Chat.Message.{Message, sizeof_message}

-- `struct sockaddr_in`
pub record SockAddr : Type 0 where
  pub ip : ℕ
  pub port : ℕ

abbrev pub sizeof_sockaddr : ℕ
sizeof_sockaddr = 16

-- The calls by which the programs act on the world. `sent` is a call of `sendto`, with its result.
pub data Event : Type 0 where
  sent : ℕ → Message → SockAddr → ℤ → Event
  closed : ℕ → Event

-- Latest first.
abbrev pub Log : Type 0
Log = List Event

abbrev pub Sendto : Type 0
Sendto = Log → ℕ → Message → SockAddr → ℤ

-- A descriptor is an `int` of which the programs use -1 as the one invalid value: `none`. `msg` is
-- never NULL. The result, and the log with the call of `sendto` that was made, if any.
unfoldable pub send_message_protocol :
    Sendto → Option ℕ → Message → Option SockAddr → ℕ → Log → ℤ × Log
send_message_protocol sendto none msg addr addr_len log = (minus_one, log)
send_message_protocol sendto (some fd) msg none addr_len log = (minus_one, log)
send_message_protocol sendto (some fd) msg (some addr) addr_len log =
    if ltb 0 addr_len
    then (let bytes_sent = sendto log fd msg addr in
        if eq_ℤ bytes_sent minus_one
        then (minus_one, sent fd msg addr bytes_sent ∷ log)
        else if not (eq_ℤ bytes_sent (pos sizeof_message))
        then (minus_one, sent fd msg addr bytes_sent ∷ log)
        else (bytes_sent, sent fd msg addr bytes_sent ∷ log))
    else (minus_one, log)
