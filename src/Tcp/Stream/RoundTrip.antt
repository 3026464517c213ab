-- ===== src/Tcp/Stream/RoundTrip.antt =====
-- One message from `send_message_protocol` to `receive_message_protocol` (lab10/src/common.c).
use cs_os.Prelude.{
  ℕ, ◌≡◌, ap, ◌∙◌, ◌++◌, some, List, length, pos, minus_one, if◌then◌else◌, inl, inr,
}
use cs_os.Chat.Message.{Message, sizeof_message, validate_message}
use cs_os.Tcp.Stream.{SendAnswer, RecvAnswer, send_message_protocol, receive_message_protocol}
use cs_os.Tcp.Stream.Laws.{SendFits, send_message_protocol-outcome}
use cs_os.Tcp.Stream.Receive.{
  RecvFits, arrived, ending, received, received-complete, received_message,
  receive_message_protocol-received,
}

-- A message that its 1248 bytes in memory determine, for which `send_message_protocol` returned
-- 1248, is received as it was, whatever pieces the two systems cut the stream into and whatever
-- follows in it: `receive_message_protocol` returns with this message, and with 1248 or -1 as
-- `validate_message` accepts it or not.
pub receive_message_protocol-send_message_protocol :
    (to_bytes : Message → List ℕ) (to_message : List ℕ → Message) (now there here : ℕ)
    (m before : Message) (sends : List SendAnswer) (receives : List RecvAnswer) (later : List ℕ)
    → length (to_bytes m) ≡ sizeof_message
    → to_message (to_bytes m) ≡ m
    → SendFits 0 sends
    → RecvFits 0 receives
    → (send_message_protocol to_bytes (some there) m sends).result ≡ some (pos sizeof_message)
    → arrived receives ≡ (send_message_protocol to_bytes (some there) m sends).wire ++ later
    → receive_message_protocol to_message now (some here) before receives
      ≡ some (if validate_message now m then pos sizeof_message else minus_one, m)
receive_message_protocol-send_message_protocol to_bytes to_message now there here m before sends
      receives later size back fits fits' done wire =
    elim (send_message_protocol-outcome to_bytes there m sends size fits) [
      | inl (_, whole) ↦
          receive_message_protocol-received to_message now here before receives fits'
          ∙ ap (λ bs. received_message to_message now (received bs (ending receives)))
              (wire ∙ ap (λ w. w ++ later) whole)
          ∙ ap (received_message to_message now)
              (received-complete (to_bytes m) later (ending receives) size)
          ∙ ap (λ m'. some (if validate_message now m' then pos sizeof_message else minus_one, m'))
              back
      | inr (short, _, _) ↦ absurd (short done)
    ]
