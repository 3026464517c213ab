-- ===== src/Tcp/Stream/Receive.antt =====
-- What `receive_message_protocol` (lab10/src/common.c) makes of a byte stream that comes in pieces.
use cs_os.Prelude.{
  ℕ, ◌+◌, ◌-◌, ◌≤◌, ◌<◌, ◌≡◌, sym, ◌∙◌, ap, subst, inl, inr, refl, Option, none, some, List, [],
  ◌∷◌, ◌++◌, arith, length, take, length-append, length-take, append_assoc, append-nil, pos,
  minus_one, leb→le, ℤ, if◌then◌else◌, ltb, leb, ◌==◌, Bool-cases, take-append, take-of_eq_zero,
  true, false,
}
use cs_os.Chat.Message.{Message, sizeof_message, validate_message, empty_message}
use cs_os.Tcp.Stream.{
  RecvAnswer, Receiving, receive_loop, accept_buffer, receive_message_protocol, blocked, returned,
  complete,
}

-- The bytes that come before the connection is closed or fails.
abbrev pub arrived : List RecvAnswer → List ℕ
arrived [] = []
arrived (RecvAnswer.failed ∷ answers) = []
arrived (RecvAnswer.interrupted ∷ answers) = arrived answers
arrived (RecvAnswer.got [] ∷ answers) = []
arrived (RecvAnswer.got (b ∷ bytes) ∷ answers) = (b ∷ bytes) ++ arrived answers

-- What ends the stream: nothing yet, a close, or a failure.
pub data Ending : Type 0 where
  open_yet shut broken : Ending

abbrev pub ending : List RecvAnswer → Ending
ending [] = open_yet
ending (RecvAnswer.failed ∷ answers) = broken
ending (RecvAnswer.interrupted ∷ answers) = ending answers
ending (RecvAnswer.got [] ∷ answers) = shut
ending (RecvAnswer.got (b ∷ bytes) ∷ answers) = ending answers

-- `recv` never brings more than it is asked for.
abbrev pub RecvFits : ℕ → List RecvAnswer → Type 0
RecvFits read [] = Unit
RecvFits read (RecvAnswer.failed ∷ answers) = Unit
RecvFits read (RecvAnswer.interrupted ∷ answers) = RecvFits read answers
RecvFits read (RecvAnswer.got bytes ∷ answers) =
    (read < sizeof_message → read + length bytes ≤ sizeof_message)
    × RecvFits (read + length bytes) answers

-- What too few bytes are good for.
abbrev pub ended : List ℕ → Ending → Receiving
ended bytes open_yet = blocked
ended bytes shut = returned (if length bytes == 0 then pos 0 else minus_one)
ended bytes broken = returned minus_one

-- The bytes that came, and how they ended, without regard to their pieces.
abbrev pub received : List ℕ → Ending → Receiving
received bytes end =
    if leb sizeof_message (length bytes)
    then complete (take sizeof_message bytes)
    else ended bytes end

received-full :
    (read more : List ℕ) (end : Ending)
    → ltb (length read) sizeof_message ≡ false
    → length read ≤ sizeof_message
    → received (read ++ more) end ≡ complete read
received-full read more end full fits = rw (long, the_front) refl
  where
    long : leb sizeof_message (length (read ++ more)) ≡ true
    long = ground (arith, length-append read more)

    the_front : take sizeof_message (read ++ more) ≡ read
    the_front =
        take-append sizeof_message read more fits
        ∙ ap (◌++◌ read) (take-of_eq_zero (sizeof_message - length read) more (ground arith))
        ∙ append-nil read

-- With a whole message before the rest, the message is all that is taken.
pub received-complete :
    (bytes more : List ℕ) (end : Ending)
    → length bytes ≡ sizeof_message
    → received (bytes ++ more) end ≡ complete bytes
received-complete bytes more end size =
    received-full bytes more end (ground arith) (omega (arith, size))

receive_loop-received :
    (read : List ℕ) (answers : List RecvAnswer)
    → length read ≤ sizeof_message
    → RecvFits (length read) answers
    → receive_loop read answers ≡ received (read ++ arrived answers) (ending answers)
unfolding receive_loop
receive_loop-received read [] size fits = elim (Bool-cases (ltb (length read) sizeof_message)) [
  | inl more ↦ rw (append-nil read) (ground arith)
  | inr full ↦ rw (full, receive_loop) (sym (received-full read [] open_yet full size))
]
receive_loop-received read (RecvAnswer.failed ∷ answers) size fits =
    elim (Bool-cases (ltb (length read) sizeof_message)) [
      | inl more ↦ rw (append-nil read) (ground arith)
      | inr full ↦ rw (full, receive_loop) (sym (received-full read [] broken full size))
    ]
receive_loop-received read (RecvAnswer.interrupted ∷ answers) size fits =
    elim (Bool-cases (ltb (length read) sizeof_message)) [
      | inl more ↦ rw (more, receive_loop) (receive_loop-received read answers size fits)
      | inr full ↦
          rw (full, receive_loop)
            (sym (received-full read (arrived answers) (ending answers) full size))
    ]
receive_loop-received read (RecvAnswer.got [] ∷ answers) size fits =
    elim (Bool-cases (ltb (length read) sizeof_message)) [
      | inl more ↦ rw (append-nil read) (ground arith)
      | inr full ↦ rw (full, receive_loop) (sym (received-full read [] shut full size))
    ]
receive_loop-received read (RecvAnswer.got (b ∷ bytes) ∷ answers) size fits =
    elim (Bool-cases (ltb (length read) sizeof_message)) [
      | inl more ↦
          rw (more, receive_loop)
            (receive_loop-received (read ++ b ∷ bytes) answers
                (ground (arith, length-append read (b ∷ bytes), fits.0 (ground arith)))
                (subst (λ k. RecvFits k answers) (sym (length-append read (b ∷ bytes))) fits.1)
              ∙ ap (λ bs. received bs (ending answers))
                  (append_assoc read (b ∷ bytes) (arrived answers)))
      | inr full ↦
          rw (full, receive_loop)
            (sym (received-full read (b ∷ (bytes ++ arrived answers)) (ending answers) full size))
    ]

-- What a call of `receive_message_protocol` returns, if it does, and leaves in `*message`, for a
-- stream as a whole.
abbrev pub received_message : (List ℕ → Message) → ℕ → Receiving → Option (ℤ × Message)
received_message to_message now blocked = none
received_message to_message now (returned result) = some (result, empty_message)
received_message to_message now (complete buffer) = some (
  if validate_message now (to_message buffer) then pos sizeof_message else minus_one,
  to_message buffer,
)

accept_buffer-received :
    (to_message : List ℕ → Message) (now : ℕ) (bytes : List ℕ) (end : Ending)
    → accept_buffer to_message now (received bytes end)
      ≡ received_message to_message now (received bytes end)
unfolding accept_buffer
accept_buffer-received to_message now bytes end =
    elim (Bool-cases (leb sizeof_message (length bytes))) [
      | inl long ↦
          let size : length (take sizeof_message bytes) ≡ sizeof_message =
            omega (
              arith,
              length-take sizeof_message bytes,
              leb→le sizeof_message (length bytes) long,
            ) in
          rw (long, size, accept_buffer) refl
      | inr short ↦ rw (short) (rest end)
    ]
  where
    rest :
        (end : Ending)
        → accept_buffer to_message now (ended bytes end)
          ≡ received_message to_message now (ended bytes end)
    rest open_yet = refl
    rest shut = refl
    rest broken = refl

-- With every call of `recv` bringing no more than it is asked for, in pieces of any size and with
-- any interruptions between them, `receive_message_protocol` waits while fewer than 1248 bytes have
-- come and nothing has ended the stream; it returns 0 where the stream was closed before the first
-- byte and -1 where it was closed or failed within the message, with the message all zeros; and
-- with the first 1248 bytes it returns 1248 or -1, as `validate_message` accepts them or not, with
-- the message that they are.
pub receive_message_protocol-received :
    (to_message : List ℕ → Message) (now socketfd : ℕ) (m : Message) (answers : List RecvAnswer)
    → RecvFits 0 answers
    → receive_message_protocol to_message now (some socketfd) m answers
      ≡ received_message to_message now (received (arrived answers) (ending answers))
unfolding receive_message_protocol
receive_message_protocol-received to_message now socketfd m answers fits =
    ap (accept_buffer to_message now) (receive_loop-received [] answers (omega arith) fits)
    ∙ accept_buffer-received to_message now (arrived answers) (ending answers)
